-- ===== src/Fs/Tests.antt =====
-- kernel/fs.c on a disk of 20 blocks whose first four are in use, and on an empty table of inodes.
use os_lab.Base.{
  ℕ, ◌/◌, ◌<◌, ◌≡◌, ◌≢◌, ◌⊎◌, refl, arith, true, false, ◌==◌, if◌then◌else◌, none, some, List, [],
  ◌∷◌, length, scan, ok, panic,
}
use os_lab.Fs.{ninode, bblock, Superblock, Inode, Fs, test_bit}
use os_lab.Fs.Blocks.{balloc_loop, balloc, bfree}
use os_lab.Fs.Table.{is_inode, iget}
use os_lab.Fs.Content.{addr_or_new, bmap}
use os_lab.Fs.Names.{skipelem, namex}
use os_lab.Fs.Marks.{is_used, IsMap}
use os_lab.Fs.Taken.{Taken}
use os_lab.Fs.Bitmap.{balloc-Taken, bfree_lem, bfree-balloc}
use os_lab.Fs.References.{Got, iget-Got}
use os_lab.Fs.Stable.{bmap-again}
use os_lab.Fs.Paths.{elems, Filled, skipelem-elems}
use os_lab.Fs.Ends.{Ends}
use os_lab.Fs.Termination.{namex-Ends}

abbrev sb : Superblock
sb = record {
  magic = 270544960;
  size = 20;
  nblocks = 16;
  ninodes = 16;
  nlog = 0;
  logstart = 2;
  inodestart = 2;
  bmapstart = 3;
}

abbrev unused : Inode
unused = record {
  dev = 0;
  inum = 0;
  ref = 0;
  locked = false;
  valid = false;
  type = 0;
  major = 0;
  minor = 0;
  nlink = 0;
  size = 0;
  addrs = λ i. 0;
}

-- Block 3 is the map: its first byte is 15.
abbrev disk : Fs
disk = record {
  block = λ b i. if b == 3 then (if i == 0 then 15 else 0) else 0;
  logged = [];
  inode = λ ip. unused;
}

disk-IsMap : IsMap sb disk
unfolding test_bit
disk-IsMap = record {
  boot = refl;
  within = λ c hc. omega arith;
  own = λ c hc. let here : c / 8192 ≡ 0 = omega arith in rw here refl;
}

balloc-Taken_example :
    ((b : ℕ) × (fs' : Fs) × (balloc sb disk ≡ (b, fs')) × Taken sb b disk fs')
    ⊎ ((balloc sb disk ≡ (0, disk)) × ((c : ℕ) → c < 20 → is_used c sb disk ≡ true))
balloc-Taken_example = balloc-Taken sb disk disk-IsMap

abbrev allocated : Fs
allocated = (balloc sb disk).1

allocated-eq : balloc sb disk ≡ (4, allocated)
unfolding balloc balloc_loop scan test_bit
allocated-eq = refl

bfree-balloc_example :
    (fs'' : Fs) × (bfree 4 sb allocated ≡ ok fs'')
    × ((c : ℕ) → c < 20 → is_used c sb fs'' ≡ is_used c sb disk)
bfree-balloc_example = bfree-balloc 4 sb disk allocated disk-IsMap allocated-eq (omega arith)

bfree_lem_example :
    ((is_used 2 sb disk ≡ false) × (bfree 2 sb disk ≡ panic))
    ⊎ ((is_used 2 sb disk ≡ true)
        × ((fs' : Fs) × (bfree 2 sb disk ≡ ok fs')
            × (is_used 2 sb fs' ≡ false)
            × ((c : ℕ) → c ≢ 2 → is_used c sb fs' ≡ is_used c sb disk)
            × ((c : ℕ) → c ≢ bblock 2 sb → fs'.block c ≡ disk.block c)))
bfree_lem_example = bfree_lem 2 sb disk

iget-Got_example :
    ((ip : ℕ) × (fs' : Fs) × (iget 1 7 disk ≡ ok (ip, fs')) × Got 1 7 ip disk fs')
    ⊎ ((iget 1 7 disk ≡ panic)
        × ((j : ℕ) → j < ninode → (0 < (disk.inode j).ref) × (is_inode 1 7 (disk.inode j) ≡ false)))
iget-Got_example = iget-Got 1 7 disk λ i j hi hj used. absurd (omega arith)

abbrev mapped : Fs
mapped = (addr_or_new 0 5 sb disk).1

mapped-eq : bmap 0 5 sb disk ≡ ok (4, mapped)
unfolding bmap addr_or_new balloc balloc_loop scan test_bit
mapped-eq = refl

bmap-again_example : bmap 0 5 sb mapped ≡ ok (4, mapped)
bmap-again_example =
    bmap-again 0 5 4 sb disk mapped disk-IsMap (omega arith) mapped-eq (omega arith)

-- "/a//bb"
abbrev path : List ℕ
path = 47 ∷ 97 ∷ 47 ∷ 47 ∷ 98 ∷ 98 ∷ []

skipelem-elems_example :
    ((skipelem path [] ≡ none) × (elems path ≡ []))
    ⊎ ((e : List ℕ) × (rest : List ℕ) × (name' : List ℕ) × (skipelem path [] ≡ some (rest, name'))
        × Filled e [] name'
        × (elems path ≡ e ∷ elems rest)
        × (length rest < length path))
skipelem-elems_example = skipelem-elems path []

namex-Ends_example : Ends (namex 0 (47 ∷ 97 ∷ []) false [] sb disk)
namex-Ends_example = namex-Ends 0 (47 ∷ 97 ∷ []) false [] sb disk
