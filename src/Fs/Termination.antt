-- ===== src/Fs/Termination.antt =====
-- The loops of kernel/fs.c that `namex` runs end.
use os_lab.Base.{
  ℕ, zero, suc, ◌+◌, ◌*◌, ◌%◌, ◌<◌, inl, inr, arith, Bool, true, not, ◌&&◌, ltb, ◌==◌, Bool-cases,
  Option, none, some, List, length, Outcome,
}
use os_lab.Fs.{ndirect, nindirect, bpb, bblock, iblock, Superblock, Fs, uint_at}
use os_lab.Fs.Blocks.{bfree, is_free}
use os_lab.Fs.Table.{dinode, loaded, put_inode, iget, idup, ilock, iunlock}
use os_lab.Fs.Content.{itrunc_direct, itrunc_indirect, itrunc, iput, iunlockput}
use os_lab.Fs.Names.{
  dirlookup, Named, give_up, go_down, namex_round, namex_loop, is_absolute, namex,
}
use os_lab.Fs.Paths.{skipelem-elems}
use os_lab.Fs.Ends.{Ends, bind-Ends, if-Ends, iget-Ends, dirlookup-Ends}

bfree-Ends : (b : ℕ) (sb : Superblock) (fs : Fs) → Ends (bfree b sb fs)
unfolding bfree
bfree-Ends b sb fs = elim (Bool-cases (is_free (fs.block (bblock b sb)) (b % bpb))) [
  | inl free ↦ rw (bfree, free) tt
  | inr taken ↦ rw (bfree, taken) tt
]

itrunc_direct-Ends : (n i ip : ℕ) (sb : Superblock) (fs : Fs) → Ends (itrunc_direct n i ip sb fs)
unfolding itrunc_direct
itrunc_direct-Ends zero i ip sb fs = tt
itrunc_direct-Ends (suc n) i ip sb fs =
    let addr = (fs.inode ip).addrs i in
    if-Ends (addr == 0) _ _ (λ _. itrunc_direct-Ends n (i + 1) ip sb fs)
      (λ _.
        bind-Ends (bfree addr sb fs) _ (bfree-Ends addr sb fs)
          (λ fs1. itrunc_direct-Ends n (i + 1) ip sb _))

itrunc_indirect-Ends :
    (n j ind : ℕ) (sb : Superblock) (fs : Fs) → Ends (itrunc_indirect n j ind sb fs)
unfolding itrunc_indirect
itrunc_indirect-Ends zero j ind sb fs = tt
itrunc_indirect-Ends (suc n) j ind sb fs =
    let addr = uint_at (fs.block ind) (4 * j) in
    if-Ends (addr == 0) _ _ (λ _. itrunc_indirect-Ends n (j + 1) ind sb fs)
      (λ _.
        bind-Ends (bfree addr sb fs) _ (bfree-Ends addr sb fs)
          (λ fs1. itrunc_indirect-Ends n (j + 1) ind sb fs1))

itrunc-Ends : (ip : ℕ) (sb : Superblock) (fs : Fs) → Ends (itrunc ip sb fs)
unfolding itrunc
itrunc-Ends ip sb fs =
    bind-Ends (itrunc_direct ndirect 0 ip sb fs) _ (itrunc_direct-Ends ndirect 0 ip sb fs) λ fs1.
      let ind = (fs1.inode ip).addrs ndirect in
      bind-Ends _ _
        (if-Ends (ind == 0) _ _ (λ _. tt)
          λ _.
            bind-Ends (itrunc_indirect nindirect 0 ind sb fs1) _
              (itrunc_indirect-Ends nindirect 0 ind sb fs1)
              λ fs2. bind-Ends (bfree ind sb fs2) _ (bfree-Ends ind sb fs2) (λ fs3. tt))
        (λ fs4. tt)

iput-Ends : (ip : ℕ) (sb : Superblock) (fs : Fs) → Ends (iput ip sb fs)
unfolding iput
iput-Ends ip sb fs =
    let i = fs.inode ip in
    let begun = put_inode ip (record i { locked = true }) fs in
    if-Ends {A = Fs} (i.ref == 1 && (i.valid && i.nlink == 0)) _ _
      (λ _.
        if-Ends {A = Fs} i.locked _ _ (λ _. tt)
          (λ _. bind-Ends (itrunc ip sb begun) _ (itrunc-Ends ip sb begun) (λ fs1. tt)))
      (λ _. tt)

iunlock-Ends : (ip : ℕ) (fs : Fs) → Ends (iunlock ip fs)
unfolding iunlock
iunlock-Ends ip fs = elim (Bool-cases (fs.inode ip).locked) [
  | inr free ↦ rw (iunlock, free) tt
  | inl held ↦
      rw (iunlock, held) (if-Ends {A = Fs} (ltb (fs.inode ip).ref 1) _ _ (λ _. tt) (λ _. tt))
]

iunlockput-Ends : (ip : ℕ) (sb : Superblock) (fs : Fs) → Ends (iunlockput ip sb fs)
unfolding iunlockput
iunlockput-Ends ip sb fs =
    bind-Ends (iunlock ip fs) _ (iunlock-Ends ip fs) (λ fs1. iput-Ends ip sb fs1)

ilock-Ends : (ip : ℕ) (sb : Superblock) (fs : Fs) → Ends (ilock ip sb fs)
unfolding ilock
ilock-Ends ip sb fs =
    let i = fs.inode ip in
    let read = loaded (fs.block (iblock i.inum sb)) (dinode i.inum) (record i { locked = true }) in
    if-Ends {A = Fs} (ltb (fs.inode ip).ref 1) _ _ (λ _. tt)
      λ _.
        if-Ends {A = Fs} (fs.inode ip).locked _ _ (λ _. tt)
          λ _.
            if-Ends {A = Fs} (fs.inode ip).valid _ _ (λ _. tt)
              λ _. if-Ends {A = Fs} (read.type == 0) _ _ (λ _. tt) (λ _. tt)

give_up-Ends : (ip : ℕ) (name : List ℕ) (sb : Superblock) (fs : Fs) → Ends (give_up ip name sb fs)
give_up-Ends ip name sb fs =
    bind-Ends (iunlockput ip sb fs) _ (iunlockput-Ends ip sb fs) (λ fs1. tt)

go_down-Ends :
    (continue : ℕ → Fs → Outcome Named) (ip : ℕ) (name : List ℕ) (sb : Superblock)
    (found : Option (ℕ × ℕ)) (fs : Fs)
    → ((next : ℕ) (fs1 : Fs) → Ends (continue next fs1))
    → Ends (go_down continue ip name sb found fs)
go_down-Ends continue ip name sb none fs ends = give_up-Ends ip name sb fs
go_down-Ends continue ip name sb (some (next, off)) fs ends =
    bind-Ends (iunlockput ip sb fs) _ (iunlockput-Ends ip sb fs) (λ fs1. ends next fs1)

namex_round-Ends :
    (continue : ℕ → Fs → Outcome Named) (stop : Bool) (ip : ℕ) (name : List ℕ) (sb : Superblock)
    (fs : Fs)
    → ((next : ℕ) (fs1 : Fs) → Ends (continue next fs1))
    → Ends (namex_round continue stop ip name sb fs)
unfolding namex_round
namex_round-Ends continue stop ip name sb fs ends =
    if-Ends {A = Named} (not ((fs.inode ip).type == 1)) _ _ (λ _. give_up-Ends ip name sb fs)
      λ _.
        if-Ends {A = Named} stop _ _
          (λ _. bind-Ends (iunlock ip fs) _ (iunlock-Ends ip fs) (λ fs1. tt))
          (λ _.
            bind-Ends (dirlookup ip name sb fs) _ (dirlookup-Ends ip name sb fs)
              λ r. go_down-Ends continue ip name sb r.0 r.1 ends)

namex_loop-Ends :
    (fuel ip : ℕ) (path : List ℕ) (to_parent : Bool) (name : List ℕ) (sb : Superblock) (fs : Fs)
    → length path < fuel
    → Ends (namex_loop fuel ip path to_parent name sb fs)
unfolding namex_loop
namex_loop-Ends zero ip path to_parent name sb fs enough = absurd (omega arith)
namex_loop-Ends (suc fuel) ip path to_parent name sb fs enough = elim (skipelem-elems path name) [
  | inl (e, _) ↦
      rw (namex_loop, e)
        (if-Ends to_parent _ _ (λ _. bind-Ends (iput ip sb fs) _ (iput-Ends ip sb fs) (λ fs1. tt))
          (λ _. tt))
  | inr (first, rest, name', e, _, _, shorter) ↦
      rw (namex_loop, e)
        (bind-Ends (ilock ip sb fs) _ (ilock-Ends ip sb fs) λ fs1.
          namex_round-Ends (λ next fs2. namex_loop fuel next rest to_parent name' sb fs2) _ ip name'
            sb fs1 λ next fs2. namex_loop-Ends fuel next rest to_parent name' sb fs2 (omega arith))
]

-- The look-up of a path name comes to an end whatever the disk holds, whichever path it is and whether
-- the last element is wanted or its parent: it returns, it panics, or it waits for an inode that is locked.
pub namex-Ends :
    (cwd : ℕ) (path : List ℕ) (to_parent : Bool) (name : List ℕ) (sb : Superblock) (fs : Fs)
    → Ends (namex cwd path to_parent name sb fs)
unfolding namex
namex-Ends cwd path to_parent name sb fs =
    if-Ends (is_absolute path) _ _
      (λ _.
        bind-Ends (iget 1 1 fs) _ (iget-Ends 1 1 fs)
          λ r. namex_loop-Ends (length path + 1) r.0 path to_parent name sb r.1 (omega arith))
      (λ _.
        namex_loop-Ends (length path + 1) (idup cwd fs).0 path to_parent name sb (idup cwd fs).1
          (omega arith))
