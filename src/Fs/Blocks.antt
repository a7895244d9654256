-- ===== src/Fs/Blocks.antt =====
-- kernel/fs.c: the super block and the blocks of the disk.
use os_lab.Base.{
  ℕ, zero, suc, ◌+◌, ◌-◌, ◌/◌, ◌%◌, Bool, not, ◌==◌, if◌then◌else◌, min, update, none, some, scan,
  Outcome, ok, panic,
}
use os_lab.Fs.{bpb, Superblock, Fs, test_bit, set_bit, clear_bit, uint_at, log_write, bblock}

-- The fields of `struct superblock` in block 1, eight `uint`s
unfoldable pub readsb : Fs → Superblock
readsb fs =
    let b = fs.block 1 in
    record {
      magic = uint_at b 0;
      size = uint_at b 4;
      nblocks = uint_at b 8;
      ninodes = uint_at b 12;
      nlog = uint_at b 16;
      logstart = uint_at b 20;
      inodestart = uint_at b 24;
      bmapstart = uint_at b 28;
    }

-- The super block that `fsinit` reads and gives to `initlog`
unfoldable pub fsinit : Fs → Outcome Superblock
fsinit fs = let sb = readsb fs in if not (sb.magic == 270544960) then panic else ok sb

unfoldable pub bzero : (bno : ℕ) → Fs → Fs
bzero bno fs = log_write bno (λ i. 0) fs

-- Byte `bi / 8` of a block of the map and bit `bi % 8` of it
abbrev pub is_free : (map : ℕ → ℕ) → (bi : ℕ) → Bool
is_free map bi = not (test_bit (bi % 8) (map (bi / 8)))

abbrev pub mark : (map : ℕ → ℕ) → (bi : ℕ) → ℕ → ℕ
mark map bi = update map (bi / 8) (set_bit (bi % 8) (map (bi / 8)))

abbrev pub unmark : (map : ℕ → ℕ) → (bi : ℕ) → ℕ → ℕ
unmark map bi = update map (bi / 8) (clear_bit (bi % 8) (map (bi / 8)))

-- The outer loop of `balloc`, with `n` blocks of the map left from the one for block `b` on
unfoldable pub balloc_loop : (n b : ℕ) → Superblock → Fs → ℕ × Fs
balloc_loop zero b sb fs = (0, fs)
balloc_loop (suc n) b sb fs =
    let map = fs.block (bblock b sb) in
    let rest = balloc_loop n (b + bpb) sb fs in
    elim (scan (is_free map) (min bpb (sb.size - b)) 0) [
      | some bi ↦ (b + bi, bzero (b + bi) (log_write (bblock b sb) (mark map bi) fs))
      | none ↦ rest
    ]

unfoldable pub balloc : Superblock → Fs → ℕ × Fs
balloc sb fs = balloc_loop ((sb.size + (bpb - 1)) / bpb) 0 sb fs

unfoldable pub bfree : (b : ℕ) → Superblock → Fs → Outcome Fs
bfree b sb fs =
    let map = fs.block (bblock b sb) in
    if is_free map (b % bpb) then panic else ok (log_write (bblock b sb) (unmark map (b % bpb)) fs)
