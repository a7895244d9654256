-- ===== src/Fs.antt =====
-- kernel/fs.c: the file system above the log. `block` is the content of each block, by byte, as `bread`
-- gives it, and `logged` the blocks that `log_write` has been given, the latest first; `brelse` changes
-- neither. Each routine runs under the locks that it asks for.
mod Bits
pub mod Blocks
pub mod Table
pub mod Content
pub mod Names
mod Paths
mod Termination
mod Ends
mod Bitmap
mod Taken
mod Marks
mod References
mod Stable
mod Slots
mod Tests
use os_lab.Base.{
  ℕ, zero, suc, ◌+◌, ◌-◌, ◌*◌, ◌/◌, ◌%◌, ◌^◌, Bool, true, false, not, ◌&&◌, leb, ltb, ◌==◌,
  if◌then◌else◌, min, update, Option, none, some, List, [], ◌∷◌, scan, Outcome, ok, panic, ◌>>=◌,
}

abbrev pub bsize : ℕ
bsize = 1024

-- Bits of the map in a block
abbrev pub bpb : ℕ
bpb = 8192

abbrev pub ndirect : ℕ
ndirect = 12

abbrev pub nindirect : ℕ
nindirect = 256

abbrev pub ninode : ℕ
ninode = 50

pub record Superblock : Type 0 where
  pub magic : ℕ
  pub size : ℕ
  pub nblocks : ℕ
  pub ninodes : ℕ
  pub nlog : ℕ
  pub logstart : ℕ
  pub inodestart : ℕ
  pub bmapstart : ℕ

-- `struct inode`, with whether its sleep lock is held.
pub record Inode : Type 0 where
  pub dev : ℕ
  pub inum : ℕ
  pub ref : ℕ
  pub locked : Bool
  pub valid : Bool
  pub type : ℕ
  pub major : ℕ
  pub minor : ℕ
  pub nlink : ℕ
  pub size : ℕ
  pub addrs : ℕ → ℕ

-- The blocks of the disk and the table of inodes, where inode `i` of the table is `inode i`.
pub record Fs : Type 0 where
  pub block : ℕ → ℕ → ℕ
  pub logged : List ℕ
  pub inode : ℕ → Inode

-- Bit `k` of a number, and the number with that bit set or cleared.
unfoldable pub test_bit : (k x : ℕ) → Bool
test_bit zero x = x % 2 == 1
test_bit (suc k) x = test_bit k (x / 2)

unfoldable pub set_bit : (k x : ℕ) → ℕ
set_bit zero x = x / 2 * 2 + 1
set_bit (suc k) x = set_bit k (x / 2) * 2 + x % 2

unfoldable pub clear_bit : (k x : ℕ) → ℕ
clear_bit zero x = x / 2 * 2
clear_bit (suc k) x = clear_bit k (x / 2) * 2 + x % 2

-- A `uint` at byte `o` of a block
abbrev pub uint_at : (block : ℕ → ℕ) → (o : ℕ) → ℕ
uint_at block o = block o + 256 * block (o + 1) + 65536 * block (o + 2) + 16777216 * block (o + 3)

abbrev pub put_uint : (block : ℕ → ℕ) → (o w : ℕ) → ℕ → ℕ
put_uint block o w =
    update
      (update (update (update block o (w % 256)) (o + 1) (w / 256 % 256)) (o + 2) (w / 65536 % 256))
      (o + 3) (w / 16777216 % 256)

abbrev pub short_at : (block : ℕ → ℕ) → (o : ℕ) → ℕ
short_at block o = block o + 256 * block (o + 1)

abbrev pub put_short : (block : ℕ → ℕ) → (o w : ℕ) → ℕ → ℕ
put_short block o w = update (update block o (w % 256)) (o + 1) (w / 256 % 256)

-- The caller has changed block `b` and given it to `log_write`.
abbrev pub log_write : (b : ℕ) → (block : ℕ → ℕ) → Fs → Fs
log_write b block fs = record fs { block = update fs.block b block; logged = b ∷ fs.logged }

abbrev pub bblock : (b : ℕ) → Superblock → ℕ
bblock b sb = b / bpb + sb.bmapstart

abbrev pub iblock : (i : ℕ) → Superblock → ℕ
iblock i sb = i / 16 + sb.inodestart
