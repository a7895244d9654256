-- ===== src/File.antt =====
-- kernel/file.c: the table of open files and its reference counts. The reads and writes of the
-- objects behind a file are elsewhere.
pub mod Table
mod Tests
use os_lab.Base.{
  ℕ, ◌+◌, ◌-◌, ◌<◌, ◌≡◌, Bool, true, false, not, ltb, ◌==◌, if◌then◌else◌, update, Option, none,
  some, scan, Outcome, ok, panic, ◌>>=◌, ◌||◌,
}

pub data FileType : Type 0 where
  fd_none fd_pipe fd_inode fd_device : FileType

-- `struct file`. Pipes and inodes are named by their addresses.
pub record File : Type 0 where
  pub type : FileType
  pub ref : ℕ
  pub readable : Bool
  pub writable : Bool
  pub pipe : ℕ
  pub ip : ℕ
  pub off : ℕ
  pub major : ℕ

-- `ftable.file`, by index below NFILE
abbrev pub Ftable : Type 0
Ftable = ℕ → File

abbrev pub nfile : ℕ
nfile = 100

pub filealloc : Ftable → Option ℕ × Ftable
filealloc t = elim (scan (λ f. (t f).ref == 0) nfile 0) [
  | none ↦ (none, t)
  | some f ↦ (some f, update t f (record (t f) { ref = 1 }))
]

pub filedup : ℕ → Ftable → Outcome Ftable
filedup f t =
    if ltb (t f).ref 1 then panic else ok (update t f (record (t f) { ref = (t f).ref + 1 }))

-- What the last `fileclose` of a file goes on to do, outside the lock.
pub data Closing : Type 0 where
  nothing : Closing
  pipeclose : (pipe : ℕ) → (writable : Bool) → Closing
  iput : (ip : ℕ) → Closing

pub closing : File → Closing
closing ff = elim ff.type [
  | fd_none ↦ nothing
  | fd_pipe ↦ pipeclose ff.pipe ff.writable
  | fd_inode ↦ iput ff.ip
  | fd_device ↦ iput ff.ip
]

unfoldable pub fileclose : ℕ → Ftable → Outcome (Closing × Ftable)
unfolding closing
fileclose f t =
    if ltb (t f).ref 1
    then panic
    else if ltb 0 ((t f).ref - 1)
    then ok (nothing, update t f (record (t f) { ref = (t f).ref - 1 }))
    else ok (closing (t f), update t f (record (t f) { ref = 0; type = fd_none }))
