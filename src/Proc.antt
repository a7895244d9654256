-- ===== src/Proc.antt =====
-- kernel/proc.c: the process table, and the operations on it. Each operation runs with the locks
-- that it takes, as one step.
pub mod Lifecycle
mod Handover
mod Wakeup
mod Kill
pub mod Listing
mod Schedulers
mod Tests
use os_lab.Base.{
  ℕ, zero, suc, ◌+◌, ◌-◌, ◌*◌, ◌<◌, ◌≡◌, Bool, true, false, not, ◌&&◌, ◌||◌, ltb, leb, ◌==◌,
  if◌then◌else◌, update, Option, none, some, List, [], ◌∷◌, set, scan, each, ℤ, pos, minus_one,
}

pub data ProcState : Type 0 where
  unused used sleeping runnable running zombie : ProcState

abbrev pub is_unused : ProcState → Bool
is_unused unused = true
is_unused _ = false

abbrev pub is_sleeping : ProcState → Bool
is_sleeping sleeping = true
is_sleeping _ = false

abbrev pub is_runnable : ProcState → Bool
is_runnable runnable = true
is_runnable _ = false

abbrev pub is_running : ProcState → Bool
is_running running = true
is_running _ = false

abbrev pub is_zombie : ProcState → Bool
is_zombie zombie = true
is_zombie _ = false

-- `struct trapframe`: the registers that the kernel code names, and the others by offset.
pub record Trapframe : Type 0 where
  pub epc : ℕ
  pub sp : ℕ
  pub a0 : ℕ
  pub others : ℕ → ℕ

-- `struct context`
pub record Context : Type 0 where
  pub ra : ℕ
  pub sp : ℕ
  pub saved : ℕ → ℕ

-- `struct proc` without its lock. A pointer is an address, 0 the null pointer; `trapframe` is
-- the page that the pointer leads to, `none` for the null pointer.
pub record Proc : Type 0 where
  pub state : ProcState
  pub chan : ℕ
  pub killed : ℕ
  pub xstate : ℤ
  pub pid : ℕ
  pub parent : ℕ
  pub kstack : ℕ
  pub sz : ℕ
  pub pagetable : ℕ
  pub trapframe : Option Trapframe
  pub context : Context
  pub ofile : ℕ → ℕ
  pub cwd : ℕ
  pub name : List ℕ

abbrev pub nproc : ℕ
nproc = 64

abbrev pub nofile : ℕ
nofile = 16

-- The address of slot `i` of the table. Other kernel objects have other addresses.
abbrev pub addr : ℕ → ℕ
addr i = suc i

-- `proc`, `nextpid` and `initproc`
pub record Table : Type 0 where
  pub proc : ℕ → Proc
  pub nextpid : ℕ
  pub initproc : ℕ

abbrev pub put : Table → ℕ → Proc → Table
put t i p = record t { proc = update t.proc i p }

abbrev pub set_state : ProcState → Proc → Proc
set_state s p = record p { state = s }

-- The body of the loop of `wakeup` at slot `i`, for a process `self` that calls it.
unfoldable pub woken : ℕ → ℕ → ℕ → Proc → Proc
woken self chan i p =
    if not (i == self) && (is_sleeping p.state && p.chan == chan) then set_state runnable p else p

unfoldable pub wakeup : ℕ → ℕ → Table → Table
wakeup self chan t = record t { proc = each (woken self chan) nproc 0 t.proc }

unfoldable pub kill : ℕ → Table → ℤ × Table
kill pid t = elim (scan (λ i. (t.proc i).pid == pid) nproc 0) [
  | none ↦ (minus_one, t)
  | some i ↦
      let p : Proc = record (t.proc i) { killed = 1 } in
      (pos 0, put t i (if is_sleeping p.state then set_state runnable p else p))
]

unfoldable pub setkilled : ℕ → Table → Table
setkilled i t = put t i (record (t.proc i) { killed = 1 })

unfoldable pub killed : ℕ → Table → ℕ
killed i t = (t.proc i).killed

unfoldable pub allocpid : Table → ℕ × Table
allocpid t = (t.nextpid, record t { nextpid = t.nextpid + 1 })

-- `freeproc`, less the pages that it gives back
unfoldable pub freeproc : Proc → Proc
freeproc p = record p {
  trapframe = none;
  pagetable = 0;
  sz = 0;
  pid = 0;
  parent = 0;
  name = set p.name 0 0;
  chan = 0;
  killed = 0;
  xstate = pos 0;
  state = unused;
}

-- `procinit` at slot `i`; `kstack_of` is the macro KSTACK.
unfoldable pub procinit : (ℕ → ℕ) → Table → Table
procinit kstack_of t = record t {
  proc = λ i.
      if ltb i nproc then record (t.proc i) { state = unused; kstack = kstack_of i } else t.proc i;
}
