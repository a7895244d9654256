-- ===== src/Locks.antt =====
-- kernel/spinlock.c and kernel/sleeplock.c. Processor `i` is written `i + 1` in the `cpu` field of a
-- lock, where 0 is none. An `acquire` of a lock that another processor has spins, so that it is `blocked`.
mod Exclusion
mod Nesting
mod Tests
use os_lab.Base.{
  ℕ, zero, suc, ◌+◌, ◌-◌, ◌<◌, ◌≡◌, Bool, true, false, not, ◌&&◌, ◌||◌, ltb, ◌==◌, if◌then◌else◌,
  update, Outcome, ok, panic, ◌>>=◌,
}

-- `struct cpu`, with whether the processor takes interrupts
pub record Cpu : Type 0 where
  pub noff : ℕ
  pub intena : Bool
  pub intr : Bool

-- `struct spinlock`
pub record Spinlock : Type 0 where
  pub locked : Bool
  pub cpu : ℕ

unfoldable pub initlock : Spinlock
initlock = record { locked = false; cpu = 0 }

unfoldable pub push_off : Cpu → Cpu
push_off c =
    let old = c.intr in
    record { noff = c.noff + 1; intena = if c.noff == 0 then old else c.intena; intr = false }

unfoldable pub pop_off : Cpu → Outcome Cpu
pop_off c =
    if c.intr
    then panic
    else if ltb c.noff 1
    then panic
    else ok (record c {
      noff = c.noff - 1;
      intr = if c.noff - 1 == 0 && c.intena then true else c.intr;
    })

unfoldable pub holding : ℕ → Spinlock → Bool
holding i lk = lk.locked && (lk.cpu == i + 1)

unfoldable pub acquire : ℕ → Spinlock × Cpu → Outcome (Spinlock × Cpu)
unfolding holding push_off
acquire i (lk, c) =
    if holding i lk
    then panic
    else if lk.locked
    then Outcome.blocked
    else ok (record { locked = true; cpu = i + 1 }, push_off c)

unfoldable pub release : ℕ → Spinlock × Cpu → Outcome (Spinlock × Cpu)
unfolding holding pop_off
release i (lk, c) =
    if not (holding i lk)
    then panic
    else pop_off c >>= λ c'. ok (record { locked = false; cpu = 0 }, c')

-- `struct sleeplock`, without its spinlock
pub record Sleeplock : Type 0 where
  pub locked : Bool
  pub pid : ℕ

unfoldable pub initsleeplock : Sleeplock
initsleeplock = record { locked = false; pid = 0 }

-- One round of the loop of `acquiresleep`, `blocked` where the process sleeps
unfoldable pub acquiresleep : (pid : ℕ) → Sleeplock → Outcome Sleeplock
acquiresleep pid lk =
    if lk.locked then Outcome.blocked else ok (record { locked = true; pid = pid })

unfoldable pub releasesleep : Sleeplock → Sleeplock
releasesleep lk = record { locked = false; pid = 0 }

unfoldable pub holdingsleep : (pid : ℕ) → Sleeplock → Bool
holdingsleep pid lk = lk.locked && (lk.pid == pid)
