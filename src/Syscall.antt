-- ===== src/Syscall.antt =====
-- kernel/syscall.c: the arguments of a system call and its dispatch.
mod Arguments
pub mod Memory
mod Break
mod Tests
use os_lab.Base.{
  ℕ, suc, ◌+◌, ◌-◌, ◌%◌, ◌^◌, ◌<◌, ◌≡◌, Bool, true, false, ◌&&◌, ◌||◌, int_lt, ltb, leb, ◌==◌,
  if◌then◌else◌, Outcome, ok, panic, ◌>>=◌,
}
use os_lab.Strings.{Mem}
use os_lab.Vm.{copyin}
use os_lab.Proc.{Trapframe}

-- The argument registers, by their offsets in `struct trapframe`.
unfoldable pub argraw : ℕ → Trapframe → Outcome ℕ
argraw n tf =
    if n == 0
    then ok tf.a0
    else if n == 1
    then ok (tf.others 120)
    else if n == 2
    then ok (tf.others 128)
    else if n == 3
    then ok (tf.others 136)
    else if n == 4
    then ok (tf.others 144)
    else if n == 5
    then ok (tf.others 152)
    else panic

-- The bits of the `int`
unfoldable pub argint : ℕ → Trapframe → Outcome ℕ
argint n tf = argraw n tf >>= λ v. ok (v % 2 ^ 32)

unfoldable pub argaddr : ℕ → Trapframe → Outcome ℕ
argaddr n tf = argraw n tf

-- `fetchaddr` in a process of `sz` bytes: whether it fetched the word at `addr` to `ip`.
unfoldable pub fetchaddr : (walkaddr : ℕ → ℕ) → (sz addr ip : ℕ) → Mem → Outcome (Bool × Mem)
fetchaddr walkaddr sz addr ip m =
    if leb sz addr || ltb sz ((addr + 8) % 2 ^ 64)
    then ok (false, m)
    else copyin walkaddr ip addr 8 m

abbrev pub calls : ℕ
calls = 28

module _ {S : Type 0} (trapframe : S → Trapframe) (set_a0 : ℕ → S → S) where
  -- `syscall`, where `call num` is entry `num` of the table, which has none at 0 and one at each
  -- other place.
  unfoldable pub syscall : (call : ℕ → S → Outcome (ℕ × S)) → S → Outcome S
  syscall call s =
      let num = (trapframe s).others 168 % 2 ^ 32 in
      if int_lt 0 num && ltb num calls
      then (call num s >>= λ r. ok (set_a0 r.0 r.1))
      else ok (set_a0 (2 ^ 64 - 1) s)
