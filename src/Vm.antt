-- ===== src/Vm.antt =====
-- kernel/vm.c. Here are the copies between the kernel and a process's memory, where what `walkaddr` says
-- of a page of the process is an argument of the definitions, 0 for a page that is not mapped; the page
-- tables are in Walk and Sizes.
pub mod Copies
pub mod Walk
pub mod Tree
mod Grow
mod Leaf
pub mod Lookup
pub mod Mapping
mod Mapped
pub mod Pages
pub mod Unmap
pub mod Frames
pub mod Sizes
pub mod Alloc
pub mod Create
pub mod Enlarging
mod Grown
mod Tests
use os_lab.Base.{
  ℕ, zero, suc, ◌+◌, ◌-◌, ◌%◌, ◌^◌, ◌<◌, ◌≡◌, min, Bool, true, false, ltb, ◌==◌, if◌then◌else◌,
  update, Outcome, ok,
}
use os_lab.Strings.{Mem, memmove}

abbrev pub pgsize : ℕ
pgsize = 4096

abbrev pub pgrounddown : ℕ → ℕ
pgrounddown a = a - a % pgsize

-- The bytes from `va` to the end of its page, `len` at most.
abbrev pub chunk : (va len : ℕ) → ℕ
chunk va len =
    if ltb len (pgsize - (va - pgrounddown va)) then len else pgsize - (va - pgrounddown va)

module _ (walkaddr : ℕ → ℕ) where
  -- The loop of `copyout`, on fuel: 0 or -1 as whether it succeeded, and the memory
  unfoldable pub copyout_loop : (fuel dstva src len : ℕ) → Mem → Outcome (Bool × Mem)
  copyout_loop zero dstva src len m = if len == 0 then ok (true, m) else Outcome.out_of_fuel
  copyout_loop (suc fuel) dstva src len m =
      let va0 = pgrounddown dstva in
      let pa0 = walkaddr va0 in
      let n = chunk dstva len in
      let rest =
        copyout_loop fuel ((va0 + pgsize) % 2 ^ 64) (src + n) (len - n)
          (memmove (pa0 + (dstva - va0)) src n m) in
      if len == 0 then ok (true, m) else if pa0 == 0 then ok (false, m) else rest

  -- Each round copies a byte at least.
  unfoldable pub copyout : (dstva src len : ℕ) → Mem → Outcome (Bool × Mem)
  copyout dstva src len m = copyout_loop len dstva src len m

  unfoldable pub copyin_loop : (fuel dst srcva len : ℕ) → Mem → Outcome (Bool × Mem)
  copyin_loop zero dst srcva len m = if len == 0 then ok (true, m) else Outcome.out_of_fuel
  copyin_loop (suc fuel) dst srcva len m =
      let va0 = pgrounddown srcva in
      let pa0 = walkaddr va0 in
      let n = chunk srcva len in
      let rest =
        copyin_loop fuel (dst + n) ((va0 + pgsize) % 2 ^ 64) (len - n)
          (memmove dst (pa0 + (srcva - va0)) n m) in
      if len == 0 then ok (true, m) else if pa0 == 0 then ok (false, m) else rest

  unfoldable pub copyin : (dst srcva len : ℕ) → Mem → Outcome (Bool × Mem)
  copyin dst srcva len m = copyin_loop len dst srcva len m

  -- The inner loop of `copyinstr`: whether a terminator came in the `n` bytes from `p` on.
  unfoldable pub copy_string : (n dst p : ℕ) → Mem → Bool × Mem
  copy_string zero dst p m = (false, m)
  copy_string (suc n) dst p m =
      let rest = copy_string n (dst + 1) (p + 1) (update m dst (m p)) in
      if m p == 0 then (true, update m dst 0) else rest

  unfoldable pub copyinstr_loop : (fuel dst srcva max : ℕ) → Mem → Outcome (Bool × Mem)
  copyinstr_loop zero dst srcva max m = if max == 0 then ok (false, m) else Outcome.out_of_fuel
  copyinstr_loop (suc fuel) dst srcva max m =
      let va0 = pgrounddown srcva in
      let pa0 = walkaddr va0 in
      let n = chunk srcva max in
      let (got_null, m') = copy_string n dst (pa0 + (srcva - va0)) m in
      let rest = copyinstr_loop fuel (dst + n) ((va0 + pgsize) % 2 ^ 64) (max - n) m' in
      if max == 0
      then ok (false, m)
      else if pa0 == 0
      then ok (false, m)
      else if got_null
      then ok (true, m')
      else rest

  unfoldable pub copyinstr : (dst srcva max : ℕ) → Mem → Outcome (Bool × Mem)
  copyinstr dst srcva max m = copyinstr_loop max dst srcva max m

  -- Where byte `va` of the process is.
  abbrev pub physical : ℕ → ℕ
  physical va = walkaddr (pgrounddown va) + va % pgsize

  abbrev pub IsMapped : ℕ → Type 0
  IsMapped va = ¬ (walkaddr (pgrounddown va) ≡ 0)
