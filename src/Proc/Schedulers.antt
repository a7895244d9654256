-- ===== src/Proc/Schedulers.antt =====
-- The choice of a scheduler: `schedls` and `schedset` of kernel/proc.c, and `sys_schedset` of
-- kernel/sysproc.c.
use os_lab.Base.{
  ℕ, zero, suc, ◌+◌, ◌≡◌, ◌≢◌, ◌⊎◌, inl, inr, refl, Bool, true, arith, leb, ◌==◌, if◌then◌else◌,
  none, some, List, [], ◌∷◌, ℤ, pos, negsuc, get_elem?, map,
}

-- `SchedImpl`, less the name: the code and the id that `schedls` prints.
pub record SchedImpl : Type 0 where
  pub impl : ℕ
  pub id : ℕ

-- `available_schedulers`, with the address of `rr_scheduler`
abbrev pub available_schedulers : ℕ → List SchedImpl
available_schedulers rr = record { impl = rr; id = 1 } ∷ []

-- SCHEDC
abbrev pub schedc : ℕ
schedc = 1

-- `schedset(id)` on `sched_pointer`
unfoldable pub schedset : ℕ → ℤ → ℕ → ℕ
schedset rr (negsuc n) sched_pointer = sched_pointer
schedset rr (pos id) sched_pointer =
    if leb schedc id
    then sched_pointer
    else elim (get_elem? (available_schedulers rr) id) [ none ↦ sched_pointer | some s ↦ s.impl ]

-- `sys_schedset` takes the id from 1 on.
unfoldable pub sys_schedset : ℕ → ℤ → ℕ → ℕ
sys_schedset rr (negsuc n) sched_pointer = schedset rr (negsuc (n + 1)) sched_pointer
sys_schedset rr (pos zero) sched_pointer = schedset rr (negsuc 0) sched_pointer
sys_schedset rr (pos (suc n)) sched_pointer = schedset rr (pos n) sched_pointer

-- What `schedls` prints: whether each scheduler is the current one, and its id.
unfoldable pub schedls : ℕ → ℕ → List (Bool × ℕ)
schedls rr sched_pointer = map (λ s. (s.impl == sched_pointer, s.id)) (available_schedulers rr)

-- `sys_schedset` selects the scheduler that `schedls` lists under the id, and leaves the current
-- one at any other id.
pub sys_schedset_lem :
    (rr : ℕ) (id : ℤ) (current : ℕ)
    → ((id ≡ pos 1) × (schedls rr (sys_schedset rr id current) ≡ (true, 1) ∷ []))
      ⊎ ((id ≢ pos 1) × (sys_schedset rr id current ≡ current))
unfolding schedset sys_schedset schedls
sys_schedset_lem rr (negsuc n) current = inr (λ e. cc, refl)
sys_schedset_lem rr (pos zero) current = inr (λ e. ground arith, refl)
sys_schedset_lem rr (pos (suc zero)) current = inl (refl, ground arith)
sys_schedset_lem rr (pos (suc (suc n))) current = inr (λ e. ground arith, ground arith)
