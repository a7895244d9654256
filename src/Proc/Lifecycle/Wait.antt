-- ===== src/Proc/Lifecycle/Wait.antt =====
-- `wait` of kernel/proc.c.
use os_lab.Base.{
  ℕ, zero, suc, ◌+◌, ◌<◌, ◌≤◌, ◌≡◌, ◌≢◌, sym, ◌∙◌, inl, inr, Bool, true, false, false≢true, ◌&&◌,
  ◌||◌, arith, none, Option-cases, Bool-cases, ◌==◌, minus_one,
}
use os_lab.Proc.{is_zombie, nproc, addr, Table}
use os_lab.Proc.Lifecycle.{wait_loop, returned, wait}

-- Slot `j` is a child of `self` that has exited.
abbrev pub is_child : ℕ → Table → ℕ → Bool
is_child self t j = (t.proc j).parent == addr self

abbrev pub is_dead_child : ℕ → Table → ℕ → Bool
is_dead_child self t j = is_child self t j && is_zombie (t.proc j).state

wait_loop-none :
    (n i self : ℕ) (havekids : Bool) (t : Table)
    → (wait_loop n i self havekids t).0 ≡ none
    → (j : ℕ) → i ≤ j
    → j < i + n
    → is_dead_child self t j ≡ false
unfolding wait_loop
wait_loop-none zero i self k t e j lo hi = absurd (omega arith)
wait_loop-none (suc n) i self k t e j lo hi = elim (Bool-cases (is_dead_child self t i)) [
  | inl hit ↦ ground arith
  | inr miss ↦ elim (Bool-cases (i == j)) [
    | inl e' ↦ ground arith
    | inr ne ↦
        wait_loop-none n (i + 1) self (is_child self t i || k) t (rw miss at e) j (ground arith)
          (omega arith)
  ]
]

-- When the status cannot be copied out `wait` returns -1 and the child stays a zombie.
pub wait-bad_address :
    (self address i : ℕ) (t : Table)
    → address ≢ 0
    → i < nproc
    → is_dead_child self t i ≡ true
    → wait self address false t ≡ returned minus_one t
unfolding wait
wait-bad_address self address i t ne lt dead =
    elim (Option-cases (wait_loop nproc 0 self false t).0) [
      | inl e ↦ absurd (
          false≢true
            (sym (wait_loop-none nproc 0 self false t e i (omega arith) (omega arith)) ∙ dead))
      | inr (j, e) ↦ rw (e, wait) (ground arith)
    ]
