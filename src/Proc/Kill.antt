-- ===== src/Proc/Kill.antt =====
-- `kill` of kernel/proc.c, and what it does with the process id 0 of a free slot.
use os_lab.Base.{
  ℕ, ◌<◌, ◌≡◌, ◌≢◌, ◌↔◌, refl, ap, ◌∙◌, ◌⊎◌, inl, inr, true, arith, ◌==◌, if◌then◌else◌, some, scan,
  scan-First, scan-none, scan-eq, Option-cases, pos, minus_one,
}
use os_lab.Proc.{used, runnable, is_unused, is_sleeping, Trapframe, Proc, nproc, Table, put, kill}
use os_lab.Proc.Lifecycle.{allocproc}

-- What `kill` does to its victim.
abbrev pub victim : Proc → Proc
victim p =
    if is_sleeping p.state
    then record p { killed = 1; state = runnable }
    else record p { killed = 1 }

-- `kill(pid)` returns 0 after it has marked the first slot with that process id as killed, and
-- woken it if it slept; with no such slot it returns -1 and changes nothing.
pub kill_lem :
    (pid : ℕ) (t : Table)
    → ((i : ℕ) × (kill pid t ≡ (pos 0, put t i (victim (t.proc i))))
        × (i < nproc)
        × ((t.proc i).pid ≡ pid)
        × ((j : ℕ) → j < i → (t.proc j).pid ≢ pid))
      ⊎ ((kill pid t ≡ (minus_one, t)) × ((j : ℕ) → j < nproc → (t.proc j).pid ≢ pid))
unfolding kill
kill_lem pid t = elim (Option-cases (scan (λ i. (t.proc i).pid == pid) nproc 0)) [
  | inl e ↦
      inr (rw (e, kill), λ j lt. ground (arith, scan-none (λ i. (t.proc i).pid == pid) nproc 0 e j))
  | inr (i, e) ↦
      let r = scan-First (λ i. (t.proc i).pid == pid) nproc 0 i e in
      inl (
        i,
        rw (e, kill) (ground arith),
        omega (arith, r.to),
        ground (arith, r.passes),
        λ j lt. ground (arith, r.before j),
      )
]

-- Exactly the unused slots of the table have the process id 0.
abbrev pub FreeIds : Table → Type 0
FreeIds t = (j : ℕ) → j < nproc → ((t.proc j).pid ≡ 0) ↔ (is_unused (t.proc j).state ≡ true)

victim-unused : (p : Proc) → is_unused p.state ≡ true → victim p ≡ record p { killed = 1 }
victim-unused p h = ground arith

module _ (t : Table) (ids : FreeIds t) (i : ℕ) (lt : i < nproc)
    (free : is_unused (t.proc i).state ≡ true) where
  -- The slot that `kill(0)` marks is the first unused one.
  kill_zero-slot :
      (j : ℕ) × (kill 0 t ≡ (pos 0, put t j (record (t.proc j) { killed = 1 })))
      × (j < nproc)
      × (is_unused (t.proc j).state ≡ true)
      × ((k : ℕ) → k < j → is_unused (t.proc k).state ≢ true)
  kill_zero-slot = elim (kill_lem 0 t) [
    | inl (j, e, lt', zero_id, before) ↦
        let free' : is_unused (t.proc j).state ≡ true = (ids j lt').0 zero_id in
        (
          j,
          e ∙ ap (λ p. (pos 0, put t j p)) (victim-unused (t.proc j) free'),
          lt',
          free',
          λ k h u. before k h ((ids k (omega arith)).1 u),
        )
    | inr (e, all) ↦ absurd (all i lt ((ids i lt).1 free))
  ]

  -- The next process takes that slot.
  allocproc-slot :
      (forkret : ℕ) (page : Trapframe) (pagetable j : ℕ)
      → pagetable ≢ 0
      → j < nproc
      → is_unused (t.proc j).state ≡ true
      → ((k : ℕ) → k < j → is_unused (t.proc k).state ≢ true)
      → let t1 = put t j (record (t.proc j) { killed = 1 }) in
        let (slot, t2) = allocproc forkret (some page) pagetable t1 in
        (slot ≡ some j) × ((t2.proc j).killed ≡ 1) × ((t2.proc j).state ≡ used)
  unfolding allocproc
  allocproc-slot forkret page pagetable j pt lt' free' before =
      rw (marked, allocproc) (ground arith, ground arith, ground arith)
    where
      t1 : Table
      t1 = put t j (record (t.proc j) { killed = 1 })

      marked : scan (λ s. is_unused (t1.proc s).state) nproc 0 ≡ some j
      marked =
          scan-eq (λ s. is_unused (t1.proc s).state) nproc 0 j (omega arith) (omega arith)
            (ground arith) λ k lo h u. before k h (ground arith)

  -- In a table with a free slot whose process ids are in order `kill(0)` reports success, and the
  -- next process that is created starts out killed.
  pub kill_zero :
      (forkret : ℕ) (page : Trapframe) (pagetable : ℕ)
      → pagetable ≢ 0
      → let (r, t1) = kill 0 t in
        let (slot, t2) = allocproc forkret (some page) pagetable t1 in
        (r ≡ pos 0)
        × ((j : ℕ) × (slot ≡ some j) × ((t2.proc j).killed ≡ 1) × ((t2.proc j).state ≡ used))
  kill_zero forkret page pagetable pt =
      let (j, e, lt', free', before) = kill_zero-slot in
      let a = allocproc-slot forkret page pagetable j pt lt' free' before in
      rw e (refl, (j, a.0, a.1, a.2))
