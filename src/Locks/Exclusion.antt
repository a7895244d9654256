-- ===== src/Locks/Exclusion.antt =====
-- Mutual exclusion by the spinlock of kernel/spinlock.c, over any number of processors.
use os_lab.Base.{
  ℕ, ◌+◌, ◌-◌, ◌<◌, ◌≡◌, ◌≢◌, inl, inr, refl, sym, ap, subst, ◌∙◌, arith, Bool, true, false,
  false≢true, ◌&&◌, ◌==◌, ==_iff, ltb, Bool-cases, update, update-ne, Outcome, ok, panic, ◌>>=◌,
}
use os_lab.Locks.{Cpu, Spinlock, acquire, release, holding, push_off, pop_off}

-- A lock, the processors, and which of them are between an `acquire` and its `release`.
pub record System : Type 0 where
  pub lock : Spinlock
  pub cpus : ℕ → Cpu
  pub inside : ℕ → Bool

-- The system after processor `i` has run a routine of the lock.
abbrev pub ran : ℕ → Bool → Spinlock × Cpu → System → System
ran i inside (lk, c) s = record {
  lock = lk;
  cpus = update s.cpus i c;
  inside = update s.inside i inside;
}

-- A processor enters, leaves, or masks and unmasks interrupts on its own as nested code does, which
-- unmasks what it has masked.
pub data Step : System → System → Type 0 where
  enters :
      (i : ℕ) (s : System) (r : Spinlock × Cpu)
      → acquire i (s.lock, s.cpus i) ≡ ok r
      → Step s (ran i true r s)
  leaves :
      (i : ℕ) (s : System) (r : Spinlock × Cpu)
      → s.inside i ≡ true
      → release i (s.lock, s.cpus i) ≡ ok r
      → Step s (ran i false r s)
  unmasks :
      (i : ℕ) (s : System) (c : Cpu)
      → (s.inside i ≡ true → 1 < (s.cpus i).noff)
      → pop_off (s.cpus i) ≡ ok c
      → Step s (record s { cpus = update s.cpus i c })
  masks : (i : ℕ) (s : System) → Step s (record s { cpus = update s.cpus i (push_off (s.cpus i)) })

pub data Reachable (s : System) : System → Type 0 where
  here : Reachable s s
  after : (t u : System) → Reachable s t → Step t u → Reachable s u

-- A processor that is inside is the one that the lock names, and takes no interrupts.
record IsGuarded (s : System) : Type 0 where
  named : (i : ℕ) → s.inside i ≡ true → (s.lock.locked ≡ true) × (s.lock.cpu ≡ i + 1)
  masked : (i : ℕ) → s.inside i ≡ true → (0 < (s.cpus i).noff)
  quiet : (i : ℕ) → 0 < (s.cpus i).noff → (s.cpus i).intr ≡ false

acquire-ok :
    (i : ℕ) (lk : Spinlock) (c : Cpu) (r : Spinlock × Cpu)
    → acquire i (lk, c) ≡ ok r
    → (lk.locked ≡ false) × (r ≡ (record { locked = true; cpu = i + 1 }, push_off c))
unfolding acquire holding push_off
acquire-ok i lk c r e = elim (Bool-cases lk.locked) [
  | inl taken ↦ ground arith
  | inr free ↦ (
    free,
    (let e' : ok (record { locked = true; cpu = i + 1 }, push_off c) ≡ ok r = rw free at e in cc),
  )
]

pop_off-ok :
    (c c' : Cpu)
    → pop_off c ≡ ok c'
    → (c.intr ≡ false) × (c'.noff ≡ c.noff - 1) × (0 < c'.noff → c'.intr ≡ false)
unfolding pop_off
pop_off-ok c c' e = elim (Bool-cases c.intr) [
  | inl on ↦ ground arith
  | inr off ↦ elim (Bool-cases (ltb c.noff 1)) [
    | inl outermost ↦ ground arith
    | inr nested ↦ (off, ground arith, λ more. ground arith)
  ]
]

bind-ok :
    (o : Outcome Cpu) (lk : Spinlock) (r : Spinlock × Cpu)
    → (o >>= λ c. ok (lk, c)) ≡ ok r
    → (o ≡ ok r.1) × (r.0 ≡ lk)
bind-ok (ok c) lk r e = let e' : (lk, c) ≡ r = cc in (ap (λ x. ok x.1) e', ap (λ x. x.0) (sym e'))
bind-ok panic lk r e = cc
bind-ok Outcome.blocked lk r e = cc
bind-ok Outcome.out_of_fuel lk r e = cc

release-ok :
    (i : ℕ) (lk : Spinlock) (c : Cpu) (r : Spinlock × Cpu)
    → release i (lk, c) ≡ ok r
    → (lk.cpu ≡ i + 1) × (pop_off c ≡ ok r.1)
unfolding release holding
release-ok i lk c r e = elim (Bool-cases (lk.locked && (lk.cpu == i + 1))) [
  | inl mine ↦
      (ground arith, (bind-ok (pop_off c) (record { locked = false; cpu = 0 }) r (rw mine at e)).0)
  | inr other ↦ ground arith
]

-- What holds of the new state of one processor and of the others holds of all.
update-all :
    (P : ℕ → Cpu → Type 0) (cpus : ℕ → Cpu) (i : ℕ) (c : Cpu)
    → P i c
    → ((j : ℕ) → j ≢ i → P j (cpus j))
    → (j : ℕ) → P j (update cpus i c j)
update-all P cpus i c p others j = elim (Bool-cases (j == i)) [
  | inl same ↦ rw same (subst (λ k. P k c) (sym ((==_iff j i).0 same)) p)
  | inr ne ↦ rw ne (others j (ground arith))
]

pub push_off_lem : (c : Cpu) → ((push_off c).noff ≡ c.noff + 1) × ((push_off c).intr ≡ false)
unfolding push_off
push_off_lem c = (refl, refl)

Step-IsGuarded : (s t : System) → Step s t → IsGuarded s → IsGuarded t
Step-IsGuarded s t (enters i _ r e) g =
    let (free, r-eq) = acquire-ok i s.lock (s.cpus i) r e in
    let (more, off) = push_off_lem (s.cpus i) in
    let alone : (j : ℕ) → s.inside j ≡ true → ⊥ =
      λ j in_j. false≢true (sym free ∙ (g.named j in_j).0) in
    subst (λ r. IsGuarded (ran i true r s)) (sym r-eq)
      (record {
        named = λ j in_j. elim (Bool-cases (j == i)) [
          | inl same ↦ (refl, ground arith)
          | inr ne ↦ absurd (alone j (rw ne at in_j))
        ];
        masked =
            update-all (λ j c. update s.inside i true j ≡ true → 0 < c.noff) s.cpus i
              (push_off (s.cpus i)) (λ _. omega (arith, more))
              λ j ne in_j. absurd (alone j (sym (update-ne s.inside i j true ne) ∙ in_j));
        quiet =
            update-all (λ j c. 0 < c.noff → c.intr ≡ false) s.cpus i (push_off (s.cpus i))
              (λ _. off) λ j ne. g.quiet j;
      })
Step-IsGuarded s t (leaves i _ r inside e) g =
    let (mine, popped) = release-ok i s.lock (s.cpus i) r e in
    let (_, _, quiet) = pop_off-ok (s.cpus i) r.1 popped in
    let gone : (j : ℕ) → update s.inside i false j ≡ true → ⊥ = λ j in_j.
      elim (Bool-cases (j == i)) [
        | inl same ↦ false≢true (rw same at in_j)
        | inr ne ↦ ground (arith, mine, (g.named j (rw ne at in_j)).1)
      ] in
    record {
      named = λ j in_j. absurd (gone j in_j);
      masked = λ j in_j. absurd (gone j in_j);
      quiet = update-all (λ j c. 0 < c.noff → c.intr ≡ false) s.cpus i r.1 quiet λ j ne. g.quiet j;
    }
Step-IsGuarded s t (masks i _) g =
    let (more, off) = push_off_lem (s.cpus i) in
    record {
      named = g.named;
      masked =
          update-all (λ j c. s.inside j ≡ true → 0 < c.noff) s.cpus i (push_off (s.cpus i))
            (λ _. omega (arith, more)) λ j ne. g.masked j;
      quiet =
          update-all (λ j c. 0 < c.noff → c.intr ≡ false) s.cpus i (push_off (s.cpus i)) (λ _. off)
            λ j ne. g.quiet j;
    }
Step-IsGuarded s t (unmasks i _ c own e) g =
    let (_, less, quiet) = pop_off-ok (s.cpus i) c e in
    record {
      named = g.named;
      masked =
          update-all (λ j c. s.inside j ≡ true → 0 < c.noff) s.cpus i c
            (λ in_i. omega (arith, less, own in_i)) λ j ne. g.masked j;
      quiet = update-all (λ j c. 0 < c.noff → c.intr ≡ false) s.cpus i c quiet λ j ne. g.quiet j;
    }

-- Nobody is inside at the start, and no processor masks interrupts.
pub record IsStart (s : System) : Type 0 where
  pub empty : (i : ℕ) → s.inside i ≡ false
  pub unmasked : (i : ℕ) → (s.cpus i).noff ≡ 0

Reachable-IsGuarded : (s t : System) → IsStart s → Reachable s t → IsGuarded t
Reachable-IsGuarded s t start here = record {
  named = λ i inside. absurd (false≢true (sym (start.empty i) ∙ inside));
  masked = λ i inside. absurd (false≢true (sym (start.empty i) ∙ inside));
  quiet = λ i nested. absurd (omega (arith, start.unmasked i));
}
Reachable-IsGuarded s t start (after u _ r step) =
    Step-IsGuarded u t step (Reachable-IsGuarded s u start r)

-- In every order of steps of any number of processors, at most one is between its `acquire` and its
-- `release` of a lock, the lock names it, and it takes no interrupts.
pub Reachable-exclusive :
    (s t : System) (i : ℕ)
    → IsStart s
    → Reachable s t
    → t.inside i ≡ true
    → (holding i t.lock ≡ true) × ((t.cpus i).intr ≡ false) × ((j : ℕ) → t.inside j ≡ true → j ≡ i)
unfolding holding
Reachable-exclusive s t i start r inside =
    let g = Reachable-IsGuarded s t start r in
    let (locked, named) = g.named i inside in
    (
      ground arith,
      g.quiet i (g.masked i inside),
      λ j in_j. omega (arith, named, (g.named j in_j).1),
    )
