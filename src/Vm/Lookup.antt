-- ===== src/Vm/Lookup.antt =====
-- `walk` of kernel/vm.c finds or makes the last entry for an address.
use os_lab.Base.{
  ℕ, suc, ◌/◌, ◌<◌, ◌≡◌, ◌≢◌, ◌⊎◌, inl, inr, refl, sym, ap, subst, ◌∙◌, arith, Bool, true, false,
  Bool-cases, ==-ne, update, Option, none, some, List, [], ◌∷◌, All, zero, ◌+◌, ◌≤◌, ◌==◌, length,
  Outcome, ok, panic,
}
use os_lab.Vm.Walk.{Space, entry, px, walk_loop}
use os_lab.Vm.Tree.{
  IsPage, IsTree, child, is_there, leaf_at, leaf_at-found, leaf_at-missing, at_mid, at_low, grown,
}
use os_lab.Vm.Grow.{took, grow_top, grow_mid}

-- The last entry for an address
abbrev pub leaf : (root va : ℕ) → Space → ℕ
leaf root va s = leaf_at root (px 2 va) (px 1 va) (px 0 va) s

-- The tables for an address are there, and `a` is where its last entry is.
pub record Found (root va : ℕ) (s : Space) (a : ℕ) : Type 0 where
  pub there : is_there root (px 2 va) s ≡ true
  pub there' : is_there (child root (px 2 va) s) (px 1 va) s ≡ true
  pub is_at : a ≡ entry (child (child root (px 2 va) s) (px 1 va) s) (px 0 va)

pub leaf-Found : (root va : ℕ) (s : Space) (a : ℕ) → Found root va s a → s.word a ≡ leaf root va s
leaf-Found root va s a f =
    ap s.word f.is_at ∙ sym (leaf_at-found root (px 2 va) (px 1 va) (px 0 va) s f.there f.there')

-- Every last entry is what it was.
abbrev pub Unchanged : (root : ℕ) → (s s' : Space) → Type 0
Unchanged root s s' =
    (j k l : ℕ) → j < 512 → k < 512 → l < 512 → leaf_at root j k l s' ≡ leaf_at root j k l s

walk_loop-there :
    (alloc : Bool) (va l t : ℕ) (s : Space)
    → is_there t (px (suc l) va) s ≡ true
    → walk_loop alloc va (suc l) t s ≡ walk_loop alloc va l (child t (px (suc l) va) s) s
unfolding walk_loop
walk_loop-there alloc va l t s there = rw there refl

pub walk_loop-Found :
    (alloc : Bool) (root va a : ℕ) (s : Space)
    → Found root va s a
    → walk_loop alloc va 2 root s ≡ ok (some a, s)
unfolding walk_loop
walk_loop-Found alloc root va a s f =
    walk_loop-there alloc va 1 root s f.there
    ∙ walk_loop-there alloc va 0 (child root (px 2 va) s) s f.there'
    ∙ ap (λ a. ok (some a, s)) (sym f.is_at)

-- Without allocation
pub walk_loop-lookup :
    (root va : ℕ) (s : Space)
    → ((a : ℕ) × Found root va s a)
      ⊎ ((walk_loop false va 2 root s ≡ ok (none, s)) × (leaf root va s ≡ 0))
unfolding walk_loop
walk_loop-lookup root va s = elim (Bool-cases (is_there root (px 2 va) s)) [
  | inr missing ↦
      inr (rw missing refl, leaf_at-missing root (px 2 va) (px 1 va) (px 0 va) s (inl missing))
  | inl there ↦ elim (Bool-cases (is_there (child root (px 2 va) s) (px 1 va) s)) [
    | inr missing ↦ inr (
      rw (there, missing) refl,
      leaf_at-missing root (px 2 va) (px 1 va) (px 0 va) s (inr missing),
    )
    | inl there' ↦ inl (
      entry (child (child root (px 2 va) s) (px 1 va) s) (px 0 va),
      record { there = there; there' = there'; is_at = refl },
    )
  ]
]

pub List-cases : (ps : List ℕ) → (ps ≡ []) ⊎ ((p : ℕ) × (rest : List ℕ) × (ps ≡ p ∷ rest))
List-cases [] = inl refl
List-cases (p ∷ rest) = inr (p, rest, refl)

-- What a `walk` with allocation comes to: the last entry is found, with `n` new tables at most, or fewer
-- pages than that were free and `kalloc` has panicked.
abbrev pub Walked : (root va n : ℕ) → (s : Space) → Outcome (Option ℕ × Space) → Type 0
Walked root va n s o =
    ((place : ℕ → ℕ) × (a : ℕ) × (s' : Space) × (o ≡ ok (some a, s'))
      × IsTree root place s'
      × Unchanged root s s'
      × Found root va s' a
      × (length s.free ≤ length s'.free + n))
    ⊎ ((o ≡ panic) × (length s.free < n))

walk_loop-dry :
    (va l t : ℕ) (s : Space)
    → is_there t (px (suc l) va) s ≡ false
    → s.free ≡ []
    → walk_loop true va (suc l) t s ≡ panic
unfolding walk_loop
walk_loop-dry va l t s missing dry = rw (missing, dry) refl

walk_loop-grown :
    (va l t q : ℕ) (ps : List ℕ) (s : Space)
    → is_there t (px (suc l) va) s ≡ false
    → s.free ≡ q ∷ ps
    → q ≢ 0
    → walk_loop true va (suc l) t s ≡ walk_loop true va l q (grown t (px (suc l) va) q (took ps s))
unfolding walk_loop
walk_loop-grown va l t q ps s missing free-eq ne = rw (missing, free-eq, ==-ne q 0 ne) refl

-- The new page at the head of the free list is no null pointer.
pub head-ne :
    (root q : ℕ) (ps : List ℕ) (place : ℕ → ℕ) (s : Space)
    → IsTree root place s
    → s.free ≡ q ∷ ps
    → q ≢ 0
head-ne root q ps place s v e z =
    let (_, positive, _) = (subst (All (λ p. IsPage p × (place p ≡ 0))) e v.fresh).0.0 in
    omega (arith, positive)

walk_loop-low :
    (root va : ℕ) (place : ℕ → ℕ) (s : Space)
    → IsTree root place s
    → is_there root (px 2 va) s ≡ true
    → Walked root va 1 s (walk_loop true va 1 (child root (px 2 va) s) s)
unfolding walk_loop
walk_loop-low root va place s v there =
    let i = px 2 va in
    let k = px 1 va in
    let t = child root i s in
    elim (Bool-cases (is_there t k s)) [
      | inl there' ↦ inl (
        place,
        entry (child t k s) (px 0 va),
        s,
        walk_loop-there true va 0 t s there',
        v,
        λ j k l hj hk hl. refl,
        record { there = there; there' = there'; is_at = refl },
        omega arith,
      )
      | inr missing ↦ elim (List-cases s.free) [
        | inl dry ↦ inr (walk_loop-dry va 0 t s missing dry, omega (arith, ap length dry))
        | inr (q, ps, e) ↦
            let (v', there_i, child_i, there_k, child_k, same) =
              grow_mid root q ps place s v e i k (omega arith) (omega arith) there missing in
            let s' = grown t k q (took ps s) in
            inl (
              update place q (at_low i k),
              entry q (px 0 va),
              s',
              walk_loop-grown va 0 t q ps s missing e (head-ne root q ps place s v e),
              v',
              same,
              record {
                there = there_i;
                there' = ap (λ p. is_there p k s') child_i ∙ there_k;
                is_at =
                    ap (λ p. entry p (px 0 va)) (sym (ap (λ p. child p k s') child_i ∙ child_k));
              },
              omega (arith, ap length e),
            )
      ]
    ]

pub walk_loop-Walked :
    (root va : ℕ) (place : ℕ → ℕ) (s : Space)
    → IsTree root place s
    → Walked root va 2 s (walk_loop true va 2 root s)
walk_loop-Walked root va place s v =
    let i = px 2 va in
    elim (Bool-cases (is_there root i s)) [
      | inl there ↦
          let go = walk_loop-there true va 1 root s there in
          elim (walk_loop-low root va place s v there) [
            | inl (place', a, s', e, v', same, f, used) ↦
                inl (place', a, s', go ∙ e, v', same, f, omega (arith, used))
            | inr (e, short) ↦ inr (go ∙ e, omega (arith, short))
          ]
      | inr missing ↦ elim (List-cases s.free) [
        | inl dry ↦ inr (walk_loop-dry va 1 root s missing dry, omega (arith, ap length dry))
        | inr (q, ps, e) ↦
            let (v', there, child_i, _, same) =
              grow_top root q ps place s v e i (omega arith) missing in
            let s1 = grown root i q (took ps s) in
            let go = walk_loop-grown va 1 root q ps s missing e (head-ne root q ps place s v e) in
            elim (subst (λ t. Walked root va 1 s1 (walk_loop true va 1 t s1)) child_i
              (walk_loop-low root va (update place q (at_mid i)) s1 v' there)) [
                | inl (place', a, s', e', v2, same2, f, used) ↦ inl (
                  place',
                  a,
                  s',
                  go ∙ e',
                  v2,
                  λ j k l hj hk hl. same2 j k l hj hk hl ∙ same j k l hj hk hl,
                  f,
                  omega (arith, used, ap length e),
                )
                | inr (e', short) ↦ inr (go ∙ e', omega (arith, short, ap length e))
              ]
      ]
    ]

-- `walk` with allocation comes to an end on any memory.
pub walk_loop-ends :
    (va l t : ℕ) (s : Space)
    → ((r : Option ℕ × Space) × (walk_loop true va l t s ≡ ok r))
      ⊎ (walk_loop true va l t s ≡ panic)
unfolding walk_loop
walk_loop-ends va zero t s = inl ((some (entry t (px 0 va)), s), refl)
walk_loop-ends va (suc l) t s = elim (Bool-cases (is_there t (px (suc l) va) s)) [
  | inl there ↦ let rest = walk_loop-ends va l (child t (px (suc l) va) s) s in rw there rest
  | inr missing ↦ elim (List-cases s.free) [
    | inl dry ↦ inr (rw (missing, dry) refl)
    | inr (q, ps, e) ↦
        let rest = walk_loop-ends va l q (grown t (px (suc l) va) q (took ps s)) in
        elim (Bool-cases (q == 0)) [
          | inl null ↦ inl ((none, took ps s), rw (missing, e, null) refl)
          | inr ne ↦ rw (missing, e, ne) rest
        ]
  ]
]

-- Two addresses on one page have the same entry.
abbrev pub Same : ℕ → ℕ → Type 0
Same va vb = va / 4096 ≡ vb / 4096
