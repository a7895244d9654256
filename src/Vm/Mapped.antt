-- ===== src/Vm/Mapped.antt =====
-- What a run of `mappages` of kernel/vm.c comes to, and its single rounds.
use os_lab.Base.{
  ℕ, suc, ◌+◌, ◌-◌, ◌*◌, ◌/◌, ◌%◌, ◌^◌, ◌<◌, ◌≤◌, ◌≡◌, ◌≢◌, ◌⊎◌, inl, inr, refl, ap, ◌∙◌, arith,
  true, false, leb, ◌==◌, Bool-cases, ==_iff, if◌then◌else◌, some, ok, panic,
}
use os_lab.Vm.{pgsize}
use os_lab.Vm.Walk.{Space, maxva, pte_v, leaf_pte, px, write, walk_loop, walk, mappages_loop}
use os_lab.Vm.Tree.{IsTree}
use os_lab.Vm.Lookup.{leaf, Found, Unchanged}
use os_lab.Vm.Leaf.{leaf_at-write}

-- Addresses on one page have the same entry, and those on two pages have not.
pub leaf-page :
    (root va vb : ℕ) (s : Space) → va / 4096 ≡ vb / 4096 → leaf root va s ≡ leaf root vb s
leaf-page root va vb s e =
    let e2 : px 2 va ≡ px 2 vb = omega arith in
    let e1 : px 1 va ≡ px 1 vb = omega arith in
    let e0 : px 0 va ≡ px 0 vb = omega arith in rw (e2, e1, e0) refl

page_number : (va : ℕ) → va < maxva → va / 4096 ≡ px 2 va * 262144 + px 1 va * 512 + px 0 va
page_number va h = omega arith

px-ne :
    (va vb : ℕ)
    → va < maxva
    → vb < maxva
    → va / 4096 ≢ vb / 4096
    → (px 2 va ≢ px 2 vb) ⊎ (px 1 va ≢ px 1 vb) ⊎ (px 0 va ≢ px 0 vb)
px-ne va vb ha hb ne = elim (Bool-cases (px 2 va == px 2 vb)) [
  | inr ne2 ↦ inl (ground arith)
  | inl e2 ↦ elim (Bool-cases (px 1 va == px 1 vb)) [
    | inr ne1 ↦ inr (inl (ground arith))
    | inl e1 ↦ inr (
        inr λ e0. ne (
          omega (
            arith,
            (==_iff (px 2 va) (px 2 vb)).0 e2,
            (==_iff (px 1 va) (px 1 vb)).0 e1,
            page_number va ha,
            page_number vb hb,
          )))
  ]
]

-- The state after the last entry for `va` has been written: the others are as before.
pub leaf-other :
    (root va vb a w : ℕ) (place : ℕ → ℕ) (s : Space)
    → IsTree root place s
    → Found root va s a
    → va < maxva
    → vb < maxva
    → vb / 4096 ≢ va / 4096
    → leaf root vb (write a w s) ≡ leaf root vb s
leaf-other root va vb a w place s v f ha hb ne =
    leaf_at-write root va a w place s v f (px 2 vb) (px 1 vb) (px 0 vb) (omega arith) (omega arith)
      (omega arith) (px-ne vb va hb ha ne)

pub leaf-Unchanged :
    (root vb : ℕ) (s s' : Space) → Unchanged root s s' → leaf root vb s' ≡ leaf root vb s
leaf-Unchanged root vb s s' same =
    same (px 2 vb) (px 1 vb) (px 0 vb) (omega arith) (omega arith) (omega arith)

-- What a run of `mappages_loop` over the `n` pages from number `first` on comes to, where the first of
-- them goes to physical address `pa`.
pub record Mapped (root first n pa perm : ℕ) (s s' : Space) : Type 0 where
  pub outside :
      (vb : ℕ)
      → vb < maxva
      → (vb / 4096 < first) ⊎ (first + n ≤ vb / 4096)
      → leaf root vb s' ≡ leaf root vb s
  pub inside :
      (vb : ℕ)
      → vb < maxva
      → first ≤ vb / 4096
      → vb / 4096 < first + n
      → leaf root vb s' ≡ leaf_pte (pa + (vb / 4096 - first) * 4096) perm

pub mappages_loop-panic :
    (fuel root a last pa perm : ℕ) (s : Space)
    → a < maxva
    → walk_loop true a 2 root s ≡ panic
    → mappages_loop (suc fuel) root a last pa perm s ≡ panic
unfolding mappages_loop walk
mappages_loop-panic fuel root a last pa perm s low e =
    let below : leb maxva a ≡ false = ground arith in rw (below, e) refl

pub mappages_loop-some :
    (fuel root a last pa perm pte : ℕ) (s s1 : Space)
    → a < maxva
    → walk_loop true a 2 root s ≡ ok (some pte, s1)
    → pte_v (s1.word pte) ≡ false
    → let s2 = write pte (leaf_pte pa perm) s1 in
      mappages_loop (suc fuel) root a last pa perm s ≡ (
        if a == last
        then ok (true, s2)
        else mappages_loop fuel root ((a + pgsize) % 2 ^ 64) last ((pa + pgsize) % 2 ^ 64) perm s2)
unfolding mappages_loop walk
mappages_loop-some fuel root a last pa perm pte s s1 low e unmapped =
    let below : leb maxva a ≡ false = ground arith in rw (below, e, unmapped) refl

pub mappages_loop-args :
    (fuel root a a' last last' pa pa' perm : ℕ) (s : Space)
    → a ≡ a'
    → last ≡ last'
    → pa ≡ pa'
    → mappages_loop fuel root a last pa perm s ≡ mappages_loop fuel root a' last' pa' perm s
mappages_loop-args fuel root a a' last last' pa pa' perm s ea el ep =
    ap (λ x. mappages_loop fuel root x last pa perm s) ea
    ∙ ap (λ x. mappages_loop fuel root a' x pa perm s) el
    ∙ ap (λ x. mappages_loop fuel root a' last' x perm s) ep

pub Mapped-zero : (root first pa perm : ℕ) (s : Space) → Mapped root first 0 pa perm s s
Mapped-zero root first pa perm s = record {
  outside = λ vb hb out. refl;
  inside = λ vb hb lo hi. absurd (omega arith);
}

-- A page and the `n` behind it
pub Mapped-suc :
    (root first n pa perm : ℕ) (s s2 s' : Space)
    → first < 2 ^ 26
    → ((vb : ℕ) → vb < maxva → vb / 4096 ≢ first → leaf root vb s2 ≡ leaf root vb s)
    → leaf root (first * 4096) s2 ≡ leaf_pte pa perm
    → Mapped root (first + 1) n (pa + 4096) perm s2 s'
    → Mapped root first (n + 1) pa perm s s'
Mapped-suc root first n pa perm s s2 s' low others own m = record {
  outside = λ vb hb out. m.outside vb hb (omega arith) ∙ others vb hb (omega arith);
  inside = λ vb hb lo hi. elim (Bool-cases (vb / 4096 == first)) [
    | inl same ↦
        let e : vb / 4096 ≡ first = (==_iff (vb / 4096) first).0 same in
        let page : vb / 4096 ≡ first * 4096 / 4096 = omega (arith, e) in
        m.outside vb hb (omega (arith, e))
        ∙ leaf-page root vb (first * 4096) s2 page
        ∙ own
        ∙ ap (λ p. leaf_pte p perm) (omega (arith, e))
    | inr ne ↦
        m.inside vb hb (ground arith) (omega arith) ∙ ap (λ p. leaf_pte p perm) (ground arith)
  ];
}
