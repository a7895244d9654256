-- ===== src/Vm/Grow.antt =====
-- `walk` of kernel/vm.c puts in the tables that are missing: the tree stays a tree and no entry
-- changes.
use os_lab.Base.{
  ℕ, ◌+◌, ◌<◌, ◌≡◌, ◌≢◌, ◌⊎◌, inl, inr, refl, sym, ap, subst, ◌∙◌, arith, true, false, false≢true,
  ◌==◌, Bool-cases, ==_iff, update, update_self, update-ne, List, [], ◌∷◌, All, Apart, Separate,
}
use os_lab.Vm.Walk.{Space, clear_page, pte_v, pa2pte, pte2pa, entry}
use os_lab.Vm.Tree.{
  IsPage, IsTree, child, is_there, leaf_at, leaf_at-same, leaf_at-found, leaf_at-missing, at_root,
  at_mid, at_low, grown, grown-other, grown-new, pte2pa_lem,
}

abbrev pub took : List ℕ → Space → Space
took ps s = record s { free = ps }

-- The page at the head of the free list is new.
module _ (root q : ℕ) (ps : List ℕ) (place : ℕ → ℕ) (s : Space) (v : IsTree root place s)
    (free-eq : s.free ≡ q ∷ ps) where
  q_page : IsPage q
  q_page = (subst (All (λ p. IsPage p × (place p ≡ 0))) free-eq v.fresh).0.0

  q_new : place q ≡ 0
  q_new = (subst (All (λ p. IsPage p × (place p ≡ 0))) free-eq v.fresh).0.1

  q_ne : (p : ℕ) → place p ≢ 0 → p ≢ q
  q_ne p h e = h (ap place e ∙ q_new)

  -- What is left is new beside it.
  rest_fresh : (n : ℕ) → All (λ p. IsPage p × (update place q n p ≡ 0)) ps
  rest_fresh n =
      both ps (subst (All (λ p. IsPage p × (place p ≡ 0))) free-eq v.fresh).1
        (subst Separate free-eq v.once).0
    where
      both :
          (ps : List ℕ)
          → All (λ p. IsPage p × (place p ≡ 0)) ps
          → Apart q ps
          → All (λ p. IsPage p × (update place q n p ≡ 0)) ps
      both [] h a = tt
      both (p ∷ ps) ((hp, new), h) (ne, a) = ((hp, update-ne place q p n ne ∙ new), both ps h a)

  rest_once : Separate ps
  rest_once = (subst Separate free-eq v.once).1

  pages' : (n : ℕ) (p : ℕ) → update place q n p ≢ 0 → IsPage p
  pages' n p h = elim (Bool-cases (p == q)) [
    | inl same ↦ subst IsPage (sym ((==_iff p q).0 same)) q_page
    | inr ne ↦ v.pages p (rw ne at h)
  ]

  kept : (n p m : ℕ) → 0 < m → place p ≡ m → update place q n p ≡ m
  kept n p m pos_m e = update-ne place q p n (q_ne p λ z. omega (arith, e)) ∙ e

  mid_placed : (j : ℕ) → j < 512 → is_there root j s ≡ true → place (child root j s) ≢ 0
  mid_placed j hj there z = omega (arith, v.mid j hj there)

  low_placed :
      (j k : ℕ)
      → j < 512
      → k < 512
      → is_there root j s ≡ true
      → is_there (child root j s) k s ≡ true
      → place (child (child root j s) k s) ≢ 0
  low_placed j k hj hk there there' z = omega (arith, v.low j k hj hk there there')

  root_ne : root ≢ q
  root_ne = q_ne root λ z. omega (arith, v.top)

  root_page : IsPage root
  root_page = v.pages root (λ z. omega (arith, v.top))

  -- The pages that were in the tree are where they were.
  mid_kept :
      (n j : ℕ) (s' : Space)
      → j < 512
      → s'.word (entry root j) ≡ s.word (entry root j)
      → is_there root j s' ≡ true
      → update place q n (child root j s') ≡ at_mid j
  mid_kept n j s' hj w there =
      ap (λ x. update place q n (pte2pa x)) w
      ∙ kept n (child root j s) (at_mid j) (omega arith) (v.mid j hj (ap pte_v (sym w) ∙ there))

  low_kept :
      (n j k : ℕ) (s' : Space)
      → j < 512
      → k < 512
      → s'.word (entry root j) ≡ s.word (entry root j)
      → (is_there root j s ≡ true
          → s'.word (entry (child root j s) k) ≡ s.word (entry (child root j s) k))
      → is_there root j s' ≡ true
      → is_there (child root j s') k s' ≡ true
      → update place q n (child (child root j s') k s') ≡ at_low j k
  low_kept n j k s' hj hk w w2 there there' =
      let was = ap pte_v (sym w) ∙ there in
      let c = child root j s in
      let same : child root j s' ≡ c = ap pte2pa w in
      let was' : is_there c k s ≡ true =
        ap pte_v (sym (w2 was)) ∙ subst (λ p. is_there p k s' ≡ true) same there' in
      ap (λ p. update place q n (child p k s')) same
      ∙ ap (λ x. update place q n (pte2pa x)) (w2 was)
      ∙ kept n (child c k s) (at_low j k) (omega arith) (v.low j k hj hk was was')

  module _ (i : ℕ) (hi : i < 512) (missing : is_there root i s ≡ false) where
    top_other :
        (p k : ℕ)
        → IsPage p
        → k < 512
        → p ≢ q
        → (p ≢ root) ⊎ (k ≢ i)
        → (grown root i q (took ps s)).word (entry p k) ≡ s.word (entry p k)
    top_other p k hp hk ne other =
        grown-other root i q p k (took ps s) q_page hp root_page hi hk ne other

    top_own : (grown root i q (took ps s)).word (entry root i) ≡ pa2pte q + 1
    top_own = update_self (clear_page q (took ps s)).word (entry root i) (pa2pte q + 1)

    top_empty : (k : ℕ) → k < 512 → (grown root i q (took ps s)).word (entry q k) ≡ 0
    top_empty k hk = grown-new root i q k (took ps s) q_page root_page hi hk (λ e. root_ne (sym e))

    -- The other entries of the root
    top_same :
        (j : ℕ)
        → j < 512
        → j ≢ i
        → (grown root i q (took ps s)).word (entry root j) ≡ s.word (entry root j)
    top_same j hj ne = top_other root j root_page hj root_ne (inr ne)

    -- The tables that were there
    top_mid :
        (j k : ℕ)
        → j < 512
        → k < 512
        → is_there root j s ≡ true
        → (grown root i q (took ps s)).word (entry (child root j s) k)
          ≡ s.word (entry (child root j s) k)
    top_mid j k hj hk there =
        let placed = mid_placed j hj there in
        top_other (child root j s) k (v.pages (child root j s) placed) hk
          (q_ne (child root j s) placed)
          (inl λ e. omega (arith, v.mid j hj there, v.top, ap place e))

    top_low :
        (j k l : ℕ)
        → j < 512
        → k < 512
        → l < 512
        → is_there root j s ≡ true
        → is_there (child root j s) k s ≡ true
        → (grown root i q (took ps s)).word (entry (child (child root j s) k s) l)
          ≡ s.word (entry (child (child root j s) k s) l)
    top_low j k l hj hk hl there there' =
        let p = child (child root j s) k s in
        let placed = low_placed j k hj hk there there' in
        top_other p l (v.pages p placed) hl (q_ne p placed)
          (inl λ e. omega (arith, v.low j k hj hk there there', v.top, ap place e))

    -- A table under entry `i` of the root
    pub grow_top :
        let s' = grown root i q (took ps s) in
        IsTree root (update place q (at_mid i)) s'
        × (is_there root i s' ≡ true)
        × (child root i s' ≡ q)
        × ((k : ℕ) → k < 512 → s'.word (entry q k) ≡ 0)
        × ((j k l : ℕ) → j < 512 → k < 512 → l < 512 → leaf_at root j k l s' ≡ leaf_at root j k l s)
    unfolding leaf_at
    grow_top =
        let s' = grown root i q (took ps s) in
        let (pa, valid) = pte2pa_lem q q_page in
        let there_i : is_there root i s' ≡ true = ap pte_v top_own ∙ valid in
        let child_i : child root i s' ≡ q = ap pte2pa top_own ∙ pa in
        let empty_i : (k : ℕ) → k < 512 → is_there (child root i s') k s' ≡ false =
          λ k hk. ap (λ p. pte_v (s'.word (entry p k))) child_i ∙ ap pte_v (top_empty k hk) in
        let leaf_i : (k l : ℕ) → k < 512 → leaf_at root i k l s' ≡ leaf_at root i k l s =
          λ k l hk. rw (there_i, missing) (rw (empty_i k hk) refl) in
        (
          record {
            pages = pages' (at_mid i);
            top = kept (at_mid i) root at_root (omega arith) v.top;
            mid = λ j hj there. elim (Bool-cases (j == i)) [
              | inl same ↦
                  subst (λ j. update place q (at_mid i) (child root j s') ≡ at_mid j)
                    (sym ((==_iff j i).0 same))
                    (ap (update place q (at_mid i)) child_i ∙ update_self place q (at_mid i))
              | inr ne ↦ mid_kept (at_mid i) j s' hj (top_same j hj (ground arith)) there
            ];
            low = λ j k hj hk there there'. elim (Bool-cases (j == i)) [
              | inl same ↦
                  let e = (==_iff j i).0 same in
                  absurd (
                    false≢true (
                      sym (empty_i k hk)
                      ∙ sym (ap (λ j. is_there (child root j s') k s') e)
                      ∙ there'))
              | inr ne ↦
                  low_kept (at_mid i) j k s' hj hk (top_same j hj (ground arith))
                    (top_mid j k hj hk) there there'
            ];
            fresh = rest_fresh (at_mid i);
            once = rest_once;
          },
          there_i,
          child_i,
          top_empty,
          λ j k l hj hk hl. elim (Bool-cases (j == i)) [
            | inl same ↦
                subst (λ j. leaf_at root j k l s' ≡ leaf_at root j k l s)
                  (sym ((==_iff j i).0 same)) (leaf_i k l hk)
            | inr ne ↦
                leaf_at-same root j k l s s' (top_same j hj (ground arith)) (top_mid j k hj hk)
                  (top_low j k l hj hk hl)
          ],
        )

  module _ (i k : ℕ) (hi : i < 512) (hk : k < 512) (there_i : is_there root i s ≡ true)
      (missing : is_there (child root i s) k s ≡ false) where
    abbrev table : ℕ
    table = child root i s

    table_page : IsPage table
    table_page = v.pages table (mid_placed i hi there_i)

    mid_other :
        (p m : ℕ)
        → IsPage p
        → m < 512
        → p ≢ q
        → (p ≢ table) ⊎ (m ≢ k)
        → (grown table k q (took ps s)).word (entry p m) ≡ s.word (entry p m)
    mid_other p m hp hm ne other =
        grown-other table k q p m (took ps s) q_page hp table_page hk hm ne other

    mid_own : (grown table k q (took ps s)).word (entry table k) ≡ pa2pte q + 1
    mid_own = update_self (clear_page q (took ps s)).word (entry table k) (pa2pte q + 1)

    mid_top :
        (j : ℕ)
        → j < 512
        → (grown table k q (took ps s)).word (entry root j) ≡ s.word (entry root j)
    mid_top j hj =
        mid_other root j root_page hj root_ne
          (inl λ e. omega (arith, v.mid i hi there_i, v.top, ap place e))

    mid_mid :
        (j m : ℕ)
        → j < 512
        → m < 512
        → (j ≢ i) ⊎ (m ≢ k)
        → is_there root j s ≡ true
        → (grown table k q (took ps s)).word (entry (child root j s) m)
          ≡ s.word (entry (child root j s) m)
    mid_mid j m hj hm other there =
        let placed = mid_placed j hj there in
        mid_other (child root j s) m (v.pages (child root j s) placed) hm
          (q_ne (child root j s) placed)
          (elim other [
            | inl ne ↦ inl λ e. omega (arith, v.mid i hi there_i, v.mid j hj there, ap place e)
            | inr ne ↦ inr ne
          ])

    mid_low :
        (j m l : ℕ)
        → j < 512
        → m < 512
        → l < 512
        → is_there root j s ≡ true
        → is_there (child root j s) m s ≡ true
        → (grown table k q (took ps s)).word (entry (child (child root j s) m s) l)
          ≡ s.word (entry (child (child root j s) m s) l)
    mid_low j m l hj hm hl there there' =
        let p = child (child root j s) m s in
        let placed = low_placed j m hj hm there there' in
        mid_other p l (v.pages p placed) hl (q_ne p placed)
          (inl λ e. omega (arith, v.low j m hj hm there there', v.mid i hi there_i, ap place e))

    -- A table under entry `k` of the table that is under entry `i` of the root
    pub grow_mid :
        let s' = grown table k q (took ps s) in
        IsTree root (update place q (at_low i k)) s'
        × (is_there root i s' ≡ true)
        × (child root i s' ≡ table)
        × (is_there table k s' ≡ true)
        × (child table k s' ≡ q)
        × ((j m l : ℕ) → j < 512 → m < 512 → l < 512 → leaf_at root j m l s' ≡ leaf_at root j m l s)
    grow_mid =
        let s' = grown table k q (took ps s) in
        let (pa, valid) = pte2pa_lem q q_page in
        let there_k : is_there table k s' ≡ true = ap pte_v mid_own ∙ valid in
        let child_k : child table k s' ≡ q = ap pte2pa mid_own ∙ pa in
        let there_i' : is_there root i s' ≡ true = ap pte_v (mid_top i hi) ∙ there_i in
        let child_i : child root i s' ≡ table = ap pte2pa (mid_top i hi) in
        let child_ik : child (child root i s') k s' ≡ q =
          ap (λ p. child p k s') child_i ∙ child_k in
        let leaf_ik : (l : ℕ) → l < 512 → leaf_at root i k l s' ≡ leaf_at root i k l s = λ l hl.
          leaf_at-found root i k l s' there_i' (ap (λ p. is_there p k s') child_i ∙ there_k)
          ∙ ap (λ p. s'.word (entry p l)) child_ik
          ∙ grown-new table k q l (took ps s) q_page table_page hk hl
              (λ e. q_ne table (mid_placed i hi there_i) (sym e))
          ∙ sym (leaf_at-missing root i k l s (inr missing)) in
        (
          record {
            pages = pages' (at_low i k);
            top = kept (at_low i k) root at_root (omega arith) v.top;
            mid = λ j hj there. mid_kept (at_low i k) j s' hj (mid_top j hj) there;
            low = λ j m hj hm there there'. elim (Bool-cases (j == i)) [
              | inl same ↦ elim (Bool-cases (m == k)) [
                | inl same' ↦
                    let ej = (==_iff j i).0 same in
                    let em = (==_iff m k).0 same' in
                    let placed_ik =
                      ap (update place q (at_low i k)) child_ik
                      ∙ update_self place q (at_low i k) in
                    subst
                      (λ j. update place q (at_low i k) (child (child root j s') m s') ≡ at_low j m)
                      (sym ej)
                      (subst
                        (λ m.
                          update place q (at_low i k) (child (child root i s') m s') ≡ at_low i m)
                        (sym em) placed_ik)
                | inr ne ↦
                    low_kept (at_low i k) j m s' hj hm (mid_top j hj)
                      (mid_mid j m hj hm (inr (ground arith))) there there'
              ]
              | inr ne ↦
                  low_kept (at_low i k) j m s' hj hm (mid_top j hj)
                    (mid_mid j m hj hm (inl (ground arith))) there there'
            ];
            fresh = rest_fresh (at_low i k);
            once = rest_once;
          },
          there_i',
          child_i,
          there_k,
          child_k,
          λ j m l hj hm hl. elim (Bool-cases (j == i)) [
            | inl same ↦ elim (Bool-cases (m == k)) [
              | inl same' ↦
                  subst (λ j. leaf_at root j m l s' ≡ leaf_at root j m l s)
                    (sym ((==_iff j i).0 same))
                    (subst (λ m. leaf_at root i m l s' ≡ leaf_at root i m l s)
                      (sym ((==_iff m k).0 same')) (leaf_ik l hl))
              | inr ne ↦
                  leaf_at-same root j m l s s' (mid_top j hj)
                    (mid_mid j m hj hm (inr (ground arith))) (mid_low j m l hj hm hl)
            ]
            | inr ne ↦
                leaf_at-same root j m l s s' (mid_top j hj) (mid_mid j m hj hm (inl (ground arith)))
                  (mid_low j m l hj hm hl)
          ],
        )
