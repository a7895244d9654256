-- ===== src/Vm/Leaf.antt =====
-- A write to the last entry for an address changes that entry alone.
use os_lab.Base.{
  ℕ, ◌<◌, ◌≡◌, ◌≢◌, ◌⊎◌, inl, inr, sym, ap, subst, ◌∙◌, arith, true, ◌==◌, Bool-cases, ==_iff,
  update_self, update-ne,
}
use os_lab.Vm.Walk.{Space, pte_v, pte2pa, entry, write, px}
use os_lab.Vm.Tree.{IsTree, child, is_there, leaf_at, leaf_at-same, at_low, entry-ne, entry-inj}
use os_lab.Vm.Lookup.{leaf, Found, leaf-Found}

module _ (root va a w : ℕ) (place : ℕ → ℕ) (s : Space) (v : IsTree root place s)
    (f : Found root va s a) where
  abbrev low_table : ℕ
  low_table = child (child root (px 2 va) s) (px 1 va) s

  low_place : place low_table ≡ at_low (px 2 va) (px 1 va)
  low_place = v.low (px 2 va) (px 1 va) (omega arith) (omega arith) f.there f.there'

  -- The entries of other tables
  spared :
      (p m : ℕ)
      → m < 512
      → place p ≢ 0
      → p ≢ low_table
      → (write a w s).word (entry p m) ≡ s.word (entry p m)
  spared p m hm placed ne =
      let low_page = v.pages low_table (λ z. omega (arith, low_place)) in
      update-ne s.word a (entry p m) w (λ e.
        entry-ne p low_table m (px 0 va) (v.pages p placed) low_page hm (omega arith) ne
          (e ∙ f.is_at))

  spared_root : (j : ℕ) → j < 512 → (write a w s).word (entry root j) ≡ s.word (entry root j)
  spared_root j hj =
      spared root j hj (λ z. omega (arith, v.top))
        (λ e. omega (arith, v.top, low_place, ap place e))

  spared_mid :
      (j m : ℕ)
      → j < 512
      → m < 512
      → is_there root j s ≡ true
      → (write a w s).word (entry (child root j s) m) ≡ s.word (entry (child root j s) m)
  spared_mid j m hj hm there =
      let at_j = v.mid j hj there in
      spared (child root j s) m hm (λ z. omega (arith, at_j))
        (λ e. omega (arith, at_j, low_place, ap place e))

  there_after : (j : ℕ) → j < 512 → is_there root j (write a w s) ≡ true → is_there root j s ≡ true
  there_after j hj there = ap pte_v (sym (spared_root j hj)) ∙ there

  child_after : (j : ℕ) → j < 512 → child root j (write a w s) ≡ child root j s
  child_after j hj = ap pte2pa (spared_root j hj)

  pub write-IsTree : IsTree root place (write a w s)
  write-IsTree = record {
    pages = v.pages;
    top = v.top;
    mid = λ j hj there. ap place (child_after j hj) ∙ v.mid j hj (there_after j hj there);
    low = λ j m hj hm there there'.
        let was = there_after j hj there in
        let same = spared_mid j m hj hm was in
        let was' =
          ap pte_v (sym same)
          ∙ subst (λ p. is_there p m (write a w s) ≡ true) (child_after j hj) there' in
        ap (λ p. place (child p m (write a w s))) (child_after j hj)
        ∙ ap (λ x. place (pte2pa x)) same
        ∙ v.low j m hj hm was was';
    fresh = v.fresh;
    once = v.once;
  }

  pub write-Found : Found root va (write a w s) a
  write-Found =
      let same = spared_mid (px 2 va) (px 1 va) (omega arith) (omega arith) f.there in
      let up = child_after (px 2 va) (omega arith) in
      record {
        there = ap pte_v (spared_root (px 2 va) (omega arith)) ∙ f.there;
        there' = ap (λ p. is_there p (px 1 va) (write a w s)) up ∙ ap pte_v same ∙ f.there';
        is_at =
            f.is_at
            ∙ ap (λ x. entry (pte2pa x) (px 0 va)) (sym same)
            ∙ ap (λ p. entry (child p (px 1 va) (write a w s)) (px 0 va)) (sym up);
      }

  pub leaf-write : leaf root va (write a w s) ≡ w
  leaf-write = sym (leaf-Found root va (write a w s) a write-Found) ∙ update_self s.word a w

  pub leaf_at-write :
      (j k l : ℕ)
      → j < 512
      → k < 512
      → l < 512
      → (j ≢ px 2 va) ⊎ (k ≢ px 1 va) ⊎ (l ≢ px 0 va)
      → leaf_at root j k l (write a w s) ≡ leaf_at root j k l s
  leaf_at-write j k l hj hk hl other =
      leaf_at-same root j k l s (write a w s) (spared_root j hj) (spared_mid j k hj hk)
        λ there there'.
          let p = child (child root j s) k s in
          let at_p = v.low j k hj hk there there' in
          elim (Bool-cases (p == low_table)) [
            | inr ne ↦ spared p l hl (λ z. omega (arith, at_p)) (ground arith)
            | inl same ↦
                let e : p ≡ low_table = (==_iff p low_table).0 same in
                let ne : l ≢ px 0 va = λ l-eq. omega (arith, at_p, low_place, ap place e) in
                update-ne s.word a (entry p l) w (λ e'.
                  entry-inj low_table l (px 0 va) ne (sym (ap (λ p. entry p l) e) ∙ e' ∙ f.is_at))
          ]
