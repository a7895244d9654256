-- ===== src/Vm/Create.antt =====
-- `uvmcreate` of kernel/vm.c gives a page table without entries.
use os_lab.Base.{
  ℕ, ◌/◌, ◌%◌, ◌^◌, ◌<◌, ◌≡◌, ◌≢◌, inl, inr, refl, sym, subst, ◌∙◌, arith, false, false≢true, ◌==◌,
  Bool-cases, ==_iff, ==-ne, update, update_self, update-ne, ok, List, [], ◌∷◌, All, Apart,
  Separate,
}
use os_lab.Vm.Walk.{Space}
use os_lab.Vm.Tree.{IsPage, IsTree, is_there, leaf_at-missing}
use os_lab.Vm.Lookup.{leaf}
use os_lab.Vm.Alloc.{with_page}
use os_lab.Vm.Sizes.{uvmcreate}

-- A tree of the root alone
abbrev pub only_root : (root : ℕ) → ℕ → ℕ
only_root root = update (λ q. 0) root 1

only_root-eq : (root q : ℕ) → only_root root q ≢ 0 → q ≡ root
only_root-eq root q h = elim (Bool-cases (q == root)) [
  | inl same ↦ (==_iff q root).0 same
  | inr ne ↦ absurd (h (rw ne refl))
]

module _ (root : ℕ) (ps : List ℕ) (s : Space) (free-eq : s.free ≡ root ∷ ps)
    (pages : All IsPage (root ∷ ps)) (apart : Separate (root ∷ ps)) where
  nothing_there : (i : ℕ) → i < 512 → is_there root i (with_page root ps s) ≡ false
  nothing_there i hi = ground arith

  fresh_rest :
      (qs : List ℕ)
      → All IsPage qs
      → Apart root qs
      → All (λ q. IsPage q × (only_root root q ≡ 0)) qs
  fresh_rest [] h a = tt
  fresh_rest (q ∷ qs) (hq, h) (ne, a) = ((hq, update-ne (λ q. 0) root q 1 ne), fresh_rest qs h a)

  -- From a free list of different pages, `uvmcreate` takes the first; the table it makes is a tree of that
  -- page alone, in which no address is mapped.
  pub uvmcreate-IsTree :
      (uvmcreate s ≡ ok (root, with_page root ps s))
      × IsTree root (only_root root) (with_page root ps s)
      × ((vb : ℕ) → leaf root vb (with_page root ps s) ≡ 0)
  unfolding uvmcreate
  uvmcreate-IsTree =
      let ne : root ≢ 0 = λ z. omega (arith, pages.0.1) in
      (
        rw (free-eq, ==-ne root 0 ne) refl,
        record {
          pages = λ q h. subst IsPage (sym (only_root-eq root q h)) pages.0;
          top = update_self (λ q. 0) root 1;
          mid = λ i hi there. absurd (false≢true (sym (nothing_there i hi) ∙ there));
          low = λ i k hi hk there. absurd (false≢true (sym (nothing_there i hi) ∙ there));
          fresh = fresh_rest ps pages.1 apart.0;
          once = apart.1;
        },
        λ vb.
            leaf_at-missing root (vb / 2 ^ 30 % 512) (vb / 2 ^ 21 % 512) (vb / 2 ^ 12 % 512)
              (with_page root ps s) (inl (nothing_there (vb / 2 ^ 30 % 512) (omega arith))),
      )
