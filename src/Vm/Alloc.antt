-- ===== src/Vm/Alloc.antt =====
-- `uvmalloc` and `uvmdealloc` of kernel/vm.c against the table of last entries.
use os_lab.Base.{
  ℕ, ◌+◌, ◌-◌, ◌*◌, ◌/◌, ◌%◌, ◌^◌, ◌<◌, ◌≤◌, ◌≡◌, ◌≢◌, ◌⊎◌, inl, inr, refl, sym, ap, subst, ◌∙◌,
  arith, true, false, leb, ltb, ◌==◌, Bool-cases, ==_iff, List, ◌∷◌, All, Separate, ok,
}
use os_lab.Vm.{pgsize}
use os_lab.Vm.Walk.{Space, maxva, pte_v, pte_u, pte2pa, pte_flags, leaf_pte, entry, clear_page}
use os_lab.Vm.Tree.{IsPage, IsTree, child, is_there, leaf_at, leaf_at-same}
use os_lab.Vm.Lookup.{leaf}
use os_lab.Vm.Frames.{IsMappedPage, Unmapped, Unmapped-zero}
use os_lab.Vm.Unmap.{uvmunmap-Unmapped}
use os_lab.Vm.Sizes.{pgroundup, user_perm, uvmdealloc}

-- A change of memory outside the tables
module _ (root : ℕ) (place : ℕ → ℕ) (s s' : Space) (v : IsTree root place s)
    (same : (p m : ℕ) → m < 512 → place p ≢ 0 → s'.word (entry p m) ≡ s.word (entry p m)) where
  root_same : (j : ℕ) → j < 512 → s'.word (entry root j) ≡ s.word (entry root j)
  root_same j hj = same root j hj (λ z. omega (arith, v.top))

  mid_same :
      (j m : ℕ)
      → j < 512
      → m < 512
      → is_there root j s ≡ true
      → s'.word (entry (child root j s) m) ≡ s.word (entry (child root j s) m)
  mid_same j m hj hm there = same (child root j s) m hm (λ z. omega (arith, v.mid j hj there))

  beside-leaf :
      (j k l : ℕ) → j < 512 → k < 512 → l < 512 → leaf_at root j k l s' ≡ leaf_at root j k l s
  beside-leaf j k l hj hk hl =
      leaf_at-same root j k l s s' (root_same j hj) (mid_same j k hj hk) λ there there'.
        same (child (child root j s) k s) l hl (λ z. omega (arith, v.low j k hj hk there there'))

  beside-IsTree :
      All (λ q. IsPage q × (place q ≡ 0)) s'.free → Separate s'.free → IsTree root place s'
  beside-IsTree fresh once = record {
    pages = v.pages;
    top = v.top;
    mid = λ j hj there.
        ap (λ w. place (pte2pa w)) (root_same j hj)
        ∙ v.mid j hj (ap pte_v (sym (root_same j hj)) ∙ there);
    low = λ j m hj hm there there'.
        let was : is_there root j s ≡ true = ap pte_v (sym (root_same j hj)) ∙ there in
        let up : child root j s' ≡ child root j s = ap pte2pa (root_same j hj) in
        let was' : is_there (child root j s) m s ≡ true =
          ap pte_v (sym (mid_same j m hj hm was)) ∙ ap (λ p. is_there p m s') (sym up) ∙ there' in
        ap (λ p. place (child p m s')) up
        ∙ ap (λ w. place (pte2pa w)) (mid_same j m hj hm was)
        ∙ v.low j m hj hm was was';
    fresh = fresh;
    once = once;
  }

-- Once `kalloc` has taken `mem` off the free list and it has been cleared
abbrev pub with_page : (mem : ℕ) → List ℕ → Space → Space
with_page mem ps s = clear_page mem (record s { free = ps })

module _ (root mem : ℕ) (ps : List ℕ) (place : ℕ → ℕ) (s : Space) (v : IsTree root place s)
    (free-eq : s.free ≡ mem ∷ ps) where
  abbrev fresh_now : All (λ q. IsPage q × (place q ≡ 0)) (mem ∷ ps)
  fresh_now = subst (All (λ p. IsPage p × (place p ≡ 0))) free-eq v.fresh

  pub mem_IsPage : IsPage mem
  mem_IsPage = fresh_now.0.0

  with_page-same :
      (p m : ℕ) → m < 512 → place p ≢ 0 → (with_page mem ps s).word (entry p m) ≡ s.word (entry p m)
  with_page-same p m hm placed =
      let apart : p ≢ mem = λ e. placed (ap place e ∙ fresh_now.0.1) in
      let page : IsPage p = v.pages p placed in
      let here : IsPage mem = mem_IsPage in ground (arith, page, here, apart)

  pub with_page-IsTree : IsTree root place (with_page mem ps s)
  with_page-IsTree =
      beside-IsTree root place s (with_page mem ps s) v with_page-same fresh_now.1
        (subst Separate free-eq v.once).1

  pub with_page-leaf : (vb : ℕ) → leaf root vb (with_page mem ps s) ≡ leaf root vb s
  with_page-leaf vb =
      beside-leaf root place s (with_page mem ps s) v with_page-same (vb / 2 ^ 30 % 512)
        (vb / 2 ^ 21 % 512) (vb / 2 ^ 12 % 512) (omega arith) (omega arith) (omega arith)

-- The page of an address is mapped and open to the user.
abbrev pub IsUserPage : (root va : ℕ) → Space → Type 0
IsUserPage root va s = IsMappedPage root va s × (pte_u (leaf root va s) ≡ true)

pub user_perm_lem :
    (pa xperm : ℕ)
    → xperm < 1024
    → let w = leaf_pte pa (user_perm xperm) in
      (pte_v w ≡ true) × (pte_flags w ≢ 1) × (pte_u w ≡ true)
user_perm_lem pa xperm small = (ground arith, λ e. omega arith, ground arith)

-- The `k` pages from number `first` on have come to `s0`.
pub record Grew (root first k : ℕ) (s0 s : Space) : Type 0 where
  pub outside :
      (vb : ℕ)
      → vb < maxva
      → (vb / 4096 < first) ⊎ (first + k ≤ vb / 4096)
      → leaf root vb s ≡ leaf root vb s0
  pub inside :
      (vb : ℕ) → vb < maxva → first ≤ vb / 4096 → vb / 4096 < first + k → IsUserPage root vb s

-- No page of a range is mapped.
abbrev pub IsBlank : (root first n : ℕ) → Space → Type 0
IsBlank root first n s =
    (vb : ℕ) → vb < maxva → first ≤ vb / 4096 → vb / 4096 < first + n → leaf root vb s ≡ 0

-- The first page behind `sz` bytes of memory
abbrev pub page_end : (sz : ℕ) → ℕ
page_end sz = (sz + 4095) / 4096

uvmdealloc-none :
    (root old new : ℕ) (s : Space)
    → new < old
    → old ≤ maxva
    → page_end old ≡ page_end new
    → uvmdealloc root old new s ≡ ok (new, s)
unfolding uvmdealloc
uvmdealloc-none root old new s less fits same =
    let below : leb old new ≡ false = ground arith in
    let no_page : ltb (pgroundup new) (pgroundup old) ≡ false = ground arith in
    rw (below, no_page) refl

-- A `uvmdealloc` to `new` bytes returns them, and unmaps the pages behind them.
pub uvmdealloc-Unmapped :
    (root old new : ℕ) (place : ℕ → ℕ) (s : Space)
    → IsTree root place s
    → new < old
    → old ≤ maxva
    → ((vb : ℕ)
        → vb < maxva
        → page_end new ≤ vb / 4096
        → vb / 4096 < page_end old
        → IsMappedPage root vb s)
    → (s' : Space) × (uvmdealloc root old new s ≡ ok (new, s'))
      × IsTree root place s'
      × Unmapped root (page_end new) (page_end old - page_end new) true s s'
unfolding uvmdealloc
uvmdealloc-Unmapped root old new place s v less fits mapped =
    let first = page_end new in
    let k = page_end old - page_end new in
    elim (Bool-cases (k == 0)) [
      | inl none_eq ↦
          let z : k ≡ 0 = (==_iff k 0).0 none_eq in
          (
            s,
            uvmdealloc-none root old new s less fits (omega (arith, z)),
            v,
            subst (λ x. Unmapped root first x true s s) (sym z) (Unmapped-zero root first true s),
          )
      | inr some_eq ↦
          let some_pages : 0 < k = ground arith in
          let (s', e, v', u) =
            uvmunmap-Unmapped root (first * 4096) k true place s v (omega arith) (omega arith)
              λ i lt. mapped (first * 4096 + i * 4096) (omega arith) (omega arith) (omega arith) in
          let below : leb old new ≡ false = ground arith in
          let round_old : pgroundup old ≡ page_end old * 4096 = omega arith in
          let round_new : pgroundup new ≡ first * 4096 = omega arith in
          let more : ltb (first * 4096) (page_end old * 4096) ≡ true = ground (arith, some_pages) in
          let count : (page_end old * 4096 - first * 4096) / pgsize % 2 ^ 32 ≡ k = omega arith in
          let positive : ltb k (2 ^ 31) ≡ true = ground arith in
          let at_first : first * 4096 / 4096 ≡ first = omega arith in
          (
            s',
            rw (below, round_old, round_new, more, count, positive, e) refl,
            v',
            subst (λ x. Unmapped root x k true s s') at_first u,
          )
    ]
