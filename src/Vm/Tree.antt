-- ===== src/Vm/Tree.antt =====
-- The page tables of kernel/vm.c as a tree of pages, with the entry for each place in it.
use os_lab.Base.{
  ℕ, ◌+◌, ◌*◌, ◌%◌, ◌^◌, ◌<◌, ◌≡◌, ◌≢◌, ◌⊎◌, inl, inr, refl, ◌∙◌, arith, Bool, true, false,
  Bool-cases, if◌then◌else◌, update-ne, All, Separate,
}
use os_lab.Vm.Walk.{Space, pte_v, pa2pte, pte2pa, entry, write, clear_page}

abbrev pub IsPage : ℕ → Type 0
IsPage p = (p % 4096 ≡ 0) × (0 < p) × (p < 2 ^ 56)

-- The table that entry `i` of `pagetable` leads to.
abbrev pub child : (pagetable i : ℕ) → Space → ℕ
child pagetable i s = pte2pa (s.word (entry pagetable i))

abbrev pub is_there : (pagetable i : ℕ) → Space → Bool
is_there pagetable i s = pte_v (s.word (entry pagetable i))

-- The last entry for the indices `i`, `k` and `l`, 0 where a table is missing.
unfoldable pub leaf_at : (root i k l : ℕ) → Space → ℕ
leaf_at root i k l s =
    let mid = child root i s in
    if is_there root i s
    then (if is_there mid k s then s.word (entry (child mid k s) l) else 0)
    else 0

-- Where each table page stands in the tree, as a number: 0 for a page that is no table.
abbrev pub at_root : ℕ
at_root = 1

abbrev pub at_mid : ℕ → ℕ
at_mid i = 2 + i

abbrev pub at_low : ℕ → ℕ → ℕ
at_low i k = 514 + i * 512 + k

pub record IsTree (root : ℕ) (place : ℕ → ℕ) (s : Space) : Type 0 where
  pub pages : (q : ℕ) → place q ≢ 0 → IsPage q
  pub top : place root ≡ at_root
  pub mid : (i : ℕ) → i < 512 → is_there root i s ≡ true → place (child root i s) ≡ at_mid i
  pub low :
      (i k : ℕ)
      → i < 512
      → k < 512
      → is_there root i s ≡ true
      → is_there (child root i s) k s ≡ true
      → place (child (child root i s) k s) ≡ at_low i k
  pub fresh : All (λ q. IsPage q × (place q ≡ 0)) s.free
  pub once : Separate s.free

pub entry-ne :
    (p q i k : ℕ) → IsPage p → IsPage q → i < 512 → k < 512 → p ≢ q → entry p i ≢ entry q k
entry-ne p q i k hp hq hi hk ne e = omega arith

pub entry-inj : (p i k : ℕ) → i ≢ k → entry p i ≢ entry p k
entry-inj p i k ne e = omega arith

pub pte2pa_lem : (p : ℕ) → IsPage p → (pte2pa (pa2pte p + 1) ≡ p) × (pte_v (pa2pte p + 1) ≡ true)
pte2pa_lem p h = (omega arith, ground arith)

-- A new table `q` under entry `i` of table `t`
abbrev pub grown : (t i q : ℕ) → Space → Space
grown t i q s = write (entry t i) (pa2pte q + 1) (clear_page q s)

-- Every entry of another table than the new one is as before, but for the one that leads there.
pub grown-other :
    (t i q p k : ℕ) (s : Space)
    → IsPage q
    → IsPage p
    → IsPage t
    → i < 512
    → k < 512
    → p ≢ q
    → (p ≢ t) ⊎ (k ≢ i)
    → (grown t i q s).word (entry p k) ≡ s.word (entry p k)
grown-other t i q p k s hq hp ht hi hk ne other =
    let apart : entry p k ≢ entry t i = λ e. omega arith in
    update-ne (clear_page q s).word (entry t i) (entry p k) (pa2pte q + 1) apart ∙ ground arith

pub grown-new :
    (t i q k : ℕ) (s : Space)
    → IsPage q
    → IsPage t
    → i < 512
    → k < 512
    → q ≢ t
    → (grown t i q s).word (entry q k) ≡ 0
grown-new t i q k s hq ht hi hk ne =
    update-ne (clear_page q s).word (entry t i) (entry q k) (pa2pte q + 1)
      (entry-ne q t k i hq ht hk hi ne)
    ∙ ground arith

-- Where the words on the way to it are as before, an entry is.
pub leaf_at-same :
    (root i k l : ℕ) (s s' : Space)
    → s'.word (entry root i) ≡ s.word (entry root i)
    → (is_there root i s ≡ true
        → s'.word (entry (child root i s) k) ≡ s.word (entry (child root i s) k))
    → (is_there root i s ≡ true
        → is_there (child root i s) k s ≡ true
        → s'.word (entry (child (child root i s) k s) l)
          ≡ s.word (entry (child (child root i s) k s) l))
    → leaf_at root i k l s' ≡ leaf_at root i k l s
unfolding leaf_at
leaf_at-same root i k l s s' top mid low = rw top (elim (Bool-cases (is_there root i s)) [
  | inr missing ↦ rw missing refl
  | inl there ↦ rw there (
      rw (mid there) (elim (Bool-cases (is_there (child root i s) k s)) [
        | inr missing ↦ rw missing refl
        | inl there' ↦ rw there' (low there there')
      ]))
])

pub leaf_at-found :
    (root i k l : ℕ) (s : Space)
    → is_there root i s ≡ true
    → is_there (child root i s) k s ≡ true
    → leaf_at root i k l s ≡ s.word (entry (child (child root i s) k s) l)
unfolding leaf_at
leaf_at-found root i k l s there there' = rw (there, there') refl

pub leaf_at-missing :
    (root i k l : ℕ) (s : Space)
    → (is_there root i s ≡ false) ⊎ (is_there (child root i s) k s ≡ false)
    → leaf_at root i k l s ≡ 0
unfolding leaf_at
leaf_at-missing root i k l s (inl missing) = rw missing refl
leaf_at-missing root i k l s (inr missing) = elim (Bool-cases (is_there root i s)) [
  | inl there ↦ rw (there, missing) refl
  | inr absent ↦ rw absent refl
]
