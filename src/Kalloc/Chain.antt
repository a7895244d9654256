-- ===== src/Kalloc/Chain.antt =====
-- The free list of kernel/kalloc.c as a chain through the pages, and the allocator's invariant.
use os_lab.Base.{
  ℕ, ◌%◌, ◌^◌, ◌≤◌, ◌<◌, ◌≡◌, ◌≢◌, false, List, [], ◌∷◌, arith, length, All, has, Distinct, update,
}
use os_lab.Kalloc.{Page, Kmem, pgsize, phystop}

-- From `p` the `next` words lead through the pages `xs` to the null pointer.
abbrev pub Chain : (ℕ → Page) → ℕ → List ℕ → Type 0
Chain page p [] = p ≡ 0
Chain page p (x ∷ xs) = (p ≡ x) × (x ≢ 0) × Chain page (page x).next xs

-- A write to a page outside the chain leaves it.
pub Chain-update :
    (page : ℕ → Page) (q : ℕ) (v : Page) (p : ℕ) (xs : List ℕ)
    → Chain page p xs
    → has q xs ≡ false
    → Chain (update page q v) p xs
Chain-update page q v p [] c out = c
Chain-update page q v p (x ∷ xs) c out = ground (arith, Chain-update page q v (page x).next xs)

-- What `kfree` accepts as a page.
abbrev pub IsPage : ℕ → ℕ → Type 0
IsPage end p = (p % pgsize ≡ 0) × (end ≤ p) × (p < phystop)

-- `PGNUM` tells the pages of the allocator apart.
abbrev pub PageNumbers : (ℕ → ℕ) → ℕ → Type 0
PageNumbers pgnum end = (p q : ℕ) → IsPage end p → IsPage end q → pgnum p ≡ pgnum q → p ≡ q

-- A change of one page's count leaves the counts of the other pages.
pub All-zero-update :
    (pgnum : ℕ → ℕ) (end : ℕ) (counts : ℕ → ℕ) (p v : ℕ) (xs : List ℕ)
    → PageNumbers pgnum end
    → IsPage end p
    → has p xs ≡ false
    → All (IsPage end) xs
    → All (λ q. counts (pgnum q) ≡ 0) xs
    → All (λ q. update counts (pgnum p) v (pgnum q) ≡ 0) xs
All-zero-update pgnum end counts p v [] apart i out is zs = tt
All-zero-update pgnum end counts p v (x ∷ xs) apart i out is zs = (
  ground (arith, apart x p is.0 i),
  All-zero-update pgnum end counts p v xs apart i (ground arith) is.1 zs.1,
)

-- An allocator with pages, as `kinit` is meant to leave it but does not: the list holds distinct pages with
-- no reference, `FREE_PAGES` counts them, and there are at most `MAX_PAGES`, which is positive.
pub record IsValid (pgnum : ℕ → ℕ) (end : ℕ) (k : Kmem) (free : List ℕ) : Type 0 where
  pub chain : Chain k.page k.freelist free
  pub distinct : Distinct free
  pub pages : All (IsPage end) free
  pub unused : All (λ p. k.ref_count (pgnum p) ≡ 0) free
  pub counted : k.free_pages ≡ length free
  pub bound : k.free_pages ≤ k.max_pages
  pub booted : 0 < k.max_pages
  pub small : k.max_pages < 2 ^ 64
