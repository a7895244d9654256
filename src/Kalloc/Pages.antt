-- ===== src/Kalloc/Pages.antt =====
-- `kalloc` and `kfree` of kernel/kalloc.c on a valid allocator.
use os_lab.Base.{
  ℕ, suc, ◌+◌, ◌-◌, ◌%◌, ◌^◌, ◌<◌, ◌≡◌, refl, sym, subst, ◌≢◌, false, List, [], ◌∷◌, arith, All,
  has, update, update_self, update-ne, ◌==◌, ==-ne, lt→ltb, if◌then◌else◌, ok, panic,
}
use os_lab.Kalloc.{Page, filled, Kmem, kfree, kalloc, kfree_push}
use os_lab.Kalloc.Chain.{Chain, Chain-update, IsPage, PageNumbers, All-zero-update, IsValid}

-- A page just taken off a valid free list.
pub record Taken (pgnum : ℕ → ℕ) (end : ℕ) (k k' : Kmem) (p : ℕ) (free : List ℕ) : Type 0 where
  pub valid : IsValid pgnum end k' free
  pub page : IsPage end p
  pub outside : has p free ≡ false
  pub one_ref : k'.ref_count (pgnum p) ≡ 1
  pub junk : k'.page p ≡ filled 5
  pub others : (q : ℕ) → q ≢ p → k'.page q ≡ k.page q

-- The state in which `kalloc` leaves an allocator whose list begins with `p`.
abbrev taken : (ℕ → ℕ) → ℕ → Kmem → Kmem
taken pgnum p k = record k {
  ref_count = update k.ref_count (pgnum p) ((k.ref_count (pgnum p) + 1) % 2 ^ 32);
  freelist = (k.page p).next;
  page = update k.page p (filled 5);
  free_pages = (k.free_pages + 2 ^ 64 - 1) % 2 ^ 64;
}

module _ (pgnum : ℕ → ℕ) (end : ℕ) (apart : PageNumbers pgnum end) where
  module _ (k : Kmem) (p : ℕ) (free : List ℕ) (v : IsValid pgnum end k (p ∷ free)) where
    kalloc-taken : kalloc pgnum end k ≡ ok (p, taken pgnum p k)
    unfolding kalloc
    kalloc-taken = rw (lt→ltb 0 k.free_pages (omega arith), v.chain.0, ==-ne p 0 v.chain.1)

    taken-IsValid : IsValid pgnum end (taken pgnum p k) free
    taken-IsValid = record {
      chain = Chain-update k.page p (filled 5) (k.page p).next free v.chain.2 v.distinct.0;
      distinct = v.distinct.1;
      pages = v.pages.1;
      unused =
          All-zero-update pgnum end k.ref_count p _ free apart v.pages.0 v.distinct.0 v.pages.1
            v.unused.1;
      counted = omega arith;
      bound = omega arith;
      booted = v.booted;
      small = v.small;
    }

    -- `kalloc` on a valid allocator with a free page
    pub kalloc-Taken : (k' : Kmem) × (kalloc pgnum end k ≡ ok (p, k')) × Taken pgnum end k k' p free
    kalloc-Taken = (
      taken pgnum p k,
      kalloc-taken,
      record {
        valid = taken-IsValid;
        page = v.pages.0;
        outside = v.distinct.0;
        one_ref = ground (arith, v.unused.0);
        junk = update_self k.page p (filled 5);
        others = λ q ne. update-ne k.page p q (filled 5) ne;
      },
    )

  -- With no free page the assertion of `kalloc` stops the machine.
  pub kalloc-empty : (k : Kmem) → IsValid pgnum end k [] → kalloc pgnum end k ≡ panic
  unfolding kalloc
  kalloc-empty k v = ground (arith, v.counted)

  module _ (k : Kmem) (p : ℕ) (free : List ℕ) (v : IsValid pgnum end k free) (i : IsPage end p)
      (out : has p free ≡ false) (room : k.free_pages < k.max_pages) where
    -- The state in which `kfree` leaves the page's fill and count.
    abbrev dropped : Kmem
    dropped = record k {
      page = update k.page p (filled 1);
      ref_count = update k.ref_count (pgnum p) ((k.ref_count (pgnum p) + 2 ^ 32 - 1) % 2 ^ 32);
    }

    kfree-dropped : kfree pgnum end p k ≡ (
        if (k.ref_count (pgnum p) + 2 ^ 32 - 1) % 2 ^ 32 == 0
        then ok (kfree_push pgnum end p dropped)
        else ok dropped)
    unfolding kfree
    kfree-dropped = ground (arith, v.booted)

    dropped-Chain : Chain dropped.page k.freelist free
    dropped-Chain = Chain-update k.page p (filled 1) k.freelist free v.chain out

    dropped-unused : All (λ q. dropped.ref_count (pgnum q) ≡ 0) free
    dropped-unused = All-zero-update pgnum end k.ref_count p _ free apart i out v.pages v.unused

    -- The link that `kfree` writes into the page leads to the rest of the list.
    abbrev link : Page
    link = record { next = k.freelist; fill = (dropped.page p).fill }

    pushed-Chain : Chain (update dropped.page p link) (update dropped.page p link p).next free
    pushed-Chain =
        subst (λ (w : Page). Chain (update dropped.page p link) w.next free)
          (sym (update_self dropped.page p link))
          (Chain-update dropped.page p link k.freelist free dropped-Chain out)

    -- The last reference: the page goes back to the front of the list.
    pub kfree-last :
        0 < p
        → k.ref_count (pgnum p) ≡ 1
        → (k' : Kmem) × (kfree pgnum end p k ≡ ok k')
          × IsValid pgnum end k' (p ∷ free)
          × ((q : ℕ) → q ≢ p → k'.page q ≡ k.page q)
    unfolding kfree_push
    kfree-last pos one = (
      kfree_push pgnum end p dropped,
      ground (arith, kfree-dropped),
      record {
        chain = (refl, ground arith, pushed-Chain);
        distinct = (out, v.distinct);
        pages = (i, v.pages);
        unused = (ground arith, dropped-unused);
        counted = omega (arith, v.counted, v.small);
        bound = omega (arith, v.bound, v.small);
        booted = v.booted;
        small = v.small;
      },
      ground arith,
    )

    -- Another reference is left: only the count falls, the list is as it was.
    pub kfree-shared :
        (n : ℕ)
        → k.ref_count (pgnum p) ≡ suc (suc n)
        → suc (suc n) < 2 ^ 32
        → (k' : Kmem) × (kfree pgnum end p k ≡ ok k')
          × IsValid pgnum end k' free
          × (k'.ref_count (pgnum p) ≡ suc n)
          × (k'.freelist ≡ k.freelist)
    kfree-shared n e small = (
      dropped,
      ground (arith, kfree-dropped),
      record {
        chain = dropped-Chain;
        distinct = v.distinct;
        pages = v.pages;
        unused = dropped-unused;
        counted = v.counted;
        bound = v.bound;
        booted = v.booted;
        small = v.small;
      },
      ground arith,
      refl,
    )
