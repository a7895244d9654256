-- ===== src/Kalloc/Boot.antt =====
-- `kinit` of kernel/kalloc.c, from the zeroed memory that the kernel starts with.
use os_lab.Base.{
  ℕ, zero, suc, ◌+◌, ◌-◌, ◌/◌, ◌%◌, ◌^◌, ◌≤◌, ◌<◌, ◌≡◌, subst, ◌⊎◌, inl, inr, arith, update, leb,
  leb→le, Bool-cases, ok, panic,
}
use os_lab.Kalloc.{
  filled, Kmem, pgsize, phystop, pgroundup, kfree, kalloc, freerange_loop, clear_counts, kinit,
}
use os_lab.Kalloc.Chain.{IsPage}

-- The allocator before `kinit` ends: nothing is free, and a count is 0 or has been wrapped round
-- by at most `n` decrements.
pub record Booting (k : Kmem) (n : ℕ) : Type 0 where
  pub no_max : k.max_pages ≡ 0
  pub none_free : k.free_pages ≡ 0
  pub no_list : k.freelist ≡ 0
  pub counts :
      (i : ℕ) → (k.ref_count i ≡ 0) ⊎ ((2 ^ 32 - n ≤ k.ref_count i) × (k.ref_count i < 2 ^ 32))

module _ (pgnum : ℕ → ℕ) (end : ℕ) where
  abbrev dropped : ℕ → Kmem → Kmem
  dropped p k = record k {
    page = update k.page p (filled 1);
    ref_count = update k.ref_count (pgnum p) ((k.ref_count (pgnum p) + 2 ^ 32 - 1) % 2 ^ 32);
  }

  -- A count of 0 wraps round, so the page is not put on the list.
  kfree-Booting :
      (p : ℕ) (k : Kmem) (n : ℕ)
      → IsPage end p
      → n < 2 ^ 31
      → Booting k n
      → (kfree pgnum end p k ≡ ok (dropped p k)) × Booting (dropped p k) (suc n)
  unfolding kfree
  kfree-Booting p k n i small b = (
    ground (arith, b.counts (pgnum p)),
    record {
      no_max = b.no_max;
      none_free = b.none_free;
      no_list = b.no_list;
      counts = λ j. ground (arith, b.counts (pgnum p), b.counts j);
    },
  )

  freerange_loop-Booting :
      (fuel p pa_end : ℕ) (k : Kmem) (n : ℕ)
      → p % pgsize ≡ 0
      → end ≤ p
      → pa_end ≤ phystop
      → (pa_end - p) / pgsize < fuel
      → n + fuel ≤ 2 ^ 31
      → Booting k n
      → (k' : Kmem) × (freerange_loop pgnum end fuel p pa_end k ≡ ok k') × Booting k' (n + fuel)
  unfolding freerange_loop
  freerange_loop-Booting zero p pa_end k n al lo hi rounds small b = absurd (omega arith)
  freerange_loop-Booting (suc fuel) p pa_end k n al lo hi rounds small b =
      elim (Bool-cases (leb (p + pgsize) pa_end)) [
        | inl more ↦
            let bound : p + pgsize ≤ pa_end = leb→le (p + pgsize) pa_end more in
            let (e, b') = kfree-Booting p k n (al, lo, ground arith) (omega arith) b in
            let (k', r, b'') =
              freerange_loop-Booting fuel (p + pgsize) pa_end (dropped p k) (suc n) (omega arith)
                (omega arith) hi (omega arith) (omega arith) b' in
            (k', rw (more, e) r, subst (Booting k') (omega arith) b'')
        | inr done ↦ (
          k,
          rw done,
          record {
            no_max = b.no_max;
            none_free = b.none_free;
            no_list = b.no_list;
            counts = λ i. ground (arith, b.counts i);
          },
        )
      ]

  -- The kernel starts with a zeroed allocator. `kinit` then frees no page at all, and the first
  -- `kalloc` fails its assertion.
  pub kinit-frees_nothing :
      (k : Kmem)
      → end ≤ phystop
      → Booting k 0
      → (k' : Kmem) × (kinit pgnum end k ≡ ok k')
        × (k'.freelist ≡ 0)
        × (k'.free_pages ≡ 0)
        × (kalloc pgnum end k' ≡ panic)
  unfolding kinit kalloc
  kinit-frees_nothing k le b =
      let (k', r, b') =
        freerange_loop-Booting (suc (phystop / pgsize)) (pgroundup end) phystop k 0 (omega arith)
          (omega arith) (omega arith) (omega arith) (omega arith) b in
      (
        record k' {
          max_pages = k'.free_pages;
          ref_count = clear_counts pgnum end k'.free_pages k'.ref_count;
        },
        rw r,
        b'.no_list,
        b'.none_free,
        ground (arith, b'.none_free),
      )
