-- ===== src/Kalloc.antt =====
-- kernel/kalloc.c: the physical page allocator with its reference counts.
mod Boot
mod Chain
mod Pages
mod Tests
use os_lab.Base.{
  ℕ, zero, suc, ◌+◌, ◌-◌, ◌*◌, ◌/◌, ◌%◌, ◌^◌, ◌≤◌, ◌<◌, ◌≡◌, ◌≢◌, Bool, true, false, not, ◌&&◌,
  ◌||◌, ltb, leb, ◌==◌, if◌then◌else◌, update, Outcome, ok, panic, out_of_fuel, ◌>>=◌,
}

abbrev pub pgsize : ℕ
pgsize = 4096

-- PHYSTOP = KERNBASE + 128 MB
abbrev pub kernbase : ℕ
kernbase = 0x80000000

abbrev pub phystop : ℕ
phystop = 0x88000000

-- `PGROUNDUP` and `PGROUNDDOWN` of an address that is not within a page of 2 ^ 64
abbrev pub pgroundup : ℕ → ℕ
pgroundup a = (a + pgsize - 1) / pgsize * pgsize

-- A page as the allocator writes it: the word at its start, where a free page keeps
-- `struct run`, and the byte that fills the rest.
pub record Page : Type 0 where
  pub next : ℕ
  pub fill : ℕ

-- `memset(pa, c, PGSIZE)`
abbrev pub filled : ℕ → Page
filled c = record { next = c * 0x0101010101010101; fill = c }

-- `kmem.freelist`, the memory of the pages, `ref_count`, `FREE_PAGES` and `MAX_PAGES`. A pointer
-- is its address, 0 the null pointer.
pub record Kmem : Type 0 where
  pub freelist : ℕ
  pub page : ℕ → Page
  pub ref_count : ℕ → ℕ
  pub free_pages : ℕ
  pub max_pages : ℕ

-- `PGNUM` and `end` are not defined in the sources: parameters.
module _ (pgnum : ℕ → ℕ) (end : ℕ) where
  -- The test of `kfree` for what is no page of the allocator's.
  pub bad_page : ℕ → Bool
  bad_page pa = not (pa % pgsize == 0) || ltb pa end || leb phystop pa

  pub kfree_fill : ℕ → Kmem → Kmem
  kfree_fill pa k = record k { page = update k.page pa (filled 1) }

  -- `ref_count[PGNUM(pa)]--`, a `uint32`
  pub kfree_count : ℕ → Kmem → Kmem
  kfree_count pa k = record k {
    ref_count = update k.ref_count (pgnum pa) ((k.ref_count (pgnum pa) + 2 ^ 32 - 1) % 2 ^ 32);
  }

  -- The page goes to the front of the free list.
  pub kfree_push : ℕ → Kmem → Kmem
  kfree_push pa k = record k {
    page = update k.page pa (record { next = k.freelist; fill = (k.page pa).fill });
    freelist = pa;
    free_pages = (k.free_pages + 1) % 2 ^ 64;
  }

  pub kfree : ℕ → Kmem → Outcome Kmem
  unfolding bad_page kfree_fill kfree_count kfree_push
  kfree pa k =
      if not (k.max_pages == 0) && not (ltb k.free_pages k.max_pages)
      then panic
      else if bad_page pa
      then panic
      else let k' = kfree_count pa (kfree_fill pa k) in
        if k'.ref_count (pgnum pa) == 0 then ok (kfree_push pa k') else ok k'

  -- `kalloc` once the assertion has passed: the page, 0 when the list is empty.
  pub kalloc_take : Kmem → ℕ × Kmem
  kalloc_take k =
      if k.freelist == 0
      then (0, record k { free_pages = (k.free_pages + 2 ^ 64 - 1) % 2 ^ 64 })
      else (
        k.freelist,
        record k {
          ref_count =
              update k.ref_count (pgnum k.freelist) ((k.ref_count (pgnum k.freelist) + 1) % 2 ^ 32);
          freelist = (k.page k.freelist).next;
          page = update k.page k.freelist (filled 5);
          free_pages = (k.free_pages + 2 ^ 64 - 1) % 2 ^ 64;
        },
      )

  pub kalloc : Kmem → Outcome (ℕ × Kmem)
  unfolding kalloc_take
  kalloc k = if ltb 0 k.free_pages then ok (kalloc_take k) else panic

  -- The loop of `freerange` from `p` on.
  freerange_loop : ℕ → ℕ → ℕ → Kmem → Outcome Kmem
  freerange_loop zero p pa_end k = out_of_fuel
  freerange_loop (suc fuel) p pa_end k =
      let rest = kfree p k >>= freerange_loop fuel (p + pgsize) pa_end in
      if leb (p + pgsize) pa_end then rest else ok k

  pub freerange : ℕ → ℕ → Kmem → Outcome Kmem
  unfolding freerange_loop
  freerange pa_start pa_end = freerange_loop (suc (pa_end / pgsize)) (pgroundup pa_start) pa_end

  -- `for (i = 0; i < MAX_PAGES; i++) ref_count[i] = 0`
  clear_counts : ℕ → (ℕ → ℕ) → ℕ → ℕ
  clear_counts max_pages counts i = if ltb i max_pages then 0 else counts i

  pub kinit : Kmem → Outcome Kmem
  unfolding freerange clear_counts
  kinit k = freerange end phystop k >>= λ k'.
      ok (record k' {
        max_pages = k'.free_pages;
        ref_count = clear_counts k'.free_pages k'.ref_count;
      })
