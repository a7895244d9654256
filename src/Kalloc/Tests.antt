-- ===== src/Kalloc/Tests.antt =====
-- kernel/kalloc.c on concrete states.
use os_lab.Base.{ℕ, ◌-◌, ◌/◌, ◌≡◌, refl, inl, arith, ok, panic, update}
use os_lab.Kalloc.{filled, Kmem, pgsize, kernbase, phystop, kfree, kalloc, kinit}
use os_lab.Kalloc.Boot.{kinit-frees_nothing}

-- The first page past the kernel, and the numbering of the pages from KERNBASE.
abbrev end : ℕ
end = 0x80022000

abbrev pgnum : ℕ → ℕ
pgnum pa = (pa - kernbase) / pgsize

abbrev zeroed : Kmem
zeroed = record {
  freelist = 0;
  page = λ _. filled 0;
  ref_count = λ _. 0;
  free_pages = 0;
  max_pages = 0;
}

kinit-frees_nothing_example :
    (k' : Kmem) × (kinit pgnum end zeroed ≡ ok k')
    × (k'.freelist ≡ 0)
    × (k'.free_pages ≡ 0)
    × (kalloc pgnum end k' ≡ panic)
kinit-frees_nothing_example =
    kinit-frees_nothing pgnum end zeroed (omega arith)
      (record { no_max = refl; none_free = refl; no_list = refl; counts = λ _. inl refl })

-- Two free pages of three.
abbrev two_free : Kmem
two_free = record {
  freelist = 0x80024000;
  page =
      update (λ _. record { next = 0; fill = 1 }) 0x80024000
        (record { next = 0x80023000; fill = 1 });
  ref_count = update (λ _. 0) (pgnum 0x80025000) 1;
  free_pages = 2;
  max_pages = 3;
}

-- Misaligned, below the end of the kernel, and past the end of memory.
kfree_panics :
    (kfree pgnum end 0x80025001 two_free ≡ panic)
    × (kfree pgnum end 0x80021000 two_free ≡ panic)
    × (kfree pgnum end phystop two_free ≡ panic)
unfolding kfree
kfree_panics = (refl, refl, refl)
