-- ===== src/Vm/Walk.antt =====
-- kernel/vm.c: page tables in memory. Memory is a map from addresses to the 64-bit words there;
-- `free` is the free list of kernel/kalloc.c, page by page, and `freed` records what `kfree` has been given.
use os_lab.Base.{
  ℕ, zero, suc, ◌+◌, ◌-◌, ◌*◌, ◌/◌, ◌%◌, ◌^◌, Bool, true, false, not, ◌&&◌, ltb, leb, ◌==◌,
  if◌then◌else◌, update, Option, none, some, List, [], ◌∷◌, ◌++◌, Outcome, ok, panic, ◌>>=◌,
}
use os_lab.Vm.{pgsize, pgrounddown}

pub record Space : Type 0 where
  pub word : ℕ → ℕ
  pub free : List ℕ
  pub freed : List ℕ

-- `MAXVA`, and the fields of a page table entry. Flags are the lowest ten bits.
abbrev pub maxva : ℕ
maxva = 2 ^ 38

abbrev pub pte_v : ℕ → Bool
pte_v pte = pte % 2 == 1

abbrev pub pte_u : ℕ → Bool
pte_u pte = pte / 16 % 2 == 1

-- `PTE_R | PTE_W | PTE_X`
abbrev pub pte_rwx : ℕ → Bool
pte_rwx pte = not (pte / 2 % 8 == 0)

abbrev pub pa2pte : ℕ → ℕ
pa2pte pa = pa / 4096 * 1024

abbrev pub pte2pa : ℕ → ℕ
pte2pa pte = pte / 1024 * 4096 % 2 ^ 64

abbrev pub pte_flags : ℕ → ℕ
pte_flags pte = pte % 1024

-- `pa2pte(pa) | perm | PTE_V`, for flags `perm`
abbrev pub leaf_pte : (pa perm : ℕ) → ℕ
leaf_pte pa perm = pa2pte pa + (perm + 1 - perm % 2)

abbrev pub px : (level va : ℕ) → ℕ
px level va = va / 2 ^ (12 + 9 * level) % 512

-- The address of `pagetable[i]`
abbrev pub entry : (pagetable i : ℕ) → ℕ
entry pagetable i = pagetable + 8 * i

abbrev pub write : (a w : ℕ) → Space → Space
write a w s = record s { word = update s.word a w }

-- `memset(p, 0, PGSIZE)`
abbrev pub clear_page : ℕ → Space → Space
clear_page p s = record s { word = λ a. if leb p a && ltb a (p + pgsize) then 0 else s.word a }

-- `kalloc` asserts that a page is free, where FREE_PAGES is the length of the list. The count of the page's
-- references and its fill are in Kalloc; every caller in vm.c overwrites the whole page.
abbrev pub kalloc : Space → Outcome (ℕ × Space)
kalloc s = elim s.free [ [] ↦ panic | p ∷ ps ↦ ok (p, record s { free = ps }) ]

-- A call of `kfree` is recorded; what it does to the page is in Kalloc.
abbrev pub kfree : ℕ → Space → Space
kfree pa s = record s { freed = s.freed ++ pa ∷ [] }

-- The loop of `walk` from `level` on, down to the last table.
unfoldable pub walk_loop :
    (alloc : Bool) → (va level pagetable : ℕ) → Space → Outcome (Option ℕ × Space)
walk_loop alloc va zero pagetable s = ok (some (entry pagetable (px 0 va)), s)
walk_loop alloc va (suc l) pagetable s =
    let pte = entry pagetable (px (suc l) va) in
    let next = walk_loop alloc va l (pte2pa (s.word pte)) s in
    let grown : Outcome (Option ℕ × Space) = kalloc s >>= λ r.
    let below = walk_loop alloc va l r.0 (write pte (pa2pte r.0 + 1) (clear_page r.0 r.1)) in
    if r.0 == 0 then ok (none, r.1) else below in
    if pte_v (s.word pte) then next else if not alloc then ok (none, s) else grown

unfoldable pub walk : (pagetable va : ℕ) → (alloc : Bool) → Space → Outcome (Option ℕ × Space)
walk pagetable va alloc s = if leb maxva va then panic else walk_loop alloc va 2 pagetable s

unfoldable pub walkaddr : (pagetable va : ℕ) → Space → Outcome ℕ
walkaddr pagetable va s =
    if leb maxva va
    then ok 0
    else walk pagetable va false s >>= λ r. elim r.0 [
      | none ↦ ok 0
      | some pte ↦
          if not (pte_v (r.1.word pte))
          then ok 0
          else if not (pte_u (r.1.word pte))
          then ok 0
          else ok (pte2pa (r.1.word pte))
    ]

-- The loop of `mappages`, on fuel: true for 0, false for -1
unfoldable pub mappages_loop : (fuel pagetable a last pa perm : ℕ) → Space → Outcome (Bool × Space)
mappages_loop zero pagetable a last pa perm s = Outcome.out_of_fuel
mappages_loop (suc fuel) pagetable a last pa perm s = walk pagetable a true s >>= λ r. elim r.0 [
  | none ↦ ok (false, r.1)
  | some pte ↦
      let s1 = write pte (leaf_pte pa perm) r.1 in
      let rest =
        mappages_loop fuel pagetable ((a + pgsize) % 2 ^ 64) last ((pa + pgsize) % 2 ^ 64) perm
          s1 in
      if pte_v (r.1.word pte) then panic else if a == last then ok (true, s1) else rest
]

-- Fuel for each of the pages below `MAXVA`.
unfoldable pub mappages : (pagetable va size pa perm : ℕ) → Space → Outcome (Bool × Space)
mappages pagetable va size pa perm s =
    if size == 0
    then panic
    else mappages_loop (2 ^ 26 + 1) pagetable (pgrounddown va)
        (pgrounddown ((va + size + 2 ^ 64 - 1) % 2 ^ 64)) pa perm s

unfoldable pub kvmmap : (kpgtbl va pa sz perm : ℕ) → Space → Outcome Space
kvmmap kpgtbl va pa sz perm s =
    mappages kpgtbl va sz pa perm s >>= λ r. if r.0 then ok r.1 else panic

-- The loop of `uvmunmap`, with `n` pages left
unfoldable pub uvmunmap_loop : (n pagetable a : ℕ) → (do_free : Bool) → Space → Outcome Space
uvmunmap_loop zero pagetable a do_free s = ok s
uvmunmap_loop (suc n) pagetable a do_free s = walk pagetable a false s >>= λ r. elim r.0 [
  | none ↦ panic
  | some pte ↦
      let w = r.1.word pte in
      let s1 = if do_free then kfree (pte2pa w) r.1 else r.1 in
      let rest = uvmunmap_loop n pagetable (a + pgsize) do_free (write pte 0 s1) in
      if not (pte_v w) then panic else if pte_flags w == 1 then panic else rest
]

-- How often `for (a = va; a < va + npages*PGSIZE; a += PGSIZE)` goes round
abbrev pub rounds : (va npages : ℕ) → ℕ
rounds va npages = ((va + npages * pgsize) % 2 ^ 64 - va) / pgsize

unfoldable pub uvmunmap : (pagetable va npages : ℕ) → (do_free : Bool) → Space → Outcome Space
uvmunmap pagetable va npages do_free s =
    if not (va % pgsize == 0)
    then panic
    else uvmunmap_loop (rounds va npages) pagetable va do_free s
