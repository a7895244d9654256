-- ===== src/Vm/Tests.antt =====
-- kernel/vm.c on a process whose pages 0 and 1 are at 40960 and 8192, on an empty page table, and on
-- one with page 1 mapped.
use os_lab.Base.{
  ℕ, ◌+◌, ◌-◌, ◌*◌, ◌/◌, ◌%◌, ◌<◌, ◌≤◌, ◌≡◌, ◌≢◌, ◌⊎◌, inl, inr, refl, sym, ap, subst, arith, Bool,
  true, false≢true, ◌==◌, ==_iff, Bool-cases, if◌then◌else◌, update, [], ◌∷◌, Outcome, ok, panic,
  length, false, leb, ◌&&◌,
}
use os_lab.Strings.{Mem}
use os_lab.Vm.{copyin, physical}
use os_lab.Vm.Copies.{copyin_lem}
use os_lab.Vm.Walk.{
  Space, maxva, pte_v, pte_u, pte2pa, walk_loop, walk, mappages_loop, mappages, walkaddr, uvmunmap,
}
use os_lab.Vm.Tree.{IsPage, IsTree, child, is_there, at_mid, at_low, leaf_at}
use os_lab.Vm.Lookup.{leaf}
use os_lab.Vm.Mapped.{Mapped}
use os_lab.Vm.Pages.{pages, mappages-Mapped, mappages-walkaddr, mappages-ends, walkaddr-leaf}
use os_lab.Vm.Frames.{IsMappedPage, Unmapped}
use os_lab.Vm.Unmap.{uvmunmap-cleared}
use os_lab.Vm.Sizes.{uvmalloc}
use os_lab.Vm.Grown.{Enlarged}
use os_lab.Vm.Enlarging.{uvmalloc-Enlarged}

abbrev process_pages : ℕ → ℕ
process_pages va = if va == 0 then 40960 else (if va == 4096 then 8192 else 0)

abbrev memory : Mem
memory = λ a. a % 251

-- Ten bytes across the end of the first page
copyin_lem_example :
    (m' : Mem) × (copyin process_pages 100 4090 10 memory ≡ ok (true, m'))
    × ((i : ℕ) → i < 10 → m' (100 + i) ≡ memory (physical process_pages (4090 + i)))
    × ((a : ℕ) → (a < 100) ⊎ (110 ≤ a) → m' a ≡ memory a)
copyin_lem_example =
    copyin_lem process_pages 100 4090 10 memory (omega arith) (λ i lt e. ground arith)
      λ i j lti ltj e. ground arith

-- A root table without entries, and four free pages
abbrev empty : Space
empty = record { word = λ a. 0; free = 8192 ∷ 12288 ∷ 16384 ∷ 20480 ∷ []; freed = [] }

abbrev only_root : ℕ → ℕ
only_root = update (λ q. 0) 4096 1

only_root-IsPage : (q : ℕ) → only_root q ≢ 0 → IsPage q
only_root-IsPage q h = elim (Bool-cases (q == 4096)) [
  | inl e ↦
      let at_root_page : q ≡ 4096 = (==_iff q 4096).0 e in
      (omega (arith, at_root_page), omega (arith, at_root_page), omega (arith, at_root_page))
  | inr ne ↦ absurd (h (rw ne refl))
]

empty-IsTree : IsTree 4096 only_root empty
empty-IsTree = record {
  pages = only_root-IsPage;
  top = refl;
  mid = λ i hi there. absurd (false≢true there);
  low = λ i k hi hk there. absurd (false≢true there);
  fresh = (
    ((refl, omega arith, omega arith), refl),
    (
      ((refl, omega arith, omega arith), refl),
      (((refl, omega arith, omega arith), refl), (((refl, omega arith, omega arith), refl), tt)),
    ),
  );
  once = (
    (omega arith, (omega arith, (omega arith, tt))),
    ((omega arith, (omega arith, tt)), ((omega arith, tt), (tt, tt))),
  );
}

empty-leaf : (vb : ℕ) → leaf 4096 vb empty ≡ 0
unfolding leaf_at
empty-leaf vb = refl

-- 5000 bytes from 5000 on, on pages 1 and 2
mappages-Mapped_example :
    ((s' : Space) × (place' : ℕ → ℕ) × (mappages 4096 5000 5000 40960 22 empty ≡ ok (true, s'))
      × IsTree 4096 place' s'
      × Mapped 4096 (5000 / 4096) (pages 5000 5000) 40960 22 empty s'
      × (length empty.free ≤ length s'.free + 2 * pages 5000 5000))
    ⊎ ((mappages 4096 5000 5000 40960 22 empty ≡ panic) × (length empty.free < 2 * pages 5000 5000))
mappages-Mapped_example =
    mappages-Mapped 4096 5000 5000 40960 22 only_root empty empty-IsTree (omega arith) (omega arith)
      (omega arith) (omega arith) λ vb lo hi. ap pte_v (empty-leaf vb)

abbrev space_of : Outcome (Bool × Space) → Space
space_of (ok r) = r.1
space_of _ = empty

abbrev two_pages : Space
two_pages = space_of (mappages 4096 5000 5000 40960 22 empty)

two_pages-eq : mappages 4096 5000 5000 40960 22 empty ≡ ok (true, two_pages)
unfolding mappages mappages_loop walk walk_loop
two_pages-eq = refl

mappages-walkaddr_example :
    walkaddr 4096 8200 two_pages ≡ ok (40960 + (8200 / 4096 - 5000 / 4096) * 4096)
mappages-walkaddr_example =
    mappages-walkaddr 4096 5000 5000 40960 22 only_root empty two_pages empty-IsTree (omega arith)
      (omega arith) (omega arith) (λ vb lo hi. ap pte_v (empty-leaf vb)) refl (omega arith) refl
      two_pages-eq 8200 (omega arith) (omega arith)

walkaddr-leaf_example :
    walkaddr 4096 8200 two_pages
    ≡ ok (
        if leb maxva 8200
        then 0
        else if pte_v (leaf 4096 8200 two_pages) && pte_u (leaf 4096 8200 two_pages)
        then pte2pa (leaf 4096 8200 two_pages)
        else 0)
walkaddr-leaf_example = walkaddr-leaf 4096 8200 two_pages

mappages-ends_example :
    ((r : Bool × Space) × (mappages 4096 maxva 5000 40960 22 empty ≡ ok r))
    ⊎ (mappages 4096 maxva 5000 40960 22 empty ≡ panic)
mappages-ends_example = mappages-ends 4096 maxva 5000 40960 22 empty

uvmalloc-Enlarged_example :
    Enlarged 4096
      ((100 + 4095) / 4096)
      ((10000 + 4095) / 4096 - (100 + 4095) / 4096)
      ((10000 + 4095) / 4096 - (100 + 4095) / 4096)
      10000
      empty
      empty
      (uvmalloc 4096 100 10000 4 empty)
uvmalloc-Enlarged_example =
    uvmalloc-Enlarged 4096 100 10000 4 only_root empty empty-IsTree (omega arith) (omega arith)
      (omega arith) λ vb hb lo hi. empty-leaf vb

-- Page 1 at 40960, under the tables at 8192 and 12288
abbrev one_page : Space
one_page = record {
  word = update (update (update (λ a. 0) 4096 2049) 8192 3073) 12296 10263;
  free = [];
  freed = [];
}

abbrev three_tables : ℕ → ℕ
three_tables = update (update (update (λ q. 0) 4096 1) 8192 2) 12288 514

first_entry : (i : ℕ) → i < 512 → is_there 4096 i one_page ≡ true → i ≡ 0
first_entry i hi there = ground arith

second_entry : (k : ℕ) → k < 512 → is_there 8192 k one_page ≡ true → k ≡ 0
second_entry k hk there = ground arith

one_page-IsTree : IsTree 4096 three_tables one_page
one_page-IsTree = record {
  pages = λ q h. (ground arith, ground arith, ground arith);
  top = refl;
  mid = λ i hi there.
      let z = first_entry i hi there in
      subst (λ x. three_tables (child 4096 x one_page) ≡ at_mid x) (sym z) refl;
  low = λ i k hi hk there there'.
      let z = first_entry i hi there in
      let z' =
        second_entry k hk
          (subst (λ x. is_there (child 4096 x one_page) k one_page ≡ true) z there') in
      subst (λ x. three_tables (child (child 4096 x one_page) k one_page) ≡ at_low x k) (sym z)
        (subst (λ x. three_tables (child 8192 x one_page) ≡ at_low 0 x) (sym z') refl);
  fresh = tt;
  once = tt;
}

one_page-mapped : (i : ℕ) → i < 1 → IsMappedPage 4096 (4096 + i * 4096) one_page
unfolding leaf_at
one_page-mapped i lt = let z : i ≡ 0 = omega arith in rw z (refl, omega arith)

uvmunmap-cleared_example :
    (s' : Space) × (uvmunmap 4096 4096 1 false one_page ≡ ok s')
    × IsTree 4096 three_tables s'
    × Unmapped 4096 (4096 / 4096) 1 false one_page s'
uvmunmap-cleared_example =
    uvmunmap-cleared 4096 4096 1 three_tables one_page one_page-IsTree refl (omega arith)
      one_page-mapped
