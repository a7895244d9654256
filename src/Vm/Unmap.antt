-- ===== src/Vm/Unmap.antt =====
-- `uvmunmap` of kernel/vm.c against the table of last entries.
use os_lab.Base.{
  ℕ, zero, suc, ◌+◌, ◌*◌, ◌/◌, ◌%◌, ◌<◌, ◌≤◌, ◌≡◌, ◌≢◌, inl, inr, refl, sym, ap, ap₂, subst, ◌∙◌,
  arith, Bool, true, false, false≢true, ◌==◌, Bool-cases, ==_iff, if◌then◌else◌, List, ◌∷◌, ◌++◌,
  ok,
}
use os_lab.Vm.{pgsize}
use os_lab.Vm.Walk.{Space, maxva, pte_v, pte2pa, pte_flags, write, rounds, uvmunmap_loop, uvmunmap}
use os_lab.Vm.Tree.{IsTree}
use os_lab.Vm.Lookup.{leaf, leaf-Found, walk_loop-Found, walk_loop-lookup}
use os_lab.Vm.Leaf.{write-IsTree, leaf-write}
use os_lab.Vm.Mapped.{leaf-page, leaf-other}
use os_lab.Vm.Frames.{
  Unmapped-zero, frames, IsMappedPage, Unmapped, frames-same, dropped, given_now, given-eq,
  given_now-cons, given-IsTree, given-Found, given-leaf, uvmunmap_loop-step,
}

uvmunmap_loop-Unmapped :
    (n root first : ℕ) (do_free : Bool) (place : ℕ → ℕ) (s : Space)
    → IsTree root place s
    → (first + n) * 4096 ≤ maxva
    → ((i : ℕ) → i < n → IsMappedPage root ((first + i) * 4096) s)
    → (s' : Space) × (uvmunmap_loop n root (first * 4096) do_free s ≡ ok s')
      × IsTree root place s'
      × Unmapped root first n do_free s s'
unfolding uvmunmap_loop
uvmunmap_loop-Unmapped zero root first do_free place s v fits mapped =
    (s, refl, v, Unmapped-zero root first do_free s)
uvmunmap_loop-Unmapped (suc n) root first do_free place s v fits mapped =
    let va = first * 4096 in
    let start : first + 0 ≡ first = omega arith in
    let here : IsMappedPage root va s =
      subst (λ x. IsMappedPage root (x * 4096) s) start (mapped 0 (omega arith)) in
    let valid : pte_v (leaf root va s) ≡ true = here.0 in
    let leaf_flags : pte_flags (leaf root va s) ≢ 1 = here.1 in
    elim (walk_loop-lookup root va s) [
      | inr (_, z) ↦ absurd (false≢true (sym (ap pte_v z) ∙ valid))
      | inl (a, f) ↦
          let w-eq = leaf-Found root va s a f in
          let given : List ℕ = given_now do_free s.freed (pte2pa (s.word a)) in
          let s1 : Space = record s { freed = given } in
          let v1 = given-IsTree root place given s v in
          let f1 = given-Found root va a given s f in
          let s2 = write a 0 s1 in
          let v2 = write-IsTree root va a 0 place s1 v1 f1 in
          let others : (vb : ℕ)
              → vb < maxva
              → vb / 4096 ≢ first
              → leaf root vb s2 ≡ leaf root vb s =
            λ vb hb ne.
              leaf-other root va vb a 0 place s1 v1 f1 (omega arith) hb (omega arith)
              ∙ given-leaf root vb given s in
          let others' : (i : ℕ)
              → i < n
              → leaf root ((first + 1 + i) * 4096) s2 ≡ leaf root ((first + 1 + i) * 4096) s =
            λ i lt. others ((first + 1 + i) * 4096) (omega arith) (omega arith) in
          let (s', e, v', u) =
            uvmunmap_loop-Unmapped n root (first + 1) do_free place s2 v2 (omega arith) λ i lt.
              subst (λ w. (pte_v w ≡ true) × (pte_flags w ≢ 1)) (sym (others' i lt))
                (subst (λ x. IsMappedPage root (x * 4096) s) (omega arith)
                  (mapped (i + 1) (omega arith))) in
          (
            s',
            uvmunmap_loop-step n root va a do_free s (omega arith)
                  (walk_loop-Found false root va a s f) (ap pte_v w-eq ∙ valid)
                  (λ e1. leaf_flags (ap pte_flags (sym w-eq) ∙ e1))
                ∙ ap (λ x. uvmunmap_loop n root x do_free (dropped a do_free s)) (omega arith)
                ∙ ap (λ x. uvmunmap_loop n root ((first + 1) * 4096) do_free (write a 0 x))
                    (given-eq do_free (pte2pa (s.word a)) s)
                ∙ e,
            v',
            record {
              outside = λ vb hb out. u.outside vb hb (omega arith) ∙ others vb hb (omega arith);
              inside = λ vb hb lo hi. elim (Bool-cases (vb / 4096 == first)) [
                | inl same ↦
                    let e1 : vb / 4096 ≡ first = (==_iff (vb / 4096) first).0 same in
                    u.outside vb hb (omega (arith, e1))
                    ∙ leaf-page root vb va s2 (omega (arith, e1))
                    ∙ leaf-write root va a 0 place s1 v1 f1
                | inr ne ↦ u.inside vb hb (ground arith) (omega arith)
              ];
              same_free = u.same_free;
              given_back =
                  u.given_back
                  ∙ ap (λ ps. if do_free then given ++ ps else given)
                      (frames-same root (first + 1) n s s2 others')
                  ∙ given_now-cons do_free s.freed (pte2pa (s.word a)) (frames root (first + 1) n s)
                  ∙ ap
                      (λ w.
                        if do_free
                        then s.freed ++ pte2pa w ∷ frames root (first + 1) n s
                        else s.freed)
                      w-eq;
            },
          )
    ]

-- `uvmunmap` of `npages` pages from a page address `va` on, all below `MAXVA` and mapped, does not panic.
-- It clears the entries of exactly these pages and leaves all other entries, the tables and the free list
-- as they were; with `do_free` `kfree` is called for the frames that the pages were mapped to, each
-- once, in order, and without it for none; what `kfree` then does to a frame is not part of this.
pub uvmunmap-Unmapped :
    (root va npages : ℕ) (do_free : Bool) (place : ℕ → ℕ) (s : Space)
    → IsTree root place s
    → va % 4096 ≡ 0
    → va + npages * 4096 ≤ maxva
    → ((i : ℕ) → i < npages → IsMappedPage root (va + i * 4096) s)
    → (s' : Space) × (uvmunmap root va npages do_free s ≡ ok s')
      × IsTree root place s'
      × Unmapped root (va / 4096) npages do_free s s'
unfolding uvmunmap
uvmunmap-Unmapped root va npages do_free place s v aligned fits mapped =
    let first = va / 4096 in
    let at_va : va ≡ first * 4096 = omega arith in
    let count : rounds va npages ≡ npages = omega arith in
    let on_page : va % pgsize == 0 ≡ true = ground arith in
    let (s', e, v', u) =
      uvmunmap_loop-Unmapped npages root first do_free place s v (omega arith)
        λ i lt. subst (λ x. IsMappedPage root x s) (omega arith) (mapped i lt) in
    (s', rw on_page (ap₂ (λ n a. uvmunmap_loop n root a do_free s) count at_va ∙ e), v', u)

-- `uvmunmap` without `do_free`, of `npages` pages from a page address `va` on, all below `MAXVA` and mapped,
-- does not panic. It clears the entries of exactly these pages and leaves all other entries, the tables and
-- the free list as they were, and it frees no page.
pub uvmunmap-cleared :
    (root va npages : ℕ) (place : ℕ → ℕ) (s : Space)
    → IsTree root place s
    → va % 4096 ≡ 0
    → va + npages * 4096 ≤ maxva
    → ((i : ℕ) → i < npages → IsMappedPage root (va + i * 4096) s)
    → (s' : Space) × (uvmunmap root va npages false s ≡ ok s')
      × IsTree root place s'
      × Unmapped root (va / 4096) npages false s s'
uvmunmap-cleared root va npages place s v aligned fits mapped =
    uvmunmap-Unmapped root va npages false place s v aligned fits mapped
