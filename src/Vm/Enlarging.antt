-- ===== src/Vm/Enlarging.antt =====
-- `uvmalloc` of kernel/vm.c maps all of the pages.
use os_lab.Base.{
  ℕ, zero, suc, ◌+◌, ◌-◌, ◌*◌, ◌/◌, ◌<◌, ◌≤◌, ◌≡◌, inl, inr, refl, sym, ap, subst, ◌∙◌, arith,
  false, ltb, length,
}
use os_lab.Vm.{pgsize}
use os_lab.Vm.Walk.{Space, maxva, pte_v}
use os_lab.Vm.Tree.{IsTree}
use os_lab.Vm.Lookup.{List-cases, head-ne}
use os_lab.Vm.Mapped.{Mapped}
use os_lab.Vm.Pages.{pages, mappages-Mapped}
use os_lab.Vm.Sizes.{pgroundup, user_perm, uvmalloc_loop, page_rounds, uvmalloc}
use os_lab.Vm.Alloc.{with_page, mem_IsPage, with_page-IsTree, with_page-leaf, Grew, IsBlank}
use os_lab.Vm.Grown.{
  Enlarged, uvmalloc_loop-dry, uvmalloc_loop-next, uvmalloc_loop-panic, Grew-suc, Grew-same,
}

uvmalloc_loop-Enlarged :
    (n root first k newsz xperm : ℕ) (place : ℕ → ℕ) (s0 s : Space)
    → IsTree root place s
    → xperm < 1024
    → (first + k + n) * 4096 ≤ maxva
    → Grew root first k s0 s
    → IsBlank root first (k + n) s0
    → Enlarged root first
        (k + n)
        n
        newsz
        s0
        s
        (uvmalloc_loop n root ((first + k) * 4096) (first * 4096) newsz xperm s)
unfolding uvmalloc_loop
uvmalloc_loop-Enlarged zero root first k newsz xperm place s0 s v small fits g blank =
    let e : k ≡ k + 0 = omega arith in
    inl (s, place, refl, v, subst (λ x. Grew root first x s0 s) e g, omega arith)
uvmalloc_loop-Enlarged (suc n) root first k newsz xperm place s0 s v small fits g blank =
    let a = (first + k) * 4096 in
    elim (List-cases s.free) [
      | inl dry ↦ inr (
        uvmalloc_loop-dry n root a (first * 4096) newsz xperm s dry,
        omega (arith, ap length dry),
      )
      | inr (mem, ps, free-eq) ↦
          let s1 = with_page mem ps s in
          let v1 = with_page-IsTree root mem ps place s v free-eq in
          let g1 =
            Grew-same root first k s0 s s1
              (λ vb hb. with_page-leaf root mem ps place s v free-eq vb) g in
          let page = mem_IsPage root mem ps place s v free-eq in
          let ne = head-ne root mem ps place s v free-eq in
          let one_page : pages a pgsize ≡ 1 = omega arith in
          elim (mappages-Mapped root a pgsize mem (user_perm xperm) place s1 v1 (omega arith)
            (omega arith) (omega (arith, page)) (omega arith)
            λ vb lo hi. ap pte_v (
              g1.outside vb (omega arith) (omega arith)
              ∙ blank vb (omega arith) (omega arith) (omega arith))) [
                | inr (e, short) ↦ inr (
                  uvmalloc_loop-panic n root a (first * 4096) newsz xperm mem ps s free-eq ne e,
                  omega (arith, short, one_page, ap length free-eq),
                )
                | inl (s2, place2, e, v2, m, used) ↦
                    let at_page : a / 4096 ≡ first + k = omega arith in
                    let m1 : Mapped root (first + k) 1 mem (user_perm xperm) s1 s2 =
                      subst (λ x. Mapped root x 1 mem (user_perm xperm) s1 s2) at_page
                        (subst (λ x. Mapped root (a / 4096) x mem (user_perm xperm) s1 s2) one_page
                          m) in
                    let k-eq : k + 1 + n ≡ k + suc n = omega arith in
                    let next : (first + (k + 1)) * 4096 ≡ a + pgsize = omega arith in
                    let step : uvmalloc_loop (suc n) root a (first * 4096) newsz xperm s
                        ≡ uvmalloc_loop n root ((first + (k + 1)) * 4096) (first * 4096) newsz xperm
                            s2 =
                      uvmalloc_loop-next n root a (first * 4096) newsz xperm mem ps s s2 free-eq ne
                        e
                      ∙ ap (λ x. uvmalloc_loop n root x (first * 4096) newsz xperm s2) (sym next) in
                    elim (uvmalloc_loop-Enlarged n root first (k + 1) newsz xperm place2 s0 s2 v2
                      small (omega arith)
                      (Grew-suc root first k mem xperm s0 s1 s2 (omega arith) small g1 m1)
                      (λ vb hb lo hi. blank vb hb lo (omega arith))) [
                        | inr (e', short) ↦
                            inr (step ∙ e', omega (arith, short, used, one_page, ap length free-eq))
                        | inl (s', place', e', v', g', used') ↦ inl (
                          s',
                          place',
                          step ∙ e',
                          v',
                          subst (λ x. Grew root first x s0 s') k-eq g',
                          omega (arith, used, used', one_page, ap length free-eq),
                        )
                      ]
              ]
    ]

-- A `uvmalloc` from `oldsz` to `newsz`, not below it and at most `MAXVA`, over pages whose entries are 0,
-- returns `newsz`, or `kalloc` panics in it, and then fewer pages were free than three for each new one. When
-- it returns, each page from the end of the old memory to `newsz` is mapped and open to the user, no entry
-- outside the range has changed, and the tables are a tree. At most three pages of the free list have gone
-- for each new one.
pub uvmalloc-Enlarged :
    (root oldsz newsz xperm : ℕ) (place : ℕ → ℕ) (s : Space)
    → IsTree root place s
    → xperm < 1024
    → oldsz ≤ newsz
    → newsz ≤ maxva
    → IsBlank root ((oldsz + 4095) / 4096) ((newsz + 4095) / 4096 - (oldsz + 4095) / 4096) s
    → Enlarged root
        ((oldsz + 4095) / 4096)
        ((newsz + 4095) / 4096 - (oldsz + 4095) / 4096)
        ((newsz + 4095) / 4096 - (oldsz + 4095) / 4096)
        newsz
        s
        s
        (uvmalloc root oldsz newsz xperm s)
unfolding uvmalloc
uvmalloc-Enlarged root oldsz newsz xperm place s v small le fits blank =
    let first = (oldsz + 4095) / 4096 in
    let n = (newsz + 4095) / 4096 - first in
    let up : ltb newsz oldsz ≡ false = ground arith in
    let round_old : pgroundup oldsz ≡ first * 4096 = omega arith in
    let start : (first + 0) * 4096 ≡ first * 4096 = omega arith in
    let count : page_rounds (first * 4096) newsz ≡ n = omega arith in
    let g : Grew root first 0 s s = record {
      outside = λ vb hb out. refl;
      inside = λ vb hb lo hi. absurd (omega arith);
    } in
    let run =
      uvmalloc_loop-Enlarged n root first 0 newsz xperm place s s v small (omega arith) g
        (λ vb hb lo hi. blank vb hb lo (omega arith)) in
    let n-eq : 0 + n ≡ n = omega arith in
    rw (up, round_old, count)
      (subst
        (λ x.
          Enlarged root first n n newsz s s (uvmalloc_loop n root x (first * 4096) newsz xperm s))
        start
        (subst
          (λ x.
            Enlarged root first x n newsz s s
              (uvmalloc_loop n root ((first + 0) * 4096) (first * 4096) newsz xperm s))
          n-eq run))
