-- ===== src/Vm/Mapping.antt =====
-- The loop of `mappages` of kernel/vm.c against the table of last entries.
use os_lab.Base.{
  ℕ, zero, suc, ◌+◌, ◌-◌, ◌*◌, ◌/◌, ◌%◌, ◌^◌, ◌<◌, ◌≤◌, ◌≡◌, ◌≢◌, inl, inr, refl, sym, ap, subst,
  ◌∙◌, arith, true, false, ◌==◌, Bool-cases, ok, panic, length, ◌⊎◌,
}
use os_lab.Vm.{pgsize}
use os_lab.Vm.Walk.{Space, maxva, pte_v, leaf_pte, write, mappages_loop}
use os_lab.Vm.Tree.{IsTree}
use os_lab.Vm.Lookup.{leaf, leaf-Found, walk_loop-Walked}
use os_lab.Vm.Leaf.{write-IsTree, leaf-write}
use os_lab.Vm.Mapped.{
  leaf-other, leaf-Unchanged, Mapped, mappages_loop-panic, mappages_loop-some, mappages_loop-args,
  Mapped-zero, Mapped-suc,
}

pub mappages_loop-Mapped :
    (fuel root first n pa perm : ℕ) (place : ℕ → ℕ) (s : Space)
    → IsTree root place s
    → n < fuel
    → (first + n + 1) * 4096 ≤ maxva
    → pa + (n + 1) * 4096 ≤ 2 ^ 64
    → ((i : ℕ) → i < n + 1 → pte_v (leaf root ((first + i) * 4096) s) ≡ false)
    → ((s' : Space) × (place' : ℕ → ℕ) × (mappages_loop fuel root
            (first * 4096)
            ((first + n) * 4096)
            pa
            perm
            s
          ≡ ok (true, s'))
        × IsTree root place' s'
        × Mapped root first (n + 1) pa perm s s'
        × (length s.free ≤ length s'.free + 2 * (n + 1)))
      ⊎ ((mappages_loop fuel root (first * 4096) ((first + n) * 4096) pa perm s ≡ panic)
          × (length s.free < 2 * (n + 1)))
mappages_loop-Mapped zero root first n pa perm place s v enough fits room unmapped =
    absurd (omega arith)
mappages_loop-Mapped (suc fuel) root first n pa perm place s v enough fits room unmapped =
    let a = first * 4096 in
    let last = (first + n) * 4096 in
    elim (walk_loop-Walked root a place s v) [
      | inr (e, short) ↦
          inr (mappages_loop-panic fuel root a last pa perm s (omega arith) e, omega (arith, short))
      | inl (place1, pte, s1, e, v1, same, f, used) ↦
          let free_here : pte_v (s1.word pte) ≡ false =
            ap pte_v (leaf-Found root a s1 pte f ∙ leaf-Unchanged root a s s1 same)
            ∙ ap (λ x. pte_v (leaf root x s)) (omega arith)
            ∙ unmapped 0 (omega arith) in
          let s2 = write pte (leaf_pte pa perm) s1 in
          let v2 = write-IsTree root a pte (leaf_pte pa perm) place1 s1 v1 f in
          let own = leaf-write root a pte (leaf_pte pa perm) place1 s1 v1 f in
          let others : (vb : ℕ)
              → vb < maxva
              → vb / 4096 ≢ first
              → leaf root vb s2 ≡ leaf root vb s =
            λ vb hb ne.
              leaf-other root a vb pte (leaf_pte pa perm) place1 s1 v1 f (omega arith) hb
                (omega arith)
              ∙ leaf-Unchanged root vb s s1 same in
          let step =
            mappages_loop-some fuel root a last pa perm pte s s1 (omega arith) e free_here in
          elim (Bool-cases (a == last)) [
            | inl only ↦
                let z : 0 ≡ n = ground arith in
                inl (
                  s2,
                  place1,
                  step ∙ rw only refl,
                  v2,
                  subst (λ k. Mapped root first (k + 1) pa perm s s2) z
                      (Mapped-suc root first 0 pa perm s s2 s2 (omega arith) others own
                        (Mapped-zero root (first + 1) (pa + 4096) perm s2)),
                  omega (arith, used, z),
                )
            | inr more ↦
                let m = n - 1 in
                let n-eq : n ≡ m + 1 = ground arith in
                let next : mappages_loop (suc fuel) root a last pa perm s
                    ≡ mappages_loop fuel root ((first + 1) * 4096) ((first + 1 + m) * 4096)
                        (pa + 4096) perm s2 =
                  step
                  ∙ rw more (
                      mappages_loop-args fuel root ((a + pgsize) % 2 ^ 64) ((first + 1) * 4096) last
                        ((first + 1 + m) * 4096) ((pa + pgsize) % 2 ^ 64) (pa + 4096) perm s2
                        (omega arith) (omega (arith, n-eq)) (omega (arith, n-eq))) in
                elim (mappages_loop-Mapped fuel root (first + 1) m (pa + 4096) perm place1 s2 v2
                  (omega (arith, n-eq)) (omega (arith, n-eq)) (omega (arith, n-eq))
                  λ i lt.
                    ap pte_v (others ((first + 1 + i) * 4096) (omega (arith, n-eq)) (omega arith))
                    ∙ ap (λ x. pte_v (leaf root (x * 4096) s)) (omega arith)
                    ∙ unmapped (i + 1) (omega (arith, n-eq))) [
                      | inr (e', short) ↦ inr (next ∙ e', omega (arith, used, short, n-eq))
                      | inl (s', place', e', v', mapped, used') ↦ inl (
                        s',
                        place',
                        next ∙ e',
                        v',
                        subst (λ k. Mapped root first (k + 1) pa perm s s') (sym n-eq)
                            (Mapped-suc root first (m + 1) pa perm s s2 s' (omega arith) others own
                              mapped),
                        omega (arith, used, used', n-eq),
                      )
                    ]
          ]
    ]
