-- ===== src/Vm/Pages.antt =====
-- `mappages` and `walkaddr` of kernel/vm.c against the table of last entries.
use os_lab.Base.{
  ℕ, zero, suc, ◌+◌, ◌-◌, ◌*◌, ◌/◌, ◌%◌, ◌^◌, ◌<◌, ◌≤◌, ◌≡◌, ◌⊎◌, inl, inr, refl, sym, ap, ◌∙◌,
  arith, Bool, true, false, ◌&&◌, leb, ◌==◌, Bool-cases, Option-cases, if◌then◌else◌, none, some,
  Outcome, ok, panic, length, ◌≢◌, false≢true,
}
use os_lab.Vm.{pgsize, pgrounddown}
use os_lab.Vm.Walk.{
  Space, maxva, pte_v, pte_u, pte2pa, leaf_pte, write, walk_loop, walk, walkaddr, mappages_loop,
  mappages,
}
use os_lab.Vm.Tree.{IsTree}
use os_lab.Vm.Lookup.{leaf, leaf-Found, walk_loop-Found, walk_loop-lookup, walk_loop-ends}
use os_lab.Vm.Mapped.{Mapped, mappages_loop-args}
use os_lab.Vm.Mapping.{mappages_loop-Mapped}

-- How many pages the `size` bytes from `va` on touch.
abbrev pub pages : (va size : ℕ) → ℕ
pages va size = (va + size - 1) / 4096 - va / 4096 + 1

mappages-some :
    (root va size pa perm : ℕ) (s : Space)
    → 0 < size
    → mappages root va size pa perm s
      ≡ mappages_loop
          (2 ^ 26 + 1)
          root
          (pgrounddown va)
          (pgrounddown ((va + size + 2 ^ 64 - 1) % 2 ^ 64))
          pa
          perm
          s
unfolding mappages
mappages-some root va size pa perm s some_bytes =
    let nonzero : size == 0 ≡ false = ground arith in rw nonzero refl

-- If the `size > 0` bytes from `va` on lie below `MAXVA`, if none of the pages they touch is mapped, if the
-- physical range does not wrap around and the flags are within their ten bits, then `mappages` returns 0, or
-- `kalloc` panics in it, and then fewer pages were free than two for each page touched. With 0, each page
-- touched is mapped, in order, to the pages from `pa` on with the given flags, the entries of all other pages
-- are as before, and the tables are a tree, with at most two new ones for each page touched, from the free
-- list.
pub mappages-Mapped :
    (root va size pa perm : ℕ) (place : ℕ → ℕ) (s : Space)
    → IsTree root place s
    → 0 < size
    → va + size ≤ maxva
    → pa + pages va size * 4096 ≤ 2 ^ 64
    → perm < 1024
    → ((vb : ℕ)
        → va / 4096 ≤ vb / 4096
        → vb / 4096 ≤ (va + size - 1) / 4096
        → pte_v (leaf root vb s) ≡ false)
    → ((s' : Space) × (place' : ℕ → ℕ) × (mappages root va size pa perm s ≡ ok (true, s'))
        × IsTree root place' s'
        × Mapped root (va / 4096) (pages va size) pa perm s s'
        × (length s.free ≤ length s'.free + 2 * pages va size))
      ⊎ ((mappages root va size pa perm s ≡ panic) × (length s.free < 2 * pages va size))
mappages-Mapped root va size pa perm place s v some_bytes fits room small unmapped =
    let first = va / 4096 in
    let n = (va + size - 1) / 4096 - va / 4096 in
    let start =
      mappages-some root va size pa perm s some_bytes
      ∙ mappages_loop-args (2 ^ 26 + 1) root (pgrounddown va) (first * 4096)
          (pgrounddown ((va + size + 2 ^ 64 - 1) % 2 ^ 64)) ((first + n) * 4096) pa pa perm s
          (omega arith) (omega arith) refl in
    elim (mappages_loop-Mapped (2 ^ 26 + 1) root first n pa perm place s v (omega arith)
      (omega arith) (omega arith)
      λ i lt. unmapped ((first + i) * 4096) (omega arith) (omega arith)) [
        | inl (s', place', e, v', m, used) ↦ inl (s', place', start ∙ e, v', m, used)
        | inr (e, short) ↦ inr (start ∙ e, short)
      ]

walkaddr-found :
    (root va a : ℕ) (s : Space)
    → va < maxva
    → walk_loop false va 2 root s ≡ ok (some a, s)
    → walkaddr root va s
      ≡ ok (if pte_v (s.word a) && pte_u (s.word a) then pte2pa (s.word a) else 0)
unfolding walkaddr walk
walkaddr-found root va a s low e =
    let below : leb maxva va ≡ false = ground arith in
    rw (below, e)
      (elim (Bool-cases (pte_v (s.word a))) [
        | inr invalid ↦ rw invalid refl
        | inl valid ↦ elim (Bool-cases (pte_u (s.word a))) [
          | inr kernel ↦ rw (valid, kernel) refl
          | inl user ↦ rw (valid, user) refl
        ]
      ])

walkaddr-none :
    (root va : ℕ) (s : Space)
    → walk_loop false va 2 root s ≡ ok (none, s)
    → walkaddr root va s ≡ ok 0
unfolding walkaddr walk
walkaddr-none root va s e = elim (Bool-cases (leb maxva va)) [
  | inl high ↦ rw high refl
  | inr low ↦ rw (low, e) refl
]

walkaddr-high : (root va : ℕ) (s : Space) → maxva ≤ va → walkaddr root va s ≡ ok 0
unfolding walkaddr
walkaddr-high root va s high = let above : leb maxva va ≡ true = ground arith in rw above refl

-- `walkaddr` is 0 for an address from `MAXVA` on, and below it is the page in the last entry for the
-- address if that is valid and open to the user, and 0 otherwise.
pub walkaddr-leaf :
    (root va : ℕ) (s : Space)
    → walkaddr root va s
      ≡ ok (
          if leb maxva va
          then 0
          else if pte_v (leaf root va s) && pte_u (leaf root va s)
          then pte2pa (leaf root va s)
          else 0)
walkaddr-leaf root va s = elim (Bool-cases (leb maxva va)) [
  | inl high ↦ rw high (walkaddr-high root va s (ground arith))
  | inr low ↦ rw low (elim (walk_loop-lookup root va s) [
    | inl (a, f) ↦
        walkaddr-found root va a s (ground arith) (walk_loop-Found false root va a s f)
        ∙ ap (λ w. ok (if pte_v w && pte_u w then pte2pa w else 0)) (leaf-Found root va s a f)
    | inr (e, z) ↦
        walkaddr-none root va s e
        ∙ ap (λ w. ok (if pte_v w && pte_u w then pte2pa w else 0)) (sym z)
  ])
]

leaf_pte-pte2pa :
    (pa perm : ℕ)
    → pa % 4096 ≡ 0
    → pa < 2 ^ 64
    → perm < 1024
    → pte_u perm ≡ true
    → (pte_v (leaf_pte pa perm) ≡ true)
      × (pte_u (leaf_pte pa perm) ≡ true)
      × (pte2pa (leaf_pte pa perm) ≡ pa)
leaf_pte-pte2pa pa perm aligned room small user = (ground arith, ground arith, omega arith)

-- After a `mappages` that has returned 0, with a page address `pa` and flags that open the pages to the
-- user, `walkaddr` of each address in the pages touched is the page of the physical range at the same
-- distance.
pub mappages-walkaddr :
    (root va size pa perm : ℕ) (place : ℕ → ℕ) (s s' : Space)
    → IsTree root place s
    → 0 < size
    → va + size ≤ maxva
    → pa + pages va size * 4096 ≤ 2 ^ 64
    → ((vb : ℕ)
        → va / 4096 ≤ vb / 4096
        → vb / 4096 ≤ (va + size - 1) / 4096
        → pte_v (leaf root vb s) ≡ false)
    → pa % 4096 ≡ 0
    → perm < 1024
    → pte_u perm ≡ true
    → mappages root va size pa perm s ≡ ok (true, s')
    → (vb : ℕ) → va / 4096 ≤ vb / 4096
    → vb / 4096 ≤ (va + size - 1) / 4096
    → walkaddr root vb s' ≡ ok (pa + (vb / 4096 - va / 4096) * 4096)
mappages-walkaddr root va size pa perm place s s' v some_bytes fits room unmapped aligned small user
      ran vb lo hi =
    let p = pa + (vb / 4096 - va / 4096) * 4096 in
    elim (mappages-Mapped root va size pa perm place s v some_bytes fits room small unmapped) [
      | inr (e, _) ↦ absurd (panic-≢-ok (true, s') (sym e ∙ ran))
      | inl (s2, place', e, v', m, _) ↦
          let r1 : Bool × Space = (true, s') in
          let r2 : Bool × Space = (true, s2) in
          let s-eq : s' ≡ s2 = ap (λ r. r.1) (ok-inj r1 r2 (sym ran ∙ e)) in
          let low : leb maxva vb ≡ false = ground arith in
          let own : leaf root vb s' ≡ leaf_pte p perm =
            ap (leaf root vb) s-eq ∙ m.inside vb (ground arith) lo (omega arith) in
          let (valid, user_bit, page) =
            leaf_pte-pte2pa p perm (omega arith) (omega arith) small user in
          walkaddr-leaf root vb s' ∙ rw (low, own, valid, user_bit) (ap ok page)
    ]
  where
    ok-inj : (a b : Bool × Space) → ok a ≡ ok b → a ≡ b
    ok-inj a b e = ap (result a) e
      where
        result : Bool × Space → Outcome (Bool × Space) → Bool × Space
        result d (ok r) = r
        result d _ = d

    panic-≢-ok : (r : Bool × Space) → panic ≢ ok r
    panic-≢-ok r e = false≢true (ap returned e)
      where
        returned : Outcome (Bool × Space) → Bool
        returned (ok r) = true
        returned _ = false

mappages_loop-ends :
    (fuel root a last pa perm : ℕ) (s : Space)
    → 0 < fuel
    → maxva + 4096 ≤ a + fuel * 4096
    → ((r : Bool × Space) × (mappages_loop fuel root a last pa perm s ≡ ok r))
      ⊎ (mappages_loop fuel root a last pa perm s ≡ panic)
unfolding mappages_loop walk
mappages_loop-ends zero root a last pa perm s some_left enough = absurd (omega arith)
mappages_loop-ends (suc fuel) root a last pa perm s some_left enough =
    elim (Bool-cases (leb maxva a)) [
      | inl high ↦ inr (rw high refl)
      | inr low ↦ elim (walk_loop-ends a 2 root s) [
        | inr dry ↦ inr (rw (low, dry) refl)
        | inl (r, e) ↦ elim (Option-cases r.0) [
          | inl none_eq ↦ inl ((false, r.1), rw (low, e, none_eq) refl)
          | inr (pte, some_eq) ↦ elim (Bool-cases (pte_v (r.1.word pte))) [
            | inl taken ↦ inr (rw (low, e, some_eq, taken) refl)
            | inr unmapped ↦ elim (Bool-cases (a == last)) [
              | inl only ↦ inl (
                (true, write pte (leaf_pte pa perm) r.1),
                rw (low, e, some_eq, unmapped, only) refl,
              )
              | inr more ↦
                  let rest =
                    mappages_loop-ends fuel root ((a + pgsize) % 2 ^ 64) last
                      ((pa + pgsize) % 2 ^ 64) perm (write pte (leaf_pte pa perm) r.1)
                      (ground arith) (ground arith) in
                  rw (low, e, some_eq, unmapped, more) rest
            ]
          ]
        ]
      ]
    ]

-- Whatever the arguments and the tables are, the loop of `mappages` comes to an end: the call returns, or
-- it panics.
pub mappages-ends :
    (root va size pa perm : ℕ) (s : Space)
    → ((r : Bool × Space) × (mappages root va size pa perm s ≡ ok r))
      ⊎ (mappages root va size pa perm s ≡ panic)
unfolding mappages
mappages-ends root va size pa perm s = elim (Bool-cases (size == 0)) [
  | inl empty ↦ inr (rw empty refl)
  | inr some_bytes ↦
      let rest =
        mappages_loop-ends (2 ^ 26 + 1) root (pgrounddown va)
          (pgrounddown ((va + size + 2 ^ 64 - 1) % 2 ^ 64)) pa perm s (omega arith) (omega arith) in
      rw some_bytes rest
]
