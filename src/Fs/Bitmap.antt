-- ===== src/Fs/Bitmap.antt =====
-- `balloc` and `bfree` of kernel/fs.c on the map of free blocks.
use os_lab.Base.{
  ℕ, zero, suc, ◌+◌, ◌-◌, ◌*◌, ◌/◌, ◌%◌, ◌<◌, ◌≤◌, ◌≡◌, ◌≢◌, ◌⊎◌, inl, inr, refl, sym, ap, ap₂,
  subst, ◌∙◌, arith, true, false, false≢true, not, ltb, ◌==◌, Bool-cases, Option-cases, ==_iff, min,
  update_self, update-ne, scan, scan-First, scan-none, ok, panic,
}
use os_lab.Fs.{bpb, Superblock, Fs, log_write, bblock}
use os_lab.Fs.Blocks.{bzero, is_free, mark, unmark, balloc_loop, balloc, bfree}
use os_lab.Fs.Marks.{is_used, IsMap, unmark_self, unmark-other}
use os_lab.Fs.Taken.{Taken, after_mark, balloc_loop-some, balloc_loop-none, done-Taken}

balloc_loop-Taken :
    (n k : ℕ) (sb : Superblock) (fs : Fs)
    → IsMap sb fs
    → sb.size ≤ (k + n) * bpb
    → ((b : ℕ) × (fs' : Fs) × (balloc_loop n (k * bpb) sb fs ≡ (b, fs')) × Taken sb b fs fs')
      ⊎ ((balloc_loop n (k * bpb) sb fs ≡ (0, fs))
          × ((c : ℕ) → k * bpb ≤ c → c < sb.size → is_used c sb fs ≡ true))
unfolding balloc_loop
balloc_loop-Taken zero k sb fs v covers = inr (refl, λ c lo hi. absurd (omega arith))
balloc_loop-Taken (suc n) k sb fs v covers =
    let b = k * bpb in
    let map_here = fs.block (bblock b sb) in
    elim (Option-cases (scan (is_free map_here) (min bpb (sb.size - b)) 0)) [
      | inr (bi, e) ↦
          let r = scan-First (is_free map_here) (min bpb (sb.size - b)) 0 bi e in
          let small : bi < min bpb (sb.size - b) = omega (arith, r.to) in
          let here : bblock (b + bi) sb ≡ bblock b sb = omega (arith, small) in
          let at_bi : (b + bi) % bpb ≡ bi = omega (arith, small) in
          let free : is_used (b + bi) sb fs ≡ false =
            ap₂ (λ m i. not (is_free (fs.block m) i)) here at_bi ∙ ap not r.passes in
          let same : after_mark b bi sb fs
              ≡ bzero (b + bi) (
                  log_write (bblock (b + bi) sb)
                    (mark (fs.block (bblock (b + bi) sb)) ((b + bi) % bpb)) fs) =
            ap₂ (λ m i. bzero (b + bi) (log_write m (mark (fs.block m) i) fs)) (sym here)
              (sym at_bi) in
          inl (
            b + bi,
            after_mark b bi sb fs,
            balloc_loop-some n b bi sb fs e,
            subst (Taken sb (b + bi) fs) (sym same)
                (done-Taken sb fs v (b + bi) (omega (arith, small)) free),
          )
      | inl e ↦
          let next : b + bpb ≡ (k + 1) * bpb = omega arith in
          let step = balloc_loop-none n b sb fs e ∙ ap (λ x. balloc_loop n x sb fs) next in
          let none_here : (c : ℕ) → b ≤ c → c < b + bpb → c < sb.size → is_used c sb fs ≡ true =
            λ c lo hi inside.
              let here : bblock c sb ≡ bblock b sb = omega arith in
              let miss =
                scan-none (is_free map_here) (min bpb (sb.size - b)) 0 e (c % bpb) (omega arith)
                  (omega arith) in
              ap (λ m. not (is_free (fs.block m) (c % bpb))) here ∙ ap not miss in
          elim (balloc_loop-Taken n (k + 1) sb fs v (omega arith)) [
            | inl (c, fs', e', t) ↦ inl (c, fs', step ∙ e', t)
            | inr (e', used) ↦ inr (
              step ∙ e',
              λ c lo hi. elim (Bool-cases (ltb c (b + bpb))) [
                | inl near ↦ none_here c lo (ground arith) hi
                | inr far ↦ used c (ground arith) hi
              ],
            )
          ]
    ]

-- Where the map says that the boot block and its own blocks are in use, `balloc` gives a block of the disk
-- that the map said was free, and never 0 or a block of the map: it is now marked, all other marks are as
-- before, it is zeroed, and no block but it and its part of the map is touched. If it gives 0, then no block
-- was free, and nothing has changed.
pub balloc-Taken :
    (sb : Superblock) (fs : Fs)
    → IsMap sb fs
    → ((b : ℕ) × (fs' : Fs) × (balloc sb fs ≡ (b, fs')) × Taken sb b fs fs')
      ⊎ ((balloc sb fs ≡ (0, fs)) × ((c : ℕ) → c < sb.size → is_used c sb fs ≡ true))
unfolding balloc
balloc-Taken sb fs v =
    elim (balloc_loop-Taken ((sb.size + (bpb - 1)) / bpb) 0 sb fs v (omega arith)) [
      | inl found ↦ inl found
      | inr (e, used) ↦ inr (e, λ c hi. used c (omega arith) hi)
    ]

bfree-ok :
    (b : ℕ) (sb : Superblock) (fs : Fs)
    → is_used b sb fs ≡ true
    → bfree b sb fs ≡ ok (log_write (bblock b sb) (unmark (fs.block (bblock b sb)) (b % bpb)) fs)
unfolding bfree
bfree-ok b sb fs used =
    let taken : is_free (fs.block (bblock b sb)) (b % bpb) ≡ false = ground arith in
    rw (bfree, taken) refl

-- `bfree` of a block that the map says is free panics; of any other it clears the block's mark and no other,
-- and touches no block but that part of the map.
pub bfree_lem :
    (b : ℕ) (sb : Superblock) (fs : Fs)
    → ((is_used b sb fs ≡ false) × (bfree b sb fs ≡ panic))
      ⊎ ((is_used b sb fs ≡ true)
          × ((fs' : Fs) × (bfree b sb fs ≡ ok fs')
              × (is_used b sb fs' ≡ false)
              × ((c : ℕ) → c ≢ b → is_used c sb fs' ≡ is_used c sb fs)
              × ((c : ℕ) → c ≢ bblock b sb → fs'.block c ≡ fs.block c)))
unfolding bfree
bfree_lem b sb fs = elim (Bool-cases (is_used b sb fs)) [
  | inr free ↦
      let open_here : is_free (fs.block (bblock b sb)) (b % bpb) ≡ true = ground arith in
      inl (free, rw (bfree, open_here) refl)
  | inl used ↦
      let mb = bblock b sb in
      let new_map = unmark (fs.block mb) (b % bpb) in
      inr (
        used,
        (
          log_write mb new_map fs,
          bfree-ok b sb fs used,
          ap (λ m. not (is_free m (b % bpb))) (update_self fs.block mb new_map)
              ∙ ap not (unmark_self (fs.block mb) (b % bpb)),
          (λ c ne. elim (Bool-cases (bblock c sb == mb)) [
            | inr away ↦ rw away refl
            | inl near ↦
                let e : bblock c sb ≡ mb = (==_iff (bblock c sb) mb).0 near in
                rw near (
                  ap not (unmark-other (fs.block mb) (b % bpb) (c % bpb) (omega (arith, e, ne)))
                  ∙ ap (λ x. not (is_free (fs.block x) (c % bpb))) (sym e))
          ]),
          λ c ne. update-ne fs.block mb c new_map ne,
        ),
      )
]

Taken-freed :
    (b : ℕ) (sb : Superblock) (fs fs' : Fs)
    → Taken sb b fs fs'
    → (fs'' : Fs) × (bfree b sb fs' ≡ ok fs'')
      × ((c : ℕ) → c < sb.size → is_used c sb fs'' ≡ is_used c sb fs)
Taken-freed b sb fs fs' t = elim (bfree_lem b sb fs') [
  | inl (free, _) ↦ absurd (false≢true (sym free ∙ t.now_used))
  | inr (_, (fs'', e, clear, others, _)) ↦ (
    fs'',
    e,
    λ c hc. elim (Bool-cases (c == b)) [
      | inl same ↦
          let c-eq : c ≡ b = (==_iff c b).0 same in
          ap (λ x. is_used x sb fs'') c-eq
          ∙ clear
          ∙ sym t.was_free
          ∙ ap (λ x. is_used x sb fs) (sym c-eq)
      | inr ne ↦ let other : c ≢ b = ground arith in others c other ∙ t.others c hc other
    ],
  )
]

-- A block that `balloc` has given can be freed again, and then every mark is as it was before.
pub bfree-balloc :
    (b : ℕ) (sb : Superblock) (fs fs' : Fs)
    → IsMap sb fs
    → balloc sb fs ≡ (b, fs')
    → b ≢ 0
    → (fs'' : Fs) × (bfree b sb fs' ≡ ok fs'')
      × ((c : ℕ) → c < sb.size → is_used c sb fs'' ≡ is_used c sb fs)
bfree-balloc b sb fs fs' v e ne = elim (balloc-Taken sb fs v) [
  | inr (e', _) ↦ absurd (ne (ap (λ r. r.0) (sym e ∙ e')))
  | inl (c, fs1, e', t) ↦
      let same = sym e' ∙ e in
      Taken-freed b sb fs fs' (
        subst (λ x. Taken sb b fs x) (ap (λ r. r.1) same)
          (subst (λ x. Taken sb x fs fs1) (ap (λ r. r.0) same) t))
]
