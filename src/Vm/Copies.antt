-- ===== src/Vm/Copies.antt =====
-- `copyin` and `copyout` of kernel/vm.c, byte by byte.
use os_lab.Base.{
  ℕ, zero, suc, ◌+◌, ◌-◌, ◌%◌, ◌^◌, ◌<◌, ◌≤◌, ◌≡◌, ◌≢◌, ◌⊎◌, inl, inr, refl, sym, ap, subst, ◌∙◌,
  arith, true, false, ltb, ◌==◌, ==-ne, ==_iff, Bool-cases, ok,
}
use os_lab.Strings.{Mem, memmove}
use os_lab.Strings.Blocks.{memmove-at, at-eq}
use os_lab.Vm.{pgsize, pgrounddown, chunk, copyin_loop, copyin, physical, IsMapped}

chunk-bounds : (va len : ℕ) → 0 < len → (0 < chunk va len) × (chunk va len ≤ len)
chunk-bounds va len some_left = ground arith

-- The next round starts at the byte behind the chunk.
chunk-next :
    (va len : ℕ)
    → chunk va len < len
    → va + len < 2 ^ 64
    → (pgrounddown va + pgsize) % 2 ^ 64 ≡ va + chunk va len
chunk-next va len more no_wrap = ground arith

-- The bytes of a chunk are on one page.
chunk-page :
    (va len i : ℕ)
    → i < chunk va len
    → (pgrounddown (va + i) ≡ pgrounddown va) × ((va + i) % pgsize ≡ va - pgrounddown va + i)
chunk-page va len i lt = ground arith

move-inside : (dst src n i : ℕ) (m : Mem) → i < n → memmove dst src n m (dst + i) ≡ m (src + i)
move-inside dst src n i m lt =
    ground (arith, memmove-at dst src n m (dst + i), at-eq m (src + (dst + i - dst)) (src + i))

move-outside : (dst src n a : ℕ) (m : Mem) → (a < dst) ⊎ (dst + n ≤ a) → memmove dst src n m a ≡ m a
move-outside dst src n a m out = ground (arith, memmove-at dst src n m a)

-- An address that is none of a block's is before or behind it.
out_of_block : (dst n a : ℕ) → ((j : ℕ) → j < n → a ≢ dst + j) → (a < dst) ⊎ (dst + n ≤ a)
out_of_block dst n a none_of = elim (Bool-cases (ltb a dst)) [
  | inl before ↦ inl (ground arith)
  | inr after ↦ elim (Bool-cases (ltb a (dst + n))) [
    | inl within ↦ absurd (none_of (a - dst) (ground arith) (ground arith))
    | inr behind ↦ inr (ground arith)
  ]
]

module _ (walkaddr : ℕ → ℕ) where
  chunk-physical :
      (va len i : ℕ)
      → i < chunk va len
      → physical walkaddr (va + i) ≡ walkaddr (pgrounddown va) + (va - pgrounddown va) + i
  chunk-physical va len i lt =
      let (page, offset) = chunk-page va len i lt in rw (page, offset) (omega arith)

  mapped_here : (va : ℕ) → IsMapped walkaddr (va + 0) → walkaddr (pgrounddown va) ≢ 0
  mapped_here va h = subst (IsMapped walkaddr) (omega arith) h

  -- A `copyin` that has succeeded
  record CopiedIn (dst srcva len : ℕ) (m m' : Mem) : Type 0 where
    inside : (i : ℕ) → i < len → m' (dst + i) ≡ m (physical walkaddr (srcva + i))
    outside : (a : ℕ) → (a < dst) ⊎ (dst + len ≤ a) → m' a ≡ m a

  copyin_loop-step :
      (fuel dst srcva k : ℕ) (m : Mem)
      → walkaddr (pgrounddown srcva) ≢ 0
      → let n = chunk srcva (suc k) in
        copyin_loop walkaddr (suc fuel) dst srcva (suc k) m
        ≡ copyin_loop walkaddr fuel
            (dst + n)
            ((pgrounddown srcva + pgsize) % 2 ^ 64)
            (suc k - n)
            (memmove dst (walkaddr (pgrounddown srcva) + (srcva - pgrounddown srcva)) n m)
  unfolding copyin_loop
  copyin_loop-step fuel dst srcva k m mapped =
      let more : suc k == 0 ≡ false = ground arith in
      let here : walkaddr (pgrounddown srcva) == 0 ≡ false =
        ==-ne (walkaddr (pgrounddown srcva)) 0 mapped in
      rw (more, here) refl

  copyin_loop-stop :
      (fuel dst srcva k : ℕ) (m : Mem)
      → walkaddr (pgrounddown srcva) ≡ 0
      → copyin_loop walkaddr (suc fuel) dst srcva (suc k) m ≡ ok (false, m)
  unfolding copyin_loop
  copyin_loop-stop fuel dst srcva k m unmapped =
      let more : suc k == 0 ≡ false = ground arith in
      let here : walkaddr (pgrounddown srcva) == 0 ≡ true = ground arith in rw (more, here) refl

  copyin_loop-CopiedIn :
      (fuel dst srcva len : ℕ) (m : Mem)
      → len ≤ fuel
      → srcva + len < 2 ^ 64
      → ((i : ℕ) → i < len → IsMapped walkaddr (srcva + i))
      → ((i j : ℕ) → i < len → j < len → physical walkaddr (srcva + i) ≢ dst + j)
      → (m' : Mem) × (copyin_loop walkaddr fuel dst srcva len m ≡ ok (true, m'))
        × CopiedIn dst srcva len m m'
  unfolding copyin_loop
  copyin_loop-CopiedIn fuel dst srcva zero m enough no_wrap mapped apart =
      (m, done fuel, record { inside = λ i lt. absurd (omega arith); outside = λ a out. refl })
    where
      done : (f : ℕ) → copyin_loop walkaddr f dst srcva 0 m ≡ ok (true, m)
      done zero = refl
      done (suc f) = refl
  copyin_loop-CopiedIn zero dst srcva (suc k) m enough no_wrap mapped apart = absurd (omega arith)
  copyin_loop-CopiedIn (suc fuel) dst srcva (suc k) m enough no_wrap mapped apart =
      let len = suc k in
      let va0 = pgrounddown srcva in
      let n = chunk srcva len in
      let from = walkaddr va0 + (srcva - va0) in
      let m1 = memmove dst from n m in
      let next = (va0 + pgsize) % 2 ^ 64 in
      let (some_bytes, le) = chunk-bounds srcva len (omega arith) in
      let next-eq : n < len → next ≡ srcva + n = λ more. chunk-next srcva len more no_wrap in
      let fits : next + (len - n) < 2 ^ 64 = elim (Bool-cases (ltb n len)) [
        | inl more ↦ omega (arith, next-eq (ground arith), le)
        | inr last ↦ let all : n ≡ len = ground (arith, le) in omega (arith, all)
      ] in
      let place : (i : ℕ) → i < len - n → next + i ≡ srcva + (n + i) =
        λ i lt. omega (arith, next-eq (omega arith)) in
      let (m', e, c) =
        copyin_loop-CopiedIn fuel (dst + n) next (len - n) m1 (omega (arith, some_bytes, le)) fits
          (λ i lt.
            subst (IsMapped walkaddr) (sym (place i lt)) (mapped (n + i) (omega (arith, le))))
          (λ i j lti ltj same.
            apart (n + i) (n + j) (omega (arith, le)) (omega (arith, le))
              (ap (physical walkaddr) (sym (place i lti)) ∙ same ∙ omega arith)) in
      let off : (i : ℕ)
          → i < len
          → let a = physical walkaddr (srcva + i) in (a < dst) ⊎ (dst + n ≤ a) =
        λ i lt.
          out_of_block dst n (physical walkaddr (srcva + i))
            λ j ltj same. apart i j lt (omega (arith, le)) same in
      (
        m',
        copyin_loop-step fuel dst srcva k m (mapped_here srcva (mapped 0 (omega arith))) ∙ e,
        record {
          inside = λ i lt. elim (Bool-cases (ltb i n)) [
            | inl first ↦
                c.outside (dst + i) (ground arith)
                ∙ move-inside dst from n i m (ground arith)
                ∙ ap m (sym (chunk-physical srcva len i (ground arith)))
            | inr later ↦
                let i' : ℕ = i - n in
                let lt' : i' < len - n = ground arith in
                let at_i : n + i' ≡ i = ground arith in
                let there : physical walkaddr (next + i') ≡ physical walkaddr (srcva + i) =
                  ap (physical walkaddr) (place i' lt' ∙ ap (λ k. srcva + k) at_i) in
                at-eq m' (dst + i) (dst + n + i') (omega (arith, at_i))
                ∙ c.inside i' lt'
                ∙ ap m1 there
                ∙ move-outside dst from n (physical walkaddr (srcva + i)) m (off i lt)
          ];
          outside = λ a out.
              c.outside a (omega (arith, le)) ∙ move-outside dst from n a m (omega (arith, le));
        },
      )

  -- A `copyin` from `len` bytes of the process that are all mapped, on pages that the destination is not
  -- on, succeeds; it copies each byte from where the page table puts it, across the pages, and changes no
  -- byte but the destination's.
  pub copyin_lem :
      (dst srcva len : ℕ) (m : Mem)
      → srcva + len < 2 ^ 64
      → ((i : ℕ) → i < len → IsMapped walkaddr (srcva + i))
      → ((i j : ℕ) → i < len → j < len → physical walkaddr (srcva + i) ≢ dst + j)
      → (m' : Mem) × (copyin walkaddr dst srcva len m ≡ ok (true, m'))
        × ((i : ℕ) → i < len → m' (dst + i) ≡ m (physical walkaddr (srcva + i)))
        × ((a : ℕ) → (a < dst) ⊎ (dst + len ≤ a) → m' a ≡ m a)
  unfolding copyin
  copyin_lem dst srcva len m no_wrap mapped apart =
      let (m', e, c) =
        copyin_loop-CopiedIn len dst srcva len m (omega arith) no_wrap mapped apart in
      (m', e, c.inside, c.outside)

  copyin_loop-unmapped :
      (fuel dst srcva len i : ℕ) (m : Mem)
      → len ≤ fuel
      → srcva + len < 2 ^ 64
      → i < len
      → walkaddr (pgrounddown (srcva + i)) ≡ 0
      → (m' : Mem) × (copyin_loop walkaddr fuel dst srcva len m ≡ ok (false, m'))
  copyin_loop-unmapped fuel dst srcva zero i m enough no_wrap lt unmapped = absurd (omega arith)
  copyin_loop-unmapped zero dst srcva (suc k) i m enough no_wrap lt unmapped = absurd (omega arith)
  copyin_loop-unmapped (suc fuel) dst srcva (suc k) i m enough no_wrap lt unmapped =
      elim (Bool-cases (walkaddr (pgrounddown srcva) == 0)) [
        | inl here ↦ (
          m,
          copyin_loop-stop fuel dst srcva k m ((==_iff (walkaddr (pgrounddown srcva)) 0).0 here),
        )
        | inr mapped ↦
            let va0 = pgrounddown srcva in
            let n = chunk srcva (suc k) in
            let mapped' : walkaddr va0 ≢ 0 = λ e. ground arith in
            let (some_bytes, le) = chunk-bounds srcva (suc k) (omega arith) in
            let beyond : n ≤ i = behind_chunk srcva (suc k) i mapped' unmapped in
            let next-eq = chunk-next srcva (suc k) (omega arith) no_wrap in
            let at_i : srcva + i ≡ (va0 + pgsize) % 2 ^ 64 + (i - n) = omega (arith, next-eq) in
            let m1 = memmove dst (walkaddr va0 + (srcva - va0)) n m in
            let (m', e) =
              copyin_loop-unmapped fuel (dst + n) ((va0 + pgsize) % 2 ^ 64) (suc k - n) (i - n) m1
                (omega (arith, some_bytes)) (omega (arith, next-eq, le)) (omega arith)
                (ap (λ a. walkaddr (pgrounddown a)) (sym at_i) ∙ unmapped) in
            (m', copyin_loop-step fuel dst srcva k m mapped' ∙ e)
      ]
    where
      behind_chunk :
          (va len i : ℕ)
          → walkaddr (pgrounddown va) ≢ 0
          → walkaddr (pgrounddown (va + i)) ≡ 0
          → chunk va len ≤ i
      behind_chunk va len i here there = elim (Bool-cases (ltb i (chunk va len))) [
        | inl inside ↦
            let page = (chunk-page va len i (ground arith)).0 in
            absurd (here (ap walkaddr (sym page) ∙ there))
        | inr behind ↦ ground arith
      ]

  -- A `copyin` of a range with a byte that is not mapped returns -1.
  pub copyin-unmapped :
      (dst srcva len i : ℕ) (m : Mem)
      → srcva + len < 2 ^ 64
      → i < len
      → walkaddr (pgrounddown (srcva + i)) ≡ 0
      → (m' : Mem) × (copyin walkaddr dst srcva len m ≡ ok (false, m'))
  unfolding copyin
  copyin-unmapped dst srcva len i m no_wrap lt unmapped =
      copyin_loop-unmapped len dst srcva len i m (omega arith) no_wrap lt unmapped
