-- ===== src/User/Numbers.antt =====
-- Numbers as text: `printint` of user/printf.c and `atoi` of user/ulib.c. An `int` is given by its bits.
use os_lab.Base.{
  ℕ, zero, suc, ◌+◌, ◌-◌, ◌*◌, ◌/◌, ◌%◌, ◌^◌, ◌<◌, ◌≡◌, inl, inr, refl, ap, ◌∙◌, arith, Bool, true,
  false, ◌&&◌, leb, ltb, ◌==◌, Bool-cases, ==_iff, if◌then◌else◌, List, [], ◌∷◌,
}

-- `digits[d]`
abbrev pub digit : ℕ → ℕ
digit d = if ltb d 10 then 48 + d else 55 + d

-- The loop of `printint`, on fuel: `buf` with the latest byte first, as it is then written
unfoldable pub print_loop : (fuel base x : ℕ) → (buf : List ℕ) → List ℕ
print_loop zero base x buf = buf
print_loop (suc fuel) base x buf =
    let rest = print_loop fuel base (x / base) (digit (x % base) ∷ buf) in
    if x / base == 0 then digit (x % base) ∷ buf else rest

-- Each round divides by the base; the numbers printed take 10 of the 16 bytes of `buf` at most.
unfoldable pub printint : (xx base : ℕ) → (sgn : Bool) → List ℕ
printint xx base sgn =
    let neg = sgn && leb (2 ^ 31) xx in
    let x = if neg then 2 ^ 32 - xx else xx in
    if neg then 45 ∷ print_loop (x + 1) base x [] else print_loop (x + 1) base x []

-- The loop of `atoi`
unfoldable pub atoi_loop : (n : ℕ) → (s : List ℕ) → ℕ
atoi_loop n [] = n
atoi_loop n (c ∷ s) =
    let rest = atoi_loop ((n * 10 + (c - 48)) % 2 ^ 32) s in
    if leb 48 c && leb c 57 then rest else n

unfoldable pub atoi : (s : List ℕ) → ℕ
atoi s = atoi_loop 0 s

atoi_loop-digit :
    (n d : ℕ) (s : List ℕ)
    → d < 10
    → n * 10 + d < 2 ^ 32
    → atoi_loop n (digit d ∷ s) ≡ atoi_loop (n * 10 + d) s
unfolding atoi_loop
atoi_loop-digit n d s low fits =
    let decimal : ltb d 10 ≡ true = ground arith in
    let is_digit : (leb 48 (48 + d) && leb (48 + d) 57) ≡ true = ground arith in
    let value : (n * 10 + (48 + d - 48)) % 2 ^ 32 ≡ n * 10 + d = omega arith in
    rw (decimal, is_digit) (ap (λ x. atoi_loop x s) value)

atoi_loop-print_loop :
    (fuel x : ℕ) (s : List ℕ)
    → x < fuel
    → x < 2 ^ 32
    → atoi_loop 0 (print_loop fuel 10 x s) ≡ atoi_loop x s
unfolding print_loop
atoi_loop-print_loop zero x s enough fits = absurd (omega arith)
atoi_loop-print_loop (suc fuel) x s enough fits = elim (Bool-cases (x / 10 == 0)) [
  | inl last ↦
      let z : x / 10 ≡ 0 = (==_iff (x / 10) 0).0 last in
      rw last (
        atoi_loop-digit 0 (x % 10) s (omega arith) (omega arith)
        ∙ ap (λ n. atoi_loop n s) (omega (arith, z)))
  | inr more ↦
      let some_left : 0 < x / 10 = ground arith in
      rw more (
        atoi_loop-print_loop fuel (x / 10) (digit (x % 10) ∷ s) (omega (arith, some_left))
          (omega arith)
        ∙ atoi_loop-digit (x / 10) (x % 10) s (omega arith) (omega arith)
        ∙ ap (λ n. atoi_loop n s) (omega arith))
]

-- `atoi` of the decimal digits that `printint` writes for an `int` that is not negative is that number. For a
-- negative one it stops at the sign and gives 0.
pub atoi-printint :
    (xx : ℕ) → xx < 2 ^ 32 → atoi (printint xx 10 true) ≡ (if ltb xx (2 ^ 31) then xx else 0)
unfolding atoi printint atoi_loop
atoi-printint xx bits = elim (Bool-cases (leb (2 ^ 31) xx)) [
  | inl negative ↦ let beyond : ltb xx (2 ^ 31) ≡ false = ground arith in rw (negative, beyond) refl
  | inr positive ↦
      let within : ltb xx (2 ^ 31) ≡ true = ground arith in
      rw (positive, within) (atoi_loop-print_loop (xx + 1) xx [] (omega arith) bits)
]
