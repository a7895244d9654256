-- ===== src/Strings/Copies.antt =====
-- The string copies of kernel/string.c.
use os_lab.Base.{
  ℕ, zero, suc, ◌-◌, ◌<◌, ◌≤◌, ◌≡◌, refl, ap, arith, ◌==◌, if◌then◌else◌, some, List, [], ◌∷◌,
  length, min, take, drop, replicate, ◌++◌, inl, inr, Option-cases,
}
use os_lab.Strings.{strlen, safestrcpy_loop, safestrcpy, pad, strncpy}

-- The bytes of a string before its terminator.
unfoldable pub text : List ℕ → List ℕ
text [] = []
text (c ∷ s) = if c == 0 then [] else c ∷ text s

pub strlen-text : (s : List ℕ) (n : ℕ) → strlen s ≡ some n → length (text s) ≡ n
unfolding strlen text
strlen-text [] n e = cc
strlen-text (c ∷ s) n e = elim (Option-cases (strlen s)) [
  | inl h ↦ ground (arith, h)
  | inr (k, h) ↦ ground (arith, h, strlen-text s k)
]

safestrcpy_loop-text :
    (n : ℕ) (s t : List ℕ) (k : ℕ)
    → strlen t ≡ some k
    → n < length s
    → (text (safestrcpy_loop n s t) ≡ take n (text t)) × (length (safestrcpy_loop n s t) ≡ length s)
unfolding strlen text safestrcpy_loop
safestrcpy_loop-text zero [] t k e h = absurd (omega arith)
safestrcpy_loop-text zero (d ∷ s) t k e h = (refl, refl)
safestrcpy_loop-text (suc n) [] t k e h = absurd (omega arith)
safestrcpy_loop-text (suc n) (d ∷ s) [] k e h = cc
safestrcpy_loop-text (suc n) (d ∷ []) (c ∷ t) k e h = absurd (omega arith)
safestrcpy_loop-text (suc n) (d ∷ d' ∷ s) (c ∷ t) k e h = elim (Option-cases (strlen t)) [
  | inl h' ↦ ground (arith, h')
  | inr (j, h') ↦ ground (arith, h', safestrcpy_loop-text n (d' ∷ s) t j)
]

safestrcpy_loop-strlen :
    (n : ℕ) (s t : List ℕ) (k : ℕ)
    → strlen t ≡ some k
    → n < length s
    → strlen (safestrcpy_loop n s t) ≡ some (min k n)
unfolding strlen safestrcpy_loop
safestrcpy_loop-strlen zero [] t k e h = absurd (omega arith)
safestrcpy_loop-strlen zero (d ∷ s) t k e h = ap some (omega arith)
safestrcpy_loop-strlen (suc n) [] t k e h = absurd (omega arith)
safestrcpy_loop-strlen (suc n) (d ∷ s) [] k e h = cc
safestrcpy_loop-strlen (suc n) (d ∷ s) (c ∷ t) k e h = elim (Option-cases (strlen t)) [
  | inl h' ↦ ground (arith, h')
  | inr (j, h') ↦ ground (arith, h', safestrcpy_loop-strlen n s t j)
]

-- `safestrcpy(s, t, n)` into a buffer of at least `n > 0` bytes leaves a terminated string: as
-- much of `t` as fits in `n - 1` bytes.
pub safestrcpy_lem :
    (n : ℕ) (s t : List ℕ) (k : ℕ)
    → strlen t ≡ some k
    → 0 < n
    → n ≤ length s
    → (strlen (safestrcpy s t n) ≡ some (min k (n - 1)))
      × (text (safestrcpy s t n) ≡ take (n - 1) (text t))
      × (length (safestrcpy s t n) ≡ length s)
unfolding safestrcpy
safestrcpy_lem zero s t k e pos le = absurd (omega arith)
safestrcpy_lem (suc n) s t k e pos le =
    let n' : suc n - 1 ≡ n = omega arith in
    rw n' (
      safestrcpy_loop-strlen n s t k e le,
      (safestrcpy_loop-text n s t k e le).0,
      (safestrcpy_loop-text n s t k e le).1,
    )

abbrev pub zeros : ℕ → List ℕ
zeros n = replicate n 0

pad-zeros :
    (n : ℕ) (s : List ℕ)
    → n ≤ length s
    → (take n (pad n s) ≡ zeros n) × (drop n (pad n s) ≡ drop n s)
unfolding pad
pad-zeros zero s h = (refl, refl)
pad-zeros (suc n) [] h = absurd (omega arith)
pad-zeros (suc n) (d ∷ s) h = ground (arith, pad-zeros n s)

take-zeros : (n k : ℕ) → n ≤ k → take n (zeros k) ≡ zeros n
take-zeros zero k h = refl
take-zeros (suc n) zero h = absurd (omega arith)
take-zeros (suc n) (suc k) h = ap (λ xs. 0 ∷ xs) (take-zeros n k (omega arith))

strncpy-any :
    (n j : ℕ) (s t : List ℕ) (k : ℕ)
    → n ≤ j
    → strlen t ≡ some k
    → n ≤ length s
    → (take n (strncpy n s t) ≡ take n (text t ++ zeros j)) × (drop n (strncpy n s t) ≡ drop n s)
unfolding strncpy strlen text
strncpy-any zero j s t k le e h = (refl, refl)
strncpy-any (suc n) j [] t k le e h = absurd (omega arith)
strncpy-any (suc n) j (d ∷ s) [] k le e h = cc
strncpy-any (suc n) zero (d ∷ s) (c ∷ t) k le e h = absurd (omega arith)
strncpy-any (suc n) (suc j) (d ∷ s) (c ∷ t) k le e h = elim (Option-cases (strlen t)) [
  | inl h' ↦ ground (arith, h', pad-zeros n s, take-zeros n j)
  | inr (i, h') ↦ ground (arith, h', pad-zeros n s, take-zeros n j, strncpy-any n (suc j) s t i)
]

-- `strncpy(s, t, n)` writes exactly `n` bytes: `t` cut off at `n`, and zeros behind it. With a
-- `t` of `n` bytes or more there is no terminator.
pub strncpy_lem :
    (n : ℕ) (s t : List ℕ) (k : ℕ)
    → strlen t ≡ some k
    → n ≤ length s
    → (take n (strncpy n s t) ≡ take n (text t ++ zeros n)) × (drop n (strncpy n s t) ≡ drop n s)
strncpy_lem n s t k e h = strncpy-any n n s t k (omega arith) e h
