-- ===== src/Strings/Compare.antt =====
-- `strncmp` of kernel/string.c.
use os_lab.Base.{
  ℕ, zero, suc, ◌≡◌, ◌↔◌, refl, arith, some, List, [], ◌∷◌, take, pos, Option-cases, inl, inr,
}
use os_lab.Strings.{strlen, strncmp}
use os_lab.Strings.Copies.{text}

strncmp-to :
    (n : ℕ) (p q : List ℕ) (i j : ℕ)
    → strlen p ≡ some i
    → strlen q ≡ some j
    → strncmp p q n ≡ some (pos 0)
    → take n (text p) ≡ take n (text q)
unfolding strncmp strlen text
strncmp-to zero p q i j hp hq e = refl
strncmp-to (suc n) [] q i j hp hq e = cc
strncmp-to (suc n) (c ∷ p) [] i j hp hq e = cc
strncmp-to (suc n) (c ∷ p) (d ∷ q) i j hp hq e = elim (Option-cases (strlen p)) [
  | inl h ↦ ground (arith, h)
  | inr (i', h) ↦ elim (Option-cases (strlen q)) [
    | inl h' ↦ ground (arith, h, h')
    | inr (j', h') ↦ ground (arith, h, h', strncmp-to n p q i' j')
  ]
]

strncmp-from :
    (n : ℕ) (p q : List ℕ) (i j : ℕ)
    → strlen p ≡ some i
    → strlen q ≡ some j
    → take n (text p) ≡ take n (text q)
    → strncmp p q n ≡ some (pos 0)
unfolding strncmp strlen text
strncmp-from zero p q i j hp hq e = refl
strncmp-from (suc n) [] q i j hp hq e = cc
strncmp-from (suc n) (c ∷ p) [] i j hp hq e = cc
strncmp-from (suc n) (c ∷ p) (d ∷ q) i j hp hq e = elim (Option-cases (strlen p)) [
  | inl h ↦ ground (arith, h)
  | inr (i', h) ↦ elim (Option-cases (strlen q)) [
    | inl h' ↦ ground (arith, h, h')
    | inr (j', h') ↦ ground (arith, h, h', strncmp-from n p q i' j')
  ]
]

-- On terminated strings `strncmp` is 0 exactly when they agree up to the first `n` bytes.
pub strncmp-eq_zero_iff :
    (n : ℕ) (p q : List ℕ) (i j : ℕ)
    → strlen p ≡ some i
    → strlen q ≡ some j
    → (strncmp p q n ≡ some (pos 0)) ↔ (take n (text p) ≡ take n (text q))
strncmp-eq_zero_iff n p q i j hp hq = (strncmp-to n p q i j hp hq, strncmp-from n p q i j hp hq)
