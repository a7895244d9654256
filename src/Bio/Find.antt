-- ===== src/Bio/Find.antt =====
-- The loops of `bget` of kernel/bio.c: the first buffer of the ring that passes a test, from either
-- end.
use os_lab.Base.{
  ℕ, zero, suc, ◌<◌, ◌≡◌, inl, inr, refl, sym, ap, ◌∙◌, arith, Bool, true, false, false≢true, ◌==◌,
  ◌||◌, ==-ne, Bool-cases, if◌then◌else◌, Option, none, some, List, [], ◌∷◌, ◌++◌, has, length,
  length-append, ok,
}
use os_lab.Bio.{find}
use os_lab.Bio.Ring.{Links, Apart, backwards}

abbrev pub first_of : (ℕ → Bool) → List ℕ → Option ℕ
first_of test [] = none
first_of test (b ∷ bs) = if test b then some b else first_of test bs

pub find-Links :
    (link other : ℕ → ℕ) (test : ℕ → Bool) (a : ℕ) (bs : List ℕ) (fuel : ℕ)
    → Links link other a bs 0
    → Apart 0 bs
    → length bs < fuel
    → find link test fuel (link a) ≡ ok (first_of test bs)
unfolding find
find-Links link other test a bs zero l apart enough = absurd (omega arith)
find-Links link other test a [] (suc fuel) (f, g) apart enough = rw f refl
find-Links link other test a (b ∷ bs) (suc fuel) (f, g, l) (b0, apart) enough =
    let rest = find-Links link other test b bs fuel l apart (omega arith) in
    rw (f, ==-ne b 0 b0, rest) (if_ok (test b))
  where
    if_ok :
        (t : Bool)
        → (if t then ok (some b) else ok (first_of test bs))
          ≡ ok (if t then some b else first_of test bs)
    if_ok true = refl
    if_ok false = refl

pub first_of-some :
    (test : ℕ → Bool) (bs : List ℕ) (b : ℕ)
    → first_of test bs ≡ some b
    → (test b ≡ true) × (has b bs ≡ true)
first_of-some test [] b e = cc
first_of-some test (x ∷ xs) b e = elim (Bool-cases (test x)) [
  | inl hit ↦
      let e' : some x ≡ some b = rw hit at e in
      let same : x ≡ b = cc in (ap test (sym same) ∙ hit, ground arith)
  | inr miss ↦ let (t, h) = first_of-some test xs b (rw miss at e) in (t, ground arith)
]

pub first_of-none :
    (test : ℕ → Bool) (bs : List ℕ)
    → first_of test bs ≡ none
    → (b : ℕ) → has b bs ≡ true
    → test b ≡ false
first_of-none test [] e b h = absurd (false≢true h)
first_of-none test (x ∷ xs) e b h = elim (Bool-cases (test x)) [
  | inl hit ↦ let e' : some x ≡ none = rw hit at e in cc
  | inr miss ↦ elim (Bool-cases (b == x)) [
    | inl same ↦ let same' : x ≡ b = ground arith in ap test (sym same') ∙ miss
    | inr ne ↦ first_of-none test xs (rw miss at e) b (rw ne at h)
  ]
]

pub has-append : (b : ℕ) (xs ys : List ℕ) → has b (xs ++ ys) ≡ has b xs || has b ys
has-append b [] ys = refl
has-append b (x ∷ xs) ys = ground (arith, has-append b xs ys)

pub has-backwards : (b : ℕ) (bs : List ℕ) → has b (backwards bs) ≡ has b bs
has-backwards b [] = refl
has-backwards b (x ∷ xs) = has-append b (backwards xs) (x ∷ []) ∙ ground (arith, has-backwards b xs)

pub length-backwards : (bs : List ℕ) → length (backwards bs) ≡ length bs
length-backwards [] = refl
length-backwards (x ∷ xs) =
    length-append (backwards xs) (x ∷ []) ∙ omega (arith, length-backwards xs)

pub backwards-Apart : (p : ℕ) (bs : List ℕ) → Apart p bs → Apart p (backwards bs)
backwards-Apart p [] h = tt
backwards-Apart p (x ∷ xs) (n, h) = Apart-snoc (backwards xs) (backwards-Apart p xs h)
  where
    Apart-snoc : (ys : List ℕ) → Apart p ys → Apart p (ys ++ x ∷ [])
    Apart-snoc [] a = (n, tt)
    Apart-snoc (y ∷ ys) (m, a) = (m, Apart-snoc ys a)
