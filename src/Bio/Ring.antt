-- ===== src/Bio/Ring.antt =====
-- The ring of kernel/bio.c as a list of buffers, most recently used first.
pub use os_lab.Base.{Apart, Separate}
use os_lab.Base.{
  ℕ, ◌≡◌, ◌≢◌, sym, subst, ◌∙◌, update, update_self, update-ne, List, [], ◌∷◌, ◌++◌, All, All-imp,
}

-- From `a` to `z` the links lead through `bs`, in both directions.
abbrev pub Links : (next prev : ℕ → ℕ) → (a : ℕ) → List ℕ → (z : ℕ) → Type 0
Links next prev a [] z = (next a ≡ z) × (prev z ≡ a)
Links next prev a (b ∷ bs) z = (next a ≡ b) × (prev b ≡ a) × Links next prev b bs z

-- A change of `next` at `p` and of `prev` at `q` off the way keeps the links.
pub Links-frame :
    (next prev : ℕ → ℕ) (p v q w a : ℕ) (bs : List ℕ) (z : ℕ)
    → Apart p (a ∷ bs)
    → Apart q bs
    → z ≢ q
    → Links next prev a bs z
    → Links (update next p v) (update prev q w) a bs z
Links-frame next prev p v q w a [] z (np, _) nq nz (f, b) =
    (update-ne next p a v np ∙ f, update-ne prev q z w nz ∙ b)
Links-frame next prev p v q w a (b ∷ bs) z (np, nps) (nq, nqs) nz (f, g, l) = (
  update-ne next p a v np ∙ f,
  update-ne prev q b w nq ∙ g,
  Links-frame next prev p v q w b bs z nps nqs nz l,
)

pub Links-split :
    (next prev : ℕ → ℕ) (a : ℕ) (xs : List ℕ) (b : ℕ) (ys : List ℕ) (z : ℕ)
    → Links next prev a (xs ++ b ∷ ys) z
    → Links next prev a xs b × Links next prev b ys z
Links-split next prev a [] b ys z (f, g, l) = ((f, g), l)
Links-split next prev a (x ∷ xs) b ys z (f, g, l) =
    let (l1, l2) = Links-split next prev x xs b ys z l in ((f, g, l1), l2)

pub Links-join :
    (next prev : ℕ → ℕ) (a : ℕ) (xs : List ℕ) (b : ℕ) (ys : List ℕ) (z : ℕ)
    → Links next prev a xs b
    → Links next prev b ys z
    → Links next prev a (xs ++ b ∷ ys) z
Links-join next prev a [] b ys z (f, g) l2 = (f, g, l2)
Links-join next prev a (x ∷ xs) b ys z (f, g, l) l2 = (f, g, Links-join next prev x xs b ys z l l2)

-- What holds of the way holds of the place before its end, and of the place after its start.
Links-last {ℓ} :
    (P : ℕ → Type ℓ) (next prev : ℕ → ℕ) (a : ℕ) (bs : List ℕ) (z : ℕ)
    → Links next prev a bs z
    → P a
    → All P bs
    → P (prev z)
Links-last P next prev a [] z (_, g) pa ps = subst P (sym g) pa
Links-last P next prev a (b ∷ bs) z (_, _, l) pa (pb, ps) = Links-last P next prev b bs z l pb ps

pub Links-first {ℓ} :
    (P : ℕ → Type ℓ) (next prev : ℕ → ℕ) (a : ℕ) (bs : List ℕ) (z : ℕ)
    → Links next prev a bs z
    → All P bs
    → P z
    → P (next a)
Links-first P next prev a [] z (f, _) ps pz = subst P (sym f) pz
Links-first P next prev a (b ∷ bs) z (f, _, _) (pb, ps) pz = subst P (sym f) pb

pub All-append {ℓ} : (P : ℕ → Type ℓ) (xs ys : List ℕ) → All P (xs ++ ys) → All P xs × All P ys
All-append P [] ys h = (tt, h)
All-append P (x ∷ xs) ys (p, h) = let (hx, hy) = All-append P xs ys h in ((p, hx), hy)

-- The ring without the buffer between `xs` and `ys`.
pub Links-unlink :
    (next prev : ℕ → ℕ) (a : ℕ) (xs : List ℕ) (b : ℕ) (ys : List ℕ) (z : ℕ)
    → Links next prev a xs b
    → Links next prev b ys z
    → Separate (xs ++ ys)
    → Apart a (xs ++ ys)
    → Apart z (xs ++ ys)
    → Links (update next (prev b) (next b)) (update prev (next b) (prev b)) a (xs ++ ys) z
Links-unlink next prev a [] b [] z (f, g) (f', g') sep na nz =
    (rw g (update_self next a (next b)) ∙ f', rw f' (update_self prev z (prev b)) ∙ g)
Links-unlink next prev a [] b (y ∷ ys) z (f, g) (f', g', l) (ny, sep) na (zy, nz) = (
  rw g (update_self next a (next b)) ∙ f',
  rw f' (update_self prev y (prev b)) ∙ g,
  Links-frame next prev (prev b) (next b) (next b) (prev b) y ys z
      (subst (λ p. Apart p (y ∷ ys)) (sym g) na) (subst (λ p. Apart p ys) (sym f') ny)
      (λ e. zy (sym f' ∙ sym e)) l,
)
Links-unlink next prev a (x ∷ xs) b ys z (f, g, l) l' (nx, sep) (xa, na) (xz, nz) =
    let before : prev b ≢ a =
      Links-last (λ p. p ≢ a) next prev x xs b l xa (All-append (λ p. p ≢ a) xs ys na).0 in
    let after : next b ≢ x =
      Links-first (λ p. p ≢ x) next prev b ys z l' (All-append (λ p. p ≢ x) xs ys nx).1
        (λ e. xz (sym e)) in
    (
      update-ne next (prev b) a (next b) (λ e. before (sym e)) ∙ f,
      update-ne prev (next b) x (prev b) (λ e. after (sym e)) ∙ g,
      Links-unlink next prev x xs b ys z l l' sep nx nz,
    )

-- What comes after it.
behind :
    (next prev : ℕ → ℕ) (b : ℕ) (order : List ℕ)
    → Links next prev 0 order 0
    → Separate order
    → b ≢ 0
    → Apart 0 order
    → Apart b order
    → Links (update (update next b (next 0)) 0 b) (update (update prev b 0) (next 0) b) b order 0
behind next prev b [] (f, g) sep b0 n0 nb = (
  update-ne (update next b (next 0)) 0 b b b0 ∙ update_self next b (next 0) ∙ f,
  rw f (update_self (update prev b 0) 0 b),
)
behind next prev b (o ∷ os) (f, g, l) (oo, sep) b0 (o0, n0) (ob, nb) =
    let zo : 0 ≢ next 0 = λ e. o0 (sym f ∙ sym e) in
    (
      update-ne (update next b (next 0)) 0 b b b0 ∙ update_self next b (next 0) ∙ f,
      rw f (update_self (update prev b 0) o b),
      Links-frame (update next b (next 0)) (update prev b 0) 0 b (next 0) b o os 0 (o0, n0)
          (subst (λ p. Apart p os) (sym f) oo) zo
          (Links-frame next prev b (next 0) b 0 o os 0 (ob, nb) nb (λ e. b0 (sym e)) l),
    )

-- The ring with buffer `b` put in first.
pub Links-insert :
    (next prev : ℕ → ℕ) (b : ℕ) (order : List ℕ)
    → Links next prev 0 order 0
    → Separate order
    → Apart 0 (b ∷ order)
    → Apart b order
    → Links
        (update (update next b (next 0)) 0 b)
        (update (update prev b 0) (next 0) b)
        0
        (b ∷ order)
        0
Links-insert next prev b order l sep (b0, n0) nb =
    let second : b ≢ next 0 =
      Links-first (λ p. b ≢ p) next prev 0 order 0 l
        (All-imp (λ p. p ≢ b) (λ p. b ≢ p) order (λ p ne e. ne (sym e)) nb) b0 in
    let next1 = update next b (next 0) in
    let prev1 = update prev b 0 in
    (
      update_self next1 0 b,
      update-ne prev1 (next 0) b b second ∙ update_self prev b 0,
      behind next prev b order l sep b0 n0 nb,
    )

-- The same way backwards
abbrev pub backwards : List ℕ → List ℕ
backwards [] = []
backwards (b ∷ bs) = backwards bs ++ b ∷ []

pub Links-backwards :
    (next prev : ℕ → ℕ) (a : ℕ) (bs : List ℕ) (z : ℕ)
    → Links next prev a bs z
    → Links prev next z (backwards bs) a
Links-backwards next prev a [] z (f, g) = (g, f)
Links-backwards next prev a (b ∷ bs) z (f, g, l) =
    Links-join prev next z (backwards bs) b [] a (Links-backwards next prev b bs z l) (g, f)
