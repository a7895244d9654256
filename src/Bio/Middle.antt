-- ===== src/Bio/Middle.antt =====
-- Lists of buffers with one in the middle, for the ring of kernel/bio.c.
use os_lab.Base.{ℕ, suc, ◌≡◌, ◌≢◌, refl, sym, ap, arith, List, [], ◌∷◌, ◌++◌, All, has, length}
use os_lab.Bio.Ring.{Apart, Separate}

pub All-middle {ℓ} :
    (P : ℕ → Type ℓ) (xs : List ℕ) (b : ℕ) (ys : List ℕ)
    → All P (xs ++ b ∷ ys)
    → P b × All P (xs ++ ys)
All-middle P [] b ys h = h
All-middle P (x ∷ xs) b ys (p, h) = let (pb, h') = All-middle P xs b ys h in (pb, (p, h'))

pub Separate-middle :
    (xs : List ℕ) (b : ℕ) (ys : List ℕ)
    → Separate (xs ++ b ∷ ys)
    → Apart b (xs ++ ys) × Separate (xs ++ ys)
Separate-middle [] b ys h = h
Separate-middle (x ∷ xs) b ys (nx, h) =
    let (nb, h') = Separate-middle xs b ys h in
    let (bx, nx') = All-middle (λ y. y ≢ x) xs b ys nx in ((λ e. bx (sym e), nb), (nx', h'))

pub length-middle :
    (xs : List ℕ) (b : ℕ) (ys : List ℕ) → length (xs ++ b ∷ ys) ≡ suc (length (xs ++ ys))
length-middle [] b ys = refl
length-middle (x ∷ xs) b ys = ap suc (length-middle xs b ys)

pub has-middle :
    (a : ℕ) (xs : List ℕ) (b : ℕ) (ys : List ℕ) → has a (xs ++ b ∷ ys) ≡ has a (b ∷ xs ++ ys)
has-middle a [] b ys = refl
has-middle a (x ∷ xs) b ys = ground (arith, has-middle a xs b ys)
