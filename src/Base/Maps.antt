-- ===== src/Base/Maps.antt =====
-- Maps from addresses: memories, tables and disks.
use Prim.Native.Nat.{ℕ}
use mathlib.Core.Path.{◌≡◌}
use mathlib.Core.Logic.{◌≢◌}
use os_lab.Base.Tests.{◌==◌, if◌then◌else◌, ==-self, ==-ne}

module _ {ℓ} {A : Type ℓ} where
  abbrev pub update : (ℕ → A) → ℕ → A → ℕ → A
  update f p v q = if q == p then v else f q

  pub update_self : (f : ℕ → A) (p : ℕ) (v : A) → update f p v p ≡ v
  update_self f p v = rw (==-self p)

  pub update-ne : (f : ℕ → A) (p q : ℕ) (v : A) → q ≢ p → update f p v q ≡ f q
  update-ne f p q v h = rw (==-ne q p h)
