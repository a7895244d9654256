-- ===== src/Base/Scan.antt =====
-- The loop `for (i = from; i < from + n; i++) if (test(i)) return i;` over a table of the kernel.
use Prim.Native.Nat.{ℕ, zero, suc, ◌+◌, ◌≤◌, ◌<◌}
use mathlib.Core.Path.{◌≡◌, sym, ap, ◌∙◌}
use native.Mathlib.Nat.{le_antisymm}
use mathlib.Core.Logic.{◌≢◌, inl, inr}
use mathlib.Core.Bool.{Bool, true, false, ◌&&◌, false≢true}
use mathlib.Core.Option.{Option, none, some}
use native.Mathlib.Omega.{arith}
use os_lab.Base.Tests.{if◌then◌else◌, Bool-cases, Option-cases, ltb, leb, ◌==◌, ==_iff}
use os_lab.Base.Maps.{update, update_self}

unfoldable pub scan : (ℕ → Bool) → ℕ → ℕ → Option ℕ
scan test zero i = none
scan test (suc n) i = let rest = scan test n (i + 1) in if test i then some i else rest

-- What a scan found: the first index that passes.
pub record First (test : ℕ → Bool) (n i j : ℕ) : Type 0 where
  pub passes : test j ≡ true
  pub from : i ≤ j
  pub to : j < i + n
  pub before : (k : ℕ) → i ≤ k → k < j → test k ≡ false

pub scan-First : (test : ℕ → Bool) (n i j : ℕ) → scan test n i ≡ some j → First test n i j
unfolding scan
scan-First test zero i j e = cc
scan-First test (suc n) i j e = elim (Bool-cases (test i)) [
  | inl hit ↦ record {
    passes = ground arith;
    from = ground arith;
    to = ground arith;
    before = λ k lo hi. ground arith;
  }
  | inr miss ↦
      let r = scan-First test n (i + 1) j (rw miss at e) in
      record {
        passes = r.passes;
        from = omega (arith, r.from);
        to = omega (arith, r.to);
        before = λ k lo hi. ground (arith, r.before k);
      }
]

pub scan-none :
    (test : ℕ → Bool) (n i : ℕ)
    → scan test n i ≡ none
    → (k : ℕ) → i ≤ k
    → k < i + n
    → test k ≡ false
unfolding scan
scan-none test zero i e k lo hi = absurd (omega arith)
scan-none test (suc n) i e k lo hi = elim (Bool-cases (test i)) [
  | inl hit ↦ ground arith
  | inr miss ↦ ground (arith, scan-none test n (i + 1) (rw miss at e) k)
]

-- A scan over a range with an index that passes finds one.
pub scan-hit :
    (test : ℕ → Bool) (n i k : ℕ)
    → i ≤ k
    → k < i + n
    → test k ≡ true
    → (j : ℕ) × (scan test n i ≡ some j) × First test n i j
scan-hit test n i k lo hi t = elim (Option-cases (scan test n i)) [
  | inl e ↦ absurd (false≢true (sym (scan-none test n i e k lo hi) ∙ t))
  | inr (j, e) ↦ (j, e, scan-First test n i j e)
]

-- The loop `for (i = from; i < from + n; i++) table[i] = body(i, table[i]);`.
unfoldable pub each {ℓ} : {A : Type ℓ} → (ℕ → A → A) → ℕ → ℕ → (ℕ → A) → ℕ → A
each body zero i table = table
each body (suc n) i table = each body n (i + 1) (update table i (body i (table i)))

pub each-at {ℓ} :
    {A : Type ℓ} (body : ℕ → A → A) (n i : ℕ) (table : ℕ → A) (j : ℕ)
    → each body n i table j ≡ (if leb i j && ltb j (i + n) then body j (table j) else table j)
unfolding each
each-at body zero i table j = ground arith
each-at body (suc n) i table j = elim (Bool-cases (j == i)) [
  | inl e ↦
      let e' : j ≡ i = (==_iff j i).0 e in
      rw e' (
        each-at body n (i + 1) (update table i (body i (table i))) i
        ∙ rw (update_self table i (body i (table i))) (ground arith))
  | inr ne ↦ each-at body n (i + 1) (update table i (body i (table i))) j ∙ rw ne (ground arith)
]

-- A scan stops at the first index that passes.
pub scan-eq :
    (test : ℕ → Bool) (n i j : ℕ)
    → i ≤ j
    → j < i + n
    → test j ≡ true
    → ((k : ℕ) → i ≤ k → k < j → test k ≢ true)
    → scan test n i ≡ some j
scan-eq test n i j lo hi t before =
    let (j', e, r) = scan-hit test n i j lo hi t in
    e
    ∙ ap some (
        le_antisymm (not-lt→le j j' λ h. before-j h r)
          (not-lt→le j' j λ h. before j' r.from h r.passes))
  where
    not-lt→le : (a b : ℕ) → ¬ (a < b) → b ≤ a
    not-lt→le a b h = omega arith

    before-j : {j' : ℕ} → j < j' → First test n i j' → ⊥
    before-j h r = false≢true (sym (r.before j lo h) ∙ t)
