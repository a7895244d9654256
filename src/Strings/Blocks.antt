-- ===== src/Strings/Blocks.antt =====
-- `memset`, `memmove` and `memcmp` of kernel/string.c, byte by byte.
use os_lab.Base.{
  ℕ, zero, suc, ◌+◌, ◌-◌, ◌%◌, ◌<◌, ◌≤◌, ◌≡◌, refl, ap, ◌∙◌, ◌↔◌, ◌⊎◌, inl, inr, Bool, ◌&&◌, arith,
  ltb, leb, if◌then◌else◌, update, pos,
}
use os_lab.Strings.{Mem, memset_loop, memset, copy_up, copy_down, memmove, memcmp}

-- `a` is one of the `n` addresses from `d` on.
abbrev pub within : ℕ → ℕ → ℕ → Bool
within d n a = leb d a && ltb a (d + n)

memset_loop-at :
    (n d c : ℕ) (m : Mem) (a : ℕ) → memset_loop n d c m a ≡ (if within d n a then c else m a)
unfolding memset_loop
memset_loop-at zero d c m a = ground arith
memset_loop-at (suc n) d c m a = ground (arith, memset_loop-at n (d + 1) c (update m d c) a)

-- `memset` sets each of the `n` bytes from `dst` on to the low byte of `c`, and no other byte.
pub memset-at :
    (dst c n : ℕ) (m : Mem) (a : ℕ) → memset dst c n m a ≡ (if within dst n a then c % 256 else m a)
unfolding memset
memset-at dst c n m a = memset_loop-at n dst (c % 256) m a

-- A read at two addresses that are equal as numbers.
pub at-eq : (m : Mem) (a b : ℕ) → a ≡ b → m a ≡ m b
at-eq m a b e = ap m e

copy_up-at :
    (n d s : ℕ) (m : Mem) (a : ℕ)
    → (d ≤ s) ⊎ (s + n ≤ d)
    → copy_up n d s m a ≡ (if within d n a then m (s + (a - d)) else m a)
unfolding copy_up
copy_up-at zero d s m a h = ground arith
copy_up-at (suc n) d s m a h = ground (
  arith,
  copy_up-at n (d + 1) (s + 1) (update m d (m s)) a (shift h),
  at-eq m (s + 1 + (a - (d + 1))) (s + (a - d)),
  at-eq m (s + (a - d)) s,
)
  where
    shift : (d ≤ s) ⊎ (s + suc n ≤ d) → (d + 1 ≤ s + 1) ⊎ (s + 1 + n ≤ d + 1)
    shift (inl e) = inl (omega arith)
    shift (inr e) = inr (omega arith)

copy_down-at :
    (n d s : ℕ) (m : Mem) (a : ℕ)
    → s < d
    → n ≤ s
    → copy_down n d s m a ≡ (if within (d - n) n a then m (a - (d - s)) else m a)
unfolding copy_down
copy_down-at zero d s m a h k = ground arith
copy_down-at (suc n) d s m a h k = ground (
  arith,
  copy_down-at n (d - 1) (s - 1) (update m (d - 1) (m (s - 1))) a (omega arith) (omega arith),
  at-eq m (a - (d - 1 - (s - 1))) (a - (d - s)),
  at-eq m (a - (d - s)) (s - 1),
)

-- `memmove` copies the `n` bytes that stood at `src` to `dst`, however the two blocks overlap,
-- and changes no other byte.
pub memmove-at :
    (dst src n : ℕ) (m : Mem) (a : ℕ)
    → memmove dst src n m a ≡ (if within dst n a then m (src + (a - dst)) else m a)
unfolding memmove
memmove-at dst src n m a = ground (
  arith,
  copy_up-at n dst src m a,
  copy_down-at n (dst + n) (src + n) m a,
  at-eq m (a - (dst + n - (src + n))) (src + (a - dst)),
)

memcmp-suc :
    (s1 s2 n : ℕ) (m : Mem)
    → memcmp s1 s2 (suc n) m ≡ pos 0
    → (m s1 ≡ m s2) × (memcmp (s1 + 1) (s2 + 1) n m ≡ pos 0)
unfolding memcmp
memcmp-suc s1 s2 n m e = ground arith

memcmp-to :
    (s1 s2 n : ℕ) (m : Mem) → memcmp s1 s2 n m ≡ pos 0 → (i : ℕ) → i < n → m (s1 + i) ≡ m (s2 + i)
memcmp-to s1 s2 zero m e i h = absurd (omega arith)
memcmp-to s1 s2 (suc n) m e zero h =
    at-eq m (s1 + 0) s1 (omega arith)
    ∙ (memcmp-suc s1 s2 n m e).0
    ∙ at-eq m s2 (s2 + 0) (omega arith)
memcmp-to s1 s2 (suc n) m e (suc i) h =
    at-eq m (s1 + suc i) (s1 + 1 + i) (omega arith)
    ∙ memcmp-to (s1 + 1) (s2 + 1) n m (memcmp-suc s1 s2 n m e).1 i (omega arith)
    ∙ at-eq m (s2 + 1 + i) (s2 + suc i) (omega arith)

memcmp-from :
    (s1 s2 n : ℕ) (m : Mem) → ((i : ℕ) → i < n → m (s1 + i) ≡ m (s2 + i)) → memcmp s1 s2 n m ≡ pos 0
unfolding memcmp
memcmp-from s1 s2 zero m h = refl
memcmp-from s1 s2 (suc n) m h = ground (
  arith,
  memcmp-from (s1 + 1) (s2 + 1) n m λ i lt.
      at-eq m (s1 + 1 + i) (s1 + suc i) (omega arith)
      ∙ h (suc i) (omega arith)
      ∙ at-eq m (s2 + suc i) (s2 + 1 + i) (omega arith),
  h 0,
  at-eq m (s1 + 0) s1,
  at-eq m (s2 + 0) s2,
)

-- `memcmp` is 0 exactly when the two blocks hold the same bytes.
pub memcmp-eq_zero_iff :
    (s1 s2 n : ℕ) (m : Mem)
    → (memcmp s1 s2 n m ≡ pos 0) ↔ ((i : ℕ) → i < n → m (s1 + i) ≡ m (s2 + i))
memcmp-eq_zero_iff s1 s2 n m = (memcmp-to s1 s2 n m, memcmp-from s1 s2 n m)
