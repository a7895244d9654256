-- ===== src/Fs/Bits.antt =====
-- The bits of a number, for the map of free blocks of kernel/fs.c.
use os_lab.Base.{ℕ, zero, suc, ◌+◌, ◌*◌, ◌/◌, ◌%◌, ◌≡◌, ◌≢◌, refl, ap, ap₂, ◌∙◌, arith, true, false}
use os_lab.Fs.{test_bit, set_bit, clear_bit}

pub test_bit-set_bit : (k x : ℕ) → test_bit k (set_bit k x) ≡ true
unfolding test_bit set_bit
test_bit-set_bit zero x = ground arith
test_bit-set_bit (suc k) x =
    let half : (set_bit k (x / 2) * 2 + x % 2) / 2 ≡ set_bit k (x / 2) = omega arith in
    ap (test_bit k) half ∙ test_bit-set_bit k (x / 2)

pub test_bit-set_bit_ne : (k j x : ℕ) → k ≢ j → test_bit k (set_bit j x) ≡ test_bit k x
unfolding test_bit set_bit
test_bit-set_bit_ne zero zero x ne = absurd (ne refl)
test_bit-set_bit_ne (suc k) zero x ne = ap (test_bit k) (omega arith)
test_bit-set_bit_ne zero (suc j) x ne =
    let low : (set_bit j (x / 2) * 2 + x % 2) % 2 ≡ x % 2 = omega arith in rw low refl
test_bit-set_bit_ne (suc k) (suc j) x ne =
    let half : (set_bit j (x / 2) * 2 + x % 2) / 2 ≡ set_bit j (x / 2) = omega arith in
    ap (test_bit k) half ∙ test_bit-set_bit_ne k j (x / 2) (λ e. ne (ap suc e))

pub test_bit-clear_bit : (k x : ℕ) → test_bit k (clear_bit k x) ≡ false
unfolding test_bit clear_bit
test_bit-clear_bit zero x = ground arith
test_bit-clear_bit (suc k) x =
    let half : (clear_bit k (x / 2) * 2 + x % 2) / 2 ≡ clear_bit k (x / 2) = omega arith in
    ap (test_bit k) half ∙ test_bit-clear_bit k (x / 2)

pub test_bit-clear_bit_ne : (k j x : ℕ) → k ≢ j → test_bit k (clear_bit j x) ≡ test_bit k x
unfolding test_bit clear_bit
test_bit-clear_bit_ne zero zero x ne = absurd (ne refl)
test_bit-clear_bit_ne (suc k) zero x ne = ap (test_bit k) (omega arith)
test_bit-clear_bit_ne zero (suc j) x ne =
    let low : (clear_bit j (x / 2) * 2 + x % 2) % 2 ≡ x % 2 = omega arith in rw low refl
test_bit-clear_bit_ne (suc k) (suc j) x ne =
    let half : (clear_bit j (x / 2) * 2 + x % 2) / 2 ≡ clear_bit j (x / 2) = omega arith in
    ap (test_bit k) half ∙ test_bit-clear_bit_ne k j (x / 2) (λ e. ne (ap suc e))

-- A bit that was clear is cleared again.
pub clear_bit-set_bit : (k x : ℕ) → test_bit k x ≡ false → clear_bit k (set_bit k x) ≡ x
unfolding test_bit set_bit clear_bit
clear_bit-set_bit zero x h = ground arith
clear_bit-set_bit (suc k) x h =
    let half : (set_bit k (x / 2) * 2 + x % 2) / 2 ≡ set_bit k (x / 2) = omega arith in
    let low : (set_bit k (x / 2) * 2 + x % 2) % 2 ≡ x % 2 = omega arith in
    ap₂ (λ a b. clear_bit k a * 2 + b) half low
    ∙ ap (λ a. a * 2 + x % 2) (clear_bit-set_bit k (x / 2) h)
    ∙ omega arith
