-- ===== src/Pipe/Bytes.antt =====
-- What the ring of kernel/pipe.c holds: a queue of at most 512 bytes.
use os_lab.Base.{
  ℕ, zero, suc, ◌+◌, ◌-◌, ◌%◌, ◌^◌, ◌<◌, ◌≤◌, ◌≡◌, ◌≢◌, refl, ap, ap₂, ◌∙◌, arith, update,
  update_self, update-ne, List, [], ◌∷◌, ◌++◌, length,
}
use os_lab.Pipe.{Pipe, pipesize, put_byte, get_byte}

-- The `n` bytes of the ring from counter `r` on.
abbrev pub window : (ℕ → ℕ) → ℕ → ℕ → List ℕ
window bytes r zero = []
window bytes r (suc n) = bytes (r % pipesize) ∷ window bytes (r + 1) n

abbrev pub used : Pipe → ℕ
used p = (p.nwrite + 2 ^ 32 - p.nread) % 2 ^ 32

abbrev pub contents : Pipe → List ℕ
contents p = window p.bytes p.nread (used p)

pub record IsValid (p : Pipe) : Type 0 where
  pub read_in : p.nread < 2 ^ 32
  pub write_in : p.nwrite < 2 ^ 32
  pub fits : used p ≤ pipesize

length-window : (bytes : ℕ → ℕ) (r n : ℕ) → length (window bytes r n) ≡ n
length-window bytes r zero = refl
length-window bytes r (suc n) = ap suc (length-window bytes (r + 1) n)

pub length-contents : (p : Pipe) → length (contents p) ≡ used p
length-contents p = length-window p.bytes p.nread (used p)

-- The counters matter up to the size of the ring.
window-mod :
    (bytes : ℕ → ℕ) (r s n : ℕ) → r % pipesize ≡ s % pipesize → window bytes r n ≡ window bytes s n
window-mod bytes r s zero e = refl
window-mod bytes r s (suc n) e =
    ap₂ ◌∷◌ (ap bytes e) (window-mod bytes (r + 1) (s + 1) n (omega arith))

window-update :
    (bytes : ℕ → ℕ) (x r n w : ℕ)
    → ((k : ℕ) → k < n → (r + k) % pipesize ≢ w)
    → window (update bytes w x) r n ≡ window bytes r n
window-update bytes x r zero w apart = refl
window-update bytes x r (suc n) w apart =
    ap₂ ◌∷◌ (update-ne bytes w (r % pipesize) x λ e. apart 0 (omega arith) (omega arith))
      (window-update bytes x (r + 1) n w λ k lt e. apart (suc k) (omega arith) (omega arith))

-- A byte written behind `n` others comes last.
window-put :
    (bytes : ℕ → ℕ) (x r n w : ℕ)
    → n < pipesize
    → w ≡ (r + n) % pipesize
    → window (update bytes w x) r (suc n) ≡ window bytes r n ++ (x ∷ [])
window-put bytes x r zero w lt e =
    let here : r % pipesize ≡ w = omega arith in rw (here, update_self bytes w x)
window-put bytes x r (suc n) w lt e =
    ap₂ ◌∷◌ (update-ne bytes w (r % pipesize) x (omega arith))
      (window-put bytes x (r + 1) n w (omega arith) (omega arith))

pub put_byte-contents :
    (x : ℕ) (p : Pipe)
    → IsValid p
    → used p < pipesize
    → IsValid (put_byte x p) × (contents (put_byte x p) ≡ contents p ++ (x ∷ []))
unfolding put_byte
put_byte-contents x p v lt =
    let more : used (put_byte x p) ≡ suc (used p) = omega arith in
    (
      record { read_in = v.read_in; write_in = omega arith; fits = omega (arith, more) },
      ap (window (put_byte x p).bytes p.nread) more
          ∙ window-put p.bytes x p.nread (used p) (p.nwrite % pipesize) lt (omega arith),
    )

pub get_byte-contents :
    (p : Pipe)
    → IsValid p
    → 0 < used p
    → let (ch, p') = get_byte p in IsValid p' × (contents p ≡ ch ∷ contents p')
unfolding get_byte
get_byte-contents p v lt =
    let p' : Pipe = record p { nread = (p.nread + 1) % 2 ^ 32 } in
    let fewer : used p ≡ suc (used p') = omega arith in
    (
      record { read_in = omega arith; write_in = v.write_in; fits = omega (arith, fewer) },
      ap (window p.bytes p.nread) fewer
          ∙ ap (λ w. p.bytes (p.nread % pipesize) ∷ w)
              (window-mod p.bytes (p.nread + 1) p'.nread (used p') (omega arith)),
    )

pub used-put_byte :
    (x : ℕ) (p : Pipe) → IsValid p → used p < pipesize → used (put_byte x p) ≡ suc (used p)
unfolding put_byte
used-put_byte x p v lt = omega arith

pub used-get_byte : (p : Pipe) → IsValid p → 0 < used p → used p ≡ suc (used (get_byte p).1)
unfolding get_byte
used-get_byte p v lt = omega arith

pub readopen-put_byte : (x : ℕ) (p : Pipe) → (put_byte x p).readopen ≡ p.readopen
unfolding put_byte
readopen-put_byte x p = refl
