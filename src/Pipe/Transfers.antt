-- ===== src/Pipe/Transfers.antt =====
-- `pipewrite` and `piperead` of kernel/pipe.c, against a queue of 512 bytes.
use os_lab.Base.{
  ℕ, zero, suc, ◌+◌, ◌-◌, ◌<◌, ◌≡◌, ◌⊎◌, refl, sym, ap, ◌∙◌, Bool, true, false, ◌&&◌, arith, leb,
  ◌==◌, if◌then◌else◌, Option, some, List, [], ◌∷◌, ◌++◌, length, take, drop, min, ℤ, pos,
  minus_one, Bool-cases, inl, inr, subst,
}
use mathlib.Core.List.{append-nil, append_assoc}
use os_lab.Pipe.{
  Pipe, pipesize, full, put_byte, get_byte, Run, returned, asleep, pipewrite, piperead_loop,
  piperead,
}
use os_lab.Pipe.Bytes.{
  used, contents, IsValid, put_byte-contents, get_byte-contents, used-put_byte, used-get_byte,
  readopen-put_byte,
}

-- The bytes `i` to `i + n` of the caller's buffer.
unfoldable pub slice : (ℕ → ℕ) → ℕ → ℕ → List ℕ
slice src i zero = []
slice src i (suc n) = src i ∷ slice src (i + 1) n

pub full-used : (p : Pipe) → IsValid p → full p ≡ (used p == pipesize)
full-used p v = ground arith

-- The end of a write of `m` bytes to a pipe with room for `k` of them at most.
record Wrote (src : ℕ → ℕ) (m i : ℕ) (p : Pipe) (k : ℕ) (r : Run ℤ × Pipe) : Type 0 where
  valid : IsValid r.1
  bytes : contents r.1 ≡ contents p ++ slice src i k
  result : r.0 ≡ (if leb m (pipesize - used p) then returned (pos (i + k)) else asleep (i + k))

pipewrite-full :
    (copyin : ℕ → Option ℕ) (m i : ℕ) (p : Pipe)
    → p.readopen ≡ true
    → full p ≡ true
    → pipewrite false copyin (suc m) i p ≡ (asleep i, p)
unfolding pipewrite
pipewrite-full copyin m i p to_reader no_room = ground arith

pipewrite-next :
    (src : ℕ → ℕ) (m i : ℕ) (p : Pipe)
    → p.readopen ≡ true
    → full p ≡ false
    → pipewrite false (λ j. some (src j)) (suc m) i p
      ≡ pipewrite false (λ j. some (src j)) m (i + 1) (put_byte (src i) p)
unfolding pipewrite
pipewrite-next src m i p to_reader room = ground arith

pipewrite-Wrote :
    (src : ℕ → ℕ) (m i : ℕ) (p : Pipe) (k : ℕ)
    → IsValid p
    → p.readopen ≡ true
    → k ≡ min m (pipesize - used p)
    → Wrote src m i p k (pipewrite false (λ j. some (src j)) m i p)
unfolding pipewrite slice
pipewrite-Wrote src zero i p zero v to_reader e = record {
  valid = v;
  bytes = sym (append-nil (contents p));
  result = ground arith;
}
pipewrite-Wrote src zero i p (suc k) v to_reader e = absurd (omega arith)
pipewrite-Wrote src (suc m) i p zero v to_reader e =
    let no_room : full p ≡ true = ground (arith, full-used p v) in
    subst (Wrote src (suc m) i p 0)
      (sym (pipewrite-full (λ j. some (src j)) m i p to_reader no_room))
      (record { valid = v; bytes = sym (append-nil (contents p)); result = ground arith })
pipewrite-Wrote src (suc m) i p (suc k) v to_reader e =
    let room : full p ≡ false = ground (arith, full-used p v) in
    let more = used-put_byte (src i) p v (omega arith) in
    let (v', c) = put_byte-contents (src i) p v (omega arith) in
    let w =
      pipewrite-Wrote src m (i + 1) (put_byte (src i) p) k v'
        (readopen-put_byte (src i) p ∙ to_reader) (omega (arith, more)) in
    subst (Wrote src (suc m) i p (suc k)) (sym (pipewrite-next src m i p to_reader room)) (record {
      valid = w.valid;
      bytes = w.bytes ∙ (rw c (append_assoc (contents p) (src i ∷ []) (slice src (i + 1) k)));
      result = w.result ∙ ground (arith, more);
    })

-- A `pipewrite` by a live process to a pipe with a reader, from memory that can be read, appends
-- as many of its bytes as there is room for; it returns the count if all went in, and sleeps
-- with the pipe full if not.
pub pipewrite-appends :
    (src : ℕ → ℕ) (m : ℕ) (p : Pipe)
    → IsValid p
    → p.readopen ≡ true
    → let (result, p') = pipewrite false (λ k. some (src k)) m 0 p in
      let k = min m (pipesize - used p) in
      IsValid p'
      × (contents p' ≡ contents p ++ slice src 0 k)
      × (result ≡ (if leb m (pipesize - used p) then returned (pos k) else asleep k))
pipewrite-appends src m p v to_reader =
    let k : ℕ = min m (pipesize - used p) in
    let w = pipewrite-Wrote src m 0 p k v to_reader refl in
    let e : 0 + k ≡ k = omega arith in (w.valid, w.bytes, rw e at w.result)

-- A write with bytes left, to a pipe whose reader has gone or by a process that is killed, ends
-- with -1 and leaves the pipe as it is.
pub pipewrite-stops :
    (killed : Bool) (copyin : ℕ → Option ℕ) (m i : ℕ) (p : Pipe)
    → (p.readopen ≡ false) ⊎ (killed ≡ true)
    → pipewrite killed copyin (suc m) i p ≡ (returned minus_one, p)
unfolding pipewrite
pipewrite-stops killed copyin m i p why = ground arith

-- The end of the loop of `piperead` over `m` bytes.
record Took (m i : ℕ) (got : List ℕ) (p : Pipe) (r : ℕ × List ℕ × Pipe) : Type 0 where
  valid : IsValid r.2
  count : r.0 ≡ i + min m (used p)
  bytes : r.1 ≡ got ++ take m (contents p)
  left : contents r.2 ≡ drop m (contents p)

piperead_loop-Took :
    (m i : ℕ) (got : List ℕ) (p : Pipe)
    → IsValid p
    → Took m i got p (piperead_loop (λ _. true) m i got p)
unfolding piperead_loop
piperead_loop-Took zero i got p v = record {
  valid = v;
  count = omega arith;
  bytes = sym (append-nil got);
  left = refl;
}
piperead_loop-Took (suc m) i got p v = elim (Bool-cases (p.nread == p.nwrite)) [
  | inl empty ↦
      let none_used : used p ≡ 0 = ground arith in
      rw empty (record {
        valid = v;
        count = omega arith;
        bytes = rw none_used (sym (append-nil got));
        left = rw none_used;
      })
  | inr some_used ↦
      let pos_used : 0 < used p = ground arith in
      let (v', c) = get_byte-contents p v pos_used in
      let w = piperead_loop-Took m (i + 1) (got ++ (get_byte p).0 ∷ []) (get_byte p).1 v' in
      rw some_used (record {
        valid = w.valid;
        count = omega (arith, w.count, used-get_byte p v pos_used);
        bytes =
            w.bytes
            ∙ append_assoc got ((get_byte p).0 ∷ []) (take m (contents (get_byte p).1))
            ∙ ap (λ xs. got ++ take (suc m) xs) (sym c);
        left = w.left ∙ ap (λ xs. drop (suc m) xs) (sym c);
      })
]

-- A `piperead` by a process whose buffer can be written, from a pipe that holds bytes or whose
-- writer has gone, takes the first bytes of the pipe, as many as it asks for and there are, and
-- returns their number.
pub piperead_lem :
    (killed : Bool) (n : ℕ) (p : Pipe)
    → IsValid p
    → (0 < used p) ⊎ (p.writeopen ≡ false)
    → let (result, bytes, p') = piperead killed (λ _. true) n p in
      IsValid p'
      × (result ≡ returned (pos (min n (used p))))
      × (bytes ≡ take n (contents p))
      × (contents p' ≡ drop n (contents p))
unfolding piperead
piperead_lem killed n p v some_or_closed =
    let w = piperead_loop-Took n 0 [] p v in
    let counted : (piperead_loop (λ _. true) n 0 [] p).0 ≡ min n (used p) =
      omega (arith, w.count) in
    let go : p.nread == p.nwrite && p.writeopen ≡ false = ground arith in
    rw go (w.valid, ap (λ i. returned (pos i)) counted, w.bytes, w.left)

-- A `piperead` of an empty pipe whose writer is there takes nothing: it sleeps, or returns -1 if
-- the process is killed.
pub piperead-empty :
    (killed : Bool) (copyout : ℕ → Bool) (n : ℕ) (p : Pipe)
    → IsValid p
    → used p ≡ 0
    → p.writeopen ≡ true
    → piperead killed copyout n p ≡ ((if killed then returned minus_one else asleep 0), [], p)
unfolding piperead
piperead-empty killed copyout n p v empty opened =
    let wait : p.nread == p.nwrite && p.writeopen ≡ true = ground arith in rw wait (ground arith)

-- A `piperead` of at least one byte whose buffer cannot be written takes a byte out of a pipe that holds
-- some, delivers none and returns 0: the byte is lost.
pub piperead-loses :
    (killed : Bool) (n : ℕ) (p : Pipe)
    → IsValid p
    → 0 < used p
    → let (result, bytes, p') = piperead killed (λ _. false) (suc n) p in
      (result ≡ returned (pos 0)) × (bytes ≡ []) × (length (contents p') < length (contents p))
unfolding piperead piperead_loop
piperead-loses killed n p v some_used =
    let go : p.nread == p.nwrite ≡ false = ground arith in
    let (v', c) = get_byte-contents p v some_used in rw go (refl, refl, rw (c) (omega arith))
