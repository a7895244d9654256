-- ===== src/User/Grep/Output.antt =====
-- What `grep` of user/grep.c writes, apart from how its reads cut the file.
use os_lab.Base.{
  ℕ, zero, suc, ◌+◌, ◌-◌, ◌<◌, ◌≤◌, ◌≡◌, ◌≢◌, inl, inr, refl, sym, ap, subst, ◌∙◌, arith, true,
  Bool-cases, ◌==◌, ==_iff, ==-ne, if◌then◌else◌, min, none, some, List, [], ◌∷◌, ◌++◌, All, length,
  length-append, length-take, take, drop, append-cons, append-nil,
}
use os_lab.User.Grep.{match}
use os_lab.User.Grep.Lines.{newline, split_line, grep_lines, grep}

-- The lines of a file that end in a newline, where `line` has come before it
unfoldable pub lines_from : (line file : List ℕ) → List (List ℕ)
lines_from line [] = []
lines_from line (b ∷ file) =
    let ended = lines_from [] file in
    let more = lines_from (line ++ b ∷ []) file in if b == newline then line ∷ ended else more

-- What comes behind the last of them
unfoldable pub last_from : (line file : List ℕ) → List ℕ
last_from line [] = line
last_from line (b ∷ file) =
    let ended = last_from [] file in
    let more = last_from (line ++ b ∷ []) file in if b == newline then ended else more

unfoldable pub matching : (pattern : List ℕ) → List (List ℕ) → List (List ℕ)
matching pattern [] = []
matching pattern (line ∷ lines) =
    let rest = matching pattern lines in if match pattern line then line ∷ rest else rest

-- The bytes of a line
abbrev pub IsLine : List ℕ → Type 0
IsLine line = All (λ b. (b ≢ newline) × (b ≢ 0)) line

abbrev pub IsText : List ℕ → Type 0
IsText file = All (λ b. b ≢ 0) file

-- Every line has less than 1023 bytes, the last one too.
unfoldable pub IsShort : (line file : List ℕ) → Type 0
IsShort line [] = length line < 1023
IsShort line (b ∷ file) =
    let ended = IsShort [] file in
    let more = IsShort (line ++ b ∷ []) file in
    (length line < 1023) × (if b == newline then ended else more)

split_line-none : (line : List ℕ) → IsLine line → split_line line ≡ none
unfolding split_line
split_line-none [] h = refl
split_line-none (b ∷ line) ((ne, nul), h) =
    rw (==-ne b newline ne, ==-ne b 0 nul, split_line-none line h) refl

split_line-some :
    (line behind : List ℕ)
    → IsLine line
    → split_line (line ++ newline ∷ behind) ≡ some (line, behind)
unfolding split_line
split_line-some [] behind h = refl
split_line-some (b ∷ line) behind ((ne, nul), h) =
    rw (==-ne b newline ne, ==-ne b 0 nul, split_line-some line behind h) refl

IsLine-snoc : (line : List ℕ) (b : ℕ) → IsLine line → b ≢ newline → b ≢ 0 → IsLine (line ++ b ∷ [])
IsLine-snoc [] b h ne nul = ((ne, nul), tt)
IsLine-snoc (c ∷ line) b (hc, h) ne nul = (hc, IsLine-snoc line b h ne nul)

grep_lines-none :
    (fuel : ℕ) (pattern buf : List ℕ)
    → split_line buf ≡ none
    → grep_lines fuel pattern buf ≡ ([], buf)
unfolding grep_lines
grep_lines-none zero pattern buf e = refl
grep_lines-none (suc fuel) pattern buf e = rw (grep_lines, e) refl

grep_lines-some :
    (fuel : ℕ) (pattern buf line behind : List ℕ)
    → split_line buf ≡ some (line, behind)
    → grep_lines (suc fuel) pattern buf ≡ (
      (if match pattern line
          then line ∷ (grep_lines fuel pattern behind).0
          else (grep_lines fuel pattern behind).0),
      (grep_lines fuel pattern behind).1,
    )
unfolding grep_lines
grep_lines-some fuel pattern buf line behind e = rw (grep_lines, e) refl

-- A buffer is a line begun and the bytes behind it.
grep_lines-matching :
    (got : List ℕ) (fuel : ℕ) (pattern line : List ℕ)
    → IsLine line
    → IsText got
    → length got ≤ fuel
    → grep_lines fuel pattern (line ++ got)
      ≡ (matching pattern (lines_from line got), last_from line got)
unfolding lines_from last_from matching
grep_lines-matching [] fuel pattern line h text enough =
    ap (grep_lines fuel pattern) (append-nil line)
    ∙ grep_lines-none fuel pattern line (split_line-none line h)
grep_lines-matching (b ∷ got) zero pattern line h text enough = absurd (omega arith)
grep_lines-matching (b ∷ got) (suc fuel) pattern line h (nul, text) enough =
    elim (Bool-cases (b == newline)) [
      | inl ended ↦
          let e : b ≡ newline = (==_iff b newline).0 ended in
          let cut : split_line (line ++ b ∷ got) ≡ some (line, got) =
            ap (λ x. split_line (line ++ x ∷ got)) e ∙ split_line-some line got h in
          let ih = grep_lines-matching got fuel pattern [] tt text (omega arith) in
          rw ended (
            grep_lines-some fuel pattern (line ++ b ∷ got) line got cut
            ∙ ap (λ r. ((if match pattern line then line ∷ r.0 else r.0), r.1)) ih)
      | inr more ↦
          let ne : b ≢ newline = ground arith in
          rw more (
            ap (grep_lines (suc fuel) pattern) (sym (append-cons line b got))
            ∙ grep_lines-matching got (suc fuel) pattern (line ++ b ∷ [])
                (IsLine-snoc line b h ne nul) text (omega arith))
    ]

lines_from-append :
    (line got file : List ℕ)
    → lines_from line (got ++ file) ≡ lines_from line got ++ lines_from (last_from line got) file
unfolding lines_from last_from
lines_from-append line [] file = refl
lines_from-append line (b ∷ got) file = elim (Bool-cases (b == newline)) [
  | inl ended ↦ rw ended (ap (λ ls. line ∷ ls) (lines_from-append [] got file))
  | inr more ↦ rw more (lines_from-append (line ++ b ∷ []) got file)
]

matching-append :
    (pattern : List ℕ) (xs ys : List (List ℕ))
    → matching pattern (xs ++ ys) ≡ matching pattern xs ++ matching pattern ys
unfolding matching
matching-append pattern [] ys = refl
matching-append pattern (x ∷ xs) ys = elim (Bool-cases (match pattern x)) [
  | inl hit ↦ rw hit (ap (λ ls. x ∷ ls) (matching-append pattern xs ys))
  | inr miss ↦ rw miss (matching-append pattern xs ys)
]

last_from-IsLine : (line got : List ℕ) → IsLine line → IsText got → IsLine (last_from line got)
unfolding last_from
last_from-IsLine line [] h text = h
last_from-IsLine line (b ∷ got) h (nul, text) = elim (Bool-cases (b == newline)) [
  | inl ended ↦ rw ended (last_from-IsLine [] got tt text)
  | inr more ↦
      rw more (last_from-IsLine (line ++ b ∷ []) got (IsLine-snoc line b h (ground arith) nul) text)
]

IsShort-last :
    (line got file : List ℕ) → IsShort line (got ++ file) → IsShort (last_from line got) file
unfolding last_from IsShort
IsShort-last line [] file h = h
IsShort-last line (b ∷ got) file (_, h) = elim (Bool-cases (b == newline)) [
  | inl ended ↦ rw ended (IsShort-last [] got file (rw ended at h))
  | inr more ↦ rw more (IsShort-last (line ++ b ∷ []) got file (rw more at h))
]

IsShort-line : (line file : List ℕ) → IsShort line file → length line < 1023
unfolding IsShort
IsShort-line line [] h = h
IsShort-line line (b ∷ file) (h, _) = h

append-take : (m : ℕ) (file : List ℕ) → take m file ++ drop m file ≡ file
append-take zero file = refl
append-take (suc m) [] = refl
append-take (suc m) (b ∷ file) = ap (λ l. b ∷ l) (append-take m file)

IsText-cut : (m : ℕ) (file : List ℕ) → IsText file → IsText (take m file) × IsText (drop m file)
IsText-cut zero file h = (tt, h)
IsText-cut (suc m) [] h = (tt, tt)
IsText-cut (suc m) (b ∷ file) (hb, h) =
    let (front, back) = IsText-cut m file h in ((hb, front), back)

grep-stop :
    (n : ℕ) (reads pattern buf file : List ℕ)
    → length (take (min n (1023 - length buf)) file) ≡ 0
    → grep (n ∷ reads) pattern buf file ≡ []
unfolding grep
grep-stop n reads pattern buf file e =
    let stop : length (take (min n (1023 - length buf)) file) == 0 ≡ true =
      subst (λ x. x == 0 ≡ true) (sym e) refl in
    rw stop refl

grep-step :
    (n : ℕ) (reads pattern buf file : List ℕ)
    → length (take (min n (1023 - length buf)) file) ≢ 0
    → let m = min n (1023 - length buf) in
      let r = grep_lines (length (buf ++ take m file)) pattern (buf ++ take m file) in
      grep (n ∷ reads) pattern buf file ≡ r.0 ++ grep reads pattern r.1 (drop m file)
unfolding grep
grep-step n reads pattern buf file ne =
    rw (==-ne (length (take (min n (1023 - length buf)) file)) 0 ne) refl

grep_from :
    (reads pattern line file : List ℕ)
    → IsLine line
    → IsText file
    → All (λ n. 0 < n) reads
    → length file < length reads
    → IsShort line file
    → grep reads pattern line file ≡ matching pattern (lines_from line file)
unfolding lines_from matching
grep_from [] pattern line file h text some_bytes enough short = absurd (omega arith)
grep_from (n ∷ reads) pattern line [] h text some_bytes enough short =
    grep-stop n reads pattern line [] (length-take (min n (1023 - length line)) [] ∙ omega arith)
grep_from (n ∷ reads) pattern line (b ∷ file) h text (positive, some_bytes) enough short =
    let m = min n (1023 - length line) in
    let bytes : List ℕ = b ∷ file in
    let got = take m bytes in
    let left = drop m bytes in
    let fits = IsShort-line line bytes short in
    let taken = length-take m bytes in
    let whole = append-take m bytes in
    let (front, back) = IsText-cut m bytes text in
    let cut : length got + length left ≡ length bytes =
      sym (length-append got left) ∙ ap length whole in
    let some_got : 0 < length got = omega (arith, taken, fits, positive) in
    let lines =
      grep_lines-matching got (length (line ++ got)) pattern line h front
        (omega (arith, length-append line got)) in
    let ih =
      grep_from reads pattern (last_from line got) left (last_from-IsLine line got h front) back
        some_bytes (omega (arith, cut, some_got, enough))
        (IsShort-last line got left (subst (IsShort line) (sym whole) short)) in
    grep-step n reads pattern line bytes (λ z. omega (arith, z, some_got))
    ∙ ap (λ r. r.0 ++ grep reads pattern r.1 left) lines
    ∙ ap (λ out. matching pattern (lines_from line got) ++ out) ih
    ∙ sym (matching-append pattern (lines_from line got) (lines_from (last_from line got) left))
    ∙ ap (matching pattern) (sym (lines_from-append line got left) ∙ ap (lines_from line) whole)

-- However the reads cut a file without zero bytes, as long as each gives a byte at least and they come to the
-- end, and no line has more than 1022 bytes: `grep` writes exactly the lines of the file that `match` finds
-- the pattern in, whole and in order. What comes behind the last newline is not a line.
pub grep-matching :
    (reads pattern file : List ℕ)
    → IsText file
    → All (λ n. 0 < n) reads
    → length file < length reads
    → IsShort [] file
    → grep reads pattern [] file ≡ matching pattern (lines_from [] file)
grep-matching reads pattern file text some_bytes enough short =
    grep_from reads pattern [] file tt text some_bytes enough short
