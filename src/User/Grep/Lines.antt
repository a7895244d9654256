-- ===== src/User/Grep/Lines.antt =====
-- user/grep.c: `grep` over the bytes of a file. `read` gives as many bytes of those left as it likes, as
-- long as they fit; what it likes is an argument.
use os_lab.Base.{
  ℕ, zero, suc, ◌-◌, ◌==◌, if◌then◌else◌, min, Option, none, some, List, [], ◌∷◌, ◌++◌, length,
  take, drop,
}
use os_lab.User.Grep.{match}

abbrev pub newline : ℕ
newline = 10

-- `strchr(p, '\n')`, which stops at a terminator: the line before it and what is behind
unfoldable pub split_line : List ℕ → Option (List ℕ × List ℕ)
split_line [] = none
split_line (b ∷ bytes) =
    let rest : Option (List ℕ × List ℕ) = elim (split_line bytes) [
      | none ↦ none
      | some (line, behind) ↦ some (b ∷ line, behind)
    ] in
    if b == newline then some ([], bytes) else if b == 0 then none else rest

-- The inner loop of `grep`, on fuel: the lines that it writes, and what is left in the buffer
unfoldable pub grep_lines : (fuel : ℕ) → (pattern buf : List ℕ) → List (List ℕ) × List ℕ
grep_lines zero pattern buf = ([], buf)
grep_lines (suc fuel) pattern buf = elim (split_line buf) [
  | none ↦ ([], buf)
  | some (line, behind) ↦
      let (out, left) = grep_lines fuel pattern behind in
      (if match pattern line then line ∷ out else out, left)
]

-- The loop of `grep` over a buffer of 1024 bytes, for the reads to come
unfoldable pub grep : (reads : List ℕ) → (pattern buf file : List ℕ) → List (List ℕ)
grep [] pattern buf file = []
grep (n ∷ reads) pattern buf file =
    let m = min n (1023 - length buf) in
    let got = take m file in
    let (out, left) = grep_lines (length (buf ++ got)) pattern (buf ++ got) in
    let rest = grep reads pattern left (drop m file) in if length got == 0 then [] else out ++ rest
