-- ===== src/User/Tests.antt =====
-- user/grep.c on short strings and a short file, and numbers as text.
use os_lab.Base.{ltb, ◌^◌, ◌-◌, if◌then◌else◌, ℕ, arith, List, ◌≡◌, ◌↔◌, refl, true, false, [], ◌∷◌}
use os_lab.User.Numbers.{print_loop, printint, atoi, atoi-printint}
use os_lab.User.Grep.{matchhere, star_loop, match_loop, match}
use os_lab.User.Grep.Language.{Matches}
use os_lab.User.Grep.Lines.{grep}
use os_lab.User.Grep.Output.{IsText, IsShort, lines_from, matching, grep-matching}
use os_lab.User.Grep.Equivalence.{match-Matches}

-- `a*b$` on `caab`
match-Matches_example :
    (match (97 ∷ 42 ∷ 98 ∷ 36 ∷ []) (99 ∷ 97 ∷ 97 ∷ 98 ∷ []) ≡ true)
    ↔ Matches (97 ∷ 42 ∷ 98 ∷ 36 ∷ []) (99 ∷ 97 ∷ 97 ∷ 98 ∷ [])
match-Matches_example = match-Matches (97 ∷ 42 ∷ 98 ∷ 36 ∷ []) (99 ∷ 97 ∷ 97 ∷ 98 ∷ [])

match_anywhere : match (97 ∷ 42 ∷ 98 ∷ 36 ∷ []) (99 ∷ 97 ∷ 97 ∷ 98 ∷ []) ≡ true
unfolding match match_loop matchhere star_loop
match_anywhere = refl

-- `^a` on `ba`
match_anchored : match (94 ∷ 97 ∷ []) (98 ∷ 97 ∷ []) ≡ false
unfolding match matchhere
match_anchored = refl

-- A file of two lines and the start of a third, read in pieces of three bytes
abbrev file : List ℕ
file = 97 ∷ 98 ∷ 10 ∷ 99 ∷ 98 ∷ 10 ∷ 97 ∷ []

file-IsText : IsText file
file-IsText = (
  omega arith,
  (omega arith, (omega arith, (omega arith, (omega arith, (omega arith, (omega arith, tt)))))),
)

file-IsShort : IsShort [] file
unfolding IsShort
file-IsShort = (
  omega arith,
  (
    omega arith,
    (omega arith, (omega arith, (omega arith, (omega arith, (omega arith, omega arith))))),
  ),
)

grep-matching_example :
    grep (3 ∷ 3 ∷ 3 ∷ 3 ∷ 3 ∷ 3 ∷ 3 ∷ 3 ∷ []) (97 ∷ []) [] file
    ≡ matching (97 ∷ []) (lines_from [] file)
grep-matching_example =
    grep-matching (3 ∷ 3 ∷ 3 ∷ 3 ∷ 3 ∷ 3 ∷ 3 ∷ 3 ∷ []) (97 ∷ []) file file-IsText
      (
        omega arith,
        (
          omega arith,
          (
            omega arith,
            (omega arith, (omega arith, (omega arith, (omega arith, (omega arith, tt))))),
          ),
        ),
      )
      (omega arith) file-IsShort

found_lines : matching (97 ∷ []) (lines_from [] file) ≡ (97 ∷ 98 ∷ []) ∷ []
unfolding matching lines_from match match_loop matchhere
found_lines = refl

atoi-printint_example : atoi (printint 4095 10 true) ≡ (if ltb 4095 (2 ^ 31) then 4095 else 0)
atoi-printint_example = atoi-printint 4095 (omega arith)

-- "-7"
minus_seven : printint (2 ^ 32 - 7) 10 true ≡ 45 ∷ 55 ∷ []
unfolding printint print_loop
minus_seven = refl
