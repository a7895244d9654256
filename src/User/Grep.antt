-- ===== src/User/Grep.antt =====
-- user/grep.c: the matcher. A string is the bytes before its terminator, none of which is 0.
pub mod Language
pub mod Equivalence
pub mod Lines
pub mod Output
use os_lab.Base.{ℕ, Bool, true, false, ◌&&◌, ◌||◌, ◌==◌, if◌then◌else◌, List, [], ◌∷◌}

abbrev pub dollar : ℕ
dollar = 36

abbrev pub asterisk : ℕ
asterisk = 42

abbrev pub dot : ℕ
dot = 46

abbrev pub caret : ℕ
caret = 94

-- `*text == '\0'`
abbrev pub at_end : List ℕ → Bool
at_end [] = true
at_end (t ∷ text) = false

-- `re[0] == '.' || re[0] == *text`
abbrev pub fits : (c t : ℕ) → Bool
fits c t = c == dot || c == t

-- The last test of `matchhere`, before the rest of the pattern
abbrev pub advance : (c : ℕ) → (here : List ℕ → Bool) → (text : List ℕ) → Bool
advance c here [] = false
advance c here (t ∷ text) = fits c t && here text

-- The loop of `matchstar`, where `here` is `matchhere` for the rest of the pattern
unfoldable pub star_loop : (here : List ℕ → Bool) → (c : ℕ) → (text : List ℕ) → Bool
star_loop here c [] = here []
star_loop here c (t ∷ text) =
    let rest = star_loop here c text in if here (t ∷ text) then true else fits c t && rest

unfoldable pub matchhere : (re text : List ℕ) → Bool
matchhere [] text = true
matchhere (r ∷ []) text =
    let next = advance r (λ text. matchhere [] text) text in
    if r == dollar then at_end text else next
matchhere (r ∷ r1 ∷ re) text =
    let starred = star_loop (λ text. matchhere re text) r text in
    let next = advance r (λ text. matchhere (r1 ∷ re) text) text in
    if r1 == asterisk then starred else next

unfoldable pub matchstar : (c : ℕ) → (re text : List ℕ) → Bool
matchstar c re text = star_loop (matchhere re) c text

-- The loop of `match`
unfoldable pub match_loop : (re text : List ℕ) → Bool
match_loop re [] = matchhere re []
match_loop re (t ∷ text) =
    let rest = match_loop re text in if matchhere re (t ∷ text) then true else rest

unfoldable pub match : (re text : List ℕ) → Bool
match [] text = match_loop [] text
match (r ∷ re) text = if r == caret then matchhere re text else match_loop (r ∷ re) text
