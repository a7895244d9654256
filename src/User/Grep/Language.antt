-- ===== src/User/Grep/Language.antt =====
-- What the patterns of user/grep.c mean, apart from how they are matched.
use os_lab.Base.{ℕ, ◌≡◌, Bool, true, false, ◌==◌, if◌then◌else◌, List, [], ◌∷◌, ◌++◌}
use os_lab.User.Grep.{asterisk, dollar, caret, fits}

-- A character, or any number of it
pub data Item : Type 0 where
  one : ℕ → Item
  many : ℕ → Item

-- A pattern without its caret: the items in order, and whether it ends in a dollar.
pub record Pattern : Type 0 where
  pub items : List Item
  pub to_end : Bool

abbrev pub prefixed : Item → Pattern → Pattern
prefixed i p = record p { items = i ∷ p.items }

abbrev pub last : ℕ → Pattern
last r =
    if r == dollar
    then record { items = []; to_end = true }
    else record { items = one r ∷ []; to_end = false }

unfoldable pub parse : List ℕ → Pattern
parse [] = record { items = []; to_end = false }
parse (r ∷ []) = last r
parse (r ∷ r1 ∷ re) =
    let starred = prefixed (many r) (parse re) in
    let plain = prefixed (one r) (parse (r1 ∷ re)) in if r1 == asterisk then starred else plain

-- The words of a list of items
pub data Word : List Item → List ℕ → Type 0 where
  empty : Word [] []
  once :
      {c t : ℕ} {is : List Item} {w : List ℕ}
      → fits c t ≡ true
      → Word is w
      → Word (one c ∷ is) (t ∷ w)
  again :
      {c t : ℕ} {is : List Item} {w : List ℕ}
      → fits c t ≡ true
      → Word (many c ∷ is) w
      → Word (many c ∷ is) (t ∷ w)
  enough : {c : ℕ} {is : List Item} {w : List ℕ} → Word is w → Word (many c ∷ is) w

-- What may follow a word
abbrev pub Follows : Bool → List ℕ → Type 0
Follows true rest = rest ≡ []
Follows false rest = Unit

-- A text starts with a word of the pattern, and ends with it if the pattern says so.
abbrev pub Starts : Pattern → List ℕ → Type 0
Starts p text =
    (w : List ℕ) × (rest : List ℕ) × (text ≡ w ++ rest) × Word p.items w × Follows p.to_end rest

-- It holds such a word somewhere.
abbrev pub Somewhere : Pattern → List ℕ → Type 0
Somewhere p text = (before : List ℕ) × (rest : List ℕ) × (text ≡ before ++ rest) × Starts p rest

-- What a line must be for a pattern to match it
unfoldable pub Matches : (re text : List ℕ) → Type 0
Matches [] text = Somewhere (parse []) text
Matches (r ∷ re) text =
    if r == caret then Starts (parse re) text else Somewhere (parse (r ∷ re)) text
