-- ===== src/User/Grep/Equivalence.antt =====
-- The matcher of user/grep.c decides the language of its patterns.
use os_lab.Base.{
  ℕ, ◌≡◌, ◌≢◌, ◌↔◌, ◌⊎◌, inl, inr, refl, sym, ap, subst, ◌∙◌, Bool, true, false, false≢true, ◌&&◌,
  Bool-cases, ◌==◌, if◌then◌else◌, List, [], ◌∷◌, ◌++◌,
}
use os_lab.User.Grep.{
  asterisk, dollar, caret, fits, matchhere, star_loop, advance, at_end, star_loop, match_loop,
  match,
}
use os_lab.User.Grep.Language.{
  Item, one, many, Pattern, prefixed, parse, empty, once, again, enough, Starts, Somewhere, Matches,
}

-- What is true of a conjunction's parts
and-true : (a b : Bool) → (a && b) ≡ true → (a ≡ true) × (b ≡ true)
and-true true b h = (refl, h)
and-true false b h = absurd (false≢true h)

cons-inj : (a b : ℕ) (xs ys : List ℕ) → a ∷ xs ≡ b ∷ ys → (a ≡ b) × (xs ≡ ys)
cons-inj a b xs ys e = (ap (head_or a) e, ap rest_of e)
  where
    head_or : ℕ → List ℕ → ℕ
    head_or d [] = d
    head_or d (x ∷ xs) = x

    rest_of : List ℕ → List ℕ
    rest_of [] = []
    rest_of (x ∷ xs) = xs

nil-≢-cons : (a : ℕ) (xs : List ℕ) → [] ≢ a ∷ xs
nil-≢-cons a xs e = false≢true (sym (ap at_end e))

-- A list of items that begins with repetitions of `c`
many-step :
    (c : ℕ) (is : List Item) (e : Bool) (text : List ℕ)
    → Starts (record { items = is; to_end = e }) text
    → Starts (record { items = many c ∷ is; to_end = e }) text
many-step c is e text (w, rest, cut, word, follows) = (w, rest, cut, enough word, follows)

many-again :
    (c t : ℕ) (is : List Item) (e : Bool) (text : List ℕ)
    → fits c t ≡ true
    → Starts (record { items = many c ∷ is; to_end = e }) text
    → Starts (record { items = many c ∷ is; to_end = e }) (t ∷ text)
many-again c t is e text ft (w, rest, cut, word, follows) =
    (t ∷ w, rest, ap (λ l. t ∷ l) cut, again ft word, follows)

many-cases :
    (c : ℕ) (is : List Item) (e : Bool) (text : List ℕ)
    → Starts (record { items = many c ∷ is; to_end = e }) text
    → Starts (record { items = is; to_end = e }) text
      ⊎ ((t : ℕ) × (text' : List ℕ) × (text ≡ t ∷ text')
          × (fits c t ≡ true)
          × Starts (record { items = many c ∷ is; to_end = e }) text')
many-cases c is e text (w, rest, cut, again {t = t} {w = w'} ft word, follows) =
    inr (t, w' ++ rest, cut, ft, (w', rest, refl, word, follows))
many-cases c is e text (w, rest, cut, enough word, follows) = inl (w, rest, cut, word, follows)

one-cases :
    (c : ℕ) (is : List Item) (e : Bool) (text : List ℕ)
    → Starts (record { items = one c ∷ is; to_end = e }) text
    → (t : ℕ) × (text' : List ℕ) × (text ≡ t ∷ text')
      × (fits c t ≡ true)
      × Starts (record { items = is; to_end = e }) text'
one-cases c is e text (w, rest, cut, once {t = t} {w = w'} ft word, follows) =
    (t, w' ++ rest, cut, ft, (w', rest, refl, word, follows))

-- A test of texts that is passed by those that start with a word of the pattern, and no others
abbrev Decides : (List ℕ → Bool) → Pattern → Type 0
Decides here p = (text : List ℕ) → (here text ≡ true) ↔ Starts p text

advance-Decides :
    (here : List ℕ → Bool) (c : ℕ) (p : Pattern)
    → Decides here p
    → Decides (advance c here) (prefixed (one c) p)
advance-Decides here c p d [] = (
  λ h. absurd (false≢true h),
  λ starts.
      let (t, text', cut, ft, next) = one-cases c p.items p.to_end [] starts in
      absurd (nil-≢-cons t text' cut),
)
advance-Decides here c p d (t ∷ text) = (
  λ h.
      let (ft, next) = and-true (fits c t) (here text) h in
      let (w, rest, cut, word, follows) = (d text).0 next in
      (t ∷ w, rest, ap (λ l. t ∷ l) cut, once ft word, follows),
  λ starts.
      let (t', text', cut, ft, next) = one-cases c p.items p.to_end (t ∷ text) starts in
      let (t-eq, text-eq) = cons-inj t t' text text' cut in
      let fits_here : fits c t ≡ true = ap (fits c) t-eq ∙ ft in
      let follows_here : here text ≡ true = (d text).1 (subst (Starts p) (sym text-eq) next) in
      rw (fits_here, follows_here) refl,
)

always : (b : Bool) → (if b then true else true) ≡ true
always true = refl
always false = refl

star_loop-Decides :
    (here : List ℕ → Bool) (c : ℕ) (p : Pattern)
    → Decides here p
    → Decides (star_loop here c) (prefixed (many c) p)
unfolding star_loop
star_loop-Decides here c p d [] = (
  λ h. many-step c p.items p.to_end [] ((d []).0 h),
  λ starts. elim (many-cases c p.items p.to_end [] starts) [
    | inl now ↦ (d []).1 now
    | inr (t, text', cut, ft, next) ↦ absurd (nil-≢-cons t text' cut)
  ],
)
star_loop-Decides here c p d (t ∷ text) = (
  λ h. elim (Bool-cases (here (t ∷ text))) [
    | inl now ↦ many-step c p.items p.to_end (t ∷ text) ((d (t ∷ text)).0 now)
    | inr later ↦
        let (ft, next) = and-true (fits c t) (star_loop here c text) (rw later at h) in
        many-again c t p.items p.to_end text ft ((star_loop-Decides here c p d text).0 next)
  ],
  λ starts. elim (many-cases c p.items p.to_end (t ∷ text) starts) [
    | inl now ↦ rw ((d (t ∷ text)).1 now) refl
    | inr (t', text', cut, ft, next) ↦
        let (t-eq, text-eq) = cons-inj t t' text text' cut in
        let fits_here : fits c t ≡ true = ap (fits c) t-eq ∙ ft in
        let later : star_loop here c text ≡ true =
          (star_loop-Decides here c p d text).1
            (subst (Starts (prefixed (many c) p)) (sym text-eq) next) in
        elim (Bool-cases (here (t ∷ text))) [
          | inl now ↦ rw now refl
          | inr _ ↦ rw (fits_here, later) (always (here (t ∷ text)))
        ]
  ],
)

at_end-Decides : Decides at_end (record { items = []; to_end = true })
at_end-Decides [] = (λ h. ([], [], refl, empty, refl), λ starts. refl)
at_end-Decides (t ∷ text) = (λ h. absurd (false≢true h), λ starts. end_only starts)
  where
    end_only : Starts (record { items = []; to_end = true }) (t ∷ text) → false ≡ true
    end_only (w, rest, cut, empty, follows) = absurd (nil-≢-cons t text (sym (cut ∙ follows)))

nothing-Decides : Decides (matchhere []) (parse [])
unfolding matchhere parse
nothing-Decides text = (λ h. ([], text, refl, empty, tt), λ starts. refl)

-- `matchhere` is true of exactly the texts that start with a word of the pattern.
matchhere-Decides : (re : List ℕ) → Decides (matchhere re) (parse re)
unfolding matchhere parse
matchhere-Decides [] text = nothing-Decides text
matchhere-Decides (r ∷ []) text = elim (Bool-cases (r == dollar)) [
  | inl end ↦ rw end (at_end-Decides text)
  | inr other ↦ rw other (advance-Decides (matchhere []) r (parse []) nothing-Decides text)
]
matchhere-Decides (r ∷ r1 ∷ re) text = elim (Bool-cases (r1 == asterisk)) [
  | inl star ↦ rw star (star_loop-Decides (matchhere re) r (parse re) (matchhere-Decides re) text)
  | inr other ↦
      rw other (
        advance-Decides (matchhere (r1 ∷ re)) r (parse (r1 ∷ re)) (matchhere-Decides (r1 ∷ re))
          text)
]

-- The suffixes of a text, from the text itself on
match_loop_iff : (re text : List ℕ) → (match_loop re text ≡ true) ↔ Somewhere (parse re) text
unfolding match_loop
match_loop_iff re [] = (
  λ h. ([], [], refl, (matchhere-Decides re []).0 h),
  λ found. (matchhere-Decides re []).1 (at_nil found),
)
  where
    at_nil : Somewhere (parse re) [] → Starts (parse re) []
    at_nil ([], rest, cut, starts) = subst (Starts (parse re)) (sym cut) starts
    at_nil (b ∷ before, rest, cut, starts) = absurd (nil-≢-cons b (before ++ rest) cut)
match_loop_iff re (t ∷ text) = (
  λ h. elim (Bool-cases (matchhere re (t ∷ text))) [
    | inl now ↦ ([], t ∷ text, refl, (matchhere-Decides re (t ∷ text)).0 now)
    | inr later ↦
        let (before, rest, cut, starts) = (match_loop_iff re text).0 (rw later at h) in
        (t ∷ before, rest, ap (λ l. t ∷ l) cut, starts)
  ],
  λ found. here_or_later (λ deeper. (match_loop_iff re text).1 deeper) found,
)
  where
    here_or_later :
        (Somewhere (parse re) text → match_loop re text ≡ true)
        → Somewhere (parse re) (t ∷ text)
        → match_loop re (t ∷ text) ≡ true
    here_or_later ih ([], rest, cut, starts) =
        rw ((matchhere-Decides re (t ∷ text)).1 (subst (Starts (parse re)) (sym cut) starts)) refl
    here_or_later ih (b ∷ before, rest, cut, starts) =
        let (_, text-eq) = cons-inj t b text (before ++ rest) cut in
        let later = ih (before, rest, text-eq, starts) in
        elim (Bool-cases (matchhere re (t ∷ text))) [
          | inl now ↦ rw now refl
          | inr _ ↦ rw later (always (matchhere re (t ∷ text)))
        ]

-- `match` returns 1 for exactly the lines that the pattern means: with a leading caret those that start
-- with a word of the rest of the pattern, without one those that hold a word of it anywhere, the word being
-- at the end of the line where the pattern ends in a dollar. A character stands for itself, a dot for any,
-- and either with an asterisk behind it for any number of them.
pub match-Matches : (re text : List ℕ) → (match re text ≡ true) ↔ Matches re text
unfolding match Matches
match-Matches [] text = match_loop_iff [] text
match-Matches (r ∷ re) text = elim (Bool-cases (r == caret)) [
  | inl anchored ↦ rw anchored (matchhere-Decides re text)
  | inr free ↦ rw free (match_loop_iff (r ∷ re) text)
]
