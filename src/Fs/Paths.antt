-- ===== src/Fs/Paths.antt =====
-- `skipelem` of kernel/fs.c against the elements of a path.
use os_lab.Base.{
  zero, suc, append-cons, append-nil, ℕ, ◌≤◌, ◌<◌, ◌≡◌, ◌⊎◌, inl, inr, refl, sym, ap, ◌∙◌, arith,
  false, ◌==◌, Bool-cases, if◌then◌else◌, none, some, List, [], ◌∷◌, ◌++◌, length, take, drop, leb,
  min, length-take, length-append, ◌+◌,
}
use os_lab.Fs.Names.{dirsiz, slash, skip_slashes, split_elem, put_name, first_elem, skipelem}

-- An element that has come to its end, before others
abbrev pub ended : (e : List ℕ) → List (List ℕ) → List (List ℕ)
ended [] es = es
ended (c ∷ e) es = (c ∷ e) ∷ es

-- What is between the slashes of `path` and is not empty, where `e` has come before it
unfoldable pub elems_from : (e path : List ℕ) → List (List ℕ)
elems_from e [] = ended e []
elems_from e (c ∷ path) =
    let more = elems_from (e ++ c ∷ []) path in
    let next = elems_from [] path in if c == slash then ended e next else more

abbrev pub elems : (path : List ℕ) → List (List ℕ)
elems path = elems_from [] path

skip_slashes-other :
    (c : ℕ) (path : List ℕ) → (c == slash) ≡ false → skip_slashes (c ∷ path) ≡ c ∷ path
unfolding skip_slashes
skip_slashes-other c path other = rw other refl

-- Slashes in front do not count.
skip_slashes-elems : (path : List ℕ) → elems (skip_slashes path) ≡ elems path
unfolding skip_slashes elems_from
skip_slashes-elems [] = refl
skip_slashes-elems (c ∷ path) = elim (Bool-cases (c == slash)) [
  | inl slashed ↦ rw slashed (skip_slashes-elems path)
  | inr other ↦ ap elems (skip_slashes-other c path other)
]

split_elem-elems :
    (e path : List ℕ)
    → elems_from e path
      ≡ ended (e ++ (split_elem path).0) (elems (skip_slashes (split_elem path).1))
unfolding split_elem elems_from skip_slashes
split_elem-elems e [] = ap (λ l. ended l []) (sym (append-nil e))
split_elem-elems e (c ∷ path) = elim (Bool-cases (c == slash)) [
  | inl slashed ↦
      rw slashed (rw (append-nil e, slashed) (ap (ended e) (sym (skip_slashes-elems path))))
  | inr other ↦
      rw other (split_elem-elems (e ++ c ∷ []) path ∙ rw (append-cons e c (split_elem path).0) refl)
]

-- The first byte behind the slashes is none.
skip_slashes-first :
    (path : List ℕ)
    → (skip_slashes path ≡ [])
      ⊎ ((c : ℕ) × (rest : List ℕ) × (skip_slashes path ≡ c ∷ rest) × ((c == slash) ≡ false))
unfolding skip_slashes
skip_slashes-first [] = inl refl
skip_slashes-first (c ∷ path) = elim (Bool-cases (c == slash)) [
  | inl slashed ↦ rw slashed (skip_slashes-first path)
  | inr other ↦ inr (c, path, skip_slashes-other c path other, other)
]

take-append : (n : ℕ) (xs ys : List ℕ) → length xs ≡ n → take n (xs ++ ys) ≡ xs
take-append zero [] ys e = refl
take-append zero (x ∷ xs) ys e = absurd (omega arith)
take-append (suc n) [] ys e = absurd (omega arith)
take-append (suc n) (x ∷ xs) ys e = ap (λ l. x ∷ l) (take-append n xs ys (omega arith))

drop-append : (n : ℕ) (xs ys : List ℕ) → length xs ≡ n → drop n (xs ++ ys) ≡ ys
drop-append zero [] ys e = refl
drop-append zero (x ∷ xs) ys e = absurd (omega arith)
drop-append (suc n) [] ys e = absurd (omega arith)
drop-append (suc n) (x ∷ xs) ys e = drop-append n xs ys (omega arith)

take-all : (n : ℕ) (xs : List ℕ) → length xs ≤ n → take n xs ≡ xs
take-all zero [] h = refl
take-all zero (x ∷ xs) h = absurd (omega arith)
take-all (suc n) [] h = refl
take-all (suc n) (x ∷ xs) h = ap (λ l. x ∷ l) (take-all n xs (omega arith))

-- The buffer `name'` of a name into which the element `e` has been copied over `name`
pub record Filled (e name name' : List ℕ) : Type 0 where
  pub bytes : take (min dirsiz (length e)) name' ≡ take dirsiz e
  pub nul : length e < dirsiz → take 1 (drop (length e) name') ≡ 0 ∷ []
  pub rest : drop (min dirsiz (length e + 1)) name' ≡ drop (min dirsiz (length e + 1)) name

put_name-Filled : (e name : List ℕ) → Filled e name (put_name e name)
put_name-Filled e name = elim (Bool-cases (leb dirsiz (length e))) [
  | inl long ↦
      let all : min dirsiz (length e) ≡ dirsiz = ground arith in
      let all' : min dirsiz (length e + 1) ≡ dirsiz = ground arith in
      let full : length (take dirsiz e) ≡ dirsiz = length-take dirsiz e ∙ all in
      rw long record {
        bytes =
            ap (λ n. take n (take dirsiz e ++ drop dirsiz name)) all
            ∙ take-append dirsiz (take dirsiz e) (drop dirsiz name) full;
        nul = λ lt. absurd (ground arith);
        rest =
            ap (λ n. drop n (take dirsiz e ++ drop dirsiz name)) all'
            ∙ drop-append dirsiz (take dirsiz e) (drop dirsiz name) full
            ∙ ap (λ n. drop n name) (sym all');
      }
  | inr short ↦
      let len : min dirsiz (length e) ≡ length e = ground arith in
      let len' : min dirsiz (length e + 1) ≡ length e + 1 = ground arith in
      let tail : List ℕ = drop (length e + 1) name in
      let small : length e ≤ dirsiz = ground arith in
      rw short record {
        bytes =
            ap (λ n. take n (e ++ 0 ∷ tail)) len
            ∙ take-append (length e) e (0 ∷ tail) refl
            ∙ sym (take-all dirsiz e small);
        nul = λ lt. ap (take 1) (drop-append (length e) e (0 ∷ tail) refl);
        rest =
            ap (λ n. drop n (e ++ 0 ∷ tail)) len'
            ∙ ap (drop (length e + 1)) (sym (append-cons e 0 tail))
            ∙ drop-append (length e + 1) (e ++ 0 ∷ []) tail (length-append e (0 ∷ []))
            ∙ ap (λ n. drop n name) (sym len');
      }
]

skipelem-none : (path name : List ℕ) → skip_slashes path ≡ [] → skipelem path name ≡ none
unfolding skipelem
skipelem-none path name e = ap (λ p. first_elem p name) e

skipelem-some :
    (c : ℕ) (path rest name : List ℕ)
    → skip_slashes path ≡ c ∷ rest
    → skipelem path name
      ≡ some (skip_slashes (split_elem (c ∷ rest)).1, put_name (split_elem (c ∷ rest)).0 name)
unfolding skipelem
skipelem-some c path rest name e = ap (λ p. first_elem p name) e

length-skip_slashes : (path : List ℕ) → length (skip_slashes path) ≤ length path
unfolding skip_slashes
length-skip_slashes [] = omega arith
length-skip_slashes (c ∷ path) =
    let ih = length-skip_slashes path in
    elim (Bool-cases (c == slash)) [
      | inl slashed ↦ rw slashed (omega (arith, ih))
      | inr other ↦ rw other (omega arith)
    ]

length-split_elem : (path : List ℕ) → length (split_elem path).1 ≤ length path
unfolding split_elem
length-split_elem [] = omega arith
length-split_elem (c ∷ path) =
    let ih = length-split_elem path in
    elim (Bool-cases (c == slash)) [
      | inl slashed ↦ rw slashed (omega arith)
      | inr other ↦ rw other (omega (arith, ih))
    ]

split_elem-other :
    (c : ℕ) (rest : List ℕ)
    → (c == slash) ≡ false
    → split_elem (c ∷ rest) ≡ (c ∷ (split_elem rest).0, (split_elem rest).1)
unfolding split_elem
split_elem-other c rest other = rw other refl

-- `skipelem` returns null for exactly the paths without elements. Of any other it copies the first element to
-- the name's buffer, its first 14 bytes if it is longer, with a null byte behind it if it is shorter, and
-- leaves the rest of the buffer; it returns a path with the other elements in order, which is shorter.
pub skipelem-elems :
    (path name : List ℕ)
    → ((skipelem path name ≡ none) × (elems path ≡ []))
      ⊎ ((e : List ℕ) × (rest : List ℕ) × (name' : List ℕ) × (skipelem path name
            ≡ some (rest, name'))
          × Filled e name name'
          × (elems path ≡ e ∷ elems rest)
          × (length rest < length path))
unfolding elems_from
skipelem-elems path name = elim (skip_slashes-first path) [
  | inl e ↦ inl (skipelem-none path name e, sym (skip_slashes-elems path) ∙ ap elems e)
  | inr (c, rest, e, other) ↦
      let split = split_elem (c ∷ rest) in
      let cut = split_elem-other c rest other in
      let first : List ℕ = c ∷ (split_elem rest).0 in
      let behind : List ℕ = skip_slashes (split_elem rest).1 in
      let shorter : length behind < length path = omega (
        arith,
        length-skip_slashes (split_elem rest).1,
        length-split_elem rest,
        length-skip_slashes path,
        ap length e,
      ) in
      inr (
        first,
        behind,
        put_name first name,
        skipelem-some c path rest name e ∙ ap (λ r. some (skip_slashes r.1, put_name r.0 name)) cut,
        put_name-Filled first name,
        sym (skip_slashes-elems path)
            ∙ ap elems e
            ∙ split_elem-elems [] (c ∷ rest)
            ∙ ap (λ r. ended r.0 (elems (skip_slashes r.1))) cut,
        shorter,
      )
]
