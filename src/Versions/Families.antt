-- ===== src/Versions/Families.antt =====
-- A version's family is decided by its first component alone.
use oracle_diagnostic_estack.Prelude.{
  ℕ, ◌≡◌, refl, Bool, true, false, ◌||◌, none, some, List, [], ◌∷◌, map, arith, ◌==◌, all,
}
use oracle_diagnostic_estack.Text.{
  Text, text_eq, is_digit, is_space, split, push, lstrip, rstrip, lower_ascii,
}
use oracle_diagnostic_estack.Versions.{
  is_component, is_dotted, parse_version, family_token, family_by_major, is_suffix, within_len,
  family_of,
}

-- a character of a dotted version
abbrev in_version : ℕ → Bool
in_version c = is_digit c || c == b'.'

all_digits_of_component :
    (n : ℕ) (ps : List Text) → all (is_component n) ps ≡ true → all (all is_digit) ps ≡ true
all_digits_of_component n [] h = refl
all_digits_of_component n (p ∷ ps) h =
    let rest = all_digits_of_component n ps in ground (arith, rest)

all_digits_of_dotted : (ps : List Text) → is_dotted ps ≡ true → all (all is_digit) ps ≡ true
unfolding is_dotted
all_digits_of_dotted [] h = refl
all_digits_of_dotted (p ∷ ps) h = ground (arith, all_digits_of_component 5 ps)

all_digits-push :
    (c : ℕ) (ps : List Text)
    → all (all is_digit) (push c ps) ≡ true
    → (is_digit c ≡ true) × (all (all is_digit) ps ≡ true)
all_digits-push c [] h = ground arith
all_digits-push c (p ∷ ps) h = ground arith

in_version_of_split :
    (t : Text) → all (all is_digit) (split b'.' t) ≡ true → all in_version t ≡ true
unfolding split
in_version_of_split [] h = refl
in_version_of_split (c ∷ cs) h =
    let rest = in_version_of_split cs in ground (arith, rest, all_digits-push c (split b'.' cs))

not_space : (c : ℕ) → in_version c ≡ true → is_space c ≡ false
unfolding is_space
not_space c h = ground arith

lstrip-version : (t : Text) → all in_version t ≡ true → lstrip t ≡ t
unfolding lstrip
lstrip-version [] h = refl
lstrip-version (c ∷ cs) h = ground (arith, not_space c)

rstrip-version : (t : Text) → all in_version t ≡ true → rstrip t ≡ t
unfolding rstrip
rstrip-version [] h = refl
rstrip-version (c ∷ []) h = ground (arith, not_space c)
rstrip-version (c ∷ d ∷ cs) h = let rest = rstrip-version (d ∷ cs) (ground arith) in rw rest

suffix_has_letter : (s : Text) → all in_version s ≡ true → is_suffix (map lower_ascii s) ≡ false
unfolding text_eq
suffix_has_letter [] h = refl
suffix_has_letter (c ∷ cs) h = ground arith

no_token : (t : Text) → all in_version t ≡ true → family_token t ≡ none
unfolding family_token
no_token [] h = refl
no_token (x ∷ []) h = refl
no_token (x ∷ y ∷ rest) h = ground (arith, suffix_has_letter rest)

module _ (t : Text) (major : ℕ) (rest : List ℕ)
    (parsed : parse_version t ≡ some (major ∷ rest)) where
  dotted : (within_len t ≡ true) × (is_dotted (split b'.' t) ≡ true)
  unfolding parse_version
  dotted = ground arith

  version_chars : all in_version t ≡ true
  version_chars = in_version_of_split t (all_digits_of_dotted (split b'.' t) dotted.1)

  -- A text that parses as a dotted version belongs to the family of its first component, whatever
  -- the release update and patch components are.
  pub family_of-parsed : family_of t ≡ family_by_major major
  unfolding family_of
  family_of-parsed = rw (
    dotted.0,
    lstrip-version t version_chars,
    rstrip-version t version_chars,
    no_token t version_chars,
    parsed,
  )
