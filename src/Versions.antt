-- ===== src/Versions.antt =====
-- mcp_gateway/versions.py: dotted Oracle versions, their numeric order, and their families.
pub mod Order
pub mod Families
use oracle_diagnostic_estack.Prelude.{
  ℕ, zero, suc, ◌+◌, ◌-◌, max, Bool, true, false, ◌&&◌, ◌||◌, Option, none, some, List, [], ◌∷◌,
  ◌++◌, map, ltb, leb, ◌==◌, length, replicate, all, if◌then◌else◌,
}
use oracle_diagnostic_estack.Prelude.Int.{ℤ, pos, ◌-ℤ◌}
use oracle_diagnostic_estack.Text.{Text, text_eq, is_digit, split, int_from, strip, lower_ascii}

-- the values of `FAMILY_BY_MAJOR`
pub data Family : Type 0 where
  oracle_10g oracle_11g oracle_12c oracle_18c oracle_19c oracle_21c oracle_23ai : Family

unfoldable pub family_by_major : ℕ → Option Family
family_by_major n =
    if n == 10
    then some oracle_10g
    else if n == 11
    then some oracle_11g
    else if n == 12
    then some oracle_12c
    else if n == 18
    then some oracle_18c
    else if n == 19
    then some oracle_19c
    else if n == 21
    then some oracle_21c
    else if n == 23
    then some oracle_23ai
    else none

abbrev pub max_len : ℕ
max_len = 40

-- `1 <= len(text) <= _MAX_LEN`
abbrev pub within_len : Text → Bool
within_len text = leb 1 (length text) && leb (length text) max_len

-- A component of `_DOTTED`: [0-9]{1,most}
abbrev is_component : ℕ → Text → Bool
is_component most part = leb 1 (length part) && leb (length part) most && all is_digit part

-- `_DOTTED` on the parts between the dots: one of up to 3 digits, then up to 5 of up to 5
unfoldable pub is_dotted : List Text → Bool
is_dotted [] = false
is_dotted (first ∷ rest) = is_component 3 first && leb (length rest) 5 && all (is_component 5) rest

unfoldable pub parse_version : Text → Option (List ℕ)
unfolding split int_from is_dotted
parse_version text =
    let parts = split b'.' text in
    if within_len text && is_dotted parts then some (map (int_from 0) parts) else none

-- Python's `<` on tuples of integers
unfoldable pub tuple_lt : List ℕ → List ℕ → Bool
tuple_lt [] [] = false
tuple_lt [] (y ∷ ys) = true
tuple_lt (x ∷ xs) [] = false
tuple_lt (x ∷ xs) (y ∷ ys) = ltb x y || (x == y && tuple_lt xs ys)

-- `p + (0,) * (n - len(p))`
abbrev pub pad : ℕ → List ℕ → List ℕ
pad n p = p ++ replicate (n - length p) 0

abbrev pub from_bool : Bool → ℤ
from_bool true = pos 1
from_bool false = pos 0

unfoldable pub compare_parsed : List ℕ → List ℕ → ℤ
unfolding tuple_lt ◌-ℤ◌
compare_parsed pa pb =
    let n = max (length pa) (length pb) in
    from_bool (tuple_lt (pad n pb) (pad n pa)) -ℤ from_bool (tuple_lt (pad n pa) (pad n pb))

abbrev both : Option (List ℕ) → Option (List ℕ) → Option ℤ
both none pb = none
both (some pa) none = none
both (some pa) (some pb) = some (compare_parsed pa pb)

unfoldable pub compare_versions : Text → Text → Option ℤ
unfolding parse_version compare_parsed
compare_versions a b = both (parse_version a) (parse_version b)

-- The lower-case letters after the two digits of a family token, from its letters.
unfoldable pub suffix_of : Family → Text
suffix_of oracle_10g = b'g' ∷ []
suffix_of oracle_11g = b'g' ∷ []
suffix_of oracle_23ai = b'a' ∷ b'i' ∷ []
suffix_of _ = b'c' ∷ []

-- `_FAMILY_TOKEN`: two digits and one of g, c, ai in either case. (Its IGNORECASE lets the
-- dotted and dotless i of Turkish through too; `lower` then makes the answer none as well.)
abbrev is_suffix : Text → Bool
is_suffix s = text_eq s (b'g' ∷ []) || text_eq s (b'c' ∷ []) || text_eq s (b'a' ∷ b'i' ∷ [])

-- The number and the suffix of a token, if the text is one.
unfoldable pub family_token : Text → Option (ℕ × Text)
unfolding text_eq int_from
family_token (x ∷ y ∷ rest) =
    let suffix = map lower_ascii rest in
    if is_digit x && is_digit y && is_suffix suffix
    then some (int_from 0 (x ∷ y ∷ []), suffix)
    else none
family_token _ = none

-- `family if family and family.lower() == text.strip().lower() else None`
abbrev same_token : Text → Option Family → Option Family
same_token suffix none = none
same_token suffix (some f) = if text_eq (suffix_of f) suffix then some f else none

abbrev family_parsed : Option (List ℕ) → Option Family
family_parsed none = none
family_parsed (some []) = none
family_parsed (some (major ∷ _)) = family_by_major major

abbrev by_token : Option (ℕ × Text) → Text → Option Family
by_token (some (major, suffix)) text = same_token suffix (family_by_major major)
by_token none text = family_parsed (parse_version text)

unfoldable pub family_of : Text → Option Family
unfolding strip family_token parse_version family_by_major suffix_of
family_of text =
    let stripped = strip text in
    if within_len text then by_token (family_token stripped) stripped else none
