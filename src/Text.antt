-- ===== src/Text.antt =====
-- Text as Python's str: a list of code points, for code that walks characters.
pub mod Regex
use Prim.Native.Char.{code}
use Prim.Native.String
use oracle_diagnostic_estack.Prelude.{
  ℕ, suc, ◌+◌, ◌*◌, ◌-◌, String, Bool, true, false, ◌&&◌, ◌||◌, List, [], ◌∷◌, ◌++◌, ◌==◌, leb, ltb,
  ◌≡◌, refl, arith, if◌then◌else◌,
}

abbrev pub Text : Type 0
Text = List ℕ

abbrev pub codes : String → Text
codes String.[] = []
codes (String.◌∷◌ c s) = code c ∷ codes s

-- `==` of two texts
unfoldable pub text_eq : Text → Text → Bool
text_eq [] [] = true
text_eq [] (y ∷ ys) = false
text_eq (x ∷ xs) [] = false
text_eq (x ∷ xs) (y ∷ ys) = x == y && text_eq xs ys

-- the class [0-9]
abbrev pub is_digit : ℕ → Bool
is_digit c = leb b'0' c && leb c b'9'

-- `str.split(sep)` at one character
abbrev pub push : ℕ → List Text → List Text
push c [] = (c ∷ []) ∷ []
push c (p ∷ ps) = (c ∷ p) ∷ ps

unfoldable pub split : ℕ → Text → List Text
split sep [] = [] ∷ []
split sep (c ∷ cs) = let rest = split sep cs in if c == sep then [] ∷ rest else push c rest

-- `int(text)` of a text of decimal digits
unfoldable pub int_from : ℕ → Text → ℕ
int_from acc [] = acc
int_from acc (c ∷ cs) = int_from (acc * 10 + (c - b'0')) cs

-- The characters that `str.strip` removes (`str.isspace`).
unfoldable pub is_space : ℕ → Bool
is_space c =
    (leb 9 c && leb c 13)
    || (leb 28 c && leb c 32)
    || c == 0x85
    || c == 0xa0
    || c == 0x1680
    || (leb 0x2000 c && leb c 0x200a)
    || c == 0x2028
    || c == 0x2029
    || c == 0x202f
    || c == 0x205f
    || c == 0x3000

unfoldable pub lstrip : Text → Text
unfolding is_space
lstrip [] = []
lstrip (c ∷ cs) = let rest = lstrip cs in if is_space c then rest else c ∷ cs

unfoldable pub rstrip : Text → Text
unfolding is_space
rstrip [] = []
rstrip (c ∷ cs) =
    let rest = rstrip cs in
    elim rest [ [] ↦ if is_space c then [] else c ∷ [] | x ∷ xs ↦ c ∷ x ∷ xs ]

unfoldable pub strip : Text → Text
unfolding lstrip rstrip
strip s = rstrip (lstrip s)

-- ASCII `str.lower`; other letters are left alone.
abbrev pub lower_ascii : ℕ → ℕ
lower_ascii c = if leb b'A' c && leb c b'Z' then c + 32 else c

-- `needle in haystack`
unfoldable pub starts_with : Text → Text → Bool
starts_with [] s = true
starts_with (p ∷ ps) [] = false
starts_with (p ∷ ps) (c ∷ s) = p == c && starts_with ps s

unfoldable pub is_within : Text → Text → Bool
unfolding starts_with
is_within needle [] = starts_with needle []
is_within needle (c ∷ s) = starts_with needle (c ∷ s) || is_within needle s

-- `" ".join(texts)`
unfoldable pub join_words : List Text → Text
join_words [] = []
join_words (t ∷ ts) = let rest = join_words ts in elim ts [ [] ↦ t | u ∷ us ↦ t ++ b' ' ∷ rest ]

-- Python's `<` on texts: by code points, and a prefix first
unfoldable pub text_lt : Text → Text → Bool
text_lt [] [] = false
text_lt [] (y ∷ ys) = true
text_lt (x ∷ xs) [] = false
text_lt (x ∷ xs) (y ∷ ys) = ltb x y || (x == y && text_lt xs ys)

pub text_lt_asym : (s t : Text) → text_lt s t ≡ true → text_lt t s ≡ false
unfolding text_lt
text_lt_asym [] [] h = refl
text_lt_asym [] (y ∷ ys) h = refl
text_lt_asym (x ∷ xs) [] h = absurd (ground arith)
text_lt_asym (x ∷ xs) (y ∷ ys) h = let rest = text_lt_asym xs ys in ground (arith, rest)

abbrev pub str_lt : String → String → Bool
str_lt s t = text_lt (codes s) (codes t)
