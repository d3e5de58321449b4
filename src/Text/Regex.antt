-- ===== src/Text/Regex.antt =====
-- The regular expressions that the program hands to Python's re: syntax, and matching by derivatives.
use oracle_diagnostic_estack.Prelude.{
  ℕ, zero, suc, ◌-◌, Bool, true, false, not, ◌&&◌, ◌||◌, Option, none, some, List, [], ◌∷◌, ◌==◌,
  leb, if◌then◌else◌,
}

-- exclusive or, of two tests
abbrev xor : Bool → Bool → Bool
xor true b = not b
xor false b = b

pub data Regex : Type 0 where
  nothing empty : Regex
  class : (ℕ → Bool) → Regex
  seq alt : Regex → Regex → Regex
  star : Regex → Regex

-- `seq` and `alt` with the trivial cases taken out, so that derivatives stay small
abbrev seq' : Regex → Regex → Regex
seq' nothing s = nothing
seq' empty s = s
seq' (class p) s = seq (class p) s
seq' (seq r t) s = seq (seq r t) s
seq' (alt r t) s = seq (alt r t) s
seq' (star r) s = seq (star r) s

abbrev alt' : Regex → Regex → Regex
alt' nothing s = s
alt' empty s = alt empty s
alt' (class p) s = alt (class p) s
alt' (seq r t) s = alt (seq r t) s
alt' (alt r t) s = alt (alt r t) s
alt' (star r) s = alt (star r) s

unfoldable pub nullable : Regex → Bool
nullable nothing = false
nullable empty = true
nullable (class p) = false
nullable (seq r s) = nullable r && nullable s
nullable (alt r s) = nullable r || nullable s
nullable (star r) = true

unfoldable pub derivative : ℕ → Regex → Regex
unfolding nullable
derivative c nothing = nothing
derivative c empty = nothing
derivative c (class p) = if p c then empty else nothing
derivative c (seq r s) =
    let left = seq' (derivative c r) s in
    let right = derivative c s in if nullable r then alt' left right else left
derivative c (alt r s) = alt' (derivative c r) (derivative c s)
derivative c (star r) = seq' (derivative c r) (star r)

-- `re.fullmatch(r, text)`, or `re.match` of a pattern that ends in \Z
unfoldable pub full_match : Regex → List ℕ → Bool
unfolding derivative nullable
full_match r [] = nullable r
full_match r (c ∷ cs) = full_match (derivative c r) cs

abbrev pub newline : Regex
newline = class (λ c. c == 10)

-- `re.match` of a pattern that ends in `$`, which also matches before a final newline
unfoldable pub match_dollar : Regex → List ℕ → Bool
unfolding full_match
match_dollar r text = full_match (seq r (alt empty newline)) text

-- `x{lo,hi}`
abbrev pub optional_times : ℕ → Regex → Regex
optional_times zero r = empty
optional_times (suc n) r = alt empty (seq r (optional_times n r))

abbrev pub times : ℕ → Regex → Regex → Regex
times zero r rest = rest
times (suc n) r rest = seq r (times n r rest)

abbrev pub repeat : ℕ → ℕ → Regex → Regex
repeat lo hi r = times lo r (optional_times (hi - lo) r)

abbrev pub char : ℕ → Regex
char k = class (λ c. c == k)

-- the literal text
abbrev pub literal : List ℕ → Regex
literal [] = empty
literal (c ∷ cs) = seq (char c) (literal cs)

abbrev pub range : ℕ → ℕ → ℕ → Bool
range lo hi c = leb lo c && leb c hi

-- the class of the listed characters
abbrev pub one_of : List ℕ → ℕ → Bool
one_of [] c = false
one_of (k ∷ ks) c = c == k || one_of ks c

-- `re.search` of a pattern that may begin and end with a word boundary, \b. Before the text and
-- after it there is no word character; `none` stands for either end.
module _ (is_word : ℕ → Bool) where
  abbrev word_at : Option ℕ → Bool
  word_at none = false
  word_at (some c) = is_word c

  abbrev first : List ℕ → Option ℕ
  first [] = none
  first (c ∷ cs) = some c

  abbrev boundary : Option ℕ → List ℕ → Bool
  boundary before rest = xor (word_at before) (word_at (first rest))

  -- Some prefix of the rest matches, and ends at a boundary if that is asked.
  unfoldable pub match_prefix : (at_end : Bool) → Regex → Option ℕ → List ℕ → Bool
  unfolding derivative nullable
  match_prefix at_end r before [] = nullable r && (not at_end || boundary before [])
  match_prefix at_end r before (c ∷ cs) =
      (nullable r && (not at_end || boundary before (c ∷ cs)))
      || match_prefix at_end (derivative c r) (some c) cs

  unfoldable pub search_from : (at_start at_end : Bool) → Regex → Option ℕ → List ℕ → Bool
  unfolding match_prefix
  search_from at_start at_end r before [] =
      (not at_start || boundary before []) && match_prefix at_end r before []
  search_from at_start at_end r before (c ∷ cs) =
      ((not at_start || boundary before (c ∷ cs)) && match_prefix at_end r before (c ∷ cs))
      || search_from at_start at_end r (some c) cs
