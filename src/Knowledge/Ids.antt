-- ===== src/Knowledge/Ids.antt =====
-- The identifiers that change_documentation_knowledge/safety.py accepts, and
-- `contains_secret_pattern` of rca_engine/sanitize.py. What Python takes from its Unicode tables is a
-- parameter: \w and \d.
use oracle_diagnostic_estack.Prelude.{
  ℕ, String, Bool, true, false, not, ◌&&◌, ◌||◌, List, [], ◌∷◌, ◌==◌, leb, length, all, any, map,
  if◌then◌else◌,
}
use oracle_diagnostic_estack.Text.{Text, codes, split, text_eq}
use oracle_diagnostic_estack.Text.Regex.{
  Regex, class, seq, alt, repeat, char, literal, range, one_of, match_dollar,
}
use oracle_diagnostic_estack.Evidence.Grammar.{has_structured_secret, token_words}

-- `_ID_PREFIXES`
abbrev id_prefixes : List String
id_prefixes =
    "INC" ∷ "EVD" ∷ "FND" ∷ "HYP" ∷ "RCA" ∷ "REC" ∷ "CHG" ∷ "DOC" ∷ "KBC" ∷ "KB" ∷ "KBV" ∷ "TGT"
    ∷ "SRC" ∷ "SIG" ∷ "ADV" ∷ "REV" ∷ "AUTH" ∷ "ASM" ∷ []

abbrev first_of : List String → Regex
first_of [] = class (λ c. false)
first_of (p ∷ ps) = alt (literal (codes p)) (first_of ps)

abbrev digit : ℕ → Bool
digit = range b'0' b'9'

abbrev alphanumeric : ℕ → Bool
alphanumeric c = range b'A' b'Z' c || range b'a' b'z' c || digit c

-- `_ID_SHAPE`
abbrev id_shape : Regex
id_shape =
    seq (first_of id_prefixes)
      (seq (char b'-') (repeat 1 60 (class (λ c. alphanumeric c || one_of (codes "._-") c))))

abbrev inc_body : Regex
inc_body = seq (repeat 8 8 (class digit)) (seq (char b'-') (repeat 3 4 (class digit)))

abbrev evd_body : Regex
evd_body =
    let part = repeat 1 12 (class alphanumeric) in seq part (repeat 0 2 (seq (char b'-') part))

abbrev rev_body : Regex
rev_body = repeat 6 16 (class alphanumeric)

-- `str.partition("-")`: before the first dash and after it
abbrev before_dash : Text → Text
before_dash [] = []
before_dash (c ∷ cs) = if c == b'-' then [] else c ∷ before_dash cs

abbrev after_dash : Text → Text
after_dash [] = []
after_dash (c ∷ cs) = if c == b'-' then cs else after_dash cs

-- `_STRICT_BODY`
unfoldable has_strict_body : (prefix body : Text) → Bool
unfolding match_dollar text_eq
has_strict_body prefix body =
    if text_eq prefix (codes "INC")
    then match_dollar inc_body body
    else if text_eq prefix (codes "EVD")
    then match_dollar evd_body body
    else if text_eq prefix (codes "REV")
    then match_dollar rev_body body
    else true

abbrev replaced_by : ℕ → Text → Text
replaced_by d = map (λ c. if one_of (codes "-_.") c then d else c)

abbrev max_id_segment : ℕ
max_id_segment = 19

abbrev is_found : List Text → Bool
is_found [] = false
is_found (w ∷ ws) = true

module _ (is_word is_decimal : ℕ → Bool) where
  unfoldable pub contains_secret_pattern : Text → Bool
  unfolding has_structured_secret token_words
  contains_secret_pattern text =
      has_structured_secret is_word is_decimal text || is_found (token_words [] text)

  abbrev is_safe_segment : Text → Bool
  is_safe_segment s = leb (length s) max_id_segment && not (contains_secret_pattern s)

  -- `is_safe_id`, with prefixes
  unfoldable pub is_safe_id : (prefixes : List String) → String → Bool
  unfolding match_dollar text_eq split has_strict_body contains_secret_pattern
  is_safe_id prefixes id =
      let value = codes id in
      match_dollar id_shape value
      && any (λ p. text_eq (before_dash value) (codes p)) prefixes
      && has_strict_body (before_dash value) (after_dash value)
      && all is_safe_segment (split b'-' (replaced_by b'-' value))
      && not (contains_secret_pattern (replaced_by b' ' value))
