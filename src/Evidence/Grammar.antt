-- ===== src/Evidence/Grammar.antt =====
-- The patterns of mcp_gateway/evidence.py and rca_engine/sanitize.py, and the test for texts that
-- look like secrets. What Python takes from its Unicode tables is a parameter: \w and \d.
use oracle_diagnostic_estack.Prelude.{
  ℕ, ◌*◌, Bool, true, false, not, ◌&&◌, ◌||◌, none, List, [], ◌∷◌, ◌++◌, map, ◌==◌, leb, length,
  any, keep, if◌then◌else◌,
}
use oracle_diagnostic_estack.Text.{Text, codes, is_space, lower_ascii}
use oracle_diagnostic_estack.Text.Regex.{
  Regex, empty, class, seq, alt, star, repeat, char, literal, range, one_of, match_dollar,
  search_from,
}

abbrev upper : ℕ → Bool
upper = range b'A' b'Z'

abbrev lower : ℕ → Bool
lower = range b'a' b'z'

abbrev digit : ℕ → Bool
digit = range b'0' b'9'

abbrev letter : ℕ → Bool
letter c = upper c || lower c

abbrev optional : Regex → Regex
optional r = alt empty r

abbrev at_least : ℕ → Regex → Regex
at_least n r = seq (repeat n n r) (star r)

-- `_IDENT`
abbrev pub identifier : Regex
identifier = seq (optional (char b'+')) (
    seq (class letter) (repeat 0 63 (class (λ c. letter c || digit c || one_of (codes "_$#.-") c))))

-- `_PARAM_NAME`
abbrev pub parameter_name : Regex
parameter_name =
    seq (repeat 0 2 (char b'_'))
      (seq (class lower) (repeat 0 79 (class (λ c. lower c || digit c || c == b'_'))))

-- `_SQL_ID`
abbrev pub sql_id : Regex
sql_id = repeat 13 13 (class (λ c. digit c || lower c))

-- `_ORACLE_TERM`
abbrev pub oracle_term : Regex
oracle_term =
    seq (class letter)
      (repeat 0 63 (class (λ c. letter c || digit c || one_of (codes " :_/().,*#$&+-") c)))

-- `_READABLE_IDENT`
abbrev pub readable_identifier : Regex
readable_identifier =
    alt
      (seq (class upper) (repeat 19 63 (class (λ c. upper c || digit c || one_of (codes "_$#") c))))
      (seq (class lower) (repeat 19 63 (class (λ c. lower c || digit c || one_of (codes "_$#") c))))

-- A letter of a pattern under IGNORECASE, from its lower case.
abbrev same_letter : ℕ → ℕ → Bool
same_letter k c =
    lower_ascii c == k
    || (k == b'i' && (c == 0x130 || c == 0x131))
    || (k == b's' && c == 0x17f)
    || (k == b'k' && c == 0x212a)

abbrev caseless : Text → Regex
caseless [] = empty
caseless (k ∷ ks) = seq (class (same_letter k)) (caseless ks)

abbrev one_text : List Regex → Regex
one_text [] = Regex.nothing
one_text (r ∷ []) = r
one_text (r ∷ rs) = alt r (one_text rs)

abbrev space : Regex
space = class is_space

abbrev not_space : Regex
not_space = class (λ c. not (is_space c))

-- `_KEY_VALUE_SECRET`, without its leading \b
abbrev key_value_secret : Regex
key_value_secret =
    seq
      (one_text (
        caseless (codes "password")
        ∷ caseless (codes "pwd")
        ∷ caseless (codes "passwd")
        ∷ caseless (codes "secret")
        ∷ seq (caseless (codes "api"))
            (seq (optional (class (one_of (codes "_-")))) (caseless (codes "key")))
        ∷ caseless (codes "apikey")
        ∷ caseless (codes "token")
        ∷ caseless (codes "authorization")
        ∷ []))
      (seq (star space)
        (seq (class (one_of (codes ":="))) (seq (star space) (at_least 1 not_space))))

-- `_BEARER_TOKEN`, without its leading \b
abbrev bearer_token : Regex
bearer_token = seq (caseless (codes "bearer")) (seq (at_least 1 space) (at_least 1 not_space))

-- `_AWS_ACCESS_KEY`, between its two \b
abbrev aws_access_key : Regex
aws_access_key = seq (literal (codes "AKIA")) (repeat 16 16 (class (λ c. digit c || upper c)))

-- `_PEM_PRIVATE_KEY`
abbrev anything : Regex
anything = star (class (λ c. true))

abbrev pem_line : Text → Regex
pem_line word = seq (literal (codes "-----")) (
    seq (literal word)
      (seq (star (class (λ c. upper c || c == b' '))) (literal (codes "PRIVATE KEY-----"))))

abbrev pem_private_key : Regex
pem_private_key = seq (pem_line (codes "BEGIN ")) (seq anything (pem_line (codes "END ")))

-- `_LONG_HEX_HASH`, between its two \b
abbrev long_hex_hash : Regex
long_hex_hash = at_least 32 (class (λ c. digit c || range b'a' b'f' c || range b'A' b'F' c))

module _ (is_word is_decimal : ℕ → Bool) where
  abbrev decimal : Regex
  decimal = class is_decimal

  -- `_VERSION`
  abbrev pub version : Regex
  version = seq (repeat 1 2 decimal) (repeat 1 5 (seq (char b'.') (repeat 1 3 decimal)))

  -- hh:mm:ss with up to six decimals
  abbrev clock : Regex
  clock = seq (repeat 2 2 decimal) (
      seq (char b':') (
        seq (repeat 2 2 decimal) (
          seq (char b':')
            (seq (repeat 2 2 decimal) (optional (seq (char b'.') (repeat 1 6 decimal)))))))

  -- `_TS`
  abbrev pub timestamp : Regex
  timestamp = seq (repeat 4 4 decimal) (
      seq (char b'-') (
        seq (repeat 2 2 decimal) (
          seq (char b'-') (
            seq (repeat 2 2 decimal) (
              seq (char b'T') (
                seq clock (
                  alt (char b'Z') (
                    seq (class (one_of (codes "+-")))
                      (seq (repeat 2 2 decimal) (seq (char b':') (repeat 2 2 decimal)))))))))))

  -- `_INTERVAL`
  abbrev pub interval : Regex
  interval = seq (class (one_of (codes "+-"))) (seq (repeat 2 2 decimal) (seq (char b' ') clock))

  -- `_CERTIFIED_CODE_PATTERN`
  abbrev pub certified_code : Regex
  certified_code =
      seq
        (one_text (
          literal (codes "ORA")
          ∷ literal (codes "TNS")
          ∷ literal (codes "RMAN")
          ∷ literal (codes "CRS")
          ∷ literal (codes "LSNR")
          ∷ literal (codes "PLS")
          ∷ []))
        (seq (char b'-') (repeat 3 6 decimal))

  -- `_CONNECTION_STRING_CREDENTIALS`
  abbrev connection_credentials : Regex
  connection_credentials = seq (class letter) (
      seq (star (class (λ c. is_word c || one_of (codes "+.-") c))) (
        seq (literal (codes "://")) (
          seq (at_least 1 (class (λ c. not (c == b'/' || is_space c || c == b':' || c == b'@')))) (
            seq (char b':') (
              seq
                (at_least 1 (class (λ c. not (c == b'/' || is_space c || c == b':' || c == b'@'))))
                (char b'@'))))))

  -- A match of one of `_STRUCTURED_PATTERNS`, or of connection credentials, somewhere in the text
  unfoldable pub has_structured_secret : Text → Bool
  unfolding search_from
  has_structured_secret text =
      search_from is_word true false key_value_secret none text
      || search_from is_word true false bearer_token none text
      || search_from is_word true true aws_access_key none text
      || search_from is_word false false pem_private_key none text
      || search_from is_word true true long_hex_hash none text
      || search_from is_word false false connection_credentials none text

-- the characters of `_BARE_TOKEN_WORD`
abbrev token_char : ℕ → Bool
token_char c = letter c || digit c || one_of (codes "_+/=-") c

-- `_BARE_TOKEN_WORD.findall`: the longest runs of such characters, those of 20 and more
abbrev flush : Text → List Text → List Text
flush run rest = if leb 20 (length run) then run ∷ rest else rest

unfoldable pub token_words : Text → Text → List Text
token_words run [] = flush run []
token_words run (c ∷ cs) =
    let after = token_words (if token_char c then run ++ c ∷ [] else []) cs in
    if token_char c then after else flush run after

-- The exemption of `_identifier_secret_shaped`: one case, and at most a quarter digits. `isdigit`
-- is asked only of token characters, where it means 0 to 9.
abbrev is_readable : Text → Bool
is_readable w = match_dollar readable_identifier w && leb (length (keep digit w) * 4) (length w)

abbrev blank_dots : Text → Text
blank_dots = map (λ c. if c == b'.' || c == b'$' then b' ' else c)

module _ (is_word is_decimal : ℕ → Bool) where
  -- `_identifier_secret_shaped`
  unfoldable pub is_secret_shaped : Text → Bool
  unfolding has_structured_secret token_words match_dollar
  is_secret_shaped raw =
      let text = blank_dots raw in
      has_structured_secret is_word is_decimal text
      || any (λ w. not (is_readable w)) (token_words [] text)
