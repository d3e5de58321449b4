-- ===== src/Tests/EvidenceTests.antt =====
-- Runs of the evidence store and of the sanitizer. Payloads of the store are texts here, and the
-- digest of a text is itself.
use oracle_diagnostic_estack.Prelude.{
  ℕ, ◌+◌, ◌≤◌, ◌<◌, String, ◌≡◌, refl, ◌↔◌, ◌⊎◌, ◌&&◌, ◌||◌, some, none, List, [], ◌∷◌, arith,
  length, leb, ◌==◌, All, take,
}
use oracle_diagnostic_estack.Prelude.Int.{pos}
use oracle_diagnostic_estack.Prelude.Dict.{Dict, lookup}
use oracle_diagnostic_estack.Common.{ok, raise, evidence_not_found}
use oracle_diagnostic_estack.Schemas.{int, str, obj, Items, nil, cons, Members, end, member}
use oracle_diagnostic_estack.Evidence.Store.{
  Entry, EvidenceStore, entry, purge, put, get, size, clear_session,
}
use oracle_diagnostic_estack.Evidence.Store.Bounded.{start, after_put, store_bounded}
use oracle_diagnostic_estack.Evidence.Store.Scope.{get_ok_iff, get-put}
use oracle_diagnostic_estack.Evidence.Store.Eviction.{put_loses}
use oracle_diagnostic_estack.Evidence.Sanitize.{
  Field, FieldType, Policy, same, alias, Runtime, Aliases, Payload, sanitize_rows, cap_of, as_rows,
  fields_dropped_by_policy,
}
use oracle_diagnostic_estack.Evidence.Sanitize.Deny.{FromSome, sanitize_rows-deny}

abbrev digest : String → String
digest p = p

abbrev empty_store : EvidenceStore String
empty_store = record { items = []; ttl = 3600; max = 1 }

abbrev first_entry : Entry String
first_entry = entry digest 11 "S1" "prod" "Q-DISC-CLOCK-001" "rows"

abbrev one : EvidenceStore String
one = record { items = ("EVR-a", first_entry) ∷ []; ttl = 3600; max = 1 }

abbrev two : EvidenceStore String
two = record { items = ("EVR-b", entry digest 21 "S1" "prod" "Q" "more") ∷ []; ttl = 3600; max = 1 }

first_put : put digest 10 11 "EVR-a" "S1" "prod" "Q-DISC-CLOCK-001" "rows" empty_store ≡ some one
unfolding put
first_put = refl

second_put : put digest 20 21 "EVR-b" "S1" "prod" "Q" "more" one ≡ some two
unfolding put
second_put = refl

other_session : (get digest 30 "EVR-a" "S2" "prod" one).0 ≡ raise evidence_not_found
unfolding get
other_session = refl

expired : (get digest 3612 "EVR-a" "S1" "prod" one).0 ≡ raise evidence_not_found
unfolding get
expired = refl

cleared : clear_session "S1" one ≡ (empty_store, 1)
unfolding clear_session
cleared = refl

store_bounded_example :
    (size one ≤ 1)
    × ((now stamp : ℕ) (ref session target collector : String) (p : String)
        → (s' : EvidenceStore String) × (put digest now stamp ref session target collector p one
            ≡ some s'))
store_bounded_example =
    store_bounded digest 3600 1 one
      (after_put 10 11 "EVR-a" "S1" "prod" "Q-DISC-CLOCK-001" "rows" start first_put) (omega arith)

get_ok_iff_example :
    ((e : Entry String)
      → ((get digest 30 "EVR-a" "S1" "prod" one).0 ≡ ok e) ↔ (
          (lookup "EVR-a" one.items ≡ some e)
          × (30 ≤ e.t + 3600)
          × (e.session ≡ "S1")
          × (e.target ≡ "prod")
          × (digest e.payload ≡ e.digest)))
    × (((e : Entry String) × ((get digest 30 "EVR-a" "S1" "prod" one).0 ≡ ok e))
        ⊎ ((get digest 30 "EVR-a" "S1" "prod" one).0 ≡ raise evidence_not_found))
unfolding lookup
get_ok_iff_example = get_ok_iff digest 30 "EVR-a" "S1" "prod" one (refl, tt)

get-put_example : (get digest 500 "EVR-a" "S1" "prod" one).0 ≡ ok first_entry
get-put_example =
    get-put digest 10 11 500 "EVR-a" "S1" "prod" "Q-DISC-CLOCK-001" "rows" empty_store one tt
      first_put (omega arith)

put_loses_example :
    (11 + 3600 < 20)
    ⊎ ((1 ≤ length (purge 20 one).items)
        × ((k : String) (x : Entry String) → lookup k (purge 20 one).items ≡ some x → 11 ≤ x.t))
unfolding lookup
put_loses_example =
    put_loses digest 20 21 "EVR-b" "S1" "prod" "Q" "more" one two (refl, tt) second_put "EVR-a"
      first_entry refl refl

abbrev host_field : Field
host_field = record {
  kind = FieldType.identifier;
  policy = Policy.mask;
  least = none;
  most = none;
  values = [];
  alias_prefix = some "host";
}

abbrev count_field : Field
count_field = record {
  kind = FieldType.integer;
  policy = Policy.keep;
  least = some (pos 0);
  most = none;
  values = [];
  alias_prefix = none;
}

abbrev fields : Dict Field
fields = ("host_name", host_field) ∷ ("sessions", count_field) ∷ []

abbrev ascii_runtime : Runtime
ascii_runtime = record {
  is_word = λ c.
      (leb b'0' c && leb c b'9')
      || (leb b'A' c && leb c b'Z')
      || (leb b'a' c && leb c b'z')
      || c == b'_';
  is_decimal = λ c. leb b'0' c && leb c b'9';
  mac = λ domain target value n. value;
  derive_signature_token = λ target raw. "SIG";
  to_utc = λ t. some t;
  certified_names = [];
}

abbrev raw_rows : Items
raw_rows =
    cons
      (obj (
        member "host_name" (str "dbhost01")
          (member "sessions" (int (pos 7)) (member "password" (str "x") end))))
      (cons (obj (member "host_name" (str "dbhost01") end)) nil)

abbrev released : Payload
released = record {
  columns = "host_name" ∷ "sessions" ∷ [];
  rows =
      (("host_name", alias "host" 1) ∷ ("sessions", same (int (pos 7))) ∷ [])
      ∷ (("host_name", alias "host" 1) ∷ [])
      ∷ [];
  row_count = 2;
  limitations = fields_dropped_by_policy 1 ∷ [];
}

abbrev aliases_after : Aliases
aliases_after = ("prod", "host", ("dbhost01", 1) ∷ []) ∷ []

sanitized :
    sanitize_rows ascii_runtime fields 50 raw_rows "prod" 20 [] ≡ ok (released, aliases_after)
unfolding sanitize_rows
sanitized = refl

sanitize_rows-deny_example :
    (2 ≡ length released.rows)
    × (2 ≤ cap_of 20 50)
    × ((raws : List Members) × (as_rows raw_rows ≡ some raws)
        × All (FromSome ascii_runtime fields "prod" (take (cap_of 20 50) raws)) released.rows)
sanitize_rows-deny_example =
    sanitize_rows-deny ascii_runtime fields 50 raw_rows "prod" 20 [] aliases_after released
      sanitized
