-- ===== src/Knowledge/Lifecycle/Gated.antt =====
-- What a transition needs: the gate, and the decision of a human.
use oracle_diagnostic_estack.Prelude.{ℕ, ◌+◌, String, ◌≡◌, Option, some, [], ◌∷◌, ◌++◌, length}
use oracle_diagnostic_estack.Knowledge.State.{KbState}
use oracle_diagnostic_estack.Knowledge.Article.{Article}
use oracle_diagnostic_estack.Knowledge.Authorization.{Declaration}
use oracle_diagnostic_estack.Knowledge.Store.{VersionRecord, Entry, find_version}

-- The version is in the state, with one more event in its history, which has the declaration.
abbrev pub HasEvent : ℕ → KbState → String → VersionRecord → Option Declaration → Entry → Type 0
HasEvent v to at r o e =
    (q : VersionRecord) × (find_version v e ≡ some q)
    × (q.state ≡ to)
    × (q.history
        ≡ r.history
          ++ record {
            seq = length r.history + 1;
            from_state = some r.state;
            to_state = to;
            at_utc = at;
            declaration = o;
          }
            ∷ [])
