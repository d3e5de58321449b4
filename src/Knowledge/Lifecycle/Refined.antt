-- ===== src/Knowledge/Lifecycle/Refined.antt =====
-- A transition of the knowledge base as a step of an abstract one, which has only the state of each
-- version of each entry.
use oracle_diagnostic_estack.Prelude.{
  ℕ, String, ◌≡◌, ◌⊎◌, refl, sym, ap, subst, ◌∙◌, Bool, true, false, not, ◌&&◌, Option, none, some,
  ◌==◌, ==_iff, str_eq, eq_iff, inl, inr, if◌then◌else◌, pick_if,
}
use oracle_diagnostic_estack.Knowledge.State.{
  KbState, published, superseded, is_allowed, eq_state, done,
}
use oracle_diagnostic_estack.Knowledge.Article.{Article}
use oracle_diagnostic_estack.Knowledge.Authorization.{External, Declaration}
use oracle_diagnostic_estack.Knowledge.Store.{
  VersionRecord, Entry, Manifest, versions_of, find_version, set_version, Library, Hashes,
}
use oracle_diagnostic_estack.Knowledge.Lifecycle.{
  moved, superseded_by, is_current, supersede_one, supersede_others, supersedes_now,
  supersedes_itself, entry_after, Moved, transition,
}
use oracle_diagnostic_estack.Knowledge.Lifecycle.Performed.{transition-IsPerformed}
use oracle_diagnostic_estack.Knowledge.Lifecycle.Preserved.{eq_state-published, and-true, and-true'}
use oracle_diagnostic_estack.Knowledge.Lifecycle.Extended.{
  map_record, find_version-set_version, find_version-supersede_others, versions_of-insert,
  supersede_one_self,
}

-- An abstract knowledge base: the state of each version, if there is one.
abbrev pub States : Type 0
States = String → ℕ → Option KbState

abbrev pub state_of : Option VersionRecord → Option KbState
state_of none = none
state_of (some r) = some r.state

-- What a manifest is an implementation of.
abbrev pub states_of : Manifest → States
states_of m id v = state_of (find_version v (versions_of m id))

-- Another version stays as it is, or a current one is superseded by what is published.
abbrev pub IsAside : KbState → Option KbState → Option KbState → Type 0
IsAside to before after =
    (after ≡ before)
    ⊎ ((to ≡ published)
        × ((s : KbState) × (before ≡ some s) × (is_current s ≡ true))
        × (after ≡ some superseded))

-- A version moves to a state that its own allows, other entries stay as they are, and the other
-- versions of the entry are aside.
abbrev pub IsAbstractStep : (id : String) → (v : ℕ) → (to : KbState) → States → States → Type 0
IsAbstractStep id v to f g =
    ((s : KbState) × (f id v ≡ some s) × (is_allowed s to ≡ true))
    × (g id v ≡ some to)
    × ((w : ℕ) → (v == w) ≡ false → IsAside to (f id w) (g id w))
    × ((j : String) (w : ℕ) → str_eq id j ≡ false → g j w ≡ f j w)

supersede_one-IsAside :
    (to : KbState) (v w : ℕ) (at : String) (d : Option Declaration) (o : Option VersionRecord)
    → to ≡ published
    → IsAside to (state_of o) (state_of (map_record (supersede_one v at d w) o))
supersede_one-IsAside to v w at d none p = inl refl
supersede_one-IsAside to v w at d (some r) p =
    pick_if (λ q. IsAside to (some r.state) (some q.state)) (not (w == v) && is_current r.state)
      (superseded_by v at d r) r
      (λ b. inr (p, (r.state, refl, and-true (not (w == v)) (is_current r.state) b), refl))
      (λ _. inl refl)

module _ (id : String) (v : ℕ) (e : Entry) (r : VersionRecord) (a : Article) (to : KbState)
    (at : String) (d : Option Declaration) where
  abbrev set_entry : Entry
  set_entry = set_version v (moved to at d r) e

  target_state : state_of (find_version v (entry_after id v e r a to at d)) ≡ some to
  target_state =
      pick_if (λ x. state_of (find_version v x) ≡ some to) (supersedes_now id a to)
        (supersede_others v at d set_entry) set_entry
        (λ _.
          ap state_of (
            find_version-supersede_others v v at d set_entry
            ∙ ap (map_record (supersede_one v at d v)) here)
          ∙ ap (λ q. some q.state)
              (supersede_one_self v v at d (moved to at d r) ((==_iff v v).1 refl)))
        (λ _. ap state_of here)
    where
      here : find_version v set_entry ≡ some (moved to at d r)
      here =
          find_version-set_version v v (moved to at d r) e
          ∙ ap (λ b. if b then some (moved to at d r) else find_version v e) ((==_iff v v).1 refl)

  other_state :
      (w : ℕ)
      → (v == w) ≡ false
      → IsAside to
          (state_of (find_version w e))
          (state_of (find_version w (entry_after id v e r a to at d)))
  other_state w n =
      pick_if (λ x. IsAside to (state_of (find_version w e)) (state_of (find_version w x)))
        (supersedes_now id a to) (supersede_others v at d set_entry) set_entry
        (λ b.
          subst (λ o. IsAside to (state_of (find_version w e)) (state_of o))
            (sym (
              find_version-supersede_others v w at d set_entry
              ∙ ap (map_record (supersede_one v at d w)) there))
            (supersede_one-IsAside to v w at d (find_version w e) (
              eq_state-published to
                (and-true' (eq_state to published) (supersedes_itself a.content id) b))))
        (λ _. inl (ap state_of there))
    where
      there : find_version w set_entry ≡ find_version w e
      there =
          find_version-set_version v w (moved to at d r) e
          ∙ ap (λ b. if b then some (moved to at d r) else find_version w e) n

-- A transition that is performed is a step of the abstract knowledge base.
pub transition-IsAbstractStep :
    (is_decimal : ℕ → Bool) (is_iso : String → Bool) (h : Hashes) (id : String) (v : ℕ)
    (to : KbState) (at : String) (external : External) (lib : Library) (x : Moved) (m' : Manifest)
    → transition is_decimal is_iso h id v to at external lib ≡ done (x, m')
    → IsAbstractStep id v to (states_of lib.manifest) (states_of m')
transition-IsAbstractStep is_decimal is_iso h id v to at external lib x m' e =
    let (r, a, found, _, p) =
      transition-IsPerformed h id v to at external is_decimal is_iso lib x m' e in
    let m = lib.manifest in
    let entry = versions_of m id in
    let after = entry_after id v entry r a to at p.decision in
    let versions : (j : String)
        → versions_of m' j ≡ (if str_eq id j then after else versions_of m j) =
      λ j. ap (λ y. versions_of y j) p.manifest ∙ versions_of-insert id j after m in
    let own : versions_of m' id ≡ after =
      versions id ∙ ap (λ b. if b then after else versions_of m id) ((eq_iff id id).1 refl) in
    (
      (r.state, ap state_of found, p.is_possible),
      ap (λ y. state_of (find_version v y)) own ∙ target_state id v entry r a to at p.decision,
      λ w n.
          subst (λ y. IsAside to (state_of (find_version w entry)) (state_of (find_version w y)))
            (sym own) (other_state id v entry r a to at p.decision w n),
      λ j w n.
          ap (λ y. state_of (find_version w y))
            (versions j ∙ ap (λ b. if b then after else versions_of m j) n),
    )
