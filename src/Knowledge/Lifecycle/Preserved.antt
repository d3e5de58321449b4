-- ===== src/Knowledge/Lifecycle/Preserved.antt =====
-- Each operation of the knowledge base keeps every history sound.
use oracle_diagnostic_estack.Prelude.{
  ℕ, String, ◌≡◌, refl, sym, ap, subst, Bool, true, false, not, ◌&&◌, Option, none, some, some-inj,
  [], ◌∷◌, ◌==◌, All, arith, inl, inr, str_eq, if◌then◌else◌, pick, pick_if,
}
use oracle_diagnostic_estack.Prelude.Dict.{lookup, insert}
use oracle_diagnostic_estack.Knowledge.State.{
  KbState, published, superseded, eq_state, is_allowed, is_human_decision, done,
}
use oracle_diagnostic_estack.Knowledge.Article.{Article}
use oracle_diagnostic_estack.Knowledge.Authorization.{External, Declaration, declaration_of}
use oracle_diagnostic_estack.Knowledge.Store.{
  VersionRecord, Entry, Manifest, versions_of, find_version, set_version, Library, Hashes,
}
use oracle_diagnostic_estack.Knowledge.Lifecycle.{
  moved, superseded_by, is_current, supersede_one, supersede_others, event_after, superseding,
  supersedes_now, supersedes_itself, entry_after, Moved, transition,
}
use oracle_diagnostic_estack.Knowledge.Lifecycle.Sound.{
  IsApproval, IsSound, IsHistory-snoc, IsDecision, decision_for-IsDecision,
}
use oracle_diagnostic_estack.Knowledge.Lifecycle.Performed.{transition-IsPerformed}

pub and-true : (a b : Bool) → (a && b) ≡ true → b ≡ true
and-true true b h = h
and-true false b h = absurd (ground (arith, h))

pub and-true' : (a b : Bool) → (a && b) ≡ true → a ≡ true
and-true' true b h = refl
and-true' false b h = absurd (ground (arith, h))

-- Every version of the entry, and of the manifest, is sound.
abbrev pub IsSoundEntry : Entry → Type 0
IsSoundEntry e = All (λ p. IsSound p.1) e

abbrev pub IsSoundManifest : Manifest → Type 0
IsSoundManifest m = All (λ p. IsSoundEntry p.1) m

pub versions_of-IsSoundEntry :
    (m : Manifest) (id : String) → IsSoundManifest m → IsSoundEntry (versions_of m id)
unfolding lookup
versions_of-IsSoundEntry [] id s = tt
versions_of-IsSoundEntry ((j, e) ∷ m) id s =
    pick_if (λ o. IsSoundEntry (elim o [ none ↦ [] | some f ↦ f ])) (str_eq j id) (some e)
      (lookup id m) (λ _. s.0) (λ _. versions_of-IsSoundEntry m id s.1)

pub insert-IsSoundManifest :
    (m : Manifest) (id : String) (e : Entry)
    → IsSoundEntry e
    → IsSoundManifest m
    → IsSoundManifest (insert id e m)
unfolding insert
insert-IsSoundManifest [] id e k s = (k, tt)
insert-IsSoundManifest ((j, f) ∷ m) id e k s =
    pick IsSoundManifest (str_eq j id) ((j, e) ∷ m) ((j, f) ∷ insert id e m) (k, s.1)
      (s.0, insert-IsSoundManifest m id e k s.1)

pub find_version-IsSound :
    (v : ℕ) (e : Entry) (r : VersionRecord) → IsSoundEntry e → find_version v e ≡ some r → IsSound r
unfolding find_version
find_version-IsSound v [] r s h = absurd (ground (arith, h))
find_version-IsSound v ((w, q) ∷ e) r s h = go (w == v) h (find_version-IsSound v e r s.1)
  where
    go :
        (b : Bool)
        → (if b then some q else find_version v e) ≡ some r
        → (find_version v e ≡ some r → IsSound r)
        → IsSound r
    go true h rest = subst IsSound (some-inj h) s.0
    go false h rest = rest h

pub set_version-IsSoundEntry :
    (v : ℕ) (r : VersionRecord) (e : Entry)
    → IsSound r
    → IsSoundEntry e
    → IsSoundEntry (set_version v r e)
unfolding set_version
set_version-IsSoundEntry v r [] k s = (k, tt)
set_version-IsSoundEntry v r ((w, q) ∷ e) k s =
    pick IsSoundEntry (w == v) ((w, r) ∷ e) ((w, q) ∷ set_version v r e) (k, s.1)
      (s.0, set_version-IsSoundEntry v r e k s.1)

-- To publish is a decision of a human.
pub publish-is_human_decision :
    (s : KbState) → is_allowed s published ≡ true → is_human_decision s published ≡ true
publish-is_human_decision s h = ground (arith, h)

current-superseded : (s : KbState) → is_current s ≡ true → is_allowed s superseded ≡ true
current-superseded s h = ground (arith, h)

pub eq_state-published : (t : KbState) → eq_state t published ≡ true → t ≡ published
eq_state-published t h = ground (arith, h)

IsDecision-IsApproval :
    (id : String) (v : ℕ) (e : Entry) (r : VersionRecord) (x : External) (o : Option Declaration)
    → IsDecision id v e r x o
    → IsApproval r.digest o
IsDecision-IsApproval id v e r x o (a, _, is, approved, _, digest, _, _, _, _) =
    (declaration_of a, is, approved, digest)

moved-IsSound :
    (to : KbState) (at : String) (o : Option Declaration) (r : VersionRecord)
    → is_allowed r.state to ≡ true
    → (is_human_decision r.state to ≡ true → IsApproval r.digest o)
    → IsSound r
    → IsSound (moved to at o r)
moved-IsSound to at o r p d s =
    IsHistory-snoc r.digest r.history r.state (event_after r (some r.state) to at o) s
      (p, inl (refl, d))

-- There is an approval, of whatever digest.
abbrev IsApproved : Option Declaration → Type 0
IsApproved o = (d : Declaration) × (o ≡ some d) × (d.decision ≡ "APPROVED")

supersede_one-IsSound :
    (v : ℕ) (at : String) (o : Option Declaration) (w : ℕ) (r : VersionRecord)
    → IsApproved o
    → IsSound r
    → IsSound (supersede_one v at o w r)
supersede_one-IsSound v at o w r k s =
    pick_if IsSound (not (w == v) && is_current r.state) (superseded_by v at o r) r
      (λ b.
        let c = current-superseded r.state (and-true (not (w == v)) (is_current r.state) b) in
        IsHistory-snoc r.digest r.history r.state
          (event_after r (some published) superseded at (superseding r o)) s
          (
            c,
            inr (
              refl,
              and-true (not (w == v)) (is_current r.state) b,
              refl,
              k.0,
              k.2,
              ap (superseding r) k.1,
            ),
          ))
      (λ _. s)

supersede_others-IsSoundEntry :
    (v : ℕ) (at : String) (o : Option Declaration) (e : Entry)
    → IsApproved o
    → IsSoundEntry e
    → IsSoundEntry (supersede_others v at o e)
unfolding supersede_others
supersede_others-IsSoundEntry v at o [] k s = tt
supersede_others-IsSoundEntry v at o ((w, r) ∷ e) k s =
    (supersede_one-IsSound v at o w r k s.0, supersede_others-IsSoundEntry v at o e k s.1)

entry_after-IsSoundEntry :
    (id : String) (v : ℕ) (e : Entry) (r : VersionRecord) (a : Article) (to : KbState) (at : String)
    (o : Option Declaration)
    → is_allowed r.state to ≡ true
    → (is_human_decision r.state to ≡ true → IsApproval r.digest o)
    → IsSound r
    → IsSoundEntry e
    → IsSoundEntry (entry_after id v e r a to at o)
entry_after-IsSoundEntry id v e r a to at o p d s t =
    let e' = set_version v (moved to at o r) e in
    let k = set_version-IsSoundEntry v (moved to at o r) e (moved-IsSound to at o r p d s) t in
    pick_if IsSoundEntry (supersedes_now id a to) (supersede_others v at o e') e'
      (λ b.
        let is =
          eq_state-published to
            (and-true' (eq_state to published) (supersedes_itself a.content id) b) in
        let human =
          publish-is_human_decision r.state (subst (λ u. is_allowed r.state u ≡ true) is p) in
        let f = d (subst (λ u. is_human_decision r.state u ≡ true) (sym is) human) in
        supersede_others-IsSoundEntry v at o e' (f.0, f.1, f.2) k)
      (λ _. k)

pub transition-IsSoundManifest :
    (is_decimal : ℕ → Bool) (is_iso : String → Bool) (h : Hashes) (id : String) (v : ℕ)
    (to : KbState) (at : String) (external : External) (lib : Library) (x : Moved) (m' : Manifest)
    → IsSoundManifest lib.manifest
    → transition is_decimal is_iso h id v to at external lib ≡ done (x, m')
    → IsSoundManifest m'
transition-IsSoundManifest is_decimal is_iso h id v to at external lib x m' s e =
    let (r, a, found, _, p) =
      transition-IsPerformed h id v to at external is_decimal is_iso lib x m' e in
    let m = lib.manifest in
    let e = versions_of m id in
    let t = versions_of-IsSoundEntry m id s in
    subst IsSoundManifest (sym p.manifest) (
      insert-IsSoundManifest m id (entry_after id v e r a to at p.decision)
        (entry_after-IsSoundEntry id v e r a to at p.decision p.is_possible
          (λ b.
            IsDecision-IsApproval id v e r external p.decision
              (decision_for-IsDecision id v e r to external p.decision p.is_decided b))
          (find_version-IsSound v e r t found) t)
        s)
