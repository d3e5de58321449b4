-- ===== src/Knowledge/Lifecycle/Sound.antt =====
-- The histories of the knowledge base: each step is allowed, and decided by a human where it must be.
use oracle_diagnostic_estack.Prelude.{
  ℕ, String, ◌≡◌, refl, sym, ap, subst, ◌∙◌, Bool, true, false, not, ◌||◌, Option, none, some, List,
  [], ◌∷◌, ◌++◌, str_eq, eq_iff, ==_iff, ◌⊎◌, arith, if◌then◌else◌,
}
use oracle_diagnostic_estack.Prelude.Dict.{contains}
use oracle_diagnostic_estack.Knowledge.State.{
  KbState, candidate, draft, published, superseded, is_among, is_allowed, is_human_decision,
  Outcome, failed, done, unless-done, done-inj, e_auth_invalid, e_auth_digest_mismatch,
  e_auth_self_approval,
}
use oracle_diagnostic_estack.Knowledge.Authorization.{
  Authorization, External, missing, refused, parsed, Declaration, declaration_of,
  verify_authorization, is_version,
}
use oracle_diagnostic_estack.Knowledge.Store.{Event, VersionRecord, Entry}
use oracle_diagnostic_estack.Knowledge.Lifecycle.{
  used_ids, is_before_any, is_current, first_use, decision_for,
}

-- A human approved the artifact with this digest.
abbrev pub IsApproval : (digest : String) → Option Declaration → Type 0
IsApproval g o =
    (d : Declaration) × (o ≡ some d) × (d.decision ≡ "APPROVED") × (d.artifact_digest ≡ g)

-- The event is from the state, and has an approval if a human has to decide.
abbrev pub IsDecided : (digest : String) → KbState → Event → Type 0
IsDecided g s x =
    (x.from_state ≡ some s) × (is_human_decision s x.to_state ≡ true → IsApproval g x.declaration)

-- The event is that of a version which the publication of another one supersedes. Nobody approves
-- this step for this version: the event has the approval of the other version, with this version's
-- digest written over the digest that was approved, and says it is from PUBLISHED.
abbrev pub IsSupersession : (digest : String) → KbState → Event → Type 0
IsSupersession g s x =
    (x.to_state ≡ superseded)
    × (is_current s ≡ true)
    × (x.from_state ≡ some published)
    × (d : Declaration) × (d.decision ≡ "APPROVED")
    × (x.declaration
        ≡ some (record d {
          artifact_digest = g;
          review_notes_sanitized = "superseded by publication of a newer authorized version";
        }))

-- The event may follow the state: it is decided, or a supersession.
abbrev pub IsStep : (digest : String) → KbState → Event → Type 0
IsStep g s x = (is_allowed s x.to_state ≡ true) × (IsDecided g s x ⊎ IsSupersession g s x)

-- The events lead from one state to the other.
abbrev pub IsPath : (digest : String) → KbState → List Event → KbState → Type 0
IsPath g s [] t = s ≡ t
IsPath g s (x ∷ xs) t = IsStep g s x × IsPath g x.to_state xs t

-- An article begins as a candidate or a draft.
abbrev pub IsStart : KbState → Type 0
IsStart s = is_among (candidate ∷ draft ∷ []) s ≡ true

abbrev pub IsHistory : (digest : String) → List Event → KbState → Type 0
IsHistory g [] t = ⊥
IsHistory g (x ∷ xs) t = IsStart x.to_state × IsPath g x.to_state xs t

-- The history of the version leads to its state.
abbrev pub IsSound : VersionRecord → Type 0
IsSound r = IsHistory r.digest r.history r.state

IsPath-snoc :
    (g : String) (s : KbState) (xs : List Event) (t : KbState) (x : Event)
    → IsPath g s xs t
    → IsStep g t x
    → IsPath g s (xs ++ x ∷ []) x.to_state
IsPath-snoc g s [] t x p q = (subst (λ u. IsStep g u x) (sym p) q, refl)
IsPath-snoc g s (y ∷ ys) t x p q = (p.0, IsPath-snoc g y.to_state ys t x p.1 q)

pub IsHistory-snoc :
    (g : String) (xs : List Event) (t : KbState) (x : Event)
    → IsHistory g xs t
    → IsStep g t x
    → IsHistory g (xs ++ x ∷ []) x.to_state
IsHistory-snoc g [] t x p q = absurd p
IsHistory-snoc g (y ∷ ys) t x p q = (p.0, IsPath-snoc g y.to_state ys t x p.1 q)

str_eq-not : (a b : String) → not (str_eq a b) ≡ false → a ≡ b
str_eq-not a b h = (eq_iff a b).0 (ground (arith, h))

or-false : (a b : Bool) → (a || b) ≡ false → (a ≡ false) × (b ≡ false)
or-false true b h = absurd (ground (arith, h))
or-false false b h = (refl, h)

is_version-some : (v : ℕ) (o : Option ℕ) → not (is_version v o) ≡ false → o ≡ some v
is_version-some v none h = absurd (ground (arith, h))
is_version-some v (some w) h = ap (λ n. some n) (ground (arith, h, ==_iff w v))

-- What an authorization that is accepted says.
abbrev pub IsVerified :
    (id digest : String) → ℕ → List String → Authorization → Declaration → Type 0
IsVerified id g v ps a d =
    (d ≡ declaration_of a)
    × (a.decision ≡ "APPROVED")
    × (a.artifact_id ≡ id)
    × (a.artifact_digest ≡ g)
    × (a.version ≡ some v)
    × (contains ps a.reviewer_id ≡ false)

pub verify_authorization-IsVerified :
    (x : External) (id g : String) (v : ℕ) (ps : List String) (d : Declaration)
    → verify_authorization x id g v ps ≡ done d
    → (a : Authorization) × (x ≡ parsed a) × IsVerified id g v ps a d
unfolding verify_authorization
verify_authorization-IsVerified missing id g v ps d h = absurd (ground (arith, h))
verify_authorization-IsVerified (refused code) id g v ps d h = absurd (ground (arith, h))
verify_authorization-IsVerified (parsed a) id g v ps d h =
    let one = unless-done _ e_auth_invalid _ d h in
    let two = unless-done _ e_auth_digest_mismatch _ d one.1 in
    let three = unless-done _ e_auth_self_approval _ d two.1 in
    let other_id = not (str_eq a.artifact_id id) in
    let other_digest = not (str_eq a.artifact_digest g) in
    let names = or-false (other_id || other_digest) (not (is_version v a.version)) two.0 in
    let digests = or-false other_id other_digest names.0 in
    (
      a,
      refl,
      (
        sym (done-inj three.1),
        str_eq-not a.decision "APPROVED" one.0,
        str_eq-not a.artifact_id id digests.0,
        str_eq-not a.artifact_digest g digests.1,
        is_version-some v a.version names.1,
        three.0,
      ),
    )

-- What the decision for a transition is, if a human has to make one: it is that of the external
-- record, which approves this version of this article by its digest, whose reviewer did not propose
-- the version, whose id was not used for the entry before, and whose time is not before that of a
-- decision on the version.
abbrev pub IsDecision : String → ℕ → Entry → VersionRecord → External → Option Declaration → Type 0
IsDecision id v e r x o =
    (a : Authorization) × (x ≡ parsed a)
    × (o ≡ some (declaration_of a))
    × (a.decision ≡ "APPROVED")
    × (a.artifact_id ≡ id)
    × (a.artifact_digest ≡ r.digest)
    × (a.version ≡ some v)
    × (contains r.proposer_ids a.reviewer_id ≡ false)
    × (contains (used_ids e) a.authorization_id ≡ false)
    × (is_before_any a.decision_at_utc r.history ≡ false)

first_use-done :
    (e : Entry) (r : VersionRecord) (w : Outcome Declaration) (o : Option Declaration)
    → first_use e r w ≡ done o
    → (d : Declaration) × (w ≡ done d)
      × (o ≡ some d)
      × (contains (used_ids e) d.authorization_id ≡ false)
      × (is_before_any d.decision_at_utc r.history ≡ false)
first_use-done e r (failed code) o h = absurd (ground (arith, h))
first_use-done e r (done d) o h =
    let one = unless-done _ e_auth_invalid _ o h in
    let two = unless-done _ e_auth_invalid _ o one.1 in
    (d, refl, sym (done-inj two.1), one.0, two.0)

first_use-IsDecision :
    (e : Entry) (r : VersionRecord) (id : String) (v : ℕ) (x : External) (o : Option Declaration)
    → first_use e r (verify_authorization x id r.digest v r.proposer_ids) ≡ done o
    → IsDecision id v e r x o
first_use-IsDecision e r id v x o h =
    let (d, w, is, fresh, late) = first_use-done e r _ o h in
    let (a, given, k) = verify_authorization-IsVerified x id r.digest v r.proposer_ids d w in
    (
      a,
      given,
      is ∙ ap (λ c. some c) k.0,
      k.1,
      k.2,
      k.3,
      k.4,
      k.5,
      subst (λ c. contains (used_ids e) c.authorization_id ≡ false) k.0 fresh,
      subst (λ c. is_before_any c.decision_at_utc r.history ≡ false) k.0 late,
    )

pub decision_for-IsDecision :
    (id : String) (v : ℕ) (e : Entry) (r : VersionRecord) (to : KbState) (x : External)
    (o : Option Declaration)
    → decision_for id v e r to x ≡ done o
    → is_human_decision r.state to ≡ true
    → IsDecision id v e r x o
unfolding decision_for
decision_for-IsDecision id v e r to x o h b = go (is_human_decision r.state to) h b
  where
    go :
        (c : Bool)
        → (if c
            then first_use e r (verify_authorization x id r.digest v r.proposer_ids)
            else done none)
          ≡ done o
        → c ≡ true
        → IsDecision id v e r x o
    go true h b = first_use-IsDecision e r id v x o h
    go false h b = absurd (ground (arith, b))
