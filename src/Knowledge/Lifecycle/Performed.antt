-- ===== src/Knowledge/Lifecycle/Performed.antt =====
-- What a transition that is performed has passed, and what it writes.
use oracle_diagnostic_estack.Prelude.{
  ℕ, String, ◌≡◌, refl, sym, ap, Bool, true, false, not, Option, none, some, arith,
}
use oracle_diagnostic_estack.Prelude.Dict.{insert}
use oracle_diagnostic_estack.Knowledge.State.{
  KbState, is_allowed, Code, e_usage, e_transition_denied, Outcome, failed, done, unless-done,
  done-inj,
}
use oracle_diagnostic_estack.Knowledge.Article.{Article}
use oracle_diagnostic_estack.Knowledge.Authorization.{External, Declaration}
use oracle_diagnostic_estack.Knowledge.Store.{
  VersionRecord, Manifest, versions_of, find_version, Library, find_article, Hashes,
}
use oracle_diagnostic_estack.Knowledge.Lifecycle.{
  checked_article, gate_failure, decision_for, entry_after, Moved, result_of, with_decision,
  with_article, with_version, transition,
}

module _ (h : Hashes) (id : String) (v : ℕ) (to : KbState) (at : String) (external : External) where
  -- The checks that a transition has passed on a manifest, and what it has made of it.
  pub record IsPerformed (m : Manifest) (r : VersionRecord) (a : Article) (x : Moved)
      (m' : Manifest) : Type 0 where
    pub decision : Option Declaration
    pub is_possible : is_allowed r.state to ≡ true
    pub passes_gate : gate_failure h id v (versions_of m id) a to ≡ none
    pub is_decided : decision_for id v (versions_of m id) r to external ≡ done decision
    pub result : x ≡ result_of id v (versions_of m id) r a to decision
    pub manifest : m' ≡ insert id (entry_after id v (versions_of m id) r a to at decision) m

  with_decision-done :
      (m : Manifest) (r : VersionRecord) (a : Article) (o : Outcome (Option Declaration))
      (x : Moved) (m' : Manifest)
      → is_allowed r.state to ≡ true
      → gate_failure h id v (versions_of m id) a to ≡ none
      → decision_for id v (versions_of m id) r to external ≡ o
      → with_decision id v m r a to at o ≡ done (x, m')
      → IsPerformed m r a x m'
  with_decision-done m r a (failed code) x m' p g d e = absurd (ground (arith, e))
  with_decision-done m r a (done o) x m' p g d e = record {
    decision = o;
    is_possible = p;
    passes_gate = g;
    is_decided = d;
    result = ap (λ q. q.0) (sym (done-inj e));
    manifest = ap (λ q. q.1) (sym (done-inj e));
  }

  not-false : (b : Bool) → not b ≡ false → b ≡ true
  not-false true e = refl
  not-false false e = absurd (ground (arith, e))

  with_article-done :
      (m : Manifest) (r : VersionRecord) (o : Outcome Article) (x : Moved) (m' : Manifest)
      → with_article h id v m r to at external o ≡ done (x, m')
      → (a : Article) × (o ≡ done a) × IsPerformed m r a x m'
  with_article-done m r (failed code) x m' e = absurd (ground (arith, e))
  with_article-done m r (done a) x m' e =
      let one =
        unless-done (not (is_allowed r.state to)) e_transition_denied
          (elim (gate_failure h id v (versions_of m id) a to) [
            | some code ↦ failed code
            | none ↦
                with_decision id v m r a to at (decision_for id v (versions_of m id) r to external)
          ])
          (x, m') e in
      (a, refl, go (gate_failure h id v (versions_of m id) a to) refl (not-false _ one.0) one.1)
    where
      go :
          (g : Option Code)
          → gate_failure h id v (versions_of m id) a to ≡ g
          → is_allowed r.state to ≡ true
          → (elim g [
            | some code ↦ failed code
            | none ↦
                with_decision id v m r a to at (decision_for id v (versions_of m id) r to external)
          ])
            ≡ done (x, m')
          → IsPerformed m r a x m'
      go none q p e =
          with_decision-done m r a (decision_for id v (versions_of m id) r to external) x m' p q
            refl e
      go (some code) q p e = absurd (ground (arith, e))

  with_version-done :
      (lib : Library) (o : Option VersionRecord) (x : Moved) (m' : Manifest)
      → with_version h id v lib to at external o ≡ done (x, m')
      → (r : VersionRecord) × (a : Article) × (o ≡ some r)
        × (checked_article h id v r (find_article id v lib.articles) ≡ done a)
        × IsPerformed lib.manifest r a x m'
  with_version-done lib none x m' e = absurd (ground (arith, e))
  with_version-done lib (some r) x m' e =
      let (a, c, p) =
        with_article-done lib.manifest r (checked_article h id v r (find_article id v lib.articles))
          x m' e in
      (r, a, refl, c, p)

  -- A transition that is performed is one of a version that is there, whose file has the digest that
  -- the manifest has; it is allowed, passes the gate, and is decided if a human has to decide.
  pub transition-IsPerformed :
      (is_decimal : ℕ → Bool) (is_iso : String → Bool) (lib : Library) (x : Moved) (m' : Manifest)
      → transition is_decimal is_iso h id v to at external lib ≡ done (x, m')
      → (r : VersionRecord) × (a : Article) × (find_version v (versions_of lib.manifest id)
          ≡ some r)
        × (checked_article h id v r (find_article id v lib.articles) ≡ done a)
        × IsPerformed lib.manifest r a x m'
  unfolding transition
  transition-IsPerformed is_decimal is_iso lib x m' e =
      let one = unless-done _ e_usage _ (x, m') e in
      let two = unless-done _ e_usage _ (x, m') one.1 in
      with_version-done lib (find_version v (versions_of lib.manifest id)) x m' two.1
