-- ===== src/Knowledge/Reached.antt =====
-- The libraries that the operations lead to, and what a published article rests on.
use oracle_diagnostic_estack.Prelude.{
  ℕ, String, ◌≡◌, refl, sym, ap, subst, ◌∙◌, Bool, true, false, not, some, List, [], ◌∷◌, arith,
  inl, inr, Bool-cases,
}
use oracle_diagnostic_estack.Prelude.Any.{Any}
use oracle_diagnostic_estack.Knowledge.State.{
  KbState, published, superseded, is_allowed, is_human_decision, eq_state, e_input_invalid,
  e_quality_gate, e_kb_integrity, e_output_exists, done, unless-done, done-inj,
}
use oracle_diagnostic_estack.Knowledge.Article.{Candidate}
use oracle_diagnostic_estack.Knowledge.Review.{
  Verdict, new_entry, duplicate, scope_difference, conflict, supersession_proposed,
}
use oracle_diagnostic_estack.Knowledge.Authorization.{External}
use oracle_diagnostic_estack.Knowledge.Store.{
  Event, VersionRecord, Manifest, versions_of, find_version, Library, Hashes, AddResult, with_added,
  add_new_version, add_reviewed, add_candidate,
}
use oracle_diagnostic_estack.Knowledge.Lifecycle.{Moved, transition}
use oracle_diagnostic_estack.Knowledge.Lifecycle.Sound.{
  IsApproval, IsStart, IsPath, IsHistory, IsSound,
}
use oracle_diagnostic_estack.Knowledge.Lifecycle.Preserved.{
  IsSoundManifest, versions_of-IsSoundEntry, insert-IsSoundManifest, find_version-IsSound,
  set_version-IsSoundEntry, transition-IsSoundManifest, publish-is_human_decision,
  eq_state-published,
}

not-false : (b : Bool) → not b ≡ false → b ≡ true
not-false true e = refl
not-false false e = absurd (ground (arith, e))

with_added-IsSoundManifest :
    (h : Hashes) (c : Candidate) (at : String) (lib : Library) (v : ℕ)
    → IsStart c.lifecycle_state
    → IsSoundManifest lib.manifest
    → IsSoundManifest (with_added h c at lib v).manifest
with_added-IsSoundManifest h c at lib v b s =
    insert-IsSoundManifest lib.manifest c.article.kb_id _
      (set_version-IsSoundEntry v _ (versions_of lib.manifest c.article.kb_id) (b, refl)
        (versions_of-IsSoundEntry lib.manifest c.article.kb_id s))
      s

add_new_version-IsSoundManifest :
    (h : Hashes) (c : Candidate) (at : String) (lib : Library) (verdict : Verdict) (x : AddResult)
    (lib' : Library)
    → IsStart c.lifecycle_state
    → IsSoundManifest lib.manifest
    → add_new_version h c at lib verdict ≡ done (x, lib')
    → IsSoundManifest lib'.manifest
unfolding add_new_version
add_new_version-IsSoundManifest h c at lib verdict x lib' b s e =
    let one = unless-done _ e_input_invalid _ (x, lib') e in
    let two = unless-done _ e_kb_integrity _ (x, lib') one.1 in
    let three = unless-done _ e_output_exists _ (x, lib') two.1 in
    subst (λ l. IsSoundManifest l.manifest) (ap (λ p. p.1) (done-inj three.1))
      (with_added-IsSoundManifest h c at lib _ b s)

add_reviewed-IsSoundManifest :
    (h : Hashes) (c : Candidate) (at : String) (lib : Library) (verdict : Verdict) (x : AddResult)
    (lib' : Library)
    → IsStart c.lifecycle_state
    → IsSoundManifest lib.manifest
    → add_reviewed h c at lib verdict ≡ done (x, lib')
    → IsSoundManifest lib'.manifest
add_reviewed-IsSoundManifest h c at lib duplicate x lib' b s e =
    subst (λ l. IsSoundManifest l.manifest) (ap (λ p. p.1) (done-inj e)) s
add_reviewed-IsSoundManifest h c at lib new_entry x lib' b s e =
    add_new_version-IsSoundManifest h c at lib new_entry x lib' b s e
add_reviewed-IsSoundManifest h c at lib scope_difference x lib' b s e =
    add_new_version-IsSoundManifest h c at lib scope_difference x lib' b s e
add_reviewed-IsSoundManifest h c at lib conflict x lib' b s e =
    add_new_version-IsSoundManifest h c at lib conflict x lib' b s e
add_reviewed-IsSoundManifest h c at lib supersession_proposed x lib' b s e =
    add_new_version-IsSoundManifest h c at lib supersession_proposed x lib' b s e

module _ (is_word is_decimal : ℕ → Bool) (is_iso : String → Bool) (h : Hashes) where
  add_candidate-IsSoundManifest :
      (c : Candidate) (at : String) (lib : Library) (x : AddResult) (lib' : Library)
      → IsSoundManifest lib.manifest
      → add_candidate is_word is_decimal h c at lib ≡ done (x, lib')
      → IsSoundManifest lib'.manifest
  unfolding add_candidate
  add_candidate-IsSoundManifest c at lib x lib' s e =
      let one = unless-done _ e_input_invalid _ (x, lib') e in
      let two = unless-done _ e_quality_gate _ (x, lib') one.1 in
      let three = unless-done _ e_input_invalid _ (x, lib') two.1 in
      add_reviewed-IsSoundManifest h c at lib _ x lib' (not-false _ two.0) s three.1

  -- What the operations make of an empty knowledge base.
  pub data IsReached : Library → Type 0 where
    begin : IsReached (record { manifest = []; articles = [] })
    add :
        (c : Candidate) (at : String) (lib : Library) (x : AddResult) (lib' : Library)
        → IsReached lib
        → add_candidate is_word is_decimal h c at lib ≡ done (x, lib')
        → IsReached lib'
    move :
        (id : String) (v : ℕ) (to : KbState) (at : String) (external : External) (lib : Library)
        (x : Moved) (m' : Manifest)
        → IsReached lib
        → transition is_decimal is_iso h id v to at external lib ≡ done (x, m')
        → IsReached (record lib { manifest = m' })

  -- Every knowledge base that the operations lead to is sound.
  pub IsReached-IsSoundManifest : (lib : Library) → IsReached lib → IsSoundManifest lib.manifest
  IsReached-IsSoundManifest lib begin = tt
  IsReached-IsSoundManifest lib (add c at before x lib' k e) =
      add_candidate-IsSoundManifest c at before x lib (IsReached-IsSoundManifest before k) e
  IsReached-IsSoundManifest lib (move id v to at external before x m' k e) =
      transition-IsSoundManifest is_decimal is_iso h id v to at external before x m'
        (IsReached-IsSoundManifest before k) e

-- A human approved the publication of the digest.
abbrev pub IsPublication : (digest : String) → Event → Type 0
IsPublication g x = (x.to_state ≡ published) × IsApproval g x.declaration

published≢superseded : published ≡ superseded → ⊥
published≢superseded e = ground (arith, ap (λ s. eq_state s published) e)

IsPath-published :
    (g : String) (s : KbState) (xs : List Event)
    → eq_state s published ≡ false
    → IsPath g s xs published
    → Any (IsPublication g) xs
IsPath-published g s [] n p = absurd (ground (arith, n, ap (λ t. eq_state t published) p))
IsPath-published g s (x ∷ xs) n p = elim (Bool-cases (eq_state x.to_state published)) [
  | inl b ↦
      let is = eq_state-published x.to_state b in
      let human = publish-is_human_decision s (subst (λ u. is_allowed s u ≡ true) is p.0.0) in
      elim p.0.1 [
        | inl (from, decided) ↦
            inl (is, decided (subst (λ u. is_human_decision s u ≡ true) (sym is) human))
        | inr (other, _, _, _, _, _) ↦ absurd (published≢superseded (sym is ∙ other))
      ]
  | inr b ↦ inr (IsPath-published g x.to_state xs b p.1)
]

start-published : (s : KbState) → IsStart s → eq_state s published ≡ false
start-published s b = ground (arith, b)

IsSound-published :
    (r : VersionRecord) → IsSound r → r.state ≡ published → Any (IsPublication r.digest) r.history
IsSound-published r s is = go r.history s
  where
    go : (xs : List Event) → IsHistory r.digest xs r.state → Any (IsPublication r.digest) xs
    go [] k = absurd k
    go (x ∷ xs) k = inr (
        IsPath-published r.digest x.to_state xs (start-published x.to_state k.0)
          (subst (λ t. IsPath r.digest x.to_state xs t) is k.1))

-- In a knowledge base that the operations lead to, the history of a version that is published has an
-- event of its publication, with a human's approval of the digest that the manifest has for it.
pub IsReached-published :
    (is_word is_decimal : ℕ → Bool) (is_iso : String → Bool) (h : Hashes) (lib : Library)
    (id : String) (v : ℕ) (r : VersionRecord)
    → IsReached is_word is_decimal is_iso h lib
    → find_version v (versions_of lib.manifest id) ≡ some r
    → r.state ≡ published
    → Any (IsPublication r.digest) r.history
IsReached-published is_word is_decimal is_iso h lib id v r k found is =
    let s = IsReached-IsSoundManifest is_word is_decimal is_iso h lib k in
    IsSound-published r
      (find_version-IsSound v (versions_of lib.manifest id) r
        (versions_of-IsSoundEntry lib.manifest id s) found)
      is
