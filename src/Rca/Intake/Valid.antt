-- ===== src/Rca/Intake/Valid.antt =====
-- rca_engine/intake.py: what `validate_and_sanitize` as a whole returns.
use oracle_diagnostic_estack.Prelude.{String, ◌≡◌, subst, List, All, arith}
use oracle_diagnostic_estack.Schemas.{
  Json, null, bool, int, float, str, arr, obj, Items, Members, find_member,
}
use oracle_diagnostic_estack.Rca.Rules.{Rule}
use oracle_diagnostic_estack.Rca.Intake.{taken, collect_certified_signatures, field}
use oracle_diagnostic_estack.Rca.Intake.Item.{
  Run, Target, as_text, sanitized_text, declared_refs, derive_token, read_items, allowed_by,
  first_seen, Validated, read_evidence, read_incident, validate_and_sanitize,
}
use oracle_diagnostic_estack.Rca.Intake.Clean.{
  taken-inj, require-taken, then-taken, IsClean, HasDistinctIds, read_items-AreClean,
}

module _ (run : Run) where
  abbrev IsValid : List Rule → Validated → Type 0
  IsValid rs x =
      All (IsClean run (collect_certified_signatures rs)) x.evidence × HasDistinctIds x.evidence

  read_evidence-IsValid :
      (rs : List Rule) (incident : Members) (items : Items) (id raw : String) (x : Validated)
      → read_evidence run rs incident items id raw ≡ taken x
      → IsValid rs x
  read_evidence-IsValid rs incident items id raw x h =
      let target : Target = (raw, derive_token run "TGT-" "target_id" id raw) in
      let (symptom, h1, k1) =
        then-taken (sanitized_text run (field "symptom_description" incident)) _ x h in
      let (refs, h2, k2) =
        then-taken (declared_refs run (find_member "declared_evidence_refs" incident)) _ x k1 in
      let ((more, seen), h3, k3) =
        then-taken (read_items run (allowed_by run rs) id target (first_seen run target) items) _ x
          k2 in
      let (clean, _, distinct) =
        read_items-AreClean run (allowed_by run rs) id target items (first_seen run target) more
          seen h3 in
      subst (IsValid rs) (taken-inj k3) (clean, distinct)

  read_incident-IsValid :
      (rs : List Rule) (u v : Json) (x : Validated)
      → read_incident run rs u v ≡ taken x
      → IsValid rs x
  read_incident-IsValid rs (obj incident) (arr items) x h =
      let a = require-taken _ _ x h in
      let (id, h1, k1) = then-taken (as_text run (field "id" incident)) _ x a.1 in
      let b = require-taken _ _ x k1 in
      let (target, h2, k2) = then-taken (as_text run (field "target_id" incident)) _ x b.1 in
      let c = require-taken _ _ x k2 in read_evidence-IsValid rs incident items id target x c.1
  read_incident-IsValid rs (obj incident) null x h = absurd (ground (arith, h))
  read_incident-IsValid rs (obj incident) (bool b) x h = absurd (ground (arith, h))
  read_incident-IsValid rs (obj incident) (int i) x h = absurd (ground (arith, h))
  read_incident-IsValid rs (obj incident) (float f) x h = absurd (ground (arith, h))
  read_incident-IsValid rs (obj incident) (str s) x h = absurd (ground (arith, h))
  read_incident-IsValid rs (obj incident) (obj ms) x h = absurd (ground (arith, h))
  read_incident-IsValid rs null v x h = absurd (ground (arith, h))
  read_incident-IsValid rs (bool b) v x h = absurd (ground (arith, h))
  read_incident-IsValid rs (int i) v x h = absurd (ground (arith, h))
  read_incident-IsValid rs (float f) v x h = absurd (ground (arith, h))
  read_incident-IsValid rs (str s) v x h = absurd (ground (arith, h))
  read_incident-IsValid rs (arr vs) v x h = absurd (ground (arith, h))

  -- All evidence that an intake takes has a known type and domain, an id of the safe shape that does
  -- not look like a secret, and no canonical signature but one that is certified, by its grammar or
  -- by the rules; and no two of them have the same id.
  pub validate_and_sanitize-IsClean :
      (rs : List Rule) (v : Json) (x : Validated)
      → validate_and_sanitize run rs v ≡ taken x
      → All (IsClean run (collect_certified_signatures rs)) x.evidence × HasDistinctIds x.evidence
  unfolding validate_and_sanitize
  validate_and_sanitize-IsClean rs (obj ms) x h =
      read_incident-IsValid rs (field "incident" ms) (field "evidence" ms) x h
  validate_and_sanitize-IsClean rs null x h = absurd (ground (arith, h))
  validate_and_sanitize-IsClean rs (bool b) x h = absurd (ground (arith, h))
  validate_and_sanitize-IsClean rs (int i) x h = absurd (ground (arith, h))
  validate_and_sanitize-IsClean rs (float f) x h = absurd (ground (arith, h))
  validate_and_sanitize-IsClean rs (str s) x h = absurd (ground (arith, h))
  validate_and_sanitize-IsClean rs (arr vs) x h = absurd (ground (arith, h))
