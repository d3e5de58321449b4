-- ===== src/Rca/Intake/Clean.antt =====
-- What the evidence is that an intake takes.
use oracle_diagnostic_estack.Prelude.{
  String, ◌≡◌, refl, sym, ap, subst, ◌∙◌, Bool, true, false, not, ◌&&◌, ◌||◌, none, some, some-inj,
  List, [], ◌∷◌, str_eq, All, arith, if◌then◌else◌,
}
use oracle_diagnostic_estack.Prelude.Dict.{contains}
use oracle_diagnostic_estack.Schemas.{
  Json, null, bool, int, float, str, arr, obj, Items, nil, cons, Members,
}
use oracle_diagnostic_estack.Rca.Evidence.{certified, unrecognized_signature}
use oracle_diagnostic_estack.Rca.Timeline.{Sanitized}
use oracle_diagnostic_estack.Rca.Intake.{
  Intake, refused, crashed, taken, require, then_, all_event_types, allowed_domains, in_set, field,
}
use oracle_diagnostic_estack.Rca.Intake.Item.{
  Run, derive_token, sanitized_text, attributes_of, attributes_field, Classified, Allowed, Seen,
  Target, as_text, is_safe_identifier, is_secret, is_certified_signature, classify_signature,
  take_item, read_item, read_rest, read_items,
}

pub taken-inj : {A : Type 0} {x y : A} → taken x ≡ taken y → x ≡ y
taken-inj {x = x} h = ap (λ o. elim o [ refused ↦ x | crashed ↦ x | taken z ↦ z ]) h

pub require-taken :
    {A : Type 0} (b : Bool) (o : Intake A) (a : A)
    → require b o ≡ taken a
    → (b ≡ true) × (o ≡ taken a)
require-taken true o a h = (refl, h)
require-taken false o a h = absurd (ground (arith, h))

pub then-taken :
    {A B : Type 0} (o : Intake A) (f : A → Intake B) (b : B)
    → then_ o f ≡ taken b
    → (a : A) × (o ≡ taken a) × (f a ≡ taken b)
then-taken refused f b h = absurd (ground (arith, h))
then-taken crashed f b h = absurd (ground (arith, h))
then-taken (taken a) f b h = (a, refl, h)

or-false : (a b : Bool) → (a || b) ≡ false → (a ≡ false) × (b ≡ false)
or-false true b h = absurd (ground (arith, h))
or-false false b h = (refl, h)

-- No two of the evidence have the same id.
abbrev pub HasDistinctIds : List Sanitized → Type 0
HasDistinctIds [] = Unit
HasDistinctIds (i ∷ more) =
    All (λ j. str_eq i.evidence_id j.evidence_id ≡ false) more × HasDistinctIds more

module _ (run : Run) where
  -- The evidence has a known type and domain and a safe id, and its canonical signature, if it has
  -- one, is certified.
  abbrev pub IsClean : (signatures : List String) → Sanitized → Type 0
  IsClean signatures i =
      (contains all_event_types i.event_type ≡ true)
      × (contains allowed_domains i.domain ≡ true)
      × (is_safe_identifier run i.evidence_id ≡ true)
      × (is_secret run i.evidence_id ≡ false)
      × ((c : String)
          → i.canonical_signature ≡ some c
          → is_certified_signature run signatures c ≡ true)

  in_set-text :
      (ks : List String) (v : Json) (b : Bool) (s : String)
      → in_set ks v ≡ taken b
      → as_text run v ≡ taken s
      → contains ks s ≡ b
  in_set-text ks (str t) b s h k = subst (λ u. contains ks u ≡ b) (taken-inj k) (taken-inj h)
  in_set-text ks null b s h k = absurd (ground (arith, k))
  in_set-text ks (bool c) b s h k = absurd (ground (arith, k))
  in_set-text ks (int i) b s h k = absurd (ground (arith, k))
  in_set-text ks (float f) b s h k = absurd (ground (arith, k))
  in_set-text ks (arr vs) b s h k = absurd (ground (arith, k))
  in_set-text ks (obj ms) b s h k = absurd (ground (arith, k))

  classify_signature-canonical :
      (v : Json) (id : String) (signatures : List String) (x : Classified)
      → classify_signature run v id signatures ≡ taken x
      → (c : String) → x.canonical_signature ≡ some c
      → is_certified_signature run signatures c ≡ true
  unfolding classify_signature
  classify_signature-canonical null id signatures x h c k =
      absurd (ground (arith, ap (λ y. y.canonical_signature) (taken-inj h) ∙ k))
  classify_signature-canonical (bool b) id signatures x h c k = absurd (ground (arith, h))
  classify_signature-canonical (int i) id signatures x h c k = absurd (ground (arith, h))
  classify_signature-canonical (float f) id signatures x h c k = absurd (ground (arith, h))
  classify_signature-canonical (arr vs) id signatures x h c k = absurd (ground (arith, h))
  classify_signature-canonical (obj ms) id signatures x h c k = absurd (ground (arith, h))
  classify_signature-canonical (str s) id signatures x h c k =
      go (is_certified_signature run signatures s) refl h
    where
      go :
          (b : Bool)
          → is_certified_signature run signatures s ≡ b
          → (if b
              then taken (record { status = certified; canonical_signature = some s; token = none })
              else taken (record {
                status = unrecognized_signature;
                canonical_signature = none;
                token = some (derive_token run "SIG-" "signature" id s);
              }))
            ≡ taken x
          → is_certified_signature run signatures c ≡ true
      go true e h =
          subst (λ u. is_certified_signature run signatures u ≡ true)
            (some-inj (ap (λ y. y.canonical_signature) (taken-inj h) ∙ k)) e
      go false e h = absurd (ground (arith, ap (λ y. y.canonical_signature) (taken-inj h) ∙ k))

  take_item-taken :
      (allowed : Allowed) (incident_id : String) (target : Target) (seen : Seen) (ms : Members)
      (event_type domain id source : String) (i : Sanitized) (later : Seen)
      → take_item run allowed incident_id target seen ms event_type domain id source
        ≡ taken (i, later)
      → (i.event_type ≡ event_type)
        × (i.domain ≡ domain)
        × (i.evidence_id ≡ id)
        × (later.ids ≡ id ∷ seen.ids)
        × ((c : String)
            → i.canonical_signature ≡ some c
            → is_certified_signature run allowed.signatures c ≡ true)
  unfolding take_item
  take_item-taken allowed incident_id target seen ms event_type domain id source i later h =
      let (c, h1, k1) = then-taken _ _ (i, later) h in
      let (text, h2, k2) = then-taken (sanitized_text run (field "summary" ms)) _ (i, later) k1 in
      let (attributes, h3, k3) =
        then-taken (attributes_of run (attributes_field run ms) allowed.attribute_keys) _ (i, later)
          k2 in
      let is = taken-inj k3 in
      (
        ap (λ p. p.0.event_type) (sym is),
        ap (λ p. p.0.domain) (sym is),
        ap (λ p. p.0.evidence_id) (sym is),
        ap (λ p. p.1.ids) (sym is),
        λ s k.
            classify_signature-canonical (field "signature" ms) incident_id allowed.signatures c h1
              s (ap (λ p. p.0.canonical_signature) is ∙ k),
      )

  and-parts : (a b c : Bool) → (a && b && c) ≡ true → (a ≡ true) × (b ≡ true) × (c ≡ true)
  and-parts true true true h = (refl, refl, refl)
  and-parts true true false h = absurd (ground (arith, h))
  and-parts true false c h = absurd (ground (arith, h))
  and-parts false b c h = absurd (ground (arith, h))

  not-true : (b : Bool) → not b ≡ true → b ≡ false
  not-true true h = absurd (ground (arith, h))
  not-true false h = refl

  -- What a step of the loop takes: a clean evidence, whose id was not seen and now is.
  abbrev IsFresh : List String → Seen → Seen → Sanitized → Type 0
  IsFresh signatures seen later i =
      IsClean signatures i
      × (contains seen.ids i.evidence_id ≡ false)
      × (later.ids ≡ i.evidence_id ∷ seen.ids)

  read_item-IsFresh :
      (allowed : Allowed) (incident_id : String) (target : Target) (seen : Seen) (v : Json)
      (i : Sanitized) (later : Seen)
      → read_item run allowed incident_id target seen v ≡ taken (i, later)
      → IsFresh allowed.signatures seen later i
  unfolding read_item
  read_item-IsFresh allowed incident_id target seen (obj ms) i later h =
      let a = require-taken _ _ (i, later) h in
      let (b1, t1, k1) =
        then-taken (in_set all_event_types (field "event_type" ms)) _ (i, later) a.1 in
      let c = require-taken _ _ (i, later) k1 in
      let (b2, t2, k2) = then-taken (in_set allowed_domains (field "domain" ms)) _ (i, later) c.1 in
      let d = require-taken _ _ (i, later) k2 in
      let (event_type, t3, k3) =
        then-taken (as_text run (field "event_type" ms)) _ (i, later) d.1 in
      let (domain, t4, k4) = then-taken (as_text run (field "domain" ms)) _ (i, later) k3 in
      let (id, t5, k5) = then-taken (as_text run (field "evidence_id" ms)) _ (i, later) k4 in
      let e = require-taken _ _ (i, later) k5 in
      let (source, t6, k6) = then-taken (as_text run (field "source_id" ms)) _ (i, later) e.1 in
      let f = require-taken _ _ (i, later) k6 in
      let safe =
        and-parts (is_safe_identifier run id) (not (is_secret run id)) (not (contains seen.ids id))
          e.0 in
      let x =
        take_item-taken allowed incident_id target seen ms event_type domain id source i later
          f.1 in
      (
        (
          subst (λ s. contains all_event_types s ≡ true) (sym x.0)
              (in_set-text all_event_types (field "event_type" ms) b1 event_type t1 t3 ∙ c.0),
          subst (λ s. contains allowed_domains s ≡ true) (sym x.1)
              (in_set-text allowed_domains (field "domain" ms) b2 domain t2 t4 ∙ d.0),
          subst (λ s. is_safe_identifier run s ≡ true) (sym x.2) safe.0,
          subst (λ s. is_secret run s ≡ false) (sym x.2) (not-true _ safe.1),
          x.4,
        ),
        subst (λ s. contains seen.ids s ≡ false) (sym x.2) (not-true _ safe.2),
        x.3 ∙ ap (λ s. s ∷ seen.ids) (sym x.2),
      )
  read_item-IsFresh allowed incident_id target seen null i later h = absurd (ground (arith, h))
  read_item-IsFresh allowed incident_id target seen (bool b) i later h = absurd (ground (arith, h))
  read_item-IsFresh allowed incident_id target seen (int n) i later h = absurd (ground (arith, h))
  read_item-IsFresh allowed incident_id target seen (float f) i later h = absurd (ground (arith, h))
  read_item-IsFresh allowed incident_id target seen (str s) i later h = absurd (ground (arith, h))
  read_item-IsFresh allowed incident_id target seen (arr vs) i later h = absurd (ground (arith, h))

  abbrev IsUnseen : List String → List Sanitized → Type 0
  IsUnseen ids more = All (λ j. contains ids j.evidence_id ≡ false) more

  IsUnseen-split :
      (id : String) (ids : List String) (more : List Sanitized)
      → IsUnseen (id ∷ ids) more
      → All (λ j. str_eq id j.evidence_id ≡ false) more × IsUnseen ids more
  unfolding contains
  IsUnseen-split id ids [] h = (tt, tt)
  IsUnseen-split id ids (j ∷ more) h =
      let rest = IsUnseen-split id ids more h.1 in
      let (a, b) = or-false (str_eq id j.evidence_id) (contains ids j.evidence_id) h.0 in
      ((a, rest.0), (b, rest.1))

  abbrev AreClean : List String → Seen → List Sanitized → Type 0
  AreClean signatures seen more =
      All (IsClean signatures) more × IsUnseen seen.ids more × HasDistinctIds more

  pub read_items-AreClean :
      (allowed : Allowed) (incident_id : String) (target : Target) (vs : Items) (seen : Seen)
      (more : List Sanitized) (later : Seen)
      → read_items run allowed incident_id target seen vs ≡ taken (more, later)
      → AreClean allowed.signatures seen more
  unfolding read_items
  read_items-AreClean allowed incident_id target nil seen more later h =
      subst (λ p. AreClean allowed.signatures seen p.0) (taken-inj h) (tt, tt, tt)
  read_items-AreClean allowed incident_id target (cons v vs) seen more later h =
      go (read_item run allowed incident_id target seen v)
        (λ i s e. read_item-IsFresh allowed incident_id target seen v i s e)
        (λ s rest last e. read_items-AreClean allowed incident_id target vs s rest last e) h
    where
      go :
          (o : Intake (Sanitized × Seen))
          → ((i : Sanitized) (s : Seen) → o ≡ taken (i, s) → IsFresh allowed.signatures seen s i)
          → ((s : Seen) (rest : List Sanitized) (last : Seen)
              → read_items run allowed incident_id target s vs ≡ taken (rest, last)
              → AreClean allowed.signatures s rest)
          → (elim o [
            | refused ↦ refused
            | crashed ↦ crashed
            | taken (i, s) ↦ read_rest run i (read_items run allowed incident_id target s vs)
          ])
            ≡ taken (more, later)
          → AreClean allowed.signatures seen more
      go refused f k h = absurd (ground (arith, h))
      go crashed f k h = absurd (ground (arith, h))
      go (taken (i, s)) f k h =
          let ((rest, last), e, is) =
            then-taken (read_items run allowed incident_id target s vs) (λ r. taken (i ∷ r.0, r.1))
              (more, later) h in
          let (clean, fresh, ids) = f i s refl in
          let (all_clean, unseen, distinct) = k s rest last e in
          let parts =
            IsUnseen-split i.evidence_id seen.ids rest (subst (λ l. IsUnseen l rest) ids unseen) in
          subst (λ p. AreClean allowed.signatures seen p.0) (taken-inj is)
            ((clean, all_clean), (fresh, parts.1), (parts.0, distinct))
