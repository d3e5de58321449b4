-- ===== src/FieldValidation/Validated.antt =====
-- When a collector is FIELD_VALIDATED for a target.
use oracle_diagnostic_estack.Prelude.{
  ℕ, ◌≤◌, String, ◌≡◌, refl, sym, ap, subst, ◌∙◌, ◌≢◌, ◌↔◌, ◌⊎◌, inl, inr, Bool, true, false, not,
  ◌&&◌, Option, none, some, List, [], ◌∷◌, arith, str_eq, eq_iff, length, All, keep, if◌then◌else◌,
  some-inj, pick, pick_if,
}
use oracle_diagnostic_estack.Prelude.Any.{Any, Any-keep, keep-Any, Any-map, All-keep}
use oracle_diagnostic_estack.Prelude.Dict.{lookup}
use oracle_diagnostic_estack.Text.{Text}
use oracle_diagnostic_estack.Catalog.{Target, Collector}
use oracle_diagnostic_estack.FieldValidation.{
  Context, Validation, Registry, Finding, Findings, Dimension, find_text, findings, finish,
  have_changes, is_some, add_mine, mine_of, differences, compare, compared, ranks_before, best_from,
  best_of, has_difference, field_validated, Assessment, assessed, assess, assess_query, assess_mine,
  assess_current, query_of, unassessed, no_field_validation_recorded, not_a_certified_query,
}

and-both : (a b : Bool) → a ≡ true → b ≡ true → (a && b) ≡ true
and-both true b h k = k
and-both false b h k = absurd (ground (arith, h))

abbrev count : Findings → ℕ
count f = length (differences f)

has_difference_iff : (f : Findings) → (has_difference f ≡ false) ↔ (count f ≡ 0)
has_difference_iff f = go (differences f)
  where
    go :
        (ds : List Dimension) → ((elim ds [ [] ↦ false | d ∷ ds ↦ true ]) ≡ false) ↔ (length ds ≡ 0)
    go [] = ground arith
    go (d ∷ ds) = ground arith

module _ (is_decimal : ℕ → Bool) (int_of : Text → Option ℕ) (reg : Registry) (t : Target) where
  -- The validation's context is in the registry, and differs from the target in nothing.
  abbrev pub Agrees : Validation → Type 0
  Agrees v =
      (ctx : Context) × (f : Findings) × (lookup v.context_id reg.contexts ≡ some ctx)
      × (compare is_decimal int_of ctx t ≡ some f)
      × (count f ≡ 0)

  -- The comparison of a pair is that of its validation.
  abbrev IsCompared : Validation × Findings → Type 0
  IsCompared r =
      (ctx : Context) × (lookup r.0.context_id reg.contexts ≡ some ctx)
      × (compare is_decimal int_of ctx t ≡ some r.1)

  compared-IsCompared :
      (v : Validation) (r : Validation × Findings)
      → compared is_decimal int_of reg t v ≡ some r
      → (r.0 ≡ v) × IsCompared r
  compared-IsCompared v r h = go (lookup v.context_id reg.contexts) refl h
    where
      known :
          (ctx : Context) (o : Option Findings)
          → lookup v.context_id reg.contexts ≡ some ctx
          → compare is_decimal int_of ctx t ≡ o
          → (elim o [ none ↦ none | some f ↦ some (v, f) ]) ≡ some r
          → (r.0 ≡ v) × IsCompared r
      known ctx none e q f = absurd (ground (arith, f))
      known ctx (some fs) e q f =
          subst (λ x. (x.0 ≡ v) × IsCompared x) (some-inj f) (refl, (ctx, e, q))

      go :
          (o : Option Context)
          → lookup v.context_id reg.contexts ≡ o
          → (elim o [
            | none ↦ none
            | some ctx ↦ elim (compare is_decimal int_of ctx t) [
              | none ↦ none
              | some f ↦ some (v, f)
            ]
          ])
            ≡ some r
          → (r.0 ≡ v) × IsCompared r
      go none e f = absurd (ground (arith, f))
      go (some ctx) e f = known ctx (compare is_decimal int_of ctx t) e refl f

  -- The validation that agrees ends the search for a difference.
  Agrees-of : (r : Validation × Findings) → IsCompared r → count r.1 ≡ 0 → Agrees r.0
  Agrees-of r (ctx, found, same) none_differs = (ctx, r.1, found, same, none_differs)

  ranks_before-le : (f best : Findings) → ranks_before f best ≡ true → count f ≤ count best
  ranks_before-le f best h = ground arith

  ranks_before-ge : (f best : Findings) → ranks_before f best ≡ false → count best ≤ count f
  ranks_before-ge f best h = ground arith

  -- If the validation agrees, its comparison has no difference.
  of-Agrees : (r : Validation × Findings) → IsCompared r → Agrees r.0 → count r.1 ≡ 0
  of-Agrees r (ctx, found, same) (other, f, there, alike, zero) =
      let one : ctx ≡ other = some-inj (sym found ∙ there) in
      let two : r.1 ≡ f =
        some-inj (sym same ∙ ap (λ c. compare is_decimal int_of c t) one ∙ alike) in
      ap count two ∙ zero

  -- What the search for the best context gives: a comparison of one of the validations, which has
  -- no more differences than any other.
  abbrev IsBest : Validation × Findings → List Validation → Validation × Findings → Type 0
  IsBest best vs r =
      IsCompared r
      × (count r.1 ≤ count best.1)
      × ((r.0 ≡ best.0) ⊎ Any (λ v. r.0 ≡ v) vs)
      × (Any Agrees vs → count r.1 ≡ 0)

  IsBest-cons :
      (best next r : Validation × Findings) (v : Validation) (vs : List Validation) (b : Bool)
      → ranks_before next.1 best.1 ≡ b
      → next.0 ≡ v
      → IsCompared next
      → IsBest (if b then next else best) vs r
      → IsBest best (v ∷ vs) r
  IsBest-cons best next r v vs true e same from (is, few, origin, least) = (
    is,
    omega (arith, few, ranks_before-le next.1 best.1 e),
    inr (elim origin [ inl o ↦ inl (o ∙ same) | inr o ↦ inr o ]),
    λ a. elim a [
      | inl here ↦
          let zero = of-Agrees next from (subst Agrees (sym same) here) in omega (arith, few, zero)
      | inr later ↦ least later
    ],
  )
  IsBest-cons best next r v vs false e same from (is, few, origin, least) = (
    is,
    few,
    elim origin [ inl o ↦ inl o | inr o ↦ inr (inr o) ],
    λ a. elim a [
      | inl here ↦
          let zero = of-Agrees next from (subst Agrees (sym same) here) in
          omega (arith, few, zero, ranks_before-ge next.1 best.1 e)
      | inr later ↦ least later
    ],
  )

  best_from-IsBest :
      (best r : Validation × Findings) (vs : List Validation)
      → IsCompared best
      → best_from is_decimal int_of reg t best vs ≡ some r
      → IsBest best vs r
  unfolding best_from
  best_from-IsBest best r [] is h =
      let same : best ≡ r = ground (arith, h) in
      subst (IsBest best []) same (is, omega arith, inl refl, λ a. absurd a)
  best_from-IsBest best r (v ∷ vs) is h =
      go (compared is_decimal int_of reg t v) refl (λ b. best_from-IsBest b r vs) h
    where
      go :
          (o : Option (Validation × Findings))
          → compared is_decimal int_of reg t v ≡ o
          → ((b : Validation × Findings)
              → IsCompared b
              → best_from is_decimal int_of reg t b vs ≡ some r
              → IsBest b vs r)
          → (elim o [
            | none ↦ none
            | some next ↦
                best_from is_decimal int_of reg t
                  (if ranks_before next.1 best.1 then next else best)
                  vs
          ])
            ≡ some r
          → IsBest best (v ∷ vs) r
      go none e rest f = absurd (ground (arith, f))
      go (some next) e rest f =
          let (same, from) = compared-IsCompared v next e in
          let b = ranks_before next.1 best.1 in
          IsBest-cons best next r v vs b refl same from (
            rest (if b then next else best) (pick_if IsCompared b next best (λ _. from) (λ _. is))
              f)

  best_of-IsBest :
      (v : Validation) (vs : List Validation) (r : Validation × Findings)
      → best_of is_decimal int_of reg t (v ∷ vs) ≡ some r
      → IsCompared r × Any (λ w. r.0 ≡ w) (v ∷ vs) × (Any Agrees (v ∷ vs) → count r.1 ≡ 0)
  unfolding best_of
  best_of-IsBest v vs r h = go (compared is_decimal int_of reg t v) refl h
    where
      go :
          (o : Option (Validation × Findings))
          → compared is_decimal int_of reg t v ≡ o
          → (elim o [ none ↦ none | some first ↦ best_from is_decimal int_of reg t first vs ])
            ≡ some r
          → IsCompared r × Any (λ w. r.0 ≡ w) (v ∷ vs) × (Any Agrees (v ∷ vs) → count r.1 ≡ 0)
      go none e f = absurd (ground (arith, f))
      go (some first) e f =
          let (same, from) = compared-IsCompared v first e in
          let (is, few, origin, least) = best_from-IsBest first r vs from f in
          (
            is,
            elim origin [ inl o ↦ inl (o ∙ same) | inr o ↦ inr o ],
            λ a. elim a [
              | inl here ↦
                  let zero = of-Agrees first from (subst Agrees (sym same) here) in
                  omega (arith, few, zero)
              | inr later ↦ least later
            ],
          )

  Any-subst :
      (v : Validation) (vs : List Validation) → Agrees v → Any (λ w. v ≡ w) vs → Any Agrees vs
  Any-subst v (w ∷ vs) a (inl same) = inl (subst Agrees same a)
  Any-subst v (w ∷ vs) a (inr later) = inr (Any-subst v vs a later)
  Any-subst v [] a none_here = none_here

  level_iff : (r : Validation × Findings) → ((assessed r).level ≡ field_validated) ↔ (count r.1 ≡ 0)
  level_iff r = ground (arith, has_difference_iff r.1)

  finish-assessed :
      (o : Option Context) (b : Bool) (best : Validation × Findings) (a : Assessment)
      → finish o b best ≡ some a
      → assessed best ≡ a
  finish-assessed none b best a h = absurd (ground (arith, h))
  finish-assessed (some ctx) b best a h =
      go (is_some ctx.container && is_some ctx.role && is_some best.0.validated_at_utc && b) h
    where
      go : (c : Bool) → (if c then some (assessed best) else none) ≡ some a → assessed best ≡ a
      go true h = some-inj h
      go false h = absurd (ground (arith, h))

  current_iff :
      (vs : List Validation) (a : Assessment)
      → assess_current is_decimal int_of reg t vs ≡ some a
      → (a.level ≡ field_validated) ↔ Any Agrees vs
  current_iff [] a h = (λ e. absurd (ground (arith, h, e)), λ n. absurd n)
  current_iff (v ∷ vs) a h = go (best_of is_decimal int_of reg t (v ∷ vs)) refl h
    where
      go :
          (o : Option (Validation × Findings))
          → best_of is_decimal int_of reg t (v ∷ vs) ≡ o
          → (elim o [
            | none ↦ none
            | some best ↦
                finish (lookup best.0.context_id reg.contexts) (have_changes (v ∷ vs)) best
          ])
            ≡ some a
          → (a.level ≡ field_validated) ↔ Any Agrees (v ∷ vs)
      go none e f = absurd (ground (arith, f))
      go (some best) e f =
          let (is, origin, least) = best_of-IsBest v vs best e in
          let equal = finish-assessed (lookup best.0.context_id reg.contexts) _ best a f in
          subst (λ x. (x.level ≡ field_validated) ↔ Any Agrees (v ∷ vs)) equal
            (
              λ l. Any-subst best.0 (v ∷ vs) (Agrees-of best is ((level_iff best).0 l)) origin,
              λ n. (level_iff best).1 (least n),
            )

  -- The validation has the keys that `_valid` does not look at, and names a context of the registry
  -- that has them.
  abbrev pub IsComplete : Validation → Type 0
  IsComplete v =
      ((q : String) × (v.query_id ≡ some q))
      × (is_some v.change_id ≡ true)
      × (is_some v.validated_at_utc ≡ true)
      × ((ctx : Context) × (lookup v.context_id reg.contexts ≡ some ctx)
          × (is_some ctx.container ≡ true)
          × (is_some ctx.role ≡ true))

  find_text-some :
      (o : Option String) (target : String)
      → is_some o ≡ true
      → (f : Finding) × (find_text o target ≡ some f)
  find_text-some none target h = absurd (ground (arith, h))
  find_text-some (some s) target h =
      pick (λ x. (f : Finding) × (x ≡ some f)) (str_eq target "UNKNOWN") (some Finding.unknown)
        (some (if str_eq target s then Finding.same else Finding.differs)) (_, refl) (_, refl)

  compare-some :
      (ctx : Context)
      → is_some ctx.container ≡ true
      → is_some ctx.role ≡ true
      → (f : Findings) × (compare is_decimal int_of ctx t ≡ some f)
  unfolding compare
  compare-some ctx h k =
      let (c, e) = find_text-some ctx.container t.container h in
      let (r, f) = find_text-some ctx.role t.role k in
      (
        findings is_decimal int_of ctx t c r,
        ap
              (λ o. elim o [
                | none ↦ none
                | some c ↦ elim (find_text ctx.role t.role) [
                  | none ↦ none
                  | some r ↦ some (findings is_decimal int_of ctx t c r)
                ]
              ])
              e
            ∙ ap
                (λ o. elim o [ none ↦ none | some r ↦ some (findings is_decimal int_of ctx t c r) ])
                f,
      )

  compared-some :
      (v : Validation)
      → IsComplete v
      → (r : Validation × Findings) × (compared is_decimal int_of reg t v ≡ some r)
  compared-some v (_, _, _, (ctx, found, container, role)) =
      let (f, e) = compare-some ctx container role in
      (
        (v, f),
        ap
              (λ o. elim o [
                | none ↦ none
                | some c ↦ elim (compare is_decimal int_of c t) [
                  | none ↦ none
                  | some f ↦ some (v, f)
                ]
              ])
              found
            ∙ ap (λ o. elim o [ none ↦ none | some f ↦ some (v, f) ]) e,
      )

  have_changes-true : (vs : List Validation) → All IsComplete vs → have_changes vs ≡ true
  have_changes-true [] h = refl
  have_changes-true (v ∷ vs) (h, hs) = and-both _ _ h.1 (have_changes-true vs hs)

  All-Any :
      (v : Validation) (vs : List Validation)
      → All IsComplete vs
      → Any (λ w. v ≡ w) vs
      → IsComplete v
  All-Any v (w ∷ vs) (h, hs) (inl same) = subst IsComplete (sym same) h
  All-Any v (w ∷ vs) (h, hs) (inr later) = All-Any v vs hs later
  All-Any v [] h none_here = absurd none_here

  finish-some :
      (best : Validation × Findings) (b : Bool)
      → IsComplete best.0
      → b ≡ true
      → finish (lookup best.0.context_id reg.contexts) b best ≡ some (assessed best)
  finish-some best b (_, _, at, (ctx, found, container, role)) h =
      let all_keys =
        and-both _ b
          (and-both _ (is_some best.0.validated_at_utc)
            (and-both (is_some ctx.container) (is_some ctx.role) container role) at)
          h in
      ap (λ o. finish o b best) found ∙ ap (λ c. if c then some (assessed best) else none) all_keys

  best_from-some :
      (vs : List Validation) (best : Validation × Findings)
      → All IsComplete vs
      → (r : Validation × Findings) × (best_from is_decimal int_of reg t best vs ≡ some r)
  unfolding best_from
  best_from-some [] best h = (best, refl)
  best_from-some (v ∷ vs) best (here, later) =
      let (next, e) = compared-some v here in
      let (r, f) = best_from-some vs (if ranks_before next.1 best.1 then next else best) later in
      (
        r,
        ap
              (λ o. elim o [
                | none ↦ none
                | some n ↦
                    best_from is_decimal int_of reg t (if ranks_before n.1 best.1 then n else best)
                      vs
              ])
              e
            ∙ f,
      )

  current_some :
      (vs : List Validation)
      → All IsComplete vs
      → (a : Assessment) × (assess_current is_decimal int_of reg t vs ≡ some a)
  unfolding best_of
  current_some [] h = (_, refl)
  current_some (v ∷ vs) (here, later) =
      let (first, e) = compared-some v here in
      let (r, f) = best_from-some vs first later in
      let best : best_of is_decimal int_of reg t (v ∷ vs) ≡ some r =
        ap (λ o. elim o [ none ↦ none | some n ↦ best_from is_decimal int_of reg t n vs ]) e ∙ f in
      let (_, origin, _) = best_of-IsBest v vs r best in
      (
        assessed r,
        ap
              (λ o. elim o [
                | none ↦ none
                | some best ↦
                    finish (lookup best.0.context_id reg.contexts) (have_changes (v ∷ vs)) best
              ])
              best
            ∙ finish-some r (have_changes (v ∷ vs)) (All-Any r.0 (v ∷ vs) (here, later) origin)
                (have_changes-true (v ∷ vs) (here, later)),
      )

  -- A result that is FIELD_VALIDATED exactly if `P`.
  abbrev Decides : Type 0 → Option Assessment → Type 0
  Decides P o = (a : Assessment) × (o ≡ some a) × ((a.level ≡ field_validated) ↔ P)

  mine-Decides :
      (sha : String) (vs : List Validation)
      → All IsComplete vs
      → Decides
          (Any Agrees (keep (λ w. str_eq w.query_sha256 sha) vs))
          (assess_mine is_decimal int_of reg t sha vs)
  mine-Decides sha [] h = (
    unassessed no_field_validation_recorded,
    refl,
    (λ e. absurd (ground (arith, e)), λ n. absurd n),
  )
  mine-Decides sha (v ∷ vs) h =
      let current = keep (λ w. str_eq w.query_sha256 sha) (v ∷ vs) in
      let (a, e) =
        current_some current (All-keep IsComplete (λ w. str_eq w.query_sha256 sha) (v ∷ vs) h) in
      (a, e, current_iff current a e)

  -- The validation is of the query.
  abbrev is_of : String → Validation → Bool
  is_of qid v = elim v.query_id [ none ↦ false | some q ↦ str_eq q qid ]

  is_of_iff : (qid : String) (v : Validation) → (is_of qid v ≡ true) ↔ (v.query_id ≡ some qid)
  is_of_iff qid v = go v.query_id
    where
      go :
          (o : Option String)
          → ((elim o [ none ↦ false | some q ↦ str_eq q qid ]) ≡ true) ↔ (o ≡ some qid)
      go none = (λ h. absurd (ground (arith, h)), λ h. absurd (ground (arith, h)))
      go (some q) = (λ h. ap some ((eq_iff q qid).0 h), λ h. (eq_iff q qid).1 (some-inj h))

  mine_of-keep :
      (qid : String) (vs : List Validation)
      → All IsComplete vs
      → mine_of qid vs ≡ some (keep (is_of qid) vs)
  unfolding mine_of
  mine_of-keep qid [] h = refl
  mine_of-keep qid (v ∷ vs) (h, hs) =
      ap (add_mine qid v) (mine_of-keep qid vs hs) ∙ go v.query_id h.0
    where
      go :
          (o : Option String)
          → ((q : String) × (o ≡ some q))
          → (elim o [
            | none ↦ none
            | some q ↦ some (if str_eq q qid then v ∷ keep (is_of qid) vs else keep (is_of qid) vs)
          ])
            ≡ some (
                if (elim o [ none ↦ false | some q ↦ str_eq q qid ])
                then v ∷ keep (is_of qid) vs
                else keep (is_of qid) vs)
      go none (q, e) = absurd (ground (arith, e))
      go (some q) h = refl

  -- A validation of the collector's query and current SQL that agrees with the target.
  abbrev pub Validates : Collector → String → Validation → Type 0
  Validates c sha v = (v.query_id ≡ some (query_of c)) × (v.query_sha256 ≡ sha) × Agrees v

  Any-Validates :
      (c : Collector) (sha : String) (xs : List Validation)
      → Any Agrees (keep (λ w. str_eq w.query_sha256 sha) (keep (is_of (query_of c)) xs))
        ↔ Any (Validates c sha) xs
  Any-Validates c sha xs =
      let p : Validation → Bool = is_of (query_of c) in
      let q : Validation → Bool = λ w. str_eq w.query_sha256 sha in
      let Q : Validation → Type 0 = λ w. (q w ≡ true) × Agrees w in
      let both : Validation → Type 0 = λ v. (p v ≡ true) × Q v in
      (
        λ h.
            Any-map both (Validates c sha) xs
              (λ v k.
                ((is_of_iff (query_of c) v).0 k.0, (eq_iff v.query_sha256 sha).0 k.1.0, k.1.1))
              (Any-keep Q p xs (Any-keep Agrees q (keep p xs) h)),
        λ h. keep-Any Agrees q (keep p xs) (
            keep-Any Q p xs (
              Any-map (Validates c sha) both xs
                (λ v k.
                  ((is_of_iff (query_of c) v).1 k.0, ((eq_iff v.query_sha256 sha).1 k.1, k.2)))
                h)),
      )

  -- The collector runs a certified query, and its current SQL has a validation that agrees.
  abbrev pub IsValidated : Collector → Type 0
  IsValidated c =
      (c.kind ≡ "sql_query")
      × ((sha : String) × (c.query_sha256 ≡ some sha)
          × (sha ≢ "")
          × Any (Validates c sha) reg.validations)

  query-Decides :
      (c : Collector) (sha : String) (b : Bool)
      → str_eq sha "" ≡ b
      → c.kind ≡ "sql_query"
      → c.query_sha256 ≡ some sha
      → All IsComplete reg.validations
      → Decides (IsValidated c) (
          if b
          then some (unassessed not_a_certified_query)
          else elim (mine_of (query_of c) reg.validations) [
            | none ↦ none
            | some mine ↦ assess_mine is_decimal int_of reg t sha mine
          ])
  query-Decides c sha true e kind known h = (
    unassessed not_a_certified_query,
    refl,
    (
      λ l. absurd (ground (arith, l)),
      λ v.
          let (_, (other, same, full, _)) = v in
          absurd (full (ground (arith, known, same, e, eq_iff sha ""))),
    ),
  )
  query-Decides c sha false e kind known h =
      let p : Validation → Bool = is_of (query_of c) in
      let (a, r, iff) =
        mine-Decides sha (keep p reg.validations) (All-keep IsComplete p reg.validations h) in
      let same = Any-Validates c sha reg.validations in
      (
        a,
        ap (λ o. elim o [ none ↦ none | some mine ↦ assess_mine is_decimal int_of reg t sha mine ])
              (mine_of-keep (query_of c) reg.validations h)
            ∙ r,
        (
          λ l. (
            kind,
            (sha, known, (λ z. absurd (ground (arith, e, z, eq_iff sha ""))), same.0 (iff.0 l)),
          ),
          λ v.
              let (_, (other, also, _, any)) = v in
              let one : other ≡ sha = ground (arith, known, also) in
              iff.1 (same.1 (subst (λ k. Any (Validates c k) reg.validations) one any)),
        ),
      )

  kind-Decides :
      (c : Collector) (o : Option String)
      → c.query_sha256 ≡ o
      → c.kind ≡ "sql_query"
      → All IsComplete reg.validations
      → Decides (IsValidated c) (elim o [
        | none ↦ some (unassessed not_a_certified_query)
        | some sha ↦ assess_query is_decimal int_of reg c t sha
      ])
  kind-Decides c none e kind h = (
    unassessed not_a_certified_query,
    refl,
    (
      λ l. absurd (ground (arith, l)),
      λ v. let (_, (sha, known, _, _)) = v in absurd (ground (arith, e, known)),
    ),
  )
  kind-Decides c (some sha) e kind h = query-Decides c sha (str_eq sha "") refl kind e h

  -- If every validation of the registry has the keys query_id, change_id and validated_at_utc, and
  -- names one of its contexts with the keys container and role, `assess` gives a result, and
  -- that is FIELD_VALIDATED exactly if the collector runs a certified query, and some validation is
  -- of this query and of its current SQL and has a context that differs from the target in nothing.
  pub assess-IsValidated :
      (c : Collector)
      → All IsComplete reg.validations
      → (a : Assessment) × (assess is_decimal int_of reg c t ≡ some a)
        × ((a.level ≡ field_validated) ↔ IsValidated c)
  unfolding assess
  assess-IsValidated c h = go (str_eq c.kind "sql_query") refl
    where
      go :
          (b : Bool)
          → str_eq c.kind "sql_query" ≡ b
          → Decides (IsValidated c) (
              if not b then some (unassessed not_a_certified_query) else elim c.query_sha256 [
                | none ↦ some (unassessed not_a_certified_query)
                | some sha ↦ assess_query is_decimal int_of reg c t sha
              ])
      go true e = kind-Decides c c.query_sha256 refl ((eq_iff c.kind "sql_query").0 e) h
      go false e = (
        unassessed not_a_certified_query,
        refl,
        (
          λ l. absurd (ground (arith, l)),
          λ v. absurd (ground (arith, e, v.0, eq_iff c.kind "sql_query")),
        ),
      )
