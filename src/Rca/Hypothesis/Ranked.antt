-- ===== src/Rca/Hypothesis/Ranked.antt =====
-- The order of the hypotheses, and those that are cut off.
use mathlib.Core.List.{Perm}
use oracle_diagnostic_estack.Prelude.{
  ℕ, String, ◌≡◌, ◌≤◌, ap, false, none, some, List, [], ◌∷◌, map, take, drop, arith,
}
use oracle_diagnostic_estack.Prelude.Sort.{
  sort_by, IsSortedBy, IsAsym, sort_by-IsSortedBy, sort_by-perm,
}
use oracle_diagnostic_estack.Text.{text_lt, text_lt_asym, codes}
use oracle_diagnostic_estack.Rca.Evidence.{NormalizedEvidence}
use oracle_diagnostic_estack.Rca.Rules.{Rule}
use oracle_diagnostic_estack.Rca.Hypothesis.{
  Candidate, candidates, ranks_before, cut, generate_hypotheses,
}

ranks_before-IsAsym : IsAsym ranks_before
ranks_before-IsAsym (r, e, h) (s, f, k) =
    let names = text_lt_asym (codes r.rule_id) (codes s.rule_id) in ground (arith, names)

-- `c` does not rank after `d`: it has more independent sources, or as many and a rule whose id is
-- not greater.
abbrev pub RanksFirst : Candidate → Candidate → Type 0
RanksFirst (r, e, h) (s, f, k) =
    (f.independent_source_count ≤ e.independent_source_count)
    × (e.independent_source_count ≡ f.independent_source_count
        → text_lt (codes s.rule_id) (codes r.rule_id) ≡ false)

abbrev pub IsRanked : List Candidate → Type 0
IsRanked [] = Unit
IsRanked (c ∷ []) = Unit
IsRanked (c ∷ d ∷ ds) = RanksFirst c d × IsRanked (d ∷ ds)

ranks_before-RanksFirst : (c d : Candidate) → ranks_before d c ≡ false → RanksFirst c d
ranks_before-RanksFirst (r, e, h) (s, f, k) n = (ground (arith, n), λ q. ground (arith, n, q))

IsSortedBy-IsRanked : (cs : List Candidate) → IsSortedBy ranks_before cs → IsRanked cs
IsSortedBy-IsRanked [] s = tt
IsSortedBy-IsRanked (c ∷ []) s = tt
IsSortedBy-IsRanked (c ∷ d ∷ ds) s =
    (ranks_before-RanksFirst c d s.0, IsSortedBy-IsRanked (d ∷ ds) s.1)

-- The hypotheses are the first `most` of a ranking, and the ids that are cut off are those of the
-- rest: the ranking has the candidates in some order, each with at least as many independent sources
-- as the next one, and where these are equal the rule's id of the next is not the lesser one.
pub generate_hypotheses-IsRanked :
    (incident_id : String) (rs : List Rule) (es : List NormalizedEvidence) (most : ℕ)
    (cs : List Candidate)
    → candidates incident_id rs es ≡ some cs
    → (ranking : List Candidate) × IsRanked ranking
      × Perm ranking cs
      × (generate_hypotheses incident_id rs es most
          ≡ some (record {
            hypotheses = map (λ c. c.2) (take most ranking);
            truncated_rule_ids = map (λ c. c.0.rule_id) (drop most ranking);
          }))
unfolding generate_hypotheses
generate_hypotheses-IsRanked incident_id rs es most cs e = (
  sort_by ranks_before cs,
  IsSortedBy-IsRanked _ (sort_by-IsSortedBy ranks_before ranks_before-IsAsym cs),
  sort_by-perm ranks_before cs,
  ap (λ o. elim o [ none ↦ none | some ds ↦ some (cut most (sort_by ranks_before ds)) ]) e,
)
