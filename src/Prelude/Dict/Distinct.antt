-- ===== src/Prelude/Dict/Distinct.antt =====
-- Dicts whose keys are pairwise different, as Python's are.
use Prim.Native.String.{String}
use mathlib.Core.Path.{◌≡◌, refl}
use mathlib.Core.Logic.{inl, inr}
use mathlib.Core.Bool.{Bool}
use mathlib.Core.Option.{Option, none, some}
use mathlib.Core.List.{[], ◌∷◌}
use native.Mathlib.Omega.{arith}
use text.Mathlib.Text.{◌==◌}
use text.Mathlib.TextEquality.{eq_iff}
use oracle_diagnostic_estack.Prelude.Tests.{if◌then◌else◌, Bool-cases}
use oracle_diagnostic_estack.Prelude.Lists.{keep}
use oracle_diagnostic_estack.Prelude.Dict.{Dict, lookup, insert, lookup-insert}

module _ {V : Type 0} where
  abbrev pub Distinct : Dict V → Type 0
  Distinct [] = Unit
  Distinct ((k, v) ∷ d) = (lookup k d ≡ none) × Distinct d

  pub Distinct-insert : (k : String) (v : V) (d : Dict V) → Distinct d → Distinct (insert k v d)
  unfolding insert lookup
  Distinct-insert k v [] h = (refl, tt)
  Distinct-insert k v ((j, w) ∷ d) h = elim (Bool-cases (j == k)) [
    | inl same ↦ rw same h
    | inr other ↦
        rw other
          (ground (arith, lookup-insert k j v d, eq_iff j k, eq_iff k j), Distinct-insert k v d h.1)
  ]

  abbrev pub keep_value : (V → Bool) → V → Option V
  keep_value p v = if p v then some v else none

  pub lookup-keep-none :
      (p : V → Bool) (k : String) (d : Dict V)
      → lookup k d ≡ none
      → lookup k (keep (λ r. p r.1) d) ≡ none
  unfolding lookup
  lookup-keep-none p k [] h = refl
  lookup-keep-none p k ((j, v) ∷ d) h = ground (arith, lookup-keep-none p k d)

  pub Distinct-keep : (p : V → Bool) (d : Dict V) → Distinct d → Distinct (keep (λ r. p r.1) d)
  Distinct-keep p [] h = tt
  Distinct-keep p ((j, v) ∷ d) h = ground (arith, Distinct-keep p d h.1, lookup-keep-none p j d h.0)

  -- A filter keeps what it lets through under its key, and loses the rest.
  pub lookup-keep :
      (p : V → Bool) (k : String) (d : Dict V)
      → Distinct d
      → lookup k (keep (λ r. p r.1) d)
        ≡ (elim (lookup k d) [ none ↦ none | some v ↦ keep_value p v ])
  unfolding lookup
  lookup-keep p k [] h = refl
  lookup-keep p k ((j, v) ∷ d) h =
      ground (arith, lookup-keep p k d h.1, lookup-keep-none p k d, eq_iff j k)
