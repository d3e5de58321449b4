-- ===== src/Prelude/Dict.antt =====
-- A Python dict with string keys, in insertion order.
pub mod Distinct
use Prim.Native.Nat.{ℕ, suc, ◌≤◌}
use Prim.Native.String.{String}
use mathlib.Core.Path.{◌≡◌, refl}
use mathlib.Core.Bool.{Bool, true, false, ◌||◌, ◌&&◌}
use mathlib.Core.Option.{Option, none, some}
use mathlib.Core.List.{List, [], ◌∷◌}
use native.Mathlib.Omega.{arith}
use text.Mathlib.Text.{◌==◌}
use text.Mathlib.TextEquality.{eq_iff}
use oracle_diagnostic_estack.Prelude.Tests.{if◌then◌else◌}
use oracle_diagnostic_estack.Prelude.Lists.{length}

abbrev pub Dict {ℓ} : Type ℓ → Type ℓ
Dict V = List (String × V)

-- `k in ks`
unfoldable pub contains : List String → String → Bool
contains [] k = false
contains (j ∷ ks) k = j == k || contains ks k

-- `set(a) <= set(b)`
unfoldable pub is_subset : List String → List String → Bool
is_subset [] b = true
is_subset (k ∷ ks) b = contains b k && is_subset ks b

module _ {ℓ} {V : Type ℓ} where
  unfoldable pub lookup : String → Dict V → Option V
  lookup k [] = none
  lookup k ((j, v) ∷ d) = if j == k then some v else lookup k d

  -- `d[k] = v`
  unfoldable pub insert : String → V → Dict V → Dict V
  insert k v [] = (k, v) ∷ []
  insert k v ((j, w) ∷ d) = if j == k then (j, v) ∷ d else (j, w) ∷ insert k v d

  -- `d.get(k, default)`
  abbrev pub get_or : String → V → Dict V → V
  get_or k v d = elim (lookup k d) [ none ↦ v | some w ↦ w ]

  abbrev pub keys : Dict V → List String
  keys [] = []
  keys ((j, _) ∷ d) = j ∷ keys d

  pub lookup-insert :
      (k j : String) (v : V) (d : Dict V)
      → lookup j (insert k v d) ≡ (if k == j then some v else lookup j d)
  unfolding lookup insert
  lookup-insert k j v [] = refl
  lookup-insert k j v ((i, w) ∷ d) =
      ground (arith, eq_iff k j, eq_iff i k, eq_iff i j, lookup-insert k j v d)

-- What the keys of a record or a request hold, in an order-free form.
pub contains-keys {ℓ} :
    {V : Type ℓ} (k : String) (d : Dict V)
    → contains (keys d) k ≡ (elim (lookup k d) [ none ↦ false | some _ ↦ true ])
unfolding contains lookup
contains-keys k [] = refl
contains-keys k ((j, v) ∷ d) = ground (arith, contains-keys k d)

pub is_subset-contains :
    (a b : List String) (k : String)
    → is_subset a b ≡ true
    → contains a k ≡ true
    → contains b k ≡ true
unfolding is_subset contains
is_subset-contains [] b k h m = absurd (ground arith)
is_subset-contains (j ∷ a) b k h m =
    let rest = is_subset-contains a b k in ground (arith, rest, eq_iff j k)

pub length-insert-le {ℓ} :
    {V : Type ℓ} (k : String) (v : V) (d : Dict V) → length (insert k v d) ≤ suc (length d)
unfolding insert
length-insert-le k v [] = omega arith
length-insert-le k v ((j, w) ∷ d) = ground (arith, length-insert-le k v d)
