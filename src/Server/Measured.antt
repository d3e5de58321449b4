-- ===== src/Server/Measured.antt =====
-- `_measure` of mcp_gateway/server.py against the height and the number of nodes of a value.
use oracle_diagnostic_estack.Prelude.{
  ℕ, suc, ◌+◌, ◌≤◌, max, ◌≡◌, ap, ◌∙◌, ◌↔◌, inl, inr, Option, some, arith, ◌||◌, none, ltb,
  if◌then◌else◌, Option-cases,
}
use oracle_diagnostic_estack.Schemas.{
  Json, null, bool, int, float, str, arr, obj, Items, nil, cons, Members, end, member,
}
use oracle_diagnostic_estack.Server.Message.{
  measure, measure_items, measure_members, max_json_depth, max_json_items,
}

-- How deep arrays and objects are nested in the value, and how many values it is made of.
unfoldable mutual
  pub height : Json → ℕ
  height (arr vs) = height_items vs
  height (obj ms) = height_members ms
  height _ = 0

  pub height_items : Items → ℕ
  height_items nil = 0
  height_items (cons v vs) = max (suc (height v)) (height_items vs)

  pub height_members : Members → ℕ
  height_members end = 0
  height_members (member k v ms) = max (suc (height v)) (height_members ms)

unfoldable mutual
  pub nodes : Json → ℕ
  nodes (arr vs) = suc (nodes_items vs)
  nodes (obj ms) = suc (nodes_members ms)
  nodes _ = 1

  pub nodes_items : Items → ℕ
  nodes_items nil = 0
  nodes_items (cons v vs) = nodes v + nodes_items vs

  pub nodes_members : Members → ℕ
  nodes_members end = 0
  nodes_members (member k v ms) = nodes v + nodes_members ms

-- The guard of `_measure`, from both sides.
abbrev guard : (d n : ℕ) → Option ℕ → Option ℕ
guard d n o = if ltb max_json_depth d || ltb max_json_items (suc n) then none else o

guard-open :
    (d n : ℕ) (o : Option ℕ) → d ≤ max_json_depth → suc n ≤ max_json_items → guard d n o ≡ o
guard-open d n o h m = ground arith

guard-passed :
    (d n m : ℕ) (o : Option ℕ)
    → guard d n o ≡ some m
    → (d ≤ max_json_depth) × (suc n ≤ max_json_items) × (o ≡ some m)
guard-passed d n m o h = ground arith

-- A value within both bounds is measured.
mutual
  unfolding measure height nodes

  measured :
      (v : Json) (d n : ℕ)
      → d + height v ≤ max_json_depth
      → n + nodes v ≤ max_json_items
      → measure v d n ≡ some (n + nodes v)
  measured (arr vs) d n h m =
      guard-open d n (measure_items vs (suc d) (suc n)) (omega arith) (omega arith)
      ∙ measured_items vs d (suc n) (omega arith) (omega arith)
      ∙ ap some (omega arith)
  measured (obj ms) d n h m =
      guard-open d n (measure_members ms (suc d) (suc n)) (omega arith) (omega arith)
      ∙ measured_members ms d (suc n) (omega arith) (omega arith)
      ∙ ap some (omega arith)
  measured null d n h m =
      guard-open d n (some (suc n)) (omega arith) (omega arith) ∙ ap some (omega arith)
  measured (bool b) d n h m =
      guard-open d n (some (suc n)) (omega arith) (omega arith) ∙ ap some (omega arith)
  measured (int i) d n h m =
      guard-open d n (some (suc n)) (omega arith) (omega arith) ∙ ap some (omega arith)
  measured (float x) d n h m =
      guard-open d n (some (suc n)) (omega arith) (omega arith) ∙ ap some (omega arith)
  measured (str s) d n h m =
      guard-open d n (some (suc n)) (omega arith) (omega arith) ∙ ap some (omega arith)

  measured_items :
      (vs : Items) (d n : ℕ)
      → d + height_items vs ≤ max_json_depth
      → n + nodes_items vs ≤ max_json_items
      → measure_items vs (suc d) n ≡ some (n + nodes_items vs)
  measured_items nil d n h m = ground arith
  measured_items (cons v vs) d n h m =
      let first = measured v (suc d) n (omega arith) (omega arith) in
      let rest = measured_items vs d (n + nodes v) (omega arith) (omega arith) in
      ground (arith, first, rest)

  measured_members :
      (ms : Members) (d n : ℕ)
      → d + height_members ms ≤ max_json_depth
      → n + nodes_members ms ≤ max_json_items
      → measure_members ms (suc d) n ≡ some (n + nodes_members ms)
  measured_members end d n h m = ground arith
  measured_members (member k v ms) d n h m =
      let first = measured v (suc d) n (omega arith) (omega arith) in
      let rest = measured_members ms d (n + nodes v) (omega arith) (omega arith) in
      ground (arith, first, rest)

leaf :
    (d n m : ℕ)
    → guard d n (some (suc n)) ≡ some m
    → (d + 0 ≤ max_json_depth) × (n + 1 ≤ max_json_items) × (m ≡ n + 1)
leaf d n m h = ground arith

-- What `_measure` lets through is within both bounds.
mutual
  unfolding measure height nodes

  bounded :
      (v : Json) (d n m : ℕ)
      → measure v d n ≡ some m
      → (d + height v ≤ max_json_depth) × (n + nodes v ≤ max_json_items) × (m ≡ n + nodes v)
  bounded (arr vs) d n m h =
      let (low, few, rest) = guard-passed d n m (measure_items vs (suc d) (suc n)) h in
      let (deep, many, count) = bounded_items vs d (suc n) m low few rest in
      (deep, omega arith, omega arith)
  bounded (obj ms) d n m h =
      let (low, few, rest) = guard-passed d n m (measure_members ms (suc d) (suc n)) h in
      let (deep, many, count) = bounded_members ms d (suc n) m low few rest in
      (deep, omega arith, omega arith)
  bounded null d n m h = leaf d n m h
  bounded (bool b) d n m h = leaf d n m h
  bounded (int i) d n m h = leaf d n m h
  bounded (float x) d n m h = leaf d n m h
  bounded (str s) d n m h = leaf d n m h

  bounded_items :
      (vs : Items) (d n m : ℕ)
      → d ≤ max_json_depth
      → n ≤ max_json_items
      → measure_items vs (suc d) n ≡ some m
      → (d + height_items vs ≤ max_json_depth)
        × (n + nodes_items vs ≤ max_json_items)
        × (m ≡ n + nodes_items vs)
  bounded_items nil d n m low few h = ground arith
  bounded_items (cons v vs) d n m low few h = elim (Option-cases (measure v (suc d) n)) [
    | inl e ↦ ground arith
    | inr (k, e) ↦
        let first = bounded v (suc d) n k e in
        ground (arith, first, bounded_items vs d k m low (omega arith))
  ]

  bounded_members :
      (ms : Members) (d n m : ℕ)
      → d ≤ max_json_depth
      → n ≤ max_json_items
      → measure_members ms (suc d) n ≡ some m
      → (d + height_members ms ≤ max_json_depth)
        × (n + nodes_members ms ≤ max_json_items)
        × (m ≡ n + nodes_members ms)
  bounded_members end d n m low few h = ground arith
  bounded_members (member k v ms) d n m low few h = elim (Option-cases (measure v (suc d) n)) [
    | inl e ↦ ground arith
    | inr (j, e) ↦
        let first = bounded v (suc d) n j e in
        ground (arith, first, bounded_members ms d j m low (omega arith))
  ]

-- A message passes `_measure` exactly if its values are nested at most 24 deep and are at most
-- 2000 in all; the count that it passes on is then their number.
pub measure_ok_iff :
    (v : Json) (m : ℕ)
    → (measure v 0 0 ≡ some m)
      ↔ ((height v ≤ max_json_depth) × (nodes v ≤ max_json_items) × (m ≡ nodes v))
measure_ok_iff v m = (
  λ h. let (deep, many, count) = bounded v 0 0 m h in (omega arith, omega arith, omega arith),
  λ h.
      let (deep, many, count) = h in
      measured v 0 0 (omega arith) (omega arith) ∙ ap some (omega arith),
)
