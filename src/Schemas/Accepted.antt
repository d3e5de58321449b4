-- ===== src/Schemas/Accepted.antt =====
-- What `validate` lets through, whatever the schema: the value itself, of bounded nesting, with
-- bounded and printable texts and finite numbers.
use oracle_diagnostic_estack.Prelude.{
  ℕ, suc, ◌+◌, ◌≤◌, max, String, ◌≡◌, ◌⊎◌, inl, inr, true, false, some, List, arith, length, any,
  Bool-cases, Option-cases, str_eq, eq_iff,
}
use oracle_diagnostic_estack.Prelude.Dict.{contains, is_subset, is_subset-contains}
use oracle_diagnostic_estack.Text.{codes}
use oracle_diagnostic_estack.Schemas.{
  Json, bool, int, float, str, arr, obj, Items, nil, cons, Members, end, member, Schema, object_of,
  string_of, integer_of, number_of, boolean, array_of, Properties, find_property, is_control,
  is_finite, string_ok, StringRules, max_arg_string, max_depth, validate, validate_items,
  validate_members, member_keys, property_names, find_member,
}

unfoldable mutual
  pub nesting : Json → ℕ
  nesting (arr vs) = suc (nesting_items vs)
  nesting (obj ms) = suc (nesting_members ms)
  nesting _ = 1

  pub nesting_items : Items → ℕ
  nesting_items nil = 0
  nesting_items (cons v vs) = max (nesting v) (nesting_items vs)

  pub nesting_members : Members → ℕ
  nesting_members end = 0
  nesting_members (member k v ms) = max (nesting v) (nesting_members ms)

abbrev pub IsPlain : String → Type 0
IsPlain s = (length (codes s) ≤ max_arg_string) × (any is_control (codes s) ≡ false)

-- Every text inside is short and has no control character, and every number is finite.
abbrev mutual
  pub IsClean : Json → Type 0
  IsClean (str s) = IsPlain s
  IsClean (float x) = is_finite x ≡ true
  IsClean (arr vs) = IsCleanItems vs
  IsClean (obj ms) = IsCleanMembers ms
  IsClean _ = Unit

  pub IsCleanItems : Items → Type 0
  IsCleanItems nil = Unit
  IsCleanItems (cons v vs) = IsClean v × IsCleanItems vs

  pub IsCleanMembers : Members → Type 0
  IsCleanMembers end = Unit
  IsCleanMembers (member k v ms) = IsClean v × IsCleanMembers ms

string_ok-IsPlain : (rules : StringRules) (s : String) → string_ok rules s ≡ true → IsPlain s
unfolding string_ok
string_ok-IsPlain rules s h = ground arith

mutual
  unfolding validate nesting

  accepted :
      (v : Json) (s : Schema) (depth : ℕ) (w : Json)
      → validate v s depth ≡ some w
      → (w ≡ v) × IsClean v × (depth + nesting v ≤ suc max_depth)
  accepted (obj ms) (object_of props required) depth w h =
      elim (Option-cases (validate_members ms props (depth + 1))) [
        | inl e ↦ ground arith
        | inr (ws, e) ↦ ground (arith, accepted_members ms props (depth + 1) ws e)
      ]
  accepted (str s) (string_of rules) depth w h = ground (arith, string_ok-IsPlain rules s)
  accepted (int n) (integer_of rules) depth w h = ground arith
  accepted (int n) (number_of rules) depth w h = ground arith
  accepted (float x) (number_of rules) depth w h = ground arith
  accepted (bool b) boolean depth w h = ground arith
  accepted (arr vs) (array_of items most) depth w h =
      elim (Option-cases (validate_items vs items (depth + 1))) [
        | inl e ↦ ground arith
        | inr (ws, e) ↦ ground (arith, accepted_items vs items (depth + 1) ws e)
      ]
  accepted _ _ depth w h = ground arith

  accepted_items :
      (vs : Items) (s : Schema) (depth : ℕ) (ws : Items)
      → validate_items vs s depth ≡ some ws
      → (ws ≡ vs)
        × IsCleanItems vs
        × ((nesting_items vs ≡ 0) ⊎ (depth + nesting_items vs ≤ suc max_depth))
  accepted_items nil s depth ws h = ground arith
  accepted_items (cons v vs) s depth ws h = elim (Option-cases (validate v s depth)) [
    | inl e ↦ ground arith
    | inr (w, e) ↦ elim (Option-cases (validate_items vs s depth)) [
      | inl f ↦ ground arith
      | inr (us, f) ↦ ground (arith, accepted v s depth w e, accepted_items vs s depth us f)
    ]
  ]

  accepted_members :
      (ms : Members) (props : Properties) (depth : ℕ) (ws : Members)
      → validate_members ms props depth ≡ some ws
      → (ws ≡ ms)
        × IsCleanMembers ms
        × ((nesting_members ms ≡ 0) ⊎ (depth + nesting_members ms ≤ suc max_depth))
  accepted_members end props depth ws h = ground arith
  accepted_members (member k v ms) props depth ws h = elim (Option-cases (find_property k props)) [
    | inl none_found ↦ ground arith
    | inr (s, found) ↦ elim (Option-cases (validate v s depth)) [
      | inl e ↦ ground arith
      | inr (w, e) ↦ elim (Option-cases (validate_members ms props depth)) [
        | inl f ↦ ground arith
        | inr (us, f) ↦ ground (arith, accepted v s depth w e, accepted_members ms props depth us f)
      ]
    ]
  ]

-- A value that `validate` accepts at the top comes back unchanged, is nested at most seven deep,
-- and holds only finite numbers and texts of at most 256 characters with no control character,
-- whatever the schema is.
pub validate-accepted :
    (v : Json) (s : Schema) (w : Json)
    → validate v s 0 ≡ some w
    → (w ≡ v) × IsClean v × (nesting v ≤ 7)
validate-accepted v s w h = let a = accepted v s 0 w h in (a.0, a.1, omega (arith, a.2))

member_accepted :
    (ms : Members) (props : Properties) (depth : ℕ) (ws : Members) (k : String) (v : Json)
    (s : Schema)
    → validate_members ms props depth ≡ some ws
    → find_member k ms ≡ some v
    → find_property k props ≡ some s
    → (w : Json) × (validate v s depth ≡ some w)
unfolding validate find_member
member_accepted end props depth ws k v s h e f = absurd (ground arith)
member_accepted (member j u ms) props depth ws k v s h e f =
    elim (Option-cases (find_property j props)) [
      | inl none_found ↦ absurd (ground arith)
      | inr (t, found) ↦ elim (Option-cases (validate u t depth)) [
        | inl x ↦ absurd (ground arith)
        | inr (w, x) ↦ elim (Option-cases (validate_members ms props depth)) [
          | inl y ↦ absurd (ground arith)
          | inr (us, y) ↦ elim (Bool-cases (str_eq j k)) [
            | inl here ↦ (w, ground (arith, eq_iff j k))
            | inr there ↦ member_accepted ms props depth us k v s y (ground arith) f
          ]
        ]
      ]
    ]

find_member-some :
    (k : String) (ms : Members)
    → contains (member_keys ms) k ≡ true
    → (v : Json) × (find_member k ms ≡ some v)
unfolding find_member contains
find_member-some k end h = absurd (ground arith)
find_member-some k (member j v ms) h = elim (Bool-cases (str_eq j k)) [
  | inl here ↦ (v, rw here)
  | inr there ↦ rw there (find_member-some k ms (ground arith))
]

module _ (ms : Members) (props : Properties) (required : List String) (depth : ℕ) (w : Json)
    (h : validate (obj ms) (object_of props required) depth ≡ some w) where
  object_checks :
      (ws : Members) × (validate_members ms props (depth + 1) ≡ some ws)
      × (is_subset (member_keys ms) (property_names props) ≡ true)
      × (is_subset required (member_keys ms) ≡ true)
  unfolding validate
  object_checks = elim (Option-cases (validate_members ms props (depth + 1))) [
    | inl e ↦ absurd (ground arith)
    | inr (ws, e) ↦ (ws, e, ground arith, ground arith)
  ]

  -- An accepted object has no key but the declared ones.
  pub object_declared :
      (k : String) → contains (member_keys ms) k ≡ true → contains (property_names props) k ≡ true
  object_declared k = is_subset-contains (member_keys ms) (property_names props) k object_checks.2

  -- A required key of an accepted object has a value, which the key's schema accepts.
  pub object_required :
      (k : String) (s : Schema)
      → contains required k ≡ true
      → find_property k props ≡ some s
      → (v : Json) × (u : Json) × (find_member k ms ≡ some v) × (validate v s (depth + 1) ≡ some u)
  object_required k s r f =
      let (v, e) =
        find_member-some k ms (is_subset-contains required (member_keys ms) k object_checks.3 r) in
      let (u, g) = member_accepted ms props (depth + 1) object_checks.0 k v s object_checks.1 e f in
      (v, u, e, g)

  -- An optional key of an accepted object is missing, or its schema accepts the value.
  pub object_optional :
      (k : String) (s : Schema) (v : Json)
      → find_property k props ≡ some s
      → find_member k ms ≡ some v
      → (u : Json) × (validate v s (depth + 1) ≡ some u)
  object_optional k s v f e =
      member_accepted ms props (depth + 1) object_checks.0 k v s object_checks.1 e f
