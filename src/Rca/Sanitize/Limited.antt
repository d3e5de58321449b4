-- ===== src/Rca/Sanitize/Limited.antt =====
-- The limits that sanitized values keep.

use oracle_diagnostic_estack.Prelude.{
  ℕ, zero, suc, ◌+◌, ◌-◌, ◌≤◌, max, String, ◌≡◌, refl, subst, Bool, true, false, Option, none, some,
  some-inj, arith, ltb, ◌==◌, str_eq, length, if◌then◌else◌, pick,
}
use oracle_diagnostic_estack.Text.{codes}
use oracle_diagnostic_estack.Schemas.{
  Float, nan, infinite, finite, Json, null, bool, int, float, str, arr, obj, Items, nil, cons,
  Members, end, member,
}
use oracle_diagnostic_estack.Evidence.Grammar.{has_structured_secret}
use oracle_diagnostic_estack.Server.Measured.{
  height, height_items, height_members, nodes, nodes_items, nodes_members,
}
use oracle_diagnostic_estack.Rca.Sanitize.{
  max_depth, max_string_len, max_list_len, max_dict_keys, prefix, Pattern, sanitize_text,
  finite_or_null, count_members, set_member, enter, as_arr, as_obj, deep_sanitize, deep_items,
  deep_members,
}

-- Texts and keys are short, and floats are finite.
unfoldable mutual
  pub IsShort : Json → Type 0
  IsShort null = Unit
  IsShort (bool b) = Unit
  IsShort (int i) = Unit
  IsShort (float nan) = ⊥
  IsShort (float infinite) = ⊥
  IsShort (float (finite m k)) = Unit
  IsShort (str s) = length (codes s) ≤ 2000
  IsShort (arr vs) = IsShortItems vs
  IsShort (obj ms) = IsShortMembers ms

  pub IsShortItems : Items → Type 0
  IsShortItems nil = Unit
  IsShortItems (cons v vs) = IsShort v × IsShortItems vs

  pub IsShortMembers : Members → Type 0
  IsShortMembers end = Unit
  IsShortMembers (member k v ms) = (length (codes k) ≤ 200) × IsShort v × IsShortMembers ms

-- What a value at a depth has: no value in it is deeper than 6, and with the nodes that are left
-- after it, it has no more than there were.
abbrev pub IsLimited : (depth budget : ℕ) → Json → (after : ℕ) → Type 0
IsLimited d n w b = (d + height w ≤ 6) × (nodes w + b ≤ n) × IsShort w

abbrev IsLimitedItems : (depth budget : ℕ) → Items → (after : ℕ) → Type 0
IsLimitedItems d n ws b = (d + height_items ws ≤ 6) × (nodes_items ws + b ≤ n) × IsShortItems ws

abbrev IsLimitedMembers : (depth budget : ℕ) → Members → (after : ℕ) → Type 0
IsLimitedMembers d n ms b =
    (d + height_members ms ≤ 6) × (nodes_members ms + b ≤ n) × IsShortMembers ms

length-prefix-le : (n : ℕ) (s : String) → length (codes (prefix n s)) ≤ n
length-prefix-le zero s = omega arith
length-prefix-le (suc n) String.[] = omega arith
length-prefix-le (suc n) (String.◌∷◌ c s) = omega (arith, length-prefix-le n s)

enter-passed :
    (d n : ℕ) (o : Option (Json × ℕ)) (x : Json × ℕ)
    → enter d n o ≡ some x
    → (d ≤ 6) × (1 ≤ n) × (o ≡ some x)
enter-passed d n o x h = go (ltb max_depth d) (n == 0) refl refl h
  where
    go :
        (b c : Bool)
        → ltb max_depth d ≡ b
        → (n == 0) ≡ c
        → (if b then none else if c then none else o) ≡ some x
        → (d ≤ 6) × (1 ≤ n) × (o ≡ some x)
    go true c p q h = absurd (ground (arith, h))
    go false true p q h = absurd (ground (arith, h))
    go false false p q h = (ground (arith, p), ground (arith, q), h)

-- a value without values in it
leaf-IsLimited :
    (d n : ℕ) (w : Json) (x : Json) (b : ℕ)
    → height w ≡ 0
    → nodes w ≡ 1
    → IsShort w
    → enter d n (some (w, n - 1)) ≡ some (x, b)
    → IsLimited d n x b
leaf-IsLimited d n w x b e f s h =
    let (p, q, r) = enter-passed d n (some (w, n - 1)) (x, b) h in
    subst (λ y. IsLimited d n y.0 y.1) (some-inj r) (omega (arith, p, e), omega (arith, q, f), s)

finite_or_null-IsShort : (f : Float) → IsShort (finite_or_null f)
unfolding IsShort
finite_or_null-IsShort nan = tt
finite_or_null-IsShort infinite = tt
finite_or_null-IsShort (finite m k) = tt

leaf_of : (f : Float) → (height (finite_or_null f) ≡ 0) × (nodes (finite_or_null f) ≡ 1)
unfolding height nodes
leaf_of nan = (refl, refl)
leaf_of infinite = (refl, refl)
leaf_of (finite m k) = (refl, refl)

set_member-IsShortMembers :
    (k : String) (v : Json) (ms : Members)
    → length (codes k) ≤ 200
    → IsShort v
    → IsShortMembers ms
    → IsShortMembers (set_member k v ms)
unfolding set_member IsShort
set_member-IsShortMembers k v end l s t = (l, s, tt)
set_member-IsShortMembers k v (member j w ms) l s t =
    pick IsShortMembers (str_eq j k) (member j v ms) (member j w (set_member k v ms)) (t.0, s, t.2)
      (t.0, t.1, set_member-IsShortMembers k v ms l s t.2)

height-set_member :
    (k : String) (v : Json) (ms : Members)
    → height_members (set_member k v ms) ≤ max (suc (height v)) (height_members ms)
unfolding set_member height
height-set_member k v end = omega arith
height-set_member k v (member j w ms) =
    pick (λ ns. height_members ns ≤ max (suc (height v)) (height_members (member j w ms)))
      (str_eq j k) (member j v ms) (member j w (set_member k v ms)) (omega arith)
      (omega (arith, height-set_member k v ms))

nodes-set_member :
    (k : String) (v : Json) (ms : Members)
    → nodes_members (set_member k v ms) ≤ nodes v + nodes_members ms
unfolding set_member nodes
nodes-set_member k v end = omega arith
nodes-set_member k v (member j w ms) =
    pick (λ ns. nodes_members ns ≤ nodes v + nodes_members (member j w ms)) (str_eq j k)
      (member j v ms) (member j w (set_member k v ms)) (omega arith)
      (omega (arith, nodes-set_member k v ms))

abbrev pair : {A : Type 0} → A → ℕ → Option (A × ℕ)
pair a n = some (a, n)

nil-IsLimited :
    (d n : ℕ) (ws : Items) (b : ℕ) → d ≤ 6 → pair nil n ≡ some (ws, b) → IsLimitedItems d n ws b
unfolding IsShort height nodes
nil-IsLimited d n ws b p h =
    subst (λ y. IsLimitedItems d n y.0 y.1) (some-inj h) (omega (arith, p), omega arith, tt)

arr-IsLimited :
    (d n : ℕ) (w : Json) (b : ℕ) (o : Option (Items × ℕ))
    → d ≤ 6
    → 1 ≤ n
    → as_arr o ≡ some (w, b)
    → ((ws : Items) (c : ℕ) → o ≡ some (ws, c) → IsLimitedItems d (n - 1) ws c)
    → IsLimited d n w b
unfolding IsShort height nodes
arr-IsLimited d n w b none p q h f = absurd (ground (arith, h))
arr-IsLimited d n w b (some (ws, c)) p q h f =
    let (x, y, z) = f ws c refl in
    subst (λ u. IsLimited d n u.0 u.1) (some-inj h) (omega (arith, x), omega (arith, y, q), z)

obj-IsLimited :
    (d n : ℕ) (w : Json) (b : ℕ) (t : Bool) (o : Option (Members × ℕ))
    → d ≤ 6
    → 1 ≤ n
    → (if t then none else as_obj o) ≡ some (w, b)
    → ((ns : Members) (c : ℕ) → o ≡ some (ns, c) → IsLimitedMembers d (0 + (n - 1)) ns c)
    → IsLimited d n w b
unfolding IsShort height nodes
obj-IsLimited d n w b true o p q h f = absurd (ground (arith, h))
obj-IsLimited d n w b false none p q h f = absurd (ground (arith, h))
obj-IsLimited d n w b false (some (ns, c)) p q h f =
    let (x, y, z) = f ns c refl in
    subst (λ u. IsLimited d n u.0 u.1) (some-inj h) (omega (arith, x), omega (arith, y, q), z)

cons-IsLimited :
    (d n : ℕ) (ws : Items) (b : ℕ) (o : Option (Json × ℕ)) (g : ℕ → Option (Items × ℕ))
    → ((w : Json) (c : ℕ) → o ≡ some (w, c) → IsLimited (suc d) n w c)
    → ((c : ℕ) (us : Items) (e : ℕ) → g c ≡ some (us, e) → IsLimitedItems d c us e)
    → (elim o as (λ _. Option (Items × ℕ)) [
      | none ↦ none
      | some (w, c) ↦ elim (g c) as (λ _. Option (Items × ℕ)) [
        | none ↦ none
        | some (us, e) ↦ some (cons w us, e)
      ]
    ])
      ≡ some (ws, b)
    → IsLimitedItems d n ws b
unfolding IsShort height nodes
cons-IsLimited d n ws b none g f k h = absurd (ground (arith, h))
cons-IsLimited d n ws b (some (w, c)) g f k h = go (g c) (k c) h
  where
    go :
        (q : Option (Items × ℕ))
        → ((us : Items) (e : ℕ) → q ≡ some (us, e) → IsLimitedItems d c us e)
        → (elim q as (λ _. Option (Items × ℕ)) [ none ↦ none | some (us, e) ↦ some (cons w us, e) ])
          ≡ some (ws, b)
        → IsLimitedItems d n ws b
    go none r h = absurd (ground (arith, h))
    go (some (us, e)) r h =
        let (x, y, z) = f w c refl in
        let (x', y', z') = r us e refl in
        subst (λ u. IsLimitedItems d n u.0 u.1) (some-inj h)
          (omega (arith, x, x'), omega (arith, y, y'), (z, z'))

out-IsLimited :
    (d n : ℕ) (out ns : Members) (b : ℕ)
    → IsLimitedMembers d (nodes_members out) out 0
    → pair out n ≡ some (ns, b)
    → IsLimitedMembers d (nodes_members out + n) ns b
out-IsLimited d n out ns b (x, y, z) h =
    subst (λ u. IsLimitedMembers d (nodes_members out + n) u.0 u.1) (some-inj h) (x, omega arith, z)

member-IsLimited :
    (d n : ℕ) (k : String) (out ns : Members) (b : ℕ) (t : Bool) (o : Option (Json × ℕ))
    (g : ℕ → Members → Option (Members × ℕ))
    → ((w : Json) (c : ℕ) → o ≡ some (w, c) → IsLimited (suc d) n w c)
    → ((c : ℕ) (o' : Members)
        → IsLimitedMembers d (nodes_members o') o' 0
        → g c o' ≡ some (ns, b)
        → IsLimitedMembers d (nodes_members o' + c) ns b)
    → IsLimitedMembers d (nodes_members out) out 0
    → (if t
        then g n out
        else elim o [ none ↦ none | some (w, c) ↦ g c (set_member (prefix 200 k) w out) ])
      ≡ some (ns, b)
    → IsLimitedMembers d (nodes_members out + n) ns b
member-IsLimited d n k out ns b true o g f r p h = r n out p h
member-IsLimited d n k out ns b false none g f r p h = absurd (ground (arith, h))
member-IsLimited d n k out ns b false (some (w, c)) g f r p h =
    let (x, y, z) = f w c refl in
    let key = prefix 200 k in
    let out' = set_member key w out in
    let higher = height-set_member key w out in
    let more = nodes-set_member key w out in
    let q =
      r c out'
        (
          omega (arith, x, p.0, higher),
          omega arith,
          set_member-IsShortMembers key w out (length-prefix-le 200 k) z p.2,
        )
        h in
    (q.0, omega (arith, q.1, y, more), q.2)

module _ (sub : Pattern → String → String) (is_word is_decimal : ℕ → Bool) where
  mutual
    unfolding deep_sanitize IsShort height nodes sanitize_text

    value-IsLimited :
        (v : Json) (d n : ℕ) (w : Json) (b : ℕ)
        → deep_sanitize sub is_word is_decimal d n v ≡ some (w, b)
        → IsLimited d n w b
    value-IsLimited null d n w b h = leaf-IsLimited d n null w b refl refl tt h
    value-IsLimited (bool c) d n w b h = leaf-IsLimited d n (bool c) w b refl refl tt h
    value-IsLimited (int i) d n w b h = leaf-IsLimited d n (int i) w b refl refl tt h
    value-IsLimited (float f) d n w b h =
        leaf-IsLimited d n (finite_or_null f) w b (leaf_of f).0 (leaf_of f).1
          (finite_or_null-IsShort f) h
    value-IsLimited (str s) d n w b h =
        leaf-IsLimited d n (str (prefix max_string_len (sanitize_text sub s))) w b refl refl
          (length-prefix-le max_string_len (sanitize_text sub s)) h
    value-IsLimited (arr vs) d n w b h =
        let (p, q, r) = enter-passed d n _ (w, b) h in
        arr-IsLimited d n w b (deep_items sub is_word is_decimal (suc d) max_list_len (n - 1) vs) p
          q r (λ ws c e. items-IsLimited vs d max_list_len (n - 1) ws c p e)
    value-IsLimited (obj ms) d n w b h =
        let (p, q, r) = enter-passed d n _ (w, b) h in
        obj-IsLimited d n w b (ltb max_dict_keys (count_members ms))
          (deep_members sub is_word is_decimal (suc d) (n - 1) end ms) p q r
          (λ ns c e. members-IsLimited ms d (n - 1) end ns c (omega (arith, p), omega arith, tt) e)

    items-IsLimited :
        (vs : Items) (d room n : ℕ) (ws : Items) (b : ℕ)
        → d ≤ 6
        → deep_items sub is_word is_decimal (suc d) room n vs ≡ some (ws, b)
        → IsLimitedItems d n ws b
    items-IsLimited nil d room n ws b p h = nil-IsLimited d n ws b p h
    items-IsLimited (cons v vs) d zero n ws b p h = nil-IsLimited d n ws b p h
    items-IsLimited (cons v vs) d (suc room) n ws b p h =
        cons-IsLimited d n ws b (deep_sanitize sub is_word is_decimal (suc d) n v)
          (λ c. deep_items sub is_word is_decimal (suc d) room c vs)
          (λ w c e. value-IsLimited v (suc d) n w c e)
          (λ c us e f. items-IsLimited vs d room c us e p f) h

    members-IsLimited :
        (ms : Members) (d n : ℕ) (out ns : Members) (b : ℕ)
        → IsLimitedMembers d (nodes_members out) out 0
        → deep_members sub is_word is_decimal (suc d) n out ms ≡ some (ns, b)
        → IsLimitedMembers d (nodes_members out + n) ns b
    members-IsLimited end d n out ns b p h = out-IsLimited d n out ns b p h
    members-IsLimited (member k v ms) d n out ns b p h =
        member-IsLimited d n k out ns b (has_structured_secret is_word is_decimal (codes k))
          (deep_sanitize sub is_word is_decimal (suc d) n v)
          (λ c o. deep_members sub is_word is_decimal (suc d) c o ms)
          (λ w c e. value-IsLimited v (suc d) n w c e)
          (λ c o q e. members-IsLimited ms d c o ns b q e) p h

  -- What `deep_sanitize` returns, from a depth and a number of nodes on, is limited: no value in it is
  -- deeper than 6, it has no more nodes than there were left, its texts have at most 2000 characters
  -- and its keys 200, and its floats are finite.
  pub deep_sanitize-IsLimited :
      (v : Json) (d n : ℕ) (w : Json) (b : ℕ)
      → deep_sanitize sub is_word is_decimal d n v ≡ some (w, b)
      → IsLimited d n w b
  deep_sanitize-IsLimited = value-IsLimited
