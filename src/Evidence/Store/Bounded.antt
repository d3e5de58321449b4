-- ===== src/Evidence/Store/Bounded.antt =====
-- The store never holds more entries than its bound, and a store with a positive bound never fails.
use oracle_diagnostic_estack.Prelude.{
  ℕ, suc, ◌≤◌, ◌<◌, String, ◌≡◌, refl, ◌∙◌, not, inl, inr, true, some, [], ◌∷◌, arith, str_eq,
  eq_iff, length, length-keep-le, leb, ltb, Bool-cases, Option-cases,
}
use oracle_diagnostic_estack.Prelude.Dict.{Dict, contains, keys, insert, length-insert-le}
use oracle_diagnostic_estack.Evidence.Store.{
  Entry, EvidenceStore, purge, remove, oldest_from, evict, place, entry, put, get, clear_session,
  size, is_live,
}

module _ {Payload : Type 0} where
  length-remove :
      (k : String) (d : Dict (Entry Payload))
      → contains (keys d) k ≡ true
      → suc (length (remove k d)) ≡ length d
  unfolding remove contains
  length-remove k [] h = absurd (ground arith)
  length-remove k ((j, e) ∷ d) h = ground (arith, length-remove k d)

  contains-oldest :
      (ref : String) (t : ℕ) (d : Dict (Entry Payload))
      → contains (ref ∷ keys d) (oldest_from ref t d) ≡ true
  unfolding oldest_from contains
  contains-oldest ref t [] = ground (arith, eq_iff ref ref)
  contains-oldest ref t ((j, e) ∷ d) = elim (Bool-cases (ltb e.t t)) [
    | inl less ↦ rw less (ground (arith, contains-oldest j e.t d))
    | inr more ↦ rw more (ground (arith, contains-oldest ref t d))
  ]

  length-evict :
      (d rest : Dict (Entry Payload)) → evict d ≡ some rest → suc (length rest) ≡ length d
  unfolding evict
  length-evict [] rest h = absurd (ground arith)
  length-evict ((j, e) ∷ d) rest h =
      ground (arith, length-remove (oldest_from j e.t d) ((j, e) ∷ d) (contains-oldest j e.t d))

  evict-some :
      (d : Dict (Entry Payload))
      → 0 < length d
      → (rest : Dict (Entry Payload)) × (evict d ≡ some rest)
  unfolding evict
  evict-some [] h = absurd (omega arith)
  evict-some ((j, e) ∷ d) h = (remove (oldest_from j e.t d) ((j, e) ∷ d), refl)

  abbrev pub IsBounded : EvidenceStore Payload → Type 0
  IsBounded s = size s ≤ s.max

  size-purge-le : (now : ℕ) (s : EvidenceStore Payload) → size (purge now s) ≤ size s
  unfolding purge size
  size-purge-le now s = length-keep-le (λ r. is_live s.ttl now r.1) s.items

  place-IsBounded :
      (ref : String) (e : Entry Payload) (s s' : EvidenceStore Payload)
      → place ref e s ≡ some s'
      → IsBounded s
      → IsBounded s'
  unfolding place size
  place-IsBounded ref e s s' h b = elim (Bool-cases (leb s.max (length s.items))) [
    | inl full ↦ elim (Option-cases (evict s.items)) [
      | inl failed ↦ absurd (ground arith)
      | inr (rest, left) ↦
          ground (arith, length-evict s.items rest left, length-insert-le ref e rest)
    ]
    | inr room ↦ ground (arith, length-insert-le ref e s.items)
  ]

  place_total :
      (ref : String) (e : Entry Payload) (s : EvidenceStore Payload)
      → 0 < s.max
      → (s' : EvidenceStore Payload) × (place ref e s ≡ some s')
  unfolding place
  place_total ref e s h = elim (Bool-cases (leb s.max (length s.items))) [
    | inl full ↦
        let (rest, left) = evict-some s.items (ground arith) in
        (record s { items = insert ref e rest }, rw (full, left))
    | inr room ↦ (record s { items = insert ref e s.items }, rw room)
  ]

  place-max :
      (ref : String) (e : Entry Payload) (s s' : EvidenceStore Payload)
      → place ref e s ≡ some s'
      → (s'.max ≡ s.max) × (s'.ttl ≡ s.ttl)
  unfolding place
  place-max ref e s s' h = ground arith

  max-purge : (now : ℕ) (s : EvidenceStore Payload) → (purge now s).max ≡ s.max
  unfolding purge
  max-purge now s = refl

  max-clear_session :
      (session : String) (s : EvidenceStore Payload) → (clear_session session s).0.max ≡ s.max
  unfolding clear_session
  max-clear_session session s = refl

  clear_session-IsBounded :
      (session : String) (s : EvidenceStore Payload)
      → IsBounded s
      → IsBounded (clear_session session s).0
  unfolding clear_session size
  clear_session-IsBounded session s b =
      omega (arith, length-keep-le (λ r. not (str_eq r.1.session session)) s.items, b)

-- The operations that a process makes on its one store, in any order.
module _ {Payload : Type 0} (digest : Payload → String) where
  pub data Reachable (ttl max : ℕ) : EvidenceStore Payload → Type 0 where
    start : Reachable ttl max (record { items = []; ttl = ttl; max = max })
    after_put :
        {s s' : EvidenceStore Payload} (now stamp : ℕ) (ref session target collector : String)
        (p : Payload)
        → Reachable ttl max s
        → put digest now stamp ref session target collector p s ≡ some s'
        → Reachable ttl max s'
    after_get :
        {s : EvidenceStore Payload} (now : ℕ) (ref session target : String)
        → Reachable ttl max s
        → Reachable ttl max (get digest now ref session target s).1
    after_clear :
        {s : EvidenceStore Payload} (session : String)
        → Reachable ttl max s
        → Reachable ttl max (clear_session session s).0

  Reachable-within :
      {ttl max : ℕ} {s : EvidenceStore Payload} → Reachable ttl max s → (s.max ≡ max) × IsBounded s
  unfolding put get size
  Reachable-within start = (refl, omega arith)
  Reachable-within {s = s'} (after_put {s} now stamp ref session target collector p r e) =
      let (same, bounded) = Reachable-within r in
      let new = entry digest stamp session target collector p in
      let fresh = purge now s in
      (
        omega (arith, (place-max ref new fresh s' e).0, max-purge now s, same),
        place-IsBounded ref new fresh s' e
            (omega (arith, size-purge-le now s, bounded, max-purge now s)),
      )
  Reachable-within (after_get {s} now ref session target r) =
      let (same, bounded) = Reachable-within r in
      (
        omega (arith, max-purge now s, same),
        omega (arith, size-purge-le now s, bounded, max-purge now s),
      )
  Reachable-within (after_clear {s} session r) =
      let (same, bounded) = Reachable-within r in
      (max-clear_session session s ∙ same, clear_session-IsBounded session s bounded)

  -- However `put`, `get` and `clear_session` follow one another from an empty store with a positive
  -- bound, the store never holds more entries than the bound, and a further `put` succeeds.
  pub store_bounded :
      (ttl max : ℕ) (s : EvidenceStore Payload)
      → Reachable ttl max s
      → 0 < max
      → (size s ≤ max)
        × ((now stamp : ℕ) (ref session target collector : String) (p : Payload)
            → (s' : EvidenceStore Payload) × (put digest now stamp ref session target collector p s
                ≡ some s'))
  unfolding put size
  store_bounded ttl max s r positive =
      let (same, bounded) = Reachable-within r in
      (
        omega (arith, same, bounded),
        λ now stamp ref session target collector p.
            place_total ref (entry digest stamp session target collector p) (purge now s)
              (omega (arith, max-purge now s, same)),
      )
