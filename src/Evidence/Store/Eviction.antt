-- ===== src/Evidence/Store/Eviction.antt =====
-- Which entries leave the store: the expired ones, and the oldest one when it is full.
use oracle_diagnostic_estack.Prelude.{
  ℕ, ◌+◌, ◌≤◌, ◌<◌, String, ◌≡◌, ◌≢◌, refl, ◌⊎◌, inl, inr, false, none, some, [], ◌∷◌, arith,
  str_eq, eq_iff, length, leb, ltb, ltb→lt, leb→le, Bool-cases, Option-cases,
}
use oracle_diagnostic_estack.Prelude.Dict.{Dict, lookup, lookup-insert}
use oracle_diagnostic_estack.Prelude.Dict.Distinct.{Distinct}
use oracle_diagnostic_estack.Evidence.Store.{
  Entry, EvidenceStore, purge, remove, oldest_from, evict, place, entry, put,
}
use oracle_diagnostic_estack.Evidence.Store.Scope.{
  HasDistinctRefs, lookup-purge, if_live_iff, lookup-remove_ne, HasDistinctRefs-purge,
}

same_of_eq : (r o : String) → ((r ≢ o) → ⊥) → r ≡ o
same_of_eq r o h = elim (Bool-cases (str_eq r o)) [
  | inl same ↦ (eq_iff r o).0 same
  | inr other ↦ absurd (h (λ e. ground (arith, eq_iff r o)))
]

not_less : (a b : ℕ) → ltb a b ≡ false → b ≤ a
not_less a b h = ground arith

module _ {Payload : Type 0} where
  -- No entry of `d` is older than time `n`.
  abbrev NoneBefore : ℕ → Dict (Entry Payload) → Type 0
  NoneBefore n d = (k : String) (e : Entry Payload) → lookup k d ≡ some e → n ≤ e.t

  -- A reference is that of the entry at hand, or of one of `d`, and no entry of the two is older.
  record Oldest (pick ref : String) (t : ℕ) (d : Dict (Entry Payload)) : Type 0 where
    time : ℕ
    first : time ≤ t
    none_before : NoneBefore time d
    found :
        ((pick ≡ ref) × (time ≡ t))
        ⊎ ((e : Entry Payload) × (lookup pick d ≡ some e) × (e.t ≡ time))

  NoneBefore-cons :
      (n : ℕ) (j : String) (e : Entry Payload) (d : Dict (Entry Payload))
      → n ≤ e.t
      → NoneBefore n d
      → NoneBefore n ((j, e) ∷ d)
  unfolding lookup
  NoneBefore-cons n j e d h rest k x found = elim (Bool-cases (str_eq j k)) [
    | inl same ↦ ground arith
    | inr other ↦ rest k x (ground arith)
  ]

  lookup-cons_some :
      (j k : String) (e x : Entry Payload) (d : Dict (Entry Payload))
      → lookup j d ≡ none
      → lookup k d ≡ some x
      → lookup k ((j, e) ∷ d) ≡ some x
  unfolding lookup
  lookup-cons_some j k e x d h found = ground (arith, eq_iff j k)

  lookup-cons_self :
      (j : String) (e : Entry Payload) (d : Dict (Entry Payload)) → lookup j ((j, e) ∷ d) ≡ some e
  unfolding lookup
  lookup-cons_self j e d = ground (arith, eq_iff j j)

  Oldest-here :
      (pick j : String) (e : Entry Payload) (d : Dict (Entry Payload))
      → lookup j d ≡ none
      → Oldest pick j e.t d
      → (x : Entry Payload) × (lookup pick ((j, e) ∷ d) ≡ some x) × NoneBefore x.t ((j, e) ∷ d)
  Oldest-here pick j e d h o = elim (o.found) [
    | inl (same, time) ↦ (
      e,
      rw same (lookup-cons_self j e d),
      NoneBefore-cons e.t j e d (omega arith) (λ k x f. omega (arith, o.none_before k x f, time)),
    )
    | inr (x, f, time) ↦ (
      x,
      lookup-cons_some j pick e x d h f,
      NoneBefore-cons x.t j e d (omega (arith, o.first, time))
          (λ k y g. omega (arith, o.none_before k y g, time)),
    )
  ]

  oldest :
      (ref : String) (t : ℕ) (d : Dict (Entry Payload))
      → Distinct d
      → Oldest (oldest_from ref t d) ref t d
  unfolding oldest_from lookup
  oldest ref t [] h = record {
    time = t;
    first = omega arith;
    none_before = λ k e f. absurd (ground arith);
    found = inl (refl, refl);
  }
  oldest ref t ((j, e) ∷ d) h = elim (Bool-cases (ltb e.t t)) [
    | inl less ↦ rw less (
        let o = oldest j e.t d h.1 in
        let (x, f, least) = Oldest-here (oldest_from j e.t d) j e d h.0 o in
        record {
          time = x.t;
          first = omega (arith, least j e (lookup-cons_self j e d), ltb→lt e.t t less);
          none_before = least;
          found = inr (x, f, refl);
        })
    | inr more ↦ rw more (
        let o = oldest ref t d h.1 in
        record {
          time = o.time;
          first = o.first;
          none_before =
              NoneBefore-cons o.time j e d (omega (arith, o.first, not_less e.t t more))
                o.none_before;
          found = elim (o.found) [
            | inl same ↦ inl same
            | inr (x, f, time) ↦ inr (x, lookup-cons_some j (oldest_from ref t d) e x d h.0 f, time)
          ];
        })
  ]

  evict_oldest :
      (d rest : Dict (Entry Payload))
      → evict d ≡ some rest
      → Distinct d
      → (o : String) × (x : Entry Payload) × (lookup o d ≡ some x)
        × NoneBefore x.t d
        × (rest ≡ remove o d)
  unfolding evict
  evict_oldest [] rest e h = absurd (ground arith)
  evict_oldest ((j, x) ∷ d) rest e h =
      let o = oldest_from j x.t d in
      let (y, f, least) = Oldest-here o j x d h.0 (oldest j x.t d h.1) in
      (o, y, f, least, ground arith)

  -- An entry of the purged store that placing another one removes was among the oldest, and the
  -- store was full.
  place_loses :
      (ref : String) (new : Entry Payload) (s s' : EvidenceStore Payload) (r : String)
      (e : Entry Payload)
      → HasDistinctRefs s
      → place ref new s ≡ some s'
      → lookup r s.items ≡ some e
      → lookup r s'.items ≡ none
      → (s.max ≤ length s.items) × NoneBefore e.t s.items
  unfolding place
  place_loses ref new s s' r e h p there gone = elim (Bool-cases (leb s.max (length s.items))) [
    | inl full ↦ elim (Option-cases (evict s.items)) [
      | inl failed ↦ absurd (ground arith)
      | inr (rest, left) ↦
          let (o, x, f, least, removed) = evict_oldest s.items rest left h in
          let same : r ≡ o =
            same_of_eq r o (λ ne.
              ground (arith, lookup-remove_ne r o s.items ne, lookup-insert ref r new rest)) in
          (ground arith, λ k y g. ground (arith, least k y g))
    ]
    | inr room ↦ absurd (ground (arith, lookup-insert ref r new s.items))
  ]

module _ {Payload : Type 0} (digest : Payload → String) where
  -- A `put` removes an entry only if it has expired, or if the store is full after the expired ones
  -- are gone and no entry in it is older.
  pub put_loses :
      (now stamp : ℕ) (ref session target collector : String) (p : Payload)
      (s s' : EvidenceStore Payload)
      → HasDistinctRefs s
      → put digest now stamp ref session target collector p s ≡ some s'
      → (r : String) (e : Entry Payload) → lookup r s.items ≡ some e
      → lookup r s'.items ≡ none
      → (e.t + s.ttl < now)
        ⊎ ((s.max ≤ length (purge now s).items)
            × ((k : String) (x : Entry Payload)
                → lookup k (purge now s).items ≡ some x
                → e.t ≤ x.t))
  unfolding put
  put_loses now stamp ref session target collector p s s' d h r e there gone =
      elim (Bool-cases (leb now (e.t + s.ttl))) [
        | inl live ↦
            let kept =
              (if_live_iff s.ttl now (lookup r s.items) e).1
                (there, leb→le now (e.t + s.ttl) live) in
            inr (
              place_loses ref (entry digest stamp session target collector p) (purge now s) s' r e
                (HasDistinctRefs-purge digest now s d) h (rw (lookup-purge now r s d) kept) gone)
        | inr dead ↦ inl (ground arith)
      ]
