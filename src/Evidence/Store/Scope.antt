-- ===== src/Evidence/Store/Scope.antt =====
-- Who can read what: an entry answers only to its session and target, until it expires.
use oracle_diagnostic_estack.Prelude.{
  ℕ, ◌+◌, ◌≤◌, String, ◌≡◌, ◌≢◌, refl, ◌↔◌, ◌⊎◌, inl, inr, ◌&&◌, Option, none, some, [], ◌∷◌, arith,
  eq_iff, length, leb, Bool-cases, Option-cases, if◌then◌else◌,
}
use oracle_diagnostic_estack.Prelude.Dict.{Dict, lookup, lookup-insert}
use oracle_diagnostic_estack.Prelude.Dict.Distinct.{
  Distinct, Distinct-insert, Distinct-keep, lookup-keep,
}
use oracle_diagnostic_estack.Common.{ok, raise, evidence_not_found}
use oracle_diagnostic_estack.Evidence.Store.{
  Entry, EvidenceStore, is_live, purge, remove, oldest_from, evict, place, entry, checked, in_scope,
  authentic, put, get,
}

module _ {Payload : Type 0} where
  abbrev pub HasDistinctRefs : EvidenceStore Payload → Type 0
  HasDistinctRefs s = Distinct s.items

  ttl-purge : (now : ℕ) (s : EvidenceStore Payload) → (purge now s).ttl ≡ s.ttl
  unfolding purge
  ttl-purge now s = refl

  abbrev pub if_live : ℕ → ℕ → Option (Entry Payload) → Option (Entry Payload)
  if_live ttl now none = none
  if_live ttl now (some e) = if is_live ttl now e then some e else none

  pub if_live_iff :
      (ttl now : ℕ) (o : Option (Entry Payload)) (e : Entry Payload)
      → (if_live ttl now o ≡ some e) ↔ ((o ≡ some e) × (now ≤ e.t + ttl))
  unfolding is_live
  if_live_iff ttl now none e = (λ h. ground arith, λ h. ground arith)
  if_live_iff ttl now (some d) e = (λ h. ground arith, λ h. ground arith)

  pub lookup-purge :
      (now : ℕ) (ref : String) (s : EvidenceStore Payload)
      → HasDistinctRefs s
      → lookup ref (purge now s).items ≡ if_live s.ttl now (lookup ref s.items)
  unfolding purge
  lookup-purge now ref s h = ground (arith, lookup-keep (is_live s.ttl now) ref s.items h)

module _ {Payload : Type 0} (digest : Payload → String) where
  abbrev InScope : String → String → Entry Payload → Type 0
  InScope session target e =
      (e.session ≡ session) × (e.target ≡ target) × (digest e.payload ≡ e.digest)

  checked_iff :
      (session target : String) (o : Option (Entry Payload)) (e : Entry Payload)
      → (checked digest session target o ≡ ok e) ↔ ((o ≡ some e) × InScope session target e)
  checked_iff session target none e = (λ h. ground arith, λ h. ground arith)
  checked_iff session target (some d) e = (
    λ h. ground (
      arith,
      eq_iff d.session session,
      eq_iff d.target target,
      eq_iff (digest d.payload) d.digest,
    ),
    λ h. ground (
      arith,
      eq_iff d.session session,
      eq_iff d.target target,
      eq_iff (digest d.payload) d.digest,
    ),
  )

  checked_cases :
      (session target : String) (o : Option (Entry Payload))
      → ((e : Entry Payload) × (checked digest session target o ≡ ok e))
        ⊎ (checked digest session target o ≡ raise evidence_not_found)
  checked_cases session target none = inr refl
  checked_cases session target (some d) =
      elim (Bool-cases (in_scope digest session target d && authentic digest d)) [
        | inl good ↦ inl (d, ground arith)
        | inr bad ↦ inr (ground arith)
      ]

  -- `get` returns an entry exactly if the reference is stored, has not expired, belongs to the
  -- asking session and target, and its payload still has the digest taken when it was stored.
  -- Every other call fails with the one error "evidence not found", so it tells nothing of why.
  pub get_ok_iff :
      (now : ℕ) (ref session target : String) (s : EvidenceStore Payload)
      → HasDistinctRefs s
      → ((e : Entry Payload)
          → ((get digest now ref session target s).0 ≡ ok e) ↔ (
              (lookup ref s.items ≡ some e)
              × (now ≤ e.t + s.ttl)
              × (e.session ≡ session)
              × (e.target ≡ target)
              × (digest e.payload ≡ e.digest)))
        × (((e : Entry Payload) × ((get digest now ref session target s).0 ≡ ok e))
            ⊎ ((get digest now ref session target s).0 ≡ raise evidence_not_found))
  unfolding get
  get_ok_iff now ref session target s h =
      let found = lookup ref (purge now s).items in
      (
        λ e. (
          λ r.
              let (there, mine) = (checked_iff session target found e).0 r in
              let (stored, live) =
                (if_live_iff s.ttl now (lookup ref s.items) e).0
                  (rw (← lookup-purge now ref s h) there) in
              (stored, live, mine.0, mine.1, mine.2),
          λ p. (checked_iff session target found e).1 (
            rw (lookup-purge now ref s h)
                ((if_live_iff s.ttl now (lookup ref s.items) e).1 (p.0, p.1)),
            (p.2, p.3, p.4),
          ),
        ),
        checked_cases session target found,
      )

  pub HasDistinctRefs-purge :
      (now : ℕ) (s : EvidenceStore Payload) → HasDistinctRefs s → HasDistinctRefs (purge now s)
  unfolding purge
  HasDistinctRefs-purge now s h = Distinct-keep (is_live s.ttl now) s.items h

module _ {Payload : Type 0} where
  lookup-remove-none :
      (k j : String) (d : Dict (Entry Payload)) → lookup k d ≡ none → lookup k (remove j d) ≡ none
  unfolding lookup remove
  lookup-remove-none k j [] h = refl
  lookup-remove-none k j ((i, e) ∷ d) h = ground (arith, lookup-remove-none k j d)

  Distinct-remove : (j : String) (d : Dict (Entry Payload)) → Distinct d → Distinct (remove j d)
  unfolding remove
  Distinct-remove j [] h = tt
  Distinct-remove j ((i, e) ∷ d) h =
      ground (arith, Distinct-remove j d h.1, lookup-remove-none i j d h.0)

  pub lookup-remove_ne :
      (k j : String) (d : Dict (Entry Payload)) → k ≢ j → lookup k (remove j d) ≡ lookup k d
  unfolding lookup remove
  lookup-remove_ne k j [] h = refl
  lookup-remove_ne k j ((i, e) ∷ d) h =
      ground (arith, lookup-remove_ne k j d h, eq_iff i k, eq_iff i j)

  Distinct-evict :
      (d rest : Dict (Entry Payload)) → evict d ≡ some rest → Distinct d → Distinct rest
  unfolding evict
  Distinct-evict [] rest e h = absurd (ground arith)
  Distinct-evict ((j, x) ∷ d) rest e h =
      ground (arith, Distinct-remove (oldest_from j x.t d) ((j, x) ∷ d) h)

  pub HasDistinctRefs-place :
      (ref : String) (e : Entry Payload) (s s' : EvidenceStore Payload)
      → place ref e s ≡ some s'
      → HasDistinctRefs s
      → HasDistinctRefs s'
  unfolding place
  HasDistinctRefs-place ref e s s' h d = elim (Bool-cases (leb s.max (length s.items))) [
    | inl full ↦ elim (Option-cases (evict s.items)) [
      | inl failed ↦ absurd (ground arith)
      | inr (rest, left) ↦
          ground (arith, Distinct-insert ref e rest (Distinct-evict s.items rest left d))
    ]
    | inr room ↦ ground (arith, Distinct-insert ref e s.items d)
  ]

  lookup-place_self :
      (ref : String) (e : Entry Payload) (s s' : EvidenceStore Payload)
      → place ref e s ≡ some s'
      → (lookup ref s'.items ≡ some e) × (s'.ttl ≡ s.ttl)
  unfolding place
  lookup-place_self ref e s s' h = elim (Bool-cases (leb s.max (length s.items))) [
    | inl full ↦ elim (Option-cases (evict s.items)) [
      | inl failed ↦ absurd (ground arith)
      | inr (rest, left) ↦ ground (arith, lookup-insert ref ref e rest, eq_iff ref ref)
    ]
    | inr room ↦ ground (arith, lookup-insert ref ref e s.items, eq_iff ref ref)
  ]

module _ {Payload : Type 0} (digest : Payload → String) where
  pub HasDistinctRefs-put :
      (now stamp : ℕ) (ref session target collector : String) (p : Payload)
      (s s' : EvidenceStore Payload)
      → put digest now stamp ref session target collector p s ≡ some s'
      → HasDistinctRefs s
      → HasDistinctRefs s'
  unfolding put
  HasDistinctRefs-put now stamp ref session target collector p s s' h d =
      HasDistinctRefs-place ref (entry digest stamp session target collector p) (purge now s) s' h
        (HasDistinctRefs-purge digest now s d)

  -- What a session has put for a target it can read back under the returned reference, unchanged,
  -- at every time up to the entry's expiry.
  pub get-put :
      (now stamp later : ℕ) (ref session target collector : String) (p : Payload)
      (s s' : EvidenceStore Payload)
      → HasDistinctRefs s
      → put digest now stamp ref session target collector p s ≡ some s'
      → later ≤ stamp + s.ttl
      → (get digest later ref session target s').0
        ≡ ok (entry digest stamp session target collector p)
  unfolding put
  get-put now stamp later ref session target collector p s s' d h live =
      let new = entry digest stamp session target collector p in
      let (there, ttl) = lookup-place_self ref new (purge now s) s' h in
      ((get_ok_iff digest later ref session target s'
            (HasDistinctRefs-put now stamp ref session target collector p s s' h d)).0
          new).1
        (there, omega (arith, ttl, ttl-purge now s), refl, refl, refl)
