-- ===== src/Rca/Timeline/Distinct.antt =====
-- No two events of a timeline repeat each other.
use oracle_diagnostic_estack.Prelude.{
  String, ◌≡◌, refl, sym, ap, subst, true, false, ◌||◌, Option, none, some, List, [], ◌∷◌, ◌++◌,
  map, All, str_eq, eq_iff, arith, pick, pick_if,
}
use oracle_diagnostic_estack.Prelude.Int.{ℤ, pos, negsuc, leb_ℤ}
use oracle_diagnostic_estack.Prelude.Sort.{sort_by, insert_by}
use oracle_diagnostic_estack.Prelude.Dict.{contains}
use oracle_diagnostic_estack.Text.{str_lt}
use oracle_diagnostic_estack.Rca.Common.{as_set, sorted_set}
use oracle_diagnostic_estack.Rca.Evidence.{NormalizedEvidence, certified}
use oracle_diagnostic_estack.Rca.Timeline.{
  Timed, timed, earlier, DedupKey, eq_option, eq_key, dedup_key, Group, members, add_member,
  group_all, groups_of, event_of, TimelineEvent, build_timeline,
}

-- `j` is the key of none of the groups.
abbrev IsOther : DedupKey → List Group → Type 0
IsOther j gs = All (λ g. eq_key j g.key ≡ false) gs

abbrev IsDistinct : List Group → Type 0
IsDistinct [] = Unit
IsDistinct (g ∷ gs) = IsOther g.key gs × IsDistinct gs

-- An event and a later one have different keys.
abbrev pub HasDistinctKeys : List TimelineEvent → Type 0
HasDistinctKeys [] = Unit
HasDistinctKeys (e ∷ es) = All (λ f. e.event_key ≡ f.event_key → ⊥) es × HasDistinctKeys es

add_member-IsOther :
    (j k : DedupKey) (e : Timed) (gs : List Group)
    → eq_key j k ≡ false
    → IsOther j gs
    → IsOther j (add_member k e gs)
unfolding add_member
add_member-IsOther j k e [] n h = (n, tt)
add_member-IsOther j k e (g ∷ gs) n h =
    pick_if (IsOther j) (eq_key g.key k) (record g { others = g.others ++ e ∷ [] } ∷ gs)
      (g ∷ add_member k e gs) (λ _. h) (λ _. (h.0, add_member-IsOther j k e gs n h.1))

add_member-IsDistinct :
    (k : DedupKey) (e : Timed) (gs : List Group) → IsDistinct gs → IsDistinct (add_member k e gs)
unfolding add_member
add_member-IsDistinct k e [] h = (tt, tt)
add_member-IsDistinct k e (g ∷ gs) h =
    pick_if IsDistinct (eq_key g.key k) (record g { others = g.others ++ e ∷ [] } ∷ gs)
      (g ∷ add_member k e gs) (λ _. h)
      (λ n. (add_member-IsOther g.key k e gs n h.0, add_member-IsDistinct k e gs h.1))

group_all-IsDistinct :
    (bucket : String → ℤ) (es : List Timed) (gs : List Group)
    → IsDistinct gs
    → IsDistinct (group_all bucket es gs)
unfolding group_all
group_all-IsDistinct bucket [] gs h = h
group_all-IsDistinct bucket (e ∷ es) gs h =
    group_all-IsDistinct bucket es (add_member (dedup_key bucket e) e gs)
      (add_member-IsDistinct (dedup_key bucket e) e gs h)

eq_option_refl : (o : Option String) → eq_option o o ≡ true
eq_option_refl none = refl
eq_option_refl (some s) = ground (arith, eq_iff s s)

leb_ℤ_refl : (i : ℤ) → leb_ℤ i i ≡ true
leb_ℤ_refl (pos n) = ground arith
leb_ℤ_refl (negsuc n) = ground arith

eq_key_refl : (k : DedupKey) → eq_key k k ≡ true
eq_key_refl k =
    let source = eq_iff k.source_id k.source_id in
    let domain = eq_iff k.domain k.domain in
    let kind = eq_iff k.event_type k.event_type in
    ground (arith, source, domain, kind, eq_option_refl k.signature, leb_ℤ_refl k.bucket)

different : (j k : DedupKey) → eq_key j k ≡ false → j ≡ k → ⊥
different j k n e =
    let same : eq_key j j ≡ false = subst (λ i. eq_key j i ≡ false) (sym e) n in
    let yes = eq_key_refl j in ground (arith, same, yes)

event-IsOther :
    (j : DedupKey) (gs : List Group)
    → IsOther j gs
    → All (λ f. j ≡ f.event_key → ⊥) (map event_of gs)
unfolding event_of
event-IsOther j [] h = tt
event-IsOther j (g ∷ gs) h = (different j g.key h.0, event-IsOther j gs h.1)

event-HasDistinctKeys : (gs : List Group) → IsDistinct gs → HasDistinctKeys (map event_of gs)
unfolding event_of
event-HasDistinctKeys [] h = tt
event-HasDistinctKeys (g ∷ gs) h = (event-IsOther g.key gs h.0, event-HasDistinctKeys gs h.1)

contains-insert_by :
    (x s : String) (ys : List String)
    → (str_eq x s || contains ys s) ≡ true
    → contains (insert_by str_lt x ys) s ≡ true
unfolding contains
contains-insert_by x s [] h = h
contains-insert_by x s (y ∷ ys) h =
    let later = contains-insert_by x s ys in
    pick (λ l. contains l s ≡ true) (str_lt y x) (y ∷ insert_by str_lt x ys) (x ∷ y ∷ ys)
      (ground (arith, later, h)) h

contains-sort_by :
    (s : String) (xs : List String) → contains xs s ≡ true → contains (sort_by str_lt xs) s ≡ true
unfolding contains sort_by
contains-sort_by s [] h = h
contains-sort_by s (x ∷ xs) h =
    let later = contains-sort_by s xs in
    contains-insert_by x s (sort_by str_lt xs) (ground (arith, later, h))

contains-last : (s : String) (xs : List String) → contains (xs ++ s ∷ []) s ≡ true
unfolding contains
contains-last s [] = ground (arith, eq_iff s s)
contains-last s (x ∷ xs) = ground (arith, contains-last s xs)

contains-sorted_set : (s : String) (xs : List String) → contains (sorted_set (s ∷ xs)) s ≡ true
unfolding as_set
contains-sorted_set s xs = contains-sort_by s (as_set (s ∷ xs)) (
    pick_if (λ l. contains l s ≡ true) (contains (as_set xs) s) (as_set xs) (as_set xs ++ s ∷ [])
      (λ h. h) (λ _. contains-last s (as_set xs)))

-- The parts of an event's key are what the event has: one of its sources, its domain and type, its
-- signature if that is certified or else the token for it, and the window of its time.
abbrev pub HasOwnKey : (bucket : String → ℤ) → TimelineEvent → Type 0
HasOwnKey bucket f =
    (contains f.source_ids f.event_key.source_id ≡ true)
    × (f.event_key.domain ≡ f.domain)
    × (f.event_key.event_type ≡ f.event_type)
    × (f.event_key.signature
        ≡ (elim f.signature_status [ certified ↦ f.canonical_signature | _ ↦ f.signature_token ]))
    × (f.event_key.bucket ≡ bucket f.timestamp_utc)

-- The key of the group is that of its first member.
abbrev IsKeyed : (bucket : String → ℤ) → Group → Type 0
IsKeyed bucket g = g.key ≡ dedup_key bucket g.first

add_member-IsKeyed :
    (bucket : String → ℤ) (e : Timed) (gs : List Group)
    → All (IsKeyed bucket) gs
    → All (IsKeyed bucket) (add_member (dedup_key bucket e) e gs)
unfolding add_member
add_member-IsKeyed bucket e [] h = (refl, tt)
add_member-IsKeyed bucket e (g ∷ gs) h =
    let k = dedup_key bucket e in
    pick (All (IsKeyed bucket)) (eq_key g.key k) (record g { others = g.others ++ e ∷ [] } ∷ gs)
      (g ∷ add_member k e gs) h (h.0, add_member-IsKeyed bucket e gs h.1)

group_all-IsKeyed :
    (bucket : String → ℤ) (es : List Timed) (gs : List Group)
    → All (IsKeyed bucket) gs
    → All (IsKeyed bucket) (group_all bucket es gs)
unfolding group_all
group_all-IsKeyed bucket [] gs h = h
group_all-IsKeyed bucket (e ∷ es) gs h =
    group_all-IsKeyed bucket es (add_member (dedup_key bucket e) e gs)
      (add_member-IsKeyed bucket e gs h)

event_of-HasOwnKey :
    (bucket : String → ℤ) (g : Group) → IsKeyed bucket g → HasOwnKey bucket (event_of g)
unfolding event_of
event_of-HasOwnKey bucket g h = (
  subst (λ s. contains (sorted_set (map (λ m. m.1.source_id) (members g))) s ≡ true)
      (sym (ap (λ k. k.source_id) h))
      (contains-sorted_set g.first.1.source_id (map (λ m. m.1.source_id) g.others)),
  ap (λ k. k.domain) h,
  ap (λ k. k.event_type) h,
  ap (λ k. k.signature) h,
  ap (λ k. k.bucket) h,
)

events-HaveOwnKeys :
    (bucket : String → ℤ) (gs : List Group)
    → All (IsKeyed bucket) gs
    → All (HasOwnKey bucket) (map event_of gs)
events-HaveOwnKeys bucket [] h = tt
events-HaveOwnKeys bucket (g ∷ gs) h =
    (event_of-HasOwnKey bucket g h.0, events-HaveOwnKeys bucket gs h.1)

-- No two events of a timeline have the same key: of the source, domain, type, signature and window
-- of time, at least one differs; and these are the event's own domain, type, signature and time, and
-- one of its sources.
pub build_timeline-HasDistinctKeys :
    (bucket : String → ℤ) (es : List NormalizedEvidence)
    → HasDistinctKeys (build_timeline bucket es).events
      × All (HasOwnKey bucket) (build_timeline bucket es).events
unfolding build_timeline
build_timeline-HasDistinctKeys bucket es =
    let all = sort_by earlier (timed es) in
    (
      event-HasDistinctKeys (groups_of bucket es) (group_all-IsDistinct bucket all [] tt),
      events-HaveOwnKeys bucket (groups_of bucket es) (group_all-IsKeyed bucket all [] tt),
    )
