-- ===== src/Rca/Timeline/Kept.antt =====
-- What the grouping of the timeline keeps: each evidence with a time is in exactly one event.
use mathlib.Core.List.{Perm, perm_middle}
use mathlib.Core.List.Perm
use oracle_diagnostic_estack.Prelude.{
  ℕ, ◌+◌, String, ◌≡◌, refl, sym, ap, subst, List, [], ◌∷◌, ◌++◌, length, length-append, map, arith,
  pick,
}
use oracle_diagnostic_estack.Prelude.Int.{ℤ}
use oracle_diagnostic_estack.Prelude.Sort.{sort_by, sort_by-perm, length-sort_by}
use oracle_diagnostic_estack.Rca.Evidence.{NormalizedEvidence}
use oracle_diagnostic_estack.Rca.Timeline.{
  Timed, timed, earlier, DedupKey, eq_key, dedup_key, Group, members, add_member, group_all,
  groups_of, event_of, TimelineEvent, build_timeline,
}

-- the evidence of all groups
abbrev pub flat : List Group → List Timed
flat [] = []
flat (g ∷ gs) = g.first ∷ g.others ++ flat gs

snoc-append : (xs ys : List Timed) (e : Timed) → (xs ++ e ∷ []) ++ ys ≡ xs ++ e ∷ ys
snoc-append [] ys e = refl
snoc-append (x ∷ xs) ys e = ap (λ zs. x ∷ zs) (snoc-append xs ys e)

into-group : (f e : Timed) (xs ys : List Timed) → Perm (f ∷ (xs ++ e ∷ []) ++ ys) (e ∷ f ∷ xs ++ ys)
into-group f e xs ys =
    subst (λ zs. Perm (f ∷ zs) (e ∷ f ∷ xs ++ ys)) (sym (snoc-append xs ys e))
      (Perm.trans (Perm.cons f (perm_middle xs ys)) (Perm.swap e f (xs ++ ys)))

add_member-perm :
    (k : DedupKey) (e : Timed) (gs : List Group) → Perm (flat (add_member k e gs)) (e ∷ flat gs)
unfolding add_member
add_member-perm k e [] = Perm.refl (e ∷ [])
add_member-perm k e (g ∷ gs) =
    pick (λ hs. Perm (flat hs) (e ∷ flat (g ∷ gs))) (eq_key g.key k)
      (record g { others = g.others ++ e ∷ [] } ∷ gs) (g ∷ add_member k e gs)
      (into-group g.first e g.others (flat gs))
      (Perm.trans (Perm.append_left (members g) (add_member-perm k e gs))
        (perm_middle (members g) (flat gs)))

group_all-perm :
    (bucket : String → ℤ) (es : List Timed) (gs : List Group)
    → Perm (flat (group_all bucket es gs)) (es ++ flat gs)
unfolding group_all
group_all-perm bucket [] gs = Perm.refl (flat gs)
group_all-perm bucket (e ∷ es) gs =
    Perm.trans (group_all-perm bucket es (add_member (dedup_key bucket e) e gs)) (
      Perm.trans (Perm.append_left es (add_member-perm (dedup_key bucket e) e gs))
        (perm_middle es (flat gs)))

append-nil : (xs : List Timed) → xs ++ [] ≡ xs
append-nil [] = refl
append-nil (x ∷ xs) = ap (λ zs. x ∷ zs) (append-nil xs)

-- The groups of a timeline have, together, the evidence that has a time, each once.
pub groups_of-perm :
    (bucket : String → ℤ) (es : List NormalizedEvidence)
    → Perm (flat (groups_of bucket es)) (timed es)
groups_of-perm bucket es =
    let sorted = sort_by earlier (timed es) in
    Perm.trans
      (subst (Perm (flat (groups_of bucket es))) (append-nil sorted)
        (group_all-perm bucket sorted []))
      (sort_by-perm earlier (timed es))

abbrev pub total_count : List TimelineEvent → ℕ
total_count [] = 0
total_count (e ∷ es) = e.count + total_count es

flat-count : (gs : List Group) → total_count (map event_of gs) ≡ length (flat gs)
unfolding event_of
flat-count [] = refl
flat-count (g ∷ gs) = omega (arith, flat-count gs, length-append g.others (flat gs))

add_member-length :
    (k : DedupKey) (e : Timed) (gs : List Group)
    → length (flat (add_member k e gs)) ≡ 1 + length (flat gs)
unfolding add_member
add_member-length k e [] = omega arith
add_member-length k e (g ∷ gs) =
    pick (λ hs. length (flat hs) ≡ 1 + length (flat (g ∷ gs))) (eq_key g.key k)
      (record g { others = g.others ++ e ∷ [] } ∷ gs) (g ∷ add_member k e gs)
      (omega (
        arith,
        length-append (g.others ++ e ∷ []) (flat gs),
        length-append g.others (e ∷ []),
        length-append g.others (flat gs),
      ))
      (omega (
        arith,
        add_member-length k e gs,
        length-append g.others (flat gs),
        length-append g.others (flat (add_member k e gs)),
      ))

group_all-length :
    (bucket : String → ℤ) (es : List Timed) (gs : List Group)
    → length (flat (group_all bucket es gs)) ≡ length es + length (flat gs)
unfolding group_all
group_all-length bucket [] gs = omega arith
group_all-length bucket (e ∷ es) gs = omega (
  arith,
  group_all-length bucket es (add_member (dedup_key bucket e) e gs),
  add_member-length (dedup_key bucket e) e gs,
)

-- The counts of the events add up to the number of the evidence that has a time.
pub build_timeline-count :
    (bucket : String → ℤ) (es : List NormalizedEvidence)
    → total_count (build_timeline bucket es).events ≡ length (timed es)
unfolding build_timeline
build_timeline-count bucket es = omega (
  arith,
  flat-count (groups_of bucket es),
  group_all-length bucket (sort_by earlier (timed es)) [],
  length-sort_by earlier (timed es),
)
