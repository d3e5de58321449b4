-- ===== src/Knowledge/Lifecycle/Extended.antt =====
-- What a transition makes of every version: nothing is lost, and histories only grow.
use oracle_diagnostic_estack.Prelude.{
  ℕ, ◌≤◌, String, ◌≡◌, refl, sym, ap, subst, ◌∙◌, Bool, true, false, not, ◌&&◌, Option, none, some,
  some-inj, List, [], ◌∷◌, ◌++◌, ◌==◌, ==_iff, str_eq, eq_iff, length, arith, if◌then◌else◌, pick,
  pick_if,
}
use oracle_diagnostic_estack.Prelude.Dict.{lookup, insert, lookup-insert}
use oracle_diagnostic_estack.Knowledge.State.{KbState, published, superseded, done}
use oracle_diagnostic_estack.Knowledge.Article.{Article}
use oracle_diagnostic_estack.Knowledge.Authorization.{External, Declaration}
use oracle_diagnostic_estack.Knowledge.Store.{
  Event, VersionRecord, Entry, Manifest, versions_of, find_version, set_version, Library, Hashes,
}
use oracle_diagnostic_estack.Knowledge.Lifecycle.{
  moved, superseded_by, is_current, supersede_one, supersede_others, supersedes_now, entry_after,
  event_after, superseding, Moved, transition,
}
use oracle_diagnostic_estack.Knowledge.Lifecycle.Performed.{transition-IsPerformed}

pub find_version-set_version :
    (v w : ℕ) (r : VersionRecord) (e : Entry)
    → find_version w (set_version v r e) ≡ (if v == w then some r else find_version w e)
unfolding find_version set_version
find_version-set_version v w r [] = refl
find_version-set_version v w r ((u, q) ∷ e) =
    ground (arith, ==_iff v w, ==_iff u v, ==_iff u w, find_version-set_version v w r e)

abbrev pub map_record :
    (VersionRecord → VersionRecord) → Option VersionRecord → Option VersionRecord
map_record f none = none
map_record f (some r) = some (f r)

pub find_version-supersede_others :
    (v w : ℕ) (at : String) (d : Option Declaration) (e : Entry)
    → find_version w (supersede_others v at d e)
      ≡ map_record (supersede_one v at d w) (find_version w e)
unfolding find_version supersede_others
find_version-supersede_others v w at d [] = refl
find_version-supersede_others v w at d ((u, q) ∷ e) =
    go (u == w) ((==_iff u w).0) (find_version-supersede_others v w at d e)
  where
    go :
        (b : Bool)
        → (b ≡ true → u ≡ w)
        → find_version w (supersede_others v at d e)
          ≡ map_record (supersede_one v at d w) (find_version w e)
        → (if b
            then some (supersede_one v at d u q)
            else find_version w (supersede_others v at d e))
          ≡ map_record (supersede_one v at d w) (if b then some q else find_version w e)
    go true is rest = ap (λ x. some (supersede_one v at d x q)) (is refl)
    go false is rest = rest

-- The version keeps its digest, and its history gets at most one more event.
abbrev pub Extends : VersionRecord → VersionRecord → Type 0
Extends r r' =
    (r'.digest ≡ r.digest)
    × ((events : List Event) × (r'.history ≡ r.history ++ events) × (length events ≤ 1))

append-nil : (xs : List Event) → xs ++ [] ≡ xs
append-nil [] = refl
append-nil (x ∷ xs) = ap (λ zs. x ∷ zs) (append-nil xs)

same-Extends : (r : VersionRecord) → Extends r r
same-Extends r = (refl, ([], sym (append-nil r.history), omega arith))

moved-Extends :
    (to : KbState) (at : String) (d : Option Declaration) (r : VersionRecord)
    → Extends r (moved to at d r)
moved-Extends to at d r = (refl, (event_after r (some r.state) to at d ∷ [], refl, omega arith))

supersede_one-Extends :
    (v : ℕ) (at : String) (d : Option Declaration) (w : ℕ) (r : VersionRecord)
    → Extends r (supersede_one v at d w r)
supersede_one-Extends v at d w r =
    pick_if (Extends r) (not (w == v) && is_current r.state) (superseded_by v at d r) r
      (λ _. (
        refl,
        (event_after r (some published) superseded at (superseding r d) ∷ [], refl, omega arith),
      ))
      (λ _. same-Extends r)

-- `o` has a version that extends `q`.
abbrev IsExtension : VersionRecord → Option VersionRecord → Type 0
IsExtension q o = (q' : VersionRecord) × (o ≡ some q') × Extends q q'

pub supersede_one_self :
    (v w : ℕ) (at : String) (d : Option Declaration) (r : VersionRecord)
    → (w == v) ≡ true
    → supersede_one v at d w r ≡ r
supersede_one_self v w at d r h = rw h refl

set-IsExtension :
    (v w : ℕ) (to : KbState) (at : String) (d : Option Declaration) (e : Entry)
    (r q : VersionRecord)
    → find_version v e ≡ some r
    → find_version w e ≡ some q
    → IsExtension q (if v == w then some (moved to at d r) else find_version w e)
set-IsExtension v w to at d e r q h k =
    pick_if (IsExtension q) (v == w) (some (moved to at d r)) (find_version w e)
      (λ b.
        let is = (==_iff v w).0 b in
        let same = some-inj (sym h ∙ ap (λ u. find_version u e) is ∙ k) in
        (
          moved to at d r,
          refl,
          subst (λ u. Extends u (moved to at d r)) same (moved-Extends to at d r),
        ))
      (λ _. (q, k, same-Extends q))

supersede-IsExtension :
    (v w : ℕ) (to : KbState) (at : String) (d : Option Declaration) (e : Entry)
    (r q : VersionRecord)
    → find_version v e ≡ some r
    → find_version w e ≡ some q
    → IsExtension q (
        map_record
          (supersede_one v at d w)
          (if v == w then some (moved to at d r) else find_version w e))
supersede-IsExtension v w to at d e r q h k =
    pick_if (λ o. IsExtension q (map_record (supersede_one v at d w) o)) (v == w)
      (some (moved to at d r)) (find_version w e)
      (λ b.
        let is = (==_iff v w).0 b in
        let same = some-inj (sym h ∙ ap (λ u. find_version u e) is ∙ k) in
        (
          moved to at d r,
          ap some (supersede_one_self v w at d (moved to at d r) ((==_iff w v).1 (sym is))),
          subst (λ u. Extends u (moved to at d r)) same (moved-Extends to at d r),
        ))
      (λ _. (
        supersede_one v at d w q,
        ap (map_record (supersede_one v at d w)) k,
        supersede_one-Extends v at d w q,
      ))

entry_after-IsExtension :
    (id : String) (v w : ℕ) (e : Entry) (r q : VersionRecord) (a : Article) (to : KbState)
    (at : String) (d : Option Declaration)
    → find_version v e ≡ some r
    → find_version w e ≡ some q
    → IsExtension q (find_version w (entry_after id v e r a to at d))
entry_after-IsExtension id v w e r q a to at d h k =
    let e' = set_version v (moved to at d r) e in
    pick_if (λ x. IsExtension q (find_version w x)) (supersedes_now id a to)
      (supersede_others v at d e') e'
      (λ _.
        subst (IsExtension q)
          (sym (
            find_version-supersede_others v w at d e'
            ∙ ap (map_record (supersede_one v at d w))
                (find_version-set_version v w (moved to at d r) e)))
          (supersede-IsExtension v w to at d e r q h k))
      (λ _.
        subst (IsExtension q) (sym (find_version-set_version v w (moved to at d r) e))
          (set-IsExtension v w to at d e r q h k))

-- The version that a transition moves is there as it was moved: it does not supersede itself.
pub entry_after-moved :
    (id : String) (v : ℕ) (e : Entry) (r : VersionRecord) (a : Article) (to : KbState) (at : String)
    (d : Option Declaration)
    → find_version v (entry_after id v e r a to at d) ≡ some (moved to at d r)
entry_after-moved id v e r a to at d =
    let e' = set_version v (moved to at d r) e in
    let same : (v == v) ≡ true = (==_iff v v).1 refl in
    let is : find_version v e' ≡ some (moved to at d r) =
      find_version-set_version v v (moved to at d r) e
      ∙ ap (λ b. if b then some (moved to at d r) else find_version v e) same in
    pick (λ x. find_version v x ≡ some (moved to at d r)) (supersedes_now id a to)
      (supersede_others v at d e') e'
      (find_version-supersede_others v v at d e'
        ∙ ap (map_record (supersede_one v at d v)) is
        ∙ ap some (supersede_one_self v v at d (moved to at d r) same))
      is

pub versions_of-insert :
    (id j : String) (e : Entry) (m : Manifest)
    → versions_of (insert id e m) j ≡ (if str_eq id j then e else versions_of m j)
versions_of-insert id j e m =
    ap (λ o. elim o [ none ↦ [] | some f ↦ f ]) (lookup-insert id j e m) ∙ go (str_eq id j)
  where
    go :
        (b : Bool)
        → (elim (if b then some e else lookup j m) [ none ↦ [] | some f ↦ f ])
          ≡ (if b then e else versions_of m j)
    go true = refl
    go false = refl

-- After a transition, every version of every entry that was there is there, with the digest that it
-- had, and its history goes on from what it was with one more event at most.
pub transition-Extends :
    (is_decimal : ℕ → Bool) (is_iso : String → Bool) (h : Hashes) (id : String) (v : ℕ)
    (to : KbState) (at : String) (external : External) (lib : Library) (x : Moved) (m' : Manifest)
    (j : String) (w : ℕ) (q : VersionRecord)
    → transition is_decimal is_iso h id v to at external lib ≡ done (x, m')
    → find_version w (versions_of lib.manifest j) ≡ some q
    → (q' : VersionRecord) × (find_version w (versions_of m' j) ≡ some q') × Extends q q'
transition-Extends is_decimal is_iso h id v to at external lib x m' j w q e k =
    let (r, a, found, _, p) =
      transition-IsPerformed h id v to at external is_decimal is_iso lib x m' e in
    let m = lib.manifest in
    let after = entry_after id v (versions_of m id) r a to at p.decision in
    subst (λ y. IsExtension q (find_version w y))
      (sym (ap (λ y. versions_of y j) p.manifest ∙ versions_of-insert id j after m))
      (pick_if (λ y. IsExtension q (find_version w y)) (str_eq id j) after (versions_of m j)
        (λ b.
          entry_after-IsExtension id v w (versions_of m id) r q a to at p.decision found
            (ap (λ i. find_version w (versions_of m i)) ((eq_iff id j).0 b) ∙ k))
        (λ _. (q, k, same-Extends q)))
