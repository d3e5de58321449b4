-- ===== src/Evidence/Store.antt =====
-- mcp_gateway/evidence.py, `EvidenceStore`: sanitized payloads by reference, with expiry and a bound.
-- The clock's readings are arguments, in ticks; so is the random reference of a new entry. A Python
-- dict keeps its keys in insertion order, and so does the list here.
pub mod Bounded
pub mod Scope
pub mod Eviction
use oracle_diagnostic_estack.Prelude.{
  ℕ, suc, ◌+◌, ◌-◌, ◌≤◌, String, Bool, true, false, not, ◌&&◌, ◌||◌, Option, none, some, List, [],
  ◌∷◌, ltb, leb, str_eq, length, keep, if◌then◌else◌,
}
use oracle_diagnostic_estack.Prelude.Dict.{Dict, lookup, insert}
use oracle_diagnostic_estack.Common.{Result, ok, raise, ErrorCode, evidence_not_found}

module _ (Payload : Type 0) where
  pub record Entry : Type 0 where
    pub session : String
    pub target : String
    pub collector : String
    pub payload : Payload
    pub digest : String
    pub t : ℕ

  pub record EvidenceStore : Type 0 where
    pub items : Dict Entry
    pub ttl : ℕ
    pub max : ℕ

module _ {Payload : Type 0} where
  -- `now - e["t"] <= self._ttl`: the clock never runs backwards, and `-` is not needed then
  unfoldable pub is_live : ℕ → ℕ → Entry Payload → Bool
  is_live ttl now e = leb now (e.t + ttl)

  unfoldable pub purge : ℕ → EvidenceStore Payload → EvidenceStore Payload
  unfolding is_live
  purge now s = record s { items = keep (λ r. is_live s.ttl now r.1) s.items }

  -- `del self._items[ref]`
  unfoldable pub remove : String → Dict (Entry Payload) → Dict (Entry Payload)
  remove ref [] = []
  remove ref ((j, e) ∷ items) = if str_eq j ref then items else (j, e) ∷ remove ref items

  -- `min(items, key=lambda r: items[r]["t"])`: the first reference of a least time
  unfoldable pub oldest_from : String → ℕ → Dict (Entry Payload) → String
  oldest_from ref t [] = ref
  oldest_from ref t ((j, e) ∷ items) =
      oldest_from (if ltb e.t t then j else ref) (if ltb e.t t then e.t else t) items

  -- It is evaluated on an empty dict only if the bound is 0, and raises `ValueError` then: `none`.
  unfoldable pub evict : Dict (Entry Payload) → Option (Dict (Entry Payload))
  unfolding oldest_from remove
  evict [] = none
  evict ((j, e) ∷ items) = some (remove (oldest_from j e.t items) ((j, e) ∷ items))

  abbrev make_room : ℕ → Dict (Entry Payload) → Option (Dict (Entry Payload))
  make_room most items = if leb most (length items) then evict items else some items

  abbrev store_into :
      EvidenceStore Payload
      → String
      → Entry Payload
      → Option (Dict (Entry Payload))
      → Option (EvidenceStore Payload)
  store_into s ref e none = none
  store_into s ref e (some items) = some (record s { items = insert ref e items })

  -- The rest of `put`, after the purge: make room, then `self._items[ref] = e`.
  unfoldable pub place :
      String → Entry Payload → EvidenceStore Payload → Option (EvidenceStore Payload)
  unfolding evict insert
  place ref e s = store_into s ref e (make_room s.max s.items)

module _ {Payload : Type 0} (canonical_digest : Payload → String) where
  abbrev pub entry : (stamp : ℕ) (session target collector : String) → Payload → Entry Payload
  entry stamp session target collector payload = record {
    session = session;
    target = target;
    collector = collector;
    payload = payload;
    digest = canonical_digest payload;
    t = stamp;
  }

  -- `now` is read by the purge and `stamp` by the new entry; `ref` is the random reference.
  unfoldable pub put :
      (now stamp : ℕ) (ref session target collector : String)
      → Payload
      → EvidenceStore Payload
      → Option (EvidenceStore Payload)
  unfolding purge place
  put now stamp ref session target collector payload s =
      place ref (entry stamp session target collector payload) (purge now s)

  -- The entry, if it is of this session and target and its payload still has its digest.
  abbrev in_scope : String → String → Entry Payload → Bool
  in_scope session target e = str_eq e.session session && str_eq e.target target

  abbrev authentic : Entry Payload → Bool
  authentic e = str_eq (canonical_digest e.payload) e.digest

  abbrev checked : String → String → Option (Entry Payload) → Result (Entry Payload)
  checked session target none = raise evidence_not_found
  checked session target (some e) =
      if not (in_scope session target e)
      then raise evidence_not_found
      else if not (authentic e)
      then raise evidence_not_found
      else ok e

  -- `get` purges first, so the store changes too.
  unfoldable pub get :
      (now : ℕ) (ref session target : String)
      → EvidenceStore Payload
      → Result (Entry Payload) × EvidenceStore Payload
  unfolding purge lookup
  get now ref session target s =
      let fresh = purge now s in (checked session target (lookup ref fresh.items), fresh)

module _ {Payload : Type 0} where
  unfoldable pub clear_session : String → EvidenceStore Payload → EvidenceStore Payload × ℕ
  clear_session session s =
      let rest = keep (λ r. not (str_eq r.1.session session)) s.items in
      (record s { items = rest }, length s.items - length rest)

  unfoldable pub size : EvidenceStore Payload → ℕ
  size s = length s.items
