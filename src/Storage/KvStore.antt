-- ===== src/Storage/KvStore.antt =====
-- storage/KVStore.hpp and KVStore.cpp: the replicated state machine's table of entries with expiry,
-- and its watches. A deadline is an int64_t of the clock's ticks, as a number below 2^64. Each method takes the reading of the system clock that it makes, in the clock's
-- ticks, and returns the new store. A callback's run is an `Event` at the end of `fired`.
pub mod Ops
pub mod Scan
pub mod Snapshot
pub mod Purge
pub mod Watches
mod Tests
use distributed_key_value_st.Base.{
  ℕ, zero, suc, ◌+◌, ◌-◌, ◌*◌, ◌/◌, ◌%◌, ◌^◌, ◌++◌, Bool, true, false, Option, none, some, List, [],
  ◌∷◌, map, if◌then◌else◌, Text, text_eq, text_lt, starts_with, ltb, leb, ◌==◌, add64, keep_if,
  length, not,
}
use distributed_key_value_st.Base.Int.{ℤ, pos, negsuc}
use distributed_key_value_st.Storage.OrderedMap
use distributed_key_value_st.Storage.OrderedMap.{Entries}

pub record KvEntry : Type 0 where
  pub value : Text
  pub version : ℕ
  pub raft_index : ℕ
  pub created_at : ℕ
  pub updated_at : ℕ
  pub expires_at : Option ℕ

-- The tuple that `watches_` holds; the callback is known by the watch's id.
pub record Watcher : Type 0 where
  pub pattern_text : Text
  pub is_prefix : Bool

-- One run of the callback of a watch.
pub record Event : Type 0 where
  pub watch_id : ℕ
  pub key : Text
  pub entry : Option KvEntry

pub record KvStore : Type 0 where
  pub table : Entries KvEntry
  pub next_watch_id : ℕ
  pub watches : List (ℕ × Watcher)
  pub fired : List Event

-- The ticks of std::chrono::system_clock in a millisecond (nanoseconds).
abbrev pub ticks_per_ms : ℕ
ticks_per_ms = 1000000

abbrev pub empty : KvStore
empty = record { table = []; next_watch_id = 1; watches = []; fired = [] }

-- Whether a deadline is negative as an int64_t of ticks.
unfoldable pub is_negative : ℕ → Bool
is_negative t = leb (2 ^ 63) t

-- deadline < now, for a clock reading that is not negative.
unfoldable pub passed : ℕ → ℕ → Bool
unfolding is_negative
passed now t = if is_negative t then true else ltb t now

-- entry.expiresAt && *entry.expiresAt < now
unfoldable pub expired : ℕ → KvEntry → Bool
unfolding passed
expired now e = elim e.expires_at [ none ↦ false | some t ↦ passed now t ]

unfoldable pub live : ℕ → Option KvEntry → Option KvEntry
unfolding expired
live now none = none
live now (some e) = if expired now e then none else some e

unfoldable pub get : ℕ → Text → KvStore → Option KvEntry
unfolding live
get now key s = live now (OrderedMap.find key s.table)

unfoldable pub fires : Text → ℕ × Watcher → Bool
fires key (id, w) =
    if w.is_prefix then starts_with key w.pattern_text else text_eq key w.pattern_text

unfoldable pub notify_watchers : Text → Option KvEntry → KvStore → KvStore
notify_watchers key entry s = record s {
  fired =
      s.fired
      ++ map (λ w. record { watch_id = w.0; key = key; entry = entry })
          (keep_if (fires key) s.watches);
}

-- The milliseconds are turned into ticks and added in int64_t, which wraps around.
unfoldable pub expiry : ℕ → Option ℕ → Option ℕ
expiry now none = none
expiry now (some ttl) = some ((now + ttl * ticks_per_ms) % 2 ^ 64)

-- The entry that Put builds from the one that it finds.
unfoldable pub new_entry : ℕ → Text → ℕ → Option ℕ → Option KvEntry → KvEntry
unfolding expiry
new_entry now value index ttl none = record {
  value = value;
  version = 1;
  raft_index = index;
  created_at = now;
  updated_at = now;
  expires_at = expiry now ttl;
}
new_entry now value index ttl (some old) = record {
  value = value;
  version = add64 old.version 1;
  raft_index = index;
  created_at = old.created_at;
  updated_at = now;
  expires_at = expiry now ttl;
}

-- The time to live is in milliseconds.
unfoldable pub put : ℕ → Text → Text → ℕ → Option ℕ → KvStore → Bool × KvStore
unfolding notify_watchers
put now key value index ttl s =
    let entry = new_entry now value index ttl (OrderedMap.find key s.table) in
    (
      true,
      notify_watchers key (some entry) (record s { table = OrderedMap.assign key entry s.table }),
    )

unfoldable pub delete : Text → KvStore → Bool × KvStore
unfolding notify_watchers
delete key s = elim (OrderedMap.find key s.table) [
  | none ↦ (false, s)
  | some e ↦ (true, notify_watchers key none (record s { table = OrderedMap.erase key s.table }))
]

-- The entry that CAS writes over the one that it finds.
unfoldable pub swapped : ℕ → Text → ℕ → KvEntry → KvEntry
swapped now value index e = record e {
  value = value;
  version = add64 e.version 1;
  updated_at = now;
  raft_index = index;
}

unfoldable pub cas : ℕ → Text → Text → Text → ℕ → KvStore → Bool × KvStore
unfolding notify_watchers swapped
cas now key expected value index s = elim (OrderedMap.find key s.table) [
  | none ↦ (false, s)
  | some e ↦
      if text_eq e.value expected
      then (
        true,
        notify_watchers key (some (swapped now value index e))
            (record s { table = OrderedMap.assign key (swapped now value index e) s.table }),
      )
      else (false, s)
]

-- `watches_[id] = …` with a new id.
unfoldable pub watch : Text → Bool → KvStore → ℕ × KvStore
watch pattern_text is_prefix s = (
  s.next_watch_id,
  record s {
    next_watch_id = add64 s.next_watch_id 1;
    watches =
        s.watches
        ++ (s.next_watch_id, record { pattern_text = pattern_text; is_prefix = is_prefix }) ∷ [];
  },
)

unfoldable pub unwatch : ℕ → KvStore → KvStore
unwatch id s = record s { watches = keep_if (λ w. not (w.0 == id)) s.watches }

-- data_.lower_bound(prefix): the first key that is not below the prefix, and what follows.
unfoldable pub lower_bound : Text → Entries KvEntry → Entries KvEntry
lower_bound prefix [] = []
lower_bound prefix ((k, e) ∷ m) =
    let rest = lower_bound prefix m in if text_lt k prefix then rest else (k, e) ∷ m

-- if (limit && results.size() >= *limit) break;
unfoldable pub limit_reached : Option ℕ → ℕ → Bool
limit_reached none n = false
limit_reached (some limit) n = leb limit n

-- The loop of Scan, with the number of results so far.
unfoldable pub scan_loop : ℕ → Text → Option ℕ → ℕ → Entries KvEntry → Entries KvEntry
unfolding expired starts_with limit_reached
scan_loop now prefix limit n [] = []
scan_loop now prefix limit n ((k, e) ∷ m) =
    let skipped = scan_loop now prefix limit n m in
    let more = scan_loop now prefix limit (suc n) m in
    if not (starts_with k prefix)
    then []
    else if expired now e
    then skipped
    else if limit_reached limit (suc n)
    then (k, e) ∷ []
    else (k, e) ∷ more

unfoldable pub scan : ℕ → Text → Option ℕ → KvStore → Entries KvEntry
unfolding scan_loop lower_bound
scan now prefix limit s = scan_loop now prefix limit 0 (lower_bound prefix s.table)

-- One object of the snapshot's JSON array.
pub record SnapshotItem : Type 0 where
  pub key : Text
  pub value : Text
  pub version : ℕ
  pub raft_index : ℕ
  pub expires_ms : ℤ

-- The negative number with this amount.
unfoldable pub negated : ℕ → ℤ
negated zero = pos 0
negated (suc n) = negsuc n

-- duration_cast<milliseconds>, towards 0.
unfoldable pub expires_ms_of : Option ℕ → ℤ
unfolding is_negative negated
expires_ms_of none = negsuc 0
expires_ms_of (some t) =
    if is_negative t then negated ((2 ^ 64 - t) / ticks_per_ms) else pos (t / ticks_per_ms)

unfoldable pub item_of : Text → KvEntry → SnapshotItem
unfolding expires_ms_of
item_of k e = record {
  key = k;
  value = e.value;
  version = e.version;
  raft_index = e.raft_index;
  expires_ms = expires_ms_of e.expires_at;
}

unfoldable pub snapshot_items : ℕ → Entries KvEntry → List SnapshotItem
unfolding expired item_of
snapshot_items now [] = []
snapshot_items now ((k, e) ∷ m) =
    let rest = snapshot_items now m in if expired now e then rest else item_of k e ∷ rest

unfoldable pub take_snapshot : ℕ → KvStore → List SnapshotItem
unfolding snapshot_items
take_snapshot now s = snapshot_items now s.table

unfoldable pub expires_at_of : ℤ → Option ℕ
expires_at_of (pos ms) = some (ms * ticks_per_ms % 2 ^ 64)
expires_at_of (negsuc n) = none

unfoldable pub entry_of : ℕ → SnapshotItem → KvEntry
unfolding expires_at_of
entry_of now i = record {
  value = i.value;
  version = i.version;
  raft_index = i.raft_index;
  created_at = now;
  updated_at = now;
  expires_at = expires_at_of i.expires_ms;
}

-- The loop of RestoreSnapshot.
unfoldable pub restore_items : ℕ → List SnapshotItem → Entries KvEntry → Entries KvEntry
unfolding entry_of
restore_items now [] m = m
restore_items now (i ∷ items) m =
    restore_items now items (OrderedMap.assign i.key (entry_of now i) m)

unfoldable pub restore_snapshot : ℕ → List SnapshotItem → KvStore → KvStore
unfolding restore_items
restore_snapshot now items s = record s { table = restore_items now items [] }

unfoldable pub size : KvStore → ℕ
size s = length s.table

-- The keys that the loop of PurgeExpired collects, and what it leaves.
unfoldable pub expired_keys : ℕ → Entries KvEntry → List Text
unfolding expired
expired_keys now [] = []
expired_keys now ((k, e) ∷ m) =
    let rest = expired_keys now m in if expired now e then k ∷ rest else rest

unfoldable pub unexpired : ℕ → Entries KvEntry → Entries KvEntry
unfolding expired
unexpired now [] = []
unexpired now ((k, e) ∷ m) =
    let rest = unexpired now m in if expired now e then rest else (k, e) ∷ rest

unfoldable pub notify_deleted : List Text → KvStore → KvStore
unfolding notify_watchers
notify_deleted [] s = s
notify_deleted (k ∷ ks) s = notify_deleted ks (notify_watchers k none s)

unfoldable pub purge_expired : ℕ → KvStore → ℕ × KvStore
unfolding notify_deleted unexpired expired_keys
purge_expired now s =
    let keys = expired_keys now s.table in
    (length keys, notify_deleted keys (record s { table = unexpired now s.table }))
