-- ===== src/Storage/KvStore/Snapshot.antt =====
-- storage/KVStore.cpp: TakeSnapshot and RestoreSnapshot. The JSON array is its list of objects.
use distributed_key_value_st.Base.{
  ℕ, ◌^◌, false, Bool-cases, inl, inr, ◌+◌, ◌≤◌, ◌<◌, ◌≡◌, refl, Option, none, some, List, [], ◌∷◌,
  arith, Text, text_eq_iff,
}
use distributed_key_value_st.Storage.OrderedMap
use distributed_key_value_st.Storage.OrderedMap.{
  Entries, Above, IsOrdered, find-assign, find-Above_eq, assign-IsOrdered,
}
use distributed_key_value_st.Storage.KvStore.{
  KvEntry, KvStore, SnapshotItem, ticks_per_ms, is_negative, passed, expired, expires_ms_of,
  expires_at_of, live, get, item_of, entry_of, snapshot_items, take_snapshot, restore_items,
  restore_snapshot,
}

-- The entry that a restored snapshot has for an entry, at clock reading `t`.
abbrev restored : ℕ → Text → KvEntry → KvEntry
restored t k e = entry_of t (item_of k e)

abbrev restored_or : ℕ → Text → Option KvEntry → Option KvEntry → Option KvEntry
restored_or t k none d = d
restored_or t k (some e) d = some (restored t k e)

find-restore_items :
    (now t : ℕ) (j : Text) (m acc : Entries KvEntry)
    → IsOrdered m
    → OrderedMap.find j (restore_items t (snapshot_items now m) acc)
      ≡ restored_or t j (live now (OrderedMap.find j m)) (OrderedMap.find j acc)
unfolding restore_items snapshot_items OrderedMap.find live
find-restore_items now t j [] acc o = refl
find-restore_items now t j ((k, e) ∷ m) acc o = ground (
  arith,
  find-restore_items now t j m acc o.1,
  find-restore_items now t j m (OrderedMap.assign k (entry_of t (item_of k e)) acc) o.1,
  find-assign k j (entry_of t (item_of k e)) acc,
  find-Above_eq k j m o.0,
  text_eq_iff k j,
)

-- The deadline is cut down to whole milliseconds.
abbrev pub RoundsDown : Option ℕ → Option ℕ → Type 0
RoundsDown none none = Unit
RoundsDown none (some b) = ⊥
RoundsDown (some a) none = ⊥
RoundsDown (some a) (some b) = (b ≤ a) × (a < b + ticks_per_ms)

-- What a snapshot keeps of an entry.
abbrev pub Restores : Option KvEntry → Option KvEntry → Type 0
Restores none none = Unit
Restores none (some e) = ⊥
Restores (some e) none = ⊥
Restores (some e) (some f) =
    (f.value ≡ e.value)
    × (f.version ≡ e.version)
    × (f.raft_index ≡ e.raft_index)
    × RoundsDown e.expires_at f.expires_at

is_negative-below : (t : ℕ) → is_negative t ≡ false → t < 2 ^ 63
unfolding is_negative
is_negative-below t h = ground arith

-- The deadline of an entry that has not run out is not negative.
expires_at_of-expires_ms_of :
    (now : ℕ) (d : Option ℕ)
    → (elim d [ none ↦ false | some t ↦ passed now t ]) ≡ false
    → RoundsDown d (expires_at_of (expires_ms_of d))
unfolding expires_at_of expires_ms_of passed
expires_at_of-expires_ms_of now none h = tt
expires_at_of-expires_ms_of now (some t) h = elim (Bool-cases (is_negative t)) [
  | inl negative ↦ absurd (ground (arith, negative))
  | inr later ↦
      let below : t < 2 ^ 63 = is_negative-below t later in
      rw (later, expires_ms_of) (omega (arith, below), omega (arith, below))
]

restored-Restores :
    (now t : ℕ) (k : Text) (o : Option KvEntry)
    → Restores (live now o) (restored_or t k (live now o) none)
unfolding item_of entry_of live expired
restored-Restores now t k none = tt
restored-Restores now t k (some e) = elim (Bool-cases (expired now e)) [
  | inl old ↦ rw (old, live) tt
  | inr fresh ↦
      rw (fresh, live) (refl, refl, refl, expires_at_of-expires_ms_of now e.expires_at fresh)
]

-- A snapshot of an ordered table, restored into any store, holds for every key what Get found when
-- the snapshot was taken: nothing, or the same value, version and Raft index, with the deadline
-- rounded down to whole milliseconds.
pub restore-take_snapshot :
    (now t : ℕ) (s target : KvStore)
    → IsOrdered s.table
    → (j : Text)
    → Restores
        (get now j s)
        (OrderedMap.find j (restore_snapshot t (take_snapshot now s) target).table)
unfolding get restore_snapshot take_snapshot OrderedMap.find
restore-take_snapshot now t s target o j =
    rw (find-restore_items now t j s.table [] o)
      (restored-Restores now t j (OrderedMap.find j s.table))

-- Whatever the items, the restored table is ordered.
pub restore-IsOrdered :
    (t : ℕ) (items : List SnapshotItem) (s : KvStore) → IsOrdered (restore_snapshot t items s).table
unfolding restore_snapshot
restore-IsOrdered t items s = all_items t items [] tt
  where
    all_items :
        (t : ℕ) (items : List SnapshotItem) (m : Entries KvEntry)
        → IsOrdered m
        → IsOrdered (restore_items t items m)
    all_items t [] m o = o
    all_items t (i ∷ items) m o = all_items t items _ (assign-IsOrdered i.key (entry_of t i) m o)
