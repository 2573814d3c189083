-- ===== src/Storage/KvStore/Tests.antt =====
-- storage/KVStore.cpp: a store with an entry that runs out and one that stays, and the store's laws at
-- it.
use distributed_key_value_st.Base.{
  arith, ◌^◌, ◌≡◌, ◌≢◌, ◌⊎◌, refl, true, false, none, some, [], ◌∷◌, if◌then◌else◌, Text, codes,
  text_eq, text_lt, keep_if, add64,
}
use distributed_key_value_st.Storage.OrderedMap
use distributed_key_value_st.Storage.OrderedMap.{IsOrdered, find}
use distributed_key_value_st.Storage.KvStore.{
  KvEntry, KvStore, expired, new_entry, get, put, cas, scan, restore_snapshot, take_snapshot,
  purge_expired, empty,
}
use distributed_key_value_st.Storage.KvStore.Ops.{get-put, cas_lem, outlived, next_version}
use distributed_key_value_st.Storage.KvStore.Scan.{scan_lem, at_most, wanted}
use distributed_key_value_st.Storage.KvStore.Snapshot.{restore-take_snapshot, Restores}

abbrev passing : KvEntry
passing = record {
  value = codes "1";
  version = 3;
  raft_index = 5;
  created_at = 0;
  updated_at = 0;
  expires_at = some 10;
}

abbrev lasting : KvEntry
lasting = record passing { value = codes "2"; expires_at = none }

abbrev two_keys : KvStore
two_keys = record empty { table = (codes "a", passing) ∷ (codes "ab", lasting) ∷ [] }

ordered : IsOrdered two_keys.table
unfolding text_lt
ordered = ((refl, tt), (tt, tt))

found : find (codes "a") two_keys.table ≡ some passing
unfolding find text_eq
found = refl

old : expired 11 passing ≡ true
unfolding expired
old = refl

scan_limited : scan 3 (codes "a") (some 1) two_keys ≡ (codes "a", passing) ∷ []
unfolding scan text_lt text_eq
scan_limited = refl

purged_count : (purge_expired 11 two_keys).0 ≡ 1
unfolding purge_expired
purged_count = refl

get-put_example :
    (e : KvEntry) × (get 5 (codes "a") (put 4 (codes "a") (codes "9") 6 (some 1) two_keys).1 ≡ (
      if text_eq (codes "a") (codes "a")
      then (if outlived 4 (some 1) 5 then none else some e)
      else get 5 (codes "a") two_keys))
    × (e.value ≡ codes "9")
    × (e.version ≡ next_version (OrderedMap.find (codes "a") two_keys.table))
    × (e.raft_index ≡ 6)
get-put_example = get-put 4 (codes "a") (codes "9") 6 (some 1) two_keys 5 (codes "a") (ground arith)

-- A time to live of 10^13 milliseconds does not fit: the key is gone at once.
gone_at_once : get 5 (codes "a") (put 4 (codes "a") (codes "9") 6 (some (10 ^ 13)) empty).1 ≡ none
unfolding get put OrderedMap.find text_eq OrderedMap.assign new_entry
gone_at_once = refl

cas_lem_example :
    (((cas 4 (codes "a") (codes "1") (codes "7") 6 two_keys).0 ≡ true)
      × (e : KvEntry) × (OrderedMap.find (codes "a") two_keys.table ≡ some e)
      × (e.value ≡ codes "1")
      × ((j : Text)
          → OrderedMap.find j (cas 4 (codes "a") (codes "1") (codes "7") 6 two_keys).1.table ≡ (
              if text_eq (codes "a") j
              then some (record e {
                value = codes "7";
                version = add64 e.version 1;
                updated_at = 4;
                raft_index = 6;
              })
              else OrderedMap.find j two_keys.table)))
    ⊎ (((cas 4 (codes "a") (codes "1") (codes "7") 6 two_keys).0 ≡ false)
        × ((cas 4 (codes "a") (codes "1") (codes "7") 6 two_keys).1 ≡ two_keys)
        × ((e : KvEntry)
            → OrderedMap.find (codes "a") two_keys.table ≡ some e
            → e.value ≢ codes "1"))
cas_lem_example = cas_lem 4 (codes "a") (codes "1") (codes "7") 6 two_keys

scan_lem_example :
    scan 3 (codes "a") (some 1) two_keys
    ≡ at_most (some 1) (keep_if (wanted 3 (codes "a")) two_keys.table)
scan_lem_example = scan_lem 3 (codes "a") (some 1) two_keys ordered

restore-take_snapshot_example :
    Restores
      (get 3 (codes "a") two_keys)
      (OrderedMap.find (codes "a") (restore_snapshot 7 (take_snapshot 3 two_keys) empty).table)
restore-take_snapshot_example = restore-take_snapshot 3 7 two_keys empty ordered (codes "a")
