-- ===== src/Storage/KvStore/Purge.antt =====
-- storage/KVStore.cpp: PurgeExpired, over an ordered table.
use distributed_key_value_st.Base.{
  ℕ, ◌+◌, ◌≤◌, ◌≡◌, refl, false, Option, none, List, [], ◌∷◌, arith, length, Bool-cases, inl, inr,
  Text, All,
}
use distributed_key_value_st.Storage.OrderedMap
use distributed_key_value_st.Storage.OrderedMap.{Entries, Above, IsOrdered, find-Above_eq}
use distributed_key_value_st.Storage.KvStore.{
  KvEntry, KvStore, expired, live, get, expired_keys, unexpired, notify_watchers, notify_deleted,
  purge_expired, size,
}

pub table-notify_deleted : (ks : List Text) (s : KvStore) → (notify_deleted ks s).table ≡ s.table
unfolding notify_deleted
table-notify_deleted [] s = refl
table-notify_deleted (k ∷ ks) s = table-notify_deleted ks (notify_watchers k none s)

module _ (now : ℕ) where
  find-unexpired :
      (j : Text) (m : Entries KvEntry)
      → IsOrdered m
      → OrderedMap.find j (unexpired now m) ≡ live now (OrderedMap.find j m)
  unfolding OrderedMap.find unexpired live
  find-unexpired j [] o = refl
  find-unexpired j ((k, e) ∷ m) o = ground (arith, find-unexpired j m o.1, find-Above_eq k j m o.0)

  length-unexpired :
      (m : Entries KvEntry) → length (expired_keys now m) + length (unexpired now m) ≡ length m
  unfolding expired_keys unexpired
  length-unexpired [] = omega arith
  length-unexpired ((k, e) ∷ m) = ground (arith, length-unexpired m)

  All-unexpired : (m : Entries KvEntry) → All (λ x. expired now x.1 ≡ false) (unexpired now m)
  unfolding unexpired
  All-unexpired [] = tt
  All-unexpired ((k, e) ∷ m) = elim (Bool-cases (expired now e)) [
    | inl old ↦ rw old (All-unexpired m)
    | inr fresh ↦ rw fresh (fresh, All-unexpired m)
  ]

-- What has run out stays so.
live-live : (now t : ℕ) (o : Option KvEntry) → now ≤ t → live t (live now o) ≡ live t o
unfolding live
live-live now t o h = ground arith

-- On an ordered table PurgeExpired changes nothing that Get shows from then on, leaves no entry that
-- has run out, and returns by how many entries the table became smaller.
pub purge_expired_lem :
    (now : ℕ) (s : KvStore)
    → IsOrdered s.table
    → ((t : ℕ) (j : Text) → now ≤ t → get t j (purge_expired now s).1 ≡ get t j s)
      × All (λ x. expired now x.1 ≡ false) (purge_expired now s).1.table
      × ((purge_expired now s).0 + size (purge_expired now s).1 ≡ size s)
unfolding purge_expired get size
purge_expired_lem now s o =
    let same =
      table-notify_deleted (expired_keys now s.table)
        (record s { table = unexpired now s.table }) in
    (
      λ t j h.
          rw (same, find-unexpired now j s.table o) (live-live now t (OrderedMap.find j s.table) h),
      rw same (All-unexpired now s.table),
      rw same (length-unexpired now s.table),
    )
