-- ===== src/Storage/KvStore/Ops.antt =====
-- storage/KVStore.cpp: Put, Delete and CAS, and what a client can read.
use distributed_key_value_st.Base.{
  ℕ, ◌+◌, ◌*◌, ◌<◌, ◌^◌, ◌≡◌, ◌≢◌, ◌⊎◌, inl, inr, refl, Bool, true, false, Option, none, some,
  arith, Option-cases, Bool-cases, if◌then◌else◌, Text, text_eq, text_eq_iff, text_eq_refl, ltb,
  add64,
}
use distributed_key_value_st.Storage.OrderedMap
use distributed_key_value_st.Storage.OrderedMap.{
  IsOrdered, find-assign, find-erase, assign-IsOrdered, erase-IsOrdered,
}
use distributed_key_value_st.Storage.KvStore.{
  KvEntry, KvStore, ticks_per_ms, expired, live, get, new_entry, put, delete, cas,
}

-- Whether an entry with this time to live, in milliseconds, written at `now`, is gone at `t`.
abbrev pub outlived : ℕ → Option ℕ → ℕ → Bool
outlived now none t = false
outlived now (some ttl) t = ltb (now + ttl * ticks_per_ms) t

-- The deadline fits the clock's int64_t.
abbrev pub DeadlineFits : ℕ → Option ℕ → Type 0
DeadlineFits now none = Unit
DeadlineFits now (some ttl) = now + ttl * ticks_per_ms < 2 ^ 63

-- The version that a Put gives to what it writes over this.
abbrev pub next_version : Option KvEntry → ℕ
next_version none = 1
next_version (some e) = add64 e.version 1

module _ (now : ℕ) (k v : Text) (index : ℕ) (ttl : Option ℕ) (s : KvStore) where
  find-put :
      (j : Text)
      → OrderedMap.find j (put now k v index ttl s).1.table ≡ (
          if text_eq k j
          then some (new_entry now v index ttl (OrderedMap.find k s.table))
          else OrderedMap.find j s.table)
  unfolding put
  find-put j = find-assign k j _ s.table

  new_entry-live :
      (t : ℕ) (old : Option KvEntry)
      → DeadlineFits now ttl
      → let e = new_entry now v index ttl old in
        (live t (some e) ≡ (if outlived now ttl t then none else some e))
        × (e.value ≡ v)
        × (e.version ≡ next_version old)
        × (e.raft_index ≡ index)
  unfolding new_entry live
  new_entry-live t old fits = ground arith

  -- Where the deadline that the time to live gives, if any, fits int64_t: after Put, Get of the key at time t finds an entry with the value, the Raft index and the next
  -- version unless the time to live has passed at t, and then finds nothing; Get of any other key is
  -- what it was.
  pub get-put :
      (t : ℕ) (j : Text)
      → DeadlineFits now ttl
      → (e : KvEntry) × (get t j (put now k v index ttl s).1
          ≡ (if text_eq k j then (if outlived now ttl t then none else some e) else get t j s))
        × (e.value ≡ v)
        × (e.version ≡ next_version (OrderedMap.find k s.table))
        × (e.raft_index ≡ index)
  unfolding get
  get-put t j fits =
      let old = OrderedMap.find k s.table in
      let e = new_entry now v index ttl old in
      let facts = new_entry-live t old fits in
      (e, rw (find-put j) (ground (arith, facts.0)), facts.1, facts.2, facts.3)

module _ (k : Text) (s : KvStore) where
  -- Delete says whether the key was in the table; afterwards Get of the key finds nothing, and Get of
  -- any other key is what it was.
  pub get-delete :
      (t : ℕ) (j : Text)
      → ((delete k s).0 ≡ true → OrderedMap.find k s.table ≢ none)
        × ((delete k s).0 ≡ false → (OrderedMap.find k s.table ≡ none) × ((delete k s).1 ≡ s))
        × (get t j (delete k s).1 ≡ (if text_eq k j then none else get t j s))
  unfolding delete get
  get-delete t j = ground (arith, find-erase k j s.table, text_eq_iff k j)

module _ (now : ℕ) (k expected v : Text) (index : ℕ) (s : KvStore) where
  -- CAS succeeds exactly when the table has the key with the expected value. Then the entry has the
  -- new value, the next version and the given index, and keeps its expiry; other keys keep their
  -- entries. When it fails the store is unchanged.
  pub cas_lem :
      (((cas now k expected v index s).0 ≡ true)
        × (e : KvEntry) × (OrderedMap.find k s.table ≡ some e)
        × (e.value ≡ expected)
        × ((j : Text)
            → OrderedMap.find j (cas now k expected v index s).1.table ≡ (
                if text_eq k j
                then some (record e {
                  value = v;
                  version = add64 e.version 1;
                  updated_at = now;
                  raft_index = index;
                })
                else OrderedMap.find j s.table)))
      ⊎ (((cas now k expected v index s).0 ≡ false)
          × ((cas now k expected v index s).1 ≡ s)
          × ((e : KvEntry) → OrderedMap.find k s.table ≡ some e → e.value ≢ expected))
  unfolding cas
  cas_lem = elim (Option-cases (OrderedMap.find k s.table)) [
    | inl absent ↦ rw (absent, cas) (inr (refl, refl, λ e h. cc))
    | inr (e, found) ↦ elim (Bool-cases (text_eq e.value expected)) [
      | inl same ↦
          rw (found, cas)
            (rw same (
              inl (
                refl,
                e,
                refl,
                (text_eq_iff e.value expected).0 same,
                λ j. find-assign k j _ s.table,
              )))
      | inr other ↦
          rw (found, cas)
            (rw other (inr (refl, refl, λ e' h q. ground (arith, text_eq_iff e.value expected))))
    ]
  ]

-- CAS does not look at the expiry: where an entry has run out, Get finds nothing, and still CAS
-- with the entry's value succeeds.
pub cas-expired :
    (now : ℕ) (k v : Text) (index : ℕ) (s : KvStore) (e : KvEntry)
    → OrderedMap.find k s.table ≡ some e
    → expired now e ≡ true
    → (get now k s ≡ none) × ((cas now k e.value v index s).0 ≡ true)
unfolding get cas live
cas-expired now k v index s e found old = ground (arith, text_eq_refl e.value)

-- Put keeps the keys of the table in strictly rising order.
pub put-IsOrdered :
    (now : ℕ) (k v : Text) (index : ℕ) (ttl : Option ℕ) (s : KvStore)
    → IsOrdered s.table
    → IsOrdered (put now k v index ttl s).1.table
unfolding put
put-IsOrdered now k v index ttl s o = assign-IsOrdered k _ s.table o

pub delete-IsOrdered : (k : Text) (s : KvStore) → IsOrdered s.table → IsOrdered (delete k s).1.table
unfolding delete
delete-IsOrdered k s o = ground (arith, erase-IsOrdered k s.table o)

pub cas-IsOrdered :
    (now : ℕ) (k expected v : Text) (index : ℕ) (s : KvStore)
    → IsOrdered s.table
    → IsOrdered (cas now k expected v index s).1.table
unfolding cas
cas-IsOrdered now k expected v index s o = elim (Option-cases (OrderedMap.find k s.table)) [
  | inl absent ↦ rw (absent, cas) o
  | inr (e, found) ↦ elim (Bool-cases (text_eq e.value expected)) [
    | inl same ↦ rw (found, cas) (rw same (assign-IsOrdered k _ s.table o))
    | inr other ↦ rw (found, cas) (rw other o)
  ]
]
