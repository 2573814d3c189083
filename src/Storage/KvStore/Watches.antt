-- ===== src/Storage/KvStore/Watches.antt =====
-- storage/KVStore.cpp: which callbacks a change of a key runs.
use distributed_key_value_st.Base.{
  ℕ, suc, ◌+◌, ◌<◌, ◌^◌, ◌≡◌, refl, ◌∙◌, ap, Bool, not, Option, none, some, List, [], ◌∷◌, ◌++◌,
  map, arith, if◌then◌else◌, ◌==◌, Text, keep_if, count_if, All, Bool-cases, Option-cases, inl, inr,
  text_eq, starts_with, add64,
}
use distributed_key_value_st.Storage.OrderedMap
use distributed_key_value_st.Storage.KvStore.{
  KvEntry, KvStore, Watcher, Event, fires, notify_watchers, put, delete, cas, new_entry, swapped,
  watch, unwatch,
}

-- How often the callback of the watch has run.
abbrev pub runs : ℕ → KvStore → ℕ
runs id s = count_if (λ v. v.watch_id == id) s.fired

abbrev event : Text → Option KvEntry → ℕ × Watcher → Event
event key entry w = record { watch_id = w.0; key = key; entry = entry }

count_if-append {ℓ} :
    {A : Type ℓ} (p : A → Bool) (xs ys : List A)
    → count_if p (xs ++ ys) ≡ count_if p xs + count_if p ys
count_if-append p [] ys = omega arith
count_if-append p (x ∷ xs) ys = ground (arith, count_if-append p xs ys)

-- The matching watches with this id.
abbrev matching : ℕ → Text → List (ℕ × Watcher) → ℕ
matching id key ws = count_if (λ w. w.0 == id) (keep_if (fires key) ws)

count_if-events :
    (id : ℕ) (key : Text) (entry : Option KvEntry) (ws : List (ℕ × Watcher))
    → count_if (λ v. v.watch_id == id) (map (event key entry) (keep_if (fires key) ws))
      ≡ matching id key ws
count_if-events id key entry [] = refl
count_if-events id key entry (w ∷ ws) = ground (arith, count_if-events id key entry ws)

runs-notify_watchers :
    (id : ℕ) (key : Text) (entry : Option KvEntry) (s : KvStore)
    → runs id (notify_watchers key entry s) ≡ runs id s + matching id key s.watches
unfolding notify_watchers
runs-notify_watchers id key entry s =
    count_if-append _ s.fired _ ∙ ap (◌+◌ (runs id s)) (count_if-events id key entry s.watches)

-- The ids that the store will give are new.
abbrev pub HasNewIds : KvStore → Type 0
HasNewIds s = All (λ w. w.0 < s.next_watch_id) s.watches

matching-new :
    (id : ℕ) (w : Watcher) (key : Text) (ws : List (ℕ × Watcher))
    → All (λ w. w.0 < id) ws
    → matching id key (ws ++ (id, w) ∷ []) ≡ (if fires key (id, w) then 1 else 0)
matching-new id w key [] h = ground arith
matching-new id w key (x ∷ ws) h = ground (arith, matching-new id w key ws h.1)

matching-removed :
    (id : ℕ) (key : Text) (ws : List (ℕ × Watcher))
    → matching id key (keep_if (λ w. not (w.0 == id)) ws) ≡ 0
matching-removed id key [] = refl
matching-removed id key (x ∷ ws) = ground (arith, matching-removed id key ws)

-- The change of a key that each method reports, if it reports one.
pub data Change : Type 0 where
  puts : ℕ → Text → Text → ℕ → Option ℕ → Change
  deletes : Text → Change
  swaps : ℕ → Text → Text → Text → ℕ → Change

abbrev pub changed_key : Change → Text
changed_key (puts now k v i ttl) = k
changed_key (deletes k) = k
changed_key (swaps now k x v i) = k

unfoldable pub apply : Change → KvStore → Bool × KvStore
apply (puts now k v i ttl) s = put now k v i ttl s
apply (deletes k) s = delete k s
apply (swaps now k x v i) s = cas now k x v i s

runs-apply :
    (id : ℕ) (c : Change) (s : KvStore)
    → runs id (apply c s).1
      ≡ runs id s + (if (apply c s).0 then matching id (changed_key c) s.watches else 0)
unfolding apply put delete cas
runs-apply id (puts now k v i ttl) s =
    let entry = new_entry now v i ttl (OrderedMap.find k s.table) in
    runs-notify_watchers id k (some entry) (record s { table = OrderedMap.assign k entry s.table })
runs-apply id (deletes k) s = elim (Option-cases (OrderedMap.find k s.table)) [
  | inl absent ↦ rw (absent, delete) (omega arith)
  | inr (e, found) ↦
      rw (found, delete)
        (runs-notify_watchers id k none (record s { table = OrderedMap.erase k s.table }))
]
runs-apply id (swaps now k x v i) s = elim (Option-cases (OrderedMap.find k s.table)) [
  | inl absent ↦ rw (absent, cas) (omega arith)
  | inr (e, found) ↦ elim (Bool-cases (text_eq e.value x)) [
    | inl same ↦
        let entry = swapped now v i e in
        rw (found, cas)
          (rw same (
            runs-notify_watchers id k (some entry)
              (record s { table = OrderedMap.assign k entry s.table })))
    | inr other ↦ rw (found, cas) (rw other (omega arith))
  ]
]

-- Where the ids that the store will give are new, a new watch of a key or a prefix runs its
-- callback once for each Put, Delete and CAS that succeeds on a key that it matches, and not for
-- any other key nor for a failed call.
watch-runs :
    (pattern_text : Text) (is_prefix : Bool) (s : KvStore) (c : Change)
    → HasNewIds s
    → let (id, s') = watch pattern_text is_prefix s in
      runs id (apply c s').1
      ≡ runs id s
        + (if (apply c s').0
            then (if (if is_prefix
                  then starts_with (changed_key c) pattern_text
                  else text_eq (changed_key c) pattern_text)
                then 1
                else 0)
            else 0)
unfolding watch fires
watch-runs pattern_text is_prefix s c h =
    let w : Watcher = record { pattern_text = pattern_text; is_prefix = is_prefix } in
    let s' = (watch pattern_text is_prefix s).1 in
    runs-apply s.next_watch_id c s'
    ∙ ap (λ n. runs s.next_watch_id s + (if (apply c s').0 then n else 0))
        (matching-new s.next_watch_id w (changed_key c) s.watches h)

-- After Unwatch no Put, Delete or CAS runs the callback of the watch.
unwatch_silences :
    (id : ℕ) (s : KvStore) (c : Change) → runs id (apply c (unwatch id s)).1 ≡ runs id s
unfolding unwatch
unwatch_silences id s c =
    let s' = unwatch id s in
    runs-apply id c s' ∙ ground (arith, matching-removed id (changed_key c) s.watches)

below_next :
    (n : ℕ) (w : Watcher) (ws : List (ℕ × Watcher))
    → All (λ x. x.0 < n) ws
    → suc n < 2 ^ 64
    → All (λ x. x.0 < add64 n 1) (ws ++ (n, w) ∷ [])
below_next n w [] h k = (omega arith, tt)
below_next n w (x ∷ ws) h k = (omega arith, below_next n w ws h.1 k)

-- Watch keeps the ids that will be given new, as long as the counter does not wrap around.
watch-HasNewIds :
    (pattern_text : Text) (is_prefix : Bool) (s : KvStore)
    → HasNewIds s
    → suc s.next_watch_id < 2 ^ 64
    → HasNewIds (watch pattern_text is_prefix s).1
unfolding watch
watch-HasNewIds pattern_text is_prefix s h k = below_next s.next_watch_id _ s.watches h k
