-- ===== src/Api/Watch/Changes.antt =====
-- api/WatchHandler.cpp: what a waiting request answers to a change.
use distributed_key_value_st.Base.{
  ℕ, ◌<◌, ◌≡◌, refl, sym, ap, ◌∙◌, Bool, true, false, not, Option, none, some, List, [], ◌∷◌, ◌++◌,
  map, arith, ◌&&◌, if◌then◌else◌, ◌==◌, Text, codes, text_eq, starts_with, lookup, keep_if, All,
  Bool-cases, Option-cases, inl, inr, length, drop, append_nil, text_eq_refl,
}
use distributed_key_value_st.Base.Int.{ℤ}
use distributed_key_value_st.Base.Json.{Json}
use distributed_key_value_st.Storage.OrderedMap
use distributed_key_value_st.Storage.OrderedMap.{Entries, find-assign, find-erase}
use distributed_key_value_st.Storage.KvStore.{
  KvEntry, KvStore, Watcher, Event, fires, notify_watchers, put, delete, cas, new_entry, swapped,
  watch, unwatch,
}
use distributed_key_value_st.Storage.KvStore.Watches.{
  HasNewIds, Change, puts, deletes, swaps, apply, changed_key,
}
use distributed_key_value_st.Http.Request.{HttpRequest}
use distributed_key_value_st.Http.Response.{respond_ok, no_content}
use distributed_key_value_st.Api.Watch.{
  wants_prefix, timeout_of, last_event, events_since, change_body, report, respond, watch_key,
}

abbrev event : Text → Option KvEntry → ℕ × Watcher → Event
event key entry w = record { watch_id = w.0; key = key; entry = entry }

drop-append {ℓ} : {A : Type ℓ} (xs ys : List A) → drop (length xs) (xs ++ ys) ≡ ys
drop-append [] ys = refl
drop-append (x ∷ xs) ys = drop-append xs ys

-- The store after a change: its watches, and the callbacks that ran.
record Changed (key : Text) (ok : Bool) (s t : KvStore) : Type 0 where
  same_watches : t.watches ≡ s.watches
  ran :
      t.fired
      ≡ s.fired
        ++ (if ok
            then map (event key (OrderedMap.find key t.table)) (keep_if (fires key) s.watches)
            else [])

notified :
    (key : Text) (entry : Option KvEntry) (s : KvStore) (m : Entries KvEntry)
    → OrderedMap.find key m ≡ entry
    → Changed key true s (notify_watchers key entry (record s { table = m }))
unfolding notify_watchers
notified key entry s m found = record { same_watches = refl; ran = rw found refl }

unchanged : (key : Text) (s : KvStore) → Changed key false s s
unchanged key s = record { same_watches = refl; ran = sym (append_nil s.fired) }

find_assigned :
    (k : Text) (e : KvEntry) (m : Entries KvEntry)
    → OrderedMap.find k (OrderedMap.assign k e m) ≡ some e
find_assigned k e m = rw (find-assign k k e m, text_eq_refl k) refl

find_erased : (k : Text) (m : Entries KvEntry) → OrderedMap.find k (OrderedMap.erase k m) ≡ none
find_erased k m = rw (find-erase k k m, text_eq_refl k) refl

apply-Changed : (c : Change) (s : KvStore) → Changed (changed_key c) (apply c s).0 s (apply c s).1
unfolding apply put delete cas
apply-Changed (puts now k v i ttl) s =
    let e = new_entry now v i ttl (OrderedMap.find k s.table) in
    notified k (some e) s (OrderedMap.assign k e s.table) (find_assigned k e s.table)
apply-Changed (deletes k) s = elim (Option-cases (OrderedMap.find k s.table)) [
  | inl absent ↦ rw (absent, delete) (unchanged k s)
  | inr (e, found) ↦
      rw (found, delete) (notified k none s (OrderedMap.erase k s.table) (find_erased k s.table))
]
apply-Changed (swaps now k x v i) s = elim (Option-cases (OrderedMap.find k s.table)) [
  | inl absent ↦ rw (absent, cas) (unchanged k s)
  | inr (e, found) ↦ elim (Bool-cases (text_eq e.value x)) [
    | inl same ↦
        let e' = swapped now v i e in
        rw (found, cas)
          (rw same
            (notified k (some e') s (OrderedMap.assign k e' s.table) (find_assigned k e' s.table)))
    | inr other ↦ rw (found, cas) (rw other (unchanged k s))
  ]
]

-- Whether a change succeeds, and the table that it leaves, do not depend on the watches.
apply-watches :
    (c : Change) (s : KvStore) (id : ℕ) (ws : List (ℕ × Watcher))
    → let t : KvStore = record s { next_watch_id = id; watches = ws } in
      ((apply c t).0 ≡ (apply c s).0) × ((apply c t).1.table ≡ (apply c s).1.table)
unfolding apply put delete cas notify_watchers
apply-watches (puts now k v i ttl) s id ws = (refl, refl)
apply-watches (deletes k) s id ws = elim (Option-cases (OrderedMap.find k s.table)) [
  | inl absent ↦ rw (absent, delete) (refl, refl)
  | inr (e, found) ↦ rw (found, delete) (refl, refl)
]
apply-watches (swaps now k x v i) s id ws = elim (Option-cases (OrderedMap.find k s.table)) [
  | inl absent ↦ rw (absent, cas) (refl, refl)
  | inr (e, found) ↦ elim (Bool-cases (text_eq e.value x)) [
    | inl same ↦ rw (found, cas) (rw same (refl, refl))
    | inr other ↦ rw (found, cas) (rw other (refl, refl))
  ]
]

last_event-new :
    (id : ℕ) (w : Watcher) (key : Text) (entry : Option KvEntry) (ws : List (ℕ × Watcher))
    → All (λ w. w.0 < id) ws
    → last_event id (map (event key entry) (keep_if (fires key) (ws ++ (id, w) ∷ [])))
      ≡ (if fires key (id, w) then some (event key entry (id, w)) else none)
unfolding last_event
last_event-new id w key entry [] h = ground arith
last_event-new id w key entry (x ∷ ws) h = ground (arith, last_event-new id w key entry ws h.1)

-- Unwatch takes a new watch back.
removed :
    (id : ℕ) (w : Watcher) (ws : List (ℕ × Watcher))
    → All (λ w. w.0 < id) ws
    → keep_if (λ w. not (w.0 == id)) (ws ++ (id, w) ∷ []) ≡ ws
removed id w [] h = ground arith
removed id w (x ∷ ws) h = ground (arith, removed id w ws h.1)

-- The callbacks that a change runs while a new watch is there.
changes_seen :
    (c : Change) (s : KvStore) (id : ℕ) (ws : List (ℕ × Watcher))
    → events_since s (apply c (record s { next_watch_id = id; watches = ws })).1 ≡ (
        if (apply c s).0
        then map
            (event (changed_key c) (OrderedMap.find (changed_key c) (apply c s).1.table))
            (keep_if (fires (changed_key c)) ws)
        else [])
unfolding events_since
changes_seen c s id ws =
    let k = changed_key c in
    let t : KvStore = record s { next_watch_id = id; watches = ws } in
    let events : Bool → Entries KvEntry → List Event =
      λ ok m. if ok then map (event k (OrderedMap.find k m)) (keep_if (fires k) ws) else [] in
    let (same_ok, same_table) = apply-watches c s id ws in
    ap (drop (length s.fired)) (apply-Changed c t).ran
    ∙ drop-append s.fired (events (apply c t).0 (apply c t).1.table)
    ∙ ap (λ ok. events ok (apply c t).1.table) same_ok
    ∙ ap (events (apply c s).0) same_table

-- What the callback of a new watch has left behind a change.
seen_lem :
    (c : Change) (key : Text) (is_prefix : Bool) (s : KvStore)
    → HasNewIds s
    → let (id, t) = watch key is_prefix s in
      let w : Watcher = record { pattern_text = key; is_prefix = is_prefix } in
      let k = changed_key c in
      last_event id (events_since s (apply c t).1) ≡ (
        if (apply c s).0 && fires k (id, w)
        then some (event k (OrderedMap.find k (apply c s).1.table) (id, w))
        else none)
unfolding watch last_event
seen_lem c key is_prefix s h =
    let w : Watcher = record { pattern_text = key; is_prefix = is_prefix } in
    let k = changed_key c in
    let t = (watch key is_prefix s).1 in
    ap (last_event s.next_watch_id) (changes_seen c s t.next_watch_id t.watches)
    ∙ (elim (Bool-cases (apply c s).0) [
      | inl ok ↦
          rw ok
            (last_event-new s.next_watch_id w k (OrderedMap.find k (apply c s).1.table) s.watches h)
      | inr failed ↦ rw failed refl
    ])

respond-if :
    (dump : Json → Text) (b : Bool) (v : Event)
    → let e : Option Event = if b then some v else none in
      respond dump e e ≡ (if b then respond_ok (dump (change_body v.key v.entry)) else no_content)
unfolding respond report
respond-if dump true v = refl
respond-if dump false v = refl

-- With a store where the ids that it will give are new, a request with a key and with a readable
-- timeout, during whose wait one change is made by Put, Delete or CAS: when the change succeeds and
-- its key is the one that is watched, or begins with it if a prefix is watched, Watch answers with
-- that key and the entry that the store then has of it, or that it has none; otherwise it answers
-- 204. The store has the table that the change leaves, and its watches are those from before.
pub watch_key-change :
    (stoll : Text → Option ℤ) (dump : Json → Text) (req : HttpRequest) (s : KvStore) (key : Text)
    (timeout_ms : ℤ) (c : Change)
    → lookup (codes "key") req.path_params ≡ some key
    → timeout_of stoll req ≡ some timeout_ms
    → HasNewIds s
    → let (answer, s') = watch_key stoll dump (λ ms t. (apply c t).1) (λ t. t) req s in
      let k = changed_key c in
      let (ok, changed) = apply c s in
      (answer
        ≡ some (
            if ok && (if wants_prefix req then starts_with k key else text_eq k key)
            then respond_ok (dump (change_body k (OrderedMap.find k changed.table)))
            else no_content))
      × (s'.table ≡ changed.table)
      × (s'.watches ≡ s.watches)
unfolding watch_key watch unwatch fires
watch_key-change stoll dump req s key timeout_ms c has_key has_timeout h =
    let is_prefix = wants_prefix req in
    let w : Watcher = record { pattern_text = key; is_prefix = is_prefix } in
    let k = changed_key c in
    let t = (watch key is_prefix s).1 in
    let seen = seen_lem c key is_prefix s h in
    let e = event k (OrderedMap.find k (apply c s).1.table) (s.next_watch_id, w) in
    rw (has_key, has_timeout, watch_key)
      (
        ap some (ap (λ v. respond dump v v) seen ∙ respond-if dump _ e),
        (apply-watches c s t.next_watch_id t.watches).1,
        ap (keep_if (λ v. not (v.0 == s.next_watch_id))) (apply-Changed c t).same_watches
            ∙ removed s.next_watch_id w s.watches h,
      )
