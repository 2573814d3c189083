-- ===== src/Api/Watch.antt =====
-- api/WatchHandler.cpp: a request that waits for the next change of a key or of the keys with a prefix.
-- `stoll` and `dump` stand for the libraries; `wait` is what the other threads make of the store until
-- wait_for returns, `resume` what they make of it from then until Unwatch.
pub mod Changes
mod Tests
use distributed_key_value_st.Base.{
  ℕ, Bool, true, false, Option, none, some, List, [], ◌∷◌, if◌then◌else◌, ◌==◌, Text, codes,
  text_eq, lookup, length, drop,
}
use distributed_key_value_st.Base.Int.{ℤ, pos}
use distributed_key_value_st.Base.Json.{Json, number, string, boolean, object, end, field}
use distributed_key_value_st.Storage.KvStore.{KvEntry, KvStore, Event, watch, unwatch}
use distributed_key_value_st.Http.Request.{HttpRequest, get_query_param}
use distributed_key_value_st.Http.Response.{HttpResponse, respond_ok, no_content}

-- req.GetQueryParam("prefix").value_or("false") == "true"
unfoldable pub wants_prefix : HttpRequest → Bool
unfolding get_query_param
wants_prefix req = elim (get_query_param (codes "prefix") req) [
  | none ↦ false
  | some text ↦ text_eq text (codes "true")
]

-- The milliseconds to wait; `none` where std::stoll throws.
unfoldable pub timeout_of : (Text → Option ℤ) → HttpRequest → Option ℤ
unfolding get_query_param
timeout_of stoll req = elim (get_query_param (codes "timeout_ms") req) [
  | none ↦ some (pos 30000)
  | some text ↦ stoll text
]

-- What the callback of the watch has left in `changedKey` and `changedEntry`: its last run.
unfoldable pub last_event : ℕ → List Event → Option Event
last_event id [] = none
last_event id (v ∷ events) =
    let later = last_event id events in
    elim later [ some w ↦ some w | none ↦ if v.watch_id == id then some v else none ]

-- The runs of callbacks between two states of the store.
unfoldable pub events_since : KvStore → KvStore → List Event
events_since s t = drop (length s.fired) t.fired

unfoldable pub change_body : Text → Option KvEntry → Json
change_body key (some e) = object (
    field (codes "key") (string key) (
      field (codes "value") (string e.value) (
        field (codes "version") (number (pos e.version)) (
          field (codes "raft_index") (number (pos e.raft_index))
            (field (codes "deleted") (boolean false) end)))))
change_body key none =
    object (field (codes "key") (string key) (field (codes "deleted") (boolean true) end))

-- The body from the two variables, which are empty until the callback runs.
unfoldable pub report : (Json → Text) → Option Event → HttpResponse
unfolding change_body respond_ok
report dump none = respond_ok (dump (change_body [] none))
report dump (some v) = respond_ok (dump (change_body v.key v.entry))

-- The response, from what the callback had left when wait_for returned, and what it has left since.
unfoldable pub respond : (Json → Text) → Option Event → Option Event → HttpResponse
unfolding report
respond dump none last = no_content
respond dump (some v) last = report dump last

module _ (stoll : Text → Option ℤ) (dump : Json → Text) (wait : ℤ → KvStore → KvStore)
    (resume : KvStore → KvStore) where
  -- WatchHandler::Watch; `none` where an exception leaves it.
  unfoldable pub watch_key : HttpRequest → KvStore → Option HttpResponse × KvStore
  unfolding lookup wants_prefix timeout_of watch unwatch last_event events_since respond
  watch_key req s = elim (lookup (codes "key") req.path_params) [
    | none ↦ (none, s)
    | some key ↦ elim (timeout_of stoll req) [
      | none ↦ (none, s)
      | some timeout_ms ↦
          let (id, watched) = watch key (wants_prefix req) s in
          let woken = wait timeout_ms watched in
          let s' = resume woken in
          (
            some (
                respond dump (last_event id (events_since s woken))
                  (last_event id (events_since s s'))),
            unwatch id s',
          )
    ]
  ]
