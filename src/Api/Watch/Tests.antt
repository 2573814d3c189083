-- ===== src/Api/Watch/Tests.antt =====
-- api/WatchHandler.cpp: a request for the next change of the keys that begin with "a".
use distributed_key_value_st.Base.{
  ◌≡◌, refl, false, arith, Option, none, some, [], ◌∷◌, ◌&&◌, if◌then◌else◌, Text, codes, text_eq,
  starts_with, lookup,
}
use distributed_key_value_st.Base.Int.{ℤ, pos}
use distributed_key_value_st.Base.Json.{Json, string, object, field}
use distributed_key_value_st.Storage.OrderedMap
use distributed_key_value_st.Storage.KvStore.{KvStore, empty, watch, put, delete, fires}
use distributed_key_value_st.Storage.KvStore.Watches.{Change, puts, deletes, apply, changed_key}
use distributed_key_value_st.Http.Request.{HttpRequest, no_request}
use distributed_key_value_st.Http.Response.{respond_ok, no_content}
use distributed_key_value_st.Api.Watch.{wants_prefix, timeout_of, change_body, watch_key}
use distributed_key_value_st.Api.Watch.Changes.{watch_key-change}

-- The first text of a body.
abbrev dump : Json → Text
dump (object (field k (string key) rest)) = key
dump j = []

abbrev stoll : Text → Option ℤ
stoll text = none

abbrev request : HttpRequest
request = record no_request {
  query_params = (codes "prefix", codes "true") ∷ [];
  path_params = (codes "key", codes "a") ∷ [];
}

-- Another request waits for the key "b".
abbrev store : KvStore
store = record empty {
  next_watch_id = 2;
  watches = (1, record { pattern_text = codes "b"; is_prefix = false }) ∷ [];
}

abbrev change : Change
change = puts 4 (codes "ac") (codes "9") 6 none

answered :
    (watch_key stoll dump (λ ms t. (apply change t).1) (λ t. t) request store).0
    ≡ some (respond_ok (codes "ac"))
unfolding watch_key apply watch text_eq put fires starts_with
answered = refl

-- A delete of a key that the store does not have.
unanswered :
    (watch_key stoll dump (λ ms t. (apply (deletes (codes "ac")) t).1) (λ t. t) request store).0
    ≡ some no_content
unfolding watch_key apply watch text_eq delete OrderedMap.find
unanswered = refl

-- The change comes after the wait.
late :
    (watch_key stoll dump (λ ms t. t) (λ t. (apply change t).1) request store).0 ≡ some no_content
unfolding watch_key apply watch text_eq
late = refl

watch_key-change_example :
    let (answer, s') = watch_key stoll dump (λ ms t. (apply change t).1) (λ t. t) request store in
    let k = changed_key change in
    let (ok, changed) = apply change store in
    (answer
      ≡ some (
          if ok
            && (if wants_prefix request then starts_with k (codes "a") else text_eq k (codes "a"))
          then respond_ok (dump (change_body k (OrderedMap.find k changed.table)))
          else no_content))
    × (s'.table ≡ changed.table)
    × (s'.watches ≡ store.watches)
unfolding lookup text_eq timeout_of
watch_key-change_example =
    watch_key-change stoll dump request store (codes "a") (pos 30000) change refl refl
      (ground arith, tt)
