-- ===== src/Api/KvHandler.antt =====
-- api/KVHandler.cpp, with RaftNode::Propose as a whole. A handler returns its response, or `none` where
-- an exception leaves it. `parse`, `dump` and `stoull` stand for the libraries; `wait` is what the other
-- threads make of the node while Propose waits.
pub mod Writes
mod Tests
use distributed_key_value_st.Base.{
  ℕ, ◌≡◌, ◌⊎◌, inl, inr, Bool, true, false, not, ◌||◌, ◌&&◌, Option, none, some, List, [], ◌∷◌,
  ◌++◌, if◌then◌else◌, Text, codes, text_eq, is_empty, starts_with, lookup, ◌>>=◌, length,
}
use distributed_key_value_st.Base.Int.{ℤ, pos, negsuc}
use distributed_key_value_st.Base.Json.{
  Json, Items, Fields, null, boolean, number, string, array, object, done, item, end, field,
  find_field,
}
use distributed_key_value_st.Storage.KvStore
use distributed_key_value_st.Storage.KvStore.{KvEntry}
use distributed_key_value_st.Storage.OrderedMap.{Entries}
use distributed_key_value_st.Raft.Rpc.{OpType, puts, deletes}
use distributed_key_value_st.Raft.Node.State.{RaftNode}
use distributed_key_value_st.Raft.Node.Replication.{is_leader}
use distributed_key_value_st.Raft.Node.Apply.{
  ProposeResult, begin_propose, wait_is_over, end_propose,
}
use distributed_key_value_st.Http.Request.{HttpRequest, get_query_param}
use distributed_key_value_st.Http.Response.{
  HttpResponse, respond_ok, respond_created, no_content, bad_request, not_found, conflict,
  internal_error, service_unavailable,
}

-- RaftNode::Propose, over its two critical sections.
unfoldable pub propose :
    (Json → Text)
    → (RaftNode → RaftNode)
    → Text
    → Text
    → OpType
    → ℤ
    → RaftNode
    → ProposeResult × RaftNode
unfolding begin_propose wait_is_over end_propose
propose dump wait key value op ttl_ms n =
    let (begun, m) = begin_propose dump key value op ttl_ms n in
    elim begun [
      | inl refused ↦ (refused, m)
      | inr index ↦ (end_propose index (wait_is_over index (wait m)) (wait m), wait m)
    ]

-- std::string::find(needle) != npos
unfoldable pub has_text : Text → Text → Bool
unfolding starts_with
has_text needle [] = is_empty needle
has_text needle (c ∷ s) = starts_with (c ∷ s) needle || has_text needle s

module _ (dump : Json → Text) where
  unfoldable pub redirect_to_leader : RaftNode → HttpResponse
  unfolding service_unavailable is_empty
  redirect_to_leader n =
      if is_empty n.leader_id
      then service_unavailable dump (codes "no leader elected")
      else service_unavailable dump (codes "not the leader; redirect to: " ++ n.leader_id)

  -- KVHandler::Get.
  unfoldable pub get_key : ℕ → HttpRequest → RaftNode → Option HttpResponse
  unfolding lookup KvStore.get not_found respond_ok
  get_key now req n = do
    key ← lookup (codes "key") req.path_params
    some (elim (KvStore.get now key n.store) [
      | none ↦ not_found dump (codes "key not found: " ++ key)
      | some e ↦ respond_ok (
          dump (
            object (
              field (codes "key") (string key) (
                field (codes "value") (string e.value) (
                  field (codes "version") (number (pos e.version))
                    (field (codes "raft_index") (number (pos e.raft_index)) end))))))
    ])

-- The parts of a body that Put reads: the value and the time to live. `inl` is a response; `none` an
-- exception.
unfoldable pub put_fields : (Json → Text) → Option Json → Option (HttpResponse ⊎ (Text × ℤ))
unfolding bad_request find_field
put_fields dump none = some (inl (bad_request dump (codes "invalid JSON body")))
put_fields dump (some (object fields)) = elim (find_field (codes "value") fields) [
  | none ↦ some (inl (bad_request dump (codes "missing field: value")))
  | some (string value) ↦ elim (find_field (codes "ttl_ms") fields) [
    | none ↦ some (inr (value, negsuc 0))
    | some null ↦ some (inr (value, negsuc 0))
    | some (number ttl_ms) ↦ some (inr (value, ttl_ms))
    | some _ ↦ none
  ]
  | some _ ↦ none
]
put_fields dump (some _) = some (inl (bad_request dump (codes "missing field: value")))

module _ (parse : Text → Option Json) (dump : Json → Text) (wait : RaftNode → RaftNode) where
  -- What Put answers to the result of Propose.
  unfoldable pub put_answer : Text → ProposeResult → RaftNode → HttpResponse
  unfolding redirect_to_leader has_text internal_error respond_created
  put_answer key r n =
      if r.ok
      then respond_created (
          dump (
            object (
              field (codes "key") (string key) (
                field (codes "version") (number (pos 1))
                  (field (codes "raft_index") (number (pos r.index)) end)))))
      else if has_text (codes "not leader") r.error
      then redirect_to_leader dump n
      else internal_error dump r.error

  -- KVHandler::Put.
  unfoldable pub put_key : HttpRequest → RaftNode → Option HttpResponse × RaftNode
  unfolding lookup is_empty bad_request put_fields is_leader redirect_to_leader propose put_answer
  put_key req n = elim (lookup (codes "key") req.path_params) [
    | none ↦ (none, n)
    | some key ↦
        if is_empty key
        then (some (bad_request dump (codes "key cannot be empty")), n)
        else elim (put_fields dump (parse req.body)) [
          | none ↦ (none, n)
          | some (inl refused) ↦ (some refused, n)
          | some (inr (value, ttl_ms)) ↦
              if not (is_leader n.role)
              then (some (redirect_to_leader dump n), n)
              else let (r, m) = propose dump wait key value puts ttl_ms n in
                (some (put_answer key r m), m)
        ]
  ]

  -- KVHandler::Delete.
  unfoldable pub delete_key : ℕ → HttpRequest → RaftNode → Option HttpResponse × RaftNode
  unfolding lookup is_leader redirect_to_leader KvStore.get not_found propose internal_error
  delete_key now req n = elim (lookup (codes "key") req.path_params) [
    | none ↦ (none, n)
    | some key ↦
        if not (is_leader n.role)
        then (some (redirect_to_leader dump n), n)
        else elim (KvStore.get now key n.store) [
          | none ↦ (some (not_found dump (codes "key not found: " ++ key)), n)
          | some e ↦
              let (r, m) = propose dump wait key [] deletes (negsuc 0) n in
              (some (if r.ok then no_content else internal_error dump r.error), m)
        ]
  ]

-- One object of the list that List returns, and the array.
unfoldable pub list_items : Entries KvEntry → Items
list_items [] = done
list_items ((k, e) ∷ entries) =
    item
      (object (
        field (codes "key") (string k) (
          field (codes "value") (string e.value)
            (field (codes "version") (number (pos e.version)) end))))
      (list_items entries)

-- KVHandler::List.
unfoldable pub list_keys :
    (Text → Option ℕ) → (Json → Text) → ℕ → HttpRequest → RaftNode → Option HttpResponse
unfolding get_query_param KvStore.scan list_items respond_ok
list_keys stoull dump now req n =
    let prefix : Text = elim (get_query_param (codes "prefix") req) [ none ↦ [] | some p ↦ p ] in
    let respond : Option ℕ → HttpResponse = λ limit.
      let entries = KvStore.scan now prefix limit n.store in
      respond_ok (
        dump (
          object (
            field (codes "items") (array (list_items entries))
              (field (codes "count") (number (pos (length entries))) end)))) in
    elim (get_query_param (codes "limit") req) [
      | none ↦ some (respond none)
      | some text ↦ elim (stoull text) [ none ↦ none | some limit ↦ some (respond (some limit)) ]
    ]

-- The two fields that CompareAndSwap reads.
unfoldable pub cas_fields : (Json → Text) → Option Json → Option (HttpResponse ⊎ (Text × Text))
unfolding bad_request find_field
cas_fields dump none = some (inl (bad_request dump (codes "invalid JSON body")))
cas_fields dump (some (object fields)) = elim (find_field (codes "expected") fields) [
  | none ↦ some (inl (bad_request dump (codes "missing expected or value field")))
  | some expected ↦ elim (find_field (codes "value") fields) [
    | none ↦ some (inl (bad_request dump (codes "missing expected or value field")))
    | some value ↦ elim expected [
      | string old ↦ elim value [ string new ↦ some (inr (old, new)) | _ ↦ none ]
      | _ ↦ none
    ]
  ]
]
cas_fields dump (some _) = some (inl (bad_request dump (codes "missing expected or value field")))

module _ (parse : Text → Option Json) (dump : Json → Text) where
  -- KVHandler::CompareAndSwap.
  unfoldable pub compare_and_swap : ℕ → HttpRequest → RaftNode → Option HttpResponse × RaftNode
  unfolding lookup cas_fields is_leader redirect_to_leader KvStore.cas conflict respond_ok
  compare_and_swap now req n = elim (lookup (codes "key") req.path_params) [
    | none ↦ (none, n)
    | some key ↦ elim (cas_fields dump (parse req.body)) [
      | none ↦ (none, n)
      | some (inl refused) ↦ (some refused, n)
      | some (inr (expected, new_value)) ↦
          if not (is_leader n.role)
          then (some (redirect_to_leader dump n), n)
          else let (ok, store) = KvStore.cas now key expected new_value 0 n.store in
            (
              some (
                  if ok
                  then respond_ok (
                      dump (
                        object (
                          field (codes "key") (string key)
                            (field (codes "updated") (boolean true) end))))
                  else conflict dump (codes "compare-and-swap failed: value mismatch")),
              record n { store = store },
            )
    ]
  ]
