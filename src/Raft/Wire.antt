-- ===== src/Raft/Wire.antt =====
-- raft/RaftRPC.cpp: the texts of entries and messages. `parse` and `dump` stand for nlohmann::json;
-- `none` is an exception. An operation's number is 1, 2 or 3.
pub mod RoundTrip
use distributed_key_value_st.Base.{
  ℕ, ◌-◌, ◌%◌, ◌^◌, Bool, Option, none, some, List, [], ◌∷◌, if◌then◌else◌, ◌==◌, Text, codes,
  ◌>>=◌,
}
use distributed_key_value_st.Base.Int.{ℤ, pos, negsuc}
use distributed_key_value_st.Base.Json.{
  Json, Items, Fields, null, boolean, number, string, array, object, done, item, end, field,
  find_field,
}
use distributed_key_value_st.Storage.Wal.Bytes.{get_u64, get_text}
use distributed_key_value_st.Raft.Rpc.{
  OpType, puts, deletes, no_op, LogEntry, AppendEntriesRequest, AppendEntriesResponse,
  RequestVoteRequest, RequestVoteResponse, entry_json,
}

-- j[key].get<bool>()
unfoldable pub get_bool : Text → Fields → Option Bool
unfolding find_field
get_bool key fields = elim (find_field key fields) [ some (boolean b) ↦ some b | _ ↦ none ]

-- j.value(key, …), with the value for a missing key.
unfoldable pub text_or : Text → Text → Fields → Option Text
unfolding find_field
text_or otherwise key fields = elim (find_field key fields) [
  | none ↦ some otherwise
  | some (string s) ↦ some s
  | some _ ↦ none
]

unfoldable pub int_or : ℤ → Text → Fields → Option ℤ
unfolding find_field
int_or otherwise key fields = elim (find_field key fields) [
  | none ↦ some otherwise
  | some (number n) ↦ some n
  | some _ ↦ none
]

unfoldable pub u64_or : ℕ → Text → Fields → Option ℕ
unfolding find_field
u64_or otherwise key fields = elim (find_field key fields) [
  | none ↦ some otherwise
  | some (number (pos n)) ↦ some (n % 2 ^ 64)
  | some (number (negsuc n)) ↦ some (2 ^ 64 - 1 - n % 2 ^ 64)
  | some _ ↦ none
]

-- static_cast<OpType>(…). A code of none of the three gives the program an OpType without a name; here it
-- is refused.
unfoldable pub op_of : ℕ → Option OpType
op_of code =
    if code == 1
    then some puts
    else if code == 2
    then some deletes
    else if code == 3
    then some no_op
    else none

unfoldable pub entry_of_fields : Fields → Option LogEntry
unfolding get_u64 op_of text_or int_or
entry_of_fields fields = do
  term ← get_u64 (codes "term") fields
  index ← get_u64 (codes "index") fields
  code ← get_u64 (codes "op") fields
  op ← op_of code
  key ← text_or [] (codes "key") fields
  value ← text_or [] (codes "value") fields
  ttl_ms ← int_or (negsuc 0) (codes "ttl_ms") fields
  command ← text_or [] (codes "command") fields
  some (record {
    term = term;
    index = index;
    op_type = op;
    key = key;
    value = value;
    ttl_ms = ttl_ms;
    command = command;
  })

-- The members of a JSON object; operator[] on any other value throws, or what it finds is null.
abbrev pub fields_of : Json → Option Fields
fields_of (object fields) = some fields
fields_of null = some end
fields_of j = none

unfoldable pub response_json : AppendEntriesResponse → Json
response_json r = object (
    field (codes "term") (number (pos r.term)) (
      field (codes "success") (boolean r.success) (
        field (codes "conflict_index") (number (pos r.conflict_index))
          (field (codes "conflict_term") (number (pos r.conflict_term)) end))))

unfoldable pub vote_request_json : RequestVoteRequest → Json
vote_request_json r = object (
    field (codes "term") (number (pos r.term)) (
      field (codes "candidate_id") (string r.candidate_id) (
        field (codes "last_log_index") (number (pos r.last_log_index))
          (field (codes "last_log_term") (number (pos r.last_log_term)) end))))

unfoldable pub vote_response_json : RequestVoteResponse → Json
vote_response_json r = object (
    field (codes "term") (number (pos r.term))
      (field (codes "vote_granted") (boolean r.vote_granted) end))

unfoldable pub request_json : Items → AppendEntriesRequest → Json
request_json entries r = object (
    field (codes "term") (number (pos r.term)) (
      field (codes "leader_id") (string r.leader_id) (
        field (codes "prev_log_index") (number (pos r.prev_log_index)) (
          field (codes "prev_log_term") (number (pos r.prev_log_term)) (
            field (codes "entries") (array entries)
              (field (codes "leader_commit") (number (pos r.leader_commit)) end))))))

-- What a range-based for runs over.
unfoldable pub values : Fields → Items
values end = done
values (field k v fields) = item v (values fields)

unfoldable pub elements : Option Json → Items
unfolding values
elements none = done
elements (some null) = done
elements (some (array items)) = items
elements (some (object fields)) = values fields
elements (some j) = item j done

module _ (parse : Text → Option Json) where
  unfoldable pub deserialize_entry : Text → Option LogEntry
  unfolding entry_of_fields
  deserialize_entry s = do j ← parse s; fields ← fields_of j; entry_of_fields fields

  unfoldable pub deserialize_response : Text → Option AppendEntriesResponse
  unfolding get_u64 get_bool u64_or
  deserialize_response s = do
    j ← parse s
    fields ← fields_of j
    term ← get_u64 (codes "term") fields
    success ← get_bool (codes "success") fields
    conflict_index ← u64_or 0 (codes "conflict_index") fields
    conflict_term ← u64_or 0 (codes "conflict_term") fields
    some (record {
      term = term;
      success = success;
      conflict_index = conflict_index;
      conflict_term = conflict_term;
    })

  unfoldable pub deserialize_vote_request : Text → Option RequestVoteRequest
  unfolding get_u64 get_text
  deserialize_vote_request s = do
    j ← parse s
    fields ← fields_of j
    term ← get_u64 (codes "term") fields
    candidate_id ← get_text (codes "candidate_id") fields
    last_log_index ← get_u64 (codes "last_log_index") fields
    last_log_term ← get_u64 (codes "last_log_term") fields
    some (record {
      term = term;
      candidate_id = candidate_id;
      last_log_index = last_log_index;
      last_log_term = last_log_term;
    })

  unfoldable pub deserialize_vote_response : Text → Option RequestVoteResponse
  unfolding get_u64 get_bool
  deserialize_vote_response s = do
    j ← parse s
    fields ← fields_of j
    term ← get_u64 (codes "term") fields
    vote_granted ← get_bool (codes "vote_granted") fields
    some (record { term = term; vote_granted = vote_granted })

module _ (parse : Text → Option Json) (dump : Json → Text) where
  -- entriesJson
  unfoldable pub entries_json : List LogEntry → Option Items
  unfolding entry_json
  entries_json [] = some done
  entries_json (e ∷ es) = do
    j ← parse (dump (entry_json e))
    items ← entries_json es
    some (item j items)

  unfoldable pub serialize_request : AppendEntriesRequest → Option Text
  unfolding entries_json request_json
  serialize_request r = do entries ← entries_json r.entries; some (dump (request_json entries r))

  -- The loop over j["entries"].
  unfoldable pub deserialize_entries : Items → Option (List LogEntry)
  unfolding deserialize_entry
  deserialize_entries done = some []
  deserialize_entries (item j items) = do
    e ← deserialize_entry parse (dump j)
    es ← deserialize_entries items
    some (e ∷ es)

  unfoldable pub deserialize_request : Text → Option AppendEntriesRequest
  unfolding get_u64 get_text elements deserialize_entries find_field
  deserialize_request s = do
    j ← parse s
    fields ← fields_of j
    term ← get_u64 (codes "term") fields
    leader_id ← get_text (codes "leader_id") fields
    prev_log_index ← get_u64 (codes "prev_log_index") fields
    prev_log_term ← get_u64 (codes "prev_log_term") fields
    leader_commit ← get_u64 (codes "leader_commit") fields
    entries ← deserialize_entries (elements (find_field (codes "entries") fields))
    some (record {
      term = term;
      leader_id = leader_id;
      prev_log_index = prev_log_index;
      prev_log_term = prev_log_term;
      entries = entries;
      leader_commit = leader_commit;
    })
