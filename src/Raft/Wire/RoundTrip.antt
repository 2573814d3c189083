-- ===== src/Raft/Wire/RoundTrip.antt =====
-- raft/RaftRPC.cpp: Deserialize reads back what Serialize writes.
use distributed_key_value_st.Base.{
  ℕ, ◌%◌, ◌^◌, ◌<◌, ◌≡◌, refl, Option, some, List, [], ◌∷◌, Text, text_eq, All, arith,
}
use distributed_key_value_st.Base.Json.{Json, Items, done, item, find_field}
use distributed_key_value_st.Storage.Wal.Bytes.{get_u64, get_text}
use distributed_key_value_st.Raft.Rpc.{
  OpType, puts, deletes, no_op, LogEntry, AppendEntriesRequest, AppendEntriesResponse,
  RequestVoteRequest, RequestVoteResponse, op_code, entry_json,
}
use distributed_key_value_st.Raft.Wire.{
  get_bool, text_or, int_or, u64_or, op_of, entry_of_fields, response_json, vote_request_json,
  vote_response_json, request_json, elements, deserialize_entry, deserialize_response,
  deserialize_vote_request, deserialize_vote_response, entries_json, serialize_request,
  deserialize_entries, deserialize_request,
}

word : (n : ℕ) → n < 2 ^ 64 → n % 2 ^ 64 ≡ n
word n h = omega arith

op_of-op_code : (op : OpType) → op_of (op_code op % 2 ^ 64) ≡ some op
unfolding op_of op_code
op_of-op_code puts = refl
op_of-op_code deletes = refl
op_of-op_code no_op = refl

module _ (parse : Text → Option Json) (dump : Json → Text) where
  -- Parsing reads back what is dumped of the value.
  abbrev pub Reads : Json → Type 0
  Reads j = parse (dump j) ≡ some j

  abbrev pub EntryFits : LogEntry → Type 0
  EntryFits e = Reads (entry_json e) × (e.term < 2 ^ 64) × (e.index < 2 ^ 64)

  deserialize_entry_lem :
      (e : LogEntry) → EntryFits e → deserialize_entry parse (dump (entry_json e)) ≡ some e
  unfolding deserialize_entry entry_of_fields entry_json get_u64 text_or int_or find_field text_eq
  deserialize_entry_lem e (reads, term, index) =
      rw (reads, word e.term term, word e.index index, op_of-op_code e.op_type) refl

  entries_json_lem :
      (es : List LogEntry)
      → All EntryFits es
      → (items : Items) × (entries_json parse dump es ≡ some items)
        × (deserialize_entries parse dump items ≡ some es)
  unfolding entries_json deserialize_entries
  entries_json_lem [] h = (done, refl, refl)
  entries_json_lem (e ∷ es) (fits, rest) =
      let (items, written, read) = entries_json_lem es rest in
      (
        item (entry_json e) items,
        rw (fits.0, written, entries_json) refl,
        rw (deserialize_entry_lem e fits, read, deserialize_entries) refl,
      )

  -- The numbers of a request are uint64_t, and each of its entries can be read back.
  abbrev pub RequestFits : AppendEntriesRequest → Type 0
  RequestFits r =
      (r.term < 2 ^ 64)
      × (r.prev_log_index < 2 ^ 64)
      × (r.prev_log_term < 2 ^ 64)
      × (r.leader_commit < 2 ^ 64)
      × All EntryFits r.entries

  -- AppendEntriesRequest::Serialize writes a text for every request whose entries can be read back, and
  -- Deserialize gives the request back, its entries included, where parsing reads back what is dumped of
  -- the request's object.
  pub deserialize-serialize_request :
      (r : AppendEntriesRequest)
      → RequestFits r
      → ((items : Items)
          → entries_json parse dump r.entries ≡ some items
          → Reads (request_json items r))
      → (s : Text) × (serialize_request parse dump r ≡ some s)
        × (deserialize_request parse dump s ≡ some r)
  unfolding serialize_request deserialize_request request_json get_u64 get_text find_field text_eq
      elements
  deserialize-serialize_request r (term, prev_index, prev_term, commit, es) reads =
      let (items, written, read) = entries_json_lem r.entries es in
      (
        dump (request_json items r),
        rw (written, serialize_request) refl,
        rw
            (
              reads items written,
              word r.term term,
              word r.prev_log_index prev_index,
              word r.prev_log_term prev_term,
              word r.leader_commit commit,
              read,
              deserialize_request,
            )
            refl,
      )

  -- The answers and the request for a vote are read back, too.
  pub deserialize_response_lem :
      (r : AppendEntriesResponse)
      → Reads (response_json r)
      → r.term < 2 ^ 64
      → r.conflict_index < 2 ^ 64
      → r.conflict_term < 2 ^ 64
      → deserialize_response parse (dump (response_json r)) ≡ some r
  unfolding deserialize_response response_json get_u64 get_bool u64_or find_field text_eq
  deserialize_response_lem r reads t i c =
      rw (reads, word r.term t, word r.conflict_index i, word r.conflict_term c) refl

  pub deserialize_vote_request_lem :
      (r : RequestVoteRequest)
      → Reads (vote_request_json r)
      → r.term < 2 ^ 64
      → r.last_log_index < 2 ^ 64
      → r.last_log_term < 2 ^ 64
      → deserialize_vote_request parse (dump (vote_request_json r)) ≡ some r
  unfolding deserialize_vote_request vote_request_json get_u64 get_text find_field text_eq
  deserialize_vote_request_lem r reads t i l =
      rw (reads, word r.term t, word r.last_log_index i, word r.last_log_term l) refl

  pub deserialize_vote_response_lem :
      (r : RequestVoteResponse)
      → Reads (vote_response_json r)
      → r.term < 2 ^ 64
      → deserialize_vote_response parse (dump (vote_response_json r)) ≡ some r
  unfolding deserialize_vote_response vote_response_json get_u64 get_bool find_field text_eq
  deserialize_vote_response_lem r reads t = rw (reads, word r.term t) refl
