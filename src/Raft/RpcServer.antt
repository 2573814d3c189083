-- ===== src/Raft/RpcServer.antt =====
-- raft/RaftRpcServer.cpp: HandleConn, from what recv gives to what is handed to send. `parse` and `dump`
-- stand for nlohmann::json; `clock` is the clock reading of the k-th request, and `others` what the
-- node's other threads make of it before that. The sockets and threads are left out.
pub mod Answers
use distributed_key_value_st.Base.{
  ℕ, suc, ◌++◌, Option, none, some, List, [], ◌∷◌, if◌then◌else◌, ◌==◌, Text,
}
use distributed_key_value_st.Base.Json.{Json}
use distributed_key_value_st.Raft.Wire.{
  response_json, vote_response_json, deserialize_request, deserialize_vote_request,
}
use distributed_key_value_st.Raft.Frame.{RpcFrame, encode}
use distributed_key_value_st.Raft.Stream.{Turn, goes_on, breaks, throws, Drained, receive_all}
use distributed_key_value_st.Raft.Node.State.{RaftNode}
use distributed_key_value_st.Raft.Node.Handlers.{handle_append_entries, handle_request_vote}

-- One connection: the node, the number of requests so far, and the buffers handed to send.
pub record Connection : Type 0 where
  pub node : RaftNode
  pub requests : ℕ
  pub sent : List (List ℕ)

-- resp.Encode(), and send.
unfoldable pub send_back : RpcFrame → RaftNode → Connection → Turn Connection
send_back resp n c = elim (encode resp) [
  | none ↦ throws
  | some bytes ↦
      goes_on (record { node = n; requests = suc c.requests; sent = c.sent ++ bytes ∷ [] })
]

module _ (parse : Text → Option Json) (dump : Json → Text) (clock : ℕ → ℕ)
    (others : ℕ → RaftNode → RaftNode) where
  unfoldable pub answer_append_entries : RpcFrame → Connection → Turn Connection
  unfolding send_back
  answer_append_entries f c = elim (deserialize_request parse dump f.payload) [
    | none ↦ throws
    | some req ↦
        let (r, n) = handle_append_entries (clock c.requests) req (others c.requests c.node) in
        send_back (record { type = 2; seq = f.seq; payload = dump (response_json r) }) n c
  ]

  unfoldable pub answer_request_vote : RpcFrame → Connection → Turn Connection
  unfolding send_back
  answer_request_vote f c = elim (deserialize_vote_request parse f.payload) [
    | none ↦ throws
    | some req ↦
        let (r, n) = handle_request_vote (clock c.requests) req (others c.requests c.node) in
        send_back (record { type = 4; seq = f.seq; payload = dump (vote_response_json r) }) n c
  ]

  -- One frame.
  unfoldable pub serve : RpcFrame → Connection → Turn Connection
  unfolding answer_append_entries answer_request_vote
  serve f c =
      if f.type == 1
      then answer_append_entries f c
      else if f.type == 3
      then answer_request_vote f c
      else breaks c

  unfoldable pub handle_conn : List (List ℕ) → RaftNode → Drained Connection
  unfolding serve
  handle_conn chunks n = receive_all serve chunks [] (record { node = n; requests = 0; sent = [] })
