-- ===== src/Raft/Peer/Tests.antt =====
-- raft/RaftPeer.cpp and RaftRpcServer.cpp: a heartbeat and its answer, a call that is lost, and a frame
-- that does not parse.
use distributed_key_value_st.Base.{
  ℕ, ◌≡◌, refl, ap, true, false, Option, none, some, List, [], ◌∷◌, arith, if◌then◌else◌, Text,
  codes, text_eq, take, drop, map,
}
use distributed_key_value_st.Base.Json.{Json, Items, done, object, field}
use distributed_key_value_st.Raft.Rpc.{AppendEntriesRequest, AppendEntriesResponse}
use distributed_key_value_st.Raft.Wire.{
  request_json, response_json, serialize_request, entries_json, deserialize_request,
}
use distributed_key_value_st.Raft.Log.{last_index, get_term}
use distributed_key_value_st.Raft.Frame.{RpcFrame, encode}
use distributed_key_value_st.Raft.Stream.{drained, receive_all, take_turns}
use distributed_key_value_st.Raft.Stream.Chunks.{
  Fits, encoded, encode_all, join, receive_all-join, decode-nil,
}
use distributed_key_value_st.Raft.Node.State.{RaftNode}
use distributed_key_value_st.Raft.Node.Handlers.{handle_append_entries}
use distributed_key_value_st.Raft.Node.Tests.{node, heartbeat}
use distributed_key_value_st.Raft.RpcServer.{Connection, serve, handle_conn}
use distributed_key_value_st.Raft.RpcServer.Answers.{AnswersEach, handle_conn-AnswersEach}
use distributed_key_value_st.Raft.Peer.{
  gives, recv_loop, RaftPeer, awaits, refused, terminated, new, connect, disconnect, find, erase,
  resolve, value, begin_call, send_append_entries, append_entries_result,
}
use distributed_key_value_st.Raft.Peer.Calls.{Takes, RequestText, AnswerFits, call_answered}
use distributed_key_value_st.Raft.Peer.Reconnect.{call, answer, act_all, reconnect_terminates}

abbrev request : AppendEntriesRequest
request = heartbeat

abbrev response : AppendEntriesResponse
response = record { term = 1; success = true; conflict_index = 0; conflict_term = 0 }

-- A JSON library for two objects, which tells them apart by their second keys.
abbrev dump : Json → Text
dump (object (field k v (field k' v' fields))) = k'
dump j = []

abbrev parse : Text → Option Json
parse s =
    if text_eq s (codes "success")
    then some (response_json response)
    else if text_eq s (codes "leader_id")
    then some (request_json done request)
    else none

abbrev clock : ℕ → ℕ
clock k = 5

abbrev others : ℕ → RaftNode → RaftNode
others k n = n

abbrev connection : Connection
connection = record { node = node; requests = 0; sent = [] }

abbrev peer : RaftPeer
peer = record new { connected = true; joinable = true; seq_gen = 300; calls = 2 }

abbrev request_frame : RpcFrame
request_frame = record { type = 1; seq = 300; payload = codes "leader_id" }

abbrev answer_frame : RpcFrame
answer_frame = record { type = 2; seq = 300; payload = codes "success" }

abbrev in_two : List ℕ → List (List ℕ)
in_two bytes = take 4 bytes ∷ drop 4 bytes ∷ []

abbrev three_bytes : ℕ → ℕ
three_bytes i = 3

three_bytes-Takes : Takes three_bytes
three_bytes-Takes i = λ h. absurd (omega arith)

responds : (handle_append_entries 5 request node).0 ≡ response
unfolding handle_append_entries last_index get_term
responds = refl

abbrev or_done : Option Items → Items
or_done none = done
or_done (some items) = items

request_text : RequestText parse dump request (codes "leader_id")
unfolding serialize_request entries_json request_json text_eq
request_text = (
  (omega arith, omega arith, omega arith, omega arith, tt),
  λ items e. ap (λ o. some (request_json (or_done o) request)) e,
  refl,
  omega arith,
)

answer_fits : AnswerFits parse dump (handle_append_entries 5 request node).0
unfolding response_json text_eq handle_append_entries last_index get_term
answer_fits = (refl, omega arith, omega arith, omega arith, omega arith)

in_two_request : join (in_two (encoded request_frame)) ≡ encoded request_frame
unfolding join encode
in_two_request = refl

in_two_answer : join (in_two (encoded answer_frame)) ≡ encoded answer_frame
unfolding join encode
in_two_answer = refl

call_answered_example :
    (q : RaftPeer) × (q' : RaftPeer) × (send_append_entries parse dump true three_bytes request peer
      ≡ awaits 2 (encoded request_frame) q)
    × (receive_all (serve parse dump clock others) (in_two (encoded request_frame)) [] connection
        ≡ drained [] (record {
          node = (handle_append_entries 5 request node).1;
          requests = 1;
          sent = encoded answer_frame ∷ [];
        }))
    × (recv_loop (map gives (in_two (encoded answer_frame))) [] q ≡ drained [] q')
    × (append_entries_result parse 2 q' ≡ some (handle_append_entries 5 request node).0)
unfolding response_json
call_answered_example =
    call_answered parse dump clock others true three_bytes (in_two (encoded request_frame))
      (in_two (encoded answer_frame)) peer connection request (codes "leader_id") refl (omega arith)
      three_bytes-Takes request_text answer_fits in_two_request in_two_answer

-- Once for each answer: the promise of call 2 is settled.
abbrev waiting : RaftPeer
waiting = record peer { pending = (300, 2) ∷ [] }

abbrev resolved : RaftPeer
resolved = record peer { settled = (2, value (codes "success")) ∷ [] }

answer_frame-Fits : Fits answer_frame
answer_frame-Fits = (omega arith, omega arith, omega arith)

request_frame-Fits : Fits request_frame
request_frame-Fits = (omega arith, omega arith, omega arith)

receive_all-join_example :
    receive_all resolve (in_two (encoded answer_frame)) [] waiting ≡ drained [] resolved
unfolding encode encode_all join take_turns resolve find erase
receive_all-join_example =
    receive_all-join resolve (in_two (encoded answer_frame)) (answer_frame ∷ []) [] waiting resolved
      (answer_frame-Fits, tt) decode-nil refl refl

abbrev served : Connection
served = record {
  node = (handle_append_entries 5 request node).1;
  requests = 1;
  sent = encoded answer_frame ∷ [];
}

handle_conn-AnswersEach_example :
    (handle_conn parse dump clock others (in_two (encoded request_frame)) node ≡ drained [] served)
    × ((as' : List RpcFrame) × AnswersEach (request_frame ∷ []) as'
        × (served.sent ≡ map encoded as'))
unfolding encode encode_all join take_turns serve entries_json request_json response_json text_eq
    deserialize_request handle_append_entries last_index get_term
handle_conn-AnswersEach_example =
    handle_conn-AnswersEach parse dump clock others (in_two (encoded request_frame))
      (request_frame ∷ []) node served (request_frame-Fits, tt) refl refl

abbrev malformed : RpcFrame
malformed = record { type = 1; seq = 7; payload = codes "{" }

abbrev first_connected : RaftPeer
first_connected = record new { connected = true; joinable = true }

abbrev after_answer : RaftPeer
after_answer = record first_connected {
  seq_gen = 1;
  calls = 1;
  settled = (0, value (codes "success")) ∷ [];
}

reconnect_terminates_example :
    (begin_call true three_bytes 1 (some (codes "x")) (disconnect after_answer) ≡ terminated)
    × ((r : RaftPeer) × (begin_call false three_bytes 1 (some (codes "x")) (disconnect after_answer)
          ≡ refused r))
unfolding connect act_all encode
reconnect_terminates_example =
    reconnect_terminates
      (call true three_bytes 1 (some (codes "x")) ∷ answer (record answer_frame { seq = 0 }) ∷ [])
      first_connected after_answer three_bytes 1 (some (codes "x")) refl refl
