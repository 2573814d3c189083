-- ===== src/Raft/Peer.antt =====
-- raft/RaftPeer.hpp and RaftPeer.cpp: calls of another node over one connection. `parse` and `dump` stand
-- for nlohmann::json. A promise for the text of an answer is known by the number of its call. The
-- sockets are left out: whether a connection comes about, and how many bytes each send takes, are
-- arguments. One flag stands for connected_, recvRunning_ and sockfd_, which Connect and Disconnect set
-- together.
pub mod Sending
pub mod Calls
pub mod Reconnect
mod Tests
use distributed_key_value_st.Base.{
  ℕ, zero, suc, ◌+◌, ◌%◌, ◌^◌, ◌++◌, Bool, true, false, Option, none, some, List, [], ◌∷◌,
  if◌then◌else◌, ◌==◌, min, take, drop, length, Text, ◌>>=◌,
}
use distributed_key_value_st.Base.Json.{Json}
use distributed_key_value_st.Raft.Rpc.{
  AppendEntriesRequest, AppendEntriesResponse, RequestVoteRequest, RequestVoteResponse,
}
use distributed_key_value_st.Raft.Wire.{
  serialize_request, vote_request_json, deserialize_response, deserialize_vote_response,
}
use distributed_key_value_st.Raft.Frame.{RpcFrame, encode}
use distributed_key_value_st.Raft.Stream.{
  Turn, goes_on, Drained, drained, overran, ended, stuck, receive,
}

-- What a promise is settled with: the text of the answer, or an exception.
pub data Outcome : Type 0 where
  value : Text → Outcome
  failure : Outcome

-- `pending` has the promise of each sequence number, `settled` the promises that are settled, and
-- `joinable` says whether recvThread_ holds a thread.
pub record RaftPeer : Type 0 where
  pub connected : Bool
  pub joinable : Bool
  pub seq_gen : ℕ
  pub pending : List (ℕ × ℕ)
  pub calls : ℕ
  pub settled : List (ℕ × Outcome)

-- Before the constructor calls Connect.
abbrev pub new : RaftPeer
new = record {
  connected = false;
  joinable = false;
  seq_gen = 0;
  pending = [];
  calls = 0;
  settled = [];
}

module _ {ℓ} {V : Type ℓ} where
  -- find(seq)
  unfoldable pub find : ℕ → List (ℕ × V) → Option V
  find k [] = none
  find k ((j, v) ∷ m) = if j == k then some v else find k m

  -- erase(seq)
  unfoldable pub erase : ℕ → List (ℕ × V) → List (ℕ × V)
  erase k [] = []
  erase k ((j, v) ∷ m) = if j == k then erase k m else (j, v) ∷ erase k m

-- A new thread cannot be assigned to a std::thread that holds one: `none`, the program ends.
unfoldable pub connect : Bool → RaftPeer → Option RaftPeer
connect reached p =
    if reached
    then (if p.joinable then none else some (record p { connected = true; joinable = true }))
    else some p

-- set_exception on each pending promise.
unfoldable pub fail_each : List (ℕ × ℕ) → List (ℕ × Outcome) → List (ℕ × Outcome)
fail_each [] settled = settled
fail_each ((seq, call) ∷ pending) settled = fail_each pending ((call, failure) ∷ settled)

unfoldable pub disconnect : RaftPeer → RaftPeer
unfolding fail_each
disconnect p = record p { connected = false; pending = []; settled = fail_each p.pending p.settled }

-- The loop of SendRaw: the i-th send takes up to `takes i` of the bytes that are left. The bytes sent,
-- and whether that is all of them. Each round but the last takes a byte, so as many rounds as bytes do.
unfoldable pub send_from : ℕ → (ℕ → ℕ) → ℕ → List ℕ → List ℕ × Bool
send_from rounds takes i [] = ([], true)
send_from zero takes i (b ∷ bytes) = ([], false)
send_from (suc rounds) takes i (b ∷ bytes) =
    let n = min (takes i) (length (b ∷ bytes)) in
    let rest = send_from rounds takes (suc i) (drop n (b ∷ bytes)) in
    if n == 0 then ([], false) else (take n (b ∷ bytes) ++ rest.0, rest.1)

-- SendRaw: the bytes sent, whether that is all, and the peer.
unfoldable pub send_raw : (ℕ → ℕ) → List ℕ → RaftPeer → List ℕ × Bool × RaftPeer
unfolding send_from disconnect
send_raw takes bytes p =
    let (sent, all) = send_from (length bytes) takes 0 bytes in
    if p.connected
    then (if all then (sent, true, p) else (sent, false, disconnect p))
    else ([], false, p)

-- pending_[seq] = a new promise: one that stood there is broken.
unfoldable pub register : ℕ → RaftPeer → RaftPeer
unfolding find erase
register seq p =
    let settled : List (ℕ × Outcome) = elim (find seq p.pending) [
      | none ↦ p.settled
      | some call ↦ (call, failure) ∷ p.settled
    ] in
    record p {
      pending = (seq, p.calls) ∷ erase seq p.pending;
      calls = suc p.calls;
      settled = settled;
    }

-- What the calling thread's part of a call ends with: a future that is failed already; the number of
-- the call whose answer is awaited, with the bytes sent; an exception; or the end of the program.
pub data Begun : Type 0 where
  refused : RaftPeer → Begun
  awaits : ℕ → List ℕ → RaftPeer → Begun
  thrown : RaftPeer → Begun
  terminated : Begun

-- The frame's payload is there, or Serialize throws.
unfoldable pub send_frame : (ℕ → ℕ) → ℕ → ℕ → Option Text → RaftPeer → Begun
unfolding send_raw register erase
send_frame takes type seq payload p = elim payload [
  | none ↦ thrown (register seq p)
  | some text ↦ elim (encode (record { type = type; seq = seq; payload = text })) [
    | none ↦ terminated
    | some bytes ↦
        let (sent, all, q) = send_raw takes bytes (register seq p) in
        if all then awaits p.calls sent q else refused (record q { pending = erase seq q.pending })
  ]
]

-- NextSeq, Connect where there is no connection, and the request.
unfoldable pub begin_call : Bool → (ℕ → ℕ) → ℕ → Option Text → RaftPeer → Begun
unfolding connect send_frame
begin_call reached takes type payload p =
    let q : RaftPeer = record p { seq_gen = (p.seq_gen + 1) % 2 ^ 32 } in
    elim (if p.connected then some q else connect reached q) [
      | none ↦ terminated
      | some r ↦ if r.connected then send_frame takes type p.seq_gen payload r else refused r
    ]

-- What RecvLoop does with a frame.
unfoldable pub resolve : RpcFrame → RaftPeer → Turn RaftPeer
unfolding find erase
resolve f p = elim (find f.seq p.pending) [
  | none ↦ goes_on p
  | some call ↦
      goes_on (record p {
        pending = erase f.seq p.pending;
        settled = (call, value f.payload) ∷ p.settled;
      })
]

-- What recv gives to RecvLoop: bytes, an error that passes, or the end of the connection.
pub data FromPeer : Type 0 where
  gives : List ℕ → FromPeer
  transient : FromPeer
  ends : FromPeer

-- RecvLoop, over the results of recv.
unfoldable pub recv_loop : List FromPeer → List ℕ → RaftPeer → Drained RaftPeer
unfolding receive resolve disconnect
recv_loop [] buf p = drained buf p
recv_loop (gives bytes ∷ results) buf p = elim (receive resolve bytes buf p) [
  | drained left q ↦ recv_loop results left q
  | overran ↦ overran
  | ended ↦ ended
  | stuck ↦ stuck
]
recv_loop (transient ∷ results) buf p = recv_loop results buf p
recv_loop (ends ∷ results) buf p = drained buf (disconnect p)

module _ (parse : Text → Option Json) (dump : Json → Text) where
  unfoldable pub send_append_entries : Bool → (ℕ → ℕ) → AppendEntriesRequest → RaftPeer → Begun
  unfolding begin_call
  send_append_entries reached takes req p =
      begin_call reached takes 1 (serialize_request parse dump req) p

  unfoldable pub send_request_vote : Bool → (ℕ → ℕ) → RequestVoteRequest → RaftPeer → Begun
  unfolding begin_call
  send_request_vote reached takes req p =
      begin_call reached takes 3 (some (dump (vote_request_json req))) p

-- The waiting thread, when the promise is ready or the time is over; `none` is an exception.
unfoldable pub answer_text : ℕ → RaftPeer → Option Text
unfolding find
answer_text call p = elim (find call p.settled) [
  | none ↦ none
  | some failure ↦ none
  | some (value text) ↦ some text
]

unfoldable pub append_entries_result :
    (Text → Option Json) → ℕ → RaftPeer → Option AppendEntriesResponse
unfolding answer_text
append_entries_result parse call p = answer_text call p >>= deserialize_response parse

unfoldable pub request_vote_result :
    (Text → Option Json) → ℕ → RaftPeer → Option RequestVoteResponse
unfolding answer_text
request_vote_result parse call p = answer_text call p >>= deserialize_vote_response parse
