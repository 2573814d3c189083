-- ===== src/Raft/Peer/Calls.antt =====
-- raft/RaftPeer.cpp and RaftRpcServer.cpp: a call and its answer.
use distributed_key_value_st.Base.{
  map, ℕ, suc, ◌+◌, ◌%◌, ◌<◌, ◌^◌, ◌≡◌, ◌≢◌, refl, sym, ap, ◌∙◌, Bool, true, Option, some, List, [],
  ◌∷◌, ◌++◌, arith, length, inl, inr, Text, append_nil,
}
use distributed_key_value_st.Base.Json.{Json, Items}
use distributed_key_value_st.Raft.Rpc.{AppendEntriesRequest, AppendEntriesResponse}
use distributed_key_value_st.Raft.Wire.{
  entries_json, request_json, response_json, serialize_request, deserialize_request,
  deserialize_response,
}
use distributed_key_value_st.Raft.Wire.RoundTrip.{
  RequestFits, deserialize-serialize_request, deserialize_response_lem,
}
use distributed_key_value_st.Raft.Frame.{RpcFrame, encode, decode-encode}
use distributed_key_value_st.Raft.Stream.{
  goes_on, Drained, drained, overran, ended, stuck, receive, receive_all, take_turns,
}
use distributed_key_value_st.Raft.Stream.Chunks.{
  Fits, encoded, encode_all, join, receive_all-join, decode-nil,
}
use distributed_key_value_st.Raft.Node.State.{RaftNode}
use distributed_key_value_st.Raft.Node.Handlers.{handle_append_entries}
use distributed_key_value_st.Raft.RpcServer.{Connection, send_back, answer_append_entries, serve}
use distributed_key_value_st.Raft.Peer.{
  gives, recv_loop, RaftPeer, Outcome, awaits, find, erase, register, send_raw, send_from,
  send_frame, begin_call, value, resolve, answer_text, append_entries_result, send_append_entries,
}
use distributed_key_value_st.Raft.Peer.Sending.{send_from-SendsAll}

-- As long as recv gives bytes, RecvLoop is the loop over these pieces.
recv_loop-gives :
    (chunks : List (List ℕ)) (buf : List ℕ) (p : RaftPeer)
    → recv_loop (map gives chunks) buf p ≡ receive_all resolve chunks buf p
unfolding recv_loop receive_all
recv_loop-gives [] buf p = refl
recv_loop-gives (bytes ∷ chunks) buf p = same (receive resolve bytes buf p) (recv_loop-gives chunks)
  where
    same :
        (d : Drained RaftPeer)
        → ((left : List ℕ) (q : RaftPeer)
            → recv_loop (map gives chunks) left q ≡ receive_all resolve chunks left q)
        → ◌≡◌ {A = Drained RaftPeer}
            (elim d [
              | drained left q ↦ recv_loop (map gives chunks) left q
              | overran ↦ overran
              | ended ↦ ended
              | stuck ↦ stuck
            ])
            (elim d [
              | drained left q ↦ receive_all resolve chunks left q
              | overran ↦ overran
              | ended ↦ ended
              | stuck ↦ stuck
            ])
    same (drained left q) ih = ih left q
    same overran ih = refl
    same ended ih = refl
    same stuck ih = refl

-- A frame that fits is encoded.
encode-encoded : (f : RpcFrame) → Fits f → encode f ≡ some (encoded f)
encode-encoded f (byte, word, fits) =
    let (bytes, written, _) = decode-encode f byte word fits [] in rw written refl

-- The kernel takes at least one byte in each call of send.
abbrev pub Takes : (ℕ → ℕ) → Type 0
Takes takes = (i : ℕ) → takes i ≢ 0

send_from-Takes :
    (takes : ℕ → ℕ) (bytes : List ℕ)
    → Takes takes
    → send_from (length bytes) takes 0 bytes ≡ (bytes, true)
send_from-Takes takes bytes h =
    elim (send_from-SendsAll (length bytes) takes 0 bytes (omega arith)) [
      | inl all ↦ all
      | inr (left, i, nothing, _, _) ↦ absurd (h i nothing)
    ]

connected-register :
    (seq : ℕ) (p : RaftPeer) → p.connected ≡ true → (register seq p).connected ≡ true
unfolding register
connected-register seq p h = h

find-register : (seq : ℕ) (p : RaftPeer) → find seq (register seq p).pending ≡ some p.calls
unfolding find register
find-register seq p = ground arith

-- The peer while it awaits the answer of the next call.
abbrev awaiting : RaftPeer → RaftPeer
awaiting p = register p.seq_gen (record p { seq_gen = (p.seq_gen + 1) % 2 ^ 32 })

send_raw-connected :
    (takes : ℕ → ℕ) (bytes : List ℕ) (p : RaftPeer)
    → p.connected ≡ true
    → Takes takes
    → send_raw takes bytes p ≡ (bytes, true, p)
unfolding send_raw
send_raw-connected takes bytes p up h = rw (up, send_from-Takes takes bytes h) refl

begin_call_up :
    (reached : Bool) (takes : ℕ → ℕ) (type : ℕ) (payload : Option Text) (p : RaftPeer)
    → p.connected ≡ true
    → begin_call reached takes type payload p
      ≡ send_frame takes type p.seq_gen payload (record p { seq_gen = (p.seq_gen + 1) % 2 ^ 32 })
unfolding begin_call
begin_call_up reached takes type payload p up = ground arith

answer_text-settled :
    (call : ℕ) (text : Text) (settled : List (ℕ × Outcome)) (p : RaftPeer)
    → answer_text call (record p { settled = (call, value text) ∷ settled }) ≡ some text
unfolding answer_text find
answer_text-settled call text settled p = ground arith

-- Over a connection that is up, a call whose frame fits is sent as a whole.
begin_call-connected :
    (reached : Bool) (takes : ℕ → ℕ) (type : ℕ) (text : Text) (p : RaftPeer)
    → p.connected ≡ true
    → Takes takes
    → let f : RpcFrame = record { type = type; seq = p.seq_gen; payload = text } in
      Fits f → begin_call reached takes type (some text) p ≡ awaits p.calls (encoded f) (awaiting p)
unfolding begin_call send_frame
begin_call-connected reached takes type text p up h fits =
    let f : RpcFrame = record { type = type; seq = p.seq_gen; payload = text } in
    let still_up : (awaiting p).connected ≡ true =
      connected-register p.seq_gen (record p { seq_gen = (p.seq_gen + 1) % 2 ^ 32 }) up in
    let sent = send_raw-connected takes (encoded f) (awaiting p) still_up h in
    let begun = begin_call_up reached takes type (some text) p up in
    begun ∙ rw (send_frame, encode-encoded f fits) (rw sent refl)

module _ (parse : Text → Option Json) (dump : Json → Text) where
  -- The answer can be sent in a frame and read back.
  abbrev pub AnswerFits : AppendEntriesResponse → Type 0
  AnswerFits r =
      (parse (dump (response_json r)) ≡ some (response_json r))
      × (9 + length (dump (response_json r)) < 2 ^ 32)
      × (r.term < 2 ^ 64)
      × (r.conflict_index < 2 ^ 64)
      × (r.conflict_term < 2 ^ 64)

  -- The request is serialized to `text`, which can be sent in a frame, and parsing reads back what is
  -- dumped of its object.
  abbrev pub RequestText : AppendEntriesRequest → Text → Type 0
  RequestText req text =
      RequestFits parse dump req
      × ((items : Items)
          → entries_json parse dump req.entries ≡ some items
          → parse (dump (request_json items req)) ≡ some (request_json items req))
      × (serialize_request parse dump req ≡ some text)
      × (9 + length text < 2 ^ 32)

  deserialize-RequestText :
      (req : AppendEntriesRequest) (text : Text)
      → RequestText req text
      → deserialize_request parse dump text ≡ some req
  deserialize-RequestText req text (fits, reads, written, short) =
      let (s, written', read) = deserialize-serialize_request parse dump req fits reads in
      let same : ◌≡◌ {A = Option Text} (some s) (some text) = sym written' ∙ written in
      let same_text : s ≡ text = cc (same) in
      ap (deserialize_request parse dump) (sym same_text) ∙ read

  append_entries_result_lem :
      (call : ℕ) (q : RaftPeer) (r : AppendEntriesResponse) (text : Text)
      → answer_text call q ≡ some text
      → deserialize_response parse text ≡ some r
      → append_entries_result parse call q ≡ some r
  unfolding append_entries_result
  append_entries_result_lem call q r text got back = rw (got, append_entries_result) back

  -- The waiting thread gets the answer, once its frame has come over the connection in any pieces.
  answer_received :
      (chunks : List (List ℕ)) (p : RaftPeer) (seq call : ℕ) (r : AppendEntriesResponse)
      → AnswerFits r
      → seq < 2 ^ 32
      → find seq p.pending ≡ some call
      → let a : RpcFrame = record { type = 2; seq = seq; payload = dump (response_json r) } in
        join chunks ≡ encoded a
        → (q : RaftPeer) × (recv_loop (map gives chunks) [] p ≡ drained [] q)
          × (append_entries_result parse call q ≡ some r)
  unfolding resolve append_entries_result answer_text find encode_all take_turns
  answer_received chunks p seq call r (reads, short, t, i, c) word waits same =
      let text = dump (response_json r) in
      let a : RpcFrame = record { type = 2; seq = seq; payload = text } in
      let q : RaftPeer = record p {
        pending = erase seq p.pending;
        settled = (call, value text) ∷ p.settled;
      } in
      let went : take_turns resolve (a ∷ []) p ≡ some q = rw (waits, resolve) refl in
      let fits : Fits a = (omega arith, word, short) in
      let back = deserialize_response_lem parse dump r reads t i c in
      (
        q,
        recv_loop-gives chunks [] p
            ∙ receive_all-join resolve chunks (a ∷ []) [] p q (fits, tt) decode-nil
                (same ∙ sym (append_nil (encoded a))) went,
        append_entries_result_lem call q r text (answer_text-settled call text p.settled q) back,
      )

module _ (parse : Text → Option Json) (dump : Json → Text) (clock : ℕ → ℕ)
    (others : ℕ → RaftNode → RaftNode) where
  -- A request is answered in the bytes of one frame.
  request_served :
      (chunks : List (List ℕ)) (c : Connection) (req : AppendEntriesRequest) (text : Text) (seq : ℕ)
      → RequestText parse dump req text
      → seq < 2 ^ 32
      → let (r, n) = handle_append_entries (clock c.requests) req (others c.requests c.node) in
        AnswerFits parse dump r
        → join chunks ≡ encoded (record { type = 1; seq = seq; payload = text })
        → receive_all (serve parse dump clock others) chunks [] c
          ≡ drained [] (record {
            node = n;
            requests = suc c.requests;
            sent =
                c.sent
                ++ encoded (record { type = 2; seq = seq; payload = dump (response_json r) }) ∷ [];
          })
  unfolding serve answer_append_entries send_back encode_all take_turns
  request_served chunks c req text seq sent word fits same =
      let read = deserialize-RequestText parse dump req text sent in
      let (r, n) = handle_append_entries (clock c.requests) req (others c.requests c.node) in
      let f : RpcFrame = record { type = 1; seq = seq; payload = text } in
      let a : RpcFrame = record { type = 2; seq = seq; payload = dump (response_json r) } in
      let d : Connection = record {
        node = n;
        requests = suc c.requests;
        sent = c.sent ++ encoded a ∷ [];
      } in
      let answer_encoded = encode-encoded a (omega arith, word, fits.1) in
      let turn : serve parse dump clock others f c ≡ goes_on d =
        rw (read, answer_append_entries) (rw (answer_encoded, send_back) refl) in
      let went : take_turns (serve parse dump clock others) (f ∷ []) c ≡ some d = rw turn refl in
      let request_fits : Fits f = (omega arith, word, sent.3) in
      receive_all-join (serve parse dump clock others) chunks (f ∷ []) [] c d (request_fits, tt)
        decode-nil (same ∙ sym (append_nil (encoded f))) went

  -- An AppendEntries call is answered. The peer's connection is up, each send takes at least a byte,
  -- the texts of the request and the answer fit a frame and are read back, and the two frames come over
  -- the connection in any pieces. Then the request is sent as a whole, the other node is left as
  -- HandleAppendEntries leaves it, its answer is one frame, and the caller gets what
  -- HandleAppendEntries has returned.
  pub call_answered :
      (reached : Bool) (takes : ℕ → ℕ) (requests answers : List (List ℕ)) (p : RaftPeer)
      (c : Connection) (req : AppendEntriesRequest) (text : Text)
      → p.connected ≡ true
      → p.seq_gen < 2 ^ 32
      → Takes takes
      → RequestText parse dump req text
      → let (r, n) = handle_append_entries (clock c.requests) req (others c.requests c.node) in
        let f : RpcFrame = record { type = 1; seq = p.seq_gen; payload = text } in
        let a : RpcFrame = record { type = 2; seq = p.seq_gen; payload = dump (response_json r) } in
        AnswerFits parse dump r
        → join requests ≡ encoded f
        → join answers ≡ encoded a
        → (q : RaftPeer) × (q' : RaftPeer) × (send_append_entries parse dump reached takes req p
            ≡ awaits p.calls (encoded f) q)
          × (receive_all (serve parse dump clock others) requests [] c
              ≡ drained []
                  (record { node = n; requests = suc c.requests; sent = c.sent ++ encoded a ∷ [] }))
          × (recv_loop (map gives answers) [] q ≡ drained [] q')
          × (append_entries_result parse p.calls q' ≡ some r)
  unfolding send_append_entries
  call_answered reached takes requests answers p c req text up word h sent fits same same' =
      let (r, n) = handle_append_entries (clock c.requests) req (others c.requests c.node) in
      let begun = begin_call-connected reached takes 1 text p up h (omega arith, word, sent.3) in
      let found = find-register p.seq_gen (record p { seq_gen = (p.seq_gen + 1) % 2 ^ 32 }) in
      let (q', resolved, result) =
        answer_received parse dump answers (awaiting p) p.seq_gen p.calls r fits word found same' in
      (
        awaiting p,
        q',
        rw (sent.2, send_append_entries) begun,
        request_served requests c req text p.seq_gen sent word fits same,
        resolved,
        result,
      )
