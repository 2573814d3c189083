-- ===== src/Raft/RpcServer/Answers.antt =====
-- raft/RaftRpcServer.cpp: what a connection answers.
use distributed_key_value_st.Base.{
  ℕ, ◌≡◌, refl, ap, ◌∙◌, Option, none, some, List, [], ◌∷◌, ◌++◌, map, arith, ◌==◌, Text, All,
  append_assoc, append_nil, Option-cases, inl, inr, Bool-cases, ==_iff, ◌⊎◌,
}
use distributed_key_value_st.Base.Json.{Json}
use distributed_key_value_st.Raft.Wire.{
  response_json, deserialize_request, deserialize_vote_request, vote_response_json,
}
use distributed_key_value_st.Raft.Frame.{RpcFrame, encode}
use distributed_key_value_st.Raft.Stream.{goes_on, drained, ended, receive, take_turns, drain}
use distributed_key_value_st.Raft.Stream.Chunks.{
  Fits, encoded, encode_all, join, receive_all-join, take_turns-cons, encoded-decodes, decode-nil,
}
use distributed_key_value_st.Raft.Node.State.{RaftNode}
use distributed_key_value_st.Raft.Node.Handlers.{handle_append_entries, handle_request_vote}
use distributed_key_value_st.Raft.RpcServer.{
  Connection, send_back, answer_append_entries, answer_request_vote, serve, handle_conn,
}

-- The answer `a` to the request `f`: it has the sequence number, and the type of the answer.
abbrev pub Answers : RpcFrame → RpcFrame → Type 0
Answers f a = (a.seq ≡ f.seq) × (((f.type ≡ 1) × (a.type ≡ 2)) ⊎ ((f.type ≡ 3) × (a.type ≡ 4)))

-- One answer to each request, in the order of the requests.
abbrev pub AnswersEach : List RpcFrame → List RpcFrame → Type 0
AnswersEach [] [] = Unit
AnswersEach [] (a ∷ as') = ⊥
AnswersEach (f ∷ fs) [] = ⊥
AnswersEach (f ∷ fs) (a ∷ as') = Answers f a × AnswersEach fs as'

send_back_sent :
    (resp : RpcFrame) (n : RaftNode) (c c' : Connection)
    → send_back resp n c ≡ goes_on c'
    → c'.sent ≡ c.sent ++ encoded resp ∷ []
unfolding send_back
send_back_sent resp n c c' h = elim (Option-cases (encode resp)) [
  | inl overran ↦ absurd (ground (arith, overran))
  | inr (bytes, written) ↦ ground (arith, written)
]

module _ (parse : Text → Option Json) (dump : Json → Text) (clock : ℕ → ℕ)
    (others : ℕ → RaftNode → RaftNode) where
  answer_append_entries_sent :
      (f : RpcFrame) (c c' : Connection)
      → answer_append_entries parse dump clock others f c ≡ goes_on c'
      → (text : Text) × (c'.sent
          ≡ c.sent ++ encoded (record { type = 2; seq = f.seq; payload = text }) ∷ [])
  unfolding answer_append_entries
  answer_append_entries_sent f c c' h =
      elim (Option-cases (deserialize_request parse dump f.payload)) [
        | inl malformed ↦ absurd (ground (arith, malformed))
        | inr (req, read) ↦
            let (r, n) = handle_append_entries (clock c.requests) req (others c.requests c.node) in
            let text = dump (response_json r) in
            let went = rw (read, answer_append_entries) at h in
            (text, send_back_sent (record { type = 2; seq = f.seq; payload = text }) n c c' went)
      ]

  answer_request_vote_sent :
      (f : RpcFrame) (c c' : Connection)
      → answer_request_vote parse dump clock others f c ≡ goes_on c'
      → (text : Text) × (c'.sent
          ≡ c.sent ++ encoded (record { type = 4; seq = f.seq; payload = text }) ∷ [])
  unfolding answer_request_vote
  answer_request_vote_sent f c c' h =
      elim (Option-cases (deserialize_vote_request parse f.payload)) [
        | inl malformed ↦ absurd (ground (arith, malformed))
        | inr (req, read) ↦
            let (r, n) = handle_request_vote (clock c.requests) req (others c.requests c.node) in
            let text = dump (vote_response_json r) in
            let went = rw (read, answer_request_vote) at h in
            (text, send_back_sent (record { type = 4; seq = f.seq; payload = text }) n c c' went)
      ]

  serve-Answers :
      (f : RpcFrame) (c c' : Connection)
      → serve parse dump clock others f c ≡ goes_on c'
      → (a : RpcFrame) × Answers f a × (c'.sent ≡ c.sent ++ encoded a ∷ [])
  unfolding serve
  serve-Answers f c c' h = elim (Bool-cases (f.type == 1)) [
    | inl appends ↦
        let (text, sent) = answer_append_entries_sent f c c' (rw (appends, serve) at h) in
        (
          record { type = 2; seq = f.seq; payload = text },
          (refl, inl ((==_iff f.type 1).0 appends, refl)),
          sent,
        )
    | inr other ↦ elim (Bool-cases (f.type == 3)) [
      | inl votes ↦
          let (text, sent) = answer_request_vote_sent f c c' (rw (other, votes, serve) at h) in
          (
            record { type = 4; seq = f.seq; payload = text },
            (refl, inr ((==_iff f.type 3).0 votes, refl)),
            sent,
          )
      | inr unknown ↦ absurd (ground arith)
    ]
  ]

  take_turns-AnswersEach :
      (fs : List RpcFrame) (c c' : Connection)
      → take_turns (serve parse dump clock others) fs c ≡ some c'
      → (as' : List RpcFrame) × AnswersEach fs as' × (c'.sent ≡ c.sent ++ map encoded as')
  unfolding take_turns
  take_turns-AnswersEach [] c c' h = ([], tt, ground (arith, append_nil c.sent))
  take_turns-AnswersEach (f ∷ fs) c c' h =
      let (d, first, rest) = take_turns-cons (serve parse dump clock others) f fs c c' h in
      let (a, answered, sent) = serve-Answers f c d first in
      let (as', others_answered, sent') = take_turns-AnswersEach fs d c' rest in
      (
        a ∷ as',
        (answered, others_answered),
        sent'
            ∙ ap (λ l. l ++ map encoded as') sent
            ∙ append_assoc c.sent (encoded a ∷ []) (map encoded as'),
      )

  -- Requests whose frames fit come over a connection in any pieces, and each of them is read and its
  -- answer fits a frame. Then HandleConn takes all of the bytes, leaves the node as the requests one
  -- after the other leave it, and hands exactly one answer to send for each request, in their order,
  -- with the request's number and the answer's type.
  pub handle_conn-AnswersEach :
      (chunks : List (List ℕ)) (fs : List RpcFrame) (n : RaftNode) (c : Connection)
      → All Fits fs
      → join chunks ≡ encode_all fs
      → take_turns (serve parse dump clock others) fs (record { node = n; requests = 0; sent = [] })
        ≡ some c
      → (handle_conn parse dump clock others chunks n ≡ drained [] c)
        × ((as' : List RpcFrame) × AnswersEach fs as' × (c.sent ≡ map encoded as'))
  unfolding handle_conn
  handle_conn-AnswersEach chunks fs n c fits same went =
      let start : Connection = record { node = n; requests = 0; sent = [] } in
      (
        receive_all-join (serve parse dump clock others) chunks fs [] start c fits decode-nil same
            went,
        take_turns-AnswersEach fs start c went,
      )

  -- A frame of a request whose payload does not parse ends the program: the exception of the JSON
  -- library leaves the thread of the connection.
  pub receive-malformed :
      (f : RpcFrame) (rest : List ℕ) (c : Connection)
      → Fits f
      → ((f.type ≡ 1) × (deserialize_request parse dump f.payload ≡ none))
        ⊎ ((f.type ≡ 3) × (deserialize_vote_request parse f.payload ≡ none))
      → receive (serve parse dump clock others) (encoded f ++ rest) [] c ≡ ended
  unfolding receive drain serve answer_append_entries answer_request_vote
  receive-malformed f rest c fits (inl (appends, malformed)) =
      rw (encoded-decodes f rest fits, drain)
        (rw (appends, serve) (rw (malformed, answer_append_entries) refl))
  receive-malformed f rest c fits (inr (votes, malformed)) =
      rw (encoded-decodes f rest fits, drain)
        (rw (votes, serve) (rw (malformed, answer_request_vote) refl))
