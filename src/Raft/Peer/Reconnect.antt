-- ===== src/Raft/Peer/Reconnect.antt =====
-- raft/RaftPeer.cpp: a peer that has lost its connection.
use distributed_key_value_st.Base.{
  ℕ, ◌+◌, ◌%◌, ◌^◌, ◌≡◌, refl, Bool, true, false, Option, none, some, List, [], ◌∷◌, arith, Text,
  ◌>>=◌, Option-cases, inl, inr,
}
use distributed_key_value_st.Raft.Frame.{RpcFrame}
use distributed_key_value_st.Raft.Stream.{gone_on}
use distributed_key_value_st.Raft.Peer.{
  RaftPeer, Begun, terminated, refused, awaits, thrown, send_raw, send_frame, begin_call, connect,
  disconnect, register, resolve, new,
}

-- What can happen to a peer: a call, a frame for RecvLoop, and the loss of the connection.
pub data Event : Type 0 where
  call : Bool → (ℕ → ℕ) → ℕ → Option Text → Event
  answer : RpcFrame → Event
  lost : Event

unfoldable pub peer_of : Begun → Option RaftPeer
peer_of (refused p) = some p
peer_of (awaits n bytes p) = some p
peer_of (thrown p) = some p
peer_of terminated = none

-- `none` is the end of the program.
unfoldable pub act : Event → RaftPeer → Option RaftPeer
unfolding peer_of begin_call resolve disconnect
act (call reached takes type payload) p = peer_of (begin_call reached takes type payload p)
act (answer f) p = gone_on (resolve f p)
act lost p = some (disconnect p)

unfoldable pub act_all : List Event → RaftPeer → Option RaftPeer
unfolding act
act_all [] p = some p
act_all (e ∷ es) p = act e p >>= act_all es

send_frame_joinable :
    (takes : ℕ → ℕ) (type seq : ℕ) (payload : Option Text) (p q : RaftPeer)
    → p.joinable ≡ true
    → peer_of (send_frame takes type seq payload p) ≡ some q
    → q.joinable ≡ true
unfolding send_frame peer_of send_raw disconnect register
send_frame_joinable takes type seq payload p q h e = ground arith

act_joinable :
    (e : Event) (p q : RaftPeer) → p.joinable ≡ true → act e p ≡ some q → q.joinable ≡ true
unfolding act begin_call connect resolve disconnect
act_joinable (call reached takes type payload) p q h e = ground arith
act_joinable (answer f) p q h e = ground arith
act_joinable lost p q h e = ground arith

act_all_joinable :
    (es : List Event) (p q : RaftPeer)
    → p.joinable ≡ true
    → act_all es p ≡ some q
    → q.joinable ≡ true
unfolding act_all
act_all_joinable [] p q h e = ground arith
act_all_joinable (e ∷ es) p q h went = elim (Option-cases (act e p)) [
  | inl over ↦ ground (arith, over)
  | inr (r, first) ↦
      let rest : act_all es r ≡ some q = rw (first, act_all) at went in
      act_all_joinable es r q (act_joinable e p r h first) rest
]

connect_joinable : (p : RaftPeer) → connect true new ≡ some p → p.joinable ≡ true
unfolding connect
connect_joinable p h = ground arith

-- A peer has been connected, anything may have happened since but the end of the program, and the
-- connection is lost. Then the next call that reaches the other node again ends the program, and a call
-- that does not reach it is refused.
pub reconnect_terminates :
    (es : List Event) (p q : RaftPeer) (takes : ℕ → ℕ) (type : ℕ) (payload : Option Text)
    → connect true new ≡ some p
    → act_all es p ≡ some q
    → (begin_call true takes type payload (disconnect q) ≡ terminated)
      × ((r : RaftPeer) × (begin_call false takes type payload (disconnect q) ≡ refused r))
unfolding begin_call connect disconnect
reconnect_terminates es p q takes type payload h e =
    let held = act_all_joinable es p q (connect_joinable p h) e in
    (rw held refl, (record (disconnect q) { seq_gen = (q.seq_gen + 1) % 2 ^ 32 }, refl))
