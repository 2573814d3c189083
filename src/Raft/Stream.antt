-- ===== src/Raft/Stream.antt =====
-- raft/RaftRpcServer.cpp and RaftPeer.cpp: how HandleConn and RecvLoop take frames off the bytes of a
-- connection. `S` is what the code does with a frame works on.
pub mod Chunks
use distributed_key_value_st.Base.{
  ℕ, zero, suc, ◌++◌, Option, none, some, List, [], ◌∷◌, drop, length, ◌>>=◌,
}
use distributed_key_value_st.Raft.Frame.{RpcFrame, partial, decoded, overrun, decode}

-- What is done with a frame: the loop goes on, leaves by `break`, or the program ends by an exception or
-- by a copy past the end of a buffer.
pub data Turn {ℓ} (S : Type ℓ) : Type ℓ where
  goes_on : S → Turn S
  breaks : S → Turn S
  throws : Turn S

-- What the loop over the frames in the buffer ends with: the bytes that are left and the state; a read
-- past the buffer; or the end of the program. `stuck` is no end of the program's: there were too few
-- rounds.
pub data Drained {ℓ} (S : Type ℓ) : Type ℓ where
  drained : List ℕ → S → Drained S
  overran : Drained S
  ended : Drained S
  stuck : Drained S

module _ {ℓ} {S : Type ℓ} where
  -- while (true), over what is left of the buffer, for so many rounds.
  unfoldable pub drain : (RpcFrame → S → Turn S) → ℕ → List ℕ → S → Drained S
  drain turn zero buf s = stuck
  drain turn (suc rounds) buf s = elim (decode buf) [
    | partial ↦ drained buf s
    | overrun ↦ overran
    | decoded f consumed ↦ elim (turn f s) [
      | goes_on s' ↦ drain turn rounds (drop consumed buf) s'
      | breaks s' ↦ drained (drop consumed buf) s'
      | throws ↦ ended
    ]
  ]

  -- The bytes of a call of recv come behind those that are left.
  unfoldable pub receive : (RpcFrame → S → Turn S) → List ℕ → List ℕ → S → Drained S
  unfolding drain
  receive turn bytes buf s = drain turn (suc (length (buf ++ bytes))) (buf ++ bytes) s

  -- The loop over the calls of recv.
  unfoldable pub receive_all : (RpcFrame → S → Turn S) → List (List ℕ) → List ℕ → S → Drained S
  unfolding receive
  receive_all turn [] buf s = drained buf s
  receive_all turn (bytes ∷ chunks) buf s = elim (receive turn bytes buf s) [
    | drained left s' ↦ receive_all turn chunks left s'
    | overran ↦ overran
    | ended ↦ ended
    | stuck ↦ stuck
  ]

  abbrev pub gone_on : Turn S → Option S
  gone_on (goes_on s) = some s
  gone_on (breaks s) = none
  gone_on throws = none

  -- The frames one by one, `none` where one of them is not gone on from.
  unfoldable pub take_turns : (RpcFrame → S → Turn S) → List RpcFrame → S → Option S
  take_turns turn [] s = some s
  take_turns turn (f ∷ fs) s = gone_on (turn f s) >>= take_turns turn fs
