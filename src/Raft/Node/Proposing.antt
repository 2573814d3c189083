-- ===== src/Raft/Node/Proposing.antt =====
-- raft/RaftNode.cpp: what Propose appends, and what its result tells.
use distributed_key_value_st.Base.{
  ℕ, ◌+◌, ◌^◌, ◌≤◌, ◌<◌, ◌≡◌, ◌↔◌, inr, refl, sym, ◌∙◌, ap, true, some, arith, Text, add64,
}
use distributed_key_value_st.Base.Int.{ℤ}
use distributed_key_value_st.Base.Json.{Json}
use distributed_key_value_st.Raft.Rpc.{LogEntry, OpType, leader}
use distributed_key_value_st.Raft.Log.{last_index, get_entry, append}
use distributed_key_value_st.Raft.Log.Bounds.{IsWellFormed}
use distributed_key_value_st.Raft.Log.Append.{append-IsWellFormed}
use distributed_key_value_st.Raft.Node.State.{RaftNode}
use distributed_key_value_st.Raft.Node.Apply.{begin_propose, end_propose, wait_is_over, proposal}

module _ (dump : Json → Text) (key value : Text) (op : OpType) (ttl_ms : ℤ) (n : RaftNode) where
  -- On a leader with a well-formed log that is not full, Propose waits for the index after the last
  -- one, and there the log now ends with an entry of the current term that holds the operation; the
  -- entries before it stay, and the log stays well-formed.
  pub begin_propose-leader :
      n.role ≡ leader
      → IsWellFormed n.log
      → last_index n.log + 1 < 2 ^ 64
      → let (result, m) = begin_propose dump key value op ttl_ms n in
        (e : LogEntry) × (result ≡ inr (last_index n.log + 1))
        × IsWellFormed m.log
        × (last_index m.log ≡ last_index n.log + 1)
        × (get_entry m.log (last_index n.log + 1) ≡ some e)
        × (e.term ≡ n.current_term)
        × (e.op_type ≡ op)
        × (e.key ≡ key)
        × (e.value ≡ value)
        × (e.ttl_ms ≡ ttl_ms)
        × ((i : ℕ)
            → n.log.snapshot_index ≤ i
            → i ≤ last_index n.log
            → get_entry m.log i ≡ get_entry n.log i)
  unfolding begin_propose
  begin_propose-leader leads w room =
      let e = proposal dump key value op ttl_ms n in
      let next : add64 (last_index n.log) 1 ≡ last_index n.log + 1 = omega arith in
      let (well, here, last, kept) = append-IsWellFormed n.log w e next (omega arith) in
      rw (leads, begin_propose)
        (
          e,
          ap inr next,
          well,
          last ∙ next,
          ap (λ i. get_entry (append e n.log) i) (sym next) ∙ here,
          refl,
          refl,
          refl,
          refl,
          refl,
          kept,
        )

-- Once the wait has ended, Propose reports success exactly if the condition waited for held at the end
-- of the wait and the node is still the leader; and a wait that ended so on a leader means that the
-- entry's index has been applied.
pub end_propose_ok :
    (index : ℕ) (n : RaftNode)
    → ((end_propose index (wait_is_over index n) n).ok ≡ true)
      ↔ ((n.role ≡ leader) × (index ≤ n.last_applied))
unfolding end_propose wait_is_over
end_propose_ok index n = ground arith
