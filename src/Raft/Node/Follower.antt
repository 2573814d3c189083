-- ===== src/Raft/Node/Follower.antt =====
-- raft/RaftNode.cpp: what HandleAppendEntries makes of a follower's log, role and commit index, and
-- what its answer says.
use distributed_key_value_st.Base.{
  ℕ, ◌<◌, ◌≡◌, ◌⊎◌, inl, inr, refl, false, arith, ltb, lt→ltb, Option-cases, if◌then◌else◌, Text,
}
use distributed_key_value_st.Raft.Rpc.{AppendEntriesRequest, follower}
use distributed_key_value_st.Raft.Node.State.{RaftNode, become_follower}
use distributed_key_value_st.Raft.Node.Handlers.{
  handle_append_entries, append_to_log, check_prev, hear_from,
}
use distributed_key_value_st.Raft.Node.Replication.{on_append_response}

module _ (now : ℕ) (req : AppendEntriesRequest) (n : RaftNode) where
  pub append_entries_stale :
      req.term < n.current_term
      → handle_append_entries now req n ≡ (
        record { term = n.current_term; success = false; conflict_index = 0; conflict_term = 0 },
        n,
      )
  unfolding handle_append_entries
  append_entries_stale h = rw (lt→ltb req.term n.current_term h)

  pub append_entries_newer :
      n.current_term < req.term
      → handle_append_entries now req n
        ≡ append_to_log n.current_term req
            (hear_from now req.leader_id (become_follower now req.term req.leader_id n))
  unfolding handle_append_entries
  append_entries_newer h =
      let fresh : ltb req.term n.current_term ≡ false = ground arith in
      rw (fresh, lt→ltb n.current_term req.term h)

  pub append_entries_same :
      req.term ≡ n.current_term
      → handle_append_entries now req n
        ≡ append_to_log n.current_term req (hear_from now req.leader_id n)
  unfolding handle_append_entries
  append_entries_same h =
      let fresh : ltb req.term n.current_term ≡ false = ground arith in
      let same : ltb n.current_term req.term ≡ false = ground arith in rw (fresh, same)

pub compare_terms : (a b : ℕ) → (a < b) ⊎ ((a ≡ b) ⊎ (b < a))
compare_terms a b = ground arith

module _ (term : ℕ) (req : AppendEntriesRequest) (n : RaftNode) where
  -- Every answer carries the term it is given; the role stays.
  append_to_log_answer :
      ((append_to_log term req n).0.term ≡ term) × ((append_to_log term req n).1.role ≡ n.role)
  unfolding append_to_log
  append_to_log_answer = elim (Option-cases (check_prev req n.log)) [
    | inl passes ↦ rw (passes, append_to_log) (ground arith)
    | inr (_, fails) ↦ rw (fails, append_to_log) (refl, refl)
  ]

-- HandleAppendEntries makes the node a follower if the request has a newer term, and else leaves
-- its role: a candidate that hears from the leader of its own term stays a candidate. The answer
-- carries the term that the node had before.
pub append_entries_role :
    (now : ℕ) (req : AppendEntriesRequest) (n : RaftNode)
    → ((handle_append_entries now req n).1.role
        ≡ (if ltb n.current_term req.term then follower else n.role))
      × ((handle_append_entries now req n).0.term ≡ n.current_term)
unfolding become_follower hear_from
append_entries_role now req n = elim (compare_terms req.term n.current_term) [
  | inl stale ↦ rw (append_entries_stale now req n stale) (ground arith)
  | inr (inl same) ↦
      let (term_before, role_kept) =
        append_to_log_answer n.current_term req (hear_from now req.leader_id n) in
      rw (append_entries_same now req n same) (ground arith)
  | inr (inr newer) ↦
      let (term_before, role_kept) =
        append_to_log_answer n.current_term req
          (hear_from now req.leader_id (become_follower now req.term req.leader_id n)) in
      rw (append_entries_newer now req n newer) (ground arith)
]

-- Where a follower is behind the term of the request, and the leader is still in that term when
-- the answer comes, the leader drops the answer, a success too: its state stays as it was.
pub first_answer_ignored :
    (now later : ℕ) (peer : Text) (req : AppendEntriesRequest) (n m : RaftNode)
    → n.current_term < req.term
    → req.term ≡ m.current_term
    → on_append_response later peer req (handle_append_entries now req n).0 m ≡ m
unfolding on_append_response
first_answer_ignored now later peer req n m behind sent =
    ground (arith, append_entries_role now req n)
