-- ===== src/Raft/Node/Handlers.antt =====
-- raft/RaftNode.cpp: the RPC handlers, HandleAppendEntries and HandleRequestVote.
use distributed_key_value_st.Base.{
  ℕ, zero, suc, Bool, true, false, not, ◌&&◌, Option, none, some, [], if◌then◌else◌, ltb, leb, ◌==◌,
  min, Text, text_eq, is_empty, add64,
}
use distributed_key_value_st.Raft.Rpc.{
  AppendEntriesRequest, AppendEntriesResponse, RequestVoteRequest, RequestVoteResponse,
}
use distributed_key_value_st.Raft.Log.{RaftLog, last_index, last_term, get_term, append_all}
use distributed_key_value_st.Raft.Node.State.{
  RaftNode, become_follower, reset_election_timer, persist_hard_state,
}

-- while (ci > log_->SnapshotIndex() && log_->GetTerm(ci - 1) == prevTerm) --ci;
unfoldable pub conflict_start : RaftLog → ℕ → ℕ → ℕ
conflict_start l term zero = zero
conflict_start l term (suc c) =
    let lower = conflict_start l term c in
    if ltb l.snapshot_index (suc c) && get_term l c == term then lower else suc c

-- What the log check answers: the conflicting index and term, or `none` where it passes.
unfoldable pub check_prev : AppendEntriesRequest → RaftLog → Option (ℕ × ℕ)
unfolding conflict_start
check_prev req l =
    if not (ltb 0 req.prev_log_index)
    then none
    else if ltb (last_index l) req.prev_log_index
    then some (add64 (last_index l) 1, 0)
    else if get_term l req.prev_log_index == req.prev_log_term
    then none
    else some (
      conflict_start l (get_term l req.prev_log_index) req.prev_log_index,
      get_term l req.prev_log_index,
    )

-- if (req.term > currentTerm_) BecomeFollower(req.term, leader);
unfoldable pub observe_term : ℕ → ℕ → Text → RaftNode → RaftNode
unfolding become_follower
observe_term now term leader_id n =
    if ltb n.current_term term then become_follower now term leader_id n else n

-- ResetElectionTimer(); leaderId_ = req.leaderId;
unfoldable pub hear_from : ℕ → Text → RaftNode → RaftNode
unfolding reset_election_timer
hear_from now leader_id n = record (reset_election_timer now n) { leader_id = leader_id }

unfoldable pub advance_to_leader_commit : ℕ → RaftNode → RaftNode
advance_to_leader_commit leader_commit n =
    if ltb n.commit_index leader_commit
    then record n { commit_index = min leader_commit (last_index n.log) }
    else n

-- The entries and the leader's commit index, once the check has passed.
unfoldable pub accept_entries : AppendEntriesRequest → RaftNode → RaftNode
unfolding advance_to_leader_commit
accept_entries req n =
    advance_to_leader_commit req.leader_commit (record n { log = append_all req.entries n.log })

abbrev answer : ℕ → Bool → ℕ → ℕ → AppendEntriesResponse
answer term success conflict_index conflict_term = record {
  term = term;
  success = success;
  conflict_index = conflict_index;
  conflict_term = conflict_term;
}

-- The part behind the check of the term; `term` is what `resp.term` was set to at the start.
unfoldable pub append_to_log :
    ℕ → AppendEntriesRequest → RaftNode → AppendEntriesResponse × RaftNode
unfolding accept_entries check_prev
append_to_log term req n = elim (check_prev req n.log) [
  | some (index, conflict_term) ↦ (answer term false index conflict_term, n)
  | none ↦ (answer term true 0 0, accept_entries req n)
]

-- `now` is the clock reading of the timer's reset.
unfoldable pub handle_append_entries :
    ℕ → AppendEntriesRequest → RaftNode → AppendEntriesResponse × RaftNode
unfolding append_to_log hear_from observe_term
handle_append_entries now req n =
    if ltb req.term n.current_term
    then (answer n.current_term false 0 0, n)
    else append_to_log n.current_term req
        (hear_from now req.leader_id (observe_term now req.term req.leader_id n))

unfoldable pub is_log_up_to_date : ℕ → ℕ → RaftLog → Bool
is_log_up_to_date index term l =
    if not (term == last_term l) then ltb (last_term l) term else leb (last_index l) index

unfoldable pub already_voted : Text → RaftNode → Bool
unfolding is_empty text_eq
already_voted candidate_id n = not (is_empty n.voted_for) && not (text_eq n.voted_for candidate_id)

-- The decision behind the checks of the term.
unfoldable pub decide_vote : ℕ → ℕ → RequestVoteRequest → RaftNode → RequestVoteResponse × RaftNode
unfolding already_voted is_log_up_to_date persist_hard_state reset_election_timer
decide_vote now term req n =
    if not (already_voted req.candidate_id n)
      && is_log_up_to_date req.last_log_index req.last_log_term n.log
    then (
      record { term = term; vote_granted = true },
      persist_hard_state (reset_election_timer now (record n { voted_for = req.candidate_id })),
    )
    else (record { term = term; vote_granted = false }, n)

unfoldable pub handle_request_vote :
    ℕ → RequestVoteRequest → RaftNode → RequestVoteResponse × RaftNode
unfolding decide_vote observe_term
handle_request_vote now req n =
    if ltb req.term n.current_term
    then (record { term = n.current_term; vote_granted = false }, n)
    else decide_vote now n.current_term req (observe_term now req.term [] n)
