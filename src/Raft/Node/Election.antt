-- ===== src/Raft/Node/Election.antt =====
-- raft/RaftNode.cpp: StartElection, as the critical section that makes the request, one round of the
-- loop for each response, and the count at the end.
use distributed_key_value_st.Base.{
  ℕ, suc, Bool, true, false, ◌&&◌, not, ◌||◌, Option, none, some, List, [], ◌∷◌, if◌then◌else◌, ltb,
  leb, ◌==◌, Text, add64,
}
use distributed_key_value_st.Base.Json.{Json}
use distributed_key_value_st.Raft.Rpc.{
  RaftRole, leader, follower, candidate, RequestVoteRequest, RequestVoteResponse,
}
use distributed_key_value_st.Raft.Log.{last_index, last_term}
use distributed_key_value_st.Raft.Node.State.{
  RaftNode, quorum_size, become_follower, become_leader, persist_hard_state,
}

unfoldable pub is_candidate : RaftRole → Bool
is_candidate candidate = true
is_candidate follower = false
is_candidate leader = false

-- A new term, with a vote for itself.
unfoldable pub become_candidate : ℕ → RaftNode → RaftNode
unfolding persist_hard_state
become_candidate now n =
    record (persist_hard_state (record n {
      current_term = add64 n.current_term 1;
      voted_for = n.config.node_id;
      role = candidate;
    })) { last_heartbeat = now }

unfoldable pub vote_request : RaftNode → RequestVoteRequest
vote_request n = record {
  term = n.current_term;
  candidate_id = n.config.node_id;
  last_log_index = last_index n.log;
  last_log_term = last_term n.log;
}

-- The loop over the responses of an election of `term`: `none` is a peer that did not answer in time.
-- With the votes counted, or `none` where a newer term ended the election.
unfoldable pub count_votes :
    ℕ → ℕ → List (Option RequestVoteResponse) → ℕ → RaftNode → Option ℕ × RaftNode
unfolding become_follower is_candidate
count_votes now term [] votes n = (some votes, n)
count_votes now term (none ∷ rs) votes n = count_votes now term rs votes n
count_votes now term (some r ∷ rs) votes n =
    let rest =
      count_votes now term rs
        (if r.vote_granted && (n.current_term == term && is_candidate n.role)
          then suc votes
          else votes)
        n in
    if ltb n.current_term r.term then (none, become_follower now r.term [] n) else rest

-- if (role_ != Candidate || currentTerm_ != term) return; if (votes >= QuorumSize()) BecomeLeader();
unfoldable pub finish_election : (Json → Text) → ℕ → ℕ → RaftNode → RaftNode
unfolding is_candidate become_leader quorum_size
finish_election dump term votes n =
    if not (is_candidate n.role) || not (n.current_term == term)
    then n
    else if leb (quorum_size n.config) votes
    then become_leader dump n
    else n

-- An election in which no other thread takes the lock between the responses.
unfoldable pub start_election :
    (Json → Text) → ℕ → List (Option RequestVoteResponse) → RaftNode → RaftNode
unfolding become_candidate count_votes finish_election
start_election dump now responses n =
    let n' = become_candidate now n in
    let (votes, n'') = count_votes now n'.current_term responses 1 n' in
    elim votes [ none ↦ n'' | some v ↦ finish_election dump n'.current_term v n'' ]
