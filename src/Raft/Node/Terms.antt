-- ===== src/Raft/Node/Terms.antt =====
-- raft/RaftNode.cpp: how the term and the vote of a node change.
use distributed_key_value_st.Base.{
  ℕ, ◌+◌, ◌^◌, ◌≤◌, ◌<◌, ◌≡◌, ◌≢◌, refl, sym, ◌∙◌, [], arith, ltb, Option-cases, Bool-cases, inl,
  inr, add64, Text, text_eq_iff, length,
}
use distributed_key_value_st.Base.Json.{Json}
use distributed_key_value_st.Raft.Rpc.{
  AppendEntriesRequest, AppendEntriesResponse, RequestVoteRequest,
}
use distributed_key_value_st.Raft.Log.{get_entry, last_index}
use distributed_key_value_st.Raft.Node.State.{RaftNode}
use distributed_key_value_st.Raft.Node.Handlers.{
  handle_append_entries, handle_request_vote, append_to_log, check_prev, observe_term, decide_vote,
  hear_from,
}
use distributed_key_value_st.Raft.Node.Replication.{
  on_append_response, advance_commit_index, committable, record_match,
}
use distributed_key_value_st.Raft.Node.Election.{become_candidate, count_votes, finish_election}
use distributed_key_value_st.Raft.Node.Apply.{apply_rounds, maybe_snapshot, begin_propose}
use distributed_key_value_st.Raft.Node.Actions.{
  Action, append_entries, request_vote, campaign, vote_response, count_up, append_response, propose,
  apply_next, snapshot_log, act,
}

-- From one state to a later one the term does not fall, and within a term a vote is not changed.
pub record Advances (n m : RaftNode) : Type 0 where
  pub rises : n.current_term ≤ m.current_term
  pub keeps_vote : m.current_term ≡ n.current_term → n.voted_for ≢ [] → m.voted_for ≡ n.voted_for

pub Advances-refl : (n : RaftNode) → Advances n n
Advances-refl n = record { rises = omega arith; keeps_vote = λ _ _. refl }

pub Advances-trans : (n m k : RaftNode) → Advances n m → Advances m k → Advances n k
Advances-trans n m k a b = record {
  rises = omega (arith, a.rises, b.rises);
  keeps_vote = λ same voted.
      let middle : m.current_term ≡ n.current_term = omega (arith, a.rises, b.rises) in
      let kept = a.keeps_vote middle voted in
      b.keeps_vote (same ∙ sym middle) (rw kept voted) ∙ kept;
}

observe_term-Advances :
    (now term : ℕ) (leader : Text) (n : RaftNode) → Advances n (observe_term now term leader n)
unfolding observe_term
observe_term-Advances now term leader n = ground arith

-- What comes behind the check of the term in HandleAppendEntries leaves the term and the vote alone.
append_to_log_fields :
    (term : ℕ) (req : AppendEntriesRequest) (n : RaftNode)
    → ((append_to_log term req n).1.current_term ≡ n.current_term)
      × ((append_to_log term req n).1.voted_for ≡ n.voted_for)
unfolding append_to_log
append_to_log_fields term req n = elim (Option-cases (check_prev req n.log)) [
  | inl passes ↦ rw (passes, append_to_log) (ground arith)
  | inr (_, fails) ↦ rw (fails, append_to_log) (refl, refl)
]

handle_append_entries-Advances :
    (now : ℕ) (req : AppendEntriesRequest) (n : RaftNode)
    → Advances n (handle_append_entries now req n).1
unfolding handle_append_entries
handle_append_entries-Advances now req n = elim (Bool-cases (ltb req.term n.current_term)) [
  | inl stale ↦ rw (stale, handle_append_entries) (Advances-refl n)
  | inr current ↦
      let seen = observe_term now req.term req.leader_id n in
      let heard = hear_from now req.leader_id seen in
      let (term_kept, vote_kept) = append_to_log_fields n.current_term req heard in
      rw (current, handle_append_entries)
        (Advances-trans n seen (append_to_log n.current_term req heard).1
          (observe_term-Advances now req.term req.leader_id n)
          (record { rises = omega arith; keeps_vote = λ _ _. vote_kept }))
]

decide_vote-Advances :
    (now term : ℕ) (req : RequestVoteRequest) (n : RaftNode)
    → Advances n (decide_vote now term req n).1
unfolding decide_vote
decide_vote-Advances now term req n = ground (arith, text_eq_iff n.voted_for req.candidate_id)

pub handle_request_vote-Advances :
    (now : ℕ) (req : RequestVoteRequest) (n : RaftNode)
    → Advances n (handle_request_vote now req n).1
unfolding handle_request_vote
handle_request_vote-Advances now req n = elim (Bool-cases (ltb req.term n.current_term)) [
  | inl stale ↦ rw (stale, handle_request_vote) (Advances-refl n)
  | inr current ↦
      let seen = observe_term now req.term [] n in
      rw (current, handle_request_vote)
        (Advances-trans n seen (decide_vote now n.current_term req seen).1
          (observe_term-Advances now req.term [] n)
          (decide_vote-Advances now n.current_term req seen))
]

advance_commit_index_fields :
    (n : RaftNode)
    → ((advance_commit_index n).current_term ≡ n.current_term)
      × ((advance_commit_index n).voted_for ≡ n.voted_for)
unfolding advance_commit_index
advance_commit_index_fields n = elim (Option-cases (committable n (last_index n.log))) [
  | inl nothing ↦ rw (nothing, advance_commit_index) (refl, refl)
  | inr (i, found) ↦ rw (found, advance_commit_index) (refl, refl)
]

on_append_response-Advances :
    (now : ℕ) (peer : Text) (req : AppendEntriesRequest) (resp : AppendEntriesResponse)
    (n : RaftNode)
    → Advances n (on_append_response now peer req resp n)
unfolding on_append_response
on_append_response-Advances now peer req resp n = ground (
  arith,
  advance_commit_index_fields (record_match peer (add64 req.prev_log_index (length req.entries)) n),
)

-- Whatever action of its threads the node does next, its term does not fall and it does not
-- change its vote within a term, as long as the term's counter does not wrap around.
pub act-Advances :
    (dump : Json → Text) (a : Action) (n : RaftNode)
    → n.current_term + 1 < 2 ^ 64
    → Advances n (act dump a n)
unfolding act become_candidate count_votes finish_election begin_propose apply_rounds maybe_snapshot
act-Advances dump (append_entries now req) n k = handle_append_entries-Advances now req n
act-Advances dump (request_vote now req) n k = handle_request_vote-Advances now req n
act-Advances dump (campaign now) n k = record {
  rises = omega arith;
  keeps_vote = λ same voted. absurd (omega arith);
}
act-Advances dump (vote_response now term resp) n k = ground arith
act-Advances dump (count_up term votes) n k = ground arith
act-Advances dump (append_response now peer req resp) n k =
    on_append_response-Advances now peer req resp n
act-Advances dump (propose key value op ttl_ms) n k = ground arith
act-Advances dump (apply_next now) n k =
    elim (Option-cases (get_entry n.log (add64 n.last_applied 1))) [
      | inl absent ↦ rw (absent, apply_rounds) (ground arith)
      | inr (e, found) ↦ rw (found, apply_rounds) (ground arith)
    ]
act-Advances dump (snapshot_log now) n k = ground arith
