-- ===== src/Raft/Node/Replication.antt =====
-- raft/RaftNode.cpp: ReplicateToPeer, as the request that the first critical section makes and the
-- handling of the response in the second, and AdvanceCommitIndex.
use distributed_key_value_st.Base.{
  ℕ, zero, suc, ◌+◌, ◌-◌, Bool, true, false, not, ◌||◌, Option, none, some, List, [], if◌then◌else◌,
  ltb, leb, ◌==◌, max, min, Text, add64, sub64, lookup, assign, length, count_if,
}
use distributed_key_value_st.Raft.Rpc.{
  LogEntry, RaftRole, leader, follower, candidate, AppendEntriesRequest, AppendEntriesResponse,
}
use distributed_key_value_st.Raft.Log.{RaftLog, last_index, get_term, collect}
use distributed_key_value_st.Raft.Node.State.{RaftNode, quorum_size, become_follower, at_or_zero}

unfoldable pub is_leader : RaftRole → Bool
is_leader leader = true
is_leader follower = false
is_leader candidate = false

-- The matchIndex_ entries that have reached `i`, and the leader itself.
unfoldable pub replicated : ℕ → RaftNode → ℕ
replicated i n = suc (count_if (λ m. leb i m.1) n.match_index)

-- for (n = lastIndex; n > commitIndex_; --n): the first index of the current term that has a quorum.
unfoldable pub committable : RaftNode → ℕ → Option ℕ
unfolding replicated quorum_size
committable n zero = none
committable n (suc i) =
    let lower = committable n i in
    if not (ltb n.commit_index (suc i))
    then none
    else if not (get_term n.log (suc i) == n.current_term)
    then lower
    else if leb (quorum_size n.config) (replicated (suc i) n)
    then some (suc i)
    else lower

unfoldable pub advance_commit_index : RaftNode → RaftNode
unfolding committable
advance_commit_index n = elim (committable n (last_index n.log)) [
  | none ↦ n
  | some i ↦ record n { commit_index = i }
]

-- nextIndex_.count(peerId) ? nextIndex_[peerId] : log_->LastIndex() + 1
unfoldable pub next_for : Text → RaftNode → ℕ
next_for peer n = elim (lookup peer n.next_index) [ none ↦ add64 (last_index n.log) 1 | some i ↦ i ]

-- At most 100 entries from `next` on; the loop stops where GetEntry throws.
unfoldable pub batch : RaftLog → ℕ → List LogEntry
unfolding collect
batch l next = collect (min (last_index l + 1) (add64 next 100) - next) l next

-- `none` where the node does not lead.
unfoldable pub replicate_request : Text → RaftNode → Option AppendEntriesRequest
unfolding next_for batch is_leader
replicate_request peer n =
    let next = next_for peer n in
    if is_leader n.role
    then some (record {
      term = n.current_term;
      leader_id = n.config.node_id;
      prev_log_index = sub64 next 1;
      prev_log_term = get_term n.log (sub64 next 1);
      entries = batch n.log next;
      leader_commit = n.commit_index;
    })
    else none

-- for (i = LastIndex; i > SnapshotIndex; --i) if (GetTerm(i) == term) { …; break; }, 0 if there is none.
unfoldable pub last_in_term : RaftLog → ℕ → ℕ → ℕ
last_in_term l term zero = 0
last_in_term l term (suc i) =
    let lower = last_in_term l term i in
    if not (ltb l.snapshot_index (suc i))
    then 0
    else if get_term l (suc i) == term
    then suc i
    else lower

-- The new nextIndex_ after a refusal.
unfoldable pub back_up : AppendEntriesResponse → RaftLog → ℕ
unfolding last_in_term
back_up resp l =
    if ltb 0 resp.conflict_term
    then (let i = last_in_term l resp.conflict_term (last_index l) in
        if ltb 0 i then add64 i 1 else resp.conflict_index)
    else if ltb 0 resp.conflict_index
    then resp.conflict_index
    else 1

unfoldable pub record_match : Text → ℕ → RaftNode → RaftNode
unfolding at_or_zero
record_match peer new_match n =
    let reached = max (at_or_zero peer n.match_index) new_match in
    record n {
      match_index = assign peer reached n.match_index;
      next_index = assign peer (add64 reached 1) n.next_index;
    }

-- What the second critical section does with the response to the request.
unfoldable pub on_append_response :
    ℕ → Text → AppendEntriesRequest → AppendEntriesResponse → RaftNode → RaftNode
unfolding become_follower is_leader record_match advance_commit_index back_up
on_append_response now peer req resp n =
    if ltb n.current_term resp.term
    then become_follower now resp.term [] n
    else if not (is_leader n.role) || not (resp.term == n.current_term)
    then n
    else if resp.success
    then advance_commit_index (record_match peer (add64 req.prev_log_index (length req.entries)) n)
    else record n { next_index = assign peer (back_up resp n.log) n.next_index }
