-- ===== src/Raft/Cluster/Roles.antt =====
-- raft/RaftNode.cpp: a node becomes a leader by the count of an election alone.
use distributed_key_value_st.Base.{
  ℕ, ◌+◌, ◌≤◌, ◌⊎◌, List, if◌then◌else◌, ◌≡◌, refl, ◌∙◌, some, [], ◌∷◌, none, arith, ltb,
  Option-cases, Bool-cases, inl, inr, add64, Text, length,
}
use distributed_key_value_st.Base.Json.{Json}
use distributed_key_value_st.Storage.KvStore.{KvStore, SnapshotItem}
use distributed_key_value_st.Raft.Rpc.{
  LogEntry, AppendEntriesRequest, AppendEntriesResponse, RequestVoteRequest, RequestVoteResponse,
  leader, follower,
}
use distributed_key_value_st.Raft.Log.{get_entry, last_index, WalRecord}
use distributed_key_value_st.Raft.Node.State.{RaftConfig, RaftNode, quorum_size}
use distributed_key_value_st.Raft.Node.Handlers.{
  handle_append_entries, handle_request_vote, append_to_log, check_prev, observe_term, decide_vote,
  hear_from,
}
use distributed_key_value_st.Raft.Node.Replication.{
  on_append_response, advance_commit_index, committable, record_match,
}
use distributed_key_value_st.Raft.Node.Election.{count_votes, finish_election}
use distributed_key_value_st.Raft.Node.Apply.{apply_rounds, maybe_snapshot, begin_propose}
use distributed_key_value_st.Raft.Node.Actions.{
  Action, append_entries, request_vote, campaign, vote_response, count_up, append_response, propose,
  apply_next, snapshot_log, act,
}
use distributed_key_value_st.Storage.Wal.{RecoveryResult, recover}
use distributed_key_value_st.Raft.Node.Terms.{Advances, Advances-refl}
use distributed_key_value_st.Raft.Node.Restart.{start, recover_node, install_snapshot, fresh_node}
use distributed_key_value_st.Raft.Cluster.{IsQuiet}

-- The node has the same configuration, and it is a leader only where it was one in the same term.
pub record Follows (n m : RaftNode) : Type 0 where
  pub same_config : m.config ≡ n.config
  pub led : m.role ≡ leader → (n.role ≡ leader) × (m.current_term ≡ n.current_term)

Follows-refl : (n : RaftNode) → Follows n n
Follows-refl n = record { same_config = refl; led = λ h. (h, refl) }

Follows-trans : (n m k : RaftNode) → Follows n m → Follows m k → Follows n k
Follows-trans n m k a b = record {
  same_config = b.same_config ∙ a.same_config;
  led = λ h. let (middle, t) = b.led h in let (first, t') = a.led middle in (first, t ∙ t');
}

observe_term-Follows :
    (now term : ℕ) (leader_id : Text) (n : RaftNode) → Follows n (observe_term now term leader_id n)
unfolding observe_term
observe_term-Follows now term leader_id n = ground arith

append_to_log-Follows :
    (term : ℕ) (req : AppendEntriesRequest) (n : RaftNode) → Follows n (append_to_log term req n).1
unfolding append_to_log
append_to_log-Follows term req n = elim (Option-cases (check_prev req n.log)) [
  | inl passes ↦ rw (passes, append_to_log) (ground arith)
  | inr (_, fails) ↦ rw (fails, append_to_log) (Follows-refl n)
]

hear_from-Follows :
    (now : ℕ) (leader_id : Text) (n : RaftNode) → Follows n (hear_from now leader_id n)
unfolding hear_from
hear_from-Follows now leader_id n = record { same_config = refl; led = λ h. (h, refl) }

handle_append_entries-Follows :
    (now : ℕ) (req : AppendEntriesRequest) (n : RaftNode)
    → Follows n (handle_append_entries now req n).1
unfolding handle_append_entries
handle_append_entries-Follows now req n = elim (Bool-cases (ltb req.term n.current_term)) [
  | inl stale ↦ rw (stale, handle_append_entries) (Follows-refl n)
  | inr current ↦
      let seen = observe_term now req.term req.leader_id n in
      let heard = hear_from now req.leader_id seen in
      rw (current, handle_append_entries)
        (Follows-trans n heard (append_to_log n.current_term req heard).1
          (Follows-trans n seen heard (observe_term-Follows now req.term req.leader_id n)
            (hear_from-Follows now req.leader_id seen))
          (append_to_log-Follows n.current_term req heard))
]

pub handle_request_vote-Follows :
    (now : ℕ) (req : RequestVoteRequest) (n : RaftNode)
    → Follows n (handle_request_vote now req n).1
unfolding handle_request_vote decide_vote
handle_request_vote-Follows now req n = ground arith

advance_commit_index-Follows : (n : RaftNode) → Follows n (advance_commit_index n)
unfolding advance_commit_index
advance_commit_index-Follows n = elim (Option-cases (committable n (last_index n.log))) [
  | inl nothing ↦ rw (nothing, advance_commit_index) (Follows-refl n)
  | inr (i, found) ↦
      rw (found, advance_commit_index) (record { same_config = refl; led = λ h. (h, refl) })
]

on_append_response-Follows :
    (now : ℕ) (peer : Text) (req : AppendEntriesRequest) (resp : AppendEntriesResponse)
    (n : RaftNode)
    → Follows n (on_append_response now peer req resp n)
unfolding on_append_response
on_append_response-Follows now peer req resp n = ground (
  arith,
  advance_commit_index-Follows
      (record_match peer (add64 req.prev_log_index (length req.entries)) n),
)

pub act-Follows :
    (dump : Json → Text) (a : Action) (n : RaftNode) → IsQuiet a → Follows n (act dump a n)
unfolding act begin_propose apply_rounds maybe_snapshot
act-Follows dump (append_entries now req) n q = handle_append_entries-Follows now req n
act-Follows dump (request_vote now req) n q = absurd q
act-Follows dump (campaign now) n q = absurd q
act-Follows dump (vote_response now term resp) n q = absurd q
act-Follows dump (count_up term votes) n q = absurd q
act-Follows dump (append_response now peer req resp) n q =
    on_append_response-Follows now peer req resp n
act-Follows dump (propose key value op ttl_ms) n q = ground arith
act-Follows dump (apply_next now) n q =
    elim (Option-cases (get_entry n.log (add64 n.last_applied 1))) [
      | inl absent ↦ rw (absent, apply_rounds) (ground arith)
      | inr (e, found) ↦ rw (found, apply_rounds) (ground arith)
    ]
act-Follows dump (snapshot_log now) n q = ground arith

-- One turn of the loop over the answers: where a newer term ends the election, and else at most one
-- vote more, for a vote that is granted.
pub count_votes_one :
    (now term votes : ℕ) (resp : RequestVoteResponse) (n : RaftNode)
    → let (o, m) = count_votes now term (some resp ∷ []) votes n in
      Follows n m
      × Advances n m
      × (m ≡ (count_votes now term (some resp ∷ []) 0 n).1)
      × ((o ≡ none) ⊎ ((v : ℕ) × (o ≡ some v) × (v ≤ votes + (if resp.vote_granted then 1 else 0))))
unfolding count_votes
count_votes_one now term votes resp n = elim (Bool-cases (ltb n.current_term resp.term)) [
  | inl newer ↦ rw (newer, count_votes) (ground arith, ground arith, refl, inl refl)
  | inr same ↦
      rw (same, count_votes) (Follows-refl n, Advances-refl n, refl, inr (_, refl, ground arith))
]

-- The count at the end makes the node a leader only with a quorum of votes, in the election's term.
pub finish_election_lem :
    (dump : Json → Text) (term votes : ℕ) (n : RaftNode)
    → let m = finish_election dump term votes n in
      (m.config ≡ n.config)
      × Advances n m
      × (m.current_term ≡ n.current_term)
      × (m.role ≡ leader
          → (n.role ≡ leader) ⊎ ((n.current_term ≡ term) × (quorum_size n.config ≤ votes)))
unfolding finish_election
finish_election_lem dump term votes n = (ground arith, ground arith, ground arith, ground arith)

role-append_each :
    (now : ℕ) (r : RecoveryResult LogEntry (List SnapshotItem)) (n : RaftNode)
    → ((recover_node now r n).config ≡ n.config) × ((recover_node now r n).role ≡ n.role)
unfolding recover_node install_snapshot
role-append_each now r n = ground arith

-- A node that starts is no leader, and has the configuration that it is given.
pub start_role :
    (now : ℕ) (config : RaftConfig) (store : KvStore) (rs : List WalRecord)
    → ((start now config store (some rs)).config ≡ config)
      × ((start now config store (some rs)).role ≡ follower)
unfolding start
start_role now config store rs =
    role-append_each now (recover rs) (fresh_node now config store (some rs))
