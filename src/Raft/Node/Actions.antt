-- ===== src/Raft/Node/Actions.antt =====
-- raft/RaftNode.cpp: the critical sections under `mu_`, in which the node's threads take turns. Any
-- interleaving of the threads is a sequence of these actions.
use distributed_key_value_st.Base.{ℕ, List, [], ◌∷◌, some, if◌then◌else◌, ltb, Text}
use distributed_key_value_st.Base.Int.{ℤ}
use distributed_key_value_st.Base.Json.{Json}
use distributed_key_value_st.Raft.Rpc.{
  OpType, AppendEntriesRequest, AppendEntriesResponse, RequestVoteRequest, RequestVoteResponse,
}
use distributed_key_value_st.Raft.Node.State.{RaftNode}
use distributed_key_value_st.Raft.Node.Handlers.{handle_append_entries, handle_request_vote}
use distributed_key_value_st.Raft.Node.Replication.{on_append_response}
use distributed_key_value_st.Raft.Node.Election.{become_candidate, count_votes, finish_election}
use distributed_key_value_st.Raft.Node.Apply.{apply_rounds, maybe_snapshot, begin_propose}

pub data Action : Type 0 where
  append_entries : ℕ → AppendEntriesRequest → Action
  request_vote : ℕ → RequestVoteRequest → Action
  campaign : ℕ → Action
  vote_response : ℕ → ℕ → RequestVoteResponse → Action
  count_up : ℕ → ℕ → Action
  append_response : ℕ → Text → AppendEntriesRequest → AppendEntriesResponse → Action
  propose : Text → Text → OpType → ℤ → Action
  apply_next : ℕ → Action
  snapshot_log : ℕ → Action

unfoldable pub act : (Json → Text) → Action → RaftNode → RaftNode
act dump (append_entries now req) n = (handle_append_entries now req n).1
act dump (request_vote now req) n = (handle_request_vote now req n).1
act dump (campaign now) n = become_candidate now n
act dump (vote_response now term resp) n = (count_votes now term (some resp ∷ []) 0 n).1
act dump (count_up term votes) n = finish_election dump term votes n
act dump (append_response now peer req resp) n = on_append_response now peer req resp n
act dump (propose key value op ttl_ms) n = (begin_propose dump key value op ttl_ms n).1
act dump (apply_next now) n =
    if ltb n.last_applied n.commit_index then apply_rounds 1 (λ i. now) n else n
act dump (snapshot_log now) n = maybe_snapshot now n

unfoldable pub act_all : (Json → Text) → List Action → RaftNode → RaftNode
unfolding act
act_all dump [] n = n
act_all dump (a ∷ as') n = act_all dump as' (act dump a n)
