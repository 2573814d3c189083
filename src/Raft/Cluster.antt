-- ===== src/Raft/Cluster.antt =====
-- raft/RaftNode.cpp: a cluster of nodes, whose elections take turns in any order. `ballots` and `leaders`
-- are no state of the program's: they record each vote that a node has given, and each node that has
-- become the leader of a term. `elections` has what StartElection keeps on its stack: the term, the
-- votes, and, for the proofs, whose votes they are.
pub mod Roles
pub mod Invariant
pub mod Overlap
pub mod Steps
pub mod Safety
mod Tests
use distributed_key_value_st.Base.{
  ℕ, suc, ◌+◌, ◌^◌, ◌<◌, ◌≡◌, ◌≢◌, ◌⊎◌, Bool, true, Option, none, some, List, [], ◌∷◌,
  if◌then◌else◌, Text, text_eq,
}
use distributed_key_value_st.Base.Json.{Json}
use distributed_key_value_st.Storage.KvStore.{KvStore}
use distributed_key_value_st.Raft.Rpc.{
  RequestVoteRequest, RequestVoteResponse, leader, RaftRole, candidate, follower,
}
use distributed_key_value_st.Raft.Log.{WalRecord}
use distributed_key_value_st.Raft.Node.State.{RaftNode}
use distributed_key_value_st.Raft.Node.Handlers.{handle_request_vote}
use distributed_key_value_st.Raft.Node.Election.{become_candidate, count_votes, finish_election}
use distributed_key_value_st.Raft.Node.Actions.{
  Action, append_entries, request_vote, campaign, vote_response, count_up, append_response, propose,
  apply_next, snapshot_log, act,
}
use distributed_key_value_st.Raft.Node.Restart.{start}

-- `voter` has voted for `choice` in `term`.
pub record Ballot : Type 0 where
  pub voter : Text
  pub term : ℕ
  pub choice : Text

pub record Election : Type 0 where
  pub term : ℕ
  pub votes : ℕ
  pub counted : List Text

pub record Cluster : Type 0 where
  pub nodes : Text → RaftNode
  pub elections : Text → Election
  pub ballots : List Ballot
  pub leaders : List (ℕ × Text)

-- The element is in the list.
abbrev pub In : {A : Type 0} → A → List A → Type 0
In x [] = ⊥
In x (y ∷ ys) = (y ≡ x) ⊎ In x ys

abbrev pub update {ℓ} : {A : Type ℓ} → Text → A → (Text → A) → Text → A
update m a f i = if text_eq m i then a else f i

-- HandleRequestVote on node `m`.
unfoldable pub cast_vote : ℕ → Text → RequestVoteRequest → Cluster → Cluster
unfolding handle_request_vote
cast_vote now m req c =
    let (resp, n) = handle_request_vote now req (c.nodes m) in
    record c {
      nodes = update m n c.nodes;
      ballots =
          if resp.vote_granted
          then record { voter = m; term = req.term; choice = req.candidate_id } ∷ c.ballots
          else c.ballots;
    }

-- The first critical section of StartElection on node `m`, with `votes{1}`.
unfoldable pub open_election : ℕ → Text → Cluster → Cluster
unfolding become_candidate
open_election now m c =
    let n = become_candidate now (c.nodes m) in
    record c {
      nodes = update m n c.nodes;
      elections =
          update m (record { term = n.current_term; votes = 1; counted = m ∷ [] }) c.elections;
      ballots = record { voter = m; term = n.current_term; choice = m } ∷ c.ballots;
    }

-- The election behind the answer of `p`, with the votes that the loop has then; `none` is the return
-- from StartElection where a newer term ends the election.
unfoldable pub after_answer : Text → RequestVoteResponse → Option ℕ → Election → Election
after_answer p resp none e = record e { votes = 0; counted = [] }
after_answer p resp (some v) e = record e {
  votes = v;
  counted = if resp.vote_granted then p ∷ e.counted else e.counted;
}

-- One turn of the loop over the futures on node `m`, with the answer of `p`.
unfoldable pub take_answer : ℕ → Text → Text → RequestVoteResponse → Cluster → Cluster
unfolding count_votes after_answer
take_answer now m p resp c =
    let e = c.elections m in
    let (votes, n) = count_votes now e.term (some resp ∷ []) e.votes (c.nodes m) in
    record c {
      nodes = update m n c.nodes;
      elections = update m (after_answer p resp votes e) c.elections;
    }

-- The node has become a leader.
abbrev pub is_leader_role : RaftRole → Bool
is_leader_role leader = true
is_leader_role follower = Bool.false
is_leader_role candidate = Bool.false

-- The count at the end of StartElection on node `m`.
unfoldable pub close_election : (Json → Text) → Text → Cluster → Cluster
unfolding finish_election
close_election dump m c =
    let e = c.elections m in
    let n = finish_election dump e.term e.votes (c.nodes m) in
    record c {
      nodes = update m n c.nodes;
      leaders = if is_leader_role n.role then (n.current_term, m) ∷ c.leaders else c.leaders;
    }

-- Any other critical section of node `m`.
unfoldable pub run_action : (Json → Text) → Text → Action → Cluster → Cluster
unfolding act
run_action dump m a c = record c { nodes = update m (act dump a (c.nodes m)) c.nodes }

-- Node `m` stops and starts again from its write-ahead log, out of an election if it was in one.
unfoldable pub restart : ℕ → Text → KvStore → List WalRecord → Cluster → Cluster
unfolding start
restart now m store rs c = record c {
  nodes = update m (start now (c.nodes m).config store (some rs)) c.nodes;
  elections = update m (record { term = 0; votes = 0; counted = [] }) c.elections;
}

-- The actions that are no part of an election.
abbrev pub IsQuiet : Action → Type 0
IsQuiet (append_entries now req) = Unit
IsQuiet (request_vote now req) = ⊥
IsQuiet (campaign now) = ⊥
IsQuiet (vote_response now term resp) = ⊥
IsQuiet (count_up term votes) = ⊥
IsQuiet (append_response now peer req resp) = Unit
IsQuiet (propose key value op ttl_ms) = Unit
IsQuiet (apply_next now) = Unit
IsQuiet (snapshot_log now) = Unit

-- The steps of a cluster. An answer with a vote is from a member whose vote the election has not
-- counted and who has given it; identifiers are not empty; term counters do not wrap around.
pub data Step (dump : Json → Text) (members : List Text) : Cluster → Cluster → Type 0 where
  voting :
      (now : ℕ) (m : Text) (req : RequestVoteRequest) (c : Cluster)
      → req.candidate_id ≢ []
      → Step dump members c (cast_vote now m req c)
  opening :
      (now : ℕ) (m : Text) (c : Cluster)
      → In m members
      → m ≢ []
      → (c.nodes m).current_term + 1 < 2 ^ 64
      → Step dump members c (open_election now m c)
  answering :
      (now : ℕ) (m p : Text) (resp : RequestVoteResponse) (c : Cluster)
      → (resp.vote_granted ≡ true
          → In p members
            × ¬ In p (c.elections m).counted
            × In (record { voter = p; term = (c.elections m).term; choice = m }) c.ballots)
      → Step dump members c (take_answer now m p resp c)
  closing : (m : Text) (c : Cluster) → Step dump members c (close_election dump m c)
  acting :
      (m : Text) (a : Action) (c : Cluster)
      → IsQuiet a
      → (c.nodes m).current_term + 1 < 2 ^ 64
      → Step dump members c (run_action dump m a c)
  restarting :
      (now : ℕ) (m : Text) (store : KvStore) (rs : List WalRecord) (c : Cluster)
      → (c.nodes m).log.wal ≡ some rs
      → Step dump members c (restart now m store rs c)

pub data Run (dump : Json → Text) (members : List Text) : Cluster → Cluster → Type 0 where
  here : (c : Cluster) → Run dump members c c
  then_step :
      (a b c : Cluster) → Run dump members a b → Step dump members b c → Run dump members a c
