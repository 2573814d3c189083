-- ===== src/Raft/Cluster/Tests.antt =====
-- raft/RaftNode.cpp: a cluster of three nodes, in which one wins an election.
use distributed_key_value_st.Base.{
  ℕ, ◌≡◌, refl, inl, inr, true, false, text_eq_iff, some, List, [], ◌∷◌, arith, Text, codes,
  text_eq,
}
use distributed_key_value_st.Base.Json.{Json}
use distributed_key_value_st.Storage.KvStore
use distributed_key_value_st.Raft.Rpc.{RequestVoteRequest, RequestVoteResponse, leader}
use distributed_key_value_st.Raft.Log.{last_term, last_index}
use distributed_key_value_st.Raft.Node.State.{RaftConfig}
use distributed_key_value_st.Raft.Node.Durability.{recovered}
use distributed_key_value_st.Raft.Node.Restart.{fresh_node}
use distributed_key_value_st.Raft.Cluster.{
  Cluster, In, Step, Run, here, then_step, voting, opening, answering, closing, open_election,
  cast_vote, take_answer, close_election,
}
use distributed_key_value_st.Raft.Cluster.Safety.{IsFresh, one_leader_per_term}

abbrev members : List Text
members = codes "a" ∷ codes "b" ∷ codes "c" ∷ []

abbrev config_of : Text → RaftConfig
config_of m = record { node_id = m; peers = codes "x" ∷ codes "y" ∷ []; snapshot_threshold = 100 }

abbrev no_dump : Json → Text
no_dump j = []

abbrev idle : Cluster
idle = record {
  nodes = λ m. fresh_node 0 (config_of m) KvStore.empty (some []);
  elections = λ m. record { term = 0; votes = 0; counted = [] };
  ballots = [];
  leaders = [];
}

abbrev asked : RequestVoteRequest
asked = record { term = 1; candidate_id = codes "a"; last_log_index = 0; last_log_term = 0 }

abbrev granted : RequestVoteResponse
granted = record { term = 0; vote_granted = true }

abbrev campaigning : Cluster
campaigning = open_election 5 (codes "a") idle

abbrev voted : Cluster
voted = cast_vote 6 (codes "b") asked campaigning

abbrev answered : Cluster
answered = take_answer 7 (codes "a") (codes "b") granted voted

abbrev decided : Cluster
decided = close_election no_dump (codes "a") answered

opening-Step : Step no_dump members idle campaigning
unfolding fresh_node
opening-Step = opening 5 (codes "a") idle (inl refl) (λ e. cc) (omega arith)

answering-Step : Step no_dump members voted answered
unfolding fresh_node open_election cast_vote text_eq last_term last_index
answering-Step = answering 7 (codes "a") (codes "b") granted voted (λ _. (
  inr (inl refl),
  (λ there. elim there [
    | inl other ↦ let bad : false ≡ true = (text_eq_iff (codes "a") (codes "b")).1 other in cc
    | inr none_there ↦ absurd none_there
  ]),
  inl refl,
))

election : Run no_dump members idle decided
election =
    then_step idle answered decided
      (then_step idle voted answered
        (then_step idle campaigning voted (then_step idle idle campaigning (here idle) opening-Step)
          (voting 6 (codes "b") asked campaigning (λ e. cc)))
        answering-Step)
      (closing (codes "a") answered)

idle-IsFresh : IsFresh config_of idle
unfolding fresh_node recovered
idle-IsFresh = ((λ m. (refl, inr refl, refl, refl, refl)), refl, refl)

decided-leader : (decided.nodes (codes "a")).role ≡ leader
unfolding fresh_node open_election cast_vote take_answer close_election text_eq last_term last_index
decided-leader = refl

one_leader_per_term_example :
    ((m k : Text)
      → (decided.nodes m).role ≡ leader
      → (decided.nodes k).role ≡ leader
      → (decided.nodes m).current_term ≡ (decided.nodes k).current_term
      → m ≡ k)
    × ((term : ℕ) (m k : Text)
        → In (term, m) decided.leaders
        → In (term, k) decided.leaders
        → m ≡ k)
one_leader_per_term_example =
    one_leader_per_term no_dump members config_of idle decided (λ m. (refl, refl)) idle-IsFresh
      election
