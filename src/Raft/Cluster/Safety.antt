-- ===== src/Raft/Cluster/Safety.antt =====
-- raft/RaftNode.cpp: election safety.
use distributed_key_value_st.Base.{ℕ, ◌+◌, ◌≤◌, ◌≡◌, refl, sym, ◌∙◌, List, [], arith, Text, length}
use distributed_key_value_st.Base.Json.{Json}
use distributed_key_value_st.Raft.Rpc.{leader, follower}
use distributed_key_value_st.Raft.Node.State.{RaftConfig, quorum_size}
use distributed_key_value_st.Raft.Node.Durability.{IsDurable}
use distributed_key_value_st.Raft.Cluster.{Cluster, In, Run}
use distributed_key_value_st.Raft.Cluster.Invariant.{Safe}
use distributed_key_value_st.Raft.Cluster.Overlap.{quorums_meet}
use distributed_key_value_st.Raft.Cluster.Steps.{Run-Safe}

-- No node has voted or been a candidate yet.
abbrev pub IsFresh : (Text → RaftConfig) → Cluster → Type 0
IsFresh config_of c =
    ((m : Text)
      → ((c.nodes m).config ≡ config_of m)
        × IsDurable (c.nodes m)
        × ((c.nodes m).role ≡ follower)
        × ((c.elections m).votes ≡ 0)
        × ((c.elections m).counted ≡ []))
    × (c.ballots ≡ [])
    × (c.leaders ≡ [])

-- The configurations that a cluster of these members is given: each node has its own identifier, and the
-- others are its peers.
abbrev pub Configures : List Text → (Text → RaftConfig) → Type 0
Configures members config_of =
    (m : Text) → ((config_of m).node_id ≡ m) × (length members ≡ length (config_of m).peers + 1)

IsFresh-Safe :
    (members : List Text) (config_of : Text → RaftConfig) (c : Cluster)
    → IsFresh config_of c
    → Safe members config_of c
IsFresh-Safe members config_of c (nodes, no_ballots, no_leaders) = record {
  configured = λ m. (nodes m).0;
  durable = λ m. (nodes m).1;
  honored = λ b there. let bad : In b [] = rw no_ballots at there in absurd bad;
  one_vote = λ b b' there there' v t. let bad : In b [] = rw no_ballots at there in absurd bad;
  counted = λ m.
      let (_, _, _, none_voted, none_counted) = nodes m in
      rw (none_voted, none_counted) ((tt, λ p there. absurd there), omega arith);
  elected = λ term k there.
      let bad : In {A = ℕ × Text} (term, k) [] = rw no_leaders at there in absurd bad;
  leading = λ m l.
      let (_, _, follows, _, _) = nodes m in let bad : follower ≡ leader = sym follows ∙ l in cc;
}

quorum_size-same :
    (c c' : RaftConfig) (n : ℕ)
    → length c.peers ≡ length c'.peers
    → quorum_size c' ≤ n
    → quorum_size c ≤ n
unfolding quorum_size
quorum_size-same c c' n same h = omega arith

Safe-leaders :
    (members : List Text) (config_of : Text → RaftConfig) (c : Cluster)
    → Configures members config_of
    → Safe members config_of c
    → (term : ℕ) (m k : Text) → In (term, m) c.leaders
    → In (term, k) c.leaders
    → m ≡ k
Safe-leaders members config_of c sizes s term m k l l' =
    let (q, (d, voted), enough) = s.elected term m l in
    let (q', (d', voted'), enough') = s.elected term k l' in
    let size = (sizes m).1 in
    let size' = (sizes k).1 in
    let same_size : quorum_size (config_of m) ≤ length q' =
      quorum_size-same (config_of m) (config_of k) (length q') (omega arith) enough' in
    let (p, there, there') =
      quorums_meet (config_of m) members q q' size d d' (λ x i. (voted x i).0)
        (λ x i. (voted' x i).0) enough same_size in
    s.one_vote (record { voter = p; term = term; choice = m })
      (record { voter = p; term = term; choice = k }) (voted p there).1 (voted' p there').1 refl
      refl

-- Election safety. A cluster starts with no node having voted, every node knowing its identifier and the
-- number of the members, and runs through any sequence of steps: votes, elections, answers in any order,
-- all other work of the nodes, and restarts from the write-ahead logs. Then two nodes that are leaders
-- of the same term are one node, also if they have been leaders of it at different times.
pub one_leader_per_term :
    (dump : Json → Text) (members : List Text) (config_of : Text → RaftConfig) (c c' : Cluster)
    → Configures members config_of
    → IsFresh config_of c
    → Run dump members c c'
    → ((m k : Text)
        → (c'.nodes m).role ≡ leader
        → (c'.nodes k).role ≡ leader
        → (c'.nodes m).current_term ≡ (c'.nodes k).current_term
        → m ≡ k)
      × ((term : ℕ) (m k : Text) → In (term, m) c'.leaders → In (term, k) c'.leaders → m ≡ k)
one_leader_per_term dump members config_of c c' sizes fresh run =
    let s =
      Run-Safe dump members config_of (λ m. (sizes m).0) c c' run
        (IsFresh-Safe members config_of c fresh) in
    (
      λ m k l l' same.
          Safe-leaders members config_of c' sizes s (c'.nodes k).current_term m k
            (rw same at (s.leading m l)) (s.leading k l'),
      λ term m k l l'. Safe-leaders members config_of c' sizes s term m k l l',
    )
