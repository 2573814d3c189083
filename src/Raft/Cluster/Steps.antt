-- ===== src/Raft/Cluster/Steps.antt =====
-- raft/RaftNode.cpp: every step of a cluster keeps the invariant.
use distributed_key_value_st.Base.{
  ℕ, ◌+◌, ◌^◌, ◌≤◌, ◌<◌, ◌≡◌, ◌≢◌, ◌⊎◌, inl, inr, refl, sym, ◌∙◌, ap, true, false, Option, none,
  some, List, [], ◌∷◌, arith, if◌then◌else◌, Text, text_eq_refl, length, Bool-cases,
}
use distributed_key_value_st.Base.Json.{Json}
use distributed_key_value_st.Storage.KvStore.{KvStore}
use distributed_key_value_st.Raft.Rpc.{
  RequestVoteRequest, RequestVoteResponse, RaftRole, leader, follower, candidate,
}
use distributed_key_value_st.Raft.Log.{WalRecord}
use distributed_key_value_st.Raft.Node.State.{RaftConfig, quorum_size}
use distributed_key_value_st.Raft.Node.Handlers.{handle_request_vote}
use distributed_key_value_st.Raft.Node.Election.{become_candidate, count_votes, finish_election}
use distributed_key_value_st.Raft.Node.Actions.{
  Action, request_vote, campaign, vote_response, count_up, act, act_all,
}
use distributed_key_value_st.Raft.Node.Restart.{start, start_lem}
use distributed_key_value_st.Raft.Node.Terms.{Advances, handle_request_vote-Advances, act-Advances}
use distributed_key_value_st.Raft.Node.Durability.{IsDurable, act-IsDurable}
use distributed_key_value_st.Raft.Node.Voting.{vote_granted_state}
use distributed_key_value_st.Raft.Cluster.{
  Ballot, Election, Cluster, In, update, after_answer, cast_vote, open_election, take_answer,
  close_election, run_action, restart, is_leader_role, IsQuiet, Step, voting, opening, answering,
  closing, acting, restarting, Run, here, then_step,
}
use distributed_key_value_st.Raft.Cluster.Roles.{
  handle_request_vote-Follows, act-Follows, count_votes_one, finish_election_lem, start_role,
}
use distributed_key_value_st.Raft.Cluster.Invariant.{
  Safe, Supported, HasQuorum, node_step, ballot_step, election_step, leader_step,
}

update_same : {A : Type 0} (m : Text) (a : A) (f : Text → A) → update m a f m ≡ a
update_same m a f = rw (text_eq_refl m, update) refl

is_leader_role-leader : (r : RaftRole) → is_leader_role r ≡ true → r ≡ leader
is_leader_role-leader leader h = refl
is_leader_role-leader follower h = cc
is_leader_role-leader candidate h = cc

module _ (dump : Json → Text) (members : List Text) (config_of : Text → RaftConfig)
    (named : (m : Text) → (config_of m).node_id ≡ m) where
  cast_vote-Safe :
      (now : ℕ) (m : Text) (req : RequestVoteRequest) (c : Cluster)
      → req.candidate_id ≢ []
      → Safe members config_of c
      → Safe members config_of (cast_vote now m req c)
  unfolding cast_vote act
  cast_vote-Safe now m req c h s =
      let n = c.nodes m in
      let n' = (handle_request_vote now req n).1 in
      let f = handle_request_vote-Follows now req n in
      let c1 : Cluster = record c { nodes = update m n' c.nodes } in
      let s1 =
        node_step members config_of c m n' s (f.same_config ∙ s.configured m)
          (act-IsDurable dump (request_vote now req) n (s.durable m))
          (handle_request_vote-Advances now req n)
          (λ l. let (was, same) = f.led l in rw same (s.leading m was)) in
      elim (Bool-cases (handle_request_vote now req n).0.vote_granted) [
        | inl granted ↦
            let (term_is, vote_is, _, _, _) = vote_granted_state now req n granted in
            let b : Ballot = record { voter = m; term = req.term; choice = req.candidate_id } in
            let at_m : c1.nodes m ≡ n' = update_same m n' c.nodes in
            rw (granted, cast_vote)
              (ballot_step members config_of c1 b s1 h (ap (λ k. k.current_term) at_m ∙ term_is)
                (ap (λ k. k.voted_for) at_m ∙ vote_is))
        | inr refused ↦ rw (refused, cast_vote) s1
      ]

  open_election-Safe :
      (now : ℕ) (m : Text) (c : Cluster)
      → In m members
      → m ≢ []
      → (c.nodes m).current_term + 1 < 2 ^ 64
      → Safe members config_of c
      → Safe members config_of (open_election now m c)
  unfolding open_election become_candidate act
  open_election-Safe now m c member h k s =
      let n = c.nodes m in
      let n' = become_candidate now n in
      let c1 : Cluster = record c { nodes = update m n' c.nodes } in
      let s1 =
        node_step members config_of c m n' s (s.configured m)
          (act-IsDurable dump (campaign now) n (s.durable m)) (act-Advances dump (campaign now) n k)
          (λ l. cc) in
      let b : Ballot = record { voter = m; term = n'.current_term; choice = m } in
      let at_m : c1.nodes m ≡ n' = update_same m n' c.nodes in
      let own : n.config.node_id ≡ m = ap (λ k. k.node_id) (s.configured m) ∙ named m in
      let c2 : Cluster = record c1 { ballots = b ∷ c.ballots } in
      let s2 =
        ballot_step members config_of c1 b s1 h (ap (λ k. k.current_term) at_m)
          (ap (λ k. k.voted_for) at_m ∙ own) in
      let e : Election = record { term = n'.current_term; votes = 1; counted = m ∷ [] } in
      election_step members config_of c2 m e s2
        (
          ((λ x. x), tt),
          λ p there. elim there [
            | inl same ↦ rw (← same) (member, inl refl)
            | inr none_there ↦ absurd none_there
          ],
        )
        (omega arith)

  after_answer-Supported :
      (p : Text) (resp : RequestVoteResponse) (o : Option ℕ) (e : Election) (ballots : List Ballot)
      (m : Text)
      → Supported members ballots e.term m e.counted
      → e.votes ≤ length e.counted
      → (o ≡ none) ⊎ ((v : ℕ) × (o ≡ some v) × (v ≤ e.votes + (if resp.vote_granted then 1 else 0)))
      → (resp.vote_granted ≡ true
          → In p members
            × ¬ In p e.counted
            × In (record { voter = p; term = e.term; choice = m }) ballots)
      → let e' = after_answer p resp o e in
        Supported members ballots e'.term m e'.counted × (e'.votes ≤ length e'.counted)
  unfolding after_answer
  after_answer-Supported p resp o e ballots m supported enough outcome backed = elim outcome [
    | inl ended ↦ rw (ended, after_answer) ((tt, λ q there. absurd there), omega arith)
    | inr (v, counted_up, most) ↦ elim (Bool-cases resp.vote_granted) [
      | inl granted ↦
          let (member, new, voted) = backed granted in
          let most' : v ≤ e.votes + 1 = rw granted at most in
          rw (counted_up, granted, after_answer)
            (
              (
                (new, supported.0),
                λ q there. elim there [
                  | inl same ↦ rw (← same) (member, voted)
                  | inr before ↦ supported.1 q before
                ],
              ),
              omega arith,
            )
      | inr refused ↦
          let most' : v ≤ e.votes + 0 = rw refused at most in
          rw (counted_up, refused, after_answer) (supported, omega arith)
    ]
  ]

  take_answer-Safe :
      (now : ℕ) (m p : Text) (resp : RequestVoteResponse) (c : Cluster)
      → (resp.vote_granted ≡ true
          → In p members
            × ¬ In p (c.elections m).counted
            × In (record { voter = p; term = (c.elections m).term; choice = m }) c.ballots)
      → Safe members config_of c
      → Safe members config_of (take_answer now m p resp c)
  unfolding take_answer act
  take_answer-Safe now m p resp c backed s =
      let n = c.nodes m in
      let e = c.elections m in
      let r = count_votes now e.term (some resp ∷ []) e.votes n in
      let (f, a, same_node, outcome) = count_votes_one now e.term e.votes resp n in
      let (supported, enough) = s.counted m in
      let c1 : Cluster = record c { nodes = update m r.1 c.nodes } in
      let durable_node : IsDurable r.1 =
        rw same_node (act-IsDurable dump (vote_response now e.term resp) n (s.durable m)) in
      let s1 =
        node_step members config_of c m r.1 s (f.same_config ∙ s.configured m) durable_node a
          (λ l. let (was, same) = f.led l in rw same (s.leading m was)) in
      let (supported', enough') =
        after_answer-Supported p resp r.0 e c.ballots m supported enough outcome backed in
      election_step members config_of c1 m (after_answer p resp r.0 e) s1 supported' enough'

  close_election-Safe :
      (m : Text) (c : Cluster)
      → Safe members config_of c
      → Safe members config_of (close_election dump m c)
  unfolding close_election act
  close_election-Safe m c s =
      let n = c.nodes m in
      let e = c.elections m in
      let n' = finish_election dump e.term e.votes n in
      let (config_kept, a, term_kept, wins) = finish_election_lem dump e.term e.votes n in
      let (supported, enough) = s.counted m in
      let d = act-IsDurable dump (count_up e.term e.votes) n (s.durable m) in
      elim (Bool-cases (is_leader_role n'.role)) [
        | inl leads ↦
            let quorum : HasQuorum members c.ballots (config_of m) n'.current_term m =
              elim (wins (is_leader_role-leader n'.role leads)) [
                | inl was ↦
                    let there : In (n'.current_term, m) c.leaders =
                      rw term_kept (s.leading m was) in
                    s.elected n'.current_term m there
                | inr (now, q) ↦
                    let t : n'.current_term ≡ e.term = term_kept ∙ now in
                    let q' : quorum_size (config_of m) ≤ e.votes = rw (s.configured m) at q in
                    rw t (e.counted, supported, omega (arith, q', enough))
              ] in
            let c1 : Cluster = record c { leaders = (n'.current_term, m) ∷ c.leaders } in
            rw (leads, close_election)
              (node_step members config_of c1 m n'
                (leader_step members config_of c n'.current_term m s quorum)
                (config_kept ∙ s.configured m) d a (λ _. inl refl))
        | inr follows ↦
            rw (follows, close_election)
              (node_step members config_of c m n' s (config_kept ∙ s.configured m) d a
                (λ l. let bad : true ≡ false = rw l at follows in cc))
      ]

  run_action-Safe :
      (m : Text) (a : Action) (c : Cluster)
      → IsQuiet a
      → (c.nodes m).current_term + 1 < 2 ^ 64
      → Safe members config_of c
      → Safe members config_of (run_action dump m a c)
  unfolding run_action
  run_action-Safe m a c q k s =
      let n = c.nodes m in
      let f = act-Follows dump a n q in
      node_step members config_of c m (act dump a n) s (f.same_config ∙ s.configured m)
        (act-IsDurable dump a n (s.durable m)) (act-Advances dump a n k)
        (λ l. let (was, same) = f.led l in rw same (s.leading m was))

  restart-Safe :
      (now : ℕ) (m : Text) (store : KvStore) (rs : List WalRecord) (c : Cluster)
      → (c.nodes m).log.wal ≡ some rs
      → Safe members config_of c
      → Safe members config_of (restart now m store rs c)
  unfolding restart act_all
  restart-Safe now m store rs c w s =
      let n = c.nodes m in
      let n' = start now n.config store (some rs) in
      let (term_kept, vote_kept, d) = start_lem dump [] n rs now n.config store (s.durable m) w in
      let (config_kept, follows) = start_role now n.config store rs in
      let c1 : Cluster = record c { nodes = update m n' c.nodes } in
      let a : Advances n n' = record {
        rises = omega (arith, term_kept);
        keeps_vote = λ _ _. vote_kept;
      } in
      let s1 =
        node_step members config_of c m n' s (config_kept ∙ s.configured m) d a
          (λ l. let bad : follower ≡ leader = sym follows ∙ l in cc) in
      election_step members config_of c1 m (record { term = 0; votes = 0; counted = [] }) s1
        (tt, λ q there. absurd there) (omega arith)

  Step-Safe :
      (c c' : Cluster)
      → Step dump members c c'
      → Safe members config_of c
      → Safe members config_of c'
  Step-Safe _ _ (voting now m req c h) s = cast_vote-Safe now m req c h s
  Step-Safe _ _ (opening now m c member h k) s = open_election-Safe now m c member h k s
  Step-Safe _ _ (answering now m p resp c backed) s = take_answer-Safe now m p resp c backed s
  Step-Safe _ _ (closing m c) s = close_election-Safe m c s
  Step-Safe _ _ (acting m a c q k) s = run_action-Safe m a c q k s
  Step-Safe _ _ (restarting now m store rs c w) s = restart-Safe now m store rs c w s

  pub Run-Safe :
      (c c' : Cluster)
      → Run dump members c c'
      → Safe members config_of c
      → Safe members config_of c'
  Run-Safe _ _ (here c) s = s
  Run-Safe _ _ (then_step a b c r t) s = Step-Safe b c t (Run-Safe a b r s)
