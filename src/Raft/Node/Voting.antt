-- ===== src/Raft/Node/Voting.antt =====
-- raft/RaftNode.cpp: when HandleRequestVote grants a vote, and what an election needs to make a leader.
use distributed_key_value_st.Base.{
  ℕ, suc, ◌+◌, ◌*◌, ◌≤◌, ◌<◌, ◌≡◌, ◌⊎◌, ◌↔◌, inl, inr, refl, sym, ◌∙◌, ap, Bool, true, false, ◌&&◌,
  Option, none, some, List, [], ◌∷◌, arith, ltb, lt→ltb, Option-cases, Text, is_empty, text_eq_iff,
  length, count_if, add64,
}
use distributed_key_value_st.Base.Json.{Json}
use distributed_key_value_st.Raft.Rpc.{
  RequestVoteRequest, RequestVoteResponse, leader, candidate, follower,
}
use distributed_key_value_st.Raft.Log.{RaftLog, WalRecord, last_index, last_term}
use distributed_key_value_st.Raft.Node.State.{
  RaftConfig, RaftNode, quorum_size, write_hard_state, become_follower,
}
use distributed_key_value_st.Raft.Node.Handlers.{
  handle_request_vote, is_log_up_to_date, decide_vote,
}
use distributed_key_value_st.Raft.Node.Election.{
  become_candidate, count_votes, finish_election, start_election,
}

compare_terms : (a b : ℕ) → (a < b) ⊎ ((a ≡ b) ⊎ (b < a))
compare_terms a b = ground arith

-- A log that ends with this index and term is at least as up to date as `l`: its last term is later,
-- or the same and it is not shorter.
abbrev pub UpToDate : ℕ → ℕ → RaftLog → Type 0
UpToDate index term l = (last_term l < term) ⊎ ((term ≡ last_term l) × (last_index l ≤ index))

-- The node is free to vote for the candidate in the request's term: the term is new to it, or it has
-- not voted in it, or it has voted for this candidate.
abbrev pub FreeToVote : RequestVoteRequest → RaftNode → Type 0
FreeToVote req n =
    (n.current_term < req.term)
    ⊎ ((n.current_term ≡ req.term) × ((n.voted_for ≡ []) ⊎ (n.voted_for ≡ req.candidate_id)))

is_log_up_to_date_lem :
    (index term : ℕ) (l : RaftLog) → (is_log_up_to_date index term l ≡ true) ↔ UpToDate index term l
unfolding is_log_up_to_date
is_log_up_to_date_lem index term l = ground arith

is_empty_iff : (t : Text) → (is_empty t ≡ true) ↔ (t ≡ [])
unfolding is_empty
is_empty_iff [] = ground arith
is_empty_iff (x ∷ t) = ground arith

decide_vote_iff :
    (now term : ℕ) (req : RequestVoteRequest) (n : RaftNode)
    → ((decide_vote now term req n).0.vote_granted ≡ true) ↔ (
        ((n.voted_for ≡ []) ⊎ (n.voted_for ≡ req.candidate_id))
        × UpToDate req.last_log_index req.last_log_term n.log)
unfolding decide_vote
decide_vote_iff now term req n =
    ground (arith, text_eq_iff n.voted_for req.candidate_id, is_empty_iff n.voted_for)

module _ (now : ℕ) (req : RequestVoteRequest) (n : RaftNode) where
  pub request_vote_stale :
      req.term < n.current_term
      → handle_request_vote now req n ≡ (record { term = n.current_term; vote_granted = false }, n)
  unfolding handle_request_vote
  request_vote_stale h = rw (lt→ltb req.term n.current_term h)

  pub request_vote_newer :
      n.current_term < req.term
      → handle_request_vote now req n
        ≡ decide_vote now n.current_term req (become_follower now req.term [] n)
  unfolding handle_request_vote
  request_vote_newer h =
      let fresh : ltb req.term n.current_term ≡ false = ground arith in
      rw (fresh, lt→ltb n.current_term req.term h)

  pub request_vote_same :
      req.term ≡ n.current_term
      → handle_request_vote now req n ≡ decide_vote now n.current_term req n
  unfolding handle_request_vote
  request_vote_same h =
      let fresh : ltb req.term n.current_term ≡ false = ground arith in
      let same : ltb n.current_term req.term ≡ false = ground arith in rw (fresh, same)

decide_vote_granted :
    (now term : ℕ) (req : RequestVoteRequest) (n : RaftNode)
    → (decide_vote now term req n).0.vote_granted ≡ true
    → let m = (decide_vote now term req n).1 in
      (m.current_term ≡ n.current_term)
      × (m.voted_for ≡ req.candidate_id)
      × (m.log.entries ≡ n.log.entries)
      × (m.commit_index ≡ n.commit_index)
      × (m.log.wal ≡ write_hard_state n.current_term req.candidate_id n.log.wal)
unfolding decide_vote
decide_vote_granted now term req n h = ground arith

-- HandleRequestVote grants the vote exactly when the node is free to vote for the candidate and the
-- candidate's log is at least as up to date as its own.
pub vote_granted_iff :
    (now : ℕ) (req : RequestVoteRequest) (n : RaftNode)
    → ((handle_request_vote now req n).0.vote_granted ≡ true)
      ↔ (FreeToVote req n × UpToDate req.last_log_index req.last_log_term n.log)
unfolding become_follower last_index last_term
vote_granted_iff now req n =
    let m = become_follower now req.term [] n in
    elim (compare_terms req.term n.current_term) [
      | inl stale ↦ rw (request_vote_stale now req n stale) (ground arith)
      | inr (inl same) ↦
          rw (request_vote_same now req n same)
            (ground (arith, decide_vote_iff now n.current_term req n))
      | inr (inr newer) ↦ rw (request_vote_newer now req n newer) (
        λ granted. (inl newer, ((decide_vote_iff now n.current_term req m).0 granted).1),
        λ (_, recent). (decide_vote_iff now n.current_term req m).1 (inl refl, recent),
      )
    ]

-- When the vote is granted, the node is in the request's term with its vote for the candidate, its log
-- entries and its commit index are what they were, and the vote is the last record of its write-ahead
-- log.
pub vote_granted_state :
    (now : ℕ) (req : RequestVoteRequest) (n : RaftNode)
    → (handle_request_vote now req n).0.vote_granted ≡ true
    → let m = (handle_request_vote now req n).1 in
      (m.current_term ≡ req.term)
      × (m.voted_for ≡ req.candidate_id)
      × (m.log.entries ≡ n.log.entries)
      × (m.commit_index ≡ n.commit_index)
      × ((w : Option (List WalRecord)) × (m.log.wal ≡ write_hard_state req.term req.candidate_id w))
unfolding become_follower
vote_granted_state now req n h = elim (compare_terms req.term n.current_term) [
  | inl stale ↦
      let refused : ◌≡◌ {A = Bool} false true = rw (request_vote_stale now req n stale) at h in cc
  | inr (inl same) ↦
      let e = request_vote_same now req n same in
      let (term_kept, voted, entries, commit, written) =
        decide_vote_granted now n.current_term req n (rw e at h) in
      rw e (
        term_kept ∙ sym same,
        voted,
        entries,
        commit,
        (n.log.wal, written ∙ ap (λ t. write_hard_state t req.candidate_id n.log.wal) (sym same)),
      )
  | inr (inr newer) ↦
      let e = request_vote_newer now req n newer in
      let m = become_follower now req.term [] n in
      let (term_kept, voted, entries, commit, written) =
        decide_vote_granted now n.current_term req m (rw e at h) in
      rw e (term_kept, voted, entries, commit, (m.log.wal, written))
]

-- The answers that grant a vote.
abbrev pub grants : Option RequestVoteResponse → Bool
grants none = false
grants (some r) = r.vote_granted

module _ (now term : ℕ) where
  count_votes-le :
      (rs : List (Option RequestVoteResponse)) (votes v : ℕ) (n : RaftNode)
      → (count_votes now term rs votes n).0 ≡ some v
      → (v ≤ votes + count_if grants rs) × ((count_votes now term rs votes n).1 ≡ n)
  unfolding count_votes
  count_votes-le [] votes v n h = ground arith
  count_votes-le (none ∷ rs) votes v n h = count_votes-le rs votes v n h
  count_votes-le (some r ∷ rs) votes v n h =
      ground (arith, count_votes-le rs votes v n, count_votes-le rs (suc votes) v n)

  count_votes_stopped :
      (rs : List (Option RequestVoteResponse)) (votes : ℕ) (n : RaftNode)
      → (count_votes now term rs votes n).0 ≡ none
      → (count_votes now term rs votes n).1.role ≡ follower
  unfolding count_votes
  count_votes_stopped [] votes n h = cc
  count_votes_stopped (none ∷ rs) votes n h = count_votes_stopped rs votes n h
  count_votes_stopped (some r ∷ rs) votes n h =
      ground (arith, count_votes_stopped rs votes n, count_votes_stopped rs (suc votes) n)

finish_election-leader :
    (dump : Json → Text) (term votes : ℕ) (n : RaftNode)
    → n.role ≡ candidate
    → (finish_election dump term votes n).role ≡ leader
    → ((finish_election dump term votes n).current_term ≡ n.current_term)
      × (quorum_size n.config ≤ votes)
unfolding finish_election
finish_election-leader dump term votes n c h = ground arith

-- An election makes the node a leader only in the term after its own, and only if, with its own vote,
-- a majority of the cluster has granted it.
pub start_election-leader :
    (dump : Json → Text) (now : ℕ) (rs : List (Option RequestVoteResponse)) (n : RaftNode)
    → (start_election dump now rs n).role ≡ leader
    → ((start_election dump now rs n).current_term ≡ add64 n.current_term 1)
      × (length n.config.peers + 1 < 2 * suc (count_if grants rs))
unfolding start_election quorum_size
start_election-leader dump now rs n h =
    let n' = become_candidate now n in
    let r = count_votes now n'.current_term rs 1 n' in
    elim (Option-cases r.0) [
      | inl stopped ↦
          let ended : start_election dump now rs n ≡ r.1 = rw (stopped, start_election) in
          cc (count_votes_stopped now n'.current_term rs 1 n' stopped, rw ended at h)
      | inr (v, counted) ↦
          let (enough, unchanged) = count_votes-le now n'.current_term rs 1 v n' counted in
          let ran : start_election dump now rs n ≡ finish_election dump n'.current_term v n' =
            rw (counted, start_election) (ap (finish_election dump n'.current_term v) unchanged) in
          let (term_kept, quorum) =
            finish_election-leader dump n'.current_term v n' refl (rw ran at h) in
          rw ran (term_kept, omega arith)
    ]

count_if-overlap {ℓ} :
    {A : Type ℓ} (p q : A → Bool) (xs : List A)
    → count_if p xs + count_if q xs ≤ length xs + count_if (λ m. p m && q m) xs
count_if-overlap p q [] = omega arith
count_if-overlap p q (x ∷ xs) = ground (arith, count_if-overlap p q xs)

-- Two sets of members that both reach the quorum of a cluster share a member.
pub quorum_size-intersect :
    (c : RaftConfig) (members : List Text) (p q : Text → Bool)
    → length members ≡ length c.peers + 1
    → quorum_size c ≤ count_if p members
    → quorum_size c ≤ count_if q members
    → 0 < count_if (λ m. p m && q m) members
unfolding quorum_size
quorum_size-intersect c members p q size hp hq = omega (arith, count_if-overlap p q members)
