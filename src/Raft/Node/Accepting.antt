-- ===== src/Raft/Node/Accepting.antt =====
-- raft/RaftNode.cpp: what a request that HandleAppendEntries accepts makes of the follower.
use distributed_key_value_st.Base.{
  ℕ, suc, ◌+◌, ◌^◌, ◌≤◌, ◌<◌, ◌≡◌, inl, inr, [], refl, sym, ◌∙◌, Bool, true, false, none, some,
  arith, ltb, Option-cases, if◌then◌else◌, length, get_elem?, min,
}
use distributed_key_value_st.Raft.Rpc.{LogEntry, AppendEntriesRequest}
use distributed_key_value_st.Raft.Log.{RaftLog, last_index, get_entry, get_term, append_all}
use distributed_key_value_st.Raft.Log.Bounds.{IsWellFormed, Contiguous}
use distributed_key_value_st.Raft.Log.Append.{
  Fits, append_all-IsWellFormed, get_term-append_all, get_entry-append_all_before,
}
use distributed_key_value_st.Raft.Node.State.{RaftNode, become_follower}
use distributed_key_value_st.Raft.Node.Handlers.{
  handle_append_entries, append_to_log, check_prev, accept_entries, hear_from,
}
use distributed_key_value_st.Raft.Log.Same.{SameEntries, SameEntries-lookup, IsWellFormed-same}
use distributed_key_value_st.Raft.Node.Follower.{
  append_entries_stale, append_entries_newer, append_entries_same, compare_terms,
}

-- What an accepted request makes of the node: a well-formed log that agrees with the leader's at the
-- entry before the new ones and at each of these, and that keeps what stands before them; and the
-- leader's commit index, but none past the log's end, where it is later than the node's.
pub record Accepted (req : AppendEntriesRequest) (n m : RaftNode) : Type 0 where
  pub well_formed : IsWellFormed m.log
  pub agrees_before : 0 < req.prev_log_index → get_term n.log req.prev_log_index ≡ req.prev_log_term
  pub agrees :
      (k : ℕ) (e : LogEntry)
      → get_elem? req.entries k ≡ some e
      → get_term m.log (suc req.prev_log_index + k) ≡ e.term
  pub keeps :
      (i : ℕ)
      → n.log.snapshot_index ≤ i
      → i ≤ req.prev_log_index
      → get_entry m.log i ≡ get_entry n.log i
  pub commits : m.commit_index ≡ (
      if ltb n.commit_index req.leader_commit
      then min req.leader_commit (last_index m.log)
      else n.commit_index)

check_prev_passes :
    (req : AppendEntriesRequest) (l : RaftLog)
    → check_prev req l ≡ none
    → (req.prev_log_index ≤ last_index l)
      × (0 < req.prev_log_index → get_term l req.prev_log_index ≡ req.prev_log_term)
unfolding check_prev
check_prev_passes req l h = ground arith

accept_entries_fields :
    (req : AppendEntriesRequest) (n : RaftNode)
    → ((accept_entries req n).log ≡ append_all req.entries n.log)
      × ((accept_entries req n).commit_index ≡ (
          if ltb n.commit_index req.leader_commit
          then min req.leader_commit (last_index (append_all req.entries n.log))
          else n.commit_index))
unfolding accept_entries
accept_entries_fields req n = ground arith

append_to_log-Accepted :
    (term : ℕ) (req : AppendEntriesRequest) (n : RaftNode)
    → IsWellFormed n.log
    → n.log.snapshot_index ≤ req.prev_log_index
    → Contiguous (suc req.prev_log_index) req.entries
    → suc req.prev_log_index + length req.entries ≤ 2 ^ 64
    → (append_to_log term req n).0.success ≡ true
    → Accepted req n (append_to_log term req n).1
unfolding append_to_log
append_to_log-Accepted term req n w s c b h = elim (Option-cases (check_prev req n.log)) [
  | inl passes ↦
      let (within, before) = check_prev_passes req n.log passes in
      let first = suc req.prev_log_index in
      let f : Fits n.log first req.entries = record {
        behind = omega arith;
        no_gap = omega arith;
        contiguous = c;
        bounded = b;
      } in
      let (log_is, commit_is) = accept_entries_fields req n in
      rw (passes, append_to_log)
        (record {
          well_formed = rw log_is (append_all-IsWellFormed n.log w first req.entries f);
          agrees_before = before;
          agrees = rw log_is (get_term-append_all n.log w first req.entries f);
          keeps = λ i lo hi.
              rw log_is
                (get_entry-append_all_before n.log w first req.entries f i lo (omega arith));
          commits = rw log_is commit_is;
        })
  | inr (_, fails) ↦ let refused : ◌≡◌ {A = Bool} false true = rw (fails, append_to_log) at h in cc
]

Accepted-same :
    (req : AppendEntriesRequest) (n x m : RaftNode)
    → SameEntries n.log x.log
    → x.commit_index ≡ n.commit_index
    → Accepted req x m
    → Accepted req n m
Accepted-same req n x m (entries, index, term) commit a =
    let same = λ (i : ℕ). SameEntries-lookup n.log x.log i (entries, index, term) in
    record {
      well_formed = a.well_formed;
      agrees_before = λ h. (same req.prev_log_index).0 ∙ a.agrees_before h;
      agrees = a.agrees;
      keeps = λ i lo hi. a.keeps i (rw index lo) hi ∙ sym (same i).1;
      commits = rw (← commit) a.commits;
    }

-- Where the node's log is well-formed, the entry before the request's is not covered by its
-- snapshot, and the request's entries have the indices that follow and fit 64 bits: if the answer
-- is a success, the log is well-formed afterwards, agrees in its terms with the request at the
-- entry before and at each new one, and keeps what stands before them; and the commit index is
-- the leader's, but none past the log's end, where that is later than the node's.
pub append_entries_success :
    (now : ℕ) (req : AppendEntriesRequest) (n : RaftNode)
    → IsWellFormed n.log
    → n.log.snapshot_index ≤ req.prev_log_index
    → Contiguous (suc req.prev_log_index) req.entries
    → suc req.prev_log_index + length req.entries ≤ 2 ^ 64
    → (handle_append_entries now req n).0.success ≡ true
    → Accepted req n (handle_append_entries now req n).1
unfolding hear_from become_follower
append_entries_success now req n w s c b h = elim (compare_terms req.term n.current_term) [
  | inl stale ↦
      let refused : ◌≡◌ {A = Bool} false true = rw (append_entries_stale now req n stale) at h in cc
  | inr (inl same) ↦
      let e = append_entries_same now req n same in
      let x = hear_from now req.leader_id n in
      rw e (
        Accepted-same req n x (append_to_log n.current_term req x).1 (refl, refl, refl) refl
          (append_to_log-Accepted n.current_term req x
            (IsWellFormed-same n.log x.log (refl, refl, refl) w) s c b (rw e at h)))
  | inr (inr newer) ↦
      let e = append_entries_newer now req n newer in
      let x = hear_from now req.leader_id (become_follower now req.term req.leader_id n) in
      rw e (
        Accepted-same req n x (append_to_log n.current_term req x).1 (refl, refl, refl) refl
          (append_to_log-Accepted n.current_term req x
            (IsWellFormed-same n.log x.log (refl, refl, refl) w) s c b (rw e at h)))
]

append_to_log-heartbeat :
    (term : ℕ) (req : AppendEntriesRequest) (n : RaftNode)
    → req.entries ≡ []
    → (append_to_log term req n).0.success ≡ true
    → n.commit_index < req.leader_commit
    → (append_to_log term req n).1.commit_index ≡ min req.leader_commit (last_index n.log)
unfolding append_to_log append_all
append_to_log-heartbeat term req n none_new h later = elim (Option-cases (check_prev req n.log)) [
  | inl passes ↦
      let (_, commit_is) = accept_entries_fields req n in
      rw (passes, append_to_log) (commit_is ∙ rw none_new (ground arith))
  | inr (_, fails) ↦ let refused : ◌≡◌ {A = Bool} false true = rw (fails, append_to_log) at h in cc
]

-- Where a request with no entries is accepted, and the leader's commit index and the log's end
-- both lie past the entry that was compared, and the leader's commit index is later than the
-- node's, the node commits past the entry that was compared.
pub heartbeat_commits_unchecked :
    (now : ℕ) (req : AppendEntriesRequest) (n : RaftNode)
    → req.entries ≡ []
    → (handle_append_entries now req n).0.success ≡ true
    → n.commit_index < req.leader_commit
    → req.prev_log_index < req.leader_commit
    → req.prev_log_index < last_index n.log
    → req.prev_log_index < (handle_append_entries now req n).1.commit_index
unfolding hear_from become_follower
heartbeat_commits_unchecked now req n empty h later past longer =
    elim (compare_terms req.term n.current_term) [
      | inl stale ↦
          let refused : ◌≡◌ {A = Bool} false true =
            rw (append_entries_stale now req n stale) at h in
          cc
      | inr (inl same) ↦
          let e = append_entries_same now req n same in
          let x = hear_from now req.leader_id n in
          let commits = append_to_log-heartbeat n.current_term req x empty (rw e at h) later in
          rw e (ground (arith, commits))
      | inr (inr newer) ↦
          let e = append_entries_newer now req n newer in
          let x = hear_from now req.leader_id (become_follower now req.term req.leader_id n) in
          let commits = append_to_log-heartbeat n.current_term req x empty (rw e at h) later in
          let last = (SameEntries-lookup n.log x.log 0 (refl, refl, refl)).2 in
          rw e (ground (arith, commits, last))
    ]
