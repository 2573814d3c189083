-- ===== src/Raft/Node/Refusing.antt =====
-- raft/RaftNode.cpp: what HandleAppendEntries answers when the log check fails.
use distributed_key_value_st.Base.{
  ℕ, zero, suc, ◌≤◌, ◌<◌, ◌≡◌, ◌≢◌, inl, inr, refl, sym, ◌∙◌, ap, Bool, true, false, arith, ltb,
  add64, ltb→lt, ◌==◌, ◌&&◌, add64, Bool-cases,
}
use distributed_key_value_st.Raft.Rpc.{AppendEntriesRequest, AppendEntriesResponse}
use distributed_key_value_st.Raft.Log.{RaftLog, last_index, get_term}
use distributed_key_value_st.Raft.Node.State.{RaftNode, become_follower}
use distributed_key_value_st.Raft.Node.Handlers.{
  handle_append_entries, append_to_log, check_prev, hear_from, conflict_start,
}
use distributed_key_value_st.Raft.Log.Same.{SameEntries, SameEntries-lookup}
use distributed_key_value_st.Raft.Node.Follower.{
  append_entries_stale, append_entries_newer, append_entries_same, compare_terms,
}

conflict_start_lem :
    (l : RaftLog) (term c : ℕ)
    → get_term l c ≡ term
    → (conflict_start l term c ≤ c)
      × ((i : ℕ) → conflict_start l term c ≤ i → i ≤ c → get_term l i ≡ term)
unfolding conflict_start
conflict_start_lem l term zero h =
    (omega arith, λ i lo hi. let at_zero : i ≡ 0 = omega arith in rw at_zero h)
conflict_start_lem l term (suc c) h =
    elim (Bool-cases (ltb l.snapshot_index (suc c) && get_term l c == term)) [
      | inl on ↦
          let (le, all) = conflict_start_lem l term c (ground arith) in
          rw on (
            omega arith,
            λ i lo hi. elim (Bool-cases (i == suc c)) [
              | inl top ↦ let at_top : i ≡ suc c = ground arith in rw at_top h
              | inr low ↦ all i lo (ground arith)
            ],
          )
      | inr stop ↦
          rw stop (omega arith, λ i lo hi. let at_top : i ≡ suc c = omega arith in rw at_top h)
    ]

-- Why a request is refused, and what the answer says then: the request's term is behind; the log is
-- too short, and the answer points past its end; or the log has another term at the index asked for,
-- and the answer gives that term, and an index from which on, up to that one, the log has it.
pub data Refusal (req : AppendEntriesRequest) (n : RaftNode) (resp : AppendEntriesResponse)
    : Type 0 where
  stale : req.term < n.current_term → Refusal req n resp
  too_short :
      last_index n.log < req.prev_log_index
      → resp.conflict_index ≡ add64 (last_index n.log) 1
      → resp.conflict_term ≡ 0
      → Refusal req n resp
  conflict :
      resp.conflict_term ≡ get_term n.log req.prev_log_index
      → resp.conflict_term ≢ req.prev_log_term
      → resp.conflict_index ≤ req.prev_log_index
      → ((i : ℕ)
          → resp.conflict_index ≤ i
          → i ≤ req.prev_log_index
          → get_term n.log i ≡ resp.conflict_term)
      → Refusal req n resp

pub append_to_log-Refusal :
    (term : ℕ) (req : AppendEntriesRequest) (n : RaftNode)
    → (append_to_log term req n).0.success ≡ false
    → ((append_to_log term req n).1 ≡ n) × Refusal req n (append_to_log term req n).0
unfolding append_to_log
append_to_log-Refusal term req n h = elim (Bool-cases (ltb 0 req.prev_log_index)) [
  | inr first ↦
      let accepted : ◌≡◌ {A = Bool} true false = rw (first, append_to_log, check_prev) at h in cc
  | inl later ↦ elim (Bool-cases (ltb (last_index n.log) req.prev_log_index)) [
    | inl short ↦
        rw (later, short, append_to_log, check_prev)
          (refl, too_short (ltb→lt (last_index n.log) req.prev_log_index short) refl refl)
    | inr long ↦ elim (Bool-cases (get_term n.log req.prev_log_index == req.prev_log_term)) [
      | inl agrees ↦
          let accepted : ◌≡◌ {A = Bool} true false =
            rw (later, long, agrees, append_to_log, check_prev) at h in
          cc
      | inr differs ↦
          let (le, all) =
            conflict_start_lem n.log (get_term n.log req.prev_log_index) req.prev_log_index refl in
          rw (later, long, differs, append_to_log, check_prev)
            (refl, conflict refl (λ same. ground arith) le all)
    ]
  ]
]

Refusal-same :
    (req : AppendEntriesRequest) (n x : RaftNode) (resp : AppendEntriesResponse)
    → SameEntries n.log x.log
    → n.current_term ≤ req.term
    → x.current_term ≤ req.term
    → Refusal req x resp
    → Refusal req n resp
Refusal-same req n x resp same le le' (stale h) = absurd (omega arith)
Refusal-same req n x resp same le le' (too_short h i t) =
    let last = (SameEntries-lookup n.log x.log 0 same).2 in too_short (rw last h) (rw last i) t
Refusal-same req n x resp same le le' (conflict t d i all) =
    conflict (t ∙ sym (SameEntries-lookup n.log x.log req.prev_log_index same).0) d i
      (λ j lo hi. (SameEntries-lookup n.log x.log j same).0 ∙ all j lo hi)

-- A refused request changes neither the log's entries nor the commit index, and the answer gives one
-- of the reasons of `Refusal`.
pub append_entries_refused :
    (now : ℕ) (req : AppendEntriesRequest) (n : RaftNode)
    → (handle_append_entries now req n).0.success ≡ false
    → ((handle_append_entries now req n).1.log.entries ≡ n.log.entries)
      × ((handle_append_entries now req n).1.commit_index ≡ n.commit_index)
      × Refusal req n (handle_append_entries now req n).0
unfolding hear_from become_follower
append_entries_refused now req n h = elim (compare_terms req.term n.current_term) [
  | inl behind ↦ rw (append_entries_stale now req n behind) (refl, refl, stale behind)
  | inr (inl same) ↦
      let e = append_entries_same now req n same in
      let x = hear_from now req.leader_id n in
      let (kept, why) = append_to_log-Refusal n.current_term req x (rw e at h) in
      rw e (
        ap (λ (m : RaftNode). m.log.entries) kept,
        ap (λ (m : RaftNode). m.commit_index) kept,
        Refusal-same req n x (append_to_log n.current_term req x).0 (refl, refl, refl) (omega arith)
            (omega arith) why,
      )
  | inr (inr newer) ↦
      let e = append_entries_newer now req n newer in
      let x = hear_from now req.leader_id (become_follower now req.term req.leader_id n) in
      let (kept, why) = append_to_log-Refusal n.current_term req x (rw e at h) in
      rw e (
        ap (λ (m : RaftNode). m.log.entries) kept,
        ap (λ (m : RaftNode). m.commit_index) kept,
        Refusal-same req n x (append_to_log n.current_term req x).0 (refl, refl, refl) (omega arith)
            (omega arith) why,
      )
]
