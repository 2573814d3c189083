-- ===== src/Raft/Node/Applying.antt =====
-- raft/RaftNode.cpp: the inner loop of ApplyLoop and the log's committed entries.
use distributed_key_value_st.Base.{
  ℕ, zero, suc, ◌+◌, ◌-◌, ◌^◌, ◌≤◌, ◌<◌, ◌≡◌, refl, ◌∙◌, ap, some, List, [], ◌∷◌, inl, inr, arith,
  Option-cases, add64,
}
use distributed_key_value_st.Storage.KvStore.{KvStore}
use distributed_key_value_st.Raft.Rpc.{LogEntry}
use distributed_key_value_st.Raft.Log.{last_index, get_entry, get_entries, collect}
use distributed_key_value_st.Raft.Log.Bounds.{IsWellFormed, last_index-length}
use distributed_key_value_st.Raft.Log.Lookup.{get_entry-in_range}
use distributed_key_value_st.Raft.Node.State.{RaftNode}
use distributed_key_value_st.Raft.Node.Apply.{apply_entry, apply_rounds, apply_committed}

-- The state machine: the store after the operations of these entries, one after the other; the first has
-- the index `i`.
abbrev pub apply_each : (ℕ → ℕ) → ℕ → List LogEntry → KvStore → KvStore
apply_each clock i [] s = s
apply_each clock i (e ∷ es) s = apply_each clock (add64 i 1) es (apply_entry (clock i) e s)

-- The node after a round that applies `e`.
abbrev applied : (ℕ → ℕ) → LogEntry → RaftNode → RaftNode
applied clock e n = record n {
  store = apply_entry (clock (add64 n.last_applied 1)) e n.store;
  last_applied = add64 n.last_applied 1;
}

store-apply_rounds :
    (clock : ℕ → ℕ) (rounds : ℕ) (n : RaftNode)
    → let next = add64 n.last_applied 1 in
      (apply_rounds rounds clock n).store
      ≡ apply_each clock next (collect rounds n.log next) n.store
unfolding apply_rounds collect
store-apply_rounds clock zero n = refl
store-apply_rounds clock (suc rounds) n =
    elim (Option-cases (get_entry n.log (add64 n.last_applied 1))) [
      | inl absent ↦ rw (absent, apply_rounds, collect) refl
      | inr (e, found) ↦
          rw (found, apply_rounds, collect) (store-apply_rounds clock rounds (applied clock e n))
    ]

-- While the log has the entries, every round applies one and leaves all but the store alone.
fields-apply_rounds :
    (clock : ℕ → ℕ) (rounds : ℕ) (n : RaftNode)
    → IsWellFormed n.log
    → n.log.snapshot_index ≤ n.last_applied
    → n.last_applied + rounds ≤ last_index n.log
    → ((apply_rounds rounds clock n).last_applied ≡ n.last_applied + rounds)
      × ((apply_rounds rounds clock n).log ≡ n.log)
      × ((apply_rounds rounds clock n).commit_index ≡ n.commit_index)
unfolding apply_rounds
fields-apply_rounds clock zero n w lo hi = (omega arith, refl, refl)
fields-apply_rounds clock (suc rounds) n w lo hi =
    let bound = last_index-length n.log w in
    let next : add64 n.last_applied 1 ≡ n.last_applied + 1 = omega (arith, w.fits) in
    let (e, found, _, _) =
      get_entry-in_range n.log w (n.last_applied + 1) (omega arith) (omega arith) in
    let found' : get_entry n.log (add64 n.last_applied 1) ≡ some e =
      ap (get_entry n.log) next ∙ found in
    let (count, log, commit) =
      fields-apply_rounds clock rounds (applied clock e n) w (omega arith) (omega arith) in
    rw (found', apply_rounds) (omega arith, log, commit)

-- Where the log is well-formed and has all entries up to the commit index, which is below 2 ^ 64 - 1,
-- ApplyLoop applies exactly the entries behind the last one applied up to the commit index, each once, at
-- its own reading of the clock, and in the log's order; the last one applied is then the commit index,
-- and the log stays.
pub apply_committed_lem :
    (clock : ℕ → ℕ) (n : RaftNode)
    → IsWellFormed n.log
    → n.log.snapshot_index ≤ n.last_applied
    → n.last_applied ≤ n.commit_index
    → n.commit_index ≤ last_index n.log
    → n.commit_index + 1 < 2 ^ 64
    → ((apply_committed clock n).store
        ≡ apply_each clock
            (n.last_applied + 1)
            (get_entries n.log (n.last_applied + 1) (n.commit_index + 1))
            n.store)
      × ((apply_committed clock n).last_applied ≡ n.commit_index)
      × ((apply_committed clock n).log ≡ n.log)
unfolding apply_committed get_entries
apply_committed_lem clock n w lo le hi room =
    let bound = last_index-length n.log w in
    let rounds = n.commit_index - n.last_applied in
    let next : add64 n.last_applied 1 ≡ n.last_applied + 1 = omega (arith, w.fits) in
    let count : n.commit_index + 1 - (n.last_applied + 1) ≡ rounds = omega arith in
    let (reached, log, commit) = fields-apply_rounds clock rounds n w lo (omega arith) in
    (store-apply_rounds clock rounds n ∙ rw (next, count) refl, reached ∙ omega arith, log)
