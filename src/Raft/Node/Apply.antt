-- ===== src/Raft/Node/Apply.antt =====
-- raft/RaftNode.cpp: ApplyEntry, the inner loop of ApplyLoop, MaybeSnapshot and Propose.
use distributed_key_value_st.Base.{
  ℕ, zero, suc, ◌-◌, ◌++◌, Bool, true, false, not, Option, none, some, List, [], ◌⊎◌, inl, inr,
  if◌then◌else◌, ltb, leb, Text, add64, ◌∷◌, codes,
}
use distributed_key_value_st.Base.Int.{ℤ, pos, negsuc}
use distributed_key_value_st.Base.Json.{Json}
use distributed_key_value_st.Storage.KvStore
use distributed_key_value_st.Storage.KvStore.{KvStore, SnapshotItem}
use distributed_key_value_st.Storage.Wal.{snapshot}
use distributed_key_value_st.Raft.Rpc.{LogEntry, OpType, puts, deletes, no_op, entry_json}
use distributed_key_value_st.Raft.Log
use distributed_key_value_st.Raft.Log.{
  WalRecord, get_entry, get_term, set_snapshot, last_index, append,
}
use distributed_key_value_st.Raft.Node.State.{RaftNode}
use distributed_key_value_st.Raft.Node.Replication.{is_leader}

-- if (entry.ttl_ms > 0) ttl = …
unfoldable pub ttl_of : ℤ → Option ℕ
ttl_of (pos zero) = none
ttl_of (pos (suc ms)) = some (suc ms)
ttl_of (negsuc ms) = none

unfoldable pub apply_operation : ℕ → OpType → LogEntry → KvStore → KvStore
unfolding ttl_of KvStore.put KvStore.delete
apply_operation now no_op e s = s
apply_operation now puts e s = (KvStore.put now e.key e.value e.index (ttl_of e.ttl_ms) s).1
apply_operation now deletes e s = (KvStore.delete e.key s).1

unfoldable pub apply_entry : ℕ → LogEntry → KvStore → KvStore
unfolding apply_operation
apply_entry now e s = apply_operation now e.op_type e s

-- while (lastApplied_ < commitIndex_), for as many rounds, where no other thread takes the lock while
-- an entry is applied. A round ends the loop where GetEntry throws. `clock i` is the reading of the clock
-- when the entry at index i is applied.
unfoldable pub apply_rounds : ℕ → (ℕ → ℕ) → RaftNode → RaftNode
unfolding apply_entry
apply_rounds zero clock n = n
apply_rounds (suc rounds) clock n =
    let index = add64 n.last_applied 1 in
    elim (get_entry n.log index) [
      | none ↦ n
      | some e ↦
          apply_rounds rounds clock
            (record n { store = apply_entry (clock index) e n.store; last_applied = index })
    ]

unfoldable pub apply_committed : (ℕ → ℕ) → RaftNode → RaftNode
unfolding apply_rounds
apply_committed clock n = apply_rounds (n.commit_index - n.last_applied) clock n

-- wal_->WriteSnapshot(…), where there is a write-ahead log.
unfoldable pub write_snapshot :
    ℕ → ℕ → List SnapshotItem → Option (List WalRecord) → Option (List WalRecord)
write_snapshot index term items none = none
write_snapshot index term items (some rs) = some (rs ++ snapshot index term items ∷ [])

unfoldable pub maybe_snapshot : ℕ → RaftNode → RaftNode
unfolding write_snapshot KvStore.take_snapshot set_snapshot
maybe_snapshot now n =
    let index = n.last_applied in
    let term = get_term n.log index in
    if ltb n.config.snapshot_threshold (Log.size n.log)
    then record n {
      log = set_snapshot index term (record n.log {
        wal = write_snapshot index term (KvStore.take_snapshot now n.store) n.log.wal;
      });
    }
    else n

pub record ProposeResult : Type 0 where
  pub ok : Bool
  pub error : Text
  pub index : ℕ

-- The entry that Propose makes; its command is the text of the entry with an empty command.
unfoldable pub proposal : (Json → Text) → Text → Text → OpType → ℤ → RaftNode → LogEntry
unfolding entry_json
proposal dump key value op ttl_ms n =
    let entry : LogEntry = record {
      term = n.current_term;
      index = add64 (last_index n.log) 1;
      op_type = op;
      key = key;
      value = value;
      ttl_ms = ttl_ms;
      command = [];
    } in
    record entry { command = dump (entry_json entry) }

-- Propose up to the wait: the refusal, or the index waited for.
unfoldable pub begin_propose :
    (Json → Text) → Text → Text → OpType → ℤ → RaftNode → (ProposeResult ⊎ ℕ) × RaftNode
unfolding proposal append is_leader
begin_propose dump key value op ttl_ms n =
    let entry = proposal dump key value op ttl_ms n in
    if is_leader n.role then (inr entry.index, record n { log = append entry n.log }) else (
      inl (record {
        ok = false;
        error = codes "not leader (leader=" ++ n.leader_id ++ codes ")";
        index = 0;
      }),
      n,
    )

-- What the wait is for: lastApplied_ >= index || role_ != Leader.
unfoldable pub wait_is_over : ℕ → RaftNode → Bool
unfolding is_leader
wait_is_over index n = if leb index n.last_applied then true else not (is_leader n.role)

-- Propose after the wait; `committed` is false where the deadline passed with the wait not over.
unfoldable pub end_propose : ℕ → Bool → RaftNode → ProposeResult
unfolding is_leader
end_propose index committed n =
    if not committed
    then record { ok = false; error = codes "timeout waiting for commit"; index = index }
    else if not (is_leader n.role)
    then record { ok = false; error = codes "lost leadership during proposal"; index = index }
    else record { ok = true; error = []; index = index }
