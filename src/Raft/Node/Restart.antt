-- ===== src/Raft/Node/Restart.antt =====
-- raft/RaftNode.cpp: the constructor, which recovers a node from its write-ahead log. The entry that
-- Deserialize reads from a record's text is the entry that the record holds.
use distributed_key_value_st.Base.{
  ℕ, ◌≡◌, inr, refl, arith, ◌∙◌, ap, Option, none, some, List, [], ◌∷◌, ◌++◌, map, Text,
}
use distributed_key_value_st.Base.Json.{Json}
use distributed_key_value_st.Storage.KvStore.{KvStore, SnapshotItem, restore_snapshot}
use distributed_key_value_st.Storage.Wal.{RawLogEntry, RecoveryResult, log_entry, recover}
use distributed_key_value_st.Raft.Rpc.{LogEntry, follower}
use distributed_key_value_st.Raft.Log.{RaftLog, WalRecord, new, append, set_snapshot, log_to}
use distributed_key_value_st.Raft.Node.State.{RaftConfig, RaftNode}
use distributed_key_value_st.Raft.Node.Actions.{Action, act_all}
use distributed_key_value_st.Raft.Node.Durability.{
  IsDurable, recovered, recovered-log_to, act_all-IsDurable,
}

-- The members' initial values.
unfoldable pub fresh_node : ℕ → RaftConfig → KvStore → Option (List WalRecord) → RaftNode
fresh_node now config store wal = record {
  config = config;
  store = store;
  log = new wal;
  current_term = 0;
  voted_for = [];
  commit_index = 0;
  last_applied = 0;
  role = follower;
  leader_id = [];
  next_index = [];
  match_index = [];
  last_heartbeat = now;
}

-- if (recovery.latestSnapshot) …
unfoldable pub install_snapshot :
    ℕ → RecoveryResult LogEntry (List SnapshotItem) → RaftNode → RaftNode
install_snapshot now r n = elim r.latest_snapshot [
  | none ↦ n
  | some items ↦ record n {
    store = restore_snapshot now items n.store;
    log = set_snapshot r.snapshot_index r.snapshot_term n.log;
    last_applied = r.snapshot_index;
    commit_index = r.snapshot_index;
  }
]

-- for (auto& raw : recovery.entries) log_->Append(…);
unfoldable pub append_each : List (RawLogEntry LogEntry) → RaftLog → RaftLog
append_each [] l = l
append_each (raw ∷ raws) l = append_each raws (append raw.command l)

unfoldable pub recover_node : ℕ → RecoveryResult LogEntry (List SnapshotItem) → RaftNode → RaftNode
unfolding install_snapshot append_each
recover_node now r n =
    let m =
      install_snapshot now r
        (record n { current_term = r.hard.term; voted_for = r.hard.voted_for }) in
    record m { log = append_each r.entries m.log }

unfoldable pub start : ℕ → RaftConfig → KvStore → Option (List WalRecord) → RaftNode
unfolding fresh_node recover_node
start now config store none = fresh_node now config store none
start now config store (some rs) =
    recover_node now (recover rs) (fresh_node now config store (some rs))

wal-install_snapshot :
    (now : ℕ) (r : RecoveryResult LogEntry (List SnapshotItem)) (n : RaftNode)
    → ((install_snapshot now r n).log.wal ≡ n.log.wal)
      × ((install_snapshot now r n).current_term ≡ n.current_term)
      × ((install_snapshot now r n).voted_for ≡ n.voted_for)
unfolding install_snapshot set_snapshot
wal-install_snapshot now r n = ground arith

recovered-append_each :
    (raws : List (RawLogEntry LogEntry)) (l : RaftLog)
    → recovered (append_each raws l).wal ≡ recovered l.wal
unfolding append_each append
recovered-append_each [] l = refl
recovered-append_each (raw ∷ raws) l =
    recovered-append_each raws (append raw.command l) ∙ recovered-log_to l.wal raw.command

-- Whatever the node has done when it stops, a node that starts from its write-ahead log has its term
-- and its vote, and the log still holds them.
pub start_lem :
    (dump : Json → Text) (as' : List Action) (n : RaftNode) (rs : List WalRecord) (now : ℕ)
    (config : RaftConfig) (store : KvStore)
    → IsDurable n
    → (act_all dump as' n).log.wal ≡ some rs
    → let m = start now config store (some rs) in
      (m.current_term ≡ (act_all dump as' n).current_term)
      × (m.voted_for ≡ (act_all dump as' n).voted_for)
      × IsDurable m
unfolding start recover_node recovered
start_lem dump as' n rs now config store d kept =
    let r = recover rs in
    let fresh = fresh_node now config store (some rs) in
    let based : RaftNode = record fresh {
      current_term = r.hard.term;
      voted_for = r.hard.voted_for;
    } in
    let (wal_kept, term_kept, vote_kept) = wal-install_snapshot now r based in
    let durable = act_all-IsDurable dump as' n d in
    (
      ground (arith, term_kept, durable),
      ground (arith, vote_kept, durable),
      inr (
          recovered-append_each r.entries (install_snapshot now r based).log
          ∙ ap recovered wal_kept
          ∙ rw (term_kept, vote_kept) refl),
    )

-- The record that RaftLog::Append writes for an entry.
abbrev pub written : LogEntry → WalRecord
written e = log_entry (record { term = e.term; index = e.index; command = e })

append_nil {ℓ} : {A : Type ℓ} (xs : List A) → xs ≡ xs ++ []
append_nil [] = refl
append_nil (x ∷ xs) = ap (◌∷◌ x) (append_nil xs)

append_snoc {ℓ} :
    {A : Type ℓ} (xs : List A) (y : A) (ys : List A) → (xs ++ y ∷ []) ++ ys ≡ xs ++ y ∷ ys
append_snoc [] y ys = refl
append_snoc (x ∷ xs) y ys = ap (◌∷◌ x) (append_snoc xs y ys)

wal-append_each :
    (raws : List (RawLogEntry LogEntry)) (l : RaftLog) (rs : List WalRecord)
    → l.wal ≡ some rs
    → (append_each raws l).wal ≡ some (rs ++ map (λ raw. written raw.command) raws)
unfolding append_each append log_to
wal-append_each [] l rs h = h ∙ ap (λ (xs : List WalRecord). some xs) (append_nil rs)
wal-append_each (raw ∷ raws) l rs h =
    wal-append_each raws (append raw.command l) (rs ++ written raw.command ∷ [])
      (rw (h, log_to) refl)
    ∙ ap (λ (xs : List WalRecord). some xs)
        (append_snoc rs (written raw.command) (map (λ raw. written raw.command) raws))

-- A node that starts writes every entry that it has recovered to the write-ahead log once more.
pub start_writes_again :
    (now : ℕ) (config : RaftConfig) (store : KvStore) (rs : List WalRecord)
    → (start now config store (some rs)).log.wal
      ≡ some (rs ++ map (λ raw. written raw.command) (recover rs).entries)
unfolding start recover_node
start_writes_again now config store rs =
    let r = recover rs in
    let fresh = fresh_node now config store (some rs) in
    let based : RaftNode = record fresh {
      current_term = r.hard.term;
      voted_for = r.hard.voted_for;
    } in
    wal-append_each r.entries (install_snapshot now r based).log rs
      (wal-install_snapshot now r based).0
