-- ===== src/Raft/Log.antt =====
-- raft/RaftLog.hpp and RaftLog.cpp: the in-memory log over the write-ahead log. `entries` begins with
-- the sentinel. Offsets are uint64_t differences. `wal` is the list of the records written to the
-- write-ahead log, or `none` where there is none; a record holds the entry whose JSON text the
-- program writes.
pub mod Bounds
pub mod Lookup
pub mod Same
pub mod Rounds
pub mod Append
pub mod Snapshot
pub mod Tests
use distributed_key_value_st.Base.{
  ℕ, zero, suc, ◌+◌, ◌-◌, Bool, Option, none, some, List, [], ◌∷◌, ◌++◌, if◌then◌else◌, ltb, leb,
  ◌==◌, add64, sub64, length, get_elem?, take, drop, last_or,
}
use distributed_key_value_st.Base.Int.{negsuc}
use distributed_key_value_st.Storage.KvStore.{SnapshotItem}
use distributed_key_value_st.Storage.Wal.{Record, RawLogEntry, log_entry}
use distributed_key_value_st.Raft.Rpc.{LogEntry, no_op}

abbrev pub WalRecord : Type 0
WalRecord = Record LogEntry (List SnapshotItem)

pub record RaftLog : Type 0 where
  pub entries : List LogEntry
  pub snapshot_index : ℕ
  pub snapshot_term : ℕ
  pub wal : Option (List WalRecord)

abbrev pub sentinel : ℕ → ℕ → LogEntry
sentinel index term = record {
  term = term;
  index = index;
  op_type = no_op;
  key = [];
  value = [];
  ttl_ms = negsuc 0;
  command = [];
}

abbrev pub new : Option (List WalRecord) → RaftLog
new wal = record { entries = sentinel 0 0 ∷ []; snapshot_index = 0; snapshot_term = 0; wal = wal }

unfoldable pub offset : RaftLog → ℕ → ℕ
offset l index = sub64 index l.snapshot_index

-- if (wal_) wal_->AppendLogEntry(raw);
unfoldable pub log_to : Option (List WalRecord) → LogEntry → Option (List WalRecord)
log_to none e = none
log_to (some rs) e =
    some (rs ++ log_entry (record { term = e.term; index = e.index; command = e }) ∷ [])

unfoldable pub append : LogEntry → RaftLog → RaftLog
unfolding log_to
append e l = record l { entries = l.entries ++ e ∷ []; wal = log_to l.wal e }

-- entries_[off].term
unfoldable pub term_at : List LogEntry → ℕ → ℕ
term_at es off = elim (get_elem? es off) [ none ↦ 0 | some e ↦ e.term ]

-- One round of the loop of AppendAll.
unfoldable pub append_one : LogEntry → RaftLog → RaftLog
unfolding offset term_at log_to
append_one e l = record l {
  entries =
      if ltb (offset l e.index) (length l.entries)
      then (if term_at l.entries (offset l e.index) == e.term
          then l.entries
          else take (offset l e.index) l.entries ++ e ∷ [])
      else l.entries ++ e ∷ [];
  wal = log_to l.wal e;
}

unfoldable pub append_all : List LogEntry → RaftLog → RaftLog
unfolding append_one
append_all [] l = l
append_all (e ∷ es) l = append_all es (append_one e l)

unfoldable pub truncate_from : ℕ → RaftLog → RaftLog
unfolding offset
truncate_from index l =
    if ltb (offset l index) (length l.entries)
    then record l { entries = take (offset l index) l.entries }
    else l

-- `none` where GetEntry throws.
unfoldable pub get_entry : RaftLog → ℕ → Option LogEntry
unfolding offset
get_entry l index = get_elem? l.entries (offset l index)

-- The loop of GetEntries, for as many rounds.
unfoldable pub collect : ℕ → RaftLog → ℕ → List LogEntry
unfolding get_entry
collect zero l i = []
collect (suc rounds) l i = elim (get_entry l i) [
  | none ↦ []
  | some e ↦ e ∷ collect rounds l (add64 i 1)
]

-- The entries from `start` up to but without `end`.
unfoldable pub get_entries : RaftLog → ℕ → ℕ → List LogEntry
unfolding collect
get_entries l start end = collect (end - start) l start

-- entries_.back()
unfoldable pub last_entry : RaftLog → LogEntry
last_entry l = last_or (sentinel 0 0) l.entries

unfoldable pub last_index : RaftLog → ℕ
unfolding last_entry
last_index l = (last_entry l).index

unfoldable pub last_term : RaftLog → ℕ
unfolding last_entry
last_term l = (last_entry l).term

unfoldable pub get_term : RaftLog → ℕ → ℕ
unfolding offset term_at
get_term l index =
    if index == l.snapshot_index
    then l.snapshot_term
    else if leb (length l.entries) (offset l index)
    then 0
    else term_at l.entries (offset l index)

unfoldable pub set_snapshot : ℕ → ℕ → RaftLog → RaftLog
unfolding offset
set_snapshot index term l = record l {
  entries =
      sentinel index term
      ∷ (if ltb (offset l index) (length l.entries) then drop (offset l index) l.entries else []);
  snapshot_index = index;
  snapshot_term = term;
}

-- entries_.size() - 1, as size_t
unfoldable pub size : RaftLog → ℕ
size l = sub64 (length l.entries) 1
