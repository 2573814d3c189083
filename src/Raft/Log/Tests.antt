-- ===== src/Raft/Log/Tests.antt =====
-- raft/RaftLog.cpp: a log of two entries, and the log's laws at it.
use distributed_key_value_st.Base.{ℕ, zero, suc, ◌≡◌, refl, none, some, List, [], ◌∷◌, arith, codes}
use distributed_key_value_st.Base.Int.{negsuc}
use distributed_key_value_st.Raft.Rpc.{LogEntry, puts}
use distributed_key_value_st.Raft.Log.{
  RaftLog, new, append_all, get_entry, last_index, set_snapshot, sentinel, term_at,
}
use distributed_key_value_st.Raft.Log.Bounds.{IsWellFormed}
use distributed_key_value_st.Raft.Log.Rounds.{Agrees}
use distributed_key_value_st.Raft.Log.Snapshot.{set_snapshot-not-IsWellFormed}

abbrev pub entry : ℕ → ℕ → LogEntry
entry term index = record {
  term = term;
  index = index;
  op_type = puts;
  key = codes "k";
  value = codes "v";
  ttl_ms = negsuc 0;
  command = [];
}

abbrev pub two_entries : RaftLog
two_entries = record (new none) { entries = sentinel 0 0 ∷ entry 1 1 ∷ entry 1 2 ∷ [] }

pub two_entries-IsWellFormed : IsWellFormed two_entries
unfolding term_at
two_entries-IsWellFormed = record {
  nonempty = omega arith;
  contiguous = (refl, (refl, (refl, tt)));
  head_term = refl;
  fits = omega arith;
}

pub last_index_two : last_index two_entries ≡ 2
unfolding last_index
last_index_two = refl

-- An entry that the log has, and one that conflicts with it.
abbrev sent : List LogEntry
sent = entry 1 1 ∷ entry 2 2 ∷ []

abbrev same : List LogEntry
same = entry 1 1 ∷ []

same-Agrees : Agrees 1 same two_entries.entries
unfolding term_at
same-Agrees zero e h b = ground arith
same-Agrees (suc k) e h b = cc

conflict_replaced : get_entry (append_all sent two_entries) 2 ≡ some (entry 2 2)
unfolding get_entry append_all
conflict_replaced = refl

set_snapshot-not-IsWellFormed_example : ¬ IsWellFormed (set_snapshot 1 1 two_entries)
set_snapshot-not-IsWellFormed_example =
    set_snapshot-not-IsWellFormed two_entries two_entries-IsWellFormed 1 1 (omega arith)
      (omega (arith, last_index_two)) (omega arith)
