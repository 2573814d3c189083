-- ===== src/Raft/Log/Same.antt =====
-- raft/RaftLog.cpp: logs that differ in what their write-ahead log holds are read alike.
use distributed_key_value_st.Base.{ℕ, ◌≡◌, arith}
use distributed_key_value_st.Raft.Log.{RaftLog, last_index, get_entry, get_term}
use distributed_key_value_st.Raft.Log.Bounds.{IsWellFormed}

abbrev pub SameEntries : RaftLog → RaftLog → Type 0
SameEntries a b =
    (b.entries ≡ a.entries)
    × (b.snapshot_index ≡ a.snapshot_index)
    × (b.snapshot_term ≡ a.snapshot_term)

pub SameEntries-lookup :
    (a b : RaftLog) (i : ℕ)
    → SameEntries a b
    → (get_term a i ≡ get_term b i)
      × (get_entry a i ≡ get_entry b i)
      × (last_index a ≡ last_index b)
unfolding get_term get_entry last_index
SameEntries-lookup a b i (entries, index, term) = (ground arith, ground arith, ground arith)

pub IsWellFormed-same : (a b : RaftLog) → SameEntries a b → IsWellFormed a → IsWellFormed b
IsWellFormed-same a b (entries, index, term) w = record {
  nonempty = rw entries w.nonempty;
  contiguous = rw (entries, index) w.contiguous;
  head_term = rw (entries, term) w.head_term;
  fits = rw (entries, index) w.fits;
}
