-- ===== src/Raft/Log/Bounds.antt =====
-- raft/RaftLog.hpp: what the comments on `entries_` and `Offset` promise.
use distributed_key_value_st.Base.{
  ℕ, zero, suc, ◌+◌, ◌-◌, ◌^◌, ◌≤◌, ◌<◌, ◌≡◌, List, [], ◌∷◌, ◌++◌, some, arith, length, get_elem?,
  take, last_or, sub64_lem,
}
use distributed_key_value_st.Raft.Rpc.{LogEntry}
use distributed_key_value_st.Raft.Log.{RaftLog, sentinel, offset, term_at, last_index}

-- The indices rise by one from `n`.
abbrev pub Contiguous : ℕ → List LogEntry → Type 0
Contiguous n [] = Unit
Contiguous n (e ∷ es) = (e.index ≡ n) × Contiguous (suc n) es

-- `entries_[0]` is the sentinel, the indices follow one another, and all are below 2^64.
pub record IsWellFormed (l : RaftLog) : Type 0 where
  pub nonempty : 0 < length l.entries
  pub contiguous : Contiguous l.snapshot_index l.entries
  pub head_term : term_at l.entries 0 ≡ l.snapshot_term
  pub fits : l.snapshot_index + length l.entries ≤ 2 ^ 64

pub Contiguous-get_elem? :
    (n k : ℕ) (es : List LogEntry) (e : LogEntry)
    → Contiguous n es
    → get_elem? es k ≡ some e
    → e.index ≡ n + k
Contiguous-get_elem? n k [] e c h = cc
Contiguous-get_elem? n zero (x ∷ es) e c h = ground arith
Contiguous-get_elem? n (suc k) (x ∷ es) e c h =
    omega (arith, Contiguous-get_elem? (suc n) k es e c.1 h)

pub Contiguous-append :
    (n : ℕ) (es : List LogEntry) (e : LogEntry)
    → Contiguous n es
    → e.index ≡ n + length es
    → Contiguous n (es ++ e ∷ [])
Contiguous-append n [] e c h = (omega arith, tt)
Contiguous-append n (x ∷ es) e c h = (c.0, Contiguous-append (suc n) es e c.1 (omega arith))

pub Contiguous-take : (n k : ℕ) (es : List LogEntry) → Contiguous n es → Contiguous n (take k es)
Contiguous-take n zero es c = tt
Contiguous-take n (suc k) [] c = tt
Contiguous-take n (suc k) (x ∷ es) c = (c.0, Contiguous-take (suc n) k es c.1)

pub Contiguous-last_or :
    (n : ℕ) (d x : LogEntry) (es : List LogEntry)
    → Contiguous n (x ∷ es)
    → (last_or d (x ∷ es)).index ≡ n + length es
Contiguous-last_or n d x [] c = omega arith
Contiguous-last_or n d x (y ∷ es) c = omega (arith, Contiguous-last_or (suc n) x y es c.1)

module _ (l : RaftLog) (w : IsWellFormed l) where
  -- The last index is that of the snapshot, plus the number of entries behind the sentinel.
  pub last_index-length : last_index l + 1 ≡ l.snapshot_index + length l.entries
  unfolding last_index
  last_index-length = go l.entries w.nonempty w.contiguous
    where
      go :
          (es : List LogEntry)
          → 0 < length es
          → Contiguous l.snapshot_index es
          → (last_or (sentinel 0 0) es).index + 1 ≡ l.snapshot_index + length es
      go [] h c = absurd (omega arith)
      go (x ∷ es) h c = omega (arith, Contiguous-last_or l.snapshot_index (sentinel 0 0) x es c)

  pub offset_lem :
      (index : ℕ)
      → l.snapshot_index ≤ index
      → index < 2 ^ 64
      → offset l index ≡ index - l.snapshot_index
  unfolding offset
  offset_lem index h k = sub64_lem index l.snapshot_index h k

  -- Below the snapshot the difference wraps around, past the end.
  pub offset_below : (index : ℕ) → index < l.snapshot_index → length l.entries ≤ offset l index
  unfolding offset
  offset_below index h = omega (arith, w.nonempty, w.fits)
