-- ===== src/Raft/Log/Snapshot.antt =====
-- raft/RaftLog.cpp: SetSnapshot, which is to discard the entries up to the snapshot's index.
use distributed_key_value_st.Base.{
  ℕ, suc, ◌+◌, ◌-◌, ◌^◌, ◌≤◌, ◌<◌, ◌≡◌, refl, ◌∙◌, ap, arith, length, get_elem?, ltb, lt→ltb,
  ltb→lt, ==_iff, get_elem?-drop, Bool-cases, inl, inr, true, sub64,
}
use distributed_key_value_st.Raft.Log.{
  RaftLog, offset, term_at, last_index, get_entry, get_term, set_snapshot,
}
use distributed_key_value_st.Raft.Log.Bounds.{
  IsWellFormed, Contiguous-get_elem?, last_index-length, offset_lem,
}
use distributed_key_value_st.Raft.Log.Lookup.{get_entry-in_range}

module _ (l : RaftLog) (w : IsWellFormed l) (index term : ℕ) where
  -- SetSnapshot past the last entry of a well-formed log, below 2 ^ 64 - 1, leaves a well-formed
  -- log with no entry whose last index and term are those of the snapshot.
  pub set_snapshot-beyond :
      last_index l < index
      → index < 2 ^ 64 - 1
      → IsWellFormed (set_snapshot index term l)
        × (last_index (set_snapshot index term l) ≡ index)
        × (get_term (set_snapshot index term l) index ≡ term)
  unfolding set_snapshot last_index get_term term_at
  set_snapshot-beyond past k = elim (Bool-cases (ltb (offset l index) (length l.entries))) [
    | inl inside ↦ absurd (
        omega (
          arith,
          ltb→lt (offset l index) (length l.entries) inside,
          offset_lem l w index (omega (arith, last_index-length l w, w.nonempty)) (omega arith),
          last_index-length l w,
        ))
    | inr out ↦ rw out (
      record {
        nonempty = omega arith;
        contiguous = (refl, tt);
        head_term = refl;
        fits = omega arith;
      },
      refl,
      rw ((==_iff index index).1 refl) refl,
    )
  ]

  -- SetSnapshot at an index inside a well-formed log keeps the entry of that index behind the
  -- sentinel: from there on GetEntry finds each entry one index too late, the entry of index j at
  -- j + 1.
  pub set_snapshot_shifts :
      l.snapshot_index ≤ index
      → index ≤ last_index l
      → (j : ℕ) → index ≤ j
      → j + 1 < 2 ^ 64
      → get_entry (set_snapshot index term l) (j + 1) ≡ get_entry l j
  unfolding set_snapshot get_entry
  set_snapshot_shifts lo hi j at_least small =
      let off = offset_lem l w index lo (omega (arith, last_index-length l w, w.fits)) in
      let inside : ltb (offset l index) (length l.entries) ≡ true =
        lt→ltb (offset l index) (length l.entries) (omega (arith, last_index-length l w)) in
      let next : sub64 (j + 1) index ≡ suc (j - index) = omega arith in
      rw (inside, next)
        (get_elem?-drop (offset l index) (j - index) l.entries
          ∙ ap (get_elem? l.entries) (omega arith))

  -- SetSnapshot at an index inside a well-formed log, below 2 ^ 64 - 1, leaves a log that is not
  -- well-formed.
  pub set_snapshot-not-IsWellFormed :
      l.snapshot_index ≤ index
      → index ≤ last_index l
      → index + 1 < 2 ^ 64
      → ¬ IsWellFormed (set_snapshot index term l)
  unfolding set_snapshot get_entry
  set_snapshot-not-IsWellFormed lo hi small w' =
      let l' = set_snapshot index term l in
      let (e, found, e_index, _) = get_entry-in_range l w index lo hi in
      let at =
        Contiguous-get_elem? index (offset l' (index + 1)) l'.entries e w'.contiguous
          (set_snapshot_shifts lo hi index (omega arith) small ∙ found) in
      absurd (omega arith)
