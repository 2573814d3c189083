-- ===== src/Raft/Log/Lookup.antt =====
-- raft/RaftLog.cpp: GetEntry, GetTerm and GetEntries of a well-formed log.
use distributed_key_value_st.Base.{
  ℕ, zero, suc, ◌+◌, ◌-◌, ◌^◌, ◌≤◌, ◌<◌, ◌≡◌, refl, sym, ◌∙◌, ap, List, [], ◌∷◌, none, some, arith,
  length, get_elem?, take, drop, ◌⊎◌, inl, inr, Option-cases, Bool-cases, leb, ◌==◌, tests, add64,
}
use distributed_key_value_st.Raft.Rpc.{LogEntry}
use distributed_key_value_st.Raft.Log.{
  RaftLog, offset, term_at, last_index, get_entry, get_term, collect, get_entries,
}
use distributed_key_value_st.Raft.Log.Bounds.{
  IsWellFormed, Contiguous-get_elem?, last_index-length, offset_lem, offset_below,
}

pub get_elem?-in {ℓ} :
    {A : Type ℓ} (es : List A) (k : ℕ) → k < length es → (e : A) × (get_elem? es k ≡ some e)
get_elem?-in [] k h = absurd (omega arith)
get_elem?-in (x ∷ es) zero h = (x, refl)
get_elem?-in (x ∷ es) (suc k) h = get_elem?-in es k (omega arith)

pub get_elem?-out {ℓ} : {A : Type ℓ} (es : List A) (k : ℕ) → length es ≤ k → get_elem? es k ≡ none
get_elem?-out [] k h = refl
get_elem?-out (x ∷ es) zero h = absurd (omega arith)
get_elem?-out (x ∷ es) (suc k) h = get_elem?-out es k (omega arith)

take-drop-none {ℓ} :
    {A : Type ℓ} (n k : ℕ) (es : List A) → get_elem? es k ≡ none → take n (drop k es) ≡ []
take-drop-none zero k es h = refl
take-drop-none (suc n) zero [] h = refl
take-drop-none (suc n) zero (x ∷ es) h = cc
take-drop-none (suc n) (suc k) [] h = refl
take-drop-none (suc n) (suc k) (x ∷ es) h = take-drop-none (suc n) k es h

take-drop-some {ℓ} :
    {A : Type ℓ} (n k : ℕ) (es : List A) (e : A)
    → get_elem? es k ≡ some e
    → take (suc n) (drop k es) ≡ e ∷ take n (drop (suc k) es)
take-drop-some n k [] e h = cc
take-drop-some n zero (x ∷ es) e h = cc
take-drop-some n (suc k) (x ∷ es) e h = take-drop-some n k es e h

pub term_at-out : (es : List LogEntry) (k : ℕ) → length es ≤ k → term_at es k ≡ 0
unfolding term_at
term_at-out es k h = rw (get_elem?-out es k h, term_at)

pub term_at-in :
    (es : List LogEntry) (k : ℕ) (e : LogEntry) → get_elem? es k ≡ some e → term_at es k ≡ e.term
unfolding term_at
term_at-in es k e h = rw (h, term_at)

module _ (l : RaftLog) (w : IsWellFormed l) where
  pub get_entry_lem :
      (index : ℕ)
      → l.snapshot_index ≤ index
      → index < 2 ^ 64
      → get_entry l index ≡ get_elem? l.entries (index - l.snapshot_index)
  unfolding get_entry
  get_entry_lem index lo k = ap (get_elem? l.entries) (offset_lem l w index lo k)

  pub get_term_lem :
      (index : ℕ)
      → l.snapshot_index ≤ index
      → index < 2 ^ 64
      → get_term l index ≡ term_at l.entries (index - l.snapshot_index)
  unfolding get_term term_at
  get_term_lem index lo k = elim (Bool-cases (index == l.snapshot_index)) [
    | inl here ↦
        let zero_off : index - l.snapshot_index ≡ 0 = ground arith in
        rw (here, get_term) (rw zero_off (sym w.head_term))
    | inr later ↦ elim (Bool-cases (leb (length l.entries) (offset l index))) [
      | inl out ↦
          rw (later, get_term)
            (rw out (sym (term_at-out l.entries _ (omega (tests, offset_lem l w index lo k)))))
      | inr inside ↦
          rw (later, get_term) (rw inside (ap (term_at l.entries) (offset_lem l w index lo k)))
    ]
  ]

  -- In a well-formed log, GetEntry finds at each index from the snapshot's to the last one the
  -- entry with that index, and GetTerm has its term.
  pub get_entry-in_range :
      (index : ℕ)
      → l.snapshot_index ≤ index
      → index ≤ last_index l
      → (e : LogEntry) × (get_entry l index ≡ some e)
        × (e.index ≡ index)
        × (get_term l index ≡ e.term)
  unfolding get_entry
  get_entry-in_range index lo hi =
      let length_last = last_index-length l w in
      let k = index - l.snapshot_index in
      let (e, found) = get_elem?-in l.entries k (omega arith) in
      let small : index < 2 ^ 64 = omega (arith, w.fits) in
      (
        e,
        get_entry_lem index lo small ∙ found,
        omega (arith, Contiguous-get_elem? l.snapshot_index k l.entries e w.contiguous found),
        get_term_lem index lo small ∙ term_at-in l.entries k e found,
      )

  -- In a well-formed log, at every other index below 2 ^ 64 GetEntry throws and GetTerm is 0.
  pub get_entry-out_of_range :
      (index : ℕ)
      → index < 2 ^ 64
      → (index < l.snapshot_index) ⊎ (last_index l < index)
      → (get_entry l index ≡ none) × (get_term l index ≡ 0)
  unfolding get_entry get_term
  get_entry-out_of_range index k (inl below) =
      let past = offset_below l w index below in
      (get_elem?-out l.entries _ past, ground (arith, past))
  get_entry-out_of_range index k (inr beyond) =
      let length_last = last_index-length l w in
      let lo : l.snapshot_index ≤ index = omega (arith, w.nonempty) in
      let past : length l.entries ≤ index - l.snapshot_index = omega arith in
      (
        get_entry_lem index lo k ∙ get_elem?-out l.entries _ past,
        get_term_lem index lo k ∙ term_at-out l.entries _ past,
      )

  collect_lem :
      (rounds i : ℕ)
      → l.snapshot_index ≤ i
      → i + rounds < 2 ^ 64
      → collect rounds l i ≡ take rounds (drop (i - l.snapshot_index) l.entries)
  unfolding collect
  collect_lem zero i lo k = refl
  collect_lem (suc rounds) i lo k =
      let off = i - l.snapshot_index in
      let found = get_entry_lem i lo (omega arith) in
      let next : add64 i 1 ≡ i + 1 = omega arith in
      elim (Option-cases (get_elem? l.entries off)) [
        | inl absent ↦
            rw (found ∙ absent, collect) (sym (take-drop-none (suc rounds) off l.entries absent))
        | inr (e, here) ↦
            rw (found ∙ here, next, collect, take-drop-some rounds off l.entries e here)
              (ap (◌∷◌ e) (
                collect_lem rounds (i + 1) (omega arith) (omega arith)
                ∙ ap (λ n. take rounds (drop n l.entries)) {y = suc off} (omega arith)))
      ]

  -- In a well-formed log, GetEntries from an index at or behind the snapshot's returns the slice
  -- of the entries from `start` up to but without `end`.
  pub get_entries_lem :
      (start end : ℕ)
      → l.snapshot_index ≤ start
      → start ≤ end
      → end < 2 ^ 64
      → get_entries l start end ≡ take (end - start) (drop (start - l.snapshot_index) l.entries)
  unfolding get_entries
  get_entries_lem start end lo le k = collect_lem (end - start) start lo (omega arith)
