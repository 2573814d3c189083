-- ===== src/Raft/Log/Append.antt =====
-- raft/RaftLog.cpp: Append on the leader and AppendAll on a follower.
use distributed_key_value_st.Base.{
  take_all, ℕ, zero, suc, ◌+◌, ◌-◌, ◌^◌, ◌≤◌, ◌<◌, ◌≡◌, refl, sym, ◌∙◌, ap, List, [], ◌∷◌, ◌++◌,
  some, arith, length, get_elem?, take, length-append, last_or-append, get_elem?-append_right,
  get_elem?-append_left,
}
use distributed_key_value_st.Raft.Rpc.{LogEntry}
use distributed_key_value_st.Raft.Log.{
  RaftLog, sentinel, append, append_all, last_index, get_entry, get_term,
}
use distributed_key_value_st.Raft.Log.Bounds.{
  IsWellFormed, Contiguous, Contiguous-append, last_index-length,
}
use distributed_key_value_st.Raft.Log.Lookup.{get_entry_lem, get_term_lem}
use distributed_key_value_st.Raft.Log.Rounds.{
  Puts, Agrees, put_all, put_all-Puts, put_all_keeps, term_at-take, get_elem?-of_take,
  entries-append_all,
}

get_elem?-some-lt {ℓ} :
    {A : Type ℓ} (xs : List A) (k : ℕ) (x : A) → get_elem? xs k ≡ some x → k < length xs
get_elem?-some-lt [] k x h = cc
get_elem?-some-lt (y ∷ xs) zero x h = omega arith
get_elem?-some-lt (y ∷ xs) (suc k) x h = omega (arith, get_elem?-some-lt xs k x h)

take_append {ℓ} :
    {A : Type ℓ} (d : ℕ) (xs ys : List A) → d ≤ length xs → take d (xs ++ ys) ≡ take d xs
take_append zero xs ys h = refl
take_append (suc d) [] ys h = absurd (omega arith)
take_append (suc d) (x ∷ xs) ys h = ap (◌∷◌ x) (take_append d xs ys (omega arith))

-- What the leader sends: entries of consecutive indices from `first` on, behind the snapshot and at
-- most one past the last entry of the follower's log.
pub record Fits (l : RaftLog) (first : ℕ) (new : List LogEntry) : Type 0 where
  pub behind : l.snapshot_index < first
  pub no_gap : first ≤ last_index l + 1
  pub contiguous : Contiguous first new
  pub bounded : first + length new ≤ 2 ^ 64

module _ (l : RaftLog) (w : IsWellFormed l) (first : ℕ) (new : List LogEntry)
    (f : Fits l first new) where
  abbrev start : ℕ
  start = first - l.snapshot_index

  result :
      let l' = append_all new l in
      (l'.entries ≡ put_all start new l.entries)
      × (l'.snapshot_index ≡ l.snapshot_index)
      × (l'.snapshot_term ≡ l.snapshot_term)
  result =
      let first_at : l.snapshot_index + start ≡ first = omega (arith, f.behind) in
      entries-append_all start new l (rw first_at f.contiguous) (omega (arith, f.bounded, first_at))

  puts : Puts l.snapshot_index start new l.entries (put_all start new l.entries)
  puts =
      let first_at : l.snapshot_index + start ≡ first = omega (arith, f.behind) in
      put_all-Puts l.snapshot_index start new l.entries
        (omega (arith, last_index-length l w, f.no_gap, f.behind)) w.contiguous
        (rw first_at f.contiguous)

  -- AppendAll keeps a well-formed log well-formed, where the new entries have consecutive indices
  -- that begin behind the snapshot and at most one past the last entry.
  pub append_all-IsWellFormed : IsWellFormed (append_all new l)
  append_all-IsWellFormed = record {
    nonempty = rw result.0 (omega (arith, puts.longer, f.behind));
    contiguous = rw (result.0, result.1) puts.contiguous;
    head_term =
        rw (result.0, result.2)
          (term_at-take start 0 (put_all start new l.entries) l.entries puts.kept
              (omega (arith, f.behind))
            ∙ w.head_term);
    fits = rw (result.0, result.1) (omega (arith, puts.grows, w.fits, f.bounded, f.behind));
  }

  -- Afterwards the log has at each new entry's index that entry's term.
  pub get_term-append_all :
      (k : ℕ) (e : LogEntry)
      → get_elem? new k ≡ some e
      → get_term (append_all new l) (first + k) ≡ e.term
  get_term-append_all k e h =
      let w' = append_all-IsWellFormed in
      let short : k < length new = get_elem?-some-lt new k e h in
      let at : first + k - l.snapshot_index ≡ start + k = omega (arith, f.behind) in
      get_term_lem (append_all new l) w' (first + k) (rw result.1 (omega (arith, f.behind)))
        (omega (arith, f.bounded))
      ∙ rw (result.0, result.1, at) (puts.terms k e h)

  -- Before the first new entry the log is what it was.
  pub get_entry-append_all_before :
      (index : ℕ)
      → l.snapshot_index ≤ index
      → index < first
      → get_entry (append_all new l) index ≡ get_entry l index
  get_entry-append_all_before index lo hi =
      let small : index < 2 ^ 64 = omega (arith, f.bounded) in
      get_entry_lem (append_all new l) append_all-IsWellFormed index (rw result.1 lo) small
      ∙ rw (result.0, result.1)
          (get_elem?-of_take start (index - l.snapshot_index) (put_all start new l.entries)
            l.entries puts.kept (omega arith))
      ∙ sym (get_entry_lem l w index lo small)

  -- Where such new entries agree with the terms of the entries that a well-formed log has at
  -- their indices, AppendAll loses and changes no entry of the log.
  pub get_entry-append_all_agreeing :
      Agrees start new l.entries
      → (index : ℕ) → l.snapshot_index ≤ index
      → index ≤ last_index l
      → get_entry (append_all new l) index ≡ get_entry l index
  get_entry-append_all_agreeing a index lo hi =
      let length_last = last_index-length l w in
      let small : index < 2 ^ 64 = omega (arith, w.fits) in
      get_entry_lem (append_all new l) append_all-IsWellFormed index (rw result.1 lo) small
      ∙ rw (result.0, result.1)
          (get_elem?-of_take (length l.entries) (index - l.snapshot_index)
            (put_all start new l.entries) l.entries
            (put_all_keeps start new l.entries (omega (arith, f.no_gap, f.behind)) a
              ∙ sym (take_all l.entries))
            (omega arith))
      ∙ sym (get_entry_lem l w index lo small)

module _ (l : RaftLog) (w : IsWellFormed l) (e : LogEntry) (next : e.index ≡ last_index l + 1)
    (room : e.index < 2 ^ 64) where
  -- Append of an entry with the next index, below 2 ^ 64, keeps a well-formed log well-formed,
  -- the entry becomes the last one, and the entries before it stay.
  pub append-IsWellFormed :
      IsWellFormed (append e l)
      × (get_entry (append e l) e.index ≡ some e)
      × (last_index (append e l) ≡ e.index)
      × ((index : ℕ)
          → l.snapshot_index ≤ index
          → index ≤ last_index l
          → get_entry (append e l) index ≡ get_entry l index)
  unfolding append last_index
  append-IsWellFormed =
      let length_last = last_index-length l w in
      let longer = length-append l.entries (e ∷ []) in
      let l' = append e l in
      let w' : IsWellFormed l' = record {
        nonempty = omega arith;
        contiguous = Contiguous-append l.snapshot_index l.entries e w.contiguous (omega arith);
        head_term =
            term_at-take 1 0 (l.entries ++ e ∷ []) l.entries
              (take_append 1 l.entries (e ∷ []) w.nonempty) (omega arith)
            ∙ w.head_term;
        fits = omega arith;
      } in
      (
        w',
        get_entry_lem l' w' e.index (omega (arith, w.nonempty)) room
            ∙ ap (get_elem? (l.entries ++ e ∷ [])) {y = length l.entries + 0} (omega arith)
            ∙ get_elem?-append_right l.entries (e ∷ []) 0,
        ap (λ (x : LogEntry). x.index) (last_or-append (sentinel 0 0) e l.entries),
        λ index lo hi.
            get_entry_lem l' w' index lo (omega arith)
            ∙ get_elem?-append_left l.entries (e ∷ []) (index - l.snapshot_index) (omega arith)
            ∙ sym (get_entry_lem l w index lo (omega arith)),
      )
