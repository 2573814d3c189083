-- ===== src/Storage/Wal/Bytes/Layout.antt =====
-- storage/WriteAheadLog.cpp: which bytes the files hold after records have been written.
use distributed_key_value_st.Base.{
  ℕ, zero, suc, ◌≤◌, ◌<◌, ◌≡◌, refl, sym, ap, ◌∙◌, ◌⊎◌, true, false, List, [], ◌∷◌, ◌++◌, leb,
  leb→le, map, Text, length, take, length-append, append_assoc, append_nil, arith, Bool-cases, inl,
  inr,
}
use distributed_key_value_st.Base.Json.{Json}
use distributed_key_value_st.Storage.Wal.{Record, log_entry, hard_state, snapshot}
use distributed_key_value_st.Storage.Wal.Bytes.{
  Segments, frame, type_byte_of, record_json, open_next_segment, maybe_rotate, write_bytes,
  write_record, write, finish_write,
}
use distributed_key_value_st.Storage.Wal.Bytes.Frames.{length-frame}

-- The records of all segments.
abbrev pub joined : List (List (Record Text Text)) → List (Record Text Text)
joined [] = []
joined (xs ∷ xss) = xs ++ joined xss

module _ (dump : Json → Text) where
  -- The bytes of a record, and of records one behind the other.
  abbrev pub bytes_of_record : Record Text Text → List ℕ
  bytes_of_record x = frame (type_byte_of x) (dump (record_json x))

  abbrev pub bytes_of_records : List (Record Text Text) → List ℕ
  bytes_of_records [] = []
  bytes_of_records (x ∷ xs) = bytes_of_record x ++ bytes_of_records xs

  pub length-records : (xs : List (Record Text Text)) → length xs ≤ length (bytes_of_records xs)
  length-records [] = omega arith
  length-records (x ∷ xs) =
      let one = length-frame (type_byte_of x) (dump (record_json x)) in
      omega (arith, one, length-records xs, length-append (bytes_of_record x) (bytes_of_records xs))

  -- The files hold these records, one behind the other, and then some bytes.
  abbrev pub Holds : List ℕ → List (Record Text Text) → Segments → Type 0
  Holds tail xs w =
      (xss : List (List (Record Text Text))) × (ys : List (Record Text Text)) × (w.closed
        ≡ map bytes_of_records xss)
      × (w.current ≡ bytes_of_records ys ++ tail)
      × (joined xss ++ ys ≡ xs)

  -- A write takes all bytes of its record or fewer.
  take_enough : (k : ℕ) (bytes : List ℕ) → length bytes ≤ k → take k bytes ≡ bytes
  take_enough zero [] h = refl
  take_enough zero (b ∷ bytes) h = absurd (omega arith)
  take_enough (suc k) [] h = refl
  take_enough (suc k) (b ∷ bytes) h = ap (◌∷◌ b) (take_enough k bytes (omega arith))

  map-joined :
      (xss : List (List (Record Text Text))) (ys : List (Record Text Text))
      → (map bytes_of_records (xss ++ ys ∷ [])
          ≡ map bytes_of_records xss ++ bytes_of_records ys ∷ [])
        × (joined (xss ++ ys ∷ []) ≡ joined xss ++ ys)
  map-joined [] ys = (refl, append_nil ys)
  map-joined (xs ∷ xss) ys =
      let (mapped, all) = map-joined xss ys in
      (
        ap (◌∷◌ (bytes_of_records xs)) mapped,
        ap (◌++◌ xs) all ∙ sym (append_assoc xs (joined xss) ys),
      )

  open_next_segment-Holds :
      (xs : List (Record Text Text)) (w : Segments)
      → Holds [] xs w
      → Holds [] xs (open_next_segment w)
  unfolding open_next_segment
  open_next_segment-Holds xs w (xss, ys, closed, current, all) =
      let (mapped, same) = map-joined xss ys in
      (
        xss ++ ys ∷ [],
        [],
        rw (closed, current, append_nil (bytes_of_records ys), mapped) refl,
        refl,
        append_nil (joined (xss ++ ys ∷ [])) ∙ same ∙ all,
      )

  records-append :
      (ys : List (Record Text Text)) (x : Record Text Text)
      → bytes_of_records (ys ++ x ∷ []) ≡ bytes_of_records ys ++ bytes_of_record x
  records-append [] x = append_nil (bytes_of_record x)
  records-append (y ∷ ys) x =
      ap (◌++◌ (bytes_of_record y)) (records-append ys x)
      ∙ sym (append_assoc (bytes_of_record y) (bytes_of_records ys) (bytes_of_record x))

  write_record-whole :
      (written : ℕ) (x : Record Text Text) (xs : List (Record Text Text)) (w : Segments)
      → Holds [] xs w
      → leb (length (bytes_of_record x)) written ≡ true
      → let (ok, w') = write_record written (type_byte_of x) (dump (record_json x)) w in
        (ok ≡ true) × Holds [] (xs ++ x ∷ []) w'
  unfolding write_record
  write_record-whole written x xs w (xss, ys, closed, current, all) ok =
      let taken = take_enough written (bytes_of_record x) (leb→le _ _ ok) in
      let longer : w.current ++ bytes_of_record x ≡ bytes_of_records (ys ++ x ∷ []) ++ [] =
        ap (λ b. b ++ bytes_of_record x) (current ∙ append_nil (bytes_of_records ys))
        ∙ sym (records-append ys x)
        ∙ sym (append_nil (bytes_of_records (ys ++ x ∷ []))) in
      let more : joined xss ++ (ys ++ x ∷ []) ≡ xs ++ x ∷ [] =
        sym (append_assoc (joined xss) ys (x ∷ [])) ∙ ap (λ zs. zs ++ x ∷ []) all in
      rw (ok, taken, write_bytes) (refl, (xss, ys ++ x ∷ [], closed, longer, more))

  write_record-short :
      (written : ℕ) (x : Record Text Text) (xs : List (Record Text Text)) (w : Segments)
      → Holds [] xs w
      → leb (length (bytes_of_record x)) written ≡ false
      → let (ok, w') = write_record written (type_byte_of x) (dump (record_json x)) w in
        (ok ≡ false) × Holds (take written (bytes_of_record x)) xs w'
  unfolding write_record
  write_record-short written x xs w (xss, ys, closed, current, all) short =
      let cut = take written (bytes_of_record x) in
      let longer : w.current ++ cut ≡ bytes_of_records ys ++ cut =
        ap (λ b. b ++ cut) (current ∙ append_nil (bytes_of_records ys)) in
      rw (short, write_bytes) (refl, (xss, ys, closed, longer, all))

  maybe_rotate-Holds :
      (xs : List (Record Text Text)) (w : Segments) → Holds [] xs w → Holds [] xs (maybe_rotate w)
  unfolding maybe_rotate
  maybe_rotate-Holds xs w h = elim (Bool-cases (leb w.max_segment_bytes w.current_offset)) [
    | inl full ↦ rw (full, maybe_rotate) (open_next_segment-Holds xs w h)
    | inr room ↦ rw (room, maybe_rotate) h
  ]

  finish_write-Holds :
      (x : Record Text Text) (xs : List (Record Text Text)) (w : Segments)
      → Holds [] xs w
      → Holds [] xs (finish_write x w)
  unfolding finish_write
  finish_write-Holds (log_entry e) xs w h = maybe_rotate-Holds xs w h
  finish_write-Holds (hard_state hs) xs w h = h
  finish_write-Holds (snapshot index term s) xs w h = open_next_segment-Holds xs w h

  -- AppendLogEntry, WriteHardState and WriteSnapshot, on files that hold whole records: a write that
  -- takes all bytes adds its record, the rotation included; a write that takes fewer throws, and leaves
  -- the beginning of its record behind the others.
  pub write-Holds :
      (written : ℕ) (x : Record Text Text) (xs : List (Record Text Text)) (w : Segments)
      → Holds [] xs w
      → let (ok, w') = write dump written x w in
        ((ok ≡ true) × (length (bytes_of_record x) ≤ written) × Holds [] (xs ++ x ∷ []) w')
        ⊎ ((ok ≡ false)
            × (written < length (bytes_of_record x))
            × Holds (take written (bytes_of_record x)) xs w')
  unfolding write
  write-Holds written x xs w h = elim (Bool-cases (leb (length (bytes_of_record x)) written)) [
    | inl enough ↦
        let (ok, holds) = write_record-whole written x xs w h enough in
        inl (
          rw (ok, write) refl,
          leb→le _ _ enough,
          rw (ok, write) (finish_write-Holds x (xs ++ x ∷ []) _ holds),
        )
    | inr few ↦
        let (fails, holds) = write_record-short written x xs w h few in
        inr (rw (fails, write) refl, ground (arith, few), rw (fails, write) holds)
  ]
