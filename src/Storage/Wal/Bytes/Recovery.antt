-- ===== src/Storage/Wal/Bytes/Recovery.antt =====
-- storage/WriteAheadLog.cpp: Recover on the bytes gives what the sequence of the records gives.
use distributed_key_value_st.Base.{
  ◌+◌, ℕ, zero, suc, ◌%◌, ◌^◌, ◌<◌, ◌≡◌, refl, sym, ap, ◌∙◌, Option, some, List, [], ◌∷◌, ◌++◌,
  text_eq, map, Text, length, length-append, append_assoc, append_nil, arith, All,
}
use distributed_key_value_st.Base.Json.{Json, find_field}
use distributed_key_value_st.Storage.Wal.{
  Record, log_entry, hard_state, snapshot, RecoveryResult, nothing_recovered, replay_record,
  replay_from, recover,
}
use distributed_key_value_st.Storage.Wal.Bytes.{
  Segments, type_byte_of, record_json, get_u64, get_text, replay_json, read_record, recovered,
  replay_payload, read_segment, read_segments, recover_files,
}
use distributed_key_value_st.Storage.Wal.Bytes.Frames.{read_segment-stop, Stops, read_record-frame}
use distributed_key_value_st.Storage.Wal.Bytes.Layout.{
  bytes_of_record, bytes_of_records, length-records, joined, Holds,
}

-- The numbers of a record are uint64_t.
abbrev pub HasWords : Record Text Text → Type 0
HasWords (log_entry e) = (e.term < 2 ^ 64) × (e.index < 2 ^ 64)
HasWords (hard_state hs) = hs.term < 2 ^ 64
HasWords (snapshot index term s) = (index < 2 ^ 64) × (term < 2 ^ 64)

replay_json_lem :
    (x : Record Text Text) (r : RecoveryResult Text Text)
    → HasWords x
    → replay_json r (type_byte_of x) (record_json x) ≡ some (replay_record r x)
unfolding replay_json type_byte_of record_json get_u64 get_text find_field text_eq
replay_json_lem (log_entry e) r h =
    let term : e.term % 2 ^ 64 ≡ e.term = omega arith in
    let index : e.index % 2 ^ 64 ≡ e.index = omega arith in rw (term, index) refl
replay_json_lem (hard_state hs) r h =
    let term : hs.term % 2 ^ 64 ≡ hs.term = omega arith in rw term refl
replay_json_lem (snapshot index term s) r h =
    let index_is : index % 2 ^ 64 ≡ index = omega arith in
    let term_is : term % 2 ^ 64 ≡ term = omega arith in rw (index_is, term_is) refl

module _ (parse : Text → Option Json) (dump : Json → Text) where
  -- Parsing reads back what is dumped of the record, its text is shorter than 2^32, and its numbers fit.
  abbrev pub Fits : Record Text Text → Type 0
  Fits x =
      (parse (dump (record_json x)) ≡ some (record_json x))
      × (length (dump (record_json x)) + 1 < 2 ^ 32)
      × HasWords x

  replay_payload_lem :
      (x : Record Text Text) (r : RecoveryResult Text Text)
      → Fits x
      → replay_payload parse r (type_byte_of x) (dump (record_json x)) ≡ some (replay_record r x)
  unfolding replay_payload
  replay_payload_lem x r (parses, _, words) = rw parses (replay_json_lem x r words)

  read_segment-records :
      (xs : List (Record Text Text)) (tail : List ℕ) (turns : ℕ) (r : RecoveryResult Text Text)
      → All Fits xs
      → Stops (read_record tail)
      → length xs < turns
      → read_segment parse turns r (bytes_of_records dump xs ++ tail) ≡ recovered (replay_from r xs)
  unfolding read_segment replay_from
  read_segment-records xs tail zero r h s k = absurd (omega arith)
  read_segment-records [] tail (suc turns) r h s k =
      read_segment-stop parse turns r tail (read_record tail) refl s
  read_segment-records (x ∷ xs) tail (suc turns) r h s k =
      let payload = dump (record_json x) in
      let rest = bytes_of_records dump xs ++ tail in
      let read = read_record-frame (type_byte_of x) payload rest h.0.1 in
      rw
        (
          append_assoc (bytes_of_record dump x) (bytes_of_records dump xs) tail,
          read,
          replay_payload_lem x r h.0,
          read_segment,
        )
        (read_segment-records xs tail turns (replay_record r x) h.1 s (omega arith))

  replay_from-append :
      (r : RecoveryResult Text Text) (xs ys : List (Record Text Text))
      → replay_from r (xs ++ ys) ≡ replay_from (replay_from r xs) ys
  unfolding replay_from
  replay_from-append r [] ys = refl
  replay_from-append r (x ∷ xs) ys = replay_from-append (replay_record r x) xs ys

  All-split : (xs ys : List (Record Text Text)) → All Fits (xs ++ ys) → All Fits xs × All Fits ys
  All-split [] ys h = (tt, h)
  All-split (x ∷ xs) ys h = let (l, r) = All-split xs ys h.1 in ((h.0, l), r)

  read_segment-closed :
      (xs : List (Record Text Text)) (r : RecoveryResult Text Text)
      → All Fits xs
      → read_segment parse (suc (length (bytes_of_records dump xs))) r (bytes_of_records dump xs)
        ≡ recovered (replay_from r xs)
  unfolding read_record
  read_segment-closed xs r h =
      let bytes = bytes_of_records dump xs in
      let enough : length xs < suc (length bytes) = omega (arith, length-records dump xs) in
      ap (read_segment parse (suc (length bytes)) r) (sym (append_nil bytes))
      ∙ read_segment-records xs [] (suc (length bytes)) r h tt enough

  read_segments-next :
      (bytes : List ℕ) (segments : List (List ℕ)) (r r' : RecoveryResult Text Text)
      → read_segment parse (suc (length bytes)) r bytes ≡ recovered r'
      → read_segments parse r (bytes ∷ segments) ≡ read_segments parse r' segments
  unfolding read_segments
  read_segments-next bytes segments r r' e = rw (e, read_segments) refl

  read_segments-records :
      (xss : List (List (Record Text Text))) (ys : List (Record Text Text)) (tail : List ℕ)
      (r : RecoveryResult Text Text)
      → All Fits (joined xss ++ ys)
      → Stops (read_record tail)
      → read_segments parse r
          (map (bytes_of_records dump) xss ++ (bytes_of_records dump ys ++ tail) ∷ [])
        ≡ recovered (replay_from r (joined xss ++ ys))
  unfolding read_segments
  read_segments-records [] ys tail r h s =
      let enough : length ys < suc (length (bytes_of_records dump ys ++ tail)) =
        omega (arith, length-records dump ys, length-append (bytes_of_records dump ys) tail) in
      rw
        (
          read_segment-records ys tail (suc (length (bytes_of_records dump ys ++ tail))) r h s
              enough,
          read_segments,
        )
        refl
  read_segments-records (xs ∷ xss) ys tail r h s =
      let assoc = append_assoc xs (joined xss) ys in
      let h' : All Fits (xs ++ (joined xss ++ ys)) = rw assoc at h in
      let (here, behind) = All-split xs (joined xss ++ ys) h' in
      let r' = replay_from r xs in
      read_segments-next (bytes_of_records dump xs)
        (map (bytes_of_records dump) xss ++ (bytes_of_records dump ys ++ tail) ∷ []) r r'
        (read_segment-closed xs r here)
      ∙ read_segments-records xss ys tail r' behind s
      ∙ ap recovered
          (sym (replay_from-append r xs (joined xss ++ ys)) ∙ ap (replay_from r) (sym assoc))

  pub recover_files-Holds :
      (w : Segments) (tail : List ℕ) (xs : List (Record Text Text))
      → Holds dump tail xs w
      → All Fits xs
      → Stops (read_record tail)
      → recover_files parse w ≡ recovered (recover xs)
  unfolding recover_files recover
  recover_files-Holds w tail xs (xss, ys, closed, current, all) h s =
      rw (closed, current, ← all) (read_segments-records xss ys tail nothing_recovered (rw all h) s)
