-- ===== src/Storage/Wal/Bytes/Crash.antt =====
-- storage/WriteAheadLog.cpp: Recover on files that a crash has left.
use distributed_key_value_st.Base.{
  ℕ, ◌+◌, ◌≤◌, ◌<◌, ◌≡◌, Option, List, [], ◌∷◌, ◌++◌, if◌then◌else◌, Text, length, take, All, arith,
  inl, inr,
}
use distributed_key_value_st.Base.Json.{Json}
use distributed_key_value_st.Storage.Wal.{Record, recover}
use distributed_key_value_st.Storage.Wal.Bytes.{
  Segments, type_byte_of, record_json, write, read_record, recovered, recover_files,
}
use distributed_key_value_st.Storage.Wal.Bytes.Frames.{
  Stops, read_record_torn, read_record_overtaken,
}
use distributed_key_value_st.Storage.Wal.Bytes.Layout.{
  bytes_of_record, bytes_of_records, Holds, write-Holds,
}
use distributed_key_value_st.Storage.Wal.Bytes.Recovery.{Fits, recover_files-Holds}

nothing_left : Stops (read_record [])
unfolding read_record
nothing_left = tt

All-last :
    (P : Record Text Text → Type 0) (xs : List (Record Text Text)) (x : Record Text Text)
    → All P (xs ++ x ∷ [])
    → All P xs × P x
All-last P [] x h = (tt, h.0)
All-last P (y ∷ xs) x h = let (before, last) = All-last P xs x h.1 in ((h.0, before), last)

module _ (parse : Text → Option Json) (dump : Json → Text) where
  -- Recover after a write to files that hold the records `xs`, all of which fit: if the write has
  -- returned, the result is the one of `xs` with the new record, and if it has been cut short after any
  -- number of bytes, the one of `xs`.
  pub recover_files-write :
      (written : ℕ) (x : Record Text Text) (xs : List (Record Text Text)) (w : Segments)
      → Holds dump [] xs w
      → All (Fits parse dump) (xs ++ x ∷ [])
      → let (ok, w') = write dump written x w in
        recover_files parse w' ≡ recovered (recover (if ok then xs ++ x ∷ [] else xs))
  recover_files-write written x xs w h fits = elim (write-Holds dump written x xs w h) [
    | inl (ok, _, holds) ↦
        rw ok (recover_files-Holds parse dump _ [] (xs ++ x ∷ []) holds fits nothing_left)
    | inr (fails, short, holds) ↦
        let (before, last) = All-last (Fits parse dump) xs x fits in
        rw fails (
          recover_files-Holds parse dump _ (take written (bytes_of_record dump x)) xs holds before (
            read_record_torn (type_byte_of x) (dump (record_json x)) written (omega (arith, last.1))
              short))
  ]

  -- A crash leaves the beginning of a record behind the records `xs`, the header at least, and later
  -- writes go behind it into the same segment. While they are shorter than what is missing of the
  -- record, Recover finds none of them.
  pub recover_files_behind_torn :
      (k : ℕ) (x : Record Text Text) (xs ys : List (Record Text Text)) (w : Segments)
      → 9 ≤ k
      → k + length (bytes_of_records dump ys) < length (bytes_of_record dump x)
      → Holds dump (take k (bytes_of_record dump x) ++ bytes_of_records dump ys) xs w
      → All (Fits parse dump) (xs ++ x ∷ [])
      → recover_files parse w ≡ recovered (recover xs)
  recover_files_behind_torn k x xs ys w long short h fits =
      let (before, last) = All-last (Fits parse dump) xs x fits in
      recover_files-Holds parse dump w _ xs h before (
        read_record_overtaken (type_byte_of x) (dump (record_json x)) k (bytes_of_records dump ys)
          (omega (arith, last.1)) long short)
