-- ===== src/Storage/Wal/Bytes.antt =====
-- storage/WriteAheadLog.cpp, the bytes: the framing of a record, the segments, and what Recover reads in
-- them. The files are the bytes of the closed segments, oldest first, and of the current one.
-- `parse` and `dump` stand for nlohmann::json; `written` is how many of the bytes ::write takes. memcpy
-- of a uint32_t is in the order of a little-endian machine.
pub mod Frames
pub mod Layout
pub mod Recovery
pub mod Crash
pub mod Termination
mod Tests
use distributed_key_value_st.Base.{
  ℕ, zero, suc, ◌+◌, ◌-◌, ◌%◌, ◌^◌, Bool, true, false, Option, none, some, List, [], ◌∷◌, ◌++◌,
  if◌then◌else◌, ◌==◌, ltb, leb, not, ◌&&◌, Text, codes, length, take, drop, ◌>>=◌,
}
use distributed_key_value_st.Base.Int.{pos, negsuc}
use distributed_key_value_st.Base.Json.{
  Json, Fields, number, string, object, end, field, find_field,
}
use distributed_key_value_st.Raft.Frame.{bytes_of, number_of}
use distributed_key_value_st.Storage.Wal.{
  Record, log_entry, hard_state, snapshot, RecoveryResult, nothing_recovered, replay_record,
}
use distributed_key_value_st.Storage.Wal.Crc.{crc32}

pub record Segments : Type 0 where
  pub closed : List (List ℕ)
  pub current : List ℕ
  pub current_offset : ℕ
  pub max_segment_bytes : ℕ

-- Frame: [crc32 4B][length 4B][type 1B][payload]
unfoldable pub frame : ℕ → Text → List ℕ
unfolding bytes_of crc32
frame type_byte payload =
    bytes_of 4 (crc32 (type_byte ∷ payload))
    ++ bytes_of 4 (length payload % 2 ^ 32)
    ++ type_byte ∷ payload

-- The record type and the JSON object of each record.
unfoldable pub type_byte_of : Record Text Text → ℕ
type_byte_of (log_entry e) = 1
type_byte_of (hard_state hs) = 2
type_byte_of (snapshot index term data_text) = 3

unfoldable pub record_json : Record Text Text → Json
record_json (log_entry e) = object (
    field (codes "term") (number (pos e.term))
      (field (codes "index") (number (pos e.index)) (field (codes "cmd") (string e.command) end)))
record_json (hard_state hs) = object (
    field (codes "term") (number (pos hs.term))
      (field (codes "voted_for") (string hs.voted_for) end))
record_json (snapshot index term data_text) = object (
    field (codes "index") (number (pos index))
      (field (codes "term") (number (pos term)) (field (codes "data") (string data_text) end)))

-- The next segment; its file is new, since its number is above all others.
unfoldable pub open_next_segment : Segments → Segments
open_next_segment w = record w {
  closed = w.closed ++ w.current ∷ [];
  current = [];
  current_offset = 0;
}

unfoldable pub maybe_rotate : Segments → Segments
unfolding open_next_segment
maybe_rotate w = if leb w.max_segment_bytes w.current_offset then open_next_segment w else w

-- The call of ::write and what follows it: whether WriteRecord returns or throws, and the files.
unfoldable pub write_bytes : ℕ → List ℕ → Segments → Bool × Segments
write_bytes written bytes w =
    let w' : Segments = record w { current = w.current ++ take written bytes } in
    if leb (length bytes) written
    then (true, record w' { current_offset = w.current_offset + length bytes })
    else (false, w')

unfoldable pub write_record : ℕ → ℕ → Text → Segments → Bool × Segments
unfolding frame write_bytes
write_record written type_byte payload w = write_bytes written (frame type_byte payload) w

-- What the operations do behind WriteRecord, fdatasync aside.
unfoldable pub finish_write : Record Text Text → Segments → Segments
unfolding maybe_rotate open_next_segment
finish_write (log_entry e) w = maybe_rotate w
finish_write (hard_state hs) w = w
finish_write (snapshot index term data_text) w = open_next_segment w

-- AppendLogEntry, WriteHardState and WriteSnapshot.
unfoldable pub write : (Json → Text) → ℕ → Record Text Text → Segments → Bool × Segments
unfolding type_byte_of record_json write_record finish_write
write dump written x w =
    let (ok, w') = write_record written (type_byte_of x) (dump (record_json x)) w in
    if ok then (true, finish_write x w') else (false, w')

-- j[key].get<uint64_t>(), which throws on another kind.
unfoldable pub get_u64 : Text → Fields → Option ℕ
unfolding find_field
get_u64 key fields = elim (find_field key fields) [
  | some (number (pos n)) ↦ some (n % 2 ^ 64)
  | some (number (negsuc n)) ↦ some (2 ^ 64 - 1 - n % 2 ^ 64)
  | _ ↦ none
]

-- j[key].get<std::string>()
unfoldable pub get_text : Text → Fields → Option Text
unfolding find_field
get_text key fields = elim (find_field key fields) [ some (string s) ↦ some s | _ ↦ none ]

-- The switch on the type of a record, with the result so far. `none`: an exception.
unfoldable pub replay_fields :
    RecoveryResult Text Text → ℕ → Fields → Option (RecoveryResult Text Text)
unfolding get_u64 get_text replay_record
replay_fields r type_byte fields =
    if type_byte == 1
    then (do
      term ← get_u64 (codes "term") fields
      index ← get_u64 (codes "index") fields
      command ← get_text (codes "cmd") fields
      some (replay_record r (log_entry (record { term = term; index = index; command = command }))))
    else if type_byte == 2
    then (do
      term ← get_u64 (codes "term") fields
      voted_for ← get_text (codes "voted_for") fields
      some (replay_record r (hard_state (record { term = term; voted_for = voted_for }))))
    else if type_byte == 3
    then (do
      index ← get_u64 (codes "index") fields
      term ← get_u64 (codes "term") fields
      data_text ← get_text (codes "data") fields
      some (replay_record r (snapshot index term data_text)))
    else some r

unfoldable pub replay_json : RecoveryResult Text Text → ℕ → Json → Option (RecoveryResult Text Text)
unfolding replay_fields
replay_json r type_byte (object fields) = replay_fields r type_byte fields
replay_json r type_byte j = if leb 1 type_byte && leb type_byte 3 then none else some r

-- What one turn of the loop over a segment reads: nothing any more, a record that is cut short or has
-- another checksum, or a record, with the bytes behind it. `overrun` is the length 2^32 - 1: the sum
-- 1 + length of uint32_t is 0, and the bytes are copied behind the end of an empty vector.
pub data Reading : Type 0 where
  at_end torn mismatch overrun : Reading
  intact : ℕ → Text → List ℕ → Reading

unfoldable pub read_record : List ℕ → Reading
unfolding number_of crc32
read_record [] = at_end
read_record (b ∷ bytes) =
    let all = b ∷ bytes in
    let crc = number_of 4 all in
    let len = number_of 4 (drop 4 all) in
    let type_byte = number_of 1 (drop 8 all) in
    let payload = take len (drop 9 all) in
    if ltb (length all) 9
    then torn
    else if ltb (length (drop 9 all)) len
    then torn
    else if len == 2 ^ 32 - 1
    then overrun
    else if crc32 (type_byte ∷ payload) == crc
    then intact type_byte payload (drop len (drop 9 all))
    else mismatch

-- How Recover ends: with a result or with an exception. `undefined` is the copy behind the end of a
-- vector, from where on C++ says nothing. `stuck` is no end of the program's: the loop was given too few
-- turns.
pub data Recovered : Type 0 where
  recovered : RecoveryResult Text Text → Recovered
  thrown undefined stuck : Recovered

module _ (parse : Text → Option Json) where
  unfoldable pub replay_payload :
      RecoveryResult Text Text → ℕ → Text → Option (RecoveryResult Text Text)
  unfolding replay_json
  replay_payload r type_byte payload = do j ← parse payload; replay_json r type_byte j

  -- The loop over a segment, for so many turns.
  unfoldable pub read_segment : ℕ → RecoveryResult Text Text → List ℕ → Recovered
  unfolding read_record replay_payload
  read_segment zero r bytes = stuck
  read_segment (suc turns) r bytes = elim (read_record bytes) [
    | at_end ↦ recovered r
    | torn ↦ recovered r
    | mismatch ↦ recovered r
    | overrun ↦ undefined
    | intact type_byte payload rest ↦ elim (replay_payload r type_byte payload) [
      | none ↦ thrown
      | some r' ↦ read_segment turns r' rest
    ]
  ]

  -- The loop over the segments. A turn takes 9 bytes at least, so a segment's length is enough turns.
  unfoldable pub read_segments : RecoveryResult Text Text → List (List ℕ) → Recovered
  unfolding read_segment
  read_segments r [] = recovered r
  read_segments r (bytes ∷ segments) = elim (read_segment (suc (length bytes)) r bytes) [
    | recovered r' ↦ read_segments r' segments
    | thrown ↦ thrown
    | undefined ↦ undefined
    | stuck ↦ stuck
  ]

  unfoldable pub recover_files : Segments → Recovered
  unfolding read_segments
  recover_files w = read_segments nothing_recovered (w.closed ++ w.current ∷ [])
