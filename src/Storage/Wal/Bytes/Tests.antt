-- ===== src/Storage/Wal/Bytes/Tests.antt =====
-- storage/WriteAheadLog.cpp: a segment with two records, whole and cut short.
use distributed_key_value_st.Base.{
  ◌≡◌, refl, Option, some, [], ◌∷◌, ◌++◌, if◌then◌else◌, Text, codes, take, arith,
}
use distributed_key_value_st.Base.Json.{Json, string, object, field, end}
use distributed_key_value_st.Storage.Wal.{Record, hard_state, recover}
use distributed_key_value_st.Storage.Wal.Crc.{crc32}
use distributed_key_value_st.Storage.Wal.Bytes.{
  Segments, record_json, write, recovered, recover_files, frame,
}
use distributed_key_value_st.Storage.Wal.Bytes.Layout.{bytes_of_record, bytes_of_records, Holds}
use distributed_key_value_st.Storage.Wal.Bytes.Recovery.{Fits}
use distributed_key_value_st.Storage.Wal.Bytes.Crash.{
  recover_files-write, recover_files_behind_torn,
}
use distributed_key_value_st.Storage.Wal.Bytes.Termination.{Ends, recover_files-Ends}

-- The check value of CRC-32.
checked : crc32 (codes "123456789") ≡ 3421780262
unfolding crc32
checked = refl

abbrev vote : Record Text Text
vote = hard_state (record { term = 1; voted_for = codes "b" })

abbrev no_vote : Record Text Text
no_vote = hard_state (record { term = 2; voted_for = [] })

-- A JSON library that knows the texts of two values.
abbrev dump : Json → Text
dump j = codes "{}"

abbrev parse : Text → Option Json
parse s = some (record_json vote)

abbrev no_files : Segments
no_files = record { closed = []; current = []; current_offset = 0; max_segment_bytes = 64 }

no_files-Holds : Holds dump [] [] no_files
no_files-Holds = ([], [], refl, refl, refl)

vote-Fits : Fits parse dump vote
vote-Fits = (refl, omega arith, omega arith)

recover_files-write_example :
    let (ok, w) = write dump 5 vote no_files in
    recover_files parse w ≡ recovered (recover (if ok then vote ∷ [] else []))
recover_files-write_example =
    recover_files-write parse dump 5 vote [] no_files no_files-Holds (vote-Fits, tt)

-- A JSON library that keeps the name only.
abbrev dump_name : Json → Text
dump_name (object (field k n (field k' (string s) end))) = s
dump_name j = []

abbrev long_vote : Record Text Text
long_vote = hard_state (record { term = 1; voted_for = codes "node-number-one" })

abbrev parse_long : Text → Option Json
parse_long s = some (record_json long_vote)

abbrev torn_files : Segments
torn_files = record no_files {
  current =
      take 9 (bytes_of_record dump_name long_vote) ++ bytes_of_records dump_name (no_vote ∷ []);
}

torn_files-Holds :
    Holds dump_name
      (take 9 (bytes_of_record dump_name long_vote) ++ bytes_of_records dump_name (no_vote ∷ []))
      []
      torn_files
torn_files-Holds = ([], [], refl, refl, refl)

long_vote-Fits : Fits parse_long dump_name long_vote
unfolding record_json
long_vote-Fits = (refl, omega arith, omega arith)

recover_files_behind_torn_example : recover_files parse_long torn_files ≡ recovered (recover [])
unfolding frame record_json
recover_files_behind_torn_example =
    recover_files_behind_torn parse_long dump_name 9 long_vote [] (no_vote ∷ []) torn_files
      (omega arith) (omega arith) torn_files-Holds (long_vote-Fits, tt)

-- A whole header with a length of 3 and two bytes behind it.
abbrev cut_files : Segments
cut_files = record no_files { current = 0 ∷ 0 ∷ 0 ∷ 0 ∷ 3 ∷ 0 ∷ 0 ∷ 0 ∷ 2 ∷ b'{' ∷ b'}' ∷ [] }

recover_files-Ends_example : Ends (recover_files parse cut_files)
recover_files-Ends_example = recover_files-Ends parse cut_files (ground arith, tt)
