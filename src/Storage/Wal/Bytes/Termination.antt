-- ===== src/Storage/Wal/Bytes/Termination.antt =====
-- storage/WriteAheadLog.cpp: Recover comes to an end on all files.
use distributed_key_value_st.Base.{
  ℕ, zero, suc, false, ◌+◌, ◌-◌, ◌^◌, ◌≤◌, ==_iff, All, ◌<◌, ◌≡◌, refl, ◌⊎◌, Option, List, [], ◌∷◌,
  ◌++◌, ◌==◌, ltb, Text, length, take, drop, length-drop, arith, Bool-cases, Option-cases, inl, inr,
}
use distributed_key_value_st.Base.Json.{Json}
use distributed_key_value_st.Raft.Frame.{number_of}
use distributed_key_value_st.Storage.Wal.{RecoveryResult, nothing_recovered}
use distributed_key_value_st.Storage.Wal.Crc.{crc32}
use distributed_key_value_st.Storage.Wal.Bytes.{
  Segments, read_record, intact, Recovered, recovered, thrown, undefined, stuck, replay_payload,
  read_segment, read_segments, recover_files,
}
use distributed_key_value_st.Storage.Wal.Bytes.Frames.{read_segment-stop, Stops}

-- A segment that is too short for a record of 2^32 - 1 bytes.
abbrev pub IsShort : List ℕ → Type 0
IsShort bytes = length bytes < 2 ^ 32 + 8

-- The loop ends with what it reads, or it reads a record and goes on with fewer bytes.
read_record-cases :
    (bytes : List ℕ)
    → IsShort bytes
    → Stops (read_record bytes)
      ⊎ ((t : ℕ) × (p : Text) × (rest : List ℕ) × (read_record bytes ≡ intact t p rest)
          × (length rest < length bytes))
unfolding read_record
read_record-cases [] k = inl tt
read_record-cases (b ∷ bytes) k =
    let all = b ∷ bytes in
    let n = number_of 4 (drop 4 all) in
    let t = number_of 1 (drop 8 all) in
    let p = take n (drop 9 all) in
    elim (Bool-cases (ltb (length all) 9)) [
      | inl header ↦ inl (rw (header, read_record) tt)
      | inr long ↦ elim (Bool-cases (ltb (length (drop 9 all)) n)) [
        | inl cut ↦ inl (rw (long, cut, read_record) tt)
        | inr whole ↦
            let present : n ≤ length (drop 9 all) = ground arith in
            let no_overrun : (n == 2 ^ 32 - 1) ≡ false = elim (Bool-cases (n == 2 ^ 32 - 1)) [
              | inr other ↦ other
              | inl same ↦
                  let size : n ≡ 2 ^ 32 - 1 = (==_iff n (2 ^ 32 - 1)).0 same in
                  absurd (omega (arith, k, present, size, length-drop 9 all))
            ] in
            elim (Bool-cases (crc32 (t ∷ p) == number_of 4 all)) [
              | inl same ↦ inr (
                t,
                p,
                drop n (drop 9 all),
                rw (long, whole, no_overrun, same, read_record) refl,
                omega (arith, length-drop 9 all, length-drop n (drop 9 all)),
              )
              | inr other ↦ inl (rw (long, whole, no_overrun, other, read_record) tt)
            ]
      ]
    ]

-- An end of the program's.
abbrev pub Ends : Recovered → Type 0
Ends (recovered r) = Unit
Ends thrown = Unit
Ends undefined = ⊥
Ends stuck = ⊥

module _ (parse : Text → Option Json) where
  read_segment-Ends :
      (turns : ℕ) (r : RecoveryResult Text Text) (bytes : List ℕ)
      → length bytes < turns
      → IsShort bytes
      → Ends (read_segment parse turns r bytes)
  unfolding read_segment
  read_segment-Ends zero r bytes h k = absurd (omega arith)
  read_segment-Ends (suc turns) r bytes h k = elim (read_record-cases bytes k) [
    | inl stops ↦ rw (read_segment-stop parse turns r bytes (read_record bytes) refl stops) tt
    | inr (t, p, rest, read, shorter) ↦ elim (Option-cases (replay_payload parse r t p)) [
      | inl throws ↦ rw (read, throws, read_segment) tt
      | inr (r', replayed) ↦
          rw (read, replayed, read_segment)
            (read_segment-Ends turns r' rest (omega arith) (omega (arith, k, shorter)))
    ]
  ]

  Ends-cases :
      (o : Recovered) → Ends o → ((r : RecoveryResult Text Text) × (o ≡ recovered r)) ⊎ (o ≡ thrown)
  Ends-cases (recovered r) h = inl (r, refl)
  Ends-cases thrown h = inr refl
  Ends-cases undefined h = absurd h
  Ends-cases stuck h = absurd h

  read_segments-Ends :
      (r : RecoveryResult Text Text) (segments : List (List ℕ))
      → All IsShort segments
      → Ends (read_segments parse r segments)
  unfolding read_segments
  read_segments-Ends r [] k = tt
  read_segments-Ends r (bytes ∷ segments) k =
      let turns = suc (length bytes) in
      elim (Ends-cases (read_segment parse turns r bytes)
        (read_segment-Ends turns r bytes (omega arith) k.0)) [
          | inl (r', ended) ↦ rw (ended, read_segments) (read_segments-Ends r' segments k.1)
          | inr throws ↦ rw (throws, read_segments) tt
        ]

  -- Whatever files that are each shorter than 2^32 + 8 bytes hold, Recover returns a result or throws:
  -- the turns that the loop over a segment is given are enough, and no copy leaves its vector.
  pub recover_files-Ends :
      (w : Segments) → All IsShort (w.closed ++ w.current ∷ []) → Ends (recover_files parse w)
  unfolding recover_files
  recover_files-Ends w k = read_segments-Ends nothing_recovered (w.closed ++ w.current ∷ []) k
