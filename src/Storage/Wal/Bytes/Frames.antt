-- ===== src/Storage/Wal/Bytes/Frames.antt =====
-- storage/WriteAheadLog.cpp: what Recover reads where WriteRecord has written a frame, or a part of one.
use distributed_key_value_st.Base.{
  Option, ℕ, suc, ◌+◌, ◌-◌, ◌%◌, ◌^◌, ◌≤◌, ◌<◌, ◌≡◌, refl, ap, ◌∙◌, true, false, List, [], ◌∷◌,
  ◌++◌, ◌==◌, ltb, Text, length, take, drop, length-append, length-take, take-length, drop-length,
  arith, Bool-cases, inl, inr, ==_iff,
}
use distributed_key_value_st.Raft.Frame.{bytes_of, number_of, take_split}
use distributed_key_value_st.Storage.Wal.Crc.{crc32, crc32_bound}
use distributed_key_value_st.Storage.Wal.Bytes.{
  frame, Reading, at_end, torn, mismatch, overrun, intact, read_record, recovered, read_segment,
}
use distributed_key_value_st.Base.Json.{Json}
use distributed_key_value_st.Storage.Wal.{RecoveryResult}

-- The loop over the segment ends with this reading.
abbrev pub Stops : Reading → Type 0
Stops at_end = Unit
Stops torn = Unit
Stops mismatch = Unit
Stops overrun = ⊥
Stops (intact type_byte payload rest) = ⊥

read_long :
    (all : List ℕ) (t : ℕ) (p rest : List ℕ)
    → 9 ≤ length all
    → length p + 1 < 2 ^ 32
    → number_of 4 all ≡ crc32 (t ∷ p)
    → number_of 4 (drop 4 all) ≡ length p
    → number_of 1 (drop 8 all) ≡ t
    → drop 9 all ≡ p ++ rest
    → read_record all ≡ intact t p rest
unfolding read_record
read_long [] t p rest long fits c n ty d = absurd (omega arith)
read_long (b ∷ bytes) t p rest long fits c n ty d =
    let header : ltb (length (b ∷ bytes)) 9 ≡ false = ground arith in
    let total = length-append p rest in
    let whole : ltb (length (p ++ rest)) (length p) ≡ false = ground arith in
    let same : (crc32 (t ∷ p) == crc32 (t ∷ p)) ≡ true = (==_iff _ _).1 refl in
    let no_overrun : (length p == 2 ^ 32 - 1) ≡ false = ground arith in
    rw
      (
        c,
        n,
        ty,
        d,
        header,
        whole,
        no_overrun,
        take-length p rest,
        drop-length p rest,
        same,
        read_record,
      )
      refl

read_short :
    (all : List ℕ) (n : ℕ)
    → 9 ≤ length all
    → number_of 4 (drop 4 all) ≡ n
    → length (drop 9 all) < n
    → read_record all ≡ torn
unfolding read_record
read_short [] n long e short = absurd (omega arith)
read_short (b ∷ bytes) n long e short =
    let header : ltb (length (b ∷ bytes)) 9 ≡ false = ground arith in
    let cut : ltb (length (drop 9 (b ∷ bytes))) n ≡ true = ground arith in
    rw (e, header, cut, read_record) refl

read_header-Stops : (all : List ℕ) → length all < 9 → Stops (read_record all)
unfolding read_record
read_header-Stops [] short = tt
read_header-Stops (b ∷ bytes) short =
    let header : ltb (length (b ∷ bytes)) 9 ≡ true = ground arith in rw (header, read_record) tt

-- The header of a frame before some bytes.
abbrev framed : ℕ → ℕ → ℕ → List ℕ → List ℕ
framed crc n t p = bytes_of 4 crc ++ bytes_of 4 n ++ t ∷ p

fields_of-framed :
    (crc n t : ℕ) (p : List ℕ)
    → crc < 2 ^ 32
    → n < 2 ^ 32
    → (length (framed crc n t p) ≡ 9 + length p)
      × (number_of 4 (framed crc n t p) ≡ crc)
      × (number_of 4 (drop 4 (framed crc n t p)) ≡ n)
      × (number_of 1 (drop 8 (framed crc n t p)) ≡ t)
      × (drop 9 (framed crc n t p) ≡ p)
unfolding number_of bytes_of
fields_of-framed crc n t p h k = (omega arith, omega arith, omega arith, omega arith, refl)

frame-framed :
    (t : ℕ) (p rest : List ℕ)
    → length p < 2 ^ 32
    → frame t p ++ rest ≡ framed (crc32 (t ∷ p)) (length p) t (p ++ rest)
unfolding frame bytes_of
frame-framed t p rest h = let n : length p % 2 ^ 32 ≡ length p = omega arith in rw n refl

-- Recover reads a frame back, whatever is behind it.
pub read_record-frame :
    (t : ℕ) (p rest : List ℕ)
    → length p + 1 < 2 ^ 32
    → read_record (frame t p ++ rest) ≡ intact t p rest
read_record-frame t p rest h =
    let crc = crc32 (t ∷ p) in
    let fits : length p < 2 ^ 32 = omega (arith, h) in
    let (total, c, n, ty, d) =
      fields_of-framed crc (length p) t (p ++ rest) (crc32_bound (t ∷ p)) fits in
    ap read_record (frame-framed t p rest fits)
    ∙ read_long (framed crc (length p) t (p ++ rest)) t p rest (omega (arith, total)) h c n ty d

frame_whole :
    (t : ℕ) (p : List ℕ) → length p < 2 ^ 32 → frame t p ≡ framed (crc32 (t ∷ p)) (length p) t p
unfolding frame
frame_whole t p h = let n : length p % 2 ^ 32 ≡ length p = omega arith in rw (n, frame) refl

framed_cut :
    (crc n t k : ℕ) (p : List ℕ)
    → 9 ≤ k
    → take k (framed crc n t p) ≡ framed crc n t (take (k - 9) p)
unfolding bytes_of
framed_cut crc n t k p h = take_split 9 k (framed crc n t p) h

-- Recover stops at a frame whose end is missing.
pub read_record_torn :
    (t : ℕ) (p : List ℕ) (k : ℕ)
    → length p < 2 ^ 32
    → k < length (frame t p)
    → Stops (read_record (take k (frame t p)))
read_record_torn t p k h short =
    let crc = crc32 (t ∷ p) in
    let n = length p in
    let bound = crc32_bound (t ∷ p) in
    let whole = frame_whole t p h in
    let total = (fields_of-framed crc n t p bound h).0 in
    let in_frame : k < 9 + length p = omega (arith, ap length whole, total) in
    rw whole (elim (Bool-cases (ltb k 9)) [
      | inl header ↦
          read_header-Stops (take k (framed crc n t p))
            (let cut = length-take k (framed crc n t p) in ground (arith, cut))
      | inr longer ↦
          let past : 9 ≤ k = ground arith in
          let left = length-take (k - 9) p in
          let (total', c, len, ty, d) = fields_of-framed crc n t (take (k - 9) p) bound h in
          let torn_there =
            read_short (framed crc n t (take (k - 9) p)) n (omega (arith, total')) len
              (rw d (omega (arith, left))) in
          rw (framed_cut crc n t k p past, torn_there) tt
    ])

-- Recover stops, too, where other bytes than the missing ones follow the header, but too few.
pub read_record_overtaken :
    (t : ℕ) (p : List ℕ) (k : ℕ) (more : List ℕ)
    → length p < 2 ^ 32
    → 9 ≤ k
    → k + length more < length (frame t p)
    → Stops (read_record (take k (frame t p) ++ more))
unfolding bytes_of
read_record_overtaken t p k more h past short =
    let crc = crc32 (t ∷ p) in
    let n = length p in
    let bound = crc32_bound (t ∷ p) in
    let whole = frame_whole t p h in
    let total = (fields_of-framed crc n t p bound h).0 in
    let in_frame : k + length more < 9 + length p = omega (arith, ap length whole, total) in
    let found = take (k - 9) p ++ more in
    let (total', c, len, ty, d) = fields_of-framed crc n t found bound h in
    let left = length-take (k - 9) p in
    let sum = length-append (take (k - 9) p) more in
    let torn_there =
      read_short (framed crc n t found) n (omega (arith, total')) len
        (rw d (omega (arith, left, sum))) in
    let start : take k (frame t p) ++ more ≡ framed crc n t found =
      ap (λ b. take k b ++ more) whole ∙ ap (λ b. b ++ more) (framed_cut crc n t k p past) in
    rw (start, torn_there) tt

-- The turns of the loop over a segment: a record takes 9 bytes or more.
pub length-frame : (t : ℕ) (p : List ℕ) → length (frame t p) ≡ 9 + length p
unfolding frame bytes_of
length-frame t p = omega arith

module _ (parse : Text → Option Json) where
  pub read_segment-stop :
      (turns : ℕ) (r : RecoveryResult Text Text) (bytes : List ℕ) (o : Reading)
      → read_record bytes ≡ o
      → Stops o
      → read_segment parse (suc turns) r bytes ≡ recovered r
  unfolding read_segment
  read_segment-stop turns r bytes at_end e s = rw (e, read_segment) refl
  read_segment-stop turns r bytes torn e s = rw (e, read_segment) refl
  read_segment-stop turns r bytes mismatch e s = rw (e, read_segment) refl
  read_segment-stop turns r bytes overrun e s = absurd s
  read_segment-stop turns r bytes (intact t p rest) e s = absurd s
