-- ===== src/Raft/Frame.antt =====
-- raft/RaftRPC.cpp: the frames of RPC messages on the wire. memcpy of a uint32_t is in the order of a
-- little-endian machine. A type is its byte, since static_cast gives any byte.
mod Tests
use distributed_key_value_st.Base.{
  ℕ, zero, suc, ◌+◌, ◌-◌, ◌*◌, ◌/◌, ◌%◌, ◌^◌, ◌≤◌, ◌<◌, ◌≡◌, refl, sym, ◌∙◌, ap, Option, none, some,
  List, [], ◌∷◌, ◌++◌, arith, if◌then◌else◌, ltb, lt→ltb, false, Text, length, take, drop,
  length-append, take_all, Bool-cases, inl, inr, ltb→lt,
}

pub record RpcFrame : Type 0 where
  pub type : ℕ
  pub seq : ℕ
  pub payload : Text

-- memcpy from a number of `k` bytes, and to it.
unfoldable pub bytes_of : ℕ → ℕ → List ℕ
bytes_of zero n = []
bytes_of (suc k) n = n % 256 ∷ bytes_of k (n / 256)

unfoldable pub number_of : ℕ → List ℕ → ℕ
number_of zero bs = 0
number_of (suc k) [] = 0
number_of (suc k) (b ∷ bs) = b + 256 * number_of k bs

-- `none` where 9 + payloadLen wraps around and the copies go past the buffer.
unfoldable pub encode : RpcFrame → Option (List ℕ)
unfolding bytes_of
encode f =
    let payload_len = length f.payload % 2 ^ 32 in
    if ltb (9 + payload_len) (2 ^ 32)
    then some
        (f.type % 256 ∷ bytes_of 4 f.seq ++ bytes_of 4 payload_len ++ take payload_len f.payload)
    else none

-- What Decode returns: false; a frame and how many bytes it took; or that it read past the buffer.
pub data Decoded : Type 0 where
  partial : Decoded
  decoded : RpcFrame → ℕ → Decoded
  overrun : Decoded

unfoldable pub decode : List ℕ → Decoded
unfolding number_of
decode bytes =
    let payload_len = number_of 4 (drop 5 bytes) in
    if ltb (length bytes) 9
    then partial
    else if ltb (length bytes) ((9 + payload_len) % 2 ^ 32)
    then partial
    else if ltb (length bytes) (9 + payload_len)
    then overrun
    else decoded
        (record {
          type = number_of 1 bytes;
          seq = number_of 4 (drop 1 bytes);
          payload = take payload_len (drop 9 bytes);
        })
        ((9 + payload_len) % 2 ^ 32)

pub number_of-bytes_of :
    (n : ℕ) (rest : List ℕ) → n < 2 ^ 32 → number_of 4 (bytes_of 4 n ++ rest) ≡ n
unfolding number_of bytes_of
number_of-bytes_of n rest h = omega arith

pub take-append_all : (xs ys : List ℕ) → take (length xs) (xs ++ ys) ≡ xs
take-append_all [] ys = refl
take-append_all (x ∷ xs) ys = ap (◌∷◌ x) (take-append_all xs ys)

pub length-take_short : (k : ℕ) (xs : List ℕ) → k ≤ length xs → length (take k xs) ≡ k
length-take_short zero xs h = refl
length-take_short (suc k) [] h = absurd (omega arith)
length-take_short (suc k) (x ∷ xs) h = omega (arith, length-take_short k xs (omega arith))

take_nil : (k : ℕ) → take {A = ℕ} k [] ≡ []
take_nil zero = refl
take_nil (suc k) = refl

pub take_split : (n k : ℕ) (xs : List ℕ) → n ≤ k → take k xs ≡ take n xs ++ take (k - n) (drop n xs)
take_split zero k xs h = ap (λ i. take i xs) {y = k - 0} (omega arith)
take_split (suc n) zero xs h = absurd (omega arith)
take_split (suc n) (suc k) [] h = sym (take_nil (suc k - suc n))
take_split (suc n) (suc k) (x ∷ xs) h =
    let left : k - n ≡ suc k - suc n = omega arith in
    ap (◌∷◌ x) (take_split n k xs (omega arith) ∙ ap (λ i. take n xs ++ take i (drop n xs)) left)

-- The bytes of a frame, with a payload `p` that may be cut short.
abbrev framed : RpcFrame → List ℕ → List ℕ
framed f p = f.type ∷ bytes_of 4 f.seq ++ bytes_of 4 (length f.payload) ++ p

module _ (f : RpcFrame) (byte : f.type < 256) (word : f.seq < 2 ^ 32)
    (fits : 9 + length f.payload < 2 ^ 32) where
  encode-framed : encode f ≡ some (framed f f.payload)
  unfolding encode
  encode-framed =
      let len : length f.payload % 2 ^ 32 ≡ length f.payload = omega arith in
      let type_byte : f.type % 256 ≡ f.type = omega arith in
      rw (len, type_byte, lt→ltb (9 + length f.payload) (2 ^ 32) fits, take_all f.payload)

  length-framed : (p : List ℕ) → length (framed f p) ≡ 9 + length p
  unfolding bytes_of
  length-framed p = omega arith

  -- What Decode reads in these bytes.
  read-framed :
      (p : List ℕ)
      → (length (framed f p) ≡ 9 + length p)
        × (number_of 1 (framed f p) ≡ f.type)
        × (number_of 4 (drop 1 (framed f p)) ≡ f.seq)
        × (number_of 4 (drop 5 (framed f p)) ≡ length f.payload)
        × (drop 9 (framed f p) ≡ p)
  unfolding number_of bytes_of
  read-framed p = (omega arith, omega arith, omega arith, omega arith, refl)

  decode_whole :
      (rest : List ℕ) → decode (framed f (f.payload ++ rest)) ≡ decoded f (9 + length f.payload)
  unfolding decode
  decode_whole rest =
      let (len, type_is, seq_is, payload_len, after) = read-framed (f.payload ++ rest) in
      let n = length f.payload in
      let longer = length-append f.payload rest in
      let no_wrap : (9 + n) % 2 ^ 32 ≡ 9 + n = omega arith in
      let header : ltb (9 + length (f.payload ++ rest)) 9 ≡ false = ground arith in
      let whole : ltb (9 + length (f.payload ++ rest)) (9 + n) ≡ false = ground arith in
      rw
        (
          payload_len,
          type_is,
          seq_is,
          after,
          len,
          no_wrap,
          header,
          whole,
          take-append_all f.payload rest,
        )
        refl

  decode_cut : (p : List ℕ) → length p < length f.payload → decode (framed f p) ≡ partial
  unfolding decode
  decode_cut p h =
      let (len, type_is, seq_is, payload_len, after) = read-framed p in
      let n = length f.payload in
      let no_wrap : (9 + n) % 2 ^ 32 ≡ 9 + n = omega arith in
      rw (payload_len, len, no_wrap) (ground arith)

  -- A frame whose type fits a byte, whose number fits 32 bits and whose payload is shorter than 2
  -- ^ 32 - 9 is read back by Decode from what Encode writes, whatever follows it, and takes its
  -- own bytes.
  pub decode-encode :
      (rest : List ℕ)
      → (bytes : List ℕ) × (encode f ≡ some bytes)
        × (decode (bytes ++ rest) ≡ decoded f (length bytes))
  unfolding bytes_of
  decode-encode rest = (
    framed f f.payload,
    encode-framed,
    decode_whole rest ∙ ap (decoded f) (sym (length-framed f.payload)),
  )

  -- Decode takes what Encode writes for such a frame, when the end is missing, for a partial
  -- frame.
  pub decode-partial :
      (k : ℕ) (bytes : List ℕ)
      → encode f ≡ some bytes
      → k < length bytes
      → decode (take k bytes) ≡ partial
  unfolding decode bytes_of
  decode-partial k bytes e h =
      let whole : bytes ≡ framed f f.payload = cc (e, encode-framed) in
      let total = length-framed f.payload in
      let short : k < 9 + length f.payload = omega (arith, ap length whole, total) in
      rw whole (elim (Bool-cases (ltb k 9)) [
        | inl header ↦
            let in_header = ltb→lt k 9 header in
            let cut = length-take_short k (framed f f.payload) (omega (arith, total)) in
            ground (arith, cut, in_header)
        | inr payload ↦
            let past : 9 ≤ k = ground arith in
            let in_payload : k - 9 < length f.payload = omega arith in
            let left = length-take_short (k - 9) f.payload (omega arith) in
            rw (take_split 9 k (framed f f.payload) past)
              (decode_cut (take (k - 9) f.payload) (omega arith))
      ])

-- A length field of 2^32 - 9 or more wraps around in Decode's check, and Decode reads past the end of
-- every buffer of at least 9 bytes that is shorter than the frame would be.
pub decode_overrun :
    (bytes : List ℕ)
    → 9 ≤ length bytes
    → 2 ^ 32 ≤ 9 + number_of 4 (drop 5 bytes)
    → number_of 4 (drop 5 bytes) < 2 ^ 32
    → length bytes < 9 + number_of 4 (drop 5 bytes)
    → decode bytes ≡ overrun
unfolding decode
decode_overrun bytes long wraps word short =
    let header : ltb (length bytes) 9 ≡ false = ground arith in
    let passes : ltb (length bytes) ((9 + number_of 4 (drop 5 bytes)) % 2 ^ 32) ≡ false =
      ground arith in
    rw (header, passes, lt→ltb (length bytes) (9 + number_of 4 (drop 5 bytes)) short) refl
