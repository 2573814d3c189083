-- ===== src/Raft/Stream/Chunks.antt =====
-- raft/RaftRpcServer.cpp and RaftPeer.cpp: the frames of a connection, whatever pieces its bytes come in.
use distributed_key_value_st.Base.{
  ℕ, zero, suc, ◌+◌, ◌<◌, ◌≤◌, ◌^◌, ◌≡◌, refl, sym, ap, ◌∙◌, Option, none, some, List, [], ◌∷◌,
  ◌++◌, arith, length, take, length-append, append_assoc, append_nil, take-length, drop-length,
  ◌>>=◌, Bool-cases, inl, inr, ltb, ltb→lt, All,
}
use distributed_key_value_st.Raft.Frame.{
  RpcFrame, encode, decode, partial, decoded, decode-encode, decode-partial,
}
use distributed_key_value_st.Raft.Stream.{
  Turn, goes_on, breaks, throws, Drained, drained, drain, receive, receive_all, take_turns, gone_on,
}

-- A frame that Encode writes and Decode reads back.
abbrev pub Fits : RpcFrame → Type 0
Fits f = (f.type < 256) × (f.seq < 2 ^ 32) × (9 + length f.payload < 2 ^ 32)

abbrev pub bytes_or_none : Option (List ℕ) → List ℕ
bytes_or_none none = []
bytes_or_none (some bytes) = bytes

abbrev pub encoded : RpcFrame → List ℕ
encoded f = bytes_or_none (encode f)

-- What Encode writes for the frames, one behind the other.
unfoldable pub encode_all : List RpcFrame → List ℕ
encode_all [] = []
encode_all (f ∷ fs) = encoded f ++ encode_all fs

unfoldable pub join : List (List ℕ) → List ℕ
join [] = []
join (bytes ∷ chunks) = bytes ++ join chunks

pub decode-nil : decode [] ≡ partial
unfolding decode
decode-nil = refl

take-short : (n : ℕ) (xs ys : List ℕ) → n ≤ length xs → take n (xs ++ ys) ≡ take n xs
take-short zero xs ys h = refl
take-short (suc n) [] ys h = absurd (omega arith)
take-short (suc n) (x ∷ xs) ys h = ap (◌∷◌ x) (take-short n xs ys (omega arith))

pub encoded-decodes :
    (f : RpcFrame) (rest : List ℕ)
    → Fits f
    → decode (encoded f ++ rest) ≡ decoded f (length (encoded f))
encoded-decodes f rest (byte, word, fits) =
    let (bytes, written, read) = decode-encode f byte word fits rest in rw written read

encoded-cut :
    (f : RpcFrame) (xs ys rest : List ℕ)
    → Fits f
    → xs ++ ys ≡ encoded f ++ rest
    → length xs < length (encoded f)
    → decode xs ≡ partial
encoded-cut f xs ys rest (byte, word, fits) same short =
    let (bytes, written, _) = decode-encode f byte word fits [] in
    let is_bytes : encoded f ≡ bytes = rw written refl in
    let cut : xs ≡ take (length xs) (encoded f) =
      sym (take-length xs ys)
      ∙ ap (take (length xs)) same
      ∙ take-short (length xs) (encoded f) rest (omega arith) in
    let partial_bytes = decode-partial f byte word fits (length xs) bytes written in
    rw cut (rw is_bytes (partial_bytes (omega (arith, ap length is_bytes))))

length-encoded : (f : RpcFrame) → Fits f → 0 < length (encoded f)
length-encoded f h = not_nil (encoded f) (encoded-decodes f [] h)
  where
    not_nil : (bytes : List ℕ) {n : ℕ} → decode (bytes ++ []) ≡ decoded f n → 0 < length bytes
    not_nil [] e = cc (decode-nil)
    not_nil (b ∷ bytes) e = omega arith

-- Of two ways to cut a list, the longer first piece begins with the shorter one.
cut_longer :
    (es rest xs ys : List ℕ)
    → xs ++ ys ≡ es ++ rest
    → length es ≤ length xs
    → (more : List ℕ) × (xs ≡ es ++ more) × (more ++ ys ≡ rest)
cut_longer [] rest xs ys same h = (xs, refl, same)
cut_longer (e ∷ es) rest [] ys same h = absurd (omega arith)
cut_longer (e ∷ es) rest (x ∷ xs) ys same h =
    let (head, tail) : (x ≡ e) × (xs ++ ys ≡ es ++ rest) = (cc (same), cc (same)) in
    let (more, first, second) = cut_longer es rest xs ys tail (omega arith) in
    (more, ap (◌∷◌ x) first ∙ ap (λ b. b ∷ es ++ more) head, second)

-- The frames that are whole in the first bytes of a stream of frames, and the bytes behind them.
abbrev Cut : List RpcFrame → List ℕ → List ℕ → Type 0
Cut fs xs ys =
    (gs : List RpcFrame) × (hs : List RpcFrame) × (left : List ℕ) × (fs ≡ gs ++ hs)
    × (xs ≡ encode_all gs ++ left)
    × (left ++ ys ≡ encode_all hs)
    × (decode left ≡ partial)
    × All Fits gs
    × All Fits hs

split_stream :
    (fs : List RpcFrame) (xs ys : List ℕ) → All Fits fs → xs ++ ys ≡ encode_all fs → Cut fs xs ys
unfolding encode_all
split_stream [] [] ys h same = ([], [], [], refl, refl, same, decode-nil, tt, tt)
split_stream [] (x ∷ xs) ys h same = absurd (cc (same))
split_stream (f ∷ fs) xs ys (fits, rest) same =
    elim (Bool-cases (ltb (length xs) (length (encoded f)))) [
      | inl short ↦
          let cut = encoded-cut f xs ys (encode_all fs) fits same (ltb→lt _ _ short) in
          ([], f ∷ fs, xs, refl, refl, same, cut, tt, (fits, rest))
      | inr long ↦
          let (more, first, second) =
            cut_longer (encoded f) (encode_all fs) xs ys same (ground arith) in
          let (gs, hs, left, whole, before, behind, cut, gs_fit, hs_fit) =
            split_stream fs more ys rest second in
          (
            f ∷ gs,
            hs,
            left,
            ap (◌∷◌ f) whole,
            first
                ∙ ap (λ b. encoded f ++ b) before
                ∙ sym (append_assoc (encoded f) (encode_all gs) left),
            behind,
            cut,
            (fits, gs_fit),
            hs_fit,
          )
    ]

pub length-encode_all : (fs : List RpcFrame) → All Fits fs → length fs ≤ length (encode_all fs)
unfolding encode_all
length-encode_all [] h = omega arith
length-encode_all (f ∷ fs) (fits, rest) = omega (
  arith,
  length-append (encoded f) (encode_all fs),
  length-encoded f fits,
  length-encode_all fs rest,
)

-- Bytes that hold no whole frame are no frames.
no_frames :
    (fs : List RpcFrame) (buf : List ℕ)
    → All Fits fs
    → decode buf ≡ partial
    → buf ≡ encode_all fs
    → (fs ≡ []) × (buf ≡ [])
unfolding encode_all
no_frames [] buf fits cut same = (refl, same)
no_frames (f ∷ fs) buf fits cut same =
    absurd (cc (ap decode same, encoded-decodes f (encode_all fs) fits.0))

module _ {ℓ} {S : Type ℓ} (turn : RpcFrame → S → Turn S) where
  -- One frame and the others.
  pub take_turns-cons :
      (f : RpcFrame) (fs : List RpcFrame) (s s'' : S)
      → take_turns turn (f ∷ fs) s ≡ some s''
      → (s' : S) × (turn f s ≡ goes_on s') × (take_turns turn fs s' ≡ some s'')
  unfolding take_turns
  take_turns-cons f fs s s'' h = split (turn f s) refl h
    where
      split :
          (t : Turn S)
          → turn f s ≡ t
          → (gone_on t >>= take_turns turn fs) ≡ some s''
          → (s' : S) × (turn f s ≡ goes_on s') × (take_turns turn fs s' ≡ some s'')
      split (goes_on s') e h = (s', e, h)
      split (breaks s') e h = absurd (cc (h))
      split throws e h = absurd (cc (h))

  take_turns-nil : (s : S) → take_turns turn [] s ≡ some s
  unfolding take_turns
  take_turns-nil s = refl

  take_turns-append :
      (gs hs : List RpcFrame) (s s'' : S)
      → take_turns turn (gs ++ hs) s ≡ some s''
      → (s' : S) × (take_turns turn gs s ≡ some s') × (take_turns turn hs s' ≡ some s'')
  unfolding take_turns
  take_turns-append [] hs s s'' h = (s, refl, h)
  take_turns-append (g ∷ gs) hs s s'' h =
      let (t, went, rest) = take_turns-cons g (gs ++ hs) s s'' h in
      let (s', before, behind) = take_turns-append gs hs t s'' rest in (s', rw went before, behind)

  drain-decoded :
      (rounds : ℕ) (bytes rest : List ℕ) (f : RpcFrame) (s s' : S)
      → decode (bytes ++ rest) ≡ decoded f (length bytes)
      → turn f s ≡ goes_on s'
      → drain turn (suc rounds) (bytes ++ rest) s ≡ drain turn rounds rest s'
  unfolding drain
  drain-decoded rounds bytes rest f s s' read went =
      rw (read, went, drain) (ap (λ b. drain turn rounds b s') (drop-length bytes rest))

  -- The loop takes the whole frames, and leaves the bytes behind them.
  drain-encode_all :
      (rounds : ℕ) (gs : List RpcFrame) (left : List ℕ) (s s' : S)
      → length gs < rounds
      → All Fits gs
      → decode left ≡ partial
      → take_turns turn gs s ≡ some s'
      → drain turn rounds (encode_all gs ++ left) s ≡ drained left s'
  unfolding drain encode_all take_turns
  drain-encode_all zero gs left s s' h fits cut went = absurd (omega arith)
  drain-encode_all (suc rounds) [] left s s' h fits cut went = rw (cut, drain) (cc (went))
  drain-encode_all (suc rounds) (g ∷ gs) left s s' h (fits, rest) cut went =
      let (t, first, others) = take_turns-cons g gs s s' went in
      let assoc = append_assoc (encoded g) (encode_all gs) left in
      let read = encoded-decodes g (encode_all gs ++ left) fits in
      let taken : drain turn (suc rounds) (encoded g ++ (encode_all gs ++ left)) s
          ≡ drain turn rounds (encode_all gs ++ left) t =
        drain-decoded rounds (encoded g) (encode_all gs ++ left) g s t read first in
      ap (λ b. drain turn (suc rounds) b s) assoc
      ∙ taken
      ∙ drain-encode_all rounds gs left t s' (omega arith) rest cut others

  receive-drain :
      (bytes buf : List ℕ) (s : S) {d : Drained S}
      → drain turn (suc (length (buf ++ bytes))) (buf ++ bytes) s ≡ d
      → receive turn bytes buf s ≡ d
  unfolding receive
  receive-drain bytes buf s h = h

  -- Frames that fit come over a connection in any pieces: the loops over the pieces and over the
  -- buffer do with them what is done with one frame after the other, and leave nothing in the buffer.
  pub receive_all-join :
      (chunks : List (List ℕ)) (fs : List RpcFrame) (buf : List ℕ) (s s' : S)
      → All Fits fs
      → decode buf ≡ partial
      → buf ++ join chunks ≡ encode_all fs
      → take_turns turn fs s ≡ some s'
      → receive_all turn chunks buf s ≡ drained [] s'
  unfolding receive_all join
  receive_all-join [] fs buf s s' fits cut same went =
      let (none_left, empty) = no_frames fs buf fits cut (sym (append_nil buf) ∙ same) in
      let went_nowhere : take_turns turn [] s ≡ some s' = rw (← none_left) went in
      cc (empty, went_nowhere, take_turns-nil s)
  receive_all-join (bytes ∷ chunks) fs buf s s' fits cut same went =
      let joined = append_assoc buf bytes (join chunks) ∙ same in
      let (gs, hs, left, whole, before, behind, part, gs_fit, hs_fit) =
        split_stream fs (buf ++ bytes) (join chunks) fits joined in
      let (t, first, rest) =
        take_turns-append gs hs s s' (ap (λ l. take_turns turn l s) (sym whole) ∙ went) in
      let enough = length-encode_all gs gs_fit in
      let drained_gs =
        drain-encode_all (suc (length (buf ++ bytes))) gs left s t
          (omega (arith, ap length before, length-append (encode_all gs) left)) gs_fit part first in
      let received : receive turn bytes buf s ≡ drained left t =
        receive-drain bytes buf s
          (ap (λ b. drain turn (suc (length (buf ++ bytes))) b s) before ∙ drained_gs) in
      rw (received, receive_all) (receive_all-join chunks hs left t s' hs_fit part behind rest)
