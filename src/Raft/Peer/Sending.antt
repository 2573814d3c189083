-- ===== src/Raft/Peer/Sending.antt =====
-- raft/RaftPeer.cpp: SendRaw sends all bytes, or the first ones.
use distributed_key_value_st.Base.{
  ℕ, zero, suc, ◌≤◌, ◌≡◌, refl, ap, ◌∙◌, Bool, true, false, List, [], ◌∷◌, ◌++◌, arith, ◌==◌, min,
  take, drop, length, length-drop, take-append-drop, append_assoc, ◌⊎◌, inl, inr, Bool-cases,
}
use distributed_key_value_st.Raft.Peer.{send_from}

-- All bytes are sent, or a send takes none and the bytes sent are the first ones.
abbrev pub SendsAll : (ℕ → ℕ) → List ℕ → List ℕ × Bool → Type 0
SendsAll takes bytes r =
    (r ≡ (bytes, true))
    ⊎ ((left : List ℕ) × (i : ℕ) × (takes i ≡ 0) × (r.0 ++ left ≡ bytes) × (r.1 ≡ false))

SendsAll-prepend :
    (takes : ℕ → ℕ) (n : ℕ) (bytes : List ℕ) (r : List ℕ × Bool)
    → SendsAll takes (drop n bytes) r
    → SendsAll takes bytes (take n bytes ++ r.0, r.1)
SendsAll-prepend takes n bytes r (inl all) =
    inl (ap (λ s. (take n bytes ++ s.0, s.1)) all ∙ ap (λ b. (b, true)) (take-append-drop n bytes))
SendsAll-prepend takes n bytes r (inr (left, i, nothing, first, stopped)) = inr (
  left,
  i,
  nothing,
  append_assoc (take n bytes) r.0 left
      ∙ ap (λ b. take n bytes ++ b) first
      ∙ take-append-drop n bytes,
  stopped,
)

-- Every send that takes a byte brings the loop on, so as many rounds as bytes are enough.
pub send_from-SendsAll :
    (rounds : ℕ) (takes : ℕ → ℕ) (i : ℕ) (bytes : List ℕ)
    → length bytes ≤ rounds
    → SendsAll takes bytes (send_from rounds takes i bytes)
unfolding send_from
send_from-SendsAll rounds takes i [] h = inl refl
send_from-SendsAll zero takes i (b ∷ bytes) h = absurd (omega arith)
send_from-SendsAll (suc rounds) takes i (b ∷ bytes) h =
    let n = min (takes i) (length (b ∷ bytes)) in
    elim (Bool-cases (n == 0))
      as (λ _. SendsAll takes (b ∷ bytes) (send_from (suc rounds) takes i (b ∷ bytes))) [
        | inl nothing ↦
            let none_taken : takes i ≡ 0 = ground arith in
            rw (nothing, send_from) (inr (b ∷ bytes, i, none_taken, refl, refl))
        | inr taken ↦
            let rest = send_from rounds takes (suc i) (drop n (b ∷ bytes)) in
            let fewer : length (drop n (b ∷ bytes)) ≤ rounds =
              ground (arith, length-drop n (b ∷ bytes)) in
            rw (taken, send_from)
              (SendsAll-prepend takes n (b ∷ bytes) rest
                (send_from-SendsAll rounds takes (suc i) (drop n (b ∷ bytes)) fewer))
      ]
