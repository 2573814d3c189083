-- ===== src/Raft/Frame/Tests.antt =====
-- raft/RaftRPC.cpp: a frame with a short payload, and a header that announces too much.
use distributed_key_value_st.Base.{ℕ, ◌≡◌, refl, some, List, [], ◌∷◌, arith, codes}
use distributed_key_value_st.Raft.Frame.{
  RpcFrame, encode, decode, overrun, number_of, decode_overrun,
}

abbrev hello : RpcFrame
hello = record { type = 1; seq = 300; payload = codes "hi" }

abbrev hello_bytes : List ℕ
hello_bytes = 1 ∷ 44 ∷ 1 ∷ 0 ∷ 0 ∷ 2 ∷ 0 ∷ 0 ∷ 0 ∷ 104 ∷ 105 ∷ []

encoded : encode hello ≡ some hello_bytes
unfolding encode
encoded = refl

-- A length of 2^32 - 1.
abbrev too_long : List ℕ
too_long = 1 ∷ 0 ∷ 0 ∷ 0 ∷ 0 ∷ 255 ∷ 255 ∷ 255 ∷ 255 ∷ []

decode_overrun_example : decode too_long ≡ overrun
unfolding number_of
decode_overrun_example =
    decode_overrun too_long (omega arith) (omega arith) (omega arith) (omega arith)
