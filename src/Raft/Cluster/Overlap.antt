-- ===== src/Raft/Cluster/Overlap.antt =====
-- raft/RaftNode.hpp: two quorums of members have a member in common.
use distributed_key_value_st.Base.{
  suc, ◌+◌, ◌≤◌, ◌<◌, ◌≡◌, ◌↔◌, inl, inr, refl, sym, ◌∙◌, Bool, true, false, ◌||◌, ◌&&◌, List, [],
  ◌∷◌, arith, Text, text_eq, text_eq_iff, length, count_if, Bool-cases,
}
use distributed_key_value_st.Raft.Node.State.{RaftConfig, quorum_size}
use distributed_key_value_st.Raft.Node.Voting.{quorum_size-intersect}
use distributed_key_value_st.Raft.Cluster.{In}
use distributed_key_value_st.Raft.Cluster.Invariant.{Distinct}

-- The test for In.
unfoldable is_in : List Text → Text → Bool
unfolding text_eq
is_in [] y = false
is_in (x ∷ xs) y = text_eq x y || is_in xs y

is_in_iff : (xs : List Text) (y : Text) → (is_in xs y ≡ true) ↔ In y xs
unfolding is_in
is_in_iff [] y = ground arith
is_in_iff (x ∷ xs) y = ground (arith, text_eq_iff x y, is_in_iff xs y)

count_if-more : (x : Text) (s ms : List Text) → count_if (is_in s) ms ≤ count_if (is_in (x ∷ s)) ms
unfolding is_in
count_if-more x s [] = omega arith
count_if-more x s (y ∷ ms) = ground (arith, count_if-more x s ms)

count_if-new :
    (x : Text) (s ms : List Text)
    → In x ms
    → ¬ In x s
    → suc (count_if (is_in s) ms) ≤ count_if (is_in (x ∷ s)) ms
unfolding is_in
count_if-new x s [] there new = absurd there
count_if-new x s (y ∷ ms) there new = elim (Bool-cases (text_eq x y)) [
  | inl same ↦
      let e : x ≡ y = (text_eq_iff x y).0 same in
      let outside : is_in s y ≡ false = elim (Bool-cases (is_in s y)) [
        | inl inside ↦ absurd (new (rw e ((is_in_iff s y).0 inside)))
        | inr not_there ↦ not_there
      ] in
      let more = count_if-more x s ms in ground (arith, same, outside, more)
  | inr other ↦
      let behind : In x ms = elim there [
        | inl here ↦
            let same : text_eq x y ≡ true = (text_eq_iff x y).1 (sym here) in
            let bad : true ≡ false = sym same ∙ other in cc
        | inr later ↦ later
      ] in
      let more = count_if-new x s ms behind new in ground (arith, other, more)
]

length-count_if :
    (s members : List Text)
    → Distinct s
    → ((p : Text) → In p s → In p members)
    → length s ≤ count_if (is_in s) members
length-count_if [] members d h = omega arith
length-count_if (x ∷ s) members (new, d) h =
    let more = count_if-new x s members (h x (inl refl)) new in
    let rest = length-count_if s members d (λ p there. h p (inr there)) in omega (arith, more, rest)

find_one : (p : Text → Bool) (ms : List Text) → 0 < count_if p ms → (m : Text) × (p m ≡ true)
find_one p [] h = absurd (omega arith)
find_one p (m ∷ ms) h = elim (Bool-cases (p m)) [
  | inl yes_here ↦ (m, yes_here)
  | inr no_here ↦ find_one p ms (rw no_here at h)
]

both : (a b : Bool) → (a && b) ≡ true → (a ≡ true) × (b ≡ true)
both true b h = (refl, h)
both false b h = cc

pub quorums_meet :
    (config : RaftConfig) (members s s' : List Text)
    → length members ≡ length config.peers + 1
    → Distinct s
    → Distinct s'
    → ((p : Text) → In p s → In p members)
    → ((p : Text) → In p s' → In p members)
    → quorum_size config ≤ length s
    → quorum_size config ≤ length s'
    → (p : Text) × In p s × In p s'
quorums_meet config members s s' size d d' h h' q q' =
    let n = length-count_if s members d h in
    let n' = length-count_if s' members d' h' in
    let some_one =
      quorum_size-intersect config members (is_in s) (is_in s') size (omega (arith, n))
        (omega (arith, n')) in
    let (p, in_both) = find_one (λ m. is_in s m && is_in s' m) members some_one in
    let (l, r) = both (is_in s p) (is_in s' p) in_both in
    (p, (is_in_iff s p).0 l, (is_in_iff s' p).0 r)
