-- ===== src/Raft/Node/Commit.antt =====
-- raft/RaftNode.cpp: AdvanceCommitIndex.
use distributed_key_value_st.Base.{
  ℕ, zero, suc, ◌+◌, ◌*◌, refl, [], ◌∷◌, if◌then◌else◌, ltb, length, count_if, Assoc, ◌≤◌, ◌<◌, ◌≡◌,
  ◌⊎◌, inl, inr, none, some, arith, Option-cases, Bool-cases, leb,
}
use distributed_key_value_st.Raft.Log.{last_index, get_term}
use distributed_key_value_st.Raft.Node.State.{RaftNode, quorum_size}
use distributed_key_value_st.Raft.Node.Replication.{replicated, committable, advance_commit_index}

-- How many of the other nodes are known to have all entries up to `i`: matchIndex_ is not below it.
abbrev pub holders : ℕ → Assoc ℕ → ℕ
holders i [] = 0
holders i ((id, matched) ∷ others) = (if ltb matched i then 0 else 1) + holders i others

-- An entry of the current term that is not yet committed and that more than half of the cluster has,
-- the leader itself among them.
abbrev pub Ready : RaftNode → ℕ → Type 0
Ready n i =
    (n.commit_index < i)
    × (get_term n.log i ≡ n.current_term)
    × (length n.config.peers + 1 < 2 * (1 + holders i n.match_index))

-- What the loop asks for.
abbrev Counted : RaftNode → ℕ → Type 0
Counted n i =
    (n.commit_index < i)
    × (get_term n.log i ≡ n.current_term)
    × (quorum_size n.config ≤ replicated i n)

count_if-holders : (i : ℕ) (m : Assoc ℕ) → count_if (λ x. leb i x.1) m ≡ holders i m
count_if-holders i [] = refl
count_if-holders i ((id, matched) ∷ m) = ground (arith, count_if-holders i m)

Counted-Ready : (n : RaftNode) (i : ℕ) → (Counted n i → Ready n i) × (Ready n i → Counted n i)
unfolding quorum_size replicated
Counted-Ready n i =
    let same = count_if-holders i n.match_index in
    (
      λ h. (let (later, own, most) = h in (later, own, omega (arith, same, most))),
      λ h. (let (later, own, most) = h in (later, own, omega (arith, same, most))),
    )

le_cases : (i k : ℕ) → i ≤ suc k → (i ≤ k) ⊎ (i ≡ suc k)
le_cases i k h = ground arith

committable-none : (n : RaftNode) (k i : ℕ) → committable n k ≡ none → i ≤ k → ¬ Counted n i
unfolding committable
committable-none n zero i h le r = omega arith
committable-none n (suc k) i h le r = elim (le_cases i k le) [
  | inl low ↦ committable-none n k i (ground arith) low r
  | inr top ↦ let at_top : Counted n (suc k) = rw (← top) r in ground arith
]

committable-some :
    (n : RaftNode) (k c : ℕ)
    → committable n k ≡ some c
    → Counted n c × (c ≤ k) × ((i : ℕ) → c < i → i ≤ k → ¬ Counted n i)
unfolding committable
committable-some n zero c h = cc
committable-some n (suc k) c h = elim (Bool-cases (leb (suc k) c)) [
  | inl top ↦ ground (arith, committable-some n k c)
  | inr low ↦
      let (ready, within, last) = committable-some n k c (ground arith) in
      (
        ready,
        omega arith,
        λ i lt le r. elim (le_cases i k le) [
          | inl below ↦ last i lt below r
          | inr top ↦ let at_top : Counted n (suc k) = rw (← top) r in ground arith
        ],
      )
]

-- AdvanceCommitIndex either changes nothing, and then no entry of the log is ready, or it sets the
-- commit index to a later one whose entry is ready, the last such in the log.
pub advance_commit_index_lem :
    (n : RaftNode)
    → ((advance_commit_index n ≡ n) × ((i : ℕ) → i ≤ last_index n.log → ¬ Ready n i))
      ⊎ ((c : ℕ) × (advance_commit_index n ≡ record n { commit_index = c })
          × Ready n c
          × (c ≤ last_index n.log)
          × ((i : ℕ) → c < i → i ≤ last_index n.log → ¬ Ready n i))
unfolding advance_commit_index
advance_commit_index_lem n = elim (Option-cases (committable n (last_index n.log))) [
  | inl nothing ↦ inl (
    rw (nothing, advance_commit_index),
    λ i le r. committable-none n (last_index n.log) i nothing le ((Counted-Ready n i).1 r),
  )
  | inr (c, found) ↦
      let (ready, within, last) = committable-some n (last_index n.log) c found in
      inr (
        c,
        rw (found, advance_commit_index),
        (Counted-Ready n c).0 ready,
        within,
        λ i lt le r. last i lt le ((Counted-Ready n i).1 r),
      )
]
