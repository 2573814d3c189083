-- ===== src/Raft/Cluster/Invariant.antt =====
-- raft/RaftNode.cpp: what holds of a cluster between its steps, and how a change of one part keeps it.
use distributed_key_value_st.Base.{
  ℕ, ◌≤◌, ◌≡◌, ◌≢◌, inl, inr, refl, sym, ◌∙◌, ap, List, [], ◌∷◌, arith, Text, text_eq, text_eq_iff,
  length, Bool-cases,
}
use distributed_key_value_st.Raft.Rpc.{leader}
use distributed_key_value_st.Raft.Node.State.{RaftConfig, RaftNode, quorum_size}
use distributed_key_value_st.Raft.Node.Terms.{Advances}
use distributed_key_value_st.Raft.Node.Durability.{IsDurable}
use distributed_key_value_st.Raft.Cluster.{Ballot, Election, Cluster, In, update}

-- A node whose past includes the ballot.
abbrev pub Honors : Ballot → RaftNode → Type 0
Honors b n =
    (b.choice ≢ []) × (b.term ≤ n.current_term) × (n.current_term ≡ b.term → n.voted_for ≡ b.choice)

pub Honors-Advances : (b : Ballot) (n m : RaftNode) → Honors b n → Advances n m → Honors b m
Honors-Advances b n m (named, before, voted) a = (
  named,
  omega (arith, a.rises),
  λ same.
      let same' : n.current_term ≡ b.term = omega (arith, a.rises) in
      let vote = voted same' in a.keeps_vote (same ∙ sym same') (rw vote named) ∙ vote,
)

abbrev pub Distinct : List Text → Type 0
Distinct [] = Unit
Distinct (x ∷ xs) = ¬ In x xs × Distinct xs

-- The texts are members that have given the candidate their votes in the term.
abbrev pub Supported : List Text → List Ballot → ℕ → Text → List Text → Type 0
Supported members ballots term k s =
    Distinct s
    × ((p : Text)
        → In p s
        → In p members × In (record { voter = p; term = term; choice = k }) ballots)

-- A quorum of the members has.
abbrev pub HasQuorum : List Text → List Ballot → RaftConfig → ℕ → Text → Type 0
HasQuorum members ballots config term k =
    (s : List Text) × Supported members ballots term k s × (quorum_size config ≤ length s)

pub record Safe (members : List Text) (config_of : Text → RaftConfig) (c : Cluster) : Type 0 where
  pub configured : (m : Text) → (c.nodes m).config ≡ config_of m
  pub durable : (m : Text) → IsDurable (c.nodes m)
  pub honored : (b : Ballot) → In b c.ballots → Honors b (c.nodes b.voter)
  pub one_vote :
      (b b' : Ballot)
      → In b c.ballots
      → In b' c.ballots
      → b.voter ≡ b'.voter
      → b.term ≡ b'.term
      → b.choice ≡ b'.choice
  pub counted :
      (m : Text)
      → Supported members c.ballots (c.elections m).term m (c.elections m).counted
        × ((c.elections m).votes ≤ length (c.elections m).counted)
  pub elected :
      (term : ℕ) (k : Text)
      → In (term, k) c.leaders
      → HasQuorum members c.ballots (config_of k) term k
  pub leading : (m : Text) → (c.nodes m).role ≡ leader → In ((c.nodes m).current_term, m) c.leaders

update_all :
    {A : Type 0} (P : Text → A → Type 0) (m : Text) (a : A) (f : Text → A)
    → P m a
    → ((i : Text) → P i (f i))
    → (i : Text) → P i (update m a f i)
update_all P m a f h k i = elim (Bool-cases (text_eq m i)) [
  | inl same ↦ let e : m ≡ i = (text_eq_iff m i).0 same in rw (same, update) (rw e at h)
  | inr other ↦ rw (other, update) (k i)
]

module _ (members : List Text) (config_of : Text → RaftConfig) where
  -- A node goes on.
  pub node_step :
      (c : Cluster) (m : Text) (n : RaftNode)
      → Safe members config_of c
      → n.config ≡ config_of m
      → IsDurable n
      → Advances (c.nodes m) n
      → (n.role ≡ leader → In (n.current_term, m) c.leaders)
      → Safe members config_of (record c { nodes = update m n c.nodes })
  node_step c m n s config_kept d a led = record {
    configured = update_all (λ i k. k.config ≡ config_of i) m n c.nodes config_kept s.configured;
    durable = update_all (λ i k. IsDurable k) m n c.nodes d s.durable;
    honored = λ b there.
        update_all (λ i k. (e : b.voter ≡ i) → Honors b k) m n c.nodes
          (λ e. Honors-Advances b (c.nodes m) n (rw e at (s.honored b there)) a)
          (λ i e. rw e at (s.honored b there)) b.voter refl;
    one_vote = s.one_vote;
    counted = s.counted;
    elected = s.elected;
    leading =
        update_all (λ i k. k.role ≡ leader → In (k.current_term, i) c.leaders) m n c.nodes led
          s.leading;
  }

  Supported-more :
      (ballots : List Ballot) (b : Ballot) (term : ℕ) (k : Text) (s : List Text)
      → Supported members ballots term k s
      → Supported members (b ∷ ballots) term k s
  Supported-more ballots b term k s (d, h) =
      (d, λ p there. let (member, voted) = h p there in (member, inr voted))

  same_choice :
      (c : Cluster) (b : Ballot)
      → Safe members config_of c
      → (c.nodes b.voter).current_term ≡ b.term
      → (c.nodes b.voter).voted_for ≡ b.choice
      → (x : Ballot) → In x c.ballots
      → b.voter ≡ x.voter
      → b.term ≡ x.term
      → b.choice ≡ x.choice
  same_choice c b s now voted x there v t =
      let (_, _, vote) = s.honored x there in
      sym voted
      ∙ ap (λ i. (c.nodes i).voted_for) v
      ∙ vote (ap (λ i. (c.nodes i).current_term) (sym v) ∙ now ∙ t)

  -- A node gives a vote in its term.
  pub ballot_step :
      (c : Cluster) (b : Ballot)
      → Safe members config_of c
      → b.choice ≢ []
      → (c.nodes b.voter).current_term ≡ b.term
      → (c.nodes b.voter).voted_for ≡ b.choice
      → Safe members config_of (record c { ballots = b ∷ c.ballots })
  ballot_step c b s named now voted = record {
    configured = s.configured;
    durable = s.durable;
    honored = λ b' there. elim there [
      | inl same ↦ rw (← same) (named, omega arith, λ _. voted)
      | inr before ↦ s.honored b' before
    ];
    one_vote = λ x y there there' v t. elim there [
      | inl new ↦ elim there' [
        | inl new' ↦ ap (λ z. z.choice) (sym new ∙ new')
        | inr old' ↦
            ap (λ z. z.choice) (sym new)
            ∙ same_choice c b s now voted y old' (ap (λ z. z.voter) new ∙ v)
                (ap (λ z. z.term) new ∙ t)
      ]
      | inr old ↦ elim there' [
        | inl new' ↦
            sym (
              same_choice c b s now voted x old (ap (λ z. z.voter) new' ∙ sym v)
                (ap (λ z. z.term) new' ∙ sym t))
            ∙ ap (λ z. z.choice) new'
        | inr old' ↦ s.one_vote x y old old' v t
      ]
    ];
    counted = λ m.
        let (supported, enough) = s.counted m in
        (
          Supported-more c.ballots b (c.elections m).term m (c.elections m).counted supported,
          enough,
        );
    elected = λ term k there.
        let (q, supported, enough) = s.elected term k there in
        (q, Supported-more c.ballots b term k q supported, enough);
    leading = s.leading;
  }

  -- An election begins, or one more vote is counted, or it ends.
  pub election_step :
      (c : Cluster) (m : Text) (e : Election)
      → Safe members config_of c
      → Supported members c.ballots e.term m e.counted
      → e.votes ≤ length e.counted
      → Safe members config_of (record c { elections = update m e c.elections })
  election_step c m e s supported enough = record {
    configured = s.configured;
    durable = s.durable;
    honored = s.honored;
    one_vote = s.one_vote;
    counted =
        update_all
          (λ i f. Supported members c.ballots f.term i f.counted × (f.votes ≤ length f.counted)) m e
          c.elections (supported, enough) s.counted;
    elected = s.elected;
    leading = s.leading;
  }

  -- A candidate wins.
  pub leader_step :
      (c : Cluster) (term : ℕ) (k : Text)
      → Safe members config_of c
      → HasQuorum members c.ballots (config_of k) term k
      → Safe members config_of (record c { leaders = (term, k) ∷ c.leaders })
  leader_step c term k s quorum = record {
    configured = s.configured;
    durable = s.durable;
    honored = s.honored;
    one_vote = s.one_vote;
    counted = s.counted;
    elected = λ t i there. elim there [
      | inl new ↦
          let e : term ≡ t = ap (λ x. x.0) new in
          let e' : k ≡ i = ap (λ x. x.1) new in rw (← e, ← e') quorum
      | inr old ↦ s.elected t i old
    ];
    leading = λ m h. inr (s.leading m h);
  }
