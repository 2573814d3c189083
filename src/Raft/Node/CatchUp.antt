-- ===== src/Raft/Node/CatchUp.antt =====
-- raft/RaftNode.cpp: ReplicateToPeer and HandleAppendEntries in turn, until the follower accepts.
use distributed_key_value_st.Base.{
  ℕ, zero, suc, ◌+◌, ◌≤◌, ◌<◌, ◌^◌, ◌≡◌, ◌≢◌, inl, inr, refl, sym, ap, ◌∙◌, Bool, true, false, none,
  some, arith, ltb, ltb→lt, ◌==◌, Text, text_eq_refl, lookup-assign, assign, add64, sub64,
  Bool-cases,
}
use distributed_key_value_st.Raft.Rpc.{AppendEntriesRequest, AppendEntriesResponse}
use distributed_key_value_st.Raft.Log.{RaftLog, last_index, get_term}
use distributed_key_value_st.Raft.Node.State.{RaftNode}
use distributed_key_value_st.Raft.Node.Handlers.{
  handle_append_entries, append_to_log, check_prev, hear_from,
}
use distributed_key_value_st.Raft.Node.Replication.{
  is_leader, next_for, batch, replicate_request, last_in_term, back_up, on_append_response,
}
use distributed_key_value_st.Raft.Node.Follower.{append_entries_same, append_entries_role}
use distributed_key_value_st.Raft.Node.Refusing.{
  Refusal, stale, too_short, conflict, append_to_log-Refusal,
}

-- One round of ReplicateToPeer whose request and answer arrive: the leader and the follower behind it.
unfoldable pub exchange : ℕ → Text → RaftNode → RaftNode → RaftNode × RaftNode
unfolding replicate_request handle_append_entries on_append_response
exchange now peer n m = elim (replicate_request peer n) [
  | none ↦ (n, m)
  | some req ↦
      let (resp, m') = handle_append_entries now req m in
      (on_append_response now peer req resp n, m')
]

unfoldable pub exchanges : ℕ → ℕ → Text → RaftNode → RaftNode → RaftNode × RaftNode
unfolding exchange
exchanges zero now peer n m = (n, m)
exchanges (suc k) now peer n m = let (n', m') = exchange now peer n m in exchanges k now peer n' m'

-- Whether the follower accepts the leader's next request.
unfoldable pub accepts : ℕ → Text → RaftNode → RaftNode → Bool
unfolding replicate_request handle_append_entries
accepts now peer n m = elim (replicate_request peer n) [
  | none ↦ false
  | some req ↦ (handle_append_entries now req m).0.success
]

-- A leader and a follower in one term. The entries of a term come from the log of one leader: where
-- the follower has an entry of a term that the leader has at the same index or later, the leader has
-- that term there, too. Indices begin at 1 and fit 64 bits.
pub record InTouch (peer : Text) (n m : RaftNode) : Type 0 where
  pub leads : is_leader n.role ≡ true
  pub same_term : n.current_term ≡ m.current_term
  pub one_log :
      (i j : ℕ)
      → i ≤ j
      → j < 2 ^ 64
      → 0 < get_term m.log i
      → get_term m.log i ≡ get_term n.log j
      → get_term n.log i ≡ get_term m.log i
  pub no_entry_at_zero : get_term m.log 0 ≡ 0
  pub positive : 0 < next_for peer n
  pub fits : next_for peer n < 2 ^ 64
  pub last_fits : last_index n.log + 1 < 2 ^ 64

last_in_term_lem :
    (l : RaftLog) (t i : ℕ)
    → 0 < last_in_term l t i
    → (last_in_term l t i ≤ i) × (get_term l (last_in_term l t i) ≡ t)
unfolding last_in_term
last_in_term_lem l t zero h = absurd (omega arith)
last_in_term_lem l t (suc i) h = elim (Bool-cases (ltb l.snapshot_index (suc i))) [
  | inr below ↦ absurd (ground arith)
  | inl above ↦ elim (Bool-cases (get_term l (suc i) == t)) [
    | inl found ↦ rw (above, found, last_in_term) (omega arith, ground arith)
    | inr other ↦
        let deeper : 0 < last_in_term l t i = rw (above, other, last_in_term) at h in
        let (le, at) = last_in_term_lem l t i deeper in
        rw (above, other, last_in_term) (omega arith, at)
  ]
]

-- The last entry that the leader has of the follower's term lies below the one compared.
conflict_lower :
    (peer : Text) (n m : RaftNode) (req : AppendEntriesRequest) (resp : AppendEntriesResponse)
    → InTouch peer n m
    → req.prev_log_term ≡ get_term n.log req.prev_log_index
    → resp.conflict_term ≡ get_term m.log req.prev_log_index
    → resp.conflict_term ≢ req.prev_log_term
    → 0 < resp.conflict_term
    → (found : ℕ) → found < 2 ^ 64
    → get_term n.log found ≡ resp.conflict_term
    → found < req.prev_log_index
conflict_lower peer n m req resp i prev_term t differs has_term found word at =
    elim (Bool-cases (ltb found req.prev_log_index)) [
      | inl lower ↦ ltb→lt found req.prev_log_index lower
      | inr higher ↦
          let same : get_term n.log req.prev_log_index ≡ get_term m.log req.prev_log_index =
            i.one_log req.prev_log_index found (ground arith) word (omega (arith, t))
              (sym t ∙ sym at) in
          absurd (differs (t ∙ sym same ∙ sym prev_term))
    ]

conflict_index_positive :
    (m : RaftNode) (req : AppendEntriesRequest) (resp : AppendEntriesResponse)
    → get_term m.log 0 ≡ 0
    → 0 < resp.conflict_term
    → ((i : ℕ)
        → resp.conflict_index ≤ i
        → i ≤ req.prev_log_index
        → get_term m.log i ≡ resp.conflict_term)
    → 0 < resp.conflict_index
conflict_index_positive m req resp zero_at has_term all =
    elim (Bool-cases (ltb 0 resp.conflict_index)) [
      | inl positive ↦ ltb→lt 0 resp.conflict_index positive
      | inr at_zero ↦
          let first = all 0 (ground arith) (omega arith) in absurd (omega (arith, first, zero_at))
    ]

-- The new nextIndex_ lies below the old one.
back_up_lem :
    (peer : Text) (n m : RaftNode) (req : AppendEntriesRequest) (resp : AppendEntriesResponse)
    → InTouch peer n m
    → req.term ≡ m.current_term
    → req.prev_log_index + 1 ≡ next_for peer n
    → req.prev_log_term ≡ get_term n.log req.prev_log_index
    → 0 < req.prev_log_index
    → Refusal req m resp
    → (0 < back_up resp n.log) × (back_up resp n.log < next_for peer n)
unfolding back_up
back_up_lem peer n m req resp i term prev prev_term later (stale h) = absurd (omega arith)
back_up_lem peer n m req resp i term prev prev_term later (too_short short index no_term) =
    let fits = i.fits in
    let next : resp.conflict_index ≡ last_index m.log + 1 = omega (arith, index) in
    ground (arith, next, no_term)
back_up_lem peer n m req resp i term prev prev_term later (conflict t differs le all) =
    elim (Bool-cases (ltb 0 resp.conflict_term)) [
      | inr no_term ↦ rw (no_term, back_up) (ground arith)
      | inl has_term ↦
          let found = last_in_term n.log resp.conflict_term (last_index n.log) in
          elim (Bool-cases (ltb 0 found)) [
            | inl some_found ↦
                let (below, at) =
                  last_in_term_lem n.log resp.conflict_term (last_index n.log)
                    (ltb→lt 0 found some_found) in
                let last = i.last_fits in
                let lower : found < req.prev_log_index =
                  conflict_lower peer n m req resp i prev_term t differs (ltb→lt 0 _ has_term) found
                    (omega arith) at in
                let no_wrap : add64 found 1 ≡ found + 1 = omega arith in
                rw (has_term, some_found, back_up) (rw no_wrap (omega arith, omega arith))
            | inr none_found ↦
                let positive : 0 < resp.conflict_index =
                  conflict_index_positive m req resp i.no_entry_at_zero (ltb→lt 0 _ has_term) all in
                rw (has_term, none_found, back_up) (positive, omega arith)
          ]
    ]

abbrev request_of : Text → RaftNode → AppendEntriesRequest
request_of peer n = record {
  term = n.current_term;
  leader_id = n.config.node_id;
  prev_log_index = sub64 (next_for peer n) 1;
  prev_log_term = get_term n.log (sub64 (next_for peer n) 1);
  entries = batch n.log (next_for peer n);
  leader_commit = n.commit_index;
}

replicate_request-leads :
    (peer : Text) (n : RaftNode)
    → is_leader n.role ≡ true
    → replicate_request peer n ≡ some (request_of peer n)
unfolding replicate_request
replicate_request-leads peer n h = ground arith

Refusal-hear_from :
    (now : ℕ) (id : Text) (m : RaftNode) (req : AppendEntriesRequest) (resp : AppendEntriesResponse)
    → Refusal req (hear_from now id m) resp
    → Refusal req m resp
unfolding hear_from
Refusal-hear_from now id m req resp (stale h) = stale h
Refusal-hear_from now id m req resp (too_short h i t) = too_short h i t
Refusal-hear_from now id m req resp (conflict t d i all) = conflict t d i all

append_to_log-later :
    (term : ℕ) (req : AppendEntriesRequest) (m : RaftNode)
    → (append_to_log term req m).0.success ≡ false
    → 0 < req.prev_log_index
unfolding append_to_log
append_to_log-later term req m h = elim (Bool-cases (ltb 0 req.prev_log_index)) [
  | inl later ↦ ltb→lt 0 req.prev_log_index later
  | inr first ↦
      let accepted : ◌≡◌ {A = Bool} true false = rw (first, append_to_log, check_prev) at h in cc
]

on_append_response-refused :
    (now : ℕ) (peer : Text) (req : AppendEntriesRequest) (resp : AppendEntriesResponse)
    (n : RaftNode)
    → resp.term ≡ n.current_term
    → is_leader n.role ≡ true
    → resp.success ≡ false
    → on_append_response now peer req resp n
      ≡ record n { next_index = assign peer (back_up resp n.log) n.next_index }
unfolding on_append_response
on_append_response-refused now peer req resp n same leads refused = ground arith

-- A refused round moves nextIndex_ down, and changes nothing else that counts.
exchange-refused :
    (now : ℕ) (peer : Text) (n m : RaftNode)
    → InTouch peer n m
    → accepts now peer n m ≡ false
    → (next : ℕ) × (0 < next)
      × (next < next_for peer n)
      × (exchange now peer n m ≡ (
        record n { next_index = assign peer next n.next_index },
        hear_from now n.config.node_id m,
      ))
unfolding exchange accepts
exchange-refused now peer n m i h =
    let req = request_of peer n in
    let sent = replicate_request-leads peer n i.leads in
    let refused : (handle_append_entries now req m).0.success ≡ false = rw (sent, accepts) at h in
    let same = append_entries_same now req m i.same_term in
    let x = hear_from now req.leader_id m in
    let resp = (append_to_log m.current_term req x).0 in
    let refused' : resp.success ≡ false = rw same at refused in
    let (kept, why) = append_to_log-Refusal m.current_term req x refused' in
    let reason = Refusal-hear_from now req.leader_id m req resp why in
    let term : resp.term ≡ m.current_term =
      ap (λ r. r.0.term) (sym same) ∙ (append_entries_role now req m).1 in
    let positive = i.positive in
    let fits = i.fits in
    let prev : req.prev_log_index + 1 ≡ next_for peer n = omega arith in
    let (above, below) =
      back_up_lem peer n m req resp i i.same_term prev refl
        (append_to_log-later m.current_term req x refused') reason in
    let leader =
      on_append_response-refused now peer req resp n (term ∙ sym i.same_term) i.leads refused' in
    (
      back_up resp n.log,
      above,
      below,
      rw (sent, exchange)
          (rw (same, leader)
            (ap (λ y. (record n { next_index = assign peer (back_up resp n.log) n.next_index }, y))
              kept)),
    )

next_for-assign :
    (peer : Text) (next : ℕ) (n : RaftNode)
    → next_for peer (record n { next_index = assign peer next n.next_index }) ≡ next
unfolding next_for
next_for-assign peer next n =
    ground (arith, lookup-assign peer peer next n.next_index, text_eq_refl peer)

InTouch-refused :
    (now next : ℕ) (peer id : Text) (n m : RaftNode)
    → InTouch peer n m
    → 0 < next
    → next < next_for peer n
    → InTouch peer (record n { next_index = assign peer next n.next_index }) (hear_from now id m)
unfolding hear_from
InTouch-refused now next peer id n m i above below =
    let fits = i.fits in
    record {
      leads = i.leads;
      same_term = i.same_term;
      one_log = i.one_log;
      no_entry_at_zero = i.no_entry_at_zero;
      positive = omega (arith, next_for-assign peer next n);
      fits = omega (arith, next_for-assign peer next n);
      last_fits = i.last_fits;
    }

-- What is to be shown of a leader and a follower, with so many rounds at most.
abbrev Catches : ℕ → ℕ → Text → RaftNode → RaftNode → Type 0
Catches bound now peer n m =
    (k : ℕ) × (k < bound)
    × (accepts now peer (exchanges k now peer n m).0 (exchanges k now peer n m).1 ≡ true)
    × ((exchanges k now peer n m).0.log ≡ n.log)
    × ((exchanges k now peer n m).1.log ≡ m.log)

Catches-exchange :
    (bound now : ℕ) (peer : Text) (n m n' m' : RaftNode)
    → exchange now peer n m ≡ (n', m')
    → n'.log ≡ n.log
    → m'.log ≡ m.log
    → Catches bound now peer n' m'
    → Catches (suc bound) now peer n m
unfolding exchanges
Catches-exchange bound now peer n m n' m' e same same' (k, less, accepted, log, log') =
    let after : exchanges (suc k) now peer n m ≡ exchanges k now peer n' m' =
      ap (λ p. exchanges k now peer p.0 p.1) e in
    (
      suc k,
      omega arith,
      ap (λ p. accepts now peer p.0 p.1) after ∙ accepted,
      ap (λ p. p.0.log) after ∙ log ∙ same,
      ap (λ p. p.1.log) after ∙ log' ∙ same',
    )

Catches-within :
    (bound now : ℕ) (peer : Text) (n m : RaftNode)
    → InTouch peer n m
    → next_for peer n ≤ bound
    → Catches bound now peer n m
unfolding exchanges hear_from
Catches-within zero now peer n m i h = let positive = i.positive in absurd (omega arith)
Catches-within (suc bound) now peer n m i h = elim (Bool-cases (accepts now peer n m)) [
  | inl at_once ↦ (0, omega arith, at_once, refl, refl)
  | inr refused ↦
      let (next, above, below, e) = exchange-refused now peer n m i refused in
      let n' : RaftNode = record n { next_index = assign peer next n.next_index } in
      let m' = hear_from now n.config.node_id m in
      let i' = InTouch-refused now next peer n.config.node_id n m i above below in
      Catches-exchange bound now peer n m n' m' e refl refl
        (Catches-within bound now peer n' m' i' (omega (arith, next_for-assign peer next n)))
]

-- A leader and a follower in one term, whose entries of each term come from one leader's log. Each round
-- of ReplicateToPeer that the follower refuses lowers nextIndex_, so after fewer rounds than nextIndex_
-- was at the start the follower accepts the next request; until then neither log changes.
pub catches_up :
    (now : ℕ) (peer : Text) (n m : RaftNode)
    → InTouch peer n m
    → (k : ℕ) × (k < next_for peer n)
      × (accepts now peer (exchanges k now peer n m).0 (exchanges k now peer n m).1 ≡ true)
      × ((exchanges k now peer n m).0.log ≡ n.log)
      × ((exchanges k now peer n m).1.log ≡ m.log)
catches_up now peer n m i = Catches-within (next_for peer n) now peer n m i (omega arith)
