-- ===== src/Raft/Node/Tests.antt =====
-- raft/RaftNode.cpp: a node of a cluster of three, and the node's laws at it.
use distributed_key_value_st.Base.{
  ℕ, ◌+◌, ◌≤◌, ◌<◌, ◌≡◌, ◌⊎◌, ◌↔◌, refl, inr, Bool, not, true, false, Option, none, some, List, [],
  ◌∷◌, arith, count_if, Text, codes, text_eq,
}
use distributed_key_value_st.Base.Json.{Json}
use distributed_key_value_st.Storage.KvStore
use distributed_key_value_st.Storage.Wal.{hard_state, log_entry}
use distributed_key_value_st.Raft.Rpc.{
  AppendEntriesRequest, RequestVoteRequest, RequestVoteResponse, follower, leader,
}
use distributed_key_value_st.Raft.Log.{WalRecord, last_index, last_term, get_entries, get_term}
use distributed_key_value_st.Raft.Log.Bounds.{IsWellFormed}
use distributed_key_value_st.Raft.Log.Tests.{entry, two_entries, two_entries-IsWellFormed}
use distributed_key_value_st.Raft.Node.State.{RaftConfig, RaftNode, quorum_size}
use distributed_key_value_st.Raft.Node.Handlers.{handle_append_entries, handle_request_vote}
use distributed_key_value_st.Raft.Node.Replication.{advance_commit_index, on_append_response}
use distributed_key_value_st.Raft.Node.Election.{start_election}
use distributed_key_value_st.Raft.Node.Apply.{apply_committed}
use distributed_key_value_st.Raft.Node.Actions.{act, act_all, campaign, request_vote}
use distributed_key_value_st.Raft.Node.Terms.{Advances, act-Advances}
use distributed_key_value_st.Raft.Node.Durability.{IsDurable, act_all-IsDurable, recovered}
use distributed_key_value_st.Raft.Node.Voting.{FreeToVote, UpToDate, vote_granted_iff}
use distributed_key_value_st.Raft.Node.Commit.{Ready, advance_commit_index_lem}
use distributed_key_value_st.Raft.Node.Follower.{first_answer_ignored}
use distributed_key_value_st.Raft.Node.Accepting.{
  Accepted, append_entries_success, heartbeat_commits_unchecked,
}
use distributed_key_value_st.Raft.Node.Refusing.{Refusal, append_entries_refused}
use distributed_key_value_st.Raft.Node.Applying.{apply_committed_lem, apply_each}
use distributed_key_value_st.Raft.Node.Restart.{start, start_lem}
use distributed_key_value_st.Raft.Log.{sentinel}
use distributed_key_value_st.Raft.Node.Replication.{is_leader, next_for}
use distributed_key_value_st.Raft.Node.CatchUp.{InTouch, accepts, exchanges, catches_up}
use distributed_key_value_st.Base.{zero, suc, ◌^◌, lookup}

abbrev pub config : RaftConfig
config = record {
  node_id = codes "a";
  peers = codes "b" ∷ codes "c" ∷ [];
  snapshot_threshold = 10000;
}

abbrev pub node : RaftNode
node = record {
  config = config;
  store = KvStore.empty;
  log = record two_entries { wal = some (hard_state (record { term = 1; voted_for = [] }) ∷ []) };
  current_term = 1;
  voted_for = [];
  commit_index = 1;
  last_applied = 0;
  role = follower;
  leader_id = [];
  next_index = [];
  match_index = (codes "b", 2) ∷ [];
  last_heartbeat = 0;
}

abbrev leading : RaftNode
leading = record node { role = leader }

node-IsWellFormed : IsWellFormed node.log
node-IsWellFormed = record {
  nonempty = two_entries-IsWellFormed.nonempty;
  contiguous = two_entries-IsWellFormed.contiguous;
  head_term = two_entries-IsWellFormed.head_term;
  fits = two_entries-IsWellFormed.fits;
}

last_index_node : last_index node.log ≡ 2
unfolding last_index
last_index_node = refl

-- The JSON library's `dump`, replaced by one text for all.
abbrev no_dump : Json → Text
no_dump j = []

abbrev vote_asked : RequestVoteRequest
vote_asked = record { term = 2; candidate_id = codes "b"; last_log_index = 2; last_log_term = 1 }

-- It replaces the second entry.
abbrev pub entries_sent : AppendEntriesRequest
entries_sent = record {
  term = 2;
  leader_id = codes "b";
  prev_log_index = 1;
  prev_log_term = 1;
  entries = entry 2 2 ∷ [];
  leader_commit = 2;
}

abbrev pub heartbeat : AppendEntriesRequest
heartbeat = record entries_sent { entries = [] }

abbrev too_late : AppendEntriesRequest
too_late = record entries_sent { prev_log_index = 2; prev_log_term = 2 }

accepted : (handle_append_entries 5 entries_sent node).0.success ≡ true
unfolding handle_append_entries last_index get_term
accepted = refl

heartbeat_accepted : (handle_append_entries 5 heartbeat node).0.success ≡ true
unfolding handle_append_entries last_index get_term
heartbeat_accepted = refl

refused : (handle_append_entries 5 too_late node).0.success ≡ false
unfolding handle_append_entries last_index get_term
refused = refl

granted : (handle_request_vote 5 vote_asked node).0.vote_granted ≡ true
unfolding handle_request_vote last_index last_term
granted = refl

abbrev answers : List (Option RequestVoteResponse)
answers = some (record { term = 2; vote_granted = true }) ∷ none ∷ []

elected : (start_election no_dump 5 answers node).role ≡ leader
unfolding start_election
elected = refl

durable : IsDurable node
unfolding recovered
durable = inr refl

committed : (advance_commit_index leading).commit_index ≡ 2
unfolding advance_commit_index last_index get_term
committed = refl

abbrev members : List Text
members = codes "a" ∷ codes "b" ∷ codes "c" ∷ []

abbrev not_a : Text → Bool
not_a m = not (text_eq m (codes "a"))

abbrev not_c : Text → Bool
not_c m = not (text_eq m (codes "c"))

quorum_not_a : quorum_size config ≤ count_if not_a members
unfolding quorum_size text_eq
quorum_not_a = omega arith

quorum_not_c : quorum_size config ≤ count_if not_c members
unfolding quorum_size text_eq
quorum_not_c = omega arith

act_all-IsDurable_example :
    IsDurable (act_all no_dump (request_vote 5 vote_asked ∷ campaign 9 ∷ []) node)
act_all-IsDurable_example =
    act_all-IsDurable no_dump (request_vote 5 vote_asked ∷ campaign 9 ∷ []) node durable

act-Advances_example : Advances node (act no_dump (campaign 9) node)
act-Advances_example = act-Advances no_dump (campaign 9) node (omega arith)

vote_granted_iff_example :
    ((handle_request_vote 5 vote_asked node).0.vote_granted ≡ true)
    ↔ (FreeToVote vote_asked node × UpToDate 2 1 node.log)
vote_granted_iff_example = vote_granted_iff 5 vote_asked node

append_entries_success_example :
    Accepted entries_sent node (handle_append_entries 5 entries_sent node).1
append_entries_success_example =
    append_entries_success 5 entries_sent node node-IsWellFormed (omega arith) (refl, tt)
      (omega arith) accepted

append_entries_refused_example :
    ((handle_append_entries 5 too_late node).1.log.entries ≡ node.log.entries)
    × ((handle_append_entries 5 too_late node).1.commit_index ≡ node.commit_index)
    × Refusal too_late node (handle_append_entries 5 too_late node).0
append_entries_refused_example = append_entries_refused 5 too_late node refused

advance_commit_index_lem_example :
    ((advance_commit_index leading ≡ leading)
      × ((i : ℕ) → i ≤ last_index leading.log → ¬ Ready leading i))
    ⊎ ((c : ℕ) × (advance_commit_index leading ≡ record leading { commit_index = c })
        × Ready leading c
        × (c ≤ last_index leading.log)
        × ((i : ℕ) → c < i → i ≤ last_index leading.log → ¬ Ready leading i))
advance_commit_index_lem_example = advance_commit_index_lem leading

apply_committed_lem_example :
    ((apply_committed (λ i. 7) node).store
      ≡ apply_each (λ i. 7) (0 + 1) (get_entries node.log (0 + 1) (1 + 1)) node.store)
    × ((apply_committed (λ i. 7) node).last_applied ≡ 1)
    × ((apply_committed (λ i. 7) node).log ≡ node.log)
apply_committed_lem_example =
    apply_committed_lem (λ i. 7) node node-IsWellFormed (omega arith) (omega arith)
      (omega (arith, last_index_node)) (omega arith)

first_answer_ignored_example :
    on_append_response 6
      (codes "a")
      entries_sent
      (handle_append_entries 5 entries_sent node).0
      (record leading { current_term = 2 })
    ≡ record leading { current_term = 2 }
first_answer_ignored_example =
    first_answer_ignored 5 6 (codes "a") entries_sent node (record leading { current_term = 2 })
      (omega arith) refl

heartbeat_commits_unchecked_example : 1 < (handle_append_entries 5 heartbeat node).1.commit_index
heartbeat_commits_unchecked_example =
    heartbeat_commits_unchecked 5 heartbeat node refl heartbeat_accepted (omega arith) (omega arith)
      (omega (arith, last_index_node))

abbrev records : List WalRecord
records =
    hard_state (record { term = 1; voted_for = [] })
    ∷ log_entry (record { term = 1; index = 1; command = entry 1 1 })
    ∷ []

abbrev recording : RaftNode
recording = record node { log = record two_entries { wal = some records } }

records_kept : (act_all no_dump [] recording).log.wal ≡ some records
unfolding act_all
records_kept = refl

recording-IsDurable : IsDurable recording
unfolding recovered
recording-IsDurable = inr refl

start_lem_example :
    let m = start 9 config KvStore.empty (some records) in
    (m.current_term ≡ (act_all no_dump [] recording).current_term)
    × (m.voted_for ≡ (act_all no_dump [] recording).voted_for)
    × IsDurable m
start_lem_example =
    start_lem no_dump [] recording records 9 config KvStore.empty recording-IsDurable records_kept

-- A leader of two entries, and a follower that has the first.
abbrev ahead : RaftNode
ahead = record leading { next_index = (codes "b", 3) ∷ [] }

abbrev one_behind : RaftNode
one_behind = record node { log = record two_entries { entries = sentinel 0 0 ∷ entry 1 1 ∷ [] } }

one_behind_entries :
    (i j : ℕ)
    → i ≤ j
    → j < 2 ^ 64
    → 0 < get_term one_behind.log i
    → get_term one_behind.log i ≡ get_term ahead.log j
    → get_term ahead.log i ≡ get_term one_behind.log i
unfolding get_term
one_behind_entries zero j le word h e = absurd (omega arith)
one_behind_entries (suc zero) j le word h e = refl
one_behind_entries (suc (suc i)) j le word h e = absurd (ground arith)

ahead-InTouch : InTouch (codes "b") ahead one_behind
unfolding is_leader next_for last_index get_term lookup text_eq
ahead-InTouch = record {
  leads = refl;
  same_term = refl;
  one_log = one_behind_entries;
  no_entry_at_zero = refl;
  positive = omega arith;
  fits = omega arith;
  last_fits = omega arith;
}

catches_up_example :
    (k : ℕ) × (k < next_for (codes "b") ahead)
    × (accepts 5
          (codes "b")
          (exchanges k 5 (codes "b") ahead one_behind).0
          (exchanges k 5 (codes "b") ahead one_behind).1
        ≡ true)
    × ((exchanges k 5 (codes "b") ahead one_behind).0.log ≡ ahead.log)
    × ((exchanges k 5 (codes "b") ahead one_behind).1.log ≡ one_behind.log)
catches_up_example = catches_up 5 (codes "b") ahead one_behind ahead-InTouch
