-- ===== src/Raft/Node/Durability.antt =====
-- raft/RaftNode.cpp with storage/WriteAheadLog.cpp: the hard state that a node writes and that
-- Recover reads back.
use distributed_key_value_st.Base.{
  ℕ, ◌≡◌, ◌⊎◌, refl, ◌∙◌, ap, Option, none, some, List, [], ◌∷◌, ◌++◌, arith, ltb, Option-cases,
  Bool-cases, inl, inr, Text, add64, length,
}
use distributed_key_value_st.Base.Json.{Json}
use distributed_key_value_st.Storage.Wal.{
  Record, HardState, RecoveryResult, log_entry, hard_state, snapshot, nothing_recovered,
  replay_record, replay_from, recover,
}
use distributed_key_value_st.Storage.KvStore.{SnapshotItem, take_snapshot}
use distributed_key_value_st.Raft.Rpc.{
  LogEntry, AppendEntriesRequest, AppendEntriesResponse, RequestVoteRequest, no_op_entry,
}
use distributed_key_value_st.Raft.Log.{
  RaftLog, WalRecord, log_to, append_one, append_all, get_entry, get_term, last_index,
}
use distributed_key_value_st.Raft.Node.State.{RaftNode, write_hard_state}
use distributed_key_value_st.Raft.Node.Handlers.{
  handle_append_entries, handle_request_vote, append_to_log, check_prev, observe_term, decide_vote,
  hear_from,
}
use distributed_key_value_st.Raft.Node.Replication.{
  on_append_response, advance_commit_index, committable, record_match,
}
use distributed_key_value_st.Raft.Node.Election.{become_candidate, count_votes, finish_election}
use distributed_key_value_st.Raft.Node.Apply.{
  apply_rounds, maybe_snapshot, begin_propose, write_snapshot, proposal,
}
use distributed_key_value_st.Raft.Node.Actions.{
  Action, append_entries, request_vote, campaign, vote_response, count_up, append_response, propose,
  apply_next, snapshot_log, act, act_all,
}

-- Recover reads the records one by one.
pub replay_from-append :
    {C S : Type 0} (r : RecoveryResult C S) (xs : List (Record C S)) (x : Record C S)
    → replay_from r (xs ++ x ∷ []) ≡ replay_record (replay_from r xs) x
unfolding replay_from
replay_from-append r [] x = refl
replay_from-append r (y ∷ xs) x = replay_from-append (replay_record r y) xs x

-- The hard state that Recover returns, where there is a write-ahead log.
unfoldable pub recovered : Option (List WalRecord) → Option HardState
unfolding recover
recovered none = none
recovered (some rs) = some (recover rs).hard

recovered-write_hard_state :
    (term : ℕ) (voted_for : Text) (w : Option (List WalRecord))
    → (recovered (write_hard_state term voted_for w) ≡ none)
      ⊎ (recovered (write_hard_state term voted_for w)
          ≡ some (record { term = term; voted_for = voted_for }))
unfolding recovered write_hard_state recover
recovered-write_hard_state term voted_for none = inl refl
recovered-write_hard_state term voted_for (some rs) = inr (
    ap (λ (r : RecoveryResult LogEntry (List SnapshotItem)). some r.hard)
      (replay_from-append nothing_recovered rs
        (hard_state (record { term = term; voted_for = voted_for }))))

pub recovered-log_to :
    (w : Option (List WalRecord)) (e : LogEntry) → recovered (log_to w e) ≡ recovered w
unfolding recovered log_to recover
recovered-log_to none e = refl
recovered-log_to (some rs) e =
    ap (λ (r : RecoveryResult LogEntry (List SnapshotItem)). some r.hard)
      (replay_from-append nothing_recovered rs
        (log_entry (record { term = e.term; index = e.index; command = e })))

recovered-write_snapshot :
    (index term : ℕ) (items : List SnapshotItem) (w : Option (List WalRecord))
    → recovered (write_snapshot index term items w) ≡ recovered w
unfolding recovered write_snapshot recover
recovered-write_snapshot index term items none = refl
recovered-write_snapshot index term items (some rs) =
    ap (λ (r : RecoveryResult LogEntry (List SnapshotItem)). some r.hard)
      (replay_from-append nothing_recovered rs (snapshot index term items))

recovered-append_all :
    (es : List LogEntry) (l : RaftLog) → recovered (append_all es l).wal ≡ recovered l.wal
unfolding append_all
recovered-append_all [] l = refl
recovered-append_all (e ∷ es) l =
    recovered-append_all es (append_one e l) ∙ recovered-log_to l.wal e

-- There is no write-ahead log, or what Recover would read from it is the node's term and vote.
abbrev pub IsDurable : RaftNode → Type 0
IsDurable n =
    (recovered n.log.wal ≡ none)
    ⊎ (recovered n.log.wal ≡ some (record { term = n.current_term; voted_for = n.voted_for }))

-- A step that changes neither the term and the vote nor what is recovered.
IsDurable-kept :
    (n m : RaftNode)
    → m.current_term ≡ n.current_term
    → m.voted_for ≡ n.voted_for
    → recovered m.log.wal ≡ recovered n.log.wal
    → IsDurable n
    → IsDurable m
IsDurable-kept n m t v w d = rw (t, v, w) d

observe_term-IsDurable :
    (now term : ℕ) (leader : Text) (n : RaftNode)
    → IsDurable n
    → IsDurable (observe_term now term leader n)
unfolding observe_term
observe_term-IsDurable now term leader n d =
    ground (arith, recovered-write_hard_state term [] n.log.wal)

append_to_log-IsDurable :
    (term : ℕ) (req : AppendEntriesRequest) (n : RaftNode)
    → IsDurable n
    → IsDurable (append_to_log term req n).1
unfolding append_to_log
append_to_log-IsDurable term req n d = elim (Option-cases (check_prev req n.log)) [
  | inl passes ↦ rw (passes, append_to_log) (ground (arith, recovered-append_all req.entries n.log))
  | inr (_, fails) ↦ rw (fails, append_to_log) d
]

handle_append_entries-IsDurable :
    (now : ℕ) (req : AppendEntriesRequest) (n : RaftNode)
    → IsDurable n
    → IsDurable (handle_append_entries now req n).1
unfolding handle_append_entries
handle_append_entries-IsDurable now req n d = elim (Bool-cases (ltb req.term n.current_term)) [
  | inl stale ↦ rw (stale, handle_append_entries) d
  | inr current ↦
      rw (current, handle_append_entries)
        (append_to_log-IsDurable n.current_term req
          (hear_from now req.leader_id (observe_term now req.term req.leader_id n))
          (observe_term-IsDurable now req.term req.leader_id n d))
]

decide_vote-IsDurable :
    (now term : ℕ) (req : RequestVoteRequest) (n : RaftNode)
    → IsDurable n
    → IsDurable (decide_vote now term req n).1
unfolding decide_vote
decide_vote-IsDurable now term req n d =
    ground (arith, recovered-write_hard_state n.current_term req.candidate_id n.log.wal)

handle_request_vote-IsDurable :
    (now : ℕ) (req : RequestVoteRequest) (n : RaftNode)
    → IsDurable n
    → IsDurable (handle_request_vote now req n).1
unfolding handle_request_vote
handle_request_vote-IsDurable now req n d = elim (Bool-cases (ltb req.term n.current_term)) [
  | inl stale ↦ rw (stale, handle_request_vote) d
  | inr current ↦
      rw (current, handle_request_vote)
        (decide_vote-IsDurable now n.current_term req (observe_term now req.term [] n)
          (observe_term-IsDurable now req.term [] n d))
]

advance_commit_index-IsDurable : (n : RaftNode) → IsDurable n → IsDurable (advance_commit_index n)
unfolding advance_commit_index
advance_commit_index-IsDurable n d = elim (Option-cases (committable n (last_index n.log))) [
  | inl nothing ↦ rw (nothing, advance_commit_index) d
  | inr (i, found) ↦ rw (found, advance_commit_index) d
]

on_append_response-IsDurable :
    (now : ℕ) (peer : Text) (req : AppendEntriesRequest) (resp : AppendEntriesResponse)
    (n : RaftNode)
    → IsDurable n
    → IsDurable (on_append_response now peer req resp n)
unfolding on_append_response
on_append_response-IsDurable now peer req resp n d = ground (
  arith,
  recovered-write_hard_state resp.term [] n.log.wal,
  advance_commit_index-IsDurable
      (record_match peer (add64 req.prev_log_index (length req.entries)) n) d,
)

-- After every action of the node, in whichever thread, a restart reads back the node's term and vote.
pub act-IsDurable :
    (dump : Json → Text) (a : Action) (n : RaftNode) → IsDurable n → IsDurable (act dump a n)
unfolding act become_candidate count_votes finish_election begin_propose apply_rounds maybe_snapshot
act-IsDurable dump (append_entries now req) n d = handle_append_entries-IsDurable now req n d
act-IsDurable dump (request_vote now req) n d = handle_request_vote-IsDurable now req n d
act-IsDurable dump (campaign now) n d =
    recovered-write_hard_state (add64 n.current_term 1) n.config.node_id n.log.wal
act-IsDurable dump (vote_response now term resp) n d =
    ground (arith, recovered-write_hard_state resp.term [] n.log.wal)
act-IsDurable dump (count_up term votes) n d = ground (
  arith,
  recovered-log_to n.log.wal (no_op_entry dump n.current_term (add64 (last_index n.log) 1)),
)
act-IsDurable dump (append_response now peer req resp) n d =
    on_append_response-IsDurable now peer req resp n d
act-IsDurable dump (propose key value op ttl_ms) n d =
    ground (arith, recovered-log_to n.log.wal (proposal dump key value op ttl_ms n))
act-IsDurable dump (apply_next now) n d =
    elim (Option-cases (get_entry n.log (add64 n.last_applied 1))) [
      | inl absent ↦ rw (absent, apply_rounds) (ground arith)
      | inr (e, found) ↦ rw (found, apply_rounds) (ground arith)
    ]
act-IsDurable dump (snapshot_log now) n d = ground (
  arith,
  recovered-write_snapshot n.last_applied (get_term n.log n.last_applied)
      (take_snapshot now n.store) n.log.wal,
)

-- Where Recover reads back the node's term and vote from its write-ahead log (or the node has no
-- log), it does so again after any interleaving of the actions of the node's threads.
pub act_all-IsDurable :
    (dump : Json → Text) (as' : List Action) (n : RaftNode)
    → IsDurable n
    → IsDurable (act_all dump as' n)
unfolding act_all
act_all-IsDurable dump [] n d = d
act_all-IsDurable dump (a ∷ as') n d =
    act_all-IsDurable dump as' (act dump a n) (act-IsDurable dump a n d)
