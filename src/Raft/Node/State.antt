-- ===== src/Raft/Node/State.antt =====
-- raft/RaftNode.hpp: the state of a node; the changes of role and PersistHardState of RaftNode.cpp.
-- `log.wal` stands for the one write-ahead log that the node shares with its RaftLog. The timer is
-- the clock reading `last_heartbeat`; condition variables and threads are left out.
use distributed_key_value_st.Base.{
  ℕ, ◌+◌, ◌/◌, ◌++◌, Option, none, some, List, [], ◌∷◌, if◌then◌else◌, Text, is_empty, add64, Assoc,
  assign, length, lookup,
}
use distributed_key_value_st.Base.Json.{Json}
use distributed_key_value_st.Storage.KvStore.{KvStore}
use distributed_key_value_st.Storage.Wal.{hard_state}
use distributed_key_value_st.Raft.Rpc.{RaftRole, follower, leader, no_op_entry}
use distributed_key_value_st.Raft.Log.{RaftLog, WalRecord, append, last_index}

pub record RaftConfig : Type 0 where
  pub node_id : Text
  pub peers : List Text
  pub snapshot_threshold : ℕ

pub record RaftNode : Type 0 where
  pub config : RaftConfig
  pub store : KvStore
  pub log : RaftLog
  pub current_term : ℕ
  pub voted_for : Text
  pub commit_index : ℕ
  pub last_applied : ℕ
  pub role : RaftRole
  pub leader_id : Text
  pub next_index : Assoc ℕ
  pub match_index : Assoc ℕ
  pub last_heartbeat : ℕ

unfoldable pub quorum_size : RaftConfig → ℕ
quorum_size c = (length c.peers + 1) / 2 + 1

unfoldable pub reset_election_timer : ℕ → RaftNode → RaftNode
reset_election_timer now n = record n { last_heartbeat = now }

-- wal_->WriteHardState(hs), where there is a write-ahead log.
unfoldable pub write_hard_state : ℕ → Text → Option (List WalRecord) → Option (List WalRecord)
write_hard_state term voted_for none = none
write_hard_state term voted_for (some rs) =
    some (rs ++ hard_state (record { term = term; voted_for = voted_for }) ∷ [])

unfoldable pub persist_hard_state : RaftNode → RaftNode
unfolding write_hard_state
persist_hard_state n = record n {
  log = record n.log { wal = write_hard_state n.current_term n.voted_for n.log.wal };
}

-- `leader_id` is empty where the call gives none.
unfoldable pub become_follower : ℕ → ℕ → Text → RaftNode → RaftNode
unfolding persist_hard_state reset_election_timer is_empty
become_follower now term leader_id n = reset_election_timer now (
    persist_hard_state (record n {
      current_term = term;
      role = follower;
      voted_for = [];
      leader_id = if is_empty leader_id then n.leader_id else leader_id;
    }))

-- for (auto& peer : peers_) m[peer->Id()] = v;
unfoldable pub assign_each : List Text → ℕ → Assoc ℕ → Assoc ℕ
assign_each [] v m = m
assign_each (p ∷ ps) v m = assign_each ps v (assign p v m)

unfoldable pub become_leader : (Json → Text) → RaftNode → RaftNode
unfolding assign_each append no_op_entry
become_leader dump n =
    let next = add64 (last_index n.log) 1 in
    record n {
      role = leader;
      leader_id = n.config.node_id;
      next_index = assign_each n.config.peers next n.next_index;
      match_index = assign_each n.config.peers 0 n.match_index;
      log = append (no_op_entry dump n.current_term next) n.log;
    }

-- m[k] of a map of numbers: 0 where the key is new.
unfoldable pub at_or_zero : Text → Assoc ℕ → ℕ
at_or_zero k m = elim (lookup k m) [ none ↦ 0 | some v ↦ v ]
