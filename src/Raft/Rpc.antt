-- ===== src/Raft/Rpc.antt =====
-- raft/RaftRPC.hpp and RaftState.hpp: log entries, the messages between nodes, and roles.
use distributed_key_value_st.Base.{ℕ, List, [], Bool, Text, codes}
use distributed_key_value_st.Base.Int.{ℤ, pos, negsuc}
use distributed_key_value_st.Base.Json.{Json, number, string, object, end, field}

pub data OpType : Type 0 where
  puts deletes no_op : OpType

pub record LogEntry : Type 0 where
  pub term : ℕ
  pub index : ℕ
  pub op_type : OpType
  pub key : Text
  pub value : Text
  pub ttl_ms : ℤ
  pub command : Text

pub record AppendEntriesRequest : Type 0 where
  pub term : ℕ
  pub leader_id : Text
  pub prev_log_index : ℕ
  pub prev_log_term : ℕ
  pub entries : List LogEntry
  pub leader_commit : ℕ

pub record AppendEntriesResponse : Type 0 where
  pub term : ℕ
  pub success : Bool
  pub conflict_index : ℕ
  pub conflict_term : ℕ

pub record RequestVoteRequest : Type 0 where
  pub term : ℕ
  pub candidate_id : Text
  pub last_log_index : ℕ
  pub last_log_term : ℕ

pub record RequestVoteResponse : Type 0 where
  pub term : ℕ
  pub vote_granted : Bool

pub data RaftRole : Type 0 where
  follower candidate leader : RaftRole

-- static_cast<int>(opType)
unfoldable pub op_code : OpType → ℕ
op_code puts = 1
op_code deletes = 2
op_code no_op = 3

-- The JSON object whose text LogEntry::Serialize returns.
unfoldable pub entry_json : LogEntry → Json
unfolding op_code
entry_json e = object (
    field (codes "term") (number (pos e.term)) (
      field (codes "index") (number (pos e.index)) (
        field (codes "op") (number (pos (op_code e.op_type))) (
          field (codes "key") (string e.key) (
            field (codes "value") (string e.value) (
              field (codes "ttl_ms") (number e.ttl_ms)
                (field (codes "command") (string e.command) end)))))))

-- LogEntry::NoOp, over the `dump` of the JSON library.
unfoldable pub no_op_entry : (Json → Text) → ℕ → ℕ → LogEntry
no_op_entry dump term index = record {
  term = term;
  index = index;
  op_type = no_op;
  key = [];
  value = [];
  ttl_ms = negsuc 0;
  command = dump (object (field (codes "op") (string (codes "noop")) end));
}
