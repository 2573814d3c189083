-- ===== src/Storage/Wal.antt =====
-- storage/WriteAheadLog.hpp and WriteAheadLog.cpp, above the bytes: the log is the sequence of the
-- records written to it, oldest first. `C` stands for the command of an entry and `S` for the data
-- of a snapshot: texts in the files, the entry and the snapshot themselves for the Raft node.
pub mod Crc
pub mod Bytes
use distributed_key_value_st.Base.{
  ℕ, Option, none, some, List, [], ◌∷◌, ◌++◌, if◌then◌else◌, leb, Text,
}

pub record HardState : Type 0 where
  pub term : ℕ
  pub voted_for : Text

pub record RawLogEntry (C : Type 0) : Type 0 where
  pub term : ℕ
  pub index : ℕ
  pub command : C

-- The record types, with what their payloads hold.
pub data Record (C S : Type 0) : Type 0 where
  log_entry : RawLogEntry C → Record C S
  hard_state : HardState → Record C S
  snapshot : ℕ → ℕ → S → Record C S

pub record RecoveryResult (C S : Type 0) : Type 0 where
  pub entries : List (RawLogEntry C)
  pub hard : HardState
  pub latest_snapshot : Option S
  pub snapshot_index : ℕ
  pub snapshot_term : ℕ

-- while (!entries.empty() && entries.back().index >= index) entries.pop_back();
unfoldable pub pop_from : {C : Type 0} → ℕ → List (RawLogEntry C) → List (RawLogEntry C)
pop_from index [] = []
pop_from index (e ∷ es) = elim (pop_from index es) [
  | [] ↦ if leb index e.index then [] else e ∷ []
  | f ∷ fs ↦ e ∷ f ∷ fs
]

module _ {C S : Type 0} where
  -- `RecoveryResult result;`
  abbrev pub nothing_recovered : RecoveryResult C S
  nothing_recovered = record {
    entries = [];
    hard = record { term = 0; voted_for = [] };
    latest_snapshot = none;
    snapshot_index = 0;
    snapshot_term = 0;
  }

  -- The switch of Recover on the record's type.
  unfoldable pub replay_record : RecoveryResult C S → Record C S → RecoveryResult C S
  unfolding pop_from
  replay_record r (log_entry e) = record r { entries = pop_from e.index r.entries ++ e ∷ [] }
  replay_record r (hard_state hs) = record r { hard = hs }
  replay_record r (snapshot index term s) = record r {
    entries = [];
    latest_snapshot = some s;
    snapshot_index = index;
    snapshot_term = term;
  }

  unfoldable pub replay_from : RecoveryResult C S → List (Record C S) → RecoveryResult C S
  replay_from r [] = r
  replay_from r (x ∷ xs) = replay_from (replay_record r x) xs

  -- What Recover returns for these records.
  unfoldable pub recover : List (Record C S) → RecoveryResult C S
  unfolding replay_from replay_record
  recover xs = replay_from nothing_recovered xs
