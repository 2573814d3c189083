-- ===== src/Raft/Node.antt =====
-- raft/RaftNode.hpp and RaftNode.cpp: the node's state and its operations, each a child that follows
-- one section of the source, and what is proved of them.
pub mod State
pub mod Handlers
pub mod Replication
pub mod Election
pub mod Apply
pub mod Actions
pub mod Terms
pub mod Durability
pub mod Voting
pub mod Commit
pub mod Follower
pub mod Accepting
pub mod Refusing
pub mod Applying
pub mod Proposing
pub mod Restart
pub mod CatchUp
pub mod Tests
