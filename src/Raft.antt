-- ===== src/Raft.antt =====
-- raft/: log entries and RPC messages, the replicated log, the wire frames and the node.
pub mod Rpc
pub mod Log
pub mod Frame
pub mod Wire
pub mod Stream
pub mod Node
pub mod Cluster
pub mod RpcServer
pub mod Peer
