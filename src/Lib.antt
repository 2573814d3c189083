-- ===== src/Lib.antt =====
-- OrcDB, a replicated key-value store: what is modelled of its C++ code, and what is proved of it.
--
-- Parts. A client's write goes to RaftNode::Propose on the leader, which appends it to the RaftLog;
-- AppendEntries requests carry it to the other nodes, whose HandleAppendEntries checks and appends it;
-- AdvanceCommitIndex commits what a majority has, and ApplyLoop applies it to the KVStore, which
-- reports each change to the watches of the key. RaftLog and RaftNode write entries, terms and votes
-- to the WriteAheadLog, from which a node recovers. Requests between nodes go as frames from a RaftPeer
-- to the RaftRpcServer of the other node, and the answers back. Clients speak HTTP to the TcpServer,
-- which has their requests parsed and the Router dispatch them to the handlers.
--
-- Files, with the code they are about (paths from the root of the repository).
-- - Base: natural numbers with wrap-around at 2^64 (Words), texts as lists of bytes (Texts), lists,
--   association lists for std::unordered_map (Tables), integers, JSON values.
-- - Storage/OrderedMap: std::map as a list of pairs in the order of the keys.
-- - Storage/KvStore: src/storage/KVStore.hpp and KVStore.cpp. `get`, `put`, `delete`, `cas`, `scan`,
--   `watch`, `unwatch`, `take_snapshot`, `restore_snapshot`, `size` and `purge_expired` are the methods
--   of these names; each takes the clock reading that the method makes. `notify_watchers` records each
--   run of a callback in `fired`. Below it, Ops, Scan, Snapshot, Purge and Watches hold the laws.
-- - Storage/Wal: the records of src/storage/WriteAheadLog.cpp and what Recover makes of them. Below it,
--   Crc has the checksum and Bytes the files: `frame` and `write` are WriteRecord and its callers,
--   `read_record`, `read_segment` and `recover_files` the loops of Recover.
-- - Raft/Rpc: src/raft/RaftRPC.hpp, RaftRPC.cpp and RaftState.hpp.
-- - Raft/Wire: Serialize and Deserialize of src/raft/RaftRPC.cpp over JSON values.
-- - Raft/Frame: RpcFrame of src/raft/RaftRPC.cpp, Encode and Decode over bytes.
-- - Raft/Log: src/raft/RaftLog.hpp and RaftLog.cpp, method by method; `wal` is the sequence of records
--   written. Below it, Bounds has the invariant, and Lookup, Rounds, Append and Snapshot the laws.
-- - Raft/Node: src/raft/RaftNode.hpp and RaftNode.cpp. State has the node and the changes of role,
--   Handlers the RPC handlers, Replication ReplicateToPeer and AdvanceCommitIndex, Election
--   StartElection, Apply the rest, Restart the constructor; the other children hold the laws. Actions
--   has the critical sections under the node's mutex: a run of the node's threads is a sequence of
--   actions. CatchUp has rounds of ReplicateToPeer between a leader and a follower.
-- - Raft/Cluster: nodes by their identifiers, with the critical sections of StartElection on any of them,
--   votes, all other actions, and restarts as the steps of one relation.
-- - Raft/Stream: how HandleConn and RecvLoop take frames off the bytes of a connection.
-- - Raft/RpcServer: HandleConn of src/raft/RaftRpcServer.cpp, with the node's other threads as a
--   parameter.
-- - Raft/Peer: src/raft/RaftPeer.hpp and RaftPeer.cpp; `begin_call` is the calling thread's part of
--   SendAppendEntries and SendRequestVote, `append_entries_result` the waiting thread's. Sending has the
--   law of SendRaw, Calls a call with its answer, Reconnect the loss of the connection.
-- - Http: src/network/HttpParser.hpp and HttpParser.cpp. Request has the request and its accessors, Url
--   query strings and percent decoding, Parser the states of the parser; std::stoull is a parameter.
--   Response is src/network/HttpResponse.cpp. Server has the events of one connection of
--   src/network/TcpServer.cpp: `handle_read`, `handle_write` and `io_event`, the body of IoLoop; each
--   call of handler_ is an argument, since it depends on the store and the node, and the interest of
--   epoll in EPOLLOUT is part of the connection.
-- - Api/KvHandler: src/api/KVHandler.cpp, with RaftNode::Propose from its two critical sections.
-- - Api/Watch: src/api/WatchHandler.cpp, with the store's events in place of the callback. Api/Cluster:
--   src/api/ClusterHandler.cpp and HealthHandler.cpp.
-- - Api/Router: src/api/Router.hpp and Router.cpp; std::regex_match, the middleware and the handlers are
--   parameters.
-- - Auth: src/auth/AuthMiddleware.cpp and TokenStore.cpp in Middleware, with the validator as a
--   parameter; src/auth/JwtValidator.cpp in Base64 and Jwt, with OpenSSL and the JSON library as
--   parameters.
-- - Util/Config: src/util/Config.cpp, with getenv, std::stoi and yaml-cpp as parameters, and the
--   RaftConfig of src/main.cpp. Util/ThreadPool: src/util/ThreadPool.cpp as steps of its threads,
--   with their sleeping and waking; what the tasks do is a parameter.
--
-- Choices. Numbers are natural numbers; a uint64_t wraps around where the code adds or subtracts.
-- GetEntry returns `none` where the code throws. Loops are by recursion on the list or on the number
-- of rounds: GetEntries, the batch of ReplicateToPeer and ApplyLoop take the difference of their
-- bounds as the number of rounds, which is what the loop runs at most; the loops over header lines,
-- over a segment, over the frames in a buffer, over the sends of SendRaw and over the list of peers
-- take the number of the bytes. The text that the JSON library
-- makes of a value (`dump`) is a parameter; the write-ahead log holds the entry in place of its text.
-- A deadline of the store is an int64_t that wraps around, as its number below 2^64. The loops over an
-- unordered_map run in the order of insertion.
-- Clock readings and the responses of other nodes are arguments.
--
-- Not modelled: the socket calls, whose results are arguments, the listening sockets and the accept
-- loops, condition variables (but for the pool of threads) and timers, file handles and fdatasync, metrics and logging. In
-- the interleavings, a round of ApplyLoop is one action, though the code lets go of the mutex while an
-- entry is applied.
pub mod Base
pub mod Storage
pub mod Raft
pub mod Api
pub mod Http
pub mod Auth
pub mod Util
