-- ===== src/Api/Cluster.antt =====
-- api/ClusterHandler.cpp and HealthHandler.cpp, and RaftRoleToString of raft/RaftState.hpp. A handler
-- reads the node once for each accessor that it calls: `at i` is the node at the i-th reading. `dump`
-- stands for nlohmann::json.
use distributed_key_value_st.Base.{ℕ, if◌then◌else◌, Text, codes, is_empty}
use distributed_key_value_st.Base.Int.{pos}
use distributed_key_value_st.Base.Json.{Json, number, string, boolean, object, end, field}
use distributed_key_value_st.Raft.Rpc.{RaftRole, follower, candidate, leader}
use distributed_key_value_st.Raft.Node.State.{RaftNode}
use distributed_key_value_st.Raft.Node.Replication.{is_leader}
use distributed_key_value_st.Http.Response.{HttpResponse, respond_ok, service_unavailable}

unfoldable raft_role_to_string : RaftRole → Text
raft_role_to_string follower = codes "follower"
raft_role_to_string candidate = codes "candidate"
raft_role_to_string leader = codes "leader"

module _ (dump : Json → Text) (at : ℕ → RaftNode) where
  -- ClusterHandler::Status.
  unfoldable cluster_status : HttpResponse
  unfolding raft_role_to_string is_leader respond_ok
  cluster_status = respond_ok (
      dump (
        object (
          field (codes "role") (string (raft_role_to_string (at 0).role)) (
            field (codes "current_term") (number (pos (at 1).current_term)) (
              field (codes "commit_index") (number (pos (at 2).commit_index)) (
                field (codes "leader_id") (string (at 3).leader_id)
                  (field (codes "is_leader") (boolean (is_leader (at 4).role)) end)))))))

  -- ClusterHandler::Leader.
  unfoldable cluster_leader : HttpResponse
  unfolding is_leader is_empty respond_ok service_unavailable
  cluster_leader =
      if is_empty (at 0).leader_id
      then service_unavailable dump (codes "no leader elected")
      else respond_ok (
          dump (
            object (
              field (codes "leader_id") (string (at 0).leader_id)
                (field (codes "is_leader") (boolean (is_leader (at 1).role)) end))))

  -- HealthHandler::Readiness.
  unfoldable readiness : HttpResponse
  unfolding is_leader is_empty respond_ok service_unavailable
  readiness =
      if is_empty (at 0).leader_id
      then service_unavailable dump (codes "no leader elected")
      else respond_ok (
          dump (
            object (
              field (codes "status") (string (codes "ready")) (
                field (codes "is_leader") (boolean (is_leader (at 1).role)) (
                  field (codes "leader_id") (string (at 2).leader_id)
                    (field (codes "term") (number (pos (at 3).current_term)) end))))))

-- HealthHandler::Liveness.
unfoldable liveness : (Json → Text) → HttpResponse
unfolding respond_ok
liveness dump = respond_ok (dump (object (field (codes "status") (string (codes "ok")) end)))
