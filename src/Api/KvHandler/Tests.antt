-- ===== src/Api/KvHandler/Tests.antt =====
-- api/KVHandler.cpp: a write and a compare-and-swap on a leader.
use distributed_key_value_st.Base.{
  ℕ, ◌≤◌, ◌≡◌, ◌≢◌, refl, inr, some, none, Option, [], ◌∷◌, Text, codes, lookup,
}
use distributed_key_value_st.Base.Int.{ℤ}
use distributed_key_value_st.Base.Json.{Json, string, object, field, end, find_field}
use distributed_key_value_st.Storage.KvStore
use distributed_key_value_st.Storage.KvStore.{KvEntry}
use distributed_key_value_st.Storage.OrderedMap
use distributed_key_value_st.Raft.Rpc.{puts, leader}
use distributed_key_value_st.Raft.Log.{last_index}
use distributed_key_value_st.Raft.Node.State.{RaftNode, RaftConfig}
use distributed_key_value_st.Raft.Node.Apply.{begin_propose}
use distributed_key_value_st.Raft.Node.Restart.{fresh_node}
use distributed_key_value_st.Http.Request.{HttpRequest, no_request}
use distributed_key_value_st.Api.KvHandler.{put_key, put_fields, cas_fields, compare_and_swap}
use distributed_key_value_st.Api.KvHandler.Writes.{
  status_of, Logged, put_key_created, compare_and_swap_local,
}

abbrev config : RaftConfig
config = record { node_id = codes "a"; peers = []; snapshot_threshold = 100 }

abbrev node : RaftNode
node = record (fresh_node 0 config KvStore.empty none) { role = leader }

abbrev dump : Json → Text
dump j = []

-- One body for all texts.
abbrev parse : Text → Option Json
parse s = some (
    object (
      field (codes "value") (string (codes "w"))
        (field (codes "expected") (string (codes "v")) end)))

abbrev applied : RaftNode → RaftNode
applied n = record n { last_applied = 1 }

abbrev request : HttpRequest
request = record no_request { path_params = (codes "key", codes "k") ∷ [] }

created : status_of (put_key parse dump applied request node).0 ≡ 201
unfolding put_key fresh_node find_field last_index
created = refl

put_key_created_example :
    (key : Text) × (value : Text) × (ttl_ms : ℤ) × (lookup (codes "key") request.path_params
      ≡ some key)
    × (put_fields dump (parse request.body) ≡ some (inr (value, ttl_ms)))
    × (node.role ≡ leader)
    × (let (begun, m) = begin_propose dump key value puts ttl_ms node in
        (index : ℕ) × (begun ≡ inr index)
        × Logged key value ttl_ms node index m
        × ((put_key parse dump applied request node).1 ≡ applied m)
        × ((applied m).role ≡ leader)
        × (index ≤ (applied m).last_applied))
put_key_created_example = put_key_created parse dump applied request node created

abbrev stored : RaftNode
stored = record node {
  store = record KvStore.empty {
    table =
        (
          codes "k",
          record {
            value = codes "v";
            version = 1;
            raft_index = 1;
            created_at = 0;
            updated_at = 0;
            expires_at = none;
          },
        )
        ∷ [];
  };
}

swapped : status_of (compare_and_swap parse dump 0 request stored).0 ≡ 200
unfolding compare_and_swap fresh_node find_field OrderedMap.find
swapped = refl

compare_and_swap_local_example :
    let m = (compare_and_swap parse dump 0 request stored).1 in
    (key : Text) × (expected : Text) × (new_value : Text) × (e : KvEntry) × (e' : KvEntry) × (lookup
        (codes "key")
        request.path_params
      ≡ some key)
    × (cas_fields dump (parse request.body) ≡ some (inr (expected, new_value)))
    × (stored.role ≡ leader)
    × (OrderedMap.find key stored.store.table ≡ some e)
    × (e.value ≡ expected)
    × (OrderedMap.find key m.store.table ≡ some e')
    × (e'.value ≡ new_value)
    × ((j : Text)
        → j ≢ key
        → OrderedMap.find j m.store.table ≡ OrderedMap.find j stored.store.table)
    × (m ≡ record stored { store = m.store })
compare_and_swap_local_example = compare_and_swap_local parse dump 0 request stored swapped
