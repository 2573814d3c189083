-- ===== src/Util/Config/Tests.antt =====
-- util/Config.cpp: the environment of a node of three.
use distributed_key_value_st.Base.{
  ℕ, ◌+◌, ◌*◌, ◌<◌, ◌≡◌, refl, false, Option, none, some, List, [], ◌∷◌, map, arith, if◌then◌else◌,
  Text, codes, text_eq, length, All,
}
use distributed_key_value_st.Base.Int.{ℤ, pos}
use distributed_key_value_st.Raft.Node.State.{quorum_size}
use distributed_key_value_st.Util.Config.{
  NodeConfig, YamlLib, env_or, port_of, load, raft_config, split_entry,
}
use distributed_key_value_st.Util.Config.Peers.{PeerFits, print_peers, named, load-print_peers}

abbrev stoi : Text → Option ℤ
stoi s =
    if text_eq s (codes "2380")
    then some (pos 2380)
    else if text_eq s (codes "2379")
    then some (pos 2379)
    else none

abbrev show : ℕ → Text
show n = codes "2380"

abbrev others : List (Text × ℕ)
others = (codes "b", 2380) ∷ (codes "c", 2380) ∷ []

abbrev getenv : Text → Option Text
getenv name =
    if text_eq name (codes "PEERS")
    then some (print_peers stoi show others)
    else if text_eq name (codes "NODE_ID")
    then some (codes "a")
    else none

-- A document in which nothing is defined.
abbrev no_yaml : YamlLib
no_yaml = record {
  Node = ℕ;
  at = λ n key. n;
  text_or = λ otherwise n. otherwise;
  u16_or = λ otherwise n. otherwise;
  int_or = λ otherwise n. otherwise;
  bool_or = λ otherwise n. otherwise;
  as_text = λ n. none;
  is_defined = λ n. false;
  elements = λ n. [];
}

-- An entry with no colon is taken for a port as a whole.
host_alone : split_entry stoi (codes "b") ≡ none
unfolding split_entry text_eq
host_alone = refl

peers_set : getenv (codes "PEERS") ≡ some (print_peers stoi show others)
unfolding text_eq
peers_set = refl

others_fit : All (PeerFits stoi show) others
unfolding text_eq
others_fit = (
  (ground arith, ground arith, ground arith, refl, omega arith),
  ((ground arith, ground arith, ground arith, refl, omega arith), tt),
)

client_read : port_of stoi (env_or getenv (codes "2379") (codes "CLIENT_PORT")) ≡ some 2379
unfolding port_of env_or text_eq
client_read = refl

raft_read : port_of stoi (env_or getenv (codes "2380") (codes "RAFT_PORT")) ≡ some 2380
unfolding port_of env_or text_eq
raft_read = refl

load-print_peers_example :
    (cfg : NodeConfig) × (load no_yaml stoi show getenv none ≡ some cfg)
    × (cfg.peers ≡ named stoi show (λ index host. host) 1 others)
    × ((raft_config cfg).peers ≡ map (λ p. p.0) others)
    × (length others + 1 < 2 * quorum_size (raft_config cfg))
    × (cfg.server.client_port ≡ 2379)
    × (cfg.node_id ≡ env_or getenv (codes "node1") (codes "NODE_ID"))
load-print_peers_example =
    load-print_peers no_yaml stoi show getenv others 2379 2380 peers_set others_fit client_read
      raft_read
