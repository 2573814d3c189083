-- ===== src/Util/Config.antt =====
-- util/Config.hpp and Config.cpp, and what main.cpp makes of the configuration for the node. `getenv`
-- gives a variable of the environment, `stoi` and `show` stand for std::stoi and std::to_string, and
-- `YamlLib` for yaml-cpp. `none` is an exception. Durations are milliseconds.
pub mod Peers
mod Tests
use distributed_key_value_st.Base.{
  ℕ, zero, suc, ◌+◌, ◌-◌, ◌*◌, ◌%◌, ◌^◌, ◌++◌, Bool, true, false, Option, none, some, List, [], ◌∷◌,
  map, if◌then◌else◌, ◌==◌, length, Text, codes, is_empty, ◌>>=◌,
}
use distributed_key_value_st.Base.Int.{ℤ, pos, negsuc}
use distributed_key_value_st.Http.Url.{cut_at}
use distributed_key_value_st.Raft.Node.State.{RaftConfig}

pub record PeerConfig : Type 0 where
  pub id : Text
  pub host : Text
  pub raft_port : ℕ

pub record RaftTimings : Type 0 where
  pub election_timeout_min : ℤ
  pub election_timeout_max : ℤ
  pub heartbeat_interval : ℤ
  pub rpc_timeout : ℤ

pub record ServerConfig : Type 0 where
  pub bind_address : Text
  pub client_port : ℕ
  pub raft_port : ℕ
  pub num_io_threads : ℤ

pub record StorageConfig : Type 0 where
  pub data_dir : Text
  pub wal_max_segment_bytes : ℕ
  pub sync_writes : Bool

pub record AuthConfig : Type 0 where
  pub jwt_algorithm : Text
  pub jwt_secret : Text
  pub jwt_public_key_path : Text
  pub jwt_issuer : Text

pub record NodeConfig : Type 0 where
  pub node_id : Text
  pub server : ServerConfig
  pub storage : StorageConfig
  pub raft : RaftTimings
  pub auth : AuthConfig
  pub peers : List PeerConfig
  pub log_level : Text

-- `NodeConfig cfg;`
abbrev pub new : NodeConfig
new = record {
  node_id = [];
  server = record {
    bind_address = codes "0.0.0.0";
    client_port = 2379;
    raft_port = 2380;
    num_io_threads = pos 4;
  };
  storage = record {
    data_dir = codes "/var/lib/orcdb";
    wal_max_segment_bytes = 64 * 1024 * 1024;
    sync_writes = true;
  };
  raft = record {
    election_timeout_min = pos 150;
    election_timeout_max = pos 300;
    heartbeat_interval = pos 50;
    rpc_timeout = pos 50;
  };
  auth = record {
    jwt_algorithm = codes "HS256";
    jwt_secret = [];
    jwt_public_key_path = [];
    jwt_issuer = codes "orcdb";
  };
  peers = [];
  log_level = codes "info";
}

-- static_cast<uint16_t> of an int.
unfoldable pub to_u16 : ℤ → ℕ
to_u16 (pos n) = n % 2 ^ 16
to_u16 (negsuc n) = 2 ^ 16 - 1 - n % 2 ^ 16

-- The text before the last `c` and the text behind it, as rfind finds it.
unfoldable pub cut_at_last : ℕ → Text → Option (Text × Text)
cut_at_last c [] = none
cut_at_last c (a ∷ s) = elim (cut_at_last c s) [
  | some (before, after) ↦ some (a ∷ before, after)
  | none ↦ if a == c then some ([], s) else none
]

-- Env
unfoldable pub env_or : (Text → Option Text) → Text → Text → Text
env_or getenv otherwise name = elim (getenv name) [ none ↦ otherwise | some v ↦ v ]

module _ (stoi : Text → Option ℤ) where
  unfoldable pub port_of : Text → Option ℕ
  unfolding to_u16
  port_of s = do n ← stoi s; some (to_u16 n)

  -- An entry of PEERS: its host and its port. With no colon, substr takes the whole entry for both.
  unfoldable pub split_entry : Text → Option (Text × ℕ)
  unfolding cut_at_last port_of
  split_entry entry = elim (cut_at_last b':' entry) [
    | none ↦ do port ← port_of entry; some (entry, port)
    | some (host, digits) ↦ do port ← port_of digits; some (host, port)
  ]

  -- while (pos < s.size()), on what is left behind pos; each round takes a byte at least. `name` is the
  -- identifier that an entry gets, from its number and its host.
  unfoldable pub parse_peers : (ℕ → Text → Text) → ℕ → ℕ → Text → Option (List PeerConfig)
  unfolding split_entry cut_at
  parse_peers name rounds index [] = some []
  parse_peers name zero index (c ∷ s) = none
  parse_peers name (suc rounds) index (c ∷ s) =
      let (entry, rest) : Text × Text = elim (cut_at b',' (c ∷ s)) [
        | none ↦ (c ∷ s, [])
        | some (entry, rest) ↦ (entry, rest)
      ] in
      do
        (host, port) ← split_entry entry
        peers ← parse_peers name rounds (suc index) rest
        some (record { id = name index host; host = host; raft_port = port } ∷ peers)

  unfoldable pub load_from_env : (ℕ → Text) → (Text → Option Text) → Option NodeConfig
  unfolding env_or port_of parse_peers
  load_from_env show getenv =
      let env = env_or getenv in
      let list : Text = env [] (codes "PEERS") in
      do
        client_port ← port_of (env (codes "2379") (codes "CLIENT_PORT"))
        raft_port ← port_of (env (codes "2380") (codes "RAFT_PORT"))
        peers ← parse_peers (λ index host. codes "node" ++ show index) (length list) 2 list
        some (record new {
          node_id = env (codes "node1") (codes "NODE_ID");
          log_level = env (codes "info") (codes "LOG_LEVEL");
          server = record new.server { client_port = client_port; raft_port = raft_port };
          storage = record new.storage {
            data_dir = env (codes "/var/lib/orcdb") (codes "DATA_DIR");
          };
          auth = record new.auth {
            jwt_secret = env [] (codes "JWT_SECRET");
            jwt_algorithm = env (codes "HS256") (codes "JWT_ALGORITHM");
          };
          peers = peers;
        })

  -- overrideU16
  unfoldable pub override_port : (Text → Option Text) → Text → ℕ → Option ℕ
  unfolding port_of
  override_port getenv name port = elim (getenv name) [ none ↦ some port | some v ↦ port_of v ]

  unfoldable pub override_peers : (Text → Option Text) → List PeerConfig → Option (List PeerConfig)
  unfolding parse_peers
  override_peers getenv peers = elim (getenv (codes "PEERS")) [
    | none ↦ some peers
    | some list ↦ parse_peers (λ index host. host) (length list) 1 list
  ]

  -- What Load does behind LoadFromFile or LoadFromEnv.
  unfoldable pub override_all : (Text → Option Text) → NodeConfig → Option NodeConfig
  unfolding env_or override_port override_peers
  override_all getenv cfg = do
    client_port ← override_port getenv (codes "CLIENT_PORT") cfg.server.client_port
    raft_port ← override_port getenv (codes "RAFT_PORT") cfg.server.raft_port
    peers ← override_peers getenv cfg.peers
    some (record cfg {
      node_id = env_or getenv cfg.node_id (codes "NODE_ID");
      auth = record cfg.auth {
        jwt_secret = env_or getenv cfg.auth.jwt_secret (codes "JWT_SECRET");
      };
      storage = record cfg.storage {
        data_dir = env_or getenv cfg.storage.data_dir (codes "DATA_DIR");
      };
      log_level = env_or getenv cfg.log_level (codes "LOG_LEVEL");
      server = record cfg.server { client_port = client_port; raft_port = raft_port };
      peers = peers;
    })

-- What the program uses of yaml-cpp: doc[key], as<T>(default), as<std::string>(), whether a node is
-- defined, and its elements.
pub record YamlLib : Type 1 where
  pub Node : Type 0
  pub at : Node → Text → Node
  pub text_or : Text → Node → Text
  pub u16_or : ℕ → Node → ℕ
  pub int_or : ℤ → Node → ℤ
  pub bool_or : Bool → Node → Bool
  pub as_text : Node → Option Text
  pub is_defined : Node → Bool
  pub elements : Node → List Node

module _ (yaml : YamlLib) where
  open yaml use {Node, at, text_or, u16_or, int_or, bool_or, as_text, is_defined, elements}

  -- The loop over doc["peers"].
  unfoldable pub peers_of : List Node → Option (List PeerConfig)
  peers_of [] = some []
  peers_of (peer ∷ nodes) = do
    id ← as_text (at peer (codes "id"))
    host ← as_text (at peer (codes "host"))
    peers ← peers_of nodes
    some (
        record { id = id; host = host; raft_port = u16_or 2380 (at peer (codes "raft_port")) }
        ∷ peers)

  unfoldable pub timings_of : Node → RaftTimings
  timings_of r =
      if is_defined r
      then record {
        election_timeout_min = int_or (pos 150) (at r (codes "election_timeout_min_ms"));
        election_timeout_max = int_or (pos 300) (at r (codes "election_timeout_max_ms"));
        heartbeat_interval = int_or (pos 50) (at r (codes "heartbeat_interval_ms"));
        rpc_timeout = int_or (pos 50) (at r (codes "rpc_timeout_ms"));
      }
      else new.raft

  -- LoadFromFile, from the document that YAML::LoadFile has read.
  unfoldable pub load_from_file : Node → Option NodeConfig
  unfolding peers_of timings_of
  load_from_file doc =
      let server = at doc (codes "server") in
      let storage = at doc (codes "storage") in
      let auth = at doc (codes "auth") in
      let nodes : List Node =
        if is_defined (at doc (codes "peers")) then elements (at doc (codes "peers")) else [] in
      do
        peers ← peers_of nodes
        some (record {
          node_id = text_or (codes "node1") (at doc (codes "node_id"));
          log_level = text_or (codes "info") (at doc (codes "log_level"));
          server = record {
            bind_address = text_or (codes "0.0.0.0") (at server (codes "bind"));
            client_port = u16_or 2379 (at server (codes "client_port"));
            raft_port = u16_or 2380 (at server (codes "raft_port"));
            num_io_threads = int_or (pos 4) (at server (codes "io_threads"));
          };
          storage = record new.storage {
            data_dir = text_or (codes "/var/lib/orcdb") (at storage (codes "data_dir"));
            sync_writes = bool_or true (at storage (codes "sync_writes"));
          };
          auth = record {
            jwt_algorithm = text_or (codes "HS256") (at auth (codes "algorithm"));
            jwt_secret = text_or [] (at auth (codes "secret"));
            jwt_public_key_path = text_or [] (at auth (codes "public_key_path"));
            jwt_issuer = text_or (codes "orcdb") (at auth (codes "issuer"));
          };
          raft = timings_of (at doc (codes "raft"));
          peers = peers;
        })

  -- Load, with the document of the file, where a path is given.
  unfoldable pub load :
      (Text → Option ℤ) → (ℕ → Text) → (Text → Option Text) → Option Node → Option NodeConfig
  unfolding load_from_file load_from_env override_all
  load stoi show getenv file = do
    cfg ← elim file [ none ↦ load_from_env stoi show getenv | some doc ↦ load_from_file doc ]
    override_all stoi getenv cfg

-- The part of the RaftConfig of main that the model of the node has.
unfoldable pub raft_config : NodeConfig → RaftConfig
raft_config cfg = record {
  node_id = cfg.node_id;
  peers = map (λ p. p.id) cfg.peers;
  snapshot_threshold = 10000;
}
