-- ===== src/Util/Config/Peers.antt =====
-- util/Config.cpp: the list of peers in the variable PEERS.
use distributed_key_value_st.Base.{
  ℕ, zero, suc, ◌+◌, ◌*◌, ◌%◌, ◌≤◌, ◌<◌, ◌%◌, ◌^◌, ◌≡◌, refl, ap, ◌∙◌, Option, none, some, List, [],
  ◌∷◌, ◌++◌, map, arith, Text, codes, length, length-append, All, Option-cases, inl, inr,
}
use distributed_key_value_st.Base.Int.{ℤ, pos}
use distributed_key_value_st.Http.Url.{cut_at}
use distributed_key_value_st.Http.Parser.Lines.{Avoids, Avoids-append, cut_at-first}
use distributed_key_value_st.Raft.Node.State.{quorum_size}
use distributed_key_value_st.Util.Config.{
  PeerConfig, NodeConfig, new, YamlLib, cut_at_last, to_u16, port_of, split_entry, parse_peers,
  env_or, override_port, override_peers, override_all, load_from_env, load, raft_config,
}

cut_at_last-none : (c : ℕ) (s : Text) → Avoids c s → cut_at_last c s ≡ none
unfolding cut_at_last
cut_at_last-none c [] h = refl
cut_at_last-none c (a ∷ s) h = rw (cut_at_last-none c s h.1) (ground (arith, h))

cut_at_last-last : (c : ℕ) (s t : Text) → Avoids c t → cut_at_last c (s ++ c ∷ t) ≡ some (s, t)
unfolding cut_at_last
cut_at_last-last c [] t h = rw (cut_at_last-none c t h) (ground arith)
cut_at_last-last c (a ∷ s) t h = rw (cut_at_last-last c s t h) refl

cut_at-none : (c : ℕ) (s : Text) → Avoids c s → cut_at c s ≡ none
unfolding cut_at
cut_at-none c [] h = refl
cut_at-none c (a ∷ s) h = rw (cut_at-none c s h.1) (ground (arith, h))

module _ (stoi : Text → Option ℤ) (show : ℕ → Text) where
  -- host:port
  abbrev pub address : Text × ℕ → Text
  address p = p.0 ++ b':' ∷ show p.1

  -- The addresses with commas between them.
  pub print_peers : List (Text × ℕ) → Text
  print_peers [] = []
  print_peers (p ∷ []) = address p
  print_peers (p ∷ q ∷ ps) = address p ++ b',' ∷ print_peers (q ∷ ps)

  -- The host has no comma, and the digits of the port are read back by std::stoi.
  abbrev pub PeerFits : Text × ℕ → Type 0
  PeerFits p =
      Avoids b',' p.0
      × Avoids b',' (show p.1)
      × Avoids b':' (show p.1)
      × (stoi (show p.1) ≡ some (pos p.1))
      × (p.1 < 2 ^ 16)

  -- The peers, numbered from `index`.
  pub named : (ℕ → Text → Text) → ℕ → List (Text × ℕ) → List PeerConfig
  named name index [] = []
  named name index (p ∷ ps) =
      record { id = name index p.0; host = p.0; raft_port = p.1 } ∷ named name (suc index) ps

  split_entry-address : (p : Text × ℕ) → PeerFits p → split_entry stoi (address p) ≡ some p
  unfolding split_entry port_of to_u16
  split_entry-address p (host, comma, colon, read, word) =
      let port : p.1 % 2 ^ 16 ≡ p.1 = omega arith in
      rw (cut_at_last-last b':' p.0 (show p.1) colon, split_entry)
        (rw (read, port_of) (ap (λ n. some (p.0, n)) port))

  address-Avoids : (p : Text × ℕ) → PeerFits p → Avoids b',' (address p)
  address-Avoids p (host, comma, colon, read, word) =
      Avoids-append b',' p.0 (b':' ∷ show p.1) host (ground arith, comma)

  parse_peers-nil :
      (name : ℕ → Text → Text) (rounds index : ℕ) → parse_peers stoi name rounds index [] ≡ some []
  unfolding parse_peers
  parse_peers-nil name zero index = refl
  parse_peers-nil name (suc rounds) index = refl

  module _ (name : ℕ → Text → Text) where
    abbrev peer_of : ℕ → Text × ℕ → PeerConfig
    peer_of index p = record { id = name index p.0; host = p.0; raft_port = p.1 }

    -- One round, at an entry with a comma behind it, and at the last entry.
    parse_peers-cons :
        (rounds index : ℕ) (entry rest : Text) (p : Text × ℕ) (peers : List PeerConfig)
        → Avoids b',' entry
        → split_entry stoi entry ≡ some p
        → parse_peers stoi name rounds (suc index) rest ≡ some peers
        → parse_peers stoi name (suc rounds) index (entry ++ b',' ∷ rest)
          ≡ some (peer_of index p ∷ peers)
    unfolding parse_peers
    parse_peers-cons rounds index [] rest p peers h split others =
        rw (split, others, parse_peers) refl
    parse_peers-cons rounds index (c ∷ entry) rest p peers h split others =
        rw (cut_at-first b',' (c ∷ entry) rest h, split, others, parse_peers) refl

    parse_peers-last :
        (rounds index c : ℕ) (entry : Text) (p : Text × ℕ)
        → Avoids b',' (c ∷ entry)
        → split_entry stoi (c ∷ entry) ≡ some p
        → parse_peers stoi name (suc rounds) index (c ∷ entry) ≡ some (peer_of index p ∷ [])
    unfolding parse_peers
    parse_peers-last rounds index c entry p h split =
        rw (cut_at-none b',' (c ∷ entry) h, split, parse_peers) refl

    parse_peers-address :
        (rounds index : ℕ) (p : Text × ℕ)
        → PeerFits p
        → parse_peers stoi name (suc rounds) index (address p) ≡ some (peer_of index p ∷ [])
    parse_peers-address rounds index p fits =
        first p.0 (address-Avoids p fits) (split_entry-address p fits)
      where
        first :
            (host : Text)
            → Avoids b',' (host ++ b':' ∷ show p.1)
            → split_entry stoi (host ++ b':' ∷ show p.1) ≡ some p
            → parse_peers stoi name (suc rounds) index (host ++ b':' ∷ show p.1)
              ≡ some (peer_of index p ∷ [])
        first [] h e = parse_peers-last rounds index b':' (show p.1) p h e
        first (c ∷ host) h e = parse_peers-last rounds index c (host ++ b':' ∷ show p.1) p h e

    parse_peers-print :
        (rounds index : ℕ) (ps : List (Text × ℕ))
        → length ps ≤ rounds
        → All PeerFits ps
        → parse_peers stoi name rounds index (print_peers ps) ≡ some (named name index ps)
    unfolding print_peers named
    parse_peers-print rounds index [] h fits = parse_peers-nil name rounds index
    parse_peers-print zero index (p ∷ ps) h fits = absurd (omega arith)
    parse_peers-print (suc rounds) index (p ∷ []) h fits = parse_peers-address rounds index p fits.0
    parse_peers-print (suc rounds) index (p ∷ q ∷ ps) h (fits, others) =
        parse_peers-cons rounds index (address p) (print_peers (q ∷ ps)) p
          (named name (suc index) (q ∷ ps)) (address-Avoids p fits) (split_entry-address p fits)
          (parse_peers-print rounds (suc index) (q ∷ ps) (omega arith) others)

  length-print_peers : (ps : List (Text × ℕ)) → length ps ≤ length (print_peers ps)
  unfolding print_peers
  length-print_peers [] = omega arith
  length-print_peers (p ∷ []) = omega (arith, length-append p.0 (b':' ∷ show p.1))
  length-print_peers (p ∷ q ∷ ps) =
      omega (
        arith,
        length-append (address p) (b',' ∷ print_peers (q ∷ ps)),
        length-print_peers (q ∷ ps),
      )

  map-named :
      (index : ℕ) (ps : List (Text × ℕ))
      → map (λ p. p.id) (named (λ i host. host) index ps) ≡ map (λ p. p.0) ps
  unfolding named
  map-named index [] = refl
  map-named index (p ∷ ps) = ap (◌∷◌ p.0) (map-named (suc index) ps)

-- Overriding by the same variable gives the same.
override_port-env :
    (stoi : Text → Option ℤ) (getenv : Text → Option Text) (name otherwise : Text) (port : ℕ)
    → port_of stoi (env_or getenv otherwise name) ≡ some port
    → override_port stoi getenv name port ≡ some port
unfolding override_port env_or
override_port-env stoi getenv name otherwise port h = elim (Option-cases (getenv name)) [
  | inl unset ↦ rw (unset, override_port) refl
  | inr (v, set) ↦ ground (arith, set)
]

env_or-set :
    (getenv : Text → Option Text) (name otherwise v : Text)
    → getenv name ≡ some v
    → env_or getenv otherwise name ≡ v
unfolding env_or
env_or-set getenv name otherwise v h = rw (h, env_or) refl

env_or-twice :
    (getenv : Text → Option Text) (name otherwise : Text)
    → env_or getenv (env_or getenv otherwise name) name ≡ env_or getenv otherwise name
unfolding env_or
env_or-twice getenv name otherwise = elim (Option-cases (getenv name)) [
  | inl unset ↦ ground (arith, unset)
  | inr (v, set) ↦ ground (arith, set)
]

-- What LoadFromEnv returns.
abbrev from_env : (Text → Option Text) → ℕ → ℕ → List PeerConfig → NodeConfig
from_env getenv client_port raft_port peers =
    let env = env_or getenv in
    record new {
      node_id = env (codes "node1") (codes "NODE_ID");
      log_level = env (codes "info") (codes "LOG_LEVEL");
      server = record new.server { client_port = client_port; raft_port = raft_port };
      storage = record new.storage { data_dir = env (codes "/var/lib/orcdb") (codes "DATA_DIR") };
      auth = record new.auth {
        jwt_secret = env [] (codes "JWT_SECRET");
        jwt_algorithm = env (codes "HS256") (codes "JWT_ALGORITHM");
      };
      peers = peers;
    }

load_from_env_lem :
    (stoi : Text → Option ℤ) (show : ℕ → Text) (getenv : Text → Option Text)
    (client_port raft_port : ℕ) (list : Text) (peers : List PeerConfig)
    → port_of stoi (env_or getenv (codes "2379") (codes "CLIENT_PORT")) ≡ some client_port
    → port_of stoi (env_or getenv (codes "2380") (codes "RAFT_PORT")) ≡ some raft_port
    → env_or getenv [] (codes "PEERS") ≡ list
    → parse_peers stoi (λ index host. codes "node" ++ show index) (length list) 2 list ≡ some peers
    → load_from_env stoi show getenv ≡ some (from_env getenv client_port raft_port peers)
unfolding load_from_env
load_from_env_lem stoi show getenv client_port raft_port list peers client raft is_list parsed' =
    rw (is_list, client, raft, parsed', load_from_env) refl

override_all_lem :
    (stoi : Text → Option ℤ) (getenv : Text → Option Text) (cfg : NodeConfig)
    (client_port raft_port : ℕ) (peers : List PeerConfig)
    → override_port stoi getenv (codes "CLIENT_PORT") cfg.server.client_port ≡ some client_port
    → override_port stoi getenv (codes "RAFT_PORT") cfg.server.raft_port ≡ some raft_port
    → override_peers stoi getenv cfg.peers ≡ some peers
    → (c : NodeConfig) × (override_all stoi getenv cfg ≡ some c)
      × (c.peers ≡ peers)
      × (c.server.client_port ≡ client_port)
      × (c.node_id ≡ env_or getenv cfg.node_id (codes "NODE_ID"))
unfolding override_all
override_all_lem stoi getenv cfg client_port raft_port peers client raft listed = (
  record cfg {
    node_id = env_or getenv cfg.node_id (codes "NODE_ID");
    auth = record cfg.auth { jwt_secret = env_or getenv cfg.auth.jwt_secret (codes "JWT_SECRET") };
    storage = record cfg.storage {
      data_dir = env_or getenv cfg.storage.data_dir (codes "DATA_DIR");
    };
    log_level = env_or getenv cfg.log_level (codes "LOG_LEVEL");
    server = record cfg.server { client_port = client_port; raft_port = raft_port };
    peers = peers;
  },
  rw (client, raft, listed, override_all) refl,
  refl,
  refl,
  refl,
)

override_peers-set :
    (stoi : Text → Option ℤ) (getenv : Text → Option Text) (list : Text)
    (old peers : List PeerConfig)
    → getenv (codes "PEERS") ≡ some list
    → parse_peers stoi (λ index host. host) (length list) 1 list ≡ some peers
    → override_peers stoi getenv old ≡ some peers
unfolding override_peers
override_peers-set stoi getenv list old peers set parsed' = rw (set, override_peers) parsed'

raft_config-peers :
    (cfg : NodeConfig) (peers : List PeerConfig)
    → cfg.peers ≡ peers
    → (raft_config cfg).peers ≡ map (λ p. p.id) peers
unfolding raft_config
raft_config-peers cfg peers h = ap (map (λ p. p.id)) h

quorum_size-majority :
    (cfg : NodeConfig) (n : ℕ)
    → length (raft_config cfg).peers ≡ n
    → n + 1 < 2 * quorum_size (raft_config cfg)
unfolding quorum_size
quorum_size-majority cfg n h = omega (arith, h)

length-map {ℓ κ} :
    {A : Type ℓ} {B : Type κ} (f : A → B) (xs : List A) → length (map f xs) ≡ length xs
length-map f [] = refl
length-map f (x ∷ xs) = omega (arith, length-map f xs)

-- With PEERS the addresses of `ps` and no file, where the ports of the environment, or 2379 and 2380,
-- are read: Load returns, with exactly these peers in their order, each known by its host, also in the
-- configuration of the Raft node, where two quorums are more than all nodes. The client port and the
-- node's identifier are those of the environment, or else the defaults.
pub load-print_peers :
    (yaml : YamlLib) (stoi : Text → Option ℤ) (show : ℕ → Text) (getenv : Text → Option Text)
    (ps : List (Text × ℕ)) (client_port raft_port : ℕ)
    → getenv (codes "PEERS") ≡ some (print_peers stoi show ps)
    → All (PeerFits stoi show) ps
    → port_of stoi (env_or getenv (codes "2379") (codes "CLIENT_PORT")) ≡ some client_port
    → port_of stoi (env_or getenv (codes "2380") (codes "RAFT_PORT")) ≡ some raft_port
    → (cfg : NodeConfig) × (load yaml stoi show getenv none ≡ some cfg)
      × (cfg.peers ≡ named stoi show (λ index host. host) 1 ps)
      × ((raft_config cfg).peers ≡ map (λ p. p.0) ps)
      × (length ps + 1 < 2 * quorum_size (raft_config cfg))
      × (cfg.server.client_port ≡ client_port)
      × (cfg.node_id ≡ env_or getenv (codes "node1") (codes "NODE_ID"))
unfolding load
load-print_peers yaml stoi show getenv ps client_port raft_port set fits client raft =
    let list = print_peers stoi show ps in
    let is_list = env_or-set getenv (codes "PEERS") [] list set in
    let enough = length-print_peers stoi show ps in
    let numbered = λ (index : ℕ) (host : Text). codes "node" ++ show index in
    let by_host = λ (index : ℕ) (host : Text). host in
    let first = parse_peers-print stoi show numbered (length list) 2 ps enough fits in
    let second = parse_peers-print stoi show by_host (length list) 1 ps enough fits in
    let base = from_env getenv client_port raft_port (named stoi show numbered 2 ps) in
    let loaded =
      load_from_env_lem stoi show getenv client_port raft_port list (named stoi show numbered 2 ps)
        client raft is_list first in
    let peers_again : override_peers stoi getenv base.peers ≡ some (named stoi show by_host 1 ps) =
      override_peers-set stoi getenv list base.peers (named stoi show by_host 1 ps) set second in
    let (cfg, overridden, peers, port, id) =
      override_all_lem stoi getenv base client_port raft_port (named stoi show by_host 1 ps)
        (override_port-env stoi getenv (codes "CLIENT_PORT") (codes "2379") client_port client)
        (override_port-env stoi getenv (codes "RAFT_PORT") (codes "2380") raft_port raft)
        peers_again in
    let ids : (raft_config cfg).peers ≡ map (λ p. p.0) ps =
      raft_config-peers cfg (named stoi show by_host 1 ps) peers ∙ map-named stoi show 1 ps in
    (
      cfg,
      rw (loaded, load) overridden,
      peers,
      ids,
      quorum_size-majority cfg (length ps) (ap length ids ∙ length-map (λ p. p.0) ps),
      port,
      id ∙ env_or-twice getenv (codes "NODE_ID") (codes "node1"),
    )
