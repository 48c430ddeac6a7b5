-- ===== src/Mesh.antt =====
-- hive-server-go/mesh.go: the peers that a server knows, from beacons, seeds, introductions and other
-- peers' lists. Times are milliseconds. Sockets, JSON text and the environment are outside: a beacon
-- is what json.Unmarshal reads of it, a number already converted by int(…), and the answers of other
-- servers are arguments. The order of the map's entries, which Go does not fix, is that of the list.
-- The operations run one at a time, as they do under the lock.
pub mod Select
pub mod Events
pub mod Known
pub mod Best
pub mod Fresh
pub mod Seen
pub mod Lasting
mod Examples
use ollama_local_hives_clust.Prelude.{
  ℕ, ◌+◌, ◌-◌, String, Bool, true, false, not, ◌&&◌, ◌||◌, Option, none, some, List, [], ◌∷◌, ltb,
  leb, if◌then◌else◌, Map, lookup, insert, delete, str_eq, ℤ, pos, ltb_ℤ, eqb_ℤ, add64, sub64, map,
}

-- float64 as far as calcLoad and GetBestPeer use it.
pub record LoadOps (F : Type 0) : Type 0 where
  pub zero_load : F
  pub one_load : F
  pub div_load : F → F → F
  pub less_load : F → F → Bool
  pub same_load : F → F → Bool
  pub of_int : ℤ → F

pub record PeerInfo (F : Type 0) : Type 0 where
  pub server_id : String
  pub endpoint : String
  pub max_concurrent : ℤ
  pub ollama_model : String
  pub last_seen : ℕ
  pub pending_jobs : ℤ
  pub running_jobs : ℤ
  pub clients : ℤ
  pub available_cap : ℤ
  pub load : F
  pub alive : Bool

pub record MeshDiscovery (F : Type 0) : Type 0 where
  pub server_id : String
  pub model_map : Map String
  pub peers : Map (PeerInfo F)
  pub peer_models : Map (List String)
  pub peer_models_time : Map ℕ

-- The fields of a beacon that have the type that is looked for.
pub record Beacon : Type 0 where
  pub server_id : Option String
  pub announce_addr : Option String
  pub source_endpoint : String
  pub max_concurrent : Option ℤ
  pub ollama_model : Option String
  pub pending_jobs : Option ℤ
  pub running_jobs : Option ℤ
  pub clients : Option ℤ
  pub available_capacity : Option ℤ

-- The answer to GET /api/status: server_id, queue.max_concurrent and ollama_model
pub record SeedStatus : Type 0 where
  pub server_id : Option String
  pub max_concurrent : Option ℤ
  pub ollama_model : Option String

abbrev pub or_else {ℓ} : {A : Type ℓ} → Option A → A → A
or_else none d = d
or_else (some a) d = a

-- announce_addr, if it is a text and not empty
abbrev pub announced : Beacon → Option String
announced b = elim b.announce_addr [ none ↦ none | some a ↦ if str_eq a "" then none else some a ]

abbrev pub max_int : ℤ → ℤ → ℤ
max_int a b = if ltb_ℤ b a then a else b

abbrev pub peer_timeout : ℕ
peer_timeout = 30000

module _ {F : Type 0} (ops : LoadOps F) where
  unfoldable pub new_mesh_discovery : String → Map String → MeshDiscovery F
  new_mesh_discovery id mapping = record {
    server_id = id;
    model_map = mapping;
    peers = [];
    peer_models = [];
    peer_models_time = [];
  }

  -- A new &PeerInfo with the five fields that RegisterPeer and probeSeed set.
  abbrev pub fresh_peer : String → String → ℤ → String → ℕ → PeerInfo F
  fresh_peer id endpoint max_concurrent model now = record {
    server_id = id;
    endpoint = endpoint;
    max_concurrent = max_concurrent;
    ollama_model = model;
    last_seen = now;
    pending_jobs = pos 0;
    running_jobs = pos 0;
    clients = pos 0;
    available_cap = pos 0;
    load = ops.zero_load;
    alive = false;
  }

  abbrev pub updated_peer : Beacon → ℕ → PeerInfo F → PeerInfo F
  updated_peer b now p = record p {
    endpoint = or_else (announced b) p.endpoint;
    last_seen = now;
    max_concurrent = or_else b.max_concurrent p.max_concurrent;
    ollama_model = or_else b.ollama_model p.ollama_model;
    pending_jobs = or_else b.pending_jobs p.pending_jobs;
    running_jobs = or_else b.running_jobs p.running_jobs;
    clients = or_else b.clients p.clients;
    available_cap = or_else b.available_capacity p.available_cap;
  }

  abbrev pub discovered_peer : Beacon → String → ℕ → PeerInfo F
  discovered_peer b id now = record {
    server_id = id;
    endpoint = or_else (announced b) b.source_endpoint;
    max_concurrent = or_else b.max_concurrent (pos 2);
    ollama_model = or_else b.ollama_model "";
    last_seen = now;
    pending_jobs = or_else b.pending_jobs (pos 0);
    running_jobs = or_else b.running_jobs (pos 0);
    clients = or_else b.clients (pos 0);
    available_cap = or_else b.available_capacity (pos 0);
    load = ops.zero_load;
    alive = false;
  }

  -- What the beacon makes of the entry of its sender.
  abbrev pub beacon_peer : Beacon → String → ℕ → Option (PeerInfo F) → PeerInfo F
  beacon_peer b id now none = discovered_peer b id now
  beacon_peer b id now (some p) = updated_peer b now p

  abbrev pub is_foreign : String → MeshDiscovery F → Bool
  is_foreign id m = not (str_eq id "" || str_eq id m.server_id)

  unfoldable pub handle_beacon : Beacon → ℕ → MeshDiscovery F → MeshDiscovery F
  handle_beacon b now m =
      let id = or_else b.server_id "" in
      if is_foreign id m
      then record m { peers = insert id (beacon_peer b id now (lookup id m.peers)) m.peers }
      else m

  -- exchangePeers, with the list that the other server gives
  unfoldable pub learn_peers : List (PeerInfo F) → ℕ → MeshDiscovery F → MeshDiscovery F
  learn_peers [] now m = m
  learn_peers (p ∷ ps) now m =
      let learned = elim (lookup p.server_id m.peers) as (λ _. MeshDiscovery F) [
        | some _ ↦ m
        | none ↦ record m { peers = insert p.server_id (record p { last_seen = now }) m.peers }
      ] in
      learn_peers ps now (if str_eq p.server_id m.server_id then m else learned)

  abbrev pub seen_seed : SeedStatus → String → String → ℕ → MeshDiscovery F → MeshDiscovery F
  seen_seed status base_url id now m = record m {
    peers =
        insert id
          (fresh_peer id base_url (or_else status.max_concurrent (pos 0))
            (or_else status.ollama_model "") now)
          m.peers;
  }

  -- The seed's base URL; its answers are `none` where a request or its decoding fails.
  unfoldable pub probe_seed :
      String
      → Option SeedStatus
      → Option (List (PeerInfo F))
      → ℕ
      → MeshDiscovery F
      → Bool × MeshDiscovery F
  probe_seed base_url none listed now m = (false, m)
  probe_seed base_url (some status) listed now m =
      let id = or_else status.server_id "" in
      if is_foreign id m
      then (
        true,
        elim listed as (λ _. MeshDiscovery F) [
          | none ↦ seen_seed status base_url id now m
          | some ps ↦ learn_peers ps now (seen_seed status base_url id now m)
        ],
      )
      else (false, m)

  unfoldable pub register_peer :
      String → String → ℤ → String → ℕ → MeshDiscovery F → MeshDiscovery F
  register_peer id endpoint max_concurrent model now m = record m {
    peers = insert id (fresh_peer id endpoint max_concurrent model now) m.peers;
  }

  unfoldable pub unregister_peer : String → MeshDiscovery F → MeshDiscovery F
  unregister_peer id m = record m { peers = delete id m.peers }

  -- A tick of cleanupLoop: p.LastSeen < now() - 30
  abbrev pub timed_out : ℕ → PeerInfo F → Bool
  timed_out now p = ltb (p.last_seen + peer_timeout) now

  unfoldable pub without_timed_out : ℕ → Map (PeerInfo F) → Map (PeerInfo F)
  without_timed_out now [] = []
  without_timed_out now (e ∷ es) =
      let rest = without_timed_out now es in if timed_out now e.1 then rest else e ∷ rest

  unfoldable pub cleanup : ℕ → MeshDiscovery F → MeshDiscovery F
  cleanup now m = record m { peers = without_timed_out now m.peers }

  -- healthPollLoop, for one peer that answers
  unfoldable pub health_answered : String → ℕ → MeshDiscovery F → MeshDiscovery F
  health_answered id now m = elim (lookup id m.peers) [
    | none ↦ m
    | some p ↦ record m { peers = insert id (record p { last_seen = now }) m.peers }
  ]

-- The body of /api/peers/register and /api/peers/introduce, as far as it is decoded
pub record PeerBody : Type 0 where
  pub server_id : String
  pub endpoint : String
  pub max_concurrent : ℤ
  pub ollama_model : String

pub data PeerReply : Type 0 where
  bad_json fields_required peer_skipped peer_registered : PeerReply

abbrev pub is_complete : PeerBody → Bool
is_complete b = not (str_eq b.server_id "" || str_eq b.endpoint "")

module _ {F : Type 0} (ops : LoadOps F) where
  unfoldable pub handle_peer_register :
      Option PeerBody → ℕ → MeshDiscovery F → PeerReply × MeshDiscovery F
  handle_peer_register none now m = (bad_json, m)
  handle_peer_register (some b) now m =
      if is_complete b
      then (
        peer_registered,
        register_peer ops b.server_id b.endpoint
            (if eqb_ℤ b.max_concurrent (pos 0) then pos 2 else b.max_concurrent) b.ollama_model now
            m,
      )
      else (fields_required, m)

  unfoldable pub handle_peer_introduce :
      Option PeerBody → ℕ → MeshDiscovery F → PeerReply × MeshDiscovery F
  handle_peer_introduce none now m = (bad_json, m)
  handle_peer_introduce (some b) now m =
      if is_complete b
      then (if str_eq b.server_id m.server_id then (peer_skipped, m) else (
        peer_registered,
        register_peer ops b.server_id b.endpoint b.max_concurrent b.ollama_model now m,
      ))
      else (fields_required, m)
