-- ===== src/Cluster/Manager.antt =====
-- internal/cluster/manager.go: the registry of nodes and its handlers. `updates` counts the calls
-- of `onUpdate`, where one is set. JSON is decoded before a handler: `none` is a decoding error.
use ollama_local_hives_clust.Prelude.{
  ℕ, ◌+◌, String, Bool, ◌&&◌, ◌||◌, Option, none, some, List, [], ◌∷◌, map, ltb, if◌then◌else◌,
  str_eq, length, Map, lookup, insert, delete, ℤ, pos,
}
use ollama_local_hives_clust.Cluster.Node.{
  Node, Load, unset, online, offline, is_online, update_load, is_healthy, set_models,
}

pub record Manager (F : Type 0) : Type 0 where
  pub nodes : Map (Node F)
  pub heartbeat_timeout : ℕ
  pub on_update : Bool
  pub updates : ℕ

-- if m.onUpdate != nil { m.onUpdate() }
abbrev pub notified : {F : Type 0} → Manager F → Manager F
notified m = if m.on_update then record m { updates = m.updates + 1 } else m

pub record RegistrationPayload : Type 0 where
  pub reg_id : String
  pub reg_name : String
  pub reg_address : String
  pub reg_port : ℤ
  pub reg_hardware : String
  pub reg_gpu_model : String
  pub reg_gpu_memory : ℤ
  pub reg_capacity : ℤ
  pub reg_models : List String
  pub reg_ollama_version : String

-- `hb_models` is `none` where the JSON has no models (a nil slice).
pub record HeartbeatPayload (F : Type 0) : Type 0 where
  pub hb_node_id : String
  pub hb_load : Load F
  pub hb_models : Option (List String)

pub data Reply : Type 0 where
  method_not_allowed bad_request : Reply
  registered : String → Reply
  beat_ok : Reply
  deregistered : Reply

module _ {F : Type 0} where
  unfoldable pub new_manager : ℕ → Bool → Manager F
  new_manager timeout on_update = record {
    nodes = [];
    heartbeat_timeout = timeout;
    on_update = on_update;
    updates = 0;
  }

  -- A node that is known keeps its load, its joining time and its Ollama version.
  abbrev pub merged : Node F → Node F → ℕ → Node F
  merged existing node now = record existing {
    name = node.name;
    address = node.address;
    port = node.port;
    hardware = node.hardware;
    gpu_model = node.gpu_model;
    gpu_memory = node.gpu_memory;
    capacity = node.capacity;
    models = node.models;
    status = online;
    last_heartbeat = now;
  }

  abbrev pub joined : Node F → ℕ → ℕ → Node F
  joined node now later = record node { status = online; last_heartbeat = now; joined_at = later }

  -- The second clock reading is the one for `JoinedAt`.
  unfoldable pub register_node : Manager F → Node F → ℕ → ℕ → Manager F
  register_node m node now later = notified (elim (lookup node.id m.nodes) [
    | some existing ↦ record m { nodes = insert node.id (merged existing node now) m.nodes }
    | none ↦ record m { nodes = insert node.id (joined node now later) m.nodes }
  ])

  unfoldable pub update_node_heartbeat : Manager F → String → Load F → ℕ → Manager F
  update_node_heartbeat m id l now = elim (lookup id m.nodes) [
    | none ↦ m
    | some node ↦ notified (record m { nodes = insert id (update_load node l now) m.nodes })
  ]

  unfoldable pub deregister_node : Manager F → String → Manager F
  deregister_node m id = elim (lookup id m.nodes) [
    | none ↦ m
    | some node ↦ notified (record m { nodes = delete id m.nodes })
  ]

  unfoldable pub get_node : Manager F → String → Option (Node F)
  get_node m id = lookup id m.nodes

  -- `range` over a map visits the entries in an order of the runtime's: here that of the list.
  abbrev pub values : Map (Node F) → List (Node F)
  values = map (λ e. e.1)

  unfoldable pub get_nodes : Manager F → List (Node F)
  get_nodes m = values m.nodes

  abbrev pub keep_healthy : ℕ → ℕ → List (Node F) → List (Node F)
  keep_healthy timeout now [] = []
  keep_healthy timeout now (n ∷ ns) =
      let rest = keep_healthy timeout now ns in
      if is_healthy n timeout now && is_online n.status then n ∷ rest else rest

  unfoldable pub get_healthy_nodes : Manager F → ℕ → List (Node F)
  get_healthy_nodes m now = keep_healthy m.heartbeat_timeout now (values m.nodes)

  -- node.Status == NodeOnline && time.Since(node.LastHeartbeat) > m.heartbeatTimeout
  abbrev pub is_stale : ℕ → ℕ → Node F → Bool
  is_stale timeout now n = is_online n.status && ltb (n.last_heartbeat + timeout) now

  abbrev pub mark : ℕ → ℕ → Node F → Node F
  mark timeout now n = if is_stale timeout now n then record n { status = offline } else n

  abbrev pub mark_all : ℕ → ℕ → Map (Node F) → Map (Node F)
  mark_all timeout now [] = []
  mark_all timeout now ((id, n) ∷ m) = (id, mark timeout now n) ∷ mark_all timeout now m

  -- One tick of the loop in `CheckStale`.
  unfoldable pub check_stale : Manager F → ℕ → Manager F
  check_stale m now = notified (record m { nodes = mark_all m.heartbeat_timeout now m.nodes })

  -- The zero values of float64 come from the load `idle`.
  unfoldable pub node_of : Load F → RegistrationPayload → Node F
  node_of idle reg = record {
    id = reg.reg_id;
    name = reg.reg_name;
    address = reg.reg_address;
    port = reg.reg_port;
    hardware = reg.reg_hardware;
    gpu_model = reg.reg_gpu_model;
    gpu_memory = reg.reg_gpu_memory;
    vram_used = idle.v_used;
    vram_total = idle.v_total;
    memory_used = idle.mem_used;
    memory_total = idle.mem_total;
    cpu_usage = idle.cpu;
    capacity = reg.reg_capacity;
    active_conns = pos 0;
    queued_reqs = pos 0;
    models = reg.reg_models;
    status = unset;
    last_heartbeat = 0;
    joined_at = 0;
    ollama_version = reg.reg_ollama_version;
  }

  unfoldable pub handle_register :
      Load F → Manager F → Bool → Option RegistrationPayload → ℕ → ℕ → Reply × Manager F
  unfolding node_of
  handle_register idle m is_post body now later =
      if is_post
      then (elim body [
        | none ↦ (bad_request, m)
        | some reg ↦
            if str_eq reg.reg_id "" || str_eq reg.reg_address ""
            then (bad_request, m)
            else (registered reg.reg_id, register_node m (node_of idle reg) now later)
      ])
      else (method_not_allowed, m)

  abbrev pub with_models : Manager F → String → Option (List String) → Manager F
  with_models m id none = m
  with_models m id (some models) = elim (get_node m id) [
    | none ↦ m
    | some node ↦ record m { nodes = insert id (set_models node models) m.nodes }
  ]

  unfoldable pub handle_heartbeat :
      Manager F → Bool → Option (HeartbeatPayload F) → ℕ → Reply × Manager F
  handle_heartbeat m is_post body now =
      if is_post
      then (elim body [
        | none ↦ (bad_request, m)
        | some hb ↦ (
          beat_ok,
          with_models (update_node_heartbeat m hb.hb_node_id hb.hb_load now) hb.hb_node_id
              hb.hb_models,
        )
      ])
      else (method_not_allowed, m)

  unfoldable pub handle_deregister : Manager F → Bool → Option String → Reply × Manager F
  handle_deregister m is_post body =
      if is_post
      then (elim body [ none ↦ (bad_request, m) | some id ↦ (deregistered, deregister_node m id) ])
      else (method_not_allowed, m)

  -- `HandleHealth`: the numbers of all nodes and of the online ones
  unfoldable pub handle_health : Manager F → ℕ → ℕ × ℕ
  handle_health m now = (length (get_nodes m), length (get_healthy_nodes m now))
