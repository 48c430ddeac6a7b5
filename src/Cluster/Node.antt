-- ===== src/Cluster/Node.antt =====
-- internal/cluster/node.go: a node, its load score, its free slots and its health.
use ollama_local_hives_clust.Prelude.{
  ℕ, ◌+◌, String, Bool, true, false, ◌&&◌, List, ltb, if◌then◌else◌, ℤ, pos, ltb_ℤ, sub64,
}

-- `unset` is the zero value "" of a node that is not registered yet.
pub data NodeStatus : Type 0 where
  unset online offline drain : NodeStatus

-- `F` is float64.
pub record Node (F : Type 0) : Type 0 where
  pub id : String
  pub name : String
  pub address : String
  pub port : ℤ
  pub hardware : String
  pub gpu_model : String
  pub gpu_memory : ℤ
  pub vram_used : F
  pub vram_total : F
  pub memory_used : F
  pub memory_total : F
  pub cpu_usage : F
  pub capacity : ℤ
  pub active_conns : ℤ
  pub queued_reqs : ℤ
  pub models : List String
  pub status : NodeStatus
  pub last_heartbeat : ℕ
  pub joined_at : ℕ
  pub ollama_version : String

-- The float64 operations that the load score takes.
pub record FloatOps (F : Type 0) : Type 0 where
  pub zero_f : F
  pub hundred : F
  pub fifth : F
  pub two_fifths : F
  pub add_f : F → F → F
  pub mul_f : F → F → F
  pub div_f : F → F → F
  pub less : F → F → Bool
  pub of_int : ℤ → F

-- The values of a load report.
pub record Load (F : Type 0) : Type 0 where
  pub cpu : F
  pub mem_used : F
  pub mem_total : F
  pub v_used : F
  pub v_total : F
  pub conns : ℤ

abbrev pub is_online : NodeStatus → Bool
is_online online = true
is_online _ = false

module _ {F : Type 0} where
  unfoldable pub update_load : Node F → Load F → ℕ → Node F
  update_load n l now = record n {
    cpu_usage = l.cpu;
    memory_used = l.mem_used;
    memory_total = l.mem_total;
    vram_used = l.v_used;
    vram_total = l.v_total;
    active_conns = l.conns;
    last_heartbeat = now;
  }

  -- used / total, or 0.0 where the total is not positive
  abbrev ratio : FloatOps F → F → F → F
  ratio ops used total = if ops.less ops.zero_f total then ops.div_f used total else ops.zero_f

  unfoldable pub load_score : FloatOps F → Node F → F
  load_score ops n =
      let cpu_score = ops.div_f n.cpu_usage ops.hundred in
      let mem_score = ratio ops n.memory_used n.memory_total in
      let vram_score = ratio ops n.vram_used n.vram_total in
      let conn_score =
        if ltb_ℤ (pos 0) n.capacity
        then ops.div_f (ops.of_int n.active_conns) (ops.of_int n.capacity)
        else ops.zero_f in
      ops.add_f
        (ops.add_f (ops.add_f (ops.mul_f cpu_score ops.fifth) (ops.mul_f mem_score ops.fifth))
          (ops.mul_f vram_score ops.two_fifths))
        (ops.mul_f conn_score ops.fifth)

  unfoldable pub available_slots : Node F → ℤ
  available_slots n =
      let slots = sub64 n.capacity n.active_conns in if ltb_ℤ slots (pos 0) then pos 0 else slots

  -- n.Status == NodeOnline && time.Since(n.LastHeartbeat) < timeout
  unfoldable pub is_healthy : Node F → ℕ → ℕ → Bool
  is_healthy n timeout now = is_online n.status && ltb now (n.last_heartbeat + timeout)

  unfoldable pub set_models : Node F → List String → Node F
  set_models n models = record n { models = models }
