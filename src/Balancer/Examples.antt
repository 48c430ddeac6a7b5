-- ===== src/Balancer/Examples.antt =====
-- The theorems about internal/balancer/balancer.go at two nodes, with natural numbers for float64.
use ollama_local_hives_clust.Prelude.{
  ℕ, ◌+◌, ◌*◌, ◌/◌, ◌≡◌, ◌%◌, refl, String, true, false, some, List, [], ◌∷◌, ◌++◌, arith, length,
  ltb, take, drop, map, pos, pos_part, sub64, ◌⊎◌,
}
use ollama_local_hives_clust.Cluster.Node.{
  Node, FloatOps, online, load_score, available_slots, is_healthy,
}
use ollama_local_hives_clust.Balancer.{
  IsStrictWeak, Balancer, select_node, least_load, best_capacity, by_strategy, lighter,
}
use ollama_local_hives_clust.Balancer.Choice.{Selected, select_node-Selected}
use ollama_local_hives_clust.Balancer.Rotation.{picks, round_robin-rotation}
use ollama_local_hives_clust.Balancer.Sorting.{insertion_runtime, sort}

abbrev pub ℕ_ops : FloatOps ℕ
ℕ_ops = record {
  zero_f = 0;
  hundred = 1;
  fifth = 1;
  two_fifths = 2;
  add_f = λ a b. a + b;
  mul_f = λ a b. a * b;
  div_f = λ a b. a / b;
  less = ltb;
  of_int = pos_part;
}

abbrev pub sample_node : String → ℕ → ℕ → Node ℕ
sample_node id cpu capacity = record {
  id = id;
  name = id;
  address = "10.0.0.1";
  port = pos 11434;
  hardware = "";
  gpu_model = "";
  gpu_memory = pos 0;
  vram_used = 0;
  vram_total = 0;
  memory_used = 0;
  memory_total = 0;
  cpu_usage = cpu;
  capacity = pos capacity;
  active_conns = pos 0;
  queued_reqs = pos 0;
  models = [];
  status = online;
  last_heartbeat = 100;
  joined_at = 0;
  ollama_version = "";
}

abbrev two_nodes : List (Node ℕ)
two_nodes = sample_node "a" 9 2 ∷ sample_node "b" 3 4 ∷ []

abbrev balancer : String → Balancer
balancer strategy = record { strategy = strategy; rr_index = 3; rand_calls = 0 }

ltb_irrefl : (x : ℕ) → ltb x x ≡ false
ltb_irrefl x = ground arith

ltb_chain : (x y z : ℕ) → ltb x y ≡ true → ltb y z ≡ true → ltb x z ≡ true
ltb_chain x y z below above = ground arith

ltb_split : (x y z : ℕ) → ltb x z ≡ true → (ltb x y ≡ true) ⊎ (ltb y z ≡ true)
ltb_split x y z below = ground arith

lighter-IsStrictWeak : IsStrictWeak (lighter (insertion_runtime (Node ℕ)) ℕ_ops)
lighter-IsStrictWeak = record {
  irrefl = λ x. ltb_irrefl (load_score ℕ_ops x);
  trans = λ x y z. ltb_chain (load_score ℕ_ops x) (load_score ℕ_ops y) (load_score ℕ_ops z);
  split = λ x y z. ltb_split (load_score ℕ_ops x) (load_score ℕ_ops y) (load_score ℕ_ops z);
}

selects_b :
    (select_node (insertion_runtime (Node ℕ)) ℕ_ops (balancer "least_load") two_nodes 200).0
    ≡ some (sample_node "b" 3 4)
unfolding select_node by_strategy least_load sort load_score is_healthy available_slots sub64
selects_b = refl

selects_b_by_capacity :
    (select_node (insertion_runtime (Node ℕ)) ℕ_ops (balancer "capacity") two_nodes 200).0
    ≡ some (sample_node "b" 3 4)
unfolding select_node by_strategy best_capacity sort is_healthy available_slots sub64
selects_b_by_capacity = refl

select_node-Selected_example :
    Selected
      (insertion_runtime (Node ℕ))
      ℕ_ops
      two_nodes
      200
      (select_node (insertion_runtime (Node ℕ)) ℕ_ops (balancer "random") two_nodes 200)
select_node-Selected_example =
    select_node-Selected (insertion_runtime (Node ℕ)) ℕ_ops (balancer "random") two_nodes 200

round_robin-rotation_example :
    picks (insertion_runtime (Node ℕ)) ℕ_ops (balancer "round_robin") two_nodes (length two_nodes)
    ≡ map some (drop (3 % length two_nodes) two_nodes ++ take (3 % length two_nodes) two_nodes)
round_robin-rotation_example =
    round_robin-rotation (insertion_runtime (Node ℕ)) ℕ_ops (balancer "round_robin") two_nodes
      (omega arith)
