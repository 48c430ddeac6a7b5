-- ===== src/Mesh/Examples.antt =====
-- The theorems about hive-server-go/mesh.go with loads that are numbers, at a beacon of one peer.
use ollama_local_hives_clust.Prelude.{
  ℕ, ◌/◌, ◌≡◌, refl, true, none, some, List, [], ◌∷◌, pos, pos_part, ltb, ◌==◌, arith,
}
use ollama_local_hives_clust.Mesh.{
  LoadOps, MeshDiscovery, Beacon, PeerBody, new_mesh_discovery, handle_beacon, is_foreign,
}
use ollama_local_hives_clust.Mesh.Select.{get_alive_peers, get_best_peer}
use ollama_local_hives_clust.Mesh.Known.{Known, mesh_run-Known}
use ollama_local_hives_clust.Mesh.Events.{
  MeshEvent, beacon_came, seed_probed, peer_introduced, peer_posted, peer_removed, cleaned_up,
  peers_listed, mesh_run, self_named,
}
use ollama_local_hives_clust.Mesh.Fresh.{listed}
use ollama_local_hives_clust.Mesh.Lasting.{handle_beacon-listed}
use ollama_local_hives_clust.Mesh.Best.{IsLoadOrder, Chosen, get_best_peer-Chosen}

abbrev whole_loads : LoadOps ℕ
whole_loads = record {
  zero_load = 0;
  one_load = 1;
  div_load = λ a b. a / b;
  less_load = ltb;
  same_load = λ a b. a == b;
  of_int = pos_part;
}

whole_loads-IsLoadOrder : IsLoadOrder whole_loads
whole_loads-IsLoadOrder = record {
  order = record {
    irrefl = λ x. ground arith;
    trans = λ x y z a b. ground arith;
    split = λ x y z a. ground arith;
  };
  same = λ a b. ground arith;
}

abbrev beacon : Beacon
beacon = record {
  server_id = some "b";
  announce_addr = some "http://10.0.0.2:8000";
  source_endpoint = "http://172.17.0.1:8000";
  max_concurrent = some (pos 4);
  ollama_model = some "llama3:8b";
  pending_jobs = some (pos 0);
  running_jobs = some (pos 1);
  clients = none;
  available_capacity = some (pos 1);
}

abbrev mesh : MeshDiscovery ℕ
mesh = new_mesh_discovery whole_loads "a" []

abbrev peer_c : PeerBody
peer_c = record {
  server_id = "c";
  endpoint = "http://10.0.0.4:8000";
  max_concurrent = pos 2;
  ollama_model = "";
}

abbrev one_run : List (MeshEvent ℕ)
one_run =
    beacon_came beacon 1000
    ∷ seed_probed "http://10.0.0.3:8000" none none 2000
    ∷ peer_introduced (some peer_c) 3000
    ∷ peer_posted (some peer_c) 3500
    ∷ peers_listed 4000
    ∷ cleaned_up 40000
    ∷ []

mesh_run-Known_example :
    Known (self_named whole_loads one_run mesh) (mesh_run whole_loads one_run mesh)
mesh_run-Known_example = mesh_run-Known whole_loads one_run "a" []

mesh-Known : Known true mesh
unfolding new_mesh_discovery
mesh-Known = tt

mesh-foreign : is_foreign whole_loads "b" mesh ≡ true
unfolding new_mesh_discovery
mesh-foreign = refl

-- Two clean-ups in the 30 seconds, and another peer that comes and goes.
abbrev short_run : List (MeshEvent ℕ)
short_run =
    cleaned_up 15000 ∷ peer_posted (some peer_c) 16000 ∷ peer_removed "c" ∷ cleaned_up 30000 ∷ []

handle_beacon-listed_example :
    listed whole_loads "b"
      (get_alive_peers whole_loads 30999
        (mesh_run whole_loads short_run (handle_beacon whole_loads beacon 1000 mesh))).0
    ≡ true
handle_beacon-listed_example =
    handle_beacon-listed whole_loads beacon 1000 30999 short_run mesh mesh-foreign mesh-Known
      (
        (omega arith, omega arith),
        ((omega arith, omega arith), (refl, ((omega arith, omega arith), tt))),
      )
      (omega arith)

get_best_peer-Chosen_example :
    Chosen whole_loads whole_loads-IsLoadOrder 2000
      (get_alive_peers whole_loads 2000 (handle_beacon whole_loads beacon 1000 mesh)).0
      (get_best_peer whole_loads 2000 (handle_beacon whole_loads beacon 1000 mesh))
get_best_peer-Chosen_example =
    get_best_peer-Chosen whole_loads whole_loads-IsLoadOrder 2000
      (handle_beacon whole_loads beacon 1000 mesh)
