-- ===== src/OpenAi/Listing.antt =====
-- handleOpenAIListModels of hive-server-go/openai_compat.go: the models of Ollama, of the alive peers and
-- the default one. An entry's object and time are left out.
use ollama_local_hives_clust.Prelude.{
  ℕ, String, Option, none, some, List, [], ◌∷◌, ◌++◌, Map, lookup, insert,
}
use ollama_local_hives_clust.Mesh.{LoadOps, PeerInfo, MeshDiscovery}
use ollama_local_hives_clust.Mesh.Select.{get_alive_peers, get_cached_peer_models}

pub record OpenAiModel : Type 0 where
  pub id : String
  pub owned_by : String

-- The map `models` and the list `modelOrder`
pub record Listing : Type 0 where
  pub models : Map OpenAiModel
  pub order : List String

abbrev pub put_model : OpenAiModel → Listing → Listing
put_model m l = record { models = insert m.id m l.models; order = l.order ++ m.id ∷ [] }

-- if _, exists := models[id]; !exists { … }
unfoldable pub add_model : OpenAiModel → Listing → Listing
add_model m l = elim (lookup m.id l.models) [ none ↦ put_model m l | some _ ↦ l ]

unfoldable pub add_models : List OpenAiModel → Listing → Listing
add_models [] l = l
add_models (m ∷ ms) l = add_models ms (add_model m l)

-- The loop over Ollama's models has no such test.
unfoldable pub add_local : List String → Listing → Listing
add_local [] l = l
add_local (n ∷ ns) l = add_local ns (put_model (record { id = n; owned_by = "local" }) l)

abbrev pub owned_models : String → List String → List OpenAiModel
owned_models owner [] = []
owned_models owner (n ∷ ns) = (record { id = n; owned_by = owner }) ∷ owned_models owner ns

unfoldable pub in_order : Map OpenAiModel → List String → List OpenAiModel
in_order models [] = []
in_order models (n ∷ ns) =
    let rest = in_order models ns in
    elim (lookup n models) as (λ _. List OpenAiModel) [ none ↦ rest | some m ↦ m ∷ rest ]

module _ {F : Type 0} (ops : LoadOps F) where
  -- What the peers offer, one after the other; reading a peer's names may renew the cache.
  unfoldable pub peer_models :
      (String → Option (List String))
      → ℕ
      → List (PeerInfo F)
      → MeshDiscovery F
      → List OpenAiModel × MeshDiscovery F
  peer_models fetch now [] m = ([], m)
  peer_models fetch now (p ∷ ps) m =
      let (names, m') = get_cached_peer_models ops fetch p now m in
      let (rest, m'') = peer_models fetch now ps m' in (owned_models p.server_id names ++ rest, m'')

  unfoldable pub mesh_models :
      (String → Option (List String))
      → ℕ
      → Option (MeshDiscovery F)
      → List OpenAiModel × Option (MeshDiscovery F)
  mesh_models fetch now none = ([], none)
  mesh_models fetch now (some m) =
      let (peers, m') = get_alive_peers ops now m in
      let (models, m'') = peer_models fetch now peers m' in (models, some m'')

  -- `tags` are Ollama's models, or none where it does not answer.
  unfoldable pub handle_openai_list_models :
      Option (List String)
      → (String → Option (List String))
      → String
      → ℕ
      → Option (MeshDiscovery F)
      → List OpenAiModel × Option (MeshDiscovery F)
  handle_openai_list_models tags fetch ollama_model now mesh =
      let empty : Listing = record { models = []; order = [] } in
      let local = elim tags as (λ _. Listing) [ none ↦ empty | some ns ↦ add_local ns empty ] in
      let (offered, mesh') = mesh_models fetch now mesh in
      let default : OpenAiModel = record { id = ollama_model; owned_by = "local" } in
      let l = add_model default (add_models offered local) in (in_order l.models l.order, mesh')
