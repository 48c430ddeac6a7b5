-- ===== src/Providers.antt =====
-- hive-server-go/provider.go: what runs at this server and at its peers, asked for at most every 30
-- seconds. The other servers' answers, url.Parse and the texts that Sprintf makes of numbers are
-- arguments. A digest and details of a model are left out, as nothing reads them. Times are
-- milliseconds, as in Mesh.
pub mod Cache
pub mod Offered
pub mod Kept
mod Examples
use Prim.Native.String
use ollama_local_hives_clust.Prelude.{
  ℕ, ◌-◌, ◌*◌, ◌/◌, String, Bool, true, false, Option, none, some, List, [], ◌∷◌, ◌++◌, map, ltb,
  if◌then◌else◌, Map, lookup, insert, ℤ, pos, ltb_ℤ,
}
use ollama_local_hives_clust.Mesh.{PeerInfo}
use ollama_local_hives_clust.ModelRegistry.{ModelRegistry, register_local_model}

pub data ProviderType : Type 0 where
  ollama lm_studio vllm openai_compatible custom : ProviderType

abbrev pub text_of : ProviderType → String
text_of ollama = "ollama"
text_of lm_studio = "lm_studio"
text_of vllm = "vllm"
text_of openai_compatible = "openai_compatible"
text_of custom = "custom"

pub record ModelInfo : Type 0 where
  pub name : String
  pub provider : String
  pub node_id : String
  pub size_gb : String

pub record ProviderInfo : Type 0 where
  pub type : ProviderType
  pub base_url : String
  pub healthy : Bool
  pub models : List ModelInfo

pub record NodeInfo (F : Type 0) : Type 0 where
  pub id : String
  pub endpoint : String
  pub is_self : Bool
  pub alive : Bool
  pub load : F
  pub clients : ℤ
  pub providers : List ProviderInfo

-- `last_refresh` is none for the zero time, which is longer ago than any interval.
pub record ProviderManager (F : Type 0) : Type 0 where
  pub self_id : String
  pub self_port : ℤ
  pub ollama_url : String
  pub custom_urls : List String
  pub nodes_cache : List (NodeInfo F)
  pub last_refresh : Option ℕ
  pub interval : ℕ
  pub model_registry : Option ModelRegistry

unfoldable pub new_provider_manager :
    {F : Type 0} → String → ℤ → String → List String → Option ModelRegistry → ProviderManager F
new_provider_manager self_id self_port ollama_url custom_urls registry = record {
  self_id = self_id;
  self_port = self_port;
  ollama_url = ollama_url;
  custom_urls = custom_urls;
  nodes_cache = [];
  last_refresh = none;
  interval = 30000;
  model_registry = registry;
}

-- The answers that one refresh meets: GET …/api/tags as names and sizes, GET …/v1/models as ids, none
-- where the call or the decoding fails; Hostname of a parsed endpoint; and when a URL was asked.
pub record Web : Type 0 where
  pub tags : String → Option (List (String × ℤ))
  pub ids : String → Option (List String)
  pub hostname : String → Option String
  pub port_text : ℤ → String
  pub gb_text : ℤ → String
  pub asked_at : String → ℕ

abbrev pub joined : String → String → String → String
joined a b c = String.◌++◌ a (String.◌++◌ b c)

abbrev pub healthy_at : ProviderType → String → List ModelInfo → ProviderInfo
healthy_at type url models = record { type = type; base_url = url; healthy = true; models = models }

module _ (web : Web) where
  abbrev pub ollama_model : String → String × ℤ → ModelInfo
  ollama_model node m = record {
    name = m.0;
    provider = text_of ollama;
    node_id = node;
    size_gb = if ltb_ℤ (pos 0) m.1 then web.gb_text m.1 else "";
  }

  -- `self` is the id that the registry writes into its entries.
  unfoldable pub register_all :
      String → String → List (String × ℤ) → Option ModelRegistry → Option ModelRegistry
  register_all self url models none = none
  register_all self url [] (some mr) = some mr
  register_all self url (m ∷ ms) (some mr) =
      register_all self url ms (
        some (register_local_model self mr m.0 (text_of ollama) url m.1 (pos 0) (web.asked_at url)))

  unfoldable pub probe_ollama :
      String → String → String → Option ModelRegistry → Option ProviderInfo × Option ModelRegistry
  probe_ollama self url node registry = elim (web.tags url) [
    | none ↦ (none, registry)
    | some ms ↦ (
      some (healthy_at ollama url (map (ollama_model node) ms)),
      register_all self url ms registry,
    )
  ]

  unfoldable pub probe_openai_compatible : String → Option (List ModelInfo)
  probe_openai_compatible url = elim (web.ids url) as (λ _. Option (List ModelInfo)) [
    | none ↦ none
    | some ids ↦
        some (map (λ id. record { name = id; provider = ""; node_id = ""; size_gb = "" }) ids)
  ]

  abbrev pub provided_by : ProviderType → ModelInfo → ModelInfo
  provided_by type m = record m { provider = text_of type }

  unfoldable pub probe_lm_studio_at : String → Option ProviderInfo
  probe_lm_studio_at url = elim (probe_openai_compatible url) as (λ _. Option ProviderInfo) [
    | none ↦ none
    | some models ↦ some (healthy_at lm_studio url (map (provided_by lm_studio) models))
  ]

  unfoldable pub probe_vllm_at : String → Option ProviderInfo
  probe_vllm_at url = elim (probe_openai_compatible url) as (λ _. Option ProviderInfo) [
    | none ↦ none
    | some models ↦ some (healthy_at vllm url (map (provided_by vllm) models))
  ]

  -- Also healthy where it does not answer
  unfoldable pub probe_custom : String → ProviderInfo
  probe_custom url = elim (probe_openai_compatible url) as (λ _. ProviderInfo) [
    | none ↦ healthy_at custom url []
    | some models ↦ healthy_at custom url (map (provided_by custom) models)
  ]

  -- if p := …; p != nil { providers = append(providers, *p) }
  abbrev pub appended : Option ProviderInfo → List ProviderInfo → List ProviderInfo
  appended none rest = rest
  appended (some p) rest = p ∷ rest

  unfoldable pub detect_local_providers :
      {F : Type 0} → ProviderManager F → List ProviderInfo × Option ModelRegistry
  detect_local_providers pm =
      let (own, registry) = probe_ollama pm.self_id pm.ollama_url pm.self_id pm.model_registry in
      let others =
        appended (probe_lm_studio_at "http://localhost:1234")
          (appended (probe_vllm_at "http://localhost:8000") (map probe_custom pm.custom_urls)) in
      (appended own others, registry)

  unfoldable pub detect_peer_providers :
      {F : Type 0}
      → String
      → PeerInfo F
      → Option ModelRegistry
      → List ProviderInfo × Option ModelRegistry
  detect_peer_providers self peer registry =
      elim (web.hostname peer.endpoint) as (λ _. List ProviderInfo × Option ModelRegistry) [
        | none ↦ ([], registry)
        | some host ↦
            let (p, registry') =
              probe_ollama self (joined "http://" host ":11434") peer.server_id registry in
            (
              appended p (
                  appended (probe_lm_studio_at (joined "http://" host ":1234"))
                    (appended (probe_vllm_at (joined "http://" host ":8000")) [])),
              registry',
            )
      ]
