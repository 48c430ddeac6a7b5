-- ===== src/OpenAi/Direct.antt =====
-- handleOpenAIDirect of hive-server-go/openai_compat.go, with findPeerWithModel and what it forwards
-- and calls. The answers of a peer and of Ollama, what GetJob gives at the ticks before the deadline,
-- and how a value of JSON is shown are arguments. The priority, deadline and retries that the handler
-- writes to the job are read by no queue here.
use Prim.Native.String
use ollama_local_hives_clust.Prelude.{
  ℕ, ◌⊎◌, inl, inr, String, Bool, false, ◌||◌, Option, none, some, List, [], ◌∷◌, if◌then◌else◌,
  str_eq, ℤ, pos,
}
use ollama_local_hives_clust.ModelRegistry.{contains, member}
use ollama_local_hives_clust.Jobs.{
  Json, Fields, Elements, no_elements, element, text_maps, text_value, object_value, bool_value,
  no_fields, field, job_pending, job_running, job_completed, job_failed, Job, new_job, get_field,
  as_text, as_object,
}
use ollama_local_hives_clust.Jobs.Workers.{OllamaQueue, submit}
use ollama_local_hives_clust.OpenAi.{OpenAiMessage}
use ollama_local_hives_clust.Mesh.{LoadOps, PeerInfo, MeshDiscovery}
use ollama_local_hives_clust.Mesh.Select.{get_alive_peers, get_cached_peer_models}

pub record OpenAiUsage : Type 0 where
  pub prompt_tokens : ℤ
  pub completion_tokens : ℤ
  pub total_tokens : ℤ

pub data DirectReply : Type 0 where
  text_reply : String → OpenAiUsage → DirectReply
  job_timeout : DirectReply
  ollama_error : String → DirectReply

module _ {N : Type 0} (show : Json N → String) where
  abbrev first_text_of : Option String → String → String
  first_text_of none d = d
  first_text_of (some t) d = t

  -- message.content, response, raw_response or the whole value
  unfoldable pub extract_chat_response : Option (Json N) → String
  unfolding get_field as_text as_object
  extract_chat_response none = ""
  extract_chat_response (some v) = elim (as_object (some v)) as (λ _. String) [
    | none ↦ show v
    | some m ↦
        let raw = first_text_of (as_text (get_field "raw_response" m)) (show v) in
        let response = first_text_of (as_text (get_field "response" m)) raw in
        elim (as_object (get_field "message" m)) as (λ _. String) [
          | none ↦ response
          | some msg ↦ first_text_of (as_text (get_field "content" msg)) response
        ]
  ]

abbrev pub no_usage : OpenAiUsage
no_usage = record { prompt_tokens = pos 0; completion_tokens = pos 0; total_tokens = pos 0 }

-- The decoded answer of a peer's /api/jobs/forward
pub record ForwardAnswer (N : Type 0) : Type 0 where
  pub status : String
  pub result : Option (Json N)

-- The decoded answer of Ollama's /api/chat, its counts converted
pub record ChatAnswer : Type 0 where
  pub content : String
  pub prompt_eval : ℤ
  pub eval_count : ℤ
  pub eval_total : ℤ

module _ {F : Type 0} (ops : LoadOps F) where
  -- The loop over the peers; reading a peer's names may renew the cache.
  unfoldable pub least_loaded :
      (String → Option (List String))
      → String
      → ℕ
      → Option (PeerInfo F)
      → List (PeerInfo F)
      → MeshDiscovery F
      → Option (PeerInfo F) × MeshDiscovery F
  least_loaded fetch model now best [] m = (best, m)
  least_loaded fetch model now best (p ∷ ps) m =
      let (names, m') = get_cached_peer_models ops fetch p now m in
      let lighter = elim best as (λ _. Option (PeerInfo F)) [
        | none ↦ some p
        | some b ↦ if ops.less_load p.load b.load then some p else best
      ] in
      least_loaded fetch model now (if member model names then lighter else best) ps m'

  unfoldable pub find_peer_with_model :
      (String → Option (List String))
      → String
      → ℕ
      → Option (MeshDiscovery F)
      → Option (PeerInfo F) × Option (MeshDiscovery F)
  find_peer_with_model fetch model now none = (none, none)
  find_peer_with_model fetch model now (some m) =
      let (peers, m') = get_alive_peers ops now m in
      let (best, m'') = least_loaded fetch model now none peers m' in (best, some m'')

-- callOllamaDirect: a request or a decoding that fails is an error in words.
unfoldable pub call_ollama_direct : String ⊎ ChatAnswer → DirectReply
call_ollama_direct (inl e) = ollama_error e
call_ollama_direct (inr a) = text_reply a.content (record {
  prompt_tokens = a.prompt_eval;
  completion_tokens = a.eval_count;
  total_tokens = a.eval_total;
})

unfoldable pub is_missing : String → Bool
is_missing e = contains e "not found" || contains e "404"

unfoldable pub failed_reply : Option DirectReply → String → DirectReply
failed_reply asked e =
    let own = ollama_error (String.◌++◌ "ollama error: " e) in
    if is_missing e then elim asked as (λ _. DirectReply) [ none ↦ own | some r ↦ r ] else own

module _ {N : Type 0} (show : Json N → String) where
  -- forwardOpenAIToPeer, with the peer's decoded answer; `none` where anything of it fails
  unfoldable pub forward_openai_to_peer : Option (ForwardAnswer N) → Option DirectReply
  unfolding extract_chat_response
  forward_openai_to_peer none = none
  forward_openai_to_peer (some a) =
      if str_eq a.status "failed"
      then none
      else some (text_reply (extract_chat_response show a.result) no_usage)

  -- if peer := hs.findPeerWithModel(model); peer != nil { forward; if err == nil { return } }
  unfoldable pub ask_peer :
      {F : Type 0}
      → (PeerInfo F → Option (ForwardAnswer N))
      → Option (PeerInfo F)
      → Option DirectReply
  ask_peer forward none = none
  ask_peer forward (some p) = forward_openai_to_peer (forward p)

  unfoldable pub completed_reply : Job N → DirectReply
  completed_reply j = text_reply (extract_chat_response show j.result) (record {
    prompt_tokens = j.prompt_tokens;
    completion_tokens = j.eval_tokens;
    total_tokens = j.total_tokens;
  })

  -- The ticks before the deadline; `asked` is what a peer gives when the job has failed.
  unfoldable pub wait_for_job : Option DirectReply → List (Option (Job N)) → DirectReply
  wait_for_job asked [] = job_timeout
  wait_for_job asked (seen ∷ ticks) =
      let rest = wait_for_job asked ticks in
      elim seen as (λ _. DirectReply) [
        | none ↦ rest
        | some j ↦ elim j.status as (λ _. DirectReply) [
          | job_pending ↦ rest
          | job_running ↦ rest
          | job_failed ↦ failed_reply asked j.error
          | job_completed ↦ completed_reply j
        ]
      ]

  -- A message map of Go
  abbrev pub message_values : List OpenAiMessage → Elements N
  message_values [] = no_elements
  message_values (m ∷ ms) =
      element
        (object_value
          (field "role" (text_value m.role) (field "content" (text_value m.content) no_fields)))
        (message_values ms)

  abbrev pub chat_payload : String → List OpenAiMessage → Fields N
  chat_payload model msgs = field "model" (text_value model) (
      field "messages" (text_maps (message_values msgs))
        (field "stream" (bool_value false) no_fields))

  -- `asked` is ask_peer at the peer that findPeerWithModel gives; `direct` is Ollama's own answer.
  unfoldable pub handle_openai_direct :
      N
      → String
      → String
      → List OpenAiMessage
      → Option DirectReply
      → String ⊎ ChatAnswer
      → List (Option (Job N))
      → ℕ
      → OllamaQueue N
      → DirectReply × OllamaQueue N
  handle_openai_direct zero id model msgs asked direct ticks now q =
      let (accepted, q') = submit (new_job id "chat" "chat" (chat_payload model msgs) zero now) q in
      if accepted
      then (wait_for_job asked ticks, q')
      else (elim asked as (λ _. DirectReply) [ none ↦ call_ollama_direct direct | some r ↦ r ], q')
