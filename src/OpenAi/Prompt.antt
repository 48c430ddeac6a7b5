-- ===== src/OpenAi/Prompt.antt =====
-- What the chat handler of hive-server-go/openai_compat.go passes on of the messages that it is sent.
use ollama_local_hives_clust.Prelude.{
  ◌≡◌, refl, sym, ap, ◌∙◌, String, Bool, true, false, ◌&&◌, not, some, List, [], ◌∷◌, ◌++◌,
  append-nil, append_assoc, arith, if◌then◌else◌, str_eq, eq_iff, All,
}
use ollama_local_hives_clust.OpenAi.{
  SelectedModel, OpenAiMessage, Extracted, ollama_role, extract_message, extract_messages,
  with_default, messages_of,
}
use ollama_local_hives_clust.OpenAi.Stream.{OpenAiChatRequest, chat_ready, plan_chat}

module _ (to_lower : String → String) where
  -- A message that sets the prompt, where none is set.
  abbrev pub is_prompt : OpenAiMessage → Bool
  is_prompt m = str_eq (to_lower m.role) "system" && not (str_eq m.content "")

  -- Each message that is not empty, under Ollama's name of its role.
  abbrev pub relayed : List OpenAiMessage → List OpenAiMessage
  relayed [] = []
  relayed (m ∷ ms) =
      if str_eq m.content ""
      then relayed ms
      else (record { role = ollama_role (to_lower m.role); content = m.content }) ∷ relayed ms

  abbrev pub LacksPrompt : List OpenAiMessage → Type 0
  LacksPrompt ms = All (λ m. is_prompt m ≡ false) ms

  -- What has been extracted so far, with more messages passed on.
  abbrev passing : Extracted → List OpenAiMessage → Extracted
  passing x ms = record {
    system_prompt = x.system_prompt;
    conversation = x.conversation ++ relayed ms;
  }

  relayed-cons :
      (m : OpenAiMessage) (ms : List OpenAiMessage)
      → relayed (m ∷ []) ++ relayed ms ≡ relayed (m ∷ ms)
  relayed-cons m ms = ground arith

  passing-passing :
      (x : Extracted) (m : OpenAiMessage) (ms : List OpenAiMessage)
      → passing (passing x (m ∷ [])) ms ≡ passing x (m ∷ ms)
  passing-passing x m ms =
      ground (arith, append_assoc x.conversation (relayed (m ∷ [])) (relayed ms), relayed-cons m ms)

  -- A message that sets no prompt, or comes too late, is passed on.
  extract_message-passing :
      (m : OpenAiMessage) (x : Extracted)
      → is_prompt m && str_eq x.system_prompt "" ≡ false
      → extract_message to_lower m x ≡ passing x (m ∷ [])
  unfolding extract_message
  extract_message-passing m x h =
      ground (arith, append-nil x.conversation, eq_iff m.content "", eq_iff x.system_prompt "")

  -- Once a prompt is set, every message is passed on.
  extract_messages-later :
      (ms : List OpenAiMessage) (x : Extracted)
      → str_eq x.system_prompt "" ≡ false
      → extract_messages to_lower ms x ≡ passing x ms
  unfolding extract_messages
  extract_messages-later [] x set = ground (arith, append-nil x.conversation)
  extract_messages-later (m ∷ ms) x set =
      ap (extract_messages to_lower ms) (extract_message-passing m x (ground arith))
      ∙ extract_messages-later ms (passing x (m ∷ [])) set
      ∙ passing-passing x m ms

  extract_messages-LacksPrompt :
      (pre ms : List OpenAiMessage) (x : Extracted)
      → LacksPrompt pre
      → extract_messages to_lower (pre ++ ms) x ≡ extract_messages to_lower ms (passing x pre)
  unfolding extract_messages
  extract_messages-LacksPrompt [] ms x lacks = ground (arith, append-nil x.conversation)
  extract_messages-LacksPrompt (m ∷ pre) ms x lacks =
      ap (extract_messages to_lower (pre ++ ms))
        (extract_message-passing m x (ground (arith, lacks.0)))
      ∙ extract_messages-LacksPrompt pre ms (passing x (m ∷ [])) lacks.1
      ∙ ap (extract_messages to_lower ms) (passing-passing x m pre)

  abbrev no_messages : Extracted
  no_messages = record { system_prompt = ""; conversation = [] }

  extract_message-prompt :
      (m : OpenAiMessage) (x : Extracted)
      → is_prompt m ≡ true
      → str_eq x.system_prompt "" ≡ true
      → extract_message to_lower m x ≡ record x { system_prompt = m.content }
  unfolding extract_message
  extract_message-prompt m x own unset = ground arith

  extract_messages-prompt :
      (pre post : List OpenAiMessage) (m : OpenAiMessage)
      → LacksPrompt pre
      → is_prompt m ≡ true
      → extract_messages to_lower (pre ++ m ∷ post) no_messages
        ≡ record { system_prompt = m.content; conversation = relayed pre ++ relayed post }
  unfolding extract_messages
  extract_messages-prompt pre post m lacks own =
      extract_messages-LacksPrompt pre (m ∷ post) no_messages lacks
      ∙ ap (extract_messages to_lower post)
          (extract_message-prompt m (passing no_messages pre) own refl)
      ∙ extract_messages-later post
          (record { system_prompt = m.content; conversation = relayed pre }) (ground arith)

  -- The first message that is a system message with a text gives the prompt, and all others are passed on.
  messages_of-prompt :
      (pre post : List OpenAiMessage) (m : OpenAiMessage)
      → LacksPrompt pre
      → is_prompt m ≡ true
      → messages_of to_lower (pre ++ m ∷ post)
        ≡ record { system_prompt = m.content; conversation = relayed pre ++ relayed post }
  unfolding messages_of with_default
  messages_of-prompt pre post m lacks own =
      let set : str_eq m.content "" ≡ false = ground arith in
      ap with_default (extract_messages-prompt pre post m lacks own) ∙ simp set refl

  nonempty_lem :
      (pre post : List OpenAiMessage) (m : OpenAiMessage)
      → (c : OpenAiMessage × List OpenAiMessage) × (pre ++ m ∷ post ≡ c.0 ∷ c.1)
  nonempty_lem [] post m = ((m, post), refl)
  nonempty_lem (x ∷ pre) post m = ((x, pre ++ m ∷ post), refl)

  -- A decoded chat request whose messages are some that set no prompt, a system message with a text, and
  -- any others: its text is the system prompt, the conversation is the other messages that are not
  -- empty, in their order and without it, the model and its endpoint are the selected ones, and the
  -- server's own URL is the endpoint where none is selected.
  pub plan_chat-prompt :
      (select : String → SelectedModel) (ollama_url ollama_model : String) (req : OpenAiChatRequest)
      (pre post : List OpenAiMessage) (m : OpenAiMessage)
      → req.messages ≡ pre ++ m ∷ post
      → LacksPrompt pre
      → is_prompt m ≡ true
      → (let s = select (if str_eq req.model "" then ollama_model else req.model) in
          plan_chat to_lower select ollama_url ollama_model "POST" (some (some req))
          ≡ chat_ready req.stream s.name
              (if str_eq s.endpoint "" then ollama_url else s.endpoint)
              m.content
              (relayed pre ++ relayed post))
  unfolding plan_chat
  plan_chat-prompt select ollama_url ollama_model req pre post m given lacks own =
      let (c, split) = nonempty_lem pre post m in
      let whole = ap (messages_of to_lower) (sym split) ∙ messages_of-prompt pre post m lacks own in
      rw (given ∙ split) (simp whole refl)
