-- ===== src/OpenAi/Replay.antt =====
-- handleOpenAIViaAgent of hive-server-go/openai_compat.go: the messages that it sends to a session, and
-- the reply that it reads back from the session's audit entries, which SQLite gives newest first.
use mathlib.Core.List.{reverse-append, reverse-reverse}
use ollama_local_hives_clust.Prelude.{
  ℕ, ◌≡◌, refl, ap, ◌∙◌, String, Bool, true, false, ◌||◌, Option, none, some, List, [], ◌∷◌, ◌++◌,
  reverse, arith, if◌then◌else◌, str_eq, length, length-append, take, take-append_le, take_all, All,
}
use ollama_local_hives_clust.ModelRegistry.{contains}
use ollama_local_hives_clust.Session.{CodingAgentAuditEntry}
use ollama_local_hives_clust.OpenAi.{OpenAiMessage}

unfoldable pub agent_type_of : String → String
unfolding contains
agent_type_of model =
    if contains model "hermes" || contains model "Hermes"
    then "hermes"
    else if contains model "codex" || contains model "Codex"
    then "codex"
    else if contains model "opencode" || contains model "OpenCode"
    then "opencode"
    else "custom"

-- The messages that go through SendMessage
unfoldable pub replayed : List OpenAiMessage → List OpenAiMessage
replayed [] = []
replayed (m ∷ ms) =
    let rest = replayed ms in
    if str_eq m.role "system"
    then rest
    else record m { role = if str_eq m.role "" then "user" else m.role } ∷ rest

unfoldable pub entries_of : String → List CodingAgentAuditEntry → List CodingAgentAuditEntry
entries_of sid [] = []
entries_of sid (e ∷ es) =
    let rest = entries_of sid es in if str_eq e.session_id sid then e ∷ rest else rest

-- GetCodingAgentAuditLogs for a limit over 0
unfoldable pub get_coding_agent_audit_logs :
    String → ℕ → List CodingAgentAuditEntry → List CodingAgentAuditEntry
get_coding_agent_audit_logs sid limit rows = take limit (reverse (entries_of sid rows))

abbrev pub is_assistant : CodingAgentAuditEntry → Bool
is_assistant e = str_eq e.role "assistant"

-- The content at which the loop stops, or the empty text
unfoldable pub first_assistant : List CodingAgentAuditEntry → String
first_assistant [] = ""
first_assistant (e ∷ es) =
    let rest = first_assistant es in if is_assistant e then e.content else rest

-- The loop runs from the last entry of the list down; `none` is an error.
unfoldable pub last_response : List CodingAgentAuditEntry → Option String
last_response logs =
    let found = first_assistant (reverse logs) in if str_eq found "" then none else some found

unfoldable pub reply_from_session : String → List CodingAgentAuditEntry → Option String
reply_from_session sid rows = last_response (get_coding_agent_audit_logs sid 5 rows)

length-reverse {ℓ} : {A : Type ℓ} (xs : List A) → length (reverse xs) ≡ length xs
length-reverse [] = refl
length-reverse (x ∷ xs) =
    ap length (reverse-append (x ∷ []) xs)
    ∙ omega (arith, length-append (reverse xs) (x ∷ []), length-reverse xs)

first_assistant-append :
    (older newer : List CodingAgentAuditEntry) (e : CodingAgentAuditEntry)
    → All (λ o. is_assistant o ≡ false) older
    → is_assistant e ≡ true
    → first_assistant (older ++ e ∷ newer) ≡ e.content
unfolding first_assistant
first_assistant-append [] newer e none_before own = ground arith
first_assistant-append (o ∷ older) newer e none_before own =
    ground (arith, none_before.0, first_assistant-append older newer e none_before.1 own)

-- Where a session has at least five audit entries, the reply is the oldest answer of the assistant among
-- the five newest ones, whatever answers came after it.
pub reply_from_session-oldest :
    (sid : String) (rows before older newer : List CodingAgentAuditEntry)
    (e : CodingAgentAuditEntry)
    → entries_of sid rows ≡ before ++ (older ++ e ∷ newer)
    → length (older ++ e ∷ newer) ≡ 5
    → All (λ o. is_assistant o ≡ false) older
    → is_assistant e ≡ true
    → str_eq e.content "" ≡ false
    → reply_from_session sid rows ≡ some e.content
unfolding reply_from_session get_coding_agent_audit_logs last_response
reply_from_session-oldest sid rows before older newer e whole five none_before own full =
    let newest = older ++ e ∷ newer in
    let turned : reverse (entries_of sid rows) ≡ reverse newest ++ reverse before =
      ap reverse whole ∙ reverse-append before newest in
    let taken : take 5 (reverse (entries_of sid rows)) ≡ reverse newest =
      ap (take 5) turned
      ∙ take-append_le 5 (reverse newest) (reverse before)
          (omega (arith, length-reverse newest, five))
      ∙ take_all 5 (reverse newest) (omega (arith, length-reverse newest, five)) in
    let found : first_assistant (reverse (take 5 (reverse (entries_of sid rows)))) ≡ e.content =
      ap (λ l. first_assistant (reverse l)) taken
      ∙ ap first_assistant (reverse-reverse newest)
      ∙ first_assistant-append older newer e none_before own in
    simp found (simp full refl)
