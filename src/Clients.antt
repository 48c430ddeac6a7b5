-- ===== src/Clients.antt =====
-- The clients of the mesh server in hive-server-go/handlers.go: ClientManager, its clean-up and the
-- handlers that register, unregister and hear from a client. Times are milliseconds. The map holds
-- pointers that are written through under the lock; it is modelled with values.
pub mod Submission
pub mod Room
pub mod Lost
mod Examples
use ollama_local_hives_clust.Prelude.{
  ℕ, ◌+◌, String, Bool, true, false, not, ◌||◌, Option, none, some, List, [], ◌∷◌, ltb,
  if◌then◌else◌, length, Map, lookup, insert, delete, str_eq, ℤ, pos, ltb_ℤ,
}

pub record ClientInfo : Type 0 where
  pub client_id : String
  pub name : String
  pub connected_at : ℕ
  pub last_heartbeat : ℕ
  pub jobs_submitted : ℕ
  pub jobs_completed : ℕ

pub record ClientManager : Type 0 where
  pub clients : Map ClientInfo
  pub max_clients : ℤ

unfoldable pub new_client_manager : ℤ → ClientManager
new_client_manager max_clients = record { clients = []; max_clients = max_clients }

abbrev pub is_full : ClientManager → Bool
is_full cm = not (ltb_ℤ (pos (length cm.clients)) cm.max_clients)

abbrev pub new_client : String → String → ℕ → ClientInfo
new_client id name now = record {
  client_id = id;
  name = name;
  connected_at = now;
  last_heartbeat = now;
  jobs_submitted = 0;
  jobs_completed = 0;
}

abbrev pub seen_client : String → ℕ → ClientInfo → ClientInfo
seen_client name now c = record c {
  last_heartbeat = now;
  name = if str_eq name "" then c.name else name;
}

abbrev pub put_client : String → ClientInfo → ClientManager → ClientManager
put_client id c cm = record cm { clients = insert id c cm.clients }

-- `none` is the error that the maximum is reached.
unfoldable pub register : String → String → ℕ → ClientManager → Option ClientInfo × ClientManager
register id name now cm = elim (lookup id cm.clients) [
  | some c ↦ (some (seen_client name now c), put_client id (seen_client name now c) cm)
  | none ↦
      if is_full cm
      then (none, cm)
      else (some (new_client id name now), put_client id (new_client id name now) cm)
]

unfoldable pub unregister : String → ClientManager → ClientManager
unregister id cm = record cm { clients = delete id cm.clients }

-- c.f(…) for the client, if there is one
unfoldable pub update_client : String → (ClientInfo → ClientInfo) → ClientManager → ClientManager
update_client id f cm = elim (lookup id cm.clients) [ none ↦ cm | some c ↦ put_client id (f c) cm ]

unfoldable pub heartbeat : String → ℕ → ClientManager → ClientManager
unfolding update_client
heartbeat id now cm = update_client id (λ c. record c { last_heartbeat = now }) cm

unfoldable pub increment_submitted : String → ClientManager → ClientManager
unfolding update_client
increment_submitted id cm =
    update_client id (λ c. record c { jobs_submitted = c.jobs_submitted + 1 }) cm

unfoldable pub increment_completed : String → ClientManager → ClientManager
unfolding update_client
increment_completed id cm =
    update_client id (λ c. record c { jobs_completed = c.jobs_completed + 1 }) cm

unfoldable pub count : ClientManager → ℕ
count cm = length cm.clients

unfoldable pub client_values : Map ClientInfo → List ClientInfo
client_values [] = []
client_values (e ∷ es) = e.1 ∷ client_values es

unfoldable pub get_all : ClientManager → List ClientInfo
unfolding client_values
get_all cm = client_values cm.clients

-- A tick of heartbeatCheckLoop: c.LastHeartbeat < now() - 120
abbrev pub is_stale_client : ℕ → ClientInfo → Bool
is_stale_client now c = ltb (c.last_heartbeat + 120000) now

unfoldable pub without_stale : ℕ → Map ClientInfo → Map ClientInfo
without_stale now [] = []
without_stale now (e ∷ es) =
    let rest = without_stale now es in if is_stale_client now e.1 then rest else e ∷ rest

unfoldable pub remove_stale : ℕ → ClientManager → ClientManager
unfolding without_stale
remove_stale now cm = record cm { clients = without_stale now cm.clients }

pub data ClientReply : Type 0 where
  post_required bad_json fields_required too_many_clients status_ok : ClientReply
  client_written : ClientInfo → ClientReply

-- The decoded body, client_id and name
unfoldable pub handle_client_register :
    Bool → Option (String × String) → ℕ → ClientManager → ClientReply × ClientManager
handle_client_register false body now cm = (post_required, cm)
handle_client_register true none now cm = (bad_json, cm)
handle_client_register true (some (id, name)) now cm =
    if str_eq id "" || str_eq name ""
    then (fields_required, cm)
    else elim (register id name now cm).0 [
      | none ↦ (too_many_clients, (register id name now cm).1)
      | some c ↦ (client_written c, (register id name now cm).1)
    ]

unfoldable pub handle_client_unregister :
    Bool → Option String → ClientManager → ClientReply × ClientManager
handle_client_unregister false body cm = (post_required, cm)
handle_client_unregister true none cm = (bad_json, cm)
handle_client_unregister true (some id) cm = (status_ok, unregister id cm)

-- The id of the query, and the body that is decoded if it is empty
unfoldable pub handle_client_heartbeat :
    String → Option String → ℕ → ClientManager → ClientReply × ClientManager
handle_client_heartbeat asked body now cm =
    let named = elim body as (λ _. String) [ none ↦ "" | some id ↦ id ] in
    let id = if str_eq asked "" then named else asked in
    if str_eq id "" then (fields_required, cm) else (status_ok, heartbeat id now cm)
