-- ===== src/Clients/Room.antt =====
-- That the clients of hive-server-go/handlers.go never are more than the server allows.
use ollama_local_hives_clust.Prelude.{
  ℕ, ◌≤◌, ◌≡◌, refl, String, some, List, [], ◌∷◌, length, Map, lookup, delete, Bool-cases,
  Option-cases, inl, inr, arith, ℤ, pos, ◌≤ℤ◌,
}
use ollama_local_hives_clust.ModelRegistry.Loads.{length-insert}
use ollama_local_hives_clust.Clients.{
  ClientInfo, ClientManager, new_client_manager, register, unregister, update_client, heartbeat,
  increment_submitted, increment_completed, put_client, is_full, seen_client, new_client,
  remove_stale, without_stale, is_stale_client,
}

pub data ClientEvent : Type 0 where
  client_registers : String → String → ℕ → ClientEvent
  client_unregisters : String → ClientEvent
  client_heard : String → ℕ → ClientEvent
  client_submits client_completes : String → ClientEvent
  stale_removed : ℕ → ClientEvent

abbrev pub client_step : ClientEvent → ClientManager → ClientManager
client_step (client_registers id name now) cm = (register id name now cm).1
client_step (client_unregisters id) cm = unregister id cm
client_step (client_heard id now) cm = heartbeat id now cm
client_step (client_submits id) cm = increment_submitted id cm
client_step (client_completes id) cm = increment_completed id cm
client_step (stale_removed now) cm = remove_stale now cm

abbrev pub client_run : List ClientEvent → ClientManager → ClientManager
client_run [] cm = cm
client_run (e ∷ es) cm = client_run es (client_step e cm)

abbrev pub Fits : ℤ → ClientManager → Type 0
Fits max cm = (cm.max_clients ≡ max) × (pos (length cm.clients) ≤ℤ max)

length-delete_le : (k : String) (m : Map ClientInfo) → length (delete k m) ≤ length m
unfolding delete
length-delete_le k [] = omega arith
length-delete_le k (e ∷ m) = ground (arith, length-delete_le k m)

length-without_stale : (now : ℕ) (m : Map ClientInfo) → length (without_stale now m) ≤ length m
unfolding without_stale
length-without_stale now [] = omega arith
length-without_stale now (e ∷ m) = elim (Bool-cases (is_stale_client now e.1)) [
  | inl s ↦ rw s (omega (arith, length-without_stale now m))
  | inr s ↦ rw s (omega (arith, length-without_stale now m))
]

-- A client that is there takes no more room.
put_client-Fits :
    (max : ℤ) (id : String) (old c : ClientInfo) (cm : ClientManager)
    → lookup id cm.clients ≡ some old
    → Fits max cm
    → Fits max (put_client id c cm)
put_client-Fits max id old c cm e f = (f.0, rw (length-insert id c cm.clients, e) f.1)

register-Fits :
    (max : ℤ) (id name : String) (now : ℕ) (cm : ClientManager)
    → Fits max cm
    → Fits max (register id name now cm).1
unfolding register
register-Fits max id name now cm f = elim (Option-cases (lookup id cm.clients)) [
  | inr (c, e) ↦ rw (e, register) (put_client-Fits max id c (seen_client name now c) cm e f)
  | inl e ↦ elim (Bool-cases (is_full cm)) [
    | inl full ↦ rw (e, full, register) f
    | inr room ↦
        rw (e, room, register)
          (
            f.0,
            rw (length-insert id (new_client id name now) cm.clients, e)
                (ground (arith, room, f.0)),
          )
  ]
]

update_client-Fits :
    (max : ℤ) (id : String) (g : ClientInfo → ClientInfo) (cm : ClientManager)
    → Fits max cm
    → Fits max (update_client id g cm)
unfolding update_client
update_client-Fits max id g cm f = elim (Option-cases (lookup id cm.clients)) [
  | inl e ↦ rw (e, update_client) f
  | inr (c, e) ↦ rw (e, update_client) (put_client-Fits max id c (g c) cm e f)
]

client_step-Fits :
    (max : ℤ) (e : ClientEvent) (cm : ClientManager) → Fits max cm → Fits max (client_step e cm)
unfolding heartbeat increment_submitted increment_completed unregister remove_stale
client_step-Fits max (client_registers id name now) cm f = register-Fits max id name now cm f
client_step-Fits max (client_unregisters id) cm f =
    (f.0, ground (arith, f.1, length-delete_le id cm.clients))
client_step-Fits max (client_heard id now) cm f = update_client-Fits max id _ cm f
client_step-Fits max (client_submits id) cm f = update_client-Fits max id _ cm f
client_step-Fits max (client_completes id) cm f = update_client-Fits max id _ cm f
client_step-Fits max (stale_removed now) cm f =
    (f.0, ground (arith, f.1, length-without_stale now cm.clients))

client_run_from-Fits :
    (max : ℤ) (es : List ClientEvent) (cm : ClientManager)
    → Fits max cm
    → Fits max (client_run es cm)
client_run_from-Fits max [] cm f = f
client_run_from-Fits max (e ∷ es) cm f =
    client_run_from-Fits max es (client_step e cm) (client_step-Fits max e cm f)

-- Whatever registrations, removals, heartbeats, jobs and clean-ups follow the start, the clients are at
-- most the maximum, if that is not negative; the maximum stays.
pub client_run-Fits :
    (max : ℤ) (es : List ClientEvent)
    → pos 0 ≤ℤ max
    → Fits max (client_run es (new_client_manager max))
unfolding new_client_manager
client_run-Fits max es h = client_run_from-Fits max es (new_client_manager max) (refl, h)
