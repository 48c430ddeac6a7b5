-- ===== src/Cluster/Events.antt =====
-- The requests and ticks that reach the registry of internal/cluster/manager.go, one after another,
-- and what holds of the registry after any of them.
use ollama_local_hives_clust.Prelude.{
  ℕ, String, ◌≡◌, refl, sym, ◌∙◌, Bool, true, false, ◌||◌, Option, none, some, List, [], ◌∷◌, arith,
  str_eq, eq_iff, Map, lookup, insert, delete, All, Bool-cases, Option-cases, inl, inr, ◌⊎◌, subst,
}
use ollama_local_hives_clust.Cluster.Node.{Node, Load, update_load, set_models}
use ollama_local_hives_clust.Cluster.Manager.{
  Manager, mark, mark_all, new_manager, register_node, update_node_heartbeat, deregister_node,
  get_node, check_stale, with_models, HeartbeatPayload, RegistrationPayload, node_of,
  handle_register, handle_heartbeat, handle_deregister,
}
use ollama_local_hives_clust.Cluster.Registry.{registration, nodes-notified, nodes-register}

pub data Event (F : Type 0) : Type 0 where
  register_call : Bool → Option RegistrationPayload → ℕ → ℕ → Event F
  heartbeat_call : Bool → Option (HeartbeatPayload F) → ℕ → Event F
  deregister_call : Bool → Option String → Event F
  tick : ℕ → Event F

module _ {F : Type 0} (idle : Load F) where
  unfoldable pub step : Manager F → Event F → Manager F
  step m (register_call post body now later) = (handle_register idle m post body now later).1
  step m (heartbeat_call post body now) = (handle_heartbeat m post body now).1
  step m (deregister_call post body) = (handle_deregister m post body).1
  step m (tick now) = check_stale m now

  unfoldable pub run : Manager F → List (Event F) → Manager F
  run m [] = m
  run m (e ∷ es) = run (step m e) es

module _ {F : Type 0} where
  abbrev pub Fresh : String → Map (Node F) → Type 0
  Fresh k = All (λ e. str_eq e.0 k ≡ false)

  -- Each entry stands under its node's id, and no id has two entries.
  abbrev pub Consistent : Map (Node F) → Type 0
  Consistent [] = Unit
  Consistent ((k, n) ∷ m) = (n.id ≡ k) × Fresh k m × Consistent m

  Fresh-insert :
      (j k : String) (n : Node F) (m : Map (Node F))
      → str_eq k j ≡ false
      → Fresh j m
      → Fresh j (insert k n m)
  unfolding insert
  Fresh-insert j k n [] h f = (h, tt)
  Fresh-insert j k n ((i, w) ∷ m) h f = elim (Bool-cases (str_eq i k)) [
    | inl hit ↦ rw hit (h, f.1)
    | inr miss ↦ rw miss (f.0, Fresh-insert j k n m h f.1)
  ]

  Fresh-delete : (j k : String) (m : Map (Node F)) → Fresh j m → Fresh j (delete k m)
  unfolding delete
  Fresh-delete j k [] f = tt
  Fresh-delete j k ((i, w) ∷ m) f = elim (Bool-cases (str_eq i k)) [
    | inl hit ↦ rw hit (Fresh-delete j k m f.1)
    | inr miss ↦ rw miss (f.0, Fresh-delete j k m f.1)
  ]

  Consistent-insert :
      (k : String) (n : Node F) (m : Map (Node F))
      → n.id ≡ k
      → Consistent m
      → Consistent (insert k n m)
  unfolding insert
  Consistent-insert k n [] e c = (e, tt, tt)
  Consistent-insert k n ((i, w) ∷ m) e c = elim (Bool-cases (str_eq i k)) [
    | inl hit ↦ let same : i ≡ k = (eq_iff i k).0 hit in rw hit (e, rw same at c.1, c.2)
    | inr miss ↦ rw miss (
      c.0,
      Fresh-insert i k n m (ground (arith, eq_iff i k, eq_iff k i)) c.1,
      Consistent-insert k n m e c.2,
    )
  ]

  Consistent-delete : (k : String) (m : Map (Node F)) → Consistent m → Consistent (delete k m)
  unfolding delete
  Consistent-delete k [] c = tt
  Consistent-delete k ((i, w) ∷ m) c = elim (Bool-cases (str_eq i k)) [
    | inl hit ↦ rw hit (Consistent-delete k m c.2)
    | inr miss ↦ rw miss (c.0, Fresh-delete i k m c.1, Consistent-delete k m c.2)
  ]

  -- An entry's node carries the key it is found under.
  pub lookup-id :
      (k : String) (n : Node F) (m : Map (Node F)) → Consistent m → lookup k m ≡ some n → n.id ≡ k
  unfolding lookup
  lookup-id k n [] c e = cc
  lookup-id k n ((i, w) ∷ m) c e = elim (Bool-cases (str_eq i k)) [
    | inl hit ↦ ground (arith, eq_iff i k, c.0)
    | inr miss ↦ lookup-id k n m c.2 (ground arith)
  ]

  Fresh-mark_all :
      (j : String) (timeout now : ℕ) (m : Map (Node F))
      → Fresh j m
      → Fresh j (mark_all timeout now m)
  Fresh-mark_all j timeout now [] f = tt
  Fresh-mark_all j timeout now ((i, w) ∷ m) f = (f.0, Fresh-mark_all j timeout now m f.1)

  id-mark : (timeout now : ℕ) (n : Node F) → (mark timeout now n).id ≡ n.id
  id-mark timeout now n = ground arith

  Consistent-mark_all :
      (timeout now : ℕ) (m : Map (Node F)) → Consistent m → Consistent (mark_all timeout now m)
  Consistent-mark_all timeout now [] c = tt
  Consistent-mark_all timeout now ((i, w) ∷ m) c = (
    id-mark timeout now w ∙ c.0,
    Fresh-mark_all i timeout now m c.1,
    Consistent-mark_all timeout now m c.2,
  )

  registration-id :
      (o : Option (Node F)) (node : Node F) (now later : ℕ)
      → ((n : Node F) → o ≡ some n → n.id ≡ node.id)
      → (registration o node now later).id ≡ node.id
  registration-id none node now later h = refl
  registration-id (some n) node now later h = h n refl

  Consistent-register :
      (m : Manager F) (node : Node F) (now later : ℕ)
      → Consistent m.nodes
      → Consistent (register_node m node now later).nodes
  Consistent-register m node now later c = rw nodes-register (
      Consistent-insert node.id _ m.nodes
        (registration-id (lookup node.id m.nodes) node now later
          (λ n e. lookup-id node.id n m.nodes c e))
        c)

  Consistent-heartbeat :
      (m : Manager F) (id : String) (l : Load F) (now : ℕ)
      → Consistent m.nodes
      → Consistent (update_node_heartbeat m id l now).nodes
  unfolding update_node_heartbeat update_load
  Consistent-heartbeat m id l now c = elim (Option-cases (lookup id m.nodes)) [
    | inl e ↦ rw (e, update_node_heartbeat) c
    | inr (n, e) ↦
        rw (e, update_node_heartbeat, nodes-notified)
          (Consistent-insert id (update_load n l now) m.nodes (lookup-id id n m.nodes c e) c)
  ]

  Consistent-with_models :
      (m : Manager F) (id : String) (ms : Option (List String))
      → Consistent m.nodes
      → Consistent (with_models m id ms).nodes
  unfolding get_node set_models
  Consistent-with_models m id none c = c
  Consistent-with_models m id (some ms) c = elim (Option-cases (lookup id m.nodes)) [
    | inl e ↦ rw (e, with_models) c
    | inr (n, e) ↦
        rw (e, with_models)
          (Consistent-insert id (set_models n ms) m.nodes (lookup-id id n m.nodes c e) c)
  ]

  Consistent-deregister :
      (m : Manager F) (id : String) → Consistent m.nodes → Consistent (deregister_node m id).nodes
  unfolding deregister_node
  Consistent-deregister m id c = elim (Option-cases (lookup id m.nodes)) [
    | inl e ↦ rw (e, deregister_node) c
    | inr (n, e) ↦ rw (e, deregister_node, nodes-notified) (Consistent-delete id m.nodes c)
  ]

abbrev pub incomplete : RegistrationPayload → Bool
incomplete reg = str_eq reg.reg_id "" || str_eq reg.reg_address ""

module _ {F : Type 0} (idle : Load F) where
  -- A registration with an id and an address registers the node; any other is refused.
  pub register_cases :
      (m : Manager F) (reg : RegistrationPayload) (now later : ℕ)
      → ((incomplete reg ≡ true) × (step idle m (register_call true (some reg) now later) ≡ m))
        ⊎ ((incomplete reg ≡ false)
            × (step idle m (register_call true (some reg) now later)
                ≡ register_node m (node_of idle reg) now later))
  unfolding step handle_register
  register_cases m reg now later = elim (Bool-cases (incomplete reg)) [
    | inl bad ↦ inl (bad, rw (bad, step))
    | inr good ↦ inr (good, rw (good, step))
  ]

  Consistent-step :
      (m : Manager F) (e : Event F) → Consistent m.nodes → Consistent (step idle m e).nodes
  unfolding step handle_register handle_heartbeat handle_deregister check_stale
  Consistent-step m (register_call false body now later) c = c
  Consistent-step m (register_call true none now later) c = c
  Consistent-step m (register_call true (some reg) now later) c =
      elim (register_cases m reg now later) [
        | inl (_, e) ↦ subst (λ t. Consistent t.nodes) (sym e) c
        | inr (_, e) ↦
            subst (λ t. Consistent t.nodes) (sym e)
              (Consistent-register m (node_of idle reg) now later c)
      ]
  Consistent-step m (heartbeat_call false body now) c = c
  Consistent-step m (heartbeat_call true none now) c = c
  Consistent-step m (heartbeat_call true (some hb) now) c =
      Consistent-with_models (update_node_heartbeat m hb.hb_node_id hb.hb_load now) hb.hb_node_id
        hb.hb_models (Consistent-heartbeat m hb.hb_node_id hb.hb_load now c)
  Consistent-step m (deregister_call false body) c = c
  Consistent-step m (deregister_call true none) c = c
  Consistent-step m (deregister_call true (some id)) c = Consistent-deregister m id c
  Consistent-step m (tick now) c =
      rw nodes-notified (Consistent-mark_all m.heartbeat_timeout now m.nodes c)

  Consistent-run :
      (m : Manager F) (es : List (Event F)) → Consistent m.nodes → Consistent (run idle m es).nodes
  unfolding run
  Consistent-run m [] c = c
  Consistent-run m (e ∷ es) c = Consistent-run (step idle m e) es (Consistent-step m e c)

  -- Whatever requests and ticks follow the start, each entry of the registry stands under its own
  -- node's id, and no id has two entries.
  pub run-Consistent :
      (timeout : ℕ) (on_update : Bool) (es : List (Event F))
      → Consistent (run idle (new_manager timeout on_update) es).nodes
  unfolding new_manager
  run-Consistent timeout on_update es = Consistent-run (new_manager timeout on_update) es tt
