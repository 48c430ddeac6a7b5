-- ===== src/OpenAi/Owners.antt =====
-- What handleOpenAIListModels of hive-server-go/openai_compat.go lists, and as whose.
use ollama_local_hives_clust.Prelude.{
  ℕ, ◌≡◌, refl, ap, ◌∙◌, String, Option, none, some, List, [], ◌∷◌, ◌++◌, append-nil, append_assoc,
  arith, eq_iff, Map, lookup, All, Option-cases, inl, inr,
}
use ollama_local_hives_clust.Mesh.{LoadOps, MeshDiscovery}
use ollama_local_hives_clust.OpenAi.Listing.{
  OpenAiModel, Listing, put_model, add_model, add_models, add_local, owned_models, in_order,
  mesh_models, handle_openai_list_models,
}
use ollama_local_hives_clust.OpenAi.Listed.{
  Distinct, Lists, in_order-Lists, or_owner, owner_in, owner_in-append, put_model-Lists,
}

owner_in-lookup :
    (models : Map OpenAiModel) (k : String) (ms : List OpenAiModel)
    → All (λ m. lookup m.id models ≡ some m) ms
    → lookup k models ≡ none
    → owner_in k ms ≡ none
owner_in-lookup models k [] h gone = refl
owner_in-lookup models k (m ∷ ms) h gone =
    ground (arith, eq_iff m.id k, h.0, gone, owner_in-lookup models k ms h.1 gone)

add_model-none :
    (n : OpenAiModel) (l : Listing) → lookup n.id l.models ≡ none → add_model n l ≡ put_model n l
unfolding add_model
add_model-none n l gone = rw (gone, add_model) refl

add_model-some :
    (n m : OpenAiModel) (l : Listing) → lookup n.id l.models ≡ some m → add_model n l ≡ l
unfolding add_model
add_model-some n m l there = rw (there, add_model) refl

-- The list after some more offers, and whose each id then is.
abbrev Extends : Listing → List OpenAiModel → List OpenAiModel → Type 0
Extends l ms offers =
    (ms' : List OpenAiModel) × Lists l ms'
    × ((k : String) → owner_in k ms' ≡ or_owner (owner_in k ms) (owner_in k offers))

add_models-Extends :
    (offers : List OpenAiModel) (l : Listing) (ms : List OpenAiModel)
    → Lists l ms
    → Extends (add_models offers l) ms offers
unfolding add_models
add_models-Extends [] l ms h = (ms, h, λ k. ground arith)
add_models-Extends (n ∷ offers) l ms h = elim (Option-cases (lookup n.id l.models)) [
  | inl gone ↦
      let fresh = owner_in-lookup l.models n.id ms h.mapped gone in
      let (ms', lists, owners) =
        add_models-Extends offers (put_model n l) (ms ++ n ∷ []) (put_model-Lists l ms n fresh h) in
      (
        ms',
        rw (add_model-none n l gone) lists,
        λ k. ground (arith, owners k, owner_in-append k ms (n ∷ []), eq_iff n.id k, fresh),
      )
  | inr (m, there) ↦
      let (ms', lists, owners) = add_models-Extends offers l ms h in
      (
        ms',
        rw (add_model-some n m l there) lists,
        λ k. ground (arith, owners k, eq_iff n.id k, h.absent n.id, there),
      )
]

Distinct-middle :
    (ms : List OpenAiModel) (n : OpenAiModel) (ns : List OpenAiModel)
    → Distinct (ms ++ n ∷ ns)
    → owner_in n.id ms ≡ none
Distinct-middle [] n ns d = refl
Distinct-middle (m ∷ ms) n ns d = ground (
  arith,
  d.0,
  owner_in-append m.id ms (n ∷ ns),
  eq_iff m.id n.id,
  eq_iff n.id m.id,
  Distinct-middle ms n ns d.1,
)

add_local-Lists :
    (names : List String) (l : Listing) (ms : List OpenAiModel)
    → Distinct (ms ++ owned_models "local" names)
    → Lists l ms
    → Lists (add_local names l) (ms ++ owned_models "local" names)
unfolding add_local
add_local-Lists [] l ms d h = rw (append-nil ms) h
add_local-Lists (n ∷ names) l ms d h =
    let m : OpenAiModel = record { id = n; owned_by = "local" } in
    let later = owned_models "local" names in
    let regrouped = append_assoc ms (m ∷ []) later in
    let fresh = Distinct-middle ms m later d in
    rw (← regrouped) (
      add_local-Lists names (put_model m l) (ms ++ m ∷ []) (rw regrouped d)
        (put_model-Lists l ms m fresh h))

abbrev empty_listing : Listing
empty_listing = record { models = []; order = [] }

empty-Lists : Lists empty_listing []
unfolding lookup
empty-Lists = record { ordered = refl; mapped = tt; absent = λ k gone. refl; distinct = tt }

abbrev pub ListsOffers : List OpenAiModel → List OpenAiModel → Type 0
ListsOffers result offers = Distinct result × ((k : String) → owner_in k result ≡ owner_in k offers)

listing-offers :
    (names : List String) (offered : List OpenAiModel) (m : OpenAiModel)
    → Distinct (owned_models "local" names)
    → ListsOffers
        (in_order
          (add_model m (add_models offered (add_local names empty_listing))).models
          (add_model m (add_models offered (add_local names empty_listing))).order)
        (owned_models "local" names ++ (offered ++ m ∷ []))
unfolding add_models
listing-offers names offered m d =
    let own = owned_models "local" names in
    let local = add_local names empty_listing in
    let first = add_local-Lists names empty_listing [] d empty-Lists in
    let (ms, lists, owners) = add_models-Extends offered local own first in
    let (ms', lists', owners') = add_models-Extends (m ∷ []) (add_models offered local) ms lists in
    let l = add_model m (add_models offered local) in
    let same : in_order l.models l.order ≡ ms' =
      ap (in_order l.models) lists'.ordered ∙ in_order-Lists l.models ms' lists'.mapped in
    rw same (
      lists'.distinct,
      λ k. ground (
        arith,
        owners k,
        owners' k,
        owner_in-append k own (offered ++ m ∷ []),
        owner_in-append k offered (m ∷ []),
      ),
    )

abbrev pub names_of : Option (List String) → List String
names_of none = []
names_of (some names) = names

module _ {F : Type 0} (ops : LoadOps F) where
  -- Ollama's models, then those of the peers, then the default one.
  abbrev pub offers_of :
      Option (List String)
      → (String → Option (List String))
      → String
      → ℕ
      → Option (MeshDiscovery F)
      → List OpenAiModel
  offers_of tags fetch ollama_model now mesh =
      owned_models "local" (names_of tags)
      ++ ((mesh_models ops fetch now mesh).0
          ++ (record { id = ollama_model; owned_by = "local" }) ∷ [])

  -- Where Ollama names no model twice, the reply names no model twice, and lists exactly the models of
  -- Ollama, those of the alive peers and the default one: each as Ollama's if it has it, else as that
  -- of the first peer with it, else, for the default one, as the server's own.
  pub handle_openai_list_models-owners :
      (tags : Option (List String)) (fetch : String → Option (List String)) (ollama_model : String)
      (now : ℕ) (mesh : Option (MeshDiscovery F))
      → Distinct (owned_models "local" (names_of tags))
      → Distinct (handle_openai_list_models ops tags fetch ollama_model now mesh).0
        × ((k : String)
            → owner_in k (handle_openai_list_models ops tags fetch ollama_model now mesh).0
              ≡ owner_in k (offers_of tags fetch ollama_model now mesh))
  unfolding handle_openai_list_models add_local
  handle_openai_list_models-owners none fetch ollama_model now mesh d =
      listing-offers [] (mesh_models ops fetch now mesh).0
        (record { id = ollama_model; owned_by = "local" }) d
  handle_openai_list_models-owners (some names) fetch ollama_model now mesh d =
      listing-offers names (mesh_models ops fetch now mesh).0
        (record { id = ollama_model; owned_by = "local" }) d
