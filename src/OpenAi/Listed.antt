-- ===== src/OpenAi/Listed.antt =====
-- The map and the order of handleOpenAIListModels in hive-server-go/openai_compat.go stand for a list.
use ollama_local_hives_clust.Prelude.{
  ◌≡◌, refl, sym, ap, ◌∙◌, String, Option, none, some, List, [], ◌∷◌, ◌++◌, arith, if◌then◌else◌,
  str_eq, eq_iff, eq_refl, Map, lookup, insert, lookup-insert, All, All-append,
}
use ollama_local_hives_clust.OpenAi.Listing.{OpenAiModel, Listing, put_model, in_order}

-- The owner of the first entry with the id.
abbrev pub owner_in : String → List OpenAiModel → Option String
owner_in k [] = none
owner_in k (m ∷ ms) = if str_eq m.id k then some m.owned_by else owner_in k ms

-- No two entries have the same id.
abbrev pub Distinct : List OpenAiModel → Type 0
Distinct [] = Unit
Distinct (m ∷ ms) = (owner_in m.id ms ≡ none) × Distinct ms

abbrev pub or_owner : Option String → Option String → Option String
or_owner none b = b
or_owner (some a) b = some a

pub owner_in-append :
    (k : String) (ms ns : List OpenAiModel)
    → owner_in k (ms ++ ns) ≡ or_owner (owner_in k ms) (owner_in k ns)
owner_in-append k [] ns = refl
owner_in-append k (m ∷ ms) ns = ground (arith, owner_in-append k ms ns)

Distinct-append :
    (ms : List OpenAiModel) (n : OpenAiModel)
    → Distinct ms
    → owner_in n.id ms ≡ none
    → Distinct (ms ++ n ∷ [])
Distinct-append [] n d h = (refl, tt)
Distinct-append (m ∷ ms) n d h = (
  ground (arith, d.0, h, owner_in-append m.id ms (n ∷ []), eq_iff n.id m.id, eq_iff m.id n.id),
  Distinct-append ms n d.1 (ground arith),
)

abbrev pub ids_of : List OpenAiModel → List String
ids_of [] = []
ids_of (m ∷ ms) = m.id ∷ ids_of ms

-- The map and the order stand for the list.
pub record Lists (l : Listing) (ms : List OpenAiModel) : Type 0 where
  pub ordered : l.order ≡ ids_of ms
  pub mapped : All (λ m. lookup m.id l.models ≡ some m) ms
  pub absent : (k : String) → owner_in k ms ≡ none → lookup k l.models ≡ none
  pub distinct : Distinct ms

pub in_order-Lists :
    (models : Map OpenAiModel) (ms : List OpenAiModel)
    → All (λ m. lookup m.id models ≡ some m) ms
    → in_order models (ids_of ms) ≡ ms
unfolding in_order
in_order-Lists models [] h = refl
in_order-Lists models (m ∷ ms) h = rw (h.0, in_order-Lists models ms h.1, in_order) refl

ids_of-append :
    (ms : List OpenAiModel) (n : OpenAiModel) → ids_of (ms ++ n ∷ []) ≡ ids_of ms ++ n.id ∷ []
ids_of-append [] n = refl
ids_of-append (m ∷ ms) n = ap (λ r. m.id ∷ r) (ids_of-append ms n)

-- Writing an id that is not there leaves the others.
mapped-insert :
    (models : Map OpenAiModel) (n : OpenAiModel) (ms : List OpenAiModel)
    → owner_in n.id ms ≡ none
    → All (λ m. lookup m.id models ≡ some m) ms
    → All (λ m. lookup m.id (insert n.id n models) ≡ some m) ms
mapped-insert models n [] fresh h = tt
mapped-insert models n (m ∷ ms) fresh h = (
  ground (arith, lookup-insert n.id m.id n models, eq_iff n.id m.id, eq_iff m.id n.id, h.0, fresh),
  mapped-insert models n ms (ground arith) h.1,
)

pub put_model-Lists :
    (l : Listing) (ms : List OpenAiModel) (n : OpenAiModel)
    → owner_in n.id ms ≡ none
    → Lists l ms
    → Lists (put_model n l) (ms ++ n ∷ [])
put_model-Lists l ms n fresh h = record {
  ordered = ap (λ o. o ++ n.id ∷ []) h.ordered ∙ sym (ids_of-append ms n);
  mapped =
      All-append (λ m. lookup m.id (insert n.id n l.models) ≡ some m) ms (n ∷ [])
        (mapped-insert l.models n ms fresh h.mapped)
        (ground (arith, lookup-insert n.id n.id n l.models, eq_refl n.id), tt);
  absent = λ k gone.
      ground
        (arith, gone, owner_in-append k ms (n ∷ []), lookup-insert n.id k n l.models, h.absent k);
  distinct = Distinct-append ms n h.distinct fresh;
}
