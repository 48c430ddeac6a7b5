-- ===== src/Session/Rows.antt =====
-- The rows of messages of hive-server-go/db.go that a deletion and an insertion leave.
use ollama_local_hives_clust.Prelude.{
  ◌≡◌, refl, String, false, List, [], ◌∷◌, ◌++◌, str_eq, eq_iff, All, arith,
}
use ollama_local_hives_clust.Session.{CodingAgentMessage, messages_of, taken_id}
use ollama_local_hives_clust.Session.Compress.{delete_id, delete_all}

abbrev pub Fresh : String → List CodingAgentMessage → Type 0
Fresh id ms = All (λ m. str_eq m.id id ≡ false) ms

abbrev pub DistinctIds : List CodingAgentMessage → Type 0
DistinctIds [] = Unit
DistinctIds (m ∷ ms) = Fresh m.id ms × DistinctIds ms

pub messages_of-delete_id :
    (sid id : String) (ms : List CodingAgentMessage)
    → messages_of sid (delete_id id ms) ≡ delete_id id (messages_of sid ms)
unfolding messages_of delete_id
messages_of-delete_id sid id [] = refl
messages_of-delete_id sid id (m ∷ ms) = ground (arith, messages_of-delete_id sid id ms)

pub messages_of-delete_all :
    (sid : String) (xs ms : List CodingAgentMessage)
    → messages_of sid (delete_all xs ms) ≡ delete_all xs (messages_of sid ms)
unfolding delete_all
messages_of-delete_all sid [] ms = refl
messages_of-delete_all sid (x ∷ xs) ms =
    rw (messages_of-delete_all sid xs (delete_id x.id ms), messages_of-delete_id sid x.id ms) refl

pub messages_of-append :
    (sid : String) (xs ys : List CodingAgentMessage)
    → messages_of sid (xs ++ ys) ≡ messages_of sid xs ++ messages_of sid ys
unfolding messages_of
messages_of-append sid [] ys = refl
messages_of-append sid (x ∷ xs) ys = ground (arith, messages_of-append sid xs ys)

pub delete_id-Fresh :
    (id : String) (ms : List CodingAgentMessage) → Fresh id ms → delete_id id ms ≡ ms
unfolding delete_id
delete_id-Fresh id [] f = refl
delete_id-Fresh id (m ∷ ms) f = rw (f.0, delete_id-Fresh id ms f.1) refl

pub delete_all-front :
    (h : CodingAgentMessage) (xs ys : List CodingAgentMessage)
    → DistinctIds (h ∷ xs ++ ys)
    → delete_all xs (h ∷ xs ++ ys) ≡ h ∷ ys
unfolding delete_all delete_id
delete_all-front h [] ys d = refl
delete_all-front h (x ∷ xs) ys d =
    let apart : str_eq h.id x.id ≡ false =
      ground (arith, eq_iff h.id x.id, eq_iff x.id h.id, d.0.0) in
    rw (apart, (eq_iff x.id x.id).1 refl, delete_id-Fresh x.id (xs ++ ys) d.1.0)
      (delete_all-front h xs ys (d.0.1, d.1.1))

pub taken_id-delete_id :
    (id other : String) (ms : List CodingAgentMessage)
    → taken_id id ms ≡ false
    → taken_id id (delete_id other ms) ≡ false
unfolding delete_id
taken_id-delete_id id other [] h = refl
taken_id-delete_id id other (m ∷ ms) h = ground (arith, taken_id-delete_id id other ms)

pub taken_id-delete_all :
    (id : String) (xs ms : List CodingAgentMessage)
    → taken_id id ms ≡ false
    → taken_id id (delete_all xs ms) ≡ false
unfolding delete_all
taken_id-delete_all id [] ms h = h
taken_id-delete_all id (x ∷ xs) ms h =
    taken_id-delete_all id xs (delete_id x.id ms) (taken_id-delete_id id x.id ms h)

pub messages_of-own :
    (sid : String) (m : CodingAgentMessage) → m.session_id ≡ sid → messages_of sid (m ∷ []) ≡ m ∷ []
unfolding messages_of
messages_of-own sid m e = ground (arith, eq_iff m.session_id sid)
