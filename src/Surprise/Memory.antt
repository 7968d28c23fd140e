-- ===== src/Surprise/Memory.antt =====
-- services/backend/surprise/internal/domain/memory/memory.go: one store behind a mutex, so that
-- each method is one step. A map of pointers holds the pointed-to records: no pointer to one
-- escapes.
pub mod Links
pub mod Ideas
use perfect_gift.Prelude.{
  ℕ, String, Option, none, some, Bool, true, false, List, [], ◌∷◌, Result, ok, err, Exec, Call,
  GoMap, empty_map, put, leb, if◌then◌else◌, eqb,
}
use perfect_gift.Surprise.Types.{
  Time, Status, queued, Request, Idea, StatusInfo, GoError, not_found, duplicate, panicked,
}

pub record Store : Type 0 where
  pub requests : GoMap Request
  pub idem_by_key : GoMap String
  pub ideas : GoMap (List Idea)
  pub idea_by_id : GoMap Idea
  pub saved : GoMap (GoMap Bool)
  pub status : GoMap StatusInfo
  pub idem_cache : GoMap String
  pub llm_cache : GoMap (List Idea)

unfoldable pub new : Store
new = record {
  requests = empty_map;
  idem_by_key = empty_map;
  ideas = empty_map;
  idea_by_id = empty_map;
  saved = empty_map;
  status = empty_map;
  idem_cache = empty_map;
  llm_cache = empty_map;
}

abbrev found : {A : Type 0} → Option A → Result GoError A
found none = err not_found
found (some a) = ok a

-- CreateRequest; `now` is time.Now().UTC().
stamp_created : Time → Request → Request
stamp_created now r = if eqb r.created_at 0 then record r { created_at = now } else r

unfoldable pub create_request : Time → Request → Call Store GoError
unfolding stamp_created
create_request now r s = elim (s.idem_by_key r.idempotency_key) [
  | some _ ↦ (some duplicate, s)
  | none ↦ (
    none,
    record s {
      requests = put s.requests r.id (stamp_created now r);
      idem_by_key = put s.idem_by_key r.idempotency_key r.id;
    },
  )
]

unfoldable pub get_request : String → Store → Result GoError Request
get_request id s = found (s.requests id)

-- `cp := *s.requests[id]` dereferences nil if the id has no request.
deref_request : Option Request → Result GoError Request
deref_request none = err panicked
deref_request (some r) = ok r

unfoldable pub get_request_by_idempotency_key : String → Store → Result GoError Request
unfolding deref_request
get_request_by_idempotency_key key s = elim (s.idem_by_key key) [
  | none ↦ err not_found
  | some id ↦ deref_request (s.requests id)
]

-- A write through the pointer that s.requests[id] holds.
update_request : String → (Request → Request) → Call Store GoError
update_request id f s = elim (s.requests id) [
  | none ↦ (some not_found, s)
  | some r ↦ (none, record s { requests = put s.requests id (f r) })
]

unfoldable pub set_request_status : String → Status → Call Store GoError
unfolding update_request
set_request_status id st = update_request id (λ r. record r { status = st })

unfoldable pub mark_refinement : String → String → Call Store GoError
unfolding update_request
mark_refinement id text = update_request id (λ r. record r { refinement = text; status = queued })

-- The loop of SaveIdeas over the copied slice.
unfoldable pub index_ideas : List Idea → GoMap Idea → GoMap Idea
index_ideas [] m = m
index_ideas (i ∷ is) m = index_ideas is (put m i.id i)

unfoldable pub save_ideas : String → List Idea → Call Store GoError
save_ideas request_id ideas s = (
  none,
  record s { ideas = put s.ideas request_id ideas; idea_by_id = index_ideas ideas s.idea_by_id },
)

-- sort.SliceStable by rank: an item is placed in front of the later items of its rank.
pub insert_by_rank : Idea → List Idea → List Idea
insert_by_rank i [] = i ∷ []
insert_by_rank i (j ∷ js) = if leb i.rank j.rank then i ∷ j ∷ js else j ∷ insert_by_rank i js

pub sort_by_rank : List Idea → List Idea
unfolding insert_by_rank
sort_by_rank [] = []
sort_by_rank (i ∷ is) = insert_by_rank i (sort_by_rank is)

or_empty : {A : Type 0} → Option (List A) → List A
or_empty none = []
or_empty (some xs) = xs

unfoldable pub get_ideas : String → Store → Result GoError (List Idea)
unfolding sort_by_rank or_empty
get_ideas request_id s = ok (sort_by_rank (or_empty (s.ideas request_id)))

unfoldable pub get_idea : String → Store → Result GoError Idea
get_idea id s = found (s.idea_by_id id)

or_empty_map : {V : Type 0} → Option (GoMap V) → GoMap V
or_empty_map none = empty_map
or_empty_map (some m) = m

unfoldable pub save_idea_for_user : String → String → Call Store GoError
unfolding or_empty_map
save_idea_for_user user_id idea_id s = (
  none,
  record s { saved = put s.saved user_id (put (or_empty_map (s.saved user_id)) idea_id true) },
)

-- The zero value of a missing entry is false.
or_false : Option Bool → Bool
or_false none = false
or_false (some b) = b

unfoldable pub saved_for : String → String → Store → Bool
unfolding or_empty_map or_false
saved_for user_id idea_id s = or_false (or_empty_map (s.saved user_id) idea_id)

-- The cache half; times to live are ignored.
unfoldable pub set_status : String → StatusInfo → ℕ → Call Store GoError
set_status request_id info ttl s = (none, record s { status = put s.status request_id info })

unfoldable pub get_status : String → Store → Result GoError StatusInfo
get_status request_id s = found (s.status request_id)

unfoldable pub set_idempotency_if_absent : String → String → ℕ → Exec Store GoError (Bool × String)
set_idempotency_if_absent key request_id ttl s = elim (s.idem_cache key) [
  | some existing ↦ (ok (false, existing), s)
  | none ↦ (ok (true, request_id), record s { idem_cache = put s.idem_cache key request_id })
]

unfoldable pub get_llm_cache : String → Store → Result GoError (List Idea)
get_llm_cache hash s = found (s.llm_cache hash)

unfoldable pub set_llm_cache : String → List Idea → ℕ → Call Store GoError
set_llm_cache hash ideas ttl s = (none, record s { llm_cache = put s.llm_cache hash ideas })
