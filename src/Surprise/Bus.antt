-- ===== src/Surprise/Bus.antt =====
-- services/backend/surprise/internal/events/events.go, the in-memory Bus, and the world in which
-- the handlers run against it and the memory store.
use perfect_gift.Prelude.{Bool, true, false, Option, none, some, List, [], ◌∷◌, ◌++◌, Call, Exec}
use perfect_gift.Surprise.Types.{
  Time, GoError, GenerationRequested, IdeasReady, Repository, Cache, Publisher,
}
use perfect_gift.Surprise.Memory
use perfect_gift.Surprise.Memory.{Store}

pub record Bus : Type 0 where
  pub jobs : List GenerationRequested
  pub ready : List IdeasReady

pub record World : Type 0 where
  pub store : Store
  pub bus : Bus

-- Handler
abbrev pub Handler : Type 0 → Type 0
Handler W = GenerationRequested → Call W GoError

record_job : GenerationRequested → World → World
record_job job w = record w { bus = record w.bus { jobs = w.bus.jobs ++ job ∷ [] } }

-- Bus.PublishGenerationRequested: `dispatch` and the registered handler are fixed once the worker
-- has started, so they are arguments.
unfoldable pub publish_generation_requested :
    Bool → Option (Handler World) → GenerationRequested → Call World GoError
unfolding record_job
publish_generation_requested true (some h) job w = h job (record_job job w)
publish_generation_requested true none job w = (none, record_job job w)
publish_generation_requested false handler job w = (none, record_job job w)

unfoldable pub publish_ideas_ready : IdeasReady → Call World GoError
publish_ideas_ready evt w =
    (none, record w { bus = record w.bus { ready = w.bus.ready ++ evt ∷ [] } })

-- Lifting the store's methods to the world.
abbrev pub on_store : Call Store GoError → Call World GoError
on_store f w = ((f w.store).0, record w { store = (f w.store).1 })

abbrev pub exec_on_store : {A : Type 0} → Exec Store GoError A → Exec World GoError A
exec_on_store f w = ((f w.store).0, record w { store = (f w.store).1 })

-- The store as domain.Repository and as domain.Cache, and the bus without dispatch as Publisher.
abbrev pub repository : Time → Repository World
repository now = record {
  create_request = λ r. on_store (Memory.create_request now r);
  get_request = λ id w. Memory.get_request id w.store;
  get_request_by_idempotency_key = λ key w. Memory.get_request_by_idempotency_key key w.store;
  set_request_status = λ id st. on_store (Memory.set_request_status id st);
  mark_refinement = λ id text. on_store (Memory.mark_refinement id text);
  save_ideas = λ id ideas. on_store (Memory.save_ideas id ideas);
  get_ideas = λ id w. Memory.get_ideas id w.store;
  get_idea = λ id w. Memory.get_idea id w.store;
  save_idea_for_user = λ user idea. on_store (Memory.save_idea_for_user user idea);
}

abbrev pub cache : Cache World
cache = record {
  set_status = λ id info ttl. on_store (Memory.set_status id info ttl);
  get_status = λ id w. Memory.get_status id w.store;
  set_idempotency_if_absent =
      λ key id ttl. exec_on_store (Memory.set_idempotency_if_absent key id ttl);
  get_llm_cache = λ hash w. Memory.get_llm_cache hash w.store;
  set_llm_cache = λ hash ideas ttl. on_store (Memory.set_llm_cache hash ideas ttl);
}

abbrev pub publisher : Publisher World
publisher = record {
  publish_generation_requested = publish_generation_requested false none;
  publish_ideas_ready = publish_ideas_ready;
}
