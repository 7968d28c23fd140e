-- ===== src/Surprise/Server/Idempotency.antt =====
-- Re-submitted idempotency keys, over the memory store and the in-memory bus.
use perfect_gift.Prelude.{
  String, true, false, ◌≡◌, ◌≢◌, none, some, [], ◌∷◌, ◌++◌, Result, ok, err, arith, eq_iff,
}
use perfect_gift.Grpc
use perfect_gift.Grpc.{fail_with, internal}
use perfect_gift.Surprise.Types.{Time, Request, GoError, GenerationRequested, Publisher}
use perfect_gift.Surprise.Messages.{
  GenerationRequest, GenerationResponse, generation_queued, tier_from_proto, status_to_proto,
}
use perfect_gift.Surprise.Memory.{
  create_request, get_request, set_idempotency_if_absent, set_status,
}
use perfect_gift.Surprise.Bus.{World, repository, cache, publisher, publish_generation_requested}
use perfect_gift.Surprise.Server.{
  Server, ServerConfig, request_generation, get_generation_status, existing_response, new_request,
}
use perfect_gift.Surprise.Server.Validation.{is_complete}

-- The server over the memory store, with a publisher of the bus.
abbrev pub server_with : Publisher World → Time → ServerConfig → Server World
server_with p now cfg = record { repo = repository now; cache = cache; publisher = p; cfg = cfg }

abbrev pub memory_server : Time → ServerConfig → Server World
memory_server = server_with publisher

abbrev pub answer : String → Result Grpc.Status GenerationResponse
answer id = ok (record { request_id = id; status = generation_queued })

module _ (now : Time) (cfg : ServerConfig) where
  -- A key whose slot is taken: the answer names the slot's request with its present status.
  pub taken_key_answers :
      (p : Publisher World) (new_id id : String) (req : GenerationRequest) (r : Request) (w : World)
      → is_complete req ≡ true
      → w.store.idem_cache req.idempotency_key ≡ some id
      → w.store.requests id ≡ some r
      → id ≢ ""
      → request_generation (server_with p now cfg) new_id now req w
        ≡ (ok (record { request_id = r.id; status = status_to_proto r.status }), w)
  unfolding request_generation existing_response set_idempotency_if_absent get_request is_complete
  taken_key_answers p new_id id req r w complete slot known named = ground (arith, eq_iff id "")

  -- The first request under a key is stored and enqueued.
  first_request_enqueued :
      (id : String) (req : GenerationRequest) (w : World)
      → is_complete req ≡ true
      → w.store.idem_cache req.idempotency_key ≡ none
      → w.store.idem_by_key req.idempotency_key ≡ none
      → let s = memory_server now cfg in
        let w' = (request_generation s id now req w).1 in
        ((request_generation s id now req w).0 ≡ answer id)
        × (w'.bus.jobs
            ≡ w.bus.jobs ++ record { request_id = id; tier = tier_from_proto req.tier } ∷ [])
        × (w'.store.idem_cache req.idempotency_key ≡ some id)
        × (w'.store.requests id ≡ some (new_request id now req))
  unfolding request_generation set_idempotency_if_absent create_request set_status is_complete
      publish_generation_requested new_request
  first_request_enqueued id req w complete slot free = (
    ground arith,
    ground arith,
    ground (arith, eq_iff req.idempotency_key req.idempotency_key),
    ground (arith, eq_iff id id),
  )

  -- Over the memory store and an in-memory bus whose publishing never fails, two complete
  -- submissions under one key that neither the cache nor the store knows, the first with an id
  -- that is not empty: both answer with the first one's id, one job is enqueued, and the second
  -- submission changes nothing.
  pub resubmission :
      (id id' : String) (req req' : GenerationRequest) (w : World)
      → is_complete req ≡ true
      → is_complete req' ≡ true
      → req'.idempotency_key ≡ req.idempotency_key
      → id ≢ ""
      → w.store.idem_cache req.idempotency_key ≡ none
      → w.store.idem_by_key req.idempotency_key ≡ none
      → let s = memory_server now cfg in
        let w' = (request_generation s id now req w).1 in
        ((request_generation s id now req w).0 ≡ answer id)
        × (w'.bus.jobs
            ≡ w.bus.jobs ++ record { request_id = id; tier = tier_from_proto req.tier } ∷ [])
        × (request_generation s id' now req' w' ≡ (answer id, w'))
  unfolding new_request status_to_proto
  resubmission id id' req req' w complete complete' same named slot free =
      let first = first_request_enqueued id req w complete slot free in
      let w' = (request_generation (memory_server now cfg) id now req w).1 in
      (
        first.0,
        first.1,
        taken_key_answers publisher id' id req' (new_request id now req) w' complete'
            (rw same first.2) first.3 named,
      )

  unpublished :
      (p : Publisher World) (e : GoError) (id : String) (req : GenerationRequest) (w : World)
      → is_complete req ≡ true
      → w.store.idem_cache req.idempotency_key ≡ none
      → w.store.idem_by_key req.idempotency_key ≡ none
      → ((job : GenerationRequested) (v : World)
          → p.publish_generation_requested job v ≡ (some e, v))
      → let s = server_with p now cfg in
        let w' = (request_generation s id now req w).1 in
        ((request_generation s id now req w).0 ≡ err (fail_with internal "enqueue job failed"))
        × (w'.bus.jobs ≡ w.bus.jobs)
        × (w'.store.idem_cache req.idempotency_key ≡ some id)
        × (w'.store.requests id ≡ some (new_request id now req))
  unfolding request_generation set_idempotency_if_absent create_request set_status is_complete
      new_request
  unpublished p e id req w complete slot free down = (
    grind arith,
    grind arith,
    grind (arith, eq_iff req.idempotency_key req.idempotency_key),
    grind (arith, eq_iff id id),
  )

  -- When the job of a complete request under a fresh key cannot be published, it is stored and
  -- refused; the retry that the client makes under the same key is accepted as queued, and no job
  -- is published for it.
  pub lost_job :
      (p : Publisher World) (e : GoError) (id id' : String) (req : GenerationRequest) (w : World)
      → is_complete req ≡ true
      → id ≢ ""
      → w.store.idem_cache req.idempotency_key ≡ none
      → w.store.idem_by_key req.idempotency_key ≡ none
      → ((job : GenerationRequested) (v : World)
          → p.publish_generation_requested job v ≡ (some e, v))
      → let w' = (request_generation (server_with p now cfg) id now req w).1 in
        ((request_generation (server_with p now cfg) id now req w).0
          ≡ err (fail_with internal "enqueue job failed"))
        × (request_generation (memory_server now cfg) id' now req w' ≡ (answer id, w'))
        × (w'.bus.jobs ≡ w.bus.jobs)
  unfolding new_request status_to_proto
  lost_job p e id id' req w complete named slot free down =
      let sent = unpublished p e id req w complete slot free down in
      let w' = (request_generation (server_with p now cfg) id now req w).1 in
      (
        sent.0,
        taken_key_answers publisher id' id req (new_request id now req) w' complete sent.2 sent.3
            named,
        sent.1,
      )

-- A slot that names a request which was never stored: the answer is that the request is queued, but
-- nobody can ever ask for its status.
pub phantom_request :
    {W : Type 0} (s : Server W) (new_id id caller : String) (now : Time) (req : GenerationRequest)
    (w : W) (e e' : GoError)
    → is_complete req ≡ true
    → id ≢ ""
    → s.cache.set_idempotency_if_absent req.idempotency_key new_id s.cfg.idempotency_ttl w
      ≡ (ok (false, id), w)
    → s.repo.get_request id w ≡ err e
    → s.repo.get_request_by_idempotency_key req.idempotency_key w ≡ err e'
    → (request_generation s new_id now req w ≡ (answer id, w))
      × (get_generation_status s caller id w
          ≡ (err (fail_with Grpc.not_found "request not found"), w))
unfolding request_generation existing_response get_generation_status is_complete
phantom_request s new_id id caller now req w e e' complete named slot absent unknown =
    (grind (arith, eq_iff id ""), grind (arith, eq_iff id ""))
