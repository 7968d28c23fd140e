-- ===== src/Tests/Requests.antt =====
-- The Surprise service's request path and its memory store at concrete inputs.
use perfect_gift.Prelude.{ℕ, String, [], ◌∷◌, ◌≡◌, ◌++◌, refl, some, err, arith, eq_iff}
use perfect_gift.Grpc.{fail_with, internal}
use perfect_gift.Surprise.Types.{Request, Idea, failure, approved, Publisher}
use perfect_gift.Surprise.Messages.{GenerationRequest, model_tier_opus, tier_from_proto}
use perfect_gift.Surprise.Memory
use perfect_gift.Surprise.Memory.{Store, new}
use perfect_gift.Surprise.Bus.{World, publisher}
use perfect_gift.Surprise.Server.{
  ServerConfig, request_generation, get_generation_status, get_ideas, refine, new_request,
}
use perfect_gift.Surprise.Server.Validation.{is_complete}
use perfect_gift.Surprise.Server.Authorization.{denied, stranger_denied}
use perfect_gift.Surprise.Server.Idempotency.{
  server_with, memory_server, answer, resubmission, lost_job,
}

abbrev cfg : ServerConfig
cfg = record { status_ttl = 0; idempotency_ttl = 0 }

abbrev ann_asks : GenerationRequest
ann_asks = record {
  user_id = "ann";
  holiday_id = "xmas";
  budget_band = "mid";
  preferences_text = "books";
  poll_id = "";
  idempotency_key = "k1";
  tier = model_tier_opus;
}

abbrev anonymous_asks : GenerationRequest
anonymous_asks = record ann_asks { user_id = "" }

abbrev stored : Request
stored = new_request "r1" 7 ann_asks

abbrev idle : World
idle = record { store = new; bus = record { jobs = []; ready = [] } }

abbrev idea : String → ℕ → Idea
idea id rank = record {
  id = id;
  request_id = "r1";
  title = "a gift";
  why_it_fits = "";
  rough_cost = "";
  how_to = "";
  rank = rank;
  moderation = approved;
  embedding = [];
  created_at = 0;
}

abbrev with_request : World
with_request = record idle { store = (Memory.create_request 7 stored new).1 }

abbrev with_idea : World
with_idea = record with_request {
  store = (Memory.save_ideas "r1" (idea "i1" 1 ∷ []) with_request.store).1;
}

abbrev broken_publisher : Publisher World
broken_publisher = record publisher {
  publish_generation_requested = λ job w. (some (failure "down"), w);
}

stranger_denied_example :
    (get_generation_status (memory_server 7 cfg) "bob" "r1" with_request ≡ (denied, with_request))
    × (get_ideas (memory_server 7 cfg) "bob" "r1" with_request ≡ (denied, with_request))
    × (refine (memory_server 7 cfg) "bob" "r1" "cheaper" with_request ≡ (denied, with_request))
unfolding new new_request Memory.create_request Memory.get_request
stranger_denied_example =
    stranger_denied (memory_server 7 cfg) "bob" "r1" "cheaper" stored with_request
      (ground (arith, eq_iff "bob" "")) (ground (arith, eq_iff "r1" ""))
      (ground (arith, eq_iff "cheaper" "")) refl (ground (arith, eq_iff "bob" "ann"))

resubmission_example :
    let s = memory_server 7 cfg in
    let w = (request_generation s "r1" 7 ann_asks idle).1 in
    ((request_generation s "r1" 7 ann_asks idle).0 ≡ answer "r1")
    × (w.bus.jobs
        ≡ idle.bus.jobs
          ++ record { request_id = "r1"; tier = tier_from_proto model_tier_opus } ∷ [])
    × (request_generation s "r2" 7 ann_asks w ≡ (answer "r1", w))
unfolding is_complete new
resubmission_example =
    resubmission 7 cfg "r1" "r2" ann_asks ann_asks idle refl refl refl
      (ground (arith, eq_iff "r1" "")) refl refl

lost_job_example :
    let w = (request_generation (server_with broken_publisher 7 cfg) "r1" 7 ann_asks idle).1 in
    ((request_generation (server_with broken_publisher 7 cfg) "r1" 7 ann_asks idle).0
      ≡ err (fail_with internal "enqueue job failed"))
    × (request_generation (memory_server 7 cfg) "r2" 7 ann_asks w ≡ (answer "r1", w))
    × (w.bus.jobs ≡ idle.bus.jobs)
unfolding is_complete new
lost_job_example =
    lost_job 7 cfg broken_publisher (failure "down") "r1" "r2" ann_asks idle refl
      (ground (arith, eq_iff "r1" "")) refl refl (λ job v. refl)
