-- ===== src/Surprise/Pipeline.antt =====
-- services/backend/surprise/internal/pipeline/pipeline.go: the worker's generation job, over a
-- state W of the repository, the cache and the bus, and a state M of the model client. The Poll
-- and Catalog services are functions that answer or fail. uuid.NewString() and time.Now() are
-- arguments: the idea of rank k takes the id `uuid k`.
pub mod Ranking
pub mod Outcomes
pub mod Caching
use Prim.Native.String.{◌++◌}
use perfect_gift.Prelude.{
  ℕ, suc, String, List, [], ◌∷◌, Bool, true, false, Option, none, some, Result, ok, err, Exec,
  is_blank, eqb, ◌==◌, if◌then◌else◌, try_call, ◌>>◌, length,
}
use perfect_gift.Surprise.Types.{
  Time, Status, running, ready, failed, approved, Request, Idea, Embedding, GoError, wrapped,
  GenerationRequested, Repository, Cache, Publisher,
}
use perfect_gift.Surprise.Llm.{Client, GenerateParams, LlmIdea}
use perfect_gift.Surprise.Inputs.{grounding_query, hash_inputs, tier_for, to_candidates}

pub record Config : Type 0 where
  pub ideas_wanted : ℕ
  pub status_ttl : ℕ
  pub llm_cache_ttl : ℕ

-- The default of New; a negative count is read as 0 here.
unfoldable pub with_defaults : Config → Config
with_defaults cfg = record cfg {
  ideas_wanted = if eqb cfg.ideas_wanted 0 then 5 else cfg.ideas_wanted;
}

pub record Pipeline (W M : Type 0) : Type 0 where
  pub repo : Repository W
  pub cache : Cache W
  pub llm : Client M
  pub poll : Option (String → Result GoError (List String))
  pub catalog : Option (String → Embedding → String → ℕ → Result GoError (List String))
  pub publisher : Publisher W
  pub cfg : Config
  pub to_lower : String → String
  pub sha256_hex : String → String

-- What the job returns, and the states it leaves.
abbrev pub Outcome : Type 0 → Type 0 → Type 0
Outcome W M = Option GoError × W × M

-- A failed moderation drops the candidate as a negative one does.
unfoldable pub approves : Result GoError Bool → Bool
approves (ok b) = b
approves (err _) = false

abbrev pub moderated_text : Idea → String
moderated_text c = c.title ++ ". " ++ c.why_it_fits ++ ". " ++ c.how_to

module _ {W M : Type 0} (p : Pipeline W M) where
  -- setStatus: the repository is told of `running` alone.
  tell_repository : String → Status → W → W
  tell_repository id running w = (p.repo.set_request_status id running w).1
  tell_repository id _ w = w

  unfoldable pub set_status : String → Status → ℕ → W → W
  unfolding tell_repository
  set_status id s progress w =
      tell_repository id s
        (p.cache.set_status id (record { status = s; progress = progress }) p.cfg.status_ttl w).1

  unfoldable pub fail : String → W → W
  unfolding set_status
  fail id w = (p.repo.set_request_status id failed (set_status id failed 0 w)).1

  or_none : Result GoError (List Idea) → Option (List Idea)
  or_none (err _) = none
  or_none (ok []) = none
  or_none (ok (c ∷ cs)) = some (c ∷ cs)

  unfoldable pub cached_candidates : String → W → Option (List Idea)
  unfolding or_none
  cached_candidates hash w = or_none (p.cache.get_llm_cache hash w)

  or_nil : Result GoError (List String) → List String
  or_nil (ok xs) = xs
  or_nil (err _) = []

  unfoldable pub gather_poll : String → List String
  unfolding or_nil
  gather_poll poll_id = elim p.poll [
    | none ↦ []
    | some get_responses ↦ if poll_id == "" then [] else or_nil (get_responses poll_id)
  ]

  unfoldable pub gather_catalog : Request → Embedding → List String
  unfolding or_nil
  gather_catalog req embedding = elim p.catalog [
    | none ↦ []
    | some search ↦
        or_nil (search (grounding_query req) embedding req.budget_band p.cfg.ideas_wanted)
  ]

  -- A blank title is dropped before the model is asked; a failed or negative moderation drops too.
  pub screen : Idea → M → Bool × M
  unfolding approves
  screen c m = if is_blank c.title then (false, m) else (
    approves (p.llm.moderate (moderated_text c) m).0,
    (p.llm.moderate (moderated_text c) m).1,
  )

  pub stamp : Request → (ℕ → String) → Time → ℕ → Idea → Embedding → Idea
  stamp req uuid now rank c embedding = record {
    id = uuid rank;
    request_id = req.id;
    title = c.title;
    why_it_fits = c.why_it_fits;
    rough_cost = c.rough_cost;
    how_to = c.how_to;
    rank = rank;
    moderation = approved;
    embedding = embedding;
    created_at = now;
  }

  abbrev pub embed_idea : Idea → M → Embedding × M
  embed_idea c m = (
    (p.llm.embed (c.title ++ " " ++ c.why_it_fits) m).0.0,
    (p.llm.embed (c.title ++ " " ++ c.why_it_fits) m).1,
  )

  -- The loop of moderateValidateRank, from the next rank on.
  pub rank_from : Request → (ℕ → String) → Time → ℕ → List Idea → M → List Idea × M
  rank_from req uuid now rank [] m = ([], m)
  rank_from req uuid now rank (c ∷ cs) m = elim (screen c m).0 [
    | false ↦ rank_from req uuid now rank cs (screen c m).1
    | true ↦
        let embedded = embed_idea c (screen c m).1 in
        let rest = rank_from req uuid now (suc rank) cs embedded.1 in
        (stamp req uuid now rank c embedded.0 ∷ rest.0, rest.1)
  ]

  unfoldable pub moderate_validate_rank :
      Request → (ℕ → String) → Time → List Idea → M → List Idea × M
  unfolding rank_from
  moderate_validate_rank req uuid now candidates m = rank_from req uuid now 1 candidates m

  -- Steps 7 and 8. The cache is told before the repository.
  pub persist : Request → List Idea → Exec W GoError (Unit {0})
  unfolding set_status
  persist req ideas = do
    try_call (wrapped "save ideas") (p.repo.save_ideas req.id ideas)
    λ w. (ok tt, set_status req.id ready 100 w)
    try_call (wrapped "set ready") (p.repo.set_request_status req.id ready)
    try_call (wrapped "publish ideas ready") (
        p.publisher.publish_ideas_ready
          (record { request_id = req.id; user_id = req.user_id; idea_count = length ideas }))

  error_of : Result GoError (Unit {0}) → Option GoError
  error_of (ok _) = none
  error_of (err e) = some e

  finish : Request → List Idea → W → M → Outcome W M
  unfolding fail persist error_of
  finish req [] w m = (none, fail req.id w, m)
  finish req (i ∷ is) w m = (error_of (persist req (i ∷ is) w).0, (persist req (i ∷ is) w).1, m)

  -- Step 6 on.
  pub moderate_and_finish : Request → (ℕ → String) → Time → List Idea → W → M → Outcome W M
  unfolding finish set_status moderate_validate_rank
  moderate_and_finish req uuid now candidates w m =
      let ranked = moderate_validate_rank req uuid now candidates m in
      finish req ranked.0 (set_status req.id running 70 w) ranked.1

  pub params : Request → Embedding → GenerateParams
  unfolding gather_poll gather_catalog
  params req embedding = record {
    holiday = req.holiday_id;
    budget_band = req.budget_band;
    preferences = req.preferences_text;
    poll_answers = gather_poll req.poll_id;
    inspiration = gather_catalog req embedding;
    refinement = req.refinement;
    n = p.cfg.ideas_wanted;
    tier = tier_for req.tier;
  }

  abbrev pub hash : Request → String
  hash req = hash_inputs p.to_lower p.sha256_hex req p.cfg.ideas_wanted

  after_generation :
      Request → (ℕ → String) → Time → Result GoError (List LlmIdea) → W → M → Outcome W M
  unfolding moderate_and_finish fail
  after_generation req uuid now (err _) w m = (none, fail req.id w, m)
  after_generation req uuid now (ok gen) w m =
      moderate_and_finish req uuid now (to_candidates gen)
        (p.cache.set_llm_cache (hash req) (to_candidates gen) p.cfg.llm_cache_ttl w).1 m

  -- Steps 4 and 5.
  generate : Request → (ℕ → String) → Time → W → M → Outcome W M
  unfolding params after_generation set_status
  generate req uuid now w m =
      let embedded = p.llm.embed (grounding_query req) m in
      let gen = p.llm.generate_ideas (params req embedded.0.0) embedded.1 in
      after_generation req uuid now gen.0 (set_status req.id running 40 w) gen.1

  after_cache : Request → (ℕ → String) → Time → Option (List Idea) → W → M → Outcome W M
  unfolding generate moderate_and_finish
  after_cache req uuid now (some candidates) w m = moderate_and_finish req uuid now candidates w m
  after_cache req uuid now none w m = generate req uuid now w m

  -- Steps 2 and 3.
  after_load : String → (ℕ → String) → Time → Result GoError Request → W → M → Outcome W M
  unfolding after_cache cached_candidates set_status
  after_load id uuid now (err e) w m = (some (wrapped ("load request " ++ id) e), w, m)
  after_load id uuid now (ok req) w m =
      let w' = set_status req.id running 10 w in
      after_cache req uuid now (cached_candidates (hash req) w') w' m

  -- Run
  unfoldable pub run : (ℕ → String) → Time → GenerationRequested → W → M → Outcome W M
  unfolding after_load
  run uuid now job w m =
      after_load job.request_id uuid now (p.repo.get_request job.request_id w) w m
