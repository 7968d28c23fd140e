-- ===== src/Surprise/Pipeline/Outcomes.antt =====
-- How a job ends, over the memory store and the in-memory bus.
use Prim.Native.String.{◌++◌ as concat}
use perfect_gift.Prelude.{
  sym, ap, subst, keep, map, Bool, ℕ, String, List, [], ◌∷◌, ◌++◌, ◌≡◌, ◌≢◌, ◌⊎◌, inl, inr, refl,
  Option, none, some, Result, ok, err, arith, length, eq_iff,
}
use perfect_gift.Surprise.Types.{
  Time, Tier, Status, running, ready, failed, Request, Idea, Embedding, GoError, not_found, wrapped,
}
use perfect_gift.Surprise.Llm.{Client, LlmIdea}
use perfect_gift.Surprise.Inputs.{grounding_query, to_candidates}
use perfect_gift.Surprise.Memory.{
  get_llm_cache, get_request, set_request_status, set_status, save_ideas, set_llm_cache,
}
use perfect_gift.Surprise.Bus.{World, repository, cache, publisher, publish_ideas_ready}
use perfect_gift.Surprise.Pipeline as P
use perfect_gift.Surprise.Pipeline.{
  params, Pipeline, Config, Outcome, run, after_load, after_cache, generate, after_generation,
  moderate_and_finish, finish, persist, fail, moderate_validate_rank, hash, cached_candidates,
}
use perfect_gift.Surprise.Pipeline.Ranking.{
  acceptable, moderate_validate_rank-keep, content, Amounts, Content, IsRanked,
  moderate_validate_rank-IsRanked,
}

-- Everything that the pipeline takes from outside, and its tuning.
pub record Outside (M : Type 0) : Type 0 where
  pub llm : Client M
  pub poll : Option (String → Result GoError (List String))
  pub catalog : Option (String → Embedding → String → ℕ → Result GoError (List String))
  pub cfg : Config
  pub to_lower : String → String
  pub sha256_hex : String → String

abbrev pub over_memory : {M : Type 0} → Time → Outside M → Pipeline World M
over_memory now o = record {
  repo = repository now;
  cache = cache;
  llm = o.llm;
  poll = o.poll;
  catalog = o.catalog;
  publisher = publisher;
  cfg = o.cfg;
  to_lower = o.to_lower;
  sha256_hex = o.sha256_hex;
}

-- What a job has left alone before it ends: the request but for its status, the bus, the ideas.
pub record IsUnderway (req : Request) (w w' : World) : Type 0 where
  pub status : Status
  pub known : w'.store.requests req.id ≡ some (record req { status = status })
  pub same_bus : w'.bus ≡ w.bus
  pub same_ideas : w'.store.ideas ≡ w.store.ideas

abbrev pub IsAt : String → Status → ℕ → World → Type 0
IsAt id st progress w = w.store.status id ≡ some (record { status = st; progress = progress })

-- The two ways to end.
pub record HasFailed (req : Request) (w w' : World) : Type 0 where
  pub stored : w'.store.requests req.id ≡ some (record req { status = failed })
  pub cached : IsAt req.id failed 0 w'
  pub same_bus : w'.bus ≡ w.bus
  pub same_ideas : w'.store.ideas ≡ w.store.ideas

pub record HasDelivered (req : Request) (uuid : ℕ → String) (ideas : List Idea) (w w' : World)
    : Type 0 where
  pub stored : w'.store.requests req.id ≡ some (record req { status = ready })
  pub cached : IsAt req.id ready 100 w'
  pub some_ideas : ideas ≢ []
  pub ranked : IsRanked req uuid 1 ideas
  pub saved : w'.store.ideas req.id ≡ some ideas
  pub announced :
      w'.bus.ready
      ≡ w.bus.ready
        ++ record { request_id = req.id; user_id = req.user_id; idea_count = length ideas } ∷ []
  pub same_jobs : w'.bus.jobs ≡ w.bus.jobs

module _ {M : Type 0} (clock : Time) (o : Outside M) (req : Request) (uuid : ℕ → String)
    (now : Time) where
  abbrev p : Pipeline World M
  p = over_memory clock o

  fail-HasFailed : (w w' : World) → IsUnderway req w w' → HasFailed req w (fail p req.id w')
  unfolding fail set_request_status set_status
  fail-HasFailed w w' u = record {
    stored = ground (arith, eq_iff req.id req.id);
    cached = ground (arith, eq_iff req.id req.id);
    same_bus = ground arith;
    same_ideas = ground arith;
  }

  running-IsUnderway :
      (progress : ℕ) (w w' : World)
      → IsUnderway req w w'
      → IsUnderway req w (P.set_status p req.id running progress w')
  unfolding P.set_status set_request_status set_status
  running-IsUnderway progress w w' u = record {
    status = running;
    known = ground (arith, eq_iff req.id req.id);
    same_bus = ground arith;
    same_ideas = ground arith;
  }

  llm_cache-IsUnderway :
      (key : String) (cs : List Idea) (ttl : ℕ) (w w' : World)
      → IsUnderway req w w'
      → IsUnderway req w (p.cache.set_llm_cache key cs ttl w').1
  unfolding set_llm_cache
  llm_cache-IsUnderway key cs ttl w w' u = record {
    status = u.status;
    known = ground arith;
    same_bus = ground arith;
    same_ideas = ground arith;
  }

  persist-HasDelivered :
      (ideas : List Idea) (w w' : World)
      → IsUnderway req w w'
      → ideas ≢ []
      → IsRanked req uuid 1 ideas
      → ((persist p req ideas w').0 ≡ ok tt)
        × HasDelivered req uuid ideas w (persist p req ideas w').1
  unfolding persist save_ideas set_status set_request_status publish_ideas_ready
  persist-HasDelivered ideas w w' u some_ideas ranked = (
    ground arith,
    record {
      stored = ground (arith, eq_iff req.id req.id);
      cached = ground (arith, eq_iff req.id req.id);
      some_ideas = some_ideas;
      ranked = ranked;
      saved = ground (arith, eq_iff req.id req.id);
      announced = ground arith;
      same_jobs = ground arith;
    },
  )

  -- What a model's draft says.
  abbrev pub draft : LlmIdea → Content
  draft i = (i.title, i.why_it_fits, i.rough_cost, i.how_to)

  abbrev pub drafts : Result GoError (List LlmIdea) → Option (List Content)
  drafts (err e) = none
  drafts (ok gen) = some (map draft gen)

  -- The model's answer to the request: its embedding is asked for first.
  abbrev pub generated : M → Result GoError (List LlmIdea)
  generated m =
      let embedded = o.llm.embed (grounding_query req) m in
      (o.llm.generate_ideas (params p req embedded.0.0) embedded.1).0

  abbrev pub or_drafts : Option (List Idea) → Option (List Content) → Option (List Content)
  or_drafts (some (c ∷ cs)) later = some (map content (c ∷ cs))
  or_drafts (some []) later = later
  or_drafts none later = later

  -- What the job has to choose from: the ideas kept for the request's inputs, if there are any,
  -- and otherwise what the model answers, if it answers.
  abbrev pub offered : World → M → Option (List Content)
  offered w m = or_drafts (w.store.llm_cache (hash p req)) (drafts (generated m))

  start-IsUnderway : (w : World) → w.store.requests req.id ≡ some req → IsUnderway req w w
  start-IsUnderway w known = record {
    status = req.status;
    known = known;
    same_bus = refl;
    same_ideas = refl;
  }

  module _ (verdict : String → Bool)
      (judged : (text : String) (m : M) → Amounts (verdict text) (o.llm.moderate text m).0) where
    -- Nothing to choose from, or nothing acceptable in it: the job fails. Otherwise it delivers
    -- exactly what is acceptable.
    unfoldable pub EndsWith : Option (List Content) → World → World → Type 0
    EndsWith none w w' = HasFailed req w w'
    EndsWith (some cs) w w' =
        ((keep (acceptable verdict) cs ≡ []) × HasFailed req w w')
        ⊎ ((ideas : List Idea) × HasDelivered req uuid ideas w w'
            × (map content ideas ≡ keep (acceptable verdict) cs))

    abbrev pub Ends : World → M → Outcome World M → Type 0
    Ends w m out = (out.0 ≡ none) × EndsWith (offered w m) w out.1

    Closes : Option (List Content) → World → Outcome World M → Type 0
    Closes cs w out = (out.0 ≡ none) × EndsWith cs w out.1

    finish-Ends :
        (cs : List Content) (ideas : List Idea) (w w' : World) (m : M)
        → IsUnderway req w w'
        → IsRanked req uuid 1 ideas
        → map content ideas ≡ keep (acceptable verdict) cs
        → Closes (some cs) w (finish p req ideas w' m)
    unfolding finish Closes EndsWith
    finish-Ends cs [] w w' m u ranked kept = (refl, inl (sym kept, fail-HasFailed w w' u))
    finish-Ends cs (i ∷ is) w w' m u ranked kept =
        let done = persist-HasDelivered (i ∷ is) w w' u (λ e. cc) ranked in
        (ground arith, inr (i ∷ is, done.1, kept))

    moderate_and_finish-Ends :
        (cs : List Idea) (w w' : World) (m : M)
        → IsUnderway req w w'
        → Closes (some (map content cs)) w (moderate_and_finish p req uuid now cs w' m)
    unfolding moderate_and_finish
    moderate_and_finish-Ends cs w w' m u =
        finish-Ends (map content cs) (moderate_validate_rank p req uuid now cs m).0 w
          (P.set_status p req.id running 70 w') (moderate_validate_rank p req uuid now cs m).1
          (running-IsUnderway 70 w w' u) (moderate_validate_rank-IsRanked p req uuid now cs m)
          (moderate_validate_rank-keep p req uuid now verdict judged cs m)

    content-to_candidates : (gen : List LlmIdea) → map content (to_candidates gen) ≡ map draft gen
    unfolding to_candidates
    content-to_candidates [] = refl
    content-to_candidates (i ∷ is) = ap (λ rest. draft i ∷ rest) (content-to_candidates is)

    after_generation-Ends :
        (gen : Result GoError (List LlmIdea)) (w w' : World) (m : M)
        → IsUnderway req w w'
        → Closes (drafts gen) w (after_generation p req uuid now gen w' m)
    unfolding after_generation Closes EndsWith
    after_generation-Ends (err e) w w' m u = (refl, fail-HasFailed w w' u)
    after_generation-Ends (ok gen) w w' m u =
        subst (λ cs. Closes (some cs) w (after_generation p req uuid now (ok gen) w' m))
          (content-to_candidates gen)
          (moderate_and_finish-Ends (to_candidates gen) w
            (p.cache.set_llm_cache (hash p req) (to_candidates gen) o.cfg.llm_cache_ttl w').1 m
            (llm_cache-IsUnderway (hash p req) (to_candidates gen) o.cfg.llm_cache_ttl w w' u))

    -- Steps 3 to 8, from the entry of the cache on.
    after_cache-Ends :
        (cached : Option (List Idea)) (w w' : World) (m : M)
        → w'.store.llm_cache (hash p req) ≡ cached
        → IsUnderway req w w'
        → Closes
            (or_drafts cached (drafts (generated m)))
            w
            (after_cache p req uuid now (cached_candidates p (hash p req) w') w' m)
    unfolding after_cache generate cached_candidates get_llm_cache
    after_cache-Ends (some (c ∷ cs)) w w' m hit u =
        rw hit (moderate_and_finish-Ends (c ∷ cs) w w' m u)
    after_cache-Ends (some []) w w' m hit u = rw hit (
        after_generation-Ends _ w (P.set_status p req.id running 40 w') _
          (running-IsUnderway 40 w w' u))
    after_cache-Ends none w w' m hit u = rw hit (
        after_generation-Ends _ w (P.set_status p req.id running 40 w') _
          (running-IsUnderway 40 w w' u))

    kept_llm_cache :
        (w : World)
        → (P.set_status p req.id running 10 w).store.llm_cache (hash p req)
          ≡ w.store.llm_cache (hash p req)
    unfolding P.set_status set_request_status set_status
    kept_llm_cache w = ground arith

    -- A job over a stored request, with the memory store and the in-memory bus, which keep every
    -- entry and never fail, and with a model whose moderation depends on the text alone, returns
    -- no error to redeliver, whatever else the model, Poll and Catalog answer. It chooses from the
    -- ideas kept for its inputs, or else from what the model answers. When the model answers an
    -- error, or nothing has both a title and a text that the moderation approves, the job has
    -- failed: the request and its cached status say so, and neither the bus nor the ideas have
    -- changed. Otherwise it has delivered: exactly the acceptable ones, in their order, ranked,
    -- are stored for the request, both statuses say ready, and one IdeasReady event with their
    -- number has been published.
    pub run-Ends :
        (tier : Tier) (w : World) (m : M)
        → w.store.requests req.id ≡ some req
        → Ends w m (run p uuid now (record { request_id = req.id; tier = tier }) w m)
    unfolding run get_request after_load Closes
    run-Ends tier w m known = rw known (
        after_cache-Ends (w.store.llm_cache (hash p req)) w (P.set_status p req.id running 10 w) m
          (kept_llm_cache w) (running-IsUnderway 10 w w (start-IsUnderway w known)))

  -- A job whose request is not stored is handed back with NotFound, and has changed nothing.
  pub run_unknown :
      (tier : Tier) (w : World) (m : M)
      → w.store.requests req.id ≡ none
      → run p uuid now (record { request_id = req.id; tier = tier }) w m
        ≡ (some (wrapped (concat "load request " req.id) not_found), w, m)
  unfolding run get_request after_load
  run_unknown tier w m absent = rw absent refl
