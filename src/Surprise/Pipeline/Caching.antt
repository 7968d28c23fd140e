-- ===== src/Surprise/Pipeline/Caching.antt =====
-- The response cache: a hit spares the generation call and the grounding.
use perfect_gift.Prelude.{
  ℕ, suc, String, List, [], ◌∷◌, ◌≡◌, refl, ◌∙◌, sym, Option, some, Result, Exec, arith,
}
use perfect_gift.Surprise.Types.{Time, Tier, running, Request, Idea, Embedding, GoError}
use perfect_gift.Surprise.Llm.{GenerateParams, LlmIdea}
use perfect_gift.Surprise.Memory.{get_request, set_request_status, set_status, get_llm_cache}
use perfect_gift.Surprise.Bus.{World}
use perfect_gift.Surprise.Pipeline as P
use perfect_gift.Surprise.Pipeline.{
  Pipeline, run, after_load, after_cache, moderate_and_finish, finish, persist, fail,
  moderate_validate_rank, rank_from, screen, stamp, embed_idea, hash, cached_candidates,
}
use perfect_gift.Surprise.Pipeline.Outcomes.{Outside, over_memory}

-- The same pipeline with another generator, another Poll and another Catalog.
abbrev pub elsewhere :
    {M : Type 0}
    → Outside M
    → (GenerateParams → Exec M GoError (List LlmIdea))
    → Option (String → Result GoError (List String))
    → Option (String → Embedding → String → ℕ → Result GoError (List String))
    → Outside M
elsewhere o gen poll catalog = record o {
  llm = record o.llm { generate_ideas = gen };
  poll = poll;
  catalog = catalog;
}

module _ {M : Type 0} (clock : Time) (o : Outside M) (req : Request) where
  hit :
      (c : Idea) (cs : List Idea) (w : World)
      → let p = over_memory clock o in
        w.store.llm_cache (hash p req) ≡ some (c ∷ cs)
        → cached_candidates p (hash p req) (P.set_status p req.id running 10 w) ≡ some (c ∷ cs)
  unfolding cached_candidates get_llm_cache P.set_status set_status set_request_status
  hit c cs w e = ground arith

  -- On a hit the job goes straight to moderation.
  run_hit :
      (uuid : ℕ → String) (now : Time) (tier : Tier) (c : Idea) (cs : List Idea) (w : World) (m : M)
      → let p = over_memory clock o in
        w.store.requests req.id ≡ some req
        → w.store.llm_cache (hash p req) ≡ some (c ∷ cs)
        → run p uuid now (record { request_id = req.id; tier = tier }) w m
          ≡ moderate_and_finish p req uuid now (c ∷ cs) (P.set_status p req.id running 10 w) m
  unfolding run get_request
  run_hit uuid now tier c cs w m known cached =
      rw known (unfold after_load in rw (hit c cs w cached) (unfold after_cache in refl))

module _ {M : Type 0} (clock : Time) (o : Outside M)
    (gen : GenerateParams → Exec M GoError (List LlmIdea))
    (poll : Option (String → Result GoError (List String)))
    (catalog : Option (String → Embedding → String → ℕ → Result GoError (List String)))
    (req : Request) (uuid : ℕ → String) (now : Time) where
  abbrev p : Pipeline World M
  p = over_memory clock o

  abbrev q : Pipeline World M
  q = over_memory clock (elsewhere o gen poll catalog)

  rank_from_same :
      (rank : ℕ) (cs : List Idea) (m : M)
      → rank_from p req uuid now rank cs m ≡ rank_from q req uuid now rank cs m
  unfolding rank_from screen stamp
  rank_from_same rank [] m = refl
  rank_from_same rank (c ∷ cs) m = ground (
    arith,
    rank_from_same (suc rank) cs (embed_idea p c (screen p c m).1).1,
    rank_from_same rank cs (screen p c m).1,
  )

  finish_same :
      (ideas : List Idea) (w : World) (m : M) → finish p req ideas w m ≡ finish q req ideas w m
  unfolding finish fail persist P.set_status
  finish_same [] w m = refl
  finish_same (i ∷ is) w m = refl

  moderate_and_finish_same :
      (cs : List Idea) (w : World) (m : M)
      → moderate_and_finish p req uuid now cs w m ≡ moderate_and_finish q req uuid now cs w m
  unfolding moderate_and_finish moderate_validate_rank P.set_status
  moderate_and_finish_same cs w m = rw (rank_from_same 1 cs m) (finish_same _ _ _)

  -- With candidates cached for the request's normalised inputs, the job is the same whatever the
  -- generator, Poll and Catalog would have answered: none of them counts.
  pub cached_run_same :
      (tier : Tier) (c : Idea) (cs : List Idea) (w : World) (m : M)
      → w.store.requests req.id ≡ some req
      → w.store.llm_cache (hash p req) ≡ some (c ∷ cs)
      → run p uuid now (record { request_id = req.id; tier = tier }) w m
        ≡ run q uuid now (record { request_id = req.id; tier = tier }) w m
  unfolding P.set_status
  cached_run_same tier c cs w m known cached =
      run_hit clock o req uuid now tier c cs w m known cached
      ∙ moderate_and_finish_same (c ∷ cs) (P.set_status p req.id running 10 w) m
      ∙ sym (run_hit clock (elsewhere o gen poll catalog) req uuid now tier c cs w m known cached)
