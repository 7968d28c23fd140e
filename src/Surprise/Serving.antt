-- ===== src/Surprise/Serving.antt =====
-- What the owner of a request reads once its job has ended: the pipeline's stores seen through the
-- request path.
use perfect_gift.Prelude.{
  keep, Option, Bool, Option, none, keep, refl, ◌∙◌, ℕ, suc, String, List, [], ◌∷◌, map, ◌≡◌, ◌≢◌,
  ◌⊎◌, ◌≤◌, inl, inr, some, ok, arith, eq_iff, eq_refl,
}
use perfect_gift.Surprise.Types.{Time, Tier, Request, Idea}
use perfect_gift.Surprise.Messages.{
  generation_ready, generation_failed, status_to_proto, idea_to_proto,
}
use perfect_gift.Surprise.Memory.{get_request, get_status}
use perfect_gift.Surprise.Memory.Ideas.{AscendsFrom, get_ideas_ascending}
use perfect_gift.Surprise.Bus.{World}
use perfect_gift.Surprise.Server.{Server, ServerConfig, get_generation_status, get_ideas}
use perfect_gift.Surprise.Server.Idempotency.{memory_server}
use perfect_gift.Surprise.Pipeline.{run}
use perfect_gift.Surprise.Pipeline.Ranking.{IsRanked, Amounts, Content, content, acceptable}
use perfect_gift.Surprise.Pipeline.Outcomes.{
  Outside, over_memory, HasFailed, HasDelivered, EndsWith, offered, run-Ends,
}

IsRanked-Ascends :
    (req : Request) (uuid : ℕ → String) (n rank : ℕ) (ideas : List Idea)
    → n ≤ rank
    → IsRanked req uuid rank ideas
    → AscendsFrom n ideas
IsRanked-Ascends req uuid n rank [] le h = tt
IsRanked-Ascends req uuid n rank (i ∷ is) le h =
    (omega (arith, h.0), IsRanked-Ascends req uuid i.rank (suc rank) is (omega (arith, h.0)) h.5)

module _ (clock : Time) (cfg : ServerConfig) (req : Request) (named : req.id ≢ "") where
  abbrev s : Server World
  s = memory_server clock cfg

  failed_seen :
      (w w' : World)
      → HasFailed req w w'
      → get_generation_status s req.user_id req.id w'
        ≡ (ok (record { status = generation_failed; progress = 0 }), w')
  unfolding get_generation_status get_request get_status status_to_proto
  failed_seen w w' h = ground (arith, eq_iff req.id "", eq_refl req.user_id, h.stored, h.cached)

  ready_seen :
      (uuid : ℕ → String) (ideas : List Idea) (w w' : World)
      → HasDelivered req uuid ideas w w'
      → get_generation_status s req.user_id req.id w'
        ≡ (ok (record { status = generation_ready; progress = 100 }), w')
  unfolding get_generation_status get_request get_status status_to_proto
  ready_seen uuid ideas w w' h =
      ground (arith, eq_iff req.id "", eq_refl req.user_id, h.stored, h.cached)

  ideas_seen :
      (uuid : ℕ → String) (ideas : List Idea) (w w' : World)
      → HasDelivered req uuid ideas w w'
      → get_ideas s req.user_id req.id w' ≡ (ok (map idea_to_proto ideas), w')
  unfolding get_ideas get_request
  ideas_seen uuid ideas w w' h = ground (
    arith,
    eq_iff req.id "",
    eq_refl req.user_id,
    h.stored,
    get_ideas_ascending req.id ideas w'.store
        (IsRanked-Ascends req uuid 0 1 ideas (omega arith) h.ranked) h.saved,
  )

  module _ {M : Type 0} (o : Outside M) (uuid : ℕ → String) (now : Time) (verdict : String → Bool)
      (judged : (text : String) (m : M) → Amounts (verdict text) (o.llm.moderate text m).0) where
    -- What the owner reads of a failed job, and of one that has delivered.
    abbrev pub ReadsFailed : World → Type 0
    ReadsFailed w' =
        get_generation_status s req.user_id req.id w'
        ≡ (ok (record { status = generation_failed; progress = 0 }), w')

    abbrev pub ReadsIdeas : List Content → World → Type 0
    ReadsIdeas kept w' =
        (kept ≢ [])
        × (get_generation_status s req.user_id req.id w'
            ≡ (ok (record { status = generation_ready; progress = 100 }), w'))
        × ((ideas : List Idea) × (get_ideas s req.user_id req.id w'
              ≡ (ok (map idea_to_proto ideas), w'))
            × IsRanked req uuid 1 ideas
            × (map content ideas ≡ kept))

    -- Nothing was offered, or there was something to choose from.
    abbrev pub Reads : Option (List Content) → World → Type 0
    Reads none w' = ReadsFailed w'
    Reads (some cs) w' =
        ((keep (acceptable verdict) cs ≡ []) × ReadsFailed w')
        ⊎ ReadsIdeas (keep (acceptable verdict) cs) w'

    seen :
        (cs : Option (List Content)) (w w' : World)
        → EndsWith clock o req uuid now verdict judged cs w w'
        → Reads cs w'
    unfolding EndsWith
    seen none w w' h = failed_seen w w' h
    seen (some cs) w w' (inl (nothing, h)) = inl (nothing, failed_seen w w' h)
    seen (some cs) w w' (inr (ideas, h, kept)) = inr (
      (λ e. h.some_ideas (nothing_said ideas (kept ∙ e))),
      ready_seen uuid ideas w w' h,
      (ideas, ideas_seen uuid ideas w w' h, h.ranked, kept),
    )
      where
        nothing_said : (is : List Idea) → map content is ≡ [] → is ≡ []
        nothing_said [] e = refl
        nothing_said (i ∷ is) e = absurd (cc)

    -- What the owner of a stored request with an id reads after its job, over the memory store
    -- and the in-memory bus, which keep every entry and never fail, and with a model whose
    -- moderation depends on the text alone. The job chooses from the ideas kept for its inputs,
    -- or else from what the model answers. When the model answers an error, or nothing has both
    -- a title and a text that the moderation approves, GetGenerationStatus says failed. Otherwise
    -- it says ready at 100 percent, and GetIdeas returns exactly the acceptable ideas, ranked in
    -- their order.
    pub owner_sees_outcome :
        (tier : Tier) (w : World) (m : M)
        → w.store.requests req.id ≡ some req
        → Reads
            (offered clock o req uuid now w m)
            (run (over_memory clock o) uuid now (record { request_id = req.id; tier = tier }) w m).1
    owner_sees_outcome tier w m known =
        let out =
          run (over_memory clock o) uuid now (record { request_id = req.id; tier = tier }) w m in
        seen (offered clock o req uuid now w m) w out.1
          (run-Ends clock o req uuid now verdict judged tier w m known).1
