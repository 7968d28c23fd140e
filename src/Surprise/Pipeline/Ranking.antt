-- ===== src/Surprise/Pipeline/Ranking.antt =====
-- What moderateValidateRank lets through, and in which order.
use Prim.Native.String.{◌++◌}
use perfect_gift.Prelude.{
  err, ◌⊎◌, ok, Result, ℕ, suc, String, List, [], ◌∷◌, map, Bool, true, false, ◌≡◌, refl, sym,
  subst, arith, is_blank, keep, not, ◌&&◌, Bool-cases, inl, inr,
}
use perfect_gift.Surprise.Types.{Time, Request, Idea, approved}
use perfect_gift.Surprise.Pipeline.{
  GoError, Pipeline, screen, approves, stamp, rank_from, moderate_validate_rank, moderated_text,
  embed_idea,
}

-- Ideas ranked from `rank` on, each stamped for the request, approved, and with a title.
abbrev pub IsRanked : Request → (ℕ → String) → ℕ → List Idea → Type 0
IsRanked req uuid rank [] = Unit
IsRanked req uuid rank (i ∷ is) =
    (i.rank ≡ rank)
    × (i.id ≡ uuid rank)
    × (i.request_id ≡ req.id)
    × (i.moderation ≡ approved)
    × (is_blank i.title ≡ false)
    × IsRanked req uuid (suc rank) is

-- What an idea says: its title, why it fits, what it costs and how to go about it.
abbrev pub Content : Type 0
Content = String × String × String × String

abbrev pub content : Idea → Content
content i = (i.title, i.why_it_fits, i.rough_cost, i.how_to)

-- A title that is not blank, and a good verdict on the title, the reason and the advice.
abbrev pub acceptable : (String → Bool) → Content → Bool
acceptable verdict (title, why, cost, advice) =
    not (is_blank title) && verdict (title ++ ". " ++ why ++ ". " ++ advice)

-- A model's answer to a moderation that amounts to the verdict: an error is a refusal.
abbrev pub Amounts : Bool → Result GoError Bool → Type 0
Amounts true answer = answer ≡ ok true
Amounts false answer = (answer ≡ ok false) ⊎ ((e : GoError) × (answer ≡ err e))

approves-Amounts :
    (b : Bool) (answer : Result GoError Bool) → Amounts b answer → approves answer ≡ b
unfolding approves
approves-Amounts true answer h = rw h refl
approves-Amounts false answer (inl h) = rw h refl
approves-Amounts false answer (inr (e, h)) = rw h refl

module _ {W M : Type 0} (p : Pipeline W M) (req : Request) (uuid : ℕ → String) (now : Time) where
  rank_from_dropped :
      (rank : ℕ) (c : Idea) (cs : List Idea) (m : M)
      → (screen p c m).0 ≡ false
      → rank_from p req uuid now rank (c ∷ cs) m ≡ rank_from p req uuid now rank cs (screen p c m).1
  unfolding rank_from
  rank_from_dropped rank c cs m e = ground arith

  rank_from_taken :
      (rank : ℕ) (c : Idea) (cs : List Idea) (m : M)
      → (screen p c m).0 ≡ true
      → let embedded = embed_idea p c (screen p c m).1 in
        (rank_from p req uuid now rank (c ∷ cs) m).0
        ≡ stamp p req uuid now rank c embedded.0
          ∷ (rank_from p req uuid now (suc rank) cs embedded.1).0
  unfolding rank_from
  rank_from_taken rank c cs m e = ground arith

  screen_titled : (c : Idea) (m : M) → (screen p c m).0 ≡ true → is_blank c.title ≡ false
  unfolding screen
  screen_titled c m e = ground arith

  rank_from-IsRanked :
      (rank : ℕ) (cs : List Idea) (m : M)
      → IsRanked req uuid rank (rank_from p req uuid now rank cs m).0
  unfolding stamp
  rank_from-IsRanked rank [] m = unfold rank_from in tt
  rank_from-IsRanked rank (c ∷ cs) m = elim (Bool-cases (screen p c m).0) [
    | inl e ↦ subst (IsRanked req uuid rank) (sym (rank_from_taken rank c cs m e)) (
      refl,
      refl,
      refl,
      refl,
      screen_titled c m e,
      rank_from-IsRanked (suc rank) cs (embed_idea p c (screen p c m).1).1,
    )
    | inr e ↦
        subst (λ r. IsRanked req uuid rank r.0) (sym (rank_from_dropped rank c cs m e))
          (rank_from-IsRanked rank cs (screen p c m).1)
  ]

  -- Whatever the model client answers, the ideas that survive carry the ranks 1, 2, 3, ... in
  -- order, fresh ids, the request's id and the approved mark, and none has a blank title.
  pub moderate_validate_rank-IsRanked :
      (cs : List Idea) (m : M) → IsRanked req uuid 1 (moderate_validate_rank p req uuid now cs m).0
  unfolding moderate_validate_rank
  moderate_validate_rank-IsRanked cs m = rank_from-IsRanked 1 cs m

  module _ (verdict : String → Bool)
      (judged : (text : String) (m : M) → Amounts (verdict text) (p.llm.moderate text m).0) where
    screen-acceptable : (c : Idea) (m : M) → (screen p c m).0 ≡ acceptable verdict (content c)
    unfolding screen
    screen-acceptable c m = ground (
      arith,
      approves-Amounts (verdict (moderated_text c)) (p.llm.moderate (moderated_text c) m).0
          (judged (moderated_text c) m),
    )

    rank_from-keep :
        (rank : ℕ) (cs : List Idea) (m : M)
        → map content (rank_from p req uuid now rank cs m).0
          ≡ keep (acceptable verdict) (map content cs)
    unfolding stamp
    rank_from-keep rank [] m = unfold rank_from in refl
    rank_from-keep rank (c ∷ cs) m = elim (Bool-cases (screen p c m).0) [
      | inl e ↦ ground (
        arith,
        rank_from_taken rank c cs m e,
        screen-acceptable c m,
        rank_from-keep (suc rank) cs (embed_idea p c (screen p c m).1).1,
      )
      | inr e ↦ ground (
        arith,
        rank_from_dropped rank c cs m e,
        screen-acceptable c m,
        rank_from-keep rank cs (screen p c m).1,
      )
    ]

    -- With a model whose verdict depends on the text alone, where an error or a negative answer is
    -- a refusal, the survivors say exactly what the candidates say that have a title and a text
    -- that the model approves, in their order.
    pub moderate_validate_rank-keep :
        (cs : List Idea) (m : M)
        → map content (moderate_validate_rank p req uuid now cs m).0
          ≡ keep (acceptable verdict) (map content cs)
    unfolding moderate_validate_rank
    moderate_validate_rank-keep cs m = rank_from-keep 1 cs m
