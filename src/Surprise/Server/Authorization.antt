-- ===== src/Surprise/Server/Authorization.antt =====
-- Nobody but the owner reads or changes a request.
use perfect_gift.Prelude.{
  ◌⊎◌, inl, inr, none, String, Bool, Result-cases, ◌≡◌, ◌≢◌, Result, ok, err, arith, eq_iff,
}
use perfect_gift.Grpc
use perfect_gift.Grpc.{fail_with, permission_denied}
use perfect_gift.Surprise.Types.{Request, Idea}
use perfect_gift.Surprise.Server.{Server, get_generation_status, get_ideas, refine, save_idea}

abbrev pub denied : {A : Type 0} → Result Grpc.Status A
denied = err (fail_with permission_denied "caller does not own this resource")

module _ {W : Type 0} (s : Server W) where
  -- For a stored request and a refinement text that is not empty, a caller with an identity that
  -- is not the owner's gets PermissionDenied from GetGenerationStatus, GetIdeas and Refine,
  -- whatever the store holds, and changes nothing.
  pub stranger_denied :
      (caller id refinement : String) (r : Request) (w : W)
      → caller ≢ ""
      → id ≢ ""
      → refinement ≢ ""
      → s.repo.get_request id w ≡ ok r
      → caller ≢ r.user_id
      → (get_generation_status s caller id w ≡ (denied, w))
        × (get_ideas s caller id w ≡ (denied, w))
        × (refine s caller id refinement w ≡ (denied, w))
  unfolding get_generation_status get_ideas refine
  stranger_denied caller id refinement r w named some_id some_text known other = (
    ground (arith, eq_iff caller "", eq_iff id "", eq_iff caller r.user_id),
    ground (arith, eq_iff caller "", eq_iff id "", eq_iff caller r.user_id),
    ground (arith, eq_iff caller "", eq_iff id "", eq_iff caller r.user_id, eq_iff refinement ""),
  )

  -- SaveIdea succeeds only for a caller who is the named user or anonymous, and for an idea whose
  -- request belongs to that user; what it writes is then that one favourite.
  pub save_idea_owner :
      (caller user_id idea_id : String) (saved : Bool) (w w' : W)
      → save_idea s caller user_id idea_id w ≡ (ok saved, w')
      → (idea : Idea) × (r : Request) × (s.repo.get_idea idea_id w ≡ ok idea)
        × (s.repo.get_request idea.request_id w ≡ ok r)
        × (r.user_id ≡ user_id)
        × ((caller ≡ "") ⊎ (caller ≡ user_id))
        × (s.repo.save_idea_for_user user_id idea_id w ≡ (none, w'))
  unfolding save_idea
  save_idea_owner caller user_id idea_id saved w w' h =
      elim (Result-cases (s.repo.get_idea idea_id w)) [
        | inr (e, q) ↦ ground arith
        | inl (idea, q) ↦ elim (Result-cases (s.repo.get_request idea.request_id w)) [
          | inr (e, q') ↦ ground arith
          | inl (r, q') ↦ (
            idea,
            r,
            q,
            q',
            ground (arith, eq_iff r.user_id user_id),
            ground (arith, eq_iff caller "", eq_iff caller user_id),
            ground arith,
          )
        ]
      ]
