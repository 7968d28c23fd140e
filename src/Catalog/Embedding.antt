-- ===== src/Catalog/Embedding.antt =====
-- services/backend/catalog/internal/embedding: New of embedding.go, and Embed of http.go on the
-- answer of the endpoint. The fake embedder is pseudo-random numbers and is left out. The texts
-- of errors are given without the numbers in them.
use Prim.Native.String.{◌++◌ as ◌<>◌}
use perfect_gift.Prelude.{
  ℕ, String, Option, none, some, List, [], ◌∷◌, length, Result, ok, err, eqb, ◌==◌, if◌then◌else◌,
}

-- The response: its status, and its body where that decodes.
pub record Response (F : Type 0) : Type 0 where
  pub status : ℕ
  pub vectors : Option (List (List F))

module _ {F : Type 0} (dim : ℕ) where
  cons_checked : List F → Result String (List (List F)) → Result String (List (List F))
  cons_checked v (ok vs) = ok (v ∷ vs)
  cons_checked v (err e) = err e

  checked : List (List F) → Result String (List (List F))
  unfolding cons_checked
  checked [] = ok []
  checked (v ∷ vs) =
      let rest = checked vs in
      if eqb (length v) dim then cons_checked v rest else err "model/config mismatch"

  body_of : List String → Option (List (List F)) → Result String (List (List F))
  unfolding checked
  body_of texts none = err "decode embed response"
  body_of texts (some vs) =
      if eqb (length vs) (length texts)
      then checked vs
      else err "embed endpoint returned another number of vectors"

  response_of : List String → Result String (Response F) → Result String (List (List F))
  unfolding body_of
  response_of texts (err e) = err ("call embed endpoint: " <> e)
  response_of texts (ok r) =
      if eqb r.status 200 then body_of texts r.vectors else err "embed endpoint status"

  -- Embed
  unfoldable pub embed :
      {W : Type 0}
      → (List String → W → Result String (Response F))
      → List String
      → W
      → Result String (List (List F))
  unfolding response_of
  embed post [] w = ok []
  embed post (t ∷ ts) w = response_of (t ∷ ts) (post (t ∷ ts) w)

-- What New chooses.
pub data Kind : Type 0 where
  fake http : Kind

unfoldable pub new_embedder : String → ℕ → String → Result String Kind
new_embedder model dimension endpoint =
    if eqb dimension 0
    then err "embedding dimension must be positive"
    else if model == ""
    then err "embedding model must be set"
    else ok (if endpoint == "" then fake else http)
