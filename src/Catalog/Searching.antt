-- ===== src/Catalog/Searching.antt =====
-- What SearchInspiration answers.
use perfect_gift.Prelude.{
  zero, List-cases, List-cases, if◌then◌else◌, ℕ, suc, ◌≤◌, ◌<◌, String, true, false, List, [], ◌∷◌,
  map, keep, take, length, length-map, ◌≡◌, ◌⊎◌, inl, inr, ap, arith, ok, Result-cases, Bool-cases,
  eqb, ◌==◌,
}
use perfect_gift.Catalog.Types.{Snippet, SearchFilter}
use perfect_gift.Catalog.Messages.{SearchInspirationRequest}
use perfect_gift.Catalog.Tables
use perfect_gift.Catalog.Tables.{Tables, Database, Row, order_by, is_match, snippet_of, casts}
use perfect_gift.Catalog.Server.{
  Server, tuned, top_k_of, filter_of, query_vector, search_inspiration,
}
use perfect_gift.Catalog.Reading.{query_vector_state}
use perfect_gift.Catalog.Serving.{World, Setting, server}

-- Exactly one of the two queries is given, and a vector has the dimension of the embedder.
abbrev pub IsOneQuery : {F : Type 0} → ℕ → SearchInspirationRequest F → Type 0
IsOneQuery dim req =
    (((req.query_text == "") ≡ false) × (req.query_embedding ≡ []))
    ⊎ (((req.query_text == "") ≡ true)
        × (0 < length req.query_embedding)
        × (length req.query_embedding ≡ dim))

module _ {F D W : Type 0} (s : Server F D W) where
  -- A vector that is given and passes has the dimension.
  given-dimension :
      (text : String) (given : List F) (w : W) (vec : List F)
      → 0 < length given
      → (query_vector s text given w).0 ≡ ok vec
      → length given ≡ s.embedder.dimension
  unfolding query_vector
  given-dimension text [] w vec n e = absurd (omega arith)
  given-dimension text (x ∷ xs) w vec n e = ground arith

  one_query :
      (req : SearchInspirationRequest F) (w : W) (vec : List F) (found : List (Snippet D))
      → (search_inspiration s req w).0 ≡ ok found
      → (query_vector s req.query_text req.query_embedding w).0 ≡ ok vec
      → IsOneQuery s.embedder.dimension req
  unfolding search_inspiration
  one_query req w vec found h e = elim (List-cases req.query_embedding) [
    | inl none_given ↦ elim (Bool-cases (req.query_text == "")) [
      | inl b ↦ absurd (ground arith)
      | inr b ↦ inl (b, none_given)
    ]
    | inr (x, xs, given) ↦
        let n : 0 < length req.query_embedding = ground arith in
        elim (Bool-cases (req.query_text == "")) [
          | inl b ↦ inr (b, n, given-dimension req.query_text req.query_embedding w vec n e)
          | inr b ↦ absurd (ground arith)
        ]
  ]

  -- What has passed before the store is asked.
  search_inspiration-ok :
      (req : SearchInspirationRequest F) (w : W) (found : List (Snippet D))
      → (search_inspiration s req w).0 ≡ ok found
      → IsOneQuery s.embedder.dimension req
        × (vec : List F) × (s.corpus.search_inspiration vec
              (filter_of req.filters)
              (top_k_of s.tune req.top_k)
              w
            ≡ ok found)
  unfolding search_inspiration
  search_inspiration-ok req w found h =
      elim (Result-cases (query_vector s req.query_text req.query_embedding w).0) [
        | inr (t, e) ↦ absurd (ground arith)
        | inl (vec, e) ↦ (
          one_query req w vec found h e,
          vec,
          ground (arith, query_vector_state s req.query_text req.query_embedding w),
        )
      ]

length-take-le : {A : Type 0} (n : ℕ) (xs : List A) → length (take n xs) ≤ n
length-take-le zero xs = omega arith
length-take-le (suc n) [] = omega arith
length-take-le (suc n) (x ∷ xs) = omega (arith, length-take-le n xs)

module _ {F D : Type 0} (c : Setting F D) where
  rows_bounded :
      (vec : List F) (f : SearchFilter) (k : ℕ) (t : Tables F) (found : List (Snippet D))
      → Tables.search_inspiration c.db vec f k t ≡ ok found
      → length found ≤ k
  unfolding Tables.search_inspiration
  rows_bounded vec f k t found h =
      let rows =
        order_by
          (λ a b. c.db.closer (c.db.distance a.embedding vec) (c.db.distance b.embedding vec))
          (keep (is_match c.db f) t.corpus) in
      let few = length-take-le k rows in
      let same = length-map (snippet_of c.db vec) (take k rows) in
      let is_found : map (snippet_of c.db vec) (take k rows) ≡ found = ground arith in
      omega (arith, ap length is_found)

  -- A search that answers ok was asked with exactly one of a text that is not empty and a vector
  -- of the configured dimension; it answers at most MaxTopK snippets, at most TopK of them where a
  -- TopK is asked for, and otherwise at most DefaultTopK, the two settings with their defaults.
  pub search_bounded :
      (req : SearchInspirationRequest F) (w : World F) (found : List (Snippet D))
      → (search_inspiration (server c) req w).0 ≡ ok found
      → IsOneQuery c.dimension req
        × (length found ≤ (tuned c.tune).max_top_k)
        × (length found ≤ (if eqb req.top_k 0 then (tuned c.tune).default_top_k else req.top_k))
  unfolding server top_k_of
  search_bounded req w found h =
      let (one, vec, asked) = search_inspiration-ok (server c) req w found h in
      let few =
        rows_bounded vec (filter_of req.filters) (top_k_of (tuned c.tune) req.top_k) w.tables found
          asked in
      (one, ground arith, ground arith)
