-- ===== src/Catalog/Reading.antt =====
-- What a cache-first read answers, and what it leaves.
use perfect_gift.Prelude.{
  ◌||◌, ◌==◌, Bool-cases, String, Option, none, some, List, [], ◌∷◌, map, ◌≡◌, ◌⊎◌, inl, inr, refl,
  ap, ◌∙◌, arith, Result, ok, err, Result-cases, Option-cases,
}
use perfect_gift.Catalog.Types.{Holiday, Inspiration}
use perfect_gift.Catalog.Messages.{
  SearchInspirationRequest, CategoryKind, ListHolidaysRequest, holiday_to_proto, kind_from_proto,
}
use perfect_gift.Catalog.Server.{
  embed_text, upsert_some, only_vector, query_vector, search_inspiration, Server, cached,
  from_store, cache_get, filter_from, holidays_key, categories_key, list_holidays, get_categories,
}

module _ {F D W : Type 0} (s : Server F D W) where
  module _ {A : Type 0} (what key : String) (decode : String → Option A)
      (marshal : A → Option String) (read : W → Result String A) (w : W) where
    cached-hit :
        (a : A)
        → cache_get s decode key w ≡ some a
        → cached s what key decode marshal read w ≡ (ok a, w)
    unfolding cached from_store
    cached-hit a e = ground arith

    cached-miss :
        (a : A)
        → cache_get s decode key w ≡ none
        → read w ≡ ok a
        → cached s what key decode marshal read w
          ≡ (ok a, (s.cache.set_json key (marshal a) s.tune.reference_cache_ttl w).1)
    unfolding cached from_store
    cached-miss a e r = ground arith

    cached-down :
        (t : String)
        → cache_get s decode key w ≡ none
        → read w ≡ err t
        → (cached s what key decode marshal read w).1 ≡ w
    unfolding cached from_store
    cached-down t e r = ground arith

    -- The state is as it was, or what was read is in the cache.
    pub cached_state :
        ((cached s what key decode marshal read w).1 ≡ w)
        ⊎ ((a : A) × (read w ≡ ok a)
            × ((cached s what key decode marshal read w).1
                ≡ (s.cache.set_json key (marshal a) s.tune.reference_cache_ttl w).1))
    cached_state = elim (Option-cases (cache_get s decode key w)) [
      | inr (a, e) ↦ inl (ap (λ x. x.1) (cached-hit a e))
      | inl e ↦ elim (Result-cases (read w)) [
        | inl (a, r) ↦ inr (a, r, ap (λ x. x.1) (cached-miss a e r))
        | inr (t, r) ↦ inl (cached-down t e r)
      ]
    ]

    -- Where the cache has nothing else than `a`, and the store reads `a` or fails, `a` is answered.
    pub cached_answer :
        (a : A)
        → ((b : A) → cache_get s decode key w ≡ some b → b ≡ a)
        → read w ≡ ok a
        → (cached s what key decode marshal read w).0 ≡ ok a
    cached_answer a same r = elim (Option-cases (cache_get s decode key w)) [
      | inr (b, e) ↦ ap (λ x. x.0) (cached-hit b e) ∙ ap ok (same b e)
      | inl e ↦ ap (λ x. x.0) (cached-miss a e r)
    ]

  pub get_categories_state :
      (kind : CategoryKind) (w : W)
      → (get_categories s kind w).1
        ≡ (cached s "get categories: "
            (categories_key (kind_from_proto kind))
            s.json.unmarshal_payload
            s.json.marshal_payload
            (s.ref.get_categories (kind_from_proto kind))
            w).1
  unfolding get_categories
  get_categories_state kind w =
      let m =
        cached s "get categories: " (categories_key (kind_from_proto kind)) s.json.unmarshal_payload
          s.json.marshal_payload (s.ref.get_categories (kind_from_proto kind)) w in
      elim (Result-cases m.0) [ inl (a, e) ↦ ground arith | inr (t, e) ↦ ground arith ]

  module _ (req : ListHolidaysRequest) (w : W) where
    pub list_holidays_state :
        (list_holidays s req w).1
        ≡ (cached s "list holidays: "
            (holidays_key (filter_from s req))
            s.json.unmarshal_holidays
            s.json.marshal_holidays
            (s.ref.list_holidays (filter_from s req))
            w).1
    unfolding list_holidays
    list_holidays_state =
        let m =
          cached s "list holidays: " (holidays_key (filter_from s req)) s.json.unmarshal_holidays
            s.json.marshal_holidays (s.ref.list_holidays (filter_from s req)) w in
        elim (Result-cases m.0) [ inl (a, e) ↦ ground arith | inr (t, e) ↦ ground arith ]

    pub list_holidays_answer :
        (hs : List Holiday)
        → (cached s "list holidays: "
            (holidays_key (filter_from s req))
            s.json.unmarshal_holidays
            s.json.marshal_holidays
            (s.ref.list_holidays (filter_from s req))
            w).0
          ≡ ok hs
        → (list_holidays s req w).0 ≡ ok (map holiday_to_proto hs)
    unfolding list_holidays
    list_holidays_answer hs e = ground arith

  only_vector_state : (vs : List (List F)) (w : W) → (only_vector {W = W} vs w).1 ≡ w
  unfolding only_vector
  only_vector_state [] w = refl
  only_vector_state (v ∷ []) w = refl
  only_vector_state (v ∷ u ∷ vs) w = refl

  pub query_vector_state :
      (text : String) (given : List F) (w : W) → (query_vector s text given w).1 ≡ w
  unfolding query_vector
  query_vector_state text [] w = elim (Result-cases (s.embedder.embed (text ∷ []) w)) [
    | inl (vs, e) ↦ ground (arith, only_vector_state vs w)
    | inr (t, e) ↦ ground arith
  ]
  query_vector_state text (x ∷ xs) w = ground arith

  -- Searching writes nothing.
  pub search_inspiration_state :
      (req : SearchInspirationRequest F) (w : W) → (search_inspiration s req w).1 ≡ w
  unfolding search_inspiration
  search_inspiration_state req w =
      elim (Result-cases (query_vector s req.query_text req.query_embedding w).0) [
        | inl (vec, e) ↦ ground (arith, query_vector_state req.query_text req.query_embedding w)
        | inr (t, e) ↦ ground (arith, query_vector_state req.query_text req.query_embedding w)
      ]

  -- Upserting leaves what the store leaves, and Invalidate after it; or all as it was.
  unfoldable pub Upserted : Inspiration → W → W → Type 0
  Upserted i w w' =
      (vec : List F) × ((w' ≡ (s.corpus.upsert_inspiration i vec w).1)
        ⊎ (w' ≡ (s.cache.invalidate (s.corpus.upsert_inspiration i vec w).1).1))

  pub upsert_some_state :
      (i : Inspiration) (w : W) → ((upsert_some s i w).1 ≡ w) ⊎ Upserted i w (upsert_some s i w).1
  unfolding upsert_some Upserted
  upsert_some_state i w = elim (Bool-cases (i.title == "" || i.body == "")) [
    | inl b ↦ inl (ground arith)
    | inr b ↦ elim (Result-cases (s.embedder.embed (embed_text i.title i.body ∷ []) w)) [
      | inr (t, e) ↦ inl (ground arith)
      | inl (vs, e) ↦ elim (Result-cases (only_vector {W = W} vs w).0) [
        | inr (t, o) ↦ inl (ground (arith, only_vector_state vs w))
        | inl (vec, o) ↦ elim (Result-cases (s.corpus.upsert_inspiration i vec w).0) [
          | inr (t, u) ↦ inr (vec, inl (ground (arith, only_vector_state vs w)))
          | inl (id, u) ↦ inr (vec, inr (ground (arith, only_vector_state vs w)))
        ]
      ]
    ]
  ]
