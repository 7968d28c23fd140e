-- ===== src/Catalog/Server.antt =====
-- services/backend/catalog/internal/app/catalog_server.go: the four methods. A negative TopK,
-- and a negative setting, is read as 0, which the code treats alike. The cache is there, as
-- services/backend/catalog/internal/app/app.go starts the server. The texts of errors are given
-- without the numbers in them.
use Prim.Native.String.{◌++◌ as ◌<>◌}
use perfect_gift.Prelude.{
  ℕ, ◌*◌, String, Bool, true, false, Option, none, some, List, [], ◌∷◌, length, map, Result, ok,
  err, Exec, pure, raise, refuse_if, try_read, try_exec, ignore, ◌>>=◌, ◌>>◌, eqb, ltb, ◌==◌, ◌&&◌,
  ◌||◌, not, if◌then◌else◌,
}
use perfect_gift.Grpc.{Status, fail_with, invalid_argument, internal, unavailable}
use perfect_gift.Catalog.Types.{
  Holiday, Category, BudgetBand, Inspiration, Snippet, HolidayFilter, SearchFilter, ReferenceStore,
  InspirationStore, Cache, Embedder,
}
use perfect_gift.Catalog.Messages.{
  HolidayMessage, CategoryKind, ListHolidaysRequest, GetCategoriesResponse,
  SearchInspirationRequest, holiday_to_proto, category_to_proto, kind_from_proto,
}

pub record Tuning : Type 0 where
  pub reference_cache_ttl : ℕ
  pub default_top_k : ℕ
  pub max_top_k : ℕ

unfoldable pub or_default : ℕ → ℕ → ℕ
or_default default n = if eqb n 0 then default else n

-- The defaults of NewServer
unfoldable pub tuned : Tuning → Tuning
unfolding or_default
tuned t = record {
  reference_cache_ttl = or_default (3600 * 1000000000) t.reference_cache_ttl;
  default_top_k = or_default 8 t.default_top_k;
  max_top_k = or_default 50 t.max_top_k;
}

-- encoding/json on the two payloads.
pub record Json : Type 0 where
  pub marshal_holidays : List Holiday → Option String
  pub unmarshal_holidays : String → Option (List Holiday)
  pub marshal_payload : List Category × List BudgetBand → Option String
  pub unmarshal_payload : String → Option (List Category × List BudgetBand)

pub record Server (F D W : Type 0) : Type 1 where
  pub ref : ReferenceStore W
  pub corpus : InspirationStore F D W
  pub cache : Cache W
  pub embedder : Embedder F W
  pub tune : Tuning
  pub json : Json

unfoldable pub active_key : Option Bool → String
active_key none = "any"
active_key (some true) = "true"
active_key (some false) = "false"

unfoldable pub holidays_key : HolidayFilter → String
unfolding active_key
holidays_key f =
    "holidays:" <> (f.region <> (":" <> (active_key f.active <> (":" <> f.on_or_after))))

unfoldable pub categories_key : String → String
categories_key kind = "categories:" <> kind

unfoldable pub embed_text : String → String → String
embed_text title body = title <> ("\n" <> body)

-- cacheGet: an error is a miss.
unfoldable pub hit_of : {A : Type 0} → Result String (Option A) → Option A
hit_of (ok found) = found
hit_of (err _) = none

unfoldable pub only_vector : {F W : Type 0} → List (List F) → Exec W Status (List F)
only_vector (v ∷ []) = pure v
only_vector _ = raise (fail_with internal "embedder returned no vector")

unfoldable pub filter_of : Option (String × String) → SearchFilter
filter_of none = record { category_id = ""; budget_band_id = "" }
filter_of (some (category, band)) = record { category_id = category; budget_band_id = band }

-- topK, defaulted and capped
unfoldable pub top_k_of : Tuning → ℕ → ℕ
top_k_of t n =
    let k = if eqb n 0 then t.default_top_k else n in if ltb t.max_top_k k then t.max_top_k else k

module _ {F D W : Type 0} (s : Server F D W) where
  unfoldable pub cache_get : {A : Type 0} → (String → Option A) → String → W → Option A
  unfolding hit_of
  cache_get decode key w = hit_of (s.cache.get_json decode key w)

  -- The reading of the store on a miss, and what it leaves in the cache.
  unfoldable pub from_store :
      {A : Type 0}
      → String
      → String
      → (A → Option String)
      → (W → Result String A)
      → Option A
      → Exec W Status A
  from_store what key marshal read (some a) = pure a
  from_store what key marshal read none = do
    a ← try_read (λ e. fail_with internal (what <> e)) read
    ignore (s.cache.set_json key (marshal a) s.tune.reference_cache_ttl)
    pure a

  unfoldable pub cached :
      {A : Type 0}
      → String
      → String
      → (String → Option A)
      → (A → Option String)
      → (W → Result String A)
      → Exec W Status A
  unfolding cache_get from_store
  cached what key decode marshal read w =
      from_store what key marshal read (cache_get decode key w) w

  unfoldable pub filter_from : ListHolidaysRequest → HolidayFilter
  filter_from req = record {
    region = req.region;
    active = req.active;
    on_or_after = req.on_or_after;
  }

  -- ListHolidays
  unfoldable pub list_holidays : ListHolidaysRequest → Exec W Status (List HolidayMessage)
  unfolding filter_from cached holidays_key
  list_holidays req = do
    holidays ←
        cached "list holidays: " (holidays_key (filter_from req)) s.json.unmarshal_holidays
          s.json.marshal_holidays (s.ref.list_holidays (filter_from req))
    pure (map holiday_to_proto holidays)

  -- GetCategories
  unfoldable pub get_categories : CategoryKind → Exec W Status GetCategoriesResponse
  unfolding cached categories_key
  get_categories kind = do
    (categories, bands) ←
        cached "get categories: " (categories_key (kind_from_proto kind)) s.json.unmarshal_payload
          s.json.marshal_payload (s.ref.get_categories (kind_from_proto kind))
    pure (record { categories = map category_to_proto categories; budget_bands = bands })

  -- The vector of the query, which is given or computed.
  unfoldable pub query_vector : String → List F → Exec W Status (List F)
  unfolding only_vector
  query_vector text [] = do
    vectors ←
        try_read (λ e. fail_with unavailable ("embed query: " <> e)) (s.embedder.embed (text ∷ []))
    only_vector vectors
  query_vector text (x ∷ xs) = do
    refuse_if (not (eqb (length (x ∷ xs)) s.embedder.dimension))
        (fail_with invalid_argument "query_embedding has another dimension")
    pure (x ∷ xs)

  -- SearchInspiration
  unfoldable pub search_inspiration : SearchInspirationRequest F → Exec W Status (List (Snippet D))
  unfolding query_vector filter_of top_k_of
  search_inspiration req = do
    refuse_if (req.query_text == "" && eqb (length req.query_embedding) 0)
        (fail_with invalid_argument "provide query_text or query_embedding")
    refuse_if (not (req.query_text == "") && ltb 0 (length req.query_embedding)) (
        fail_with invalid_argument "provide exactly one of query_text or query_embedding, not both")
    vec ← query_vector req.query_text req.query_embedding
    try_read (λ e. fail_with internal ("search inspiration: " <> e))
        (s.corpus.search_inspiration vec (filter_of req.filters) (top_k_of s.tune req.top_k))

  unfoldable pub upsert_some : Inspiration → Exec W Status String
  unfolding only_vector embed_text
  upsert_some insp = do
    refuse_if (insp.title == "" || insp.body == "")
        (fail_with invalid_argument "inspiration title and body are required")
    vectors ←
        try_read (λ e. fail_with unavailable ("embed inspiration: " <> e))
          (s.embedder.embed (embed_text insp.title insp.body ∷ []))
    vec ← only_vector vectors
    id ←
        try_exec (λ e. fail_with internal ("upsert inspiration: " <> e))
          (s.corpus.upsert_inspiration insp vec)
    ignore s.cache.invalidate
    pure id

  -- UpsertInspiration
  unfoldable pub upsert_inspiration : Option Inspiration → Exec W Status String
  unfolding upsert_some
  upsert_inspiration none = raise (fail_with invalid_argument "inspiration is required")
  upsert_inspiration (some insp) = upsert_some insp
