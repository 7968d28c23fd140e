-- ===== src/Catalog/Tables.antt =====
-- services/backend/catalog/internal/domain/postgres/postgres.go: the reference tables and the
-- corpus, with '' for NULL. The order of texts, pgvector's distance, new ids, and what the casts
-- and constraints of an INSERT accept are parameters. Tags go through JSON and come back as they
-- were.
use perfect_gift.Prelude.{
  ℕ, String, Bool, true, false, Option, none, some, List, [], ◌∷◌, map, keep, ap₂, ◌≡◌, take,
  Result, ok, err, Exec, leb, ◌==◌, ◌&&◌, ◌||◌, not, if◌then◌else◌,
}
use perfect_gift.Catalog.Types.{
  Holiday, Category, BudgetBand, Inspiration, Snippet, HolidayFilter, SearchFilter,
}

-- A row of catalog.inspiration
pub record Row (F : Type 0) : Type 0 where
  pub inspiration : Inspiration
  pub embedding : List F

pub record Tables (F : Type 0) : Type 0 where
  pub holidays : List Holiday
  pub categories : List Category
  pub budget_bands : List BudgetBand
  pub corpus : List (Row F)
  pub up : Bool

-- What Postgres and pgvector do.
pub record Database (F D : Type 0) : Type 0 where
  pub text_before : String → String → Bool
  -- embedding <=> vector
  pub distance : List F → List F → D
  pub closer : D → D → Bool
  pub one_minus : D → D
  pub is_uuid : String → Bool
  pub accepts : Inspiration → List F → Bool
  pub new_id : Tables F → String

-- ORDER BY, where rows that are equal in it keep their order.
module _ {A : Type 0} (before : A → A → Bool) where
  insert_row : A → List A → List A
  insert_row a [] = a ∷ []
  insert_row a (b ∷ bs) = let rest = insert_row a bs in if before b a then b ∷ rest else a ∷ b ∷ bs

  unfoldable pub order_by : List A → List A
  unfolding insert_row
  order_by [] = []
  order_by (a ∷ as') = insert_row a (order_by as')

same_active : Option Bool → Bool → Bool
same_active none a = true
same_active (some true) a = a
same_active (some false) a = not a

unfoldable pub is_wanted : String → Option Bool → Holiday → Bool
unfolding same_active
is_wanted region active h = (region == "" || h.region == region) && same_active active h.active

module _ {F D : Type 0} (db : Database F D) where
  -- The rows of ListHolidays
  unfoldable pub holiday_rows : HolidayFilter → List Holiday → List Holiday
  unfolding order_by
  holiday_rows f rows =
      order_by (λ a b. db.text_before a.name b.name) (keep (is_wanted f.region f.active) rows)

  -- ListHolidays
  unfoldable pub list_holidays : HolidayFilter → Tables F → Result String (List Holiday)
  list_holidays f t = if t.up then ok (holiday_rows f t.holidays) else err "query holidays"

  -- Only the region and the flag of a filter count.
  pub holiday_rows_same :
      (f g : HolidayFilter) (rows : List Holiday)
      → f.region ≡ g.region
      → f.active ≡ g.active
      → holiday_rows f rows ≡ holiday_rows g rows
  unfolding holiday_rows
  holiday_rows_same f g rows r a =
      ap₂ (λ x y. order_by (λ a b. db.text_before a.name b.name) (keep (is_wanted x y) rows)) r a

  -- GetCategories
  unfoldable pub get_categories :
      String → Tables F → Result String (List Category × List BudgetBand)
  unfolding order_by
  get_categories kind t =
      if t.up
      then ok (
        order_by (λ a b. db.text_before a.name b.name)
            (keep (λ c. kind == "" || c.kind == kind) t.categories),
        order_by (λ a b. leb a.min_cents b.min_cents) t.budget_bands,
      )
      else err "query categories"

  unfoldable pub is_match : SearchFilter → Row F → Bool
  is_match f r =
      r.inspiration.active
      && ((f.category_id == "" || r.inspiration.category_id == f.category_id)
          && (f.budget_band_id == "" || r.inspiration.budget_band_id == f.budget_band_id))

  unfoldable pub snippet_of : List F → Row F → Snippet D
  snippet_of vec r = record {
    id = r.inspiration.id;
    title = r.inspiration.title;
    body = r.inspiration.body;
    category_id = r.inspiration.category_id;
    budget_band_id = r.inspiration.budget_band_id;
    tags = r.inspiration.tags;
    score = db.one_minus (db.distance r.embedding vec);
  }

  -- A filter that is not empty is cast to uuid.
  unfoldable pub casts : String → Bool
  casts id = id == "" || db.is_uuid id

  -- SearchInspiration
  unfoldable pub search_inspiration :
      List F → SearchFilter → ℕ → Tables F → Result String (List (Snippet D))
  unfolding is_match snippet_of casts order_by
  search_inspiration vec f top_k t =
      if t.up && (casts f.category_id && casts f.budget_band_id)
      then ok (
          map (snippet_of vec) (
            take top_k (
              order_by
                (λ a b. db.closer (db.distance a.embedding vec) (db.distance b.embedding vec))
                (keep (is_match f) t.corpus))))
      else err "query inspiration"

  -- ON CONFLICT (id) DO UPDATE, or a new row
  put_row : Row F → List (Row F) → List (Row F)
  put_row r [] = r ∷ []
  put_row r (q ∷ qs) =
      let rest = put_row r qs in if q.inspiration.id == r.inspiration.id then r ∷ qs else q ∷ rest

  id_for : Inspiration → Tables F → String
  id_for i t = if i.id == "" then db.new_id t else i.id

  -- UpsertInspiration
  unfoldable pub upsert_inspiration : Inspiration → List F → Exec (Tables F) String String
  unfolding put_row id_for
  upsert_inspiration i vec t =
      if t.up && db.accepts i vec
      then (
        ok (id_for i t),
        record t {
          corpus =
              put_row (record { inspiration = record i { id = id_for i t }; embedding = vec })
                t.corpus;
        },
      )
      else (err "upsert inspiration", t)
