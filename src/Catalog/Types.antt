-- ===== src/Catalog/Types.antt =====
-- services/backend/catalog/internal/domain/model/model.go, and the interfaces of
-- services/backend/catalog/internal/app/catalog_server.go. F is float32 and D a float64; an error
-- is its text.
use perfect_gift.Prelude.{ℕ, String, Bool, Option, List, Result, Exec, Call}

pub record Holiday : Type 0 where
  pub id : String
  pub name : String
  pub date_rule : String
  pub region : String
  pub tags : List String
  pub active : Bool

pub record Category : Type 0 where
  pub id : String
  pub name : String
  pub kind : String
  pub parent_id : String

-- The cents are int32, as natural numbers.
pub record BudgetBand : Type 0 where
  pub id : String
  pub label : String
  pub min_cents : ℕ
  pub max_cents : ℕ
  pub currency : String

pub record Inspiration : Type 0 where
  pub id : String
  pub title : String
  pub body : String
  pub category_id : String
  pub budget_band_id : String
  pub tags : List String
  pub curated_by : String
  pub active : Bool

pub record Snippet (D : Type 0) : Type 0 where
  pub id : String
  pub title : String
  pub body : String
  pub category_id : String
  pub budget_band_id : String
  pub tags : List String
  pub score : D

pub record HolidayFilter : Type 0 where
  pub region : String
  pub active : Option Bool
  pub on_or_after : String

pub record SearchFilter : Type 0 where
  pub category_id : String
  pub budget_band_id : String

pub record ReferenceStore (W : Type 0) : Type 0 where
  pub list_holidays : HolidayFilter → W → Result String (List Holiday)
  pub get_categories : String → W → Result String (List Category × List BudgetBand)

pub record InspirationStore (F D W : Type 0) : Type 0 where
  pub search_inspiration : List F → SearchFilter → ℕ → W → Result String (List (Snippet D))
  pub upsert_inspiration : Inspiration → List F → Exec W String String

-- Cache: GetJSON with the decoder of its destination, SetJSON with the text of its value.
pub record Cache (W : Type 0) : Type 1 where
  pub get_json : {A : Type 0} → (String → Option A) → String → W → Result String (Option A)
  pub set_json : String → Option String → ℕ → Call W String
  pub invalidate : Call W String

-- embedding.Embedder
pub record Embedder (F W : Type 0) : Type 0 where
  pub embed : List String → W → Result String (List (List F))
  pub dimension : ℕ
