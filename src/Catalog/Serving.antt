-- ===== src/Catalog/Serving.antt =====
-- The service as services/backend/catalog/internal/app/app.go puts it together: the handlers over
-- the tables and the cache, and the calls that come in one after the other.
use perfect_gift.Prelude.{ℕ, ◌+◌, String, Bool, Option, List, [], ◌∷◌, Result}
use perfect_gift.Catalog.Types.{Inspiration}
use perfect_gift.Catalog.Messages.{CategoryKind, ListHolidaysRequest, SearchInspirationRequest}
use perfect_gift.Catalog.Valkey.{Valkey}
use perfect_gift.Catalog.Valkey
use perfect_gift.Catalog.Tables.{Tables, Database}
use perfect_gift.Catalog.Tables
use perfect_gift.Catalog.Server.{
  Server, Tuning, Json, tuned, list_holidays, get_categories, search_inspiration,
  upsert_inspiration,
}

pub record World (F : Type 0) : Type 0 where
  pub tables : Tables F
  pub valkey : Valkey

pub record Setting (F D : Type 0) : Type 0 where
  pub db : Database F D
  pub json : Json
  pub tune : Tuning
  pub embed : List String → Result String (List (List F))
  pub dimension : ℕ
  -- SCAN by cursor, and the most pages that Invalidate asks for
  pub scan : ℕ → Valkey → List String × ℕ
  pub pages : ℕ

-- A call that comes in, or a change outside.
pub data Incoming (F : Type 0) : Type 0 where
  holidays_call : ListHolidaysRequest → Incoming F
  categories_call : CategoryKind → Incoming F
  search_call : SearchInspirationRequest F → Incoming F
  upsert_call : Option Inspiration → Incoming F
  time_passes : ℕ → Incoming F
  valkey_turns database_turns : Bool → Incoming F

module _ {F D : Type 0} (c : Setting F D) where
  unfoldable pub server : Server F D (World F)
  server = record {
    ref = record {
      list_holidays = λ f w. Tables.list_holidays c.db f w.tables;
      get_categories = λ kind w. Tables.get_categories c.db kind w.tables;
    };
    corpus = record {
      search_inspiration = λ vec f k w. Tables.search_inspiration c.db vec f k w.tables;
      upsert_inspiration = λ i vec w. (
        (Tables.upsert_inspiration c.db i vec w.tables).0,
        record w { tables = (Tables.upsert_inspiration c.db i vec w.tables).1 },
      );
    };
    cache = record {
      get_json = λ decode key w. Valkey.get_json decode key w.valkey;
      set_json = λ key text ttl w. (
        (Valkey.set_json key text ttl w.valkey).0,
        record w { valkey = (Valkey.set_json key text ttl w.valkey).1 },
      );
      invalidate = λ w. (
        (Valkey.invalidate_from c.scan c.pages 0 w.valkey).0,
        record w { valkey = (Valkey.invalidate_from c.scan c.pages 0 w.valkey).1 },
      );
    };
    embedder = record { embed = λ texts w. c.embed texts; dimension = c.dimension };
    tune = tuned c.tune;
    json = c.json;
  }

  unfoldable pub after : Incoming F → World F → World F
  unfolding server
  after (holidays_call req) w = (list_holidays server req w).1
  after (categories_call kind) w = (get_categories server kind w).1
  after (search_call req) w = (search_inspiration server req w).1
  after (upsert_call i) w = (upsert_inspiration server i w).1
  after (time_passes n) w = record w { valkey = record w.valkey { now = w.valkey.now + n } }
  after (valkey_turns up) w = record w { valkey = record w.valkey { up = up } }
  after (database_turns up) w = record w { tables = record w.tables { up = up } }

  unfoldable pub after_all : List (Incoming F) → World F → World F
  unfolding after
  after_all [] w = w
  after_all (e ∷ es) w = after_all es (after e w)
