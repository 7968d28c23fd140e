-- ===== src/Tests/Catalogs.antt =====
-- Runs of the catalog at concrete inputs. A float32 is a natural number here.
use perfect_gift.Prelude.{
  ℕ, ◌≤◌, String, Bool, true, false, Option, none, some, List, [], ◌∷◌, map, length, ◌≡◌, refl,
  arith, eq_iff, ok, leb, eqb, lacks, ◌==◌, ◌&&◌, if◌then◌else◌, Bool-cases, inl, inr, All,
  empty_map,
}
use perfect_gift.Catalog.Tables
use perfect_gift.Catalog.Server
use perfect_gift.Catalog.Valkey
use perfect_gift.Catalog.Types.{Holiday, Inspiration, Snippet}
use perfect_gift.Catalog.Messages.{
  ListHolidaysRequest, SearchInspirationRequest, unspecified_kind, holiday_to_proto,
}
use perfect_gift.Catalog.Valkey.{Valkey}
use perfect_gift.Catalog.Tables.{Tables, Database, Row, holiday_rows}
use perfect_gift.Catalog.Server.{
  Json, Tuning, tuned, list_holidays, search_inspiration, filter_from,
}
use perfect_gift.Catalog.Serving.{
  World, Setting, Incoming, holidays_call, categories_call, upsert_call, valkey_turns, server,
  after_all,
}
use perfect_gift.Catalog.Transparent.{IsPlainCall, list_holidays_transparent}
use perfect_gift.Catalog.Searching.{IsOneQuery, search_bounded}

abbrev valentine : Holiday
valentine = record {
  id = "1";
  name = "Valentine";
  date_rule = "fixed";
  region = "US";
  tags = [];
  active = true;
}

is_valentine : Holiday → Bool
is_valentine h =
    h.id == "1"
    && (h.name == "Valentine"
        && (h.date_rule == "fixed" && (h.region == "US" && (h.active && eqb (length h.tags) 0))))

nil_of_length : (xs : List String) → eqb (length xs) 0 ≡ true → xs ≡ []
nil_of_length [] e = refl
nil_of_length (x ∷ xs) e = absurd (ground arith)

is_valentine_sound : (h : Holiday) → is_valentine h ≡ true → h ≡ valentine
unfolding is_valentine
is_valentine_sound h e = ground (
  arith,
  eq_iff h.id "1",
  eq_iff h.name "Valentine",
  eq_iff h.date_rule "fixed",
  eq_iff h.region "US",
  nil_of_length h.tags,
)

marshal_holidays : List Holiday → Option String
marshal_holidays [] = none
marshal_holidays (h ∷ []) = if is_valentine h then some "v" else none
marshal_holidays (h ∷ g ∷ hs) = none

unmarshal_holidays : String → Option (List Holiday)
unmarshal_holidays text = if text == "v" then some (valentine ∷ []) else some []

codec :
    (hs : List Holiday) (text : String)
    → marshal_holidays hs ≡ some text
    → unmarshal_holidays text ≡ some hs
unfolding marshal_holidays unmarshal_holidays
codec [] text e = absurd (ground arith)
codec (h ∷ []) text e = elim (Bool-cases (is_valentine h)) [
  | inl v ↦ ground (arith, eq_iff text "v", is_valentine_sound h v)
  | inr v ↦ absurd (ground arith)
]
codec (h ∷ g ∷ hs) text e = absurd (ground arith)

abbrev setting : Setting ℕ ℕ
setting = record {
  db = record {
    text_before = λ a b. true;
    distance = λ a b. length a;
    closer = leb;
    one_minus = λ d. d;
    is_uuid = λ id. true;
    accepts = λ i vec. true;
    new_id = λ t. "new";
  };
  json = record {
    marshal_holidays = marshal_holidays;
    unmarshal_holidays = unmarshal_holidays;
    marshal_payload = λ p. none;
    unmarshal_payload = λ t. none;
  };
  tune = record { reference_cache_ttl = 0; default_top_k = 0; max_top_k = 0 };
  embed = λ texts. ok ((1 ∷ 2 ∷ []) ∷ []);
  dimension = 2;
  scan = λ cursor v. ([], 0);
  pages = 1;
}

abbrev dinner : Inspiration
dinner = record {
  id = "a";
  title = "Dinner";
  body = "At home";
  category_id = "";
  budget_band_id = "";
  tags = [];
  curated_by = "me";
  active = true;
}

abbrev start : World ℕ
start = record {
  tables = record {
    holidays = valentine ∷ [];
    categories = [];
    budget_bands = [];
    corpus = record { inspiration = dinner; embedding = 1 ∷ 2 ∷ [] } ∷ [];
    up = true;
  };
  valkey = record { entries = empty_map; up = true; now = 0 };
}

abbrev in_us : ListHolidaysRequest
in_us = record { region = "US"; active = some true; on_or_after = "" }

-- The second read hits the cache, the third finds it down.
abbrev calls : List (Incoming ℕ)
calls =
    holidays_call in_us
    ∷ holidays_call in_us
    ∷ valkey_turns false
    ∷ categories_call unspecified_kind
    ∷ upsert_call (some dinner)
    ∷ []

calls-plain : All IsPlainCall calls
unfolding lacks
calls-plain = (refl, (refl, (tt, (tt, (tt, tt)))))

us-plain : lacks b':' "US" ≡ true
unfolding lacks
us-plain = refl

still_up : (after_all setting calls start).tables.up ≡ true
unfolding after_all Server.upsert_inspiration Tables.upsert_inspiration Server.get_categories
    Valkey.get_json Tables.get_categories list_holidays Tables.list_holidays Valkey.set_json
    marshal_holidays holiday_rows Tables.is_wanted is_valentine tuned unmarshal_holidays
still_up = refl

list_holidays_transparent_example :
    (list_holidays (server setting) in_us (after_all setting calls start)).0
    ≡ ok (
        map holiday_to_proto
          (holiday_rows setting.db (filter_from (server setting) in_us) (valentine ∷ [])))
list_holidays_transparent_example =
    list_holidays_transparent setting codec calls start in_us calls-plain us-plain (λ j. refl)
      still_up

abbrev near : SearchInspirationRequest ℕ
near = record { query_text = ""; query_embedding = 1 ∷ 2 ∷ []; filters = none; top_k = 7 }

abbrev found : List (Snippet ℕ)
found =
    record {
      id = "a";
      title = "Dinner";
      body = "At home";
      category_id = "";
      budget_band_id = "";
      tags = [];
      score = 2;
    }
    ∷ []

finds : (search_inspiration (server setting) near start).0 ≡ ok found
unfolding search_inspiration server Tables.search_inspiration tuned
finds = refl

search_bounded_example :
    IsOneQuery 2 near
    × (length found ≤ (tuned setting.tune).max_top_k)
    × (length found ≤ (if eqb near.top_k 0 then (tuned setting.tune).default_top_k else near.top_k))
search_bounded_example = search_bounded setting near start found finds
