-- ===== src/Catalog/Transparent.antt =====
-- The cache never shows in what ListHolidays answers.
use Prim.Native.String.{◌++◌ as ◌<>◌}
use perfect_gift.Prelude.{
  String, true, none, some, List, [], ◌∷◌, map, ◌≡◌, inl, inr, refl, sym, subst, arith, All, ok,
  Option-cases, lacks,
}
use perfect_gift.Catalog.Types.{Holiday, HolidayFilter}
use perfect_gift.Catalog.Messages.{ListHolidaysRequest, holiday_to_proto}
use perfect_gift.Catalog.Valkey.{Valkey, ref_prefix, get_json, live, found, decoded}
use perfect_gift.Catalog.Tables.{Tables, Database, holiday_rows, holiday_rows_same}
use perfect_gift.Catalog.Tables
use perfect_gift.Catalog.Server.{hit_of, filter_from, holidays_key, list_holidays, cache_get}
use perfect_gift.Catalog.Serving.{
  World, Setting, Incoming, holidays_call, categories_call, search_call, upsert_call, time_passes,
  valkey_turns, database_turns, server, after, after_all,
}
use perfect_gift.Catalog.Reading.{cached_answer, list_holidays_answer, search_inspiration_state}
use perfect_gift.Catalog.Coherent.{
  IsCoherent, Leaves, hit_of-some, get_categories-Leaves, upsert-Leaves, list_holidays-Leaves,
}

-- The regions that are asked for have no colon.
abbrev pub IsPlainCall : {F : Type 0} → Incoming F → Type 0
IsPlainCall (holidays_call req) = lacks b':' req.region ≡ true
IsPlainCall (categories_call _) = Unit
IsPlainCall (search_call _) = Unit
IsPlainCall (upsert_call _) = Unit
IsPlainCall (time_passes _) = Unit
IsPlainCall (valkey_turns _) = Unit
IsPlainCall (database_turns _) = Unit

module _ {F D : Type 0} (c : Setting F D) where
  module _
      (codec : (hs : List Holiday) (text : String)
        → c.json.marshal_holidays hs ≡ some text
        → c.json.unmarshal_holidays text ≡ some hs) where
    after-Leaves :
        (e : Incoming F) (rows : List Holiday) (w : World F)
        → IsPlainCall e
        → Leaves c rows w
        → Leaves c rows (after c e w)
    unfolding after IsCoherent
    after-Leaves (holidays_call req) rows w colon h =
        list_holidays-Leaves c codec req rows w colon h
    after-Leaves (categories_call kind) rows w _ h = get_categories-Leaves c kind rows w h
    after-Leaves (search_call req) rows w _ h =
        subst (Leaves c rows) (sym (search_inspiration_state (server c) req w)) h
    after-Leaves (upsert_call i) rows w _ h = upsert-Leaves c i rows w h
    after-Leaves (time_passes n) rows w _ h = h
    after-Leaves (valkey_turns up) rows w _ h = h
    after-Leaves (database_turns up) rows w _ h = h

    after_all-Leaves :
        (es : List (Incoming F)) (rows : List Holiday) (w : World F)
        → All IsPlainCall es
        → Leaves c rows w
        → Leaves c rows (after_all c es w)
    unfolding after_all
    after_all-Leaves [] rows w _ h = h
    after_all-Leaves (e ∷ es) rows w (p, ps) h =
        after_all-Leaves es rows (after c e w) ps (after-Leaves e rows w p h)

    empty-IsCoherent :
        (w : World F)
        → ((j : String) → w.valkey.entries j ≡ none)
        → IsCoherent c w.tables.holidays w.valkey
    unfolding IsCoherent
    empty-IsCoherent w empty f e hf there =
        absurd (ground (arith, empty (ref_prefix <> holidays_key f)))

    -- A hit is coherent.
    hit-rows :
        (f : HolidayFilter) (rows : List Holiday) (v : Valkey) (b : List Holiday)
        → lacks b':' f.region ≡ true
        → IsCoherent c rows v
        → get_json c.json.unmarshal_holidays (holidays_key f) v ≡ ok (some b)
        → b ≡ holiday_rows c.db f rows
    unfolding IsCoherent get_json live found decoded
    hit-rows f rows v b hf h e = elim (Option-cases (v.entries (ref_prefix <> holidays_key f))) [
      | inl n ↦ absurd (ground arith)
      | inr (x, there) ↦ let read = h f x hf there in ground arith
    ]

    answer :
        (req : ListHolidaysRequest) (rows : List Holiday) (w : World F)
        → lacks b':' req.region ≡ true
        → IsCoherent c rows w.valkey
        → w.tables.holidays ≡ rows
        → w.tables.up ≡ true
        → (list_holidays (server c) req w).0
          ≡ ok (map holiday_to_proto (holiday_rows c.db (filter_from (server c) req) rows))
    unfolding server filter_from cache_get hit_of Tables.list_holidays
    answer req rows w colon h same up =
        let f = filter_from (server c) req in
        list_holidays_answer (server c) req w (holiday_rows c.db f rows) (
          cached_answer (server c) "list holidays: " (holidays_key f) c.json.unmarshal_holidays
            c.json.marshal_holidays (λ v. Tables.list_holidays c.db f v.tables) w
            (holiday_rows c.db f rows)
            (λ b e.
              hit-rows f rows w.valkey b colon h
                (hit_of-some (get_json c.json.unmarshal_holidays (holidays_key f) w.valkey) b e))
            (ground arith))

    -- After any calls, from a cache without entries: while the database is up, ListHolidays for a
    -- region without a colon answers the rows that the table has for the filter, whatever the
    -- cache holds, whether it is up, and whatever time has passed; earlier calls asked for regions
    -- without a colon too, and encoding/json reads back the holidays that it has written.
    pub list_holidays_transparent :
        (es : List (Incoming F)) (w : World F) (req : ListHolidaysRequest)
        → All IsPlainCall es
        → lacks b':' req.region ≡ true
        → ((j : String) → w.valkey.entries j ≡ none)
        → (after_all c es w).tables.up ≡ true
        → (list_holidays (server c) req (after_all c es w)).0
          ≡ ok (
              map holiday_to_proto
                (holiday_rows c.db (filter_from (server c) req) w.tables.holidays))
    list_holidays_transparent es w req plain colon empty up =
        let start : IsCoherent c w.tables.holidays w.valkey = empty-IsCoherent w empty in
        let (coherent, rows) = after_all-Leaves es w.tables.holidays w plain (start, refl) in
        answer req w.tables.holidays (after_all c es w) colon coherent rows up
