-- ===== src/Catalog/Coherent.antt =====
-- What the calls leave in the cache of reference reads.
use Prim.Native.String.{◌++◌ as ◌<>◌}
use perfect_gift.Prelude.{
  ◌&&◌, ℕ, zero, suc, String, true, Option, none, some, List, [], ◌∷◌, ◌≡◌, ◌⊎◌, inl, inr, sym, ap,
  subst, ◌∙◌, arith, eq_iff, Result, ok, err, Bool-cases, lacks, GoMap, eqb, ◌==◌,
}
use perfect_gift.Catalog.Types.{Holiday, HolidayFilter, Inspiration}
use perfect_gift.Catalog.Messages.{CategoryKind, ListHolidaysRequest, kind_from_proto}
use perfect_gift.Catalog.Valkey.{Cached, Valkey, ref_prefix, set_json, invalidate_from, delete_all}
use perfect_gift.Catalog.Tables.{Tables, Database, holiday_rows, holiday_rows_same}
use perfect_gift.Catalog.Tables
use perfect_gift.Catalog.Server.{
  hit_of, tuned, filter_from, holidays_key, categories_key, list_holidays, get_categories,
  upsert_inspiration,
}
use perfect_gift.Catalog.Serving.{World, Setting, server}
use perfect_gift.Catalog.Reading.{
  upsert_some_state, Upserted, cached_state, get_categories_state, list_holidays_state,
}
use perfect_gift.Catalog.Keys.{holidays_key-inj, keys_differ}

-- An entry after SetJSON is an old one, or the new one.
set_json-entry :
    (key : String) (o : Option String) (ttl : ℕ) (v : Valkey) (j : String) (e : Cached)
    → (set_json key o ttl v).1.entries j ≡ some e
    → (v.entries j ≡ some e) ⊎ ((ref_prefix <> key ≡ j) × (o ≡ some e.payload))
unfolding set_json
set_json-entry key none ttl v j e there = inl there
set_json-entry key (some text) ttl v j e there = elim (Bool-cases ((ref_prefix <> key) == j)) [
  | inl same ↦ ground (arith, eq_iff (ref_prefix <> key) j)
  | inr other ↦ inl (ground arith)
]

delete_all-entry :
    (ks : List String) (m : GoMap Cached) (j : String) (e : Cached)
    → delete_all ks m j ≡ some e
    → m j ≡ some e
unfolding delete_all
delete_all-entry [] m j e there = there
delete_all-entry (k ∷ ks) m j e there = delete_all-entry ks m j e (ground arith)

-- Invalidate adds no entry.
invalidate-entry :
    (scan : ℕ → Valkey → List String × ℕ) (fuel cursor : ℕ) (v : Valkey) (j : String) (e : Cached)
    → (invalidate_from scan fuel cursor v).1.entries j ≡ some e
    → v.entries j ≡ some e
unfolding invalidate_from
invalidate-entry scan zero cursor v j e there = there
invalidate-entry scan (suc fuel) cursor v j e there =
    let page = scan cursor v in
    let w = record v { entries = delete_all page.0 v.entries } in
    elim (Bool-cases v.up) [
      | inl u ↦ delete_all-entry page.0 v.entries j e (elim (Bool-cases (eqb page.1 0)) [
        | inl z ↦ ground arith
        | inr z ↦ invalidate-entry scan fuel page.1 w j e (ground arith)
      ])
      | inr u ↦ ground arith
    ]

pub hit_of-some :
    {A : Type 0} (r : Result String (Option A)) (a : A) → hit_of r ≡ some a → r ≡ ok (some a)
unfolding hit_of
hit_of-some (ok none) a e = absurd (cc)
hit_of-some (ok (some b)) a e = cc
hit_of-some (err t) a e = absurd (cc)

module _ {F D : Type 0} (c : Setting F D) where
  -- What is cached for a read is what the table has.
  unfoldable pub IsCoherent : List Holiday → Valkey → Type 0
  IsCoherent rows v =
      (f : HolidayFilter) (e : Cached)
      → lacks b':' f.region ≡ true
      → v.entries (ref_prefix <> holidays_key f) ≡ some e
      → c.json.unmarshal_holidays e.payload ≡ some (holiday_rows c.db f rows)

  -- Fewer entries are coherent too.
  IsCoherent-fewer :
      (rows : List Holiday) (v w : Valkey)
      → IsCoherent rows v
      → ((j : String) (e : Cached) → w.entries j ≡ some e → v.entries j ≡ some e)
      → IsCoherent rows w
  unfolding IsCoherent
  IsCoherent-fewer rows v w h fewer f e hf there = h f e hf (fewer _ e there)

  set_categories-IsCoherent :
      (kind : String) (o : Option String) (ttl : ℕ) (rows : List Holiday) (v : Valkey)
      → IsCoherent rows v
      → IsCoherent rows (set_json (categories_key kind) o ttl v).1
  unfolding IsCoherent
  set_categories-IsCoherent kind o ttl rows v h f e hf there =
      elim (set_json-entry (categories_key kind) o ttl v (ref_prefix <> holidays_key f) e there) [
        | inl old ↦ h f e hf old
        | inr (k, m) ↦ absurd (keys_differ f kind (sym k))
      ]

  -- What a call leaves: the same holidays, and a coherent cache.
  abbrev pub Leaves : List Holiday → World F → Type 0
  Leaves rows w = IsCoherent rows w.valkey × (w.tables.holidays ≡ rows)

  pub get_categories-Leaves :
      (kind : CategoryKind) (rows : List Holiday) (w : World F)
      → Leaves rows w
      → Leaves rows (get_categories (server c) kind w).1
  unfolding server
  get_categories-Leaves kind rows w h =
      let key = categories_key (kind_from_proto kind) in
      subst (Leaves rows) (sym (get_categories_state (server c) kind w))
        (elim (cached_state (server c) "get categories: " key c.json.unmarshal_payload
          c.json.marshal_payload (λ v. Tables.get_categories c.db (kind_from_proto kind) v.tables)
          w) [
            | inl e ↦ subst (Leaves rows) (sym e) h
            | inr (a, r, e) ↦ subst (Leaves rows) (sym e) (
              set_categories-IsCoherent (kind_from_proto kind) (c.json.marshal_payload a)
                  (tuned c.tune).reference_cache_ttl rows w.valkey h.0,
              h.1,
            )
          ])

  store-Leaves :
      (i : Inspiration) (vec : List F) (rows : List Holiday) (w : World F)
      → Leaves rows w
      → Leaves rows (record w { tables = (Tables.upsert_inspiration c.db i vec w.tables).1 })
  unfolding Tables.upsert_inspiration
  store-Leaves i vec rows w h = elim (Bool-cases (w.tables.up && c.db.accepts i vec)) [
    | inl e ↦ (h.0, ground arith)
    | inr e ↦ (h.0, ground arith)
  ]

  invalidate-Leaves :
      (rows : List Holiday) (w : World F)
      → Leaves rows w
      → Leaves rows (record w { valkey = (invalidate_from c.scan c.pages 0 w.valkey).1 })
  invalidate-Leaves rows w h = (
    IsCoherent-fewer rows w.valkey (invalidate_from c.scan c.pages 0 w.valkey).1 h.0
        (invalidate-entry c.scan c.pages 0 w.valkey),
    h.1,
  )

  pub upsert-Leaves :
      (i : Option Inspiration) (rows : List Holiday) (w : World F)
      → Leaves rows w
      → Leaves rows (upsert_inspiration (server c) i w).1
  unfolding upsert_inspiration Upserted server
  upsert-Leaves none rows w h = h
  upsert-Leaves (some i) rows w h = elim (upsert_some_state (server c) i w) [
    | inl e ↦ subst (Leaves rows) (sym e) h
    | inr (vec, inl e) ↦ subst (Leaves rows) (sym e) (store-Leaves i vec rows w h)
    | inr (vec, inr e) ↦ subst (Leaves rows) (sym e) (
        invalidate-Leaves rows
          (record w { tables = (Tables.upsert_inspiration c.db i vec w.tables).1 })
          (store-Leaves i vec rows w h))
  ]

  module _
      (codec : (hs : List Holiday) (text : String)
        → c.json.marshal_holidays hs ≡ some text
        → c.json.unmarshal_holidays text ≡ some hs) where
    pub set_holidays-IsCoherent :
        (g : HolidayFilter) (ttl : ℕ) (rows : List Holiday) (v : Valkey)
        → lacks b':' g.region ≡ true
        → IsCoherent rows v
        → IsCoherent rows
            (set_json (holidays_key g) (c.json.marshal_holidays (holiday_rows c.db g rows)) ttl v).1
    unfolding IsCoherent
    set_holidays-IsCoherent g ttl rows v hg h f e hf there =
        elim (set_json-entry (holidays_key g) (c.json.marshal_holidays (holiday_rows c.db g rows))
          ttl v (ref_prefix <> holidays_key f) e there) [
            | inl old ↦ h f e hf old
            | inr (k, m) ↦
                let (r, a) = holidays_key-inj g f hg hf k in
                codec (holiday_rows c.db g rows) e.payload m
                ∙ ap some (holiday_rows_same c.db g f rows r a)
          ]

    pub list_holidays-Leaves :
        (req : ListHolidaysRequest) (rows : List Holiday) (w : World F)
        → lacks b':' req.region ≡ true
        → Leaves rows w
        → Leaves rows (list_holidays (server c) req w).1
    unfolding server filter_from Tables.list_holidays
    list_holidays-Leaves req rows w colon h =
        let f = filter_from (server c) req in
        subst (Leaves rows) (sym (list_holidays_state (server c) req w))
          (elim (cached_state (server c) "list holidays: " (holidays_key f)
            c.json.unmarshal_holidays c.json.marshal_holidays
            (λ v. Tables.list_holidays c.db f v.tables) w) [
              | inl e ↦ subst (Leaves rows) (sym e) h
              | inr (a, r, e) ↦
                  let read : a ≡ holiday_rows c.db f rows = ground arith in
                  subst (Leaves rows) (sym e) (
                    subst
                        (λ k.
                          IsCoherent rows
                            (set_json (holidays_key f) (c.json.marshal_holidays k)
                              (tuned c.tune).reference_cache_ttl w.valkey).1)
                        (sym read)
                        (set_holidays-IsCoherent f (tuned c.tune).reference_cache_ttl rows w.valkey
                          colon h.0),
                    h.1,
                  )
            ])
