-- ===== src/Catalog/Keys.antt =====
-- Which reads share a key of the cache.
use Prim.Native.String.{◌++◌ as ◌<>◌}
use text.Mathlib.TextLemmas.{append_cancel_left, append_assoc}
use perfect_gift.Prelude.{
  String, Bool, true, false, Option, none, some, ◌∷◌, ◌≡◌, ◌≢◌, refl, sym, ap, ◌∙◌, arith, eq_iff,
  lacks, split_on, split_on-append,
}
use perfect_gift.Catalog.Types.{HolidayFilter}
use perfect_gift.Catalog.Server.{holidays_key, active_key, categories_key}
use perfect_gift.Catalog.Valkey.{ref_prefix}

active_key-inj : (a b : Option Bool) → active_key a ≡ active_key b → a ≡ b
unfolding active_key
active_key-inj none none e = refl
active_key-inj (some true) (some true) e = refl
active_key-inj (some false) (some false) e = refl
active_key-inj none (some true) e = absurd (ground (arith, eq_iff "any" "true"))
active_key-inj none (some false) e = absurd (ground (arith, eq_iff "any" "false"))
active_key-inj (some true) none e = absurd (ground (arith, eq_iff "true" "any"))
active_key-inj (some true) (some false) e = absurd (ground (arith, eq_iff "true" "false"))
active_key-inj (some false) none e = absurd (ground (arith, eq_iff "false" "any"))
active_key-inj (some false) (some true) e = absurd (ground (arith, eq_iff "false" "true"))

active_key-lacks : (a : Option Bool) → lacks b':' (active_key a) ≡ true
unfolding active_key lacks
active_key-lacks none = refl
active_key-lacks (some true) = refl
active_key-lacks (some false) = refl

rest_of : HolidayFilter → String
rest_of f = f.region <> (":" <> (active_key f.active <> (":" <> f.on_or_after)))

split-rest :
    (f : HolidayFilter)
    → lacks b':' f.region ≡ true
    → split_on b':' (rest_of f) ≡ f.region ∷ active_key f.active ∷ split_on b':' f.on_or_after
unfolding rest_of
split-rest f h =
    split_on-append ":" f.region (active_key f.active <> (":" <> f.on_or_after)) h
    ∙ ap (λ k. f.region ∷ k)
        (split_on-append ":" (active_key f.active) f.on_or_after (active_key-lacks f.active))

-- Reads of regions without a colon share a key only if they have the same region and flag.
pub holidays_key-inj :
    (f g : HolidayFilter)
    → lacks b':' f.region ≡ true
    → lacks b':' g.region ≡ true
    → ref_prefix <> holidays_key f ≡ ref_prefix <> holidays_key g
    → (f.region ≡ g.region) × (f.active ≡ g.active)
unfolding holidays_key rest_of
holidays_key-inj f g hf hg e =
    let rest : rest_of f ≡ rest_of g =
      append_cancel_left "holidays:" (rest_of f) (rest_of g)
        (append_cancel_left ref_prefix (holidays_key f) (holidays_key g) e) in
    let parts = sym (split-rest f hf) ∙ ap (split_on b':') rest ∙ split-rest g hg in
    (cc, active_key-inj f.active g.active (cc))

-- The text in front of the first colon.
split_first :
    (part rest : String)
    → lacks b':' part ≡ true
    → split_on b':' ((part <> ":") <> rest) ≡ part ∷ split_on b':' rest
split_first part rest h =
    ap (split_on b':') (append_assoc part ":" rest) ∙ split_on-append ":" part rest h

pub keys_differ :
    (f : HolidayFilter) (kind : String)
    → (ref_prefix <> holidays_key f) ≢ (ref_prefix <> categories_key kind)
unfolding holidays_key categories_key rest_of lacks
keys_differ f kind e =
    let tails : "holidays:" <> rest_of f ≡ "categories:" <> kind =
      append_cancel_left ref_prefix (holidays_key f) (categories_key kind) e in
    let parts : "holidays" ∷ split_on b':' (rest_of f) ≡ "categories" ∷ split_on b':' kind =
      sym (split_first "holidays" (rest_of f) refl)
      ∙ ap (split_on b':') tails
      ∙ split_first "categories" kind refl in
    let same : ◌≡◌ {A = String} "holidays" "categories" = cc in
    absurd (ground (arith, eq_iff "holidays" "categories"))
