-- ===== src/Logkit/Nesting.antt =====
-- Where the attributes of a record stand in its fields.
use text.Mathlib.TextEquality.{eq_iff}
use perfect_gift.Prelude.{
  none, Bool-cases, inl, inr, if◌then◌else◌, String, ◌≡◌, refl, ◌∙◌, ap, arith, Option, some, List,
  [], ◌∷◌, ◌++◌, ◌==◌, eq_refl,
}
use perfect_gift.Logkit.Record.{Value, leaf, object, Fields, nil, entry}
use perfect_gift.Logkit.Handler.{
  Attr, Attrs, empty, plain, group, done, also, put_all, find, set, child, map_or_new, put_attr,
  put_here, put_under, put_attrs, put_preset, Handler, build_fields,
}

-- The text that stands in nested maps below a path, at a key.
abbrev leaf_of : Option Value → Option String
leaf_of none = none
leaf_of (some (leaf v)) = some v
leaf_of (some (object m)) = none

unfoldable pub leaf_under : Fields → List String → String → Option String
leaf_under m [] key = leaf_of (find m key)
leaf_under m (g ∷ gs) key = leaf_under (child m g) gs key

-- What stands there once an attribute is written over it. A value takes its key, and what stood
-- below that; a group goes below its key, or with no key to the same level, unless it is empty.
mutual
  pub written_over : Attr → List String → String → Option String → Option String
  written_over empty path key old = old
  written_over (plain k v) [] key old = if k == key then some v else old
  written_over (plain k v) (g ∷ gs) key old = if k == g then none else old
  written_over (group k done) path key old = old
  written_over (group k (also a as')) [] key old =
      if k == "" then all_written_over (also a as') [] key old else if k == key then none else old
  written_over (group k (also a as')) (g ∷ gs) key old =
      if k == ""
      then all_written_over (also a as') (g ∷ gs) key old
      else if k == g
      then all_written_over (also a as') gs key old
      else old

  all_written_over : Attrs → List String → String → Option String → Option String
  all_written_over done path key old = old
  all_written_over (also a as') path key old =
      all_written_over as' path key (written_over a path key old)

find-set :
    (m : Fields) (k : String) (v : Value) (j : String)
    → find (set m k v) j ≡ (if k == j then some v else find m j)
unfolding find set
find-set nil k v j = ground arith
find-set (entry i u m) k v j = ground (arith, find-set m k v j, eq_iff i k, eq_iff i j, eq_iff k j)

child-set :
    (m : Fields) (k : String) (v : Value) (g : String)
    → child (set m k v) g ≡ (if k == g then map_or_new (some v) else child m g)
unfolding child map_or_new
child-set m k v g = ground (arith, find-set m k v g)

leaf_under_nil : (path : List String) (key : String) → leaf_under nil path key ≡ none
unfolding leaf_under child map_or_new find
leaf_under_nil [] key = refl
leaf_under_nil (g ∷ gs) key = leaf_under_nil gs key

-- A value written at a key, seen below another key or that one.
leaf_under-set :
    (m : Fields) (k : String) (v : Value) (g : String) (gs : List String) (key : String)
    → leaf_under (set m k v) (g ∷ gs) key
      ≡ (if k == g then leaf_under (map_or_new (some v)) gs key else leaf_under m (g ∷ gs) key)
unfolding leaf_under
leaf_under-set m k v g gs key = ground (arith, child-set m k v g)

below :
    (m : Fields) (k : String) (as' : Attrs) (g : String) (gs : List String) (key : String)
    → leaf_under (put_all (child m k) as') gs key
      ≡ all_written_over as' gs key (leaf_under (child m k) gs key)
    → (if k == g then leaf_under (put_all (child m k) as') gs key else leaf_under m (g ∷ gs) key)
      ≡ (if k == g
          then all_written_over as' gs key (leaf_under m (g ∷ gs) key)
          else leaf_under m (g ∷ gs) key)
unfolding leaf_under
below m k as' g gs key h = elim (Bool-cases (k == g)) [
  | inl e ↦
      let same : k ≡ g = (eq_iff k g).0 e in
      rw e (h ∙ ap (λ x. all_written_over as' gs key (leaf_under (child m x) gs key)) same)
  | inr e ↦ rw e refl
]

mutual
  unfolding leaf_under written_over put_here put_all all_written_over map_or_new

  leaf-put_here :
      (m : Fields) (a : Attr) (path : List String) (key : String)
      → leaf_under (put_here m a) path key ≡ written_over a path key (leaf_under m path key)
  leaf-put_here m empty path key = refl
  leaf-put_here m (plain k v) [] key = ground (arith, find-set m k (leaf v) key)
  leaf-put_here m (plain k v) (g ∷ gs) key =
      ground (arith, leaf_under-set m k (leaf v) g gs key, leaf_under_nil gs key)
  leaf-put_here m (group k done) path key = refl
  leaf-put_here m (group k (also a as')) [] key = elim (Bool-cases (k == "")) [
    | inl e ↦ rw e (leaf-put_all m (also a as') [] key)
    | inr e ↦ rw e (ground (arith, find-set m k (object (put_all (child m k) (also a as'))) key))
  ]
  leaf-put_here m (group k (also a as')) (g ∷ gs) key = elim (Bool-cases (k == "")) [
    | inl e ↦ rw e (leaf-put_all m (also a as') (g ∷ gs) key)
    | inr e ↦ rw e (
        leaf_under-set m k (object (put_all (child m k) (also a as'))) g gs key
        ∙ below m k (also a as') g gs key (leaf-put_all (child m k) (also a as') gs key))
  ]

  leaf-put_all :
      (m : Fields) (as' : Attrs) (path : List String) (key : String)
      → leaf_under (put_all m as') path key ≡ all_written_over as' path key (leaf_under m path key)
  leaf-put_all m done path key = refl
  leaf-put_all m (also a as') path key =
      leaf-put_all (put_here m a) as' path key
      ∙ ap (all_written_over as' path key) (leaf-put_here m a path key)

leaf-put_under :
    (m : Fields) (groups : List String) (a : Attr) (path : List String) (key : String)
    → leaf_under (put_under m groups a) (groups ++ path) key
      ≡ written_over a path key (leaf_under m (groups ++ path) key)
unfolding leaf_under put_under map_or_new
leaf-put_under m [] a path key = leaf-put_here m a path key
leaf-put_under m (g ∷ gs) a path key =
    ap (λ k. leaf_under k (gs ++ path) key)
      (child-set m g (object (put_under (child m g) gs a)) g ∙ rw (eq_refl g) refl)
    ∙ leaf-put_under (child m g) gs a path key

leaf-put_attr :
    (m : Fields) (groups : List String) (a : Attr) (path : List String) (key : String)
    → leaf_under (put_attr m groups a) (groups ++ path) key
      ≡ written_over a path key (leaf_under m (groups ++ path) key)
unfolding put_attr written_over
leaf-put_attr m groups empty path key = refl
leaf-put_attr m groups (plain k v) path key = leaf-put_under m groups (plain k v) path key
leaf-put_attr m groups (group k as') path key = leaf-put_under m groups (group k as') path key

put_attrs-append :
    (groups : List String) (m : Fields) (xs : List Attr) (a : Attr)
    → put_attrs groups m (xs ++ a ∷ []) ≡ put_attr (put_attrs groups m xs) groups a
unfolding put_attrs
put_attrs-append groups m [] a = refl
put_attrs-append groups m (x ∷ xs) a = put_attrs-append groups (put_attr m groups x) xs a

-- An attribute that is logged last is written below the handler's groups, over what the attributes
-- before it have left there, in whatever way they used the keys on the way: a value takes its key,
-- and a group, at any depth, goes below its key, or with no key to the same level, unless it is
-- empty. Every other text there is the one that stood there without it. Attributes are values,
-- already rendered, and groups of attributes; none holds a map.
pub build_fields_last :
    (h : Handler) (xs : List Attr) (a : Attr) (path : List String) (key : String)
    → leaf_under (build_fields h (xs ++ a ∷ [])) (h.groups ++ path) key
      ≡ written_over a path key (leaf_under (build_fields h xs) (h.groups ++ path) key)
unfolding build_fields
build_fields_last h xs a path key =
    ap (λ k. leaf_under k (h.groups ++ path) key)
      (put_attrs-append h.groups (put_preset nil h.preset) xs a)
    ∙ leaf-put_attr (put_attrs h.groups (put_preset nil h.preset) xs) h.groups a path key
