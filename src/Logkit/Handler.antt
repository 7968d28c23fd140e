-- ===== src/Logkit/Handler.antt =====
-- pkg/logkit/handler.go: the slog handler, from an attribute to a record that is shipped. The
-- standard handler that writes stdout, time formatting and the span context are parameters. A map
-- is the list of its entries, in which a key is written in place; LogValuer and errors have been
-- resolved to the JSON text of the value, and no attribute holds a map, which `child` would write
-- into.
use perfect_gift.Prelude.{
  ◌&&◌, ℕ, String, Bool, true, false, Option, none, some, List, [], ◌∷◌, ◌++◌, leb, ◌==◌, not,
  if◌then◌else◌,
}
use perfect_gift.Logkit.Record.{Value, leaf, object, Fields, nil, entry, Record, level_string}
use perfect_gift.Logkit.Options.{Options, with_defaults}

-- slog.Attr: with a value, or a group of attributes. `empty` is slog.Attr{}.
mutual
  pub data Attr : Type 0 where
    empty : Attr
    plain : String → String → Attr
    group : String → Attrs → Attr

  pub data Attrs : Type 0 where
    done : Attrs
    also : Attr → Attrs → Attrs

-- m[key]
unfoldable pub find : Fields → String → Option Value
find nil key = none
find (entry k v m) key = if k == key then some v else find m key

-- m[key] = value
unfoldable pub set : Fields → String → Value → Fields
set nil key value = entry key value nil
set (entry k v m) key value = if k == key then entry k value m else entry k v (set m key value)

-- child: the map at the key, where it is one; another value gives way to a new map.
unfoldable pub map_or_new : Option Value → Fields
map_or_new (some (object m)) = m
map_or_new (some (leaf _)) = nil
map_or_new none = nil

unfoldable pub child : Fields → String → Fields
unfolding map_or_new
child m key = map_or_new (find m key)

-- putAttr below the groups: a nested map that is written is put back under its key.
unfoldable mutual
  pub put_here : Fields → Attr → Fields
  put_here m empty = m
  put_here m (plain key value) = set m key (leaf value)
  put_here m (group key done) = m
  put_here m (group key (also a as')) =
      if key == ""
      then put_all m (also a as')
      else set m key (object (put_all (child m key) (also a as')))

  pub put_all : Fields → Attrs → Fields
  put_all m done = m
  put_all m (also a as') = put_all (put_here m a) as'

unfoldable pub put_under : Fields → List String → Attr → Fields
put_under m [] attr = put_here m attr
put_under m (g ∷ gs) attr = set m g (object (put_under (child m g) gs attr))

-- putAttr
unfoldable pub put_attr : Fields → List String → Attr → Fields
put_attr m groups empty = m
put_attr m groups (plain key value) = put_under m groups (plain key value)
put_attr m groups (group key as') = put_under m groups (group key as')

pub record GroupedAttr : Type 0 where
  pub groups : List String
  pub attr : Attr

-- Handler, without its stdout handler
pub record Handler : Type 0 where
  pub service : String
  pub min_level : ℕ
  pub ships : Bool
  pub preset : List GroupedAttr
  pub groups : List String
  pub root : Bool

-- slog.Record: the time as it is formatted by formatTS, the level, the message and the attributes.
pub record LogRecord : Type 0 where
  pub ts : String
  pub level : ℕ
  pub message : String
  pub attrs : List Attr

-- A valid span context: its trace id and its span id.
pub record Span : Type 0 where
  pub trace_id : String
  pub span_id : String

-- NewHandler, of options with their defaults
unfoldable pub new_handler : String → Options → Handler
unfolding with_defaults
new_handler service o = record {
  service = service;
  min_level = (with_defaults o).level;
  ships = not ((with_defaults o).server_url == "");
  preset = [];
  groups = [];
  root = true;
}

-- Enabled
unfoldable pub enabled : Handler → ℕ → Bool
enabled h level = leb h.min_level level

tagged : List String → List Attr → List GroupedAttr
tagged groups [] = []
tagged groups (a ∷ as') = record { groups = groups; attr = a } ∷ tagged groups as'

-- WithAttrs; the clone is no root.
unfoldable pub with_attrs : List Attr → Handler → Handler
unfolding tagged
with_attrs [] h = h
with_attrs (a ∷ as') h = record h { root = false; preset = h.preset ++ tagged h.groups (a ∷ as') }

-- WithGroup
unfoldable pub with_group : String → Handler → Handler
with_group name h =
    if name == "" then h else record h { root = false; groups = h.groups ++ name ∷ [] }

unfoldable pub put_preset : Fields → List GroupedAttr → Fields
unfolding put_attr
put_preset m [] = m
put_preset m (g ∷ gs) = put_preset (put_attr m g.groups g.attr) gs

unfoldable pub put_attrs : List String → Fields → List Attr → Fields
unfolding put_attr
put_attrs groups m [] = m
put_attrs groups m (a ∷ as') = put_attrs groups (put_attr m groups a) as'

-- buildFields
unfoldable pub build_fields : Handler → List Attr → Fields
unfolding put_preset put_attrs
build_fields h attrs = put_attrs h.groups (put_preset nil h.preset) attrs

trace_id_of : Option Span → String
trace_id_of none = ""
trace_id_of (some s) = s.trace_id

span_id_of : Option Span → String
span_id_of none = ""
span_id_of (some s) = s.span_id

-- The record that Handle ships.
unfoldable pub shipped : Handler → Option Span → LogRecord → Record
unfolding trace_id_of span_id_of
shipped h span r = record {
  ts = r.ts;
  level = level_string r.level;
  service = h.service;
  message = r.message;
  trace_id = trace_id_of span;
  span_id = span_id_of span;
  fields = build_fields h r.attrs;
}

-- The attributes that stdout has besides those of the record.
trace_attrs : Option Span → List Attr
trace_attrs none = []
trace_attrs (some s) =
    if s.trace_id == "" then [] else plain "trace_id" s.trace_id ∷ plain "span_id" s.span_id ∷ []

module _ {W E : Type 0} (stdout : Handler → LogRecord → W → Option E × W)
    (ship : Record → W → W) where
  -- Handle: the error is that of stdout.
  unfoldable pub handle : Handler → Option Span → LogRecord → W → Option E × W
  unfolding trace_attrs
  handle h span r w =
      let written = stdout h (record r { attrs = r.attrs ++ trace_attrs span }) w in
      (written.0, if h.ships then ship (shipped h span r) written.1 else written.1)

  -- Close and Flush, on what closing and flushing the shipper do
  unfoldable pub close_handler : (W → W) → Handler → W → W
  close_handler close h w = if h.root && h.ships then close w else w

  unfoldable pub flush_handler : (W → W) → Handler → W → W
  flush_handler flush h w = if h.ships then flush w else w
