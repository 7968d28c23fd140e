-- ===== src/Logkit/Record.antt =====
-- pkg/logkit/record.go: the unit that is shipped. A value of Fields that is not a map is its JSON
-- text here. Levels are counted from slog.LevelDebug, and a lower one is read as 0.
use perfect_gift.Prelude.{ℕ, String, ltb, if◌then◌else◌}

mutual
  pub data Value : Type 0 where
    leaf : String → Value
    object : Fields → Value

  pub data Fields : Type 0 where
    nil : Fields
    entry : String → Value → Fields → Fields

pub record Record : Type 0 where
  pub ts : String
  pub level : String
  pub service : String
  pub message : String
  pub trace_id : String
  pub span_id : String
  pub fields : Fields

-- slog.LevelInfo, LevelWarn and LevelError
abbrev level_info : ℕ
level_info = 4

abbrev level_warn : ℕ
level_warn = 8

abbrev level_error : ℕ
level_error = 12

-- levelString
unfoldable pub level_string : ℕ → String
level_string l =
    if ltb l level_info
    then "DEBUG"
    else if ltb l level_warn
    then "INFO"
    else if ltb l level_error
    then "WARN"
    else "ERROR"
