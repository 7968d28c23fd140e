-- ===== src/Logkit/Options.antt =====
-- pkg/logkit/options.go: the settings. A number below zero is read as 0, which every test of the
-- code treats alike; Stdout and HTTPClient belong to the handler and to the client.
use perfect_gift.Prelude.{ℕ, ◌*◌, String, Option, none, some, eqb, ◌==◌, if◌then◌else◌}

pub record Options : Type 0 where
  pub server_url : String
  pub spool_dir : String
  pub level : ℕ
  pub batch_size : ℕ
  pub flush_interval : ℕ
  pub queue_size : ℕ
  pub http_timeout : ℕ
  pub retry_interval : ℕ
  pub spool_max_bytes : ℕ

abbrev second : ℕ
second = 1000000000

abbrev default_spool_dir : String
default_spool_dir = "/var/log/spool"

abbrev default_batch_size : ℕ
default_batch_size = 100

abbrev default_flush_interval : ℕ
default_flush_interval = 2 * second

abbrev default_queue_size : ℕ
default_queue_size = 4096

abbrev default_http_timeout : ℕ
default_http_timeout = 5 * second

abbrev default_retry_interval : ℕ
default_retry_interval = 10 * second

abbrev default_spool_max_bytes : ℕ
default_spool_max_bytes = 52428800

unfoldable pub positive_or : ℕ → ℕ → ℕ
positive_or default n = if eqb n 0 then default else n

-- withDefaults
unfoldable pub with_defaults : Options → Options
unfolding positive_or
with_defaults o = record o {
  spool_dir = if o.spool_dir == "" then default_spool_dir else o.spool_dir;
  batch_size = positive_or default_batch_size o.batch_size;
  flush_interval = positive_or default_flush_interval o.flush_interval;
  queue_size = positive_or default_queue_size o.queue_size;
  http_timeout = positive_or default_http_timeout o.http_timeout;
  retry_interval = positive_or default_retry_interval o.retry_interval;
  spool_max_bytes = positive_or default_spool_max_bytes o.spool_max_bytes;
}

parsed_or : ℕ → Option ℕ → ℕ
parsed_or default none = default
parsed_or default (some n) = n

-- os.Getenv and strconv.Atoi
module _ (getenv : String → String) (atoi : String → Option ℕ) where
  env_str : String → String → String
  env_str key default = if getenv key == "" then default else getenv key

  -- envInt and envInt64
  env_int : String → ℕ → ℕ
  unfolding parsed_or
  env_int key default = if getenv key == "" then default else parsed_or default (atoi (getenv key))

  milliseconds_or : ℕ → Option ℕ → ℕ
  milliseconds_or default none = default
  milliseconds_or default (some n) = n * 1000000

  env_dur_ms : String → ℕ → ℕ
  unfolding milliseconds_or
  env_dur_ms key default =
      if getenv key == "" then default else milliseconds_or default (atoi (getenv key))

  -- OptionsFromEnv
  unfoldable pub options_from_env : Options
  unfolding env_str env_int env_dur_ms
  options_from_env = record {
    server_url = getenv "LOG_SERVER_URL";
    spool_dir = env_str "LOG_SPOOL_DIR" default_spool_dir;
    level = 4;
    batch_size = env_int "LOG_BATCH_SIZE" default_batch_size;
    flush_interval = env_dur_ms "LOG_FLUSH_MS" default_flush_interval;
    queue_size = env_int "LOG_QUEUE_SIZE" default_queue_size;
    http_timeout = env_dur_ms "LOG_HTTP_MS" default_http_timeout;
    retry_interval = env_dur_ms "LOG_RETRY_MS" default_retry_interval;
    spool_max_bytes = env_int "LOG_SPOOL_MAX" default_spool_max_bytes;
  }
