-- ===== src/Poll/Server/World.antt =====
-- services/backend/poll/internal/app/poll_server.go over the tables of `Poll.Store`, beside the
-- counters of a rate limiter and all else that is outside.
use Prim.Native.String.{◌++◌}
use perfect_gift.Prelude.{ℕ, String, Bool, true, Result, ok, err, Exec, ◌≡◌, ◌⊎◌}
use perfect_gift.Grpc
use perfect_gift.Grpc.{fail_with, resource_exhausted, internal}
use perfect_gift.Poll.Ports.{Repo, PollError, PollCompleted}
use perfect_gift.Poll.Store.{Tables, repo}
use perfect_gift.Poll.Server.{Server, Context, gone, client_ip}

pub record World (L : Type 0) : Type 0 where
  pub tables : Tables
  pub outside : L

-- The tables as Repo, for a transaction that takes its next row id from the argument.
abbrev pub on_tables : {L : Type 0} → String → Repo (World L)
on_tables row = record {
  create_poll = λ p hash at w. (
    ((repo row).create_poll p hash at w.tables).0,
    record w { tables = ((repo row).create_poll p hash at w.tables).1 },
  );
  get_by_token_hash = λ hash w. (repo row).get_by_token_hash hash w.tables;
  complete_with_response = λ id answers fp at w. (
    ((repo row).complete_with_response id answers fp at w.tables).0,
    record w { tables = ((repo row).complete_with_response id answers fp at w.tables).1 },
  );
  get_poll_by_id = λ id w. (repo row).get_poll_by_id id w.tables;
  get_responses = λ id w. (repo row).get_responses id w.tables;
}

-- The server's store is the tables; its limiter and its publisher change what is outside alone.
pub record IsBacked {L : Type 0} (s : Server (World L)) (row : String) : Type 0 where
  pub over : s.repo ≡ on_tables row
  pub limiter_keeps :
      (key : String) (budget window : ℕ) (w : World L)
      → (s.limiter.allow key budget window w).1.tables ≡ w.tables
  pub publisher_keeps :
      (e : PollCompleted) (w : World L)
      → (s.publisher.publish_poll_completed e w).1.tables ≡ w.tables

module _ {L : Type 0} (s : Server (World L)) where
  -- What the limiter answers to a fetch, and to the two questions of a submission.
  abbrev pub fetch_call : Context → Exec (World L) PollError Bool
  fetch_call ctx =
      s.limiter.allow ("rl:fetch:ip:" ++ client_ip ctx) s.tune.per_ip_budget s.tune.per_ip_window

  abbrev pub token_call : String → Exec (World L) PollError Bool
  token_call raw =
      s.limiter.allow ("rl:submit:token:" ++ s.sha256_hex raw) s.tune.per_token_budget
        s.tune.per_token_window

  abbrev pub ip_call : Context → Exec (World L) PollError Bool
  ip_call ctx =
      s.limiter.allow ("rl:submit:ip:" ++ client_ip ctx) s.tune.per_ip_budget s.tune.per_ip_window

  -- The limiter has room for a fetch, or for a submission.
  abbrev pub AdmitsFetch : Context → World L → Type 0
  AdmitsFetch ctx w = (fetch_call ctx w).0 ≡ ok true

  abbrev pub AdmitsSubmission : Context → String → World L → Type 0
  AdmitsSubmission ctx raw w =
      ((token_call raw w).0 ≡ ok true) × ((ip_call ctx (token_call raw w).1).0 ≡ ok true)

-- NotFound, or the limiter's refusal: ResourceExhausted, or Internal when it fails.
abbrev pub IsTurnedAway : {A : Type 0} → Result Grpc.Status A → Type 0
IsTurnedAway r =
    (r ≡ err gone)
    ⊎ (r ≡ err (fail_with resource_exhausted "rate limit exceeded"))
    ⊎ (r ≡ err (fail_with internal "rate limiter unavailable"))
