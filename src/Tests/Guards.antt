-- ===== src/Tests/Guards.antt =====
-- The breaker, the retry loop and the guarded model client at concrete inputs.
use perfect_gift.Prelude.{ℕ, zero, suc, [], Option, none, some, true, ok}
use perfect_gift.Surprise.Types.{GoError, failure}
use perfect_gift.Surprise.Resilience.{
  Breaker, closed, open_circuit, new_breaker, enter, leave, RetryConfig,
}
use perfect_gift.Surprise.Resilience.Circuit.{
  here, next, leaves, enters, IsConsistent, breaker-IsConsistent,
}
use perfect_gift.Surprise.Llm.{Client, GenerateParams, LlmTier}

abbrev fresh : Breaker
fresh = record { max_failures = 2; open_duration = 10; failures = 0; state = closed; opened_at = 0 }

abbrev tripped : Breaker
tripped = record {
  max_failures = 2;
  open_duration = 10;
  failures = 2;
  state = open_circuit;
  opened_at = 5;
}

abbrev three : RetryConfig
three = record { max_attempts = 3; base_backoff = 4 }

-- Two errors and then success.
abbrev flaky : ℕ → Option GoError
flaky zero = some (failure "busy")
flaky (suc zero) = some (failure "busy")
flaky _ = none

abbrev always_busy : ℕ → Option GoError
always_busy k = some (failure "busy")

abbrev no_params : GenerateParams
no_params = record {
  holiday = "";
  budget_band = "";
  preferences = "";
  poll_answers = [];
  inspiration = [];
  refinement = "";
  n = 5;
  tier = LlmTier.sonnet;
}

-- A client that counts its calls.
abbrev counting : Client ℕ
counting = record {
  generate_ideas = λ params m. (ok [], suc m);
  moderate = λ text m. (ok true, suc m);
  embed = λ text m. (([], none), m);
}

breaker-IsConsistent_example : IsConsistent (leave 4 true (enter 3 (new_breaker 2 10)).1)
breaker-IsConsistent_example =
    breaker-IsConsistent 2 10 (leave 4 true (enter 3 (new_breaker 2 10)).1) (
      next (next here (enters (new_breaker 2 10) 3)) (leaves (enter 3 (new_breaker 2 10)).1 4 true))
