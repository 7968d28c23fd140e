-- ===== src/Surprise/Llm.antt =====
-- services/backend/surprise/internal/llm/llm.go: the boundary to the generation model, over a
-- state M of the client, and the decorator that wraps a client with retry and circuit breaker.
pub mod Guarding
use perfect_gift.Prelude.{
  ℕ, String, List, [], Option, none, some, Bool, false, Result, ok, err, Exec, Call,
}
use perfect_gift.Surprise.Types.{Time, Embedding, GoError}
use perfect_gift.Surprise.Resilience.{Breaker, Surroundings, RetryConfig, guarded, retry}

pub data LlmTier : Type 0 where
  sonnet opus moderation_tier : LlmTier

pub record GenerateParams : Type 0 where
  pub holiday : String
  pub budget_band : String
  pub preferences : String
  pub poll_answers : List String
  pub inspiration : List String
  pub refinement : String
  pub n : ℕ
  pub tier : LlmTier

pub record LlmIdea : Type 0 where
  pub title : String
  pub why_it_fits : String
  pub rough_cost : String
  pub how_to : String

-- llm.Client. The pipeline reads the vector that Embed returns whether or not it also fails.
pub record Client (M : Type 0) : Type 0 where
  pub generate_ideas : GenerateParams → Exec M GoError (List LlmIdea)
  pub moderate : String → Exec M GoError Bool
  pub embed : String → M → (Embedding × Option GoError) × M

-- One call of a Resilient client: the variable that the closure assigns stands beside the breaker
-- and the client's state, and keeps the value of the last inner call.
record Captured (A M : Type 0) : Type 0 where
  out : A
  inner : M

error_of : {A : Type 0} → Result GoError A → Option GoError
error_of (ok _) = none
error_of (err e) = some e

value_or : {A : Type 0} → A → Result GoError A → A
value_or zero_value (ok a) = a
value_or zero_value (err _) = zero_value

module _ {M : Type 0} (clock : M → Time) (s : Surroundings M) (cfg : RetryConfig) where
  -- The call as a closure over `out`; the inner call's value is Go's zero value where it fails.
  assign : {A : Type 0} → A → Exec M GoError A → Call (Captured A M) GoError
  unfolding error_of value_or
  assign zero_value call c = (
    error_of (call c.inner).0,
    record { out = value_or zero_value (call c.inner).0; inner = (call c.inner).1 },
  )

  around : {A : Type 0} → Surroundings (Breaker × Captured A M)
  around = record {
    ctx_err = λ w. s.ctx_err w.1.inner;
    wait = λ d w.
        ((s.wait d w.1.inner).0, (w.0, record { out = w.1.out; inner = (s.wait d w.1.inner).1 }));
  }

  -- What the caller reads: the error, or the captured value.
  returned : {A : Type 0} → Option GoError → A → Result GoError A
  returned none a = ok a
  returned (some e) a = err e

  resiliently : {A : Type 0} → A → Exec M GoError A → Exec (Breaker × M) GoError A
  unfolding assign around returned
  resiliently zero_value call (b, m) =
      let done =
        retry around cfg (guarded (λ c. clock c.inner) (assign zero_value call))
          (b, record { out = zero_value; inner = m }) in
      (returned done.0 done.1.1.out, (done.1.0, done.1.1.inner))

  -- Resilient: GenerateIdeas and Moderate are guarded, Embed is passed through.
  unfoldable pub resilient : Client M → Client (Breaker × M)
  unfolding resiliently
  resilient c = record {
    generate_ideas = λ params. resiliently [] (c.generate_ideas params);
    moderate = λ text. resiliently false (c.moderate text);
    embed = λ text w. ((c.embed text w.1).0, (w.0, (c.embed text w.1).1));
  }
