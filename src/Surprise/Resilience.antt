-- ===== src/Surprise/Resilience.antt =====
-- services/backend/surprise/internal/resilience/resilience.go: the circuit breaker and the retry
-- loop. The breaker's lock is released while the guarded call runs, so that Do is two steps,
-- `enter` and `leave`, between which other calls may take theirs. Times are arguments; durations
-- are nanoseconds.
pub mod Circuit
pub mod Attempts
use perfect_gift.Prelude.{
  ℕ, zero, suc, ◌+◌, ◌*◌, ◌%◌, ◌^◌, Bool, true, false, ◌&&◌, ◌||◌, not, Option, none, some, Call,
  leb, ltb, if◌then◌else◌,
}
use perfect_gift.Surprise.Types.{Time, GoError, circuit_open, permanent, wrapped}

pub data State : Type 0 where
  closed open_circuit half_open : State

pub record Breaker : Type 0 where
  pub max_failures : ℕ
  pub open_duration : ℕ
  pub failures : ℕ
  pub state : State
  pub opened_at : Time

-- NewBreaker; a negative maximum is read as 0 here.
unfoldable pub new_breaker : ℕ → ℕ → Breaker
new_breaker max duration = record {
  max_failures = if ltb max 1 then 1 else max;
  open_duration = duration;
  failures = 0;
  state = closed;
  opened_at = 0;
}

abbrev pub is_open : State → Bool
is_open open_circuit = true
is_open _ = false

abbrev pub is_half_open : State → Bool
is_half_open half_open = true
is_half_open _ = false

-- now.Sub(openedAt) >= openDuration, without the subtraction.
unfoldable pub refresh : Time → Breaker → Breaker
refresh now b =
    if is_open b.state && leb (b.opened_at + b.open_duration) now
    then record b { state = half_open }
    else b

-- State()
unfoldable pub state_at : Time → Breaker → State × Breaker
unfolding refresh
state_at now b = ((refresh now b).state, refresh now b)

-- Do up to the call: is it permitted?
unfoldable pub enter : Time → Breaker → Bool × Breaker
unfolding refresh
enter now b = (not (is_open (refresh now b).state), refresh now b)

-- Do behind the call, which has failed or not.
unfoldable pub leave : Time → Bool → Breaker → Breaker
leave now false b = record b { failures = 0; state = closed }
leave now true b =
    let b' = record b { failures = b.failures + 1 } in
    if leb b.max_failures b'.failures || is_half_open b.state
    then record b' { state = open_circuit; opened_at = now }
    else b'

abbrev is_error : Option GoError → Bool
is_error none = false
is_error (some _) = true

-- Do, with nothing in between; `now` reads the clock of the state that fn acts on.
unfoldable pub guarded : {W : Type 0} → (W → Time) → Call W GoError → Call (Breaker × W) GoError
unfolding enter leave
guarded now fn (b, w) =
    let (permitted, b') = enter (now w) b in
    if permitted
    then ((fn w).0, (leave (now (fn w).1) (is_error (fn w).0) b', (fn w).1))
    else (some circuit_open, (b', w))

pub record RetryConfig : Type 0 where
  pub max_attempts : ℕ
  pub base_backoff : ℕ

-- What Retry takes from its surroundings: ctx.Err(), and the wait that ends by itself or by
-- ctx.Done().
pub record Surroundings (W : Type 0) : Type 0 where
  pub ctx_err : W → Option GoError
  pub wait : ℕ → Call W GoError

-- errors.As into *permanentError: the first link of that kind.
unfoldable pub as_permanent : GoError → Option GoError
as_permanent (permanent e) = some e
as_permanent (wrapped m e) = as_permanent e
as_permanent _ = none

-- BaseBackoff << i on int64, as a bit pattern.
unfoldable pub backoff : ℕ → ℕ → ℕ
backoff base i = (base * 2 ^ i) % 2 ^ 64

module _ {W : Type 0} (s : Surroundings W) (cfg : RetryConfig) (fn : Call W GoError) where
  -- The loop, with the attempts that are left and the index i.
  pub retry_from : ℕ → ℕ → Call W GoError
  retry_from zero i w = (none, w)
  retry_from (suc left) i w = elim (s.ctx_err w) [
    | some e ↦ (some e, w)
    | none ↦ elim (fn w).0 [
      | none ↦ (none, (fn w).1)
      | some e ↦ elim (as_permanent e) [
        | some inner ↦ (some inner, (fn w).1)
        | none ↦ elim left [
          | zero ↦ (some e, (fn w).1)
          | suc _ ↦
              let waited = s.wait (backoff cfg.base_backoff i) (fn w).1 in
              elim waited.0 [
                | some cancelled ↦ (some cancelled, waited.1)
                | none ↦ retry_from left (suc i) waited.1
              ]
        ]
      ]
    ]
  ]

  unfoldable pub retry : Call W GoError
  unfolding retry_from
  retry = retry_from (if ltb cfg.max_attempts 1 then 1 else cfg.max_attempts) 0
