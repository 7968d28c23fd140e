-- ===== src/Surprise/Resilience/Circuit.antt =====
-- The breaker under any interleaving of calls.
use perfect_gift.Prelude.{
  ℕ, ◌+◌, ◌≤◌, ◌<◌, Bool, true, false, ◌≡◌, ◌≢◌, refl, ◌∙◌, List, [], ◌∷◌, length, arith, Call,
  some,
}
use perfect_gift.Surprise.Types.{Time, GoError, circuit_open}
use perfect_gift.Surprise.Resilience.{
  Breaker, closed, open_circuit, half_open, new_breaker, enter, leave, guarded,
}

-- One locked section of Do, by any goroutine, at any time and with any result.
pub data Step : Breaker → Breaker → Type 0 where
  enters : (b : Breaker) (now : Time) → Step b (enter now b).1
  leaves : (b : Breaker) (now : Time) (failed : Bool) → Step b (leave now failed b)

pub data Reach (b : Breaker) : Breaker → Type 0 where
  here : Reach b b
  next : {c d : Breaker} → Reach b c → Step c d → Reach b d

-- The circuit is closed exactly while there are fewer failures than the maximum, which is positive.
pub record IsConsistent (b : Breaker) : Type 0 where
  pub positive : 0 < b.max_failures
  pub below : b.state ≡ closed → b.failures < b.max_failures
  pub reached : b.state ≢ closed → b.max_failures ≤ b.failures

new_breaker-IsConsistent : (max duration : ℕ) → IsConsistent (new_breaker max duration)
unfolding new_breaker
new_breaker-IsConsistent max duration = record {
  positive = ground arith;
  below = ground arith;
  reached = λ h. absurd (h refl);
}

enter-IsConsistent : (b : Breaker) (now : Time) → IsConsistent b → IsConsistent (enter now b).1
unfolding enter
enter-IsConsistent b now h = ground arith

leave-IsConsistent :
    (b : Breaker) (now : Time) (failed : Bool) → IsConsistent b → IsConsistent (leave now failed b)
unfolding leave
leave-IsConsistent b now false h = record {
  positive = h.positive;
  below = λ _. h.positive;
  reached = λ c. absurd (c refl);
}
leave-IsConsistent b now true h = ground arith

Step-IsConsistent : {b c : Breaker} → Step b c → IsConsistent b → IsConsistent c
Step-IsConsistent (enters b now) h = enter-IsConsistent b now h
Step-IsConsistent (leaves b now failed) h = leave-IsConsistent b now failed h

Reach-IsConsistent : {b c : Breaker} → Reach b c → IsConsistent b → IsConsistent c
Reach-IsConsistent here h = h
Reach-IsConsistent (next r st) h = Step-IsConsistent st (Reach-IsConsistent r h)

-- Whatever calls enter and leave, in whatever order, with whatever results, a breaker made by
-- NewBreaker is closed exactly while it counts fewer failures than its maximum.
pub breaker-IsConsistent :
    (max duration : ℕ) (b : Breaker) → Reach (new_breaker max duration) b → IsConsistent b
breaker-IsConsistent max duration b r = Reach-IsConsistent r (new_breaker-IsConsistent max duration)

-- After a failed call that leaves a consistent breaker open, every Do before the end of the open
-- window returns ErrOpen, does not call its function and leaves the breaker as it is.
pub tripped_refuses :
    {W : Type 0} (b : Breaker) (t : Time) (clock : W → Time) (fn : Call W GoError) (w : W)
    → IsConsistent b
    → (leave t true b).state ≡ open_circuit
    → clock w < t + b.open_duration
    → guarded clock fn (leave t true b, w) ≡ (some circuit_open, (leave t true b, w))
unfolding guarded leave
tripped_refuses b t clock fn w h o early = ground arith

-- A run of failing calls, each admitted before the circuit has opened.
pub fail_all : List Time → Breaker → Breaker
fail_all [] b = b
fail_all (t ∷ ts) b = fail_all ts (leave t true (enter t b).1)

one_failure :
    (t : Time) (b : Breaker)
    → b.state ≡ closed
    → b.failures + 1 < b.max_failures
    → let b' = leave t true (enter t b).1 in
      (b'.state ≡ closed) × (b'.failures ≡ b.failures + 1) × (b'.max_failures ≡ b.max_failures)
unfolding enter leave
one_failure t b c h = (ground arith, ground arith, ground arith)

fail_all_closed :
    (ts : List Time) (b : Breaker)
    → b.state ≡ closed
    → b.failures + length ts < b.max_failures
    → ((fail_all ts b).state ≡ closed)
      × ((fail_all ts b).failures ≡ b.failures + length ts)
      × ((fail_all ts b).max_failures ≡ b.max_failures)
unfolding fail_all
fail_all_closed [] b c h = (c, omega arith, refl)
fail_all_closed (t ∷ ts) b c h =
    let one = one_failure t b c (omega arith) in
    let rest = fail_all_closed ts (leave t true (enter t b).1) one.0 (omega arith) in
    (rest.0, omega arith, rest.2 ∙ one.2)

last_failure :
    (t : Time) (b : Breaker)
    → b.state ≡ closed
    → b.failures + 1 ≡ b.max_failures
    → let b' = leave t true (enter t b).1 in (b'.state ≡ open_circuit) × (b'.opened_at ≡ t)
unfolding enter leave
last_failure t b c h = (ground arith, ground arith)

-- From a closed circuit, as many failed calls in a row as are missing from the maximum: all but the
-- last leave the circuit closed, and the last one opens it at its own time.
pub consecutive_failures_open :
    (ts : List Time) (t : Time) (b : Breaker)
    → b.state ≡ closed
    → b.failures + length ts + 1 ≡ b.max_failures
    → let before = fail_all ts b in
      let after = leave t true (enter t before).1 in
      (before.state ≡ closed) × (after.state ≡ open_circuit) × (after.opened_at ≡ t)
consecutive_failures_open ts t b c h =
    let before = fail_all_closed ts b c (omega arith) in
    let last = last_failure t (fail_all ts b) before.0 (omega arith) in (before.0, last.0, last.1)

-- Once the open window has passed, two calls that enter one after the other are both admitted,
-- before either has left: the half-open circuit does not stop at one trial call.
pub two_trials :
    (b : Breaker) (now later : Time)
    → b.state ≡ open_circuit
    → b.opened_at + b.open_duration ≤ now
    → ((enter now b).0 ≡ true)
      × ((enter later (enter now b).1).0 ≡ true)
      × ((enter later (enter now b).1).1.state ≡ half_open)
unfolding enter
two_trials b now later o h = ground arith
