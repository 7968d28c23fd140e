-- ===== src/Surprise/Resilience/Attempts.antt =====
-- How often Retry calls its function, and with what result.
use perfect_gift.Prelude.{
  ℕ, zero, suc, ◌+◌, ◌≤◌, ◌<◌, ◌≡◌, Option, some, none, arith, Call, ltb, ◌⊎◌, inl, inr,
  Option-cases, dec_lt, refl, ◌-◌, ◌∙◌, if◌then◌else◌,
}
use perfect_gift.Surprise.Types.{GoError}
use perfect_gift.Surprise.Resilience.{
  RetryConfig, Surroundings, retry, retry_from, as_permanent, backoff,
}

-- The number of attempts that a configuration grants.
abbrev pub granted : RetryConfig → ℕ
granted cfg = if ltb cfg.max_attempts 1 then 1 else cfg.max_attempts

granted_pos : (cfg : RetryConfig) → (n : ℕ) × (granted cfg ≡ suc n)
granted_pos cfg = (granted cfg - 1, ground arith)

module _ {W : Type 0} (s : Surroundings W) (cfg : RetryConfig) (fn : Call W GoError) (calls : W → ℕ)
    (counts : (w : W) → calls (fn w).1 ≡ suc (calls w))
    (waits : (d : ℕ) (w : W) → calls (s.wait d w).1 ≡ calls w) where
  retry_from_bounded :
      (left i : ℕ) (w : W) → calls (retry_from s cfg fn left i w).1 ≤ calls w + left
  unfolding retry_from
  retry_from_bounded zero i w = omega arith
  retry_from_bounded (suc zero) i w = ground (arith, counts w)
  retry_from_bounded (suc (suc left)) i w =
      let waited = s.wait (backoff cfg.base_backoff i) (fn w).1 in
      ground (
        arith,
        counts w,
        waits (backoff cfg.base_backoff i) (fn w).1,
        retry_from_bounded (suc left) (suc i) waited.1,
      )

  -- By any count that a call of the function raises by one and that waiting keeps: Retry calls its
  -- function at most max(1, MaxAttempts) times, whatever it returns and however the context ends.
  pub retry_bounded : (w : W) → calls (retry s cfg fn w).1 ≤ calls w + granted cfg
  unfolding retry
  retry_bounded w = retry_from_bounded (granted cfg) 0 w

-- A function whose n-th call returns `outcomes n`, with the number of calls so far as its state.
abbrev pub scripted : (ℕ → Option GoError) → Call ℕ GoError
scripted outcomes n = (outcomes n, suc n)

-- Surroundings that never cancel.
abbrev pub patient : {W : Type 0} → Surroundings W
patient = record { ctx_err = λ w. none; wait = λ d w. (none, w) }

-- An outcome after which Retry goes on, if it has attempts left: an error with no permanent link.
abbrev pub IsTransient : Option GoError → Type 0
IsTransient o = (e : GoError) × (o ≡ some e) × (as_permanent e ≡ none)

-- What Retry returns for an outcome at which it stops.
abbrev pub Settles : Option GoError → Option GoError → Type 0
Settles o r =
    ((o ≡ none) × (r ≡ none))
    ⊎ ((e inner : GoError) × (o ≡ some e) × (as_permanent e ≡ some inner) × (r ≡ some inner))

module _ (cfg : RetryConfig) (outcomes : ℕ → Option GoError) where
  abbrev loop : ℕ → ℕ → ℕ → Option GoError × ℕ
  loop left i n = retry_from patient cfg (scripted outcomes) left i n

  loop-Settles :
      (left i n : ℕ) (r : Option GoError)
      → Settles (outcomes n) r
      → loop (suc left) i n ≡ (r, suc n)
  unfolding retry_from
  loop-Settles left i n r (inl h) = ground arith
  loop-Settles left i n r (inr h) = ground arith

  loop_goes_on :
      (left i n : ℕ)
      → IsTransient (outcomes n)
      → loop (suc (suc left)) i n ≡ loop (suc left) (suc i) (suc n)
  unfolding retry_from
  loop_goes_on left i n h = ground arith

  loop_stops :
      (left i n m : ℕ) (r : Option GoError)
      → n ≤ m
      → m < n + left
      → ((k : ℕ) → n ≤ k → k < m → IsTransient (outcomes k))
      → Settles (outcomes m) r
      → loop left i n ≡ (r, suc m)
  loop_stops zero i n m r le lt before h = absurd (omega arith)
  loop_stops (suc zero) i n m r le lt before h =
      let e : m ≡ n = omega arith in rw e (loop-Settles 0 i n r (rw (← e) h))
  loop_stops (suc (suc left)) i n m r le lt before h = elim (dec_lt n m) [
    | yes more ↦
        loop_goes_on left i n (before n (omega arith) more)
        ∙ loop_stops (suc left) (suc i) (suc n) m r more (omega arith)
            (λ k a b. before k (omega arith) b) h
    | no at ↦ let e : m ≡ n = omega arith in rw e (loop-Settles (suc left) i n r (rw (← e) h))
  ]

  loop_exhausts :
      (left i n m : ℕ)
      → m ≡ n + left
      → ((k : ℕ) → n ≤ k → k ≤ m → IsTransient (outcomes k))
      → loop (suc left) i n ≡ (outcomes m, suc m)
  unfolding retry_from
  loop_exhausts zero i n m e all =
      let same : m ≡ n = omega arith in rw same (ground (arith, all n (omega arith) (omega arith)))
  loop_exhausts (suc left) i n m e all =
      loop_goes_on left i n (all n (omega arith) (omega arith))
      ∙ loop_exhausts left (suc i) (suc n) m (omega arith) (λ k a b. all k (omega arith) b)

  -- Uncancelled, with a function whose n-th call has the n-th outcome: if the m-th call is the
  -- first that succeeds or fails permanently, and m is below the attempts granted, Retry returns
  -- nil or the permanent error's content, after m + 1 calls.
  pub retry_stops :
      (m : ℕ) (r : Option GoError)
      → m < granted cfg
      → ((k : ℕ) → k < m → IsTransient (outcomes k))
      → Settles (outcomes m) r
      → retry patient cfg (scripted outcomes) 0 ≡ (r, suc m)
  unfolding retry
  retry_stops m r lt before h =
      loop_stops (granted cfg) 0 0 m r (omega arith) (omega arith) (λ k _ b. before k b) h

  -- If every granted call fails with an error that is not permanent, Retry makes them all and
  -- returns the last one's error.
  pub retry_exhausts :
      (last : ℕ)
      → granted cfg ≡ suc last
      → ((k : ℕ) → k ≤ last → IsTransient (outcomes k))
      → retry patient cfg (scripted outcomes) 0 ≡ (outcomes last, granted cfg)
  unfolding retry
  retry_exhausts last e all = rw e (loop_exhausts last 0 0 last (omega arith) (λ k _ b. all k b))

-- A function that keeps failing without a change, as one behind an open circuit does.
module _ {W : Type 0} (s : Surroundings W) (cfg : RetryConfig) (fn : Call W GoError) (e : GoError)
    (transient : as_permanent e ≡ none) where
  abbrev failing : ℕ → ℕ → W → Option GoError × W
  failing left i w = retry_from s cfg fn left i w

  abbrev waited : ℕ → W → Option GoError × W
  waited i w = s.wait (backoff cfg.base_backoff i) w

  failing_cancelled :
      (left i : ℕ) (w : W) (c : GoError)
      → s.ctx_err w ≡ some c
      → failing (suc left) i w ≡ (some c, w)
  unfolding retry_from
  failing_cancelled left i w c h = ground arith

  failing_last :
      (i : ℕ) (w : W) → s.ctx_err w ≡ none → fn w ≡ (some e, w) → failing 1 i w ≡ (some e, w)
  unfolding retry_from
  failing_last i w h f = ground arith

  failing_interrupted :
      (left i : ℕ) (w : W) (c : GoError)
      → s.ctx_err w ≡ none
      → fn w ≡ (some e, w)
      → (waited i w).0 ≡ some c
      → failing (suc (suc left)) i w ≡ (some c, (waited i w).1)
  unfolding retry_from
  failing_interrupted left i w c h f g = ground arith

  failing_again :
      (left i : ℕ) (w : W)
      → s.ctx_err w ≡ none
      → fn w ≡ (some e, w)
      → (waited i w).0 ≡ none
      → failing (suc (suc left)) i w ≡ failing (suc left) (suc i) (waited i w).1
  unfolding retry_from
  failing_again left i w h f g = ground arith

  module _ (Q : W → Type 0) (waits : (d : ℕ) (w : W) → Q w → Q (s.wait d w).1)
      (fails : (w : W) → Q w → fn w ≡ (some e, w)) where
    abbrev EndsBadly : Option GoError × W → Type 0
    EndsBadly r = (c : GoError) × (r.0 ≡ some c) × Q r.1

    failing-EndsBadly : (left i : ℕ) (w : W) → Q w → EndsBadly (failing (suc left) i w)
    failing-EndsBadly zero i w h = elim (Option-cases (s.ctx_err w)) [
      | inr (c, g) ↦ rw (failing_cancelled zero i w c g) (c, refl, h)
      | inl g ↦ rw (failing_last i w g (fails w h)) (e, refl, h)
    ]
    failing-EndsBadly (suc left) i w h = elim (Option-cases (s.ctx_err w)) [
      | inr (c, g) ↦ rw (failing_cancelled (suc left) i w c g) (c, refl, h)
      | inl g ↦ elim (Option-cases (waited i w).0) [
        | inr (c, k) ↦ rw (failing_interrupted left i w c g (fails w h) k) (c, refl, waits _ w h)
        | inl k ↦
            rw (failing_again left i w g (fails w h) k)
              (failing-EndsBadly left (suc i) (waited i w).1 (waits _ w h))
      ]
    ]

    pub retry-EndsBadly : (w : W) → Q w → EndsBadly (retry s cfg fn w)
    unfolding retry
    retry-EndsBadly w h = let (n, k) = granted_pos cfg in rw k (failing-EndsBadly n 0 w h)
