-- ===== src/Surprise/Llm/Guarding.antt =====
-- What the breaker around the model client prevents and what it lets through.
use perfect_gift.Prelude.{
  ℕ, ◌+◌, ◌<◌, String, [], ◌≡◌, refl, some, false, Result, err, Exec, Call, arith,
}
use perfect_gift.Surprise.Types.{Time, GoError, circuit_open}
use perfect_gift.Surprise.Resilience.{
  Breaker, open_circuit, Surroundings, RetryConfig, guarded, enter, as_permanent,
}
use perfect_gift.Surprise.Resilience.Attempts.{retry-EndsBadly}
use perfect_gift.Surprise.Llm.{
  Client, GenerateParams, Captured, assign, around, returned, resiliently, resilient,
}

abbrev pub IsErr : {A : Type 0} → Result GoError A → Type 0
IsErr r = (e : GoError) × (r ≡ err e)

module _ {M : Type 0} (clock : M → Time) (s : Surroundings M) (cfg : RetryConfig) (P : M → Type 0)
    (waits : (d : ℕ) (m : M) → P m → P (s.wait d m).1) (b : Breaker)
    (is_open : b.state ≡ open_circuit)
    (early : (m : M) → clock m < b.opened_at + b.open_duration) where
  refused :
      {A : Type 0} (fn : Call (Captured A M) GoError) (c : Captured A M)
      → guarded (λ v. clock v.inner) fn (b, c) ≡ (some circuit_open, (b, c))
  unfolding guarded enter
  refused fn c = ground (arith, early c.inner)

  spared :
      {A : Type 0} (zero_value : A) (call : Exec M GoError A) (m : M)
      → P m
      → IsErr (resiliently clock s cfg zero_value call (b, m)).0
        × ((resiliently clock s cfg zero_value call (b, m)).1.0 ≡ b)
        × P (resiliently clock s cfg zero_value call (b, m)).1.1
  unfolding resiliently around returned
  spared {A} zero_value call m h =
      let (e, failed, kept) =
        retry-EndsBadly (around clock s cfg {A = A}) cfg
          (guarded (λ v. clock v.inner) (assign clock s cfg zero_value call)) circuit_open
          (unfold as_permanent in refl) (λ v. (v.0 ≡ b) × P v.1.inner)
          (λ d v q. (q.0, waits d v.1.inner q.1))
          (λ v q. ground (arith, refused (assign clock s cfg zero_value call) v.1))
          (b, record { out = zero_value; inner = m }) (refl, h) in
      ((e, rw failed refl), kept.0, kept.1)

  -- While the circuit is open, neither generation nor moderation reaches the model: both return an
  -- error, the breaker stays as it is, and of the client's state whatever waiting keeps is kept.
  pub open_spares_model :
      (c : Client M) (params : GenerateParams) (text : String) (m : M)
      → P m
      → let generated = (resilient clock s cfg c).generate_ideas params (b, m) in
        let moderated = (resilient clock s cfg c).moderate text (b, m) in
        IsErr generated.0
        × (generated.1.0 ≡ b)
        × P generated.1.1
        × IsErr moderated.0
        × (moderated.1.0 ≡ b)
        × P moderated.1.1
  unfolding resilient
  open_spares_model c params text m h =
      let g = spared [] (c.generate_ideas params) m h in
      let v = spared false (c.moderate text) m h in (g.0, g.1, g.2, v.0, v.1, v.2)
