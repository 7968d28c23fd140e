-- ===== src/Gateway/RateLimit/Bounds.antt =====
-- How many calls a limiter admits for one key, among calls for any keys.
use perfect_gift.Prelude.{
  ℕ, suc, ◌+◌, ◌-◌, ◌≤◌, ◌<◌, String, List, [], ◌∷◌, true, false, none, some, ◌≡◌, refl, ◌==◌, leb,
  if◌then◌else◌, All, arith, eq_iff, eq_refl, ap, ◌∙◌, leb→le, Bool-cases, inl, inr, ◌&&◌,
}
use perfect_gift.Gateway.RateLimit.{Bucket, Window, new_window, allow}

-- A call: its key and the time of its turn.
abbrev pub Calls : Type 0
Calls = List (String × ℕ)

-- How many of the calls for a key are admitted, one after the other.
pub admitted : String → Calls → Window → ℕ
admitted k [] w = 0
admitted k ((j, now) ∷ calls) w =
    let rest = admitted k calls (allow j now w).1 in
    if j == k && (allow j now w).0 then suc rest else rest

abbrev pub asked : String → Calls → ℕ
asked k [] = 0
asked k ((j, now) ∷ calls) = let rest = asked k calls in if j == k then suc rest else rest

abbrev pub least : ℕ → ℕ → ℕ
least a b = if leb a b then a else b

-- A call for another key leaves the bucket of this one alone, and no call changes the tuning.
allow_tuning :
    (j : String) (now : ℕ) (w : Window)
    → ((allow j now w).1.limit ≡ w.limit) × ((allow j now w).1.window ≡ w.window)
unfolding allow
allow_tuning j now w = (ground arith, ground arith)

allow_other :
    (k j : String) (now : ℕ) (w : Window)
    → (j == k) ≡ false
    → (allow j now w).1.buckets k ≡ w.buckets k
unfolding allow
allow_other k j now w other = ground arith

-- While its bucket lasts, a key is admitted until the limit is reached.
allow_within :
    (k : String) (now : ℕ) (w : Window) (b : Bucket)
    → 0 < w.limit
    → w.buckets k ≡ some b
    → now ≤ b.window_ends
    → b.count < w.limit
    → ((allow k now w).0 ≡ true)
      × ((allow k now w).1.buckets k ≡ some (record b { count = b.count + 1 }))
unfolding allow
allow_within k now w b positive known early room = (ground arith, ground (arith, eq_refl k))

allow_full :
    (k : String) (now : ℕ) (w : Window) (b : Bucket)
    → 0 < w.limit
    → w.buckets k ≡ some b
    → now ≤ b.window_ends
    → w.limit ≤ b.count
    → allow k now w ≡ (false, w)
unfolding allow
allow_full k now w b positive known early full = ground arith

allow_first :
    (k : String) (now : ℕ) (w : Window)
    → 0 < w.limit
    → w.buckets k ≡ none
    → ((allow k now w).0 ≡ true)
      × ((allow k now w).1.buckets k ≡ some (record { count = 1; window_ends = now + w.window }))
unfolding allow
allow_first k now w positive fresh = (ground arith, ground (arith, eq_refl k))

admitted_own :
    (k : String) (now : ℕ) (calls : Calls) (w : Window)
    → admitted k ((k, now) ∷ calls) w ≡ (
        if (allow k now w).0
        then suc (admitted k calls (allow k now w).1)
        else admitted k calls (allow k now w).1)
unfolding admitted
admitted_own k now calls w = ground (arith, eq_refl k)

admitted_other :
    (k j : String) (now : ℕ) (calls : Calls) (w : Window)
    → (j == k) ≡ false
    → admitted k ((j, now) ∷ calls) w ≡ admitted k calls (allow j now w).1
unfolding admitted
admitted_other k j now calls w other = ground arith

-- From a bucket on that lasts through the calls.
admitted_lasting :
    (k : String) (calls : Calls) (w : Window) (b : Bucket)
    → 0 < w.limit
    → w.buckets k ≡ some b
    → b.count ≤ w.limit
    → All (λ c. c.1 ≤ b.window_ends) calls
    → admitted k calls w ≡ least (w.limit - b.count) (asked k calls)
admitted_lasting k [] w b positive known le early = unfold admitted in ground arith
admitted_lasting k ((j, now) ∷ calls) w b positive known le early = elim (Bool-cases (j == k)) [
  | inr other ↦
      let tuning = allow_tuning j now w in
      let w' = (allow j now w).1 in
      let rest =
        admitted_lasting k calls w' b (omega (arith, tuning.0))
          (allow_other k j now w other ∙ known) (omega (arith, tuning.0)) early.1 in
      rw other (
        admitted_other k j now calls w other
        ∙ rest
        ∙ ap (λ n. least (n - b.count) (asked k calls)) tuning.0)
  | inl own ↦ rw ((eq_iff j k).0 own) (elim (Bool-cases (leb w.limit b.count)) [
    | inl full ↦ ground (
      arith,
      eq_refl k,
      admitted_own k now calls w,
      allow_full k now w b positive known early.0 (leb→le w.limit b.count full),
      admitted_lasting k calls w b positive known le early.1,
    )
    | inr room ↦
        let tuning = allow_tuning k now w in
        let taken = allow_within k now w b positive known early.0 (ground arith) in
        let rest =
          admitted_lasting k calls (allow k now w).1 (record b { count = b.count + 1 })
            (omega (arith, tuning.0)) taken.1 (ground (arith, tuning.0)) early.1 in
        ground (arith, eq_refl k, admitted_own k now calls w, taken.0, rest, tuning.0)
  ])
]

-- At most `limit` calls for a key pass while its bucket lasts, and no fewer than can: among calls
-- for any keys, from a new limiter with a positive limit on, of which the first is for this key
-- and none comes after its bucket has ended, the calls for the key are admitted up to the limit,
-- and all later ones are refused.
pub admitted-new_window :
    (limit window : ℕ) (k : String) (start : ℕ) (calls : Calls)
    → 0 < limit
    → All (λ c. c.1 ≤ start + window) calls
    → admitted k ((k, start) ∷ calls) (new_window limit window)
      ≡ least limit (asked k ((k, start) ∷ calls))
unfolding new_window
admitted-new_window limit window k start calls positive early =
    let w = new_window limit window in
    let first = allow_first k start w positive refl in
    let tuning = allow_tuning k start w in
    let rest =
      admitted_lasting k calls (allow k start w).1
        (record { count = 1; window_ends = start + window }) (omega (arith, tuning.0)) first.1
        (omega (arith, tuning.0)) early in
    ground (arith, eq_refl k, admitted_own k start calls w, first.0, rest, tuning.0)
