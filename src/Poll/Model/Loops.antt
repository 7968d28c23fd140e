-- ===== src/Poll/Model/Loops.antt =====
-- The shape of the validation loops: each item is checked against the ids that came before it, and
-- the first error ends the loop.
use perfect_gift.Prelude.{
  String, List, [], ◌∷◌, Bool, false, Option, none, some, ◌==◌, ◌||◌, ◌≡◌, ◌≢◌, refl, arith, eq_iff,
  map, All,
}

-- map[string]bool, read with the zero value for a missing key.
abbrev pub Seen : Type 0
Seen = String → Bool

abbrev pub nothing_seen : Seen
nothing_seen k = false

abbrev pub mark : Seen → String → Seen
mark seen k j = k == j || seen j

-- No two keys are equal.
abbrev pub Distinct : List String → Type 0
Distinct [] = Unit
Distinct (k ∷ ks) = All (λ j. k ≢ j) ks × Distinct ks

abbrev pub first_error : {E : Type 0} → Option E → Option E → Option E
first_error none next = next
first_error (some e) next = some e

unfoldable pub check_each :
    {A E : Type 0} → (A → String) → (Seen → A → Option E) → Seen → List A → Option E
check_each key check seen [] = none
check_each key check seen (x ∷ xs) =
    let rest = check_each key check (mark seen (key x)) xs in first_error (check seen x) rest

module _ {A E : Type 0} (key : A → String) (check : Seen → A → Option E) (Good : A → Type 0)
    (sound : (seen : Seen) (x : A) → check seen x ≡ none → (seen (key x) ≡ false) × Good x)
    (complete : (seen : Seen) (x : A) → seen (key x) ≡ false → Good x → check seen x ≡ none) where
  abbrev Passes : Seen → List A → Type 0
  Passes seen xs = All (λ x. seen (key x) ≡ false) xs × All Good xs × Distinct (map key xs)

  -- What a marked set says of later keys.
  unmarked :
      (seen : Seen) (k : String) (xs : List A)
      → All (λ x. mark seen k (key x) ≡ false) xs
      → All (λ x. seen (key x) ≡ false) xs × All (λ j. k ≢ j) (map key xs)
  unmarked seen k [] h = (tt, tt)
  unmarked seen k (x ∷ xs) h =
      let (old, fresh) = unmarked seen k xs h.1 in
      ((ground (arith, h.0), old), (ground (arith, h.0, eq_iff k (key x)), fresh))

  marked :
      (seen : Seen) (k : String) (xs : List A)
      → All (λ x. seen (key x) ≡ false) xs
      → All (λ j. k ≢ j) (map key xs)
      → All (λ x. mark seen k (key x) ≡ false) xs
  marked seen k [] h d = tt
  marked seen k (x ∷ xs) h d =
      (ground (arith, h.0, d.0, eq_iff k (key x)), marked seen k xs h.1 d.1)

  pub check_each_sound :
      (seen : Seen) (xs : List A) → check_each key check seen xs ≡ none → Passes seen xs
  unfolding check_each
  check_each_sound seen [] h = (tt, tt, tt)
  check_each_sound seen (x ∷ xs) h =
      let head = sound seen x (ground arith) in
      let (later, goods, distinct) = check_each_sound (mark seen (key x)) xs (ground arith) in
      let (old, fresh) = unmarked seen (key x) xs later in
      ((head.0, old), (head.1, goods), (fresh, distinct))

  pub check_each_complete :
      (seen : Seen) (xs : List A) → Passes seen xs → check_each key check seen xs ≡ none
  unfolding check_each
  check_each_complete seen [] h = refl
  check_each_complete seen (x ∷ xs) (unseen, goods, distinct) =
      rw (complete seen x unseen.0 goods.0) (
        check_each_complete (mark seen (key x)) xs
          (marked seen (key x) xs unseen.1 distinct.0, goods.1, distinct.1))
