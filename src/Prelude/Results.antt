-- ===== src/Prelude/Results.antt =====
-- A Go call that returns (value, error), and handlers that return early: a state-passing monad in
-- which what was written before an early return stays written.
use mathlib.Core.Path.{◌≡◌, refl, subst}
use mathlib.Core.Logic.{◌⊎◌, inl, inr}
use mathlib.Core.Bool.{Bool, true, false}
use mathlib.Core.Option.{Option, none, some}

pub data Result {ℓ} (E A : Type ℓ) : Type ℓ where
  ok : A → Result E A
  err : E → Result E A

-- A call that changes the state W.
abbrev pub Exec {ℓ} : Type ℓ → Type ℓ → Type ℓ → Type ℓ
Exec W E A = W → Result E A × W

-- A call that changes the state W and returns only an `error`, nil or not.
abbrev pub Call {ℓ} : Type ℓ → Type ℓ → Type ℓ
Call W D = W → Option D × W

module _ {ℓ} {W E A : Type ℓ} where
  abbrev pub pure : A → Exec W E A
  pure a w = (ok a, w)

  abbrev pub raise : E → Exec W E A
  raise e w = (err e, w)

-- `if test { return nil, e }`
abbrev pub refuse_if {ℓ} : {W E : Type ℓ} → Bool → E → Exec W E (Unit {ℓ})
refuse_if true e w = (err e, w)
refuse_if false e w = (ok tt, w)

abbrev pub map_err {ℓ} : {D E A : Type ℓ} → (D → E) → Result D A → Result E A
map_err f (ok a) = ok a
map_err f (err d) = err (f d)

module _ {ℓ} {W D E A : Type ℓ} where
  -- `a, err := read(); if err != nil { return nil, f(err) }`
  abbrev pub try_read : (D → E) → (W → Result D A) → Exec W E A
  try_read f read w = (map_err f (read w), w)

  -- The same of a call that writes too.
  abbrev pub try_exec : (D → E) → Exec W D A → Exec W E A
  try_exec f m w = (map_err f (m w).0, (m w).1)

abbrev pub nil_or {ℓ} : {D E : Type ℓ} → (D → E) → Option D → Result E (Unit {ℓ})
nil_or f none = ok tt
nil_or f (some d) = err (f d)

module _ {ℓ} {W D E : Type ℓ} where
  -- `if err := call(); err != nil { return nil, f(err) }`
  abbrev pub try_call : (D → E) → Call W D → Exec W E (Unit {ℓ})
  try_call f call w = (nil_or f (call w).0, (call w).1)

-- `_ = call()`
abbrev pub ignore {ℓ} : {W D E : Type ℓ} → Call W D → Exec W E (Unit {ℓ})
ignore call w = (ok tt, (call w).1)

module _ {ℓ} {W E A B : Type ℓ} where
  abbrev pub continue : Result E A → (A → Exec W E B) → Exec W E B
  continue (ok a) f w = f a w
  continue (err e) f w = (err e, w)

  infixl 5 ◌>>=◌
  abbrev pub ◌>>=◌ : Exec W E A → (A → Exec W E B) → Exec W E B
  ◌>>=◌ m f w = continue (m w).0 f (m w).1

infixl 5 ◌>>◌
abbrev pub ◌>>◌ {ℓ} : {W E B : Type ℓ} → Exec W E (Unit {ℓ}) → Exec W E B → Exec W E B
m >> k = m >>= λ _. k

pub Result-cases {ℓ} :
    {E A : Type ℓ} (r : Result E A) → ((a : A) × (r ≡ ok a)) ⊎ ((e : E) × (r ≡ err e))
Result-cases (ok a) = inl (a, refl)
Result-cases (err e) = inr (e, refl)

-- What a step has done before an answer that is ok.
module _ {ℓ} {W E A B : Type ℓ} where
  pub bind-ok :
      (m : Exec W E A) (f : A → Exec W E B) (w w' : W) (b : B)
      → (m >>= f) w ≡ (ok b, w')
      → (a : A) × ((m w).0 ≡ ok a) × (f a (m w).1 ≡ (ok b, w'))
  bind-ok m f w w' b h = elim (Result-cases (m w).0) [
    | inl (a, e) ↦ (a, e, subst (λ r. continue r f (m w).1 ≡ (ok b, w')) e h)
    | inr (d, e) ↦ absurd (cc)
  ]

pub map_err-ok {ℓ} :
    {D E A : Type ℓ} (f : D → E) (r : Result D A) (a : A) → map_err f r ≡ ok a → r ≡ ok a
map_err-ok f (ok b) a h = cc
map_err-ok f (err d) a h = absurd (cc)

pub nil_or-ok {ℓ} :
    {D E : Type ℓ} (f : D → E) (o : Option D) (u : Unit {ℓ}) → nil_or f o ≡ ok u → o ≡ none
nil_or-ok f none u h = refl
nil_or-ok f (some d) u h = absurd (cc)

pub refuse_if-ok {ℓ} :
    {W E : Type ℓ} (b : Bool) (e : E) (w : W) (u : Unit {ℓ})
    → (refuse_if b e w).0 ≡ ok u
    → (b ≡ false) × ((refuse_if b e w).1 ≡ w)
refuse_if-ok false e w u h = (refl, refl)
refuse_if-ok true e w u h = absurd (cc)
