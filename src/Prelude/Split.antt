-- ===== src/Prelude/Split.antt =====
-- strings.Split by one character.
use Prim.Native.Nat.{ℕ}
use Prim.Native.Char.{Char, code}
use Prim.Native.String.append
use Prim.Native.String.{String, ◌++◌}
use mathlib.Core.Path.{◌≡◌, refl}
use mathlib.Core.Bool.{Bool, true, not, ◌&&◌}
use mathlib.Core.List.{List, [], ◌∷◌}
use native.Mathlib.Omega.{arith}
use perfect_gift.Prelude.Tests.{eqb, if◌then◌else◌}

-- A character in front of the first part.
onto_first : Char → List String → List String
onto_first ch [] = String.◌∷◌ ch "" ∷ []
onto_first ch (p ∷ ps) = String.◌∷◌ ch p ∷ ps

unfoldable pub split_on : ℕ → String → List String
unfolding onto_first
split_on sep String.[] = "" ∷ []
split_on sep (String.◌∷◌ ch s) =
    let rest = split_on sep s in if eqb (code ch) sep then "" ∷ rest else onto_first ch rest

-- The text has no such character.
unfoldable pub lacks : ℕ → String → Bool
lacks sep String.[] = true
lacks sep (String.◌∷◌ ch s) = not (eqb (code ch) sep) && lacks sep s

pub split_on-append :
    (sep : Char) (part rest : String)
    → lacks (code sep) part ≡ true
    → split_on (code sep) (part ++ String.◌∷◌ sep "" ++ rest) ≡ part ∷ split_on (code sep) rest
unfolding split_on lacks
split_on-append sep String.[] rest h =
    rw (append.nil (String.◌∷◌ sep "" ++ rest))
      (rw (append.cons sep "" rest) (rw (append.nil rest) (ground arith)))
split_on-append sep (String.◌∷◌ ch s) rest h =
    rw (append.cons ch s (String.◌∷◌ sep "" ++ rest)) (ground (arith, split_on-append sep s rest))

pub split_on-plain :
    (sep : ℕ) (part : String) → lacks sep part ≡ true → split_on sep part ≡ part ∷ []
unfolding split_on lacks
split_on-plain sep String.[] h = refl
split_on-plain sep (String.◌∷◌ ch s) h = ground (arith, split_on-plain sep s)
