-- ===== src/Prelude/Text.antt =====
-- What the Go code uses of `strings` and of map[string]V.
-- A map is a function from keys to optional values: the program only reads and writes single keys.
use Prim.Native.Nat.{ℕ, zero, suc}
use Prim.Native.Char.{Char, code}
use Prim.Native.String.{String, ◌++◌}
use mathlib.Core.Bool.{Bool, true, ◌&&◌, ◌||◌}
use mathlib.Core.Option.{Option, none, some}
use text.Mathlib.Text.{◌==◌ as str_eq}
use perfect_gift.Prelude.Tests.{leb, eqb, if◌then◌else◌}

infix 50 ◌==◌
abbrev pub ◌==◌ : String → String → Bool
a == b = str_eq a b

-- unicode.IsSpace, by code point.
unfoldable pub is_space : ℕ → Bool
is_space c =
    (leb 9 c && leb c 13)
    || (eqb c 32
        || (eqb c 0x85
            || (eqb c 0xa0
                || (eqb c 0x1680
                    || ((leb 0x2000 c && leb c 0x200a)
                        || (eqb c 0x2028
                            || (eqb c 0x2029
                                || (eqb c 0x202f || (eqb c 0x205f || eqb c 0x3000)))))))))

-- strings.TrimSpace(s) == ""
unfoldable pub is_blank : String → Bool
unfolding is_space
is_blank String.[] = true
is_blank (String.◌∷◌ c s) = is_space (code c) && is_blank s

abbrev pub GoMap {ℓ} : Type ℓ → Type ℓ
GoMap V = String → Option V

abbrev pub empty_map {ℓ} : {V : Type ℓ} → GoMap V
empty_map k = none

-- m[k] = v
abbrev pub put {ℓ} : {V : Type ℓ} → GoMap V → String → V → GoMap V
put m k v j = if k == j then some v else m j

-- strings.TrimSpace: leading space is dropped, then trailing.
unfoldable pub trim_left : String → String
trim_left String.[] = ""
trim_left (String.◌∷◌ c s) = if is_space (code c) then trim_left s else String.◌∷◌ c s

unfoldable pub trim_right : String → String
trim_right String.[] = ""
trim_right (String.◌∷◌ c s) = if is_blank (String.◌∷◌ c s) then "" else String.◌∷◌ c (trim_right s)

unfoldable pub trim_space : String → String
unfolding trim_left trim_right
trim_space s = trim_right (trim_left s)

-- strings.TrimRight(s, "/")
unfoldable pub trim_right_slash : String → String
trim_right_slash String.[] = ""
trim_right_slash (String.◌∷◌ c s) =
    let rest = trim_right_slash s in
    if rest == "" && eqb (code c) b'/' then "" else String.◌∷◌ c rest

-- The text in front of the first comma, and whether there is one.
unfoldable pub before_comma : String → String
before_comma String.[] = ""
before_comma (String.◌∷◌ c s) =
    let rest = before_comma s in if eqb (code c) b',' then "" else String.◌∷◌ c rest

strip_prefix : String → String → Option String
strip_prefix String.[] s = some s
strip_prefix (String.◌∷◌ c p) String.[] = none
strip_prefix (String.◌∷◌ c p) (String.◌∷◌ d s) =
    let rest = strip_prefix p s in if eqb (code c) (code d) then rest else none

or_cons : Char → Option String → String → String → String
or_cons c none new rest = String.◌∷◌ c rest
or_cons c (some after) new rest = new ++ after

-- strings.Replace(s, old, new, 1), for a text `old` that is not empty.
unfoldable pub replace_first : String → String → String → String
unfolding strip_prefix or_cons
replace_first String.[] old new = ""
replace_first (String.◌∷◌ c s) old new =
    or_cons c (strip_prefix old (String.◌∷◌ c s)) new (replace_first s old new)

-- s[:n], by characters: the texts cut here are hexadecimal digits.
unfoldable pub take_text : ℕ → String → String
take_text zero s = ""
take_text (suc n) String.[] = ""
take_text (suc n) (String.◌∷◌ c s) = String.◌∷◌ c (take_text n s)

-- s[n:], by characters.
unfoldable pub drop_text : ℕ → String → String
drop_text zero s = s
drop_text (suc n) String.[] = ""
drop_text (suc n) (String.◌∷◌ c s) = drop_text n s
