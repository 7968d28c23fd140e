-- ===== src/Prelude/Bytes.antt =====
-- len of a Go string: the bytes of its UTF-8.
use Prim.Native.Nat.{ℕ, ◌+◌}
use Prim.Native.Char.{code}
use Prim.Native.String.{String}
use perfect_gift.Prelude.Tests.{ltb, if◌then◌else◌}

unfoldable pub rune_len : ℕ → ℕ
rune_len c = if ltb c 0x80 then 1 else if ltb c 0x800 then 2 else if ltb c 0x10000 then 3 else 4

unfoldable pub bytes : String → ℕ
unfolding rune_len
bytes String.[] = 0
bytes (String.◌∷◌ c s) = rune_len (code c) + bytes s
