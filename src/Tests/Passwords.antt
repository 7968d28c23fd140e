-- ===== src/Tests/Passwords.antt =====
-- A password and its hash at concrete inputs.
use perfect_gift.Prelude.{ℕ, List, [], ◌∷◌, ◌≡◌, refl, some, ok, ◌==◌, if◌then◌else◌, lacks}
use perfect_gift.Identity.Password.{Argon, argon_key, print_hash, same_bytes, hash, verify}
use perfect_gift.Identity.Password.Matching.{verify-hash}

abbrev thirty_two : ℕ → List ℕ
thirty_two n =
    n ∷ n ∷ n ∷ n ∷ n ∷ n ∷ n ∷ n ∷ n ∷ n ∷ n ∷ n ∷ n ∷ n ∷ n ∷ n ∷ n ∷ n ∷ n ∷ n ∷ n ∷ n ∷ n ∷ n
    ∷ n ∷ n ∷ n ∷ n ∷ n ∷ n ∷ n ∷ n ∷ []

-- Two keys, and base64 of the salt and of the key of "pw".
abbrev argon : Argon
argon = record {
  id_key = λ password salt time memory threads length.
      if password == "pw" then thirty_two 1 else thirty_two 2;
  encode = λ bs. if same_bytes bs (5 ∷ []) then "BQ" else "AQEB";
  decode = λ s. if s == "BQ" then some (5 ∷ []) else some (thirty_two 1);
  scan_version = λ s. some 19;
  scan_parameters = λ s. some (65536, 1, 4);
}

verify-hash_example :
    verify argon "guess" (print_hash "BQ" "AQEB")
    ≡ ok (same_bytes (argon_key argon "guess" (5 ∷ [])) (argon_key argon "pw" (5 ∷ [])))
unfolding hash same_bytes lacks
verify-hash_example =
    verify-hash argon (5 ∷ []) "pw" "guess" (print_hash "BQ" "AQEB")
      (record { decodes = refl; plain = refl }) (record { decodes = refl; plain = refl }) refl refl
      refl refl
