-- ===== src/Identity/Password.antt =====
-- services/backend/identity/internal/password/password.go: a hash carries its parameters in its
-- text. Argon2id, base64 without padding and fmt.Sscanf are parameters; the salt is an argument
-- that may be missing. A byte is a number.
pub mod Matching
use Prim.Native.String.{◌++◌}
use perfect_gift.Prelude.{
  ℕ, String, List, [], ◌∷◌, length, Bool, true, false, not, ◌&&◌, ◌||◌, Option, none, some, Result,
  ok, err, eqb, ◌==◌, if◌then◌else◌, split_on,
}
use perfect_gift.Identity.Types.{IdError, failure}

-- argon2.IDKey takes the password, the salt, the time, the memory, the threads and the length.
pub record Argon : Type 0 where
  pub id_key : String → List ℕ → ℕ → ℕ → ℕ → ℕ → List ℕ
  pub encode : List ℕ → String
  pub decode : String → Option (List ℕ)
  pub scan_version : String → Option ℕ
  pub scan_parameters : String → Option (ℕ × ℕ × ℕ)

-- argonTime, argonMemory, argonThreads, argonKeyLen, and the argon2.Version that is printed.
abbrev pub argon_key : Argon → String → List ℕ → List ℕ
argon_key a plaintext salt = a.id_key plaintext salt 1 65536 4 32

abbrev pub version_text : String
version_text = "v=19"

abbrev pub parameters_text : String
parameters_text = "m=65536,t=1,p=4"

malformed : IdError
malformed = failure "malformed argon2id hash"

-- subtle.ConstantTimeCompare
unfoldable pub same_bytes : List ℕ → List ℕ → Bool
same_bytes [] [] = true
same_bytes (a ∷ as') (b ∷ bs) = eqb a b && same_bytes as' bs
same_bytes _ _ = false

-- fmt.Sprintf of the six parts, of which the first is empty.
unfoldable pub print_hash : String → String → String
print_hash salt key =
    "" ++ "$" ++ "argon2id" ++ "$" ++ version_text ++ "$" ++ parameters_text ++ "$" ++ salt ++ "$"
    ++ key

module _ (a : Argon) where
  -- Hash
  unfoldable pub hash : Option (List ℕ) → String → Result IdError String
  unfolding print_hash
  hash none plaintext = err (failure "no randomness")
  hash (some salt) plaintext =
      ok (print_hash (a.encode salt) (a.encode (argon_key a plaintext salt)))

  compared : String → ℕ × ℕ × ℕ → Option (List ℕ) → Option (List ℕ) → Result IdError Bool
  unfolding malformed same_bytes
  compared plaintext (memory, time, threads) (some salt) (some want) =
      ok (same_bytes (a.id_key plaintext salt time memory threads (length want)) want)
  compared plaintext _ _ _ = err malformed

  parameters_checked : String → Option (ℕ × ℕ × ℕ) → String → String → Result IdError Bool
  unfolding compared malformed
  parameters_checked plaintext none salt key = err malformed
  parameters_checked plaintext (some p) salt key =
      compared plaintext p (a.decode salt) (a.decode key)

  version_checked : String → Option ℕ → String → String → String → Result IdError Bool
  unfolding parameters_checked malformed
  version_checked plaintext none parameters salt key = err malformed
  version_checked plaintext (some v) parameters salt key =
      if eqb v 19
      then parameters_checked plaintext (a.scan_parameters parameters) salt key
      else err malformed

  parts_checked : String → List String → Result IdError Bool
  unfolding version_checked malformed
  parts_checked plaintext (first ∷ kind ∷ version ∷ parameters ∷ salt ∷ key ∷ []) =
      if kind == "argon2id"
      then version_checked plaintext (a.scan_version version) parameters salt key
      else err malformed
  parts_checked plaintext _ = err malformed

  -- Verify
  unfoldable pub verify : String → String → Result IdError Bool
  unfolding parts_checked split_on
  verify plaintext encoded = parts_checked plaintext (split_on b'$' encoded)
