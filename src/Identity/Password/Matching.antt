-- ===== src/Identity/Password/Matching.antt =====
-- A password against a hash.
use perfect_gift.Prelude.{
  ℕ, String, List, [], ◌∷◌, length, true, ◌≡◌, refl, ap, ◌∙◌, some, ok, arith, split_on, lacks,
  split_on-append, split_on-plain,
}
use perfect_gift.Identity.Password.{
  Argon, argon_key, version_text, parameters_text, same_bytes, print_hash, hash, verify, compared,
  parameters_checked, version_checked, parts_checked,
}

-- What base64 is documented to do with some bytes: they are read back, and their text has no `$`.
pub record IsReadable (a : Argon) (bs : List ℕ) : Type 0 where
  pub decodes : a.decode (a.encode bs) ≡ some bs
  pub plain : lacks b'$' (a.encode bs) ≡ true

print_hash-parts :
    (salt key : String)
    → lacks b'$' salt ≡ true
    → lacks b'$' key ≡ true
    → split_on b'$' (print_hash salt key)
      ≡ "" ∷ "argon2id" ∷ version_text ∷ parameters_text ∷ salt ∷ key ∷ []
unfolding print_hash lacks
print_hash-parts salt key plain_salt plain_key =
    split_on-append "$" "" _ refl
    ∙ ap (λ ps. "" ∷ ps)
        (split_on-append "$" "argon2id" _ refl
          ∙ ap (λ ps. "argon2id" ∷ ps)
              (split_on-append "$" version_text _ refl
                ∙ ap (λ ps. version_text ∷ ps)
                    (split_on-append "$" parameters_text _ refl
                      ∙ ap (λ ps. parameters_text ∷ ps)
                          (split_on-append "$" salt key plain_salt
                            ∙ ap (λ ps. salt ∷ ps) (split_on-plain b'$' key plain_key)))))

-- Verify reads what Hash has printed, and then answers whether the key of the password that is
-- tried is the key of the password that was hashed, under the salt in the text. Here base64 reads
-- the salt and the key back, Sscanf reads the two printed texts, and Argon2id gives a key of the
-- length that it is asked for.
pub verify-hash :
    (a : Argon) (salt : List ℕ) (plaintext tried encoded : String)
    → IsReadable a salt
    → IsReadable a (argon_key a plaintext salt)
    → a.scan_version version_text ≡ some 19
    → a.scan_parameters parameters_text ≡ some (65536, 1, 4)
    → length (argon_key a plaintext salt) ≡ 32
    → hash a (some salt) plaintext ≡ ok encoded
    → verify a tried encoded ≡ ok (same_bytes (argon_key a tried salt) (argon_key a plaintext salt))
unfolding verify hash parts_checked version_checked parameters_checked compared
verify-hash a salt plaintext tried encoded of_salt of_key version parameters full printed =
    let key = argon_key a plaintext salt in
    let same : print_hash (a.encode salt) (a.encode key) ≡ encoded = cc in
    rw (← same) (
      rw (print_hash-parts (a.encode salt) (a.encode key) of_salt.plain of_key.plain)
        (ground (arith, version, parameters, of_salt.decodes, of_key.decodes, full)))
