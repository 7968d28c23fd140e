-- ===== src/Identity/Server/SigningIn.antt =====
-- What a sign-in has checked when it answers ok.
use perfect_gift.Prelude.{
  String, Bool, true, false, not, ◌||◌, ◌≡◌, refl, ap, ◌∙◌, some, Result, ok, err, Bool-cases, inl,
  inr, arith, ◌==◌, Result-cases, Option-cases, trim_space,
}
use Prim.Native.String.{◌++◌}
use perfect_gift.Identity.Types.{User, IdError}
use perfect_gift.Identity.Messages.{Draw, SignInRequest, SignInResponse}
use perfect_gift.Identity.Server.{
  Server, email_user, signed_in, sign_in_email, to_proto_user, issue_pair, matches,
}

module _ {W : Type 0} (s : Server W) where
  -- What signInEmail asks of an account that exists.
  abbrev pub HasPassword : SignInRequest → User → W → Type 0
  HasPassword req user w =
      (hash : String) × (s.users.get_password_hash user.id w ≡ ok (some hash))
      × (s.passwords.verify req.password hash ≡ ok true)

  matches-ok : (r : Result IdError Bool) → not (matches r) ≡ false → r ≡ ok true
  unfolding matches
  matches-ok (ok true) h = refl
  matches-ok (ok false) h = absurd (cc)
  matches-ok (err e) h = absurd (cc)

  email_user-ok :
      (address : String) (req : SignInRequest) (user u : User) (w : W)
      → (email_user s address req (some user) w).0 ≡ ok u
      → (u ≡ user) × HasPassword req user w × ((email_user s address req (some user) w).1 ≡ w)
  unfolding email_user
  email_user-ok address req user u w h = elim (Result-cases (s.users.get_password_hash user.id w)) [
    | inr (e, bad) ↦ absurd (ground arith)
    | inl (o, stored) ↦ elim (Option-cases o) [
      | inl missing ↦ absurd (ground arith)
      | inr (hash, present) ↦
          elim (Bool-cases (not (matches (s.passwords.verify req.password hash)))) [
            | inl wrong ↦ absurd (ground arith)
            | inr right ↦ (
              ground arith,
              (
                hash,
                stored ∙ ap ok present,
                matches-ok (s.passwords.verify req.password hash) right,
              ),
              ground arith,
            )
          ]
    ]
  ]

  pub signed_in-user :
      (draw : Draw) (device : String) (u : User) (w w' : W) (r : SignInResponse)
      → signed_in s draw device u w ≡ (ok r, w')
      → r.user ≡ to_proto_user s u
  unfolding signed_in
  signed_in-user draw device u w w' r h = elim (Result-cases (issue_pair s draw u device w).0) [
    | inl (pair, e) ↦ ground arith
    | inr (f, e) ↦ absurd (ground arith)
  ]

  abbrev address : SignInRequest → String
  address req = trim_space req.email

  -- The world behind the rate limiter's step.
  abbrev limited : SignInRequest → W → W
  limited req w = (s.limiter.allow ("signin:" ++ s.to_lower (address req)) w).1

  -- Who signs in by e-mail as an account that exists has given its password: where signInEmail
  -- answers ok and the address, trimmed, belonged to an account when it was looked up, the limiter
  -- had allowed the attempt, the account had a password hash, the password given verified against
  -- it, and the profile that is answered is that account's.
  pub sign_in_email_needs_password :
      (draw : Draw) (req : SignInRequest) (user : User) (w w' : W) (r : SignInResponse)
      → sign_in_email s draw req w ≡ (ok r, w')
      → s.users.get_by_email (address req) (limited req w) ≡ ok (some user)
      → ((s.limiter.allow ("signin:" ++ s.to_lower (address req)) w).0 ≡ ok true)
        × HasPassword req user (limited req w)
        × (r.user ≡ to_proto_user s user)
  unfolding sign_in_email
  sign_in_email_needs_password draw req user w w' r h known =
      elim (Bool-cases (address req == "" || req.password == "")) [
        | inl empty ↦ absurd (ground arith)
        | inr given ↦
            elim (Result-cases (s.limiter.allow ("signin:" ++ s.to_lower (address req)) w).0) [
              | inr (f, e) ↦ absurd (ground arith)
              | inl (false, e) ↦ absurd (ground arith)
              | inl (true, e) ↦
                  elim (Result-cases
                    (email_user s (address req) req (some user) (limited req w)).0) [
                      | inr (f, e') ↦ absurd (ground arith)
                      | inl (u, e') ↦
                          let (same, passed, still) =
                            email_user-ok (address req) req user u (limited req w) e' in
                          let ended : signed_in s draw req.device u
                                (email_user s (address req) req (some user) (limited req w)).1
                              ≡ (ok r, w') =
                            ground arith in
                          (
                            e,
                            passed,
                            signed_in-user draw req.device u _ w' r ended
                                ∙ ap (to_proto_user s) same,
                          )
                    ]
            ]
      ]
