-- ===== src/Identity/Server/Linking.antt =====
-- A social sign-in over the account tables.
use perfect_gift.Prelude.{
  ℕ, String, ◌≡◌, ◌≢◌, ap, ◌∙◌, none, some, ok, inl, inr, arith, ◌==◌, Result-cases, Bool-cases,
}
use perfect_gift.Identity.Types.{External}
use perfect_gift.Identity.Accounts.{
  Accounts, UserRow, account_store, upsert_oauth_user, row_by_email,
}
use perfect_gift.Identity.Accounts.Links.{upsert-adopts}
use perfect_gift.Identity.Messages.{Draw, SignInRequest, SignInResponse}
use perfect_gift.Identity.Server.{Server, provider_name, sign_in_social, signed_in, to_proto_user}
use perfect_gift.Identity.Server.SigningIn.{signed_in-user}

-- The server over the account tables, with the id that a new user gets, the clock and the folding.
abbrev pub over_accounts :
    {V : Type 0} → (String → String) → String → ℕ → Server (Accounts × V) → Server (Accounts × V)
over_accounts fold new_id now s = record s { users = account_store fold new_id now }

module _ {V : Type 0} (s : Server (Accounts × V)) (fold : String → String) (new_id : String)
    (now : ℕ) where
  -- A social sign-in joins the account that has the e-mail: where the external identity has no
  -- link yet, and its e-mail is not empty and is that of an account, a sign-in that answers ok
  -- answers that account, whatever the provider says of the e-mail being verified.
  pub sign_in_social_joins :
      (draw : Draw) (req : SignInRequest) (ext : External) (row : UserRow) (w w' : Accounts × V)
      (r : SignInResponse)
      → s.verify_id_token (provider_name req.provider) req.id_token w ≡ ok ext
      → w.0.links (provider_name req.provider) ext.subject ≡ none
      → ext.email ≢ ""
      → row_by_email fold ext.email w.0.users ≡ some row
      → sign_in_social (over_accounts fold new_id now s) draw req w ≡ (ok r, w')
      → r.user.id ≡ row.id
  unfolding sign_in_social to_proto_user
  sign_in_social_joins draw req ext row w w' r proven new some_email known h =
      let upsert =
        upsert_oauth_user fold new_id now (provider_name req.provider) ext.subject ext.email
          req.display_name w.0 in
      elim (Bool-cases (req.id_token == "")) [
        | inl empty ↦ absurd (ground arith)
        | inr given ↦ elim (Result-cases upsert.0) [
          | inr (f, bad) ↦ absurd (ground arith)
          | inl (u, got) ↦
              let own =
                upsert-adopts fold (provider_name req.provider) ext.subject new_id ext.email
                  req.display_name now w.0 row u new some_email known got in
              let ended : signed_in (over_accounts fold new_id now s) draw req.device u
                    (upsert.1, w.1)
                  ≡ (ok r, w') =
                ground arith in
              ap (λ m. m.id)
                (signed_in-user (over_accounts fold new_id now s) draw req.device u (upsert.1, w.1)
                  w' r ended)
              ∙ own
        ]
      ]
