-- ===== src/Identity/Accounts.antt =====
-- services/backend/identity/internal/domain/postgres/postgres.go over the tables of
-- internal/domain/postgres/migrations/0001_init.sql: users, credentials and the links to external
-- identities. A transaction that fails changes nothing. The id that is drawn for a new user and the
-- clock are arguments; e-mails compare by their folding (citext). A failing database is left to the
-- interface (`Identity.Types`).
pub mod Links
use perfect_gift.Prelude.{
  ℕ, String, List, [], ◌∷◌, Bool, true, false, ◌&&◌, ◌||◌, Option, none, some, Result, ok, err,
  Exec, GoMap, put, ◌==◌, if◌then◌else◌,
}
use perfect_gift.Identity.Types.{User, Users, IdError, failure}

-- identity.users; an account without an e-mail has NULL there.
pub record UserRow : Type 0 where
  pub id : String
  pub email : Option String
  pub display_name : String
  pub status : String
  pub created_at : ℕ

-- identity.credentials and identity.oauth_links by their primary keys.
pub record Accounts : Type 0 where
  pub users : List UserRow
  pub credentials : GoMap String
  pub links : String → GoMap String

-- COALESCE(email::text, '')
text_or_empty : Option String → String
text_or_empty none = ""
text_or_empty (some e) = e

-- scanUser
unfoldable pub scan_user : UserRow → User
unfolding text_or_empty
scan_user row = record {
  id = row.id;
  email = text_or_empty row.email;
  display_name = row.display_name;
  status = row.status;
  created_at = row.created_at;
}

-- WHERE id = $1
unfoldable pub row_by_id : String → List UserRow → Option UserRow
row_by_id id [] = none
row_by_id id (row ∷ rows) = let rest = row_by_id id rows in if row.id == id then some row else rest

-- The error of getByID without a row.
scanned : Option UserRow → Result IdError User
unfolding scan_user
scanned none = err (failure "no rows in result set")
scanned (some row) = ok (scan_user row)

unfoldable pub get_by_id : String → Accounts → Result IdError User
unfolding scanned
get_by_id id a = scanned (row_by_id id a.users)

-- provider and subject of a new link
put_link : (String → GoMap String) → String → String → String → String → GoMap String
put_link links provider subject user_id p =
    if provider == p then put (links p) subject user_id else links p

module _ (fold : String → String) where
  has_email : String → Option String → Bool
  has_email e none = false
  has_email e (some e') = fold e' == fold e

  -- WHERE email = $1
  unfoldable pub row_by_email : String → List UserRow → Option UserRow
  unfolding has_email
  row_by_email e [] = none
  row_by_email e (row ∷ rows) =
      let rest = row_by_email e rows in if has_email e row.email then some row else rest

  -- The unique columns of a new row are taken.
  email_taken : Option String → List UserRow → Bool
  unfolding row_by_email
  email_taken none rows = false
  email_taken (some e) rows = elim (row_by_email e rows) [ none ↦ false | some _ ↦ true ]

  id_taken : String → List UserRow → Bool
  id_taken id rows = elim (row_by_id id rows) [ none ↦ false | some _ ↦ true ]

  -- INSERT INTO identity.users; the other columns have their defaults.
  unfoldable pub insert_user : String → Option String → String → ℕ → Accounts → Option Accounts
  unfolding email_taken id_taken
  insert_user id e name now a =
      if id_taken id a.users || email_taken e a.users
      then none
      else some (record a {
        users =
            record { id = id; email = e; display_name = name; status = "active"; created_at = now }
            ∷ a.users;
      })

  -- GetByEmail
  unfoldable pub get_by_email : String → Accounts → Result IdError (Option User)
  unfolding row_by_email
  get_by_email e a = elim (row_by_email e a.users) [
    | none ↦ ok none
    | some row ↦ ok (some (scan_user row))
  ]

  -- Step 4 of UpsertOAuthUser and the reading of the user; `before` is what a failure restores.
  linked : Accounts → String → String → String → Accounts → Result IdError User × Accounts
  unfolding get_by_id put_link
  linked before provider subject user_id a =
      let a' = record a { links = put_link a.links provider subject user_id } in
      elim (get_by_id user_id a') [ ok u ↦ (ok u, a') | err f ↦ (err f, before) ]

  -- Step 3: the user is created if still unknown.
  created :
      Accounts
      → String
      → ℕ
      → String
      → String
      → String
      → String
      → Option UserRow
      → Result IdError User × Accounts
  unfolding linked insert_user
  created a new_id now provider subject e name (some row) = linked a provider subject row.id a
  created a new_id now provider subject e name none =
      elim (insert_user new_id (if e == "" then none else some e) name now a) [
        | none ↦ (err (failure "duplicate key value"), a)
        | some a' ↦ linked a provider subject new_id a'
      ]

  -- The error of a read leaves the transaction without a change.
  reading : Result IdError User → Exec Accounts IdError User
  reading r a = (r, a)

  -- UpsertOAuthUser: a link that exists, else a user with the e-mail, else a new user.
  unfoldable pub upsert_oauth_user :
      String → ℕ → String → String → String → String → Exec Accounts IdError User
  unfolding created row_by_email get_by_id reading
  upsert_oauth_user new_id now provider subject e name a = elim (a.links provider subject) [
    | some user_id ↦ reading (get_by_id user_id a) a
    | none ↦
        created a new_id now provider subject e name
          (if e == "" then none else row_by_email e a.users)
  ]

  -- CreateEmailUser
  unfoldable pub create_email_user :
      String → ℕ → String → String → String → Exec Accounts IdError User
  unfolding insert_user get_by_id
  create_email_user new_id now e name hash a = elim (insert_user new_id (some e) name now a) [
    | none ↦ (err (failure "duplicate key value"), a)
    | some a' ↦ (get_by_id new_id a', record a' { credentials = put a'.credentials new_id hash })
  ]

-- GetPasswordHash
unfoldable pub get_password_hash : String → Accounts → Result IdError (Option String)
get_password_hash user_id a = ok (a.credentials user_id)

-- The tables as the server's Users, beside the rest of the world.
abbrev pub account_store : {V : Type 0} → (String → String) → String → ℕ → Users (Accounts × V)
account_store fold new_id now = record {
  upsert_oauth_user = λ provider subject e name w.
      let done = upsert_oauth_user fold new_id now provider subject e name w.0 in
      (done.0, (done.1, w.1));
  get_by_id = λ id w. get_by_id id w.0;
  get_by_email = λ e w. get_by_email fold e w.0;
  create_email_user = λ e name hash w.
      let done = create_email_user fold new_id now e name hash w.0 in (done.0, (done.1, w.1));
  get_password_hash = λ id w. get_password_hash id w.0;
}
