-- ===== src/Identity/Accounts/Links.antt =====
-- What a link between an external identity and a user promises.
use perfect_gift.Prelude.{
  ℕ, String, List, [], ◌∷◌, ◌≡◌, ◌≢◌, refl, Option, none, some, ok, inl, inr, arith, eq_iff,
  eq_refl, ◌==◌, Result-cases, Option-cases, if◌then◌else◌,
}
use perfect_gift.Identity.Types.{User}
use perfect_gift.Identity.Accounts.{
  Accounts, UserRow, upsert_oauth_user, row_by_email, row_by_id, get_by_id, created, linked,
  insert_user, put_link, scan_user,
}

row_by_id-id :
    (id : String) (row : UserRow) (rows : List UserRow) → row_by_id id rows ≡ some row → row.id ≡ id
unfolding row_by_id
row_by_id-id id row [] h = absurd (cc)
row_by_id-id id row (r ∷ rows) h = ground (arith, eq_iff r.id id, row_by_id-id id row rows)

get_by_id-id : (id : String) (u : User) (a : Accounts) → get_by_id id a ≡ ok u → u.id ≡ id
unfolding get_by_id scan_user
get_by_id-id id u a h = elim (Option-cases (row_by_id id a.users)) [
  | inl missing ↦ absurd (ground arith)
  | inr (row, found) ↦ ground (arith, row_by_id-id id row a.users found)
]

module _ (fold : String → String) (provider subject : String) where
  -- An upsert under a link reads that user and changes nothing.
  upsert-linked :
      (new_id e name user_id : String) (now : ℕ) (a : Accounts)
      → a.links provider subject ≡ some user_id
      → upsert_oauth_user fold new_id now provider subject e name a ≡ (get_by_id user_id a, a)
  unfolding upsert_oauth_user
  upsert-linked new_id e name user_id now a known = ground arith

  -- What an upsert that answers ok leaves: a link, and the user that it answers under it.
  abbrev pub IsLinked : User → Accounts → Type 0
  IsLinked u a = (id : String) × (a.links provider subject ≡ some id) × (get_by_id id a ≡ ok u)

  linked-IsLinked :
      (before a a' : Accounts) (id : String) (u : User)
      → linked fold before provider subject id a ≡ (ok u, a')
      → IsLinked u a'
  unfolding linked put_link
  linked-IsLinked before a a' id u h = elim (Result-cases (get_by_id id a)) [
    | inl (x, e) ↦ (id, ground (arith, eq_refl provider, eq_refl subject), ground arith)
    | inr (f, e) ↦ absurd (ground arith)
  ]

  created-IsLinked :
      (a a' : Accounts) (new_id e name : String) (now : ℕ) (found : Option UserRow) (u : User)
      → created fold a new_id now provider subject e name found ≡ (ok u, a')
      → IsLinked u a'
  unfolding created
  created-IsLinked a a' new_id e name now (some row) u h = linked-IsLinked a a a' row.id u h
  created-IsLinked a a' new_id e name now none u h =
      elim (Option-cases (insert_user fold new_id (if e == "" then none else some e) name now a)) [
        | inl taken ↦ absurd (ground arith)
        | inr (b, e') ↦ linked-IsLinked a b a' new_id u (ground arith)
      ]

  upsert-IsLinked :
      (a a' : Accounts) (new_id e name : String) (now : ℕ) (u : User)
      → upsert_oauth_user fold new_id now provider subject e name a ≡ (ok u, a')
      → IsLinked u a'
  unfolding upsert_oauth_user
  upsert-IsLinked a a' new_id e name now u h = elim (Option-cases (a.links provider subject)) [
    | inl new ↦
        created-IsLinked a a' new_id e name now
          (if e == "" then none else row_by_email fold e a.users) u (ground arith)
    | inr (id, known) ↦ (id, ground arith, ground arith)
  ]

  -- The first sign-in of an external identity settles its account: the same subject of the same
  -- provider is answered the same user at every later sign-in, whatever e-mail and name it then
  -- has, and the tables stay as they are.
  pub upsert_oauth_user_stable :
      (a a' : Accounts) (new_id new_id' e e' name name' : String) (now later : ℕ) (u : User)
      → upsert_oauth_user fold new_id now provider subject e name a ≡ (ok u, a')
      → upsert_oauth_user fold new_id' later provider subject e' name' a' ≡ (ok u, a')
  upsert_oauth_user_stable a a' new_id new_id' e e' name name' now later u h =
      let (id, known, found) = upsert-IsLinked a a' new_id e name now u h in
      rw (upsert-linked new_id' e' name' id later a' known) (rw found refl)

  -- Without a link, an upsert with the e-mail of an account answers that account.
  pub upsert-adopts :
      (new_id e name : String) (now : ℕ) (a : Accounts) (row : UserRow) (u : User)
      → a.links provider subject ≡ none
      → e ≢ ""
      → row_by_email fold e a.users ≡ some row
      → (upsert_oauth_user fold new_id now provider subject e name a).0 ≡ ok u
      → u.id ≡ row.id
  unfolding upsert_oauth_user created linked
  upsert-adopts new_id e name now a row u new some_email known h =
      elim (Result-cases (get_by_id row.id a)) [
        | inl (x, found) ↦ ground (arith, eq_iff e "", get_by_id-id row.id x a found)
        | inr (f, found) ↦ absurd (ground (arith, eq_iff e ""))
      ]
