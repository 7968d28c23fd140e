-- ===== src/Notification/Tables/Leases.antt =====
-- A lease keeps a row from being claimed by two dispatchers at once.
use perfect_gift.Prelude.{
  ℕ, zero, suc, ◌+◌, ◌≤◌, ◌<◌, String, List, [], ◌∷◌, keep, map, Bool, true, false, ◌≡◌, ◌≢◌, arith,
  ◌==◌, ok, All, leb, eq_iff, Bool-cases, inl, inr, ◌∙◌, ap,
}
use perfect_gift.Notification.Types.{Outbox}
use perfect_gift.Notification.Tables.{
  Tables, exists_row, update_rows, claim_pending, due_ids, is_due, is_among, leased, take,
  sort_by_time, insert_by_time,
}

-- The rows of a list that a list of ids names are all leased until after a time.
abbrev AllLeased : List String → ℕ → List Outbox → Type 0
AllLeased ids until rows = All (λ r. is_among ids r ≡ true → until ≤ r.next_attempt_at) rows

leased-AllLeased :
    (ids : List String) (until : ℕ) (rows : List Outbox)
    → AllLeased ids until (update_rows (is_among ids) (leased until) rows)
unfolding leased
leased-AllLeased ids until [] = tt
leased-AllLeased ids until (r ∷ rows) = (λ named. ground arith, leased-AllLeased ids until rows)

-- A row that is due is none that is leased.
abbrev NoneNamed : List String → List Outbox → Type 0
NoneNamed ids rows = All (λ r. is_among ids r ≡ false) rows

due-NoneNamed :
    (ids : List String) (until now : ℕ) (rows : List Outbox)
    → now < until
    → AllLeased ids until rows
    → NoneNamed ids (keep (is_due now) rows)
unfolding is_due
due-NoneNamed ids until now [] early h = tt
due-NoneNamed ids until now (r ∷ rows) early (h, hs) = elim (Bool-cases (is_due now r)) [
  | inr later ↦ rw later (due-NoneNamed ids until now rows early hs)
  | inl due ↦
      let unnamed : is_among ids r ≡ false = elim (Bool-cases (is_among ids r)) [
        | inl named ↦ absurd (ground (arith, h named))
        | inr other ↦ other
      ] in
      rw due (unnamed, due-NoneNamed ids until now rows early hs)
]

insert-NoneNamed :
    (ids : List String) (r : Outbox) (rows : List Outbox)
    → is_among ids r ≡ false
    → NoneNamed ids rows
    → NoneNamed ids (insert_by_time r rows)
unfolding insert_by_time
insert-NoneNamed ids r [] h hs = (h, tt)
insert-NoneNamed ids r (q ∷ qs) h (g, gs) =
    elim (Bool-cases (leb r.next_attempt_at q.next_attempt_at)) [
      | inl first ↦ rw first (h, (g, gs))
      | inr after ↦ rw after (g, insert-NoneNamed ids r qs h gs)
    ]

sort-NoneNamed :
    (ids : List String) (rows : List Outbox)
    → NoneNamed ids rows
    → NoneNamed ids (sort_by_time rows)
unfolding sort_by_time
sort-NoneNamed ids [] hs = tt
sort-NoneNamed ids (r ∷ rows) (h, hs) =
    insert-NoneNamed ids r (sort_by_time rows) h (sort-NoneNamed ids rows hs)

take-NoneNamed :
    (ids : List String) (n : ℕ) (rows : List Outbox)
    → NoneNamed ids rows
    → NoneNamed ids (take n rows)
take-NoneNamed ids zero rows hs = tt
take-NoneNamed ids (suc n) [] hs = tt
take-NoneNamed ids (suc n) (r ∷ rows) (h, hs) = (h, take-NoneNamed ids n rows hs)

same_id-among : (ids : List String) (q r : Outbox) → q.id ≡ r.id → is_among ids q ≡ is_among ids r
same_id-among ids q r same = ap (λ k. exists_row (λ id. k == id) ids) same

-- An id of the table that the first claim did not take.
apart :
    (ids : List String) (rows : List Outbox) (q : Outbox)
    → NoneNamed ids rows
    → is_among (map (λ r. r.id) rows) q ≡ true
    → is_among ids q ≡ false
apart ids [] q hs h = absurd (cc)
apart ids (r ∷ rows) q (g, gs) h = elim (Bool-cases (q.id == r.id)) [
  | inl same ↦ same_id-among ids q r (ground (arith, eq_iff q.id r.id)) ∙ g
  | inr other ↦ apart ids rows q gs (ground arith)
]

keep-All : {A : Type 0} (p : A → Bool) (xs : List A) → All (λ x. p x ≡ true) (keep p xs)
keep-All p [] = tt
keep-All p (x ∷ xs) = elim (Bool-cases (p x)) [
  | inl passes ↦ rw passes (passes, keep-All p xs)
  | inr fails ↦ rw fails (keep-All p xs)
]

module _ {A : Type 0} {P Q : A → Type 0} where
  All-map : ((x : A) → P x → Q x) → (xs : List A) → All P xs → All Q xs
  All-map f [] hs = tt
  All-map f (x ∷ xs) (h, hs) = (f x h, All-map f xs hs)

-- Two claims that follow each other, the second before the first one's lease has run out, never
-- answer the same row.
pub leases_disjoint :
    (now later lease lease' limit limit' : ℕ) (t : Tables) (rows rows' : List Outbox)
    → later < now + lease
    → (claim_pending now lease limit t).0 ≡ ok rows
    → (claim_pending later lease' limit' (claim_pending now lease limit t).1).0 ≡ ok rows'
    → All (λ q. All (λ r. q.id ≢ r.id) rows) rows'
unfolding claim_pending due_ids
leases_disjoint now later lease lease' limit limit' t rows rows' early first second =
    let ids = due_ids now limit t.notifications in
    let held = update_rows (is_among ids) (leased (now + lease)) t.notifications in
    let due = take limit' (sort_by_time (keep (is_due later) held)) in
    let fresh : NoneNamed ids due = take-NoneNamed ids limit' _ (
      sort-NoneNamed ids _ (
        due-NoneNamed ids (now + lease) later held early
          (leased-AllLeased ids (now + lease) t.notifications))) in
    let ids' = due_ids later limit' held in
    let mine : rows ≡ keep (is_among ids) held = cc in
    let yours : rows'
        ≡ keep (is_among ids') (update_rows (is_among ids') (leased (later + lease')) held) =
      cc in
    rw mine (
      rw yours (
        All-map
          (λ q named.
            All-map
              (λ r took same.
                let none_of : is_among ids q ≡ false = apart ids due q fresh named in
                let alike : is_among ids q ≡ is_among ids r = same_id-among ids q r same in cc)
              (keep (is_among ids) held) (keep-All (is_among ids) held))
          _ (keep-All (is_among ids') _)))
