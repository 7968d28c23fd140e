-- ===== src/Poll/Store/OneShot.antt =====
-- At most one response for each poll, whoever submits and in whatever order.
use perfect_gift.Prelude.{
  ℕ, ◌+◌, ◌≤◌, String, List, [], ◌∷◌, ◌++◌, length, ◌≡◌, refl, Option, none, some, Bool, true,
  false, Bool-cases, Option-cases, inl, inr, arith, eq_iff, put, ◌==◌, ◌⊎◌, if◌then◌else◌,
}
use perfect_gift.Poll.Model.{Poll, Answer, completed}
use perfect_gift.Poll.Store.{
  Tables, no_rows, ResponseRow, create_poll, complete_with_response, rows_of, is_active,
}

-- Any writing method, at any time and with any arguments.
pub data Step : Tables → Tables → Type 0 where
  creates :
      (t : Tables) (p : Poll) (hash : String) (expires : ℕ)
      → Step t (create_poll p hash expires t).1
  completes :
      (t : Tables) (response_id poll_id : String) (answers : List Answer) (fingerprint : String)
      (at : ℕ)
      → Step t (complete_with_response response_id poll_id answers fingerprint at t).1

pub data Reach (t : Tables) : Tables → Type 0 where
  here : Reach t t
  next : {u v : Tables} → Reach t u → Step u v → Reach t v

-- What is left to a poll: a response if it is active, and none in the table so far.
is_open_poll : Option Poll → Bool
is_open_poll none = true
is_open_poll (some p) = is_active p.status

record IsOneShot (t : Tables) : Type 0 where
  once : (id : String) → length (rows_of id t.responses) ≤ 1
  unanswered :
      (id : String) → is_open_poll (t.polls id) ≡ true → length (rows_of id t.responses) ≡ 0

rows_of-append :
    (id : String) (rows : List ResponseRow) (r : ResponseRow)
    → length (rows_of id (rows ++ r ∷ [])) ≡ length (rows_of id rows) + length (rows_of id (r ∷ []))
unfolding rows_of
rows_of-append id [] r = omega arith
rows_of-append id (q ∷ qs) r = ground (arith, rows_of-append id qs r)

create-IsOneShot :
    (t : Tables) (p : Poll) (hash : String) (expires : ℕ)
    → IsOneShot t
    → IsOneShot (create_poll p hash expires t).1
unfolding create_poll is_open_poll
create-IsOneShot t p hash expires h = record {
  once = λ id. ground (arith, h.once id);
  unanswered = λ id e. ground (arith, h.unanswered id, eq_iff p.id id);
}

length-rows_of_one :
    (id : String) (r : ResponseRow)
    → length (rows_of id (r ∷ [])) ≡ (if r.poll_id == id then 1 else 0)
unfolding rows_of
length-rows_of_one id r = ground arith

insert-IsOneShot :
    (t : Tables) (p : Poll) (r : ResponseRow)
    → IsOneShot t
    → t.polls r.poll_id ≡ some p
    → is_active p.status ≡ true
    → IsOneShot (record t {
      polls = put t.polls r.poll_id (record p { status = completed });
      responses = t.responses ++ r ∷ [];
    })
unfolding is_open_poll
insert-IsOneShot t p r h known live = record {
  once = λ id. ground (
    arith,
    rows_of-append id t.responses r,
    length-rows_of_one id r,
    h.once id,
    h.unanswered id,
    eq_iff r.poll_id id,
  );
  unanswered = λ id e. ground (
    arith,
    rows_of-append id t.responses r,
    length-rows_of_one id r,
    h.unanswered id,
    eq_iff r.poll_id id,
  );
}

complete-IsOneShot :
    (t : Tables) (response_id poll_id : String) (answers : List Answer) (fingerprint : String)
    (at : ℕ)
    → IsOneShot t
    → IsOneShot (complete_with_response response_id poll_id answers fingerprint at t).1
unfolding complete_with_response
complete-IsOneShot t response_id poll_id answers fingerprint at h =
    elim (Option-cases (t.polls poll_id)) [
      | inl e ↦ rw (e, complete_with_response) h
      | inr (p, e) ↦ elim (Bool-cases (is_active p.status)) [
        | inl live ↦
            rw (e, complete_with_response, live)
              (insert-IsOneShot t p
                (record {
                  id = response_id;
                  poll_id = poll_id;
                  answers = answers;
                  submitted_at = at;
                  client_fingerprint = fingerprint;
                })
                h e live)
        | inr dead ↦ rw (e, complete_with_response, dead) h
      ]
    ]

Reach-IsOneShot : {t u : Tables} → IsOneShot t → Reach t u → IsOneShot u
Reach-IsOneShot h here = h
Reach-IsOneShot h (next r (creates t p hash expires)) =
    create-IsOneShot t p hash expires (Reach-IsOneShot h r)
Reach-IsOneShot h (next r (completes t response_id poll_id answers fingerprint at)) =
    complete-IsOneShot t response_id poll_id answers fingerprint at (Reach-IsOneShot h r)

no_rows-IsOneShot : IsOneShot no_rows
unfolding rows_of
no_rows-IsOneShot = record { once = λ id. omega arith; unanswered = λ id e. refl }

-- From empty tables on, whatever polls are created and whatever responses are submitted, in any
-- order, no poll has more than one response, and an active poll has none.
pub one_response :
    (t : Tables) (p : Poll) (id : String)
    → Reach no_rows t
    → t.polls id ≡ some p
    → (length (rows_of id t.responses) ≤ 1)
      × ((is_active p.status ≡ false) ⊎ (length (rows_of id t.responses) ≡ 0))
unfolding is_open_poll
one_response t p id reached known =
    let h = Reach-IsOneShot no_rows-IsOneShot reached in
    elim (Bool-cases (is_active p.status)) [
      | inl live ↦ (h.once id, inr (h.unanswered id (rw known live)))
      | inr dead ↦ (h.once id, inl dead)
    ]
