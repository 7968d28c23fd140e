-- ===== src/Poll/Store/Responses.antt =====
-- What the response table holds of a poll once it is completed.
use perfect_gift.Prelude.{
  ℕ, String, List, [], ◌∷◌, ◌++◌, ◌≡◌, refl, some, true, ok, arith, eq_refl, ◌==◌,
}
use perfect_gift.Poll.Model.{Poll, Answer, active}
use perfect_gift.Poll.Store.{Tables, ResponseRow, rows_of, get_responses, complete_with_response}

rows_of_added :
    (id : String) (rows : List ResponseRow) (r : ResponseRow)
    → rows_of id rows ≡ []
    → (r.poll_id == id) ≡ true
    → rows_of id (rows ++ r ∷ []) ≡ r ∷ []
unfolding rows_of
rows_of_added id [] r empty own = ground arith
rows_of_added id (q ∷ qs) r empty own = ground (arith, rows_of_added id qs r)

-- The first response of an active poll is the only one that GetResponses then returns.
pub get_responses-complete_with_response :
    (row : String) (p : Poll) (answers : List Answer) (fp : String) (at : ℕ) (t : Tables)
    → t.polls p.id ≡ some p
    → p.status ≡ active
    → rows_of p.id t.responses ≡ []
    → get_responses p.id (complete_with_response row p.id answers fp at t).1
      ≡ ok (record { id = row; answers = answers; submitted_at = at } ∷ [])
unfolding get_responses complete_with_response
get_responses-complete_with_response row p answers fp at t known live empty =
    rw (known, live)
      (rw
        (rows_of_added p.id t.responses
          (record {
            id = row;
            poll_id = p.id;
            answers = answers;
            submitted_at = at;
            client_fingerprint = fp;
          })
          empty (eq_refl p.id))
        refl)
