-- ===== src/Poll/Store.antt =====
-- services/backend/poll/internal/domain/postgres/postgres.go: the three tables, and each method
-- as one transaction of its SQL statements. A failing database is left to the interface
-- (`Poll.Ports`). The questions and answers go through JSON and come back as they were. New row
-- ids are arguments.
pub mod OneShot
pub mod Responses
use perfect_gift.Prelude.{
  ℕ, String, List, [], ◌∷◌, ◌++◌, map, keep, Bool, true, false, Option, none, some, Result, ok, err,
  Exec, Call, GoMap, put, empty_map, ◌==◌, leb, if◌then◌else◌,
}
use perfect_gift.Poll.Model.{Poll, Status, active, completed, Answer, Response}
use perfect_gift.Poll.Ports.{PollError, not_found, already_completed, failure, LinkedPoll, Repo}

-- A row of poll_links, by its token hash, which is unique.
pub record Link : Type 0 where
  pub poll_id : String
  pub expires_at : ℕ
  pub revoked : Bool

pub record ResponseRow : Type 0 where
  pub id : String
  pub poll_id : String
  pub answers : List Answer
  pub submitted_at : ℕ
  pub client_fingerprint : String

-- The responses stand in the order of their insertion.
pub record Tables : Type 0 where
  pub polls : GoMap Poll
  pub links : GoMap Link
  pub responses : List ResponseRow

abbrev pub no_rows : Tables
no_rows = record { polls = empty_map; links = empty_map; responses = [] }

-- Both rows are inserted, or neither: a primary key or a token hash that is taken fails the insert.
insert_link : Poll → String → ℕ → Option Link → Call Tables PollError
insert_link p hash expires (some _) t = (some (failure "duplicate token hash"), t)
insert_link p hash expires none t = (
  none,
  record t {
    polls = put t.polls p.id p;
    links = put t.links hash (record { poll_id = p.id; expires_at = expires; revoked = false });
  },
)

insert_poll : Poll → String → ℕ → Option Poll → Call Tables PollError
unfolding insert_link
insert_poll p hash expires (some _) t = (some (failure "duplicate poll id"), t)
insert_poll p hash expires none t = insert_link p hash expires (t.links hash) t

unfoldable pub create_poll : Poll → String → ℕ → Call Tables PollError
unfolding insert_poll
create_poll p hash expires t = insert_poll p hash expires (t.polls p.id) t

-- The join of poll_links and polls.
join_poll : Link → Option Poll → Result PollError LinkedPoll
join_poll l none = err not_found
join_poll l (some p) =
    ok (record { poll = p; link_revoked = l.revoked; link_expires_at = l.expires_at })

join_link : Tables → Option Link → Result PollError LinkedPoll
unfolding join_poll
join_link t none = err not_found
join_link t (some l) = join_poll l (t.polls l.poll_id)

unfoldable pub get_by_token_hash : String → Tables → Result PollError LinkedPoll
unfolding join_link
get_by_token_hash hash t = join_link t (t.links hash)

abbrev pub is_active : Status → Bool
is_active active = true
is_active _ = false

-- UPDATE ... WHERE id = $1 AND status = 'active', then the INSERT if a row was updated.
complete_row :
    String → String → List Answer → String → ℕ → Option Poll → Exec Tables PollError String
complete_row response_id poll_id answers fingerprint at none t = (err already_completed, t)
complete_row response_id poll_id answers fingerprint at (some p) t =
    if is_active p.status
    then (
      ok response_id,
      record t {
        polls = put t.polls poll_id (record p { status = completed });
        responses =
            t.responses
            ++ record {
              id = response_id;
              poll_id = poll_id;
              answers = answers;
              submitted_at = at;
              client_fingerprint = fingerprint;
            }
              ∷ [];
      },
    )
    else (err already_completed, t)

unfoldable pub complete_with_response :
    String → String → List Answer → String → ℕ → Exec Tables PollError String
unfolding complete_row
complete_with_response response_id poll_id answers fingerprint at t =
    complete_row response_id poll_id answers fingerprint at (t.polls poll_id) t

or_not_found : Option Poll → Result PollError Poll
or_not_found none = err not_found
or_not_found (some p) = ok p

unfoldable pub get_poll_by_id : String → Tables → Result PollError Poll
unfolding or_not_found
get_poll_by_id id t = or_not_found (t.polls id)

-- ORDER BY submitted_at; rows with one time stay in the order of insertion.
insert_by_time : Response → List Response → List Response
insert_by_time r [] = r ∷ []
insert_by_time r (q ∷ qs) =
    if leb r.submitted_at q.submitted_at then r ∷ q ∷ qs else q ∷ insert_by_time r qs

pub sort_by_time : List Response → List Response
unfolding insert_by_time
sort_by_time [] = []
sort_by_time (r ∷ rs) = insert_by_time r (sort_by_time rs)

to_response : ResponseRow → Response
to_response row = record { id = row.id; answers = row.answers; submitted_at = row.submitted_at }

unfoldable pub rows_of : String → List ResponseRow → List ResponseRow
rows_of poll_id rows = keep (λ row. row.poll_id == poll_id) rows

unfoldable pub get_responses : String → Tables → Result PollError (List Response)
unfolding rows_of to_response sort_by_time
get_responses poll_id t = ok (sort_by_time (map to_response (rows_of poll_id t.responses)))

-- The tables as Repo, for a transaction that takes its next row id from the argument.
abbrev pub repo : String → Repo Tables
repo response_id = record {
  create_poll = create_poll;
  get_by_token_hash = get_by_token_hash;
  complete_with_response = complete_with_response response_id;
  get_poll_by_id = get_poll_by_id;
  get_responses = get_responses;
}
