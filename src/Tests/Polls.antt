-- ===== src/Tests/Polls.antt =====
-- The Poll service at concrete inputs.
use perfect_gift.Prelude.{
  ◌+◌, ltb, ℕ, ◌<◌, ◌≤◌, String, [], ◌∷◌, length, ◌≡◌, ◌↔◌, ◌⊎◌, refl, none, some, true, false, ok,
  arith, eq_iff, put, empty_map, is_blank,
}
use perfect_gift.Poll.Model.{
  Question, Answer, Poll, single_choice, active, completed, validate_questions, validate_answers,
}
use perfect_gift.Poll.Model.Loops.{check_each}
use perfect_gift.Poll.Model.Questions.{IsWellFormed, validate_questions_iff}
use perfect_gift.Poll.Model.Fits.{IsValidSubmission}
use perfect_gift.Poll.Model.Answers.{validate_answers_iff}
use perfect_gift.Poll.Messages.{
  QuestionMessage, kind_text, questions_from_proto, questions_to_proto,
}
use perfect_gift.Poll.Ports.{failure}
use perfect_gift.Poll.Store
use perfect_gift.Poll.Store.{Tables, Link, no_rows, repo, rows_of}
use perfect_gift.Poll.Store.OneShot.{here, next, creates, completes, one_response}
use perfect_gift.Poll.Server.{
  Server, Context, Tuning, CreateRequest, CreateResponse, subject_from, expiry, create_poll,
  get_poll_by_token, submit_response, get_responses, fetchable,
}
use perfect_gift.Poll.Server.Reading.{owner_reads_answers}
use perfect_gift.Poll.Server.World.{World, on_tables, IsBacked, IsTurnedAway}
use perfect_gift.Poll.Server.Links.{expiry_overflow, link_used_up, created_link_opens}

abbrev colour : Question
colour = record {
  id = "q1";
  prompt = "Which colour?";
  type = single_choice;
  options = record { id = "red"; label = "Red" } ∷ record { id = "blue"; label = "Blue" } ∷ [];
  required = true;
}

abbrev red : Answer
red = record { question_id = "q1"; text = ""; choice_ids = "red" ∷ [] }

abbrev hobby_message : QuestionMessage
hobby_message = record {
  id = "q2";
  prompt = "A hobby?";
  kind = kind_text;
  options = [];
  required = false;
}

abbrev gift_poll : Poll
gift_poll = record {
  id = "p1";
  owner_user_id = "ann";
  surprise_request_id = "r1";
  title = "What would you like?";
  questions = colour ∷ [];
  status = active;
  expires_at = 50;
  created_at = 5;
}

abbrev good_link : Link
good_link = record { poll_id = "p1"; expires_at = 50; revoked = false }

abbrev one_poll : Tables
one_poll = record {
  polls = put empty_map "p1" gift_poll;
  links = put empty_map "t1" good_link;
  responses = [];
}

abbrev tuning : Tuning
tuning = record {
  default_ttl = 100;
  per_token_budget = 5;
  per_token_window = 10;
  per_ip_budget = 30;
  per_ip_window = 10;
  allowed_origin = "https://gift.example";
  link_path = "/p/{token}";
}

-- A limiter that counts its calls and refuses beyond the budget; nothing listens, and the
-- outside's functions are the plainest of their types.
abbrev server : Server (World ℕ)
server = record {
  repo = on_tables "x1";
  limiter = record {
    allow =
        λ key budget window w. (ok (ltb w.outside budget), record w { outside = w.outside + 1 });
  };
  publisher = record { publish_poll_completed = λ e w. (some (failure "nobody listens"), w) };
  tune = tuning;
  sha256_hex = λ raw. raw;
  rfc3339 = λ at. "some day";
  quote = λ s. s;
}

backed : IsBacked server "x1"
backed = record {
  over = refl;
  limiter_keeps = λ key budget window w. refl;
  publisher_keeps = λ e w. refl;
}

abbrev signed_in : String → Context
signed_in who = record { subject = some who; metadata = none; peer = none }

abbrev anonymous : Context
anonymous = record { subject = none; metadata = none; peer = none }

abbrev wanted : CreateRequest
wanted = record {
  title = "Hobbies";
  questions = hobby_message ∷ [];
  surprise_request_id = "r1";
  ttl_seconds = 60;
}

abbrev at_first : World ℕ
at_first = record { tables = one_poll; outside = 3 }

abbrev submitted : World ℕ
submitted = (submit_response server anonymous 9 9 "t1" (red ∷ []) at_first).1

abbrev empty_world : World ℕ
empty_world = record { tables = no_rows; outside = 0 }

abbrev created : World ℕ
created = (create_poll server (signed_in "ann") "p2" 7 (some "t2") wanted empty_world).1

validate_questions_iff_example :
    (validate_questions (colour ∷ colour ∷ []) ≡ none) ↔ IsWellFormed (colour ∷ colour ∷ [])
validate_questions_iff_example = validate_questions_iff (colour ∷ colour ∷ [])

validate_answers_iff_example :
    (validate_answers (colour ∷ []) (red ∷ []) ≡ none) ↔ IsValidSubmission (colour ∷ []) (red ∷ [])
validate_answers_iff_example = validate_answers_iff (colour ∷ []) (red ∷ []) (tt, tt)

one_response_example :
    let t =
      (Store.complete_with_response "x1" "p1"
        (red ∷ [])
        "fp"
        9
        (Store.create_poll gift_poll "t1" 50 no_rows).1).1 in
    (length (rows_of "p1" t.responses) ≤ 1)
    × ((false ≡ false) ⊎ (length (rows_of "p1" t.responses) ≡ 0))
unfolding Store.complete_with_response Store.create_poll
one_response_example =
    one_response
      (Store.complete_with_response "x1" "p1" (red ∷ []) "fp" 9
        (Store.create_poll gift_poll "t1" 50 no_rows).1).1
      (record gift_poll { status = completed }) "p1"
      (next (next here (creates no_rows gift_poll "t1" 50))
        (completes (Store.create_poll gift_poll "t1" 50 no_rows).1 "x1" "p1" (red ∷ []) "fp" 9))
      refl

expiry_overflow_example : expiry tuning 9_300_000_000 7 < 7
expiry_overflow_example =
    expiry_overflow tuning 9_300_000_000 7 (omega arith) (omega arith) (omega arith)

link_used_up_example :
    ((submit_response server anonymous 9 9 "t1" (red ∷ []) at_first).0 ≡ ok true)
    × IsTurnedAway (get_poll_by_token server (signed_in "bob") 10 "t1" submitted).0
    × IsTurnedAway (submit_response server (signed_in "bob") 10 10 "t1" (red ∷ []) submitted).0
unfolding fetchable validate_answers check_each is_blank
link_used_up_example =
    link_used_up server "x1" backed anonymous 9 9 "t1" (red ∷ []) at_first good_link gift_poll
      (signed_in "bob") 10 10 (red ∷ []) submitted (refl, refl) (ground (arith, eq_iff "t1" ""))
      refl refl refl refl refl refl

created_link_opens_example :
    (made : CreateResponse) × ((create_poll server
        (signed_in "ann")
        "p2"
        7
        (some "t2")
        wanted
        empty_world).0
      ≡ ok made)
    × (made.link_token ≡ "t2")
    × ((get_poll_by_token server anonymous 8 made.link_token created).0
        ≡ ok (record {
          poll_id = made.poll_id;
          title = "Hobbies";
          questions = questions_to_proto (questions_from_proto (hobby_message ∷ []));
        }))
unfolding subject_from validate_questions questions_from_proto expiry is_blank check_each
    create_poll Store.create_poll
created_link_opens_example =
    created_link_opens server "x1" backed (signed_in "ann") "ann" "p2" "t2" 7 wanted empty_world
      anonymous 8 created refl refl refl refl refl (ground (arith, eq_iff "t2" "")) (omega arith)
      refl refl

owner_reads_answers_example :
    ((submit_response server anonymous 9 9 "t1" (red ∷ []) at_first).0 ≡ ok true)
    × (get_responses server (signed_in "ann") "p1" submitted ≡ (
      ok (record { id = "x1"; answers = red ∷ []; submitted_at = "some day" } ∷ []),
      submitted,
    ))
unfolding fetchable validate_answers check_each is_blank subject_from rows_of
owner_reads_answers_example =
    owner_reads_answers server "x1" backed anonymous 9 9 "t1" (red ∷ []) at_first good_link
      gift_poll (signed_in "ann") submitted (refl, refl) (ground (arith, eq_iff "t1" "")) refl refl
      refl (ground (arith, eq_iff "p1" "")) refl refl refl refl refl
