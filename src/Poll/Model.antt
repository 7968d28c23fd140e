-- ===== src/Poll/Model.antt =====
-- services/backend/poll/internal/domain/model: the poll's data (model.go) and the rules for a
-- poll's questions (questions.go) and for a submission (validate.go). An error is its case with
-- the ids that its text quotes.
pub mod Loops
pub mod Questions
pub mod Fits
pub mod Lookup
pub mod Required
pub mod Answers
use Prim.Native.String.{◌++◌}
use perfect_gift.Prelude.{
  ℕ, String, List, [], ◌∷◌, Bool, true, false, not, ◌&&◌, Option, none, some, GoMap, put, empty_map,
  ◌==◌, is_blank, if◌then◌else◌, length, ltb,
}
use Loops.{Seen, nothing_seen, mark, check_each, first_error}

pub data QuestionType : Type 0 where
  text single_choice multi_choice : QuestionType
  other_type : String → QuestionType

pub data Status : Type 0 where
  draft active completed expired : Status
  other_status : String → Status

pub record Choice : Type 0 where
  pub id : String
  pub label : String

pub record Question : Type 0 where
  pub id : String
  pub prompt : String
  pub type : QuestionType
  pub options : List Choice
  pub required : Bool

pub record Answer : Type 0 where
  pub question_id : String
  pub text : String
  pub choice_ids : List String

-- Times are nanoseconds since year 1.
pub record Poll : Type 0 where
  pub id : String
  pub owner_user_id : String
  pub surprise_request_id : String
  pub title : String
  pub questions : List Question
  pub status : Status
  pub expires_at : ℕ
  pub created_at : ℕ

pub record Response : Type 0 where
  pub id : String
  pub answers : List Answer
  pub submitted_at : ℕ

pub data Invalid : Type 0 where
  no_questions empty_question_id : Invalid
  duplicate_question blank_prompt needs_options empty_option_id : String → Invalid
  duplicate_option : String → String → Invalid
  unknown_type : String → QuestionType → Invalid
  unknown_question duplicate_answer choices_on_text text_on_choice : String → Invalid
  too_many_choices missing_answer : String → Invalid
  not_an_option : String → String → Invalid

-- string(q.Type)
type_text : QuestionType → String
type_text text = "text"
type_text single_choice = "single_choice"
type_text multi_choice = "multi_choice"
type_text (other_type t) = t

-- The error's text; `quote` is fmt's %q.
unfoldable pub describe : (String → String) → Invalid → String
unfolding type_text
describe quote no_questions = "a poll needs at least one question"
describe quote empty_question_id = "question id must not be empty"
describe quote (duplicate_question q) = "duplicate question id " ++ quote q
describe quote (blank_prompt q) = "question " ++ quote q ++ " has a blank prompt"
describe quote (needs_options q) = "choice question " ++ quote q ++ " needs options"
describe quote (empty_option_id q) = "question " ++ quote q ++ " has an option with empty id"
describe quote (duplicate_option q o) =
    "question " ++ quote q ++ " has duplicate option id " ++ quote o
describe quote (unknown_type q t) =
    "question " ++ quote q ++ " has unknown type " ++ quote (type_text t)
describe quote (unknown_question q) = "answer for unknown question " ++ quote q
describe quote (duplicate_answer q) = "duplicate answer for question " ++ quote q
describe quote (choices_on_text q) = "question " ++ quote q ++ " is free text; choices not allowed"
describe quote (text_on_choice q) =
    "question " ++ quote q ++ " is a choice question; free text not allowed"
describe quote (too_many_choices q) = "question " ++ quote q ++ " accepts a single choice"
describe quote (not_an_option q c) =
    "question " ++ quote q ++ ": " ++ quote c ++ " is not a valid option"
describe quote (missing_answer q) = "question " ++ quote q ++ " is required"

check_option : Question → Seen → Choice → Option Invalid
check_option q seen o =
    if is_blank o.id
    then some (empty_option_id q.id)
    else if seen o.id
    then some (duplicate_option q.id o.id)
    else none

check_options : Question → List Choice → Option Invalid
unfolding check_option
check_options q [] = some (needs_options q.id)
check_options q (o ∷ os) = check_each (λ o. o.id) (check_option q) nothing_seen (o ∷ os)

-- The `switch q.Type` of ValidateQuestions.
check_type : QuestionType → Question → Option Invalid
unfolding check_options
check_type text q = none
check_type single_choice q = check_options q q.options
check_type multi_choice q = check_options q q.options
check_type (other_type t) q = some (unknown_type q.id (other_type t))

check_question : Seen → Question → Option Invalid
unfolding check_type
check_question seen q =
    if is_blank q.id
    then some empty_question_id
    else if seen q.id
    then some (duplicate_question q.id)
    else if is_blank q.prompt
    then some (blank_prompt q.id)
    else check_type q.type q

unfoldable pub validate_questions : List Question → Option Invalid
unfolding check_question
validate_questions [] = some no_questions
validate_questions (q ∷ qs) = check_each (λ q. q.id) check_question nothing_seen (q ∷ qs)

-- byID: a later question with the same id replaces an earlier one.
pub by_id : List Question → GoMap Question → GoMap Question
by_id [] m = m
by_id (q ∷ qs) m = by_id qs (put m q.id q)

collect_options : List Choice → Seen
collect_options [] = nothing_seen
collect_options (o ∷ os) = mark (collect_options os) o.id

-- optionSet
pub option_set : Question → Seen
unfolding collect_options
option_set q = collect_options q.options

check_choices : Question → Seen → List String → Option Invalid
check_choices q opts [] = none
check_choices q opts (c ∷ cs) =
    let rest = check_choices q opts cs in if opts c then rest else some (not_an_option q.id c)

abbrev is_single : QuestionType → Bool
is_single single_choice = true
is_single _ = false

check_choice_answer : Question → Answer → Option Invalid
unfolding check_choices option_set
check_choice_answer q a =
    if not (is_blank a.text)
    then some (text_on_choice q.id)
    else if is_single q.type && ltb 1 (length a.choice_ids)
    then some (too_many_choices q.id)
    else check_choices q (option_set q) a.choice_ids

-- The `switch q.Type` of ValidateAnswers.
pub check_answer_type : QuestionType → Question → Answer → Option Invalid
unfolding check_choice_answer
check_answer_type text q a =
    if ltb 0 (length a.choice_ids) then some (choices_on_text q.id) else none
check_answer_type single_choice q a = check_choice_answer q a
check_answer_type multi_choice q a = check_choice_answer q a
check_answer_type (other_type t) q a = some (unknown_type q.id (other_type t))

check_answer : GoMap Question → Seen → Answer → Option Invalid
unfolding check_answer_type
check_answer questions answered a = elim (questions a.question_id) [
  | none ↦ some (unknown_question a.question_id)
  | some q ↦
      if answered a.question_id
      then some (duplicate_answer a.question_id)
      else check_answer_type q.type q a
]

-- What requireAnswered asks of the answer that it finds.
pub is_filled : QuestionType → Answer → Bool
is_filled text a = not (is_blank a.text)
is_filled _ a = ltb 0 (length a.choice_ids)

pub require_answered : Question → List Answer → Option Invalid
unfolding is_filled
require_answered q [] = some (missing_answer q.id)
require_answered q (a ∷ later) =
    let rest = require_answered q later in
    if a.question_id == q.id
    then (if is_filled q.type a then none else some (missing_answer q.id))
    else rest

pub check_required : List Question → List Answer → Option Invalid
unfolding require_answered
check_required [] answers = none
check_required (q ∷ qs) answers =
    let rest = check_required qs answers in
    if q.required then first_error (require_answered q answers) rest else rest

unfoldable pub validate_answers : List Question → List Answer → Option Invalid
unfolding check_answer check_required by_id
validate_answers questions answers =
    first_error
      (check_each (λ a. a.question_id) (check_answer (by_id questions empty_map)) nothing_seen
        answers)
      (check_required questions answers)
