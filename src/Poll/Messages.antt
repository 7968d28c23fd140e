-- ===== src/Poll/Messages.antt =====
-- services/backend/poll/internal/app/mapping.go: the messages of api/poll/v1/poll.proto to and
-- from the model. An answer's message has the fields of the model's answer.
use perfect_gift.Prelude.{String, Bool, List, [], ◌∷◌, map, ◌≡◌, refl, ap₂, arith}
use perfect_gift.Poll.Model.{
  QuestionType, text, single_choice, multi_choice, other_type, Choice, Question,
}

pub data QuestionKind : Type 0 where
  kind_unspecified kind_text kind_single_choice kind_multi_choice : QuestionKind

pub record QuestionMessage : Type 0 where
  pub id : String
  pub prompt : String
  pub kind : QuestionKind
  pub options : List Choice
  pub required : Bool

unfoldable pub question_type_from_proto : QuestionKind → QuestionType
question_type_from_proto kind_text = text
question_type_from_proto kind_single_choice = single_choice
question_type_from_proto kind_multi_choice = multi_choice
question_type_from_proto _ = other_type ""

unfoldable pub question_type_to_proto : QuestionType → QuestionKind
question_type_to_proto text = kind_text
question_type_to_proto single_choice = kind_single_choice
question_type_to_proto multi_choice = kind_multi_choice
question_type_to_proto _ = kind_unspecified

question_from_proto : QuestionMessage → Question
unfolding question_type_from_proto
question_from_proto q = record {
  id = q.id;
  prompt = q.prompt;
  type = question_type_from_proto q.kind;
  options = q.options;
  required = q.required;
}

unfoldable pub questions_from_proto : List QuestionMessage → List Question
unfolding question_from_proto
questions_from_proto = map question_from_proto

question_to_proto : Question → QuestionMessage
unfolding question_type_to_proto
question_to_proto q = record {
  id = q.id;
  prompt = q.prompt;
  kind = question_type_to_proto q.type;
  options = q.options;
  required = q.required;
}

unfoldable pub questions_to_proto : List Question → List QuestionMessage
unfolding question_to_proto
questions_to_proto = map question_to_proto

message_back : (q : QuestionMessage) → question_to_proto (question_from_proto q) ≡ q
unfolding question_to_proto question_from_proto
message_back q = ground arith

-- A question's message, read into the model and written back, is the message that came in, also
-- where its kind is unspecified: the owner and the subject see the same questions.
pub questions_to_proto-from_proto :
    (qs : List QuestionMessage) → questions_to_proto (questions_from_proto qs) ≡ qs
unfolding questions_to_proto questions_from_proto
questions_to_proto-from_proto [] = refl
questions_to_proto-from_proto (q ∷ qs) = ap₂ ◌∷◌ (message_back q) (questions_to_proto-from_proto qs)
