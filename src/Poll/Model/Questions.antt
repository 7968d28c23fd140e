-- ===== src/Poll/Model/Questions.antt =====
-- ValidateQuestions accepts exactly the well-formed polls.
use perfect_gift.Prelude.{
  List, [], ◌∷◌, Bool, false, none, ◌≡◌, ◌≢◌, ◌↔◌, refl, arith, map, All, is_blank,
}
use perfect_gift.Poll.Model.Loops.{
  Seen, nothing_seen, Distinct, check_each_sound, check_each_complete,
}
use perfect_gift.Poll.Model.{
  QuestionType, text, single_choice, multi_choice, other_type, Choice, Question, check_option,
  check_options, check_type, check_question, validate_questions,
}

-- A choice question offers options, with distinct ids that are not blank.
abbrev pub HasOptions : List Choice → Type 0
HasOptions options =
    (options ≢ []) × All (λ o. is_blank o.id ≡ false) options × Distinct (map (λ o. o.id) options)

abbrev pub IsWellTyped : QuestionType → List Choice → Type 0
IsWellTyped text options = Unit
IsWellTyped single_choice options = HasOptions options
IsWellTyped multi_choice options = HasOptions options
IsWellTyped (other_type t) options = ⊥

abbrev pub IsGoodQuestion : Question → Type 0
IsGoodQuestion q =
    (is_blank q.id ≡ false) × (is_blank q.prompt ≡ false) × IsWellTyped q.type q.options

-- A poll has questions, with distinct ids, each with an id, a prompt, a known type and its options.
abbrev pub IsWellFormed : List Question → Type 0
IsWellFormed qs = (qs ≢ []) × All IsGoodQuestion qs × Distinct (map (λ q. q.id) qs)

option_sound :
    (q : Question) (seen : Seen) (o : Choice)
    → check_option q seen o ≡ none
    → (seen o.id ≡ false) × (is_blank o.id ≡ false)
unfolding check_option
option_sound q seen o h = ground arith

option_complete :
    (q : Question) (seen : Seen) (o : Choice)
    → seen o.id ≡ false
    → is_blank o.id ≡ false
    → check_option q seen o ≡ none
unfolding check_option
option_complete q seen o u b = ground arith

none_seen {ℓ} : {A : Type ℓ} (xs : List A) → All {A = A} (λ x. ◌≡◌ {A = Bool} false false) xs
none_seen [] = tt
none_seen (x ∷ xs) = (refl, none_seen xs)

options_sound : (q : Question) (os : List Choice) → check_options q os ≡ none → HasOptions os
unfolding check_options
options_sound q [] h = absurd (cc)
options_sound q (o ∷ os) h =
    let (_, good, distinct) =
      check_each_sound (λ c. c.id) (check_option q) (λ c. is_blank c.id ≡ false) (option_sound q)
        (option_complete q) nothing_seen (o ∷ os) h in
    (λ e. cc, good, distinct)

options_complete : (q : Question) (os : List Choice) → HasOptions os → check_options q os ≡ none
unfolding check_options
options_complete q [] h = absurd (h.0 refl)
options_complete q (o ∷ os) h =
    check_each_complete (λ c. c.id) (check_option q) (λ c. is_blank c.id ≡ false) (option_sound q)
      (option_complete q) nothing_seen (o ∷ os) (none_seen (o ∷ os), h.1, h.2)

type_sound : (t : QuestionType) (q : Question) → check_type t q ≡ none → IsWellTyped t q.options
unfolding check_type
type_sound text q h = tt
type_sound single_choice q h = options_sound q q.options h
type_sound multi_choice q h = options_sound q q.options h
type_sound (other_type t) q h = cc

type_complete : (t : QuestionType) (q : Question) → IsWellTyped t q.options → check_type t q ≡ none
unfolding check_type
type_complete text q h = refl
type_complete single_choice q h = options_complete q q.options h
type_complete multi_choice q h = options_complete q q.options h
type_complete (other_type t) q h = absurd h

question_sound :
    (seen : Seen) (q : Question)
    → check_question seen q ≡ none
    → (seen q.id ≡ false) × IsGoodQuestion q
unfolding check_question
question_sound seen q h =
    (ground arith, (ground arith, ground arith, type_sound q.type q (ground arith)))

question_complete :
    (seen : Seen) (q : Question)
    → seen q.id ≡ false
    → IsGoodQuestion q
    → check_question seen q ≡ none
unfolding check_question
question_complete seen q u g = ground (arith, u, g.0, g.1, type_complete q.type q g.2)

-- ValidateQuestions returns nil exactly for a non-empty list of questions with distinct ids, each
-- with an id and a prompt that are not blank and a known type, and each choice question with a
-- non-empty list of options with distinct ids that are not blank.
pub validate_questions_iff : (qs : List Question) → (validate_questions qs ≡ none) ↔ IsWellFormed qs
unfolding validate_questions
validate_questions_iff [] = (λ h. absurd (cc), λ h. absurd (h.0 refl))
validate_questions_iff (q ∷ qs) = (
  λ h.
      let (_, good, distinct) =
        check_each_sound (λ r. r.id) check_question IsGoodQuestion question_sound question_complete
          nothing_seen (q ∷ qs) h in
      (λ e. cc, good, distinct),
  λ h.
      check_each_complete (λ r. r.id) check_question IsGoodQuestion question_sound question_complete
        nothing_seen (q ∷ qs) (none_seen (q ∷ qs), h.1, h.2),
)
