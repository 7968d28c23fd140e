-- ===== src/Poll/Model/Fits.antt =====
-- What a valid submission is, and that the checks of one answer's content decide it.
use perfect_gift.Prelude.{
  ◌≢◌, String, List, [], ◌∷◌, true, false, none, Bool-cases, ◌≡◌, inl, inr, refl, arith, map, All,
  Any, is_blank, length, ltb, ◌≤◌, ◌==◌, eq_iff,
}
use perfect_gift.Poll.Model.Loops.{Distinct}
use perfect_gift.Poll.Model.{
  QuestionType, text, single_choice, multi_choice, other_type, Choice, Question, Answer, option_set,
  collect_options, check_choices, check_choice_answer, is_single, check_answer_type,
}

abbrev pub IsOffered : String → List Choice → Type 0
IsOffered c options = Any (λ o. o.id ≡ c) options

-- A choice answer has no text, at most one choice if the question takes one, and offered choices.
abbrev pub FitsChoice : Question → Answer → Type 0
FitsChoice q a =
    (is_blank a.text ≡ true)
    × (is_single q.type ≡ true → length a.choice_ids ≤ 1)
    × All (λ c. IsOffered c q.options) a.choice_ids

abbrev pub Fits : QuestionType → Question → Answer → Type 0
Fits text q a = a.choice_ids ≡ []
Fits single_choice q a = FitsChoice q a
Fits multi_choice q a = FitsChoice q a
Fits (other_type t) q a = ⊥

abbrev pub IsGoodAnswer : List Question → Answer → Type 0
IsGoodAnswer qs a = Any (λ q. (q.id ≡ a.question_id) × Fits q.type q a) qs

-- An answer that says something: a text that is not blank, or at least one choice.
abbrev pub HasContent : QuestionType → Answer → Type 0
HasContent text a = is_blank a.text ≡ false
HasContent _ a = a.choice_ids ≢ []

abbrev pub IsAnswered : Question → List Answer → Type 0
IsAnswered q answers = Any (λ a. (a.question_id ≡ q.id) × HasContent q.type a) answers

-- Each answer fits a question of the poll, no question is answered twice, and each required
-- question has an answer with content. A choice question that is not required may get no choice.
abbrev pub IsValidSubmission : List Question → List Answer → Type 0
IsValidSubmission qs answers =
    All (IsGoodAnswer qs) answers
    × Distinct (map (λ a. a.question_id) answers)
    × All (λ q. q.required ≡ true → IsAnswered q answers) qs

IsOffered-sound : (os : List Choice) (c : String) → collect_options os c ≡ true → IsOffered c os
unfolding collect_options
IsOffered-sound [] c h = absurd (cc)
IsOffered-sound (o ∷ os) c h = elim (Bool-cases (o.id == c)) [
  | inl t ↦ inl ((eq_iff o.id c).0 t)
  | inr f ↦ inr (IsOffered-sound os c (ground arith))
]

IsOffered-complete : (os : List Choice) (c : String) → IsOffered c os → collect_options os c ≡ true
unfolding collect_options
IsOffered-complete [] c h = absurd h
IsOffered-complete (o ∷ os) c (inl e) = ground (arith, eq_iff o.id c)
IsOffered-complete (o ∷ os) c (inr h) = ground (arith, IsOffered-complete os c h)

choices_sound :
    (q : Question) (cs : List String)
    → check_choices q (option_set q) cs ≡ none
    → All (λ c. IsOffered c q.options) cs
unfolding check_choices option_set
choices_sound q [] h = tt
choices_sound q (c ∷ cs) h =
    (IsOffered-sound q.options c (ground arith), choices_sound q cs (ground arith))

choices_complete :
    (q : Question) (cs : List String)
    → All (λ c. IsOffered c q.options) cs
    → check_choices q (option_set q) cs ≡ none
unfolding check_choices option_set
choices_complete q [] h = refl
choices_complete q (c ∷ cs) h = rw (IsOffered-complete q.options c h.0) (choices_complete q cs h.1)

choice_sound : (q : Question) (a : Answer) → check_choice_answer q a ≡ none → FitsChoice q a
unfolding check_choice_answer
choice_sound q a h =
    (ground arith, (λ single. ground arith), choices_sound q a.choice_ids (ground arith))

choice_complete : (q : Question) (a : Answer) → FitsChoice q a → check_choice_answer q a ≡ none
unfolding check_choice_answer
choice_complete q a (b, one, offered) = ground (arith, choices_complete q a.choice_ids offered, one)

no_choices : (cs : List String) → ltb 0 (length cs) ≡ false → cs ≡ []
no_choices [] h = refl
no_choices (c ∷ cs) h = absurd (ground arith)

pub type_sound :
    (t : QuestionType) (q : Question) (a : Answer) → check_answer_type t q a ≡ none → Fits t q a
unfolding check_answer_type
type_sound text q a h = no_choices a.choice_ids (ground arith)
type_sound single_choice q a h = choice_sound q a h
type_sound multi_choice q a h = choice_sound q a h
type_sound (other_type t) q a h = cc

pub type_complete :
    (t : QuestionType) (q : Question) (a : Answer) → Fits t q a → check_answer_type t q a ≡ none
unfolding check_answer_type
type_complete text q a h = rw h refl
type_complete single_choice q a h = choice_complete q a h
type_complete multi_choice q a h = choice_complete q a h
type_complete (other_type t) q a h = absurd h
