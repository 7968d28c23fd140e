-- ===== src/Poll/Model/Required.antt =====
-- The loop over the required questions.
use perfect_gift.Prelude.{
  String, List, [], ◌∷◌, true, none, Bool-cases, ◌≡◌, ◌≢◌, inl, inr, refl, sym, ◌∙◌, arith, map,
  All, ◌==◌, eq_iff,
}
use perfect_gift.Poll.Model.Loops.{Distinct}
use perfect_gift.Poll.Model.{
  length, ltb, QuestionType, text, single_choice, multi_choice, other_type, is_filled, Question,
  Answer, require_answered, check_required,
}
use perfect_gift.Poll.Model.Fits.{IsAnswered, HasContent}

chosen : (cs : List String) → ltb 0 (length cs) ≡ true → cs ≢ []
chosen [] h = absurd (ground arith)
chosen (c ∷ cs) h = λ e. cc

some_chosen : (cs : List String) → cs ≢ [] → ltb 0 (length cs) ≡ true
some_chosen [] h = absurd (h refl)
some_chosen (c ∷ cs) h = ground arith

filled-HasContent : (t : QuestionType) (a : Answer) → is_filled t a ≡ true → HasContent t a
unfolding is_filled
filled-HasContent text a h = ground arith
filled-HasContent single_choice a h = chosen a.choice_ids h
filled-HasContent multi_choice a h = chosen a.choice_ids h
filled-HasContent (other_type n) a h = chosen a.choice_ids h

HasContent-filled : (t : QuestionType) (a : Answer) → HasContent t a → is_filled t a ≡ true
unfolding is_filled
HasContent-filled text a h = ground arith
HasContent-filled single_choice a h = some_chosen a.choice_ids h
HasContent-filled multi_choice a h = some_chosen a.choice_ids h
HasContent-filled (other_type n) a h = some_chosen a.choice_ids h

require_sound :
    (q : Question) (answers : List Answer)
    → require_answered q answers ≡ none
    → IsAnswered q answers
unfolding require_answered
require_sound q [] h = absurd (cc)
require_sound q (a ∷ later) h = elim (Bool-cases (a.question_id == q.id)) [
  | inl t ↦ inl ((eq_iff a.question_id q.id).0 t, filled-HasContent q.type a (ground arith))
  | inr f ↦ inr (require_sound q later (ground arith))
]

IsAnswered-once :
    (q : Question) (id : String) (answers : List Answer)
    → id ≡ q.id
    → All (λ j. id ≢ j) (map (λ a. a.question_id) answers)
    → ¬ IsAnswered q answers
IsAnswered-once q id [] e d h = h
IsAnswered-once q id (a ∷ later) e d (inl (named, filled)) = d.0 (e ∙ sym named)
IsAnswered-once q id (a ∷ later) e d (inr h) = IsAnswered-once q id later e d.1 h

require_complete :
    (q : Question) (answers : List Answer)
    → Distinct (map (λ a. a.question_id) answers)
    → IsAnswered q answers
    → require_answered q answers ≡ none
unfolding require_answered
require_complete q [] d h = absurd h
require_complete q (a ∷ later) d (inl (named, filled)) =
    ground (arith, eq_iff a.question_id q.id, HasContent-filled q.type a filled)
require_complete q (a ∷ later) d (inr h) = elim (Bool-cases (a.question_id == q.id)) [
  | inl t ↦ absurd (IsAnswered-once q a.question_id later ((eq_iff a.question_id q.id).0 t) d.0 h)
  | inr f ↦ rw f (require_complete q later d.1 h)
]

pub required_sound :
    (qs : List Question) (answers : List Answer)
    → check_required qs answers ≡ none
    → All (λ q. q.required ≡ true → IsAnswered q answers) qs
unfolding check_required
required_sound [] answers h = tt
required_sound (q ∷ qs) answers h =
    ((λ r. require_sound q answers (ground arith)), required_sound qs answers (ground arith))

pub required_complete :
    (qs : List Question) (answers : List Answer)
    → Distinct (map (λ a. a.question_id) answers)
    → All (λ q. q.required ≡ true → IsAnswered q answers) qs
    → check_required qs answers ≡ none
unfolding check_required
required_complete [] answers d h = refl
required_complete (q ∷ qs) answers d h = elim (Bool-cases q.required) [
  | inl r ↦ rw (r, require_complete q answers d (h.0 r)) (required_complete qs answers d h.1)
  | inr r ↦ rw r (required_complete qs answers d h.1)
]
