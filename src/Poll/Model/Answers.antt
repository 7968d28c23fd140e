-- ===== src/Poll/Model/Answers.antt =====
-- ValidateAnswers accepts exactly the submissions that fit the poll.
use perfect_gift.Prelude.{
  List, [], ◌∷◌, false, none, some, Option-cases, ◌≡◌, ◌↔◌, inl, inr, refl, sym, subst, arith, map,
  All, GoMap, empty_map,
}
use perfect_gift.Poll.Model.Loops.{
  Seen, nothing_seen, Distinct, check_each_sound, check_each_complete,
}
use perfect_gift.Poll.Model.{Question, Answer, by_id, check_answer, validate_answers}
use perfect_gift.Poll.Model.Fits.{Fits, IsGoodAnswer, IsValidSubmission, type_sound, type_complete}
use perfect_gift.Poll.Model.Lookup.{IsFound, by_id_sound, by_id_complete}
use perfect_gift.Poll.Model.Required.{required_sound, required_complete}

-- What the loop over the answers checks of each.
abbrev IsKnown : GoMap Question → Answer → Type 0
IsKnown m a = (q : Question) × (m a.question_id ≡ some q) × Fits q.type q a

answer_sound :
    (m : GoMap Question) (seen : Seen) (a : Answer)
    → check_answer m seen a ≡ none
    → (seen a.question_id ≡ false) × IsKnown m a
unfolding check_answer
answer_sound m seen a h = elim (Option-cases (m a.question_id)) [
  | inl e ↦ absurd (ground arith)
  | inr (q, e) ↦ (ground arith, (q, e, type_sound q.type q a (ground arith)))
]

answer_complete :
    (m : GoMap Question) (seen : Seen) (a : Answer)
    → seen a.question_id ≡ false
    → IsKnown m a
    → check_answer m seen a ≡ none
unfolding check_answer
answer_complete m seen a u (q, e, fits) = ground (arith, type_complete q.type q a fits)

known_good : (qs : List Question) (a : Answer) → IsKnown (by_id qs empty_map) a → IsGoodAnswer qs a
known_good qs a (q, e, fits) = elim (by_id_sound qs empty_map a.question_id q e) [
  | inl found ↦ go qs found
  | inr absent ↦ absurd (cc)
]
  where
    go : (rs : List Question) → IsFound rs q a.question_id → IsGoodAnswer rs a
    go [] h = h
    go (r ∷ rs) (inl (same, named)) = inl (named, subst (λ x. Fits x.type x a) (sym same) fits)
    go (r ∷ rs) (inr later) = inr (go rs later)

good-IsKnown :
    (qs : List Question) (a : Answer)
    → Distinct (map (λ r. r.id) qs)
    → IsGoodAnswer qs a
    → IsKnown (by_id qs empty_map) a
good-IsKnown qs a d good =
    let (q, found, fits) = pick qs good in
    (q, by_id_complete qs empty_map a.question_id q d found, fits)
  where
    pick :
        (rs : List Question)
        → IsGoodAnswer rs a
        → (q : Question) × IsFound rs q a.question_id × Fits q.type q a
    pick [] h = absurd h
    pick (r ∷ rs) (inl (named, fits)) = (r, inl (refl, named), fits)
    pick (r ∷ rs) (inr later) = let (q, found, fits) = pick rs later in (q, inr found, fits)

All-map :
    {P Q : Answer → Type 0} (f : (a : Answer) → P a → Q a) (as' : List Answer)
    → All P as'
    → All Q as'
All-map f [] h = tt
All-map f (a ∷ later) h = (f a h.0, All-map f later h.1)

unseen : (answers : List Answer) → All (λ a. nothing_seen a.question_id ≡ false) answers
unseen [] = tt
unseen (a ∷ later) = (refl, unseen later)

-- For a poll whose question ids are distinct ValidateAnswers returns nil exactly for a submission
-- in which each answer fits a question of the poll, no question is answered twice, and each
-- required question has an answer with a text that is not blank, or with a choice. An answer fits
-- a single-choice question with one choice, and also with none: only a required question asks
-- for one.
pub validate_answers_iff :
    (qs : List Question) (answers : List Answer)
    → Distinct (map (λ q. q.id) qs)
    → (validate_answers qs answers ≡ none) ↔ IsValidSubmission qs answers
validate_answers_iff qs answers d = (sound, complete)
  where
    m : GoMap Question
    m = by_id qs empty_map

    sound : validate_answers qs answers ≡ none → IsValidSubmission qs answers
    sound h =
        let (_, known, distinct) =
          check_each_sound (λ a. a.question_id) (check_answer m) (IsKnown m) (answer_sound m)
            (answer_complete m) nothing_seen answers (unfold validate_answers in ground arith) in
        (
          All-map (known_good qs) answers known,
          distinct,
          required_sound qs answers (unfold validate_answers in ground arith),
        )

    complete : IsValidSubmission qs answers → validate_answers qs answers ≡ none
    complete (good, distinct, required) =
        unfold validate_answers in
        rw
          (check_each_complete (λ a. a.question_id) (check_answer m) (IsKnown m) (answer_sound m)
            (answer_complete m) nothing_seen answers
            (unseen answers, All-map (λ a g. good-IsKnown qs a d g) answers good, distinct))
          (required_complete qs answers distinct required)
