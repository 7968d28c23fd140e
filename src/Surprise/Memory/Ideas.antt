-- ===== src/Surprise/Memory/Ideas.antt =====
-- What the store gives back of the ideas that were saved.
use mathlib.Core.List.{Perm}
use mathlib.Core.List.Perm
use perfect_gift.Prelude.{
  ℕ, String, List, [], ◌∷◌, ◌≡◌, ◌≢◌, ◌≤◌, refl, ap, ◌∙◌, some, ok, arith, eq_iff, put, All, GoMap,
  leb, Bool-cases, inl, inr,
}
use perfect_gift.Surprise.Types.{Idea}
use perfect_gift.Surprise.Memory.{
  Store, save_ideas, get_ideas, get_idea, index_ideas, sort_by_rank, insert_by_rank,
}

-- Ranks ascend from a lower bound on.
abbrev pub AscendsFrom : ℕ → List Idea → Type 0
AscendsFrom n [] = Unit
AscendsFrom n (i ∷ is) = (n ≤ i.rank) × AscendsFrom i.rank is

Ascends-weaken : {n m : ℕ} (is : List Idea) → n ≤ m → AscendsFrom m is → AscendsFrom n is
Ascends-weaken [] h a = tt
Ascends-weaken (i ∷ is) h a = (omega arith, a.1)

insert-Ascends :
    (n : ℕ) (i : Idea) (is : List Idea)
    → n ≤ i.rank
    → AscendsFrom n is
    → AscendsFrom n (insert_by_rank i is)
unfolding insert_by_rank
insert-Ascends n i [] h a = (h, tt)
insert-Ascends n i (j ∷ js) h a = elim (Bool-cases (leb i.rank j.rank)) [
  | inl t ↦ rw t (h, (ground arith, a.1))
  | inr f ↦ rw f (a.0, insert-Ascends j.rank i js (ground arith) a.1)
]

sort-Ascends : (is : List Idea) → AscendsFrom 0 (sort_by_rank is)
unfolding sort_by_rank
sort-Ascends [] = tt
sort-Ascends (i ∷ is) = insert-Ascends 0 i (sort_by_rank is) (omega arith) (sort-Ascends is)

insert-perm : (i : Idea) (is : List Idea) → Perm (insert_by_rank i is) (i ∷ is)
unfolding insert_by_rank
insert-perm i [] = Perm.refl (i ∷ [])
insert-perm i (j ∷ js) = elim (Bool-cases (leb i.rank j.rank)) [
  | inl t ↦ rw t (Perm.refl (i ∷ j ∷ js))
  | inr f ↦ rw f (Perm.trans (Perm.cons j (insert-perm i js)) (Perm.swap i j js))
]

sort-perm : (is : List Idea) → Perm (sort_by_rank is) is
unfolding sort_by_rank
sort-perm [] = Perm.refl []
sort-perm (i ∷ is) = Perm.trans (insert-perm i (sort_by_rank is)) (Perm.cons i (sort-perm is))

insert_front : (i : Idea) (is : List Idea) → AscendsFrom i.rank is → insert_by_rank i is ≡ i ∷ is
unfolding insert_by_rank
insert_front i [] a = refl
insert_front i (j ∷ js) a = ground arith

sort_ascending : (n : ℕ) (is : List Idea) → AscendsFrom n is → sort_by_rank is ≡ is
unfolding sort_by_rank
sort_ascending n [] a = refl
sort_ascending n (i ∷ is) a =
    ap (insert_by_rank i) (sort_ascending i.rank is a.1) ∙ insert_front i is a.1

-- GetIdeas returns, of the list last saved for the request, every idea as often as it was saved, in
-- ascending order of rank.
pub get_ideas-save_ideas :
    (id : String) (ideas : List Idea) (s : Store)
    → (out : List Idea) × (get_ideas id (save_ideas id ideas s).1 ≡ ok out)
      × Perm out ideas
      × AscendsFrom 0 out
unfolding get_ideas save_ideas
get_ideas-save_ideas id ideas s =
    (sort_by_rank ideas, ground (arith, eq_iff id id), sort-perm ideas, sort-Ascends ideas)

-- A list whose ranks ascend is returned as it is.
pub get_ideas_ascending :
    (id : String) (ideas : List Idea) (s : Store)
    → AscendsFrom 0 ideas
    → s.ideas id ≡ some ideas
    → get_ideas id s ≡ ok ideas
unfolding get_ideas
get_ideas_ascending id ideas s a e = rw (e, sort_ascending 0 ideas a) refl

index_ideas_absent :
    (id : String) (new : List Idea) (m : GoMap Idea)
    → All (λ j. j.id ≢ id) new
    → index_ideas new m id ≡ m id
unfolding index_ideas
index_ideas_absent id [] m h = refl
index_ideas_absent id (j ∷ js) m h =
    index_ideas_absent id js (put m j.id j) h.1 ∙ ground (arith, eq_iff j.id id, h.0)

-- SaveIdeas replaces what GetIdeas lists, and not what GetIdea finds: a stored idea that is not
-- in the new list stays readable by its id.
pub stale_idea_readable :
    (id : String) (new : List Idea) (i : Idea) (s : Store)
    → get_idea i.id s ≡ ok i
    → All (λ j. j.id ≢ i.id) new
    → get_idea i.id (save_ideas id new s).1 ≡ ok i
unfolding get_idea save_ideas
stale_idea_readable id new i s e h = rw (index_ideas_absent i.id new s.idea_by_id h) e
