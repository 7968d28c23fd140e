-- ===== src/Poll/Model/Lookup.antt =====
-- What byID gives for an id: with distinct ids, the one question that has it.
use perfect_gift.Prelude.{
  String, List, [], ◌∷◌, some, Bool-cases, ◌≡◌, ◌≢◌, ◌⊎◌, inl, inr, refl, ◌∙◌, arith, map, All, Any,
  GoMap, put, ◌==◌, eq_iff,
}
use perfect_gift.Poll.Model.Loops.{Distinct}
use perfect_gift.Poll.Model.{Question, by_id}

-- The question that byID gives for an id.
abbrev pub IsFound : List Question → Question → String → Type 0
IsFound qs q id = Any (λ r. (r ≡ q) × (r.id ≡ id)) qs

pub by_id_sound :
    (qs : List Question) (m : GoMap Question) (id : String) (q : Question)
    → by_id qs m id ≡ some q
    → IsFound qs q id ⊎ (m id ≡ some q)
unfolding by_id
by_id_sound [] m id q h = inr h
by_id_sound (r ∷ rs) m id q h = elim (by_id_sound rs (put m r.id r) id q h) [
  | inl found ↦ inl (inr found)
  | inr e ↦ elim (Bool-cases (r.id == id)) [
    | inl t ↦ inl (inl (ground arith, (eq_iff r.id id).0 t))
    | inr f ↦ inr (ground arith)
  ]
]

by_id_absent :
    (qs : List Question) (m : GoMap Question) (id : String)
    → All (λ j. id ≢ j) (map (λ q. q.id) qs)
    → by_id qs m id ≡ m id
unfolding by_id
by_id_absent [] m id h = refl
by_id_absent (r ∷ rs) m id h =
    by_id_absent rs (put m r.id r) id h.1 ∙ ground (arith, eq_iff r.id id, h.0)

pub by_id_complete :
    (qs : List Question) (m : GoMap Question) (id : String) (q : Question)
    → Distinct (map (λ r. r.id) qs)
    → IsFound qs q id
    → by_id qs m id ≡ some q
unfolding by_id
by_id_complete [] m id q d h = absurd h
by_id_complete (r ∷ rs) m id q d (inl (same, named)) =
    by_id_absent rs (put m r.id r) id (rw (← named) d.0) ∙ ground (arith, eq_iff r.id id)
by_id_complete (r ∷ rs) m id q d (inr later) = by_id_complete rs (put m r.id r) id q d.1 later
