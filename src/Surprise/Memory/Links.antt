-- ===== src/Surprise/Memory/Links.antt =====
-- The links between the store's maps: every idempotency key leads to a stored request that has it.
use perfect_gift.Prelude.{
  ℕ, String, List, ◌≡◌, refl, sym, Option, some, none, ok, err, arith, eq_iff, put, ◌==◌,
  Bool-cases, true, false, Option-cases, inl, inr, eqb, ap, ◌∙◌, ◌⊎◌,
}
use perfect_gift.Surprise.Types.{Time, Status, Request, Idea, StatusInfo, not_found}
use perfect_gift.Surprise.Memory.{
  Store, new, create_request, stamp_created, get_request_by_idempotency_key, set_request_status,
  mark_refinement, update_request, save_ideas, save_idea_for_user, set_status,
  set_idempotency_if_absent, set_llm_cache,
}

pub record IsLinked (s : Store) : Type 0 where
  pub own_id : (id : String) (r : Request) → s.requests id ≡ some r → r.id ≡ id
  pub linked :
      (key id : String)
      → s.idem_by_key key ≡ some id
      → (r : Request) × (s.requests id ≡ some r) × (r.idempotency_key ≡ key)

-- Any method that writes, at any time. A created request has an id that is not in use.
pub data Step : Store → Store → Type 0 where
  creates :
      (s : Store) (now : Time) (r : Request)
      → s.requests r.id ≡ none
      → Step s (create_request now r s).1
  sets_request_status :
      (s : Store) (id : String) (st : Status) → Step s (set_request_status id st s).1
  marks_refinement : (s : Store) (id text : String) → Step s (mark_refinement id text s).1
  saves_ideas : (s : Store) (id : String) (ideas : List Idea) → Step s (save_ideas id ideas s).1
  saves_for_user : (s : Store) (user idea : String) → Step s (save_idea_for_user user idea s).1
  sets_status :
      (s : Store) (id : String) (info : StatusInfo) (ttl : ℕ) → Step s (set_status id info ttl s).1
  claims_key :
      (s : Store) (key id : String) (ttl : ℕ) → Step s (set_idempotency_if_absent key id ttl s).1
  caches_ideas :
      (s : Store) (hash : String) (ideas : List Idea) (ttl : ℕ)
      → Step s (set_llm_cache hash ideas ttl s).1

pub data Reach (s : Store) : Store → Type 0 where
  here : Reach s s
  next : {t u : Store} → Reach s t → Step t u → Reach s u

new-IsLinked : IsLinked new
unfolding new
new-IsLinked = record { own_id = λ id r e. absurd (cc); linked = λ key id e. absurd (cc) }

-- Two facts about a written map, by the key that is read.
put_self {ℓ} :
    {V : Type ℓ} (m : String → Option V) (k j : String) (v u : V)
    → (k == j) ≡ true
    → put m k v j ≡ some u
    → v ≡ u
put_self m k j v u t e = ground arith

put_other {ℓ} :
    {V : Type ℓ} (m : String → Option V) (k j : String) (v : V) {o : Option V}
    → (k == j) ≡ false
    → put m k v j ≡ o
    → m j ≡ o
put_other m k j v t e = ground arith

module _ (s : Store) (h : IsLinked s) where
  insert-IsLinked :
      (r : Request)
      → s.requests r.id ≡ none
      → IsLinked (record s {
        requests = put s.requests r.id r;
        idem_by_key = put s.idem_by_key r.idempotency_key r.id;
      })
  insert-IsLinked r free = record {
    own_id = λ id q e. elim (Bool-cases (r.id == id)) [
      | inl t ↦ ap (λ x. x.id) (sym (put_self s.requests r.id id r q t e)) ∙ (eq_iff r.id id).0 t
      | inr f ↦ h.own_id id q (put_other s.requests r.id id r f e)
    ];
    linked = λ key id e. elim (Bool-cases (r.idempotency_key == key)) [
      | inl t ↦
          let same = put_self s.idem_by_key r.idempotency_key key r.id id t e in
          (r, rw ((eq_iff r.id id).1 same) refl, (eq_iff r.idempotency_key key).0 t)
      | inr f ↦
          let (q, known, keyed) =
            h.linked key id (put_other s.idem_by_key r.idempotency_key key r.id f e) in
          (
            q,
            elim (Bool-cases (r.id == id)) [
              | inl t ↦ absurd (cc (free, known, (eq_iff r.id id).0 t))
              | inr g ↦ rw g known
            ],
            keyed,
          )
    ];
  }

  create-IsLinked :
      (now : Time) (r : Request) → s.requests r.id ≡ none → IsLinked (create_request now r s).1
  unfolding create_request stamp_created
  create-IsLinked now r free = elim (Option-cases (s.idem_by_key r.idempotency_key)) [
    | inr (id, e) ↦ rw (e, create_request) h
    | inl e ↦ elim (Bool-cases (eqb r.created_at 0)) [
      | inl t ↦ rw (e, create_request, t) (insert-IsLinked (record r { created_at = now }) free)
      | inr t ↦ rw (e, create_request, t) (insert-IsLinked r free)
    ]
  ]

  replace-IsLinked :
      (id : String) (r r' : Request)
      → s.requests id ≡ some r
      → r'.id ≡ r.id
      → r'.idempotency_key ≡ r.idempotency_key
      → IsLinked (record s { requests = put s.requests id r' })
  replace-IsLinked id r r' known same_id same_key = record {
    own_id = λ j q e. elim (Bool-cases (id == j)) [
      | inl t ↦
          ground (arith, put_self s.requests id j r' q t e, h.own_id id r known, (eq_iff id j).0 t)
      | inr f ↦ h.own_id j q (put_other s.requests id j r' f e)
    ];
    linked = λ key j e.
        let (q, stored, keyed) = h.linked key j e in
        elim (Bool-cases (id == j)) [
          | inl t ↦ (r', rw t refl, ground (arith, (eq_iff id j).0 t))
          | inr f ↦ (q, rw f stored, keyed)
        ];
  }

  update-IsLinked :
      (id : String) (f : Request → Request)
      → ((r : Request) → (f r).id ≡ r.id)
      → ((r : Request) → (f r).idempotency_key ≡ r.idempotency_key)
      → IsLinked (update_request id f s).1
  unfolding update_request
  update-IsLinked id f keeps keeps_key = elim (Option-cases (s.requests id)) [
    | inl e ↦ rw (e, update_request) h
    | inr (r, e) ↦ rw (e, update_request) (replace-IsLinked id r (f r) e (keeps r) (keeps_key r))
  ]

  claim-IsLinked : (key id : String) (ttl : ℕ) → IsLinked (set_idempotency_if_absent key id ttl s).1
  unfolding set_idempotency_if_absent
  claim-IsLinked key id ttl = elim (Option-cases (s.idem_cache key)) [
    | inl e ↦ rw (e, set_idempotency_if_absent) (record { own_id = h.own_id; linked = h.linked })
    | inr (r, e) ↦ rw (e, set_idempotency_if_absent) h
  ]

Step-IsLinked : {s t : Store} → Step s t → IsLinked s → IsLinked t
unfolding set_request_status mark_refinement save_ideas save_idea_for_user set_status set_llm_cache
Step-IsLinked (creates s now r free) h = create-IsLinked s h now r free
Step-IsLinked (sets_request_status s id st) h = update-IsLinked s h id _ (λ r. refl) (λ r. refl)
Step-IsLinked (marks_refinement s id text) h = update-IsLinked s h id _ (λ r. refl) (λ r. refl)
Step-IsLinked (saves_ideas s id ideas) h = record { own_id = h.own_id; linked = h.linked }
Step-IsLinked (saves_for_user s user idea) h = record { own_id = h.own_id; linked = h.linked }
Step-IsLinked (sets_status s id info ttl) h = record { own_id = h.own_id; linked = h.linked }
Step-IsLinked (claims_key s key id ttl) h = claim-IsLinked s h key id ttl
Step-IsLinked (caches_ideas s hash ideas ttl) h = record { own_id = h.own_id; linked = h.linked }

-- In every store that its methods lead to from the empty one, requests stand under their own ids
-- and each idempotency key leads to a stored request that has this key.
pub reachable-IsLinked : (s : Store) → Reach new s → IsLinked s
reachable-IsLinked s here = new-IsLinked
reachable-IsLinked s (next r st) = Step-IsLinked st (reachable-IsLinked _ r)

-- In every store that its methods lead to from the empty one, GetRequestByIdempotencyKey never
-- dereferences nil: for an unknown key it returns ErrNotFound, and for a known one a request that
-- has the key.
pub by_key_safe :
    (s : Store) (key : String)
    → Reach new s
    → (get_request_by_idempotency_key key s ≡ err not_found)
      ⊎ ((r : Request) × (get_request_by_idempotency_key key s ≡ ok r) × (r.idempotency_key ≡ key))
unfolding get_request_by_idempotency_key
by_key_safe s key reached = elim (Option-cases (s.idem_by_key key)) [
  | inl e ↦ inl (ground arith)
  | inr (id, e) ↦
      let (r, known, keyed) = (reachable-IsLinked s reached).linked key id e in
      inr (r, ground arith, keyed)
]
