-- ===== src/Logkit/Chunks.antt =====
-- What the posting of a list, chunk after chunk, has done when it stops.
use mathlib.Core.List.{map-append, append_assoc, append-nil}
use perfect_gift.Prelude.{
  ◌⊎◌, ℕ, zero, suc, ◌≤◌, ◌<◌, ◌≡◌, refl, ap, subst, sym, ◌∙◌, arith, true, false, List, [], ◌∷◌,
  ◌++◌, length, All, take, drop, take-drop, length-drop, All-take, All-drop, Bool-cases,
  Option-cases, inl, inr,
}
use perfect_gift.Logkit.Record.{Record}
use perfect_gift.Logkit.Options.{Options}
use perfect_gift.Logkit.Posting.{Outside, post, post_body, endpoint, post_chunks}
use perfect_gift.Logkit.Transport.{Head, heads, IsTransport}

module _ {S : Type 0} (out : Outside S) (opts : Options) {P : Record → Type 0} {limit : ℕ}
    {stored : S → List Head} (t : IsTransport out P limit stored) where
  post_stores :
      (rs : List Record) (s : S)
      → All P rs
      → (post out opts rs s).0 ≡ true
      → stored (post out opts rs s).1 ≡ stored s ++ heads rs
  unfolding post post_body
  post_stores rs s ps h = elim (Option-cases (out.marshal_body rs)) [
    | inl e ↦ absurd (ground arith)
    | inr (body, e) ↦ ground (arith, t.stores rs (endpoint out opts) body s ps e)
  ]

  pub post_remembers :
      (rs : List Record) (s : S)
      → (more : List Head) × (stored (post out opts rs s).1 ≡ stored s ++ more)
  unfolding post post_body
  post_remembers rs s = elim (Option-cases (out.marshal_body rs)) [
    | inl e ↦ ([], rw append-nil (ground arith))
    | inr (body, e) ↦ elim (Bool-cases (out.is_url (endpoint out opts))) [
      | inl u ↦ let (more, m) = t.remembers (endpoint out opts) body s in (more, ground (arith))
      | inr u ↦ ([], rw append-nil (ground arith))
    ]
  ]

  pub heads-take-drop :
      (n : ℕ) (rs : List Record) → heads (take n rs) ++ heads (drop n rs) ≡ heads rs
  heads-take-drop n rs = sym (map-append _ (take n rs) (drop n rs)) ∙ ap heads (take-drop n rs)

  pub post_chunks_cons :
      (fuel : ℕ) (r : Record) (rs : List Record) (s : S)
      → (post out opts (take opts.batch_size (r ∷ rs)) s).0 ≡ true
      → post_chunks out opts (suc fuel) (r ∷ rs) s
        ≡ post_chunks out opts fuel
            (drop opts.batch_size (r ∷ rs))
            (post out opts (take opts.batch_size (r ∷ rs)) s).1
  unfolding post_chunks
  post_chunks_cons fuel r rs s e = ground arith

  post_chunks_stop :
      (fuel : ℕ) (r : Record) (rs : List Record) (s : S)
      → (post out opts (take opts.batch_size (r ∷ rs)) s).0 ≡ false
      → post_chunks out opts (suc fuel) (r ∷ rs) s
        ≡ (r ∷ rs, (post out opts (take opts.batch_size (r ∷ rs)) s).1)
  unfolding post_chunks
  post_chunks_stop fuel r rs s e = ground arith

  -- The records split into those that were posted and those that are left.
  pub record IsSplit (rs : List Record) (s : S) (x : List Record × S) : Type 0 where
    pub sent : List Record
    pub more : List Head
    pub splits : rs ≡ sent ++ x.0
    pub left_All : All P x.0
    pub has : stored x.1 ≡ stored s ++ (heads sent ++ more)

  IsSplit-none : (rs : List Record) (s : S) → All P rs → IsSplit rs s (rs, s)
  IsSplit-none rs s ps = record {
    sent = [];
    more = [];
    splits = refl;
    left_All = ps;
    has = sym (append-nil _);
  }

  IsSplit-stop :
      (rs chunk : List Record) (s : S) → All P rs → IsSplit rs s (rs, (post out opts chunk s).1)
  IsSplit-stop rs chunk s ps =
      let (more, m) = post_remembers chunk s in
      record { sent = []; more = more; splits = refl; left_All = ps; has = m }

  IsSplit-cons :
      (n : ℕ) (rs : List Record) (s : S) (x : List Record × S)
      → All P rs
      → (post out opts (take n rs) s).0 ≡ true
      → IsSplit (drop n rs) (post out opts (take n rs) s).1 x
      → IsSplit rs s x
  IsSplit-cons n rs s x ps e h = record {
    sent = take n rs ++ h.sent;
    more = h.more;
    splits =
        sym (take-drop n rs)
        ∙ ap (λ k. take n rs ++ k) h.splits
        ∙ sym (append_assoc (take n rs) h.sent x.0);
    left_All = h.left_All;
    has =
        h.has
        ∙ ap (λ k. k ++ (heads h.sent ++ h.more)) (post_stores (take n rs) s (All-take P n rs ps) e)
        ∙ append_assoc (stored s) (heads (take n rs)) _
        ∙ ap (λ k. stored s ++ k)
            (sym (append_assoc (heads (take n rs)) (heads h.sent) h.more)
              ∙ ap (λ k. k ++ h.more) (sym (map-append _ (take n rs) h.sent)));
  }

  pub post_chunks-IsSplit :
      (fuel : ℕ) (rs : List Record) (s : S)
      → All P rs
      → IsSplit rs s (post_chunks out opts fuel rs s)
  unfolding post_chunks
  post_chunks-IsSplit zero [] s ps = IsSplit-none [] s ps
  post_chunks-IsSplit (suc fuel) [] s ps = IsSplit-none [] s ps
  post_chunks-IsSplit zero (r ∷ rs) s ps = IsSplit-none (r ∷ rs) s ps
  post_chunks-IsSplit (suc fuel) (r ∷ rs) s ps =
      elim (Bool-cases (post out opts (take opts.batch_size (r ∷ rs)) s).0) [
        | inl e ↦ subst (IsSplit (r ∷ rs) s) (sym (post_chunks_cons fuel r rs s e)) (
            IsSplit-cons opts.batch_size (r ∷ rs) s _ ps e (
              post_chunks-IsSplit fuel (drop opts.batch_size (r ∷ rs)) _
                (All-drop P opts.batch_size (r ∷ rs) ps)))
        | inr e ↦
            subst (IsSplit (r ∷ rs) s) (sym (post_chunks_stop fuel r rs s e))
              (IsSplit-stop (r ∷ rs) _ s ps)
      ]

  -- While every post succeeds, all is posted: one chunk at least for each unit of fuel.
  pub post_chunks_healthy :
      (H : S → Type 0)
      → ((rs : List Record) (s : S)
          → All P rs
          → H s
          → ((post out opts rs s).0 ≡ true) × H (post out opts rs s).1)
      → 0 < opts.batch_size
      → (fuel : ℕ) (rs : List Record) (s : S) → length rs ≤ fuel
      → All P rs
      → H s
      → (s' : S) × (post_chunks out opts fuel rs s ≡ ([], s'))
        × (H s')
        × (stored s' ≡ stored s ++ heads rs)
  unfolding post_chunks
  post_chunks_healthy H ok b zero [] s n ps h = (s, refl, h, sym (append-nil _))
  post_chunks_healthy H ok b (suc fuel) [] s n ps h = (s, refl, h, sym (append-nil _))
  post_chunks_healthy H ok b zero (r ∷ rs) s n ps h = absurd (omega arith)
  post_chunks_healthy H ok b (suc fuel) (r ∷ rs) s n ps h =
      let (e, h1) =
        ok (take opts.batch_size (r ∷ rs)) s (All-take P opts.batch_size (r ∷ rs) ps) h in
      let (s', run, h', has) =
        post_chunks_healthy H ok b fuel (drop opts.batch_size (r ∷ rs))
          (post out opts (take opts.batch_size (r ∷ rs)) s).1
          (omega (arith, length-drop opts.batch_size (r ∷ rs)))
          (All-drop P opts.batch_size (r ∷ rs) ps) h1 in
      (
        s',
        post_chunks_cons fuel r rs s e ∙ run,
        h',
        has
            ∙ ap (λ k. k ++ heads (drop opts.batch_size (r ∷ rs)))
                (post_stores _ s (All-take P opts.batch_size (r ∷ rs) ps) e)
            ∙ append_assoc (stored s) (heads (take opts.batch_size (r ∷ rs))) _
            ∙ ap (λ k. stored s ++ k) (heads-take-drop opts.batch_size (r ∷ rs)),
      )

-- The loop stops at the end of the list or at a chunk that fails, never for want of fuel.
module _ {S : Type 0} (out : Outside S) (opts : Options) (b : 0 < opts.batch_size) where
  abbrev Stops : List Record → Type 0
  Stops left = (left ≡ []) ⊎ ((s : S) × ((post out opts (take opts.batch_size left) s).0 ≡ false))

  pub post_chunks-Stops :
      (fuel : ℕ) (rs : List Record) (s : S)
      → length rs ≤ fuel
      → Stops (post_chunks out opts fuel rs s).0
  unfolding post_chunks
  post_chunks-Stops zero [] s n = inl refl
  post_chunks-Stops (suc fuel) [] s n = inl refl
  post_chunks-Stops zero (r ∷ rs) s n = absurd (omega arith)
  post_chunks-Stops (suc fuel) (r ∷ rs) s n =
      let p = post out opts (take opts.batch_size (r ∷ rs)) s in
      elim (Bool-cases p.0) [
        | inl e ↦ subst Stops (ground arith) (
            post_chunks-Stops fuel (drop opts.batch_size (r ∷ rs)) p.1
              (omega (arith, length-drop opts.batch_size (r ∷ rs))))
        | inr e ↦ subst Stops (ground arith) (inr (s, e))
      ]
