-- ===== src/Notification/Dispatcher/Delivery/Ending.antt =====
-- A row that is dispatched whenever it is pending.
use perfect_gift.Prelude.{
  ℕ, zero, suc, ◌+◌, ◌≤◌, ◌<◌, String, List, [], ◌∷◌, true, false, ◌≡◌, refl, sym, subst, Option,
  none, some, Bool-cases, inl, inr, arith, eq_iff, if◌then◌else◌,
}
use perfect_gift.Notification.Types.{Outbox}
use perfect_gift.Notification.Ports.{Pusher}
use perfect_gift.Notification.Tables.{as_sent, as_rescheduled, as_failed, is_pending}
use perfect_gift.Notification.Dispatcher.{Dispatcher, DispatcherConfig, dispatch}
use perfect_gift.Notification.Dispatcher.Delivery.{
  World, over_tables, row_of, Settles, dispatch-Settles,
}

module _ {M : Type 0} (new_id : String) (p : Pusher M) (cfg : DispatcherConfig)
    (now : World M → ℕ) where
  abbrev d : Dispatcher (World M)
  d = over_tables new_id p cfg now

  -- A row that is dispatched again as long as it is pending, at most so many times.
  again : Option Outbox → World M → World M
  again none w = w
  again (some r) w = if is_pending r.status then (dispatch d r w).1 else w

  pub deliver : ℕ → String → World M → World M
  unfolding again
  deliver zero id w = w
  deliver (suc n) id w = deliver n id (again (row_of id w.tables.notifications) w)

  deliver_done :
      (n : ℕ) (id : String) (r : Outbox) (w : World M)
      → row_of id w.tables.notifications ≡ some r
      → is_pending r.status ≡ false
      → deliver n id w ≡ w
  unfolding deliver
  deliver_done zero id r w known ended = refl
  deliver_done (suc n) id r w known ended = rw known (rw ended (deliver_done n id r w known ended))

  row_of-id : (id : String) (r : Outbox) (rows : List Outbox) → row_of id rows ≡ some r → r.id ≡ id
  unfolding row_of
  row_of-id id r [] h = absurd (cc)
  row_of-id id r (q ∷ qs) h = ground (arith, eq_iff q.id id, row_of-id id r qs)

  abbrev pub HasEnded : String → World M → Type 0
  HasEnded id w =
      (r : Outbox) × (row_of id w.tables.notifications ≡ some r) × (is_pending r.status ≡ false)

  deliver_again :
      (n : ℕ) (id : String) (r : Outbox) (w : World M)
      → row_of id w.tables.notifications ≡ some r
      → is_pending r.status ≡ true
      → deliver (suc n) id w ≡ deliver n id (dispatch d r w).1
  unfolding deliver
  deliver_again n id r w known waiting = rw known (rw waiting refl)

  done-HasEnded :
      (n : ℕ) (id : String) (r : Outbox) (w : World M)
      → row_of id w.tables.notifications ≡ some r
      → is_pending r.status ≡ false
      → HasEnded id (deliver n id w)
  done-HasEnded n id r w known ended = rw (deliver_done n id r w known ended) (r, known, ended)

  settled-HasEnded :
      (n : ℕ) (id : String) (r : Outbox) (w : World M)
      → r.id ≡ id
      → Settles new_id p cfg now r r w
      → cfg.max_attempts ≤ r.attempts + suc n
      → ((q : Outbox)
          → row_of id w.tables.notifications ≡ some q
          → 0 < n
          → cfg.max_attempts ≤ q.attempts + n
          → HasEnded id (deliver n id w))
      → HasEnded id (deliver n id w)
  settled-HasEnded n id r w own (inl (at, k)) enough later =
      done-HasEnded n id (as_sent at r) w (rw (← own) k) refl
  settled-HasEnded n id r w own (inr (inl (spent, k))) enough later =
      done-HasEnded n id (as_failed r) w (rw (← own) k) refl
  settled-HasEnded n id r w own (inr (inr (more, next, k))) enough later =
      later (as_rescheduled (r.attempts + 1) next r) (rw (← own) k) (omega arith) (omega arith)

  -- A stored row that is dispatched whenever it is pending ends as sent or as failed after at most
  -- as many dispatches as MaxAttempts leaves it, and at least one, whatever the providers answer.
  pub deliver_ends :
      (n : ℕ) (id : String) (r : Outbox) (w : World M)
      → row_of id w.tables.notifications ≡ some r
      → 0 < n
      → cfg.max_attempts ≤ r.attempts + n
      → HasEnded id (deliver n id w)
  deliver_ends zero id r w known positive enough = absurd (omega arith)
  deliver_ends (suc n) id r w known positive enough = elim (Bool-cases (is_pending r.status)) [
    | inr ended ↦ done-HasEnded (suc n) id r w known ended
    | inl waiting ↦
        let own = row_of-id id r w.tables.notifications known in
        let w' = (dispatch d r w).1 in
        let settled =
          dispatch-Settles new_id p cfg now r r w
            (subst (λ k. row_of k w.tables.notifications ≡ some r) (sym own) known) in
        subst (HasEnded id) (sym (deliver_again n id r w known waiting))
          (settled-HasEnded n id r w' own settled enough (λ q k p e. deliver_ends n id q w' k p e))
  ]
