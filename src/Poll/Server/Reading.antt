-- ===== src/Poll/Server/Reading.antt =====
-- The owner's reading of what was submitted through the link.
use perfect_gift.Prelude.{
  ◌∙◌, ℕ, String, List, [], ◌∷◌, ◌≡◌, ◌≢◌, ap, some, none, true, ok, arith, eq_iff, eq_refl,
}
use perfect_gift.Poll.Store.Responses.{get_responses-complete_with_response}
use perfect_gift.Poll.Model.{Response, Poll, Answer, completed, validate_answers}
use perfect_gift.Poll.Store
use perfect_gift.Poll.Store.{
  Tables, Link, ResponseRow, rows_of, sort_by_time, complete_with_response, get_poll_by_id,
}
use perfect_gift.Poll.Server.{
  Server, Context, fetchable, subject_from, client_ip, fingerprint, submit_response, get_responses,
  response_message,
}
use perfect_gift.Poll.Server.World.{World, IsBacked, AdmitsSubmission}
use perfect_gift.Poll.Server.Links.{completed_once, first_submit, fetchable-active}

module _ {L : Type 0} (s : Server (World L)) (row : String) (backed : IsBacked s row) where
  responses_read :
      (reader : Context) (p : Poll) (r : Response) (w : World L)
      → subject_from reader ≡ some p.owner_user_id
      → p.id ≢ ""
      → w.tables.polls p.id ≡ some (record p { status = completed })
      → Store.get_responses p.id w.tables ≡ ok (r ∷ [])
      → get_responses s reader p.id w ≡ (
        ok (
            record { id = r.id; answers = r.answers; submitted_at = s.rfc3339 r.submitted_at }
            ∷ []),
        w,
      )
  unfolding get_responses get_poll_by_id response_message
  responses_read reader p r w signed some_id stored listed =
      rw backed.over (ground (arith, eq_iff p.id "", eq_refl p.owner_user_id))

  -- A poll without responses, and a submission with valid answers through its link, which is
  -- still good, that the rate limiter admits: the submission is accepted, and from then on, while
  -- the tables stay as it left them, the owner's GetResponses returns these answers alone, with
  -- the time of the submission. The poll is filed under its own id, which is not empty, and
  -- limiter and publisher leave the tables alone.
  pub owner_reads_answers :
      (ctx : Context) (now at : ℕ) (raw : String) (answers : List Answer) (w : World L) (l : Link)
      (p : Poll) (reader : Context) (v : World L)
      → AdmitsSubmission s ctx raw w
      → raw ≢ ""
      → w.tables.links (s.sha256_hex raw) ≡ some l
      → w.tables.polls l.poll_id ≡ some p
      → p.id ≡ l.poll_id
      → p.id ≢ ""
      → fetchable now
          (record { poll = p; link_revoked = l.revoked; link_expires_at = l.expires_at })
        ≡ true
      → validate_answers p.questions answers ≡ none
      → rows_of p.id w.tables.responses ≡ []
      → subject_from reader ≡ some p.owner_user_id
      → v.tables ≡ (submit_response s ctx now at raw answers w).1.tables
      → ((submit_response s ctx now at raw answers w).0 ≡ ok true)
        × (get_responses s reader p.id v
            ≡ (ok (record { id = row; answers = answers; submitted_at = s.rfc3339 at } ∷ []), v))
  owner_reads_answers ctx now at raw answers w l p reader v admitted named linked known own some_id
        live valid empty signed later =
      let fp = fingerprint s ctx (client_ip ctx) in
      let done = complete_with_response row p.id answers fp at w.tables in
      let active_now =
        fetchable-active s row backed now
          (record { poll = p; link_revoked = l.revoked; link_expires_at = l.expires_at }) live in
      let once = completed_once s row backed w.tables p answers fp at (cc) active_now in
      let (accepted, left) =
        first_submit s row backed ctx now at raw answers w done.1 l p admitted named linked known
          live valid (ap (λ r. (r, done.1)) once.0) in
      let same = later ∙ left in
      (
        accepted,
        responses_read reader p (record { id = row; answers = answers; submitted_at = at }) v signed
            some_id (ap (λ t. t.polls p.id) same ∙ once.1)
            (ap (λ t. Store.get_responses p.id t) same
              ∙ get_responses-complete_with_response row p answers fp at w.tables (cc) active_now
                  empty),
      )
