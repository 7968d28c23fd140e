-- ===== src/Poll/Server/Links.antt =====
-- A poll's link from its creation to its one submission, over the tables of `Poll.Store`.
use Prim.Native.String.{◌++◌}
use perfect_gift.Prelude.{
  inl, inr, Result, ◌∙◌, ℕ, ◌+◌, ◌*◌, ◌≤◌, ◌<◌, String, List, ◌≡◌, ◌≢◌, refl, ap, none, some, true,
  false, arith, eq_iff, eq_refl, ok, err, is_blank, put, GoMap,
}
use perfect_gift.Poll.Model.{Poll, Answer, completed, active, validate_questions, validate_answers}
use perfect_gift.Poll.Messages.{questions_from_proto, questions_to_proto}
use perfect_gift.Poll.Ports.{PollError, LinkedPoll, PollCompleted}
use perfect_gift.Poll.Store
use perfect_gift.Poll.Store.{Tables, Link, get_by_token_hash, complete_with_response}
use perfect_gift.Poll.Server.World.{
  World, IsBacked, AdmitsFetch, AdmitsSubmission, IsTurnedAway, fetch_call, token_call, ip_call,
}
use perfect_gift.Poll.Server.{
  Bool, submit_checked, Server, Context, Tuning, CreateRequest, CreateResponse, gone, second, limit,
  fetchable, subject_from, client_ip, expiry, get_poll_by_token, submit_response, create_poll,
  minted_poll, build_link_url, fingerprint,
}

-- A positive time to live of at most 9223372036 seconds is added to the clock exactly.
pub expiry_exact :
    (tune : Tuning) (ttl now : ℕ)
    → 0 < ttl
    → ttl ≤ 9_223_372_036
    → expiry tune ttl now ≡ now + ttl * second
unfolding expiry
expiry_exact tune ttl now positive bounded = ground arith

-- A longer one, up to twice that, wraps around: the poll has expired before it is created.
pub expiry_overflow :
    (tune : Tuning) (ttl now : ℕ)
    → 9_223_372_036 < ttl
    → ttl ≤ 18_446_744_073
    → 0 < now
    → expiry tune ttl now < now
unfolding expiry
expiry_overflow tune ttl now long bounded started = ground arith

module _ {L : Type 0} (s : Server (World L)) (row : String) (backed : IsBacked s row) where
  fetch :
      (ctx : Context) (now : ℕ) (raw : String) (w : World L) (l : Link) (p : Poll)
      → AdmitsFetch s ctx w
      → raw ≢ ""
      → w.tables.links (s.sha256_hex raw) ≡ some l
      → w.tables.polls l.poll_id ≡ some p
      → fetchable now
          (record { poll = p; link_revoked = l.revoked; link_expires_at = l.expires_at })
        ≡ true
      → get_poll_by_token s ctx now raw w ≡ (
        ok (record { poll_id = p.id; title = p.title; questions = questions_to_proto p.questions }),
        (fetch_call s ctx w).1,
      )
  unfolding get_poll_by_token get_by_token_hash fetchable limit
  fetch ctx now raw w l p admitted named linked known live = rw backed.over (
      ground (
        arith,
        eq_iff raw "",
        admitted,
        backed.limiter_keeps ("rl:fetch:ip:" ++ client_ip ctx) s.tune.per_ip_budget
            s.tune.per_ip_window w,
      ))

  pub completed_once :
      (t : Tables) (p : Poll) (answers : List Answer) (fp : String) (at : ℕ)
      → t.polls p.id ≡ some p
      → p.status ≡ active
      → ((complete_with_response row p.id answers fp at t).0 ≡ ok row)
        × ((complete_with_response row p.id answers fp at t).1.polls p.id
            ≡ some (record p { status = completed }))
        × ((complete_with_response row p.id answers fp at t).1.links ≡ t.links)
  unfolding complete_with_response
  completed_once t p answers fp at known live =
      rw (known, live) (refl, ground (arith, eq_refl p.id), refl)

  dead_fetch :
      (ctx : Context) (now : ℕ) (raw : String) (w : World L) (l : Link) (p : Poll)
      → raw ≢ ""
      → w.tables.links (s.sha256_hex raw) ≡ some l
      → w.tables.polls l.poll_id ≡ some p
      → p.status ≡ completed
      → (answer : Result PollError Bool) → (fetch_call s ctx w).0 ≡ answer
      → IsTurnedAway (get_poll_by_token s ctx now raw w).0
  unfolding get_poll_by_token get_by_token_hash fetchable limit
  dead_fetch ctx now raw w l p named linked known dead (ok true) said = inl (
      rw backed.over (
        ground (
          arith,
          eq_iff raw "",
          backed.limiter_keeps ("rl:fetch:ip:" ++ client_ip ctx) s.tune.per_ip_budget
              s.tune.per_ip_window w,
        )))
  dead_fetch ctx now raw w l p named linked known dead (ok false) said =
      inr (inl (ground (arith, eq_iff raw "")))
  dead_fetch ctx now raw w l p named linked known dead (err e) said =
      inr (inr (ground (arith, eq_iff raw "")))

  submission_keeps :
      (ctx : Context) (raw : String) (w : World L)
      → (ip_call s ctx (token_call s raw w).1).1.tables ≡ w.tables
  submission_keeps ctx raw w =
      backed.limiter_keeps ("rl:submit:ip:" ++ client_ip ctx) s.tune.per_ip_budget
        s.tune.per_ip_window (token_call s raw w).1
      ∙ backed.limiter_keeps ("rl:submit:token:" ++ s.sha256_hex raw) s.tune.per_token_budget
          s.tune.per_token_window w

  dead_check :
      (ctx : Context) (now at : ℕ) (raw : String) (answers : List Answer) (w : World L) (l : Link)
      (p : Poll)
      → w.tables.links (s.sha256_hex raw) ≡ some l
      → w.tables.polls l.poll_id ≡ some p
      → p.status ≡ completed
      → (submit_checked s ctx now at (s.sha256_hex raw) answers w).0 ≡ err gone
  unfolding submit_checked get_by_token_hash fetchable
  dead_check ctx now at raw answers w l p linked known dead = rw backed.over (ground arith)

  dead_submit :
      (ctx : Context) (now at : ℕ) (raw : String) (answers : List Answer) (w : World L) (l : Link)
      (p : Poll)
      → raw ≢ ""
      → w.tables.links (s.sha256_hex raw) ≡ some l
      → w.tables.polls l.poll_id ≡ some p
      → p.status ≡ completed
      → (first second : Result PollError Bool) → (token_call s raw w).0 ≡ first
      → (ip_call s ctx (token_call s raw w).1).0 ≡ second
      → IsTurnedAway (submit_response s ctx now at raw answers w).0
  unfolding submit_response limit
  dead_submit ctx now at raw answers w l p named linked known dead (err e) second one two =
      inr (inr (ground (arith, eq_iff raw "")))
  dead_submit ctx now at raw answers w l p named linked known dead (ok false) second one two =
      inr (inl (ground (arith, eq_iff raw "")))
  dead_submit ctx now at raw answers w l p named linked known dead (ok true) (err e) one two =
      inr (inr (ground (arith, eq_iff raw "")))
  dead_submit ctx now at raw answers w l p named linked known dead (ok true) (ok false) one two =
      inr (inl (ground (arith, eq_iff raw "")))
  dead_submit ctx now at raw answers w l p named linked known dead (ok true) (ok true) one two =
      let v = (ip_call s ctx (token_call s raw w).1).1 in
      let same : v.tables ≡ w.tables = submission_keeps ctx raw w in
      let checked = dead_check ctx now at raw answers v l p (cc) (cc) dead in
      inl (ground (arith, eq_iff raw ""))

  pub fetchable-active :
      (now : ℕ) (lp : LinkedPoll) → fetchable now lp ≡ true → lp.poll.status ≡ active
  unfolding fetchable
  fetchable-active now lp live = ground arith

  first_check :
      (ctx : Context) (now at : ℕ) (raw : String) (answers : List Answer) (w : World L) (u : Tables)
      (l : Link) (p : Poll)
      → w.tables.links (s.sha256_hex raw) ≡ some l
      → w.tables.polls l.poll_id ≡ some p
      → fetchable now
          (record { poll = p; link_revoked = l.revoked; link_expires_at = l.expires_at })
        ≡ true
      → validate_answers p.questions answers ≡ none
      → complete_with_response row p.id answers (fingerprint s ctx (client_ip ctx)) at w.tables
        ≡ (ok row, u)
      → ((submit_checked s ctx now at (s.sha256_hex raw) answers w).0 ≡ ok true)
        × ((submit_checked s ctx now at (s.sha256_hex raw) answers w).1.tables ≡ u)
  unfolding submit_checked get_by_token_hash
  first_check ctx now at raw answers w u l p linked known live valid done =
      let e : PollCompleted = record {
        poll_id = p.id;
        surprise_request_id = p.surprise_request_id;
        owner_user_id = p.owner_user_id;
        completed_at = at;
      } in
      rw backed.over (ground (arith, backed.publisher_keeps e (record w { tables = u })))

  pub first_submit :
      (ctx : Context) (now at : ℕ) (raw : String) (answers : List Answer) (w : World L) (u : Tables)
      (l : Link) (p : Poll)
      → AdmitsSubmission s ctx raw w
      → raw ≢ ""
      → w.tables.links (s.sha256_hex raw) ≡ some l
      → w.tables.polls l.poll_id ≡ some p
      → fetchable now
          (record { poll = p; link_revoked = l.revoked; link_expires_at = l.expires_at })
        ≡ true
      → validate_answers p.questions answers ≡ none
      → complete_with_response row p.id answers (fingerprint s ctx (client_ip ctx)) at w.tables
        ≡ (ok row, u)
      → ((submit_response s ctx now at raw answers w).0 ≡ ok true)
        × ((submit_response s ctx now at raw answers w).1.tables ≡ u)
  unfolding submit_response limit
  first_submit ctx now at raw answers w u l p admitted named linked known live valid done =
      let v = (ip_call s ctx (token_call s raw w).1).1 in
      let same : v.tables ≡ w.tables = submission_keeps ctx raw w in
      let checked =
        first_check ctx now at raw answers v u l p (cc) (cc) live valid (rw same done) in
      ground (arith, eq_iff raw "", admitted, checked)

  -- A submission with valid answers, through a link that is still good, is accepted when the rate
  -- limiter admits it. From then on, at any time, for any client and whatever the limiter has
  -- counted meanwhile, while the tables stay as the submission left them, the link answers
  -- NotFound to a fetch and to another submission, unless the limiter refuses them or fails. The
  -- poll is filed under its own id, and limiter and publisher leave the tables alone.
  pub link_used_up :
      (ctx : Context) (now at : ℕ) (raw : String) (answers : List Answer) (w : World L) (l : Link)
      (p : Poll) (ctx' : Context) (now' at' : ℕ) (answers' : List Answer) (v : World L)
      → AdmitsSubmission s ctx raw w
      → raw ≢ ""
      → w.tables.links (s.sha256_hex raw) ≡ some l
      → w.tables.polls l.poll_id ≡ some p
      → p.id ≡ l.poll_id
      → fetchable now
          (record { poll = p; link_revoked = l.revoked; link_expires_at = l.expires_at })
        ≡ true
      → validate_answers p.questions answers ≡ none
      → v.tables ≡ (submit_response s ctx now at raw answers w).1.tables
      → ((submit_response s ctx now at raw answers w).0 ≡ ok true)
        × IsTurnedAway (get_poll_by_token s ctx' now' raw v).0
        × IsTurnedAway (submit_response s ctx' now' at' raw answers' v).0
  link_used_up ctx now at raw answers w l p ctx' now' at' answers' v admitted named linked known own
        live valid later =
      let fp = fingerprint s ctx (client_ip ctx) in
      let done = complete_with_response row p.id answers fp at w.tables in
      let once = completed_once w.tables p answers fp at (cc) (
        fetchable-active now
          (record { poll = p; link_revoked = l.revoked; link_expires_at = l.expires_at }) live) in
      let (accepted, left) =
        first_submit ctx now at raw answers w done.1 l p admitted named linked known live valid
          (ap (λ r. (r, done.1)) once.0) in
      let q = record p { status = completed } in
      let linked_later : v.tables.links (s.sha256_hex raw) ≡ some l = rw (later, left) (cc) in
      let known_later : v.tables.polls l.poll_id ≡ some q = rw (later, left) (cc) in
      (
        accepted,
        dead_fetch ctx' now' raw v l q named linked_later known_later refl (fetch_call s ctx' v).0
            refl,
        dead_submit ctx' now' at' raw answers' v l q named linked_later known_later refl
            (token_call s raw v).0 (ip_call s ctx' (token_call s raw v).1).0 refl refl,
      )

  create_stores :
      (ctx : Context) (owner id raw : String) (now : ℕ) (req : CreateRequest) (w : World L)
      → subject_from ctx ≡ some owner
      → is_blank req.title ≡ false
      → validate_questions (questions_from_proto req.questions) ≡ none
      → w.tables.polls id ≡ none
      → w.tables.links (s.sha256_hex raw) ≡ none
      → create_poll s ctx id now (some raw) req w ≡ (
        ok (record {
          poll_id = id;
          link_token = raw;
          link_url = build_link_url s raw;
          expires_at = s.rfc3339 (expiry s.tune req.ttl_seconds now);
        }),
        record w {
          tables = record w.tables {
            polls = put w.tables.polls id (minted_poll s id owner now req);
            links = put w.tables.links (s.sha256_hex raw) (record {
              poll_id = id;
              expires_at = expiry s.tune req.ttl_seconds now;
              revoked = false;
            });
          };
        },
      )
  unfolding create_poll minted_poll Store.create_poll
  create_stores ctx owner id raw now req w signed titled valid fresh unused =
      rw backed.over (ground arith)

  put_same : {V : Type 0} (m : GoMap V) (k : String) (v : V) → put m k v k ≡ some v
  put_same m k v = ground (arith, eq_refl k)

  minted_fetchable :
      (id owner : String) (now later : ℕ) (req : CreateRequest)
      → later ≤ expiry s.tune req.ttl_seconds now
      → fetchable later (record {
        poll = minted_poll s id owner now req;
        link_revoked = false;
        link_expires_at = expiry s.tune req.ttl_seconds now;
      })
        ≡ true
  unfolding fetchable minted_poll
  minted_fetchable id owner now later req early = ground arith

  -- A signed-in owner's valid poll, under a new id and a new token, is stored, and the token that
  -- CreatePoll answers opens it: until it expires, any client whose fetch the rate limiter admits
  -- reads its id, its title and its questions with the token, while the tables stay as CreatePoll
  -- left them. Limiter and publisher leave the tables alone.
  pub created_link_opens :
      (ctx : Context) (owner id raw : String) (now : ℕ) (req : CreateRequest) (w : World L)
      (ctx' : Context) (later : ℕ) (v : World L)
      → subject_from ctx ≡ some owner
      → is_blank req.title ≡ false
      → validate_questions (questions_from_proto req.questions) ≡ none
      → w.tables.polls id ≡ none
      → w.tables.links (s.sha256_hex raw) ≡ none
      → raw ≢ ""
      → later ≤ expiry s.tune req.ttl_seconds now
      → v.tables ≡ (create_poll s ctx id now (some raw) req w).1.tables
      → AdmitsFetch s ctx' v
      → (made : CreateResponse) × ((create_poll s ctx id now (some raw) req w).0 ≡ ok made)
        × (made.link_token ≡ raw)
        × ((get_poll_by_token s ctx' later made.link_token v).0
            ≡ ok (record {
              poll_id = made.poll_id;
              title = req.title;
              questions = questions_to_proto (questions_from_proto req.questions);
            }))
  unfolding minted_poll
  created_link_opens ctx owner id raw now req w ctx' later v signed titled valid fresh unused named
        early kept admitted =
      let made : CreateResponse = record {
        poll_id = id;
        link_token = raw;
        link_url = build_link_url s raw;
        expires_at = s.rfc3339 (expiry s.tune req.ttl_seconds now);
      } in
      let p = minted_poll s id owner now req in
      let l : Link = record {
        poll_id = id;
        expires_at = expiry s.tune req.ttl_seconds now;
        revoked = false;
      } in
      let stored = create_stores ctx owner id raw now req w signed titled valid fresh unused in
      let same = kept ∙ ap (λ x. x.1.tables) stored in
      (
        made,
        ap (λ x. x.0) stored,
        refl,
        ap (λ x. x.0)
            (fetch ctx' later raw v l p admitted named
              (ap (λ t. t.links (s.sha256_hex raw)) same
                ∙ put_same w.tables.links (s.sha256_hex raw) l)
              (ap (λ t. t.polls id) same ∙ put_same w.tables.polls id p)
              (minted_fetchable id owner now later req early)),
      )
