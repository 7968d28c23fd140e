-- ===== src/Tests/Jobs.antt =====
-- The Surprise worker's generation job at concrete inputs.
use perfect_gift.Prelude.{
  inr, ◌&&◌, inl, err, not, ◌==◌, Bool-cases, Bool, if◌then◌else◌, ◌≢◌, eq_iff, ℕ, suc, String, [],
  ◌∷◌, ◌≡◌, refl, none, true, ok, arith, map, keep, put,
}
use perfect_gift.Surprise.Types.{failure, Request, Idea, queued, opus, other_moderation}
use perfect_gift.Surprise.Llm.{Client}
use perfect_gift.Surprise.Memory.{new}
use perfect_gift.Surprise.Bus.{World}
use perfect_gift.Surprise.Server.{ServerConfig}
use perfect_gift.Surprise.Serving.{Reads, owner_sees_outcome}
use perfect_gift.Surprise.Pipeline.{run, hash, moderate_validate_rank}
use perfect_gift.Surprise.Pipeline.Ranking.{
  Amounts, content, acceptable, moderate_validate_rank-keep,
}
use perfect_gift.Surprise.Pipeline.Outcomes.{Outside, over_memory, Ends, offered, run-Ends}

abbrev asked : Request
asked = record {
  id = "r1";
  user_id = "ann";
  holiday_id = "xmas";
  budget_band = "mid";
  preferences_text = "books";
  poll_id = "";
  idempotency_key = "k1";
  status = queued;
  tier = opus;
  refinement = "";
  created_at = 7;
}

abbrev candidate : String → Idea
candidate title = record {
  id = "";
  request_id = "";
  title = title;
  why_it_fits = "";
  rough_cost = "";
  how_to = "";
  rank = 0;
  moderation = other_moderation "";
  embedding = [];
  created_at = 0;
}

-- A model that offers a book and something without a title, and approves of everything; it counts
-- its calls.
abbrev librarian : Client ℕ
librarian = record {
  generate_ideas = λ params m. (
    ok (
        record { title = "a book"; why_it_fits = ""; rough_cost = ""; how_to = "" }
        ∷ record { title = " "; why_it_fits = ""; rough_cost = ""; how_to = "" }
        ∷ []),
    suc m,
  );
  moderate = λ text m. (ok true, suc m);
  embed = λ text m. (([], none), m);
}

abbrev outside : Outside ℕ
outside = record {
  llm = librarian;
  poll = none;
  catalog = none;
  cfg = record { ideas_wanted = 5; status_ttl = 0; llm_cache_ttl = 0 };
  to_lower = λ s. s;
  sha256_hex = λ s. s;
}

-- A model that refuses knives and fails on ghosts.
abbrev picky : Client ℕ
picky = record librarian {
  moderate = λ text m. (
    if text == "a ghost. . " then err (failure "timeout") else ok (not (text == "a knife. . ")),
    suc m,
  );
}

abbrev with_picky : Outside ℕ
with_picky = record outside { llm = picky }

abbrev uuid : ℕ → String
uuid k = "i"

abbrev waiting : World
waiting = record {
  store = record new { requests = put new.requests "r1" asked };
  bus = record { jobs = []; ready = [] };
}

abbrev with_cache : World
with_cache = record waiting {
  store = record waiting.store {
    llm_cache = put new.llm_cache (hash (over_memory 7 outside) asked) (candidate "a pen" ∷ []);
  };
}

abbrev verdict : String → Bool
verdict text = not (text == "a knife. . ") && not (text == "a ghost. . ")

picky-Amounts : (text : String) (m : ℕ) → Amounts (verdict text) (picky.moderate text m).0
picky-Amounts text m = elim (Bool-cases (text == "a ghost. . ")) [
  | inl ghost ↦ rw ghost (elim (Bool-cases (text == "a knife. . ")) [
    | inl knife ↦ rw knife (inr (failure "timeout", refl))
    | inr none_found ↦ rw none_found (inr (failure "timeout", refl))
  ])
  | inr none_found ↦ rw none_found (elim (Bool-cases (text == "a knife. . ")) [
    | inl knife ↦ rw knife (inl refl)
    | inr harmless ↦ rw harmless refl
  ])
]

moderate_validate_rank-keep_example :
    map content
      (moderate_validate_rank
        (over_memory 7 with_picky)
        asked
        uuid
        8
        (candidate "" ∷ candidate "a knife" ∷ candidate "a ghost" ∷ candidate "a pen" ∷ [])
        0).0
    ≡ keep (acceptable verdict) (
        map content
          (candidate "" ∷ candidate "a knife" ∷ candidate "a ghost" ∷ candidate "a pen" ∷ []))
moderate_validate_rank-keep_example =
    moderate_validate_rank-keep (over_memory 7 with_picky) asked uuid 8 verdict picky-Amounts
      (candidate "" ∷ candidate "a knife" ∷ candidate "a ghost" ∷ candidate "a pen" ∷ []) 0

run-Ends_example :
    Ends 7 with_picky asked uuid 8 verdict picky-Amounts waiting 0
      (run (over_memory 7 with_picky) uuid 8 (record { request_id = "r1"; tier = opus }) waiting 0)
unfolding new
run-Ends_example = run-Ends 7 with_picky asked uuid 8 verdict picky-Amounts opus waiting 0 refl

abbrev no_ttl : ServerConfig
no_ttl = record { status_ttl = 0; idempotency_ttl = 0 }

r1_named : ◌≢◌ {A = String} "r1" ""
r1_named = ground (arith, eq_iff "r1" "")

owner_sees_outcome_example :
    let w =
      (run
        (over_memory 7 with_picky)
        uuid
        8
        (record { request_id = "r1"; tier = opus })
        waiting
        0).1 in
    Reads 7 no_ttl asked r1_named with_picky uuid 8 verdict picky-Amounts
      (offered 7 with_picky asked uuid 8 waiting 0)
      w
unfolding new
owner_sees_outcome_example =
    owner_sees_outcome 7 no_ttl asked r1_named with_picky uuid 8 verdict picky-Amounts opus waiting
      0 refl
