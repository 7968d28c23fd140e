-- ===== src/Tests/Edge.antt =====
-- The gateway's limiter at a concrete run of calls.
use perfect_gift.Prelude.{[], ◌∷◌, ◌≡◌, arith}
use perfect_gift.Gateway.RateLimit.{new_window}
use perfect_gift.Gateway.RateLimit.Bounds.{Calls, admitted, asked, least, admitted-new_window}

-- Two more calls of ann's, and one of bob's between them.
abbrev later_calls : Calls
later_calls = ("ann", 4) ∷ ("bob", 5) ∷ ("ann", 6) ∷ []

admitted-new_window_example :
    admitted "ann" (("ann", 3) ∷ later_calls) (new_window 2 10)
    ≡ least 2 (asked "ann" (("ann", 3) ∷ later_calls))
admitted-new_window_example =
    admitted-new_window 2 10 "ann" 3 later_calls (omega arith)
      (omega arith, (omega arith, (omega arith, tt)))
