-- ===== src/RateLimit/Tests.antt =====
-- Two keys, two attempts in a window of ten ticks.
use court.Base.{ℕ, ◌≡◌, refl, arith, true, false, List, [], ◌∷◌}
use court.RateLimit.{no_attempts, check}
use court.RateLimit.Window.{expected}
use court.RateLimit.Keys.{of_key, decide_all, check_refines}

abbrev requests : List (ℕ × ℕ)
requests = (1, 3) ∷ (2, 4) ∷ (1, 5) ∷ (1, 12) ∷ (1, 13) ∷ (2, 13) ∷ []

decided_example : of_key 1 (decide_all 2 10 requests no_attempts) ≡ true ∷ true ∷ false ∷ true ∷ []
unfolding decide_all check
decided_example = refl

check_refines_example :
    of_key 1 (decide_all 2 10 requests no_attempts) ≡ expected 2 10 (of_key 1 requests) []
check_refines_example = check_refines 2 10 1 requests (
  (omega arith, (omega arith, (omega arith, tt))),
  ((omega arith, (omega arith, tt)), ((omega arith, tt), (tt, tt))),
)
