-- ===== src/RateLimit/Keys.antt =====
-- The limiter serves many keys from one table: the attempts of a key are decided as if it were
-- alone, and as the specification of RateLimit/Window decides them.
use court.Base.{ℕ, ◌≡◌, refl, ◌∙◌, Bool, List, [], ◌∷◌, ◌==◌, if◌then◌else◌, arith}
use court.RateLimit.{Attempts, no_attempts, check}
use court.RateLimit.Window.{IsSorted, is_ok, decisions, expected, decisions_refine}

-- what belongs to key `k`, in order
abbrev pub of_key {ℓ} : {A : Type ℓ} → ℕ → List (ℕ × A) → List A
of_key k [] = []
of_key k ((key, a) ∷ rest) = if key == k then a ∷ of_key k rest else of_key k rest

-- the decisions on a list of requests, each a key and a time
unfoldable pub decide_all : ℕ → ℕ → List (ℕ × ℕ) → Attempts → List (ℕ × Bool)
decide_all limit w [] s = []
decide_all limit w ((key, now) ∷ requests) s =
    let (r, s') = check key limit w now s in (key, is_ok r) ∷ decide_all limit w requests s'

decide_all-decisions :
    (limit w k : ℕ) (requests : List (ℕ × ℕ)) (s : Attempts)
    → of_key k (decide_all limit w requests s) ≡ decisions limit w (of_key k requests) (s k)
unfolding decide_all decisions check
decide_all-decisions limit w k [] s = refl
decide_all-decisions limit w k ((key, now) ∷ requests) s =
    ground (arith, decide_all-decisions limit w k requests (check key limit w now s).1)

-- Whatever the other keys do, the attempts of key `k` (at times that do not decrease) are decided
-- as the specification decides them from its own log: one is admitted exactly if fewer than `limit`
-- admitted attempts of that key lie less than `window` before it.
pub check_refines :
    (limit w k : ℕ) (requests : List (ℕ × ℕ))
    → IsSorted (of_key k requests)
    → of_key k (decide_all limit w requests no_attempts) ≡ expected limit w (of_key k requests) []
check_refines limit w k requests s =
    decide_all-decisions limit w k requests no_attempts
    ∙ decisions_refine limit w (of_key k requests) s
