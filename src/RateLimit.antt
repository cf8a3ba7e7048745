-- ===== src/RateLimit.antt =====
-- app/auth/rate_limit.py: the process-local limiter of authentication attempts. Time is a count of
-- clock ticks; `defaultdict(deque)` is a function from keys, which are only compared.
pub mod Window
pub mod Keys
mod Tests
use court.Base.{ℕ, ◌+◌, List, [], ◌∷◌, ◌++◌, Result, ok, err, leb, ◌==◌, if◌then◌else◌}
use court.Base.Table.{length}

pub data Error : Type 0 where
  rate_limited : Error

abbrev pub Attempts : Type 0
Attempts = ℕ → List ℕ

abbrev pub no_attempts : Attempts
no_attempts key = []

-- `while attempts and attempts[0] <= now - window_seconds: attempts.popleft()`
unfoldable pub prune : ℕ → ℕ → List ℕ → List ℕ
prune window now [] = []
prune window now (a ∷ rest) =
    let popped = prune window now rest in if leb (a + window) now then popped else a ∷ rest

-- the deque of one key, and whether the attempt is admitted
unfoldable pub admit : ℕ → ℕ → ℕ → List ℕ → Result Error (Unit {0}) × List ℕ
unfolding prune
admit limit window now attempts =
    let kept = prune window now attempts in
    if leb limit (length kept) then (err rate_limited, kept) else (ok tt, kept ++ now ∷ [])

unfoldable pub check : ℕ → ℕ → ℕ → ℕ → Attempts → Result Error (Unit {0}) × Attempts
unfolding admit
check key limit window now attempts =
    let (r, deque) = admit limit window now (attempts key) in
    (r, λ k. if k == key then deque else attempts k)
