-- ===== src/Auth/Access.antt =====
-- The tokens that the service issues are accepted back, and what a failed call tells and leaves.
use court.Base.{
  ℕ, ◌+◌, ◌≤◌, ◌≡◌, refl, true, false, Option, some, [], ◌∷◌, ◌++◌, ok, err, ◌==◌, ◌&&◌,
  if◌then◌else◌, arith,
}
use court.Base.Table.{length, find, All}
use court.Auth.{
  Text, Env, Store, User, AccountToken, FreshSession, is_active, is_open, password_reset,
  invalid_credentials, token_expired, invalid_password,
}
use court.Auth.Text.{parse_refresh_session_id, split_dot, normalize_email, validate_new_password}
use court.Auth.Issue.{refresh_token_of, is_token, tokens_of}
use court.Auth.Account.{login, rehashed, has_email}
use court.Auth.Password.{reset_password}

-- Documented behaviour of `uuid` and `secrets` at one session: the text of a UUID is 36 characters
-- without a dot that parse back, and `token_urlsafe(48)` is 64 characters.
pub record IssuesText (env : Env) (fresh : FreshSession) : Type 0 where
  pub no_dot : All (λ c. (c == b'.') ≡ false) (env.uuid_text fresh.session_id)
  pub uuid_length : length (env.uuid_text fresh.session_id) ≡ 36
  pub secret_length : length fresh.secret ≡ 64
  pub parses : env.parse_uuid (env.uuid_text fresh.session_id) ≡ some fresh.session_id

length-append : (xs ys : Text) → length (xs ++ ys) ≡ length xs + length ys
length-append [] ys = omega arith
length-append (x ∷ xs) ys = omega (arith, length-append xs ys)

split_dot-append :
    (head tail : Text)
    → All (λ c. (c == b'.') ≡ false) head
    → split_dot (head ++ b'.' ∷ tail) ≡ some (head, tail)
unfolding split_dot
split_dot-append [] tail h = refl
split_dot-append (c ∷ head) tail h = ground (arith, split_dot-append head tail h.1)

-- The refresh token of an issued session names that session when it is parsed.
pub parse-refresh_token :
    (env : Env) (fresh : FreshSession)
    → IssuesText env fresh
    → parse_refresh_session_id env (some (refresh_token_of env fresh)) ≡ ok fresh.session_id
unfolding parse_refresh_session_id
parse-refresh_token env fresh h =
    rw
      (
        split_dot-append (env.uuid_text fresh.session_id) fresh.secret h.no_dot,
        length-append (env.uuid_text fresh.session_id) (b'.' ∷ fresh.secret),
      )
      (ground (arith, h.uuid_length, h.secret_length, h.parses))

-- Where an address names an account that was read as `candidate` before its lock was granted, and
-- that still has the address under the lock, a login with a password of admissible length is judged by
-- `candidate` alone, whatever was committed to the account in between: it is granted if `candidate` is
-- active and its password verifies, and refused without a trace in every other case.
pub login_decides :
    (env : Env) (seen : Store) (email normalized password : Text) (agent : Option Text) (now : ℕ)
    (fresh : FreshSession) (s : Store) (candidate row : User)
    → length password ≤ env.auth_max_password_length
    → normalize_email email ≡ ok normalized
    → find (has_email normalized) seen.users ≡ some candidate
    → find (has_email normalized) s.users ≡ some row
    → row.id ≡ candidate.id
    → (if is_active candidate && env.verify_password candidate.password_hash password
        then (login env seen email password agent now fresh s).0
          ≡ ok (
            rehashed env password now candidate candidate,
            tokens_of env (rehashed env password now candidate candidate) fresh,
          )
        else login env seen email password agent now fresh s ≡ (err invalid_credentials, s))
unfolding login
login_decides env seen email normalized password agent now fresh s candidate row l e c r same =
    ground (arith, l, e, c, r, same)

-- An expired reset link reports `token_expired`, where the password is acceptable, and leaves its
-- row open: the `invalidated_at` that the check writes is rolled back with the transaction that the
-- same check makes fail.
pub expired_link_stays_open :
    (env : Env) (seen : Store) (raw password : Text) (now : ℕ) (s : Store)
    (first token : AccountToken)
    → validate_new_password env invalid_password password ≡ ok tt
    → (1 ≤ length raw) × (length raw ≤ 256)
    → find (is_token (env.token_hash raw) password_reset) seen.account_tokens ≡ some first
    → find (is_token (env.token_hash raw) password_reset) s.account_tokens ≡ some token
    → is_open token ≡ true
    → token.expires_at ≤ now
    → reset_password env seen raw password now s ≡ (err token_expired, s)
unfolding reset_password
expired_link_stays_open env seen raw password now s first token v l e e' o x =
    rw (v, reset_password) (ground arith)
