-- ===== src/Auth/Tests.antt =====
-- The account service on one account, with small stand-ins for the libraries.
use court.Base.{
  ℕ, zero, suc, ◌+◌, ◌*◌, ◌-◌, ◌≡◌, refl, true, false, Option, none, some, [], ◌∷◌, ◌++◌, ok, err,
  ◌==◌, arith,
}
use court.Base.Table.{All, find, count}
use court.Auth.{
  Text, User, RefreshSession, AccountToken, Store, Env, FreshSession, FreshToken, retired,
  password_reset, in_family, of_user, has_session_id, is_valid_session, is_active, invalid_session,
  invalid_or_used_token, token_expired,
}
use court.Auth.Text.{parse_refresh_session_id, normalize_email, validate_new_password}
use court.Auth.Issue.{new_session, refresh_token_of, tokens_of}
use court.Auth.Refresh.{refresh}
use court.Auth.Account.{new_user, register, login, rehashed, no_service, request_password_reset}
use court.Auth.Password.{with_password, reset_password, change_password}
use court.Auth.Reach.{empty, next, registers, refreshes, IsSound, Reach-IsSound}
use court.Auth.Rotation.{Presents, Rotated, refresh_reuse, refresh_decides, refresh_rotates}
use court.Auth.SignOut.{reset_signs_out, reset_once, change_keeps_one}
use court.Auth.Access.{IssuesText, parse-refresh_token, login_decides, expired_link_stays_open}

abbrev repeated : ℕ → ℕ → Text
repeated zero c = []
repeated (suc n) c = c ∷ repeated n c

abbrev digest : Text → ℕ
digest [] = 7
digest (c ∷ cs) = c + 3 * digest cs

-- a UUID whose last character tells it
abbrev uuid : ℕ → Text
uuid i = repeated 35 b'0' ++ (b'0' + i) ∷ []

abbrev last_digit : Text → Option ℕ
last_digit [] = none
last_digit (c ∷ []) = some (c - b'0')
last_digit (c ∷ d ∷ cs) = last_digit (d ∷ cs)

abbrev env : Env
env = record {
  auth_min_password_length = 4;
  auth_max_password_length = 64;
  verification_token_seconds = 100;
  password_reset_token_seconds = 50;
  refresh_token_seconds = 1000;
  access_token_seconds = 10;
  verify_password = λ hash password. hash == digest password;
  hash_password = digest;
  check_needs_rehash = λ hash. false;
  token_hash = digest;
  parse_uuid = last_digit;
  uuid_text = uuid;
  jwt_encode = λ claims. claims.jti;
  jwt_decode = λ now token. some token;
}

abbrev fresh_at : ℕ → ℕ → FreshSession
fresh_at i now = record {
  session_id = i;
  family_id = 1;
  secret = repeated 64 (b'a' + i);
  jti = i;
  issued_at = now;
}

abbrev email : Text
email = b'a' ∷ b'@' ∷ b'b' ∷ b'.' ∷ b'c' ∷ []

abbrev old_password : Text
old_password = repeated 5 b'p'

abbrev new_password : Text
new_password = repeated 6 b'q'

abbrev mail_token : FreshToken
mail_token = record { token_id = 1; raw = repeated 43 b'm'; issued_at = 100 }

abbrev reset_token : FreshToken
reset_token = record { token_id = 2; raw = repeated 43 b'r'; issued_at = 110 }

abbrev nothing : Store
nothing = record { users = []; refresh_sessions = []; account_tokens = [] }

abbrev first_raw : Text
first_raw = refresh_token_of env (fresh_at 1 100)

abbrev registered : Store
registered =
    (register env 1 email old_password none mail_token (fresh_at 1 100) no_service nothing).1

abbrev used : Store
used = (refresh env registered (some first_raw) none 105 (fresh_at 2 105) registered).1

abbrev linked : Store
linked = (request_password_reset env used email 110 reset_token used).1

abbrev reset_done : Store
reset_done = (reset_password env linked reset_token.raw new_password 120 linked).1

abbrev alice : User
alice = new_user 1 email (digest old_password)

abbrev first_row : RefreshSession
first_row = new_session env alice none 1 (fresh_at 1 100)

abbrev reset_user : User
reset_user = with_password env new_password 120 alice

abbrev presents_first : Presents env registered registered first_raw first_row
unfolding register refresh request_password_reset reset_password change_password login
    normalize_email parse_refresh_session_id validate_new_password
presents_first = record {
  id = 1;
  candidate = first_row;
  parsed = refl;
  seen_row = refl;
  seen_hash = refl;
  locked_row = refl;
  locked_hash = refl;
}

abbrev presents_used : Presents env used used first_raw (retired 105 2 first_row)
unfolding register refresh request_password_reset reset_password change_password login
    normalize_email parse_refresh_session_id validate_new_password
presents_used = record {
  id = 1;
  candidate = retired 105 2 first_row;
  parsed = refl;
  seen_row = refl;
  seen_hash = refl;
  locked_row = refl;
  locked_hash = refl;
}

Reach-IsSound_example : IsSound used
unfolding register refresh request_password_reset reset_password change_password login
    normalize_email parse_refresh_session_id validate_new_password
Reach-IsSound_example = Reach-IsSound {env = env} (
    next
      (next empty
        (registers 1 email old_password none mail_token (fresh_at 1 100) no_service tt tt))
      (refreshes registered (some first_raw) none 105 (fresh_at 2 105)))

refresh_reuse_example :
    ((refresh env used (some first_raw) none 107 (fresh_at 3 107) used).0 ≡ err invalid_session)
    × (count
          (in_family 1)
          (refresh env used (some first_raw) none 107 (fresh_at 3 107) used).1.refresh_sessions
        ≡ 0)
refresh_reuse_example =
    refresh_reuse env used first_raw none 107 (fresh_at 3 107) used (retired 105 2 first_row)
      presents_used refl refl

refresh_decides_example :
    (refresh env registered (some first_raw) none 105 (fresh_at 2 105) registered).0
    ≡ ok (alice, tokens_of env alice (fresh_at 2 105))
unfolding register refresh request_password_reset reset_password change_password login
    normalize_email parse_refresh_session_id validate_new_password
refresh_decides_example =
    refresh_decides env registered first_raw none 105 (fresh_at 2 105) registered first_row alice
      presents_first refl

refresh_rotates_example :
    (r : RefreshSession) × (parse_refresh_session_id env (some first_raw) ≡ ok r.id)
    × (find (has_session_id r.id) registered.refresh_sessions ≡ some r)
    × (is_valid_session (env.token_hash first_raw) 105 r ≡ true)
    × (is_active alice ≡ true)
    × Rotated env alice none 105 (fresh_at 2 105) r registered used
unfolding register refresh request_password_reset reset_password change_password login
    normalize_email parse_refresh_session_id validate_new_password
refresh_rotates_example =
    refresh_rotates env registered first_raw none 105 (fresh_at 2 105) registered used alice
      (tokens_of env alice (fresh_at 2 105)) refl

reset_signs_out_example : count (of_user 1) reset_done.refresh_sessions ≡ 0
unfolding register refresh request_password_reset reset_password change_password login
    normalize_email parse_refresh_session_id validate_new_password
reset_signs_out_example =
    reset_signs_out env linked reset_token.raw new_password 120 linked reset_done reset_user refl

reset_once_example :
    reset_password env reset_done reset_token.raw old_password 121 reset_done
    ≡ (err invalid_or_used_token, reset_done)
unfolding register refresh request_password_reset reset_password change_password login
    normalize_email parse_refresh_session_id validate_new_password
reset_once_example =
    reset_once env linked reset_done reset_token.raw new_password old_password 120 121 linked
      reset_done reset_user refl refl

abbrev changed : Store
changed =
    (change_password env 1 old_password new_password (some first_raw) none 120 (fresh_at 2 120)
      registered).1

change_keeps_one_example : count (of_user 1) changed.refresh_sessions ≡ 1
unfolding register refresh request_password_reset reset_password change_password login
    normalize_email parse_refresh_session_id validate_new_password
change_keeps_one_example =
    change_keeps_one env 1 old_password new_password (some first_raw) none 120 (fresh_at 2 120)
      registered changed reset_user (tokens_of env reset_user (fresh_at 2 120)) refl

zeros_without_dot :
    (n : ℕ) (tail : Text)
    → All (λ c. (c == b'.') ≡ false) tail
    → All (λ c. (c == b'.') ≡ false) (repeated n b'0' ++ tail)
zeros_without_dot zero tail h = h
zeros_without_dot (suc n) tail h = (refl, zeros_without_dot n tail h)

abbrev first_text : IssuesText env (fresh_at 1 100)
first_text = record {
  no_dot = zeros_without_dot 35 (b'1' ∷ []) (refl, tt);
  uuid_length = refl;
  secret_length = refl;
  parses = refl;
}

parse-refresh_token_example : parse_refresh_session_id env (some first_raw) ≡ ok 1
parse-refresh_token_example = parse-refresh_token env (fresh_at 1 100) first_text

-- The old password still opens a session after the reset, to a login that read the account before.
login_decides_example :
    (login env linked email old_password none 130 (fresh_at 4 130) reset_done).0
    ≡ ok (
      rehashed env old_password 130 alice alice,
      tokens_of env (rehashed env old_password 130 alice alice) (fresh_at 4 130),
    )
unfolding register refresh request_password_reset reset_password change_password login
    normalize_email parse_refresh_session_id validate_new_password
login_decides_example =
    login_decides env linked email email old_password none 130 (fresh_at 4 130) reset_done alice
      reset_user (omega arith) refl refl refl refl

abbrev expired_row : AccountToken
expired_row = record {
  id = 2;
  user_id = 1;
  purpose = password_reset;
  token_hash = env.token_hash reset_token.raw;
  expires_at = 160;
  consumed_at = none;
  invalidated_at = none;
}

expired_link_stays_open_example :
    reset_password env linked reset_token.raw new_password 160 linked ≡ (err token_expired, linked)
unfolding register refresh request_password_reset reset_password change_password login
    normalize_email parse_refresh_session_id validate_new_password
expired_link_stays_open_example =
    expired_link_stays_open env linked reset_token.raw new_password 160 linked expired_row
      expired_row refl (omega arith, omega arith) refl refl refl (omega arith)
