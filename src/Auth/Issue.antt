-- ===== src/Auth/Issue.antt =====
-- Issuing and checking sessions and account tokens: the private methods of
-- `AuthenticationService`. A row is found twice, before and after the account's lock is granted;
-- `seen` is the store as the first query reads it.
use court.Base.{
  ℕ, zero, suc, ◌+◌, Bool, Option, none, some, [], ◌∷◌, ◌++◌, Result, ok, err, Tx, pure, raise,
  raise_if, modify, gets, or_raise, ◌>>=◌, ◌>>◌, ltb, leb, ◌==◌, ◌&&◌, ◌||◌, is_some, if◌then◌else◌,
}
use court.Base.Table.{length, find}
use court.Auth.{
  Text, Env, Store, User, RefreshSession, AccountToken, Purpose, AuthError, FreshSession,
  FreshToken, SessionTokens, invalid_session, invalid_or_used_token, token_expired, same_purpose,
  has_session_id, has_token_id, update_sessions, update_tokens, retired, is_valid_session,
  unauthorized, has_user_id, is_active,
}
use court.Auth.Text.{parse_refresh_session_id}

abbrev pub take : ℕ → Text → Text
take zero cs = []
take (suc n) [] = []
take (suc n) (c ∷ cs) = c ∷ take n cs

-- `(user_agent or "")[:512] or None`
abbrev pub trim_agent : Option Text → Option Text
trim_agent none = none
trim_agent (some agent) = elim (take 512 agent) [ [] ↦ none | c ∷ cs ↦ some (c ∷ cs) ]

-- f"{session_id}.{secret}"
abbrev pub refresh_token_of : Env → FreshSession → Text
refresh_token_of env fresh = env.uuid_text fresh.session_id ++ b'.' ∷ fresh.secret

abbrev pub new_session : Env → User → Option Text → ℕ → FreshSession → RefreshSession
new_session env user agent family fresh = record {
  id = fresh.session_id;
  user_id = user.id;
  token_hash = env.token_hash (refresh_token_of env fresh);
  token_family_id = family;
  replaced_by_session_id = none;
  created_at = fresh.issued_at;
  expires_at = fresh.issued_at + env.refresh_token_seconds;
  last_used_at = none;
  revoked_at = none;
  revocation_reason = none;
  user_agent = trim_agent agent;
}

abbrev pub tokens_of : Env → User → FreshSession → SessionTokens
tokens_of env user fresh = record {
  access_token = env.jwt_encode (record {
    sub = user.id;
    iat = fresh.issued_at;
    exp = fresh.issued_at + env.access_token_seconds;
    jti = fresh.jti;
  });
  refresh_token = refresh_token_of env fresh;
  access_expires_in = env.access_token_seconds;
}

-- `_create_session_tokens`
unfoldable pub create_session_tokens :
    Env → User → Option Text → ℕ → FreshSession → Tx Store AuthError SessionTokens
create_session_tokens env user agent family fresh s = (
  ok (tokens_of env user fresh),
  record s {
    refresh_sessions = s.refresh_sessions ++ new_session env user agent family fresh ∷ [];
  },
)

-- `_create_session`
unfoldable pub create_session :
    Env → User → Option Text → FreshSession → Tx Store AuthError SessionTokens
unfolding create_session_tokens
create_session env user agent fresh = create_session_tokens env user agent fresh.family_id fresh

-- the row is retired in favour of a new one of its family
unfoldable pub rotate :
    Env → User → Option Text → ℕ → FreshSession → RefreshSession → Tx Store AuthError SessionTokens
unfolding create_session_tokens
rotate env user agent now fresh current = do
  modify (update_sessions (has_session_id current.id) (retired now fresh.session_id))
  create_session_tokens env user agent current.token_family_id fresh

-- `_create_account_token`
unfoldable pub create_account_token :
    Env → ℕ → Purpose → ℕ → FreshToken → Tx Store AuthError (Text × ℕ)
create_account_token env user_id purpose lifetime fresh s = (
  ok (fresh.raw, fresh.token_id),
  record s {
    account_tokens =
        s.account_tokens
        ++ record {
          id = fresh.token_id;
          user_id = user_id;
          purpose = purpose;
          token_hash = env.token_hash fresh.raw;
          expires_at = fresh.issued_at + lifetime;
          consumed_at = none;
          invalidated_at = none;
        }
          ∷ [];
  },
)

abbrev pub is_token : ℕ → Purpose → AccountToken → Bool
is_token hash purpose t = t.token_hash == hash && same_purpose t.purpose purpose

-- `_lock_account_token`
unfoldable pub lock_account_token : Env → Store → Text → Purpose → Tx Store AuthError AccountToken
lock_account_token env seen raw purpose = do
  raise_if (length raw == 0 || ltb 256 (length raw)) invalid_or_used_token
  or_raise (find (is_token (env.token_hash raw) purpose) seen.account_tokens) invalid_or_used_token
  or_raise (← gets (λ s. find (is_token (env.token_hash raw) purpose) s.account_tokens))
      invalid_or_used_token

abbrev pub expire_token : AccountToken → ℕ → Tx Store AuthError (Unit {0})
expire_token t now =
    modify (update_tokens (has_token_id t.id) (λ r. record r { invalidated_at = some now }))

-- `_validate_account_token`: on an expired token it writes `invalidated_at` and raises
unfoldable pub validate_account_token : AccountToken → ℕ → Tx Store AuthError (Unit {0})
validate_account_token t now = do
  raise_if (is_some t.consumed_at || is_some t.invalidated_at) invalid_or_used_token
  if leb t.expires_at now then expire_token t now >> raise token_expired else pure tt

-- `_active_refresh_session`
unfoldable pub active_refresh_session : Env → Option Text → ℕ → Store → Option RefreshSession
active_refresh_session env none now s = none
active_refresh_session env (some raw) now s = elim (parse_refresh_session_id env (some raw)) [
  | err e ↦ none
  | ok i ↦ elim (find (has_session_id i) s.refresh_sessions) [
    | none ↦ none
    | some r ↦ if is_valid_session (env.token_hash raw) now r then some r else none
  ]
]

-- `_require_active_matching_session`
unfoldable pub require_active_matching_session :
    Env → Option RefreshSession → Option Text → ℕ → Result AuthError RefreshSession
require_active_matching_session env none raw now = err invalid_session
require_active_matching_session env (some r) none now = err invalid_session
require_active_matching_session env (some r) (some raw) now =
    if is_valid_session (env.token_hash raw) now r then ok r else err invalid_session

-- `_matching_current_session_id`
unfoldable pub matching_current_session_id : Env → ℕ → Option Text → ℕ → Store → Option ℕ
matching_current_session_id env user_id none now s = none
matching_current_session_id env user_id (some raw) now s =
    elim (parse_refresh_session_id env (some raw)) [
      | err e ↦ none
      | ok i ↦ elim (find (λ r. r.id == i && r.user_id == user_id) s.refresh_sessions) [
        | none ↦ none
        | some r ↦ if is_valid_session (env.token_hash raw) now r then some i else none
      ]
    ]

-- `resolve_access_token`
unfoldable pub resolve_access_token : Env → ℕ → ℕ → Store → Result AuthError User
resolve_access_token env token now s = elim (env.jwt_decode token now) [
  | none ↦ err unauthorized
  | some user_id ↦ elim (find (has_user_id user_id) s.users) [
    | none ↦ err unauthorized
    | some user ↦ if is_active user then ok user else err unauthorized
  ]
]
