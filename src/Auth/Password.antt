-- ===== src/Auth/Password.antt =====
-- `reset_password` and `change_password`.
use court.Base.{
  ℕ, Bool, Option, none, some, Tx, pure, raise_if, modify, gets, transaction, ◌>>=◌, ◌>>◌, ◌==◌,
  ◌&&◌, not,
}
use court.Base.Table.{find}
use court.Auth.{
  Text, Env, Store, User, RefreshSession, AuthError, FreshSession, SessionTokens, password_reset,
  reset_of_password, password_changed, invalid_password, invalid_or_used_token, unauthorized,
  invalid_current_password, password_unchanged, has_user_id, of_user, revoked, update_user,
  update_sessions, invalidate_active_tokens,
}
use court.Auth.Text.{validate_new_password, parse_refresh_session_id}
use court.Auth.Issue.{
  rotate, lock_account_token, validate_account_token, require_active_matching_session,
}
use court.Auth.Account.{lift, active_user, consume}

abbrev pub with_password : Env → Text → ℕ → User → User
with_password env password now u = record u {
  password_hash = env.hash_password password;
  password_changed_at = some now;
}

unfoldable pub reset_password : Env → Store → Text → Text → ℕ → Tx Store AuthError User
unfolding lock_account_token validate_account_token invalidate_active_tokens
reset_password env seen raw new_password now = do
  lift (validate_new_password env invalid_password new_password)
  transaction (do
    token ← lock_account_token env seen raw password_reset
    validate_account_token token now
    user ←
        active_user (← gets (λ s. find (has_user_id token.user_id) s.users)) invalid_or_used_token
    modify (consume token now)
    modify (update_user user.id (with_password env new_password now))
    modify (update_sessions (of_user token.user_id) (revoked now reset_of_password))
    modify (invalidate_active_tokens user.id password_reset now (some token.id))
    pure (with_password env new_password now user))

-- the user's sessions that are not revoked, but for the current one
abbrev pub others_of : ℕ → ℕ → RefreshSession → Bool
others_of user_id current r = of_user user_id r && not (r.id == current)

-- the session of the user with the identifier of the token
abbrev pub own_session : ℕ → ℕ → RefreshSession → Bool
own_session user_id i r = r.user_id == user_id && r.id == i

unfoldable pub change_password_transaction :
    Env
    → ℕ
    → Text
    → Text
    → Option Text
    → ℕ
    → Option Text
    → ℕ
    → FreshSession
    → Tx Store AuthError (User × SessionTokens)
unfolding require_active_matching_session rotate invalidate_active_tokens
change_password_transaction env user_id old new raw i agent now fresh = do
  user ← active_user (← gets (λ s. find (has_user_id user_id) s.users)) unauthorized
  current ← lift (
      require_active_matching_session env
        (← gets (λ s. find (own_session user_id i) s.refresh_sessions)) raw now)
  raise_if (not (env.verify_password user.password_hash old)) invalid_current_password
  raise_if (env.verify_password user.password_hash new) password_unchanged
  modify (update_user user.id (with_password env new now))
  modify (update_sessions (others_of user_id i) (revoked now password_changed))
  tokens ← rotate env (with_password env new now user) agent now fresh current
  modify (invalidate_active_tokens user.id password_reset now none)
  pure (with_password env new now user, tokens)

unfoldable pub change_password :
    Env
    → ℕ
    → Text
    → Text
    → Option Text
    → Option Text
    → ℕ
    → FreshSession
    → Tx Store AuthError (User × SessionTokens)
unfolding change_password_transaction
change_password env user_id old new raw agent now fresh = do
  lift (validate_new_password env invalid_password new)
  i ← lift (parse_refresh_session_id env raw)
  transaction (change_password_transaction env user_id old new raw i agent now fresh)
