-- ===== src/Auth/Managed.antt =====
-- The sessions that an account manages: `list_sessions`, `revoke_session`,
-- `revoke_all_managed_sessions` and `revoke_all_sessions`.
use court.Base.{
  ℕ, Bool, true, false, Option, none, some, List, map, ok, Tx, pure, modify, gets, or_raise,
  transaction, ◌>>=◌, ◌>>◌, leb, ◌==◌, ◌&&◌, not, is_none,
}
use court.Base.Table.{find, count, select}
use court.Auth.{
  Text, Env, Store, User, RefreshSession, RevocationReason, AuthError, FreshSession, SessionTokens,
  unauthorized, session_not_found, user_revoked, user_revoke_all, has_user_id, of_user, revoked,
  update_sessions,
}
use court.Auth.Text.{parse_refresh_session_id}
use court.Auth.Issue.{rotate, require_active_matching_session, matching_current_session_id}
use court.Auth.Account.{lift, active_user}
use court.Auth.Password.{own_session, others_of}

-- `ManagedSession`; its label is computed from `user_agent`
pub record ManagedSession : Type 0 where
  pub id : ℕ
  pub created_at : ℕ
  pub last_used_at : Option ℕ
  pub expires_at : ℕ
  pub revoked_at : Option ℕ
  pub user_agent : Option Text
  pub current : Bool

abbrev pub is_current : Option ℕ → ℕ → Bool
is_current none i = false
is_current (some j) i = i == j

abbrev pub managed : Option ℕ → RefreshSession → ManagedSession
managed current r = record {
  id = r.id;
  created_at = r.created_at;
  last_used_at = r.last_used_at;
  expires_at = r.expires_at;
  revoked_at = r.revoked_at;
  user_agent = r.user_agent;
  current = is_current current r.id;
}

abbrev pub is_listed : ℕ → ℕ → RefreshSession → Bool
is_listed user_id now r = of_user user_id r && not (leb r.expires_at now)

-- The rows come in the order of the table: the source sorts them by `created_at`.
unfoldable pub list_sessions : Env → ℕ → Option Text → ℕ → Store → List ManagedSession
list_sessions env user_id raw now s =
    map (managed (matching_current_session_id env user_id raw now s))
      (select (is_listed user_id now) s.refresh_sessions)

unfoldable pub revoke_session : Env → Store → ℕ → ℕ → Option Text → ℕ → Tx Store AuthError Bool
revoke_session env seen user_id i raw now = do
  transaction (do
    or_raise (← gets (λ s. find (own_session user_id i) s.refresh_sessions)) session_not_found
    modify (
        update_sessions (λ r. own_session user_id i r && is_none r.revoked_at)
          (revoked now user_revoked)))
  pure (is_current (matching_current_session_id env user_id raw now seen) i)

-- `SessionMutation`
pub record SessionMutation : Type 0 where
  pub revoked_count : ℕ
  pub current_session_preserved : Bool
  pub replacement_tokens : Option SessionTokens

abbrev pub without_current : ℕ → ℕ → Tx Store AuthError SessionMutation
without_current user_id now s = (
  ok (record {
    revoked_count = count (of_user user_id) s.refresh_sessions;
    current_session_preserved = false;
    replacement_tokens = none;
  }),
  update_sessions (of_user user_id) (revoked now user_revoke_all) s,
)

abbrev pub with_current :
    Env
    → User
    → ℕ
    → Option Text
    → Option Text
    → ℕ
    → FreshSession
    → Tx Store AuthError SessionMutation
with_current env user i raw agent now fresh = do
  current ← lift (
      require_active_matching_session env
        (← gets (λ s. find (own_session user.id i) s.refresh_sessions)) raw now)
  revoked_count ← gets (λ s. count (others_of user.id i) s.refresh_sessions)
  modify (update_sessions (others_of user.id i) (revoked now user_revoke_all))
  tokens ← rotate env user agent now fresh current
  pure (record {
    revoked_count = revoked_count;
    current_session_preserved = true;
    replacement_tokens = some tokens;
  })

unfoldable pub revoke_all_managed_sessions :
    Env
    → ℕ
    → Bool
    → Option Text
    → Option Text
    → ℕ
    → FreshSession
    → Tx Store AuthError SessionMutation
unfolding require_active_matching_session rotate
revoke_all_managed_sessions env user_id false raw agent now fresh = transaction (do
  active_user (← gets (λ s. find (has_user_id user_id) s.users)) unauthorized
  without_current user_id now)
revoke_all_managed_sessions env user_id true raw agent now fresh = do
  i ← lift (parse_refresh_session_id env raw)
  transaction (do
    user ← active_user (← gets (λ s. find (has_user_id user_id) s.users)) unauthorized
    with_current env user i raw agent now fresh)

unfoldable pub revoke_all_sessions : ℕ → RevocationReason → ℕ → Store → Store
revoke_all_sessions user_id reason now = update_sessions (of_user user_id) (revoked now reason)
