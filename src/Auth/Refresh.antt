-- ===== src/Auth/Refresh.antt =====
-- `refresh` and `logout`: the rotation of a refresh session, and what a refused token leads to.
-- The transaction of `refresh` commits also where the call is refused; only then does it raise.
use court.Base.{
  ℕ, Bool, true, false, Option, none, some, Result, ok, err, Tx, ◌==◌, leb, not, is_some, is_none,
  ◌&&◌, if◌then◌else◌,
}
use court.Base.Table.{find}
use court.Auth.{
  Text, Env, Store, User, RefreshSession, AuthError, FreshSession, SessionTokens, invalid_session,
  rotated, expired, refresh_token_reuse, account_unavailable, logout as logged_out, has_session_id,
  has_user_id, is_active, revoked, update_sessions, revoke_family,
}
use court.Auth.Text.{parse_refresh_session_id}
use court.Auth.Issue.{rotate}

abbrev pub Attempt : Type 0
Attempt = Option (User × SessionTokens) × Store

abbrev pub was_rotated : RefreshSession → Bool
was_rotated r = elim r.revocation_reason [
  | none ↦ false
  | some reason ↦ elim reason [ rotated ↦ true | _ ↦ false ]
]

-- a revoked session was presented: one that was rotated away is a token that was used twice
unfoldable pub refuse_revoked : RefreshSession → ℕ → Store → Attempt
unfolding revoke_family
refuse_revoked r now s =
    (none, if was_rotated r then revoke_family r.token_family_id refresh_token_reuse now s else s)

unfoldable pub refuse_account : RefreshSession → ℕ → Store → Attempt
unfolding revoke_family
refuse_account r now s = (none, revoke_family r.token_family_id account_unavailable now s)

-- the session is in order: its account decides
unfoldable pub refresh_for :
    Env → Option Text → ℕ → FreshSession → Option User → RefreshSession → Store → Attempt
unfolding refuse_account rotate
refresh_for env agent now fresh none r s = refuse_account r now s
refresh_for env agent now fresh (some user) r s =
    if is_active user
    then (let (result, s') = rotate env user agent now fresh r s in
        elim result [ ok tokens ↦ (some (user, tokens), s') | err e ↦ (none, s') ])
    else refuse_account r now s

-- the branches over the row as it is read under the lock
unfoldable pub refresh_locked :
    Env
    → Text
    → Option Text
    → ℕ
    → FreshSession
    → Option User
    → Option RefreshSession
    → Store
    → Attempt
unfolding refuse_revoked refresh_for
refresh_locked env raw agent now fresh user none s = (none, s)
refresh_locked env raw agent now fresh user (some r) s =
    if not (r.token_hash == env.token_hash raw)
    then (none, s)
    else if is_some r.revoked_at
    then refuse_revoked r now s
    else if leb r.expires_at now
    then (none, update_sessions (has_session_id r.id) (revoked now expired) s)
    else refresh_for env agent now fresh user r s

-- the transaction of `refresh`; `seen` is the store of its first query
unfoldable pub refresh_transaction :
    Env → Store → ℕ → Text → Option Text → ℕ → FreshSession → Store → Attempt
unfolding refresh_locked
refresh_transaction env seen i raw agent now fresh s =
    elim (find (has_session_id i) seen.refresh_sessions) [
      | none ↦ (none, s)
      | some candidate ↦
          if candidate.token_hash == env.token_hash raw
          then refresh_locked env raw agent now fresh (find (has_user_id candidate.user_id) s.users)
              (find (has_session_id i) s.refresh_sessions) s
          else (none, s)
    ]

abbrev answer : Attempt → Result AuthError (User × SessionTokens) × Store
answer (none, s) = (err invalid_session, s)
answer (some granted, s) = (ok granted, s)

unfoldable pub refresh :
    Env
    → Store
    → Option Text
    → Option Text
    → ℕ
    → FreshSession
    → Tx Store AuthError (User × SessionTokens)
unfolding refresh_transaction
refresh env seen none agent now fresh s = (err invalid_session, s)
refresh env seen (some raw) agent now fresh s = elim (parse_refresh_session_id env (some raw)) [
  | err e ↦ (err e, s)
  | ok i ↦ answer (refresh_transaction env seen i raw agent now fresh s)
]

unfoldable pub logout : Env → Option Text → ℕ → Store → Store
logout env none now s = s
logout env (some raw) now s = elim (parse_refresh_session_id env (some raw)) [
  | err e ↦ s
  | ok i ↦ elim (find (has_session_id i) s.refresh_sessions) [
    | none ↦ s
    | some r ↦
        if r.token_hash == env.token_hash raw && is_none r.revoked_at
        then update_sessions (has_session_id r.id) (revoked now logged_out) s
        else s
  ]
]
