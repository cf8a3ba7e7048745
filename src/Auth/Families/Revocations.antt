-- ===== src/Auth/Families/Revocations.antt =====
-- The calls that revoke sessions of an account: `reset_password`, `change_password`,
-- `revoke_session`, `revoke_all_managed_sessions`, `revoke_all_sessions`.
use court.Base.{
  ℕ, ◌≡◌, refl, Bool, true, false, Option, none, some, List, inl, inr, arith, ◌&&◌, Option-cases,
  Result-cases, is_none, transaction,
}
use court.Base.Table.{find, update_where, find-update_other, find_holds}
use court.Auth.{
  Text, Env, Store, User, RefreshSession, RevocationReason, FreshSession, password_reset,
  has_user_id, of_user, revoked, reset_of_password, password_changed, user_revoked, user_revoke_all,
}
use court.Auth.Text.{parse_refresh_session_id}
use court.Auth.Issue.{is_token}
use court.Auth.Password.{
  reset_password, change_password, change_password_transaction, own_session, others_of,
  with_password,
}
use court.Auth.Managed.{
  revoke_session, revoke_all_managed_sessions, revoke_all_sessions, with_current,
}
use court.Auth.Families.{HasSingleActive, revoke-HasSingle, replace_single}

pub reset_password-HasSingle :
    (env : Env) (seen : Store) (raw new_password : Text) (now : ℕ) (s : Store)
    → HasSingleActive s
    → HasSingleActive (reset_password env seen raw new_password now s).1
unfolding reset_password
reset_password-HasSingle env seen raw new_password now s h f =
    elim (Option-cases (find (is_token (env.token_hash raw) password_reset) s.account_tokens)) [
      | inl gone ↦ ground (arith, h f)
      | inr (token, e) ↦ ground (
        arith,
        h f,
        revoke-HasSingle (of_user token.user_id) now reset_of_password s.refresh_sessions h f,
      )
    ]

-- revoking the other sessions of a user does not touch the current one
own_session_kept :
    (user_id i now : ℕ) (reason : RevocationReason) (rs : List RefreshSession) (r : RefreshSession)
    → find (own_session user_id i) rs ≡ some r
    → find (own_session user_id i) (update_where (others_of user_id i) (revoked now reason) rs)
      ≡ some r
own_session_kept user_id i now reason rs r e =
    find-update_other (own_session user_id i) (others_of user_id i) (revoked now reason) (λ x. refl)
      rs r e (ground (arith, find_holds (own_session user_id i) rs e))

change_password_transaction-HasSingle :
    (env : Env) (user_id : ℕ) (old new : Text) (raw : Option Text) (i : ℕ) (agent : Option Text)
    (now : ℕ) (fresh : FreshSession) (s : Store)
    → HasSingleActive s
    → HasSingleActive
        (transaction (change_password_transaction env user_id old new raw i agent now fresh) s).1
unfolding change_password_transaction
change_password_transaction-HasSingle env user_id old new none i agent now fresh s h f =
    elim (Option-cases (find (own_session user_id i) s.refresh_sessions)) [
      | inl gone ↦ ground (arith, h f)
      | inr (r, e) ↦ ground (arith, h f)
    ]
change_password_transaction-HasSingle env user_id old new (some raw) i agent now fresh s h f =
    elim (Option-cases (find (has_user_id user_id) s.users)) [
      | inl gone ↦ ground (arith, h f)
      | inr (user, e) ↦ elim (Option-cases (find (own_session user_id i) s.refresh_sessions)) [
        | inl gone ↦ ground (arith, h f)
        | inr (r, e') ↦ ground (
          arith,
          h f,
          replace_single env (with_password env new now user) agent now fresh
              (own_session user_id i)
              (update_where (others_of user_id i) (revoked now password_changed) s.refresh_sessions)
              r f (revoke-HasSingle (others_of user_id i) now password_changed s.refresh_sessions h)
              (own_session_kept user_id i now password_changed s.refresh_sessions r e'),
        )
      ]
    ]

pub change_password-HasSingle :
    (env : Env) (user_id : ℕ) (old new : Text) (raw agent : Option Text) (now : ℕ)
    (fresh : FreshSession) (s : Store)
    → HasSingleActive s
    → HasSingleActive (change_password env user_id old new raw agent now fresh s).1
unfolding change_password
change_password-HasSingle env user_id old new raw agent now fresh s h f =
    elim (Result-cases (parse_refresh_session_id env raw)) [
      | inr (x, e) ↦ ground (arith, h f)
      | inl (i, e) ↦ ground (
        arith,
        h f,
        change_password_transaction-HasSingle env user_id old new raw i agent now fresh s h f,
      )
    ]

pub revoke_session-HasSingle :
    (env : Env) (seen : Store) (user_id i : ℕ) (raw : Option Text) (now : ℕ) (s : Store)
    → HasSingleActive s
    → HasSingleActive (revoke_session env seen user_id i raw now s).1
unfolding revoke_session
revoke_session-HasSingle env seen user_id i raw now s h f = ground (
  arith,
  h f,
  revoke-HasSingle (λ (r : RefreshSession). own_session user_id i r && is_none r.revoked_at) now
      user_revoked s.refresh_sessions h f,
)

pub revoke_all_sessions-HasSingle :
    (user_id : ℕ) (reason : RevocationReason) (now : ℕ) (s : Store)
    → HasSingleActive s
    → HasSingleActive (revoke_all_sessions user_id reason now s)
unfolding revoke_all_sessions
revoke_all_sessions-HasSingle user_id reason now s h =
    revoke-HasSingle (of_user user_id) now reason s.refresh_sessions h

with_current-HasSingle :
    (env : Env) (user : User) (i : ℕ) (raw agent : Option Text) (now : ℕ) (fresh : FreshSession)
    (s : Store)
    → HasSingleActive s
    → HasSingleActive (transaction (with_current env user i raw agent now fresh) s).1
unfolding revoke_all_managed_sessions
with_current-HasSingle env user i none agent now fresh s h f =
    elim (Option-cases (find (own_session user.id i) s.refresh_sessions)) [
      | inl gone ↦ ground (arith, h f)
      | inr (r, e) ↦ ground (arith, h f)
    ]
with_current-HasSingle env user i (some raw) agent now fresh s h f =
    elim (Option-cases (find (own_session user.id i) s.refresh_sessions)) [
      | inl gone ↦ ground (arith, h f)
      | inr (r, e) ↦ ground (
        arith,
        h f,
        replace_single env user agent now fresh (own_session user.id i)
            (update_where (others_of user.id i) (revoked now user_revoke_all) s.refresh_sessions) r
            f (revoke-HasSingle (others_of user.id i) now user_revoke_all s.refresh_sessions h)
            (own_session_kept user.id i now user_revoke_all s.refresh_sessions r e),
      )
    ]

pub revoke_all_managed_sessions-HasSingle :
    (env : Env) (user_id : ℕ) (preserve : Bool) (raw agent : Option Text) (now : ℕ)
    (fresh : FreshSession) (s : Store)
    → HasSingleActive s
    → HasSingleActive (revoke_all_managed_sessions env user_id preserve raw agent now fresh s).1
unfolding revoke_all_managed_sessions
revoke_all_managed_sessions-HasSingle env user_id false raw agent now fresh s h f =
    ground
      (arith, h f, revoke-HasSingle (of_user user_id) now user_revoke_all s.refresh_sessions h f)
revoke_all_managed_sessions-HasSingle env user_id true raw agent now fresh s h f =
    elim (Result-cases (parse_refresh_session_id env raw)) [
      | inr (x, e) ↦ ground (arith, h f)
      | inl (i, e) ↦ elim (Option-cases (find (has_user_id user_id) s.users)) [
        | inl gone ↦ ground (arith, h f)
        | inr (user, e') ↦
            ground (arith, h f, with_current-HasSingle env user i raw agent now fresh s h f)
      ]
    ]
