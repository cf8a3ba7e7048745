-- ===== src/Auth/Families/Calls.antt =====
-- Every call of the service keeps at most one unrevoked session in each token family.
use court.Base.{ℕ, ◌≡◌, Option, none, some, inl, inr, arith, Option-cases, Result-cases}
use court.Base.Table.{find}
use court.Auth.{
  Text, Env, Store, User, RefreshSession, FreshSession, in_family, has_session_id, has_user_id,
  refresh_token_reuse, account_unavailable, expired, logout as logged_out,
}
use court.Auth.Text.{parse_refresh_session_id}
use court.Auth.Refresh.{refresh_locked, refresh_transaction, refresh, logout}
use court.Auth.Families.{HasSingleActive, revoke-HasSingle, replace_single}

refresh_locked-HasSingle :
    (env : Env) (raw : Text) (agent : Option Text) (now : ℕ) (fresh : FreshSession)
    (user : Option User) (i : ℕ) (r : RefreshSession) (s : Store)
    → find (has_session_id i) s.refresh_sessions ≡ some r
    → HasSingleActive s
    → HasSingleActive (refresh_locked env raw agent now fresh user (some r) s).1
unfolding refresh_locked
refresh_locked-HasSingle env raw agent now fresh none i r s e h f = ground (
  arith,
  h f,
  revoke-HasSingle (in_family r.token_family_id) now refresh_token_reuse s.refresh_sessions h f,
  revoke-HasSingle (in_family r.token_family_id) now account_unavailable s.refresh_sessions h f,
  revoke-HasSingle (has_session_id r.id) now expired s.refresh_sessions h f,
)
refresh_locked-HasSingle env raw agent now fresh (some user) i r s e h f = ground (
  arith,
  h f,
  revoke-HasSingle (in_family r.token_family_id) now refresh_token_reuse s.refresh_sessions h f,
  revoke-HasSingle (in_family r.token_family_id) now account_unavailable s.refresh_sessions h f,
  revoke-HasSingle (has_session_id r.id) now expired s.refresh_sessions h f,
  replace_single env user agent now fresh (has_session_id i) s.refresh_sessions r f h e,
)

refresh_transaction-HasSingle :
    (env : Env) (seen : Store) (i : ℕ) (raw : Text) (agent : Option Text) (now : ℕ)
    (fresh : FreshSession) (s : Store)
    → HasSingleActive s
    → HasSingleActive (refresh_transaction env seen i raw agent now fresh s).1
unfolding refresh_transaction
refresh_transaction-HasSingle env seen i raw agent now fresh s h f =
    elim (Option-cases (find (has_session_id i) s.refresh_sessions)) [
      | inl gone ↦ ground (arith, h f)
      | inr (r, e) ↦ elim (Option-cases (find (has_session_id i) seen.refresh_sessions)) [
        | inl unseen ↦ rw (unseen, refresh_transaction) (h f)
        | inr (c, e') ↦ ground (
          arith,
          h f,
          refresh_locked-HasSingle env raw agent now fresh (find (has_user_id c.user_id) s.users) i
              r s e h f,
        )
      ]
    ]

pub refresh-HasSingle :
    (env : Env) (seen : Store) (raw agent : Option Text) (now : ℕ) (fresh : FreshSession)
    (s : Store)
    → HasSingleActive s
    → HasSingleActive (refresh env seen raw agent now fresh s).1
unfolding refresh
refresh-HasSingle env seen none agent now fresh s h f = h f
refresh-HasSingle env seen (some raw) agent now fresh s h f =
    elim (Result-cases (parse_refresh_session_id env (some raw))) [
      | inl (i, e) ↦
          rw (e, refresh)
            (ground (arith, refresh_transaction-HasSingle env seen i raw agent now fresh s h f))
      | inr (x, e) ↦ rw (e, refresh) (h f)
    ]

pub logout-HasSingle :
    (env : Env) (raw : Option Text) (now : ℕ) (s : Store)
    → HasSingleActive s
    → HasSingleActive (logout env raw now s)
unfolding logout
logout-HasSingle env none now s h f = h f
logout-HasSingle env (some raw) now s h f =
    elim (Result-cases (parse_refresh_session_id env (some raw))) [
      | inr (x, e) ↦ rw (e, logout) (h f)
      | inl (i, e) ↦ elim (Option-cases (find (has_session_id i) s.refresh_sessions)) [
        | inl gone ↦ rw (e, gone, logout) (h f)
        | inr (r, e') ↦
            rw (e, e', logout)
              (ground (
                arith,
                h f,
                revoke-HasSingle (has_session_id r.id) now logged_out s.refresh_sessions h f,
              ))
      ]
    ]
