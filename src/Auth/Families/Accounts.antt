-- ===== src/Auth/Families/Accounts.antt =====
-- The calls that open a session for an account: `register`, `login`, `verify_email`.
use court.Base.{
  ℕ, ◌≡◌, true, Option, none, some, inl, inr, arith, Option-cases, Result-cases, is_none,
  transaction,
}
use court.Base.Table.{find}
use court.Auth.{
  Text, Env, Store, RefreshSession, FreshSession, FreshToken, email_verification, has_session_id,
  has_user_id,
}
use court.Auth.Text.{parse_refresh_session_id, normalize_email}
use court.Auth.Issue.{active_refresh_session, is_token}
use court.Auth.Account.{
  Delivery, register_transaction, register, login_transaction, login, verify_email, new_user,
  loaded, has_email, rehashed, mark_verified,
}
use court.Auth.Families.{HasSingleActive, IsNewFamily, replace_single, add-HasSingle}

register_transaction-HasSingle :
    (env : Env) (user_id : ℕ) (email password : Text) (agent : Option Text) (token : FreshToken)
    (fresh : FreshSession) (delivery : Delivery) (s : Store)
    → IsNewFamily fresh.family_id s.refresh_sessions
    → HasSingleActive s
    → HasSingleActive
        (transaction
          (register_transaction env user_id email password agent token fresh delivery)
          s).1
unfolding register_transaction
register_transaction-HasSingle env user_id email password agent token fresh delivery s new h f =
    ground (
      arith,
      h f,
      add-HasSingle env (new_user user_id email (env.hash_password password)) agent fresh
          s.refresh_sessions new h f,
    )

pub register-HasSingle :
    (env : Env) (user_id : ℕ) (email password : Text) (agent : Option Text) (token : FreshToken)
    (fresh : FreshSession) (delivery : Delivery) (s : Store)
    → IsNewFamily fresh.family_id s.refresh_sessions
    → HasSingleActive s
    → HasSingleActive (register env user_id email password agent token fresh delivery s).1
unfolding register
register-HasSingle env user_id email password agent token fresh delivery s new h f =
    elim (Result-cases (normalize_email email)) [
      | inr (x, e) ↦ rw (e, register) (h f)
      | inl (normalized, e) ↦
          rw (e, register)
            (ground (
              arith,
              h f,
              register_transaction-HasSingle env user_id normalized password agent token fresh
                  delivery s new h f,
            ))
    ]

login_transaction-HasSingle :
    (env : Env) (seen : Store) (email password : Text) (agent : Option Text) (now : ℕ)
    (fresh : FreshSession) (s : Store)
    → IsNewFamily fresh.family_id s.refresh_sessions
    → HasSingleActive s
    → HasSingleActive (transaction (login_transaction env seen email password agent now fresh) s).1
unfolding login_transaction
login_transaction-HasSingle env seen email password agent now fresh s new h f =
    elim (Option-cases (find (has_email email) s.users)) [
      | inl gone ↦ ground (arith, h f)
      | inr (row, e) ↦ elim (Option-cases (find (has_email email) seen.users)) [
        | inl unseen ↦ ground (arith, h f)
        | inr (candidate, first) ↦
            let user = loaded candidate row in
            ground (
              arith,
              h f,
              add-HasSingle env (rehashed env password now user user) agent fresh s.refresh_sessions
                  new h f,
            )
      ]
    ]

pub login-HasSingle :
    (env : Env) (seen : Store) (email password : Text) (agent : Option Text) (now : ℕ)
    (fresh : FreshSession) (s : Store)
    → IsNewFamily fresh.family_id s.refresh_sessions
    → HasSingleActive s
    → HasSingleActive (login env seen email password agent now fresh s).1
unfolding login
login-HasSingle env seen email password agent now fresh s new h f =
    elim (Result-cases (normalize_email email)) [
      | inr (x, e) ↦ rw (e, login) (ground (arith, h f))
      | inl (normalized, e) ↦
          rw (e, login)
            (ground (
              arith,
              h f,
              login_transaction-HasSingle env seen normalized password agent now fresh s new h f,
            ))
    ]

-- a session that `_active_refresh_session` returns is in the table, and not revoked
pub record IsHeld (s : Store) (r : RefreshSession) : Type 0 where
  pub id : ℕ
  pub found : find (has_session_id id) s.refresh_sessions ≡ some r
  pub live : is_none r.revoked_at ≡ true

pub active_refresh_session-IsHeld :
    (env : Env) (raw : Option Text) (now : ℕ) (s : Store) (r : RefreshSession)
    → active_refresh_session env raw now s ≡ some r
    → IsHeld s r
unfolding active_refresh_session
active_refresh_session-IsHeld env none now s r h = absurd (cc)
active_refresh_session-IsHeld env (some raw) now s r h =
    elim (Result-cases (parse_refresh_session_id env (some raw))) [
      | inr (x, e) ↦ absurd (ground arith)
      | inl (i, e) ↦ record { id = i; found = ground arith; live = ground arith }
    ]

pub verify_email-HasSingle :
    (env : Env) (seen : Store) (raw : Text) (agent : Option Text) (current_user : Option ℕ)
    (refresh_token : Option Text) (now : ℕ) (fresh : FreshSession) (s : Store)
    → IsNewFamily fresh.family_id s.refresh_sessions
    → HasSingleActive s
    → HasSingleActive (verify_email env seen raw agent current_user refresh_token now fresh s).1
unfolding verify_email
verify_email-HasSingle env seen raw agent current_user refresh_token now fresh s new h f =
    elim (Option-cases (find (is_token (env.token_hash raw) email_verification) s.account_tokens)) [
      | inl gone ↦ ground (arith, h f)
      | inr (token, e) ↦ elim (Option-cases (find (has_user_id token.user_id) s.users)) [
        | inl gone ↦ ground (arith, h f)
        | inr (user, e') ↦ elim (Option-cases (active_refresh_session env refresh_token now s)) [
          | inl signed_out ↦ ground (
            arith,
            h f,
            add-HasSingle env (mark_verified now user) agent fresh s.refresh_sessions new h f,
          )
          | inr (r, e'') ↦
              let held = active_refresh_session-IsHeld env refresh_token now s r e'' in
              ground (
                arith,
                h f,
                replace_single env (mark_verified now user) agent now fresh (has_session_id held.id)
                    s.refresh_sessions r f h held.found held.live,
              )
        ]
      ]
    ]
