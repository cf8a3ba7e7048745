-- ===== src/Auth/Reach.antt =====
-- The service as a whole: any calls, in any order, by any clients. Each constructor is one call;
-- `seen` is whatever another client left behind before the account's lock was granted.
use court.Base.{ℕ, Bool, Option, [], arith}
use court.Auth.{Text, Env, Store, FreshSession, FreshToken, RevocationReason}
use court.Auth.Untouched.{
  sessions-resend, sessions-onboarding, tokens-onboarding, sessions-request_reset, tokens-login,
  tokens-refresh, tokens-logout, tokens-revoke, tokens-revoke_managed,
}
use court.Auth.Refresh.{refresh, logout}
use court.Auth.Account.{
  Delivery, register, login, resend_verification, verify_email, complete_onboarding,
  request_password_reset,
}
use court.Auth.Password.{reset_password, change_password}
use court.Auth.Managed.{revoke_session, revoke_all_managed_sessions, revoke_all_sessions}
use court.Auth.Families.{HasSingleActive, IsNewFamily}
use court.Auth.Families.Calls.{refresh-HasSingle, logout-HasSingle}
use court.Auth.Families.Accounts.{register-HasSingle, login-HasSingle, verify_email-HasSingle}
use court.Auth.Families.Revocations.{
  reset_password-HasSingle, change_password-HasSingle, revoke_session-HasSingle,
  revoke_all_managed_sessions-HasSingle, revoke_all_sessions-HasSingle,
}
use court.Auth.OpenTokens.{
  HasOneOpenToken, IsNewUser, register-HasOneOpen, resend-HasOneOpen, request_reset-HasOneOpen,
}
use court.Auth.OpenTokens.Uses.{
  verify_email-HasOneOpen, reset_password-HasOneOpen, change_password-HasOneOpen,
}

-- `uuid4` gives a family and a user identifier that no row has
pub data Call (env : Env) (s : Store) : Store → Type 0 where
  registers :
      (user_id : ℕ) (email password : Text) (agent : Option Text) (token : FreshToken)
      (fresh : FreshSession) (delivery : Delivery)
      → IsNewFamily fresh.family_id s.refresh_sessions
      → IsNewUser user_id s.account_tokens
      → Call env s (register env user_id email password agent token fresh delivery s).1
  logs_in :
      (seen : Store) (email password : Text) (agent : Option Text) (now : ℕ) (fresh : FreshSession)
      → IsNewFamily fresh.family_id s.refresh_sessions
      → Call env s (login env seen email password agent now fresh s).1
  refreshes :
      (seen : Store) (raw agent : Option Text) (now : ℕ) (fresh : FreshSession)
      → Call env s (refresh env seen raw agent now fresh s).1
  logs_out : (raw : Option Text) (now : ℕ) → Call env s (logout env raw now s)
  resends :
      (user_id now : ℕ) (token : FreshToken) (delivery : Delivery)
      → Call env s (resend_verification env user_id now token delivery s).1
  verifies :
      (seen : Store) (raw : Text) (agent : Option Text) (current_user : Option ℕ)
      (refresh_token : Option Text) (now : ℕ) (fresh : FreshSession)
      → IsNewFamily fresh.family_id s.refresh_sessions
      → Call env s (verify_email env seen raw agent current_user refresh_token now fresh s).1
  onboards :
      (user_id : ℕ) (display_name : Text)
      → Call env s (complete_onboarding user_id display_name s).1
  requests_reset :
      (seen : Store) (email : Text) (now : ℕ) (token : FreshToken)
      → Call env s (request_password_reset env seen email now token s).1
  resets :
      (seen : Store) (raw new_password : Text) (now : ℕ)
      → Call env s (reset_password env seen raw new_password now s).1
  changes :
      (user_id : ℕ) (old new : Text) (raw agent : Option Text) (now : ℕ) (fresh : FreshSession)
      → Call env s (change_password env user_id old new raw agent now fresh s).1
  revokes :
      (seen : Store) (user_id i : ℕ) (raw : Option Text) (now : ℕ)
      → Call env s (revoke_session env seen user_id i raw now s).1
  revokes_managed :
      (user_id : ℕ) (preserve : Bool) (raw agent : Option Text) (now : ℕ) (fresh : FreshSession)
      → Call env s (revoke_all_managed_sessions env user_id preserve raw agent now fresh s).1
  revokes_all :
      (user_id : ℕ) (reason : RevocationReason) (now : ℕ)
      → Call env s (revoke_all_sessions user_id reason now s)

pub data Reach (env : Env) : Store → Type 0 where
  empty : Reach env (record { users = []; refresh_sessions = []; account_tokens = [] })
  next : {s t : Store} → Reach env s → Call env s t → Reach env t

pub record IsSound (s : Store) : Type 0 where
  pub single_active : HasSingleActive s
  pub one_open_token : HasOneOpenToken s

Call-HasSingleActive :
    {env : Env} {s t : Store} → Call env s t → HasSingleActive s → HasSingleActive t
Call-HasSingleActive {env} {s} (registers u e p a k f d new _) h =
    register-HasSingle env u e p a k f d s new h
Call-HasSingleActive {env} {s} (logs_in seen e p a now f new) h =
    login-HasSingle env seen e p a now f s new h
Call-HasSingleActive {env} {s} (refreshes seen raw a now f) h =
    refresh-HasSingle env seen raw a now f s h
Call-HasSingleActive {env} {s} (logs_out raw now) h = logout-HasSingle env raw now s h
Call-HasSingleActive {env} {s} (resends u now k d) h = rw sessions-resend h
Call-HasSingleActive {env} {s} (verifies seen raw a cu rt now f new) h =
    verify_email-HasSingle env seen raw a cu rt now f s new h
Call-HasSingleActive {env} {s} (onboards u name) h = rw sessions-onboarding h
Call-HasSingleActive {env} {s} (requests_reset seen e now k) h = rw sessions-request_reset h
Call-HasSingleActive {env} {s} (resets seen raw p now) h =
    reset_password-HasSingle env seen raw p now s h
Call-HasSingleActive {env} {s} (changes u old new raw a now f) h =
    change_password-HasSingle env u old new raw a now f s h
Call-HasSingleActive {env} {s} (revokes seen u i raw now) h =
    revoke_session-HasSingle env seen u i raw now s h
Call-HasSingleActive {env} {s} (revokes_managed u keep raw a now f) h =
    revoke_all_managed_sessions-HasSingle env u keep raw a now f s h
Call-HasSingleActive {env} {s} (revokes_all u reason now) h =
    revoke_all_sessions-HasSingle u reason now s h

Call-HasOneOpenToken :
    {env : Env} {s t : Store} → Call env s t → HasOneOpenToken s → HasOneOpenToken t
Call-HasOneOpenToken {env} {s} (registers u e p a k f d _ new) h =
    register-HasOneOpen env u e p a k f d s new h
Call-HasOneOpenToken {env} {s} (logs_in seen e p a now f new) h = rw tokens-login h
Call-HasOneOpenToken {env} {s} (refreshes seen raw a now f) h = rw tokens-refresh h
Call-HasOneOpenToken {env} {s} (logs_out raw now) h = rw tokens-logout h
Call-HasOneOpenToken {env} {s} (resends u now k d) h = resend-HasOneOpen env u now k d s h
Call-HasOneOpenToken {env} {s} (verifies seen raw a cu rt now f new) h =
    verify_email-HasOneOpen env seen raw a cu rt now f s h
Call-HasOneOpenToken {env} {s} (onboards u name) h = rw tokens-onboarding h
Call-HasOneOpenToken {env} {s} (requests_reset seen e now k) h =
    request_reset-HasOneOpen env seen e now k s h
Call-HasOneOpenToken {env} {s} (resets seen raw p now) h =
    reset_password-HasOneOpen env seen raw p now s h
Call-HasOneOpenToken {env} {s} (changes u old new raw a now f) h =
    change_password-HasOneOpen env u old new raw a now f s h
Call-HasOneOpenToken {env} {s} (revokes seen u i raw now) h = rw tokens-revoke h
Call-HasOneOpenToken {env} {s} (revokes_managed u keep raw a now f) h = rw tokens-revoke_managed h
Call-HasOneOpenToken {env} {s} (revokes_all u reason now) h = unfold revoke_all_sessions in h

-- After any calls of the service, in any order and with any tokens, each token family has at most
-- one session that is not revoked, and each account at most one open token for each purpose.
pub Reach-IsSound : {env : Env} {s : Store} → Reach env s → IsSound s
Reach-IsSound empty = record {
  single_active = λ f. omega arith;
  one_open_token = λ u p. omega arith;
}
Reach-IsSound (next r c) =
    let h = Reach-IsSound r in
    record {
      single_active = Call-HasSingleActive c h.single_active;
      one_open_token = Call-HasOneOpenToken c h.one_open_token;
    }
