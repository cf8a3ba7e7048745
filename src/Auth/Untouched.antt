-- ===== src/Auth/Untouched.antt =====
-- The tables that a call leaves alone.
use court.Base.{ℕ, Bool, true, false, Option, none, some, ◌≡◌, refl, arith}
use court.Auth.{Text, Env, Store, FreshSession, FreshToken}
use court.Auth.Refresh.{refresh, logout}
use court.Auth.Account.{
  Delivery, login, resend_verification, complete_onboarding, request_password_reset,
}
use court.Auth.Managed.{revoke_session, revoke_all_managed_sessions}

pub sessions-resend :
    (env : Env) (user_id now : ℕ) (token : FreshToken) (delivery : Delivery) (s : Store)
    → (resend_verification env user_id now token delivery s).1.refresh_sessions ≡ s.refresh_sessions
unfolding resend_verification
sessions-resend env user_id now token delivery s = ground arith

pub sessions-onboarding :
    (user_id : ℕ) (name : Text) (s : Store)
    → (complete_onboarding user_id name s).1.refresh_sessions ≡ s.refresh_sessions
unfolding complete_onboarding
sessions-onboarding user_id name s = ground arith

pub tokens-onboarding :
    (user_id : ℕ) (name : Text) (s : Store)
    → (complete_onboarding user_id name s).1.account_tokens ≡ s.account_tokens
unfolding complete_onboarding
tokens-onboarding user_id name s = ground arith

pub sessions-request_reset :
    (env : Env) (seen : Store) (email : Text) (now : ℕ) (token : FreshToken) (s : Store)
    → (request_password_reset env seen email now token s).1.refresh_sessions ≡ s.refresh_sessions
unfolding request_password_reset
sessions-request_reset env seen email now token s = ground arith

pub tokens-login :
    (env : Env) (seen : Store) (email password : Text) (agent : Option Text) (now : ℕ)
    (fresh : FreshSession) (s : Store)
    → (login env seen email password agent now fresh s).1.account_tokens ≡ s.account_tokens
unfolding login
tokens-login env seen email password agent now fresh s = ground arith

pub tokens-refresh :
    (env : Env) (seen : Store) (raw agent : Option Text) (now : ℕ) (fresh : FreshSession)
    (s : Store)
    → (refresh env seen raw agent now fresh s).1.account_tokens ≡ s.account_tokens
unfolding refresh
tokens-refresh env seen none agent now fresh s = refl
tokens-refresh env seen (some raw) agent now fresh s = ground arith

pub tokens-logout :
    (env : Env) (raw : Option Text) (now : ℕ) (s : Store)
    → (logout env raw now s).account_tokens ≡ s.account_tokens
unfolding logout
tokens-logout env none now s = refl
tokens-logout env (some raw) now s = ground arith

pub tokens-revoke :
    (env : Env) (seen : Store) (user_id i : ℕ) (raw : Option Text) (now : ℕ) (s : Store)
    → (revoke_session env seen user_id i raw now s).1.account_tokens ≡ s.account_tokens
unfolding revoke_session
tokens-revoke env seen user_id i raw now s = ground arith

pub tokens-revoke_managed :
    (env : Env) (user_id : ℕ) (preserve : Bool) (raw agent : Option Text) (now : ℕ)
    (fresh : FreshSession) (s : Store)
    → (revoke_all_managed_sessions env user_id preserve raw agent now fresh s).1.account_tokens
      ≡ s.account_tokens
unfolding revoke_all_managed_sessions
tokens-revoke_managed env user_id false raw agent now fresh s = ground arith
tokens-revoke_managed env user_id true none agent now fresh s = ground arith
tokens-revoke_managed env user_id true (some raw) agent now fresh s = ground arith
