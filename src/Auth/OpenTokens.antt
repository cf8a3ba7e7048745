-- ===== src/Auth/OpenTokens.antt =====
-- An account has at most one open token for each purpose, so the partial unique index
-- `uq_account_token_active_purpose` never refuses an insert of the service.
pub mod Uses
use court.Base.{
  ℕ, suc, ◌+◌, ◌≤◌, ◌≡◌, refl, Bool, true, false, Option, none, some, List, [], ◌∷◌, ◌++◌, Result,
  ok, err, ◌==◌, ◌&&◌, not, is_none, arith, inl, inr, Option-cases, Result-cases, transaction,
}
use court.Base.Table.{
  find, count, update_where, All, count-append, count-update-le, count-update_none,
}
use court.Auth.{
  Text, Env, Store, User, AccountToken, Purpose, FreshSession, FreshToken, email_verification,
  password_reset, open_for, same_purpose, has_user_id, has_token_id, unauthorized,
}
use court.Auth.Text.{normalize_email, parse_refresh_session_id, validate_name}
use court.Auth.Issue.{is_token, expire_token}
use court.Auth.Account.{
  Delivery, register_transaction, register, login_transaction, login, renew_verification,
  resend_verification, verify_email, request_password_reset, has_email, active_user, reset_link,
  loaded,
}
use court.Auth.Password.{reset_password, change_password, change_password_transaction, own_session}

abbrev pub HasOneOpen : List AccountToken → Type 0
HasOneOpen ts = (u : ℕ) (purpose : Purpose) → count (open_for u purpose) ts ≤ 1

abbrev pub HasOneOpenToken : Store → Type 0
HasOneOpenToken s = HasOneOpen s.account_tokens

-- no token belongs to the identifier that a new account is given
abbrev pub IsNewUser : ℕ → List AccountToken → Type 0
IsNewUser u ts = All (λ t. (t.user_id == u) ≡ false) ts

abbrev pub invalidated : ℕ → AccountToken → AccountToken
invalidated now t = record t { invalidated_at = some now }

abbrev pub consumed : ℕ → AccountToken → AccountToken
consumed now t = record t { consumed_at = some now }

pub invalidate-le :
    (q : AccountToken → Bool) (now : ℕ) (ts : List AccountToken) (u : ℕ) (p : Purpose)
    → count (open_for u p) (update_where q (invalidated now) ts) ≤ count (open_for u p) ts
invalidate-le q now ts u p =
    count-update-le (open_for u p) q (invalidated now) (λ t _. ground arith) ts

pub consume-le :
    (q : AccountToken → Bool) (now : ℕ) (ts : List AccountToken) (u : ℕ) (p : Purpose)
    → count (open_for u p) (update_where q (consumed now) ts) ≤ count (open_for u p) ts
consume-le q now ts u p = count-update-le (open_for u p) q (consumed now) (λ t _. ground arith) ts

new_token : Env → ℕ → Purpose → ℕ → FreshToken → AccountToken
new_token env user_id purpose lifetime fresh = record {
  id = fresh.token_id;
  user_id = user_id;
  purpose = purpose;
  token_hash = env.token_hash fresh.raw;
  expires_at = fresh.issued_at + lifetime;
  consumed_at = none;
  invalidated_at = none;
}

same_purpose_eq : (p q : Purpose) → same_purpose p q ≡ true → p ≡ q
same_purpose_eq email_verification email_verification e = refl
same_purpose_eq email_verification password_reset e = cc
same_purpose_eq password_reset email_verification e = cc
same_purpose_eq password_reset password_reset e = refl

-- the open tokens of a purpose are invalidated before the new one is inserted
renew-HasOneOpen :
    (env : Env) (user_id now lifetime : ℕ) (purpose : Purpose) (fresh : FreshToken)
    (ts : List AccountToken) (u : ℕ) (p : Purpose)
    → HasOneOpen ts
    → count (open_for u p) (
        update_where (open_for user_id purpose) (invalidated now) ts
        ++ new_token env user_id purpose lifetime fresh ∷ [])
      ≤ 1
unfolding new_token
renew-HasOneOpen env user_id now lifetime purpose fresh ts u p h = rw count-append (
    ground (
      arith,
      h u p,
      invalidate-le (open_for user_id purpose) now ts u p,
      same_purpose_eq purpose p,
      count-update_none (open_for user_id purpose) (open_for user_id purpose) (invalidated now)
          (λ t. ground arith) (λ t e. e) ts,
    ))

count-new_user :
    (user_id : ℕ) (ts : List AccountToken) (u : ℕ) (p : Purpose)
    → IsNewUser user_id ts
    → (u == user_id) ≡ true
    → count (open_for u p) ts ≡ 0
count-new_user user_id [] u p h e = refl
count-new_user user_id (t ∷ ts) u p h e = ground (arith, h.0, count-new_user user_id ts u p h.1 e)

first-HasOneOpen :
    (env : Env) (user_id lifetime : ℕ) (purpose : Purpose) (fresh : FreshToken)
    (ts : List AccountToken) (u : ℕ) (p : Purpose)
    → IsNewUser user_id ts
    → HasOneOpen ts
    → count (open_for u p) (ts ++ new_token env user_id purpose lifetime fresh ∷ []) ≤ 1
unfolding new_token
first-HasOneOpen env user_id lifetime purpose fresh ts u p new h =
    rw count-append (ground (arith, h u p, count-new_user user_id ts u p new))

pub register-HasOneOpen :
    (env : Env) (user_id : ℕ) (email password : Text) (agent : Option Text) (token : FreshToken)
    (fresh : FreshSession) (delivery : Delivery) (s : Store)
    → IsNewUser user_id s.account_tokens
    → HasOneOpenToken s
    → HasOneOpenToken (register env user_id email password agent token fresh delivery s).1
unfolding register new_token
register-HasOneOpen env user_id email password agent token fresh delivery s new h u p = ground (
  arith,
  h u p,
  first-HasOneOpen env user_id env.verification_token_seconds email_verification token
      s.account_tokens u p new h,
)

pub resend-HasOneOpen :
    (env : Env) (user_id now : ℕ) (token : FreshToken) (delivery : Delivery) (s : Store)
    → HasOneOpenToken s
    → HasOneOpenToken (resend_verification env user_id now token delivery s).1
unfolding resend_verification new_token
resend-HasOneOpen env user_id now token delivery s h u p =
    elim (Option-cases (find (has_user_id user_id) s.users)) [
      | inl gone ↦ ground (arith, h u p)
      | inr (user, e) ↦ ground (
        arith,
        h u p,
        renew-HasOneOpen env user.id now env.verification_token_seconds email_verification token
            s.account_tokens u p h,
      )
    ]

pub request_reset-HasOneOpen :
    (env : Env) (seen : Store) (email : Text) (now : ℕ) (token : FreshToken) (s : Store)
    → HasOneOpenToken s
    → HasOneOpenToken (request_password_reset env seen email now token s).1
unfolding request_password_reset new_token
request_reset-HasOneOpen env seen email now token s h u p =
    elim (Result-cases (normalize_email email)) [
      | inr (x, e) ↦ ground (arith, h u p)
      | inl (normalized, e) ↦ elim (Option-cases (find (has_email normalized) s.users)) [
        | inl gone ↦ ground (arith, h u p)
        | inr (row, e') ↦ elim (Option-cases (find (has_email normalized) seen.users)) [
          | inl unseen ↦ ground (arith, h u p)
          | inr (candidate, first) ↦ ground (
            arith,
            h u p,
            renew-HasOneOpen env (loaded candidate row).id now env.password_reset_token_seconds
                password_reset token s.account_tokens u p h,
          )
        ]
      ]
    ]
