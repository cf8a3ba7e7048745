-- ===== src/Auth/OpenTokens/Uses.antt =====
-- The calls that use a token, or close the open ones: `verify_email`, `reset_password`,
-- `change_password`.
use court.Base.{ℕ, ◌≤◌, Option, List, ◌&&◌, ◌==◌, not, arith, inl, inr, Option-cases, Result-cases}
use court.Base.Table.{find, count, update_where}
use court.Auth.{
  Text, Env, Store, AccountToken, Purpose, FreshSession, email_verification, password_reset,
  open_for, has_user_id, has_token_id,
}
use court.Auth.Text.{parse_refresh_session_id}
use court.Auth.Issue.{is_token}
use court.Auth.Account.{verify_email}
use court.Auth.Password.{reset_password, change_password}
use court.Auth.OpenTokens.{
  HasOneOpen, HasOneOpenToken, invalidated, consumed, invalidate-le, consume-le,
}

-- a token is consumed, and the other open ones of its purpose are invalidated
use_up-le :
    (i now u' : ℕ) (purpose : Purpose) (ts : List AccountToken) (u : ℕ) (p : Purpose)
    → HasOneOpen ts
    → count (open_for u p) (
        update_where
          (λ t. open_for u' purpose t && not (t.id == i))
          (invalidated now)
          (update_where (has_token_id i) (consumed now) ts))
      ≤ 1
use_up-le i now u' purpose ts u p h = omega (
  arith,
  h u p,
  consume-le (has_token_id i) now ts u p,
  invalidate-le (λ (t : AccountToken). open_for u' purpose t && not (t.id == i)) now
      (update_where (has_token_id i) (consumed now) ts) u p,
)

pub verify_email-HasOneOpen :
    (env : Env) (seen : Store) (raw : Text) (agent : Option Text) (current_user : Option ℕ)
    (refresh_token : Option Text) (now : ℕ) (fresh : FreshSession) (s : Store)
    → HasOneOpenToken s
    → HasOneOpenToken (verify_email env seen raw agent current_user refresh_token now fresh s).1
unfolding verify_email
verify_email-HasOneOpen env seen raw agent current_user refresh_token now fresh s h u p =
    elim (Option-cases (find (is_token (env.token_hash raw) email_verification) s.account_tokens)) [
      | inl gone ↦ ground (arith, h u p)
      | inr (token, e) ↦ elim (Option-cases (find (has_user_id token.user_id) s.users)) [
        | inl gone ↦ ground (arith, h u p)
        | inr (user, e') ↦
            ground (
              arith,
              h u p,
              use_up-le token.id now user.id email_verification s.account_tokens u p h,
            )
      ]
    ]

pub reset_password-HasOneOpen :
    (env : Env) (seen : Store) (raw new_password : Text) (now : ℕ) (s : Store)
    → HasOneOpenToken s
    → HasOneOpenToken (reset_password env seen raw new_password now s).1
unfolding reset_password
reset_password-HasOneOpen env seen raw new_password now s h u p =
    elim (Option-cases (find (is_token (env.token_hash raw) password_reset) s.account_tokens)) [
      | inl gone ↦ ground (arith, h u p)
      | inr (token, e) ↦ elim (Option-cases (find (has_user_id token.user_id) s.users)) [
        | inl gone ↦ ground (arith, h u p)
        | inr (user, e') ↦
            ground
              (arith, h u p, use_up-le token.id now user.id password_reset s.account_tokens u p h)
      ]
    ]

pub change_password-HasOneOpen :
    (env : Env) (user_id : ℕ) (old new : Text) (raw agent : Option Text) (now : ℕ)
    (fresh : FreshSession) (s : Store)
    → HasOneOpenToken s
    → HasOneOpenToken (change_password env user_id old new raw agent now fresh s).1
unfolding change_password
change_password-HasOneOpen env user_id old new raw agent now fresh s h u p =
    elim (Result-cases (parse_refresh_session_id env raw)) [
      | inr (x, e) ↦ ground (arith, h u p)
      | inl (i, e) ↦ elim (Option-cases (find (has_user_id user_id) s.users)) [
        | inl gone ↦ ground (arith, h u p)
        | inr (user, e') ↦
            ground (
              arith,
              h u p,
              invalidate-le (open_for user.id password_reset) now s.account_tokens u p,
            )
      ]
    ]
