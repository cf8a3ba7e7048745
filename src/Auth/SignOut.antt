-- ===== src/Auth/SignOut.antt =====
-- The calls that sign an account out elsewhere, and the token that pays for one of them.
use court.Base.{
  ℕ, ◌≡◌, refl, Bool, Option, none, some, List, [], ◌∷◌, ◌++◌, ok, err, ◌==◌, ◌&&◌, not, ap, ◌∙◌,
  Bool-cases, if◌then◌else◌, arith, inl, inr, Option-cases, Result-cases,
}
use court.Base.Table.{find, count, update_where, count-update_none, count-append, find_holds}
use court.Auth.{
  Text, Env, Store, User, RefreshSession, FreshSession, SessionTokens, RevocationReason, of_user,
  AccountToken, open_for, has_token_id, revoked, retired, has_session_id, has_user_id,
  password_reset, reset_of_password, password_changed, invalid_password, invalid_or_used_token,
}
use court.Auth.Text.{parse_refresh_session_id, validate_new_password}
use court.Auth.Issue.{new_session, is_token}
use court.Auth.OpenTokens.{invalidated, consumed}
use court.Auth.Password.{reset_password, change_password, own_session, others_of, with_password}

revoke_user :
    (u now : ℕ) (reason : RevocationReason) (rs : List RefreshSession)
    → count (of_user u) (update_where (of_user u) (revoked now reason) rs) ≡ 0
revoke_user u now reason rs =
    count-update_none (of_user u) (of_user u) (revoked now reason) (λ x. ground arith) (λ x h. h) rs

-- After a successful password reset no session of the account is unrevoked.
pub reset_signs_out :
    (env : Env) (seen : Store) (raw new_password : Text) (now : ℕ) (s s' : Store) (user : User)
    → reset_password env seen raw new_password now s ≡ (ok user, s')
    → count (of_user user.id) s'.refresh_sessions ≡ 0
unfolding reset_password
reset_signs_out env seen raw new_password now s s' user h =
    elim (Option-cases (find (is_token (env.token_hash raw) password_reset) s.account_tokens)) [
      | inl gone ↦ absurd (ground arith)
      | inr (token, e) ↦ elim (Option-cases (find (has_user_id token.user_id) s.users)) [
        | inl gone ↦ absurd (ground arith)
        | inr (found, e') ↦ ground (
          arith,
          find_holds (has_user_id token.user_id) s.users e',
          revoke_user token.user_id now reset_of_password s.refresh_sessions,
        )
      ]
    ]

find-update :
    (p q : AccountToken → Bool) (f : AccountToken → AccountToken)
    → ((t : AccountToken) → p (f t) ≡ p t)
    → (ts : List AccountToken) (t : AccountToken) → find p ts ≡ some t
    → find p (update_where q f ts) ≡ some (if q t then f t else t)
find-update p q f same [] t e = absurd (cc)
find-update p q f same (x ∷ ts) t e = elim (Bool-cases (p x)) [
  | inl hit ↦ let eq : x ≡ t = ground arith in ground (arith, same x, ap q eq, ap f eq)
  | inr miss ↦ ground (arith, same x, find-update p q f same ts t)
]

-- the row of the link after a reset: consumed
abbrev spent : AccountToken → ℕ → AccountToken
spent t now = record t { consumed_at = some now }

spent_row :
    (env : Env) (raw : Text) (now u : ℕ) (ts : List AccountToken) (t : AccountToken)
    → find (is_token (env.token_hash raw) password_reset) ts ≡ some t
    → find (is_token (env.token_hash raw) password_reset) (
        update_where
          (λ x. open_for u password_reset x && not (x.id == t.id))
          (invalidated now)
          (update_where (has_token_id t.id) (consumed now) ts))
      ≡ some (spent t now)
spent_row env raw now u ts t e =
    let p = is_token (env.token_hash raw) password_reset in
    find-update p (λ x. open_for u password_reset x && not (x.id == t.id)) (invalidated now)
      (λ x. refl) (update_where (has_token_id t.id) (consumed now) ts) (spent t now)
      (find-update p (has_token_id t.id) (consumed now) (λ x. refl) ts t e ∙ ground (arith))
    ∙ ground arith

-- every unrevoked session of the account but the current one, and then that one
others_then_current :
    (u i now j : ℕ) (reason : RevocationReason) (rs : List RefreshSession)
    → count (of_user u) (
        update_where
          (has_session_id i)
          (retired now j)
          (update_where (others_of u i) (revoked now reason) rs))
      ≡ 0
others_then_current u i now j reason [] = refl
others_then_current u i now j reason (r ∷ rs) =
    ground (arith, others_then_current u i now j reason rs)

replaced_once :
    (env : Env) (user : User) (agent : Option Text) (family u i now : ℕ) (fresh : FreshSession)
    (reason : RevocationReason) (rs : List RefreshSession)
    → user.id ≡ u
    → count (of_user u) (
        update_where
          (has_session_id i)
          (retired now fresh.session_id)
          (update_where (others_of u i) (revoked now reason) rs)
        ++ new_session env user agent family fresh ∷ [])
      ≡ 1
replaced_once env user agent family u i now fresh reason rs e =
    rw count-append (ground (arith, others_then_current u i now fresh.session_id reason rs))

-- the link's row once a reset has succeeded
reset_spends :
    (env : Env) (seen : Store) (raw password : Text) (now : ℕ) (s s' : Store) (user : User)
    → reset_password env seen raw password now s ≡ (ok user, s')
    → (t : AccountToken) × (find (is_token (env.token_hash raw) password_reset) s'.account_tokens
        ≡ some (spent t now))
unfolding reset_password
reset_spends env seen raw password now s s' user h =
    elim (Option-cases (find (is_token (env.token_hash raw) password_reset) s.account_tokens)) [
      | inl gone ↦ absurd (ground arith)
      | inr (token, e) ↦ elim (Option-cases (find (has_user_id token.user_id) s.users)) [
        | inl gone ↦ absurd (ground arith)
        | inr (found, account) ↦
            (token, ground (arith, spent_row env raw now found.id s.account_tokens token e))
      ]
    ]

spent_refused :
    (env : Env) (seen : Store) (raw password : Text) (now later : ℕ) (s : Store) (t : AccountToken)
    → find (is_token (env.token_hash raw) password_reset) s.account_tokens ≡ some (spent t now)
    → validate_new_password env invalid_password password ≡ ok tt
    → reset_password env seen raw password later s ≡ (err invalid_or_used_token, s)
unfolding reset_password
spent_refused env seen raw password now later s t e v = rw (v, reset_password) (ground arith)

-- A used reset link is dead: presented again, with any password and at any time, it is refused with
-- `invalid_or_used_token` and changes nothing, where the password itself is acceptable.
pub reset_once :
    (env : Env) (seen seen' : Store) (raw first second : Text) (now later : ℕ) (s s' : Store)
    (user : User)
    → reset_password env seen raw first now s ≡ (ok user, s')
    → validate_new_password env invalid_password second ≡ ok tt
    → reset_password env seen' raw second later s' ≡ (err invalid_or_used_token, s')
reset_once env seen seen' raw first second now later s s' user h v =
    let (t, e) = reset_spends env seen raw first now s s' user h in
    spent_refused env seen' raw second now later s' t e v

-- After a successful change of password exactly one session of the account is unrevoked.
pub change_keeps_one :
    (env : Env) (user_id : ℕ) (old new : Text) (raw agent : Option Text) (now : ℕ)
    (fresh : FreshSession) (s s' : Store) (user : User) (tokens : SessionTokens)
    → change_password env user_id old new raw agent now fresh s ≡ (ok (user, tokens), s')
    → count (of_user user_id) s'.refresh_sessions ≡ 1
unfolding change_password
change_keeps_one env user_id old new none agent now fresh s s' user tokens h = absurd (ground arith)
change_keeps_one env user_id old new (some raw) agent now fresh s s' user tokens h =
    elim (Result-cases (parse_refresh_session_id env (some raw))) [
      | inr (x, e) ↦ absurd (ground arith)
      | inl (i, e) ↦ elim (Option-cases (find (has_user_id user_id) s.users)) [
        | inl gone ↦ absurd (ground arith)
        | inr (found, account) ↦
            elim (Option-cases (find (own_session user_id i) s.refresh_sessions)) [
              | inl none_of_it ↦ absurd (ground arith)
              | inr (current, row) ↦ ground (
                arith,
                find_holds (has_user_id user_id) s.users account,
                find_holds (own_session user_id i) s.refresh_sessions row,
                replaced_once env (with_password env new now found) agent current.token_family_id
                    user_id current.id now fresh password_changed s.refresh_sessions,
              )
            ]
      ]
    ]
