-- ===== src/Auth/Account.antt =====
-- `register`, `login`, `resend_verification`, `verify_email`, `complete_onboarding` and
-- `request_password_reset`. A block `with session_factory.begin()` is a `transaction`.
use court.Base.{
  ℕ, Bool, true, false, Option, none, some, [], ◌∷◌, ◌++◌, Result, ok, err, Tx, pure, raise,
  raise_if, modify, gets, or_raise, transaction, ◌>>=◌, ◌>>◌, ◌==◌, ◌&&◌, ltb, not, is_some,
  is_none, if◌then◌else◌,
}
use court.Base.Text.{same_text}
use court.Base.Table.{length, find, any}
use court.Auth.{
  Text, Env, Store, User, AccountToken, RefreshSession, AuthError, FreshSession, FreshToken,
  SessionTokens, active, email_verification, password_reset, invalid_registration,
  registration_failed, email_delivery_unavailable, invalid_credentials, unauthorized,
  verification_account_mismatch, email_verification_required, invalid_or_used_token, has_user_id,
  has_token_id, is_active, update_user, update_tokens, invalidate_active_tokens,
}
use court.Auth.Text.{normalize_email, validate_new_password, validate_name}
use court.Auth.Issue.{
  create_session, create_account_token, rotate, lock_account_token, validate_account_token,
  active_refresh_session,
}

-- what the email service reports, if there is one
pub data Delivery : Type 0 where
  no_service sent failed : Delivery

abbrev pub has_failed : Delivery → Bool
has_failed failed = true
has_failed _ = false

abbrev pub has_email : Text → User → Bool
has_email email u = same_text u.email email

abbrev pub lift : {A : Type 0} → Result AuthError A → Tx Store AuthError A
lift r s = (r, s)

abbrev pub new_user : ℕ → Text → ℕ → User
new_user id email hash = record {
  id = id;
  email = email;
  password_hash = hash;
  account_status = active;
  last_login_at = none;
  email_verified_at = none;
  password_changed_at = none;
  display_name = none;
}

-- The unique index on `email` makes the insert fail. The email is sent inside the transaction.
unfoldable pub register_transaction :
    Env
    → ℕ
    → Text
    → Text
    → Option Text
    → FreshToken
    → FreshSession
    → Delivery
    → Tx Store AuthError (User × SessionTokens)
unfolding create_session create_account_token
register_transaction env user_id email password agent token fresh delivery = do
  let user = new_user user_id email (env.hash_password password)
  raise_if (← gets (λ s. any (has_email email) s.users)) registration_failed
  modify (λ s. record s { users = s.users ++ user ∷ [] })
  create_account_token env user_id email_verification env.verification_token_seconds token
  tokens ← create_session env user agent fresh
  raise_if (has_failed delivery) email_delivery_unavailable
  pure (user, tokens)

unfoldable pub register :
    Env
    → ℕ
    → Text
    → Text
    → Option Text
    → FreshToken
    → FreshSession
    → Delivery
    → Tx Store AuthError (User × SessionTokens)
unfolding register_transaction
register env user_id email password agent token fresh delivery = do
  normalized ← lift (normalize_email email)
  lift (validate_new_password env invalid_registration password)
  transaction (register_transaction env user_id normalized password agent token fresh delivery)

-- The account that a call holds after it selected the row a second time, under the lock, without
-- `populate_existing`: where the session of the database has loaded the row, it keeps what it loaded.
abbrev pub loaded : User → User → User
loaded candidate row = if row.id == candidate.id then candidate else row

-- the two columns that a login writes, by the account `user` that it holds
abbrev pub rehashed : Env → Text → ℕ → User → User → User
rehashed env password now user u = record u {
  password_hash =
      if env.check_needs_rehash user.password_hash
      then env.hash_password password
      else u.password_hash;
  last_login_at = some now;
}

unfoldable pub login_transaction :
    Env
    → Store
    → Text
    → Text
    → Option Text
    → ℕ
    → FreshSession
    → Tx Store AuthError (User × SessionTokens)
unfolding create_session
login_transaction env seen email password agent now fresh = do
  candidate ← or_raise (find (has_email email) seen.users) invalid_credentials
  row ← or_raise (← gets (λ s. find (has_email email) s.users)) invalid_credentials
  let user = loaded candidate row
  raise_if (not (is_active user)) invalid_credentials
  raise_if (not (env.verify_password user.password_hash password)) invalid_credentials
  modify (update_user user.id (rehashed env password now user))
  tokens ← create_session env (rehashed env password now user user) agent fresh
  pure (rehashed env password now user user, tokens)

-- `_login_failed` stands for the error of `normalize_email` too
unfoldable pub login :
    Env
    → Store
    → Text
    → Text
    → Option Text
    → ℕ
    → FreshSession
    → Tx Store AuthError (User × SessionTokens)
unfolding login_transaction
login env seen email password agent now fresh s =
    if ltb env.auth_max_password_length (length password)
    then (err invalid_credentials, s)
    else elim (normalize_email email) [
      | err e ↦ (err invalid_credentials, s)
      | ok normalized ↦
          transaction (login_transaction env seen normalized password agent now fresh) s
    ]

abbrev pub active_user : Option User → AuthError → Tx Store AuthError User
active_user none e = raise e
active_user (some user) e = if is_active user then pure user else raise e

-- inside the transaction: nothing to send to an address that is verified already
unfoldable pub renew_verification :
    Env → User → ℕ → FreshToken → Tx Store AuthError (Option (Text × ℕ))
unfolding invalidate_active_tokens create_account_token
renew_verification env user now token = if is_some user.email_verified_at then pure none else do
  modify (invalidate_active_tokens user.id email_verification now none)
  sent_token ←
      create_account_token env user.id email_verification env.verification_token_seconds token
  pure (some sent_token)

-- here the email is sent after the commit: a failed delivery leaves the new token in force
unfoldable pub resend_verification : Env → ℕ → ℕ → FreshToken → Delivery → Tx Store AuthError Bool
unfolding renew_verification
resend_verification env user_id now token delivery = do
  renewed ← transaction (do
    user ← active_user (← gets (λ s. find (has_user_id user_id) s.users)) unauthorized
    renew_verification env user now token)
  raise_if (is_some renewed && has_failed delivery) email_delivery_unavailable
  pure (is_some renewed)

abbrev pub belongs_elsewhere : Option ℕ → ℕ → Bool
belongs_elsewhere none i = false
belongs_elsewhere (some j) i = not (j == i)

abbrev pub owner_of : Option RefreshSession → Option ℕ
owner_of none = none
owner_of (some r) = some r.user_id

abbrev pub mark_verified : ℕ → User → User
mark_verified now u = record u {
  email_verified_at = if is_none u.email_verified_at then some now else u.email_verified_at;
}

-- a new family, or the rotation of the session that the browser holds
abbrev pub establish :
    Env
    → User
    → Option Text
    → ℕ
    → FreshSession
    → Option RefreshSession
    → Tx Store AuthError SessionTokens
establish env user agent now fresh none = create_session env user agent fresh
establish env user agent now fresh (some current) = rotate env user agent now fresh current

abbrev pub consume : AccountToken → ℕ → Store → Store
consume t now = update_tokens (has_token_id t.id) (λ r. record r { consumed_at = some now })

unfoldable pub verify_email :
    Env
    → Store
    → Text
    → Option Text
    → Option ℕ
    → Option Text
    → ℕ
    → FreshSession
    → Tx Store AuthError (User × SessionTokens)
unfolding lock_account_token validate_account_token active_refresh_session invalidate_active_tokens
    create_session rotate
verify_email env seen raw agent current_user refresh_token now fresh = transaction (do
  token ← lock_account_token env seen raw email_verification
  validate_account_token token now
  user ← active_user (← gets (λ s. find (has_user_id token.user_id) s.users)) invalid_or_used_token
  raise_if (belongs_elsewhere current_user user.id) verification_account_mismatch
  current ← gets (active_refresh_session env refresh_token now)
  raise_if (belongs_elsewhere (owner_of current) user.id) verification_account_mismatch
  modify (consume token now)
  modify (update_user user.id (mark_verified now))
  modify (invalidate_active_tokens user.id email_verification now (some token.id))
  tokens ← establish env (mark_verified now user) agent now fresh current
  pure (mark_verified now user, tokens))

unfoldable pub complete_onboarding : ℕ → Text → Tx Store AuthError User
complete_onboarding user_id display_name = do
  name ← lift (validate_name display_name)
  transaction (do
    user ← active_user (← gets (λ s. find (has_user_id user_id) s.users)) unauthorized
    raise_if (is_none user.email_verified_at) email_verification_required
    modify (update_user user_id (λ u. record u { display_name = some name }))
    pure (record user { display_name = some name }))

abbrev pub reset_link : Env → User → ℕ → FreshToken → Store → Option (Text × Text) × Store
reset_link env user now token s =
    let s' = invalidate_active_tokens user.id password_reset now none s in
    let (result, s'') =
      create_account_token env user.id password_reset env.password_reset_token_seconds token s' in
    (some (user.email, token.raw), s'')

-- The caller learns nothing. Returned is the message for the email service: address and token.
unfoldable pub request_password_reset :
    Env → Store → Text → ℕ → FreshToken → Store → Option (Text × Text) × Store
unfolding invalidate_active_tokens create_account_token
request_password_reset env seen email now token s = elim (normalize_email email) [
  | err e ↦ (none, s)
  | ok normalized ↦ elim (find (has_email normalized) seen.users) [
    | none ↦ (none, s)
    | some candidate ↦ elim (find (has_email normalized) s.users) [
      | none ↦ (none, s)
      | some row ↦
          if is_active (loaded candidate row)
          then reset_link env (loaded candidate row) now token s
          else (none, s)
    ]
  ]
]
