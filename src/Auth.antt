-- ===== src/Auth.antt =====
-- The account and session state of app/auth/service.py (tables of app/persistence/models.py), and
-- what its service takes from outside. Identifiers, digests and times (seconds) are numbers; texts
-- are lists of code points. Messages and log lines are left out.
pub mod Text
pub mod Issue
pub mod Refresh
pub mod Account
pub mod Password
pub mod Managed
pub mod Families
pub mod OpenTokens
pub mod Untouched
pub mod Reach
pub mod Rotation
pub mod SignOut
pub mod Access
mod Tests
use court.Base.{ℕ, Bool, true, false, Option, none, some, List, leb, ◌==◌, ◌&&◌, not, is_none}
use court.Base.Table.{update_where}

abbrev pub Text : Type 0
Text = List ℕ

pub data AccountStatus : Type 0 where
  active disabled : AccountStatus

pub data Purpose : Type 0 where
  email_verification password_reset : Purpose

pub data RevocationReason : Type 0 where
  rotated expired refresh_token_reuse account_unavailable logout : RevocationReason
  reset_of_password password_changed user_revoked user_revoke_all : RevocationReason
  other_reason : ℕ → RevocationReason

-- the codes of `AuthenticationError`
pub data AuthError : Type 0 where
  invalid_registration registration_failed email_delivery_unavailable : AuthError
  invalid_credentials invalid_session unauthorized verification_account_mismatch : AuthError
  invalid_display_name email_verification_required invalid_or_used_token : AuthError
  token_expired invalid_password invalid_current_password password_unchanged : AuthError
  session_not_found : AuthError

-- `User`
pub record User : Type 0 where
  pub id : ℕ
  pub email : Text
  pub password_hash : ℕ
  pub account_status : AccountStatus
  pub last_login_at : Option ℕ
  pub email_verified_at : Option ℕ
  pub password_changed_at : Option ℕ
  pub display_name : Option Text

-- `RefreshSession`
pub record RefreshSession : Type 0 where
  pub id : ℕ
  pub user_id : ℕ
  pub token_hash : ℕ
  pub token_family_id : ℕ
  pub replaced_by_session_id : Option ℕ
  pub created_at : ℕ
  pub expires_at : ℕ
  pub last_used_at : Option ℕ
  pub revoked_at : Option ℕ
  pub revocation_reason : Option RevocationReason
  pub user_agent : Option Text

-- `AccountToken`
pub record AccountToken : Type 0 where
  pub id : ℕ
  pub user_id : ℕ
  pub purpose : Purpose
  pub token_hash : ℕ
  pub expires_at : ℕ
  pub consumed_at : Option ℕ
  pub invalidated_at : Option ℕ

pub record Store : Type 0 where
  pub users : List User
  pub refresh_sessions : List RefreshSession
  pub account_tokens : List AccountToken

-- the claims of an access token
pub record Claims : Type 0 where
  pub sub : ℕ
  pub iat : ℕ
  pub exp : ℕ
  pub jti : ℕ

-- `Settings`, and the libraries: argon2, sha256, uuid, jwt.
pub record Env : Type 0 where
  pub auth_min_password_length : ℕ
  pub auth_max_password_length : ℕ
  pub verification_token_seconds : ℕ
  pub password_reset_token_seconds : ℕ
  pub refresh_token_seconds : ℕ
  pub access_token_seconds : ℕ
  pub verify_password : ℕ → Text → Bool
  pub hash_password : Text → ℕ
  pub check_needs_rehash : ℕ → Bool
  pub token_hash : Text → ℕ
  pub parse_uuid : Text → Option ℕ
  pub uuid_text : ℕ → Text
  pub jwt_encode : Claims → ℕ
  pub jwt_decode : ℕ → ℕ → Option ℕ

-- What `uuid4`, `secrets` and the clock return while a session is issued.
pub record FreshSession : Type 0 where
  pub session_id : ℕ
  pub family_id : ℕ
  pub secret : Text
  pub jti : ℕ
  pub issued_at : ℕ

-- The same for an account token.
pub record FreshToken : Type 0 where
  pub token_id : ℕ
  pub raw : Text
  pub issued_at : ℕ

-- `SessionTokens`
pub record SessionTokens : Type 0 where
  pub access_token : ℕ
  pub refresh_token : Text
  pub access_expires_in : ℕ

abbrev pub is_active : User → Bool
is_active u = elim u.account_status [ active ↦ true | disabled ↦ false ]

abbrev pub same_purpose : Purpose → Purpose → Bool
same_purpose email_verification email_verification = true
same_purpose password_reset password_reset = true
same_purpose _ _ = false

abbrev pub has_user_id : ℕ → User → Bool
has_user_id i u = u.id == i

abbrev pub has_session_id : ℕ → RefreshSession → Bool
has_session_id i r = r.id == i

abbrev pub has_token_id : ℕ → AccountToken → Bool
has_token_id i t = t.id == i

abbrev pub in_family : ℕ → RefreshSession → Bool
in_family f r = r.token_family_id == f && is_none r.revoked_at

abbrev pub of_user : ℕ → RefreshSession → Bool
of_user u r = r.user_id == u && is_none r.revoked_at

abbrev pub revoked : ℕ → RevocationReason → RefreshSession → RefreshSession
revoked now reason r = record r { revoked_at = some now; revocation_reason = some reason }

-- the assignments to a row that another row replaces
abbrev pub retired : ℕ → ℕ → RefreshSession → RefreshSession
retired now replacement r = record r {
  replaced_by_session_id = some replacement;
  last_used_at = some now;
  revoked_at = some now;
  revocation_reason = some rotated;
}

abbrev pub update_sessions :
    (RefreshSession → Bool) → (RefreshSession → RefreshSession) → Store → Store
update_sessions p f s = record s { refresh_sessions = update_where p f s.refresh_sessions }

abbrev pub update_user : ℕ → (User → User) → Store → Store
update_user i f s = record s { users = update_where (has_user_id i) f s.users }

abbrev pub update_tokens : (AccountToken → Bool) → (AccountToken → AccountToken) → Store → Store
update_tokens p f s = record s { account_tokens = update_where p f s.account_tokens }

-- `_revoke_family`
unfoldable pub revoke_family : ℕ → RevocationReason → ℕ → Store → Store
revoke_family family reason now = update_sessions (in_family family) (revoked now reason)

-- a token that can still be used
abbrev pub is_open : AccountToken → Bool
is_open t = is_none t.consumed_at && is_none t.invalidated_at

abbrev pub open_for : ℕ → Purpose → AccountToken → Bool
open_for u purpose t = t.user_id == u && same_purpose t.purpose purpose && is_open t

-- `_invalidate_active_tokens`, with the row of `exclude_id` kept
unfoldable pub invalidate_active_tokens : ℕ → Purpose → ℕ → Option ℕ → Store → Store
invalidate_active_tokens u purpose now none =
    update_tokens (open_for u purpose) (λ t. record t { invalidated_at = some now })
invalidate_active_tokens u purpose now (some exclude) =
    update_tokens (λ t. open_for u purpose t && not (t.id == exclude))
      (λ t. record t { invalidated_at = some now })

-- the condition under which a session authenticates at `now` by a token with digest `hash`
abbrev pub is_valid_session : ℕ → ℕ → RefreshSession → Bool
is_valid_session hash now r =
    is_none r.revoked_at && not (leb r.expires_at now) && r.token_hash == hash
