-- ===== src/Uploads.antt =====
-- app/services/uploads.py: the direct multipart upload of a source video. The row of one session is
-- locked by every transaction that writes it. Texts that are only compared (names, keys, digests)
-- are numbers, times are seconds. What the object storage answers during a call is an argument.
pub mod Row
pub mod Verify
pub mod Handlers
pub mod Initiate
pub mod Admission
pub mod Lifecycle
pub mod Once
pub mod Verification
pub mod Settled
mod Tests
pub mod Machine
use court.Base.{ℕ, Bool, true, false, Option, none, some, List}

pub data Status : Type 0 where
  initiated uploading completing verifying analyzing completed aborted failed expired : Status

pub data FailureReason : Type 0 where
  object_head_failed object_metadata_mismatch checksum_mismatch : FailureReason
  verified_checksum_missing object_size_mismatch upload_session_expired : FailureReason
  upload_cancel_requested duplicate_cleanup_pending object_verification_failed : FailureReason
  upload_finalization_failed expired_session_reconciled : FailureReason
  workflow_error : ℕ → FailureReason

-- the codes of the errors that the service raises
pub data UploadError : Type 0 where
  not_found match_deleted idempotency_conflict capacity_busy backend_error : UploadError
  invalid_upload_state invalid_part_number missing_upload_part session_expired : UploadError
  object_verification_failed : UploadError

-- `UploadAnalysisResponse`: the analysis that was created, or the exact duplicate that was found
pub data Payload : Type 0 where
  created : ℕ → Payload
  duplicate_of : ℕ → Payload

-- `UploadSession`
pub record UploadSession : Type 0 where
  pub id : ℕ
  pub owner_user_id : ℕ
  pub analysis_id : ℕ
  pub content_type : ℕ
  pub declared_size : ℕ
  pub storage_key : ℕ
  pub status : Status
  pub part_size : ℕ
  pub part_count : ℕ
  pub expected_sha256 : Option ℕ
  pub verified_sha256 : Option ℕ
  pub idempotency_key_hash : ℕ
  pub request_fingerprint : ℕ
  pub reanalyze : Bool
  pub file_identity : Option ℕ
  pub result_payload : Option Payload
  pub failure_reason : Option FailureReason
  pub row_version : ℕ
  pub updated_at : ℕ
  pub expires_at : ℕ
  pub aborted_at : Option ℕ
  pub completed_at : Option ℕ
  pub verification_started_at : Option ℕ

-- what `head_upload` reports of the stored object
pub record Head : Type 0 where
  pub size_bytes : ℕ
  pub metadata_session : Option ℕ
  pub metadata_size : Option ℕ
  pub content_type : ℕ

-- `_ACTIVE_MULTIPART_STATES`
abbrev pub is_active_multipart : Status → Bool
is_active_multipart initiated = true
is_active_multipart uploading = true
is_active_multipart _ = false

-- `_EXPIRABLE_STATES | {"expired"}`
abbrev pub is_expirable : Status → Bool
is_expirable initiated = true
is_expirable uploading = true
is_expirable expired = true
is_expirable _ = false

-- the states that count against the owner's limit
abbrev pub counts_as_active : Status → Bool
counts_as_active initiated = true
counts_as_active uploading = true
counts_as_active completing = true
counts_as_active verifying = true
counts_as_active analyzing = true
counts_as_active _ = false

abbrev pub is_pending_cleanup : Option FailureReason → Bool
is_pending_cleanup none = false
is_pending_cleanup (some reason) = elim reason [ duplicate_cleanup_pending ↦ true | _ ↦ false ]
