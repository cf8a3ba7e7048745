-- ===== src/Uploads/Verify.antt =====
-- The transactions on one locked row that the background verification makes, and
-- `verify_and_analyze` itself, where nothing else comes between its transactions.
use court.Base.{
  ℕ, ◌+◌, Bool, true, false, Option, none, some, Result, ok, err, ltb, ◌==◌, ◌||◌, not, is_none,
  if◌then◌else◌,
}
use court.Uploads.{
  Status, verifying, analyzing, completed, failed, FailureReason, verified_checksum_missing,
  object_size_mismatch, duplicate_cleanup_pending, upload_finalization_failed, workflow_error,
  backend_error, invalid_upload_state, Payload, created, duplicate_of, UploadSession,
  is_pending_cleanup,
}
use court.Uploads.Row.{Call, moved, fail}

abbrev pub is_verifying : Status → Bool
is_verifying verifying = true
is_verifying _ = false

abbrev pub is_analyzing : Status → Bool
is_analyzing analyzing = true
is_analyzing _ = false

abbrev pub is_completed : Status → Bool
is_completed completed = true
is_completed _ = false

-- `verification_started_at > now - lease`
abbrev pub is_leased : Option ℕ → ℕ → ℕ → Bool
is_leased none lease now = false
is_leased (some started) lease now = ltb now (started + lease)

-- the claim of the lease: false if the row is not to be verified now
unfoldable pub claim_verification : ℕ → ℕ → UploadSession → Bool × UploadSession
claim_verification lease now r =
    if not (is_verifying r.status || is_analyzing r.status)
    then (false, r)
    else if is_leased r.verification_started_at lease now
    then (false, r)
    else (
      true,
      record r {
        verification_started_at = some now;
        row_version = r.row_version + 1;
        updated_at = now;
      },
    )

-- the transaction behind the checksum: false if the analysis is not to be run
unfoldable pub record_checksum : ℕ → ℕ → ℕ → UploadSession → Bool × UploadSession
record_checksum checksum verified_size now r =
    if not (is_verifying r.status)
    then (false, r)
    else if not (verified_size == r.declared_size)
    then (false, record (moved failed now r) { failure_reason = some object_size_mismatch })
    else (
      true,
      record (moved analyzing now r) {
        verified_sha256 = some checksum;
        verification_started_at = some now;
      },
    )

-- the intent to delete a duplicate is committed before the storage is called
unfoldable pub record_duplicate : Payload → ℕ → UploadSession → Bool × UploadSession
record_duplicate payload now r = if not (is_analyzing r.status) then (false, r) else (
  true,
  record r {
    result_payload = some payload;
    failure_reason = some duplicate_cleanup_pending;
    row_version = r.row_version + 1;
    updated_at = now;
  },
)

unfoldable pub complete_analysis : Payload → ℕ → UploadSession → UploadSession
complete_analysis payload now r =
    if not (is_analyzing r.status)
    then r
    else record (moved completed now r) { result_payload = some payload; completed_at = some now }

-- what `cleanup_duplicate` finds outside the row, and whether the storage deletes the object
pub record Surroundings : Type 0 where
  pub expected_key : ℕ
  pub has_analysis : Bool
  pub key_registered : Bool
  pub delete_ok : Bool

abbrev pub names_other : Option Payload → ℕ → Bool
names_other none analysis_id = false
names_other (some payload) analysis_id = elim payload [
  | created _ ↦ false
  | duplicate_of existing ↦ not (existing == analysis_id)
]

unfoldable pub cleanup_duplicate : Surroundings → ℕ → Call (Unit {0})
cleanup_duplicate w now r =
    if is_completed r.status
    then (ok tt, r)
    else if not (is_pending_cleanup r.failure_reason) || r.reanalyze
    then (err invalid_upload_state, r)
    else if not (names_other r.result_payload r.analysis_id)
        || not (r.storage_key == w.expected_key)
        || w.has_analysis
        || w.key_registered
    then (err invalid_upload_state, r)
    else if not w.delete_ok
    then (err backend_error, r)
    else (ok tt, record (moved completed now r) { failure_reason = none; completed_at = some now })

-- what the workflow may raise, a `JobWorkflowError` with its code
pub data WorkflowFailure : Type 0 where
  job_error : ℕ → WorkflowFailure
  storage_error other_error : WorkflowFailure

-- the handlers of `verify_and_analyze`
abbrev pub reason_of : WorkflowFailure → FailureReason
reason_of (job_error code) = workflow_error code
reason_of storage_error = FailureReason.object_verification_failed
reason_of other_error = upload_finalization_failed

-- What the clock, the storage and the workflow answer during one `verify_and_analyze`; `none` is an
-- `ObjectStorageError`.
pub record Answers : Type 0 where
  pub now : ℕ
  pub lease : ℕ
  pub file_identity : Option ℕ
  pub sha256 : Option ℕ
  pub verified_size : Option ℕ
  pub analysis : Result WorkflowFailure Payload
  pub surroundings : Surroundings

abbrev pub mismatches : Option ℕ → ℕ → Bool
mismatches none actual = false
mismatches (some expected) actual = not (expected == actual)

-- `workflow.create_analysis_from_verified_object` has answered. Where the cleanup raises, `_fail`
-- leaves the row alone, since the intent is pending.
unfoldable pub finish_analysis : Answers → UploadSession → UploadSession
unfolding record_duplicate complete_analysis cleanup_duplicate fail
finish_analysis a r = elim a.analysis [
  | err failure ↦ fail (reason_of failure) a.now r
  | ok payload ↦ elim payload [
    | created i ↦ complete_analysis (created i) a.now r
    | duplicate_of i ↦
        let (recorded, r') = record_duplicate (duplicate_of i) a.now r in
        if recorded then (cleanup_duplicate a.surroundings a.now r').1 else r'
  ]
]

unfoldable pub verify_size : Answers → ℕ → UploadSession → UploadSession
unfolding record_checksum finish_analysis fail
verify_size a checksum r = elim a.verified_size [
  | none ↦ fail FailureReason.object_verification_failed a.now r
  | some size ↦
      let (recorded, r') = record_checksum checksum size a.now r in
      if recorded then finish_analysis a r' else r'
]

unfoldable pub verify_checksum : Answers → UploadSession → UploadSession
unfolding verify_size fail
verify_checksum a r = elim a.sha256 [
  | none ↦ fail FailureReason.object_verification_failed a.now r
  | some checksum ↦
      if mismatches r.expected_sha256 checksum
      then fail FailureReason.checksum_mismatch a.now r
      else verify_size a checksum r
]

unfoldable pub verify_identity : Answers → UploadSession → UploadSession
unfolding verify_checksum fail
verify_identity a r =
    if is_none r.file_identity then verify_checksum a r else elim a.file_identity [
      | none ↦ fail FailureReason.object_verification_failed a.now r
      | some identity ↦
          if mismatches r.file_identity identity
          then fail FailureReason.checksum_mismatch a.now r
          else verify_checksum a r
    ]

-- an analysis that a worker left behind is taken up with the checksum that was recorded
unfoldable pub resume_or_verify : Answers → UploadSession → UploadSession
unfolding verify_identity finish_analysis fail
resume_or_verify a r =
    if is_analyzing r.status
    then if is_none r.verified_sha256
      then fail verified_checksum_missing a.now r
      else finish_analysis a r
    else verify_identity a r

unfoldable pub verify_and_analyze : Answers → UploadSession → UploadSession
unfolding claim_verification resume_or_verify cleanup_duplicate
verify_and_analyze a r =
    if is_pending_cleanup r.failure_reason
    then (cleanup_duplicate a.surroundings a.now r).1
    else let (claimed, r') = claim_verification a.lease a.now r in
      if claimed then resume_or_verify a r' else r'
