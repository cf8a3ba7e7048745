-- ===== src/Uploads/Verification.antt =====
-- The background verification: two workers, a lost worker, and the client that never came back.
use court.Base.{
  ℕ, ◌+◌, ◌<◌, ◌≤◌, ◌≡◌, refl, inl, inr, Bool, true, false, some, List, ok, sym, is_none, arith,
  Option-cases, Result-cases, Bool-cases,
}
use mathlib.Core.Path.{subst}
use court.Uploads.{
  completing, FailureReason, created, duplicate_of, UploadSession, is_pending_cleanup,
  counts_as_active,
}
use court.Uploads.Row.{
  fail, expire_record_if_needed, part_urls, claim_completion, request_abort, finish_abort,
  mark_aborted,
}
use court.Uploads.Verify.{
  job_error, storage_error, other_error, Answers, claim_verification, record_checksum,
  record_duplicate, cleanup_duplicate, finish_analysis, verify_size, verify_checksum,
  verify_identity, resume_or_verify, verify_and_analyze, mismatches, is_analyzing,
}
use court.Uploads.Machine.{fails, leases, checks, intends, completes, cleans, Reach, here, next}

-- the row after a worker claimed it, recorded its checksum, and recorded a duplicate
abbrev pub claimed_row : Answers → UploadSession → UploadSession
claimed_row a r = (claim_verification a.lease a.now r).1

abbrev pub checked_row : Answers → ℕ → ℕ → ℕ → UploadSession → UploadSession
checked_row a checksum size at_check r =
    (record_checksum checksum size at_check (claimed_row a r)).1

-- Where a worker claimed a session while the cleanup of a duplicate was not pending, a second worker
-- that starts before the lease of that claim runs out leaves the row of the claim as it is, and also
-- the row in which the first one has recorded its checksum, at a time not before the claim. In the row
-- in which the first one has recorded next that the upload is a duplicate, the second one does the
-- cleanup of the duplicate and nothing else.
pub lease_excludes :
    (a b : Answers) (r : UploadSession) (checksum size at_check existing at_duplicate : ℕ)
    → (claim_verification a.lease a.now r).0 ≡ true
    → is_pending_cleanup r.failure_reason ≡ false
    → b.now < a.now + b.lease
    → a.now ≤ at_check
    → (record_checksum checksum size at_check (claimed_row a r)).0 ≡ true
    → (verify_and_analyze b (claimed_row a r) ≡ claimed_row a r)
      × (verify_and_analyze b (checked_row a checksum size at_check r)
          ≡ checked_row a checksum size at_check r)
      × (verify_and_analyze b
            (record_duplicate
              (duplicate_of existing)
              at_duplicate
              (checked_row a checksum size at_check r)).1
          ≡ (cleanup_duplicate b.surroundings b.now
              (record_duplicate
                (duplicate_of existing)
                at_duplicate
                (checked_row a checksum size at_check r)).1).1)
unfolding verify_and_analyze claim_verification record_checksum record_duplicate
lease_excludes a b r checksum size at_check existing at_duplicate e p l later c =
    (ground arith, ground arith, ground arith)

-- Nothing but the client that claimed a `completing` session can move it on: expiry, part URLs,
-- a second completion, both halves of a cancellation, the reconciliation and the verification all
-- leave it as it is, at any time, and it counts against its owner's limit.
pub completing_waits :
    (r : UploadSession) (a : Answers) (now : ℕ) (parts : List ℕ) (abort_ok : Bool)
    → r.status ≡ completing
    → is_pending_cleanup r.failure_reason ≡ false
    → (expire_record_if_needed now abort_ok r ≡ (ok false, r))
      × ((part_urls now parts abort_ok r).1 ≡ r)
      × ((claim_completion now parts r).1 ≡ r)
      × ((request_abort now r).1 ≡ r)
      × ((finish_abort now abort_ok r).1 ≡ r)
      × (mark_aborted now abort_ok r ≡ (ok false, r))
      × (verify_and_analyze a r ≡ r)
      × (counts_as_active r.status ≡ true)
unfolding verify_and_analyze claim_verification expire_record_if_needed part_urls claim_completion
    request_abort finish_abort mark_aborted
completing_waits r a now parts abort_ok e p = ground arith

pub join : {r s t : UploadSession} → Reach r s → Reach s t → Reach r t
join path here = path
join path (next more step) = next (join path more) step

fail-Reach :
    (reason : FailureReason) (now : ℕ) (r : UploadSession)
    → is_pending_cleanup (some reason) ≡ false
    → Reach r (fail reason now r)
fail-Reach reason now r p = next here (fails reason now p)

finish_analysis-Reach : (a : Answers) (r : UploadSession) → Reach r (finish_analysis a r)
unfolding finish_analysis
finish_analysis-Reach a r = elim (Result-cases a.analysis) [
  | inr (job_error code, e) ↦
      rw (e, finish_analysis) (fail-Reach (FailureReason.workflow_error code) a.now r refl)
  | inr (storage_error, e) ↦
      rw (e, finish_analysis) (fail-Reach FailureReason.object_verification_failed a.now r refl)
  | inr (other_error, e) ↦
      rw (e, finish_analysis) (fail-Reach FailureReason.upload_finalization_failed a.now r refl)
  | inl (created i, e) ↦ rw (e, finish_analysis) (next here (completes i a.now))
  | inl (duplicate_of i, e) ↦ elim (Bool-cases (record_duplicate (duplicate_of i) a.now r).0) [
    | inl hit ↦
        rw (e, finish_analysis)
          (rw hit (next (next here (intends i a.now)) (cleans a.surroundings a.now)))
    | inr miss ↦ rw (e, finish_analysis) (rw miss (next here (intends i a.now)))
  ]
]

verify_size-Reach :
    (a : Answers) (checksum : ℕ) (r : UploadSession)
    → mismatches r.expected_sha256 checksum ≡ false
    → Reach r (verify_size a checksum r)
unfolding verify_size
verify_size-Reach a checksum r m = elim (Option-cases a.verified_size) [
  | inl gone ↦
      rw (gone, verify_size) (fail-Reach FailureReason.object_verification_failed a.now r refl)
  | inr (size, e) ↦ elim (Bool-cases (record_checksum checksum size a.now r).0) [
    | inl hit ↦
        rw (e, verify_size)
          (rw hit (
            join (next here (checks checksum size a.now m))
              (finish_analysis-Reach a (record_checksum checksum size a.now r).1)))
    | inr miss ↦ rw (e, verify_size) (rw miss (next here (checks checksum size a.now m)))
  ]
]

verify_checksum-Reach : (a : Answers) (r : UploadSession) → Reach r (verify_checksum a r)
unfolding verify_checksum
verify_checksum-Reach a r = elim (Option-cases a.sha256) [
  | inl gone ↦
      rw (gone, verify_checksum) (fail-Reach FailureReason.object_verification_failed a.now r refl)
  | inr (checksum, e) ↦ elim (Bool-cases (mismatches r.expected_sha256 checksum)) [
    | inl hit ↦
        rw (e, verify_checksum) (rw hit (fail-Reach FailureReason.checksum_mismatch a.now r refl))
    | inr miss ↦ rw (e, verify_checksum) (rw miss (verify_size-Reach a checksum r miss))
  ]
]

verify_identity-Reach : (a : Answers) (r : UploadSession) → Reach r (verify_identity a r)
unfolding verify_identity
verify_identity-Reach a r = elim (Bool-cases (is_none r.file_identity)) [
  | inl hit ↦ rw (hit, verify_identity) (verify_checksum-Reach a r)
  | inr miss ↦ elim (Option-cases a.file_identity) [
    | inl gone ↦
        rw (miss, gone, verify_identity)
          (fail-Reach FailureReason.object_verification_failed a.now r refl)
    | inr (identity, e) ↦ elim (Bool-cases (mismatches r.file_identity identity)) [
      | inl bad ↦
          rw (miss, e, bad, verify_identity)
            (fail-Reach FailureReason.checksum_mismatch a.now r refl)
      | inr good ↦ rw (miss, e, good, verify_identity) (verify_checksum-Reach a r)
    ]
  ]
]

resume_or_verify-Reach : (a : Answers) (r : UploadSession) → Reach r (resume_or_verify a r)
unfolding resume_or_verify
resume_or_verify-Reach a r = elim (Bool-cases (is_analyzing r.status)) [
  | inr miss ↦ rw (miss, resume_or_verify) (verify_identity-Reach a r)
  | inl hit ↦ elim (Bool-cases (is_none r.verified_sha256)) [
    | inl gone ↦
        rw (hit, gone, resume_or_verify)
          (fail-Reach FailureReason.verified_checksum_missing a.now r refl)
    | inr there ↦ rw (hit, there, resume_or_verify) (finish_analysis-Reach a r)
  ]
]

-- A whole run of `verify_and_analyze`, whatever the storage and the workflow answer, is a sequence
-- of the transactions that the state machine of a session allows.
pub verify_and_analyze-Reach : (a : Answers) (r : UploadSession) → Reach r (verify_and_analyze a r)
unfolding verify_and_analyze
verify_and_analyze-Reach a r = elim (Bool-cases (is_pending_cleanup r.failure_reason)) [
  | inl pending ↦
      let same : verify_and_analyze a r ≡ (cleanup_duplicate a.surroundings a.now r).1 =
        ground arith in
      subst (Reach r) (sym same) (next here (cleans a.surroundings a.now))
  | inr open_row ↦ elim (Bool-cases (claim_verification a.lease a.now r).0) [
    | inl hit ↦
        rw (open_row, hit, verify_and_analyze)
          (join (next here (leases a.lease a.now))
            (resume_or_verify-Reach a (claim_verification a.lease a.now r).1))
    | inr miss ↦ rw (open_row, miss, verify_and_analyze) (next here (leases a.lease a.now))
  ]
]
