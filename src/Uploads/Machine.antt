-- ===== src/Uploads/Machine.antt =====
-- One upload session as its clients, its workers and the reconciliation script see it: any of their
-- transactions, in any order, and the deletion of its match. What holds of the row between two
-- transactions.
use court.Base.{
  ℕ, ◌<◌, ◌≡◌, refl, ap, ◌∙◌, Bool, true, false, some, List, ◌⊎◌, inl, inr, is_some, ◌&&◌, ◌||◌,
  not, arith,
}
use mathlib.Core.Path.{subst}
use court.Uploads.{
  analyzing, completed, aborted, FailureReason, Payload, UploadSession, Head, is_pending_cleanup,
  counts_as_active,
}
use court.Uploads.Row.{
  expire_record_if_needed, part_urls, claim_completion, restore_uploading, fail, finish_completion,
  request_abort, finish_abort, mark_aborted, is_closed, erased_upload, is_erased,
}
use court.Uploads.Verify.{
  Surroundings, claim_verification, record_checksum, record_duplicate, complete_analysis,
  cleanup_duplicate, mismatches,
}

-- The premises are what the callers have tested on the fields that no transaction changes.
pub data Step (r : UploadSession) : UploadSession → Type 0 where
  expires : (now : ℕ) (abort_ok : Bool) → Step r (expire_record_if_needed now abort_ok r).1
  asks_urls :
      (now : ℕ) (part_numbers : List ℕ) (presigned : Bool)
      → Step r (part_urls now part_numbers presigned r).1
  claims : (now : ℕ) (part_numbers : List ℕ) → Step r (claim_completion now part_numbers r).1
  restores : (now : ℕ) → Step r (restore_uploading now r)
  fails :
      (reason : FailureReason) (now : ℕ)
      → is_pending_cleanup (some reason) ≡ false
      → Step r (fail reason now r)
  finishes : (head : Head) (now : ℕ) → Step r (finish_completion head now r).1
  requests_abort : (now : ℕ) → Step r (request_abort now r).1
  aborts : (now : ℕ) (abort_ok : Bool) → Step r (finish_abort now abort_ok r).1
  reconciles : (now : ℕ) (abort_ok : Bool) → Step r (mark_aborted now abort_ok r).1
  leases : (lease now : ℕ) → Step r (claim_verification lease now r).1
  checks :
      (checksum verified_size now : ℕ)
      → mismatches r.expected_sha256 checksum ≡ false
      → Step r (record_checksum checksum verified_size now r).1
  intends : (i now : ℕ) → Step r (record_duplicate (Payload.duplicate_of i) now r).1
  completes : (i now : ℕ) → Step r (complete_analysis (Payload.created i) now r)
  cleans : (w : Surroundings) (now : ℕ) → Step r (cleanup_duplicate w now r).1
  erases : counts_as_active r.status ≡ false → Step r (erased_upload r)

pub data Reach (r : UploadSession) : UploadSession → Type 0 where
  here : Reach r r
  next : {s t : UploadSession} → Reach r s → Step s t → Reach r t

pub record IsConsistent (r : UploadSession) : Type 0 where
  pub analyzing_checked : r.status ≡ analyzing → is_some r.verified_sha256 ≡ true
  pub completed_kept :
      r.status ≡ completed
      → (is_some r.verified_sha256 && is_some r.result_payload || is_erased r) ≡ true
  pub completed_dated : r.status ≡ completed → is_some r.completed_at ≡ true
  pub aborted_dated : r.status ≡ aborted → is_some r.aborted_at ≡ true
  pub pending_analyzing :
      is_pending_cleanup r.failure_reason ≡ true → (r.status ≡ analyzing) ⊎ (r.status ≡ completed)
  pub pending_answered :
      is_pending_cleanup r.failure_reason ≡ true
      → r.status ≡ analyzing
      → is_some r.result_payload ≡ true
  pub checksum_expected :
      (v : ℕ) → r.verified_sha256 ≡ some v → mismatches r.expected_sha256 v ≡ false

Step-IsConsistent : {r t : UploadSession} → Step r t → IsConsistent r → IsConsistent t
unfolding expire_record_if_needed part_urls claim_completion restore_uploading fail
    finish_completion request_abort finish_abort mark_aborted claim_verification record_checksum
    record_duplicate complete_analysis cleanup_duplicate
Step-IsConsistent (expires now abort_ok) h = ground (arith, h.checksum_expected)
Step-IsConsistent (asks_urls now part_numbers presigned) h = ground (arith, h.checksum_expected)
Step-IsConsistent (claims now part_numbers) h = ground (arith, h.checksum_expected)
Step-IsConsistent (restores now) h = ground (arith, h.checksum_expected)
Step-IsConsistent (fails reason now p) h = ground (arith, h.checksum_expected)
Step-IsConsistent (finishes head now) h = ground (arith, h.checksum_expected)
Step-IsConsistent (requests_abort now) h = ground (arith, h.checksum_expected)
Step-IsConsistent (aborts now abort_ok) h = ground (arith, h.checksum_expected)
Step-IsConsistent (reconciles now abort_ok) h = ground (arith, h.checksum_expected)
Step-IsConsistent (leases lease now) h = ground (arith, h.checksum_expected)
Step-IsConsistent {r} (checks checksum verified_size now p) h = ground (arith, h.checksum_expected)
Step-IsConsistent (intends i now) h = ground (arith, h.checksum_expected)
Step-IsConsistent (completes i now) h = ground (arith, h.checksum_expected)
Step-IsConsistent (cleans w now) h = ground (arith, h.checksum_expected)
Step-IsConsistent (erases p) h = ground (arith, p, h.checksum_expected)

pub Reach-IsConsistent : {r t : UploadSession} → Reach r t → IsConsistent r → IsConsistent t
Reach-IsConsistent here h = h
Reach-IsConsistent (next path step) h = Step-IsConsistent step (Reach-IsConsistent path h)

abbrev pub IsSameOrErased : UploadSession → UploadSession → Type 0
IsSameOrErased r t = (t ≡ r) ⊎ (t ≡ erased_upload r)

Step-is_closed :
    {r t : UploadSession}
    → Step r t
    → IsConsistent r
    → is_closed r.status ≡ true
    → IsSameOrErased r t
unfolding expire_record_if_needed part_urls claim_completion restore_uploading fail
    finish_completion request_abort finish_abort mark_aborted claim_verification record_checksum
    record_duplicate complete_analysis cleanup_duplicate
Step-is_closed (expires now abort_ok) h e = inl (ground arith)
Step-is_closed (asks_urls now part_numbers presigned) h e = inl (ground arith)
Step-is_closed (claims now part_numbers) h e = inl (ground arith)
Step-is_closed (restores now) h e = inl (ground arith)
Step-is_closed (fails reason now p) h e = inl (ground arith)
Step-is_closed (finishes head now) h e = inl (ground arith)
Step-is_closed (requests_abort now) h e = inl (ground arith)
Step-is_closed (aborts now abort_ok) h e = inl (ground arith)
Step-is_closed (reconciles now abort_ok) h e = inl (ground arith)
Step-is_closed (leases lease now) h e = inl (ground arith)
Step-is_closed (checks checksum verified_size now p) h e = inl (ground arith)
Step-is_closed (intends i now) h e = inl (ground arith)
Step-is_closed (completes i now) h e = inl (ground arith)
Step-is_closed (cleans w now) h e = inl (ground (arith, h.pending_analyzing))
Step-is_closed (erases p) h e = inr refl

pub Reach-is_closed :
    {r t : UploadSession}
    → Reach r t
    → IsConsistent r
    → is_closed r.status ≡ true
    → IsSameOrErased r t
Reach-is_closed here h e = inl refl
Reach-is_closed {r} (next {s} {t} path step) h e = elim (Reach-is_closed path h e) [
  | inl same ↦ subst (λ x. IsSameOrErased x t) same (later (ap (λ x. is_closed x.status) same ∙ e))
  | inr erased ↦ elim (later (ap (λ x. is_closed x.status) erased ∙ e)) [
    | inl same ↦ inr (same ∙ erased)
    | inr again ↦ inr (again ∙ ap erased_upload erased)
  ]
]
  where
    later : is_closed s.status ≡ true → IsSameOrErased s t
    later closed = Step-is_closed step (Reach-IsConsistent path h) closed

-- The digest that was expected is the same, or the session was erased and is not active.
abbrev pub IsFrozen : UploadSession → UploadSession → Type 0
IsFrozen r t =
    (t.id ≡ r.id)
    × (t.owner_user_id ≡ r.owner_user_id)
    × (t.declared_size ≡ r.declared_size)
    × (t.storage_key ≡ r.storage_key)
    × ((t.expected_sha256 ≡ r.expected_sha256)
        ⊎ ((is_erased t && not (counts_as_active t.status)) ≡ true))

abbrev pub IsLater : UploadSession → UploadSession → Type 0
IsLater r t = (IsSameOrErased r t ⊎ (r.row_version < t.row_version)) × IsFrozen r t

Step-is_erased :
    {r t : UploadSession}
    → Step r t
    → (is_erased r && not (counts_as_active r.status)) ≡ true
    → (is_erased t && not (counts_as_active t.status)) ≡ true
unfolding expire_record_if_needed part_urls claim_completion restore_uploading fail
    finish_completion request_abort finish_abort mark_aborted claim_verification record_checksum
    record_duplicate complete_analysis cleanup_duplicate
Step-is_erased (expires now abort_ok) e = ground arith
Step-is_erased (asks_urls now part_numbers presigned) e = ground arith
Step-is_erased (claims now part_numbers) e = ground arith
Step-is_erased (restores now) e = ground arith
Step-is_erased (fails reason now p) e = ground arith
Step-is_erased (finishes head now) e = ground arith
Step-is_erased (requests_abort now) e = ground arith
Step-is_erased (aborts now abort_ok) e = ground arith
Step-is_erased (reconciles now abort_ok) e = ground arith
Step-is_erased (leases lease now) e = ground arith
Step-is_erased (checks checksum verified_size now p) e = ground arith
Step-is_erased (intends i now) e = ground arith
Step-is_erased (completes i now) e = ground arith
Step-is_erased (cleans w now) e = ground arith
Step-is_erased (erases p) e = ground arith

Step-IsLater : {r t : UploadSession} → Step r t → IsLater r t
unfolding expire_record_if_needed part_urls claim_completion restore_uploading fail
    finish_completion request_abort finish_abort mark_aborted claim_verification record_checksum
    record_duplicate complete_analysis cleanup_duplicate
Step-IsLater (expires now abort_ok) = ground arith
Step-IsLater (asks_urls now part_numbers presigned) = ground arith
Step-IsLater (claims now part_numbers) = ground arith
Step-IsLater (restores now) = ground arith
Step-IsLater (fails reason now p) = ground arith
Step-IsLater (finishes head now) = ground arith
Step-IsLater (requests_abort now) = ground arith
Step-IsLater (aborts now abort_ok) = ground arith
Step-IsLater (reconciles now abort_ok) = ground arith
Step-IsLater (leases lease now) = ground arith
Step-IsLater (checks checksum verified_size now p) = ground arith
Step-IsLater (intends i now) = ground arith
Step-IsLater (completes i now) = ground arith
Step-IsLater (cleans w now) = ground arith
Step-IsLater (erases p) = (inl (inr refl), (refl, refl, refl, refl, inr (ground (arith, p))))

version_grows :
    {r s t : UploadSession}
    → IsSameOrErased r s ⊎ (r.row_version < s.row_version)
    → IsSameOrErased s t ⊎ (s.row_version < t.row_version)
    → IsSameOrErased r t ⊎ (r.row_version < t.row_version)
version_grows (inl (inl e)) (inl (inl d)) = inl (inl (d ∙ e))
version_grows (inl (inl e)) (inl (inr d)) = inl (inr (d ∙ ap erased_upload e))
version_grows (inl (inr e)) (inl (inl d)) = inl (inr (d ∙ e))
version_grows (inl (inr e)) (inl (inr d)) = inl (inr (d ∙ ap erased_upload e))
version_grows (inl (inl e)) (inr l) = inr (omega (arith, ap (λ x. x.row_version) e))
version_grows (inl (inr e)) (inr l) = inr (omega (arith, ap (λ x. x.row_version) e))
version_grows (inr l) (inl (inl d)) = inr (omega (arith, ap (λ x. x.row_version) d))
version_grows (inr l) (inl (inr d)) = inr (omega (arith, ap (λ x. x.row_version) d))
version_grows (inr l) (inr m) = inr (omega arith)

pub Reach-IsLater : {r t : UploadSession} → Reach r t → IsLater r t
Reach-IsLater here = (inl (inl refl), (refl, refl, refl, refl, inl refl))
Reach-IsLater {r} (next {s} {t} path step) =
    let (was, kept) = Reach-IsLater path in
    let (grown, keeps) = Step-IsLater step in
    (version_grows was grown, ground (arith, kept, keeps, Step-is_erased step))
