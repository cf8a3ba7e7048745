-- ===== src/Uploads/Row.antt =====
-- The transactions on one locked row that an uploading client causes: expiry, part URLs, the two
-- halves of `complete`, and the two of `abort`.
use court.Base.{
  ℕ, zero, suc, ◌+◌, Bool, true, false, Option, none, some, List, [], ◌∷◌, ok, err, Tx, ltb, leb,
  ◌==◌, ◌&&◌, ◌||◌, not, is_none, if◌then◌else◌,
}
use court.Base.Table.{any}
use court.Uploads.{
  Status, initiated, uploading, completing, verifying, analyzing, completed, aborted, failed,
  expired, FailureReason, object_metadata_mismatch, upload_session_expired, upload_cancel_requested,
  expired_session_reconciled, UploadError, backend_error, invalid_upload_state, invalid_part_number,
  missing_upload_part, session_expired, UploadSession, Head, is_active_multipart, is_expirable,
  is_pending_cleanup,
}

abbrev pub Call : Type 0 → Type 0
Call A = Tx UploadSession UploadError A

-- `status = …; row_version += 1; updated_at = utc_now()`
abbrev pub moved : Status → ℕ → UploadSession → UploadSession
moved status now r = record r { status = status; row_version = r.row_version + 1; updated_at = now }

abbrev pub expire : ℕ → UploadSession → UploadSession
expire now r = record r {
  status = expired;
  failure_reason = some upload_session_expired;
  row_version = r.row_version + 1;
  updated_at = now;
  aborted_at = if is_none r.aborted_at then some now else r.aborted_at;
}

-- `_expire_record_if_needed`; `abort_ok` tells whether the storage lets the upload be aborted
unfoldable pub expire_record_if_needed : ℕ → Bool → Call Bool
expire_record_if_needed now abort_ok r =
    if not (is_expirable r.status) || ltb now r.expires_at
    then (ok false, r)
    else if is_none r.aborted_at && not abort_ok
    then (err backend_error, r)
    else (ok true, expire now r)

abbrev pub is_expired : Status → Bool
is_expired expired = true
is_expired _ = false

abbrev pub is_initiated : Status → Bool
is_initiated initiated = true
is_initiated _ = false

-- the second transaction of `create_part_urls`; `presigned` tells whether the URLs can be signed
unfoldable pub part_urls : ℕ → List ℕ → Bool → Call (List ℕ)
part_urls now part_numbers presigned r =
    if is_expired r.status
    then (err session_expired, r)
    else if not (is_active_multipart r.status)
    then (err invalid_upload_state, r)
    else if any (λ n. ltb r.part_count n) part_numbers
    then (err invalid_part_number, r)
    else if not presigned
    then (err backend_error, r)
    else (ok part_numbers, if is_initiated r.status then moved uploading now r else r)

-- sorted part numbers against `list(range(1, part_count + 1))`
abbrev pub insert : ℕ → List ℕ → List ℕ
insert n [] = n ∷ []
insert n (m ∷ ms) = if leb n m then n ∷ m ∷ ms else m ∷ insert n ms

abbrev pub sorted : List ℕ → List ℕ
sorted [] = []
sorted (n ∷ ns) = insert n (sorted ns)

abbrev pub is_range : ℕ → ℕ → List ℕ → Bool
is_range start zero [] = true
is_range start (suc n) (m ∷ ms) = m == start && is_range (start + 1) n ms
is_range start _ _ = false

pub data Completion : Type 0 where
  already : Completion
  claimed : List ℕ → Completion

abbrev pub is_finished : Status → Bool
is_finished completed = true
is_finished verifying = true
is_finished analyzing = true
is_finished _ = false

-- the first transaction of `complete`: the row is claimed, and the ordered parts are returned
unfoldable pub claim_completion : ℕ → List ℕ → Call Completion
claim_completion now part_numbers r =
    if is_expired r.status
    then (err session_expired, r)
    else if is_finished r.status
    then (ok already, r)
    else if not (is_active_multipart r.status)
    then (err invalid_upload_state, r)
    else if not (is_range 1 r.part_count (sorted part_numbers))
    then (err missing_upload_part, r)
    else (ok (claimed (sorted part_numbers)), moved completing now r)

abbrev pub is_completing : Status → Bool
is_completing completing = true
is_completing _ = false

-- `_restore_uploading`
unfoldable pub restore_uploading : ℕ → UploadSession → UploadSession
restore_uploading now r = if is_completing r.status then moved uploading now r else r

abbrev pub is_closed : Status → Bool
is_closed completed = true
is_closed aborted = true
is_closed _ = false

-- `_fail`
unfoldable pub fail : FailureReason → ℕ → UploadSession → UploadSession
fail reason now r =
    if is_closed r.status || is_pending_cleanup r.failure_reason
    then r
    else record (moved failed now r) { failure_reason = some reason }

abbrev pub equals : Option ℕ → ℕ → Bool
equals none n = false
equals (some m) n = m == n

abbrev pub head_matches : Head → UploadSession → Bool
head_matches head r =
    head.size_bytes == r.declared_size
    && equals head.metadata_session r.id
    && equals head.metadata_size r.declared_size
    && head.content_type == r.content_type

-- the last transaction of `complete`: true if the object is what was declared
unfoldable pub finish_completion : Head → ℕ → Call Bool
finish_completion head now r =
    if not (is_completing r.status)
    then (err invalid_upload_state, r)
    else if head_matches head r
    then (ok true, moved verifying now r)
    else (ok false, record (moved failed now r) { failure_reason = some object_metadata_mismatch })

abbrev pub is_aborted : Status → Bool
is_aborted aborted = true
is_aborted _ = false

abbrev pub can_abort : Status → Bool
can_abort status = is_active_multipart status || is_expired status

-- the first transaction of `abort`: the durable fence, before the storage is called
unfoldable pub request_abort : ℕ → Call Bool
request_abort now r =
    if is_aborted r.status
    then (ok false, r)
    else if not (can_abort r.status)
    then (err invalid_upload_state, r)
    else (
      ok true,
      record (moved expired now r) {
        expires_at = if leb r.expires_at now then r.expires_at else now;
        failure_reason = some upload_cancel_requested;
      },
    )

-- the second one, which holds the row while the storage aborts
unfoldable pub finish_abort : ℕ → Bool → Call (Unit {0})
finish_abort now abort_ok r =
    if is_aborted r.status
    then (ok tt, r)
    else if not (can_abort r.status)
    then (err invalid_upload_state, r)
    else if not abort_ok
    then (err backend_error, r)
    else (ok tt, record (moved aborted now r) { aborted_at = some now })

-- `_mark_aborted` of scripts/reconcile_multipart_uploads.py
unfoldable pub mark_aborted : ℕ → Bool → Call Bool
mark_aborted now abort_ok r =
    if not (can_abort r.status) || ltb now r.expires_at
    then (ok false, r)
    else if not abort_ok
    then (err backend_error, r)
    else (
      ok true,
      record (moved aborted now r) {
        aborted_at = some now;
        failure_reason = some expired_session_reconciled;
      },
    )

-- what the deletion of the match leaves of a session that is not active; see `Matches.Deletion`
abbrev pub erased_upload : UploadSession → UploadSession
erased_upload r = record r {
  result_payload = none;
  file_identity = none;
  expected_sha256 = none;
  verified_sha256 = none;
}

abbrev pub is_erased : UploadSession → Bool
is_erased r =
    is_none r.result_payload
    && is_none r.file_identity
    && is_none r.expected_sha256
    && is_none r.verified_sha256
