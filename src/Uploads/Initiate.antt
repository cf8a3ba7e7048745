-- ===== src/Uploads/Initiate.antt =====
-- `initiate` on the table of upload sessions: idempotency by key, the sweep of what has expired,
-- and the limit on an owner's active uploads. The request is valid, and the storage is not the local
-- one, for which the code answers `proxy_required` before it touches the table.
use court.Base.{
  ℕ, ◌+◌, ◌-◌, ◌/◌, Bool, true, false, Option, none, some, List, [], ◌∷◌, ◌++◌, ok, err, Tx,
  transaction, leb, ◌==◌, ◌&&◌, not, is_none, if◌then◌else◌,
}
use court.Base.Table.{find, any, count, update_where}
use court.Uploads.{
  initiated, UploadError, match_deleted, idempotency_conflict, capacity_busy, backend_error,
  UploadSession, is_expirable, is_active_multipart, counts_as_active,
}
use court.Uploads.Row.{expire_record_if_needed}

-- the validated request, with the identifiers that are drawn for a new session
pub record Request : Type 0 where
  pub owner_user_id : ℕ
  pub key_hash : ℕ
  pub fingerprint : ℕ
  pub upload_session_id : ℕ
  pub analysis_id : ℕ
  pub storage_key : ℕ
  pub content_type : ℕ
  pub byte_size : ℕ
  pub part_size : ℕ
  pub ttl : ℕ
  pub expected_sha256 : Option ℕ
  pub file_identity : Option ℕ
  pub reanalyze : Bool

-- what the storage answers, an abort by the session it is for
pub record Storage : Type 0 where
  pub abort_ok : ℕ → Bool
  pub initiate_ok : Bool
  pub presign_ok : Bool

abbrev pub new_upload : Request → ℕ → UploadSession
new_upload q now = record {
  id = q.upload_session_id;
  owner_user_id = q.owner_user_id;
  analysis_id = q.analysis_id;
  content_type = q.content_type;
  declared_size = q.byte_size;
  storage_key = q.storage_key;
  status = initiated;
  part_size = q.part_size;
  part_count = (q.byte_size + (q.part_size - 1)) / q.part_size;
  expected_sha256 = q.expected_sha256;
  verified_sha256 = none;
  idempotency_key_hash = q.key_hash;
  request_fingerprint = q.fingerprint;
  reanalyze = q.reanalyze;
  file_identity = q.file_identity;
  result_payload = none;
  failure_reason = none;
  row_version = 1;
  updated_at = now;
  expires_at = now + q.ttl;
  aborted_at = none;
  completed_at = none;
  verification_started_at = none;
}

abbrev pub has_key : ℕ → ℕ → UploadSession → Bool
has_key owner key_hash r = r.owner_user_id == owner && r.idempotency_key_hash == key_hash

-- the rows that the sweep selects
abbrev pub is_due : ℕ → ℕ → UploadSession → Bool
is_due owner now r =
    r.owner_user_id == owner
    && is_expirable r.status
    && leb r.expires_at now
    && is_none r.aborted_at

abbrev pub is_active_of : ℕ → UploadSession → Bool
is_active_of owner r = r.owner_user_id == owner && counts_as_active r.status

unfoldable pub expire_row : ℕ → Storage → UploadSession → UploadSession
unfolding expire_record_if_needed
expire_row now storage r = (expire_record_if_needed now (storage.abort_ok r.id) r).1

unfoldable pub expire_refused : ℕ → Storage → UploadSession → Bool
unfolding expire_record_if_needed
expire_refused now storage r = elim (expire_record_if_needed now (storage.abort_ok r.id) r).0 [
  | ok _ ↦ false
  | err _ ↦ true
]

abbrev pub Uploads : Type 0 → Type 0
Uploads A = Tx (List UploadSession) UploadError A

-- The same key again: the stored session, unless its match was removed or the request differs.
unfoldable pub resume : ℕ → Request → Storage → Bool → UploadSession → Uploads UploadSession
resume now q storage removed existing us =
    if removed
    then (err match_deleted, us)
    else if not (existing.request_fingerprint == q.fingerprint)
    then (err idempotency_conflict, us)
    else if expire_refused now storage existing
    then (err backend_error, us)
    else if is_active_multipart (expire_row now storage existing).status && not storage.presign_ok
    then (err backend_error, us)
    else (
      ok (expire_row now storage existing),
      update_where (has_key q.owner_user_id q.key_hash) (expire_row now storage) us,
    )

unfoldable pub admit : ℕ → ℕ → Request → Storage → Uploads UploadSession
admit limit now q storage us =
    if any (λ r. is_due q.owner_user_id now r && expire_refused now storage r) us
    then (err backend_error, us)
    else let swept = update_where (is_due q.owner_user_id now) (expire_row now storage) us in
      if leb limit (count (is_active_of q.owner_user_id) swept)
      then (err capacity_busy, us)
      else if not storage.initiate_ok
      then (err backend_error, us)
      else (ok (new_upload q now), swept ++ new_upload q now ∷ [])

-- A new session is signed for behind its transaction, so it stays where that fails.
unfoldable pub initiate : ℕ → ℕ → Request → Storage → Bool → Uploads UploadSession
unfolding resume admit
initiate limit now q storage removed us = elim (find (has_key q.owner_user_id q.key_hash) us) [
  | some existing ↦ transaction (resume now q storage removed existing) us
  | none ↦
      let (created, us') = transaction (admit limit now q storage) us in
      if storage.presign_ok
      then (created, us')
      else (elim created [ ok _ ↦ err backend_error | err e ↦ err e ], us')
]
