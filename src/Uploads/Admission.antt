-- ===== src/Uploads/Admission.antt =====
-- What `initiate` grants, and that an owner's limit holds whatever happens to the sessions.
use court.Base.{ℕ, ◌≤◌, ◌≡◌, inl, inr, Bool, false, List, [], ◌∷◌, ◌++◌, arith, Option-cases}
use court.Base.Table.{find, count, update_where, count-append, count-update-le}
use court.Uploads.{UploadSession}
use court.Uploads.Row.{
  expire_record_if_needed, part_urls, claim_completion, restore_uploading, fail, finish_completion,
  request_abort, finish_abort, mark_aborted,
}
use court.Uploads.Verify.{
  claim_verification, record_checksum, record_duplicate, complete_analysis, cleanup_duplicate,
}
use court.Uploads.Initiate.{
  Request, Storage, new_upload, has_key, is_due, is_active_of, expire_row, resume, admit, initiate,
}
use court.Uploads.Machine.{
  Step, expires, asks_urls, claims, restores, fails, finishes, requests_abort, aborts, reconciles,
  leases, checks, intends, completes, cleans, erases,
}

-- the table of sessions: a new request, or any transaction on any one row
pub data Move (limit : ℕ) : List UploadSession → List UploadSession → Type 0 where
  initiates :
      (now : ℕ) (q : Request) (storage : Storage) (removed : Bool) (us : List UploadSession)
      → Move limit us (initiate limit now q storage removed us).1
  at :
      (before after : List UploadSession) {r t : UploadSession}
      → Step r t
      → Move limit (before ++ r ∷ after) (before ++ t ∷ after)

pub data Moves (limit : ℕ) : List UploadSession → Type 0 where
  empty : Moves limit []
  next : {us vs : List UploadSession} → Moves limit us → Move limit us vs → Moves limit vs

Step-is_active :
    {r t : UploadSession}
    → Step r t
    → (owner : ℕ) → is_active_of owner r ≡ false
    → is_active_of owner t ≡ false
unfolding expire_record_if_needed part_urls claim_completion restore_uploading fail
    finish_completion request_abort finish_abort mark_aborted claim_verification record_checksum
    record_duplicate complete_analysis cleanup_duplicate
Step-is_active (expires now abort_ok) owner e = ground arith
Step-is_active (asks_urls now part_numbers presigned) owner e = ground arith
Step-is_active (claims now part_numbers) owner e = ground arith
Step-is_active (restores now) owner e = ground arith
Step-is_active (fails reason now p) owner e = ground arith
Step-is_active (finishes head now) owner e = ground arith
Step-is_active (requests_abort now) owner e = ground arith
Step-is_active (aborts now abort_ok) owner e = ground arith
Step-is_active (reconciles now abort_ok) owner e = ground arith
Step-is_active (leases lease now) owner e = ground arith
Step-is_active (checks checksum verified_size now p) owner e = ground arith
Step-is_active (intends i now) owner e = ground arith
Step-is_active (completes i now) owner e = ground arith
Step-is_active (cleans w now) owner e = ground arith
Step-is_active (erases p) owner e = ground arith

expire_row-is_active :
    (now : ℕ) (storage : Storage) (owner : ℕ) (r : UploadSession)
    → is_active_of owner r ≡ false
    → is_active_of owner (expire_row now storage r) ≡ false
unfolding expire_row
expire_row-is_active now storage owner r e =
    Step-is_active (expires now (storage.abort_ok r.id)) owner e

abbrev expired_count :
    (now : ℕ) (storage : Storage) (owner : ℕ) (p : UploadSession → Bool) (us : List UploadSession)
    → count (is_active_of owner) (update_where p (expire_row now storage) us)
      ≤ count (is_active_of owner) us
expired_count now storage owner p us =
    count-update-le (is_active_of owner) p (expire_row now storage)
      (expire_row-is_active now storage owner) us

admit-within :
    (limit now : ℕ) (q : Request) (storage : Storage) (us : List UploadSession) (owner : ℕ)
    → count (is_active_of owner) us ≤ limit
    → count (is_active_of owner) (admit limit now q storage us).1 ≤ limit
unfolding admit
admit-within limit now q storage us owner h = ground (
  arith,
  expired_count now storage owner (is_due q.owner_user_id now) us,
  count-append (is_active_of owner)
      (update_where (is_due q.owner_user_id now) (expire_row now storage) us)
      (new_upload q now ∷ []),
)

resume-within :
    (limit now : ℕ) (q : Request) (storage : Storage) (removed : Bool) (existing : UploadSession)
    (us : List UploadSession) (owner : ℕ)
    → count (is_active_of owner) us ≤ limit
    → count (is_active_of owner) (resume now q storage removed existing us).1 ≤ limit
unfolding resume
resume-within limit now q storage removed existing us owner h =
    ground (arith, expired_count now storage owner (has_key q.owner_user_id q.key_hash) us)

initiate-within :
    (limit now : ℕ) (q : Request) (storage : Storage) (removed : Bool) (us : List UploadSession)
    (owner : ℕ)
    → count (is_active_of owner) us ≤ limit
    → count (is_active_of owner) (initiate limit now q storage removed us).1 ≤ limit
unfolding initiate
initiate-within limit now q storage removed us owner h =
    elim (Option-cases (find (has_key q.owner_user_id q.key_hash) us)) [
      | inr (existing, e) ↦
          ground (arith, resume-within limit now q storage removed existing us owner h)
      | inl gone ↦ ground (arith, admit-within limit now q storage us owner h)
    ]

-- However requests, clients, workers and the reconciliation interleave, from an empty table on, no
-- owner ever has more active upload sessions than the limit.
pub active_within :
    {limit : ℕ} {us : List UploadSession}
    → Moves limit us
    → (owner : ℕ) → count (is_active_of owner) us ≤ limit
active_within empty owner = omega arith
active_within {limit} (next m (initiates now q storage removed us)) owner =
    initiate-within limit now q storage removed us owner (active_within m owner)
active_within (next m (at before after {r} {t} step)) owner = ground (
  arith,
  active_within m owner,
  count-append (is_active_of owner) before (r ∷ after),
  count-append (is_active_of owner) before (t ∷ after),
  Step-is_active step owner,
)
