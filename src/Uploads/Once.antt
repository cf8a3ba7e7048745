-- ===== src/Uploads/Once.antt =====
-- An idempotency key names one upload session.
use court.Base.{ℕ, ◌+◌, ◌≤◌, ◌≡◌, inl, inr, Bool, List, [], ◌∷◌, if◌then◌else◌, arith, Option-cases}
use court.Base.Table.{find, count, update_where, count-append, count-update_same, find-count}
use court.Uploads.{UploadSession}
use court.Uploads.Row.{
  expire_record_if_needed, part_urls, claim_completion, restore_uploading, fail, finish_completion,
  request_abort, finish_abort, mark_aborted,
}
use court.Uploads.Verify.{
  claim_verification, record_checksum, record_duplicate, complete_analysis, cleanup_duplicate,
}
use court.Uploads.Initiate.{
  Request, Storage, new_upload, has_key, is_due, expire_row, resume, admit, initiate,
}
use court.Uploads.Machine.{
  Step, expires, asks_urls, claims, restores, fails, finishes, requests_abort, aborts, reconciles,
  leases, checks, intends, completes, cleans, erases,
}
use court.Uploads.Admission.{Moves, empty, next, initiates, at}

Step-has_key :
    {r t : UploadSession}
    → Step r t
    → (owner key_hash : ℕ) → has_key owner key_hash t ≡ has_key owner key_hash r
unfolding expire_record_if_needed part_urls claim_completion restore_uploading fail
    finish_completion request_abort finish_abort mark_aborted claim_verification record_checksum
    record_duplicate complete_analysis cleanup_duplicate
Step-has_key (expires now abort_ok) owner k = ground arith
Step-has_key (asks_urls now part_numbers presigned) owner k = ground arith
Step-has_key (claims now part_numbers) owner k = ground arith
Step-has_key (restores now) owner k = ground arith
Step-has_key (fails reason now p) owner k = ground arith
Step-has_key (finishes head now) owner k = ground arith
Step-has_key (requests_abort now) owner k = ground arith
Step-has_key (aborts now abort_ok) owner k = ground arith
Step-has_key (reconciles now abort_ok) owner k = ground arith
Step-has_key (leases lease now) owner k = ground arith
Step-has_key (checks checksum verified_size now p) owner k = ground arith
Step-has_key (intends i now) owner k = ground arith
Step-has_key (completes i now) owner k = ground arith
Step-has_key (cleans w now) owner k = ground arith
Step-has_key (erases p) owner k = ground arith

expire_row-has_key :
    (now : ℕ) (storage : Storage) (owner k : ℕ) (r : UploadSession)
    → has_key owner k (expire_row now storage r) ≡ has_key owner k r
unfolding expire_row
expire_row-has_key now storage owner k r =
    Step-has_key (expires now (storage.abort_ok r.id)) owner k

expired_same :
    (now : ℕ) (storage : Storage) (owner k : ℕ) (p : UploadSession → Bool) (us : List UploadSession)
    → count (has_key owner k) (update_where p (expire_row now storage) us)
      ≡ count (has_key owner k) us
expired_same now storage owner k p us =
    count-update_same (has_key owner k) p (expire_row now storage)
      (expire_row-has_key now storage owner k) us

resume-key :
    (now : ℕ) (q : Request) (storage : Storage) (removed : Bool) (existing : UploadSession)
    (us : List UploadSession) (owner k : ℕ)
    → count (has_key owner k) (resume now q storage removed existing us).1
      ≡ count (has_key owner k) us
unfolding resume
resume-key now q storage removed existing us owner k =
    ground (arith, expired_same now storage owner k (has_key q.owner_user_id q.key_hash) us)

admit-key :
    (limit now : ℕ) (q : Request) (storage : Storage) (us : List UploadSession) (owner k : ℕ)
    → count (has_key owner k) (admit limit now q storage us).1
      ≤ count (has_key owner k) us + (if has_key owner k (new_upload q now) then 1 else 0)
unfolding admit
admit-key limit now q storage us owner k = ground (
  arith,
  expired_same now storage owner k (is_due q.owner_user_id now) us,
  count-append (has_key owner k)
      (update_where (is_due q.owner_user_id now) (expire_row now storage) us)
      (new_upload q now ∷ []),
)

initiate-key :
    (limit now : ℕ) (q : Request) (storage : Storage) (removed : Bool) (us : List UploadSession)
    (owner k : ℕ)
    → count (has_key owner k) us ≤ 1
    → count (has_key owner k) (initiate limit now q storage removed us).1 ≤ 1
unfolding initiate
initiate-key limit now q storage removed us owner k h =
    elim (Option-cases (find (has_key q.owner_user_id q.key_hash) us)) [
      | inr (existing, e) ↦ ground (arith, resume-key now q storage removed existing us owner k)
      | inl gone ↦ ground (
        arith,
        find-count (has_key q.owner_user_id q.key_hash) us gone,
        admit-key limit now q storage us owner k,
      )
    ]

-- However often an owner sends the same idempotency key, and whatever else happens, at most one
-- upload session is ever stored for it.
pub one_per_key :
    {limit : ℕ} {us : List UploadSession}
    → Moves limit us
    → (owner key_hash : ℕ) → count (has_key owner key_hash) us ≤ 1
one_per_key empty owner k = omega arith
one_per_key {limit} (next m (initiates now q storage removed us)) owner k =
    initiate-key limit now q storage removed us owner k (one_per_key m owner k)
one_per_key (next m (at before after {r} {t} step)) owner k = ground (
  arith,
  one_per_key m owner k,
  count-append (has_key owner k) before (r ∷ after),
  count-append (has_key owner k) before (t ∷ after),
  Step-has_key step owner k,
)
