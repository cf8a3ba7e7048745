-- ===== src/Uploads/Handlers.antt =====
-- The client's calls on one session as wholes: their transactions, and the storage in between,
-- where nobody else writes the row meanwhile.
use court.Base.{
  ℕ, Bool, true, false, Option, none, some, List, err, pure, raise, raise_if, modify, gets,
  transaction, ◌>>=◌, ◌>>◌, not, ◌==◌, ◌&&◌, if◌then◌else◌,
}
use court.Base.Table.{find, update_where}
use court.Uploads.{
  UploadError, not_found, backend_error, session_expired, object_head_failed, UploadSession, Head,
}
use court.Uploads.Row.{
  Call, expire_record_if_needed, part_urls, already, claimed, claim_completion, restore_uploading,
  fail, finish_completion, request_abort, finish_abort,
}
use court.Uploads.Initiate.{Uploads}

-- what the storage answers a completion: whether it completed, and the object's metadata
pub record Stored : Type 0 where
  pub complete_ok : Bool
  pub head : Option Head

-- `_expire_owned_if_needed`
unfoldable pub expire_owned_if_needed : ℕ → Bool → Call (Unit {0})
unfolding expire_record_if_needed
expire_owned_if_needed now abort_ok = do
  is_expired ← transaction (expire_record_if_needed now abort_ok)
  raise_if is_expired session_expired

unfoldable pub get : ℕ → Bool → Call UploadSession
unfolding expire_record_if_needed
get now abort_ok = do transaction (expire_record_if_needed now abort_ok); gets (λ r. r)

unfoldable pub create_part_urls : ℕ → Bool → List ℕ → Bool → Call (List ℕ)
unfolding expire_owned_if_needed part_urls
create_part_urls now abort_ok part_numbers presigned = do
  expire_owned_if_needed now abort_ok
  transaction (part_urls now part_numbers presigned)

-- the last transaction, and the raise behind it
unfoldable pub check_object : Head → ℕ → Call UploadSession
unfolding finish_completion
check_object head now = do
  matched ← transaction (finish_completion head now)
  raise_if (not matched) UploadError.object_verification_failed
  gets (λ r. r)

-- what becomes of a claimed session, by the storage's answers
unfoldable pub settle : ℕ → Bool → Option Head → Call UploadSession
settle now complete_ok (some head) = check_object head now
settle now true none = do modify (fail object_head_failed now); raise backend_error
settle now false none = do modify (restore_uploading now); raise backend_error

unfoldable pub complete : ℕ → Bool → List ℕ → Stored → Call UploadSession
complete now abort_ok part_numbers stored = do
  expire_owned_if_needed now abort_ok
  completion ← transaction (claim_completion now part_numbers)
  elim completion [
    | already ↦ gets (λ r. r)
    | claimed parts ↦ settle now stored.complete_ok stored.head
  ]

unfoldable pub abort : ℕ → Bool → Call UploadSession
unfolding request_abort finish_abort
abort now abort_ok = do
  requested ← transaction (request_abort now)
  if requested then transaction (finish_abort now abort_ok) else pure tt
  gets (λ r. r)

abbrev pub is_owned : ℕ → ℕ → UploadSession → Bool
is_owned owner i r = r.id == i && r.owner_user_id == owner

-- `_load_owned`: the call on the owner's row, which is written back
unfoldable pub on_owned : {A : Type 0} → ℕ → ℕ → Call A → Uploads A
on_owned owner i call us = elim (find (is_owned owner i) us) [
  | none ↦ (err not_found, us)
  | some r ↦ ((call r).0, update_where (is_owned owner i) (λ _. (call r).1) us)
]
