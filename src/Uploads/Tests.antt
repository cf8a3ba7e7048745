-- ===== src/Uploads/Tests.antt =====
-- Uploads of one client, from the first request to a verified video.
use court.Base.{◌⊎◌, is_some, err, ◌≤◌, ◌≡◌, refl, true, false, none, some, [], ◌∷◌, ok, arith}
use court.Uploads.{UploadError, backend_error, expired}
use court.Uploads.Row.{is_completing, is_finished, is_erased}
use court.Uploads.Handlers.{Stored, complete, abort, expire_owned_if_needed, settle, check_object}
use court.Uploads.Settled.{
  Accepted, complete_settles, complete_accepts, abort_decides, cancel_fences,
}
use court.Base.Table.{count}
use court.Uploads.{completing, created, duplicate_of, UploadSession, Head, counts_as_active}
use court.Uploads.Row.{
  moved, expire_record_if_needed, part_urls, claim_completion, finish_completion, request_abort,
  finish_abort, mark_aborted,
}
use court.Uploads.Verify.{
  Answers, Surroundings, claim_verification, record_checksum, complete_analysis, verify_and_analyze,
  record_duplicate, cleanup_duplicate,
}
use court.Uploads.Initiate.{Request, Storage, new_upload, has_key, is_active_of, initiate}
use court.Uploads.Machine.{Reach, here, claims, finishes, leases, checks, completes}
use court.Uploads.Lifecycle.{Life, begins, moves, verifies, IsVerified, completed-IsVerified}
use court.Uploads.Admission.{Moves, initiates, active_within}
use court.Uploads.Once.{one_per_key}
use court.Uploads.Verification.{
  claimed_row, checked_row, lease_excludes, completing_waits, verify_and_analyze-Reach,
}

abbrev request : Request
request = record {
  owner_user_id = 1;
  key_hash = 5;
  fingerprint = 6;
  upload_session_id = 10;
  analysis_id = 11;
  storage_key = 12;
  content_type = 1;
  byte_size = 25;
  part_size = 10;
  ttl = 60;
  expected_sha256 = some 77;
  file_identity = none;
  reanalyze = false;
}

abbrev storage : Storage
storage = record { abort_ok = λ i. true; initiate_ok = true; presign_ok = true }

abbrev uploaded : UploadSession
uploaded = new_upload request 100

abbrev head : Head
head = record {
  size_bytes = 25;
  metadata_session = some 10;
  metadata_size = some 25;
  content_type = 1;
}

abbrev claimed : UploadSession
claimed = moved completing 110 uploaded

abbrev verifying_row : UploadSession
verifying_row = (finish_completion head 112 claimed).1

abbrev surroundings : Surroundings
surroundings = record {
  expected_key = 12;
  has_analysis = false;
  key_registered = false;
  delete_ok = true;
}

abbrev answers : Answers
answers = record {
  now = 120;
  lease = 30;
  file_identity = none;
  sha256 = some 77;
  verified_size = some 25;
  analysis = ok (created 11);
  surroundings = surroundings;
}

abbrev verified : UploadSession
verified = verify_and_analyze answers verifying_row

abbrev life : Reach (new_upload request 100) verified
unfolding claim_completion finish_completion claim_verification record_checksum complete_analysis
    verify_and_analyze
life =
    Reach.next
      (Reach.next
        (Reach.next (Reach.next (Reach.next here (claims 110 (2 ∷ 3 ∷ 1 ∷ []))) (finishes head 112))
          (leases 30 120))
        (checks 77 25 120 refl))
      (completes 11 120)

abbrev lived : Life request 100 verified
unfolding claim_completion finish_completion verify_and_analyze
lived = verifies answers (moves (moves begins (claims 110 (2 ∷ 3 ∷ 1 ∷ []))) (finishes head 112))

completed-IsVerified_example : IsVerified request verified ⊎ (is_erased verified ≡ true)
unfolding claim_completion finish_completion verify_and_analyze
completed-IsVerified_example = completed-IsVerified request 100 verified lived refl

verify_and_analyze-Reach_example : Reach verifying_row verified
verify_and_analyze-Reach_example = verify_and_analyze-Reach answers verifying_row

abbrev requested : Moves 1 (initiate 1 100 request storage false []).1
requested = Moves.next Moves.empty (initiates 100 request storage false [])

abbrev requested_twice :
    Moves 1 (initiate 1 105 request storage false (initiate 1 100 request storage false []).1).1
requested_twice =
    Moves.next requested
      (initiates 105 request storage false (initiate 1 100 request storage false []).1)

active_within_example :
    count
      (is_active_of 1)
      (initiate 1 105 request storage false (initiate 1 100 request storage false []).1).1
    ≤ 1
active_within_example = active_within requested_twice 1

one_per_key_example :
    count
      (has_key 1 5)
      (initiate 1 105 request storage false (initiate 1 100 request storage false []).1).1
    ≤ 1
one_per_key_example = one_per_key requested_twice 1 5

abbrev second_answers : Answers
second_answers = record answers { now = 149 }

lease_excludes_example :
    (verify_and_analyze second_answers (claimed_row answers verifying_row)
      ≡ claimed_row answers verifying_row)
    × (verify_and_analyze second_answers (checked_row answers 77 25 121 verifying_row)
        ≡ checked_row answers 77 25 121 verifying_row)
    × (verify_and_analyze second_answers
          (record_duplicate (duplicate_of 9) 122 (checked_row answers 77 25 121 verifying_row)).1
        ≡ (cleanup_duplicate surroundings 149
            (record_duplicate
              (duplicate_of 9)
              122
              (checked_row answers 77 25 121 verifying_row)).1).1)
unfolding finish_completion claim_verification record_checksum
lease_excludes_example =
    lease_excludes answers second_answers verifying_row 77 25 121 9 122 refl refl (omega arith)
      (omega arith) refl

completing_waits_example :
    (expire_record_if_needed 500 true claimed ≡ (ok false, claimed))
    × ((part_urls 500 (1 ∷ []) true claimed).1 ≡ claimed)
    × ((claim_completion 500 (1 ∷ []) claimed).1 ≡ claimed)
    × ((request_abort 500 claimed).1 ≡ claimed)
    × ((finish_abort 500 true claimed).1 ≡ claimed)
    × (mark_aborted 500 true claimed ≡ (ok false, claimed))
    × (verify_and_analyze answers claimed ≡ claimed)
    × (counts_as_active claimed.status ≡ true)
completing_waits_example = completing_waits claimed answers 500 (1 ∷ []) true refl refl

abbrev stored : Stored
stored = record { complete_ok = true; head = some head }

complete_settles_example :
    is_completing (complete 110 true (2 ∷ 3 ∷ 1 ∷ []) stored uploaded).1.status ≡ false
complete_settles_example = complete_settles 110 true (2 ∷ 3 ∷ 1 ∷ []) stored uploaded refl refl

abbrev completed_row : UploadSession
completed_row = (complete 110 true (2 ∷ 3 ∷ 1 ∷ []) stored uploaded).1

complete_accepts_example :
    (completed_row ≡ completed_row)
    × (((is_finished uploaded.status ≡ true) × (completed_row ≡ uploaded))
        ⊎ Accepted (2 ∷ 3 ∷ 1 ∷ []) stored uploaded completed_row)
unfolding complete expire_owned_if_needed claim_completion settle check_object
complete_accepts_example =
    complete_accepts 110 true (2 ∷ 3 ∷ 1 ∷ []) stored uploaded completed_row completed_row refl

abort_decides_example :
    (is_some (abort 110 false uploaded).1.failure_reason ≡ true)
    × ((abort 110 false uploaded).1.expires_at ≤ 110)
    × (counts_as_active (abort 110 false uploaded).1.status ≡ false)
    × (((abort 110 false uploaded).0 ≡ err backend_error)
        × ((abort 110 false uploaded).1.status ≡ expired))
abort_decides_example = abort_decides 110 false uploaded refl

abbrev refused_abort : UploadSession
refused_abort = (abort 110 false uploaded).1

cancel_fences_example :
    ((e : UploadError) × ((complete 115 true
          (2 ∷ 3 ∷ 1 ∷ [])
          stored
          (claim_completion 113 [] refused_abort).1).0
        ≡ err e))
    × (counts_as_active
          (complete 115 true
            (2 ∷ 3 ∷ 1 ∷ [])
            stored
            (claim_completion 113 [] refused_abort).1).1.status
        ≡ false)
cancel_fences_example =
    cancel_fences 110 115 false true (2 ∷ 3 ∷ 1 ∷ []) stored uploaded
      (claim_completion 113 [] refused_abort).1 refl (Reach.next here (claims 113 []))
