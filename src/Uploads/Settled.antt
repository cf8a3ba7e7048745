-- ===== src/Uploads/Settled.antt =====
-- What a completion and a cancellation settle.
use court.Base.{
  ℕ, ◌≤◌, ◌≡◌, refl, sym, ap, ◌∙◌, inl, inr, ◌⊎◌, Bool, true, false, Option, none, some, List, ok,
  err, ◌&&◌, ◌||◌, not, is_some, is_none, ltb, if◌then◌else◌, arith, Bool-cases,
}
use court.Uploads.{
  completing, verifying, invalid_upload_state, missing_upload_part, aborted, expired, UploadError,
  backend_error, session_expired, UploadSession, is_pending_cleanup, Head, is_active_multipart,
  counts_as_active, is_expirable,
}
use court.Uploads.Row.{
  expire, moved, already, claimed, is_expired, claim_completion, restore_uploading, fail,
  is_completing, is_finished, is_range, sorted, head_matches, can_abort,
}
use court.Uploads.Row.{
  expire_record_if_needed, part_urls, finish_completion, request_abort, finish_abort, mark_aborted,
}
use court.Uploads.Verify.{
  claim_verification, record_checksum, record_duplicate, complete_analysis, cleanup_duplicate,
}
use court.Uploads.Machine.{
  Step, expires, asks_urls, claims, restores, fails, finishes, requests_abort, aborts, reconciles,
  leases, checks, intends, completes, cleans, erases, Reach, here, next,
}
use court.Uploads.Handlers.{Stored, complete, abort, settle, check_object, expire_owned_if_needed}

-- How the first transaction of a call ends: it goes on with the row as it was, or it raises.
Expiry : ℕ → Bool → UploadSession → Type 0
Expiry now abort_ok r =
    (expire_owned_if_needed now abort_ok r ≡ (ok tt, r))
    ⊎ ((e : UploadError) × (s : UploadSession) × (expire_owned_if_needed now abort_ok r
          ≡ (err e, s))
        × ((s ≡ r) ⊎ (s.status ≡ expired)))

expiry : (now : ℕ) (abort_ok : Bool) (r : UploadSession) → Expiry now abort_ok r
unfolding Expiry expire_owned_if_needed
expiry now abort_ok r = elim (Bool-cases (not (is_expirable r.status) || ltb now r.expires_at)) [
  | inl kept ↦ inl (ground arith)
  | inr due ↦ elim (Bool-cases (is_none r.aborted_at && not abort_ok)) [
    | inl refused ↦ inr (backend_error, r, ground arith, inl refl)
    | inr fine ↦ inr (session_expired, expire now r, ground arith, inr refl)
  ]
]

Claim : ℕ → List ℕ → UploadSession → Type 0
Claim now parts r =
    ((claim_completion now parts r ≡ (ok already, r)) × (is_finished r.status ≡ true))
    ⊎ (((claim_completion now parts r ≡ (ok (claimed (sorted parts)), moved completing now r))
          × (is_active_multipart r.status ≡ true)
          × (is_range 1 r.part_count (sorted parts) ≡ true))
        ⊎ ((e : UploadError) × (claim_completion now parts r ≡ (err e, r))))

claim : (now : ℕ) (parts : List ℕ) (r : UploadSession) → Claim now parts r
unfolding Claim claim_completion
claim now parts r = elim (Bool-cases (is_expired r.status)) [
  | inl hit ↦ inr (inr (session_expired, ground arith))
  | inr miss ↦ elim (Bool-cases (is_finished r.status)) [
    | inl finished ↦ inl (ground arith, finished)
    | inr unfinished ↦ elim (Bool-cases (is_active_multipart r.status)) [
      | inr closed ↦ inr (inr (invalid_upload_state, ground arith))
      | inl active ↦ elim (Bool-cases (is_range 1 r.part_count (sorted parts))) [
        | inl all_parts ↦ inr (inl (ground arith, active, all_parts))
        | inr some_missing ↦ inr (inr (missing_upload_part, ground arith))
      ]
    ]
  ]
]

settle_leaves :
    (now : ℕ) (complete_ok : Bool) (head : Option Head) (r : UploadSession)
    → is_completing r.status ≡ true
    → is_pending_cleanup r.failure_reason ≡ false
    → is_completing (settle now complete_ok head r).1.status ≡ false
unfolding settle check_object fail restore_uploading
settle_leaves now true none r e p = ground arith
settle_leaves now false none r e p = ground arith
settle_leaves now complete_ok (some head) r e p = ground arith

-- How `complete` as a whole follows from its first two transactions.
Outcome : ℕ → Bool → List ℕ → Stored → UploadSession → Type 0
Outcome now abort_ok parts stored r =
    ((e : UploadError) × (s : UploadSession) × (complete now abort_ok parts stored r ≡ (err e, s))
      × ((s ≡ r) ⊎ (s.status ≡ expired)))
    ⊎ (((complete now abort_ok parts stored r ≡ (ok r, r)) × (is_finished r.status ≡ true))
        ⊎ ((complete now abort_ok parts stored r
              ≡ settle now stored.complete_ok stored.head (moved completing now r))
            × (is_active_multipart r.status ≡ true)
            × (is_range 1 r.part_count (sorted parts) ≡ true)))

outcome :
    (now : ℕ) (abort_ok : Bool) (parts : List ℕ) (stored : Stored) (r : UploadSession)
    → Outcome now abort_ok parts stored r
unfolding Outcome complete Expiry Claim
outcome now abort_ok parts stored r = elim (expiry now abort_ok r) [
  | inr (x, s, raised, how) ↦ inl (x, s, rw (raised, complete) refl, how)
  | inl kept ↦ elim (claim now parts r) [
    | inl (done, finished) ↦ inr (inl (rw (kept, done, complete) refl, finished))
    | inr (inr (x, refused)) ↦ inl (x, r, rw (kept, refused, complete) refl, inl refl)
    | inr (inl (taken, active, all_parts)) ↦
        inr (inr (rw (kept, taken, complete) refl, active, all_parts))
  ]
]

-- A call of `complete` that returns or raises does not leave the session in `completing`, where it
-- did not find it in it and no cleanup of a duplicate is pending.
pub complete_settles :
    (now : ℕ) (abort_ok : Bool) (parts : List ℕ) (stored : Stored) (r : UploadSession)
    → is_completing r.status ≡ false
    → is_pending_cleanup r.failure_reason ≡ false
    → is_completing (complete now abort_ok parts stored r).1.status ≡ false
unfolding Outcome
complete_settles now abort_ok parts stored r e p = elim (outcome now abort_ok parts stored r) [
  | inl (x, s, raised, inl same) ↦ rw (raised, same) e
  | inl (x, s, raised, inr dead) ↦ rw (raised, dead) refl
  | inr (inl (done, finished)) ↦ rw done e
  | inr (inr (taken, active, all_parts)) ↦
      rw taken (settle_leaves now stored.complete_ok stored.head (moved completing now r) refl p)
]

-- what an accepted completion has checked
abbrev pub Accepted : List ℕ → Stored → UploadSession → UploadSession → Type 0
Accepted parts stored r r' =
    (head : Head) × (stored.head ≡ some head)
    × (head_matches head r ≡ true)
    × (is_active_multipart r.status ≡ true)
    × (is_range 1 r.part_count (sorted parts) ≡ true)
    × (r'.status ≡ verifying)

settle_accepts :
    (now : ℕ) (complete_ok : Bool) (head : Option Head) (r t r' : UploadSession)
    → settle now complete_ok head (moved completing now r) ≡ (ok t, r')
    → (t ≡ r')
      × ((h : Head) × (head ≡ some h) × (head_matches h r ≡ true) × (r'.status ≡ verifying))
unfolding settle check_object
settle_accepts now true none r t r' e = absurd (ground arith)
settle_accepts now false none r t r' e = absurd (ground arith)
settle_accepts now complete_ok (some h) r t r' e = elim (Bool-cases (head_matches h r)) [
  | inl hit ↦ (ground arith, (h, refl, hit, ground arith))
  | inr miss ↦ absurd (ground arith)
]

-- Whenever `complete` is accepted, either the session was past it and is unchanged, or it was
-- active, the parts are exactly 1 to `part_count` in some order, the stored object is the declared
-- one, and the session is now `verifying`. The session is returned as it is stored.
pub complete_accepts :
    (now : ℕ) (abort_ok : Bool) (parts : List ℕ) (stored : Stored) (r t r' : UploadSession)
    → complete now abort_ok parts stored r ≡ (ok t, r')
    → (t ≡ r') × (((is_finished r.status ≡ true) × (r' ≡ r)) ⊎ Accepted parts stored r r')
unfolding Outcome
complete_accepts now abort_ok parts stored r t r' e = elim (outcome now abort_ok parts stored r) [
  | inl (x, s, raised, how) ↦ absurd (ground (arith, raised, e))
  | inr (inl (done, finished)) ↦ (ground (arith, done, e), inl (finished, ground (arith, done, e)))
  | inr (inr (taken, active, all_parts)) ↦
      let (same, (head, there, good, now_verifying)) =
        settle_accepts now stored.complete_ok stored.head r t r' (sym taken ∙ e) in
      (same, inr (head, there, good, active, all_parts, now_verifying))
]

-- Where a session may still be cancelled, `abort` makes it `aborted` if the storage lets it; if the
-- storage fails, the call reports `backend_error` and leaves the session expired, so that it counts
-- no longer against its owner's limit.
pub abort_decides :
    (now : ℕ) (abort_ok : Bool) (r : UploadSession)
    → can_abort r.status ≡ true
    → (is_some (abort now abort_ok r).1.failure_reason ≡ true)
      × ((abort now abort_ok r).1.expires_at ≤ now)
      × (counts_as_active (abort now abort_ok r).1.status ≡ false)
      × (if abort_ok
          then (abort now abort_ok r).0 ≡ ok (abort now abort_ok r).1
            × ((abort now abort_ok r).1.status ≡ aborted)
          else (abort now abort_ok r).0 ≡ err backend_error
            × ((abort now abort_ok r).1.status ≡ expired))
unfolding abort
abort_decides now abort_ok r e = ground arith

-- ended without a result, for good
abbrev pub is_given_up : UploadSession → Bool
is_given_up r =
    not (counts_as_active r.status || is_finished r.status)
    && not (is_pending_cleanup r.failure_reason)

Step-is_given_up : {r t : UploadSession} → Step r t → is_given_up r ≡ true → is_given_up t ≡ true
unfolding expire_record_if_needed part_urls claim_completion restore_uploading fail
    finish_completion request_abort finish_abort mark_aborted claim_verification record_checksum
    record_duplicate complete_analysis cleanup_duplicate
Step-is_given_up (expires now abort_ok) e = ground arith
Step-is_given_up (asks_urls now part_numbers presigned) e = ground arith
Step-is_given_up (claims now part_numbers) e = ground arith
Step-is_given_up (restores now) e = ground arith
Step-is_given_up (fails reason now p) e = ground arith
Step-is_given_up (finishes head now) e = ground arith
Step-is_given_up (requests_abort now) e = ground arith
Step-is_given_up (aborts now abort_ok) e = ground arith
Step-is_given_up (reconciles now abort_ok) e = ground arith
Step-is_given_up (leases lease now) e = ground arith
Step-is_given_up (checks checksum verified_size now p) e = ground arith
Step-is_given_up (intends i now) e = ground arith
Step-is_given_up (completes i now) e = ground arith
Step-is_given_up (cleans w now) e = ground arith
Step-is_given_up (erases p) e = ground arith

Reach-is_given_up : {r t : UploadSession} → Reach r t → is_given_up r ≡ true → is_given_up t ≡ true
Reach-is_given_up here e = e
Reach-is_given_up (next path step) e = Step-is_given_up step (Reach-is_given_up path e)

abort-is_given_up :
    (now : ℕ) (abort_ok : Bool) (r : UploadSession)
    → can_abort r.status ≡ true
    → is_given_up (abort now abort_ok r).1 ≡ true
unfolding abort request_abort finish_abort expire_record_if_needed
abort-is_given_up now abort_ok r e = ground arith

-- Once a cancellation was asked for where the session could still be cancelled, even if the storage
-- failed on it, and whatever transactions followed, every later completion of the session is refused
-- and leaves it without a place in its owner's limit.
pub cancel_fences :
    (now later : ℕ) (abort_ok again_ok : Bool) (parts : List ℕ) (stored : Stored)
    (r t : UploadSession)
    → can_abort r.status ≡ true
    → Reach (abort now abort_ok r).1 t
    → ((e : UploadError) × ((complete later again_ok parts stored t).0 ≡ err e))
      × (counts_as_active (complete later again_ok parts stored t).1.status ≡ false)
unfolding Outcome
cancel_fences now later abort_ok again_ok parts stored r t e path =
    let gone = Reach-is_given_up path (abort-is_given_up now abort_ok r e) in
    elim (outcome later again_ok parts stored t) [
      | inl (x, s, raised, inl same) ↦ ((x, ap (λ p. p.0) raised), rw (raised, same) (ground arith))
      | inl (x, s, raised, inr dead) ↦ ((x, ap (λ p. p.0) raised), rw (raised, dead) refl)
      | inr (inl (done, finished)) ↦ absurd (ground (arith, finished, gone))
      | inr (inr (taken, active, all_parts)) ↦ absurd (ground (arith, active, gone))
    ]
