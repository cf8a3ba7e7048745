-- ===== src/Uploads/Lifecycle.antt =====
-- A session from its creation to its end.
use court.Base.{ℕ, ◌≡◌, ◌⊎◌, inl, inr, true, false, some, is_some, arith, Option-cases, Bool-cases}
use court.Uploads.{completed, Payload, UploadSession}
use court.Uploads.Row.{is_erased}
use court.Uploads.Verify.{Answers, mismatches, verify_and_analyze}
use court.Uploads.Initiate.{Request, new_upload}
use court.Uploads.Machine.{Step, Reach, here, next, IsConsistent, Reach-IsConsistent, Reach-IsLater}
use court.Uploads.Verification.{join, verify_and_analyze-Reach}

pub new_upload-IsConsistent : (q : Request) (now : ℕ) → IsConsistent (new_upload q now)
new_upload-IsConsistent q now = record {
  analyzing_checked = λ e. absurd (ground arith);
  completed_kept = λ e. absurd (ground arith);
  completed_dated = λ e. absurd (ground arith);
  aborted_dated = λ e. absurd (ground arith);
  pending_analyzing = λ e. absurd (ground arith);
  pending_answered = λ e. absurd (ground arith);
  checksum_expected = λ v e. absurd (ground arith);
}

-- What a new session comes to: transactions of its clients, workers and the reconciliation, the
-- deletion of its match, and whole runs of the background verification.
pub data Life (q : Request) (now : ℕ) : UploadSession → Type 0 where
  begins : Life q now (new_upload q now)
  moves : {r t : UploadSession} → Life q now r → Step r t → Life q now t
  verifies : {r : UploadSession} (a : Answers) → Life q now r → Life q now (verify_and_analyze a r)

Life-Reach : {q : Request} {now : ℕ} {t : UploadSession} → Life q now t → Reach (new_upload q now) t
Life-Reach begins = here
Life-Reach (moves life step) = next (Life-Reach life) step
Life-Reach (verifies {r} a life) = join (Life-Reach life) (verify_and_analyze-Reach a r)

-- what a completed session holds
abbrev pub IsVerified : Request → UploadSession → Type 0
IsVerified q t =
    (checksum : ℕ) × (payload : Payload) × (t.verified_sha256 ≡ some checksum)
    × (mismatches q.expected_sha256 checksum ≡ false)
    × (t.result_payload ≡ some payload)
    × (is_some t.completed_at ≡ true)

-- A session that started as a new one and is completed, after any transactions and any runs of the
-- background verification, has a checksum, which is the one that its client declared if it declared
-- one, an answer for the client and a time of completion; or its match was deleted, and the session
-- keeps no checksum, no answer and no identity of the file.
pub completed-IsVerified :
    (q : Request) (now : ℕ) (t : UploadSession)
    → Life q now t
    → t.status ≡ completed
    → IsVerified q t ⊎ (is_erased t ≡ true)
completed-IsVerified q now t life e =
    let h = Reach-IsConsistent (Life-Reach life) (new_upload-IsConsistent q now) in
    let frozen = (Reach-IsLater (Life-Reach life)).1 in
    elim (Bool-cases (is_erased t)) [
      | inl erased ↦ inr erased
      | inr whole ↦ elim (Option-cases t.verified_sha256) [
        | inl gone ↦ absurd (ground (arith, h.completed_kept e))
        | inr (v, checked) ↦ elim (Option-cases t.result_payload) [
          | inl gone ↦ absurd (ground (arith, h.completed_kept e))
          | inr (p, answered) ↦ inl (
            v,
            p,
            checked,
            ground (arith, h.checksum_expected v checked, frozen),
            answered,
            h.completed_dated e,
          )
        ]
      ]
    ]
