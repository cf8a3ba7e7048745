-- ===== src/Matches/Sound/SourceMedia.antt =====
-- The deletion of the recording alone, on the same state.
use court.Base.{ℕ, refl, inl, inr, not, arith, Bool-cases, Option-cases}
use court.Base.Table.{find, count-update-le}
use court.Persistence.{UploadedVideo, Analysis, artifact_deleted, Db, is_live, has_video_id}
use court.Persistence.Registry.{is_current_at, is_stored_at}
use court.Persistence.Sound.{IsSound}
use court.Persistence.Sound.Artifacts.{with_artifacts-IsSound}
use court.Persistence.Sound.Runs.{with_records-IsSound}
use court.Matches.Deletion.{owns}
use court.Matches.SourceMedia.{
  of_manifest, Media, SourceManifest, request_source_deletion, request, finalize,
}

request_source-IsSound :
    (k : Media) (owner i : ℕ) (a : Analysis) (v : UploadedVideo) (db : Db)
    → IsSound db
    → IsSound (request_source_deletion k owner i a v db).1
unfolding request_source_deletion
request_source-IsSound k owner i a v db h =
    with_records-IsSound db (λ d. (request_source_deletion k owner i a v d).1)
      (ground arith, ground arith, ground arith) h

pub request-IsSound :
    (k : Media) (owner i : ℕ) (db : Db) → IsSound db → IsSound (request k owner i db).1
unfolding request
request-IsSound k owner i db h = elim (Option-cases (find (owns owner i) db.analyses)) [
  | inl gone ↦ rw (gone, request) h
  | inr (a, e) ↦ elim (Bool-cases (not (is_live a.lifecycle_state))) [
    | inl over ↦ rw (e, over, request) h
    | inr there ↦ elim (Option-cases (find (has_video_id a.uploaded_video_id) db.videos)) [
      | inl lost ↦ rw (e, there, lost, request) h
      | inr (v, found) ↦ rw (e, there, found, request) (request_source-IsSound k owner i a v db h)
    ]
  ]
]

pub finalize-IsSound :
    (k : Media) (owner i : ℕ) (m : SourceManifest) (db : Db)
    → IsSound db
    → IsSound (finalize k owner i m db)
unfolding finalize
finalize-IsSound k owner i m db h =
    with_artifacts-IsSound db (finalize k owner i m db) (refl, refl)
      (
        λ j key. ground (
          arith,
          h.one_current.0 j key,
          count-update-le (is_current_at j key) (of_manifest owner i m)
              (λ x. record x { state = artifact_deleted }) (λ r e. ground arith) db.artifacts,
        ),
        λ j provider key. ground (
          arith,
          h.one_current.1 j provider key,
          count-update-le (is_stored_at j provider key) (of_manifest owner i m)
              (λ x. record x { state = artifact_deleted }) (λ r e. ground arith) db.artifacts,
        ),
      )
      h
