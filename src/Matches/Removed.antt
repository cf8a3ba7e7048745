-- ===== src/Matches/Removed.antt =====
-- Recordings whose deletion was requested.
pub mod Saves
use court.Base.{
  ℕ, ◌+◌, ◌≤◌, ◌≡◌, refl, ap, sym, ◌∙◌, inl, inr, Bool, true, false, Option, none, some, List, [],
  ◌∷◌, Result, ok, err, ◌==◌, ◌&&◌, ◌||◌, not, arith, if◌then◌else◌, Bool-cases, Option-cases,
  Result-cases, proceed, commit, pure, ◌>>=◌,
}
use mathlib.Core.Path.{subst}
use court.Base.Table.{find, any, count, update_where, find_holds}
use court.Persistence.{
  State, Analysis, AnalysisRun, Db, PersistenceError, integrity_error, deleting, video_deleted,
  StageExecution, UploadedVideo, CalibrationVerification, has_video_id, has_analysis_id,
  owned_analysis, analysis_upload, run_start, is_active, same_state, has_run_id,
}
use court.Persistence.Registry.{ArtifactInput, persist_player_selection}
use court.Persistence.Runs.{
  NewRun, RunRequest, insert_run, start_locked, start_again, retry, start_run, has_key, asked_run,
  is_processing,
}
use court.Persistence.Transitions.{move_run, transition_run, owns_run, may_become, carries_over}
use court.Persistence.Stages.{
  StageRequest, start_stage_execution, move_stage, transition_stage_execution, same_sport,
  owns_stage, has_stage_id,
}
use court.Persistence.StageArtifacts.{register_stage_artifacts, record_calibration_verification}
use court.Persistence.Saving.{is_removed}
use court.Matches.Deletion.{
  owns, request_deletion, request_video, condemned_db, finalize_deletion, erased_video,
}
use court.Matches.SourceMedia.{
  Media, SourceManifest, condemned_video, request_source_deletion, request, finalize,
}

abbrev pub removed : ℕ → List UploadedVideo → Bool
removed i rows = is_removed (find (has_video_id i) rows)

-- The calls that do not write videos.
pub insert_run-videos :
    (a : Analysis) (n : NewRun) (db : Db) → (insert_run a n db).1.videos ≡ db.videos
unfolding insert_run
insert_run-videos a n db = ground arith

start_locked-videos : (q : RunRequest) (db : Db) → (start_locked q db).1.videos ≡ db.videos
unfolding start_locked insert_run
start_locked-videos q db = ground arith

start_again-videos : (q : RunRequest) (db : Db) → (start_again q db).1.videos ≡ db.videos
unfolding start_again
start_again-videos q db = ground arith

move_run-videos :
    (previous : State) (expected : ℕ) (new : State) (now : ℕ) (r : AnalysisRun) (db : Db)
    → (move_run previous expected new now r db).1.videos ≡ db.videos
unfolding move_run
move_run-videos previous expected new now r db = ground arith

pub transition_run-videos :
    (seen : Db) (owner i expected : ℕ) (new : State) (now : ℕ) (db : Db)
    → (transition_run seen owner i expected new now db).1.videos ≡ db.videos
unfolding transition_run
transition_run-videos seen owner i expected new now db =
    elim (Option-cases (find (owns_run seen owner i) seen.runs)) [
      | inl gone ↦ ground (arith, gone)
      | inr (c, there) ↦ elim (Option-cases (find (has_run_id i) db.runs)) [
        | inl lost ↦ ground (arith, there, lost)
        | inr (r, found) ↦
            ground (arith, there, found, move_run-videos c.state expected new now r db)
      ]
    ]

pub start_stage-videos :
    (q : StageRequest) (db : Db) → (start_stage_execution q db).1.videos ≡ db.videos
unfolding start_stage_execution
start_stage-videos q db = ground arith

move_stage-videos :
    (previous : State) (expected : ℕ) (new : State) (category : List ℕ) (now : ℕ)
    (x : StageExecution) (db : Db)
    → (move_stage previous expected new category now x db).1.videos ≡ db.videos
unfolding move_stage
move_stage-videos previous expected new category now x db = ground arith

pub transition_stage-videos :
    (seen : Db) (owner i expected : ℕ) (new : State) (category : List ℕ) (now : ℕ) (db : Db)
    → (transition_stage_execution seen owner i expected new category now db).1.videos ≡ db.videos
unfolding transition_stage_execution
transition_stage-videos seen owner i expected new category now db =
    elim (Option-cases (find (owns_stage seen owner i) seen.stages)) [
      | inl gone ↦ ground (arith, gone)
      | inr (c, there) ↦ elim (Option-cases (find (has_stage_id i) db.stages)) [
        | inl lost ↦ ground (arith, there, lost)
        | inr (x, found) ↦
            ground (arith, there, found, move_stage-videos c.state expected new category now x db)
      ]
    ]

retry-videos :
    (q : RunRequest) (o : Result PersistenceError (ℕ × Bool) × Db)
    → (retry q o).1.videos ≡ o.1.videos
retry-videos q (ok r, db) = refl
retry-videos q (err e, db) = elim e as (λ k. (retry q (err k, db)).1.videos ≡ db.videos) [
  | integrity_error ↦ start_again-videos q db
  | _ ↦ refl
]

pub start_run-videos :
    (seen : Db) (q : RunRequest) (db : Db) → (start_run seen q db).1.videos ≡ db.videos
unfolding start_run
start_run-videos seen q db =
    ground (arith, retry-videos q (start_locked q db), start_locked-videos q db)

pub register_stage-videos :
    (owner i : ℕ) (inputs : List ArtifactInput) (now : ℕ) (db : Db)
    → (register_stage_artifacts owner i inputs now db).1.videos ≡ db.videos
unfolding register_stage_artifacts
register_stage-videos owner i inputs now db = ground arith

pub review-videos :
    (v : CalibrationVerification) (db : Db)
    → (record_calibration_verification v db).1.videos ≡ db.videos
unfolding record_calibration_verification
review-videos v db = ground arith

-- The deletions write a state of removal.
removed-update :
    (i j : ℕ) (f : UploadedVideo → UploadedVideo)
    → ((v : UploadedVideo) → ((f v).id ≡ v.id) × (is_removed (some (f v)) ≡ true))
    → (rows : List UploadedVideo) → removed i rows ≡ true
    → removed i (update_where (has_video_id j) f rows) ≡ true
removed-update i j f gone [] h = absurd (ground arith)
removed-update i j f gone (v ∷ rows) h = ground (arith, gone v, removed-update i j f gone rows)

pub request_deletion-removed :
    (owner j now i : ℕ) (db : Db)
    → removed i db.videos ≡ true
    → removed i (request_deletion owner j now db).1.videos ≡ true
unfolding request_deletion request_video condemned_db
request_deletion-removed owner j now i db h =
    elim (Option-cases (find (owns owner j) db.analyses)) [
      | inl gone ↦ ground (arith, gone)
      | inr (a, there) ↦ elim (Option-cases (find (has_video_id a.uploaded_video_id) db.videos)) [
        | inl lost ↦ ground (arith, there, lost)
        | inr (v, found) ↦ ground (
          arith,
          there,
          found,
          removed-update i v.id (λ w. record w { state = deleting }) (λ w. (refl, refl)) db.videos
              h,
        )
      ]
    ]

pub finalize_deletion-removed :
    (owner j : ℕ) (a : Analysis) (video_id now i : ℕ) (db : Db)
    → removed i db.videos ≡ true
    → removed i (finalize_deletion owner j a video_id now db).videos ≡ true
unfolding finalize_deletion
finalize_deletion-removed owner j a video_id now i db h =
    removed-update i video_id erased_video (λ w. (refl, refl)) db.videos h

pub request-removed :
    (k : Media) (owner j i : ℕ) (db : Db)
    → removed i db.videos ≡ true
    → removed i (request k owner j db).1.videos ≡ true
unfolding request request_source_deletion
request-removed k owner j i db h = elim (Option-cases (find (owns owner j) db.analyses)) [
  | inl gone ↦ ground (arith, gone)
  | inr (a, there) ↦ elim (Option-cases (find (has_video_id a.uploaded_video_id) db.videos)) [
    | inl lost ↦ ground (arith, there, lost)
    | inr (v, found) ↦ ground (
      arith,
      there,
      found,
      removed-update i v.id (condemned_video v) (λ w. (refl, refl)) db.videos h,
    )
  ]
]

pub finalize-removed :
    (k : Media) (owner j : ℕ) (m : SourceManifest) (i : ℕ) (db : Db)
    → removed i db.videos ≡ true
    → removed i (finalize k owner j m db).videos ≡ true
unfolding finalize
finalize-removed k owner j m i db h =
    removed-update i m.video.id
      (λ v. record v { state = video_deleted; row_version = v.row_version + 1 }) (λ w. (refl, refl))
      db.videos h
