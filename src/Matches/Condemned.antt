-- ===== src/Matches/Condemned.antt =====
-- Matches whose deletion was requested: no call makes one live again.
pub mod Saves
use court.Base.{
  ℕ, ◌+◌, ◌≤◌, ◌≡◌, refl, ap, sym, ◌∙◌, inl, inr, Bool, true, false, Option, none, some, List, [],
  ◌∷◌, Result, ok, err, ◌==◌, ◌&&◌, ◌||◌, not, arith, if◌then◌else◌, Bool-cases, Option-cases,
  Result-cases, proceed, commit, pure, ◌>>=◌,
}
use court.Base.Table.{find, any, update_where}
use court.Persistence.{
  State, Analysis, AnalysisRun, StageExecution, CalibrationVerification, UploadedVideo, Db,
  PersistenceError, integrity_error, is_live, is_active, has_analysis_id, owned_analysis,
  has_run_id, has_video_id, deletion_pending, deleted, live,
}
use court.Persistence.Registry.{ArtifactInput, persist_player_selection}
use court.Persistence.Runs.{
  NewRun, RunRequest, insert_run, start_locked, start_again, retry, start_run, restarted,
}
use court.Persistence.Transitions.{move_run, transition_run, owns_run, moved_analysis}
use court.Persistence.Stages.{
  StageRequest, start_stage_execution, move_stage, transition_stage_execution, owns_stage,
  has_stage_id, same_sport,
}
use court.Persistence.StageArtifacts.{register_stage_artifacts, record_calibration_verification}
use court.Matches.Deletion.{
  owns, request_deletion, request_video, condemned, condemned_db, finalize_deletion, is_erased,
}
use court.Matches.SourceMedia.{Media, SourceManifest, request_source_deletion, request, finalize}

-- the row is there, and no row with its identifier is live
abbrev pub is_withdrawn : ℕ → List Analysis → Bool
is_withdrawn i rows =
    any (has_analysis_id i) rows && not (any (λ a. a.id == i && is_live a.lifecycle_state) rows)

pub withdrawn-update :
    (i : ℕ) (p : Analysis → Bool) (f : Analysis → Analysis)
    → ((a : Analysis)
        → ((f a).id ≡ a.id)
          × (is_live a.lifecycle_state ≡ false → is_live (f a).lifecycle_state ≡ false))
    → (rows : List Analysis) → is_withdrawn i rows ≡ true
    → is_withdrawn i (update_where p f rows) ≡ true
withdrawn-update i p f same rows h = ground (arith, h, present rows, absent rows)
  where
    present :
        (rows : List Analysis)
        → any (has_analysis_id i) (update_where p f rows) ≡ any (has_analysis_id i) rows
    present [] = refl
    present (a ∷ rows) = ground (arith, (same a).0, present rows)

    absent :
        (rows : List Analysis)
        → any (λ a. a.id == i && is_live a.lifecycle_state) rows ≡ false
        → any (λ a. a.id == i && is_live a.lifecycle_state) (update_where p f rows) ≡ false
    absent [] e = refl
    absent (a ∷ rows) e = ground (arith, (same a).0, (same a).1, absent rows)

pub withdrawn-add :
    (i : ℕ) (a : Analysis) (rows : List Analysis)
    → any (has_analysis_id a.id) rows ≡ false
    → is_withdrawn i rows ≡ true
    → is_withdrawn i (a ∷ rows) ≡ true
withdrawn-add i a rows new h = elim (Bool-cases (a.id == i)) [
  | inr apart ↦ ground (arith, apart)
  | inl same ↦
      let eq : a.id ≡ i = ground arith in
      absurd (ground (arith, ap (λ j. any (has_analysis_id j) rows) eq))
]

-- The calls on runs and stages.
start_locked-withdrawn :
    (i : ℕ) (q : RunRequest) (db : Db)
    → is_withdrawn i db.analyses ≡ true
    → is_withdrawn i (start_locked q db).1.analyses ≡ true
unfolding start_locked insert_run
start_locked-withdrawn i q db h =
    elim (Result-cases (owned_analysis q.owner_user_id q.analysis_id db)) [
      | inr (x, bad) ↦ ground (arith, bad)
      | inl (a, good) ↦ ground (
        arith,
        good,
        withdrawn-update i (has_analysis_id a.id) (restarted a q.now) (λ b. (refl, λ e. e))
            db.analyses h,
      )
    ]

retry-analyses :
    (q : RunRequest) (o : Result PersistenceError (ℕ × Bool) × Db)
    → (retry q o).1.analyses ≡ o.1.analyses
retry-analyses q (ok r, db) = refl
retry-analyses q (err e, db) = elim e as (λ k. (retry q (err k, db)).1.analyses ≡ db.analyses) [
  | integrity_error ↦ unfold start_again in ground arith
  | _ ↦ refl
]

pub start_run-withdrawn :
    (i : ℕ) (seen : Db) (q : RunRequest) (db : Db)
    → is_withdrawn i db.analyses ≡ true
    → is_withdrawn i (start_run seen q db).1.analyses ≡ true
unfolding start_run
start_run-withdrawn i seen q db h =
    ground (arith, retry-analyses q (start_locked q db), start_locked-withdrawn i q db h, h)

move_run-withdrawn :
    (i : ℕ) (previous : State) (expected : ℕ) (new : State) (now : ℕ) (r : AnalysisRun) (db : Db)
    → is_withdrawn i db.analyses ≡ true
    → is_withdrawn i (move_run previous expected new now r db).1.analyses ≡ true
unfolding move_run
move_run-withdrawn i previous expected new now r db h =
    elim (Option-cases (find (has_analysis_id r.analysis_id) db.analyses)) [
      | inl gone ↦ ground (arith, gone)
      | inr (a, there) ↦ ground (
        arith,
        there,
        h,
        withdrawn-update i (has_analysis_id a.id) (moved_analysis a new now r.id)
            (λ b. (ground arith, λ e. ground arith)) db.analyses h,
      )
    ]

pub transition_run-withdrawn :
    (i : ℕ) (seen : Db) (owner j expected : ℕ) (new : State) (now : ℕ) (db : Db)
    → is_withdrawn i db.analyses ≡ true
    → is_withdrawn i (transition_run seen owner j expected new now db).1.analyses ≡ true
unfolding transition_run
transition_run-withdrawn i seen owner j expected new now db h =
    elim (Option-cases (find (owns_run seen owner j) seen.runs)) [
      | inl gone ↦ ground (arith, gone)
      | inr (c, there) ↦ elim (Option-cases (find (has_run_id j) db.runs)) [
        | inl lost ↦ ground (arith, there, lost)
        | inr (r, found) ↦
            ground (arith, there, found, move_run-withdrawn i c.state expected new now r db h)
      ]
    ]

move_stage-analyses :
    (previous : State) (expected : ℕ) (new : State) (category : List ℕ) (now : ℕ)
    (x : StageExecution) (db : Db)
    → (move_stage previous expected new category now x db).1.analyses ≡ db.analyses
unfolding move_stage
move_stage-analyses previous expected new category now x db = ground arith

pub start_stage-analyses :
    (q : StageRequest) (db : Db) → (start_stage_execution q db).1.analyses ≡ db.analyses
unfolding start_stage_execution
start_stage-analyses q db = ground arith

pub transition_stage-analyses :
    (seen : Db) (owner i expected : ℕ) (new : State) (category : List ℕ) (now : ℕ) (db : Db)
    → (transition_stage_execution seen owner i expected new category now db).1.analyses
      ≡ db.analyses
unfolding transition_stage_execution
transition_stage-analyses seen owner i expected new category now db =
    elim (Option-cases (find (owns_stage seen owner i) seen.stages)) [
      | inl gone ↦ ground (arith, gone)
      | inr (c, there) ↦ elim (Option-cases (find (has_stage_id i) db.stages)) [
        | inl lost ↦ ground (arith, there, lost)
        | inr (x, found) ↦
            ground (arith, there, found, move_stage-analyses c.state expected new category now x db)
      ]
    ]

pub register_stage-analyses :
    (owner i : ℕ) (inputs : List ArtifactInput) (now : ℕ) (db : Db)
    → (register_stage_artifacts owner i inputs now db).1.analyses ≡ db.analyses
unfolding register_stage_artifacts
register_stage-analyses owner i inputs now db = ground arith

pub review-analyses :
    (v : CalibrationVerification) (db : Db)
    → (record_calibration_verification v db).1.analyses ≡ db.analyses
unfolding record_calibration_verification
review-analyses v db = ground arith
