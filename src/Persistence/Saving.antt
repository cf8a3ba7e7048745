-- ===== src/Persistence/Saving.antt =====
-- `persist_job` behind the load: the job, its video, its run, its artifacts and the selected player.
use court.Base.{
  ℕ, ◌+◌, Bool, true, false, Option, none, some, List, Result, ok, err, pure, modify, transaction,
  ◌>>=◌, ◌>>◌, ◌==◌, ◌&&◌, ◌||◌, not, is_none, is_some, if◌then◌else◌,
}
use court.Base.Text.{text, same_text, starts_with}
use court.Base.Table.{find, select, update_where}
use court.Base.Rows.{largest}
use court.Persistence.{
  State, processing, UploadedVideo, available, deleting, video_deleted, Analysis, AnalysisRun,
  Artifact, Db, PersistenceError, source_media_unavailable, value_error, Call, job_state_changed,
  run_moved, same_state, is_active, has_analysis_id, has_video_id, has_run_id, is_active_run,
}
use court.Persistence.Runs.{
  NewRun, add_event, add_run_event, latest_run, insert_run, source_checksum, update_analysis,
  is_processing,
}
use court.Persistence.Transitions.{moved_run}
use court.Persistence.Registry.{
  ArtifactInput, Registrant, register_artifacts, persist_player_selection, same_option,
}
use court.Persistence.Stages.{same_sport, is_failed, is_completed}
use court.Persistence.Jobs.{
  JobRequest, load_or_import, payload_field, payload_flag, source_video_kind,
}

abbrev pub is_removed : Option UploadedVideo → Bool
is_removed none = false
is_removed (some v) = elim v.state [ deleting ↦ true | video_deleted ↦ true | _ ↦ false ]

abbrev pub is_report : List ℕ → Bool
is_report key = starts_with (text "analytics/") key || starts_with (text "active_play/") key

abbrev pub hide_where : ℕ → ℕ → (List ℕ → Bool) → List Artifact → List Artifact
hide_where analysis_id now p =
    update_where (λ a. a.analysis_id == analysis_id && a.is_current && p a.logical_key)
      (λ a. record a { is_current = false; updated_at = now })

-- a corrected court invalidates what depends on it
abbrev pub corrects_court : JobRequest → Analysis → Bool
corrects_court q a =
    is_some q.payload.active_calibration_id
    && not (
        same_option q.payload.active_calibration_id
          (payload_field (λ p. p.active_calibration_id) a))
    && is_none q.payload.calibration_verification
    && not q.payload.tracking_completed

abbrev pub outdates_reports : JobRequest → Analysis → Bool
outdates_reports q a =
    not (
      same_option q.payload.selected_evidence_signature
        (payload_field (λ p. p.selected_evidence_signature) a))
    || (payload_flag (λ p. p.analytics_completed) a && not q.payload.analytics_completed)

abbrev pub hide_tracking : JobRequest → Analysis → List Artifact → List Artifact
hide_tracking q a rows =
    if corrects_court q a
    then hide_where a.id q.now (λ key. starts_with (text "tracking/") key || is_report key) rows
    else rows

abbrev pub hide_reports : JobRequest → Analysis → List Artifact → List Artifact
hide_reports q a rows = if outdates_reports q a then hide_where a.id q.now is_report rows else rows

-- files of an invalidated workspace are not registered again
abbrev pub kept_inputs : JobRequest → Analysis → List ArtifactInput
kept_inputs q a =
    if outdates_reports q a
    then select (λ (i : ArtifactInput). not (is_report i.logical_key)) q.artifacts
    else q.artifacts

-- `_active_or_latest_run`
abbrev pub active_or_latest_run : ℕ → Db → Option AnalysisRun
active_or_latest_run analysis_id db =
    elim (largest (λ r. r.attempt_number) (select (is_active_run analysis_id) db.runs)) [
      | some r ↦ some r
      | none ↦ latest_run analysis_id db
    ]

abbrev pub has_active : Option AnalysisRun → Bool
has_active none = false
has_active (some r) = is_active r.state

abbrev pub started :
    Result PersistenceError AnalysisRun × Db → Result PersistenceError (Option AnalysisRun) × Db
started (ok r, db) = (ok (some r), db)
started (err e, db) = (err e, db)

abbrev pub restarted_run : JobRequest → Analysis → Db → NewRun
restarted_run q a db = record {
  run_id = q.run_id;
  source_checksum = source_checksum a db;
  state = processing;
  lease_expires_at = none;
  now = q.now;
}

-- the run of the save: a processing job without an active one gets a new one
unfoldable pub ensure_run : JobRequest → Analysis → Call (Option AnalysisRun)
ensure_run q a db =
    let run = active_or_latest_run a.id db in
    if is_processing q.payload.status && not (has_active run)
    then started (insert_run a (restarted_run q a db) db)
    else (ok run, db)

abbrev pub saved_analysis : JobRequest → Analysis → Analysis → Analysis
saved_analysis q a b = record b {
  state = q.payload.status;
  current_stage = q.payload.current_stage;
  job_payload = some q.payload;
  row_version = a.row_version + 1;
  updated_at = q.now;
  completed_at = if is_completed q.payload.status then some q.now else b.completed_at;
  failed_at = if is_failed q.payload.status then some q.now else b.failed_at;
}

abbrev pub log_change : JobRequest → Analysis → Db → Db
log_change q a db =
    if same_state a.state q.payload.status
    then db
    else add_event (saved_analysis q a a) (some a.state) q.payload.status job_state_changed db

unfoldable pub save_analysis : JobRequest → Analysis → Db → Db
save_analysis q a db = log_change q a (update_analysis a.id (saved_analysis q a) db)

abbrev pub is_source_of : List ℕ → ArtifactInput → Bool
is_source_of key i = same_text i.logical_key key && i.artifact_kind == source_video_kind

abbrev pub filed_video : JobRequest → List ℕ → Option ArtifactInput → UploadedVideo → UploadedVideo
filed_video q key none v = record v {
  state = available;
  storage_provider = 0;
  storage_key = some key;
  row_version = v.row_version + 1;
  updated_at = q.now;
}
filed_video q key (some i) v = record v {
  state = available;
  storage_provider = i.storage_provider;
  storage_key = some i.storage_key;
  content_type = some i.content_type;
  size_bytes = some i.size_bytes;
  source_checksum = some i.checksum_sha256;
  row_version = v.row_version + 1;
  updated_at = q.now;
}

-- the video of a job that names its source becomes available
unfoldable pub file_video : JobRequest → Analysis → Db → Db
file_video q a db = elim q.payload.source_video [
  | none ↦ db
  | some key ↦ record db {
    videos =
        update_where (has_video_id a.uploaded_video_id)
          (filed_video q key (find (is_source_of key) (kept_inputs q a))) db.videos;
  }
]

abbrev pub ends : State → Bool
ends status = is_completed status || is_failed status

abbrev pub finished_run : JobRequest → AnalysisRun → AnalysisRun → AnalysisRun
finished_run q run r = record (moved_run q.payload.status (run.row_version + 1) q.now r) {
  error_detail = if is_failed q.payload.status then q.payload.error else r.error_detail;
}

abbrev pub promote : JobRequest → AnalysisRun → Analysis → Analysis
promote q run b =
    if is_completed q.payload.status then record b { promoted_run_id = some run.id } else b

-- a job that ended ends its active run
unfoldable pub finish_run : JobRequest → Analysis → Option AnalysisRun → Db → Db
finish_run q a none db = db
finish_run q a (some run) db =
    if ends q.payload.status && is_active run.state
    then add_run_event (finished_run q run run) (some run.state) q.payload.status
        (run_moved q.payload.status)
        (record db {
          runs = update_where (has_run_id run.id) (finished_run q run) db.runs;
          analyses = update_where (has_analysis_id a.id) (promote q run) db.analyses;
        })
    else db

abbrev pub run_id_of : Option AnalysisRun → Option ℕ
run_id_of none = none
run_id_of (some r) = some r.id

abbrev pub job_registrant : JobRequest → Analysis → Option AnalysisRun → Registrant
job_registrant q a run = record {
  owner_user_id = q.owner_user_id;
  analysis_id = a.id;
  run_id = run_id_of run;
  stage_execution_id = none;
  now = q.now;
}

unfoldable pub file_artifacts : JobRequest → Analysis → Option AnalysisRun → Call (List Artifact)
unfolding register_artifacts
file_artifacts q a run db =
    let (registered, rows) =
      register_artifacts (job_registrant q a run) (kept_inputs q a) db.artifacts in
    (registered, record db { artifacts = rows })

abbrev pub file_selection : JobRequest → Analysis → Option AnalysisRun → Call (Unit {0})
file_selection q a run db =
    elim (persist_player_selection q.owner_user_id a.id run q.player_selection db.selections) [
      | err e ↦ (err e, db)
      | ok selections ↦ (ok tt, record db { selections = selections })
    ]

unfoldable pub end_save : JobRequest → Analysis → Option AnalysisRun → Call ℕ
end_save q a run = do
  modify (save_analysis q a)
  modify (file_video q a)
  modify (finish_run q a run)
  file_artifacts q a run
  file_selection q a run
  pure (a.row_version + 1)

abbrev pub with_valid_artifacts : JobRequest → Analysis → Db → Db
with_valid_artifacts q a db = record db {
  artifacts = hide_reports q a (hide_tracking q a db.artifacts);
}

unfoldable pub save_job : JobRequest → Analysis → Call ℕ
save_job q a db =
    if is_removed (find (has_video_id a.uploaded_video_id) db.videos)
    then (err source_media_unavailable, db)
    else if not (same_sport a.sport q.payload.sport)
    then (err value_error, db)
    else (ensure_run q a >>= end_save q a) (with_valid_artifacts q a db)

unfoldable pub persist_job : JobRequest → Call ℕ
persist_job q = transaction (do a ← load_or_import q; save_job q a)
