-- ===== src/Persistence/Jobs.antt =====
-- A save of a job, and the load or the import that it starts with. The row of the analysis is locked
-- throughout.
use court.Base.{
  ℕ, Bool, false, Option, none, some, List, ◌∷◌, Result, ok, err, ◌==◌, not, if◌then◌else◌,
}
use court.Base.Table.{find}
use court.Persistence.{
  processing, live, JobPayload, UploadedVideo, available, Analysis, Db, PersistenceError,
  resource_not_found, optimistic_concurrency, Call, legacy_imported, has_analysis_id, owned_if,
}
use court.Persistence.Runs.{NewRun, add_event, insert_run}
use court.Persistence.Registry.{ArtifactInput, PlayerSelectionInput}

pub record JobRequest : Type 0 where
  pub owner_user_id : ℕ
  pub payload : JobPayload
  pub artifacts : List ArtifactInput
  pub player_selection : Option PlayerSelectionInput
  pub compatibility_import : Bool
  pub expected_row_version : Option ℕ
  pub video_id : ℕ
  pub import_run_id : ℕ
  pub run_id : ℕ
  pub now : ℕ

abbrev pub source_video_kind : ℕ
source_video_kind = 0

abbrev pub imported_video : JobRequest → UploadedVideo
imported_video q = record {
  id = q.video_id;
  owner_user_id = q.owner_user_id;
  state = available;
  storage_provider = 0;
  storage_key = none;
  content_type = none;
  size_bytes = none;
  source_checksum = none;
  row_version = 1;
  created_at = q.now;
  updated_at = q.now;
}

abbrev pub imported_analysis : JobRequest → Analysis
imported_analysis q = record {
  id = q.payload.analysis_id;
  owner_user_id = q.owner_user_id;
  uploaded_video_id = q.video_id;
  lifecycle_state = live;
  deletion_requested_at = none;
  deleted_at = none;
  sport = q.payload.sport;
  state = q.payload.status;
  current_stage = q.payload.current_stage;
  job_payload = some q.payload;
  promoted_run_id = none;
  row_version = 1;
  created_at = q.now;
  updated_at = q.now;
  completed_at = none;
  failed_at = none;
  cancelled_at = none;
}

abbrev pub imported_run : JobRequest → NewRun
imported_run q = record {
  run_id = q.import_run_id;
  source_checksum = none;
  state = processing;
  lease_expires_at = none;
  now = q.now;
}

abbrev pub with_import : JobRequest → Db → Db
with_import q db =
    add_event (imported_analysis q) none q.payload.status legacy_imported (record db {
      videos = imported_video q ∷ db.videos;
      analyses = imported_analysis q ∷ db.analyses;
    })

-- an analysis from before the database
unfoldable pub import_analysis : JobRequest → Call Analysis
import_analysis q db =
    if not q.compatibility_import
    then (err resource_not_found, db)
    else let a = imported_analysis q in
      let (inserted, db') = insert_run a (imported_run q) (with_import q db) in
      elim inserted [ err e ↦ (err e, db') | ok run ↦ (ok a, db') ]

abbrev pub payload_flag : (JobPayload → Bool) → Analysis → Bool
payload_flag f a = elim a.job_payload [ none ↦ false | some p ↦ f p ]

abbrev pub payload_field : (JobPayload → Option ℕ) → Analysis → Option ℕ
payload_field f a = elim a.job_payload [ none ↦ none | some p ↦ f p ]

-- without an expected version, a calibrated analysis is not overwritten
abbrev pub is_outdated : JobRequest → Analysis → Bool
is_outdated q a = elim q.expected_row_version [
  | some version ↦ not (a.row_version == version)
  | none ↦ payload_flag (λ p. p.calibration_completed) a
]

abbrev pub version_checked :
    JobRequest → Result PersistenceError Analysis → Result PersistenceError Analysis
version_checked q (err e) = err e
version_checked q (ok a) = if is_outdated q a then err optimistic_concurrency else ok a

unfoldable pub load_or_import : JobRequest → Call Analysis
load_or_import q db = elim (find (has_analysis_id q.payload.analysis_id) db.analyses) [
  | none ↦ import_analysis q db
  | some a ↦ (version_checked q (owned_if q.owner_user_id (some a)), db)
]
