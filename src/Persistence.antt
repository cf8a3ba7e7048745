-- ===== src/Persistence.antt =====
-- The rows of app/persistence/models.py behind an analysis, and what app/persistence/service.py shares
-- on them. Identifiers, digests, times and names that are only compared are numbers; keys of objects
-- are texts. `state` columns hold one type of states, as the strings of the source do. The version
-- strings of a run, which a deployment fixes, are left out.
pub mod Runs
pub mod Transitions
pub mod Reserve
pub mod Registry
pub mod Stages
pub mod StageArtifacts
pub mod Jobs
pub mod Saving
pub mod Prefix
pub mod Namespaces
pub mod Sound
pub mod Races
pub mod Saves
pub mod Repeats
pub mod Reads
mod Tests
use court.Base.{
  ℕ, ◌+◌, ◌≡◌, refl, Bool, true, false, Option, none, some, List, [], ◌∷◌, Result, ok, err, Tx,
  pure, raise, ◌==◌, ◌&&◌, ◌||◌, not, arith, if◌then◌else◌,
}
use court.Base.Table.{find}
use court.Uploads.{UploadSession}

pub data State : Type 0 where
  pending queued processing completed failed cancelled stale unavailable : State

pub data Lifecycle : Type 0 where
  live deletion_pending deleted : Lifecycle

pub data VideoState : Type 0 where
  video_pending available video_failed deleting video_deleted : VideoState

pub data Sport : Type 0 where
  pickleball padel : Sport

-- what the code reads of a job's JSON
pub record JobPayload : Type 0 where
  pub analysis_id : ℕ
  pub sport : Sport
  pub status : State
  pub current_stage : ℕ
  pub source_video : Option (List ℕ)
  pub active_calibration_id : Option ℕ
  pub calibration_verification : Option ℕ
  pub calibration_completed : Bool
  pub inspection_completed : Bool
  pub tracking_completed : Bool
  pub analytics_completed : Bool
  pub selected_evidence_signature : Option ℕ
  pub error : Option ℕ

-- `UploadedVideo`
pub record UploadedVideo : Type 0 where
  pub id : ℕ
  pub owner_user_id : ℕ
  pub state : VideoState
  pub storage_provider : ℕ
  pub storage_key : Option (List ℕ)
  pub content_type : Option ℕ
  pub size_bytes : Option ℕ
  pub source_checksum : Option ℕ
  pub row_version : ℕ
  pub created_at : ℕ
  pub updated_at : ℕ

-- `Analysis`
pub record Analysis : Type 0 where
  pub id : ℕ
  pub owner_user_id : ℕ
  pub uploaded_video_id : ℕ
  pub lifecycle_state : Lifecycle
  pub deletion_requested_at : Option ℕ
  pub deleted_at : Option ℕ
  pub sport : Sport
  pub state : State
  pub current_stage : ℕ
  pub job_payload : Option JobPayload
  pub promoted_run_id : Option ℕ
  pub row_version : ℕ
  pub created_at : ℕ
  pub updated_at : ℕ
  pub completed_at : Option ℕ
  pub failed_at : Option ℕ
  pub cancelled_at : Option ℕ

-- `AnalysisRun`
pub record AnalysisRun : Type 0 where
  pub id : ℕ
  pub analysis_id : ℕ
  pub attempt_number : ℕ
  pub state : State
  pub previous_run_id : Option ℕ
  pub row_version : ℕ
  pub source_video_checksum : Option ℕ
  pub sport : Sport
  pub lease_expires_at : Option ℕ
  pub started_at : Option ℕ
  pub completed_at : Option ℕ
  pub failed_at : Option ℕ
  pub cancelled_at : Option ℕ
  pub stale_at : Option ℕ
  pub error_detail : Option ℕ
  pub updated_at : ℕ

-- `AnalysisStageExecution`
pub record StageExecution : Type 0 where
  pub id : ℕ
  pub owner_user_id : ℕ
  pub analysis_id : ℕ
  pub analysis_run_id : ℕ
  pub stage_type : List ℕ
  pub attempt_number : ℕ
  pub state : State
  pub row_version : ℕ
  pub is_optional : Bool
  pub shadow_mode : Bool
  pub configuration_fingerprint : ℕ
  pub output_artifact_references : List ℕ
  pub failure_category : Option (List ℕ)
  pub started_at : Option ℕ
  pub completed_at : Option ℕ
  pub failed_at : Option ℕ
  pub cancelled_at : Option ℕ
  pub stale_at : Option ℕ
  pub unavailable_at : Option ℕ
  pub updated_at : ℕ

-- `AnalysisArtifact`
pub data ArtifactState : Type 0 where
  artifact_available artifact_deleted : ArtifactState

pub record Artifact : Type 0 where
  pub id : ℕ
  pub owner_user_id : ℕ
  pub analysis_id : ℕ
  pub analysis_run_id : Option ℕ
  pub stage_execution_id : Option ℕ
  pub artifact_kind : ℕ
  pub storage_provider : ℕ
  pub storage_key : List ℕ
  pub logical_key : List ℕ
  pub content_type : ℕ
  pub size_bytes : ℕ
  pub checksum_sha256 : ℕ
  pub schema_version : Option ℕ
  pub state : ArtifactState
  pub is_current : Bool
  pub updated_at : ℕ

-- `PlayerSelection`
pub record PlayerSelection : Type 0 where
  pub owner_user_id : ℕ
  pub analysis_id : ℕ
  pub analysis_run_id : ℕ
  pub candidate_id : Option ℕ
  pub track_id : Option ℕ
  pub source_track_ids : List ℕ
  pub is_current : Bool

-- `CalibrationVerification`
pub record CalibrationVerification : Type 0 where
  pub owner_user_id : ℕ
  pub analysis_id : ℕ
  pub calibration_id : ℕ
  pub calibration_checksum_sha256 : ℕ
  pub is_verified : Bool
  pub verified_at : ℕ

pub data Scope : Type 0 where
  analysis_upload run_start : Scope

pub data Resource : Type 0 where
  no_resource : Resource
  analysis_resource exact_duplicate run_resource : ℕ → Resource

-- `IdempotencyRecord`, with `resource_type` and `resource_id` in one
pub record IdempotencyRecord : Type 0 where
  pub owner_user_id : ℕ
  pub scope : Scope
  pub key_hash : ℕ
  pub request_fingerprint : ℕ
  pub resource : Resource
  pub has_payload : Bool

pub data EventType : Type 0 where
  analysis_created legacy_imported run_started job_state_changed : EventType
  run_moved : State → EventType

-- `AnalysisStateEvent`; the subject is the run, if one is named
pub record StateEvent : Type 0 where
  pub analysis_id : ℕ
  pub analysis_run_id : Option ℕ
  pub previous_state : Option State
  pub new_state : State
  pub event_type : EventType
  pub subject_row_version : ℕ

-- the tables; events stand with the newest first
pub record Db : Type 0 where
  pub videos : List UploadedVideo
  pub analyses : List Analysis
  pub runs : List AnalysisRun
  pub stages : List StageExecution
  pub artifacts : List Artifact
  pub selections : List PlayerSelection
  pub verifications : List CalibrationVerification
  pub records : List IdempotencyRecord
  pub events : List StateEvent
  pub uploads : List UploadSession

-- the errors of app/persistence/errors.py, `ValueError` and `IntegrityError`
pub data PersistenceError : Type 0 where
  resource_not_found ownership_mismatch idempotency_conflict : PersistenceError
  operation_in_progress optimistic_concurrency invalid_state_transition : PersistenceError
  source_media_unavailable artifact_not_available value_error integrity_error : PersistenceError

abbrev pub Call : Type 0 → Type 0
Call A = Tx Db PersistenceError A

abbrev pub code_of : State → ℕ
code_of pending = 0
code_of queued = 1
code_of processing = 2
code_of completed = 3
code_of failed = 4
code_of cancelled = 5
code_of stale = 6
code_of unavailable = 7

abbrev pub same_state : State → State → Bool
same_state a b = code_of a == code_of b

-- `state in ("queued", "processing")`
abbrev pub is_active : State → Bool
is_active queued = true
is_active processing = true
is_active _ = false

abbrev pub is_live : Lifecycle → Bool
is_live live = true
is_live _ = false

abbrev pub has_analysis_id : ℕ → Analysis → Bool
has_analysis_id i a = a.id == i

abbrev pub has_video_id : ℕ → UploadedVideo → Bool
has_video_id i v = v.id == i

abbrev pub has_run_id : ℕ → AnalysisRun → Bool
has_run_id i r = r.id == i

-- the active run of an analysis, which the index `uq_run_one_active` allows once
abbrev pub is_active_run : ℕ → AnalysisRun → Bool
is_active_run analysis_id r = r.analysis_id == analysis_id && is_active r.state

-- `_owned_analysis` of `session.get(Analysis, id)`
abbrev pub owned_if : ℕ → Option Analysis → Result PersistenceError Analysis
owned_if owner none = err resource_not_found
owned_if owner (some a) =
    if not (a.owner_user_id == owner)
    then err ownership_mismatch
    else if not (is_live a.lifecycle_state)
    then err resource_not_found
    else ok a

unfoldable pub owned_analysis : ℕ → ℕ → Db → Result PersistenceError Analysis
owned_analysis owner i db = owned_if owner (find (has_analysis_id i) db.analyses)

pub same_state_eq : (a b : State) → same_state a b ≡ true → a ≡ b
same_state_eq a b e = ground arith
