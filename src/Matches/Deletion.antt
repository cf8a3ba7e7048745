-- ===== src/Matches/Deletion.antt =====
-- `MatchLifecycleService.delete`, under the exclusive lock of the match's media operations.
use court.Base.{
  ℕ, ◌+◌, Bool, true, false, Option, none, some, List, [], ◌∷◌, map, Result, ok, err, Tx, ◌==◌,
  ◌&&◌, not, is_some, if◌then◌else◌,
}
use court.Base.Table.{find, any, select, update_where}
use court.Base.Rows.{delete_where}
use court.Uploads.{UploadSession, counts_as_active}
use court.Uploads.Row.{erased_upload}
use court.Persistence.{
  cancelled, Lifecycle, deletion_pending, deleted, UploadedVideo, deleting, video_deleted, Analysis,
  AnalysisRun, StageExecution, Artifact, IdempotencyRecord, analysis_resource, exact_duplicate, Db,
  is_active, has_analysis_id, has_video_id,
}
use court.Persistence.Jobs.{source_video_kind}
use court.Matches.{
  MatchError, not_found, source_media_shared, match_busy, unsafe_media_key, Registered, Objects,
  delete_all, is_shared,
}

abbrev pub Call : Type 0 → Type 0
Call A = Tx Db MatchError A

abbrev pub owns : ℕ → ℕ → Analysis → Bool
owns owner i a = a.id == i && a.owner_user_id == owner

abbrev pub is_deleted : Lifecycle → Bool
is_deleted deleted = true
is_deleted _ = false

abbrev pub retire_runs : ℕ → ℕ → List AnalysisRun → List AnalysisRun
retire_runs i now =
    update_where (λ r. r.analysis_id == i && is_active r.state)
      (λ r. record r { state = cancelled; cancelled_at = some now })

abbrev pub retire_stages : ℕ → ℕ → List StageExecution → List StageExecution
retire_stages i now =
    update_where (λ x. x.analysis_id == i && is_active x.state)
      (λ x. record x { state = cancelled; cancelled_at = some now })

abbrev pub condemned : Analysis → ℕ → Analysis → Analysis
condemned a now b = record b {
  lifecycle_state = deletion_pending;
  deletion_requested_at =
      if is_some b.deletion_requested_at then b.deletion_requested_at else some now;
  row_version = a.row_version + 1;
}

abbrev pub registered_artifact : Artifact → Registered
registered_artifact x = record {
  provider = x.storage_provider;
  key = x.storage_key;
  logical_key = x.logical_key;
  checksum = some x.checksum_sha256;
  is_source = x.artifact_kind == source_video_kind;
}

abbrev pub artifacts_of : ℕ → ℕ → List Artifact → List Artifact
artifacts_of owner i = select (λ x. x.analysis_id == i && x.owner_user_id == owner)

-- an empty text counts as none
abbrev pub nonempty : Option (List ℕ) → Option (List ℕ)
nonempty none = none
nonempty (some []) = none
nonempty (some (c ∷ cs)) = some (c ∷ cs)

abbrev pub source_key : Analysis → Option (List ℕ)
source_key a = elim a.job_payload [ none ↦ none | some p ↦ nonempty p.source_video ]

-- what the deletion has to work through
pub record Manifest : Type 0 where
  pub video : UploadedVideo
  pub source : Option (List ℕ)
  pub media : List Artifact

-- the writes of the intent
unfoldable pub condemned_db : ℕ → ℕ → Analysis → UploadedVideo → Db → Db
condemned_db i now a v db = record db {
  runs = retire_runs i now db.runs;
  stages = retire_stages i now db.stages;
  analyses = update_where (has_analysis_id i) (condemned a now) db.analyses;
  videos = update_where (has_video_id v.id) (λ w. record w { state = deleting }) db.videos;
}

-- the tests on the video, and the manifest
unfoldable pub request_video : ℕ → ℕ → ℕ → Analysis → UploadedVideo → Call (Option Manifest)
request_video owner i now a v db =
    if not (v.owner_user_id == owner)
    then (err not_found, db)
    else if is_shared v.id i db.analyses
    then (err source_media_shared, db)
    else if any (λ (u : UploadSession). u.analysis_id == i && counts_as_active u.status) db.uploads
    then (err match_busy, db)
    else (
      ok (
          some (record {
            video = v;
            source = source_key a;
            media = artifacts_of owner i db.artifacts;
          })),
      condemned_db i now a v db,
    )

-- the first transaction: intent and manifest; `none` if the match is deleted already
unfoldable pub request_deletion : ℕ → ℕ → ℕ → Call (Option Manifest)
request_deletion owner i now db = elim (find (owns owner i) db.analyses) [
  | none ↦ (err not_found, db)
  | some a ↦
      if is_deleted a.lifecycle_state
      then (ok none, db)
      else elim (find (has_video_id a.uploaded_video_id) db.videos) [
        | none ↦ (err not_found, db)
        | some v ↦ request_video owner i now a v db
      ]
]

abbrev pub registered_source :
    UploadedVideo → Option (List ℕ) → Option (List ℕ) → Result MatchError (List Registered)
registered_source v none logical = ok []
registered_source v (some key) none = err unsafe_media_key
registered_source v (some key) (some logical) = ok (
    record {
      provider = v.storage_provider;
      key = key;
      logical_key = logical;
      checksum = none;
      is_source = true;
    }
    ∷ [])

abbrev pub with_media : List Artifact → List Registered → List Registered
with_media media [] = map registered_artifact media
with_media media (m ∷ ms) = m ∷ with_media media ms

-- the storage's part
unfoldable pub delete_objects : Objects → Manifest → Result MatchError (List (List ℕ))
delete_objects o m = elim (registered_source m.video (nonempty m.video.storage_key) m.source) [
  | err e ↦ err e
  | ok source ↦ delete_all o (with_media m.media source)
]

abbrev pub is_erased : Analysis → ℕ → Analysis → Analysis
is_erased a now b = record b {
  promoted_run_id = none;
  job_payload = none;
  lifecycle_state = deleted;
  deleted_at = some now;
  row_version = a.row_version + 1;
}

abbrev pub erased_video : UploadedVideo → UploadedVideo
erased_video v = record v {
  state = video_deleted;
  storage_key = none;
  content_type = none;
  size_bytes = none;
  source_checksum = none;
}

abbrev pub refers_to : ℕ → ℕ → IdempotencyRecord → Bool
refers_to owner i r =
    r.owner_user_id == owner
    && elim r.resource [ analysis_resource j ↦ j == i | exact_duplicate j ↦ j == i | _ ↦ false ]

-- the second transaction: only identities stay
unfoldable pub finalize_deletion : ℕ → ℕ → Analysis → ℕ → ℕ → Db → Db
finalize_deletion owner i a video_id now db = record db {
  artifacts = delete_where (λ x. x.analysis_id == i) db.artifacts;
  selections = delete_where (λ x. x.analysis_id == i) db.selections;
  verifications = delete_where (λ x. x.analysis_id == i) db.verifications;
  stages = delete_where (λ x. x.analysis_id == i) db.stages;
  events = delete_where (λ x. x.analysis_id == i) db.events;
  runs = delete_where (λ x. x.analysis_id == i) db.runs;
  records = update_where (refers_to owner i) (λ r. record r { has_payload = false }) db.records;
  uploads =
      update_where (λ u. u.owner_user_id == owner && u.analysis_id == i) erased_upload db.uploads;
  analyses = update_where (has_analysis_id i) (is_erased a now) db.analyses;
  videos = update_where (has_video_id video_id) erased_video db.videos;
}

abbrev pub finalize_if : ℕ → ℕ → Option Analysis → ℕ → ℕ → Db → Db
finalize_if owner i none video_id now db = db
finalize_if owner i (some a) video_id now db = finalize_deletion owner i a video_id now db

-- what follows the first transaction
unfoldable pub carry_out :
    Objects
    → ℕ
    → ℕ
    → ℕ
    → Result MatchError (Option Manifest) × Db
    → Result MatchError (List (List ℕ)) × Db
carry_out o owner i now (err e, db) = (err e, db)
carry_out o owner i now (ok none, db) = (ok [], db)
carry_out o owner i now (ok (some m), db) = elim (delete_objects o m) [
  | err e ↦ (err e, db)
  | ok keys ↦
      (ok keys, finalize_if owner i (find (has_analysis_id i) db.analyses) m.video.id now db)
]

-- the whole call: what the storage refuses leaves the match condemned and its rows in place
unfoldable pub delete : Objects → ℕ → ℕ → ℕ → Call (List (List ℕ))
delete o owner i now db = carry_out o owner i now (request_deletion owner i now db)
