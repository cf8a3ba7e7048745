-- ===== src/Matches/SourceMedia.antt =====
-- `SourceMediaService.delete`: the recording goes, the report stays.
use court.Base.{
  ℕ, ◌+◌, Bool, true, false, Option, none, some, List, ◌∷◌, map, ok, err, ◌==◌, ◌&&◌, ◌||◌, not,
  if◌then◌else◌,
}
use court.Base.Table.{find, any, select, update_where}
use court.Uploads.{UploadSession}
use court.Uploads.Verify.{is_completed}
use court.Persistence.{
  State, completed, padel, UploadedVideo, VideoState, available, deleting, video_deleted, Analysis,
  Artifact, artifact_deleted, Db, is_live, has_video_id,
}
use court.Persistence.Jobs.{source_video_kind, payload_flag}
use court.Persistence.Stages.{same_sport}
use court.Matches.{
  not_found, source_media_shared, source_video_unavailable, analysis_not_complete,
  upload_not_complete, Registered, Objects, delete_all, is_shared,
}
use court.Matches.Deletion.{Call, owns, registered_artifact, artifacts_of, source_key, nonempty}

-- which objects are media: `is_playback_media` of the job repository, and the type of the content
pub record Media : Type 0 where
  pub is_playback_media : List ℕ → Bool
  pub is_video : ℕ → Bool

abbrev pub is_medium : Media → Artifact → Bool
is_medium k x =
    x.artifact_kind == source_video_kind
    || k.is_playback_media x.logical_key
    || k.is_video x.content_type

abbrev pub is_established : VideoState → Bool
is_established available = true
is_established deleting = true
is_established video_deleted = true
is_established _ = false

abbrev pub is_complete_state : State → Bool
is_complete_state completed = true
is_complete_state _ = false

abbrev pub is_finished : Analysis → Bool
is_finished a =
    (is_complete_state a.state && payload_flag (λ p. p.analytics_completed) a)
    || (same_sport a.sport padel && payload_flag (λ p. p.inspection_completed) a)

pub record SourceManifest : Type 0 where
  pub video : UploadedVideo
  pub key : List ℕ
  pub source : Option (List ℕ)
  pub media : List Artifact

abbrev pub condemned_video : UploadedVideo → UploadedVideo → UploadedVideo
condemned_video v w = record w { state = deleting; row_version = v.row_version + 1 }

-- the first transaction, on a video that was found
unfoldable pub request_source_deletion :
    Media → ℕ → ℕ → Analysis → UploadedVideo → Call SourceManifest
request_source_deletion k owner i a v db =
    if not (v.owner_user_id == owner)
    then (err not_found, db)
    else if not (is_established v.state)
    then (err source_video_unavailable, db)
    else if is_shared v.id i db.analyses
    then (err source_media_shared, db)
    else if not (is_finished a)
    then (err analysis_not_complete, db)
    else if any (λ (u : UploadSession). u.analysis_id == i && not (is_completed u.status))
        db.uploads
    then (err upload_not_complete, db)
    else elim (nonempty v.storage_key) [
      | none ↦ (err source_video_unavailable, db)
      | some key ↦ (
        ok (record {
          video = v;
          key = key;
          source = source_key a;
          media = select (is_medium k) (artifacts_of owner i db.artifacts);
        }),
        record db { videos = update_where (has_video_id v.id) (condemned_video v) db.videos },
      )
    ]

unfoldable pub request : Media → ℕ → ℕ → Call SourceManifest
request k owner i db = elim (find (owns owner i) db.analyses) [
  | none ↦ (err not_found, db)
  | some a ↦
      if not (is_live a.lifecycle_state)
      then (err not_found, db)
      else elim (find (has_video_id a.uploaded_video_id) db.videos) [
        | none ↦ (err not_found, db)
        | some v ↦ request_source_deletion k owner i a v db
      ]
]

abbrev pub registered_recording : SourceManifest → List Registered
registered_recording m = elim m.source [
  | none ↦ map registered_artifact m.media
  | some logical ↦
      record {
        provider = m.video.storage_provider;
        key = m.key;
        logical_key = logical;
        checksum = none;
        is_source = true;
      }
      ∷ map registered_artifact m.media
]

abbrev pub of_manifest : ℕ → ℕ → SourceManifest → Artifact → Bool
of_manifest owner i m x =
    x.analysis_id == i && x.owner_user_id == owner && any (λ (y : Artifact). y.id == x.id) m.media

-- the second transaction
unfoldable pub finalize : Media → ℕ → ℕ → SourceManifest → Db → Db
finalize k owner i m db = record db {
  videos =
      update_where (has_video_id m.video.id)
        (λ v. record v { state = video_deleted; row_version = v.row_version + 1 }) db.videos;
  artifacts =
      update_where (of_manifest owner i m) (λ x. record x { state = artifact_deleted })
        db.artifacts;
}

unfoldable pub delete_source : Objects → Media → ℕ → ℕ → Call (List (List ℕ))
delete_source o k owner i db =
    let (requested, db') = request k owner i db in
    elim requested [
      | err e ↦ (err e, db')
      | ok m ↦ elim (delete_all o (registered_recording m)) [
        | err e ↦ (err e, db')
        | ok keys ↦ (ok keys, finalize k owner i m db')
      ]
    ]
