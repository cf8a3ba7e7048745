-- ===== src/Persistence/Reads.antt =====
-- The reads of one job and of its artifacts.
use court.Base.{
  ℕ, Bool, true, false, Option, none, some, List, [], ◌∷◌, Result, ok, err, ◌==◌, ◌&&◌,
}
use court.Base.Text.{same_text}
use court.Base.Table.{find, any, select}
use court.Persistence.{
  VideoState, available, deleting, video_deleted, Sport, JobPayload, UploadedVideo, ArtifactState,
  artifact_available, Artifact, Db, PersistenceError, artifact_not_available, has_video_id,
  owned_analysis,
}

-- the payload with what `load_job` adds; no state of the media stands for "unavailable"
pub record LoadedJob : Type 0 where
  pub payload : Option JobPayload
  pub persistence_version : ℕ
  pub sport : Sport
  pub source_media_state : Option VideoState

abbrev pub media_state : Option UploadedVideo → Option VideoState
media_state none = none
media_state (some v) = elim v.state [
  | available ↦ some available
  | deleting ↦ some deleting
  | video_deleted ↦ some video_deleted
  | _ ↦ none
]

unfoldable pub load_job : ℕ → ℕ → Db → Result PersistenceError LoadedJob
load_job owner i db = elim (owned_analysis owner i db) [
  | err e ↦ err e
  | ok a ↦ ok (record {
    payload = a.job_payload;
    persistence_version = a.row_version;
    sport = a.sport;
    source_media_state = media_state (find (has_video_id a.uploaded_video_id) db.videos);
  })
]

abbrev pub is_available : ArtifactState → Bool
is_available artifact_available = true
is_available _ = false

abbrev pub is_offered : ℕ → ℕ → Artifact → Bool
is_offered owner i x =
    x.owner_user_id == owner && x.analysis_id == i && is_available x.state && x.is_current

abbrev pub or_missing : Option Artifact → Result PersistenceError Artifact
or_missing none = err artifact_not_available
or_missing (some x) = ok x

unfoldable pub get_artifact : ℕ → ℕ → List ℕ → Db → Result PersistenceError Artifact
get_artifact owner i key db = elim (owned_analysis owner i db) [
  | err e ↦ err e
  | ok a ↦ or_missing (find (λ x. is_offered owner i x && same_text x.logical_key key) db.artifacts)
]

unfoldable pub get_artifacts : ℕ → ℕ → List (List ℕ) → Db → Result PersistenceError (List Artifact)
get_artifacts owner i [] db = ok []
get_artifacts owner i (key ∷ keys) db = elim (owned_analysis owner i db) [
  | err e ↦ err e
  | ok a ↦ ok (
      select
        (λ x. is_offered owner i x && any (λ wanted. same_text x.logical_key wanted) (key ∷ keys))
        db.artifacts)
]
