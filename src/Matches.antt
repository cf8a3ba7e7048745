-- ===== src/Matches.antt =====
-- app/services/jobs/match_lifecycle.py and source_media.py: the deletion of a match, and of the
-- recording alone. Each has two transactions, and between them the storage is asked to delete the
-- registered objects; the rows are the manifest of a retry until the second one.
pub mod Deletion
pub mod SourceMedia
pub mod Sound
pub mod Removed
pub mod Reach
pub mod Registry
pub mod Retry
pub mod Erasure
pub mod Condemned
pub mod Forever
mod Tests
use court.Base.{
  ℕ, Bool, true, false, List, [], ◌∷◌, Option, none, some, Result, ok, err, ◌==◌, ◌&&◌, ◌||◌, not,
  is_none, is_some, if◌then◌else◌,
}
use court.Base.Text.{same_text}
use court.Base.Table.{any}
use court.Persistence.{Analysis, UploadedVideo, Artifact}

-- the codes of the errors
pub data MatchError : Type 0 where
  not_found source_media_shared match_busy unsafe_media_key storage_backend : MatchError
  source_video_unavailable analysis_not_complete upload_not_complete : MatchError

-- one registered object: its provider, its key, the key that the job uses, its digest
pub record Registered : Type 0 where
  pub provider : ℕ
  pub key : List ℕ
  pub logical_key : List ℕ
  pub checksum : Option ℕ
  pub is_source : Bool

-- The storage: the name of its provider, how it forms a key, and whether it deletes one.
pub record Objects : Type 0 where
  pub provider : ℕ
  pub local_provider : ℕ
  pub source_object_key : List ℕ → List ℕ
  pub artifact_object_key : List ℕ → Option ℕ → List ℕ
  pub deletes : List ℕ → Bool
  pub purges : Bool

abbrev pub is_expected_key : Objects → Registered → Bool
is_expected_key o m =
    if m.is_source
    then same_text m.key (o.source_object_key m.logical_key)
    else same_text m.key (o.artifact_object_key m.logical_key m.checksum)
      || same_text m.key (o.artifact_object_key m.logical_key none)

-- `delete_registered_object`: the keys that it deletes
unfoldable pub delete_registered_object : Objects → Registered → Result MatchError (List ℕ)
delete_registered_object o m =
    if m.provider == o.local_provider
    then if not (same_text m.key m.logical_key)
      then err unsafe_media_key
      else if o.deletes m.key
      then ok m.key
      else err storage_backend
    else if m.provider == o.provider
    then if not (is_expected_key o m)
      then err unsafe_media_key
      else if o.deletes m.key
      then ok m.key
      else err storage_backend
    else err storage_backend

-- the loop over the manifest, which stops at the first object that is not deleted. The code returns
-- nothing: the keys are the record of the deletions that it made, for the theorems to speak of.
unfoldable pub delete_all : Objects → List Registered → Result MatchError (List (List ℕ))
delete_all o [] = if o.purges then ok [] else err storage_backend
delete_all o (m ∷ ms) =
    let rest = delete_all o ms in
    elim (delete_registered_object o m) [
      | err e ↦ err e
      | ok key ↦ elim rest [ err e ↦ err e | ok keys ↦ ok (key ∷ keys) ]
    ]

-- another analysis of the same video
abbrev pub is_shared : ℕ → ℕ → List Analysis → Bool
is_shared video_id analysis_id =
    any (λ a. a.uploaded_video_id == video_id && not (a.id == analysis_id))
