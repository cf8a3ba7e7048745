-- ===== src/Persistence/Registry.antt =====
-- The registry of an analysis: `_register_artifacts` and `_persist_player_selection`.
use court.Base.{
  ℕ, Bool, true, false, Option, none, some, List, [], ◌∷◌, Result, ok, err, ◌==◌, ◌&&◌,
  if◌then◌else◌, Tx, pure, ◌>>=◌,
}
use court.Base.Text.{same_text}
use court.Base.Table.{find, any, update_where}
use court.Persistence.{
  AnalysisRun, Artifact, artifact_available, PlayerSelection, PersistenceError, resource_not_found,
  integrity_error,
}

-- `ArtifactInput`, with `logical_key or storage_key` as `logical_key`, and its fresh identifier
pub record ArtifactInput : Type 0 where
  pub id : ℕ
  pub storage_key : List ℕ
  pub logical_key : List ℕ
  pub content_type : ℕ
  pub size_bytes : ℕ
  pub checksum_sha256 : ℕ
  pub artifact_kind : ℕ
  pub schema_version : Option ℕ
  pub storage_provider : ℕ

abbrev pub is_current_at : ℕ → List ℕ → Artifact → Bool
is_current_at analysis_id key a =
    a.analysis_id == analysis_id && same_text a.logical_key key && a.is_current

abbrev pub is_unchanged : ArtifactInput → Artifact → Bool
is_unchanged i a =
    a.checksum_sha256 == i.checksum_sha256
    && a.size_bytes == i.size_bytes
    && a.storage_provider == i.storage_provider
    && same_text a.storage_key i.storage_key

-- whose artifacts are registered
pub record Registrant : Type 0 where
  pub owner_user_id : ℕ
  pub analysis_id : ℕ
  pub run_id : Option ℕ
  pub stage_execution_id : Option ℕ
  pub now : ℕ

abbrev pub new_artifact : Registrant → ArtifactInput → Artifact
new_artifact w i = record {
  id = i.id;
  owner_user_id = w.owner_user_id;
  analysis_id = w.analysis_id;
  analysis_run_id = w.run_id;
  stage_execution_id = w.stage_execution_id;
  artifact_kind = i.artifact_kind;
  storage_provider = i.storage_provider;
  storage_key = i.storage_key;
  logical_key = i.logical_key;
  content_type = i.content_type;
  size_bytes = i.size_bytes;
  checksum_sha256 = i.checksum_sha256;
  schema_version = i.schema_version;
  state = artifact_available;
  is_current = true;
  updated_at = w.now;
}

abbrev pub superseded : ℕ → Artifact → Artifact
superseded now a = record a { is_current = false; updated_at = now }

-- a call on the table of artifacts
abbrev pub OnArtifacts : Type 0 → Type 0
OnArtifacts A = Tx (List Artifact) PersistenceError A

-- the unique index `uq_artifact_current_storage`
abbrev pub is_stored_at : ℕ → ℕ → List ℕ → Artifact → Bool
is_stored_at analysis_id provider key a =
    a.analysis_id == analysis_id
    && a.storage_provider == provider
    && same_text a.storage_key key
    && a.is_current

-- the flush of a new row; `uq_artifact_current_logical` holds where this is called
abbrev pub insert_artifact : Registrant → ArtifactInput → OnArtifacts Artifact
insert_artifact w i rows =
    if any (is_stored_at w.analysis_id i.storage_provider i.storage_key) rows
    then (err integrity_error, rows)
    else (ok (new_artifact w i), new_artifact w i ∷ rows)

-- one round of the loop: the artifact as it is registered, and the table
unfoldable pub register_artifact : Registrant → ArtifactInput → OnArtifacts Artifact
register_artifact w i rows = elim (find (is_current_at w.analysis_id i.logical_key) rows) [
  | none ↦ insert_artifact w i rows
  | some current ↦
      if is_unchanged i current
      then (ok current, rows)
      else insert_artifact w i
          (update_where (is_current_at w.analysis_id i.logical_key) (superseded w.now) rows)
]

unfoldable pub register_artifacts : Registrant → List ArtifactInput → OnArtifacts (List Artifact)
register_artifacts w [] = pure []
register_artifacts w (i ∷ is) = do
  registered ← register_artifact w i
  others ← register_artifacts w is
  pure (registered ∷ others)

abbrev pub is_selection_of : ℕ → PlayerSelection → Bool
is_selection_of analysis_id s = s.analysis_id == analysis_id && s.is_current

-- `PlayerSelectionInput`
pub record PlayerSelectionInput : Type 0 where
  pub candidate_id : Option ℕ
  pub track_id : Option ℕ
  pub source_track_ids : List ℕ

abbrev pub same_option : Option ℕ → Option ℕ → Bool
same_option none none = true
same_option (some a) (some b) = a == b
same_option _ _ = false

abbrev pub is_selected : PlayerSelectionInput → PlayerSelection → Bool
is_selected i s =
    same_option s.candidate_id i.candidate_id
    && same_option s.track_id i.track_id
    && same_text s.source_track_ids i.source_track_ids

abbrev pub unselect : ℕ → List PlayerSelection → List PlayerSelection
unselect analysis_id =
    update_where (is_selection_of analysis_id) (λ s. record s { is_current = false })

abbrev pub new_selection : ℕ → ℕ → ℕ → PlayerSelectionInput → PlayerSelection
new_selection owner analysis_id run_id i = record {
  owner_user_id = owner;
  analysis_id = analysis_id;
  analysis_run_id = run_id;
  candidate_id = i.candidate_id;
  track_id = i.track_id;
  source_track_ids = i.source_track_ids;
  is_current = true;
}

abbrev pub selects_already : PlayerSelectionInput → Option PlayerSelection → Bool
selects_already i none = false
selects_already i (some s) = is_selected i s

-- `_persist_player_selection`
unfoldable pub persist_player_selection :
    ℕ
    → ℕ
    → Option AnalysisRun
    → Option PlayerSelectionInput
    → List PlayerSelection
    → Result PersistenceError (List PlayerSelection)
persist_player_selection owner analysis_id run none ss = ok (unselect analysis_id ss)
persist_player_selection owner analysis_id run (some i) ss =
    if selects_already i (find (is_selection_of analysis_id) ss) then ok ss else elim run [
      | none ↦ err resource_not_found
      | some r ↦ ok (new_selection owner analysis_id r.id i ∷ unselect analysis_id ss)
    ]
