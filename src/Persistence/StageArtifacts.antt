-- ===== src/Persistence/StageArtifacts.antt =====
-- The artifacts that a stage execution registers, and the reviews of a calibration.
use court.Base.{
  ℕ, Bool, none, some, List, ◌∷◌, map, Result, ok, err, ◌==◌, ◌&&◌, not, if◌then◌else◌,
}
use court.Base.Text.{starts_with}
use court.Base.Table.{find, any, update_where}
use court.Persistence.{
  Analysis, StageExecution, Artifact, CalibrationVerification, Db, PersistenceError,
  resource_not_found, value_error, invalid_state_transition, Call, is_active, owned_analysis,
}
use court.Persistence.Registry.{ArtifactInput, Registrant, register_artifacts}
use court.Persistence.Prefix.{stage_artifact_prefix}
use court.Persistence.Stages.{has_stage_id, owns_stage}

-- an artifact outside the namespace of the attempt
abbrev pub strays : List ℕ → List ArtifactInput → Bool
strays expected_prefix =
    any (λ (i : ArtifactInput). not (starts_with expected_prefix i.logical_key))

abbrev pub registrant : ℕ → Analysis → StageExecution → ℕ → Registrant
registrant owner a x now = record {
  owner_user_id = owner;
  analysis_id = a.id;
  run_id = some x.analysis_run_id;
  stage_execution_id = some x.id;
  now = now;
}

abbrev pub with_registered : StageExecution → ℕ → List Artifact → List Artifact → Db → Db
with_registered x now registered rows db = record db {
  artifacts = rows;
  stages =
      update_where (has_stage_id x.id)
        (λ y. record y {
          output_artifact_references = map (λ (b : Artifact). b.id) registered;
          updated_at = now;
        })
        db.stages;
}

-- the end of the transaction, which a failed registration rolls back
abbrev pub registered_outputs :
    StageExecution
    → ℕ
    → Db
    → Result PersistenceError (List Artifact) × List Artifact
    → Result PersistenceError (List Artifact) × Db
registered_outputs x now db (err e, rows) = (err e, db)
registered_outputs x now db (ok registered, rows) =
    (ok registered, with_registered x now registered rows db)

unfoldable pub register_stage_artifacts : ℕ → ℕ → List ArtifactInput → ℕ → Call (List Artifact)
register_stage_artifacts owner i inputs now db = elim (find (owns_stage db owner i) db.stages) [
  | none ↦ (err resource_not_found, db)
  | some x ↦
      if not (is_active x.state)
      then (err invalid_state_transition, db)
      else elim (stage_artifact_prefix x.stage_type x.attempt_number) [
        | err e ↦ (err e, db)
        | ok expected_prefix ↦
            if strays expected_prefix inputs
            then (err value_error, db)
            else elim (owned_analysis owner x.analysis_id db) [
              | err e ↦ (err e, db)
              | ok a ↦
                  registered_outputs x now db
                    (register_artifacts (registrant owner a x now) inputs db.artifacts)
            ]
      ]
]

abbrev pub same_review : ℕ → ℕ → ℕ → CalibrationVerification → Bool
same_review analysis_id calibration_id checksum v =
    v.analysis_id == analysis_id
    && v.calibration_id == calibration_id
    && v.calibration_checksum_sha256 == checksum

-- The first review of a calibration stands.
unfoldable pub record_calibration_verification :
    CalibrationVerification → Call CalibrationVerification
unfolding owned_analysis
record_calibration_verification v db = elim (owned_analysis v.owner_user_id v.analysis_id db) [
  | err e ↦ (err e, db)
  | ok a ↦
      elim (find (same_review v.analysis_id v.calibration_id v.calibration_checksum_sha256)
        db.verifications) [
          | some existing ↦ (ok existing, db)
          | none ↦ (ok v, record db { verifications = v ∷ db.verifications })
        ]
]
