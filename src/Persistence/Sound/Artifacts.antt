-- ===== src/Persistence/Sound/Artifacts.antt =====
-- Artifacts: at most one is current at a key, whoever registers, retires or hides some.
use court.Base.{
  ℕ, ◌+◌, ◌≤◌, ◌≡◌, refl, ap, sym, ◌∙◌, inl, inr, Bool, List, [], ◌∷◌, ◌==◌, ◌&&◌, ◌||◌, not, arith,
  Bool-cases, Option-cases, Result-cases, Result, ok, err, false, pure, ◌>>=◌,
}
use court.Base.Keeps.{Keeps, Keeps-bind}
use court.Base.Rows.{any-count}
use court.Base.Text.{same_text, same_text_eq}
use court.Base.Table.{
  find, any, count, update_where, count-update-le, count-update_none, find-count,
}
use court.Persistence.{
  State, StageExecution, Artifact, CalibrationVerification, Db, PersistenceError, owned_analysis,
  same_state, is_active,
}
use court.Persistence.Registry.{
  ArtifactInput, Registrant, is_current_at, new_artifact, superseded, is_unchanged,
  register_artifact, register_artifacts, insert_artifact, is_stored_at,
}
use court.Persistence.Prefix.{stage_artifact_prefix}
use court.Persistence.Stages.{
  StageRequest, start_stage_execution, move_stage, transition_stage_execution, is_historical,
  retire_history, owns_stage, has_stage_id, may_turn, is_failed, is_empty, moved_stage,
}
use court.Persistence.StageArtifacts.{
  register_stage_artifacts, record_calibration_verification, strays, with_registered,
  registered_outputs, registrant,
}
use court.Persistence.Sound.{IsSound, HasOneCurrent}

-- Hiding rows makes none current.
pub hide-HasOneCurrent :
    (p : Artifact → Bool) (now : ℕ) (rows : List Artifact)
    → HasOneCurrent rows
    → HasOneCurrent (update_where p (superseded now) rows)
hide-HasOneCurrent p now rows h = (
  λ i key. ground (
    arith,
    h.0 i key,
    count-update-le (is_current_at i key) p (superseded now) (λ r e. ground arith) rows,
  ),
  λ i provider key. ground (
    arith,
    h.1 i provider key,
    count-update-le (is_stored_at i provider key) p (superseded now) (λ r e. ground arith) rows,
  ),
)

add-one_current :
    (x : Artifact) (rows : List Artifact) (i : ℕ) (key : List ℕ)
    → count (is_current_at x.analysis_id x.logical_key) rows ≡ 0
    → count (is_current_at i key) rows ≤ 1
    → count (is_current_at i key) (x ∷ rows) ≤ 1
add-one_current x rows i key e h =
    elim (Bool-cases (x.analysis_id == i && same_text x.logical_key key)) [
      | inl hit ↦
          let same_id : x.analysis_id ≡ i = ground arith in
          let same_key : x.logical_key ≡ key = same_text_eq x.logical_key key (ground arith) in
          let empty : count (is_current_at i key) rows ≡ 0 =
            ap (λ k. count (is_current_at i k) rows) (sym same_key)
            ∙ (ap (λ j. count (is_current_at j x.logical_key) rows) (sym same_id) ∙ e) in
          ground (arith, empty)
      | inr miss ↦ ground (arith, h)
    ]

add-one_stored :
    (x : Artifact) (rows : List Artifact) (i provider : ℕ) (key : List ℕ)
    → any (is_stored_at x.analysis_id x.storage_provider x.storage_key) rows ≡ false
    → count (is_stored_at i provider key) rows ≤ 1
    → count (is_stored_at i provider key) (x ∷ rows) ≤ 1
add-one_stored x rows i provider key e h =
    elim (Bool-cases
      (x.analysis_id == i && x.storage_provider == provider && same_text x.storage_key key)) [
        | inl hit ↦
            let same_id : x.analysis_id ≡ i = ground arith in
            let same_provider : x.storage_provider ≡ provider = ground arith in
            let same_key : x.storage_key ≡ key = same_text_eq x.storage_key key (ground arith) in
            let empty : count (is_stored_at i provider key) rows ≡ 0 =
              ap (λ k. count (is_stored_at i provider k) rows) (sym same_key)
              ∙ (ap (λ j. count (is_stored_at j provider x.storage_key) rows) (sym same_id)
                  ∙ (ap (λ j. count (is_stored_at x.analysis_id j x.storage_key) rows)
                        (sym same_provider)
                      ∙ any-count (is_stored_at x.analysis_id x.storage_provider x.storage_key) rows
                          e)) in
            ground (arith, empty)
        | inr miss ↦ ground (arith, h)
      ]

insert_artifact-HasOneCurrent :
    (w : Registrant) (i : ArtifactInput) (rows : List Artifact)
    → count (is_current_at w.analysis_id i.logical_key) rows ≡ 0
    → HasOneCurrent rows
    → HasOneCurrent (insert_artifact w i rows).1
insert_artifact-HasOneCurrent w i rows free h =
    elim (Bool-cases (any (is_stored_at w.analysis_id i.storage_provider i.storage_key) rows)) [
      | inl taken ↦ rw taken h
      | inr apart ↦ rw apart (
        λ j key. add-one_current (new_artifact w i) rows j key free (h.0 j key),
        λ j provider key.
            add-one_stored (new_artifact w i) rows j provider key apart (h.1 j provider key),
      )
    ]

register_artifact-HasOneCurrent :
    (w : Registrant) (i : ArtifactInput) → Keeps HasOneCurrent (register_artifact w i)
unfolding register_artifact
register_artifact-HasOneCurrent w i rows h =
    elim (Option-cases (find (is_current_at w.analysis_id i.logical_key) rows)) [
      | inl gone ↦
          rw (gone, register_artifact)
            (insert_artifact-HasOneCurrent w i rows
              (find-count (is_current_at w.analysis_id i.logical_key) rows gone) h)
      | inr (current, e) ↦ elim (Bool-cases (is_unchanged i current)) [
        | inl same ↦ rw (e, same, register_artifact) h
        | inr changed ↦
            rw (e, changed, register_artifact)
              (insert_artifact-HasOneCurrent w i _
                (count-update_none (is_current_at w.analysis_id i.logical_key)
                  (is_current_at w.analysis_id i.logical_key) (superseded w.now) (λ r. ground arith)
                  (λ r d. d) rows)
                (hide-HasOneCurrent (is_current_at w.analysis_id i.logical_key) w.now rows h))
      ]
    ]

pub register_artifacts-HasOneCurrent :
    (w : Registrant) (is : List ArtifactInput) → Keeps HasOneCurrent (register_artifacts w is)
unfolding register_artifacts
register_artifacts-HasOneCurrent w [] = λ rows h. h
register_artifacts-HasOneCurrent w (i ∷ is) =
    Keeps-bind HasOneCurrent (register_artifact w i)
      (λ r. register_artifacts w is >>= (λ rs. pure (r ∷ rs))) (register_artifact-HasOneCurrent w i)
      (λ r.
        Keeps-bind HasOneCurrent (register_artifacts w is) (λ rs. pure (r ∷ rs))
          (register_artifacts-HasOneCurrent w is) (λ rs rows h. h))

-- The same tables but for the artifacts, and tables that the invariant does not read.
pub with_artifacts-IsSound :
    (db db' : Db)
    → (db'.runs ≡ db.runs) × (db'.analyses ≡ db.analyses)
    → HasOneCurrent db'.artifacts
    → IsSound db
    → IsSound db'
with_artifacts-IsSound db db' e one h = record {
  one_run_id = λ i. ground (arith, h.one_run_id i, e.0);
  one_active = λ i. ground (arith, h.one_active i, e.0);
  one_current = one;
  active_live = λ i d. ground (arith, h.active_live i, e.0, e.1);
}

pub start_stage-IsSound :
    (q : StageRequest) (db : Db) → IsSound db → IsSound (start_stage_execution q db).1
unfolding start_stage_execution
start_stage-IsSound q db h =
    with_artifacts-IsSound db (start_stage_execution q db).1 (ground arith, ground arith)
      (
        λ i key. ground (arith, h.one_current.0 i key),
        λ i provider key. ground (arith, h.one_current.1 i provider key),
      )
      h

retire_history-IsSound :
    (new : State) (now : ℕ) (x : StageExecution) (db : Db)
    → IsSound db
    → IsSound (retire_history new now x db)
retire_history-IsSound new now x db h =
    with_artifacts-IsSound db (retire_history new now x db) (ground arith, ground arith)
      (
        λ i key. ground (
          arith,
          h.one_current.0 i key,
          (hide-HasOneCurrent (is_historical x db.stages) now db.artifacts h.one_current).0 i key,
        ),
        λ i provider key. ground (
          arith,
          h.one_current.1 i provider key,
          (hide-HasOneCurrent (is_historical x db.stages) now db.artifacts h.one_current).1 i
              provider key,
        ),
      )
      h

move_stage-IsSound :
    (previous : State) (expected : ℕ) (new : State) (category : List ℕ) (now : ℕ)
    (x : StageExecution) (db : Db)
    → IsSound db
    → IsSound (move_stage previous expected new category now x db).1
unfolding move_stage
move_stage-IsSound previous expected new category now x db h =
    elim (Bool-cases (not (x.row_version == expected) || not (same_state x.state previous))) [
      | inl changed ↦ rw (changed, move_stage) h
      | inr same ↦
          rw (same, move_stage)
            (retire_history-IsSound new now x _ (
              with_artifacts-IsSound db
                (record db {
                  stages =
                      update_where (has_stage_id x.id) (moved_stage new (expected + 1) now category)
                        db.stages;
                })
                (refl, refl) h.one_current h))
    ]

pub transition_stage-IsSound :
    (seen : Db) (owner i expected : ℕ) (new : State) (category : List ℕ) (now : ℕ) (db : Db)
    → IsSound db
    → IsSound (transition_stage_execution seen owner i expected new category now db).1
unfolding transition_stage_execution
transition_stage-IsSound seen owner i expected new category now db h =
    elim (Bool-cases (is_failed new && is_empty category)) [
      | inl bad ↦ rw (bad, transition_stage_execution) h
      | inr fine ↦ elim (Option-cases (find (owns_stage seen owner i) seen.stages)) [
        | inl gone ↦ rw (fine, gone, transition_stage_execution) h
        | inr (current, e) ↦ elim (Bool-cases (same_state current.state new)) [
          | inl there ↦ rw (fine, e, there, transition_stage_execution) h
          | inr away ↦ elim (Bool-cases (may_turn current.state new)) [
            | inr barred ↦ rw (fine, e, away, barred, transition_stage_execution) h
            | inl edge ↦ elim (Option-cases (find (has_stage_id i) db.stages)) [
              | inl none_of_it ↦ rw (fine, e, away, edge, none_of_it, transition_stage_execution) h
              | inr (x, row) ↦
                  rw (fine, e, away, edge, row, transition_stage_execution)
                    (move_stage-IsSound current.state expected new category now x db h)
            ]
          ]
        ]
      ]
    ]

registered_outputs-IsSound :
    (x : StageExecution) (now : ℕ) (db : Db)
    (o : Result PersistenceError (List Artifact) × List Artifact)
    → HasOneCurrent o.1
    → IsSound db
    → IsSound (registered_outputs x now db o).1
registered_outputs-IsSound x now db (err e, rows) one h = h
registered_outputs-IsSound x now db (ok registered, rows) one h =
    with_artifacts-IsSound db (with_registered x now registered rows db) (refl, refl) one h

pub register_stage-IsSound :
    (owner i : ℕ) (inputs : List ArtifactInput) (now : ℕ) (db : Db)
    → IsSound db
    → IsSound (register_stage_artifacts owner i inputs now db).1
unfolding register_stage_artifacts
register_stage-IsSound owner i inputs now db h =
    elim (Option-cases (find (owns_stage db owner i) db.stages)) [
      | inl gone ↦ rw (gone, register_stage_artifacts) h
      | inr (x, e) ↦ elim (Bool-cases (is_active x.state)) [
        | inr off ↦ rw (e, off, register_stage_artifacts) h
        | inl on ↦ elim (Result-cases (stage_artifact_prefix x.stage_type x.attempt_number)) [
          | inr (d, bad) ↦ rw (e, on, bad, register_stage_artifacts) h
          | inl (expected, good) ↦ elim (Bool-cases (strays expected inputs)) [
            | inl stray ↦ rw (e, on, good, stray, register_stage_artifacts) h
            | inr fine ↦ elim (Result-cases (owned_analysis owner x.analysis_id db)) [
              | inr (d, err_eq) ↦ rw (e, on, good, fine, err_eq, register_stage_artifacts) h
              | inl (a, ok_eq) ↦
                  rw (e, on, good, fine, ok_eq, register_stage_artifacts)
                    (registered_outputs-IsSound x now db
                      (register_artifacts (registrant owner a x now) inputs db.artifacts)
                      (register_artifacts-HasOneCurrent (registrant owner a x now) inputs
                        db.artifacts h.one_current)
                      h)
            ]
          ]
        ]
      ]
    ]

pub review-IsSound :
    (v : CalibrationVerification) (db : Db)
    → IsSound db
    → IsSound (record_calibration_verification v db).1
unfolding record_calibration_verification
review-IsSound v db h =
    with_artifacts-IsSound db (record_calibration_verification v db).1 (ground arith, ground arith)
      (
        λ i key. ground (arith, h.one_current.0 i key),
        λ i provider key. ground (arith, h.one_current.1 i provider key),
      )
      h
