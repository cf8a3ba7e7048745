-- ===== src/Persistence/Stages.antt =====
-- Stage executions: `start_stage_execution` and `transition_stage_execution`.
use court.Base.{
  ℕ, ◌+◌, Bool, true, false, Option, none, some, List, [], ◌∷◌, ok, err, ◌==◌, ◌&&◌, ◌||◌, not,
  if◌then◌else◌,
}
use court.Base.Text.{same_text}
use court.Base.Table.{find, any, select, update_where}
use court.Base.Rows.{largest}
use court.Persistence.{
  State, queued, processing, completed, failed, cancelled, stale, unavailable, Sport, pickleball,
  padel, AnalysisRun, StageExecution, Artifact, Db, resource_not_found, value_error,
  invalid_state_transition, optimistic_concurrency, Call, same_state, is_active, owned_analysis,
}
use court.Persistence.Prefix.{is_stage_type}
use court.Persistence.Runs.{is_processing}

abbrev pub same_sport : Sport → Sport → Bool
same_sport pickleball pickleball = true
same_sport padel padel = true
same_sport _ _ = false

pub record StageRequest : Type 0 where
  pub owner_user_id : ℕ
  pub analysis_id : ℕ
  pub analysis_run_id : ℕ
  pub stage_type : List ℕ
  pub configuration_fingerprint : ℕ
  pub provenance_stage_name : List ℕ
  pub provenance_fingerprint : ℕ
  pub provenance_sport : Sport
  pub state : State
  pub is_optional : Bool
  pub shadow_mode : Bool
  pub execution_id : ℕ
  pub now : ℕ

pub record StageResult : Type 0 where
  pub stage_execution_id : ℕ
  pub attempt_number : ℕ
  pub state : State
  pub row_version : ℕ
  pub created : Bool

-- `_stage_result`
abbrev pub stage_result : StageExecution → Bool → StageResult
stage_result x created = record {
  stage_execution_id = x.id;
  attempt_number = x.attempt_number;
  state = x.state;
  row_version = x.row_version;
  created = created;
}

abbrev pub is_stage_of : ℕ → List ℕ → StageExecution → Bool
is_stage_of analysis_id stage_type x =
    x.analysis_id == analysis_id && same_text x.stage_type stage_type

abbrev pub is_active_stage : ℕ → List ℕ → StageExecution → Bool
is_active_stage analysis_id stage_type x = is_stage_of analysis_id stage_type x && is_active x.state

abbrev pub has_stage_id : ℕ → StageExecution → Bool
has_stage_id i x = x.id == i

abbrev pub next_stage_attempt : Option StageExecution → ℕ
next_stage_attempt none = 1
next_stage_attempt (some x) = x.attempt_number + 1

abbrev pub new_stage : StageRequest → ℕ → StageExecution
new_stage q attempt = record {
  id = q.execution_id;
  owner_user_id = q.owner_user_id;
  analysis_id = q.analysis_id;
  analysis_run_id = q.analysis_run_id;
  stage_type = q.stage_type;
  attempt_number = attempt;
  state = q.state;
  row_version = 1;
  is_optional = q.is_optional;
  shadow_mode = q.shadow_mode;
  configuration_fingerprint = q.configuration_fingerprint;
  output_artifact_references = [];
  failure_category = none;
  started_at = if is_processing q.state then some q.now else none;
  completed_at = none;
  failed_at = none;
  cancelled_at = none;
  stale_at = none;
  unavailable_at = none;
  updated_at = q.now;
}

abbrev pub is_bad_request : StageRequest → Bool
is_bad_request q =
    not (is_active q.state)
    || not (is_stage_type q.stage_type)
    || not (same_text q.provenance_stage_name q.stage_type)
    || not (q.provenance_fingerprint == q.configuration_fingerprint)

-- The analysis is locked first, so nothing comes between the reads and the insert.
unfoldable pub start_stage_execution : StageRequest → Call StageResult
unfolding owned_analysis
start_stage_execution q db =
    if is_bad_request q
    then (err value_error, db)
    else elim (owned_analysis q.owner_user_id q.analysis_id db) [
      | err e ↦ (err e, db)
      | ok a ↦
          elim (find (λ (r : AnalysisRun). r.id == q.analysis_run_id && r.analysis_id == a.id)
            db.runs) [
              | none ↦ (err resource_not_found, db)
              | some run ↦
                  if not (same_sport q.provenance_sport a.sport)
                    || not (same_sport run.sport a.sport)
                  then (err value_error, db)
                  else elim (find (is_active_stage q.analysis_id q.stage_type) db.stages) [
                    | some active ↦ (ok (stage_result active false), db)
                    | none ↦
                        let latest =
                          largest (λ x. x.attempt_number)
                            (select (is_stage_of q.analysis_id q.stage_type) db.stages) in
                        let execution = new_stage q (next_stage_attempt latest) in
                        (
                          ok (stage_result execution true),
                          record db { stages = execution ∷ db.stages },
                        )
                  ]
            ]
    ]

-- the table `allowed`
abbrev pub may_turn : State → State → Bool
may_turn queued processing = true
may_turn queued cancelled = true
may_turn queued unavailable = true
may_turn processing completed = true
may_turn processing failed = true
may_turn processing cancelled = true
may_turn processing stale = true
may_turn processing unavailable = true
may_turn _ _ = false

abbrev pub is_failed : State → Bool
is_failed failed = true
is_failed _ = false

abbrev pub is_completed : State → Bool
is_completed completed = true
is_completed _ = false

abbrev pub stamp_stage : State → ℕ → StageExecution → StageExecution
stamp_stage processing now x = record x { started_at = some now }
stamp_stage completed now x = record x { completed_at = some now }
stamp_stage failed now x = record x { failed_at = some now }
stamp_stage cancelled now x = record x { cancelled_at = some now }
stamp_stage stale now x = record x { stale_at = some now }
stamp_stage unavailable now x = record x { unavailable_at = some now }
stamp_stage _ now x = x

-- `category` is the text that is left of the failure category, stripped and cut
abbrev pub moved_stage : State → ℕ → ℕ → List ℕ → StageExecution → StageExecution
moved_stage new version now category x = stamp_stage new now (record x {
  state = new;
  row_version = version;
  updated_at = now;
  failure_category = if is_failed new then some category else x.failure_category;
})

abbrev pub is_in : Option ℕ → (ℕ → Bool) → Bool
is_in none p = false
is_in (some i) p = p i

-- an artifact that an earlier attempt of the same stage registered
abbrev pub is_historical : StageExecution → List StageExecution → Artifact → Bool
is_historical x xs a =
    is_in a.stage_execution_id (λ i.
      any (λ y. y.id == i && is_stage_of x.analysis_id x.stage_type y && not (y.id == x.id)) xs)
    && a.is_current

abbrev pub retire_history : State → ℕ → StageExecution → Db → Db
retire_history new now x db =
    if is_completed new
    then record db {
      artifacts =
          update_where (is_historical x db.stages)
            (λ a. record a { is_current = false; updated_at = now }) db.artifacts;
    }
    else db

unfoldable pub move_stage : State → ℕ → State → List ℕ → ℕ → StageExecution → Call StageResult
move_stage previous expected new category now x db =
    if not (x.row_version == expected) || not (same_state x.state previous)
    then (err optimistic_concurrency, db)
    else let moved = moved_stage new (expected + 1) now category x in
      (
        ok (stage_result moved false),
        retire_history new now x (record db {
          stages =
              update_where (has_stage_id x.id) (moved_stage new (expected + 1) now category)
                db.stages;
        }),
      )

abbrev pub owns_stage : Db → ℕ → ℕ → StageExecution → Bool
owns_stage seen owner i x =
    x.id == i && any (λ a. a.id == x.analysis_id && a.owner_user_id == owner) seen.analyses

abbrev pub is_empty : List ℕ → Bool
is_empty [] = true
is_empty (c ∷ cs) = false

unfoldable pub transition_stage_execution : Db → ℕ → ℕ → ℕ → State → List ℕ → ℕ → Call StageResult
transition_stage_execution seen owner i expected new category now db =
    if is_failed new && is_empty category
    then (err value_error, db)
    else elim (find (owns_stage seen owner i) seen.stages) [
      | none ↦ (err resource_not_found, db)
      | some current ↦
          if same_state current.state new
          then (ok (stage_result current false), db)
          else if not (may_turn current.state new)
          then (err invalid_state_transition, db)
          else elim (find (has_stage_id i) db.stages) [
            | none ↦ (err optimistic_concurrency, db)
            | some x ↦ move_stage current.state expected new category now x db
          ]
    ]
