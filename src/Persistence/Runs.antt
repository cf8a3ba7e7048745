-- ===== src/Persistence/Runs.antt =====
-- The runs of an analysis: `_insert_run` and `start_run`, with their events. A
-- call reads `seen` first; its writes meet the store that is there under the row locks, where the
-- unique indexes are tested.
use court.Base.{
  ℕ, ◌+◌, Bool, true, false, Option, none, some, ◌∷◌, Result, ok, err, ◌==◌, ◌&&◌, not,
  if◌then◌else◌,
}
use court.Base.Table.{find, any, select, update_where}
use court.Base.Rows.{largest}
use court.Persistence.{
  State, processing, Analysis, AnalysisRun, Scope, run_start, analysis_upload, UploadedVideo,
  no_resource, run_resource, analysis_resource, exact_duplicate, IdempotencyRecord, EventType,
  run_started, StateEvent, Db, PersistenceError, idempotency_conflict, operation_in_progress,
  value_error, integrity_error, Call, is_active, has_analysis_id, has_video_id, is_active_run,
  owned_analysis,
}

abbrev pub add_event : Analysis → Option State → State → EventType → Db → Db
add_event a previous new type db = record db {
  events =
      record {
        analysis_id = a.id;
        analysis_run_id = none;
        previous_state = previous;
        new_state = new;
        event_type = type;
        subject_row_version = a.row_version;
      }
      ∷ db.events;
}

abbrev pub run_event : ℕ → ℕ → ℕ → Option State → State → EventType → StateEvent
run_event analysis_id run_id version previous new type = record {
  analysis_id = analysis_id;
  analysis_run_id = some run_id;
  previous_state = previous;
  new_state = new;
  event_type = type;
  subject_row_version = version;
}

abbrev pub add_run_event : AnalysisRun → Option State → State → EventType → Db → Db
add_run_event r previous new type db = record db {
  events = run_event r.analysis_id r.id r.row_version previous new type ∷ db.events;
}

abbrev pub is_run_of : ℕ → AnalysisRun → Bool
is_run_of analysis_id r = r.analysis_id == analysis_id

abbrev pub latest_run : ℕ → Db → Option AnalysisRun
latest_run analysis_id db = largest (λ r. r.attempt_number) (select (is_run_of analysis_id) db.runs)

abbrev pub next_attempt : Option AnalysisRun → ℕ
next_attempt none = 1
next_attempt (some r) = r.attempt_number + 1

abbrev pub id_of : Option AnalysisRun → Option ℕ
id_of none = none
id_of (some r) = some r.id

abbrev pub is_processing : State → Bool
is_processing processing = true
is_processing _ = false

-- what a new run is given
pub record NewRun : Type 0 where
  pub run_id : ℕ
  pub source_checksum : Option ℕ
  pub state : State
  pub lease_expires_at : Option ℕ
  pub now : ℕ

abbrev pub new_run : Analysis → NewRun → Option AnalysisRun → AnalysisRun
new_run a n latest = record {
  id = n.run_id;
  analysis_id = a.id;
  attempt_number = next_attempt latest;
  state = n.state;
  previous_run_id = id_of latest;
  row_version = 1;
  source_video_checksum = n.source_checksum;
  sport = a.sport;
  lease_expires_at = n.lease_expires_at;
  started_at = if is_processing n.state then some n.now else none;
  completed_at = none;
  failed_at = none;
  cancelled_at = none;
  stale_at = none;
  error_detail = none;
  updated_at = n.now;
}

-- `_insert_run`, whose flush fails at the index if the analysis has an active run, and the event
-- `run_started` that each caller adds
unfoldable pub insert_run : Analysis → NewRun → Call AnalysisRun
insert_run a n db =
    let run = new_run a n (latest_run a.id db) in
    if is_active n.state && any (is_active_run a.id) db.runs
    then (err integrity_error, db)
    else (ok run, add_run_event run none n.state run_started (record db { runs = run ∷ db.runs }))

abbrev pub checksum_if : Option UploadedVideo → Option ℕ
checksum_if none = none
checksum_if (some v) = v.source_checksum

-- `_source_checksum`
abbrev pub source_checksum : Analysis → Db → Option ℕ
source_checksum a db = checksum_if (find (has_video_id a.uploaded_video_id) db.videos)

abbrev pub same_scope : Scope → Scope → Bool
same_scope run_start run_start = true
same_scope analysis_upload analysis_upload = true
same_scope _ _ = false

abbrev pub has_key : ℕ → Scope → ℕ → IdempotencyRecord → Bool
has_key owner scope key_hash r =
    r.owner_user_id == owner && same_scope r.scope scope && r.key_hash == key_hash

-- the run that was asked for, and whether it was created by this call
abbrev pub RunResult : Type 0
RunResult = ℕ × Bool

-- `_resolve_run_record`
unfoldable pub resolve_run_record : ℕ → IdempotencyRecord → Result PersistenceError RunResult
resolve_run_record fingerprint r =
    if not (r.request_fingerprint == fingerprint)
    then err idempotency_conflict
    else elim r.resource [
      | no_resource ↦ err operation_in_progress
      | run_resource i ↦ ok (i, false)
      | analysis_resource i ↦ ok (i, false)
      | exact_duplicate i ↦ ok (i, false)
    ]

pub record RunRequest : Type 0 where
  pub owner_user_id : ℕ
  pub analysis_id : ℕ
  pub key_hash : ℕ
  pub fingerprint : ℕ
  pub run_id : ℕ
  pub state : State
  pub lease_expires_at : Option ℕ
  pub now : ℕ

abbrev pub run_record : RunRequest → ℕ → IdempotencyRecord
run_record q run_id = record {
  owner_user_id = q.owner_user_id;
  scope = run_start;
  key_hash = q.key_hash;
  request_fingerprint = q.fingerprint;
  resource = run_resource run_id;
  has_payload = false;
}

abbrev pub update_analysis : ℕ → (Analysis → Analysis) → Db → Db
update_analysis i f db = record db { analyses = update_where (has_analysis_id i) f db.analyses }

abbrev pub restarted : Analysis → ℕ → Analysis → Analysis
restarted a now b = record b {
  state = processing;
  row_version = a.row_version + 1;
  updated_at = now;
}

-- a run that starts in processing takes its analysis along
abbrev pub follow_run : Analysis → RunRequest → Db → Db
follow_run a q db =
    if is_processing q.state && not (is_processing a.state)
    then add_event (restarted a q.now a) (some a.state) processing run_started
        (update_analysis a.id (restarted a q.now) db)
    else db

abbrev pub asked_run : RunRequest → Analysis → Db → NewRun
asked_run q a db = record {
  run_id = q.run_id;
  source_checksum = source_checksum a db;
  state = q.state;
  lease_expires_at = q.lease_expires_at;
  now = q.now;
}

-- the writes of `start_run` under the lock of the analysis, the record of the key included
unfoldable pub start_locked : RunRequest → Call RunResult
start_locked q db = elim (owned_analysis q.owner_user_id q.analysis_id db) [
  | err e ↦ (err e, db)
  | ok a ↦
      if any (has_key q.owner_user_id run_start q.key_hash) db.records
      then (err integrity_error, db)
      else let (inserted, db') = insert_run a (asked_run q a db) db in
        elim inserted [
          | err e ↦ (err e, db)
          | ok run ↦ (
            ok (run.id, true),
            follow_run a q (record db' { records = run_record q run.id ∷ db'.records }),
          )
        ]
]

abbrev pub if_run_owned :
    Result PersistenceError Analysis
    → Result PersistenceError RunResult
    → Result PersistenceError RunResult
if_run_owned (err e) r = err e
if_run_owned (ok a) r = r

-- behind an `IntegrityError`: the key that another call used meanwhile, or the active run
unfoldable pub start_again : RunRequest → Call RunResult
start_again q db = elim (find (has_key q.owner_user_id run_start q.key_hash) db.records) [
  | some r ↦ (resolve_run_record q.fingerprint r, db)
  | none ↦ elim (owned_analysis q.owner_user_id q.analysis_id db) [
    | err e ↦ (err e, db)
    | ok a ↦ elim (find (is_active_run q.analysis_id) db.runs) [
      | none ↦ (err integrity_error, db)
      | some active ↦
          (ok (active.id, false), record db { records = run_record q active.id ∷ db.records })
    ]
  ]
]

abbrev pub retry :
    RunRequest → Result PersistenceError RunResult × Db → Result PersistenceError RunResult × Db
retry q (ok r, db) = (ok r, db)
retry q (err integrity_error, db) = start_again q db
retry q (err e, db) = (err e, db)

unfoldable pub start_run : Db → RunRequest → Call RunResult
start_run seen q db =
    if not (is_active q.state)
    then (err value_error, db)
    else elim (find (has_key q.owner_user_id run_start q.key_hash) seen.records) [
      | some r ↦ (
        if_run_owned (owned_analysis q.owner_user_id q.analysis_id seen)
            (resolve_run_record q.fingerprint r),
        db,
      )
      | none ↦ elim (owned_analysis q.owner_user_id q.analysis_id seen) [
        | err e ↦ (err e, db)
        | ok a ↦ retry q (start_locked q db)
      ]
    ]
