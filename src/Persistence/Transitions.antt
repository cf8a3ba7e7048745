-- ===== src/Persistence/Transitions.antt =====
-- The transitions of a run: `transition_run`, its guarded update and what the analysis takes over.
use court.Base.{
  ℕ, ◌+◌, Bool, true, false, Option, none, some, ◌∷◌, Result, ok, err, ◌==◌, ◌&&◌, ◌||◌, not, leb,
  if◌then◌else◌,
}
use court.Base.Table.{find, any, update_where}
use court.Persistence.{
  State, queued, processing, completed, failed, cancelled, stale, Analysis, AnalysisRun, run_moved,
  Db, PersistenceError, resource_not_found, optimistic_concurrency, invalid_state_transition, Call,
  same_state, has_analysis_id, has_run_id,
}
use court.Persistence.Runs.{add_event, is_processing, run_event, update_analysis}

-- the table `allowed`
abbrev pub may_become : State → State → Bool
may_become queued processing = true
may_become queued cancelled = true
may_become processing completed = true
may_become processing failed = true
may_become processing cancelled = true
may_become processing stale = true
may_become _ _ = false

abbrev pub stamped : State → ℕ → AnalysisRun → AnalysisRun
stamped processing now r = record r { started_at = some now }
stamped completed now r = record r { completed_at = some now }
stamped failed now r = record r { failed_at = some now }
stamped cancelled now r = record r { cancelled_at = some now }
stamped stale now r = record r { stale_at = some now }
stamped _ now r = r

abbrev pub moved_run : State → ℕ → ℕ → AnalysisRun → AnalysisRun
moved_run new version now r =
    stamped new now (record r { state = new; row_version = version; updated_at = now })

-- the states of a run that its analysis takes over
abbrev pub carries_over : State → Bool
carries_over processing = true
carries_over completed = true
carries_over failed = true
carries_over cancelled = true
carries_over _ = false

abbrev pub stamp_analysis : State → ℕ → ℕ → Analysis → Analysis
stamp_analysis completed now run_id a = record a {
  completed_at = some now;
  promoted_run_id = some run_id;
}
stamp_analysis failed now run_id a = record a { failed_at = some now }
stamp_analysis cancelled now run_id a = record a { cancelled_at = some now }
stamp_analysis _ now run_id a = a

abbrev pub moved_analysis : Analysis → State → ℕ → ℕ → Analysis → Analysis
moved_analysis a new now run_id b =
    stamp_analysis new now run_id
      (record b { state = new; row_version = a.row_version + 1; updated_at = now })

abbrev pub carry_over : Analysis → State → ℕ → ℕ → Db → Db
carry_over a new now run_id db =
    if carries_over new
    then add_event (moved_analysis a new now run_id a) (some a.state) new (run_moved new)
        (update_analysis a.id (moved_analysis a new now run_id) db)
    else db

pub record TransitionResult : Type 0 where
  pub run_id : ℕ
  pub state : State
  pub row_version : ℕ

-- the guarded UPDATE and what follows it; `r` is the row that has the identifier now
unfoldable pub move_run : State → ℕ → State → ℕ → AnalysisRun → Call TransitionResult
move_run previous expected new now r db =
    if not (r.row_version == expected) || not (same_state r.state previous)
    then (err optimistic_concurrency, db)
    else elim (find (has_analysis_id r.analysis_id) db.analyses) [
      | none ↦ (err resource_not_found, db)
      | some a ↦
          let db' = carry_over a new now r.id (record db {
            runs = update_where (has_run_id r.id) (moved_run new (expected + 1) now) db.runs;
          }) in
          (
            ok (record { run_id = r.id; state = new; row_version = expected + 1 }),
            record db' {
              events =
                  run_event r.analysis_id r.id (expected + 1) (some previous) new (run_moved new)
                  ∷ db'.events;
            },
          )
    ]

abbrev pub owns_run : Db → ℕ → ℕ → AnalysisRun → Bool
owns_run seen owner run_id r =
    r.id == run_id && any (λ a. a.id == r.analysis_id && a.owner_user_id == owner) seen.analyses

unfoldable pub transition_run : Db → ℕ → ℕ → ℕ → State → ℕ → Call TransitionResult
transition_run seen owner run_id expected new now db =
    elim (find (owns_run seen owner run_id) seen.runs) [
      | none ↦ (err resource_not_found, db)
      | some current ↦
          if same_state current.state new
          then (
            ok (record {
              run_id = current.id;
              state = current.state;
              row_version = current.row_version;
            }),
            db,
          )
          else if not (may_become current.state new)
          then (err invalid_state_transition, db)
          else elim (find (has_run_id run_id) db.runs) [
            | none ↦ (err optimistic_concurrency, db)
            | some r ↦ move_run current.state expected new now r db
          ]
    ]

-- `run_is_stale`
abbrev pub is_past : Option ℕ → ℕ → Bool
is_past none now = false
is_past (some expiry) now = leb expiry now

unfoldable pub run_is_stale : ℕ → ℕ → Db → Result PersistenceError Bool
run_is_stale run_id now db = elim (find (has_run_id run_id) db.runs) [
  | none ↦ err resource_not_found
  | some r ↦ ok (is_processing r.state && is_past r.lease_expires_at now)
]
