-- ===== src/Persistence/Sound.antt =====
-- The state of the tables behind an analysis between two transactions.
pub mod Runs
pub mod Transitions
pub mod Artifacts
pub mod Jobs
pub mod Persist
pub mod Reserve
use court.Base.{
  ℕ, ◌+◌, ◌≤◌, ◌≡◌, refl, Bool, true, false, List, [], ◌∷◌, ◌==◌, ◌&&◌, ◌||◌, not, arith,
}
use court.Base.Table.{any, count}
use court.Persistence.{
  Analysis, AnalysisRun, Artifact, Db, is_live, is_active, has_run_id, is_active_run,
}
use court.Persistence.Registry.{is_current_at, is_stored_at}

-- the analysis is there, and its deletion was not requested
abbrev pub is_live_in : List Analysis → ℕ → Bool
is_live_in rows i = any (λ a. a.id == i && is_live a.lifecycle_state) rows

-- The two unique indexes on current artifacts: by logical key, and by the object that is stored.
abbrev pub HasOneCurrent : List Artifact → Type 0
HasOneCurrent rows =
    ((i : ℕ) (key : List ℕ) → count (is_current_at i key) rows ≤ 1)
    × ((i provider : ℕ) (key : List ℕ) → count (is_stored_at i provider key) rows ≤ 1)

pub record IsSound (db : Db) : Type 0 where
  pub one_run_id : (i : ℕ) → count (has_run_id i) db.runs ≤ 1
  pub one_active : (i : ℕ) → count (is_active_run i) db.runs ≤ 1
  pub one_current : HasOneCurrent db.artifacts
  pub active_live : (i : ℕ) → is_live_in db.analyses i ≡ false → count (is_active_run i) db.runs ≡ 0
