-- ===== src/Persistence/Sound/Transitions.antt =====
-- Transitions of a run, on the state of the tables.
use court.Base.{
  ℕ, ◌+◌, ◌≡◌, refl, ap, ◌∙◌, inl, inr, true, some, List, ◌∷◌, ◌==◌, ◌&&◌, ◌||◌, not, arith,
  Bool-cases, Option-cases,
}
use court.Base.Table.{find, update_where, find_holds, count-update_same}
use court.Base.Rows.{count-update_unique, any-update}
use court.Persistence.{
  State, Analysis, AnalysisRun, Db, is_live, is_active, has_analysis_id, has_run_id, is_active_run,
  same_state, same_state_eq, run_moved,
}
use court.Persistence.Runs.{run_event}
use court.Persistence.Transitions.{
  owns_run, move_run, transition_run, may_become, moved_run, moved_analysis, carry_over,
}
use court.Persistence.Sound.{IsSound, is_live_in}
use court.Persistence.Sound.Runs.{with_records-IsSound}

moved-live :
    (i j now run_id : ℕ) (a : Analysis) (new : State) (rows : List Analysis)
    → is_live_in (update_where (has_analysis_id j) (moved_analysis a new now run_id) rows) i
      ≡ is_live_in rows i
moved-live i j now run_id a new rows =
    any-update (λ c. c.id == i && is_live c.lifecycle_state) (has_analysis_id j)
      (moved_analysis a new now run_id) (λ r e. ground arith) rows

carry_over-IsSound :
    (a : Analysis) (new : State) (now run_id : ℕ) (db : Db)
    → IsSound db
    → IsSound (carry_over a new now run_id db)
carry_over-IsSound a new now run_id db h = record {
  one_run_id = λ i. ground (arith, h.one_run_id i);
  one_active = λ i. ground (arith, h.one_active i);
  one_current = (
    λ i key. ground (arith, h.one_current.0 i key),
    λ i provider key. ground (arith, h.one_current.1 i provider key),
  );
  active_live =
      λ i e. ground (arith, h.active_live i, moved-live i a.id now run_id a new db.analyses);
}

-- A run that moves was active, and moves by an allowed edge.
pub moved_runs-IsSound :
    (f : AnalysisRun → AnalysisRun) (r : AnalysisRun) (db : Db)
    → find (has_run_id r.id) db.runs ≡ some r
    → is_active r.state ≡ true
    → ((x : AnalysisRun) → ((f x).id ≡ x.id) × ((f x).analysis_id ≡ x.analysis_id))
    → IsSound db
    → IsSound (record db { runs = update_where (has_run_id r.id) f db.runs })
moved_runs-IsSound f r db e on same h = record {
  one_run_id = λ i. ground (
    arith,
    h.one_run_id i,
    count-update_same (has_run_id i) (has_run_id r.id) f (λ x. ground (arith, same x)) db.runs,
  );
  one_active = λ i. ground (
    arith,
    h.one_active i,
    same r,
    count-update_unique (is_active_run i) (has_run_id r.id) f db.runs {r = r} (h.one_run_id r.id) e,
  );
  one_current = h.one_current;
  active_live = λ i d. ground (
    arith,
    h.active_live i d,
    same r,
    count-update_unique (is_active_run i) (has_run_id r.id) f db.runs {r = r} (h.one_run_id r.id) e,
  );
}

-- The guarded UPDATE: the row has the state that was read, from which an edge leads to the new one.
move_run-IsSound :
    (previous : State) (expected : ℕ) (new : State) (now : ℕ) (r : AnalysisRun) (db : Db)
    → may_become previous new ≡ true
    → find (has_run_id r.id) db.runs ≡ some r
    → IsSound db
    → IsSound (move_run previous expected new now r db).1
unfolding move_run
move_run-IsSound previous expected new now r db edge e h =
    elim (Bool-cases (not (r.row_version == expected) || not (same_state r.state previous))) [
      | inl changed ↦ rw (changed, move_run) h
      | inr same ↦ elim (Option-cases (find (has_analysis_id r.analysis_id) db.analyses)) [
        | inl gone ↦ rw (same, gone, move_run) h
        | inr (a, there) ↦
            let was : r.state ≡ previous = same_state_eq r.state previous (ground arith) in
            let on : is_active r.state ≡ true = ground (arith, was) in
            rw (same, there, move_run)
              (with_records-IsSound
                (carry_over a new now r.id (record db {
                  runs = update_where (has_run_id r.id) (moved_run new (expected + 1) now) db.runs;
                }))
                (λ d. record d {
                  events =
                      run_event r.analysis_id r.id (expected + 1) (some previous) new
                        (run_moved new)
                      ∷ d.events;
                })
                (refl, refl, refl)
                (carry_over-IsSound a new now r.id _ (
                  moved_runs-IsSound (moved_run new (expected + 1) now) r db e on
                    (λ x. ground arith) h)))
      ]
    ]

pub transition_run-IsSound :
    (seen : Db) (owner run_id expected : ℕ) (new : State) (now : ℕ) (db : Db)
    → IsSound db
    → IsSound (transition_run seen owner run_id expected new now db).1
unfolding transition_run
transition_run-IsSound seen owner run_id expected new now db h =
    elim (Option-cases (find (owns_run seen owner run_id) seen.runs)) [
      | inl gone ↦ rw (gone, transition_run) h
      | inr (current, e) ↦ elim (Bool-cases (same_state current.state new)) [
        | inl there ↦ rw (e, there, transition_run) h
        | inr away ↦ elim (Bool-cases (may_become current.state new)) [
          | inr barred ↦ rw (e, away, barred, transition_run) h
          | inl edge ↦ elim (Option-cases (find (has_run_id run_id) db.runs)) [
            | inl none_of_it ↦ rw (e, away, edge, none_of_it, transition_run) h
            | inr (r, row) ↦
                let id_eq : r.id ≡ run_id =
                  ground (arith, find_holds (has_run_id run_id) db.runs row) in
                rw (e, away, edge, row, transition_run)
                  (move_run-IsSound current.state expected new now r db edge
                    (ap (λ i. find (has_run_id i) db.runs) id_eq ∙ row) h)
          ]
        ]
      ]
    ]
