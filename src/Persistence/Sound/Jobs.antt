-- ===== src/Persistence/Sound/Jobs.antt =====
-- Saving a job that was loaded.
use court.Base.{
  ℕ, ◌+◌, ◌≡◌, refl, ap, sym, ◌∙◌, inl, inr, true, Option, none, some, List, Result, ok, err, ◌==◌,
  ◌&&◌, not, arith, Bool-cases, Option-cases, ==_refl, pure, ◌>>=◌,
}
use court.Base.Table.{find, select, update_where}
use court.Base.Rows.{find-largest, largest, any-update}
use court.Base.Keeps.{Keeps, Keeps-bind, Leads, bind-cases}
use mathlib.Core.Path.{subst}
use court.Persistence.{
  Analysis, AnalysisRun, Artifact, Db, PersistenceError, is_live, is_active, has_analysis_id,
  has_run_id, has_video_id, is_active_run, run_moved,
}
use court.Persistence.Runs.{NewRun, latest_run, is_run_of, is_processing, add_run_event, insert_run}
use court.Persistence.Jobs.{JobRequest}
use court.Persistence.Saving.{
  ends, corrects_court, outdates_reports, hide_tracking, hide_reports, kept_inputs,
  active_or_latest_run, restarted_run, ensure_run, has_active, started, saved_analysis,
  save_analysis, file_video, finished_run, finish_run, promote, with_valid_artifacts, is_removed,
  end_save, file_artifacts, job_registrant, file_selection, save_job,
}
use court.Persistence.Stages.{same_sport}
use court.Persistence.Sound.{HasOneCurrent, IsSound, is_live_in}
use court.Persistence.Sound.Runs.{IsNew, insert_run-IsSound, with_records-IsSound}
use court.Persistence.Sound.Transitions.{moved_runs-IsSound}
use court.Persistence.Sound.Artifacts.{
  hide-HasOneCurrent, register_artifacts-HasOneCurrent, with_artifacts-IsSound,
}

-- before the save inserts a run
abbrev pub IsReady : JobRequest → Analysis → Db → Type 0
IsReady q a db = IsSound db × IsNew q.run_id db × (is_live_in db.analyses a.id ≡ true)

hide_tracking-HasOneCurrent :
    (q : JobRequest) (a : Analysis) (rows : List Artifact)
    → HasOneCurrent rows
    → HasOneCurrent (hide_tracking q a rows)
hide_tracking-HasOneCurrent q a rows h = elim (Bool-cases (corrects_court q a)) [
  | inl hit ↦ rw hit (hide-HasOneCurrent _ q.now rows h)
  | inr miss ↦ rw miss h
]

hide_reports-HasOneCurrent :
    (q : JobRequest) (a : Analysis) (rows : List Artifact)
    → HasOneCurrent rows
    → HasOneCurrent (hide_reports q a rows)
hide_reports-HasOneCurrent q a rows h = elim (Bool-cases (outdates_reports q a)) [
  | inl hit ↦ rw hit (hide-HasOneCurrent _ q.now rows h)
  | inr miss ↦ rw miss h
]

hide-IsReady :
    (q : JobRequest) (a : Analysis) (db : Db)
    → IsReady q a db
    → IsReady q a (record db { artifacts = hide_reports q a (hide_tracking q a db.artifacts) })
hide-IsReady q a db h = (
  with_artifacts-IsSound db
      (record db { artifacts = hide_reports q a (hide_tracking q a db.artifacts) }) (refl, refl)
      hidden h.0,
  h.1,
  h.2,
)
  where
    hidden : HasOneCurrent (hide_reports q a (hide_tracking q a db.artifacts))
    hidden =
        hide_reports-HasOneCurrent q a _
          (hide_tracking-HasOneCurrent q a db.artifacts h.0.one_current)

abbrev HasRun : Option AnalysisRun → Db → Type 0
HasRun none db = Unit
HasRun (some r) db = find (has_run_id r.id) db.runs ≡ some r

latest-HasRun : (i : ℕ) (db : Db) → IsSound db → HasRun (latest_run i db) db
latest-HasRun i db h = elim (Option-cases (latest_run i db)) [
  | inl gone ↦ rw gone tt
  | inr (r, e) ↦ rw e (
      find-largest (λ x. x.attempt_number) (is_run_of i) (has_run_id r.id) db.runs (==_refl r.id)
        (h.one_run_id r.id) e)
]

active_or_latest-HasRun : (i : ℕ) (db : Db) → IsSound db → HasRun (active_or_latest_run i db) db
active_or_latest-HasRun i db h =
    elim (Option-cases (largest (λ r. r.attempt_number) (select (is_active_run i) db.runs))) [
      | inl gone ↦ rw (gone, HasRun) (latest-HasRun i db h)
      | inr (r, e) ↦
          rw (e, HasRun)
            (find-largest (λ x. x.attempt_number) (is_active_run i) (has_run_id r.id) db.runs
              (==_refl r.id) (h.one_run_id r.id) e)
    ]

ensure_run-IsSound : (q : JobRequest) (a : Analysis) → Leads (IsReady q a) IsSound (ensure_run q a)
unfolding ensure_run
ensure_run-IsSound q a db h =
    elim (Bool-cases
      (is_processing q.payload.status && not (has_active (active_or_latest_run a.id db)))) [
        | inr miss ↦ rw (miss, ensure_run) h.0
        | inl hit ↦
            rw (hit, ensure_run)
              (started-IsSound (insert_run a (restarted_run q a db) db)
                (insert_run-IsSound a (restarted_run q a db) db h.1 h.2 h.0))
      ]
  where
    started-IsSound :
        (o : Result PersistenceError AnalysisRun × Db) → IsSound o.1 → IsSound (started o).1
    started-IsSound (ok r, t) g = g
    started-IsSound (err x, t) g = g

insert_run-HasRun :
    (a : Analysis) (n : NewRun) (db : Db) (o : Result PersistenceError AnalysisRun × Db)
    (run : Option AnalysisRun)
    → insert_run a n db ≡ o
    → (started o).0 ≡ ok run
    → HasRun run (started o).1
unfolding insert_run
insert_run-HasRun a n db (ok r, t) none e d = absurd (ground arith)
insert_run-HasRun a n db (ok r, t) (some r') e d = ground (arith, ==_refl n.run_id)
insert_run-HasRun a n db (err x, t) run e d = absurd (ground arith)

ensure_run-HasRun :
    (q : JobRequest) (a : Analysis) (db : Db) (run : Option AnalysisRun)
    → IsSound db
    → (ensure_run q a db).0 ≡ ok run
    → HasRun run (ensure_run q a db).1
unfolding ensure_run
ensure_run-HasRun q a db run h e =
    elim (Bool-cases
      (is_processing q.payload.status && not (has_active (active_or_latest_run a.id db)))) [
        | inl hit ↦
            let same : ensure_run q a db ≡ started (insert_run a (restarted_run q a db) db) =
              rw (hit, ensure_run) refl in
            subst (λ o. HasRun run o.1) (sym same)
              (insert_run-HasRun a (restarted_run q a db) db _ run refl
                (ap (λ o. o.0) (sym same) ∙ e))
        | inr miss ↦
            let same : ensure_run q a db ≡ (ok (active_or_latest_run a.id db), db) =
              rw (miss, ensure_run) refl in
            let found : active_or_latest_run a.id db ≡ run =
              ground (arith, ap (λ o. o.0) (sym same) ∙ e) in
            subst (λ o. HasRun run o.1) (sym same)
              (subst (λ o. HasRun o db) found (active_or_latest-HasRun a.id db h))
      ]

save_analysis-IsSound :
    (q : JobRequest) (a : Analysis) (db : Db) → IsSound db → IsSound (save_analysis q a db)
unfolding save_analysis
save_analysis-IsSound q a db h = record {
  one_run_id = λ i. ground (arith, h.one_run_id i);
  one_active = λ i. ground (arith, h.one_active i);
  one_current = (
    λ i key. ground (arith, h.one_current.0 i key),
    λ i provider key. ground (arith, h.one_current.1 i provider key),
  );
  active_live = λ i e. ground (arith, h.active_live i, saved_live i);
}
  where
    saved_live :
        (i : ℕ)
        → is_live_in (update_where (has_analysis_id a.id) (saved_analysis q a) db.analyses) i
          ≡ is_live_in db.analyses i
    saved_live i =
        any-update (λ c. c.id == i && is_live c.lifecycle_state) (has_analysis_id a.id)
          (saved_analysis q a) (λ r e. refl) db.analyses

file_video-IsSound :
    (q : JobRequest) (a : Analysis) (db : Db) → IsSound db → IsSound (file_video q a db)
unfolding file_video
file_video-IsSound q a db h =
    with_records-IsSound db (file_video q a) (ground arith, ground arith, ground arith) h

promoted-IsSound :
    (q : JobRequest) (a : Analysis) (run : AnalysisRun) (db : Db)
    → IsSound db
    → IsSound (
        add_run_event
          (finished_run q run run)
          (some run.state)
          q.payload.status
          (run_moved q.payload.status)
          (record db {
            analyses = update_where (has_analysis_id a.id) (promote q run) db.analyses;
          }))
promoted-IsSound q a run db h = record {
  one_run_id = h.one_run_id;
  one_active = h.one_active;
  one_current = h.one_current;
  active_live = λ i e. ground (arith, h.active_live i, promoted_live i);
}
  where
    promoted_live :
        (i : ℕ)
        → is_live_in (update_where (has_analysis_id a.id) (promote q run) db.analyses) i
          ≡ is_live_in db.analyses i
    promoted_live i =
        any-update (λ c. c.id == i && is_live c.lifecycle_state) (has_analysis_id a.id)
          (promote q run) (λ r e. ground arith) db.analyses

finish_run-IsSound :
    (q : JobRequest) (a : Analysis) (run : Option AnalysisRun) (db : Db)
    → HasRun run db
    → IsSound db
    → IsSound (finish_run q a run db)
unfolding finish_run
finish_run-IsSound q a none db f h = h
finish_run-IsSound q a (some run) db f h =
    elim (Bool-cases (ends q.payload.status && is_active run.state)) [
      | inr miss ↦ rw (miss, finish_run) h
      | inl hit ↦
          rw (hit, finish_run)
            (promoted-IsSound q a run _ (
              moved_runs-IsSound (finished_run q run) run db f (ground arith) (λ x. ground arith)
                h))
    ]

file_artifacts-IsSound :
    (q : JobRequest) (a : Analysis) (run : Option AnalysisRun) (db : Db)
    → IsSound db
    → IsSound (file_artifacts q a run db).1
unfolding file_artifacts
file_artifacts-IsSound q a run db h =
    with_artifacts-IsSound db (file_artifacts q a run db).1 (refl, refl)
      (register_artifacts-HasOneCurrent (job_registrant q a run) (kept_inputs q a) db.artifacts
        h.one_current)
      h

runs_kept :
    (q : JobRequest) (a : Analysis) (db : Db)
    → (file_video q a (save_analysis q a db)).runs ≡ db.runs
unfolding file_video save_analysis
runs_kept q a db = ground arith

kept-HasRun :
    (q : JobRequest) (a : Analysis) (run : Option AnalysisRun) (db : Db)
    → HasRun run db
    → HasRun run (file_video q a (save_analysis q a db))
kept-HasRun q a none db h = tt
kept-HasRun q a (some r) db h = rw (runs_kept q a db) h

file_selection-IsSound :
    (q : JobRequest) (a : Analysis) (run : Option AnalysisRun)
    → Keeps IsSound (file_selection q a run)
file_selection-IsSound q a run db h =
    with_records-IsSound db (λ d. (file_selection q a run d).1)
      (ground arith, ground arith, ground arith) h

end_save-IsSound :
    (q : JobRequest) (a : Analysis) (run : Option AnalysisRun) (db : Db)
    → HasRun run db
    → IsSound db
    → IsSound (end_save q a run db).1
unfolding end_save
end_save-IsSound q a run db f h =
    Keeps-bind IsSound (file_artifacts q a run)
      (λ _. file_selection q a run >>= (λ _. pure (a.row_version + 1)))
      (file_artifacts-IsSound q a run)
      (λ _.
        Keeps-bind IsSound (file_selection q a run) (λ _. pure (a.row_version + 1))
          (file_selection-IsSound q a run) (λ _ s g. g))
      (finish_run q a run (file_video q a (save_analysis q a db)))
      (finish_run-IsSound q a run _ (kept-HasRun q a run db f)
        (file_video-IsSound q a _ (save_analysis-IsSound q a db h)))

pub save_job-IsSound : (q : JobRequest) (a : Analysis) → Leads (IsReady q a) IsSound (save_job q a)
unfolding save_job
save_job-IsSound q a db h =
    elim (Bool-cases (is_removed (find (has_video_id a.uploaded_video_id) db.videos))) [
      | inl gone ↦ rw (gone, save_job) h.0
      | inr kept ↦ elim (Bool-cases (same_sport a.sport q.payload.sport)) [
        | inr other ↦ rw (kept, other, save_job) h.0
        | inl same ↦
            let ready = hide-IsReady q a db h in
            let s = with_valid_artifacts q a db in
            rw (kept, same, save_job)
              (bind-cases IsSound (ensure_run q a) (end_save q a) s
                (λ x e. ensure_run-IsSound q a s ready)
                (λ run e.
                  end_save-IsSound q a run (ensure_run q a s).1
                    (ensure_run-HasRun q a s run ready.0 e) (ensure_run-IsSound q a s ready)))
      ]
    ]

-- an import makes the analysis live, and leaves the other identifier unused
