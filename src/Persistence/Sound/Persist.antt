-- ===== src/Persistence/Sound/Persist.antt =====
-- The load of a job or its import, and the whole save, on the state of the tables.
use court.Base.{
  ℕ, ◌≡◌, ◌∙◌, inl, inr, true, false, some, Result, ok, err, ◌==◌, ◌&&◌, arith, Bool-cases,
  Option-cases, Result-cases, ==_refl, commit, proceed,
}
use court.Base.Table.{find, find_holds}
use court.Base.Rows.{find-any}
use court.Persistence.{Analysis, Db, PersistenceError, is_live, has_analysis_id, owned_if}
use court.Persistence.Runs.{insert_run}
use court.Persistence.Jobs.{
  JobRequest, imported_analysis, imported_run, with_import, import_analysis, load_or_import,
  version_checked, is_outdated,
}
use court.Persistence.Saving.{save_job, persist_job}
use court.Persistence.Sound.{IsSound, is_live_in}
use court.Persistence.Sound.Runs.{IsNew, insert_run-IsSound, insert_run-IsNew, insert_run-is_live}
use court.Persistence.Sound.Jobs.{IsReady, save_job-IsSound}

IsLoaded : JobRequest → Result PersistenceError Analysis × Db → Type 0
IsLoaded q (ok a, db) = IsReady q a db
IsLoaded q (err e, db) = IsSound db

with_import-IsSound : (q : JobRequest) (db : Db) → IsSound db → IsSound (with_import q db)
with_import-IsSound q db h = record {
  one_run_id = h.one_run_id;
  one_active = h.one_active;
  one_current = h.one_current;
  active_live = λ i e. ground (arith, h.active_live i);
}

import_analysis-IsLoaded :
    (q : JobRequest) (db : Db)
    → IsNew q.import_run_id db
    → IsNew q.run_id db
    → (q.import_run_id == q.run_id) ≡ false
    → IsSound db
    → IsLoaded q (import_analysis q db)
unfolding import_analysis IsLoaded
import_analysis-IsLoaded q db new new' apart h =
    let a = imported_analysis q in
    let n = imported_run q in
    let db' = with_import q db in
    let there : is_live_in db'.analyses a.id ≡ true = ground (arith, ==_refl a.id) in
    let sound = insert_run-IsSound a n db' new there (with_import-IsSound q db h) in
    elim (Bool-cases q.compatibility_import) [
      | inr off ↦ rw (off, import_analysis) h
      | inl on ↦ elim (Result-cases (insert_run a n db').0) [
        | inr (x, e) ↦ rw (on, e, import_analysis) sound
        | inl (run, e) ↦
            rw (on, e, import_analysis)
              (
                sound,
                insert_run-IsNew a n q.run_id db' apart new',
                insert_run-is_live a n db' a.id ∙ there,
              )
      ]
    ]

checked-is_live :
    (q : JobRequest) (a b : Analysis)
    → version_checked q (owned_if q.owner_user_id (some a)) ≡ ok b
    → (b.id ≡ a.id) × (is_live a.lifecycle_state ≡ true)
checked-is_live q a b e = elim (Bool-cases (is_outdated q a)) [
  | inl old ↦ absurd (ground arith)
  | inr fresh ↦ ground arith
]

load_or_import-IsLoaded :
    (q : JobRequest) (db : Db)
    → IsNew q.import_run_id db
    → IsNew q.run_id db
    → (q.import_run_id == q.run_id) ≡ false
    → IsSound db
    → IsLoaded q (load_or_import q db)
unfolding load_or_import IsLoaded
load_or_import-IsLoaded q db new new' apart h =
    elim (Option-cases (find (has_analysis_id q.payload.analysis_id) db.analyses)) [
      | inl gone ↦ rw (gone, load_or_import) (import_analysis-IsLoaded q db new new' apart h)
      | inr (a, e) ↦ elim (Result-cases (version_checked q (owned_if q.owner_user_id (some a)))) [
        | inr (x, bad) ↦ rw (e, load_or_import) (rw bad h)
        | inl (b, good) ↦
            let held = find_holds (has_analysis_id q.payload.analysis_id) db.analyses e in
            let same = checked-is_live q a b good in
            rw (e, load_or_import)
              (rw good (
                h,
                new',
                find-any (has_analysis_id q.payload.analysis_id)
                    (λ c. c.id == b.id && is_live c.lifecycle_state) db.analyses e
                    (ground (arith, same.0, same.1)),
              ))
      ]
    ]

loaded-saved :
    (q : JobRequest) (o : Result PersistenceError Analysis × Db)
    → IsLoaded q o
    → IsSound (proceed o (save_job q)).1
unfolding IsLoaded
loaded-saved q (ok a, db) h = save_job-IsSound q a db h
loaded-saved q (err e, db) h = h

pub persist_job-IsSound :
    (q : JobRequest) (db : Db)
    → IsNew q.import_run_id db
    → IsNew q.run_id db
    → (q.import_run_id == q.run_id) ≡ false
    → IsSound db
    → IsSound (persist_job q db).1
unfolding persist_job
persist_job-IsSound q db new new' apart h =
    committed (proceed (load_or_import q db) (save_job q))
      (loaded-saved q (load_or_import q db) (load_or_import-IsLoaded q db new new' apart h))
  where
    committed : (o : Result PersistenceError ℕ × Db) → IsSound o.1 → IsSound (commit o db).1
    committed (ok a, t) g = g
    committed (err e, t) g = h
