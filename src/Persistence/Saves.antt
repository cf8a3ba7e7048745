-- ===== src/Persistence/Saves.antt =====
-- Saves of a job over an older version.
use court.Base.{
  ℕ, ◌+◌, ◌≡◌, refl, ap, sym, ◌∙◌, inl, inr, Bool, true, false, Option, none, some, List, [], ◌∷◌,
  Result, ok, err, ◌==◌, ◌&&◌, not, arith, Bool-cases, Option-cases, Result-cases, proceed, commit,
  pure, ==_refl, ◌>>=◌,
}
use mathlib.Core.Path.{subst}
use court.Base.Table.{find, update_where, find_holds}
use court.Persistence.{
  Analysis, AnalysisRun, Artifact, Db, PersistenceError, optimistic_concurrency, is_live, is_active,
  same_state, has_analysis_id, has_video_id, owned_if,
}
use court.Persistence.Registry.{persist_player_selection}
use court.Persistence.Runs.{NewRun, insert_run, is_processing}
use court.Persistence.Stages.{same_sport}
use court.Persistence.Jobs.{
  JobRequest, load_or_import, import_analysis, imported_analysis, imported_run, with_import,
  version_checked, is_outdated,
}
use court.Persistence.Saving.{
  save_job, persist_job, save_analysis, file_video, finish_run, file_artifacts, file_selection,
  end_save, is_removed, with_valid_artifacts, has_active, active_or_latest_run, restarted_run,
  started, ensure_run, saved_analysis, promote, ends,
}

-- a live analysis of the owner at a version
abbrev pub stands : ℕ → ℕ → ℕ → List Analysis → Bool
stands owner i version rows = elim (find (has_analysis_id i) rows) [
  | none ↦ false
  | some a ↦ a.row_version == version && a.owner_user_id == owner && is_live a.lifecycle_state
]

stands-update :
    (owner i version : ℕ) (p : Analysis → Bool) (f : Analysis → Analysis)
    → ((a : Analysis)
        → ((f a).id ≡ a.id)
          × ((f a).row_version ≡ a.row_version)
          × ((f a).owner_user_id ≡ a.owner_user_id)
          × ((f a).lifecycle_state ≡ a.lifecycle_state))
    → (rows : List Analysis)
    → stands owner i version (update_where p f rows) ≡ stands owner i version rows
stands-update owner i version p f same [] = refl
stands-update owner i version p f same (a ∷ rows) =
    ground (arith, same a, stands-update owner i version p f same rows)

refused_save :
    (q : JobRequest) (n version : ℕ) (db : Db)
    → q.expected_row_version ≡ some n
    → (version == n) ≡ false
    → stands q.owner_user_id q.payload.analysis_id version db.analyses ≡ true
    → persist_job q db ≡ (err optimistic_concurrency, db)
unfolding persist_job load_or_import
refused_save q n version db expected apart h =
    elim (Option-cases (find (has_analysis_id q.payload.analysis_id) db.analyses)) [
      | inl gone ↦ absurd (ground (arith, gone))
      | inr (a, there) ↦
          let old : is_outdated q a ≡ true = rw expected (ground (arith, there, apart)) in
          let bad : version_checked q (owned_if q.owner_user_id (some a))
              ≡ err optimistic_concurrency =
            ground (arith, there, old) in
          let loaded : load_or_import q db ≡ (err optimistic_concurrency, db) =
            rw (there, load_or_import) (rw bad refl) in
          ap (λ o. commit (proceed o (save_job q)) db) loaded
    ]

save_analysis-stands :
    (q : JobRequest) (a : Analysis) (owner i : ℕ) (db : Db)
    → a.id ≡ i
    → stands owner i a.row_version db.analyses ≡ true
    → stands owner i (a.row_version + 1) (save_analysis q a db).analyses ≡ true
unfolding save_analysis
save_analysis-stands q a owner i db same h =
    elim (Bool-cases (same_state a.state q.payload.status)) [
      | inl unmoved ↦ rw unmoved (raised db.analyses h)
      | inr moved ↦ rw moved (raised db.analyses h)
    ]
  where
    raised :
        (rows : List Analysis)
        → stands owner i a.row_version rows ≡ true
        → stands owner i
            (a.row_version + 1)
            (update_where (has_analysis_id a.id) (saved_analysis q a) rows)
          ≡ true
    raised [] e = absurd (ground arith)
    raised (b ∷ rows) e = ground (arith, same, raised rows)

finish_run-stands :
    (q : JobRequest) (a : Analysis) (run : Option AnalysisRun) (owner i version : ℕ) (db : Db)
    → stands owner i version (finish_run q a run db).analyses ≡ stands owner i version db.analyses
unfolding finish_run
finish_run-stands q a none owner i version db = refl
finish_run-stands q a (some run) owner i version db =
    elim (Bool-cases (ends q.payload.status && is_active run.state)) [
      | inl over ↦ rw over (
          stands-update owner i version (has_analysis_id a.id) (promote q run) (λ b. ground arith)
            db.analyses)
      | inr on ↦ rw on refl
    ]

pub file_video-analyses :
    (q : JobRequest) (a : Analysis) (db : Db) → (file_video q a db).analyses ≡ db.analyses
unfolding file_video
file_video-analyses q a db = elim (Option-cases q.payload.source_video) [
  | inl gone ↦ ground (arith, gone)
  | inr (key, there) ↦ ground (arith, there)
]

filed :
    JobRequest → Analysis → Option AnalysisRun → Db → Result PersistenceError (List Artifact) × Db
filed q a run db =
    file_artifacts q a run (finish_run q a run (file_video q a (save_analysis q a db)))

filed-stands :
    (q : JobRequest) (a : Analysis) (run : Option AnalysisRun) (owner i : ℕ) (db : Db)
    → a.id ≡ i
    → stands owner i a.row_version db.analyses ≡ true
    → stands owner i (a.row_version + 1) (filed q a run db).1.analyses ≡ true
unfolding filed file_artifacts
filed-stands q a run owner i db same h =
    finish_run-stands q a run owner i (a.row_version + 1) (file_video q a (save_analysis q a db))
    ∙ (ap (stands owner i (a.row_version + 1)) (file_video-analyses q a (save_analysis q a db))
        ∙ save_analysis-stands q a owner i db same h)

selection-end :
    (q : JobRequest) (a : Analysis) (run : Option AnalysisRun) (owner i n v : ℕ) (db : Db)
    → stands owner i n db.analyses ≡ true
    → (proceed (file_selection q a run db) (λ _. pure n)).0 ≡ ok v
    → stands owner i v (proceed (file_selection q a run db) (λ _. pure n)).1.analyses ≡ true
selection-end q a run owner i n v db h e =
    elim (Result-cases
      (persist_player_selection q.owner_user_id a.id run q.player_selection db.selections)) [
        | inr (x, bad) ↦ absurd (ground (arith, bad))
        | inl (rows, good) ↦ ground (arith, good)
      ]

end_save-stands :
    (q : JobRequest) (a : Analysis) (run : Option AnalysisRun) (owner i v : ℕ) (db : Db)
    → a.id ≡ i
    → stands owner i a.row_version db.analyses ≡ true
    → (end_save q a run db).0 ≡ ok v
    → stands owner i v (end_save q a run db).1.analyses ≡ true
unfolding end_save filed
end_save-stands q a run owner i v db same h e =
    registered (filed q a run db) (filed-stands q a run owner i db same h) e
  where
    registered :
        (o : Result PersistenceError (List Artifact) × Db)
        → stands owner i (a.row_version + 1) o.1.analyses ≡ true
        → (proceed o (λ _. file_selection q a run >>= (λ _. pure (a.row_version + 1)))).0 ≡ ok v
        → stands owner i v
            (proceed o (λ _. file_selection q a run >>= (λ _. pure (a.row_version + 1)))).1.analyses
          ≡ true
    registered (ok rows, t) g r = selection-end q a run owner i (a.row_version + 1) v t g r
    registered (err x, t) g r = absurd (ground arith)

pub insert_run-analyses :
    (a : Analysis) (n : NewRun) (db : Db) → (insert_run a n db).1.analyses ≡ db.analyses
unfolding insert_run
insert_run-analyses a n db = ground arith

pub ensure_run-analyses :
    (q : JobRequest) (a : Analysis) (db : Db) → (ensure_run q a db).1.analyses ≡ db.analyses
unfolding ensure_run
ensure_run-analyses q a db =
    elim (Bool-cases
      (is_processing q.payload.status && not (has_active (active_or_latest_run a.id db)))) [
        | inr miss ↦ rw (miss, ensure_run) refl
        | inl hit ↦
            rw (hit, ensure_run)
              (started-analyses (insert_run a (restarted_run q a db) db)
                (insert_run-analyses a (restarted_run q a db) db))
      ]
  where
    started-analyses :
        (o : Result PersistenceError AnalysisRun × Db)
        → o.1.analyses ≡ db.analyses
        → (started o).1.analyses ≡ db.analyses
    started-analyses (ok r, t) e = e
    started-analyses (err x, t) e = e

save_job-stands :
    (q : JobRequest) (a : Analysis) (owner i v : ℕ) (db : Db)
    → a.id ≡ i
    → stands owner i a.row_version db.analyses ≡ true
    → (save_job q a db).0 ≡ ok v
    → stands owner i v (save_job q a db).1.analyses ≡ true
unfolding save_job
save_job-stands q a owner i v db same h e =
    elim (Bool-cases (is_removed (find (has_video_id a.uploaded_video_id) db.videos))) [
      | inl gone ↦ absurd (ground (arith, gone))
      | inr there ↦ elim (Bool-cases (not (same_sport a.sport q.payload.sport))) [
        | inl other ↦ absurd (ground (arith, there, other))
        | inr sport ↦
            let saved : save_job q a db
                ≡ (ensure_run q a >>= end_save q a) (with_valid_artifacts q a db) =
              rw (there, sport, save_job) refl in
            subst (λ o. stands owner i v o.1.analyses ≡ true) (sym saved)
              (ended (ensure_run q a (with_valid_artifacts q a db))
                (ap (stands owner i a.row_version)
                    (ensure_run-analyses q a (with_valid_artifacts q a db))
                  ∙ h)
                (ap (λ o. o.0) (sym saved) ∙ e))
      ]
    ]
  where
    ended :
        (o : Result PersistenceError (Option AnalysisRun) × Db)
        → stands owner i a.row_version o.1.analyses ≡ true
        → (proceed o (end_save q a)).0 ≡ ok v
        → stands owner i v (proceed o (end_save q a)).1.analyses ≡ true
    ended (ok run, t) g d = end_save-stands q a run owner i v t same g d
    ended (err x, t) g d = absurd (ground arith)

-- what is loaded is the live row of the owner, at its version
IsLoaded : JobRequest → Result PersistenceError Analysis × Db → Type 0
IsLoaded q (ok a, db) =
    (a.id ≡ q.payload.analysis_id)
    × (stands q.owner_user_id q.payload.analysis_id a.row_version db.analyses ≡ true)
IsLoaded q (err e, db) = Unit

import_analysis-IsLoaded : (q : JobRequest) (db : Db) → IsLoaded q (import_analysis q db)
unfolding import_analysis IsLoaded
import_analysis-IsLoaded q db = elim (Bool-cases (not q.compatibility_import)) [
  | inl off ↦ simp (off) tt
  | inr on ↦
      elim (Result-cases (insert_run (imported_analysis q) (imported_run q) (with_import q db)).0) [
        | inr (x, bad) ↦ simp (on, bad) tt
        | inl (run, good) ↦
            simp (on, good)
              (
                refl,
                ap (stands q.owner_user_id q.payload.analysis_id 1) (
                      insert_run-analyses (imported_analysis q) (imported_run q) (with_import q db))
                    ∙ ground (arith, ==_refl q.payload.analysis_id, ==_refl q.owner_user_id),
              )
      ]
]

load_or_import-IsLoaded : (q : JobRequest) (db : Db) → IsLoaded q (load_or_import q db)
unfolding load_or_import IsLoaded
load_or_import-IsLoaded q db =
    elim (Option-cases (find (has_analysis_id q.payload.analysis_id) db.analyses)) [
      | inl gone ↦ rw (gone, load_or_import) (import_analysis-IsLoaded q db)
      | inr (a, there) ↦
          elim (Result-cases (version_checked q (owned_if q.owner_user_id (some a)))) [
            | inr (x, bad) ↦ rw (there, load_or_import) (rw bad tt)
            | inl (b, good) ↦
                let same : a ≡ b = ground (arith, good) in
                rw (there, load_or_import)
                  (rw good (
                    subst (λ c. IsLoaded q (ok c, db)) same
                      (
                        ground (
                          arith,
                          find_holds (has_analysis_id q.payload.analysis_id) db.analyses there,
                        ),
                        ground (arith, there, ==_refl a.row_version, good),
                      )))
          ]
    ]

persist_job-stands :
    (q : JobRequest) (v : ℕ) (db : Db)
    → (persist_job q db).0 ≡ ok v
    → stands q.owner_user_id q.payload.analysis_id v (persist_job q db).1.analyses ≡ true
unfolding persist_job IsLoaded
persist_job-stands q v db e =
    committed (proceed (load_or_import q db) (save_job q))
      (saved (load_or_import q db) (load_or_import-IsLoaded q db)) e
  where
    saved :
        (o : Result PersistenceError Analysis × Db)
        → IsLoaded q o
        → (proceed o (save_job q)).0 ≡ ok v
        → stands q.owner_user_id q.payload.analysis_id v (proceed o (save_job q)).1.analyses ≡ true
    saved (ok a, t) h d = save_job-stands q a q.owner_user_id q.payload.analysis_id v t h.0 h.1 d
    saved (err x, t) h d = absurd (ground arith)

    committed :
        (o : Result PersistenceError ℕ × Db)
        → (o.0 ≡ ok v → stands q.owner_user_id q.payload.analysis_id v o.1.analyses ≡ true)
        → (commit o db).0 ≡ ok v
        → stands q.owner_user_id q.payload.analysis_id v (commit o db).1.analyses ≡ true
    committed (ok n, t) f d = f d
    committed (err x, t) f d = absurd (ground arith)

-- No update is lost: after a save of a job that returned a version, every save of the same analysis
-- by its owner that expects another version is refused with the error of optimistic concurrency, and
-- writes nothing.
pub outdated_save_refused :
    (q later : JobRequest) (v n : ℕ) (db : Db)
    → (persist_job q db).0 ≡ ok v
    → later.owner_user_id ≡ q.owner_user_id
    → later.payload.analysis_id ≡ q.payload.analysis_id
    → later.expected_row_version ≡ some n
    → (v == n) ≡ false
    → persist_job later (persist_job q db).1 ≡ (err optimistic_concurrency, (persist_job q db).1)
outdated_save_refused q later v n db e owner same expected apart =
    refused_save later n v (persist_job q db).1 expected apart (
      ap (λ o. stands o later.payload.analysis_id v (persist_job q db).1.analyses) owner
      ∙ (ap (λ i. stands q.owner_user_id i v (persist_job q db).1.analyses) same
          ∙ persist_job-stands q v db e))
