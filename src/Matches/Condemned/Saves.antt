-- ===== src/Matches/Condemned/Saves.antt =====
-- Saves, reservations and deletions leave a withdrawn match withdrawn.
use court.Base.{
  ℕ, ◌+◌, ◌≡◌, refl, ap, ◌∙◌, inl, inr, true, false, Option, none, some, List, [], ◌∷◌, Result, ok,
  err, arith, Bool-cases, Option-cases, Result-cases, proceed, commit, pure, ◌>>=◌,
}
use court.Base.Table.{find, any}
use court.Persistence.{
  Analysis, AnalysisRun, Artifact, Db, PersistenceError, integrity_error, has_analysis_id,
}
use court.Persistence.Registry.{persist_player_selection}
use court.Persistence.Reserve.{
  Reservation, ReservationResult, new_analysis, first_run, with_reservation, create_analysis,
  refer_to, reserve_locked, reserve_again, retry_reservation, reserve_analysis, find_duplicate,
}
use court.Persistence.Jobs.{
  JobRequest, load_or_import, import_analysis, imported_analysis, imported_run, with_import,
}
use court.Persistence.Saving.{
  saved_analysis, promote, file_video, save_analysis, finish_run, file_artifacts, file_selection,
  end_save, ensure_run, with_valid_artifacts, save_job, persist_job,
}
use court.Persistence.Saves.{insert_run-analyses, ensure_run-analyses, file_video-analyses}
use court.Matches.Deletion.{
  owns, request_deletion, request_video, condemned, condemned_db, finalize_deletion, is_erased,
}
use court.Matches.SourceMedia.{Media, request_source_deletion, request}
use court.Matches.Condemned.{is_withdrawn, withdrawn-update, withdrawn-add}

save_analysis-withdrawn :
    (i : ℕ) (q : JobRequest) (a : Analysis) (db : Db)
    → is_withdrawn i db.analyses ≡ true
    → is_withdrawn i (save_analysis q a db).analyses ≡ true
unfolding save_analysis
save_analysis-withdrawn i q a db h = ground (
  arith,
  withdrawn-update i (has_analysis_id a.id) (saved_analysis q a) (λ b. (refl, λ e. e)) db.analyses
      h,
)

finish_run-withdrawn :
    (i : ℕ) (q : JobRequest) (a : Analysis) (run : Option AnalysisRun) (db : Db)
    → is_withdrawn i db.analyses ≡ true
    → is_withdrawn i (finish_run q a run db).analyses ≡ true
unfolding finish_run
finish_run-withdrawn i q a none db h = h
finish_run-withdrawn i q a (some run) db h = ground (
  arith,
  h,
  withdrawn-update i (has_analysis_id a.id) (promote q run) (λ b. (ground arith, λ e. ground arith))
      db.analyses h,
)

end_save-withdrawn :
    (i : ℕ) (q : JobRequest) (a : Analysis) (run : Option AnalysisRun) (db : Db)
    → is_withdrawn i db.analyses ≡ true
    → is_withdrawn i (end_save q a run db).1.analyses ≡ true
unfolding end_save
end_save-withdrawn i q a run db h = registered _ filed
  where
    filed :
        is_withdrawn i
          (file_artifacts q a run
            (finish_run q a run (file_video q a (save_analysis q a db)))).1.analyses
        ≡ true
    filed =
        unfold file_artifacts in
        finish_run-withdrawn i q a run (file_video q a (save_analysis q a db)) (
          ap (is_withdrawn i) (file_video-analyses q a (save_analysis q a db))
          ∙ save_analysis-withdrawn i q a db h)

    selected :
        (d : Db)
        → is_withdrawn i d.analyses ≡ true
        → is_withdrawn i
            (proceed (file_selection q a run d) (λ _. pure (a.row_version + 1))).1.analyses
          ≡ true
    selected d g =
        elim (Result-cases
          (persist_player_selection q.owner_user_id a.id run q.player_selection d.selections)) [
            | inr (x, bad) ↦ ground (arith, bad)
            | inl (rows, good) ↦ ground (arith, good)
          ]

    registered :
        (o : Result PersistenceError (List Artifact) × Db)
        → is_withdrawn i o.1.analyses ≡ true
        → is_withdrawn i
            (proceed o (λ _. file_selection q a run >>= (λ _. pure (a.row_version + 1)))).1.analyses
          ≡ true
    registered (ok rows, d) g = selected d g
    registered (err x, d) g = g

save_job-withdrawn :
    (i : ℕ) (q : JobRequest) (a : Analysis) (db : Db)
    → is_withdrawn i db.analyses ≡ true
    → is_withdrawn i (save_job q a db).1.analyses ≡ true
unfolding save_job
save_job-withdrawn i q a db h = ground (
  arith,
  h,
  ended (ensure_run q a (with_valid_artifacts q a db))
      (ap (is_withdrawn i) (ensure_run-analyses q a (with_valid_artifacts q a db)) ∙ h),
)
  where
    ended :
        (o : Result PersistenceError (Option AnalysisRun) × Db)
        → is_withdrawn i o.1.analyses ≡ true
        → is_withdrawn i (proceed o (end_save q a)).1.analyses ≡ true
    ended (ok run, t) g = end_save-withdrawn i q a run t g
    ended (err x, t) g = g

unseen :
    (i : ℕ) (rows : List Analysis)
    → find (has_analysis_id i) rows ≡ none
    → any (has_analysis_id i) rows ≡ false
unseen i [] e = refl
unseen i (a ∷ rows) e = ground (arith, unseen i rows)

load_or_import-withdrawn :
    (i : ℕ) (q : JobRequest) (db : Db)
    → is_withdrawn i db.analyses ≡ true
    → is_withdrawn i (load_or_import q db).1.analyses ≡ true
unfolding load_or_import import_analysis
load_or_import-withdrawn i q db h =
    elim (Option-cases (find (has_analysis_id q.payload.analysis_id) db.analyses)) [
      | inr (a, there) ↦ ground (arith, there)
      | inl gone ↦ ground (
        arith,
        gone,
        h,
        insert_run-analyses (imported_analysis q) (imported_run q) (with_import q db),
        withdrawn-add i (imported_analysis q) db.analyses
            (unseen q.payload.analysis_id db.analyses gone) h,
      )
    ]

pub persist_job-withdrawn :
    (i : ℕ) (q : JobRequest) (db : Db)
    → is_withdrawn i db.analyses ≡ true
    → is_withdrawn i (persist_job q db).1.analyses ≡ true
unfolding persist_job
persist_job-withdrawn i q db h =
    committed (proceed (load_or_import q db) (save_job q))
      (saved (load_or_import q db) (load_or_import-withdrawn i q db h))
  where
    saved :
        (o : Result PersistenceError Analysis × Db)
        → is_withdrawn i o.1.analyses ≡ true
        → is_withdrawn i (proceed o (save_job q)).1.analyses ≡ true
    saved (ok a, t) g = save_job-withdrawn i q a t g
    saved (err x, t) g = g

    committed :
        (o : Result PersistenceError ℕ × Db)
        → is_withdrawn i o.1.analyses ≡ true
        → is_withdrawn i (commit o db).1.analyses ≡ true
    committed (ok n, t) g = g
    committed (err x, t) g = h

create_analysis-withdrawn :
    (i : ℕ) (q : Reservation) (db : Db)
    → is_withdrawn i db.analyses ≡ true
    → is_withdrawn i (create_analysis q db).1.analyses ≡ true
unfolding create_analysis
create_analysis-withdrawn i q db h =
    elim (Bool-cases (any (has_analysis_id q.analysis_id) db.analyses)) [
      | inl used ↦ ground (arith, used)
      | inr new ↦ ground (
        arith,
        h,
        insert_run-analyses (new_analysis q) (first_run q) (with_reservation q db),
        withdrawn-add i (new_analysis q) db.analyses new h,
      )
    ]

refer_to-analyses :
    (q : Reservation) (a : Analysis) (db : Db) → (refer_to q a db).1.analyses ≡ db.analyses
unfolding refer_to
refer_to-analyses q a db = ground arith

pub reserve_analysis-withdrawn :
    (i : ℕ) (seen : Db) (q : Reservation) (db : Db)
    → is_withdrawn i db.analyses ≡ true
    → is_withdrawn i (reserve_analysis seen q db).1.analyses ≡ true
unfolding reserve_analysis
reserve_analysis-withdrawn i seen q db h = ground (arith, h, retried (reserve_locked q db) reserved)
  where
    reserved : is_withdrawn i (reserve_locked q db).1.analyses ≡ true
    reserved = elim (Option-cases (find_duplicate q db)) [
      | inl gone ↦ unfold reserve_locked in ground (arith, gone, create_analysis-withdrawn i q db h)
      | inr (a, there) ↦
          unfold reserve_locked in
          ground (arith, there, create_analysis-withdrawn i q db h, refer_to-analyses q a db, h)
    ]

    again : (d : Db) → (reserve_again q d).1.analyses ≡ d.analyses
    again d = unfold reserve_again in ground arith

    retried :
        (o : Result PersistenceError ReservationResult × Db)
        → is_withdrawn i o.1.analyses ≡ true
        → is_withdrawn i (retry_reservation q o).1.analyses ≡ true
    retried (ok r, d) g = g
    retried (err e, d) g =
        elim e as (λ k. is_withdrawn i (retry_reservation q (err k, d)).1.analyses ≡ true) [
          | integrity_error ↦ ap (is_withdrawn i) (again d) ∙ g
          | _ ↦ g
        ]

pub request_deletion-withdrawn :
    (i owner j now : ℕ) (db : Db)
    → is_withdrawn i db.analyses ≡ true
    → is_withdrawn i (request_deletion owner j now db).1.analyses ≡ true
unfolding request_deletion request_video condemned_db
request_deletion-withdrawn i owner j now db h =
    elim (Option-cases (find (owns owner j) db.analyses)) [
      | inl gone ↦ ground (arith, gone)
      | inr (a, there) ↦ ground (
        arith,
        there,
        h,
        withdrawn-update i (has_analysis_id j) (condemned a now) (λ b. (refl, λ e. refl))
            db.analyses h,
      )
    ]

pub finalize_deletion-withdrawn :
    (i owner j : ℕ) (a : Analysis) (video_id now : ℕ) (db : Db)
    → is_withdrawn i db.analyses ≡ true
    → is_withdrawn i (finalize_deletion owner j a video_id now db).analyses ≡ true
unfolding finalize_deletion
finalize_deletion-withdrawn i owner j a video_id now db h =
    withdrawn-update i (has_analysis_id j) (is_erased a now) (λ b. (refl, λ e. refl)) db.analyses h

pub request-analyses :
    (k : Media) (owner j : ℕ) (db : Db) → (request k owner j db).1.analyses ≡ db.analyses
unfolding request request_source_deletion
request-analyses k owner j db = ground arith
