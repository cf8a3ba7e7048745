-- ===== src/Matches/Removed/Saves.antt =====
-- Saves and reservations, which write videos, leave alone those whose deletion was requested.
use court.Base.{
  ℕ, ◌+◌, ◌≤◌, ◌≡◌, refl, ap, ◌∙◌, inl, inr, true, false, Option, none, some, List, [], ◌∷◌, Result,
  ok, err, ◌==◌, not, arith, Bool-cases, Option-cases, Result-cases, proceed, commit, pure, ◌>>=◌,
}
use court.Base.Table.{find, count, update_where}
use court.Persistence.{
  Analysis, AnalysisRun, Artifact, Db, PersistenceError, integrity_error, UploadedVideo,
  has_video_id,
}
use court.Persistence.Registry.{ArtifactInput, persist_player_selection}
use court.Persistence.Runs.{insert_run}
use court.Persistence.Stages.{same_sport}
use court.Persistence.Reserve.{
  Reservation, ReservationResult, new_analysis, new_video, first_run, with_reservation,
  create_analysis, refer_to, reserve_locked, reserve_again, retry_reservation, reserve_analysis,
  find_duplicate,
}
use court.Persistence.Jobs.{
  JobRequest, load_or_import, import_analysis, imported_analysis, imported_video, imported_run,
  with_import,
}
use court.Persistence.Saving.{
  is_removed, filed_video, is_source_of, kept_inputs, file_video, save_analysis, finish_run,
  file_artifacts, file_selection, end_save, ensure_run, started, restarted_run,
  with_valid_artifacts, save_job, persist_job,
}
use court.Matches.Removed.{removed, insert_run-videos}

abbrev pub IsNewVideo : ℕ → Db → Type 0
IsNewVideo i db = count (has_video_id i) db.videos ≡ 0

removed_counts :
    (i : ℕ) (rows : List UploadedVideo) → removed i rows ≡ true → 1 ≤ count (has_video_id i) rows
removed_counts i [] h = absurd (ground arith)
removed_counts i (v ∷ rows) h = ground (arith, removed_counts i rows)

removed-fresh :
    (i : ℕ) (v : UploadedVideo) (rows : List UploadedVideo)
    → count (has_video_id v.id) rows ≡ 0
    → removed i rows ≡ true
    → removed i (v ∷ rows) ≡ true
removed-fresh i v rows new h = elim (Bool-cases (v.id == i)) [
  | inr apart ↦ ground (arith, apart)
  | inl same ↦
      let eq : v.id ≡ i = ground arith in
      absurd (ground (arith, removed_counts i rows h, ap (λ j. count (has_video_id j) rows) eq))
]

removed-apart :
    (i j : ℕ) (f : UploadedVideo → UploadedVideo)
    → ((v : UploadedVideo) → (f v).id ≡ v.id)
    → (i == j) ≡ false
    → (rows : List UploadedVideo)
    → removed i (update_where (has_video_id j) f rows) ≡ removed i rows
removed-apart i j f same apart [] = refl
removed-apart i j f same apart (v ∷ rows) =
    ground (arith, same v, removed-apart i j f same apart rows)

removed-other :
    (i j : ℕ) (f : UploadedVideo → UploadedVideo)
    → ((v : UploadedVideo) → (f v).id ≡ v.id)
    → (rows : List UploadedVideo) → is_removed (find (has_video_id j) rows) ≡ false
    → removed i rows ≡ true
    → removed i (update_where (has_video_id j) f rows) ≡ true
removed-other i j f same rows there h = elim (Bool-cases (i == j)) [
  | inr apart ↦ removed-apart i j f same apart rows ∙ h
  | inl hit ↦
      let eq : i ≡ j = ground arith in
      absurd (ground (arith, ap (λ k. is_removed (find (has_video_id k) rows)) eq))
]

filed_video-id :
    (q : JobRequest) (key : List ℕ) (o : Option ArtifactInput) (v : UploadedVideo)
    → (filed_video q key o v).id ≡ v.id
filed_video-id q key none v = refl
filed_video-id q key (some i) v = refl

file_video-removed :
    (q : JobRequest) (a : Analysis) (i : ℕ) (db : Db)
    → is_removed (find (has_video_id a.uploaded_video_id) db.videos) ≡ false
    → removed i db.videos ≡ true
    → removed i (file_video q a db).videos ≡ true
unfolding file_video
file_video-removed q a i db there h = elim (Option-cases q.payload.source_video) [
  | inl gone ↦ ground (arith, gone)
  | inr (key, named) ↦ ground (
    arith,
    named,
    removed-other i a.uploaded_video_id
        (filed_video q key (find (is_source_of key) (kept_inputs q a)))
        (filed_video-id q key (find (is_source_of key) (kept_inputs q a))) db.videos there h,
  )
]

save_analysis-videos :
    (q : JobRequest) (a : Analysis) (db : Db) → (save_analysis q a db).videos ≡ db.videos
unfolding save_analysis
save_analysis-videos q a db = ground arith

finish_run-videos :
    (q : JobRequest) (a : Analysis) (run : Option AnalysisRun) (db : Db)
    → (finish_run q a run db).videos ≡ db.videos
unfolding finish_run
finish_run-videos q a none db = refl
finish_run-videos q a (some run) db = ground arith

ensure_run-videos :
    (q : JobRequest) (a : Analysis) (db : Db) → (ensure_run q a db).1.videos ≡ db.videos
unfolding ensure_run
ensure_run-videos q a db = ground (
  arith,
  started-videos (insert_run a (restarted_run q a db) db),
  insert_run-videos a (restarted_run q a db) db,
)
  where
    started-videos :
        (o : Result PersistenceError AnalysisRun × Db) → (started o).1.videos ≡ o.1.videos
    started-videos (ok r, t) = refl
    started-videos (err x, t) = refl

end_save-removed :
    (q : JobRequest) (a : Analysis) (run : Option AnalysisRun) (i : ℕ) (db : Db)
    → is_removed (find (has_video_id a.uploaded_video_id) db.videos) ≡ false
    → removed i db.videos ≡ true
    → removed i (end_save q a run db).1.videos ≡ true
unfolding end_save
end_save-removed q a run i db there h = registered _ filed
  where
    filed :
        removed i
          (file_artifacts q a run
            (finish_run q a run (file_video q a (save_analysis q a db)))).1.videos
        ≡ true
    filed =
        unfold file_artifacts in
        (ap (removed i) (finish_run-videos q a run (file_video q a (save_analysis q a db)))
          ∙ file_video-removed q a i (save_analysis q a db)
              (ap (λ rows. is_removed (find (has_video_id a.uploaded_video_id) rows))
                  (save_analysis-videos q a db)
                ∙ there)
              (ap (removed i) (save_analysis-videos q a db) ∙ h))

    selected :
        (d : Db)
        → removed i d.videos ≡ true
        → removed i (proceed (file_selection q a run d) (λ _. pure (a.row_version + 1))).1.videos
          ≡ true
    selected d g =
        elim (Result-cases
          (persist_player_selection q.owner_user_id a.id run q.player_selection d.selections)) [
            | inr (x, bad) ↦ ground (arith, bad)
            | inl (rows, good) ↦ ground (arith, good)
          ]

    registered :
        (o : Result PersistenceError (List Artifact) × Db)
        → removed i o.1.videos ≡ true
        → removed i
            (proceed o (λ _. file_selection q a run >>= (λ _. pure (a.row_version + 1)))).1.videos
          ≡ true
    registered (ok rows, d) g = selected d g
    registered (err x, d) g = g

save_job-removed :
    (q : JobRequest) (a : Analysis) (i : ℕ) (db : Db)
    → removed i db.videos ≡ true
    → removed i (save_job q a db).1.videos ≡ true
unfolding save_job
save_job-removed q a i db h =
    elim (Bool-cases (is_removed (find (has_video_id a.uploaded_video_id) db.videos))) [
      | inl gone ↦ rw (gone, save_job) h
      | inr there ↦ elim (Bool-cases (not (same_sport a.sport q.payload.sport))) [
        | inl other ↦ rw (there, other, save_job) h
        | inr sport ↦
            rw (there, sport, save_job)
              (ended (ensure_run q a (with_valid_artifacts q a db))
                (ensure_run-videos q a (with_valid_artifacts q a db)) there)
      ]
    ]
  where
    ended :
        (o : Result PersistenceError (Option AnalysisRun) × Db)
        → o.1.videos ≡ db.videos
        → is_removed (find (has_video_id a.uploaded_video_id) db.videos) ≡ false
        → removed i (proceed o (end_save q a)).1.videos ≡ true
    ended (ok run, t) e there =
        end_save-removed q a run i t
          (ap (λ rows. is_removed (find (has_video_id a.uploaded_video_id) rows)) e ∙ there)
          (ap (removed i) e ∙ h)
    ended (err x, t) e there = ap (removed i) e ∙ h

import_analysis-removed :
    (q : JobRequest) (i : ℕ) (db : Db)
    → IsNewVideo q.video_id db
    → removed i db.videos ≡ true
    → removed i (import_analysis q db).1.videos ≡ true
unfolding import_analysis
import_analysis-removed q i db new h = ground (
  arith,
  insert_run-videos (imported_analysis q) (imported_run q) (with_import q db),
  removed-fresh i (imported_video q) db.videos new h,
)

pub persist_job-removed :
    (q : JobRequest) (i : ℕ) (db : Db)
    → IsNewVideo q.video_id db
    → removed i db.videos ≡ true
    → removed i (persist_job q db).1.videos ≡ true
unfolding persist_job
persist_job-removed q i db new h =
    committed (proceed (load_or_import q db) (save_job q)) (saved (load_or_import q db) loaded)
  where
    loaded : removed i (load_or_import q db).1.videos ≡ true
    loaded = unfold load_or_import in ground (arith, h, import_analysis-removed q i db new h)

    saved :
        (o : Result PersistenceError Analysis × Db)
        → removed i o.1.videos ≡ true
        → removed i (proceed o (save_job q)).1.videos ≡ true
    saved (ok a, t) g = save_job-removed q a i t g
    saved (err x, t) g = g

    committed :
        (o : Result PersistenceError ℕ × Db)
        → removed i o.1.videos ≡ true
        → removed i (commit o db).1.videos ≡ true
    committed (ok n, t) g = g
    committed (err x, t) g = h

create_analysis-removed :
    (q : Reservation) (i : ℕ) (db : Db)
    → IsNewVideo q.video_id db
    → removed i db.videos ≡ true
    → removed i (create_analysis q db).1.videos ≡ true
unfolding create_analysis
create_analysis-removed q i db new h = ground (
  arith,
  insert_run-videos (new_analysis q) (first_run q) (with_reservation q db),
  removed-fresh i (new_video q) db.videos new h,
)

refer_to-videos :
    (q : Reservation) (a : Analysis) (db : Db) → (refer_to q a db).1.videos ≡ db.videos
unfolding refer_to
refer_to-videos q a db = ground arith

pub reserve_analysis-removed :
    (seen : Db) (q : Reservation) (i : ℕ) (db : Db)
    → IsNewVideo q.video_id db
    → removed i db.videos ≡ true
    → removed i (reserve_analysis seen q db).1.videos ≡ true
unfolding reserve_analysis
reserve_analysis-removed seen q i db new h = ground (arith, retried (reserve_locked q db) reserved)
  where
    reserved : removed i (reserve_locked q db).1.videos ≡ true
    reserved = elim (Option-cases (find_duplicate q db)) [
      | inl gone ↦
          unfold reserve_locked in ground (arith, gone, create_analysis-removed q i db new h)
      | inr (a, there) ↦
          unfold reserve_locked in
          ground (arith, there, create_analysis-removed q i db new h, refer_to-videos q a db, h)
    ]

    again : (d : Db) → (reserve_again q d).1.videos ≡ d.videos
    again d = unfold reserve_again in ground arith

    retried :
        (o : Result PersistenceError ReservationResult × Db)
        → removed i o.1.videos ≡ true
        → removed i (retry_reservation q o).1.videos ≡ true
    retried (ok r, d) g = g
    retried (err e, d) g =
        elim e as (λ k. removed i (retry_reservation q (err k, d)).1.videos ≡ true) [
          | integrity_error ↦ ap (removed i) (again d) ∙ g
          | _ ↦ g
        ]
