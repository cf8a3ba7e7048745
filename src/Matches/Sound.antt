-- ===== src/Matches/Sound.antt =====
-- The deletion of a match and of a recording, on the state that the saves and transitions keep.
pub mod SourceMedia
use court.Base.{
  ℕ, ◌+◌, ◌≤◌, ◌≡◌, refl, ap, ◌∙◌, inl, inr, Bool, true, false, Option, none, some, List, [], ◌∷◌,
  Result, ok, err, ◌==◌, ◌&&◌, ◌||◌, not, arith, if◌then◌else◌, Bool-cases, Option-cases,
  Result-cases, ==_refl,
}
use court.Base.Table.{find, any, count, update_where}
use court.Base.Rows.{delete_where, count-delete-le, any-update}
use court.Persistence.{
  State, Lifecycle, Analysis, AnalysisRun, Artifact, UploadedVideo, Db, is_live, is_active,
  has_run_id, is_active_run, has_analysis_id, has_video_id,
}
use court.Persistence.Registry.{is_current_at, is_stored_at}
use court.Persistence.Sound.{IsSound, is_live_in}
use court.Matches.{MatchError}
use court.Matches.Deletion.{
  owns, is_deleted, retire_runs, retire_stages, condemned, Manifest, condemned_db, request_video,
  request_deletion, delete_objects, is_erased, finalize_deletion, finalize_if, delete,
}

retire-one_run_id :
    (j i now : ℕ) (rs : List AnalysisRun)
    → count (has_run_id i) (retire_runs j now rs) ≡ count (has_run_id i) rs
retire-one_run_id j i now [] = refl
retire-one_run_id j i now (r ∷ rs) = ground (arith, retire-one_run_id j i now rs)

-- The analysis loses its active runs, and no other one does.
pub retire-active :
    (j i now : ℕ) (rs : List AnalysisRun)
    → count (is_active_run i) (retire_runs j now rs)
      ≡ (if j == i then 0 else count (is_active_run i) rs)
retire-active j i now [] = ground arith
retire-active j i now (r ∷ rs) = ground (arith, retire-active j i now rs)

condemned-live :
    (j i now : ℕ) (a : Analysis) (rows : List Analysis)
    → is_live_in (update_where (has_analysis_id j) (condemned a now) rows) i
      ≡ (if j == i then false else is_live_in rows i)
condemned-live j i now a [] = ground arith
condemned-live j i now a (r ∷ rs) = ground (arith, condemned-live j i now a rs)

condemned_db-IsSound :
    (i now : ℕ) (a : Analysis) (v : UploadedVideo) (db : Db)
    → IsSound db
    → IsSound (condemned_db i now a v db)
unfolding condemned_db
condemned_db-IsSound i now a v db h = record {
  one_run_id = λ k. ground (arith, h.one_run_id k, retire-one_run_id i k now db.runs);
  one_active = λ k. ground (arith, h.one_active k, retire-active i k now db.runs);
  one_current = h.one_current;
  active_live = λ k e.
      ground (
        arith,
        h.active_live k,
        retire-active i k now db.runs,
        condemned-live i k now a db.analyses,
      );
}

pub request_video-IsSound :
    (owner i now : ℕ) (a : Analysis) (v : UploadedVideo) (db : Db)
    → IsSound db
    → IsSound (request_video owner i now a v db).1
unfolding request_video
request_video-IsSound owner i now a v db h = ground (arith, h, condemned_db-IsSound i now a v db h)

pub request_deletion-IsSound :
    (owner i now : ℕ) (db : Db) → IsSound db → IsSound (request_deletion owner i now db).1
unfolding request_deletion
request_deletion-IsSound owner i now db h = elim (Option-cases (find (owns owner i) db.analyses)) [
  | inl gone ↦ rw (gone, request_deletion) h
  | inr (a, e) ↦ elim (Bool-cases (is_deleted a.lifecycle_state)) [
    | inl over ↦ rw (e, over, request_deletion) h
    | inr there ↦ elim (Option-cases (find (has_video_id a.uploaded_video_id) db.videos)) [
      | inl lost ↦ rw (e, there, lost, request_deletion) h
      | inr (v, found) ↦
          rw (e, there, found, request_deletion) (request_video-IsSound owner i now a v db h)
    ]
  ]
]

erased-active :
    (i k : ℕ) (rs : List AnalysisRun)
    → count (is_active_run k) (delete_where (λ r. r.analysis_id == i) rs)
      ≡ (if i == k then 0 else count (is_active_run k) rs)
erased-active i k [] = ground arith
erased-active i k (r ∷ rs) = ground (arith, erased-active i k rs)

erased-live :
    (i k now : ℕ) (a : Analysis) (rows : List Analysis)
    → is_live_in (update_where (has_analysis_id i) (is_erased a now) rows) k
      ≡ (if i == k then false else is_live_in rows k)
erased-live i k now a [] = ground arith
erased-live i k now a (r ∷ rs) = ground (arith, erased-live i k now a rs)

pub finalize_deletion-IsSound :
    (owner i : ℕ) (a : Analysis) (video_id now : ℕ) (db : Db)
    → IsSound db
    → IsSound (finalize_deletion owner i a video_id now db)
unfolding finalize_deletion
finalize_deletion-IsSound owner i a video_id now db h = record {
  one_run_id = λ k.
      ground
        (arith, h.one_run_id k, count-delete-le (has_run_id k) (λ r. r.analysis_id == i) db.runs);
  one_active = λ k. ground (arith, h.one_active k, erased-active i k db.runs);
  one_current = (
    λ k key. ground (
      arith,
      h.one_current.0 k key,
      count-delete-le (is_current_at k key) (λ x. x.analysis_id == i) db.artifacts,
    ),
    λ k provider key. ground (
      arith,
      h.one_current.1 k provider key,
      count-delete-le (is_stored_at k provider key) (λ x. x.analysis_id == i) db.artifacts,
    ),
  );
  active_live = λ k e.
      ground (arith, h.active_live k, erased-active i k db.runs, erased-live i k now a db.analyses);
}

finalize_if-IsSound :
    (owner i : ℕ) (o : Option Analysis) (video_id now : ℕ) (db : Db)
    → IsSound db
    → IsSound (finalize_if owner i o video_id now db)
finalize_if-IsSound owner i none video_id now db h = h
finalize_if-IsSound owner i (some a) video_id now db h =
    finalize_deletion-IsSound owner i a video_id now db h
