-- ===== src/Matches/Erasure.antt =====
-- What a deletion leaves when it ends.
use court.Base.{
  raises, ℕ, ◌≡◌, inl, inr, true, false, Option, none, some, List, [], ◌∷◌, Result, ok, err, ◌==◌,
  arith, Bool-cases, Option-cases, Result-cases,
}
use court.Base.Table.{find, count, update_where}
use court.Base.Rows.{count-delete}
use court.Persistence.{Analysis, UploadedVideo, Db, has_analysis_id, has_video_id}
use court.Matches.{MatchError, Objects}
use court.Matches.Deletion.{
  owns, is_deleted, condemned, Manifest, condemned_db, request_video, request_deletion,
  delete_objects, finalize_deletion, carry_out, delete,
}
use court.Matches.Retry.{is_refused_video, request_video-refused, request_video-accepted}

-- nothing is left of the analysis but its row
pub record IsErased (i : ℕ) (db : Db) : Type 0 where
  pub no_artifacts : count (λ x. x.analysis_id == i) db.artifacts ≡ 0
  pub no_runs : count (λ r. r.analysis_id == i) db.runs ≡ 0
  pub no_stages : count (λ x. x.analysis_id == i) db.stages ≡ 0
  pub no_events : count (λ e. e.analysis_id == i) db.events ≡ 0
  pub no_selections : count (λ s. s.analysis_id == i) db.selections ≡ 0
  pub no_verifications : count (λ v. v.analysis_id == i) db.verifications ≡ 0

finalize_deletion-IsErased :
    (owner i : ℕ) (a : Analysis) (video_id now : ℕ) (db : Db)
    → IsErased i (finalize_deletion owner i a video_id now db)
unfolding finalize_deletion
finalize_deletion-IsErased owner i a video_id now db = record {
  no_artifacts = count-delete (λ x. x.analysis_id == i) db.artifacts;
  no_runs = count-delete (λ r. r.analysis_id == i) db.runs;
  no_stages = count-delete (λ x. x.analysis_id == i) db.stages;
  no_events = count-delete (λ e. e.analysis_id == i) db.events;
  no_selections = count-delete (λ s. s.analysis_id == i) db.selections;
  no_verifications = count-delete (λ v. v.analysis_id == i) db.verifications;
}

IsRequested : ℕ → Result MatchError (Option Manifest) × Db → Type 0
IsRequested i (err e, db) = Unit
IsRequested i (ok none, db) = true ≡ false
IsRequested i (ok (some m), db) = (b : Analysis) × (find (has_analysis_id i) db.analyses ≡ some b)

condemned-found :
    (owner i now : ℕ) (a b : Analysis) (rows : List Analysis)
    → find (owns owner i) rows ≡ some b
    → (c : Analysis) × (find
          (has_analysis_id i)
          (update_where (has_analysis_id i) (condemned a now) rows)
        ≡ some c)
condemned-found owner i now a b [] e = absurd (ground arith)
condemned-found owner i now a b (x ∷ rows) e = elim (Bool-cases (x.id == i)) [
  | inl hit ↦ (condemned a now x, ground (arith, hit))
  | inr miss ↦
      let (c, later) = condemned-found owner i now a b rows (ground (arith, miss)) in
      (c, ground (arith, miss, later))
]

request_deletion-IsRequested :
    (owner i now : ℕ) (db : Db) (a : Analysis)
    → find (owns owner i) db.analyses ≡ some a
    → is_deleted a.lifecycle_state ≡ false
    → IsRequested i (request_deletion owner i now db)
unfolding request_deletion
request_deletion-IsRequested owner i now db a there on =
    elim (Option-cases (find (has_video_id a.uploaded_video_id) db.videos)) [
      | inl lost ↦ rw (there, on, lost, request_deletion) (unfold IsRequested in tt)
      | inr (v, found) ↦ rw (there, on, found, request_deletion) (on_video v)
    ]
  where
    refused : (o : Result MatchError (Option Manifest) × Db) → raises o.0 ≡ true → IsRequested i o
    refused (err e, t) h = unfold IsRequested in tt
    refused (ok m, t) h = absurd (ground arith)

    on_video : (v : UploadedVideo) → IsRequested i (request_video owner i now a v db)
    on_video v = elim (Bool-cases (is_refused_video owner i v db)) [
      | inl bad ↦
          refused (request_video owner i now a v db) (request_video-refused owner i now a v db bad)
      | inr good ↦ rw (request_video-accepted owner i now a v db good) (
          unfold IsRequested in
          unfold condemned_db in condemned-found owner i now a a db.analyses there)
    ]

carry_out-IsErased :
    (o : Objects) (owner i now : ℕ) (keys : List (List ℕ))
    (r : Result MatchError (Option Manifest) × Db)
    → IsRequested i r
    → (carry_out o owner i now r).0 ≡ ok keys
    → IsErased i (carry_out o owner i now r).1
unfolding carry_out IsRequested
carry_out-IsErased o owner i now keys (err e, db) h d = absurd (ground arith)
carry_out-IsErased o owner i now keys (ok none, db) h d = absurd (ground (arith, h))
carry_out-IsErased o owner i now keys (ok (some m), db) h d =
    elim (Result-cases (delete_objects o m)) [
      | inr (x, bad) ↦ absurd (ground (arith, bad))
      | inl (k, good) ↦
          rw (good, carry_out) (rw (h.1) (finalize_deletion-IsErased owner i h.0 m.video.id now db))
    ]

-- Once the deletion of a match returned the keys of what it deleted, and the match was not deleted
-- before, no artifact, run, stage execution, event, player selection or review of it is left.
pub delete-IsErased :
    (o : Objects) (owner i now : ℕ) (db : Db) (a : Analysis) (keys : List (List ℕ))
    → find (owns owner i) db.analyses ≡ some a
    → is_deleted a.lifecycle_state ≡ false
    → (delete o owner i now db).0 ≡ ok keys
    → IsErased i (delete o owner i now db).1
unfolding delete
delete-IsErased o owner i now db a keys there on e =
    carry_out-IsErased o owner i now keys (request_deletion owner i now db)
      (request_deletion-IsRequested owner i now db a there on) e
