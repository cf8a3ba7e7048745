-- ===== src/Matches/Retry.antt =====
-- The request of a deletion, and its repetition.
use court.Base.{
  raises, ℕ, ◌≡◌, refl, ap, sym, ◌∙◌, inl, inr, Bool, true, false, Option, some, List, [], ◌∷◌,
  Result, ok, ◌==◌, ◌&&◌, ◌||◌, not, arith, Bool-cases, Option-cases,
}
use mathlib.Core.Path.{subst}
use court.Base.Table.{find, any, update_where, find_holds}
use court.Base.Rows.{find-updated}
use court.Uploads.{counts_as_active, UploadSession}
use court.Persistence.{Analysis, UploadedVideo, Db, deleting, has_analysis_id, has_video_id}
use court.Matches.{MatchError, is_shared}
use court.Matches.Deletion.{
  owns, is_deleted, condemned, Manifest, condemned_db, request_video, request_deletion, source_key,
  artifacts_of,
}

-- the next call of the deletion, after a request
abbrev pub NamesSame : Manifest → Result MatchError (Option Manifest) → Type 0
NamesSame m (ok (some again)) = (again.media ≡ m.media) × (again.source ≡ m.source)
NamesSame m _ = true ≡ false

is_shared-condemned :
    (video_id i now : ℕ) (a : Analysis) (rows : List Analysis)
    → is_shared video_id i (update_where (has_analysis_id i) (condemned a now) rows)
      ≡ is_shared video_id i rows
is_shared-condemned video_id i now a [] = refl
is_shared-condemned video_id i now a (b ∷ rows) =
    ground (arith, is_shared-condemned video_id i now a rows)

pub manifest_of : ℕ → ℕ → Analysis → UploadedVideo → Db → Manifest
manifest_of owner i a v db = record {
  video = v;
  source = source_key a;
  media = artifacts_of owner i db.artifacts;
}

-- the tests on the video
pub is_refused_video : ℕ → ℕ → UploadedVideo → Db → Bool
is_refused_video owner i v db =
    not (v.owner_user_id == owner)
    || is_shared v.id i db.analyses
    || any (λ (u : UploadSession). u.analysis_id == i && counts_as_active u.status) db.uploads

pub request_video-refused :
    (owner i now : ℕ) (a : Analysis) (v : UploadedVideo) (db : Db)
    → is_refused_video owner i v db ≡ true
    → raises (request_video owner i now a v db).0 ≡ true
unfolding request_video is_refused_video
request_video-refused owner i now a v db h = ground arith

pub request_video-accepted :
    (owner i now : ℕ) (a : Analysis) (v : UploadedVideo) (db : Db)
    → is_refused_video owner i v db ≡ false
    → request_video owner i now a v db
      ≡ (ok (some (manifest_of owner i a v db)), condemned_db i now a v db)
unfolding request_video is_refused_video manifest_of
request_video-accepted owner i now a v db h =
    let owned : not (v.owner_user_id == owner) ≡ false = ground arith in
    let own : is_shared v.id i db.analyses ≡ false = ground arith in
    let idle : any (λ (u : UploadSession). u.analysis_id == i && counts_as_active u.status)
          db.uploads
        ≡ false =
      ground arith in
    rw (owned, own, idle, request_video) refl

condemned-raises :
    (owner i now : ℕ) (a : Analysis) (v : UploadedVideo) (db : Db)
    → is_refused_video owner i (record v { state = deleting }) (condemned_db i now a v db)
      ≡ is_refused_video owner i v db
unfolding is_refused_video condemned_db
condemned-raises owner i now a v db = ground (arith, is_shared-condemned v.id i now a db.analyses)

-- The request that was accepted is accepted again, by a row with the same source.
request_video-again :
    (owner i now later : ℕ) (a b : Analysis) (v : UploadedVideo) (db : Db) (m : Manifest)
    → source_key b ≡ source_key a
    → (request_video owner i now a v db).0 ≡ ok (some m)
    → NamesSame m
        (request_video owner i later b
          (record v { state = deleting })
          (condemned_db i now a v db)).0
unfolding manifest_of condemned_db
request_video-again owner i now later a b v db m same e =
    elim (Bool-cases (is_refused_video owner i v db)) [
      | inl bad ↦ absurd (ground (arith, request_video-refused owner i now a v db bad))
      | inr good ↦
          let first = request_video-accepted owner i now a v db good in
          let again =
            request_video-accepted owner i later b (record v { state = deleting })
              (condemned_db i now a v db) (condemned-raises owner i now a v db ∙ good) in
          let named : manifest_of owner i a v db ≡ m =
            ground (arith, ap (λ o. o.0) (sym first) ∙ e) in
          subst (λ o. NamesSame m o.0) (sym again)
            (ap (λ x. x.media) named, same ∙ ap (λ x. x.source) named)
    ]

request_condemned :
    (owner i now later : ℕ) (a : Analysis) (v : UploadedVideo) (db : Db)
    → find (owns owner i) db.analyses ≡ some a
    → find (has_video_id a.uploaded_video_id) db.videos ≡ some v
    → request_deletion owner i later (condemned_db i now a v db)
      ≡ request_video owner i later
          (condemned a now a)
          (record v { state = deleting })
          (condemned_db i now a v db)
unfolding request_deletion condemned_db
request_condemned owner i now later a v db there found = rw (row, media, request_deletion) refl
  where
    row :
        find (owns owner i) (update_where (has_analysis_id i) (condemned a now) db.analyses)
        ≡ some (condemned a now a)
    row =
        find-updated (owns owner i) (has_analysis_id i) (condemned a now) (λ r. refl)
          (λ r h. ground arith) db.analyses there

    media :
        find
          (has_video_id a.uploaded_video_id)
          (update_where (has_video_id v.id) (λ w. record w { state = deleting }) db.videos)
        ≡ some (record v { state = deleting })
    media =
        find-updated (has_video_id a.uploaded_video_id) (has_video_id v.id)
          (λ w. record w { state = deleting }) (λ r. refl)
          (λ r h. ground (arith, find_holds (has_video_id a.uploaded_video_id) db.videos found))
          db.videos found

request_again_on :
    (owner i now later : ℕ) (a : Analysis) (v : UploadedVideo) (db : Db) (m : Manifest)
    → find (owns owner i) db.analyses ≡ some a
    → find (has_video_id a.uploaded_video_id) db.videos ≡ some v
    → request_deletion owner i now db ≡ request_video owner i now a v db
    → (request_video owner i now a v db).0 ≡ ok (some m)
    → NamesSame m (request_deletion owner i later (request_deletion owner i now db).1).0
request_again_on owner i now later a v db m there found first e =
    elim (Bool-cases (is_refused_video owner i v db)) [
      | inl bad ↦ absurd (ground (arith, request_video-refused owner i now a v db bad))
      | inr good ↦
          subst (λ o. NamesSame m (request_deletion owner i later o.1).0)
            (sym (first ∙ request_video-accepted owner i now a v db good))
            (subst (λ o. NamesSame m o.0)
              (sym (request_condemned owner i now later a v db there found))
              (request_video-again owner i now later a (condemned a now a) v db m refl e))
    ]

-- A deletion that was requested can be requested again, at any later time, whatever became of the
-- objects in between: the second request is accepted, with the same source and the same media to
-- delete.
pub request_again :
    (owner i now later : ℕ) (db : Db) (m : Manifest)
    → (request_deletion owner i now db).0 ≡ ok (some m)
    → NamesSame m (request_deletion owner i later (request_deletion owner i now db).1).0
unfolding request_deletion
request_again owner i now later db m e = elim (Option-cases (find (owns owner i) db.analyses)) [
  | inl gone ↦ absurd (ground (arith, gone))
  | inr (a, there) ↦ elim (Bool-cases (is_deleted a.lifecycle_state)) [
    | inl over ↦ absurd (ground (arith, there, over))
    | inr on ↦ elim (Option-cases (find (has_video_id a.uploaded_video_id) db.videos)) [
      | inl lost ↦ absurd (ground (arith, there, on, lost))
      | inr (v, found) ↦
          let first : request_deletion owner i now db ≡ request_video owner i now a v db =
            rw (there, on, found, request_deletion) refl in
          request_again_on owner i now later a v db m there found first
            (ap (λ o. o.0) (sym first) ∙ e)
    ]
  ]
]
