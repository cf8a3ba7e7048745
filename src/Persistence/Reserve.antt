-- ===== src/Persistence/Reserve.antt =====
-- The reservation of an analysis: idempotent by key, and one analysis for one recording.
use court.Base.{
  ℕ, Bool, true, false, Option, none, some, List, ◌∷◌, Result, ok, err, ◌==◌, ◌&&◌, ◌||◌, not,
  if◌then◌else◌,
}
use court.Base.Table.{find, any, select}
use court.Base.Rows.{largest}
use court.Persistence.{
  processing, live, Sport, JobPayload, UploadedVideo, video_pending, Analysis, analysis_upload,
  Resource, no_resource, analysis_resource, exact_duplicate, run_resource, IdempotencyRecord,
  analysis_created, Db, PersistenceError, resource_not_found, idempotency_conflict,
  operation_in_progress, integrity_error, Call, is_live, has_analysis_id, owned_analysis,
}
use court.Persistence.Runs.{NewRun, add_event, insert_run, has_key}
use court.Persistence.Stages.{same_sport}

pub record Reservation : Type 0 where
  pub owner_user_id : ℕ
  pub analysis_id : ℕ
  pub key_hash : ℕ
  pub fingerprint : ℕ
  pub content_type : Option ℕ
  pub size_bytes : ℕ
  pub source_checksum : ℕ
  pub job_payload : JobPayload
  pub allow_duplicate : Bool
  pub sport : Sport
  pub uploaded_stage : ℕ
  pub video_id : ℕ
  pub run_id : ℕ
  pub now : ℕ

-- `ReservationResult`: the analysis, whether it is new, and whether it is an exact duplicate
pub record ReservationResult : Type 0 where
  pub analysis_id : ℕ
  pub created : Bool
  pub is_duplicate : Bool

abbrev pub has_checksum : ℕ → ℕ → UploadedVideo → Bool
has_checksum owner checksum v =
    v.owner_user_id == owner && elim v.source_checksum [ none ↦ false | some c ↦ c == checksum ]

-- the join of an analysis with its video, by identifier and owner
abbrev pub shows : Reservation → List UploadedVideo → Analysis → Bool
shows q videos a =
    a.owner_user_id == q.owner_user_id
    && same_sport a.sport q.sport
    && is_live a.lifecycle_state
    && any (λ v. v.id == a.uploaded_video_id && has_checksum q.owner_user_id q.source_checksum v)
        videos

-- `ORDER BY created_at DESC, id DESC LIMIT 1`
abbrev pub newest : List Analysis → Option Analysis
newest rows = elim (largest (λ a. a.created_at) rows) [
  | none ↦ none
  | some a ↦ largest (λ b. b.id) (select (λ b. b.created_at == a.created_at) rows)
]

-- `_find_uploaded_video_by_owner_and_checksum`
abbrev pub find_duplicate : Reservation → Db → Option Analysis
find_duplicate q db = newest (select (shows q db.videos) db.analyses)

-- `_duplicate_match_for_analysis`
abbrev pub has_source : ℕ → ℕ → Db → Bool
has_source owner i db =
    any
      (λ (a : Analysis).
        a.id == i
        && a.owner_user_id == owner
        && any
            (λ (v : UploadedVideo).
              v.id == a.uploaded_video_id && v.owner_user_id == a.owner_user_id)
            db.videos)
      db.analyses

abbrev pub if_owned :
    Result PersistenceError Analysis
    → Result PersistenceError ReservationResult
    → Result PersistenceError ReservationResult
if_owned (err e) r = err e
if_owned (ok a) r = r

abbrev pub earlier : ℕ → Bool → ReservationResult
earlier i duplicate = record { analysis_id = i; created = false; is_duplicate = duplicate }

-- `_reservation_from_record`, behind the tests that its callers make
unfoldable pub resolve_reservation :
    Reservation → Db → IdempotencyRecord → Result PersistenceError ReservationResult
unfolding owned_analysis
resolve_reservation q db r =
    if not (r.request_fingerprint == q.fingerprint)
    then err idempotency_conflict
    else elim r.resource [
      | no_resource ↦ err operation_in_progress
      | analysis_resource i ↦ if_owned (owned_analysis q.owner_user_id i db) (ok (earlier i false))
      | run_resource i ↦ if_owned (owned_analysis q.owner_user_id i db) (ok (earlier i false))
      | exact_duplicate i ↦
          if_owned (owned_analysis q.owner_user_id i db) (
            if has_source q.owner_user_id i db then ok (earlier i true) else err resource_not_found)
    ]

abbrev pub upload_record : Reservation → Resource → Bool → IdempotencyRecord
upload_record q resource has_payload = record {
  owner_user_id = q.owner_user_id;
  scope = analysis_upload;
  key_hash = q.key_hash;
  request_fingerprint = q.fingerprint;
  resource = resource;
  has_payload = has_payload;
}

abbrev pub new_video : Reservation → UploadedVideo
new_video q = record {
  id = q.video_id;
  owner_user_id = q.owner_user_id;
  state = video_pending;
  storage_provider = 0;
  storage_key = none;
  content_type = q.content_type;
  size_bytes = some q.size_bytes;
  source_checksum = some q.source_checksum;
  row_version = 1;
  created_at = q.now;
  updated_at = q.now;
}

abbrev pub new_analysis : Reservation → Analysis
new_analysis q = record {
  id = q.analysis_id;
  owner_user_id = q.owner_user_id;
  uploaded_video_id = q.video_id;
  lifecycle_state = live;
  deletion_requested_at = none;
  deleted_at = none;
  sport = q.sport;
  state = processing;
  current_stage = q.uploaded_stage;
  job_payload = some q.job_payload;
  promoted_run_id = none;
  row_version = 1;
  created_at = q.now;
  updated_at = q.now;
  completed_at = none;
  failed_at = none;
  cancelled_at = none;
}

abbrev pub first_run : Reservation → NewRun
first_run q = record {
  run_id = q.run_id;
  source_checksum = some q.source_checksum;
  state = processing;
  lease_expires_at = none;
  now = q.now;
}

-- the rows of a reservation, with the event of the new analysis
abbrev pub with_reservation : Reservation → Db → Db
with_reservation q db =
    add_event (new_analysis q) none processing analysis_created
      (record db { videos = new_video q ∷ db.videos; analyses = new_analysis q ∷ db.analyses })

-- the inserts of a new analysis; a used key or identifier fails at its index
unfoldable pub create_analysis : Reservation → Call ReservationResult
create_analysis q db =
    if any (has_key q.owner_user_id analysis_upload q.key_hash) db.records
      || any (has_analysis_id q.analysis_id) db.analyses
    then (err integrity_error, db)
    else let (inserted, db') = insert_run (new_analysis q) (first_run q) (with_reservation q db) in
      elim inserted [
        | err e ↦ (err e, db)
        | ok run ↦ (
          ok (record { analysis_id = q.analysis_id; created = true; is_duplicate = false }),
          record db' {
            records = upload_record q (analysis_resource q.analysis_id) false ∷ db'.records;
          },
        )
      ]

-- the duplicate of a recording is answered, and the answer is kept under the key
unfoldable pub refer_to : Reservation → Analysis → Call ReservationResult
refer_to q a db =
    if any (has_key q.owner_user_id analysis_upload q.key_hash) db.records
    then (err integrity_error, db)
    else (
      ok (earlier a.id true),
      record db { records = upload_record q (exact_duplicate a.id) true ∷ db.records },
    )

-- what is behind the first query; the lock on owner and checksum is held
unfoldable pub reserve_locked : Reservation → Call ReservationResult
reserve_locked q db =
    if q.allow_duplicate
    then create_analysis q db
    else elim (find_duplicate q db) [ none ↦ create_analysis q db | some a ↦ refer_to q a db ]

unfoldable pub reserve_again : Reservation → Call ReservationResult
reserve_again q db = elim (find (has_key q.owner_user_id analysis_upload q.key_hash) db.records) [
  | none ↦ (err integrity_error, db)
  | some r ↦ (resolve_reservation q db r, db)
]

abbrev pub retry_reservation :
    Reservation
    → Result PersistenceError ReservationResult × Db
    → Result PersistenceError ReservationResult × Db
retry_reservation q (ok r, db) = (ok r, db)
retry_reservation q (err integrity_error, db) = reserve_again q db
retry_reservation q (err e, db) = (err e, db)

unfoldable pub reserve_analysis : Db → Reservation → Call ReservationResult
reserve_analysis seen q db =
    elim (find (has_key q.owner_user_id analysis_upload q.key_hash) seen.records) [
      | some r ↦ (resolve_reservation q seen r, db)
      | none ↦ retry_reservation q (reserve_locked q db)
    ]
