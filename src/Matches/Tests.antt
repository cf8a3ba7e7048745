-- ===== src/Matches/Tests.antt =====
-- The calls at one match: it is reserved, its job is saved twice, and it is deleted.
use court.Base.{raises, ◌≡◌, refl, true, false, none, some, [], ◌∷◌, ◌++◌, map, ok, err}
use court.Base.Text.{text}
use court.Persistence.{
  optimistic_concurrency, processing, completed, failed, pickleball, JobPayload, Db, Analysis, live,
  available, artifact_available,
}
use court.Persistence.Registry.{
  ArtifactInput, register_artifact, register_artifacts, persist_player_selection,
}
use court.Persistence.Runs.{insert_run}
use court.Persistence.Transitions.{move_run, transition_run}
use court.Persistence.Reserve.{
  ReservationResult, earlier, Reservation, reserve_analysis, reserve_locked, create_analysis,
}
use court.Persistence.Jobs.{JobRequest, load_or_import, source_video_kind}
use court.Persistence.Saving.{
  persist_job, save_job, ensure_run, end_save, save_analysis, file_video, finish_run,
  file_artifacts,
}
use court.Persistence.Sound.{IsSound}
use court.Persistence.Repeats.{reserve_repeats}
use court.Persistence.Races.{one_transition_wins}
use court.Persistence.Saves.{outdated_save_refused}
use court.Matches.{Registered, Objects, delete_registered_object, delete_all}
use court.Matches.Deletion.{
  Manifest, request_deletion, request_video, condemned_db, delete_objects, carry_out, delete,
}
use court.Matches.Registry.{all_deletable, delete_all_decides}
use court.Matches.Removed.{removed}
use court.Matches.Forever.{removed_forever, withdrawn_forever}
use court.Persistence.Reads.{load_job, get_artifact, get_artifacts}
use court.Matches.Retry.{NamesSame, request_again}
use court.Matches.Erasure.{IsErased, delete-IsErased}
use court.Matches.Reach.{
  Reachable, empty, next, empty_db, reserves, saves, condemns, here, after, Reachable-IsSound,
}

abbrev new_job : JobPayload
new_job = record {
  analysis_id = 7;
  sport = pickleball;
  status = processing;
  current_stage = 1;
  source_video = none;
  active_calibration_id = none;
  calibration_verification = none;
  calibration_completed = false;
  inspection_completed = false;
  tracking_completed = false;
  analytics_completed = false;
  selected_evidence_signature = none;
  error = none;
}

abbrev upload : Reservation
upload = record {
  owner_user_id = 1;
  analysis_id = 7;
  key_hash = 100;
  fingerprint = 200;
  content_type = some 1;
  size_bytes = 5000;
  source_checksum = 99;
  job_payload = new_job;
  allow_duplicate = false;
  sport = pickleball;
  uploaded_stage = 1;
  video_id = 30;
  run_id = 40;
  now = 1000;
}

abbrev source_input : ArtifactInput
source_input = record {
  id = 60;
  artifact_kind = source_video_kind;
  storage_provider = 1;
  storage_key = text "s/source.mp4";
  logical_key = text "source.mp4";
  content_type = 1;
  size_bytes = 5000;
  checksum_sha256 = 99;
  schema_version = none;
}

abbrev finished_job : JobPayload
finished_job = record new_job {
  status = completed;
  source_video = some (text "source.mp4");
  analytics_completed = true;
}

abbrev save : JobRequest
save = record {
  owner_user_id = 1;
  payload = finished_job;
  artifacts = source_input ∷ [];
  player_selection = none;
  compatibility_import = false;
  expected_row_version = some 1;
  video_id = 31;
  import_run_id = 41;
  run_id = 42;
  now = 2000;
}

abbrev reserved_db : Db
reserved_db = (reserve_analysis empty_db upload empty_db).1

abbrev saved_db : Db
saved_db = (persist_job save reserved_db).1

abbrev condemned_match : Db
condemned_match = (request_deletion 1 7 3000 saved_db).1

saved_lem : (persist_job save reserved_db).0 ≡ ok 2
unfolding reserve_analysis reserve_locked create_analysis insert_run persist_job load_or_import
    save_job ensure_run end_save save_analysis file_video finish_run file_artifacts
    register_artifacts register_artifact persist_player_selection
saved_lem = refl

saves-Reachable : Reachable saved_db
unfolding reserve_analysis reserve_locked create_analysis insert_run
saves-Reachable =
    next (next empty (reserves empty_db upload refl refl)) (saves save refl refl refl refl)

Reachable-IsSound_example : IsSound condemned_match
Reachable-IsSound_example = Reachable-IsSound (next saves-Reachable (condemns 1 7 3000))

abbrev objects : Objects
objects = record {
  provider = 1;
  local_provider = 0;
  source_object_key = λ key. text "s/" ++ key;
  artifact_object_key = λ key checksum. text "a/" ++ key;
  deletes = λ key. true;
  purges = true;
}

abbrev source_media : Registered
source_media = record {
  provider = 1;
  key = text "s/source.mp4";
  logical_key = text "source.mp4";
  checksum = some 99;
  is_source = true;
}

abbrev saved_analysis_row : Analysis
saved_analysis_row = record {
  id = 7;
  owner_user_id = 1;
  uploaded_video_id = 30;
  lifecycle_state = live;
  deletion_requested_at = none;
  deleted_at = none;
  sport = pickleball;
  state = completed;
  current_stage = 1;
  job_payload = some finished_job;
  promoted_run_id = some 40;
  row_version = 2;
  created_at = 1000;
  updated_at = 2000;
  completed_at = some 2000;
  failed_at = none;
  cancelled_at = none;
}

delete_all_decides_example :
    (all_deletable objects (source_media ∷ []) ≡ true
      → delete_all objects (source_media ∷ []) ≡ ok (map (λ m. m.key) (source_media ∷ [])))
    × (all_deletable objects (source_media ∷ []) ≡ false
        → raises (delete_all objects (source_media ∷ [])) ≡ true)
delete_all_decides_example = delete_all_decides objects (source_media ∷ [])

abbrev saved_manifest : Manifest
saved_manifest = record {
  video = record {
    id = 30;
    owner_user_id = 1;
    state = available;
    storage_provider = 1;
    storage_key = some (text "s/source.mp4");
    content_type = some 1;
    size_bytes = some 5000;
    source_checksum = some 99;
    row_version = 2;
    created_at = 1000;
    updated_at = 2000;
  };
  source = some (text "source.mp4");
  media =
      record {
        id = 60;
        owner_user_id = 1;
        analysis_id = 7;
        analysis_run_id = some 40;
        stage_execution_id = none;
        artifact_kind = source_video_kind;
        storage_provider = 1;
        storage_key = text "s/source.mp4";
        logical_key = text "source.mp4";
        content_type = 1;
        size_bytes = 5000;
        checksum_sha256 = 99;
        schema_version = none;
        state = artifact_available;
        is_current = true;
        updated_at = 2000;
      }
      ∷ [];
}

request_again_example :
    NamesSame saved_manifest (request_deletion 1 7 3500 (request_deletion 1 7 3000 saved_db).1).0
unfolding reserve_analysis reserve_locked create_analysis insert_run persist_job load_or_import
    save_job ensure_run end_save save_analysis file_video finish_run file_artifacts
    register_artifacts register_artifact persist_player_selection request_deletion request_video
    condemned_db
request_again_example = request_again 1 7 3000 3500 saved_db saved_manifest refl

delete-IsErased_example : IsErased 7 (delete objects 1 7 3000 saved_db).1
unfolding reserve_analysis reserve_locked create_analysis insert_run persist_job load_or_import
    save_job ensure_run end_save save_analysis file_video finish_run file_artifacts
    register_artifacts register_artifact persist_player_selection request_deletion request_video
    condemned_db delete carry_out delete_objects delete_all delete_registered_object
delete-IsErased_example =
    delete-IsErased objects 1 7 3000 saved_db saved_analysis_row
      (text "s/source.mp4" ∷ text "s/source.mp4" ∷ []) refl refl refl

abbrev later_save : JobRequest
later_save = record save { expected_row_version = some 1; now = 2500 }

outdated_save_refused_example :
    persist_job later_save (persist_job save reserved_db).1
    ≡ (err optimistic_concurrency, (persist_job save reserved_db).1)
outdated_save_refused_example =
    outdated_save_refused save later_save 2 1 reserved_db saved_lem refl refl refl refl

one_transition_wins_example :
    transition_run reserved_db 1 40 1 failed 2100
      (transition_run reserved_db 1 40 1 completed 2000 reserved_db).1
    ≡ (err optimistic_concurrency, (transition_run reserved_db 1 40 1 completed 2000 reserved_db).1)
unfolding transition_run move_run reserve_analysis reserve_locked create_analysis insert_run
one_transition_wins_example =
    one_transition_wins reserved_db 1 40 1 completed failed 2000 2100 reserved_db
      (record { run_id = 40; state = completed; row_version = 2 }) refl refl refl

abbrev condemned_saved : Db
condemned_saved = (persist_job later_save condemned_match).1

removed_forever_example : removed 30 condemned_saved.videos ≡ true
unfolding reserve_analysis reserve_locked create_analysis insert_run persist_job load_or_import
    save_job ensure_run end_save save_analysis file_video finish_run file_artifacts
    register_artifacts register_artifact persist_player_selection request_deletion request_video
    condemned_db
removed_forever_example =
    removed_forever {s = condemned_match} 30 (after here (saves later_save refl refl refl refl))
      refl

withdrawn_forever_example :
    (raises (load_job 1 7 condemned_saved) ≡ true)
    × (raises (get_artifact 1 7 (text "source.mp4") condemned_saved) ≡ true)
    × (raises (get_artifacts 1 7 (text "source.mp4" ∷ []) condemned_saved) ≡ true)
unfolding reserve_analysis reserve_locked create_analysis insert_run persist_job load_or_import
    save_job ensure_run end_save save_analysis file_video finish_run file_artifacts
    register_artifacts register_artifact persist_player_selection request_deletion request_video
    condemned_db
withdrawn_forever_example =
    withdrawn_forever {s = condemned_match} 1 7 (text "source.mp4") []
      (after here (saves later_save refl refl refl refl)) refl

abbrev reserved_result : ReservationResult
reserved_result = record { analysis_id = 7; created = true; is_duplicate = false }

reserve_repeats_example :
    reserve_analysis reserved_db upload reserved_db ≡ (ok (earlier 7 false), reserved_db)
unfolding reserve_analysis reserve_locked create_analysis insert_run
reserve_repeats_example = reserve_repeats empty_db upload empty_db reserved_result refl refl
