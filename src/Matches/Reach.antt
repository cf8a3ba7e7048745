-- ===== src/Matches/Reach.antt =====
-- The persistence service, the deletion of matches and of recordings as a whole: any calls, in any
-- order, by any clients. Each constructor is one transaction; `seen` is whatever a call read before
-- it was granted its row locks.
use court.Base.{ℕ, ◌≡◌, refl, ◌==◌, false, some, List, [], arith}
use court.Base.Table.{find}
use court.Persistence.{
  State, Analysis, CalibrationVerification, Db, deletion_pending, has_analysis_id,
}
use court.Persistence.Registry.{ArtifactInput}
use court.Persistence.Runs.{RunRequest, start_run}
use court.Persistence.Transitions.{transition_run}
use court.Persistence.Stages.{StageRequest, start_stage_execution, transition_stage_execution}
use court.Persistence.StageArtifacts.{register_stage_artifacts, record_calibration_verification}
use court.Persistence.Reserve.{Reservation, reserve_analysis}
use court.Persistence.Jobs.{JobRequest}
use court.Persistence.Saving.{persist_job}
use court.Persistence.Sound.{IsSound}
use court.Persistence.Sound.Runs.{IsNew, start_run-IsSound}
use court.Persistence.Sound.Transitions.{transition_run-IsSound}
use court.Persistence.Sound.Artifacts.{
  start_stage-IsSound, transition_stage-IsSound, register_stage-IsSound, review-IsSound,
}
use court.Persistence.Sound.Persist.{persist_job-IsSound}
use court.Persistence.Sound.Reserve.{reserve_analysis-IsSound}
use court.Matches.Removed.Saves.{IsNewVideo}
use court.Matches.Deletion.{request_deletion, finalize_deletion}
use court.Matches.SourceMedia.{Media, SourceManifest, request, finalize}
use court.Matches.Sound.{request_deletion-IsSound, finalize_deletion-IsSound}
use court.Matches.Sound.SourceMedia.{request-IsSound, finalize-IsSound}

-- `uuid4` gives a run or a video an identifier that no other has
pub data Step (db : Db) : Db → Type 0 where
  reserves :
      (seen : Db) (q : Reservation)
      → IsNew q.run_id db
      → IsNewVideo q.video_id db
      → Step db (reserve_analysis seen q db).1
  starts_run : (seen : Db) (q : RunRequest) → IsNew q.run_id db → Step db (start_run seen q db).1
  moves_run :
      (seen : Db) (owner run_id expected : ℕ) (new : State) (now : ℕ)
      → Step db (transition_run seen owner run_id expected new now db).1
  starts_stage : (q : StageRequest) → Step db (start_stage_execution q db).1
  moves_stage :
      (seen : Db) (owner i expected : ℕ) (new : State) (category : List ℕ) (now : ℕ)
      → Step db (transition_stage_execution seen owner i expected new category now db).1
  registers :
      (owner i : ℕ) (inputs : List ArtifactInput) (now : ℕ)
      → Step db (register_stage_artifacts owner i inputs now db).1
  reviews : (v : CalibrationVerification) → Step db (record_calibration_verification v db).1
  saves :
      (q : JobRequest)
      → IsNew q.import_run_id db
      → IsNew q.run_id db
      → (q.import_run_id == q.run_id) ≡ false
      → IsNewVideo q.video_id db
      → Step db (persist_job q db).1
  condemns : (owner i now : ℕ) → Step db (request_deletion owner i now db).1
  erases :
      (owner i : ℕ) (a : Analysis) (now : ℕ)
      → find (has_analysis_id i) db.analyses ≡ some a
      → a.lifecycle_state ≡ deletion_pending
      → Step db (finalize_deletion owner i a a.uploaded_video_id now db)
  condemns_source : (k : Media) (owner i : ℕ) → Step db (request k owner i db).1
  erases_source : (k : Media) (owner i : ℕ) (m : SourceManifest) → Step db (finalize k owner i m db)

-- any number of transactions
pub data Later (s : Db) : Db → Type 0 where
  here : Later s s
  after : {t u : Db} → Later s t → Step t u → Later s u

abbrev pub empty_db : Db
empty_db = record {
  videos = [];
  analyses = [];
  runs = [];
  stages = [];
  artifacts = [];
  selections = [];
  verifications = [];
  records = [];
  events = [];
  uploads = [];
}

pub data Reachable : Db → Type 0 where
  empty : Reachable empty_db
  next : {s t : Db} → Reachable s → Step s t → Reachable t

Step-IsSound : {s t : Db} → Step s t → IsSound s → IsSound t
Step-IsSound {s} (reserves seen q new _) h = reserve_analysis-IsSound seen q s new h
Step-IsSound {s} (starts_run seen q new) h = start_run-IsSound seen q s new h
Step-IsSound {s} (moves_run seen owner i expected new now) h =
    transition_run-IsSound seen owner i expected new now s h
Step-IsSound {s} (starts_stage q) h = start_stage-IsSound q s h
Step-IsSound {s} (moves_stage seen owner i expected new category now) h =
    transition_stage-IsSound seen owner i expected new category now s h
Step-IsSound {s} (registers owner i inputs now) h = register_stage-IsSound owner i inputs now s h
Step-IsSound {s} (reviews v) h = review-IsSound v s h
Step-IsSound {s} (saves q new new' apart _) h = persist_job-IsSound q s new new' apart h
Step-IsSound {s} (condemns owner i now) h = request_deletion-IsSound owner i now s h
Step-IsSound {s} (erases owner i a now _ _) h =
    finalize_deletion-IsSound owner i a a.uploaded_video_id now s h
Step-IsSound {s} (condemns_source k owner i) h = request-IsSound k owner i s h
Step-IsSound {s} (erases_source k owner i m) h = finalize-IsSound k owner i m s h

-- Whatever calls are made and however they interleave, no two runs share an identifier, an analysis
-- has at most one active run, at most one current artifact for each logical key and at most one for
-- each stored object, and no run is active for an analysis whose deletion was requested or that does
-- not exist.
pub Reachable-IsSound : {db : Db} → Reachable db → IsSound db
Reachable-IsSound empty = record {
  one_run_id = λ i. omega arith;
  one_active = λ i. omega arith;
  one_current = (λ i key. omega arith, λ i provider key. omega arith);
  active_live = λ i e. refl;
}
Reachable-IsSound (next r c) = Step-IsSound c (Reachable-IsSound r)
