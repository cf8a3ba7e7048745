-- ===== src/Matches/Forever.antt =====
-- What no later call takes back: the removal of a recording, and the deletion of a match.
use court.Base.{
  ℕ, ◌≡◌, refl, ap, ◌∙◌, inl, inr, true, List, ◌∷◌, Option-cases, Bool-cases, Result-cases, raises,
  arith, ◌==◌, ◌&&◌,
}
use court.Base.Table.{find, find_holds}
use court.Base.Rows.{find-any}
use court.Persistence.{Db, is_live, has_analysis_id, owned_analysis}
use court.Persistence.Reads.{load_job, get_artifact, get_artifacts}
use court.Matches.SourceMedia.{finalize}
use court.Matches.Condemned.{
  is_withdrawn, start_run-withdrawn, transition_run-withdrawn, start_stage-analyses,
  transition_stage-analyses, register_stage-analyses, review-analyses,
}
use court.Matches.Condemned.Saves.{
  persist_job-withdrawn, reserve_analysis-withdrawn, request_deletion-withdrawn,
  finalize_deletion-withdrawn, request-analyses,
}
use court.Matches.Removed.{
  removed, start_run-videos, transition_run-videos, start_stage-videos, transition_stage-videos,
  register_stage-videos, review-videos, request_deletion-removed, finalize_deletion-removed,
  request-removed, finalize-removed,
}
use court.Matches.Removed.Saves.{reserve_analysis-removed, persist_job-removed}
use court.Matches.Reach.{
  Step, reserves, starts_run, moves_run, starts_stage, moves_stage, registers, reviews, saves,
  condemns, erases, condemns_source, erases_source, Later, here, after,
}

Step-removed :
    {s t : Db} → Step s t → (i : ℕ) → removed i s.videos ≡ true → removed i t.videos ≡ true
Step-removed {s} (reserves seen q _ new) i h = reserve_analysis-removed seen q i s new h
Step-removed {s} (starts_run seen q _) i h = ap (removed i) (start_run-videos seen q s) ∙ h
Step-removed {s} (moves_run seen owner j expected new now) i h =
    ap (removed i) (transition_run-videos seen owner j expected new now s) ∙ h
Step-removed {s} (starts_stage q) i h = ap (removed i) (start_stage-videos q s) ∙ h
Step-removed {s} (moves_stage seen owner j expected new category now) i h =
    ap (removed i) (transition_stage-videos seen owner j expected new category now s) ∙ h
Step-removed {s} (registers owner j inputs now) i h =
    ap (removed i) (register_stage-videos owner j inputs now s) ∙ h
Step-removed {s} (reviews v) i h = ap (removed i) (review-videos v s) ∙ h
Step-removed {s} (saves q _ _ _ new) i h = persist_job-removed q i s new h
Step-removed {s} (condemns owner j now) i h = request_deletion-removed owner j now i s h
Step-removed {s} (erases owner j a now _ _) i h =
    finalize_deletion-removed owner j a a.uploaded_video_id now i s h
Step-removed {s} (condemns_source k owner j) i h = request-removed k owner j i s h
Step-removed {s} (erases_source k owner j m) i h = finalize-removed k owner j m i s h

-- A recording whose deletion was requested stays so: whatever calls follow, in any order and with any
-- jobs that are still being saved, the row of the video is in one of the two states of removal, so no
-- save makes it available again.
pub removed_forever :
    {s t : Db} (i : ℕ) → Later s t → removed i s.videos ≡ true → removed i t.videos ≡ true
removed_forever i here h = h
removed_forever i (after later step) h = Step-removed step i (removed_forever i later h)

Step-withdrawn :
    {s t : Db}
    → Step s t
    → (i : ℕ) → is_withdrawn i s.analyses ≡ true
    → is_withdrawn i t.analyses ≡ true
Step-withdrawn {s} (reserves seen q _ _) i h = reserve_analysis-withdrawn i seen q s h
Step-withdrawn {s} (starts_run seen q _) i h = start_run-withdrawn i seen q s h
Step-withdrawn {s} (moves_run seen owner j expected new now) i h =
    transition_run-withdrawn i seen owner j expected new now s h
Step-withdrawn {s} (starts_stage q) i h = ap (is_withdrawn i) (start_stage-analyses q s) ∙ h
Step-withdrawn {s} (moves_stage seen owner j expected new category now) i h =
    ap (is_withdrawn i) (transition_stage-analyses seen owner j expected new category now s) ∙ h
Step-withdrawn {s} (registers owner j inputs now) i h =
    ap (is_withdrawn i) (register_stage-analyses owner j inputs now s) ∙ h
Step-withdrawn {s} (reviews v) i h = ap (is_withdrawn i) (review-analyses v s) ∙ h
Step-withdrawn {s} (saves q _ _ _ _) i h = persist_job-withdrawn i q s h
Step-withdrawn {s} (condemns owner j now) i h = request_deletion-withdrawn i owner j now s h
Step-withdrawn {s} (erases owner j a now _ _) i h =
    finalize_deletion-withdrawn i owner j a a.uploaded_video_id now s h
Step-withdrawn {s} (condemns_source k owner j) i h =
    ap (is_withdrawn i) (request-analyses k owner j s) ∙ h
Step-withdrawn {s} (erases_source k owner j m) i h = unfold finalize in h

Later-withdrawn :
    {s t : Db} (i : ℕ)
    → Later s t
    → is_withdrawn i s.analyses ≡ true
    → is_withdrawn i t.analyses ≡ true
Later-withdrawn i here h = h
Later-withdrawn i (after later step) h = Step-withdrawn step i (Later-withdrawn i later h)

owned-withdrawn :
    (owner i : ℕ) (db : Db)
    → is_withdrawn i db.analyses ≡ true
    → raises (owned_analysis owner i db) ≡ true
unfolding owned_analysis
owned-withdrawn owner i db h = elim (Option-cases (find (has_analysis_id i) db.analyses)) [
  | inl gone ↦ ground (arith, gone)
  | inr (a, there) ↦ elim (Bool-cases (is_live a.lifecycle_state)) [
    | inr over ↦ ground (arith, there, over)
    | inl on ↦ absurd (
        ground (
          arith,
          find-any (has_analysis_id i) (λ b. b.id == i && is_live b.lifecycle_state) db.analyses
              there (ground (arith, on, find_holds (has_analysis_id i) db.analyses there)),
        ))
  ]
]

-- A match whose deletion was requested is gone for every reader: whatever calls follow, in any order,
-- loading its job, getting one of its artifacts and getting several of them raise, for its owner as
-- for everyone else.
pub withdrawn_forever :
    {s t : Db} (owner i : ℕ) (key : List ℕ) (keys : List (List ℕ))
    → Later s t
    → is_withdrawn i s.analyses ≡ true
    → (raises (load_job owner i t) ≡ true)
      × (raises (get_artifact owner i key t) ≡ true)
      × (raises (get_artifacts owner i (key ∷ keys) t) ≡ true)
unfolding load_job get_artifact get_artifacts
withdrawn_forever {s} {t} owner i key keys later h =
    elim (Result-cases (owned_analysis owner i t)) [
      | inl (a, good) ↦
          absurd (ground (arith, good, owned-withdrawn owner i t (Later-withdrawn i later h)))
      | inr (x, bad) ↦
          (rw (bad, load_job) refl, rw (bad, get_artifact) refl, rw (bad, get_artifacts) refl)
    ]
