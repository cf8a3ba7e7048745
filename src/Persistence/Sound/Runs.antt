-- ===== src/Persistence/Sound/Runs.antt =====
-- Runs: what an insert keeps.
use court.Base.{
  ℕ, ◌≡◌, refl, ap, inl, inr, Bool, true, false, List, ◌∷◌, Result, ok, err, ◌==◌, ◌&&◌, arith,
  Bool-cases, Option-cases, Result-cases,
}
use court.Base.Table.{find, any, count, update_where, find_holds}
use court.Base.Rows.{any-count, any-update, find-any}
use court.Persistence.{
  Analysis, Db, PersistenceError, is_live, is_active, has_analysis_id, has_run_id, is_active_run,
  owned_analysis, run_start, integrity_error,
}
use court.Persistence.Runs.{
  NewRun, insert_run, RunRequest, start_locked, start_again, start_run, asked_run, has_key,
  run_record, retry, follow_run, restarted,
}
use court.Persistence.Sound.{IsSound, is_live_in}

-- An owned analysis is live.
pub owned-is_live :
    (owner i : ℕ) (db : Db) {a : Analysis}
    → owned_analysis owner i db ≡ ok a
    → (is_live_in db.analyses i ≡ true) × (a.id ≡ i)
unfolding owned_analysis
owned-is_live owner i db {a} e = elim (Option-cases (find (has_analysis_id i) db.analyses)) [
  | inl gone ↦ absurd (ground arith)
  | inr (b, there) ↦
      let held = find_holds (has_analysis_id i) db.analyses there in
      let live_row : is_live b.lifecycle_state ≡ true = ground arith in
      (
        find-any (has_analysis_id i) (λ c. c.id == i && is_live c.lifecycle_state) db.analyses there
            (ground (arith, held, live_row)),
        ground (arith, held),
      )
]

abbrev pub IsNew : ℕ → Db → Type 0
IsNew run_id db = count (has_run_id run_id) db.runs ≡ 0

-- A run is inserted for a live analysis.
pub insert_run-IsSound :
    (a : Analysis) (n : NewRun) (db : Db)
    → IsNew n.run_id db
    → is_live_in db.analyses a.id ≡ true
    → IsSound db
    → IsSound (insert_run a n db).1
unfolding insert_run
insert_run-IsSound a n db new l h = record {
  one_run_id = λ i. ground (arith, h.one_run_id i, new);
  one_active = λ i. ground (arith, h.one_active i, any-count (is_active_run a.id) db.runs);
  one_current = (
    λ i key. ground (arith, h.one_current.0 i key),
    λ i provider key. ground (arith, h.one_current.1 i provider key),
  );
  active_live = λ i e. ground (arith, h.active_live i, l, e);
}

restarted-live :
    (i j now : ℕ) (a : Analysis) (rows : List Analysis)
    → is_live_in (update_where (has_analysis_id j) (restarted a now) rows) i ≡ is_live_in rows i
restarted-live i j now a rows =
    any-update (λ c. c.id == i && is_live c.lifecycle_state) (has_analysis_id j) (restarted a now)
      (λ r e. refl) rows

follow_run-IsSound :
    (a : Analysis) (q : RunRequest) (db : Db) → IsSound db → IsSound (follow_run a q db)
follow_run-IsSound a q db h = record {
  one_run_id = λ i. ground (arith, h.one_run_id i);
  one_active = λ i. ground (arith, h.one_active i);
  one_current = (
    λ i key. ground (arith, h.one_current.0 i key),
    λ i provider key. ground (arith, h.one_current.1 i provider key),
  );
  active_live = λ i e. ground (arith, h.active_live i, restarted-live i a.id q.now a db.analyses);
}

pub with_records-IsSound :
    (db : Db) (f : Db → Db)
    → ((f db).runs ≡ db.runs) × ((f db).artifacts ≡ db.artifacts) × ((f db).analyses ≡ db.analyses)
    → IsSound db
    → IsSound (f db)
with_records-IsSound db f e h = record {
  one_run_id = λ i. rw e.0 (h.one_run_id i);
  one_active = λ i. rw e.0 (h.one_active i);
  one_current = (
    λ i key. rw e.1 (h.one_current.0 i key),
    λ i provider key. rw e.1 (h.one_current.1 i provider key),
  );
  active_live = λ i d. rw e.0 (h.active_live i (ground (arith, ap (λ r. is_live_in r i) e.2)));
}

start_locked-IsSound :
    (q : RunRequest) (db : Db) → IsNew q.run_id db → IsSound db → IsSound (start_locked q db).1
unfolding start_locked
start_locked-IsSound q db new h =
    elim (Result-cases (owned_analysis q.owner_user_id q.analysis_id db)) [
      | inr (x, e) ↦ rw (e, start_locked) h
      | inl (a, e) ↦
          elim (Bool-cases (any (has_key q.owner_user_id run_start q.key_hash) db.records)) [
            | inl used ↦ rw (e, used, start_locked) h
            | inr unused ↦ elim (Result-cases (insert_run a (asked_run q a db) db).0) [
              | inr (x, bad) ↦ rw (e, unused, bad, start_locked) h
              | inl (run, good) ↦
                  let owned = owned-is_live q.owner_user_id q.analysis_id db e in
                  rw (e, unused, good, start_locked)
                    (follow_run-IsSound a q _ (
                      with_records-IsSound (insert_run a (asked_run q a db) db).1
                        (λ d. record d { records = run_record q run.id ∷ d.records })
                        (refl, refl, refl)
                        (insert_run-IsSound a (asked_run q a db) db new (rw owned.1 owned.0) h)))
            ]
          ]
    ]

start_again-IsSound : (q : RunRequest) (db : Db) → IsSound db → IsSound (start_again q db).1
unfolding start_again
start_again-IsSound q db h = record {
  one_run_id = λ i. ground (arith, h.one_run_id i);
  one_active = λ i. ground (arith, h.one_active i);
  one_current = (
    λ i key. ground (arith, h.one_current.0 i key),
    λ i provider key. ground (arith, h.one_current.1 i provider key),
  );
  active_live = λ i e. ground (arith, h.active_live i);
}

retry-IsSound :
    (q : RunRequest) (o : Result PersistenceError (ℕ × Bool) × Db)
    → IsSound o.1
    → IsSound (retry q o).1
retry-IsSound q (ok r, db) h = h
retry-IsSound q (err e, db) h = elim e as (λ k. IsSound (retry q (err k, db)).1) [
  | integrity_error ↦ start_again-IsSound q db h
  | _ ↦ h
]

pub start_run-IsSound :
    (seen : Db) (q : RunRequest) (db : Db)
    → IsNew q.run_id db
    → IsSound db
    → IsSound (start_run seen q db).1
unfolding start_run
start_run-IsSound seen q db new h = elim (Bool-cases (is_active q.state)) [
  | inr off ↦ rw (off, start_run) h
  | inl on ↦
      elim (Option-cases (find (has_key q.owner_user_id run_start q.key_hash) seen.records)) [
        | inr (r, e) ↦ rw (on, e, start_run) h
        | inl gone ↦ elim (Result-cases (owned_analysis q.owner_user_id q.analysis_id seen)) [
          | inr (x, e) ↦ rw (on, gone, e, start_run) h
          | inl (a, e) ↦
              rw (on, gone, e, start_run)
                (retry-IsSound q (start_locked q db) (start_locked-IsSound q db new h))
        ]
      ]
]

pub insert_run-IsNew :
    (a : Analysis) (n : NewRun) (k : ℕ) (db : Db)
    → (n.run_id == k) ≡ false
    → IsNew k db
    → IsNew k (insert_run a n db).1
unfolding insert_run
insert_run-IsNew a n k db apart h = ground (arith, h, apart)

pub insert_run-is_live :
    (a : Analysis) (n : NewRun) (db : Db) (i : ℕ)
    → is_live_in (insert_run a n db).1.analyses i ≡ is_live_in db.analyses i
unfolding insert_run
insert_run-is_live a n db i = ground arith
