-- ===== src/Persistence/Sound/Reserve.antt =====
-- The reservation of an analysis, which adds a live analysis with its first run.
use court.Base.{
  ◌≡◌, refl, inl, inr, true, false, ◌∷◌, Result, ok, err, ◌||◌, arith, Bool-cases, Option-cases,
  Result-cases, ==_refl,
}
use court.Base.Table.{find, any}
use court.Persistence.{
  Analysis, Db, PersistenceError, integrity_error, analysis_upload, analysis_resource,
  exact_duplicate, has_analysis_id,
}
use court.Persistence.Runs.{insert_run, has_key}
use court.Persistence.Reserve.{
  Reservation, ReservationResult, new_analysis, upload_record, find_duplicate, create_analysis,
  first_run, with_reservation, refer_to, reserve_locked, reserve_again, retry_reservation,
  reserve_analysis,
}
use court.Persistence.Sound.{IsSound}
use court.Persistence.Sound.Runs.{IsNew, insert_run-IsSound, with_records-IsSound}

with_reservation-IsSound :
    (q : Reservation) (db : Db) → IsSound db → IsSound (with_reservation q db)
with_reservation-IsSound q db h = record {
  one_run_id = h.one_run_id;
  one_active = h.one_active;
  one_current = h.one_current;
  active_live = λ i e. h.active_live i (ground arith);
}

create_analysis-IsSound :
    (q : Reservation) (db : Db) → IsNew q.run_id db → IsSound db → IsSound (create_analysis q db).1
unfolding create_analysis
create_analysis-IsSound q db new h =
    elim (Bool-cases (
      any (has_key q.owner_user_id analysis_upload q.key_hash) db.records
      || any (has_analysis_id q.analysis_id) db.analyses)) [
        | inl used ↦ rw (used, create_analysis) h
        | inr unused ↦
            elim (Result-cases
              (insert_run (new_analysis q) (first_run q) (with_reservation q db)).0) [
                | inr (x, bad) ↦ rw (unused, bad, create_analysis) h
                | inl (run, good) ↦
                    rw (unused, good, create_analysis)
                      (with_records-IsSound
                        (insert_run (new_analysis q) (first_run q) (with_reservation q db)).1
                        (λ d. record d {
                          records =
                              upload_record q (analysis_resource q.analysis_id) false ∷ d.records;
                        })
                        (refl, refl, refl)
                        (insert_run-IsSound (new_analysis q) (first_run q) (with_reservation q db)
                          new (ground (arith, ==_refl q.analysis_id))
                          (with_reservation-IsSound q db h)))
              ]
      ]

refer_to-IsSound :
    (q : Reservation) (a : Analysis) (db : Db) → IsSound db → IsSound (refer_to q a db).1
unfolding refer_to
refer_to-IsSound q a db h =
    elim (Bool-cases (any (has_key q.owner_user_id analysis_upload q.key_hash) db.records)) [
      | inl used ↦ rw (used, refer_to) h
      | inr unused ↦
          rw (unused, refer_to)
            (with_records-IsSound db
              (λ d. record d { records = upload_record q (exact_duplicate a.id) true ∷ d.records })
              (refl, refl, refl) h)
    ]

reserve_locked-IsSound :
    (q : Reservation) (db : Db) → IsNew q.run_id db → IsSound db → IsSound (reserve_locked q db).1
unfolding reserve_locked
reserve_locked-IsSound q db new h = elim (Bool-cases q.allow_duplicate) [
  | inl always ↦ simp (always) (create_analysis-IsSound q db new h)
  | inr unless ↦ elim (Option-cases (find_duplicate q db)) [
    | inl gone ↦ simp (unless, gone) (create_analysis-IsSound q db new h)
    | inr (a, there) ↦ simp (unless, there) (refer_to-IsSound q a db h)
  ]
]

reserve_again-rows : (q : Reservation) (db : Db) → (reserve_again q db).1 ≡ db
unfolding reserve_again
reserve_again-rows q db =
    elim (Option-cases (find (has_key q.owner_user_id analysis_upload q.key_hash) db.records)) [
      | inl gone ↦ rw (gone, reserve_again) refl
      | inr (r, there) ↦ rw (there, reserve_again) refl
    ]

retry_reservation-IsSound :
    (q : Reservation) (o : Result PersistenceError ReservationResult × Db)
    → IsSound o.1
    → IsSound (retry_reservation q o).1
retry_reservation-IsSound q (ok r, db) h = h
retry_reservation-IsSound q (err e, db) h =
    elim e as (λ k. IsSound (retry_reservation q (err k, db)).1) [
      | integrity_error ↦ rw (reserve_again-rows q db) h
      | _ ↦ h
    ]

pub reserve_analysis-IsSound :
    (seen : Db) (q : Reservation) (db : Db)
    → IsNew q.run_id db
    → IsSound db
    → IsSound (reserve_analysis seen q db).1
unfolding reserve_analysis
reserve_analysis-IsSound seen q db new h =
    elim (Option-cases (find (has_key q.owner_user_id analysis_upload q.key_hash) seen.records)) [
      | inr (r, there) ↦ rw (there, reserve_analysis) h
      | inl gone ↦
          rw (gone, reserve_analysis)
            (retry_reservation-IsSound q (reserve_locked q db) (reserve_locked-IsSound q db new h))
    ]
