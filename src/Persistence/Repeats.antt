-- ===== src/Persistence/Repeats.antt =====
-- A reservation that is sent again with its key.
use court.Base.{
  ◌≡◌, refl, ap, sym, ◌∙◌, inl, inr, true, false, some, Result, ok, err, ◌||◌, arith, Bool-cases,
  Option-cases, Result-cases, ==_refl,
}
use court.Base.Table.{find, any}
use court.Persistence.{
  Analysis, Db, PersistenceError, integrity_error, IdempotencyRecord, analysis_upload,
  analysis_resource, has_analysis_id, owned_analysis,
}
use court.Persistence.Runs.{insert_run, has_key}
use court.Persistence.Saves.{insert_run-analyses}
use court.Persistence.Reserve.{
  Reservation, ReservationResult, earlier, resolve_reservation, upload_record, new_analysis,
  first_run, with_reservation, create_analysis, refer_to, reserve_locked, reserve_again,
  retry_reservation, reserve_analysis, find_duplicate,
}

-- the record under the key names the analysis, and the analysis is there
HasReserved : Reservation → Db → Type 0
HasReserved q db =
    (find (has_key q.owner_user_id analysis_upload q.key_hash) db.records
      ≡ some (upload_record q (analysis_resource q.analysis_id) false))
    × (find (has_analysis_id q.analysis_id) db.analyses ≡ some (new_analysis q))

repeated :
    (q : Reservation) (db : Db)
    → HasReserved q db
    → reserve_analysis db q db ≡ (ok (earlier q.analysis_id false), db)
unfolding reserve_analysis resolve_reservation owned_analysis HasReserved
repeated q db h =
    rw (h.0, reserve_analysis) (ground (arith, h.1, ==_refl q.fingerprint, ==_refl q.owner_user_id))

create_analysis-HasReserved :
    (q : Reservation) (db : Db) (r : ReservationResult)
    → (create_analysis q db).0 ≡ ok r
    → HasReserved q (create_analysis q db).1 × (r.analysis_id ≡ q.analysis_id)
unfolding create_analysis HasReserved
create_analysis-HasReserved q db r e =
    elim (Bool-cases (
      any (has_key q.owner_user_id analysis_upload q.key_hash) db.records
      || any (has_analysis_id q.analysis_id) db.analyses)) [
        | inl used ↦ absurd (ground (arith, used))
        | inr unused ↦
            elim (Result-cases
              (insert_run (new_analysis q) (first_run q) (with_reservation q db)).0) [
                | inr (x, bad) ↦ absurd (ground (arith, unused, bad))
                | inl (run, good) ↦ (
                  (
                    ground (arith, unused, good, ==_refl q.owner_user_id, ==_refl q.key_hash),
                    ground (
                      arith,
                      unused,
                      good,
                      insert_run-analyses (new_analysis q) (first_run q) (with_reservation q db),
                      ==_refl q.analysis_id,
                    ),
                  ),
                  ground (arith, unused, good),
                )
              ]
      ]

resolve-created :
    (q : Reservation) (db : Db) (row : IdempotencyRecord) (r : ReservationResult)
    → resolve_reservation q db row ≡ ok r
    → r.created ≡ false
unfolding resolve_reservation
resolve-created q db row r e = ground arith

-- A call that created an analysis ran the inserts.
Creates : Reservation → Result PersistenceError ReservationResult × Db → Type 0
Creates q (ok r, db) = r.created ≡ true → HasReserved q db × (r.analysis_id ≡ q.analysis_id)
Creates q (err e, db) = Unit

create_analysis-Creates : (q : Reservation) (db : Db) → Creates q (create_analysis q db)
create_analysis-Creates q db = made (create_analysis q db) (create_analysis-HasReserved q db)
  where
    made :
        (o : Result PersistenceError ReservationResult × Db)
        → ((r : ReservationResult)
            → o.0 ≡ ok r
            → HasReserved q o.1 × (r.analysis_id ≡ q.analysis_id))
        → Creates q o
    made (ok r, d) f = unfold Creates in (λ h. f r refl)
    made (err e, d) f = unfold Creates in tt

refer_to-Creates : (q : Reservation) (a : Analysis) (db : Db) → Creates q (refer_to q a db)
unfolding refer_to Creates
refer_to-Creates q a db =
    elim (Bool-cases (any (has_key q.owner_user_id analysis_upload q.key_hash) db.records)) [
      | inl used ↦ rw (used, refer_to) tt
      | inr unused ↦ rw (unused, refer_to) (λ h. absurd (ground (arith, h)))
    ]

reserve_locked-Creates : (q : Reservation) (db : Db) → Creates q (reserve_locked q db)
unfolding reserve_locked
reserve_locked-Creates q db = elim (Bool-cases q.allow_duplicate) [
  | inl always ↦ simp (always) (create_analysis-Creates q db)
  | inr unless ↦ elim (Option-cases (find_duplicate q db)) [
    | inl gone ↦ simp (unless, gone) (create_analysis-Creates q db)
    | inr (a, there) ↦ simp (unless, there) (refer_to-Creates q a db)
  ]
]

resolved-Creates :
    (q : Reservation) (db d : Db) (row : IdempotencyRecord)
    → Creates q (resolve_reservation q db row, d)
unfolding Creates
resolved-Creates q db d row = elim (Result-cases (resolve_reservation q db row)) [
  | inl (r, e) ↦ rw e (λ h. absurd (ground (arith, h, resolve-created q db row r e)))
  | inr (x, e) ↦ rw e tt
]

reserve_again-Creates : (q : Reservation) (db : Db) → Creates q (reserve_again q db)
unfolding reserve_again
reserve_again-Creates q db =
    elim (Option-cases (find (has_key q.owner_user_id analysis_upload q.key_hash) db.records)) [
      | inl gone ↦ rw (gone, reserve_again) (unfold Creates in tt)
      | inr (row, there) ↦ rw (there, reserve_again) (resolved-Creates q db db row)
    ]

retry-Creates :
    (q : Reservation) (o : Result PersistenceError ReservationResult × Db)
    → Creates q o
    → Creates q (retry_reservation q o)
retry-Creates q (ok r, db) h = h
retry-Creates q (err e, db) h = elim e as (λ k. Creates q (retry_reservation q (err k, db))) [
  | integrity_error ↦ reserve_again-Creates q db
  | _ ↦ unfold Creates in tt
]

reserve_analysis-Creates :
    (seen : Db) (q : Reservation) (db : Db) → Creates q (reserve_analysis seen q db)
unfolding reserve_analysis
reserve_analysis-Creates seen q db =
    elim (Option-cases (find (has_key q.owner_user_id analysis_upload q.key_hash) seen.records)) [
      | inr (row, there) ↦ rw (there, reserve_analysis) (resolved-Creates q seen db row)
      | inl gone ↦
          rw (gone, reserve_analysis)
            (retry-Creates q (reserve_locked q db) (reserve_locked-Creates q db))
    ]

-- A reservation is idempotent: when a call that created an analysis is sent again with its key, the
-- answer is that analysis, marked as not new, and nothing is written.
pub reserve_repeats :
    (seen : Db) (q : Reservation) (db : Db) (r : ReservationResult)
    → (reserve_analysis seen q db).0 ≡ ok r
    → r.created ≡ true
    → reserve_analysis (reserve_analysis seen q db).1 q (reserve_analysis seen q db).1
      ≡ (ok (earlier r.analysis_id false), (reserve_analysis seen q db).1)
unfolding Creates
reserve_repeats seen q db r e new =
    said (reserve_analysis seen q db) (reserve_analysis-Creates seen q db) e
  where
    said :
        (o : Result PersistenceError ReservationResult × Db)
        → Creates q o
        → o.0 ≡ ok r
        → reserve_analysis o.1 q o.1 ≡ (ok (earlier r.analysis_id false), o.1)
    said (ok s, d) f same =
        let eq : s ≡ r = ground (arith, same) in
        let (kept, id) = f (ap (λ x. x.created) eq ∙ new) in
        repeated q d kept
        ∙ ap (λ i. (ok (earlier i false), d)) (sym id ∙ ap (λ x. x.analysis_id) eq)
    said (err x, d) f same = absurd (ground arith)
