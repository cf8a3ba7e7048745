-- ===== src/Storage/Capacity.antt =====
-- Capacity admission of app/persistence/storage.py: the process-wide tables of `LocalStorage` and
-- the `StorageReservation` objects. A resolved root is a number, only compared; sizes are ℕ, so the
-- tests for a negative size cannot fire. Snapshots, which are only logged, are left out.
pub mod Admission
pub mod Ledger
pub mod Limits
use court.Base.{
  ℕ, suc, ◌+◌, ◌-◌, Bool, true, false, Option, none, some, List, [], ◌∷◌, ◌++◌, Result, ok, err,
  ltb, leb, ◌==◌, if◌then◌else◌,
}

pub data AdmissionKind : Type 0 where
  processing read : AdmissionKind

pub data StatusState : Type 0 where
  available warning hard_stop : StatusState

pub data CapacityError : Type 0 where
  value_error active_limit over_hard_stop released_error : CapacityError

-- `StorageCapacityStatus`
pub record StorageCapacityStatus : Type 0 where
  pub state : StatusState
  pub free_bytes : ℕ
  pub reserved_bytes : ℕ
  pub requested_bytes : ℕ

-- `_reserved_by_root`, `_active_by_root`, `_active_reads_by_root`, each read by `.get(root, 0)`:
-- an entry of 0 and a missing one are the same.
pub record CapacityTables : Type 0 where
  pub reserved_by_root : ℕ → ℕ
  pub active_by_root : ℕ → ℕ
  pub active_reads_by_root : ℕ → ℕ

abbrev pub empty_tables : CapacityTables
empty_tables = record {
  reserved_by_root = λ root. 0;
  active_by_root = λ root. 0;
  active_reads_by_root = λ root. 0;
}

abbrev pub put : ℕ → ℕ → (ℕ → ℕ) → ℕ → ℕ
put root n table k = if k == root then n else table k

-- `StorageReservation`
pub record StorageReservation : Type 0 where
  pub root : ℕ
  pub reserved_bytes : ℕ
  pub admission : AdmissionKind
  pub max_active_uploads : ℕ
  pub max_active_reads : ℕ
  pub released : Bool

-- what a call of `reserve_capacity` is given, with the bytes that the disk has free at the call
pub record Request : Type 0 where
  pub root : ℕ
  pub requested_bytes : ℕ
  pub warning_free_bytes : ℕ
  pub hard_stop_free_bytes : ℕ
  pub max_active_uploads : ℕ
  pub admission : AdmissionKind
  pub max_active_reads : ℕ
  pub disk_free : ℕ

-- `free - reserved - requested < limit` on Python's signed integers
abbrev pub free_after_below : ℕ → ℕ → ℕ → ℕ → Bool
free_after_below free reserved requested limit = ltb free (limit + reserved + requested)

unfoldable pub capacity_status : Request → CapacityTables → StorageCapacityStatus
capacity_status q t = record {
  state =
      if free_after_below q.disk_free (t.reserved_by_root q.root) q.requested_bytes
        q.hard_stop_free_bytes
      then hard_stop
      else if free_after_below q.disk_free (t.reserved_by_root q.root) q.requested_bytes
          q.warning_free_bytes
      then warning
      else available;
  free_bytes = q.disk_free;
  reserved_bytes = t.reserved_by_root q.root;
  requested_bytes = q.requested_bytes;
}

abbrev pub at_limit : Request → CapacityTables → AdmissionKind → Bool
at_limit q t processing = leb q.max_active_uploads (t.active_by_root q.root)
at_limit q t read = leb q.max_active_reads (t.active_reads_by_root q.root)

-- the three table writes of an accepted request
abbrev pub record_admission : Request → CapacityTables → AdmissionKind → CapacityTables
record_admission q t processing = record t {
  reserved_by_root = put q.root (t.reserved_by_root q.root + q.requested_bytes) t.reserved_by_root;
  active_by_root = put q.root (t.active_by_root q.root + 1) t.active_by_root;
}
record_admission q t read = record t {
  reserved_by_root = put q.root (t.reserved_by_root q.root + q.requested_bytes) t.reserved_by_root;
  active_reads_by_root = put q.root (t.active_reads_by_root q.root + 1) t.active_reads_by_root;
}

abbrev pub new_reservation : Request → StorageReservation
new_reservation q = record {
  root = q.root;
  reserved_bytes = q.requested_bytes;
  admission = q.admission;
  max_active_uploads = q.max_active_uploads;
  max_active_reads = q.max_active_reads;
  released = false;
}

abbrev pub Outcome : Type 0
Outcome = Result CapacityError (StorageReservation × StorageCapacityStatus) × CapacityTables

unfoldable pub reserve_capacity : Request → CapacityTables → Outcome
reserve_capacity q t =
    if ltb q.max_active_uploads 1
    then (err value_error, t)
    else if ltb q.max_active_reads 1
    then (err value_error, t)
    else if at_limit q t q.admission
    then (err active_limit, t)
    else if free_after_below q.disk_free (t.reserved_by_root q.root) q.requested_bytes
        q.hard_stop_free_bytes
    then (err over_hard_stop, t)
    else (
      ok (
        new_reservation q,
        record {
          state =
              if free_after_below q.disk_free (t.reserved_by_root q.root) q.requested_bytes
                q.warning_free_bytes
              then warning
              else available;
          free_bytes = q.disk_free;
          reserved_bytes = t.reserved_by_root q.root;
          requested_bytes = q.requested_bytes;
        },
      ),
      record_admission q t q.admission,
    )

-- `_extend_capacity`, whose disk has `disk_free` bytes free
unfoldable pub extend_capacity :
    ℕ → ℕ → ℕ → ℕ → CapacityTables → Result CapacityError (Unit {0}) × CapacityTables
extend_capacity root requested hard_stop_free disk_free t =
    if requested == 0
    then (ok tt, t)
    else if free_after_below disk_free (t.reserved_by_root root) requested hard_stop_free
    then (err over_hard_stop, t)
    else (
      ok tt,
      record t {
        reserved_by_root = put root (t.reserved_by_root root + requested) t.reserved_by_root;
      },
    )

-- `_release_capacity`: `max(0, a - b)` is the truncated `-`
unfoldable pub release_capacity : ℕ → ℕ → AdmissionKind → CapacityTables → CapacityTables
release_capacity root bytes processing t = record t {
  reserved_by_root = put root (t.reserved_by_root root - bytes) t.reserved_by_root;
  active_by_root = put root (t.active_by_root root - 1) t.active_by_root;
}
release_capacity root bytes read t = record t {
  reserved_by_root = put root (t.reserved_by_root root - bytes) t.reserved_by_root;
  active_reads_by_root = put root (t.active_reads_by_root root - 1) t.active_reads_by_root;
}

-- `StorageReservation.release`
unfoldable pub release : StorageReservation → CapacityTables → StorageReservation × CapacityTables
unfolding release_capacity
release r t =
    if r.released
    then (r, t)
    else (record r { released = true }, release_capacity r.root r.reserved_bytes r.admission t)

-- `StorageReservation.extend`
unfoldable pub extend :
    StorageReservation
    → ℕ
    → ℕ
    → ℕ
    → CapacityTables
    → Result CapacityError StorageReservation × CapacityTables
unfolding extend_capacity
extend r requested hard_stop_free disk_free t =
    if r.released
    then (err released_error, t)
    else (let (result, t') = extend_capacity r.root requested hard_stop_free disk_free t in
        elim result [
          | ok _ ↦ (ok (record r { reserved_bytes = r.reserved_bytes + requested }), t')
          | err e ↦ (err e, t')
        ])
