-- ===== src/Storage/Capacity/Admission.antt =====
-- What one admission decides, against the limits that it was given.
use court.Base.{ℕ, ◌+◌, ◌≤◌, ◌<◌, ◌≡◌, ◌⊎◌, ok, err, arith}
use court.Storage.Capacity.{
  AdmissionKind, processing, read, value_error, active_limit, over_hard_stop, CapacityTables,
  Request, reserve_capacity, new_reservation, capacity_status, Outcome,
}

abbrev pub running : CapacityTables → ℕ → AdmissionKind → ℕ
running t root processing = t.active_by_root root
running t root read = t.active_reads_by_root root

abbrev pub allowed : Request → AdmissionKind → ℕ
allowed q processing = q.max_active_uploads
allowed q read = q.max_active_reads

-- What an outcome of `reserve_capacity` promises, by how it ended.
abbrev pub Decided : Request → CapacityTables → Outcome → Type 0
Decided q t (ok (r, status), t') =
    (running t' q.root q.admission ≤ allowed q q.admission)
    × (running t' q.root q.admission ≡ running t q.root q.admission + 1)
    × (q.hard_stop_free_bytes + t'.reserved_by_root q.root ≤ q.disk_free)
    × (t'.reserved_by_root q.root ≡ t.reserved_by_root q.root + q.requested_bytes)
    × (r ≡ new_reservation q)
    × (status ≡ capacity_status q t)
Decided q t (err value_error, t') =
    (t' ≡ t) × ((q.max_active_uploads ≡ 0) ⊎ (q.max_active_reads ≡ 0))
Decided q t (err active_limit, t') =
    (t' ≡ t) × (allowed q q.admission ≤ running t q.root q.admission)
Decided q t (err over_hard_stop, t') =
    (t' ≡ t)
    × (q.disk_free < q.hard_stop_free_bytes + t.reserved_by_root q.root + q.requested_bytes)
    × (running t q.root q.admission < allowed q q.admission)
Decided q t (err _, t') = ⊥

-- An accepted request keeps its kind within its limit and leaves, on the disk as it was measured,
-- the hard-stop bytes free behind all reservations; its status is the one that `capacity_status`
-- reports. A refused one changes no table, and its reason is true.
pub reserve_capacity-Decided :
    (q : Request) (t : CapacityTables) → Decided q t (reserve_capacity q t)
unfolding reserve_capacity capacity_status
reserve_capacity-Decided q t = ground arith
