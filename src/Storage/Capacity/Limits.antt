-- ===== src/Storage/Capacity/Limits.antt =====
-- The limits on concurrent admissions hold over the whole life of a process.
use court.Base.{ℕ, ◌≤◌, inl, inr, List, [], ◌∷◌, Option-cases, arith}
use court.Storage.Capacity.{
  AdmissionKind, processing, read, CapacityTables, StorageReservation, Request, reserve_capacity,
  extend, release,
}
use court.Storage.Capacity.Admission.{running, allowed}
use court.Storage.Capacity.Ledger.{
  World, start, Op, reserve, extend_by, release_at, get_elem?, on_reserve, on_extend, on_release,
  apply, run,
}

-- every request of the list has at most `m` as its limit for its own kind
abbrev pub AllowsAtMost : ℕ → List Op → Type 0
AllowsAtMost m [] = Unit
AllowsAtMost m (reserve q ∷ ops) = (allowed q q.admission ≤ m) × AllowsAtMost m ops
AllowsAtMost m (extend_by i a b c ∷ ops) = AllowsAtMost m ops
AllowsAtMost m (release_at i ∷ ops) = AllowsAtMost m ops

abbrev IsWithin : ℕ → CapacityTables → Type 0
IsWithin m t = (root : ℕ) (kind : AdmissionKind) → running t root kind ≤ m

on_reserve-IsWithin :
    (m : ℕ) (w : World) (q : Request)
    → allowed q q.admission ≤ m
    → IsWithin m w.tables
    → IsWithin m (on_reserve w q).tables
unfolding reserve_capacity
on_reserve-IsWithin m w q l h root processing = ground (arith, h root processing)
on_reserve-IsWithin m w q l h root read = ground (arith, h root read)

on_extend-IsWithin :
    (m : ℕ) (w : World) (i a b c : ℕ) (r : StorageReservation)
    → IsWithin m w.tables
    → IsWithin m (on_extend w i a b c r).tables
unfolding extend
on_extend-IsWithin m w i a b c r h root processing = ground (arith, h root processing)
on_extend-IsWithin m w i a b c r h root read = ground (arith, h root read)

on_release-IsWithin :
    (m : ℕ) (w : World) (i : ℕ) (r : StorageReservation)
    → IsWithin m w.tables
    → IsWithin m (on_release w i r).tables
unfolding release
on_release-IsWithin m w i r h root processing = ground (arith, h root processing)
on_release-IsWithin m w i r h root read = ground (arith, h root read)

run-IsWithin :
    (m : ℕ) (ops : List Op) (w : World)
    → AllowsAtMost m ops
    → IsWithin m w.tables
    → IsWithin m (run w ops).tables
unfolding run apply
run-IsWithin m [] w a h = h
run-IsWithin m (reserve q ∷ ops) w a h =
    run-IsWithin m ops (on_reserve w q) a.1 (on_reserve-IsWithin m w q a.0 h)
run-IsWithin m (extend_by i x y z ∷ ops) w a h =
    run-IsWithin m ops (apply w (extend_by i x y z)) a
      (elim (Option-cases (get_elem? w.reservations i)) [
        | inl gone ↦ rw (gone, apply) h
        | inr (r, e) ↦ rw (e, apply) (on_extend-IsWithin m w i x y z r h)
      ])
run-IsWithin m (release_at i ∷ ops) w a h =
    run-IsWithin m ops (apply w (release_at i)) a
      (elim (Option-cases (get_elem? w.reservations i)) [
        | inl gone ↦ rw (gone, apply) h
        | inr (r, e) ↦ rw (e, apply) (on_release-IsWithin m w i r h)
      ])

-- If no request allows more than `m` admissions of its kind, then after any sequence of operations
-- at most `m` uploads and at most `m` reads are admitted at any root.
pub limits_hold :
    (m : ℕ) (ops : List Op)
    → AllowsAtMost m ops
    → (root : ℕ) (kind : AdmissionKind) → running (run start ops).tables root kind ≤ m
limits_hold m ops a =
    run-IsWithin m ops start a (λ root. elim [ processing ↦ omega arith | read ↦ omega arith ])
