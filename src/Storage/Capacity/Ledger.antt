-- ===== src/Storage/Capacity/Ledger.antt =====
-- The life of a process: any sequence of reservations, extensions and releases, each of a live
-- `StorageReservation` object. Objects are kept in the order of their creation.
use court.Base.{
  ℕ, zero, suc, ◌+◌, ◌≡◌, refl, Bool, true, false, Option, none, some, List, [], ◌∷◌, ◌++◌, ok, err,
  ◌==◌, if◌then◌else◌, arith, inl, inr, Option-cases,
}
use court.Storage.Capacity.{
  AdmissionKind, processing, read, CapacityTables, empty_tables, StorageReservation, Request,
  reserve_capacity, extend, release, new_reservation,
}

pub record World : Type 0 where
  pub tables : CapacityTables
  pub reservations : List StorageReservation

abbrev pub start : World
start = record { tables = empty_tables; reservations = [] }

abbrev pub get_elem? {ℓ} : {A : Type ℓ} → List A → ℕ → Option A
get_elem? [] i = none
get_elem? (x ∷ xs) zero = some x
get_elem? (x ∷ xs) (suc i) = get_elem? xs i

abbrev pub set {ℓ} : {A : Type ℓ} → List A → ℕ → A → List A
set [] i v = []
set (x ∷ xs) zero v = v ∷ xs
set (x ∷ xs) (suc i) v = x ∷ set xs i v

pub data Op : Type 0 where
  reserve : Request → Op
  extend_by : ℕ → ℕ → ℕ → ℕ → Op
  release_at : ℕ → Op

abbrev pub on_reserve : World → Request → World
on_reserve w q =
    let (result, t) = reserve_capacity q w.tables in
    elim result [
      | ok (r, status) ↦ record { tables = t; reservations = w.reservations ++ r ∷ [] }
      | err e ↦ record w { tables = t }
    ]

abbrev pub on_extend : World → ℕ → ℕ → ℕ → ℕ → StorageReservation → World
on_extend w i requested hard_stop_free disk_free r =
    let (result, t) = extend r requested hard_stop_free disk_free w.tables in
    elim result [
      | ok r' ↦ record { tables = t; reservations = set w.reservations i r' }
      | err e ↦ record w { tables = t }
    ]

abbrev pub on_release : World → ℕ → StorageReservation → World
on_release w i r =
    let (r', t) = release r w.tables in
    record { tables = t; reservations = set w.reservations i r' }

unfoldable pub apply : World → Op → World
apply w (reserve q) = on_reserve w q
apply w (extend_by i requested hard_stop_free disk_free) = elim (get_elem? w.reservations i) [
  | none ↦ w
  | some r ↦ on_extend w i requested hard_stop_free disk_free r
]
apply w (release_at i) = elim (get_elem? w.reservations i) [ none ↦ w | some r ↦ on_release w i r ]

unfoldable pub run : World → List Op → World
run w [] = w
run w (op ∷ ops) = run (apply w op) ops

-- what a reservation holds of each table at a root
abbrev pub bytes_at : ℕ → StorageReservation → ℕ
bytes_at root r = if r.released then 0 else if root == r.root then r.reserved_bytes else 0

abbrev is_kind : AdmissionKind → AdmissionKind → Bool
is_kind processing processing = true
is_kind read read = true
is_kind _ _ = false

abbrev pub one_at : AdmissionKind → ℕ → StorageReservation → ℕ
one_at kind root r =
    if r.released
    then 0
    else if root == r.root
    then if is_kind kind r.admission then 1 else 0
    else 0

abbrev pub total {ℓ} : {A : Type ℓ} → (A → ℕ) → List A → ℕ
total f [] = 0
total f (x ∷ xs) = f x + total f xs

total-snoc {ℓ} :
    {A : Type ℓ} (f : A → ℕ) (xs : List A) (y : A) → total f (xs ++ y ∷ []) ≡ total f xs + f y
total-snoc f [] y = omega arith
total-snoc f (x ∷ xs) y = omega (arith, total-snoc f xs y)

total-set {ℓ} :
    {A : Type ℓ} (f : A → ℕ) (xs : List A) (i : ℕ) (y : A) {x : A}
    → get_elem? xs i ≡ some x
    → total f (set xs i y) + f x ≡ total f xs + f y
total-set f [] i y e = absurd (cc)
total-set f (z ∷ xs) zero y e = ground arith
total-set f (z ∷ xs) (suc i) y {x} e = omega (arith, total-set f xs i y {x = x} e)

-- Every table holds, at every root, what the reservations that are not released add up to.
pub record IsAccounted (w : World) : Type 0 where
  pub bytes : (root : ℕ) → w.tables.reserved_by_root root ≡ total (bytes_at root) w.reservations
  pub uploads :
      (root : ℕ) → w.tables.active_by_root root ≡ total (one_at processing root) w.reservations
  pub reads :
      (root : ℕ) → w.tables.active_reads_by_root root ≡ total (one_at read root) w.reservations

on_reserve-IsAccounted : (w : World) (q : Request) → IsAccounted w → IsAccounted (on_reserve w q)
unfolding reserve_capacity
on_reserve-IsAccounted w q h = record {
  bytes = λ root.
      ground (arith, h.bytes root, total-snoc (bytes_at root) w.reservations (new_reservation q));
  uploads = λ root. ground (
    arith,
    h.uploads root,
    total-snoc (one_at processing root) w.reservations (new_reservation q),
  );
  reads = λ root.
      ground
        (arith, h.reads root, total-snoc (one_at read root) w.reservations (new_reservation q));
}

abbrev extended : StorageReservation → ℕ → StorageReservation
extended r requested = record r { reserved_bytes = r.reserved_bytes + requested }

on_extend-IsAccounted :
    (w : World) (i requested hard_stop_free disk_free : ℕ) (r : StorageReservation)
    → get_elem? w.reservations i ≡ some r
    → IsAccounted w
    → IsAccounted (on_extend w i requested hard_stop_free disk_free r)
unfolding extend
on_extend-IsAccounted w i requested hard_stop_free disk_free r e h = record {
  bytes = λ root.
      ground
        (arith, h.bytes root, total-set (bytes_at root) w.reservations i (extended r requested) e);
  uploads = λ root. ground (
    arith,
    h.uploads root,
    total-set (one_at processing root) w.reservations i (extended r requested) e,
  );
  reads = λ root.
      ground (
        arith,
        h.reads root,
        total-set (one_at read root) w.reservations i (extended r requested) e,
      );
}

abbrev closed : StorageReservation → StorageReservation
closed r = record r { released = true }

on_release-IsAccounted :
    (w : World) (i : ℕ) (r : StorageReservation)
    → get_elem? w.reservations i ≡ some r
    → IsAccounted w
    → IsAccounted (on_release w i r)
unfolding release
on_release-IsAccounted w i r e h = record {
  bytes = λ root. ground (
    arith,
    h.bytes root,
    total-set (bytes_at root) w.reservations i (closed r) e,
    total-set (bytes_at root) w.reservations i r e,
  );
  uploads = λ root. ground (
    arith,
    h.uploads root,
    total-set (one_at processing root) w.reservations i (closed r) e,
    total-set (one_at processing root) w.reservations i r e,
  );
  reads = λ root. ground (
    arith,
    h.reads root,
    total-set (one_at read root) w.reservations i (closed r) e,
    total-set (one_at read root) w.reservations i r e,
  );
}

apply-IsAccounted : (w : World) (op : Op) → IsAccounted w → IsAccounted (apply w op)
unfolding apply
apply-IsAccounted w (reserve q) h = on_reserve-IsAccounted w q h
apply-IsAccounted w (extend_by i requested hard_stop_free disk_free) h =
    elim (Option-cases (get_elem? w.reservations i)) [
      | inl gone ↦ rw (gone, apply) h
      | inr (r, e) ↦
          rw (e, apply) (on_extend-IsAccounted w i requested hard_stop_free disk_free r e h)
    ]
apply-IsAccounted w (release_at i) h = elim (Option-cases (get_elem? w.reservations i)) [
  | inl gone ↦ rw (gone, apply) h
  | inr (r, e) ↦ rw (e, apply) (on_release-IsAccounted w i r e h)
]

run-IsAccounted : (w : World) (ops : List Op) → IsAccounted w → IsAccounted (run w ops)
unfolding run
run-IsAccounted w [] h = h
run-IsAccounted w (op ∷ ops) h = run-IsAccounted (apply w op) ops (apply-IsAccounted w op h)

-- After any sequence of requests, extensions and releases (in any order, refused and repeated ones
-- included) the reserved bytes and the two counts of every root are exactly what the reservations
-- that are not yet released add up to.
pub ledger_exact : (ops : List Op) → IsAccounted (run start ops)
ledger_exact ops =
    run-IsAccounted start ops
      (record { bytes = λ root. refl; uploads = λ root. refl; reads = λ root. refl })
