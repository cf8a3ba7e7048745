-- ===== src/Storage/Tests.antt =====
-- Uploads and reads at one root.
use court.Base.{◌≤◌, ◌≡◌, refl, arith, List, [], ◌∷◌}
use court.Storage.Capacity.{
  processing, read, Request, empty_tables, reserve_capacity, extend, release,
}
use court.Storage.Capacity.Admission.{running, Decided, reserve_capacity-Decided}
use court.Storage.Capacity.Ledger.{
  start, Op, reserve, extend_by, release_at, apply, run, IsAccounted, ledger_exact,
}
use court.Storage.Capacity.Limits.{limits_hold}

abbrev upload : Request
upload = record {
  root = 1;
  requested_bytes = 40;
  warning_free_bytes = 30;
  hard_stop_free_bytes = 10;
  max_active_uploads = 2;
  admission = processing;
  max_active_reads = 1;
  disk_free = 100;
}

-- an upload that is released twice, one that fits beside it, one over the hard stop, and a read
abbrev ops : List Op
ops =
    reserve upload
    ∷ reserve upload
    ∷ release_at 0
    ∷ extend_by 1 10 10 100
    ∷ release_at 0
    ∷ reserve (record upload { requested_bytes = 80 })
    ∷ reserve (record upload { admission = read })
    ∷ []

reserved_example : (run start ops).tables.reserved_by_root 1 ≡ 90
unfolding run apply reserve_capacity extend release
reserved_example = refl

ledger_exact_example : IsAccounted (run start ops)
ledger_exact_example = ledger_exact ops

limits_hold_example : running (run start ops).tables 1 processing ≤ 2
limits_hold_example =
    limits_hold 2 ops (omega arith, (omega arith, (omega arith, (omega arith, tt)))) 1 processing

reserve_capacity-Decided_example :
    Decided upload empty_tables (reserve_capacity upload empty_tables)
reserve_capacity-Decided_example = reserve_capacity-Decided upload empty_tables
