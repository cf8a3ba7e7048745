-- ===== src/Persistence/Tests.antt =====
-- The rules of the persistence service on small tables.
use court.Base.{ℕ, ◌≡◌, refl}
use court.Base.Text.{text}
use court.Persistence.Prefix.{padded, stage_root, attempt_prefix, stage_artifact_prefix}
use court.Persistence.Namespaces.{namespaces_disjoint}

abbrev attempt_number : ℕ
attempt_number = 12

namespaces_disjoint_example :
    (text "ball_tracking" ≡ text "ball_tracking") × (attempt_number ≡ attempt_number)
unfolding stage_artifact_prefix attempt_prefix stage_root padded
namespaces_disjoint_example =
    namespaces_disjoint (text "ball_tracking") (text "ball_tracking") 12 12
      (text "ball/attempt-0012/") (text "ball/attempt-0012/") (text "ball/attempt-0012/tracks.json")
      refl refl refl refl
