-- ===== src/Persistence/Prefix.antt =====
-- `stage_artifact_prefix`: the namespace of the artifacts of one attempt, with its number in decimal.
use court.Base.{
  ℕ, zero, suc, ◌+◌, ◌/◌, ◌%◌, Bool, true, false, List, [], ◌∷◌, ◌++◌, ltb, leb, ◌==◌,
  if◌then◌else◌, Result, ok, err, not, ◌&&◌, ◌||◌,
}
use court.Base.Text.{text, same_text}
use court.Base.Table.{length}
use court.Persistence.{PersistenceError, value_error}

abbrev pub is_lower : ℕ → Bool
is_lower c = leb b'a' c && leb c b'z'

abbrev pub is_stage_char : ℕ → Bool
is_stage_char c = is_lower c || (leb b'0' c && leb c b'9') || c == b'_'

abbrev pub all_stage_chars : List ℕ → Bool
all_stage_chars [] = true
all_stage_chars (c ∷ cs) = is_stage_char c && all_stage_chars cs

-- `_STAGE_TYPE_PATTERN`
abbrev pub is_stage_type : List ℕ → Bool
is_stage_type [] = false
is_stage_type (c ∷ cs) = is_lower c && all_stage_chars cs && leb (length cs) 63

-- the digits of `n` in front of `rest`; the recursion is on fuel
abbrev pub digits : ℕ → ℕ → List ℕ → List ℕ
digits zero n rest = rest
digits (suc fuel) n rest =
    let more = digits fuel (n / 10) ((b'0' + n % 10) ∷ rest) in
    if ltb n 10 then (b'0' + n) ∷ rest else more

abbrev pub zeros : ℕ → List ℕ → List ℕ
zeros zero ds = ds
zeros (suc n) ds = b'0' ∷ zeros n ds

-- `{n:04d}`
unfoldable pub padded : ℕ → List ℕ
padded n =
    zeros (if ltb n 10 then 3 else if ltb n 100 then 2 else if ltb n 1000 then 1 else 0)
      (digits (n + 1) n [])

unfoldable pub stage_root : List ℕ → List ℕ
stage_root stage_type =
    if same_text stage_type (text "ball_tracking")
    then text "ball"
    else text "stages/" ++ stage_type

-- the text that is formatted, behind the tests
unfoldable pub attempt_prefix : List ℕ → ℕ → List ℕ
attempt_prefix stage_type attempt =
    stage_root stage_type ++ (text "/attempt-" ++ (padded attempt ++ text "/"))

unfoldable pub stage_artifact_prefix : List ℕ → ℕ → Result PersistenceError (List ℕ)
stage_artifact_prefix stage_type attempt =
    if not (is_stage_type stage_type)
    then err value_error
    else if ltb attempt 1
    then err value_error
    else ok (attempt_prefix stage_type attempt)
