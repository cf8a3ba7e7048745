-- ===== src/Auth/Text.antt =====
-- The text checks of app/auth/service.py, for text in ASCII: `normalize_email`, the new-password
-- rule, the display name and the parsing of a refresh token.
use court.Base.{
  ℕ, ◌+◌, Bool, true, false, Option, none, some, [], ◌∷◌, Result, ok, err, ltb, leb, ◌==◌, ◌&&◌,
  ◌||◌, not, if◌then◌else◌,
}
use court.Base.Table.{length, any}
use court.Auth.{Text, Env, AuthError, invalid_registration, invalid_display_name, invalid_session}

-- `str.isspace` and `\s` on ASCII
abbrev pub is_space : ℕ → Bool
is_space c = (leb 9 c && leb c 13) || (leb 28 c && leb c 32)

unfoldable pub casefold : ℕ → ℕ
casefold c = if leb b'A' c && leb c b'Z' then c + 32 else c

unfoldable pub fold_case : Text → Text
unfolding casefold
fold_case [] = []
fold_case (c ∷ cs) = casefold c ∷ fold_case cs

unfoldable pub strip_left : Text → Text
strip_left [] = []
strip_left (c ∷ cs) = let rest = strip_left cs in if is_space c then rest else c ∷ cs

-- a text of spaces alone becomes empty
unfoldable pub strip_right : Text → Text
strip_right [] = []
strip_right (c ∷ cs) =
    let rest = strip_right cs in
    elim rest [ [] ↦ if is_space c then [] else c ∷ [] | d ∷ ds ↦ c ∷ d ∷ ds ]

unfoldable pub strip : Text → Text
unfolding strip_left strip_right
strip text = strip_right (strip_left text)

-- `[^@\s]`
abbrev pub is_address_char : ℕ → Bool
is_address_char c = not (c == b'@') && not (is_space c)

unfoldable pub all_address : Text → Bool
all_address [] = true
all_address (c ∷ cs) = is_address_char c && all_address cs

-- a `.` with `[^@\s]+` behind it, in what follows the first character of the domain
unfoldable pub dot_then_some : Text → Bool
unfolding all_address
dot_then_some [] = false
dot_then_some (c ∷ []) = false
dot_then_some (c ∷ d ∷ cs) =
    is_address_char c && ((c == b'.' && all_address (d ∷ cs)) || dot_then_some (d ∷ cs))

unfoldable pub is_domain : Text → Bool
unfolding dot_then_some
is_domain [] = false
is_domain (c ∷ cs) = is_address_char c && dot_then_some cs

-- `[^@\s]*@domain`
unfoldable pub rest_of_local : Text → Bool
unfolding is_domain
rest_of_local [] = false
rest_of_local (c ∷ cs) = if c == b'@' then is_domain cs else is_address_char c && rest_of_local cs

-- `EMAIL_PATTERN.fullmatch`
unfoldable pub matches_email : Text → Bool
unfolding rest_of_local
matches_email [] = false
matches_email (c ∷ cs) = is_address_char c && rest_of_local cs

unfoldable pub normalize_email : Text → Result AuthError Text
unfolding strip fold_case matches_email
normalize_email value =
    let normalized = fold_case (strip value) in
    if ltb 320 (length normalized) || not (matches_email normalized)
    then err invalid_registration
    else ok normalized

-- `_validate_new_password`, which raises with the code that it is given
unfoldable pub validate_new_password : Env → AuthError → Text → Result AuthError (Unit {0})
validate_new_password env code password =
    if any (λ c. c == 0) password
    then err code
    else if ltb (length password) env.auth_min_password_length
    then err code
    else if ltb env.auth_max_password_length (length password)
    then err code
    else ok tt

-- `" ".join(text.split())`: `after` says that a word has ended since the last character written
unfoldable pub join_words : Bool → Text → Text
join_words after [] = []
join_words after (c ∷ cs) =
    let later = join_words true cs in
    let now = c ∷ join_words false cs in
    if is_space c then later else if after then b' ' ∷ now else now

unfoldable pub normalize_name : Text → Text
unfolding join_words strip_left
normalize_name text = join_words false (strip_left text)

-- the check of `complete_onboarding`
unfoldable pub validate_name : Text → Result AuthError Text
unfolding normalize_name
validate_name display_name =
    let normalized = normalize_name display_name in
    if length normalized == 0 || ltb 36 (length normalized) || any (λ c. ltb c 32) normalized
    then err invalid_display_name
    else ok normalized

-- `raw_token.split(".", 1)`, where there is a dot
unfoldable pub split_dot : Text → Option (Text × Text)
split_dot [] = none
split_dot (c ∷ cs) =
    let rest = split_dot cs in
    if c == b'.'
    then some ([], cs)
    else elim rest [ none ↦ none | some (head, tail) ↦ some (c ∷ head, tail) ]

abbrev session_of : Env → Option (Text × Text) → Result AuthError ℕ
session_of env none = err invalid_session
session_of env (some (session_id, secret)) =
    if ltb (length secret) 32
    then err invalid_session
    else elim (env.parse_uuid session_id) [ none ↦ err invalid_session | some i ↦ ok i ]

-- `_parse_refresh_session_id`
unfoldable pub parse_refresh_session_id : Env → Option Text → Result AuthError ℕ
unfolding split_dot
parse_refresh_session_id env none = err invalid_session
parse_refresh_session_id env (some raw) =
    if length raw == 0 || ltb 256 (length raw)
    then err invalid_session
    else session_of env (split_dot raw)
