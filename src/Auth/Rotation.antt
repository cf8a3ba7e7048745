-- ===== src/Auth/Rotation.antt =====
-- What `refresh` grants, and what a token that was used before costs.
use court.Base.{
  ℕ, ◌≡◌, true, Option, some, List, [], ◌∷◌, ◌++◌, ok, err, ◌&&◌, is_some, if◌then◌else◌, arith, ap,
  sym, ◌∙◌, inl, inr, Option-cases, Result-cases,
}
use court.Base.Table.{find, find_holds, count, update_where, count-update_none}
use court.Auth.{
  Text, Env, Store, User, RefreshSession, FreshSession, SessionTokens, in_family, revoked, retired,
  has_session_id, has_user_id, is_valid_session, is_active, invalid_session, refresh_token_reuse,
}
use court.Auth.Text.{parse_refresh_session_id}
use court.Auth.Issue.{new_session, tokens_of}
use court.Auth.Refresh.{was_rotated, refresh}

-- The token names a session whose row, read under the lock, is `r`.
pub record Presents (env : Env) (seen s : Store) (raw : Text) (r : RefreshSession) : Type 0 where
  pub id : ℕ
  pub candidate : RefreshSession
  pub parsed : parse_refresh_session_id env (some raw) ≡ ok id
  pub seen_row : find (has_session_id id) seen.refresh_sessions ≡ some candidate
  pub seen_hash : candidate.token_hash ≡ env.token_hash raw
  pub locked_row : find (has_session_id id) s.refresh_sessions ≡ some r
  pub locked_hash : r.token_hash ≡ env.token_hash raw

reuse_closes :
    (now : ℕ) (r : RefreshSession) (rs : List RefreshSession)
    → count
        (in_family r.token_family_id)
        (update_where (in_family r.token_family_id) (revoked now refresh_token_reuse) rs)
      ≡ 0
reuse_closes now r rs =
    count-update_none (in_family r.token_family_id) (in_family r.token_family_id)
      (revoked now refresh_token_reuse) (λ x. ground arith) (λ x h. h) rs

-- A token whose session was already rotated away is refused with `invalid_session`, and after the
-- call no session of its family is unrevoked: the thief and the owner are both signed out.
pub refresh_reuse :
    (env : Env) (seen : Store) (raw : Text) (agent : Option Text) (now : ℕ) (fresh : FreshSession)
    (s : Store) (r : RefreshSession)
    → Presents env seen s raw r
    → is_some r.revoked_at ≡ true
    → was_rotated r ≡ true
    → ((refresh env seen (some raw) agent now fresh s).0 ≡ err invalid_session)
      × (count
            (in_family r.token_family_id)
            (refresh env seen (some raw) agent now fresh s).1.refresh_sessions
          ≡ 0)
unfolding refresh
refresh_reuse env seen raw agent now fresh s r h gone used =
    ground (arith, h.parsed, h.seen_row, h.locked_row, reuse_closes now r s.refresh_sessions)

-- the effect of a rotation on the table
abbrev pub Rotated :
    Env → User → Option Text → ℕ → FreshSession → RefreshSession → Store → Store → Type 0
Rotated env user agent now fresh r s s' = s' ≡ record s {
  refresh_sessions =
      update_where (has_session_id r.id) (retired now fresh.session_id) s.refresh_sessions
      ++ new_session env user agent r.token_family_id fresh ∷ [];
}

-- Where the token names row `r`, and the account of the session that was found first is `user`,
-- `refresh` grants that account a session if `r` is unrevoked and unexpired and the account is
-- active, and is refused with `invalid_session` in every other case.
pub refresh_decides :
    (env : Env) (seen : Store) (raw : Text) (agent : Option Text) (now : ℕ) (fresh : FreshSession)
    (s : Store) (r : RefreshSession) (user : User)
    → (h : Presents env seen s raw r) → find (has_user_id h.candidate.user_id) s.users ≡ some user
    → (refresh env seen (some raw) agent now fresh s).0 ≡ (
        if is_valid_session (env.token_hash raw) now r && is_active user
        then ok (user, tokens_of env user fresh)
        else err invalid_session)
unfolding refresh
refresh_decides env seen raw agent now fresh s r user h u =
    ground (arith, h.parsed, h.seen_row, h.locked_row, h.seen_hash, h.locked_hash)

-- Whenever `refresh` returns tokens, the token names a session whose row `r`, as the store holds it
-- under the lock, is unrevoked and unexpired and has the token's digest, the account is active, `r` is
-- retired, one session of the same family takes its place, and nothing else in the store changes.
pub refresh_rotates :
    (env : Env) (seen : Store) (raw : Text) (agent : Option Text) (now : ℕ) (fresh : FreshSession)
    (s s' : Store) (user : User) (tokens : SessionTokens)
    → refresh env seen (some raw) agent now fresh s ≡ (ok (user, tokens), s')
    → (r : RefreshSession) × (parse_refresh_session_id env (some raw) ≡ ok r.id)
      × (find (has_session_id r.id) s.refresh_sessions ≡ some r)
      × (is_valid_session (env.token_hash raw) now r ≡ true)
      × (is_active user ≡ true)
      × Rotated env user agent now fresh r s s'
unfolding refresh
refresh_rotates env seen raw agent now fresh s s' user tokens h =
    elim (Result-cases (parse_refresh_session_id env (some raw))) [
      | inr (x, e) ↦ absurd (ground arith)
      | inl (i, e) ↦ elim (Option-cases (find (has_session_id i) s.refresh_sessions)) [
        | inl gone ↦ absurd (ground arith)
        | inr (r, row) ↦ elim (Option-cases (find (has_session_id i) seen.refresh_sessions)) [
          | inl unseen ↦ absurd (ground arith)
          | inr (c, seen_row) ↦ elim (Option-cases (find (has_user_id c.user_id) s.users)) [
            | inl deleted ↦ absurd (ground arith)
            | inr (u, account) ↦
                let id : r.id ≡ i =
                  ground (arith, find_holds (has_session_id i) s.refresh_sessions row) in
                (
                  r,
                  e ∙ ap ok (sym id),
                  ap (λ k. find (has_session_id k) s.refresh_sessions) id ∙ row,
                  ground arith,
                  ground arith,
                  ground arith,
                )
          ]
        ]
      ]
    ]
