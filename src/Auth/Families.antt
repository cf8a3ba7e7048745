-- ===== src/Auth/Families.antt =====
-- A token family has at most one session that is not revoked: the effect of each change of the
-- session table.
pub mod Calls
pub mod Accounts
pub mod Revocations
use court.Base.{
  ℕ, suc, ◌+◌, ◌≤◌, ◌≡◌, refl, Bool, true, false, Option, none, some, List, [], ◌∷◌, ◌++◌, ok, err,
  Tx, ◌==◌, ◌&&◌, is_none, arith, inl, inr, Bool-cases, ◌≢◌,
}
use court.Base.Table.{
  find, count, update_where, All, count-append, count-update-le, count-update_found,
}
use court.Auth.{
  Text, Env, Store, User, RefreshSession, RevocationReason, FreshSession, in_family, revoked,
  retired, has_session_id, update_sessions, revoke_family,
}
use court.Auth.Issue.{create_session, rotate, new_session}

abbrev pub HasSingle : List RefreshSession → Type 0
HasSingle rs = (f : ℕ) → count (in_family f) rs ≤ 1

abbrev pub HasSingleActive : Store → Type 0
HasSingleActive s = HasSingle s.refresh_sessions

-- no row has the family that a new session is given
abbrev pub IsNewFamily : ℕ → List RefreshSession → Type 0
IsNewFamily f rs = All (λ r. (r.token_family_id == f) ≡ false) rs

revoked_off :
    (f now : ℕ) (reason : RevocationReason) (r : RefreshSession)
    → in_family f (revoked now reason r) ≡ false
revoked_off f now reason r = ground arith

retired_off : (f now i : ℕ) (r : RefreshSession) → in_family f (retired now i r) ≡ false
retired_off f now i r = ground arith

pub revoke-HasSingle :
    (p : RefreshSession → Bool) (now : ℕ) (reason : RevocationReason) (rs : List RefreshSession)
    → HasSingle rs
    → HasSingle (update_where p (revoked now reason) rs)
revoke-HasSingle p now reason rs h f = omega (
  arith,
  h f,
  count-update-le (in_family f) p (revoked now reason) (λ r _. revoked_off f now reason r) rs,
)

count-new_family :
    (f : ℕ) (rs : List RefreshSession) → IsNewFamily f rs → count (in_family f) rs ≡ 0
count-new_family f [] h = refl
count-new_family f (r ∷ rs) h = ground (arith, count-new_family f rs h.1)

pub add-HasSingle :
    (env : Env) (user : User) (agent : Option Text) (fresh : FreshSession)
    (rs : List RefreshSession)
    → IsNewFamily fresh.family_id rs
    → HasSingle rs
    → HasSingle (rs ++ new_session env user agent fresh.family_id fresh ∷ [])
add-HasSingle env user agent fresh rs new h f =
    rw count-append (ground (arith, h f, count-new_family fresh.family_id rs new))

-- stated at one family, with the premise that the tactics prove last
pub replace_single :
    (env : Env) (user : User) (agent : Option Text) (now : ℕ) (fresh : FreshSession)
    (p : RefreshSession → Bool) (rs : List RefreshSession) (current : RefreshSession) (f : ℕ)
    → HasSingle rs
    → find p rs ≡ some current
    → is_none current.revoked_at ≡ true
    → count (in_family f) (
        update_where (has_session_id current.id) (retired now fresh.session_id) rs
        ++ new_session env user agent current.token_family_id fresh ∷ [])
      ≤ 1
replace_single env user agent now fresh p rs current f h e live = rw count-append (
    ground (
      arith,
      h f,
      count-update-le (in_family f) (has_session_id current.id) (retired now fresh.session_id)
          (λ r _. retired_off f now fresh.session_id r) rs,
      count-update_found (in_family f) (has_session_id current.id) p (retired now fresh.session_id)
          (retired_off f now fresh.session_id) rs current e,
    ))
