-- ===== src/Base/Table.antt =====
-- Tables of rows, and the queries that the services send: SELECT … WHERE, UPDATE … WHERE, COUNT.
use Prim.Native.Nat.{ℕ, suc, ◌+◌, ◌≤◌}
use mathlib.Core.Path.{◌≡◌, refl, ap, subst}
use mathlib.Core.Bool.{Bool, true, false}
use mathlib.Core.Option.{Option, none, some}
use mathlib.Core.Logic.{inl, inr}
use mathlib.Core.List.{List, [], ◌∷◌, ◌++◌}
use native.Mathlib.Omega.{arith}
use court.Base.Tests.{if◌then◌else◌, Bool-cases}

module _ {ℓ} {R : Type ℓ} where
  abbrev pub length : List R → ℕ
  length [] = 0
  length (r ∷ rs) = suc (length rs)

  -- the first row that the condition selects
  abbrev pub find : (R → Bool) → List R → Option R
  find p [] = none
  find p (r ∷ rs) = if p r then some r else find p rs

  abbrev pub update_where : (R → Bool) → (R → R) → List R → List R
  update_where p f [] = []
  update_where p f (r ∷ rs) = (if p r then f r else r) ∷ update_where p f rs

  abbrev pub count : (R → Bool) → List R → ℕ
  count p [] = 0
  count p (r ∷ rs) = (if p r then 1 else 0) + count p rs

  abbrev pub any : (R → Bool) → List R → Bool
  any p [] = false
  any p (r ∷ rs) = if p r then true else any p rs

  abbrev pub select : (R → Bool) → List R → List R
  select p [] = []
  select p (r ∷ rs) = let rest = select p rs in if p r then r ∷ rest else rest

  abbrev pub All {κ} : (R → Type κ) → List R → Type κ
  All P [] = Unit
  All P (r ∷ rs) = P r × All P rs

module _ {ℓ} {R : Type ℓ} where
  pub count-append : (p : R → Bool) (xs ys : List R) → count p (xs ++ ys) ≡ count p xs + count p ys
  count-append p [] ys = omega arith
  count-append p (x ∷ xs) ys = omega (arith, count-append p xs ys)

  -- An update that makes no row satisfy `q` leaves at most as many that do.
  pub count-update-le :
      (q p : R → Bool) (f : R → R)
      → ((r : R) → q r ≡ false → q (f r) ≡ false)
      → (rs : List R) → count q (update_where p f rs) ≤ count q rs
  count-update-le q p f keep [] = omega arith
  count-update-le q p f keep (r ∷ rs) = ground (arith, keep r, count-update-le q p f keep rs)

  -- An update that `q` does not see leaves its count alone.
  pub count-update_same :
      (q p : R → Bool) (f : R → R)
      → ((r : R) → q (f r) ≡ q r)
      → (rs : List R) → count q (update_where p f rs) ≡ count q rs
  count-update_same q p f same [] = refl
  count-update_same q p f same (r ∷ rs) = ground (arith, same r, count-update_same q p f same rs)

  -- Where every row with `q` is updated, and loses `q`, none is left.
  pub count-update_none :
      (q p : R → Bool) (f : R → R)
      → ((r : R) → q (f r) ≡ false)
      → ((r : R) → q r ≡ true → p r ≡ true)
      → (rs : List R) → count q (update_where p f rs) ≡ 0
  count-update_none q p f off all [] = refl
  count-update_none q p f off all (r ∷ rs) =
      ground (arith, off r, all r, count-update_none q p f off all rs)

  -- Where the row that was found has `q` and the update takes it away, the count falls.
  pub count-update_found :
      (q p p' : R → Bool) (f : R → R)
      → ((r : R) → q (f r) ≡ false)
      → (rs : List R) (r : R) → find p' rs ≡ some r
      → p r ≡ true
      → q r ≡ true
      → suc (count q (update_where p f rs)) ≤ count q rs
  count-update_found q p p' f off [] r e hp hq = ground arith
  count-update_found q p p' f off (x ∷ rs) r e hp hq = elim (Bool-cases (p' x)) [
    | inl hit ↦
        let same : x ≡ r = ground arith in
        ground (arith, off x, ap p same, ap q same, count-update-le q p f (λ y _. off y) rs)
    | inr miss ↦ ground (arith, off x, count-update_found q p p' f off rs r)
  ]

  -- An update of other rows, which the query does not see, leaves what it finds alone.
  pub find-update_other :
      (p' p : R → Bool) (f : R → R)
      → ((r : R) → p' (f r) ≡ p' r)
      → (rs : List R) (r : R) → find p' rs ≡ some r
      → p r ≡ false
      → find p' (update_where p f rs) ≡ some r
  find-update_other p' p f same [] r e h = ground arith
  find-update_other p' p f same (x ∷ rs) r e h = elim (Bool-cases (p' x)) [
    | inl hit ↦ let eq : x ≡ r = ground arith in ground (arith, same x, ap p eq)
    | inr miss ↦ ground (arith, same x, find-update_other p' p f same rs r)
  ]

  pub find-All {κ} :
      (P : R → Type κ) (p : R → Bool) (rs : List R) {r : R} → All P rs → find p rs ≡ some r → P r
  find-All P p [] h e = absurd (cc)
  find-All P p (x ∷ rs) {r} h e = elim (Bool-cases (p x)) [
    | inl hit ↦ subst P (ground arith) h.0
    | inr miss ↦ find-All P p rs {r = r} h.1 (ground arith)
  ]

  pub find_holds : (p : R → Bool) (rs : List R) {r : R} → find p rs ≡ some r → p r ≡ true
  find_holds p [] e = cc
  find_holds p (x ∷ rs) {r} e = ground (arith, find_holds p rs {r = r})

  pub All-append {κ} : (P : R → Type κ) (xs ys : List R) → All P xs → All P ys → All P (xs ++ ys)
  All-append P [] ys hx hy = hy
  All-append P (x ∷ xs) ys hx hy = (hx.0, All-append P xs ys hx.1 hy)

  pub All-update {κ} :
      (P : R → Type κ) (p : R → Bool) (f : R → R)
      → ((r : R) → p r ≡ true → P r → P (f r))
      → (rs : List R) → All P rs
      → All P (update_where p f rs)
  All-update P p f keep [] h = tt
  All-update P p f keep (r ∷ rs) h = (All-update_row (p r) refl, All-update P p f keep rs h.1)
    where
      All-update_row : (b : Bool) → p r ≡ b → P (if b then f r else r)
      All-update_row true e = keep r e h.0
      All-update_row false e = h.0

  pub update_none :
      (p : R → Bool) (f : R → R) (rs : List R)
      → All (λ r. p r ≡ false) rs
      → update_where p f rs ≡ rs
  update_none p f [] h = refl
  update_none p f (r ∷ rs) h = ground (arith, update_none p f rs h.1)

  pub find-count : (p : R → Bool) (rs : List R) → find p rs ≡ none → count p rs ≡ 0
  find-count p [] e = omega arith
  find-count p (r ∷ rs) e = elim (Bool-cases (p r)) [
    | inl hit ↦ absurd (ground arith)
    | inr miss ↦ ground (arith, find-count p rs)
  ]
