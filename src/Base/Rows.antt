-- ===== src/Base/Rows.antt =====
-- Tables whose rows have a key: updates of one row, deletions, and the largest row of a query.
use Prim.Native.Nat.{ℕ, ◌+◌, ◌≤◌}
use mathlib.Core.Path.{◌≡◌, refl, ap, ◌∙◌}
use mathlib.Core.Bool.{Bool, true, false}
use mathlib.Core.Option.{Option, none, some}
use mathlib.Core.Logic.{inl, inr}
use mathlib.Core.List.{List, [], ◌∷◌}
use native.Mathlib.Omega.{arith}
use court.Base.Tests.{ltb, Option-cases, if◌then◌else◌, Bool-cases}
use court.Base.Table.{find, any, select, update_where, count}

module _ {ℓ} {R : Type ℓ} where
  pub update_unseen :
      (p : R → Bool) (f : R → R) (rs : List R) → count p rs ≡ 0 → update_where p f rs ≡ rs
  update_unseen p f [] h = refl
  update_unseen p f (r ∷ rs) h = ground (arith, update_unseen p f rs)

  -- The update of the only row with a key changes a count by that row.
  pub count-update_unique :
      (q p : R → Bool) (f : R → R) (rs : List R) {r : R}
      → count p rs ≤ 1
      → find p rs ≡ some r
      → count q (update_where p f rs) + (if q r then 1 else 0)
        ≡ count q rs + (if q (f r) then 1 else 0)
  count-update_unique q p f [] h e = absurd (ground arith)
  count-update_unique q p f (x ∷ rs) {r} h e = elim (Bool-cases (p x)) [
    | inl hit ↦
        let same : x ≡ r = ground arith in
        let rest : update_where p f rs ≡ rs = update_unseen p f rs (ground arith) in
        ground (arith, rest, ap q same, ap (λ y. q (f y)) same)
    | inr miss ↦ ground (arith, count-update_unique q p f rs {r = r})
  ]

  -- Rows that are selected by what they are not: `DELETE … WHERE`.
  abbrev pub delete_where : (R → Bool) → List R → List R
  delete_where p [] = []
  delete_where p (r ∷ rs) = let rest = delete_where p rs in if p r then rest else r ∷ rest

  pub count-delete-le : (q p : R → Bool) (rs : List R) → count q (delete_where p rs) ≤ count q rs
  count-delete-le q p [] = omega arith
  count-delete-le q p (r ∷ rs) = ground (arith, count-delete-le q p rs)

  pub count-delete : (p : R → Bool) (rs : List R) → count p (delete_where p rs) ≡ 0
  count-delete p [] = refl
  count-delete p (r ∷ rs) = ground (arith, count-delete p rs)

  -- `ORDER BY key DESC LIMIT 1`
  abbrev pub largest : (R → ℕ) → List R → Option R
  largest key [] = none
  largest key (r ∷ rs) = elim (largest key rs) [
    | none ↦ some r
    | some best ↦ if ltb (key r) (key best) then some best else some r
  ]

  pub any-count : (p : R → Bool) (rs : List R) → any p rs ≡ false → count p rs ≡ 0
  any-count p [] e = omega arith
  any-count p (r ∷ rs) e = ground (arith, any-count p rs)

  pub any-update :
      (q p : R → Bool) (f : R → R)
      → ((r : R) → p r ≡ true → q (f r) ≡ q r)
      → (rs : List R) → any q (update_where p f rs) ≡ any q rs
  any-update q p f same [] = refl
  any-update q p f same (r ∷ rs) = ground (arith, same r, any-update q p f same rs)

  pub find-any :
      (p q : R → Bool) (rs : List R) {r : R} → find p rs ≡ some r → q r ≡ true → any q rs ≡ true
  find-any p q [] e h = absurd (ground arith)
  find-any p q (x ∷ rs) {r} e h = elim (Bool-cases (p x)) [
    | inl hit ↦ let same : x ≡ r = ground arith in ground (arith, ap q same)
    | inr miss ↦ ground (arith, find-any p q rs {r = r})
  ]

  pub find_positive : (p : R → Bool) (rs : List R) {r : R} → find p rs ≡ some r → 1 ≤ count p rs
  find_positive p [] e = absurd (ground arith)
  find_positive p (x ∷ rs) {r} e = ground (arith, find_positive p rs {r = r})

  -- A query finds the row that its key finds, where the key is unique.
  pub find-largest :
      (key : R → ℕ) (q p : R → Bool) (rs : List R) {r : R}
      → p r ≡ true
      → count p rs ≤ 1
      → largest key (select q rs) ≡ some r
      → find p rs ≡ some r
  find-largest key q p [] h one e = absurd (ground arith)
  find-largest key q p (x ∷ rs) {r} h one e = elim (Bool-cases (q x)) [
    | inr miss ↦
        let later : find p rs ≡ some r = find-largest key q p rs h (ground arith) (ground arith) in
        ground (arith, later, find_positive p rs later)
    | inl hit ↦ elim (Option-cases (largest key (select q rs))) [
      | inl gone ↦ let same : x ≡ r = ground arith in ground (arith, ap p same)
      | inr (best, there) ↦ elim (Bool-cases (ltb (key x) (key best))) [
        | inl below ↦
            let same : best ≡ r = ground arith in
            let later : find p rs ≡ some r =
              find-largest key q p rs h (ground arith) (there ∙ ap some same) in
            ground (arith, later, find_positive p rs later)
        | inr above ↦ let same : x ≡ r = ground arith in ground (arith, ap p same)
      ]
    ]
  ]

  -- What a query finds after an update of all the rows that it selects.
  pub find-updated :
      (p p' : R → Bool) (f : R → R)
      → ((r : R) → p (f r) ≡ p r)
      → ((r : R) → p r ≡ true → p' r ≡ true)
      → (rs : List R) {r : R} → find p rs ≡ some r
      → find p (update_where p' f rs) ≡ some (f r)
  find-updated p p' f same all [] e = absurd (ground arith)
  find-updated p p' f same all (x ∷ rs) {r} e = elim (Bool-cases (p x)) [
    | inl hit ↦ let eq : x ≡ r = ground arith in ground (arith, same x, all x, ap f eq)
    | inr miss ↦ ground (arith, same x, find-updated p p' f same all rs {r = r})
  ]
