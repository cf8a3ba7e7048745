-- ===== src/Base/Calls.antt =====
-- Calls that return or raise, and database transactions that commit or roll back.
use mathlib.Core.Bool.{Bool, true, false}
use mathlib.Core.Option.{Option, none, some}
use mathlib.Core.Path.{◌≡◌, refl}
use mathlib.Core.Logic.{◌⊎◌, inl, inr}

pub data Result {ℓ κ} (E : Type κ) (A : Type ℓ) : Type (ℓ ⊔ κ) where
  ok : A → Result E A
  err : E → Result E A

pub Result-cases {ℓ κ} :
    {E : Type κ} {A : Type ℓ} (r : Result E A) → ((a : A) × (r ≡ ok a)) ⊎ ((e : E) × (r ≡ err e))
Result-cases (ok a) = inl (a, refl)
Result-cases (err e) = inr (e, refl)

abbrev pub raises {ℓ κ} : {E : Type κ} {A : Type ℓ} → Result E A → Bool
raises (ok a) = false
raises (err e) = true

-- A call on the stored state `S`: what was written before a raise is still in the state.
abbrev pub Tx : Type 0 → Type 0 → Type 0 → Type 0
Tx S E A = S → Result E A × S

module _ {S E A : Type 0} where
  abbrev pub pure : A → Tx S E A
  pure a s = (ok a, s)

  abbrev pub raise : E → Tx S E A
  raise e s = (err e, s)

  abbrev pub gets : (S → A) → Tx S E A
  gets f s = (ok (f s), s)

  abbrev pub or_raise : Option A → E → Tx S E A
  or_raise none e = raise e
  or_raise (some a) _ = pure a

  abbrev pub commit : Result E A × S → S → Result E A × S
  commit (ok a, s') s = (ok a, s')
  commit (err e, s') s = (err e, s)

  -- `with session_factory.begin()`: a raise rolls every write of the block back.
  abbrev pub transaction : Tx S E A → Tx S E A
  transaction m s = commit (m s) s

module _ {S E : Type 0} where
  abbrev pub raise_if : Bool → E → Tx S E (Unit {0})
  raise_if true e s = (err e, s)
  raise_if false e s = (ok tt, s)

  abbrev pub modify : (S → S) → Tx S E (Unit {0})
  modify f s = (ok tt, f s)

abbrev pub proceed : {S E A B : Type 0} → Result E A × S → (A → Tx S E B) → Result E B × S
proceed (ok a, s) f = f a s
proceed (err e, s) f = (err e, s)

infixl 5 ◌>>=◌ ◌>>◌
abbrev pub ◌>>=◌ : {S E A B : Type 0} → Tx S E A → (A → Tx S E B) → Tx S E B
◌>>=◌ m f s = proceed (m s) f

abbrev pub ◌>>◌ : {S E A B : Type 0} → Tx S E A → Tx S E B → Tx S E B
m >> k = m >>= λ _. k
