-- ===== src/Base/Keeps.antt =====
-- What a call on a store keeps, whether it returns or raises.
use mathlib.Core.Path.{◌≡◌, refl}
use court.Base.Calls.{Result, ok, err, Tx, proceed, ◌>>=◌}

module _ {S : Type 0} (P : S → Type 0) where
  abbrev pub Keeps : {E A : Type 0} → Tx S E A → Type 0
  Keeps m = (s : S) → P s → P (m s).1

module _ {S E : Type 0} (P : S → Type 0) where
  pub Keeps-bind :
      {A B : Type 0} (m : Tx S E A) (k : A → Tx S E B)
      → Keeps P m
      → ((a : A) → Keeps P (k a))
      → Keeps P (m >>= k)
  Keeps-bind {A} {B} m k hm hk s h = Keeps-proceed (m s) (hm s h)
    where
      Keeps-proceed : (o : Result E A × S) → P o.1 → P (proceed o k).1
      Keeps-proceed (ok a, t) g = hk a t g
      Keeps-proceed (err e, t) g = g

-- What holds before a call, and what holds after it, whether it returns or raises.
module _ {S : Type 0} (P Q : S → Type 0) where
  abbrev pub Leads : {E A : Type 0} → Tx S E A → Type 0
  Leads m = (s : S) → P s → Q (m s).1

-- A property of what a call leaves, by the result of its first part.
pub bind-cases :
    {S E A B : Type 0} (Q : S → Type 0) (m : Tx S E A) (k : A → Tx S E B) (s : S)
    → ((e : E) → (m s).0 ≡ err e → Q (m s).1)
    → ((a : A) → (m s).0 ≡ ok a → Q (k a (m s).1).1)
    → Q ((m >>= k) s).1
bind-cases {S} {E} {A} {B} Q m k s bad good = bind-cases_of (m s) bad good
  where
    bind-cases_of :
        (o : Result E A × S)
        → ((e : E) → o.0 ≡ err e → Q o.1)
        → ((a : A) → o.0 ≡ ok a → Q (k a o.1).1)
        → Q (proceed o k).1
    bind-cases_of (ok a, t) bad good = good a refl
    bind-cases_of (err e, t) bad good = bad e refl
