-- ===== src/RateLimit/Window.antt =====
-- The limiter against a log of every admitted attempt: the deque forgets only what no later check
-- would count.
use court.Base.{
  ℕ, ◌+◌, ◌≤◌, ◌≡◌, refl, ap, ◌∙◌, inl, inr, Bool, true, false, List, [], ◌∷◌, ◌++◌, Result, ok,
  err, ltb, leb, if◌then◌else◌, arith, Bool-cases,
}
use mathlib.Core.Path.{ap₂, subst}
use court.Base.Table.{length, count, All, count-append, All-append}
use court.RateLimit.{Error, prune, admit}

-- an admitted attempt at `a` still counts at `now`
abbrev pub is_live : ℕ → ℕ → ℕ → Bool
is_live window now a = ltb now (a + window)

abbrev pub IsSorted : List ℕ → Type 0
IsSorted [] = Unit
IsSorted (a ∷ rest) = All (λ b. a ≤ b) rest × IsSorted rest

count-live_later :
    (w now a : ℕ) (xs : List ℕ)
    → now + 0 ≤ a + w
    → All (λ b. a ≤ b) xs
    → leb (a + w) now ≡ false
    → count (is_live w now) xs ≡ length xs
count-live_later w now a [] h s e = refl
count-live_later w now a (x ∷ xs) h s e = ground (arith, s.0, count-live_later w now a xs h s.1 e)

-- what `prune` keeps of a sorted deque is what is live
pub length-prune :
    (w now : ℕ) (xs : List ℕ) → IsSorted xs → length (prune w now xs) ≡ count (is_live w now) xs
unfolding prune
length-prune w now [] h = refl
length-prune w now (a ∷ xs) h = elim (Bool-cases (leb (a + w) now)) [
  | inl dead ↦ ground (arith, length-prune w now xs h.1)
  | inr live ↦ ground (arith, count-live_later w now a xs (ground arith) h.0 live)
]

-- and it forgets nothing that a later check counts
pub count-prune :
    (w now later : ℕ) (xs : List ℕ)
    → now ≤ later
    → count (is_live w later) (prune w now xs) ≡ count (is_live w later) xs
unfolding prune
count-prune w now later [] h = refl
count-prune w now later (a ∷ xs) h = ground (arith, count-prune w now later xs h)

All-le_snoc :
    (a now : ℕ) (xs : List ℕ) → All (λ b. a ≤ b) xs → a ≤ now → All (λ b. a ≤ b) (xs ++ now ∷ [])
All-le_snoc a now xs h l = All-append (λ b. a ≤ b) xs (now ∷ []) h (l, tt)

IsSorted-snoc :
    (now : ℕ) (xs : List ℕ) → IsSorted xs → All (λ a. a ≤ now) xs → IsSorted (xs ++ now ∷ [])
IsSorted-snoc now [] s h = (tt, tt)
IsSorted-snoc now (a ∷ xs) s h = (All-le_snoc a now xs s.0 h.0, IsSorted-snoc now xs s.1 h.1)

IsSorted-prune : (w now : ℕ) (xs : List ℕ) → IsSorted xs → IsSorted (prune w now xs)
unfolding prune
IsSorted-prune w now [] h = tt
IsSorted-prune w now (a ∷ xs) h = elim (Bool-cases (leb (a + w) now)) [
  | inl dead ↦ rw dead (IsSorted-prune w now xs h.1)
  | inr live ↦ rw live h
]

All-prune :
    (w now bound : ℕ) (xs : List ℕ)
    → All (λ a. a ≤ bound) xs
    → All (λ a. a ≤ bound) (prune w now xs)
unfolding prune
All-prune w now bound [] h = tt
All-prune w now bound (a ∷ xs) h = elim (Bool-cases (leb (a + w) now)) [
  | inl dead ↦ rw dead (All-prune w now bound xs h.1)
  | inr live ↦ rw live h
]

All-le_later :
    (now later : ℕ) (xs : List ℕ) → now ≤ later → All (λ a. a ≤ now) xs → All (λ a. a ≤ later) xs
All-le_later now later [] l h = tt
All-le_later now later (a ∷ xs) l h = (omega arith, All-le_later now later xs l h.1)

-- What the deque of a key and the log of all attempts that it admitted have in common.
pub record Tracks (w now : ℕ) (deque log : List ℕ) : Type 0 where
  pub sorted : IsSorted deque
  pub past : All (λ a. a ≤ now) deque
  pub counts :
      (later : ℕ) → now ≤ later → count (is_live w later) deque ≡ count (is_live w later) log

-- the specification: an attempt is admitted if fewer than `limit` of the log are live
abbrev pub admits : ℕ → ℕ → ℕ → List ℕ → Bool
admits limit w now log = ltb (count (is_live w now) log) limit

abbrev pub logged : ℕ → ℕ → ℕ → List ℕ → List ℕ
logged limit w now log = if admits limit w now log then log ++ now ∷ [] else log

abbrev pub is_ok : Result Error (Unit {0}) → Bool
is_ok (ok _) = true
is_ok (err _) = false

admit_decides :
    (limit w now : ℕ) (deque log : List ℕ)
    → Tracks w now deque log
    → is_ok (admit limit w now deque).0 ≡ admits limit w now log
unfolding admit
admit_decides limit w now deque log t =
    ground (arith, length-prune w now deque t.sorted, t.counts now)

Tracks-prune :
    (w now : ℕ) (deque log : List ℕ) → Tracks w now deque log → Tracks w now (prune w now deque) log
Tracks-prune w now deque log t = record {
  sorted = IsSorted-prune w now deque t.sorted;
  past = All-prune w now now deque t.past;
  counts = λ later h. count-prune w now later deque h ∙ t.counts later h;
}

Tracks-snoc :
    (w now : ℕ) (deque log : List ℕ)
    → Tracks w now deque log
    → Tracks w now (deque ++ now ∷ []) (log ++ now ∷ [])
Tracks-snoc w now deque log t = record {
  sorted = IsSorted-snoc now deque t.sorted t.past;
  past = All-append (λ a. a ≤ now) deque (now ∷ []) t.past (omega arith, tt);
  counts = λ later h.
      rw (count-append (is_live w later) deque, count-append (is_live w later) log)
        (ap (λ (n : ℕ). n + count (is_live w later) (now ∷ [])) (t.counts later h));
}

Tracks-later :
    (w now later : ℕ) (deque log : List ℕ)
    → now ≤ later
    → Tracks w now deque log
    → Tracks w later deque log
Tracks-later w now later deque log l t = record {
  sorted = t.sorted;
  past = All-le_later now later deque l t.past;
  counts = λ after h. t.counts after (omega arith);
}

admit-Tracks :
    (limit w now : ℕ) (deque log : List ℕ)
    → Tracks w now deque log
    → Tracks w now (admit limit w now deque).1 (logged limit w now log)
unfolding admit
admit-Tracks limit w now deque log t =
    let kept = Tracks-prune w now deque log t in
    elim (Bool-cases (leb limit (length (prune w now deque)))) [
      | inl full ↦ rw full (
          subst (Tracks w now (prune w now deque))
            (ground (arith, length-prune w now deque t.sorted, t.counts now)) kept)
      | inr room ↦ rw room (
          subst (Tracks w now (prune w now deque ++ now ∷ []))
            (ground (arith, length-prune w now deque t.sorted, t.counts now))
            (Tracks-snoc w now (prune w now deque) log kept))
    ]

-- the decisions of the limiter, and of the specification, at the times of a list
unfoldable pub decisions : ℕ → ℕ → List ℕ → List ℕ → List Bool
decisions limit w [] deque = []
decisions limit w (now ∷ times) deque =
    let (r, deque') = admit limit w now deque in is_ok r ∷ decisions limit w times deque'

unfoldable pub expected : ℕ → ℕ → List ℕ → List ℕ → List Bool
expected limit w [] log = []
expected limit w (now ∷ times) log =
    admits limit w now log ∷ expected limit w times (logged limit w now log)

decisions_refine_from :
    (limit w start : ℕ) (times deque log : List ℕ)
    → IsSorted (start ∷ times)
    → Tracks w start deque log
    → decisions limit w times deque ≡ expected limit w times log
unfolding decisions expected
decisions_refine_from limit w start [] deque log s t = refl
decisions_refine_from limit w start (now ∷ times) deque log s t =
    let t' = Tracks-later w start now deque log s.0.0 t in
    ap₂ (λ (b : Bool) (bs : List Bool). b ∷ bs) (admit_decides limit w now deque log t')
      (decisions_refine_from limit w now times (admit limit w now deque).1 (logged limit w now log)
        s.1 (admit-Tracks limit w now deque log t'))

-- From an empty deque, and while the clock does not run backwards, the limiter decides every
-- attempt as the specification does that remembers all admitted attempts: it admits one exactly if
-- fewer than `limit` admitted attempts lie less than `window` before it.
pub decisions_refine :
    (limit w : ℕ) (times : List ℕ)
    → IsSorted times
    → decisions limit w times [] ≡ expected limit w times []
decisions_refine limit w [] s = unfold decisions expected in refl
decisions_refine limit w (now ∷ times) s =
    decisions_refine_from limit w now (now ∷ times) [] [] ((omega arith, s.0), s)
      (record { sorted = tt; past = tt; counts = λ later h. refl })
