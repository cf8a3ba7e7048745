-- ===== src/Persistence/Namespaces.antt =====
-- The namespaces of two attempts.
use court.Base.{
  ℕ, zero, suc, ◌+◌, ◌-◌, ◌*◌, ◌/◌, ◌%◌, ◌<◌, ◌≡◌, refl, sym, ap, ◌∙◌, true, false, List, [], ◌∷◌,
  ◌++◌, ltb, ◌==◌, if◌then◌else◌, arith, Bool-cases, inl, inr, ok,
}
use court.Base.Text.{text, same_text, same_text_eq, starts_with}
use mathlib.Core.Path.{subst}
use court.Base.Table.{All}
use court.Persistence.Prefix.{
  all_stage_chars, attempt_prefix, digits, is_stage_type, padded, stage_artifact_prefix, stage_root,
  zeros,
}

-- what a list of digits stands for, behind `seen`
abbrev value : ℕ → List ℕ → ℕ
value seen [] = seen
value seen (d ∷ ds) = value (10 * seen + (d - b'0')) ds

value-digits : (fuel n : ℕ) (rest : List ℕ) → n < fuel → value 0 (digits fuel n rest) ≡ value n rest
value-digits zero n rest h = absurd (omega arith)
value-digits (suc fuel) n rest h = elim (Bool-cases (ltb n 10)) [
  | inl small ↦ ground arith
  | inr large ↦
      let smaller : n / 10 < fuel = ground arith in
      let whole : 10 * (n / 10) + (b'0' + n % 10 - b'0') ≡ n = omega arith in
      ground (arith, value-digits fuel (n / 10) ((b'0' + n % 10) ∷ rest) smaller, whole)
]

value-zeros : (n : ℕ) (ds : List ℕ) → value 0 (zeros n ds) ≡ value 0 ds
value-zeros zero ds = refl
value-zeros (suc n) ds = value-zeros n ds

-- The digits of a padded number stand for that number, whatever it is: the fuel on which they are
-- produced never runs out.
value-padded : (n : ℕ) → value 0 (padded n) ≡ n
unfolding padded
value-padded n =
    value-zeros (if ltb n 10 then 3 else if ltb n 100 then 2 else if ltb n 1000 then 1 else 0)
      (digits (n + 1) n [])
    ∙ value-digits (n + 1) n [] (omega arith)

abbrev HasNoSlash : ℕ → Type 0
HasNoSlash c = (c == b'/') ≡ false

digits-All :
    (fuel n : ℕ) (rest : List ℕ) → All HasNoSlash rest → All HasNoSlash (digits fuel n rest)
digits-All zero n rest h = h
digits-All (suc fuel) n rest h = elim (Bool-cases (ltb n 10)) [
  | inl small ↦ rw small (ground arith, h)
  | inr large ↦ rw large (digits-All fuel (n / 10) ((b'0' + n % 10) ∷ rest) (ground arith, h))
]

zeros-All : (n : ℕ) (ds : List ℕ) → All HasNoSlash ds → All HasNoSlash (zeros n ds)
zeros-All zero ds h = h
zeros-All (suc n) ds h = (refl, zeros-All n ds h)

padded-All : (n : ℕ) → All HasNoSlash (padded n)
unfolding padded
padded-All n =
    zeros-All (if ltb n 10 then 3 else if ltb n 100 then 2 else if ltb n 1000 then 1 else 0)
      (digits (n + 1) n []) (digits-All (n + 1) n [] tt)

-- Two texts that end at the first `/` of the same text are the same.
up_to_slash :
    (xs ys key : List ℕ)
    → All HasNoSlash xs
    → All HasNoSlash ys
    → starts_with (xs ++ text "/") key ≡ true
    → starts_with (ys ++ text "/") key ≡ true
    → xs ≡ ys
up_to_slash [] [] key hx hy p q = refl
up_to_slash [] (y ∷ ys) [] hx hy p q = absurd (ground arith)
up_to_slash [] (y ∷ ys) (c ∷ key) hx hy p q = absurd (ground (arith, hy.0))
up_to_slash (x ∷ xs) [] [] hx hy p q = absurd (ground arith)
up_to_slash (x ∷ xs) [] (c ∷ key) hx hy p q = absurd (ground (arith, hx.0))
up_to_slash (x ∷ xs) (y ∷ ys) [] hx hy p q = absurd (ground arith)
up_to_slash (x ∷ xs) (y ∷ ys) (c ∷ key) hx hy p q =
    let same : x ≡ y = ground arith in
    ground (arith, same, up_to_slash xs ys key hx.1 hy.1 (ground arith) (ground arith))

without_root :
    (root xs ys key : List ℕ)
    → starts_with (root ++ xs) key ≡ true
    → starts_with (root ++ ys) key ≡ true
    → (rest : List ℕ) × (starts_with xs rest ≡ true) × (starts_with ys rest ≡ true)
without_root [] xs ys key p q = (key, p, q)
without_root (c ∷ root) xs ys [] p q = absurd (ground arith)
without_root (c ∷ root) xs ys (d ∷ key) p q =
    without_root root xs ys key (ground arith) (ground arith)

same_attempt :
    (root : List ℕ) (a b : ℕ) (key : List ℕ)
    → starts_with (root ++ (text "/attempt-" ++ (padded a ++ text "/"))) key ≡ true
    → starts_with (root ++ (text "/attempt-" ++ (padded b ++ text "/"))) key ≡ true
    → a ≡ b
same_attempt root a b key p q =
    let (rest, p', q') =
      without_root root (text "/attempt-" ++ (padded a ++ text "/"))
        (text "/attempt-" ++ (padded b ++ text "/")) key p q in
    let (number, p'', q'') =
      without_root (text "/attempt-") (padded a ++ text "/") (padded b ++ text "/") rest p' q' in
    sym (value-padded a)
    ∙ ap (value 0) (up_to_slash (padded a) (padded b) number (padded-All a) (padded-All b) p'' q'')
    ∙ value-padded b

stage_chars-All : (cs : List ℕ) → all_stage_chars cs ≡ true → All HasNoSlash cs
stage_chars-All [] h = tt
stage_chars-All (c ∷ cs) h = (ground arith, stage_chars-All cs (ground arith))

stage_type-All : (cs : List ℕ) → is_stage_type cs ≡ true → All HasNoSlash cs
stage_type-All [] h = tt
stage_type-All (c ∷ cs) h = (ground arith, stage_chars-All cs (ground arith))

first_slash :
    (xs rest key : List ℕ)
    → starts_with (xs ++ (b'/' ∷ rest)) key ≡ true
    → starts_with (xs ++ text "/") key ≡ true
first_slash [] rest [] h = absurd (ground arith)
first_slash [] rest (c ∷ key) h = ground arith
first_slash (x ∷ xs) rest [] h = absurd (ground arith)
first_slash (x ∷ xs) rest (c ∷ key) h = ground (arith, first_slash xs rest key)

root_ball : (s : List ℕ) → same_text s (text "ball_tracking") ≡ true → stage_root s ≡ text "ball"
unfolding stage_root
root_ball s h = rw h refl

root_other :
    (s : List ℕ) → same_text s (text "ball_tracking") ≡ false → stage_root s ≡ text "stages/" ++ s
unfolding stage_root
root_other s h = rw h refl

other_root :
    (xs ys key : List ℕ)
    → starts_with (text "ball" ++ xs) key ≡ true
    → starts_with (text "stages/" ++ ys) key ≡ true
    → true ≡ false
other_root xs ys [] p q = absurd (ground arith)
other_root xs ys (k ∷ key) p q = ground arith

same_stage :
    (s t key : List ℕ) (a b : ℕ)
    → is_stage_type s ≡ true
    → is_stage_type t ≡ true
    → starts_with ((text "stages/" ++ s) ++ (text "/attempt-" ++ (padded a ++ text "/"))) key ≡ true
    → starts_with ((text "stages/" ++ t) ++ (text "/attempt-" ++ (padded b ++ text "/"))) key ≡ true
    → s ≡ t
same_stage s t key a b hs ht p q =
    let (rest, p', q') =
      without_root (text "stages/") (s ++ (text "/attempt-" ++ (padded a ++ text "/")))
        (t ++ (text "/attempt-" ++ (padded b ++ text "/"))) key p q in
    up_to_slash s t rest (stage_type-All s hs) (stage_type-All t ht)
      (first_slash s (text "attempt-" ++ (padded a ++ text "/")) rest p')
      (first_slash t (text "attempt-" ++ (padded b ++ text "/")) rest q')

same_root :
    (s t : List ℕ) (a b : ℕ) (key : List ℕ)
    → is_stage_type s ≡ true
    → is_stage_type t ≡ true
    → starts_with (attempt_prefix s a) key ≡ true
    → starts_with (attempt_prefix t b) key ≡ true
    → s ≡ t
unfolding attempt_prefix
same_root s t a b key hs ht p q = elim (Bool-cases (same_text s (text "ball_tracking"))) [
  | inl ball ↦ elim (Bool-cases (same_text t (text "ball_tracking"))) [
    | inl ball' ↦ same_text_eq s _ ball ∙ sym (same_text_eq t _ ball')
    | inr other ↦ absurd (
        ground (
          arith,
          other_root (text "/attempt-" ++ (padded a ++ text "/"))
              (t ++ (text "/attempt-" ++ (padded b ++ text "/"))) key
              (subst (begins a) (root_ball s ball) p) (subst (begins b) (root_other t other) q),
        ))
  ]
  | inr other ↦ elim (Bool-cases (same_text t (text "ball_tracking"))) [
    | inl ball ↦ absurd (
        ground (
          arith,
          other_root (text "/attempt-" ++ (padded b ++ text "/"))
              (s ++ (text "/attempt-" ++ (padded a ++ text "/"))) key
              (subst (begins b) (root_ball t ball) q) (subst (begins a) (root_other s other) p),
        ))
    | inr other' ↦
        same_stage s t key a b hs ht (subst (begins a) (root_other s other) p)
          (subst (begins b) (root_other t other') q)
  ]
]
  where
    begins : ℕ → List ℕ → Type 0
    begins n root = starts_with (root ++ (text "/attempt-" ++ (padded n ++ text "/"))) key ≡ true

IsValid : List ℕ → ℕ → List ℕ → Type 0
IsValid s a p = (is_stage_type s ≡ true) × (attempt_prefix s a ≡ p)

prefix-IsValid :
    (s : List ℕ) (a : ℕ) (p : List ℕ) → stage_artifact_prefix s a ≡ ok p → IsValid s a p
unfolding stage_artifact_prefix IsValid
prefix-IsValid s a p e = elim (Bool-cases (is_stage_type s)) [
  | inl good ↦ ground (arith, good)
  | inr bad ↦ absurd (ground (arith, bad))
]

-- An object key lies in the namespace of at most one attempt of one stage, however large the numbers
-- of the attempts are: where two prefixes that the function returns both begin the key, they are
-- those of the same stage and attempt.
pub namespaces_disjoint :
    (s t : List ℕ) (a b : ℕ) (p q key : List ℕ)
    → stage_artifact_prefix s a ≡ ok p
    → stage_artifact_prefix t b ≡ ok q
    → starts_with p key ≡ true
    → starts_with q key ≡ true
    → (s ≡ t) × (a ≡ b)
unfolding IsValid attempt_prefix
namespaces_disjoint s t a b p q key ep eq hp hq =
    let (hs, es) = prefix-IsValid s a p ep in
    let (ht, et) = prefix-IsValid t b q eq in
    let hp' = subst (λ x. starts_with x key ≡ true) (sym es) hp in
    let hq' = subst (λ x. starts_with x key ≡ true) (sym et) hq in
    let same = same_root s t a b key hs ht hp' hq' in
    (
      same,
      same_attempt (stage_root t) a b key
          (subst (λ x. starts_with (attempt_prefix x a) key ≡ true) same hp') hq',
    )
