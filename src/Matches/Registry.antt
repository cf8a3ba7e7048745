-- ===== src/Matches/Registry.antt =====
-- The deletion of registered objects, as one decision.
use court.Base.{
  raises, ℕ, ◌≡◌, refl, inl, inr, Bool, true, false, List, [], ◌∷◌, map, Result, ok, err, ◌==◌,
  ◌&&◌, arith, if◌then◌else◌, Bool-cases, Result-cases,
}
use court.Base.Text.{same_text}
use court.Matches.{
  MatchError, Registered, Objects, is_expected_key, delete_registered_object, delete_all,
}

-- the object has the key under which its provider files it, and the storage deletes it
abbrev pub is_deletable : Objects → Registered → Bool
is_deletable o m =
    o.deletes m.key
    && (if m.provider == o.local_provider
        then same_text m.key m.logical_key
        else m.provider == o.provider && is_expected_key o m)

abbrev pub all_deletable : Objects → List Registered → Bool
all_deletable o [] = o.purges
all_deletable o (m ∷ ms) = is_deletable o m && all_deletable o ms

delete_registered-decides :
    (o : Objects) (m : Registered)
    → (is_deletable o m ≡ true → delete_registered_object o m ≡ ok m.key)
      × (is_deletable o m ≡ false → raises (delete_registered_object o m) ≡ true)
unfolding delete_registered_object
delete_registered-decides o m = elim (Bool-cases (m.provider == o.local_provider)) [
  | inl here ↦ (λ h. ground (arith, here), λ h. ground (arith, here))
  | inr there ↦ (λ h. ground (arith, there), λ h. ground (arith, there))
]

-- The loop over the registry returns the keys of all its objects, in their order, where each of them
-- has the key that its provider gives it and is deleted by the storage, and so are the local copies.
-- In every other case it raises.
pub delete_all_decides :
    (o : Objects) (ms : List Registered)
    → (all_deletable o ms ≡ true → delete_all o ms ≡ ok (map (λ m. m.key) ms))
      × (all_deletable o ms ≡ false → raises (delete_all o ms) ≡ true)
unfolding delete_all
delete_all_decides o [] = (λ h. ground arith, λ h. ground arith)
delete_all_decides o (m ∷ ms) = elim (Bool-cases (is_deletable o m)) [
  | inr bad ↦
      (λ h. absurd (ground (arith, bad)), λ h. refused ((delete_registered-decides o m).1 bad))
  | inl good ↦ elim (Bool-cases (all_deletable o ms)) [
    | inl rest ↦ (
      λ h.
          rw ((delete_registered-decides o m).0 good, (delete_all_decides o ms).0 rest, delete_all)
            refl,
      λ h. absurd (ground (arith, good, rest)),
    )
    | inr stuck ↦ (
      λ h. absurd (ground (arith, good, stuck)),
      λ h.
          rw ((delete_registered-decides o m).0 good, delete_all)
            (later ((delete_all_decides o ms).1 stuck)),
    )
  ]
]
  where
    refused : raises (delete_registered_object o m) ≡ true → raises (delete_all o (m ∷ ms)) ≡ true
    refused e = elim (Result-cases (delete_registered_object o m)) [
      | inl (k, fine) ↦ absurd (ground (arith, fine))
      | inr (x, bad) ↦ rw (bad, delete_all) refl
    ]

    later :
        raises (delete_all o ms) ≡ true
        → raises (elim (delete_all o ms) as (λ x. Result MatchError (List (List ℕ))) [
          | err e ↦ err e
          | ok keys ↦ ok (m.key ∷ keys)
        ])
          ≡ true
    later e = elim (Result-cases (delete_all o ms)) [
      | inl (k, fine) ↦ absurd (ground (arith, fine))
      | inr (x, bad) ↦ rw bad refl
    ]
