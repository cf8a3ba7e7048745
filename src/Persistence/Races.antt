-- ===== src/Persistence/Races.antt =====
-- Two workers that move the same run at the version that both have read.
use court.Base.{
  ℕ, ◌+◌, ◌≡◌, refl, ap, sym, ◌∙◌, inl, inr, Bool, true, false, none, some, List, [], ◌∷◌, ok, err,
  ◌==◌, ◌&&◌, ◌||◌, not, arith, Bool-cases, Option-cases,
}
use court.Base.Table.{find, update_where, find_holds}
use mathlib.Core.Path.{subst}
use court.Persistence.{
  State, AnalysisRun, Db, optimistic_concurrency, same_state, has_run_id, has_analysis_id,
}
use court.Persistence.Transitions.{
  TransitionResult, may_become, moved_run, carries_over, move_run, owns_run, transition_run,
}

-- the worker read a run of its owner from which an edge leads to `new`
abbrev pub may_move : Db → ℕ → ℕ → State → Bool
may_move seen owner i new = elim (find (owns_run seen owner i) seen.runs) [
  | none ↦ false
  | some r ↦ not (same_state r.state new) && may_become r.state new
]

abbrev pub is_elsewhere : ℕ → ℕ → List AnalysisRun → Bool
is_elsewhere i expected rows = elim (find (has_run_id i) rows) [
  | none ↦ true
  | some r ↦ not (r.row_version == expected)
]

moved-elsewhere :
    (i expected now : ℕ) (new : State) (rows : List AnalysisRun)
    → is_elsewhere i expected (update_where (has_run_id i) (moved_run new (expected + 1) now) rows)
      ≡ true
moved-elsewhere i expected now new [] = refl
moved-elsewhere i expected now new (r ∷ rows) =
    ground (arith, moved-elsewhere i expected now new rows)

move_run-elsewhere :
    (previous : State) (expected : ℕ) (new : State) (now : ℕ) (r : AnalysisRun) (db : Db)
    (out : TransitionResult)
    → (move_run previous expected new now r db).0 ≡ ok out
    → is_elsewhere r.id expected (move_run previous expected new now r db).1.runs ≡ true
unfolding move_run
move_run-elsewhere previous expected new now r db out h =
    elim (Bool-cases (not (r.row_version == expected) || not (same_state r.state previous))) [
      | inl changed ↦ absurd (ground (arith, changed))
      | inr same ↦ elim (Option-cases (find (has_analysis_id r.analysis_id) db.analyses)) [
        | inl gone ↦ absurd (ground (arith, same, gone))
        | inr (a, there) ↦ elim (Bool-cases (carries_over new)) [
          | inl on ↦ rw (same, there, on, move_run) (moved-elsewhere r.id expected now new db.runs)
          | inr off ↦
              rw (same, there, off, move_run) (moved-elsewhere r.id expected now new db.runs)
        ]
      ]
    ]

transition_run-elsewhere :
    (seen : Db) (owner i expected : ℕ) (new : State) (now : ℕ) (db : Db) (out : TransitionResult)
    → may_move seen owner i new ≡ true
    → (transition_run seen owner i expected new now db).0 ≡ ok out
    → is_elsewhere i expected (transition_run seen owner i expected new now db).1.runs ≡ true
unfolding transition_run
transition_run-elsewhere seen owner i expected new now db out may h =
    elim (Option-cases (find (owns_run seen owner i) seen.runs)) [
      | inl gone ↦ absurd (ground (arith, gone))
      | inr (c, there) ↦ elim (Option-cases (find (has_run_id i) db.runs)) [
        | inl lost ↦ absurd (ground (arith, there, lost))
        | inr (r, found) ↦
            let (away, edge) = allowed c there in
            let same : r.id ≡ i = ground (arith, find_holds (has_run_id i) db.runs found) in
            let step : transition_run seen owner i expected new now db
                ≡ move_run c.state expected new now r db =
              rw (there, away, edge, found, transition_run) refl in
            subst (λ o. is_elsewhere i expected o.1.runs ≡ true) (sym step)
              (subst
                (λ k.
                  is_elsewhere k expected (move_run c.state expected new now r db).1.runs ≡ true)
                same
                (move_run-elsewhere c.state expected new now r db out
                  (ap (λ o. o.0) (sym step) ∙ h)))
      ]
    ]
  where
    allowed :
        (c : AnalysisRun)
        → find (owns_run seen owner i) seen.runs ≡ some c
        → (same_state c.state new ≡ false) × (may_become c.state new ≡ true)
    allowed c there = (ground (arith, there), ground (arith, there))

outdated_transition :
    (seen : Db) (owner i expected : ℕ) (new : State) (now : ℕ) (db : Db)
    → may_move seen owner i new ≡ true
    → is_elsewhere i expected db.runs ≡ true
    → transition_run seen owner i expected new now db ≡ (err optimistic_concurrency, db)
unfolding transition_run move_run
outdated_transition seen owner i expected new now db may other =
    elim (Option-cases (find (owns_run seen owner i) seen.runs)) [
      | inl gone ↦ absurd (ground (arith, gone))
      | inr (c, there) ↦ ground (arith, there)
    ]

-- Where two workers read the same store and both ask for a transition that the state which they read
-- allows, at the same expected version, at most one is done: once the first returned, the second is
-- refused with the error of optimistic concurrency and writes nothing.
pub one_transition_wins :
    (seen : Db) (owner i expected : ℕ) (new other : State) (now later : ℕ) (db : Db)
    (out : TransitionResult)
    → may_move seen owner i new ≡ true
    → may_move seen owner i other ≡ true
    → (transition_run seen owner i expected new now db).0 ≡ ok out
    → transition_run seen owner i expected other later
        (transition_run seen owner i expected new now db).1
      ≡ (err optimistic_concurrency, (transition_run seen owner i expected new now db).1)
one_transition_wins seen owner i expected new other now later db out may may' h =
    outdated_transition seen owner i expected other later _ may'
      (transition_run-elsewhere seen owner i expected new now db out may h)
