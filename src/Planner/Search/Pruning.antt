-- ===== src/Planner/Search/Pruning.antt =====
-- Planning with pruning allowed: the first candidate is taken, and nothing is measured.
use perf_libs_fft.Base.{
  ℕ, ◌+◌, ◌≡◌, refl, true, false, List, [], ◌∷◌, Option, none, some, if◌then◌else◌,
}
use perf_libs_fft.Planner.Policy.{Policy, contains, allow_pruning}
use perf_libs_fft.Planner.Problem.{Problem}
use perf_libs_fft.Planner.Run.{Run, ok, abort, ◌>>=◌}
use perf_libs_fft.Planner.Search.{
  State, Bench, Strategy, Best, no_best, judge, settle, try_strategy, out_of_time, audition,
  remember, make_plan_impl,
}
use perf_libs_fft.Planner.Wisdom.{StdHash, lookup}

module _ {World Plan : Type 0} (p : Problem) (policy : Policy) where
  -- The first strategy, from an index on, that gives a plan. No clock and no measurement occur.
  pub first_candidate :
      List (Option (Strategy World Plan)) → ℕ → State World → Run (Option (Plan × ℕ) × State World)
  first_candidate [] index s = ok (none, s)
  first_candidate (none ∷ strategies) index s = first_candidate strategies (index + 1) s
  first_candidate (some f ∷ strategies) index s = f p policy s >>= λ r. elim r.0 [
    | none ↦ first_candidate strategies (index + 1) r.1
    | some plan ↦ ok (some (plan, index), r.1)
  ]

-- The best plan, as the audition keeps it, of a plan and its index.
abbrev pub best_of : {Plan Result : Type 0} → Option (Plan × ℕ) → Best Plan Result
best_of none = no_best
best_of (some (plan, index)) = record {
  plan = some plan;
  strategy_index = some index;
  result = none;
}

module _ {World Plan Result : Type 0} (bench : Bench World Plan Result) (p : Problem)
    (policy : Policy) (pruning : contains policy allow_pruning ≡ true) where
  no_clock :
      (best : Best Plan Result) (s : State World) → out_of_time bench p policy best s ≡ (false, s)
  unfolding out_of_time
  no_clock best s = rw pruning refl

  judge-taken :
      (candidate : Plan) (index : ℕ) (s : State World)
      → judge bench p policy candidate index no_best s
        ≡ (true, best_of (some (candidate, index)), s)
  unfolding judge
  judge-taken candidate index s = rw pruning refl

  audition-first :
      (strategies : List (Option (Strategy World Plan))) (index : ℕ) (s : State World)
      → audition bench p policy strategies index no_best s
        ≡ (first_candidate p policy strategies index s >>= λ r. ok (best_of r.0, r.1))
  unfolding audition first_candidate try_strategy settle
  audition-first [] index s = refl
  audition-first (none ∷ strategies) index s = audition-first strategies (index + 1) s
  audition-first (some f ∷ strategies) index s =
      rw (no_clock no_best s) (asked (audition-first strategies (index + 1)) (f p policy s))
    where
      asked :
          ((t : State World)
            → audition bench p policy strategies (index + 1) no_best t
              ≡ (first_candidate p policy strategies (index + 1) t >>= λ r. ok (best_of r.0, r.1)))
          → (r : Run (Option Plan × State World))
          → ((r >>= λ x. ok (settle bench p policy x.0 index no_best x.1)) >>= λ t.
              (let rest = audition bench p policy strategies (index + 1) t.1 t.2 in
                if t.0 then ok (t.1, t.2) else rest))
            ≡ ((r >>= λ x. elim x.0 [
              | none ↦ first_candidate p policy strategies (index + 1) x.1
              | some plan ↦ ok (some (plan, index), x.1)
            ])
                >>= λ x. ok (best_of x.0, x.1))
      asked next abort = refl
      asked next (ok (none, t)) = next t
      asked next (ok (some c, t)) = rw (judge-taken c index t) refl

  -- The plan of the best candidate, and the state with what wisdom keeps of it.
  abbrev pub result_of :
      StdHash
      → List (Option (Strategy World Plan))
      → Option (Plan × ℕ) × State World
      → Run (Option Plan × State World)
  result_of h strategies r =
      let best : Best Plan Result = best_of r.0 in
      ok (best.plan, remember h bench strategies p policy best r.1)

  kept :
      (h : StdHash) (strategies : List (Option (Strategy World Plan)))
      (m : Run (Option (Plan × ℕ) × State World))
      → ((m >>= λ r. (let t : Best Plan Result × State World = (best_of r.0, r.1) in ok t)) >>= λ t.
          (let u : Option Plan × State World =
              (t.0.plan, remember h bench strategies p policy t.0 t.1) in
            ok u))
        ≡ (m >>= result_of h strategies)
  kept h strategies (ok r) = refl
  kept h strategies abort = refl

  -- With pruning allowed, a problem that wisdom does not know gets the plan of the first strategy
  -- that makes one, whatever the clock and the measurements say, and wisdom keeps its index.
  pub make_plan_impl-first_candidate :
      (h : StdHash) (strategies : List (Option (Strategy World Plan))) (s : State World)
      → lookup h p policy s.wisdom ≡ none
      → make_plan_impl h bench strategies p policy s
        ≡ (first_candidate p policy strategies 0 s >>= result_of h strategies)
  unfolding make_plan_impl
  make_plan_impl-first_candidate h strategies s fresh =
      rw (fresh, make_plan_impl, audition-first strategies 0 s)
        (kept h strategies (first_candidate p policy strategies 0 s))
