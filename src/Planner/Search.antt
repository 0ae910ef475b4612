-- ===== src/Planner/Search.antt =====
-- `planner::make_plan_impl` of src/planner/planner.cpp: recall a plan from wisdom, or audition the
-- strategies. The strategies, the clock and the measurements are parameters; a strategy may use the
-- planner in turn, so it takes and returns the whole state.
pub mod Rounds
pub mod Outcome
pub mod Refusal
pub mod Pruning
pub mod Ranking
pub mod Provenance
use perf_libs_fft.Base.{
  ℕ, ◌+◌, Bool, true, false, not, ◌&&◌, ◌||◌, List, [], ◌∷◌, Option, none, some, get_elem?,
  if◌then◌else◌,
}
use perf_libs_fft.Planner.Policy.{Policy, contains, allow_pruning}
use perf_libs_fft.Planner.Problem.{Problem}
use perf_libs_fft.Planner.Run.{Run, ok, abort, ◌>>=◌}
use perf_libs_fft.Planner.Wisdom.{Wisdom, Entry, StdHash, lookup, update}

-- What the planner shares by reference. The clock and the machine are in the world.
pub record State (World : Type 0) : Type 0 where
  pub wisdom : Wisdom
  pub world : World

-- `plfft::benchmarker`, as the planner calls it.
pub record Bench (World Plan Result : Type 0) : Type 0 where
  pub timed_out : World → Bool × World
  pub measure : Problem → Plan → Option Result → World → Option Result × World
  pub prefers : Result → Result → Bool

-- `strategy::make_plan`, with the policy of the planner that is passed.
abbrev pub Strategy : Type 0 → Type 0 → Type 0
Strategy World Plan = Problem → Policy → State World → Run (Option Plan × State World)

pub record Best (Plan Result : Type 0) : Type 0 where
  pub plan : Option Plan
  pub strategy_index : Option ℕ
  pub result : Option Result

abbrev pub is_some {ℓ} : {A : Type ℓ} → Option A → Bool
is_some none = false
is_some (some a) = true

module _ {World Plan Result : Type 0} (bench : Bench World Plan Result) (p : Problem)
    (policy : Policy) where
  -- Stop if the time has run out, provided there is a valid plan. The clock is read only then.
  unfoldable pub out_of_time : Best Plan Result → State World → Bool × State World
  out_of_time best s =
      if not (contains policy allow_pruning) && is_some best.plan
      then (let (late, world) = bench.timed_out s.world in (late, record s { world = world }))
      else (false, s)

  -- The challenger is better if there is no best plan or result, or if the bench prefers it.
  unfoldable pub replaces : Result → Best Plan Result → Bool
  replaces result best = elim best.result [
    | none ↦ true
    | some incumbent ↦ not (is_some best.plan) || bench.prefers result incumbent
  ]

  -- The handling of a candidate; the flag says that the loop is left.
  unfoldable pub judge :
      Plan → ℕ → Best Plan Result → State World → Bool × Best Plan Result × State World
  unfolding replaces
  judge candidate index best s =
      if contains policy allow_pruning
      then (true, record best { plan = some candidate; strategy_index = some index }, s)
      else (let (result, world) = bench.measure p candidate best.result s.world in
          elim result [
            | none ↦ (
              true,
              (if is_some best.plan
                  then best
                  else record best { plan = some candidate; strategy_index = some index }),
              record s { world = world },
            )
            | some r ↦ (
              false,
              (if replaces r best
                  then record {
                    plan = some candidate;
                    strategy_index = some index;
                    result = some r;
                  }
                  else best),
              record s { world = world },
            )
          ])

  -- A strategy that gives no plan leaves all as it is.
  unfoldable pub settle :
      Option Plan → ℕ → Best Plan Result → State World → Bool × Best Plan Result × State World
  settle none index best s = (false, best, s)
  settle (some candidate) index best s = judge candidate index best s

  -- One strategy that is there.
  unfoldable pub try_strategy :
      Strategy World Plan
      → ℕ
      → Best Plan Result
      → State World
      → Run (Bool × Best Plan Result × State World)
  try_strategy strategy index best s =
      let (late, s₁) = out_of_time best s in
      if late
      then ok (true, best, s₁)
      else strategy p policy s₁ >>= λ r. ok (settle r.0 index best r.1)

  -- The loop over the strategies; an empty slot only counts.
  unfoldable pub audition :
      List (Option (Strategy World Plan))
      → ℕ
      → Best Plan Result
      → State World
      → Run (Best Plan Result × State World)
  audition [] index best s = ok (best, s)
  audition (none ∷ strategies) index best s = audition strategies (index + 1) best s
  audition (some strategy ∷ strategies) index best s = try_strategy strategy index best s >>= λ t.
      (let rest = audition strategies (index + 1) t.1 t.2 in if t.0 then ok (t.1, t.2) else rest)

abbrev pub no_best : {Plan Result : Type 0} → Best Plan Result
no_best = record { plan = none; strategy_index = none; result = none }

module _ {World Plan Result : Type 0} (h : StdHash) (bench : Bench World Plan Result)
    (strategies : List (Option (Strategy World Plan))) where
  -- A plan from the strategy and the policy that wisdom kept; none is a broken promise.
  unfoldable pub recall : Entry → Problem → State World → Run (Option Plan × State World)
  recall entry p s = elim (get_elem? strategies entry.strategy_idx) [
    | none ↦ abort
    | some none ↦ abort
    | some (some strategy) ↦ strategy p entry.policy s >>= λ r. elim r.0 [
      | none ↦ abort
      | some plan ↦ ok (some plan, r.1)
    ]
  ]

  -- Wisdom about the best strategy is kept.
  unfoldable pub remember : Problem → Policy → Best Plan Result → State World → State World
  remember p policy best s = elim best.strategy_index [
    | none ↦ s
    | some index ↦ record s {
      wisdom = update h p (record { strategy_idx = index; policy = policy }) s.wisdom;
    }
  ]

  unfoldable pub make_plan_impl : Strategy World Plan
  make_plan_impl p policy s = elim (lookup h p policy s.wisdom) [
    | some entry ↦ recall entry p s
    | none ↦ audition bench p policy strategies 0 no_best s >>= λ r.
        ok (r.0.plan, remember p policy r.0 r.1)
  ]
