-- ===== src/Planner/Recursion.antt =====
-- The planner as its strategies see it: `planner::make_plan` and `planner::make_plan_impl` of
-- src/planner/planner.cpp, whose strategies ask the planner for the parts of their plans.
pub mod Congruence
pub mod Weight
pub mod Convolutions
pub mod Fuel
use perf_libs_fft.Base.{ℕ, zero, suc, Bool, List, Option}
use perf_libs_fft.Planner.Plans.{Plan}
use perf_libs_fft.Planner.Problem.{ElementType}
use perf_libs_fft.Planner.Search.{State, Bench, Strategy, make_plan_impl}
use perf_libs_fft.Planner.Strategies.{StrategyName, strategies, strategy_of, make_plan}
use perf_libs_fft.Planner.Strategies.Complete.{fill}
use perf_libs_fft.Planner.Wisdom.{StdHash}

-- The strategies that the model leaves open, `direct_sme2`; they do not use the planner.
abbrev pub Others : Type 0 → Type 0 → Type 0
Others World Other = ElementType → ElementType → StrategyName → Strategy World Other

module _ {World Result Other : Type 0} (h : StdHash) (bench : Bench World (Plan Other) Result)
    (kernel_ns : List ℕ) (enable_fixed_point enable_sme2 : Bool) (others : Others World Other) where
  -- The table of strategies, which use the planner given.
  unfoldable pub table :
      Strategy World (Plan Other)
      → ElementType
      → ElementType
      → List (Option (Strategy World (Plan Other)))
  table planner x y =
      fill (strategy_of kernel_ns x y (others x y) planner) (strategies enable_sme2 x)

  -- One entry of the planner, whose strategies use the planner given.
  unfoldable pub plan_with : Strategy World (Plan Other) → Strategy World (Plan Other)
  plan_with planner p policy s =
      make_plan enable_fixed_point (λ x y q. make_plan_impl h bench (table planner x y) q policy s)
        p

  -- The planner, to a depth of the recursion; `bottom` is what stands below it.
  unfoldable pub planner_of : Strategy World (Plan Other) → ℕ → Strategy World (Plan Other)
  planner_of bottom zero = bottom
  planner_of bottom (suc depth) = plan_with (planner_of bottom depth)
