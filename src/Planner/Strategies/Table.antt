-- ===== src/Planner/Strategies/Table.antt =====
-- The dispatch of `planner::make_plan` on the types of a problem: src/planner/planner.cpp.
use perf_libs_fft.Base.{◌≡◌, Bool, true, not, ◌&&◌, ◌||◌, if◌then◌else◌, arith}
use perf_libs_fft.Base.Int.{ℤ}
use perf_libs_fft.Planner.Problem.{
  Problem, Direction, ElementType, make_problem, transform_kind_from_io_types,
}
use perf_libs_fft.Planner.Run.{Run, abort}
use perf_libs_fft.Planner.Strategies.{is_integral, of_precision, make_plan}

module _ {A : Type 0} (make_plan_impl : ElementType → ElementType → Problem → Run A) where
  -- A problem made for two types of one precision, not both real, is planned for just those types;
  -- without fixed point, a problem of integral types aborts.
  pub make_plan-make_problem :
      (enable_fixed_point : Bool) (x y : ElementType) (n istride ostride howmany idist odist : ℤ)
      (dir : Direction)
      → x.real_type ≡ y.real_type
      → x.is_complex || y.is_complex ≡ true
      → (let p = make_problem x y n istride ostride howmany idist odist dir in
          make_plan enable_fixed_point make_plan_impl p ≡ (
            if is_integral x.real_type && not enable_fixed_point
            then abort
            else make_plan_impl x y p))
  unfolding make_plan of_precision make_problem transform_kind_from_io_types
  make_plan-make_problem enable_fixed_point x y n istride ostride howmany idist odist dir same
        some_complex =
      ground arith
