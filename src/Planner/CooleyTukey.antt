-- ===== src/Planner/CooleyTukey.antt =====
-- The strategies `cooley_tukey_ab` and `cooley_tukey_ac` of src/planner/strategies/cooley_tukey.hpp,
-- with the decimation of src/decimation.hpp. Products of strides are exact.
use mathlib.Core.Option
use perf_libs_fft.Base.{ℕ, ◌/◌, ◌%◌, Bool, not, ◌&&◌, ◌||◌, List, none, ◌==◌, if◌then◌else◌}
use perf_libs_fft.Base.Int.{pos, pos_part, int_eq, ltb_ℤ, ◌*ℤ◌}
use perf_libs_fft.Factorize.Factors.{is_base_n}
use perf_libs_fft.Planner.Plans.{Plan, ab_twid_direct_plan, ac_twid_direct_plan, cooley_tukey_plan}
use perf_libs_fft.Planner.Policy.{contains, allow_sme}
use perf_libs_fft.Planner.Problem.{Problem, ElementType, make_problem}
use perf_libs_fft.Planner.Run.{ok, ◌>>=◌}
use perf_libs_fft.Planner.Search.{Strategy}

-- `is_dit_v`: decimation in time, unless the output is real and the input complex.
unfoldable pub is_dit : ElementType → ElementType → Bool
is_dit x y = not (x.is_complex && not y.is_complex)

module _ {World Other : Type 0} (kernel_ns : List ℕ) (x y : ElementType) (r : ℕ)
    (planner : Strategy World (Plan Other)) where
  -- `cooley_tukey_ab::is_applicable`; the length is above the radix when its remainder is read.
  unfoldable pub ab_is_applicable : Problem → Bool
  ab_is_applicable p =
      ltb_ℤ (pos r) p.n
      && pos_part p.n % r == 0
      && is_base_n r kernel_ns
      && int_eq p.howmany (pos 1)

  unfoldable pub cooley_tukey_ab_make_plan : Strategy World (Plan Other)
  cooley_tukey_ab_make_plan p policy s =
      let m = pos (pos_part p.n / r) in
      let want_sme = contains policy allow_sme in
      let first_stage_planned =
        planner (make_problem x y m (p.istride *ℤ pos r) (pos r) (pos r) p.istride (pos 1) p.dir)
          policy s
        >>= λ planned. ok (
          Option.map
              (λ stage1. cooley_tukey_plan p.n (pos 1) stage1 (
                ab_twid_direct_plan (pos r) (pos 1) (p.ostride *ℤ m) m (pos r) p.ostride p.dir
                  want_sme))
              planned.0,
          planned.1,
        ) in
      let second_stage_planned =
        planner (make_problem x y m (pos r) (p.ostride *ℤ pos r) (pos r) (pos 1) p.ostride p.dir)
          policy s
        >>= λ planned. ok (
          Option.map
              (λ stage2.
                cooley_tukey_plan p.n (pos 1)
                  (ab_twid_direct_plan (pos r) (p.istride *ℤ m) (pos 1) m p.istride (pos r) p.dir
                    want_sme)
                  stage2)
              planned.0,
          planned.1,
        ) in
      if ab_is_applicable p
      then (if is_dit x y then first_stage_planned else second_stage_planned)
      else ok (none, s)

  -- `cooley_tukey_ac::is_applicable`
  unfoldable pub ac_is_applicable : Problem → Bool
  unfolding is_dit
  ac_is_applicable p =
      ltb_ℤ (pos r) p.n
      && pos_part p.n % r == 0
      && is_base_n r kernel_ns
      && ((is_dit x y && int_eq p.istride (p.howmany *ℤ p.idist) && int_eq p.odist (pos 1))
          || (not (is_dit x y)
              && int_eq p.idist (pos 1)
              && int_eq p.ostride (p.howmany *ℤ p.odist)))
      && ltb_ℤ (pos 1) p.howmany

  unfoldable pub cooley_tukey_ac_make_plan : Strategy World (Plan Other)
  cooley_tukey_ac_make_plan p policy s =
      let m = pos (pos_part p.n / r) in
      let rows = p.howmany *ℤ pos r in
      let want_sme = contains policy allow_sme in
      let first_stage_planned =
        planner (make_problem x y m (p.istride *ℤ pos r) rows rows p.idist (pos 1) p.dir) policy s
        >>= λ planned. ok (
          Option.map
              (λ stage1. cooley_tukey_plan p.n p.howmany stage1 (
                ac_twid_direct_plan (pos r) p.howmany (p.ostride *ℤ m) m rows p.ostride p.howmany
                  p.dir want_sme))
              planned.0,
          planned.1,
        ) in
      let second_stage_planned =
        planner (make_problem x y m rows (p.ostride *ℤ pos r) rows (pos 1) p.odist p.dir) policy s
        >>= λ planned. ok (
          Option.map
              (λ stage2.
                cooley_tukey_plan p.n p.howmany
                  (ac_twid_direct_plan (pos r) (p.istride *ℤ m) p.howmany m p.istride rows p.howmany
                    p.dir want_sme)
                  stage2)
              planned.0,
          planned.1,
        ) in
      if ac_is_applicable p
      then (if is_dit x y then first_stage_planned else second_stage_planned)
      else ok (none, s)
