-- ===== src/Planner/Strategies.antt =====
-- The table of strategies of src/planner/planner.cpp, and the strategies of
-- src/planner/strategies/direct.hpp, loop.hpp and fft1.hpp. The strategy `direct_sme2` is a
-- parameter, and so is the list of the lengths that have a kernel.
pub mod Table
pub mod Complete
use mathlib.Core.Option
use perf_libs_fft.Base.{
  ℕ, suc, Bool, true, false, not, ◌&&◌, List, [], ◌∷◌, ◌++◌, map, Option, none, some, if◌then◌else◌,
}
use perf_libs_fft.Base.Int.{ℤ, pos, int_eq, ltb_ℤ}
use perf_libs_fft.Factorize.Factors.{is_base_n}
use perf_libs_fft.Planner.CooleyTukey.{cooley_tukey_ab_make_plan, cooley_tukey_ac_make_plan}
use perf_libs_fft.Planner.Convolutions.{
  convolution_make_plan, cooley_tukey_convolution_ab_make_plan,
  cooley_tukey_convolution_ac_make_plan,
}
use perf_libs_fft.Planner.Plans.{
  rader, bluestein, Plan, direct_plan, loop_plan, fft1_plan, other_plan,
}
use perf_libs_fft.Planner.Policy.{Policy, contains, allow_sme}
use perf_libs_fft.Planner.Problem.{
  Problem, Direction, ElementType, RuntimePrecision, fp16, fp32, fp64, q0_7, q0_15, make_problem,
  c2c, r2c, c2r,
}
use perf_libs_fft.Planner.Run.{Run, ok, abort, ◌>>=◌}
use perf_libs_fft.Planner.Search.{State, Strategy}

pub data StrategyName : Type 0 where
  direct direct_sme2 cooley_tukey_ab cooley_tukey_ac : ℕ → StrategyName
  cooley_tukey_rader_ab cooley_tukey_rader_ac cooley_tukey_bluestein_ab cooley_tukey_bluestein_ac
        rader_strategy bluestein_strategy loop fft1 :
      StrategyName

abbrev pub direct_lengths : List ℕ
direct_lengths =
    2 ∷ 3 ∷ 4 ∷ 5 ∷ 6 ∷ 7 ∷ 8 ∷ 9 ∷ 10 ∷ 11 ∷ 12 ∷ 13 ∷ 14 ∷ 15 ∷ 16 ∷ 17 ∷ 18 ∷ 19 ∷ 20 ∷ 21 ∷ 22
    ∷ 24 ∷ 25 ∷ 26 ∷ 28 ∷ 30 ∷ 32 ∷ 33 ∷ 34 ∷ 35 ∷ 36 ∷ 38 ∷ 39 ∷ 40 ∷ []

abbrev pub sme2_lengths : List ℕ
sme2_lengths =
    32 ∷ 48 ∷ 64 ∷ 80 ∷ 96 ∷ 112 ∷ 128 ∷ 144 ∷ 160 ∷ 176 ∷ 192 ∷ 208 ∷ 224 ∷ 240 ∷ 256 ∷ []

-- The longest first.
abbrev pub cooley_tukey_lengths : List ℕ
cooley_tukey_lengths =
    40 ∷ 39 ∷ 38 ∷ 36 ∷ 35 ∷ 34 ∷ 33 ∷ 32 ∷ 30 ∷ 28 ∷ 26 ∷ 25 ∷ 24 ∷ 22 ∷ 21 ∷ 20 ∷ 19 ∷ 18 ∷ 17
    ∷ 16 ∷ 15 ∷ 14 ∷ 13 ∷ 12 ∷ 11 ∷ 10 ∷ 9 ∷ 8 ∷ 7 ∷ 6 ∷ 5 ∷ 4 ∷ 3 ∷ 2 ∷ []

abbrev pub is_integral : RuntimePrecision → Bool
is_integral fp16 = false
is_integral fp32 = false
is_integral fp64 = false
is_integral q0_7 = true
is_integral q0_15 = true

-- An empty slot for the integral types.
pub make_for_floating_point : StrategyName → ElementType → Option StrategyName
make_for_floating_point name x = if is_integral x.real_type then none else some name

-- `strategies<Tx, Ty>`; the flag is PLFFT_ENABLE_SME2.
unfoldable pub strategies : Bool → ElementType → List (Option StrategyName)
unfolding make_for_floating_point
strategies enable_sme2 x =
    map (λ n. some (direct n)) direct_lengths
    ++ ((if enable_sme2 then map (λ n. some (direct_sme2 n)) sme2_lengths else [])
        ++ (map (λ n. some (cooley_tukey_ab n)) cooley_tukey_lengths
            ++ (map (λ n. some (cooley_tukey_ac n)) cooley_tukey_lengths
                ++ (make_for_floating_point cooley_tukey_rader_ab x
                    ∷ make_for_floating_point cooley_tukey_rader_ac x
                    ∷ make_for_floating_point cooley_tukey_bluestein_ab x
                    ∷ make_for_floating_point cooley_tukey_bluestein_ac x
                    ∷ make_for_floating_point rader_strategy x
                    ∷ make_for_floating_point bluestein_strategy x
                    ∷ some loop
                    ∷ some fft1
                    ∷ []))))

module _ {World Other : Type 0} (kernel_ns : List ℕ) (x y : ElementType) where
  -- `direct<Tx, Ty>(n)`; the second test reads `p.n`, which by then is `n`.
  unfoldable pub direct_make_plan : ℕ → Strategy World (Plan Other)
  direct_make_plan n p policy s =
      if int_eq p.n (pos n) && is_base_n n kernel_ns
      then ok (
        some (
            direct_plan p.n p.istride p.ostride p.howmany p.idist p.odist p.dir
              (contains policy allow_sme)),
        s,
      )
      else ok (none, s)

  -- `loop<Tx, Ty>`, which asks the planner for the plan of one transform.
  unfoldable pub loop_make_plan : Strategy World (Plan Other) → Strategy World (Plan Other)
  loop_make_plan planner p policy s =
      if ltb_ℤ (pos 1) p.n && ltb_ℤ (pos 1) p.howmany
      then (planner (make_problem x y p.n p.istride p.ostride (pos 1) (pos 0) (pos 0) p.dir) policy
            s
          >>= λ r. ok (Option.map (λ inner. loop_plan p.howmany p.idist p.odist inner) r.0, r.1))
      else ok (none, s)

  unfoldable pub fft1_make_plan : Strategy World (Plan Other)
  fft1_make_plan p policy s =
      if int_eq p.n (pos 1)
      then ok (some (fft1_plan p.howmany p.idist p.odist), s)
      else ok (none, s)

  -- A strategy that the model leaves open makes plans of its own class.
  abbrev pub other_make_plan : Strategy World Other → Strategy World (Plan Other)
  other_make_plan other p policy s =
      other p policy s >>= λ r. ok (Option.map (λ plan. other_plan plan) r.0, r.1)

  -- The strategy of a name.
  unfoldable pub strategy_of :
      (StrategyName → Strategy World Other)
      → Strategy World (Plan Other)
      → StrategyName
      → Strategy World (Plan Other)
  strategy_of others planner (direct n) = direct_make_plan n
  strategy_of others planner (cooley_tukey_ab r) = cooley_tukey_ab_make_plan kernel_ns x y r planner
  strategy_of others planner (cooley_tukey_ac r) = cooley_tukey_ac_make_plan kernel_ns x y r planner
  strategy_of others planner cooley_tukey_rader_ab =
      cooley_tukey_convolution_ab_make_plan kernel_ns x y rader planner
  strategy_of others planner cooley_tukey_rader_ac =
      cooley_tukey_convolution_ac_make_plan kernel_ns x y rader planner
  strategy_of others planner cooley_tukey_bluestein_ab =
      cooley_tukey_convolution_ab_make_plan kernel_ns x y bluestein planner
  strategy_of others planner cooley_tukey_bluestein_ac =
      cooley_tukey_convolution_ac_make_plan kernel_ns x y bluestein planner
  strategy_of others planner rader_strategy = convolution_make_plan kernel_ns x y rader planner
  strategy_of others planner bluestein_strategy =
      convolution_make_plan kernel_ns x y bluestein planner
  strategy_of others planner loop = loop_make_plan planner
  strategy_of others planner fft1 = fft1_make_plan
  strategy_of others planner (direct_sme2 n) = other_make_plan (others (direct_sme2 n))

-- `planner::make_plan`: the element types that the problem names; the flag is
-- PLFFT_ENABLE_FIXED_POINT.
module _ {A : Type 0} (enable_fixed_point : Bool)
    (make_plan_impl : ElementType → ElementType → Problem → Run A) where
  -- The inner switch, for the pair of types that a kind has.
  unfoldable pub of_precision : Bool → Bool → Problem → Run A
  of_precision x_is_complex y_is_complex p =
      let impl = λ (precision : RuntimePrecision).
        make_plan_impl (record { is_complex = x_is_complex; real_type = precision })
          (record { is_complex = y_is_complex; real_type = precision }) p in
      elim p.precision [
        | fp16 ↦ impl fp16
        | fp32 ↦ impl fp32
        | fp64 ↦ impl fp64
        | q0_7 ↦ if enable_fixed_point then impl q0_7 else abort
        | q0_15 ↦ if enable_fixed_point then impl q0_15 else abort
      ]

  unfoldable pub make_plan : Problem → Run A
  unfolding of_precision
  make_plan p = elim p.kind [
    | c2c ↦ of_precision true true p
    | r2c ↦ of_precision false true p
    | c2r ↦ of_precision true false p
  ]
