-- ===== src/Planned/Examples.antt =====
-- The planner of src/planner/planner.cpp on a concrete problem: it plans four points as two stages of
-- two, and the plan is run.
use native.Mathlib.Nat.{dvd_iff_mod-eq-zero}
use mathlib.Core.Option.{none-ne-some}
use perf_libs_fft.Base.{
  ℕ, suc, ◌+◌, ◌<◌, ◌≡◌, refl, ap, true, false, List, [], ◌∷◌, Option, none, some, arith,
}
use perf_libs_fft.Base.Int.{pos, pos_part, int_eq, ltb_ℤ, ◌*ℤ◌}
use perf_libs_fft.Containers.HashMap
use perf_libs_fft.Execution.Concrete.{
  five_machine, start, from_input, to_output, input-ne-output, packed-Apart, kernels, output_inside,
}
use perf_libs_fft.Execution.Contract.{Transformed}
use perf_libs_fft.Execution.Execute.{execute}
use perf_libs_fft.Factorize.Factors.{is_base_n}
use perf_libs_fft.Fourier.Five.{five_numbers, fourth_root, fourth_root-IsRoots}
use perf_libs_fft.Planned.{Fits, is_plain}
use perf_libs_fft.Planned.Flat.{is_flat, planner_of-is_flat}
use perf_libs_fft.Planned.Planner.{planner_of-Transforms}
use perf_libs_fft.Planner.CooleyTukey.{is_dit, ab_is_applicable, cooley_tukey_ab_make_plan}
use perf_libs_fft.Planner.Plans.{Plan, direct_plan, cooley_tukey_plan, ab_twid_direct_plan}
use perf_libs_fft.Planner.Policy.{Policy, contains}
use perf_libs_fft.Planner.Problem.{Problem, fp32, c2c, forward, make_problem}
use perf_libs_fft.Planner.Recursion.{Others, table, plan_with, planner_of}
use perf_libs_fft.Planner.Recursion.Fuel.{planner_of-enough}
use perf_libs_fft.Planner.Recursion.Weight.{weight, spread}
use perf_libs_fft.Planner.Run.{Run, ok, abort, ok-injective}
use perf_libs_fft.Planner.Search.{
  State, Bench, Strategy, make_plan_impl, audition, remember, out_of_time, judge, settle,
  try_strategy, replaces,
}
use perf_libs_fft.Planner.Strategies.{
  direct_make_plan, strategies, strategy_of, of_precision, make_plan,
}
use perf_libs_fft.Planner.Wisdom.{StdHash, lookup, update, no_wisdom, problem_hash, hash_combine}

abbrev std_hash : StdHash
std_hash = record {
  of_kind = λ _. 0;
  of_precision = λ _. 1;
  of_int = λ i. pos_part i;
  of_direction = λ _. 2;
}

-- A bench that measures nothing but that it was asked.
abbrev bench : Bench ℕ (Plan ℕ) ℕ
bench = record {
  timed_out = λ w. (false, w);
  measure = λ p plan best w. (some w, w + 1);
  prefers = λ a b. false;
}

abbrev refuses : Strategy ℕ (Plan ℕ)
refuses p policy s = ok (none, s)

abbrev no_others : Others ℕ ℕ
no_others x y name p policy s = ok (none, s)

abbrev two : List ℕ
two = 2 ∷ []

abbrev four_points : Problem
four_points = record {
  kind = c2c;
  precision = fp32;
  n = pos 4;
  istride = pos 1;
  ostride = pos 1;
  howmany = pos 1;
  idist = pos 4;
  odist = pos 4;
  dir = forward;
}

abbrev column_problem : Problem
column_problem = record {
  kind = c2c;
  precision = fp32;
  n = pos 2;
  istride = pos 2;
  ostride = pos 2;
  howmany = pos 2;
  idist = pos 1;
  odist = pos 1;
  dir = forward;
}

abbrev pruning : Policy
pruning = record { mask = 5 }

abbrev unplanned : State ℕ
unplanned = record { wisdom = no_wisdom; world = 0 }

-- Like `pruning`, without convolutions.
abbrev plain : Policy
plain = record { mask = 4 }

abbrev after_columns : Policy → State ℕ
after_columns policy = record {
  wisdom = update std_hash column_problem (record { strategy_idx = 0; policy = policy }) no_wisdom;
  world = 0;
}

abbrev column_plan : Plan ℕ
column_plan = direct_plan (pos 2) (pos 2) (pos 2) (pos 2) (pos 1) (pos 1) forward false

abbrev after_four_points : Policy → State ℕ
after_four_points policy = record {
  wisdom =
      update std_hash four_points (record { strategy_idx = 67; policy = policy })
        (after_columns policy).wisdom;
  world = 0;
}

abbrev four_point_plan : Plan ℕ
four_point_plan =
    cooley_tukey_plan (pos 4) (pos 1) column_plan
      (ab_twid_direct_plan (pos 2) (pos 1) (pos 2) (pos 2) (pos 2) (pos 1) forward false)

four_points_planned :
    (bottom : Strategy ℕ (Plan ℕ)) (below : ℕ)
    → planner_of std_hash bench two false false no_others bottom
        (suc (suc below))
        four_points
        pruning
        unplanned
      ≡ ok (some four_point_plan, after_four_points pruning)
unfolding planner_of plan_with table make_plan of_precision make_plan_impl audition try_strategy
    settle judge replaces out_of_time remember contains strategies strategy_of direct_make_plan
    is_base_n cooley_tukey_ab_make_plan ab_is_applicable is_dit make_problem ◌*ℤ◌ int_eq ltb_ℤ
    lookup no_wisdom problem_hash hash_combine HashMap.find HashMap.find_chain HashMap.empty
four_points_planned bottom below = refl

four_points_planned_plain :
    (bottom : Strategy ℕ (Plan ℕ)) (below : ℕ)
    → planner_of std_hash bench two false false no_others bottom
        (suc (suc below))
        four_points
        plain
        unplanned
      ≡ ok (some four_point_plan, after_four_points plain)
unfolding planner_of plan_with table make_plan of_precision make_plan_impl audition try_strategy
    settle judge replaces out_of_time remember contains strategies strategy_of direct_make_plan
    is_base_n cooley_tukey_ab_make_plan ab_is_applicable is_dit make_problem ◌*ℤ◌ int_eq ltb_ℤ
    lookup no_wisdom problem_hash hash_combine HashMap.find HashMap.find_chain HashMap.empty
four_points_planned_plain bottom below = refl

never_planned :
    (s t : State ℕ) (plan : Plan ℕ)
    → ◌≡◌ {A = Run (Option (Plan ℕ) × State ℕ)} (ok (none, s)) (ok (some plan, t))
    → ⊥
never_planned s t plan e =
    none-ne-some plan (ap (λ (r : Option (Plan ℕ) × State ℕ). r.0) (ok-injective _ _ e))

above : (n : ℕ) → is_base_n n two ≡ true → 1 < n
unfolding is_base_n
above n e = ground arith

four_points_fit : Fits 8 4 four_points
four_points_fit = record {
  length = 4;
  count = 1;
  complex = refl;
  n = refl;
  howmany = refl;
  some_count = omega arith;
  size = omega arith;
  divides = (dvd_iff_mod-eq-zero 4).1 refl;
}

-- A depth at which four points are planned.
abbrev deep : ℕ
deep = suc (suc (weight four_points + spread two 4))

four_points_plain : is_plain four_point_plan ≡ true
unfolding is_plain
four_points_plain = refl

planner_of-Transforms_example :
    Transformed fourth_root
      (execute five_machine four_point_plan)
      4
      (pos 1)
      (pos 1)
      1
      (pos 4)
      (pos 4)
      from_input
      to_output
      start
planner_of-Transforms_example =
    planner_of-Transforms five_machine two 4 (λ dir. fourth_root-IsRoots)
      (λ n dir want_sme kernel. kernels n (omega (arith, above n kernel))) above std_hash bench
      false false no_others refuses deep four_points pruning unplanned (after_four_points pruning)
      four_point_plan four_points_fit (omega arith) (four_points_planned refuses _)
      four_points_plain 4 1 refl refl from_input to_output start tt tt input-ne-output (omega arith)
      (packed-Apart 1 4) (λ c h. output_inside _)

aborts : Strategy ℕ (Plan ℕ)
aborts p policy s = abort

planner_of-enough_example :
    planner_of std_hash bench two false false no_others refuses deep four_points pruning unplanned
    ≡ planner_of std_hash bench two false false no_others aborts
        (suc deep)
        four_points
        pruning
        unplanned
planner_of-enough_example =
    planner_of-enough std_hash bench two above false false no_others refuses aborts deep (suc deep)
      four_points pruning unplanned (omega arith) (omega arith)

planner_of-is_flat_example : is_flat four_point_plan ≡ true
unfolding contains
planner_of-is_flat_example =
    planner_of-is_flat std_hash bench two false false no_others refuses 2
      (λ p policy s t plan without e. absurd (never_planned s t plan e)) four_points plain unplanned
      (after_four_points plain) four_point_plan refl (four_points_planned_plain refuses 0)
