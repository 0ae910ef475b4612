-- ===== src/Planner/Examples.antt =====
-- The planner of src/planner on concrete data: a bench that counts its measurements, and a table of
-- three slots of which one is empty and one refuses.
mod Tables
use Prim.Native.Nat.{bit_and}
use mathlib.Core.Option.{some-injective, none-ne-some}
use perf_libs_fft.Base.{
  ℕ, zero, suc, ◌+◌, ◌≡◌, ◌≢◌, ◌↔◌, refl, sym, subst, ap, ◌∙◌, inl, inr, Bool, true, false, List,
  [], ◌∷◌, Option, none, some, ◌≤◌, ◌^◌, ltb, arith,
}
use perf_libs_fft.Base.Divides.{Prime}
use perf_libs_fft.Base.Int.{pos}
use perf_libs_fft.Containers.HashMap.{HashMap, empty}
use perf_libs_fft.Containers.HashMap.Laws.{find-empty}
use perf_libs_fft.Factorize.Factors.{is_base_n}
use perf_libs_fft.Factorize.SmallestPrime.{smallest_prime_factor}
use perf_libs_fft.Planner.Factors.{
  cached_smallest_prime_factor, is_prime, IsValid, empty-IsValid,
  cached_smallest_prime_factor-IsValid, is_prime-IsValid,
}
use perf_libs_fft.Planner.Policy.{
  Policy, contains, minus, allow_sme, allow_sme2, allow_pruning, allow_convolutions, allow_all,
  from_options,
}
use perf_libs_fft.Planner.Policy.Order.{contains-minus, from_options-grants}
use perf_libs_fft.Planner.Problem.{
  Problem, ElementType, fp32, c2c, forward, make_problem, equal, equal_iff,
}
use perf_libs_fft.Planner.Run.{ok, ◌>>=◌, ok-injective}
use perf_libs_fft.Planner.Search.{
  State, Bench, Strategy, Best, no_best, make_plan_impl, audition, remember, out_of_time, judge,
  settle, try_strategy, replaces,
}
use perf_libs_fft.Planner.Search.Outcome.{make_plan_impl-Remembered, Remembered, StrategiesKeep}
use perf_libs_fft.Planner.Search.Refusal.{AllRefuse, make_plan_impl-AllRefuse}
use perf_libs_fft.Planner.Search.Pruning.{
  first_candidate, result_of, make_plan_impl-first_candidate,
}
use perf_libs_fft.Planner.Search.Ranking.{audition-AtMost}
use perf_libs_fft.Planner.Plans.{Plan}
use perf_libs_fft.Planner.Strategies.{
  direct_lengths, loop, make_plan, StrategyName, strategies, strategy_of,
}
use perf_libs_fft.Planner.Strategies.Complete.{fill, make_plan_impl-some_plan}
use perf_libs_fft.Planner.Strategies.Table.{make_plan-make_problem}
use perf_libs_fft.Planner.Wisdom.{
  Entry, StdHash, lookup, update, no_wisdom, problem_hash, bucket_count,
}
use perf_libs_fft.Planner.Wisdom.Search.{Outcome}
use perf_libs_fft.Planner.Wisdom.Table as Table
use perf_libs_fft.Planner.Wisdom.Table.{
  lookup-Outcome, lookup-update, lookup-update_ne, update-IsValid, no_wisdom-IsValid,
}

abbrev pub std_hash : StdHash
std_hash = record {
  of_kind = λ _. 0;
  of_precision = λ _. 1;
  of_int = λ i. elim i [ pos n ↦ n | _ ↦ 0 ];
  of_direction = λ _. 2;
}

abbrev pub complex_float : ElementType
complex_float = record { is_complex = true; real_type = fp32 }

-- A transform of length `n`.
abbrev pub of_length : ℕ → Problem
of_length n = record {
  kind = c2c;
  precision = fp32;
  n = pos n;
  istride = pos 1;
  ostride = pos 1;
  howmany = pos 1;
  idist = pos 0;
  odist = pos 0;
  dir = forward;
}

abbrev pub measuring : Policy
measuring = record { mask = 1 }

abbrev pub pruning : Policy
pruning = record { mask = 5 }

-- A measurement is the plan's own number; the world counts them.
abbrev bench : Bench ℕ ℕ ℕ
bench = record {
  timed_out = λ w. (false, w);
  measure = λ p plan best w. (some plan, w + 1);
  prefers = ltb;
}

abbrev refuses : Strategy ℕ ℕ
refuses p policy s = ok (none, s)

abbrev makes : ℕ → Strategy ℕ ℕ
makes plan p policy s = ok (some plan, s)

abbrev slots : List (Option (Strategy ℕ ℕ))
slots = some refuses ∷ none ∷ some (makes 7) ∷ []

abbrev start : State ℕ
start = record { wisdom = no_wisdom; world = 0 }

nothing_known : (p : Problem) (policy : Policy) → lookup std_hash p policy no_wisdom ≡ none
unfolding lookup no_wisdom
nothing_known p policy =
    rw (find-empty {V = List Entry} (problem_hash std_hash) bucket_count p, lookup) refl

abbrev pub known : State ℕ
known = record {
  wisdom =
      update std_hash (of_length 8) (record { strategy_idx = 2; policy = measuring }) no_wisdom;
  world = 1;
}

planned : make_plan_impl std_hash bench slots (of_length 8) measuring start ≡ ok (some 7, known)
unfolding make_plan_impl audition try_strategy settle judge replaces out_of_time remember contains
planned = rw (nothing_known (of_length 8) measuring, make_plan_impl) refl

-- A strategy that leaves the state alone.
abbrev IsPure : Strategy ℕ ℕ → Type 0
IsPure f =
    (q : Problem) (policy : Policy) (s : State ℕ) → (r : Option ℕ) × (f q policy s ≡ ok (r, s))

pure-keeps :
    (g f : Strategy ℕ ℕ) (q : Problem) (policy : Policy) (s : State ℕ) (r : Option ℕ) (t : State ℕ)
    → IsPure g
    → some (some g) ≡ some (some f)
    → Table.IsValid std_hash s.wisdom
    → f q policy s ≡ ok (r, t)
    → Table.IsValid std_hash t.wisdom
pure-keeps g f q policy s r t pure e v run =
    let same : g ≡ f = some-injective _ _ (some-injective _ _ e) in
    let (o, given) = pure q policy s in
    let both : ◌≡◌ {A = Option ℕ × State ℕ} (o, s) (r, t) =
      ok-injective _ _ (sym given ∙ ap (λ (k : Strategy ℕ ℕ). k q policy s) same ∙ run) in
    subst (λ (x : State ℕ). Table.IsValid std_hash x.wisdom)
      (ap (λ (x : Option ℕ × State ℕ). x.1) both) v

keep : StrategiesKeep std_hash bench slots
keep zero f q policy s r t e v run =
    pure-keeps refuses f q policy s r t (λ _ _ _. (none, refl)) e v run
keep (suc zero) f q policy s r t e v run = absurd (none-ne-some _ (some-injective _ _ e))
keep (suc (suc zero)) f q policy s r t e v run =
    pure-keeps (makes 7) f q policy s r t (λ _ _ _. (some 7, refl)) e v run
keep (suc (suc (suc j))) f q policy s r t e v run = absurd (none-ne-some _ e)

make_plan_impl-Remembered_example :
    Remembered std_hash bench slots keep (of_length 8) measuring 7 known
make_plan_impl-Remembered_example =
    make_plan_impl-Remembered std_hash bench slots keep (of_length 8) measuring start known 7
      (no_wisdom-IsValid std_hash) (nothing_known (of_length 8) measuring) planned

-- Nothing but refusals.
abbrev refusals : List (Option (Strategy ℕ ℕ))
refusals = some refuses ∷ none ∷ some refuses ∷ []

make_plan_impl-AllRefuse_example :
    (make_plan_impl std_hash bench refusals (of_length 8) measuring start ≡ ok (none, start))
    ↔ AllRefuse bench (of_length 8) measuring refusals start start
make_plan_impl-AllRefuse_example =
    make_plan_impl-AllRefuse std_hash bench refusals (of_length 8) measuring start start
      (nothing_known (of_length 8) measuring)

can_prune : contains pruning allow_pruning ≡ true
unfolding contains
can_prune = refl

make_plan_impl-first_candidate_example :
    make_plan_impl std_hash bench slots (of_length 8) pruning start ≡ (
      first_candidate (of_length 8) pruning slots 0 start
      >>= result_of bench (of_length 8) pruning can_prune std_hash slots)
make_plan_impl-first_candidate_example =
    make_plan_impl-first_candidate bench (of_length 8) pruning can_prune std_hash slots start
      (nothing_known (of_length 8) pruning)

abbrev tree_bench : Bench ℕ (Plan ℕ) ℕ
tree_bench = record {
  timed_out = λ w. (true, w);
  measure = λ p plan best w. (some 1, w);
  prefers = ltb;
}

-- Strategies that are not modelled, and a planner, that find nothing.
abbrev no_others : StrategyName → Strategy ℕ ℕ
no_others name p policy s = ok (none, s)

abbrev no_plans : Strategy ℕ (Plan ℕ)
no_plans p policy s = ok (none, s)

abbrev kernels : List ℕ
kernels = 2 ∷ 8 ∷ []

listed_eight : is_base_n 8 direct_lengths ≡ true
unfolding is_base_n
listed_eight = refl

kernel_eight : is_base_n 8 kernels ≡ true
unfolding is_base_n
kernel_eight = refl

make_plan_impl-some_plan_example :
    make_plan_impl std_hash tree_bench
      (fill
        (strategy_of kernels complex_float complex_float no_others no_plans)
        (strategies false complex_float))
      (of_length 8)
      measuring
      start
    ≢ ok (none, start)
make_plan_impl-some_plan_example =
    make_plan_impl-some_plan std_hash tree_bench (of_length 8) measuring kernels complex_float
      complex_float false no_others no_plans start start (nothing_known (of_length 8) measuring)
      (inr (8, refl, listed_eight, kernel_eight))

make_plan-make_problem_example :
    make_plan {A = ElementType × ElementType} false
      (λ x y p. ok (x, y))
      (make_problem complex_float complex_float
        (pos 8)
        (pos 1)
        (pos 1)
        (pos 1)
        (pos 0)
        (pos 0)
        forward)
    ≡ ok (complex_float, complex_float)
make_plan-make_problem_example =
    make_plan-make_problem {A = ElementType × ElementType} (λ x y p. ok (x, y)) false complex_float
      complex_float (pos 8) (pos 1) (pos 1) (pos 1) (pos 0) (pos 0) forward refl refl

abbrev seven_best : Best ℕ ℕ
seven_best = record { plan = some 7; strategy_index = some 2; result = some 7 }

not_pruning : contains measuring allow_pruning ≡ false
unfolding contains
not_pruning = refl

auditioned :
    audition bench (of_length 8) measuring slots 0 no_best start
    ≡ ok (seven_best, record { wisdom = no_wisdom; world = 1 })
unfolding audition try_strategy settle judge replaces out_of_time contains
auditioned = refl

not_late : out_of_time bench (of_length 8) measuring no_best start ≡ (false, start)
unfolding out_of_time contains
not_late = refl

nothing_tried :
    try_strategy bench (of_length 8) measuring refuses 0 no_best start ≡ ok (false, no_best, start)
unfolding try_strategy settle out_of_time contains
nothing_tried = refl

audition-AtMost_example : 7 ≤ 7
audition-AtMost_example =
    audition-AtMost bench (of_length 8) measuring not_pruning (λ r. r) (λ a b. refl) slots 0 no_best
      start seven_best (record { wisdom = no_wisdom; world = 1 }) 7 auditioned
      (inr (no_best, start, nothing_tried, inl (start, start, 7, 1, not_late, refl, refl)))
