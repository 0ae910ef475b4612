-- ===== src/Planner/Recursion/Fuel.antt =====
-- The depth of the recursion between `planner::make_plan` of src/planner/planner.cpp and the
-- strategies that ask the planner for parts: loop.hpp and cooley_tukey.hpp of src/planner/strategies.
use perf_libs_fft.Base.{
  ℕ, zero, suc, ◌+◌, ◌<◌, ◌≤◌, ◌≡◌, refl, inl, inr, Bool, true, false, ◌&&◌, List, Bool-cases,
  arith,
}
use perf_libs_fft.Base.Int.{pos, pos_part, ltb_ℤ}
use perf_libs_fft.Factorize.Factors.{is_base_n}
use perf_libs_fft.Planner.CooleyTukey.{
  is_dit, ab_is_applicable, ac_is_applicable, cooley_tukey_ab_make_plan, cooley_tukey_ac_make_plan,
}
use perf_libs_fft.Planner.Plans.{rader, bluestein, Plan}
use perf_libs_fft.Planner.Policy.{Policy, contains, minus, allow_convolutions}
use perf_libs_fft.Planner.Problem.{Problem, ElementType}
use perf_libs_fft.Planner.Recursion.Weight.{
  weight, guarded, either, asked_congr, counted, spread, spread_below, part_weight, single_weight,
}
use perf_libs_fft.Planner.Recursion.Convolutions.{
  convolution_congr, convolution_ab_congr, convolution_ac_congr,
}
use perf_libs_fft.Planner.Policy.Order.{Includes, Includes-trans, contains_iff, contains-minus}
use perf_libs_fft.Planner.Recursion.{Others, table, plan_with, planner_of}
use perf_libs_fft.Planner.Recursion.Congruence.{Alike-fill, make_plan_impl_congr, make_plan_congr}
use perf_libs_fft.Planner.Search.{State, Bench, Strategy, make_plan_impl}
use perf_libs_fft.Planner.Strategies.{
  StrategyName, direct, direct_sme2, cooley_tukey_ab, cooley_tukey_ac, cooley_tukey_rader_ab,
  cooley_tukey_rader_ac, cooley_tukey_bluestein_ab, cooley_tukey_bluestein_ac, rader_strategy,
  bluestein_strategy, loop, fft1, loop_make_plan, strategy_of, strategies,
}
use perf_libs_fft.Planner.Wisdom.{StdHash}

-- The lengths that have a kernel are above one.
module _ {World Other : Type 0} (kernel_ns : List ℕ)
    (above : (n : ℕ) → is_base_n n kernel_ns ≡ true → 1 < n) (x y : ElementType) (p : Problem)
    (policy : Policy) (f g : Strategy World (Plan Other))
    (same : (q : Problem) → weight q < weight p → (s : State World) → f q policy s ≡ g q policy s)
    (without : contains policy allow_convolutions ≡ true
      → (q : Problem) → weight q < spread kernel_ns (pos_part p.n)
      → (s : State World)
      → f q (minus policy allow_convolutions) s ≡ g q (minus policy allow_convolutions) s) where
  loop_congr :
      (s : State World)
      → loop_make_plan kernel_ns x y f p policy s ≡ loop_make_plan kernel_ns x y g p policy s
  unfolding loop_make_plan
  loop_congr s =
      guarded (ltb_ℤ (pos 1) p.n && ltb_ℤ (pos 1) p.howmany) _ _ _
        (λ test. asked_congr _ _ _ (same _ (single_weight x y p test) s))

  module _ (r : ℕ) where
    ab_test : ab_is_applicable kernel_ns x y r f p ≡ true → (1 < r) × (ltb_ℤ (pos r) p.n ≡ true)
    unfolding ab_is_applicable
    ab_test test =
        let base : is_base_n r kernel_ns ≡ true = ground arith in (above r base, ground arith)

    ab_congr :
        (s : State World)
        → cooley_tukey_ab_make_plan kernel_ns x y r f p policy s
          ≡ cooley_tukey_ab_make_plan kernel_ns x y r g p policy s
    unfolding cooley_tukey_ab_make_plan ab_is_applicable
    ab_congr s = guarded (ab_is_applicable kernel_ns x y r f p) _ _ _ (λ test.
        (let (one, less) = ab_test test in
          either (is_dit x y) _ _ _ _
            (asked_congr _ _ _ (same _ (part_weight x y p r _ _ _ _ _ one less) s))
            (asked_congr _ _ _ (same _ (part_weight x y p r _ _ _ _ _ one less) s))))

    ac_test : ac_is_applicable kernel_ns x y r f p ≡ true → (1 < r) × (ltb_ℤ (pos r) p.n ≡ true)
    unfolding ac_is_applicable
    ac_test test =
        let base : is_base_n r kernel_ns ≡ true = ground arith in (above r base, ground arith)

    ac_congr :
        (s : State World)
        → cooley_tukey_ac_make_plan kernel_ns x y r f p policy s
          ≡ cooley_tukey_ac_make_plan kernel_ns x y r g p policy s
    unfolding cooley_tukey_ac_make_plan ac_is_applicable
    ac_congr s = guarded (ac_is_applicable kernel_ns x y r f p) _ _ _ (λ test.
        (let (one, less) = ac_test test in
          either (is_dit x y) _ _ _ _
            (asked_congr _ _ _ (same _ (part_weight x y p r _ _ _ _ _ one less) s))
            (asked_congr _ _ _ (same _ (part_weight x y p r _ _ _ _ _ one less) s))))

  strategy_of_congr :
      (others : StrategyName → Strategy World Other) (name : StrategyName) (s : State World)
      → strategy_of kernel_ns x y others f name p policy s
        ≡ strategy_of kernel_ns x y others g name p policy s
  unfolding strategy_of
  strategy_of_congr others (direct n) s = refl
  strategy_of_congr others (direct_sme2 n) s = refl
  strategy_of_congr others fft1 s = refl
  strategy_of_congr others loop s = loop_congr s
  strategy_of_congr others (cooley_tukey_ab r) s = ab_congr r s
  strategy_of_congr others (cooley_tukey_ac r) s = ac_congr r s
  strategy_of_congr others cooley_tukey_rader_ab s =
      convolution_ab_congr kernel_ns x y rader p policy f g same without s
  strategy_of_congr others cooley_tukey_rader_ac s =
      convolution_ac_congr kernel_ns x y rader p policy f g same without s
  strategy_of_congr others cooley_tukey_bluestein_ab s =
      convolution_ab_congr kernel_ns x y bluestein p policy f g same without s
  strategy_of_congr others cooley_tukey_bluestein_ac s =
      convolution_ac_congr kernel_ns x y bluestein p policy f g same without s
  strategy_of_congr others rader_strategy s =
      convolution_congr kernel_ns x y rader p policy f g same without s
  strategy_of_congr others bluestein_strategy s =
      convolution_congr kernel_ns x y bluestein p policy f g same without s

-- A part of a policy without convolutions has none.
pub part_without :
    (policy q : Policy)
    → Includes policy q
    → contains policy allow_convolutions ≡ false
    → contains q allow_convolutions ≡ false
part_without policy q part none = elim (Bool-cases (contains q allow_convolutions)) [
  | inr none_left ↦ none_left
  | inl some_left ↦
      let includes =
        Includes-trans policy q allow_convolutions part
          ((contains_iff q allow_convolutions).0 some_left) in
      let had = (contains_iff policy allow_convolutions).1 includes in absurd (cc)
]

minus_without :
    (policy : Policy) → contains (minus policy allow_convolutions) allow_convolutions ≡ false
minus_without policy =
    elim (Bool-cases (contains (minus policy allow_convolutions) allow_convolutions)) [
      | inr none_left ↦ none_left
      | inl some_left ↦
          let (_, apart) =
            (contains-minus policy allow_convolutions allow_convolutions (omega arith)
                (omega arith)).0
              some_left in
          absurd (omega (arith, apart))
    ]

not_longer : (p q : Problem) → weight q < weight p → pos_part q.n ≤ pos_part p.n
unfolding weight
not_longer p q lighter = omega (arith, lighter, counted (ltb_ℤ (pos 1) p.howmany))

module _ {World Result Other : Type 0} (h : StdHash) (bench : Bench World (Plan Other) Result)
    (kernel_ns : List ℕ) (above : (n : ℕ) → is_base_n n kernel_ns ≡ true → 1 < n)
    (enable_fixed_point enable_sme2 : Bool) (others : Others World Other) where
  abbrev planner : Strategy World (Plan Other) → ℕ → Strategy World (Plan Other)
  planner = planner_of h bench kernel_ns enable_fixed_point enable_sme2 others

  plan_with_congr :
      (f g : Strategy World (Plan Other)) (p : Problem) (policy : Policy) (s : State World)
      → ((q : Policy)
          → Includes policy q
          → (r : Problem) → weight r < weight p
          → (t : State World) → f r q t ≡ g r q t)
      → ((q : Policy)
          → Includes policy q
          → contains q allow_convolutions ≡ true
          → (r : Problem) → weight r < spread kernel_ns (pos_part p.n)
          → (t : State World)
          → f r (minus q allow_convolutions) t ≡ g r (minus q allow_convolutions) t)
      → plan_with h bench kernel_ns enable_fixed_point enable_sme2 others f p policy s
        ≡ plan_with h bench kernel_ns enable_fixed_point enable_sme2 others g p policy s
  unfolding plan_with table
  plan_with_congr f g p policy s same without =
      let slots = λ (x y : ElementType) (planner : Strategy World (Plan Other)).
        table h bench kernel_ns enable_fixed_point enable_sme2 others planner x y in
      make_plan_congr enable_fixed_point (λ x y q. make_plan_impl h bench (slots x y f) q policy s)
        (λ x y q. make_plan_impl h bench (slots x y g) q policy s) p
        (λ x y. make_plan_impl_congr h bench p (slots x y f) (slots x y g) policy s (
          Alike-fill policy p _ _ (strategies enable_sme2 x) (λ name q part t.
            strategy_of_congr kernel_ns above x y p q f g (same q part) (without q part)
              (others x y) name t)))

  -- Without convolutions, the parts of a plan are lighter than the whole.
  enough_without :
      (bottom bottom' : Strategy World (Plan Other)) (depth depth' : ℕ) (p : Problem)
      (policy : Policy) (s : State World)
      → contains policy allow_convolutions ≡ false
      → weight p < depth
      → weight p < depth'
      → planner bottom depth p policy s ≡ planner bottom' depth' p policy s
  unfolding planner_of
  enough_without bottom bottom' zero depth' p policy s none enough enough' =
      absurd (omega (arith, enough))
  enough_without bottom bottom' (suc depth) zero p policy s none enough enough' =
      absurd (omega (arith, enough'))
  enough_without bottom bottom' (suc depth) (suc depth') p policy s none enough enough' =
      plan_with_congr (planner bottom depth) (planner bottom' depth') p policy s
        (λ q part r less t.
          enough_without bottom bottom' depth depth' r q t (part_without policy q part none)
            (omega (arith, less, enough)) (omega (arith, less, enough')))
        (λ q part allowed. (let no = part_without policy q part none in absurd (cc)))

  -- The recursion between the planner and its strategies ends: from a depth above the sum of the
  -- weight of the problem, which is twice its length and one more for a batch, and of the bound for
  -- the lengths of the convolutions that it may lead to, the planner answers, plan and state and
  -- abort alike, as it does at any other such depth and with anything else below. The lengths that
  -- have a kernel are above one.
  pub planner_of-enough :
      (bottom bottom' : Strategy World (Plan Other)) (depth depth' : ℕ) (p : Problem)
      (policy : Policy) (s : State World)
      → weight p + spread kernel_ns (pos_part p.n) < depth
      → weight p + spread kernel_ns (pos_part p.n) < depth'
      → planner_of h bench kernel_ns enable_fixed_point enable_sme2 others bottom depth p policy s
        ≡ planner_of h bench kernel_ns enable_fixed_point enable_sme2 others bottom' depth' p policy
            s
  unfolding planner_of
  planner_of-enough bottom bottom' zero depth' p policy s enough enough' =
      absurd (omega (arith, enough))
  planner_of-enough bottom bottom' (suc depth) zero p policy s enough enough' =
      absurd (omega (arith, enough'))
  planner_of-enough bottom bottom' (suc depth) (suc depth') p policy s enough enough' =
      plan_with_congr (planner bottom depth) (planner bottom' depth') p policy s
        (λ q part r less t.
          (let mono = spread_below kernel_ns (pos_part r.n) (pos_part p.n) (not_longer p r less) in
            planner_of-enough bottom bottom' depth depth' r q t (omega (arith, less, enough, mono))
              (omega (arith, less, enough', mono))))
        (λ q part allowed r less t.
          enough_without bottom bottom' depth depth' r (minus q allow_convolutions) t
            (minus_without q) (omega (arith, less, enough)) (omega (arith, less, enough')))
