-- ===== src/Planned/Flat.antt =====
-- What `planner::without` of src/planner/planner.hpp is for: under a policy without convolutions, the
-- planner of src/planner/planner.cpp makes plans without convolutions.
use mathlib.Core.Option.{some-injective, none-ne-some}
use perf_libs_fft.Base.{
  ℕ, zero, suc, ◌≡◌, refl, sym, subst, ap, ◌∙◌, inl, inr, Bool, true, false, ◌&&◌, List, Option,
  none, some, Bool-cases, if◌then◌else◌, arith,
}
use perf_libs_fft.Planned.Planner.{named}
use perf_libs_fft.Planned.Strategies.{asked, let_through}
use perf_libs_fft.Planner.Convolutions.{
  convolution_is_applicable, convolution_make_plan, convolution_ab_is_applicable,
  cooley_tukey_convolution_ab_make_plan, convolution_ac_is_applicable,
  cooley_tukey_convolution_ac_make_plan,
}
use perf_libs_fft.Planner.CooleyTukey.{is_dit, cooley_tukey_ab_make_plan, cooley_tukey_ac_make_plan}
use perf_libs_fft.Planner.Plans.{
  Convolution, rader, bluestein, Plan, direct_plan, loop_plan, fft1_plan, ab_twid_direct_plan,
  ac_twid_direct_plan, cooley_tukey_plan, single_convolution_plan, convolution_plan,
  convolution_twid_plan, other_plan,
}
use perf_libs_fft.Planner.Policy.{Policy, contains, allow_convolutions}
use perf_libs_fft.Planner.Problem.{
  Problem, ElementType, RuntimePrecision, fp16, fp32, fp64, q0_7, q0_15, TransformKind, c2c, r2c,
  c2r,
}
use perf_libs_fft.Planner.Recursion.{Others, table, plan_with, planner_of}
use perf_libs_fft.Planner.Recursion.Fuel.{part_without}
use perf_libs_fft.Planner.Run.{Run, ok, abort, ok-injective}
use perf_libs_fft.Planner.Search.{State, Bench, Strategy, make_plan_impl}
use perf_libs_fft.Planner.Search.Provenance.{make_plan_impl-Good}
use perf_libs_fft.Planner.Strategies.{
  StrategyName, direct, direct_sme2, cooley_tukey_ab, cooley_tukey_ac, cooley_tukey_rader_ab,
  cooley_tukey_rader_ac, cooley_tukey_bluestein_ab, cooley_tukey_bluestein_ac, rader_strategy,
  bluestein_strategy, loop, fft1, direct_make_plan, loop_make_plan, fft1_make_plan, other_make_plan,
  strategy_of, strategies, of_precision, make_plan,
}
use perf_libs_fft.Planner.Wisdom.{StdHash}

-- No part of the plan is a convolution.
pub is_flat : {Other : Type 0} → Plan Other → Bool
is_flat (direct_plan n istride ostride howmany idist odist dir want_sme) = true
is_flat (loop_plan howmany idist odist inner) = is_flat inner
is_flat (fft1_plan howmany idist odist) = true
is_flat (ab_twid_direct_plan n istride ostride howmany idist odist dir want_sme) = true
is_flat (ac_twid_direct_plan n istride ostride howmany0 idist0 odist0 howmany1 dir want_sme) = true
is_flat (cooley_tukey_plan n howmany stage1 stage2) = is_flat stage1 && is_flat stage2
is_flat (single_convolution_plan c n istride ostride dir padded b fwd bwd) = false
is_flat (convolution_plan c n istride ostride howmany idist odist dir padded b fwd bwd) = false
is_flat
      (convolution_twid_plan c r istride ostride howmany0 idist0 odist0 howmany1 dir padded b fwd
        bwd) =
    false
is_flat (other_plan plan) = true

-- A strategy, or a planner, that makes no convolution where it may not.
abbrev pub MakesFlat : {World Other : Type 0} → Strategy World (Plan Other) → Type 0
MakesFlat {World} {Other} strategy =
    (p : Problem) (policy : Policy) (s t : State World) (plan : Plan Other)
    → contains policy allow_convolutions ≡ false
    → strategy p policy s ≡ ok (some plan, t)
    → is_flat plan ≡ true

of_precision_from :
    {A : Type 0} (enable_fixed_point : Bool) (impl : ElementType → ElementType → Problem → Run A)
    (a b : Bool) (p : Problem) (result : A)
    → of_precision enable_fixed_point impl a b p ≡ ok result
    → (x y : ElementType) × (q : Problem) × (impl x y q ≡ ok result)
unfolding of_precision
of_precision_from {A} enable_fixed_point impl a b p result e = at_precision p.precision refl
  where
    of : Bool → RuntimePrecision → ElementType
    of complex precision = record { is_complex = complex; real_type = precision }

    enabled :
        (test : Bool) (run : Run A) → (if test then run else abort) ≡ ok result → run ≡ ok result
    enabled true run made = made
    enabled false run made = absurd (cc)

    at_precision :
        (precision : RuntimePrecision)
        → p.precision ≡ precision
        → (x y : ElementType) × (q : Problem) × (impl x y q ≡ ok result)
    at_precision fp16 same = (of a fp16, of b fp16, record p { precision = fp16 }, rw same at e)
    at_precision fp32 same = (of a fp32, of b fp32, record p { precision = fp32 }, rw same at e)
    at_precision fp64 same = (of a fp64, of b fp64, record p { precision = fp64 }, rw same at e)
    at_precision q0_7 same = (
      of a q0_7,
      of b q0_7,
      record p { precision = q0_7 },
      enabled enable_fixed_point _ (rw same at e),
    )
    at_precision q0_15 same = (
      of a q0_15,
      of b q0_15,
      record p { precision = q0_15 },
      enabled enable_fixed_point _ (rw same at e),
    )

planned_from :
    {A : Type 0} (enable_fixed_point : Bool) (impl : ElementType → ElementType → Problem → Run A)
    (p : Problem) (result : A)
    → make_plan enable_fixed_point impl p ≡ ok result
    → (x y : ElementType) × (q : Problem) × (impl x y q ≡ ok result)
unfolding make_plan
planned_from {A} enable_fixed_point impl p result e = at_kind p.kind refl
  where
    at_kind :
        (kind : TransformKind)
        → p.kind ≡ kind
        → (x y : ElementType) × (q : Problem) × (impl x y q ≡ ok result)
    at_kind c2c same =
        of_precision_from enable_fixed_point impl true true (record p { kind = c2c }) result
          (rw same at e)
    at_kind r2c same =
        of_precision_from enable_fixed_point impl false true (record p { kind = r2c }) result
          (rw same at e)
    at_kind c2r same =
        of_precision_from enable_fixed_point impl true false (record p { kind = c2r }) result
          (rw same at e)

module _ {World Other : Type 0} (kernel_ns : List ℕ) (x y : ElementType)
    (planner : Strategy World (Plan Other)) where
  module _ (c : Convolution) (p : Problem) (policy : Policy) (s : State World)
      (none_allowed : contains policy allow_convolutions ≡ false) where
    refuses : convolution_make_plan kernel_ns x y c planner p policy s ≡ ok (none, s)
    unfolding convolution_make_plan convolution_is_applicable
    refuses =
        let test : convolution_is_applicable kernel_ns x y c planner p policy ≡ false =
          ground (arith, none_allowed) in
        rw test refl

    ab_refuses :
        cooley_tukey_convolution_ab_make_plan kernel_ns x y c planner p policy s ≡ ok (none, s)
    unfolding cooley_tukey_convolution_ab_make_plan convolution_ab_is_applicable
    ab_refuses =
        let test : convolution_ab_is_applicable kernel_ns x y c planner p policy ≡ false =
          ground (arith, none_allowed) in
        rw test refl

    ac_refuses :
        cooley_tukey_convolution_ac_make_plan kernel_ns x y c planner p policy s ≡ ok (none, s)
    unfolding cooley_tukey_convolution_ac_make_plan convolution_ac_is_applicable
    ac_refuses =
        let test : convolution_ac_is_applicable kernel_ns x y c planner p policy ≡ false =
          ground (arith, none_allowed) in
        rw test refl

  none_made :
      (outcome : Run (Option (Plan Other) × State World)) (s t : State World) (plan : Plan Other)
      → outcome ≡ ok (none, s)
      → outcome ≡ ok (some plan, t)
      → ⊥
  none_made outcome s t plan refused made =
      none-ne-some plan (
        ap (λ (r : Option (Plan Other) × State World). r.0) (ok-injective _ _ (sym refused ∙ made)))

  convolution-MakesFlat :
      (c : Convolution)
      → MakesFlat (convolution_make_plan kernel_ns x y c planner)
        × MakesFlat (cooley_tukey_convolution_ab_make_plan kernel_ns x y c planner)
        × MakesFlat (cooley_tukey_convolution_ac_make_plan kernel_ns x y c planner)
  convolution-MakesFlat c = (
    λ p policy s t plan without e. absurd (none_made _ s t plan (refuses c p policy s without) e),
    λ p policy s t plan without e.
        absurd (none_made _ s t plan (ab_refuses c p policy s without) e),
    λ p policy s t plan without e.
        absurd (none_made _ s t plan (ac_refuses c p policy s without) e),
  )

  module _ (flat : MakesFlat planner) where
    loop-MakesFlat : MakesFlat (loop_make_plan kernel_ns x y planner)
    unfolding loop_make_plan is_flat
    loop-MakesFlat p policy s t plan without e =
        let (test, inner, s', run, is) = asked _ _ _ plan s t e in
        subst (λ (q : Plan Other). is_flat q ≡ true) is (flat _ policy s s' inner without run)

    ab-MakesFlat : (r : ℕ) → MakesFlat (cooley_tukey_ab_make_plan kernel_ns x y r planner)
    unfolding cooley_tukey_ab_make_plan is_flat
    ab-MakesFlat r p policy s t plan without e = elim (Bool-cases (is_dit x y)) [
      | inl dit ↦
          let (test, stage1, s', run, is) = asked _ _ _ plan s t (rw dit at e) in
          let planned = flat _ policy s s' stage1 without run in
          subst (λ (q : Plan Other). is_flat q ≡ true) is (rw planned refl)
      | inr dif ↦
          let (test, stage2, s', run, is) = asked _ _ _ plan s t (rw dif at e) in
          let planned = flat _ policy s s' stage2 without run in
          subst (λ (q : Plan Other). is_flat q ≡ true) is (rw planned refl)
    ]

    ac-MakesFlat : (r : ℕ) → MakesFlat (cooley_tukey_ac_make_plan kernel_ns x y r planner)
    unfolding cooley_tukey_ac_make_plan is_flat
    ac-MakesFlat r p policy s t plan without e = elim (Bool-cases (is_dit x y)) [
      | inl dit ↦
          let (test, stage1, s', run, is) = asked _ _ _ plan s t (rw dit at e) in
          let planned = flat _ policy s s' stage1 without run in
          subst (λ (q : Plan Other). is_flat q ≡ true) is (rw planned refl)
      | inr dif ↦
          let (test, stage2, s', run, is) = asked _ _ _ plan s t (rw dif at e) in
          let planned = flat _ policy s s' stage2 without run in
          subst (λ (q : Plan Other). is_flat q ≡ true) is (rw planned refl)
    ]

    direct-MakesFlat :
        (n : ℕ) → MakesFlat {World = World} {Other = Other} (direct_make_plan kernel_ns x y n)
    unfolding direct_make_plan is_flat
    direct-MakesFlat n p policy s t plan without e =
        let (test, run) = let_through _ _ _ _ _ e in
        subst (λ (q : Plan Other). is_flat q ≡ true)
          (some-injective _ _
            (ap (λ (r : Option (Plan Other) × State World). r.0) (ok-injective _ _ run)))
          refl

    fft1-MakesFlat : MakesFlat {World = World} {Other = Other} (fft1_make_plan kernel_ns x y)
    unfolding fft1_make_plan is_flat
    fft1-MakesFlat p policy s t plan without e =
        let (test, run) = let_through _ _ _ _ _ e in
        subst (λ (q : Plan Other). is_flat q ≡ true)
          (some-injective _ _
            (ap (λ (r : Option (Plan Other) × State World). r.0) (ok-injective _ _ run)))
          refl

other-MakesFlat :
    {World Other : Type 0} (kernel_ns : List ℕ) (x y : ElementType) (other : Strategy World Other)
    → MakesFlat {World = World} {Other = Other} (other_make_plan kernel_ns x y other)
unfolding is_flat
other-MakesFlat {World} {Other} kernel_ns x y other p policy s t plan without e =
    let (test, part, s', run, is) = asked true _ (λ q. other_plan q) plan s t e in
    subst (λ (q : Plan Other). is_flat q ≡ true) is refl

module _ {World Result Other : Type 0} (h : StdHash) (bench : Bench World (Plan Other) Result)
    (kernel_ns : List ℕ) (enable_fixed_point enable_sme2 : Bool) (others : Others World Other) where
  strategy_of-MakesFlat :
      (x y : ElementType) (planner : Strategy World (Plan Other)) (name : StrategyName)
      → MakesFlat planner
      → MakesFlat (strategy_of kernel_ns x y (others x y) planner name)
  unfolding strategy_of
  strategy_of-MakesFlat x y planner (direct n) flat = direct-MakesFlat kernel_ns x y planner flat n
  strategy_of-MakesFlat x y planner (direct_sme2 n) flat =
      other-MakesFlat kernel_ns x y (others x y (direct_sme2 n))
  strategy_of-MakesFlat x y planner (cooley_tukey_ab r) flat =
      ab-MakesFlat kernel_ns x y planner flat r
  strategy_of-MakesFlat x y planner (cooley_tukey_ac r) flat =
      ac-MakesFlat kernel_ns x y planner flat r
  strategy_of-MakesFlat x y planner loop flat = loop-MakesFlat kernel_ns x y planner flat
  strategy_of-MakesFlat x y planner fft1 flat = fft1-MakesFlat kernel_ns x y planner flat
  strategy_of-MakesFlat x y planner cooley_tukey_rader_ab flat =
      (convolution-MakesFlat kernel_ns x y planner rader).1
  strategy_of-MakesFlat x y planner cooley_tukey_rader_ac flat =
      (convolution-MakesFlat kernel_ns x y planner rader).2
  strategy_of-MakesFlat x y planner cooley_tukey_bluestein_ab flat =
      (convolution-MakesFlat kernel_ns x y planner bluestein).1
  strategy_of-MakesFlat x y planner cooley_tukey_bluestein_ac flat =
      (convolution-MakesFlat kernel_ns x y planner bluestein).2
  strategy_of-MakesFlat x y planner rader_strategy flat =
      (convolution-MakesFlat kernel_ns x y planner rader).0
  strategy_of-MakesFlat x y planner bluestein_strategy flat =
      (convolution-MakesFlat kernel_ns x y planner bluestein).0

  -- Under a policy without convolutions, the planner makes no plan in which one stands, at any depth
  -- of the recursion, whether the plan comes from the audition or from wisdom. What stands below the
  -- recursion makes none.
  pub planner_of-is_flat :
      (bottom : Strategy World (Plan Other)) (depth : ℕ)
      → MakesFlat bottom
      → (p : Problem) (policy : Policy) (s t : State World) (plan : Plan Other)
      → contains policy allow_convolutions ≡ false
      → planner_of h bench kernel_ns enable_fixed_point enable_sme2 others bottom depth p policy s
        ≡ ok (some plan, t)
      → is_flat plan ≡ true
  unfolding planner_of plan_with table
  planner_of-is_flat bottom zero flat p policy s t plan without e = flat p policy s t plan without e
  planner_of-is_flat bottom (suc depth) flat p policy s t plan without e =
      let below = planner_of h bench kernel_ns enable_fixed_point enable_sme2 others bottom depth in
      let slots = λ (x y : ElementType).
        table h bench kernel_ns enable_fixed_point enable_sme2 others below x y in
      let (x, y, q, made) =
        planned_from enable_fixed_point (λ x y q. make_plan_impl h bench (slots x y) q policy s) p
          (some plan, t) e in
      make_plan_impl-Good h bench (slots x y) q policy (λ (plan : Plan Other). is_flat plan ≡ true)
        (λ j f part s₁ s₂ candidate included slot run.
          (let (name, is) = named _ (strategies enable_sme2 x) j f slot in
            strategy_of-MakesFlat x y below name (planner_of-is_flat bottom depth flat) q part s₁ s₂
              candidate (part_without policy part included without)
              (ap (λ (g : Strategy World (Plan Other)). g q part s₁) is ∙ run)))
        s t plan made
