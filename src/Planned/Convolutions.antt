-- ===== src/Planned/Convolutions.antt =====
-- The plans that the strategies of src/planner/strategies/rader.hpp and
-- src/planner/strategies/bluestein.hpp make: each has a convolution in it.
use mathlib.Core.Option.{some-injective, none-ne-some}
use perf_libs_fft.Base.{
  ℕ, ◌≡◌, refl, ap, Bool, true, false, ◌&&◌, List, Option, none, some, if◌then◌else◌, arith,
}
use perf_libs_fft.Base.Int.{ℤ, pos, int_eq}
use perf_libs_fft.Execution.Execute.{Machine}
use perf_libs_fft.Fourier.Sum.{Numbers}
use perf_libs_fft.Planned.{is_plain, IsSound}
use perf_libs_fft.Planned.Strategies.{let_through, asked, in_time}
use perf_libs_fft.Planner.Convolutions.{
  convolution_plans, with_convolution, convolution_make_plan, cooley_tukey_convolution_ab_make_plan,
  cooley_tukey_convolution_ac_make_plan,
}
use perf_libs_fft.Planner.Plans.{Convolution, Plan}
use perf_libs_fft.Planner.Policy.{Policy}
use perf_libs_fft.Planner.Problem.{ElementType}
use perf_libs_fft.Planner.Run.{Run, ok, ok-injective, >>=-eq-ok}
use perf_libs_fft.Planner.Search.{State, Strategy}

module _ {World Other : Type 0} (x : ElementType) (planner : Strategy World (Plan Other)) where
  abbrev Three : Type 0
  Three = Plan Other × Plan Other × Plan Other

  -- A plan that is made with a convolution is made from its three plans.
  with_convolution-from :
      (length : Option ℕ) (howmany : ℤ) (policy : Policy) (s t : State World)
      (use_plans : ℕ → Three → State World → Run (Option (Plan Other) × State World))
      (plan : Plan Other)
      → with_convolution x planner length howmany policy s use_plans ≡ ok (some plan, t)
      → (padded : ℕ) × (plans : Three) × (s' : State World) × (use_plans padded plans s'
          ≡ ok (some plan, t))
  with_convolution-from none howmany policy s t use_plans plan e = absurd (cc)
  with_convolution-from (some padded) howmany policy s t use_plans plan e =
      let (r, run, rest) = >>=-eq-ok (convolution_plans x planner padded howmany policy s) _ e in
      with_plans r.0 r.1 rest
    where
      with_plans :
          (plans : Option Three) (s' : State World)
          → (let next : Run (Option (Plan Other) × State World) = elim plans [
            | none ↦ ok (none, s')
            | some plans ↦ use_plans padded plans s'
          ] in
              next)
            ≡ ok (some plan, t)
          → (padded : ℕ) × (plans : Three) × (s' : State World) × (use_plans padded plans s'
              ≡ ok (some plan, t))
      with_plans none s' rest = absurd (
          none-ne-some plan
            (ap (λ (r : Option (Plan Other) × State World). r.0) (ok-injective _ _ rest)))
      with_plans (some plans) s' rest = (padded, plans, s', rest)

not_plain :
    {Other : Type 0} (made plan : Plan Other)
    → made ≡ plan
    → is_plain made ≡ false
    → is_plain plan ≡ true
    → ⊥
not_plain {Other} made plan is never plain = let same = ap (λ (q : Plan Other). is_plain q) is in cc

either :
    {Other : Type 0} (test : Bool) (a b : Plan Other)
    → is_plain a ≡ false
    → is_plain b ≡ false
    → is_plain (if test then a else b) ≡ false
either true a b first second = first
either false a b first second = second

second_false : (first : Bool) → (first && false) ≡ false
second_false first = ground arith

module _ {C Other World : Type 0} ⦃numbers : Numbers C⦄ (machine : Machine C Other)
    (kernel_ns : List ℕ) (whole : ℕ) (x y : ElementType)
    (both : (x.is_complex ≡ true) × (y.is_complex ≡ true)) (c : Convolution)
    (planner : Strategy World (Plan Other)) where
  pub convolution-IsSound : IsSound machine whole (convolution_make_plan kernel_ns x y c planner)
  unfolding convolution_make_plan is_plain
  convolution-IsSound p policy s t plan fits e plain =
      let (test, run) = let_through _ _ plan s t e in
      let (padded, plans, s', made) = with_convolution-from x planner _ _ policy s t _ plan run in
      let is =
        some-injective _ plan
          (ap (λ (r : Option (Plan Other) × State World). r.0) (ok-injective _ _ made)) in
      absurd (not_plain _ plan is (either (int_eq p.howmany (pos 1)) _ _ refl refl) plain)

  pub convolution_ab-IsSound :
      IsSound machine whole (cooley_tukey_convolution_ab_make_plan kernel_ns x y c planner)
  unfolding cooley_tukey_convolution_ab_make_plan is_plain
  convolution_ab-IsSound p policy s t plan fits e plain =
      let (test, run) = let_through _ _ plan s t (rw (in_time x y both) at e) in
      let (padded, plans, s', made) = with_convolution-from x planner _ _ policy s t _ plan run in
      let (_, stage1, s'', _, is) = asked true _ _ plan s' t made in
      absurd (not_plain _ plan is (second_false (is_plain stage1)) plain)

  pub convolution_ac-IsSound :
      IsSound machine whole (cooley_tukey_convolution_ac_make_plan kernel_ns x y c planner)
  unfolding cooley_tukey_convolution_ac_make_plan is_plain
  convolution_ac-IsSound p policy s t plan fits e plain =
      let (test, run) = let_through _ _ plan s t (rw (in_time x y both) at e) in
      let (padded, plans, s', made) = with_convolution-from x planner _ _ policy s t _ plan run in
      let (_, stage1, s'', _, is) = asked true _ _ plan s' t made in
      absurd (not_plain _ plan is (second_false (is_plain stage1)) plain)
