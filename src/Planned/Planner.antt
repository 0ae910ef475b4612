-- ===== src/Planned/Planner.antt =====
-- The plans that the planner of src/planner/planner.cpp makes for complex transforms, whether they
-- come from the audition or from wisdom.
use mathlib.Core.Option.{some-injective, none-ne-some}
use perf_libs_fft.Base.{
  ℕ, zero, suc, ◌+◌, arith, ◌<◌, ◌≤◌, ◌≡◌, ◌≢◌, refl, sym, subst, ap, ◌∙◌, Bool, true, false, List,
  [], ◌∷◌, Option, none, some, get_elem?, if◌then◌else◌,
}
use perf_libs_fft.Base.Int.{pos, pos_part}
use perf_libs_fft.Execution.Contract.{Provides, Cells, cell_at, Apart, Transformed}
use perf_libs_fft.Execution.{Pointer, Store}
use perf_libs_fft.Execution.Execute.{Machine, execute}
use perf_libs_fft.Execution.Fills.{Live, AllInside}
use perf_libs_fft.Factorize.Factors.{is_base_n}
use perf_libs_fft.Fourier.Sum.{Numbers}
use perf_libs_fft.Fourier.Dft.{IsRoots}
use perf_libs_fft.Planned.{Fits, is_plain, Computes, IsSound}
use perf_libs_fft.Planned.Convolutions.{
  convolution-IsSound, convolution_ab-IsSound, convolution_ac-IsSound,
}
use perf_libs_fft.Planned.Radix.{cooley_tukey_ab-IsSound, cooley_tukey_ac-IsSound}
use perf_libs_fft.Planned.Strategies.{asked, direct-IsSound, loop-IsSound, fft1-IsSound}
use perf_libs_fft.Planner.Plans.{rader, bluestein, Plan, other_plan}
use perf_libs_fft.Planner.Recursion.Fuel.{planner_of-enough}
use perf_libs_fft.Planner.Recursion.Weight.{weight, spread}
use perf_libs_fft.Planner.Policy.{Policy}
use perf_libs_fft.Planner.Problem.{
  Problem, ElementType, RuntimePrecision, fp16, fp32, fp64, q0_7, q0_15, Direction, TransformKind,
  c2c,
}
use perf_libs_fft.Planner.Recursion.{Others, table, plan_with, planner_of}
use perf_libs_fft.Planner.Run.{Run, ok, abort}
use perf_libs_fft.Planner.Search.{State, Bench, Strategy, make_plan_impl}
use perf_libs_fft.Planner.Search.Provenance.{make_plan_impl-Good}
use perf_libs_fft.Planner.Strategies.{
  StrategyName, direct, direct_sme2, cooley_tukey_ab, cooley_tukey_ac, cooley_tukey_rader_ab,
  cooley_tukey_rader_ac, cooley_tukey_bluestein_ab, cooley_tukey_bluestein_ac, rader_strategy,
  bluestein_strategy, loop, fft1, other_make_plan, strategy_of, strategies, of_precision, make_plan,
}
use perf_libs_fft.Planner.Strategies.Complete.{fill}
use perf_libs_fft.Planner.Wisdom.{StdHash}

-- A strategy in a slot of the table has a name.
pub named :
    {A B : Type 0} (g : A → B) (slots : List (Option A)) (j : ℕ) (f : B)
    → get_elem? (fill g slots) j ≡ some (some f)
    → (name : A) × (g name ≡ f)
named {A} {B} g [] j f e = absurd (none-ne-some (some f) e)
named {A} {B} g (none ∷ slots) zero f e = absurd (none-ne-some f (some-injective none (some f) e))
named {A} {B} g (some name ∷ slots) zero f e =
    (name, some-injective (g name) f (some-injective (some (g name)) (some f) e))
named g (slot ∷ slots) (suc j) f e = named g slots j f e

if_ok :
    {A : Type 0} (test : Bool) (run : Run A) (result : A)
    → (if test then run else abort) ≡ ok result
    → run ≡ ok result
if_ok true run result e = e
if_ok false run result e = absurd (cc)

-- A complex problem is planned for two complex types, or not at all.
complex_make_plan :
    {A : Type 0} (enable_fixed_point : Bool) (impl : ElementType → ElementType → Problem → Run A)
    (p : Problem) (result : A)
    → p.kind ≡ c2c
    → make_plan enable_fixed_point impl p ≡ ok result
    → (x : ElementType) × (x.is_complex ≡ true) × (impl x x p ≡ ok result)
unfolding make_plan of_precision
complex_make_plan {A} enable_fixed_point impl p result kind e = at_precision p.precision refl
  where
    complex : RuntimePrecision → ElementType
    complex precision = record { is_complex = true; real_type = precision }

    back :
        (x : ElementType) → impl x x (record p { kind = c2c }) ≡ ok result → impl x x p ≡ ok result
    back x made =
        subst (λ (k : TransformKind). impl x x (record p { kind = k }) ≡ ok result) (sym kind) made

    at_precision :
        (precision : RuntimePrecision)
        → p.precision ≡ precision
        → (x : ElementType) × (x.is_complex ≡ true) × (impl x x p ≡ ok result)
    at_precision fp16 same = (complex fp16, refl, back (complex fp16) (rw (kind, same) at e))
    at_precision fp32 same = (complex fp32, refl, back (complex fp32) (rw (kind, same) at e))
    at_precision fp64 same = (complex fp64, refl, back (complex fp64) (rw (kind, same) at e))
    at_precision q0_7 same = (
      complex q0_7,
      refl,
      back (complex q0_7) (if_ok enable_fixed_point _ result (rw (kind, same) at e)),
    )
    at_precision q0_15 same = (
      complex q0_15,
      refl,
      back (complex q0_15) (if_ok enable_fixed_point _ result (rw (kind, same) at e)),
    )

module _ {C Other World Result : Type 0} ⦃numbers : Numbers C⦄ (machine : Machine C Other)
    (kernel_ns : List ℕ) (whole : ℕ) (roots : (dir : Direction) → IsRoots whole (machine.point dir))
    (kernels : (n : ℕ) (dir : Direction) (want_sme : Bool)
      → is_base_n n kernel_ns ≡ true
      → Provides (machine.point dir) n (λ howmany istride ostride idist odist order.
        machine.kernels (pos n) howmany istride ostride idist odist dir order want_sme))
    (above : (n : ℕ) → is_base_n n kernel_ns ≡ true → 1 < n) (h : StdHash)
    (bench : Bench World (Plan Other) Result) (enable_fixed_point enable_sme2 : Bool)
    (others : Others World Other) where
  positive : (n : ℕ) → is_base_n n kernel_ns ≡ true → 0 < n
  positive n kernel = omega (arith, above n kernel)

  other-IsSound :
      (x y : ElementType) (other : Strategy World Other)
      → IsSound machine {World = World} whole (other_make_plan kernel_ns x y other)
  unfolding is_plain
  other-IsSound x y other p policy s t plan fits e plain =
      let (_, part, s', run, is) = asked true _ (λ q. other_plan q) plan s t e in
      let same = ap (λ (q : Plan Other). is_plain q) is in absurd (cc)

  strategy_of-IsSound :
      (x y : ElementType) (planner : Strategy World (Plan Other)) (name : StrategyName)
      → x.is_complex ≡ true
      → y.is_complex ≡ true
      → IsSound machine whole planner
      → IsSound machine whole (strategy_of kernel_ns x y (others x y) planner name)
  unfolding strategy_of
  strategy_of-IsSound x y planner (direct n) hx hy sound =
      direct-IsSound machine kernel_ns whole roots kernels positive x y (hx, hy) n
  strategy_of-IsSound x y planner (cooley_tukey_ab r) hx hy sound =
      cooley_tukey_ab-IsSound machine kernel_ns whole roots kernels positive x y (hx, hy) r planner
        sound
  strategy_of-IsSound x y planner (cooley_tukey_ac r) hx hy sound =
      cooley_tukey_ac-IsSound machine kernel_ns whole roots kernels positive x y (hx, hy) r planner
        sound
  strategy_of-IsSound x y planner loop hx hy sound =
      loop-IsSound machine kernel_ns whole roots kernels positive x y (hx, hy) planner sound
  strategy_of-IsSound x y planner fft1 hx hy sound =
      fft1-IsSound machine kernel_ns whole roots kernels positive x y (hx, hy)
  strategy_of-IsSound x y planner (direct_sme2 n) hx hy sound =
      other-IsSound x y (others x y (direct_sme2 n))
  strategy_of-IsSound x y planner cooley_tukey_rader_ab hx hy sound =
      convolution_ab-IsSound machine kernel_ns whole x y (hx, hy) rader planner
  strategy_of-IsSound x y planner cooley_tukey_rader_ac hx hy sound =
      convolution_ac-IsSound machine kernel_ns whole x y (hx, hy) rader planner
  strategy_of-IsSound x y planner cooley_tukey_bluestein_ab hx hy sound =
      convolution_ab-IsSound machine kernel_ns whole x y (hx, hy) bluestein planner
  strategy_of-IsSound x y planner cooley_tukey_bluestein_ac hx hy sound =
      convolution_ac-IsSound machine kernel_ns whole x y (hx, hy) bluestein planner
  strategy_of-IsSound x y planner rader_strategy hx hy sound =
      convolution-IsSound machine kernel_ns whole x y (hx, hy) rader planner
  strategy_of-IsSound x y planner bluestein_strategy hx hy sound =
      convolution-IsSound machine kernel_ns whole x y (hx, hy) bluestein planner

  plan_with-IsSound :
      (planner : Strategy World (Plan Other))
      → IsSound machine whole planner
      → IsSound machine whole
          (plan_with h bench kernel_ns enable_fixed_point enable_sme2 others planner)
  unfolding plan_with table
  plan_with-IsSound planner sound p policy s t plan fits e plain =
      let slots = λ (x y : ElementType).
        table h bench kernel_ns enable_fixed_point enable_sme2 others planner x y in
      let (x, complex, made) =
        complex_make_plan enable_fixed_point
          (λ x y q. make_plan_impl h bench (slots x y) q policy s) p (some plan, t) fits.complex
          e in
      make_plan_impl-Good h bench (slots x x) p policy
        (λ (plan : Plan Other). is_plain plan ≡ true → Computes machine p plan)
        (λ j f q s₁ s₂ candidate part slot run.
          (let (name, is) = named _ (strategies enable_sme2 x) j f slot in
            strategy_of-IsSound x x planner name complex complex sound p q s₁ s₂ candidate fits
              (ap (λ (g : Strategy World (Plan Other)). g p q s₁) is ∙ run)))
        s t plan made plain

  planner_of-IsSound :
      (bottom : Strategy World (Plan Other)) (depth : ℕ)
      → IsSound machine whole bottom
      → IsSound machine whole
          (planner_of h bench kernel_ns enable_fixed_point enable_sme2 others bottom depth)
  unfolding planner_of
  planner_of-IsSound bottom zero sound = sound
  planner_of-IsSound bottom (suc depth) sound =
      plan_with-IsSound
        (planner_of h bench kernel_ns enable_fixed_point enable_sme2 others bottom depth)
        (planner_of-IsSound bottom depth sound)

  -- A planner that only aborts is sound.
  nothing : Strategy World (Plan Other)
  nothing p policy s = abort

  nothing-IsSound : IsSound machine whole nothing
  unfolding nothing
  nothing-IsSound p policy s t plan fits e plain = absurd (cc)

  -- A plan that the planner returns computes what it was asked for. For a complex problem of positive
  -- count, whose size is a value of `int64_t`, with its bytes one of `std::size_t`, and whose length
  -- divides the order of the roots of unity, take any plan that comes back, from the audition or from
  -- wisdom, at a depth of the recursion that is enough for the problem, and that has no convolution
  -- and no plan of `direct_sme2` in it. It is executed to the end from any store whose frames are in
  -- order, between pointers into two live regions and with an output whose elements are inside their
  -- region and have addresses of their own: each element of the output is the transform of the input,
  -- and all other live memory is as it was. A generated kernel keeps its contract for the calls that
  -- it was requested for, and the lengths that have a kernel are above one.
  pub planner_of-Transforms :
      (bottom : Strategy World (Plan Other)) (depth : ℕ) (p : Problem) (policy : Policy)
      (s t : State World) (plan : Plan Other)
      → Fits machine.element_size whole p
      → weight p + spread kernel_ns (pos_part p.n) < depth
      → planner_of h bench kernel_ns enable_fixed_point enable_sme2 others bottom depth p policy s
        ≡ ok (some plan, t)
      → is_plain plan ≡ true
      → (n howmany : ℕ) → p.n ≡ pos n
      → p.howmany ≡ pos howmany
      → (x y : Pointer) (store : Store C) → Live store.depth x.region
      → Live store.depth y.region
      → x.region ≢ y.region
      → store.depth ≤ store.count
      → Apart howmany n p.odist p.ostride
      → AllInside machine.element_size store.sizes y.region
          (Cells howmany n)
          (λ c. cell_at y.offset p.odist p.ostride c.0 c.1)
      → Transformed
          (machine.point p.dir)
          (execute machine plan)
          n
          p.istride
          p.ostride
          howmany
          p.idist
          p.odist
          x
          y
          store
  planner_of-Transforms bottom depth p policy s t plan fits enough planned plain n howmany length
        count =
      planner_of-IsSound nothing depth nothing-IsSound p policy s t plan fits
        (planner_of-enough h bench kernel_ns above enable_fixed_point enable_sme2 others nothing
            bottom depth depth p policy s enough enough
          ∙ planned)
        plain n howmany length count
