-- ===== src/Planned/Strategies.antt =====
-- The strategies `direct`, `loop`, `fft1`, `cooley_tukey_ab` and `cooley_tukey_ac` of
-- src/planner/strategies make plans that compute what they are asked for.
use mathlib.Core.Option
use mathlib.Core.Option.{some-injective, none-ne-some}
use perf_libs_fft.Base.{
  ℕ, ◌*◌, ◌≤◌, ◌<◌, ◌≡◌, refl, sym, subst, subst₂, ap, ◌∙◌, Bool, true, false, List, Option, none,
  some, if◌then◌else◌, arith,
}
use perf_libs_fft.Base.Int.{ℤ, pos, int_eq_iff}
use perf_libs_fft.Base.Int.Ring.{pos_injective}
use perf_libs_fft.Execution.Batches.{
  direct_plan-Transforms, loop_plan-Transforms, fft1_plan-Transforms,
}
use perf_libs_fft.Execution.{order_na}
use perf_libs_fft.Execution.Contract.{Transforms, Provides, buffer_limit}
use perf_libs_fft.Execution.Execute.{Machine, execute}
use perf_libs_fft.Factorize.Factors.{is_base_n}
use perf_libs_fft.Fourier.Sum.{Numbers}
use perf_libs_fft.Fourier.Dft.{IsRoots}
use perf_libs_fft.Planned.{is_plain, IsSound}
use perf_libs_fft.Planner.CooleyTukey.{is_dit}
use perf_libs_fft.Planner.Plans.{Plan, direct_plan, loop_plan, fft1_plan}
use perf_libs_fft.Planner.Policy.{contains, allow_sme}
use perf_libs_fft.Planner.Problem.{
  ElementType, Direction, make_problem, c2c, transform_kind_from_io_types,
}
use perf_libs_fft.Planner.Run.{Run, ok, abort, ok-injective, ◌>>=◌}
use perf_libs_fft.Planner.Search.{Strategy}
use perf_libs_fft.Planner.Strategies.{direct_make_plan, loop_make_plan, fft1_make_plan}

-- What a call that makes a plan or none has made.
chosen :
    {A S : Type 0} (test : Bool) (plan made : A) (s t : S)
    → ◌≡◌ {A = Run (Option A × S)}
        (if test then ok (some plan, s) else ok (none, s))
        (ok (some made, t))
    → (test ≡ true) × (plan ≡ made)
chosen {A} {S} true plan made s t e =
    (refl, some-injective plan made (ap (λ (r : Option A × S). r.0) (ok-injective _ _ e)))
chosen {A} {S} false plan made s t e =
    absurd (none-ne-some made (ap (λ (r : Option A × S). r.0) (ok-injective _ _ e)))

-- What a call that makes a plan under a test has passed.
pub let_through :
    {A S : Type 0} (test : Bool) (run : Run (Option A × S)) (made : A) (s t : S)
    → (if test then run else ok (none, s)) ≡ ok (some made, t)
    → (test ≡ true) × (run ≡ ok (some made, t))
let_through true run made s t e = (refl, e)
let_through {A} {S} false run made s t e =
    absurd (none-ne-some made (ap (λ (r : Option A × S). r.0) (ok-injective _ _ e)))

-- What a call that asks the planner for a part of its plan has asked for, and got.
pub asked :
    {A B S : Type 0} (test : Bool) (answer : Run (Option A × S)) (f : A → B) (made : B) (s t : S)
    → ◌≡◌ {A = Run (Option B × S)}
        (if test then (answer >>= λ r. ok (Option.map f r.0, r.1)) else ok (none, s))
        (ok (some made, t))
    → (test ≡ true) × (part : A) × (s' : S) × (answer ≡ ok (some part, s')) × (f part ≡ made)
asked {A} {B} {S} false answer f made s t e =
    absurd (none-ne-some made (ap (λ (r : Option B × S). r.0) (ok-injective _ _ e)))
asked true abort f made s t e = absurd (cc)
asked {A} {B} {S} true (ok (none, s')) f made s t e =
    absurd (none-ne-some made (ap (λ (r : Option B × S). r.0) (ok-injective _ _ e)))
asked {A} {B} {S} true (ok (some part, s')) f made s t e = (
  refl,
  part,
  s',
  refl,
  some-injective (f part) made (ap (λ (r : Option B × S). r.0) (ok-injective _ _ e)),
)

module _ (x y : ElementType) (both : (x.is_complex ≡ true) × (y.is_complex ≡ true)) where
  -- The problems that are made for complex types are complex.
  pub complex_problem :
      (n istride ostride howmany idist odist : ℤ) (dir : Direction)
      → (make_problem x y n istride ostride howmany idist odist dir).kind ≡ c2c
  unfolding make_problem transform_kind_from_io_types
  complex_problem n istride ostride howmany idist odist dir = ground arith

  pub in_time : is_dit x y ≡ true
  unfolding is_dit
  in_time = ground arith

-- The lengths that have a kernel are above one, and have kernels that keep their contract.
module _ {C Other World : Type 0} ⦃numbers : Numbers C⦄ (machine : Machine C Other)
    (kernel_ns : List ℕ) (whole : ℕ) (roots : (dir : Direction) → IsRoots whole (machine.point dir))
    (kernels : (n : ℕ) (dir : Direction) (want_sme : Bool)
      → is_base_n n kernel_ns ≡ true
      → Provides (machine.point dir) n (λ howmany istride ostride idist odist order.
        machine.kernels (pos n) howmany istride ostride idist odist dir order want_sme))
    (above : (n : ℕ) → is_base_n n kernel_ns ≡ true → 0 < n) (x y : ElementType)
    (both : (x.is_complex ≡ true) × (y.is_complex ≡ true)) where
  pub direct-IsSound :
      (n : ℕ) → IsSound machine {World = World} whole (direct_make_plan kernel_ns x y n)
  unfolding direct_make_plan
  direct-IsSound n p policy s t plan fits e plain n' howmany length count =
      let want_sme = contains policy allow_sme in
      let (test, is) = chosen _ _ plan s t e in
      let same : n ≡ n' =
        pos_injective n n' (sym ((int_eq_iff p.n (pos n)).0 (ground arith)) ∙ length) in
      let kernel = subst (λ (m : ℕ). is_base_n m kernel_ns ≡ true) same (ground arith) in
      subst
        (λ made.
          Transforms (machine.point p.dir) machine.element_size (execute machine made) n' p.istride
            p.ostride howmany p.idist p.odist)
        is
        (subst₂
          (λ (a b : ℤ).
            Transforms (machine.point p.dir) machine.element_size
              (execute machine (direct_plan a p.istride p.ostride b p.idist p.odist p.dir want_sme))
              n' p.istride p.ostride howmany p.idist p.odist)
          (sym length) (sym count)
          (direct_plan-Transforms machine (machine.point p.dir) n' p.istride p.ostride howmany
            p.idist p.odist p.dir want_sme
            ((kernels n' p.dir want_sme kernel (pos howmany) p.istride p.ostride p.idist p.odist
                order_na).plain
              refl)))

  pub fft1-IsSound : IsSound machine {World = World} whole (fft1_make_plan kernel_ns x y)
  unfolding fft1_make_plan
  fft1-IsSound p policy s t plan fits e plain n' howmany length count =
      let (test, is) = chosen _ _ plan s t e in
      let same : 1 ≡ n' = pos_injective 1 n' (sym ((int_eq_iff p.n (pos 1)).0 test) ∙ length) in
      subst
        (λ made.
          Transforms (machine.point p.dir) machine.element_size (execute machine made) n' p.istride
            p.ostride howmany p.idist p.odist)
        is
        (subst₂
          (λ (m : ℕ) (b : ℤ).
            Transforms (machine.point p.dir) machine.element_size
              (execute machine (fft1_plan b p.idist p.odist)) m p.istride p.ostride howmany p.idist
              p.odist)
          same (sym count)
          (fft1_plan-Transforms machine (machine.point p.dir) p.istride p.ostride howmany p.idist
            p.odist (roots p.dir)))

  module _ (planner : Strategy World (Plan Other)) (sound : IsSound machine whole planner) where
    pub loop-IsSound : IsSound machine whole (loop_make_plan kernel_ns x y planner)
    unfolding loop_make_plan make_problem is_plain
    loop-IsSound p policy s t plan fits e plain n howmany length count =
        let (test, inner, s', run, is) = asked _ _ _ plan s t e in
        let same : fits.length ≡ n = pos_injective _ _ (sym fits.n ∙ length) in
        let within : fits.length * 1 ≤ buffer_limit machine.element_size =
          grind (arith, fits.size) in
        let computes =
          sound (make_problem x y p.n p.istride p.ostride (pos 1) (pos 0) (pos 0) p.dir) policy s s'
            inner
            (record {
              length = fits.length;
              count = 1;
              complex =
                  complex_problem x y both p.n p.istride p.ostride (pos 1) (pos 0) (pos 0) p.dir;
              n = fits.n;
              howmany = refl;
              some_count = omega arith;
              size = within;
              divides = fits.divides;
            })
            run (subst (λ (q : Plan Other). is_plain q ≡ true) (sym is) plain) n 1 length refl in
        subst
          (λ made.
            Transforms (machine.point p.dir) machine.element_size (execute machine made) n p.istride
              p.ostride howmany p.idist p.odist)
          is
          (subst
            (λ (b : ℤ).
              Transforms (machine.point p.dir) machine.element_size
                (execute machine (loop_plan b p.idist p.odist inner)) n p.istride p.ostride howmany
                p.idist p.odist)
            (sym count)
            (loop_plan-Transforms machine (machine.point p.dir) n p.istride p.ostride howmany
              p.idist p.odist inner computes))
