-- ===== src/Planner/Recursion/Convolutions.antt =====
-- The strategies of src/planner/strategies/rader.hpp and bluestein.hpp with two planners that give one
-- answer to every problem that they ask for.
use native.Mathlib.Nat.{le_of_dvd}
use perf_libs_fft.Base.{
  ℕ, ◌+◌, ◌*◌, ◌/◌, ◌<◌, ◌≤◌, ◌≡◌, refl, true, false, ◌&&◌, List, Option, none, some, ltb, ◌==◌,
  arith,
}
use perf_libs_fft.Base.Int.{ℤ, pos, negsuc, pos_part, ltb_ℤ}
use perf_libs_fft.Factorize.SmallestPrime.{smallest_prime_factor-IsLeast}
use perf_libs_fft.Planner.Convolutions.{
  least_factor, prime_test, convolution_length, add_complex, convolution_plans, with_convolution,
  convolution_is_applicable, convolution_make_plan, convolution_howmany,
  convolution_ab_is_applicable, cooley_tukey_convolution_ab_make_plan, convolution_ac_is_applicable,
  cooley_tukey_convolution_ac_make_plan,
}
use perf_libs_fft.Planner.CooleyTukey.{is_dit}
use perf_libs_fft.Planner.Plans.{Convolution, Plan}
use perf_libs_fft.Planner.Policy.{Policy, contains, minus, allow_convolutions}
use perf_libs_fft.Planner.Problem.{Problem, ElementType, Direction, forward, backward, make_problem}
use perf_libs_fft.Planner.Recursion.Weight.{
  weight, guarded, either, asked_congr, bind_congr, spread, spread_below, spread-length,
  part_weight, made_weight,
}
use perf_libs_fft.Planner.Run.{Run, ok}
use perf_libs_fft.Planner.Search.{State, Strategy}

-- The least factor of a number that is not prime is a proper one.
least_factor-bounds :
    (n : ℕ) → 2 < n → prime_test n ≡ false → (1 < least_factor n) × (least_factor n < n)
least_factor-bounds n big test =
    let (r, run, least, prime) = smallest_prime_factor-IsLeast n (omega (arith, big)) in
    let is : least_factor n ≡ r = rw (run, least_factor) refl in
    proper n r (least_factor n) is big least.above
      (le_of_dvd {m = r} {n = n} (omega (arith, big)) least.divides) test
  where
    proper :
        (n r l : ℕ)
        → l ≡ r
        → 2 < n
        → 1 < r
        → r ≤ n
        → (ltb 1 n && l == n) ≡ false
        → (1 < l) × (l < n)
    proper n r l is big above at_most test = (omega (arith, is, above), ground arith)

module _ {World Other : Type 0} (kernel_ns : List ℕ) (x y : ElementType) (c : Convolution)
    (p : Problem) (policy : Policy) (f g : Strategy World (Plan Other))
    (same : (q : Problem) → weight q < weight p → (s : State World) → f q policy s ≡ g q policy s)
    (without : contains policy allow_convolutions ≡ true
      → (q : Problem) → weight q < spread kernel_ns (pos_part p.n)
      → (s : State World)
      → f q (minus policy allow_convolutions) s ≡ g q (minus policy allow_convolutions) s) where
  convolution_plans_congr :
      (padded : ℕ) (howmany : ℤ) (s : State World)
      → contains policy allow_convolutions ≡ true
      → 2 * padded + 1 < spread kernel_ns (pos_part p.n)
      → convolution_plans x f padded howmany policy s
        ≡ convolution_plans x g padded howmany policy s
  unfolding convolution_plans make_problem
  convolution_plans_congr padded howmany s allowed light =
      bind_congr _ _ _ _
        (without allowed _
          (lighter (pos padded) (pos 1) (pos 1) (pos 1) (pos 0) (pos 0) forward light) s)
        (λ b.
          bind_congr _ _ _ _
            (without allowed _
              (lighter (pos padded) howmany howmany howmany (pos 1) (pos 1) forward light) b.1)
            (λ fwd.
              bind_congr _ _ _ _
                (without allowed _
                  (lighter (pos padded) howmany howmany howmany (pos 1) (pos 1) backward light)
                  fwd.1)
                (λ bwd. refl)))
    where
      lighter :
          (n istride ostride howmany idist odist : ℤ) (dir : Direction)
          → 2 * pos_part n + 1 < spread kernel_ns (pos_part p.n)
          → weight (
              make_problem
                (add_complex x)
                (add_complex x)
                n
                istride
                ostride
                howmany
                idist
                odist
                dir)
            < spread kernel_ns (pos_part p.n)
      lighter n istride ostride howmany idist odist dir light =
          made_weight (add_complex x) (add_complex x) n istride ostride howmany idist odist dir
            (spread kernel_ns (pos_part p.n)) light

  with_convolution_congr :
      (padded : Option ℕ) (howmany : ℤ) (s : State World)
      (k k' : ℕ
        → Plan Other × Plan Other × Plan Other
        → State World
        → Run (Option (Plan Other) × State World))
      → contains policy allow_convolutions ≡ true
      → ((l : ℕ) → padded ≡ some l → 2 * l + 1 < spread kernel_ns (pos_part p.n))
      → ((l : ℕ) (plans : Plan Other × Plan Other × Plan Other) (t : State World)
          → k l plans t ≡ k' l plans t)
      → with_convolution x f padded howmany policy s k
        ≡ with_convolution x g padded howmany policy s k'
  with_convolution_congr none howmany s k k' allowed light later = refl
  with_convolution_congr (some l) howmany s k k' allowed light later =
      bind_congr _ _ _ _ (convolution_plans_congr l howmany s allowed (light l refl))
        (λ r. chosen r.0 r.1)
    where
      chosen :
          (found : Option (Plan Other × Plan Other × Plan Other)) (t : State World)
          → ◌≡◌ {A = Run (Option (Plan Other) × State World)}
              (elim found [ none ↦ ok (none, t) | some plans ↦ k l plans t ])
              (elim found [ none ↦ ok (none, t) | some plans ↦ k' l plans t ])
      chosen none t = refl
      chosen (some plans) t = later l plans t

  -- The convolution for a factor of the length is within the bound for the length.
  within :
      (n r l : ℕ)
      → 0 < r
      → r ≤ n
      → convolution_length c kernel_ns r ≡ some l
      → 2 * l + 1 < spread kernel_ns n
  within n r l some_r at_most e =
      let light = spread-length kernel_ns c r l some_r e in
      let mono = spread_below kernel_ns r n at_most in omega (arith, light, mono)

  above_two : (n : ℤ) → ltb_ℤ (pos 2) n ≡ true → 2 < pos_part n
  above_two n test = ground arith

  pub convolution_congr :
      (s : State World)
      → convolution_make_plan kernel_ns x y c f p policy s
        ≡ convolution_make_plan kernel_ns x y c g p policy s
  unfolding convolution_make_plan convolution_is_applicable
  convolution_congr s =
      guarded (convolution_is_applicable kernel_ns x y c f p policy) _ _ _ (λ test.
        (let allowed : contains policy allow_convolutions ≡ true = ground arith in
          let big = above_two p.n (ground arith) in
          with_convolution_congr (convolution_length c kernel_ns (pos_part p.n)) p.howmany s _ _
            allowed
            (λ l e. within (pos_part p.n) (pos_part p.n) l (omega (arith, big)) (omega arith) e)
            (λ l plans t. refl)))

  radix_test : (n : ℤ) (r : ℕ) → r < pos_part n → ltb_ℤ (pos r) n ≡ true
  radix_test (pos n) r less = ground arith
  radix_test (negsuc n) r less = absurd (omega (arith, less))

  pub convolution_ab_congr :
      (s : State World)
      → cooley_tukey_convolution_ab_make_plan kernel_ns x y c f p policy s
        ≡ cooley_tukey_convolution_ab_make_plan kernel_ns x y c g p policy s
  unfolding cooley_tukey_convolution_ab_make_plan convolution_ab_is_applicable
  convolution_ab_congr s =
      guarded (convolution_ab_is_applicable kernel_ns x y c f p policy) _ _ _ (λ test.
        (let allowed : contains policy allow_convolutions ≡ true = ground arith in
          let two : ltb_ℤ (pos 2) p.n ≡ true = ground arith in
          let (one, less) = least_factor-bounds (pos_part p.n) (above_two p.n two) (ground arith) in
          let below = radix_test p.n (least_factor (pos_part p.n)) less in
          with_convolution_congr (convolution_length c kernel_ns (least_factor (pos_part p.n)))
            (convolution_howmany kernel_ns x y c f (pos_part p.n / least_factor (pos_part p.n))) s _
            _ allowed
            (λ l e.
              within (pos_part p.n) (least_factor (pos_part p.n)) l (omega (arith, one))
                (omega (arith, less)) e)
            (λ l plans t.
              either (is_dit x y) _ _ _ _
                (asked_congr _ _ _
                  (same _ (part_weight x y p (least_factor (pos_part p.n)) _ _ _ _ _ one below) t))
                (asked_congr _ _ _ (
                  same _ (part_weight x y p (least_factor (pos_part p.n)) _ _ _ _ _ one below)
                    t)))))

  pub convolution_ac_congr :
      (s : State World)
      → cooley_tukey_convolution_ac_make_plan kernel_ns x y c f p policy s
        ≡ cooley_tukey_convolution_ac_make_plan kernel_ns x y c g p policy s
  unfolding cooley_tukey_convolution_ac_make_plan convolution_ac_is_applicable
  convolution_ac_congr s =
      guarded (convolution_ac_is_applicable kernel_ns x y c f p policy) _ _ _ (λ test.
        (let allowed : contains policy allow_convolutions ≡ true = ground arith in
          let two : ltb_ℤ (pos 2) p.n ≡ true = ground arith in
          let (one, less) = least_factor-bounds (pos_part p.n) (above_two p.n two) (ground arith) in
          let below = radix_test p.n (least_factor (pos_part p.n)) less in
          with_convolution_congr (convolution_length c kernel_ns (least_factor (pos_part p.n)))
            (convolution_howmany kernel_ns x y c f (pos_part p.n / least_factor (pos_part p.n))) s _
            _ allowed
            (λ l e.
              within (pos_part p.n) (least_factor (pos_part p.n)) l (omega (arith, one))
                (omega (arith, less)) e)
            (λ l plans t.
              either (is_dit x y) _ _ _ _
                (asked_congr _ _ _
                  (same _ (part_weight x y p (least_factor (pos_part p.n)) _ _ _ _ _ one below) t))
                (asked_congr _ _ _ (
                  same _ (part_weight x y p (least_factor (pos_part p.n)) _ _ _ _ _ one below)
                    t)))))
