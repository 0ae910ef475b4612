-- ===== src/Planner/Convolutions.antt =====
-- The strategies of src/planner/strategies/rader.hpp and src/planner/strategies/bluestein.hpp, which
-- plan transforms of prime lengths, and Cooley-Tukey steps with a prime radix, as convolutions. The
-- two files differ in the length of the convolution and in the plans that they make. The least prime
-- factors, which the source takes from a cache, are computed.
use mathlib.Core.Option
use perf_libs_fft.Base.{
  ℕ, ◌+◌, ◌-◌, ◌*◌, ◌/◌, Bool, true, not, ◌&&◌, ◌||◌, List, Option, none, some, ltb, ◌==◌,
  if◌then◌else◌,
}
use perf_libs_fft.Base.Int.{ℤ, pos, pos_part, int_eq, ltb_ℤ, ◌*ℤ◌}
use perf_libs_fft.Factorize.Factors.{is_base_n}
use perf_libs_fft.Factorize.Factors.NextLength.{next_length_factorable_by}
use perf_libs_fft.Factorize.SmallestPrime.{smallest_prime_factor}
use perf_libs_fft.Planner.CooleyTukey.{is_dit}
use perf_libs_fft.Planner.Plans.{
  Convolution, rader, bluestein, Plan, cooley_tukey_plan, single_convolution_plan, convolution_plan,
  convolution_twid_plan,
}
use perf_libs_fft.Planner.Policy.{Policy, contains, minus, allow_convolutions}
use perf_libs_fft.Planner.Problem.{Problem, ElementType, forward, backward, make_problem}
use perf_libs_fft.Planner.Run.{Run, ok, abort, ◌>>=◌}
use perf_libs_fft.Planner.Search.{State, Strategy}

abbrev pub least_factor : ℕ → ℕ
least_factor n = elim (smallest_prime_factor n) [ none ↦ 0 | some r ↦ r ]

abbrev pub prime_test : ℕ → Bool
prime_test n = ltb 1 n && least_factor n == n

-- The length of the convolution: `bluestein_convolution_length`, or one less than the length.
abbrev pub convolution_length : Convolution → List ℕ → ℕ → Option ℕ
convolution_length rader kernel_ns n = some (n - 1)
convolution_length bluestein kernel_ns n = next_length_factorable_by (2 * n - 1) kernel_ns

-- `add_complex_t`
abbrev pub add_complex : ElementType → ElementType
add_complex x = record x { is_complex = true }

module _ {World Other : Type 0} (x : ElementType) (planner : Strategy World (Plan Other)) where
  abbrev Three : Type 0
  Three = Plan Other × Plan Other × Plan Other

  abbrev together : Option (Plan Other) → Option (Plan Other) → Option (Plan Other) → Option Three
  together (some b) (some fwd) (some bwd) = some (b, fwd, bwd)
  together _ _ _ = none

  -- The plans of a convolution of a length, from a planner that may not use convolutions in turn:
  -- one for the constant factor, one forward and one backward for a batch.
  unfoldable pub convolution_plans :
      ℕ
      → ℤ
      → Policy
      → State World
      → Run (Option (Plan Other × Plan Other × Plan Other) × State World)
  convolution_plans padded howmany policy s =
      let w = add_complex x in
      let without = minus policy allow_convolutions in
      planner (make_problem w w (pos padded) (pos 1) (pos 1) (pos 1) (pos 0) (pos 0) forward)
        without s
      >>= λ b.
          (planner (make_problem w w (pos padded) howmany howmany howmany (pos 1) (pos 1) forward)
              without b.1
            >>= λ fwd.
                (planner
                    (make_problem w w (pos padded) howmany howmany howmany (pos 1) (pos 1) backward)
                    without fwd.1
                  >>= λ bwd. ok (together b.0 fwd.0 bwd.0, bwd.1)))

  -- With the three plans, one more plan, if there is one; without them, none.
  abbrev pub with_convolution :
      Option ℕ
      → ℤ
      → Policy
      → State World
      → (ℕ → Three → State World → Run (Option (Plan Other) × State World))
      → Run (Option (Plan Other) × State World)
  with_convolution none howmany policy s use_plans = abort
  with_convolution (some padded) howmany policy s use_plans =
      convolution_plans padded howmany policy s >>= λ r.
      (elim r.0 as (λ _. Run (Option (Plan Other) × State World)) [
        | none ↦ ok (none, r.1)
        | some plans ↦ use_plans padded plans r.1
      ])

module _ {World Other : Type 0} (kernel_ns : List ℕ) (x y : ElementType) (c : Convolution)
    (planner : Strategy World (Plan Other)) where
  -- `rader_strategy::is_applicable`
  unfoldable pub convolution_is_applicable : Problem → Policy → Bool
  convolution_is_applicable p policy =
      contains policy allow_convolutions
      && not (is_base_n (pos_part p.n) kernel_ns)
      && ltb_ℤ (pos 2) p.n
      && prime_test (pos_part p.n)

  unfoldable pub convolution_make_plan : Strategy World (Plan Other)
  convolution_make_plan p policy s =
      if convolution_is_applicable p policy
      then with_convolution x planner (convolution_length c kernel_ns (pos_part p.n)) p.howmany
          policy s
          (λ padded plans t. ok (
            some (
                if int_eq p.howmany (pos 1)
                then single_convolution_plan c p.n p.istride p.ostride p.dir (pos padded) plans.0
                    plans.1 plans.2
                else convolution_plan c p.n p.istride p.ostride p.howmany p.idist p.odist p.dir
                    (pos padded) plans.0 plans.1 plans.2),
            t,
          ))
      else ok (none, s)

  -- How many transforms the convolution of a step is for: half of them from complex to real.
  abbrev pub convolution_howmany : ℕ → ℤ
  convolution_howmany m = pos (if x.is_complex && not y.is_complex then m / 2 + 1 else m)

  -- `cooley_tukey_rader_ab::is_applicable`
  unfoldable pub convolution_ab_is_applicable : Problem → Policy → Bool
  convolution_ab_is_applicable p policy =
      int_eq p.howmany (pos 1)
      && contains policy allow_convolutions
      && ltb_ℤ (pos 2) p.n
      && not (prime_test (pos_part p.n))
      && not (is_base_n (least_factor (pos_part p.n)) kernel_ns)

  unfoldable pub cooley_tukey_convolution_ab_make_plan : Strategy World (Plan Other)
  cooley_tukey_convolution_ab_make_plan p policy s =
      let r = least_factor (pos_part p.n) in
      let m = pos (pos_part p.n / r) in
      let made = λ (plan : Plan Other → Plan Other) (q : Problem) (t : State World).
        ◌>>=◌ {B = Option (Plan Other) × State World} (planner q policy t)
          (λ planned. ok (Option.map plan planned.0, planned.1)) in
      if convolution_ab_is_applicable p policy
      then with_convolution x planner (convolution_length c kernel_ns r)
          (convolution_howmany (pos_part p.n / r)) policy s
          (λ padded plans t.
            if is_dit x y
            then made
                (λ stage1. cooley_tukey_plan p.n (pos 1) stage1 (
                  convolution_twid_plan c (pos r) (pos 1) (p.ostride *ℤ m) m (pos r) p.ostride
                    (pos 1) p.dir (pos padded) plans.0 plans.1 plans.2))
                (make_problem x y m (p.istride *ℤ pos r) (pos r) (pos r) p.istride (pos 1) p.dir) t
            else made
                (λ stage2.
                  cooley_tukey_plan p.n (pos 1)
                    (convolution_twid_plan c (pos r) (p.istride *ℤ m) (pos 1) m p.istride (pos r)
                      (pos 1) p.dir (pos padded) plans.0 plans.1 plans.2)
                    stage2)
                (make_problem x y m (pos r) (p.ostride *ℤ pos r) (pos r) (pos 1) p.ostride p.dir) t)
      else ok (none, s)

  -- `cooley_tukey_rader_ac::is_applicable`
  unfoldable pub convolution_ac_is_applicable : Problem → Policy → Bool
  convolution_ac_is_applicable p policy =
      ((is_dit x y && int_eq p.istride (p.howmany *ℤ p.idist) && int_eq p.odist (pos 1))
        || (not (is_dit x y) && int_eq p.idist (pos 1) && int_eq p.ostride (p.howmany *ℤ p.odist)))
      && ltb_ℤ (pos 1) p.howmany
      && contains policy allow_convolutions
      && ltb_ℤ (pos 2) p.n
      && not (prime_test (pos_part p.n))
      && not (is_base_n (least_factor (pos_part p.n)) kernel_ns)

  unfoldable pub cooley_tukey_convolution_ac_make_plan : Strategy World (Plan Other)
  cooley_tukey_convolution_ac_make_plan p policy s =
      let r = least_factor (pos_part p.n) in
      let m = pos (pos_part p.n / r) in
      let rows = p.howmany *ℤ pos r in
      let made = λ (plan : Plan Other → Plan Other) (q : Problem) (t : State World).
        ◌>>=◌ {B = Option (Plan Other) × State World} (planner q policy t)
          (λ planned. ok (Option.map plan planned.0, planned.1)) in
      if convolution_ac_is_applicable p policy
      then with_convolution x planner (convolution_length c kernel_ns r)
          (convolution_howmany (pos_part p.n / r)) policy s
          (λ padded plans t.
            if is_dit x y
            then made
                (λ stage1. cooley_tukey_plan p.n p.howmany stage1 (
                  convolution_twid_plan c (pos r) p.howmany (p.ostride *ℤ m) m rows p.ostride
                    p.howmany p.dir (pos padded) plans.0 plans.1 plans.2))
                (make_problem x y m (p.istride *ℤ pos r) rows rows p.idist (pos 1) p.dir) t
            else made
                (λ stage2.
                  cooley_tukey_plan p.n p.howmany
                    (convolution_twid_plan c (pos r) (p.istride *ℤ m) p.howmany m p.istride rows
                      p.howmany p.dir (pos padded) plans.0 plans.1 plans.2)
                    stage2)
                (make_problem x y m rows (p.ostride *ℤ pos r) rows (pos 1) p.odist p.dir) t)
      else ok (none, s)
