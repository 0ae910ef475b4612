-- ===== src/Planned.antt =====
-- From the planner to the execution: the plans that src/planner makes for complex transforms compute
-- the transforms that they were asked for.
pub mod Strategies
pub mod Radix
pub mod Planner
pub mod Flat
pub mod Convolutions
mod Examples
use perf_libs_fft.Base.{ℕ, ◌*◌, ◌≤◌, ◌≡◌, Bool, true, false, ◌&&◌, Option, some}
use Prim.Native.Nat.{◌∣◌}
use perf_libs_fft.Base.Int.{pos}
use perf_libs_fft.Execution.Contract.{Transforms, buffer_limit}
use perf_libs_fft.Execution.Execute.{Machine, execute}
use perf_libs_fft.Fourier.Sum.{Numbers}
use perf_libs_fft.Fourier.Dft.{IsRoots}
use perf_libs_fft.Planner.Plans.{
  Convolution, Plan, direct_plan, loop_plan, fft1_plan, ab_twid_direct_plan, ac_twid_direct_plan,
  cooley_tukey_plan, single_convolution_plan, convolution_plan, convolution_twid_plan, other_plan,
}
use perf_libs_fft.Planner.Policy.{Policy}
use perf_libs_fft.Planner.Problem.{Problem, TransformKind, c2c, Direction}
use perf_libs_fft.Planner.Run.{ok}
use perf_libs_fft.Planner.Search.{State, Strategy}

-- A complex problem whose length and count are positive, whose size is a value of `int64_t`, and
-- whose length divides `whole`. A buffer for it, of elements of a size, can be allocated.
pub record Fits (element_size whole : ℕ) (p : Problem) : Type 0 where
  pub length : ℕ
  pub count : ℕ
  pub complex : p.kind ≡ c2c
  pub n : p.n ≡ pos length
  pub howmany : p.howmany ≡ pos count
  pub some_count : 1 ≤ count
  pub size : length * count ≤ buffer_limit element_size
  pub divides : length ∣ whole

-- No part of the plan is a convolution or a plan of `direct_sme2`.
pub is_plain : {Other : Type 0} → Plan Other → Bool
is_plain (direct_plan n istride ostride howmany idist odist dir want_sme) = true
is_plain (loop_plan howmany idist odist inner) = is_plain inner
is_plain (fft1_plan howmany idist odist) = true
is_plain (ab_twid_direct_plan n istride ostride howmany idist odist dir want_sme) = true
is_plain (ac_twid_direct_plan n istride ostride howmany0 idist0 odist0 howmany1 dir want_sme) = true
is_plain (cooley_tukey_plan n howmany stage1 stage2) = is_plain stage1 && is_plain stage2
is_plain (single_convolution_plan c n istride ostride dir padded b fwd bwd) = false
is_plain (convolution_plan c n istride ostride howmany idist odist dir padded b fwd bwd) = false
is_plain
      (convolution_twid_plan c r istride ostride howmany0 idist0 odist0 howmany1 dir padded b fwd
        bwd) =
    false
is_plain (other_plan plan) = false

module _ {C Other : Type 0} ⦃numbers : Numbers C⦄ (machine : Machine C Other) where
  -- A plan that computes the transforms of a problem.
  abbrev pub Computes : Problem → Plan Other → Type 0
  Computes p plan =
      (n howmany : ℕ)
      → p.n ≡ pos n
      → p.howmany ≡ pos howmany
      → Transforms (machine.point p.dir) machine.element_size (execute machine plan) n p.istride
          p.ostride howmany p.idist p.odist

  -- A strategy, or a planner, whose plans compute what they are for, if they are plain.
  abbrev pub IsSound : {World : Type 0} → ℕ → Strategy World (Plan Other) → Type 0
  IsSound {World} whole strategy =
      (p : Problem) (policy : Policy) (s t : State World) (plan : Plan Other)
      → Fits machine.element_size whole p
      → strategy p policy s ≡ ok (some plan, t)
      → is_plain plan ≡ true
      → Computes p plan
