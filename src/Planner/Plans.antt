-- ===== src/Planner/Plans.antt =====
-- The plans that the strategies of src/planner/strategies make, each with the arguments of its
-- constructor: the classes `direct_plan`, `loop_plan`, `fft1_plan`, `ab_twid_direct_plan`,
-- `ac_twid_direct_plan` and `cooley_tukey_plan`, and the classes `rader_single_plan`, `rader_plan`,
-- `rader_twid_plan` and those of the same names for Bluestein. `Other` are those of the strategies that are
-- parameters.
use perf_libs_fft.Base.{Bool}
use perf_libs_fft.Base.Int.{ℤ}
use perf_libs_fft.Planner.Problem.{Direction}

-- The two ways to turn a transform of a prime length into a convolution.
pub data Convolution : Type 0 where
  rader bluestein : Convolution

pub data Plan (Other : Type 0) : Type 0 where
  direct_plan : (n istride ostride howmany idist odist : ℤ) → Direction → Bool → Plan Other
  loop_plan : (howmany idist odist : ℤ) → Plan Other → Plan Other
  fft1_plan : (howmany idist odist : ℤ) → Plan Other
  ab_twid_direct_plan : (n istride ostride howmany idist odist : ℤ) → Direction → Bool → Plan Other
  ac_twid_direct_plan :
      (n istride ostride howmany0 idist0 odist0 howmany1 : ℤ) → Direction → Bool → Plan Other
  cooley_tukey_plan : (n howmany : ℤ) → Plan Other → Plan Other → Plan Other
  single_convolution_plan :
      Convolution
      → (n istride ostride : ℤ) → Direction
      → (padded : ℤ) → (b fwd bwd : Plan Other) → Plan Other
  convolution_plan :
      Convolution
      → (n istride ostride howmany idist odist : ℤ) → Direction
      → (padded : ℤ) → (b fwd bwd : Plan Other) → Plan Other
  convolution_twid_plan :
      Convolution
      → (r istride ostride howmany0 idist0 odist0 howmany1 : ℤ) → Direction
      → (padded : ℤ) → (b fwd bwd : Plan Other) → Plan Other
  other_plan : Other → Plan Other
