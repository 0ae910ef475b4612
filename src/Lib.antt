-- ===== src/Lib.antt =====
-- A model of PLFFT, a library of fast Fourier transforms, and what is proved of it.
--
-- The program. A client of the C interface (src/plfft.cpp, include/plfft.h) makes a configuration,
-- sets what it wants, and asks for a plan. The call checks the configuration and hands it to the
-- planner, which turns it into a problem (src/planner/problem.hpp). The planner
-- (src/planner/planner.cpp) looks the problem up in its wisdom (src/planner/wisdom.cpp), and else
-- auditions a table of strategies (src/planner/strategies), each of which may plan smaller problems,
-- and keeps in wisdom which of them won. The permissions under which it searches are a policy
-- (src/planner/policy.hpp). Strategies ask how a length factors (src/factorize.hpp), through a cache
-- of prime factors. Wisdom and cache are tables of src/plfft_static_hash_map.hpp. A plan is executed
-- between pointers: kernels that a provider generated transform batches of short transforms, and the
-- plans of src/planner/strategies/cooley_tukey.hpp combine two stages through a buffer, with twiddle
-- factors of src/generate_twiddles.hpp. src/plfft_parallel.hpp splits rows between threads.
--
-- The files.
-- Base: names of the libraries, tests on numbers, lists, integers, bits, divisors.
-- Fourier: exact coefficients, sums, and the discrete Fourier transform, by which executions are
--   measured; Fourier/Five is an instance, the integers modulo five.
-- Checked: the checked arithmetic of src/plfft_util.hpp, where `std::abort` is a result.
-- Twiddles: `generate_twiddles`. The table is the list of all that the loops write, in order.
-- Execution: `execute` of each class of plans, for complex transforms, and the stack of buffers of
--   src/planner/strategies/cooley_tukey.hpp. A store holds a memory for the input, the output and
--   each buffer, with the size of each buffer and how many frames are in use. A write past the end
--   of a buffer, which is undefined in the source, is lost, so that what is said of the output holds
--   only if the buffers are large enough. Execution/Contract says what the kernels promise: a kernel
--   serves the strides, the distances and the batch that it was requested for, and no others.
--   Execution/Reference has kernels that are specialised to a request, and keep the promise.
-- Planned: that the plans which strategies and planner make compute what they are asked for, if they
--   have no convolution and no plan of `direct_sme2` in them;
--   Planned/Flat: that none has a convolution where the policy forbids it.
-- Containers/HashMap: `static_hash_map`. A table is the list of its buckets; `find` and `insert`
--   return values in place of pointers, and `write` is an assignment through such a pointer.
-- Containers/PodVector: `pod_vector`. Its memory is a list of cells, of which some were never
--   written; a null pointer is the empty list.
-- Planner/Policy, Planner/Problem, Planner/Wisdom: the classes of the same names.
-- Planner/Run: a computation that may call `std::abort`.
-- Planner/Search: `planner::make_plan_impl` as a function on an explicit state, which holds the
--   wisdom and a world with the clock and the machine; its children prove what the search does.
-- Planner/Plans, Planner/Strategies, Planner/CooleyTukey: the plans, the table of strategies, the
--   dispatch of `planner::make_plan` on the types, and the strategies `direct`, `loop`, `fft1`,
--   `cooley_tukey_ab` and `cooley_tukey_ac`.
-- Planner/Convolutions: the six strategies of src/planner/strategies/rader.hpp and
--   src/planner/strategies/bluestein.hpp. The two files are alike but for the length of the
--   convolution and the class of the plan, and are one model.
-- Planner/Recursion: the planner whose strategies ask the planner in turn.
-- Planner/Factors: the class `factors`.
-- Factorize: `smallest_prime_factor`, the factorisations of a length, and the next length that the
--   kernels divide.
-- Parallel: `parallel_state_t::request`, `make_parallel_split` and `work_distribution`.
-- Rader: `find_group_generator` of src/rader_generator.cpp.
-- R2r: `r2r_buffer_helper`, the layout of the input of a real-to-real transform and the extraction
--   of its output. An input that is written cell after cell is a list, and the output is what a
--   sequence of writes leaves; the arithmetic is a parameter.
-- Api: the enumerations, the configuration, and `plfft_plan_create_from_config`.
--
-- Bounds and fuel. Lengths, strides and distances of problems and configurations are integers; the
-- code that divides or counts is on natural numbers, which its callers give it. Masks have 32 bits,
-- hashes 64. The loops of Factorize run on fuel: the trial division of `n` starts with `n + 1`, the
-- division by one factor with `n + 1`, the loop over trial factors with `n + 1`, and the loop of
-- `factorize_square` with `n + 1`. The search for the next length from `n` on has one round more than
-- the first kernel length to the power `n`. The planner calls itself to a depth that is an argument,
-- with what stands below it as another. Twice the length and one more is depth enough without
-- convolutions, which are padded to lengths that are bounded by a sum over all lengths up to the
-- length of the problem; they are planned without convolutions in turn. The loop over
-- the rows of a twiddle table has one round more than there are rows. That these suffice is part of
-- what is proved of them.
--
-- Parameters. The clock, the measurements, the strategy of SME2, the execution of plans with a
-- convolution, the kernel lengths, `std::hash`, square roots, logarithms and powers, the features of
-- the CPU, the switches of the build and the functions that build a plan are arguments. A root is
-- assumed to be at most its argument. The kernels, which are generated, are arguments with the
-- contract that docs/kernel_naming.md gives them, for the calls that each was requested for; so are
-- the points of the unit circle, of which roots of unity are all that is assumed. What the caller's
-- input and output hold is for the caller to know: they have no bounds here, and do not overlap.
-- Arithmetic on coefficients is exact: rounding is not modelled.
-- Products of strides are integers without a bound. A plan looks up its kernels when it is executed,
-- where the source does so once, when it is made.
--
-- Not modelled. The kernels (generated), the assembler that makes them at run time, the strategy of
-- SME2, the execution of the plans of Rader and Bluestein, the cache of prime factors where a strategy
-- asks it (Planner/Factors models it), the execution of plans for real transforms, the levels of
-- src/compositor.cpp, and the parallel loop itself.
pub mod Base
pub mod Fourier
pub mod Checked
pub mod Twiddles
pub mod Execution
pub mod Planned
pub mod Containers
pub mod Factorize
pub mod Planner
pub mod Parallel
pub mod Api
pub mod Rader
pub mod R2r
