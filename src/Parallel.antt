-- ===== src/Parallel.antt =====
-- The split of work over threads: src/plfft_parallel.hpp and the helpers of src/plfft_util.hpp.
-- The numbers here are counts, so they are natural numbers; `parallel_split` is of `int64_t`.
pub mod Split
pub mod Chunks
pub mod Threads
mod Examples
use perf_libs_fft.Base.{
  ℕ, suc, ◌+◌, ◌-◌, ◌*◌, ◌/◌, ◌%◌, Bool, true, false, ◌||◌, leb, ltb, ◌==◌, if◌then◌else◌,
}

-- Rounds `n` up to a multiple of `r`.
pub iround : ℕ → ℕ → ℕ
iround n r = let diff = n % r in if diff == 0 then n else n - diff + r

pub iround_div : ℕ → ℕ → ℕ
unfolding iround
iround_div n r = iround n r / r

pub record ParallelSplit : Type 0 where
  pub threads : ℕ
  pub work_per_thread : ℕ
  pub total_actual_work : ℕ
  pub modifier : ℕ
  pub modified_threads : ℕ
  pub interleaved_rows : ℕ

-- The first case leaves the last field out, which C++ sets to zero.
pub make_parallel_split : ℕ → ℕ → ℕ → ParallelSplit
make_parallel_split dimension interleave max_threads =
    if max_threads == 1 || dimension == 0
    then record {
      threads = 1;
      work_per_thread = dimension;
      total_actual_work = dimension;
      modifier = 0;
      modified_threads = 1;
      interleaved_rows = 0;
    }
    else (let actual_work = iround_div dimension interleave in
        let threads = if ltb max_threads actual_work then max_threads else actual_work in
        let work_per_thread = actual_work / threads in
        record {
          threads = threads;
          work_per_thread = work_per_thread;
          total_actual_work = dimension;
          modifier = 1;
          modified_threads = actual_work - threads * work_per_thread;
          interleaved_rows = interleave;
        })

-- The first row of a thread, and its number of rows.
pub work_distribution : ℕ → ParallelSplit → ℕ × ℕ
work_distribution thread_num split =
    let more = ltb thread_num split.modified_threads in
    let thread_work =
      if more then split.work_per_thread + split.modifier else split.work_per_thread in
    let start =
      split.work_per_thread * thread_num
      + (if more then thread_num * split.modifier else split.modified_threads) in
    let actual_start = start * split.interleaved_rows in
    if thread_num == split.threads - 1
    then (actual_start, split.total_actual_work - actual_start)
    else (actual_start, thread_work * split.interleaved_rows)

-- `omp_get_max_threads`, or one where parallel regions do not nest, is a parameter.
module _ (get_max_threads : ℕ) where
  pub bounded_get_max_threads : ℕ → ℕ
  bounded_get_max_threads max =
      if leb max 1 then 1 else (if ltb max get_max_threads then max else get_max_threads)

  -- The new state, and the number of threads to spawn.
  pub request : ℕ → ℕ → ℕ × ℕ
  unfolding bounded_get_max_threads
  request max_threads nt =
      if ltb max_threads nt
      then (bounded_get_max_threads nt, bounded_get_max_threads nt)
      else (max_threads, bounded_get_max_threads max_threads)
