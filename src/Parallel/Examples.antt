-- ===== src/Parallel/Examples.antt =====
-- Thirty rows in blocks of four, over three threads.
use perf_libs_fft.Base.{suc, ◌+◌, ◌-◌, ◌*◌, ◌≤◌, ◌<◌, ◌≡◌, refl, arith}
use perf_libs_fft.Parallel.{
  ParallelSplit, iround, iround_div, make_parallel_split, work_distribution,
}
use perf_libs_fft.Parallel.Chunks.{
  work_distribution-adjacent, work_distribution-bounds, work_distribution-ends,
}

abbrev split : ParallelSplit
split = make_parallel_split 30 4 3

three_threads : split.threads ≡ 3
unfolding make_parallel_split iround_div iround
three_threads = refl

work_distribution-adjacent_example :
    (work_distribution 1 split).0 + (work_distribution 1 split).1 ≡ (work_distribution 2 split).0
work_distribution-adjacent_example =
    work_distribution-adjacent 30 4 3 (omega arith) (omega arith) (omega arith) 1
      (omega (arith, three_threads))

work_distribution-bounds_example :
    (0 < (work_distribution 2 split).1)
    × ((work_distribution 2 split).1 ≤ suc split.work_per_thread * split.interleaved_rows)
work_distribution-bounds_example =
    work_distribution-bounds 30 4 3 (omega arith) (omega arith) (omega arith) 2
      (omega (arith, three_threads))

work_distribution-ends_example :
    (0 < split.threads)
    × ((work_distribution 0 split).0 ≡ 0)
    × ((work_distribution (split.threads - 1) split).0
          + (work_distribution (split.threads - 1) split).1
        ≡ 30)
work_distribution-ends_example = work_distribution-ends 30 4 3 (omega arith) (omega arith)
