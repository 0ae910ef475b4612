-- ===== src/Parallel/Chunks.antt =====
-- The chunks of `work_distribution` follow on one another: src/plfft_parallel.hpp.
use native.Mathlib.Nat.{mul-le-mul_right, mul-pos}
use perf_libs_fft.Base.{
  ℕ, zero, suc, ◌+◌, ◌-◌, ◌*◌, ◌≤◌, ◌<◌, ◌≡◌, refl, sym, ap, ◌∙◌, inl, inr, true, false, ◌||◌, ltb,
  ◌==◌, Bool-cases, if◌then◌else◌, min, arith,
}
use perf_libs_fft.Parallel.{ParallelSplit, make_parallel_split, work_distribution}
use perf_libs_fft.Parallel.Split.{IsEven, make_parallel_split-IsEven}

-- The rows before a thread.
abbrev rows_before : ParallelSplit → ℕ → ℕ
rows_before split t = split.work_per_thread * t + min t split.modified_threads

-- The rows of a thread.
abbrev rows_of : ParallelSplit → ℕ → ℕ
rows_of split t =
    if ltb t split.modified_threads then suc split.work_per_thread else split.work_per_thread

before : (w m t k : ℕ) → k ≡ 1 → w * t + (if ltb t m then t * k else m) ≡ w * t + min t m
before w m t k e = rw e (ground arith)

thread_work :
    (w m t k : ℕ) → k ≡ 1 → (if ltb t m then w + k else w) ≡ (if ltb t m then suc w else w)
thread_work w m t k e = rw e (ground arith)

tail :
    (a b total rows dimension : ℕ)
    → a + b ≡ total
    → 0 < b
    → total * rows < dimension + rows
    → a * rows < dimension
tail a zero total rows dimension e pos tight = absurd (omega (arith, pos))
tail a (suc b) total rows dimension e pos tight = omega (arith, tight, ap (λ (t : ℕ). t * rows) e)

none_before : (w m rows : ℕ) → (w * 0 + min 0 m) * rows ≡ 0
none_before w m rows = ground arith

share :
    (a b total rows dimension w : ℕ)
    → a + b ≡ total
    → b ≤ suc w
    → dimension ≤ total * rows
    → dimension - a * rows ≤ suc w * rows
share a b total rows dimension w e small covered =
    omega (arith, covered, ap (λ (t : ℕ). t * rows) e, mul-le-mul_right rows small)

module _ (dimension : ℕ) (split : ParallelSplit) (even : IsEven dimension split) where
  start_of : (t : ℕ) → (work_distribution t split).0 ≡ rows_before split t * split.interleaved_rows
  unfolding work_distribution
  start_of t =
      let e =
        ap (λ s. s * split.interleaved_rows)
          (before split.work_per_thread split.modified_threads t split.modifier even.modifier) in
      elim (Bool-cases (t == split.threads - 1)) [ inl last ↦ rw last e | inr more ↦ rw more e ]

  size_of :
      (t : ℕ)
      → suc t < split.threads
      → (work_distribution t split).1 ≡ rows_of split t * split.interleaved_rows
  unfolding work_distribution
  size_of t more =
      let last : (t == split.threads - 1) ≡ false = ground arith in
      rw last (
        ap (λ s. s * split.interleaved_rows)
          (thread_work split.work_per_thread split.modified_threads t split.modifier even.modifier))

  last_size :
      (t : ℕ)
      → suc t ≡ split.threads
      → (work_distribution t split).1 ≡ dimension - (work_distribution t split).0
  unfolding work_distribution
  last_size t last =
      let last' : (t == split.threads - 1) ≡ true = ground arith in rw (last', even.total) refl

  rows_before-suc : (t : ℕ) → rows_before split t + rows_of split t ≡ rows_before split (suc t)
  rows_before-suc t = ground arith

  rows_before-all :
      (t : ℕ)
      → suc t ≡ split.threads
      → rows_before split t + rows_of split t
        ≡ split.work_per_thread * split.threads + split.modified_threads
  rows_before-all t last = rw (sym last) (grind (arith, even.fewer, last))

  -- Some rows are left for the last thread.
  rows_before-fewer :
      (t : ℕ) → suc t ≡ split.threads → rows_before split t * split.interleaved_rows < dimension
  rows_before-fewer t last =
      tail (rows_before split t) (rows_of split t) _ split.interleaved_rows dimension
        (rows_before-all t last) (ground (arith, even.some_work)) even.tight

  adjacent :
      (t : ℕ)
      → suc t < split.threads
      → (work_distribution t split).0 + (work_distribution t split).1
        ≡ (work_distribution (suc t) split).0
  adjacent t more =
      rw (start_of t, size_of t more, start_of (suc t), sym (rows_before-suc t)) (omega arith)

  last_chunk :
      (t : ℕ)
      → suc t ≡ split.threads
      → (work_distribution t split).0 + (work_distribution t split).1 ≡ dimension
  last_chunk t last = rw (last_size t last) (omega (arith, rows_before-fewer t last, start_of t))

  size_bounds :
      (t : ℕ)
      → t < split.threads
      → (0 < (work_distribution t split).1)
        × ((work_distribution t split).1 ≤ suc split.work_per_thread * split.interleaved_rows)
  size_bounds t in_range = elim (Bool-cases (suc t == split.threads)) [
    | inl last ↦
        let last' : suc t ≡ split.threads = ground arith in
        let fewer = rows_before-fewer t last' in
        let small =
          share (rows_before split t) (rows_of split t) _ split.interleaved_rows dimension
            split.work_per_thread (rows_before-all t last') (ground arith) even.covered in
        rw (last_size t last', start_of t) (omega (arith, fewer), small)
    | inr more ↦ rw (size_of t (ground arith)) (
      mul-pos {m = rows_of split t} (ground (arith, even.some_work)) even.rows,
      mul-le-mul_right split.interleaved_rows (ground arith),
    )
  ]

module _ (dimension interleave max_threads : ℕ) (work : 0 < dimension) (pos : 0 < interleave)
    (several : 1 < max_threads) where
  -- With several threads, and rows to share, a thread's rows end where those of the next begin.
  pub work_distribution-adjacent :
      (t : ℕ)
      → suc t < (make_parallel_split dimension interleave max_threads).threads
      → (let split = make_parallel_split dimension interleave max_threads in
          (work_distribution t split).0 + (work_distribution t split).1
          ≡ (work_distribution (suc t) split).0)
  work_distribution-adjacent t more =
      adjacent dimension _
        (make_parallel_split-IsEven dimension interleave max_threads work pos several) t more

  -- Each thread has rows, and at most one multiple of `interleave` more than the smallest share.
  pub work_distribution-bounds :
      (t : ℕ)
      → t < (make_parallel_split dimension interleave max_threads).threads
      → (let split = make_parallel_split dimension interleave max_threads in
          (0 < (work_distribution t split).1)
          × ((work_distribution t split).1 ≤ suc split.work_per_thread * split.interleaved_rows))
  work_distribution-bounds t in_range =
      size_bounds dimension _
        (make_parallel_split-IsEven dimension interleave max_threads work pos several) t in_range

abbrev single_thread : ℕ → ParallelSplit
single_thread dimension = record {
  threads = 1;
  work_per_thread = dimension;
  total_actual_work = dimension;
  modifier = 0;
  modified_threads = 1;
  interleaved_rows = 0;
}

single_split :
    (dimension interleave max_threads : ℕ)
    → max_threads == 1 || dimension == 0 ≡ true
    → make_parallel_split dimension interleave max_threads ≡ single_thread dimension
unfolding make_parallel_split
single_split dimension interleave max_threads single = rw single refl

alone :
    (dimension : ℕ)
    → (0 < 1)
      × ((work_distribution 0 (single_thread dimension)).0 ≡ 0)
      × ((work_distribution 0 (single_thread dimension)).0
            + (work_distribution 0 (single_thread dimension)).1
          ≡ dimension)
unfolding work_distribution
alone dimension = (omega arith, omega arith, omega arith)

-- The first thread starts at zero, and the last thread's rows end at the dimension, also where there
-- is nothing to share or only one thread.
pub work_distribution-ends :
    (dimension interleave max_threads : ℕ)
    → 0 < interleave
    → 0 < max_threads
    → (let split = make_parallel_split dimension interleave max_threads in
        (0 < split.threads)
        × ((work_distribution 0 split).0 ≡ 0)
        × ((work_distribution (split.threads - 1) split).0
              + (work_distribution (split.threads - 1) split).1
            ≡ dimension))
work_distribution-ends dimension interleave max_threads pos some_threads =
    elim (Bool-cases (max_threads == 1 || dimension == 0)) [
      | inl single ↦ rw (single_split dimension interleave max_threads single) (alone dimension)
      | inr several ↦
          let even =
            make_parallel_split-IsEven dimension interleave max_threads (ground arith) pos
              (ground arith) in
          let split = make_parallel_split dimension interleave max_threads in
          let some : 0 < split.threads = omega (arith, even.fewer) in
          (
            some,
            start_of dimension split even 0
                ∙ none_before split.work_per_thread split.modified_threads split.interleaved_rows,
            last_chunk dimension split even (split.threads - 1) (omega (arith, some)),
          )
    ]
