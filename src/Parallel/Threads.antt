-- ===== src/Parallel/Threads.antt =====
-- How many threads a region asks for: `parallel_state_t::request` of src/plfft_parallel.hpp.
use perf_libs_fft.Base.{ℕ, ◌≤◌, ◌<◌, ◌≡◌, min, arith}
use perf_libs_fft.Parallel.{bounded_get_max_threads, request}

-- With at least one thread available, the number of threads spawned is between those wanted and
-- those available: whatever the state was, it is at least the smaller of the two.
pub request-bounds :
    (get_max_threads max_threads nt : ℕ)
    → 0 < get_max_threads
    → let (state, spawned) = request get_max_threads max_threads nt in
      (min nt get_max_threads ≤ spawned) × (spawned ≤ get_max_threads) × (0 < spawned)
unfolding request bounded_get_max_threads
request-bounds get_max_threads max_threads nt pos = ground arith

-- The state never shrinks below what it was or below what can be had.
pub request-grows :
    (get_max_threads max_threads nt : ℕ)
    → max_threads ≤ get_max_threads
    → 0 < max_threads
    → let (state, spawned) = request get_max_threads max_threads nt in
      (max_threads ≤ state) × (state ≤ get_max_threads) × (state ≡ spawned)
unfolding request bounded_get_max_threads
request-grows get_max_threads max_threads nt small pos = ground arith
