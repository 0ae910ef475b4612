-- ===== src/Rader.antt =====
-- `find_group_generator` of src/rader_generator.cpp, the search for a number whose powers modulo a
-- prime are all its remainders but zero.
pub mod Powers
pub mod Generator
mod Examples
use perf_libs_fft.Base.{
  ℕ, zero, suc, ◌-◌, ◌*◌, ◌%◌, Bool, true, false, List, Option, none, some, get_or, set, replicate,
  if◌then◌else◌,
}

-- The inner loop, over what is left of it: the power is marked, unless it was seen before.
pub all_new : ℕ → ℕ → ℕ → ℕ → List Bool → Bool
all_new zero n cand x seen = true
all_new (suc rounds) n cand x seen =
    let rest = all_new rounds n cand (x * cand % n) (set seen x true) in
    if get_or seen x false then false else rest

-- One candidate; the inner loop starts at one, with nothing seen.
pub is_generator : ℕ → ℕ → Bool
unfolding all_new
is_generator n cand = all_new (n - 1) n cand 1 (replicate n false)

-- The outer loop, over what is left of it.
pub search_generator : ℕ → ℕ → ℕ → ℕ
search_generator zero n cand = 0
search_generator (suc rounds) n cand =
    let next = search_generator rounds n (suc cand) in if is_generator n cand then cand else next

pub find_group_generator : ℕ → ℕ
unfolding search_generator
find_group_generator n = search_generator (n - 2) n 2
