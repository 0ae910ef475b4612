-- ===== src/Rader/Generator.antt =====
-- The result of `find_group_generator`: src/rader_generator.cpp.
use native.Mathlib.Decide.{dec_lt}
use perf_libs_fft.Base.{
  ℕ, zero, suc, ◌+◌, ◌-◌, ◌≤◌, ◌<◌, ◌≡◌, ◌≢◌, inl, inr, sym, subst, ◌∙◌, true, false, Bool-cases,
  arith,
}
use perf_libs_fft.Rader.{is_generator, search_generator, find_group_generator}
use perf_libs_fft.Rader.Powers.{AllDistinct, is_generator_iff}

-- The least candidate from `low` on, below `n`, whose powers are distinct, or zero for none.
pub data Found (n low : ℕ) : ℕ → Type 0 where
  least :
      {g : ℕ}
      → low ≤ g
      → g < n
      → AllDistinct (n - 1) n g 1
      → ((cand : ℕ) → low ≤ cand → cand < g → ¬ AllDistinct (n - 1) n cand 1)
      → Found n low g
  nothing : ((cand : ℕ) → low ≤ cand → cand < n → ¬ AllDistinct (n - 1) n cand 1) → Found n low 0

-- A candidate that does not pass.
skip : (n cand g : ℕ) → ¬ AllDistinct (n - 1) n cand 1 → Found n (suc cand) g → Found n cand g
skip n cand g fails (least low high distinct none_before) =
    least (omega (arith, low)) high distinct (λ c l m. elim (dec_lt cand c) [
      | yes above ↦ none_before c above m
      | no same ↦
          (λ d. fails (subst (λ (k : ℕ). AllDistinct (n - 1) n k 1) (omega (arith, same, l)) d))
    ])
skip n cand _ fails (nothing none_at_all) = nothing (λ c l m. elim (dec_lt cand c) [
  | yes above ↦ none_at_all c above m
  | no same ↦ (λ d. fails (subst (λ (k : ℕ). AllDistinct (n - 1) n k 1) (omega (arith, same, l)) d))
])

search_generator-Found :
    (rounds n cand : ℕ) → 1 < n → rounds + cand ≡ n → Found n cand (search_generator rounds n cand)
unfolding search_generator
search_generator-Found zero n cand big e = nothing (λ c l m. absurd (omega (arith, e, l, m)))
search_generator-Found (suc rounds) n cand big e = elim (Bool-cases (is_generator n cand)) [
  | inl passes ↦ rw passes (
      least (omega arith) (omega (arith, e)) ((is_generator_iff n cand big).0 passes)
        (λ c l m. absurd (omega (arith, l, m))))
  | inr fails ↦ rw fails (
      skip n cand _ (λ d. true_false (sym ((is_generator_iff n cand big).1 d) ∙ fails))
        (search_generator-Found rounds n (suc cand) big (omega (arith, e))))
]
  where
    true_false : true ≢ false
    true_false = ground arith

-- For `n` above one, the search returns the least number from two on, below `n`, whose first `n - 1`
-- powers modulo `n` are distinct, and zero exactly if there is none.
pub find_group_generator-Found : (n : ℕ) → 1 < n → Found n 2 (find_group_generator n)
unfolding find_group_generator
find_group_generator-Found n big = search_generator-Found (n - 2) n 2 big (omega arith)
