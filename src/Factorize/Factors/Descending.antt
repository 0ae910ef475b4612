-- ===== src/Factorize/Factors/Descending.antt =====
-- Factorisation in descending order: total, and the factors multiply back to the number.
use perf_libs_fft.Base.{
  ℕ, suc, ◌*◌, ◌≤◌, ◌<◌, ◌≡◌, refl, ◌∙◌, inl, inr, List, [], ◌∷◌, ◌++◌, some, ltb, if◌then◌else◌,
  Bool-cases, ltb→lt, arith,
}
use perf_libs_fft.Factorize.Factors.Product.{
  product, AllAbove, Splits, product-append, AllAbove-append, divide_out_all-Splits,
  prime_loop-Splits,
}
use perf_libs_fft.Factorize.Factors.Sort.{
  IsDescending, sort_descending-product, sort_descending-above, sort_descending-IsDescending,
}
use perf_libs_fft.Factorize.Factors.{sort_descending, factorize_primes, factorize_descending}

-- Factors above one that multiply to `n`, the greatest first.
pub record IsFactorisation (n : ℕ) (factors : List ℕ) : Type 0 where
  pub whole : product factors ≡ n
  pub above : AllAbove 1 factors
  pub descending : IsDescending factors

only_one : (a p : ℕ) → a ≡ 1 → p ≡ a * p
only_one a p e = rw e (omega arith)

with_rest :
    (n : ℕ) (factors : List ℕ) (r : ℕ × List ℕ)
    → AllAbove 1 factors
    → Splits n factors r
    → let all = if ltb 1 r.0 then r.1 ++ r.0 ∷ [] else r.1 in
      (product all ≡ n * product factors) × AllAbove 1 all
with_rest n factors r big s = elim (Bool-cases (ltb 1 r.0)) [
  | inl e ↦ rw e (
    product-append r.1 (r.0 ∷ []) ∙ (omega (arith, s.whole)),
    AllAbove-append 1 r.0 r.1 (s.above big) (ltb→lt 1 r.0 e),
  )
  | inr e ↦ rw e (only_one r.0 (product r.1) (ground (arith, s.positive)) ∙ s.whole, s.above big)
]

module _ (root : ℕ → ℕ) (below : (n : ℕ) → root n ≤ n) where
  pub factorize_primes-IsFactorisation :
      (n : ℕ) (factors : List ℕ)
      → 0 < n
      → AllAbove 1 factors
      → (fs : List ℕ) × (factorize_primes root n factors ≡ some fs)
        × IsFactorisation (n * product factors) fs
  unfolding factorize_primes
  factorize_primes-IsFactorisation n factors pos big =
      let (r, run, s) =
        prime_loop-Splits root below (suc n) 23 n n factors (omega arith) (omega arith)
          (omega arith) (omega arith) pos in
      let all = if ltb 1 r.0 then r.1 ++ r.0 ∷ [] else r.1 in
      let (whole, above) = with_rest n factors r big s in
      (
        sort_descending all,
        rw run refl,
        record {
          whole = sort_descending-product all ∙ whole;
          above = sort_descending-above 1 all above;
          descending = sort_descending-IsDescending all;
        },
      )

  -- For positive `n`, kernel lengths above one and any root of at most the number, the factors are
  -- found; they multiply back to `n`, are above one, and descend.
  pub factorize_descending-IsFactorisation :
      (k_facts : List ℕ) (n : ℕ)
      → AllAbove 1 k_facts
      → 0 < n
      → (fs : List ℕ) × (factorize_descending root k_facts n ≡ some fs) × IsFactorisation n fs
  unfolding factorize_descending
  factorize_descending-IsFactorisation k_facts n big pos =
      let (r, run, s) = divide_out_all-Splits k_facts n [] big pos in
      let (fs, run', f) = factorize_primes-IsFactorisation r.0 r.1 s.positive (s.above tt) in
      (
        fs,
        rw (run, factorize_descending) run',
        record {
          whole = f.whole ∙ s.whole ∙ (omega arith);
          above = f.above;
          descending = f.descending;
        },
      )
