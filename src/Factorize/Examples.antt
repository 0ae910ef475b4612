-- ===== src/Factorize/Examples.antt =====
-- Factorisation of concrete lengths, with the kernel lengths 2, 3, 4 and 5.
use perf_libs_fft.Base.{ℕ, ◌/◌, ◌^◌, ◌≤◌, ◌≡◌, List, [], ◌∷◌, some, length, min, arith}
use perf_libs_fft.Base.Divides.{Prime}
use perf_libs_fft.Factorize.SmallestPrime.{
  smallest_prime_factor, IsLeast, smallest_prime_factor-IsLeast,
}
use perf_libs_fft.Factorize.Factors.{factorize_descending, factorize_square, factorize}
use perf_libs_fft.Factorize.Factors.NextLength.{
  next_length_factorable_by, IsNext, next_length_factorable_by-IsNext,
}
use perf_libs_fft.Factorize.Factors.Product.{AllAbove}
use perf_libs_fft.Factorize.Factors.Descending.{
  IsFactorisation, factorize_descending-IsFactorisation,
}
use perf_libs_fft.Factorize.Factors.Square.{
  factorize_square-IsFactorisation, factorize-IsFactorisation,
}

abbrev kernels : List ℕ
kernels = 5 ∷ 4 ∷ 3 ∷ 2 ∷ []

kernels_above : AllAbove 1 kernels
kernels_above = (omega arith, (omega arith, (omega arith, (omega arith, tt))))

-- A root that is too large is still a root to the loops.
abbrev root : ℕ → ℕ
root n = n

root_below : (n : ℕ) → root n ≤ n
root_below n = omega arith

abbrev log_base : ℕ → ℕ → ℕ
log_base n b = 2

abbrev nth_root : ℕ → ℕ → ℕ
nth_root n lg = n / lg

smallest_prime_factor-IsLeast_example :
    (r : ℕ) × (smallest_prime_factor 77 ≡ some r) × IsLeast 77 r × Prime r
smallest_prime_factor-IsLeast_example = smallest_prime_factor-IsLeast 77 (omega arith)

factorize_descending-IsFactorisation_example :
    (fs : List ℕ) × (factorize_descending root kernels 60 ≡ some fs) × IsFactorisation 60 fs
factorize_descending-IsFactorisation_example =
    factorize_descending-IsFactorisation root root_below kernels 60 kernels_above (omega arith)

factorize_square-IsFactorisation_example :
    (fs : List ℕ) × (factorize_square root log_base nth_root kernels 60 ≡ some fs)
    × IsFactorisation 60 fs
factorize_square-IsFactorisation_example =
    factorize_square-IsFactorisation root root_below log_base nth_root kernels kernels_above 60
      (omega arith)

factorize-IsFactorisation_example :
    (dsc : List ℕ) × (sq : List ℕ) × (fs : List ℕ) × (factorize_descending root kernels 60
      ≡ some dsc)
    × (factorize_square root log_base nth_root kernels 60 ≡ some sq)
    × (factorize root log_base nth_root kernels 60 ≡ some fs)
    × (length fs ≡ min (length dsc) (length sq))
    × IsFactorisation 60 fs
factorize-IsFactorisation_example =
    factorize-IsFactorisation root root_below log_base nth_root kernels kernels_above 60
      (omega arith)

next_length_factorable_by-IsNext_example :
    (length : ℕ) × (next_length_factorable_by 7 kernels ≡ some length)
    × (length ≤ 5 ^ 7)
    × IsNext 7 kernels length
next_length_factorable_by-IsNext_example =
    next_length_factorable_by-IsNext 7 5 (4 ∷ 3 ∷ 2 ∷ []) (omega arith) (omega arith)
      (omega arith, (omega arith, (omega arith, tt)))
