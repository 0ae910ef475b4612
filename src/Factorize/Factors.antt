-- ===== src/Factorize/Factors.antt =====
-- `factorize_primes`, `factorize_descending`, `factorize_square`, `factorize` and the tests of
-- src/factorize.hpp. The kernel lengths, `std::sqrt`, `log_base` and the root by `std::pow` are
-- parameters; `none` means that a loop ran out of fuel.
pub mod Product
pub mod Sort
pub mod Descending
pub mod Square
pub mod NextLength
use mathlib.Core.Option
use perf_libs_fft.Base.{
  ℕ, zero, suc, ◌+◌, ◌-◌, ◌/◌, ◌%◌, Bool, true, false, ◌&&◌, ◌||◌, List, [], ◌∷◌, ◌++◌, Option,
  none, some, leb, ltb, ◌==◌, length, if◌then◌else◌,
}

-- `while (n % factor == 0) { n /= factor; factors.push_back(factor); }`
pub divide_out : ℕ → ℕ → ℕ → List ℕ → Option (ℕ × List ℕ)
divide_out zero factor n factors = none
divide_out (suc fuel) factor n factors =
    let next = divide_out fuel factor (n / factor) (factors ++ factor ∷ []) in
    if n % factor == 0 then next else some (n, factors)

-- The loop over the kernel lengths.
pub divide_out_all : List ℕ → ℕ → List ℕ → Option (ℕ × List ℕ)
divide_out_all [] n factors = some (n, factors)
divide_out_all (factor ∷ k_facts) n factors = elim (divide_out (suc n) factor n factors) [
  | none ↦ none
  | some r ↦ divide_out_all k_facts r.0 r.1
]

-- `std::qsort` by the comparison of `factorize_primes`, the greatest first.
pub insert_descending : ℕ → List ℕ → List ℕ
insert_descending a [] = a ∷ []
insert_descending a (b ∷ xs) = if ltb a b then b ∷ insert_descending a xs else a ∷ b ∷ xs

pub sort_descending : List ℕ → List ℕ
unfolding insert_descending
sort_descending [] = []
sort_descending (a ∷ xs) = insert_descending a (sort_descending xs)

-- `is_base_n`, by `std::find`
unfoldable pub is_base_n : ℕ → List ℕ → Bool
is_base_n n [] = false
is_base_n n (k ∷ kernel_factors) = k == n || is_base_n n kernel_factors

-- `root n` is `(int64_t)std::sqrt(n)`.
module _ (root : ℕ → ℕ) where
  -- The loop over the trial factors, two apart; the root is taken of what is left of `n`.
  pub prime_loop : ℕ → ℕ → ℕ → List ℕ → Option (ℕ × List ℕ)
  prime_loop zero factor n factors = none
  prime_loop (suc fuel) factor n factors =
      if ltb factor (root n + 1)
      then elim (divide_out (suc n) factor n factors) [
        | none ↦ none
        | some r ↦ prime_loop fuel (factor + 2) r.0 r.1
      ]
      else some (n, factors)

  pub factorize_primes : ℕ → List ℕ → Option (List ℕ)
  factorize_primes n factors =
      Option.map (λ r. sort_descending (if ltb 1 r.0 then r.1 ++ r.0 ∷ [] else r.1))
        (prime_loop (suc n) 23 n factors)

  pub factorize_descending : List ℕ → ℕ → Option (List ℕ)
  factorize_descending k_facts n = elim (divide_out_all k_facts n []) [
    | none ↦ none
    | some r ↦ factorize_primes r.0 r.1
  ]

-- The kernel lengths that divide `n`, in the order of the list.
pub useful : ℕ → List ℕ → List ℕ
useful n [] = []
useful n (k ∷ k_facts) = if n % k == 0 then k ∷ useful n k_facts else useful n k_facts

-- The length just above the root among the useful ones, or else the last of them.
pub pick_factor : ℕ → ℕ → List ℕ → ℕ
pick_factor top_factor a [] = a
pick_factor top_factor a (b ∷ rest) =
    if leb top_factor a && ltb b top_factor then a else pick_factor top_factor b rest

-- `log_base n b` is the function of that name, and `nth_root n lg` is `floor(pow(n, 1. / lg))`.
module _ (root : ℕ → ℕ) (log_base nth_root : ℕ → ℕ → ℕ) (k_facts : List ℕ) where
  pub square_loop : ℕ → ℕ → List ℕ → Option (ℕ × List ℕ)
  square_loop zero n factors = none
  square_loop (suc fuel) n factors = elim (useful n k_facts) [
    | [] ↦ some (n, factors)
    | base ∷ rest ↦
        let top_factor = pick_factor (nth_root n (log_base n base)) base rest in
        square_loop fuel (n / top_factor) (factors ++ top_factor ∷ [])
  ]

  pub factorize_square : ℕ → Option (List ℕ)
  factorize_square n = elim (square_loop (suc n) n []) [
    | none ↦ none
    | some r ↦ factorize_primes root r.0 r.1
  ]

  -- The shorter of the two factorisations.
  pub factorize : ℕ → Option (List ℕ)
  factorize n = elim (factorize_descending root k_facts n) [
    | none ↦ none
    | some f_dsc ↦
        Option.map (λ f_sq. if ltb (length f_dsc) (length f_sq) then f_dsc else f_sq)
          (factorize_square n)
  ]

  pub is_base_case : ℕ → Option Bool
  is_base_case n = Option.map (λ factors. length factors == 1 && is_base_n n k_facts) (factorize n)
