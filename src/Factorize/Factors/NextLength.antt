-- ===== src/Factorize/Factors/NextLength.antt =====
-- `next_length_factorable_by` of src/factorize.hpp: the lengths that Bluestein's algorithm pads to.
use native.Mathlib.Nat.{pow-zero, pow-suc, mod-eq_of_lt, mul-div_cancel, mul-mod_left}
use mathlib.Core.Option
use mathlib.Core.Option.{some-injective}
use perf_libs_fft.Base.{
  ℕ, zero, suc, ◌+◌, ◌*◌, ◌/◌, ◌%◌, ◌^◌, ◌≤◌, ◌<◌, ◌≡◌, ◌≢◌, refl, sym, ap, ◌∙◌, inl, inr, true,
  false, List, [], ◌∷◌, ◌++◌, Option, none, some, ◌==◌, ==_iff, Bool-cases, if◌then◌else◌, arith,
}
use perf_libs_fft.Factorize.Factors.{divide_out, divide_out_all}
use perf_libs_fft.Factorize.Factors.Product.{product, AllAbove, divide_out_all-Splits}

-- What the two inner loops leave of a candidate. They are those of `divide_out_all`, which also
-- writes the factors down.
pub left_over : List ℕ → ℕ → Option ℕ
left_over kernel_factors candidate =
    Option.map (λ r. r.0) (divide_out_all kernel_factors candidate [])

-- The outer loop, on fuel.
pub search_length : ℕ → ℕ → List ℕ → Option ℕ
search_length zero length kernel_factors = none
search_length (suc fuel) length kernel_factors =
    let longer = search_length fuel (suc length) kernel_factors in
    elim (left_over kernel_factors length) [
      | none ↦ none
      | some candidate ↦ if candidate == 1 then some length else longer
    ]

-- A power of the first factor is reached.
pub next_length_factorable_by : ℕ → List ℕ → Option ℕ
next_length_factorable_by n kernel_factors = search_length (rounds kernel_factors) n kernel_factors
  where
    rounds : List ℕ → ℕ
    rounds [] = 0
    rounds (factor ∷ rest) = suc (factor ^ n)

power : (factor k : ℕ) → factor ^ suc k ≡ factor ^ k * factor
power factor k = pow-suc factor k

exceeds : (factor n : ℕ) → 1 < factor → n < factor ^ n
exceeds factor zero big = let one : factor ^ 0 ≡ 1 = pow-zero factor in omega (arith, one)
exceeds factor (suc n) big =
    let step = power factor n in
    let below = exceeds factor n big in rw step (grind (arith, below, big))

-- A power is divided until one is left.
divide_out-power :
    (fuel factor k : ℕ) (factors : List ℕ)
    → 1 < factor
    → k < fuel
    → (taken : List ℕ) × (divide_out fuel factor (factor ^ k) factors ≡ some (1, taken))
unfolding divide_out
divide_out-power zero factor k factors big enough = absurd (omega (arith, enough))
divide_out-power (suc fuel) factor zero factors big enough =
    let one_left : factor ^ 0 ≡ 1 = pow-zero factor in
    let more : (factor ^ 0 % factor == 0) ≡ false = rw (one_left, mod-eq_of_lt big) refl in
    (factors, rw (more, one_left) refl)
divide_out-power (suc fuel) factor (suc k) factors big enough =
    let step = power factor k in
    let whole : (factor ^ suc k % factor == 0) ≡ true =
      (==_iff _ _).1 (ap (λ (n : ℕ). n % factor) step ∙ mul-mod_left (factor ^ k) factor) in
    let less : factor ^ suc k / factor ≡ factor ^ k =
      ap (λ (n : ℕ). n / factor) step ∙ mul-div_cancel (factor ^ k) (omega (arith, big)) in
    let (taken, run) =
      divide_out-power fuel factor k (factors ++ factor ∷ []) big (omega (arith, enough)) in
    (taken, rw (whole, less) run)

divide_out_all-one :
    (kernel_factors factors : List ℕ)
    → AllAbove 1 kernel_factors
    → divide_out_all kernel_factors 1 factors ≡ some (1, factors)
unfolding divide_out_all divide_out
divide_out_all-one [] factors big = refl
divide_out_all-one (factor ∷ rest) factors big =
    let more : (1 % factor == 0) ≡ false = rw (mod-eq_of_lt big.0) refl in
    rw (more, divide_out_all, divide_out) (divide_out_all-one rest factors big.1)

left_over-run :
    (kernel_factors : List ℕ) (n : ℕ) (r : ℕ × List ℕ)
    → divide_out_all kernel_factors n [] ≡ some r
    → left_over kernel_factors n ≡ some r.0
unfolding left_over
left_over-run kernel_factors n r run = ap (Option.map (λ t. t.0)) run

left_over-power :
    (factor : ℕ) (rest : List ℕ) (k : ℕ)
    → 1 < factor
    → AllAbove 1 rest
    → left_over (factor ∷ rest) (factor ^ k) ≡ some 1
unfolding divide_out_all
left_over-power factor rest k big above =
    let (taken, run) =
      divide_out-power (suc (factor ^ k)) factor k [] big (omega (arith, exceeds factor k big)) in
    left_over-run (factor ∷ rest) (factor ^ k) (1, taken)
      (rw (run, divide_out_all) (divide_out_all-one rest taken above))

-- The least length from `n` on of which nothing is left.
pub record IsNext (n : ℕ) (kernel_factors : List ℕ) (length : ℕ) : Type 0 where
  pub from : n ≤ length
  pub nothing_left : left_over kernel_factors length ≡ some 1
  pub least : (m : ℕ) → n ≤ m → m < length → left_over kernel_factors m ≢ some 1
  pub factors : (fs : List ℕ) × (product fs ≡ length) × AllAbove 1 fs

search_length-IsNext :
    (fuel n target : ℕ) (kernel_factors : List ℕ)
    → AllAbove 1 kernel_factors
    → 0 < n
    → n ≤ target
    → target < n + fuel
    → left_over kernel_factors target ≡ some 1
    → (length : ℕ) × (search_length fuel n kernel_factors ≡ some length)
      × (length ≤ target)
      × IsNext n kernel_factors length
unfolding search_length
search_length-IsNext zero n target kernel_factors above pos low high reached =
    absurd (omega (arith, low, high))
search_length-IsNext (suc fuel) n target kernel_factors above pos low high reached =
    let (r, run, split) = divide_out_all-Splits kernel_factors n [] above pos in
    let left = left_over-run kernel_factors n r run in
    elim (Bool-cases (r.0 == 1)) [
      | inl done ↦
          let one : r.0 ≡ 1 = (==_iff r.0 1).0 done in
          let whole : product r.1 ≡ n = grind (arith, one, split.whole) in
          (
            n,
            rw (left, done, search_length) refl,
            low,
            record {
              from = omega arith;
              nothing_left = left ∙ ap some one;
              least = λ m h l. absurd (omega (arith, h, l));
              factors = (r.1, whole, split.above tt);
            },
          )
      | inr more ↦
          let (length, found, within, next) =
            search_length-IsNext fuel (suc n) target kernel_factors above (omega arith)
              (omega (arith, low, not_here r.0 left more target reached)) (omega (arith, high))
              reached in
          (
            length,
            rw (left, more, search_length) found,
            within,
            record {
              from = omega (arith, next.from);
              nothing_left = next.nothing_left;
              least = λ m h l e. next.least m (omega (arith, h, not_here r.0 left more m e)) l e;
              factors = next.factors;
            },
          )
    ]
  where
    not_here :
        (rest : ℕ)
        → left_over kernel_factors n ≡ some rest
        → (rest == 1) ≡ false
        → (m : ℕ) → left_over kernel_factors m ≡ some 1
        → n ≢ m
    not_here rest left more m e same =
        let one : rest ≡ 1 =
          some-injective rest 1 (sym left ∙ ap (left_over kernel_factors) same ∙ e) in
        let is_one = (==_iff rest 1).1 one in cc

-- For kernel factors above one, of which there is one at least, and a positive `n`, the loops end,
-- and return the least length from `n` on of which the divisions leave one; it is a product of
-- factors above one, and at most the power `n` of the first kernel factor.
pub next_length_factorable_by-IsNext :
    (n factor : ℕ) (rest : List ℕ)
    → 0 < n
    → 1 < factor
    → AllAbove 1 rest
    → (length : ℕ) × (next_length_factorable_by n (factor ∷ rest) ≡ some length)
      × (length ≤ factor ^ n)
      × IsNext n (factor ∷ rest) length
unfolding next_length_factorable_by
next_length_factorable_by-IsNext n factor rest pos big above =
    search_length-IsNext (suc (factor ^ n)) n (factor ^ n) (factor ∷ rest) (big, above) pos
      (omega (arith, exceeds factor n big)) (omega arith) (left_over-power factor rest n big above)
