-- ===== src/Parallel/Split.antt =====
-- The chunks that `work_distribution` gives follow on one another: src/plfft_parallel.hpp.
use native.Mathlib.Nat.{div-add-mod', mod-lt, le-div_iff_mul-le, mul-div_cancel}
use perf_libs_fft.Base.{
  ℕ, zero, suc, ◌+◌, ◌-◌, ◌*◌, ◌/◌, ◌%◌, ◌≤◌, ◌<◌, ◌≡◌, refl, subst, ap, ◌∙◌, inl, inr, false, ◌||◌,
  ltb, ◌==◌, Bool-cases, if◌then◌else◌, arith,
}
use perf_libs_fft.Parallel.{ParallelSplit, iround, iround_div, make_parallel_split}

up : (d m r n : ℕ) → d * r + m ≡ n → n - m + r ≡ suc d * r
up d m r n e = omega (arith, e)

iround-multiple : (n r : ℕ) → 0 < r → (q : ℕ) × (iround n r ≡ q * r) × (n ≤ q * r) × (q * r < n + r)
unfolding iround
iround-multiple n r pos = elim (Bool-cases (n % r == 0)) [
  | inl e ↦ (
    n / r,
    rw e (grind (arith, div-add-mod' n r)),
    grind (arith, div-add-mod' n r),
    grind (arith, div-add-mod' n r),
  )
  | inr e ↦
      let rest = mod-lt n pos in
      let whole = div-add-mod' n r in
      (
        suc (n / r),
        rw e (up (n / r) (n % r) r n whole),
        omega (arith, rest, whole),
        grind (arith, rest, whole),
      )
]

-- `iround` gives the least multiple of a positive `r` that is not below `n`, and `iround_div` the
-- number of times that `r` goes into it.
pub iround-least :
    (n r : ℕ) → 0 < r → (iround n r ≡ iround_div n r * r) × (n ≤ iround n r) × (iround n r < n + r)
unfolding iround_div
iround-least n r pos =
    let (q, e, low, high) = iround-multiple n r pos in
    let quotient : iround n r / r ≡ q = ap (λ (t : ℕ). t / r) e ∙ mul-div_cancel q pos in
    (rw quotient e, rw e low, rw e high)

-- What the general case of `make_parallel_split` gives.
pub record IsEven (dimension : ℕ) (split : ParallelSplit) : Type 0 where
  pub some_work : 0 < split.work_per_thread
  pub modifier : split.modifier ≡ 1
  pub fewer : split.modified_threads < split.threads
  pub rows : 0 < split.interleaved_rows
  pub total : split.total_actual_work ≡ dimension
  pub covered :
      dimension
      ≤ (split.work_per_thread * split.threads + split.modified_threads) * split.interleaved_rows
  pub tight :
      (split.work_per_thread * split.threads + split.modified_threads) * split.interleaved_rows
      < dimension + split.interleaved_rows

remainder : (q d w : ℕ) → w * d + q % d ≡ q → q - d * w ≡ q % d
remainder q d w e = omega (arith, e)

refill : (q d w : ℕ) → w * d + q % d ≡ q → w * d + (q - d * w) ≡ q
refill q d w e = omega (arith, e)

factor_positive : (q r n : ℕ) → 0 < n → n ≤ q * r → 0 < q
factor_positive zero r n pos le = absurd (omega (arith, pos, le))
factor_positive (suc q) r n pos le = omega arith

several_threads :
    (dimension max_threads : ℕ)
    → 0 < dimension
    → 1 < max_threads
    → (max_threads == 1 || dimension == 0) ≡ false
several_threads dimension max_threads work several = ground arith

-- With several threads, and rows to share, the rows in whole are those of `work_per_thread` for
-- each thread and one more for each of the `modified_threads`, which are fewer than the threads.
pub make_parallel_split-IsEven :
    (dimension interleave max_threads : ℕ)
    → 0 < dimension
    → 0 < interleave
    → 1 < max_threads
    → IsEven dimension (make_parallel_split dimension interleave max_threads)
unfolding make_parallel_split
make_parallel_split-IsEven dimension interleave max_threads work pos several =
    let (e, low, high) = iround-least dimension interleave pos in
    let q = iround_div dimension interleave in
    let d = if ltb max_threads q then max_threads else q in
    let some_rows : 0 < q =
      factor_positive q interleave dimension work (subst (λ t. dimension ≤ t) e low) in
    let some_threads : 0 < d = ground arith in
    let at_most : d ≤ q = ground arith in
    let whole = div-add-mod' q d in
    let rest = mod-lt q some_threads in
    let full = refill q d (q / d) whole in
    rw (several_threads dimension max_threads work several) (record {
      some_work = (le-div_iff_mul-le some_threads).1 (omega (arith, at_most));
      modifier = refl;
      fewer = rw (remainder q d (q / d) whole) rest;
      rows = pos;
      total = refl;
      covered = rw full (subst (λ t. dimension ≤ t) e low);
      tight = rw full (subst (λ t. t < dimension + interleave) e high);
    })
