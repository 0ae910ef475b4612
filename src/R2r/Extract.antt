-- ===== src/R2r/Extract.antt =====
-- `extract_output_from_fft` of src/r2r_buffer_helper.hpp: how the output of a real-to-real transform
-- is read off the result of the Fourier transform. The writes are an explicit sequence of indices and
-- values, which are stored one after the other; index `i` is the element `r2r_res[i * ostride]`.
pub mod Writes
use perf_libs_fft.Base.{
  ℕ, zero, suc, ◌+◌, ◌-◌, ◌*◌, ◌/◌, ◌%◌, Bool, true, false, List, [], ◌∷◌, ◌++◌, ◌==◌, ltb, set,
  if◌then◌else◌,
}
use perf_libs_fft.Api.Types.{
  R2rKind, dct_1, dct_2, dct_3, dct_4, dst_1, dst_2, dst_3, dst_4, dht, r2hc, hc2r, other_kind,
}
use perf_libs_fft.R2r.{fft_output_size, loop}

-- `T` are the real numbers, and `C` the elements of the result; of a real element `re` is its value.
pub record Results (T C : Type 0) : Type 0 where
  pub re : C → T
  pub im : C → T
  pub negative : T → T
  pub times : T → T → T
  pub twice : T → T
  pub one : T
  pub minus_one : T
  pub conjugate : C → C
  pub doubled : C → C
  pub product : C → C → C
  pub quotient : C → C → C

abbrev pub flatten {ℓ} : {A : Type ℓ} → List (List A) → List A
flatten [] = []
flatten (xs ∷ xss) = xs ++ flatten xss

-- The stores, in their order.
pub store_all {ℓ} : {A : Type ℓ} → List (ℕ × A) → List A → List A
store_all [] cells = cells
store_all ((i, value) ∷ writes) cells = store_all writes (set cells i value)

-- `w` are the rotations that are passed, and `rotation n i` is the one that the code computes.
module _ {T C : Type 0} (results : Results T C) (w : ℕ → C) (rotation : ℕ → ℕ → C) where
  abbrev pub extract_real : ℕ → (ℕ → C) → List (ℕ × T)
  extract_real n res = loop n 0 (λ i. (i, results.re (res i)))

  abbrev pub extract_dct_2 : ℕ → (ℕ → C) → List (ℕ × T)
  extract_dct_2 n res =
      (0, results.twice (results.re (res 0)))
      ∷ flatten (
          loop (n / 2) 1 (λ k.
            (k, results.re (results.doubled (results.product (res k) (w k))))
            ∷ (
              n - k,
              results.negative (results.im (results.doubled (results.product (res k) (w k)))),
            )
            ∷ []))

  abbrev pub extract_dct_3 : ℕ → (ℕ → C) → List (ℕ × T)
  extract_dct_3 n res =
      (0, results.re (res 0))
      ∷ (loop ((n + 1) / 2 - 1) 1 (λ i. (i * 2, results.re (res (n - i))))
          ++ loop (n - (n + 1) / 2) ((n + 1) / 2)
              (λ i. (2 * (n - i) - 1, results.re (res (n - i)))))

  abbrev pub extract_dct_4 : ℕ → (ℕ → C) → List (ℕ × T)
  extract_dct_4 n res =
      let tmp = λ (i : ℕ). results.product (res i) (rotation n i) in
      loop ((n + 1) / 2) 0 (λ j. (2 * j, results.re (tmp j)))
      ++ loop (n / 2) 0
          (λ t. (2 * t + 1, results.negative (results.re (tmp (n - (2 * t + 1 + 1) / 2)))))

  abbrev pub extract_dst_1 : ℕ → (ℕ → C) → List (ℕ × T)
  extract_dst_1 n res = loop n 0 (λ i. (i, results.negative (results.im (res (i + 1)))))

  abbrev pub extract_dst_2 : ℕ → (ℕ → C) → List (ℕ × T)
  extract_dst_2 n res =
      loop (n - 1) 1 (λ i. (
        i - 1,
        results.twice (
            results.re (
              results.quotient
                (if ltb i (n / 2 + 1) then res i else results.conjugate (res (n - i)))
                (rotation n i))),
      ))
      ++ (n - 1, results.twice (results.re (res 0))) ∷ []

  abbrev pub extract_dst_3 : ℕ → (ℕ → C) → List (ℕ × T)
  extract_dst_3 n res = loop n 0 (λ i. (
    i,
    (if i % 2 == 1
        then results.times results.minus_one (results.re (res (n - (i + 1) / 2)))
        else results.times results.one (results.re (res (i / 2)))),
  ))

  abbrev pub extract_dst_4 : ℕ → (ℕ → C) → List (ℕ × T)
  extract_dst_4 n res =
      let tmp = λ (i : ℕ). results.product (res i) (rotation n i) in
      loop n 0 (λ i. (i, results.re (tmp (if i % 2 == 1 then n - (i + 1) / 2 else i / 2))))

  abbrev pub extract_r2hc : ℕ → (ℕ → C) → List (ℕ × T)
  extract_r2hc n res =
      loop (n / 2 + 1) 0 (λ i. (i, results.re (res i)))
      ++ loop (n - (n / 2 + 1)) (n / 2 + 1)
          (λ i. (i, results.im (res ((n - 1) / 2 - (i - (n / 2 + 1))))))

  -- The specialisations of `extract_output_from_fft`; DCT-1, DHT and HC2R copy the real parts.
  pub writes_of : R2rKind → ℕ → (ℕ → C) → List (ℕ × T)
  writes_of dct_1 n res = extract_real n res
  writes_of dct_2 n res = extract_dct_2 n res
  writes_of dct_3 n res = extract_dct_3 n res
  writes_of dct_4 n res = extract_dct_4 n res
  writes_of dst_1 n res = extract_dst_1 n res
  writes_of dst_2 n res = extract_dst_2 n res
  writes_of dst_3 n res = extract_dst_3 n res
  writes_of dst_4 n res = extract_dst_4 n res
  writes_of dht n res = extract_real n res
  writes_of r2hc n res = extract_r2hc n res
  writes_of hc2r n res = extract_real n res
  writes_of (other_kind c) n res = []

  pub extract_output_from_fft : R2rKind → ℕ → (ℕ → C) → List T → List T
  unfolding store_all
  extract_output_from_fft kind n res cells = store_all (writes_of kind n res) cells
