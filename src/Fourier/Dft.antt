-- ===== src/Fourier/Dft.antt =====
-- The transform of length `n`, with the roots of unity as a parameter, and the identity of Cooley
-- and Tukey on which src/planner/strategies/cooley_tukey.hpp rests.
use Prim.Native.Nat.{◌∣◌}
use native.Mathlib.Nat.{mul_comm}
use mathlib.Core.Path.{ap₂}
use perf_libs_fft.Base.{ℕ, zero, suc, ◌+◌, ◌*◌, ◌<◌, ◌≡◌, sym, ap, subst, ◌∙◌, arith}
use perf_libs_fft.Fourier.Sum.{Numbers, ◌⊗◌, sum, sum_congr, mul-sum, sum_swap, sum-rows}

-- What the code relies on of sines and cosines, for the lengths that divide `whole`: `root n e` is
-- the power `e` of the root of unity of order `n` that the direction chooses.
pub record IsRoots {ℓ} {C : Type ℓ} ⦃numbers : Numbers C⦄ (whole : ℕ) (root : ℕ → ℕ → C)
    : Type ℓ where
  pub root_zero : (n : ℕ) → root n 0 ≡ numbers.one
  pub root_add : (n a b : ℕ) → root n (a + b) ≡ root n a ⊗ root n b
  pub root_turn : (n : ℕ) → n ∣ whole → root n n ≡ numbers.one
  pub root_scale : (d n e : ℕ) → d * n ∣ whole → root (d * n) (d * e) ≡ root n e

module _ {ℓ} {C : Type ℓ} ⦃numbers : Numbers C⦄ (root : ℕ → ℕ → C) where
  -- Element `k` of the transform of `x`.
  unfoldable pub dft : ℕ → (ℕ → C) → ℕ → C
  dft n x k = sum n (λ j. root n (j * k) ⊗ x j)

  -- What a kernel with input twiddles computes: it scales the inputs first.
  unfoldable pub twiddled_dft : ℕ → (ℕ → C) → (ℕ → C) → ℕ → C
  unfolding dft
  twiddled_dft n twiddle x k = dft n (λ j. twiddle j ⊗ x j) k

  pub dft_congr :
      (n : ℕ) (x y : ℕ → C) (k : ℕ) → ((j : ℕ) → j < n → x j ≡ y j) → dft n x k ≡ dft n y k
  unfolding dft
  dft_congr n x y k same = sum_congr n _ _ (λ j h. ap (λ t. root n (j * k) ⊗ t) (same j h))

  module _ {whole : ℕ} (roots : IsRoots whole root) where
    root_turns : (n t : ℕ) → n ∣ whole → root n (n * t) ≡ numbers.one
    root_turns n zero d =
        let none_left : n * 0 ≡ 0 = omega arith in ap (root n) none_left ∙ roots.root_zero n
    root_turns n (suc t) d =
        let one_more : n * suc t ≡ n + n * t = omega arith in
        ap (root n) one_more
        ∙ roots.root_add n n (n * t)
        ∙ ap (λ a. a ⊗ root n (n * t)) (roots.root_turn n d)
        ∙ numbers.one-mul _
        ∙ root_turns n t d

    -- The four products of an input index and an output index, each a power of its own root.
    root-split :
        (m r j1 j2 k1 k2 : ℕ)
        → m * r ∣ whole
        → root (m * r) ((j1 * r + j2) * (k1 + m * k2))
          ≡ root r (j2 * k2) ⊗ (root (m * r) (j2 * k1) ⊗ root m (j1 * k1))
    root-split m r j1 j2 k1 k2 d =
        let n = m * r in
        let swapped : m * r ≡ r * m = mul_comm m r in
        let exponent : (j1 * r + j2) * (k1 + m * k2)
            ≡ m * (j2 * k2) + (j2 * k1 + (r * (j1 * k1) + n * (j1 * k2))) =
          omega arith in
        let last : root n (r * (j1 * k1) + n * (j1 * k2)) ≡ root m (j1 * k1) =
          roots.root_add n (r * (j1 * k1)) (n * (j1 * k2))
          ∙ ap (λ t. root n (r * (j1 * k1)) ⊗ t) (root_turns n (j1 * k2) d)
          ∙ numbers.mul_comm _ _
          ∙ numbers.one-mul _
          ∙ ap (λ (l : ℕ). root l (r * (j1 * k1))) swapped
          ∙ roots.root_scale r m (j1 * k1) (subst (λ (l : ℕ). l ∣ whole) swapped d) in
        ap (root n) exponent
        ∙ roots.root_add n (m * (j2 * k2)) (j2 * k1 + (r * (j1 * k1) + n * (j1 * k2)))
        ∙ ap₂ ◌⊗◌ (roots.root_scale m r (j2 * k2) d) (
            roots.root_add n (j2 * k1) (r * (j1 * k1) + n * (j1 * k2))
            ∙ ap (λ t. root n (j2 * k1) ⊗ t) last)

    -- The inner sum of the product of lengths, for one input `j2` of the outer transform.
    inner_sum :
        (m r : ℕ) (x : ℕ → C) (k1 k2 j2 : ℕ)
        → m * r ∣ whole
        → sum m (λ j1. root (m * r) ((j1 * r + j2) * (k1 + m * k2)) ⊗ x (j1 * r + j2))
          ≡ root r (j2 * k2) ⊗ (root (m * r) (j2 * k1) ⊗ dft m (λ j1. x (j1 * r + j2)) k1)
    unfolding dft
    inner_sum m r x k1 k2 j2 d =
        let twiddle = root (m * r) (j2 * k1) in
        let outer = root r (j2 * k2) in
        let term = λ (j1 : ℕ). root m (j1 * k1) ⊗ x (j1 * r + j2) in
        sum_congr m _ _ (λ j1 _.
          ap (λ t. t ⊗ x (j1 * r + j2)) (root-split m r j1 j2 k1 k2 d)
          ∙ numbers.mul_assoc _ _ _
          ∙ ap (λ t. outer ⊗ t) (numbers.mul_assoc _ _ _))
        ∙ sym (mul-sum m outer (λ j1. twiddle ⊗ term j1))
        ∙ ap (λ t. outer ⊗ t) (sym (mul-sum m twiddle term))

    -- The output `k1 + m * k2` of a transform of length `m * r`: transforms of length `m` over
    -- every `r`th input, scaled by twiddles, and then one of length `r`.
    pub dft_product :
        (m r : ℕ) (x : ℕ → C) (k1 k2 : ℕ)
        → m * r ∣ whole
        → dft (m * r) x (k1 + m * k2)
          ≡ twiddled_dft r
              (λ j2. root (m * r) (j2 * k1))
              (λ j2. dft m (λ j1. x (j1 * r + j2)) k1)
              k2
    unfolding dft twiddled_dft
    dft_product m r x k1 k2 d =
        let term = λ (i : ℕ). root (m * r) (i * (k1 + m * k2)) ⊗ x i in
        sum-rows m r term
        ∙ sym (sum_swap m r (λ j1 j2. term (j1 * r + j2)))
        ∙ sum_congr r _ _ (λ j2 _. inner_sum m r x k1 k2 j2 d)
