-- ===== src/Fourier/Sum.antt =====
-- Exact coefficients, which stand for the complex numbers, and finite sums of them.
use native.Mathlib.Nat.{zero-mul}
use perf_libs_fft.Base.{ℕ, zero, suc, ◌+◌, ◌*◌, ◌<◌, ◌≡◌, refl, sym, ap, ◌∙◌, arith}

pub record Numbers {ℓ} (C : Type ℓ) : Type ℓ where
  pub zero : C
  pub one : C
  pub add : C → C → C
  pub mul : C → C → C
  pub add_assoc : (a b c : C) → add (add a b) c ≡ add a (add b c)
  pub add_comm : (a b : C) → add a b ≡ add b a
  pub zero-add : (a : C) → add zero a ≡ a
  pub mul_assoc : (a b c : C) → mul (mul a b) c ≡ mul a (mul b c)
  pub mul_comm : (a b : C) → mul a b ≡ mul b a
  pub one-mul : (a : C) → mul one a ≡ a
  pub mul-zero : (a : C) → mul a zero ≡ zero
  pub mul-add : (a b c : C) → mul a (add b c) ≡ add (mul a b) (mul a c)

module _ {ℓ} {C : Type ℓ} ⦃numbers : Numbers C⦄ where
  infixl 65 ◌⊕◌
  infixl 70 ◌⊗◌
  abbrev pub ◌⊕◌ : C → C → C
  a ⊕ b = numbers.add a b

  abbrev pub ◌⊗◌ : C → C → C
  a ⊗ b = numbers.mul a b

  add-zero : (a : C) → a ⊕ numbers.zero ≡ a
  add-zero a = numbers.add_comm a numbers.zero ∙ numbers.zero-add a

  swap_inner : (a b c d : C) → (a ⊕ b) ⊕ (c ⊕ d) ≡ (a ⊕ c) ⊕ (b ⊕ d)
  swap_inner a b c d =
      numbers.add_assoc a b (c ⊕ d)
      ∙ ap (λ t. a ⊕ t)
          (sym (numbers.add_assoc b c d)
            ∙ ap (λ t. t ⊕ d) (numbers.add_comm b c)
            ∙ numbers.add_assoc c b d)
      ∙ sym (numbers.add_assoc a c (b ⊕ d))

  -- The sum of the first `n` values.
  unfoldable pub sum : ℕ → (ℕ → C) → C
  sum zero f = numbers.zero
  sum (suc n) f = sum n f ⊕ f n

  pub sum_congr : (n : ℕ) (f g : ℕ → C) → ((i : ℕ) → i < n → f i ≡ g i) → sum n f ≡ sum n g
  unfolding sum
  sum_congr zero f g same = refl
  sum_congr (suc n) f g same =
      ap (λ t. t ⊕ f n) (sum_congr n f g (λ i h. same i (omega arith)))
      ∙ ap (λ t. sum n g ⊕ t) (same n (omega arith))

  -- A constant factor goes into every term.
  pub mul-sum : (n : ℕ) (a : C) (f : ℕ → C) → a ⊗ sum n f ≡ sum n (λ i. a ⊗ f i)
  unfolding sum
  mul-sum zero a f = numbers.mul-zero a
  mul-sum (suc n) a f = numbers.mul-add a (sum n f) (f n) ∙ ap (λ t. t ⊕ (a ⊗ f n)) (mul-sum n a f)

  merged : (count : ℕ) (x y : ℕ → C) → sum count x ⊕ sum count y ≡ sum count (λ i. x i ⊕ y i)
  unfolding sum
  merged zero x y = numbers.zero-add _
  merged (suc last) x y =
      swap_inner (sum last x) (x last) (sum last y) (y last)
      ∙ ap (λ t. t ⊕ (x last ⊕ y last)) (merged last x y)

  no_terms : (count : ℕ) → numbers.zero ≡ sum count (λ _. numbers.zero)
  unfolding sum
  no_terms zero = refl
  no_terms (suc last) = no_terms last ∙ sym (add-zero _)

  -- Row by row or column by column.
  pub sum_swap :
      (rows columns : ℕ) (cell : ℕ → ℕ → C)
      → sum columns (λ c. sum rows (λ r. cell r c)) ≡ sum rows (λ r. sum columns (cell r))
  unfolding sum
  sum_swap zero columns cell = sym (no_terms columns)
  sum_swap (suc last) columns cell =
      sym (merged columns (λ c. sum last (λ r. cell r c)) (cell last))
      ∙ ap (λ t. t ⊕ sum columns (cell last)) (sum_swap last columns cell)

  sum-range : (a b : ℕ) (f : ℕ → C) → sum (a + b) f ≡ sum a f ⊕ sum b (λ i. f (a + i))
  unfolding sum
  sum-range a zero f =
      let none_more : a + 0 ≡ a = omega arith in
      ap (λ (n : ℕ). sum n f) none_more ∙ sym (add-zero (sum a f))
  sum-range a (suc b) f =
      let one_more : a + suc b ≡ suc (a + b) = omega arith in
      ap (λ (n : ℕ). sum n f) one_more
      ∙ ap (λ t. t ⊕ f (a + b)) (sum-range a b f)
      ∙ numbers.add_assoc (sum a f) (sum b (λ i. f (a + i))) (f (a + b))

  -- A sum over `m * r` values, `r` at a time.
  pub sum-rows : (m r : ℕ) (f : ℕ → C) → sum (m * r) f ≡ sum m (λ j. sum r (λ k. f (j * r + k)))
  unfolding sum
  sum-rows zero r f = ap (λ (n : ℕ). sum n f) (zero-mul r)
  sum-rows (suc m) r f =
      let one_more : suc m * r ≡ m * r + r = omega arith in
      ap (λ (n : ℕ). sum n f) one_more
      ∙ sum-range (m * r) r f
      ∙ ap (λ t. t ⊕ sum r (λ k. f (m * r + k))) (sum-rows m r f)
