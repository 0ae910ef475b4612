-- ===== src/Execution/Reference.antt =====
-- Kernels that keep the contract of Execution/Contract: they write the transforms cell by cell. They
-- stand for the generated kernels where an execution is run.
use native.Mathlib.Nat.{
  mod-lt, div-add-mod', div-lt_iff_lt-mul, mul-add-div_right, mul-add-mod_self_right, div-eq_of_lt,
  mod-eq_of_lt,
}
use mathlib.Core.Path.{ap₂}
use perf_libs_fft.Base.{
  ℕ, zero, suc, ◌+◌, ◌*◌, ◌/◌, ◌%◌, ◌<◌, ◌≡◌, ◌≢◌, refl, subst₂, sym, ap, ◌∙◌, inl, inr, ◌⊎◌, Bool,
  true, false, if◌then◌else◌, Bool-cases, arith,
}
use perf_libs_fft.Base.Int.{ℤ, pos, ◌+ℤ◌, ◌*ℤ◌, pos_part, int_eq, int_eq_iff}
use perf_libs_fft.Base.Int.Ring.{+ℤ_injective, zero-*ℤ}
use perf_libs_fft.Execution.{Memory, NKernel, TKernel, OrderKind, KernelData}
use perf_libs_fft.Execution.Contract.{
  cell_at, Cells, Apart, Calls, RequestedFor, stored_twiddle, ab_place, IsTKernel, IsKernelData,
}
use perf_libs_fft.Execution.Fills.{Results}
use perf_libs_fft.Fourier.Sum.{Numbers}
use perf_libs_fft.Fourier.Dft.{dft, twiddled_dft, dft_congr}
use perf_libs_fft.Execution.Twiddled.{twiddled_dft_congr}
use perf_libs_fft.Twiddles.{TwiddleLayout, ofs_mul}

digits : (n b k : ℕ) → k < n → ((b * n + k) / n ≡ b) × ((b * n + k) % n ≡ k)
digits n b k h = (
  mul-add-div_right {m = n} (omega (arith, h)) b k
      ∙ ap (λ (q : ℕ). b + q) (div-eq_of_lt h)
      ∙ omega arith,
  mul-add-mod_self_right b n k ∙ mod-eq_of_lt h,
)

module _ {C : Type 0} where
  -- The memory after the first `n` values are written at their addresses.
  unfoldable pub paint : ℕ → (ℕ → ℤ) → (ℕ → C) → Memory C → Memory C
  paint zero at value m a = m a
  paint (suc n) at value m a = if int_eq a (at n) then value n else paint n at value m a

  paint-value :
      (n : ℕ) (at : ℕ → ℤ) (value : ℕ → C) (m : Memory C) (i : ℕ)
      → ((i j : ℕ) → i < n → j < n → at i ≡ at j → i ≡ j)
      → i < n
      → paint n at value m (at i) ≡ value i
  unfolding paint
  paint-value zero at value m i apart h = absurd (omega (arith, h))
  paint-value (suc n) at value m i apart h = elim (Bool-cases (int_eq (at i) (at n))) [
    | inl same ↦
        rw (same) (ap value (sym (apart i n h (omega arith) ((int_eq_iff (at i) (at n)).0 same))))
    | inr other ↦ rw (other) (
        paint-value n at value m i (λ a b ha hb. apart a b (omega (arith, ha)) (omega (arith, hb)))
          (below (λ e. not_last other (ap at e))))
  ]
    where
      not_last : int_eq (at i) (at n) ≡ false → at i ≢ at n
      not_last other e = let same = (int_eq_iff (at i) (at n)).1 e in cc

      below : (i ≢ n) → i < n
      below d = omega (arith, h, d)

  paint-rest :
      (n : ℕ) (at : ℕ → ℤ) (value : ℕ → C) (m : Memory C) (a : ℤ)
      → ((i : ℕ) → i < n → a ≢ at i)
      → paint n at value m a ≡ m a
  unfolding paint
  paint-rest zero at value m a none = refl
  paint-rest (suc n) at value m a none = elim (Bool-cases (int_eq a (at n))) [
    | inl same ↦ absurd (none n (omega arith) ((int_eq_iff a (at n)).0 same))
    | inr other ↦ rw (other) (paint-rest n at value m a (λ i h. none i (omega (arith, h))))
  ]

  -- A batch of transforms of length `n`, one cell after the other.
  abbrev pub paint_batch : ℕ → ℤ → ℤ → ℤ → ℕ → (ℕ × ℕ → C) → Memory C → Memory C
  paint_batch n y dist stride howmany value m =
      paint (howmany * n) (λ i. cell_at y dist stride (i / n) (i % n)) (λ i. value (i / n, i % n)) m

  pub paint_batch-Results :
      (n : ℕ) (y dist stride : ℤ) (howmany : ℕ) (value : ℕ × ℕ → C) (m : Memory C)
      → 0 < n
      → Apart howmany n dist stride
      → Results m
          (paint_batch n y dist stride howmany value m)
          (Cells howmany n)
          (λ c. cell_at y dist stride c.0 c.1)
          value
  paint_batch-Results n y dist stride howmany value m some apart = record {
    values = λ c h.
        (let (b, k) = digits n c.0 c.1 h.1 in
          subst₂
            (λ (b k : ℕ).
              paint_batch n y dist stride howmany value m (cell_at y dist stride b k)
              ≡ value (b, k))
            b k (paint-value (howmany * n) _ _ m (c.0 * n + c.1) apart_cells (within c.0 c.1 h)));
    rest = λ a none. paint-rest (howmany * n) _ _ m a (λ i h. none (i / n, i % n) (cell i h));
  }
    where
      within : (b k : ℕ) → Cells howmany n (b, k) → b * n + k < howmany * n
      within b k h = grind (arith, h.0, h.1)

      cell : (i : ℕ) → i < howmany * n → Cells howmany n (i / n, i % n)
      cell i h = ((div-lt_iff_lt-mul some).1 h, mod-lt i some)

      apart_cells :
          (i j : ℕ)
          → i < howmany * n
          → j < howmany * n
          → cell_at y dist stride (i / n) (i % n) ≡ cell_at y dist stride (j / n) (j % n)
          → i ≡ j
      apart_cells i j hi hj same =
          let (b, k) =
            apart (i / n) (i % n) (j / n) (j % n) (cell i hi) (cell j hj)
              (+ℤ_injective y _ _ same) in
          sym (div-add-mod' i n) ∙ ap₂ (λ (q r : ℕ). q * n + r) b k ∙ div-add-mod' j n

-- The distance does not matter in the first row.
row_free : (o d d' t : ℤ) (b k : ℕ) → b ≡ 0 → cell_at o d t b k ≡ cell_at o d' t b k
row_free o d d' t b k first =
    ap (λ (m : ℕ). cell_at o d t m k) first
    ∙ ap (λ z. o +ℤ (z +ℤ pos k *ℤ t)) (zero-*ℤ d ∙ sym (zero-*ℤ d'))
    ∙ sym (ap (λ (m : ℕ). cell_at o d' t m k) first)

-- Kernels for a request: they use its strides and distances, whatever they are called with, and one
-- that was requested for one transform computes one.
module _ {C : Type 0} ⦃numbers : Numbers C⦄ (root : ℕ → ℕ → C) (n : ℕ)
    (howmany istride ostride idist odist : ℤ) where
  abbrev rows : ℤ → ℕ
  rows count = if int_eq howmany (pos 1) then 1 else pos_part count

  abbrev reference_n : NKernel C
  reference_n mx x my y istride' ostride' howmany' idist' odist' =
      paint_batch n y odist ostride (rows howmany')
        (λ c. dft root n (λ j. mx (cell_at x idist istride c.0 j)) c.1) my

  abbrev reference_t : (ℕ → ℕ → ℕ) → TKernel C
  reference_t place mx x my y istride' ostride' w howmany' idist' odist' =
      paint_batch n y odist ostride (rows howmany')
        (λ c.
          twiddled_dft root n (stored_twiddle w (place c.0))
            (λ j. mx (cell_at x idist istride c.0 j)) c.1)
        my

  abbrev pub reference_data : KernelData C
  reference_data =
      let layout : TwiddleLayout = record {
        want_premul = false;
        interleave_factor = 1;
        include_unity_row = false;
      } in
      record {
        ab_n = reference_n;
        ab_t_dit = reference_t (λ b i. ab_place layout n b i);
        ac_t_dit = reference_t (λ b i. i * ofs_mul layout);
        twid_layout = layout;
      }

  abbrev Served : Calls
  Served = RequestedFor howmany istride ostride idist odist

  -- A batch that is written for the request is the batch that was called for.
  module _ (y : ℤ) (my : Memory C) (value : ℤ → ℤ → ℕ × ℕ → C)
      (first_row : (d d' t : ℤ) (c : ℕ × ℕ) → c.0 ≡ 0 → value d t c ≡ value d' t c)
      (some : 0 < n) where
    one-Results :
        (odist' idist' : ℤ)
        → Apart 1 n odist' ostride
        → Results my
            (paint_batch n y odist ostride 1 (value idist istride) my)
            (Cells 1 n)
            (λ c. cell_at y odist' ostride c.0 c.1)
            (value idist' istride)
    one-Results odist' idist' apart =
        let painted =
          paint_batch-Results n y odist ostride 1 (value idist istride) my some (λ b k b' k' c c' e.
            apart b k b' k' c c' (
              +ℤ_injective (pos 0) _ _ (
                row_free (pos 0) odist' odist ostride b k (first c.0)
                ∙ ap (λ t. pos 0 +ℤ t) e
                ∙ row_free (pos 0) odist odist' ostride b' k' (first c'.0)))) in
        record {
          values = λ c h.
              ap (paint_batch n y odist ostride 1 (value idist istride) my)
                (row_free y odist' odist ostride c.0 c.1 (first h.0))
              ∙ painted.values c h
              ∙ first_row idist idist' istride c (first h.0);
          rest = λ a none.
              painted.rest a
                (λ c h e. none c h (e ∙ row_free y odist odist' ostride c.0 c.1 (first h.0)));
        }
      where
        first : {b : ℕ} → b < 1 → b ≡ 0
        first less = omega (arith, less)

    request-Results :
        (istride' ostride' : ℤ) (howmany' : ℕ) (idist' odist' : ℤ)
        → Served istride' ostride' howmany' idist' odist'
        → Apart howmany' n odist' ostride'
        → Results my
            (paint_batch n y odist ostride (rows (pos howmany')) (value idist istride) my)
            (Cells howmany' n)
            (λ c. cell_at y odist' ostride' c.0 c.1)
            (value idist' istride')
    request-Results istride' ostride' howmany' idist' odist' (is, os, at_most, inl one) apart =
        rw (is, os, one, single (int_eq howmany (pos 1)))
          (one-Results odist' idist' (rw (os, one) at apart))
      where
        single : (test : Bool) → ◌≡◌ {A = ℕ} (if test then 1 else 1) 1
        single test = ground arith
    request-Results istride' ostride' howmany' idist' odist'
          (is, os, at_most, inr (several, id, od)) apart =
        rw (is, os, id, od, not_one (Bool-cases (int_eq howmany (pos 1))))
          (paint_batch-Results n y odist ostride howmany' (value idist istride) my some
            (rw (os, od) at apart))
      where
        not_one :
            (int_eq howmany (pos 1) ≡ true) ⊎ (int_eq howmany (pos 1) ≡ false)
            → int_eq howmany (pos 1) ≡ false
        not_one (inl same) = absurd (several ((int_eq_iff howmany (pos 1)).0 same))
        not_one (inr other) = other

  reference_t-IsTKernel :
      (place : ℕ → ℕ → ℕ) → 0 < n → IsTKernel root n Served place (reference_t place)
  reference_t-IsTKernel place some = record {
    transforms = λ mx x my y istride' ostride' w howmany' idist' odist' served apart.
        request-Results y my
          (λ d t c.
            twiddled_dft root n (stored_twiddle w (place c.0)) (λ j. mx (cell_at x d t c.0 j)) c.1)
          (λ d d' t c first.
            twiddled_dft_congr root n _ _ _ _ c.1 (λ j _. refl)
              (λ j _. ap mx (row_free x d d' t c.0 j first)))
          some istride' ostride' howmany' idist' odist' served apart;
  }

  pub reference_data-IsKernelData :
      (order : OrderKind) → 0 < n → IsKernelData root n order Served reference_data
  reference_data-IsKernelData order some = record {
    plain = λ is. record {
      transforms = λ mx x my y istride' ostride' howmany' idist' odist' served apart.
          request-Results y my (λ d t c. dft root n (λ j. mx (cell_at x d t c.0 j)) c.1)
            (λ d d' t c first.
              dft_congr root n _ _ c.1 (λ j _. ap mx (row_free x d d' t c.0 j first)))
            some istride' ostride' howmany' idist' odist' served apart;
    };
    ab = λ is. reference_t-IsTKernel _ some;
    ac = λ is. reference_t-IsTKernel _ some;
    some_rows = omega arith;
    one_row = λ is. refl;
    no_unity = refl;
  }
