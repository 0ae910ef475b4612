-- ===== src/R2r/Input.antt =====
-- The input of the Fourier transform has the right size, and reads nothing but the elements of the
-- real-to-real transform: src/r2r_buffer_helper.hpp.
use perf_libs_fft.Base.{
  ℕ, zero, suc, ◌+◌, ◌-◌, ◌*◌, ◌/◌, ◌%◌, ◌≤◌, ◌<◌, ◌≡◌, refl, ap, ◌∙◌, inl, inr, false, List, [],
  ◌∷◌, ◌==◌, length, length-set, length-append, Bool-cases, if◌then◌else◌, arith,
}
use perf_libs_fft.Api.Types.{
  R2rKind, dct_1, dct_2, dct_3, dct_4, dst_1, dst_2, dst_3, dst_4, dht, r2hc, hc2r, other_kind,
}
use perf_libs_fft.R2r.{fft_input_size, loop, Numbers, scatter, prepare_fft_input}

length-loop {ℓ} : {A : Type ℓ} (count first : ℕ) (f : ℕ → A) → length (loop count first f) ≡ count
length-loop zero first f = refl
length-loop (suc count) first f = ap suc (length-loop count (suc first) f)

-- A loop is determined by what its body gives in its range.
loop-same {ℓ} :
    {A : Type ℓ} (count first : ℕ) (f g : ℕ → A)
    → ((i : ℕ) → first ≤ i → i < first + count → f i ≡ g i)
    → loop count first f ≡ loop count first g
loop-same zero first f g h = refl
loop-same (suc count) first f g h =
    rw
      (
        h first (omega arith) (omega arith),
        loop-same count (suc first) f g (λ i l m. h i (omega (arith, l)) (omega (arith, m))),
      )
      refl

module _ {T N : Type 0} (numbers : Numbers T N) (w : ℕ → N) (rotation : ℕ → ℕ → N) where
  length-scatter :
      (count i n : ℕ) (read : ℕ → T) (buffer : List N)
      → length (scatter numbers w rotation count i n read buffer) ≡ length buffer
  unfolding scatter
  length-scatter zero i n read buffer = refl
  length-scatter (suc count) i n read buffer =
      length-scatter count (suc i) n read _ ∙ length-set buffer _ _

  scatter-same :
      (count i n : ℕ) (f g : ℕ → T) (buffer : List N)
      → ((k : ℕ) → i ≤ k → k < i + count → f k ≡ g k)
      → scatter numbers w rotation count i n f buffer
        ≡ scatter numbers w rotation count i n g buffer
  unfolding scatter
  scatter-same zero i n f g buffer h = refl
  scatter-same (suc count) i n f g buffer h =
      rw (h i (omega arith) (omega arith))
        (scatter-same count (suc i) n f g _ (λ k l m. h k (omega (arith, l)) (omega (arith, m))))

  -- For a length above one and a kind with a name, into a buffer of the size of the input, exactly
  -- `fft_input_size` cells are written.
  pub length-prepare_fft_input :
      (kind : R2rKind) (n : ℕ) (read : ℕ → T) (buffer : List N)
      → 1 < n
      → length buffer ≡ fft_input_size kind n
      → length (prepare_fft_input numbers w rotation kind n read buffer) ≡ fft_input_size kind n
  unfolding prepare_fft_input fft_input_size
  length-prepare_fft_input dct_1 n read buffer big size =
      length-append (loop n 0 _) _
      ∙ (omega (
        arith,
        length-loop n 0 (λ i. numbers.real (read i)),
        length-loop (n - 2) 0 (λ i. numbers.real (read (n - 2 - i))),
      ))
  length-prepare_fft_input dct_2 n read buffer big size =
      length-append (loop ((n + 1) / 2) 0 _) _
      ∙ (omega (
        arith,
        length-loop ((n + 1) / 2) 0 (λ i. numbers.real (read (i * 2))),
        length-loop (n - (n + 1) / 2) ((n + 1) / 2) (λ i. numbers.real (read (2 * (n - i) - 1))),
      ))
  length-prepare_fft_input dct_3 n read buffer big size = length-loop (n / 2 + 1) 0 _
  length-prepare_fft_input dct_4 n read buffer big size = length-loop n 0 _
  length-prepare_fft_input dst_1 n read buffer big size =
      let positive = length-loop n 1 (λ i. numbers.real (read (i - 1))) in
      let negative = length-loop n 0 (λ i. numbers.real (numbers.negative (read (n - 1 - i)))) in
      ap suc (length-append (loop n 1 _) (numbers.real numbers.zero_value ∷ loop n 0 _))
      ∙ (omega (arith, positive, negative))
  length-prepare_fft_input dst_2 n read buffer big size = length-scatter n 0 n read buffer ∙ size
  length-prepare_fft_input dst_3 n read buffer big size = length-loop (n / 2 + 1) 0 _
  length-prepare_fft_input dst_4 n read buffer big size = length-loop n 0 _
  length-prepare_fft_input dht n read buffer big size =
      omega (arith, length-loop (n - 1) 1 (λ i. numbers.complex (read i) (read (n - i))))
  length-prepare_fft_input r2hc n read buffer big size = length-loop n 0 _
  length-prepare_fft_input hc2r n read buffer big size =
      let several : (n / 2 == 0) ≡ false = ground arith in
      let middle = length-loop (n / 2 - 1) 1 (λ i. numbers.complex (read i) (read (n - i))) in
      let ending =
        length-append (loop (n / 2 - 1) 1 (λ i. numbers.complex (read i) (read (n - i)))) (
          numbers.complex (read (n / 2))
            (if n % 2 == 1 then read (n - n / 2) else numbers.zero_value)
          ∷ []) in
      rw several (omega (arith, middle, ending))
  length-prepare_fft_input (other_kind c) n read buffer big size = size

  module _ (n : ℕ) (big : 1 < n) (f g : ℕ → T) (same : (i : ℕ) → i < n → f i ≡ g i) where
    both : (i j : ℕ) → i < n → j < n → numbers.complex (f i) (f j) ≡ numbers.complex (g i) (g j)
    both i j l m = rw (same i l, same j m) refl

    one_cell : (i : ℕ) → i < n → numbers.real (f i) ≡ numbers.real (g i)
    one_cell i l = ap numbers.real (same i l)

    dct_3-cell :
        (k : ℕ)
        → k < n / 2 + 1
        → numbers.complex (f k) (if k == 0 then numbers.zero_value else f (n - k))
          ≡ numbers.complex (g k) (if k == 0 then numbers.zero_value else g (n - k))
    dct_3-cell k l = elim (Bool-cases (k == 0)) [
      | inl first ↦ rw (first, same k (omega arith)) refl
      | inr later ↦ rw (later, same k (omega arith), same (n - k) (ground arith)) refl
    ]

    dst_3-cell :
        (i : ℕ)
        → i < n / 2 + 1
        → (if i == 0
            then numbers.complex numbers.zero_value (f (n - 1))
            else numbers.complex (f (i - 1)) (f (n - i - 1)))
          ≡ (if i == 0
              then numbers.complex numbers.zero_value (g (n - 1))
              else numbers.complex (g (i - 1)) (g (n - i - 1)))
    dst_3-cell i l = elim (Bool-cases (i == 0)) [
      | inl first ↦ rw (first, same (n - 1) (omega arith)) refl
      | inr later ↦ rw (later, same (i - 1) (omega arith), same (n - i - 1) (ground arith)) refl
    ]

    hc2r-last :
        numbers.complex (f (n / 2)) (if n % 2 == 1 then f (n - n / 2) else numbers.zero_value)
        ≡ numbers.complex (g (n / 2)) (if n % 2 == 1 then g (n - n / 2) else numbers.zero_value)
    hc2r-last = rw (same (n / 2) (omega arith), same (n - n / 2) (omega arith)) refl

    -- For a length above one, what is prepared depends on the elements below the length alone: an
    -- input that agrees on them gives the same, so no element past the end is used.
    pub prepare_fft_input-same :
        (kind : R2rKind) (buffer : List N)
        → prepare_fft_input numbers w rotation kind n f buffer
          ≡ prepare_fft_input numbers w rotation kind n g buffer
    unfolding prepare_fft_input
    prepare_fft_input-same dct_1 buffer =
        rw
          (
            loop-same n 0 (λ i. numbers.real (f i)) (λ i. numbers.real (g i))
                (λ i l m. one_cell i (omega (arith, m))),
            loop-same (n - 2) 0 (λ i. numbers.real (f (n - 2 - i)))
                (λ i. numbers.real (g (n - 2 - i))) (λ i l m. one_cell (n - 2 - i) (omega arith)),
          )
          refl
    prepare_fft_input-same dct_2 buffer =
        rw
          (
            loop-same ((n + 1) / 2) 0 (λ i. numbers.real (f (i * 2)))
                (λ i. numbers.real (g (i * 2))) (λ i l m. one_cell (i * 2) (omega (arith, m))),
            loop-same (n - (n + 1) / 2) ((n + 1) / 2) (λ i. numbers.real (f (2 * (n - i) - 1)))
                (λ i. numbers.real (g (2 * (n - i) - 1)))
                (λ i l m. one_cell (2 * (n - i) - 1) (omega (arith, l, m))),
          )
          refl
    prepare_fft_input-same dct_3 buffer =
        loop-same (n / 2 + 1) 0 _ _
          (λ k l m. ap (λ c. numbers.product c (w k)) (dct_3-cell k (omega (arith, m))))
    prepare_fft_input-same dct_4 buffer = loop-same n 0 _ _ (λ i l m.
        ap (λ c. numbers.product c (w i)) (both i (n - i - 1) (omega (arith, m)) (omega arith)))
    prepare_fft_input-same dst_1 buffer =
        rw
          (
            loop-same n 1 (λ i. numbers.real (f (i - 1))) (λ i. numbers.real (g (i - 1)))
                (λ i l m. one_cell (i - 1) (omega (arith, m))),
            loop-same n 0 (λ i. numbers.real (numbers.negative (f (n - 1 - i))))
                (λ i. numbers.real (numbers.negative (g (n - 1 - i))))
                (λ i l m.
                  ap (λ t. numbers.real (numbers.negative t)) (same (n - 1 - i) (omega arith))),
          )
          refl
    prepare_fft_input-same dst_2 buffer =
        scatter-same n 0 n f g buffer (λ k l m. same k (omega (arith, m)))
    prepare_fft_input-same dst_3 buffer =
        loop-same (n / 2 + 1) 0 _ _
          (λ i l m. ap (λ c. numbers.product c (rotation n i)) (dst_3-cell i (omega (arith, m))))
    prepare_fft_input-same dst_4 buffer = loop-same n 0 _ _ (λ i l m.
        ap (λ c. numbers.product c (rotation n i))
          (both i (n - i - 1) (omega (arith, m)) (omega arith)))
    prepare_fft_input-same dht buffer =
        rw
          (
            same 0 (omega arith),
            loop-same (n - 1) 1 (λ i. numbers.complex (f i) (f (n - i)))
                (λ i. numbers.complex (g i) (g (n - i)))
                (λ i l m. both i (n - i) (omega (arith, m)) (omega (arith, l))),
          )
          refl
    prepare_fft_input-same r2hc buffer = loop-same n 0 _ _ (λ i l m. one_cell i (omega (arith, m)))
    prepare_fft_input-same hc2r buffer =
        rw
          (
            same 0 (omega arith),
            hc2r-last,
            loop-same (n / 2 - 1) 1 (λ i. numbers.complex (f i) (f (n - i)))
                (λ i. numbers.complex (g i) (g (n - i)))
                (λ i l m. both i (n - i) (omega (arith, m)) (omega (arith, l))),
          )
          refl
    prepare_fft_input-same (other_kind c) buffer = refl
