-- ===== src/Execution/Contract.antt =====
-- What the kernels promise: the behaviour that docs/kernel_naming.md describes, in exact
-- arithmetic. The kernels are generated, so these are hypotheses.
use native.Mathlib.Decide.{ℕ_discrete}
use native.Mathlib.Nat.{div-mul-le_self}
use perf_libs_fft.Base.{
  min, arith, ℕ, zero, suc, ◌+◌, ◌-◌, ◌*◌, ◌/◌, ◌%◌, ◌≤◌, ◌<◌, ◌≡◌, ◌≢◌, refl, ◌⊎◌, inl, inr, false,
}
use perf_libs_fft.Base.Int.{ℤ, pos, ltb_ℤ, ◌+ℤ◌, ◌*ℤ◌}
use perf_libs_fft.Base.Int.Ring.{pos_injective}
use perf_libs_fft.Execution.{
  Pointer, Memory, Store, NKernel, TKernel, OrderKind, order_na, order_ab, order_ac, KernelData,
}
use perf_libs_fft.Execution.Fills.{Results, Fills, Live, AllInside}
use perf_libs_fft.Fourier.Sum.{Numbers}
use perf_libs_fft.Fourier.Dft.{dft, twiddled_dft}
use perf_libs_fft.Planner.Run.{Run, ok}
use perf_libs_fft.Twiddles.{TwiddleLayout, ofs_mul}

-- How many elements a buffer may have: the count is a value of `int64_t`, and its bytes are one of
-- `std::size_t`.
abbrev pub buffer_limit : ℕ → ℕ
buffer_limit size = min 9223372036854775807 (18446744073709551615 / size)

pub buffer_limit-fits :
    (size m : ℕ)
    → m ≤ buffer_limit size
    → (m ≤ 9223372036854775807) × (m * size < 18446744073709551616)
buffer_limit-fits size m h =
    let part : m ≤ 18446744073709551615 / size = omega (arith, h) in
    let whole = div-mul-le_self 18446744073709551615 size in
    let bytes : m * size ≤ 18446744073709551615 / size * size = grind (arith, part) in
    (omega (arith, h), omega (arith, bytes, whole))

-- Element `k` of transform `b` of a batch.
abbrev pub cell_at : ℤ → ℤ → ℤ → ℕ → ℕ → ℤ
cell_at offset dist stride b k = offset +ℤ (pos b *ℤ dist +ℤ pos k *ℤ stride)

-- The elements of a batch of `howmany` transforms of length `n`.
abbrev pub Cells : ℕ → ℕ → ℕ × ℕ → Type 0
Cells howmany n c = (c.0 < howmany) × (c.1 < n)

-- No two elements have one address.
abbrev pub Apart : ℕ → ℕ → ℤ → ℤ → Type 0
Apart howmany n dist stride =
    (b k b' k' : ℕ)
    → Cells howmany n (b, k)
    → Cells howmany n (b', k')
    → pos b *ℤ dist +ℤ pos k *ℤ stride ≡ pos b' *ℤ dist +ℤ pos k' *ℤ stride
    → (b ≡ b') × (k ≡ k')

-- The twiddle of the first input is one, and is not stored.
abbrev pub stored_twiddle : {C : Type 0} ⦃numbers : Numbers C⦄ → (ℕ → C) → (ℕ → ℕ) → ℕ → C
stored_twiddle ⦃numbers⦄ w place zero = numbers.one
stored_twiddle w place (suc i) = w (place i)

-- Where an `ab` kernel finds the twiddle of input `i + 1` of transform `b`.
abbrev pub ab_place : TwiddleLayout → ℕ → ℕ → ℕ → ℕ
ab_place layout n b i =
    (b / layout.interleave_factor * layout.interleave_factor * (n - 1)
      + i * layout.interleave_factor
      + b % layout.interleave_factor)
    * ofs_mul layout

-- Calls of a kernel: istride, ostride, howmany, idist, odist.
abbrev pub Calls : Type 1
Calls = ℤ → ℤ → ℕ → ℤ → ℤ → Type 0

-- The calls that a kernel serves which was requested for a batch, strides and distances: at most that
-- many transforms with those strides and distances. The kernel may be specialised to the strides, to
-- the distances and to a batch of one, in which the distances do not matter.
abbrev pub RequestedFor : (howmany istride ostride idist odist : ℤ) → Calls
RequestedFor howmany istride ostride idist odist istride' ostride' howmany' idist' odist' =
    (istride' ≡ istride)
    × (ostride' ≡ ostride)
    × (ltb_ℤ howmany (pos howmany') ≡ false)
    × ((howmany' ≡ 1) ⊎ ((howmany ≢ pos 1) × (idist' ≡ idist) × (odist' ≡ odist)))

module _ (istride ostride idist odist : ℤ) where
  -- A kernel that was requested for several transforms serves fewer.
  pub serves_fewer :
      (howmany fewer : ℕ)
      → fewer ≤ howmany
      → howmany ≢ 1
      → RequestedFor (pos howmany) istride ostride idist odist istride ostride fewer idist odist
  serves_fewer howmany fewer less several =
      (refl, refl, ground (arith, less), inr ((λ e. several (pos_injective _ _ e)), refl, refl))

  -- It serves one transform at any distances.
  pub serves_one :
      (idist' odist' : ℤ)
      → RequestedFor (pos 1) istride ostride idist odist istride ostride 1 idist' odist'
  serves_one idist' odist' = (refl, refl, ground arith, inl refl)

  -- It serves the very call that it was requested for.
  pub serves_request :
      (howmany : ℕ)
      → RequestedFor (pos howmany) istride ostride idist odist istride ostride howmany idist odist
  serves_request howmany = elim (ℕ_discrete howmany 1) [
    | yes one ↦ (refl, refl, ground arith, inl one)
    | no several ↦ serves_fewer howmany howmany (omega arith) several
  ]

module _ {C : Type 0} ⦃numbers : Numbers C⦄ (root : ℕ → ℕ → C) where
  -- A kernel without twiddles transforms each of the batch, in the calls that it serves.
  pub record IsNKernel (n : ℕ) (Serves : Calls) (kernel : NKernel C) : Type 0 where
    pub transforms :
        (mx : Memory C) (x : ℤ) (my : Memory C) (y istride ostride : ℤ) (howmany : ℕ)
        (idist odist : ℤ)
        → Serves istride ostride howmany idist odist
        → Apart howmany n odist ostride
        → Results my
            (kernel mx x my y istride ostride (pos howmany) idist odist)
            (Cells howmany n)
            (λ c. cell_at y odist ostride c.0 c.1)
            (λ c. dft root n (λ j. mx (cell_at x idist istride c.0 j)) c.1)

  -- A kernel with input twiddles scales the inputs first: an `ab` kernel with twiddles of their
  -- own for each transform, an `ac` kernel with the same for all.
  pub record IsTKernel (n : ℕ) (Serves : Calls) (place : ℕ → ℕ → ℕ) (kernel : TKernel C)
      : Type 0 where
    pub transforms :
        (mx : Memory C) (x : ℤ) (my : Memory C) (y istride ostride : ℤ) (w : ℕ → C) (howmany : ℕ)
        (idist odist : ℤ)
        → Serves istride ostride howmany idist odist
        → Apart howmany n odist ostride
        → Results my
            (kernel mx x my y istride ostride w (pos howmany) idist odist)
            (Cells howmany n)
            (λ c. cell_at y odist ostride c.0 c.1)
            (λ c.
              twiddled_dft root n
                (stored_twiddle w (place c.0))
                (λ j. mx (cell_at x idist istride c.0 j))
                c.1)

  -- The data of a length and an order, as a provider promises it and the constructors of the plans
  -- assert.
  pub record IsKernelData (n : ℕ) (order : OrderKind) (Serves : Calls) (data_n : KernelData C)
      : Type 0 where
    pub plain : order ≡ order_na → IsNKernel n Serves data_n.ab_n
    pub ab :
        order ≡ order_ab
        → IsTKernel n Serves (λ b i. ab_place data_n.twid_layout n b i) data_n.ab_t_dit
    pub ac :
        order ≡ order_ac
        → IsTKernel n Serves (λ b i. i * ofs_mul data_n.twid_layout) data_n.ac_t_dit
    pub some_rows : 0 < data_n.twid_layout.interleave_factor
    pub one_row : order ≡ order_ac → data_n.twid_layout.interleave_factor ≡ 1
    pub no_unity : data_n.twid_layout.include_unity_row ≡ false

  -- A provider keeps its promise for a length: what it returns for a request serves that request.
  abbrev pub Provides : (n : ℕ) → (ℤ → ℤ → ℤ → ℤ → ℤ → OrderKind → KernelData C) → Type 0
  Provides n kernels =
      (howmany istride ostride idist odist : ℤ) (order : OrderKind)
      → IsKernelData n order (RequestedFor howmany istride ostride idist odist)
          (kernels howmany istride ostride idist odist order)

  -- A run ends, the elements of the output are the transforms of the input, and all else that is
  -- live is as it was.
  abbrev pub Transformed :
      (Pointer → Pointer → Store C → Run (Store C))
      → (n : ℕ) (istride ostride : ℤ) (howmany : ℕ) (idist odist : ℤ) (x y : Pointer) (s : Store C)
      → Type 0
  Transformed run n istride ostride howmany idist odist x y s =
      (s' : Store C) × (run x y s ≡ ok s')
      × Fills s s' y.region (Cells howmany n) (λ c. cell_at y.offset odist ostride c.0 c.1)
          (λ c. dft root n (λ j. s.memory x.region (cell_at x.offset idist istride c.0 j)) c.1)

  -- An execution transforms a batch from any store whose frames are in order, between pointers into
  -- two live regions, if the elements of the output are inside their region and no two have one
  -- address.
  abbrev pub Transforms :
      ℕ
      → (Pointer → Pointer → Store C → Run (Store C))
      → (n : ℕ) (istride ostride : ℤ) (howmany : ℕ) (idist odist : ℤ) → Type 0
  Transforms size run n istride ostride howmany idist odist =
      (x y : Pointer) (s : Store C)
      → Live s.depth x.region
      → Live s.depth y.region
      → x.region ≢ y.region
      → s.depth ≤ s.count
      → Apart howmany n odist ostride
      → AllInside size s.sizes y.region (Cells howmany n)
          (λ c. cell_at y.offset odist ostride c.0 c.1)
      → Transformed run n istride ostride howmany idist odist x y s
