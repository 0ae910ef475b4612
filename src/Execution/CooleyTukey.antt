-- ===== src/Execution/CooleyTukey.antt =====
-- The execution of a plan that `cooley_tukey_ab` makes for a complex transform, of
-- src/planner/strategies/cooley_tukey.hpp: a stage that the planner plans, and a twiddle plan.
use Prim.Native.Nat.{◌∣◌}
use native.Mathlib.Nat.{mod-lt, div-add-mod', div-lt_iff_lt-mul}
use mathlib.Core.Path.{ap₂}
use perf_libs_fft.Base.{ℕ, ◌+◌, ◌*◌, ◌/◌, ◌%◌, ◌≤◌, ◌<◌, ◌≡◌, ◌≢◌, refl, sym, ap, ◌∙◌, Bool, arith}
use perf_libs_fft.Base.Int.{ℤ, pos, ◌+ℤ◌, ◌*ℤ◌, +ℤ_comm}
use perf_libs_fft.Base.Int.Ring.{
  *ℤ_comm, *ℤ_assoc, right_distrib, pos-add, pos-mul, pos_injective, one-*ℤ, zero-*ℤ, zero-+ℤ,
}
use perf_libs_fft.Execution.{inside, buffer, Pointer, Memory, Store}
use perf_libs_fft.Execution.Contract.{
  cell_at, Cells, Apart, Provides, Transforms, Transformed, buffer_limit, buffer_limit-fits,
}
use perf_libs_fft.Execution.Execute.{Machine, execute, execute_ab_twid}
use perf_libs_fft.Execution.Fills.{Fills-reindex, Live, AllInside, inside_same, inside-buffer}
use perf_libs_fft.Execution.Frames.{cooley_tukey_plan-stages, Live-suc, Live-ne}
use perf_libs_fft.Execution.Twiddled.{twiddled_row, twiddled_dft_congr, execute_ab_twid-Fills}
use perf_libs_fft.Fourier.Sum.{Numbers}
use perf_libs_fft.Fourier.Dft.{dft, dft_congr, dft_product, IsRoots}
use perf_libs_fft.Planner.Plans.{Plan, cooley_tukey_plan, ab_twid_direct_plan}
use perf_libs_fft.Planner.Problem.{Direction}

-- Two strides of which one is a multiple of the other are one stride.
pub one_stride : (a b r : ℕ) (s : ℤ) → pos a *ℤ s +ℤ pos b *ℤ (s *ℤ pos r) ≡ pos (a + b * r) *ℤ s
one_stride a b r s =
    ap (λ t. pos a *ℤ s +ℤ t)
      (ap (λ t. pos b *ℤ t) (*ℤ_comm s (pos r))
        ∙ sym (*ℤ_assoc (pos b) (pos r) s)
        ∙ ap (λ t. t *ℤ s) (sym (pos-mul b r)))
    ∙ sym (right_distrib (pos a) (pos (b * r)) s)
    ∙ ap (λ t. t *ℤ s) (sym (pos-add a (b * r)))

-- The same as an address in the first transform of a batch.
pub one_row_address :
    (o s d : ℤ) (r a b : ℕ) → cell_at o s (s *ℤ pos r) a b ≡ cell_at o d s 0 (a + b * r)
one_row_address o s d r a b =
    ap (λ t. o +ℤ t)
      (one_stride a b r s ∙ sym (zero-+ℤ _) ∙ ap (λ t. t +ℤ pos (a + b * r) *ℤ s) (sym (zero-*ℤ d)))

pub *ℤ-one : (a : ℤ) → a *ℤ pos 1 ≡ a
*ℤ-one a = *ℤ_comm a (pos 1) ∙ one-*ℤ a

-- The cell of a buffer, by column and by row.
pub by_column : (r b k : ℕ) → pos b *ℤ pos 1 +ℤ pos k *ℤ pos r ≡ pos (b + k * r)
by_column r b k =
    ap (λ t. t +ℤ pos k *ℤ pos r) (*ℤ-one (pos b))
    ∙ ap (λ t. pos b +ℤ t) (sym (pos-mul k r))
    ∙ sym (pos-add b (k * r))

pub by_row : (r b k : ℕ) → pos k *ℤ pos r +ℤ pos b *ℤ pos 1 ≡ pos (b + k * r)
by_row r b k = +ℤ_comm (pos k *ℤ pos r) (pos b *ℤ pos 1) ∙ by_column r b k

pub digits_unique :
    (r b k b' k' : ℕ) → b < r → b' < r → b + k * r ≡ b' + k' * r → (b ≡ b') × (k ≡ k')
digits_unique r b k b' k' h h' e =
    let same : k ≡ k' = grind arith in (omega (arith, e, ap (λ (t : ℕ). t * r) same), same)

pub column-lt : (m r k1 k2 : ℕ) → k1 < m → k2 < r → k1 + k2 * m < m * r
column-lt m r k1 k2 h h' = grind arith

module _ {C Other : Type 0} ⦃numbers : Numbers C⦄ (machine : Machine C Other) (dir : Direction)
    {whole : ℕ} (roots : IsRoots whole (machine.point dir)) (m r : ℕ) (d : m * r ∣ whole)
    (some_columns : 0 < m) (some_rows : 0 < r)
    (fits : m * r ≤ buffer_limit machine.element_size) where
  abbrev root : ℕ → ℕ → C
  root = machine.point dir

  -- The columns of the first stage are apart in the buffer.
  buffer-Apart : Apart r m (pos 1) (pos r)
  buffer-Apart b k b' k' c c' e =
      digits_unique r b k b' k' c.0 c'.0
        (pos_injective _ _ (sym (by_column r b k) ∙ e ∙ by_column r b' k'))

  -- The rows of the second stage are apart in the output of one transform.
  output-Apart :
      (odist ostride : ℤ) → Apart 1 (m * r) odist ostride → Apart m r ostride (ostride *ℤ pos m)
  output-Apart odist ostride apart b k b' k' c c' e =
      let (_, same) =
        apart 0 (b + k * m) 0 (b' + k' * m) (omega arith, column-lt m r b k c.0 c.1)
          (omega arith, column-lt m r b' k' c'.0 c'.1)
          (ap (λ t. pos 0 *ℤ odist +ℤ t)
            (sym (one_stride b k m ostride) ∙ e ∙ one_stride b' k' m ostride)) in
      digits_unique m b k b' k' c.0 c'.0 same

  module _ (istride ostride idist odist : ℤ) (want_sme : Bool) (stage1 : Plan Other)
      (kernels : Provides root r (λ howmany istride ostride idist odist order.
        machine.kernels (pos r) howmany istride ostride idist odist dir order want_sme))
      (planned : Transforms root machine.element_size
        (execute machine stage1)
        m
        (istride *ℤ pos r)
        (pos r)
        r
        istride
        (pos 1)) where
    -- One transform of length `m * r`, from what stands in the buffer between the stages.
    pub combined :
        (memory between : Memory C) (x : ℤ) (k1 k2 : ℕ)
        → k1 < m
        → ((c : ℕ × ℕ)
            → Cells r m c
            → between (cell_at (pos 0) (pos 1) (pos r) c.0 c.1)
              ≡ dft root m (λ j. memory (cell_at x istride (istride *ℤ pos r) c.0 j)) c.1)
        → twiddled_row machine dir roots between (pos 0) (pos r) (pos 1) r m (k1, k2)
          ≡ dft root (m * r) (λ j. memory (cell_at x idist istride 0 j)) (k1 + m * k2)
    combined memory between x k1 k2 h left =
        twiddled_dft_congr root r _ _ _ _ k2 (λ j _. refl)
          (λ j hj.
            ap between (ap (λ t. pos 0 +ℤ t) (by_row r j k1 ∙ sym (by_column r j k1)))
            ∙ left (j, k1) (hj, h)
            ∙ dft_congr root m _ _ k1 (λ j' _. ap memory (column j j')))
        ∙ sym (dft_product root roots m r _ k1 k2 d)
      where
        column :
            (j j' : ℕ)
            → cell_at x istride (istride *ℤ pos r) j j' ≡ cell_at x idist istride 0 (j' * r + j)
        column j j' =
            one_row_address x istride idist r j j'
            ∙ ap (λ (i : ℕ). cell_at x idist istride 0 i) (omega arith)

    -- A plan of `cooley_tukey_ab` for a complex transform of length `m * r`, whose first stage
    -- computes the `r` transforms of length `m` and whose second stage is the twiddle plan of the
    -- radix `r`, computes that transform: it takes a buffer, both stages end, each element of the
    -- output is the transform of the input, and the buffer is given back with all other live memory
    -- as it was. The length divides the order of the roots of unity, it is a value of `int64_t`
    -- and the bytes of the buffer are one of `std::size_t`, the kernels keep their contract, and the
    -- output's elements are inside their region and have addresses of their own.
    pub cooley_tukey_ab-Transforms :
        (x y : Pointer) (s : Store C)
        → Live s.depth x.region
        → Live s.depth y.region
        → x.region ≢ y.region
        → s.depth ≤ s.count
        → Apart 1 (m * r) odist ostride
        → AllInside machine.element_size s.sizes y.region
            (Cells 1 (m * r))
            (λ c. cell_at y.offset odist ostride c.0 c.1)
        → Transformed root
            (execute machine (
              cooley_tukey_plan (pos (m * r)) (pos 1) stage1 (
                ab_twid_direct_plan
                  (pos r)
                  (pos 1)
                  (ostride *ℤ pos m)
                  (pos m)
                  (pos r)
                  ostride
                  dir
                  want_sme)))
            (m * r)
            istride
            ostride
            1
            idist
            odist
            x
            y
            s
    unfolding execute
    cooley_tukey_ab-Transforms x y s lx ly differ framed apart within =
        let (count_fits, bytes_fit) = buffer_limit-fits machine.element_size (m * r) fits in
        let frame : Pointer = record { region = buffer s.depth; offset = pos 0 } in
        let twiddle_stage =
          ab_twid_direct_plan (pos r) (pos 1) (ostride *ℤ pos m) (pos m) (pos r) ostride dir
            want_sme in
        let (s', between, run, left, f) =
          cooley_tukey_plan-stages machine (m * r) 1 stage1 twiddle_stage x y s lx ly framed
            (omega (arith, count_fits)) count_fits (omega arith) (omega (arith, bytes_fit))
            (Cells r m) (λ c. cell_at (pos 0) (pos 1) (pos r) c.0 c.1)
            (λ memory c.
              dft root m (λ j. memory (cell_at x.offset istride (istride *ℤ pos r) c.0 j)) c.1)
            (Cells m r) (λ c. cell_at y.offset ostride (ostride *ℤ pos m) c.0 c.1)
            (λ memory. twiddled_row machine dir roots memory (pos 0) (pos r) (pos 1) r m)
            (λ t depth opened large.
              planned x frame t (rw depth (Live-suc s.depth x.region lx)) (rw depth (omega arith))
                (Live-ne s.depth x.region lx) opened buffer-Apart
                (λ c h.
                  inside-buffer machine.element_size t.sizes s.depth (m * r * 1) (c.0 + c.1 * r) _
                    (zero-+ℤ _ ∙ by_column r c.0 c.1) (omega (arith, column-lt r m c.0 c.1 h.0 h.1))
                    large))
            (λ t depth opened kept. (
              execute_ab_twid machine (pos r) (pos 1) (ostride *ℤ pos m) (pos m) (pos r) ostride dir
                  want_sme frame y t,
              refl,
              execute_ab_twid-Fills machine dir roots r m (pos 1) (ostride *ℤ pos m) (pos r) ostride
                  want_sme some_columns kernels frame y t (rw depth (omega arith))
                  (rw depth (Live-suc s.depth y.region ly))
                  (λ e. Live-ne s.depth y.region ly (sym e)) (output-Apart odist ostride apart)
                  (λ c h.
                    inside_same machine.element_size s.depth s.sizes t.sizes y.region ly kept _
                    ∙ ap (inside machine.element_size s.sizes y.region)
                        (one_row_address y.offset ostride odist m c.0 c.1)
                    ∙ within (0, c.0 + c.1 * m) (omega arith, column-lt m r c.0 c.1 h.0 h.1)),
            )) in
        (
          s',
          run,
          Fills-reindex (Cells 1 (m * r)) _ _ f
              (λ c h. (
                (c.1 % m, c.1 / m),
                (mod-lt c.1 some_columns, row_of c.1 h.1),
                output_place c.0 c.1 h.0,
                combined (s.memory x.region) between x.offset (c.1 % m) (c.1 / m)
                      (mod-lt c.1 some_columns) left
                    ∙ input_place c.0 c.1 h.0,
              ))
              (λ c h. (
                (0, c.0 + c.1 * m),
                (omega arith, column-lt m r c.0 c.1 h.0 h.1),
                one_row_address y.offset ostride odist m c.0 c.1,
              )),
        )
      where
        element : (k : ℕ) → k % m + m * (k / m) ≡ k
        element k = omega (arith, div-add-mod' k m)

        zero_of : (b : ℕ) → b < 1 → 0 ≡ b
        zero_of b h = omega arith

        row_of : (k : ℕ) → k < m * r → k / m < r
        row_of k h = (div-lt_iff_lt-mul some_columns).1 (omega (arith, h))

        output_place :
            (b k : ℕ)
            → b < 1
            → cell_at y.offset ostride (ostride *ℤ pos m) (k % m) (k / m)
              ≡ cell_at y.offset odist ostride b k
        output_place b k h =
            one_row_address y.offset ostride odist m (k % m) (k / m)
            ∙ ap₂ (λ (i j : ℕ). cell_at y.offset odist ostride i j) (zero_of b h)
                (omega (arith, element k))

        input_place :
            (b k : ℕ)
            → b < 1
            → dft root
                (m * r)
                (λ j. s.memory x.region (cell_at x.offset idist istride 0 j))
                (k % m + m * (k / m))
              ≡ dft root (m * r) (λ j. s.memory x.region (cell_at x.offset idist istride b j)) k
        input_place b k h =
            ap (dft root (m * r) (λ j. s.memory x.region (cell_at x.offset idist istride 0 j)))
              (element k)
            ∙ ap
                (λ (i : ℕ).
                  dft root (m * r) (λ j. s.memory x.region (cell_at x.offset idist istride i j)) k)
                (zero_of b h)
