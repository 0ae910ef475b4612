-- ===== src/Execution/CooleyTukeyBatch.antt =====
-- The execution of a plan that `cooley_tukey_ac` makes for complex transforms, of
-- src/planner/strategies/cooley_tukey.hpp: a batch whose input is interleaved with a packed output.
use Prim.Native.Nat.{◌∣◌}
use native.Mathlib.Nat.{mod-lt, div-add-mod', div-lt_iff_lt-mul}
use perf_libs_fft.Base.{ℕ, ◌+◌, ◌*◌, ◌/◌, ◌%◌, ◌≤◌, ◌<◌, ◌≡◌, ◌≢◌, refl, sym, ap, ◌∙◌, Bool, arith}
use perf_libs_fft.Base.Int.{ℤ, pos, ◌+ℤ◌, ◌*ℤ◌, int_laws}
use perf_libs_fft.Base.Int.Ring.{*ℤ_comm, zero-+ℤ, pos-mul, pos_injective, +ℤ_injective}
use perf_libs_fft.Execution.{inside, buffer, Pointer, Memory, Store}
use perf_libs_fft.Execution.Contract.{
  cell_at, Cells, Apart, Provides, Transforms, Transformed, buffer_limit, buffer_limit-fits,
}
use perf_libs_fft.Execution.CooleyTukey.{one_stride, by_column, *ℤ-one, digits_unique, column-lt}
use perf_libs_fft.Execution.Execute.{Machine, execute}
use perf_libs_fft.Execution.Fills.{Fills-reindex, Live, AllInside, inside_same, inside-buffer}
use perf_libs_fft.Execution.Frames.{cooley_tukey_plan-stages, Live-suc, Live-ne}
use perf_libs_fft.Execution.SharedTwiddles.{
  row_cell, RowCells, RowsApart, shared_row, execute_ac_twid-Fills,
}
use perf_libs_fft.Execution.Twiddled.{twiddled_dft_congr}
use perf_libs_fft.Fourier.Sum.{Numbers}
use perf_libs_fft.Fourier.Dft.{dft, dft_congr, dft_product, IsRoots}
use perf_libs_fft.Planner.Plans.{Plan, cooley_tukey_plan, ac_twid_direct_plan}
use perf_libs_fft.Planner.Problem.{Direction}

-- The cell of the buffer for transform `b` of input `j`, in row `k`.
by_transform :
    (h r b j k : ℕ)
    → cell_at (pos 0) (pos 1) (pos h *ℤ pos r) (b + j * h) k
      ≡ row_cell (pos 0) (pos h *ℤ pos r) (pos h) (k, b, j)
by_transform h r b j k =
    let split : pos (b + j * h) *ℤ pos 1 ≡ pos b *ℤ pos 1 +ℤ pos j *ℤ pos h =
      *ℤ-one (pos (b + j * h)) ∙ sym (by_column h b j) in
    rw split (omega int_laws)

-- The input of transform `b` for input `j` of the outer and `j'` of the inner transform.
interleaved_input :
    (x idist istride : ℤ) (h r b j j' : ℕ)
    → istride ≡ pos h *ℤ idist
    → cell_at x idist (istride *ℤ pos r) (b + j * h) j' ≡ cell_at x idist istride b (j' * r + j)
interleaved_input x idist istride h r b j j' packed =
    let batch : pos (b + j * h) *ℤ idist ≡ pos b *ℤ idist +ℤ pos j *ℤ istride =
      sym (one_stride b j h idist)
      ∙ ap (λ t. pos b *ℤ idist +ℤ pos j *ℤ t) (*ℤ_comm idist (pos h) ∙ sym packed) in
    let element : pos (j' * r + j) *ℤ istride ≡ pos j *ℤ istride +ℤ pos j' *ℤ (istride *ℤ pos r) =
      ap (λ (i : ℕ). pos i *ℤ istride) (omega arith) ∙ sym (one_stride j j' r istride) in
    rw (batch, element) (omega int_laws)

packed_output :
    (y ostride : ℤ) (m k1 b k2 : ℕ)
    → row_cell y ostride (ostride *ℤ pos m) (k1, b, k2) ≡ cell_at y (pos 1) ostride b (k1 + k2 * m)
packed_output y ostride m k1 b k2 =
    let element : pos (k1 + k2 * m) *ℤ ostride ≡ pos k1 *ℤ ostride +ℤ pos k2 *ℤ (ostride *ℤ pos m) =
      sym (one_stride k1 k2 m ostride) in
    rw element (omega int_laws)

module _ {C Other : Type 0} ⦃numbers : Numbers C⦄ (machine : Machine C Other) (dir : Direction)
    {whole : ℕ} (roots : IsRoots whole (machine.point dir)) (m r h : ℕ) (d : m * r ∣ whole)
    (some_columns : 0 < m) (some_rows : 0 < r)
    (fits : m * r * h ≤ buffer_limit machine.element_size)
    (length_fits : m * r ≤ 9223372036854775807) (batch_fits : h ≤ 9223372036854775807) where
  abbrev root : ℕ → ℕ → C
  root = machine.point dir

  buffer_place : (b k : ℕ) → pos b *ℤ pos 1 +ℤ pos k *ℤ (pos h *ℤ pos r) ≡ pos (b + k * (h * r))
  buffer_place b k =
      ap (λ t. pos b *ℤ pos 1 +ℤ pos k *ℤ t) (sym (pos-mul h r)) ∙ by_column (h * r) b k

  buffer-Apart : Apart (h * r) m (pos 1) (pos h *ℤ pos r)
  buffer-Apart b k b' k' c c' e =
      digits_unique (h * r) b k b' k' c.0 c'.0
        (pos_injective _ _ (sym (buffer_place b k) ∙ e ∙ buffer_place b' k'))

  output-RowsApart :
      (ostride : ℤ) → Apart h (m * r) (pos 1) ostride → RowsApart m h r ostride (ostride *ℤ pos m)
  output-RowsApart ostride apart c e hc he same =
      let (batches, places) =
        apart c.1 (c.0 + c.2 * m) e.1 (e.0 + e.2 * m) (hc.1, column-lt m r c.0 c.2 hc.0 hc.2)
          (he.1, column-lt m r e.0 e.2 he.0 he.2)
          (+ℤ_injective (pos 0) _ _ (
            sym (packed_output (pos 0) ostride m c.0 c.1 c.2)
            ∙ same
            ∙ packed_output (pos 0) ostride m e.0 e.1 e.2)) in
      let (columns, rows) = digits_unique m c.0 c.2 e.0 e.2 hc.0 he.0 places in
      (columns, batches, rows)

  module _ (istride ostride idist : ℤ) (want_sme : Bool) (stage1 : Plan Other)
      (packed : istride ≡ pos h *ℤ idist)
      (kernels : Provides root r (λ howmany istride ostride idist odist order.
        machine.kernels (pos r) howmany istride ostride idist odist dir order want_sme))
      (planned : Transforms root machine.element_size
        (execute machine stage1)
        m
        (istride *ℤ pos r)
        (pos h *ℤ pos r)
        (h * r)
        idist
        (pos 1)) where
    -- One transform of the batch, from what stands in the buffer between the stages.
    combined :
        (memory between : Memory C) (x : ℤ) (k1 b k2 : ℕ)
        → k1 < m
        → b < h
        → ((c : ℕ × ℕ)
            → Cells (h * r) m c
            → between (cell_at (pos 0) (pos 1) (pos h *ℤ pos r) c.0 c.1)
              ≡ dft root m (λ j. memory (cell_at x idist (istride *ℤ pos r) c.0 j)) c.1)
        → shared_row machine dir roots between (pos 0) (pos h *ℤ pos r) (pos h) r m (k1, b, k2)
          ≡ dft root (m * r) (λ j. memory (cell_at x idist istride b j)) (k1 + m * k2)
    combined memory between x k1 b k2 hk hb left =
        twiddled_dft_congr root r _ _ _ _ k2 (λ j _. refl)
          (λ j hj.
            ap between (sym (by_transform h r b j k1))
            ∙ left (b + j * h, k1) (column-lt h r b j hb hj, hk)
            ∙ dft_congr root m _ _ k1
                (λ j' _. ap memory (interleaved_input x idist istride h r b j j' packed)))
        ∙ sym (dft_product root roots m r _ k1 k2 d)

    -- A plan of `cooley_tukey_ac` for a batch of `h` complex transforms of length `m * r`, interleaved
    -- in the input and packed in the output, computes all of them, with one set of twiddles for each
    -- column: it takes a buffer for the batch, both stages end, each element of the output is the
    -- transform of the input, and the buffer is given back with all other live memory as it was. The
    -- length divides the order of the roots of unity, the size of the batch is a value of `int64_t` and
    -- the bytes of the buffer are one of `std::size_t`, the first stage computes the transforms of
    -- length `m`, the kernels keep their contract, and the output's elements are inside their region
    -- and have addresses of their own.
    pub cooley_tukey_ac-Transforms :
        (x y : Pointer) (s : Store C)
        → Live s.depth x.region
        → Live s.depth y.region
        → x.region ≢ y.region
        → s.depth ≤ s.count
        → Apart h (m * r) (pos 1) ostride
        → AllInside machine.element_size s.sizes y.region
            (Cells h (m * r))
            (λ c. cell_at y.offset (pos 1) ostride c.0 c.1)
        → Transformed root
            (execute machine (
              cooley_tukey_plan (pos (m * r)) (pos h) stage1 (
                ac_twid_direct_plan
                  (pos r)
                  (pos h)
                  (ostride *ℤ pos m)
                  (pos m)
                  (pos h *ℤ pos r)
                  ostride
                  (pos h)
                  dir
                  want_sme)))
            (m * r)
            istride
            ostride
            h
            idist
            (pos 1)
            x
            y
            s
    unfolding execute
    cooley_tukey_ac-Transforms x y s lx ly differ framed apart within =
        let (count_fits, bytes_fit) = buffer_limit-fits machine.element_size (m * r * h) fits in
        let frame : Pointer = record { region = buffer s.depth; offset = pos 0 } in
        let rows = pos h *ℤ pos r in
        let twiddle_stage =
          ac_twid_direct_plan (pos r) (pos h) (ostride *ℤ pos m) (pos m) rows ostride (pos h) dir
            want_sme in
        let (s', between, run, left, f) =
          cooley_tukey_plan-stages machine (m * r) h stage1 twiddle_stage x y s lx ly framed
            count_fits length_fits batch_fits bytes_fit (Cells (h * r) m)
            (λ c. cell_at (pos 0) (pos 1) rows c.0 c.1)
            (λ memory c.
              dft root m (λ j. memory (cell_at x.offset idist (istride *ℤ pos r) c.0 j)) c.1)
            (RowCells m h r) (row_cell y.offset ostride (ostride *ℤ pos m))
            (λ memory. shared_row machine dir roots memory (pos 0) rows (pos h) r m)
            (λ t depth opened large.
              planned x frame t (rw depth (Live-suc s.depth x.region lx)) (rw depth (omega arith))
                (Live-ne s.depth x.region lx) opened buffer-Apart
                (λ c hc.
                  inside-buffer machine.element_size t.sizes s.depth (m * r * h)
                    (c.0 + c.1 * (h * r)) _ (zero-+ℤ _ ∙ buffer_place c.0 c.1)
                    (omega (arith, column-lt (h * r) m c.0 c.1 hc.0 hc.1, all_cells)) large))
            (λ t depth opened kept.
              execute_ac_twid-Fills machine dir roots r m h (pos h) (ostride *ℤ pos m) rows ostride
                want_sme some_columns kernels frame y t (rw depth (omega arith))
                (rw depth (Live-suc s.depth y.region ly)) opened
                (λ e. Live-ne s.depth y.region ly (sym e)) (output-RowsApart ostride apart)
                (λ c hc.
                  inside_same machine.element_size s.depth s.sizes t.sizes y.region ly kept _
                  ∙ ap (inside machine.element_size s.sizes y.region)
                      (packed_output y.offset ostride m c.0 c.1 c.2)
                  ∙ within (c.1, c.0 + c.2 * m) (hc.1, column-lt m r c.0 c.2 hc.0 hc.2))) in
        (
          s',
          run,
          Fills-reindex (Cells h (m * r)) _ _ f
              (λ c hc. (
                (c.1 % m, c.0, c.1 / m),
                (mod-lt c.1 some_columns, hc.0, row_of c.1 hc.1),
                packed_output y.offset ostride m (c.1 % m) c.0 (c.1 / m)
                    ∙ ap (λ (k : ℕ). cell_at y.offset (pos 1) ostride c.0 k)
                        (omega (arith, element c.1)),
                combined (s.memory x.region) between x.offset (c.1 % m) c.0 (c.1 / m)
                      (mod-lt c.1 some_columns) hc.0 left
                    ∙ ap
                        (dft root (m * r)
                          (λ j. s.memory x.region (cell_at x.offset idist istride c.0 j)))
                        (element c.1),
              ))
              (λ c hc. (
                (c.1, c.0 + c.2 * m),
                (hc.1, column-lt m r c.0 c.2 hc.0 hc.2),
                packed_output y.offset ostride m c.0 c.1 c.2,
              )),
        )
      where
        all_cells : h * r * m ≡ m * r * h
        all_cells = grind arith

        element : (k : ℕ) → k % m + m * (k / m) ≡ k
        element k = omega (arith, div-add-mod' k m)

        row_of : (k : ℕ) → k < m * r → k / m < r
        row_of k hk = (div-lt_iff_lt-mul some_columns).1 (omega (arith, hk))
