-- ===== src/Execution/SharedTwiddles.antt =====
-- The execution of `ac_twid_direct_plan`: src/planner/strategies/cooley_tukey.hpp. Each row is a batch
-- of transforms that share their twiddles.
use native.Mathlib.Decide.{dec_lt}
use perf_libs_fft.Base.{
  ℕ, suc, ◌+◌, ◌-◌, ◌*◌, ◌/◌, ◌%◌, ◌≤◌, ◌<◌, ◌≡◌, ◌≢◌, refl, sym, ap, ◌∙◌, Bool, inl, inr, arith,
}
use perf_libs_fft.Base.Int.{ℤ, pos, ◌+ℤ◌, ◌*ℤ◌, int_laws}
use perf_libs_fft.Base.Int.Ring.{zero-*ℤ, +ℤ-zero, +ℤ_injective}
use perf_libs_fft.Execution.{inside, Pointer, advance, Memory, Store, KernelData, call_n, call_t}
use perf_libs_fft.Execution.{order_na, order_ac}
use perf_libs_fft.Execution.Contract.{
  cell_at, Apart, Calls, RequestedFor, serves_request, IsKernelData, Provides, stored_twiddle,
}
use perf_libs_fft.Execution.Execute.{Machine, twiddles_from, execute_ac_twid}
use perf_libs_fft.Execution.Fills.{
  Fills, put-Fills, AllInside, inside_same, Fills-join, Fills-reindex, Live, Agrees, Agrees-self,
  Agrees-Fills, repeat-Fills,
}
use perf_libs_fft.Execution.Twiddled.{
  twiddle, twiddled_dft_congr, twiddled_dft-ones, stored_twiddle-twiddle,
}
use perf_libs_fft.Fourier.Sum.{Numbers}
use perf_libs_fft.Fourier.Dft.{twiddled_dft, dft_congr, IsRoots}
use perf_libs_fft.Planner.Problem.{Direction}
use perf_libs_fft.Planner.Run.{ok}
use perf_libs_fft.Twiddles.{ofs_mul}

-- Element `k` of transform `b` of row `i`.
abbrev pub row_cell : ℤ → ℤ → ℤ → ℕ × ℕ × ℕ → ℤ
row_cell offset dist stride c = cell_at (offset +ℤ pos c.0 *ℤ dist) (pos 1) stride c.1 c.2

abbrev pub RowCells : ℕ → ℕ → ℕ → ℕ × ℕ × ℕ → Type 0
RowCells rows howmany n c = (c.0 < rows) × (c.1 < howmany) × (c.2 < n)

-- No two elements of the rows have one address.
abbrev pub RowsApart : ℕ → ℕ → ℕ → ℤ → ℤ → Type 0
RowsApart rows howmany n dist stride =
    (c e : ℕ × ℕ × ℕ)
    → RowCells rows howmany n c
    → RowCells rows howmany n e
    → row_cell (pos 0) dist stride c ≡ row_cell (pos 0) dist stride e
    → (c.0 ≡ e.0) × (c.1 ≡ e.1) × (c.2 ≡ e.2)

from_origin : (o a x : ℤ) → o +ℤ a +ℤ x ≡ o +ℤ (pos 0 +ℤ a +ℤ x)
from_origin o a x = omega int_laws

-- The first row is at the pointer.
first_row_offset : (o d : ℤ) (i : ℕ) → i ≡ 0 → o ≡ o +ℤ pos i *ℤ d
first_row_offset o d i h =
    sym (ap (λ (m : ℕ). o +ℤ pos m *ℤ d) h ∙ ap (λ t. o +ℤ t) (zero-*ℤ d) ∙ +ℤ-zero o)

-- Without interleaving the twiddles of a row are one after the other.
shared_place :
    (n row i f q : ℕ)
    → q ≡ 1
    → row * f * (n - 1) + i * f ≡ (row / q * q * (n - 1) + i * q + row % q) * f
shared_place n row i f q one =
    let whole : row / 1 ≡ row = omega arith in
    let rest : row % 1 ≡ 0 = omega arith in rw (one, whole, rest) (omega arith)

module _ {C Other : Type 0} ⦃numbers : Numbers C⦄ (machine : Machine C Other) (dir : Direction)
    {whole : ℕ} (roots : IsRoots whole (machine.point dir)) where
  abbrev root : ℕ → ℕ → C
  root = machine.point dir

  -- What a twiddle plan computes where the transforms of a row share their twiddles.
  abbrev pub shared_row : Memory C → ℤ → ℤ → ℤ → ℕ → ℕ → ℕ × ℕ × ℕ → C
  shared_row memory x idist istride n rows c =
      twiddled_dft root n (twiddle machine dir roots n rows c.0)
        (λ j. memory (row_cell x idist istride (c.0, c.1, j))) c.2

  module _ (n rows howmany : ℕ) (istride ostride idist odist : ℤ) (want_sme : Bool)
      (some : 0 < rows)
      (kernels : Provides root n (λ howmany istride ostride idist odist order.
        machine.kernels (pos n) howmany istride ostride idist odist dir order want_sme))
      (x y : Pointer) (s : Store C) (lx : Live s.depth x.region) (ly : Live s.depth y.region)
      (framed : s.depth ≤ s.count) (d : x.region ≢ y.region)
      (apart : RowsApart rows howmany n odist ostride)
      (within : AllInside machine.element_size s.sizes y.region
        (RowCells rows howmany n)
        (row_cell y.offset odist ostride)) where
    abbrev data_n : KernelData C
    data_n =
        machine.kernels (pos n) (pos howmany) istride ostride (pos 1) (pos 1) dir order_na want_sme

    abbrev data_t : KernelData C
    data_t =
        machine.kernels (pos n) (pos howmany) istride ostride (pos 1) (pos 1) dir order_ac want_sme

    abbrev Served : Calls
    Served = RequestedFor (pos howmany) istride ostride (pos 1) (pos 1)

    promised_n : IsKernelData root n order_na Served data_n
    promised_n = kernels (pos howmany) istride ostride (pos 1) (pos 1) order_na

    promised_t : IsKernelData root n order_ac Served data_t
    promised_t = kernels (pos howmany) istride ostride (pos 1) (pos 1) order_ac

    abbrev at : ℕ × ℕ × ℕ → ℤ
    at = row_cell y.offset odist ostride

    abbrev value : ℕ × ℕ × ℕ → C
    value = shared_row (s.memory x.region) x.offset idist istride n rows

    -- The elements of one row.
    abbrev OneRow : ℕ → ℕ × ℕ × ℕ → Type 0
    OneRow i c = (c.0 ≡ i) × (c.1 < howmany) × (c.2 < n)

    row-Apart : (i : ℕ) → i < rows → Apart howmany n (pos 1) ostride
    row-Apart i h b k b' k' c c' e =
        (let (_, batches, columns) =
            apart (i, b, k) (i, b', k') (h, c.0, c.1) (h, c'.0, c'.1)
              (ap (λ t. pos 0 +ℤ pos i *ℤ odist +ℤ t) e) in
          (batches, columns))

    different_rows :
        (i j : ℕ) (c e : ℕ × ℕ × ℕ) → i < j → j < rows → OneRow i c → OneRow j e → at c ≢ at e
    different_rows i j c e h l hc he same =
        let (rows_same, _, _) =
          apart c e (omega (arith, hc.0), hc.1, hc.2) (omega (arith, he.0), he.1, he.2)
            (+ℤ_injective y.offset _ _
              (sym (from_origin y.offset _ _) ∙ same ∙ from_origin y.offset _ _)) in
        omega (arith, hc.0, he.0)

    first_row-Fills :
        Fills s
          (call_n machine.element_size data_n.ab_n x y istride ostride
            (pos howmany)
            (pos 1)
            (pos 1)
            s)
          y.region
          (OneRow 0)
          at
          value
    unfolding call_n
    first_row-Fills =
        Fills-reindex (OneRow 0) at value
          (put-Fills machine.element_size s y.region _
            ((promised_n.plain refl).transforms (s.memory x.region) x.offset (s.memory y.region)
              y.offset istride ostride howmany (pos 1) (pos 1)
              (serves_request istride ostride (pos 1) (pos 1) howmany) (row-Apart 0 some))
            (λ c h.
              ap (inside machine.element_size s.sizes y.region) (
                ap (λ o. cell_at o (pos 1) ostride c.0 c.1)
                  (first_row_offset y.offset odist 0 refl))
              ∙ within (0, c.0, c.1) (some, h.0, h.1)))
          (λ c h. (
            (c.1, c.2),
            (h.1, h.2),
            ap (λ o. cell_at o (pos 1) ostride c.1 c.2) (first_row_offset y.offset odist c.0 h.0),
            dft_congr root n _ _ c.2 (λ j _.
                  ap (λ o. s.memory x.region (cell_at o (pos 1) istride c.1 j))
                    (first_row_offset x.offset idist c.0 h.0))
                ∙ sym (twiddled_dft-ones root n _ _ c.2 (λ j _. no_twiddle j c.0 h.0)),
          ))
          (λ c h. (
            (0, c.0, c.1),
            (refl, h.0, h.1),
            ap (λ o. cell_at o (pos 1) ostride c.0 c.1) (first_row_offset y.offset odist 0 refl),
          ))
      where
        no_twiddle : (j b : ℕ) → b ≡ 0 → twiddle machine dir roots n rows b j ≡ numbers.one
        no_twiddle j b h =
            let angle : j * b ≡ 0 = rw h (omega arith) in
            ap (root (rows * n)) angle ∙ roots.root_zero (rows * n)

    -- What the kernel computes for a row is what belongs to that row.
    later_value :
        (i : ℕ) (t : Store C) (c : ℕ × ℕ × ℕ)
        → Agrees s t y.region
        → 0 < i
        → i < rows
        → c.0 ≡ i
        → twiddled_dft root n
            (stored_twiddle
              (twiddles_from machine dir
                (pos rows)
                (pos n)
                data_t.twid_layout
                ((i - 1) * ofs_mul data_t.twid_layout * (n - 1)))
              (λ i'. i' * ofs_mul data_t.twid_layout))
            (λ j. t.memory x.region (row_cell x.offset idist istride (i, c.1, j)))
            c.2
          ≡ value c
    later_value i t c agrees low high row =
        let again : suc (i - 1) ≡ i = omega arith in
        twiddled_dft_congr root n _ _ _ _ c.2
          (λ j hj.
            stored_twiddle-twiddle machine dir roots n rows (i - 1) j data_t.twid_layout
              (λ i'. i' * ofs_mul data_t.twid_layout)
              ((i - 1) * ofs_mul data_t.twid_layout * (n - 1))
              (omega (arith, (promised_t.one_row refl))) promised_t.no_unity (omega arith) hj
              (λ i'.
                shared_place n (i - 1) i' (ofs_mul data_t.twid_layout)
                  data_t.twid_layout.interleave_factor (promised_t.one_row refl))
            ∙ ap (λ (m : ℕ). twiddle machine dir roots n rows m j) again)
          (λ j _. agrees.others x.region lx d _)
        ∙ ap (λ (m : ℕ). value (m, c.1, c.2)) (sym row)

    later_row-Fills :
        (i : ℕ) (t : Store C)
        → Agrees s t y.region
        → 0 < i
        → i < rows
        → Fills t
            (call_t machine.element_size data_t.ac_t_dit
              (advance x (pos i *ℤ idist))
              (advance y (pos i *ℤ odist))
              istride
              ostride
              (twiddles_from machine dir
                (pos rows)
                (pos n)
                data_t.twid_layout
                ((i - 1) * ofs_mul data_t.twid_layout * (n - 1)))
              (pos howmany)
              (pos 1)
              (pos 1)
              t)
            y.region
            (OneRow i)
            at
            value
    unfolding call_t
    later_row-Fills i t agrees low high =
        Fills-reindex (OneRow i) at value
          (put-Fills machine.element_size t y.region _
            ((promised_t.ac refl).transforms (t.memory x.region) (x.offset +ℤ pos i *ℤ idist)
              (t.memory y.region) (y.offset +ℤ pos i *ℤ odist) istride ostride _ howmany (pos 1)
              (pos 1) (serves_request istride ostride (pos 1) (pos 1) howmany) (row-Apart i high))
            (λ c h.
              inside_same machine.element_size s.depth s.sizes t.sizes y.region ly agrees.sizes _
              ∙ within (i, c.0, c.1) (high, h.0, h.1)))
          (λ c row. (
            (c.1, c.2),
            (row.1, row.2),
            ap (λ (m : ℕ). at (m, c.1, c.2)) (sym row.0),
            later_value i t c agrees low high row.0,
          ))
          (λ c h. ((i, c.0, c.1), (refl, h.0, h.1), refl))

    pub execute_ac_twid-Fills :
        (s' : Store C) × (execute_ac_twid machine
            (pos n)
            istride
            ostride
            (pos rows)
            idist
            odist
            (pos howmany)
            dir
            want_sme
            x
            y
            s
          ≡ ok s')
        × Fills s s' y.region (RowCells rows howmany n) at value
    unfolding execute_ac_twid
    execute_ac_twid-Fills =
        let first =
          call_n machine.element_size data_n.ab_n x y istride ostride (pos howmany) (pos 1) (pos 1)
            s in
        let (s', run, f) =
          repeat-Fills s y.region OneRow at value
            (λ i t. ok (
              call_t machine.element_size data_t.ac_t_dit (advance x (pos i *ℤ idist))
                (advance y (pos i *ℤ odist)) istride ostride
                (twiddles_from machine dir (pos rows) (pos n) data_t.twid_layout
                  ((i - 1) * ofs_mul data_t.twid_layout * (n - 1)))
                (pos howmany) (pos 1) (pos 1) t))
            1 rows different_rows
            (λ i t low high agrees. (_, refl, later_row-Fills i t agrees low high)) (rows - 1) 1
            first (omega arith) (omega arith)
            (Agrees-Fills (Agrees-self s y.region framed) first_row-Fills) in
        (
          s',
          run,
          Fills-reindex (RowCells rows howmany n) at value
              (Fills-join first_row-Fills f (λ c e row later.
                different_rows 0 later.0 c e (omega (arith, later.1)) (omega (arith, later.2)) row
                  later.3))
              (λ c h. elim (dec_lt 0 c.0) [
                | yes positive ↦
                    (c, inr (c.0, positive, omega (arith, h.0), (refl, h.1, h.2)), refl, refl)
                | no zero_row ↦ (c, inl (omega arith, h.1, h.2), refl, refl)
              ])
              (λ c either. elim either [
                | inl row ↦ (c, (omega (arith, row.0), row.1, row.2), refl)
                | inr later ↦ (c, (omega (arith, later.2, later.3), later.3.1, later.3.2), refl)
              ]),
        )
