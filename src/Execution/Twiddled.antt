-- ===== src/Execution/Twiddled.antt =====
-- The execution of `ab_twid_direct_plan`: src/planner/strategies/cooley_tukey.hpp.
use native.Mathlib.Decide.{dec_lt}
use native.Mathlib.Nat.{zero-add}
use perf_libs_fft.Base.{
  ℕ, zero, suc, ◌+◌, ◌-◌, ◌*◌, ◌/◌, ◌%◌, ◌<◌, ◌≡◌, ◌≢◌, refl, sym, ap, ◌∙◌, Bool, true, false,
  get_or, ltb, lt→ltb, inl, inr, arith,
}
use perf_libs_fft.Base.Int.{ℤ, pos, ◌+ℤ◌, ◌-ℤ◌, ◌*ℤ◌, +ℤ_assoc, int_laws}
use perf_libs_fft.Base.Int.Ring.{zero-*ℤ, right_distrib, one-*ℤ, pos-add}
use perf_libs_fft.Execution.{inside, Pointer, advance, Memory, Store, KernelData, call_n, call_t}
use perf_libs_fft.Execution.Batches.{Row, different_rows, row-Apart}
use perf_libs_fft.Execution.{order_na, order_ab}
use perf_libs_fft.Execution.Contract.{
  cell_at, Cells, Apart, RequestedFor, serves_one, serves_fewer, IsKernelData, Provides,
  stored_twiddle, ab_place,
}
use perf_libs_fft.Execution.Execute.{Machine, twiddles_from, execute_ab_twid}
use perf_libs_fft.Execution.Fills.{
  Fills, put-Fills, AllInside, inside_same, Fills-join, Fills-reindex, Live,
}
use perf_libs_fft.Fourier.Sum.{Numbers, ◌⊗◌}
use perf_libs_fft.Fourier.Dft.{dft, twiddled_dft, dft_congr, IsRoots}
use perf_libs_fft.Planner.Problem.{Direction}
use perf_libs_fft.Twiddles.{TwiddleLayout, ofs_mul, j_start, n1_rows, generate_twiddles}
use perf_libs_fft.Twiddles.Table.{generate_twiddles-at}

module _ {C : Type 0} ⦃numbers : Numbers C⦄ (root : ℕ → ℕ → C) where
  pub twiddled_dft_congr :
      (n : ℕ) (v w : ℕ → C) (x y : ℕ → C) (k : ℕ)
      → ((j : ℕ) → j < n → v j ≡ w j)
      → ((j : ℕ) → j < n → x j ≡ y j)
      → twiddled_dft root n v x k ≡ twiddled_dft root n w y k
  unfolding twiddled_dft
  twiddled_dft_congr n v w x y k factors same =
      dft_congr root n _ _ k (λ j h. ap (λ t. t ⊗ x j) (factors j h) ∙ ap (λ t. w j ⊗ t) (same j h))

  -- Twiddles that are one.
  pub twiddled_dft-ones :
      (n : ℕ) (w x : ℕ → C) (k : ℕ)
      → ((j : ℕ) → j < n → w j ≡ numbers.one)
      → twiddled_dft root n w x k ≡ dft root n x k
  unfolding twiddled_dft
  twiddled_dft-ones n w x k ones =
      dft_congr root n _ _ k (λ j h. ap (λ t. t ⊗ x j) (ones j h) ∙ numbers.one-mul (x j))

module _ {C Other : Type 0} ⦃numbers : Numbers C⦄ (machine : Machine C Other) (dir : Direction)
    {whole : ℕ} (roots : IsRoots whole (machine.point dir)) where
  abbrev root : ℕ → ℕ → C
  root = machine.point dir

  -- The twiddle of input `j` in row `row` of a table of `rows` rows.
  abbrev pub twiddle : ℕ → ℕ → ℕ → ℕ → C
  twiddle n rows row j = root (rows * n) (j * row)

  -- What a twiddle plan computes for element `k` of row `b`, where the rows have their own twiddles.
  abbrev pub twiddled_row : Memory C → ℤ → ℤ → ℤ → ℕ → ℕ → ℕ × ℕ → C
  twiddled_row memory x idist istride n rows c =
      twiddled_dft root n (twiddle n rows c.0) (λ j. memory (cell_at x idist istride c.0 j)) c.1

  twiddle-zero : (n rows row : ℕ) → twiddle n rows row 0 ≡ numbers.one
  twiddle-zero n rows row =
      let angle : 0 * row ≡ 0 = omega arith in
      ap (root (rows * n)) angle ∙ roots.root_zero (rows * n)

  -- A row of the table holds the twiddles of the row after it: the first row has none.
  pub stored_twiddle-twiddle :
      (n rows b j : ℕ) (layout : TwiddleLayout) (place : ℕ → ℕ) (offset : ℕ)
      → 0 < layout.interleave_factor
      → layout.include_unity_row ≡ false
      → suc b < rows
      → j < n
      → ((i : ℕ) → offset + place i ≡ ab_place layout n b i)
      → stored_twiddle (twiddles_from machine dir (pos rows) (pos n) layout offset) place j
        ≡ twiddle n rows (suc b) j
  unfolding twiddles_from
  stored_twiddle-twiddle n rows b zero layout place offset some none hb hj at =
      sym (twiddle-zero n rows (suc b))
  stored_twiddle-twiddle n rows b (suc i) layout place offset some none hb hj at =
      let q = layout.interleave_factor in
      let place' = (b / q * q * (n - 1) + (suc i - 1) * q + b % q) * ofs_mul layout in
      let same : offset + place i ≡ place' =
        at i ∙ ap (λ (k : ℕ). (b / q * q * (n - 1) + k * q + b % q) * ofs_mul layout) (back i) in
      let count : b < n1_rows layout rows = rw none (omega arith) in
      let row : suc i * (j_start layout + b) ≡ suc i * suc b = rw none (omega arith) in
      ap
        (λ (k : ℕ).
          get_or (generate_twiddles (root (rows * n)) machine.padding machine.rotated layout rows n)
            k machine.padding)
        same
      ∙ generate_twiddles-at (root (rows * n)) machine.padding machine.rotated layout rows n b
          (suc i) machine.padding some count (omega arith) hj
      ∙ ap (root (rows * n)) row
    where
      back : (i : ℕ) → i ≡ suc i - 1
      back i = omega arith

  -- The element of the row after a pointer to the first row.
  next_address :
      (o d : ℤ) (b : ℕ) (k : ℤ) → o +ℤ d +ℤ (pos b *ℤ d +ℤ k) ≡ o +ℤ (pos (suc b) *ℤ d +ℤ k)
  next_address o d b k =
      let one_more : pos (suc b) ≡ pos 1 +ℤ pos b = ap pos (omega arith) ∙ pos-add 1 b in
      let row : pos (suc b) *ℤ d ≡ d +ℤ pos b *ℤ d =
        ap (λ t. t *ℤ d) one_more
        ∙ right_distrib (pos 1) (pos b) d
        ∙ ap (λ t. t +ℤ pos b *ℤ d) (one-*ℤ d) in
      +ℤ_assoc o d (pos b *ℤ d +ℤ k)
      ∙ ap (λ t. o +ℤ t) (sym (+ℤ_assoc d (pos b *ℤ d) k) ∙ ap (λ t. t +ℤ k) (sym row))

  -- The element of the first row, whatever the distance of the rows.
  first_row_address : (o e t : ℤ) (b k : ℕ) → b ≡ 0 → cell_at o (pos 0) t 0 k ≡ cell_at o e t b k
  first_row_address o e t b k h =
      ap (λ z. o +ℤ (z +ℤ pos k *ℤ t)) (zero-*ℤ (pos 0) ∙ sym (zero-*ℤ e))
      ∙ ap (λ (m : ℕ). cell_at o e t m k) (sym h)

  module _ (n howmany : ℕ) (istride ostride idist odist : ℤ) (want_sme : Bool) (some : 0 < howmany)
      (kernels : Provides root n (λ howmany istride ostride idist odist order.
        machine.kernels (pos n) howmany istride ostride idist odist dir order want_sme))
      (x y : Pointer) (s : Store C) (lx : Live s.depth x.region) (ly : Live s.depth y.region)
      (d : x.region ≢ y.region) (apart : Apart howmany n odist ostride)
      (within : AllInside machine.element_size s.sizes y.region
        (Cells howmany n)
        (λ c. cell_at y.offset odist ostride c.0 c.1)) where
    abbrev data_n : KernelData C
    data_n = machine.kernels (pos n) (pos 1) istride ostride (pos 1) (pos 1) dir order_na want_sme

    abbrev data_t : KernelData C
    data_t = machine.kernels (pos n) (pos howmany) istride ostride idist odist dir order_ab want_sme

    promised_n :
        IsKernelData root n order_na (RequestedFor (pos 1) istride ostride (pos 1) (pos 1)) data_n
    promised_n = kernels (pos 1) istride ostride (pos 1) (pos 1) order_na

    promised_t :
        IsKernelData root n order_ab (RequestedFor (pos howmany) istride ostride idist odist) data_t
    promised_t = kernels (pos howmany) istride ostride idist odist order_ab

    abbrev at : ℕ × ℕ → ℤ
    at c = cell_at y.offset odist ostride c.0 c.1

    abbrev value : ℕ × ℕ → C
    value = twiddled_row (s.memory x.region) x.offset idist istride n howmany

    abbrev first_row : Store C
    first_row =
        call_n machine.element_size data_n.ab_n x y istride ostride (pos 1) (pos 0) (pos 0) s

    -- The rows from the second on.
    abbrev Later : ℕ × ℕ → Type 0
    Later c = (0 < c.0) × (c.0 < howmany) × (c.1 < n)

    first_row-Fills : Fills s first_row y.region (Row n 0) at value
    unfolding call_n
    first_row-Fills =
        Fills-reindex (Row n 0) at value
          (put-Fills machine.element_size s y.region _
            ((promised_n.plain refl).transforms (s.memory x.region) x.offset (s.memory y.region)
              y.offset istride ostride 1 (pos 0) (pos 0)
              (serves_one istride ostride (pos 1) (pos 1) (pos 0) (pos 0))
              (row-Apart machine root n odist ostride howmany 0 some apart))
            (λ c h.
              ap (inside machine.element_size s.sizes y.region) (at_first c.0 c.1 h.0)
              ∙ within (0, c.1) (some, h.1)))
          (λ c h. (
            (0, c.1),
            (omega arith, h.1),
            first_row_address y.offset odist ostride c.0 c.1 h.0,
            dft_congr root n _ _ c.1 (λ j _.
                  ap (s.memory x.region) (first_row_address x.offset idist istride c.0 j h.0))
                ∙ sym (twiddled_dft-ones root n _ _ c.1 (λ j _. no_twiddle j c.0 h.0)),
          ))
          (λ c h. ((0, c.1), (refl, h.1), at_first c.0 c.1 h.0))
      where
        no_twiddle : (j b : ℕ) → b ≡ 0 → twiddle n howmany b j ≡ numbers.one
        no_twiddle j b h =
            let angle : j * b ≡ 0 = rw h (omega arith) in
            ap (root (howmany * n)) angle ∙ roots.root_zero (howmany * n)

        only : (b : ℕ) → b < 1 → b ≡ 0
        only b h = omega arith

        at_first : (b k : ℕ) → b < 1 → cell_at y.offset (pos 0) ostride b k ≡ at (0, k)
        at_first b k h =
            ap (λ (m : ℕ). cell_at y.offset (pos 0) ostride m k) (only b h)
            ∙ first_row_address y.offset odist ostride 0 k refl

    -- What the kernel computes for a row of its own is what belongs to the row after it.
    later_value :
        (w : ℕ → C) (b k : ℕ)
        → w ≡ twiddles_from machine dir (pos howmany) (pos n) data_t.twid_layout 0
        → suc b < howmany
        → twiddled_dft root n
            (stored_twiddle w (ab_place data_t.twid_layout n b))
            (λ j. first_row.memory x.region (cell_at (x.offset +ℤ idist) idist istride b j))
            k
          ≡ value (suc b, k)
    later_value w b k table h =
        twiddled_dft_congr root n _ _ _ _ k
          (λ j hj.
            ap (λ v. stored_twiddle v (ab_place data_t.twid_layout n b) j) table
            ∙ stored_twiddle-twiddle n howmany b j data_t.twid_layout
                (ab_place data_t.twid_layout n b) 0 promised_t.some_rows promised_t.no_unity h hj
                (λ i. zero-add _))
          (λ j hj.
            first_row-Fills.others x.region lx d _
            ∙ ap (s.memory x.region) (next_address x.offset idist b (pos j *ℤ istride)))

    not_one : 1 < howmany → howmany ≢ 1
    not_one more one = omega (arith, more, one)

    following-Fills :
        (w : ℕ → C)
        → 1 < howmany
        → w ≡ twiddles_from machine dir (pos howmany) (pos n) data_t.twid_layout 0
        → Fills first_row
            (call_t machine.element_size data_t.ab_t_dit
              (advance x idist)
              (advance y odist)
              istride
              ostride
              w
              (pos (howmany - 1))
              idist
              odist
              first_row)
            y.region
            Later
            at
            value
    unfolding call_t
    following-Fills w more table =
        Fills-reindex Later at value
          (put-Fills machine.element_size first_row y.region _
            ((promised_t.ab refl).transforms (first_row.memory x.region) (x.offset +ℤ idist)
              (first_row.memory y.region) (y.offset +ℤ odist) istride ostride w (howmany - 1) idist
              odist
              (serves_fewer istride ostride idist odist howmany (howmany - 1) (omega arith)
                (not_one more))
              (λ b k b' k' c c' e.
                apart b k b' k' (omega (arith, c.0), c.1) (omega (arith, c'.0), c'.1) e))
            (λ c h.
              inside_same machine.element_size s.depth s.sizes first_row.sizes y.region ly
                first_row-Fills.sizes _
              ∙ ap (inside machine.element_size s.sizes y.region)
                  (next_address y.offset odist c.0 (pos c.1 *ℤ ostride))
              ∙ within (suc c.0, c.1) (omega (arith, h.0), h.1)))
          (λ c h.
            (let back : suc (c.0 - 1) ≡ c.0 = omega (arith, h.0) in
              (
                (c.0 - 1, c.1),
                (omega (arith, h.0, h.1), h.2),
                next_address y.offset odist (c.0 - 1) (pos c.1 *ℤ ostride)
                    ∙ ap (λ (m : ℕ). at (m, c.1)) back,
                later_value w (c.0 - 1) c.1 table (omega (arith, h.0, h.1))
                    ∙ ap (λ (m : ℕ). value (m, c.1)) back,
              )))
          (λ c h. (
            (suc c.0, c.1),
            (omega arith, omega (arith, h.0), h.1),
            next_address y.offset odist c.0 (pos c.1 *ℤ ostride),
          ))

    pub execute_ab_twid-Fills :
        Fills s
          (execute_ab_twid machine
            (pos n)
            istride
            ostride
            (pos howmany)
            idist
            odist
            dir
            want_sme
            x
            y
            s)
          y.region
          (Cells howmany n)
          at
          value
    unfolding execute_ab_twid
    execute_ab_twid-Fills = elim (dec_lt 1 howmany) [
      | yes more ↦
          let test : ltb 1 (howmany + 0) ≡ true = lt→ltb 1 (howmany + 0) (omega arith) in
          let w = twiddles_from machine dir (pos howmany) (pos n) data_t.twid_layout 0 in
          rw (test, count more)
            (Fills-reindex (Cells howmany n) at value
              (Fills-join first_row-Fills (following-Fills w more refl) (λ c e row later.
                different_rows machine root n y.offset odist ostride howmany apart 0 e.0 c e later.0
                  later.1 row (refl, later.2)))
              (λ c h. elim (dec_lt 0 c.0) [
                | yes positive ↦ (c, inr (positive, h.0, h.1), refl, refl)
                | no zero_row ↦ (c, inl (omega arith, h.1), refl, refl)
              ])
              (λ c either. elim either [
                | inl row ↦ (c, (omega (arith, row.0), row.1), refl)
                | inr later ↦ (c, (later.1, later.2), refl)
              ]))
      | no one ↦
          let test : ltb 1 (howmany + 0) ≡ false = ground arith in
          rw test (
            Fills-reindex (Cells howmany n) at value first_row-Fills
              (λ c h. (c, (omega (arith, h.0), h.1), refl, refl))
              (λ c row. (c, (omega (arith, row.0), row.1), refl)))
    ]
      where
        count : 1 < howmany → pos howmany -ℤ pos 1 ≡ pos (howmany - 1)
        count h = omega int_laws
