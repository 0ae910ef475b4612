-- ===== src/Execution/Batches.antt =====
-- The executions of `direct_plan`, `loop_plan` and `fft1_plan`: src/planner/strategies/direct.hpp,
-- loop.hpp and fft1.hpp.
use perf_libs_fft.Base.{
  ℕ, ◌*◌, ◌≤◌, ◌<◌, ◌≡◌, ◌≢◌, refl, sym, subst, ap, ◌∙◌, Bool, Bool-cases, inl, inr, arith,
}
use perf_libs_fft.Base.Int.{ℤ, pos, ◌+ℤ◌, ◌*ℤ◌, int_eq, int_eq_iff, +ℤ_assoc}
use perf_libs_fft.Base.Int.Ring.{zero-*ℤ, *ℤ-zero, zero-+ℤ, +ℤ-zero, +ℤ_injective}
use perf_libs_fft.Execution.{Region, inside, Pointer, advance, Store, read, write, call_n}
use perf_libs_fft.Execution.{order_na}
use perf_libs_fft.Execution.Contract.{
  cell_at, Cells, Apart, IsNKernel, RequestedFor, serves_request, Transforms, Transformed,
}
use perf_libs_fft.Execution.Execute.{Machine, execute}
use perf_libs_fft.Execution.Fills.{
  Fills, put-Fills, AllInside, inside_same, Fills-reindex, Live, Agrees, Agrees-self, repeat-Fills,
  Rounds,
}
use perf_libs_fft.Fourier.Sum.{Numbers, ◌⊗◌, sum}
use perf_libs_fft.Fourier.Dft.{dft, dft_congr, IsRoots}
use perf_libs_fft.Planner.Plans.{Plan, direct_plan, loop_plan, fft1_plan}
use perf_libs_fft.Planner.Problem.{Direction}
use perf_libs_fft.Planner.Run.{ok}

-- The element of a row, from the pointer to the row.
pub row_address : (o i d e : ℤ) (k : ℤ) → o +ℤ i *ℤ d +ℤ (pos 0 *ℤ e +ℤ k) ≡ o +ℤ (i *ℤ d +ℤ k)
row_address o i d e k =
    ap (λ t. o +ℤ i *ℤ d +ℤ (t +ℤ k)) (zero-*ℤ e)
    ∙ ap (λ t. o +ℤ i *ℤ d +ℤ t) (zero-+ℤ k)
    ∙ +ℤ_assoc o (i *ℤ d) k

-- The first element of a row is where the pointer to the row points.
pub first_address : (o d e : ℤ) (i b k : ℕ) → b ≡ i → k < 1 → cell_at o d e b k ≡ o +ℤ pos i *ℤ d
first_address o d e i b k row h =
    let first : k ≡ 0 = omega arith in
    ap (λ t. o +ℤ (pos b *ℤ d +ℤ t)) (ap (λ (m : ℕ). pos m *ℤ e) first ∙ zero-*ℤ e)
    ∙ ap (λ t. o +ℤ t) (+ℤ-zero (pos b *ℤ d))
    ∙ ap (λ (m : ℕ). o +ℤ pos m *ℤ d) row

-- One row of a batch.
abbrev pub Row : ℕ → ℕ → ℕ × ℕ → Type 0
Row n i c = (c.0 ≡ i) × (c.1 < n)

module _ {C Other : Type 0} ⦃numbers : Numbers C⦄ (machine : Machine C Other)
    (root : ℕ → ℕ → C) where
  pub direct_plan-Transforms :
      (n : ℕ) (istride ostride : ℤ) (howmany : ℕ) (idist odist : ℤ) (dir : Direction)
      (want_sme : Bool)
      → IsNKernel root n
          (RequestedFor (pos howmany) istride ostride idist odist)
          (machine.kernels
            (pos n)
            (pos howmany)
            istride
            ostride
            idist
            odist
            dir
            order_na
            want_sme).ab_n
      → Transforms root machine.element_size
          (execute machine
            (direct_plan (pos n) istride ostride (pos howmany) idist odist dir want_sme))
          n
          istride
          ostride
          howmany
          idist
          odist
  unfolding execute call_n
  direct_plan-Transforms n istride ostride howmany idist odist dir want_sme kernel x y s lx ly d fr
        apart within =
      (
        call_n machine.element_size
            (machine.kernels (pos n) (pos howmany) istride ostride idist odist dir order_na
              want_sme).ab_n
            x y istride ostride (pos howmany) idist odist s,
        refl,
        put-Fills machine.element_size s y.region _
            (kernel.transforms (s.memory x.region) x.offset (s.memory y.region) y.offset istride
              ostride howmany idist odist (serves_request istride ostride idist odist howmany)
              apart)
            within,
      )

  module _ (x y : Pointer) (s t : Store C) (n : ℕ) (istride ostride : ℤ) (howmany : ℕ)
      (idist odist : ℤ) (lx : Live s.depth x.region) (d : x.region ≢ y.region)
      (agrees : Agrees s t y.region) where
    -- A transform of one row, in the midst of the batch.
    pub one_transform :
        (i : ℕ) {t' : Store C}
        → Fills t t' y.region
            (Cells 1 n)
            (λ c. cell_at (y.offset +ℤ pos i *ℤ odist) (pos 0) ostride c.0 c.1)
            (λ c.
              dft root n
                (λ j.
                  t.memory x.region (cell_at (x.offset +ℤ pos i *ℤ idist) (pos 0) istride c.0 j))
                c.1)
        → Fills t t' y.region
            (Row n i)
            (λ c. cell_at y.offset odist ostride c.0 c.1)
            (λ c. dft root n (λ j. s.memory x.region (cell_at x.offset idist istride c.0 j)) c.1)
    one_transform i f =
        Fills-reindex (Row n i) _ _ f
          (λ c h. (
            (0, c.1),
            (omega arith, h.1),
            row_address y.offset (pos i) odist (pos 0) (pos c.1 *ℤ ostride)
                ∙ ap (λ (b : ℕ). cell_at y.offset odist ostride b c.1) (sym h.0),
            dft_congr root n _ _ c.1 (λ j _.
                agrees.others x.region lx d _
                ∙ ap (s.memory x.region) (
                    row_address x.offset (pos i) idist (pos 0) (pos j *ℤ istride)
                    ∙ ap (λ (b : ℕ). cell_at x.offset idist istride b j) (sym h.0))),
          ))
          (λ c h. (
            (i, c.1),
            (refl, h.1),
            ap (λ (b : ℕ). cell_at (y.offset +ℤ pos i *ℤ odist) (pos 0) ostride b c.1)
                  (only c.0 h.0)
                ∙ row_address y.offset (pos i) odist (pos 0) (pos c.1 *ℤ ostride),
          ))
      where
        only : (b : ℕ) → b < 1 → b ≡ 0
        only b h = omega arith

  -- Elements of different rows are apart.
  pub different_rows :
      (n : ℕ) (offset odist ostride : ℤ) (howmany : ℕ)
      → Apart howmany n odist ostride
      → (i j : ℕ) (c e : ℕ × ℕ) → i < j
      → j < howmany
      → Row n i c
      → Row n j e
      → cell_at offset odist ostride c.0 c.1 ≢ cell_at offset odist ostride e.0 e.1
  different_rows n offset odist ostride howmany apart i j c e h l hc he same =
      let (rows, _) =
        apart c.0 c.1 e.0 e.1 (omega (arith, hc.0), hc.1) (omega (arith, he.0), he.1)
          (+ℤ_injective offset _ _ same) in
      omega (arith, hc.0, he.0)

  pub row-Apart :
      (n : ℕ) (odist ostride : ℤ) (howmany i : ℕ)
      → i < howmany
      → Apart howmany n odist ostride
      → Apart 1 n (pos 0) ostride
  row-Apart n odist ostride howmany i h apart b k b' k' hc hc' same =
      let inner : pos k *ℤ ostride ≡ pos k' *ℤ ostride = sym (alone b k) ∙ same ∙ alone b' k' in
      let (_, columns) =
        apart i k i k' (h, hc.1) (h, hc'.1) (ap (λ t. pos i *ℤ odist +ℤ t) inner) in
      (omega arith, columns)
    where
      alone : (b k : ℕ) → pos b *ℤ pos 0 +ℤ pos k *ℤ ostride ≡ pos k *ℤ ostride
      alone b k = ap (λ t. t +ℤ pos k *ℤ ostride) (*ℤ-zero (pos b)) ∙ zero-+ℤ (pos k *ℤ ostride)

  -- If a batch is inside a region, so is each row of it, in the midst of the execution.
  pub row-AllInside :
      (x y : Pointer) (s t : Store C) (n : ℕ) (odist ostride : ℤ) (howmany : ℕ)
      → Live s.depth y.region
      → Agrees s t y.region
      → AllInside machine.element_size s.sizes y.region
          (Cells howmany n)
          (λ c. cell_at y.offset odist ostride c.0 c.1)
      → (i : ℕ) → i < howmany
      → AllInside machine.element_size t.sizes y.region
          (Cells 1 n)
          (λ c. cell_at (y.offset +ℤ pos i *ℤ odist) (pos 0) ostride c.0 c.1)
  row-AllInside x y s t n odist ostride howmany ly agrees within i h c cell =
      inside_same machine.element_size s.depth s.sizes t.sizes y.region ly agrees.sizes _
      ∙ ap (inside machine.element_size s.sizes y.region) (
          ap (λ (b : ℕ). cell_at (y.offset +ℤ pos i *ℤ odist) (pos 0) ostride b c.1)
            (first_of c.0 cell.0)
          ∙ row_address y.offset (pos i) odist (pos 0) (pos c.1 *ℤ ostride))
      ∙ within (i, c.1) (h, cell.1)
    where
      first_of : (b : ℕ) → b < 1 → b ≡ 0
      first_of b less = omega arith

  -- All rows of a batch are its cells.
  all_rows :
      {t t' : Store C} {q : Region} {n : ℕ} {at : ℕ × ℕ → ℤ} {value : ℕ × ℕ → C} (howmany : ℕ)
      → Fills t t' q (Rounds (Row n) 0 howmany) at value
      → Fills t t' q (Cells howmany n) at value
  all_rows howmany f =
      Fills-reindex (Cells howmany _) _ _ f
        (λ c h. (c, (c.0, omega arith, omega (arith, h.0), (refl, h.1)), refl, refl))
        (λ c row. (c, (omega (arith, row.2, row.3), row.3.1), refl))

  -- If the plan that a loop repeats computes one transform, the loop computes the whole batch: from
  -- any store whose frames are in order, between pointers into two live regions, and with an output
  -- whose elements are inside their region and have addresses of their own, `loop_plan::execute` ends, each element of the output
  -- is the transform of the input, and all other live memory is as it was.
  pub loop_plan-Transforms :
      (n : ℕ) (istride ostride : ℤ) (howmany : ℕ) (idist odist : ℤ) (inner : Plan Other)
      → Transforms root machine.element_size
          (execute machine inner)
          n
          istride
          ostride
          1
          (pos 0)
          (pos 0)
      → (x y : Pointer) (s : Store C) → Live s.depth x.region
      → Live s.depth y.region
      → x.region ≢ y.region
      → s.depth ≤ s.count
      → Apart howmany n odist ostride
      → AllInside machine.element_size s.sizes y.region
          (Cells howmany n)
          (λ c. cell_at y.offset odist ostride c.0 c.1)
      → Transformed root
          (execute machine (loop_plan (pos howmany) idist odist inner))
          n
          istride
          ostride
          howmany
          idist
          odist
          x
          y
          s
  unfolding execute
  loop_plan-Transforms n istride ostride howmany idist odist inner transforms x y s lx ly d fr apart
        within =
      let q = y.region in
      let at = λ (c : ℕ × ℕ). cell_at y.offset odist ostride c.0 c.1 in
      let (s', run, f) =
        repeat-Fills s q (Row n) at
          (λ c. dft root n (λ j. s.memory x.region (cell_at x.offset idist istride c.0 j)) c.1)
          (λ i t. execute machine inner (advance x (pos i *ℤ idist)) (advance y (pos i *ℤ odist)) t)
          0 howmany
          (λ i j c e h l. different_rows n y.offset odist ostride howmany apart i j c e h l)
          (λ i t _ h agrees.
            (let (t', run, f) =
                transforms (advance x (pos i *ℤ idist)) (advance y (pos i *ℤ odist)) t
                  (subst (λ (m : ℕ). Live m x.region) (sym agrees.depth) lx)
                  (subst (λ (m : ℕ). Live m y.region) (sym agrees.depth) ly) d agrees.framed
                  (row-Apart n odist ostride howmany i h apart)
                  (row-AllInside x y s t n odist ostride howmany ly agrees within i h) in
              (
                t',
                run,
                one_transform x y s t n istride ostride howmany idist odist lx d agrees i f,
              )))
          howmany 0 s (omega arith) (omega arith) (Agrees-self s q fr) in
      (s', run, all_rows howmany f)

  -- The transform of one element is the element.
  dft-one : {whole : ℕ} → IsRoots whole root → (x : ℕ → C) (k : ℕ) → k < 1 → dft root 1 x k ≡ x 0
  unfolding dft sum
  dft-one roots x k h =
      let first : k ≡ 0 = omega arith in
      let angle : 0 * k ≡ 0 = omega arith in
      numbers.zero-add _
      ∙ ap (λ (e : ℕ). root 1 e ⊗ x 0) angle
      ∙ ap (λ t. t ⊗ x 0) (roots.root_zero 1)
      ∙ numbers.one-mul (x 0)

  -- An assignment fills one cell.
  write-Fills :
      (size : ℕ) (p : Pointer) (value : C) (s : Store C) {I : Type 0} (In : I → Type 0) (at : I → ℤ)
      (value_at : I → C)
      → ((c : I) → In c → (at c ≡ p.offset) × (value_at c ≡ value))
      → (c : I) × In c
      → AllInside size s.sizes p.region In at
      → Fills s (write size p value s) p.region In at value_at
  unfolding write
  write-Fills size p value s In at value_at only some_cell within =
      put-Fills size s p.region _
        (record {
          values = λ c h.
              (let (place, same) = only c h in
                rw (place, (int_eq_iff p.offset p.offset).1 refl) (sym same));
          rest = λ a h. elim (Bool-cases (int_eq a p.offset)) [
            | inl e ↦ absurd (
                h some_cell.0 some_cell.1
                  ((int_eq_iff a p.offset).0 e ∙ sym (only some_cell.0 some_cell.1).0))
            | inr e ↦ rw e
          ];
        })
        within

  pub fft1_plan-Transforms :
      {whole : ℕ} (istride ostride : ℤ) (howmany : ℕ) (idist odist : ℤ)
      → IsRoots whole root
      → Transforms root machine.element_size
          (execute machine (fft1_plan (pos howmany) idist odist))
          1
          istride
          ostride
          howmany
          idist
          odist
  unfolding execute read
  fft1_plan-Transforms istride ostride howmany idist odist roots x y s lx ly d fr apart within =
      let q = y.region in
      let at = λ (c : ℕ × ℕ). cell_at y.offset odist ostride c.0 c.1 in
      let value = λ (c : ℕ × ℕ).
        dft root 1 (λ j. s.memory x.region (cell_at x.offset idist istride c.0 j)) c.1 in
      let (s', run, f) =
        repeat-Fills s q (Row 1) at value
          (λ h t. ok (
            write machine.element_size (advance y (pos h *ℤ odist))
              (read (advance x (pos h *ℤ idist)) t) t))
          0 howmany
          (λ i j c e h l. different_rows 1 y.offset odist ostride howmany apart i j c e h l)
          (λ i t _ h agrees. (
            write machine.element_size (advance y (pos i *ℤ odist))
                (read (advance x (pos i *ℤ idist)) t) t,
            refl,
            write-Fills machine.element_size (advance y (pos i *ℤ odist)) _ t (Row 1 i) at value
                (λ c row. (
                  first_address y.offset odist ostride i c.0 c.1 row.0 row.1,
                  dft-one roots _ c.1 row.1
                      ∙ ap (s.memory x.region)
                          (first_address x.offset idist istride i c.0 0 row.0 (omega arith))
                      ∙ sym (agrees.others x.region lx d (x.offset +ℤ pos i *ℤ idist)),
                ))
                ((i, 0), (refl, omega arith))
                (λ c row.
                  inside_same machine.element_size s.depth s.sizes t.sizes q ly agrees.sizes (at c)
                  ∙ within c (omega (arith, row.0, h), row.1)),
          ))
          howmany 0 s (omega arith) (omega arith) (Agrees-self s q fr) in
      (s', run, all_rows howmany f)
