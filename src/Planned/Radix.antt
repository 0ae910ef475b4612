-- ===== src/Planned/Radix.antt =====
-- The strategies `cooley_tukey_ab` and `cooley_tukey_ac` of
-- src/planner/strategies/cooley_tukey.hpp make plans that compute what they are asked for.
use Prim.Native.Nat.{◌∣◌}
use native.Mathlib.Nat.{div-mul_cancel, dvd_iff_mod-eq-zero, dvd_trans, dvd-mul_right}
use perf_libs_fft.Base.{
  ◌&&◌, ℕ, zero, suc, ◌+◌, ◌*◌, ◌/◌, ◌%◌, ◌≤◌, ◌<◌, ◌≡◌, refl, sym, subst, subst₂, ap, ◌∙◌, Bool,
  true, List, arith,
}
use perf_libs_fft.Base.Int.{ℤ, pos, pos_part, int_eq_iff, ◌*ℤ◌}
use perf_libs_fft.Base.Int.Ring.{pos_injective, pos-mul}
use perf_libs_fft.Execution.Contract.{Transforms, Provides, buffer_limit, buffer_limit-fits}
use perf_libs_fft.Execution.CooleyTukey.{cooley_tukey_ab-Transforms}
use perf_libs_fft.Execution.CooleyTukeyBatch.{cooley_tukey_ac-Transforms}
use perf_libs_fft.Execution.Execute.{Machine, execute}
use perf_libs_fft.Factorize.Factors.{is_base_n}
use perf_libs_fft.Fourier.Sum.{Numbers}
use perf_libs_fft.Fourier.Dft.{IsRoots}
use perf_libs_fft.Planned.{Fits, is_plain, IsSound}
use perf_libs_fft.Planned.Strategies.{asked, complex_problem, in_time}
use perf_libs_fft.Planner.CooleyTukey.{
  ab_is_applicable, ac_is_applicable, cooley_tukey_ab_make_plan, cooley_tukey_ac_make_plan,
}
use perf_libs_fft.Planner.Plans.{Plan, cooley_tukey_plan, ab_twid_direct_plan, ac_twid_direct_plan}
use perf_libs_fft.Planner.Policy.{contains, allow_sme}
use perf_libs_fft.Planner.Problem.{Problem, ElementType, Direction, make_problem}
use perf_libs_fft.Planner.Search.{Strategy}

-- The length is a product with the radix.
record IsRadix (r n : ℕ) : Type 0 where
  quotient : n / r * r ≡ n
  some : 0 < n / r

quotient-positive : (q r n : ℕ) → q * r ≡ n → 0 < n → 0 < q
quotient-positive zero r n e h = absurd (grind (arith, e, h))
quotient-positive (suc q) r n e h = omega arith

radix : (r n : ℕ) → 0 < n → n % r ≡ 0 → IsRadix r n
radix r n some rest =
    let whole = div-mul_cancel r ((dvd_iff_mod-eq-zero r).1 rest) in
    record { quotient = whole; some = quotient-positive (n / r) r n whole some }

factor-within : (a b m : ℕ) → 1 ≤ b → a * b ≤ m → a ≤ m
factor-within a zero m some within = absurd (omega (arith, some))
factor-within a (suc b) m some within =
    let more : a * suc b ≡ a + a * b = omega arith in omega (arith, within, more)

module _ {C Other World : Type 0} ⦃numbers : Numbers C⦄ (machine : Machine C Other)
    (kernel_ns : List ℕ) (whole : ℕ) (roots : (dir : Direction) → IsRoots whole (machine.point dir))
    (kernels : (n : ℕ) (dir : Direction) (want_sme : Bool)
      → is_base_n n kernel_ns ≡ true
      → Provides (machine.point dir) n (λ howmany istride ostride idist odist order.
        machine.kernels (pos n) howmany istride ostride idist odist dir order want_sme))
    (above : (n : ℕ) → is_base_n n kernel_ns ≡ true → 0 < n) (x y : ElementType)
    (both : (x.is_complex ≡ true) × (y.is_complex ≡ true)) (r : ℕ)
    (planner : Strategy World (Plan Other)) (sound : IsSound machine whole planner) where
  plain_stage : (stage1 : Plan Other) → (is_plain stage1 && true) ≡ true → is_plain stage1 ≡ true
  plain_stage stage1 both_plain = ground arith

  ab_test :
      (p : Problem) (n : ℕ)
      → p.n ≡ pos n
      → ab_is_applicable kernel_ns x y r planner p ≡ true
      → (r < n) × (n % r ≡ 0) × (is_base_n r kernel_ns ≡ true) × (p.howmany ≡ pos 1)
  unfolding ab_is_applicable
  ab_test p n length test =
      let tests = rw length at test in
      (ground arith, ground arith, ground arith, (int_eq_iff p.howmany (pos 1)).0 (ground arith))

  -- What a strategy asks the planner for: transforms of the quotient, `rows` of them.
  part-Fits :
      (n rows : ℕ) (istride ostride howmany idist odist : ℤ) (dir : Direction) (a : ℤ)
      → a ≡ pos n
      → howmany ≡ pos rows
      → 1 ≤ rows
      → n / r * rows ≤ (buffer_limit machine.element_size)
      → n ∣ whole
      → IsRadix r n
      → Fits machine.element_size whole
          (make_problem x y (pos (pos_part a / r)) istride ostride howmany idist odist dir)
  unfolding make_problem
  part-Fits n rows istride ostride howmany idist odist dir a length count some size d split =
      record {
        length = n / r;
        count = rows;
        complex =
            complex_problem x y both (pos (pos_part a / r)) istride ostride howmany idist odist dir;
        n = ap (λ (z : ℤ). pos (pos_part z / r)) length;
        howmany = count;
        some_count = some;
        size = size;
        divides =
            dvd_trans (n / r)
              (subst (λ (m : ℕ). n / r ∣ m) split.quotient (dvd-mul_right (n / r) r)) d;
      }

  pub cooley_tukey_ab-IsSound :
      IsSound machine whole (cooley_tukey_ab_make_plan kernel_ns x y r planner)
  unfolding cooley_tukey_ab_make_plan make_problem is_plain
  cooley_tukey_ab-IsSound p policy s t plan fits e plain n howmany length count =
      let want_sme = contains policy allow_sme in
      let k = n / r in
      let root = machine.point p.dir in
      let (test, stage1, s', run, is) = asked _ _ _ plan s t (rw (in_time x y both) at e) in
      let (less, rest, base, one) = ab_test p n length test in
      let whole_length = radix r n (omega (arith, less)) rest in
      let same : fits.length ≡ n = pos_injective _ _ (sym fits.n ∙ length) in
      let single : 1 ≡ howmany = pos_injective _ _ (sym one ∙ count) in
      let d : n ∣ whole = subst (λ (m : ℕ). m ∣ whole) same fits.divides in
      let part = ap (λ (z : ℤ). pos (pos_part z / r)) length in
      let within =
        factor-within fits.length fits.count (buffer_limit machine.element_size) fits.some_count
          fits.size in
      let size : k * r ≤ (buffer_limit machine.element_size) =
        subst (λ (m : ℕ). m ≤ (buffer_limit machine.element_size))
          (same ∙ sym whole_length.quotient) within in
      let planned =
        sound
          (make_problem x y (pos (pos_part p.n / r)) (p.istride *ℤ pos r) (pos r) (pos r) p.istride
            (pos 1) p.dir)
          policy s s' stage1
          (part-Fits n r (p.istride *ℤ pos r) (pos r) (pos r) p.istride (pos 1) p.dir p.n length
            refl (above r base) size d whole_length)
          run (plain_stage stage1 (subst (λ (q : Plan Other). is_plain q ≡ true) (sym is) plain)) k
          r part refl in
      let computes =
        cooley_tukey_ab-Transforms machine p.dir (roots p.dir) k r
          (subst (λ (m : ℕ). m ∣ whole) (sym whole_length.quotient) d) whole_length.some
          (above r base) size p.istride p.ostride p.idist p.odist want_sme stage1
          (kernels r p.dir want_sme base) planned in
      let of_length =
        subst
          (λ (m : ℕ).
            Transforms root machine.element_size
              (execute machine (
                cooley_tukey_plan (pos m) (pos 1) stage1 (
                  ab_twid_direct_plan (pos r) (pos 1) (p.ostride *ℤ pos k) (pos k) (pos r) p.ostride
                    p.dir want_sme)))
              m p.istride p.ostride 1 p.idist p.odist)
          whole_length.quotient computes in
      let of_problem =
        subst
          (λ (a : ℤ).
            Transforms root machine.element_size
              (execute machine (
                cooley_tukey_plan a (pos 1) stage1 (
                  ab_twid_direct_plan (pos r) (pos 1) (p.ostride *ℤ pos (pos_part a / r))
                    (pos (pos_part a / r)) (pos r) p.ostride p.dir want_sme)))
              n p.istride p.ostride 1 p.idist p.odist)
          (sym length) of_length in
      subst₂
        (λ made (b : ℕ).
          Transforms root machine.element_size (execute machine made) n p.istride p.ostride b
            p.idist p.odist)
        is single of_problem

  ac_test :
      (p : Problem) (n howmany : ℕ)
      → p.n ≡ pos n
      → p.howmany ≡ pos howmany
      → ac_is_applicable kernel_ns x y r planner p ≡ true
      → (r < n)
        × (n % r ≡ 0)
        × (is_base_n r kernel_ns ≡ true)
        × (p.istride ≡ pos howmany *ℤ p.idist)
        × (p.odist ≡ pos 1)
        × (1 < howmany)
  unfolding ac_is_applicable
  ac_test p n howmany length count test =
      let tests = rw (length, count, in_time x y both) at test in
      (
        ground arith,
        ground arith,
        ground arith,
        (int_eq_iff p.istride (pos howmany *ℤ p.idist)).0 (ground arith),
        (int_eq_iff p.odist (pos 1)).0 (ground arith),
        ground arith,
      )

  -- The columns of a batch, and the sizes that they are below.
  batch-within :
      (k n h m : ℕ)
      → k * r ≡ n
      → 0 < n
      → 1 ≤ h
      → n * h ≤ m
      → (k * (h * r) ≤ m) × (k * r * h ≤ m) × (k * r ≤ m) × (h ≤ m)
  batch-within k n h m whole_length some several within =
      let all : k * r * h ≤ m = rw whole_length within in
      let columns : k * (h * r) ≡ k * r * h = omega arith in
      (
        rw columns all,
        all,
        factor-within (k * r) h m several all,
        factor-within h n m some (omega (arith, within)),
      )

  pub cooley_tukey_ac-IsSound :
      IsSound machine whole (cooley_tukey_ac_make_plan kernel_ns x y r planner)
  unfolding cooley_tukey_ac_make_plan make_problem is_plain
  cooley_tukey_ac-IsSound p policy s t plan fits e plain n howmany length count =
      let want_sme = contains policy allow_sme in
      let k = n / r in
      let root = machine.point p.dir in
      let (test, stage1, s', run, is) = asked _ _ _ plan s t (rw (in_time x y both) at e) in
      let (less, rest, base, packed, one, several) = ac_test p n howmany length count test in
      let some : 0 < n = omega (arith, less) in
      let whole_length = radix r n some rest in
      let same : fits.length ≡ n = pos_injective _ _ (sym fits.n ∙ length) in
      let counts : fits.count ≡ howmany = pos_injective _ _ (sym fits.howmany ∙ count) in
      let d : n ∣ whole = subst (λ (m : ℕ). m ∣ whole) same fits.divides in
      let (columns_fit, all_fit, length_fits, batch_fits) =
        batch-within k n howmany (buffer_limit machine.element_size) whole_length.quotient some
          (omega (arith, several))
          (subst₂ (λ (a b : ℕ). a * b ≤ (buffer_limit machine.element_size)) same counts
            fits.size) in
      let part = ap (λ (z : ℤ). pos (pos_part z / r)) length in
      let rows = p.howmany *ℤ pos r in
      let of_rows : rows ≡ pos (howmany * r) =
        ap (λ (z : ℤ). z *ℤ pos r) count ∙ sym (pos-mul howmany r) in
      let some_rows : 1 ≤ howmany * r = grind (arith, above r base, several) in
      let planned =
        sound
          (make_problem x y (pos (pos_part p.n / r)) (p.istride *ℤ pos r) rows rows p.idist (pos 1)
            p.dir)
          policy s s' stage1
          (part-Fits n (howmany * r) (p.istride *ℤ pos r) rows rows p.idist (pos 1) p.dir p.n length
            of_rows some_rows columns_fit d whole_length)
          run (plain_stage stage1 (subst (λ (q : Plan Other). is_plain q ≡ true) (sym is) plain)) k
          (howmany * r) part of_rows in
      let computes =
        cooley_tukey_ac-Transforms machine p.dir (roots p.dir) k r howmany
          (subst (λ (m : ℕ). m ∣ whole) (sym whole_length.quotient) d) whole_length.some
          (above r base) all_fit (buffer_limit-fits machine.element_size _ length_fits).0
          (buffer_limit-fits machine.element_size _ batch_fits).0 p.istride p.ostride p.idist
          want_sme stage1 packed (kernels r p.dir want_sme base)
          (subst
            (λ (b : ℤ).
              Transforms root machine.element_size (execute machine stage1) k (p.istride *ℤ pos r)
                (b *ℤ pos r) (howmany * r) p.idist (pos 1))
            count planned) in
      let of_batch =
        subst₂
          (λ (m : ℕ) (b : ℤ).
            Transforms root machine.element_size
              (execute machine (
                cooley_tukey_plan (pos m) b stage1 (
                  ac_twid_direct_plan (pos r) b (p.ostride *ℤ pos k) (pos k) (b *ℤ pos r) p.ostride
                    b p.dir want_sme)))
              m p.istride p.ostride howmany p.idist (pos 1))
          whole_length.quotient (sym count) computes in
      let of_problem =
        subst₂
          (λ (a o : ℤ).
            Transforms root machine.element_size
              (execute machine (
                cooley_tukey_plan a p.howmany stage1 (
                  ac_twid_direct_plan (pos r) p.howmany (p.ostride *ℤ pos (pos_part a / r))
                    (pos (pos_part a / r)) rows p.ostride p.howmany p.dir want_sme)))
              n p.istride p.ostride howmany p.idist o)
          (sym length) (sym one) of_batch in
      subst
        (λ made.
          Transforms root machine.element_size (execute machine made) n p.istride p.ostride howmany
            p.idist p.odist)
        is of_problem
