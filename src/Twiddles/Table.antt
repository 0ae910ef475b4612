-- ===== src/Twiddles/Table.antt =====
-- Where a factor stands in the table, and how long the table is: src/generate_twiddles.hpp.
use native.Mathlib.Nat.{mod-lt, div-add-mod'}
use perf_libs_fft.Base.{
  ℕ, zero, suc, ◌+◌, ◌-◌, ◌*◌, ◌/◌, ◌%◌, ◌≤◌, ◌<◌, ◌≡◌, refl, ap, ◌∙◌, inl, inr, [], ◌++◌, length,
  length-append, get_or, ltb, lt→ltb, Bool-cases, arith,
}
use native.Mathlib.Decide.{dec_lt, dec_le}
use mathlib.Core.Path.{ap₂}
use perf_libs_fft.Parallel.{iround, iround_div}
use perf_libs_fft.Parallel.Split.{iround-least}
use perf_libs_fft.Twiddles.Block.{get_or-left, get_or-right, inside, length-columns, columns-at}
use perf_libs_fft.Twiddles.{
  TwiddleLayout, ofs_mul, j_start, n1_rows, value, columns, rows, generate_twiddles,
}

-- The least multiple of `q` that is not below `n`.
iround-of_multiple : (n q k : ℕ) → 0 < q → n ≤ k * q → k * q < n + q → iround n q ≡ k * q
iround-of_multiple n q k some low high =
    let (e, low', high') = iround-least n q some in
    let same : iround_div n q ≡ k = grind arith in e ∙ ap (λ (t : ℕ). t * q) same

iround-none : (q : ℕ) → 0 < q → iround 0 q ≡ 0
iround-none q some = iround-of_multiple 0 q 0 some (omega arith) (omega arith) ∙ (omega arith)

-- A row block on.
iround-step : (n j q : ℕ) → 0 < q → j < n → iround (n - j) q ≡ q + iround (n - (j + q)) q
iround-step n j q some h =
    let (e, low, high) = iround-least (n - (j + q)) q some in
    let d = iround_div (n - (j + q)) q in
    elim (dec_le n (j + q)) [
      | yes last ↦
          let over : n - (j + q) ≡ 0 = omega arith in
          iround-of_multiple (n - j) q 1 some (omega arith) (omega arith)
          ∙ (omega (arith, ap (λ (t : ℕ). iround t q) over, iround-none q some))
      | no more ↦
          iround-of_multiple (n - j) q (suc d) some (omega (arith, e, low)) (omega (arith, e, high))
          ∙ (omega (arith, e))
    ]

module _ {ℓ} {W : Type ℓ} (point : ℕ → W) (padding : W) (rotated : W → W) (layout : TwiddleLayout)
    (n1 : ℕ) where
  abbrev here_value : ℕ → ℕ → W
  here_value = value point padding rotated layout n1

  abbrev factor : ℕ
  factor = ofs_mul layout

  abbrev q : ℕ
  q = layout.interleave_factor

  rows-more :
      (fuel n2 j : ℕ)
      → j < n1
      → rows point padding rotated layout n1 (suc fuel) n2 j
        ≡ columns point padding rotated layout n1 (n2 - 1) 1 j
          ++ rows point padding rotated layout n1 fuel n2 (j + q)
  unfolding rows
  rows-more fuel n2 j h = rw (lt→ltb j n1 h, rows)

  rows-none : (fuel n2 j : ℕ) → n1 ≤ j → rows point padding rotated layout n1 fuel n2 j ≡ []
  unfolding rows
  rows-none zero n2 j h = refl
  rows-none (suc fuel) n2 j h = elim (Bool-cases (ltb j n1)) [
    | inl more ↦ absurd (ground arith)
    | inr done ↦ rw (done, rows)
  ]

  -- The same in the row block `B` of those from `j` on.
  rows-at :
      (fuel n2 j B c b : ℕ) (d : W)
      → n1 ≤ j + fuel
      → j + B * q < n1
      → c < n2 - 1
      → b < q
      → get_or
          (rows point padding rotated layout n1 fuel n2 j)
          (B * ((n2 - 1) * (q * factor)) + (c * q + b) * factor)
          d
        ≡ here_value (1 + c) (j + B * q + b)
  rows-at zero n2 j B c b d enough h l k = absurd (omega arith)
  rows-at (suc fuel) n2 j zero c b d enough h l k =
      let at : 0 * ((n2 - 1) * (q * factor)) + (c * q + b) * factor ≡ (c * q + b) * factor =
        omega arith in
      let row : j ≡ j + 0 * q = omega arith in
      let block = columns point padding rotated layout n1 (n2 - 1) 1 j in
      rw (rows-more fuel n2 j (omega arith)) (
        ap (λ (k : ℕ). get_or (block ++ rows point padding rotated layout n1 fuel n2 (j + q)) k d)
          at
        ∙ get_or-left block (rows point padding rotated layout n1 fuel n2 (j + q))
            ((c * q + b) * factor) d
            (rw (length-columns point padding rotated layout n1 (n2 - 1) 1 j)
              (inside point padding rotated layout n1 (n2 - 1) c b l k))
        ∙ columns-at point padding rotated layout n1 (n2 - 1) 1 j c b d l k
        ∙ ap (λ (i : ℕ). here_value (1 + c) (i + b)) row)
  rows-at (suc fuel) n2 j (suc B) c b d enough h l k =
      let row : j + q + B * q + b ≡ j + suc B * q + b = omega arith in
      let block = columns point padding rotated layout n1 (n2 - 1) 1 j in
      rw (rows-more fuel n2 j (omega arith)) (
        get_or-right block (rows point padding rotated layout n1 fuel n2 (j + q))
          (suc B * ((n2 - 1) * (q * factor)) + (c * q + b) * factor)
          (B * ((n2 - 1) * (q * factor)) + (c * q + b) * factor) d
          (omega (arith, length-columns point padding rotated layout n1 (n2 - 1) 1 j))
        ∙ rows-at fuel n2 (j + q) B c b d (omega arith) (omega arith) l k
        ∙ ap (here_value (1 + c)) row)

  -- A row `t` of the table, counted from its first, and a column `i` above zero: the factor that
  -- belongs to them stands where the kernels read it.
  pub generate_twiddles-at :
      (n2 t i : ℕ) (d : W)
      → 0 < q
      → t < n1_rows layout n1
      → 0 < i
      → i < n2
      → get_or
          (generate_twiddles point padding rotated layout n1 n2)
          ((t / q * q * (n2 - 1) + (i - 1) * q + t % q) * factor)
          d
        ≡ point (i * (j_start layout + t))
  unfolding generate_twiddles value
  generate_twiddles-at n2 t i d some_rows h l k =
      let block : t / q * q + t % q ≡ t = div-add-mod' t q in
      let row : j_start layout + t / q * q + t % q ≡ j_start layout + t = omega (arith, block) in
      let column : 1 + (i - 1) ≡ i = omega arith in
      let last : j_start layout + t < n1 = ground arith in
      let at : (t / q * q * (n2 - 1) + (i - 1) * q + t % q) * factor
          ≡ t / q * ((n2 - 1) * (q * factor)) + ((i - 1) * q + t % q) * factor =
        omega arith in
      ap (λ (k : ℕ). get_or (rows point padding rotated layout n1 (suc n1) n2 (j_start layout)) k d)
        at
      ∙ rows-at (suc n1) n2 (j_start layout) (t / q) (i - 1) (t % q) d (omega arith)
          (omega (arith, block)) (omega arith) (mod-lt t some_rows)
      ∙ ap₂ here_value column row
      ∙ (rw (lt→ltb (j_start layout + t) n1 last))

  length-rows :
      (fuel n2 j : ℕ)
      → 0 < q
      → n1 ≤ j + fuel
      → length (rows point padding rotated layout n1 fuel n2 j)
        ≡ iround (n1 - j) q * ((n2 - 1) * factor)
  length-rows zero n2 j some_rows enough =
      let over : n1 - j ≡ 0 = omega arith in
      rw (rows-none zero n2 j (omega arith), over, iround-none q some_rows) (omega arith)
  length-rows (suc fuel) n2 j some_rows enough = elim (dec_lt j n1) [
    | yes more ↦
        let block = columns point padding rotated layout n1 (n2 - 1) 1 j in
        let size = (n2 - 1) * factor in
        let rest = rows point padding rotated layout n1 fuel n2 (j + q) in
        ap length (rows-more fuel n2 j more)
        ∙ length-append block rest
        ∙ (omega (
          arith,
          length-columns point padding rotated layout n1 (n2 - 1) 1 j,
          length-rows fuel n2 (j + q) some_rows (omega arith),
          ap (λ (t : ℕ). t * size) (iround-step n1 j q some_rows more),
        ))
    | no over ↦
        let none_left : n1 - j ≡ 0 = omega arith in
        rw (rows-none (suc fuel) n2 j (omega arith), none_left, iround-none q some_rows)
          (omega arith)
  ]

  -- The loops write as many cells as the vector has that they write to.
  pub length-generate_twiddles :
      (n2 : ℕ)
      → 0 < q
      → length (generate_twiddles point padding rotated layout n1 n2)
        ≡ factor * iround (n1_rows layout n1) q * (n2 - 1)
  unfolding generate_twiddles
  length-generate_twiddles n2 some_rows =
      let remaining : n1 - j_start layout ≡ n1_rows layout n1 = ground arith in
      length-rows (suc n1) n2 (j_start layout) some_rows (omega arith)
      ∙ ap (λ (k : ℕ). k * ((n2 - 1) * factor)) (ap (λ (k : ℕ). iround k q) remaining)
      ∙ (omega arith)
