-- ===== src/Twiddles.antt =====
-- The tables of twiddle factors: `generate_twiddles` of src/generate_twiddles.hpp, with the layout of
-- src/twiddle_layout.hpp. The conversion to the type that is stored is a parameter.
pub mod Block
pub mod Table
mod Examples
use perf_libs_fft.Base.{
  ℕ, zero, suc, ◌+◌, ◌-◌, ◌*◌, Bool, true, false, List, [], ◌∷◌, ◌++◌, ltb, if◌then◌else◌,
}

-- `twiddle_layout`, less the precision.
pub record TwiddleLayout : Type 0 where
  pub want_premul : Bool
  pub interleave_factor : ℕ
  pub include_unity_row : Bool

-- How many cells a factor takes.
abbrev pub ofs_mul : TwiddleLayout → ℕ
ofs_mul layout = if layout.want_premul then 2 else 1

abbrev pub j_start : TwiddleLayout → ℕ
j_start layout = if layout.include_unity_row then 0 else 1

abbrev pub n1_rows : TwiddleLayout → ℕ → ℕ
n1_rows layout n1 = if layout.include_unity_row then n1 else n1 - 1

-- The stored value `(cos, sin)` of a multiple of the base angle, the zero that pads a row, and the
-- quarter turn `(-sin, cos)` of a value.
module _ {ℓ} {W : Type ℓ} (point : ℕ → W) (padding : W) (rotated : W → W) (layout : TwiddleLayout)
    (n1 : ℕ) where
  unfoldable pub value : ℕ → ℕ → W
  value i j = if ltb j n1 then point (i * j) else padding

  unfoldable pub entry : W → List W
  entry w = if layout.want_premul then w ∷ rotated w ∷ [] else w ∷ []

  -- The loop over `jj`.
  unfoldable pub interleaved : ℕ → ℕ → ℕ → ℕ → List W
  unfolding value entry
  interleaved zero jj i j = []
  interleaved (suc rounds) jj i j = entry (value i (j + jj)) ++ interleaved rounds (suc jj) i j

  -- The loop over `i`.
  unfoldable pub columns : ℕ → ℕ → ℕ → List W
  unfolding interleaved
  columns zero i j = []
  columns (suc rounds) i j = interleaved layout.interleave_factor 0 i j ++ columns rounds (suc i) j

  -- The loop over `j`, on fuel.
  unfoldable pub rows : ℕ → ℕ → ℕ → List W
  unfolding columns
  rows zero n2 j = []
  rows (suc fuel) n2 j = elim (ltb j n1) [
    | true ↦ columns (n2 - 1) 1 j ++ rows fuel n2 (j + layout.interleave_factor)
    | false ↦ []
  ]

  -- All that the loops write, in order.
  unfoldable pub generate_twiddles : ℕ → List W
  unfolding rows
  generate_twiddles n2 = rows (suc n1) n2 (j_start layout)
