-- ===== src/R2r/Examples.antt =====
-- The inverse half-complex transform of length four, on lists in place of numbers: a cell lists the
-- elements that it is made of.
use perf_libs_fft.Base.{
  ℕ, ◌<◌, ◌≡◌, refl, List, [], ◌∷◌, length, ltb, if◌then◌else◌, arith, ◌+◌, true,
}
use perf_libs_fft.Api.Config.{valid_r2r_kind}
use perf_libs_fft.Api.Types.{hc2r, dct_2}
use perf_libs_fft.R2r.{fft_input_size, Numbers, prepare_fft_input}
use perf_libs_fft.R2r.Extract.{Results, extract_output_from_fft}
use perf_libs_fft.R2r.Extract.Writes.{extract_output_from_fft-same}
use perf_libs_fft.R2r.Input.{length-prepare_fft_input, prepare_fft_input-same}

abbrev names : Numbers ℕ (List ℕ)
names = record {
  zero_value = 100;
  negative = λ t. t;
  times = λ a b. a;
  one = 1;
  minus_one = 1;
  real = λ t. t ∷ [];
  complex = λ a b. a ∷ b ∷ [];
  product = λ c d. c;
}

abbrev no_rotation : ℕ → List ℕ
no_rotation i = []

abbrev element : ℕ → ℕ
element i = i

-- The same elements, and nothing after them.
abbrev four_elements : ℕ → ℕ
four_elements i = if ltb i 4 then i else 0

agree : (i : ℕ) → i < 4 → element i ≡ four_elements i
agree i l = ground arith

abbrev buffer : List (List ℕ)
buffer = [] ∷ [] ∷ [] ∷ []

half_complex :
    prepare_fft_input names no_rotation (λ n. no_rotation) hc2r 4 element buffer
    ≡ (0 ∷ []) ∷ (1 ∷ 3 ∷ []) ∷ (2 ∷ 100 ∷ []) ∷ []
unfolding prepare_fft_input
half_complex = refl

three_cells : length buffer ≡ fft_input_size hc2r 4
unfolding fft_input_size
three_cells = refl

length-prepare_fft_input_example :
    length (prepare_fft_input names no_rotation (λ n. no_rotation) hc2r 4 element buffer)
    ≡ fft_input_size hc2r 4
length-prepare_fft_input_example =
    length-prepare_fft_input names no_rotation (λ n. no_rotation) hc2r 4 element buffer
      (omega arith) three_cells

prepare_fft_input-same_example :
    prepare_fft_input names no_rotation (λ n. no_rotation) hc2r 4 element buffer
    ≡ prepare_fft_input names no_rotation (λ n. no_rotation) hc2r 4 four_elements buffer
prepare_fft_input-same_example =
    prepare_fft_input-same names no_rotation (λ n. no_rotation) 4 (omega arith) element
      four_elements agree hc2r buffer

-- Results that are their own parts.
abbrev plain : Results ℕ ℕ
plain = record {
  re = λ c. c;
  im = λ c. c + 10;
  negative = λ t. t;
  times = λ a b. b;
  twice = λ t. t + t;
  one = 1;
  minus_one = 1;
  conjugate = λ c. c;
  doubled = λ c. c + c;
  product = λ c d. c;
  quotient = λ c d. c;
}

valid_dct_2 : valid_r2r_kind dct_2 ≡ true
unfolding valid_r2r_kind
valid_dct_2 = refl

extract_output_from_fft-same_example :
    extract_output_from_fft plain element (λ n. element) dct_2 3 element (7 ∷ 7 ∷ 7 ∷ [])
    ≡ extract_output_from_fft plain element (λ n. element) dct_2 3 element (8 ∷ 8 ∷ 8 ∷ [])
extract_output_from_fft-same_example =
    extract_output_from_fft-same plain element (λ n. element) dct_2 3 element (7 ∷ 7 ∷ 7 ∷ [])
      (8 ∷ 8 ∷ 8 ∷ []) valid_dct_2 refl refl
