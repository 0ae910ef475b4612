-- ===== src/Twiddles/Examples.antt =====
-- A table of twiddle factors of src/generate_twiddles.hpp: three columns of five rows, two rows at a
-- time, each factor beside its quarter turn. The factors stand for their own angles.
use perf_libs_fft.Base.{ℕ, ◌+◌, ◌*◌, ◌≡◌, true, false, length, get_or, arith}
use perf_libs_fft.Parallel.{iround}
use perf_libs_fft.Twiddles.{TwiddleLayout, ofs_mul, n1_rows, generate_twiddles}
use perf_libs_fft.Twiddles.Table.{generate_twiddles-at, length-generate_twiddles}

abbrev layout : TwiddleLayout
layout = record { want_premul = true; interleave_factor = 2; include_unity_row = false }

abbrev angle : ℕ → ℕ
angle e = e

abbrev quarter : ℕ → ℕ
quarter e = e + 50

generate_twiddles-at_example : get_or (generate_twiddles angle 100 quarter layout 5 3) 6 7 ≡ 4
generate_twiddles-at_example =
    generate_twiddles-at angle 100 quarter layout 5 3 1 2 7 (omega arith) (omega arith)
      (omega arith) (omega arith)

length-generate_twiddles_example :
    length (generate_twiddles angle 100 quarter layout 5 3)
    ≡ ofs_mul layout * iround (n1_rows layout 5) 2 * 2
length-generate_twiddles_example =
    length-generate_twiddles angle 100 quarter layout 5 3 (omega arith)
