-- ===== src/Checked/Examples.antt =====
-- The checked arithmetic of src/plfft_util.hpp at the ends of `int64_t`.
use perf_libs_fft.Base.{◌≡◌, ◌⊎◌, arith}
use perf_libs_fft.Base.Int.{pos, negsuc, ◌*ℤ◌}
use perf_libs_fft.Checked.{InRange, mul_assert_no_overflow, mul_assert_no_overflow-outcome}
use perf_libs_fft.Planner.Run.{ok, abort}

mul_assert_no_overflow-outcome_example :
    (InRange (pos 3037000500 *ℤ negsuc 3037000499)
      × (mul_assert_no_overflow (pos 3037000500) (negsuc 3037000499)
          ≡ ok (pos 3037000500 *ℤ negsuc 3037000499)))
    ⊎ (¬ InRange (pos 3037000500 *ℤ negsuc 3037000499)
        × (mul_assert_no_overflow (pos 3037000500) (negsuc 3037000499) ≡ abort))
mul_assert_no_overflow-outcome_example =
    mul_assert_no_overflow-outcome (pos 3037000500) (negsuc 3037000499) (omega arith) (omega arith)
