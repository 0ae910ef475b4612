-- ===== src/Execution/Examples.antt =====
-- The execution of plans on concrete data: transforms over the integers modulo five, with kernels
-- that write the transforms cell by cell.
use Prim.Native.Nat.{◌∣◌}
use native.Mathlib.Nat.{dvd_iff_mod-eq-zero}
use perf_libs_fft.Base.{ℕ, refl, sym, false, arith}
use perf_libs_fft.Base.Int.{ℤ, pos, ◌*ℤ◌}
use perf_libs_fft.Execution.{order_na}
use perf_libs_fft.Execution.Batches.{direct_plan-Transforms, loop_plan-Transforms}
use perf_libs_fft.Execution.Contract.{IsNKernel, RequestedFor, Transformed}
use perf_libs_fft.Execution.CooleyTukey.{*ℤ-one, cooley_tukey_ab-Transforms}
use perf_libs_fft.Execution.CooleyTukeyBatch.{cooley_tukey_ac-Transforms}
use perf_libs_fft.Execution.Execute.{execute}
use perf_libs_fft.Execution.Reference.{reference_data, reference_data-IsKernelData}
use perf_libs_fft.Fourier.Five.{five_numbers, fourth_root, fourth_root-IsRoots}
use perf_libs_fft.Execution.Concrete.{
  five_machine, start, from_input, to_output, input-ne-output, packed-Apart, interleaved-Apart,
  kernels, output_inside,
}
use perf_libs_fft.Planner.Plans.{
  Plan, direct_plan, loop_plan, cooley_tukey_plan, ab_twid_direct_plan, ac_twid_direct_plan,
}
use perf_libs_fft.Planner.Problem.{forward}

four_divides : 4 ∣ 4
four_divides = (dvd_iff_mod-eq-zero 4).1 refl

two_point_kernel :
    (howmany istride ostride idist odist : ℤ)
    → IsNKernel fourth_root 2
        (RequestedFor howmany istride ostride idist odist)
        (reference_data fourth_root 2 howmany istride ostride idist odist).ab_n
two_point_kernel howmany istride ostride idist odist =
    (reference_data-IsKernelData fourth_root 2 howmany istride ostride idist odist order_na
        (omega arith)).plain
      refl

abbrev two_points : Plan ℕ
two_points = direct_plan (pos 2) (pos 1) (pos 1) (pos 1) (pos 0) (pos 0) forward false

loop_plan-Transforms_example :
    Transformed fourth_root
      (execute five_machine (loop_plan (pos 2) (pos 2) (pos 2) two_points))
      2
      (pos 1)
      (pos 1)
      2
      (pos 2)
      (pos 2)
      from_input
      to_output
      start
loop_plan-Transforms_example =
    loop_plan-Transforms five_machine fourth_root 2 (pos 1) (pos 1) 2 (pos 2) (pos 2) two_points
      (direct_plan-Transforms five_machine fourth_root 2 (pos 1) (pos 1) 1 (pos 0) (pos 0) forward
        false (two_point_kernel _ _ _ _ _))
      from_input to_output start tt tt input-ne-output (omega arith) (packed-Apart 2 2)
      (λ c h. output_inside _)

abbrev columns_of_two : ℤ → ℤ → ℤ → ℤ → Plan ℕ
columns_of_two istride ostride howmany idist =
    direct_plan (pos 2) istride ostride howmany idist (pos 1) forward false

cooley_tukey_ab-Transforms_example :
    Transformed fourth_root
      (execute five_machine (
        cooley_tukey_plan
          (pos 4)
          (pos 1)
          (columns_of_two (pos 1 *ℤ pos 2) (pos 2) (pos 2) (pos 1))
          (ab_twid_direct_plan
            (pos 2)
            (pos 1)
            (pos 1 *ℤ pos 2)
            (pos 2)
            (pos 2)
            (pos 1)
            forward
            false)))
      4
      (pos 1)
      (pos 1)
      1
      (pos 4)
      (pos 4)
      from_input
      to_output
      start
cooley_tukey_ab-Transforms_example =
    cooley_tukey_ab-Transforms five_machine forward fourth_root-IsRoots 2 2 four_divides
      (omega arith) (omega arith) (omega arith) (pos 1) (pos 1) (pos 4) (pos 4) false
      (columns_of_two (pos 1 *ℤ pos 2) (pos 2) (pos 2) (pos 1)) (kernels 2 (omega arith))
      (direct_plan-Transforms five_machine fourth_root 2 (pos 1 *ℤ pos 2) (pos 2) 2 (pos 1) (pos 1)
        forward false (two_point_kernel _ _ _ _ _))
      from_input to_output start tt tt input-ne-output (omega arith) (packed-Apart 1 4)
      (λ c h. output_inside _)

cooley_tukey_ac-Transforms_example :
    Transformed fourth_root
      (execute five_machine (
        cooley_tukey_plan
          (pos 4)
          (pos 2)
          (columns_of_two (pos 2 *ℤ pos 2) (pos 2 *ℤ pos 2) (pos 4) (pos 1))
          (ac_twid_direct_plan
            (pos 2)
            (pos 2)
            (pos 2 *ℤ pos 2)
            (pos 2)
            (pos 2 *ℤ pos 2)
            (pos 2)
            (pos 2)
            forward
            false)))
      4
      (pos 2)
      (pos 2)
      2
      (pos 1)
      (pos 1)
      from_input
      to_output
      start
cooley_tukey_ac-Transforms_example =
    cooley_tukey_ac-Transforms five_machine forward fourth_root-IsRoots 2 2 2 four_divides
      (omega arith) (omega arith) (omega arith) (omega arith) (omega arith) (pos 2) (pos 2) (pos 1)
      false (columns_of_two (pos 2 *ℤ pos 2) (pos 2 *ℤ pos 2) (pos 4) (pos 1))
      (sym (*ℤ-one (pos 2))) (kernels 2 (omega arith))
      (direct_plan-Transforms five_machine fourth_root 2 (pos 2 *ℤ pos 2) (pos 2 *ℤ pos 2) 4 (pos 1)
        (pos 1) forward false (two_point_kernel _ _ _ _ _))
      from_input to_output start tt tt input-ne-output (omega arith) (interleaved-Apart 2 4)
      (λ c h. output_inside _)
