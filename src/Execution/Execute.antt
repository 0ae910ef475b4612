-- ===== src/Execution/Execute.antt =====
-- `execute` of each class of plans in src/planner/strategies, for complex transforms.
use perf_libs_fft.Base.{ℕ, ◌+◌, ◌-◌, ◌*◌, Bool, get_or, if◌then◌else◌}
use perf_libs_fft.Base.Int.{ℤ, pos, pos_part, ltb_ℤ, ◌-ℤ◌, ◌*ℤ◌}
use perf_libs_fft.Checked.{mul_assert_no_overflow}
use perf_libs_fft.Execution.{
  Pointer, advance, Memory, Store, OrderKind, order_na, order_ab, order_ac, KernelData, repeat,
  write, read, call_n, call_t, get_cooley_tukey_buffer, release_cooley_tukey_buffer,
}
use perf_libs_fft.Planner.Plans.{
  Plan, direct_plan, loop_plan, fft1_plan, ab_twid_direct_plan, ac_twid_direct_plan,
  cooley_tukey_plan, single_convolution_plan, convolution_plan, convolution_twid_plan, other_plan,
}
use perf_libs_fft.Planner.Problem.{Direction}
use perf_libs_fft.Planner.Run.{Run, ok, ◌>>=◌}
use perf_libs_fft.Twiddles.{TwiddleLayout, ofs_mul, generate_twiddles}

-- What the machine and the providers give: `get_kernel_data` for a length, a batch, strides and
-- distances, a direction, an order and the wish for SME, points of the unit circle, the cells that pad a table and that are found past
-- it, the quarter turn, the size of an element, what a new buffer holds, the execution of the
-- plans that convolve, and the other plans.
pub record Machine (C Other : Type 0) : Type 0 where
  pub kernels :
      (n howmany istride ostride idist odist : ℤ) → Direction → OrderKind → Bool → KernelData C
  pub point : Direction → ℕ → ℕ → C
  pub padding : C
  pub rotated : C → C
  pub element_size : ℕ
  pub fresh : Memory C
  pub convolutions : Plan Other → Pointer → Pointer → Store C → Run (Store C)
  pub others : Other → Pointer → Pointer → Store C → Run (Store C)

module _ {C Other : Type 0} (machine : Machine C Other) where
  -- The table that a twiddle plan is constructed with, from a cell on; the angles are multiples of
  -- the full turn divided by `n1 * n2`.
  unfoldable pub twiddles_from : Direction → ℤ → ℤ → TwiddleLayout → ℕ → ℕ → C
  twiddles_from dir n1 n2 layout offset i =
      get_or
        (generate_twiddles (machine.point dir (pos_part n1 * pos_part n2)) machine.padding
          machine.rotated layout (pos_part n1) (pos_part n2))
        (offset + i) machine.padding

  -- `ab_twid_direct_plan::execute`
  unfoldable pub execute_ab_twid :
      (n istride ostride howmany idist odist : ℤ)
      → Direction
      → Bool
      → Pointer
      → Pointer
      → Store C
      → Store C
  unfolding twiddles_from
  execute_ab_twid n istride ostride howmany idist odist dir want_sme x y s =
      let data_n =
        machine.kernels n (pos 1) istride ostride (pos 1) (pos 1) dir order_na want_sme in
      let data_t = machine.kernels n howmany istride ostride idist odist dir order_ab want_sme in
      let first_row =
        call_n machine.element_size data_n.ab_n x y istride ostride (pos 1) (pos 0) (pos 0) s in
      if ltb_ℤ (pos 1) howmany
      then call_t machine.element_size data_t.ab_t_dit (advance x idist) (advance y odist) istride
          ostride (twiddles_from dir howmany n data_t.twid_layout 0) (howmany -ℤ pos 1) idist odist
          first_row
      else first_row

  -- `ac_twid_direct_plan::execute`
  unfoldable pub execute_ac_twid :
      (n istride ostride howmany0 idist0 odist0 howmany1 : ℤ)
      → Direction
      → Bool
      → Pointer
      → Pointer
      → Store C
      → Run (Store C)
  unfolding twiddles_from
  execute_ac_twid n istride ostride howmany0 idist0 odist0 howmany1 dir want_sme x y s =
      let data_n =
        machine.kernels n howmany1 istride ostride (pos 1) (pos 1) dir order_na want_sme in
      let data_t =
        machine.kernels n howmany1 istride ostride (pos 1) (pos 1) dir order_ac want_sme in
      let row = λ (i : ℕ) (t : Store C). ok (
        call_t machine.element_size data_t.ac_t_dit (advance x (pos i *ℤ idist0))
          (advance y (pos i *ℤ odist0)) istride ostride
          (twiddles_from dir howmany0 n data_t.twid_layout
            ((i - 1) * ofs_mul data_t.twid_layout * (pos_part n - 1)))
          howmany1 (pos 1) (pos 1) t) in
      repeat (pos_part howmany0 - 1) 1 row
        (call_n machine.element_size data_n.ab_n x y istride ostride howmany1 (pos 1) (pos 1) s)

  unfoldable pub execute : Plan Other → Pointer → Pointer → Store C → Run (Store C)
  unfolding execute_ab_twid execute_ac_twid
  execute (direct_plan n istride ostride howmany idist odist dir want_sme) x y s = ok (
      call_n machine.element_size
        (machine.kernels n howmany istride ostride idist odist dir order_na want_sme).ab_n x y
        istride ostride howmany idist odist s)
  execute (loop_plan howmany idist odist inner) x y s =
      repeat (pos_part howmany) 0
        (λ i t. execute inner (advance x (pos i *ℤ idist)) (advance y (pos i *ℤ odist)) t) s
  execute (fft1_plan howmany idist odist) x y s =
      repeat (pos_part howmany) 0
        (λ h t. ok (
          write machine.element_size (advance y (pos h *ℤ odist))
            (read (advance x (pos h *ℤ idist)) t) t))
        s
  execute (ab_twid_direct_plan n istride ostride howmany idist odist dir want_sme) x y s =
      ok (execute_ab_twid n istride ostride howmany idist odist dir want_sme x y s)
  execute (ac_twid_direct_plan n istride ostride howmany0 idist0 odist0 howmany1 dir want_sme) x y
        s =
      execute_ac_twid n istride ostride howmany0 idist0 odist0 howmany1 dir want_sme x y s
  execute (cooley_tukey_plan n howmany stage1 stage2) x y s =
      mul_assert_no_overflow n howmany >>= λ buffer_size.
      (let (frame, opened) =
          get_cooley_tukey_buffer machine.element_size machine.fresh (pos_part buffer_size) s in
        execute stage1 x frame opened >>= λ between.
        (execute stage2 frame y between >>= λ done. ok (release_cooley_tukey_buffer done)))
  execute (single_convolution_plan c n istride ostride dir padded b fwd bwd) x y s =
      machine.convolutions (single_convolution_plan c n istride ostride dir padded b fwd bwd) x y s
  execute (convolution_plan c n istride ostride howmany idist odist dir padded b fwd bwd) x y s =
      machine.convolutions
        (convolution_plan c n istride ostride howmany idist odist dir padded b fwd bwd) x y s
  execute
        (convolution_twid_plan c r istride ostride howmany0 idist0 odist0 howmany1 dir padded b fwd
          bwd)
        x y s =
      machine.convolutions
        (convolution_twid_plan c r istride ostride howmany0 idist0 odist0 howmany1 dir padded b fwd
          bwd)
        x y s
  execute (other_plan other) x y s = machine.others other x y s
