-- ===== src/Api/Plan/Sme.antt =====
-- Without the switch, the CPU or the mode for SME, `plfft_plan_create_from_config` of src/plfft.cpp
-- calls no SME function.
use perf_libs_fft.Base.{
  ◌≡◌, refl, sym, ap, ◌∙◌, inl, inr, true, false, ◌&&◌, Option, none, some, if◌then◌else◌,
  Bool-cases, Option-cases, arith,
}
use perf_libs_fft.Planner.Run.{Run, ok, abort}
use perf_libs_fft.Api.Types.{
  Status, Direction, DataType, fp32, fp64, fp16, q7, q15, other_type, TransformKind, transform_c2c,
  transform_r2c, transform_c2r, transform_r2r,
}
use perf_libs_fft.Api.Config.{Config}
use perf_libs_fft.Api.Plan.{
  want_sme, Machine, Build, Floating, Builder, Element, make_batched_plan, make_c2c_plan,
  make_r2c_plan, make_c2r_plan, make_r2r_plan, make_plan, make_fixed_point_plan, refusal,
  plan_of_type, conclude, deliver, plan_create_from_config,
}

-- The builder with another function for SME.
abbrev pub with_sme :
    {Plan Double : Type 0}
    → Builder Plan Double
    → (Element → Element → Config → Direction → Run (Option Plan))
    → Builder Plan Double
with_sme builder f = record builder { make_batched_1d_plan_sme = f }

module _ {Plan Double : Type 0} (build : Build) (machine : Machine) (floating : Floating Double)
    (builder : Builder Plan Double) (f : Element → Element → Config → Direction → Run (Option Plan))
    (config : Config) where
  make_batched_plan-with_sme :
      (x y : Element) (direction : Direction)
      → build.enable_sme && want_sme config ≡ false
      → make_batched_plan build machine floating builder x y config direction
        ≡ make_batched_plan build machine floating (with_sme builder f) x y config direction
  unfolding make_batched_plan
  make_batched_plan-with_sme x y direction off = ground arith

  kinds-with_sme :
      (t : DataType) (kind : TransformKind)
      → config.transform_kind ≡ kind
      → build.enable_sme && want_sme config ≡ false
      → (make_plan build machine floating builder t config
          ≡ make_plan build machine floating (with_sme builder f) t config)
        × (make_fixed_point_plan build machine floating builder t config
            ≡ make_fixed_point_plan build machine floating (with_sme builder f) t config)
  unfolding make_plan make_fixed_point_plan make_c2c_plan make_r2c_plan make_c2r_plan make_r2r_plan
  kinds-with_sme t transform_c2c e off =
      rw (e, make_plan, make_fixed_point_plan)
        (make_batched_plan-with_sme _ _ _ off, make_batched_plan-with_sme _ _ _ off)
  kinds-with_sme t transform_r2c e off =
      rw (e, make_plan, make_fixed_point_plan)
        (make_batched_plan-with_sme _ _ _ off, make_batched_plan-with_sme _ _ _ off)
  kinds-with_sme t transform_c2r e off =
      rw (e, make_plan, make_fixed_point_plan)
        (make_batched_plan-with_sme _ _ _ off, make_batched_plan-with_sme _ _ _ off)
  kinds-with_sme t transform_r2r e off = rw (e, make_plan, make_fixed_point_plan) (refl, refl)

  types-with_sme :
      (t : DataType)
      → config.data_type ≡ t
      → build.enable_sme && want_sme config ≡ false
      → plan_of_type build machine floating builder config
        ≡ plan_of_type build machine floating (with_sme builder f) config
  unfolding plan_of_type
  types-with_sme fp16 e off =
      rw (e, plan_of_type) (ap some (kinds-with_sme fp16 config.transform_kind refl off).0)
  types-with_sme fp32 e off =
      rw (e, plan_of_type) (ap some (kinds-with_sme fp32 config.transform_kind refl off).0)
  types-with_sme fp64 e off =
      rw (e, plan_of_type) (ap some (kinds-with_sme fp64 config.transform_kind refl off).0)
  types-with_sme q7 e off =
      rw (e, plan_of_type)
        (ap (λ r. if build.enable_fixed_point then some r else none)
          (kinds-with_sme q7 config.transform_kind refl off).1)
  types-with_sme q15 e off =
      rw (e, plan_of_type)
        (ap (λ r. if build.enable_fixed_point then some r else none)
          (kinds-with_sme q15 config.transform_kind refl off).1)
  types-with_sme (other_type c) e off = rw (e, plan_of_type) refl

  -- Refused in the same way, since the checks call no builder.
  refusal-with_sme :
      refusal build machine floating builder config
      ≡ refusal build machine floating (with_sme builder f) config
  unfolding refusal
  refusal-with_sme = refl

  refusal-available :
      build.enable_sme && want_sme config ≡ true
      → machine.sme ≡ false
      → (status : Status) × (refusal build machine floating builder config ≡ some status)
  unfolding refusal
  refusal-available want missing =
      elim (Option-cases (refusal build machine floating builder config)) [
        | inl e ↦ absurd (ground arith)
        | inr (status, e) ↦ (status, e)
      ]

  conclude-with_sme :
      (refused : Option Status) (made : Option (Run (Option Plan)))
      → conclude build machine floating builder refused made
        ≡ conclude build machine floating (with_sme builder f) refused made
  unfolding conclude deliver
  conclude-with_sme (some status) made = refl
  conclude-with_sme none none = refl
  conclude-with_sme none (some (ok none)) = refl
  conclude-with_sme none (some (ok (some plan))) = refl
  conclude-with_sme none (some abort) = refl

  -- If the build or the CPU has no SME, or the configuration does not ask for it, the call returns
  -- the same whatever the SME function is.
  pub plan_create_from_config-with_sme :
      (cell : Option Plan)
      → build.enable_sme && machine.sme && want_sme config ≡ false
      → plan_create_from_config build machine floating builder (some cell) (some config)
        ≡ plan_create_from_config build machine floating
            (with_sme builder f)
            (some cell)
            (some config)
  unfolding plan_create_from_config conclude refusal
  plan_create_from_config-with_sme cell off =
      elim (Bool-cases (build.enable_sme && want_sme config)) [
        | inl want ↦
            let (status, e) = refusal-available want (ground arith) in
            ap
              (λ r.
                conclude build machine floating builder r
                  (plan_of_type build machine floating builder config))
              e
            ∙ sym (
                ap
                  (λ r.
                    conclude build machine floating (with_sme builder f) r
                      (plan_of_type build machine floating (with_sme builder f) config))
                  (sym refusal-with_sme ∙ e))
        | inr off' ↦
            ap
              (λ made.
                conclude build machine floating builder
                  (refusal build machine floating builder config) made)
              (types-with_sme config.data_type refl off')
            ∙ conclude-with_sme _ _
      ]
