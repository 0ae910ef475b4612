-- ===== src/Api/Examples.antt =====
-- The C interface on a complex transform of length eight.
use perf_libs_fft.Base.{ℕ, ◌≡◌, ◌≢◌, ◌↔◌, refl, true, false, none, some}
use perf_libs_fft.Base.Int.{pos, int_eq}
use perf_libs_fft.Planner.Run.{ok, abort}
use perf_libs_fft.Api.Types.{
  plfft_ok, plfft_invalid_transform_kind, plfft_forward, direction_code, transform_c2c,
}
use perf_libs_fft.Api.Config.{Config, default_config, config_create, create_config, valid_direction}
use perf_libs_fft.Api.Plan.{
  Machine, Build, Floating, Builder, make_batched_plan, make_c2c_plan, make_plan, want_sme,
  valid_size, valid_batch, valid_transform_kind, valid_alias, valid_sme_mode, valid_rigor, refusal,
  plan_of_type, conclude, deliver, plan_create_from_config,
}
use perf_libs_fft.Api.Plan.Outcome.{IsConsistent, plan_create_from_config-IsConsistent}
use perf_libs_fft.Api.Plan.Acceptance.{IsAcceptable, refusal_iff, plan_create_from_config-plfft_ok}
use perf_libs_fft.Api.Plan.Sme.{with_sme, plan_create_from_config-with_sme}
use perf_libs_fft.Api.Reachable.{Reachable, by_create, created, plan_create_from_config-Reachable}

abbrev build : Build
build = record { enable_sme = true; enable_fixed_point = false }

abbrev machine : Machine
machine = record { sme = false; asimdhp = true; emulates_fp16 = false }

-- Numbers in place of `double`.
abbrev floating : Floating ℕ
floating = record {
  decimal = λ m k. k;
  of_int = λ i. 0;
  add = λ a b. a;
  mul = λ a b. a;
  less = λ a b. false;
  exp = λ a. a;
  log = λ a. a;
}

abbrev builder : Builder ℕ ℕ
builder = record {
  make_batched_1d_plan_sme = λ x y config dir. ok none;
  make_batched_1d_plan = λ x y config dir secs margin. ok (some 1);
  make_batched_1d_r2r_plan = λ t config kind. ok (some 2);
}

abbrev eight : Config
eight = default_config (pos 8) transform_c2c (direction_code plfft_forward)

eight_created : Reachable eight
unfolding config_create create_config valid_direction
eight_created = created {memory = true} {target = some none} (by_create (pos 8) plfft_forward refl)

eight_plan : plan_of_type build machine floating builder eight ≡ some (ok (some 1))
unfolding plan_of_type make_plan make_c2c_plan make_batched_plan want_sme default_config
eight_plan = refl

eight_made :
    plan_create_from_config build machine floating builder (some none) (some eight)
    ≡ ok (plfft_ok, some (some 1))
unfolding plan_create_from_config conclude deliver refusal plan_of_type make_plan make_c2c_plan
    make_batched_plan want_sme default_config valid_size valid_batch valid_transform_kind
    valid_alias valid_sme_mode valid_rigor valid_direction int_eq
eight_made = refl

plan_create_from_config-IsConsistent_example :
    IsConsistent build machine floating builder plfft_ok (some (some 1))
plan_create_from_config-IsConsistent_example =
    plan_create_from_config-IsConsistent build machine floating builder (some none) (some eight)
      plfft_ok (some (some 1)) eight_made

refusal_iff_example :
    (refusal build machine floating builder eight ≡ none) ↔ IsAcceptable build machine eight
refusal_iff_example = refusal_iff build machine floating builder eight

plan_create_from_config-plfft_ok_example :
    (plan_create_from_config build machine floating builder (some none) (some eight)
      ≡ ok (plfft_ok, some (some 1)))
    ↔ IsAcceptable build machine eight
plan_create_from_config-plfft_ok_example =
    plan_create_from_config-plfft_ok build machine floating builder none eight 1 eight_plan

plan_create_from_config-with_sme_example :
    plan_create_from_config build machine floating builder (some none) (some eight)
    ≡ plan_create_from_config build machine floating
        (with_sme builder (λ x y config dir. abort))
        (some none)
        (some eight)
plan_create_from_config-with_sme_example =
    plan_create_from_config-with_sme build machine floating builder (λ x y config dir. abort) eight
      none refl

plan_create_from_config-Reachable_example : plfft_ok ≢ plfft_invalid_transform_kind
plan_create_from_config-Reachable_example =
    plan_create_from_config-Reachable build machine floating builder none eight plfft_ok
      (some (some 1)) eight_created eight_made
