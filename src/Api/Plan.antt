-- ===== src/Api/Plan.antt =====
-- `plfft_plan_create_from_config` of src/plfft.cpp, with the checks and the dispatch. The functions
-- that build a plan, the CPU's features, and the floating-point arithmetic of the time limits are
-- parameters; so are the switches of the build, PLFFT_ENABLE_SME and PLFFT_ENABLE_FIXED_POINT.
pub mod Outcome
pub mod Acceptance
pub mod Sme
use perf_libs_fft.Base.{
  ℕ, suc, Bool, true, false, not, ◌&&◌, ◌||◌, Option, none, some, if◌then◌else◌,
}
use perf_libs_fft.Base.Int.{ℤ, pos, negsuc, int_eq}
use perf_libs_fft.Planner.Run.{Run, ok, abort, ◌>>=◌}
use perf_libs_fft.Api.Types.{
  Status, plfft_ok, plfft_null_argument, plfft_invalid_size, plfft_unsupported_batch,
  plfft_invalid_transform_kind, plfft_invalid_data_type, plfft_invalid_io_alias,
  plfft_plan_creation_failed, plfft_invalid_sme_mode, plfft_sme_not_enabled,
  plfft_sme_unsupported_r2r, plfft_fp16_not_available, plfft_sme_not_available,
  plfft_sme_unsupported_fixed_point, plfft_invalid_planner_rigor, Direction, plfft_forward,
  plfft_backward, other_direction, R2rKind, other_kind, DataType, fp32, fp64, fp16, q7, q15,
  other_type, IoAlias, no_alias, may_alias, other_alias, SmeMode, disabled, enabled, other_mode,
  Rigor, estimate, measure, patient, exhaustive, other_rigor, TransformKind, transform_c2c,
  transform_r2c, transform_c2r, transform_r2r, direction_code, direction_of, r2r_code, r2r_of,
}
use perf_libs_fft.Api.Config.{Config, Target, valid_direction, valid_r2r_kind}

abbrev pub positive : ℤ → Bool
positive (pos (suc n)) = true
positive _ = false

unfoldable pub valid_size : Config → Bool
valid_size config = positive config.n

unfoldable pub valid_batch : Config → Bool
valid_batch config =
    if int_eq config.howmany (pos 1)
    then positive config.istride && positive config.ostride
    else positive config.howmany
      && positive config.istride
      && positive config.idist
      && positive config.ostride
      && positive config.odist

unfoldable pub valid_transform_kind : Config → Bool
valid_transform_kind config = elim config.transform_kind [
  | transform_c2c ↦ valid_direction (direction_of config.transform_payload)
  | transform_r2c ↦ true
  | transform_c2r ↦ true
  | transform_r2r ↦ valid_r2r_kind (r2r_of config.transform_payload)
]

unfoldable pub valid_alias : Config → Bool
valid_alias config = elim config.alias [ other_alias c ↦ false | _ ↦ true ]

unfoldable pub valid_sme_mode : Config → Bool
valid_sme_mode config = elim config.sme_mode [ other_mode c ↦ false | _ ↦ true ]

unfoldable pub want_sme : Config → Bool
want_sme config = elim config.sme_mode [ enabled ↦ true | _ ↦ false ]

unfoldable pub valid_rigor : Config → Bool
valid_rigor config = elim config.rigor [ other_rigor c ↦ false | _ ↦ true ]

-- `get_cpu_features`, and `kernel_provider_emulates_fp16`.
pub record Machine : Type 0 where
  pub sme : Bool
  pub asimdhp : Bool
  pub emulates_fp16 : Bool

pub record Build : Type 0 where
  pub enable_sme : Bool
  pub enable_fixed_point : Bool

-- The arithmetic on `double`; `decimal m k` is the constant m / 10 ^ k.
pub record Floating (Double : Type 0) : Type 0 where
  pub decimal : ℤ → ℕ → Double
  pub of_int : ℤ → Double
  pub add : Double → Double → Double
  pub mul : Double → Double → Double
  pub less : Double → Double → Bool
  pub exp : Double → Double
  pub log : Double → Double

module _ {Double : Type 0} (floating : Floating Double) where
  -- `exp(a + b * log_n)`, with the two constants over ten thousand.
  abbrev fitted : ℤ → ℤ → Double → Double
  fitted a b log_n =
      floating.exp (floating.add (floating.decimal a 4) (floating.mul (floating.decimal b 4) log_n))

  unfoldable pub get_planner_target_secs_total : Config → Double
  get_planner_target_secs_total config =
      let log_n = floating.log (floating.of_int config.n) in
      let short = floating.less log_n (floating.decimal (pos 731322038709) 11) in
      let secs =
        λ (a b : ℤ). if short then fitted (negsuc 134095) (pos 6539) log_n else fitted a b log_n in
      elim config.rigor [
        | estimate ↦ floating.decimal (pos 0) 0
        | measure ↦ secs (negsuc 155577) (pos 9562)
        | patient ↦ secs (negsuc 98700) (pos 7029)
        | exhaustive ↦ secs (negsuc 50775) (pos 5344)
        | other_rigor c ↦
            if short then fitted (negsuc 134095) (pos 6539) log_n else floating.decimal (pos 0) 0
      ]

  unfoldable pub get_planner_margin : Config → Double
  get_planner_margin config = elim config.rigor [
    | estimate ↦ floating.decimal (pos 1) 2
    | measure ↦ floating.decimal (pos 2) 2
    | patient ↦ floating.decimal (pos 5) 2
    | exhaustive ↦ floating.decimal (pos 5) 1
    | other_rigor c ↦ floating.decimal (pos 0) 0
  ]

abbrev pub is_r2r : TransformKind → Bool
is_r2r transform_r2r = true
is_r2r _ = false

abbrev pub is_fp16 : DataType → Bool
is_fp16 fp16 = true
is_fp16 _ = false

-- An element type: `std::complex<T>`, or `T`.
pub data Element : Type 0 where
  real_of complex_of : DataType → Element

abbrev pub is_fixed_point : Element → Bool
is_fixed_point (real_of q7) = true
is_fixed_point (real_of q15) = true
is_fixed_point (complex_of q7) = true
is_fixed_point (complex_of q15) = true
is_fixed_point _ = false

-- The functions of src/arm_fft1d_impl.hpp that a configuration reaches; they take from it the
-- length, the batch, the strides and the alias mode.
pub record Builder (Plan Double : Type 0) : Type 0 where
  pub make_batched_1d_plan_sme : Element → Element → Config → Direction → Run (Option Plan)
  pub make_batched_1d_plan :
      Element → Element → Config → Direction → Double → Double → Run (Option Plan)
  pub make_batched_1d_r2r_plan : DataType → Config → R2rKind → Run (Option Plan)

module _ {Plan Double : Type 0} (build : Build) (machine : Machine) (floating : Floating Double)
    (builder : Builder Plan Double) where
  unfoldable pub make_batched_plan : Element → Element → Config → Direction → Run (Option Plan)
  make_batched_plan x y config direction =
      if build.enable_sme && not (is_fixed_point x) && want_sme config
      then builder.make_batched_1d_plan_sme x y config direction
      else builder.make_batched_1d_plan x y config direction
          (get_planner_target_secs_total floating config) (get_planner_margin floating config)

  unfoldable pub make_c2c_plan : DataType → Config → Run (Option Plan)
  make_c2c_plan t config =
      make_batched_plan (complex_of t) (complex_of t) config (direction_of config.transform_payload)

  pub make_r2c_plan : DataType → Config → Run (Option Plan)
  make_r2c_plan t config = make_batched_plan (real_of t) (complex_of t) config plfft_forward

  pub make_c2r_plan : DataType → Config → Run (Option Plan)
  make_c2r_plan t config = make_batched_plan (complex_of t) (real_of t) config plfft_backward

  pub make_r2r_plan : DataType → Config → Run (Option Plan)
  make_r2r_plan t config =
      builder.make_batched_1d_r2r_plan t config (r2r_of config.transform_payload)

  unfoldable pub make_plan : DataType → Config → Run (Option Plan)
  make_plan t config = elim config.transform_kind [
    | transform_c2c ↦ make_c2c_plan t config
    | transform_r2c ↦ make_r2c_plan t config
    | transform_c2r ↦ make_c2r_plan t config
    | transform_r2r ↦ make_r2r_plan t config
  ]

  pub make_fixed_point_plan : DataType → Config → Run (Option Plan)
  make_fixed_point_plan t config = elim config.transform_kind [
    | transform_c2c ↦ make_c2c_plan t config
    | transform_r2c ↦ make_r2c_plan t config
    | transform_c2r ↦ make_c2r_plan t config
    | transform_r2r ↦ ok none
  ]

  -- The early returns of `plfft_plan_create_from_config` on a configuration, in their order.
  unfoldable pub refusal : Config → Option Status
  refusal config =
      if not (valid_size config)
      then some plfft_invalid_size
      else if not (valid_batch config)
      then some plfft_unsupported_batch
      else if not (valid_transform_kind config)
      then some plfft_invalid_transform_kind
      else if not (valid_alias config)
      then some plfft_invalid_io_alias
      else if not (valid_sme_mode config)
      then some plfft_invalid_sme_mode
      else if want_sme config && is_r2r config.transform_kind
      then some plfft_sme_unsupported_r2r
      else if want_sme config && is_fixed_point (real_of config.data_type)
      then some plfft_sme_unsupported_fixed_point
      else if not build.enable_sme && want_sme config
      then some plfft_sme_not_enabled
      else if build.enable_sme && want_sme config && not machine.sme
      then some plfft_sme_not_available
      else if is_fp16 config.data_type && not machine.asimdhp && not machine.emulates_fp16
      then some plfft_fp16_not_available
      else if not (valid_rigor config)
      then some plfft_invalid_planner_rigor
      else none

  -- The switch on the data type; `none` is its default.
  unfoldable pub plan_of_type : Config → Option (Run (Option Plan))
  plan_of_type config = elim config.data_type [
    | fp16 ↦ some (make_plan fp16 config)
    | fp32 ↦ some (make_plan fp32 config)
    | fp64 ↦ some (make_plan fp64 config)
    | q7 ↦ if build.enable_fixed_point then some (make_fixed_point_plan q7 config) else none
    | q15 ↦ if build.enable_fixed_point then some (make_fixed_point_plan q15 config) else none
    | other_type c ↦ none
  ]

  -- What is stored and returned for the plan that was built.
  unfoldable pub deliver : Option Plan → Status × Target Plan
  deliver none = (plfft_plan_creation_failed, some none)
  deliver (some plan) = (plfft_ok, some (some plan))

  -- From the checks and the plan to what the call returns; no plan is made after a refusal.
  unfoldable pub conclude : Option Status → Option (Run (Option Plan)) → Run (Status × Target Plan)
  conclude (some status) made = ok (status, some none)
  conclude none none = ok (plfft_invalid_data_type, some none)
  conclude none (some made) = made >>= λ fft_plan. ok (deliver fft_plan)

  unfoldable pub plan_create_from_config : Target Plan → Option Config → Run (Status × Target Plan)
  plan_create_from_config none config = ok (plfft_null_argument, none)
  plan_create_from_config (some cell) none = ok (plfft_null_argument, some none)
  plan_create_from_config (some cell) (some config) =
      conclude (refusal config) (plan_of_type config)
