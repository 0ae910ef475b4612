-- ===== src/Api/Config.antt =====
-- The configuration of src/plfft.cpp: its record, how it is made, and its getters and setters.
use perf_libs_fft.Base.{Bool, true, false, Option, none, some, if◌then◌else◌}
use perf_libs_fft.Base.Int.{ℤ, pos}
use perf_libs_fft.Planner.Run.{Run, ok, abort}
use perf_libs_fft.Api.Types.{
  Status, plfft_ok, plfft_null_argument, plfft_invalid_transform_kind, Direction, plfft_forward,
  plfft_backward, other_direction, R2rKind, other_kind, DataType, fp32, IoAlias, no_alias, SmeMode,
  disabled, Rigor, measure, TransformKind, transform_c2c, transform_r2c, transform_c2r,
  transform_r2r, direction_code, r2r_code,
}

pub record Config : Type 0 where
  pub n : ℤ
  pub howmany : ℤ
  pub istride : ℤ
  pub idist : ℤ
  pub ostride : ℤ
  pub odist : ℤ
  pub transform_kind : TransformKind
  pub transform_payload : ℤ
  pub data_type : DataType
  pub alias : IoAlias
  pub sme_mode : SmeMode
  pub rigor : Rigor

unfoldable pub valid_direction : Direction → Bool
valid_direction plfft_forward = true
valid_direction plfft_backward = true
valid_direction (other_direction c) = false

unfoldable pub valid_r2r_kind : R2rKind → Bool
valid_r2r_kind (other_kind c) = false
valid_r2r_kind kind = true

-- `plfft_config_t **`: a null pointer, or a cell with a pointer that may be null.
abbrev pub Target {ℓ} : Type ℓ → Type ℓ
Target A = Option (Option A)

unfoldable pub default_config : ℤ → TransformKind → ℤ → Config
default_config n transform_kind transform_payload = record {
  n = n;
  howmany = pos 1;
  istride = pos 1;
  idist = n;
  ostride = pos 1;
  odist = n;
  transform_kind = transform_kind;
  transform_payload = transform_payload;
  data_type = fp32;
  alias = no_alias;
  sme_mode = disabled;
  rigor = measure;
}

-- `memory` says that `std::malloc` gives the storage; without it the process is aborted.
module _ (memory : Bool) where
  unfoldable pub create_config :
      Target Config → ℤ → TransformKind → ℤ → Run (Status × Target Config)
  unfolding default_config
  create_config none n transform_kind transform_payload = ok (plfft_null_argument, none)
  create_config (some cell) n transform_kind transform_payload =
      if memory
      then ok (plfft_ok, some (some (default_config n transform_kind transform_payload)))
      else abort

  unfoldable pub config_create : Target Config → ℤ → Direction → Run (Status × Target Config)
  config_create none n direction = ok (plfft_null_argument, none)
  config_create (some cell) n direction =
      if valid_direction direction
      then create_config (some none) n transform_c2c (direction_code direction)
      else ok (plfft_invalid_transform_kind, some none)

  unfoldable pub config_create_r2c : Target Config → ℤ → Run (Status × Target Config)
  config_create_r2c config n = create_config config n transform_r2c (pos 0)

  unfoldable pub config_create_c2r : Target Config → ℤ → Run (Status × Target Config)
  config_create_c2r config n = create_config config n transform_c2r (pos 0)

  unfoldable pub config_create_r2r : Target Config → ℤ → R2rKind → Run (Status × Target Config)
  config_create_r2r none n r2r_kind = ok (plfft_null_argument, none)
  config_create_r2r (some cell) n r2r_kind =
      if valid_r2r_kind r2r_kind
      then create_config (some none) n transform_r2r (r2r_code r2r_kind)
      else ok (plfft_invalid_transform_kind, some none)

unfoldable pub set_data_type : Config → DataType → Config
set_data_type config data_type = record config { data_type = data_type }

unfoldable pub set_io_alias : Config → IoAlias → Config
set_io_alias config alias = record config { alias = alias }

unfoldable pub set_sme_mode : Config → SmeMode → Config
set_sme_mode config sme_mode = record config { sme_mode = sme_mode }

unfoldable pub set_batch : Config → ℤ → ℤ → ℤ → ℤ → ℤ → Config
set_batch config howmany istride idist ostride odist = record config {
  howmany = howmany;
  istride = istride;
  idist = idist;
  ostride = ostride;
  odist = odist;
}

unfoldable pub set_rigor : Config → Rigor → Config
set_rigor config rigor = record config { rigor = rigor }
