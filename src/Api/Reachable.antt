-- ===== src/Api/Reachable.antt =====
-- The configurations that a program can make through the functions of src/plfft.cpp.
use perf_libs_fft.Base.{
  ◌≡◌, ◌≢◌, refl, sym, ap, subst, ◌∙◌, inl, inr, Bool, true, false, Option, none, some, Bool-cases,
  arith,
}
use perf_libs_fft.Base.Int.{ℤ, pos}
use perf_libs_fft.Planner.Run.{Run, ok, abort}
use perf_libs_fft.Api.Types.{
  Status, plfft_ok, plfft_invalid_transform_kind, Direction, plfft_forward, plfft_backward,
  other_direction, R2rKind, DataType, IoAlias, SmeMode, Rigor, TransformKind, transform_c2c,
  transform_r2c, transform_c2r, transform_r2r, direction_code, direction_of, r2r_code, r2r_of,
}
use perf_libs_fft.Api.Config.{
  Config, Target, valid_direction, valid_r2r_kind, default_config, create_config, config_create,
  config_create_r2c, config_create_c2r, config_create_r2r, set_data_type, set_io_alias,
  set_sme_mode, set_batch, set_rigor,
}
use perf_libs_fft.Api.Plan.{
  valid_transform_kind, Machine, Build, Floating, Builder, refusal, plan_of_type, conclude, deliver,
  plan_create_from_config,
}

-- One of the four functions made the configuration and reported success.
pub data Created (memory : Bool) (target : Target Config) (config : Config) : Type 0 where
  by_create :
      (n : ℤ) (direction : Direction)
      → config_create memory target n direction ≡ ok (plfft_ok, some (some config))
      → Created memory target config
  by_create_r2c :
      (n : ℤ)
      → config_create_r2c memory target n ≡ ok (plfft_ok, some (some config))
      → Created memory target config
  by_create_c2r :
      (n : ℤ)
      → config_create_c2r memory target n ≡ ok (plfft_ok, some (some config))
      → Created memory target config
  by_create_r2r :
      (n : ℤ) (kind : R2rKind)
      → config_create_r2r memory target n kind ≡ ok (plfft_ok, some (some config))
      → Created memory target config

-- After any number of calls of the setters.
pub data Reachable : Config → Type 0 where
  created :
      {memory : Bool} {target : Target Config} {config : Config}
      → Created memory target config
      → Reachable config
  with_data_type :
      {config : Config} → Reachable config → (t : DataType) → Reachable (set_data_type config t)
  with_io_alias :
      {config : Config}
      → Reachable config
      → (alias : IoAlias) → Reachable (set_io_alias config alias)
  with_sme_mode :
      {config : Config} → Reachable config → (mode : SmeMode) → Reachable (set_sme_mode config mode)
  with_batch :
      {config : Config}
      → Reachable config
      → (howmany istride idist ostride odist : ℤ)
      → Reachable (set_batch config howmany istride idist ostride odist)
  with_rigor :
      {config : Config} → Reachable config → (rigor : Rigor) → Reachable (set_rigor config rigor)

-- What is written in the union is read back, for the values with a name.
direction_round_trip :
    (d : Direction) → valid_direction d ≡ true → direction_of (direction_code d) ≡ d
unfolding valid_direction
direction_round_trip plfft_forward v = refl
direction_round_trip plfft_backward v = refl
direction_round_trip (other_direction c) v = ground arith

r2r_round_trip : (k : R2rKind) → valid_r2r_kind k ≡ true → r2r_of (r2r_code k) ≡ k
unfolding valid_r2r_kind
r2r_round_trip k v = ground arith

abbrev handed : Config → Run (Status × Target Config) → Config
handed d (ok (s, some (some config))) = config
handed d _ = d

abbrev is_handed : Run (Status × Target Config) → Bool
is_handed (ok (s, some (some config))) = true
is_handed _ = false

created_default :
    (memory : Bool) (cell : Option Config) (n : ℤ) (kind : TransformKind) (payload : ℤ)
    (config : Config)
    → create_config memory (some cell) n kind payload ≡ ok (plfft_ok, some (some config))
    → default_config n kind payload ≡ config
unfolding create_config
created_default true cell n kind payload config h =
    ap (λ (r : Run (Status × Target Config)). handed (default_config n kind payload) r) h
created_default false cell n kind payload config h = cc

not_handed :
    (r : Run (Status × Target Config)) (config : Config)
    → is_handed r ≡ false
    → r ≢ ok (plfft_ok, some (some config))
not_handed r config e h =
    let t : is_handed r ≡ true = ap (λ (r : Run (Status × Target Config)). is_handed r) h in
    ground arith

default-valid :
    (n : ℤ) (kind : TransformKind) (payload : ℤ) (config : Config)
    → valid_transform_kind (default_config n kind payload) ≡ true
    → default_config n kind payload ≡ config
    → valid_transform_kind config ≡ true
default-valid n kind payload config v e = subst (λ c. valid_transform_kind c ≡ true) e v

Created-valid :
    (memory : Bool) (target : Target Config) (config : Config)
    → Created memory target config
    → valid_transform_kind config ≡ true
unfolding config_create config_create_r2c config_create_c2r config_create_r2r create_config
    valid_transform_kind default_config
Created-valid memory none config (by_create n direction h) = absurd (not_handed _ config refl h)
Created-valid memory none config (by_create_r2c n h) = absurd (not_handed _ config refl h)
Created-valid memory none config (by_create_c2r n h) = absurd (not_handed _ config refl h)
Created-valid memory none config (by_create_r2r n kind h) = absurd (not_handed _ config refl h)
Created-valid memory (some cell) config (by_create_r2c n h) =
    default-valid n transform_r2c (pos 0) config refl
      (created_default memory cell n transform_r2c (pos 0) config h)
Created-valid memory (some cell) config (by_create_c2r n h) =
    default-valid n transform_c2r (pos 0) config refl
      (created_default memory cell n transform_c2r (pos 0) config h)
Created-valid memory (some cell) config (by_create n direction h) =
    elim (Bool-cases (valid_direction direction)) [
      | inl v ↦
          default-valid n transform_c2c (direction_code direction) config
            (ap valid_direction (direction_round_trip direction v) ∙ v)
            (created_default memory none n transform_c2c (direction_code direction) config
              (sym (rw v refl) ∙ h))
      | inr v ↦ absurd (not_handed _ config (rw v refl) h)
    ]
Created-valid memory (some cell) config (by_create_r2r n kind h) =
    elim (Bool-cases (valid_r2r_kind kind)) [
      | inl v ↦
          default-valid n transform_r2r (r2r_code kind) config
            (ap valid_r2r_kind (r2r_round_trip kind v) ∙ v)
            (created_default memory none n transform_r2r (r2r_code kind) config
              (sym (rw v refl) ∙ h))
      | inr v ↦ absurd (not_handed _ config (rw v refl) h)
    ]

-- A configuration that a program makes has a transform kind that is valid, with any batch and any
-- setting.
pub Reachable-valid_transform_kind :
    (config : Config) → Reachable config → valid_transform_kind config ≡ true
unfolding valid_transform_kind set_data_type set_io_alias set_sme_mode set_batch set_rigor
Reachable-valid_transform_kind _ (created c) = Created-valid _ _ _ c
Reachable-valid_transform_kind _ (with_data_type r t) = Reachable-valid_transform_kind _ r
Reachable-valid_transform_kind _ (with_io_alias r t) = Reachable-valid_transform_kind _ r
Reachable-valid_transform_kind _ (with_sme_mode r t) = Reachable-valid_transform_kind _ r
Reachable-valid_transform_kind _ (with_rigor r t) = Reachable-valid_transform_kind _ r
Reachable-valid_transform_kind _ (with_batch r _ _ _ _ _) = Reachable-valid_transform_kind _ r

module _ {Plan Double : Type 0} (build : Build) (machine : Machine) (floating : Floating Double)
    (builder : Builder Plan Double) where
  refusal-valid :
      (config : Config)
      → valid_transform_kind config ≡ true
      → refusal build machine floating builder config ≢ some plfft_invalid_transform_kind
  unfolding refusal
  refusal-valid config v = ground arith

  abbrev status_of : Run (Status × Target Plan) → Status
  status_of (ok (status, target)) = status
  status_of abort = plfft_ok

  conclude-status :
      (refused : Option Status) (made : Option (Run (Option Plan)))
      → refused ≢ some plfft_invalid_transform_kind
      → status_of (conclude build machine floating builder refused made)
        ≢ plfft_invalid_transform_kind
  unfolding conclude deliver
  conclude-status (some s) made r e = r (ap some e)
  conclude-status none none r e = ground arith
  conclude-status none (some abort) r e = ground arith
  conclude-status none (some (ok none)) r e = ground arith
  conclude-status none (some (ok (some plan))) r e = ground arith

  -- No call on a configuration that a program makes reports an invalid transform kind.
  pub plan_create_from_config-Reachable :
      (cell : Option Plan) (config : Config) (status : Status) (target : Target Plan)
      → Reachable config
      → plan_create_from_config build machine floating builder (some cell) (some config)
        ≡ ok (status, target)
      → status ≢ plfft_invalid_transform_kind
  unfolding plan_create_from_config
  plan_create_from_config-Reachable cell config status target r h e =
      conclude-status (refusal build machine floating builder config)
        (plan_of_type build machine floating builder config)
        (refusal-valid config (Reachable-valid_transform_kind config r))
        (ap (λ (t : Run (Status × Target Plan)). status_of t) h ∙ e)
