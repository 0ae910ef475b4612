-- ===== src/Api/Plan/Acceptance.antt =====
-- Which configurations `plfft_plan_create_from_config` accepts: src/plfft.cpp.
use perf_libs_fft.Base.{
  zero, suc, ◌≡◌, ◌≢◌, refl, sym, ap, ◌∙◌, ◌⊎◌, ◌↔◌, inl, inr, true, false, not, ◌&&◌, Option, none,
  some, Option-cases, arith,
}
use perf_libs_fft.Base.Int.{ℤ, pos, negsuc, int_eq_iff, ◌≤ℤ◌}
use perf_libs_fft.Planner.Run.{Run, ok, abort}
use perf_libs_fft.Api.Types.{Status, plfft_ok, no_alias, may_alias, disabled, enabled}
use perf_libs_fft.Api.Config.{Config, Target}
use perf_libs_fft.Api.Plan.{
  positive, valid_size, valid_batch, valid_transform_kind, valid_alias, valid_sme_mode, want_sme,
  valid_rigor, Machine, Build, Floating, Builder, is_r2r, is_fp16, is_fixed_point, real_of, refusal,
  plan_of_type, deliver, conclude, plan_create_from_config,
}

-- What a caller has to provide, in its own words: positive lengths, counts and strides, distances
-- for more than one transform, values that the enumerations name, and what the machine supports.
pub record IsAcceptable (build : Build) (machine : Machine) (config : Config) : Type 0 where
  pub size : pos 1 ≤ℤ config.n
  pub count : pos 1 ≤ℤ config.howmany
  pub strides : (pos 1 ≤ℤ config.istride) × (pos 1 ≤ℤ config.ostride)
  pub distances : (config.howmany ≡ pos 1) ⊎ ((pos 1 ≤ℤ config.idist) × (pos 1 ≤ℤ config.odist))
  pub kind : valid_transform_kind config ≡ true
  pub alias : (config.alias ≡ no_alias) ⊎ (config.alias ≡ may_alias)
  pub sme :
      (config.sme_mode ≡ disabled)
      ⊎ ((config.sme_mode ≡ enabled)
          × (is_r2r config.transform_kind ≡ false)
          × (is_fixed_point (real_of config.data_type) ≡ false)
          × (build.enable_sme ≡ true)
          × (machine.sme ≡ true))
  pub half :
      (is_fp16 config.data_type ≡ false) ⊎ (machine.asimdhp ≡ true) ⊎ (machine.emulates_fp16 ≡ true)
  pub effort : valid_rigor config ≡ true

positive_iff : (i : ℤ) → (positive i ≡ true) ↔ (pos 1 ≤ℤ i)
positive_iff (pos zero) = ground arith
positive_iff (pos (suc n)) = ground arith
positive_iff (negsuc n) = ground arith

module _ (build : Build) (machine : Machine) (config : Config) where
  batch_iff : (valid_batch config ≡ true) ↔ (
      (pos 1 ≤ℤ config.howmany)
      × ((pos 1 ≤ℤ config.istride) × (pos 1 ≤ℤ config.ostride))
      × ((config.howmany ≡ pos 1) ⊎ ((pos 1 ≤ℤ config.idist) × (pos 1 ≤ℤ config.odist))))
  unfolding valid_batch
  batch_iff = ground (
    arith,
    positive_iff config.howmany,
    positive_iff config.istride,
    positive_iff config.ostride,
    positive_iff config.idist,
    positive_iff config.odist,
    int_eq_iff config.howmany (pos 1),
  )

  alias_iff : (valid_alias config ≡ true) ↔ ((config.alias ≡ no_alias) ⊎ (config.alias ≡ may_alias))
  unfolding valid_alias
  alias_iff = ground arith

  sme_iff :
      ((valid_sme_mode config ≡ true)
        × (want_sme config && is_r2r config.transform_kind ≡ false)
        × (want_sme config && is_fixed_point (real_of config.data_type) ≡ false)
        × (not build.enable_sme && want_sme config ≡ false)
        × (build.enable_sme && want_sme config && not machine.sme ≡ false))
      ↔ ((config.sme_mode ≡ disabled)
          ⊎ ((config.sme_mode ≡ enabled)
              × (is_r2r config.transform_kind ≡ false)
              × (is_fixed_point (real_of config.data_type) ≡ false)
              × (build.enable_sme ≡ true)
              × (machine.sme ≡ true)))
  unfolding valid_sme_mode want_sme
  sme_iff = ground arith

module _ {Plan Double : Type 0} (build : Build) (machine : Machine) (floating : Floating Double)
    (builder : Builder Plan Double) where
  record Tests (config : Config) : Type 0 where
    size : valid_size config ≡ true
    batch : valid_batch config ≡ true
    kind : valid_transform_kind config ≡ true
    alias : valid_alias config ≡ true
    mode : valid_sme_mode config ≡ true
    r2r : want_sme config && is_r2r config.transform_kind ≡ false
    fixed : want_sme config && is_fixed_point (real_of config.data_type) ≡ false
    built : not build.enable_sme && want_sme config ≡ false
    available : build.enable_sme && want_sme config && not machine.sme ≡ false
    half : is_fp16 config.data_type && not machine.asimdhp && not machine.emulates_fp16 ≡ false
    effort : valid_rigor config ≡ true

  refusal-Tests :
      (config : Config) → refusal build machine floating builder config ≡ none → Tests config
  unfolding refusal
  refusal-Tests config h = ground arith

  Tests-refusal :
      (config : Config) → Tests config → refusal build machine floating builder config ≡ none
  unfolding refusal
  Tests-refusal config t =
      rw
        (
          t.size, t.batch, t.kind, t.alias, t.mode, t.r2r, t.fixed, t.built, t.available, t.half,
          t.effort,
        )
        refl

  size_iff : (config : Config) → (valid_size config ≡ true) ↔ (pos 1 ≤ℤ config.n)
  unfolding valid_size
  size_iff config = positive_iff config.n

  half_iff :
      (config : Config)
      → (is_fp16 config.data_type && not machine.asimdhp && not machine.emulates_fp16 ≡ false) ↔ (
          (is_fp16 config.data_type ≡ false)
          ⊎ (machine.asimdhp ≡ true)
          ⊎ (machine.emulates_fp16 ≡ true))
  half_iff config = ground arith

  -- The early returns let through just the configurations that are acceptable.
  pub refusal_iff :
      (config : Config)
      → (refusal build machine floating builder config ≡ none) ↔ IsAcceptable build machine config
  refusal_iff config = (
    (λ h.
        let t = refusal-Tests config h in
        let b = (batch_iff build machine config).0 t.batch in
        record {
          size = (size_iff config).0 t.size;
          count = b.0;
          strides = b.1;
          distances = b.2;
          kind = t.kind;
          alias = (alias_iff build machine config).0 t.alias;
          sme = (sme_iff build machine config).0 (t.mode, t.r2r, t.fixed, t.built, t.available);
          half = (half_iff config).0 t.half;
          effort = t.effort;
        }),
    (λ a.
        let (mode, r2r, fixed, built, available) = (sme_iff build machine config).1 a.sme in
        Tests-refusal config (record {
          size = (size_iff config).1 a.size;
          batch = (batch_iff build machine config).1 (a.count, a.strides, a.distances);
          kind = a.kind;
          alias = (alias_iff build machine config).1 a.alias;
          mode = mode;
          r2r = r2r;
          fixed = fixed;
          built = built;
          available = available;
          half = (half_iff config).1 a.half;
          effort = a.effort;
        })),
  )

  none-some : (s : Status) → none ≢ some s
  none-some s = ground arith

  cleared_handed :
      (s : Status) (plan : Plan)
      → ◌≢◌ {A = Run (Status × Target Plan)} (ok (s, some none)) (ok (plfft_ok, some (some plan)))
  cleared_handed s plan h =
      none-some plfft_ok (ap (λ (r : Run (Status × Target Plan)). is_handed r) h)
    where
      is_handed : Run (Status × Target Plan) → Option Status
      is_handed abort = none
      is_handed (ok (s, some (some plan))) = some plfft_ok
      is_handed _ = none

  refused :
      (cell : Option Plan) (config : Config) (s : Status)
      → refusal build machine floating builder config ≡ some s
      → plan_create_from_config build machine floating builder (some cell) (some config)
        ≡ ok (s, some none)
  unfolding plan_create_from_config conclude
  refused cell config s e = rw e refl

  -- Where the builders give a plan for the configuration, the call succeeds and stores it if the
  -- configuration is acceptable, and only then.
  pub plan_create_from_config-plfft_ok :
      (cell : Option Plan) (config : Config) (plan : Plan)
      → plan_of_type build machine floating builder config ≡ some (ok (some plan))
      → (plan_create_from_config build machine floating builder (some cell) (some config)
          ≡ ok (plfft_ok, some (some plan)))
        ↔ IsAcceptable build machine config
  unfolding plan_create_from_config conclude deliver
  plan_create_from_config-plfft_ok cell config plan made =
      elim (Option-cases (refusal build machine floating builder config)) [
        | inl e ↦ ((λ _. (refusal_iff config).0 e), (λ _. rw (e, made) refl))
        | inr (s, e) ↦ (
          (λ h. absurd (cleared_handed s plan (sym (refused cell config s e) ∙ h))),
          (λ a. absurd (none-some s (sym ((refusal_iff config).1 a) ∙ e))),
        )
      ]
