-- ===== src/Api/Plan/Outcome.antt =====
-- What the status of `plfft_plan_create_from_config` says: src/plfft.cpp.
use perf_libs_fft.Base.{◌≡◌, ◌≢◌, ap, subst, ◌↔◌, true, Option, none, some, arith}
use perf_libs_fft.Base.Int.{ℤ, pos, ◌≤ℤ◌}
use perf_libs_fft.Planner.Run.{Run, ok, abort, ok-injective}
use perf_libs_fft.Api.Types.{Status, plfft_ok}
use perf_libs_fft.Api.Config.{Config, Target}
use perf_libs_fft.Api.Plan.{
  positive, Machine, Build, Floating, Builder, refusal, deliver, conclude, plan_create_from_config,
}

positive_iff : (i : ℤ) → (positive i ≡ true) ↔ (pos 1 ≤ℤ i)
positive_iff i = ground arith

module _ {Plan Double : Type 0} (build : Build) (machine : Machine) (floating : Floating Double)
    (builder : Builder Plan Double) where
  -- A handle, or none.
  pub data IsConsistent : Status → Target Plan → Type 0 where
    handed : (plan : Plan) → IsConsistent plfft_ok (some (some plan))
    cleared : {status : Status} → status ≢ plfft_ok → IsConsistent status (some none)
    nowhere : {status : Status} → status ≢ plfft_ok → IsConsistent status none

  refusal-plfft_ok :
      (config : Config) → refusal build machine floating builder config ≢ some plfft_ok
  unfolding refusal
  refusal-plfft_ok config = ground arith

  deliver-IsConsistent :
      (made : Option Plan)
      → let (status, target) = deliver build machine floating builder made in
        IsConsistent status target
  unfolding deliver
  deliver-IsConsistent none = cleared (ground arith)
  deliver-IsConsistent (some plan) = handed plan

  conclude-IsConsistent :
      (refused : Option Status) (made : Option (Run (Option Plan))) (status : Status)
      (target : Target Plan)
      → refused ≢ some plfft_ok
      → conclude build machine floating builder refused made ≡ ok (status, target)
      → IsConsistent status target
  unfolding conclude
  conclude-IsConsistent (some s) made status target r h =
      subst (λ (t : Status × Target Plan). IsConsistent t.0 t.1) (ok-injective _ _ h)
        (cleared (λ e. r (ap some e)))
  conclude-IsConsistent none none status target r h =
      subst (λ (t : Status × Target Plan). IsConsistent t.0 t.1) (ok-injective _ _ h)
        (cleared (ground arith))
  conclude-IsConsistent none (some abort) status target r h = cc
  conclude-IsConsistent none (some (ok plan)) status target r h =
      subst (λ (t : Status × Target Plan). IsConsistent t.0 t.1) (ok-injective _ _ h)
        (deliver-IsConsistent plan)

  -- Whatever a call that returns was given, its status is `plfft_ok` exactly if it stored a handle;
  -- with any other status the caller's pointer, if there is one, was set to null.
  pub plan_create_from_config-IsConsistent :
      (target : Target Plan) (config : Option Config) (status : Status) (target' : Target Plan)
      → plan_create_from_config build machine floating builder target config ≡ ok (status, target')
      → IsConsistent status target'
  unfolding plan_create_from_config
  plan_create_from_config-IsConsistent none config status target' h =
      subst (λ (t : Status × Target Plan). IsConsistent t.0 t.1) (ok-injective _ _ h)
        (nowhere (ground arith))
  plan_create_from_config-IsConsistent (some cell) none status target' h =
      subst (λ (t : Status × Target Plan). IsConsistent t.0 t.1) (ok-injective _ _ h)
        (cleared (ground arith))
  plan_create_from_config-IsConsistent (some cell) (some config) status target' h =
      conclude-IsConsistent _ _ status target' (refusal-plfft_ok config) h
