-- ===== src/Planner/Search/Provenance.antt =====
-- Where a plan that the planner returns comes from, whether or not wisdom knew the problem:
-- `make_plan_impl` of src/planner/planner.cpp.
use mathlib.Core.Option.{some-injective, none-ne-some}
use perf_libs_fft.Base.{
  ℕ, ◌+◌, ◌≡◌, refl, sym, subst, ap, ◌∙◌, inl, inr, Bool, List, Option, none, some, get_elem?,
  Option-cases,
}
use perf_libs_fft.Planner.Policy.{Policy}
use perf_libs_fft.Planner.Policy.Order.{Includes, Includes-refl}
use perf_libs_fft.Planner.Problem.{Problem}
use perf_libs_fft.Planner.Run.{Run, ok, abort, ◌>>=◌, ok-injective, >>=-eq-ok}
use perf_libs_fft.Planner.Search.{
  State, Bench, Strategy, Best, no_best, judge, audition, recall, make_plan_impl,
}
use perf_libs_fft.Planner.Search.Outcome.{judge_cases}
use perf_libs_fft.Planner.Search.Rounds.{late, refused, judged, Keeps, audition_inv}
use perf_libs_fft.Planner.Wisdom.{Entry, StdHash, lookup}
use perf_libs_fft.Planner.Wisdom.Permitted.{lookup-Includes}

module _ {World Plan Result : Type 0} (h : StdHash) (bench : Bench World Plan Result)
    (strategies : List (Option (Strategy World Plan))) (p : Problem) (policy : Policy)
    (Good : Plan → Type 0)
    (makes_good : (j : ℕ) (f : Strategy World Plan) (part : Policy) (s t : State World)
        (plan : Plan)
      → Includes policy part
      → get_elem? strategies j ≡ some (some f)
      → f p part s ≡ ok (some plan, t)
      → Good plan) where
  abbrev AllGood : Best Plan Result → State World → Type 0
  AllGood best s = (plan : Plan) → best.plan ≡ some plan → Good plan

  AllGood-Keeps : Keeps bench p policy AllGood strategies 0
  AllGood-Keeps j f best s b best' s' e good (late some_plan b_true same w) plan is =
      good plan (ap (λ (x : Best Plan Result). x.plan) (sym same) ∙ is)
  AllGood-Keeps j f best s b best' s' e good (refused s₁ w run b_false same) plan is =
      good plan (ap (λ (x : Best Plan Result). x.plan) (sym same) ∙ is)
  AllGood-Keeps j f best s b best' s' e good (judged s₁ s₂ c w run i) plan is =
      let (_, cases) = judge_cases bench p policy c (0 + j) best s₂ in
      let now : (judge bench p policy c (0 + j) best s₂).1.plan ≡ best'.plan =
        ap (λ (x : Bool × Best Plan Result × State World). x.1.plan) i in
      elim cases [
        | inl same ↦ good plan (sym same.0 ∙ now ∙ is)
        | inr new ↦
            subst Good (some-injective c plan (sym new.0 ∙ now ∙ is))
              (makes_good j f policy s₁ s₂ c (Includes-refl policy) e run)
      ]

  recalled :
      (entry : Entry) (s s' : State World) (plan : Plan)
      → Includes policy entry.policy
      → recall h bench strategies entry p s ≡ ok (some plan, s')
      → Good plan
  unfolding recall
  recalled entry s s' plan part e = from_slot (get_elem? strategies entry.strategy_idx) refl e
    where
      from_strategy :
          (f : Strategy World Plan) (outcome : Run (Option Plan × State World))
          → get_elem? strategies entry.strategy_idx ≡ some (some f)
          → f p entry.policy s ≡ outcome
          → (outcome >>= λ r.
              (let next : Run (Option Plan × State World) = elim r.0 [
                | none ↦ abort
                | some made ↦ ok (some made, r.1)
              ] in
                next))
            ≡ ok (some plan, s')
          → Good plan
      from_strategy f abort slot run e = absurd (cc)
      from_strategy f (ok (none, t)) slot run e = absurd (cc)
      from_strategy f (ok (some made, t)) slot run e =
          let same : made ≡ plan =
            some-injective made plan
              (ap (λ (x : Option Plan × State World). x.0) (ok-injective _ _ e)) in
          subst Good same (makes_good entry.strategy_idx f entry.policy s t made part slot run)

      from_slot :
          (slot : Option (Option (Strategy World Plan)))
          → get_elem? strategies entry.strategy_idx ≡ slot
          → (let found : Run (Option Plan × State World) = elim slot [
            | none ↦ abort
            | some none ↦ abort
            | some (some strategy) ↦ strategy p entry.policy s >>= λ r. elim r.0 [
              | none ↦ abort
              | some made ↦ ok (some made, r.1)
            ]
          ] in
              found)
            ≡ ok (some plan, s')
          → Good plan
      from_slot none slot e = absurd (cc)
      from_slot (some none) slot e = absurd (cc)
      from_slot (some (some f)) slot e = from_strategy f (f p entry.policy s) slot refl e

  -- A plan that `make_plan_impl` returns has every property that the strategies of its table give
  -- to the plans that they make for the problem under the policy or a part of it.
  pub make_plan_impl-Good :
      (s s' : State World) (plan : Plan)
      → make_plan_impl h bench strategies p policy s ≡ ok (some plan, s')
      → Good plan
  unfolding make_plan_impl
  make_plan_impl-Good s s' plan e = elim (Option-cases (lookup h p policy s.wisdom)) [
    | inl fresh ↦
        let (r, run, rest) =
          >>=-eq-ok (audition bench p policy strategies 0 no_best s) _
            (rw (fresh, make_plan_impl) at e) in
        audition_inv bench p policy AllGood strategies 0 AllGood-Keeps no_best s r.0 r.1
          (λ made is. absurd (none-ne-some made is)) run plan
          (ap (λ (x : Option Plan × State World). x.0) (ok-injective _ _ rest))
    | inr (entry, known) ↦
        recalled entry s s' plan (lookup-Includes h p policy s.wisdom entry known)
          (rw (known, make_plan_impl) at e)
  ]
