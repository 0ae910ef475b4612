-- ===== src/Planner/Search/Outcome.antt =====
-- What an audition and its plan are: where the plan comes from, and when there is none.
use perf_libs_fft.Base.{
  ℕ, ◌+◌, ◌≡◌, refl, sym, ap, ◌∙◌, subst₂, ◌⊎◌, inl, inr, Bool, List, Option, none, some, get_elem?,
  arith, subst,
}
use mathlib.Core.Option.{some-injective}
use perf_libs_fft.Planner.Policy.{Policy}
use perf_libs_fft.Planner.Problem.{Problem}
use perf_libs_fft.Planner.Run.{Run, ok, ok-injective, >>=-eq-ok}
use perf_libs_fft.Planner.Search.Rounds.{late, refused, judged, Keeps, audition_inv}
use perf_libs_fft.Planner.Search.{
  State, Bench, Strategy, Best, no_best, judge, audition, remember, make_plan_impl,
}
use perf_libs_fft.Planner.Wisdom.{Entry, StdHash, lookup, update}
use perf_libs_fft.Planner.Wisdom.Table.{IsValid, lookup-update, update-IsValid}

-- The plan and the index of the best strategy are set together.
abbrev pub Agrees : {Plan : Type 0} → (Plan → ℕ → Type 0) → Option Plan → Option ℕ → Type 0
Agrees Made none none = Unit {0}
Agrees Made (some plan) (some index) = Made plan index
Agrees Made none (some index) = ⊥
Agrees Made (some plan) none = ⊥

module _ {World Plan Result : Type 0} (bench : Bench World Plan Result) (p : Problem)
    (policy : Policy) where
  -- A candidate leaves wisdom alone, and becomes the best plan under its index or changes neither.
  pub judge_cases :
      (candidate : Plan) (index : ℕ) (best : Best Plan Result) (s : State World)
      → let t = judge bench p policy candidate index best s in
        (t.2.wisdom ≡ s.wisdom)
        × (((t.1.plan ≡ best.plan) × (t.1.strategy_index ≡ best.strategy_index))
            ⊎ ((t.1.plan ≡ some candidate) × (t.1.strategy_index ≡ some index)))
  unfolding judge
  judge_cases candidate index best s = ground arith

-- The plan comes from the strategy in the slot, asked for this problem under this policy.
abbrev pub Makes :
    {World Plan : Type 0}
    → List (Option (Strategy World Plan))
    → Problem
    → Policy
    → Plan
    → ℕ
    → Type 0
Makes {World} strategies p policy plan index =
    (f : Strategy World _) × (s t : State World) × (get_elem? strategies index ≡ some (some f))
    × (f p policy s ≡ ok (some plan, t))

module _ {World Plan Result : Type 0} (h : StdHash) (bench : Bench World Plan Result)
    (strategies : List (Option (Strategy World Plan))) where
  -- Every strategy of the list keeps wisdom well formed.
  abbrev pub StrategiesKeep : Type 0
  StrategiesKeep =
      (j : ℕ) (f : Strategy World Plan) (q : Problem) (policy : Policy) (s : State World)
      (r : Option Plan) (t : State World)
      → get_elem? strategies j ≡ some (some f)
      → IsValid h s.wisdom
      → f q policy s ≡ ok (r, t)
      → IsValid h t.wisdom

  module _ (keep : StrategiesKeep) (p : Problem) (policy : Policy) where
    -- The best plan was made by the strategy that its index names, and wisdom is well formed.
    abbrev Fair : Best Plan Result → State World → Type 0
    Fair best s =
        Agrees (Makes strategies p policy) best.plan best.strategy_index × IsValid h s.wisdom

    Fair-judged :
        (f : Strategy World Plan) (s₁ s₂ s' : State World) (candidate : Plan) (index : ℕ)
        (best best' : Best Plan Result) (b : Bool)
        → get_elem? strategies index ≡ some (some f)
        → f p policy s₁ ≡ ok (some candidate, s₂)
        → judge bench p policy candidate index best s₂ ≡ (b, best', s')
        → Agrees (Makes strategies p policy) best.plan best.strategy_index
        → IsValid h s₂.wisdom
        → Fair best' s'
    Fair-judged f s₁ s₂ s' candidate index best best' b e run j a v =
        let (w, c) = judge_cases bench p policy candidate index best s₂ in
        subst (λ x. Fair x.1 x.2) j
          (
            elim c [
              | inl same ↦ subst₂ (Agrees (Makes strategies p policy)) (sym same.0) (sym same.1) a
              | inr new ↦
                  subst₂ (Agrees (Makes strategies p policy)) (sym new.0) (sym new.1)
                    (f, s₁, s₂, e, run)
            ],
            subst (IsValid h) (sym w) v,
          )

    Fair-Keeps : Keeps bench p policy Fair strategies 0
    Fair-Keeps j f best s b best' s' e (a, v) (late some_plan b_true same w) = (
      subst (λ x. Agrees (Makes strategies p policy) x.plan x.strategy_index) (sym same) a,
      subst (IsValid h) (sym w) v,
    )
    Fair-Keeps j f best s b best' s' e (a, v) (refused s₁ w run b_false same) = (
      subst (λ x. Agrees (Makes strategies p policy) x.plan x.strategy_index) (sym same) a,
      keep j f p policy s₁ none s' e (subst (IsValid h) (sym w) v) run,
    )
    Fair-Keeps j f best s b best' s' e (a, v) (judged s₁ s₂ c w run i) =
        Fair-judged f s₁ s₂ s' c (0 + j) best best' b
          (subst (λ k. get_elem? strategies k ≡ some (some f)) (omega arith) e) run i a
          (keep j f p policy s₁ (some c) s₂ e (subst (IsValid h) (sym w) v) run)

    -- A planned problem: who made the plan, and what wisdom says of the problem afterwards.
    abbrev pub Remembered : Plan → State World → Type 0
    Remembered plan s' =
        (index : ℕ) × Makes strategies p policy plan index
        × (lookup h p policy s'.wisdom ≡ some (record { strategy_idx = index; policy = policy }))
        × IsValid h s'.wisdom

    remember-Remembered :
        (made : Option Plan) (slot : Option ℕ) (best : Best Plan Result) (t s' : State World)
        (plan : Plan)
        → best.plan ≡ made
        → best.strategy_index ≡ slot
        → Agrees (Makes strategies p policy) made slot
        → IsValid h t.wisdom
        → ◌≡◌ {A = Run (Option Plan × State World)}
            (ok (best.plan, remember h bench strategies p policy best t))
            (ok (some plan, s'))
        → Remembered plan s'
    unfolding remember
    remember-Remembered none none best t s' plan i j a v e = absurd (cc)
    remember-Remembered none (some index) best t s' plan i j a v e = absurd a
    remember-Remembered (some made) none best t s' plan i j a v e = absurd a
    remember-Remembered (some made) (some index) best t s' plan i j a v e =
        let entry : Entry = record { strategy_idx = index; policy = policy } in
        let u = ok-injective _ _ e in
        let stored : (remember h bench strategies p policy best t).wisdom
            ≡ update h p entry t.wisdom =
          rw (j, remember) refl in
        let state : s'.wisdom ≡ update h p entry t.wisdom = sym (ap (λ x. x.1.wisdom) u) ∙ stored in
        (
          index,
          subst (λ x. Makes strategies p policy x index)
              (some-injective made plan (sym i ∙ ap (λ x. x.0) u)) a,
          rw state (lookup-update h p entry t.wisdom v),
          rw state (update-IsValid h p entry t.wisdom v),
        )

    -- A plan that the audition returns was made by some strategy of the table, asked for this very
    -- problem and policy, and from then on wisdom names that strategy for the same request.
    pub make_plan_impl-Remembered :
        (s s' : State World) (plan : Plan)
        → IsValid h s.wisdom
        → lookup h p policy s.wisdom ≡ none
        → make_plan_impl h bench strategies p policy s ≡ ok (some plan, s')
        → Remembered plan s'
    unfolding make_plan_impl
    make_plan_impl-Remembered s s' plan v fresh e =
        let (r, run, rest) =
          >>=-eq-ok (audition bench p policy strategies 0 no_best s) _
            (rw (fresh, make_plan_impl) at e) in
        let fair =
          audition_inv bench p policy Fair strategies 0 Fair-Keeps no_best s r.0 r.1 (tt, v) run in
        remember-Remembered r.0.plan r.0.strategy_index r.0 r.1 s' plan refl refl fair.0 fair.1 rest
