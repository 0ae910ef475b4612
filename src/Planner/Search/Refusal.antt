-- ===== src/Planner/Search/Refusal.antt =====
-- When the planner returns no plan: exactly when every strategy refuses the problem.
use perf_libs_fft.Base.{
  ℕ, ◌+◌, ◌≡◌, refl, sym, ap, ◌∙◌, ◌↔◌, Bool, true, false, List, [], ◌∷◌, Option, none, some, arith,
  subst, if◌then◌else◌,
}
use perf_libs_fft.Planner.Policy.{Policy}
use perf_libs_fft.Planner.Problem.{Problem}
use perf_libs_fft.Planner.Run.{Run, ok, abort, ◌>>=◌, ok-injective, >>=-eq-ok}
use perf_libs_fft.Planner.Search.Rounds.{late, refused, judged, Keeps, audition_inv}
use perf_libs_fft.Planner.Search.{
  State, Bench, Strategy, Best, no_best, is_some, judge, settle, try_strategy, out_of_time,
  audition, remember, make_plan_impl,
}
use perf_libs_fft.Planner.Wisdom.{StdHash, lookup}

module _ {World Plan Result : Type 0} (bench : Bench World Plan Result) (p : Problem)
    (policy : Policy) where
  -- After a candidate there is a best plan.
  judge-is_some :
      (candidate : Plan) (index : ℕ) (best : Best Plan Result) (s : State World)
      → is_some (judge bench p policy candidate index best s).1.plan ≡ true
  unfolding judge
  judge-is_some candidate index best s = ground arith

  -- Every strategy, asked in turn, gives no plan; the state goes from `s` to `s'`.
  abbrev pub AllRefuse : List (Option (Strategy World Plan)) → State World → State World → Type 0
  AllRefuse [] s s' = s ≡ s'
  AllRefuse (none ∷ strategies) s s' = AllRefuse strategies s s'
  AllRefuse (some f ∷ strategies) s s' =
      (t : State World) × (f p policy s ≡ ok (none, t)) × AllRefuse strategies t s'

  no_clock : (s : State World) → out_of_time bench p policy no_best s ≡ (false, s)
  unfolding out_of_time
  no_clock s = ground arith

  audition-AllRefuse :
      (strategies : List (Option (Strategy World Plan))) (index : ℕ) (s s' : State World)
      → AllRefuse strategies s s'
      → audition bench p policy strategies index no_best s ≡ ok (no_best, s')
  unfolding audition try_strategy settle
  audition-AllRefuse [] index s s' e = ap (λ x. ok (no_best, x)) e
  audition-AllRefuse (none ∷ strategies) index s s' r =
      audition-AllRefuse strategies (index + 1) s s' r
  audition-AllRefuse (some f ∷ strategies) index s s' (t, e, r) =
      rw (no_clock s, e) (audition-AllRefuse strategies (index + 1) t s' r)

  HasPlan : Best Plan Result → State World → Type 0
  HasPlan best s = is_some best.plan ≡ true

  -- Once there is a best plan, there is one at the end.
  HasPlan-Keeps :
      (strategies : List (Option (Strategy World Plan))) (index : ℕ)
      → Keeps bench p policy HasPlan strategies index
  unfolding HasPlan
  HasPlan-Keeps strategies index j f best s b best' s' e has (late _ _ same _) =
      subst (λ x. is_some x.plan ≡ true) (sym same) has
  HasPlan-Keeps strategies index j f best s b best' s' e has (refused _ _ _ _ same) =
      subst (λ x. is_some x.plan ≡ true) (sym same) has
  HasPlan-Keeps strategies index j f best s b best' s' e has (judged s₁ s₂ c _ _ i) =
      subst (λ x. is_some x.1.plan ≡ true) i (judge-is_some c (index + j) best s₂)

  has_plan :
      (strategies : List (Option (Strategy World Plan))) (index : ℕ) (best best' : Best Plan Result)
      (s s' : State World)
      → is_some best.plan ≡ true
      → audition bench p policy strategies index best s ≡ ok (best', s')
      → best'.plan ≡ none
      → ⊥
  unfolding HasPlan
  has_plan strategies index best best' s s' has run gone = cc (
    audition_inv bench p policy HasPlan strategies index (HasPlan-Keeps strategies index) best s
        best' s' has run,
    ap is_some gone,
  )

  -- The rest of the audition after a round that left a best plan.
  kept_plan :
      (strategies : List (Option (Strategy World Plan))) (index : ℕ)
      (t : Bool × Best Plan Result × State World) (best' : Best Plan Result) (s' : State World)
      → is_some t.1.plan ≡ true
      → (let rest = audition bench p policy strategies index t.1 t.2 in
          if t.0 then ok (t.1, t.2) else rest)
        ≡ ok (best', s')
      → best'.plan ≡ none
      → ⊥
  kept_plan strategies index (true, best, s) best' s' has run gone =
      cc (has, ap (λ x. is_some x.0.plan) (ok-injective _ _ run), ap is_some gone)
  kept_plan strategies index (false, best, s) best' s' has run gone =
      has_plan strategies index best best' s s' has run gone

  module _ (f : Strategy World Plan) (strategies : List (Option (Strategy World Plan))) (index : ℕ)
      (s s' : State World) (best' : Best Plan Result) (gone : best'.plan ≡ none)
      (rest : (t : State World)
        → audition bench p policy strategies (index + 1) no_best t ≡ ok (best', s')
        → AllRefuse strategies t s') where
    AllRefuse-asked :
        (r : Run (Option Plan × State World))
        → f p policy s ≡ r
        → ((r >>= λ x. ok (settle bench p policy x.0 index no_best x.1)) >>= λ t.
            (let go = audition bench p policy strategies (index + 1) t.1 t.2 in
              if t.0 then ok (t.1, t.2) else go))
          ≡ ok (best', s')
        → AllRefuse (some f ∷ strategies) s s'
    unfolding settle
    AllRefuse-asked abort e h = absurd (cc)
    AllRefuse-asked (ok (none, t)) e h = (t, e, rest t h)
    AllRefuse-asked (ok (some c, t)) e h = absurd (
        kept_plan strategies (index + 1) (judge bench p policy c index no_best t) best' s'
          (judge-is_some c index no_best t) h gone)

  AllRefuse-audition :
      (strategies : List (Option (Strategy World Plan))) (index : ℕ) (s s' : State World)
      (best' : Best Plan Result)
      → audition bench p policy strategies index no_best s ≡ ok (best', s')
      → best'.plan ≡ none
      → AllRefuse strategies s s'
  unfolding audition try_strategy
  AllRefuse-audition [] index s s' best' run gone = ap (λ x. x.1) (ok-injective _ _ run)
  AllRefuse-audition (none ∷ strategies) index s s' best' run gone =
      AllRefuse-audition strategies (index + 1) s s' best' run gone
  AllRefuse-audition (some f ∷ strategies) index s s' best' run gone =
      AllRefuse-asked f strategies index s s' best' gone
        (λ t e. AllRefuse-audition strategies (index + 1) t s' best' e gone) (f p policy s) refl
        (rw (no_clock s) at run)

module _ {World Plan Result : Type 0} (h : StdHash) (bench : Bench World Plan Result)
    (strategies : List (Option (Strategy World Plan))) (p : Problem) (policy : Policy)
    (s s' : State World) (fresh : lookup h p policy s.wisdom ≡ none) where
  nothing_to_remember :
      (best : Best Plan Result) (t : State World)
      → best.strategy_index ≡ none
      → remember h bench strategies p policy best t ≡ t
  unfolding remember
  nothing_to_remember best t e = rw (e, remember) refl

  -- For a problem that wisdom does not know, the planner returns no plan exactly when every
  -- strategy of the table refuses it; running out of time never loses a plan.
  pub make_plan_impl-AllRefuse :
      (make_plan_impl h bench strategies p policy s ≡ ok (none, s'))
      ↔ AllRefuse bench p policy strategies s s'
  unfolding make_plan_impl remember
  make_plan_impl-AllRefuse = (
    λ e.
        (let (r, run, rest) =
            >>=-eq-ok (audition bench p policy strategies 0 no_best s) _
              (rw (fresh, make_plan_impl) at e) in
          let refuse =
            AllRefuse-audition bench p policy strategies 0 s r.1 r.0 run
              (ap (λ x. x.0) (ok-injective _ _ rest)) in
          let same =
            ok-injective _ _
              (sym run ∙ audition-AllRefuse bench p policy strategies 0 s r.1 refuse) in
          let state : r.1 ≡ s' =
            sym (nothing_to_remember r.0 r.1 (ap (λ x. x.0.strategy_index) same))
            ∙ ap (λ x. x.1) (ok-injective _ _ rest) in
          subst (AllRefuse bench p policy strategies s) state refuse),
    λ a. rw (fresh, make_plan_impl, audition-AllRefuse bench p policy strategies 0 s s' a) refl,
  )
