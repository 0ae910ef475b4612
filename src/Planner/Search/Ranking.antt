-- ===== src/Planner/Search/Ranking.antt =====
-- Planning by measurement: no measured candidate beats the plan that is returned.
use perf_libs_fft.Base.{
  ℕ, ◌+◌, ◌≡◌, ◌≤◌, refl, sym, ◌∙◌, ◌⊎◌, inl, inr, subst, true, false, List, [], ◌∷◌, Option, none,
  some, arith, ltb, if◌then◌else◌, Bool-cases, Option-cases, ltb→lt,
}
use perf_libs_fft.Planner.Policy.{Policy, contains, allow_pruning}
use perf_libs_fft.Planner.Problem.{Problem}
use perf_libs_fft.Planner.Run.{ok}
use perf_libs_fft.Planner.Search.Rounds.{late, refused, judged, Keeps, after_round, audition_inv}
use perf_libs_fft.Planner.Search.{
  State, Bench, Strategy, Best, is_some, replaces, judge, settle, try_strategy, out_of_time,
  audition,
}

module _ {World Plan Result : Type 0} (bench : Bench World Plan Result) (p : Problem)
    (policy : Policy) where
  -- The audition that starts here measures the result `r` for some candidate.
  abbrev pub Measured :
      List (Option (Strategy World Plan)) → ℕ → Best Plan Result → State World → Result → Type 0
  Measured [] index best s r = ⊥
  Measured (none ∷ strategies) index best s r = Measured strategies (index + 1) best s r
  Measured (some f ∷ strategies) index best s r =
      ((s₁ s₂ : State World) × (candidate : Plan) × (w : World) × (out_of_time bench p policy best s
          ≡ (false, s₁))
        × (f p policy s₁ ≡ ok (some candidate, s₂))
        × (bench.measure p candidate best.result s₂.world ≡ (some r, w)))
      ⊎ ((best' : Best Plan Result) × (s' : State World) × (try_strategy bench p policy f index best
              s
            ≡ ok (false, best', s'))
          × Measured strategies (index + 1) best' s' r)

  module _ (measuring : contains policy allow_pruning ≡ false) (rank : Result → ℕ)
      (ranked : (a b : Result) → bench.prefers a b ≡ ltb (rank a) (rank b)) where
    -- There is a best plan with a result, of rank at most `n`.
    abbrev AtMost : ℕ → Option Plan → Option Result → Type 0
    AtMost n none _ = ⊥
    AtMost n (some plan) none = ⊥
    AtMost n (some plan) (some r) = rank r ≤ n

    abbrev Within : ℕ → Best Plan Result → State World → Type 0
    Within n best s = AtMost n best.plan best.result

    -- A measured candidate replaces the best plan unless that one ranks no higher.
    replaced-AtMost :
        (n : ℕ) (candidate : Plan) (index : ℕ) (r : Result) (plan : Option Plan) (slot : Option ℕ)
        (result : Option Result)
        → AtMost n plan result
        → let best : Best Plan Result = record {
          plan = plan;
          strategy_index = slot;
          result = result;
        } in
          let new : Best Plan Result = record {
            plan = some candidate;
            strategy_index = some index;
            result = some r;
          } in
          let next = if replaces bench p policy r best then new else best in
          AtMost n next.plan next.result
    unfolding replaces
    replaced-AtMost n candidate index r none slot result a = absurd a
    replaced-AtMost n candidate index r (some plan) slot none a = absurd a
    replaced-AtMost n candidate index r (some plan) slot (some r₀) a =
        elim (Bool-cases (bench.prefers r r₀)) [
          | inl e ↦ rw e (omega (arith, ltb→lt (rank r) (rank r₀) (sym (ranked r r₀) ∙ e)))
          | inr e ↦ rw e a
        ]

    replaced-rank :
        (candidate : Plan) (index : ℕ) (r : Result) (plan : Option Plan) (slot : Option ℕ)
        (result : Option Result)
        → let best : Best Plan Result = record {
          plan = plan;
          strategy_index = slot;
          result = result;
        } in
          let new : Best Plan Result = record {
            plan = some candidate;
            strategy_index = some index;
            result = some r;
          } in
          let next = if replaces bench p policy r best then new else best in
          AtMost (rank r) next.plan next.result
    unfolding replaces
    replaced-rank candidate index r none slot none = omega arith
    replaced-rank candidate index r none slot (some r₀) = omega arith
    replaced-rank candidate index r (some plan) slot none = omega arith
    replaced-rank candidate index r (some plan) slot (some r₀) =
        elim (Bool-cases (bench.prefers r r₀)) [
          | inl e ↦ rw e (omega arith)
          | inr e ↦ rw e (ground (arith, sym (ranked r r₀) ∙ e))
        ]

    AtMost-is_some :
        (n : ℕ) (plan : Option Plan) (result : Option Result)
        → AtMost n plan result
        → is_some plan ≡ true
    AtMost-is_some n none result a = absurd a
    AtMost-is_some n (some plan) result a = refl

    judge-AtMost :
        (n : ℕ) (candidate : Plan) (index : ℕ) (best : Best Plan Result) (s : State World)
        → AtMost n best.plan best.result
        → Within n (judge bench p policy candidate index best s).1 s
    unfolding judge
    judge-AtMost n candidate index best s a =
        elim (Option-cases (bench.measure p candidate best.result s.world).0) [
          | inl e ↦ rw (measuring, e, judge, AtMost-is_some n best.plan best.result a) a
          | inr (r, e) ↦
              rw (measuring, e, judge)
                (replaced-AtMost n candidate index r best.plan best.strategy_index best.result a)
        ]

    judge-measured :
        (candidate : Plan) (index : ℕ) (best : Best Plan Result) (s : State World) (r : Result)
        (w : World)
        → bench.measure p candidate best.result s.world ≡ (some r, w)
        → Within (rank r) (judge bench p policy candidate index best s).1 s
    unfolding judge
    judge-measured candidate index best s r w e =
        rw (measuring, e, judge)
          (replaced-rank candidate index r best.plan best.strategy_index best.result)

    Within-Keeps :
        (n : ℕ) (strategies : List (Option (Strategy World Plan))) (index : ℕ)
        → Keeps bench p policy (Within n) strategies index
    Within-Keeps n strategies index j f best s b best' s' e a (late _ _ same _) =
        subst (λ x. AtMost n x.plan x.result) (sym same) a
    Within-Keeps n strategies index j f best s b best' s' e a (refused _ _ _ _ same) =
        subst (λ x. AtMost n x.plan x.result) (sym same) a
    Within-Keeps n strategies index j f best s b best' s' e a (judged s₁ s₂ c _ _ i) =
        subst (λ x. AtMost n x.1.plan x.1.result) i (judge-AtMost n c (index + j) best s₂ a)

    tried :
        (f : Strategy World Plan) (index : ℕ) (best : Best Plan Result) (s s₁ s₂ : State World)
        (candidate : Plan)
        → out_of_time bench p policy best s ≡ (false, s₁)
        → f p policy s₁ ≡ ok (some candidate, s₂)
        → try_strategy bench p policy f index best s
          ≡ ok (judge bench p policy candidate index best s₂)
    unfolding try_strategy settle
    tried f index best s s₁ s₂ candidate clock made = rw (clock, made) refl

    -- When candidates are measured and the bench prefers the lower rank, the result of the plan
    -- that the audition returns ranks at most as high as every result that it measured.
    pub audition-AtMost :
        (strategies : List (Option (Strategy World Plan))) (index : ℕ) (best : Best Plan Result)
        (s : State World) (best' : Best Plan Result) (s' : State World) (r : Result)
        → audition bench p policy strategies index best s ≡ ok (best', s')
        → Measured strategies index best s r
        → AtMost (rank r) best'.plan best'.result
    unfolding audition
    audition-AtMost [] index best s best' s' r run m = absurd m
    audition-AtMost (none ∷ strategies) index best s best' s' r run m =
        audition-AtMost strategies (index + 1) best s best' s' r run m
    audition-AtMost (some f ∷ strategies) index best s best' s' r run
          (inl (s₁, s₂, c, w, clock, made, m)) =
        after_round bench p policy (Within (rank r)) (judge bench p policy c index best s₂)
          (audition bench p policy strategies (index + 1)) best' s'
          (judge-measured c index best s₂ r w m)
          (λ b t a e.
            audition_inv bench p policy (Within (rank r)) strategies (index + 1)
              (Within-Keeps (rank r) strategies (index + 1)) b t best' s' a e)
          (rw (tried f index best s s₁ s₂ c clock made) at run)
    audition-AtMost (some f ∷ strategies) index best s best' s' r run (inr (b, t, tried, m)) =
        audition-AtMost strategies (index + 1) b t best' s' r (rw tried at run) m
