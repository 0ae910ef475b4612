-- ===== src/Planner/Search/Rounds.antt =====
-- The audition, one strategy at a time: what a round does, and an invariant rule for the loop.
use perf_libs_fft.Base.{
  ℕ, suc, ◌+◌, ◌≡◌, refl, sym, ap, ◌∙◌, inl, inr, Bool, true, false, List, [], ◌∷◌, Option, none,
  some, get_elem?, if◌then◌else◌, Bool-cases, arith, subst,
}
use perf_libs_fft.Planner.Policy.{Policy}
use perf_libs_fft.Planner.Problem.{Problem}
use perf_libs_fft.Planner.Run.{Run, ok, abort, ◌>>=◌, ok-injective, >>=-eq-ok}
use perf_libs_fft.Planner.Search.{
  State, Bench, Strategy, Best, is_some, out_of_time, judge, settle, try_strategy, audition,
}

module _ {World Plan Result : Type 0} (bench : Bench World Plan Result) (p : Problem)
    (policy : Policy) where
  -- What a round does to the best plan and to the state.
  pub data Round (strategy : Strategy World Plan) (index : ℕ) (best : Best Plan Result)
      (s : State World) : Bool → Best Plan Result → State World → Type 0 where
    late :
        {b : Bool} {best' : Best Plan Result} {s' : State World}
        → is_some best.plan ≡ true
        → b ≡ true
        → best' ≡ best
        → s'.wisdom ≡ s.wisdom
        → Round strategy index best s b best' s'
    refused :
        {b : Bool} {best' : Best Plan Result} {s' : State World}
        → (s₁ : State World) → s₁.wisdom ≡ s.wisdom
        → strategy p policy s₁ ≡ ok (none, s')
        → b ≡ false
        → best' ≡ best
        → Round strategy index best s b best' s'
    judged :
        {b : Bool} {best' : Best Plan Result} {s' : State World}
        → (s₁ s₂ : State World) (candidate : Plan) → s₁.wisdom ≡ s.wisdom
        → strategy p policy s₁ ≡ ok (some candidate, s₂)
        → judge bench p policy candidate index best s₂ ≡ (b, best', s')
        → Round strategy index best s b best' s'

  out_of_time-wisdom :
      (best : Best Plan Result) (s : State World)
      → (out_of_time bench p policy best s).1.wisdom ≡ s.wisdom
  unfolding out_of_time
  out_of_time-wisdom best s = ground arith

  out_of_time-is_some :
      (best : Best Plan Result) (s : State World)
      → (out_of_time bench p policy best s).0 ≡ true
      → is_some best.plan ≡ true
  unfolding out_of_time
  out_of_time-is_some best s h = ground arith

  module _ (strategy : Strategy World Plan) (index : ℕ) (best : Best Plan Result) (s : State World)
      {b : Bool} {best' : Best Plan Result} {s' : State World} where
    after_strategy :
        (s₁ : State World) (outcome : Run (Option Plan × State World))
        → s₁.wisdom ≡ s.wisdom
        → strategy p policy s₁ ≡ outcome
        → (outcome >>= λ r. ok (settle bench p policy r.0 index best r.1)) ≡ ok (b, best', s')
        → Round strategy index best s b best' s'
    unfolding settle
    after_strategy s₁ abort w e h = absurd (cc)
    after_strategy s₁ (ok (none, s₂)) w e h =
        let i = ok-injective _ _ h in
        refused s₁ w (e ∙ ap (λ x. ok (none, x.2)) i) (ap (λ x. x.0) (sym i))
          (ap (λ x. x.1) (sym i))
    after_strategy s₁ (ok (some c, s₂)) w e h = judged s₁ s₂ c w e (ok-injective _ _ h)

    -- The flag, the best plan and the state after a round are those of one of the three cases.
    pub try_strategy-Round :
        try_strategy bench p policy strategy index best s ≡ ok (b, best', s')
        → Round strategy index best s b best' s'
    unfolding try_strategy
    try_strategy-Round h =
        let t = out_of_time bench p policy best s in
        let w = out_of_time-wisdom best s in
        elim (Bool-cases t.0) [
          | inl e ↦
              let i = ok-injective _ _ (rw e at h) in
              late (out_of_time-is_some best s e) (ap (λ x. x.0) (sym i)) (ap (λ x. x.1) (sym i))
                (ap (λ x. x.2.wisdom) (sym i) ∙ w)
          | inr e ↦ after_strategy t.1 (strategy p policy t.1) w refl (rw e at h)
        ]

  -- A property of the best plan and the state that every round of the strategies keeps.
  abbrev pub Keeps :
      (Best Plan Result → State World → Type 0) → List (Option (Strategy World Plan)) → ℕ → Type 0
  Keeps P strategies index =
      (j : ℕ) (f : Strategy World Plan) (best : Best Plan Result) (s : State World) (b : Bool)
      (best' : Best Plan Result) (s' : State World)
      → get_elem? strategies j ≡ some (some f)
      → P best s
      → Round f (index + j) best s b best' s'
      → P best' s'

  module _ (P : Best Plan Result → State World → Type 0) where
    Keeps-tail :
        (o : Option (Strategy World Plan)) (strategies : List (Option (Strategy World Plan)))
        (index : ℕ)
        → Keeps P (o ∷ strategies) index
        → Keeps P strategies (index + 1)
    Keeps-tail o strategies index keep j f best s b best' s' e start r =
        keep (suc j) f best s b best' s' e start
          (subst (λ k. Round f k best s b best' s') (omega arith) r)

    -- The loop is left, or goes on.
    pub after_round :
        (t : Bool × Best Plan Result × State World)
        (rest : Best Plan Result → State World → Run (Best Plan Result × State World))
        (best' : Best Plan Result) (s' : State World)
        → P t.1 t.2
        → ((best : Best Plan Result) (s : State World)
            → P best s
            → rest best s ≡ ok (best', s')
            → P best' s')
        → (let go = rest t.1 t.2 in if t.0 then ok (t.1, t.2) else go) ≡ ok (best', s')
        → P best' s'
    after_round (true, best, s) rest best' s' after rec h =
        subst (λ x. P x.0 x.1) (ok-injective _ _ h) after
    after_round (false, best, s) rest best' s' after rec h = rec best s after h

    -- Such a property holds at the end of the audition, if it holds at its start.
    pub audition_inv :
        (strategies : List (Option (Strategy World Plan))) (index : ℕ)
        → Keeps P strategies index
        → (best : Best Plan Result) (s : State World) (best' : Best Plan Result) (s' : State World)
        → P best s
        → audition bench p policy strategies index best s ≡ ok (best', s')
        → P best' s'
    unfolding audition
    audition_inv [] index keep best s best' s' start h =
        subst (λ x. P x.0 x.1) (ok-injective _ _ h) start
    audition_inv (none ∷ strategies) index keep best s best' s' start h =
        audition_inv strategies (index + 1) (Keeps-tail none strategies index keep) best s best' s'
          start h
    audition_inv (some f ∷ strategies) index keep best s best' s' start h =
        let (t, run, rest) = >>=-eq-ok (try_strategy bench p policy f index best s) _ h in
        after_round t (audition bench p policy strategies (index + 1)) best' s'
          (keep 0 f best s t.0 t.1 t.2 refl start (
            subst (λ k. Round f k best s t.0 t.1 t.2) (omega arith)
              (try_strategy-Round f index best s run)))
          (λ b₁ s₁ a e.
            audition_inv strategies (index + 1) (Keeps-tail (some f) strategies index keep) b₁ s₁
              best' s' a e)
          rest
