-- ===== src/Planner/Recursion/Congruence.antt =====
-- Tables whose strategies answer alike for a problem: `make_plan_impl` and `make_plan` of
-- src/planner/planner.cpp.
use perf_libs_fft.Base.{
  ℕ, zero, suc, ◌+◌, ◌≡◌, refl, ap, inl, inr, Bool, true, List, [], ◌∷◌, Option, none, some,
  get_elem?, Option-cases, fun_ext, if◌then◌else◌,
}
use perf_libs_fft.Planner.Policy.{Policy}
use perf_libs_fft.Planner.Policy.Order.{Includes, Includes-refl}
use perf_libs_fft.Planner.Problem.{Problem, ElementType}
use perf_libs_fft.Planner.Run.{Run, ok, abort, ◌>>=◌}
use perf_libs_fft.Planner.Search.{
  State, Bench, Strategy, Best, no_best, settle, out_of_time, try_strategy, audition, recall,
  make_plan_impl, remember,
}
use perf_libs_fft.Planner.Strategies.{of_precision, make_plan}
use perf_libs_fft.Planner.Strategies.Complete.{fill}
use perf_libs_fft.Planner.Wisdom.Permitted.{lookup-Includes}
use perf_libs_fft.Planner.Wisdom.{StdHash, Entry, lookup}

-- One answer for the problem under the policy or a part of it, whatever the state.
abbrev pub SameAt : {World Plan : Type 0} → Policy → Problem → (f g : Strategy World Plan) → Type 0
SameAt {World} policy p f g =
    (q : Policy) → Includes policy q → (s : State World) → f p q s ≡ g p q s

pub data Alike {World Plan : Type 0} (policy : Policy) (p : Problem)
    : (fs gs : List (Option (Strategy World Plan))) → Type 0 where
  no_slots : Alike policy p [] []
  empty_slot :
      {fs gs : List (Option (Strategy World Plan))}
      → Alike policy p fs gs
      → Alike policy p (none ∷ fs) (none ∷ gs)
  same_slot :
      {f g : Strategy World Plan} {fs gs : List (Option (Strategy World Plan))}
      → SameAt policy p f g
      → Alike policy p fs gs
      → Alike policy p (some f ∷ fs) (some g ∷ gs)

pub Alike-fill :
    {World Plan N : Type 0} (policy : Policy) (p : Problem) (f g : N → Strategy World Plan)
    (slots : List (Option N))
    → ((name : N) → SameAt policy p (f name) (g name))
    → Alike policy p (fill f slots) (fill g slots)
Alike-fill policy p f g [] same = no_slots
Alike-fill policy p f g (none ∷ slots) same = empty_slot (Alike-fill policy p f g slots same)
Alike-fill policy p f g (some name ∷ slots) same =
    same_slot (same name) (Alike-fill policy p f g slots same)

module _ {World Plan Result : Type 0} (bench : Bench World Plan Result) (p : Problem)
    (policy : Policy) where
  try_strategy_congr :
      (f g : Strategy World Plan) (index : ℕ) (best : Best Plan Result) (s : State World)
      → SameAt policy p f g
      → try_strategy bench p policy f index best s ≡ try_strategy bench p policy g index best s
  unfolding try_strategy
  try_strategy_congr f g index best s same =
      ap
        (λ (r : Run (Option Plan × State World)).
          if (out_of_time bench p policy best s).0
          then ok (true, best, (out_of_time bench p policy best s).1)
          else r >>= λ r. ok (settle bench p policy r.0 index best r.1))
        (same policy (Includes-refl policy) (out_of_time bench p policy best s).1)

  after :
      (fs gs : List (Option (Strategy World Plan))) (index : ℕ)
      (r : Run (Bool × Best Plan Result × State World))
      → ((t : Bool × Best Plan Result × State World)
          → audition bench p policy fs (index + 1) t.1 t.2
            ≡ audition bench p policy gs (index + 1) t.1 t.2)
      → (r >>= λ t.
          (let rest = audition bench p policy fs (index + 1) t.1 t.2 in
            if t.0 then ok (t.1, t.2) else rest))
        ≡ (r >>= λ t.
            (let rest = audition bench p policy gs (index + 1) t.1 t.2 in
              if t.0 then ok (t.1, t.2) else rest))
  after fs gs index abort same = refl
  after fs gs index (ok t) same =
      ap (λ (rest : Run (Best Plan Result × State World)). if t.0 then ok (t.1, t.2) else rest)
        (same t)

  audition_congr :
      {fs gs : List (Option (Strategy World Plan))} (index : ℕ) (best : Best Plan Result)
      (s : State World)
      → Alike policy p fs gs
      → audition bench p policy fs index best s ≡ audition bench p policy gs index best s
  unfolding audition
  audition_congr index best s no_slots = refl
  audition_congr index best s (empty_slot alike) = audition_congr (index + 1) best s alike
  audition_congr index best s (same_slot {f} {g} {fs} {gs} same alike) =
      rw (try_strategy_congr f g index best s same) (
        after fs gs index (try_strategy bench p policy g index best s)
          (λ t. audition_congr (index + 1) t.1 t.2 alike))

module _ {World Plan Result : Type 0} (h : StdHash) (bench : Bench World Plan Result)
    (p : Problem) where
  recall_congr :
      (fs gs : List (Option (Strategy World Plan))) (policy : Policy) (entry : Entry)
      (s : State World)
      → Includes policy entry.policy
      → Alike policy p fs gs
      → recall h bench fs entry p s ≡ recall h bench gs entry p s
  unfolding recall
  recall_congr fs gs policy entry s permitted alike = from entry.strategy_idx alike
    where
      use_plan : Run (Option Plan × State World) → Run (Option Plan × State World)
      use_plan r = r >>= λ r. elim r.0 [ none ↦ abort | some plan ↦ ok (some plan, r.1) ]

      slot : Option (Option (Strategy World Plan)) → Run (Option Plan × State World)
      slot found = elim found [
        | none ↦ abort
        | some none ↦ abort
        | some (some strategy) ↦ strategy p entry.policy s >>= λ r. elim r.0 [
          | none ↦ abort
          | some plan ↦ ok (some plan, r.1)
        ]
      ]

      from :
          {fs gs : List (Option (Strategy World Plan))} (index : ℕ)
          → Alike policy p fs gs
          → slot (get_elem? fs index) ≡ slot (get_elem? gs index)
      from index no_slots = refl
      from zero (empty_slot alike) = refl
      from (suc index) (empty_slot alike) = from index alike
      from zero (same_slot same alike) = ap use_plan (same entry.policy permitted s)
      from (suc index) (same_slot same alike) = from index alike

  pub make_plan_impl_congr :
      (fs gs : List (Option (Strategy World Plan))) (policy : Policy) (s : State World)
      → Alike policy p fs gs
      → make_plan_impl h bench fs p policy s ≡ make_plan_impl h bench gs p policy s
  unfolding make_plan_impl remember
  make_plan_impl_congr fs gs policy s alike = elim (Option-cases (lookup h p policy s.wisdom)) [
    | inl fresh ↦ rw (fresh, make_plan_impl, audition_congr bench p policy 0 no_best s alike) refl
    | inr (entry, known) ↦
        rw (known, make_plan_impl)
          (recall_congr fs gs policy entry s (lookup-Includes h p policy s.wisdom entry known)
            alike)
  ]

pub make_plan_congr :
    {A : Type 0} (enable_fixed_point : Bool) (f g : ElementType → ElementType → Problem → Run A)
    (p : Problem)
    → ((x y : ElementType) → f x y p ≡ g x y p)
    → make_plan enable_fixed_point f p ≡ make_plan enable_fixed_point g p
unfolding make_plan of_precision
make_plan_congr {A} enable_fixed_point f g p same =
    ap
      (λ (impl : ElementType → ElementType → Run A).
        make_plan enable_fixed_point (λ x y q. impl x y) p)
      (fun_ext (λ x. fun_ext (λ y. same x y)))
