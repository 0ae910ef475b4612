-- ===== src/Planner/Strategies/Complete.antt =====
-- Which problems always have a plan: src/planner/planner.cpp and its strategies.
use mathlib.Core.Option
use mathlib.Core.Option.{some-ne-none}
use perf_libs_fft.Base.{
  ℕ, ◌≡◌, ◌≢◌, refl, sym, subst, ap, ◌∙◌, inl, inr, ◌⊎◌, Bool, true, List, [], ◌∷◌, ◌++◌, map,
  Option, none, some, if◌then◌else◌, Bool-cases, ◌==◌, ==_iff, arith,
}
use perf_libs_fft.Base.Int.{pos, int_eq_iff}
use perf_libs_fft.Factorize.Factors.{is_base_n}
use perf_libs_fft.Planner.Policy.{Policy, contains, allow_sme}
use perf_libs_fft.Planner.Problem.{Problem, ElementType}
use perf_libs_fft.Planner.Run.{ok, ok-injective}
use perf_libs_fft.Planner.Search.{State, Bench, Strategy, make_plan_impl}
use perf_libs_fft.Planner.Search.Refusal.{AllRefuse, make_plan_impl-AllRefuse}
use perf_libs_fft.Planner.Wisdom.{StdHash, lookup}
use perf_libs_fft.Planner.Plans.{Plan, fft1_plan, direct_plan}
use perf_libs_fft.Planner.Strategies.{
  StrategyName, direct, direct_sme2, cooley_tukey_ab, cooley_tukey_ac, fft1, direct_lengths,
  sme2_lengths, cooley_tukey_lengths, make_for_floating_point, strategies, direct_make_plan,
  fft1_make_plan, strategy_of,
}

-- A slot of the table.
data In {A : Type 0} (a : A) : List (Option A) → Type 0 where
  here : {slots : List (Option A)} → In a (some a ∷ slots)
  there : {slot : Option A} {slots : List (Option A)} → In a slots → In a (slot ∷ slots)

abbrev pub fill : {A B : Type 0} → (A → B) → List (Option A) → List (Option B)
fill f [] = []
fill f (slot ∷ slots) = Option.map f slot ∷ fill f slots

In-fill :
    {A B : Type 0} (f : A → B) {a : A} {slots : List (Option A)}
    → In a slots
    → In (f a) (fill f slots)
In-fill f here = here
In-fill f (there i) = there (In-fill f i)

In-append :
    {A : Type 0} {a : A} (xs : List (Option A)) {ys : List (Option A)} → In a ys → In a (xs ++ ys)
In-append [] i = i
In-append (x ∷ xs) i = there (In-append xs i)

In-direct :
    (n : ℕ) (ns : List ℕ) (rest : List (Option StrategyName))
    → is_base_n n ns ≡ true
    → In (direct n) (map (λ n. some (direct n)) ns ++ rest)
unfolding is_base_n
In-direct n [] rest e = ground arith
In-direct n (k ∷ ns) rest e = elim (Bool-cases (k == n)) [
  | inl same ↦
      subst (λ (j : ℕ). In (direct j) (some (direct k) ∷ map (λ n. some (direct n)) ns ++ rest))
        ((==_iff k n).0 same) here
  | inr other ↦ there (In-direct n ns rest (ground arith))
]

fft1-strategies : (enable_sme2 : Bool) (x : ElementType) → In fft1 (strategies enable_sme2 x)
unfolding strategies make_for_floating_point
fft1-strategies enable_sme2 x = In-append (map (λ n. some (direct n)) direct_lengths) (
    In-append (if enable_sme2 then map (λ n. some (direct_sme2 n)) sme2_lengths else []) (
      In-append (map (λ n. some (cooley_tukey_ab n)) cooley_tukey_lengths) (
        In-append (map (λ n. some (cooley_tukey_ac n)) cooley_tukey_lengths)
          (there (there (there (there (there (there (there here))))))))))

direct-strategies :
    (n : ℕ) (enable_sme2 : Bool) (x : ElementType)
    → is_base_n n direct_lengths ≡ true
    → In (direct n) (strategies enable_sme2 x)
unfolding strategies
direct-strategies n enable_sme2 x e = In-direct n direct_lengths _ e

module _ {World Result Other : Type 0} (h : StdHash) (bench : Bench World (Plan Other) Result)
    (p : Problem) (policy : Policy) where
  -- A strategy of the table that is asked.
  asked :
      (f : Strategy World (Plan Other)) (slots : List (Option (Strategy World (Plan Other))))
      (s s' : State World)
      → In f slots
      → AllRefuse bench p policy slots s s'
      → (t t' : State World) × (f p policy t ≡ ok (none, t'))
  asked f [] s s' i r = elim i [ ]
  asked f (some g ∷ slots) s s' here (t, e, r) = (s, t, e)
  asked f (none ∷ slots) s s' (there i) r = asked f slots s s' i r
  asked f (some g ∷ slots) s s' (there i) (t, e, r) = asked f slots t s' i r

  -- A strategy that never refuses the problem.
  not_refused :
      (f : Strategy World (Plan Other)) (slots : List (Option (Strategy World (Plan Other))))
      (s s' : State World)
      → In f slots
      → ((t : State World) → (plan : Plan Other) × (f p policy t ≡ ok (some plan, t)))
      → ¬ (AllRefuse bench p policy slots s s')
  not_refused f slots s s' i gives r =
      let (t, t', e) = asked f slots s s' i r in
      let (plan, e') = gives t in
      some-ne-none plan
        (ap (λ (x : Option (Plan Other) × State World). x.0) (ok-injective _ _ (sym e' ∙ e)))

  module _ (kernel_ns : List ℕ) (x y : ElementType) (enable_sme2 : Bool)
      (others : StrategyName → Strategy World Other) (planner : Strategy World (Plan Other))
      (s s' : State World) where
    fft1-gives :
        p.n ≡ pos 1
        → (t : State World)
        → (plan : Plan Other) × (strategy_of kernel_ns x y others planner fft1 p policy t
            ≡ ok (some plan, t))
    unfolding strategy_of fft1_make_plan
    fft1-gives one t =
        (fft1_plan p.howmany p.idist p.odist, rw ((int_eq_iff p.n (pos 1)).1 one) refl)

    direct-gives :
        (n : ℕ)
        → p.n ≡ pos n
        → is_base_n n kernel_ns ≡ true
        → (t : State World)
        → (plan : Plan Other) × (strategy_of kernel_ns x y others planner (direct n) p policy t
            ≡ ok (some plan, t))
    unfolding strategy_of direct_make_plan
    direct-gives n same kernel t = (
      direct_plan p.n p.istride p.ostride p.howmany p.idist p.odist p.dir
          (contains policy allow_sme),
      rw ((int_eq_iff p.n (pos n)).1 same, kernel) refl,
    )

    -- Whatever the other strategies do, the planner that finds nothing in wisdom never comes back
    -- without a plan for the length one, nor for a length of the table that has a kernel.
    pub make_plan_impl-some_plan :
        lookup h p policy s.wisdom ≡ none
        → (p.n ≡ pos 1)
          ⊎ ((n : ℕ) × (p.n ≡ pos n)
              × (is_base_n n direct_lengths ≡ true)
              × (is_base_n n kernel_ns ≡ true))
        → make_plan_impl h bench
            (fill (strategy_of kernel_ns x y others planner) (strategies enable_sme2 x))
            p
            policy
            s
          ≢ ok (none, s')
    make_plan_impl-some_plan fresh (inl one) e =
        not_refused _ _ s s' (In-fill _ (fft1-strategies enable_sme2 x)) (fft1-gives one)
          ((make_plan_impl-AllRefuse h bench _ p policy s s' fresh).0 e)
    make_plan_impl-some_plan fresh (inr (n, same, listed, kernel)) e =
        not_refused _ _ s s' (In-fill _ (direct-strategies n enable_sme2 x listed))
          (direct-gives n same kernel)
          ((make_plan_impl-AllRefuse h bench _ p policy s s' fresh).0 e)
