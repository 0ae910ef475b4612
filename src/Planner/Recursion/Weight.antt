-- ===== src/Planner/Recursion/Weight.antt =====
-- How heavy a problem is for the planner, and that the parts which the strategies of
-- src/planner/strategies ask for are lighter.
use native.Mathlib.Nat.{div-mul-le_self}
use mathlib.Core.Option
use mathlib.Core.Option.{some-injective}
use perf_libs_fft.Base.{
  ℕ, zero, suc, ◌+◌, ◌*◌, ◌-◌, ◌/◌, ◌<◌, ◌≤◌, ◌≡◌, refl, subst, ap, ◌∙◌, Bool, true, false, ◌&&◌,
  List, Option, none, some, if◌then◌else◌, arith,
}
use perf_libs_fft.Base.Int.{ℤ, pos, negsuc, pos_part, ltb_ℤ}
use perf_libs_fft.Factorize.Factors.NextLength.{next_length_factorable_by}
use perf_libs_fft.Planner.Convolutions.{convolution_length}
use perf_libs_fft.Planner.Plans.{Convolution, rader, bluestein}
use perf_libs_fft.Planner.Problem.{Problem, ElementType, Direction, make_problem}
use perf_libs_fft.Planner.Run.{Run, ok, abort, ◌>>=◌}

-- A bound of the depth that a problem needs: a batch is planned through its single transform, and a
-- long transform through shorter ones.
unfoldable pub weight : Problem → ℕ
weight p = 2 * pos_part p.n + (if ltb_ℤ (pos 1) p.howmany then 1 else 0)

pub guarded :
    {A : Type 0} (test : Bool) (a b other : A)
    → (test ≡ true → a ≡ b)
    → (if test then a else other) ≡ (if test then b else other)
guarded true a b other same = same refl
guarded false a b other same = refl

pub either :
    {A : Type 0} (test : Bool) (a a' b b' : A)
    → a ≡ a'
    → b ≡ b'
    → (if test then a else b) ≡ (if test then a' else b')
either true a a' b b' first second = first
either false a a' b b' first second = second

pub asked_congr :
    {A S : Type 0} (f : A → A) (r r' : Run (Option A × S))
    → r ≡ r'
    → ◌≡◌ {A = Run (Option A × S)}
        (r >>= λ r. ok (Option.map f r.0, r.1))
        (r' >>= λ r. ok (Option.map f r.0, r.1))
asked_congr {A} {S} f r r' same =
    ap (λ (r : Run (Option A × S)). ◌>>=◌ {B = Option A × S} r (λ r. ok (Option.map f r.0, r.1)))
      same

shorter : (k n r : ℕ) → 1 < r → r < n → k * r ≤ n → 2 * k + 1 < 2 * n
shorter k n zero one less within = absurd (omega (arith, one))
shorter k n (suc zero) one less within = absurd (omega (arith, one))
shorter k n (suc (suc r)) one less within =
    let more : k * suc (suc r) ≡ 2 * k + k * r = omega arith in omega (arith, more, within, less)

part_shorter :
    (n : ℤ) (r : ℕ) → 1 < r → ltb_ℤ (pos r) n ≡ true → 2 * (pos_part n / r) + 1 < 2 * pos_part n
part_shorter (pos n) r one less = shorter (n / r) n r one (ground arith) (div-mul-le_self n r)
part_shorter (negsuc n) r one less = absurd (ground arith)

pub counted : (test : Bool) → (if test then 1 else 0) ≤ 1
counted test = ground arith

-- A bound of the weights of the convolutions for the lengths up to `n`.
unfoldable pub spread : List ℕ → ℕ → ℕ
spread kernel_ns zero = 2
spread kernel_ns (suc n) =
    spread kernel_ns n
    + (2 * (elim (next_length_factorable_by (2 * suc n - 1) kernel_ns) [ none ↦ 0 | some l ↦ l ])
        + 2 * suc n)

spread_mono : (kernel_ns : List ℕ) (m k : ℕ) → spread kernel_ns m ≤ spread kernel_ns (k + m)
unfolding spread
spread_mono kernel_ns m zero = let same : 0 + m ≡ m = omega arith in rw same (omega arith)
spread_mono kernel_ns m (suc k) =
    let next : suc k + m ≡ suc (k + m) = omega arith in
    let below = spread_mono kernel_ns m k in rw next (omega (arith, below))

pub spread_below : (kernel_ns : List ℕ) (m n : ℕ) → m ≤ n → spread kernel_ns m ≤ spread kernel_ns n
spread_below kernel_ns m n h =
    let back : n - m + m ≡ n = omega (arith, h) in
    subst (λ (k : ℕ). spread kernel_ns m ≤ spread kernel_ns k) back
      (spread_mono kernel_ns m (n - m))

pub spread-length :
    (kernel_ns : List ℕ) (c : Convolution) (n padded : ℕ)
    → 0 < n
    → convolution_length c kernel_ns n ≡ some padded
    → 2 * padded + 1 < spread kernel_ns n
unfolding spread
spread-length kernel_ns c zero padded some_n e = absurd (omega (arith, some_n))
spread-length kernel_ns rader (suc n) padded some_n e =
    let is : suc n - 1 ≡ padded = some-injective _ padded e in omega (arith, is)
spread-length kernel_ns bluestein (suc n) padded some_n e = rw e (omega arith)

pub bind_congr :
    {A B : Type 0} (r r' : Run A) (k k' : A → Run B)
    → r ≡ r'
    → ((a : A) → k a ≡ k' a)
    → r >>= k ≡ r' >>= k'
bind_congr {A} {B} r r' k k' same later = ap (λ (t : Run A). t >>= k) same ∙ continued r'
  where
    continued : (t : Run A) → t >>= k ≡ t >>= k'
    continued abort = refl
    continued (ok a) = later a

module _ (x y : ElementType) where
  pub part_weight :
      (p : Problem) (r : ℕ) (istride ostride howmany idist odist : ℤ)
      → 1 < r
      → ltb_ℤ (pos r) p.n ≡ true
      → weight (make_problem x y (pos (pos_part p.n / r)) istride ostride howmany idist odist p.dir)
        < weight p
  unfolding weight make_problem
  part_weight p r istride ostride howmany idist odist one less =
      omega (arith, part_shorter p.n r one less, counted (ltb_ℤ (pos 1) howmany))

  pub single_weight :
      (p : Problem)
      → (ltb_ℤ (pos 1) p.n && ltb_ℤ (pos 1) p.howmany) ≡ true
      → weight (make_problem x y p.n p.istride p.ostride (pos 1) (pos 0) (pos 0) p.dir) < weight p
  unfolding weight make_problem
  single_weight p test = ground arith

  pub made_weight :
      (n istride ostride howmany idist odist : ℤ) (dir : Direction) (bound : ℕ)
      → 2 * pos_part n + 1 < bound
      → weight (make_problem x y n istride ostride howmany idist odist dir) < bound
  unfolding weight make_problem
  made_weight n istride ostride howmany idist odist dir bound light =
      omega (arith, light, counted (ltb_ℤ (pos 1) howmany))
