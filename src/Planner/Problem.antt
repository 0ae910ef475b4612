-- ===== src/Planner/Problem.antt =====
-- The problem that a plan is made for: src/planner/problem.hpp, with the transform kinds of
-- src/plfft_complex.hpp and the precisions of src/runtime_precision.hpp.
use perf_libs_fft.Base.{ℕ, ◌≡◌, ◌↔◌, Bool, true, false, ◌&&◌, ◌==◌, arith}
use perf_libs_fft.Base.Int.{ℤ, int_eq, int_eq_iff}
use perf_libs_fft.Containers.HashMap.{Key}

pub data TransformKind : Type 0 where
  c2c r2c c2r : TransformKind

pub data RuntimePrecision : Type 0 where
  fp16 fp32 fp64 q0_7 q0_15 : RuntimePrecision

-- `plfft_direction_t`
pub data Direction : Type 0 where
  forward backward : Direction

-- An element type is a real type, or `std::complex` of one.
pub record ElementType : Type 0 where
  pub is_complex : Bool
  pub real_type : RuntimePrecision

-- `transform_kind_from_io_types`; the source refuses two real types when it is compiled.
unfoldable pub transform_kind_from_io_types : ElementType → ElementType → TransformKind
transform_kind_from_io_types x y = kind_of x.is_complex y.is_complex
  where
    kind_of : Bool → Bool → TransformKind
    kind_of false true = r2c
    kind_of true false = c2r
    kind_of _ _ = c2c

abbrev kind_code : TransformKind → ℕ
kind_code c2c = 0
kind_code r2c = 1
kind_code c2r = 2

abbrev precision_code : RuntimePrecision → ℕ
precision_code fp16 = 1
precision_code fp32 = 2
precision_code fp64 = 3
precision_code q0_7 = 4
precision_code q0_15 = 5

abbrev direction_eq : Direction → Direction → Bool
direction_eq forward forward = true
direction_eq backward backward = true
direction_eq _ _ = false

pub record Problem : Type 0 where
  pub kind : TransformKind
  pub precision : RuntimePrecision
  pub n : ℤ
  pub istride : ℤ
  pub ostride : ℤ
  pub howmany : ℤ
  pub idist : ℤ
  pub odist : ℤ
  pub dir : Direction

unfoldable pub equal : Problem → Problem → Bool
equal p other =
    kind_code p.kind == kind_code other.kind
    && precision_code p.precision == precision_code other.precision
    && int_eq p.n other.n
    && int_eq p.istride other.istride
    && int_eq p.ostride other.ostride
    && int_eq p.howmany other.howmany
    && int_eq p.idist other.idist
    && int_eq p.odist other.odist
    && direction_eq p.dir other.dir

unfoldable pub make_problem :
    ElementType → ElementType → ℤ → ℤ → ℤ → ℤ → ℤ → ℤ → Direction → Problem
unfolding transform_kind_from_io_types
make_problem x y n istride ostride howmany idist odist dir = record {
  kind = transform_kind_from_io_types x y;
  precision = x.real_type;
  n = n;
  istride = istride;
  ostride = ostride;
  howmany = howmany;
  idist = idist;
  odist = odist;
  dir = dir;
}

kind_eq_iff : (a b : TransformKind) → ((kind_code a == kind_code b) ≡ true) ↔ (a ≡ b)
kind_eq_iff a b = ground arith

precision_eq_iff :
    (a b : RuntimePrecision) → ((precision_code a == precision_code b) ≡ true) ↔ (a ≡ b)
precision_eq_iff a b = ground arith

direction_eq_iff : (a b : Direction) → (direction_eq a b ≡ true) ↔ (a ≡ b)
direction_eq_iff a b = ground arith

-- `operator==` decides equality of problems: every field is compared.
pub equal_iff : (p q : Problem) → (equal p q ≡ true) ↔ (p ≡ q)
unfolding equal
equal_iff p q = ground (
  arith,
  kind_eq_iff p.kind q.kind,
  precision_eq_iff p.precision q.precision,
  int_eq_iff p.n q.n,
  int_eq_iff p.istride q.istride,
  int_eq_iff p.ostride q.ostride,
  int_eq_iff p.howmany q.howmany,
  int_eq_iff p.idist q.idist,
  int_eq_iff p.odist q.odist,
  direction_eq_iff p.dir q.dir,
)

instance abbrev pub problem_key : Key Problem
problem_key = record { equal = equal; equal_iff = equal_iff }
