-- ===== src/Planner/Run.antt =====
-- A computation that may stop the process by `std::abort`.
use perf_libs_fft.Base.{◌≡◌, refl, ap, ◌⊎◌, inl, inr}

pub data Run {ℓ} (A : Type ℓ) : Type ℓ where
  ok : A → Run A
  abort : Run A

infixl 5 ◌>>=◌
abbrev pub ◌>>=◌ {ℓ κ} : {A : Type ℓ} {B : Type κ} → Run A → (A → Run B) → Run B
ok a >>= f = f a
abort >>= f = abort

pub Run-cases {ℓ} : {A : Type ℓ} (r : Run A) → (r ≡ abort) ⊎ ((a : A) × (r ≡ ok a))
Run-cases (ok a) = inr (a, refl)
Run-cases abort = inl refl

pub ok-injective {ℓ} : {A : Type ℓ} (a b : A) → ok a ≡ ok b → a ≡ b
ok-injective a b e = ap (λ r. elim r [ ok x ↦ x | abort ↦ a ]) e

-- A sequence that returns has a first part that returned, and a second that went on from there.
pub >>=-eq-ok {ℓ κ} :
    {A : Type ℓ} {B : Type κ} (first : Run A) (then_run : A → Run B) {last : B}
    → first >>= then_run ≡ ok last
    → (between : A) × (first ≡ ok between) × (then_run between ≡ ok last)
>>=-eq-ok abort then_run stopped = cc
>>=-eq-ok (ok between) then_run went_on = (between, refl, went_on)
