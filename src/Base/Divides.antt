-- ===== src/Base/Divides.antt =====
-- Primes over the native numbers, and divisors from remainders.
use Prim.Native.Nat.{◌∣◌}
use native.Mathlib.Nat.{
  dvd_trans, dvd_iff_mod-eq-zero, div-mul_cancel, lt-mul-div-succ, dvd-mul_right,
}
use native.Mathlib.Decide.{dec_lt}
use perf_libs_fft.Base.{ℕ, ◌/◌, ◌%◌, ◌≤◌, ◌<◌, ◌≢◌, subst, arith}

-- Greater than one, and divided by nothing between one and itself.
pub record Prime (p : ℕ) : Type 0 where
  pub above : 1 < p
  pub only : (m : ℕ) → 1 < m → m < p → ¬ (m ∣ p)

-- Nothing from two up to `d`, which is excluded, divides `n`.
abbrev pub NoneBelow : ℕ → ℕ → Type 0
NoneBelow d n = (m : ℕ) → 1 < m → m < d → ¬ (m ∣ n)

pub not-dvd : (m n : ℕ) → n % m ≢ 0 → ¬ (m ∣ n)
not-dvd m n h d = h ((dvd_iff_mod-eq-zero m).0 d)

-- A divisor of `n` that lets nothing smaller divide `n` is prime.
pub Prime-of_least : (p n : ℕ) → 1 < p → p ∣ n → NoneBelow p n → Prime p
Prime-of_least p n h d least = record { above = h; only = λ m a b e. least m a b (dvd_trans m e d) }

-- The other factor of a divisor divides too, and is small where the divisor is large.
cofactor :
    (d n m : ℕ)
    → n / d < d
    → 1 < m
    → m < n
    → d ≤ m
    → m ∣ n
    → (n / m ∣ n) × (1 < n / m) × (n / m < d)
cofactor d n m stop a b far e =
    let whole = div-mul_cancel m e in
    let below = lt-mul-div-succ n {b = d} (omega arith) in
    (subst (λ x. n / m ∣ x) whole (dvd-mul_right (n / m) m), grind arith, grind arith)

-- A number with no divisor below `d` has none below itself if `d` exceeds its quotient by `d`.
pub NoneBelow-all : (d n : ℕ) → n / d < d → NoneBelow d n → NoneBelow n n
NoneBelow-all d n stop least m a b e = elim (dec_lt m d) [
  | yes near ↦ least m a near e
  | no far ↦
      let (c, big, small) = cofactor d n m stop a b (omega arith) e in least (n / m) big small c
]
