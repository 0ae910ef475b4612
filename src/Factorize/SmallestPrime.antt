-- ===== src/Factorize/SmallestPrime.antt =====
-- `smallest_prime_factor` of src/factorize.hpp: trial division over the numbers 6k - 1 and 6k + 1.
use Prim.Native.Nat.{◌∣◌}
use native.Mathlib.Nat.{dvd_trans, dvd_refl, div-mul-le_self, dvd_of_mod-eq-zero}
use perf_libs_fft.Base.{
  ℕ, zero, suc, ◌+◌, ◌*◌, ◌/◌, ◌%◌, ◌≤◌, ◌<◌, ◌≡◌, ◌≢◌, refl, inl, inr, Option, none, some, leb,
  ◌==◌, ==_iff, if◌then◌else◌, Bool-cases, subst, arith,
}
use native.Mathlib.Decide.{dec_lt, ℕ_discrete}
use perf_libs_fft.Base.Divides.{Prime, NoneBelow, not-dvd, Prime-of_least, NoneBelow-all}

-- `while (d <= n / d)`; `none` means that the fuel ran out.
pub trial_division : ℕ → ℕ → ℕ → Option ℕ
trial_division zero n d = none
trial_division (suc fuel) n d =
    let next = trial_division fuel n (d + 6) in
    if leb d (n / d)
    then (if n % d == 0 then some d else if n % (d + 2) == 0 then some (d + 2) else next)
    else some n

-- The fuel is enough: the trial divisor passes `n` before it is used up.
unfoldable pub smallest_prime_factor : ℕ → Option ℕ
smallest_prime_factor n =
    if n % 2 == 0 then some 2 else if n % 3 == 0 then some 3 else trial_division (suc n) n 5

-- The least divisor of `n` above one.
pub record IsLeast (n r : ℕ) : Type 0 where
  pub above : 1 < r
  pub divides : r ∣ n
  pub least : NoneBelow r n

-- A trial divisor of this form is five more than a multiple of six.
abbrev OnTrack : ℕ → Type 0
OnTrack d = d % 6 ≡ 5

-- What is no multiple of `k` has no multiple of `k` as a divisor.
no_multiple : (k n m : ℕ) → n % k ≢ 0 → m ∣ n → m % k ≢ 0
no_multiple k n m h e z = not-dvd k n h (dvd_trans k (dvd_of_mod-eq-zero k z) e)

-- After a trial divisor comes an even number.
half_step : (n d : ℕ) → n % 2 ≢ 0 → OnTrack d → n % d ≢ 0 → NoneBelow d n → NoneBelow (d + 2) n
half_step n d two track at_d least m a b e =
    let odd = no_multiple 2 n m two e in
    elim (dec_lt m d) [
      | yes near ↦ least m a near e
      | no far ↦ elim (ℕ_discrete m d) [
        | yes here ↦ not-dvd d n at_d (subst (λ x. x ∣ n) here e)
        | no other ↦ absurd (omega arith)
      ]
    ]

-- Between two trial divisors there are only multiples of two and three.
step :
    (n d : ℕ)
    → n % 2 ≢ 0
    → n % 3 ≢ 0
    → OnTrack d
    → n % d ≢ 0
    → n % (d + 2) ≢ 0
    → NoneBelow d n
    → NoneBelow (d + 6) n
step n d two three track at_d at_d2 least m a b e =
    let odd = no_multiple 2 n m two e in
    let no_three = no_multiple 3 n m three e in
    elim (dec_lt m (d + 2)) [
      | yes near ↦ half_step n d two track at_d least m a near e
      | no far ↦ elim (ℕ_discrete m (d + 2)) [
        | yes there ↦ not-dvd (d + 2) n at_d2 (subst (λ x. x ∣ n) there e)
        | no other ↦ absurd (omega arith)
      ]
    ]

-- The trial divisor stays small as long as the loop goes on.
next_room : (n d : ℕ) → 5 ≤ d → d ≤ n / d → d + 6 ≤ n + 5
next_room n d five more =
    let below = div-mul-le_self n d in
    let square : d * d ≤ n / d * d = grind arith in
    let wide : 5 * d ≤ d * d = grind arith in omega arith

-- The loop returns the least divisor, within its fuel.
trial_division-IsLeast :
    (fuel n d : ℕ)
    → n + 6 ≤ fuel + d
    → d ≤ n + 5
    → 1 < n
    → n % 2 ≢ 0
    → n % 3 ≢ 0
    → OnTrack d
    → NoneBelow d n
    → (r : ℕ) × (trial_division fuel n d ≡ some r) × IsLeast n r
unfolding trial_division
trial_division-IsLeast zero n d enough room big two three track least = absurd (omega arith)
trial_division-IsLeast (suc fuel) n d enough room big two three track least =
    elim (Bool-cases (leb d (n / d))) [
      | inr stop ↦ (
        n,
        rw stop refl,
        record {
          above = big;
          divides = dvd_refl n;
          least = NoneBelow-all d n (ground arith) least;
        },
      )
      | inl go ↦ elim (Bool-cases (n % d == 0)) [
        | inl hit ↦ (
          d,
          rw (go, hit) refl,
          record {
            above = omega arith;
            divides = dvd_of_mod-eq-zero d ((==_iff _ _).0 hit);
            least = least;
          },
        )
        | inr miss ↦ elim (Bool-cases (n % (d + 2) == 0)) [
          | inl hit ↦ (
            d + 2,
            rw (go, miss, hit) refl,
            record {
              above = omega arith;
              divides = dvd_of_mod-eq-zero (d + 2) ((==_iff _ _).0 hit);
              least = half_step n d two track (ground arith) least;
            },
          )
          | inr miss2 ↦
              let (r, run, is) =
                trial_division-IsLeast fuel n (d + 6) (omega arith)
                  (next_room n d (omega arith) (ground arith)) big two three (omega arith)
                  (step n d two three track (ground arith) (ground arith) least) in
              (r, rw (go, miss, miss2) run, is)
        ]
      ]
    ]

small_divisors : (n : ℕ) → n % 2 ≢ 0 → n % 3 ≢ 0 → NoneBelow 5 n
small_divisors n two three m a b e =
    let odd = no_multiple 2 n m two e in
    let no_three = no_multiple 3 n m three e in absurd (omega arith)

-- For `n` above one the function returns, and what it returns is the least divisor above one of
-- `n`, which is prime.
pub smallest_prime_factor-IsLeast :
    (n : ℕ) → 1 < n → (r : ℕ) × (smallest_prime_factor n ≡ some r) × IsLeast n r × Prime r
unfolding smallest_prime_factor
smallest_prime_factor-IsLeast n big =
    let (r, run, is) = found in (r, run, is, Prime-of_least r n is.above is.divides is.least)
  where
    found : (r : ℕ) × (smallest_prime_factor n ≡ some r) × IsLeast n r
    found = elim (Bool-cases (n % 2 == 0)) [
      | inl two ↦ (
        2,
        rw two refl,
        record {
          above = omega arith;
          divides = dvd_of_mod-eq-zero 2 ((==_iff _ _).0 two);
          least = λ m a b e. absurd (omega arith);
        },
      )
      | inr two ↦ elim (Bool-cases (n % 3 == 0)) [
        | inl three ↦ (
          3,
          rw (two, three) refl,
          record {
            above = omega arith;
            divides = dvd_of_mod-eq-zero 3 ((==_iff _ _).0 three);
            least = λ m a b e. absurd (no_multiple 2 n m (ground arith) e (omega arith));
          },
        )
        | inr three ↦
            let (r, run, is) =
              trial_division-IsLeast (suc n) n 5 (omega arith) (omega arith) big (ground arith)
                (ground arith) refl (small_divisors n (ground arith) (ground arith)) in
            (r, rw (two, three) run, is)
      ]
    ]
