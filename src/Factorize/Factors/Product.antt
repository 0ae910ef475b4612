-- ===== src/Factorize/Factors/Product.antt =====
-- The factors multiply back to the number, and are sorted in descending order.
use native.Mathlib.Nat.{div-add-mod'}
use perf_libs_fft.Base.{
  ℕ, zero, suc, ◌+◌, ◌*◌, ◌/◌, ◌%◌, ◌≤◌, ◌<◌, ◌≡◌, ◌≢◌, refl, ap, ◌∙◌, inl, inr, true, List, [],
  ◌∷◌, ◌++◌, some, ltb, ◌==◌, ==_iff, Bool-cases, ltb→lt, arith,
}
use perf_libs_fft.Factorize.Factors.{divide_out, divide_out_all, prime_loop}

abbrev pub product : List ℕ → ℕ
product [] = 1
product (x ∷ xs) = x * product xs

abbrev pub AllAbove : ℕ → List ℕ → Type 0
AllAbove n [] = Unit {0}
AllAbove n (x ∷ xs) = (n < x) × AllAbove n xs

pub product-append : (xs ys : List ℕ) → product (xs ++ ys) ≡ product xs * product ys
product-append [] ys = omega arith
product-append (x ∷ xs) ys = grind (arith, product-append xs ys)

pub AllAbove-append : (n x : ℕ) (xs : List ℕ) → AllAbove n xs → n < x → AllAbove n (xs ++ x ∷ [])
AllAbove-append n x [] a h = (h, tt)
AllAbove-append n x (y ∷ xs) a h = (a.0, AllAbove-append n x xs a.1 h)

-- What is left of `n`, and the factors taken, multiply to what they were before.
pub record Splits (n : ℕ) (factors : List ℕ) (r : ℕ × List ℕ) : Type 0 where
  pub whole : r.0 * product r.1 ≡ n * product factors
  pub positive : 0 < r.0
  pub smaller : r.0 ≤ n
  pub above : AllAbove 1 factors → AllAbove 1 r.1

pub Splits-trans :
    (n : ℕ) (factors : List ℕ) (r s : ℕ × List ℕ)
    → Splits n factors r
    → Splits r.0 r.1 s
    → Splits n factors s
Splits-trans n factors r s a b = record {
  whole = b.whole ∙ a.whole;
  positive = b.positive;
  smaller = omega (arith, a.smaller, b.smaller);
  above = λ h. b.above (a.above h);
}

exact : (n factor : ℕ) → n % factor ≡ 0 → n / factor * factor ≡ n
exact n factor e = omega (arith, div-add-mod' n factor)

regroup : (q factor p n : ℕ) → q * factor ≡ n → q * (p * (factor * 1)) ≡ n * p
regroup q factor p n e = omega (arith, ap (λ (t : ℕ). t * p) e)

pub quotient_bounds :
    (n factor : ℕ) → 1 < factor → 0 < n → n % factor ≡ 0 → (0 < n / factor) × (n / factor < n)
quotient_bounds n factor big pos e =
    let whole = exact n factor e in
    let some_left : 0 < n / factor = grind arith in (some_left, grind arith)

-- One division of a multiple.
pub divided :
    (n factor : ℕ) (factors : List ℕ)
    → 1 < factor
    → 0 < n
    → n % factor ≡ 0
    → Splits n factors (n / factor, factors ++ factor ∷ [])
divided n factor factors big pos e = record {
  whole =
      rw (product-append factors (factor ∷ []))
        (regroup (n / factor) factor (product factors) n (exact n factor e));
  positive = (quotient_bounds n factor big pos e).0;
  smaller = omega (arith, quotient_bounds n factor big pos e);
  above = λ h. AllAbove-append 1 factor factors h big;
}

pub divide_out-Splits :
    (fuel factor n : ℕ) (factors : List ℕ)
    → 1 < factor
    → 0 < n
    → n < fuel
    → (r : ℕ × List ℕ) × (divide_out fuel factor n factors ≡ some r)
      × Splits n factors r
      × (r.0 % factor ≢ 0)
unfolding divide_out
divide_out-Splits zero factor n factors big pos enough = absurd (omega arith)
divide_out-Splits (suc fuel) factor n factors big pos enough = elim (Bool-cases (n % factor == 0)) [
  | inl e ↦
      let d = divided n factor factors big pos ((==_iff _ _).0 e) in
      let (r, run, s, left) =
        divide_out-Splits fuel factor (n / factor) (factors ++ factor ∷ []) big d.positive
          (omega (arith, quotient_bounds n factor big pos ((==_iff _ _).0 e))) in
      (r, rw e run, Splits-trans n factors _ r d s, left)
  | inr e ↦ (
    (n, factors),
    rw e refl,
    record { whole = refl; positive = pos; smaller = omega arith; above = λ h. h },
    (ground arith),
  )
]

pub divide_out_all-Splits :
    (k_facts : List ℕ) (n : ℕ) (factors : List ℕ)
    → AllAbove 1 k_facts
    → 0 < n
    → (r : ℕ × List ℕ) × (divide_out_all k_facts n factors ≡ some r) × Splits n factors r
unfolding divide_out_all
divide_out_all-Splits [] n factors big pos = (
  (n, factors),
  refl,
  record { whole = refl; positive = pos; smaller = omega arith; above = λ h. h },
)
divide_out_all-Splits (factor ∷ k_facts) n factors big pos =
    let (r, run, s, _) = divide_out-Splits (suc n) factor n factors big.0 pos (omega arith) in
    let (t, run', s') = divide_out_all-Splits k_facts r.0 r.1 big.1 s.positive in
    (t, rw (run, divide_out_all) run', Splits-trans n factors r t s s')

module _ (root : ℕ → ℕ) (below : (n : ℕ) → root n ≤ n) where
  next_room :
      (factor start n : ℕ) → n ≤ start → ltb factor (root n + 1) ≡ true → factor + 2 ≤ start + 23
  next_room factor start n down go = omega (arith, ltb→lt factor (root n + 1) go, below n)

  -- The trial factors pass the number that the loop started with before the fuel is used up.
  pub prime_loop-Splits :
      (fuel factor start n : ℕ) (factors : List ℕ)
      → start + 24 ≤ fuel + factor
      → factor ≤ start + 23
      → n ≤ start
      → 1 < factor
      → 0 < n
      → (r : ℕ × List ℕ) × (prime_loop root fuel factor n factors ≡ some r) × Splits n factors r
  unfolding prime_loop
  prime_loop-Splits zero factor start n factors enough room down big pos = absurd (omega arith)
  prime_loop-Splits (suc fuel) factor start n factors enough room down big pos =
      elim (Bool-cases (ltb factor (root n + 1))) [
        | inl go ↦
            let (r, run, s, _) = divide_out-Splits (suc n) factor n factors big pos (omega arith) in
            let (t, run', s') =
              prime_loop-Splits fuel (factor + 2) start r.0 r.1 (omega arith)
                (next_room factor start n down go) (omega (arith, s.smaller)) (omega arith)
                s.positive in
            (t, rw (go, run, prime_loop) run', Splits-trans n factors r t s s')
        | inr stop ↦ (
          (n, factors),
          rw stop refl,
          record { whole = refl; positive = pos; smaller = omega arith; above = λ h. h },
        )
      ]
