-- ===== src/Checked.antt =====
-- The checked arithmetic of src/plfft_util.hpp. `int64_t` values are integers; a check that fails
-- stops the process (in a build without assertions it is undefined behaviour).
mod Examples
use native.Mathlib.Nat.{le-div_iff_mul-le, mul_comm}
use perf_libs_fft.Base.{
  ℕ, zero, suc, ◌+◌, ◌-◌, ◌*◌, ◌/◌, ◌^◌, ◌≤◌, ◌<◌, ◌≡◌, sym, ◌↔◌, ◌⊎◌, Bool, true, false, ◌&&◌,
  ◌||◌, ltb, leb, ◌==◌, inl, inr, if◌then◌else◌, Bool-cases, arith,
}
use perf_libs_fft.Base.Int.{
  ℤ, pos, negsuc, pos_part, neg_part, sub_ℕ, ltb_ℤ, int_eq, ◌≤ℤ◌, ◌+ℤ◌, ◌-ℤ◌, ◌*ℤ◌,
}
use perf_libs_fft.Base.Int.Ring.{pos-mul}
use perf_libs_fft.Planner.Run.{Run, ok, abort}

abbrev pub int64_max : ℤ
int64_max = pos 9223372036854775807

abbrev pub int64_min : ℤ
int64_min = negsuc 9223372036854775807

-- A value of `int64_t`.
abbrev pub InRange : ℤ → Type 0
InRange a = (int64_min ≤ℤ a) × (a ≤ℤ int64_max)

abbrev leb_ℤ : ℤ → ℤ → Bool
leb_ℤ a b = leb (pos_part a + neg_part b) (pos_part b + neg_part a)

-- Division that rounds towards zero.
unfoldable pub quotient : ℤ → ℤ → ℤ
quotient (pos a) (pos b) = pos (a / b)
quotient (pos a) (negsuc b) = sub_ℕ 0 (a / suc b)
quotient (negsuc a) (pos b) = sub_ℕ 0 (suc a / b)
quotient (negsuc a) (negsuc b) = pos (suc a / suc b)

pub product_fits : ℤ → ℤ → Bool
unfolding quotient
product_fits a b =
    if ltb_ℤ (pos 0) a
    then (if ltb_ℤ (pos 0) b
        then leb_ℤ a (quotient int64_max b)
        else leb_ℤ (quotient int64_min a) b)
    else if ltb_ℤ a (pos 0)
    then (if ltb_ℤ (pos 0) b
        then leb_ℤ (quotient int64_min b) a
        else int_eq b (pos 0) || leb_ℤ (quotient int64_max b) a)
    else true

unfoldable pub mul_assert_no_overflow : ℤ → ℤ → Run ℤ
mul_assert_no_overflow a b = if product_fits a b then ok (a *ℤ b) else abort

pub sum_fits : ℤ → ℤ → Bool
sum_fits a b =
    (leb_ℤ b (pos 0) || leb_ℤ a (int64_max -ℤ b)) && (leb_ℤ (pos 0) b || leb_ℤ (int64_min -ℤ b) a)

unfoldable pub add_assert_no_overflow : ℤ → ℤ → Run ℤ
add_assert_no_overflow a b = if sum_fits a b then ok (a +ℤ b) else abort

-- The check of a product passes exactly if the product is a value of `int64_t`.
pub product_fits_iff :
    (a b : ℤ) → InRange a → InRange b → (product_fits a b ≡ true) ↔ InRange (a *ℤ b)
unfolding product_fits quotient ◌*ℤ◌ int_eq
product_fits_iff (pos zero) b ha hb = ground arith
product_fits_iff (pos (suc a)) (pos zero) ha hb = ground arith
product_fits_iff (pos (suc a)) (pos (suc b)) ha hb =
    ground
      (arith, le-div_iff_mul-le {k = suc b} {x = suc a} {y = 9223372036854775807} (omega arith))
product_fits_iff (pos (suc a)) (negsuc b) ha hb =
    ground
      (arith, le-div_iff_mul-le {k = suc a} {x = suc b} {y = 9223372036854775808} (omega arith))
product_fits_iff (negsuc a) (pos zero) ha hb = ground arith
product_fits_iff (negsuc a) (pos (suc b)) ha hb =
    ground
      (arith, le-div_iff_mul-le {k = suc b} {x = suc a} {y = 9223372036854775808} (omega arith))
product_fits_iff (negsuc a) (negsuc b) ha hb =
    ground
      (arith, le-div_iff_mul-le {k = suc b} {x = suc a} {y = 9223372036854775807} (omega arith))

pub sum_fits_iff : (a b : ℤ) → InRange a → InRange b → (sum_fits a b ≡ true) ↔ InRange (a +ℤ b)
unfolding sum_fits ◌+ℤ◌ ◌-ℤ◌
sum_fits_iff a b ha hb = ground arith

-- Two values of `int64_t` are multiplied if the product is such a value, and stop the process if
-- it is not.
pub mul_assert_no_overflow-outcome :
    (a b : ℤ)
    → InRange a
    → InRange b
    → (InRange (a *ℤ b) × (mul_assert_no_overflow a b ≡ ok (a *ℤ b)))
      ⊎ (¬ InRange (a *ℤ b) × (mul_assert_no_overflow a b ≡ abort))
unfolding mul_assert_no_overflow
mul_assert_no_overflow-outcome a b ha hb = elim (Bool-cases (product_fits a b)) [
  | inl fits ↦ inl ((product_fits_iff a b ha hb).0 fits, rw fits)
  | inr too_large ↦ inr ((λ h. let fits = (product_fits_iff a b ha hb).1 h in cc), rw too_large)
]

-- Two values of `int64_t` are added if the sum is such a value, and stop the process if it is not.
pub add_assert_no_overflow-outcome :
    (a b : ℤ)
    → InRange a
    → InRange b
    → (InRange (a +ℤ b) × (add_assert_no_overflow a b ≡ ok (a +ℤ b)))
      ⊎ (¬ InRange (a +ℤ b) × (add_assert_no_overflow a b ≡ abort))
unfolding add_assert_no_overflow
add_assert_no_overflow-outcome a b ha hb = elim (Bool-cases (sum_fits a b)) [
  | inl fits ↦ inl ((sum_fits_iff a b ha hb).0 fits, rw fits)
  | inr too_large ↦ inr ((λ h. let fits = (sum_fits_iff a b ha hb).1 h in cc), rw too_large)
]

-- The product of two positive counts below the largest value is taken.
pub mul_assert_no_overflow-counts :
    (a b : ℕ)
    → a ≤ 9223372036854775807
    → b ≤ 9223372036854775807
    → a * b ≤ 9223372036854775807
    → mul_assert_no_overflow (pos a) (pos b) ≡ ok (pos (a * b))
unfolding mul_assert_no_overflow
mul_assert_no_overflow-counts a b ha hb h =
    let product : pos a *ℤ pos b ≡ pos (a * b) = sym (pos-mul a b) in
    let fits : product_fits (pos a) (pos b) ≡ true =
      (product_fits_iff (pos a) (pos b) (omega arith) (omega arith)).1 (rw product (omega arith)) in
    rw (fits, product)
