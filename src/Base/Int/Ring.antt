-- ===== src/Base/Int/Ring.antt =====
-- The ring laws of the integers, for address arithmetic with products.
use perf_libs_fft.Base.{ℕ, ◌+◌, ◌*◌, ◌≡◌, ap, ◌∙◌, arith}
use perf_libs_fft.Base.Int.{ℤ, pos, pos_part, neg_part, ◌+ℤ◌, ◌*ℤ◌, int_laws, +ℤ_parts, eq_of_parts}

pub *ℤ_parts :
    (a b : ℤ)
    → pos_part (a *ℤ b) + (pos_part a * neg_part b + neg_part a * pos_part b)
      ≡ neg_part (a *ℤ b) + (pos_part a * pos_part b + neg_part a * neg_part b)
unfolding ◌*ℤ◌
*ℤ_parts a b = ground arith

pub *ℤ_comm : (a b : ℤ) → a *ℤ b ≡ b *ℤ a
*ℤ_comm a b = eq_of_parts (a *ℤ b) (b *ℤ a) (omega (arith, *ℤ_parts a b, *ℤ_parts b a))

pub right_distrib : (a b c : ℤ) → (a +ℤ b) *ℤ c ≡ a *ℤ c +ℤ b *ℤ c
right_distrib a b c = eq_of_parts _ _ (
    omega (
      arith,
      +ℤ_parts (a *ℤ c) (b *ℤ c),
      *ℤ_parts (a +ℤ b) c,
      *ℤ_parts a c,
      *ℤ_parts b c,
      ap (λ (t : ℕ). t * pos_part c) (+ℤ_parts a b),
      ap (λ (t : ℕ). t * neg_part c) (+ℤ_parts a b),
    ))

pub *ℤ_assoc : (a b c : ℤ) → a *ℤ b *ℤ c ≡ a *ℤ (b *ℤ c)
*ℤ_assoc a b c = eq_of_parts _ _ (
    omega (
      arith,
      *ℤ_parts (a *ℤ b) c,
      *ℤ_parts a (b *ℤ c),
      ap (λ (t : ℕ). t * pos_part c) (*ℤ_parts a b),
      ap (λ (t : ℕ). t * neg_part c) (*ℤ_parts a b),
      ap (λ (t : ℕ). pos_part a * t) (*ℤ_parts b c),
      ap (λ (t : ℕ). neg_part a * t) (*ℤ_parts b c),
    ))

pub pos-add : (a b : ℕ) → pos (a + b) ≡ pos a +ℤ pos b
unfolding ◌+ℤ◌
pos-add a b = ground arith

pub pos-mul : (a b : ℕ) → pos (a * b) ≡ pos a *ℤ pos b
unfolding ◌*ℤ◌
pos-mul a b = ground arith

pub one-*ℤ : (a : ℤ) → pos 1 *ℤ a ≡ a
one-*ℤ a = eq_of_parts _ _ (omega (arith, *ℤ_parts (pos 1) a))

pub zero-*ℤ : (a : ℤ) → pos 0 *ℤ a ≡ pos 0
zero-*ℤ a = eq_of_parts _ _ (omega (arith, *ℤ_parts (pos 0) a))

pub *ℤ-zero : (a : ℤ) → a *ℤ pos 0 ≡ pos 0
*ℤ-zero a = *ℤ_comm a (pos 0) ∙ zero-*ℤ a

pub zero-+ℤ : (a : ℤ) → pos 0 +ℤ a ≡ a
zero-+ℤ a = omega int_laws

pub +ℤ-zero : (a : ℤ) → a +ℤ pos 0 ≡ a
+ℤ-zero a = omega int_laws

pub +ℤ_injective : (a b c : ℤ) → a +ℤ b ≡ a +ℤ c → b ≡ c
+ℤ_injective a b c e =
    eq_of_parts b c (omega (arith, +ℤ_parts a b, +ℤ_parts a c, ap pos_part e, ap neg_part e))

pub pos_injective : (a b : ℕ) → pos a ≡ pos b → a ≡ b
pos_injective a b e = ap pos_part e

-- Sums of three terms, regrouped.
pub +ℤ_right_comm : (a b c : ℤ) → a +ℤ b +ℤ c ≡ a +ℤ c +ℤ b
+ℤ_right_comm a b c = omega int_laws
