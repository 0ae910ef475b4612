-- ===== src/Planner/Policy/Order.antt =====
-- Policies as sets of permissions: the inclusion order, removal, and the initial set.
use Prim.Native.Nat.{bit_and}
use perf_libs_fft.Base.{◌≡◌, refl, sym, ap, ◌∙◌, ◌↔◌, Bool, true, false, not, ==_iff, arith}
use perf_libs_fft.Base.Bits.{
  complement, bit_and_comm, bit_and_assoc, bit_and_self, bit_and-complement, within_left,
  within_right, within_both,
}
use perf_libs_fft.Planner.Policy.{
  Policy, IsWord, contains, is_subset_of, equal, minus, from_options, allow_convolutions,
  allow_pruning, allow_sme, allow_sme2,
}

-- The inclusion, as an equation of masks.
abbrev pub Includes : Policy → Policy → Type 0
Includes p x = bit_and p.mask x.mask ≡ x.mask

pub contains_iff : (p x : Policy) → (contains p x ≡ true) ↔ Includes p x
unfolding contains
contains_iff p x = ==_iff _ _

pub is_subset_of_iff : (p x : Policy) → (is_subset_of p x ≡ true) ↔ Includes x p
unfolding is_subset_of
is_subset_of_iff p x = rw (bit_and_comm x.mask p.mask) (==_iff _ _)

pub equal_iff : (p x : Policy) → (equal p x ≡ true) ↔ (p ≡ x)
unfolding equal
equal_iff p x = (λ h. (ground arith), λ e. (ground arith))

pub Includes-refl : (p : Policy) → Includes p p
Includes-refl p = bit_and_self p.mask

pub Includes-trans : (p q r : Policy) → Includes p q → Includes q r → Includes p r
Includes-trans p q r h k =
    ap (bit_and p.mask) (sym k)
    ∙ sym (bit_and_assoc p.mask q.mask r.mask)
    ∙ ap (λ m. bit_and m r.mask) h
    ∙ k

pub Includes-antisymm : (p q : Policy) → Includes p q → Includes q p → p ≡ q
Includes-antisymm p q h k =
    let e : p.mask ≡ q.mask = sym k ∙ bit_and_comm q.mask p.mask ∙ h in ground arith

-- Removing `x` leaves exactly the permissions that were there and share no bit with `x`.
pub contains-minus :
    (p x y : Policy)
    → IsWord x
    → IsWord y
    → (contains (minus p x) y ≡ true) ↔ ((contains p y ≡ true) × (bit_and y.mask x.mask ≡ 0))
unfolding minus
contains-minus p x y hx hy =
    let clear = bit_and-complement 32 x.mask y.mask hx hy in
    let comp = complement 32 x.mask in
    (
      λ h.
          (let inside = (contains_iff (minus p x) y).0 h in
            (
              (contains_iff p y).1 (within_left p.mask comp y.mask inside),
              clear.0 (within_right p.mask comp y.mask inside),
            )),
      λ h.
          (contains_iff (minus p x) y).1
            (within_both p.mask comp y.mask ((contains_iff p y).0 h.0) (clear.1 h.1)),
    )

-- The initial set grants the two SME permissions exactly when SME was asked for, pruning exactly
-- when there is no time budget, and always the convolutions.
pub from_options-grants :
    (want_sme has_target : Bool)
    → (contains (from_options want_sme has_target) allow_sme ≡ want_sme)
      × (contains (from_options want_sme has_target) allow_sme2 ≡ want_sme)
      × (contains (from_options want_sme has_target) allow_pruning ≡ not has_target)
      × (contains (from_options want_sme has_target) allow_convolutions ≡ true)
unfolding from_options contains
from_options-grants true true = (refl, refl, refl, refl)
from_options-grants true false = (refl, refl, refl, refl)
from_options-grants false true = (refl, refl, refl, refl)
from_options-grants false false = (refl, refl, refl, refl)
