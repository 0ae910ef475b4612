-- ===== src/Planner/Policy.antt =====
-- The planner's permission sets: src/planner/policy.hpp. A set is a mask of 32 bits.
pub mod Order
use Prim.Native.Nat.{bit_and, bit_or}
use perf_libs_fft.Base.{ℕ, ◌^◌, ◌*◌, ◌<◌, Bool, not, ◌==◌, if◌then◌else◌}
use perf_libs_fft.Base.Bits.{complement}

pub record Policy : Type 0 where
  pub mask : ℕ

-- The mask is a `uint32_t`.
abbrev pub IsWord : Policy → Type 0
IsWord p = p.mask < 2 ^ 32

unfoldable pub contains : Policy → Policy → Bool
contains p x = bit_and p.mask x.mask == x.mask

pub is_subset_of : Policy → Policy → Bool
is_subset_of p x = bit_and p.mask x.mask == p.mask

unfoldable pub equal : Policy → Policy → Bool
equal p x = p.mask == x.mask

-- `operator-`; the complement is taken in 32 bits
pub minus : Policy → Policy → Policy
minus p x = record { mask = bit_and p.mask (complement 32 x.mask) }

-- `operator+`
pub plus : Policy → Policy → Policy
plus p x = record { mask = bit_or p.mask x.mask }

abbrev pub allow_convolutions : Policy
allow_convolutions = record { mask = 2 ^ 0 }

abbrev pub allow_pruning : Policy
allow_pruning = record { mask = 2 ^ 2 }

abbrev pub allow_sme : Policy
allow_sme = record { mask = 2 ^ 4 }

abbrev pub allow_sme2 : Policy
allow_sme2 = record { mask = 2 ^ 5 }

pub allow_all : Policy
unfolding plus
allow_all = plus (plus (plus allow_convolutions allow_sme) allow_pruning) allow_sme2

pub initial : Policy
unfolding allow_all
initial = allow_all

-- The second argument is the outcome of `target_secs_total > 0.0`.
pub from_options : Bool → Bool → Policy
unfolding initial minus
from_options want_sme has_target =
    let set = if not want_sme then minus (minus initial allow_sme) allow_sme2 else initial in
    if has_target then minus set allow_pruning else set
