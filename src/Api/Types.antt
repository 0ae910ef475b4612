-- ===== src/Api/Types.antt =====
-- The enumerations of include/plfft.h. A C caller can pass a value that no enumerator names: each
-- type has a constructor for those, which carries the value. The union of src/plfft.cpp stores one
-- `int`, which is read back as the enumeration that the reader names.
use perf_libs_fft.Base.{zero, suc, List, [], ◌∷◌, none, some, get_elem?}
use perf_libs_fft.Base.Int.{ℤ, pos, negsuc}

pub data Status : Type 0 where
  plfft_ok plfft_null_argument plfft_invalid_size plfft_unsupported_batch
        plfft_invalid_transform_kind plfft_invalid_data_type plfft_invalid_io_alias
        plfft_plan_creation_failed plfft_invalid_sme_mode plfft_sme_not_enabled
        plfft_sme_unsupported_r2r plfft_fp16_not_available plfft_sme_not_available
        plfft_sme_unsupported_fixed_point plfft_invalid_planner_rigor :
      Status

pub data Direction : Type 0 where
  plfft_forward plfft_backward : Direction
  other_direction : ℤ → Direction

pub data R2rKind : Type 0 where
  dct_1 dct_2 dct_3 dct_4 dst_1 dst_2 dst_3 dst_4 dht r2hc hc2r : R2rKind
  other_kind : ℤ → R2rKind

pub data DataType : Type 0 where
  fp32 fp64 fp16 q7 q15 : DataType
  other_type : ℤ → DataType

pub data IoAlias : Type 0 where
  no_alias may_alias : IoAlias
  other_alias : ℤ → IoAlias

pub data SmeMode : Type 0 where
  disabled enabled : SmeMode
  other_mode : ℤ → SmeMode

pub data Rigor : Type 0 where
  estimate measure patient exhaustive : Rigor
  other_rigor : ℤ → Rigor

-- `transform_kind_t`, which no caller sets.
pub data TransformKind : Type 0 where
  transform_c2c transform_r2c transform_c2r transform_r2r : TransformKind

abbrev pub direction_code : Direction → ℤ
direction_code plfft_forward = negsuc 0
direction_code plfft_backward = pos 1
direction_code (other_direction c) = c

abbrev pub direction_of : ℤ → Direction
direction_of (negsuc zero) = plfft_forward
direction_of (pos (suc zero)) = plfft_backward
direction_of c = other_direction c

abbrev pub r2r_code : R2rKind → ℤ
r2r_code dct_1 = pos 0
r2r_code dct_2 = pos 1
r2r_code dct_3 = pos 2
r2r_code dct_4 = pos 3
r2r_code dst_1 = pos 4
r2r_code dst_2 = pos 5
r2r_code dst_3 = pos 6
r2r_code dst_4 = pos 7
r2r_code dht = pos 8
r2r_code r2hc = pos 9
r2r_code hc2r = pos 10
r2r_code (other_kind c) = c

-- The named kinds, in the order of their values.
abbrev r2r_kinds : List R2rKind
r2r_kinds = dct_1 ∷ dct_2 ∷ dct_3 ∷ dct_4 ∷ dst_1 ∷ dst_2 ∷ dst_3 ∷ dst_4 ∷ dht ∷ r2hc ∷ hc2r ∷ []

abbrev pub r2r_of : ℤ → R2rKind
r2r_of (pos c) = elim (get_elem? r2r_kinds c) [ none ↦ other_kind (pos c) | some kind ↦ kind ]
r2r_of (negsuc c) = other_kind (negsuc c)
