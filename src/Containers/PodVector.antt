-- ===== src/Containers/PodVector.antt =====
-- `pod_vector` of src/plfft_pod_vector.hpp. The memory of a vector is the list of its cells, of which
-- those that were never written hold nothing; a null pointer is the empty list. `std::realloc` is
-- assumed to give the memory that it is asked for.
pub mod Cells
pub mod Contents
use perf_libs_fft.Base.{
  ℕ, zero, suc, ◌+◌, ◌-◌, ◌*◌, Bool, true, false, List, [], ◌∷◌, ◌++◌, Option, none, some, leb, ltb,
  ◌==◌, length, take, set, replicate, if◌then◌else◌,
}

pub record PodVector {ℓ} (A : Type ℓ) : Type ℓ where
  pub data_cells : List (Option A)
  pub capacity : ℕ
  pub size : ℕ

module _ {ℓ} {A : Type ℓ} where
  unfoldable pub empty_vector : PodVector A
  empty_vector = record { data_cells = []; capacity = 0; size = 0 }

  -- `reallocator::reallocate`, which frees the block for a size of zero.
  pub reallocate : List (Option A) → ℕ → List (Option A)
  reallocate cells new_size =
      if new_size == 0 then [] else take new_size cells ++ replicate (new_size - length cells) none

  pub realloc_ : PodVector A → ℕ → PodVector A
  realloc_ v size =
      if size == v.capacity
      then v
      else record v { data_cells = reallocate v.data_cells size; capacity = size }

  -- `std::fill` of the cells from `first` up to `last`, which is excluded.
  pub fill : ℕ → ℕ → A → List (Option A) → List (Option A)
  fill zero zero value cells = cells
  fill (suc first) zero value cells = cells
  fill first (suc last) value [] = []
  fill zero (suc last) value (cell ∷ cells) = some value ∷ fill zero last value cells
  fill (suc first) (suc last) value (cell ∷ cells) = cell ∷ fill first last value cells

  -- `std::copy` to the first cells.
  pub copy : List A → List (Option A) → List (Option A)
  copy [] cells = cells
  copy (x ∷ xs) [] = []
  copy (x ∷ xs) (cell ∷ cells) = some x ∷ copy xs cells

  pub reserve : PodVector A → ℕ → PodVector A
  reserve v new_cap = if leb new_cap v.capacity then v else realloc_ v new_cap

  pub shrink_to_fit : PodVector A → PodVector A
  shrink_to_fit v = realloc_ v v.size

  pub resize : PodVector A → ℕ → PodVector A
  resize v count = record (realloc_ v count) { size = count }

  -- `resize` with a value for the elements that are new.
  pub resize_with : PodVector A → ℕ → A → PodVector A
  resize_with v count value =
      let w = realloc_ v count in
      record w {
        data_cells =
            if ltb v.size count then fill v.size count value w.data_cells else w.data_cells;
        size = count;
      }

  unfoldable pub clear : PodVector A → PodVector A
  clear v = resize v 0

  pub assign : PodVector A → ℕ → A → PodVector A
  assign v size value =
      let w = resize v size in record w { data_cells = fill 0 size value w.data_cells }

  pub assign_range : PodVector A → List A → PodVector A
  assign_range v xs = let w = resize v (length xs) in record w { data_cells = copy xs w.data_cells }

  pub push_back : PodVector A → A → PodVector A
  push_back v value =
      let w =
        if v.size == v.capacity
        then realloc_ v (if v.capacity == 0 then 1 else v.capacity * 2)
        else v in
      record w { data_cells = set w.data_cells w.size (some value); size = suc w.size }
