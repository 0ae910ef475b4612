-- ===== src/Containers/Examples.antt =====
-- The containers on concrete data: a `static_hash_map` with four buckets, in which one and five
-- share a bucket, and a `pod_vector` of two elements.
use perf_libs_fft.Base.{ℕ, ◌≡◌, refl, some, ◌==◌, ==_iff, if◌then◌else◌, arith, ◌≤◌, [], ◌∷◌, ◌++◌}
use perf_libs_fft.Containers.HashMap.{Key, HashMap, empty, find, find_chain, insert}
use perf_libs_fft.Containers.PodVector.{PodVector, push_back, reserve}
use perf_libs_fft.Containers.PodVector.Contents.{
  IsValid, elements, push_back-elements, reserve-elements,
}
use perf_libs_fft.Containers.HashMap.Laws.{empty-IsSized, insert-IsSized, find-insert}

instance number_key : Key ℕ
number_key = record { equal = ◌==◌; equal_iff = ==_iff }

abbrev same : ℕ → ℕ
same n = n

abbrev nothing : HashMap ℕ ℕ
nothing = empty 4

abbrev one_ten : HashMap ℕ ℕ
one_ten = (insert same 4 1 10 nothing).0

find-insert_example :
    find same 4 5 (insert same 4 5 50 one_ten).0
    ≡ (if number_key.equal 5 5 then some (insert same 4 5 50 one_ten).1 else find same 4 5 one_ten)
find-insert_example =
    find-insert same 4 one_ten
      (insert-IsSized same 4 nothing (empty-IsSized ℕ ℕ 4) (omega arith) 1 10) (omega arith) 5 5 50

ten_there : find same 4 1 one_ten ≡ some 10
unfolding find insert empty find_chain number_key
ten_there = refl

-- Two elements in memory for two.
abbrev two_items : PodVector ℕ
two_items = record { data_cells = some 5 ∷ some 6 ∷ []; capacity = 2; size = 2 }

two_items-IsValid : IsValid two_items
two_items-IsValid = record { allocated = refl; fits = omega arith }

push_back-elements_example :
    IsValid (push_back two_items 7)
    × (elements (push_back two_items 7) ≡ (some 5 ∷ some 6 ∷ []) ++ some 7 ∷ [])
push_back-elements_example = push_back-elements two_items 7 two_items-IsValid

reserve-elements_example :
    IsValid (reserve two_items 64)
    × (elements (reserve two_items 64) ≡ some 5 ∷ some 6 ∷ [])
    × (64 ≤ (reserve two_items 64).capacity)
reserve-elements_example = reserve-elements two_items 64 two_items-IsValid
