-- ===== src/Containers/PodVector/Contents.antt =====
-- The elements of a vector after each operation: src/plfft_pod_vector.hpp.
use perf_libs_fft.Base.{
  ℕ, suc, ◌-◌, ◌*◌, ◌≤◌, ◌<◌, ◌≡◌, refl, sym, ap, subst, ◌∙◌, inl, inr, List, [], ◌∷◌, ◌++◌, Option,
  some, leb, ltb, ◌==◌, length, take, set, replicate, if◌then◌else◌, map, min, Bool-cases, arith,
  length-set,
}
use perf_libs_fft.Containers.PodVector.{
  PodVector, realloc_, reserve, shrink_to_fit, resize, resize_with, assign, assign_range, push_back,
}
use perf_libs_fft.Containers.PodVector.Cells.{
  length-reallocate, take-all, take-reallocate, length-fill, take-fill, length-copy, take-copy,
  take-set,
}

append-nil {ℓ} : {B : Type ℓ} (xs : List B) → xs ++ [] ≡ xs
append-nil [] = refl
append-nil (x ∷ xs) = ap (λ t. x ∷ t) (append-nil xs)

module _ {ℓ} {A : Type ℓ} where
  -- The capacity is that of the memory, and the elements fit.
  pub record IsValid (v : PodVector A) : Type ℓ where
    pub allocated : length v.data_cells ≡ v.capacity
    pub fits : v.size ≤ v.capacity

  -- The elements; one that was never written is nothing.
  abbrev pub elements : PodVector A → List (Option A)
  elements v = take v.size v.data_cells

  realloc_-cells :
      (v : PodVector A) (n k : ℕ)
      → IsValid v
      → k ≤ n
      → k ≤ v.capacity
      → (length (realloc_ v n).data_cells ≡ n)
        × ((realloc_ v n).capacity ≡ n)
        × ((realloc_ v n).size ≡ v.size)
        × (take k (realloc_ v n).data_cells ≡ take k v.data_cells)
  unfolding realloc_
  realloc_-cells v n k valid small held = elim (Bool-cases (n == v.capacity)) [
    | inl same ↦ rw same (ground (arith, valid.allocated), ground arith, refl, refl)
    | inr other ↦ rw other (
      length-reallocate v.data_cells n,
      refl,
      refl,
      take-reallocate k n v.data_cells small (omega (arith, valid.allocated, held)),
    )
  ]

  -- `reserve` keeps the elements, and makes room.
  pub reserve-elements :
      (v : PodVector A) (n : ℕ)
      → IsValid v
      → IsValid (reserve v n) × (elements (reserve v n) ≡ elements v) × (n ≤ (reserve v n).capacity)
  unfolding reserve
  reserve-elements v n valid = elim (Bool-cases (leb n v.capacity)) [
    | inl room ↦ rw room (valid, refl, ground arith)
    | inr full ↦
        let (l, c, s, t) =
          realloc_-cells v n v.size valid (ground (arith, valid.fits)) valid.fits in
        rw full (
          record { allocated = l ∙ sym c; fits = ground (arith, valid.fits) },
          rw s t,
          ground arith,
        )
  ]

  -- The write of `push_back`, where there is room.
  pushed :
      (w : PodVector A) (x : A) (cells : List (Option A))
      → length w.data_cells ≡ w.capacity
      → w.size < w.capacity
      → elements w ≡ cells
      → (let r : PodVector A = record w {
        data_cells = set w.data_cells w.size (some x);
        size = suc w.size;
      } in
          IsValid r × (elements r ≡ cells ++ some x ∷ []))
  pushed w x cells whole room e = (
    record { allocated = length-set w.data_cells w.size (some x) ∙ whole; fits = room },
    take-set w.size (some x) w.data_cells (omega (arith, whole, room))
        ∙ ap (λ c. c ++ some x ∷ []) e,
  )

  -- `push_back` adds one element at the end, and keeps the others.
  pub push_back-elements :
      (v : PodVector A) (x : A)
      → IsValid v
      → IsValid (push_back v x) × (elements (push_back v x) ≡ elements v ++ some x ∷ [])
  unfolding push_back
  push_back-elements v x valid = elim (Bool-cases (v.size == v.capacity)) [
    | inl full ↦
        let n = if v.capacity == 0 then 1 else v.capacity * 2 in
        let more : v.capacity < n = ground arith in
        let (l, c, s, t) =
          realloc_-cells v n v.size valid (omega (arith, valid.fits, more)) valid.fits in
        rw full (
          pushed (realloc_ v n) x (elements v) (l ∙ sym c) (omega (arith, c, s, more, valid.fits))
            (rw s t))
    | inr room ↦ rw room (pushed v x (elements v) valid.allocated (ground (arith, valid.fits)) refl)
  ]

  -- `resize` keeps the elements that there is still room for.
  pub resize-elements :
      (v : PodVector A) (n : ℕ)
      → IsValid v
      → IsValid (resize v n)
        × ((resize v n).size ≡ n)
        × (take (min n v.size) (resize v n).data_cells ≡ take (min n v.size) v.data_cells)
  unfolding resize
  resize-elements v n valid =
      let (l, c, s, t) =
        realloc_-cells v n (min n v.size) valid (omega arith) (omega (arith, valid.fits)) in
      (record { allocated = l ∙ sym c; fits = omega (arith, c) }, refl, t)

  -- `resize` with a value also writes it to every element that is new.
  pub resize_with-elements :
      (v : PodVector A) (n : ℕ) (x : A)
      → IsValid v
      → IsValid (resize_with v n x)
        × (elements (resize_with v n x)
            ≡ take (min n v.size) v.data_cells ++ replicate (n - v.size) (some x))
  unfolding resize_with
  resize_with-elements v n x valid =
      let (l, c, s, t) =
        realloc_-cells v n (min n v.size) valid (omega arith) (omega (arith, valid.fits)) in
      elim (Bool-cases (ltb v.size n)) [
        | inl grows ↦
            let old : min n v.size ≡ v.size = ground arith in
            let written =
              take-fill v.size n x (realloc_ v n).data_cells (ground arith) (omega (arith, l)) in
            let kept : take v.size (realloc_ v n).data_cells ≡ take v.size v.data_cells =
              subst (λ k. take k (realloc_ v n).data_cells ≡ take k v.data_cells) old t in
            rw (grows, old)
              (
                record {
                  allocated = length-fill v.size n x (realloc_ v n).data_cells ∙ l ∙ sym c;
                  fits = omega (arith, c);
                },
                written ∙ ap (λ cells. cells ++ replicate (n - v.size) (some x)) kept,
              )
        | inr shrinks ↦
            let old : min n v.size ≡ n = ground arith in
            let none_new : n - v.size ≡ 0 = ground arith in
            let kept : take n (realloc_ v n).data_cells ≡ take n v.data_cells =
              subst (λ k. take k (realloc_ v n).data_cells ≡ take k v.data_cells) old t in
            rw (shrinks, old, none_new)
              (
                record { allocated = l ∙ sym c; fits = omega (arith, c) },
                kept ∙ sym (append-nil (take n v.data_cells)),
              )
      ]

  -- After `assign` each element is the value.
  pub assign-elements :
      (v : PodVector A) (n : ℕ) (x : A)
      → IsValid v
      → IsValid (assign v n x) × (elements (assign v n x) ≡ replicate n (some x))
  unfolding assign
  assign-elements v n x valid =
      let (w, same, _) = resize-elements v n valid in
      let all : n - 0 ≡ n = omega arith in
      let written =
        take-fill 0 n x (resize v n).data_cells (omega arith)
          (omega (arith, w.allocated, w.fits, same)) in
      (
        record {
          allocated = length-fill 0 n x (resize v n).data_cells ∙ w.allocated;
          fits = w.fits;
        },
        rw same (written ∙ ap (λ k. replicate k (some x)) all),
      )

  -- After `assign` from a range the elements are those of the range.
  pub assign_range-elements :
      (v : PodVector A) (xs : List A)
      → IsValid v
      → IsValid (assign_range v xs) × (elements (assign_range v xs) ≡ map some xs)
  unfolding assign_range
  assign_range-elements v xs valid =
      let (w, same, _) = resize-elements v (length xs) valid in
      (
        record {
          allocated = length-copy xs (resize v (length xs)).data_cells ∙ w.allocated;
          fits = w.fits;
        },
        rw same (
            take-copy xs (resize v (length xs)).data_cells
              (omega (arith, w.allocated, w.fits, same))),
      )

  -- `shrink_to_fit` keeps the elements, and no other cell.
  pub shrink_to_fit-elements :
      (v : PodVector A)
      → IsValid v
      → IsValid (shrink_to_fit v) × ((shrink_to_fit v).data_cells ≡ elements v)
  unfolding shrink_to_fit
  shrink_to_fit-elements v valid =
      let (l, c, s, t) = realloc_-cells v v.size v.size valid (omega arith) valid.fits in
      (
        record { allocated = l ∙ sym c; fits = omega (arith, c, s) },
        sym (take-all (realloc_ v v.size).data_cells v.size (omega (arith, l))) ∙ t,
      )
