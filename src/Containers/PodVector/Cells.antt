-- ===== src/Containers/PodVector/Cells.antt =====
-- What the operations on the cells of src/plfft_pod_vector.hpp keep.
use perf_libs_fft.Base.{
  ℕ, zero, suc, ◌-◌, ◌≤◌, ◌<◌, ◌≡◌, refl, ap, ◌∙◌, inl, inr, List, [], ◌∷◌, ◌++◌, Option, none,
  some, ◌==◌, length, take, set, replicate, map, Bool-cases, arith, length-append, length-take,
  length-replicate,
}
use perf_libs_fft.Containers.PodVector.{reallocate, fill, copy}

pub take-all {ℓ} : {B : Type ℓ} (xs : List B) (n : ℕ) → length xs ≤ n → take n xs ≡ xs
take-all [] zero h = refl
take-all [] (suc n) h = refl
take-all (x ∷ xs) zero h = absurd (omega (arith, h))
take-all (x ∷ xs) (suc n) h = ap (λ t. x ∷ t) (take-all xs n (omega (arith, h)))

module _ {ℓ} {A : Type ℓ} where
  pub length-reallocate : (cells : List (Option A)) (n : ℕ) → length (reallocate cells n) ≡ n
  unfolding reallocate
  length-reallocate cells n = elim (Bool-cases (n == 0)) [
    | inl e ↦ rw e (ground arith)
    | inr e ↦
        let kept = length-take n cells in
        let added = length-replicate {A = Option A} (n - length cells) none in
        rw e (
          length-append (take n cells) (replicate (n - length cells) none)
          ∙ (omega (arith, kept, added)))
  ]

  pub take-take-append :
      (k n : ℕ) (xs ys : List (Option A))
      → k ≤ n
      → k ≤ length xs
      → take k (take n xs ++ ys) ≡ take k xs
  take-take-append zero n xs ys h l = refl
  take-take-append (suc k) zero xs ys h l = absurd (omega (arith, h))
  take-take-append (suc k) (suc n) [] ys h l = absurd (omega (arith, l))
  take-take-append (suc k) (suc n) (x ∷ xs) ys h l =
      ap (λ t. x ∷ t) (take-take-append k n xs ys (omega (arith, h)) (omega (arith, l)))

  pub take-reallocate :
      (k n : ℕ) (cells : List (Option A))
      → k ≤ n
      → k ≤ length cells
      → take k (reallocate cells n) ≡ take k cells
  unfolding reallocate
  take-reallocate k n cells h l = elim (Bool-cases (n == 0)) [
    | inl e ↦ let none_left : k ≡ 0 = ground (arith, h) in rw none_left refl
    | inr e ↦ rw e (take-take-append k n cells _ h l)
  ]

  pub length-fill :
      (first last : ℕ) (value : A) (cells : List (Option A))
      → length (fill first last value cells) ≡ length cells
  unfolding fill
  length-fill zero zero value cells = refl
  length-fill (suc first) zero value cells = refl
  length-fill zero (suc last) value [] = refl
  length-fill (suc first) (suc last) value [] = refl
  length-fill zero (suc last) value (c ∷ cells) = ap suc (length-fill zero last value cells)
  length-fill (suc first) (suc last) value (c ∷ cells) = ap suc (length-fill first last value cells)

  pub take-fill :
      (first last : ℕ) (value : A) (cells : List (Option A))
      → first ≤ last
      → last ≤ length cells
      → take last (fill first last value cells)
        ≡ take first cells ++ replicate (last - first) (some value)
  unfolding fill
  take-fill zero zero value cells f l = refl
  take-fill (suc first) zero value cells f l = absurd (omega (arith, f))
  take-fill first (suc last) value [] f l = absurd (omega (arith, l))
  take-fill zero (suc last) value (c ∷ cells) f l =
      let all : suc last - 0 ≡ suc last = omega arith in
      let same : last - 0 ≡ last = omega arith in
      rw all (
        ap (λ t. some value ∷ t)
          (take-fill zero last value cells (omega arith) (omega (arith, l))
            ∙ ap (λ n. replicate n (some value)) same))
  take-fill (suc first) (suc last) value (c ∷ cells) f l =
      let same : suc last - suc first ≡ last - first = omega arith in
      rw same
        (ap (λ t. c ∷ t) (take-fill first last value cells (omega (arith, f)) (omega (arith, l))))

  pub length-copy : (xs : List A) (cells : List (Option A)) → length (copy xs cells) ≡ length cells
  unfolding copy
  length-copy [] cells = refl
  length-copy (x ∷ xs) [] = refl
  length-copy (x ∷ xs) (c ∷ cells) = ap suc (length-copy xs cells)

  pub take-copy :
      (xs : List A) (cells : List (Option A))
      → length xs ≤ length cells
      → take (length xs) (copy xs cells) ≡ map some xs
  unfolding copy
  take-copy [] cells l = refl
  take-copy (x ∷ xs) [] l = absurd (omega (arith, l))
  take-copy (x ∷ xs) (c ∷ cells) l = ap (λ t. some x ∷ t) (take-copy xs cells (omega (arith, l)))

  pub take-set :
      (i : ℕ) (value : Option A) (cells : List (Option A))
      → i < length cells
      → take (suc i) (set cells i value) ≡ take i cells ++ value ∷ []
  take-set i value [] l = absurd (omega (arith, l))
  take-set zero value (c ∷ cells) l = refl
  take-set (suc i) value (c ∷ cells) l = ap (λ t. c ∷ t) (take-set i value cells (omega (arith, l)))
