-- ===== src/Factorize/Factors/Sort.antt =====
-- The sort that ends a factorisation: it keeps the product and puts the greatest factor first.
use perf_libs_fft.Base.{
  ℕ, ◌*◌, ◌≤◌, ◌<◌, ◌≡◌, refl, ap, ◌∙◌, inl, inr, List, [], ◌∷◌, ltb, Bool-cases, arith,
}
use perf_libs_fft.Factorize.Factors.Product.{product, AllAbove}
use perf_libs_fft.Factorize.Factors.{insert_descending, sort_descending}

abbrev pub IsDescending : List ℕ → Type 0
IsDescending [] = Unit {0}
IsDescending (x ∷ []) = Unit {0}
IsDescending (x ∷ y ∷ xs) = (y ≤ x) × IsDescending (y ∷ xs)

insert_descending-product :
    (a : ℕ) (xs : List ℕ) → product (insert_descending a xs) ≡ a * product xs
unfolding insert_descending
insert_descending-product a [] = refl
insert_descending-product a (b ∷ xs) = elim (Bool-cases (ltb a b)) [
  | inl e ↦ rw (e, insert_descending-product a xs) (omega arith)
  | inr e ↦ rw e refl
]

pub sort_descending-product : (xs : List ℕ) → product (sort_descending xs) ≡ product xs
unfolding sort_descending
sort_descending-product [] = refl
sort_descending-product (a ∷ xs) =
    insert_descending-product a (sort_descending xs)
    ∙ ap (λ (t : ℕ). a * t) (sort_descending-product xs)

insert_descending-above :
    (n a : ℕ) (xs : List ℕ) → n < a → AllAbove n xs → AllAbove n (insert_descending a xs)
unfolding insert_descending
insert_descending-above n a [] h all = (h, tt)
insert_descending-above n a (b ∷ xs) h all = elim (Bool-cases (ltb a b)) [
  | inl e ↦ rw e (all.0, insert_descending-above n a xs h all.1)
  | inr e ↦ rw e (h, all)
]

pub sort_descending-above : (n : ℕ) (xs : List ℕ) → AllAbove n xs → AllAbove n (sort_descending xs)
unfolding sort_descending
sort_descending-above n [] all = tt
sort_descending-above n (a ∷ xs) all =
    insert_descending-above n a (sort_descending xs) all.0 (sort_descending-above n xs all.1)

-- The first element of a list is at most `m`.
abbrev HeadAtMost : ℕ → List ℕ → Type 0
HeadAtMost m [] = Unit {0}
HeadAtMost m (x ∷ xs) = x ≤ m

descend : (x : ℕ) (xs : List ℕ) → HeadAtMost x xs → IsDescending xs → IsDescending (x ∷ xs)
descend x [] h d = tt
descend x (y ∷ xs) h d = (h, d)

IsDescending-tail :
    (x : ℕ) (xs : List ℕ) → IsDescending (x ∷ xs) → HeadAtMost x xs × IsDescending xs
IsDescending-tail x [] d = (tt, tt)
IsDescending-tail x (y ∷ xs) d = d

insert_descending-head :
    (m a : ℕ) (xs : List ℕ) → a ≤ m → HeadAtMost m xs → HeadAtMost m (insert_descending a xs)
unfolding insert_descending
insert_descending-head m a [] h k = h
insert_descending-head m a (b ∷ xs) h k = elim (Bool-cases (ltb a b)) [
  | inl e ↦ rw e k
  | inr e ↦ rw e h
]

insert_descending-IsDescending :
    (a : ℕ) (xs : List ℕ) → IsDescending xs → IsDescending (insert_descending a xs)
unfolding insert_descending
insert_descending-IsDescending a [] d = tt
insert_descending-IsDescending a (b ∷ xs) d =
    let (h, t) = IsDescending-tail b xs d in
    elim (Bool-cases (ltb a b)) [
      | inl e ↦ rw e (
          descend b _ (insert_descending-head b a xs (ground arith) h)
            (insert_descending-IsDescending a xs t))
      | inr e ↦ rw e (ground arith, d)
    ]

pub sort_descending-IsDescending : (xs : List ℕ) → IsDescending (sort_descending xs)
unfolding sort_descending
sort_descending-IsDescending [] = tt
sort_descending-IsDescending (a ∷ xs) =
    insert_descending-IsDescending a (sort_descending xs) (sort_descending-IsDescending xs)
