-- ===== src/Twiddles/Block.antt =====
-- The cells of one row block of a table of twiddle factors: src/generate_twiddles.hpp.
use native.Mathlib.Nat.{zero-add}
use perf_libs_fft.Base.{
  ℕ, zero, suc, ◌+◌, ◌*◌, ◌<◌, ◌≡◌, refl, ap, ◌∙◌, inl, inr, List, [], ◌∷◌, ◌++◌, length,
  length-append, get_or, Bool-cases, arith,
}
use perf_libs_fft.Twiddles.{TwiddleLayout, ofs_mul, value, entry, interleaved, columns}

pub get_or-left {ℓ} :
    {A : Type ℓ} (xs ys : List A) (k : ℕ) (d : A)
    → k < length xs
    → get_or (xs ++ ys) k d ≡ get_or xs k d
get_or-left [] ys k d h = elim h [ ]
get_or-left (x ∷ xs) ys zero d h = refl
get_or-left (x ∷ xs) ys (suc k) d h = get_or-left xs ys k d (omega arith)

pub get_or-right {ℓ} :
    {A : Type ℓ} (xs ys : List A) (n k : ℕ) (d : A)
    → n ≡ length xs + k
    → get_or (xs ++ ys) n d ≡ get_or ys k d
get_or-right [] ys n k d e = let same : n ≡ k = omega arith in ap (λ (i : ℕ). get_or ys i d) same
get_or-right (x ∷ xs) ys zero k d e = absurd (omega arith)
get_or-right (x ∷ xs) ys (suc n) k d e = get_or-right xs ys n k d (omega arith)

module _ {ℓ} {W : Type ℓ} (point : ℕ → W) (padding : W) (rotated : W → W) (layout : TwiddleLayout)
    (n1 : ℕ) where
  abbrev here_value : ℕ → ℕ → W
  here_value = value point padding rotated layout n1

  abbrev factor : ℕ
  factor = ofs_mul layout

  abbrev q : ℕ
  q = layout.interleave_factor

  length-entry : (w : W) → length (entry point padding rotated layout n1 w) ≡ factor
  unfolding entry
  length-entry w = ground arith

  entry-first :
      (w : W) (rest : List W) (d : W)
      → get_or (entry point padding rotated layout n1 w ++ rest) 0 d ≡ w
  unfolding entry
  entry-first w rest d = elim (Bool-cases layout.want_premul) [ inl e ↦ rw e | inr e ↦ rw e ]

  below : (b : ℕ) → b < q → b * factor < q * factor
  below b l = elim (Bool-cases layout.want_premul) [
    | inl e ↦ rw e (omega arith)
    | inr e ↦ rw e (omega arith)
  ]

  -- Factor `b` of column `c` stands before the end of the columns.
  pub inside : (rounds c b : ℕ) → c < rounds → b < q → (c * q + b) * factor < rounds * (q * factor)
  inside rounds c b h l =
      let within : c * q + b < rounds * q = grind arith in
      elim (Bool-cases layout.want_premul) [
        | inl e ↦ rw e (omega arith)
        | inr e ↦ rw e (omega arith)
      ]

  length-interleaved :
      (rounds jj i j : ℕ)
      → length (interleaved point padding rotated layout n1 rounds jj i j) ≡ rounds * factor
  unfolding interleaved
  length-interleaved zero jj i j = omega arith
  length-interleaved (suc rounds) jj i j =
      let first = entry point padding rotated layout n1 (here_value i (j + jj)) in
      length-append first (interleaved point padding rotated layout n1 rounds (suc jj) i j)
      ∙ (omega
          (arith, length-entry (here_value i (j + jj)), length-interleaved rounds (suc jj) i j))

  interleaved-at :
      (rounds jj i j b : ℕ) (d : W)
      → b < rounds
      → get_or (interleaved point padding rotated layout n1 rounds jj i j) (b * factor) d
        ≡ here_value i (j + (jj + b))
  unfolding interleaved
  interleaved-at zero jj i j b d h = elim h [ ]
  interleaved-at (suc rounds) jj i j zero d h =
      let none : 0 * factor ≡ 0 = omega arith in
      let same : j + jj ≡ j + (jj + 0) = omega arith in
      let rest = interleaved point padding rotated layout n1 rounds (suc jj) i j in
      ap
        (λ (k : ℕ).
          get_or (entry point padding rotated layout n1 (here_value i (j + jj)) ++ rest) k d)
        none
      ∙ entry-first (here_value i (j + jj)) rest d
      ∙ ap (here_value i) same
  interleaved-at (suc rounds) jj i j (suc b) d h =
      let next : j + (suc jj + b) ≡ j + (jj + suc b) = omega arith in
      let first = here_value i (j + jj) in
      get_or-right (entry point padding rotated layout n1 first)
        (interleaved point padding rotated layout n1 rounds (suc jj) i j) (suc b * factor)
        (b * factor) d (omega (arith, length-entry first))
      ∙ interleaved-at rounds (suc jj) i j b d (omega arith)
      ∙ ap (here_value i) next

  pub length-columns :
      (rounds i j : ℕ)
      → length (columns point padding rotated layout n1 rounds i j) ≡ rounds * (q * factor)
  unfolding columns
  length-columns zero i j = omega arith
  length-columns (suc rounds) i j =
      length-append (interleaved point padding rotated layout n1 q 0 i j)
        (columns point padding rotated layout n1 rounds (suc i) j)
      ∙ (omega (arith, length-interleaved q 0 i j, length-columns rounds (suc i) j))

  -- Factor `b` of the row block at `j`, in column `c` of those from `i` on.
  pub columns-at :
      (rounds i j c b : ℕ) (d : W)
      → c < rounds
      → b < q
      → get_or (columns point padding rotated layout n1 rounds i j) ((c * q + b) * factor) d
        ≡ here_value (i + c) (j + b)
  unfolding columns
  columns-at zero i j c b d h l = elim h [ ]
  columns-at (suc rounds) i j zero b d h l =
      let at : (0 * q + b) * factor ≡ b * factor = omega arith in
      let first = interleaved point padding rotated layout n1 q 0 i j in
      let rest = columns point padding rotated layout n1 rounds (suc i) j in
      let column : i ≡ i + 0 = omega arith in
      ap (λ (k : ℕ). get_or (first ++ rest) k d) at
      ∙ get_or-left first rest (b * factor) d (rw (length-interleaved q 0 i j) (below b l))
      ∙ interleaved-at q 0 i j b d l
      ∙ ap (λ (k : ℕ). here_value k (j + (0 + b))) column
      ∙ ap (λ (k : ℕ). here_value (i + 0) (j + k)) (zero-add b)
  columns-at (suc rounds) i j (suc c) b d h l =
      let column : suc i + c ≡ i + suc c = omega arith in
      get_or-right (interleaved point padding rotated layout n1 q 0 i j)
        (columns point padding rotated layout n1 rounds (suc i) j) ((suc c * q + b) * factor)
        ((c * q + b) * factor) d (omega (arith, length-interleaved q 0 i j))
      ∙ columns-at rounds (suc i) j c b d (omega arith) l
      ∙ ap (λ (k : ℕ). here_value k (j + b)) column
