-- ===== src/Factorize/Factors/Square.antt =====
-- The factorisation that balances its factors, and the choice between the two.
use mathlib.Core.Option.{some-injective}
use perf_libs_fft.Base.{
  ℕ, zero, suc, ◌/◌, ◌%◌, ◌≤◌, ◌<◌, ◌≡◌, refl, sym, subst, ◌⊎◌, ◌↔◌, min, ap, ◌∙◌, inl, inr, Bool,
  true, false, List, [], ◌∷◌, ◌++◌, some, length, ltb, leb, ◌==◌, ==_iff, ◌&&◌, Bool-cases, arith,
}
use perf_libs_fft.Factorize.Factors.Product.{
  AllAbove, Splits, Splits-trans, divided, quotient_bounds,
}
use perf_libs_fft.Factorize.Factors.Descending.{
  IsFactorisation, factorize_primes-IsFactorisation, factorize_descending-IsFactorisation,
}
use perf_libs_fft.Factorize.Factors.{
  useful, pick_factor, square_loop, factorize_square, factorize, is_base_n, is_base_case,
  factorize_descending,
}

and_parts : (a b : Bool) → a && b ≡ true → (a ≡ true) × (b ≡ true)
and_parts true b h = (refl, h)
and_parts false b h = ground arith

-- Every length divides `n` and is above one.
abbrev AllDivide : ℕ → List ℕ → Type 0
AllDivide n [] = Unit {0}
AllDivide n (k ∷ ks) = (1 < k) × (n % k ≡ 0) × AllDivide n ks

useful-AllDivide : (n : ℕ) (ks : List ℕ) → AllAbove 1 ks → AllDivide n (useful n ks)
unfolding useful
useful-AllDivide n [] big = tt
useful-AllDivide n (k ∷ ks) big = elim (Bool-cases (n % k == 0)) [
  | inl e ↦ rw e (big.0, (==_iff _ _).0 e, useful-AllDivide n ks big.1)
  | inr e ↦ rw e (useful-AllDivide n ks big.1)
]

pick_factor-divides :
    (n top a : ℕ) (ks : List ℕ)
    → AllDivide n (a ∷ ks)
    → (1 < pick_factor top a ks) × (n % pick_factor top a ks ≡ 0)
unfolding pick_factor
pick_factor-divides n top a [] d = (d.0, d.1)
pick_factor-divides n top a (b ∷ ks) d = elim (Bool-cases (leb top a && ltb b top)) [
  | inl e ↦ rw e (d.0, d.1)
  | inr e ↦ rw e (pick_factor-divides n top b ks d.2)
]

List-cases {ℓ} :
    {A : Type ℓ} (xs : List A) → (xs ≡ []) ⊎ ((x : A) × (rest : List A) × (xs ≡ x ∷ rest))
List-cases [] = inl refl
List-cases (x ∷ xs) = inr (x, xs, refl)

module _ (root : ℕ → ℕ) (below : (n : ℕ) → root n ≤ n) (log_base nth_root : ℕ → ℕ → ℕ)
    (k_facts : List ℕ) (big : AllAbove 1 k_facts) where
  -- The factor picked among the useful lengths is above one and divides `n`.
  pick_factor_lem :
      (n top a : ℕ) (ks : List ℕ)
      → useful n k_facts ≡ a ∷ ks
      → (1 < pick_factor top a ks) × (n % pick_factor top a ks ≡ 0)
  pick_factor_lem n top a ks e =
      pick_factor-divides n top a ks (subst (AllDivide n) e (useful-AllDivide n k_facts big))

  square_loop-Splits :
      (fuel n : ℕ) (factors : List ℕ)
      → 0 < n
      → n < fuel
      → (r : ℕ × List ℕ) × (square_loop root log_base nth_root k_facts fuel n factors ≡ some r)
        × Splits n factors r
  unfolding square_loop
  square_loop-Splits zero n factors pos enough = absurd (omega arith)
  square_loop-Splits (suc fuel) n factors pos enough = elim (List-cases (useful n k_facts)) [
    | inl e ↦ (
      (n, factors),
      rw (e, square_loop) refl,
      record { whole = refl; positive = pos; smaller = omega arith; above = λ h. h },
    )
    | inr (base, rest, e) ↦
        let top_factor = pick_factor (nth_root n (log_base n base)) base rest in
        let (above, divides) = pick_factor_lem n (nth_root n (log_base n base)) base rest e in
        let d = divided n top_factor factors above pos divides in
        let (r, run, s) =
          square_loop-Splits fuel (n / top_factor) (factors ++ top_factor ∷ []) d.positive
            (omega (arith, quotient_bounds n top_factor above pos divides)) in
        (r, rw (e, square_loop) run, Splits-trans n factors _ r d s)
  ]

  -- For positive `n` and kernel lengths above one, the balanced factors are found; they multiply
  -- back to `n`, are above one, and descend, whatever `log_base` and the root by `std::pow` return.
  pub factorize_square-IsFactorisation :
      (n : ℕ)
      → 0 < n
      → (fs : List ℕ) × (factorize_square root log_base nth_root k_facts n ≡ some fs)
        × IsFactorisation n fs
  unfolding factorize_square
  factorize_square-IsFactorisation n pos =
      let (r, run, s) = square_loop-Splits (suc n) n [] pos (omega arith) in
      let (fs, run', f) =
        factorize_primes-IsFactorisation root below r.0 r.1 s.positive (s.above tt) in
      (
        fs,
        rw (run, factorize_square) run',
        record {
          whole = f.whole ∙ s.whole ∙ (omega arith);
          above = f.above;
          descending = f.descending;
        },
      )

  -- For positive `n` and kernel lengths above one, `factorize` returns the shorter of the two
  -- factorisations, and it is one of `n`.
  pub factorize-IsFactorisation :
      (n : ℕ)
      → 0 < n
      → (dsc : List ℕ) × (sq : List ℕ) × (fs : List ℕ) × (factorize_descending root k_facts n
          ≡ some dsc)
        × (factorize_square root log_base nth_root k_facts n ≡ some sq)
        × (factorize root log_base nth_root k_facts n ≡ some fs)
        × (length fs ≡ min (length dsc) (length sq))
        × IsFactorisation n fs
  unfolding factorize
  factorize-IsFactorisation n pos =
      let (dsc, run, f) = factorize_descending-IsFactorisation root below k_facts n big pos in
      let (sq, run', g) = factorize_square-IsFactorisation n pos in
      elim (Bool-cases (ltb (length dsc) (length sq))) [
        | inl e ↦ (dsc, sq, dsc, run, run', rw (run, factorize, run', e) refl, ground arith, f)
        | inr e ↦ (dsc, sq, sq, run, run', rw (run, factorize, run', e) refl, ground arith, g)
      ]

  one_factor : (n : ℕ) (fs : List ℕ) → IsFactorisation n fs → length fs ≡ 1 → fs ≡ n ∷ []
  one_factor n [] f e = absurd (omega (arith, e))
  one_factor n (x ∷ []) f e = ap (λ t. t ∷ []) (omega (arith, f.whole))
  one_factor n (x ∷ y ∷ fs) f e = absurd (omega (arith, e))

  single :
      (n : ℕ) (fs : List ℕ)
      → IsFactorisation n fs
      → factorize root log_base nth_root k_facts n ≡ some fs
      → is_base_case root log_base nth_root k_facts n ≡ some true
      → (factorize root log_base nth_root k_facts n ≡ some (n ∷ [])) × (is_base_n n k_facts ≡ true)
  unfolding is_base_case
  single n fs f run e =
      let both : (length fs == 1) && is_base_n n k_facts ≡ true =
        some-injective _ _ (sym (rw (run, is_base_case) refl) ∙ e) in
      (
        run ∙ ap some (one_factor n fs f ((==_iff _ _).0 (and_parts _ _ both).0)),
        (and_parts _ _ both).1,
      )

  -- For positive `n` and kernel lengths above one, `is_base_case` answers, and holds just of a
  -- kernel length whose factorisation is that length alone.
  pub is_base_case_iff :
      (n : ℕ)
      → 0 < n
      → (is_base_case root log_base nth_root k_facts n ≡ some true)
        ↔ (factorize root log_base nth_root k_facts n ≡ some (n ∷ []))
          × (is_base_n n k_facts ≡ true)
  unfolding is_base_case
  is_base_case_iff n pos =
      let (_, _, fs, _, _, run, _, f) = factorize-IsFactorisation n pos in
      ((λ e. single n fs f run e), λ (alone, kernel). rw (alone, is_base_case, kernel) refl)
