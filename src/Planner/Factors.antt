-- ===== src/Planner/Factors.antt =====
-- `factors` of src/planner/planner.cpp: the cache of smallest prime factors. `none` means that the
-- trial division ran out of fuel.
use native.Mathlib.Nat.{le_of_dvd}
use native.Mathlib.Decide.{dec_lt}
use mathlib.Core.Option
use mathlib.Core.Option.{none-ne-some, some-injective}
use perf_libs_fft.Base.{
  ℕ, ◌<◌, ◌≡◌, refl, sym, subst, ap, ◌∙◌, ◌↔◌, inl, inr, Bool, true, false, Option, none, some, ltb,
  ◌==◌, ==_iff, ltb→lt, if◌then◌else◌, Bool-cases, Option-cases, arith,
}
use perf_libs_fft.Base.Divides.{Prime}
use perf_libs_fft.Containers.HashMap.{Key, HashMap, find, insert, empty}
use perf_libs_fft.Containers.HashMap.Laws.{
  IsSized, find-insert, insert-IsSized, insert-value, find-empty, empty-IsSized,
}
use perf_libs_fft.Factorize.SmallestPrime.{
  smallest_prime_factor, IsLeast, smallest_prime_factor-IsLeast,
}

instance pub ℕ_key : Key ℕ
ℕ_key = record { equal = ◌==◌; equal_iff = ==_iff }

-- A number above one is prime exactly if it is its own least prime factor.
is_its_least : (n r : ℕ) → 1 < n → smallest_prime_factor n ≡ some r → (r ≡ n) ↔ Prime n
is_its_least n r big is =
    let (r', is', least, prime) = smallest_prime_factor-IsLeast n big in
    let same : r' ≡ r = some-injective r' r (sym is' ∙ is) in
    ((λ e. subst Prime (same ∙ e) prime), (λ p. sym same ∙ whole r' least p))
  where
    whole : (r' : ℕ) → IsLeast n r' → Prime n → r' ≡ n
    whole r' least p = elim (dec_lt r' n) [
      | yes small ↦ absurd (p.only r' least.above small least.divides)
      | no large ↦ omega (arith, le_of_dvd {m = r'} {n = n} (omega arith) least.divides)
    ]

-- `std::hash<int64_t>` is a parameter.
module _ (hasher : ℕ → ℕ) where
  pub cached_smallest_prime_factor : ℕ → HashMap ℕ ℕ → Option (ℕ × HashMap ℕ ℕ)
  cached_smallest_prime_factor n cache = elim (find hasher 64 n cache) [
    | some cached ↦ some (cached, cache)
    | none ↦
        Option.map (λ r. (let (cache', value) = insert hasher 64 n r cache in (value, cache')))
          (smallest_prime_factor n)
  ]

  pub is_prime : ℕ → HashMap ℕ ℕ → Option (Bool × HashMap ℕ ℕ)
  is_prime n cache =
      if ltb 1 n
      then Option.map (λ r. (r.0 == n, r.1)) (cached_smallest_prime_factor n cache)
      else some (false, cache)

  -- What the cache holds is right, in an array of the right size.
  pub record IsValid (cache : HashMap ℕ ℕ) : Type 0 where
    pub sized : IsSized 64 cache
    pub right : (j v : ℕ) → find hasher 64 j cache ≡ some v → smallest_prime_factor j ≡ some v

  pub empty-IsValid : IsValid (empty 64)
  empty-IsValid = record {
    sized = empty-IsSized ℕ ℕ 64;
    right = λ j v e. absurd (none-ne-some v (sym (find-empty hasher 64 j) ∙ e));
  }

  module _ (n : ℕ) (cache : HashMap ℕ ℕ) (valid : IsValid cache) where
    -- The value that is stored for `n`, where nothing was.
    inserted-IsValid :
        (r : ℕ)
        → find hasher 64 n cache ≡ none
        → smallest_prime_factor n ≡ some r
        → IsValid (insert hasher 64 n r cache).0
    unfolding ℕ_key insert
    inserted-IsValid r missing is = record {
      sized = insert-IsSized hasher 64 cache valid.sized (omega arith) n r;
      right = λ j v e. elim (Bool-cases (n == j)) [
        | inl same ↦
            subst (λ (i : ℕ). smallest_prime_factor i ≡ some v) ((==_iff n j).0 same)
              (is
                ∙ ap some (sym (insert-value hasher 64 cache valid.sized (omega arith) n r missing))
                ∙ sym (rw same refl)
                ∙ sym (find-insert hasher 64 cache valid.sized (omega arith) n j r)
                ∙ e)
        | inr other ↦ valid.right j v (
            sym (rw other refl)
            ∙ sym (find-insert hasher 64 cache valid.sized (omega arith) n j r)
            ∙ e)
      ];
    }

    -- For `n` above one, a valid cache answers as the trial division does, and stays valid.
    pub cached_smallest_prime_factor-IsValid :
        1 < n
        → (r : ℕ) × (cache' : HashMap ℕ ℕ) × (cached_smallest_prime_factor n cache
            ≡ some (r, cache'))
          × (smallest_prime_factor n ≡ some r)
          × IsValid cache'
    unfolding cached_smallest_prime_factor
    cached_smallest_prime_factor-IsValid big = elim (Option-cases (find hasher 64 n cache)) [
      | inr (v, e) ↦ (v, cache, rw (e, cached_smallest_prime_factor) refl, valid.right n v e, valid)
      | inl missing ↦
          let (r, is, _, _) = smallest_prime_factor-IsLeast n big in
          (
            r,
            (insert hasher 64 n r cache).0,
            rw
                (
                  missing,
                  cached_smallest_prime_factor,
                  is,
                  insert-value hasher 64 cache valid.sized (omega arith) n r missing,
                )
                refl,
            is,
            inserted-IsValid r missing is,
          )
    ]

    -- With a valid cache, `is_prime` answers whether `n` is a prime, and the cache stays valid.
    pub is_prime-IsValid :
        (b : Bool) × (cache' : HashMap ℕ ℕ) × (is_prime n cache ≡ some (b, cache'))
        × ((b ≡ true) ↔ Prime n)
        × IsValid cache'
    unfolding is_prime
    is_prime-IsValid = elim (Bool-cases (ltb 1 n)) [
      | inr small ↦ (
        false,
        cache,
        rw small refl,
        ((λ e. absurd (ground arith)), (λ prime. absurd (ground (arith, prime.above)))),
        valid,
      )
      | inl big ↦
          let big' = ltb→lt 1 n big in
          let (r, cache', run, is, valid') = cached_smallest_prime_factor-IsValid big' in
          (
            r == n,
            cache',
            rw (big, run) refl,
            let same = is_its_least n r big' is in
                ((λ e. same.0 ((==_iff r n).0 e)), (λ prime. (==_iff r n).1 (same.1 prime))),
            valid',
          )
    ]
