-- ===== src/Planner/Examples/Tables.antt =====
-- The tables of the planner on concrete data: wisdom, policies, problems and the cache of factors.
use perf_libs_fft.Base.{ℕ, ◌≡◌, ◌≢◌, ◌↔◌, ap, Bool, true, none, some, arith}
use perf_libs_fft.Base.Divides.{Prime}
use perf_libs_fft.Base.Int.{pos}
use perf_libs_fft.Containers.HashMap.{HashMap, empty}
use perf_libs_fft.Factorize.SmallestPrime.{smallest_prime_factor}
use perf_libs_fft.Planner.Factors.{
  cached_smallest_prime_factor, is_prime, IsValid, empty-IsValid,
  cached_smallest_prime_factor-IsValid, is_prime-IsValid,
}
use perf_libs_fft.Planner.Wisdom.{Entry, lookup, update, no_wisdom}
use perf_libs_fft.Planner.Wisdom.Search.{Outcome}
use perf_libs_fft.Planner.Wisdom.Table as Table
use perf_libs_fft.Planner.Wisdom.Table.{
  lookup-Outcome, lookup-update, lookup-update_ne, update-IsValid, no_wisdom-IsValid,
}
use perf_libs_fft.Planner.Examples.{std_hash, of_length, measuring, pruning, known}

abbrev first_entry : Entry
first_entry = record { strategy_idx = 4; policy = measuring }

lookup-Outcome_example :
    Outcome pruning
      (Table.entries_at std_hash (of_length 8) known.wisdom)
      none
      (lookup std_hash (of_length 8) pruning known.wisdom)
lookup-Outcome_example = lookup-Outcome std_hash (of_length 8) pruning known.wisdom

lookup-update_example :
    lookup std_hash (of_length 9) measuring (update std_hash (of_length 9) first_entry no_wisdom)
    ≡ some first_entry
lookup-update_example =
    lookup-update std_hash (of_length 9) first_entry no_wisdom (no_wisdom-IsValid std_hash)

eight_nine : of_length 8 ≢ of_length 9
eight_nine e = absurd (omega (arith, ap (λ p. elim p.n [ pos n ↦ n | _ ↦ 0 ]) e))

lookup-update_ne_example :
    lookup std_hash (of_length 9) pruning (update std_hash (of_length 8) first_entry no_wisdom)
    ≡ lookup std_hash (of_length 9) pruning no_wisdom
lookup-update_ne_example =
    lookup-update_ne std_hash (of_length 8) (of_length 9) first_entry pruning no_wisdom
      (no_wisdom-IsValid std_hash) eight_nine

update-IsValid_example :
    Table.IsValid std_hash (update std_hash (of_length 8) first_entry no_wisdom)
update-IsValid_example =
    update-IsValid std_hash (of_length 8) first_entry no_wisdom (no_wisdom-IsValid std_hash)

abbrev no_cache : HashMap ℕ ℕ
no_cache = empty 64

cached_smallest_prime_factor-IsValid_example :
    (r : ℕ) × (cache : HashMap ℕ ℕ) × (cached_smallest_prime_factor (λ n. n) 35 no_cache
      ≡ some (r, cache))
    × (smallest_prime_factor 35 ≡ some r)
    × IsValid (λ n. n) cache
cached_smallest_prime_factor-IsValid_example =
    cached_smallest_prime_factor-IsValid (λ n. n) 35 no_cache (empty-IsValid (λ n. n)) (omega arith)

is_prime-IsValid_example :
    (b : Bool) × (cache : HashMap ℕ ℕ) × (is_prime (λ n. n) 37 no_cache ≡ some (b, cache))
    × ((b ≡ true) ↔ Prime 37)
    × IsValid (λ n. n) cache
is_prime-IsValid_example = is_prime-IsValid (λ n. n) 37 no_cache (empty-IsValid (λ n. n))
