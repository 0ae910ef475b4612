-- ===== src/Planner/Wisdom.antt =====
-- What the planner remembers: src/planner/wisdom.hpp and src/planner/wisdom.cpp.
pub mod Search
pub mod Permitted
pub mod Table
use perf_libs_fft.Base.{
  ℕ, ◌+◌, ◌*◌, ◌%◌, ◌^◌, Bool, not, List, [], ◌∷◌, Option, none, some, if◌then◌else◌,
}
use perf_libs_fft.Base.Int.{ℤ}
use perf_libs_fft.Containers.HashMap
use perf_libs_fft.Containers.HashMap.{HashMap}
use perf_libs_fft.Planner.Policy.{Policy, is_subset_of, equal}
use perf_libs_fft.Planner.Problem.{Problem, TransformKind, RuntimePrecision, Direction, problem_key}

pub record Entry : Type 0 where
  pub strategy_idx : ℕ
  pub policy : Policy

-- `a` dominates `b` if the set of `b` is a subset of that of `a`.
pub dominates : Policy → Policy → Bool
dominates a b = is_subset_of b a

-- One round of the loop of `wisdom::lookup`: the usable entry that dominates the best one so far.
pub better : Policy → Entry → Option Entry → Option Entry
better requested candidate best =
    if not (dominates requested candidate.policy) then best else elim best [
      | none ↦ some candidate
      | some b ↦ if dominates candidate.policy b.policy then some candidate else some b
    ]

pub best_entry : Policy → List Entry → Option Entry → Option Entry
best_entry requested [] best = best
best_entry requested (candidate ∷ entries) best =
    best_entry requested entries (better requested candidate best)

-- The loop of `wisdom::update` over the entries, with the `push_back` after it.
pub store : Entry → List Entry → List Entry
store entry [] = entry ∷ []
store entry (existing ∷ entries) =
    if equal existing.policy entry.policy then entry ∷ entries else existing ∷ store entry entries

-- `std::hash` of the field types, which the language's library provides.
pub record StdHash : Type 0 where
  pub of_kind : TransformKind → ℕ
  pub of_precision : RuntimePrecision → ℕ
  pub of_int : ℤ → ℕ
  pub of_direction : Direction → ℕ

-- `hash_combine`, in a `size_t` of 64 bits; the first argument is the value's own hash
unfoldable pub hash_combine : ℕ → ℕ → ℕ
hash_combine hashed seed = (hashed + 31 * seed) % 2 ^ 64

unfoldable pub problem_hash : StdHash → Problem → ℕ
unfolding hash_combine
problem_hash h p =
    let s1 = hash_combine (h.of_kind p.kind) 0 in
    let s2 = hash_combine (h.of_precision p.precision) s1 in
    let s3 = hash_combine (h.of_int p.n) s2 in
    let s4 = hash_combine (h.of_int p.istride) s3 in
    let s5 = hash_combine (h.of_int p.ostride) s4 in
    let s6 = hash_combine (h.of_int p.howmany) s5 in
    let s7 = hash_combine (h.of_int p.idist) s6 in
    let s8 = hash_combine (h.of_int p.odist) s7 in hash_combine (h.of_direction p.dir) s8

abbrev pub Wisdom : Type 0
Wisdom = HashMap Problem (List Entry)

-- `static_hash_map<problem, entries, 64, problem_hash>`
abbrev pub bucket_count : ℕ
bucket_count = 64

unfoldable pub no_wisdom : Wisdom
no_wisdom = HashMap.empty bucket_count

module _ (h : StdHash) where
  unfoldable pub lookup : Problem → Policy → Wisdom → Option Entry
  lookup p requested_policy table = elim (HashMap.find (problem_hash h) bucket_count p table) [
    | none ↦ none
    | some entries ↦ best_entry requested_policy entries none
  ]

  -- The entries that `update` works on: those of the table, or a new empty vector in it.
  pub entries_of : Problem → Wisdom → Wisdom × List Entry
  entries_of p table = elim (HashMap.find (problem_hash h) bucket_count p table) [
    | some entries ↦ (table, entries)
    | none ↦ HashMap.insert (problem_hash h) bucket_count p [] table
  ]

  pub update : Problem → Entry → Wisdom → Wisdom
  unfolding entries_of
  update p entry table =
      let (t, entries) = entries_of p table in
      HashMap.write (problem_hash h) bucket_count p (store entry entries) t
