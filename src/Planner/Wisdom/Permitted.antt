-- ===== src/Planner/Wisdom/Permitted.antt =====
-- What `wisdom::lookup` of src/planner/wisdom.cpp returns is permitted: its policy is part of the one
-- that is asked for.
use mathlib.Core.Option.{none-ne-some}
use perf_libs_fft.Base.{◌≡◌, subst, List, Option, none, some}
use perf_libs_fft.Containers.HashMap
use perf_libs_fft.Planner.Policy.{Policy}
use perf_libs_fft.Planner.Policy.Order.{Includes}
use perf_libs_fft.Planner.Problem.{Problem, problem_key}
use perf_libs_fft.Planner.Wisdom.{
  Entry, StdHash, Wisdom, lookup, best_entry, problem_hash, bucket_count,
}
use perf_libs_fft.Planner.Wisdom.Search.{Outcome, best_entry-Outcome}

pub lookup-Includes :
    (h : StdHash) (p : Problem) (requested : Policy) (table : Wisdom) (entry : Entry)
    → lookup h p requested table ≡ some entry
    → Includes requested entry.policy
unfolding lookup
lookup-Includes h p requested table entry e =
    from (HashMap.find (problem_hash h) bucket_count p table) e
  where
    from :
        (found : Option (List Entry))
        → (let result : Option Entry = elim found [
          | none ↦ none
          | some entries ↦ best_entry requested entries none
        ] in
            result)
          ≡ some entry
        → Includes requested entry.policy
    from none e = absurd (none-ne-some entry e)
    from (some entries) e =
        (subst (Outcome requested entries none) e
          (best_entry-Outcome requested entries none (λ b₀ same. absurd (none-ne-some b₀ same)))).0
