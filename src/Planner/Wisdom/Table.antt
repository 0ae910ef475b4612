-- ===== src/Planner/Wisdom/Table.antt =====
-- The whole of `wisdom`: the table of problems with the entries of each.
use perf_libs_fft.Base.{
  ◌≡◌, refl, sym, ap, ◌∙◌, ◌≢◌, inl, inr, true, List, [], Option, none, some, Bool-cases,
  Option-cases, if◌then◌else◌, arith, subst,
}
use perf_libs_fft.Containers.HashMap
use perf_libs_fft.Containers.HashMap.Laws.{
  IsSized, empty-IsSized, find-empty, insert-IsSized, find-insert, insert-value, write-IsSized,
  find-write,
}
use perf_libs_fft.Planner.Policy.{Policy}
use perf_libs_fft.Planner.Problem.{Problem, equal, equal_iff, problem_key}
use perf_libs_fft.Planner.Wisdom.Search.{
  Outcome, Distinct, best_entry-Outcome, store-Distinct, best_entry-store,
}
use perf_libs_fft.Planner.Wisdom.{
  Wisdom, Entry, StdHash, problem_hash, bucket_count, no_wisdom, store, lookup, entries_of, update,
}

equal_self : (p : Problem) → equal p p ≡ true
equal_self p = (equal_iff p p).1 refl

-- A problem that the table lacks has no entries.
pub or_nothing : Option (List Entry) → List Entry
or_nothing none = []
or_nothing (some es) = es

module _ (h : StdHash) where
  abbrev pub found : Problem → Wisdom → Option (List Entry)
  found p w = HashMap.find (problem_hash h) bucket_count p w

  -- The entries of a problem, none if the table lacks it.
  abbrev pub entries_at : Problem → Wisdom → List Entry
  entries_at p w = or_nothing (found p w)

  pub record IsValid (w : Wisdom) : Type 0 where
    pub sized : IsSized bucket_count w
    pub distinct : (p : Problem) → Distinct (entries_at p w)

  -- What `lookup` returns is an entry of the problem that the request allows, and no such entry
  -- allows more; it returns nothing only if no entry of the problem may be used.
  pub lookup-Outcome :
      (p : Problem) (requested : Policy) (w : Wisdom)
      → Outcome requested (entries_at p w) none (lookup h p requested w)
  unfolding lookup or_nothing
  lookup-Outcome p requested w = elim (Option-cases (found p w)) [
    | inl e ↦ rw (e, lookup, or_nothing) (refl, tt)
    | inr (es, e) ↦ rw (e, lookup, or_nothing) (best_entry-Outcome requested es none (λ b₀ i. cc))
  ]

  pub no_wisdom-IsValid : IsValid no_wisdom
  unfolding no_wisdom or_nothing
  no_wisdom-IsValid = record {
    sized = empty-IsSized Problem (List Entry) bucket_count;
    distinct = λ p.
        subst (λ o. Distinct (or_nothing o)) (sym (find-empty (problem_hash h) bucket_count p)) tt;
  }

  module _ (p : Problem) (entry : Entry) (w : Wisdom) (sized : IsSized bucket_count w) where
    abbrev inserted : Wisdom × List Entry
    inserted = HashMap.insert (problem_hash h) bucket_count p [] w

    inserted-IsSized : IsSized bucket_count inserted.0
    inserted-IsSized = insert-IsSized (problem_hash h) bucket_count w sized (omega arith) p []

    update-IsSized : IsSized bucket_count (update h p entry w)
    unfolding update
    update-IsSized = elim (Option-cases (found p w)) [
      | inl e ↦
          rw (e, entries_of)
            (write-IsSized (problem_hash h) bucket_count _ inserted-IsSized (omega arith) p _)
      | inr (es, e) ↦
          rw (e, entries_of) (write-IsSized (problem_hash h) bucket_count w sized (omega arith) p _)
    ]

    -- A new problem is inserted with no entries before the entry is stored.
    found-inserted :
        (q : Problem)
        → found p w ≡ none
        → found q inserted.0 ≡ (if equal p q then some [] else found q w)
    found-inserted q e =
        find-insert (problem_hash h) bucket_count w sized (omega arith) p q []
        ∙ ap (λ es. if equal p q then some es else found q w)
            (insert-value (problem_hash h) bucket_count w sized (omega arith) p [] e)

    -- `update` stores the entry among those of its problem, and leaves all others alone.
    pub found-update :
        (q : Problem)
        → found q (update h p entry w)
          ≡ (if equal p q then some (store entry (entries_at p w)) else found q w)
    unfolding update or_nothing
    found-update q = elim (Option-cases (found p w)) [
      | inl e ↦
          rw
            (
              e,
              entries_of,
              or_nothing,
              insert-value (problem_hash h) bucket_count w sized (omega arith) p [] e,
            )
            (find-write (problem_hash h) bucket_count inserted.0 inserted-IsSized (omega arith) p q
                _ [] (found-inserted p e ∙ (rw (equal_self p) refl))
              ∙ (elim (Bool-cases (equal p q)) [
                | inl same ↦ rw same refl
                | inr other ↦ rw other (found-inserted q e ∙ (rw other refl))
              ]))
      | inr (es, e) ↦
          rw (e, entries_of, or_nothing)
            (find-write (problem_hash h) bucket_count w sized (omega arith) p q _ es e)
    ]

  -- What `update` stored for a problem is what `lookup` finds under the same permissions.
  pub lookup-update :
      (p : Problem) (entry : Entry) (w : Wisdom)
      → IsValid w
      → lookup h p entry.policy (update h p entry w) ≡ some entry
  unfolding lookup
  lookup-update p entry w v =
      rw (found-update p entry w v.sized p, equal_self p, lookup)
        (best_entry-store entry (entries_at p w) none (v.distinct p) (λ b i. cc))

  -- `update` does not change what is found for any other problem.
  pub lookup-update_ne :
      (p q : Problem) (entry : Entry) (requested : Policy) (w : Wisdom)
      → IsValid w
      → p ≢ q
      → lookup h q requested (update h p entry w) ≡ lookup h q requested w
  unfolding lookup
  lookup-update_ne p q entry requested w v apart = elim (Bool-cases (equal p q)) [
    | inl same ↦ absurd (apart ((equal_iff p q).0 same))
    | inr other ↦ rw (found-update p entry w v.sized q, other, lookup) refl
  ]

  -- `update` keeps the table whole and the policies of each problem's entries distinct.
  pub update-IsValid :
      (p : Problem) (entry : Entry) (w : Wisdom) → IsValid w → IsValid (update h p entry w)
  unfolding or_nothing
  update-IsValid p entry w v = record {
    sized = update-IsSized p entry w v.sized;
    distinct = λ q.
        subst (λ o. Distinct (or_nothing o)) (sym (found-update p entry w v.sized q))
          (elim (Bool-cases (equal p q)) [
            | inl same ↦ rw same (store-Distinct entry (entries_at p w) (v.distinct p))
            | inr other ↦ rw other (v.distinct q)
          ]);
  }
