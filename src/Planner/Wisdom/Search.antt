-- ===== src/Planner/Wisdom/Search.antt =====
-- The search among the entries of one problem: what `lookup` picks, and what `update` stores.
use perf_libs_fft.Base.{
  ◌≡◌, refl, sym, ◌≢◌, ◌↔◌, ◌⊎◌, inl, inr, true, false, List, [], ◌∷◌, Option, none, some,
  Bool-cases, arith, subst,
}
use mathlib.Core.Option.{some-injective}
use perf_libs_fft.Planner.Policy.{Policy, equal}
use perf_libs_fft.Planner.Policy.Order.{
  Includes, is_subset_of_iff, equal_iff, Includes-refl, Includes-trans, Includes-antisymm,
}
use perf_libs_fft.Planner.Wisdom.{Entry, dominates, better, best_entry, store}

abbrev pub All : (Entry → Type 0) → List Entry → Type 0
All P [] = Unit {0}
All P (e ∷ es) = P e × All P es

abbrev pub In : Entry → List Entry → Type 0
In e [] = ⊥
In e (x ∷ xs) = (x ≡ e) ⊎ In e xs

dominates_iff : (a b : Policy) → (dominates a b ≡ true) ↔ Includes a b
unfolding dominates
dominates_iff a b = is_subset_of_iff b a

-- An entry may be used for a request if the request allows all that the entry was made with.
abbrev pub IsUsable : Policy → Entry → Type 0
IsUsable requested e = Includes requested e.policy

-- The entry `b` is usable, and no usable entry of the list allows more than it without being equal.
abbrev pub IsTop : Policy → Entry → Entry → Type 0
IsTop requested b e = IsUsable requested e → Includes e.policy b.policy → e.policy ≡ b.policy

-- What the rest of the loop makes of the best entry so far.
abbrev pub Outcome : Policy → List Entry → Option Entry → Option Entry → Type 0
Outcome requested es best none = (best ≡ none) × All (λ e. ¬ IsUsable requested e) es
Outcome requested es best (some b) =
    IsUsable requested b
    × ((b₀ : Entry) → best ≡ some b₀ → Includes b.policy b₀.policy)
    × All (IsTop requested b) es
    × ((best ≡ some b) ⊎ In b es)

module _ (requested : Policy) (c : Entry) (es : List Entry) where
  -- The candidate is not usable.
  skip_candidate :
      (best r : Option Entry)
      → ¬ IsUsable requested c
      → Outcome requested es best r
      → Outcome requested (c ∷ es) best r
  skip_candidate best none bad (e, rest) = (e, (bad, rest))
  skip_candidate best (some b) bad (u, above, top, w) =
      (u, above, ((λ v. absurd (bad v)), top), elim w [ inl e ↦ inl e | inr i ↦ inr (inr i) ])

  -- The candidate becomes the best entry.
  take_candidate :
      (best r : Option Entry)
      → ((b₀ : Entry) → best ≡ some b₀ → Includes c.policy b₀.policy)
      → Outcome requested es (some c) r
      → Outcome requested (c ∷ es) best r
  take_candidate best none link (e, rest) = absurd (cc)
  take_candidate best (some b) link (u, above, top, w) = (
    u,
    λ b₀ e. Includes-trans b.policy c.policy b₀.policy (above c refl) (link b₀ e),
    ((λ _ i. Includes-antisymm c.policy b.policy i (above c refl)), top),
    elim w [ inl e ↦ inr (inl (ground (arith, e))) | inr i ↦ inr (inr i) ],
  )

  -- The candidate does not include the best entry.
  keep_best :
      (b₀ : Entry) (r : Option Entry)
      → ¬ Includes c.policy b₀.policy
      → Outcome requested es (some b₀) r
      → Outcome requested (c ∷ es) (some b₀) r
  keep_best b₀ none apart (e, rest) = absurd (cc)
  keep_best b₀ (some b) apart (u, above, top, w) = (
    u,
    above,
    ((λ _ i. absurd (apart (Includes-trans c.policy b.policy b₀.policy i (above b₀ refl)))), top),
    elim w [ inl e ↦ inl e | inr i ↦ inr (inr i) ],
  )

false_of : (a b : Policy) → dominates a b ≡ false → ¬ Includes a b
false_of a b h i = cc ((dominates_iff a b).1 i)

-- What holds of the one entry holds of an equal one.
of_some : (P : Entry → Type 0) (b c : Entry) → some b ≡ some c → P b → P c
of_some P b c e = subst P (some-injective b c e)

pub best_entry-Outcome :
    (requested : Policy) (es : List Entry) (best : Option Entry)
    → ((b₀ : Entry) → best ≡ some b₀ → IsUsable requested b₀)
    → Outcome requested es best (best_entry requested es best)
unfolding best_entry better
best_entry-Outcome requested [] none usable = (refl, tt)
best_entry-Outcome requested [] (some b) usable = (
  usable b refl,
  λ b₀ e. of_some (λ x. Includes b.policy x.policy) b b₀ e (Includes-refl b.policy),
  tt,
  inl refl,
)
best_entry-Outcome requested (c ∷ es) none usable =
    elim (Bool-cases (dominates requested c.policy)) [
      | inl u ↦ rw u (
          take_candidate requested c es none _ (λ b₀ e. cc)
            (best_entry-Outcome requested es (some c)
              (λ b₀ e. of_some (IsUsable requested) c b₀ e ((dominates_iff _ _).0 u))))
      | inr u ↦ rw u (
          skip_candidate requested c es none _ (false_of _ _ u)
            (best_entry-Outcome requested es none usable))
    ]
best_entry-Outcome requested (c ∷ es) (some b) usable =
    elim (Bool-cases (dominates requested c.policy)) [
      | inl u ↦ elim (Bool-cases (dominates c.policy b.policy)) [
        | inl d ↦
            rw (u, d)
              (take_candidate requested c es (some b) _
                (λ b₀ e. of_some (λ x. Includes c.policy x.policy) b b₀ e ((dominates_iff _ _).0 d))
                (best_entry-Outcome requested es (some c)
                  (λ b₀ e. of_some (IsUsable requested) c b₀ e ((dominates_iff _ _).0 u))))
        | inr d ↦
            rw (u, d)
              (keep_best requested c es b _ (false_of _ _ d)
                (best_entry-Outcome requested es (some b) usable))
      ]
      | inr u ↦ rw u (
          skip_candidate requested c es (some b) _ (false_of _ _ u)
            (best_entry-Outcome requested es (some b) usable))
    ]

-- No entry of the list has this policy.
abbrev pub Absent : Policy → List Entry → Type 0
Absent p es = All (λ e. e.policy ≢ p) es

-- No two entries have the same policy.
abbrev pub Distinct : List Entry → Type 0
Distinct [] = Unit {0}
Distinct (e ∷ es) = Absent e.policy es × Distinct es

store-Absent :
    (p : Policy) (e : Entry) (es : List Entry) → p ≢ e.policy → Absent p es → Absent p (store e es)
unfolding store
store-Absent p e [] apart a = ((λ i. apart (sym i)), tt)
store-Absent p e (x ∷ es) apart a = elim (Bool-cases (equal x.policy e.policy)) [
  | inl same ↦ rw same ((λ i. apart (sym i)), a.1)
  | inr other ↦ rw other (a.0, store-Absent p e es apart a.1)
]

-- `update` never stores two entries of the same policy.
pub store-Distinct : (e : Entry) (es : List Entry) → Distinct es → Distinct (store e es)
unfolding store
store-Distinct e [] d = (tt, tt)
store-Distinct e (x ∷ es) d = elim (Bool-cases (equal x.policy e.policy)) [
  | inl same ↦ rw same (subst (λ p. Absent p es) ((equal_iff _ _).0 same) d.0, d.1)
  | inr other ↦ rw other (
    store-Absent x.policy e es (λ i. cc (other, (equal_iff x.policy e.policy).1 i)) d.0,
    store-Distinct e es d.1,
  )
]

-- Once the entry with the requested policy itself is the best, it stays so.
settled :
    (e : Entry) (es : List Entry) → Absent e.policy es → best_entry e.policy es (some e) ≡ some e
unfolding best_entry better
settled e [] a = refl
settled e (c ∷ es) a = elim (Bool-cases (dominates e.policy c.policy)) [
  | inl u ↦ elim (Bool-cases (dominates c.policy e.policy)) [
    | inl d ↦ absurd (
        a.0
          (Includes-antisymm c.policy e.policy ((dominates_iff _ _).0 d) ((dominates_iff _ _).0 u)))
    | inr d ↦ rw (u, d) (settled e es a.1)
  ]
  | inr u ↦ rw u (settled e es a.1)
]

-- An entry with the requested policy itself becomes the best.
arrives :
    (e : Entry) (best : Option Entry)
    → ((b : Entry) → best ≡ some b → IsUsable e.policy b)
    → better e.policy e best ≡ some e
unfolding better
arrives e none usable = rw ((dominates_iff e.policy e.policy).1 (Includes-refl e.policy)) refl
arrives e (some b) usable =
    rw
      (
        (dominates_iff e.policy e.policy).1 (Includes-refl e.policy),
        (dominates_iff e.policy b.policy).1 (usable b refl),
      )
      refl

-- The best entry is usable, after a round as before it.
better-IsUsable :
    (r : Policy) (c : Entry) (best : Option Entry)
    → ((b : Entry) → best ≡ some b → IsUsable r b)
    → (b : Entry) → better r c best ≡ some b
    → IsUsable r b
unfolding better
better-IsUsable r c best usable b h = ground (arith, usable b, dominates_iff r c.policy, usable b)

-- The stored entry is found under its own policy, whatever usable entry was best before it.
pub best_entry-store :
    (e : Entry) (es : List Entry) (best : Option Entry)
    → Distinct es
    → ((b : Entry) → best ≡ some b → IsUsable e.policy b)
    → best_entry e.policy (store e es) best ≡ some e
unfolding best_entry store
best_entry-store e [] best d usable = arrives e best usable
best_entry-store e (x ∷ es) best d usable = elim (Bool-cases (equal x.policy e.policy)) [
  | inl same ↦
      rw (same, best_entry, arrives e best usable)
        (settled e es (subst (λ p. Absent p es) ((equal_iff _ _).0 same) d.0))
  | inr other ↦
      rw other (
        best_entry-store e es (better e.policy x best) d.1 (better-IsUsable e.policy x best usable))
]
