-- ===== src/Rader/Powers.antt =====
-- The inner loop of `find_group_generator` finds out whether the powers of a candidate are distinct:
-- src/rader_generator.cpp.
use native.Mathlib.Nat.{mod-lt}
use perf_libs_fft.Base.{
  ℕ, zero, suc, ◌-◌, ◌*◌, ◌%◌, ◌<◌, ◌≡◌, ◌≢◌, ◌↔◌, inl, inr, refl, sym, ◌∙◌, Bool, true, false,
  List, get_or, set, replicate, ◌==◌, ==_iff, length, length-set, length-replicate, Bool-cases,
  arith,
}
use perf_libs_fft.Containers.HashMap.Laws.{get_or-set, get_or-replicate}
use perf_libs_fft.Rader.{all_new, is_generator}

-- The remainder after `i` more multiplications.
abbrev pub power : ℕ → ℕ → ℕ → ℕ → ℕ
power n cand x zero = x
power n cand x (suc i) = power n cand (x * cand % n) i

-- No two of the first `rounds` remainders from `x` on are equal.
abbrev pub AllDistinct : ℕ → ℕ → ℕ → ℕ → Type 0
AllDistinct rounds n cand x = (i j : ℕ) → i < j → j < rounds → power n cand x i ≢ power n cand x j

-- None of them was seen.
abbrev AllUnseen : ℕ → ℕ → ℕ → ℕ → List Bool → Type 0
AllUnseen rounds n cand x seen = (i : ℕ) → i < rounds → get_or seen (power n cand x i) false ≡ false

-- What a mark on `x` leaves unmarked.
unmarked :
    (seen : List Bool) (x y : ℕ)
    → x < length seen
    → (get_or (set seen x true) y false ≡ false) ↔ ((x ≢ y) × (get_or seen y false ≡ false))
unmarked seen x y below =
    let read = get_or-set seen x y true false below in
    elim (Bool-cases (x == y)) [
      | inl same ↦ (
        (λ e. absurd (true_false (sym (read ∙ (rw same refl)) ∙ e))),
        (λ (apart, _). absurd (apart ((==_iff x y).0 same))),
      )
      | inr other ↦ (
        (λ e. (
          (λ p. absurd (true_false (sym ((==_iff x y).1 p) ∙ other))),
          sym (read ∙ (rw other refl)) ∙ e,
        )),
        (λ (_, e). read ∙ (rw other e)),
      )
    ]
  where
    true_false : true ≢ false
    true_false = ground arith

all_new_sound :
    (rounds n cand x : ℕ) (seen : List Bool)
    → 0 < n
    → x < n
    → length seen ≡ n
    → all_new rounds n cand x seen ≡ true
    → AllUnseen rounds n cand x seen × AllDistinct rounds n cand x
unfolding all_new
all_new_sound zero n cand x seen pos below size h =
    ((λ i l. absurd (omega (arith, l))), (λ i j l m. absurd (omega (arith, m))))
all_new_sound (suc rounds) n cand x seen pos below size h =
    elim (Bool-cases (get_or seen x false)) [
      | inl old ↦ absurd (ground arith)
      | inr new ↦
          let (unseen, distinct) =
            all_new_sound rounds n cand (x * cand % n) (set seen x true) pos (mod-lt (x * cand) pos)
              (length-set seen x true ∙ size) (rw new at h) in
          let later = λ (i : ℕ) (l : i < rounds).
            (unmarked seen x (power n cand (x * cand % n) i) (omega (arith, below, size))).0
              (unseen i l) in
          (unseen_from new later, distinct_from later distinct)
    ]
  where
    unseen_from :
        get_or seen x false ≡ false
        → ((i : ℕ)
            → i < rounds
            → (x ≢ power n cand (x * cand % n) i)
              × (get_or seen (power n cand (x * cand % n) i) false ≡ false))
        → AllUnseen (suc rounds) n cand x seen
    unseen_from new later zero l = new
    unseen_from new later (suc i) l = (later i (omega (arith, l))).1

    distinct_from :
        ((i : ℕ)
          → i < rounds
          → (x ≢ power n cand (x * cand % n) i)
            × (get_or seen (power n cand (x * cand % n) i) false ≡ false))
        → AllDistinct rounds n cand (x * cand % n)
        → AllDistinct (suc rounds) n cand x
    distinct_from later distinct i zero l m e = absurd (omega (arith, l))
    distinct_from later distinct zero (suc j) l m e = (later j (omega (arith, m))).0 e
    distinct_from later distinct (suc i) (suc j) l m e =
        distinct i j (omega (arith, l)) (omega (arith, m)) e

all_new_complete :
    (rounds n cand x : ℕ) (seen : List Bool)
    → 0 < n
    → x < n
    → length seen ≡ n
    → AllUnseen rounds n cand x seen
    → AllDistinct rounds n cand x
    → all_new rounds n cand x seen ≡ true
unfolding all_new
all_new_complete zero n cand x seen pos below size unseen distinct = refl
all_new_complete (suc rounds) n cand x seen pos below size unseen distinct =
    rw (unseen 0 (omega arith)) (
      all_new_complete rounds n cand (x * cand % n) (set seen x true) pos (mod-lt (x * cand) pos)
        (length-set seen x true ∙ size)
        (λ i l.
          (unmarked seen x (power n cand (x * cand % n) i) (omega (arith, below, size))).1 (
            distinct 0 (suc i) (omega arith) (omega (arith, l)),
            unseen (suc i) (omega (arith, l)),
          ))
        (λ i j l m. distinct (suc i) (suc j) (omega (arith, l)) (omega (arith, m))))

-- For `n` above one, a candidate passes exactly if its first `n - 1` powers modulo `n` are distinct.
pub is_generator_iff :
    (n cand : ℕ) → 1 < n → (is_generator n cand ≡ true) ↔ AllDistinct (n - 1) n cand 1
unfolding is_generator
is_generator_iff n cand big = (
  (λ h.
      (all_new_sound (n - 1) n cand 1 (replicate n false) (omega arith) big
        (length-replicate n false) h).1),
  (λ d.
      all_new_complete (n - 1) n cand 1 (replicate n false) (omega arith) big
        (length-replicate n false) (λ i l. get_or-replicate n _ false) d),
)
