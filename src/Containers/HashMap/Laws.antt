-- ===== src/Containers/HashMap/Laws.antt =====
-- The hash map behaves as a function from keys to optional values, whatever the hash is.
use perf_libs_fft.Base.{
  ℕ, zero, suc, ◌<◌, ◌≡◌, refl, ap, ◌∙◌, inl, inr, List, [], ◌∷◌, ◌++◌, none, some, ◌==◌, ==_iff,
  length, get_or, set, replicate, length-set, length-replicate, if◌then◌else◌, Bool-cases,
  Option-cases, arith,
}
use perf_libs_fft.Containers.HashMap.{
  Key, HashMap, find_chain, write_chain, empty, home, chain_of, find, insert, write,
}

module _ {ℓ} {A : Type ℓ} where
  pub get_or-set :
      (xs : List A) (i j : ℕ) (v d : A)
      → i < length xs
      → get_or (set xs i v) j d ≡ (if i == j then v else get_or xs j d)
  get_or-set [] i j v d h = absurd (omega arith)
  get_or-set (x ∷ xs) zero zero v d h = refl
  get_or-set (x ∷ xs) zero (suc j) v d h = ground arith
  get_or-set (x ∷ xs) (suc i) zero v d h = ground arith
  get_or-set (x ∷ xs) (suc i) (suc j) v d h = get_or-set xs i j v d (omega arith) ∙ (ground arith)

  pub get_or-replicate : (n i : ℕ) (d : A) → get_or (replicate n d) i d ≡ d
  get_or-replicate zero i d = refl
  get_or-replicate (suc n) zero d = refl
  get_or-replicate (suc n) (suc i) d = get_or-replicate n i d

module _ {ℓ} {K V : Type ℓ} ⦃key : Key K⦄ where
  find_chain-nil : (k : K) → find_chain {V = V} k [] ≡ none
  unfolding find_chain
  find_chain-nil k = refl

  find_chain-append :
      (j k : K) (v : V) (chain : List (K × V))
      → find_chain k chain ≡ none
      → find_chain j (chain ++ (k, v) ∷ []) ≡ (if key.equal k j then some v else find_chain j chain)
  unfolding find_chain
  find_chain-append j k v [] h = refl
  find_chain-append j k v ((i, w) ∷ chain) h = ground (
    arith,
    find_chain-append j k v chain,
    key.equal_iff i k,
    key.equal_iff i j,
    key.equal_iff k j,
  )

  find_chain-write :
      (j k : K) (v w : V) (chain : List (K × V))
      → find_chain k chain ≡ some w
      → find_chain j (write_chain k v chain)
        ≡ (if key.equal k j then some v else find_chain j chain)
  unfolding find_chain write_chain
  find_chain-write j k v w [] h = cc
  find_chain-write j k v w ((i, u) ∷ chain) h = ground (
    arith,
    find_chain-write j k v w chain,
    key.equal_iff i k,
    key.equal_iff i j,
    key.equal_iff k j,
  )

-- Every bucket is there.
abbrev pub IsSized {ℓ} : {K V : Type ℓ} → ℕ → HashMap K V → Type 0
IsSized count m = length m.buckets ≡ count

pub empty-IsSized {ℓ} : (K V : Type ℓ) (count : ℕ) → IsSized count (empty {K = K} {V = V} count)
unfolding empty
empty-IsSized K V count = length-replicate count []

module _ {ℓ} {K V : Type ℓ} ⦃key : Key K⦄ (hasher : K → ℕ) (count : ℕ) where
  pub find-empty : (k : K) → find hasher count k (empty {K = K} {V = V} count) ≡ none
  unfolding find empty
  find-empty k = ap (find_chain k) (get_or-replicate count _ []) ∙ find_chain-nil k

  module _ (m : HashMap K V) (sized : IsSized count m) (pos : 0 < count) (k : K) where
    home-lt : home hasher count k < length m.buckets
    home-lt = omega arith

    -- A bucket that was replaced is read by the keys that it is home to.
    in_home :
        (j : K) (v : V) (c : List (K × V))
        → find_chain j c
          ≡ (if key.equal k j then some v else find_chain j (chain_of hasher count k m))
        → find_chain j
            (if home hasher count k == home hasher count j then c else chain_of hasher count j m)
          ≡ (if key.equal k j then some v else find_chain j (chain_of hasher count j m))
    in_home j v c h = elim (Bool-cases (home hasher count k == home hasher count j)) [
      | inl p ↦ rw (p, h, (==_iff _ _).0 p) refl
      | inr p ↦ elim (Bool-cases (key.equal k j)) [
        | inl same ↦ absurd (ground (arith, p, ap (home hasher count) ((key.equal_iff k j).0 same)))
        | inr other ↦ rw (p, other) refl
      ]
    ]

    pub insert-IsSized : (v : V) → IsSized count (insert hasher count k v m).0
    unfolding insert
    insert-IsSized v = elim (Option-cases (find_chain k (chain_of hasher count k m))) [
      | inl e ↦ rw (e, insert) (length-set m.buckets _ _ ∙ sized)
      | inr (w, e) ↦ rw (e, insert) sized
    ]

    -- `insert` keeps a value that is there and adds one that is not; the pointer that it returns
    -- is that of the value; no other key changes.
    pub find-insert :
        (j : K) (v : V)
        → find hasher count j (insert hasher count k v m).0
          ≡ (if key.equal k j then some (insert hasher count k v m).1 else find hasher count j m)
    unfolding find insert
    find-insert j v = elim (Option-cases (find_chain k (chain_of hasher count k m))) [
      | inl e ↦
          rw (e, insert, get_or-set m.buckets _ (home hasher count j) _ [] home-lt)
            (in_home j v _ (find_chain-append j k v _ e))
      | inr (w, e) ↦
          rw (e, insert)
            (elim (Bool-cases (key.equal k j)) [
              | inl same ↦ rw (same, ← (key.equal_iff k j).0 same) e
              | inr other ↦ rw other refl
            ])
    ]

    -- A key that is missing gets the value given.
    pub insert-value : (v : V) → find hasher count k m ≡ none → (insert hasher count k v m).1 ≡ v
    unfolding find insert
    insert-value v h = rw (h, insert) refl

    pub write-IsSized : (v : V) → IsSized count (write hasher count k v m)
    unfolding write
    write-IsSized v = length-set m.buckets _ _ ∙ sized

    -- An assignment through a pointer changes the value under its key alone.
    pub find-write :
        (j : K) (v w : V)
        → find hasher count k m ≡ some w
        → find hasher count j (write hasher count k v m)
          ≡ (if key.equal k j then some v else find hasher count j m)
    unfolding find write
    find-write j v w h =
        rw (get_or-set m.buckets _ (home hasher count j) _ [] home-lt)
          (in_home j v _ (find_chain-write j k v w _ h))
