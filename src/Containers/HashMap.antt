-- ===== src/Containers/HashMap.antt =====
-- `static_hash_map` of src/plfft_static_hash_map.hpp: a fixed array of chained buckets. A pointer
-- to a stored value is the key that it stands under: `write` is an assignment through it.
pub mod Laws
use perf_libs_fft.Base.{
  ℕ, ◌%◌, ◌≡◌, ◌↔◌, Bool, true, List, [], ◌∷◌, ◌++◌, Option, none, some, get_or, set, replicate,
  if◌then◌else◌,
}

-- `operator==` of the keys, which decides equality.
pub record Key {ℓ} (K : Type ℓ) : Type ℓ where
  pub equal : K → K → Bool
  pub equal_iff : (a b : K) → (equal a b ≡ true) ↔ (a ≡ b)

pub record HashMap {ℓ} (K V : Type ℓ) : Type ℓ where
  pub buckets : List (List (K × V))

module _ {ℓ} {K V : Type ℓ} ⦃key : Key K⦄ where
  -- The loop over one bucket, shared by `find` and `insert`.
  unfoldable pub find_chain : K → List (K × V) → Option V
  find_chain k [] = none
  find_chain k ((j, v) ∷ chain) = if key.equal j k then some v else find_chain k chain

  pub write_chain : K → V → List (K × V) → List (K × V)
  write_chain k v [] = []
  write_chain k v ((j, w) ∷ chain) =
      if key.equal j k then (j, v) ∷ chain else (j, w) ∷ write_chain k v chain

-- The constructor fills every bucket with an empty vector.
unfoldable pub empty {ℓ} : {K V : Type ℓ} → ℕ → HashMap K V
empty count = record { buckets = replicate count [] }

-- The index of a key's bucket.
abbrev pub home {ℓ} : {K : Type ℓ} → (K → ℕ) → ℕ → K → ℕ
home hasher count k = hasher k % count

module _ {ℓ} {K V : Type ℓ} ⦃key : Key K⦄ (hasher : K → ℕ) (count : ℕ) where
  abbrev pub chain_of : K → HashMap K V → List (K × V)
  chain_of k m = get_or m.buckets (home hasher count k) []

  unfoldable pub find : K → HashMap K V → Option V
  find k m = find_chain k (chain_of k m)

  -- The new map, and the value that the returned pointer points to.
  unfoldable pub insert : K → V → HashMap K V → HashMap K V × V
  insert k v m = elim (find_chain k (chain_of k m)) [
    | some w ↦ (m, w)
    | none ↦
        (record { buckets = set m.buckets (home hasher count k) (chain_of k m ++ (k, v) ∷ []) }, v)
  ]

  -- `*p = v` for the pointer `p` that `find` or `insert` returned for the key.
  pub write : K → V → HashMap K V → HashMap K V
  write k v m = record {
    buckets = set m.buckets (home hasher count k) (write_chain k v (chain_of k m));
  }
