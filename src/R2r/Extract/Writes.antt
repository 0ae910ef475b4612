-- ===== src/R2r/Extract/Writes.antt =====
-- Every element of the output is written: src/r2r_buffer_helper.hpp.
use mathlib.Core.Option.{some-injective}
use perf_libs_fft.Base.{
  ℕ, zero, suc, ◌+◌, ◌-◌, ◌/◌, ◌%◌, ◌≤◌, ◌<◌, ◌≡◌, ◌≢◌, ◌⊎◌, refl, sym, subst, ap, ◌∙◌, inl, inr,
  true, List, [], ◌∷◌, ◌++◌, ◌==◌, ==_iff, ltb, set, get_elem?, get_elem?-set_self,
  get_elem?-set_ne, length, length-set, Bool-cases, arith,
}
use perf_libs_fft.Api.Types.{
  R2rKind, dct_1, dct_2, dct_3, dct_4, dst_1, dst_2, dst_3, dst_4, dht, r2hc, hc2r, other_kind,
}
use perf_libs_fft.Api.Config.{valid_r2r_kind}
use perf_libs_fft.R2r.{loop}
use perf_libs_fft.R2r.Extract.{Results, flatten, store_all, writes_of, extract_output_from_fft}

-- Some write goes to the index.
abbrev Hit {ℓ} : {A : Type ℓ} → ℕ → List (ℕ × A) → Type 0
Hit p [] = ⊥
Hit p ((i, value) ∷ writes) = (i ≡ p) ⊎ Hit p writes

Hit-left {ℓ} : {A : Type ℓ} (p : ℕ) (xs ys : List (ℕ × A)) → Hit p xs → Hit p (xs ++ ys)
Hit-left p [] ys h = absurd h
Hit-left p ((i, v) ∷ xs) ys (inl e) = inl e
Hit-left p ((i, v) ∷ xs) ys (inr h) = inr (Hit-left p xs ys h)

Hit-right {ℓ} : {A : Type ℓ} (p : ℕ) (xs ys : List (ℕ × A)) → Hit p ys → Hit p (xs ++ ys)
Hit-right p [] ys h = h
Hit-right p ((i, v) ∷ xs) ys h = inr (Hit-right p xs ys h)

Hit-loop {ℓ} :
    {A : Type ℓ} (p count first i : ℕ) (f : ℕ → ℕ × A)
    → first ≤ i
    → i < first + count
    → (f i).0 ≡ p
    → Hit p (loop count first f)
Hit-loop p zero first i f l m e = absurd (omega (arith, l, m))
Hit-loop p (suc count) first i f l m e = elim (Bool-cases (first == i)) [
  | inl same ↦ inl (subst (λ (k : ℕ). (f k).0 ≡ p) (sym ((==_iff first i).0 same)) e)
  | inr other ↦ inr (Hit-loop p count (suc first) i f (ground (arith, l)) (omega (arith, m)) e)
]

Hit-flatten {ℓ} :
    {A : Type ℓ} (p count first i : ℕ) (f : ℕ → List (ℕ × A))
    → first ≤ i
    → i < first + count
    → Hit p (f i)
    → Hit p (flatten (loop count first f))
Hit-flatten p zero first i f l m h = absurd (omega (arith, l, m))
Hit-flatten p (suc count) first i f l m h = elim (Bool-cases (first == i)) [
  | inl same ↦
      Hit-left p (f first) _ (subst (λ (k : ℕ). Hit p (f k)) (sym ((==_iff first i).0 same)) h)
  | inr other ↦
      Hit-right p (f first) _
        (Hit-flatten p count (suc first) i f (ground (arith, l)) (omega (arith, m)) h)
]

module _ {T C : Type 0} (results : Results T C) (w : ℕ → C) (rotation : ℕ → ℕ → C) where
  -- Every index below the length is written to.
  writes_of-Hit :
      (kind : R2rKind) (n p : ℕ) (res : ℕ → C)
      → p < n
      → valid_r2r_kind kind ≡ true
      → Hit p (writes_of results w rotation kind n res)
  unfolding writes_of valid_r2r_kind
  writes_of-Hit dct_1 n p res l u = Hit-loop p n 0 p _ (omega arith) (omega (arith, l)) refl
  writes_of-Hit dct_2 n p res l u = elim (Bool-cases (p == 0)) [
    | inl first ↦ inl (ground arith)
    | inr later ↦ inr (elim (Bool-cases (ltb (n / 2) p)) [
      | inl far ↦
          Hit-flatten p (n / 2) 1 (n - p) _ (ground (arith, l)) (ground (arith, l))
            (inr (inl (omega (arith, l))))
      | inr near ↦ Hit-flatten p (n / 2) 1 p _ (ground arith) (ground arith) (inl refl)
    ])
  ]
  writes_of-Hit dct_3 n p res l u = elim (Bool-cases (p == 0)) [
    | inl first ↦ inl (ground arith)
    | inr later ↦ inr (elim (Bool-cases (p % 2 == 0)) [
      | inl even ↦ Hit-left p (loop ((n + 1) / 2 - 1) 1 _) _ (
          Hit-loop p ((n + 1) / 2 - 1) 1 (p / 2) _ (ground (arith, l)) (ground (arith, l))
            (ground arith))
      | inr odd ↦ Hit-right p (loop ((n + 1) / 2 - 1) 1 _) _ (
          Hit-loop p (n - (n + 1) / 2) ((n + 1) / 2) (n - (p + 1) / 2) _ (ground (arith, l))
            (ground (arith, l)) (ground (arith, l)))
    ])
  ]
  writes_of-Hit dct_4 n p res l u = elim (Bool-cases (p % 2 == 0)) [
    | inl even ↦
        Hit-left p (loop ((n + 1) / 2) 0 _) _
          (Hit-loop p ((n + 1) / 2) 0 (p / 2) _ (omega arith) (ground (arith, l)) (ground arith))
    | inr odd ↦
        Hit-right p (loop ((n + 1) / 2) 0 _) _
          (Hit-loop p (n / 2) 0 (p / 2) _ (omega arith) (ground (arith, l)) (ground arith))
  ]
  writes_of-Hit dst_1 n p res l u = Hit-loop p n 0 p _ (omega arith) (omega (arith, l)) refl
  writes_of-Hit dst_2 n p res l u = elim (Bool-cases (p == n - 1)) [
    | inl last ↦ Hit-right p (loop (n - 1) 1 _) _ (inl (ground arith))
    | inr before ↦
        Hit-left p (loop (n - 1) 1 _) _
          (Hit-loop p (n - 1) 1 (p + 1) _ (omega arith) (ground (arith, l)) (omega arith))
  ]
  writes_of-Hit dst_3 n p res l u = Hit-loop p n 0 p _ (omega arith) (omega (arith, l)) refl
  writes_of-Hit dst_4 n p res l u = Hit-loop p n 0 p _ (omega arith) (omega (arith, l)) refl
  writes_of-Hit dht n p res l u = Hit-loop p n 0 p _ (omega arith) (omega (arith, l)) refl
  writes_of-Hit r2hc n p res l u = elim (Bool-cases (ltb p (n / 2 + 1))) [
    | inl near ↦
        Hit-left p (loop (n / 2 + 1) 0 _) _
          (Hit-loop p (n / 2 + 1) 0 p _ (omega arith) (ground arith) refl)
    | inr far ↦
        Hit-right p (loop (n / 2 + 1) 0 _) _
          (Hit-loop p (n - (n / 2 + 1)) (n / 2 + 1) p _ (ground arith) (ground (arith, l)) refl)
  ]
  writes_of-Hit hc2r n p res l u = Hit-loop p n 0 p _ (omega arith) (omega (arith, l)) refl
  writes_of-Hit (other_kind c) n p res l u = absurd (ground arith)

-- Lists of one length with the same elements.
extensional {ℓ} :
    {A : Type ℓ} (a b : List A)
    → length a ≡ length b
    → ((p : ℕ) → p < length a → get_elem? a p ≡ get_elem? b p)
    → a ≡ b
extensional [] [] e h = refl
extensional [] (y ∷ b) e h = absurd (omega (arith, e))
extensional (x ∷ a) [] e h = absurd (omega (arith, e))
extensional (x ∷ a) (y ∷ b) e h =
    ap (λ t. x ∷ t) (extensional a b (omega (arith, e)) (λ p l. h (suc p) (omega (arith, l))))
    ∙ ap (λ t. t ∷ b) (some-injective x y (h 0 (omega arith)))

store_all-same {ℓ} :
    {A : Type ℓ} (writes : List (ℕ × A)) (a b : List A)
    → length a ≡ length b
    → ((p : ℕ) → p < length a → Hit p writes ⊎ (get_elem? a p ≡ get_elem? b p))
    → store_all writes a ≡ store_all writes b
unfolding store_all
store_all-same [] a b e h =
    extensional a b e (λ p l. elim (h p l) [ inl hit ↦ absurd hit | inr same ↦ same ])
store_all-same ((i, value) ∷ writes) a b e h =
    store_all-same writes (set a i value) (set b i value)
      (length-set a i value ∙ e ∙ sym (length-set b i value))
      (λ p l. after p (omega (arith, l, length-set a i value)))
  where
    after :
        (p : ℕ)
        → p < length a
        → Hit p writes ⊎ (get_elem? (set a i value) p ≡ get_elem? (set b i value) p)
    after p l = elim (Bool-cases (i == p)) [
      | inl same ↦
          (let q : i ≡ p = (==_iff i p).0 same in
            inr (
              subst (λ (k : ℕ). get_elem? (set a i value) k ≡ get_elem? (set b i value) k) q
                (get_elem?-set_self a i value (omega (arith, l, q))
                  ∙ sym (get_elem?-set_self b i value (omega (arith, l, q, e))))))
      | inr other ↦ elim (h p l) [
        | inl (inl hit) ↦ absurd (ground (arith, hit))
        | inl (inr later) ↦ inl later
        | inr before ↦
            (let apart : i ≢ p = ground arith in
              inr (get_elem?-set_ne a value apart ∙ before ∙ sym (get_elem?-set_ne b value apart)))
      ]
    ]

module _ {T C : Type 0} (results : Results T C) (w : ℕ → C) (rotation : ℕ → ℕ → C) where
  -- For every kind with a name, all elements of the output are written: what is extracted does not
  -- depend on what was in the output before.
  pub extract_output_from_fft-same :
      (kind : R2rKind) (n : ℕ) (res : ℕ → C) (a b : List T)
      → valid_r2r_kind kind ≡ true
      → length a ≡ n
      → length b ≡ n
      → extract_output_from_fft results w rotation kind n res a
        ≡ extract_output_from_fft results w rotation kind n res b
  unfolding extract_output_from_fft
  extract_output_from_fft-same kind n res a b valid e e' =
      store_all-same (writes_of results w rotation kind n res) a b (e ∙ sym e')
        (λ p l. inl (writes_of-Hit results w rotation kind n p res (omega (arith, l, e)) valid))
