-- ===== src/Execution/Fills.antt =====
-- What an execution writes and what it leaves alone: lemmas for the members `execute` of
-- src/planner/strategies. A set of cells is a predicate on an index with an address.
use native.Mathlib.Decide.{dec_lt}
use perf_libs_fft.Base.{
  ℕ, zero, suc, leb, ◌+◌, ◌*◌, ◌≤◌, ◌<◌, ◌≡◌, ◌≢◌, refl, sym, subst, ap, ◌∙◌, ◌⊎◌, inl, inr, true,
  false, ◌==◌, ==_iff, Bool-cases, arith,
}
use perf_libs_fft.Base.Int.{ℤ, pos, negsuc}
use perf_libs_fft.Execution.{
  Region, input, output, buffer, region_eq, inside, Memory, Store, put, repeat,
}
use perf_libs_fft.Planner.Run.{Run, ok, ◌>>=◌}

pub region_eq_refl : (q : Region) → region_eq q q ≡ true
region_eq_refl input = refl
region_eq_refl output = refl
region_eq_refl (buffer i) = ground arith

pub region_eq-ne : (p q : Region) → p ≢ q → region_eq p q ≡ false
region_eq-ne input input d = absurd (d refl)
region_eq-ne input output d = refl
region_eq-ne input (buffer j) d = refl
region_eq-ne output input d = refl
region_eq-ne output output d = absurd (d refl)
region_eq-ne output (buffer j) d = refl
region_eq-ne (buffer i) input d = refl
region_eq-ne (buffer i) output d = refl
region_eq-ne (buffer i) (buffer j) d = elim (Bool-cases (i == j)) [
  | inl e ↦ absurd (d (ap buffer ((==_iff i j).0 e)))
  | inr e ↦ e
]

-- A region that belongs to the caller, or to a frame in use.
abbrev pub Live : ℕ → Region → Type 0
Live depth (buffer i) = i < depth
Live depth _ = Unit {0}

-- Every cell of an index set is inside a region.
abbrev pub AllInside : {I : Type 0} → ℕ → (ℕ → ℕ) → Region → (I → Type 0) → (I → ℤ) → Type 0
AllInside {I} size sizes q In at = (c : I) → In c → inside size sizes q (at c) ≡ true

-- What is inside a live region depends on the sizes of the live buffers.
pub inside_same :
    (size depth : ℕ) (sizes sizes' : ℕ → ℕ) (q : Region)
    → Live depth q
    → ((i : ℕ) → i < depth → sizes' i ≡ sizes i)
    → (a : ℤ) → inside size sizes' q a ≡ inside size sizes q a
unfolding inside
inside_same size depth sizes sizes' input live same a = refl
inside_same size depth sizes sizes' output live same a = refl
inside_same size depth sizes sizes' (buffer i) live same (pos k) =
    ap (λ (n : ℕ). leb (suc k * size) n) (same i live)
inside_same size depth sizes sizes' (buffer i) live same (negsuc k) = refl

pub inside-buffer :
    (size : ℕ) (sizes : ℕ → ℕ) (slot total k : ℕ) (a : ℤ)
    → a ≡ pos k
    → k < total
    → total * size ≤ sizes slot
    → inside size sizes (buffer slot) a ≡ true
unfolding inside
inside-buffer size sizes slot total k a place less large =
    let within : suc k * size ≤ sizes slot = grind (arith, less, large) in
    rw place (ground (arith, within))

module _ {C I : Type 0} where
  -- From one memory to the next, the cells of the index set get their values, and no other changes.
  pub record Results (before after : Memory C) (In : I → Type 0) (at : I → ℤ) (value : I → C)
      : Type 0 where
    pub values : (c : I) → In c → after (at c) ≡ value c
    pub rest : (a : ℤ) → ((c : I) → In c → a ≢ at c) → after a ≡ before a

  -- The same for a region of the store, where the other live regions and the frames in use stay.
  pub record Fills (s s' : Store C) (q : Region) (In : I → Type 0) (at : I → ℤ) (value : I → C)
      : Type 0 where
    pub values : (c : I) → In c → s'.memory q (at c) ≡ value c
    pub rest : (a : ℤ) → ((c : I) → In c → a ≢ at c) → s'.memory q a ≡ s.memory q a
    pub others : (p : Region) → Live s.depth p → p ≢ q → (a : ℤ) → s'.memory p a ≡ s.memory p a
    pub depth : s'.depth ≡ s.depth
    pub frames : s.depth ≤ s.count → s'.depth ≤ s'.count
    pub sizes : (i : ℕ) → i < s.depth → s'.sizes i ≡ s.sizes i

  pub put-Fills :
      (size : ℕ) (s : Store C) (q : Region) (cells : Memory C) {In : I → Type 0} {at : I → ℤ}
      {value : I → C}
      → Results (s.memory q) cells In at value
      → AllInside size s.sizes q In at
      → Fills s (put size q cells s) q In at value
  unfolding put
  put-Fills size s q cells {In} {at} {value} r within = record {
    values = λ c h. rw (region_eq_refl q, within c h) (r.values c h);
    rest = λ a h. elim (Bool-cases (inside size s.sizes q a)) [
      | inl there ↦ rw (region_eq_refl q, there) (r.rest a h)
      | inr past ↦ rw (region_eq_refl q, past) refl
    ];
    others = λ p live d a. rw (region_eq-ne p q d) refl;
    depth = refl;
    frames = λ h. h;
    sizes = λ i h. refl;
  }

  pub Fills-none :
      (s : Store C) (q : Region) (In : I → Type 0) (at : I → ℤ) (value : I → C)
      → ((c : I) → In c → ⊥)
      → Fills s s q In at value
  Fills-none s q In at value none = record {
    values = λ c h. absurd (none c h);
    rest = λ a h. refl;
    others = λ p live d a. refl;
    depth = refl;
    frames = λ h. h;
    sizes = λ i h. refl;
  }

  -- Two executions in turn, on cells that are apart.
  pub Fills-join :
      {s between s' : Store C} {q : Region} {at : I → ℤ} {value : I → C} {A B : I → Type 0}
      → Fills s between q A at value
      → Fills between s' q B at value
      → ((c d : I) → A c → B d → at c ≢ at d)
      → Fills s s' q (λ c. A c ⊎ B c) at value
  Fills-join {s} {between} {s'} {q} {at} {value} {A} {B} f g apart = record {
    values = λ c h. elim h [
      | inl a ↦ g.rest (at c) (λ d b. apart c d a b) ∙ f.values c a
      | inr b ↦ g.values c b
    ];
    rest = λ a h. g.rest a (λ c b. h c (inr b)) ∙ f.rest a (λ c b. h c (inl b));
    others = λ p live d a.
        g.others p (subst (λ (n : ℕ). Live n p) (sym f.depth) live) d a ∙ f.others p live d a;
    depth = g.depth ∙ f.depth;
    frames = λ h. g.frames (f.frames h);
    sizes = λ i h. g.sizes i (omega (arith, h, f.depth)) ∙ f.sizes i h;
  }

-- Another name for the same cells.
pub Fills-reindex :
    {C I J : Type 0} {s s' : Store C} {q : Region} {A : I → Type 0} {at : I → ℤ} {value : I → C}
    (B : J → Type 0) (at' : J → ℤ) (value' : J → C)
    → Fills s s' q A at value
    → ((d : J) → B d → (c : I) × A c × (at c ≡ at' d) × (value c ≡ value' d))
    → ((c : I) → A c → (d : J) × B d × (at c ≡ at' d))
    → Fills s s' q B at' value'
Fills-reindex {s = s} {s' = s'} {q = q} B at' value' f to from = record {
  values = λ d b.
      (let (c, a, place, same) = to d b in ap (s'.memory q) (sym place) ∙ f.values c a ∙ same);
  rest = λ a h. f.rest a (λ c b e. (let (d, b', place) = from c b in h d b' (e ∙ place)));
  others = f.others;
  depth = f.depth;
  frames = f.frames;
  sizes = f.sizes;
}

-- The cells of the rounds from `first` on.
abbrev pub Rounds : {I : Type 0} → (ℕ → I → Type 0) → ℕ → ℕ → I → Type 0
Rounds Row first rounds c = (i : ℕ) × (first ≤ i) × (i < first + rounds) × Row i c

module _ {C : Type 0} where
  -- A store in the midst of an execution that writes to `q`.
  pub record Agrees (start now : Store C) (q : Region) : Type 0 where
    pub depth : now.depth ≡ start.depth
    pub framed : now.depth ≤ now.count
    pub others :
        (p : Region) → Live start.depth p → p ≢ q → (a : ℤ) → now.memory p a ≡ start.memory p a
    pub sizes : (i : ℕ) → i < start.depth → now.sizes i ≡ start.sizes i

  pub Agrees-self : (s : Store C) (q : Region) → s.depth ≤ s.count → Agrees s s q
  Agrees-self s q h = record {
    depth = refl;
    framed = h;
    others = λ p live d a. refl;
    sizes = λ i h. refl;
  }

  pub Agrees-Fills :
      {I : Type 0} {start now next : Store C} {q : Region} {In : I → Type 0} {at : I → ℤ}
      {value : I → C}
      → Agrees start now q
      → Fills now next q In at value
      → Agrees start next q
  Agrees-Fills a f = record {
    depth = f.depth ∙ a.depth;
    framed = f.frames a.framed;
    others = λ p live d c.
        f.others p (subst (λ (n : ℕ). Live n p) (sym a.depth) live) d c ∙ a.others p live d c;
    sizes = λ i h. f.sizes i (omega (arith, h, a.depth)) ∙ a.sizes i h;
  }

  -- A loop each of whose rounds fills its own cells.
  pub repeat-Fills :
      {I : Type 0} (start : Store C) (q : Region) (Row : ℕ → I → Type 0) (at : I → ℤ)
      (value : I → C) (body : ℕ → Store C → Run (Store C)) (low last : ℕ)
      → ((i j : ℕ) (c d : I) → i < j → j < last → Row i c → Row j d → at c ≢ at d)
      → ((i : ℕ) (t : Store C)
          → low ≤ i
          → i < last
          → Agrees start t q
          → (t' : Store C) × (body i t ≡ ok t') × Fills t t' q (Row i) at value)
      → (rounds first : ℕ) (s : Store C) → low ≤ first
      → first + rounds ≤ last
      → Agrees start s q
      → (s' : Store C) × (repeat rounds first body s ≡ ok s')
        × Fills s s' q (Rounds Row first rounds) at value
  unfolding repeat
  repeat-Fills start q Row at value body low last apart step zero first s above within agrees =
      (s, refl, Fills-none s q _ at value (λ c h. omega (arith, h.1, h.2)))
  repeat-Fills start q Row at value body low last apart step (suc rounds) first s above within
        agrees =
      let (t, run, f) = step first s above (omega arith) agrees in
      let (s', rest, g) =
        repeat-Fills start q Row at value body low last apart step rounds (suc first) t
          (omega arith) (omega arith) (Agrees-Fills agrees f) in
      (
        s',
        rw (run, ◌>>=◌) rest,
        Fills-reindex (Rounds Row first (suc rounds)) at value
            (Fills-join f g (λ c d here later.
              apart first later.0 c d (omega (arith, later.1)) (omega (arith, later.2)) here
                later.3))
            (λ d row. elim (dec_lt first row.0) [
              | yes more ↦ (d, inr (row.0, more, omega (arith, row.2), row.3), refl, refl)
              | no here ↦
                  let same : row.0 ≡ first = omega (arith, row.1) in
                  (d, inl (subst (λ (i : ℕ). Row i d) same row.3), refl, refl)
            ])
            (λ c where_. elim where_ [
              | inl here ↦ (c, (first, omega arith, omega arith, here), refl)
              | inr later ↦
                  (c, (later.0, omega (arith, later.1), omega (arith, later.2), later.3), refl)
            ]),
      )
