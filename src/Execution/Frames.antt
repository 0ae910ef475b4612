-- ===== src/Execution/Frames.antt =====
-- The stack of buffers of src/planner/strategies/cooley_tukey.hpp: a plan of two stages opens a frame
-- that no pointer of its caller is into, and closes it again.
use native.Mathlib.Nat.{mod-eq_of_lt}
use perf_libs_fft.Base.{ℕ, ◌<◌, suc, ◌*◌, ◌%◌, ◌^◌, ◌≤◌, ◌≡◌, ◌≢◌, refl, sym, subst, ap, ◌∙◌, arith}
use perf_libs_fft.Base.Int.{ℤ, pos}
use perf_libs_fft.Checked.{mul_assert_no_overflow-counts}
use perf_libs_fft.Execution.{
  Region, input, output, buffer, Pointer, Memory, Store, with_frame, with_bytes,
  get_cooley_tukey_buffer, release_cooley_tukey_buffer,
}
use perf_libs_fft.Execution.Execute.{Machine, execute}
use perf_libs_fft.Execution.Fills.{Fills, Live, region_eq-ne}
use perf_libs_fft.Planner.Plans.{Plan, cooley_tukey_plan}
use perf_libs_fft.Planner.Run.{ok}

pub Live-suc : (depth : ℕ) (q : Region) → Live depth q → Live (suc depth) q
Live-suc depth input h = tt
Live-suc depth output h = tt
Live-suc depth (buffer i) h = omega arith

-- The next frame is no live region.
pub Live-ne : (depth : ℕ) (q : Region) → Live depth q → q ≢ buffer depth
Live-ne depth input h e = cc
Live-ne depth output h e = cc
Live-ne depth (buffer i) h e =
    let same : i ≡ depth = ap (λ q. elim q [ buffer j ↦ j | _ ↦ depth ]) e in omega arith

module _ {C : Type 0} (element_size : ℕ) (fresh : Memory C) (count : ℕ) (s : Store C) where
  -- The buffer that is opened is the frame above those in use, and nothing live changes.
  pub record IsOpened (opened : Pointer × Store C) : Type 0 where
    pub region : opened.0.region ≡ buffer s.depth
    pub offset : opened.0.offset ≡ pos 0
    pub depth : opened.1.depth ≡ suc s.depth
    pub framed : s.depth ≤ s.count → opened.1.depth ≤ opened.1.count
    pub same : (q : Region) → q ≢ buffer s.depth → opened.1.memory q ≡ s.memory q
    pub kept : (i : ℕ) → i < s.depth → opened.1.sizes i ≡ s.sizes i
    pub large : count * element_size % 2 ^ 64 ≤ opened.1.sizes s.depth

  pub get_cooley_tukey_buffer-IsOpened :
      IsOpened (get_cooley_tukey_buffer element_size fresh count s)
  unfolding get_cooley_tukey_buffer with_frame with_bytes
  get_cooley_tukey_buffer-IsOpened = record {
    region = refl;
    offset = refl;
    depth = ground arith;
    framed = ground arith;
    same = λ q d. ground (arith, region_eq-ne q (buffer s.depth) d);
    kept = λ i h. ground (arith, h);
    large = ground arith;
  }

pub get_cooley_tukey_buffer-frame :
    {C : Type 0} (element_size : ℕ) (fresh : Memory C) (count : ℕ) (s : Store C)
    → (get_cooley_tukey_buffer element_size fresh count s).0
      ≡ record { region = buffer s.depth; offset = pos 0 }
unfolding get_cooley_tukey_buffer
get_cooley_tukey_buffer-frame element_size fresh count s = refl

module _ {C Other : Type 0} (machine : Machine C Other) (n howmany : ℕ) (stage1 stage2 : Plan Other)
    (x y : Pointer) (s : Store C) (lx : Live s.depth x.region) (ly : Live s.depth y.region)
    (framed : s.depth ≤ s.count) (fits : n * howmany ≤ 9223372036854775807)
    (n_fits : n ≤ 9223372036854775807) (howmany_fits : howmany ≤ 9223372036854775807)
    (bytes_fit : n * howmany * machine.element_size < 18446744073709551616) where
  abbrev frame : Pointer
  frame = record { region = buffer s.depth; offset = pos 0 }

  -- Two stages through a buffer: what the first leaves there is what the second reads, and the
  -- caller sees the cells that the second fills, and nothing else.
  pub cooley_tukey_plan-stages :
      {I J : Type 0} (A : I → Type 0) (at1 : I → ℤ) (value1 : Memory C → I → C) (B : J → Type 0)
      (at2 : J → ℤ) (value2 : Memory C → J → C)
      → ((t : Store C)
          → t.depth ≡ suc s.depth
          → t.depth ≤ t.count
          → n * howmany * machine.element_size ≤ t.sizes s.depth
          → (t' : Store C) × (execute machine stage1 x frame t ≡ ok t')
            × Fills t t' (buffer s.depth) A at1 (value1 (t.memory x.region)))
      → ((t : Store C)
          → t.depth ≡ suc s.depth
          → t.depth ≤ t.count
          → ((i : ℕ) → i < s.depth → t.sizes i ≡ s.sizes i)
          → (t' : Store C) × (execute machine stage2 frame y t ≡ ok t')
            × Fills t t' y.region B at2 (value2 (t.memory (buffer s.depth))))
      → (s' : Store C) × (between : Memory C) × (execute machine
            (cooley_tukey_plan (pos n) (pos howmany) stage1 stage2)
            x
            y
            s
          ≡ ok s')
        × ((c : I) → A c → between (at1 c) ≡ value1 (s.memory x.region) c)
        × Fills s s' y.region B at2 (value2 between)
  unfolding execute release_cooley_tukey_buffer
  cooley_tukey_plan-stages A at1 value1 B at2 value2 first second =
      let opened = get_cooley_tukey_buffer machine.element_size machine.fresh (n * howmany) s in
      let is =
        get_cooley_tukey_buffer-IsOpened machine.element_size machine.fresh (n * howmany) s in
      let large : n * howmany * machine.element_size ≤ opened.1.sizes s.depth =
        subst (λ (b : ℕ). b ≤ opened.1.sizes s.depth) (mod-eq_of_lt bytes_fit) is.large in
      let (s2, run1, f1) = first opened.1 is.depth (is.framed framed) large in
      let kept =
        λ (i : ℕ) (h : i < s.depth). f1.sizes i (omega (arith, h, is.depth)) ∙ is.kept i h in
      let (s3, run2, f2) = second s2 (f1.depth ∙ is.depth) (f1.frames (is.framed framed)) kept in
      (
        release_cooley_tukey_buffer s3,
        s2.memory (buffer s.depth),
        rw
            (
              mul_assert_no_overflow-counts n howmany n_fits howmany_fits fits,
              get_cooley_tukey_buffer-frame machine.element_size machine.fresh (n * howmany) s,
              run1,
              run2,
            )
            refl,
        (λ c h.
            f1.values c h ∙ ap (λ m. value1 m c) (is.same x.region (Live-ne s.depth x.region lx))),
        record {
          values = f2.values;
          rest = λ a h.
              f2.rest a h
              ∙ f1.others y.region
                  (subst (λ (d : ℕ). Live d y.region) (sym is.depth) (Live-suc s.depth y.region ly))
                  (Live-ne s.depth y.region ly) a
              ∙ ap (λ m. m a) (is.same y.region (Live-ne s.depth y.region ly));
          others = λ p live d a.
              f2.others p
                (subst (λ (d : ℕ). Live d p) (sym (f1.depth ∙ is.depth)) (Live-suc s.depth p live))
                d a
              ∙ f1.others p (subst (λ (d : ℕ). Live d p) (sym is.depth) (Live-suc s.depth p live))
                  (Live-ne s.depth p live) a
              ∙ ap (λ m. m a) (is.same p (Live-ne s.depth p live));
          depth = omega (arith, f2.depth, f1.depth, is.depth);
          sizes = λ i h. f2.sizes i (omega (arith, h, f1.depth, is.depth)) ∙ kept i h;
          frames = λ h. omega (arith, f2.frames (f1.frames (is.framed framed)));
        },
      )
