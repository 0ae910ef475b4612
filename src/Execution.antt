-- ===== src/Execution.antt =====
-- The execution of plans: the `execute` members of src/planner/strategies, for complex transforms,
-- and the stack of buffers of src/planner/strategies/cooley_tukey.hpp. A pointer is a region of
-- memory and an offset in elements. Rounding is not modelled, and the kernels, which are generated,
-- are parameters.
pub mod Fills
pub mod Contract
pub mod Batches
pub mod Frames
pub mod Twiddled
pub mod CooleyTukey
pub mod SharedTwiddles
pub mod CooleyTukeyBatch
pub mod Execute
pub mod Reference
pub mod Concrete
mod Examples
use native.Mathlib.Decide.{dec_lt}
use perf_libs_fft.Base.{
  ℕ, zero, suc, ◌+◌, ◌-◌, ◌*◌, ◌%◌, ◌^◌, Bool, true, false, ◌&&◌, List, get_or, leb, ltb, ◌==◌,
  if◌then◌else◌,
}
use perf_libs_fft.Base.Int.{ℤ, pos, negsuc, pos_part, ltb_ℤ, int_eq, ◌+ℤ◌, ◌-ℤ◌, ◌*ℤ◌}
use perf_libs_fft.Twiddles.{TwiddleLayout}
use perf_libs_fft.Planner.Run.{Run, ok, ◌>>=◌}

-- What a pointer points into: the caller's input, the caller's output, or a buffer of the stack.
pub data Region : Type 0 where
  input output : Region
  buffer : ℕ → Region

abbrev pub region_eq : Region → Region → Bool
region_eq input input = true
region_eq output output = true
region_eq (buffer i) (buffer j) = i == j
region_eq _ _ = false

pub record Pointer : Type 0 where
  pub region : Region
  pub offset : ℤ

abbrev pub advance : Pointer → ℤ → Pointer
advance p by = record p { offset = p.offset +ℤ by }

abbrev pub Memory : Type 0 → Type 0
Memory C = ℤ → C

-- The memory, and `cooley_tukey_buffers`: how many buffers there are, the size of each in bytes, and
-- how many frames are in use, which is one more than `cooley_tukey_active_buffer`.
pub record Store (C : Type 0) : Type 0 where
  pub memory : Region → Memory C
  pub sizes : ℕ → ℕ
  pub count : ℕ
  pub depth : ℕ

-- Kernels take a pointer as a memory and an offset, and return the memory of the output. The first
-- is `fft_func_n_t`: istride, ostride, howmany, idist, odist.
abbrev pub NKernel : Type 0 → Type 0
NKernel C = Memory C → ℤ → Memory C → ℤ → ℤ → ℤ → ℤ → ℤ → ℤ → Memory C

-- `fft_func_t_t`, where the twiddles stand between ostride and howmany.
abbrev pub TKernel : Type 0 → Type 0
TKernel C = Memory C → ℤ → Memory C → ℤ → ℤ → ℤ → (ℕ → C) → ℤ → ℤ → ℤ → Memory C

-- `order_kind`, of which the plans for complex transforms use three.
pub data OrderKind : Type 0 where
  order_na order_ab order_ac : OrderKind

-- What a provider has for a request: `kernel_data`.
pub record KernelData (C : Type 0) : Type 0 where
  pub ab_n : NKernel C
  pub ab_t_dit : TKernel C
  pub ac_t_dit : TKernel C
  pub twid_layout : TwiddleLayout

-- `for (i = first; i < first + rounds; i++) body(i)`
unfoldable pub repeat {ℓ} : {S : Type ℓ} → ℕ → ℕ → (ℕ → S → Run S) → S → Run S
repeat zero first body s = ok s
repeat (suc rounds) first body s = body first s >>= λ next. repeat rounds (suc first) body next

-- Whether an element of some size is inside a region. A buffer has the bytes that were allocated for
-- it, and what the caller's memory holds is for the caller to know.
pub inside : ℕ → (ℕ → ℕ) → Region → ℤ → Bool
inside size sizes input a = true
inside size sizes output a = true
inside size sizes (buffer i) (pos k) = leb (suc k * size) (sizes i)
inside size sizes (buffer i) (negsuc k) = false

module _ {C : Type 0} where
  -- A new memory is written to a region; what would go past the end of a buffer is lost.
  unfoldable pub put : ℕ → Region → Memory C → Store C → Store C
  put size q cells s = record s {
    memory = λ p a. if region_eq p q && inside size s.sizes q a then cells a else s.memory p a;
  }

  -- `*p = value`
  unfoldable pub write : ℕ → Pointer → C → Store C → Store C
  write size p value s =
      put size p.region (λ a. if int_eq a p.offset then value else s.memory p.region a) s

  unfoldable pub read : Pointer → Store C → C
  read p s = s.memory p.region p.offset

  unfoldable pub call_n : ℕ → NKernel C → Pointer → Pointer → ℤ → ℤ → ℤ → ℤ → ℤ → Store C → Store C
  unfolding put
  call_n size kernel x y istride ostride howmany idist odist s =
      put size y.region
        (kernel (s.memory x.region) x.offset (s.memory y.region) y.offset istride ostride howmany
          idist odist)
        s

  unfoldable pub call_t :
      ℕ → TKernel C → Pointer → Pointer → ℤ → ℤ → (ℕ → C) → ℤ → ℤ → ℤ → Store C → Store C
  unfolding put
  call_t size kernel x y istride ostride w howmany idist odist s =
      put size y.region
        (kernel (s.memory x.region) x.offset (s.memory y.region) y.offset istride ostride w howmany
          idist odist)
        s

  -- A buffer of the stack that holds `count` elements: the next frame, which may have to be added,
  -- and replaced if it is too small; what a new buffer holds is a parameter.
  module _ (element_size : ℕ) (fresh : Memory C) where
    with_frame : Store C → Store C
    with_frame s =
        if s.count == s.depth
        then record s {
          count = suc s.count;
          depth = suc s.depth;
          sizes = λ i. if i == s.depth then 0 else s.sizes i;
        }
        else record s { depth = suc s.depth }

    with_bytes : ℕ → ℕ → Store C → Store C
    with_bytes slot bytes s =
        if ltb (s.sizes slot) bytes
        then record s {
          memory = λ p. if region_eq p (buffer slot) then fresh else s.memory p;
          sizes = λ i. if i == slot then bytes else s.sizes i;
        }
        else s

    unfoldable pub get_cooley_tukey_buffer : ℕ → Store C → Pointer × Store C
    unfolding with_frame with_bytes
    get_cooley_tukey_buffer count s = (
      record { region = buffer s.depth; offset = pos 0 },
      with_bytes s.depth (count * element_size % 2 ^ 64) (with_frame s),
    )

  unfoldable pub release_cooley_tukey_buffer : Store C → Store C
  release_cooley_tukey_buffer s = record s { depth = s.depth - 1 }
