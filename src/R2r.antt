-- ===== src/R2r.antt =====
-- `r2r_buffer_helper` of src/r2r_buffer_helper.hpp: how the input of a real-to-real transform is laid
-- out for the Fourier transform that computes it. The arithmetic and the rotations are parameters. A
-- loop that writes cell after cell is the list of what it writes.
pub mod Input
pub mod Extract
mod Examples
use perf_libs_fft.Base.{
  ℕ, zero, suc, ◌+◌, ◌-◌, ◌*◌, ◌/◌, ◌%◌, Bool, true, false, List, [], ◌∷◌, ◌++◌, ◌==◌, set,
  if◌then◌else◌,
}
use perf_libs_fft.Api.Types.{
  R2rKind, dct_1, dct_2, dct_3, dct_4, dst_1, dst_2, dst_3, dst_4, dht, r2hc, hc2r, other_kind,
}

-- `fft_input_size`; the function falls off its end for a value that is no kind.
pub fft_input_size : R2rKind → ℕ → ℕ
fft_input_size dct_1 n = 2 * n - 2
fft_input_size dst_1 n = 2 * n + 2
fft_input_size dct_3 n = n / 2 + 1
fft_input_size dst_3 n = n / 2 + 1
fft_input_size hc2r n = n / 2 + 1
fft_input_size kind n = n

unfoldable pub fft_output_size : R2rKind → ℕ → ℕ
fft_output_size dst_1 n = 2 * n + 2
fft_output_size dct_2 n = n / 2 + 1
fft_output_size dst_2 n = n / 2 + 1
fft_output_size kind n = n

-- `for (i = first; i < first + count; i++)` of what is written.
abbrev pub loop {ℓ} : {A : Type ℓ} → ℕ → ℕ → (ℕ → A) → List A
loop zero first f = []
loop (suc count) first f = f first ∷ loop count (suc first) f

-- The numbers: real ones `T`, and cells `N` that hold a real or a complex one.
pub record Numbers (T N : Type 0) : Type 0 where
  pub zero_value : T
  pub negative : T → T
  pub times : T → T → T
  pub one : T
  pub minus_one : T
  pub real : T → N
  pub complex : T → T → N
  pub product : N → N → N

-- `w` are the rotations that are passed, and `rotation n i` is the one that the code computes.
module _ {T N : Type 0} (numbers : Numbers T N) (w : ℕ → N) (rotation : ℕ → ℕ → N) where
  -- The writes of DST-2, one at a time, into the buffer that is there.
  pub scatter : ℕ → ℕ → ℕ → (ℕ → T) → List N → List N
  scatter zero i n read buffer = buffer
  scatter (suc count) i n read buffer =
      let odd = i % 2 == 1 in
      let j = if odd then n - (i + 1) / 2 else i / 2 in
      let sign = if odd then numbers.minus_one else numbers.one in
      scatter count (suc i) n read (set buffer j (numbers.real (numbers.times (read i) sign)))

  -- `prepare_fft_input` of each kind; `read i` is `r2r_input[i * istride]`.
  abbrev pub prepare_dct_1 : ℕ → (ℕ → T) → List N
  prepare_dct_1 n read =
      loop n 0 (λ i. numbers.real (read i)) ++ loop (n - 2) 0 (λ i. numbers.real (read (n - 2 - i)))

  abbrev pub prepare_dct_2 : ℕ → (ℕ → T) → List N
  prepare_dct_2 n read =
      loop ((n + 1) / 2) 0 (λ i. numbers.real (read (i * 2)))
      ++ loop (n - (n + 1) / 2) ((n + 1) / 2) (λ i. numbers.real (read (2 * (n - i) - 1)))

  abbrev pub prepare_dct_3 : ℕ → (ℕ → T) → List N
  prepare_dct_3 n read = loop (n / 2 + 1) 0 (λ k.
      numbers.product
        (numbers.complex (read k) (if k == 0 then numbers.zero_value else read (n - k))) (w k))

  abbrev pub prepare_dct_4 : ℕ → (ℕ → T) → List N
  prepare_dct_4 n read =
      loop n 0 (λ i. numbers.product (numbers.complex (read i) (read (n - i - 1))) (w i))

  abbrev pub prepare_dst_1 : ℕ → (ℕ → T) → List N
  prepare_dst_1 n read =
      numbers.real numbers.zero_value
      ∷ (loop n 1 (λ i. numbers.real (read (i - 1)))
          ++ (numbers.real numbers.zero_value
              ∷ loop n 0 (λ i. numbers.real (numbers.negative (read (n - 1 - i))))))

  abbrev pub prepare_dst_3 : ℕ → (ℕ → T) → List N
  prepare_dst_3 n read = loop (n / 2 + 1) 0 (λ i.
      numbers.product
        (if i == 0
          then numbers.complex numbers.zero_value (read (n - 1))
          else numbers.complex (read (i - 1)) (read (n - i - 1)))
        (rotation n i))

  abbrev pub prepare_dst_4 : ℕ → (ℕ → T) → List N
  prepare_dst_4 n read =
      loop n 0 (λ i. numbers.product (numbers.complex (read i) (read (n - i - 1))) (rotation n i))

  abbrev pub prepare_dht : ℕ → (ℕ → T) → List N
  prepare_dht n read =
      numbers.real (read 0) ∷ loop (n - 1) 1 (λ i. numbers.complex (read i) (read (n - i)))

  abbrev pub prepare_r2hc : ℕ → (ℕ → T) → List N
  prepare_r2hc n read = loop n 0 (λ i. numbers.real (read i))

  abbrev pub prepare_hc2r : ℕ → (ℕ → T) → List N
  prepare_hc2r n read =
      let last =
        numbers.complex (read (n / 2))
          (if n % 2 == 1 then read (n - n / 2) else numbers.zero_value) in
      if n / 2 == 0
      then last ∷ []
      else numbers.real (read 0)
        ∷ (loop (n / 2 - 1) 1 (λ i. numbers.complex (read i) (read (n - i))) ++ last ∷ [])

  -- The specialisations of `prepare_fft_input`.
  pub prepare_fft_input : R2rKind → ℕ → (ℕ → T) → List N → List N
  unfolding scatter
  prepare_fft_input dct_1 n read buffer = prepare_dct_1 n read
  prepare_fft_input dct_2 n read buffer = prepare_dct_2 n read
  prepare_fft_input dct_3 n read buffer = prepare_dct_3 n read
  prepare_fft_input dct_4 n read buffer = prepare_dct_4 n read
  prepare_fft_input dst_1 n read buffer = prepare_dst_1 n read
  prepare_fft_input dst_2 n read buffer = scatter n 0 n read buffer
  prepare_fft_input dst_3 n read buffer = prepare_dst_3 n read
  prepare_fft_input dst_4 n read buffer = prepare_dst_4 n read
  prepare_fft_input dht n read buffer = prepare_dht n read
  prepare_fft_input r2hc n read buffer = prepare_r2hc n read
  prepare_fft_input hc2r n read buffer = prepare_hc2r n read
  prepare_fft_input (other_kind c) n read buffer = buffer
