-- ===== src/Execution/Concrete.antt =====
-- A machine on which executions are run: transforms over the integers modulo five, with kernels that
-- write the transforms cell by cell.
use perf_libs_fft.Base.{ℕ, ◌<◌, ◌≡◌, ◌≢◌, refl, true, sym, ◌∙◌, if◌then◌else◌}
use perf_libs_fft.Base.Int.{ℤ, pos, pos_part, int_eq}
use perf_libs_fft.Base.Int.Ring.{pos_injective}
use perf_libs_fft.Execution.{inside, input, output, Pointer, Store}
use perf_libs_fft.Execution.Contract.{Apart, Provides}
use perf_libs_fft.Execution.CooleyTukey.{by_column, by_row, digits_unique}
use perf_libs_fft.Execution.Execute.{Machine}
use perf_libs_fft.Execution.Reference.{reference_data, reference_data-IsKernelData}
use perf_libs_fft.Fourier.Five.{Five, zeroth, first, third, five_numbers, fourth_root}
use perf_libs_fft.Planner.Run.{ok}

abbrev pub five_machine : Machine Five ℕ
five_machine = record {
  kernels = λ n howmany istride ostride idist odist dir order want_sme.
      reference_data fourth_root (pos_part n) howmany istride ostride idist odist;
  point = λ dir. fourth_root;
  padding = zeroth;
  rotated = λ a. a;
  element_size = 8;
  fresh = λ a. zeroth;
  convolutions = λ plan x y s. ok s;
  others = λ other x y s. ok s;
}

abbrev pub start : Store Five
start = record {
  memory = λ q a. if int_eq a (pos 1) then third else first;
  sizes = λ i. 0;
  count = 0;
  depth = 0;
}

abbrev pub from_input : Pointer
from_input = record { region = input; offset = pos 0 }

abbrev pub to_output : Pointer
to_output = record { region = output; offset = pos 0 }

pub input-ne-output : input ≢ output
input-ne-output e = cc

-- Transforms one after the other, and transforms that are interleaved.
pub packed-Apart : (howmany n : ℕ) → Apart howmany n (pos n) (pos 1)
packed-Apart howmany n b k b' k' c c' e =
    let (places, batches) =
      digits_unique n k b k' b' c.1 c'.1
        (pos_injective _ _ (sym (by_row n k b) ∙ e ∙ by_row n k' b')) in
    (batches, places)

pub interleaved-Apart : (howmany n : ℕ) → Apart howmany n (pos 1) (pos howmany)
interleaved-Apart howmany n b k b' k' c c' e =
    digits_unique howmany b k b' k' c.0 c'.0
      (pos_injective _ _ (sym (by_column howmany b k) ∙ e ∙ by_column howmany b' k'))

pub kernels :
    (n : ℕ)
    → 0 < n
    → Provides fourth_root n (λ howmany istride ostride idist odist order.
      reference_data fourth_root n howmany istride ostride idist odist)
kernels n some howmany istride ostride idist odist order =
    reference_data-IsKernelData fourth_root n howmany istride ostride idist odist order some

-- The caller's output is as large as it takes.
pub output_inside : (a : ℤ) → inside 8 start.sizes output a ≡ true
unfolding inside
output_inside a = refl
