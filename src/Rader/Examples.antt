-- ===== src/Rader/Examples.antt =====
-- The generator modulo seven is three.
use perf_libs_fft.Base.{◌≡◌, refl, arith}
use perf_libs_fft.Rader.{all_new, is_generator, search_generator, find_group_generator}
use perf_libs_fft.Rader.Generator.{Found, find_group_generator-Found}

seven_three : find_group_generator 7 ≡ 3
unfolding find_group_generator search_generator is_generator all_new
seven_three = refl

find_group_generator-Found_example : Found 7 2 (find_group_generator 7)
find_group_generator-Found_example = find_group_generator-Found 7 (omega arith)
