-- ===== src/Fourier/Five.antt =====
-- The integers modulo five, whose units are fourth roots of unity: coefficients and roots of which
-- every law can be tried out.
use Prim.Native.Nat.{◌∣◌}
use native.Mathlib.Nat.{dvd_iff_mod-eq-zero, mod-eq_of_lt}
use perf_libs_fft.Base.{
  ℕ, zero, suc, ◌+◌, ◌*◌, ◌%◌, ◌<◌, ◌≡◌, refl, sym, ap, ◌∙◌, inl, inr, Bool, true, false, not, ◌&&◌,
  ◌||◌, ltb, if◌then◌else◌, ◌==◌, ==_iff, Bool-cases, arith,
}
use perf_libs_fft.Fourier.Sum.{Numbers}
use perf_libs_fft.Fourier.Dft.{IsRoots}

pub data Five : Type 0 where
  zeroth first second third fourth : Five

abbrev next : Five → Five
next zeroth = first
next first = second
next second = third
next third = fourth
next fourth = zeroth

abbrev add : Five → Five → Five
add zeroth b = b
add first b = next b
add second b = next (next b)
add third b = next (next (next b))
add fourth b = next (next (next (next b)))

abbrev mul : Five → Five → Five
mul zeroth b = zeroth
mul first b = b
mul second b = add b b
mul third b = add b (add b b)
mul fourth b = add (add b b) (add b b)

abbrev code : Five → ℕ
code zeroth = 0
code first = 1
code second = 2
code third = 3
code fourth = 4

abbrev decode : ℕ → Five
decode zero = zeroth
decode (suc n) = next (decode n)

decode-code : (a : Five) → decode (code a) ≡ a
decode-code zeroth = refl
decode-code first = refl
decode-code second = refl
decode-code third = refl
decode-code fourth = refl

abbrev same : Five → Five → Bool
same a b = code a == code b

same_sound : (a b : Five) → same a b ≡ true → a ≡ b
same_sound a b e = sym (decode-code a) ∙ ap decode ((==_iff (code a) (code b)).0 e) ∙ decode-code b

abbrev all : (Five → Bool) → Bool
all test = test zeroth && test first && test second && test third && test fourth

all_sound : (test : Five → Bool) → all test ≡ true → (a : Five) → test a ≡ true
all_sound test e zeroth = ground arith
all_sound test e first = ground arith
all_sound test e second = ground arith
all_sound test e third = ground arith
all_sound test e fourth = ground arith

instance pub five_numbers : Numbers Five
five_numbers = record {
  zero = zeroth;
  one = first;
  add = add;
  mul = mul;
  add_assoc = λ a b c. same_sound _ _ (
      all_sound (λ c. same (add (add a b) c) (add a (add b c)))
        (all_sound (λ b. all (λ c. same (add (add a b) c) (add a (add b c))))
          (all_sound (λ a. all (λ b. all (λ c. same (add (add a b) c) (add a (add b c))))) refl a)
          b)
        c);
  add_comm = λ a b. same_sound _ _ (
      all_sound (λ b. same (add a b) (add b a))
        (all_sound (λ a. all (λ b. same (add a b) (add b a))) refl a) b);
  zero-add = λ a. refl;
  mul_assoc = λ a b c. same_sound _ _ (
      all_sound (λ c. same (mul (mul a b) c) (mul a (mul b c)))
        (all_sound (λ b. all (λ c. same (mul (mul a b) c) (mul a (mul b c))))
          (all_sound (λ a. all (λ b. all (λ c. same (mul (mul a b) c) (mul a (mul b c))))) refl a)
          b)
        c);
  mul_comm = λ a b. same_sound _ _ (
      all_sound (λ b. same (mul a b) (mul b a))
        (all_sound (λ a. all (λ b. same (mul a b) (mul b a))) refl a) b);
  one-mul = λ a. refl;
  mul-zero = λ a. same_sound _ _ (all_sound (λ a. same (mul a zeroth) zeroth) refl a);
  mul-add = λ a b c. same_sound _ _ (
      all_sound (λ c. same (mul a (add b c)) (add (mul a b) (mul a c)))
        (all_sound (λ b. all (λ c. same (mul a (add b c)) (add (mul a b) (mul a c))))
          (all_sound (λ a. all (λ b. all (λ c. same (mul a (add b c)) (add (mul a b) (mul a c)))))
            refl a)
          b)
        c);
}

abbrev pow : Five → ℕ → Five
pow a zero = first
pow a (suc n) = mul a (pow a n)

-- The primitive root of unity of an order that divides four.
abbrev primitive : ℕ → Five
primitive n = if n == 2 then fourth else if n == 4 then second else first

abbrev pub fourth_root : ℕ → ℕ → Five
fourth_root n e = pow (primitive n) e

pow-add : (a : Five) (m n : ℕ) → pow a (m + n) ≡ mul (pow a m) (pow a n)
unfolding five_numbers
pow-add a zero n = let none : 0 + n ≡ n = omega arith in ap (pow a) none
pow-add a (suc m) n =
    let more : suc m + n ≡ suc (m + n) = omega arith in
    ap (pow a) more
    ∙ ap (mul a) (pow-add a m n)
    ∙ sym (five_numbers.mul_assoc a (pow a m) (pow a n))

pow-mul : (a : Five) (m n : ℕ) → pow a (m * n) ≡ pow (pow a m) n
pow-mul a m zero = let none : m * 0 ≡ 0 = omega arith in ap (pow a) none
pow-mul a m (suc n) =
    let more : m * suc n ≡ m + m * n = omega arith in
    ap (pow a) more ∙ pow-add a m (m * n) ∙ ap (mul (pow a m)) (pow-mul a m n)

abbrev all_below : ℕ → (ℕ → Bool) → Bool
all_below zero test = true
all_below (suc n) test = all_below n test && test n

all_below_sound :
    (n : ℕ) (test : ℕ → Bool) → all_below n test ≡ true → (i : ℕ) → i < n → test i ≡ true
all_below_sound zero test e i h = absurd (omega (arith, h))
all_below_sound (suc n) test e i h = elim (Bool-cases (i == n)) [
  | inl last ↦ let is : i ≡ n = (==_iff i n).0 last in ap test is ∙ ground arith
  | inr other ↦ all_below_sound n test (ground arith) i (ground arith)
]

divides : (n : ℕ) → n ∣ 4 → 4 % n ≡ 0
divides n d = (dvd_iff_mod-eq-zero n).0 d

bounded : (n : ℕ) → 4 % n ≡ 0 → n < 5
bounded n rest = elim (Bool-cases (ltb n 5)) [
  | inl small ↦ ground arith
  | inr large ↦
      let above : 4 < n = ground arith in
      let stays = mod-eq_of_lt above in absurd (omega (arith, rest, stays))
]

abbrev turns : ℕ → Bool
turns n = not (4 % n == 0) || same (pow (primitive n) n) first

abbrev scales : ℕ → ℕ → Bool
scales d n = not (4 % (d * n) == 0) || same (pow (primitive (d * n)) d) (primitive n)

claimed : (test claim : Bool) → test ≡ true → (not test || claim) ≡ true → claim ≡ true
claimed true claim h e = e
claimed false claim h e = absurd (cc)

pub fourth_root-IsRoots : IsRoots 4 fourth_root
unfolding five_numbers
fourth_root-IsRoots = record {
  root_zero = λ n. refl;
  root_add = λ n a b. pow-add (primitive n) a b;
  root_turn = λ n d. same_sound _ _ (
      claimed (4 % n == 0) _ ((==_iff (4 % n) 0).1 (divides n d))
        (all_below_sound 5 turns refl n (bounded n (divides n d))));
  root_scale = λ d n e div.
      pow-mul (primitive (d * n)) d e
      ∙ ap (λ a. pow a e)
          (same_sound _ _ (
            claimed (4 % (d * n) == 0) _ ((==_iff (4 % (d * n)) 0).1 (divides (d * n) div)) (
              all_below_sound 5 (scales d)
                (all_below_sound 5 (λ d. all_below 5 (scales d)) refl d
                  (factor d n (bounded (d * n) (divides (d * n) div)) (divides (d * n) div)).0)
                n (factor d n (bounded (d * n) (divides (d * n) div)) (divides (d * n) div)).1)));
}
  where
    factor : (d n : ℕ) → d * n < 5 → 4 % (d * n) ≡ 0 → (d < 5) × (n < 5)
    factor zero n within rest = absurd (omega (arith, rest))
    factor (suc d) zero within rest =
        let nothing : suc d * 0 ≡ 0 = omega arith in absurd (omega (arith, rest, nothing))
    factor (suc d) (suc n) within rest = grind (arith, within)
