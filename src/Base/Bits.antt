-- ===== src/Base/Bits.antt =====
-- Bitwise "and" and the complement at variables, from the digit recursion of the native operation.
use Prim.Native.Nat.{bit_and, digits, bit_and-bitwise}
use native.Mathlib.Nat.{pow-suc}
use perf_libs_fft.Base.{
  ℕ, zero, suc, ◌+◌, ◌-◌, ◌*◌, ◌/◌, ◌%◌, ◌^◌, ◌≤◌, ◌<◌, min, ◌≡◌, refl, sym, ap, ◌∙◌, ◌↔◌, arith,
}

-- What `bit_and` stands for: halving both numbers, for as many rounds as there is fuel.
abbrev halvings : ℕ → ℕ → ℕ → ℕ
halvings rounds x y = digits (λ y. zero) min rounds x y

no_digits : (rounds y : ℕ) → halvings rounds 0 y ≡ 0
no_digits zero y = refl
no_digits (suc rounds) y = refl

-- A number is used up within as many rounds as it counts.
spare_rounds :
    (rounds spare x y : ℕ) → x ≤ rounds → halvings (rounds + spare) x y ≡ halvings rounds x y
spare_rounds rounds spare zero y h = no_digits (rounds + spare) y ∙ sym (no_digits rounds y)
spare_rounds zero spare (suc x) y h = absurd (omega (arith, h))
spare_rounds (suc rounds) spare (suc x) y h =
    let longer : suc rounds + spare ≡ suc (rounds + spare) = omega arith in
    ap (λ r. halvings r (suc x) y) longer
    ∙ ap (λ d. d * 2 + min (suc x % 2) (y % 2))
        (spare_rounds rounds spare (suc x / 2) (y / 2) (omega (arith, h)))

all_rounds : (rounds x y : ℕ) → x ≤ rounds → halvings rounds x y ≡ bit_and x y
all_rounds rounds x y h =
    let spare : x + (rounds - x) ≡ rounds = omega (arith, h) in
    ap (λ r. halvings r x y) (sym spare)
    ∙ spare_rounds x (rounds - x) x y (omega arith)
    ∙ sym (bit_and-bitwise x y)

none-bit_and : (y : ℕ) → bit_and 0 y ≡ 0
none-bit_and y = bit_and-bitwise 0 y ∙ no_digits 0 y

pub bit_and_step : (x y : ℕ) → bit_and x y ≡ bit_and (x / 2) (y / 2) * 2 + min (x % 2) (y % 2)
bit_and_step zero y =
    none-bit_and y ∙ sym (ap (λ d. d * 2) (none-bit_and (y / 2)) ∙ refl) ∙ (omega arith)
bit_and_step (suc x) y =
    bit_and-bitwise (suc x) y
    ∙ ap (λ d. d * 2 + min (suc x % 2) (y % 2)) (all_rounds x (suc x / 2) (y / 2) (omega arith))

nothing_below : (n x : ℕ) → x ≤ n → bit_and x 0 ≡ 0
nothing_below zero x h = let e : x ≡ 0 = omega (arith, h) in rw e (none-bit_and 0)
nothing_below (suc n) x h =
    let rest = nothing_below n (x / 2) (omega (arith, h)) in omega (arith, bit_and_step x 0, rest)

-- Halving an "and" halves its arguments, and its last digit is that of both.
bit_and-half :
    (a b : ℕ)
    → (bit_and a b / 2 ≡ bit_and (a / 2) (b / 2)) × (bit_and a b % 2 ≡ min (a % 2) (b % 2))
bit_and-half a b = (omega (arith, bit_and_step a b), omega (arith, bit_and_step a b))

comm_below : (n a b : ℕ) → a + b ≤ n → bit_and a b ≡ bit_and b a
comm_below zero a b h = let p : a ≡ 0 = omega arith in let q : b ≡ 0 = omega arith in rw (p, q)
comm_below (suc n) zero b h = omega (arith, none-bit_and b, nothing_below b b (omega arith))
comm_below (suc n) (suc a) b h = omega (
  arith,
  bit_and_step (suc a) b,
  bit_and_step b (suc a),
  comm_below n (suc a / 2) (b / 2) (omega arith),
)

pub bit_and_comm : (a b : ℕ) → bit_and a b ≡ bit_and b a
bit_and_comm a b = comm_below (a + b) a b (omega arith)

idem_below : (n a : ℕ) → a ≤ n → bit_and a a ≡ a
idem_below n zero h = refl
idem_below zero (suc a) h = absurd (omega arith)
idem_below (suc n) (suc a) h =
    omega (arith, bit_and_step (suc a) (suc a), idem_below n (suc a / 2) (omega arith))

pub bit_and_self : (a : ℕ) → bit_and a a ≡ a
bit_and_self a = idem_below a a (omega arith)

assoc_below : (n a b c : ℕ) → a ≤ n → bit_and (bit_and a b) c ≡ bit_and a (bit_and b c)
assoc_below n zero b c h = rw (none-bit_and b, none-bit_and c, none-bit_and (bit_and b c))
assoc_below zero (suc a) b c h = absurd (omega arith)
assoc_below (suc n) (suc a) b c h =
    let ih = assoc_below n (suc a / 2) (b / 2) (c / 2) (omega arith) in
    let (l, l') = bit_and-half (suc a) b in
    let (r, r') = bit_and-half b c in
    bit_and_step (bit_and (suc a) b) c
    ∙ (rw (l, l', ih)
        (omega (arith, r', bit_and_step (suc a) (bit_and b c), ap (bit_and (suc a / 2)) r)))

pub bit_and_assoc : (a b c : ℕ) → bit_and (bit_and a b) c ≡ bit_and a (bit_and b c)
bit_and_assoc a b c = assoc_below a a b c (omega arith)

-- `y` lies in an "and" exactly when it lies in both sides.
pub within_left : (a b y : ℕ) → bit_and (bit_and a b) y ≡ y → bit_and a y ≡ y
within_left a b y h =
    ap (bit_and a) (sym h)
    ∙ sym (bit_and_assoc a (bit_and a b) y)
    ∙ ap (λ m. bit_and m y) (sym (bit_and_assoc a a b) ∙ ap (λ m. bit_and m b) (bit_and_self a))
    ∙ h

pub within_right : (a b y : ℕ) → bit_and (bit_and a b) y ≡ y → bit_and b y ≡ y
within_right a b y h = within_left b a y (ap (λ m. bit_and m y) (bit_and_comm b a) ∙ h)

pub within_both : (a b y : ℕ) → bit_and a y ≡ y → bit_and b y ≡ y → bit_and (bit_and a b) y ≡ y
within_both a b y h k = bit_and_assoc a b y ∙ ap (bit_and a) k ∙ h

-- The complement of `x` in `w` bits.
abbrev pub complement : ℕ → ℕ → ℕ
complement w x = 2 ^ w - 1 - x

complement_half :
    (w x : ℕ)
    → x < 2 ^ suc w
    → (complement (suc w) x / 2 ≡ complement w (x / 2)) × (complement (suc w) x % 2 + x % 2 ≡ 1)
complement_half w x h =
    (omega (arith, pow-suc 2 w, pow-suc 2 w), omega (arith, pow-suc 2 w, pow-suc 2 w))

-- Under `w` bits, `y` lies in the complement of `x` exactly when it keeps clear of `x`.
pub bit_and-complement :
    (w x y : ℕ) → x < 2 ^ w → y < 2 ^ w → (bit_and (complement w x) y ≡ y) ↔ (bit_and y x ≡ 0)
bit_and-complement zero x y hx hy =
    let p : x ≡ 0 = omega arith in
    let q : y ≡ 0 = omega arith in rw (p, q) ((λ _. refl), (λ _. refl))
bit_and-complement (suc w) x y hx hy =
    let (half, low) = complement_half w x hx in
    let ih =
      bit_and-complement w (x / 2) (y / 2) (omega (arith, pow-suc 2 w))
        (omega (arith, pow-suc 2 w)) in
    let left : bit_and (complement (suc w) x) y
        ≡ bit_and (complement w (x / 2)) (y / 2) * 2 + min (complement (suc w) x % 2) (y % 2) =
      rw (← half) (bit_and_step (complement (suc w) x) y) in
    let right = bit_and_step y x in
    (
      λ h. (let below = ih.0 (omega arith) in omega arith),
      λ h. (let below = ih.1 (omega arith) in omega arith),
    )
