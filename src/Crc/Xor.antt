-- ===== src/Crc/Xor.antt =====
-- The exclusive or of the words of src/crc.c, digit by digit.
use Prim.Native.Nat.{digits, differ, bit_xor-bitwise}
use librle.Prelude.{
  ℕ, zero, suc, ◌+◌, ◌*◌, ◌/◌, ◌%◌, ◌^◌, ◌<◌, ◌≤◌, ◌≡◌, refl, bit_xor, arith, ap, ◌∙◌, sym,
}
use librle.Crc.Bounds.{differ-lt}

abbrev xor_digits : ℕ → ℕ → ℕ → ℕ
xor_digits n a b = digits (λ b. b) differ n a b

-- More digits than the first number has change nothing.
xor_digits_fuel : (n m a b : ℕ) → a ≤ n → a ≤ m → xor_digits n a b ≡ xor_digits m a b
xor_digits_fuel zero zero a b p q = refl
xor_digits_fuel zero (suc m) zero b p q = refl
xor_digits_fuel zero (suc m) (suc a) b p q = absurd (omega arith)
xor_digits_fuel (suc n) zero zero b p q = refl
xor_digits_fuel (suc n) zero (suc a) b p q = absurd (omega arith)
xor_digits_fuel (suc n) (suc m) zero b p q = refl
xor_digits_fuel (suc n) (suc m) (suc a) b p q =
    omega (arith, xor_digits_fuel n m (suc a / 2) (b / 2) (omega arith) (omega arith))

pub zero-bit_xor : (b : ℕ) → bit_xor 0 b ≡ b
zero-bit_xor b = bit_xor-bitwise 0 b

pub bit_xor_step : (a b : ℕ) → bit_xor a b ≡ bit_xor (a / 2) (b / 2) * 2 + differ (a % 2) (b % 2)
bit_xor_step zero b = omega (arith, zero-bit_xor b, zero-bit_xor (b / 2))
bit_xor_step (suc a) b = omega (
  arith,
  bit_xor-bitwise (suc a) b,
  bit_xor-bitwise (suc a / 2) (b / 2),
  xor_digits_fuel a (suc a / 2) (suc a / 2) (b / 2) (omega arith) (omega arith),
)

differ-zero : (x : ℕ) → differ x 0 ≡ x
differ-zero zero = refl
differ-zero (suc x) = refl

bit_xor-zero_fuel : (n a : ℕ) → a ≤ n → bit_xor a 0 ≡ a
bit_xor-zero_fuel n zero h = zero-bit_xor 0
bit_xor-zero_fuel zero (suc a) h = absurd (omega arith)
bit_xor-zero_fuel (suc n) (suc a) h = omega (
  arith,
  bit_xor_step (suc a) 0,
  bit_xor-zero_fuel n (suc a / 2) (omega arith),
  differ-zero (suc a % 2),
)

pub bit_xor-zero : (a : ℕ) → bit_xor a 0 ≡ a
bit_xor-zero a = bit_xor-zero_fuel a a (omega arith)

differ_comm : (x y : ℕ) → differ x y ≡ differ y x
differ_comm zero y = sym (differ-zero y)
differ_comm (suc x) zero = refl
differ_comm (suc x) (suc y) = differ_comm x y

bit_xor_comm_fuel : (n a b : ℕ) → a ≤ n → bit_xor a b ≡ bit_xor b a
bit_xor_comm_fuel n zero b h = zero-bit_xor b ∙ sym (bit_xor-zero b)
bit_xor_comm_fuel zero (suc a) b h = absurd (omega arith)
bit_xor_comm_fuel (suc n) (suc a) b h = omega (
  arith,
  bit_xor_step (suc a) b,
  bit_xor_step b (suc a),
  bit_xor_comm_fuel n (suc a / 2) (b / 2) (omega arith),
  differ_comm (suc a % 2) (b % 2),
)

pub bit_xor_comm : (a b : ℕ) → bit_xor a b ≡ bit_xor b a
bit_xor_comm a b = bit_xor_comm_fuel a a b (omega arith)

-- Below 2, `differ` is associative.
differ_assoc : (x y z : ℕ) → x < 2 → y < 2 → z < 2 → differ (differ x y) z ≡ differ x (differ y z)
differ_assoc zero y z hx hy hz = refl
differ_assoc (suc zero) zero z hx hy hz = refl
differ_assoc (suc zero) (suc zero) zero hx hy hz = refl
differ_assoc (suc zero) (suc zero) (suc zero) hx hy hz = refl
differ_assoc (suc (suc x)) y z hx hy hz = absurd (omega arith)
differ_assoc (suc zero) (suc (suc y)) z hx hy hz = absurd (omega arith)
differ_assoc (suc zero) (suc zero) (suc (suc z)) hx hy hz = absurd (omega arith)

pub bit_xor_half : (a b : ℕ) → bit_xor a b / 2 ≡ bit_xor (a / 2) (b / 2)
bit_xor_half a b =
    omega (arith, bit_xor_step a b, differ-lt (a % 2) (b % 2) (omega arith) (omega arith))

pub bit_xor_low : (a b : ℕ) → bit_xor a b % 2 ≡ differ (a % 2) (b % 2)
bit_xor_low a b =
    omega (arith, bit_xor_step a b, differ-lt (a % 2) (b % 2) (omega arith) (omega arith))

bit_xor_assoc_fuel : (n a b c : ℕ) → a ≤ n → bit_xor (bit_xor a b) c ≡ bit_xor a (bit_xor b c)
bit_xor_assoc_fuel n zero b c h =
    ap (λ x. bit_xor x c) (zero-bit_xor b) ∙ sym (zero-bit_xor (bit_xor b c))
bit_xor_assoc_fuel zero (suc a) b c h = absurd (omega arith)
bit_xor_assoc_fuel (suc n) (suc a) b c h = omega (
  arith,
  bit_xor_step (bit_xor (suc a) b) c,
  bit_xor_step (suc a) (bit_xor b c),
  ap (λ x. bit_xor x (c / 2)) (bit_xor_half (suc a) b),
  ap (λ x. bit_xor (suc a / 2) x) (bit_xor_half b c),
  bit_xor_assoc_fuel n (suc a / 2) (b / 2) (c / 2) (omega arith),
  ap (λ x. differ x (c % 2)) (bit_xor_low (suc a) b),
  ap (λ x. differ (suc a % 2) x) (bit_xor_low b c),
  differ_assoc (suc a % 2) (b % 2) (c % 2) (omega arith) (omega arith) (omega arith),
)

pub bit_xor_assoc : (a b c : ℕ) → bit_xor (bit_xor a b) c ≡ bit_xor a (bit_xor b c)
bit_xor_assoc a b c = bit_xor_assoc_fuel a a b c (omega arith)

-- Two pairs, paired the other way.
pub bit_xor_pairs :
    (a b c d : ℕ) → bit_xor (bit_xor a b) (bit_xor c d) ≡ bit_xor (bit_xor a c) (bit_xor b d)
bit_xor_pairs a b c d =
    bit_xor_assoc a b (bit_xor c d)
    ∙ ap (λ x. bit_xor a x)
        (sym (bit_xor_assoc b c d) ∙ ap (λ x. bit_xor x d) (bit_xor_comm b c) ∙ bit_xor_assoc c b d)
    ∙ sym (bit_xor_assoc a c (bit_xor b d))

pub double_power : (k h : ℕ) → h * 2 ^ suc k ≡ h * 2 ^ k * 2
double_power k h = grind arith

-- High digits and the `k` low ones are taken apart.
pub bit_xor_split :
    (k h g x y : ℕ)
    → x < 2 ^ k
    → y < 2 ^ k
    → bit_xor (h * 2 ^ k + x) (g * 2 ^ k + y) ≡ bit_xor h g * 2 ^ k + bit_xor x y
bit_xor_split zero h g zero zero hx hy =
    let same : (n : ℕ) → n * 2 ^ 0 + 0 ≡ n = λ n. omega arith in
    ap (λ n. bit_xor n (g * 2 ^ 0 + 0)) (same h)
    ∙ ap (λ n. bit_xor h n) (same g)
    ∙ sym (same (bit_xor h g))
bit_xor_split zero h g (suc x) y hx hy = absurd (omega arith)
bit_xor_split zero h g zero (suc y) hx hy = absurd (omega arith)
bit_xor_split (suc k) h g x y hx hy = omega (
  arith,
  bit_xor_step (h * 2 ^ suc k + x) (g * 2 ^ suc k + y),
  (let e : (h * 2 ^ suc k + x) / 2 ≡ h * 2 ^ k + x / 2 = omega (arith, double_power k h) in
      ap (λ n. bit_xor n ((g * 2 ^ suc k + y) / 2)) e),
  (let e : (g * 2 ^ suc k + y) / 2 ≡ g * 2 ^ k + y / 2 = omega (arith, double_power k g) in
      ap (λ n. bit_xor (h * 2 ^ k + x / 2) n) e),
  bit_xor_split k h g (x / 2) (y / 2) (omega arith) (omega arith),
  double_power k (bit_xor h g),
  bit_xor_step x y,
  (let e : (h * 2 ^ suc k + x) % 2 ≡ x % 2 = omega (arith, double_power k h) in
      ap (λ n. differ n ((g * 2 ^ suc k + y) % 2)) e),
  (let e : (g * 2 ^ suc k + y) % 2 ≡ y % 2 = omega (arith, double_power k g) in
      ap (λ n. differ (x % 2) n) e),
)
