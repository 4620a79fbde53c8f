-- ===== src/Crc/Bounds.antt =====
-- The checksums of src/crc.c and src/trailer.c fit their `uint32_t`.
use Prim.Native.Nat.{digits, differ, bit_xor-bitwise}
use librle.Prelude.{
  ℕ, zero, suc, ◌*◌, ◌/◌, ◌%◌, ◌^◌, ◌<◌, ◌≡◌, refl, bit_xor, List, [], ◌∷◌, get_or, ltb, arith,
  Bool, true, ◌&&◌, subst, sym,
}
use librle.Crc.Table.{crctab}
use librle.Crc.{compute_crc, compute_crc32, crc_step}

pub differ-lt : (x y : ℕ) → x < 2 → y < 2 → differ x y < 2
differ-lt zero y hx hy = hy
differ-lt (suc x) zero hx hy = hx
differ-lt (suc x) (suc y) hx hy = differ-lt x y (omega arith) (omega arith)

pow_suc : (k : ℕ) → 2 ^ suc k ≡ 2 ^ k * 2
pow_suc k = omega arith

-- The digits of two numbers of `k` digits are `k` digits.
digits-lt : (k n a b : ℕ) → a < 2 ^ k → b < 2 ^ k → digits (λ b. b) differ n a b < 2 ^ k
digits-lt k zero a b ha hb = hb
digits-lt k (suc n) zero b ha hb = hb
digits-lt zero (suc n) (suc a) b ha hb = absurd (omega arith)
digits-lt (suc k) (suc n) (suc a) b ha hb = omega (
  arith,
  pow_suc k,
  digits-lt k n (suc a / 2) (b / 2) (omega (arith, pow_suc k)) (omega (arith, pow_suc k)),
  differ-lt (suc a % 2) (b % 2) (omega arith) (omega arith),
)

pub bit_xor-lt : (k a b : ℕ) → a < 2 ^ k → b < 2 ^ k → bit_xor a b < 2 ^ k
bit_xor-lt k a b ha hb =
    subst (λ n. n < 2 ^ k) (sym (bit_xor-bitwise a b)) (digits-lt k a a b ha hb)

unfoldable pub all_lt : ℕ → List ℕ → Bool
all_lt bound [] = true
all_lt bound (x ∷ xs) = ltb x bound && all_lt bound xs

get_or-lt :
    (bound : ℕ) (xs : List ℕ) (i : ℕ) → 0 < bound → all_lt bound xs ≡ true → get_or xs i 0 < bound
unfolding all_lt
get_or-lt bound [] i pos h = pos
get_or-lt bound (x ∷ xs) zero pos h = ground arith
get_or-lt bound (x ∷ xs) (suc i) pos h = get_or-lt bound xs i pos (ground arith)

crctab-lt : (i : ℕ) → get_or crctab i 0 < 2 ^ 32
unfolding crctab all_lt
crctab-lt i = get_or-lt (2 ^ 32) crctab i (omega arith) refl

pub crc_step-lt : (crc byte : ℕ) → crc_step crc byte < 2 ^ 32
unfolding crc_step
crc_step-lt crc byte =
    bit_xor-lt 32 (crc * 256 % 2 ^ 32) _ (omega arith) (crctab-lt (bit_xor (crc / 2 ^ 24) byte))

-- A CRC that starts as a 32-bit number is one.
pub compute_crc-lt : (bytes : List ℕ) (crc : ℕ) → crc < 2 ^ 32 → compute_crc bytes crc < 2 ^ 32
unfolding compute_crc
compute_crc-lt [] crc h = h
compute_crc-lt (x ∷ xs) crc h = compute_crc-lt xs (crc_step crc x) (crc_step-lt crc x)

-- The CRC of an SDU, of any protocol type, fits 32 bits.
pub compute_crc32-lt : (ptype : ℕ) (sdu : List ℕ) → compute_crc32 ptype sdu < 2 ^ 32
unfolding compute_crc32
compute_crc32-lt ptype sdu =
    compute_crc-lt sdu _
      (compute_crc-lt (ptype % 256 ∷ ptype / 256 % 256 ∷ []) 0xffff_ffff (omega arith))
