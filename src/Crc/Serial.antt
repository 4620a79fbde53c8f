-- ===== src/Crc/Serial.antt =====
-- `compute_crc` and `compute_crc32` against the shift register that takes a byte at a time and no
-- table.
use librle.Prelude.{
  ℕ, zero, suc, ◌+◌, ◌*◌, ◌/◌, ◌%◌, ◌^◌, ◌<◌, ◌≤◌, ◌≡◌, true, List, [], ◌∷◌, refl, bit_xor, arith,
  ap, ◌∙◌, sym, get_or,
}
use librle.Crc.Table.{crctab}
use librle.Crc.{crc_step, compute_crc, compute_crc32}
use librle.Crc.Bounds.{bit_xor-lt, all_lt, crc_step-lt}
use librle.Crc.Xor.{
  bit_xor_comm, bit_xor-zero, zero-bit_xor, bit_xor_pairs, bit_xor_split, double_power,
}
use librle.Crc.Laws.{shift_once, shifts, crctab-shifts}

-- The register takes each byte into its high bits and shifts eight times.
unfoldable pub serial : List ℕ → ℕ → ℕ
serial [] r = r
serial (byte ∷ bytes) r = serial bytes (shifts 8 (bit_xor r (byte * 2 ^ 24)))

-- The high bit of each number and the other 31.
by_top :
    (a b : ℕ)
    → bit_xor a b ≡ bit_xor (a / 2 ^ 31) (b / 2 ^ 31) * 2 ^ 31 + bit_xor (a % 2 ^ 31) (b % 2 ^ 31)
by_top a b =
    let e : (n : ℕ) → n ≡ n / 2 ^ 31 * 2 ^ 31 + n % 2 ^ 31 = λ n. omega arith in
    ap (λ n. bit_xor n b) (e a)
    ∙ ap (λ n. bit_xor (a / 2 ^ 31 * 2 ^ 31 + a % 2 ^ 31) n) (e b)
    ∙ bit_xor_split 31 (a / 2 ^ 31) (b / 2 ^ 31) (a % 2 ^ 31) (b % 2 ^ 31) (omega arith)
        (omega arith)

top-bit_xor : (a b : ℕ) → bit_xor a b / 2 ^ 31 ≡ bit_xor (a / 2 ^ 31) (b / 2 ^ 31)
top-bit_xor a b =
    omega (arith, by_top a b, bit_xor-lt 31 (a % 2 ^ 31) (b % 2 ^ 31) (omega arith) (omega arith))

double-bit_xor : (a b : ℕ) → bit_xor a b * 2 % 2 ^ 32 ≡ bit_xor (a * 2 % 2 ^ 32) (b * 2 % 2 ^ 32)
double-bit_xor a b =
    let e : (n : ℕ) → n * 2 % 2 ^ 32 ≡ n % 2 ^ 31 * 2 ^ 1 + 0 = λ n. omega arith in
    omega (
      arith,
      by_top a b,
      bit_xor-lt 31 (a % 2 ^ 31) (b % 2 ^ 31) (omega arith) (omega arith),
      ap (λ n. bit_xor n (b * 2 % 2 ^ 32)) (e a)
          ∙ ap (λ n. bit_xor (a % 2 ^ 31 * 2 ^ 1 + 0) n) (e b)
          ∙ bit_xor_split 1 (a % 2 ^ 31) (b % 2 ^ 31) 0 0 (omega arith) (omega arith),
    )

feedback-bit_xor :
    (p q : ℕ) → p < 2 → q < 2 → bit_xor p q * 0x04c11db7 ≡ bit_xor (p * 0x04c11db7) (q * 0x04c11db7)
feedback-bit_xor zero zero hp hq = refl
feedback-bit_xor zero (suc zero) hp hq = refl
feedback-bit_xor (suc zero) zero hp hq = refl
feedback-bit_xor (suc zero) (suc zero) hp hq = refl
feedback-bit_xor (suc (suc p)) q hp hq = absurd (omega arith)
feedback-bit_xor zero (suc (suc q)) hp hq = absurd (omega arith)
feedback-bit_xor (suc zero) (suc (suc q)) hp hq = absurd (omega arith)

-- A step of the register is linear.
shift_once-bit_xor :
    (a b : ℕ)
    → a < 2 ^ 32
    → b < 2 ^ 32
    → shift_once (bit_xor a b) ≡ bit_xor (shift_once a) (shift_once b)
shift_once-bit_xor a b ha hb =
    ap (λ n. bit_xor n (bit_xor a b / 2 ^ 31 * 0x04c11db7)) (double-bit_xor a b)
    ∙ ap (λ n. bit_xor (bit_xor (a * 2 % 2 ^ 32) (b * 2 % 2 ^ 32)) n)
        (ap (λ n. n * 0x04c11db7) (top-bit_xor a b)
          ∙ feedback-bit_xor (a / 2 ^ 31) (b / 2 ^ 31) (omega arith) (omega arith))
    ∙ bit_xor_pairs (a * 2 % 2 ^ 32) (b * 2 % 2 ^ 32) (a / 2 ^ 31 * 0x04c11db7)
        (b / 2 ^ 31 * 0x04c11db7)

shift_once-lt : (r : ℕ) → r < 2 ^ 32 → shift_once r < 2 ^ 32
shift_once-lt r h =
    bit_xor-lt 32 (r * 2 % 2 ^ 32) (r / 2 ^ 31 * 0x04c11db7) (omega arith) (omega arith)

shifts-bit_xor :
    (n a b : ℕ)
    → a < 2 ^ 32
    → b < 2 ^ 32
    → shifts n (bit_xor a b) ≡ bit_xor (shifts n a) (shifts n b)
shifts-bit_xor zero a b ha hb = refl
shifts-bit_xor (suc n) a b ha hb =
    ap (λ r. shifts n r) (shift_once-bit_xor a b ha hb)
    ∙ shifts-bit_xor n (shift_once a) (shift_once b) (shift_once-lt a ha) (shift_once-lt b hb)

-- Without its high bit, the register is only doubled.
shift_once_low : (r : ℕ) → r < 2 ^ 31 → shift_once r ≡ r * 2
shift_once_low r h =
    ap (λ n. bit_xor (r * 2 % 2 ^ 32) n) (let e : r / 2 ^ 31 * 0x04c11db7 ≡ 0 = omega arith in e)
    ∙ bit_xor-zero (r * 2 % 2 ^ 32)
    ∙ omega arith

at_least : (n r : ℕ) → r ≤ r * 2 ^ n
at_least zero r = omega arith
at_least (suc n) r = omega (arith, at_least n r, double_power n r)

doubled : (n r : ℕ) → r * 2 * 2 ^ n ≡ r * 2 ^ suc n
doubled n r = grind (arith, double_power n r)

shifts_low : (n r : ℕ) → r * 2 ^ n < 2 ^ 32 → shifts n r ≡ r * 2 ^ n
shifts_low zero r h = omega arith
shifts_low (suc n) r h =
    ap (λ x. shifts n x) (shift_once_low r (omega (arith, at_least n r, double_power n r)))
    ∙ shifts_low n (r * 2) (omega (arith, doubled n r))
    ∙ doubled n r

-- The byte meets the high bits, and the low ones stay.
taken_in :
    (crc byte : ℕ)
    → bit_xor crc (byte * 2 ^ 24) ≡ bit_xor (bit_xor (crc / 2 ^ 24) byte * 2 ^ 24) (crc % 2 ^ 24)
taken_in crc byte =
    let high = crc / 2 ^ 24 in
    let low = crc % 2 ^ 24 in
    let index = bit_xor high byte in
    let split : bit_xor crc (byte * 2 ^ 24) ≡ index * 2 ^ 24 + low =
      ap (λ n. bit_xor n (byte * 2 ^ 24)) (let e : crc ≡ high * 2 ^ 24 + low = omega arith in e)
      ∙ ap (λ n. bit_xor (high * 2 ^ 24 + low) n)
          (let e : byte * 2 ^ 24 ≡ byte * 2 ^ 24 + 0 = omega arith in e)
      ∙ bit_xor_split 24 high byte low 0 (omega arith) (omega arith)
      ∙ ap (λ n. index * 2 ^ 24 + n) (bit_xor-zero low) in
    let joined : bit_xor (index * 2 ^ 24) low ≡ index * 2 ^ 24 + low =
      ap (λ n. bit_xor n low) (let e : index * 2 ^ 24 ≡ index * 2 ^ 24 + 0 = omega arith in e)
      ∙ ap (λ n. bit_xor (index * 2 ^ 24 + 0) n) (let e : low ≡ 0 * 2 ^ 24 + low = omega arith in e)
      ∙ bit_xor_split 24 index 0 0 low (omega arith) (omega arith)
      ∙ omega (arith, bit_xor-zero index, zero-bit_xor low) in
    split ∙ sym joined

-- The step of `compute_crc` is eight steps of the register.
crc_step-shifts :
    (crc byte : ℕ)
    → crc < 2 ^ 32
    → byte < 256
    → crc_step crc byte ≡ shifts 8 (bit_xor crc (byte * 2 ^ 24))
unfolding crc_step
crc_step-shifts crc byte hc hb =
    let high = crc / 2 ^ 24 in
    let low = crc % 2 ^ 24 in
    let index = bit_xor high byte in
    let small : index < 256 = bit_xor-lt 8 high byte (omega arith) hb in
    ap (λ n. bit_xor n (get_or crctab index 0))
      (let e : crc * 256 % 2 ^ 32 ≡ low * 2 ^ 8 = omega arith in
        e ∙ sym (shifts_low 8 low (omega arith)))
    ∙ ap (λ n. bit_xor (shifts 8 low) n) (crctab-shifts index small)
    ∙ bit_xor_comm (shifts 8 low) (shifts 8 (index * 2 ^ 24))
    ∙ sym (shifts-bit_xor 8 (index * 2 ^ 24) low (omega arith) (omega arith))
    ∙ ap (λ r. shifts 8 r) (sym (taken_in crc byte))

compute_crc-serial :
    (bytes : List ℕ) (crc : ℕ)
    → all_lt 256 bytes ≡ true
    → crc < 2 ^ 32
    → compute_crc bytes crc ≡ serial bytes crc
unfolding compute_crc all_lt serial
compute_crc-serial [] crc ok h = refl
compute_crc-serial (x ∷ xs) crc ok h =
    compute_crc-serial xs (crc_step crc x) (ground arith) (crc_step-lt crc x)
    ∙ ap (λ r. serial xs r) (crc_step-shifts crc x h (ground arith))

-- For an SDU of bytes, `compute_crc32` is what the shift register of 0x04c11db7, high bit first and
-- set to 0xffffffff, makes without a table, one bit at a time, of the two bytes of the protocol
-- type, low byte first, and of the SDU.
pub compute_crc32-serial :
    (protocol_type : ℕ) (sdu : List ℕ)
    → all_lt 256 sdu ≡ true
    → compute_crc32 protocol_type sdu
      ≡ serial (protocol_type % 256 ∷ protocol_type / 256 % 256 ∷ sdu) 0xffff_ffff
unfolding compute_crc32 all_lt
compute_crc32-serial protocol_type sdu ok =
    compute_crc-serial (protocol_type % 256 ∷ protocol_type / 256 % 256 ∷ sdu) 0xffff_ffff
      (ground arith) (omega arith)
