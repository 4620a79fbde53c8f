-- ===== src/Crc/Laws.antt =====
-- The table of src/crc.c against the shift register that it stands for.
use librle.Prelude.{
  ℕ, zero, suc, ◌*◌, ◌/◌, ◌%◌, ◌^◌, ◌<◌, ◌≡◌, refl, bit_xor, ◌==◌, eq_of_==, get_or,
}
use librle.Prelude.Tables.{passes, passes-at}
use librle.Crc.Table.{crctab}

-- One step of the register of the generator polynomial 0x04c11db7, high bit first.
abbrev pub shift_once : ℕ → ℕ
shift_once r = bit_xor (r * 2 % 2 ^ 32) (r / 2 ^ 31 * 0x04c11db7)

abbrev pub shifts : ℕ → ℕ → ℕ
shifts zero r = r
shifts (suc n) r = shifts n (shift_once r)

-- Every entry of the table is what eight steps of the shift register of 0x04c11db7 make of the
-- entry's index in the high byte.
pub crctab-shifts : (i : ℕ) → i < 256 → get_or crctab i 0 ≡ shifts 8 (i * 2 ^ 24)
unfolding crctab passes
crctab-shifts i h =
    eq_of_== _ _ (passes-at 256 (λ k. get_or crctab k 0 == shifts 8 (k * 2 ^ 24)) i refl h)
