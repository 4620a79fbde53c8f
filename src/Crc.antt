-- ===== src/Crc.antt =====
-- src/crc.c and `compute_crc32` of src/trailer.c.
pub mod Table
pub mod Laws
pub mod Bounds
pub mod Xor
pub mod Serial
use librle.Prelude.{ℕ, ◌*◌, ◌/◌, ◌%◌, ◌^◌, bit_xor, List, [], ◌∷◌, get_or}
use librle.Prelude.Memory.{Memory, slice}
use Table.{crctab}

-- COMPUTE(var, ch) on a `uint32_t`: `(var) << 8 ^ crctab[(var) >> 24 ^ (ch)]`.
unfoldable pub crc_step : ℕ → ℕ → ℕ
unfolding crctab
crc_step crc byte = bit_xor (crc * 256 % 2 ^ 32) (get_or crctab (bit_xor (crc / 2 ^ 24) byte) 0)

-- `compute_crc`
unfoldable pub compute_crc : List ℕ → ℕ → ℕ
compute_crc [] crc = crc
compute_crc (byte ∷ bytes) crc = compute_crc bytes (crc_step crc byte)

-- `compute_crc32`: RLE_CRC_INIT is 0xFFFFFFFF; the protocol type is read in the byte order of the
-- host, low byte first.
unfoldable pub compute_crc32 : ℕ → List ℕ → ℕ
unfolding compute_crc
compute_crc32 protocol_type sdu =
    compute_crc sdu (compute_crc (protocol_type % 256 ∷ protocol_type / 256 % 256 ∷ []) 0xffff_ffff)
