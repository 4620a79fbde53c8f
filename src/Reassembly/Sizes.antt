-- ===== src/Reassembly/Sizes.antt =====
-- The size checks of `reassembly_start_ppdu` (src/reassembly.c).
use librle.Prelude.{ℕ, Bool, true, false, ltb, if◌then◌else◌, Option, none, some}
use librle.Prelude.Int.{sub_size}

-- The total length of the SDU where the checks pass, and whether `rle_ctx_set_use_crc` is reached.
pub record StartSizes : Type 0 where
  pub sdu_total_len : Option ℕ
  pub use_crc_set : Bool

-- In `size_t` arithmetic: nothing compares the header with the total length before the subtraction.
unfoldable pub start_sizes : ℕ → ℕ → ℕ → Bool → StartSizes
start_sizes alpdu_total_len alpdu_hdr_len sdu_frag_len is_crc_used =
    let trailer_len : ℕ = if is_crc_used then 4 else 1 in
    let without_hdr = sub_size alpdu_total_len alpdu_hdr_len in
    let sdu_total_len = sub_size without_hdr trailer_len in
    if ltb alpdu_total_len sdu_frag_len
    then record { sdu_total_len = none; use_crc_set = false }
    else if ltb without_hdr trailer_len
    then record { sdu_total_len = none; use_crc_set = false }
    else if ltb sdu_total_len sdu_frag_len
    then record { sdu_total_len = none; use_crc_set = true }
    else record { sdu_total_len = some sdu_total_len; use_crc_set = true }
