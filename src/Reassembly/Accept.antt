-- ===== src/Reassembly/Accept.antt =====
-- The START PPDUs that `reassembly_start_ppdu` (src/reassembly.c) accepts.
use librle.Prelude.{ℕ, ◌+◌, ◌-◌, ◌≤◌, ◌<◌, ◌≡◌, ◌^◌, Bool, none, some, leb, if◌then◌else◌, arith}
use librle.Extract.{Extracted}
use librle.RasmBuf.{RasmBuf, rasm_buf_init, rasm_sdu_put, rasm_ptrs_set, rasm_ptrs_put}
use librle.Reassembly.{start_sizes, start_buffer}

-- When the total length is below 4096 and holds the ALPDU header, and the fragment is below 4096
-- bytes, the size checks pass exactly if header, fragment and trailer fit the total length, and
-- give what is left of it for the SDU.
pub start_sizes-accepts :
    (total hdr frag : ℕ) (crc : Bool)
    → total < 4096
    → hdr ≤ total
    → frag < 4096
    → let trailer : ℕ = if crc then 4 else 1 in
      (start_sizes total hdr frag crc).sdu_total_len
      ≡ (if leb (hdr + frag + trailer) total then some (total - hdr - trailer) else none)
unfolding start_sizes
start_sizes-accepts total hdr frag crc small inside short = ground arith

-- When the total length is smaller than the ALPDU header, which is at most 3 bytes, and the
-- fragment is no longer than the total length, the size checks pass all the same, with some length
-- for the SDU for which the set-up of the buffer then fails an assertion.
pub start_buffer-faults :
    (b : RasmBuf) (e : Extracted) (total : ℕ) (crc : Bool)
    → e.alpdu_hdr_len ≤ 3
    → total < e.alpdu_hdr_len
    → e.sdu_frag_len ≤ total
    → (n : ℕ) × ((start_sizes total e.alpdu_hdr_len e.sdu_frag_len crc).sdu_total_len ≡ some n)
      × (start_buffer b e n ≡ none)
unfolding start_sizes start_buffer rasm_buf_init rasm_sdu_put rasm_ptrs_set rasm_ptrs_put
start_buffer-faults b e total crc small less frag =
    (2 ^ 64 + total - e.alpdu_hdr_len - (if crc then 4 else 1), ground arith, ground arith)
