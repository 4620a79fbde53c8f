-- ===== src/FragBuf/Dumps.antt =====
-- The dump functions of src/fragmentation_buffer.h, as far as the `int` that they return. An `int`
-- is its 32 bits.
use librle.Prelude.{
  ℕ, ◌+◌, ◌-◌, ◌^◌, ◌%◌, ◌≤◌, ◌≡◌, ◌==◌, Bool, ltb, if◌then◌else◌, Bool-cases, arith, true, false,
  inl, inr,
}
use librle.Prelude.Int.{sub_size}
use librle.FragBuf.{FragBuf, f_buff_len, in_use}
use librle.FragBuf.Wf.{IsValid}

abbrev pub minus_one : ℕ
minus_one = 2 ^ 32 - 1

-- `frag_buf_dump_mem`: the distance between the pointers, on every path.
unfoldable pub dump_mem : FragBuf → ℕ → ℕ → ℕ
dump_mem b start end = sub_size end start % 2 ^ 32

-- What the dump functions answer where `dump_mem` returned `ret`.
unfoldable pub dump_status : Bool → ℕ → ℕ
dump_status used ret = if used then (if ret == minus_one then 0 else minus_one) else minus_one

-- `frag_buf_dump_ppdu_header`
unfoldable pub dump_ppdu_header : FragBuf → ℕ
dump_ppdu_header b =
    let end : ℕ = if ltb b.alpdu.start b.cur_pos then b.alpdu.start else b.cur_pos in
    dump_status (in_use b) (dump_mem b b.ppdu.start end)

-- `frag_buf_dump_alpdu_header`
unfoldable pub dump_alpdu_header : FragBuf → ℕ
dump_alpdu_header b = dump_status (in_use b) (dump_mem b b.alpdu.start b.sdu.start)

-- `frag_buf_dump_sdu`
unfoldable pub dump_sdu : FragBuf → ℕ
dump_sdu b = dump_status (in_use b) (dump_mem b b.sdu.start b.sdu.end)

-- `frag_buf_dump_alpdu_trailer`
unfoldable pub dump_alpdu_trailer : FragBuf → ℕ
dump_alpdu_trailer b = dump_status (in_use b) (dump_mem b b.sdu.end b.alpdu.end)

-- `frag_buf_dump_full_frag_buf`
unfoldable pub dump_full_frag_buf : FragBuf → ℕ
dump_full_frag_buf b = dump_status (in_use b) (dump_mem b 0 f_buff_len)

dump_forward :
    (b : FragBuf) (used : Bool) (start end : ℕ)
    → start ≤ end
    → end ≤ f_buff_len
    → dump_status used (dump_mem b start end) ≡ minus_one
unfolding dump_mem dump_status
dump_forward b used start end order inside = ground arith

dump_anywhere :
    (b : FragBuf) (start end : ℕ)
    → start ≤ f_buff_len
    → end ≤ f_buff_len
    → dump_status true (dump_mem b start end) ≡ (if start == end + 1 then 0 else minus_one)
unfolding dump_mem dump_status
dump_anywhere b start end first last = elim (Bool-cases (start == end + 1)) [
  | inl next ↦ ground arith
  | inr other ↦ ground arith
]

-- For a buffer in use with its pointers in order, and a PPDU that starts inside it or at its end,
-- the functions that dump the ALPDU header, the SDU, the trailer and the whole buffer always answer
-- -1, the answer of a failure. The one that dumps the PPDU header answers 0 exactly where that
-- header starts one byte behind the start of the ALPDU, and else -1.
pub dump-IsValid :
    (b : FragBuf)
    → IsValid b
    → b.ppdu.start ≤ f_buff_len
    → (dump_alpdu_header b ≡ minus_one)
      × (dump_sdu b ≡ minus_one)
      × (dump_alpdu_trailer b ≡ minus_one)
      × (dump_full_frag_buf b ≡ minus_one)
      × (dump_ppdu_header b ≡ (if b.ppdu.start == b.alpdu.start + 1 then 0 else minus_one))
unfolding dump_alpdu_header dump_sdu dump_alpdu_trailer dump_full_frag_buf dump_ppdu_header in_use
dump-IsValid b v p =
    let used : (b.sdu.start == b.sdu.end) ≡ false = ground (arith, v.used) in
    let first : (if ltb b.alpdu.start b.cur_pos then b.alpdu.start else b.cur_pos) ≡ b.alpdu.start =
      ground (arith, v.sent) in
    (
      dump_forward b (in_use b) b.alpdu.start b.sdu.start v.hdr
          (omega (arith, v.used, v.trailer, v.inside)),
      dump_forward b (in_use b) b.sdu.start b.sdu.end (omega (arith, v.used))
          (omega (arith, v.trailer, v.inside)),
      dump_forward b (in_use b) b.sdu.end b.alpdu.end v.trailer v.inside,
      dump_forward b (in_use b) 0 f_buff_len (omega arith) (omega arith),
      rw (used, first)
          (dump_anywhere b b.ppdu.start b.alpdu.start p
            (omega (arith, v.hdr, v.used, v.trailer, v.inside))),
    )
