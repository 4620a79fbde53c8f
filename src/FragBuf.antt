-- ===== src/FragBuf.antt =====
-- src/fragmentation_buffer.h and src/fragmentation_buffer.c. A pointer into `buffer` is its offset
-- from the start of the array. `none` is a failed `assert`, or an access outside the array.
pub mod Dumps
pub mod Wf
use librle.Prelude.{
  ℕ, suc, ◌+◌, ◌-◌, Bool, true, false, ◌||◌, not, ltb, leb, ◌==◌, if◌then◌else◌, Option, none, some,
  List, length, assert, ◌>>=◌, ◌>>◌, read_bytes,
}
use librle.Prelude.Int.{ℤ, pos, negsuc, sub_size}
use librle.Prelude.Memory.{Memory, zeroed, store, slice}
use librle.Constants.{max_pdu_size, max_ppdu_pl_size, Sdu}

-- RLE_F_BUFF_LEN: the sizes of `rle_ppdu_hdr_t`, `rle_alpdu_hdr_t` and `rle_alpdu_trailer_t` are
-- 4, 3 and 4.
abbrev pub f_buff_len : ℕ
f_buff_len = 4 + 3 + max_pdu_size + 4

-- `struct fragmentation_buffer_ptrs`
pub record Ptrs : Type 0 where
  pub start : ℕ
  pub end : ℕ

-- The use that the buffer makes of `struct rle_sdu`: `buffer` is an offset.
pub record SduInfo : Type 0 where
  pub buffer : ℕ
  pub protocol_type : ℕ
  pub size : ℕ

-- `struct rle_frag_buf`
pub record FragBuf : Type 0 where
  pub buffer : Memory
  pub cur_pos : ℕ
  pub sdu_info : SduInfo
  pub crc : ℕ
  pub sdu : Ptrs
  pub alpdu : Ptrs
  pub ppdu : Ptrs

-- A write of the bytes `xs` through a pointer, and a read of `n` bytes.
unfoldable pub write_at : FragBuf → ℕ → List ℕ → Option FragBuf
write_at b address xs = do
  assert (leb (address + length xs) f_buff_len)
  some (record b { buffer = store b.buffer address xs })

unfoldable pub read_at : FragBuf → ℕ → ℕ → Option (List ℕ)
read_at b address n = do assert (leb (address + n) f_buff_len); some (slice b.buffer address n)

-- `frag_buf_ptrs_set`
unfoldable pub ptrs_set : ℕ → Option Ptrs
ptrs_set address = do
  assert (ltb address f_buff_len)
  some (record { start = address; end = address })

-- `frag_buf_ptrs_push`; a negative size moves the start forward.
unfoldable pub ptrs_push : Ptrs → ℤ → Option Ptrs
ptrs_push p (pos n) = do assert (leb n p.start); some (record p { start = p.start - n })
ptrs_push p (negsuc n) = some (record p { start = p.start + suc n })

-- `frag_buf_ptrs_put`: the difference of pointers is cast to `size_t`.
unfoldable pub ptrs_put : Ptrs → ℕ → Option Ptrs
ptrs_put p size = do
  assert (leb size (sub_size f_buff_len p.end))
  some (record p { end = p.end + size })

-- `frag_buf_in_use`
unfoldable pub in_use : FragBuf → Bool
in_use b = not (b.sdu.start == b.sdu.end)

-- `frag_buf_set_cur_pos`
unfoldable pub set_cur_pos : FragBuf → FragBuf
set_cur_pos b = record b { cur_pos = b.ppdu.end }

-- `frag_buf_sdu_put`
unfoldable pub sdu_put : FragBuf → ℕ → Option FragBuf
unfolding ptrs_put
sdu_put b size = do
  sdu ← ptrs_put b.sdu size
  alpdu ← ptrs_put b.alpdu size
  some (record b { sdu = sdu; alpdu = alpdu })

-- `frag_buf_sdu_push`
unfoldable pub sdu_push : FragBuf → ℤ → Option FragBuf
unfolding ptrs_push ptrs_set set_cur_pos
sdu_push b size = do
  sdu ← ptrs_push b.sdu size
  alpdu ← ptrs_push b.alpdu size
  ppdu ← ptrs_set alpdu.start
  some (set_cur_pos (record b { sdu = sdu; alpdu = alpdu; ppdu = ppdu }))

-- `frag_buf_alpdu_push`
unfoldable pub alpdu_push : FragBuf → ℕ → Option FragBuf
unfolding ptrs_push ptrs_set set_cur_pos
alpdu_push b size = do
  alpdu ← ptrs_push b.alpdu (pos size)
  ppdu ← ptrs_set alpdu.start
  some (set_cur_pos (record b { alpdu = alpdu; ppdu = ppdu }))

-- `frag_buf_alpdu_put`
unfoldable pub alpdu_put : FragBuf → ℕ → Option FragBuf
unfolding ptrs_put
alpdu_put b size = do alpdu ← ptrs_put b.alpdu size; some (record b { alpdu = alpdu })

-- `frag_buf_ppdu_push`
unfoldable pub ppdu_push : FragBuf → ℕ → Option FragBuf
unfolding ptrs_push
ppdu_push b size = do ppdu ← ptrs_push b.ppdu (pos size); some (record b { ppdu = ppdu })

-- `frag_buf_ppdu_init`
unfoldable pub ppdu_init : FragBuf → Option FragBuf
unfolding ptrs_set
ppdu_init b = do ppdu ← ptrs_set b.cur_pos; some (record b { ppdu = ppdu })

-- `frag_buf_get_sdu_len`, `frag_buf_get_alpdu_hdr_len`, `frag_buf_get_alpdu_trailer_len`, as the
-- callers use them: in `size_t` arithmetic.
unfoldable pub get_sdu_len : FragBuf → ℕ
get_sdu_len b = sub_size b.sdu.end b.sdu.start

unfoldable pub get_alpdu_hdr_len : FragBuf → ℕ
get_alpdu_hdr_len b = sub_size b.sdu.start b.alpdu.start

unfoldable pub get_alpdu_trailer_len : FragBuf → ℕ
get_alpdu_trailer_len b = sub_size b.alpdu.end b.sdu.end

-- `frag_buf_is_fragmented`
unfoldable pub is_fragmented : FragBuf → Option Bool
unfolding in_use
is_fragmented b = do assert (in_use b); some (ltb b.alpdu.start b.ppdu.start)

-- `frag_buf_get_remaining_alpdu_length`
unfoldable pub get_remaining_alpdu_length : FragBuf → Option ℕ
unfolding in_use
get_remaining_alpdu_length b = do
  assert (in_use b)
  assert (leb b.cur_pos b.alpdu.end)
  some (b.alpdu.end - b.cur_pos)

-- `frag_buf_get_current_ppdu_len`
unfoldable pub get_current_ppdu_len : FragBuf → Option ℕ
unfolding in_use
get_current_ppdu_len b = do assert (in_use b); some (sub_size b.ppdu.end b.ppdu.start)

-- `frag_buf_ppdu_put`
unfoldable pub ppdu_put : FragBuf → ℕ → Option FragBuf
unfolding get_remaining_alpdu_length ptrs_put
ppdu_put b size = do
  assert (leb size (max_ppdu_pl_size + 2))
  remaining ← get_remaining_alpdu_length b
  ppdu ← ptrs_put b.ppdu (if ltb remaining size then remaining else size)
  some (record b { ppdu = ppdu })

-- `rle_frag_buf_init`, for a buffer that is not NULL: it then returns 0.
unfoldable pub frag_buf_init : FragBuf → Option FragBuf
unfolding ptrs_set
frag_buf_init b = do
  sdu ← ptrs_set (4 + 3)
  alpdu ← ptrs_set (4 + 3)
  ppdu ← ptrs_set (4 + 3)
  some (record b { buffer = zeroed; cur_pos = 4 + 3; sdu = sdu; alpdu = alpdu; ppdu = ppdu })

-- `rle_frag_buf_cpy_sdu`: the status, and the buffer.
unfoldable pub frag_buf_cpy_sdu : FragBuf → Sdu → Option (ℕ × FragBuf)
unfolding in_use sdu_put write_at
frag_buf_cpy_sdu b s = if ltb max_pdu_size s.size || in_use b then some (1, b) else do
  b ← sdu_put b s.size
  bytes ← read_bytes s.buffer s.size
  let info = record b {
    sdu_info = record { buffer = b.sdu.start; protocol_type = s.protocol_type; size = s.size };
  }
  b ← write_at info b.sdu.start bytes
  some (0, b)
