-- ===== src/RasmBuf.antt =====
-- src/reassembly_buffer.h and src/reassembly_buffer.c. A pointer into `buffer` is its offset.
pub mod Dumps
use librle.Prelude.{
  ℕ, ◌+◌, ◌-◌, ◌*◌, ◌^◌, Bool, not, ltb, leb, ◌==◌, Option, some, List, length, assert, ◌>>=◌, ◌>>◌,
  read_bytes,
}
use librle.Prelude.Int.{sub_size, add_size}
use librle.Prelude.Memory.{Memory, zeroed, store, slice}
use librle.FragBuf.{Ptrs}

-- RLE_R_BUFF_LEN: `(2 << 12) - 1`
abbrev pub r_buff_len : ℕ
r_buff_len = 2 * 2 ^ 12 - 1

-- `struct rle_reassembly_buffer`; `size` and `protocol_type` are those of `sdu_info`, whose
-- `buffer` is the start of the array.
pub record RasmBuf : Type 0 where
  pub buffer : Memory
  pub size : ℕ
  pub protocol_type : ℕ
  pub comp_protocol_type : ℕ
  pub sdu : Ptrs
  pub sdu_frag : Ptrs

-- `rasm_buf_ptrs_set`
unfoldable pub rasm_ptrs_set : ℕ → Option Ptrs
rasm_ptrs_set address = do
  assert (ltb address r_buff_len)
  some (record { start = address; end = address })

-- `rasm_buf_ptrs_put`
unfoldable pub rasm_ptrs_put : Ptrs → ℕ → Option Ptrs
rasm_ptrs_put p size = do
  assert (leb size (sub_size r_buff_len p.end))
  some (record p { end = p.end + size })

-- `rasm_buf_sdu_put`
unfoldable pub rasm_sdu_put : RasmBuf → ℕ → Option RasmBuf
unfolding rasm_ptrs_put
rasm_sdu_put b size = do sdu ← rasm_ptrs_put b.sdu size; some (record b { sdu = sdu })

-- `rasm_buf_sdu_frag_put`
unfoldable pub sdu_frag_put : RasmBuf → ℕ → Option RasmBuf
unfolding rasm_ptrs_put
sdu_frag_put b size = do
  assert (leb (add_size b.sdu_frag.end size) b.sdu.end)
  sdu_frag ← rasm_ptrs_put b.sdu_frag size
  some (record b { sdu_frag = sdu_frag })

-- `rasm_buf_init_sdu_frag`
unfoldable pub init_sdu_frag : RasmBuf → Option RasmBuf
unfolding rasm_ptrs_set
init_sdu_frag b = do
  sdu_frag ← rasm_ptrs_set b.sdu_frag.end
  some (record b { sdu_frag = sdu_frag })

-- `rasm_buf_init`
unfoldable pub rasm_buf_init : RasmBuf → Option RasmBuf
unfolding rasm_ptrs_set
rasm_buf_init b = do
  sdu ← rasm_ptrs_set 0
  sdu_frag ← rasm_ptrs_set 0
  some (record b { buffer = zeroed; sdu = sdu; sdu_frag = sdu_frag })

-- `rasm_buf_in_use`
unfoldable pub rasm_in_use : RasmBuf → Bool
rasm_in_use b = not (b.sdu.start == b.sdu.end)

-- `rasm_buf_cpy_sdu_frag`: `bytes` is what the pointer to the fragment sees. A fragment of no
-- bytes copies nothing.
unfoldable pub cpy_sdu_frag : RasmBuf → List ℕ → Option RasmBuf
unfolding rasm_in_use
cpy_sdu_frag b bytes = do
  assert (rasm_in_use b)
  xs ← read_bytes bytes (sub_size b.sdu_frag.end b.sdu_frag.start)
  assert (leb (b.sdu_frag.start + length xs) r_buff_len)
  some (record b { buffer = store b.buffer b.sdu_frag.start xs })

-- `rasm_buf_get_sdu_len`
unfoldable pub rasm_get_sdu_len : RasmBuf → Option ℕ
rasm_get_sdu_len b = do assert (leb b.sdu.start b.sdu.end); some (b.sdu.end - b.sdu.start)

-- `rasm_buf_get_reassembled_sdu_len`
unfoldable pub get_reassembled_sdu_len : RasmBuf → Option ℕ
get_reassembled_sdu_len b = do
  assert (leb b.sdu.start b.sdu_frag.end)
  some (b.sdu_frag.end - b.sdu.start)

-- The `n` bytes at the start of the buffer.
unfoldable pub rasm_read : RasmBuf → ℕ → Option (List ℕ)
rasm_read b n = do assert (leb n r_buff_len); some (slice b.buffer 0 n)
