-- ===== src/RasmBuf/Dumps.antt =====
-- The dump functions of src/reassembly_buffer.h, as far as the `int` that they return, and
-- `rasm_buf_is_reassembled`. An `int` is its 32 bits.
use librle.Prelude.{ℕ, ◌^◌, ◌%◌, ◌≤◌, ◌≡◌, Bool, List, length, ltb, if◌then◌else◌, arith}
use librle.Prelude.Int.{sub_size}
use librle.FragBuf.Dumps.{minus_one, dump_status}
use librle.RasmBuf.{RasmBuf, r_buff_len, rasm_in_use}
use librle.Reassembly.Partial.{IsPartial}

-- `rasm_buf_dump_mem`: the distance between the pointers, on every path.
unfoldable pub rasm_dump_mem : RasmBuf → ℕ → ℕ → ℕ
rasm_dump_mem b start end = sub_size end start % 2 ^ 32

-- `rasm_buf_dump_sdu`
unfoldable pub rasm_dump_sdu : RasmBuf → ℕ
rasm_dump_sdu b = dump_status (rasm_in_use b) (rasm_dump_mem b b.sdu.start b.sdu.end)

-- `rasm_buf_dump_reassembled_sdu`
unfoldable pub dump_reassembled_sdu : RasmBuf → ℕ
dump_reassembled_sdu b = dump_status (rasm_in_use b) (rasm_dump_mem b b.sdu.start b.sdu_frag.end)

-- `rasm_buf_dump_full_rasm_buf`: `sizeof(rasm_buf->buffer)` is the size of a pointer, 8 bytes.
unfoldable pub dump_full_rasm_buf : RasmBuf → ℕ
dump_full_rasm_buf b = dump_status (rasm_in_use b) (rasm_dump_mem b 0 8)

-- `rasm_buf_is_reassembled`
unfoldable pub is_reassembled : RasmBuf → ℕ
is_reassembled b = if rasm_in_use b then (if ltb b.sdu_frag.end b.sdu.end then 1 else 0) else 0

rasm_dump_forward :
    (b : RasmBuf) (used : Bool) (start end : ℕ)
    → start ≤ end
    → end ≤ r_buff_len
    → dump_status used (rasm_dump_mem b start end) ≡ minus_one
unfolding rasm_dump_mem dump_status
rasm_dump_forward b used start end order inside = ground arith

-- For a buffer that has received some bytes of an SDU, `rasm_buf_is_reassembled` answers 1 while
-- bytes are missing, and 0 once all are there. The three functions that dump the buffer answer -1,
-- the answer of a failure.
pub is_reassembled-IsPartial :
    (b : RasmBuf) (got : List ℕ) (total : ℕ)
    → IsPartial b got total
    → (is_reassembled b ≡ (if ltb (length got) total then 1 else 0))
      × (rasm_dump_sdu b ≡ minus_one)
      × (dump_reassembled_sdu b ≡ minus_one)
      × (dump_full_rasm_buf b ≡ minus_one)
unfolding is_reassembled rasm_dump_sdu dump_reassembled_sdu dump_full_rasm_buf rasm_in_use
is_reassembled-IsPartial b got total p = (
  ground (arith, p.sdu_start, p.sdu_end, p.received, p.some_total),
  rasm_dump_forward b (rasm_in_use b) b.sdu.start b.sdu.end (omega (arith, p.sdu_start))
      (omega (arith, p.sdu_end, p.small)),
  rasm_dump_forward b (rasm_in_use b) b.sdu.start b.sdu_frag.end (omega (arith, p.sdu_start))
      (omega (arith, p.received, p.fits, p.small)),
  rasm_dump_forward b (rasm_in_use b) 0 8 (omega arith) (omega arith),
)
