-- ===== src/Reassembly/Partial.antt =====
-- The bytes that a reassembly buffer has received (src/reassembly.c, src/reassembly_buffer.h).
use mathlib.Core.Path.{ap₂}
use librle.Prelude.{
  ℕ, ◌+◌, ◌≤◌, ◌<◌, ◌≡◌, none, some, List, ◌++◌, length, take, length-take, length-append, arith,
  refl, ◌∙◌, ap, inl,
}
use librle.Prelude.Memory.{zeroed, store, slice, slice-add, slice-store_self, slice-store_disjoint}
use librle.Extract.{Extracted}
use librle.RasmBuf.{
  RasmBuf, rasm_buf_init, rasm_sdu_put, sdu_frag_put, init_sdu_frag, cpy_sdu_frag, rasm_in_use,
  rasm_ptrs_set, rasm_ptrs_put, rasm_get_sdu_len, get_reassembled_sdu_len,
}
use librle.Reassembly.{start_buffer, append_fragment}

-- `got` is what is received of an SDU of `total` bytes.
pub record IsPartial (b : RasmBuf) (got : List ℕ) (total : ℕ) : Type 0 where
  pub sdu_start : b.sdu.start ≡ 0
  pub sdu_end : b.sdu.end ≡ total
  pub received : b.sdu_frag.end ≡ length got
  pub bytes : slice b.buffer 0 (length got) ≡ got
  pub fits : length got ≤ total
  pub some_total : 0 < total
  pub small : total ≤ 4095

-- For an SDU of 1 to 4095 bytes, a fragment that is no longer than the SDU and of which all bytes
-- are there leaves a buffer that has received exactly those bytes, and that keeps the total length
-- and both protocol types.
pub start_buffer-IsPartial :
    (b : RasmBuf) (e : Extracted) (total : ℕ)
    → 0 < total
    → total ≤ 4095
    → e.sdu_frag_len ≤ total
    → e.sdu_frag_len ≤ length e.sdu_frag
    → (c : RasmBuf) × (start_buffer b e total ≡ some c)
      × IsPartial c (take e.sdu_frag_len e.sdu_frag) total
      × (c.size ≡ total)
      × (c.protocol_type ≡ e.ptype)
      × (c.comp_protocol_type ≡ e.comp_ptype)
unfolding start_buffer rasm_buf_init rasm_sdu_put sdu_frag_put cpy_sdu_frag rasm_in_use
    rasm_ptrs_set rasm_ptrs_put
start_buffer-IsPartial b e total pos small frag given = (
  record {
    buffer = store zeroed 0 (take n e.sdu_frag);
    size = total;
    protocol_type = e.ptype;
    comp_protocol_type = e.comp_ptype;
    sdu = record { start = 0; end = total };
    sdu_frag = record { start = 0; end = n };
  },
  ground (arith, length-take n e.sdu_frag),
  record {
    sdu_start = refl;
    sdu_end = refl;
    received = omega (arith, length-take n e.sdu_frag);
    bytes = slice-store_self zeroed 0 (take n e.sdu_frag);
    fits = omega (arith, length-take n e.sdu_frag);
    some_total = pos;
    small = small;
  },
  refl,
  refl,
  refl,
)
  where
    n : ℕ
    n = e.sdu_frag_len

-- The buffer with a fragment of `n` bytes behind those received.
extended : RasmBuf → List ℕ → ℕ → RasmBuf
extended b frag n = record b {
  buffer = store b.buffer b.sdu_frag.end (take n frag);
  sdu_frag = record { start = b.sdu_frag.end; end = b.sdu_frag.end + n };
}

append_fragment-fits :
    (b : RasmBuf) (got frag : List ℕ) (total n : ℕ)
    → IsPartial b got total
    → n ≤ length frag
    → length got + n ≤ total
    → append_fragment b frag n ≡ some (some (extended b frag n))
unfolding append_fragment extended init_sdu_frag sdu_frag_put cpy_sdu_frag rasm_in_use rasm_ptrs_set
    rasm_ptrs_put rasm_get_sdu_len get_reassembled_sdu_len
append_fragment-fits b got frag total n v given fits = ground (arith, length-take n frag)

append_fragment-long :
    (b : RasmBuf) (got frag : List ℕ) (total n : ℕ)
    → IsPartial b got total
    → n < 4096
    → total < length got + n
    → append_fragment b frag n ≡ some none
unfolding append_fragment rasm_get_sdu_len get_reassembled_sdu_len
append_fragment-long b got frag total n v short long = ground arith

extended-IsPartial :
    (b : RasmBuf) (got frag : List ℕ) (total n : ℕ)
    → IsPartial b got total
    → n ≤ length frag
    → length got + n ≤ total
    → IsPartial (extended b frag n) (got ++ take n frag) total
unfolding extended
extended-IsPartial b got frag total n v given fits = record {
  sdu_start = v.sdu_start;
  sdu_end = v.sdu_end;
  received = omega (arith, v.received, same_length);
  bytes = all_bytes;
  fits = omega (arith, same_length);
  some_total = v.some_total;
  small = v.small;
}
  where
    same_length : length (got ++ take n frag) ≡ length got + n
    same_length = omega (arith, length-append got (take n frag), length-take n frag)

    m : ℕ → ℕ
    m = store b.buffer b.sdu_frag.end (take n frag)

    old : slice m 0 (length got) ≡ got
    old =
        slice-store_disjoint b.buffer b.sdu_frag.end (take n frag) 0 (length got)
          (inl (omega (arith, v.received)))
        ∙ v.bytes

    new : slice m (0 + length got) n ≡ take n frag
    new =
        ap₂ (slice m) (let e : 0 + length got ≡ b.sdu_frag.end = omega (arith, v.received) in e)
          (let e : n ≡ length (take n frag) = omega (arith, length-take n frag) in e)
        ∙ slice-store_self b.buffer b.sdu_frag.end (take n frag)

    all_bytes : slice m 0 (length (got ++ take n frag)) ≡ got ++ take n frag
    all_bytes = ap (slice m 0) same_length ∙ (slice-add m 0 (length got) n ∙ ap₂ ◌++◌ old new)

-- To a buffer that has received a part of an SDU, a fragment of less than 4096 bytes, of which all
-- bytes are there, is appended exactly if it fits the total length, and is refused otherwise. The
-- total length and the protocol types are kept; no assertion fails.
pub append_fragment-IsPartial :
    (b : RasmBuf) (got frag : List ℕ) (total n : ℕ)
    → IsPartial b got total
    → n ≤ length frag
    → n < 4096
    → (total < length got + n → append_fragment b frag n ≡ some none)
      × (length got + n ≤ total
          → (c : RasmBuf) × (append_fragment b frag n ≡ some (some c))
            × IsPartial c (got ++ take n frag) total
            × (c.size ≡ b.size)
            × (c.protocol_type ≡ b.protocol_type)
            × (c.comp_protocol_type ≡ b.comp_protocol_type))
unfolding extended
append_fragment-IsPartial b got frag total n v given short = (
  λ long. append_fragment-long b got frag total n v short long,
  λ fits. (
    extended b frag n,
    append_fragment-fits b got frag total n v given fits,
    extended-IsPartial b got frag total n v given fits,
    refl,
    refl,
    refl,
  ),
)
