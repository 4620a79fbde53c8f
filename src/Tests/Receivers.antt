-- ===== src/Tests/Receivers.antt =====
-- The theorems on the buffers at concrete buffers and fragments.
use librle.Prelude.{
  ℕ, ◌+◌, ◌-◌, ◌≤◌, ◌<◌, ◌≡◌, true, false, none, some, List, [], ◌∷◌, length, leb, if◌then◌else◌,
  refl, arith,
}
use librle.Prelude.Memory.{zeroed, store, slice}
use librle.Extract.{Extracted}
use librle.RasmBuf.{RasmBuf}
use librle.Reassembly.{start_sizes, start_buffer, append_fragment}
use librle.Reassembly.Accept.{start_sizes-accepts, start_buffer-faults}
use librle.Reassembly.Partial.{IsPartial, append_fragment-IsPartial}
use librle.FragBuf.Dumps.{
  minus_one, dump_ppdu_header, dump_alpdu_header, dump_sdu, dump_alpdu_trailer, dump_full_frag_buf,
  dump-IsValid,
}
use librle.RasmBuf.Dumps.{
  rasm_dump_sdu, dump_reassembled_sdu, dump_full_rasm_buf, is_reassembled, is_reassembled-IsPartial,
}
use librle.Tests.Fixtures.{fresh_rasm_buf, started_buf}

-- The fragment of a START PPDU with a fallback header.
abbrev start_fragment : List ℕ → Extracted
start_fragment bytes = record {
  ptype = 0x0800;
  comp_ptype = 0xff;
  sdu_frag = bytes;
  sdu_frag_len = length bytes;
  alpdu_hdr_len = 3;
}

start_sizes-accepts_example :
    (start_sizes 20 3 4 true).sdu_total_len
    ≡ (if leb (3 + 4 + 4) 20 then some (20 - 3 - 4) else none)
start_sizes-accepts_example =
    start_sizes-accepts 20 3 4 true (omega arith) (omega arith) (omega arith)

start_buffer-faults_example :
    (n : ℕ) × ((start_sizes 2 3 1 false).sdu_total_len ≡ some n)
    × (start_buffer fresh_rasm_buf (start_fragment (7 ∷ [])) n ≡ none)
start_buffer-faults_example =
    start_buffer-faults fresh_rasm_buf (start_fragment (7 ∷ [])) 2 false (omega arith) (omega arith)
      (omega arith)

abbrev partial_buf : RasmBuf
partial_buf = record {
  buffer = store zeroed 0 (7 ∷ 8 ∷ []);
  size = 5;
  protocol_type = 0x0800;
  comp_protocol_type = 0x0d;
  sdu = record { start = 0; end = 5 };
  sdu_frag = record { start = 0; end = 2 };
}

partial_buf-IsPartial : IsPartial partial_buf (7 ∷ 8 ∷ []) 5
unfolding slice store
partial_buf-IsPartial = record {
  sdu_start = refl;
  sdu_end = refl;
  received = refl;
  bytes = refl;
  fits = omega arith;
  some_total = omega arith;
  small = omega arith;
}

append_fragment-IsPartial_example :
    (5 < 2 + 3 → append_fragment partial_buf (9 ∷ 10 ∷ 11 ∷ 0 ∷ []) 3 ≡ some none)
    × (2 + 3 ≤ 5
        → (c : RasmBuf) × (append_fragment partial_buf (9 ∷ 10 ∷ 11 ∷ 0 ∷ []) 3 ≡ some (some c))
          × IsPartial c (7 ∷ 8 ∷ 9 ∷ 10 ∷ 11 ∷ []) 5
          × (c.size ≡ partial_buf.size)
          × (c.protocol_type ≡ partial_buf.protocol_type)
          × (c.comp_protocol_type ≡ partial_buf.comp_protocol_type))
append_fragment-IsPartial_example =
    append_fragment-IsPartial partial_buf (7 ∷ 8 ∷ []) (9 ∷ 10 ∷ 11 ∷ 0 ∷ []) 5 3
      partial_buf-IsPartial (omega arith) (omega arith)

is_reassembled-IsPartial_example :
    (is_reassembled partial_buf ≡ 1)
    × (rasm_dump_sdu partial_buf ≡ minus_one)
    × (dump_reassembled_sdu partial_buf ≡ minus_one)
    × (dump_full_rasm_buf partial_buf ≡ minus_one)
is_reassembled-IsPartial_example =
    is_reassembled-IsPartial partial_buf (7 ∷ 8 ∷ []) 5 partial_buf-IsPartial

dump-IsValid_example :
    (dump_alpdu_header started_buf ≡ minus_one)
    × (dump_sdu started_buf ≡ minus_one)
    × (dump_alpdu_trailer started_buf ≡ minus_one)
    × (dump_full_frag_buf started_buf ≡ minus_one)
    × (dump_ppdu_header started_buf ≡ minus_one)
dump-IsValid_example =
    dump-IsValid started_buf
      (record {
        room = omega arith;
        hdr = omega arith;
        used = omega arith;
        trailer = omega arith;
        inside = omega arith;
        sent = omega arith;
        left = omega arith;
      })
      (omega arith)
