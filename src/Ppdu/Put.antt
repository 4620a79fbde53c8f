-- ===== src/Ppdu/Put.antt =====
-- The buffer after each kind of PPDU is built (src/header.c): a header is written in front of the
-- bytes that it announces.
use librle.Prelude.{ℕ, ◌+◌, ◌-◌, ◌≤◌, ◌≡◌, Bool, List, length, ◌++◌, ◌∙◌, ap, sym, inr, some, arith}
use librle.Prelude.Memory.{store, slice, slice-add, slice-store_self, slice-store_disjoint}
use mathlib.Core.Path.{ap₂}
use librle.Header.Laws.{length-cont_end_bytes, length-comp_bytes, length-start_bytes}
use librle.Header.{
  CompHdr, ContEndHdr, StartHdr, set_ppdu_len, start_set_total_len, comp_bytes, cont_end_bytes,
  start_bytes,
}
use librle.FragBuf.{FragBuf, ppdu_put}
use librle.FragBuf.Wf.{IsReady}
use librle.Ppdu.{put_cont_ppdu, put_end_ppdu, put_comp_ppdu, put_start_ppdu, to_bit}

pub ppdu_put_ready :
    (b : FragBuf) (n : ℕ)
    → IsReady b
    → n ≤ 2049
    → n ≤ b.alpdu.end - b.cur_pos
    → ppdu_put b n ≡ some (record b { ppdu = record { start = b.cur_pos; end = b.cur_pos + n } })
unfolding ppdu_put
ppdu_put_ready b n r small fits = ground arith

ppdu_put_all :
    (b : FragBuf) (n : ℕ)
    → IsReady b
    → n ≤ 2049
    → b.alpdu.end - b.cur_pos ≤ n
    → ppdu_put b n
      ≡ some (record b {
        ppdu = record { start = b.cur_pos; end = b.cur_pos + (b.alpdu.end - b.cur_pos) };
      })
unfolding ppdu_put
ppdu_put_all b n r small fits = ground arith

-- The headers, as functions of what differs.
abbrev pub cont_hdr : ℕ → ℕ → ContEndHdr
cont_hdr id n = record { start_ind = 0; end_ind = 0; pkt_len = set_ppdu_len n; frag_id = id }

abbrev pub end_hdr : ℕ → ℕ → ContEndHdr
end_hdr id n = record { start_ind = 0; end_ind = 1; pkt_len = set_ppdu_len n; frag_id = id }

abbrev pub comp_hdr : ℕ → Bool → ℕ → CompHdr
comp_hdr label_type suppressed n = record {
  start_ind = 1;
  end_ind = 1;
  pkt_len = set_ppdu_len n;
  label_type = label_type;
  proto_type_supp = to_bit suppressed;
}

abbrev pub start_hdr : ℕ → ℕ → Bool → Bool → ℕ → ℕ → StartHdr
start_hdr id label_type suppressed use_crc total n = record {
  start_ind = 1;
  end_ind = 0;
  pkt_len = set_ppdu_len n;
  frag_id = id;
  use_crc = to_bit use_crc;
  total_len = start_set_total_len total;
  label_type = label_type;
  proto_type_supp = to_bit suppressed;
}

-- The buffer with `n` more bytes of the ALPDU behind the header `hdr` of `k` bytes.
abbrev pub with_ppdu : FragBuf → ℕ → ℕ → List ℕ → FragBuf
with_ppdu b n k hdr = record b {
  buffer = store b.buffer (b.cur_pos - k) hdr;
  ppdu = record { start = b.cur_pos - k; end = b.cur_pos + n };
}

pub put_cont_ppdu_ready :
    (b : FragBuf) (id n : ℕ)
    → IsReady b
    → n ≤ 2047
    → n ≤ b.alpdu.end - b.cur_pos
    → put_cont_ppdu b id n ≡ some (with_ppdu b n 2 (cont_end_bytes (cont_hdr id n)))
unfolding put_cont_ppdu
put_cont_ppdu_ready b id n r small fits =
    rw (ppdu_put_ready b n r (omega arith) fits, put_cont_ppdu)
      (ground (arith, length-cont_end_bytes (cont_hdr id n)))

pub put_end_ppdu_ready :
    (b : FragBuf) (id n : ℕ)
    → IsReady b
    → n ≤ 2047
    → n ≤ b.alpdu.end - b.cur_pos
    → put_end_ppdu b id n ≡ some (with_ppdu b n 2 (cont_end_bytes (end_hdr id n)))
unfolding put_end_ppdu
put_end_ppdu_ready b id n r small fits =
    rw (ppdu_put_ready b n r (omega arith) fits, put_end_ppdu)
      (ground (arith, length-cont_end_bytes (end_hdr id n)))

-- A COMPLETE PPDU takes all that is left.
pub put_comp_ppdu_ready :
    (b : FragBuf) (label_type : ℕ) (suppressed : Bool) (n : ℕ)
    → IsReady b
    → n ≤ 2047
    → b.alpdu.end - b.cur_pos ≤ n
    → let left = b.alpdu.end - b.cur_pos in
      put_comp_ppdu b label_type suppressed n
      ≡ some (with_ppdu b left 2 (comp_bytes (comp_hdr label_type suppressed left)))
unfolding put_comp_ppdu
put_comp_ppdu_ready b label_type suppressed n r small fits =
    rw (ppdu_put_all b n r (omega arith) fits, put_comp_ppdu)
      (ground (arith, length-comp_bytes (comp_hdr label_type suppressed (b.alpdu.end - b.cur_pos))))

pub put_start_ppdu_ready :
    (b : FragBuf) (id label_type : ℕ) (suppressed use_crc : Bool) (n : ℕ)
    → IsReady b
    → n ≤ 2045
    → n ≤ b.alpdu.end - b.cur_pos
    → put_start_ppdu b id label_type suppressed use_crc n
      ≡ some (
          with_ppdu b n 4 (
            start_bytes
              (start_hdr id label_type suppressed use_crc (b.alpdu.end - b.alpdu.start) (n + 2))))
unfolding put_start_ppdu
put_start_ppdu_ready b id label_type suppressed use_crc n r small fits =
    rw (ppdu_put_ready b n r (omega arith) fits, put_start_ppdu)
      (ground (
        arith,
        length-start_bytes
            (start_hdr id label_type suppressed use_crc (b.alpdu.end - b.alpdu.start) (n + 2)),
      ))

-- What stands in the buffer once a header of `k` bytes is written in front of `n` bytes of the
-- ALPDU: the PPDU is the header and those bytes, and the bytes behind them are as before.
pub with_ppdu_bytes :
    (b : FragBuf) (n k m : ℕ) (hdr : List ℕ)
    → length hdr ≡ k
    → k ≤ b.cur_pos
    → let c = with_ppdu b n k hdr in
      (slice c.buffer (b.cur_pos - k) (k + n) ≡ hdr ++ slice b.buffer b.cur_pos n)
      × (slice c.buffer (b.cur_pos + n) m ≡ slice b.buffer (b.cur_pos + n) m)
with_ppdu_bytes b n k m hdr len room = (
  slice-add c.buffer (b.cur_pos - k) k n ∙ ap₂ ◌++◌ written kept,
  slice-store_disjoint b.buffer (b.cur_pos - k) hdr (b.cur_pos + n) m (inr (omega arith)),
)
  where
    c : FragBuf
    c = with_ppdu b n k hdr

    written : slice c.buffer (b.cur_pos - k) k ≡ hdr
    written =
        ap (slice c.buffer (b.cur_pos - k)) (sym len)
        ∙ slice-store_self b.buffer (b.cur_pos - k) hdr

    kept : slice c.buffer (b.cur_pos - k + k) n ≡ slice b.buffer b.cur_pos n
    kept =
        ap (λ a. slice c.buffer a n) (let e : b.cur_pos - k + k ≡ b.cur_pos = omega arith in e)
        ∙ slice-store_disjoint b.buffer (b.cur_pos - k) hdr b.cur_pos n (inr (omega arith))
