-- ===== src/Ppdu/Refine/Unsent.antt =====
-- The COMPLETE and START PPDUs of `push_ppdu_hdr` (src/header.c) against the flow.
use mathlib.Core.Path.{ap₂}
use librle.Prelude.{
  ℕ, ◌+◌, ◌-◌, ◌≤◌, ◌<◌, ◌≡◌, min, Option, some, List, ◌++◌, length, arith, ◌==◌, ◌∙◌, ap,
  if◌then◌else◌, ltb, inl,
}
use librle.Prelude.Memory.{store, slice, slice-add, slice-store_disjoint, slice-store_self}
use librle.Config.{Config, use_alpdu_crc}
use librle.Ptype.{get_alpdu_label_type}
use librle.Ctx.{RleCtx, incr_seq_nb}
use librle.Header.{comp_bytes, start_bytes}
use librle.FragBuf.{
  FragBuf, get_remaining_alpdu_length, is_fragmented, get_alpdu_hdr_len, set_cur_pos, write_at,
  alpdu_put,
}
use librle.FragBuf.Wf.{IsReady, IsUnsent}
use librle.Trailer.{le32_bytes, push_alpdu_trailer}
use librle.Ppdu.{push_ppdu_hdr, pushed, done, push_start, push_comp}
use librle.Ppdu.Put.{comp_hdr, start_hdr, put_comp_ppdu_ready, put_start_ppdu_ready}
use librle.Ppdu.Refine.{trailer_bytes, sent}

pub push_ppdu_hdr_unsent :
    (b : FragBuf) (conf : Config) (burst : ℕ) (ctx : Option RleCtx)
    → IsReady b
    → b.alpdu.start ≡ b.cur_pos
    → push_ppdu_hdr b conf burst ctx ≡ (
        if ltb (min burst 2049) (b.alpdu.end - b.cur_pos + 2)
        then push_start b conf (min burst 2049) ctx
        else push_comp b conf (min burst 2049) ctx)
unfolding push_ppdu_hdr get_remaining_alpdu_length is_fragmented
push_ppdu_hdr_unsent b conf burst ctx r unsent = ground arith

pub get_alpdu_hdr_len_lem :
    (b : FragBuf) (hdr_len : ℕ)
    → IsReady b
    → hdr_len ≡ b.sdu.start - b.alpdu.start
    → get_alpdu_hdr_len b ≡ hdr_len
unfolding get_alpdu_hdr_len
get_alpdu_hdr_len_lem b hdr_len r he = omega arith

-- The whole ALPDU fits.
pub push_comp_lem :
    (b : FragBuf) (conf : Config) (ctx : Option RleCtx) (cap hdr_len label_type : ℕ)
    → IsReady b
    → cap ≤ 2049
    → b.alpdu.end - b.cur_pos + 2 ≤ cap
    → hdr_len ≡ b.sdu.start - b.alpdu.start
    → label_type
      ≡ get_alpdu_label_type b.sdu_info.protocol_type (hdr_len == 0) conf.type_0_alpdu_label_size
    → let n = b.alpdu.end - b.cur_pos in
      push_comp b conf cap ctx
      ≡ some (pushed (sent b n 2 (comp_bytes (comp_hdr label_type (hdr_len == 0) n))) ctx)
unfolding push_comp done set_cur_pos
push_comp_lem b conf ctx cap hdr_len label_type r small fits he le =
    rw (get_alpdu_hdr_len_lem b hdr_len r he, push_comp)
      (rw (← le) (
        ground (
          arith,
          put_comp_ppdu_ready b label_type (hdr_len == 0) (cap - 2) r (omega arith) (omega arith),
        )))

-- The context after `push_alpdu_trailer`, and the buffer.
abbrev pub after_trailer : Config → RleCtx → RleCtx
after_trailer conf ctx = if use_alpdu_crc conf then ctx else incr_seq_nb ctx

abbrev pub with_trailer : FragBuf → List ℕ → FragBuf
with_trailer b t = record b {
  buffer = store b.buffer b.alpdu.end t;
  alpdu = record { start = b.alpdu.start; end = b.alpdu.end + length t };
}

pub length-trailer_bytes :
    (b : FragBuf) (conf : Config) (ctx : RleCtx)
    → length (trailer_bytes b conf ctx) ≡ (if use_alpdu_crc conf then 4 else 1)
unfolding le32_bytes
length-trailer_bytes b conf ctx = ground arith

push_alpdu_trailer_lem :
    (b : FragBuf) (conf : Config) (ctx : RleCtx)
    → IsReady b
    → IsUnsent b
    → push_alpdu_trailer b conf ctx
      ≡ some (with_trailer b (trailer_bytes b conf ctx), after_trailer conf ctx)
unfolding push_alpdu_trailer write_at alpdu_put le32_bytes
push_alpdu_trailer_lem b conf ctx r u = ground arith

pub with_trailer-IsReady :
    (b : FragBuf) (t : List ℕ) → IsReady b → IsUnsent b → length t ≤ 4 → IsReady (with_trailer b t)
with_trailer-IsReady b t r u small = omega arith

-- The bytes left behind the first `n`, with the trailer at their end.
pub left-with_trailer :
    (b : FragBuf) (t : List ℕ) (n : ℕ)
    → IsReady b
    → n ≤ b.alpdu.end - b.cur_pos
    → let c = with_trailer b t in
      (slice c.buffer b.cur_pos n ≡ slice b.buffer b.cur_pos n)
      × (slice c.buffer (b.cur_pos + n) (c.alpdu.end - (b.cur_pos + n))
          ≡ slice b.buffer (b.cur_pos + n) (b.alpdu.end - (b.cur_pos + n)) ++ t)
left-with_trailer b t n r fits = (
  slice-store_disjoint b.buffer b.alpdu.end t b.cur_pos n (inl (omega arith)),
  ap (slice c.buffer (b.cur_pos + n))
        (let e : b.alpdu.end + length t - (b.cur_pos + n) ≡ k + length t = omega arith in e)
      ∙ (slice-add c.buffer (b.cur_pos + n) k (length t)
          ∙ ap₂ ◌++◌
              (slice-store_disjoint b.buffer b.alpdu.end t (b.cur_pos + n) k (inl (omega arith)))
              (ap (λ a. slice c.buffer a (length t))
                  (let e : b.cur_pos + n + k ≡ b.alpdu.end = omega arith in e)
                ∙ slice-store_self b.buffer b.alpdu.end t)),
)
  where
    c : FragBuf
    c = with_trailer b t

    k : ℕ
    k = b.alpdu.end - (b.cur_pos + n)

-- The START PPDU of a burst that is large enough.
pub push_start_lem :
    (b : FragBuf) (conf : Config) (ctx : RleCtx) (cap hdr_len label_type : ℕ)
    → IsReady b
    → IsUnsent b
    → cap ≤ 2049
    → cap < b.alpdu.end - b.cur_pos + 2
    → 4 + hdr_len + 1 ≤ cap
    → hdr_len ≡ b.sdu.start - b.alpdu.start
    → label_type
      ≡ get_alpdu_label_type b.sdu_info.protocol_type (hdr_len == 0) conf.type_0_alpdu_label_size
    → let t = trailer_bytes b conf ctx in
      push_start b conf cap (some ctx)
      ≡ some (
          pushed
            (sent (with_trailer b t) (cap - 4) 4 (
              start_bytes (
                start_hdr ctx.frag_id label_type
                  (hdr_len == 0)
                  (use_alpdu_crc conf)
                  (b.alpdu.end - b.cur_pos + length t)
                  (cap - 4 + 2))))
            (some (after_trailer conf ctx)))
unfolding push_start done set_cur_pos incr_seq_nb
push_start_lem b conf ctx cap hdr_len label_type r u small more room he le =
    rw (get_alpdu_hdr_len_lem b hdr_len r he, push_start)
      (rw (← le, push_alpdu_trailer_lem b conf ctx r u, push_start)
        (ground (
          arith,
          put_start_ppdu_ready (with_trailer b (trailer_bytes b conf ctx)) ctx.frag_id label_type
              (hdr_len == 0) (use_alpdu_crc conf) (cap - 4)
              (with_trailer-IsReady b (trailer_bytes b conf ctx) r u
                (ground (arith, length-trailer_bytes b conf ctx)))
              (omega arith) (omega arith),
          length-trailer_bytes b conf ctx,
        )))
