-- ===== src/Ppdu/Refine/Begun.antt =====
-- The START PPDU of `push_ppdu_hdr` (src/header.c) and the flow that it begins.
use mathlib.Core.Path.{ap₂}
use librle.Prelude.{
  length-append, subst, ℕ, ◌+◌, ◌-◌, ◌≤◌, ◌<◌, ◌≡◌, true, some, List, ◌++◌, length, take, drop,
  arith, refl, ◌==◌, ◌∙◌, ap, sym,
}
use librle.Prelude.Memory.{slice, take-slice, drop-slice}
use librle.Config.{Config, use_alpdu_crc}
use librle.Ctx.{RleCtx, incr_seq_nb}
use librle.Header.{start_bytes}
use librle.Header.Laws.{length-start_bytes}
use librle.FragBuf.{FragBuf}
use librle.FragBuf.Wf.{IsReady}
use librle.Ppdu.{pushed, push_start}
use librle.Ppdu.Put.{start_hdr}
use librle.Ppdu.Flow.{Flow}
use librle.Ppdu.Refine.{
  IsFlow, IsUnsentFlow, Numbers, IsSentAs, Agrees, length_left, trailer_bytes, sent, sent-IsSentAs,
}
use librle.Ppdu.Refine.Unsent.{
  after_trailer, with_trailer, with_trailer-IsReady, left-with_trailer, push_start_lem,
  length-trailer_bytes,
}

without_trailer :
    {b c : FragBuf} {conf : Config} {ctx : RleCtx} {ppdu : List ℕ} {g : Flow} (t : List ℕ)
    → IsSentAs (with_trailer b t) c conf ctx ppdu g
    → IsSentAs b c conf ctx ppdu g
without_trailer t s = record {
  bytes = s.bytes;
  order = s.order;
  sdu = s.sdu;
  inside = s.inside;
  moved = s.moved;
  flow = s.flow;
  seq = s.seq;
  next = s.next;
}

after_trailer_frag_id :
    (conf : Config) (ctx : RleCtx) → ctx.frag_id ≡ (after_trailer conf ctx).frag_id
unfolding incr_seq_nb
after_trailer_frag_id conf ctx = ground arith

-- The START PPDU takes the number of the context.
start-Numbers :
    (b : FragBuf) (conf : Config) (ctx : RleCtx) (f : Flow) (n : ℕ)
    → f.trailer ≡ trailer_bytes b conf ctx
    → Numbers conf
        (after_trailer conf ctx)
        (record f { started = true; left = drop n f.left ++ f.trailer })
unfolding incr_seq_nb
start-Numbers b conf ctx f n same off = (ctx.next_seq_nb, same ∙ rw off refl, rw off refl)

start_sent :
    (b : FragBuf) (conf : Config) (ctx : RleCtx) (f : Flow) (n : ℕ) (hdr : List ℕ)
    → IsReady b
    → IsFlow b conf ctx f
    → IsUnsentFlow b conf ctx f
    → length hdr ≡ 4
    → 0 < n
    → n < length f.left
    → let t = trailer_bytes b conf ctx in
      IsSentAs
        (with_trailer b t)
        (sent (with_trailer b t) n 4 hdr)
        conf
        (after_trailer conf ctx)
        (hdr ++ take n f.left)
        (record f { started = true; left = drop n f.left ++ f.trailer })
unfolding incr_seq_nb
start_sent b conf ctx f n hdr r v u len pos fits =
    subst (λ xs. IsSentAs c (sent c n 4 hdr) conf (after_trailer conf ctx) (hdr ++ xs) g)
      (sym taken)
      (sent-IsSentAs c conf (after_trailer conf ctx) f g n 4 hdr
        (with_trailer-IsReady b t r u.unsent (ground (arith, length-trailer_bytes b conf ctx))) len
        (omega arith) (omega arith) pos (omega (arith, length_left v))
        (v.frag_id ∙ after_trailer_frag_id conf ctx) v.use_crc (λ h. refl) dropped v.trailer_len
        (λ h. ground (arith, length-append (drop n f.left) f.trailer))
        (start-Numbers b conf ctx f n u.trailer))
  where
    t : List ℕ
    t = trailer_bytes b conf ctx

    c : FragBuf
    c = with_trailer b t

    g : Flow
    g = record f { started = true; left = drop n f.left ++ f.trailer }

    total : ℕ
    total = b.alpdu.end - b.cur_pos

    taken : take n f.left ≡ slice c.buffer b.cur_pos n
    taken =
        ap (take n) v.left
        ∙ (take-slice b.buffer b.cur_pos n total (omega (arith, length_left v))
            ∙ sym (left-with_trailer b t n r (omega (arith, length_left v))).0)

    dropped : g.left ≡ slice c.buffer (b.cur_pos + n) (c.alpdu.end - (b.cur_pos + n))
    dropped =
        ap₂ (λ xs ys. drop n xs ++ ys) v.left u.trailer
        ∙ (ap (λ xs. xs ++ t)
              (drop-slice b.buffer b.cur_pos n total (omega (arith, length_left v))
                ∙ ap (slice b.buffer (b.cur_pos + n))
                    (let e : total - n ≡ b.alpdu.end - (b.cur_pos + n) = omega arith in e))
            ∙ sym (left-with_trailer b t n r (omega (arith, length_left v))).1)

pub start-Agrees :
    (b : FragBuf) (conf : Config) (ctx : RleCtx) (f : Flow) (cap : ℕ)
    → IsReady b
    → IsFlow b conf ctx f
    → IsUnsentFlow b conf ctx f
    → cap ≤ 2049
    → cap < length f.left + 2
    → 4 + f.hdr_len + 1 ≤ cap
    → Agrees b conf
        (some (
          start_bytes (
                start_hdr f.frag_id f.label_type
                  (f.hdr_len == 0)
                  f.use_crc
                  (length f.left + length f.trailer)
                  (cap - 4 + 2))
              ++ take (cap - 4) f.left,
          record f { started = true; left = drop (cap - 4) f.left ++ f.trailer },
        ))
        (push_start b conf cap (some ctx))
start-Agrees b conf ctx f cap r v u small more room = (
  sent (with_trailer b t) (cap - 4) 4 hdr,
  after_trailer conf ctx,
  push_start_lem b conf ctx cap f.hdr_len f.label_type r u.unsent small
        (omega (arith, length_left v)) room u.hdr_len u.label_type
      ∙ ap
          (λ h.
            some (pushed (sent (with_trailer b t) (cap - 4) 4 h) (some (after_trailer conf ctx))))
          same,
  without_trailer t (
      start_sent b conf ctx f (cap - 4) hdr r v u
        (length-start_bytes (
          start_hdr f.frag_id f.label_type (f.hdr_len == 0) f.use_crc
            (length f.left + length f.trailer) (cap - 4 + 2)))
        (omega arith) (omega arith)),
)
  where
    t : List ℕ
    t = trailer_bytes b conf ctx

    hdr : List ℕ
    hdr = start_bytes (
        start_hdr f.frag_id f.label_type (f.hdr_len == 0) f.use_crc
          (length f.left + length f.trailer) (cap - 4 + 2))

    same :
        start_bytes (
          start_hdr ctx.frag_id f.label_type
            (f.hdr_len == 0)
            (use_alpdu_crc conf)
            (b.alpdu.end - b.cur_pos + length t)
            (cap - 4 + 2))
        ≡ hdr
    same = sym (rw (v.frag_id, v.use_crc, length_left v, u.trailer))
