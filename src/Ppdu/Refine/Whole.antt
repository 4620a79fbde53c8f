-- ===== src/Ppdu/Refine/Whole.antt =====
-- `push_ppdu_hdr` (src/header.c) against the flow, for every burst size.
use mathlib.Core.Path.{ap₂}
use librle.Prelude.{
  subst, ℕ, ◌+◌, ◌-◌, ◌≤◌, ◌<◌, ◌≡◌, min, true, false, some, List, [], ◌++◌, length, arith, refl,
  ◌==◌, ◌∙◌, ap, sym, if◌then◌else◌, ltb, leb, Bool-cases, inl, inr,
}
use librle.Prelude.Memory.{slice, slice-zero}
use librle.Config.{Config}
use librle.Ctx.{RleCtx}
use librle.Header.{comp_bytes}
use librle.Header.Laws.{length-comp_bytes}
use librle.FragBuf.{FragBuf}
use librle.FragBuf.Wf.{IsReady}
use librle.Ppdu.{push_ppdu_hdr, refused, push_start, push_comp}
use librle.Ppdu.Put.{comp_hdr}
use librle.Ppdu.Flow.{Flow, next_ppdu, next_unsent}
use librle.Ppdu.Refine.{IsFlow, IsUnsentFlow, IsSentAs, Agrees, length_left, sent, sent-IsSentAs}
use librle.Ppdu.Refine.Started.{started-Agrees}
use librle.Ppdu.Refine.Begun.{start-Agrees}
use librle.Ppdu.Refine.Unsent.{get_alpdu_hdr_len_lem, push_ppdu_hdr_unsent, push_comp_lem}

-- The buffer of a COMPLETE PPDU.
pub comp_sent :
    (b : FragBuf) (conf : Config) (ctx : RleCtx) (f : Flow)
    → IsReady b
    → IsFlow b conf ctx f
    → let n = b.alpdu.end - b.cur_pos in
      IsSentAs b
        (sent b n 2 (comp_bytes (comp_hdr f.label_type (f.hdr_len == 0) n)))
        conf
        ctx
        (comp_bytes (comp_hdr f.label_type (f.hdr_len == 0) (length f.left)) ++ f.left)
        (record f { left = [] })
comp_sent b conf ctx f r v =
    subst (λ ppdu. IsSentAs b (sent b n 2 hdr) conf ctx ppdu (record f { left = [] }))
      (ap₂ (λ len xs. comp_bytes (comp_hdr f.label_type (f.hdr_len == 0) len) ++ xs)
        (sym (length_left v)) (sym v.left))
      (sent-IsSentAs b conf ctx f (record f { left = [] }) n 2 hdr r
        (length-comp_bytes (comp_hdr f.label_type (f.hdr_len == 0) n)) (omega arith) (omega arith)
        (omega arith) (omega arith) v.frag_id v.use_crc (λ h. absurd (h refl)) nothing v.trailer_len
        (λ h. absurd (h refl)) v.seq)
  where
    n : ℕ
    n = b.alpdu.end - b.cur_pos

    hdr : List ℕ
    hdr = comp_bytes (comp_hdr f.label_type (f.hdr_len == 0) n)

    nothing : [] ≡ slice b.buffer (b.cur_pos + n) (b.alpdu.end - (b.cur_pos + n))
    nothing = sym (
        ap (slice b.buffer (b.cur_pos + n))
          (let e : b.alpdu.end - (b.cur_pos + n) ≡ 0 = omega arith in e)
        ∙ slice-zero b.buffer (b.cur_pos + n))

comp-Agrees :
    (b : FragBuf) (conf : Config) (ctx : RleCtx) (f : Flow) (cap : ℕ)
    → IsReady b
    → IsFlow b conf ctx f
    → IsUnsentFlow b conf ctx f
    → cap ≤ 2049
    → length f.left + 2 ≤ cap
    → Agrees b conf
        (some (
          comp_bytes (comp_hdr f.label_type (f.hdr_len == 0) (length f.left)) ++ f.left,
          record f { left = [] },
        ))
        (push_comp b conf cap (some ctx))
comp-Agrees b conf ctx f cap r v u small fits = (
  sent b (b.alpdu.end - b.cur_pos) 2
      (comp_bytes (comp_hdr f.label_type (f.hdr_len == 0) (b.alpdu.end - b.cur_pos))),
  ctx,
  push_comp_lem b conf (some ctx) cap f.hdr_len f.label_type r small (omega (arith, length_left v))
      u.hdr_len u.label_type,
  comp_sent b conf ctx f r v,
)

-- The same buffer, seen from before the trailer.
push_none :
    (b : FragBuf) (conf : Config) (ctx : RleCtx) (cap hdr_len : ℕ)
    → IsReady b
    → hdr_len ≡ b.sdu.start - b.alpdu.start
    → cap < 4 + hdr_len + 1
    → push_start b conf cap (some ctx) ≡ some refused
unfolding push_start
push_none b conf ctx cap hdr_len r he small =
    rw (get_alpdu_hdr_len_lem b hdr_len r he, push_start) (ground arith)

next_ppdu_unsent :
    (f : Flow) (burst : ℕ) → f.started ≡ false → next_ppdu f burst ≡ next_unsent f (min burst 2049)
unfolding next_ppdu
next_ppdu_unsent f burst st = rw st

next_unsent-Agrees :
    (b : FragBuf) (conf : Config) (ctx : RleCtx) (f : Flow) (cap : ℕ)
    → IsReady b
    → IsFlow b conf ctx f
    → IsUnsentFlow b conf ctx f
    → cap ≤ 2049
    → Agrees b conf (next_unsent f cap) (
        if ltb cap (length f.left + 2)
        then push_start b conf cap (some ctx)
        else push_comp b conf cap (some ctx))
unfolding next_unsent
next_unsent-Agrees b conf ctx f cap r v u small = elim (Bool-cases (leb (length f.left + 2) cap)) [
  | inl fits ↦
      rw (fits, (let e : ltb cap (length f.left + 2) ≡ false = ground arith in e))
        (comp-Agrees b conf ctx f cap r v u small (ground arith))
  | inr more ↦
      rw (more, (let e : ltb cap (length f.left + 2) ≡ true = ground arith in e))
        (elim (Bool-cases (ltb cap (4 + f.hdr_len + 1))) [
          | inl tight ↦ rw tight (push_none b conf ctx cap f.hdr_len r u.hdr_len (ground arith))
          | inr room ↦
              rw room (start-Agrees b conf ctx f cap r v u small (ground arith) (ground arith))
        ])
]

unsent-Agrees :
    (b : FragBuf) (conf : Config) (ctx : RleCtx) (f : Flow) (burst : ℕ)
    → IsReady b
    → IsFlow b conf ctx f
    → IsUnsentFlow b conf ctx f
    → f.started ≡ false
    → Agrees b conf (next_ppdu f burst) (push_ppdu_hdr b conf burst (some ctx))
unsent-Agrees b conf ctx f burst r v u st =
    rw
      (
        push_ppdu_hdr_unsent b conf burst (some ctx) r (sym u.unsent.at_start),
        next_ppdu_unsent f burst st,
        ← length_left v,
      )
      (next_unsent-Agrees b conf ctx f (min burst 2049) r v u (omega arith))

-- For a buffer that is ready for a PPDU and stands for a flow, `push_ppdu_hdr` refuses exactly the
-- bursts for which the flow has no next PPDU. Otherwise it returns a buffer whose PPDU is, byte for
-- byte, the next one of the flow, with the SDU and the order of the pointers kept, and which stands
-- for the rest of the flow. It neither fails an assertion nor leaves the buffer.
pub push_ppdu_hdr-Agrees :
    (b : FragBuf) (conf : Config) (ctx : RleCtx) (f : Flow) (burst : ℕ)
    → IsReady b
    → IsFlow b conf ctx f
    → (f.started ≡ false → IsUnsentFlow b conf ctx f)
    → Agrees b conf (next_ppdu f burst) (push_ppdu_hdr b conf burst (some ctx))
push_ppdu_hdr-Agrees b conf ctx f burst r v u = elim (Bool-cases f.started) [
  | inl st ↦ started-Agrees b conf ctx f burst r v st
  | inr st ↦ unsent-Agrees b conf ctx f burst r v (u st) st
]
