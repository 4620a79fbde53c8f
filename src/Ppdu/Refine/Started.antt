-- ===== src/Ppdu/Refine/Started.antt =====
-- The CONT and END PPDUs of `push_ppdu_hdr` (src/header.c) against the flow.
use mathlib.Core.Path.{ap₂}
use librle.Prelude.{
  length-drop, subst, ℕ, ◌+◌, ◌-◌, ◌≤◌, ◌<◌, ◌≡◌, min, Bool, true, false, Option, none, some, List,
  [], ◌++◌, length, take, drop, arith, refl, ◌==◌, ◌∙◌, ap, sym, if◌then◌else◌, leb, Bool-cases,
  inl, inr,
}
use librle.Prelude.Memory.{slice, slice-zero, take-slice, drop-slice}
use librle.Config.{Config, use_alpdu_crc}
use librle.Ctx.{RleCtx}
use librle.Header.{cont_end_bytes}
use librle.Header.Laws.{length-cont_end_bytes}
use librle.FragBuf.{FragBuf, get_remaining_alpdu_length, is_fragmented, set_cur_pos}
use librle.FragBuf.Wf.{IsReady}
use librle.Ppdu.{push_ppdu_hdr, refused, pushed, done, cont_alpdu_len, push_cont_or_end}
use librle.Ppdu.Put.{cont_hdr, end_hdr, put_cont_ppdu_ready, put_end_ppdu_ready}
use librle.Ppdu.Flow.{Flow, next_ppdu, next_started}
use librle.Ppdu.Refine.{IsFlow, IsSentAs, Agrees, length_left, sent, sent-IsSentAs}

-- How many bytes a CONT PPDU takes, without the wrap-around of the source.
cont_alpdu_len-min :
    (crc : Bool) (remain max : ℕ)
    → 0 < max
    → max < remain
    → remain ≤ 4095
    → (crc ≡ true → 4 ≤ remain)
    → let n = min max (remain - (if crc then 4 else 1)) in
      cont_alpdu_len crc remain max ≡ (if n == 0 then none else some n)
unfolding cont_alpdu_len
cont_alpdu_len-min crc remain max some_room lt small whole = ground arith

pub push_ppdu_hdr_started :
    (b : FragBuf) (conf : Config) (burst : ℕ) (ctx : Option RleCtx)
    → IsReady b
    → b.alpdu.start < b.cur_pos
    → push_ppdu_hdr b conf burst ctx
      ≡ push_cont_or_end b conf burst (min burst 2049) (b.alpdu.end - b.cur_pos) ctx
unfolding push_ppdu_hdr get_remaining_alpdu_length is_fragmented
push_ppdu_hdr_started b conf burst ctx r started = ground arith

-- All that is left fits: an END PPDU.
push_end_lem :
    (b : FragBuf) (conf : Config) (ctx : RleCtx) (burst : ℕ)
    → IsReady b
    → 2 < burst
    → b.alpdu.end - b.cur_pos ≤ min burst 2049 - 2
    → let n = b.alpdu.end - b.cur_pos in
      push_cont_or_end b conf burst (min burst 2049) n (some ctx)
      ≡ some (pushed (sent b n 2 (cont_end_bytes (end_hdr ctx.frag_id n))) (some ctx))
unfolding push_cont_or_end done set_cur_pos
push_end_lem b conf ctx burst r big fits = ground (
  arith,
  put_end_ppdu_ready b ctx.frag_id (b.alpdu.end - b.cur_pos) r (omega arith) (omega arith),
)

-- It does not: a CONT PPDU, or no PPDU.
push_cont_lem :
    (b : FragBuf) (conf : Config) (ctx : RleCtx) (burst : ℕ)
    → IsReady b
    → 2 < burst
    → min burst 2049 - 2 < b.alpdu.end - b.cur_pos
    → (use_alpdu_crc conf ≡ true → 4 ≤ b.alpdu.end - b.cur_pos)
    → let n =
        min
          (min burst 2049 - 2)
          (b.alpdu.end - b.cur_pos - (if use_alpdu_crc conf then 4 else 1)) in
      push_cont_or_end b conf burst (min burst 2049) (b.alpdu.end - b.cur_pos) (some ctx) ≡ (
        if n == 0
        then some refused
        else some (pushed (sent b n 2 (cont_end_bytes (cont_hdr ctx.frag_id n))) (some ctx)))
unfolding push_cont_or_end done set_cur_pos
push_cont_lem b conf ctx burst r big more whole = ground (
  arith,
  cont_alpdu_len-min (use_alpdu_crc conf) (b.alpdu.end - b.cur_pos) (min burst 2049 - 2)
      (omega arith) more (omega arith) whole,
  put_cont_ppdu_ready b ctx.frag_id
      (min (min burst 2049 - 2) (b.alpdu.end - b.cur_pos - (if use_alpdu_crc conf then 4 else 1))) r
      (omega arith) (omega arith),
)

end-Agrees :
    (b : FragBuf) (conf : Config) (ctx : RleCtx) (f : Flow) (burst : ℕ)
    → IsReady b
    → IsFlow b conf ctx f
    → 2 < burst
    → leb (length f.left) (min burst 2049 - 2) ≡ true
    → Agrees b conf
        (some
          (cont_end_bytes (end_hdr f.frag_id (length f.left)) ++ f.left, record f { left = [] }))
        (push_cont_or_end b conf burst (min burst 2049) (b.alpdu.end - b.cur_pos) (some ctx))
end-Agrees b conf ctx f burst r v big fits = (
  sent b n 2 hdr,
  ctx,
  push_end_lem b conf ctx burst r big (ground (arith, length_left v)),
  subst (λ ppdu. IsSentAs b (sent b n 2 hdr) conf ctx ppdu (record f { left = [] }))
      (ap₂ (λ id len. cont_end_bytes (end_hdr id len) ++ slice b.buffer b.cur_pos n) (sym v.frag_id)
          (sym (length_left v))
        ∙ ap (λ l. cont_end_bytes (end_hdr f.frag_id (length f.left)) ++ l) (sym v.left))
      (sent-IsSentAs b conf ctx f (record f { left = [] }) n 2 hdr r
        (length-cont_end_bytes (end_hdr ctx.frag_id n)) (omega arith) (omega arith) (omega arith)
        (omega arith) v.frag_id v.use_crc (λ h. absurd (h refl)) nothing v.trailer_len
        (λ h. absurd (h refl)) v.seq),
)
  where
    n : ℕ
    n = b.alpdu.end - b.cur_pos

    hdr : List ℕ
    hdr = cont_end_bytes (end_hdr ctx.frag_id n)

    nothing : [] ≡ slice b.buffer (b.cur_pos + n) (b.alpdu.end - (b.cur_pos + n))
    nothing = sym (
        ap (slice b.buffer (b.cur_pos + n))
          (let e : b.alpdu.end - (b.cur_pos + n) ≡ 0 = omega arith in e)
        ∙ slice-zero b.buffer (b.cur_pos + n))

cont_sent :
    (b : FragBuf) (conf : Config) (ctx : RleCtx) (f : Flow) (n : ℕ)
    → IsReady b
    → IsFlow b conf ctx f
    → f.started ≡ true
    → 0 < n
    → n ≤ length f.left - length f.trailer
    → IsSentAs b
        (sent b n 2 (cont_end_bytes (cont_hdr ctx.frag_id n)))
        conf
        ctx
        (cont_end_bytes (cont_hdr f.frag_id n) ++ take n f.left)
        (record f { left = drop n f.left })
cont_sent b conf ctx f n r v st pos fits =
    subst
      (λ ppdu.
        IsSentAs b (sent b n 2 (cont_end_bytes (cont_hdr ctx.frag_id n))) conf ctx ppdu
          (record f { left = drop n f.left }))
      (ap₂ (λ id xs. cont_end_bytes (cont_hdr id n) ++ xs) (sym v.frag_id) (sym taken))
      (sent-IsSentAs b conf ctx f (record f { left = drop n f.left }) n 2
        (cont_end_bytes (cont_hdr ctx.frag_id n)) r (length-cont_end_bytes (cont_hdr ctx.frag_id n))
        (omega arith) (omega arith) pos (omega (arith, length_left v)) v.frag_id v.use_crc (λ h. st)
        dropped v.trailer_len (λ h. omega (arith, length-drop n f.left)) v.seq)
  where
    total : ℕ
    total = b.alpdu.end - b.cur_pos

    taken : take n f.left ≡ slice b.buffer b.cur_pos n
    taken =
        ap (take n) v.left ∙ take-slice b.buffer b.cur_pos n total (omega (arith, length_left v))

    dropped : drop n f.left ≡ slice b.buffer (b.cur_pos + n) (b.alpdu.end - (b.cur_pos + n))
    dropped =
        ap (drop n) v.left
        ∙ (drop-slice b.buffer b.cur_pos n total (omega (arith, length_left v))
            ∙ ap (slice b.buffer (b.cur_pos + n))
                (let e : total - n ≡ b.alpdu.end - (b.cur_pos + n) = omega arith in e))

cont-Agrees :
    (b : FragBuf) (conf : Config) (ctx : RleCtx) (f : Flow) (burst : ℕ)
    → IsReady b
    → IsFlow b conf ctx f
    → f.started ≡ true
    → 2 < burst
    → leb (length f.left) (min burst 2049 - 2) ≡ false
    → Agrees b conf
        (let n = min (min burst 2049 - 2) (length f.left - length f.trailer) in
          if n == 0
          then none
          else some (
            cont_end_bytes (cont_hdr f.frag_id n) ++ take n f.left,
            record f { left = drop n f.left },
          ))
        (push_cont_or_end b conf burst (min burst 2049) (b.alpdu.end - b.cur_pos) (some ctx))
cont-Agrees b conf ctx f burst r v st big more = elim (Bool-cases (m == 0)) [
  | inl zero_len ↦ rw zero_len (step ∙ (rw (sym same, zero_len)))
  | inr some_len ↦ rw some_len (
    sent b m 2 (cont_end_bytes (cont_hdr ctx.frag_id m)),
    ctx,
    step ∙ rw (← same, some_len),
    cont_sent b conf ctx f m r v st (ground arith) (ground arith),
  )
]
  where
    n : ℕ
    n = min (min burst 2049 - 2) (b.alpdu.end - b.cur_pos - (if use_alpdu_crc conf then 4 else 1))

    m : ℕ
    m = min (min burst 2049 - 2) (length f.left - length f.trailer)

    same : m ≡ n
    same = ground (arith, length_left v, v.trailer_len, v.use_crc)

    step : push_cont_or_end b conf burst (min burst 2049) (b.alpdu.end - b.cur_pos) (some ctx) ≡ (
        if n == 0
        then some refused
        else some (pushed (sent b n 2 (cont_end_bytes (cont_hdr ctx.frag_id n))) (some ctx)))
    step =
        push_cont_lem b conf ctx burst r big (ground (arith, length_left v))
          (ground (arith, length_left v, v.trailer_len, v.use_crc, v.whole st))

push_small :
    (b : FragBuf) (conf : Config) (ctx : RleCtx) (burst remain : ℕ)
    → leb burst 2 ≡ true
    → push_cont_or_end b conf burst (min burst 2049) remain (some ctx) ≡ some refused
unfolding push_cont_or_end
push_small b conf ctx burst remain small = rw small

next_started-Agrees :
    (b : FragBuf) (conf : Config) (ctx : RleCtx) (f : Flow) (burst : ℕ)
    → IsReady b
    → IsFlow b conf ctx f
    → f.started ≡ true
    → 2 < burst
    → Agrees b conf
        (next_started f (min burst 2049 - 2))
        (push_cont_or_end b conf burst (min burst 2049) (b.alpdu.end - b.cur_pos) (some ctx))
unfolding next_started
next_started-Agrees b conf ctx f burst r v st big =
    elim (Bool-cases (leb (length f.left) (min burst 2049 - 2))) [
      | inl fits ↦ rw fits (end-Agrees b conf ctx f burst r v big fits)
      | inr more ↦ rw more (cont-Agrees b conf ctx f burst r v st big more)
    ]

next_ppdu_started :
    (f : Flow) (burst : ℕ)
    → f.started ≡ true
    → next_ppdu f burst ≡ (if leb burst 2 then none else next_started f (min burst 2049 - 2))
unfolding next_ppdu
next_ppdu_started f burst st = ground arith

-- `push_ppdu_hdr` for an ALPDU of which something is sent.
pub started-Agrees :
    (b : FragBuf) (conf : Config) (ctx : RleCtx) (f : Flow) (burst : ℕ)
    → IsReady b
    → IsFlow b conf ctx f
    → f.started ≡ true
    → Agrees b conf (next_ppdu f burst) (push_ppdu_hdr b conf burst (some ctx))
started-Agrees b conf ctx f burst r v st =
    rw
      (
        push_ppdu_hdr_started b conf burst (some ctx) r (ground (arith, v.started)),
        next_ppdu_started f burst st,
      )
      (elim (Bool-cases (leb burst 2)) [
        | inl small ↦ rw small (push_small b conf ctx burst (b.alpdu.end - b.cur_pos) small)
        | inr big ↦ rw big (next_started-Agrees b conf ctx f burst r v st (ground arith))
      ])
