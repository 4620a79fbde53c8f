-- ===== src/Link/Contextless.antt =====
-- An SDU sent by `rle_encap_contextless` (src/encap.c) and `rle_frag_contextless`
-- (src/fragmentation.c), without a context.
use librle.Prelude.{
  ℕ, ◌+◌, ◌-◌, ◌<◌, ◌≤◌, ◌≡◌, ◌⊎◌, ◌==◌, ◌>>=◌, min, true, some, none, List, ◌++◌, length, arith,
  refl, ap, ◌∙◌, sym, subst, inl, inr, ltb, leb, ltb_of_le, ltb_of_lt, if◌then◌else◌, Bool-cases,
  length-append,
}
use librle.Constants.{Sdu}
use librle.Config.{Config, use_alpdu_crc}
use librle.Crc.{compute_crc32}
use librle.Config.Laws as ConfigLaws
use librle.Ctx.{RleCtx}
use librle.FragBuf.{FragBuf, in_use, frag_buf_init, frag_buf_cpy_sdu}
use librle.FragBuf.Wf.{IsValid}
use librle.Header.{comp_bytes}
use librle.Header.Laws.{length-comp_bytes}
use librle.Alpdu.Layout.{Layout, layout}
use librle.Alpdu.Push.{push_alpdu_hdr-Holds}
use librle.Ppdu.{push_start}
use librle.Ppdu.Put.{comp_hdr}
use librle.Ppdu.Flow.{Flow}
use librle.Ppdu.Refine.{IsFlow, IsUnsentFlow, length_left, sent}
use librle.Ppdu.Refine.Unsent.{push_ppdu_hdr_unsent, push_comp_lem}
use librle.Ppdu.Refine.Whole.{comp_sent}
use librle.Receiver.{Receiver, c_reassembly_ok}
use librle.Transmitter.{
  Transmitter, frag_ok, frag_err, frag_err_burst_too_small, encap_ok, encap_contextless,
  frag_contextless,
}
use librle.Transmitter.Encapsulated.{
  filled, with_crc, filled-IsFilled, frag_buf_init_lem, frag_buf_cpy_sdu_lem, encap_in_buffer_lem,
}
use librle.Transmitter.Sent.{
  IsSentAs-IsBuilt, ready, ready-IsReady, ready-IsFlow, ready-IsUnsentFlow, ppdu_init-ready,
}
use librle.Transmitter.Starting.{
  flow_of, alpdu-IsFlow, alpdu-IsUnsentFlow, filled_size, filled_ptype,
}
use librle.Link.Fresh.{IsSendable, IsFresh}
use librle.Link.Step.{Processes}
use librle.Link.Follow.{Processes-comp}
use librle.Link.Delivery.{flow_of-IsFresh}

-- What `rle_frag_contextless` answers for an ALPDU of `n` bytes and a PPDU of at most `size`: the
-- whole SDU in one PPDU, or no PPDU.
abbrev pub Answered : Config → FragBuf → ℕ → ℕ → Receiver → List ℕ → Sdu → Type 0
Answered conf c n size r rest s =
    ((n + 2 ≤ min size 2049)
      × (d : FragBuf) × (ppdu : List ℕ) × (frag_contextless conf c size
          ≡ some (frag_ok, d, some ppdu))
      × (length ppdu ≡ n + 2)
      × Processes r ppdu rest (c_reassembly_ok s) r)
    ⊎ ((min size 2049 < n + 2)
        × (d : FragBuf) × (frag_contextless conf c size
            ≡ some (if ltb size 2 then frag_err_burst_too_small else frag_err, d, none)))

valid-in_use : (c : FragBuf) → IsValid c → in_use c ≡ true
unfolding in_use
valid-in_use c v = ground (arith, v.used)

-- Without a context there is no START PPDU.
refuses :
    (conf : Config) (c : FragBuf) (size : ℕ)
    → IsValid c
    → c.alpdu.start ≡ c.cur_pos
    → min size 2049 < c.alpdu.end - c.cur_pos + 2
    → (d : FragBuf) × (frag_contextless conf c size
        ≡ some (if ltb size 2 then frag_err_burst_too_small else frag_err, d, none))
unfolding frag_contextless push_start ready
refuses conf c size v unsent big = elim (Bool-cases (ltb size 2)) [
  | inl tiny ↦ rw (valid-in_use c v, tiny) (c, refl)
  | inr room ↦
      rw
        (
          valid-in_use c v,
          room,
          ppdu_init-ready c v,
          push_ppdu_hdr_unsent (ready c) conf size none (ready-IsReady c v) unsent,
          ltb_of_lt (min size 2049) (c.alpdu.end - c.cur_pos + 2) big,
        )
        (ready c, refl)
]

accepts :
    (conf : Config) (c : FragBuf) (ctx : RleCtx) (f : Flow) (size : ℕ)
    → IsValid c
    → IsFlow c conf ctx f
    → IsUnsentFlow c conf ctx f
    → length f.left + 2 ≤ min size 2049
    → (d : FragBuf) × (frag_contextless conf c size
        ≡ some (
          frag_ok,
          d,
          some (comp_bytes (comp_hdr f.label_type (f.hdr_len == 0) (length f.left)) ++ f.left),
        ))
unfolding frag_contextless
accepts conf c ctx f size v flow unsent fits =
    let b = ready c in
    let r = ready-IsReady c v in
    let n = b.alpdu.end - b.cur_pos in
    let len : length f.left ≡ n = length_left (ready-IsFlow flow) in
    let u = ready-IsUnsentFlow unsent in
    let d = sent b n 2 (comp_bytes (comp_hdr f.label_type (f.hdr_len == 0) n)) in
    let built = IsSentAs-IsBuilt r.valid (comp_sent b conf ctx f r (ready-IsFlow flow)) in
    (
      d,
      rw
          (
            valid-in_use c v,
            ltb_of_le size 2 (omega arith),
            ppdu_init-ready c v,
            push_ppdu_hdr_unsent b conf size none r (sym u.unsent.at_start),
            ltb_of_le (min size 2049) (n + 2) (omega arith),
            push_comp_lem b conf none (min size 2049) f.hdr_len f.label_type r (omega arith)
                (omega arith) u.hdr_len u.label_type,
            built.current,
            built.bytes,
          )
          refl,
    )

filled_crc :
    (b : FragBuf) (conf : Config) (s : Sdu)
    → use_alpdu_crc conf ≡ true
    → (with_crc (filled b s) conf s).crc ≡ compute_crc32 s.protocol_type s.buffer
unfolding with_crc
filled_crc b conf s on = rw on refl

-- A context of no receiver, for the parts of a flow that a COMPLETE PPDU does not have.
abbrev no_ctx : Receiver → RleCtx
no_ctx r = record (r.rle_ctx_man 0) { frag_id = 0 }

-- With a valid configuration that is also the receiver's, an SDU that the receiver can restore is
-- copied by `rle_frag_buf_init` and `rle_frag_buf_cpy_sdu` into any buffer, and
-- `rle_encap_contextless` returns OK. If the ALPDU fits, with two bytes of header, the size that is
-- asked for and 2049 bytes, `rle_frag_contextless` returns OK with one PPDU of that length, and the
-- receiver, whatever its contexts hold and whatever follows the PPDU in the FPDU, returns exactly
-- the SDU for it and stays as it is. Otherwise it returns an error and no PPDU.
pub frag_contextless-Answered :
    (t : Transmitter) (b : FragBuf) (s : Sdu) (r : Receiver) (size : ℕ) (rest : List ℕ)
    → ConfigLaws.IsValid t.conf
    → r.conf ≡ t.conf
    → IsSendable t.conf s
    → (l : Layout) × (layout t.conf s.protocol_type s.buffer ≡ some l)
      × (copied : FragBuf) × ((frag_buf_init b >>= λ x. frag_buf_cpy_sdu x s) ≡ some (0, copied))
      × (c : FragBuf) × (encap_contextless (some t) (some copied) ≡ some (encap_ok, some c))
      × Answered t.conf c (length l.0 + length l.1) size r rest s
unfolding encap_contextless flow_of
frag_contextless-Answered t b s r size rest valid same ok =
    let (l, laid, (c, held, alpdu, (info, crc))) =
      push_alpdu_hdr-Holds (with_crc (filled b s) t.conf s) t.conf s.buffer
        (filled-IsFilled b t.conf s ok.sdu) (filled_size b t.conf s ok.sdu) in
    let laid_s : layout t.conf s.protocol_type s.buffer ≡ some l =
      sym (ap (λ p. layout t.conf p s.buffer) (filled_ptype b t.conf s)) ∙ laid in
    let ctx = no_ctx r in
    let f : Flow = flow_of t.conf ctx s l in
    let flow = alpdu-IsFlow c t.conf ctx s l alpdu in
    let unsent =
      alpdu-IsUnsentFlow c t.conf ctx s l alpdu
        (ap (λ x. x.protocol_type) info ∙ filled_ptype b t.conf s)
        (λ on. crc ∙ filled_crc b t.conf s on) in
    let fresh : IsFresh r.conf s l f =
      subst (λ k. IsFresh k s l f) (sym same)
        (flow_of-IsFresh t.conf ctx s l (omega arith) laid_s) in
    let len : length f.left ≡ length l.0 + length l.1 = length-append l.0 l.1 in
    let left : length f.left ≡ c.alpdu.end - c.cur_pos = length_left flow in
    (
      l,
      laid_s,
      filled b s,
      rw (frag_buf_init_lem b) (frag_buf_cpy_sdu_lem b s ok.sdu),
      c,
      rw (encap_in_buffer_lem b t.conf s valid ok.sdu, held) refl,
      elim (Bool-cases (leb (length l.0 + length l.1 + 2) (min size 2049))) [
        | inl fits ↦
            let (d, e) = accepts t.conf c ctx f size alpdu.valid flow unsent (ground arith) in
            inl (
              ground arith,
              d,
              _,
              e,
              omega (
                arith,
                length-append {0}
                    (comp_bytes (comp_hdr f.label_type (f.hdr_len == 0) (length f.left))) f.left,
                length-comp_bytes (comp_hdr f.label_type (f.hdr_len == 0) (length f.left)),
              ),
              Processes-comp r f s l _ rest (subst (λ k. IsSendable k s) (sym same) ok) fresh
                  (ground arith) refl,
            )
        | inr big ↦
            let (d, e) =
              refuses t.conf c size alpdu.valid (sym alpdu.unsent.at_start) (ground arith) in
            inr (ground arith, d, e)
      ],
    )
