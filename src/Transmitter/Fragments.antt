-- ===== src/Transmitter/Fragments.antt =====
-- `rle_fragment` (src/fragmentation.c) against the flow that its context has to send.
use librle.Prelude.{
  set_at, ◌∷◌, ℕ, ◌-◌, ◌≡◌, ◌≢◌, true, false, Option, none, some, List, [], length, arith, refl,
  ◌==◌, ◌∙◌, sym, ap, leb, Bool-cases, inl, inr, subst, ◌>>=◌,
}
use librle.Ctx.{RleCtx, incr_counter_ok, incr_counter_bytes_ok}
use librle.Ctx.Map.{FreedMap, freed_map}
use librle.FragBuf.{FragBuf}
use librle.FragBuf.Wf.{IsValid}
use librle.Ppdu.{push_ppdu_hdr, Pushed, refused, pushed}
use librle.Ppdu.Flow.{Flow, Sent, next_ppdu}
use librle.Ppdu.Refine.{IsSentAs, Agrees}
use librle.Ppdu.Refine.Whole.{push_ppdu_hdr-Agrees}
use librle.Transmitter.{Transmitter, Fragment, frag_err_burst_too_small, fragment, finish_fragment}
use librle.Transmitter.Sending.{Answers, IsSending}
use librle.Transmitter.Sent.{
  IsBuilt, IsSentAs-IsBuilt, finish_last, finish_more, ppdu_init-ready, ready, ready-IsFlow,
  ready-IsReady, ready-IsUnsentFlow, sent-IsValid, sent_started, sent_to, sent_to-IsSending,
  set_at_other, set_at_same,
}

empty_of_length : (xs : List ℕ) → (length xs == 0) ≡ true → xs ≡ []
empty_of_length [] h = refl
empty_of_length (x ∷ xs) h = absurd (ground arith)

nonempty_of_length : (xs : List ℕ) → (length xs == 0) ≡ false → xs ≢ []
nonempty_of_length [] h e = cc
nonempty_of_length (x ∷ xs) h e = ground arith

same_id :
    (t : Transmitter) (i : ℕ) (c : FragBuf) (ctx : RleCtx) (map len : ℕ)
    → ((sent_to t i c ctx map len).rle_ctx_man i).frag_id ≡ ctx.frag_id
unfolding sent_to incr_counter_bytes_ok
same_id t i c ctx map len =
    ap (λ (x : RleCtx). x.frag_id) (set_at_same t.rle_ctx_man i (incr_counter_bytes_ok ctx len))

same_seq :
    (t : Transmitter) (i : ℕ) (c : FragBuf) (ctx : RleCtx) (map len : ℕ)
    → ((sent_to t i c ctx map len).rle_ctx_man i).next_seq_nb ≡ ctx.next_seq_nb
unfolding sent_to incr_counter_bytes_ok
same_seq t i c ctx map len =
    ap (λ (x : RleCtx). x.next_seq_nb) (set_at_same t.rle_ctx_man i (incr_counter_bytes_ok ctx len))

others_same :
    (t : Transmitter) (i : ℕ) (c : FragBuf) (ctx : RleCtx) (map len j : ℕ)
    → (j == i) ≡ false
    → ((sent_to t i c ctx map len).rle_ctx_man j ≡ t.rle_ctx_man j)
      × ((sent_to t i c ctx map len).frag_bufs j ≡ t.frag_bufs j)
unfolding sent_to
others_same t i c ctx map len j e = (
  set_at_other t.rle_ctx_man i (incr_counter_bytes_ok ctx len) j e,
  set_at_other t.frag_bufs i c j e,
)

finish-Answers :
    (t : Transmitter) (i : ℕ) (b c : FragBuf) (ctx : RleCtx) (ppdu : List ℕ) (f g : Flow)
    → IsSending t i f
    → IsValid b
    → IsSentAs b c t.conf ctx ppdu g
    → Answers t i (some (ppdu, g)) (finish_fragment t i c ctx)
unfolding sent_to incr_counter_ok
finish-Answers t i b c ctx ppdu f g w v s = elim (Bool-cases (length g.left == 0)) [
  | inl last ↦ (
    sent_to t i c (incr_counter_ok ctx) freed.0 len,
    finish_last t i c ctx ppdu len freed.0
        (subst (IsBuilt c ppdu len) (let e : length g.left ≡ 0 = ground arith in e)
          (IsSentAs-IsBuilt v s))
        freed.1,
    record {
      conf = refl;
      map = freed.2;
      id = same_id t i c (incr_counter_ok ctx) freed.0 len ∙ sym s.flow.0;
      seq = λ off.
          let (n, trailer, next) = s.seq off in
          (n, trailer, same_seq t i c (incr_counter_ok ctx) freed.0 len ∙ next);
      others_free = λ j hj e. freed.3 j hj ∙ rw e;
      others = λ j e. others_same t i c (incr_counter_ok ctx) freed.0 len j e;
      freed = freed.3 i w.index ∙ rw last (ground arith);
      next = λ more. absurd (more (empty_of_length g.left last));
    },
  )
  | inr more ↦ (
    sent_to t i c ctx t.free_ctx len,
    finish_more t i c ctx ppdu len (length g.left) (IsSentAs-IsBuilt v s) more,
    record {
      conf = refl;
      map = w.map;
      id = same_id t i c ctx t.free_ctx len ∙ sym s.flow.0;
      seq = λ off.
          let (n, trailer, next) = s.seq off in
          (n, trailer, same_seq t i c ctx t.free_ctx len ∙ next);
      others_free = λ j hj e. refl;
      others = λ j e. others_same t i c ctx t.free_ctx len j e;
      freed = w.busy ∙ sym more;
      next = λ some_left.
          sent_to-IsSending t i c ctx g t.free_ctx len w.index w.map w.busy
            (sent-IsValid v s some_left) (s.next some_left) (sent_started s some_left);
    },
  )
]
  where
    len : ℕ
    len = c.ppdu.end - c.ppdu.start

    freed : FreedMap t.free_ctx i
    freed = freed_map t.free_ctx i w.map w.index

-- What `fragment` does with the answer of `push_ppdu_hdr`.
after_push : Transmitter → ℕ → FragBuf → Pushed → Option Fragment
unfolding finish_fragment
after_push t i b refused = some (record {
  status = frag_err_burst_too_small;
  transmitter = record t { frag_bufs = set_at t.frag_bufs i b };
  ppdu = some [];
})
after_push t i b (pushed c none) = none
after_push t i b (pushed c (some ctx)) = finish_fragment t i c ctx

fragment_busy :
    (t : Transmitter) (i burst : ℕ) (f : Flow)
    → IsSending t i f
    → fragment t i burst ≡ (
        push_ppdu_hdr (ready (t.frag_bufs i)) t.conf burst (some (t.rle_ctx_man i))
        >>= after_push t i (ready (t.frag_bufs i)))
unfolding fragment after_push
fragment_busy t i burst f w = rw (
  (let e : leb 8 i ≡ false = ground (arith, w.index) in e),
  w.busy,
  ppdu_init-ready (t.frag_bufs i) w.valid,
)

answers :
    (t : Transmitter) (i : ℕ) (f : Flow) (s : Sent) (r : Option Pushed)
    → IsSending t i f
    → Agrees (ready (t.frag_bufs i)) t.conf s r
    → Answers t i s (r >>= after_push t i (ready (t.frag_bufs i)))
unfolding after_push
answers t i f none r w e = (ready (t.frag_bufs i), rw e)
answers t i f (some (ppdu, g)) r w (c, ctx, e, s) = rw e (
    finish-Answers t i (ready (t.frag_bufs i)) c ctx ppdu f g w
      (ready-IsReady (t.frag_bufs i) w.valid).valid s)

-- For a context in use that has a flow to send, `rle_fragment` returns OK with exactly the next
-- PPDU of the flow, or reports a burst that is too small when the flow has no PPDU of that size.
-- After a PPDU the context has the rest of the flow to send; it is free exactly if nothing is left;
-- the other contexts and the configuration are as they were.
pub fragment-Answers :
    (t : Transmitter) (i burst : ℕ) (f : Flow)
    → IsSending t i f
    → Answers t i (next_ppdu f burst) (fragment t i burst)
fragment-Answers t i burst f w = rw (fragment_busy t i burst f w) (
    answers t i f (next_ppdu f burst)
      (push_ppdu_hdr (ready (t.frag_bufs i)) t.conf burst (some (t.rle_ctx_man i))) w
      (push_ppdu_hdr-Agrees (ready (t.frag_bufs i)) t.conf (t.rle_ctx_man i) f burst
        (ready-IsReady (t.frag_bufs i) w.valid) (ready-IsFlow w.flow)
        (λ h. ready-IsUnsentFlow (w.unsent h))))
