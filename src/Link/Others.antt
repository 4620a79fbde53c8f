-- ===== src/Link/Others.antt =====
-- Contexts whose PPDUs arrive interleaved (src/rle_receiver.c).
use librle.Prelude.{ℕ, ◌≡◌, ◌==◌, false, some, List, ap, ◌∙◌, sym, subst, inl, inr}
use librle.Constants.{Sdu}
use librle.Ctx.{RleCtx}
use librle.Alpdu.Layout.{Layout}
use librle.Ppdu.Flow.{Flow, next_ppdu}
use librle.Receiver.{Receiver}
use librle.Link.Receiving.{IsHeld, IsReceiving, IsSameBut, TakesTrailer}
use librle.Link.Fresh.{IsSendable, IsFresh}
use librle.Link.Step.{IsWaiting, IsLinked, Follows}
use librle.Link.Follow.{deencap_data-Follows}

trailer_kept :
    (r u : Receiver) (i : ℕ) (f : Flow) (s : Sdu)
    → IsSameBut r u i
    → (f.frag_id == i) ≡ false
    → TakesTrailer (r.is_ctx_seqnum_init f.frag_id) (r.rle_ctx_man f.frag_id).next_seq_nb f s
    → TakesTrailer (u.is_ctx_seqnum_init f.frag_id) (u.rle_ctx_man f.frag_id).next_seq_nb f s
trailer_kept r u i f s same other h =
    subst (λ b. TakesTrailer b (u.rle_ctx_man f.frag_id).next_seq_nb f s)
      (sym (same.init f.frag_id other))
      (subst (λ (c : RleCtx). TakesTrailer (r.is_ctx_seqnum_init f.frag_id) c.next_seq_nb f s)
        (sym (same.ctx f.frag_id other)) h)

IsWaiting-kept :
    (r u : Receiver) (i : ℕ) (f : Flow) (s : Sdu) (l : Layout)
    → IsSameBut r u i
    → (f.frag_id == i) ≡ false
    → IsWaiting r f s l
    → IsWaiting u f s l
IsWaiting-kept r u i f s l same other w = record {
  fresh = subst (λ c. IsFresh c s l f) (sym same.conf) w.fresh;
  map = same.map;
  free = same.free f.frag_id w.fresh.index other ∙ w.free;
  trailer = trailer_kept r u i f s same other w.trailer;
}

IsReceiving-kept :
    (r u : Receiver) (i : ℕ) (f : Flow) (s : Sdu) (body : List ℕ)
    → IsSameBut r u i
    → (f.frag_id == i) ≡ false
    → IsReceiving r f s body
    → IsReceiving u f s body
IsReceiving-kept r u i f s body same other v = record {
  index = v.index;
  map = same.map;
  busy = same.free f.frag_id v.index other ∙ v.busy;
  use_crc = ap (λ (c : RleCtx). c.use_crc) (same.ctx f.frag_id other) ∙ v.use_crc;
  held = subst (λ b. IsHeld b f s body) (sym (same.buf f.frag_id other)) v.held;
  trailer = trailer_kept r u i f s same other v.trailer;
}

pub IsLinked-kept :
    (r u : Receiver) (i : ℕ) (f : Flow) (s : Sdu) (l : Layout)
    → IsSameBut r u i
    → (f.frag_id == i) ≡ false
    → IsLinked r f s l
    → IsLinked u f s l
IsLinked-kept r u i f s l same other (inl (st, w)) =
    inl (st, IsWaiting-kept r u i f s l same other w)
IsLinked-kept r u i f s l same other (inr (st, v, trailer)) =
    inr (st, IsReceiving-kept r u i f s l.1 same other v, trailer)

-- While the flows of several contexts are received, the next PPDU of one of them, whatever follows it
-- in the FPDU, is followed in its context, and the receiver stays where every flow of another
-- context is.
pub deencap_data-interleaved :
    (r : Receiver) (f : Flow) (s : Sdu) (l : Layout) (rest : List ℕ) (burst : ℕ) (ppdu : List ℕ)
    (g : Flow)
    → IsSendable r.conf s
    → IsLinked r f s l
    → next_ppdu f burst ≡ some (ppdu, g)
    → (a : Follows r f s l ppdu rest g) × ((o : Flow) (os : Sdu) (ol : Layout)
        → (o.frag_id == f.frag_id) ≡ false
        → IsLinked r o os ol
        → IsLinked a.0 o os ol)
deencap_data-interleaved r f s l rest burst ppdu g ok linked h =
    let a = deencap_data-Follows r f s l rest burst ppdu g ok linked h in
    (a, λ o os ol other v. IsLinked-kept r a.0 f.frag_id o os ol a.1 other v)
