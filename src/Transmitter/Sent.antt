-- ===== src/Transmitter/Sent.antt =====
-- The buffer and the transmitter around the PPDU that `rle_fragment` (src/fragmentation.c) builds.
use librle.Prelude.{
  set_at, ltb_of_lt, ℕ, ◌-◌, ◌<◌, ◌≡◌, ◌≢◌, true, false, some, List, [], length, arith, ◌==◌, ◌∙◌,
  ap, sym, ltb, Bool-cases, inl, inr, subst,
}
use librle.Prelude.Memory.{slice, length-slice, slice-zero}
use librle.Config.{Config}
use librle.Ctx.{RleCtx, is_free, set_free, incr_counter_ok, incr_counter_bytes_ok}
use librle.FragBuf.{FragBuf, ppdu_init, read_at, get_current_ppdu_len, get_remaining_alpdu_length}
use librle.FragBuf.Wf.{IsValid, IsReady}
use librle.Ppdu.Flow.{Flow}
use librle.Ppdu.Refine.{IsFlow, IsUnsentFlow, IsSentAs}
use librle.Transmitter.{Transmitter, frag_ok, finish_fragment, free_context}
use librle.Transmitter.Sending.{IsSending}

-- `ppdu_init` of a valid buffer, and what the buffer stands for then.
unfoldable pub ready : FragBuf → FragBuf
ready b = record b { ppdu = record { start = b.cur_pos; end = b.cur_pos } }

pub ppdu_init-ready : (b : FragBuf) → IsValid b → ppdu_init b ≡ some (ready b)
unfolding ppdu_init ready
ppdu_init-ready b v = ground arith

pub ready-IsReady : (b : FragBuf) → IsValid b → IsReady (ready b)
unfolding ready
ready-IsReady b v = omega arith

pub ready-IsFlow :
    {b : FragBuf} {conf : Config} {ctx : RleCtx} {f : Flow}
    → IsFlow b conf ctx f
    → IsFlow (ready b) conf ctx f
unfolding ready
ready-IsFlow v = record {
  frag_id = v.frag_id;
  use_crc = v.use_crc;
  started = v.started;
  left = v.left;
  trailer_len = v.trailer_len;
  whole = v.whole;
  seq = v.seq;
}

pub ready-IsUnsentFlow :
    {b : FragBuf} {conf : Config} {ctx : RleCtx} {f : Flow}
    → IsUnsentFlow b conf ctx f
    → IsUnsentFlow (ready b) conf ctx f
unfolding ready
ready-IsUnsentFlow u = record {
  unsent = record {
    at_start = u.unsent.at_start;
    no_trailer = u.unsent.no_trailer;
    space = u.unsent.space;
  };
  trailer = u.trailer;
  hdr_len = u.hdr_len;
  label_type = u.label_type;
}

-- The buffer behind a PPDU, as `finish_fragment` asks for it.
pub record IsBuilt (c : FragBuf) (ppdu : List ℕ) (len remaining : ℕ) : Type 0 where
  pub current : get_current_ppdu_len c ≡ some len
  pub bytes : read_at c c.ppdu.start len ≡ some ppdu
  pub long : 2 < len
  pub remaining_len : get_remaining_alpdu_length c ≡ some remaining

pub IsSentAs-IsBuilt :
    {b c : FragBuf} {conf : Config} {ctx : RleCtx} {ppdu : List ℕ} {g : Flow}
    → IsValid b
    → IsSentAs b c conf ctx ppdu g
    → IsBuilt c ppdu (c.ppdu.end - c.ppdu.start) (length g.left)
unfolding get_current_ppdu_len read_at get_remaining_alpdu_length
IsSentAs-IsBuilt {b} {c} {g = g} v s = record {
  current = ground (arith, s.order, s.sdu, v.used, v.inside, v.trailer);
  bytes = ground (arith, s.bytes, s.order);
  long = omega (arith, s.order);
  remaining_len = ground (arith, s.moved, s.sdu, v.used, length_sent);
}
  where
    length_sent : length g.left ≡ c.alpdu.end - c.cur_pos
    length_sent = ap length s.flow.2 ∙ length-slice c.buffer c.cur_pos (c.alpdu.end - c.cur_pos)

-- The transmitter behind a PPDU of `len` bytes; `ctx` is counted up and `map` is the new map.
unfoldable pub sent_to : Transmitter → ℕ → FragBuf → RleCtx → ℕ → ℕ → Transmitter
sent_to t i c ctx map len = record t {
  rle_ctx_man = set_at t.rle_ctx_man i (incr_counter_bytes_ok ctx len);
  frag_bufs = set_at t.frag_bufs i c;
  free_ctx = map;
}

pub finish_last :
    (t : Transmitter) (i : ℕ) (c : FragBuf) (ctx : RleCtx) (ppdu : List ℕ) (len map : ℕ)
    → IsBuilt c ppdu len 0
    → set_free t.free_ctx i ≡ some map
    → finish_fragment t i c ctx
      ≡ some (record {
        status = frag_ok;
        transmitter = sent_to t i c (incr_counter_ok ctx) map len;
        ppdu = some ppdu;
      })
unfolding finish_fragment free_context sent_to
finish_last t i c ctx ppdu len map built e =
    rw (built.current, built.bytes, ltb_of_lt 2 len built.long, built.remaining_len, e)

pub finish_more :
    (t : Transmitter) (i : ℕ) (c : FragBuf) (ctx : RleCtx) (ppdu : List ℕ) (len n : ℕ)
    → IsBuilt c ppdu len n
    → (n == 0) ≡ false
    → finish_fragment t i c ctx
      ≡ some (record {
        status = frag_ok;
        transmitter = sent_to t i c ctx t.free_ctx len;
        ppdu = some ppdu;
      })
unfolding finish_fragment sent_to
finish_more t i c ctx ppdu len n built e =
    rw (built.current, built.bytes, ltb_of_lt 2 len built.long, built.remaining_len, e)

pub set_at_same {ℓ} : {A : Type ℓ} (f : ℕ → A) (i : ℕ) (v : A) → set_at f i v i ≡ v
set_at_same f i v = ground arith

pub set_at_other {ℓ} :
    {A : Type ℓ} (f : ℕ → A) (i : ℕ) (v : A) (j : ℕ) → (j == i) ≡ false → set_at f i v j ≡ f j
set_at_other f i v j e = rw e

pub sent-IsValid :
    {b c : FragBuf} {conf : Config} {ctx : RleCtx} {ppdu : List ℕ} {g : Flow}
    → IsValid b
    → IsSentAs b c conf ctx ppdu g
    → g.left ≢ []
    → IsValid c
sent-IsValid {b} {c} {g = g} v s more = ground (arith, s.inside, s.moved, s.sdu, v.used, some_left)
  where
    some_left : c.cur_pos < c.alpdu.end
    some_left = elim (Bool-cases (ltb c.cur_pos c.alpdu.end)) [
      | inl lt ↦ ground arith
      | inr ge ↦ absurd (
          more (
            s.flow.2
            ∙ (ap (slice c.buffer c.cur_pos)
                  (let e : c.alpdu.end - c.cur_pos ≡ 0 = ground arith in e)
                ∙ slice-zero c.buffer c.cur_pos)))
    ]

-- The flow of a context does not see its counters.
counted-IsFlow :
    {c : FragBuf} {conf : Config} {ctx : RleCtx} {g : Flow} (len : ℕ)
    → IsFlow c conf ctx g
    → IsFlow c conf (incr_counter_bytes_ok ctx len) g
unfolding incr_counter_bytes_ok
counted-IsFlow len v = record {
  frag_id = v.frag_id;
  use_crc = v.use_crc;
  started = v.started;
  left = v.left;
  trailer_len = v.trailer_len;
  whole = v.whole;
  seq = v.seq;
}

-- Once something is sent, the flow is started.
pub sent_started :
    {b c : FragBuf} {conf : Config} {ctx : RleCtx} {ppdu : List ℕ} {g : Flow}
    → IsSentAs b c conf ctx ppdu g
    → g.left ≢ []
    → g.started ≡ true
sent_started {c = c} s more = (s.next more).started ∙ ltb_of_lt c.alpdu.start c.cur_pos s.moved.0

pub sent_to-IsSending :
    (t : Transmitter) (i : ℕ) (c : FragBuf) (ctx : RleCtx) (g : Flow) (map len : ℕ)
    → i < 8
    → map < 256
    → is_free map i ≡ false
    → IsValid c
    → IsFlow c t.conf ctx g
    → g.started ≡ true
    → IsSending (sent_to t i c ctx map len) i g
unfolding sent_to
sent_to-IsSending t i c ctx g map len hi hm busy v w st = record {
  index = hi;
  map = hm;
  busy = busy;
  valid = subst IsValid (sym (set_at_same t.frag_bufs i c)) v;
  flow =
      subst (λ d. IsFlow d t.conf (u.rle_ctx_man i) g) (sym (set_at_same t.frag_bufs i c))
        (subst (λ x. IsFlow c t.conf x g)
          (sym (set_at_same t.rle_ctx_man i (incr_counter_bytes_ok ctx len)))
          (counted-IsFlow len w));
  unsent = λ h. absurd (let e : true ≡ false = sym st ∙ h in cc);
}
  where
    u : Transmitter
    u = sent_to t i c ctx map len
