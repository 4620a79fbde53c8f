-- ===== src/Ppdu/Refine.antt =====
-- How a buffer, a configuration and a context stand for a flow (src/header.c).
pub mod Started
pub mod Unsent
pub mod Whole
pub mod Begun
use librle.Prelude.{
  ltb_of_lt, ℕ, ◌+◌, ◌-◌, ◌%◌, ◌≤◌, ◌<◌, ◌≡◌, ◌≢◌, min, Bool, true, false, Option, none, some, List,
  [], ◌∷◌, ◌++◌, length, take, drop, arith, refl, ◌==◌, ◌∙◌, ap, sym, if◌then◌else◌, ltb, leb,
  Bool-cases, inl, inr,
}
use librle.Prelude.Memory.{slice, length-slice, slice-add}
use librle.Prelude.{take-append_length, drop-append_length}
use librle.Config.{Config, use_alpdu_crc}
use librle.Ptype.{get_alpdu_label_type}
use librle.Ctx.{RleCtx, incr_seq_nb}
use librle.FragBuf.{
  f_buff_len, FragBuf, get_remaining_alpdu_length, is_fragmented, get_alpdu_hdr_len, set_cur_pos,
}
use librle.Ppdu.Put.{with_ppdu, with_ppdu_bytes}
use librle.FragBuf.Wf.{IsValid, IsReady, IsUnsent, left_bytes}
use librle.Trailer.{le32_bytes, push_alpdu_trailer}
use librle.Ppdu.{
  push_ppdu_hdr, Pushed, refused, pushed, done, cont_alpdu_len, push_cont_or_end, push_start,
  push_comp,
}
use librle.Ppdu.Flow.{Flow, Sent, next_ppdu, next_started, next_unsent}

-- The bytes of a trailer.
abbrev pub trailer_bytes : FragBuf → Config → RleCtx → List ℕ
trailer_bytes b conf ctx = if use_alpdu_crc conf then le32_bytes b.crc else ctx.next_seq_nb ∷ []

-- Without a CRC the trailer is a sequence number: that of the context, or, once the flow is started,
-- the one before.
abbrev pub Numbers : Config → RleCtx → Flow → Type 0
Numbers conf ctx f =
    use_alpdu_crc conf ≡ false
    → (seq : ℕ) × (f.trailer ≡ seq ∷ [])
      × (ctx.next_seq_nb ≡ (if f.started then (seq + 1) % 256 else seq))

-- What the buffer, the configuration and the context say of the flow.
pub record IsFlow (b : FragBuf) (conf : Config) (ctx : RleCtx) (f : Flow) : Type 0 where
  pub frag_id : f.frag_id ≡ ctx.frag_id
  pub use_crc : f.use_crc ≡ use_alpdu_crc conf
  pub started : f.started ≡ ltb b.alpdu.start b.cur_pos
  pub left : f.left ≡ left_bytes b
  pub trailer_len : length f.trailer ≡ (if f.use_crc then 4 else 1)
  pub whole : f.started ≡ true → length f.trailer ≤ length f.left
  pub seq : Numbers conf ctx f

-- What more it says before the START PPDU.
pub record IsUnsentFlow (b : FragBuf) (conf : Config) (ctx : RleCtx) (f : Flow) : Type 0 where
  pub unsent : IsUnsent b
  pub trailer : f.trailer ≡ trailer_bytes b conf ctx
  pub hdr_len : f.hdr_len ≡ b.sdu.start - b.alpdu.start
  pub label_type :
      f.label_type
      ≡ get_alpdu_label_type b.sdu_info.protocol_type (f.hdr_len == 0) conf.type_0_alpdu_label_size

-- The buffer and the context after the PPDU `ppdu`, with the flow `g` to go on with.
pub record IsSentAs (b c : FragBuf) (conf : Config) (ctx : RleCtx) (ppdu : List ℕ) (g : Flow)
    : Type 0 where
  pub bytes : slice c.buffer c.ppdu.start (c.ppdu.end - c.ppdu.start) ≡ ppdu
  pub order :
      (c.ppdu.start ≤ c.ppdu.end) × (c.ppdu.end ≤ f_buff_len) × (c.ppdu.start + 2 < c.ppdu.end)
  pub sdu : c.sdu ≡ b.sdu
  pub inside :
      (4 ≤ c.alpdu.start)
      × (c.alpdu.start ≤ c.sdu.start)
      × (c.sdu.end ≤ c.alpdu.end)
      × (c.alpdu.end ≤ f_buff_len)
  pub moved : (c.alpdu.start < c.cur_pos) × (c.cur_pos ≤ c.alpdu.end)
  pub flow : (g.frag_id ≡ ctx.frag_id) × (g.use_crc ≡ use_alpdu_crc conf) × (g.left ≡ left_bytes c)
  pub seq : Numbers conf ctx g
  pub next : g.left ≢ [] → IsFlow c conf ctx g

-- `push_ppdu_hdr` answers as the flow does.
abbrev pub Agrees : FragBuf → Config → Sent → Option Pushed → Type 0
Agrees b conf none r = r ≡ some refused
Agrees b conf (some (ppdu, g)) r =
    (c : FragBuf) × (ctx : RleCtx) × (r ≡ some (pushed c (some ctx))) × IsSentAs b c conf ctx ppdu g

pub length_left :
    {b : FragBuf} {conf : Config} {ctx : RleCtx} {f : Flow}
    → IsFlow b conf ctx f
    → length f.left ≡ b.alpdu.end - b.cur_pos
length_left {b} {conf} {ctx} {f} v =
    ap length v.left ∙ length-slice b.buffer b.cur_pos (b.alpdu.end - b.cur_pos)

-- The buffer once `n` bytes are sent behind a header of `k` bytes.
abbrev pub sent : FragBuf → ℕ → ℕ → List ℕ → FragBuf
sent b n k hdr = record (with_ppdu b n k hdr) { cur_pos = b.cur_pos + n }

-- It is as `IsSentAs` says for every flow that has the bytes behind those sent.
pub sent-IsSentAs :
    (b : FragBuf) (conf : Config) (ctx : RleCtx) (f g : Flow) (n k : ℕ) (hdr : List ℕ)
    → IsReady b
    → length hdr ≡ k
    → 2 ≤ k
    → k ≤ 4
    → 0 < n
    → n ≤ b.alpdu.end - b.cur_pos
    → g.frag_id ≡ ctx.frag_id
    → g.use_crc ≡ use_alpdu_crc conf
    → (g.left ≢ [] → g.started ≡ true)
    → g.left ≡ slice b.buffer (b.cur_pos + n) (b.alpdu.end - (b.cur_pos + n))
    → length g.trailer ≡ (if g.use_crc then 4 else 1)
    → (g.left ≢ [] → length g.trailer ≤ length g.left)
    → Numbers conf ctx g
    → IsSentAs b (sent b n k hdr) conf ctx (hdr ++ slice b.buffer b.cur_pos n) g
sent-IsSentAs b conf ctx f g n k hdr r len lo hi pos fits id crc st left tl whole seq = record {
  bytes =
      ap (slice c.buffer (b.cur_pos - k))
        (let e : b.cur_pos + n - (b.cur_pos - k) ≡ k + n = omega arith in e)
      ∙ (with_ppdu_bytes b n k (b.alpdu.end - (b.cur_pos + n)) hdr len (omega arith)).0;
  order = (omega arith, omega arith, omega arith);
  sdu = refl;
  inside = (omega arith, omega arith, omega arith, omega arith);
  moved = (omega arith, omega arith);
  flow = (id, crc, kept);
  seq = seq;
  next = λ some_left. record {
    frag_id = id;
    use_crc = crc;
    started = st some_left ∙ sym (ltb_of_lt b.alpdu.start (b.cur_pos + n) (omega arith));
    left = kept;
    trailer_len = tl;
    whole = λ _. whole some_left;
    seq = seq;
  };
}
  where
    c : FragBuf
    c = sent b n k hdr

    kept : g.left ≡ left_bytes c
    kept =
        left ∙ sym (with_ppdu_bytes b n k (b.alpdu.end - (b.cur_pos + n)) hdr len (omega arith)).1
