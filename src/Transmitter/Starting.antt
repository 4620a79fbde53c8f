-- ===== src/Transmitter/Starting.antt =====
-- `rle_encapsulate` (src/encap.c) and the flow that it starts.
use librle.Prelude.{
  set_at, ℕ, ◌<◌, ◌≡◌, true, false, ◌||◌, some, [], ◌∷◌, ◌++◌, length, arith, refl, ◌==◌, ◌∙◌, ap,
  sym, if◌then◌else◌, ltb, leb, Bool-cases, inl, inr, subst,
}
use librle.Constants.{Sdu}
use librle.Config.{Config, use_alpdu_crc}
use librle.Config.Laws as ConfigLaws
use librle.Ptype.{get_alpdu_label_type}
use librle.Ctx.{RleCtx, is_free, set_nonfree, incr_counter_in, incr_counter_bytes_in}
use librle.Ctx.Map.{used_map}
use librle.Crc.{compute_crc32}
use librle.Trailer.{le32_bytes}
use librle.FragBuf.Wf.{IsValid}
use librle.FragBuf.{FragBuf}
use librle.Alpdu.{push_alpdu_hdr}
use librle.Alpdu.Filled.{IsAlpdu, Keeps}
use librle.Alpdu.Layout.{Layout, layout}
use librle.Alpdu.Push.{push_alpdu_hdr-Holds}
use librle.Ppdu.Flow.{Flow}
use librle.Ppdu.Refine.{IsFlow, IsUnsentFlow, trailer_bytes}
use librle.Transmitter.{Transmitter, encap_ok, encapsulate}
use librle.Transmitter.Sending.{IsSending}
use librle.Transmitter.Sent.{set_at_same, set_at_other}
use librle.Transmitter.Encapsulated.{
  IsSdu, encap_in_buffer_lem, filled, filled-IsFilled, frag_buf_cpy_sdu_lem, frag_buf_init_lem,
  with_crc,
}

-- The flow of an SDU whose ALPDU is laid out as `l`.
unfoldable pub flow_of : Config → RleCtx → Sdu → Layout → Flow
flow_of conf ctx s l = record {
  frag_id = ctx.frag_id;
  started = false;
  left = l.0 ++ l.1;
  trailer =
      if use_alpdu_crc conf
      then le32_bytes (compute_crc32 s.protocol_type s.buffer)
      else ctx.next_seq_nb ∷ [];
  hdr_len = length l.0;
  label_type = get_alpdu_label_type s.protocol_type (length l.0 == 0) conf.type_0_alpdu_label_size;
  use_crc = use_alpdu_crc conf;
}

-- The flow is what the buffer stands for.
pub alpdu-IsFlow :
    (c : FragBuf) (conf : Config) (ctx : RleCtx) (s : Sdu) (l : Layout)
    → IsAlpdu c l.0 l.1
    → IsFlow c conf ctx (flow_of conf ctx s l)
unfolding flow_of le32_bytes
alpdu-IsFlow c conf ctx s l v = record {
  frag_id = refl;
  use_crc = refl;
  started = (let e : false ≡ ltb c.alpdu.start c.cur_pos = ground (arith, v.unsent.at_start) in e);
  left = sym v.left;
  trailer_len = ground arith;
  whole = λ h. cc;
  seq = λ off. (ctx.next_seq_nb, rw off refl, refl);
}

pub alpdu-IsUnsentFlow :
    (c : FragBuf) (conf : Config) (ctx : RleCtx) (s : Sdu) (l : Layout)
    → IsAlpdu c l.0 l.1
    → c.sdu_info.protocol_type ≡ s.protocol_type
    → (use_alpdu_crc conf ≡ true → c.crc ≡ compute_crc32 s.protocol_type s.buffer)
    → IsUnsentFlow c conf ctx (flow_of conf ctx s l)
unfolding flow_of
alpdu-IsUnsentFlow c conf ctx s l v ptype crc = record {
  unsent = v.unsent;
  trailer = same_trailer;
  hdr_len = v.hdr_len;
  label_type =
      ap (λ p. get_alpdu_label_type p (length l.0 == 0) conf.type_0_alpdu_label_size) (sym ptype);
}
  where
    same_trailer :
        (if use_alpdu_crc conf
          then le32_bytes (compute_crc32 s.protocol_type s.buffer)
          else ctx.next_seq_nb ∷ [])
        ≡ trailer_bytes c conf ctx
    same_trailer = elim (Bool-cases (use_alpdu_crc conf)) [
      | inl on ↦ rw (on, crc on)
      | inr off ↦ rw off
    ]

-- The transmitter behind `encapsulate`.
unfoldable pub started : Transmitter → ℕ → Sdu → FragBuf → ℕ → Transmitter
started t i s c map = record t {
  rle_ctx_man =
      set_at t.rle_ctx_man i (incr_counter_bytes_in (incr_counter_in (t.rle_ctx_man i)) s.size);
  frag_bufs = set_at t.frag_bufs i c;
  free_ctx = map;
}

encapsulate_free :
    (t : Transmitter) (s : Sdu) (i map : ℕ) (c : FragBuf)
    → i < 8
    → is_free t.free_ctx i ≡ true
    → ConfigLaws.IsValid t.conf
    → IsSdu s
    → set_nonfree t.free_ctx i ≡ some map
    → push_alpdu_hdr (with_crc (filled (t.frag_bufs i) s) t.conf s) t.conf ≡ some c
    → encapsulate t s i ≡ some (encap_ok, started t i s c map)
unfolding encapsulate started
encapsulate_free t s i map c hi free valid v e pushed = rw (
  (let e : leb 8 i ≡ false = ground arith in e),
  (let e : (s.size == 0 || ltb 4088 s.size) ≡ false = ground (arith, v.some_bytes, v.small) in e),
  free,
  e,
  frag_buf_init_lem (t.frag_bufs i),
  frag_buf_cpy_sdu_lem (t.frag_bufs i) s v,
  encap_in_buffer_lem (t.frag_bufs i) t.conf s valid v,
  pushed,
)

counted : RleCtx → Sdu → RleCtx
counted ctx s = incr_counter_bytes_in (incr_counter_in ctx) s.size

counted-flow_of :
    (conf : Config) (ctx : RleCtx) (s : Sdu) (l : Layout)
    → flow_of conf (counted ctx s) s l ≡ flow_of conf ctx s l
unfolding counted flow_of incr_counter_bytes_in incr_counter_in
counted-flow_of conf ctx s l = refl

started-IsSending :
    (t : Transmitter) (s : Sdu) (i map : ℕ) (c : FragBuf) (l : Layout)
    → i < 8
    → map < 256
    → is_free map i ≡ false
    → IsAlpdu c l.0 l.1
    → Keeps (with_crc (filled (t.frag_bufs i) s) t.conf s) c
    → IsSending (started t i s c map) i (flow_of t.conf (t.rle_ctx_man i) s l)
unfolding started counted flow_of with_crc filled
started-IsSending t s i map c l hi hm busy v (info, crc) = record {
  index = hi;
  map = hm;
  busy = busy;
  valid = subst IsValid (sym same_buf) v.valid;
  flow =
      subst (λ d. IsFlow d t.conf (u.rle_ctx_man i) f) (sym same_buf)
        (subst (λ x. IsFlow c t.conf x f) (sym same_ctx)
          (subst (IsFlow c t.conf (counted ctx s)) (counted-flow_of t.conf ctx s l)
            (alpdu-IsFlow c t.conf (counted ctx s) s l v)));
  unsent = λ h.
      subst (λ d. IsUnsentFlow d t.conf (u.rle_ctx_man i) f) (sym same_buf)
        (subst (λ x. IsUnsentFlow c t.conf x f) (sym same_ctx)
          (subst (IsUnsentFlow c t.conf (counted ctx s)) (counted-flow_of t.conf ctx s l) (
            alpdu-IsUnsentFlow c t.conf (counted ctx s) s l v (ap (λ x. x.protocol_type) info)
              (λ on. crc ∙ rw on))));
}
  where
    u : Transmitter
    u = started t i s c map

    ctx : RleCtx
    ctx = t.rle_ctx_man i

    f : Flow
    f = flow_of t.conf ctx s l

    same_buf : u.frag_bufs i ≡ c
    same_buf = set_at_same t.frag_bufs i c

    same_ctx : u.rle_ctx_man i ≡ counted ctx s
    same_ctx = set_at_same t.rle_ctx_man i (counted ctx s)

pub filled_size :
    (b : FragBuf) (conf : Config) (s : Sdu)
    → IsSdu s
    → (with_crc (filled b s) conf s).sdu_info.size ≡ length s.buffer
unfolding with_crc filled
filled_size b conf s v = sym v.whole

pub filled_ptype :
    (b : FragBuf) (conf : Config) (s : Sdu)
    → (with_crc (filled b s) conf s).sdu_info.protocol_type ≡ s.protocol_type
unfolding with_crc filled
filled_ptype b conf s = refl

-- What `encapsulate` leaves.
pub encapsulate-started :
    (t : Transmitter) (s : Sdu) (i : ℕ)
    → i < 8
    → t.free_ctx < 256
    → is_free t.free_ctx i ≡ true
    → ConfigLaws.IsValid t.conf
    → IsSdu s
    → (c : FragBuf) × (map : ℕ) × (encapsulate t s i ≡ some (encap_ok, started t i s c map))
encapsulate-started t s i hi hm free valid v =
    let (l, laid, (c, pushed, alpdu, keeps)) =
      push_alpdu_hdr-Holds (with_crc (filled (t.frag_bufs i) s) t.conf s) t.conf s.buffer
        (filled-IsFilled (t.frag_bufs i) t.conf s v) (filled_size (t.frag_bufs i) t.conf s v) in
    let map = used_map t.free_ctx i hm hi in
    (c, map.0, encapsulate_free t s i map.0 c hi free valid v map.1 pushed)

-- For a free context among the eight, a map of 8 bits, a valid configuration and an SDU of 1 to
-- 4088 bytes, `rle_encapsulate` returns OK and keeps the configuration. The context is then in use
-- and has the flow to send that the layout of the ALPDU gives; the other contexts and their buffers
-- are as they were, and stay free or in use.
pub encapsulate-IsSending :
    (t : Transmitter) (s : Sdu) (i : ℕ)
    → i < 8
    → t.free_ctx < 256
    → is_free t.free_ctx i ≡ true
    → ConfigLaws.IsValid t.conf
    → IsSdu s
    → (l : Layout) × (layout t.conf s.protocol_type s.buffer ≡ some l)
      × (u : Transmitter) × (encapsulate t s i ≡ some (encap_ok, u))
      × (u.conf ≡ t.conf)
      × IsSending u i (flow_of t.conf (t.rle_ctx_man i) s l)
      × ((j : ℕ) → j < 8 → (j == i) ≡ false → is_free u.free_ctx j ≡ is_free t.free_ctx j)
      × ((j : ℕ)
          → (j == i) ≡ false
          → (u.rle_ctx_man j ≡ t.rle_ctx_man j) × (u.frag_bufs j ≡ t.frag_bufs j))
unfolding started counted
encapsulate-IsSending t s i hi hm free valid v =
    let (l, laid, (c, pushed, alpdu, keeps)) =
      push_alpdu_hdr-Holds (with_crc (filled (t.frag_bufs i) s) t.conf s) t.conf s.buffer
        (filled-IsFilled (t.frag_bufs i) t.conf s v) (filled_size (t.frag_bufs i) t.conf s v) in
    let map = used_map t.free_ctx i hm hi in
    (
      l,
      sym (ap (λ p. layout t.conf p s.buffer) (filled_ptype (t.frag_bufs i) t.conf s)) ∙ laid,
      started t i s c map.0,
      encapsulate_free t s i map.0 c hi free valid v map.1 pushed,
      refl,
      started-IsSending t s i map.0 c l hi map.2 (map.3 i hi ∙ ground arith) alpdu keeps,
      λ j hj e. map.3 j hj ∙ rw e,
      λ j e. (
        set_at_other t.rle_ctx_man i (counted (t.rle_ctx_man i) s) j e,
        set_at_other t.frag_bufs i c j e,
      ),
    )
