-- ===== src/Link/Cont.antt =====
-- `reassembly_cont_ppdu` (src/reassembly.c) on a CONT PPDU of a flow.
use librle.Prelude.{
  ℕ, ◌+◌, ◌<◌, ◌≤◌, ◌≡◌, false, some, List, ◌++◌, length, take, drop, arith, refl, ap, ◌∙◌, sym,
  subst, set_at, append_assoc, length-append, length-take, take-append_short, drop-append_short,
  take-take_append, take-append-drop,
}
use librle.Prelude.Int.{sub_size}
use librle.Constants.{Sdu}
use librle.Ctx.{is_free, RleCtx, incr_counter_bytes_in}
use librle.Header.{ContEndHdr, read_cont_end, cont_end_bytes}
use librle.Ppdu.Put.{cont_hdr}
use librle.Ppdu.Flow.{Flow}
use librle.RasmBuf.{RasmBuf}
use librle.Receiver.{Receiver, c_ok, set_ctx, set_rasm_buf}
use librle.Reassembly.{cont_ppdu, append_fragment, deencap_data, count_bytes}
use librle.Reassembly.Partial.{IsPartial, append_fragment-IsPartial}
use librle.Transmitter.Sent.{set_at_same, set_at_other}
use librle.Extract.Found.{Rebuilds}
use librle.Link.Headers.{read_cont, deencap_cont}
use librle.Link.Receiving.{IsHeld, IsReceiving, IsSameBut, TakesTrailer}

-- The receiver once context `i` is `ctx` and its buffer `b`.
abbrev pub advanced : Receiver → ℕ → RleCtx → RasmBuf → Receiver
advanced r i ctx b = set_rasm_buf (set_ctx r i ctx) i b

cont_ppdu_lem :
    (r : Receiver) (bytes : List ℕ) (h : ContEndHdr) (n : ℕ) (b : RasmBuf)
    → read_cont_end bytes ≡ some h
    → is_free r.free_ctx h.frag_id ≡ false
    → n < 2048
    → append_fragment (r.rasm_bufs h.frag_id) (drop 2 bytes) n ≡ some (some b)
    → cont_ppdu r bytes (n + 2)
      ≡ some
          (c_ok, h.frag_id, advanced r h.frag_id (count_bytes (r.rle_ctx_man h.frag_id) (n + 2)) b)
unfolding cont_ppdu
cont_ppdu_lem r bytes h n b e busy small appended =
    rw (e, busy, (let e : sub_size (n + 2) 2 ≡ n = ground arith in e), appended) refl

drop_hdr : (h : ContEndHdr) (xs : List ℕ) → drop 2 (cont_end_bytes h ++ xs) ≡ xs
unfolding cont_end_bytes
drop_hdr h xs = refl

-- The fragment is the next bytes of the rest of the body.
next_bytes :
    (n : ℕ) (left remaining trailer : List ℕ)
    → left ≡ remaining ++ trailer
    → n + length trailer ≤ length left
    → (n ≤ length remaining)
      × (take n left ≡ take n remaining)
      × (drop n left ≡ drop n remaining ++ trailer)
next_bytes n left remaining trailer e fits = (
  inside,
  ap (take n) e ∙ take-append_short n remaining trailer inside,
  ap (drop n) e ∙ drop-append_short n remaining trailer inside,
)
  where
    inside : n ≤ length remaining
    inside = omega (arith, ap length e, length-append remaining trailer)

IsHeld-more :
    (b : RasmBuf) (f : Flow) (s : Sdu) (body rest : List ℕ) (n : ℕ)
    → IsHeld b f s body
    → n < 4096
    → n + length f.trailer ≤ length f.left
    → (c : RasmBuf) × (append_fragment b (take n f.left ++ rest) n ≡ some (some c))
      × IsHeld c (record f { left = drop n f.left }) s body
IsHeld-more b f s body rest n v small fits =
    let (inside, taken, dropped) = next_bytes n f.left v.remaining f.trailer v.left fits in
    let (c, appended, holds, size, ptype, comp) =
      (append_fragment-IsPartial b v.got (take n f.left ++ rest) (length body) n v.holds
          (omega (arith, length-append (take n f.left) rest, length-take n f.left)) small).1
        (omega (arith, inside, ap length v.whole, length-append v.got v.remaining)) in
    let same : take n (take n f.left ++ rest) ≡ take n v.remaining =
      take-take_append n f.left rest (omega arith) ∙ taken in
    (
      c,
      appended,
      record {
        got = v.got ++ take n v.remaining;
        remaining = drop n v.remaining;
        whole =
            v.whole
            ∙ (ap (λ t. v.got ++ t) (sym (take-append-drop n v.remaining))
                ∙ sym (append_assoc v.got (take n v.remaining) (drop n v.remaining)));
        left = dropped;
        holds = subst (λ t. IsPartial c (v.got ++ t) (length body)) same holds;
        size = size ∙ v.size;
        ptype = ptype ∙ v.ptype;
        rebuilds = subst (λ p. Rebuilds p s.protocol_type s.buffer body) (sym comp) v.rebuilds;
      },
    )

advanced-IsReceiving :
    (r : Receiver) (f : Flow) (s : Sdu) (body left : List ℕ) (n : ℕ) (b : RasmBuf)
    → IsReceiving r f s body
    → IsHeld b (record f { left = left }) s body
    → IsReceiving
        (advanced r f.frag_id (count_bytes (r.rle_ctx_man f.frag_id) n) b)
        (record f { left = left })
        s
        body
unfolding count_bytes incr_counter_bytes_in
advanced-IsReceiving r f s body left n b v held = record {
  index = v.index;
  map = v.map;
  busy = v.busy;
  use_crc = ap (λ (c : RleCtx). c.use_crc) same_ctx ∙ v.use_crc;
  held =
      subst (λ c. IsHeld c (record f { left = left }) s body)
        (sym (set_at_same r.rasm_bufs f.frag_id b)) held;
  trailer =
      subst
        (λ (c : RleCtx).
          TakesTrailer (r.is_ctx_seqnum_init f.frag_id) c.next_seq_nb (record f { left = left }) s)
        (sym same_ctx) v.trailer;
}
  where
    ctx : RleCtx
    ctx = count_bytes (r.rle_ctx_man f.frag_id) n

    same_ctx : set_at r.rle_ctx_man f.frag_id ctx f.frag_id ≡ ctx
    same_ctx = set_at_same r.rle_ctx_man f.frag_id ctx

advanced-IsSameBut :
    (r : Receiver) (i : ℕ) (ctx : RleCtx) (b : RasmBuf)
    → r.free_ctx < 256
    → IsSameBut r (advanced r i ctx b) i
advanced-IsSameBut r i ctx b small = record {
  conf = refl;
  map = small;
  free = λ j hj e. refl;
  ctx = set_at_other r.rle_ctx_man i ctx;
  buf = set_at_other r.rasm_bufs i b;
  init = λ j e. refl;
}

-- The next `n` bytes of a flow that is received, 1 to 2047 of them and without a byte of the
-- trailer, are taken from a CONT PPDU, whatever follows it in the FPDU; the other contexts are
-- as before.
pub receives_cont :
    (r : Receiver) (f : Flow) (s : Sdu) (body rest : List ℕ) (n : ℕ)
    → IsReceiving r f s body
    → n < 2048
    → n + length f.trailer ≤ length f.left
    → (u : Receiver) × (deencap_data r
          (cont_end_bytes (cont_hdr f.frag_id n) ++ (take n f.left ++ rest))
          (n + 2)
        ≡ some (c_ok, some f.frag_id, u))
      × IsReceiving u (record f { left = drop n f.left }) s body
      × IsSameBut r u f.frag_id
receives_cont r f s body rest n v small fits =
    let (b, appended, held) =
      IsHeld-more (r.rasm_bufs f.frag_id) f s body rest n v.held (omega arith) fits in
    let bytes = cont_end_bytes (cont_hdr f.frag_id n) ++ (take n f.left ++ rest) in
    let h = cont_hdr f.frag_id n in
    let e = read_cont f.frag_id n (take n f.left ++ rest) v.index in
    (
      advanced r f.frag_id (count_bytes (r.rle_ctx_man f.frag_id) (n + 2)) b,
      deencap_cont r _ bytes h n f.frag_id c_ok e (refl, refl) small
          (cont_ppdu_lem r bytes h n b e v.busy small (
            ap (λ t. append_fragment (r.rasm_bufs f.frag_id) t n)
              (drop_hdr h (take n f.left ++ rest))
            ∙ appended)),
      advanced-IsReceiving r f s body (drop n f.left) (n + 2) b v held,
      advanced-IsSameBut r f.frag_id _ b v.map,
    )
