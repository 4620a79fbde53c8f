-- ===== src/Link/Start.antt =====
-- `reassembly_start_ppdu` (src/reassembly.c) on the START PPDU of a flow.
use librle.Prelude.{
  ℕ, ◌+◌, ◌<◌, ◌≤◌, ◌≡◌, ◌==◌, none, ◌>>=◌, Bool, true, false, not, some, List, ◌++◌, length, take,
  drop, arith, refl, ap, ◌∙◌, sym, subst, set_at, if◌then◌else◌, take-append-drop, length-append,
  length-take, drop-append_long, take-take_append,
}
use librle.Prelude.Int.{sub_size}
use librle.Constants.{Sdu}
use librle.Ctx.{is_free, set_nonfree, RleCtx, incr_counter_in, incr_counter_bytes_in}
use librle.Header.{
  StartHdr, ContEndHdr, read_cont_end, read_start, start_bytes, is_signal, is_suppressed,
  start_get_total_len,
}
use librle.Alpdu.Layout.{Layout}
use librle.Extract.{Extracted, extracted, alpdu_extract}
use librle.Extract.Found.{Rebuilds}
use librle.Ppdu.{to_bit}
use librle.Ppdu.Flow.{Flow}
use librle.RasmBuf.{RasmBuf}
use librle.Receiver.{Receiver, fail, c_ok}
use librle.Reassembly.{StartSizes, start_ppdu, start_buffer, start_extracted, start_sizes}
use librle.Reassembly.Partial.{IsPartial, start_buffer-IsPartial}
use librle.Transmitter.Encapsulated.{IsSdu}
use librle.Transmitter.Sent.{set_at_same, set_at_other}
use librle.Link.Receiving.{IsHeld, IsReceiving, IsSameBut, TakesTrailer}
use librle.Link.Cont.{advanced}
use librle.Link.Fresh.{Rebuilds-length}

-- The context once a START PPDU of `len` bytes is accepted.
pub counted : RleCtx → ℕ → Bool → RleCtx
counted ctx len crc =
    record (incr_counter_bytes_in (incr_counter_in (record ctx { current_counter = len })) len) {
      use_crc = crc;
    }

-- The receiver with context `i` taken for a reassembly.
pub begun : Receiver → ℕ → ℕ → RleCtx → RasmBuf → Receiver
begun r i map ctx b = advanced (record r { free_ctx = map }) i ctx b

pub is_suppressed-to_bit : (b : Bool) → is_suppressed (to_bit b) ≡ b
unfolding is_suppressed
is_suppressed-to_bit true = refl
is_suppressed-to_bit false = refl

pub crc_of_bit : (b : Bool) → not (to_bit b == 0) ≡ b
crc_of_bit true = refl
crc_of_bit false = refl

start_extracted_lem :
    (r : Receiver) (i total body : ℕ) (ctx : RleCtx) (crc : Bool) (e : Extracted) (b : RasmBuf)
    → start_sizes total e.alpdu_hdr_len e.sdu_frag_len crc
      ≡ record { sdu_total_len = some body; use_crc_set = true }
    → start_buffer (r.rasm_bufs i) e body ≡ some b
    → start_extracted r i ctx total crc (extracted e)
      ≡ some (c_ok, advanced r i (record ctx { use_crc = crc }) b)
unfolding start_extracted
start_extracted_lem r i total body ctx crc e b sizes buf =
    subst
      (λ (z : StartSizes).
        (elim z.sdu_total_len [
          | none ↦ fail r i (if z.use_crc_set then record ctx { use_crc = crc } else ctx)
          | some n ↦ do
            b ← start_buffer (r.rasm_bufs i) e n
            some
                (c_ok, advanced r i (if z.use_crc_set then record ctx { use_crc = crc } else ctx) b)
        ])
        ≡ some (c_ok, advanced r i (record ctx { use_crc = crc }) b))
      (sym sizes) (rw buf refl)

pub start_ppdu_step :
    (r : Receiver) (bytes : List ℕ) (id : ContEndHdr) (h : StartHdr) (n map total body : ℕ)
    (crc : Bool) (e : Extracted) (b : RasmBuf)
    → read_cont_end bytes ≡ some id
    → is_free r.free_ctx id.frag_id ≡ true
    → set_nonfree r.free_ctx id.frag_id ≡ some map
    → read_start bytes ≡ some h
    → n < 2048
    → alpdu_extract
        (is_suppressed h.proto_type_supp)
        (is_signal h.label_type)
        r.conf
        (drop 4 bytes)
        n
      ≡ some (extracted e)
    → start_get_total_len h.total_len ≡ total
    → not (h.use_crc == 0) ≡ crc
    → start_sizes total e.alpdu_hdr_len e.sdu_frag_len crc
      ≡ record { sdu_total_len = some body; use_crc_set = true }
    → start_buffer (r.rasm_bufs id.frag_id) e body ≡ some b
    → start_ppdu r bytes (n + 4)
      ≡ some (
        c_ok,
        id.frag_id,
        begun r id.frag_id map (counted (r.rle_ctx_man id.frag_id) (n + 4) crc) b,
      )
unfolding start_ppdu start_extracted begun counted
start_ppdu_step r bytes id h n map total body crc e b at_id free used at_h small got len on sizes
      buf =
    rw
      (
        at_id,
        free,
        used,
        at_h,
        (let e : sub_size (n + 4) 4 ≡ n = ground arith in e),
        got,
        len,
        on,
        start_extracted_lem (record r { free_ctx = map }) id.frag_id total body _ crc e b sizes buf,
      )
      refl

pub drop_start : (h : StartHdr) (xs : List ℕ) → drop 4 (start_bytes h ++ xs) ≡ xs
unfolding start_bytes
drop_start h xs = refl

-- What is extracted from a START PPDU.
abbrev pub taken : ℕ → ℕ → List ℕ → ℕ → ℕ → Extracted
taken ptype comp_ptype tail k hdr_len = record {
  ptype = ptype;
  comp_ptype = comp_ptype;
  sdu_frag = tail;
  sdu_frag_len = k;
  alpdu_hdr_len = hdr_len;
}

-- The flow behind its START PPDU.
abbrev pub begun_flow : Flow → ℕ → Flow
begun_flow f n = record f { started = true; left = drop n f.left ++ f.trailer }

pub start-IsHeld :
    (b : RasmBuf) (f : Flow) (s : Sdu) (l : Layout) (rest : List ℕ) (k comp : ℕ)
    → IsSdu s
    → f.left ≡ l.0 ++ l.1
    → 0 < k
    → k ≤ length l.1
    → Rebuilds comp s.protocol_type s.buffer l.1
    → (c : RasmBuf) × (start_buffer b
          (taken s.protocol_type comp (take k l.1 ++ rest) k (length l.0))
          (length l.1)
        ≡ some c)
      × IsHeld c (begun_flow f (length l.0 + k)) s l.1
start-IsHeld b f s l rest k comp sdu left pos fits r =
    let lens =
      Rebuilds-length comp s.protocol_type s.buffer l.1 (omega (arith, sdu.whole, sdu.some_bytes))
        r in
    let (c, made, holds, size, ptype, same) =
      start_buffer-IsPartial b (taken s.protocol_type comp (take k l.1 ++ rest) k (length l.0))
        (length l.1) lens.0 (omega (arith, lens.1, sdu.whole, sdu.small)) fits
        (omega (arith, length-append (take k l.1) rest, length-take k l.1)) in
    (
      c,
      made,
      record {
        got = take k l.1;
        remaining = drop k l.1;
        whole = sym (take-append-drop k l.1);
        left =
            ap (λ t. t ++ f.trailer) (ap (drop (length l.0 + k)) left ∙ drop-append_long k l.0 l.1);
        holds = subst (λ t. IsPartial c t (length l.1)) (take-take_append k l.1 rest fits) holds;
        size = size;
        ptype = ptype;
        rebuilds = subst (λ p. Rebuilds p s.protocol_type s.buffer l.1) (sym same) r;
      },
    )

counted_keeps :
    (ctx : RleCtx) (n : ℕ) (crc : Bool)
    → ((counted ctx n crc).use_crc ≡ crc) × ((counted ctx n crc).next_seq_nb ≡ ctx.next_seq_nb)
unfolding counted incr_counter_in incr_counter_bytes_in
counted_keeps ctx n crc = (refl, refl)

pub begun-IsReceiving :
    (r : Receiver) (f : Flow) (s : Sdu) (body : List ℕ) (n k map : ℕ) (b : RasmBuf)
    → f.frag_id < 8
    → map < 256
    → is_free map f.frag_id ≡ false
    → TakesTrailer (r.is_ctx_seqnum_init f.frag_id) (r.rle_ctx_man f.frag_id).next_seq_nb f s
    → IsHeld b (begun_flow f k) s body
    → IsReceiving
        (begun r f.frag_id map (counted (r.rle_ctx_man f.frag_id) n f.use_crc) b)
        (begun_flow f k)
        s
        body
unfolding begun
begun-IsReceiving r f s body n k map b hi hm busy takes held = record {
  index = hi;
  map = hm;
  busy = busy;
  use_crc =
      ap (λ (c : RleCtx). c.use_crc) same_ctx
      ∙ (counted_keeps (r.rle_ctx_man f.frag_id) n f.use_crc).0;
  held =
      subst (λ c. IsHeld c (begun_flow f k) s body) (sym (set_at_same r.rasm_bufs f.frag_id b))
        held;
  trailer =
      subst (λ m. TakesTrailer (r.is_ctx_seqnum_init f.frag_id) m (begun_flow f k) s)
        (sym (
          ap (λ (c : RleCtx). c.next_seq_nb) same_ctx
          ∙ (counted_keeps (r.rle_ctx_man f.frag_id) n f.use_crc).1))
        takes;
}
  where
    ctx : RleCtx
    ctx = counted (r.rle_ctx_man f.frag_id) n f.use_crc

    same_ctx : set_at r.rle_ctx_man f.frag_id ctx f.frag_id ≡ ctx
    same_ctx = set_at_same r.rle_ctx_man f.frag_id ctx

pub begun-IsSameBut :
    (r : Receiver) (i map : ℕ) (ctx : RleCtx) (b : RasmBuf)
    → map < 256
    → ((j : ℕ) → j < 8 → is_free map j ≡ (if j == i then false else is_free r.free_ctx j))
    → IsSameBut r (begun r i map ctx b) i
unfolding begun
begun-IsSameBut r i map ctx b small others = record {
  conf = refl;
  map = small;
  free = λ j hj e. others j hj ∙ rw e refl;
  ctx = set_at_other r.rle_ctx_man i ctx;
  buf = set_at_other r.rasm_bufs i b;
  init = λ j e. refl;
}
