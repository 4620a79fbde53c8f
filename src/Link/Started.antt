-- ===== src/Link/Started.antt =====
-- The START PPDU of a flow at the receiver, `reassembly_start_ppdu` of src/reassembly.c as a whole.
use librle.Prelude.{
  ℕ, ◌+◌, ◌<◌, ◌≤◌, ◌≡◌, ◌==◌, Bool, true, some, List, ◌++◌, length, take, arith, refl, ap, ◌∙◌,
  sym, subst, if◌then◌else◌, append_assoc, length-append, take-append_long, take-first, ==_self,
}
use librle.Constants.{Sdu}
use librle.Config.{Config}
use librle.Ptype.{get_alpdu_label_type}
use librle.Ctx.{is_free}
use librle.Ctx.Map.{used_map}
use librle.Header.{
  start_bytes, is_signal, is_suppressed, start_get_total_len, start_set_total_len, set_ppdu_len,
  ContEndHdr,
}
use librle.Header.Laws.{start_get_total_len-set_total_len}
use librle.Alpdu.Layout.{Layout}
use librle.Extract.{extracted, alpdu_extract}
use librle.Extract.Found.{Rebuilds}
use librle.Extract.Layout.{alpdu_extract-layout}
use librle.Ppdu.{to_bit}
use librle.Ppdu.Put.{start_hdr}
use librle.Ppdu.Flow.{Flow}
use librle.Receiver.{Receiver, c_ok}
use librle.Reassembly.{start_sizes, deencap_data}
use librle.Link.Headers.{read_start_prefix, read_start_whole, deencap_start}
use librle.Link.Receiving.{IsReceiving, IsSameBut, TakesTrailer}
use librle.Link.Fresh.{IsSendable, IsFresh, layout-short, Rebuilds-length, start_sizes_lem}
use librle.Link.Start.{
  begun, counted, start_ppdu_step, drop_start, is_suppressed-to_bit, crc_of_bit, taken,
  start-IsHeld, begun-IsReceiving, begun-IsSameBut, begun_flow,
}

-- The ALPDU header is read where it is sent.
pub fresh_extract :
    (conf : Config) (f : Flow) (s : Sdu) (l : Layout) (rest : List ℕ) (k : ℕ)
    → IsSendable conf s
    → IsFresh conf s l f
    → 0 < k
    → k ≤ length l.1
    → k < 65536
    → (comp : ℕ) × (alpdu_extract
          (is_suppressed (to_bit (f.hdr_len == 0)))
          (is_signal f.label_type)
          conf
          (take (length l.0 + k) f.left ++ rest)
          (length l.0 + k)
        ≡ some (extracted (taken s.protocol_type comp (take k l.1 ++ rest) k (length l.0))))
      × Rebuilds comp s.protocol_type s.buffer l.1
fresh_extract conf f s l rest k ok fresh pos fits small =
    let (comp, got, r) =
      alpdu_extract-layout conf s.protocol_type conf.type_0_alpdu_label_size k s.buffer
        (take k l.1 ++ rest) l fresh.laid ok.ptype ok.honest pos small
        (take-first k l.1 rest pos fits) in
    (
      comp,
      rw
          (
            is_suppressed-to_bit (f.hdr_len == 0),
            fresh.label_type,
            fresh.hdr_len,
            ap (take (length l.0 + k)) fresh.left ∙ take-append_long k l.0 l.1,
            append_assoc l.0 (take k l.1) rest,
          )
          got,
      r,
    )

pub label_type-lt :
    (ptype size : ℕ) (suppressed : Bool) → get_alpdu_label_type ptype suppressed size < 4
unfolding get_alpdu_label_type
label_type-lt ptype size suppressed = ground arith

-- The total length of a fresh flow, of which the receiver takes the length of the body.
fresh_sizes :
    (f : Flow) (s : Sdu) (l : Layout) (k : ℕ)
    → length l.0 ≤ 3
    → length l.1 ≤ 4088
    → k ≤ length l.1
    → f.left ≡ l.0 ++ l.1
    → length f.trailer ≡ (if f.use_crc then 4 else 1)
    → start_sizes
        (start_get_total_len (start_set_total_len (length f.left + length f.trailer)))
        (length l.0)
        k
        f.use_crc
      ≡ record { sdu_total_len = some (length l.1); use_crc_set = true }
fresh_sizes f s l k short small fits left trailer =
    ap (λ n. start_sizes n (length l.0) k f.use_crc)
      (start_get_total_len-set_total_len (length f.left + length f.trailer) total_small
        ∙ ap (λ n. n + length f.trailer) (ap length left ∙ length-append l.0 l.1))
    ∙ start_sizes_lem (length l.0) (length l.1) k (length f.trailer) f.use_crc short small fits
        trailer
  where
    total_small : length f.left + length f.trailer < 4096
    total_small = ground (arith, ap length left, length-append l.0 l.1)

-- The START PPDU of a flow that has just been started for an SDU that the receiver can restore, with
-- the ALPDU header and 1 to 2045 more bytes of the ALPDU in all, none of them of the trailer, starts a
-- reassembly in a free context, whatever follows the PPDU in the FPDU, if the configuration is
-- the sender's and the receiver will take the trailer; the other contexts are as before.
pub receives_start :
    (r : Receiver) (f : Flow) (s : Sdu) (l : Layout) (rest : List ℕ) (k : ℕ)
    → IsSendable r.conf s
    → IsFresh r.conf s l f
    → r.free_ctx < 256
    → is_free r.free_ctx f.frag_id ≡ true
    → TakesTrailer (r.is_ctx_seqnum_init f.frag_id) (r.rle_ctx_man f.frag_id).next_seq_nb f s
    → 0 < k
    → k ≤ length l.1
    → length l.0 + k < 2046
    → let n = length l.0 + k in
      (u : Receiver) × (deencap_data r
          (start_bytes (
              start_hdr f.frag_id f.label_type
                (f.hdr_len == 0)
                f.use_crc
                (length f.left + length f.trailer)
                (n + 2))
            ++ (take n f.left ++ rest))
          (n + 4)
        ≡ some (c_ok, some f.frag_id, u))
      × IsReceiving u (begun_flow f n) s l.1
      × IsSameBut r u f.frag_id
receives_start r f s l rest k ok fresh map free takes pos fits small =
    let n = length l.0 + k in
    let i = f.frag_id in
    let total = length f.left + length f.trailer in
    let xs = take n f.left ++ rest in
    let hdr = start_hdr i f.label_type (f.hdr_len == 0) f.use_crc total (n + 2) in
    let bytes = start_bytes hdr ++ xs in
    let id : ContEndHdr = record {
      start_ind = 1;
      end_ind = 0;
      pkt_len = set_ppdu_len (n + 2);
      frag_id = i;
    } in
    let (comp, got, rebuilds) = fresh_extract r.conf f s l rest k ok fresh pos fits (omega arith) in
    let lens =
      Rebuilds-length comp s.protocol_type s.buffer l.1
        (omega (arith, ok.sdu.whole, ok.sdu.some_bytes)) rebuilds in
    let (b, made, held) =
      start-IsHeld (r.rasm_bufs i) f s l rest k comp ok.sdu fresh.left pos fits rebuilds in
    let (d, used, d_small, others) = used_map r.free_ctx i map fresh.index in
    let e =
      read_start_prefix i f.label_type (f.hdr_len == 0) f.use_crc total (n + 2) xs fresh.index in
    (
      begun r i d (counted (r.rle_ctx_man i) (n + 4) f.use_crc) b,
      deencap_start r _ bytes id (n + 4) i c_ok e (refl, refl) (omega arith)
          (start_ppdu_step r bytes id hdr n d (start_get_total_len (start_set_total_len total))
            (length l.1) f.use_crc (taken s.protocol_type comp (take k l.1 ++ rest) k (length l.0))
            b e free used
            (read_start_whole i f.label_type (f.hdr_len == 0) f.use_crc total (n + 2) xs fresh.index
              (subst (λ t. t < 4) (sym fresh.label_type)
                (label_type-lt s.protocol_type r.conf.type_0_alpdu_label_size (length l.0 == 0))))
            (omega arith)
            (ap
                (λ t.
                  alpdu_extract (is_suppressed (to_bit (f.hdr_len == 0))) (is_signal f.label_type)
                    r.conf t n)
                (drop_start hdr xs)
              ∙ got)
            refl (crc_of_bit f.use_crc)
            (fresh_sizes f s l k (layout-short r.conf s.protocol_type s.buffer l fresh.laid)
              (omega (arith, lens.1, ok.sdu.whole, ok.sdu.small)) fits fresh.left fresh.trailer_len)
            made),
      begun-IsReceiving r f s l.1 (n + 4) n d b fresh.index d_small
          (others i fresh.index ∙ rw (==_self i) refl) takes held,
      begun-IsSameBut r i d _ b d_small others,
    )
