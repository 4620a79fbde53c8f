-- ===== src/Link/Comp.antt =====
-- `reassembly_comp_ppdu` (src/reassembly.c) on the COMPLETE PPDU of a flow.
use librle.Prelude.{
  ℕ, ◌+◌, ◌<◌, ◌≡◌, ◌==◌, Option, some, none, List, ◌++◌, length, take, drop, arith, refl, ap, ◌∙◌,
  sym, subst, length-append, take-all,
}
use librle.Prelude.Int.{sub_size}
use librle.Constants.{Sdu}
use librle.Header.{
  CompHdr, ContEndHdr, comp_bytes, read_comp, is_signal, is_suppressed, set_ppdu_len,
}
use librle.Alpdu.Layout.{Layout}
use librle.Extract.{Extracted, Extraction, extracted, alpdu_extract}
use librle.Ppdu.{to_bit}
use librle.Ppdu.Put.{comp_hdr}
use librle.Ppdu.Flow.{Flow}
use librle.Receiver.{Receiver, c_reassembly_ok}
use librle.Reassembly.{comp_ppdu, rebuild_sdu, deencap_data}
use librle.Link.Headers.{read_comp_prefix, read_comp_whole, deencap_comp}
use librle.Link.Rebuilt.{rebuild_sdu-Rebuilds}
use librle.Link.Fresh.{IsSendable, IsFresh}
use librle.Link.Start.{taken}
use librle.Link.Started.{fresh_extract, label_type-lt}

comp_ppdu_step :
    (r : Receiver) (bytes : List ℕ) (h : CompHdr) (n : ℕ) (e : Extracted) (s : Sdu)
    → read_comp bytes ≡ some h
    → n < 2048
    → alpdu_extract
        (is_suppressed h.proto_type_supp)
        (is_signal h.label_type)
        r.conf
        (drop 2 bytes)
        n
      ≡ some (extracted e)
    → rebuild_sdu e.ptype e.comp_ptype e.sdu_frag e.sdu_frag_len ≡ some (some s)
    → comp_ppdu r bytes (n + 2) ≡ some (c_reassembly_ok s)
unfolding comp_ppdu
comp_ppdu_step r bytes h n e s at_h small got rebuilt =
    rw (at_h, (let e : sub_size (n + 2) 2 ≡ n = ground arith in e), got, rebuilt) refl

drop_comp : (h : CompHdr) (xs : List ℕ) → drop 2 (comp_bytes h ++ xs) ≡ xs
unfolding comp_bytes
drop_comp h xs = refl

-- The whole ALPDU of a flow that has just been started, at most 2047 bytes, in a COMPLETE PPDU, gives
-- the receiver exactly the SDU, whatever follows the PPDU in the FPDU, if it can restore it and the
-- configuration is the sender's; the receiver stays as it is.
pub receives_comp :
    (r : Receiver) (f : Flow) (s : Sdu) (l : Layout) (rest : List ℕ)
    → IsSendable r.conf s
    → IsFresh r.conf s l f
    → 0 < length l.1
    → length f.left < 2048
    → deencap_data r
        (comp_bytes (comp_hdr f.label_type (f.hdr_len == 0) (length f.left)) ++ (f.left ++ rest))
        (length f.left + 2)
      ≡ some (c_reassembly_ok s, none, r)
receives_comp r f s l rest ok fresh pos small =
    let n = length f.left in
    let k = length l.1 in
    let lens : length l.0 + k ≡ n = sym (ap length fresh.left ∙ length-append l.0 l.1) in
    let xs = f.left ++ rest in
    let hdr = comp_hdr f.label_type (f.hdr_len == 0) n in
    let bytes = comp_bytes hdr ++ xs in
    let (id, e) = read_comp_prefix f.label_type (f.hdr_len == 0) n xs in
    let (comp, got, rebuilds) =
      fresh_extract r.conf f s l rest k ok fresh pos (omega arith) (omega (arith, lens)) in
    let h : ContEndHdr = record {
      start_ind = 1;
      end_ind = 1;
      pkt_len = set_ppdu_len n;
      frag_id = id;
    } in
    let extract : List ℕ → ℕ → Option Extraction =
      alpdu_extract (is_suppressed (to_bit (f.hdr_len == 0))) (is_signal f.label_type) r.conf in
    deencap_comp r bytes h n (c_reassembly_ok s) e (refl, refl) small
      (comp_ppdu_step r bytes hdr n (taken s.protocol_type comp (take k l.1 ++ rest) k (length l.0))
        s
        (read_comp_whole f.label_type (f.hdr_len == 0) n xs (
          subst (λ t. t < 4) (sym fresh.label_type)
            (label_type-lt s.protocol_type r.conf.type_0_alpdu_label_size (length l.0 == 0))))
        small
        (ap (λ t. extract t n) (drop_comp hdr xs)
          ∙ (ap (λ t. extract (t ++ rest) n) (sym (take-all n f.left (omega arith)))
              ∙ subst
                  (λ m.
                    extract (take m f.left ++ rest) m
                    ≡ some (
                        extracted (taken s.protocol_type comp (take k l.1 ++ rest) k (length l.0))))
                  lens got))
        (ap (λ t. rebuild_sdu s.protocol_type comp (t ++ rest) k) (take-all k l.1 (omega arith))
          ∙ rebuild_sdu-Rebuilds s comp l.1 rest ok.sdu ok.octet rebuilds))
