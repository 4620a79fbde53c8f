-- ===== src/Link/Follow.antt =====
-- The receiver of src/rle_receiver.c follows the flow of the sender from one PPDU to the next.
use librle.Prelude.{
  ℕ, ◌+◌, ◌-◌, ◌<◌, ◌≤◌, ◌≡◌, ◌≢◌, ◌==◌, min, true, false, some, none, List, [], ◌++◌, length, take,
  drop, arith, refl, ap, ◌∙◌, sym, subst, inl, inr, length-append, length-take, if◌then◌else◌,
}
use librle.Constants.{Sdu}
use librle.Header.{comp_bytes, start_bytes, ContEndHdr, set_ppdu_len}
use librle.Header.Laws.{length-comp_bytes, length-start_bytes}
use librle.Alpdu.Layout.{Layout}
use librle.Ppdu.Put.{comp_hdr, start_hdr}
use librle.Ppdu.Flow.{Flow, next_ppdu}
use librle.Receiver.{Receiver, c_ok, c_reassembly_ok}
use librle.Reassembly.{deencap_data}
use librle.Link.Headers.{read_start_prefix, read_comp_prefix, fragment_length}
use librle.Link.Receiving.{IsReceiving, IsSameBut}
use librle.Link.Fresh.{IsSendable, IsFresh, layout-some}
use librle.Link.Start.{begun_flow}
use librle.Link.Started.{receives_start}
use librle.Link.Comp.{receives_comp}
use librle.Link.Cases.{IsComp, IsStart, next_ppdu-cases}
use librle.Link.Step.{
  IsWaiting, IsLinked, Processes, Follows, processes, some_bytes, Follows-end, Follows-cont,
}

IsSameBut-refl : (r : Receiver) (i : ℕ) → r.free_ctx < 256 → IsSameBut r r i
IsSameBut-refl r i small = record {
  conf = refl;
  map = small;
  free = λ j hj e. refl;
  ctx = λ j e. refl;
  buf = λ j e. refl;
  init = λ j e. refl;
}

-- The COMPLETE PPDU of a flow gives any receiver with the sender's configuration the SDU.
pub Processes-comp :
    (r : Receiver) (f : Flow) (s : Sdu) (l : Layout) (ppdu rest : List ℕ)
    → IsSendable r.conf s
    → IsFresh r.conf s l f
    → length f.left < 2048
    → ppdu ≡ comp_bytes (comp_hdr f.label_type (f.hdr_len == 0) (length f.left)) ++ f.left
    → Processes r ppdu rest (c_reassembly_ok s) r
Processes-comp r f s l ppdu rest ok fresh small bytes =
    let n = length f.left in
    let hdr = comp_hdr f.label_type (f.hdr_len == 0) n in
    let (id, at_id) = read_comp_prefix f.label_type (f.hdr_len == 0) n (f.left ++ rest) in
    let h : ContEndHdr = record {
      start_ind = 1;
      end_ind = 1;
      pkt_len = set_ppdu_len n;
      frag_id = id;
    } in
    processes r r ppdu (comp_bytes hdr) f.left rest (n + 2) (c_reassembly_ok s) none bytes
      (omega (arith, length-comp_bytes hdr)) (fragment_length _ h n at_id refl small)
      (receives_comp r f s l rest ok fresh
        (layout-some r.conf s.protocol_type s.buffer l fresh.laid
          (omega (arith, ok.sdu.whole, ok.sdu.some_bytes)))
        small)

Follows-comp :
    (r : Receiver) (f : Flow) (s : Sdu) (l : Layout) (rest : List ℕ) (cap : ℕ) (ppdu : List ℕ)
    (g : Flow)
    → IsSendable r.conf s
    → f.started ≡ false
    → IsWaiting r f s l
    → cap ≤ 2049
    → IsComp f cap ppdu g
    → Follows r f s l ppdu rest g
Follows-comp r f s l rest cap ppdu g ok st w small e = (
  r,
  IsSameBut-refl r f.frag_id w.map,
  inr (
    ap (λ (x : Flow). x.left) e.next,
    Processes-comp r f s l ppdu rest ok w.fresh (omega (arith, e.fits)) e.bytes,
    w.free,
    inr (st, refl, refl),
  ),
)

-- What the receiver does with a START PPDU of `n` bytes of the ALPDU.
started_by :
    (r : Receiver) (f : Flow) (s : Sdu) (l : Layout) (rest : List ℕ) (n : ℕ)
    → IsSendable r.conf s
    → IsWaiting r f s l
    → f.hdr_len < n
    → n + 2 < length f.left
    → n < 2046
    → (u : Receiver) × (deencap_data r
          (start_bytes (
              start_hdr f.frag_id f.label_type
                (f.hdr_len == 0)
                f.use_crc
                (length f.left + length f.trailer)
                (n + 2))
            ++ (take n f.left ++ rest))
          (n + 4)
        ≡ some (c_ok, some f.frag_id, u))
      × IsReceiving u (begun_flow f n) s l.1
      × IsSameBut r u f.frag_id
started_by r f s l rest n ok w header more small =
    let lens = ap length w.fresh.left ∙ length-append l.0 l.1 in
    let same : length l.0 + (n - length l.0) ≡ n = omega (arith, w.fresh.hdr_len) in
    subst
      (λ m.
        (u : Receiver) × (deencap_data r
            (start_bytes (
                start_hdr f.frag_id f.label_type (f.hdr_len == 0) f.use_crc
                  (length f.left + length f.trailer) (m + 2))
              ++ (take m f.left ++ rest))
            (m + 4)
          ≡ some (c_ok, some f.frag_id, u))
        × IsReceiving u (begun_flow f m) s l.1
        × IsSameBut r u f.frag_id)
      same
      (receives_start r f s l rest (n - length l.0) ok w.fresh w.map w.free w.trailer
        (omega (arith, w.fresh.hdr_len)) (omega (arith, lens)) (omega (arith, same)))

pub trailer_some :
    (f : Flow) → length f.trailer ≡ (if f.use_crc then 4 else 1) → 0 < length f.trailer
trailer_some f h = ground arith

Follows-start :
    (r : Receiver) (f : Flow) (s : Sdu) (l : Layout) (rest : List ℕ) (cap : ℕ) (ppdu : List ℕ)
    (g : Flow)
    → IsSendable r.conf s
    → IsWaiting r f s l
    → cap ≤ 2049
    → IsStart f cap ppdu g
    → Follows r f s l ppdu rest g
Follows-start r f s l rest cap ppdu g ok w small e =
    let n = e.n in
    let xs = take n f.left in
    let total = length f.left + length f.trailer in
    let hdr = start_hdr f.frag_id f.label_type (f.hdr_len == 0) f.use_crc total (n + 2) in
    let h : ContEndHdr = record {
      start_ind = 1;
      end_ind = 0;
      pkt_len = set_ppdu_len (n + 2);
      frag_id = f.frag_id;
    } in
    let trailer = trailer_some f w.fresh.trailer_len in
    let len : n + 2 + 2 ≡ n + 4 = omega arith in
    let (u, done, next, same) =
      started_by r f s l rest n ok w e.header e.more (omega (arith, e.size)) in
    (
      u,
      same,
      inl (
        subst (λ (x : Flow). x.left ≢ []) (sym e.next)
            (some_bytes (drop n f.left ++ f.trailer)
              (omega (arith, length-append (drop n f.left) f.trailer))),
        processes r u ppdu (start_bytes hdr) xs rest (n + 4) c_ok (some f.frag_id) e.bytes
            (omega (arith, length-start_bytes hdr, length-take n f.left, e.more))
            (fragment_length _ h (n + 2)
                (read_start_prefix f.frag_id f.label_type (f.hdr_len == 0) f.use_crc total (n + 2)
                  (xs ++ rest) w.fresh.index)
                refl (omega (arith, e.size))
              ∙ ap some len)
            done,
        subst (λ x. IsLinked u x s l) (sym e.next) (inr (refl, next, trailer)),
      ),
    )

-- When the receiver is where the flow of an SDU that it can restore is, then the next PPDU of the
-- flow, whatever follows it in the FPDU, is found with its whole length and accepted. If something
-- is left of the flow, the receiver is again where the flow is; if nothing is left, it returns
-- exactly the SDU and the context is free. The other contexts are as before.
pub deencap_data-Follows :
    (r : Receiver) (f : Flow) (s : Sdu) (l : Layout) (rest : List ℕ) (burst : ℕ) (ppdu : List ℕ)
    (g : Flow)
    → IsSendable r.conf s
    → IsLinked r f s l
    → next_ppdu f burst ≡ some (ppdu, g)
    → Follows r f s l ppdu rest g
deencap_data-Follows r f s l rest burst ppdu g ok (inl (st, w)) h =
    elim (next_ppdu-cases f burst ppdu g h) [
      | inl (started, _) ↦ absurd (let e : false ≡ true = sym st ∙ started in cc)
      | inr (_, inl e) ↦ Follows-comp r f s l rest (min burst 2049) ppdu g ok st w (omega arith) e
      | inr (_, inr e) ↦ Follows-start r f s l rest (min burst 2049) ppdu g ok w (omega arith) e
    ]
deencap_data-Follows r f s l rest burst ppdu g ok (inr (st, v, trailer)) h =
    elim (next_ppdu-cases f burst ppdu g h) [
      | inl (_, inl e) ↦
          Follows-end r f s l rest (min burst 2049 - 2) ppdu g ok st v (omega arith) e
      | inl (_, inr e) ↦
          Follows-cont r f s l rest (min burst 2049 - 2) ppdu g st v trailer (omega arith) e
      | inr (unsent, _) ↦ absurd (let e : true ≡ false = sym st ∙ unsent in cc)
    ]
