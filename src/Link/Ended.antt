-- ===== src/Link/Ended.antt =====
-- The END PPDU of a flow at the receiver, `reassembly_end_ppdu` of src/reassembly.c as a whole.
use librle.Prelude.{
  ℕ, ◌+◌, ◌<◌, ◌≡◌, ◌==◌, true, false, some, List, ◌++◌, length, drop, arith, refl, ap, ◌∙◌, sym,
  subst, set_at, if◌then◌else◌, ◌>>=◌, ==_self,
}
use librle.Prelude.Int.{sub_size}
use librle.Constants.{Sdu}
use librle.Ctx.{is_free, set_free, RleCtx, incr_counter_bytes_in}
use librle.Ctx.Map.{freed_map}
use librle.Header.{ContEndHdr, read_cont_end, cont_end_bytes}
use librle.Ppdu.Put.{end_hdr}
use librle.Ppdu.Flow.{Flow}
use librle.RasmBuf.{RasmBuf}
use librle.Receiver.{Receiver, c_reassembly_ok, set_rasm_buf, free_context}
use librle.Reassembly.{end_ppdu, end_body, end_out, EndState, deencap_data, count_bytes}
use librle.Transmitter.Encapsulated.{IsSdu}
use librle.Transmitter.Sent.{set_at_same, set_at_other}
use librle.Link.Headers.{read_end, deencap_end}
use librle.Link.Receiving.{IsReceiving, IsSameBut, TakesTrailer}
use librle.Link.Rebuilt.{HasOctet, Expects, end_checked_lem}
use librle.Link.End.{end_body_lem, trailer_length}

-- The receiver behind a reassembly in context `i`.
ended : Receiver → ℕ → EndState → RasmBuf → ℕ → Receiver
ended r i st c map = record r {
  rle_ctx_man = set_at r.rle_ctx_man i st.ctx;
  rasm_bufs = set_at r.rasm_bufs i c;
  is_ctx_seqnum_init = set_at r.is_ctx_seqnum_init i st.is_ctx_seqnum_init;
  free_ctx = map;
}

end_out_lem :
    (r : Receiver) (i map : ℕ) (st : EndState) (c : RasmBuf) (s : Sdu)
    → st.sdu ≡ some s
    → set_free r.free_ctx i ≡ some map
    → end_out (set_rasm_buf r i c) i st ≡ some (c_reassembly_ok s, ended r i st c map)
unfolding end_out free_context ended
end_out_lem r i map st c s e freed = rw (e, freed) refl

end_ppdu_step :
    (r : Receiver) (bytes : List ℕ) (h : ContEndHdr) (n map : ℕ) (st : EndState) (c : RasmBuf)
    (s : Sdu)
    → read_cont_end bytes ≡ some h
    → is_free r.free_ctx h.frag_id ≡ false
    → n < 2048
    → end_body
        (count_bytes (r.rle_ctx_man h.frag_id) (n + 2))
        (r.is_ctx_seqnum_init h.frag_id)
        (r.rasm_bufs h.frag_id)
        (drop 2 bytes)
        n
      ≡ some (st, c)
    → st.sdu ≡ some s
    → set_free r.free_ctx h.frag_id ≡ some map
    → end_ppdu r bytes (n + 2) ≡ some (c_reassembly_ok s, h.frag_id, ended r h.frag_id st c map)
unfolding end_ppdu
end_ppdu_step r bytes h n map st c s e busy small body sdu freed =
    rw
      (
        e,
        busy,
        (let e : sub_size (n + 2) 2 ≡ n = ground arith in e),
        body,
        end_out_lem r h.frag_id map st c s sdu freed,
      )
      refl

drop_end : (h : ContEndHdr) (xs : List ℕ) → drop 2 (cont_end_bytes h ++ xs) ≡ xs
unfolding cont_end_bytes
drop_end h xs = refl

count_bytes_keeps :
    (ctx : RleCtx) (n : ℕ)
    → ((count_bytes ctx n).use_crc ≡ ctx.use_crc)
      × ((count_bytes ctx n).next_seq_nb ≡ ctx.next_seq_nb)
unfolding count_bytes incr_counter_bytes_in
count_bytes_keeps ctx n = (refl, refl)

-- What the receiver expects next of a context, once it has taken the trailer of the flow: without a
-- CRC, the number that follows.
abbrev pub ExpectsNext : Receiver → Receiver → Flow → Type 0
ExpectsNext r u f =
    Expects (r.is_ctx_seqnum_init f.frag_id) (r.rle_ctx_man f.frag_id).next_seq_nb f
      (u.is_ctx_seqnum_init f.frag_id) (u.rle_ctx_man f.frag_id).next_seq_nb

ended-IsSameBut :
    (r : Receiver) (i map : ℕ) (st : EndState) (c : RasmBuf)
    → map < 256
    → ((j : ℕ) → j < 8 → is_free map j ≡ (if j == i then true else is_free r.free_ctx j))
    → IsSameBut r (ended r i st c map) i
unfolding ended
ended-IsSameBut r i map st c small others = record {
  conf = refl;
  map = small;
  free = λ j hj e. others j hj ∙ rw e refl;
  ctx = set_at_other r.rle_ctx_man i st.ctx;
  buf = set_at_other r.rasm_bufs i c;
  init = set_at_other r.is_ctx_seqnum_init i st.is_ctx_seqnum_init;
}

ended-ExpectsNext :
    (r : Receiver) (f : Flow) (map : ℕ) (st : EndState) (c : RasmBuf)
    → Expects
        (r.is_ctx_seqnum_init f.frag_id)
        (r.rle_ctx_man f.frag_id).next_seq_nb
        f
        st.is_ctx_seqnum_init
        st.ctx.next_seq_nb
    → ExpectsNext r (ended r f.frag_id st c map) f
unfolding ended
ended-ExpectsNext r f map st c h =
    rw
      (
        set_at_same r.rle_ctx_man f.frag_id st.ctx,
        set_at_same r.is_ctx_seqnum_init f.frag_id st.is_ctx_seqnum_init,
      )
      h

-- The END PPDU of a flow that is received, at most 2047 bytes behind its header, completes the
-- SDU, whatever follows it in the FPDU, if the low byte of the protocol field of a VLAN header in it
-- is a byte: the receiver returns exactly the SDU, frees the context, and expects the next sequence
-- number; the other contexts are as before.
pub receives_end :
    (r : Receiver) (f : Flow) (s : Sdu) (body rest : List ℕ)
    → IsReceiving r f s body
    → IsSdu s
    → HasOctet s.buffer
    → length f.left < 2048
    → (u : Receiver) × (deencap_data r
          (cont_end_bytes (end_hdr f.frag_id (length f.left)) ++ (f.left ++ rest))
          (length f.left + 2)
        ≡ some (c_reassembly_ok s, some f.frag_id, u))
      × (is_free u.free_ctx f.frag_id ≡ true)
      × ExpectsNext r u f
      × IsSameBut r u f.frag_id
unfolding ended
receives_end r f s body rest v sdu octet small =
    let i = f.frag_id in
    let n = length f.left in
    let init = r.is_ctx_seqnum_init i in
    let ctx : RleCtx = count_bytes (r.rle_ctx_man i) (n + 2) in
    let keeps = count_bytes_keeps (r.rle_ctx_man i) (n + 2) in
    let (c, body_end) =
      end_body_lem ctx init (r.rasm_bufs i) f s body rest sdu octet v.held (keeps.0 ∙ v.use_crc)
        (trailer_length init (r.rle_ctx_man i).next_seq_nb f s v.trailer) small in
    let (st, checked, got, expects) =
      end_checked_lem ctx init f s rest sdu (keeps.0 ∙ v.use_crc)
        (subst (λ m. TakesTrailer init m f s) (sym keeps.1) v.trailer) in
    let (map, freed, map_small, others) = freed_map r.free_ctx i v.map v.index in
    let bytes = cont_end_bytes (end_hdr i n) ++ (f.left ++ rest) in
    let e = read_end i n (f.left ++ rest) v.index in
    (
      ended r i st c map,
      deencap_end r _ bytes (end_hdr i n) n i (c_reassembly_ok s) e (refl, refl) small
          (end_ppdu_step r bytes (end_hdr i n) n map st c s e v.busy small
            (ap (λ t. end_body ctx init (r.rasm_bufs i) t n)
                (drop_end (end_hdr i n) (f.left ++ rest))
              ∙ (body_end ∙ ap (λ m. m >>= λ x. some (x, c)) checked))
            got freed),
      others i v.index ∙ rw (==_self i) refl,
      ended-ExpectsNext r f map st c
          (subst (λ m. Expects init m f st.is_ctx_seqnum_init st.ctx.next_seq_nb) keeps.1 expects),
      ended-IsSameBut r i map st c map_small others,
    )
