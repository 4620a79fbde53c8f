-- ===== src/Reassembly/Ending.antt =====
-- What `reassembly_end_ppdu` (src/reassembly.c) makes of any END PPDU, from whatever sender.
use librle.Prelude.{
  ℕ, ◌<◌, ◌≡◌, ◌⊎◌, ◌==◌, >>=-eq-some, Bool, true, false, Option, some, none, List, drop, arith,
  refl, ap, ◌∙◌, sym, subst, inl, inr, set_at, Bool-cases, Option-cases, ==_self,
}
use librle.Prelude.Int.{sub_size}
use librle.Constants.{Sdu}
use librle.Ctx.{RleCtx, is_free, set_free, incr_counter_bytes_in}
use librle.Ctx.Map.{freed_map}
use librle.RasmBuf.{RasmBuf}
use librle.Header.{ContEndHdr, read_cont_end}
use librle.Link.Receiving.{IsSameBut}
use librle.Receiver.{
  Receiver, Ret, c_error, c_reassembly_ok, count_error, free_context, set_rasm_buf,
}
use librle.Reassembly.{EndState, end_failed, count_bytes, end_body, end_out, end_ppdu}
use librle.Reassembly.Vouched.{Vouches, end_body-Vouches}

-- The receiver that the label `out` leaves.
left_at_out : Receiver → ℕ → EndState → ℕ → Receiver
left_at_out r i st map = record r {
  rle_ctx_man =
      set_at r.rle_ctx_man i
        (elim st.sdu [ some _ ↦ st.ctx | none ↦ count_error st.ctx st.lost_packets ]);
  is_ctx_seqnum_init = set_at r.is_ctx_seqnum_init i st.is_ctx_seqnum_init;
  free_ctx = map;
}

returned : Option Sdu → Ret
returned none = c_error
returned (some s) = c_reassembly_ok s

end_out_eq :
    (r : Receiver) (i map : ℕ) (st : EndState)
    → set_free r.free_ctx i ≡ some map
    → end_out r i st ≡ some (returned st.sdu, left_at_out r i st map)
unfolding end_out free_context left_at_out returned
end_out_eq r i map st e = rw e (ground arith)

some_result : {a b : Ret × ℕ × Receiver} → some a ≡ some b → (a.0 ≡ b.0) × (a.1 ≡ b.1) × (a.2 ≡ b.2)
some_result {a} {b} h =
    let e : a ≡ b = cc in
    (
      ap (λ (x : Ret × ℕ × Receiver). x.0) e,
      ap (λ (x : Ret × ℕ × Receiver). x.1) e,
      ap (λ (x : Ret × ℕ × Receiver). x.2) e,
    )

-- The context is free and the others are as before; an SDU is returned only for a context that was
-- in use, and with a trailer that fits it.
abbrev pub EndsAs : Receiver → List ℕ → ℕ → Ret → ℕ → Receiver → Type 0
EndsAs r ppdu len ret i u =
    IsSameBut r u i
    × (is_free u.free_ctx i ≡ true)
    × ((ret ≡ c_error)
        ⊎ ((s : Sdu) × (ret ≡ c_reassembly_ok s)
            × (is_free r.free_ctx i ≡ false)
            × Vouches (r.rle_ctx_man i) (r.is_ctx_seqnum_init i) (drop 2 ppdu) (sub_size len 2) s))

at_out-IsSameBut :
    (r r1 : Receiver) (i map : ℕ) (st : EndState)
    → r1.conf ≡ r.conf
    → ((j : ℕ) → (j == i) ≡ false → r1.rle_ctx_man j ≡ r.rle_ctx_man j)
    → ((j : ℕ) → (j == i) ≡ false → r1.rasm_bufs j ≡ r.rasm_bufs j)
    → ((j : ℕ) → (j == i) ≡ false → r1.is_ctx_seqnum_init j ≡ r.is_ctx_seqnum_init j)
    → map < 256
    → ((j : ℕ) → j < 8 → (j == i) ≡ false → is_free map j ≡ is_free r.free_ctx j)
    → IsSameBut r (left_at_out r1 i st map) i
unfolding left_at_out
at_out-IsSameBut r r1 i map st conf ctx buf init small free = record {
  conf = conf;
  map = small;
  free = free;
  ctx = λ j e. rw e (ctx j e);
  buf = buf;
  init = λ j e. rw e (init j e);
}

ends_as :
    (r r1 : Receiver) (ppdu : List ℕ) (len i map : ℕ) (st : EndState)
    → IsSameBut r (left_at_out r1 i st map) i
    → is_free map i ≡ true
    → ((s : Sdu)
        → st.sdu ≡ some s
        → (is_free r.free_ctx i ≡ false)
          × Vouches (r.rle_ctx_man i) (r.is_ctx_seqnum_init i) (drop 2 ppdu) (sub_size len 2) s)
    → EndsAs r ppdu len (returned st.sdu) i (left_at_out r1 i st map)
unfolding left_at_out returned
ends_as r r1 ppdu len i map st same free vouched = elim (Option-cases st.sdu) [
  | inl failed ↦ (same, free, inl (rw failed refl))
  | inr (s, got) ↦
      let (busy, vouches) = vouched s got in (same, free, inr (s, rw got refl, busy, vouches))
]

frag_id-lt : (ppdu : List ℕ) (h : ContEndHdr) → read_cont_end ppdu ≡ some h → h.frag_id < 8
unfolding read_cont_end
frag_id-lt ppdu h e = ground arith

-- The END PPDU of a context that is free.
end_ppdu_free :
    (r : Receiver) (ppdu : List ℕ) (len : ℕ) (h : ContEndHdr)
    → read_cont_end ppdu ≡ some h
    → r.free_ctx < 256
    → is_free r.free_ctx h.frag_id ≡ true
    → (u : Receiver) × (end_ppdu r ppdu len ≡ some (c_error, h.frag_id, u))
      × EndsAs r ppdu len c_error h.frag_id u
unfolding end_ppdu free_context returned
end_ppdu_free r ppdu len h at_h small free =
    let i = h.frag_id in
    let hi = frag_id-lt ppdu h at_h in
    let (map, freed, map_small, others) = freed_map r.free_ctx i small hi in
    let (map2, freed2, map2_small, others2) = freed_map map i map_small hi in
    let st =
      end_failed (count_error (count_bytes (r.rle_ctx_man i) len) 1) (r.is_ctx_seqnum_init i) in
    let r1 : Receiver = record r { free_ctx = map } in
    (
      left_at_out r1 i st map2,
      rw (at_h, free, freed, end_out_eq r1 i map2 st freed2) refl,
      ends_as r r1 ppdu len i map2 st
          (at_out-IsSameBut r r1 i map2 st refl (λ j e. refl) (λ j e. refl) (λ j e. refl) map2_small
            (λ j hj e. others2 j hj ∙ rw e (others j hj ∙ rw e refl)))
          (others2 i hi ∙ rw (==_self i) refl) (λ s e. absurd (let k : none ≡ some s = e in cc)),
    )

vouched_ctx :
    (ctx : RleCtx) (len : ℕ) (init : Bool) (alpdu : List ℕ) (n : ℕ) (s : Sdu)
    → Vouches (count_bytes ctx len) init alpdu n s
    → Vouches ctx init alpdu n s
unfolding count_bytes incr_counter_bytes_in
vouched_ctx ctx len init alpdu n s h = h

-- The END PPDU of a context that is in use.
end_ppdu_busy :
    (r : Receiver) (ppdu : List ℕ) (len : ℕ) (h : ContEndHdr) (st : EndState) (b : RasmBuf)
    → read_cont_end ppdu ≡ some h
    → r.free_ctx < 256
    → is_free r.free_ctx h.frag_id ≡ false
    → end_body
        (count_bytes (r.rle_ctx_man h.frag_id) len)
        (r.is_ctx_seqnum_init h.frag_id)
        (r.rasm_bufs h.frag_id)
        (drop 2 ppdu)
        (sub_size len 2)
      ≡ some (st, b)
    → (u : Receiver) × (end_ppdu r ppdu len ≡ some (returned st.sdu, h.frag_id, u))
      × EndsAs r ppdu len (returned st.sdu) h.frag_id u
unfolding end_ppdu
end_ppdu_busy r ppdu len h st b at_h small busy body =
    let i = h.frag_id in
    let hi = frag_id-lt ppdu h at_h in
    let ctx = r.rle_ctx_man i in
    let init = r.is_ctx_seqnum_init i in
    let (map, freed, map_small, others) = freed_map r.free_ctx i small hi in
    let r1 : Receiver = set_rasm_buf r i b in
    (
      left_at_out r1 i st map,
      rw (at_h, busy, body, end_out_eq r1 i map st freed) refl,
      ends_as r r1 ppdu len i map st
          (at_out-IsSameBut r r1 i map st refl (λ j e. refl) (λ j e. rw e refl) (λ j e. refl)
            map_small (λ j hj e. others j hj ∙ rw e refl))
          (others i hi ∙ rw (==_self i) refl)
          (λ s got. (
            busy,
            vouched_ctx ctx len init (drop 2 ppdu) (sub_size len 2) s (
                end_body-Vouches (count_bytes ctx len) init (r.rasm_bufs i) b (drop 2 ppdu)
                  (sub_size len 2) s st body got),
          )),
    )

same_end :
    (r u v : Receiver) (ppdu : List ℕ) (len i j : ℕ) (ret c : Ret)
    → end_ppdu r ppdu len ≡ some (c, j, u)
    → EndsAs r ppdu len c j u
    → end_ppdu r ppdu len ≡ some (ret, i, v)
    → EndsAs r ppdu len ret i v
same_end r u v ppdu len i j ret c e ends h =
    let (a, b, d) = some_result (sym e ∙ h) in
    subst (λ (x : Ret). EndsAs r ppdu len x i v) a
      (subst (λ (x : ℕ). EndsAs r ppdu len c x v) b
        (subst (λ (x : Receiver). EndsAs r ppdu len c j x) d ends))

-- Whatever END PPDU a receiver with a map of eight contexts reads, from whatever sender: where no
-- assertion fails, the context is free behind it, and the configuration, the other contexts and
-- their buffers are as before. The answer is C_ERROR, or C_REASSEMBLY_OK with an SDU: then the
-- context was in use, the fragment is no shorter than the trailer, and the trailer is the CRC of
-- the SDU's protocol type and bytes, or a sequence number that is the next one of the context or 0,
-- or any number while the context has seen none.
pub end_ppdu-EndsAs :
    (r u : Receiver) (ppdu : List ℕ) (len i : ℕ) (ret : Ret)
    → r.free_ctx < 256
    → end_ppdu r ppdu len ≡ some (ret, i, u)
    → EndsAs r ppdu len ret i u
unfolding end_ppdu
end_ppdu-EndsAs r u ppdu len i ret small e =
    let (h, at_h, _) = >>=-eq-some (read_cont_end ppdu) _ e in
    elim (Bool-cases (is_free r.free_ctx h.frag_id)) [
      | inl free ↦
          let (v, forward, ends) = end_ppdu_free r ppdu len h at_h small free in
          same_end r v u ppdu len i h.frag_id ret c_error forward ends e
      | inr busy ↦
          elim (Option-cases (
            end_body (count_bytes (r.rle_ctx_man h.frag_id) len) (r.is_ctx_seqnum_init h.frag_id)
              (r.rasm_bufs h.frag_id) (drop 2 ppdu) (sub_size len 2))) [
                | inl fault ↦
                    absurd (let k : none ≡ some (ret, i, u) = rw (at_h, busy, fault) at e in cc)
                | inr ((st, b), body) ↦
                    let (v, forward, ends) = end_ppdu_busy r ppdu len h st b at_h small busy body in
                    same_end r v u ppdu len i h.frag_id ret (returned st.sdu) forward ends e
              ]
    ]
