-- ===== src/Link/Rebuilt.antt =====
-- What the end of a reassembly (src/reassembly.c) makes of a complete body and its trailer.
use mathlib.Core.Path.{ap₂}
use librle.Prelude.{
  ℕ, ◌+◌, ◌-◌, ◌%◌, ◌<◌, ◌≡◌, ◌≢◌, ◌==◌, Bool, true, false, some, List, [], ◌∷◌, ◌++◌, length, take,
  drop, get_elem?, arith, refl, ap, ◌∙◌, sym, subst, ltb, leb, length-append, length-take,
  length-drop, take-append_length, take-all, append-nil, ==_self, Bool-cases, inl, inr,
}
use librle.Constants.{Sdu, vlan_comp_wo_ptype_field, vlan_uncomp}
use librle.Ctx.{RleCtx, incr_counter_ok, incr_counter_bytes_ok}
use librle.Crc.{compute_crc32}
use librle.Crc.Bounds.{compute_crc32-lt}
use librle.Ppdu.Flow.{Flow}
use librle.Trailer.{TrailerCheck, le32_bytes, check_alpdu_trailer}
use librle.Trailer.Laws.{read_le32-le32_bytes, check_seqno_cases}
use librle.RasmBuf.{RasmBuf, rasm_read, rasm_get_sdu_len, get_reassembled_sdu_len, r_buff_len}
use librle.Ptype.Vlan.{is_eth_vlan_ip_frame}
use librle.Alpdu.Filled.{without_vlan_ptype}
use librle.Extract.Found.{Rebuilds}
use librle.Reassembly.{rebuild_sdu, EndState, end_checked, end_complete}
use librle.Reassembly.Insert.{insert_vlan_ptype}
use librle.Reassembly.Partial.{IsPartial}
use librle.Reassembly.Restored.{insert_vlan_ptype-without}
use librle.Transmitter.Encapsulated.{IsSdu}
use librle.Link.Receiving.{TakesTrailer}

-- The low byte of the protocol field of a VLAN header is a byte.
abbrev pub HasOctet : List ℕ → Type 0
HasOctet sdu = (lo : ℕ) → get_elem? sdu 17 ≡ some lo → lo < 256

same_sdu :
    (s : Sdu) (n p : ℕ)
    → n ≡ s.size
    → p ≡ s.protocol_type
    → record { buffer = s.buffer; size = n; protocol_type = p } ≡ s
same_sdu s n p e f = ap₂ (λ m q. record { buffer = s.buffer; size = m; protocol_type = q }) e f

pub length-without :
    (sdu : List ℕ)
    → is_eth_vlan_ip_frame sdu (length sdu) ≡ some vlan_comp_wo_ptype_field
    → length (without_vlan_ptype sdu) ≡ length sdu - 2
unfolding is_eth_vlan_ip_frame
length-without sdu h = omega (
  arith,
  (let e : 18 < length sdu = ground arith in e),
  length-append (take 16 sdu) (drop 18 sdu),
  length-take 16 sdu,
  length-drop 18 sdu,
)

rebuild_plain :
    (ptype comp : ℕ) (bytes rest : List ℕ)
    → comp ≢ vlan_comp_wo_ptype_field
    → rebuild_sdu ptype comp (bytes ++ rest) (length bytes)
      ≡ some (some (record { buffer = bytes; size = length bytes; protocol_type = ptype }))
unfolding rebuild_sdu
rebuild_plain ptype comp bytes rest h =
    rw
      (
        let e : (comp == vlan_comp_wo_ptype_field) ≡ false = ground arith in e,
        (let e : leb (length bytes) (length (bytes ++ rest)) ≡ true =
              ground (arith, length-append bytes rest) in
            e),
        take-append_length bytes rest,
      )
      refl

head_eq : {x y : ℕ} → x ∷ [] ≡ y ∷ [] → x ≡ y
head_eq h = cc

rebuild_vlan :
    (frag : List ℕ) (n : ℕ)
    → rebuild_sdu vlan_uncomp vlan_comp_wo_ptype_field frag n ≡ insert_vlan_ptype frag n
unfolding rebuild_sdu
rebuild_vlan frag n = refl

-- The SDU is rebuilt from what follows the header of its ALPDU.
pub rebuild_sdu-Rebuilds :
    (s : Sdu) (comp : ℕ) (body rest : List ℕ)
    → IsSdu s
    → HasOctet s.buffer
    → Rebuilds comp s.protocol_type s.buffer body
    → rebuild_sdu s.protocol_type comp (body ++ rest) (length body) ≡ some (some s)
rebuild_sdu-Rebuilds s comp body rest v octet (inl (plain, same)) =
    subst (λ b. rebuild_sdu s.protocol_type comp (b ++ rest) (length b) ≡ some (some s)) (sym same)
      (rebuild_plain s.protocol_type comp s.buffer rest plain
        ∙ ap (λ t. some (some t)) (same_sdu s (length s.buffer) s.protocol_type v.whole refl))
rebuild_sdu-Rebuilds s comp body rest v octet (inr (vlan, is_vlan, frame, same)) =
    subst (λ b. rebuild_sdu s.protocol_type comp (b ++ rest) (length b) ≡ some (some s)) (sym same)
      (ap₂
          (λ p c.
            rebuild_sdu p c (without_vlan_ptype s.buffer ++ rest)
              (length (without_vlan_ptype s.buffer)))
          is_vlan vlan
        ∙ (rebuild_vlan (without_vlan_ptype s.buffer ++ rest) (length (without_vlan_ptype s.buffer))
            ∙ (ap (insert_vlan_ptype (without_vlan_ptype s.buffer ++ rest))
                  (length-without s.buffer frame)
                ∙ (insert_vlan_ptype-without s.buffer rest frame (omega (arith, v.whole, v.small))
                      octet
                    ∙ ap (λ t. some (some t))
                        (same_sdu s (length s.buffer) vlan_uncomp v.whole (sym is_vlan))))))

-- What the receiver expects once it took the trailer.
abbrev pub Expects : Bool → ℕ → Flow → Bool → ℕ → Type 0
Expects init next f init2 next2 =
    (f.use_crc ≡ true → (init2 ≡ init) × (next2 ≡ next))
    × (f.use_crc ≡ false
        → (seq : ℕ) → f.trailer ≡ seq ∷ []
        → (init2 ≡ true) × (next2 ≡ (seq + 1) % 256))

total_len :
    (c : RasmBuf) (body : List ℕ)
    → IsPartial c body (length body)
    → rasm_get_sdu_len c ≡ some (length body)
unfolding rasm_get_sdu_len
total_len c body holds = ground arith

received_len :
    (c : RasmBuf) (body : List ℕ)
    → IsPartial c body (length body)
    → get_reassembled_sdu_len c ≡ some (length body)
unfolding get_reassembled_sdu_len
received_len c body holds = ground arith

read_body :
    (c : RasmBuf) (body : List ℕ)
    → IsPartial c body (length body)
    → rasm_read c (length body) ≡ some body
unfolding rasm_read
read_body c body holds =
    rw (let e : leb (length body) r_buff_len ≡ true = ground (arith, holds.small) in e)
      (ap some holds.bytes)

pub end_complete_lem :
    (ctx : RleCtx) (init : Bool) (c : RasmBuf) (s : Sdu) (body trailer : List ℕ)
    → IsSdu s
    → HasOctet s.buffer
    → IsPartial c body (length body)
    → c.size ≡ length body
    → c.protocol_type ≡ s.protocol_type
    → Rebuilds c.comp_protocol_type s.protocol_type s.buffer body
    → end_complete ctx init c trailer ≡ end_checked ctx init trailer s
unfolding end_complete rasm_read end_checked
end_complete_lem ctx init c s body trailer v octet holds size ptype r =
    rw
      (
        total_len c body holds,
        received_len c body holds,
        (let e : ltb (length body) (length body) ≡ false = ground arith in e),
        size,
        read_body c body holds,
        ptype,
        ap (λ b. rebuild_sdu s.protocol_type c.comp_protocol_type b (length body))
              (sym (append-nil body))
            ∙ rebuild_sdu-Rebuilds s c.comp_protocol_type body [] v octet r,
      )
      refl

crc_checked :
    (ctx : RleCtx) (init : Bool) (s : Sdu) (rest : List ℕ)
    → IsSdu s
    → ctx.use_crc ≡ true
    → check_alpdu_trailer (le32_bytes (compute_crc32 s.protocol_type s.buffer) ++ rest) s ctx init
      ≡ some (record { status = 0; ctx = ctx; is_ctx_seqnum_init = init; lost_packets = 0 })
unfolding check_alpdu_trailer
crc_checked ctx init s rest v on =
    rw
      (
        on,
        (let e : leb s.size (length s.buffer) ≡ true = ground (arith, v.whole) in e),
        take-all s.size s.buffer (omega (arith, v.whole)),
        read_le32-le32_bytes (compute_crc32 s.protocol_type s.buffer) rest
            (compute_crc32-lt s.protocol_type s.buffer),
        ==_self (compute_crc32 s.protocol_type s.buffer),
      )
      refl

-- The trailer is checked without an error.
pub check_passes :
    (ctx : RleCtx) (init : Bool) (f : Flow) (s : Sdu) (rest : List ℕ)
    → IsSdu s
    → ctx.use_crc ≡ f.use_crc
    → TakesTrailer init ctx.next_seq_nb f s
    → (k : TrailerCheck) × (check_alpdu_trailer (f.trailer ++ rest) s ctx init ≡ some k)
      × (k.status ≡ 0)
      × Expects init ctx.next_seq_nb f k.is_ctx_seqnum_init k.ctx.next_seq_nb
check_passes ctx init f s rest v crc (inl (on, same)) = (
  record { status = 0; ctx = ctx; is_ctx_seqnum_init = init; lost_packets = 0 },
  ap (λ t. check_alpdu_trailer (t ++ rest) s ctx init) same
      ∙ crc_checked ctx init s rest v (crc ∙ on),
  refl,
  (λ _. (refl, refl), λ off. cc),
)
check_passes ctx init f s rest v crc (inr (off, seq, same, takes)) =
    let (k, e, set, next, first, expected, zero, other) =
      check_seqno_cases seq rest s ctx init (crc ∙ off) in
    (
      k,
      ap (λ t. check_alpdu_trailer (t ++ rest) s ctx init) same ∙ e,
      elim takes [
        | inl fresh ↦ first fresh
        | inr (inl same_no) ↦ elim (Bool-cases init) [
          | inl on ↦ expected on same_no
          | inr fresh ↦ first fresh
        ]
        | inr (inr none_no) ↦ elim (Bool-cases init) [
          | inl on ↦ zero on none_no
          | inr fresh ↦ first fresh
        ]
      ],
      (λ on. cc, λ _ no is. (set, next ∙ ap (λ m. (m + 1) % 256) (head_eq (sym same ∙ is)))),
    )

pub end_checked_lem :
    (ctx : RleCtx) (init : Bool) (f : Flow) (s : Sdu) (rest : List ℕ)
    → IsSdu s
    → ctx.use_crc ≡ f.use_crc
    → TakesTrailer init ctx.next_seq_nb f s
    → (st : EndState) × (end_checked ctx init (f.trailer ++ rest) s ≡ some st)
      × (st.sdu ≡ some s)
      × Expects init ctx.next_seq_nb f st.is_ctx_seqnum_init st.ctx.next_seq_nb
unfolding end_checked incr_counter_ok incr_counter_bytes_ok
end_checked_lem ctx init f s rest v crc takes =
    let (k, e, fine, expects) = check_passes ctx init f s rest v crc takes in
    (
      record {
        sdu = some s;
        ctx = incr_counter_ok (incr_counter_bytes_ok k.ctx s.size);
        is_ctx_seqnum_init = k.is_ctx_seqnum_init;
        lost_packets = k.lost_packets;
      },
      rw (e, fine) refl,
      refl,
      expects,
    )
