-- ===== src/Reassembly.antt =====
-- src/reassembly.c: one function for each type of PPDU, and `rle_receiver_deencap_data` of
-- src/rle_receiver.c. `ppdu` is the rest of the FPDU from the PPDU on, `len` its `ppdu_length`.
mod Sizes
pub mod Insert
pub mod Restored
pub mod Frames
pub mod Partial
pub mod Vouched
pub mod Ending
pub mod Accept
pub use Sizes.{StartSizes}
unfoldable pub use Sizes.{start_sizes}
use librle.Prelude.{
  set_at, ℕ, ◌+◌, Bool, true, false, not, ltb, leb, ◌==◌, if◌then◌else◌, Option, none, some, List,
  assert, drop, ◌>>=◌, ◌>>◌,
}
use librle.Prelude.Int.{sub_size, add_size}
use librle.Constants.{Sdu, vlan_comp_wo_ptype_field, vlan_uncomp, max_ppdu_pl_size}
use librle.Header.{
  read_comp, read_cont_end, read_start, start_get_total_len, is_signal, is_suppressed, FragType,
  complete, start_frag, cont_frag, end_frag, get_fragment_type,
}
use librle.Ctx.{
  RleCtx, is_free, set_nonfree, incr_counter_in, incr_counter_ok, incr_counter_bytes_in,
  incr_counter_bytes_ok,
}
use librle.Prelude.{read_bytes}
use librle.RasmBuf.{
  RasmBuf, rasm_buf_init, rasm_sdu_put, sdu_frag_put, init_sdu_frag, cpy_sdu_frag, rasm_get_sdu_len,
  get_reassembled_sdu_len, rasm_read,
}
use librle.Trailer.{TrailerCheck, check_alpdu_trailer}
use librle.Extract.{Extraction, failed, extracted, Extracted, alpdu_extract}
use librle.Receiver.{
  Receiver, Ret, c_ok, c_reassembly_ok, c_error, set_ctx, set_rasm_buf, free_context, count_error,
  fail,
}
use Insert.{insert_vlan_ptype}

-- The SDU that is handed out: as it is, or with the protocol type put back in its VLAN header.
-- The inner `none` is an SDU for which that fails.
unfoldable pub rebuild_sdu : ℕ → ℕ → List ℕ → ℕ → Option (Option Sdu)
rebuild_sdu ptype comp_ptype frag len =
    if comp_ptype == vlan_comp_wo_ptype_field
    then (do assert (ptype == vlan_uncomp); insert_vlan_ptype frag len)
    else (do
      bytes ← read_bytes frag len
      some (some (record { buffer = bytes; size = len; protocol_type = ptype })))

-- `reassembly_comp_ppdu`; it leaves the receiver as it is.
unfoldable pub comp_ppdu : Receiver → List ℕ → ℕ → Option Ret
comp_ppdu r ppdu len = do
  h ← read_comp ppdu
  x ←
      alpdu_extract (is_suppressed h.proto_type_supp) (is_signal h.label_type) r.conf (drop 2 ppdu)
        (sub_size len 2)
  elim x [
    | failed ↦ some c_error
    | extracted e ↦ do
      sdu ← rebuild_sdu e.ptype e.comp_ptype e.sdu_frag e.sdu_frag_len
      some (elim sdu [ none ↦ c_error | some s ↦ c_reassembly_ok s ])
  ]

-- The end of `reassembly_start_ppdu`, where the START PPDU is accepted.
unfoldable pub start_buffer : RasmBuf → Extracted → ℕ → Option RasmBuf
start_buffer b e sdu_total_len = do
  b ← rasm_buf_init b
  b ← rasm_sdu_put b sdu_total_len
  b ← sdu_frag_put b e.sdu_frag_len
  let b = record b {
    protocol_type = e.ptype;
    comp_protocol_type = e.comp_ptype;
    size = sdu_total_len;
  }
  cpy_sdu_frag b e.sdu_frag

-- The middle of `reassembly_start_ppdu`, where the ALPDU header is read.
unfoldable pub start_extracted :
    Receiver → ℕ → RleCtx → ℕ → Bool → Extraction → Option (Ret × Receiver)
start_extracted r i ctx total_len is_crc_used failed = fail r i ctx
start_extracted r i ctx total_len is_crc_used (extracted e) =
    let sizes = start_sizes total_len e.alpdu_hdr_len e.sdu_frag_len is_crc_used in
    let ctx = if sizes.use_crc_set then record ctx { use_crc = is_crc_used } else ctx in
    elim sizes.sdu_total_len [
      | none ↦ fail r i ctx
      | some n ↦ do
        b ← start_buffer (r.rasm_bufs i) e n
        some (c_ok, set_rasm_buf (set_ctx r i ctx) i b)
    ]

-- `reassembly_start_ppdu`: what it returns, the context, and the receiver.
unfoldable pub start_ppdu : Receiver → List ℕ → ℕ → Option (Ret × ℕ × Receiver)
start_ppdu r ppdu len = do
  id ← read_cont_end ppdu
  let i = id.frag_id
  let ctx =
      incr_counter_bytes_in (incr_counter_in (record (r.rle_ctx_man i) { current_counter = len }))
        len
  (ret, r) ←
      (if not (is_free r.free_ctx i) then fail r i ctx else (do
        free_ctx ← set_nonfree r.free_ctx i
        h ← read_start ppdu
        x ←
            alpdu_extract (is_suppressed h.proto_type_supp) (is_signal h.label_type) r.conf
              (drop 4 ppdu) (sub_size len 4)
        start_extracted (record r { free_ctx = free_ctx }) i ctx (start_get_total_len h.total_len)
            (not (h.use_crc == 0)) x))
  some (ret, i, r)

-- The context of a CONT or END PPDU, with its counters brought up to date.
unfoldable pub count_bytes : RleCtx → ℕ → RleCtx
unfolding incr_counter_bytes_in
count_bytes ctx len =
    incr_counter_bytes_in (record ctx { current_counter = add_size ctx.current_counter len }) len

-- The fragment appended to the buffer of its context; the inner `none` is one that does not fit.
unfoldable pub append_fragment : RasmBuf → List ℕ → ℕ → Option (Option RasmBuf)
append_fragment b frag len = do
  received ← get_reassembled_sdu_len b
  total ← rasm_get_sdu_len b
  if ltb total (add_size received len)
      then some none
      else do b ← init_sdu_frag b; b ← sdu_frag_put b len; b ← cpy_sdu_frag b frag; some (some b)

-- `reassembly_cont_ppdu`
unfoldable pub cont_ppdu : Receiver → List ℕ → ℕ → Option (Ret × ℕ × Receiver)
cont_ppdu r ppdu len = do
  h ← read_cont_end ppdu
  let i = h.frag_id
  let ctx = count_bytes (r.rle_ctx_man i) len
  (ret, r) ←
      (if is_free r.free_ctx i then fail r i ctx else (do
        b ← append_fragment (r.rasm_bufs i) (drop 2 ppdu) (sub_size len 2)
        elim b [ none ↦ fail r i ctx | some b ↦ some (c_ok, set_rasm_buf (set_ctx r i ctx) i b) ]))
  some (ret, i, r)

-- What `reassembly_end_ppdu` knows at its label `out`: whether it returns C_REASSEMBLY_OK, and
-- with which SDU; the context, the flag and `lost_packets`.
pub record EndState : Type 0 where
  pub sdu : Option Sdu
  pub ctx : RleCtx
  pub is_ctx_seqnum_init : Bool
  pub lost_packets : ℕ

-- The trailer checked for an SDU that is complete.
unfoldable pub end_checked : RleCtx → Bool → List ℕ → Sdu → Option EndState
end_checked ctx init trailer sdu = do
  c ← check_alpdu_trailer trailer sdu ctx init
  some (
      if c.status == 0
      then record {
        sdu = some sdu;
        ctx = incr_counter_ok (incr_counter_bytes_ok c.ctx sdu.size);
        is_ctx_seqnum_init = c.is_ctx_seqnum_init;
        lost_packets = c.lost_packets;
      }
      else record {
        sdu = none;
        ctx = c.ctx;
        is_ctx_seqnum_init = c.is_ctx_seqnum_init;
        lost_packets = c.lost_packets;
      })

-- An exit of `reassembly_end_ppdu` before the trailer is checked.
abbrev pub end_failed : RleCtx → Bool → EndState
end_failed ctx init = record { sdu = none; ctx = ctx; is_ctx_seqnum_init = init; lost_packets = 0 }

-- The SDU taken from the buffer once all its bytes are there.
unfoldable pub end_complete : RleCtx → Bool → RasmBuf → List ℕ → Option EndState
end_complete ctx init b trailer = do
  total ← rasm_get_sdu_len b
  received ← get_reassembled_sdu_len b
  if ltb received total then some (end_failed ctx init) else do
    bytes ← rasm_read b b.size
    sdu ← rebuild_sdu b.protocol_type b.comp_protocol_type bytes b.size
    elim sdu [ none ↦ some (end_failed ctx init) | some s ↦ end_checked ctx init trailer s ]

-- The body of `reassembly_end_ppdu` for a context that is not free: the state at `out`, and the
-- buffer.
unfoldable pub end_body : RleCtx → Bool → RasmBuf → List ℕ → ℕ → Option (EndState × RasmBuf)
end_body ctx init b alpdu len =
    let trailer_len : ℕ = if ctx.use_crc then 4 else 1 in
    if ltb len trailer_len then some (end_failed ctx init, b) else do
      total ← rasm_get_sdu_len b
      assert (b.size == total)
      appended ← append_fragment b alpdu (sub_size len trailer_len)
      elim appended [
        | none ↦ some (end_failed ctx init, b)
        | some b ↦ do
          s ← end_complete ctx init b (drop (sub_size len trailer_len) alpdu)
          some (s, b)
      ]

-- The label `out` of `reassembly_end_ppdu`.
unfoldable pub end_out : Receiver → ℕ → EndState → Option (Ret × Receiver)
end_out r i s =
    let ctx : RleCtx = elim s.sdu [ some _ ↦ s.ctx | none ↦ count_error s.ctx s.lost_packets ] in
    let ret : Ret = elim s.sdu [ some sdu ↦ c_reassembly_ok sdu | none ↦ c_error ] in
    do
      r ←
          free_context
            (record (set_ctx r i ctx) {
              is_ctx_seqnum_init = set_at r.is_ctx_seqnum_init i s.is_ctx_seqnum_init;
            })
            i
      some (ret, r)

-- `reassembly_end_ppdu`; for a free context the errors are counted before `out`, and again there.
unfoldable pub end_ppdu : Receiver → List ℕ → ℕ → Option (Ret × ℕ × Receiver)
end_ppdu r ppdu len = do
  h ← read_cont_end ppdu
  let i = h.frag_id
  let ctx = count_bytes (r.rle_ctx_man i) len
  let init = r.is_ctx_seqnum_init i
  (ret, r) ←
      (if is_free r.free_ctx i
        then (do r ← free_context r i; end_out r i (end_failed (count_error ctx 1) init))
        else (do
          (s, b) ← end_body ctx init (r.rasm_bufs i) (drop 2 ppdu) (sub_size len 2)
          end_out (set_rasm_buf r i b) i s))
  some (ret, i, r)

-- `rle_receiver_deencap_data`: `*index_ctx` is -1, here `none`, for a COMPLETE PPDU.
unfoldable pub deencap_data : Receiver → List ℕ → ℕ → Option (Ret × Option ℕ × Receiver)
deencap_data r ppdu len = do
  assert (leb len (max_ppdu_pl_size + 2))
  h ← read_cont_end ppdu
  elim (get_fragment_type h) [
    | complete ↦ do ret ← comp_ppdu r ppdu len; some (ret, none, r)
    | start_frag ↦ do (ret, i, r) ← start_ppdu r ppdu len; some (ret, some i, r)
    | cont_frag ↦ do (ret, i, r) ← cont_ppdu r ppdu len; some (ret, some i, r)
    | end_frag ↦ do (ret, i, r) ← end_ppdu r ppdu len; some (ret, some i, r)
  ]
