-- ===== src/Tests/Endings.antt =====
-- The end of an SDU: an END PPDU, and the one PPDU of an SDU that is sent without a context.
use librle.Prelude.{ℕ, ◌+◌, ◌≡◌, ◌>>=◌, some, List, [], ◌∷◌, take, length, refl, arith}
use librle.Prelude.Memory.{zeroed, store, slice}
use librle.Alpdu.Layout.{Layout, layout}
use librle.Ctx.{is_free, set_free}
use librle.FragBuf.{FragBuf, frag_buf_init, frag_buf_cpy_sdu}
use librle.Header.{read_cont_end}
use librle.RasmBuf.{
  RasmBuf, rasm_get_sdu_len, get_reassembled_sdu_len, rasm_read, init_sdu_frag, sdu_frag_put,
  cpy_sdu_frag,
}
use librle.Receiver.{Receiver, c_reassembly_ok, free_context}
use librle.Reassembly.{
  rebuild_sdu, append_fragment, count_bytes, end_checked, end_complete, end_body, end_out, end_ppdu,
}
use librle.Reassembly.Ending.{EndsAs, end_ppdu-EndsAs}
use librle.Trailer.{check_alpdu_trailer, check_seqno}
use librle.Transmitter.{encap_ok, encap_contextless}
use librle.Link.Contextless.{Answered, frag_contextless-Answered}
use librle.Tests.Linked.{IsValid-config, vlan-IsSendable}
use librle.Tests.Fixtures.{config, transmitter, receiver, fresh_frag_buf, vlan_sdu, ipv4_sdu}

frag_contextless-Answered_example :
    (l : Layout) × (layout (config 0x31 0) 0x8100 vlan_sdu.buffer ≡ some l)
    × (copied : FragBuf) × ((frag_buf_init fresh_frag_buf >>= λ x. frag_buf_cpy_sdu x vlan_sdu)
        ≡ some (0, copied))
    × (c : FragBuf) × (encap_contextless (some (transmitter (config 0x31 0))) (some copied)
        ≡ some (encap_ok, some c))
    × Answered
        (config 0x31 0)
        c
        (length l.0 + length l.1)
        100
        (receiver (config 0x31 0))
        []
        vlan_sdu
frag_contextless-Answered_example =
    frag_contextless-Answered (transmitter (config 0x31 0)) fresh_frag_buf vlan_sdu
      (receiver (config 0x31 0)) 100 [] IsValid-config refl vlan-IsSendable

-- Six of the ten bytes of `ipv4_sdu` have come in context 3.
abbrev six_bytes : RasmBuf
six_bytes = record {
  buffer = store zeroed 0 (take 6 ipv4_sdu.buffer);
  size = 10;
  protocol_type = 0x0800;
  comp_protocol_type = 0x0d;
  sdu = record { start = 0; end = 10 };
  sdu_frag = record { start = 0; end = 6 };
}

abbrev in_third : Receiver
in_third = record (receiver (config 0x0d 0)) { rasm_bufs = λ i. six_bytes; free_ctx = 8 }

-- The other four, and the sequence number 0.
abbrev last_ppdu : List ℕ
last_ppdu = 0x40 ∷ 43 ∷ 6 ∷ 7 ∷ 8 ∷ 9 ∷ 0 ∷ []

end_ppdu-EndsAs_example :
    (u : Receiver) × EndsAs in_third last_ppdu 7 (c_reassembly_ok ipv4_sdu) 3 u
unfolding end_ppdu end_body end_complete end_checked end_out append_fragment count_bytes rebuild_sdu
    check_alpdu_trailer check_seqno rasm_get_sdu_len get_reassembled_sdu_len rasm_read init_sdu_frag
    sdu_frag_put cpy_sdu_frag free_context read_cont_end is_free set_free slice store
end_ppdu-EndsAs_example =
    (_, end_ppdu-EndsAs in_third _ last_ppdu 7 3 (c_reassembly_ok ipv4_sdu) (omega arith) refl)
