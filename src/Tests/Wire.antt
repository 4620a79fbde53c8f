-- ===== src/Tests/Wire.antt =====
-- The theorems on what is on the wire, at concrete headers, bytes and frames.
use librle.Prelude.{
  ℕ, ◌+◌, ◌-◌, ◌*◌, ◌^◌, ◌%◌, ◌≤◌, ◌≡◌, ◌≢◌, ◌↔◌, true, false, some, [], ◌∷◌, refl, arith, get_or,
}
use librle.Constants.{ip_comp}
use librle.Config.{config_check}
use librle.Config.Laws as ConfigLaws
use librle.Config.Laws.{config_check-IsValid}
use librle.Crc.{compute_crc32}
use librle.Crc.Table.{crctab}
use librle.Crc.Laws.{shifts, crctab-shifts}
use librle.Crc.Bounds.{all_lt}
use librle.Crc.Serial.{serial, compute_crc32-serial}
use librle.Header.Wire.{
  big_comp, big_cont_end, big_start, two_bytes, four_bytes, headers_big_endian, read_start-word,
}
use librle.Header.{
  StartHdr, comp_bytes, cont_end_bytes, start_bytes, read_start, get_ppdu_length,
  start_get_total_len, get_fragment_length,
}
use librle.Ppdu.Put.{comp_hdr, cont_hdr, start_hdr}
use librle.Ptype.{
  ptype_compression, ptype_decompression, ptype_is_compressible, is_eth_vlan_ip_frame, ntohs,
  ip_version,
}
use librle.Ptype.Laws.{ptype_decompression-compression}
use librle.Trailer.{TrailerCheck, check_alpdu_trailer, lost_seq_nos}
use librle.Trailer.Laws.{check_seqno_cases, lost_seq_nos_wrapped}
use librle.Decap.{DecapArgs, decap_fpdu, out_of_fuel}
use librle.Decap.Laws.{decap_fpdu-ends}
use librle.Tests.Fixtures.{config, fresh_ctx, receiver, ipv4_sdu, vlan_sdu}

crctab-shifts_example : get_or crctab 200 0 ≡ shifts 8 (200 * 2 ^ 24)
crctab-shifts_example = crctab-shifts 200 (omega arith)

compute_crc32-serial_example :
    compute_crc32 0x0800 ipv4_sdu.buffer ≡ serial (0 ∷ 8 ∷ ipv4_sdu.buffer) 0xffff_ffff
unfolding all_lt
compute_crc32-serial_example = compute_crc32-serial 0x0800 ipv4_sdu.buffer refl

headers_big_endian_example :
    (comp_bytes (record (comp_hdr 2 true 1000) { end_ind = 0 }) ≡ two_bytes (big_comp 1 0 1000 2 1))
    × (cont_end_bytes (record (cont_hdr 5 1000) { start_ind = 1 })
        ≡ two_bytes (big_cont_end 1 0 1000 5))
    × (start_bytes (start_hdr 5 2 true true 4000 1000)
        ≡ four_bytes (big_start 1 0 1000 5 1 4000 2 1))
headers_big_endian_example = headers_big_endian 1 0 1000 5 1 4000 2 1

-- The START PPDU of an IPv4 packet whose protocol type is left out.
read_start-word_example :
    (h : StartHdr) × (read_start (0x80 ∷ 0x33 ∷ 0 ∷ 0x59 ∷ []) ≡ some h)
    × (h.start_ind ≡ 1)
    × (h.end_ind ≡ 0)
    × (get_ppdu_length h.pkt_len ≡ 6)
    × (h.frag_id ≡ 3)
    × (h.use_crc ≡ 0)
    × (start_get_total_len h.total_len ≡ 11)
    × (h.label_type ≡ 0)
    × (h.proto_type_supp ≡ 1)
    × (get_fragment_length (0x80 ∷ 0x33 ∷ 0 ∷ 0x59 ∷ []) ≡ some 8)
read_start-word_example =
    read_start-word 0x80 0x33 0 0x59 [] (omega arith) (omega arith) (omega arith) (omega arith)

config_check-IsValid_example :
    (config_check (some (config 0x0d 1)) ≡ true) ↔ ConfigLaws.IsValid (config 0x0d 1)
config_check-IsValid_example = config_check-IsValid (config 0x0d 1)

ptype_decompression-compression_example :
    (ptype_decompression 0x31 ≡ 0x8100) × (0x31 ≢ ip_comp) × (ptype_is_compressible 0x8100 ≡ true)
unfolding ptype_compression is_eth_vlan_ip_frame ntohs ip_version
ptype_decompression-compression_example =
    ptype_decompression-compression 0x8100 0x31 vlan_sdu.buffer 21 refl (λ h. cc)

check_seqno_cases_example :
    (r : TrailerCheck) × (check_alpdu_trailer (9 ∷ []) ipv4_sdu (fresh_ctx 3) true ≡ some r)
    × (r.is_ctx_seqnum_init ≡ true)
    × (r.ctx.next_seq_nb ≡ (9 + 1) % 256)
    × (true ≡ false → r.status ≡ 0)
    × (true ≡ true → 9 ≡ (fresh_ctx 3).next_seq_nb → r.status ≡ 0)
    × (true ≡ true → (◌≡◌ {A = ℕ} 9 0) → r.status ≡ 0)
    × (true ≡ true → 9 ≢ (fresh_ctx 3).next_seq_nb → (◌≢◌ {A = ℕ} 9 0) → r.status ≡ 1)
check_seqno_cases_example = check_seqno_cases 9 [] ipv4_sdu (fresh_ctx 3) true refl

lost_seq_nos_wrapped_example :
    (2 ^ 64 ≤ lost_seq_nos 1 254 + 255) × (lost_seq_nos 1 254 ≢ (1 + 256 - 254) % 256)
lost_seq_nos_wrapped_example = lost_seq_nos_wrapped 1 254 (omega arith) (omega arith)

abbrev decap_args : DecapArgs
decap_args = record {
  fpdu = some (0xc8 ∷ 0x0a ∷ 0x45 ∷ 1 ∷ 0 ∷ 0 ∷ []);
  sdus_given = true;
  sdus_max_nr = 4;
  payload_label_given = false;
  payload_label_size = 0;
}

decap_fpdu-ends_example :
    (decap_fpdu (receiver (config 0x0d 0)) (0xc8 ∷ 0x0a ∷ 0x45 ∷ 1 ∷ 0 ∷ 0 ∷ []) decap_args).outcome
    ≢ out_of_fuel
decap_fpdu-ends_example =
    decap_fpdu-ends (receiver (config 0x0d 0)) (0xc8 ∷ 0x0a ∷ 0x45 ∷ 1 ∷ 0 ∷ 0 ∷ []) decap_args
