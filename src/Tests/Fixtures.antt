-- ===== src/Tests/Fixtures.antt =====
-- A transmitter and a receiver to run.
use librle.Prelude.{ℕ, ◌-◌, true, false, [], ◌∷◌, ◌++◌}
use librle.Prelude.Memory.{zeroed, store}
use librle.Constants.{Sdu}
use librle.Config.{Config}
use librle.Ctx.{RleCtx, LinkStatus}
use librle.FragBuf.{FragBuf}
use librle.RasmBuf.{RasmBuf}
use librle.Transmitter.{Transmitter}
use librle.Ppdu.Flow.{Flow}
use librle.Receiver.{Receiver}

abbrev pub no_counts : LinkStatus
no_counts = record {
  counter_in = 0;
  counter_ok = 0;
  counter_dropped = 0;
  counter_lost = 0;
  counter_bytes_in = 0;
  counter_bytes_ok = 0;
  counter_bytes_dropped = 0;
}

abbrev pub fresh_ctx : ℕ → RleCtx
fresh_ctx i = record {
  frag_id = i;
  next_seq_nb = 0;
  use_crc = false;
  current_counter = 0;
  lk_status = no_counts;
}

abbrev pub fresh_frag_buf : FragBuf
fresh_frag_buf = record {
  buffer = zeroed;
  cur_pos = 7;
  sdu_info = record { buffer = 7; protocol_type = 0; size = 0 };
  crc = 0;
  sdu = record { start = 7; end = 7 };
  alpdu = record { start = 7; end = 7 };
  ppdu = record { start = 7; end = 7 };
}

abbrev pub fresh_rasm_buf : RasmBuf
fresh_rasm_buf = record {
  buffer = zeroed;
  size = 0;
  protocol_type = 0;
  comp_protocol_type = 0;
  sdu = record { start = 0; end = 0 };
  sdu_frag = record { start = 0; end = 0 };
}

-- Compression and omission, with a sequence number or a CRC; `implicit` is the implicit type.
abbrev pub config : ℕ → ℕ → Config
config implicit crc = record {
  allow_ptype_omission = 1;
  use_compressed_ptype = 1;
  allow_alpdu_crc = crc;
  allow_alpdu_sequence_number = 1 - crc;
  use_explicit_payload_header_map = 0;
  implicit_protocol_type = implicit;
  implicit_ppdu_label_size = 0;
  implicit_payload_label_size = 0;
  type_0_alpdu_label_size = 0;
}

abbrev pub transmitter : Config → Transmitter
transmitter conf = record {
  rle_ctx_man = fresh_ctx;
  frag_bufs = λ i. fresh_frag_buf;
  conf = conf;
  free_ctx = 0;
}

abbrev pub receiver : Config → Receiver
receiver conf = record {
  rle_ctx_man = fresh_ctx;
  rasm_bufs = λ i. fresh_rasm_buf;
  is_ctx_seqnum_init = λ i. false;
  conf = conf;
  free_ctx = 0;
}

-- The start of an IPv4 packet.
abbrev pub ipv4_sdu : Sdu
ipv4_sdu = record {
  buffer = 0x45 ∷ 1 ∷ 2 ∷ 3 ∷ 4 ∷ 5 ∷ 6 ∷ 7 ∷ 8 ∷ 9 ∷ [];
  size = 10;
  protocol_type = 0x0800;
}

-- An Ethernet frame with a VLAN tag and an IPv4 packet.
abbrev pub vlan_sdu : Sdu
vlan_sdu = record {
  buffer =
      1 ∷ 2 ∷ 3 ∷ 4 ∷ 5 ∷ 6 ∷ 7 ∷ 8 ∷ 9 ∷ 10 ∷ 11 ∷ 12 ∷ 0x81 ∷ 0x00 ∷ 0x12 ∷ 0x34 ∷ 0x08 ∷ 0x00
      ∷ 0x45 ∷ 20 ∷ 21 ∷ [];
  size = 21;
  protocol_type = 0x8100;
}

-- The buffer that holds `ipv4_sdu` behind no header, before the START PPDU.
abbrev pub unsent_buf : FragBuf
unsent_buf = record {
  buffer = store zeroed 7 ipv4_sdu.buffer;
  cur_pos = 7;
  sdu_info = record { buffer = 7; protocol_type = 0x0800; size = 10 };
  crc = 0;
  sdu = record { start = 7; end = 17 };
  alpdu = record { start = 7; end = 17 };
  ppdu = record { start = 7; end = 7 };
}

-- The same once four bytes are sent, with the sequence number 0 behind the SDU.
abbrev pub started_buf : FragBuf
started_buf = record {
  buffer = store zeroed 7 (ipv4_sdu.buffer ++ (0 ∷ []));
  cur_pos = 11;
  sdu_info = record { buffer = 7; protocol_type = 0x0800; size = 10 };
  crc = 0;
  sdu = record { start = 7; end = 17 };
  alpdu = record { start = 7; end = 18 };
  ppdu = record { start = 3; end = 11 };
}

abbrev pub unsent_flow : Flow
unsent_flow = record {
  frag_id = 3;
  started = false;
  left = ipv4_sdu.buffer;
  trailer = 0 ∷ [];
  hdr_len = 0;
  label_type = 0;
  use_crc = false;
}

abbrev pub started_flow : Flow
started_flow = record unsent_flow { started = true; left = 4 ∷ 5 ∷ 6 ∷ 7 ∷ 8 ∷ 9 ∷ 0 ∷ [] }

-- The same in the middle of a flow that took the sequence number 0.
abbrev pub started_transmitter : FragBuf → Transmitter
started_transmitter b = record {
  rle_ctx_man = λ i. record (fresh_ctx i) { next_seq_nb = 1 };
  frag_bufs = λ i. b;
  conf = config 0x0d 0;
  free_ctx = 8;
}

-- A transmitter whose context 3 is in use with the buffer `b`.
abbrev pub busy_transmitter : FragBuf → Transmitter
busy_transmitter b = record {
  rle_ctx_man = fresh_ctx;
  frag_bufs = λ i. b;
  conf = config 0x0d 0;
  free_ctx = 8;
}
