-- ===== src/Constants.antt =====
-- include/rle.h and src/crc.h, src/trailer.h: sizes, protocol types and the SDU.
use librle.Prelude.{ℕ, ◌+◌, ◌^◌, List}

-- RLE_MAX_PDU_SIZE
abbrev pub max_pdu_size : ℕ
max_pdu_size = 4088

-- RLE_MAX_PPDU_PL_SIZE
abbrev pub max_ppdu_pl_size : ℕ
max_ppdu_pl_size = 2047

-- RLE_MAX_FRAG_ID
abbrev pub max_frag_id : ℕ
max_frag_id = 7

-- RLE_MAX_FRAG_NUMBER
abbrev pub max_frag_number : ℕ
max_frag_number = max_frag_id + 1

-- RLE_MAX_SEQ_NO
abbrev pub max_seq_no : ℕ
max_seq_no = 256

-- RLE_CRC_SIZE
abbrev pub crc_size : ℕ
crc_size = 4

-- `size_t`, `uint64_t` and pointer differences have 64 bits.
abbrev pub size_mod : ℕ
size_mod = 2 ^ 64

-- Compressed protocol types, RLE_PROTO_TYPE_…_COMP and RLE_PROTO_TYPE_FALLBACK.
abbrev pub signal_comp : ℕ
signal_comp = 0x42

abbrev pub vlan_comp : ℕ
vlan_comp = 0x0f

abbrev pub vlan_comp_wo_ptype_field : ℕ
vlan_comp_wo_ptype_field = 0x31

abbrev pub vlan_qinq_comp : ℕ
vlan_qinq_comp = 0x19

abbrev pub vlan_qinq_legacy_comp : ℕ
vlan_qinq_legacy_comp = 0x1a

abbrev pub ip_comp : ℕ
ip_comp = 0x30

abbrev pub ipv4_comp : ℕ
ipv4_comp = 0x0d

abbrev pub ipv6_comp : ℕ
ipv6_comp = 0x11

abbrev pub arp_comp : ℕ
arp_comp = 0x0e

abbrev pub fallback : ℕ
fallback = 0xff

-- Uncompressed protocol types, RLE_PROTO_TYPE_…_UNCOMP.
abbrev pub signal_uncomp : ℕ
signal_uncomp = 0x0082

abbrev pub vlan_uncomp : ℕ
vlan_uncomp = 0x8100

abbrev pub vlan_qinq_uncomp : ℕ
vlan_qinq_uncomp = 0x88a8

abbrev pub vlan_qinq_legacy_uncomp : ℕ
vlan_qinq_legacy_uncomp = 0x9100

abbrev pub ipv4_uncomp : ℕ
ipv4_uncomp = 0x0800

abbrev pub ipv6_uncomp : ℕ
ipv6_uncomp = 0x86dd

abbrev pub arp_uncomp : ℕ
arp_uncomp = 0x0806

-- Special values, RLE_PROTO_TYPE_RESERVED and those counted on from it.
abbrev pub reserved : ℕ
reserved = 0x0b04

abbrev pub user_defined : ℕ
user_defined = 0x0b05

abbrev pub adjacent_2bytes_ptype : ℕ
adjacent_2bytes_ptype = 0x0b07

-- `struct rle_sdu`: the bytes that `buffer` points to, and what the program says of them.
pub record Sdu : Type 0 where
  pub buffer : List ℕ
  pub size : ℕ
  pub protocol_type : ℕ
