-- ===== src/Ptype.antt =====
-- src/rle_header_proto_type_field.c: compression of the 16-bit protocol type to one byte.
-- `ptype_compression` asks `is_eth_vlan_ip_frame` of src/header.c about a VLAN frame.
pub mod Vlan
pub mod Laws
unfoldable pub use Vlan.{ntohs, ip_version, is_eth_vlan_ip_frame}
use librle.Prelude.{
  ℕ, ◌==◌, ◌≡◌, Bool, true, false, ◌&&◌, ◌||◌, not, Option, none, some, if◌then◌else◌, List, [],
  ◌∷◌, ◌++◌, replicate, get_or,
}
use librle.Constants.{
  signal_comp, vlan_qinq_comp, vlan_qinq_legacy_comp, ipv4_comp, ipv6_comp, arp_comp, fallback,
  signal_uncomp, vlan_uncomp, vlan_qinq_uncomp, vlan_qinq_legacy_uncomp, ipv4_uncomp, ipv6_uncomp,
  arp_uncomp, reserved, user_defined, adjacent_2bytes_ptype,
}

-- `rle_header_ptype_decomp`, with the initialisers in their order. C fills the array up to its
-- 256 elements with zeros.
unfoldable pub ptype_decomp : List ℕ
ptype_decomp =
    (0x0000 ∷ 0x0001 ∷ 0x0002 ∷ 0x0003 ∷ 0x00c8 ∷ 0x0100 ∷ 0x0200 ∷ 0x0300 ∷ 0x0301 ∷ 0x03c3
      ∷ 0x0400 ∷ 0x04c2 ∷ 0x0500 ∷ ipv4_uncomp ∷ 0x0806 ∷ vlan_uncomp ∷ 0x22f1 ∷ ipv6_uncomp
      ∷ 0x8809 ∷ 0x8847 ∷ 0x8848 ∷ 0x8863 ∷ 0x8864 ∷ 0x888e ∷ 0x8906 ∷ vlan_qinq_uncomp
      ∷ vlan_qinq_legacy_uncomp ∷ [])
    ++ (replicate 21 reserved
        ++ (0 ∷ vlan_uncomp ∷ []
            ++ (replicate 16 reserved
                ++ (signal_uncomp ∷ reserved ∷ reserved ∷ 0x0085 ∷ 0x0083 ∷ []
                    ++ (replicate 56 reserved
                        ++ (replicate 127 user_defined ++ (adjacent_2bytes_ptype ∷ [])))))))

-- `rle_header_ptype_decompression`
unfoldable pub ptype_decompression : ℕ → ℕ
ptype_decompression compressed = get_or ptype_decomp compressed 0

-- `rle_header_ptype_is_compressible(ptype) == C_OK`
unfoldable pub ptype_is_compressible : ℕ → Bool
ptype_is_compressible p =
    p == signal_uncomp
    || (p == vlan_uncomp
        || (p == vlan_qinq_uncomp
            || (p == vlan_qinq_legacy_uncomp
                || (p == ipv4_uncomp || (p == ipv6_uncomp || p == arp_uncomp)))))

-- `rle_header_ptype_compression`: `sdu` is what `frag_buf->sdu.start` points to, `size` is
-- `frag_buf->sdu_info.size`. `none` is a read out of bounds.
unfoldable pub ptype_compression : ℕ → List ℕ → ℕ → Option ℕ
ptype_compression p sdu size =
    if p == signal_uncomp
    then some signal_comp
    else if p == vlan_uncomp
    then is_eth_vlan_ip_frame sdu size
    else if p == vlan_qinq_uncomp
    then some vlan_qinq_comp
    else if p == vlan_qinq_legacy_uncomp
    then some vlan_qinq_legacy_comp
    else if p == ipv4_uncomp
    then some ipv4_comp
    else if p == ipv6_uncomp
    then some ipv6_comp
    else if p == arp_uncomp
    then some arp_comp
    else some fallback

-- `get_alpdu_label_type`: RLE_LT_PROTO_SIGNAL is 3, RLE_LT_IMPLICIT_PROTO_TYPE is 2.
unfoldable pub get_alpdu_label_type : ℕ → Bool → ℕ → ℕ
get_alpdu_label_type p suppressed label_size =
    if p == signal_uncomp then 3 else if suppressed && not (label_size == 0) then 2 else 0
