-- ===== src/Alpdu.antt =====
-- The ALPDU header that the transmitter puts in front of the SDU: `push_alpdu_hdr` of
-- src/header.c and `ptype_is_omissible` of src/rle_conf.c.
pub mod Filled
pub mod Layout
pub mod Push
use librle.Prelude.{
  ℕ, ◌+◌, ◌/◌, ◌%◌, Bool, true, false, not, ltb, ◌==◌, ◌&&◌, if◌then◌else◌, Option, some, List, [],
  ◌∷◌, get_elem?, ◌>>=◌,
}
use librle.Prelude.Int.{negsuc}
use librle.Prelude.Memory.{slice}
use librle.Constants.{
  fallback, ip_comp, vlan_comp_wo_ptype_field, signal_uncomp, vlan_uncomp, ipv4_uncomp, ipv6_uncomp,
}
use librle.Config.{Config}
use librle.Ptype.{
  ip_version, is_eth_vlan_ip_frame, ptype_decompression, ptype_is_compressible, ptype_compression,
}
use librle.FragBuf.{FragBuf, read_at, write_at, alpdu_push, sdu_push}

-- `ptype_is_omissible`: `sdu` is what `frag_buf->sdu.start` points to, `size` is
-- `frag_buf->sdu_info.size`.
unfoldable pub ptype_is_omissible : ℕ → Config → List ℕ → ℕ → Option Bool
ptype_is_omissible ptype conf sdu size =
    if not (conf.allow_ptype_omission == 1)
    then some false
    else if ptype == signal_uncomp
    then some true
    else if conf.implicit_protocol_type == ip_comp
    then (if ltb size 1 then some false else do
      first ← get_elem? sdu 0
      some (
          if ptype == ipv4_uncomp && ip_version first == 4
          then true
          else ptype == ipv6_uncomp && ip_version first == 6))
    else if conf.implicit_protocol_type == vlan_comp_wo_ptype_field
    then (do
      compressed ← is_eth_vlan_ip_frame sdu size
      some (compressed == vlan_comp_wo_ptype_field))
    else some (ptype == ptype_decompression conf.implicit_protocol_type)

-- `ntohs(ptype)` stored as a `uint16_t`: high byte first.
abbrev pub be16_bytes : ℕ → List ℕ
be16_bytes p = p / 256 % 256 ∷ p % 256 ∷ []

-- `push_uncomp_alpdu_hdr`
unfoldable pub push_uncomp_alpdu_hdr : FragBuf → ℕ → Option FragBuf
push_uncomp_alpdu_hdr b ptype = do b ← alpdu_push b 2; write_at b b.alpdu.start (be16_bytes ptype)

-- `push_comp_supported_alpdu_hdr`
unfoldable pub push_comp_supported_alpdu_hdr : FragBuf → ℕ → Option FragBuf
push_comp_supported_alpdu_hdr b ptype = do
  b ← alpdu_push b 1
  write_at b b.alpdu.start (ptype % 256 ∷ [])

-- `push_comp_fallback_alpdu_hdr`
unfoldable pub push_comp_fallback_alpdu_hdr : FragBuf → ℕ → Option FragBuf
push_comp_fallback_alpdu_hdr b ptype = do
  b ← alpdu_push b 3
  write_at b b.alpdu.start (fallback ∷ be16_bytes ptype)

-- The two places of `push_alpdu_hdr` that drop the protocol field of the VLAN header: the 16 bytes
-- before that field move up by two.
unfoldable pub omit_vlan_ptype : FragBuf → Option FragBuf
omit_vlan_ptype b = do
  bytes ← read_at b b.sdu.start 16
  b ← write_at b (b.sdu.start + 2) bytes
  sdu_push b (negsuc 1)

-- The protocol type is not omitted, but compressed.
unfoldable pub push_compressed_alpdu_hdr : FragBuf → ℕ → ℕ → Option FragBuf
push_compressed_alpdu_hdr b ptype comp_ptype =
    if comp_ptype == fallback then push_comp_fallback_alpdu_hdr b ptype else do
      b ←
          (if ptype == vlan_uncomp && comp_ptype == vlan_comp_wo_ptype_field
            then omit_vlan_ptype b
            else some b)
      push_comp_supported_alpdu_hdr b comp_ptype

-- `push_alpdu_hdr`
unfoldable pub push_alpdu_hdr : FragBuf → Config → Option FragBuf
push_alpdu_hdr b conf = do
  let ptype = b.sdu_info.protocol_type
  let size = b.sdu_info.size
  let sdu = slice b.buffer b.sdu.start size
  omissible ← ptype_is_omissible ptype conf sdu size
  if omissible
      then (if ptype == vlan_uncomp && conf.implicit_protocol_type == vlan_comp_wo_ptype_field
          then omit_vlan_ptype b
          else some b)
      else if conf.use_compressed_ptype == 0
      then push_uncomp_alpdu_hdr b ptype
      else (do
        comp_ptype ←
            (if ptype_is_compressible ptype
              then ptype_compression ptype sdu size
              else some fallback)
        push_compressed_alpdu_hdr b ptype comp_ptype)
