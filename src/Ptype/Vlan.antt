-- ===== src/Ptype/Vlan.antt =====
-- `is_eth_vlan_ip_frame` of src/header.c. Byte offsets are those of `struct ether_header`
-- (14 bytes, type at 12) and of `struct vlan_hdr` (4 bytes, `tpid` at 2) behind it.
use librle.Prelude.{
  ℕ, ◌+◌, ◌*◌, ◌/◌, ◌%◌, ◌==◌, leb, Bool, ◌&&◌, ◌||◌, not, Option, some, if◌then◌else◌, List,
  get_elem?, ◌>>=◌,
}
use librle.Constants.{
  fallback, vlan_uncomp, ipv4_uncomp, ipv6_uncomp, vlan_comp, vlan_comp_wo_ptype_field,
}

-- `ntohs` of the two bytes that stand at offset `i`: the byte at `i` is the high one.
unfoldable pub ntohs : List ℕ → ℕ → Option ℕ
ntohs bytes i = do hi ← get_elem? bytes i; lo ← get_elem? bytes (i + 1); some (hi * 256 + lo)

-- `(byte >> 4) & 0x0f`
unfoldable pub ip_version : ℕ → ℕ
ip_version byte = byte / 16 % 16

-- The two protocol types that a VLAN header can hold in front of an IP packet.
abbrev pub vlan_holds_ip : ℕ → ℕ → Bool
vlan_holds_ip ptype version =
    (ptype == ipv4_uncomp && version == 4) || (ptype == ipv6_uncomp && version == 6)

unfoldable pub is_eth_vlan_ip_frame : List ℕ → ℕ → Option ℕ
is_eth_vlan_ip_frame sdu size = if leb size 18 then some fallback else do
  eth_proto_type ← ntohs sdu 12
  vlan_proto_type ← ntohs sdu 16
  payload ← get_elem? sdu 18
  if not (eth_proto_type == vlan_uncomp)
      then some fallback
      else if vlan_holds_ip vlan_proto_type (ip_version payload)
      then some vlan_comp_wo_ptype_field
      else some vlan_comp
