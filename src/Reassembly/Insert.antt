-- ===== src/Reassembly/Insert.antt =====
-- `reassembly_insert_vlan_ptype` of src/reassembly.c.
use librle.Prelude.{
  ℕ, not, ltb, ◌==◌, if◌then◌else◌, Option, none, some, List, [], ◌∷◌, ◌++◌, get_elem?, drop, ◌>>=◌,
  read_bytes,
}
use librle.Prelude.Int.{sub_size, add_size}
use librle.Constants.{Sdu, vlan_uncomp}
use librle.Ptype.{ntohs, ip_version}

-- The frame with the two bytes of the protocol type put in behind its first 16 bytes.
unfoldable pub insert_bytes : List ℕ → ℕ → List ℕ → Option (Option Sdu)
insert_bytes frag len ptype = do
  head ← read_bytes frag 16
  payload ← read_bytes (drop 16 frag) (sub_size len 16)
  some (
      some (record {
        buffer = head ++ (ptype ++ payload);
        size = add_size len 2;
        protocol_type = vlan_uncomp;
      }))

-- The inner `none` is `false`.
unfoldable pub insert_vlan_ptype : List ℕ → ℕ → Option (Option Sdu)
unfolding ntohs ip_version insert_bytes
insert_vlan_ptype frag len = if ltb len 17 then some none else do
  eth_proto_type ← ntohs frag 12
  payload ← get_elem? frag 16
  if not (eth_proto_type == vlan_uncomp)
      then some none
      else if ip_version payload == 4
      then insert_bytes frag len (0x08 ∷ 0x00 ∷ [])
      else if ip_version payload == 6
      then insert_bytes frag len (0x86 ∷ 0xdd ∷ [])
      else some none
