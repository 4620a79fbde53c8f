-- ===== src/Tests/Restored.antt =====
-- A VLAN frame that is sent without its protocol field and restored.
use librle.Prelude.{◌≡◌, ◌++◌, some, [], ◌∷◌, refl, arith}
use librle.Ptype.{is_eth_vlan_ip_frame, ntohs, ip_version}
use librle.Alpdu.Filled.{without_vlan_ptype}
use librle.Reassembly.Insert.{insert_vlan_ptype}
use librle.Reassembly.Restored.{insert_vlan_ptype-without}
use librle.Tests.Fixtures.{vlan_sdu}

insert_vlan_ptype-without_example :
    insert_vlan_ptype (without_vlan_ptype vlan_sdu.buffer ++ (0 ∷ [])) 19 ≡ some (some vlan_sdu)
unfolding is_eth_vlan_ip_frame ntohs ip_version
insert_vlan_ptype-without_example =
    insert_vlan_ptype-without vlan_sdu.buffer (0 ∷ []) refl (omega arith) (λ lo h. ground arith)
