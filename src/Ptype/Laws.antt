-- ===== src/Ptype/Laws.antt =====
-- Compression and decompression of protocol types against each other.
use librle.Prelude.{
  ℕ, ◌≤◌, ◌<◌, ◌≡◌, refl, ◌≢◌, ◌⊎◌, true, ◌||◌, ◌==◌, ltb, eq_of_==, some, List, arith, length,
}
use librle.Prelude.Tables.{passes, passes-at}
use librle.Constants.{
  signal_comp, vlan_comp, vlan_comp_wo_ptype_field, vlan_qinq_comp, vlan_qinq_legacy_comp, ip_comp,
  ipv4_comp, ipv6_comp, arp_comp, fallback, signal_uncomp, vlan_uncomp, vlan_qinq_uncomp,
  vlan_qinq_legacy_uncomp, ipv4_uncomp, ipv6_uncomp, arp_uncomp, reserved, user_defined,
  adjacent_2bytes_ptype,
}
use librle.Ptype.Vlan.{is_eth_vlan_ip_frame}
use librle.Ptype.{ptype_decomp, ptype_decompression, ptype_is_compressible, ptype_compression}

-- Every answer of `is_eth_vlan_ip_frame`.
pub is_eth_vlan_ip_frame_cases :
    (sdu : List ℕ) (size c : ℕ)
    → is_eth_vlan_ip_frame sdu size ≡ some c
    → (c ≡ fallback) ⊎ (c ≡ vlan_comp) ⊎ (c ≡ vlan_comp_wo_ptype_field)
unfolding is_eth_vlan_ip_frame
is_eth_vlan_ip_frame_cases sdu size c h = ground arith

-- The pairs of an uncompressed and a compressed value that the compression can answer with.
abbrev Pair : ℕ → ℕ → Type 0
Pair p c =
    ((p ≡ signal_uncomp) × (c ≡ signal_comp))
    ⊎ ((p ≡ vlan_uncomp) × (c ≡ vlan_comp))
    ⊎ ((p ≡ vlan_uncomp) × (c ≡ vlan_comp_wo_ptype_field))
    ⊎ ((p ≡ vlan_qinq_uncomp) × (c ≡ vlan_qinq_comp))
    ⊎ ((p ≡ vlan_qinq_legacy_uncomp) × (c ≡ vlan_qinq_legacy_comp))
    ⊎ ((p ≡ ipv4_uncomp) × (c ≡ ipv4_comp))
    ⊎ ((p ≡ ipv6_uncomp) × (c ≡ ipv6_comp))
    ⊎ ((p ≡ arp_uncomp) × (c ≡ arp_comp))

ptype_compression-Pair :
    (p c : ℕ) (sdu : List ℕ) (size : ℕ)
    → ptype_compression p sdu size ≡ some c
    → c ≢ fallback
    → Pair p c
unfolding ptype_compression
ptype_compression-Pair p c sdu size h n = ground (arith, is_eth_vlan_ip_frame_cases sdu size c)

decompressed :
    (ptype_decompression signal_comp ≡ signal_uncomp)
    × (ptype_decompression vlan_comp ≡ vlan_uncomp)
    × (ptype_decompression vlan_comp_wo_ptype_field ≡ vlan_uncomp)
    × (ptype_decompression vlan_qinq_comp ≡ vlan_qinq_uncomp)
    × (ptype_decompression vlan_qinq_legacy_comp ≡ vlan_qinq_legacy_uncomp)
    × (ptype_decompression ipv4_comp ≡ ipv4_uncomp)
    × (ptype_decompression ipv6_comp ≡ ipv6_uncomp)
    × (ptype_decompression arp_comp ≡ arp_uncomp)
unfolding ptype_decompression ptype_decomp
decompressed = (refl, refl, refl, refl, refl, refl, refl, refl)

pub ptype_decompression_vlan : ptype_decompression vlan_comp_wo_ptype_field ≡ vlan_uncomp
ptype_decompression_vlan = decompressed.2

Pair-decompression : (p c : ℕ) → Pair p c → ptype_decompression c ≡ p
Pair-decompression p c h = ground (arith, decompressed)

-- A protocol type that is compressed to anything but the fallback value is one of the
-- compressible ones, is what its compressed value is decompressed to, and its compressed value
-- is not 0x30, whose meaning depends on the IP version.
pub ptype_decompression-compression :
    (p c : ℕ) (sdu : List ℕ) (size : ℕ)
    → ptype_compression p sdu size ≡ some c
    → c ≢ fallback
    → (ptype_decompression c ≡ p) × (c ≢ ip_comp) × (ptype_is_compressible p ≡ true)
unfolding ptype_is_compressible
ptype_decompression-compression p c sdu size h n =
    let pair = ptype_compression-Pair p c sdu size h n in
    (Pair-decompression p c pair, ground arith, ground arith)

-- The table of decompression has 255 initialisers. The values 0x47 to 0x7e decompress to RESERVED,
-- 0x7f to 0xfd to USER_DEFINED, 0xfe to ADJACENT_2BYTES_PTYPE and 0xff to zero.
pub ptype_decomp_shifted :
    (length ptype_decomp ≡ 255)
    × ((i : ℕ) → 0x47 ≤ i → i < 0x7f → ptype_decompression i ≡ reserved)
    × ((i : ℕ) → 0x7f ≤ i → i < 0xfe → ptype_decompression i ≡ user_defined)
    × (ptype_decompression 0xfe ≡ adjacent_2bytes_ptype)
    × (ptype_decompression 0xff ≡ 0)
unfolding ptype_decomp ptype_decompression passes
ptype_decomp_shifted = (
  refl,
  λ i lo hi. eq_of_== _ _ (
      ground
        (arith, passes-at 0x7f (λ k. ltb k 0x47 || (ptype_decompression k == reserved)) i refl hi)),
  λ i lo hi. eq_of_== _ _ (
      ground (
        arith,
        passes-at 0xfe (λ k. ltb k 0x7f || (ptype_decompression k == user_defined)) i refl hi,
      )),
  refl,
  refl,
)
