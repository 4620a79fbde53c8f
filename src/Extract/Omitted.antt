-- ===== src/Extract/Omitted.antt =====
-- What the extraction functions of src/header.c find where the protocol type is omitted.
use librle.Prelude.{
  get_elem?, ℕ, ◌+◌, ◌<◌, ◌≡◌, ◌⊎◌, inl, inr, Bool, true, false, Option, some, List, [], length,
  arith, refl, ap, sym, ◌∙◌, ◌==◌, ◌&&◌, if◌then◌else◌, Option-cases, Bool-cases, Option-cases,
}
use librle.Constants.{
  ip_comp, vlan_uncomp, signal_uncomp, ipv4_uncomp, ipv6_uncomp, vlan_comp_wo_ptype_field,
}
use librle.Config.{Config}
use librle.Header.{is_signal}
use librle.Ptype.Vlan.{is_eth_vlan_ip_frame, ip_version}
use librle.Ptype.{ptype_decompression, get_alpdu_label_type}
use librle.Ptype.Laws.{ptype_decompression_vlan}
use librle.Alpdu.{ptype_is_omissible}
use librle.Alpdu.Filled.{without_vlan_ptype}
use librle.Alpdu.Layout.{Layout, omitted_layout, compressed_layout}
use librle.Extract.{
  Extraction, uncompressed_ptype, get_uncomp_ptype_from_sdu, signal_alpdu_extract,
  suppr_alpdu_extract,
}
use librle.Extract.Found.{Rebuilds, found, Finds}

-- Why a protocol type is omitted.
omissible-cases :
    (conf : Config) (ptype : ℕ) (sdu : List ℕ)
    → ptype_is_omissible ptype conf sdu (length sdu) ≡ some true
    → (ptype == signal_uncomp) ≡ false
    → ((conf.implicit_protocol_type ≡ ip_comp)
        × (first : ℕ) × (get_elem? sdu 0 ≡ some first)
        × (((ptype ≡ ipv4_uncomp) × (ip_version first ≡ 4))
            ⊎ ((ptype ≡ ipv6_uncomp) × (ip_version first ≡ 6))))
      ⊎ ((conf.implicit_protocol_type ≡ vlan_comp_wo_ptype_field)
          × (is_eth_vlan_ip_frame sdu (length sdu) ≡ some vlan_comp_wo_ptype_field))
      ⊎ (((conf.implicit_protocol_type == ip_comp) ≡ false)
          × ((conf.implicit_protocol_type == vlan_comp_wo_ptype_field) ≡ false)
          × (ptype ≡ ptype_decompression conf.implicit_protocol_type))
unfolding ptype_is_omissible
omissible-cases conf ptype sdu h n = elim (Bool-cases (conf.implicit_protocol_type == ip_comp)) [
  | inl ip ↦ elim (Option-cases (get_elem? sdu 0)) [
    | inl nothing ↦ absurd (ground arith)
    | inr (first, e) ↦ inl (ground arith, first, e, ground arith)
  ]
  | inr other ↦ elim (Bool-cases (conf.implicit_protocol_type == vlan_comp_wo_ptype_field)) [
    | inl vlan ↦ elim (Option-cases (is_eth_vlan_ip_frame sdu (length sdu))) [
      | inl nothing ↦ absurd (ground arith)
      | inr (c, e) ↦ inr (inl (ground arith, e ∙ ap some (ground arith)))
    ]
    | inr plain ↦ inr (inr (other, plain, ground arith))
  ]
]

-- An omitted protocol type, told by the implicit one.
suppr_lem :
    (conf : Config) (ptype k : ℕ) (tail : List ℕ)
    → uncompressed_ptype conf.implicit_protocol_type tail k ≡ some (some ptype)
    → suppr_alpdu_extract tail k conf ≡ some (found ptype conf.implicit_protocol_type tail k 0)
unfolding suppr_alpdu_extract
suppr_lem conf ptype k tail e = rw e

uncompressed_ptype-ip :
    (implicit ptype first k : ℕ) (tail : List ℕ)
    → implicit ≡ ip_comp
    → 0 < k
    → get_elem? tail 0 ≡ some first
    → ((ptype ≡ ipv4_uncomp) × (ip_version first ≡ 4))
      ⊎ ((ptype ≡ ipv6_uncomp) × (ip_version first ≡ 6))
    → uncompressed_ptype implicit tail k ≡ some (some ptype)
unfolding uncompressed_ptype get_uncomp_ptype_from_sdu
uncompressed_ptype-ip implicit ptype first k tail e pos at_first h = ground arith

uncompressed_ptype-other :
    (implicit k : ℕ) (tail : List ℕ)
    → (implicit == ip_comp) ≡ false
    → uncompressed_ptype implicit tail k ≡ some (some (ptype_decompression implicit))
unfolding uncompressed_ptype
uncompressed_ptype-other implicit k tail e = rw e

-- What the receiver does for an omitted protocol type.
abbrev pub suppressed_extract : Bool → Config → List ℕ → ℕ → Option Extraction
suppressed_extract signal conf alpdu len =
    if signal then signal_alpdu_extract alpdu len else suppr_alpdu_extract alpdu len conf

is_signal_label :
    (ptype size : ℕ) (suppressed : Bool)
    → is_signal (get_alpdu_label_type ptype suppressed size) ≡ (ptype == signal_uncomp)
unfolding is_signal get_alpdu_label_type
is_signal_label ptype size suppressed = ground arith

-- The transmitter and the receiver can only agree on implicit VLAN frames if they are VLAN frames.
abbrev pub IsHonest : Config → ℕ → List ℕ → Type 0
IsHonest conf ptype sdu =
    conf.implicit_protocol_type ≡ vlan_comp_wo_ptype_field
    → is_eth_vlan_ip_frame sdu (length sdu) ≡ some vlan_comp_wo_ptype_field
    → ptype ≡ vlan_uncomp

signal-Finds :
    (conf : Config) (ptype k : ℕ) (sdu tail : List ℕ)
    → (ptype == signal_uncomp) ≡ true
    → Finds (suppressed_extract true conf) ptype sdu (omitted_layout conf ptype sdu) k tail
unfolding signal_alpdu_extract omitted_layout
signal-Finds conf ptype k sdu tail e =
    rw (let f : (ptype == vlan_uncomp) ≡ false = ground arith in f)
      (0x42, ground arith, inl ((λ h. cc), refl))

-- An omitted protocol type that the implicit value stands for.
omitted-Finds :
    (conf : Config) (ptype k : ℕ) (sdu body tail : List ℕ)
    → omitted_layout conf ptype sdu ≡ ([], body)
    → uncompressed_ptype conf.implicit_protocol_type tail k ≡ some (some ptype)
    → Rebuilds conf.implicit_protocol_type ptype sdu body
    → Finds (suppressed_extract false conf) ptype sdu (omitted_layout conf ptype sdu) k tail
omitted-Finds conf ptype k sdu body tail e told r = rw e (
  conf.implicit_protocol_type,
  rw (let z : 0 + k ≡ k = omega arith in z) (suppr_lem conf ptype k tail told),
  r,
)

omitted_layout-plain :
    (conf : Config) (ptype : ℕ) (sdu : List ℕ)
    → (conf.implicit_protocol_type == vlan_comp_wo_ptype_field) ≡ false
    → omitted_layout conf ptype sdu ≡ ([], sdu)
unfolding omitted_layout
omitted_layout-plain conf ptype sdu e = elim (Bool-cases (ptype == vlan_uncomp)) [
  | inl same ↦ rw same (rw e refl)
  | inr other ↦ rw other refl
]

omitted_layout-vlan :
    (conf : Config) (sdu : List ℕ)
    → conf.implicit_protocol_type ≡ vlan_comp_wo_ptype_field
    → omitted_layout conf vlan_uncomp sdu ≡ ([], without_vlan_ptype sdu)
unfolding omitted_layout
omitted_layout-vlan conf sdu e = rw e refl

plain-Finds :
    (conf : Config) (ptype k : ℕ) (sdu tail : List ℕ)
    → (conf.implicit_protocol_type == vlan_comp_wo_ptype_field) ≡ false
    → uncompressed_ptype conf.implicit_protocol_type tail k ≡ some (some ptype)
    → Finds (suppressed_extract false conf) ptype sdu (omitted_layout conf ptype sdu) k tail
plain-Finds conf ptype k sdu tail e told =
    omitted-Finds conf ptype k sdu sdu tail (omitted_layout-plain conf ptype sdu e) told
      (inl ((λ f. ground arith), refl))

vlan-Finds :
    (conf : Config) (ptype k : ℕ) (sdu tail : List ℕ)
    → conf.implicit_protocol_type ≡ vlan_comp_wo_ptype_field
    → ptype ≡ vlan_uncomp
    → is_eth_vlan_ip_frame sdu (length sdu) ≡ some vlan_comp_wo_ptype_field
    → Finds (suppressed_extract false conf) ptype sdu (omitted_layout conf ptype sdu) k tail
vlan-Finds conf ptype k sdu tail e is_vlan frame =
    omitted-Finds conf ptype k sdu (without_vlan_ptype sdu) tail
      (ap (λ p. omitted_layout conf p sdu) is_vlan ∙ omitted_layout-vlan conf sdu e)
      (uncompressed_ptype-other conf.implicit_protocol_type k tail (ground arith)
        ∙ ap (λ p. some (some p))
            (ap ptype_decompression e ∙ (ptype_decompression_vlan ∙ sym is_vlan)))
      (inr (e, is_vlan, frame, refl))

implicit-Finds :
    (conf : Config) (ptype k : ℕ) (sdu tail : List ℕ)
    → (ptype == signal_uncomp) ≡ false
    → ptype_is_omissible ptype conf sdu (length sdu) ≡ some true
    → IsHonest conf ptype sdu
    → 0 < k
    → get_elem? tail 0 ≡ get_elem? (omitted_layout conf ptype sdu).1 0
    → Finds (suppressed_extract false conf) ptype sdu (omitted_layout conf ptype sdu) k tail
implicit-Finds conf ptype k sdu tail n h honest pos first =
    elim (omissible-cases conf ptype sdu h n) [
      | inl (ip, byte, at_byte, version) ↦
          let plain : (conf.implicit_protocol_type == vlan_comp_wo_ptype_field) ≡ false =
            ground arith in
          plain-Finds conf ptype k sdu tail plain (
            uncompressed_ptype-ip conf.implicit_protocol_type ptype byte k tail ip pos
              (first
                ∙ (ap (λ (l : Layout). get_elem? l.1 0) (omitted_layout-plain conf ptype sdu plain)
                    ∙ at_byte))
              version)
      | inr (inl (implicit, vlan)) ↦
          vlan-Finds conf ptype k sdu tail implicit (honest implicit vlan) vlan
      | inr (inr (no_ip, no_vlan, same)) ↦ plain-Finds conf ptype k sdu tail no_vlan (
          uncompressed_ptype-other conf.implicit_protocol_type k tail no_ip
          ∙ ap (λ p. some (some p)) (sym same))
    ]

pub omitted_layout-empty :
    (conf : Config) (ptype : ℕ) (sdu : List ℕ) → (omitted_layout conf ptype sdu).0 ≡ []
unfolding omitted_layout
omitted_layout-empty conf ptype sdu =
    elim (Bool-cases
      (ptype == vlan_uncomp && conf.implicit_protocol_type == vlan_comp_wo_ptype_field)) [
        | inl same ↦ rw same refl
        | inr other ↦ rw other refl
      ]

pub compressed_layout-some :
    (ptype c : ℕ) (sdu : List ℕ) → 0 < length (compressed_layout ptype c sdu).0
unfolding compressed_layout
compressed_layout-some ptype c sdu = ground arith

pub omitted_layout-Finds :
    (conf : Config) (ptype size k : ℕ) (sdu tail : List ℕ)
    → ptype_is_omissible ptype conf sdu (length sdu) ≡ some true
    → IsHonest conf ptype sdu
    → 0 < k
    → get_elem? tail 0 ≡ get_elem? (omitted_layout conf ptype sdu).1 0
    → Finds
        (suppressed_extract (is_signal (get_alpdu_label_type ptype true size)) conf)
        ptype
        sdu
        (omitted_layout conf ptype sdu)
        k
        tail
omitted_layout-Finds conf ptype size k sdu tail h honest pos first =
    rw (is_signal_label ptype size true) (elim (Bool-cases (ptype == signal_uncomp)) [
      | inl signal ↦ rw signal (signal-Finds conf ptype k sdu tail signal)
      | inr other ↦ rw other (implicit-Finds conf ptype k sdu tail other h honest pos first)
    ])
