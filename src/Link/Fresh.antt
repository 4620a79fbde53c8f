-- ===== src/Link/Fresh.antt =====
-- A flow that `rle_encapsulate` (src/encap.c) has just started, and its sizes.
use librle.Prelude.{
  ℕ, ◌+◌, ◌<◌, ◌≤◌, ◌≡◌, ◌==◌, Bool, true, false, ◌&&◌, some, List, ◌++◌, length, take, drop, arith,
  refl, ap, ◌∙◌, sym, subst, if◌then◌else◌, ltb, length-append, length-take, inl, inr, Bool-cases,
}
use librle.Prelude.Int.{sub_size}
use librle.Constants.{Sdu, vlan_comp_wo_ptype_field, fallback, vlan_uncomp}
use librle.Config.{Config}
use librle.Ptype.{get_alpdu_label_type}
use librle.Ptype.Vlan.{is_eth_vlan_ip_frame}
use librle.Alpdu.{ptype_is_omissible}
use librle.Alpdu.Layout.{
  Layout, layout, omitted_layout, compressed_layout, omissible_vlan, compression_vlan,
}
use librle.Alpdu.Filled.{without_vlan_ptype}
use librle.Extract.Found.{Rebuilds, chosen, chosen-compression}
use librle.Extract.Layout.{layout-cases}
use librle.Extract.Omitted.{IsHonest, omitted_layout-empty}
use librle.Ppdu.Flow.{Flow}
use librle.Reassembly.{start_sizes}
use librle.Transmitter.Encapsulated.{IsSdu}
use librle.Link.Rebuilt.{HasOctet, length-without}

-- An SDU that the receiver can restore.
pub record IsSendable (conf : Config) (s : Sdu) : Type 0 where
  pub sdu : IsSdu s
  pub octet : HasOctet s.buffer
  pub ptype : s.protocol_type < 65536
  pub honest : IsHonest conf s.protocol_type s.buffer

-- The flow carries the whole ALPDU of the SDU, laid out as `l`.
pub record IsFresh (conf : Config) (s : Sdu) (l : Layout) (f : Flow) : Type 0 where
  pub index : f.frag_id < 8
  pub laid : layout conf s.protocol_type s.buffer ≡ some l
  pub left : f.left ≡ l.0 ++ l.1
  pub hdr_len : f.hdr_len ≡ length l.0
  pub label_type :
      f.label_type
      ≡ get_alpdu_label_type s.protocol_type (length l.0 == 0) conf.type_0_alpdu_label_size
  pub trailer_len : length f.trailer ≡ (if f.use_crc then 4 else 1)

compressed_layout-short :
    (ptype c : ℕ) (sdu : List ℕ) → length (compressed_layout ptype c sdu).0 ≤ 3
unfolding compressed_layout
compressed_layout-short ptype c sdu = ground arith

pub layout-short :
    (conf : Config) (ptype : ℕ) (sdu : List ℕ) (l : Layout)
    → layout conf ptype sdu ≡ some l
    → length l.0 ≤ 3
layout-short conf ptype sdu l h = elim (layout-cases conf ptype sdu l h) [
  | inl (_, same) ↦
      subst (λ (m : Layout). length m.0 ≤ 3) (sym same)
        (subst (λ b. length b ≤ 3) (sym (omitted_layout-empty conf ptype sdu)) (omega arith))
  | inr (inl (_, same)) ↦ subst (λ (m : Layout). length m.0 ≤ 3) (sym same) (omega arith)
  | inr (inr (_, c, _, same)) ↦
      subst (λ (m : Layout). length m.0 ≤ 3) (sym same) (compressed_layout-short ptype c sdu)
]

frame_long :
    (sdu : List ℕ)
    → is_eth_vlan_ip_frame sdu (length sdu) ≡ some vlan_comp_wo_ptype_field
    → 18 < length sdu
unfolding is_eth_vlan_ip_frame
frame_long sdu h = ground arith

without_some : (sdu : List ℕ) → 18 < length sdu → 0 < length (without_vlan_ptype sdu)
without_some sdu long = omega (arith, length-append (take 16 sdu) (drop 18 sdu), length-take 16 sdu)

omitted_layout-some :
    (conf : Config) (ptype : ℕ) (sdu : List ℕ)
    → ptype_is_omissible ptype conf sdu (length sdu) ≡ some true
    → 0 < length sdu
    → 0 < length (omitted_layout conf ptype sdu).1
unfolding omitted_layout
omitted_layout-some conf ptype sdu h pos =
    elim (Bool-cases
      (ptype == vlan_uncomp && conf.implicit_protocol_type == vlan_comp_wo_ptype_field)) [
        | inl vlan ↦ rw vlan (without_some sdu (omissible_vlan conf ptype sdu h vlan))
        | inr other ↦ rw other pos
      ]

compressed_layout-some_body :
    (ptype c : ℕ) (sdu : List ℕ)
    → chosen ptype sdu ≡ some c
    → 0 < length sdu
    → 0 < length (compressed_layout ptype c sdu).1
unfolding compressed_layout
compressed_layout-some_body ptype c sdu h pos = elim (Bool-cases (c == fallback)) [
  | inl fall ↦ rw fall pos
  | inr comp ↦ elim (Bool-cases (ptype == vlan_uncomp && c == vlan_comp_wo_ptype_field)) [
    | inl vlan ↦
        rw (comp, vlan)
          (without_some sdu (
            compression_vlan ptype sdu (
              chosen-compression ptype c sdu h (ground arith)
              ∙ ap some (let e : c ≡ vlan_comp_wo_ptype_field = ground arith in e))))
    | inr other ↦ rw (comp, other) pos
  ]
]

-- Something of the SDU follows the header.
pub layout-some :
    (conf : Config) (ptype : ℕ) (sdu : List ℕ) (l : Layout)
    → layout conf ptype sdu ≡ some l
    → 0 < length sdu
    → 0 < length l.1
layout-some conf ptype sdu l h pos = elim (layout-cases conf ptype sdu l h) [
  | inl (omitted, same) ↦
      subst (λ (m : Layout). 0 < length m.1) (sym same)
        (omitted_layout-some conf ptype sdu omitted pos)
  | inr (inl (_, same)) ↦ subst (λ (m : Layout). 0 < length m.1) (sym same) pos
  | inr (inr (_, c, chose, same)) ↦
      subst (λ (m : Layout). 0 < length m.1) (sym same)
        (compressed_layout-some_body ptype c sdu chose pos)
]

pub Rebuilds-length :
    (comp ptype : ℕ) (sdu body : List ℕ)
    → 0 < length sdu
    → Rebuilds comp ptype sdu body
    → (0 < length body) × (length body ≤ length sdu)
Rebuilds-length comp ptype sdu body pos (inl (_, same)) =
    (omega (arith, ap length same), omega (arith, ap length same))
Rebuilds-length comp ptype sdu body pos (inr (_, _, frame, same)) = (
  omega (arith, ap length same, length-without sdu frame, frame_long sdu frame),
  omega (arith, ap length same, length-without sdu frame),
)

pub start_sizes_lem :
    (hdr body frag trailer : ℕ) (crc : Bool)
    → hdr ≤ 3
    → body ≤ 4088
    → frag ≤ body
    → trailer ≡ (if crc then 4 else 1)
    → start_sizes (hdr + body + trailer) hdr frag crc
      ≡ record { sdu_total_len = some body; use_crc_set = true }
unfolding start_sizes
start_sizes_lem hdr body frag trailer crc short small inside len =
    rw
      (
        (let e : (if crc then 4 else 1) ≡ trailer = sym len in e),
        (let e : sub_size (hdr + body + trailer) hdr ≡ body + trailer = ground (arith, tl_small) in
            e),
        (let e : sub_size (body + trailer) trailer ≡ body = ground (arith, tl_small) in e),
        (let e : ltb (hdr + body + trailer) frag ≡ false = ground arith in e),
        (let e : ltb (body + trailer) trailer ≡ false = ground arith in e),
        (let e : ltb body frag ≡ false = ground arith in e),
      )
      refl
  where
    tl_small : trailer ≤ 4
    tl_small = ground arith
