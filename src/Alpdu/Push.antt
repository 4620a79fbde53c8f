-- ===== src/Alpdu/Push.antt =====
-- `push_alpdu_hdr` (src/header.c) against the layout of the ALPDU.
use librle.Prelude.{
  ℕ, ◌<◌, ◌≡◌, Bool, true, false, Option, some, List, [], ◌∷◌, length, arith, refl, ◌∙◌, ◌>>=◌,
  ◌==◌, ◌&&◌, if◌then◌else◌, Bool-cases, inl, inr, ◌%◌,
}
use librle.Constants.{fallback, vlan_uncomp, vlan_comp_wo_ptype_field}
use librle.Config.{Config}
use librle.Ptype.{ptype_is_compressible, ptype_compression}
use librle.FragBuf.{FragBuf}
use librle.Alpdu.{
  ptype_is_omissible, be16_bytes, push_uncomp_alpdu_hdr, push_comp_supported_alpdu_hdr,
  push_comp_fallback_alpdu_hdr, omit_vlan_ptype, push_compressed_alpdu_hdr, push_alpdu_hdr,
}
use librle.Alpdu.Filled.{
  IsFilled, IsAlpdu, Keeps, IsFilled-IsAlpdu, push_hdr_IsAlpdu, without_vlan_ptype,
  omit_vlan_ptype-IsFilled,
}
use librle.Alpdu.Layout.{
  Layout, omitted_layout, compressed_layout, layout, ptype_is_omissible-Total, compressible_Total,
  omissible_vlan, compression_vlan,
}

-- `r` is a buffer that holds the layout.
abbrev pub Holds : FragBuf → Layout → Option FragBuf → Type 0
Holds b l r = (c : FragBuf) × (r ≡ some c) × IsAlpdu c l.0 l.1 × Keeps b c

-- With the VLAN protocol field omitted first.
omitted_Holds :
    (b : FragBuf) (sdu hdr : List ℕ) (k : FragBuf → Option FragBuf)
    → IsFilled b sdu
    → 18 < length sdu
    → ((c : FragBuf)
        → IsFilled c (without_vlan_ptype sdu)
        → Holds c (hdr, without_vlan_ptype sdu) (k c))
    → Holds b (hdr, without_vlan_ptype sdu) (omit_vlan_ptype b >>= k)
omitted_Holds b sdu hdr k v long h =
    let (c, e, w, (same_info, same_crc)) = omit_vlan_ptype-IsFilled b sdu v long in
    let (d, f, x, (info, crc)) = h c w in (d, rw e f, x, (info ∙ same_info, crc ∙ same_crc))

omissible_Holds :
    (b : FragBuf) (conf : Config) (ptype : ℕ) (sdu : List ℕ)
    → IsFilled b sdu
    → ptype_is_omissible ptype conf sdu (length sdu) ≡ some true
    → Holds b (omitted_layout conf ptype sdu) (
        if ptype == vlan_uncomp && conf.implicit_protocol_type == vlan_comp_wo_ptype_field
        then omit_vlan_ptype b
        else some b)
unfolding omitted_layout
omissible_Holds b conf ptype sdu v e =
    elim (Bool-cases
      (ptype == vlan_uncomp && conf.implicit_protocol_type == vlan_comp_wo_ptype_field)) [
        | inl vlan ↦ rw vlan (
            let (c, f, w, k) =
              omit_vlan_ptype-IsFilled b sdu v (omissible_vlan conf ptype sdu e vlan) in
            (c, f, IsFilled-IsAlpdu c (without_vlan_ptype sdu) w, k))
        | inr other ↦ rw other (b, refl, IsFilled-IsAlpdu b sdu v, (refl, refl))
      ]

compressed_Holds :
    (b : FragBuf) (ptype comp_ptype : ℕ) (sdu : List ℕ)
    → IsFilled b sdu
    → (comp_ptype ≡ vlan_comp_wo_ptype_field → 18 < length sdu)
    → Holds b
        (compressed_layout ptype comp_ptype sdu)
        (push_compressed_alpdu_hdr b ptype comp_ptype)
unfolding compressed_layout push_compressed_alpdu_hdr push_comp_fallback_alpdu_hdr
    push_comp_supported_alpdu_hdr
compressed_Holds b ptype comp_ptype sdu v long = elim (Bool-cases (comp_ptype == fallback)) [
  | inl fall ↦ rw fall (push_hdr_IsAlpdu b (fallback ∷ be16_bytes ptype) sdu v (omega arith))
  | inr comp ↦
      rw comp (elim (Bool-cases (ptype == vlan_uncomp && comp_ptype == vlan_comp_wo_ptype_field)) [
        | inl vlan ↦ rw vlan (
            omitted_Holds b sdu (comp_ptype % 256 ∷ []) _ v (long (ground arith)) (λ c w.
              push_hdr_IsAlpdu c (comp_ptype % 256 ∷ []) (without_vlan_ptype sdu) w (omega arith)))
        | inr other ↦ rw other (push_hdr_IsAlpdu b (comp_ptype % 256 ∷ []) sdu v (omega arith))
      ])
]

push_alpdu_hdr_read :
    (b : FragBuf) (conf : Config) (sdu : List ℕ)
    → IsFilled b sdu
    → b.sdu_info.size ≡ length sdu
    → let ptype = b.sdu_info.protocol_type in
      push_alpdu_hdr b conf ≡ (
        ptype_is_omissible ptype conf sdu (length sdu) >>= λ omissible.
        if omissible
        then (if ptype == vlan_uncomp && conf.implicit_protocol_type == vlan_comp_wo_ptype_field
            then omit_vlan_ptype b
            else some b)
        else if conf.use_compressed_ptype == 0
        then push_uncomp_alpdu_hdr b ptype
        else ((if ptype_is_compressible ptype
              then ptype_compression ptype sdu (length sdu)
              else some fallback)
            >>= push_compressed_alpdu_hdr b ptype))
unfolding push_alpdu_hdr
push_alpdu_hdr_read b conf sdu v e = rw (e, v.bytes, push_alpdu_hdr)

compression_long :
    (ptype : ℕ) (sdu : List ℕ) (c : ℕ)
    → (if ptype_is_compressible ptype
        then ptype_compression ptype sdu (length sdu)
        else some fallback)
      ≡ some c
    → c ≡ vlan_comp_wo_ptype_field
    → 18 < length sdu
compression_long ptype sdu c h e = ground (arith, compression_vlan ptype sdu)

push_omissible :
    (b : FragBuf) (conf : Config) (sdu : List ℕ) (omissible : Bool)
    → IsFilled b sdu
    → b.sdu_info.size ≡ length sdu
    → ptype_is_omissible b.sdu_info.protocol_type conf sdu (length sdu) ≡ some omissible
    → (l : Layout) × (layout conf b.sdu_info.protocol_type sdu ≡ some l)
      × Holds b l (push_alpdu_hdr b conf)
unfolding layout push_uncomp_alpdu_hdr
push_omissible b conf sdu true v size e =
    rw (push_alpdu_hdr_read b conf sdu v size, e)
      (
        omitted_layout conf b.sdu_info.protocol_type sdu,
        refl,
        omissible_Holds b conf b.sdu_info.protocol_type sdu v e,
      )
push_omissible b conf sdu false v size e =
    rw (push_alpdu_hdr_read b conf sdu v size, e)
      (elim (Bool-cases (conf.use_compressed_ptype == 0)) [
        | inl plain ↦ rw plain (
          (be16_bytes ptype, sdu),
          refl,
          push_hdr_IsAlpdu b (be16_bytes ptype) sdu v (omega arith),
        )
        | inr comp ↦
            rw (comp, (compressible_Total ptype sdu).1)
              (
                compressed_layout ptype (compressible_Total ptype sdu).0 sdu,
                refl,
                compressed_Holds b ptype (compressible_Total ptype sdu).0 sdu v (
                    compression_long ptype sdu (compressible_Total ptype sdu).0
                      (compressible_Total ptype sdu).1),
              )
      ])
  where
    ptype : ℕ
    ptype = b.sdu_info.protocol_type

-- In a buffer that holds an SDU of any content, `push_alpdu_hdr` builds exactly the layout of the
-- ALPDU: no header, an uncompressed, a compressed or a fallback one, in front of the SDU or of the
-- SDU without the protocol field of its VLAN header. Nothing of it is sent yet, there is room for
-- a trailer, and what is known of the SDU and its CRC are kept.
pub push_alpdu_hdr-Holds :
    (b : FragBuf) (conf : Config) (sdu : List ℕ)
    → IsFilled b sdu
    → b.sdu_info.size ≡ length sdu
    → (l : Layout) × (layout conf b.sdu_info.protocol_type sdu ≡ some l)
      × Holds b l (push_alpdu_hdr b conf)
push_alpdu_hdr-Holds b conf sdu v size =
    push_omissible b conf sdu (ptype_is_omissible-Total conf b.sdu_info.protocol_type sdu).0 v size
      (ptype_is_omissible-Total conf b.sdu_info.protocol_type sdu).1
