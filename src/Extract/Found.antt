-- ===== src/Extract/Found.antt =====
-- What the extraction functions of src/header.c find behind an uncompressed and a compressed header.
use librle.Prelude.{
  ◌%◌, ℕ, ◌+◌, ◌<◌, ◌≡◌, ◌≢◌, ◌⊎◌, inl, inr, false, Option, some, List, ◌∷◌, ◌++◌, length, arith,
  refl, ap, ◌∙◌, subst, ◌==◌, ◌&&◌, if◌then◌else◌, Bool-cases,
}
use librle.Constants.{fallback, ip_comp, vlan_uncomp, vlan_comp_wo_ptype_field}
use librle.Ptype.Vlan.{is_eth_vlan_ip_frame, ntohs}
use librle.Ptype.{ptype_decompression, ptype_is_compressible, ptype_compression}
use librle.Ptype.Laws.{
  ptype_decompression-compression, is_eth_vlan_ip_frame_cases, ptype_decompression_vlan,
}
use librle.Alpdu.{be16_bytes}
use librle.Alpdu.Filled.{without_vlan_ptype}
use librle.Alpdu.Layout.{Layout, compressed_layout}
use librle.Extract.{
  Extraction, extracted, uncompressed_ptype, uncomp_alpdu_extract, comp_alpdu_extract,
}

-- The compressed value that `push_alpdu_hdr` chooses.
abbrev pub chosen : ℕ → List ℕ → Option ℕ
chosen ptype sdu =
    if ptype_is_compressible ptype then ptype_compression ptype sdu (length sdu) else some fallback

-- How the receiver finds the SDU again in what follows the header: as it is, or as a VLAN frame
-- without a protocol field.
abbrev pub Rebuilds : ℕ → ℕ → List ℕ → List ℕ → Type 0
Rebuilds comp_ptype ptype sdu body =
    ((comp_ptype ≢ vlan_comp_wo_ptype_field) × (body ≡ sdu))
    ⊎ ((comp_ptype ≡ vlan_comp_wo_ptype_field)
        × (ptype ≡ vlan_uncomp)
        × (is_eth_vlan_ip_frame sdu (length sdu) ≡ some vlan_comp_wo_ptype_field)
        × (body ≡ without_vlan_ptype sdu))

-- What is extracted from `k` bytes of an SDU behind its header.
abbrev pub found : ℕ → ℕ → List ℕ → ℕ → ℕ → Extraction
found ptype comp_ptype tail k hdr_len = extracted (record {
  ptype = ptype;
  comp_ptype = comp_ptype;
  sdu_frag = tail;
  sdu_frag_len = k;
  alpdu_hdr_len = hdr_len;
})

-- An uncompressed header.
pub uncomp-be16 :
    (ptype k : ℕ) (tail : List ℕ)
    → ptype < 65536
    → k < 65536
    → uncomp_alpdu_extract (be16_bytes ptype ++ tail) (2 + k) ≡ some (found ptype fallback tail k 2)
unfolding uncomp_alpdu_extract ntohs
uncomp-be16 ptype k tail small short = ground arith

-- A fallback header.
comp-fallback :
    (ptype k : ℕ) (tail : List ℕ)
    → ptype < 65536
    → k < 65536
    → comp_alpdu_extract (fallback ∷ be16_bytes ptype ++ tail) (3 + k)
      ≡ some (found ptype fallback tail k 3)
unfolding comp_alpdu_extract ntohs
comp-fallback ptype k tail small short = ground arith

-- A compressed header.
comp-value :
    (ptype c k : ℕ) (tail : List ℕ)
    → c < 256
    → c ≢ fallback
    → c ≢ ip_comp
    → ptype_decompression c ≡ ptype
    → k < 65536
    → comp_alpdu_extract (c % 256 ∷ tail) (1 + k) ≡ some (found ptype c tail k 1)
unfolding comp_alpdu_extract uncompressed_ptype
comp-value ptype c k tail small no_fallback no_ip same short =
    rw (let e : c % 256 ≡ c = omega arith in e) (ground arith)

pub chosen-compression :
    (ptype c : ℕ) (sdu : List ℕ)
    → chosen ptype sdu ≡ some c
    → c ≢ fallback
    → ptype_compression ptype sdu (length sdu) ≡ some c
chosen-compression ptype c sdu h n = ground arith

ptype_compression-lt :
    (ptype c : ℕ) (sdu : List ℕ) → ptype_compression ptype sdu (length sdu) ≡ some c → c < 256
unfolding ptype_compression
ptype_compression-lt ptype c sdu h = ground (arith, is_eth_vlan_ip_frame_cases sdu (length sdu) c)

ptype_compression-vlan :
    (sdu : List ℕ) (c : ℕ)
    → ptype_compression vlan_uncomp sdu (length sdu) ≡ some c
    → is_eth_vlan_ip_frame sdu (length sdu) ≡ some c
unfolding ptype_compression
ptype_compression-vlan sdu c h = h

-- What the extraction finds in a layout, if `k` bytes of the SDU are there.
abbrev pub Finds : (List ℕ → ℕ → Option Extraction) → ℕ → List ℕ → Layout → ℕ → List ℕ → Type 0
Finds extract ptype sdu l k tail =
    (comp_ptype : ℕ) × (extract (l.0 ++ tail) (length l.0 + k)
      ≡ some (found ptype comp_ptype tail k (length l.0)))
    × Rebuilds comp_ptype ptype sdu l.1

supported-Finds :
    (ptype c k : ℕ) (sdu tail : List ℕ)
    → ptype_compression ptype sdu (length sdu) ≡ some c
    → (c == fallback) ≡ false
    → k < 65536
    → Finds comp_alpdu_extract ptype sdu (compressed_layout ptype c sdu) k tail
unfolding compressed_layout
supported-Finds ptype c k sdu tail h n short =
    let (same, no_ip, compressible) =
      ptype_decompression-compression ptype c sdu (length sdu) h (ground arith) in
    let value =
      comp-value ptype c k tail (ptype_compression-lt ptype c sdu h) (ground arith) no_ip same
        short in
    rw n (elim (Bool-cases (ptype == vlan_uncomp && c == vlan_comp_wo_ptype_field)) [
      | inl vlan ↦ rw vlan (
        c,
        value,
        inr (
          ground arith,
          ground arith,
          ptype_compression-vlan sdu vlan_comp_wo_ptype_field (
              subst (λ p. ptype_compression p sdu (length sdu) ≡ some vlan_comp_wo_ptype_field)
                (let e : ptype ≡ vlan_uncomp = ground arith in e)
                (h ∙ ap some (let e : c ≡ vlan_comp_wo_ptype_field = ground arith in e))),
          refl,
        ),
      )
      | inr other ↦ rw other (
        c,
        value,
        inl ((λ e. ground (arith, ap ptype_decompression e, ptype_decompression_vlan)), refl),
      )
    ])

pub compressed-Finds :
    (ptype c k : ℕ) (sdu tail : List ℕ)
    → chosen ptype sdu ≡ some c
    → ptype < 65536
    → k < 65536
    → Finds comp_alpdu_extract ptype sdu (compressed_layout ptype c sdu) k tail
unfolding compressed_layout
compressed-Finds ptype c k sdu tail h small short = elim (Bool-cases (c == fallback)) [
  | inl fall ↦ rw fall (fallback, comp-fallback ptype k tail small short, inl ((λ e. cc), refl))
  | inr comp ↦
      supported-Finds ptype c k sdu tail (chosen-compression ptype c sdu h (ground arith)) comp
        short
]
