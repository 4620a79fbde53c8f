-- ===== src/Alpdu/Layout.antt =====
-- What `push_alpdu_hdr` (src/header.c) makes of an SDU.
use librle.Prelude.{
  not, get_elem?, leb, zero, suc, ltb, ◌%◌, ℕ, ◌+◌, ◌<◌, ◌≡◌, Bool, true, false, Option, some, List,
  [], ◌∷◌, length, arith, refl, ◌>>=◌, ◌==◌, ◌&&◌, if◌then◌else◌,
}
use librle.Constants.{
  signal_uncomp, vlan_qinq_uncomp, vlan_qinq_legacy_uncomp, ipv4_uncomp, ipv6_uncomp, arp_uncomp,
  signal_comp, vlan_qinq_comp, vlan_qinq_legacy_comp, ipv4_comp, ipv6_comp, arp_comp, ip_comp,
  vlan_comp, fallback, vlan_uncomp, vlan_comp_wo_ptype_field,
}
use librle.Config.{Config}
use librle.Ptype.Vlan.{is_eth_vlan_ip_frame, ntohs, vlan_holds_ip, ip_version}
use librle.Ptype.{ptype_decompression, ptype_is_compressible, ptype_compression}
use librle.FragBuf.{FragBuf}
use librle.Alpdu.{ptype_is_omissible, be16_bytes}
use librle.Alpdu.Filled.{IsAlpdu, Keeps, without_vlan_ptype}

-- The header of the ALPDU, and what of the SDU follows it.
abbrev pub Layout : Type 0
Layout = List ℕ × List ℕ

unfoldable pub omitted_layout : Config → ℕ → List ℕ → Layout
omitted_layout conf ptype sdu =
    if ptype == vlan_uncomp && conf.implicit_protocol_type == vlan_comp_wo_ptype_field
    then ([], without_vlan_ptype sdu)
    else ([], sdu)

unfoldable pub compressed_layout : ℕ → ℕ → List ℕ → Layout
compressed_layout ptype comp_ptype sdu =
    if comp_ptype == fallback
    then (fallback ∷ be16_bytes ptype, sdu)
    else if ptype == vlan_uncomp && comp_ptype == vlan_comp_wo_ptype_field
    then (comp_ptype % 256 ∷ [], without_vlan_ptype sdu)
    else (comp_ptype % 256 ∷ [], sdu)

unfoldable pub layout : Config → ℕ → List ℕ → Option Layout
layout conf ptype sdu = do
  omitted ← ptype_is_omissible ptype conf sdu (length sdu)
  if omitted
      then some (omitted_layout conf ptype sdu)
      else if conf.use_compressed_ptype == 0
      then some (be16_bytes ptype, sdu)
      else (do
        comp_ptype ←
            (if ptype_is_compressible ptype
              then ptype_compression ptype sdu (length sdu)
              else some fallback)
        some (compressed_layout ptype comp_ptype sdu))

-- `r` is a buffer that holds the layout.
abbrev pub Holds : FragBuf → Layout → Option FragBuf → Type 0
Holds b l r = (c : FragBuf) × (r ≡ some c) × IsAlpdu c l.0 l.1 × Keeps b c

long_of_vlan :
    (sdu : List ℕ)
    → is_eth_vlan_ip_frame sdu (length sdu) ≡ some vlan_comp_wo_ptype_field
    → 18 < length sdu
unfolding is_eth_vlan_ip_frame
long_of_vlan sdu h = ground arith

pub omissible_vlan :
    (conf : Config) (ptype : ℕ) (sdu : List ℕ)
    → ptype_is_omissible ptype conf sdu (length sdu) ≡ some true
    → (ptype == vlan_uncomp && conf.implicit_protocol_type == vlan_comp_wo_ptype_field) ≡ true
    → 18 < length sdu
unfolding ptype_is_omissible
omissible_vlan conf ptype sdu h e = ground (arith, long_of_vlan sdu)

pub compression_vlan :
    (ptype : ℕ) (sdu : List ℕ)
    → ptype_compression ptype sdu (length sdu) ≡ some vlan_comp_wo_ptype_field
    → 18 < length sdu
unfolding ptype_compression
compression_vlan ptype sdu h = ground (arith, long_of_vlan sdu)

-- `m` is not a fault.
abbrev pub Total {ℓ} : {A : Type ℓ} → Option A → Type ℓ
Total {A} m = (a : A) × (m ≡ some a)

ok {ℓ} : {A : Type ℓ} (a : A) → Total (some a)
ok a = (a, refl)

if_Total {ℓ} :
    {A : Type ℓ} (p : Bool) (x y : Option A) → Total x → Total y → Total (if p then x else y)
if_Total true x y h k = h
if_Total false x y h k = k

split_Total {ℓ} :
    {A : Type ℓ} (p : Bool) (x y : Option A)
    → Total x
    → (p ≡ false → Total y)
    → Total (if p then x else y)
split_Total true x y h k = h
split_Total false x y h k = k refl

bind_Total {ℓ κ} :
    {A : Type ℓ} {B : Type κ} (m : Option A) (f : A → Option B)
    → Total m
    → ((a : A) → Total (f a))
    → Total (m >>= f)
bind_Total m f (a, e) h = rw e (h a)

-- Where there is a byte, it is read.
get_elem?-Total : (xs : List ℕ) (i : ℕ) → i < length xs → Total (get_elem? xs i)
get_elem?-Total [] i h = absurd (omega arith)
get_elem?-Total (x ∷ xs) zero h = ok x
get_elem?-Total (x ∷ xs) (suc i) h = get_elem?-Total xs i (omega arith)

ntohs-Total : (xs : List ℕ) (i : ℕ) → i + 1 < length xs → Total (ntohs xs i)
unfolding ntohs
ntohs-Total xs i h =
    bind_Total (get_elem? xs i) _ (get_elem?-Total xs i (omega arith))
      (λ hi. bind_Total (get_elem? xs (i + 1)) _ (get_elem?-Total xs (i + 1) h) (λ lo. ok _))

is_eth_vlan_ip_frame-Total : (sdu : List ℕ) → Total (is_eth_vlan_ip_frame sdu (length sdu))
unfolding is_eth_vlan_ip_frame
is_eth_vlan_ip_frame-Total sdu = split_Total (leb (length sdu) 18) _ _ (ok _) (λ long.
    bind_Total (ntohs sdu 12) _ (ntohs-Total sdu 12 (ground arith)) (λ eth.
      bind_Total (ntohs sdu 16) _ (ntohs-Total sdu 16 (ground arith)) (λ vlan.
        bind_Total (get_elem? sdu 18) _ (get_elem?-Total sdu 18 (ground arith)) (λ byte.
          if_Total (not (eth == vlan_uncomp)) _ _ (ok fallback) (
            if_Total (vlan_holds_ip vlan (ip_version byte)) _ _ (ok vlan_comp_wo_ptype_field)
              (ok vlan_comp))))))

first_Total :
    (sdu : List ℕ) (f : ℕ → Option Bool)
    → ((x : ℕ) → Total (f x))
    → Total (if ltb (length sdu) 1 then some false else get_elem? sdu 0 >>= f)
first_Total [] f h = ok false
first_Total (x ∷ xs) f h = rw (let e : ltb (suc (length xs)) 1 ≡ false = ground arith in e) (h x)

pub ptype_is_omissible-Total :
    (conf : Config) (ptype : ℕ) (sdu : List ℕ)
    → Total (ptype_is_omissible ptype conf sdu (length sdu))
unfolding ptype_is_omissible
ptype_is_omissible-Total conf ptype sdu =
    if_Total (not (conf.allow_ptype_omission == 1)) _ _ (ok false) (
      if_Total (ptype == signal_uncomp) _ _ (ok true) (
        if_Total (conf.implicit_protocol_type == ip_comp) _ _ (first_Total sdu _ (λ x. ok _)) (
          if_Total (conf.implicit_protocol_type == vlan_comp_wo_ptype_field) _ _
            (bind_Total (is_eth_vlan_ip_frame sdu (length sdu)) _ (is_eth_vlan_ip_frame-Total sdu)
              (λ c. ok (c == vlan_comp_wo_ptype_field)))
            (ok (ptype == ptype_decompression conf.implicit_protocol_type)))))

ptype_compression-Total :
    (ptype : ℕ) (sdu : List ℕ) → Total (ptype_compression ptype sdu (length sdu))
unfolding ptype_compression
ptype_compression-Total ptype sdu = if_Total (ptype == signal_uncomp) _ _ (ok signal_comp) (
    if_Total (ptype == vlan_uncomp) _ _ (is_eth_vlan_ip_frame-Total sdu) (
      if_Total (ptype == vlan_qinq_uncomp) _ _ (ok vlan_qinq_comp) (
        if_Total (ptype == vlan_qinq_legacy_uncomp) _ _ (ok vlan_qinq_legacy_comp) (
          if_Total (ptype == ipv4_uncomp) _ _ (ok ipv4_comp) (
            if_Total (ptype == ipv6_uncomp) _ _ (ok ipv6_comp)
              (if_Total (ptype == arp_uncomp) _ _ (ok arp_comp) (ok fallback)))))))

pub compressible_Total :
    (ptype : ℕ) (sdu : List ℕ)
    → Total (
        if ptype_is_compressible ptype
        then ptype_compression ptype sdu (length sdu)
        else some fallback)
compressible_Total ptype sdu =
    if_Total (ptype_is_compressible ptype) _ _ (ptype_compression-Total ptype sdu) (ok fallback)
