-- ===== src/Reassembly/Restored.antt =====
-- The VLAN frame that `reassembly_insert_vlan_ptype` (src/reassembly.c) restores from what
-- `push_alpdu_hdr` (src/header.c) leaves of it.
use mathlib.Core.Path.{ap₂}
use librle.Prelude.{
  take-append_length, ℕ, ◌+◌, ◌*◌, ◌-◌, ◌≤◌, ◌<◌, ◌≡◌, ◌^◌, ◌%◌, false, some, List, [], ◌∷◌, ◌++◌,
  length, take, drop, get_elem?, length-drop, length-append, ltb, arith, refl, ◌>>=◌, ◌∙◌, ap, sym,
  inl, inr, read_bytes, >>=-eq-some,
}
use librle.Constants.{vlan_comp_wo_ptype_field, vlan_uncomp}
use librle.Ptype.{ntohs, ip_version, is_eth_vlan_ip_frame}
use librle.Alpdu.Filled.{without_vlan_ptype}
use librle.Reassembly.Insert.{insert_vlan_ptype, insert_bytes}
use librle.Reassembly.Frames.{
  take-drop, VlanIp, vlan_ip, get_elem?-take_append, get_elem?-behind_take, read_bytes-take,
  drop-take, drop-get_elem?,
}

read_bytes-all : (xs ys : List ℕ) → read_bytes (xs ++ ys) (length xs) ≡ some xs
read_bytes-all xs ys = ground (arith, length-append xs ys, take-append_length xs ys)

insert_bytes-restores :
    (frag head payload ptype sdu : List ℕ) (n : ℕ)
    → read_bytes frag 16 ≡ some head
    → read_bytes (drop 16 frag) n ≡ some payload
    → head ++ (ptype ++ payload) ≡ sdu
    → n < 65536
    → insert_bytes frag (n + 16) ptype
      ≡ some (some (record { buffer = sdu; size = n + 18; protocol_type = vlan_uncomp }))
unfolding insert_bytes
insert_bytes-restores frag head payload ptype sdu n at_head at_payload same small = rw (
  at_head,
  (let e : (2 ^ 64 + (n + 16) - 16) % 2 ^ 64 ≡ n = omega arith in e),
  at_payload,
  same,
  (let e : (n + 16 + 2) % 2 ^ 64 ≡ n + 18 = omega arith in e),
)

module _ (sdu rest : List ℕ) (f : VlanIp sdu) where
  -- The frame as it arrives, with what follows it in the FPDU.
  arrived : List ℕ
  arrived = take 16 sdu ++ (drop 18 sdu ++ rest)

  ntohs-arrived : ntohs arrived 12 ≡ some vlan_uncomp
  unfolding arrived ntohs
  ntohs-arrived =
      ap₂ (λ x y. x >>= λ hi. y >>= λ lo. some (hi * 256 + lo))
        (get_elem?-take_append 16 12 sdu (drop 18 sdu ++ rest) (omega arith)
          (omega (arith, f.long)))
        (get_elem?-take_append 16 13 sdu (drop 18 sdu ++ rest) (omega arith)
          (omega (arith, f.long)))
      ∙ f.eth

  byte-arrived : get_elem? arrived 16 ≡ some f.byte
  unfolding arrived
  byte-arrived =
      get_elem?-behind_take 16 sdu (drop 18 sdu ++ rest) (omega (arith, f.long))
      ∙ ap (λ l. get_elem? (l ++ rest) 0) (drop-get_elem? 18 sdu f.byte f.at_byte)

  head-arrived : read_bytes arrived 16 ≡ some (take 16 sdu)
  unfolding arrived
  head-arrived = read_bytes-take 16 sdu (drop 18 sdu ++ rest) (omega (arith, f.long))

  payload-arrived : read_bytes (drop 16 arrived) (length sdu - 18) ≡ some (drop 18 sdu)
  unfolding arrived
  payload-arrived =
      ap₂ read_bytes (drop-take 16 sdu (drop 18 sdu ++ rest) (omega (arith, f.long)))
        (let e : length sdu - 18 ≡ length (drop 18 sdu) = omega (arith, length-drop 18 sdu) in e)
      ∙ read_bytes-all (drop 18 sdu) rest

  -- The two bytes that are put back.
  restored :
      (hi lo : ℕ)
      → hi * 256 + lo ≡ f.vlan
      → get_elem? sdu 16 ≡ some hi
      → get_elem? sdu 17 ≡ some lo
      → take 16 sdu ++ (hi ∷ lo ∷ drop 18 sdu) ≡ sdu
  restored hi lo e at_hi at_lo =
      ap (λ l. take 16 sdu ++ l)
        (sym (drop-get_elem? 16 sdu hi at_hi ∙ ap (λ l. hi ∷ l) (drop-get_elem? 17 sdu lo at_lo)))
      ∙ take-drop 16 sdu

-- The high and the low byte of the protocol field of a VLAN header.
vlan_bytes :
    (sdu : List ℕ) (vlan : ℕ)
    → ntohs sdu 16 ≡ some vlan
    → (hi lo : ℕ) × (get_elem? sdu 16 ≡ some hi)
      × (get_elem? sdu 17 ≡ some lo)
      × (hi * 256 + lo ≡ vlan)
unfolding ntohs
vlan_bytes sdu vlan h =
    let (hi, at_hi, rest) = >>=-eq-some (get_elem? sdu 16) _ h in
    let (lo, at_lo, rest) = >>=-eq-some (get_elem? sdu 17) _ rest in
    (hi, lo, at_hi, at_lo, ground arith)

-- The branch of `insert_vlan_ptype` for an IP packet of the given version.
insert_vlan-ip :
    (frag : List ℕ) (len byte : ℕ)
    → 17 ≤ len
    → ntohs frag 12 ≡ some vlan_uncomp
    → get_elem? frag 16 ≡ some byte
    → (ip_version byte ≡ 4 → insert_vlan_ptype frag len ≡ insert_bytes frag len (0x08 ∷ 0x00 ∷ []))
      × (ip_version byte ≡ 6
          → insert_vlan_ptype frag len ≡ insert_bytes frag len (0x86 ∷ 0xdd ∷ []))
unfolding insert_vlan_ptype
insert_vlan-ip frag len byte long eth at_byte = (
  λ four. rw ((let e : ltb len 17 ≡ false = ground arith in e), eth, at_byte, four),
  λ six. rw ((let e : ltb len 17 ≡ false = ground arith in e), eth, at_byte, six),
)

insert_vlan-arrived :
    (sdu rest : List ℕ) (f : VlanIp sdu) (hi lo : ℕ)
    → get_elem? sdu 16 ≡ some hi
    → get_elem? sdu 17 ≡ some lo
    → hi * 256 + lo ≡ f.vlan
    → lo < 256
    → length sdu < 65536
    → insert_vlan_ptype (arrived sdu rest f) (length sdu - 18 + 16)
      ≡ some
          (some (record { buffer = sdu; size = length sdu - 18 + 18; protocol_type = vlan_uncomp }))
insert_vlan-arrived sdu rest f hi lo at_hi at_lo same low small = elim f.ip [
  | inl (four, version) ↦
      (insert_vlan-ip (arrived sdu rest f) (length sdu - 18 + 16) f.byte (omega (arith, f.long))
          (ntohs-arrived sdu rest f) (byte-arrived sdu rest f)).0
        version
      ∙ insert_bytes-restores (arrived sdu rest f) (take 16 sdu) (drop 18 sdu) (0x08 ∷ 0x00 ∷ [])
          sdu (length sdu - 18) (head-arrived sdu rest f) (payload-arrived sdu rest f)
          (ap₂ (λ x y. take 16 sdu ++ (x ∷ y ∷ drop 18 sdu)) (omega (arith, four))
              (omega (arith, four))
            ∙ restored sdu rest f hi lo same at_hi at_lo)
          (omega arith)
  | inr (six, version) ↦
      (insert_vlan-ip (arrived sdu rest f) (length sdu - 18 + 16) f.byte (omega (arith, f.long))
          (ntohs-arrived sdu rest f) (byte-arrived sdu rest f)).1
        version
      ∙ insert_bytes-restores (arrived sdu rest f) (take 16 sdu) (drop 18 sdu) (0x86 ∷ 0xdd ∷ [])
          sdu (length sdu - 18) (head-arrived sdu rest f) (payload-arrived sdu rest f)
          (ap₂ (λ x y. take 16 sdu ++ (x ∷ y ∷ drop 18 sdu)) (omega (arith, six))
              (omega (arith, six))
            ∙ restored sdu rest f hi lo same at_hi at_lo)
          (omega arith)
]

append_assoc : (xs ys zs : List ℕ) → (xs ++ ys) ++ zs ≡ xs ++ (ys ++ zs)
append_assoc [] ys zs = refl
append_assoc (x ∷ xs) ys zs = ap (λ l. x ∷ l) (append_assoc xs ys zs)

arrived-without :
    (sdu rest : List ℕ) (f : VlanIp sdu) → without_vlan_ptype sdu ++ rest ≡ arrived sdu rest f
unfolding arrived
arrived-without sdu rest f = append_assoc (take 16 sdu) (drop 18 sdu) rest

-- A frame that the transmitter recognises as Ethernet, VLAN and IP and sends without the protocol
-- field of its VLAN header is restored byte for byte from the SDU that arrives, whatever follows
-- it, if it is shorter than 65536 bytes and the low byte of that field is a byte.
pub insert_vlan_ptype-without :
    (sdu rest : List ℕ)
    → is_eth_vlan_ip_frame sdu (length sdu) ≡ some vlan_comp_wo_ptype_field
    → length sdu < 65536
    → ((lo : ℕ) → get_elem? sdu 17 ≡ some lo → lo < 256)
    → insert_vlan_ptype (without_vlan_ptype sdu ++ rest) (length sdu - 2)
      ≡ some (some (record { buffer = sdu; size = length sdu; protocol_type = vlan_uncomp }))
insert_vlan_ptype-without sdu rest h small octet =
    let f = vlan_ip sdu h in
    let (hi, lo, at_hi, at_lo, same) = vlan_bytes sdu f.vlan f.at_vlan in
    ap₂ insert_vlan_ptype (arrived-without sdu rest f)
      (let e : length sdu - 2 ≡ length sdu - 18 + 16 = omega (arith, f.long) in e)
    ∙ (insert_vlan-arrived sdu rest f hi lo at_hi at_lo same (octet lo at_lo) small
        ∙ ap (λ n. some (some (record { buffer = sdu; size = n; protocol_type = vlan_uncomp })))
            (let e : length sdu - 18 + 18 ≡ length sdu = omega (arith, f.long) in e))
