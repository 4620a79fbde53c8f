-- ===== src/Reassembly/Frames.antt =====
-- An Ethernet frame with a VLAN header and an IP packet, and lists that are cut and put together.
use librle.Prelude.{
  ℕ, zero, suc, ◌≤◌, ◌<◌, ◌≡◌, ◌⊎◌, false, Option, some, List, [], ◌∷◌, ◌++◌, length, take, drop,
  get_elem?, length-take, length-append, leb, not, ◌==◌, if◌then◌else◌, arith, refl, ◌>>=◌, ◌∙◌, ap,
  sym, read_bytes, >>=-eq-some,
}
use librle.Constants.{vlan_comp, vlan_comp_wo_ptype_field, vlan_uncomp}
use librle.Ptype.{ntohs, ip_version, is_eth_vlan_ip_frame}
use librle.Ptype.Vlan.{vlan_holds_ip}

pub get_elem?-take_append :
    (n i : ℕ) (xs ys : List ℕ)
    → i < n
    → n ≤ length xs
    → get_elem? (take n xs ++ ys) i ≡ get_elem? xs i
get_elem?-take_append zero i xs ys h k = absurd (omega arith)
get_elem?-take_append (suc n) i [] ys h k = absurd (omega arith)
get_elem?-take_append (suc n) zero (x ∷ xs) ys h k = refl
get_elem?-take_append (suc n) (suc i) (x ∷ xs) ys h k =
    get_elem?-take_append n i xs ys (omega arith) (omega arith)

pub get_elem?-behind_take :
    (n : ℕ) (xs ys : List ℕ) → n ≤ length xs → get_elem? (take n xs ++ ys) n ≡ get_elem? ys 0
get_elem?-behind_take zero xs ys k = refl
get_elem?-behind_take (suc n) [] ys k = absurd (omega arith)
get_elem?-behind_take (suc n) (x ∷ xs) ys k = get_elem?-behind_take n xs ys (omega arith)

pub drop-get_elem? :
    (n : ℕ) (xs : List ℕ) (x : ℕ) → get_elem? xs n ≡ some x → drop n xs ≡ x ∷ drop (suc n) xs
drop-get_elem? zero [] x h = cc
drop-get_elem? zero (y ∷ xs) x h = cc
drop-get_elem? (suc n) [] x h = cc
drop-get_elem? (suc n) (y ∷ xs) x h = drop-get_elem? n xs x h

pub take-drop : (n : ℕ) (xs : List ℕ) → take n xs ++ drop n xs ≡ xs
take-drop zero xs = refl
take-drop (suc n) [] = refl
take-drop (suc n) (x ∷ xs) = ap (λ l. x ∷ l) (take-drop n xs)

take-take : (n : ℕ) (xs ys : List ℕ) → n ≤ length xs → take n (take n xs ++ ys) ≡ take n xs
take-take zero xs ys h = refl
take-take (suc n) [] ys h = absurd (omega arith)
take-take (suc n) (x ∷ xs) ys h = ap (λ l. x ∷ l) (take-take n xs ys (omega arith))

pub drop-take : (n : ℕ) (xs ys : List ℕ) → n ≤ length xs → drop n (take n xs ++ ys) ≡ ys
drop-take zero xs ys h = refl
drop-take (suc n) [] ys h = absurd (omega arith)
drop-take (suc n) (x ∷ xs) ys h = drop-take n xs ys (omega arith)

pub read_bytes-take :
    (n : ℕ) (xs ys : List ℕ) → n ≤ length xs → read_bytes (take n xs ++ ys) n ≡ some (take n xs)
read_bytes-take n xs ys h =
    ground (arith, length-take n xs, length-append (take n xs) ys, take-take n xs ys h)

-- What `is_eth_vlan_ip_frame` reads in a frame that is long enough.
verdict : ℕ → ℕ → ℕ → Option ℕ
verdict eth vlan byte =
    if not (eth == vlan_uncomp)
    then some 0xff
    else if vlan_holds_ip vlan (ip_version byte)
    then some vlan_comp_wo_ptype_field
    else some vlan_comp

frame_long :
    (sdu : List ℕ)
    → is_eth_vlan_ip_frame sdu (length sdu) ≡ some vlan_comp_wo_ptype_field
    → leb (length sdu) 18 ≡ false
unfolding is_eth_vlan_ip_frame
frame_long sdu h = ground arith

frame_read :
    (sdu : List ℕ)
    → leb (length sdu) 18 ≡ false
    → is_eth_vlan_ip_frame sdu (length sdu)
      ≡ (ntohs sdu 12 >>= λ eth. ntohs sdu 16 >>= λ vlan. get_elem? sdu 18 >>= verdict eth vlan)
unfolding is_eth_vlan_ip_frame verdict
frame_read sdu long = rw long

verdict_parts :
    (eth vlan byte : ℕ)
    → verdict eth vlan byte ≡ some vlan_comp_wo_ptype_field
    → (eth ≡ vlan_uncomp)
      × (((vlan ≡ 0x0800) × (ip_version byte ≡ 4)) ⊎ ((vlan ≡ 0x86dd) × (ip_version byte ≡ 6)))
unfolding verdict
verdict_parts eth vlan byte h = (ground arith, ground arith)

-- What an Ethernet frame with a VLAN header and an IP packet in it holds.
pub record VlanIp (sdu : List ℕ) : Type 0 where
  pub vlan : ℕ
  pub byte : ℕ
  pub long : 18 < length sdu
  pub eth : ntohs sdu 12 ≡ some vlan_uncomp
  pub at_vlan : ntohs sdu 16 ≡ some vlan
  pub at_byte : get_elem? sdu 18 ≡ some byte
  pub ip : ((vlan ≡ 0x0800) × (ip_version byte ≡ 4)) ⊎ ((vlan ≡ 0x86dd) × (ip_version byte ≡ 6))

pub vlan_ip :
    (sdu : List ℕ)
    → is_eth_vlan_ip_frame sdu (length sdu) ≡ some vlan_comp_wo_ptype_field
    → VlanIp sdu
vlan_ip sdu h =
    let long = frame_long sdu h in
    let (eth, at_eth, rest) = >>=-eq-some (ntohs sdu 12) _ (sym (frame_read sdu long) ∙ h) in
    let (vlan, at_vlan, rest) = >>=-eq-some (ntohs sdu 16) _ rest in
    let (byte, at_byte, rest) = >>=-eq-some (get_elem? sdu 18) _ rest in
    let (same, ip) = verdict_parts eth vlan byte rest in
    record {
      vlan = vlan;
      byte = byte;
      long = ground arith;
      eth = at_eth ∙ ap some same;
      at_vlan = at_vlan;
      at_byte = at_byte;
      ip = ip;
    }
