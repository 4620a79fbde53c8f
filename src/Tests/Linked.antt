-- ===== src/Tests/Linked.antt =====
-- A sender and a receiver at concrete SDUs.
use librle.Prelude.{
  ℕ, ◌≡◌, ◌==◌, ◌++◌, ◌+◌, true, false, some, List, [], ◌∷◌, take, refl, arith, inl, inr, replicate,
}
use librle.Constants.{Sdu}
use librle.Config.Laws as ConfigLaws
use librle.Ctx.{is_free}
use librle.Header.{is_signal, start_bytes}
use librle.Ptype.{get_alpdu_label_type, ptype_decompression, ptype_decomp}
use librle.Alpdu.{ptype_is_omissible}
use librle.Ptype.Vlan.{is_eth_vlan_ip_frame, ntohs, ip_version}
use librle.Tests.Witnesses.{busy_transmitter-IsSending}
use librle.Alpdu.Filled.{without_vlan_ptype}
use librle.Alpdu.Layout.{Layout, layout, omitted_layout}
use librle.Extract.{alpdu_extract}
use librle.Extract.Found.{Rebuilds, found}
use librle.Extract.Layout.{alpdu_extract-layout}
use librle.Ppdu.Put.{start_hdr}
use librle.Ppdu.Flow.{Flow, next_ppdu}
use librle.Receiver.{c_ok, c_reassembly_ok}
use librle.Transmitter.{Transmitter, encap_ok, encapsulate}
use librle.Link.Fresh.{IsSendable}
use librle.Link.Step.{IsLinked, Follows}
use librle.Link.Start.{begun_flow}
use librle.Link.Follow.{deencap_data-Follows}
use librle.Link.Others.{deencap_data-interleaved}
use librle.Link.Delivery.{Delivers, encapsulate-Delivers, delivers}
use librle.Link.Safety.{SoFar, Exchange-SoFar}
use librle.Tests.Fixtures.{
  config, transmitter, receiver, busy_transmitter, unsent_buf, ipv4_sdu, vlan_sdu, unsent_flow,
}

pub IsValid-config : ConfigLaws.IsValid (config 0x31 0)
IsValid-config = record {
  omission = omega arith;
  compression = omega arith;
  crc = omega arith;
  seqno = omega arith;
  protected = omega arith;
  header_map = refl;
  ppdu_label = omega arith;
  payload_label = omega arith;
  alpdu_label = omega arith;
}

pub vlan-IsSendable : IsSendable (config 0x31 0) vlan_sdu
vlan-IsSendable = record {
  sdu = record { whole = refl; some_bytes = omega arith; small = omega arith };
  octet = λ lo h. ground arith;
  ptype = omega arith;
  honest = λ _ _. refl;
}

encapsulate-Delivers_example :
    (u : Transmitter) × (encapsulate (transmitter (config 0x31 0)) vlan_sdu 3 ≡ some (encap_ok, u))
    × Delivers 3 (λ _. 8) 0 u (receiver (config 0x31 0)) vlan_sdu 3 4096
unfolding is_free
encapsulate-Delivers_example =
    encapsulate-Delivers (transmitter (config 0x31 0)) (receiver (config 0x31 0)) vlan_sdu 3
      (λ _. 8) (omega arith) (omega arith) (omega arith) refl IsValid-config vlan-IsSendable refl
      (omega arith) refl (λ _. inl refl) (λ _. omega arith)

vlan_laid :
    layout (config 0x31 0) 0x8100 vlan_sdu.buffer ≡ some ([], without_vlan_ptype vlan_sdu.buffer)
unfolding layout omitted_layout ptype_is_omissible is_eth_vlan_ip_frame ntohs ip_version
vlan_laid = refl

-- The start of an IPv4 packet, whose protocol type is omitted.
abbrev pub ipv4_layout : Layout
ipv4_layout = ([], ipv4_sdu.buffer)

ipv4_laid : layout (config 0x0d 0) 0x0800 ipv4_sdu.buffer ≡ some ipv4_layout
unfolding layout omitted_layout ptype_is_omissible ptype_decompression ptype_decomp
ipv4_laid = refl

pub ipv4-IsSendable : IsSendable (config 0x0d 0) ipv4_sdu
ipv4-IsSendable = record {
  sdu = record { whole = refl; some_bytes = omega arith; small = omega arith };
  octet = λ lo h. cc;
  ptype = omega arith;
  honest = λ h _. cc;
}

pub ipv4-IsLinked : IsLinked (receiver (config 0x0d 0)) unsent_flow ipv4_sdu ipv4_layout
unfolding is_free get_alpdu_label_type
ipv4-IsLinked = inl (
  refl,
  record {
    fresh = record {
      index = omega arith;
      laid = ipv4_laid;
      left = refl;
      hdr_len = refl;
      label_type = refl;
      trailer_len = refl;
    };
    map = omega arith;
    free = refl;
    trailer = inr (refl, 0, refl, inl refl);
  },
)

abbrev first_ppdu : List ℕ
first_ppdu = start_bytes (start_hdr 3 0 true false 11 6) ++ take 4 ipv4_sdu.buffer

first_next : next_ppdu unsent_flow 8 ≡ some (first_ppdu, begun_flow unsent_flow 4)
unfolding next_ppdu
first_next = refl

deencap_data-Follows_example :
    Follows
      (receiver (config 0x0d 0))
      unsent_flow
      ipv4_sdu
      ipv4_layout
      first_ppdu
      []
      (begun_flow unsent_flow 4)
deencap_data-Follows_example =
    deencap_data-Follows (receiver (config 0x0d 0)) unsent_flow ipv4_sdu ipv4_layout [] 8 first_ppdu
      (begun_flow unsent_flow 4) ipv4-IsSendable ipv4-IsLinked first_next

deencap_data-interleaved_example :
    (a : Follows
      (receiver (config 0x0d 0))
      unsent_flow
      ipv4_sdu
      ipv4_layout
      first_ppdu
      []
      (begun_flow unsent_flow 4))
    × ((o : Flow) (os : Sdu) (ol : Layout)
        → (o.frag_id == 3) ≡ false
        → IsLinked (receiver (config 0x0d 0)) o os ol
        → IsLinked a.0 o os ol)
deencap_data-interleaved_example =
    deencap_data-interleaved (receiver (config 0x0d 0)) unsent_flow ipv4_sdu ipv4_layout [] 8
      first_ppdu (begun_flow unsent_flow 4) ipv4-IsSendable ipv4-IsLinked first_next

-- The SDU sent in PPDUs of 8 bytes.
sent_whole :
    Delivers 3 (λ _. 8) 0 (busy_transmitter unsent_buf) (receiver (config 0x0d 0)) ipv4_sdu 3 11
sent_whole =
    delivers 11 (λ _. 8) 0 3 (busy_transmitter unsent_buf) (receiver (config 0x0d 0)) unsent_flow
      ipv4_sdu ipv4_layout (λ _. omega arith) busy_transmitter-IsSending ipv4-IsSendable
      ipv4-IsLinked (omega arith)

Exchange-SoFar_example :
    SoFar 3 ipv4_sdu ipv4_layout
      (replicate sent_whole.0 c_ok ++ (c_reassembly_ok ipv4_sdu ∷ []))
      sent_whole.2
      sent_whole.3
Exchange-SoFar_example =
    Exchange-SoFar 3 (λ _. 8) unsent_flow ipv4_sdu ipv4_layout busy_transmitter-IsSending
      ipv4-IsSendable ipv4-IsLinked sent_whole.4

alpdu_extract-layout_example :
    (comp_ptype : ℕ) × (alpdu_extract true
        (is_signal (get_alpdu_label_type 0x8100 true 0))
        (config 0x31 0)
        (without_vlan_ptype vlan_sdu.buffer)
        (0 + 19)
      ≡ some (found 0x8100 comp_ptype (without_vlan_ptype vlan_sdu.buffer) 19 0))
    × Rebuilds comp_ptype 0x8100 vlan_sdu.buffer (without_vlan_ptype vlan_sdu.buffer)
alpdu_extract-layout_example =
    alpdu_extract-layout (config 0x31 0) 0x8100 0 19 vlan_sdu.buffer
      (without_vlan_ptype vlan_sdu.buffer) ([], without_vlan_ptype vlan_sdu.buffer) vlan_laid
      (omega arith) (λ _ _. refl) (omega arith) (omega arith) refl
