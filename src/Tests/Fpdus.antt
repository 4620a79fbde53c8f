-- ===== src/Tests/Fpdus.antt =====
-- An FPDU with a label and the whole of a concrete SDU.
use librle.Prelude.{
  ℕ, ◌+◌, ◌<◌, ◌≡◌, ◌==◌, ◌-◌, set_at, ◌||◌, true, some, none, List, [], ◌∷◌, ◌++◌, length, refl,
  arith, inl, inr, sym, subst, Bool-cases, if◌then◌else◌, eq_of_==,
}
use librle.Prelude.Memory.{zeroed, store, slice}
use librle.Prelude.Tables.{passes, passes-at}
use librle.Ctx.{is_free}
use librle.Header.{comp_bytes}
use librle.Ppdu.Put.{comp_hdr}
use librle.Ppdu.Flow.{next_ppdu}
use librle.Pack.{Fpdu, pack, pack_into, put_label, put_bytes, invalid_label, pad}
use librle.Pack.Calls.{Packing, by_pack, call, no_more}
use librle.Receiver.{Receiver}
use librle.Decap.{rle_decapsulate, finished}
use librle.Transmitter.{Transmitter, fragment}
use librle.Transmitter.Sending.{Answers}
use librle.Transmitter.Fragments.{fragment-Answers}
use librle.Link.Connected.{Pending, IsOnWay, IsConnected}
use librle.Link.Fpdus.{Fills, over, completed, decap_args}
use librle.Link.Rounds.{going}
use librle.Link.Packed.{rle_decapsulate-Packing}
use librle.Tests.Witnesses.{busy_transmitter-IsSending}
use librle.Tests.Linked.{ipv4-IsSendable, ipv4-IsLinked, ipv4_layout}
use librle.Tests.Fixtures.{config, receiver, busy_transmitter, unsent_buf, ipv4_sdu, unsent_flow}

abbrev sender : Transmitter
sender = busy_transmitter unsent_buf

-- Context 3 carries the start of an IPv4 packet.
abbrev one_sdu : Pending
one_sdu i = if i == 3 then some ipv4_sdu else none

others_free : (i : ℕ) → i < 8 → (i == 3 || (is_free 8 i)) ≡ true
unfolding is_free passes
others_free i small = passes-at 8 (λ j. j == 3 || is_free 8 j) i refl small

none_used : (i : ℕ) → i < 8 → is_free 0 i ≡ true
unfolding is_free passes
none_used i small = passes-at 8 (λ j. is_free 0 j) i refl small

sender-IsOnWay : (i : ℕ) → i < 8 → IsOnWay sender (receiver (config 0x0d 0)) i (one_sdu i)
sender-IsOnWay i small = elim (Bool-cases (i == 3)) [
  | inl same ↦
      subst (λ j. IsOnWay sender (receiver (config 0x0d 0)) j (one_sdu j)) (sym (eq_of_== i 3 same))
        (unsent_flow, ipv4_layout, refl, busy_transmitter-IsSending, ipv4-IsLinked, ipv4-IsSendable)
  | inr other ↦ rw other (
    (let e : (i == 3 || is_free 8 i) ≡ true = others_free i small in rw other at e),
    none_used i small,
    λ _. inl refl,
  )
]

sender-IsConnected : IsConnected sender (receiver (config 0x0d 0)) one_sdu
sender-IsConnected = record {
  valid = record {
    omission = omega arith;
    compression = omega arith;
    crc = omega arith;
    seqno = omega arith;
    protected = omega arith;
    header_map = refl;
    ppdu_label = omega arith;
    payload_label = omega arith;
    alpdu_label = omega arith;
  };
  conf = refl;
  map_t = omega arith;
  map_r = omega arith;
  id = λ i _. refl;
  each = sender-IsOnWay;
}

abbrev whole_ppdu : List ℕ
whole_ppdu = comp_bytes (comp_hdr 0 true (length ipv4_sdu.buffer)) ++ ipv4_sdu.buffer

whole_next : next_ppdu unsent_flow 100 ≡ some (whole_ppdu, record unsent_flow { left = [] })
unfolding next_ppdu
whole_next = refl

whole_sent :
    Answers sender 3 (some (whole_ppdu, record unsent_flow { left = [] })) (fragment sender 3 100)
whole_sent =
    subst (λ a. Answers sender 3 a (fragment sender 3 100)) whole_next
      (fragment-Answers sender 3 100 unsent_flow busy_transmitter-IsSending)

one_filled :
    Fills 1 0 sender one_sdu (whole_ppdu ∷ []) (ipv4_sdu ∷ []) whole_sent.0 (set_at one_sdu 3 none)
one_filled = completed 3 100 (omega arith) whole_sent.1 whole_sent.2.freed refl over

abbrev empty_fpdu : Fpdu
empty_fpdu = record { bytes = zeroed; current_pos = 0; remaining_size = 40 }

abbrev label : List ℕ
label = 1 ∷ 2 ∷ 3 ∷ []

abbrev filled_fpdu : Fpdu
filled_fpdu = record {
  bytes = store (store zeroed 0 label) 3 whole_ppdu;
  current_pos = 3 + length whole_ppdu;
  remaining_size = 37 - length whole_ppdu;
}

one_packed : Packing (some label) empty_fpdu (whole_ppdu ∷ []) filled_fpdu
unfolding pack pack_into put_label put_bytes invalid_label comp_bytes
one_packed = by_pack (call (omega arith) refl no_more)

rle_decapsulate-Packing_example :
    (w : Receiver) × (rle_decapsulate
        (some (receiver (config 0x0d 0)))
        (decap_args (slice (pad filled_fpdu).bytes 0 40) 3 1)
      ≡ some (record { outcome = finished (going w (ipv4_sdu ∷ [])); label = label }))
    × IsConnected whole_sent.0 w (set_at one_sdu 3 none)
rle_decapsulate-Packing_example =
    rle_decapsulate-Packing sender whole_sent.0 (receiver (config 0x0d 0)) one_sdu
      (set_at one_sdu 3 none) (some label) empty_fpdu filled_fpdu (whole_ppdu ∷ []) (ipv4_sdu ∷ [])
      1 40 sender-IsConnected one_filled (omega arith) refl refl (omega arith) (omega arith)
      one_packed
