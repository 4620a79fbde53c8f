-- ===== src/Link/Packed.antt =====
-- From SDU to SDU: src/encap.c, src/fragmentation.c, src/pack.c and src/deencap.c together.
use librle.Prelude.{
  ℕ, ◌<◌, ◌≡◌, ◌^◌, ◌⊎◌, false, Option, some, List, ◌++◌, length, arith, ◌∙◌, ap, sym, concat,
  replicate,
}
use librle.Prelude.Memory.{slice, length-slice}
use librle.Constants.{Sdu}
use librle.Receiver.{Receiver}
use librle.Decap.{rle_decapsulate, finished}
use librle.Transmitter.{Transmitter}
use librle.Pack.{Fpdu, pad, label_bytes, invalid_label}
use librle.Pack.Calls.{Packing, Packing-IsLabel, pad-Packing}
use librle.Link.Connected.{Pending, IsConnected}
use librle.Link.Fpdus.{Fills, decap_args, decap_fpdu-Fills}
use librle.Link.Rounds.{going}

label_sizes :
    (label : Option (List ℕ)) (n : ℕ) → invalid_label label n ≡ false → (n ≡ 0) ⊎ (n ≡ 3) ⊎ (n ≡ 6)
unfolding invalid_label
label_sizes label n h = ground arith

-- While SDUs are on their way in any of the contexts, the transmitter takes further
-- SDUs and makes PPDUs of any contexts and sizes, and `rle_pack_init` and `rle_pack`, or `rle_pack`
-- alone, put these behind a label into an empty FPDU, which `rle_pad` pads. Then `rle_decapsulate`
-- of the FPDU returns OK, the label, and exactly the SDUs of which the last PPDU was made, in that
-- order, if its caller has room for another SDU at every PPDU; the SDUs that are not complete are
-- still on their way to the receiver.
pub rle_decapsulate-Packing :
    (t v : Transmitter) (r : Receiver) (p q : Pending) (label : Option (List ℕ)) (f h : Fpdu)
    (ppdus : List (List ℕ)) (sdus : List Sdu) (max total : ℕ)
    → IsConnected t r p
    → Fills max 0 t p ppdus sdus v q
    → 0 < max
    → f.current_pos ≡ 0
    → f.remaining_size ≡ total
    → 0 < total
    → total < 2 ^ 32
    → Packing label f ppdus h
    → (w : Receiver) × (rle_decapsulate
          (some r)
          (decap_args (slice (pad h).bytes 0 total) (length (label_bytes label)) max)
        ≡ some (record { outcome = finished (going w sdus); label = label_bytes label }))
      × IsConnected v w q
rle_decapsulate-Packing t v r p q label f h ppdus sdus max total w fills room empty size some_bytes
      small packing =
    let l = label_bytes label in
    let whole = pad-Packing total label f h ppdus empty size small packing in
    let len : total ≡ length (l ++ (concat ppdus ++ replicate h.remaining_size 0)) =
      sym (length-slice (pad h).bytes 0 total) ∙ ap length whole in
    let (u, e, on) =
      decap_fpdu-Fills t v r p q l ppdus sdus max h.remaining_size w fills room
        (label_sizes label (length l) (Packing-IsLabel packing)) (omega arith) in
    (u, ap (λ xs. rle_decapsulate (some r) (decap_args xs (length l) max)) whole ∙ e, on)
