-- ===== src/Tests/Packing.antt =====
-- A PPDU packed into a concrete FPDU.
use librle.Prelude.{ℕ, ◌≡◌, Option, some, List, [], ◌∷◌, ◌++◌, replicate, arith, refl}
use librle.Prelude.Memory.{zeroed, store, slice}
use librle.Pack.{Fpdu, pack, pack_into, put_label, put_bytes, invalid_label, pad}
use librle.Pack.Filled.{Packs, pack-Packs}
use librle.Pack.Calls.{Packing, by_pack, call, no_more, pad-Packing}

-- An empty FPDU, one that a label is put into with the first PPDU, and the label.
abbrev empty_fpdu : Fpdu
empty_fpdu = record { bytes = zeroed; current_pos = 0; remaining_size = 10 }

abbrev label : Option (List ℕ)
label = some (1 ∷ 2 ∷ 3 ∷ [])

abbrev ppdu : List ℕ
ppdu = 200 ∷ 8 ∷ 69 ∷ []

pack-Packs_example : Packs 10 empty_fpdu [] label ppdu
unfolding slice invalid_label
pack-Packs_example =
    pack-Packs 10 empty_fpdu [] label ppdu
      (record { bytes = refl; used = refl; room = refl; small = omega arith }) refl (omega arith)
      (omega arith)

abbrev used_fpdu : Fpdu
used_fpdu = record {
  bytes = store (store zeroed 0 (1 ∷ 2 ∷ 3 ∷ [])) 3 ppdu;
  current_pos = 6;
  remaining_size = 4;
}

one_call : Packing label empty_fpdu (ppdu ∷ []) used_fpdu
unfolding pack pack_into put_label put_bytes invalid_label
one_call = by_pack (call (omega arith) refl no_more)

pad-Packing_example : slice (pad used_fpdu).bytes 0 10 ≡ (1 ∷ 2 ∷ 3 ∷ []) ++ (ppdu ++ replicate 4 0)
pad-Packing_example =
    pad-Packing 10 label empty_fpdu used_fpdu (ppdu ∷ []) refl refl (omega arith) one_call
