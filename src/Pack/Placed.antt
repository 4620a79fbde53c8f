-- ===== src/Pack/Placed.antt =====
-- Where `rle_pack` (src/pack.c) puts a PPDU.
use librle.Prelude.{
  ℕ, ◌+◌, ◌-◌, ◌≤◌, ◌<◌, ◌≡◌, ◌^◌, Option, some, List, length, take, length-take, arith, refl, ◌∙◌,
  ap, inl,
}
use librle.Prelude.Memory.{store, slice, slice-store_self, slice-store_disjoint}
use librle.Pack.{pack_ok, Fpdu, pack, pack_into, put_label, put_bytes, invalid_label}

-- The FPDU with the first `n` bytes of a PPDU put behind what it holds.
abbrev placed : Fpdu → List ℕ → ℕ → Fpdu
placed f ppdu n = record {
  bytes = store f.bytes f.current_pos (take n ppdu);
  current_pos = f.current_pos + n;
  remaining_size = f.remaining_size - n;
}

pack_eq :
    (f : Fpdu) (ppdu : List ℕ) (n : ℕ) (label : Option (List ℕ))
    → 0 < n
    → n ≤ length ppdu
    → n ≤ f.remaining_size
    → f.current_pos + f.remaining_size < 2 ^ 32
    → pack (some ppdu) n label 0 (some f) ≡ some (pack_ok, some (placed f ppdu n))
unfolding pack pack_into put_label put_bytes invalid_label
pack_eq f ppdu n label pos given room small = ground arith

-- A PPDU of `n` bytes, one or more and all given, that fits an FPDU of less than 2 ^ 32 bytes is
-- accepted when no label is to be put in front. Its bytes then stand at the old position, all bytes
-- before it are as they were, and what is used and what remains are `n` more and `n` less.
pub pack-placed :
    (f : Fpdu) (ppdu : List ℕ) (n : ℕ) (label : Option (List ℕ))
    → 0 < n
    → n ≤ length ppdu
    → n ≤ f.remaining_size
    → f.current_pos + f.remaining_size < 2 ^ 32
    → (g : Fpdu) × (pack (some ppdu) n label 0 (some f) ≡ some (pack_ok, some g))
      × (slice g.bytes f.current_pos n ≡ take n ppdu)
      × (slice g.bytes 0 f.current_pos ≡ slice f.bytes 0 f.current_pos)
      × (g.current_pos ≡ f.current_pos + n)
      × (g.remaining_size + n ≡ f.remaining_size)
pack-placed f ppdu n label pos given room small = (
  placed f ppdu n,
  pack_eq f ppdu n label pos given room small,
  ap (slice (placed f ppdu n).bytes f.current_pos)
        (let e : n ≡ length (take n ppdu) = omega (arith, length-take n ppdu) in e)
      ∙ slice-store_self f.bytes f.current_pos (take n ppdu),
  slice-store_disjoint f.bytes f.current_pos (take n ppdu) 0 f.current_pos (inl (omega arith)),
  refl,
  omega arith,
)
