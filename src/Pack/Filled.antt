-- ===== src/Pack/Filled.antt =====
-- The FPDU that the calls of `rle_pack_init`, `rle_pack` and `rle_pad` (src/pack.c) fill.
use librle.Prelude.{
  ℕ, ◌+◌, ◌-◌, ◌≤◌, ◌<◌, ◌≡◌, ◌^◌, ◌==◌, ◌&&◌, ◌||◌, not, Bool, ltb_of_le, Option, some, List, [],
  ◌∷◌, ◌++◌, length, take-all, arith, refl, ◌∙◌, ap, sym, subst, inl, inr, ◌⊎◌, append_assoc,
  append-nil, length-append, Bool-cases, true, false, ltb, leb, if◌then◌else◌,
}
use librle.Prelude.Int.{add_size}
use librle.Prelude.Memory.{store, slice, slice-store_self, slice-store_disjoint, slice-add}
use librle.Pack.{
  pack_ok, pack_err_fpdu_too_small, Fpdu, pack, pack_into, put_label, put_bytes, invalid_label,
  label_bytes,
}

-- The FPDU of `total` bytes holds exactly the bytes `got`.
pub record IsPacked (total : ℕ) (f : Fpdu) (got : List ℕ) : Type 0 where
  pub bytes : slice f.bytes 0 f.current_pos ≡ got
  pub used : f.current_pos ≡ length got
  pub room : f.current_pos + f.remaining_size ≡ total
  pub small : total < 2 ^ 32

-- With some bytes put behind what it holds.
abbrev pub behind : Fpdu → List ℕ → Fpdu
behind f xs = record {
  bytes = store f.bytes f.current_pos xs;
  current_pos = f.current_pos + length xs;
  remaining_size = f.remaining_size - length xs;
}

pub behind-IsPacked :
    (total : ℕ) (f : Fpdu) (got xs : List ℕ)
    → IsPacked total f got
    → length xs ≤ f.remaining_size
    → IsPacked total (behind f xs) (got ++ xs)
behind-IsPacked total f got xs w fits = record {
  bytes =
      slice-add (store f.bytes f.current_pos xs) 0 f.current_pos (length xs)
      ∙ ap
          (λ a.
            slice (store f.bytes f.current_pos xs) 0 f.current_pos
            ++ slice (store f.bytes f.current_pos xs) a (length xs))
          (let e : 0 + f.current_pos ≡ f.current_pos = omega arith in e)
      ∙ ap (λ ys. ys ++ slice (store f.bytes f.current_pos xs) f.current_pos (length xs))
          (slice-store_disjoint f.bytes f.current_pos xs 0 f.current_pos (inl (omega arith))
            ∙ w.bytes)
      ∙ ap (λ ys. got ++ ys) (slice-store_self f.bytes f.current_pos xs);
  used = omega (arith, w.used, length-append {0} got xs);
  room = omega (arith, w.room);
  small = w.small;
}

pub put_bytes_lem :
    (total : ℕ) (f : Fpdu) (got xs : List ℕ)
    → IsPacked total f got
    → length xs ≤ f.remaining_size
    → put_bytes f xs (length xs) ≡ some (behind f xs)
unfolding put_bytes
put_bytes_lem total f got xs w fits = ground (arith, w.room, w.small, take-all (length xs) xs)

-- What a call of `rle_pack` puts in front of the PPDU: the label, in an empty FPDU.
abbrev pub front : Fpdu → Option (List ℕ) → List ℕ
front f label = if f.current_pos == 0 then label_bytes label else []

no_bytes : (xs : List ℕ) → ltb 0 (length xs) ≡ false → xs ≡ []
no_bytes [] h = refl
no_bytes (x ∷ xs) h = absurd (ground arith)

put_label_lem :
    (total : ℕ) (f : Fpdu) (got : List ℕ) (label : Option (List ℕ))
    → IsPacked total f got
    → length (front f label) ≤ f.remaining_size
    → (g : Fpdu) × (put_label f label (length (label_bytes label)) ≡ some g)
      × IsPacked total g (got ++ front f label)
      × (g.remaining_size ≡ f.remaining_size - length (front f label))
unfolding put_label
put_label_lem total f got label w fits = elim (Bool-cases (f.current_pos == 0)) [
  | inl start ↦
      let l = label_bytes label in
      let fits_l : length l ≤ f.remaining_size = rw start at fits in
      elim (Bool-cases (ltb 0 (length l))) [
        | inl some_given ↦
            rw (start, some_given)
              (
                behind f l,
                put_bytes_lem total f got l w fits_l,
                behind-IsPacked total f got l w fits_l,
                refl,
              )
        | inr none_given ↦
            rw (start, none_given)
              (
                f,
                refl,
                subst (IsPacked total f)
                    (sym (ap (λ ys. got ++ ys) (no_bytes l none_given) ∙ append-nil got)) w,
                (let e : length l ≡ 0 = ap length (no_bytes l none_given) in omega arith),
              )
      ]
  | inr later ↦ rw later (f, refl, subst (IsPacked total f) (sym (append-nil got)) w, omega arith)
]

-- A label that `rle_pack` takes, and its size.
abbrev pub IsLabel : Option (List ℕ) → Type 0
IsLabel label = invalid_label label (length (label_bytes label)) ≡ false

-- If label and PPDU fit, OK and an FPDU with them; otherwise the refusal of an FPDU too small.
abbrev pub Packs : ℕ → Fpdu → List ℕ → Option (List ℕ) → List ℕ → Type 0
Packs total f got label ppdu =
    let result = pack (some ppdu) (length ppdu) label (length (label_bytes label)) (some f) in
    let new = front f label ++ ppdu in
    ((length new ≤ f.remaining_size)
      × (g : Fpdu) × (result ≡ some (pack_ok, some g))
      × IsPacked total g (got ++ new))
    ⊎ ((f.remaining_size < length new) × (result ≡ some (pack_err_fpdu_too_small, some f)))

label_small : (label : Option (List ℕ)) → IsLabel label → length (label_bytes label) ≤ 6
unfolding invalid_label
label_small label h = ground arith

-- The test of `rle_pack` for an FPDU that is too small.
does_not_fit : (f : Fpdu) (size n : ℕ) → Bool
does_not_fit f size n =
    (f.current_pos == 0 && ltb f.remaining_size (add_size size n))
    || (not (f.current_pos == 0) && ltb f.remaining_size n)

does_not_fit_lem :
    (f : Fpdu) (label : Option (List ℕ)) (n : ℕ)
    → length (label_bytes label) ≤ 6
    → n < 2 ^ 32
    → does_not_fit f (length (label_bytes label)) n
      ≡ ltb f.remaining_size (length (front f label) + n)
unfolding does_not_fit
does_not_fit_lem f label n short small = elim (Bool-cases (f.current_pos == 0)) [
  | inl start ↦ rw start (ground arith)
  | inr later ↦ rw later (ground arith)
]

-- For an FPDU of less than 2 ^ 32 bytes that holds some bytes, a label that `rle_pack` takes and a
-- PPDU of 1 to 2 ^ 32 - 1 bytes: if the PPDU fits, with the label in front where the FPDU is still
-- empty, `rle_pack` returns OK, and the FPDU holds the bytes from before, that label and the PPDU,
-- and nothing else; otherwise it reports an FPDU that is too small and leaves it alone.
pub pack-Packs :
    (total : ℕ) (f : Fpdu) (got : List ℕ) (label : Option (List ℕ)) (ppdu : List ℕ)
    → IsPacked total f got
    → IsLabel label
    → 0 < length ppdu
    → length ppdu < 2 ^ 32
    → Packs total f got label ppdu
unfolding pack pack_into does_not_fit
pack-Packs total f got label ppdu w valid pos small =
    let new = front f label ++ ppdu in
    let given : (length ppdu == 0) ≡ false = ground arith in
    let lens : length new ≡ length (front f label) + length ppdu =
      length-append {0} (front f label) ppdu in
    let test : does_not_fit f (length (label_bytes label)) (length ppdu)
        ≡ ltb f.remaining_size (length new) =
      does_not_fit_lem f label (length ppdu) (label_small label valid) small
      ∙ ap (λ n. ltb f.remaining_size n) (sym lens) in
    elim (Bool-cases (leb (length new) f.remaining_size)) [
      | inl fits ↦
          let le : length new ≤ f.remaining_size = ground arith in
          let (f1, e1, w1, r1) = put_label_lem total f got label w (omega arith) in
          let fits1 : length ppdu ≤ f1.remaining_size = omega arith in
          inl (
            le,
            behind f1 ppdu,
            rw
                (
                  given,
                  valid,
                  test,
                  ltb_of_le f.remaining_size (length new) le,
                  e1,
                  put_bytes_lem total f1 (got ++ front f label) ppdu w1 fits1,
                )
                refl,
            subst (IsPacked total (behind f1 ppdu)) (append_assoc got (front f label) ppdu)
                (behind-IsPacked total f1 (got ++ front f label) ppdu w1 fits1),
          )
      | inr big ↦ inr (
        ground arith,
        rw
            (
              given,
              valid,
              test,
              (let e : ltb f.remaining_size (length new) ≡ true = ground arith in e),
            )
            refl,
      )
    ]
