-- ===== src/Pack/Calls.antt =====
-- An FPDU from its first byte to its last, filled by `rle_pack_init` and `rle_pack` and padded by
-- `rle_pad` (src/pack.c).
use librle.Prelude.{
  ℕ, ◌+◌, ◌≤◌, ◌<◌, ◌≡◌, ◌^◌, ◌==◌, Option, some, List, [], ◌∷◌, ◌++◌, length, arith, refl, ◌∙◌, ap,
  sym, subst, inl, inr, ◌⊎◌, replicate, append_assoc, append-nil, length-append, Bool-cases, true,
  false, concat, eq_of_==, length-replicate,
}
use librle.Prelude.Memory.{slice, store, slice-zero}
use librle.Pack.{
  PackStatus, pack_ok, pack_err_fpdu_too_small, Fpdu, pack, pack_init, invalid_label, put_bytes,
  pad, label_bytes,
}
use librle.Pack.Filled.{
  IsPacked, IsLabel, front, behind, behind-IsPacked, put_bytes_lem, pack-Packs,
}

-- Calls of `rle_pack` for the PPDUs of the list, with the label each time, which all return OK.
pub data Calls (label : Option (List ℕ)) : Fpdu → List (List ℕ) → Fpdu → Type 0 where
  no_more : {f : Fpdu} → Calls label f [] f
  call :
      {f g h : Fpdu} {ppdu : List ℕ} {ppdus : List (List ℕ)}
      → length ppdu < 2 ^ 32
      → pack (some ppdu) (length ppdu) label (length (label_bytes label)) (some f)
        ≡ some (pack_ok, some g)
      → Calls label g ppdus h
      → Calls label f (ppdu ∷ ppdus) h

-- The same, for one PPDU or more, or behind a call of `rle_pack_init`.
pub data Packing (label : Option (List ℕ)) : Fpdu → List (List ℕ) → Fpdu → Type 0 where
  by_pack :
      {f h : Fpdu} {ppdu : List ℕ} {ppdus : List (List ℕ)}
      → Calls label f (ppdu ∷ ppdus) h
      → Packing label f (ppdu ∷ ppdus) h
  by_init :
      {f g h : Fpdu} {ppdus : List (List ℕ)}
      → pack_init label (length (label_bytes label)) (some f) ≡ some (pack_ok, some g)
      → Calls label g ppdus h
      → Packing label f ppdus h

-- What `rle_pack` takes, it was given.
pack-ok :
    (f g : Fpdu) (label : Option (List ℕ)) (ppdu : List ℕ) (size : ℕ)
    → pack (some ppdu) (length ppdu) label size (some f) ≡ some (pack_ok, some g)
    → (0 < length ppdu) × (invalid_label label size ≡ false)
unfolding pack
pack-ok f g label ppdu size h = ground arith

abbrev Answer : Type 0
Answer = Option (PackStatus × Option Fpdu)

some_fpdu :
    {f g : Fpdu} → ◌≡◌ {A = Answer} (some (pack_ok, some f)) (some (pack_ok, some g)) → f ≡ g
some_fpdu {f} {g} h =
    let e : ◌≡◌ {A = PackStatus × Option Fpdu} (pack_ok, some f) (pack_ok, some g) = cc in
    let k : some f ≡ some g = ap (λ (x : PackStatus × Option Fpdu). x.1) e in cc

refused_not_ok :
    {f g : Fpdu}
    → ◌≡◌ {A = Answer} (some (pack_err_fpdu_too_small, some f)) (some (pack_ok, some g))
    → ⊥
refused_not_ok {f} {g} h =
    let e : ◌≡◌ {A = PackStatus × Option Fpdu} (pack_err_fpdu_too_small, some f) (pack_ok, some g) =
      cc in
    let k : pack_err_fpdu_too_small ≡ pack_ok = ap (λ (x : PackStatus × Option Fpdu). x.0) e in cc

pack-IsPacked :
    (total : ℕ) (f g : Fpdu) (got : List ℕ) (label : Option (List ℕ)) (ppdu : List ℕ)
    → IsPacked total f got
    → length ppdu < 2 ^ 32
    → pack (some ppdu) (length ppdu) label (length (label_bytes label)) (some f)
      ≡ some (pack_ok, some g)
    → IsPacked total g (got ++ (front f label ++ ppdu)) × (0 < g.current_pos)
pack-IsPacked total f g got label ppdu w small e =
    let (pos, valid) = pack-ok f g label ppdu (length (label_bytes label)) e in
    elim (pack-Packs total f got label ppdu w valid pos small) [
      | inl (fits, g2, e2, w2) ↦
          subst (λ x. IsPacked total x (got ++ (front f label ++ ppdu)) × (0 < x.current_pos))
            (some_fpdu (sym e2 ∙ e))
            (
              w2,
              omega (
                arith,
                w2.used,
                length-append {0} got (front f label ++ ppdu),
                length-append {0} (front f label) ppdu,
              ),
            )
      | inr (_, e2) ↦ absurd (
          let k : some (pack_err_fpdu_too_small, some f) ≡ some (pack_ok, some g) = sym e2 ∙ e in
          cc)
    ]

-- No more label is put in front.
abbrev HasLabel : Fpdu → Option (List ℕ) → Type 0
HasLabel f label = (0 < f.current_pos) ⊎ (label_bytes label ≡ [])

front-empty : (f : Fpdu) (label : Option (List ℕ)) → HasLabel f label → front f label ≡ []
front-empty f label (inl used) = rw (let e : (f.current_pos == 0) ≡ false = ground arith in e) refl
front-empty f label (inr empty) = elim (Bool-cases (f.current_pos == 0)) [
  | inl e ↦ rw e empty
  | inr e ↦ rw e refl
]

Calls-IsPacked :
    (total : ℕ) (label : Option (List ℕ)) {f h : Fpdu} {ppdus : List (List ℕ)} (got : List ℕ)
    → Calls label f ppdus h
    → HasLabel f label
    → IsPacked total f got
    → IsPacked total h (got ++ concat ppdus)
Calls-IsPacked total label {f} got no_more there w =
    subst (IsPacked total f) (sym (append-nil got)) w
Calls-IsPacked total label {f} {h} got (call {g = g} {ppdu = ppdu} {ppdus = ppdus} small e rest)
      there w =
    let (w2, used) = pack-IsPacked total f g got label ppdu w small e in
    subst (IsPacked total h) (append_assoc got ppdu (concat ppdus)) (
      Calls-IsPacked total label (got ++ ppdu) rest (inl used)
        (subst (IsPacked total g) (ap (λ xs. got ++ (xs ++ ppdu)) (front-empty f label there)) w2))

start-IsPacked :
    (total : ℕ) (f : Fpdu)
    → f.current_pos ≡ 0
    → f.remaining_size ≡ total
    → total < 2 ^ 32
    → IsPacked total f []
start-IsPacked total f e r small = record {
  bytes = ap (slice f.bytes 0) e ∙ slice-zero f.bytes 0;
  used = e;
  room = omega arith;
  small = small;
}

some_eq : {f g : Fpdu} → some f ≡ some g → f ≡ g
some_eq h = cc

has_label :
    (f : Fpdu) (l : List ℕ) (label : Option (List ℕ))
    → label_bytes label ≡ l
    → HasLabel (behind f l) label
has_label f [] label e = inr e
has_label f (x ∷ l) label e = inl (omega arith)

front-start :
    (f : Fpdu) (label : Option (List ℕ)) → f.current_pos ≡ 0 → front f label ≡ label_bytes label
front-start f label e = rw (let k : (f.current_pos == 0) ≡ true = ground arith in k) refl

pad_bytes : (h : Fpdu) → (pad h).bytes ≡ store h.bytes h.current_pos (replicate h.remaining_size 0)
unfolding pad store
pad_bytes h = elim (Bool-cases (h.remaining_size == 0)) [
  | inl full ↦ rw full (
      sym
        (ap (λ n. store h.bytes h.current_pos (replicate n 0)) (eq_of_== h.remaining_size 0 full)))
  | inr more ↦ rw more refl
]

padded :
    (total : ℕ) (h : Fpdu) (got : List ℕ)
    → IsPacked total h got
    → slice (pad h).bytes 0 total ≡ got ++ replicate h.remaining_size 0
padded total h got w =
    let xs = replicate h.remaining_size 0 in
    let len : length xs ≡ h.remaining_size = length-replicate h.remaining_size 0 in
    let filled : IsPacked total (behind h xs) (got ++ xs) =
      behind-IsPacked total h got xs w (omega arith) in
    ap (λ m. slice m 0 total) (pad_bytes h)
    ∙ ap (slice (store h.bytes h.current_pos xs) 0)
        (let e : total ≡ h.current_pos + length xs = omega (arith, w.room) in e)
    ∙ filled.bytes

pack_init-ok :
    (f g : Fpdu) (label : Option (List ℕ)) (size : ℕ)
    → pack_init label size (some f) ≡ some (pack_ok, some g)
    → (size ≤ f.remaining_size) × (put_bytes f (label_bytes label) size ≡ some g)
unfolding pack_init
pack_init-ok f g label size h = ground arith

-- `rle_pack_init` puts the label into an empty FPDU.
pack_init-IsPacked :
    (total : ℕ) (f g : Fpdu) (label : Option (List ℕ))
    → IsPacked total f []
    → pack_init label (length (label_bytes label)) (some f) ≡ some (pack_ok, some g)
    → IsPacked total g (label_bytes label) × HasLabel g label
pack_init-IsPacked total f g label w e =
    let l = label_bytes label in
    let (fits, put) = pack_init-ok f g label (length l) e in
    let same : behind f l ≡ g = some_eq (sym (put_bytes_lem total f [] l w fits) ∙ put) in
    subst (λ x. IsPacked total x l × HasLabel x label) same
      (behind-IsPacked total f [] l w fits, has_label f l label refl)

-- In an empty FPDU of `total` bytes the calls put the label and the PPDUs, and nothing else.
Packing-IsPacked :
    (total : ℕ) (label : Option (List ℕ)) {f h : Fpdu} {ppdus : List (List ℕ)}
    → IsPacked total f []
    → Packing label f ppdus h
    → IsPacked total h (label_bytes label ++ concat ppdus)
Packing-IsPacked total label {f} {h} w
      (by_pack {ppdu = ppdu} {ppdus = ppdus} (call {g = g} small e rest)) =
    let (w2, used) = pack-IsPacked total f g [] label ppdu w small e in
    subst (IsPacked total h) (append_assoc (label_bytes label) ppdu (concat ppdus)) (
      Calls-IsPacked total label (label_bytes label ++ ppdu) rest (inl used)
        (subst (IsPacked total g) (ap (λ xs. xs ++ ppdu) (front-start f label (w.used))) w2))
Packing-IsPacked total label {f} w (by_init {g = g} e rest) =
    let (w2, there) = pack_init-IsPacked total f g label w e in
    Calls-IsPacked total label (label_bytes label) rest there w2

-- An empty FPDU of `total` bytes that `rle_pack_init` and `rle_pack`, or `rle_pack` alone, have
-- filled and that `rle_pad` has padded consists of the label, the PPDUs one after another, and
-- zeros.
pub pad-Packing :
    (total : ℕ) (label : Option (List ℕ)) (f h : Fpdu) (ppdus : List (List ℕ))
    → f.current_pos ≡ 0
    → f.remaining_size ≡ total
    → total < 2 ^ 32
    → Packing label f ppdus h
    → slice (pad h).bytes 0 total
      ≡ label_bytes label ++ (concat ppdus ++ replicate h.remaining_size 0)
pad-Packing total label f h ppdus empty size small packing =
    padded total h (label_bytes label ++ concat ppdus)
      (Packing-IsPacked total label (start-IsPacked total f empty size small) packing)
    ∙ append_assoc (label_bytes label) (concat ppdus) (replicate h.remaining_size 0)

pack_init-label :
    (f g : Fpdu) (label : Option (List ℕ)) (size : ℕ)
    → pack_init label size (some f) ≡ some (pack_ok, some g)
    → invalid_label label size ≡ false
unfolding pack_init
pack_init-label f g label size h = ground arith

-- The label was one that `rle_pack` takes.
pub Packing-IsLabel :
    {label : Option (List ℕ)} {f h : Fpdu} {ppdus : List (List ℕ)}
    → Packing label f ppdus h
    → IsLabel label
Packing-IsLabel {label} {f} (by_pack {ppdu = ppdu} (call {g = g} small e rest)) =
    (pack-ok f g label ppdu (length (label_bytes label)) e).1
Packing-IsLabel {label} {f} (by_init {g = g} e rest) =
    pack_init-label f g label (length (label_bytes label)) e
