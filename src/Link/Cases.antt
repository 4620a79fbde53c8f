-- ===== src/Link/Cases.antt =====
-- Which PPDU a flow goes on with.
use librle.Prelude.{
  ℕ, ◌+◌, ◌-◌, ◌<◌, ◌≤◌, ◌≡◌, ◌⊎◌, ◌==◌, min, true, false, some, none, List, [], ◌++◌, length, take,
  drop, arith, refl, ap, ◌∙◌, sym, inl, inr, leb, ltb, Bool-cases,
}
use librle.Header.{comp_bytes, cont_end_bytes, start_bytes}
use librle.Ppdu.Put.{cont_hdr, end_hdr, comp_hdr, start_hdr}
use librle.Ppdu.Flow.{Flow, next_ppdu, next_started, next_unsent}
use librle.Link.Start.{begun_flow}

-- An END PPDU with all that is left, of at most `max` bytes.
pub record IsEnd (f : Flow) (max : ℕ) (ppdu : List ℕ) (g : Flow) : Type 0 where
  pub fits : length f.left ≤ max
  pub bytes : ppdu ≡ cont_end_bytes (end_hdr f.frag_id (length f.left)) ++ f.left
  pub next : g ≡ record f { left = [] }

-- A CONT PPDU.
pub record IsCont (f : Flow) (max : ℕ) (ppdu : List ℕ) (g : Flow) : Type 0 where
  pub n : ℕ
  pub pos : 0 < n
  pub short : n ≤ max
  pub more : max < length f.left
  pub fits : n + length f.trailer ≤ length f.left
  pub bytes : ppdu ≡ cont_end_bytes (cont_hdr f.frag_id n) ++ take n f.left
  pub next : g ≡ record f { left = drop n f.left }

-- A COMPLETE PPDU.
pub record IsComp (f : Flow) (cap : ℕ) (ppdu : List ℕ) (g : Flow) : Type 0 where
  pub fits : length f.left + 2 ≤ cap
  pub bytes : ppdu ≡ comp_bytes (comp_hdr f.label_type (f.hdr_len == 0) (length f.left)) ++ f.left
  pub next : g ≡ record f { left = [] }

-- A START PPDU with `n` bytes of the ALPDU.
pub record IsStart (f : Flow) (cap : ℕ) (ppdu : List ℕ) (g : Flow) : Type 0 where
  pub n : ℕ
  pub size : n + 4 ≡ cap
  pub header : f.hdr_len < n
  pub more : n + 2 < length f.left
  pub bytes :
      ppdu
      ≡ start_bytes (
          start_hdr f.frag_id f.label_type
            (f.hdr_len == 0)
            f.use_crc
            (length f.left + length f.trailer)
            (n + 2))
        ++ take n f.left
  pub next : g ≡ begun_flow f n

some_pair : {p q : List ℕ × Flow} → some p ≡ some q → (q.0 ≡ p.0) × (q.1 ≡ p.1)
some_pair {p} {q} h =
    let e : p ≡ q = cc in
    (sym (ap (λ (x : List ℕ × Flow). x.0) e), sym (ap (λ (x : List ℕ × Flow). x.1) e))

next_started-cases :
    (f : Flow) (max : ℕ) (ppdu : List ℕ) (g : Flow)
    → next_started f max ≡ some (ppdu, g)
    → IsEnd f max ppdu g ⊎ IsCont f max ppdu g
unfolding next_started
next_started-cases f max ppdu g h = elim (Bool-cases (leb (length f.left) max)) [
  | inl last ↦
      let (bytes, next) = some_pair (rw last at h) in
      inl (record { fits = ground arith; bytes = bytes; next = next })
  | inr more ↦ elim (Bool-cases (min max (length f.left - length f.trailer) == 0)) [
    | inl nothing ↦ absurd (let e : none ≡ some (ppdu, g) = rw (more, nothing) at h in cc)
    | inr some_bytes ↦
        let (bytes, next) = some_pair (rw (more, some_bytes) at h) in
        inr (record {
          n = min max (length f.left - length f.trailer);
          pos = ground arith;
          short = omega arith;
          more = ground arith;
          fits = ground arith;
          bytes = bytes;
          next = next;
        })
  ]
]

next_unsent-cases :
    (f : Flow) (cap : ℕ) (ppdu : List ℕ) (g : Flow)
    → next_unsent f cap ≡ some (ppdu, g)
    → IsComp f cap ppdu g ⊎ IsStart f cap ppdu g
unfolding next_unsent
next_unsent-cases f cap ppdu g h = elim (Bool-cases (leb (length f.left + 2) cap)) [
  | inl whole ↦
      let (bytes, next) = some_pair (rw whole at h) in
      inl (record { fits = ground arith; bytes = bytes; next = next })
  | inr more ↦ elim (Bool-cases (ltb cap (4 + f.hdr_len + 1))) [
    | inl small ↦ absurd (let e : none ≡ some (ppdu, g) = rw (more, small) at h in cc)
    | inr room ↦
        let (bytes, next) = some_pair (rw (more, room) at h) in
        inr (record {
          n = cap - 4;
          size = ground arith;
          header = ground arith;
          more = ground arith;
          bytes = bytes;
          next = next;
        })
  ]
]

started_next :
    (f : Flow) (burst : ℕ) (p : List ℕ × Flow)
    → f.started ≡ true
    → next_ppdu f burst ≡ some p
    → next_started f (min burst 2049 - 2) ≡ some p
unfolding next_ppdu
started_next f burst p st h = elim (Bool-cases (leb burst 2)) [
  | inl small ↦ absurd (
      let e : next_ppdu f burst ≡ none = rw (st, small) refl in
      let e : none ≡ some p = sym e ∙ h in cc)
  | inr big ↦
      let e : next_ppdu f burst ≡ next_started f (min burst 2049 - 2) = rw (st, big) refl in
      sym e ∙ h
]

unsent_next :
    (f : Flow) (burst : ℕ) (p : List ℕ × Flow)
    → f.started ≡ false
    → next_ppdu f burst ≡ some p
    → next_unsent f (min burst 2049) ≡ some p
unfolding next_ppdu
unsent_next f burst p st h =
    let e : next_ppdu f burst ≡ next_unsent f (min burst 2049) = rw st refl in sym e ∙ h

-- The four kinds of PPDU, by what the flow has done.
pub next_ppdu-cases :
    (f : Flow) (burst : ℕ) (ppdu : List ℕ) (g : Flow)
    → next_ppdu f burst ≡ some (ppdu, g)
    → ((f.started ≡ true)
        × (IsEnd f (min burst 2049 - 2) ppdu g ⊎ IsCont f (min burst 2049 - 2) ppdu g))
      ⊎ ((f.started ≡ false)
          × (IsComp f (min burst 2049) ppdu g ⊎ IsStart f (min burst 2049) ppdu g))
next_ppdu-cases f burst ppdu g h = elim (Bool-cases f.started) [
  | inl st ↦
      inl
        (st, next_started-cases f (min burst 2049 - 2) ppdu g (started_next f burst (ppdu, g) st h))
  | inr st ↦
      inr (st, next_unsent-cases f (min burst 2049) ppdu g (unsent_next f burst (ppdu, g) st h))
]

-- A flow stays in its context.
pub next_ppdu-frag_id :
    (f : Flow) (burst : ℕ) (ppdu : List ℕ) (g : Flow)
    → next_ppdu f burst ≡ some (ppdu, g)
    → g.frag_id ≡ f.frag_id
next_ppdu-frag_id f burst ppdu g h = elim (next_ppdu-cases f burst ppdu g h) [
  | inl (_, inl e) ↦ ap (λ (x : Flow). x.frag_id) e.next
  | inl (_, inr e) ↦ ap (λ (x : Flow). x.frag_id) e.next
  | inr (_, inl e) ↦ ap (λ (x : Flow). x.frag_id) e.next
  | inr (_, inr e) ↦ ap (λ (x : Flow). x.frag_id) e.next
]
