-- ===== src/Transmitter/Progress.antt =====
-- How `rle_fragment` (src/fragmentation.c) gets on with an ALPDU that is started.
use librle.Prelude.{
  subst, ℕ, ◌+◌, ◌-◌, ◌≤◌, ◌<◌, ◌≡◌, ◌⊎◌, true, false, some, List, [], ◌++◌, length, take, drop,
  length-append, length-take, length-drop, arith, refl, ◌==◌, leb, Bool-cases, inl, inr, min,
}
use librle.Config.{Config}
use librle.Ctx.{RleCtx}
use librle.FragBuf.{FragBuf}
use librle.Ppdu.Refine.{IsFlow, length_left}
use librle.Header.{cont_end_bytes}
use librle.Header.Laws.{length-cont_end_bytes}
use librle.Ppdu.Put.{cont_hdr, end_hdr}
use librle.Ppdu.Flow.{Flow, next_ppdu, next_started}
use librle.Transmitter.{Transmitter, fragment}
use librle.Transmitter.Sending.{IsSending, Answers}
use librle.Transmitter.Fragments.{fragment-Answers}

-- A PPDU of the flow that fits the burst and gets on with the flow.
pub record IsStep (f : Flow) (burst : ℕ) (ppdu : List ℕ) (g : Flow) : Type 0 where
  pub fits : length ppdu ≤ min burst 2049
  pub less : length g.left < length f.left
  pub uncut : (g.left ≡ []) ⊎ (length f.trailer ≤ length g.left)
  pub kept : (g.started ≡ true) × (g.trailer ≡ f.trailer)

end-IsStep :
    (f : Flow) (burst : ℕ)
    → f.started ≡ true
    → 0 < length f.left
    → length f.left ≤ min burst 2049 - 2
    → IsStep f burst
        (cont_end_bytes (end_hdr f.frag_id (length f.left)) ++ f.left)
        (record f { left = [] })
end-IsStep f burst st more fits = record {
  fits = ground (
    arith,
    length-append (cont_end_bytes (end_hdr f.frag_id (length f.left))) f.left,
    length-cont_end_bytes (end_hdr f.frag_id (length f.left)),
  );
  less = more;
  uncut = inl refl;
  kept = (st, refl);
}

cont-IsStep :
    (f : Flow) (burst n : ℕ)
    → f.started ≡ true
    → 6 ≤ burst
    → 0 < n
    → n ≤ min burst 2049 - 2
    → n + length f.trailer ≤ length f.left
    → IsStep f burst
        (cont_end_bytes (cont_hdr f.frag_id n) ++ take n f.left)
        (record f { left = drop n f.left })
cont-IsStep f burst n st big pos fits whole = record {
  fits = ground (
    arith,
    length-append (cont_end_bytes (cont_hdr f.frag_id n)) (take n f.left),
    length-cont_end_bytes (cont_hdr f.frag_id n),
    length-take n f.left,
  );
  less = omega (arith, length-drop n f.left);
  uncut = inr (omega (arith, length-drop n f.left));
  kept = (st, refl);
}

-- The next PPDU of a started flow.
next_started_eq :
    (f : Flow) (burst : ℕ)
    → f.started ≡ true
    → 2 < burst
    → next_ppdu f burst ≡ next_started f (min burst 2049 - 2)
unfolding next_ppdu
next_started_eq f burst st big = ground arith

pub started-IsStep :
    (f : Flow) (burst : ℕ)
    → f.started ≡ true
    → 6 ≤ burst
    → length f.trailer ≤ length f.left
    → length f.trailer ≤ 4
    → 0 < length f.left
    → (ppdu : List ℕ) × (g : Flow) × (next_ppdu f burst ≡ some (ppdu, g)) × IsStep f burst ppdu g
unfolding next_started
started-IsStep f burst st big whole short more =
    rw (next_started_eq f burst st (omega arith))
      (elim (Bool-cases (leb (length f.left) (min burst 2049 - 2))) [
        | inl fits ↦ rw fits (_, _, refl, end-IsStep f burst st more (ground arith))
        | inr cut ↦
            rw (cut, (let e : (n == 0) ≡ false = ground arith in e))
              (_, _, refl, cont-IsStep f burst n st big (ground arith) (omega arith) (ground arith))
      ])
  where
    n : ℕ
    n = min (min burst 2049 - 2) (length f.left - length f.trailer)

pub short :
    {b : FragBuf} {conf : Config} {ctx : RleCtx} {f : Flow}
    → IsFlow b conf ctx f
    → length f.trailer ≤ 4
short v = ground (arith, v.trailer_len)

pub some_left : {t : Transmitter} {i : ℕ} {f : Flow} → IsSending t i f → 0 < length f.left
some_left w = omega (arith, length_left w.flow, w.valid.left)

-- With at least 6 bytes of room, `rle_fragment` always gets on with a started ALPDU: it returns OK
-- with a PPDU of at most `burst` and at most 2049 bytes, leaves less to send than before, and
-- leaves nothing at all or at least the whole trailer.
pub fragment-IsStep :
    (t : Transmitter) (i burst : ℕ) (f : Flow)
    → IsSending t i f
    → f.started ≡ true
    → 6 ≤ burst
    → (ppdu : List ℕ) × (g : Flow) × IsStep f burst ppdu g
      × Answers t i (some (ppdu, g)) (fragment t i burst)
fragment-IsStep t i burst f w st big =
    let (ppdu, g, e, step) =
      started-IsStep f burst st big (w.flow.whole st) (short w.flow) (some_left w) in
    (
      ppdu,
      g,
      step,
      subst (λ s. Answers t i s (fragment t i burst)) e (fragment-Answers t i burst f w),
    )
