-- ===== src/Link/Exchange.antt =====
-- `rle_fragment` (src/fragmentation.c) and `rle_receiver_deencap_data` (src/rle_receiver.c) in turn:
-- each PPDU of a context is given to the receiver as an FPDU of its own.
use librle.Prelude.{
  ℕ, suc, ◌+◌, ◌-◌, ◌<◌, ◌≤◌, ◌≡◌, ◌≢◌, min, true, false, some, Option, List, [], ◌∷◌, length, drop,
  arith, refl, sym, subst, inl, inr, length-append, length-drop, if◌then◌else◌, leb, ltb,
  Bool-cases,
}
use librle.Constants.{Sdu}
use librle.Alpdu.Layout.{Layout}
use librle.Ppdu.Flow.{Flow, Sent, next_ppdu, next_unsent}
use librle.Receiver.{Receiver, Ret}
use librle.Reassembly.{deencap_data}
use librle.Transmitter.{Transmitter, fragment, frag_ok}
use librle.Transmitter.Sending.{IsSending}
use librle.Transmitter.Progress.{started-IsStep, some_left, short}
use librle.Link.Fresh.{layout-short}
use librle.Link.Step.{IsLinked}

-- From the `k`-th call on, context `i` of the transmitter is asked for PPDUs of at most `burst k`,
-- `burst (k + 1)`, … bytes, and the receiver returns the values of the list.
pub data Exchange (i : ℕ) (burst : ℕ → ℕ)
    : ℕ → Transmitter → Receiver → List Ret → Transmitter → Receiver → Type 0 where
  over : {k : ℕ} {t : Transmitter} {r : Receiver} → Exchange i burst k t r [] t r
  sent :
      {k : ℕ} {t u v : Transmitter} {r p q : Receiver} {ppdu : List ℕ} {ret : Ret} {rets : List Ret}
      {j : Option ℕ}
      → fragment t i (burst k)
        ≡ some (record { status = frag_ok; transmitter = u; ppdu = some ppdu })
      → deencap_data r ppdu (length ppdu) ≡ some (ret, j, p)
      → Exchange i burst (suc k) u p rets v q
      → Exchange i burst k t r (ret ∷ rets) v q

-- How much is still to be sent.
abbrev pub to_send : Flow → ℕ
to_send f = if f.started then length f.left else length f.left + length f.trailer

-- The flow has a PPDU, and less to send behind it.
abbrev pub GoesOn : Flow → Sent → Type 0
GoesOn f s =
    (ppdu : List ℕ) × (g : Flow) × (s ≡ some (ppdu, g)) × (g.left ≢ [] → to_send g < to_send f)

unsent_goes_on :
    (f : Flow) (cap : ℕ)
    → f.started ≡ false
    → 4 + f.hdr_len + 1 ≤ cap
    → GoesOn f (next_unsent f cap)
unfolding next_unsent
unsent_goes_on f cap st room = elim (Bool-cases (leb (length f.left + 2) cap)) [
  | inl whole ↦ rw whole (_, _, refl, λ some_left. absurd (some_left refl))
  | inr more ↦
      rw (more, (let e : ltb cap (4 + f.hdr_len + 1) ≡ false = ground arith in e), st)
        (
          _,
          _,
          refl,
          λ _. omega (
            arith,
            length-append (drop (cap - 4) f.left) f.trailer,
            length-drop (cap - 4) f.left,
            (let e : cap < length f.left + 2 = ground arith in e),
          ),
        )
]

unsent_next_eq :
    (f : Flow) (burst : ℕ) → f.started ≡ false → next_ppdu f burst ≡ next_unsent f (min burst 2049)
unfolding next_ppdu
unsent_next_eq f burst st = rw st refl

less :
    (f g : Flow)
    → f.started ≡ true
    → g.started ≡ true
    → length g.left < length f.left
    → to_send g < to_send f
less f g st st2 h = ground arith

started_goes_on :
    {t : Transmitter} {i : ℕ} (f : Flow) (burst : ℕ)
    → IsSending t i f
    → f.started ≡ true
    → 8 ≤ burst
    → GoesOn f (next_ppdu f burst)
started_goes_on f burst w st big =
    let (ppdu, g, e, step) =
      started-IsStep f burst st (omega arith) (w.flow.whole st) (short w.flow) (some_left w) in
    (ppdu, g, e, λ _. less f g st step.kept.0 step.less)

-- With at least 8 bytes of room there is always a next PPDU.
pub goes_on :
    {t : Transmitter} {r : Receiver} {s : Sdu} {l : Layout} (i : ℕ) (f : Flow) (burst : ℕ)
    → IsSending t i f
    → IsLinked r f s l
    → 8 ≤ burst
    → GoesOn f (next_ppdu f burst)
goes_on {r = r} {s} {l} i f burst w (inl (st, k)) big =
    subst (GoesOn f) (sym (unsent_next_eq f burst st)) (
      unsent_goes_on f (min burst 2049) st (
        omega
          (arith, k.fresh.hdr_len, layout-short r.conf s.protocol_type s.buffer l k.fresh.laid)))
goes_on i f burst w (inr (st, _, _)) big = started_goes_on f burst w st big
