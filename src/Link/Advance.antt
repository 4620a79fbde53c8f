-- ===== src/Link/Advance.antt =====
-- A PPDU that `rle_fragment` (src/fragmentation.c) makes while several SDUs are on their way, given
-- to the receiver (src/rle_receiver.c).
use librle.Prelude.{
  ℕ, ◌<◌, ◌≡◌, ◌≢◌, ◌⊎◌, ◌==◌, true, false, some, none, List, [], ◌∷◌, length, arith, refl, ap, ◌∙◌,
  sym, subst, inl, inr, set_at, eq_of_==, Bool-cases, Option-cases, length-append, length-take,
}
use librle.Constants.{Sdu}
use librle.Config.Laws as ConfigLaws
use librle.Config.{use_alpdu_crc}
use librle.Ctx.{is_free, RleCtx}
use librle.Header.Laws.{length-comp_bytes, length-start_bytes, length-cont_end_bytes}
use librle.Alpdu.Layout.{Layout}
use librle.Ppdu.Flow.{Flow, Sent, next_ppdu}
use librle.Receiver.{Receiver, c_ok, c_reassembly_ok}
use librle.Transmitter.{Transmitter, Fragment, fragment, frag_ok, frag_err_burst_too_small}
use librle.Transmitter.Sending.{IsSending, IsSentTo, Answers}
use librle.Transmitter.Sent.{set_at_same, set_at_other}
use librle.Transmitter.Fragments.{fragment-Answers}
use librle.Transmitter.Progress.{some_left}
use librle.Transmitter.Others.{fragment-ok}
use librle.Link.Fresh.{IsSendable}
use librle.Link.Receiving.{IsSameBut}
use librle.Link.Step.{IsLinked, Processes, Follows, Counts}
use librle.Link.Follow.{deencap_data-Follows, trailer_some}
use librle.Link.Cases.{next_ppdu-cases, next_ppdu-frag_id}
use librle.Link.Sync.{AreInSync, next_ppdu-last, synced}
use librle.Ppdu.Refine.{Numbers}
use librle.Link.Connected.{Pending, IsOnWay, IsConnected, IsOnWay-sent, IsOnWay-received}

-- Every PPDU is longer than a header of two bytes.
next_ppdu-long :
    (f : Flow) (burst : ℕ) (ppdu : List ℕ) (g : Flow)
    → 0 < length f.left
    → next_ppdu f burst ≡ some (ppdu, g)
    → 2 < length ppdu
next_ppdu-long f burst ppdu g pos h = elim (next_ppdu-cases f burst ppdu g h) [
  | inl (_, inl e) ↦ omega (arith, ap length e.bytes, length-append {0}, length-cont_end_bytes)
  | inl (_, inr e) ↦ omega (
    arith,
    ap length e.bytes,
    length-append {0},
    length-cont_end_bytes,
    length-take e.n f.left,
    e.pos,
    e.fits,
  )
  | inr (_, inl e) ↦ omega (arith, ap length e.bytes, length-append {0}, length-comp_bytes)
  | inr (_, inr e) ↦ omega (arith, ap length e.bytes, length-append {0}, length-start_bytes)
]

some_bytes : {a b : List ℕ} → some a ≡ some b → a ≡ b
some_bytes h = cc

nonempty : (xs : List ℕ) → xs ≢ [] → (length xs == 0) ≡ false
nonempty [] h = absurd (h refl)
nonempty (x ∷ xs) h = ground arith

-- What follows on a PPDU: the receiver accepts it, or it returns the SDU of the context, which is
-- then free.
abbrev pub Advances : Transmitter → Receiver → Pending → ℕ → List ℕ → List ℕ → Type 0
Advances u r p i ppdu rest =
    (v : Receiver) × (((is_free u.free_ctx i ≡ false)
        × Processes r ppdu rest c_ok v
        × IsConnected u v p)
      ⊎ ((is_free u.free_ctx i ≡ true)
          × (s : Sdu) × (p i ≡ some s)
          × Processes r ppdu rest (c_reassembly_ok s) v
          × IsConnected u v (set_at p i none)))

-- The parts of `IsConnected` that do not change, or change in all contexts but one.
connected :
    (t u : Transmitter) (r v : Receiver) (p q : Pending) (i : ℕ) (f g : Flow)
    → IsConnected t r p
    → i < 8
    → f.frag_id ≡ i
    → g.frag_id ≡ f.frag_id
    → IsSentTo t u i g
    → IsSameBut r v f.frag_id
    → IsOnWay u v i (q i)
    → ((j : ℕ) → (j == i) ≡ false → q j ≡ p j)
    → IsConnected u v q
connected t u r v p q i f g w hi id id_g to same here there =
    let same_i : IsSameBut r v i = subst (IsSameBut r v) id same in
    record {
      valid = subst ConfigLaws.IsValid (sym to.conf) w.valid;
      conf = same.conf ∙ w.conf ∙ sym to.conf;
      map_t = to.map;
      map_r = same.map;
      id = λ j hj. elim (Bool-cases (j == i)) [
        | inl e ↦
            subst (λ k. (u.rle_ctx_man k).frag_id ≡ k) (sym (eq_of_== j i e)) (to.id ∙ id_g ∙ id)
        | inr e ↦ ap (λ (x : RleCtx). x.frag_id) (to.others j e).0 ∙ w.id j hj
      ];
      each = λ j hj. elim (Bool-cases (j == i)) [
        | inl e ↦ subst (λ k. IsOnWay u v k (q k)) (sym (eq_of_== j i e)) here
        | inr e ↦ subst (IsOnWay u v j) (sym (there j e)) (
            IsOnWay-sent t u v j (p j)
              (record {
                conf = to.conf;
                map = to.map;
                free = to.others_free j hj e;
                ctx = (to.others j e).0;
                buf = (to.others j e).1;
              })
              (IsOnWay-received t r v i j (p j) hj same_i e (w.each j hj)))
      ];
    }

-- What the receiver makes of the PPDU of a context with the flow `f`.
advances :
    (t u : Transmitter) (r : Receiver) (p : Pending) (i : ℕ) (s : Sdu) (f g : Flow) (l : Layout)
    (ppdu rest : List ℕ)
    → IsConnected t r p
    → i < 8
    → p i ≡ some s
    → f.frag_id ≡ i
    → g.frag_id ≡ f.frag_id
    → IsSendable r.conf s
    → IsSentTo t u i g
    → ((v : Receiver) → g.left ≡ [] → Counts r v f → AreInSync u v i)
    → Follows r f s l ppdu rest g
    → Advances u r p i ppdu rest
advances t u r p i s f g l ppdu rest w hi carried id id_g ok to after
      (v, same, inl (more, taken, on)) =
    (
      v,
      inl (
        to.freed ∙ nonempty g.left more,
        taken,
        connected t u r v p p i f g w hi id id_g to same
            (subst (IsOnWay u v i) (sym carried)
              (g, l, id_g ∙ id, to.next more, on, subst (λ c. IsSendable c s) (sym same.conf) ok))
            (λ j e. refl),
      ),
    )
advances t u r p i s f g l ppdu rest w hi carried id id_g ok to after
      (v, same, inr (none_left, taken, free, counts)) =
    (
      v,
      inr (
        freed,
        s,
        carried,
        taken,
        connected t u r v p (set_at p i none) i f g w hi id id_g to same
            (subst (IsOnWay u v i) (sym (set_at_same p i none))
              (freed, subst (λ x. is_free v.free_ctx x ≡ true) id free, after v none_left counts))
            (λ j e. set_at_other p i none j e),
      ),
    )
  where
    freed : is_free u.free_ctx i ≡ true
    freed = to.freed ∙ ap (λ (b : List ℕ). length b == 0) none_left

some_answer : {a b : Fragment} → some a ≡ some b → a ≡ b
some_answer h = cc

-- By the answer of the flow.
by_answer :
    (t u : Transmitter) (r : Receiver) (p : Pending) (i burst : ℕ) (s : Sdu) (f : Flow) (l : Layout)
    (ppdu rest : List ℕ) (a : Sent)
    → IsConnected t r p
    → i < 8
    → p i ≡ some s
    → f.frag_id ≡ i
    → IsSendable r.conf s
    → IsLinked r f s l
    → IsSending t i f
    → next_ppdu f burst ≡ a
    → Answers t i a (fragment t i burst)
    → fragment t i burst ≡ some (record { status = frag_ok; transmitter = u; ppdu = some ppdu })
    → (2 < length ppdu) × Advances u r p i ppdu rest
by_answer t u r p i burst s f l ppdu rest none w hi carried id ok linked sending h (b, e) sent =
    absurd (
      let k : frag_err_burst_too_small ≡ frag_ok =
        ap (λ (x : Fragment). x.status) (some_answer (sym e ∙ sent)) in
      cc)
by_answer t u r p i burst s f l ppdu rest (some (made, g)) w hi carried id ok linked sending h
      (u2, e, to2) sent =
    let same = some_answer (sym e ∙ sent) in
    let same_ppdu : made ≡ ppdu = some_bytes (ap (λ (x : Fragment). x.ppdu) same) in
    let h2 : next_ppdu f burst ≡ some (ppdu, g) = h ∙ ap (λ x. some (x, g)) same_ppdu in
    let to : IsSentTo t u i g =
      subst (λ x. IsSentTo t x i g) (ap (λ (x : Fragment). x.transmitter) same) to2 in
    (
      next_ppdu-long f burst ppdu g (some_left sending) h2,
      advances t u r p i s f g l ppdu rest w hi carried id (next_ppdu-frag_id f burst ppdu g h2) ok
          to
          (λ v none_left counts.
            let (trailer, started) =
              next_ppdu-last f burst ppdu g (trailer_some f sending.flow.trailer_len) h2
                none_left in
            synced u r v i f g s l id (sending.flow.use_crc ∙ ap use_alpdu_crc (sym to.conf))
              (subst (λ c. Numbers c (u.rle_ctx_man i) g) (sym to.conf) to.seq) trailer started
              linked counts)
          (deencap_data-Follows r f s l rest burst ppdu g ok linked h2),
    )

-- While SDUs are on their way, the PPDU of any context that `rle_fragment` makes is accepted by
-- the receiver, or completes the SDU of the context, and then all the others are still on their
-- way.
pub fragment-Advances :
    (t u : Transmitter) (r : Receiver) (p : Pending) (i burst : ℕ) (ppdu rest : List ℕ)
    → IsConnected t r p
    → fragment t i burst ≡ some (record { status = frag_ok; transmitter = u; ppdu = some ppdu })
    → (2 < length ppdu) × Advances u r p i ppdu rest
fragment-Advances t u r p i burst ppdu rest w sent =
    let (hi, busy) = fragment-ok t u i burst (some ppdu) sent in
    elim (Option-cases (p i)) [
      | inl idle ↦ absurd (
          let (free, _, _) = subst (IsOnWay t r i) idle (w.each i hi) in
          let e : true ≡ false = sym free ∙ busy in cc)
      | inr (s, carried) ↦
          let (f, l, id, sending, linked, ok) = subst (IsOnWay t r i) carried (w.each i hi) in
          by_answer t u r p i burst s f l ppdu rest (next_ppdu f burst) w hi carried id ok linked
            sending refl (fragment-Answers t i burst f sending) sent
    ]
