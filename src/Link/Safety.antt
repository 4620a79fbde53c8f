-- ===== src/Link/Safety.antt =====
-- Whatever the bursts are, the receiver never reports an error for an SDU that is fragmented, and
-- never hands out another SDU.
use librle.Prelude.{
  bit_and, ◌-◌, ◌^◌, ◌%◌, ℕ, suc, ◌<◌, ◌≡◌, ◌⊎◌, ◌==◌, true, false, some, Option, List, [], ◌∷◌,
  ◌++◌, length, arith, refl, ap, ◌∙◌, sym, subst, inl, inr, replicate, append-nil, Option-cases,
  leb,
}
use librle.Constants.{Sdu}
use mathlib.Core.Path.{ap₂}
use librle.Ctx.{is_free, set_free}
use librle.Alpdu.Layout.{Layout}
use librle.Ppdu.Flow.{Flow, next_ppdu}
use librle.Receiver.{Receiver, Ret, c_ok, c_reassembly_ok}
use librle.Reassembly.{deencap_data}
use librle.Transmitter.{
  Transmitter, Fragment, fragment, free_context, FragStatus, frag_ok, frag_err_burst_too_small,
  frag_err_context_is_null,
}
use librle.Transmitter.Sending.{IsSending, Answers, IsSentTo}
use librle.Transmitter.Fragments.{fragment-Answers}
use librle.Link.Fresh.{IsSendable}
use librle.Link.Step.{IsLinked, Processes}
use librle.Link.Follow.{deencap_data-Follows}
use librle.Link.Exchange.{Exchange, over, sent}

-- What the receiver returned, and where both ends are: still at it, or done.
abbrev pub SoFar : ℕ → Sdu → Layout → List Ret → Transmitter → Receiver → Type 0
SoFar i s l rets u v =
    (n : ℕ) × (((rets ≡ replicate n c_ok) × (g : Flow) × IsSending u i g × IsLinked v g s l)
      ⊎ ((rets ≡ replicate n c_ok ++ (c_reassembly_ok s ∷ [])) × (is_free u.free_ctx i ≡ true)))

frag_ok_elim :
    (m : Option Fragment) (u : Transmitter) (p : Option (List ℕ)) (st : FragStatus)
    (v : Transmitter) (q : Option (List ℕ))
    → m ≡ some (record { status = frag_ok; transmitter = u; ppdu = p })
    → m ≡ some (record { status = st; transmitter = v; ppdu = q })
    → (st ≡ frag_ok) × (v ≡ u) × (q ≡ p)
frag_ok_elim m u p st v q h k =
    let e : record { status = frag_ok; transmitter = u; ppdu = p }
        ≡ record { status = st; transmitter = v; ppdu = q } =
      cc in
    (
      sym (ap (λ (f : Fragment). f.status) e),
      sym (ap (λ (f : Fragment). f.transmitter) e),
      sym (ap (λ (f : Fragment). f.ppdu) e),
    )

-- A context that is free has no PPDU.
idle :
    (t : Transmitter) (i b : ℕ)
    → i < 8
    → is_free t.free_ctx i ≡ true
    → (u : Transmitter) × (fragment t i b
        ≡ some (record { status = frag_err_context_is_null; transmitter = u; ppdu = some [] }))
unfolding fragment free_context set_free
idle t i b hi free = (
  record t { free_ctx = bit_and t.free_ctx (2 ^ 32 - 1 - 2 ^ i) % 256 },
  rw
      (
        (let e : leb 8 i ≡ false = ground arith in e),
        free,
        (let e : leb i 7 ≡ true = ground arith in e),
      )
      refl,
)

no_more :
    {burst : ℕ → ℕ} {k : ℕ} {t u : Transmitter} {r v : Receiver} {rets : List Ret} (i : ℕ)
    → i < 8
    → is_free t.free_ctx i ≡ true
    → Exchange i burst k t r rets u v
    → (rets ≡ []) × (u ≡ t)
no_more i hi free over = (refl, refl)
no_more {burst} {k} {t} i hi free (sent {u = u} {ppdu = ppdu} e d rest) =
    let (w, null) = idle t i (burst k) hi free in
    let (same, _, _) = frag_ok_elim _ u (some ppdu) frag_err_context_is_null w (some []) e null in
    absurd (let e : frag_err_context_is_null ≡ frag_ok = same in cc)

some_eq : {x y : List ℕ} → some x ≡ some y → x ≡ y
some_eq h = cc

some_triple : {x y : Ret × Option ℕ × Receiver} → some x ≡ some y → x ≡ y
some_triple h = cc

-- The receiver returns one thing.
one_result :
    (r : Receiver) (ppdu : List ℕ) (a b : Ret) {i : Option ℕ} (p q : Receiver)
    → deencap_data r ppdu (length ppdu) ≡ some (a, i, p)
    → Processes r ppdu [] b q
    → (a ≡ b) × (q ≡ p)
one_result r ppdu a b {i} p q d (_, j, e) =
    let same : ◌≡◌ {A = Ret × Option ℕ × Receiver} (a, i, p) (b, j, q) =
      some_triple
        (sym d ∙ (ap (λ x. deencap_data r x (length ppdu)) (sym (append-nil ppdu)) ∙ e)) in
    (
      ap (λ (x : Ret × Option ℕ × Receiver). x.0) same,
      sym (ap (λ (x : Ret × Option ℕ × Receiver). x.2) same),
    )

-- A PPDU that is sent is the next one of the flow.
sent_next :
    (t u : Transmitter) (i b : ℕ) (f : Flow) (ppdu : List ℕ)
    → IsSending t i f
    → fragment t i b ≡ some (record { status = frag_ok; transmitter = u; ppdu = some ppdu })
    → (g : Flow) × (next_ppdu f b ≡ some (ppdu, g)) × IsSentTo t u i g
sent_next t u i b f ppdu w e = elim (Option-cases (next_ppdu f b)) [
  | inl nothing ↦
      let (c, small) =
        subst (λ a. Answers t i a (fragment t i b)) nothing (fragment-Answers t i b f w) in
      let (same, _, _) =
        frag_ok_elim _ u (some ppdu) frag_err_burst_too_small _ (some []) e small in
      absurd (let k : frag_err_burst_too_small ≡ frag_ok = same in cc)
  | inr ((p, g), next) ↦
      let (v, made, to) =
        subst (λ a. Answers t i a (fragment t i b)) next (fragment-Answers t i b f w) in
      let (_, same_t, same_p) = frag_ok_elim _ u (some ppdu) frag_ok v (some p) e made in
      (g, next ∙ ap (λ x. some (x, g)) (some_eq same_p), subst (λ x. IsSentTo t x i g) same_t to)
]

one_more_ok :
    (i : ℕ) (s : Sdu) (l : Layout) (u : Transmitter) (v : Receiver) (ret : Ret) {rets : List Ret}
    → ret ≡ c_ok
    → SoFar i s l rets u v
    → SoFar i s l (ret ∷ rets) u v
one_more_ok i s l u v ret e (n, inl (same, g, st, on)) = (suc n, inl (ap₂ ◌∷◌ e same, g, st, on))
one_more_ok i s l u v ret e (n, inr (same, free)) = (suc n, inr (ap₂ ◌∷◌ e same, free))

-- In an exchange in which the receiver is where the flow of an SDU that it can restore is, whatever
-- the bursts are and however long it goes on, the receiver accepts each PPDU: it has returned no SDU
-- yet and is still where the flow is, or it has returned exactly the SDU, once, with the last PPDU,
-- and the context of the transmitter is free.
pub Exchange-SoFar :
    (i : ℕ) (burst : ℕ → ℕ) {k : ℕ} {t u : Transmitter} {r v : Receiver} {rets : List Ret}
    (f : Flow) (s : Sdu) (l : Layout)
    → IsSending t i f
    → IsSendable r.conf s
    → IsLinked r f s l
    → Exchange i burst k t r rets u v
    → SoFar i s l rets u v
Exchange-SoFar i burst f s l w ok linked over = (0, inl (refl, f, w, linked))
Exchange-SoFar i burst {k} {t} {u} {r} {v} f s l w ok linked
      (sent {u = t2} {p = p} {ppdu} {ret} {rets} e d rest) =
    let (g, next, to) = sent_next t t2 i (burst k) f ppdu w e in
    let (q, same, follows) = deencap_data-Follows r f s l [] (burst k) ppdu g ok linked next in
    elim follows [
      | inl (more, taken, on) ↦
          let (same_ret, same_q) = one_result r ppdu ret c_ok p q d taken in
          let far =
            Exchange-SoFar i burst g s l (to.next more)
              (subst (λ c. IsSendable c s) (sym same.conf ∙ ap (λ (x : Receiver). x.conf) same_q)
                ok)
              (subst (λ x. IsLinked x g s l) same_q on) rest in
          one_more_ok i s l u v ret same_ret far
      | inr (none_left, taken, free, _) ↦
          let (same_ret, same_q) = one_result r ppdu ret (c_reassembly_ok s) p q d taken in
          let gone = to.freed ∙ ap (λ b. length b == 0) none_left in
          let (no_rets, same_t) = no_more i w.index gone rest in
          (
            0,
            inr (
              ap₂ ◌∷◌ same_ret no_rets,
              ap (λ (x : Transmitter). is_free x.free_ctx i) same_t ∙ gone,
            ),
          )
    ]
