-- ===== src/Link/Fpdus.antt =====
-- FPDUs that the transmitter fills with the PPDUs of several contexts (src/encap.c,
-- src/fragmentation.c), and what `rle_decapsulate` (src/deencap.c) makes of them.
use librle.Prelude.{
  ℕ, zero, suc, Option, ◌<◌, ◌≡◌, ◌==◌, true, false, some, none, List, [], ◌∷◌, ◌++◌, length, drop,
  arith, refl, ap, ◌∙◌, sym, subst, inl, inr, set_at, ltb, replicate, concat, append_assoc,
  append-nil, take-append_length, take, not, ◌⊎◌, drop-append_length, length-append, ltb_of_le,
}
use librle.Constants.{Sdu}
use librle.Ctx.{is_free}
use librle.Receiver.{Receiver, Ret, c_ok, c_reassembly_ok}
use librle.Decap.{finished, after_ppdu, parse, DecapArgs, decap_fpdu, rle_decapsulate}
use librle.Transmitter.{Transmitter, fragment, frag_ok, encapsulate, encap_ok}
use librle.Link.Fresh.{IsSendable}
use librle.Link.Step.{Processes}
use librle.Link.Connected.{Pending, IsConnected, encapsulate-IsConnected}
use librle.Link.Advance.{fragment-Advances}
use librle.Link.Rounds.{going, some_sdu, round_ppdu, padded, parse-next, parse-stop}

-- What the transmitter does while an FPDU is filled: it takes SDUs that a receiver can restore, and
-- makes PPDUs, those of the list, of any contexts and sizes. The SDUs of the second list are those
-- of which the last PPDU is made. Of the `max` SDUs that the caller of `rle_decapsulate` has room
-- for, `n` are there before.
pub data Fills (max : ℕ)
    : ℕ → Transmitter → Pending → List (List ℕ) → List Sdu → Transmitter → Pending → Type 0 where
  over : {n : ℕ} {t : Transmitter} {p : Pending} → Fills max n t p [] [] t p
  taken :
      {n : ℕ} {t u v : Transmitter} {p q : Pending} {ppdus : List (List ℕ)} {sdus : List Sdu}
      (i : ℕ) {s : Sdu}
      → IsSendable t.conf s
      → encapsulate t s i ≡ some (encap_ok, u)
      → Fills max n u (set_at p i (some s)) ppdus sdus v q
      → Fills max n t p ppdus sdus v q
  made :
      {n : ℕ} {t u v : Transmitter} {p q : Pending} {ppdu : List ℕ} {ppdus : List (List ℕ)}
      {sdus : List Sdu} (i burst : ℕ)
      → n < max
      → fragment t i burst ≡ some (record { status = frag_ok; transmitter = u; ppdu = some ppdu })
      → is_free u.free_ctx i ≡ false
      → Fills max n u p ppdus sdus v q
      → Fills max n t p (ppdu ∷ ppdus) sdus v q
  completed :
      {n : ℕ} {t u v : Transmitter} {p q : Pending} {ppdu : List ℕ} {ppdus : List (List ℕ)}
      {sdus : List Sdu} (i burst : ℕ) {s : Sdu}
      → n < max
      → fragment t i burst ≡ some (record { status = frag_ok; transmitter = u; ppdu = some ppdu })
      → is_free u.free_ctx i ≡ true
      → p i ≡ some s
      → Fills max (suc n) u (set_at p i none) ppdus sdus v q
      → Fills max n t p (ppdu ∷ ppdus) (s ∷ sdus) v q

-- What the loop comes to, and what is on its way then.
abbrev Decapsulates :
    ℕ → ℕ → List ℕ → Receiver → List Sdu → List Sdu → Transmitter → Pending → Type 0
Decapsulates fuel max fpdu r got sdus v q =
    (w : Receiver) × (parse fuel max fpdu (going r got) ≡ finished (going w (got ++ sdus)))
    × IsConnected v w q

-- A PPDU and then the rest.
Decapsulates-step :
    (fuel max : ℕ) (r u : Receiver) (ppdu rest : List ℕ) (ret : Ret) (got more sdus all : List Sdu)
    (v : Transmitter) (q : Pending)
    → 2 < length ppdu
    → length got < max
    → Processes r ppdu rest ret u
    → ((i : Option ℕ) → after_ppdu (going r got) ret i u ≡ some (going u more))
    → more ++ sdus ≡ got ++ all
    → Decapsulates fuel max rest u more sdus v q
    → Decapsulates (suc fuel) max (ppdu ++ rest) r got all v q
Decapsulates-step fuel max r u ppdu rest ret got more sdus all v q long room done after same
      (w, e, linked) =
    (
      w,
      parse-next fuel max (ppdu ++ rest) (going r got) (going u more) (length ppdu)
            (round_ppdu max r u ppdu rest ret got more long room done after)
          ∙ ap (λ xs. parse fuel max xs (going u more)) (drop-append_length ppdu rest)
          ∙ e
          ∙ ap (λ xs. finished (going w xs)) same,
      linked,
    )

decapsulates :
    (max k : ℕ) (fuel n : ℕ) (t v : Transmitter) (r : Receiver) (p q : Pending)
    (ppdus : List (List ℕ)) (got sdus : List Sdu)
    → IsConnected t r p
    → Fills max n t p ppdus sdus v q
    → length got ≡ n
    → length (concat ppdus) < fuel
    → Decapsulates fuel max (concat ppdus ++ replicate k 0) r got sdus v q
unfolding after_ppdu
decapsulates max k fuel n t v r p q ppdus got sdus w (taken i {s} ok e rest) len enough =
    decapsulates max k fuel n _ v r _ q ppdus got sdus (encapsulate-IsConnected t _ r p s i w ok e)
      rest len enough
decapsulates max k zero n t v r p q ppdus got sdus w over len enough = absurd (omega arith)
decapsulates max k (suc fuel) n t v r p q ppdus got sdus w over len enough = (
  r,
  parse-stop fuel max (replicate k 0) (going r got) (going r got) (padded max k (going r got))
      ∙ ap (λ xs. finished (going r xs)) (sym (append-nil got)),
  w,
)
decapsulates max k zero n t v r p q ppdus got sdus w (made i burst room e busy rest) len enough =
    absurd (omega arith)
decapsulates max k (suc fuel) n t v r p q (ppdu ∷ ppdus) got sdus w
      (made {u = u} i burst room e busy rest) len enough =
    let (long, (x, follows)) =
      fragment-Advances t u r p i burst ppdu (concat ppdus ++ replicate k 0) w e in
    elim follows [
      | inl (_, done, on) ↦
          subst (λ xs. Decapsulates (suc fuel) max xs r got sdus v q)
            (sym (append_assoc ppdu (concat ppdus) (replicate k 0)))
            (Decapsulates-step fuel max r x ppdu (concat ppdus ++ replicate k 0) c_ok got got sdus
              sdus v q long (omega arith) done (λ j. refl) refl
              (decapsulates max k fuel n u v x p q ppdus got sdus on rest len
                (omega (arith, length-append {0} ppdu (concat ppdus)))))
      | inr (free, _, _, _, _) ↦ absurd (let f : true ≡ false = sym free ∙ busy in cc)
    ]
decapsulates max k zero n t v r p q ppdus got sdus w (completed i burst room e free carried rest)
      len enough =
    absurd (omega arith)
decapsulates max k (suc fuel) n t v r p q (ppdu ∷ ppdus) got (s ∷ sdus) w
      (completed {u = u} i burst room e free carried rest) len enough =
    let (long, (x, follows)) =
      fragment-Advances t u r p i burst ppdu (concat ppdus ++ replicate k 0) w e in
    elim follows [
      | inl (busy, _, _) ↦ absurd (let f : true ≡ false = sym free ∙ busy in cc)
      | inr (_, s2, carried2, done, on) ↦
          let same : s2 ≡ s = some_sdu (sym carried2 ∙ carried) in
          subst (λ xs. Decapsulates (suc fuel) max xs r got (s ∷ sdus) v q)
            (sym (append_assoc ppdu (concat ppdus) (replicate k 0)))
            (Decapsulates-step fuel max r x ppdu (concat ppdus ++ replicate k 0)
              (c_reassembly_ok s2) got (got ++ s2 ∷ []) sdus (s ∷ sdus) v q long (omega arith) done
              (λ j. refl) (append_assoc got (s2 ∷ []) sdus ∙ ap (λ y. got ++ y ∷ sdus) same)
              (decapsulates max k fuel (suc n) u v x (set_at p i none) q ppdus (got ++ s2 ∷ []) sdus
                on rest (omega (arith, length-append {0} got (s2 ∷ [])))
                (omega (arith, length-append {0} ppdu (concat ppdus)))))
    ]

-- What `rle_decapsulate` is given with an FPDU that starts with a label of `size` bytes, and room for
-- `max` SDUs.
abbrev pub decap_args : List ℕ → ℕ → ℕ → DecapArgs
decap_args fpdu size max = record {
  fpdu = some fpdu;
  sdus_given = true;
  sdus_max_nr = max;
  payload_label_given = not (size == 0);
  payload_label_size = size;
}

decap_fpdu-parse :
    (r : Receiver) (label fpdu : List ℕ) (max : ℕ)
    → 0 < length (label ++ fpdu)
    → 0 < max
    → (length label ≡ 0) ⊎ (length label ≡ 3) ⊎ (length label ≡ 6)
    → decap_fpdu r (label ++ fpdu) (decap_args (label ++ fpdu) (length label) max) ≡ record {
      outcome = parse (suc (length (label ++ fpdu))) max fpdu (going r []);
      label = label;
    }
unfolding decap_fpdu
decap_fpdu-parse r label fpdu max some_bytes room size =
    let same : take (length label) (label ++ fpdu) ≡ label = take-append_length label fpdu in
    let rest : drop (length label) (label ++ fpdu) ≡ fpdu = drop-append_length label fpdu in
    let e0 : (length (label ++ fpdu) == 0) ≡ false = ground arith in
    let e1 : ltb (length (label ++ fpdu)) (length label) ≡ false =
      ltb_of_le (length (label ++ fpdu)) (length label)
        (omega (arith, length-append {0} label fpdu)) in
    let e2 : (max == 0) ≡ false = ground arith in
    elim size [
      | inl e ↦ rw (e0, e1, e2, same, rest, e) refl
      | inr (inl e) ↦ rw (e0, e1, e2, same, rest, e) refl
      | inr (inr e) ↦ rw (e0, e1, e2, same, rest, e) refl
    ]

-- While SDUs are on their way, an FPDU is filled with PPDUs of any contexts behind a label, and
-- padded: `rle_decapsulate` of it returns OK, the label, and exactly the SDUs of which the last PPDU
-- is in the FPDU, in that order, if the caller has room for another SDU at every PPDU; what is on
-- its way behind the FPDU is on its way to the receiver that is left.
pub decap_fpdu-Fills :
    (t v : Transmitter) (r : Receiver) (p q : Pending) (label : List ℕ) (ppdus : List (List ℕ))
    (sdus : List Sdu) (max k : ℕ)
    → IsConnected t r p
    → Fills max 0 t p ppdus sdus v q
    → 0 < max
    → (length label ≡ 0) ⊎ (length label ≡ 3) ⊎ (length label ≡ 6)
    → 0 < length (label ++ (concat ppdus ++ replicate k 0))
    → (w : Receiver) × (rle_decapsulate
          (some r)
          (decap_args (label ++ (concat ppdus ++ replicate k 0)) (length label) max)
        ≡ some (record { outcome = finished (going w sdus); label = label }))
      × IsConnected v w q
unfolding rle_decapsulate
decap_fpdu-Fills t v r p q label ppdus sdus max k w fills room size some_bytes =
    let fpdu = concat ppdus ++ replicate k 0 in
    let (u, e, on) =
      decapsulates max k (suc (length (label ++ fpdu))) 0 t v r p q ppdus [] sdus w fills refl (
        omega (
          arith,
          length-append {0} label fpdu,
          length-append {0} (concat ppdus) (replicate k 0),
        )) in
    (
      u,
      ap some (
          decap_fpdu-parse r label fpdu max some_bytes room size
          ∙ ap (λ o. record { outcome = o; label = label }) e),
      on,
    )
