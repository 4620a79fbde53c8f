-- ===== src/Link/Step.antt =====
-- `rle_receiver_deencap_data` (src/rle_receiver.c) on the next PPDU of a flow, of whatever type.
use librle.Prelude.{
  ℕ, ◌+◌, ◌<◌, ◌≡◌, ◌≢◌, ◌⊎◌, true, false, Option, some, List, [], ◌++◌, length, take, drop, arith,
  refl, ap, ◌∙◌, sym, subst, inl, inr, append_assoc, length-append, length-take, length-drop,
}
use librle.Constants.{Sdu}
use librle.Ctx.{is_free}
use librle.Header.{get_fragment_length, cont_end_bytes}
use librle.Header.Laws.{length-cont_end_bytes}
use librle.Alpdu.Layout.{Layout}
use librle.Ppdu.Put.{cont_hdr, end_hdr}
use librle.Ppdu.Flow.{Flow}
use librle.Receiver.{Receiver, Ret, c_ok, c_reassembly_ok}
use librle.Reassembly.{deencap_data}
use librle.Link.Headers.{read_cont, read_end, fragment_length}
use librle.Link.Receiving.{IsReceiving, IsSameBut, TakesTrailer}
use librle.Link.Fresh.{IsSendable, IsFresh}
use librle.Link.Cont.{receives_cont}
use librle.Link.Ended.{receives_end, ExpectsNext}
use librle.Link.Cases.{IsEnd, IsCont}

-- The receiver is ready for a flow that has just been started.
pub record IsWaiting (r : Receiver) (f : Flow) (s : Sdu) (l : Layout) : Type 0 where
  pub fresh : IsFresh r.conf s l f
  pub map : r.free_ctx < 256
  pub free : is_free r.free_ctx f.frag_id ≡ true
  pub trailer :
      TakesTrailer (r.is_ctx_seqnum_init f.frag_id) (r.rle_ctx_man f.frag_id).next_seq_nb f s

-- The receiver is where the flow is.
abbrev pub IsLinked : Receiver → Flow → Sdu → Layout → Type 0
IsLinked r f s l =
    ((f.started ≡ false) × IsWaiting r f s l)
    ⊎ ((f.started ≡ true) × IsReceiving r f s l.1 × (0 < length f.trailer))

-- The PPDU is found in the FPDU with its whole length, and its processing returns `ret` and leaves
-- the receiver `u`.
abbrev pub Processes : Receiver → List ℕ → List ℕ → Ret → Receiver → Type 0
Processes r ppdu rest ret u =
    (get_fragment_length (ppdu ++ rest) ≡ some (length ppdu))
    × (i : Option ℕ) × (deencap_data r (ppdu ++ rest) (length ppdu) ≡ some (ret, i, u))

-- The sequence numbers behind a flow: a flow that was started has had its trailer checked.
abbrev pub Counts : Receiver → Receiver → Flow → Type 0
Counts r u f =
    ((f.started ≡ true) × ExpectsNext r u f)
    ⊎ ((f.started ≡ false)
        × (u.is_ctx_seqnum_init f.frag_id ≡ r.is_ctx_seqnum_init f.frag_id)
        × (u.rle_ctx_man f.frag_id ≡ r.rle_ctx_man f.frag_id))

-- The receiver goes on with the flow, or, if nothing is left of it, returns the SDU.
abbrev pub Follows : Receiver → Flow → Sdu → Layout → List ℕ → List ℕ → Flow → Type 0
Follows r f s l ppdu rest g =
    (u : Receiver) × IsSameBut r u f.frag_id
    × (((g.left ≢ []) × Processes r ppdu rest c_ok u × IsLinked u g s l)
        ⊎ ((g.left ≡ [])
            × Processes r ppdu rest (c_reassembly_ok s) u
            × (is_free u.free_ctx f.frag_id ≡ true)
            × Counts r u f))

pub processes :
    (r u : Receiver) (ppdu hdr xs rest : List ℕ) (n : ℕ) (ret : Ret) (i : Option ℕ)
    → ppdu ≡ hdr ++ xs
    → length hdr + length xs ≡ n
    → get_fragment_length (hdr ++ (xs ++ rest)) ≡ some n
    → deencap_data r (hdr ++ (xs ++ rest)) n ≡ some (ret, i, u)
    → Processes r ppdu rest ret u
processes r u ppdu hdr xs rest n ret i same len found done =
    subst (λ p. Processes r p rest ret u) (sym same)
      (subst
        (λ m.
          (get_fragment_length ((hdr ++ xs) ++ rest) ≡ some m)
          × (j : Option ℕ) × (deencap_data r ((hdr ++ xs) ++ rest) m ≡ some (ret, j, u)))
        (sym (length-append hdr xs ∙ len))
        (subst
          (λ p.
            (get_fragment_length p ≡ some n)
            × (j : Option ℕ) × (deencap_data r p n ≡ some (ret, j, u)))
          (sym (append_assoc hdr xs rest)) (found, i, done)))

pub some_bytes : (xs : List ℕ) → 0 < length xs → xs ≢ []
some_bytes xs pos e = absurd (omega (arith, ap length e))

pub Follows-end :
    (r : Receiver) (f : Flow) (s : Sdu) (l : Layout) (rest : List ℕ) (max : ℕ) (ppdu : List ℕ)
    (g : Flow)
    → IsSendable r.conf s
    → f.started ≡ true
    → IsReceiving r f s l.1
    → max < 2048
    → IsEnd f max ppdu g
    → Follows r f s l ppdu rest g
Follows-end r f s l rest max ppdu g ok st v small e =
    let n = length f.left in
    let (u, done, freed, expects, same) =
      receives_end r f s l.1 rest v ok.sdu ok.octet (omega (arith, e.fits)) in
    (
      u,
      same,
      inr (
        ap (λ (x : Flow). x.left) e.next,
        processes r u ppdu (cont_end_bytes (end_hdr f.frag_id n)) f.left rest (n + 2)
            (c_reassembly_ok s) (some f.frag_id) e.bytes
            (omega (arith, length-cont_end_bytes (end_hdr f.frag_id n)))
            (fragment_length _ (end_hdr f.frag_id n) n
              (read_end f.frag_id n (f.left ++ rest) v.index) refl (omega (arith, e.fits)))
            done,
        freed,
        inl (st, expects),
      ),
    )

pub Follows-cont :
    (r : Receiver) (f : Flow) (s : Sdu) (l : Layout) (rest : List ℕ) (max : ℕ) (ppdu : List ℕ)
    (g : Flow)
    → f.started ≡ true
    → IsReceiving r f s l.1
    → 0 < length f.trailer
    → max < 2048
    → IsCont f max ppdu g
    → Follows r f s l ppdu rest g
Follows-cont r f s l rest max ppdu g st v trailer small e =
    let n = e.n in
    let xs = take n f.left in
    let (u, done, next, same) = receives_cont r f s l.1 rest n v (omega (arith, e.short)) e.fits in
    (
      u,
      same,
      inl (
        subst (λ (x : Flow). x.left ≢ []) (sym e.next)
            (some_bytes (drop n f.left) (omega (arith, length-drop n f.left, e.fits))),
        processes r u ppdu (cont_end_bytes (cont_hdr f.frag_id n)) xs rest (n + 2) c_ok
            (some f.frag_id) e.bytes
            (omega
              (arith, length-cont_end_bytes (cont_hdr f.frag_id n), length-take n f.left, e.fits))
            (fragment_length _ (cont_hdr f.frag_id n) n (read_cont f.frag_id n (xs ++ rest) v.index)
              refl (omega (arith, e.short)))
            done,
        subst (λ x. IsLinked u x s l) (sym e.next) (inr (st, next, trailer)),
      ),
    )
