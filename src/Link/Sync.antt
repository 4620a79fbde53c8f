-- ===== src/Link/Sync.antt =====
-- Sequence numbers on both sides (src/trailer.c): the sender's context and the receiver's agree again
-- behind an SDU.
use librle.Prelude.{
  ℕ, ◌<◌, ◌≡◌, ◌⊎◌, true, false, some, List, [], ◌∷◌, ◌++◌, length, arith, refl, ap, ◌∙◌, sym,
  subst, inl, inr, length-append, drop,
}
use librle.Constants.{Sdu}
use librle.Config.{use_alpdu_crc}
use librle.Ctx.{RleCtx}
use librle.Alpdu.Layout.{Layout}
use librle.Ppdu.Flow.{Flow, next_ppdu}
use librle.Ppdu.Refine.{Numbers}
use librle.Receiver.{Receiver}
use librle.Transmitter.{Transmitter}
use librle.Link.Step.{IsLinked, Counts}
use librle.Link.Cases.{next_ppdu-cases}

-- Without a CRC, context `i` of the receiver will take the next number of that of the transmitter.
abbrev pub AreInSync : Transmitter → Receiver → ℕ → Type 0
AreInSync t r i =
    use_alpdu_crc t.conf ≡ false
    → (r.is_ctx_seqnum_init i ≡ false)
      ⊎ ((t.rle_ctx_man i).next_seq_nb ≡ (r.rle_ctx_man i).next_seq_nb)
      ⊎ ((t.rle_ctx_man i).next_seq_nb ≡ 0)

-- The last PPDU of a flow keeps what it is of.
pub next_ppdu-last :
    (f : Flow) (burst : ℕ) (ppdu : List ℕ) (g : Flow)
    → 0 < length f.trailer
    → next_ppdu f burst ≡ some (ppdu, g)
    → g.left ≡ []
    → (g.trailer ≡ f.trailer) × (g.started ≡ f.started)
next_ppdu-last f burst ppdu g pos h none_left = elim (next_ppdu-cases f burst ppdu g h) [
  | inl (_, inl e) ↦ rw e.next (refl, refl)
  | inl (_, inr e) ↦ rw e.next (refl, refl)
  | inr (_, inl e) ↦ rw e.next (refl, refl)
  | inr (_, inr e) ↦ absurd (
      let k : drop e.n f.left ++ f.trailer ≡ [] =
        sym (ap (λ (x : Flow). x.left) e.next) ∙ none_left in
      omega (arith, ap length k, length-append {0} (drop e.n f.left) f.trailer))
]

same_number : {m n : ℕ} → m ∷ [] ≡ n ∷ [] → m ≡ n
same_number h = cc

-- Behind the last PPDU of a flow both sides agree.
pub synced :
    (u : Transmitter) (r v : Receiver) (i : ℕ) (f g : Flow) (s : Sdu) (l : Layout)
    → f.frag_id ≡ i
    → f.use_crc ≡ use_alpdu_crc u.conf
    → Numbers u.conf (u.rle_ctx_man i) g
    → g.trailer ≡ f.trailer
    → g.started ≡ f.started
    → IsLinked r f s l
    → Counts r v f
    → AreInSync u v i
synced u r v i f g s l id crc numbers trailer started linked (inl (st, (on, expects))) off =
    let (n, is_n, next) = numbers off in
    let (init, number) = expects (crc ∙ off) n (sym trailer ∙ is_n) in
    subst
      (λ k.
        (v.is_ctx_seqnum_init k ≡ false)
        ⊎ ((u.rle_ctx_man i).next_seq_nb ≡ (v.rle_ctx_man k).next_seq_nb)
        ⊎ ((u.rle_ctx_man i).next_seq_nb ≡ 0))
      id (inr (inl (next ∙ rw (started, st) refl ∙ sym number)))
synced u r v i f g s l id crc numbers trailer started (inr (busy, _, _)) (inr (st, _, _)) off =
    absurd (let e : true ≡ false = sym busy ∙ st in cc)
synced u r v i f g s l id crc numbers trailer started (inl (_, w)) (inr (st, same_init, same_ctx))
      off =
    let (n, is_n, next) = numbers off in
    let next_n : (u.rle_ctx_man i).next_seq_nb ≡ n = next ∙ rw (started, st) refl in
    subst
      (λ k.
        (v.is_ctx_seqnum_init k ≡ false)
        ⊎ ((u.rle_ctx_man i).next_seq_nb ≡ (v.rle_ctx_man k).next_seq_nb)
        ⊎ ((u.rle_ctx_man i).next_seq_nb ≡ 0))
      id
      (elim w.trailer [
        | inl (on, _) ↦ absurd (let e : true ≡ false = sym on ∙ crc ∙ off in cc)
        | inr (_, seq, is_seq, takes) ↦
            let same : n ≡ seq = same_number (sym is_n ∙ trailer ∙ is_seq) in
            elim takes [
              | inl fresh ↦ inl (same_init ∙ fresh)
              | inr (inl expected) ↦ inr (
                  inl
                    (next_n ∙ same ∙ expected ∙ sym (ap (λ (x : RleCtx). x.next_seq_nb) same_ctx)))
              | inr (inr zero) ↦ inr (inr (next_n ∙ same ∙ zero))
            ]
      ])
