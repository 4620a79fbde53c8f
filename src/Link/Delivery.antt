-- ===== src/Link/Delivery.antt =====
-- An SDU that is given to `rle_encapsulate` (src/encap.c) comes out of the receiver.
use librle.Prelude.{
  ℕ, zero, suc, ◌<◌, ◌≤◌, ◌≡◌, ◌⊎◌, ◌==◌, Bool, true, false, some, Option, List, [], ◌∷◌, ◌++◌,
  length, arith, refl, ap, ◌∙◌, sym, subst, inl, inr, replicate, append-nil, length-append,
  Bool-cases,
}
use librle.Constants.{Sdu}
use librle.Config.{Config, use_alpdu_crc}
use librle.Config.Laws as ConfigLaws
use librle.Ctx.{RleCtx, is_free}
use librle.Alpdu.Layout.{Layout, layout}
use librle.Ppdu.Flow.{Flow}
use librle.Receiver.{Receiver, Ret, c_ok, c_reassembly_ok}
use librle.Reassembly.{deencap_data}
use librle.Transmitter.{Transmitter, fragment, frag_ok, encap_ok, encapsulate}
use librle.Transmitter.Sending.{IsSending, Answers}
use librle.Transmitter.Fragments.{fragment-Answers}
use librle.Transmitter.Starting.{flow_of, encapsulate-IsSending}
use librle.Link.Receiving.{TakesTrailer}
use librle.Link.Fresh.{IsSendable, IsFresh, layout-short, layout-some, Rebuilds-length}
use librle.Link.Started.{fresh_extract}
use librle.Trailer.{le32_bytes}
use librle.Link.Step.{IsLinked, Processes}
use librle.Link.Follow.{deencap_data-Follows}
use librle.Transmitter.Progress.{some_left}
use librle.Link.Cases.{next_ppdu-frag_id}
use librle.Link.Exchange.{Exchange, over, sent, to_send, goes_on}

-- After some PPDUs, at most `most`, the receiver returns the SDU, and both contexts are free.
abbrev pub Delivers : ℕ → (ℕ → ℕ) → ℕ → Transmitter → Receiver → Sdu → ℕ → ℕ → Type 0
Delivers i burst k t r s id most =
    (n : ℕ) × (n < most)
    × (u : Transmitter) × (v : Receiver) × Exchange i burst k t r
        (replicate n c_ok ++ (c_reassembly_ok s ∷ [])) u v
    × (is_free u.free_ctx i ≡ true)
    × (is_free v.free_ctx id ≡ true)

processed :
    (r u : Receiver) (ppdu : List ℕ) (ret : Ret)
    → Processes r ppdu [] ret u
    → (j : Option ℕ) × (deencap_data r ppdu (length ppdu) ≡ some (ret, j, u))
processed r u ppdu ret (_, j, e) =
    (j, ap (λ p. deencap_data r p (length ppdu)) (sym (append-nil ppdu)) ∙ e)

to_send_some : (f : Flow) → 0 < length f.left → 0 < to_send f
to_send_some f h = ground arith

-- The last PPDU of a flow.
delivers_last :
    (id : ℕ) {burst : ℕ → ℕ} {k i m : ℕ} {t u : Transmitter} {r v : Receiver} {s : Sdu}
    {ppdu : List ℕ}
    → fragment t i (burst k) ≡ some (record { status = frag_ok; transmitter = u; ppdu = some ppdu })
    → Processes r ppdu [] (c_reassembly_ok s) v
    → is_free u.free_ctx i ≡ true
    → is_free v.free_ctx id ≡ true
    → Delivers i burst k t r s id (suc m)
delivers_last id {u = u} {r} {v} {s} {ppdu} made taken free_t free_r = (
  0,
  omega arith,
  u,
  v,
  sent made (processed r v ppdu (c_reassembly_ok s) taken).1 over,
  free_t,
  free_r,
)

-- A PPDU before that.
delivers_more :
    (id : ℕ) {burst : ℕ → ℕ} {k i m : ℕ} {t u : Transmitter} {r v : Receiver} {s : Sdu}
    {ppdu : List ℕ}
    → fragment t i (burst k) ≡ some (record { status = frag_ok; transmitter = u; ppdu = some ppdu })
    → Processes r ppdu [] c_ok v
    → Delivers i burst (suc k) u v s id m
    → Delivers i burst k t r s id (suc m)
delivers_more id {r = r} {v} {ppdu = ppdu} made taken (n, less, u2, v2, rest, free_t, free_r) =
    (suc n, omega arith, u2, v2, sent made (processed r v ppdu c_ok taken).1 rest, free_t, free_r)

pub delivers :
    (m : ℕ) (burst : ℕ → ℕ) (k i : ℕ) (t : Transmitter) (r : Receiver) (f : Flow) (s : Sdu)
    (l : Layout)
    → ((j : ℕ) → 8 ≤ burst j)
    → IsSending t i f
    → IsSendable r.conf s
    → IsLinked r f s l
    → to_send f ≤ m
    → Delivers i burst k t r s f.frag_id m
delivers zero burst k i t r f s l big w ok linked small =
    absurd (omega (arith, to_send_some f (some_left w)))
delivers (suc m) burst k i t r f s l big w ok linked small =
    let (ppdu, g, e, less) = goes_on i f (burst k) w linked (big k) in
    let (u, made, to) =
      subst (λ a. Answers t i a (fragment t i (burst k))) e (fragment-Answers t i (burst k) f w) in
    let (v, same, follows) = deencap_data-Follows r f s l [] (burst k) ppdu g ok linked e in
    elim follows [
      | inl (more, taken, on) ↦ delivers_more f.frag_id made taken (
          subst (λ id. Delivers i burst (suc k) u v s id m) (next_ppdu-frag_id f (burst k) ppdu g e)
            (delivers m burst (suc k) i u v g s l big (to.next more)
              (subst (λ c. IsSendable c s) (sym same.conf) ok) on (omega (arith, less more))))
      | inr (none_left, taken, free, _) ↦
          delivers_last f.frag_id made taken (to.freed ∙ ap (λ b. length b == 0) none_left) free
    ]

-- The sequence numbers of the sender's and the receiver's context agree, where they are used.
abbrev pub InSync : Transmitter → ℕ → Receiver → Type 0
InSync t i r =
    use_alpdu_crc t.conf ≡ false
    → let id = (t.rle_ctx_man i).frag_id in
      (r.is_ctx_seqnum_init id ≡ false)
      ⊎ ((t.rle_ctx_man i).next_seq_nb ≡ (r.rle_ctx_man id).next_seq_nb)
      ⊎ ((t.rle_ctx_man i).next_seq_nb ≡ 0)

pub flow_of-IsFresh :
    (conf : Config) (ctx : RleCtx) (s : Sdu) (l : Layout)
    → ctx.frag_id < 8
    → layout conf s.protocol_type s.buffer ≡ some l
    → IsFresh conf s l (flow_of conf ctx s l)
unfolding flow_of le32_bytes
flow_of-IsFresh conf ctx s l id laid = record {
  index = id;
  laid = laid;
  left = refl;
  hdr_len = refl;
  label_type = refl;
  trailer_len = ground arith;
}

pub flow_of-TakesTrailer :
    (conf : Config) (ctx : RleCtx) (s : Sdu) (l : Layout) (init : Bool) (next : ℕ)
    → (use_alpdu_crc conf ≡ false
        → (init ≡ false) ⊎ (ctx.next_seq_nb ≡ next) ⊎ (ctx.next_seq_nb ≡ 0))
    → TakesTrailer init next (flow_of conf ctx s l) s
unfolding flow_of
flow_of-TakesTrailer conf ctx s l init next sync = elim (Bool-cases (use_alpdu_crc conf)) [
  | inl on ↦ inl (on, rw on refl)
  | inr off ↦ inr (off, ctx.next_seq_nb, rw off refl, sync off)
]

flow_of-short :
    (conf : Config) (ctx : RleCtx) (s : Sdu) (l : Layout)
    → IsSendable conf s
    → IsFresh conf s l (flow_of conf ctx s l)
    → to_send (flow_of conf ctx s l) ≤ 4095
unfolding flow_of
flow_of-short conf ctx s l ok fresh =
    let pos =
      layout-some conf s.protocol_type s.buffer l fresh.laid
        (omega (arith, ok.sdu.whole, ok.sdu.some_bytes)) in
    let (comp, _, rebuilds) =
      fresh_extract conf (flow_of conf ctx s l) s l [] 1 ok fresh (omega arith) pos (omega arith) in
    let lens =
      Rebuilds-length comp s.protocol_type s.buffer l.1
        (omega (arith, ok.sdu.whole, ok.sdu.some_bytes)) rebuilds in
    ground (
      arith,
      lens.1,
      length-append l.0 l.1,
      ok.sdu.whole,
      ok.sdu.small,
      fresh.trailer_len,
      layout-short conf s.protocol_type s.buffer l fresh.laid,
    )

-- Given to `rle_encapsulate` in a free context of the sender, an SDU that the receiver can restore is
-- delivered: if the receiver has the same configuration, a valid one, and its context of the same
-- fragment id is free and, without a CRC, in sync, then `rle_fragment`, asked again and again for
-- PPDUs of 8 bytes or more each time, and the receiver, given each PPDU, come to an end in which the
-- receiver returns exactly the SDU, after less than 4096 PPDUs that it accepted without one; both
-- contexts are then free. Both maps of free contexts have 8 bits, and there are 8 contexts.
pub encapsulate-Delivers :
    (t : Transmitter) (r : Receiver) (s : Sdu) (i : ℕ) (burst : ℕ → ℕ)
    → i < 8
    → (t.rle_ctx_man i).frag_id < 8
    → t.free_ctx < 256
    → is_free t.free_ctx i ≡ true
    → ConfigLaws.IsValid t.conf
    → IsSendable t.conf s
    → r.conf ≡ t.conf
    → r.free_ctx < 256
    → is_free r.free_ctx (t.rle_ctx_man i).frag_id ≡ true
    → InSync t i r
    → ((j : ℕ) → 8 ≤ burst j)
    → (u : Transmitter) × (encapsulate t s i ≡ some (encap_ok, u))
      × Delivers i burst 0 u r s (t.rle_ctx_man i).frag_id 4096
unfolding flow_of
encapsulate-Delivers t r s i burst hi id map free valid ok same r_map r_free sync big =
    let (l, laid, u, begun, conf, sending, _, _) =
      encapsulate-IsSending t s i hi map free valid ok.sdu in
    let f : Flow = flow_of t.conf (t.rle_ctx_man i) s l in
    let fresh = flow_of-IsFresh t.conf (t.rle_ctx_man i) s l id laid in
    (
      u,
      begun,
      delivers 4096 burst 0 i u r f s l big sending (subst (λ c. IsSendable c s) (sym same) ok)
          (inl (
            refl,
            record {
              fresh = subst (λ c. IsFresh c s l f) (sym same) fresh;
              map = r_map;
              free = r_free;
              trailer = flow_of-TakesTrailer t.conf (t.rle_ctx_man i) s l _ _ sync;
            },
          ))
          (omega (arith, flow_of-short t.conf (t.rle_ctx_man i) s l ok fresh)),
    )
