-- ===== src/Link/Connected.antt =====
-- A transmitter and a receiver with the SDUs that are on their way between them (src/encap.c,
-- src/fragmentation.c, src/rle_receiver.c), in all eight contexts at once.
use librle.Prelude.{
  ℕ, ◌<◌, ◌≡◌, ◌⊎◌, ◌==◌, true, false, Option, some, none, refl, ap, ◌∙◌, sym, subst, inl, inr,
  set_at, eq_of_==, Bool-cases,
}
use librle.Constants.{Sdu}
use librle.Config.{use_alpdu_crc}
use librle.Config.Laws as ConfigLaws
use librle.Ctx.{is_free, RleCtx}
use librle.Alpdu.Layout.{Layout}
use librle.Ppdu.Flow.{Flow}
use librle.Receiver.{Receiver}
use librle.Transmitter.{Transmitter, encap_ok, encapsulate}
use librle.Transmitter.Sending.{IsSending}
use librle.Transmitter.Sent.{set_at_same, set_at_other}
use librle.Transmitter.Starting.{flow_of, encapsulate-IsSending}
use librle.Transmitter.Others.{IsSameAt, IsSending-kept, encapsulate-ok}
use librle.Link.Receiving.{IsSameBut}
use librle.Link.Fresh.{IsSendable, IsFresh}
use librle.Link.Step.{IsLinked}
use librle.Link.Others.{IsLinked-kept}
use librle.Link.Sync.{AreInSync}
use librle.Link.Delivery.{flow_of-IsFresh, flow_of-TakesTrailer}

-- For each context the SDU that it carries.
abbrev pub Pending : Type 0
Pending = ℕ → Option Sdu

-- Context `i` is free and in sync on both sides, or the receiver is where the flow of the SDU is.
abbrev pub IsOnWay : Transmitter → Receiver → ℕ → Option Sdu → Type 0
IsOnWay t r i none = (is_free t.free_ctx i ≡ true) × (is_free r.free_ctx i ≡ true) × AreInSync t r i
IsOnWay t r i (some s) =
    (f : Flow) × (l : Layout) × (f.frag_id ≡ i)
    × IsSending t i f
    × IsLinked r f s l
    × IsSendable r.conf s

-- Both have the same valid configuration, and every context is so.
pub record IsConnected (t : Transmitter) (r : Receiver) (p : Pending) : Type 0 where
  pub valid : ConfigLaws.IsValid t.conf
  pub conf : r.conf ≡ t.conf
  pub map_t : t.free_ctx < 256
  pub map_r : r.free_ctx < 256
  pub id : (i : ℕ) → i < 8 → (t.rle_ctx_man i).frag_id ≡ i
  pub each : (i : ℕ) → i < 8 → IsOnWay t r i (p i)

pub IsOnWay-sent :
    (t u : Transmitter) (r : Receiver) (j : ℕ) (o : Option Sdu)
    → IsSameAt t u j
    → IsOnWay t r j o
    → IsOnWay u r j o
IsOnWay-sent t u r j none same (free_t, free_r, sync) =
    (same.free ∙ free_t, free_r, λ off. rw same.ctx (sync (ap use_alpdu_crc (sym same.conf) ∙ off)))
IsOnWay-sent t u r j (some s) same (f, l, id, sending, linked, ok) =
    (f, l, id, IsSending-kept t u j f same sending, linked, ok)

pub IsOnWay-received :
    (t : Transmitter) (r v : Receiver) (i j : ℕ) (o : Option Sdu)
    → j < 8
    → IsSameBut r v i
    → (j == i) ≡ false
    → IsOnWay t r j o
    → IsOnWay t v j o
IsOnWay-received t r v i j none hj same other (free_t, free_r, sync) = (
  free_t,
  same.free j hj other ∙ free_r,
  λ off. rw (same.ctx j other, same.init j other) (sync off),
)
IsOnWay-received t r v i j (some s) hj same other (f, l, id, sending, linked, ok) = (
  f,
  l,
  id,
  sending,
  IsLinked-kept r v i f s l same (ap (λ x. x == i) id ∙ other) linked,
  subst (λ c. IsSendable c s) (sym same.conf) ok,
)

-- What holds for context `i` and for all others holds for all.
at_each :
    (P : ℕ → Option Sdu → Type 0) (p : Pending) (i : ℕ) (o : Option Sdu)
    → P i o
    → ((j : ℕ) → j < 8 → (j == i) ≡ false → P j (p j))
    → (j : ℕ) → j < 8
    → P j (set_at p i o j)
at_each P p i o here others j hj = elim (Bool-cases (j == i)) [
  | inl same ↦
      subst (λ k. P k (set_at p i o k)) (sym (eq_of_== j i same))
        (subst (P i) (sym (set_at_same p i o)) here)
  | inr other ↦ subst (P j) (sym (set_at_other p i o j other)) (others j hj other)
]

-- A context that is free at the transmitter is free and in sync at the receiver.
free_there :
    (t : Transmitter) (r : Receiver) (i : ℕ) (o : Option Sdu)
    → is_free t.free_ctx i ≡ true
    → IsOnWay t r i o
    → (is_free r.free_ctx i ≡ true) × AreInSync t r i
free_there t r i none free (_, free_r, sync) = (free_r, sync)
free_there t r i (some s) free (f, l, id, sending, _, _) =
    absurd (let e : true ≡ false = sym free ∙ sending.busy in cc)

pub some_pair {ℓ κ} : {A : Type ℓ} {B : Type κ} {a b : A × B} → some a ≡ some b → a.1 ≡ b.1
some_pair {A} {B} {a} {b} h = let e : a ≡ b = cc in ap (λ (x : A × B). x.1) e

-- When `rle_encapsulate` takes an SDU that the receiver can restore, it is on its way.
pub encapsulate-IsConnected :
    (t u : Transmitter) (r : Receiver) (p : Pending) (s : Sdu) (i : ℕ)
    → IsConnected t r p
    → IsSendable t.conf s
    → encapsulate t s i ≡ some (encap_ok, u)
    → IsConnected u r (set_at p i (some s))
unfolding flow_of
encapsulate-IsConnected t u r p s i w ok taken =
    let (hi, free) = encapsulate-ok t u s i taken in
    let (l, laid, u2, begun, conf, sending, frees, others) =
      encapsulate-IsSending t s i hi w.map_t free w.valid ok.sdu in
    let there = free_there t r i (p i) free (w.each i hi) in
    let same : u2 ≡ u = some_pair (sym begun ∙ taken) in
    subst (λ x. IsConnected x r (set_at p i (some s))) same
      (let f : Flow = flow_of t.conf (t.rle_ctx_man i) s l in
        let id_i : (t.rle_ctx_man i).frag_id ≡ i = w.id i hi in
        let id_small : (t.rle_ctx_man i).frag_id < 8 = subst (λ x. x < 8) (sym id_i) hi in
        let kept : (j : ℕ) → j < 8 → (j == i) ≡ false → IsSameAt t u2 j = λ j hj e. record {
          conf = conf;
          map = sending.map;
          free = frees j hj e;
          ctx = (others j e).0;
          buf = (others j e).1;
        } in
        record {
          valid = subst ConfigLaws.IsValid (sym conf) w.valid;
          conf = w.conf ∙ sym conf;
          map_t = sending.map;
          map_r = w.map_r;
          id = λ j hj. elim (Bool-cases (j == i)) [
            | inl e ↦
                subst (λ k. (u2.rle_ctx_man k).frag_id ≡ k) (sym (eq_of_== j i e))
                  (sym sending.flow.frag_id ∙ id_i)
            | inr e ↦ ap (λ (x : RleCtx). x.frag_id) (others j e).0 ∙ w.id j hj
          ];
          each =
              at_each (IsOnWay u2 r) p i (some s)
                (
                  f,
                  l,
                  id_i,
                  sending,
                  inl (
                    refl,
                    record {
                      fresh =
                          subst (λ c. IsFresh c s l f) (sym w.conf)
                            (flow_of-IsFresh t.conf (t.rle_ctx_man i) s l id_small laid);
                      map = w.map_r;
                      free = subst (λ x. is_free r.free_ctx x ≡ true) (sym id_i) there.0;
                      trailer = flow_of-TakesTrailer t.conf (t.rle_ctx_man i) s l _ _ (λ off.
                          subst
                            (λ k.
                              (r.is_ctx_seqnum_init k ≡ false)
                              ⊎ ((t.rle_ctx_man i).next_seq_nb ≡ (r.rle_ctx_man k).next_seq_nb)
                              ⊎ ((t.rle_ctx_man i).next_seq_nb ≡ 0))
                            (sym id_i) (there.1 off));
                    },
                  ),
                  subst (λ c. IsSendable c s) (sym w.conf) ok,
                )
                (λ j hj e. IsOnWay-sent t u2 r j (p j) (kept j hj e) (w.each j hj));
        })
