-- ===== src/Stats/Laws.antt =====
-- What the statistics of src/rle_transmitter.c and src/rle_receiver.c say.
use librle.Prelude.{
  ℕ, ◌<◌, ◌≤◌, ◌≡◌, ◌==◌, leb, Bool, true, false, some, none, if◌then◌else◌, arith, refl, ap, sym,
  subst, ◌∙◌, Option, inl, inr, Bool-cases,
}
use librle.Ctx.{RleCtx, reset_counters}
use librle.Ctx.Counters.{
  get_counter_in, get_counter_ok, get_counter_dropped, get_counter_lost, get_counter_bytes_in,
  get_counter_bytes_ok, get_counter_bytes_dropped,
}
use librle.Transmitter.{Transmitter}
use librle.Receiver.{Receiver}
use librle.Transmitter as TransmitterOps
use librle.Receiver as ReceiverOps
use librle.Stats.Transmitters as Sender
use librle.Stats.Receivers as Taker

-- What the getters of one context of a transmitter return, in one record.
abbrev pub transmitter_stats : Transmitter → ℕ → Sender.TransmitterStats
transmitter_stats t i = record {
  sdus_in = Sender.sdus_in (some t) i;
  sdus_sent = Sender.sdus_sent (some t) i;
  sdus_dropped = Sender.sdus_dropped (some t) i;
  bytes_in = Sender.bytes_in (some t) i;
  bytes_sent = Sender.bytes_sent (some t) i;
  bytes_dropped = Sender.bytes_dropped (some t) i;
}

abbrev pub no_transmitter_stats : Sender.TransmitterStats
no_transmitter_stats = record {
  sdus_in = 0;
  sdus_sent = 0;
  sdus_dropped = 0;
  bytes_in = 0;
  bytes_sent = 0;
  bytes_dropped = 0;
}

-- What the getters make of the context.
transmitter_stats_of : Option RleCtx → Sender.TransmitterStats
transmitter_stats_of c = record {
  sdus_in = elim c [ none ↦ 0 | some x ↦ get_counter_in x ];
  sdus_sent = elim c [ none ↦ 0 | some x ↦ get_counter_ok x ];
  sdus_dropped = elim c [ none ↦ 0 | some x ↦ get_counter_dropped x ];
  bytes_in = elim c [ none ↦ 0 | some x ↦ get_counter_bytes_in x ];
  bytes_sent = elim c [ none ↦ 0 | some x ↦ get_counter_bytes_ok x ];
  bytes_dropped = elim c [ none ↦ 0 | some x ↦ get_counter_bytes_dropped x ];
}

transmitter_stats-context :
    (t : Transmitter) (i : ℕ) (c : Option RleCtx)
    → Sender.get_transmitter_context (some t) i ≡ c
    → transmitter_stats t i ≡ transmitter_stats_of c
unfolding transmitter_stats_of Sender.sdus_in Sender.sdus_sent Sender.sdus_dropped Sender.bytes_in
    Sender.bytes_sent Sender.bytes_dropped
transmitter_stats-context t i c e =
    subst (λ x. transmitter_stats t i ≡ transmitter_stats_of x) e refl

transmitter_counters :
    (t : Transmitter) (i : ℕ) (given : Bool) (c : RleCtx)
    → Sender.get_transmitter_context (some t) i ≡ some c
    → Sender.get_counters (some t) i given
      ≡ (if given then some (transmitter_stats_of (some c)) else none)
unfolding Sender.get_counters transmitter_stats_of
transmitter_counters t i given c e = rw e refl

transmitter_context :
    (t : Transmitter) (i : ℕ)
    → (i < 8 → Sender.get_transmitter_context (some t) i ≡ some (t.rle_ctx_man i))
      × (8 ≤ i → Sender.get_transmitter_context (some t) i ≡ none)
unfolding Sender.get_transmitter_context
transmitter_context t i = (
  λ small. rw (let e : leb 8 i ≡ false = ground arith in e) refl,
  λ big. rw (let e : leb 8 i ≡ true = ground arith in e) refl,
)

-- `rle_transmitter_stats_get_counters` returns the values of the single getters for each of the eight
-- contexts if it has a structure to write to, and otherwise fails; for any other context it
-- fails, and each getter returns 0.
pub get_counters-transmitter :
    (t : Transmitter) (i : ℕ) (given : Bool)
    → (i < 8
        → Sender.get_counters (some t) i given
          ≡ (if given then some (transmitter_stats t i) else none))
      × (8 ≤ i
          → (Sender.get_counters (some t) i given ≡ none)
            × (transmitter_stats t i ≡ no_transmitter_stats))
unfolding Sender.get_counters transmitter_stats_of
get_counters-transmitter t i given = (
  λ small.
      let e = (transmitter_context t i).0 small in
      transmitter_counters t i given (t.rle_ctx_man i) e
      ∙ ap (λ x. if given then some x else none)
          (sym (transmitter_stats-context t i (some (t.rle_ctx_man i)) e)),
  λ big.
      let e = (transmitter_context t i).1 big in (rw e refl, transmitter_stats-context t i none e),
)

get_counters-reset_transmitter :
    (t : Transmitter) (i j : ℕ)
    → i < 8
    → j < 8
    → Sender.get_counters (some (TransmitterOps.reset_stats t i)) j true
      ≡ (if j == i then some no_transmitter_stats else Sender.get_counters (some t) j true)
unfolding Sender.get_counters Sender.get_transmitter_context get_counter_in get_counter_ok
    get_counter_dropped get_counter_bytes_in get_counter_bytes_ok get_counter_bytes_dropped
    reset_counters TransmitterOps.reset_stats
get_counters-reset_transmitter t i j hi hj = elim (Bool-cases (j == i)) [
  | inl same ↦
      rw
        (
          (let e : leb 8 i ≡ false = ground arith in e),
          (let e : leb 8 j ≡ false = ground arith in e),
          same,
        )
        refl
  | inr other ↦
      rw
        (
          (let e : leb 8 i ≡ false = ground arith in e),
          (let e : leb 8 j ≡ false = ground arith in e),
          other,
        )
        refl
]

-- What the getters of one context of a receiver return, in one record.
abbrev pub receiver_stats : Receiver → ℕ → Taker.ReceiverStats
receiver_stats r i = record {
  sdus_received = Taker.sdus_received (some r) i;
  sdus_reassembled = Taker.sdus_reassembled (some r) i;
  sdus_dropped = Taker.sdus_dropped (some r) i;
  sdus_lost = Taker.sdus_lost (some r) i;
  bytes_received = Taker.bytes_received (some r) i;
  bytes_reassembled = Taker.bytes_reassembled (some r) i;
  bytes_dropped = Taker.bytes_dropped (some r) i;
}

abbrev pub no_receiver_stats : Taker.ReceiverStats
no_receiver_stats = record {
  sdus_received = 0;
  sdus_reassembled = 0;
  sdus_dropped = 0;
  sdus_lost = 0;
  bytes_received = 0;
  bytes_reassembled = 0;
  bytes_dropped = 0;
}

-- What the getters make of the context.
receiver_stats_of : Option RleCtx → Taker.ReceiverStats
receiver_stats_of c = record {
  sdus_received = elim c [ none ↦ 0 | some x ↦ get_counter_in x ];
  sdus_reassembled = elim c [ none ↦ 0 | some x ↦ get_counter_ok x ];
  sdus_dropped = elim c [ none ↦ 0 | some x ↦ get_counter_dropped x ];
  sdus_lost = elim c [ none ↦ 0 | some x ↦ get_counter_lost x ];
  bytes_received = elim c [ none ↦ 0 | some x ↦ get_counter_bytes_in x ];
  bytes_reassembled = elim c [ none ↦ 0 | some x ↦ get_counter_bytes_ok x ];
  bytes_dropped = elim c [ none ↦ 0 | some x ↦ get_counter_bytes_dropped x ];
}

receiver_stats-context :
    (r : Receiver) (i : ℕ) (c : Option RleCtx)
    → Taker.get_receiver_context (some r) i ≡ c
    → receiver_stats r i ≡ receiver_stats_of c
unfolding receiver_stats_of Taker.sdus_received Taker.sdus_reassembled Taker.sdus_dropped
    Taker.sdus_lost Taker.bytes_received Taker.bytes_reassembled Taker.bytes_dropped
receiver_stats-context r i c e = subst (λ x. receiver_stats r i ≡ receiver_stats_of x) e refl

receiver_counters :
    (r : Receiver) (i : ℕ) (given : Bool) (c : RleCtx)
    → Taker.get_receiver_context (some r) i ≡ some c
    → Taker.get_counters (some r) i given
      ≡ (if given then some (receiver_stats_of (some c)) else none)
unfolding Taker.get_counters receiver_stats_of
receiver_counters r i given c e = rw e refl

receiver_context :
    (r : Receiver) (i : ℕ)
    → (i < 8 → Taker.get_receiver_context (some r) i ≡ some (r.rle_ctx_man i))
      × (8 ≤ i → Taker.get_receiver_context (some r) i ≡ none)
unfolding Taker.get_receiver_context
receiver_context r i = (
  λ small. rw (let e : leb 8 i ≡ false = ground arith in e) refl,
  λ big. rw (let e : leb 8 i ≡ true = ground arith in e) refl,
)

-- `rle_receiver_stats_get_counters` returns the values of the single getters for each of the eight
-- contexts if it has a structure to write to, and otherwise fails; for any other context it
-- fails, and each getter returns 0.
pub get_counters-receiver :
    (r : Receiver) (i : ℕ) (given : Bool)
    → (i < 8
        → Taker.get_counters (some r) i given ≡ (if given then some (receiver_stats r i) else none))
      × (8 ≤ i
          → (Taker.get_counters (some r) i given ≡ none) × (receiver_stats r i ≡ no_receiver_stats))
unfolding Taker.get_counters receiver_stats_of
get_counters-receiver r i given = (
  λ small.
      let e = (receiver_context r i).0 small in
      receiver_counters r i given (r.rle_ctx_man i) e
      ∙ ap (λ x. if given then some x else none)
          (sym (receiver_stats-context r i (some (r.rle_ctx_man i)) e)),
  λ big. let e = (receiver_context r i).1 big in (rw e refl, receiver_stats-context r i none e),
)

get_counters-reset_receiver :
    (r : Receiver) (i j : ℕ)
    → i < 8
    → j < 8
    → Taker.get_counters (some (ReceiverOps.reset_stats r i)) j true
      ≡ (if j == i then some no_receiver_stats else Taker.get_counters (some r) j true)
unfolding Taker.get_counters Taker.get_receiver_context get_counter_in get_counter_ok
    get_counter_dropped get_counter_bytes_in get_counter_bytes_ok get_counter_bytes_dropped
    get_counter_lost reset_counters ReceiverOps.reset_stats
get_counters-reset_receiver r i j hi hj = elim (Bool-cases (j == i)) [
  | inl same ↦
      rw
        (
          (let e : leb 8 i ≡ false = ground arith in e),
          (let e : leb 8 j ≡ false = ground arith in e),
          same,
        )
        refl
  | inr other ↦
      rw
        (
          (let e : leb 8 i ≡ false = ground arith in e),
          (let e : leb 8 j ≡ false = ground arith in e),
          other,
        )
        refl
]

-- After `rle_transmitter_stats_reset_counters` or `rle_receiver_stats_reset_counters` of one of the
-- eight contexts, each of its counters is 0, and those of another context are as before.
pub get_counters-reset_stats :
    (t : Transmitter) (r : Receiver) (i j : ℕ)
    → i < 8
    → j < 8
    → (Sender.get_counters (some (TransmitterOps.reset_stats t i)) j true
        ≡ (if j == i then some no_transmitter_stats else Sender.get_counters (some t) j true))
      × (Taker.get_counters (some (ReceiverOps.reset_stats r i)) j true
          ≡ (if j == i then some no_receiver_stats else Taker.get_counters (some r) j true))
get_counters-reset_stats t r i j hi hj =
    (get_counters-reset_transmitter t i j hi hj, get_counters-reset_receiver r i j hi hj)
