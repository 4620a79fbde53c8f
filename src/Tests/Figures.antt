-- ===== src/Tests/Figures.antt =====
-- The statistics of a concrete transmitter and receiver.
use librle.Prelude.{ℕ, ◌<◌, ◌≤◌, ◌≡◌, ◌==◌, ◌>>=◌, true, some, none, if◌then◌else◌, refl, arith}
use librle.Ctx.{is_free}
use librle.Transmitter.{Transmitter, encap_ok, encapsulate}
use librle.Transmitter as TransmitterOps
use librle.Receiver as ReceiverOps
use librle.Stats.Transmitters as Sender
use librle.Stats.Receivers as Taker
use librle.Stats.Laws.{
  transmitter_stats, no_transmitter_stats, receiver_stats, no_receiver_stats,
  get_counters-transmitter, get_counters-receiver, get_counters-reset_stats,
}
use librle.Stats.Counts.{one_more, encapsulate-counts}
use librle.Tests.Fixtures.{config, transmitter, receiver, ipv4_sdu}

get_counters-transmitter_example :
    (3 < 8
      → Sender.get_counters (some (transmitter (config 0x31 0))) 3 true
        ≡ some (transmitter_stats (transmitter (config 0x31 0)) 3))
    × (8 ≤ 3
        → (Sender.get_counters (some (transmitter (config 0x31 0))) 3 true ≡ none)
          × (transmitter_stats (transmitter (config 0x31 0)) 3 ≡ no_transmitter_stats))
get_counters-transmitter_example = get_counters-transmitter (transmitter (config 0x31 0)) 3 true

get_counters-receiver_example :
    (9 < 8
      → Taker.get_counters (some (receiver (config 0x31 0))) 9 true
        ≡ some (receiver_stats (receiver (config 0x31 0)) 9))
    × (8 ≤ 9
        → (Taker.get_counters (some (receiver (config 0x31 0))) 9 true ≡ none)
          × (receiver_stats (receiver (config 0x31 0)) 9 ≡ no_receiver_stats))
get_counters-receiver_example = get_counters-receiver (receiver (config 0x31 0)) 9 true

get_counters-reset_stats_example :
    (Sender.get_counters (some (TransmitterOps.reset_stats (transmitter (config 0x31 0)) 3)) 3 true
      ≡ some no_transmitter_stats)
    × (Taker.get_counters (some (ReceiverOps.reset_stats (receiver (config 0x31 0)) 3)) 3 true
        ≡ some no_receiver_stats)
get_counters-reset_stats_example =
    get_counters-reset_stats (transmitter (config 0x31 0)) (receiver (config 0x31 0)) 3 3
      (omega arith) (omega arith)

encapsulate-counts_example :
    (u : Transmitter) × (encapsulate (transmitter (config 0x31 0)) ipv4_sdu 3 ≡ some (encap_ok, u))
    × ((j : ℕ)
        → j < 8
        → Sender.get_counters (some u) j true ≡ (
            Sender.get_counters (some (transmitter (config 0x31 0))) j true >>= λ st.
            some (if j == 3 then one_more st 10 else st)))
unfolding is_free
encapsulate-counts_example =
    encapsulate-counts (transmitter (config 0x31 0)) ipv4_sdu 3 (omega arith) (omega arith) refl
      (record {
        omission = omega arith;
        compression = omega arith;
        crc = omega arith;
        seqno = omega arith;
        protected = omega arith;
        header_map = refl;
        ppdu_label = omega arith;
        payload_label = omega arith;
        alpdu_label = omega arith;
      })
      (record { whole = refl; some_bytes = omega arith; small = omega arith })
