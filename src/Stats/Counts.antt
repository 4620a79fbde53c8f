-- ===== src/Stats/Counts.antt =====
-- What `rle_encapsulate` (src/encap.c) adds to the statistics of a transmitter.
use librle.Prelude.{
  ℕ, ◌<◌, ◌≡◌, ◌==◌, leb, true, false, some, if◌then◌else◌, arith, refl, inl, inr, Bool-cases,
  eq_of_==, ◌>>=◌,
}
use librle.Prelude.Int.{add_size}
use librle.Constants.{Sdu}
use librle.Config.Laws as ConfigLaws
use librle.Ctx.{is_free, incr_counter_in, incr_counter_bytes_in}
use librle.Ctx.Counters.{
  get_counter_in, get_counter_ok, get_counter_dropped, get_counter_bytes_in, get_counter_bytes_ok,
  get_counter_bytes_dropped,
}
use librle.FragBuf.{FragBuf}
use librle.Transmitter.{Transmitter, encap_ok, encapsulate}
use librle.Transmitter.Encapsulated.{IsSdu}
use librle.Transmitter.Starting.{started, encapsulate-started}
use librle.Stats.Transmitters.{TransmitterStats, get_counters, get_transmitter_context}

-- One more SDU of `size` bytes has come in.
abbrev pub one_more : TransmitterStats → ℕ → TransmitterStats
one_more st size = record st {
  sdus_in = add_size st.sdus_in 1;
  bytes_in = add_size st.bytes_in size;
}

started_counters :
    (t : Transmitter) (s : Sdu) (i j map : ℕ) (c : FragBuf)
    → i < 8
    → j < 8
    → get_counters (some (started t i s c map)) j true
      ≡ (get_counters (some t) j true >>= λ st. some (if j == i then one_more st s.size else st))
unfolding started get_counters get_transmitter_context get_counter_in get_counter_ok
    get_counter_dropped get_counter_bytes_in get_counter_bytes_ok get_counter_bytes_dropped
    incr_counter_in incr_counter_bytes_in
started_counters t s i j map c hi hj = elim (Bool-cases (j == i)) [
  | inl same ↦ rw ((let e : leb 8 j ≡ false = ground arith in e), same, eq_of_== j i same) refl
  | inr other ↦ rw ((let e : leb 8 j ≡ false = ground arith in e), other) refl
]

-- For a free context among the eight, a map of 8 bits, a valid configuration and an SDU of 1 to
-- 4088 bytes, `rle_encapsulate` returns OK and adds one to the SDUs in and the size of the SDU to the
-- bytes in of the context, modulo 2^64; it leaves the other statistics of every context alone.
pub encapsulate-counts :
    (t : Transmitter) (s : Sdu) (i : ℕ)
    → i < 8
    → t.free_ctx < 256
    → is_free t.free_ctx i ≡ true
    → ConfigLaws.IsValid t.conf
    → IsSdu s
    → (u : Transmitter) × (encapsulate t s i ≡ some (encap_ok, u))
      × ((j : ℕ)
          → j < 8
          → get_counters (some u) j true ≡ (
              get_counters (some t) j true >>= λ st.
              some (if j == i then one_more st s.size else st)))
encapsulate-counts t s i hi hm free valid v =
    let (c, map, e) = encapsulate-started t s i hi hm free valid v in
    (started t i s c map, e, λ j hj. started_counters t s i j map c hi hj)
