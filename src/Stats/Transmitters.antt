-- ===== src/Stats/Transmitters.antt =====
-- The statistics of a transmitter, `rle_transmitter_stats_get_*` of src/rle_transmitter.c. A NULL
-- pointer is `none`.
use librle.Prelude.{ℕ, leb, if◌then◌else◌, Option, none, some, Bool, ◌>>=◌}
use librle.Constants.{max_frag_number}
use librle.Ctx.{RleCtx}
use librle.Ctx.Counters.{
  get_counter_in, get_counter_ok, get_counter_dropped, get_counter_bytes_in, get_counter_bytes_ok,
  get_counter_bytes_dropped,
}
use librle.Transmitter.{Transmitter}

-- `get_transmitter_context`; status 1 is `none`.
unfoldable pub get_transmitter_context : Option Transmitter → ℕ → Option RleCtx
get_transmitter_context none fragment_id = none
get_transmitter_context (some t) fragment_id =
    if leb max_frag_number fragment_id then none else some (t.rle_ctx_man fragment_id)

unfoldable pub sdus_in : Option Transmitter → ℕ → ℕ
unfolding get_transmitter_context
sdus_in t fragment_id = elim (get_transmitter_context t fragment_id) [
  | none ↦ 0
  | some c ↦ get_counter_in c
]

unfoldable pub sdus_sent : Option Transmitter → ℕ → ℕ
unfolding get_transmitter_context
sdus_sent t fragment_id = elim (get_transmitter_context t fragment_id) [
  | none ↦ 0
  | some c ↦ get_counter_ok c
]

unfoldable pub sdus_dropped : Option Transmitter → ℕ → ℕ
unfolding get_transmitter_context
sdus_dropped t fragment_id = elim (get_transmitter_context t fragment_id) [
  | none ↦ 0
  | some c ↦ get_counter_dropped c
]

unfoldable pub bytes_in : Option Transmitter → ℕ → ℕ
unfolding get_transmitter_context
bytes_in t fragment_id = elim (get_transmitter_context t fragment_id) [
  | none ↦ 0
  | some c ↦ get_counter_bytes_in c
]

unfoldable pub bytes_sent : Option Transmitter → ℕ → ℕ
unfolding get_transmitter_context
bytes_sent t fragment_id = elim (get_transmitter_context t fragment_id) [
  | none ↦ 0
  | some c ↦ get_counter_bytes_ok c
]

unfoldable pub bytes_dropped : Option Transmitter → ℕ → ℕ
unfolding get_transmitter_context
bytes_dropped t fragment_id = elim (get_transmitter_context t fragment_id) [
  | none ↦ 0
  | some c ↦ get_counter_bytes_dropped c
]

-- `struct rle_transmitter_stats`
pub record TransmitterStats : Type 0 where
  pub sdus_in : ℕ
  pub sdus_sent : ℕ
  pub sdus_dropped : ℕ
  pub bytes_in : ℕ
  pub bytes_sent : ℕ
  pub bytes_dropped : ℕ

-- `rle_transmitter_stats_get_counters`: what it writes where its status is 0; `given` says whether
-- there is a `stats` to write to.
unfoldable pub get_counters : Option Transmitter → ℕ → Bool → Option TransmitterStats
unfolding get_transmitter_context
get_counters t fragment_id given = do
  c ← get_transmitter_context t fragment_id
  if given
      then some (record {
        sdus_in = get_counter_in c;
        sdus_sent = get_counter_ok c;
        sdus_dropped = get_counter_dropped c;
        bytes_in = get_counter_bytes_in c;
        bytes_sent = get_counter_bytes_ok c;
        bytes_dropped = get_counter_bytes_dropped c;
      })
      else none
