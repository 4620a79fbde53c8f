-- ===== src/Stats/Receivers.antt =====
-- The statistics of a receiver, `rle_receiver_stats_get_*` of src/rle_receiver.c. A NULL
-- pointer is `none`.
use librle.Prelude.{ℕ, leb, if◌then◌else◌, Option, none, some, Bool, ◌>>=◌}
use librle.Constants.{max_frag_number}
use librle.Ctx.{RleCtx}
use librle.Ctx.Counters.{
  get_counter_in, get_counter_ok, get_counter_dropped, get_counter_lost, get_counter_bytes_in,
  get_counter_bytes_ok, get_counter_bytes_dropped,
}
use librle.Receiver.{Receiver}

-- `get_receiver_context`; status 1 is `none`.
unfoldable pub get_receiver_context : Option Receiver → ℕ → Option RleCtx
get_receiver_context none fragment_id = none
get_receiver_context (some r) fragment_id =
    if leb max_frag_number fragment_id then none else some (r.rle_ctx_man fragment_id)

unfoldable pub sdus_received : Option Receiver → ℕ → ℕ
unfolding get_receiver_context
sdus_received r fragment_id = elim (get_receiver_context r fragment_id) [
  | none ↦ 0
  | some c ↦ get_counter_in c
]

unfoldable pub sdus_reassembled : Option Receiver → ℕ → ℕ
unfolding get_receiver_context
sdus_reassembled r fragment_id = elim (get_receiver_context r fragment_id) [
  | none ↦ 0
  | some c ↦ get_counter_ok c
]

unfoldable pub sdus_dropped : Option Receiver → ℕ → ℕ
unfolding get_receiver_context
sdus_dropped r fragment_id = elim (get_receiver_context r fragment_id) [
  | none ↦ 0
  | some c ↦ get_counter_dropped c
]

unfoldable pub sdus_lost : Option Receiver → ℕ → ℕ
unfolding get_receiver_context
sdus_lost r fragment_id = elim (get_receiver_context r fragment_id) [
  | none ↦ 0
  | some c ↦ get_counter_lost c
]

unfoldable pub bytes_received : Option Receiver → ℕ → ℕ
unfolding get_receiver_context
bytes_received r fragment_id = elim (get_receiver_context r fragment_id) [
  | none ↦ 0
  | some c ↦ get_counter_bytes_in c
]

unfoldable pub bytes_reassembled : Option Receiver → ℕ → ℕ
unfolding get_receiver_context
bytes_reassembled r fragment_id = elim (get_receiver_context r fragment_id) [
  | none ↦ 0
  | some c ↦ get_counter_bytes_ok c
]

unfoldable pub bytes_dropped : Option Receiver → ℕ → ℕ
unfolding get_receiver_context
bytes_dropped r fragment_id = elim (get_receiver_context r fragment_id) [
  | none ↦ 0
  | some c ↦ get_counter_bytes_dropped c
]

-- `struct rle_receiver_stats`
pub record ReceiverStats : Type 0 where
  pub sdus_received : ℕ
  pub sdus_reassembled : ℕ
  pub sdus_dropped : ℕ
  pub sdus_lost : ℕ
  pub bytes_received : ℕ
  pub bytes_reassembled : ℕ
  pub bytes_dropped : ℕ

-- `rle_receiver_stats_get_counters`: what it writes where its status is 0; `given` says whether
-- there is a `stats` to write to.
unfoldable pub get_counters : Option Receiver → ℕ → Bool → Option ReceiverStats
unfolding get_receiver_context
get_counters r fragment_id given = do
  c ← get_receiver_context r fragment_id
  if given
      then some (record {
        sdus_received = get_counter_in c;
        sdus_reassembled = get_counter_ok c;
        sdus_dropped = get_counter_dropped c;
        sdus_lost = get_counter_lost c;
        bytes_received = get_counter_bytes_in c;
        bytes_reassembled = get_counter_bytes_ok c;
        bytes_dropped = get_counter_bytes_dropped c;
      })
      else none
