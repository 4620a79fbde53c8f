-- ===== src/Transmitter.antt =====
-- src/rle_transmitter.c, src/encap.c and src/fragmentation.c: SDUs in, PPDUs out. A NULL pointer
-- is `none`; the operations return the transmitter that they leave.
pub mod Sending
pub mod Sent
pub mod Fragments
pub mod Starting
pub mod Progress
pub mod Encapsulated
pub mod Others
use librle.Prelude.{
  set_at, ℕ, Bool, true, false, ◌||◌, not, ltb, leb, ◌==◌, if◌then◌else◌, Option, none, some, List,
  [], assert, ◌>>=◌, ◌>>◌,
}
use librle.Constants.{Sdu, max_pdu_size, max_frag_number}
use librle.Config.{Config}
use librle.Ctx.{
  RleCtx, is_free, set_nonfree, set_free, incr_counter_in, incr_counter_ok, incr_counter_bytes_in,
  incr_counter_bytes_ok, reset_counters,
}
use librle.FragBuf.{
  FragBuf, in_use, frag_buf_init, frag_buf_cpy_sdu, ppdu_init, read_at, get_current_ppdu_len,
  get_remaining_alpdu_length,
}
use librle.Crc.{compute_crc32}
use librle.Alpdu.{push_alpdu_hdr}
use librle.Ppdu.{refused, pushed, push_ppdu_hdr}

-- `struct rle_transmitter`; `frag_bufs i` is what `rle_ctx_man[i].buff` points to.
pub record Transmitter : Type 0 where
  pub rle_ctx_man : ℕ → RleCtx
  pub frag_bufs : ℕ → FragBuf
  pub conf : Config
  pub free_ctx : ℕ

-- `enum rle_encap_status`
pub data EncapStatus : Type 0 where
  encap_ok encap_err encap_err_null_trmt encap_err_null_f_buff : EncapStatus
  encap_err_n_init_f_buff encap_err_sdu_too_big : EncapStatus

-- `enum rle_frag_status`, less the value that the source never uses.
pub data FragStatus : Type 0 where
  frag_ok frag_err frag_err_null_trmt frag_err_null_f_buff : FragStatus
  frag_err_n_init_f_buff frag_err_burst_too_small frag_err_context_is_null : FragStatus

-- `rle_transmitter_free_context`
unfoldable pub free_context : Transmitter → ℕ → Option Transmitter
free_context t frag_id = do
  free_ctx ← set_free t.free_ctx frag_id
  some (record t { free_ctx = free_ctx })

-- The CRC that `rle_encap_contextless` keeps: `compute_crc32(&frag_buf->sdu_info)`.
unfoldable pub store_crc : FragBuf → Config → Option FragBuf
store_crc b conf =
    if conf.allow_alpdu_sequence_number == 0
    then (if conf.allow_alpdu_crc == 1
        then (do
          bytes ← read_at b b.sdu_info.buffer b.sdu_info.size
          some (record b { crc = compute_crc32 b.sdu_info.protocol_type bytes }))
        else some b)
    else some b

-- `rle_encap_contextless` behind its NULL checks.
unfoldable pub encap_in_buffer : Config → FragBuf → Option (EncapStatus × FragBuf)
encap_in_buffer conf b =
    if not (in_use b)
    then some (encap_err_n_init_f_buff, b)
    else do b ← store_crc b conf; b ← push_alpdu_hdr b conf; some (encap_ok, b)

-- `rle_encap_contextless`
unfoldable pub encap_contextless :
    Option Transmitter → Option FragBuf → Option (EncapStatus × Option FragBuf)
encap_contextless none b = some (encap_err_null_trmt, b)
encap_contextless (some t) none = some (encap_err_null_f_buff, none)
encap_contextless (some t) (some b) = do
  (status, b) ← encap_in_buffer t.conf b
  some (status, some b)

-- The asserted success of `rle_encap_contextless`.
abbrev is_encap_ok : EncapStatus → Bool
is_encap_ok encap_ok = true
is_encap_ok _ = false

-- `rle_encapsulate` behind its NULL checks.
unfoldable pub encapsulate : Transmitter → Sdu → ℕ → Option (EncapStatus × Transmitter)
encapsulate t sdu frag_id =
    if leb max_frag_number frag_id
    then some (encap_err, t)
    else if sdu.size == 0 || ltb max_pdu_size sdu.size
    then (do t ← free_context t frag_id; some (encap_err_sdu_too_big, t))
    else if not (is_free t.free_ctx frag_id)
    then some (encap_err, t)
    else (do
      free_ctx ← set_nonfree t.free_ctx frag_id
      b ← frag_buf_init (t.frag_bufs frag_id)
      (copied, b) ← frag_buf_cpy_sdu b sdu
      assert (copied == 0)
      (status, b) ← encap_in_buffer t.conf b
      assert (is_encap_ok status)
      let ctx = incr_counter_bytes_in (incr_counter_in (t.rle_ctx_man frag_id)) sdu.size
      some (
        encap_ok,
        record t {
          rle_ctx_man = set_at t.rle_ctx_man frag_id ctx;
          frag_bufs = set_at t.frag_bufs frag_id b;
          free_ctx = free_ctx;
        },
      ))

-- `rle_encapsulate`
unfoldable pub rle_encapsulate :
    Option Transmitter → Option Sdu → ℕ → Option (EncapStatus × Option Transmitter)
rle_encapsulate none sdu frag_id = some (encap_err_null_trmt, none)
rle_encapsulate (some t) none frag_id = some (encap_err, some t)
rle_encapsulate (some t) (some sdu) frag_id = do
  (status, t) ← encapsulate t sdu frag_id
  some (status, some t)

-- What `rle_fragment` returns. `ppdu` is what `*ppdu` and `*ppdu_length` say: `none` if
-- `*ppdu_length` is not written, the empty list if it is set to 0.
pub record Fragment : Type 0 where
  pub status : FragStatus
  pub transmitter : Transmitter
  pub ppdu : Option (List ℕ)

-- The end of `rle_fragment`, once a PPDU is built: the PPDU handed out, the counters, and the
-- context freed behind the last fragment.
unfoldable pub finish_fragment : Transmitter → ℕ → FragBuf → RleCtx → Option Fragment
finish_fragment t frag_id b ctx = do
  len ← get_current_ppdu_len b
  ppdu ← read_at b b.ppdu.start len
  assert (ltb 2 len)
  remaining ← get_remaining_alpdu_length b
  let t = record t { frag_bufs = set_at t.frag_bufs frag_id b }
  t ← (if remaining == 0 then free_context t frag_id else some t)
  let ctx = if remaining == 0 then incr_counter_ok ctx else ctx
  some (record {
    status = frag_ok;
    transmitter = record t {
      rle_ctx_man = set_at t.rle_ctx_man frag_id (incr_counter_bytes_ok ctx len);
    };
    ppdu = some ppdu;
  })

-- `rle_fragment` behind its NULL checks.
unfoldable pub fragment : Transmitter → ℕ → ℕ → Option Fragment
fragment t frag_id burst_size =
    if leb max_frag_number frag_id
    then some (record { status = frag_err; transmitter = t; ppdu = none })
    else if is_free t.free_ctx frag_id
    then (do
      t ← free_context t frag_id
      some (record { status = frag_err_context_is_null; transmitter = t; ppdu = some [] }))
    else (do
      b ← ppdu_init (t.frag_bufs frag_id)
      r ← push_ppdu_hdr b t.conf burst_size (some (t.rle_ctx_man frag_id))
      elim r [
        | refused ↦ some (record {
          status = frag_err_burst_too_small;
          transmitter = record t { frag_bufs = set_at t.frag_bufs frag_id b };
          ppdu = some [];
        })
        | pushed b none ↦ none
        | pushed b (some ctx) ↦ finish_fragment t frag_id b ctx
      ])

-- What `rle_frag_contextless` returns: the status, the buffer, and the PPDU where there is one.
abbrev pub ContextlessFragment : Type 0
ContextlessFragment = FragStatus × FragBuf × Option (List ℕ)

-- `rle_frag_contextless` behind its NULL checks; `size` is `*ppdu_length` at the call.
unfoldable pub frag_contextless : Config → FragBuf → ℕ → Option ContextlessFragment
frag_contextless conf b size =
    if not (in_use b)
    then some (frag_err_n_init_f_buff, b, none)
    else if ltb size 2
    then some (frag_err_burst_too_small, b, none)
    else do
      b ← ppdu_init b
      r ← push_ppdu_hdr b conf size none
      elim r [
        | refused ↦ some (frag_err, b, none)
        | pushed b _ ↦ do
          len ← get_current_ppdu_len b
          ppdu ← read_at b b.ppdu.start len
          some (frag_ok, b, some ppdu)
      ]

-- `rle_transmitter_stats_get_queue_size`
unfoldable pub get_queue_size : Transmitter → ℕ → Option ℕ
get_queue_size t frag_id =
    if leb max_frag_number frag_id
    then some 0
    else if is_free t.free_ctx frag_id
    then some 0
    else get_remaining_alpdu_length (t.frag_bufs frag_id)

-- `rle_transmitter_stats_reset_counters`
unfoldable pub reset_stats : Transmitter → ℕ → Transmitter
reset_stats t frag_id = if leb max_frag_number frag_id then t else record t {
  rle_ctx_man = set_at t.rle_ctx_man frag_id (reset_counters (t.rle_ctx_man frag_id));
}
