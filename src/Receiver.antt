-- ===== src/Receiver.antt =====
-- The state of src/rle_receiver.h and the operations on it that the reassembly shares.
use librle.Prelude.{set_at, ℕ, Bool, leb, if◌then◌else◌, Option, some, ◌>>=◌}
use librle.Constants.{Sdu, max_frag_number}
use librle.Config.{Config}
use librle.Ctx.{
  RleCtx, set_free, incr_counter_dropped, incr_counter_lost, incr_counter_bytes_dropped,
  reset_counters,
}
use librle.RasmBuf.{RasmBuf, get_reassembled_sdu_len}

-- `struct rle_receiver`; `rasm_bufs i` is what `rle_ctx_man[i].buff` points to.
pub record Receiver : Type 0 where
  pub rle_ctx_man : ℕ → RleCtx
  pub rasm_bufs : ℕ → RasmBuf
  pub is_ctx_seqnum_init : ℕ → Bool
  pub conf : Config
  pub free_ctx : ℕ

-- C_OK, C_REASSEMBLY_OK with the SDU that is then in `*reassembled_sdu`, and C_ERROR.
pub data Ret : Type 0 where
  c_ok : Ret
  c_reassembly_ok : Sdu → Ret
  c_error : Ret

abbrev pub set_ctx : Receiver → ℕ → RleCtx → Receiver
set_ctx r i c = record r { rle_ctx_man = set_at r.rle_ctx_man i c }

abbrev pub set_rasm_buf : Receiver → ℕ → RasmBuf → Receiver
set_rasm_buf r i b = record r { rasm_bufs = set_at r.rasm_bufs i b }

-- `rle_receiver_free_context`
unfoldable pub free_context : Receiver → ℕ → Option Receiver
free_context r i = do free_ctx ← set_free r.free_ctx i; some (record r { free_ctx = free_ctx })

-- The counters of an error: one SDU dropped, `lost` packets lost, and the bytes of the context.
unfoldable pub count_error : RleCtx → ℕ → RleCtx
count_error c lost =
    incr_counter_bytes_dropped (incr_counter_lost (incr_counter_dropped c) lost) c.current_counter

-- The exit of a START or CONT PPDU in error: the counters, and the context freed.
unfoldable pub fail : Receiver → ℕ → RleCtx → Option (Ret × Receiver)
fail r i c = do r ← free_context (set_ctx r i (count_error c 1)) i; some (c_error, r)

-- `rle_receiver_stats_get_queue_size`
unfoldable pub get_queue_size : Receiver → ℕ → Option ℕ
get_queue_size r i =
    if leb max_frag_number i then some 0 else get_reassembled_sdu_len (r.rasm_bufs i)

-- `rle_receiver_stats_reset_counters`
unfoldable pub reset_stats : Receiver → ℕ → Receiver
reset_stats r i =
    if leb max_frag_number i then r else set_ctx r i (reset_counters (r.rle_ctx_man i))
