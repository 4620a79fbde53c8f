-- ===== src/Ctx.antt =====
-- src/rle_ctx.h and src/rle_ctx.c: the counters of a context, its sequence number, and the bit
-- map of free contexts. The buffer of a context stands beside it in the transmitter and the
-- receiver: `buff` is the only pointer to it.
pub mod Laws
pub mod Map
pub mod Counters
use librle.Prelude.{
  ℕ, ◌+◌, ◌-◌, ◌/◌, ◌%◌, ◌^◌, bit_and, bit_or, Bool, true, false, ◌==◌, leb, Option, some, ◌>>◌,
  assert,
}
use librle.Prelude.Int.{add_size}
use librle.Constants.{max_seq_no, max_frag_id}

-- `struct link_status`
pub record LinkStatus : Type 0 where
  pub counter_in : ℕ
  pub counter_ok : ℕ
  pub counter_dropped : ℕ
  pub counter_lost : ℕ
  pub counter_bytes_in : ℕ
  pub counter_bytes_ok : ℕ
  pub counter_bytes_dropped : ℕ

-- `struct rle_ctx_mngt`, less `buff` and the unused `lk_type`.
pub record RleCtx : Type 0 where
  pub frag_id : ℕ
  pub next_seq_nb : ℕ
  pub use_crc : Bool
  pub current_counter : ℕ
  pub lk_status : LinkStatus

-- `rle_ctx_reset_counters`
unfoldable pub reset_counters : RleCtx → RleCtx
reset_counters c = record c {
  lk_status = record {
    counter_in = 0;
    counter_ok = 0;
    counter_dropped = 0;
    counter_lost = 0;
    counter_bytes_in = 0;
    counter_bytes_ok = 0;
    counter_bytes_dropped = 0;
  };
}

unfoldable pub incr_counter_in : RleCtx → RleCtx
incr_counter_in c = record c {
  lk_status = record c.lk_status { counter_in = add_size c.lk_status.counter_in 1 };
}

unfoldable pub incr_counter_ok : RleCtx → RleCtx
incr_counter_ok c = record c {
  lk_status = record c.lk_status { counter_ok = add_size c.lk_status.counter_ok 1 };
}

unfoldable pub incr_counter_dropped : RleCtx → RleCtx
incr_counter_dropped c = record c {
  lk_status = record c.lk_status { counter_dropped = add_size c.lk_status.counter_dropped 1 };
}

unfoldable pub incr_counter_lost : RleCtx → ℕ → RleCtx
incr_counter_lost c val = record c {
  lk_status = record c.lk_status { counter_lost = add_size c.lk_status.counter_lost val };
}

unfoldable pub incr_counter_bytes_in : RleCtx → ℕ → RleCtx
incr_counter_bytes_in c val = record c {
  lk_status = record c.lk_status { counter_bytes_in = add_size c.lk_status.counter_bytes_in val };
}

unfoldable pub incr_counter_bytes_ok : RleCtx → ℕ → RleCtx
incr_counter_bytes_ok c val = record c {
  lk_status = record c.lk_status { counter_bytes_ok = add_size c.lk_status.counter_bytes_ok val };
}

unfoldable pub incr_counter_bytes_dropped : RleCtx → ℕ → RleCtx
incr_counter_bytes_dropped c val = record c {
  lk_status = record c.lk_status {
    counter_bytes_dropped = add_size c.lk_status.counter_bytes_dropped val;
  };
}

-- `flush` of src/rle_ctx.c
unfoldable pub flush : RleCtx → RleCtx
unfolding reset_counters
flush c = reset_counters (record c { frag_id = 0xff; next_seq_nb = 0xff; use_crc = false })

unfoldable pub set_seq_nb : RleCtx → ℕ → RleCtx
set_seq_nb c val = record c { next_seq_nb = val }

unfoldable pub incr_seq_nb : RleCtx → RleCtx
incr_seq_nb c = record c { next_seq_nb = (c.next_seq_nb + 1) % max_seq_no }

-- `rle_ctx_is_free`: `(contexts >> frag_id) & 0x1` is 0.
unfoldable pub is_free : ℕ → ℕ → Bool
is_free contexts frag_id = bit_and (contexts / 2 ^ frag_id) 1 == 0

-- `rle_ctx_set_nonfree`: the result is stored in a `uint8_t`.
unfoldable pub set_nonfree : ℕ → ℕ → Option ℕ
set_nonfree contexts frag_id = do
  assert (leb frag_id max_frag_id)
  some (bit_or contexts (2 ^ frag_id) % 256)

-- `rle_ctx_set_free`: `~` acts on the 32 bits of an `unsigned`.
unfoldable pub set_free : ℕ → ℕ → Option ℕ
set_free contexts frag_id = do
  assert (leb frag_id max_frag_id)
  some (bit_and contexts (2 ^ 32 - 1 - 2 ^ frag_id) % 256)
