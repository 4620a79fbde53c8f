-- ===== src/Ctx/Counters.antt =====
-- The counters of a context, `rle_ctx_set_counter_*`, `rle_ctx_reset_counter_*` and
-- `rle_ctx_get_counter_*` of src/rle_ctx.h.
use librle.Prelude.{ℕ}
use librle.Ctx.{RleCtx}

unfoldable pub set_counter_in : RleCtx → ℕ → RleCtx
set_counter_in c val = record c { lk_status = record c.lk_status { counter_in = val } }

unfoldable pub reset_counter_in : RleCtx → RleCtx
unfolding set_counter_in
reset_counter_in c = set_counter_in c 0

unfoldable pub get_counter_in : RleCtx → ℕ
get_counter_in c = c.lk_status.counter_in

unfoldable pub set_counter_ok : RleCtx → ℕ → RleCtx
set_counter_ok c val = record c { lk_status = record c.lk_status { counter_ok = val } }

unfoldable pub reset_counter_ok : RleCtx → RleCtx
unfolding set_counter_ok
reset_counter_ok c = set_counter_ok c 0

unfoldable pub get_counter_ok : RleCtx → ℕ
get_counter_ok c = c.lk_status.counter_ok

unfoldable pub set_counter_dropped : RleCtx → ℕ → RleCtx
set_counter_dropped c val = record c { lk_status = record c.lk_status { counter_dropped = val } }

unfoldable pub reset_counter_dropped : RleCtx → RleCtx
unfolding set_counter_dropped
reset_counter_dropped c = set_counter_dropped c 0

unfoldable pub get_counter_dropped : RleCtx → ℕ
get_counter_dropped c = c.lk_status.counter_dropped

unfoldable pub set_counter_lost : RleCtx → ℕ → RleCtx
set_counter_lost c val = record c { lk_status = record c.lk_status { counter_lost = val } }

unfoldable pub reset_counter_lost : RleCtx → RleCtx
unfolding set_counter_lost
reset_counter_lost c = set_counter_lost c 0

unfoldable pub get_counter_lost : RleCtx → ℕ
get_counter_lost c = c.lk_status.counter_lost

unfoldable pub set_counter_bytes_in : RleCtx → ℕ → RleCtx
set_counter_bytes_in c val = record c { lk_status = record c.lk_status { counter_bytes_in = val } }

unfoldable pub reset_counter_bytes_in : RleCtx → RleCtx
unfolding set_counter_bytes_in
reset_counter_bytes_in c = set_counter_bytes_in c 0

unfoldable pub get_counter_bytes_in : RleCtx → ℕ
get_counter_bytes_in c = c.lk_status.counter_bytes_in

unfoldable pub set_counter_bytes_ok : RleCtx → ℕ → RleCtx
set_counter_bytes_ok c val = record c { lk_status = record c.lk_status { counter_bytes_ok = val } }

unfoldable pub reset_counter_bytes_ok : RleCtx → RleCtx
unfolding set_counter_bytes_ok
reset_counter_bytes_ok c = set_counter_bytes_ok c 0

unfoldable pub get_counter_bytes_ok : RleCtx → ℕ
get_counter_bytes_ok c = c.lk_status.counter_bytes_ok

unfoldable pub set_counter_bytes_dropped : RleCtx → ℕ → RleCtx
set_counter_bytes_dropped c val = record c {
  lk_status = record c.lk_status { counter_bytes_dropped = val };
}

unfoldable pub reset_counter_bytes_dropped : RleCtx → RleCtx
unfolding set_counter_bytes_dropped
reset_counter_bytes_dropped c = set_counter_bytes_dropped c 0

unfoldable pub get_counter_bytes_dropped : RleCtx → ℕ
get_counter_bytes_dropped c = c.lk_status.counter_bytes_dropped
