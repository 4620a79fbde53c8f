-- ===== src/Transmitter/Sending.antt =====
-- `rle_fragment` (src/fragmentation.c) against the flow that a context of the transmitter stands
-- for.
use librle.Prelude.{set_at, ℕ, ◌<◌, ◌≡◌, ◌≢◌, false, Option, none, some, [], length, ◌==◌}
use librle.Ctx.{is_free}
use librle.FragBuf.{FragBuf}
use librle.FragBuf.Wf.{IsValid}
use librle.Ppdu.Flow.{Flow, Sent}
use librle.Ppdu.Refine.{IsFlow, IsUnsentFlow, Numbers}
use librle.Transmitter.{Transmitter, Fragment, frag_ok, frag_err_burst_too_small}

-- Context `i` is in use and has the flow `f` to send.
pub record IsSending (t : Transmitter) (i : ℕ) (f : Flow) : Type 0 where
  pub index : i < 8
  pub map : t.free_ctx < 256
  pub busy : is_free t.free_ctx i ≡ false
  pub valid : IsValid (t.frag_bufs i)
  pub flow : IsFlow (t.frag_bufs i) t.conf (t.rle_ctx_man i) f
  pub unsent : f.started ≡ false → IsUnsentFlow (t.frag_bufs i) t.conf (t.rle_ctx_man i) f

-- `u` is `t` with context `i` gone on to the flow `g`; it is free if nothing is left.
pub record IsSentTo (t u : Transmitter) (i : ℕ) (g : Flow) : Type 0 where
  pub conf : u.conf ≡ t.conf
  pub map : u.free_ctx < 256
  pub id : (u.rle_ctx_man i).frag_id ≡ g.frag_id
  pub seq : Numbers t.conf (u.rle_ctx_man i) g
  pub others_free : (j : ℕ) → j < 8 → (j == i) ≡ false → is_free u.free_ctx j ≡ is_free t.free_ctx j
  pub others :
      (j : ℕ)
      → (j == i) ≡ false
      → (u.rle_ctx_man j ≡ t.rle_ctx_man j) × (u.frag_bufs j ≡ t.frag_bufs j)
  pub freed : is_free u.free_ctx i ≡ (length g.left == 0)
  pub next : g.left ≢ [] → IsSending u i g

-- `fragment` answers as the flow does.
abbrev pub Answers : Transmitter → ℕ → Sent → Option Fragment → Type 0
Answers t i none r =
    (b : FragBuf) × (r
      ≡ some (record {
        status = frag_err_burst_too_small;
        transmitter = record t { frag_bufs = set_at t.frag_bufs i b };
        ppdu = some [];
      }))
Answers t i (some (ppdu, g)) r =
    (u : Transmitter) × (r ≡ some (record { status = frag_ok; transmitter = u; ppdu = some ppdu }))
    × IsSentTo t u i g
