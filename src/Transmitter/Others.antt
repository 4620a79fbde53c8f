-- ===== src/Transmitter/Others.antt =====
-- What the operations of src/encap.c and src/fragmentation.c leave in the other contexts, and when
-- they answer with success.
use librle.Prelude.{
  ℕ, ◌<◌, ◌≡◌, true, false, some, Option, List, arith, ◌∙◌, subst, sym, leb, Bool-cases, inl, inr,
}
use librle.Constants.{Sdu}
use librle.Ctx.{is_free}
use librle.FragBuf.Wf.{IsValid}
use librle.Ppdu.Flow.{Flow}
use librle.Transmitter.{Transmitter, encapsulate, encap_ok, fragment, frag_ok}
use librle.Transmitter.Sending.{IsSending}

-- `u` has the same context `j` as `t`, with the same buffer.
pub record IsSameAt (t u : Transmitter) (j : ℕ) : Type 0 where
  pub conf : u.conf ≡ t.conf
  pub map : u.free_ctx < 256
  pub free : is_free u.free_ctx j ≡ is_free t.free_ctx j
  pub ctx : u.rle_ctx_man j ≡ t.rle_ctx_man j
  pub buf : u.frag_bufs j ≡ t.frag_bufs j

pub IsSending-kept :
    (t u : Transmitter) (j : ℕ) (f : Flow) → IsSameAt t u j → IsSending t j f → IsSending u j f
IsSending-kept t u j f same w = record {
  index = w.index;
  map = same.map;
  busy = same.free ∙ w.busy;
  valid = subst IsValid (sym same.buf) w.valid;
  flow = rw (same.conf, same.ctx, same.buf) w.flow;
  unsent = λ st. rw (same.conf, same.ctx, same.buf) (w.unsent st);
}

-- `rle_encapsulate` returns OK only for a free context among the eight.
pub encapsulate-ok :
    (t u : Transmitter) (s : Sdu) (i : ℕ)
    → encapsulate t s i ≡ some (encap_ok, u)
    → (i < 8) × (is_free t.free_ctx i ≡ true)
unfolding encapsulate
encapsulate-ok t u s i h = ground arith

-- `rle_fragment` returns OK only for a context in use among the eight.
pub fragment-ok :
    (t u : Transmitter) (i burst : ℕ) (ppdu : Option (List ℕ))
    → fragment t i burst ≡ some (record { status = frag_ok; transmitter = u; ppdu = ppdu })
    → (i < 8) × (is_free t.free_ctx i ≡ false)
unfolding fragment
fragment-ok t u i burst ppdu h = elim (Bool-cases (leb 8 i)) [
  | inl far ↦ absurd (ground arith)
  | inr near ↦ elim (Bool-cases (is_free t.free_ctx i)) [
    | inl free ↦ absurd (ground arith)
    | inr busy ↦ (ground arith, busy)
  ]
]
