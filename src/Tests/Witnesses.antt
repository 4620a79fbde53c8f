-- ===== src/Tests/Witnesses.antt =====
-- The theorems at concrete transmitters, headers, buffers and frames.
use librle.Prelude.{ℕ, some, List, refl, arith}
use librle.Prelude.Memory.{store, slice}
use librle.Config.{use_alpdu_crc}
use librle.Ctx.{is_free}
use librle.Ptype.{get_alpdu_label_type}
use librle.FragBuf.Wf.{IsValid}
use librle.Ppdu.{push_ppdu_hdr}
use librle.Ppdu.Flow.{next_ppdu, Flow}
use librle.Ppdu.Refine.{IsFlow, IsUnsentFlow, Agrees}
use librle.Ppdu.Refine.Whole.{push_ppdu_hdr-Agrees}
use librle.Transmitter.{fragment}
use librle.Transmitter.Sending.{IsSending, Answers}
use librle.Transmitter.Fragments.{fragment-Answers}
use librle.Transmitter.Progress.{IsStep, fragment-IsStep}
use librle.Tests.Fixtures.{
  config, fresh_ctx, unsent_buf, started_buf, unsent_flow, started_flow, busy_transmitter,
  started_transmitter,
}

unsent_buf-IsValid : IsValid unsent_buf
unsent_buf-IsValid = record {
  room = omega arith;
  hdr = omega arith;
  used = omega arith;
  trailer = omega arith;
  inside = omega arith;
  sent = omega arith;
  left = omega arith;
}

unsent_buf-IsFlow : IsFlow unsent_buf (config 0x0d 0) (fresh_ctx 3) unsent_flow
unfolding use_alpdu_crc slice store
unsent_buf-IsFlow = record {
  frag_id = refl;
  use_crc = refl;
  started = refl;
  left = refl;
  trailer_len = refl;
  whole = λ h. cc;
  seq = λ h. (0, refl, refl);
}

unsent_buf-IsUnsentFlow : IsUnsentFlow unsent_buf (config 0x0d 0) (fresh_ctx 3) unsent_flow
unfolding use_alpdu_crc get_alpdu_label_type
unsent_buf-IsUnsentFlow = record {
  unsent = record { at_start = refl; no_trailer = refl; space = omega arith };
  trailer = refl;
  hdr_len = refl;
  label_type = refl;
}

push_ppdu_hdr-Agrees_example :
    Agrees unsent_buf
      (config 0x0d 0)
      (next_ppdu unsent_flow 8)
      (push_ppdu_hdr unsent_buf (config 0x0d 0) 8 (some (fresh_ctx 3)))
push_ppdu_hdr-Agrees_example =
    push_ppdu_hdr-Agrees unsent_buf (config 0x0d 0) (fresh_ctx 3) unsent_flow 8
      (record { valid = unsent_buf-IsValid; ppdu_start = refl; ppdu_end = refl }) unsent_buf-IsFlow
      (λ h. unsent_buf-IsUnsentFlow)

pub busy_transmitter-IsSending : IsSending (busy_transmitter unsent_buf) 3 unsent_flow
unfolding is_free
busy_transmitter-IsSending = record {
  index = omega arith;
  map = omega arith;
  busy = refl;
  valid = unsent_buf-IsValid;
  flow = unsent_buf-IsFlow;
  unsent = λ h. unsent_buf-IsUnsentFlow;
}

fragment-Answers_example :
    Answers
      (busy_transmitter unsent_buf)
      3
      (next_ppdu unsent_flow 8)
      (fragment (busy_transmitter unsent_buf) 3 8)
fragment-Answers_example =
    fragment-Answers (busy_transmitter unsent_buf) 3 8 unsent_flow busy_transmitter-IsSending

started_buf-IsSending : IsSending (started_transmitter started_buf) 3 started_flow
unfolding is_free use_alpdu_crc slice store
started_buf-IsSending = record {
  index = omega arith;
  map = omega arith;
  busy = refl;
  valid = record {
    room = omega arith;
    hdr = omega arith;
    used = omega arith;
    trailer = omega arith;
    inside = omega arith;
    sent = omega arith;
    left = omega arith;
  };
  flow = record {
    frag_id = refl;
    use_crc = refl;
    started = refl;
    left = refl;
    trailer_len = refl;
    whole = λ h. omega arith;
    seq = λ h. (0, refl, refl);
  };
  unsent = λ h. cc;
}

fragment-IsStep_example :
    (ppdu : List ℕ) × (g : Flow) × IsStep started_flow 6 ppdu g
    × Answers
        (started_transmitter started_buf)
        3
        (some (ppdu, g))
        (fragment (started_transmitter started_buf) 3 6)
fragment-IsStep_example =
    fragment-IsStep (started_transmitter started_buf) 3 6 started_flow started_buf-IsSending refl
      (omega arith)
