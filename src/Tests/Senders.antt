-- ===== src/Tests/Senders.antt =====
-- An SDU that is encapsulated, at a concrete transmitter.
use librle.Prelude.{ℕ, ◌<◌, ◌≡◌, false, some, refl, arith, ◌==◌}
use librle.Prelude.Memory.{store, slice}
use librle.Ctx.{is_free}
use librle.Alpdu.{push_alpdu_hdr}
use librle.Alpdu.Layout.{Layout, layout}
use librle.Alpdu.Push.{Holds, push_alpdu_hdr-Holds}
use librle.Transmitter.{Transmitter, encap_ok, encapsulate}
use librle.Transmitter.Sending.{IsSending}
use librle.Transmitter.Starting.{flow_of, encapsulate-IsSending}
use librle.Tests.Fixtures.{config, fresh_ctx, fresh_frag_buf, transmitter, unsent_buf, ipv4_sdu}

push_alpdu_hdr-Holds_example :
    (l : Layout) × (layout (config 0x31 0) 0x0800 ipv4_sdu.buffer ≡ some l)
    × Holds unsent_buf l (push_alpdu_hdr unsent_buf (config 0x31 0))
unfolding slice store
push_alpdu_hdr-Holds_example =
    push_alpdu_hdr-Holds unsent_buf (config 0x31 0) ipv4_sdu.buffer
      (record {
        start = omega arith;
        same_start = refl;
        same_end = refl;
        cur = refl;
        bytes = refl;
        len = refl;
        some_sdu = omega arith;
        space = omega arith;
      })
      refl

encapsulate-IsSending_example :
    (l : Layout) × (layout (config 0x31 1) 0x0800 ipv4_sdu.buffer ≡ some l)
    × (u : Transmitter) × (encapsulate (transmitter (config 0x31 1)) ipv4_sdu 3
        ≡ some (encap_ok, u))
    × (u.conf ≡ config 0x31 1)
    × IsSending u 3 (flow_of (config 0x31 1) (fresh_ctx 3) ipv4_sdu l)
    × ((j : ℕ) → j < 8 → (j == 3) ≡ false → is_free u.free_ctx j ≡ is_free 0 j)
    × ((j : ℕ)
        → (j == 3) ≡ false
        → (u.rle_ctx_man j ≡ fresh_ctx j) × (u.frag_bufs j ≡ fresh_frag_buf))
unfolding is_free
encapsulate-IsSending_example =
    encapsulate-IsSending (transmitter (config 0x31 1)) ipv4_sdu 3 (omega arith) (omega arith) refl
      (record {
        omission = omega arith;
        compression = omega arith;
        crc = omega arith;
        seqno = omega arith;
        protected = omega arith;
        header_map = refl;
        ppdu_label = omega arith;
        payload_label = omega arith;
        alpdu_label = omega arith;
      })
      (record { whole = refl; some_bytes = omega arith; small = omega arith })
