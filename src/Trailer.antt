-- ===== src/Trailer.antt =====
-- src/trailer.c: the CRC or the sequence number behind an ALPDU.
pub mod Laws
use librle.Prelude.{
  ℕ, ◌+◌, ◌-◌, ◌*◌, ◌/◌, ◌%◌, ◌^◌, Bool, true, false, leb, ◌==◌, if◌then◌else◌, Option, none, some,
  List, [], ◌∷◌, get_elem?, ◌>>=◌, read_bytes,
}
use librle.Prelude.Int.{add_size}
use librle.Constants.{Sdu, max_seq_no, crc_size}
use librle.Config.{Config, use_alpdu_crc}
use librle.Ctx.{RleCtx, set_seq_nb, incr_seq_nb}
use librle.FragBuf.{FragBuf, write_at, alpdu_put}
use librle.Crc.{compute_crc32}

-- A `uint32_t` in memory, low byte first.
unfoldable pub le32_bytes : ℕ → List ℕ
le32_bytes v = v % 256 ∷ v / 256 % 256 ∷ v / 65536 % 256 ∷ v / 16777216 % 256 ∷ []

unfoldable pub read_le32 : List ℕ → Option ℕ
read_le32 bytes = do
  b0 ← get_elem? bytes 0
  b1 ← get_elem? bytes 1
  b2 ← get_elem? bytes 2
  b3 ← get_elem? bytes 3
  some (b0 + b1 * 256 + b2 * 65536 + b3 * 16777216)

-- `push_alpdu_trailer`, which always returns 1 and whose callers do not look at that.
unfoldable pub push_alpdu_trailer : FragBuf → Config → RleCtx → Option (FragBuf × RleCtx)
push_alpdu_trailer b conf ctx =
    if use_alpdu_crc conf
    then (do b ← write_at b b.alpdu.end (le32_bytes b.crc); b ← alpdu_put b crc_size; some (b, ctx))
    else (do
      b ← write_at b b.alpdu.end (ctx.next_seq_nb ∷ [])
      let ctx = incr_seq_nb ctx
      b ← alpdu_put b 1
      some (b, ctx))

-- What `check_alpdu_trailer` returns, and writes through its pointers.
pub record TrailerCheck : Type 0 where
  pub status : ℕ
  pub ctx : RleCtx
  pub is_ctx_seqnum_init : Bool
  pub lost_packets : ℕ

-- `(received_seq_no - next_seq_no) % RLE_MAX_SEQ_NO` is computed on `int`, where `%` keeps the
-- sign of its left side, and the result is converted to `size_t`.
unfoldable pub lost_seq_nos : ℕ → ℕ → ℕ
lost_seq_nos received next =
    if leb next received
    then (received - next) % max_seq_no
    else (2 ^ 64 - (next - received) % max_seq_no) % 2 ^ 64

-- The branch of `check_alpdu_trailer` for a sequence number.
unfoldable pub check_seqno : ℕ → RleCtx → Bool → TrailerCheck
unfolding set_seq_nb incr_seq_nb lost_seq_nos
check_seqno received ctx false = record {
  status = 0;
  ctx = incr_seq_nb (set_seq_nb ctx received);
  is_ctx_seqnum_init = true;
  lost_packets = 0;
}
check_seqno received ctx true =
    if received == ctx.next_seq_nb
    then record { status = 0; ctx = incr_seq_nb ctx; is_ctx_seqnum_init = true; lost_packets = 0 }
    else if received == 0
    then record {
      status = 0;
      ctx = incr_seq_nb (set_seq_nb ctx received);
      is_ctx_seqnum_init = true;
      lost_packets = 0;
    }
    else record {
      status = 1;
      ctx = incr_seq_nb (set_seq_nb ctx received);
      is_ctx_seqnum_init = true;
      lost_packets = lost_seq_nos received ctx.next_seq_nb;
    }

-- `check_alpdu_trailer`: `trailer` is what its pointer sees.
unfoldable pub check_alpdu_trailer : List ℕ → Sdu → RleCtx → Bool → Option TrailerCheck
check_alpdu_trailer trailer sdu ctx seqnum_init =
    if ctx.use_crc
    then (do
      bytes ← read_bytes sdu.buffer sdu.size
      received ← read_le32 trailer
      let wrong : ℕ = if received == compute_crc32 sdu.protocol_type bytes then 0 else 1
      some (record {
        status = wrong;
        ctx = ctx;
        is_ctx_seqnum_init = seqnum_init;
        lost_packets = wrong;
      }))
    else (do received ← get_elem? trailer 0; some (check_seqno received ctx seqnum_init))
