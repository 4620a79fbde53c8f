-- ===== src/Trailer/Laws.antt =====
-- The checks of src/trailer.c at the receiver.
use librle.Prelude.{
  ℕ, ◌+◌, ◌-◌, ◌%◌, ◌^◌, ◌≤◌, ◌<◌, ◌≡◌, ◌≢◌, Bool, true, false, some, List, ◌∷◌, ◌++◌, arith,
}
use librle.Constants.{Sdu}
use librle.Ctx.{RleCtx}
use librle.Trailer.{
  TrailerCheck, le32_bytes, read_le32, lost_seq_nos, check_seqno, check_alpdu_trailer,
}

-- A 32-bit trailer is read back, whatever follows it.
pub read_le32-le32_bytes :
    (v : ℕ) (rest : List ℕ) → v < 2 ^ 32 → read_le32 (le32_bytes v ++ rest) ≡ some v
unfolding read_le32 le32_bytes
read_le32-le32_bytes v rest h = ground arith

-- A context without CRC that has received no ALPDU yet takes any sequence number; one that has
-- takes the number that it expects, and zero, which it takes for a restart of the sender. Any
-- other number is refused. In each case the number that follows is expected next.
pub check_seqno_cases :
    (seq : ℕ) (rest : List ℕ) (sdu : Sdu) (ctx : RleCtx) (init : Bool)
    → ctx.use_crc ≡ false
    → (r : TrailerCheck) × (check_alpdu_trailer (seq ∷ rest) sdu ctx init ≡ some r)
      × (r.is_ctx_seqnum_init ≡ true)
      × (r.ctx.next_seq_nb ≡ (seq + 1) % 256)
      × (init ≡ false → r.status ≡ 0)
      × (init ≡ true → seq ≡ ctx.next_seq_nb → r.status ≡ 0)
      × (init ≡ true → seq ≡ 0 → r.status ≡ 0)
      × (init ≡ true → seq ≢ ctx.next_seq_nb → seq ≢ 0 → r.status ≡ 1)
unfolding check_alpdu_trailer check_seqno
check_seqno_cases seq rest sdu ctx init h = (
  check_seqno seq ctx init,
  ground arith,
  ground arith,
  ground arith,
  ground arith,
  ground arith,
  ground arith,
  ground arith,
)

-- Where the received number is the larger one, the packets counted as lost are those between.
pub lost_seq_nos_ahead :
    (received next : ℕ)
    → received < 256
    → next ≤ received
    → lost_seq_nos received next ≡ received - next
unfolding lost_seq_nos
lost_seq_nos_ahead received next h k = ground arith

-- Where the numbers have gone round at 256, the count is not that of the packets between, which
-- is at most 255: the negative `int` becomes a `size_t` of at least 2^64 - 255.
pub lost_seq_nos_wrapped :
    (received next : ℕ)
    → received < next
    → next < 256
    → (2 ^ 64 ≤ lost_seq_nos received next + 255)
      × (lost_seq_nos received next ≢ (received + 256 - next) % 256)
unfolding lost_seq_nos
lost_seq_nos_wrapped received next h k = ground arith
