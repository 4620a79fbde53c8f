-- ===== src/FragBuf/Wf.antt =====
-- The order of the pointers of a fragmentation buffer in use, and the bytes between them.
use librle.Prelude.{ℕ, ◌+◌, ◌-◌, ◌≤◌, ◌<◌, ◌≡◌, List}
use librle.Prelude.Memory.{slice}
use librle.FragBuf.{FragBuf, f_buff_len}

-- ALPDU header, SDU and trailer follow one another inside the array; what is sent of the ALPDU
-- ends at `cur_pos`, and four bytes are free in front of the ALPDU for a PPDU header.
pub record IsValid (b : FragBuf) : Type 0 where
  pub room : 4 ≤ b.alpdu.start
  pub hdr : b.alpdu.start ≤ b.sdu.start
  pub used : b.sdu.start < b.sdu.end
  pub trailer : b.sdu.end ≤ b.alpdu.end
  pub inside : b.alpdu.end ≤ f_buff_len
  pub sent : b.alpdu.start ≤ b.cur_pos
  pub left : b.cur_pos < b.alpdu.end

-- The buffer as `frag_buf_ppdu_init` leaves it.
pub record IsReady (b : FragBuf) : Type 0 where
  pub valid : IsValid b
  pub ppdu_start : b.ppdu.start ≡ b.cur_pos
  pub ppdu_end : b.ppdu.end ≡ b.cur_pos

-- Nothing of the ALPDU is sent, and there is room for a trailer behind it.
pub record IsUnsent (b : FragBuf) : Type 0 where
  pub at_start : b.cur_pos ≡ b.alpdu.start
  pub no_trailer : b.alpdu.end ≡ b.sdu.end
  pub space : b.sdu.end + 4 ≤ f_buff_len

-- The bytes of the ALPDU that are not sent yet.
abbrev pub left_bytes : FragBuf → List ℕ
left_bytes b = slice b.buffer b.cur_pos (b.alpdu.end - b.cur_pos)
