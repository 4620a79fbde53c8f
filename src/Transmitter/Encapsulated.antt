-- ===== src/Transmitter/Encapsulated.antt =====
-- The buffer of `rle_encapsulate` (src/encap.c) once the SDU is copied.
use librle.Prelude.{
  zero, suc, ℕ, ◌+◌, ◌≤◌, ◌<◌, ◌≡◌, true, some, List, [], ◌∷◌, length, take, arith, refl, ap,
  if◌then◌else◌, ◌>>=◌,
}
use librle.Prelude.Memory.{zeroed, store, slice, slice-store_self}
use librle.Constants.{Sdu}
use librle.Config.{Config, use_alpdu_crc}
use librle.Config.Laws as ConfigLaws
use librle.Crc.{compute_crc32}
use librle.FragBuf.{
  FragBuf, in_use, frag_buf_init, frag_buf_cpy_sdu, read_at, write_at, sdu_put, ptrs_put, ptrs_set,
}
use librle.Alpdu.{push_alpdu_hdr}
use librle.Alpdu.Filled.{IsFilled}
use librle.Transmitter.{encap_ok, store_crc, encap_in_buffer}

-- The buffer with the SDU copied into it.
unfoldable pub filled : FragBuf → Sdu → FragBuf
filled b s = record {
  buffer = store zeroed 7 s.buffer;
  cur_pos = 7;
  sdu_info = record { buffer = 7; protocol_type = s.protocol_type; size = s.size };
  crc = b.crc;
  sdu = record { start = 7; end = 7 + s.size };
  alpdu = record { start = 7; end = 7 + s.size };
  ppdu = record { start = 7; end = 7 };
}

-- An SDU that the transmitter takes.
pub record IsSdu (s : Sdu) : Type 0 where
  pub whole : length s.buffer ≡ s.size
  pub some_bytes : 0 < s.size
  pub small : s.size ≤ 4088

take-length : (xs : List ℕ) (n : ℕ) → length xs ≡ n → take n xs ≡ xs
take-length [] zero h = refl
take-length [] (suc n) h = refl
take-length (x ∷ xs) zero h = absurd (omega arith)
take-length (x ∷ xs) (suc n) h = ap (λ ys. x ∷ ys) (take-length xs n (omega arith))

-- The buffer once it is initialised.
pub emptied : FragBuf → FragBuf
emptied b = record {
  buffer = zeroed;
  cur_pos = 7;
  sdu_info = b.sdu_info;
  crc = b.crc;
  sdu = record { start = 7; end = 7 };
  alpdu = record { start = 7; end = 7 };
  ppdu = record { start = 7; end = 7 };
}

pub frag_buf_init_lem : (b : FragBuf) → frag_buf_init b ≡ some (emptied b)
unfolding frag_buf_init ptrs_set emptied
frag_buf_init_lem b = refl

pub frag_buf_cpy_sdu_lem :
    (b : FragBuf) (s : Sdu) → IsSdu s → frag_buf_cpy_sdu (emptied b) s ≡ some (0, filled b s)
unfolding frag_buf_cpy_sdu in_use sdu_put ptrs_put write_at filled emptied
frag_buf_cpy_sdu_lem b s v = ground (arith, take-length s.buffer s.size v.whole)

-- The CRC is stored if the configuration asks for it.
unfoldable pub with_crc : FragBuf → Config → Sdu → FragBuf
with_crc b conf s = record b {
  crc = if use_alpdu_crc conf then compute_crc32 s.protocol_type s.buffer else b.crc;
}

pub filled-IsFilled :
    (b : FragBuf) (conf : Config) (s : Sdu)
    → IsSdu s
    → IsFilled (with_crc (filled b s) conf s) s.buffer
unfolding filled with_crc
filled-IsFilled b conf s v = record {
  start = omega arith;
  same_start = refl;
  same_end = refl;
  cur = refl;
  bytes = slice-store_self zeroed 7 s.buffer;
  len = omega arith;
  some_sdu = omega arith;
  space = omega arith;
}

store_crc_lem :
    (b : FragBuf) (conf : Config) (s : Sdu)
    → ConfigLaws.IsValid conf
    → IsSdu s
    → store_crc (filled b s) conf ≡ some (with_crc (filled b s) conf s)
unfolding store_crc read_at filled with_crc use_alpdu_crc
store_crc_lem b conf s c v =
    ground
      (arith, ap (slice (store zeroed 7 s.buffer) 7) v.whole, slice-store_self zeroed 7 s.buffer)

filled-in_use : (b : FragBuf) (s : Sdu) → IsSdu s → in_use (filled b s) ≡ true
unfolding filled in_use
filled-in_use b s v = ground (arith, v.some_bytes)

pub encap_in_buffer_lem :
    (b : FragBuf) (conf : Config) (s : Sdu)
    → ConfigLaws.IsValid conf
    → IsSdu s
    → encap_in_buffer conf (filled b s)
      ≡ (push_alpdu_hdr (with_crc (filled b s) conf s) conf >>= λ c. some (encap_ok, c))
unfolding encap_in_buffer
encap_in_buffer_lem b conf s c v = rw (filled-in_use b s v, store_crc_lem b conf s c v)
