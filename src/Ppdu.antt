-- ===== src/Ppdu.antt =====
-- The PPDU headers that the transmitter puts in front of each fragment: `push_ppdu_hdr` of
-- src/header.c and the functions that it calls.
pub mod Put
pub mod Flow
pub mod Refine
use librle.Prelude.{
  ℕ, ◌+◌, ◌-◌, ◌%◌, Bool, true, false, ltb, leb, ◌==◌, if◌then◌else◌, Option, none, some, ◌>>=◌,
  ◌>>◌,
}
use librle.Prelude.Int.{sub_size, add_size}
use librle.Constants.{max_ppdu_pl_size, crc_size}
use librle.Config.{Config, use_alpdu_crc}
use librle.Ptype.{get_alpdu_label_type}
use librle.Header.{set_ppdu_len, start_set_total_len, comp_bytes, cont_end_bytes, start_bytes}
use librle.Ctx.{RleCtx}
use librle.FragBuf.{
  FragBuf, write_at, ppdu_push, ppdu_put, set_cur_pos, is_fragmented, get_remaining_alpdu_length,
  get_current_ppdu_len, get_alpdu_hdr_len, get_sdu_len, get_alpdu_trailer_len,
}
use librle.Trailer.{push_alpdu_trailer}

-- A `bool` stored in a bit-field.
abbrev pub to_bit : Bool → ℕ
to_bit true = 1
to_bit false = 0

-- `frag_buf_get_current_ppdu_len(frag_buf) - 2`, as a `uint16_t`.
abbrev pub len_field : ℕ → ℕ
len_field len = sub_size len 2 % 65536

-- `push_comp_ppdu_hdr`
unfoldable pub push_comp_ppdu_hdr : FragBuf → ℕ → Bool → Option FragBuf
unfolding ppdu_push get_current_ppdu_len write_at
push_comp_ppdu_hdr b label_type suppressed = do
  b ← ppdu_push b 2
  len ← get_current_ppdu_len b
  write_at b b.ppdu.start (
      comp_bytes (record {
        start_ind = 1;
        end_ind = 1;
        pkt_len = set_ppdu_len (len_field len);
        label_type = label_type;
        proto_type_supp = to_bit suppressed;
      }))

-- `push_start_ppdu_hdr`
unfoldable pub push_start_ppdu_hdr : FragBuf → ℕ → ℕ → Bool → Bool → Option FragBuf
unfolding ppdu_push get_current_ppdu_len get_alpdu_hdr_len get_sdu_len get_alpdu_trailer_len
    write_at start_bytes set_ppdu_len start_set_total_len
push_start_ppdu_hdr b frag_id label_type suppressed use_crc = do
  b ← ppdu_push b 4
  len ← get_current_ppdu_len b
  let total_len = (get_alpdu_hdr_len b + get_sdu_len b + get_alpdu_trailer_len b) % 65536
  write_at b b.ppdu.start (
      start_bytes (record {
        start_ind = 1;
        end_ind = 0;
        pkt_len = set_ppdu_len (len_field len);
        frag_id = frag_id;
        use_crc = to_bit use_crc;
        total_len = start_set_total_len total_len;
        label_type = label_type;
        proto_type_supp = to_bit suppressed;
      }))

-- `push_cont_ppdu_hdr`
unfoldable pub push_cont_ppdu_hdr : FragBuf → ℕ → Option FragBuf
unfolding ppdu_push get_current_ppdu_len write_at
push_cont_ppdu_hdr b frag_id = do
  b ← ppdu_push b 2
  len ← get_current_ppdu_len b
  write_at b b.ppdu.start (
      cont_end_bytes (record {
        start_ind = 0;
        end_ind = 0;
        pkt_len = set_ppdu_len (len_field len);
        frag_id = frag_id;
      }))

-- `push_end_ppdu_hdr`
unfoldable pub push_end_ppdu_hdr : FragBuf → ℕ → Option FragBuf
unfolding ppdu_push get_current_ppdu_len write_at
push_end_ppdu_hdr b frag_id = do
  b ← ppdu_push b 2
  len ← get_current_ppdu_len b
  write_at b b.ppdu.start (
      cont_end_bytes (record {
        start_ind = 0;
        end_ind = 1;
        pkt_len = set_ppdu_len (len_field len);
        frag_id = frag_id;
      }))

-- `push_ppdu_hdr` returns `false` before it has written anything, or `true` after it has moved
-- the buffer and the context on.
pub data Pushed : Type 0 where
  refused : Pushed
  pushed : FragBuf → Option RleCtx → Pushed

-- A CONT PPDU of `len` bytes of the ALPDU, or an END PPDU of them.
unfoldable pub put_cont_ppdu : FragBuf → ℕ → ℕ → Option FragBuf
unfolding ppdu_put push_cont_ppdu_hdr
put_cont_ppdu b frag_id len = do b ← ppdu_put b len; push_cont_ppdu_hdr b frag_id

unfoldable pub put_end_ppdu : FragBuf → ℕ → ℕ → Option FragBuf
unfolding ppdu_put push_end_ppdu_hdr
put_end_ppdu b frag_id len = do b ← ppdu_put b len; push_end_ppdu_hdr b frag_id

-- A START PPDU, and a COMPLETE PPDU, of at most `len` bytes of the ALPDU.
unfoldable pub put_start_ppdu : FragBuf → ℕ → ℕ → Bool → Bool → ℕ → Option FragBuf
unfolding ppdu_put push_start_ppdu_hdr
put_start_ppdu b frag_id label_type suppressed use_crc len = do
  b ← ppdu_put b len
  push_start_ppdu_hdr b frag_id label_type suppressed use_crc

unfoldable pub put_comp_ppdu : FragBuf → ℕ → Bool → ℕ → Option FragBuf
unfolding ppdu_put push_comp_ppdu_hdr
put_comp_ppdu b label_type suppressed len = do
  b ← ppdu_put b len
  push_comp_ppdu_hdr b label_type suppressed

-- `frag_buf_set_cur_pos(frag_buf); return true;`
unfoldable pub done : Option RleCtx → Option FragBuf → Option Pushed
unfolding set_cur_pos
done ctx r = do b ← r; some (pushed (set_cur_pos b) ctx)

-- How many bytes of the ALPDU a CONT PPDU takes when `max` fit and `remain`, which is more, are
-- left: the trailer of a CRC is not cut, and `none` is the refusal to send no byte at all. The
-- subtractions are those of `size_t`.
unfoldable pub cont_alpdu_len : Bool → ℕ → ℕ → Option ℕ
cont_alpdu_len use_crc remain max =
    let trailer_len : ℕ = if use_crc then crc_size else 0 in
    let overflow = sub_size remain max in
    if ltb overflow trailer_len
    then (let len = sub_size max (sub_size trailer_len overflow) in
        if len == 0 then none else some len)
    else some max

-- The part of `push_ppdu_hdr` for an ALPDU of which something is sent already. A NULL context
-- fails an `assert`.
unfoldable pub push_cont_or_end : FragBuf → Config → ℕ → ℕ → ℕ → Option RleCtx → Option Pushed
push_cont_or_end b conf ppdu_len capped remain none = none
push_cont_or_end b conf ppdu_len capped remain (some ctx) =
    if leb ppdu_len 2
    then some refused
    else let max = sub_size capped 2 in
      if leb remain max
      then done (some ctx) (put_end_ppdu b ctx.frag_id remain)
      else (elim (cont_alpdu_len (use_alpdu_crc conf) remain max) [
        | none ↦ some refused
        | some len ↦ done (some ctx) (put_cont_ppdu b ctx.frag_id len)
      ])

-- The START PPDU of an ALPDU that does not fit; it needs a context.
unfoldable pub push_start : FragBuf → Config → ℕ → Option RleCtx → Option Pushed
push_start b conf capped none = some refused
push_start b conf capped (some ctx) =
    let suppressed = get_alpdu_hdr_len b == 0 in
    let label_type =
      get_alpdu_label_type b.sdu_info.protocol_type suppressed conf.type_0_alpdu_label_size in
    if ltb capped (add_size (add_size 4 (get_alpdu_hdr_len b)) 1) then some refused else do
      (b, ctx) ← push_alpdu_trailer b conf ctx
      done (some ctx) (
          put_start_ppdu b ctx.frag_id label_type suppressed (use_alpdu_crc conf)
            (sub_size capped 4))

-- The COMPLETE PPDU of an ALPDU that fits.
unfoldable pub push_comp : FragBuf → Config → ℕ → Option RleCtx → Option Pushed
push_comp b conf capped ctx =
    let suppressed = get_alpdu_hdr_len b == 0 in
    let label_type =
      get_alpdu_label_type b.sdu_info.protocol_type suppressed conf.type_0_alpdu_label_size in
    if ltb capped 2
    then some refused
    else done ctx (put_comp_ppdu b label_type suppressed (sub_size capped 2))

-- `push_ppdu_hdr`
unfoldable pub push_ppdu_hdr : FragBuf → Config → ℕ → Option RleCtx → Option Pushed
push_ppdu_hdr b conf ppdu_len ctx = do
  remain ← get_remaining_alpdu_length b
  let std_max : ℕ = max_ppdu_pl_size + 2
  let capped = if ltb std_max ppdu_len then std_max else ppdu_len
  fragmented ← is_fragmented b
  if fragmented
      then push_cont_or_end b conf ppdu_len capped remain ctx
      else if ltb capped (add_size remain 2)
      then push_start b conf capped ctx
      else push_comp b conf capped ctx
