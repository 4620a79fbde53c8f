-- ===== src/Header.antt =====
-- The PPDU headers of src/header.h, as the bit-fields of a little-endian target: the first
-- bit-field of a struct takes the low bits of its first byte. An assignment to a bit-field keeps
-- the low bits of the value; a mask of low bits is a remainder.
pub mod Laws
pub mod Wire
use librle.Prelude.{
  ℕ, ◌+◌, ◌*◌, ◌/◌, ◌%◌, bit_or, Bool, ◌==◌, if◌then◌else◌, Option, some, List, [], ◌∷◌, get_elem?,
  ◌>>=◌,
}

-- The length fields of `struct rle_ppdu_hdr_*`: `pkt_len_1` and `pkt_len_2`, or `total_len_1` and
-- `total_len_2`.
pub record SplitLength : Type 0 where
  pub high : ℕ
  pub low : ℕ

-- `rle_ppdu_hdr_set_ppdu_len`
unfoldable pub set_ppdu_len : ℕ → SplitLength
set_ppdu_len ppdu_len = record { high = ppdu_len % 2048 / 32 % 64; low = ppdu_len % 32 }

-- `rle_ppdu_hdr_get_ppdu_length`
unfoldable pub get_ppdu_length : SplitLength → ℕ
get_ppdu_length l = bit_or (l.high % 64 * 32 % 2048) (l.low % 32)

-- `rle_ppdu_hdr_start_set_total_len`
unfoldable pub start_set_total_len : ℕ → SplitLength
start_set_total_len total_len = record { high = total_len % 4096 / 32 % 128; low = total_len % 32 }

-- `rle_ppdu_hdr_start_get_total_len`
unfoldable pub start_get_total_len : SplitLength → ℕ
start_get_total_len l = bit_or (l.high % 128 * 32 % 4096) (l.low % 32)

-- `struct rle_ppdu_hdr_comp`
pub record CompHdr : Type 0 where
  pub start_ind : ℕ
  pub end_ind : ℕ
  pub pkt_len : SplitLength
  pub label_type : ℕ
  pub proto_type_supp : ℕ

-- `struct rle_ppdu_hdr_cont_end`
pub record ContEndHdr : Type 0 where
  pub start_ind : ℕ
  pub end_ind : ℕ
  pub pkt_len : SplitLength
  pub frag_id : ℕ

-- `struct rle_ppdu_hdr_start`
pub record StartHdr : Type 0 where
  pub start_ind : ℕ
  pub end_ind : ℕ
  pub pkt_len : SplitLength
  pub frag_id : ℕ
  pub use_crc : ℕ
  pub total_len : SplitLength
  pub label_type : ℕ
  pub proto_type_supp : ℕ

-- The first byte of every header.
abbrev pub first_byte : ℕ → ℕ → ℕ → ℕ
first_byte start_ind end_ind len_1 = len_1 % 64 + end_ind % 2 * 64 + start_ind % 2 * 128

-- The bytes that a header occupies in memory.
unfoldable pub comp_bytes : CompHdr → List ℕ
comp_bytes h =
    first_byte h.start_ind h.end_ind h.pkt_len.high
    ∷ (h.proto_type_supp % 2 + h.label_type % 4 * 2 + h.pkt_len.low % 32 * 8)
    ∷ []

unfoldable pub cont_end_bytes : ContEndHdr → List ℕ
cont_end_bytes h =
    first_byte h.start_ind h.end_ind h.pkt_len.high ∷ (h.frag_id % 8 + h.pkt_len.low % 32 * 8) ∷ []

unfoldable pub start_bytes : StartHdr → List ℕ
start_bytes h =
    first_byte h.start_ind h.end_ind h.pkt_len.high
    ∷ (h.frag_id % 8 + h.pkt_len.low % 32 * 8)
    ∷ (h.total_len.high % 128 + h.use_crc % 2 * 128)
    ∷ (h.proto_type_supp % 2 + h.label_type % 4 * 2 + h.total_len.low % 32 * 8)
    ∷ []

-- A header read from the bytes that a pointer sees; `none` is a read out of bounds. The casts of
-- the source to `rle_ppdu_hdr_comp_t *`, `rle_ppdu_hdr_cont_end_t *` and `rle_ppdu_hdr_start_t *`.
unfoldable pub read_comp : List ℕ → Option CompHdr
read_comp bytes = do
  b0 ← get_elem? bytes 0
  b1 ← get_elem? bytes 1
  some (record {
    start_ind = b0 / 128;
    end_ind = b0 / 64 % 2;
    pkt_len = record { high = b0 % 64; low = b1 / 8 };
    label_type = b1 / 2 % 4;
    proto_type_supp = b1 % 2;
  })

unfoldable pub read_cont_end : List ℕ → Option ContEndHdr
read_cont_end bytes = do
  b0 ← get_elem? bytes 0
  b1 ← get_elem? bytes 1
  some (record {
    start_ind = b0 / 128;
    end_ind = b0 / 64 % 2;
    pkt_len = record { high = b0 % 64; low = b1 / 8 };
    frag_id = b1 % 8;
  })

unfoldable pub read_start : List ℕ → Option StartHdr
read_start bytes = do
  b0 ← get_elem? bytes 0
  b1 ← get_elem? bytes 1
  b2 ← get_elem? bytes 2
  b3 ← get_elem? bytes 3
  some (record {
    start_ind = b0 / 128;
    end_ind = b0 / 64 % 2;
    pkt_len = record { high = b0 % 64; low = b1 / 8 };
    frag_id = b1 % 8;
    use_crc = b2 / 128;
    total_len = record { high = b2 % 128; low = b3 / 8 };
    label_type = b3 / 2 % 4;
    proto_type_supp = b3 % 2;
  })

-- `enum` of src/constants.h: RLE_PDU_COMPLETE, RLE_PDU_START_FRAG, RLE_PDU_CONT_FRAG,
-- RLE_PDU_END_FRAG.
pub data FragType : Type 0 where
  complete start_frag cont_frag end_frag : FragType

-- `rle_ppdu_get_fragment_type`
unfoldable pub get_fragment_type : ContEndHdr → FragType
get_fragment_type h =
    if h.start_ind == 0
    then (if h.end_ind == 0 then cont_frag else end_frag)
    else (if h.end_ind == 0 then start_frag else complete)

-- `rle_*_ppdu_hdr_get_is_signal`: RLE_LT_PROTO_SIGNAL is 3.
unfoldable pub is_signal : ℕ → Bool
is_signal label_type = label_type == 3

-- `rle_*_ppdu_hdr_get_is_suppressed`: RLE_T_PROTO_TYPE_SUPP is 1.
unfoldable pub is_suppressed : ℕ → Bool
is_suppressed proto_type_supp = proto_type_supp == 1

-- `get_fragment_length` of src/rle_ctx.c: the length field and the two bytes that hold it.
unfoldable pub get_fragment_length : List ℕ → Option ℕ
get_fragment_length bytes = do h ← read_cont_end bytes; some (get_ppdu_length h.pkt_len + 2)
