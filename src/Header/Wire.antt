-- ===== src/Header/Wire.antt =====
-- The bytes of the PPDU headers against the branch of src/header.h for a big-endian target, where
-- each length is one bit-field and the first bit-field of a struct takes the high bits.
use librle.Prelude.{some, ℕ, ◌+◌, ◌*◌, ◌/◌, ◌%◌, ◌^◌, ◌<◌, ◌≡◌, List, [], ◌∷◌, refl, arith, ap}
use librle.Header.{
  set_ppdu_len, start_set_total_len, StartHdr, comp_bytes, cont_end_bytes, start_bytes, SplitLength,
  get_ppdu_length, start_get_total_len, read_start, read_cont_end, get_fragment_length,
}
use librle.Header.Laws.{get_ppdu_length_sum, start_get_total_len_sum}

-- Bit-fields one behind another, each of a width and with a value, behind the number `word`.
abbrev pub packed : ℕ → List (ℕ × ℕ) → ℕ
packed word [] = word
packed word ((width, value) ∷ fields) = packed (word * 2 ^ width + value % 2 ^ width) fields

-- What a word of two or four bytes occupies on a big-endian target.
abbrev pub two_bytes : ℕ → List ℕ
two_bytes word = word / 2 ^ 8 % 256 ∷ word % 256 ∷ []

abbrev pub four_bytes : ℕ → List ℕ
four_bytes word = word / 2 ^ 24 % 256 ∷ word / 2 ^ 16 % 256 ∷ word / 2 ^ 8 % 256 ∷ word % 256 ∷ []

-- `struct rle_ppdu_hdr_comp` of a big-endian target.
unfoldable pub big_comp : ℕ → ℕ → ℕ → ℕ → ℕ → ℕ
big_comp start_ind end_ind pkt_len label_type proto_type_supp =
    packed 0
      ((1, start_ind) ∷ (1, end_ind) ∷ (11, pkt_len) ∷ (2, label_type) ∷ (1, proto_type_supp) ∷ [])

-- `struct rle_ppdu_hdr_cont_end` of a big-endian target.
unfoldable pub big_cont_end : ℕ → ℕ → ℕ → ℕ → ℕ
big_cont_end start_ind end_ind pkt_len frag_id =
    packed 0 ((1, start_ind) ∷ (1, end_ind) ∷ (11, pkt_len) ∷ (3, frag_id) ∷ [])

-- `struct rle_ppdu_hdr_start` of a big-endian target.
unfoldable pub big_start : ℕ → ℕ → ℕ → ℕ → ℕ → ℕ → ℕ → ℕ → ℕ
big_start start_ind end_ind pkt_len frag_id use_crc total_len label_type proto_type_supp =
    packed 0 (
      (1, start_ind)
      ∷ (1, end_ind)
      ∷ (11, pkt_len)
      ∷ (3, frag_id)
      ∷ (1, use_crc)
      ∷ (12, total_len)
      ∷ (2, label_type)
      ∷ (1, proto_type_supp)
      ∷ [])

comp_bytes-big_comp :
    (start_ind end_ind len label_type supp : ℕ)
    → comp_bytes (record {
      start_ind = start_ind;
      end_ind = end_ind;
      pkt_len = set_ppdu_len len;
      label_type = label_type;
      proto_type_supp = supp;
    })
      ≡ two_bytes (big_comp start_ind end_ind len label_type supp)
unfolding comp_bytes big_comp set_ppdu_len
comp_bytes-big_comp s e len lt t = ground arith

cont_end_bytes-big_cont_end :
    (start_ind end_ind len frag_id : ℕ)
    → cont_end_bytes (record {
      start_ind = start_ind;
      end_ind = end_ind;
      pkt_len = set_ppdu_len len;
      frag_id = frag_id;
    })
      ≡ two_bytes (big_cont_end start_ind end_ind len frag_id)
unfolding cont_end_bytes big_cont_end set_ppdu_len
cont_end_bytes-big_cont_end s e len id = ground arith

start_bytes-big_start :
    (start_ind end_ind len frag_id crc total label_type supp : ℕ)
    → start_bytes (record {
      start_ind = start_ind;
      end_ind = end_ind;
      pkt_len = set_ppdu_len len;
      frag_id = frag_id;
      use_crc = crc;
      total_len = start_set_total_len total;
      label_type = label_type;
      proto_type_supp = supp;
    })
      ≡ four_bytes (big_start start_ind end_ind len frag_id crc total label_type supp)
unfolding start_bytes big_start set_ppdu_len start_set_total_len
start_bytes-big_start s e len id crc total lt t = ground arith

-- The headers of the three kinds are the same bytes on a target of either byte order, for fields of
-- any value: the two parts of a length, and the single bit-field of the other target, put the same
-- bits on the wire, and so do all other fields.
pub headers_big_endian :
    (start_ind end_ind len frag_id crc total label_type supp : ℕ)
    → (comp_bytes (record {
      start_ind = start_ind;
      end_ind = end_ind;
      pkt_len = set_ppdu_len len;
      label_type = label_type;
      proto_type_supp = supp;
    })
        ≡ two_bytes (big_comp start_ind end_ind len label_type supp))
      × (cont_end_bytes (record {
        start_ind = start_ind;
        end_ind = end_ind;
        pkt_len = set_ppdu_len len;
        frag_id = frag_id;
      })
          ≡ two_bytes (big_cont_end start_ind end_ind len frag_id))
      × (start_bytes (record {
        start_ind = start_ind;
        end_ind = end_ind;
        pkt_len = set_ppdu_len len;
        frag_id = frag_id;
        use_crc = crc;
        total_len = start_set_total_len total;
        label_type = label_type;
        proto_type_supp = supp;
      })
          ≡ four_bytes (big_start start_ind end_ind len frag_id crc total label_type supp))
headers_big_endian s e len id crc total lt t = (
  comp_bytes-big_comp s e len lt t,
  cont_end_bytes-big_cont_end s e len id,
  start_bytes-big_start s e len id crc total lt t,
)

-- Four bytes in the order of the network.
abbrev pub word : ℕ → ℕ → ℕ → ℕ → ℕ
word b0 b1 b2 b3 = ((b0 * 256 + b1) * 256 + b2) * 256 + b3

-- From any four bytes, whatever follows them, the receiver takes for the header of a START PPDU the
-- bits of the word that they are in the order of the network: from the high end 1 for the start, 1
-- for the end, 11 for the length of the PPDU, 3 for the fragment id, 1 for the CRC, 12 for the total
-- length, 2 for the label type and 1 for the suppressed protocol type. The length of the fragment in
-- the FPDU is that of the PPDU and two.
pub read_start-word :
    (b0 b1 b2 b3 : ℕ) (rest : List ℕ)
    → b0 < 256
    → b1 < 256
    → b2 < 256
    → b3 < 256
    → (h : StartHdr) × (read_start (b0 ∷ b1 ∷ b2 ∷ b3 ∷ rest) ≡ some h)
      × (h.start_ind ≡ word b0 b1 b2 b3 / 2 ^ 31)
      × (h.end_ind ≡ word b0 b1 b2 b3 / 2 ^ 30 % 2)
      × (get_ppdu_length h.pkt_len ≡ word b0 b1 b2 b3 / 2 ^ 19 % 2 ^ 11)
      × (h.frag_id ≡ word b0 b1 b2 b3 / 2 ^ 16 % 2 ^ 3)
      × (h.use_crc ≡ word b0 b1 b2 b3 / 2 ^ 15 % 2)
      × (start_get_total_len h.total_len ≡ word b0 b1 b2 b3 / 2 ^ 3 % 2 ^ 12)
      × (h.label_type ≡ word b0 b1 b2 b3 / 2 % 2 ^ 2)
      × (h.proto_type_supp ≡ word b0 b1 b2 b3 % 2)
      × (get_fragment_length (b0 ∷ b1 ∷ b2 ∷ b3 ∷ rest)
          ≡ some (word b0 b1 b2 b3 / 2 ^ 19 % 2 ^ 11 + 2))
unfolding read_start get_fragment_length read_cont_end
read_start-word b0 b1 b2 b3 rest h0 h1 h2 h3 =
    let len : SplitLength = record { high = b0 % 64; low = b1 / 8 } in
    let total : SplitLength = record { high = b2 % 128; low = b3 / 8 } in
    let at_len : get_ppdu_length len ≡ word b0 b1 b2 b3 / 2 ^ 19 % 2 ^ 11 =
      omega (arith, get_ppdu_length_sum len) in
    (
      record {
        start_ind = b0 / 128;
        end_ind = b0 / 64 % 2;
        pkt_len = len;
        frag_id = b1 % 8;
        use_crc = b2 / 128;
        total_len = total;
        label_type = b3 / 2 % 4;
        proto_type_supp = b3 % 2;
      },
      refl,
      omega arith,
      omega arith,
      at_len,
      omega arith,
      omega arith,
      omega (arith, start_get_total_len_sum total),
      omega arith,
      omega arith,
      ap (λ n. some (n + 2)) at_len,
    )
