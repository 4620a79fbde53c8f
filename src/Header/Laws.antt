-- ===== src/Header/Laws.antt =====
-- Headers written and read back (src/header.h).
use librle.Prelude.{
  length, refl, ℕ, ◌+◌, ◌*◌, ◌%◌, ◌<◌, ◌≡◌, refl, ap, ◌∙◌, bit_or, ◌==◌, eq_of_==, some, List, ◌++◌,
  arith,
}
use librle.Prelude.Tables.{passes, passes-at}
use librle.Header.{
  SplitLength, set_ppdu_len, get_ppdu_length, start_set_total_len, start_get_total_len, CompHdr,
  ContEndHdr, StartHdr, comp_bytes, cont_end_bytes, start_bytes, read_comp, read_cont_end,
  read_start,
}

-- The `|` of the two parts of a length is a sum.
bit_or_parts : (x y : ℕ) → x < 128 → y < 32 → bit_or (x * 32) y ≡ x * 32 + y
unfolding passes
bit_or_parts x y hx hy = eq_of_== _ _ (
    passes-at 32 (λ k. bit_or (x * 32) k == (x * 32 + k)) y
      (passes-at 128 (λ j. passes 32 (λ k. bit_or (j * 32) k == (j * 32 + k))) x refl hx) hy)

pub get_ppdu_length_sum : (l : SplitLength) → get_ppdu_length l ≡ l.high % 64 * 32 + l.low % 32
unfolding get_ppdu_length
get_ppdu_length_sum l =
    ap (λ t. bit_or t (l.low % 32)) (omega arith)
    ∙ bit_or_parts (l.high % 64) (l.low % 32) (omega arith) (omega arith)

pub start_get_total_len_sum :
    (l : SplitLength) → start_get_total_len l ≡ l.high % 128 * 32 + l.low % 32
unfolding start_get_total_len
start_get_total_len_sum l =
    ap (λ t. bit_or t (l.low % 32)) (omega arith)
    ∙ bit_or_parts (l.high % 128) (l.low % 32) (omega arith) (omega arith)

-- A PPDU length of 11 bits is read back.
pub get_ppdu_length-set_ppdu_len : (n : ℕ) → n < 2048 → get_ppdu_length (set_ppdu_len n) ≡ n
unfolding set_ppdu_len
get_ppdu_length-set_ppdu_len n h = omega (arith, get_ppdu_length_sum (set_ppdu_len n))

-- A total length of 12 bits is read back.
pub start_get_total_len-set_total_len :
    (n : ℕ) → n < 4096 → start_get_total_len (start_set_total_len n) ≡ n
unfolding start_set_total_len
start_get_total_len-set_total_len n h =
    omega (arith, start_get_total_len_sum (start_set_total_len n))

-- No length that a header can hold exceeds its field.
pub get_ppdu_length-lt : (l : SplitLength) → get_ppdu_length l < 2048
get_ppdu_length-lt l = omega (arith, get_ppdu_length_sum l)

pub start_get_total_len-lt : (l : SplitLength) → start_get_total_len l < 4096
start_get_total_len-lt l = omega (arith, start_get_total_len_sum l)

-- The bit-fields are wide enough for the values of a header.
abbrev pub FitsLength : SplitLength → ℕ → Type 0
FitsLength l width = (l.high < width) × (l.low < 32)

pub record CompFits (h : CompHdr) : Type 0 where
  pub start_ind : h.start_ind < 2
  pub end_ind : h.end_ind < 2
  pub pkt_len : FitsLength h.pkt_len 64
  pub label_type : h.label_type < 4
  pub proto_type_supp : h.proto_type_supp < 2

pub record ContEndFits (h : ContEndHdr) : Type 0 where
  pub start_ind : h.start_ind < 2
  pub end_ind : h.end_ind < 2
  pub pkt_len : FitsLength h.pkt_len 64
  pub frag_id : h.frag_id < 8

pub record StartFits (h : StartHdr) : Type 0 where
  pub start_ind : h.start_ind < 2
  pub end_ind : h.end_ind < 2
  pub pkt_len : FitsLength h.pkt_len 64
  pub frag_id : h.frag_id < 8
  pub use_crc : h.use_crc < 2
  pub total_len : FitsLength h.total_len 128
  pub label_type : h.label_type < 4
  pub proto_type_supp : h.proto_type_supp < 2

pub length-comp_bytes : (h : CompHdr) → length (comp_bytes h) ≡ 2
unfolding comp_bytes
length-comp_bytes h = refl

pub length-cont_end_bytes : (h : ContEndHdr) → length (cont_end_bytes h) ≡ 2
unfolding cont_end_bytes
length-cont_end_bytes h = refl

pub length-start_bytes : (h : StartHdr) → length (start_bytes h) ≡ 4
unfolding start_bytes
length-start_bytes h = refl

-- The header of a COMPLETE PPDU whose fields fit their bit-fields is read back from its
-- bytes, whatever follows them.
pub read_comp-comp_bytes :
    (h : CompHdr) (rest : List ℕ) → CompFits h → read_comp (comp_bytes h ++ rest) ≡ some h
unfolding read_comp comp_bytes
read_comp-comp_bytes h rest f = ground arith

-- The header of a CONT or END PPDU whose fields fit their bit-fields is read back from its
-- bytes, whatever follows them.
pub read_cont_end-cont_end_bytes :
    (h : ContEndHdr) (rest : List ℕ)
    → ContEndFits h
    → read_cont_end (cont_end_bytes h ++ rest) ≡ some h
unfolding read_cont_end cont_end_bytes
read_cont_end-cont_end_bytes h rest f = ground arith

-- The header of a START PPDU whose fields fit their bit-fields is read back from its
-- bytes, whatever follows them.
pub read_start-start_bytes :
    (h : StartHdr) (rest : List ℕ) → StartFits h → read_start (start_bytes h ++ rest) ≡ some h
unfolding read_start start_bytes
read_start-start_bytes h rest f = ground arith
