-- ===== src/Link/Headers.antt =====
-- What the receiver (src/reassembly.c, src/rle_ctx.c) reads in the headers that the transmitter
-- (src/header.c) writes.
use librle.Prelude.{
  none, ℕ, ◌+◌, ◌%◌, ◌<◌, ◌*◌, ◌≤◌, ◌≡◌, Bool, true, false, some, List, ◌++◌, arith, refl, ap, ◌∙◌,
  leb,
}
use librle.Header.{
  ContEndHdr, set_ppdu_len, start_set_total_len, comp_bytes, cont_end_bytes, start_bytes, read_comp,
  read_cont_end, read_start, get_fragment_type, get_fragment_length, get_ppdu_length,
}
use librle.Header.Laws.{
  FitsLength, get_ppdu_length-set_ppdu_len, read_cont_end-cont_end_bytes, read_comp-comp_bytes,
  read_start-start_bytes,
}
use librle.Ppdu.{to_bit}
use librle.Ppdu.Put.{cont_hdr, end_hdr, comp_hdr, start_hdr}
use librle.Receiver.{Receiver, Ret}
use librle.Reassembly.{deencap_data, cont_ppdu, end_ppdu, comp_ppdu, start_ppdu}

set_ppdu_len-FitsLength : (n : ℕ) → FitsLength (set_ppdu_len n) 64
unfolding set_ppdu_len
set_ppdu_len-FitsLength n = (omega arith, omega arith)

start_set_total_len-FitsLength : (n : ℕ) → FitsLength (start_set_total_len n) 128
unfolding start_set_total_len
start_set_total_len-FitsLength n = (omega arith, omega arith)

to_bit-lt : (b : Bool) → to_bit b < 2
to_bit-lt true = omega arith
to_bit-lt false = omega arith

pub read_cont :
    (id n : ℕ) (rest : List ℕ)
    → id < 8
    → read_cont_end (cont_end_bytes (cont_hdr id n) ++ rest) ≡ some (cont_hdr id n)
read_cont id n rest small = read_cont_end-cont_end_bytes (cont_hdr id n) rest (record {
  start_ind = omega arith;
  end_ind = omega arith;
  pkt_len = set_ppdu_len-FitsLength n;
  frag_id = small;
})

pub read_end :
    (id n : ℕ) (rest : List ℕ)
    → id < 8
    → read_cont_end (cont_end_bytes (end_hdr id n) ++ rest) ≡ some (end_hdr id n)
read_end id n rest small = read_cont_end-cont_end_bytes (end_hdr id n) rest (record {
  start_ind = omega arith;
  end_ind = omega arith;
  pkt_len = set_ppdu_len-FitsLength n;
  frag_id = small;
})

-- The two first bytes of a START PPDU, read as those of a CONT or END PPDU.
pub read_start_prefix :
    (id lt : ℕ) (supp crc : Bool) (total n : ℕ) (rest : List ℕ)
    → id < 8
    → read_cont_end (start_bytes (start_hdr id lt supp crc total n) ++ rest)
      ≡ some (record { start_ind = 1; end_ind = 0; pkt_len = set_ppdu_len n; frag_id = id })
unfolding read_cont_end start_bytes
read_start_prefix id lt supp crc total n rest small = ground (arith, set_ppdu_len-FitsLength n)

pub read_start_whole :
    (id lt : ℕ) (supp crc : Bool) (total n : ℕ) (rest : List ℕ)
    → id < 8
    → lt < 4
    → read_start (start_bytes (start_hdr id lt supp crc total n) ++ rest)
      ≡ some (start_hdr id lt supp crc total n)
read_start_whole id lt supp crc total n rest small type =
    read_start-start_bytes (start_hdr id lt supp crc total n) rest (record {
      start_ind = omega arith;
      end_ind = omega arith;
      pkt_len = set_ppdu_len-FitsLength n;
      frag_id = small;
      use_crc = to_bit-lt crc;
      total_len = start_set_total_len-FitsLength total;
      label_type = type;
      proto_type_supp = to_bit-lt supp;
    })

pub read_comp_whole :
    (lt : ℕ) (supp : Bool) (n : ℕ) (rest : List ℕ)
    → lt < 4
    → read_comp (comp_bytes (comp_hdr lt supp n) ++ rest) ≡ some (comp_hdr lt supp n)
read_comp_whole lt supp n rest type = read_comp-comp_bytes (comp_hdr lt supp n) rest (record {
  start_ind = omega arith;
  end_ind = omega arith;
  pkt_len = set_ppdu_len-FitsLength n;
  label_type = type;
  proto_type_supp = to_bit-lt supp;
})

pub read_comp_prefix :
    (lt : ℕ) (supp : Bool) (n : ℕ) (rest : List ℕ)
    → (id : ℕ) × (read_cont_end (comp_bytes (comp_hdr lt supp n) ++ rest)
        ≡ some (record { start_ind = 1; end_ind = 1; pkt_len = set_ppdu_len n; frag_id = id }))
unfolding read_cont_end comp_bytes
read_comp_prefix lt supp n rest = (
  (to_bit supp % 2 + lt % 4 * 2 + (set_ppdu_len n).low % 32 * 8) % 8,
  ground (arith, set_ppdu_len-FitsLength n),
)

pub fragment_length :
    (bytes : List ℕ) (h : ContEndHdr) (n : ℕ)
    → read_cont_end bytes ≡ some h
    → h.pkt_len ≡ set_ppdu_len n
    → n < 2048
    → get_fragment_length bytes ≡ some (n + 2)
unfolding get_fragment_length
fragment_length bytes h n e same small = rw e (
    ap (λ l. some (get_ppdu_length l + 2)) same
    ∙ ap (λ k. some (k + 2)) (get_ppdu_length-set_ppdu_len n small))

-- The branch of `rle_receiver_deencap_data` for each type of PPDU.
pub deencap_cont :
    (r u : Receiver) (bytes : List ℕ) (h : ContEndHdr) (n i : ℕ) (ret : Ret)
    → read_cont_end bytes ≡ some h
    → (h.start_ind ≡ 0) × (h.end_ind ≡ 0)
    → n < 2048
    → cont_ppdu r bytes (n + 2) ≡ some (ret, i, u)
    → deencap_data r bytes (n + 2) ≡ some (ret, some i, u)
unfolding deencap_data get_fragment_type
deencap_cont r u bytes h n i ret e (s, t) small step =
    rw (let e : leb (n + 2) 2049 ≡ true = ground arith in e, e, s, t, step) refl

pub deencap_end :
    (r u : Receiver) (bytes : List ℕ) (h : ContEndHdr) (n i : ℕ) (ret : Ret)
    → read_cont_end bytes ≡ some h
    → (h.start_ind ≡ 0) × (h.end_ind ≡ 1)
    → n < 2048
    → end_ppdu r bytes (n + 2) ≡ some (ret, i, u)
    → deencap_data r bytes (n + 2) ≡ some (ret, some i, u)
unfolding deencap_data get_fragment_type
deencap_end r u bytes h n i ret e (s, t) small step =
    rw (let e : leb (n + 2) 2049 ≡ true = ground arith in e, e, s, t, step) refl

pub deencap_start :
    (r u : Receiver) (bytes : List ℕ) (h : ContEndHdr) (n i : ℕ) (ret : Ret)
    → read_cont_end bytes ≡ some h
    → (h.start_ind ≡ 1) × (h.end_ind ≡ 0)
    → n ≤ 2049
    → start_ppdu r bytes n ≡ some (ret, i, u)
    → deencap_data r bytes n ≡ some (ret, some i, u)
unfolding deencap_data get_fragment_type
deencap_start r u bytes h n i ret e (s, t) small step =
    rw (let e : leb n 2049 ≡ true = ground arith in e, e, s, t, step) refl

pub deencap_comp :
    (r : Receiver) (bytes : List ℕ) (h : ContEndHdr) (n : ℕ) (ret : Ret)
    → read_cont_end bytes ≡ some h
    → (h.start_ind ≡ 1) × (h.end_ind ≡ 1)
    → n < 2048
    → comp_ppdu r bytes (n + 2) ≡ some ret
    → deencap_data r bytes (n + 2) ≡ some (ret, none, r)
unfolding deencap_data get_fragment_type
deencap_comp r bytes h n ret e (s, t) small step =
    rw (let e : leb (n + 2) 2049 ≡ true = ground arith in e, e, s, t, step) refl
