-- ===== src/Ppdu/Flow.antt =====
-- What the fragmentation of an ALPDU promises, on lists of bytes: the bytes still to be sent, and
-- the PPDU that a burst of a given size gets.
use librle.Prelude.{
  ℕ, ◌+◌, ◌-◌, min, Bool, true, ltb, leb, ◌==◌, if◌then◌else◌, Option, none, some, List, [], ◌++◌,
  length, take, drop,
}
use librle.Header.{comp_bytes, cont_end_bytes, start_bytes}
use librle.Ppdu.Put.{comp_hdr, cont_hdr, end_hdr, start_hdr}

-- An ALPDU that is being sent. Until its START PPDU `left` is the ALPDU without its trailer;
-- `hdr_len` is the length of the ALPDU header.
pub record Flow : Type 0 where
  pub frag_id : ℕ
  pub started : Bool
  pub left : List ℕ
  pub trailer : List ℕ
  pub hdr_len : ℕ
  pub label_type : ℕ
  pub use_crc : Bool

-- The PPDU, and what is left behind it.
abbrev pub Sent : Type 0
Sent = Option (List ℕ × Flow)

-- Every fragment of a started ALPDU leaves either nothing or at least the whole trailer.
unfoldable pub next_started : Flow → ℕ → Sent
next_started f max =
    if leb (length f.left) max
    then some (cont_end_bytes (end_hdr f.frag_id (length f.left)) ++ f.left, record f { left = [] })
    else let n = min max (length f.left - length f.trailer) in
      if n == 0
      then none
      else some (
        cont_end_bytes (cont_hdr f.frag_id n) ++ take n f.left,
        record f { left = drop n f.left },
      )

unfoldable pub next_unsent : Flow → ℕ → Sent
next_unsent f cap =
    if leb (length f.left + 2) cap
    then some (
      comp_bytes (comp_hdr f.label_type (f.hdr_len == 0) (length f.left)) ++ f.left,
      record f { left = [] },
    )
    else if ltb cap (4 + f.hdr_len + 1)
    then none
    else some (
      start_bytes (
            start_hdr f.frag_id f.label_type (f.hdr_len == 0) f.use_crc
              (length f.left + length f.trailer) (cap - 4 + 2))
          ++ take (cap - 4) f.left,
      record f { started = true; left = drop (cap - 4) f.left ++ f.trailer },
    )

-- No PPDU is longer than 2049 bytes.
unfoldable pub next_ppdu : Flow → ℕ → Sent
unfolding next_started next_unsent
next_ppdu f burst =
    let cap = min burst 2049 in
    if f.started
    then (if leb burst 2 then none else next_started f (cap - 2))
    else next_unsent f cap
