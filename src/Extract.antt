-- ===== src/Extract.antt =====
-- The second half of src/header.c: the protocol type and the SDU in an ALPDU. A pointer is the
-- list of the bytes from it to the end of the FPDU, so a read behind the PPDU is a read of what
-- follows it, and a read behind the FPDU is `none`. Lengths are `size_t` and wrap.
pub mod Found
pub mod Omitted
pub mod Layout
use librle.Prelude.{
  ℕ, Bool, ltb, ◌==◌, if◌then◌else◌, Option, none, some, List, get_elem?, drop, ◌>>=◌,
}
use librle.Prelude.Int.{sub_size}
use librle.Constants.{signal_uncomp, signal_comp, ipv4_uncomp, ipv6_uncomp, fallback, ip_comp}
use librle.Config.{Config}
use librle.Ptype.{ntohs, ip_version, ptype_decompression}

-- What `*_alpdu_extract_sdu_frag` writes through its pointers when it returns 0;
-- `alpdu_hdr_len` is what the callers count as the header.
pub record Extracted : Type 0 where
  pub ptype : ℕ
  pub comp_ptype : ℕ
  pub sdu_frag : List ℕ
  pub sdu_frag_len : ℕ
  pub alpdu_hdr_len : ℕ

-- The status 1, or 0 and the results.
pub data Extraction : Type 0 where
  failed : Extraction
  extracted : Extracted → Extraction

-- `get_uncomp_ptype_from_sdu`; the inner `none` is `false`.
unfoldable pub get_uncomp_ptype_from_sdu : List ℕ → ℕ → Option (Option ℕ)
unfolding ip_version
get_uncomp_ptype_from_sdu sdu size = if ltb size 1 then some none else do
  first ← get_elem? sdu 0
  some (
      if ip_version first == 4
      then some ipv4_uncomp
      else if ip_version first == 6
      then some ipv6_uncomp
      else none)

-- `signal_alpdu_extract_sdu_frag`
unfoldable pub signal_alpdu_extract : List ℕ → ℕ → Option Extraction
signal_alpdu_extract alpdu len = some (
    extracted (record {
      ptype = signal_uncomp;
      comp_ptype = signal_comp;
      sdu_frag = alpdu;
      sdu_frag_len = len;
      alpdu_hdr_len = 0;
    }))

-- The protocol type that a compressed value stands for, read from the SDU where the value is 0x30.
unfoldable pub uncompressed_ptype : ℕ → List ℕ → ℕ → Option (Option ℕ)
uncompressed_ptype comp_ptype sdu len =
    if comp_ptype == ip_comp
    then get_uncomp_ptype_from_sdu sdu len
    else some (some (ptype_decompression comp_ptype))

-- The result of an extraction whose protocol type is `ptype`, if there is one.
abbrev with_ptype : Option ℕ → ℕ → List ℕ → ℕ → ℕ → Extraction
with_ptype none comp_ptype sdu len hdr_len = failed
with_ptype (some p) comp_ptype sdu len hdr_len = extracted (record {
  ptype = p;
  comp_ptype = comp_ptype;
  sdu_frag = sdu;
  sdu_frag_len = len;
  alpdu_hdr_len = hdr_len;
})

-- `suppr_alpdu_extract_sdu_frag`
unfoldable pub suppr_alpdu_extract : List ℕ → ℕ → Config → Option Extraction
suppr_alpdu_extract alpdu len conf = do
  ptype ← uncompressed_ptype conf.implicit_protocol_type alpdu len
  some (with_ptype ptype conf.implicit_protocol_type alpdu len 0)

-- `uncomp_alpdu_extract_sdu_frag`
unfoldable pub uncomp_alpdu_extract : List ℕ → ℕ → Option Extraction
uncomp_alpdu_extract alpdu len = if ltb len 2 then some failed else do
  ptype ← ntohs alpdu 0
  some (with_ptype (some ptype) fallback (drop 2 alpdu) (sub_size len 2) 2)

-- `comp_alpdu_extract_sdu_frag`
unfoldable pub comp_alpdu_extract : List ℕ → ℕ → Option Extraction
comp_alpdu_extract alpdu len = if ltb len 1 then some failed else do
  comp_ptype ← get_elem? alpdu 0
  if comp_ptype == fallback
      then (if ltb len 3 then some failed else do
        ptype ← ntohs alpdu 1
        some (with_ptype (some ptype) comp_ptype (drop 3 alpdu) (sub_size len 3) 3))
      else (do
        ptype ← uncompressed_ptype comp_ptype (drop 1 alpdu) (sub_size len 1)
        some (with_ptype ptype comp_ptype (drop 1 alpdu) (sub_size len 1) 1))

-- The choice among the four that `reassembly_comp_ppdu` and `reassembly_start_ppdu` make.
unfoldable pub alpdu_extract : Bool → Bool → Config → List ℕ → ℕ → Option Extraction
alpdu_extract suppressed signal conf alpdu len =
    if suppressed
    then (if signal then signal_alpdu_extract alpdu len else suppr_alpdu_extract alpdu len conf)
    else if conf.use_compressed_ptype == 0
    then uncomp_alpdu_extract alpdu len
    else comp_alpdu_extract alpdu len
