-- ===== src/Pack.antt =====
-- src/pack.c: PPDUs packed into an FPDU. The FPDU is a byte array seen from its start; the sizes
-- are those that the caller keeps. The flags say which pointers are given.
pub mod Placed
pub mod Filled
pub mod Calls
use librle.Prelude.{
  ℕ, Bool, true, false, ◌&&◌, ◌||◌, not, ltb, ◌==◌, if◌then◌else◌, Option, none, some, List, [],
  replicate, ◌>>=◌, read_bytes,
}
use librle.Prelude.Int.{sub_size, add_size}
use librle.Prelude.Memory.{Memory, store}

-- `enum rle_pack_status`
pub data PackStatus : Type 0 where
  pack_ok pack_err pack_err_fpdu_too_small pack_err_invalid_ppdu pack_err_invalid_lab : PackStatus

-- The FPDU, `*fpdu_current_pos` and `*fpdu_remaining_size`.
pub record Fpdu : Type 0 where
  pub bytes : Memory
  pub current_pos : ℕ
  pub remaining_size : ℕ

-- `(label_size != 0 && label_size != 3 && label_size != 6) || (label_size > 0 && label == NULL)`
unfoldable pub invalid_label : Option (List ℕ) → ℕ → Bool
invalid_label label label_size =
    (not (label_size == 0) && (not (label_size == 3) && not (label_size == 6)))
    || (ltb 0 label_size && elim label [ none ↦ true | some _ ↦ false ])

-- `memcpy(fpdu + pos, …)` of `n` bytes, and both sizes moved on.
unfoldable pub put_bytes : Fpdu → List ℕ → ℕ → Option Fpdu
put_bytes f source n = do
  xs ← read_bytes source n
  some (record {
    bytes = store f.bytes f.current_pos xs;
    current_pos = add_size f.current_pos n;
    remaining_size = sub_size f.remaining_size n;
  })

-- The bytes of the label; it is only read where it is given or has no bytes.
abbrev pub label_bytes : Option (List ℕ) → List ℕ
label_bytes none = []
label_bytes (some l) = l

-- `rle_pack_init`
unfoldable pub pack_init : Option (List ℕ) → ℕ → Option Fpdu → Option (PackStatus × Option Fpdu)
pack_init label label_size none =
    some (if invalid_label label label_size then (pack_err_invalid_lab, none) else (pack_err, none))
pack_init label label_size (some f) =
    if invalid_label label label_size
    then some (pack_err_invalid_lab, some f)
    else if not (f.current_pos == 0)
    then some (pack_err, some f)
    else if ltb f.remaining_size label_size
    then some (pack_err_fpdu_too_small, some f)
    else do f ← put_bytes f (label_bytes label) label_size; some (pack_ok, some f)

-- The label in front of the first PPDU.
unfoldable pub put_label : Fpdu → Option (List ℕ) → ℕ → Option Fpdu
put_label f label label_size =
    if f.current_pos == 0 && ltb 0 label_size
    then put_bytes f (label_bytes label) label_size
    else some f

-- `rle_pack` behind its NULL checks of the FPDU.
unfoldable pub pack_into :
    List ℕ → ℕ → Option (List ℕ) → ℕ → Fpdu → Option (PackStatus × Option Fpdu)
pack_into ppdu ppdu_length label label_size f =
    if (f.current_pos == 0 && ltb f.remaining_size (add_size label_size ppdu_length))
      || (not (f.current_pos == 0) && ltb f.remaining_size ppdu_length)
    then some (pack_err_fpdu_too_small, some f)
    else do
      f ← put_label f label label_size
      f ← put_bytes f ppdu ppdu_length
      some (pack_ok, some f)

-- `rle_pack`
unfoldable pub pack :
    Option (List ℕ) → ℕ → Option (List ℕ) → ℕ → Option Fpdu → Option (PackStatus × Option Fpdu)
pack none ppdu_length label label_size f = some (pack_err_invalid_ppdu, f)
pack (some ppdu) ppdu_length label label_size f =
    if ppdu_length == 0
    then some (pack_err_invalid_ppdu, f)
    else if invalid_label label label_size
    then some (pack_err_invalid_lab, f)
    else elim f [
      | none ↦ some (pack_err, none)
      | some f ↦ pack_into ppdu ppdu_length label label_size f
    ]

-- `rle_pad`
unfoldable pub pad : Fpdu → Fpdu
pad f =
    if f.remaining_size == 0
    then f
    else record f { bytes = store f.bytes f.current_pos (replicate f.remaining_size 0) }
