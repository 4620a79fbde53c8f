-- ===== src/Decap.antt =====
-- `rle_decapsulate` of src/deencap.c: the PPDUs of an FPDU, one after another.
pub mod Laws
use librle.Prelude.{
  ℕ, zero, suc, Bool, ◌&&◌, ◌||◌, not, ltb, ◌==◌, if◌then◌else◌, Option, none, some, List, [], ◌∷◌,
  ◌++◌, length, take, drop, ◌>>=◌,
}
use librle.Constants.{Sdu}
use librle.Header.{get_fragment_length}
use librle.Receiver.{Receiver, Ret, c_ok, c_reassembly_ok, c_error, free_context}
use librle.Reassembly.{deencap_data}

-- `enum rle_decap_status`, less the value that the source never uses.
pub data DecapStatus : Type 0 where
  decap_ok decap_err decap_err_null_rcvr decap_err_some_drop : DecapStatus
  decap_err_inv_fpdu decap_err_inv_sdus decap_err_inv_pl : DecapStatus

-- The variables of the loop: the receiver, the status, and the first `*sdus_nr` SDUs.
pub record DecapState : Type 0 where
  pub receiver : Receiver
  pub status : DecapStatus
  pub sdus : List Sdu

-- A round of the loop ends it, or goes on behind a PPDU of so many bytes.
pub data Round : Type 0 where
  stop : DecapState → Round
  next : ℕ → DecapState → Round

-- The end of a round, once the PPDU is parsed.
unfoldable pub after_ppdu : DecapState → Ret → Option ℕ → Receiver → Option DecapState
after_ppdu s c_ok i r = some (record s { receiver = r })
after_ppdu s (c_reassembly_ok sdu) i r =
    some (record s { receiver = r; sdus = s.sdus ++ (sdu ∷ []) })
after_ppdu s c_error none r = some (record s { receiver = r; status = decap_err })
after_ppdu s c_error (some i) r = do
  r ← free_context r i
  some (record s { receiver = r; status = decap_err })

-- The body of the loop for a PPDU at the start of `rest`, the FPDU from `offset` on.
unfoldable pub parse_ppdu : ℕ → List ℕ → DecapState → Option Round
parse_ppdu max_nr rest s = do
  len ← get_fragment_length rest
  if ltb (length rest) len
      then some (stop (record s { status = decap_err }))
      else if length s.sdus == max_nr
      then some (stop (record s { status = decap_err_some_drop }))
      else (do
        (ret, i, r) ← deencap_data s.receiver rest len
        s ← after_ppdu s ret i r
        some (next len s))

-- The condition of the loop, the test for padding, and its body.
unfoldable pub round : ℕ → List ℕ → DecapState → Option Round
round max_nr [] s = some (stop s)
round max_nr (b0 ∷ []) s = some (stop s)
round max_nr (b0 ∷ b1 ∷ rest) s =
    if b0 == 0 && b1 == 0 then some (stop s) else parse_ppdu max_nr (b0 ∷ b1 ∷ rest) s

-- What the loop comes to: a state, a fault of the program, or not enough fuel.
pub data Outcome : Type 0 where
  finished : DecapState → Outcome
  fault : Outcome
  out_of_fuel : Outcome

-- `while ((offset + 1) < fpdu_length && !padding_detected)`
unfoldable pub parse : ℕ → ℕ → List ℕ → DecapState → Outcome
parse zero max_nr rest s = out_of_fuel
parse (suc fuel) max_nr rest s = elim (round max_nr rest s) [
  | none ↦ fault
  | some (stop s) ↦ finished s
  | some (next len s) ↦ parse fuel max_nr (drop len rest) s
]

-- What `rle_decapsulate` leaves: `label` is what is copied to `payload_label`.
pub record Decap : Type 0 where
  pub outcome : Outcome
  pub label : List ℕ

-- The arguments of `rle_decapsulate` beside the receiver: `fpdu` has `fpdu_length` bytes; the flags
-- say which pointers are given.
pub record DecapArgs : Type 0 where
  pub fpdu : Option (List ℕ)
  pub sdus_given : Bool
  pub sdus_max_nr : ℕ
  pub payload_label_given : Bool
  pub payload_label_size : ℕ

-- `finished` with a status, before anything is parsed.
abbrev reject : Receiver → DecapStatus → Decap
reject r status = record {
  outcome = finished (record { receiver = r; status = status; sdus = [] });
  label = [];
}

-- The checks of the arguments behind those of the receiver and the FPDU; enough fuel for the loop
-- is one more than the bytes left.
unfoldable pub decap_fpdu : Receiver → List ℕ → DecapArgs → Decap
decap_fpdu r fpdu a =
    if length fpdu == 0
    then reject r decap_err_inv_fpdu
    else if ltb (length fpdu) a.payload_label_size
    then reject r decap_err_inv_fpdu
    else if not a.sdus_given || a.sdus_max_nr == 0
    then reject r decap_err_inv_sdus
    else if (not a.payload_label_given && not (a.payload_label_size == 0))
        || (a.payload_label_given && a.payload_label_size == 0)
    then reject r decap_err_inv_pl
    else if not (a.payload_label_size == 0)
        && (not (a.payload_label_size == 3) && not (a.payload_label_size == 6))
    then reject r decap_err_inv_pl
    else record {
      outcome =
          parse (suc (length fpdu)) a.sdus_max_nr (drop a.payload_label_size fpdu)
            (record { receiver = r; status = decap_ok; sdus = [] });
      label = take a.payload_label_size fpdu;
    }

-- `rle_decapsulate`; without a receiver only the status RLE_DECAP_ERR_NULL_RCVR is returned.
unfoldable pub rle_decapsulate : Option Receiver → DecapArgs → Option Decap
rle_decapsulate none a = none
rle_decapsulate (some r) a = elim a.fpdu [
  | none ↦ some (reject r decap_err_inv_fpdu)
  | some fpdu ↦ some (decap_fpdu r fpdu a)
]
