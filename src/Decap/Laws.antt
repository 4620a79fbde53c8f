-- ===== src/Decap/Laws.antt =====
-- The loop of `rle_decapsulate` (src/deencap.c) ends.
use librle.Prelude.{
  >>=-eq-some, ℕ, zero, suc, ◌≤◌, ◌<◌, ◌≡◌, ◌≢◌, Option, none, some, List, [], ◌∷◌, length, drop,
  length-drop, arith, refl,
}
use librle.Header.{get_fragment_length}
use librle.Receiver.{Receiver}
use librle.Decap.{
  Round, stop, next, Outcome, finished, fault, out_of_fuel, parse, parse_ppdu, round, DecapState,
  decap_ok, DecapArgs, decap_fpdu,
}

get_fragment_length-positive :
    (rest : List ℕ) (len : ℕ) → get_fragment_length rest ≡ some len → 2 ≤ len
unfolding get_fragment_length
get_fragment_length-positive rest len h = ground arith

parse_ppdu-next :
    (max_nr : ℕ) (rest : List ℕ) (s u : DecapState) (len : ℕ)
    → parse_ppdu max_nr rest s ≡ some (next len u)
    → 2 ≤ len
unfolding parse_ppdu
parse_ppdu-next max_nr rest s u len h =
    let (l, e, k) = >>=-eq-some (get_fragment_length rest) _ h in
    ground (arith, get_fragment_length-positive rest l e)

-- A round that goes on has read a PPDU of two bytes or more.
round-next :
    (max_nr : ℕ) (rest : List ℕ) (s u : DecapState) (len : ℕ)
    → round max_nr rest s ≡ some (next len u)
    → (2 ≤ len) × (2 ≤ length rest)
unfolding round
round-next max_nr [] s u len h = cc
round-next max_nr (b0 ∷ []) s u len h = cc
round-next max_nr (b0 ∷ b1 ∷ rest) s u len h =
    (ground (arith, parse_ppdu-next max_nr (b0 ∷ b1 ∷ rest) s u len), omega arith)

-- What a round leads to.
goes_on : ℕ → ℕ → List ℕ → Option Round → Outcome
goes_on fuel max_nr rest r = elim r [
  | none ↦ fault
  | some (stop s) ↦ finished s
  | some (next len s) ↦ parse fuel max_nr (drop len rest) s
]

goes_on-ends :
    (fuel max_nr : ℕ) (rest : List ℕ) (r : Option Round)
    → ((len : ℕ) (u : DecapState)
        → r ≡ some (next len u)
        → parse fuel max_nr (drop len rest) u ≢ out_of_fuel)
    → goes_on fuel max_nr rest r ≢ out_of_fuel
unfolding goes_on
goes_on-ends fuel max_nr rest none h k = cc
goes_on-ends fuel max_nr rest (some (stop u)) h k = cc
goes_on-ends fuel max_nr rest (some (next len u)) h k = h len u refl k

parse-ends :
    (fuel max_nr : ℕ) (rest : List ℕ) (s : DecapState)
    → length rest < fuel
    → parse fuel max_nr rest s ≢ out_of_fuel
unfolding parse goes_on
parse-ends zero max_nr rest s h = absurd (omega arith)
parse-ends (suc fuel) max_nr rest s h =
    goes_on-ends fuel max_nr rest (round max_nr rest s) (λ len u e.
      let (two, more) = round-next max_nr rest s u len e in
      parse-ends fuel max_nr (drop len rest) u (omega (arith, length-drop len rest)))

-- The fuel of `decap_fpdu` is enough for every FPDU, receiver and argument: the loop of
-- `rle_decapsulate` ends, by a return or by a fault, whatever the bytes are.
pub decap_fpdu-ends :
    (r : Receiver) (fpdu : List ℕ) (a : DecapArgs) → (decap_fpdu r fpdu a).outcome ≢ out_of_fuel
unfolding decap_fpdu
decap_fpdu-ends r fpdu a h = ground (
  arith,
  parse-ends (suc (length fpdu)) a.sdus_max_nr (drop a.payload_label_size fpdu)
      (record { receiver = r; status = decap_ok; sdus = [] })
      (omega (arith, length-drop a.payload_label_size fpdu)),
)
