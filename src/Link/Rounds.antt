-- ===== src/Link/Rounds.antt =====
-- The rounds of the loop of `rle_decapsulate` (src/deencap.c) that read a PPDU or find padding.
use librle.Prelude.{
  ℕ, zero, suc, Option, ◌<◌, ◌≡◌, ◌==◌, ◌&&◌, false, some, List, [], ◌∷◌, ◌++◌, length, drop, arith,
  refl, ◌∙◌, sym, inl, inr, Bool-cases, replicate, length-append, ltb_of_le,
}
use librle.Constants.{Sdu}
use librle.Header.{get_fragment_length, read_cont_end, get_ppdu_length}
use librle.Receiver.{Receiver, Ret}
use librle.Decap.{DecapState, decap_ok, stop, next, finished, round, parse_ppdu, after_ppdu, parse}
use librle.Link.Step.{Processes}

-- The state of the loop of `rle_decapsulate`, without an error.
abbrev pub going : Receiver → List Sdu → DecapState
going r sdus = record { receiver = r; status = decap_ok; sdus = sdus }

pub some_sdu : {a b : Sdu} → some a ≡ some b → a ≡ b
some_sdu h = cc

some_size : {a b : ℕ} → some a ≡ some b → a ≡ b
some_size h = cc

zero_length : (xs : List ℕ) → get_fragment_length (0 ∷ 0 ∷ xs) ≡ some 2
unfolding get_fragment_length read_cont_end get_ppdu_length
zero_length xs = refl

not_padding :
    (b0 b1 : ℕ) (xs : List ℕ) (n : ℕ)
    → 2 < n
    → get_fragment_length (b0 ∷ b1 ∷ xs) ≡ some n
    → (b0 == 0 && b1 == 0) ≡ false
not_padding b0 b1 xs n long h = elim (Bool-cases (b0 == 0 && b1 == 0)) [
  | inl zeros ↦ absurd (
      let e0 : b0 ≡ 0 = ground arith in
      let e1 : b1 ≡ 0 = ground arith in
      let e : get_fragment_length (b0 ∷ b1 ∷ xs) ≡ some 2 = rw (e0, e1) (zero_length xs) in
      let k : n ≡ 2 = some_size (sym h ∙ e) in omega arith)
  | inr other ↦ other
]

-- A round of the loop reads a PPDU that the receiver processes.
pub round_ppdu :
    (max : ℕ) (r v : Receiver) (ppdu rest : List ℕ) (ret : Ret) (got more : List Sdu)
    → 2 < length ppdu
    → length got < max
    → Processes r ppdu rest ret v
    → ((i : Option ℕ) → after_ppdu (going r got) ret i v ≡ some (going v more))
    → round max (ppdu ++ rest) (going r got) ≡ some (next (length ppdu) (going v more))
unfolding round parse_ppdu
round_ppdu max r v [] rest ret got more long room (found, i, e) after = absurd (omega arith)
round_ppdu max r v (b0 ∷ []) rest ret got more long room (found, i, e) after = absurd (omega arith)
round_ppdu max r v (b0 ∷ b1 ∷ ppdu) rest ret got more long room (found, i, e) after = rw (
  not_padding b0 b1 (ppdu ++ rest) (length (b0 ∷ b1 ∷ ppdu)) long found,
  found,
  ltb_of_le (length (b0 ∷ b1 ∷ (ppdu ++ rest))) (length (b0 ∷ b1 ∷ ppdu))
      (omega (arith, length-append {0} ppdu rest)),
  (let k : (length got == max) ≡ false = ground arith in k),
  e,
  after i,
)

pub padded : (max k : ℕ) (s : DecapState) → round max (replicate k 0) s ≡ some (stop s)
unfolding round
padded max zero s = refl
padded max (suc zero) s = refl
padded max (suc (suc k)) s = refl

pub parse-next :
    (fuel max : ℕ) (rest : List ℕ) (s u : DecapState) (len : ℕ)
    → round max rest s ≡ some (next len u)
    → parse (suc fuel) max rest s ≡ parse fuel max (drop len rest) u
unfolding parse
parse-next fuel max rest s u len e = rw (e, parse) refl

pub parse-stop :
    (fuel max : ℕ) (rest : List ℕ) (s u : DecapState)
    → round max rest s ≡ some (stop u)
    → parse (suc fuel) max rest s ≡ finished u
unfolding parse
parse-stop fuel max rest s u e = rw (e, parse) refl
