-- ===== src/Reassembly/Vouched.antt =====
-- The trailer of an SDU that `reassembly_end_ppdu` (src/reassembly.c) hands out.
use librle.Prelude.{
  ℕ, ◌≤◌, ◌≡◌, ◌⊎◌, ◌==◌, ◌>>=◌, >>=-eq-some, Bool, true, false, Option, some, none, List, take,
  drop, get_elem?, arith, refl, subst, inl, inr, ltb, if◌then◌else◌, Bool-cases, Option-cases,
}
use librle.Prelude.Int.{sub_size}
use librle.Constants.{Sdu}
use librle.Crc.{compute_crc32}
use librle.Ctx.{RleCtx}
use librle.Trailer.{TrailerCheck, check_alpdu_trailer, check_seqno, read_le32}
use librle.RasmBuf.{RasmBuf, rasm_get_sdu_len, get_reassembled_sdu_len, rasm_read}
use librle.Reassembly.{
  EndState, end_failed, rebuild_sdu, append_fragment, end_checked, end_complete, end_body,
}

-- The trailer fits the SDU: it is the CRC of its bytes, or the sequence number that the context
-- takes.
abbrev pub IsVouched : RleCtx → Bool → List ℕ → Sdu → Type 0
IsVouched ctx init trailer s =
    ((ctx.use_crc ≡ true)
      × (read_le32 trailer ≡ some (compute_crc32 s.protocol_type (take s.size s.buffer))))
    ⊎ ((ctx.use_crc ≡ false)
        × (n : ℕ) × (get_elem? trailer 0 ≡ some n)
        × ((init ≡ false) ⊎ (n ≡ ctx.next_seq_nb) ⊎ (n ≡ 0)))

check_seqno-passed :
    (n : ℕ) (ctx : RleCtx) (init : Bool)
    → (check_seqno n ctx init).status ≡ 0
    → (init ≡ false) ⊎ (n ≡ ctx.next_seq_nb) ⊎ (n ≡ 0)
unfolding check_seqno
check_seqno-passed n ctx false h = inl refl
check_seqno-passed n ctx true h = elim (Bool-cases (n == ctx.next_seq_nb)) [
  | inl expected ↦ inr (inl (ground arith))
  | inr other ↦ inr (inr (ground arith))
]

check_alpdu_trailer-passed :
    (trailer : List ℕ) (s : Sdu) (ctx : RleCtx) (init : Bool) (k : TrailerCheck)
    → check_alpdu_trailer trailer s ctx init ≡ some k
    → k.status ≡ 0
    → IsVouched ctx init trailer s
unfolding check_alpdu_trailer
check_alpdu_trailer-passed trailer s ctx init k h fine = elim (Bool-cases ctx.use_crc) [
  | inl on ↦ elim (Option-cases (read_le32 trailer)) [
    | inl missing ↦ absurd (ground arith)
    | inr (crc, at_crc) ↦ inl (on, ground arith)
  ]
  | inr off ↦ elim (Option-cases (get_elem? trailer 0)) [
    | inl missing ↦ absurd (ground arith)
    | inr (n, at_n) ↦ inr (off, n, at_n, check_seqno-passed n ctx init (ground arith))
  ]
]

some_eq : {A : Type 0} {x y : A} → some x ≡ some y → x ≡ y
some_eq h = cc

end_checked-IsVouched :
    (ctx : RleCtx) (init : Bool) (trailer : List ℕ) (sdu s : Sdu) (st : EndState)
    → end_checked ctx init trailer sdu ≡ some st
    → st.sdu ≡ some s
    → IsVouched ctx init trailer s
unfolding end_checked
end_checked-IsVouched ctx init trailer sdu s st h got =
    let (k, e, h2) = >>=-eq-some (check_alpdu_trailer trailer sdu ctx init) _ h in
    elim (Bool-cases (k.status == 0)) [
      | inl fine ↦
          let same : sdu ≡ s = ground arith in
          subst (IsVouched ctx init trailer) same
            (check_alpdu_trailer-passed trailer sdu ctx init k e (ground arith))
      | inr bad ↦ absurd (ground arith)
    ]

rebuilt :
    (ctx : RleCtx) (init : Bool) (trailer : List ℕ) (s : Sdu) (st : EndState) (o : Option Sdu)
    → (elim o [ none ↦ some (end_failed ctx init) | some x ↦ end_checked ctx init trailer x ])
      ≡ some st
    → st.sdu ≡ some s
    → IsVouched ctx init trailer s
rebuilt ctx init trailer s st none h got = absurd (ground arith)
rebuilt ctx init trailer s st (some x) h got = end_checked-IsVouched ctx init trailer x s st h got

end_complete-IsVouched :
    (ctx : RleCtx) (init : Bool) (b : RasmBuf) (trailer : List ℕ) (s : Sdu) (st : EndState)
    → end_complete ctx init b trailer ≡ some st
    → st.sdu ≡ some s
    → IsVouched ctx init trailer s
unfolding end_complete
end_complete-IsVouched ctx init b trailer s st h got =
    let (total, _, h2) = >>=-eq-some (rasm_get_sdu_len b) _ h in
    let (received, _, h3) = >>=-eq-some (get_reassembled_sdu_len b) _ h2 in
    elim (Bool-cases (ltb received total)) [
      | inl short ↦ absurd (ground arith)
      | inr whole ↦
          let (bytes, _, h4) = >>=-eq-some (rasm_read b b.size) _ (rw whole at h3) in
          let (o, _, h5) =
            >>=-eq-some (rebuild_sdu b.protocol_type b.comp_protocol_type bytes b.size) _ h4 in
          rebuilt ctx init trailer s st o h5 got
    ]

-- The length of the trailer that the context expects.
abbrev pub trailer_len : RleCtx → ℕ
trailer_len ctx = if ctx.use_crc then 4 else 1

-- A fragment of `len` bytes ends in a trailer that fits the SDU.
abbrev pub Vouches : RleCtx → Bool → List ℕ → ℕ → Sdu → Type 0
Vouches ctx init alpdu len s =
    (trailer_len ctx ≤ len) × IsVouched ctx init (drop (sub_size len (trailer_len ctx)) alpdu) s

-- What `end_body` does once the fragment is appended, or is not.
abbrev appended : RleCtx → Bool → RasmBuf → List ℕ → Option RasmBuf → Option (EndState × RasmBuf)
appended ctx init b trailer none = some (end_failed ctx init, b)
appended ctx init b trailer (some d) = do st ← end_complete ctx init d trailer; some (st, d)

appended-Vouched :
    (ctx : RleCtx) (init : Bool) (b c : RasmBuf) (trailer : List ℕ) (s : Sdu) (st : EndState)
    (o : Option RasmBuf)
    → appended ctx init b trailer o ≡ some (st, c)
    → st.sdu ≡ some s
    → IsVouched ctx init trailer s
appended-Vouched ctx init b c trailer s st none h got = absurd (ground arith)
appended-Vouched ctx init b c trailer s st (some d) h got =
    let (x, e, h2) = >>=-eq-some (end_complete ctx init d trailer) _ h in
    end_complete-IsVouched ctx init d trailer s x e (ground arith)

pub end_body-Vouches :
    (ctx : RleCtx) (init : Bool) (b c : RasmBuf) (alpdu : List ℕ) (len : ℕ) (s : Sdu)
    (st : EndState)
    → end_body ctx init b alpdu len ≡ some (st, c)
    → st.sdu ≡ some s
    → Vouches ctx init alpdu len s
unfolding end_body
end_body-Vouches ctx init b c alpdu len s st h got =
    let tl = trailer_len ctx in
    elim (Bool-cases (ltb len tl)) [
      | inl short ↦ absurd (ground arith)
      | inr long ↦
          let (total, _, h2) = >>=-eq-some (rasm_get_sdu_len b) _ (rw long at h) in
          elim (Bool-cases (b.size == total)) [
            | inl same ↦
                let (o, _, h3) =
                  >>=-eq-some (append_fragment b alpdu (sub_size len tl)) _ (rw same at h2) in
                (
                  ground arith,
                  appended-Vouched ctx init b c (drop (sub_size len tl) alpdu) s st o h3 got,
                )
            | inr other ↦ absurd (ground arith)
          ]
    ]
