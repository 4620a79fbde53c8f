-- ===== src/Link/End.antt =====
-- `reassembly_end_ppdu` (src/reassembly.c) on the END PPDU of a flow.
use librle.Prelude.{
  ℕ, ◌+◌, ◌<◌, ◌≡◌, Bool, false, some, List, ◌++◌, length, drop, arith, refl, ap, ◌∙◌, sym, subst,
  ltb, append_assoc, if◌then◌else◌, ◌>>=◌, ==_self, length-append, take-append_length,
  drop-append_length, inl, inr,
}
use librle.Prelude.Int.{sub_size}
use librle.Constants.{Sdu}
use librle.Ctx.{RleCtx}
use librle.Ppdu.Flow.{Flow}
use librle.Trailer.{le32_bytes}
use librle.RasmBuf.{RasmBuf, rasm_get_sdu_len}
use librle.Reassembly.{end_body, end_checked, end_complete, append_fragment}
use librle.Reassembly.Partial.{IsPartial, append_fragment-IsPartial}
use librle.Transmitter.Encapsulated.{IsSdu}
use librle.Extract.Found.{Rebuilds}
use librle.Link.Receiving.{IsHeld, TakesTrailer}
use librle.Link.Rebuilt.{HasOctet, end_complete_lem}

pub trailer_length :
    (init : Bool) (next : ℕ) (f : Flow) (s : Sdu)
    → TakesTrailer init next f s
    → length f.trailer ≡ (if f.use_crc then 4 else 1)
unfolding le32_bytes
trailer_length init next f s (inl (on, same)) = rw (same, on) refl
trailer_length init next f s (inr (off, seq, same, _)) = rw (same, off) refl

-- The rest of the body is appended.
held_all :
    (b : RasmBuf) (f : Flow) (s : Sdu) (body rest : List ℕ)
    → IsSdu s
    → HasOctet s.buffer
    → (v : IsHeld b f s body) → length v.remaining < 4096
    → (c : RasmBuf) × (append_fragment b (f.left ++ rest) (length v.remaining) ≡ some (some c))
      × ((ctx : RleCtx) (init : Bool) (trailer : List ℕ)
          → end_complete ctx init c trailer ≡ end_checked ctx init trailer s)
held_all b f s body rest sdu octet v small =
    let e : f.left ++ rest ≡ v.remaining ++ (f.trailer ++ rest) =
      ap (λ t. t ++ rest) v.left ∙ append_assoc v.remaining f.trailer rest in
    let (c, appended, holds, size, ptype, comp) =
      (append_fragment-IsPartial b v.got (v.remaining ++ (f.trailer ++ rest)) (length body)
          (length v.remaining) v.holds
          (omega (arith, length-append v.remaining (f.trailer ++ rest))) small).1
        (omega (arith, ap length v.whole, length-append v.got v.remaining)) in
    let whole : IsPartial c body (length body) =
      subst (λ t. IsPartial c t (length body)) (sym v.whole)
        (subst (λ t. IsPartial c (v.got ++ t) (length body))
          (take-append_length v.remaining (f.trailer ++ rest)) holds) in
    (
      c,
      ap (λ t. append_fragment b t (length v.remaining)) e ∙ appended,
      λ ctx init trailer.
          end_complete_lem ctx init c s body trailer sdu octet whole (size ∙ v.size)
            (ptype ∙ v.ptype)
            (subst (λ p. Rebuilds p s.protocol_type s.buffer body) (sym comp) v.rebuilds),
    )

-- The buffer knows the total length.
held_len :
    (b : RasmBuf) (f : Flow) (s : Sdu) (body : List ℕ)
    → IsHeld b f s body
    → rasm_get_sdu_len b ≡ some b.size
unfolding rasm_get_sdu_len
held_len b f s body v = ground (arith, v.holds.sdu_start, v.holds.sdu_end, v.size)

left_lengths :
    (b : RasmBuf) (f : Flow) (s : Sdu) (body : List ℕ) (v : IsHeld b f s body)
    → length f.left ≡ length v.remaining + length f.trailer
left_lengths b f s body v = ap length v.left ∙ length-append v.remaining f.trailer

-- `reassembly_end_ppdu` up to the check of the trailer, for a fragment that fits.
end_body_step :
    (ctx : RleCtx) (init : Bool) (b c : RasmBuf) (alpdu : List ℕ) (n tl k : ℕ)
    → (if ctx.use_crc then 4 else 1) ≡ tl
    → ltb n tl ≡ false
    → rasm_get_sdu_len b ≡ some b.size
    → sub_size n tl ≡ k
    → append_fragment b alpdu k ≡ some (some c)
    → end_body ctx init b alpdu n ≡ (end_complete ctx init c (drop k alpdu) >>= λ st. some (st, c))
unfolding end_body
end_body_step ctx init b c alpdu n tl k crc long total rest appended =
    rw (crc, long, total, ==_self b.size, rest, appended, crc, rest) refl

pub end_body_lem :
    (ctx : RleCtx) (init : Bool) (b : RasmBuf) (f : Flow) (s : Sdu) (body rest : List ℕ)
    → IsSdu s
    → HasOctet s.buffer
    → IsHeld b f s body
    → ctx.use_crc ≡ f.use_crc
    → length f.trailer ≡ (if f.use_crc then 4 else 1)
    → length f.left < 2048
    → (c : RasmBuf) × (end_body ctx init b (f.left ++ rest) (length f.left)
        ≡ (end_checked ctx init (f.trailer ++ rest) s >>= λ st. some (st, c)))
end_body_lem ctx init b f s body rest sdu octet v crc trailer small =
    let lens = left_lengths b f s body v in
    let (c, appended, complete) = held_all b f s body rest sdu octet v (omega (arith, lens)) in
    (
      c,
      end_body_step ctx init b c (f.left ++ rest) (length f.left) (length f.trailer)
            (length v.remaining) (rw crc (sym trailer)) (ground (arith, lens))
            (held_len b f s body v) (ground (arith, lens)) appended
          ∙ ap (λ m. m >>= λ st. some (st, c))
              (ap (λ t. end_complete ctx init c (drop (length v.remaining) t))
                  (ap (λ t. t ++ rest) v.left ∙ append_assoc v.remaining f.trailer rest)
                ∙ (ap (end_complete ctx init c) (drop-append_length v.remaining (f.trailer ++ rest))
                    ∙ complete ctx init (f.trailer ++ rest))),
    )
