-- ===== src/Link/Receiving.antt =====
-- What a context of the receiver holds while the PPDUs of a flow arrive.
use librle.Prelude.{ℕ, ◌<◌, ◌≡◌, ◌⊎◌, Bool, true, false, List, [], ◌∷◌, ◌++◌, length, ◌==◌}
use librle.Constants.{Sdu}
use librle.Ctx.{is_free}
use librle.Crc.{compute_crc32}
use librle.Trailer.{le32_bytes}
use librle.Ppdu.Flow.{Flow}
use librle.Extract.Found.{Rebuilds}
use librle.RasmBuf.{RasmBuf}
use librle.Receiver.{Receiver}
use librle.Reassembly.Partial.{IsPartial}

-- A receiver whose context has this flag and expects this number will take the trailer of the flow
-- for that of the SDU: a CRC is that of the SDU; a sequence number is the first of the context, the
-- one expected, or 0.
abbrev pub TakesTrailer : Bool → ℕ → Flow → Sdu → Type 0
TakesTrailer init next f s =
    ((f.use_crc ≡ true) × (f.trailer ≡ le32_bytes (compute_crc32 s.protocol_type s.buffer)))
    ⊎ ((f.use_crc ≡ false)
        × (seq : ℕ) × (f.trailer ≡ seq ∷ [])
        × ((init ≡ false) ⊎ (seq ≡ next) ⊎ (seq ≡ 0)))

-- The buffer holds the first bytes of `body`, what follows the ALPDU header in the ALPDU of the SDU
-- `s`; the flow has the others to send.
pub record IsHeld (b : RasmBuf) (f : Flow) (s : Sdu) (body : List ℕ) : Type 0 where
  pub got : List ℕ
  pub remaining : List ℕ
  pub whole : body ≡ got ++ remaining
  pub left : f.left ≡ remaining ++ f.trailer
  pub holds : IsPartial b got (length body)
  pub size : b.size ≡ length body
  pub ptype : b.protocol_type ≡ s.protocol_type
  pub rebuilds : Rebuilds b.comp_protocol_type s.protocol_type s.buffer body

-- The context of the flow does so, and is in use.
pub record IsReceiving (r : Receiver) (f : Flow) (s : Sdu) (body : List ℕ) : Type 0 where
  pub index : f.frag_id < 8
  pub map : r.free_ctx < 256
  pub busy : is_free r.free_ctx f.frag_id ≡ false
  pub use_crc : (r.rle_ctx_man f.frag_id).use_crc ≡ f.use_crc
  pub held : IsHeld (r.rasm_bufs f.frag_id) f s body
  pub trailer :
      TakesTrailer (r.is_ctx_seqnum_init f.frag_id) (r.rle_ctx_man f.frag_id).next_seq_nb f s

-- `u` is `r` but for context `i`.
pub record IsSameBut (r u : Receiver) (i : ℕ) : Type 0 where
  pub conf : u.conf ≡ r.conf
  pub map : u.free_ctx < 256
  pub free : (j : ℕ) → j < 8 → (j == i) ≡ false → is_free u.free_ctx j ≡ is_free r.free_ctx j
  pub ctx : (j : ℕ) → (j == i) ≡ false → u.rle_ctx_man j ≡ r.rle_ctx_man j
  pub buf : (j : ℕ) → (j == i) ≡ false → u.rasm_bufs j ≡ r.rasm_bufs j
  pub init : (j : ℕ) → (j == i) ≡ false → u.is_ctx_seqnum_init j ≡ r.is_ctx_seqnum_init j
